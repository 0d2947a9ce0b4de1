-- ===== src/Server/Wire/RoundTrip.antt =====
-- internal/server/wire/wire.go: what a peer restores from a message is what was sent.
use spectre.Prelude.{
  ℕ, ◌^◌, ◌<◌, ◌≡◌, ◌≢◌, refl, false, Option, none, some, List, [], ◌∷◌, ◌++◌, Text, text_eq,
  nat_eq, ◌==◌, ltb, length, is_some, All, arith, ok, Bool-cases, Option-cases, inl, inr,
  if◌then◌else◌, Assoc.lookup, Assoc.insert,
}
use spectre.Model.{
  Direction, ingress, egress, direction_eq, Change, retyped, change_eq, Retype, Difference, Traffic,
  Quarantine, Calls, State,
}
use spectre.Server.Wire.Enums.{change_round, json_type_round, kind_round, direction_round}
use spectre.Server.Wire.Reasons.{
  type_messages, difference_message, difference_messages, restored_types, difference_from_message,
  differences_from_messages, traffic_message, quarantine_message, restored_node, restored_traffic,
  reason_from_message, quarantine_from_message, directed_from_message,
}
use spectre.Server.Wire.Messages.{
  calls_message, restored_routes, calls_from_message, counts_any, held_message, state_message,
  restored_quarantines, unidentified, state_from_message,
}

-- Only a retyped difference has types, and a count is one of 32 bits.
abbrev pub IsSendableDifference : Difference → Type 0
IsSendableDifference d = (is_some d.retype ≡ (d.change == retyped)) × (d.count < 2 ^ 32)

-- A node that is given has a name.
abbrev pub IsSendable : Quarantine → Type 0
IsSendable q = (q.reason.node ≢ some []) × All IsSendableDifference q.reason.differences

types_round :
    (c : Change) (t : Option Retype)
    → is_some t ≡ (c == retyped)
    → restored_types c (type_messages t).0 (type_messages t).1 ≡ ok t
types_round retyped (some t) h = rw (json_type_round t.reference, json_type_round t.candidate) refl
types_round _ none h = ground arith
types_round _ (some t) h = ground arith

difference_round :
    (d : Difference)
    → IsSendableDifference d
    → difference_from_message (difference_message d) ≡ ok d
difference_round d (only, fits) =
    rw (change_round d.change, types_round d.change d.retype only) (ground arith)

pub differences_round :
    (ds : List Difference)
    → All IsSendableDifference ds
    → differences_from_messages (difference_messages ds) ≡ ok ds
unfolding difference_messages differences_from_messages
differences_round [] h = refl
differences_round (d ∷ ds) (first, others) =
    rw (difference_round d first, differences_round ds others) refl

traffic_round : (t : Option Traffic) → restored_traffic (traffic_message t) ≡ ok t
traffic_round none = refl
traffic_round (some t) = rw (direction_round t.direction) refl

node_round : (n : Option Text) → n ≢ some [] → restored_node n ≡ n
node_round none named = refl
node_round (some []) named = ground (arith, named)
node_round (some (c ∷ cs)) named = refl

pub reason_round :
    (d : Direction) (q : Quarantine)
    → IsSendable q
    → reason_from_message (quarantine_message d q) ≡ ok q.reason
unfolding reason_from_message quarantine_message
reason_round d q (named, differences) =
    rw
      (
        kind_round q.reason.kind,
        differences_round q.reason.differences differences,
        traffic_round q.reason.traffic,
        node_round q.reason.node named,
      )
      refl

pub directed_round :
    (d : Direction) (q : Quarantine)
    → IsSendable q
    → directed_from_message (quarantine_message d q) ≡ ok (d, q)
unfolding directed_from_message quarantine_from_message quarantine_message
directed_round d q h = rw (direction_round d, reason_round d q h) refl

-- A state's quarantines with ingress first, which is the same map.
abbrev pub entry_of : Direction → Option Quarantine → List (Direction × Quarantine)
entry_of d none = []
entry_of d (some q) = (d, q) ∷ []

abbrev pub ingress_first : List (Direction × Quarantine) → List (Direction × Quarantine)
ingress_first m = entry_of ingress (lookup ingress m) ++ entry_of egress (lookup egress m)

abbrev pub canonical : State → State
canonical s = record s { quarantines = ingress_first s.quarantines }

pub lookup-ingress_first :
    (d : Direction) (m : List (Direction × Quarantine)) → lookup d (ingress_first m) ≡ lookup d m
unfolding lookup
lookup-ingress_first ingress m = elim (Option-cases (lookup ingress m)) [
  | inl e ↦ elim (Option-cases (lookup egress m)) [
    | inl f ↦ rw (e, f) refl
    | inr (q, f) ↦ rw (e, f) refl
  ]
  | inr (p, e) ↦ rw e refl
]
lookup-ingress_first egress m = elim (Option-cases (lookup ingress m)) [
  | inl e ↦ elim (Option-cases (lookup egress m)) [
    | inl f ↦ rw (e, f) refl
    | inr (q, f) ↦ rw (e, f) refl
  ]
  | inr (p, e) ↦ elim (Option-cases (lookup egress m)) [
    | inl f ↦ rw (e, f) refl
    | inr (q, f) ↦ rw (e, f) refl
  ]
]

abbrev pub IsRouted : Calls → Type 0
IsRouted c = All (λ (e : Text × ℕ). (e.0 == []) ≡ false) c.routes

-- A state that names its mirror and the routes that it counts, with quarantines that can be sent.
pub record IsReportable (s : State) : Type 0 where
  pub identified : unidentified s.service s.environment s.revision ≡ false
  pub routed : IsRouted s.calls
  pub held : (d : Direction) (q : Quarantine) → lookup d s.quarantines ≡ some q → IsSendable q

routes_round :
    (routes : List (Text × ℕ))
    → All (λ (e : Text × ℕ). (e.0 == []) ≡ false) routes
    → restored_routes routes ≡ ok routes
unfolding restored_routes
routes_round [] h = refl
routes_round ((route, count) ∷ rest) (named, others) = rw (named, routes_round rest others) refl

pub calls_round : (c : Calls) → IsRouted c → calls_from_message (some (calls_message c)) ≡ ok c
unfolding calls_from_message calls_message
calls_round c h = rw (routes_round c.routes h) refl

no_routes : (routes : List (Text × ℕ)) → ltb 0 (length routes) ≡ false → routes ≡ []
no_routes [] h = refl
no_routes (r ∷ rs) h = ground arith

none_counted : (c : Calls) → counts_any c ≡ false → calls_from_message none ≡ ok c
unfolding calls_from_message
none_counted c e = ground (arith, no_routes c.routes)

pub state_calls_round :
    (c : Calls)
    → IsRouted c
    → calls_from_message (if counts_any c then some (calls_message c) else none) ≡ ok c
state_calls_round c h = elim (Bool-cases (counts_any c)) [
  | inl e ↦ rw e (calls_round c h)
  | inr e ↦ rw e (none_counted c e)
]

pub quarantines_round :
    (i e : Option Quarantine)
    → ((q : Quarantine) → i ≡ some q → IsSendable q)
    → ((q : Quarantine) → e ≡ some q → IsSendable q)
    → restored_quarantines (held_message ingress i ++ held_message egress e) []
      ≡ ok (entry_of ingress i ++ entry_of egress e)
unfolding restored_quarantines lookup insert
quarantines_round none none hi he = refl
quarantines_round (some p) none hi he = rw (directed_round ingress p (hi p refl)) refl
quarantines_round none (some q) hi he = rw (directed_round egress q (he q refl)) refl
quarantines_round (some p) (some q) hi he =
    rw (directed_round ingress p (hi p refl), directed_round egress q (he q refl)) refl

pub state_round :
    (s : State) → IsReportable s → state_from_message (state_message s) ≡ ok (canonical s)
unfolding state_from_message state_message
state_round s h =
    rw
      (
        h.identified,
        state_calls_round s.calls h.routed,
        quarantines_round (lookup ingress s.quarantines) (lookup egress s.quarantines)
            (h.held ingress) (h.held egress),
      )
      refl
