-- ===== src/Server/Wire/Accepted.antt =====
-- internal/server/wire/wire.go: what an accepted message of a state is known to hold.
use spectre.Prelude.{
  Bool, ℕ, suc, ◌+◌, ◌≡◌, refl, sym, ◌==◌, nat_eq, text_eq, true, false, Option, none, some, List,
  [], ◌∷◌, Text, All, ok, failed, bind-ok, length, is_some, arith, eq_iff, if◌then◌else◌,
  Assoc.lookup, Assoc.insert, Assoc.IsMap, Assoc.insert-IsMap, Assoc.lookup-insert, eq_refl,
}
use spectre.Model.{Direction, direction_eq, Quarantine, Calls, State}
use spectre.Server.Wire.Enums.{
  WireError, Restored, state_needs_identity, state_needs_uptime, more_than_one_quarantine,
}
use spectre.Server.Wire.Reasons.{PbQuarantine, directed_from_message}
use spectre.Server.Wire.Messages.{
  PbCalls, PbState, restored_state, restored_routes, calls_from_message, restored_quarantines,
  unidentified, state_from_message,
}
use spectre.Server.Wire.RoundTrip.{IsRouted}

length-insert :
    (d : Direction) (q : Quarantine) (m : List (Direction × Quarantine))
    → lookup d m ≡ none
    → length (insert d q m) ≡ suc (length m)
unfolding lookup insert
length-insert d q [] h = refl
length-insert d q ((e, p) ∷ m) h = ground (arith, eq_iff e d, length-insert d q m)

not_refused :
    (held : Option Quarantine) (e : WireError) (r : Restored (List (Direction × Quarantine)))
    (found : List (Direction × Quarantine))
    → (if is_some held then failed e else r) ≡ ok found
    → (held ≡ none) × (r ≡ ok found)
not_refused none e r found h = (refl, h)
not_refused (some q) e r found h = cc

-- The quarantine of a message, under its direction, is one of a map.
abbrev pub IsHeld : PbQuarantine → List (Direction × Quarantine) → Type 0
IsHeld m held =
    (d : Direction) × (q : Quarantine) × (directed_from_message m ≡ ok (d, q))
    × (lookup d held ≡ some q)

-- What is held already stays.
restored_keeps :
    (ms : List PbQuarantine) (held found : List (Direction × Quarantine)) (d : Direction)
    (q : Quarantine)
    → restored_quarantines ms held ≡ ok found
    → lookup d held ≡ some q
    → lookup d found ≡ some q
unfolding restored_quarantines
restored_keeps [] held found d q e h = let same : held ≡ found = cc in rw (sym same) h
restored_keeps (m ∷ ms) held found d q e h =
    let ((c, p), restored, rest) = bind-ok (directed_from_message m) _ found e in
    let (fresh, next) =
      not_refused (lookup c held) (more_than_one_quarantine c)
        (restored_quarantines ms (insert c p held)) found rest in
    restored_keeps ms (insert c p held) found d q next
      (ground (arith, h, fresh, eq_iff c d, lookup-insert c d p held))

quarantines_accepted :
    (ms : List PbQuarantine) (held found : List (Direction × Quarantine))
    → IsMap held
    → restored_quarantines ms held ≡ ok found
    → IsMap found
      × (length found ≡ length ms + length held)
      × All (λ (m : PbQuarantine). IsHeld m found) ms
unfolding restored_quarantines
quarantines_accepted [] held found h e =
    let same : held ≡ found = cc in (rw (sym same) h, rw (sym same) (omega arith), tt)
quarantines_accepted (m ∷ ms) held found h e =
    let ((d, q), restored, rest) = bind-ok (directed_from_message m) _ found e in
    let (fresh, next) =
      not_refused (lookup d held) (more_than_one_quarantine d)
        (restored_quarantines ms (insert d q held)) found rest in
    let (is_map, count, others) =
      quarantines_accepted ms (insert d q held) found (insert-IsMap d q held h) next in
    let first : lookup d found ≡ some q =
      restored_keeps ms (insert d q held) found d q next
        (rw (lookup-insert d d q held, eq_refl d) refl) in
    (is_map, omega (arith, count, length-insert d q held fresh), ((d, q, restored, first), others))

routes_accepted :
    (routes copied : List (Text × ℕ))
    → restored_routes routes ≡ ok copied
    → All (λ (e : Text × ℕ). (e.0 == []) ≡ false) copied
unfolding restored_routes
routes_accepted [] [] e = tt
routes_accepted [] (r ∷ rs) e = ground arith
routes_accepted (([], count) ∷ rest) copied e = ground arith
routes_accepted ((c ∷ route, count) ∷ rest) copied e =
    let (others, restored, same) = bind-ok (restored_routes rest) _ copied e in
    let whole : ((c ∷ route, count) ∷ others) ≡ copied = cc in
    rw (sym whole) (refl, routes_accepted rest others restored)

calls_accepted : (m : Option PbCalls) (c : Calls) → calls_from_message m ≡ ok c → IsRouted c
unfolding calls_from_message
calls_accepted none c e = let empty : [] ≡ c.routes = ground arith in rw (sym empty) tt
calls_accepted (some m) c e =
    let (routes, copied, same) = bind-ok (restored_routes m.routes) _ c e in
    let whole : routes ≡ c.routes = ground arith in
    rw (sym whole) (routes_accepted m.routes routes copied)

-- A state that the server accepts has the names of its message, which are not empty, and names the routes
-- that it counts; it holds the quarantine of each message in it under the direction that this has, at
-- most one for each direction, and no others.
pub record IsAccepted (m : PbState) (s : State) : Type 0 where
  pub identified : unidentified s.service s.environment s.revision ≡ false
  pub routed : IsRouted s.calls
  pub is_map : IsMap s.quarantines
  pub service : s.service ≡ m.service
  pub environment : s.environment ≡ m.environment
  pub revision : s.revision ≡ m.revision
  pub complete : All (λ (p : PbQuarantine). IsHeld p s.quarantines) m.quarantines
  pub no_more : length s.quarantines ≡ length m.quarantines

restored-IsAccepted :
    (m : PbState) (uptime : ℕ) (s : State)
    → unidentified m.service m.environment m.revision ≡ false
    → restored_state m uptime ≡ ok s
    → IsAccepted m s
restored-IsAccepted m uptime s named e =
    let (calls, restored, rest) = bind-ok (calls_from_message m.calls) _ s e in
    let (held, found, same) = bind-ok (restored_quarantines m.quarantines []) _ s rest in
    let (is_map, count, complete) = quarantines_accepted m.quarantines [] held tt found in
    let same_calls : calls ≡ s.calls = ground arith in
    let same_held : held ≡ s.quarantines = ground arith in
    record {
      identified = ground arith;
      routed = rw (sym same_calls) (calls_accepted m.calls calls restored);
      is_map = rw (sym same_held) is_map;
      service = ground arith;
      environment = ground arith;
      revision = ground arith;
      complete = rw (sym same_held) complete;
      no_more = rw (sym same_held) (omega (arith, count));
    }

checks_passed :
    (nameless : Bool) (uptime : Option ℕ) (next : ℕ → Restored State) (s : State)
    → (if nameless
        then failed state_needs_identity
        else elim uptime [ none ↦ failed state_needs_uptime | some u ↦ next u ])
      ≡ ok s
    → (nameless ≡ false) × ((u : ℕ) × (next u ≡ ok s))
checks_passed true uptime next s e = cc
checks_passed false none next s e = cc
checks_passed false (some u) next s e = (refl, (u, e))

-- Where a message of a state is accepted, it names its service, environment, revision and routes, the
-- state has these names, and the state holds just the quarantines of the message: what each message of
-- one in it stands for, under its direction, and at most one for each direction.
pub state-IsAccepted : (m : PbState) (s : State) → state_from_message m ≡ ok s → IsAccepted m s
unfolding state_from_message
state-IsAccepted m s e =
    let nameless = unidentified m.service m.environment m.revision in
    let (named, (uptime, restored)) = checks_passed nameless m.uptime (restored_state m) s e in
    restored-IsAccepted m uptime s named restored
