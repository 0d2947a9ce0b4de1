-- ===== src/Protocol/Egress/Recorded.antt =====
-- internal/protocol/egress.go: the outcomes and releases of references, whatever interleaves.
use mathlib.Core.Path.{subst}
use spectre.Prelude.{
  ℕ, ◌≡◌, refl, none, some, List, ◌∷◌, All-last, nat_eq, text_eq, get_elem?, remove_at, arith, sym,
  inl, inr,
}
use spectre.Prelude.Assoc.{lookup}
use spectre.Protocol.Queues.{Hash}
use spectre.Protocol.Exchanges.{
  EgressOutcome, EgressExchange, new_egress_exchange, abandon, finish, expire_after, stop_expiry,
}
use spectre.Protocol.Egress.{
  Exchange, EgressQueue, Reference, new_egress_queue, modify, forward, start_hashing, add, claim,
  abandon_at, finish_at, arrive, new_egress_waiter, wait, wait_result, EgressWaiter,
}
use spectre.Protocol.Egress.Steps.{
  System, new_system, Step, forwards, hashes, hash_fails, hash_ends, arrives, unidentified,
  claims_one, queues, receives, gives_up, expires, abandons, takes, finishes, waits_out,
  stops_waiting, Reach, starts, continues,
}
use spectre.Protocol.Egress.Inversions.{
  add_inversion, claim_inversion, queues_inversion, receive_inversion, expire_inversion,
  give_up_inversion, take_inversion, finish_inversion,
}
use spectre.Protocol.Egress.Released.{IsReleased, abandon-IsReleased, finish-IsReleased}
use spectre.Protocol.Egress.Outcomes.{
  All-modify, AreReleased, Outcomes, finished_flag, finish-Outcomes, forward-Outcomes,
  take-Outcomes, same-Outcomes, abandon-Outcomes,
}

-- What is true of the exchanges, with the outcomes that are on the way.
abbrev pub AreRecorded : EgressQueue → List (Reference × EgressOutcome) → Type 0
AreRecorded q finishing = AreReleased q × Outcomes q finishing

module _ (finishing : List (Reference × EgressOutcome)) where
  -- A timer is set or stopped.
  timed :
      (q : EgressQueue) (f : EgressExchange → EgressExchange) (i : ℕ)
      → ((e : EgressExchange) → IsReleased e → IsReleased (f e))
      → ((e : EgressExchange) → finished_flag (f e) ≡ finished_flag e)
      → AreRecorded q finishing
      → AreRecorded (record q { references = modify f q.references i }) finishing
  timed q f i keeps same (released, outcomes) = (
    All-modify IsReleased f q.references i keeps released,
    same-Outcomes q f i finishing same outcomes,
  )

  add_records :
      (q r : EgressQueue) (hash : Hash) (pending : Reference)
      → add q hash pending ≡ some r
      → AreRecorded q finishing
      → AreRecorded r finishing
  add_records q r hash pending e h = elim (add_inversion q r hash pending e) [
    | inl (none_wait, same) ↦
        subst (λ r. AreRecorded r finishing) (sym same)
          (timed q (expire_after hash) pending.pointer (λ e h. h) (λ e. refl) h)
    | inr (w, ws, first, empty, same) ↦ subst (λ r. AreRecorded r finishing) (sym same) h
  ]

  claim_records :
      (q r : EgressQueue) (hash : Hash) (w : EgressWaiter) (pending : Reference)
      → claim q hash w ≡ (r, some pending)
      → AreRecorded q finishing
      → AreRecorded r finishing
  claim_records q r hash w pending e h =
      let (others, first, same) = claim_inversion q r hash w pending e in
      subst (λ r. AreRecorded r finishing) (sym same)
        (timed q stop_expiry pending.pointer (λ e h. h) (λ e. refl) h)

  abandon_records :
      (q : EgressQueue) (pending : Reference)
      → AreRecorded q finishing
      → AreRecorded (abandon_at q pending) finishing
  unfolding abandon_at
  abandon_records q pending (released, outcomes) = (
    All-modify IsReleased abandon q.references pending.pointer abandon-IsReleased released,
    abandon-Outcomes q finishing pending outcomes,
  )

  forward_records :
      (q : EgressQueue) (exchange : Exchange)
      → lookup exchange q.exchanges ≡ none
      → AreRecorded q finishing
      → AreRecorded (forward q exchange).0 finishing
  unfolding forward start_hashing new_egress_exchange
  forward_records q exchange fresh (released, outcomes) = (
    All-last IsReleased q.references new_egress_exchange refl released,
    forward-Outcomes q finishing exchange fresh outcomes,
  )

  finish_records :
      (q : EgressQueue) (i : ℕ) (pending : Reference) (outcome : EgressOutcome)
      → get_elem? finishing i ≡ some (pending, outcome)
      → AreRecorded q finishing
      → AreRecorded (finish_at q pending outcome) (remove_at finishing i)
  unfolding finish_at
  finish_records q i pending outcome at (released, outcomes) = (
    All-modify IsReleased (finish outcome) q.references pending.pointer (finish-IsReleased outcome)
        released,
    finish-Outcomes i pending outcome q finishing at outcomes,
  )

abbrev pub SystemIsRecorded : System → Type 0
SystemIsRecorded s = AreRecorded s.queue s.finishing

step-IsRecorded : {s t : System} → Step s t → SystemIsRecorded s → SystemIsRecorded t
unfolding arrive new_egress_waiter wait wait_result
step-IsRecorded {s} (forwards exchange fresh) h =
    forward_records s.finishing s.queue exchange fresh h
step-IsRecorded {s} (hashes i pending hash q at e) h =
    add_records s.finishing s.queue q hash pending e h
step-IsRecorded {s} (hash_fails i pending at) h = abandon_records s.finishing s.queue pending h
step-IsRecorded {s} (hash_ends n q l e) h =
    let (m, c, same) = finish_inversion s.queue q e in
    subst (λ r. AreRecorded r s.finishing) (sym same) h
step-IsRecorded {s} (arrives w q e) h = subst (λ r. AreRecorded r.0 s.finishing) e h
step-IsRecorded (unidentified i) h = h
step-IsRecorded {s} (claims_one i w hash pending q at e) h =
    claim_records s.finishing s.queue q hash w pending e h
step-IsRecorded {s} (queues i w hash q at e) h =
    let (none_unused, same) = queues_inversion s.queue q hash w e in
    subst (λ r. AreRecorded r s.finishing) (sym same) h
step-IsRecorded {s} (receives w pending q e) h =
    let (full, same) = receive_inversion s.queue q w pending e in
    subst (λ r. AreRecorded r s.finishing) (sym same) h
step-IsRecorded {s} (gives_up w hash) h = elim (give_up_inversion s.queue hash w) [
  | inl (none_left, same) ↦ subst (λ r. AreRecorded r.0 s.finishing) (sym same) h
  | inr (i, found, same) ↦ subst (λ r. AreRecorded r.0 s.finishing) (sym same) h
]
step-IsRecorded {s} (expires hash pending q e) h =
    let (i, found, same) = expire_inversion s.queue q hash pending e in
    subst (λ r. AreRecorded r s.finishing) (sym same) h
step-IsRecorded {s} (abandons i pending at) h = abandon_records s.finishing s.queue pending h
step-IsRecorded {s} (takes exchange pending outcome q e) h =
    let (found, same) = take_inversion s.queue q exchange pending e in
    subst (λ r. AreRecorded r ((pending, outcome) ∷ s.finishing)) (sym same)
      (h.0, take-Outcomes s.queue s.finishing exchange pending outcome found h.1)
step-IsRecorded {s} (finishes i pending outcome at) h =
    finish_records s.finishing s.queue i pending outcome at h
step-IsRecorded (waits_out i pending e outcome at cell set) h = h
step-IsRecorded {s} (stops_waiting i pending reason at) h =
    abandon_records s.finishing s.queue pending h

-- Whatever interleaves, each reference is under its exchange, or its outcome was reported and is on
-- the way, or its outcome is recorded; and the response of a reference is released just when it has one
-- and is abandoned.
pub Reach-IsRecorded : (s : System) → Reach s → SystemIsRecorded s
unfolding new_system new_egress_queue
Reach-IsRecorded _ starts = (tt, (tt, λ p. ground arith))
Reach-IsRecorded _ (continues s t before step) = step-IsRecorded step (Reach-IsRecorded s before)
