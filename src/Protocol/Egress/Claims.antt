-- ===== src/Protocol/Egress/Claims.antt =====
-- internal/protocol/egress.go: which references candidates get, whatever interleaves.
use mathlib.Core.Path.{subst}
use spectre.Prelude.{ℕ, ◌≡◌, some, ◌∷◌, nat_eq, text_eq, get_elem?, remove_at, arith, sym, inl, inr}
use spectre.Protocol.Exchanges.{EgressOutcome, abandon, finish}
use spectre.Protocol.Egress.{Reference, new_egress_queue, abandon_at, finish_at, wait, wait_result}
use spectre.Protocol.Egress.Steps.{
  System, new_system, Step, forwards, hashes, hash_fails, hash_ends, arrives, unidentified,
  claims_one, queues, receives, gives_up, expires, abandons, takes, finishes, waits_out,
  stops_waiting, Reach, starts, continues,
}
use spectre.Protocol.Egress.Inversions.{
  queues_inversion, give_up_inversion, take_inversion, finish_inversion,
}
use spectre.Protocol.Egress.Places.{length-modify, valued-modify}
use spectre.Protocol.Egress.Paired.{QueueIsPaired}
use spectre.Protocol.Egress.Interleaved.{Reach-IsPaired}
use spectre.Protocol.Egress.References.{abandoned_flag, finish-flag, abandoned_of-abandon}
use spectre.Protocol.Egress.Counts.{
  Counts, removed, forwards-Counts, hashes-Counts, hash_fails-Counts, arrives-Counts, claims-Counts,
  receives-Counts, expires-Counts,
}

abandons-Counts :
    (p : ℕ) (s : System) (i : ℕ) (pending : Reference)
    → get_elem? s.expiring i ≡ some pending
    → Counts p s
    → Counts p (record s {
      queue = abandon_at s.queue pending;
      expiring = remove_at s.expiring i;
      forsaken = pending ∷ s.forsaken;
    })
unfolding abandon_at
abandons-Counts p s i pending at h = ground (
  arith,
  h,
  removed p i pending s.expiring at,
  abandoned_of-abandon p pending.pointer s.queue.references,
  length-modify abandon s.queue.references pending.pointer,
)

finishes-Counts :
    (p : ℕ) (s : System) (pending : Reference) (outcome : EgressOutcome)
    → Counts p s
    → Counts p (record s { queue = finish_at s.queue pending outcome })
unfolding finish_at
finishes-Counts p s pending outcome h = ground (
  arith,
  h,
  valued-modify abandoned_flag (finish outcome) s.queue.references pending.pointer p
      (finish-flag outcome),
  length-modify (finish outcome) s.queue.references pending.pointer,
)

waits-Counts :
    (p : ℕ) (s : System) (i : ℕ) (pending : Reference)
    → get_elem? s.waits i ≡ some pending
    → Counts p s
    → Counts p (record s { waits = remove_at s.waits i })
waits-Counts p s i pending at h = ground (arith, h, removed p i pending s.waits at)

stops-Counts :
    (p : ℕ) (s : System) (i : ℕ) (pending : Reference)
    → get_elem? s.waits i ≡ some pending
    → Counts p s
    → Counts p (record s { queue = abandon_at s.queue pending; waits = remove_at s.waits i })
unfolding abandon_at
stops-Counts p s i pending at h = ground (
  arith,
  h,
  removed p i pending s.waits at,
  abandoned_of-abandon p pending.pointer s.queue.references,
  length-modify abandon s.queue.references pending.pointer,
)

step-Counts : {s t : System} (p : ℕ) → Step s t → QueueIsPaired s.queue → Counts p s → Counts p t
unfolding wait wait_result
step-Counts {s} p (forwards exchange fresh) paired h = forwards-Counts p s exchange h
step-Counts {s} p (hashes i pending hash q at e) paired h =
    hashes-Counts p s i pending hash q paired at e h
step-Counts {s} p (hash_fails i pending at) paired h = hash_fails-Counts p s i pending at h
step-Counts {s} p (hash_ends n q l e) paired h =
    let (m, c, same) = finish_inversion s.queue q e in
    subst (λ r. Counts p (record s { queue = r; leaving = n })) (sym same) h
step-Counts {s} p (arrives w q e) paired h = arrives-Counts p s w q e h
step-Counts p (unidentified i) paired h = h
step-Counts {s} p (claims_one i w hash pending q at e) paired h =
    claims-Counts p s i w hash pending q paired e h
step-Counts {s} p (queues i w hash q at e) paired h =
    let (none_unused, same) = queues_inversion s.queue q hash w e in
    subst (λ r. Counts p (record s { queue = r; arriving = remove_at s.arriving i })) (sym same) h
step-Counts {s} p (receives w pending q e) paired h = receives-Counts p s w pending q e h
step-Counts {s} p (gives_up w hash) paired h = elim (give_up_inversion s.queue hash w) [
  | inl (none_left, same) ↦ subst (λ r. Counts p (record s { queue = r.0 })) (sym same) h
  | inr (i, found, same) ↦ subst (λ r. Counts p (record s { queue = r.0 })) (sym same) h
]
step-Counts {s} p (expires hash pending q e) paired h = expires-Counts p s hash pending q paired e h
step-Counts {s} p (abandons i pending at) paired h = abandons-Counts p s i pending at h
step-Counts {s} p (takes exchange pending outcome q e) paired h =
    let (found, same) = take_inversion s.queue q exchange pending e in
    subst (λ r. Counts p (record s { queue = r; finishing = (pending, outcome) ∷ s.finishing }))
      (sym same) h
step-Counts {s} p (finishes i pending outcome at) paired h = finishes-Counts p s pending outcome h
step-Counts {s} p (waits_out i pending e outcome at cell set) paired h =
    waits-Counts p s i pending at h
step-Counts {s} p (stops_waiting i pending reason at) paired h = stops-Counts p s i pending at h

-- Whatever interleaves, each reference that was forwarded is in exactly one place: being hashed,
-- unused or on its way to a candidate, with a candidate that claimed it, expired, or abandoned. One that is abandoned
-- is in no place that a candidate could still get it from, nor does one wait for its response.
pub Reach-Counts : (p : ℕ) (s : System) → Reach s → Counts p s
unfolding new_system new_egress_queue
Reach-Counts p _ starts = ground arith
Reach-Counts p _ (continues s t before step) =
    step-Counts p step (Reach-IsPaired s before) (Reach-Counts p s before)
