-- ===== src/Protocol/Egress/Waiters.antt =====
-- internal/protocol/egress.go: where each waiter is, and that no delivery blocks.
use mathlib.Core.Path.{subst}
use spectre.Prelude.{
  ℕ, zero, suc, ◌≤◌, ◌≡◌, refl, true, Option, none, some, List, [], ◌∷◌, length-append, nat_eq,
  text_eq, length, get_elem?, remove_at, arith, ap, sym, eq_refl, ltb, inl, inr,
}
use spectre.Prelude.Assoc.{lookup}
use spectre.Protocol.Queues.{
  Hash, Queues, queued, set_queue, occurs, total, total-set_queue, occurs-remove_at,
}
use spectre.Protocol.Egress.{
  EgressQueue, Reference, EgressWaiter, new_egress_queue, add, add_to, deliver, deliver_to, claim,
  abandon_at, finish_at, forward, start_hashing, arrive, new_egress_waiter, wait, wait_result,
  give_up,
}
use spectre.Protocol.Egress.Steps.{
  System, new_system, Step, forwards, hashes, hash_fails, hash_ends, arrives, unidentified,
  claims_one, queues, receives, gives_up, expires, abandons, takes, finishes, waits_out,
  stops_waiting, Reach, starts, continues,
}
use spectre.Protocol.Egress.Inversions.{
  waiter_arrived, claim_inversion, queues_inversion, receive_inversion, expire_inversion,
  give_up_inversion, take_inversion, finish_inversion, handed_over,
}
use spectre.Protocol.Egress.Places.{length-modify, valued-last, valued-long}
use spectre.Protocol.Egress.Paired.{QueueIsPaired, inserted_lem}
use spectre.Protocol.Egress.Interleaved.{Reach-IsPaired}
use spectre.Protocol.Egress.Slots.{
  has_slot, full, full_at, Slots, empty-full, insert-total, fewer, hashes-Slots,
}

arrives-Slots :
    (n : ℕ) (s : System) (w : EgressWaiter) (q : EgressQueue)
    → new_egress_waiter (arrive s.queue).0 (arrive s.queue).1 ≡ (q, w)
    → Slots n s
    → Slots n (record s { queue = q; arriving = w ∷ s.arriving })
unfolding new_egress_waiter arrive
arrives-Slots n s w q e h =
    subst (λ r. Slots n (record s { queue = r.0; arriving = r.1 ∷ s.arriving })) e
      (ground (
        arith,
        h,
        valued-last full s.queue.slots none n,
        valued-long full s.queue.slots n,
        length-append s.queue.slots (none ∷ []),
      ))

queues-Slots :
    (n : ℕ) (s : System) (i : ℕ) (w : EgressWaiter) (hash : Hash) (q : EgressQueue)
    → QueueIsPaired s.queue
    → get_elem? s.arriving i ≡ some w
    → claim s.queue hash w ≡ (q, none)
    → Slots n s
    → Slots n (record s { queue = q; arriving = remove_at s.arriving i })
queues-Slots n s i w hash q paired at e h =
    let (none_unused, same) = queues_inversion s.queue q hash w e in
    subst (λ r. Slots n (record s { queue = r; arriving = remove_at s.arriving i })) (sym same)
      (ground (
        arith,
        h,
        occurs-remove_at (has_slot n) w i s.arriving at,
        ap (total (has_slot n)) (inserted_lem waiter_arrived hash s.queue.waiting w),
        insert-total n hash s.queue.waiting w paired.1,
      ))

gives_up-Slots :
    (n : ℕ) (s : System) (w : EgressWaiter) (hash : Hash)
    → QueueIsPaired s.queue
    → Slots n s
    → Slots n (record s { queue = (give_up s.queue hash w).0 })
gives_up-Slots n s w hash paired h = elim (give_up_inversion s.queue hash w) [
  | inl (none_left, same) ↦ subst (λ r. Slots n (record s { queue = r.0 })) (sym same) h
  | inr (i, found, same) ↦
      let waiting = queued hash s.queue.waiting in
      subst (λ r. Slots n (record s { queue = r.0 })) (sym same)
        (ground (
          arith,
          h,
          fewer n i waiting,
          total-set_queue (has_slot n) hash (remove_at waiting i) s.queue.waiting paired.1.0,
        ))
]

step-Slots : {s t : System} (n : ℕ) → Step s t → QueueIsPaired s.queue → Slots n s → Slots n t
unfolding forward start_hashing abandon_at finish_at wait wait_result
step-Slots n (forwards exchange fresh) paired h = h
step-Slots {s} n (hashes i pending hash q at e) paired h =
    hashes-Slots n s i pending hash q paired e h
step-Slots n (hash_fails i pending at) paired h = h
step-Slots {s} n (hash_ends m q l e) paired h =
    let (k, c, same) = finish_inversion s.queue q e in
    subst (λ r. Slots n (record s { queue = r; leaving = m })) (sym same) h
step-Slots {s} n (arrives w q e) paired h = arrives-Slots n s w q e h
step-Slots {s} n (unidentified i) paired h = ground (arith, h, fewer n i s.arriving)
step-Slots {s} n (claims_one i w hash pending q at e) paired h =
    let (others, first, same) = claim_inversion s.queue q hash w pending e in
    let least : Slots n (record s { arriving = remove_at s.arriving i }) =
      ground (arith, h, fewer n i s.arriving) in
    subst
      (λ r. Slots n (record s {
        queue = r;
        arriving = remove_at s.arriving i;
        waits = pending ∷ s.waits;
        claims = pending ∷ s.claims;
      }))
      (sym same) least
step-Slots {s} n (queues i w hash q at e) paired h = queues-Slots n s i w hash q paired at e h
step-Slots {s} n (receives w pending q e) paired h =
    let (at, same) = receive_inversion s.queue q w pending e in
    subst
      (λ r.
        Slots n (record s { queue = r; waits = pending ∷ s.waits; claims = pending ∷ s.claims }))
      (sym same)
      (ground (
        arith,
        h,
        empty-full n w.slot s.queue.slots,
        length-modify (λ (_ : Option Reference). none) s.queue.slots w.slot,
      ))
step-Slots {s} n (gives_up w hash) paired h = gives_up-Slots n s w hash paired h
step-Slots {s} n (expires hash pending q e) paired h =
    let (i, found, same) = expire_inversion s.queue q hash pending e in
    subst (λ r. Slots n (record s { queue = r; expiring = pending ∷ s.expiring })) (sym same) h
step-Slots n (abandons i pending at) paired h = h
step-Slots {s} n (takes exchange pending outcome q e) paired h =
    let (found, same) = take_inversion s.queue q exchange pending e in
    subst (λ r. Slots n (record s { queue = r; finishing = (pending, outcome) ∷ s.finishing }))
      (sym same) h
step-Slots n (finishes i pending outcome at) paired h = h
step-Slots n (waits_out i pending e outcome at cell set) paired h = h
step-Slots n (stops_waiting i pending reason at) paired h = h

-- Whatever interleaves, a waiter is in at most one place where a reference can come to it: being hashed,
-- queued, or with a full slot.
Reach-Slots : (n : ℕ) (s : System) → Reach s → Slots n s
unfolding new_system new_egress_queue
Reach-Slots n _ starts = ground arith
Reach-Slots n _ (continues s t before step) =
    step-Slots n step (Reach-IsPaired s before) (Reach-Slots n s before)

queued-total :
    (n : ℕ) (hash : Hash) (m : Queues EgressWaiter)
    → occurs (has_slot n) (queued hash m) ≤ total (has_slot n) m
unfolding lookup
queued-total n hash [] = omega arith
queued-total n hash ((h, q) ∷ m) = ground (arith, queued-total n hash m)

empty_slot :
    (n : ℕ) (slots : List (Option Reference))
    → full_at n slots ≡ 0
    → ltb n (length slots) ≡ true
    → get_elem? slots n ≡ some none
empty_slot n [] e lt = absurd (ground arith)
empty_slot zero (none ∷ slots) e lt = refl
empty_slot zero (some r ∷ slots) e lt = absurd (omega arith)
empty_slot (suc n) (x ∷ slots) e lt = empty_slot n slots e (ground arith)

-- Whatever interleaves, adding a reference never blocks on the slot of a waiter.
pub add-total :
    (s : System) (hash : Hash) (pending : Reference)
    → Reach s
    → (q : EgressQueue) × (add s.queue hash pending ≡ some q)
unfolding add deliver
add-total s hash pending r = go (queued hash s.queue.waiting) refl
  where
    go :
        (waiters : List EgressWaiter)
        → queued hash s.queue.waiting ≡ waiters
        → (q : EgressQueue) × (add_to waiters s.queue hash pending ≡ some q)
    go [] e = (_, refl)
    go (w ∷ ws) e =
        let slots = Reach-Slots w.slot s r in
        let some_wait = queued-total w.slot hash s.queue.waiting in
        let here = ap (occurs (has_slot w.slot)) e in
        let empty =
          empty_slot w.slot s.queue.slots (ground (arith, eq_refl w.slot))
            (ground (arith, eq_refl w.slot)) in
        (
          handed_over s.queue hash w ws pending,
          ap
              (λ slot.
                deliver_to slot (record s.queue { waiting = set_queue hash ws s.queue.waiting }) w
                  pending)
              empty,
        )
