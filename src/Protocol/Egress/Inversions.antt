-- ===== src/Protocol/Egress/Inversions.antt =====
-- internal/protocol/egress.go: what each operation that has a result has done to the queue.
use spectre.Prelude.{
  ℕ, zero, suc, ◌≡◌, refl, Bool, true, false, Option, none, some, List, [], ◌∷◌, text_eq, get_elem?,
  remove_at, ◌⊎◌, inl, inr, arith, if◌then◌else◌, ◌==◌, nat_eq,
}
use spectre.Prelude.Assoc.{lookup, insert, remove}
use spectre.Protocol.Arrivals.{insert_by_arrival}
use spectre.Protocol.Queues.{Hash, queued, set_queue, index_of}
use spectre.Protocol.Exchanges.{expire_after, stop_expiry}
use spectre.Protocol.Egress.{
  Exchange, EgressQueue, Reference, EgressWaiter, modify, add, add_to, deliver, deliver_to, claim,
  claim_from, receive, received, expire_unused, expired, is_reference, take, taken, give_up,
  given_up, is_waiter, finish_hashing, finish_one,
}

abbrev pub arrived : Reference → ℕ
arrived r = r.arrival

abbrev pub waiter_arrived : EgressWaiter → ℕ
waiter_arrived w = w.arrival

abbrev pub kept_unused : EgressQueue → Hash → Reference → EgressQueue
kept_unused q hash pending = record q {
  unused = insert hash (insert_by_arrival arrived (queued hash q.unused) pending) q.unused;
  references = modify (expire_after hash) q.references pending.pointer;
}

abbrev pub handed_over :
    EgressQueue → Hash → EgressWaiter → List EgressWaiter → Reference → EgressQueue
handed_over q hash w ws pending = record q {
  waiting = set_queue hash ws q.waiting;
  slots = modify (λ _. some pending) q.slots w.slot;
}

deliver_inversion :
    (slot : Option (Option Reference)) (q r : EgressQueue) (w : EgressWaiter) (pending : Reference)
    → deliver_to slot q w pending ≡ some r
    → (slot ≡ some none) × (r ≡ record q { slots = modify (λ _. some pending) q.slots w.slot })
deliver_inversion none q r w pending e = cc
deliver_inversion (some none) q r w pending e = (refl, cc)
deliver_inversion (some (some x)) q r w pending e = cc

pub add_inversion :
    (q r : EgressQueue) (hash : Hash) (pending : Reference)
    → add q hash pending ≡ some r
    → (((queued hash q.waiting ≡ []) × (r ≡ kept_unused q hash pending))
        ⊎ ((w : EgressWaiter) × (ws : List EgressWaiter) × (queued hash q.waiting ≡ w ∷ ws)
            × (get_elem? q.slots w.slot ≡ some none)
            × (r ≡ handed_over q hash w ws pending)))
unfolding add deliver
add_inversion q r hash pending = go (queued hash q.waiting)
  where
    go :
        (waiters : List EgressWaiter)
        → add_to waiters q hash pending ≡ some r
        → (((waiters ≡ []) × (r ≡ kept_unused q hash pending))
            ⊎ ((w : EgressWaiter) × (ws : List EgressWaiter) × (waiters ≡ w ∷ ws)
                × (get_elem? q.slots w.slot ≡ some none)
                × (r ≡ handed_over q hash w ws pending)))
    go [] e = inl (refl, cc)
    go (w ∷ ws) e =
        let (empty, same) =
          deliver_inversion (get_elem? q.slots w.slot)
            (record q { waiting = set_queue hash ws q.waiting }) r w pending e in
        inr (w, ws, refl, empty, same)

abbrev pub claimed_from : EgressQueue → Hash → Reference → List Reference → EgressQueue
claimed_from q hash pending others = record q {
  unused = set_queue hash others q.unused;
  references = modify stop_expiry q.references pending.pointer;
}

abbrev pub kept_waiting : EgressQueue → Hash → EgressWaiter → EgressQueue
kept_waiting q hash w = record q {
  waiting = insert hash (insert_by_arrival waiter_arrived (queued hash q.waiting) w) q.waiting;
}

pub claim_inversion :
    (q r : EgressQueue) (hash : Hash) (w : EgressWaiter) (pending : Reference)
    → claim q hash w ≡ (r, some pending)
    → (others : List Reference) × (queued hash q.unused ≡ pending ∷ others)
      × (r ≡ claimed_from q hash pending others)
unfolding claim
claim_inversion q r hash w pending = go (queued hash q.unused)
  where
    go :
        (unused : List Reference)
        → claim_from unused q hash w ≡ (r, some pending)
        → (others : List Reference) × (unused ≡ pending ∷ others)
          × (r ≡ claimed_from q hash pending others)
    go [] e = absurd (cc)
    go (x ∷ others) e = (others, cc, cc)

pub queues_inversion :
    (q r : EgressQueue) (hash : Hash) (w : EgressWaiter)
    → claim q hash w ≡ (r, none)
    → (queued hash q.unused ≡ []) × (r ≡ kept_waiting q hash w)
unfolding claim
queues_inversion q r hash w = go (queued hash q.unused)
  where
    go :
        (unused : List Reference)
        → claim_from unused q hash w ≡ (r, none)
        → (unused ≡ []) × (r ≡ kept_waiting q hash w)
    go [] e = (refl, cc)
    go (x ∷ others) e = absurd (cc)

pub receive_inversion :
    (q r : EgressQueue) (w : EgressWaiter) (pending : Reference)
    → receive q w ≡ (r, some pending)
    → (get_elem? q.slots w.slot ≡ some (some pending))
      × (r ≡ record q { slots = modify (λ _. none) q.slots w.slot })
unfolding receive
receive_inversion q r w pending = go (get_elem? q.slots w.slot)
  where
    go :
        (slot : Option (Option Reference))
        → received slot q w ≡ (r, some pending)
        → (slot ≡ some (some pending))
          × (r ≡ record q { slots = modify (λ _. none) q.slots w.slot })
    go none e = absurd (cc)
    go (some none) e = absurd (cc)
    go (some (some x)) e = (cc, cc)

abbrev pub without : EgressQueue → Hash → ℕ → EgressQueue
without q hash i = record q {
  unused = set_queue hash (remove_at (queued hash q.unused) i) q.unused;
}

pub expire_inversion :
    (q r : EgressQueue) (hash : Hash) (pending : Reference)
    → expire_unused q hash pending ≡ (r, true)
    → (i : ℕ) × (index_of (is_reference pending) (queued hash q.unused) ≡ some i)
      × (r ≡ without q hash i)
unfolding expire_unused
expire_inversion q r hash pending = go (index_of (is_reference pending) (queued hash q.unused))
  where
    go :
        (found : Option ℕ)
        → expired found q hash ≡ (r, true)
        → (i : ℕ) × (found ≡ some i) × (r ≡ without q hash i)
    go none e = absurd (cc)
    go (some i) e = (i, refl, cc)

pub take_inversion :
    (q r : EgressQueue) (exchange : Exchange) (pending : Reference)
    → take q exchange ≡ (r, some pending)
    → (lookup exchange q.exchanges ≡ some pending)
      × (r ≡ record q { exchanges = remove exchange q.exchanges })
unfolding take
take_inversion q r exchange pending = go (lookup exchange q.exchanges)
  where
    go :
        (found : Option Reference)
        → taken found q exchange ≡ (r, some pending)
        → (found ≡ some pending) × (r ≡ record q { exchanges = remove exchange q.exchanges })
    go none e = absurd (cc)
    go (some x) e = (cc, cc)

abbrev pub gave_up : EgressQueue → Hash → ℕ → EgressQueue
gave_up q hash i = record q {
  waiting = set_queue hash (remove_at (queued hash q.waiting) i) q.waiting;
}

pub give_up_inversion :
    (q : EgressQueue) (hash : Hash) (w : EgressWaiter)
    → (((index_of (is_waiter w) (queued hash q.waiting) ≡ none) × (give_up q hash w ≡ (q, false)))
        ⊎ ((i : ℕ) × (index_of (is_waiter w) (queued hash q.waiting) ≡ some i)
            × (give_up q hash w ≡ (gave_up q hash i, true))))
unfolding give_up
give_up_inversion q hash w = go (index_of (is_waiter w) (queued hash q.waiting))
  where
    go :
        (found : Option ℕ)
        → (((found ≡ none) × (given_up found q hash ≡ (q, false)))
            ⊎ ((i : ℕ) × (found ≡ some i) × (given_up found q hash ≡ (gave_up q hash i, true))))
    go none = inl (refl, refl)
    go (some i) = inr (i, refl, refl)

pub finish_inversion :
    (q r : EgressQueue)
    → finish_hashing q ≡ some r
    → (n : ℕ) × (q.hashing ≡ suc n)
      × (r ≡ record q { hashing = n; idle_closed = if n == 0 then true else q.idle_closed })
unfolding finish_hashing
finish_inversion q r = go q.hashing
  where
    close :
        (closed : Bool)
        → (if closed then none else some (record q { hashing = 0; idle_closed = true })) ≡ some r
        → r ≡ record q { hashing = 0; idle_closed = true }
    close true e = cc
    close false e = cc

    go :
        (n : ℕ)
        → finish_one n q ≡ some r
        → (m : ℕ) × (n ≡ suc m)
          × (r ≡ record q { hashing = m; idle_closed = if m == 0 then true else q.idle_closed })
    go zero e = cc
    go (suc zero) e = (0, refl, close q.idle_closed e)
    go (suc (suc n)) e = (suc n, refl, ground arith)
