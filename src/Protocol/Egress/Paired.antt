-- ===== src/Protocol/Egress/Paired.antt =====
-- internal/protocol/egress.go: the two maps of queues. Each queue is in order of arrival and not empty,
-- and no hash has both unused references and waiting candidates.
use mathlib.Core.Path.{subst}
use spectre.Prelude.{
  ℕ, zero, suc, ◌≡◌, refl, Bool, true, false, ◌||◌, none, some, List, [], ◌∷◌, text_eq, ◌==◌,
  eq_iff, arith, sym, inl, inr, if◌then◌else◌, get_elem?,
}
use spectre.Prelude.Assoc.{insert, IsMap}
use spectre.Protocol.Arrivals.{IsInOrder, insert_at, insert_by_arrival, insert-IsInOrder}
use spectre.Protocol.Queues.{
  Hash, Queues, queued, set_queue, is_nil, AreFilled, queued-set_queue, set_queue-IsMap,
  set_queue-AreFilled, index_of-found, remove_at-IsInOrder,
}
use spectre.Protocol.Egress.{
  Reference, EgressWaiter, EgressQueue, add, claim, give_up, expire_unused, is_reference, is_waiter,
}
use spectre.Protocol.Egress.Inversions.{
  arrived, waiter_arrived, add_inversion, claim_inversion, queues_inversion, expire_inversion,
  give_up_inversion,
}

module _ {T : Type 0} (came : T → ℕ) where
  abbrev pub AreQueues : Queues T → Type 0
  AreQueues m = IsMap m × AreFilled m × ((h : Hash) → IsInOrder came (queued h m))

  insert_at-filled : (queue : List T) (i : ℕ) (item : T) → is_nil (insert_at queue i item) ≡ false
  insert_at-filled [] i item = refl
  insert_at-filled (x ∷ xs) zero item = refl
  insert_at-filled (x ∷ xs) (suc i) item = refl

  insert-set_queue :
      (hash : Hash) (queue : List T) (m : Queues T)
      → is_nil queue ≡ false
      → insert hash queue m ≡ set_queue hash queue m
  insert-set_queue hash [] m e = cc
  insert-set_queue hash (x ∷ xs) m e = refl

  -- A queue that gets an element is never empty.
  pub inserted_lem :
      (hash : Hash) (m : Queues T) (item : T)
      → insert hash (insert_by_arrival came (queued hash m) item) m
        ≡ set_queue hash (insert_by_arrival came (queued hash m) item) m
  unfolding insert_by_arrival
  inserted_lem hash m item = insert-set_queue hash _ m (insert_at-filled (queued hash m) _ item)

  choose-IsInOrder :
      (b : Bool) (xs ys : List T)
      → IsInOrder came xs
      → IsInOrder came ys
      → IsInOrder came (if b then xs else ys)
  choose-IsInOrder true xs ys hx hy = hx
  choose-IsInOrder false xs ys hx hy = hy

  pub set_queue-AreQueues :
      (hash : Hash) (queue : List T) (m : Queues T)
      → IsInOrder came queue
      → AreQueues m
      → AreQueues (set_queue hash queue m)
  set_queue-AreQueues hash queue m o (map, filled, ordered) = (
    set_queue-IsMap hash queue m map,
    set_queue-AreFilled hash queue m filled,
    λ h.
        subst (IsInOrder came) (sym (queued-set_queue h hash queue m))
          (choose-IsInOrder (hash == h) queue (queued h m) o (ordered h)),
  )

  pub insert-AreQueues :
      (hash : Hash) (m : Queues T) (item : T)
      → AreQueues m
      → AreQueues (insert hash (insert_by_arrival came (queued hash m) item) m)
  insert-AreQueues hash m item h =
      subst AreQueues (sym (inserted_lem hash m item))
        (set_queue-AreQueues hash _ m (insert-IsInOrder came (queued hash m) item (h.2 hash)) h)

module _ {T U : Type 0} where
  -- No hash has a queue in both maps.
  abbrev pub AreApart : Queues T → Queues U → Type 0
  AreApart m n = (h : Hash) → (is_nil (queued h m) || is_nil (queued h n)) ≡ true

  pub set_queue-AreApart :
      (hash : Hash) (queue : List T) (m : Queues T) (n : Queues U)
      → is_nil (queued hash n) ≡ true
      → AreApart m n
      → AreApart (set_queue hash queue m) n
  set_queue-AreApart hash queue m n e apart h =
      ground (arith, queued-set_queue h hash queue m, apart h, eq_iff hash h)

  pub set_queue_right-AreApart :
      (hash : Hash) (queue : List U) (m : Queues T) (n : Queues U)
      → is_nil (queued hash m) ≡ true
      → AreApart m n
      → AreApart m (set_queue hash queue n)
  set_queue_right-AreApart hash queue m n e apart h =
      ground (arith, queued-set_queue h hash queue n, apart h, eq_iff hash h)

abbrev pub IsPaired : Queues Reference → Queues EgressWaiter → Type 0
IsPaired unused waiting =
    AreQueues arrived unused × AreQueues waiter_arrived waiting × AreApart unused waiting

abbrev pub QueueIsPaired : EgressQueue → Type 0
QueueIsPaired q = IsPaired q.unused q.waiting

not_nil {ℓ} :
    {A : Type ℓ} (xs : List A) (x : A) (i : ℕ) → get_elem? xs i ≡ some x → is_nil xs ≡ false
not_nil [] x i e = cc
not_nil (y ∷ ys) x i e = refl

pub add-IsPaired :
    (q r : EgressQueue) (hash : Hash) (pending : Reference)
    → add q hash pending ≡ some r
    → QueueIsPaired q
    → QueueIsPaired r
add-IsPaired q r hash pending e (unused, waiting, apart) = elim (add_inversion q r hash pending e) [
  | inl (none_wait, same) ↦ subst QueueIsPaired (sym same) (
    insert-AreQueues arrived hash q.unused pending unused,
    waiting,
    subst (λ m. AreApart m q.waiting) (sym (inserted_lem arrived hash q.unused pending))
        (set_queue-AreApart hash _ q.unused q.waiting (ground arith) apart),
  )
  | inr (w, ws, first, slot, same) ↦ subst QueueIsPaired (sym same) (
    unused,
    set_queue-AreQueues waiter_arrived hash ws q.waiting (tail_in_order w ws first) waiting,
    set_queue_right-AreApart hash ws q.unused q.waiting (ground (arith, apart hash)) apart,
  )
]
  where
    tail_in_order :
        (w : EgressWaiter) (ws : List EgressWaiter)
        → queued hash q.waiting ≡ w ∷ ws
        → IsInOrder waiter_arrived ws
    tail_in_order w ws first = (subst (IsInOrder waiter_arrived) first (waiting.2 hash)).1

pub claim-IsPaired :
    (q r : EgressQueue) (hash : Hash) (w : EgressWaiter) (pending : Reference)
    → claim q hash w ≡ (r, some pending)
    → QueueIsPaired q
    → QueueIsPaired r
claim-IsPaired q r hash w pending e (unused, waiting, apart) =
    let (others, first, same) = claim_inversion q r hash w pending e in
    subst QueueIsPaired (sym same) (
      set_queue-AreQueues arrived hash others q.unused
          (subst (IsInOrder arrived) first (unused.2 hash)).1 unused,
      waiting,
      set_queue-AreApart hash others q.unused q.waiting (ground (arith, apart hash)) apart,
    )

pub queues-IsPaired :
    (q r : EgressQueue) (hash : Hash) (w : EgressWaiter)
    → claim q hash w ≡ (r, none)
    → QueueIsPaired q
    → QueueIsPaired r
queues-IsPaired q r hash w e (unused, waiting, apart) =
    let (none_unused, same) = queues_inversion q r hash w e in
    subst QueueIsPaired (sym same) (
      unused,
      insert-AreQueues waiter_arrived hash q.waiting w waiting,
      subst (AreApart q.unused) (sym (inserted_lem waiter_arrived hash q.waiting w))
          (set_queue_right-AreApart hash _ q.unused q.waiting (ground arith) apart),
    )

pub expire-IsPaired :
    (q r : EgressQueue) (hash : Hash) (pending : Reference)
    → expire_unused q hash pending ≡ (r, true)
    → QueueIsPaired q
    → QueueIsPaired r
expire-IsPaired q r hash pending e (unused, waiting, apart) =
    let (i, found, same) = expire_inversion q r hash pending e in
    let (x, at, test) = index_of-found (is_reference pending) i (queued hash q.unused) found in
    let filled = not_nil (queued hash q.unused) x i at in
    subst QueueIsPaired (sym same) (
      set_queue-AreQueues arrived hash _ q.unused (remove_at-IsInOrder arrived i _ (unused.2 hash))
          unused,
      waiting,
      set_queue-AreApart hash _ q.unused q.waiting (ground (arith, apart hash)) apart,
    )

pub give_up-IsPaired :
    (q : EgressQueue) (hash : Hash) (w : EgressWaiter)
    → QueueIsPaired q
    → QueueIsPaired (give_up q hash w).0
give_up-IsPaired q hash w (unused, waiting, apart) = elim (give_up_inversion q hash w) [
  | inl (none_left, same) ↦ subst (λ r. QueueIsPaired r.0) (sym same) (unused, waiting, apart)
  | inr (i, found, same) ↦
      let (x, at, test) = index_of-found (is_waiter w) i (queued hash q.waiting) found in
      let filled = not_nil (queued hash q.waiting) x i at in
      subst (λ r. QueueIsPaired r.0) (sym same)
        (
          unused,
          set_queue-AreQueues waiter_arrived hash _ q.waiting
              (remove_at-IsInOrder waiter_arrived i _ (waiting.2 hash)) waiting,
          set_queue_right-AreApart hash _ q.unused q.waiting (ground (arith, apart hash)) apart,
        )
]
