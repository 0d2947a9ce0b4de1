-- ===== src/Protocol/Egress/Slots.antt =====
-- internal/protocol/egress.go: the slot of a waiter, and how many places a waiter has.
use mathlib.Core.Path.{subst}
use spectre.Prelude.{
  ℕ, zero, suc, ◌+◌, ◌≤◌, ◌≡◌, Bool, Option, none, some, List, [], ◌∷◌, nat_eq, text_eq, length,
  get_elem?, remove_at, arith, if◌then◌else◌, ap, sym, ◌==◌, ltb, inl, inr,
}
use spectre.Protocol.Arrivals.{insert_by_arrival, insert_by_arrival_lem}
use spectre.Protocol.Queues.{
  Hash, Queues, queued, set_queue, occurs, total, total-set_queue, occurs-insert,
}
use spectre.Protocol.Egress.{EgressQueue, Reference, EgressWaiter, modify, add}
use spectre.Protocol.Egress.Steps.{System}
use spectre.Protocol.Egress.Inversions.{waiter_arrived, add_inversion}
use spectre.Protocol.Egress.Places.{valued, length-modify, valued-modify-le}
use spectre.Protocol.Egress.Paired.{QueueIsPaired, AreQueues}

abbrev pub has_slot : ℕ → EgressWaiter → Bool
has_slot n w = w.slot == n

abbrev pub full : Option Reference → ℕ
full none = 0
full (some r) = 1

-- Whether a slot is full, as a number.
abbrev pub full_at : ℕ → List (Option Reference) → ℕ
full_at n slots = valued full (get_elem? slots n)

-- How often a waiter is where a reference can come to it.
abbrev pub ready : ℕ → System → ℕ
ready n s =
    occurs (has_slot n) s.arriving + total (has_slot n) s.queue.waiting + full_at n s.queue.slots

abbrev pub Slots : ℕ → System → Type 0
Slots n s = ready n s ≤ (if ltb n (length s.queue.slots) then 1 else 0)

deliver-full :
    (n w : ℕ) (pending : Reference) (slots : List (Option Reference))
    → full_at n (modify (λ _. some pending) slots w) ≤ full_at n slots + (if w == n then 1 else 0)
deliver-full n w pending slots = valued-modify-le full (λ _. some pending) slots w n (λ o. bound o)
  where
    bound : (o : Option Reference) → 1 ≤ full o + 1
    bound none = omega arith
    bound (some r) = omega arith

pub empty-full :
    (n w : ℕ) (slots : List (Option Reference))
    → full_at n (modify (λ _. none) slots w) ≤ full_at n slots
empty-full n zero [] = omega arith
empty-full n (suc w) [] = omega arith
empty-full zero zero (x ∷ slots) = omega arith
empty-full (suc n) zero (x ∷ slots) = omega arith
empty-full zero (suc w) (x ∷ slots) = omega arith
empty-full (suc n) (suc w) (x ∷ slots) = empty-full n w slots

pub insert-total :
    (n : ℕ) (hash : Hash) (m : Queues EgressWaiter) (w : EgressWaiter)
    → AreQueues waiter_arrived m
    → total (has_slot n) (set_queue hash (insert_by_arrival waiter_arrived (queued hash m) w) m)
      ≡ total (has_slot n) m + (if w.slot == n then 1 else 0)
insert-total n hash m w h = omega (
  arith,
  total-set_queue (has_slot n) hash (insert_by_arrival waiter_arrived (queued hash m) w) m h.0,
  ap (occurs (has_slot n)) (insert_by_arrival_lem waiter_arrived (queued hash m) w (h.2 hash)),
  occurs-insert waiter_arrived (has_slot n) (queued hash m) w,
)

pub fewer :
    (n i : ℕ) (list : List EgressWaiter)
    → occurs (has_slot n) (remove_at list i) ≤ occurs (has_slot n) list
fewer n i [] = omega arith
fewer n zero (w ∷ ws) = omega arith
fewer n (suc i) (w ∷ ws) = omega (arith, fewer n i ws)

pub hashes-Slots :
    (n : ℕ) (s : System) (i : ℕ) (pending : Reference) (hash : Hash) (q : EgressQueue)
    → QueueIsPaired s.queue
    → add s.queue hash pending ≡ some q
    → Slots n s
    → Slots n (record s { queue = q; hashings = remove_at s.hashings i; leaving = s.leaving + 1 })
hashes-Slots n s i pending hash q paired e h = elim (add_inversion s.queue q hash pending e) [
  | inl (none_wait, same) ↦ subst result (sym same) h
  | inr (w, ws, first, empty, same) ↦ subst result (sym same) (
      ground (
        arith,
        h,
        total-set_queue (has_slot n) hash ws s.queue.waiting paired.1.0,
        ap (occurs (has_slot n)) first,
        deliver-full n w.slot pending s.queue.slots,
        length-modify (λ _. some pending) s.queue.slots w.slot,
      ))
]
  where
    result : EgressQueue → Type 0
    result q =
        Slots n (record s { queue = q; hashings = remove_at s.hashings i; leaving = s.leaving + 1 })
