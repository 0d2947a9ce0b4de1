-- ===== src/Protocol/Egress.antt =====
-- internal/protocol/egress.go: candidate requests wait for reference requests with the same hash.
--
-- What runs under one lock is one function here. A pointer to an exchange or to a waiter is a place
-- in a list of them all, with the arrival number that never changes.
pub mod Handlers
pub mod Steps
pub mod Inversions
pub mod Places
pub mod Paired
pub mod References
pub mod Interleaved
pub mod Counts
pub mod Claims
pub mod Slots
pub mod Waiters
pub mod Idle
pub mod Released
pub mod Outcomes
pub mod Recorded
pub mod Reports
pub mod Reported
pub mod Replays
pub mod Tests
use spectre.Prelude.{
  ℕ, zero, suc, ◌+◌, ◌%◌, ◌^◌, Bool, true, false, Option, none, some, List, [], ◌∷◌, ◌++◌, Text,
  ◌==◌, nat_eq, text_eq, length, get_elem?, remove_at, if◌then◌else◌, Result, ok, failed,
}
use spectre.Prelude.Assoc.{lookup, insert, remove}
use spectre.Future.{Woken, wait_future}
use spectre.Protocol.Arrivals.{insert_by_arrival}
use spectre.Protocol.Queues.{Hash, Queues, queued, set_queue, index_of}
use spectre.Protocol.Exchanges.{
  Raw, EgressOutcome, EgressExchange, new_egress_exchange, release, abandon, finish, expire_after,
  stop_expiry, EgressError, wait_for_response, response_from,
}

abbrev pub Exchange : Type 0
Exchange = Text

-- `*egressExchange`.
pub record Reference : Type 0 where
  pub pointer : ℕ
  pub arrival : ℕ

-- `*egressWaiter`, whose channel of one slot is in the list of slots.
pub record EgressWaiter : Type 0 where
  pub slot : ℕ
  pub arrival : ℕ

-- `released` is the responses of nobody, which handlers release themselves.
pub record EgressQueue : Type 0 where
  pub arrivals : ℕ
  pub hashing : ℕ
  pub idle_closed : Bool
  pub exchanges : List (Exchange × Reference)
  pub unused : Queues Reference
  pub waiting : Queues EgressWaiter
  pub references : List EgressExchange
  pub slots : List (Option Reference)
  pub released : List Raw

-- `newEgressQueue`.
unfoldable pub new_egress_queue : EgressQueue
new_egress_queue = record {
  arrivals = 0;
  hashing = 0;
  idle_closed = true;
  exchanges = [];
  unused = [];
  waiting = [];
  references = [];
  slots = [];
  released = [];
}

abbrev pub modify {ℓ} : {A : Type ℓ} → (A → A) → List A → ℕ → List A
modify f [] i = []
modify f (x ∷ xs) zero = f x ∷ xs
modify f (x ∷ xs) (suc i) = x ∷ modify f xs i

-- `q.arrivals++` on a uint64.
abbrev pub next_arrival : EgressQueue → ℕ
next_arrival q = (q.arrivals + 1) % 2 ^ 64

-- `startHashing`.
unfoldable pub start_hashing : EgressQueue → EgressQueue
start_hashing q = record q {
  idle_closed = if q.hashing == 0 then false else q.idle_closed;
  hashing = q.hashing + 1;
}

abbrev pub close_idle : EgressQueue → Option EgressQueue
close_idle q = if q.idle_closed then none else some (record q { idle_closed = true })

abbrev pub finish_one : ℕ → EgressQueue → Option EgressQueue
finish_one zero q = none
finish_one (suc zero) q = close_idle (record q { hashing = 0 })
finish_one (suc (suc n)) q = some (record q { hashing = suc n })

-- `finishHashing`; none is the panic of closing a closed channel, or a hash that never started.
unfoldable pub finish_hashing : EgressQueue → Option EgressQueue
finish_hashing q = finish_one q.hashing q

-- `arrive`.
unfoldable pub arrive : EgressQueue → EgressQueue × ℕ
arrive q = (record q { arrivals = next_arrival q }, next_arrival q)

-- `newEgressWaiter`.
unfoldable pub new_egress_waiter : EgressQueue → ℕ → EgressQueue × EgressWaiter
new_egress_waiter q arrival =
    (record q { slots = q.slots ++ none ∷ [] }, record { slot = length q.slots; arrival = arrival })

abbrev pub next_reference : EgressQueue → Reference
next_reference q = record { pointer = length q.references; arrival = next_arrival q }

-- What `forward` does before its request is hashed. The exchange is a new one.
unfoldable pub forward : EgressQueue → Exchange → EgressQueue × Reference
unfolding start_hashing new_egress_exchange
forward q exchange = (
  start_hashing (record q {
    arrivals = next_arrival q;
    references = q.references ++ new_egress_exchange ∷ [];
    exchanges = insert exchange (next_reference q) q.exchanges;
  }),
  next_reference q,
)

unfoldable pub abandon_at : EgressQueue → Reference → EgressQueue
unfolding abandon
abandon_at q pending = record q { references = modify abandon q.references pending.pointer }

unfoldable pub finish_at : EgressQueue → Reference → EgressOutcome → EgressQueue
unfolding finish
finish_at q pending outcome = record q {
  references = modify (finish outcome) q.references pending.pointer;
}

-- `deliver`; none is a send that blocks, because the slot is taken.
abbrev pub deliver_to :
    Option (Option Reference) → EgressQueue → EgressWaiter → Reference → Option EgressQueue
deliver_to (some none) q w pending =
    some (record q { slots = modify (λ _. some pending) q.slots w.slot })
deliver_to _ q w pending = none

unfoldable pub deliver : EgressQueue → EgressWaiter → Reference → Option EgressQueue
deliver q w pending = deliver_to (get_elem? q.slots w.slot) q w pending

abbrev pub add_to : List EgressWaiter → EgressQueue → Hash → Reference → Option EgressQueue
unfolding deliver
add_to [] q hash pending = some (record q {
  unused =
      insert hash (insert_by_arrival (λ (r : Reference). r.arrival) (queued hash q.unused) pending)
        q.unused;
  references = modify (expire_after hash) q.references pending.pointer;
})
add_to (w ∷ waiters) q hash pending =
    deliver (record q { waiting = set_queue hash waiters q.waiting }) w pending

-- `add`.
unfoldable pub add : EgressQueue → Hash → Reference → Option EgressQueue
add q hash pending = add_to (queued hash q.waiting) q hash pending

abbrev pub claim_from :
    List Reference → EgressQueue → Hash → EgressWaiter → EgressQueue × Option Reference
claim_from (pending ∷ others) q hash w = (
  record q {
    unused = set_queue hash others q.unused;
    references = modify stop_expiry q.references pending.pointer;
  },
  some pending,
)
claim_from [] q hash w = (
  record q {
    waiting =
        insert hash (insert_by_arrival (λ (v : EgressWaiter). v.arrival) (queued hash q.waiting) w)
          q.waiting;
  },
  none,
)

-- The first critical section of `claim`: a reference, or the waiter is queued.
unfoldable pub claim : EgressQueue → Hash → EgressWaiter → EgressQueue × Option Reference
claim q hash w = claim_from (queued hash q.unused) q hash w

abbrev pub received :
    Option (Option Reference) → EgressQueue → EgressWaiter → EgressQueue × Option Reference
received (some (some pending)) q w =
    (record q { slots = modify (λ _. none) q.slots w.slot }, some pending)
received _ q w = (q, none)

-- `<-waiter.delivered()`; none is a receive that blocks, because the slot is empty.
unfoldable pub receive : EgressQueue → EgressWaiter → EgressQueue × Option Reference
receive q w = received (get_elem? q.slots w.slot) q w

abbrev pub is_waiter : EgressWaiter → EgressWaiter → Bool
is_waiter w v = v.slot == w.slot

abbrev pub given_up : Option ℕ → EgressQueue → Hash → EgressQueue × Bool
given_up none q hash = (q, false)
given_up (some i) q hash =
    (record q { waiting = set_queue hash (remove_at (queued hash q.waiting) i) q.waiting }, true)

-- The second critical section of `claim`: whether the waiter was still queued.
unfoldable pub give_up : EgressQueue → Hash → EgressWaiter → EgressQueue × Bool
give_up q hash w = given_up (index_of (is_waiter w) (queued hash q.waiting)) q hash

abbrev pub is_reference : Reference → Reference → Bool
is_reference r s = s.pointer == r.pointer

abbrev pub expired : Option ℕ → EgressQueue → Hash → EgressQueue × Bool
expired none q hash = (q, false)
expired (some i) q hash =
    (record q { unused = set_queue hash (remove_at (queued hash q.unused) i) q.unused }, true)

-- `expire`, before it abandons the reference: whether the reference was still unused.
unfoldable pub expire_unused : EgressQueue → Hash → Reference → EgressQueue × Bool
expire_unused q hash pending =
    expired (index_of (is_reference pending) (queued hash q.unused)) q hash

-- `expire`, when nothing comes between its critical sections.
unfoldable pub expire : EgressQueue → Hash → Reference → EgressQueue
unfolding expire_unused abandon_at
expire q hash pending =
    let (removed, found) = expire_unused q hash pending in
    if found then abandon_at removed pending else removed

abbrev pub taken : Option Reference → EgressQueue → Exchange → EgressQueue × Option Reference
taken none q exchange = (q, none)
taken (some pending) q exchange =
    (record q { exchanges = remove exchange q.exchanges }, some pending)

-- `take`.
unfoldable pub take : EgressQueue → Exchange → EgressQueue × Option Reference
take q exchange = taken (lookup exchange q.exchanges) q exchange

abbrev pub wait_result :
    Result Text EgressOutcome → EgressQueue → Reference → EgressQueue × Result EgressError Raw
unfolding abandon_at
wait_result (ok outcome) q pending = (q, response_from outcome.raw outcome.failure)
wait_result (failed e) q pending = (abandon_at q pending, failed (wait_for_response e))

-- `wait`, once the outcome is set or the context is done.
unfoldable pub wait :
    EgressQueue → Reference → Woken EgressOutcome → EgressQueue × Result EgressError Raw
wait q pending woken = wait_result (wait_future woken) q pending
