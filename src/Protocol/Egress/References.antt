-- ===== src/Protocol/Egress/References.antt =====
-- internal/protocol/egress.go: where each reference is. The number of a reference stands in exactly one
-- place at any time, and an abandoned one in none that a candidate could get it from.
use spectre.Prelude.{
  ℕ, ◌+◌, ◌≤◌, ◌≡◌, refl, Bool, true, false, Option, none, some, List, ◌∷◌, nat_eq, text_eq,
  get_elem?, arith, if◌then◌else◌, ap, ◌∙◌, ◌==◌,
}
use spectre.Future.{set_future}
use spectre.Protocol.Arrivals.{insert_by_arrival, insert_by_arrival_lem}
use spectre.Protocol.Queues.{
  Hash, Queues, queued, set_queue, occurs, total, total-set_queue, occurs-insert,
}
use spectre.Protocol.Exchanges.{
  EgressExchange, EgressOutcome, release, release_raw, release_outcome, abandon, finish,
  expire_after, stop_expiry,
}
use spectre.Protocol.Egress.{EgressQueue, Reference, modify}
use spectre.Protocol.Egress.Inversions.{arrived, kept_unused, claimed_from}
use spectre.Protocol.Egress.Places.{valued, occurs-modify, valued-modify, valued-modify-le}
use spectre.Protocol.Egress.Paired.{AreQueues, inserted_lem}

-- Whether a reference has a number.
abbrev pub has_number : ℕ → Reference → Bool
has_number p r = r.pointer == p

abbrev pub slot_has : ℕ → Option Reference → Bool
slot_has p none = false
slot_has p (some r) = r.pointer == p

abbrev pub abandoned_flag : EgressExchange → ℕ
abandoned_flag e = if e.abandoned then 1 else 0

-- Whether an exchange is abandoned, as a number.
abbrev pub abandoned_of : ℕ → List EgressExchange → ℕ
abandoned_of p references = valued abandoned_flag (get_elem? references p)

-- How often a number stands in the queue, unused or on its way to a candidate.
abbrev pub in_queue : ℕ → EgressQueue → ℕ
in_queue p q = total (has_number p) q.unused + occurs (slot_has p) q.slots

release-flag : (e : EgressExchange) → abandoned_flag (release e) ≡ abandoned_flag e
unfolding release
release-flag e = outcome_kept e.outcome
  where
    raw_kept : (r : Option ℕ) → abandoned_flag (release_raw e r) ≡ abandoned_flag e
    raw_kept none = refl
    raw_kept (some r) = refl

    outcome_kept :
        (o : Option EgressOutcome) → abandoned_flag (release_outcome e o) ≡ abandoned_flag e
    outcome_kept none = refl
    outcome_kept (some o) = raw_kept o.raw

abandon-flag : (e : EgressExchange) → abandoned_flag (abandon e) ≤ abandoned_flag e + 1
unfolding abandon
abandon-flag e = omega (arith, release-flag (record e { abandoned = true }))

pub finish-flag :
    (outcome : EgressOutcome) (e : EgressExchange)
    → abandoned_flag (finish outcome e) ≡ abandoned_flag e
unfolding finish
finish-flag outcome e =
    ground (arith, release-flag (record e { outcome = (set_future e.outcome outcome).0 }))

pub abandoned_of-abandon :
    (p i : ℕ) (references : List EgressExchange)
    → abandoned_of p (modify abandon references i)
      ≤ abandoned_of p references + (if i == p then 1 else 0)
abandoned_of-abandon p i references =
    valued-modify-le abandoned_flag abandon references i p abandon-flag

pub insert-total :
    (p : ℕ) (hash : Hash) (m : Queues Reference) (item : Reference)
    → AreQueues arrived m
    → total (has_number p) (set_queue hash (insert_by_arrival arrived (queued hash m) item) m)
      ≡ total (has_number p) m + (if item.pointer == p then 1 else 0)
insert-total p hash m item h = omega (
  arith,
  total-set_queue (has_number p) hash (insert_by_arrival arrived (queued hash m) item) m h.0,
  ap (occurs (has_number p)) (insert_by_arrival_lem arrived (queued hash m) item (h.2 hash)),
  occurs-insert arrived (has_number p) (queued hash m) item,
)

-- What `add` does to the counts, in its two cases.
pub unused_counts :
    (p : ℕ) (q : EgressQueue) (hash : Hash) (pending : Reference)
    → AreQueues arrived q.unused
    → ((in_queue p (kept_unused q hash pending)
          ≡ in_queue p q + (if pending.pointer == p then 1 else 0))
        × (abandoned_of p (kept_unused q hash pending).references ≡ abandoned_of p q.references))
unused_counts p q hash pending h = (
  ap (λ m. total (has_number p) m + occurs (slot_has p) q.slots)
        (inserted_lem arrived hash q.unused pending)
      ∙ omega (arith, insert-total p hash q.unused pending h),
  valued-modify abandoned_flag (expire_after hash) q.references pending.pointer p (λ e. refl),
)

pub handed_counts :
    (p : ℕ) (q : EgressQueue) (w : ℕ) (pending : Reference)
    → get_elem? q.slots w ≡ some none
    → occurs (slot_has p) (modify (λ _. some pending) q.slots w)
      ≡ occurs (slot_has p) q.slots + (if pending.pointer == p then 1 else 0)
handed_counts p q w pending empty =
    omega (arith, occurs-modify (slot_has p) (λ _. some pending) none q.slots w empty)

pub received_counts :
    (p : ℕ) (q : EgressQueue) (w : ℕ) (pending : Reference)
    → get_elem? q.slots w ≡ some (some pending)
    → (if pending.pointer == p then 1 else 0) + occurs (slot_has p) (modify (λ _. none) q.slots w)
      ≡ occurs (slot_has p) q.slots
received_counts p q w pending full =
    omega (arith, occurs-modify (slot_has p) (λ _. none) (some pending) q.slots w full)

pub claimed_counts :
    (p : ℕ) (q : EgressQueue) (hash : Hash) (pending : Reference) (others : List Reference)
    → AreQueues arrived q.unused
    → queued hash q.unused ≡ pending ∷ others
    → (((if pending.pointer == p then 1 else 0) + in_queue p (claimed_from q hash pending others)
          ≡ in_queue p q)
        × (abandoned_of p (claimed_from q hash pending others).references
            ≡ abandoned_of p q.references))
claimed_counts p q hash pending others h first = (
  omega (
    arith,
    total-set_queue (has_number p) hash others q.unused h.0,
    ap (occurs (has_number p)) first,
  ),
  valued-modify abandoned_flag stop_expiry q.references pending.pointer p (λ e. refl),
)
