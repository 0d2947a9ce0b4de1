-- ===== src/Protocol/Egress/Tests.antt =====
-- internal/protocol/egress.go at concrete inputs: two references with one hash, of which a candidate
-- claims the earlier, whose response it gets.
use spectre.Prelude.{
  ok, ◌↔◌, ℕ, ◌≤◌, ◌≡◌, refl, arith, false, none, some, [], ◌∷◌, All, text, get_elem?, nat_eq,
  text_eq,
}
use spectre.Prelude.Assoc.{lookup, insert, remove}
use spectre.Protocol.Arrivals.{search, insert_by_arrival, insert_linear, insert_by_arrival_lem}
use spectre.Future.{value_set}
use spectre.Protocol.Queues.{occurs, Hash, queued}
use spectre.Protocol.Exchanges.{
  EgressOutcome, EgressExchange, stopped, new_egress_exchange, release, finish,
}
use spectre.Protocol.Egress.{
  EgressQueue, Reference, EgressWaiter, new_egress_queue, start_hashing, finish_hashing, arrive,
  new_egress_waiter, forward, finish_at, add, add_to, claim, take, wait, wait_result,
}
use spectre.Protocol.Egress.Steps.{
  System, new_system, forwards, hashes, arrives, claims_one, takes, finishes, Reach, starts,
  continues,
}
use spectre.Protocol.Egress.Paired.{QueueIsPaired}
use spectre.Protocol.Egress.Interleaved.{Reach-IsPaired}
use spectre.Protocol.Egress.Claims.{Reach-Counts}
use spectre.Protocol.Egress.Counts.{Counts}
use spectre.Protocol.Egress.Waiters.{add-total}
use spectre.Protocol.Egress.Idle.{finish_hashing-total}
use spectre.Protocol.Egress.Recorded.{SystemIsRecorded, Reach-IsRecorded}
use spectre.Protocol.Egress.Outcomes.{finishing_has}
use spectre.Protocol.Egress.Reports.{reports}
use spectre.Protocol.Egress.Replays.{wait-Replays, finish-Records, claim-IsEarliest}

abbrev hash : Hash
hash = text "h"

abbrev first_reference : Reference
first_reference = record { pointer = 0; arrival = 1 }

abbrev second_reference : Reference
second_reference = record { pointer = 1; arrival = 2 }

abbrev candidate : EgressWaiter
candidate = record { slot = 0; arrival = 3 }

abbrev response : EgressOutcome
response = record { raw = some 7; failure = none }

-- Both references are forwarded, and the second is hashed first.
abbrev forwarded : (s : System) × Reach s
unfolding new_system new_egress_queue forward start_hashing new_egress_exchange lookup insert
forwarded =
    let one = continues _ _ starts (forwards (text "a") refl) in
    (_, continues _ _ one (forwards (text "b") refl))

abbrev both_hashed : (s : System) × Reach s
unfolding forwarded add add_to insert_by_arrival search new_system new_egress_queue forward
    start_hashing new_egress_exchange lookup insert
both_hashed =
    let one = continues _ _ forwarded.1 (hashes 0 second_reference hash _ refl refl) in
    (_, continues _ _ one (hashes 0 first_reference hash _ refl refl))

-- The response of the first reference is on the way.
abbrev reported : (s : System) × Reach s
unfolding both_hashed remove take finish_at finish release finish_hashing arrive new_egress_waiter
    claim wait wait_result forwarded add add_to insert_by_arrival search new_system new_egress_queue
    forward start_hashing new_egress_exchange lookup insert
reported = (_, continues _ _ both_hashed.1 (takes (text "a") first_reference response _ refl))

abbrev finished : (s : System) × Reach s
unfolding reported both_hashed remove take finish_at finish release finish_hashing arrive
    new_egress_waiter claim wait wait_result forwarded add add_to insert_by_arrival search
    new_system new_egress_queue forward start_hashing new_egress_exchange lookup insert
finished = (_, continues _ _ reported.1 (finishes 0 first_reference response refl))

-- A candidate with the same hash claims the first reference.
abbrev claimed : (s : System) × Reach s
unfolding finished reported both_hashed remove take finish_at finish release finish_hashing arrive
    new_egress_waiter claim wait wait_result forwarded add add_to insert_by_arrival search
    new_system new_egress_queue forward start_hashing new_egress_exchange lookup insert
claimed =
    let one = continues _ _ finished.1 (arrives candidate _ refl) in
    (_, continues _ _ one (claims_one 0 candidate hash first_reference _ refl refl))

insert_by_arrival_lem_example :
    insert_by_arrival (λ (n : ℕ). n) (1 ∷ 3 ∷ 5 ∷ []) 4
    ≡ insert_linear (λ (n : ℕ). n) (1 ∷ 3 ∷ 5 ∷ []) 4
insert_by_arrival_lem_example =
    insert_by_arrival_lem (λ (n : ℕ). n) (1 ∷ 3 ∷ 5 ∷ []) 4 (omega arith)

Reach-IsPaired_example : QueueIsPaired both_hashed.0.queue
Reach-IsPaired_example = Reach-IsPaired both_hashed.0 both_hashed.1

Reach-Counts_example : Counts 0 claimed.0
Reach-Counts_example = Reach-Counts 0 claimed.0 claimed.1

add-total_example : (q : EgressQueue) × (add forwarded.0.queue hash first_reference ≡ some q)
add-total_example = add-total forwarded.0 hash first_reference forwarded.1

finish_hashing-total_example : (q : EgressQueue) × (finish_hashing both_hashed.0.queue ≡ some q)
unfolding forwarded add add_to insert_by_arrival search new_system new_egress_queue forward
    start_hashing new_egress_exchange lookup insert both_hashed
finish_hashing-total_example = finish_hashing-total both_hashed.0 1 both_hashed.1 refl

Reach-IsRecorded_example : SystemIsRecorded claimed.0
Reach-IsRecorded_example = Reach-IsRecorded claimed.0 claimed.1

finish-Records_example :
    (e : EgressExchange) × (get_elem?
        (finish_at reported.0.queue first_reference response).references
        0
      ≡ some e)
    × (e.outcome ≡ some response)
unfolding reported both_hashed remove take finish_at finish release finish_hashing arrive
    new_egress_waiter claim wait wait_result forwarded add add_to insert_by_arrival search
    new_system new_egress_queue forward start_hashing new_egress_exchange lookup insert
finish-Records_example = finish-Records reported.0 0 first_reference response reported.1 refl

abbrev finished_exchange : EgressExchange
finished_exchange = record {
  outcome = some response;
  abandoned = false;
  expiry = stopped hash;
  releases = 0;
}

wait-Replays_example :
    (j : ℕ) × (reference : Reference) × (reported : EgressOutcome) × (get_elem?
        (reports claimed.1)
        j
      ≡ some (reference, reported))
    × (reference.pointer ≡ 0)
    × (occurs (finishing_has 0) (reports claimed.1) ≡ 1)
    × ((raw : ℕ)
        → ((wait claimed.0.queue first_reference (value_set response)).1 ≡ ok raw)
          ↔ ((reported.raw ≡ some raw) × (reported.failure ≡ none)))
    × (finished_exchange.releases ≡ 0)
unfolding claimed finished reported both_hashed remove take finish_at finish release finish_hashing
    arrive new_egress_waiter claim wait wait_result forwarded add add_to insert_by_arrival search
    new_system new_egress_queue forward start_hashing new_egress_exchange lookup insert
wait-Replays_example =
    wait-Replays claimed.0 0 first_reference finished_exchange response claimed.1 refl refl refl

abbrev after_claim : EgressQueue
unfolding both_hashed claim forwarded add add_to insert_by_arrival search new_system
    new_egress_queue forward start_hashing new_egress_exchange lookup insert
after_claim = (claim both_hashed.0.queue hash candidate).0

claim-IsEarliest_example : All (λ (r : Reference). 1 ≤ r.arrival) (queued hash after_claim.unused)
unfolding after_claim both_hashed claim forwarded add add_to insert_by_arrival search new_system
    new_egress_queue forward start_hashing new_egress_exchange lookup insert
claim-IsEarliest_example =
    claim-IsEarliest both_hashed.0 hash candidate first_reference after_claim both_hashed.1 refl
