-- ===== src/Protocol/Egress/Steps.antt =====
-- internal/protocol/egress.go: the queue with all that runs around it. Each step is one critical
-- section, so that a sequence of steps is any interleaving of reference and candidate requests.
use spectre.Prelude.{
  ℕ, suc, ◌+◌, ◌≡◌, true, none, some, List, [], ◌∷◌, Text, text_eq, get_elem?, remove_at,
}
use spectre.Prelude.Assoc.{lookup}
use spectre.Future.{value_set, context_done}
use spectre.Protocol.Queues.{Hash}
use spectre.Protocol.Exchanges.{EgressOutcome, EgressExchange}
use spectre.Protocol.Egress.{
  Exchange, EgressQueue, Reference, EgressWaiter, new_egress_queue, forward, add, abandon_at,
  finish_hashing, arrive, new_egress_waiter, claim, receive, give_up, expire_unused, take,
  finish_at, wait,
}

-- `hashings` are the references that are being hashed in the background, and `leaving` how many hashes
-- end but are not counted out. `arriving` are the candidates that are being hashed, `expiring` the
-- references that expired and are not abandoned yet, `finishing` those whose outcome was reported
-- and is not recorded yet, and `waits` those whose response a candidate waits for. The rest is
-- history: `claims` is each reference that a candidate got, and `forsaken` those that are abandoned
-- before one did.
pub record System : Type 0 where
  pub queue : EgressQueue
  pub hashings : List Reference
  pub leaving : ℕ
  pub arriving : List EgressWaiter
  pub expiring : List Reference
  pub finishing : List (Reference × EgressOutcome)
  pub waits : List Reference
  pub claims : List Reference
  pub forsaken : List Reference

unfoldable pub new_system : System
unfolding new_egress_queue
new_system = record {
  queue = new_egress_queue;
  hashings = [];
  leaving = 0;
  arriving = [];
  expiring = [];
  finishing = [];
  waits = [];
  claims = [];
  forsaken = [];
}

pub data Step (s : System) : System → Type 0 where
  -- The identifier of an exchange is a new one.
  forwards :
      (exchange : Exchange)
      → lookup exchange s.queue.exchanges ≡ none
      → Step s (record s {
        queue = (forward s.queue exchange).0;
        hashings = (forward s.queue exchange).1 ∷ s.hashings;
      })
  hashes :
      (i : ℕ) (pending : Reference) (hash : Hash) (q : EgressQueue)
      → get_elem? s.hashings i ≡ some pending
      → add s.queue hash pending ≡ some q
      → Step s (record s { queue = q; hashings = remove_at s.hashings i; leaving = s.leaving + 1 })
  hash_fails :
      (i : ℕ) (pending : Reference)
      → get_elem? s.hashings i ≡ some pending
      → Step s (record s {
        queue = abandon_at s.queue pending;
        hashings = remove_at s.hashings i;
        leaving = s.leaving + 1;
        forsaken = pending ∷ s.forsaken;
      })
  hash_ends :
      (n : ℕ) (q : EgressQueue)
      → s.leaving ≡ suc n
      → finish_hashing s.queue ≡ some q
      → Step s (record s { queue = q; leaving = n })
  arrives :
      (w : EgressWaiter) (q : EgressQueue)
      → new_egress_waiter (arrive s.queue).0 (arrive s.queue).1 ≡ (q, w)
      → Step s (record s { queue = q; arriving = w ∷ s.arriving })
  unidentified : (i : ℕ) → Step s (record s { arriving = remove_at s.arriving i })
  claims_one :
      (i : ℕ) (w : EgressWaiter) (hash : Hash) (pending : Reference) (q : EgressQueue)
      → get_elem? s.arriving i ≡ some w
      → claim s.queue hash w ≡ (q, some pending)
      → Step s (record s {
        queue = q;
        arriving = remove_at s.arriving i;
        waits = pending ∷ s.waits;
        claims = pending ∷ s.claims;
      })
  queues :
      (i : ℕ) (w : EgressWaiter) (hash : Hash) (q : EgressQueue)
      → get_elem? s.arriving i ≡ some w
      → claim s.queue hash w ≡ (q, none)
      → Step s (record s { queue = q; arriving = remove_at s.arriving i })
  receives :
      (w : EgressWaiter) (pending : Reference) (q : EgressQueue)
      → receive s.queue w ≡ (q, some pending)
      → Step s (record s { queue = q; waits = pending ∷ s.waits; claims = pending ∷ s.claims })
  gives_up :
      (w : EgressWaiter) (hash : Hash) → Step s (record s { queue = (give_up s.queue hash w).0 })
  expires :
      (hash : Hash) (pending : Reference) (q : EgressQueue)
      → expire_unused s.queue hash pending ≡ (q, true)
      → Step s (record s { queue = q; expiring = pending ∷ s.expiring })
  abandons :
      (i : ℕ) (pending : Reference)
      → get_elem? s.expiring i ≡ some pending
      → Step s (record s {
        queue = abandon_at s.queue pending;
        expiring = remove_at s.expiring i;
        forsaken = pending ∷ s.forsaken;
      })
  -- The server reports a response, or that there is none.
  takes :
      (exchange : Exchange) (pending : Reference) (outcome : EgressOutcome) (q : EgressQueue)
      → take s.queue exchange ≡ (q, some pending)
      → Step s (record s { queue = q; finishing = (pending, outcome) ∷ s.finishing })
  finishes :
      (i : ℕ) (pending : Reference) (outcome : EgressOutcome)
      → get_elem? s.finishing i ≡ some (pending, outcome)
      → Step s (record s {
        queue = finish_at s.queue pending outcome;
        finishing = remove_at s.finishing i;
      })
  waits_out :
      (i : ℕ) (pending : Reference) (e : EgressExchange) (outcome : EgressOutcome)
      → get_elem? s.waits i ≡ some pending
      → get_elem? s.queue.references pending.pointer ≡ some e
      → e.outcome ≡ some outcome
      → Step s (record s {
        queue = (wait s.queue pending (value_set outcome)).0;
        waits = remove_at s.waits i;
      })
  stops_waiting :
      (i : ℕ) (pending : Reference) (reason : Text)
      → get_elem? s.waits i ≡ some pending
      → Step s (record s {
        queue = (wait s.queue pending (context_done reason)).0;
        waits = remove_at s.waits i;
      })

pub data Reach : System → Type 0 where
  starts : Reach new_system
  continues : (s t : System) → Reach s → Step s t → Reach t
