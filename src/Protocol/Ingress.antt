-- ===== src/Protocol/Ingress.antt =====
-- internal/protocol/ingress.go: candidate requests join reference requests by request ID, and their
-- responses are compared.
--
-- What runs under the lock of the pairs is one function here. A pointer to a pair is its place in a
-- list of them all. Calls of `Release` on the reference response of a pair are counted with the pair.
pub mod Handlers
pub mod Steps
pub mod Inversions
pub mod Settled
pub mod Invariant
pub mod Kept
pub mod Ended
pub mod Verdicts
pub mod Tests
use spectre.Prelude.{
  ℕ, suc, ◌+◌, Bool, true, false, not, ◌&&◌, ◌||◌, Option, none, some, List, [], ◌∷◌, ◌++◌, Text,
  text_eq, ◌==◌, length, get_elem?, if◌then◌else◌, Result, ok, failed,
}
use spectre.Prelude.Assoc.{lookup, insert, remove}
use spectre.Future.{Future, new_future, set_future, get_future}
use spectre.Model.{Protocol, Route}
use spectre.Protocol.Egress.{Exchange, modify}
use spectre.Protocol.Responses.{Raw, Response, IngressOutcome}

abbrev pub RequestId : Type 0
RequestId = Text

-- `ingressPair`, and how often `releaseReference` released its response.
pub record IngressPair : Type 0 where
  pub protocol : Protocol
  pub route : Route
  pub request_id : RequestId
  pub ignored_reason : Option Text
  pub outcome : Future IngressOutcome
  pub joined : Bool
  pub candidate_done : Bool
  pub releases : ℕ

-- `newIngressPair`.
abbrev pub new_ingress_pair : Protocol → RequestId → Route → Option Text → IngressPair
new_ingress_pair protocol request_id route ignored = record {
  protocol = protocol;
  route = route;
  request_id = request_id;
  ignored_reason = ignored;
  outcome = new_future;
  joined = false;
  candidate_done = false;
  releases = 0;
}

-- Why a candidate request has no pair.
pub data PairingError : Type 0 where
  no_request_id : PairingError
  no_reference_request already_has_candidate : RequestId → PairingError
  uses_not : RequestId → Protocol → Protocol → PairingError

-- `ingressPair.join`.
unfoldable pub join_pair : IngressPair → Protocol → Result PairingError IngressPair
join_pair p protocol =
    if p.joined
    then failed (already_has_candidate p.request_id)
    else if not (p.protocol == protocol)
    then failed (uses_not p.request_id protocol p.protocol)
    else ok (record p { joined = true })

abbrev pub release_response : IngressPair → Option Response → IngressPair
release_response p none = p
release_response p (some response) = record p { releases = p.releases + 1 }

abbrev pub release_outcome : IngressPair → Option IngressOutcome → IngressPair
release_outcome p none = p
release_outcome p (some outcome) = release_response p outcome.reference

-- `releaseReference`.
unfoldable pub release_reference : IngressPair → IngressPair
release_reference p = release_outcome p (get_future p.outcome)

abbrev pub is_finished : IngressPair → Bool
is_finished p = p.candidate_done || not p.joined

abbrev pub with_outcome : IngressPair → IngressOutcome → IngressPair
unfolding release_reference
with_outcome p outcome =
    let set = record p { outcome = some outcome } in
    if is_finished p then release_reference set else set

-- What `finishReference` of a pair returns: the pair, whether it is finished, and the response that it
-- released because it is nobody's.
pub record Finished : Type 0 where
  pub pair : IngressPair
  pub finished : Bool
  pub released : Option Response

abbrev pub finish_first : Option IngressOutcome → IngressPair → IngressOutcome → Finished
unfolding with_outcome
finish_first (some first) p outcome = record {
  pair = p;
  finished = false;
  released = outcome.reference;
}
finish_first none p outcome = record {
  pair = with_outcome p outcome;
  finished = is_finished p;
  released = none;
}

-- `ingressPair.finishReference`.
unfoldable pub finish_reference_of : IngressPair → IngressOutcome → Finished
unfolding finish_first
finish_reference_of p outcome = finish_first p.outcome p outcome

-- `ingressPair.finishCandidate`.
unfoldable pub finish_candidate_of : IngressPair → IngressPair
unfolding release_reference
finish_candidate_of p = release_reference (record p { candidate_done = true })

-- `ingressPairs`, with all pairs. `released` is the responses of nobody.
pub record IngressPairs : Type 0 where
  pub requests : List (RequestId × ℕ)
  pub exchanges : List (Exchange × ℕ)
  pub pairs : List IngressPair
  pub released : List Raw

-- `newIngressPairs`.
unfoldable pub new_ingress_pairs : IngressPairs
new_ingress_pairs = record { requests = []; exchanges = []; pairs = []; released = [] }

-- `start`, with its new identifiers.
unfoldable pub start :
    IngressPairs → Protocol → Route → Option Text → RequestId → Exchange → IngressPairs
start q protocol route ignored id exchange = record q {
  requests = insert id (length q.pairs) q.requests;
  exchanges = insert exchange (length q.pairs) q.exchanges;
  pairs = q.pairs ++ new_ingress_pair protocol id route ignored ∷ [];
}

abbrev pub admit_joined :
    Result PairingError IngressPair
    → IngressPairs
    → ℕ
    → Exchange
    → IngressPairs × Result PairingError Exchange
admit_joined (failed e) q p exchange = (q, failed e)
admit_joined (ok pair) q p exchange = (
  record q { pairs = modify (λ _. pair) q.pairs p; exchanges = insert exchange p q.exchanges },
  ok exchange,
)

-- A pointer to no pair is not reached, and is an unknown request here.
abbrev pub admit_pair :
    Option IngressPair
    → IngressPairs
    → Protocol
    → ℕ
    → RequestId
    → Exchange
    → IngressPairs × Result PairingError Exchange
unfolding join_pair
admit_pair none q protocol p id exchange = (q, failed (no_reference_request id))
admit_pair (some pair) q protocol p id exchange =
    admit_joined (join_pair pair protocol) q p exchange

abbrev pub admit_found :
    Option ℕ
    → IngressPairs
    → Protocol
    → RequestId
    → Exchange
    → IngressPairs × Result PairingError Exchange
unfolding admit_pair
admit_found none q protocol id exchange = (q, failed (no_reference_request id))
admit_found (some p) q protocol id exchange =
    admit_pair (get_elem? q.pairs p) q protocol p id exchange

-- `admit`, with its new identifier.
unfoldable pub admit_candidate :
    IngressPairs
    → Protocol
    → Option RequestId
    → Exchange
    → IngressPairs × Result PairingError Exchange
unfolding admit_found
admit_candidate q protocol none exchange = (q, failed no_request_id)
admit_candidate q protocol (some id) exchange =
    admit_found (lookup id q.requests) q protocol id exchange

abbrev pub take_found : Option ℕ → IngressPairs → Exchange → IngressPairs × Option ℕ
take_found none q exchange = (q, none)
take_found (some p) q exchange = (record q { exchanges = remove exchange q.exchanges }, some p)

-- `take`.
unfoldable pub take_pair : IngressPairs → Exchange → IngressPairs × Option ℕ
take_pair q exchange = take_found (lookup exchange q.exchanges) q exchange

abbrev pub raws : Option Response → List Raw
raws none = []
raws (some response) = response.raw ∷ []

abbrev pub finish_reference_at :
    Option IngressPair → IngressPairs → ℕ → IngressOutcome → IngressPairs
unfolding finish_reference_of
finish_reference_at none q p outcome = q
finish_reference_at (some pair) q p outcome =
    let f = finish_reference_of pair outcome in
    record q {
      pairs = modify (λ _. f.pair) q.pairs p;
      requests = if f.finished then remove pair.request_id q.requests else q.requests;
      released = raws f.released ++ q.released;
    }

-- The second critical section of `finishReference`.
unfoldable pub finish_reference : IngressPairs → ℕ → IngressOutcome → IngressPairs
unfolding finish_reference_at
finish_reference q p outcome = finish_reference_at (get_elem? q.pairs p) q p outcome

abbrev pub finish_candidate_at : Option IngressPair → IngressPairs → ℕ → IngressPairs
unfolding finish_candidate_of
finish_candidate_at none q p = q
finish_candidate_at (some pair) q p = record q {
  pairs = modify (λ _. finish_candidate_of pair) q.pairs p;
  requests = remove pair.request_id q.requests;
}

-- `finishCandidate`.
unfoldable pub finish_candidate : IngressPairs → ℕ → IngressPairs
unfolding finish_candidate_at
finish_candidate q p = finish_candidate_at (get_elem? q.pairs p) q p
