-- ===== src/Protocol/Ingress/Handlers.antt =====
-- internal/protocol/ingress.go: what the handlers do around the pairs, from what they wait for.
use spectre.Prelude.{
  Bool, true, false, ◌&&◌, Option, none, some, [], Text, text, ◌++◌, is_some, if◌then◌else◌, Result,
  ok, failed, ℕ, ltb, leb, ◌-◌, text_eq,
}
use spectre.Future.{Woken, wait_future}
use spectre.Model.{ingress, Protocol, Route, Traffic, divergent, unable, pairing, QuarantineReason}
use spectre.Protocol.Responses.{
  Response, Outcome, outcome_equivalent, outcome_divergent, outcome_skipped, outcome_unable,
  ComparisonResult, new_comparison_result, IngressOutcome, Scripts, compare_responses,
}
use spectre.Prelude.Ints.{ℤ, pos, negsuc}
use spectre.Protocol.Egress.{Exchange}
use spectre.Protocol.Ingress.{
  IngressPair, IngressPairs, RequestId, PairingError, admit_candidate, take_pair, finish_reference,
  raws,
}

-- `ingressTraffic`.
abbrev pub ingress_traffic : Protocol → Route → Traffic
ingress_traffic protocol route = record { direction = ingress; protocol = protocol; route = route }

abbrev pub unless_cancelled : Option Text → IngressOutcome → Result Text IngressOutcome
unless_cancelled none outcome = ok outcome
unless_cancelled (some failure) outcome = if outcome.cancelled then failed failure else ok outcome

abbrev pub known : Result Text IngressOutcome → Result Text IngressOutcome
known (failed e) = failed e
known (ok outcome) = unless_cancelled outcome.failure outcome

-- `awaitReference`, once it is woken.
unfoldable pub await_reference : Woken IngressOutcome → Result Text IngressOutcome
await_reference woken = known (wait_future woken)

abbrev pub is_unable : Outcome → Bool
is_unable outcome_unable = true
is_unable _ = false

-- What a candidate's handler does: a warning in the log, or the report of a comparison.
pub data Verdict : Type 0 where
  nothing : Verdict
  unfinished : Text → Verdict
  reported : ComparisonResult → ℕ → Verdict

module _ (scripts : Scripts) where
  -- A comparison that the candidate's own deadline, if it is over, may have cut short.
  abbrev pub judged : Option Text → ComparisonResult → ℕ → Verdict
  judged none result latency = reported result latency
  judged (some over) result latency =
      if is_unable result.outcome
      then unfinished (over ++ (text ": " ++ result.reason))
      else reported result latency

  abbrev pub compare_known_outcome : Result Text IngressOutcome → Option Text → Response → Verdict
  compare_known_outcome (failed e) over response = unfinished e
  compare_known_outcome (ok outcome) over response =
      judged over (compare_responses scripts outcome response) response.latency

  unfoldable pub unless_ignored :
      Option Text → Woken IngressOutcome → Option Text → Response → Verdict
  unfolding await_reference
  unless_ignored (some reason) woken over response =
      reported (new_comparison_result outcome_skipped reason) 0
  unless_ignored none woken over response =
      compare_known_outcome (await_reference woken) over response

  -- `candidateResponse` for its pair; `over` is the error of the context after the comparison.
  unfoldable pub candidate_verdict :
      IngressPair → Woken IngressOutcome → Option Text → Response → Verdict
  unfolding unless_ignored
  candidate_verdict pair woken over response =
      unless_ignored pair.ignored_reason woken over response

abbrev pub unable_result : Option Text → Text → ComparisonResult
unable_result none reason = new_comparison_result outcome_unable (text "candidate: " ++ reason)
unable_result (some ignored) reason = new_comparison_result outcome_skipped ignored

-- `candidateUnable` for its pair, and whether its context is done.
unfoldable pub unable_verdict : IngressPair → Bool → Text → Verdict
unable_verdict pair done reason =
    if done then nothing else reported (unable_result pair.ignored_reason reason) 0

abbrev pub quarantine_for : Outcome → IngressPair → ComparisonResult → Option QuarantineReason
quarantine_for outcome_equivalent pair result = none
quarantine_for outcome_skipped pair result = none
quarantine_for outcome_divergent pair result = some (record {
  kind = divergent;
  traffic = some (ingress_traffic pair.protocol pair.route);
  node = none;
  differences = result.differences;
  truncated = result.truncated;
  detail = [];
})
quarantine_for outcome_unable pair result = some (record {
  kind = unable;
  traffic = some (ingress_traffic pair.protocol pair.route);
  node = none;
  differences = [];
  truncated = false;
  detail = text "response comparison failed: " ++ result.reason;
})

-- The quarantine that `report` asks for, if any.
unfoldable pub report : IngressPair → ComparisonResult → Option QuarantineReason
report pair result = quarantine_for result.outcome pair result

unfoldable pub verdict_quarantine : IngressPair → Verdict → Option QuarantineReason
unfolding report
verdict_quarantine pair nothing = none
verdict_quarantine pair (unfinished e) = none
verdict_quarantine pair (reported result latency) = report pair result

-- `candidate - reference` on two durations.
abbrev minus : ℕ → ℕ → ℤ
minus c r = if leb r c then pos (c - r) else negsuc (r - c - 1)

abbrev delta_to : ℕ → Option Response → Option ℤ
delta_to latency none = none
delta_to latency (some r) = if ltb 0 r.latency then some (minus latency r.latency) else none

abbrev delta_of : ℕ → Option IngressOutcome → Option ℤ
delta_of latency none = none
delta_of latency (some outcome) = delta_to latency outcome.reference

-- `latencyDelta`.
unfoldable pub latency_delta : IngressPair → ℕ → Option ℤ
latency_delta pair latency = if ltb 0 latency then delta_of latency pair.outcome else none

-- The quarantine that `join` asks for, if any; an error's text is its print by a library.
abbrev pub pairing_quarantine :
    (PairingError → Text)
    → Protocol
    → Route
    → Result PairingError Exchange
    → Option QuarantineReason
pairing_quarantine print protocol route (ok exchange) = none
pairing_quarantine print protocol route (failed e) = some (record {
  kind = pairing;
  traffic = some (ingress_traffic protocol route);
  node = none;
  differences = [];
  truncated = false;
  detail = print e;
})

-- `join`: the pairs, the exchange under which the candidate is forwarded, and the quarantine.
unfoldable pub join_candidate :
    (PairingError → Text)
    → IngressPairs
    → Protocol
    → Route
    → Option RequestId
    → Exchange
    → IngressPairs × Result PairingError Exchange × Option QuarantineReason
join_candidate print q protocol route id exchange =
    let (left, admitted) = admit_candidate q protocol id exchange in
    (left, admitted, pairing_quarantine print protocol route admitted)

abbrev finish_or_release : Option ℕ → IngressPairs → IngressOutcome → IngressPairs
unfolding finish_reference
finish_or_release none q outcome = record q { released = raws outcome.reference ++ q.released }
finish_or_release (some p) q outcome = finish_reference q p outcome

-- `finishReference`, when nothing comes between its critical sections.
unfoldable pub finish_exchange :
    IngressPairs → Exchange → Option Response → Option Text → Bool → IngressPairs
unfolding take_pair finish_or_release
finish_exchange q exchange response failure done =
    let (left, found) = take_pair q exchange in
    finish_or_release found left
      (record { reference = response; failure = failure; cancelled = is_some failure && done })
