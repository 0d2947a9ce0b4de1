-- ===== src/Protocol/Ingress/Tests.antt =====
-- internal/protocol/ingress.go at concrete inputs: a pair whose candidate answers before its reference.
use spectre.Prelude.{
  ◌≡◌, ◌↔◌, refl, Bool, true, false, ◌&&◌, none, some, [], ◌∷◌, Text, text, text_eq, ◌==◌, is_some,
  ok,
}
use spectre.Prelude.Assoc.{lookup, insert, remove}
use spectre.Future.{value_set}
use spectre.Model.{Protocol, QuarantineReason, divergent, changed}
use spectre.Comparison.Json.{number}
use spectre.Protocol.Egress.{Exchange}
use spectre.Protocol.Responses.{
  Content, Response, IngressOutcome, Scripts, outcome_equivalent, outcome_skipped,
  compare_responses, compare_contents, normalise_response, compare_messages,
}
use spectre.Protocol.Responses.Classified.{AreSame, equivalent-AreSame}
use spectre.Protocol.Responses.Skipped.{AreIgnored, skipped-AreIgnored}
use spectre.Protocol.Responses.Explained.{IsExplained, compare-IsExplained}
use spectre.Protocol.Ingress.{
  IngressPair, new_ingress_pair, new_ingress_pairs, start, admit_candidate, admit_found, admit_pair,
  join_pair, take_pair,
}
use spectre.Protocol.Ingress.Handlers.{
  candidate_verdict, unless_ignored, await_reference, verdict_quarantine, report, ingress_traffic,
}
use spectre.Protocol.Ingress.Steps.{
  System, new_system, starts_one, admits, takes_candidate, Reach, starts, continues,
}
use spectre.Protocol.Ingress.Invariant.{PairsInv}
use spectre.Protocol.Ingress.Ended.{Reach-PairsInv, compares-Unreleased}
use spectre.Protocol.Ingress.Verdicts.{IsFor, quarantine-IsFor}

abbrev http : Protocol
http = text "http"

abbrev of_reference : Exchange → Bool
of_reference exchange = exchange == text "r"

-- A request is forwarded, and its candidate joins and answers.
abbrev answered : (s : System) × Reach of_reference s
unfolding new_system new_ingress_pairs start admit_candidate admit_found admit_pair join_pair
    take_pair lookup insert remove
answered =
    let one =
      continues _ _ starts
        (starts_one http (text "/a") none (text "id") (text "r") refl refl refl) in
    let two = continues _ _ one (admits http (some (text "id")) (text "c") _ refl refl refl) in
    (_, continues _ _ two (takes_candidate (text "c") 0 _ refl refl))

Reach-PairsInv_example : PairsInv of_reference answered.0
Reach-PairsInv_example = Reach-PairsInv of_reference answered.0 answered.1

abbrev joined_pair : IngressPair
joined_pair = record (new_ingress_pair http (text "id") (text "/a") none) { joined = true }

compares-Unreleased_example : joined_pair.releases ≡ 0
unfolding answered new_system new_ingress_pairs start admit_candidate admit_found admit_pair
    join_pair take_pair lookup insert remove
compares-Unreleased_example =
    compares-Unreleased of_reference answered.0 0 0 joined_pair answered.1 refl refl

-- Scripts that normalise nothing and find no difference.
abbrev scripts : Scripts
scripts = record {
  normalise_with = λ rule status body. ok (some status, body);
  compare_values = λ type reference candidate. ok ([], false);
  rule_text = λ rule. [];
  wrap = λ prefix e. e;
}

abbrev content : Text → Content
content status = record {
  status = some status;
  message = some (record { type = none; value = number 1 });
  failure = none;
  ignored = none;
  rule = none;
}

abbrev response : Text → Response
response status = record { raw = 0; latency = 1; decode = content status }

abbrev outcome : IngressOutcome
outcome = record { reference = some (response (text "200")); failure = none; cancelled = false }

equivalent-AreSame_example :
    ((compare_responses scripts outcome (response (text "200"))).outcome ≡ outcome_equivalent)
    ↔ AreSame scripts none (some (response (text "200"))) (response (text "200"))
equivalent-AreSame_example = equivalent-AreSame scripts outcome (response (text "200"))

equivalent_run :
    (compare_responses scripts outcome (response (text "200"))).outcome ≡ outcome_equivalent
unfolding compare_responses compare_contents normalise_response compare_messages
equivalent_run = refl

ignored_twice :
    ((compare_responses scripts outcome (response (text "500"))).outcome ≡ outcome_skipped)
    ↔ AreIgnored scripts none (some (response (text "200"))) (response (text "500"))
ignored_twice = skipped-AreIgnored scripts outcome (response (text "500"))

divergence-IsExplained :
    IsExplained scripts (compare_responses scripts outcome (response (text "500")))
divergence-IsExplained = compare-IsExplained scripts outcome (response (text "500"))

abbrev reason : QuarantineReason
reason = record {
  kind = divergent;
  traffic = some (ingress_traffic http (text "/a"));
  node = none;
  differences = record { path = text "$status"; change = changed; retype = none; count = 1 } ∷ [];
  truncated = false;
  detail = [];
}

quarantine-IsFor_example :
    (joined_pair.ignored_reason ≡ none)
    × (o : IngressOutcome) × (value_set outcome ≡ value_set o)
    × ((is_some o.failure && o.cancelled) ≡ false)
    × IsFor scripts joined_pair (compare_responses scripts o (response (text "500"))) none reason
unfolding candidate_verdict unless_ignored await_reference verdict_quarantine report
    compare_responses compare_contents normalise_response compare_messages
quarantine-IsFor_example =
    quarantine-IsFor scripts joined_pair (value_set outcome) none (response (text "500")) reason
      refl
