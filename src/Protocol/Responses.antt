-- ===== src/Protocol/Responses.antt =====
-- internal/protocol/types.go and ingress.go: responses, and the classification of a pair of them. What
-- the scripts do is given as an interface, and the text of a wrapped error by a library.
pub mod Classified
pub mod Skipped
pub mod Explained
use spectre.Prelude.{
  ℕ, Bool, true, false, not, ◌&&◌, ◌||◌, Option, none, some, List, [], ◌∷◌, ◌++◌, Text, text,
  text_eq, ◌==◌, is_some, option_beq, if◌then◌else◌, Result, ok, failed,
}
use spectre.Prelude.Ints.{ℤ, itoa, atoi}
use spectre.Model.{Change, missing, added, changed, Difference}
use spectre.Schema.{TypeRef}
use spectre.Comparison.Json.{Json}
use spectre.Comparison.Rules.{Rule, Action, action_ignore, action_match}

abbrev pub Raw : Type 0
Raw = ℕ

pub record Message : Type 0 where
  pub type : Option TypeRef
  pub value : Json

-- `Content`, which `Decode` returns.
pub record Content : Type 0 where
  pub status : Option Text
  pub message : Option Message
  pub failure : Option Text
  pub ignored : Option Text
  pub rule : Option Rule

-- `Response`, with what its `Decode` returns. A latency is a number of nanoseconds.
pub record Response : Type 0 where
  pub raw : Raw
  pub latency : ℕ
  pub decode : Content

pub data Outcome : Type 0 where
  outcome_equivalent outcome_divergent outcome_skipped outcome_unable : Outcome

pub record ComparisonResult : Type 0 where
  pub outcome : Outcome
  pub differences : List Difference
  pub truncated : Bool
  pub reason : Text

-- `newComparisonResult`.
abbrev pub new_comparison_result : Outcome → Text → ComparisonResult
new_comparison_result outcome reason = record {
  outcome = outcome;
  differences = [];
  truncated = false;
  reason = reason;
}

-- `newDifferenceResult`.
abbrev pub new_difference_result : Bool → List Difference → ComparisonResult
new_difference_result truncated differences = record {
  outcome = outcome_divergent;
  differences = differences;
  truncated = truncated;
  reason = [];
}

-- `rootDifference`.
abbrev pub root_difference : Text → Change → ComparisonResult
root_difference path change =
    new_difference_result false
      (record { path = path; change = change; retype = none; count = 1 } ∷ [])

-- `ingressOutcome`.
pub record IngressOutcome : Type 0 where
  pub reference : Option Response
  pub failure : Option Text
  pub cancelled : Bool

-- `comparison.Scripts`, as far as responses are compared with it, and the texts of errors.
pub record Scripts : Type 0 where
  pub normalise_with : Rule → ℤ → Option Json → Result Text (Option ℤ × Option Json)
  pub compare_values : Option TypeRef → Json → Json → Result Text (List Difference × Bool)
  pub rule_text : Rule → Text
  pub wrap : Text → Text → Text

abbrev pub or_empty : Option Text → Text
or_empty none = []
or_empty (some s) = s

abbrev pub value_of : Option Message → Option Json
value_of none = none
value_of (some m) = some m.value

abbrev pub printed : Option ℤ → Option Text
printed none = none
printed (some code) = some (itoa code)

abbrev pub match_type : Action → Option TypeRef
match_type (action_match type normalises) = type
match_type action_ignore = none

abbrev pub typed : Option TypeRef → Option Json → Option Message
typed type none = none
typed type (some value) = some (record { type = type; value = value })

module _ (scripts : Scripts) where
  open scripts use {normalise_with, compare_values, rule_text, wrap}

  abbrev pub normalised :
      Content → Rule → Result Text (Option ℤ × Option Json) → Result Text Content
  normalised content rule (failed e) =
      failed (wrap (text "normalise response with rule " ++ rule_text rule) e)
  normalised content rule (ok (status, body)) =
      ok (record content { status = printed status; message = typed (match_type rule.action) body })

  abbrev pub normalise_by : Content → Rule → Option ℤ → Result Text Content
  normalise_by content rule none =
      failed (text "rule " ++ (rule_text rule ++ text " needs an HTTP status"))
  normalise_by content rule (some status) =
      normalised content rule (normalise_with rule status (value_of content.message))

  abbrev pub normalise_ruled : Content → Option Rule → Result Text Content
  normalise_ruled content none = ok content
  normalise_ruled content (some rule) = normalise_by content rule (atoi (or_empty content.status))

  -- `normaliseResponse`.
  unfoldable pub normalise_response : Content → Result Text Content
  normalise_response content = normalise_ruled content content.rule

  abbrev pub compared : Result Text (List Difference × Bool) → ComparisonResult
  compared (failed e) = new_comparison_result outcome_unable e
  compared (ok ([], truncated)) = new_comparison_result outcome_equivalent []
  compared (ok (d ∷ differences, truncated)) = new_difference_result truncated (d ∷ differences)

  -- `compareMessages`.
  unfoldable pub compare_messages : Option Message → Option Message → ComparisonResult
  compare_messages none none = new_comparison_result outcome_equivalent []
  compare_messages (some reference) none = root_difference (text "$") missing
  compare_messages none (some candidate) = root_difference (text "$") added
  compare_messages (some reference) (some candidate) =
      if option_beq reference.type candidate.type
      then compared (compare_values reference.type reference.value candidate.value)
      else new_comparison_result outcome_unable
          (text "reference and candidate messages have different types")

  -- What follows once both contents are normalised.
  abbrev pub compare_normalised : Result Text Content → Result Text Content → ComparisonResult
  compare_normalised (failed e) candidate =
      new_comparison_result outcome_unable (text "reference: " ++ e)
  compare_normalised (ok reference) (failed e) =
      new_comparison_result outcome_unable (text "candidate: " ++ e)
  compare_normalised (ok reference) (ok candidate) =
      if option_beq reference.status candidate.status
      then compare_messages reference.message candidate.message
      else root_difference (text "$status") changed

  -- Both statuses are known and differ.
  abbrev pub statuses_differ : Option Text → Option Text → Bool
  statuses_differ (some reference) (some candidate) = not (reference == candidate)
  statuses_differ _ _ = false

  abbrev pub compare_known : Content → Content → ComparisonResult
  compare_known reference candidate =
      if is_some reference.ignored || is_some candidate.ignored
      then new_comparison_result outcome_unable (text "only one response is ignored")
      else if not (is_some reference.status) || not (is_some candidate.status)
      then new_comparison_result outcome_unable (text "response status is unknown")
      else compare_normalised (normalise_response reference) (normalise_response candidate)

  -- The two tests of `Failure`.
  abbrev pub compare_decoded : Option Text → Option Text → Content → Content → ComparisonResult
  compare_decoded (some failure) other reference candidate =
      new_comparison_result outcome_unable (text "reference: " ++ failure)
  compare_decoded none (some failure) reference candidate =
      new_comparison_result outcome_unable (text "candidate: " ++ failure)
  compare_decoded none none reference candidate = compare_known reference candidate

  abbrev pub is_decoded : Content → Content → Bool
  is_decoded reference candidate =
      not (is_some reference.failure) && not (is_some candidate.failure)

  abbrev pub compare_statuses : Content → Content → ComparisonResult
  compare_statuses reference candidate =
      if statuses_differ reference.status candidate.status
        && (not (is_decoded reference candidate)
            || (is_some reference.ignored || is_some candidate.ignored))
      then root_difference (text "$status") changed
      else compare_decoded reference.failure candidate.failure reference candidate

  abbrev pub compare_ignored : Option Text → Option Text → Content → Content → ComparisonResult
  compare_ignored (some reason) (some other) reference candidate =
      new_comparison_result outcome_skipped reason
  compare_ignored _ _ reference candidate = compare_statuses reference candidate

  -- What follows once both contents are decoded.
  unfoldable pub compare_contents : Content → Content → ComparisonResult
  compare_contents reference candidate =
      compare_ignored reference.ignored candidate.ignored reference candidate

  abbrev pub compare_finished : Option Text → Option Response → Response → ComparisonResult
  compare_finished (some failure) reference candidate =
      new_comparison_result outcome_unable (text "reference: " ++ failure)
  compare_finished none none candidate =
      new_comparison_result outcome_unable (text "reference response is missing")
  compare_finished none (some reference) candidate =
      compare_contents reference.decode candidate.decode

  -- `compareResponses`.
  unfoldable pub compare_responses : IngressOutcome → Response → ComparisonResult
  unfolding compare_contents
  compare_responses outcome candidate = compare_finished outcome.failure outcome.reference candidate
