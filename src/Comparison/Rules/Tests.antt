-- ===== src/Comparison/Rules/Tests.antt =====
-- internal/comparison/scripts.go and javascript/rule.go at concrete inputs.
use spectre.Prelude.{
  ℕ, ◌+◌, ◌==◌, Bool, Text, text_eq, ◌≡◌, ◌≤◌, refl, true, [], ◌∷◌, text, ok, failed,
}
use spectre.Prelude.Ints.{pos}
use spectre.Comparison.Rules.{
  Rule, RuleRequest, RuleResponse, request_pattern, status_any, status_codes, status_script,
  header_value, action_ignore, same_selectors, same_header_values, selects_every_response,
  selects_request_headers, rule_string, write_headers,
}
use spectre.Comparison.Rules.Selection.{Evaluation, select_rule}
use spectre.Comparison.Rules.First.{IsStateless, first_rule, rule_selects, select_rule_lem}
use spectre.Comparison.Rules.Same.{decides, same_selectors_lem, selects_every_response_lem}

-- An evaluator that counts the calls of its functions, whose results do not depend on the count.
abbrev evaluation : Evaluation
evaluation = record {
  Evaluator = ℕ;
  new_evaluator = ok 0;
  selects_request = λ e r request. (e + 1, ok true);
  selects_request_header = λ e r name value. (e + 1, ok true);
  selects_status = λ e r status. (e + 1, ok true);
  selects_response_header = λ e r name value. (e + 1, failed (text "no function"));
}

stateless : IsStateless evaluation
stateless = record {
  request = λ r q d e. refl;
  request_header = λ r name v d e. refl;
  status = λ r status d e. refl;
  response_header = λ r name v d e. refl;
}

abbrev only_ok : Rule
only_ok = record {
  index = 0;
  protocol = text "http";
  request = request_pattern (text "/a");
  status = status_codes (pos 200 ∷ []);
  request_headers = header_value (text "A") (text "b") ∷ [];
  response_headers = [];
  action = action_ignore;
}

abbrev by_function : Rule
by_function = record only_ok { index = 1; status = status_script; request_headers = [] }

abbrev every_response : Rule
every_response = record only_ok { index = 2; status = status_any }

abbrev request : RuleRequest
request = record { method = text "GET"; path = text "/a"; header = λ name. text "b" ∷ [] }

abbrev response : RuleResponse
response = record { status = pos 404; header = λ name. [] }

select_rule_lem_example :
    ((select_rule evaluation (only_ok ∷ by_function ∷ []) request response).result
      ≡ first_rule evaluation (only_ok ∷ by_function ∷ []) request response)
    × ((select_rule evaluation (only_ok ∷ by_function ∷ []) request response).created ≤ 1)
select_rule_lem_example =
    select_rule_lem evaluation stateless (only_ok ∷ by_function ∷ []) request response

abbrev matches : Text → RuleRequest → Bool
matches pattern request = pattern == request.path

same_selectors_lem_example :
    decides evaluation matches (text "http") only_ok request response
    ≡ decides evaluation matches (text "http") (record only_ok { index = 3 }) request response
unfolding same_selectors same_header_values
same_selectors_lem_example =
    same_selectors_lem evaluation matches only_ok (record only_ok { index = 3 }) (text "http")
      request response refl

selects_every_response_lem_example :
    rule_selects evaluation every_response request response
    ≡ ok (selects_request_headers every_response request.header)
unfolding selects_every_response
selects_every_response_lem_example =
    selects_every_response_lem evaluation every_response request response (text "/a") refl refl

rule_string_example :
    rule_string
      (λ s. s)
      (text "header")
      (text "responseHeader")
      (record by_function { response_headers = [] })
    ≡ text "http(/a).status(<function>)"
unfolding rule_string write_headers
rule_string_example = refl
