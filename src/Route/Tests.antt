-- ===== src/Route/Tests.antt =====
-- internal/httpserver/route/matcher.go at concrete inputs: a rule that ignores a path, and one for every
-- other.
use spectre.Prelude.{ℕ, ◌+◌, true, false, ◌≡◌, refl, none, some, [], Text, text, text_eq, ◌==◌, ok}
use spectre.Prelude.Ints.{pos}
use spectre.Comparison.Rules.{
  Rule, RuleRequest, RuleResponse, request_pattern, status_any, action_ignore, action_match,
  selects_every_response, selects_request_headers,
}
use spectre.Comparison.Rules.Selection.{
  Evaluation, select_rule, select_from, selects, selects_headers, selects_by_status,
}
use spectre.Comparison.Rules.First.{IsStateless}
use spectre.Route.{Mux, Matcher, new_matcher, declare, declaration_rule, responses, responses_from}
use spectre.Route.Declared.{AreDeclared, declare-AreDeclared}
use spectre.Route.Selected.{Decides, responses-Decides}

-- A pattern matches its own text alone.
abbrev mux : Mux
mux = record {
  Pattern = Text;
  new_pattern = λ p. ok p;
  pattern_matches = λ p method host path. p == path;
  Routes = Unit;
  no_routes = tt;
  add_route = λ routes p request. (routes, ok tt);
  match_route = λ routes method host path. none;
}

abbrev evaluation : Evaluation
evaluation = record {
  Evaluator = ℕ;
  new_evaluator = ok 0;
  selects_request = λ e r request. (e + 1, ok true);
  selects_request_header = λ e r name value. (e + 1, ok true);
  selects_status = λ e r status. (e + 1, ok true);
  selects_response_header = λ e r name value. (e + 1, ok true);
}

stateless : IsStateless evaluation
stateless = record {
  request = λ r q d e. refl;
  request_header = λ r name v d e. refl;
  status = λ r status d e. refl;
  response_header = λ r name v d e. refl;
}

abbrev ignoring : Rule
ignoring = record {
  index = 0;
  protocol = text "http";
  request = request_pattern (text "/a");
  status = status_any;
  request_headers = [];
  response_headers = [];
  action = action_ignore;
}

abbrev matching : Rule
matching = record ignoring { index = 1; action = action_match none false }

abbrev both : Matcher mux
unfolding new_matcher declare
both =
    (declare mux (declare mux (new_matcher mux) (declaration_rule ignoring)).0
      (declaration_rule matching)).0

both_declared : AreDeclared mux both
unfolding both new_matcher declare
both_declared = (refl, (refl, tt))

still_declared : AreDeclared mux (declare mux both (declaration_rule matching)).0
still_declared = declare-AreDeclared mux both (declaration_rule matching) both_declared

abbrev request : RuleRequest
request = record { method = text "GET"; path = text "/a"; header = λ name. [] }

abbrev response : RuleResponse
response = record { status = pos 200; header = λ name. [] }

responses-Decides_example :
    Decides mux evaluation request response
      (responses mux (λ r. []) both (text "GET") (text "/a") request.header)
      (some ignoring)
unfolding both new_matcher declare select_rule select_from selects selects_headers selects_by_status
responses-Decides_example =
    responses-Decides mux evaluation (λ r. []) both (text "GET") (text "/a") request response
      (some ignoring) both_declared stateless refl

ignored_run :
    responses mux (λ r. []) both (text "GET") (text "/a") request.header
    ≡ ([], some (text "rule  ignores the request"))
unfolding both new_matcher declare responses responses_from selects_every_response
    selects_request_headers
ignored_run = refl
