-- ===== src/Route/Refused.antt =====
-- internal/httpserver/route/matcher.go: the rules that a request's headers and pattern rule out, and the last
-- that it can reach.
use spectre.Prelude.{
  ◌≡◌, refl, Bool, true, false, Option, none, some, List, [], ◌∷◌, Text, text_eq, arith, is_some,
  Result, ok, failed, any, select, map, inl, inr, ◌⊎◌,
}
use spectre.Comparison.Rules.{
  Rule, Header, RuleRequest, RuleResponse, RequestSelector, request_pattern, request_script,
  HeaderSelector, header_value, header_script, joined_header, value_selects, refuses,
  selects_request_headers, selects_every_response,
}
use spectre.Comparison.Rules.Selection.{Evaluation}
use spectre.Comparison.Rules.First.{both, by_header, by_headers, by_request, rule_selects, first_or}
use spectre.Comparison.Rules.Same.{selects_every_response_lem}
use spectre.Route.{Mux, DeclaredRule, pattern_fits, is_last}
use spectre.Route.Declared.{HasItsPattern, IsDeclared}

module _ (mux : Mux) (evaluation : Evaluation) where
  both-true :
      (r t : Result Text Bool) → both evaluation r t ≡ ok true → (r ≡ ok true) × (t ≡ ok true)
  both-true (ok true) t h = (refl, h)
  both-true (ok false) t h = absurd (cc)
  both-true (failed e) t h = absurd (cc)

  -- A request without the header values that a rule wants is one it does not select.
  refused-headers :
      (f : evaluation.Evaluator → Text → Option Text → evaluation.Evaluator × Result Text Bool)
      (header : Header) (hs : List HeaderSelector)
      → any (refuses header) hs ≡ true
      → by_headers evaluation f header hs ≡ ok true
      → true ≡ false
  unfolding refuses joined_header
  refused-headers f header [] e h = cc
  refused-headers f header (header_value name value ∷ hs) e h =
      let (first, rest) = both-true (by_header evaluation f header (header_value name value)) _ h in
      let here : value_selects value (joined_header header name) ≡ true = cc in
      refused-headers f header hs (ground (arith, here)) rest
  refused-headers f header (header_script name ∷ hs) e h =
      refused-headers f header hs e
        (both-true (by_header evaluation f header (header_script name)) _ h).1

  pub refused-rule :
      (r : Rule) (request : RuleRequest) (response : RuleResponse)
      → selects_request_headers r request.header ≡ false
      → rule_selects evaluation r request response ≡ ok true
      → true ≡ false
  unfolding selects_request_headers
  refused-rule r request response e h =
      let rest = (both-true (by_request evaluation r request r.request) _ h).1 in
      refused-headers (λ e. evaluation.selects_request_header e r) request.header r.request_headers
        (ground (arith, e))
        (both-true
          (by_headers evaluation (λ e. evaluation.selects_request_header e r) request.header
            r.request_headers)
          _ rest).0

  -- The rules whose pattern, if they have one, matches a request.
  abbrev pub applicable : Text → Text → List (DeclaredRule mux) → List Rule
  applicable method path ds =
      map (λ (d : DeclaredRule mux). d.rule)
        (select (λ (d : DeclaredRule mux). pattern_fits mux d.pattern method path) ds)

  pub first_ok :
      (r : Rule) (t : Result Text Bool) (rest : Result Text (Option Rule)) (x : Option Rule)
      → first_or evaluation r t rest ≡ ok x
      → ((t ≡ ok true) × (x ≡ some r)) ⊎ ((t ≡ ok false) × (rest ≡ ok x))
  first_ok r (ok true) rest x h = inl (refl, cc)
  first_ok r (ok false) rest x h = inr (refl, h)
  first_ok r (failed e) rest x h = absurd (cc)

  pub last_selects :
      (d : DeclaredRule mux) (request : RuleRequest) (response : RuleResponse)
      → IsDeclared mux d
      → is_last mux d ≡ true
      → rule_selects evaluation d.rule request response
        ≡ ok (selects_request_headers d.rule request.header)
  last_selects d request response declared last =
      go d.rule.request d.pattern refl declared (ground (arith, last)) (ground (arith, last))
    where
      go :
          (s : RequestSelector) (pattern : Option mux.Pattern)
          → d.rule.request ≡ s
          → HasItsPattern mux s pattern
          → is_some pattern ≡ true
          → selects_every_response d.rule ≡ true
          → rule_selects evaluation d.rule request response
            ≡ ok (selects_request_headers d.rule request.header)
      go (request_pattern p) (some pattern) is has given every =
          selects_every_response_lem evaluation d.rule request response p is every
      go (request_pattern p) none is has given every = cc
      go request_script none is has given every = cc
      go request_script (some pattern) is has given every = cc
