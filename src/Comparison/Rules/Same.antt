-- ===== src/Comparison/Rules/Same.antt =====
-- internal/comparison/javascript/rule.go: the tests on rules that need no evaluator, against which
-- responses the rules select.
use spectre.Prelude.{
  ◌≡◌, refl, Bool, true, false, not, ◌||◌, Option, List, [], ◌∷◌, Text, text_eq, contains, any,
  arith, ap, ◌∙◌, Result, ok, eq_iff, ◌&&◌, ◌==◌, if◌then◌else◌,
}
use spectre.Model.{Protocol}
use spectre.Prelude.Ints.{ℤ, int_eq}
use spectre.Comparison.Rules.{
  Rule, RuleRequest, RuleResponse, Header, RequestSelector, request_pattern, request_script,
  StatusSelector, status_any, status_codes, status_script, HeaderSelector, header_value,
  header_script, joined_header, value_selects, refuses, selects_request_headers, is_script, is_any,
  is_empty, selects_every_response, list_beq, same_value, same_header_values, same_pattern,
  same_status, same_selectors,
}
use spectre.Comparison.Rules.Selection.{Evaluation}
use spectre.Comparison.Rules.First.{
  both, by_header, by_headers, by_status, by_request, rule_selects,
}

module _ (evaluation : Evaluation) where
  open evaluation use {Evaluator, selects_request_header, selects_response_header}

  abbrev Evaluate : Type 0
  Evaluate = Evaluator → Text → Option Text → Evaluator × Result Text Bool

  same-header :
      (f g : Evaluate) (header : Header) (h o : HeaderSelector)
      → same_value h o ≡ true
      → by_header evaluation f header h ≡ by_header evaluation g header o
  same-header f g header (header_value name value) (header_value other_name other) e =
      ground (arith, eq_iff name other_name, eq_iff value other)
  same-header f g header (header_value name value) (header_script other) e = cc
  same-header f g header (header_script name) o e = cc

  same-headers :
      (f g : Evaluate) (header : Header) (hs os : List HeaderSelector)
      → same_header_values hs os ≡ true
      → by_headers evaluation f header hs ≡ by_headers evaluation g header os
  unfolding same_header_values
  same-headers f g header [] [] e = refl
  same-headers f g header [] (o ∷ os) e = cc
  same-headers f g header (h ∷ hs) [] e = cc
  same-headers f g header (h ∷ hs) (o ∷ os) e =
      ground (arith, same-header f g header h o, same-headers f g header hs os)

  list_beq-eq : (xs ys : List ℤ) → list_beq xs ys ≡ true → xs ≡ ys
  list_beq-eq [] [] e = refl
  list_beq-eq [] (y ∷ ys) e = cc
  list_beq-eq (x ∷ xs) [] e = cc
  list_beq-eq (x ∷ xs) (y ∷ ys) e = ground (arith, eq_iff x y, list_beq-eq xs ys)

  same-status :
      (r other : Rule) (status : ℤ) (s t : StatusSelector)
      → same_status s t ≡ true
      → by_status evaluation r status s ≡ by_status evaluation other status t
  same-status r other status status_any status_any e = refl
  same-status r other status status_any (status_codes codes) e = cc
  same-status r other status status_any status_script e = cc
  same-status r other status (status_codes codes) status_any e = cc
  same-status r other status (status_codes codes) (status_codes others) e =
      ap (λ cs. ok (contains status cs)) (list_beq-eq codes others e)
  same-status r other status (status_codes codes) status_script e = cc
  same-status r other status status_script t e = cc

  same-request :
      (r other : Rule) (request : RuleRequest) (s t : RequestSelector)
      → same_pattern s t ≡ true
      → by_request evaluation r request s ≡ by_request evaluation other request t
  same-request r other request (request_pattern p) (request_pattern q) e = refl
  same-request r other request (request_pattern p) request_script e = cc
  same-request r other request request_script t e = cc

  same-selects :
      (r other : Rule) (request : RuleRequest) (response : RuleResponse)
      → same_selectors r other ≡ true
      → rule_selects evaluation r request response ≡ rule_selects evaluation other request response
  unfolding same_selectors
  same-selects r other request response e = ground (
    arith,
    same-request r other request r.request other.request,
    same-headers (λ e. selects_request_header e r) (λ e. selects_request_header e other)
        request.header r.request_headers other.request_headers,
    same-status r other response.status r.status other.status,
    same-headers (λ e. selects_response_header e r) (λ e. selects_response_header e other)
        response.header r.response_headers other.response_headers,
  )

  -- What patterns match is told by net/http.
  module _ (matches : Text → RuleRequest → Bool) where
    abbrev pub is_matched : RuleRequest → RequestSelector → Bool
    is_matched request (request_pattern pattern) = matches pattern request
    is_matched request request_script = true

    -- Whether a rule selects a response to a request of a protocol, with the protocol and the pattern
    -- that the rule is declared for.
    abbrev pub decides : Protocol → Rule → RuleRequest → RuleResponse → Result Text Bool
    decides protocol r request response =
        if r.protocol == protocol && is_matched request r.request
        then rule_selects evaluation r request response
        else ok false

    same-matched :
        (request : RuleRequest) (s t : RequestSelector)
        → same_pattern s t ≡ true
        → is_matched request s ≡ is_matched request t
    same-matched request (request_pattern p) (request_pattern q) e =
        ap (λ p. matches p request) ((eq_iff p q).0 e)
    same-matched request (request_pattern p) request_script e = cc
    same-matched request request_script t e = cc

    same-protocol : (r other : Rule) → same_selectors r other ≡ true → r.protocol ≡ other.protocol
    unfolding same_selectors
    same-protocol r other e = ground (arith, e, eq_iff r.protocol other.protocol)

    same-request-pattern :
        (r other : Rule)
        → same_selectors r other ≡ true
        → same_pattern r.request other.request ≡ true
    unfolding same_selectors
    same-request-pattern r other e = ground (arith, e)

    -- Two rules with the same selectors select the same responses to every request of every protocol:
    -- they are declared for one protocol, what their patterns match is the same, and so is what their
    -- statuses and headers select.
    pub same_selectors_lem :
        (r other : Rule) (protocol : Protocol) (request : RuleRequest) (response : RuleResponse)
        → same_selectors r other ≡ true
        → decides protocol r request response ≡ decides protocol other request response
    same_selectors_lem r other protocol request response e =
        ap (λ p. chosen (p == protocol) (is_matched request r.request) (selected r))
          (same-protocol r other e)
        ∙ ap (λ b. chosen (other.protocol == protocol) b (selected r))
            (same-matched request r.request other.request (same-request-pattern r other e))
        ∙ ap (λ t. chosen (other.protocol == protocol) (is_matched request other.request) t)
            (same-selects r other request response e)
      where
        selected : Rule → Result Text Bool
        selected r = rule_selects evaluation r request response

        chosen : Bool → Bool → Result Text Bool → Result Text Bool
        chosen of_protocol matched t = if of_protocol && matched then t else ok false

  every-headers :
      (f : Evaluate) (header : Header) (hs : List HeaderSelector)
      → not (any is_script hs) ≡ true
      → by_headers evaluation f header hs ≡ ok (not (any (refuses header) hs))
  unfolding refuses joined_header
  every-headers f header [] e = refl
  every-headers f header (header_script name ∷ hs) e = cc
  every-headers f header (header_value name value ∷ hs) e =
      selected (value_selects value (joined_header header name)) (every-headers f header hs e)
    where
      selected :
          (b : Bool)
          → by_headers evaluation f header hs ≡ ok (not (any (refuses header) hs))
          → both evaluation (ok b) (by_headers evaluation f header hs)
            ≡ ok (not (not b || any (refuses header) hs))
      selected true ih = ih
      selected false ih = refl

  pattern-request :
      (r : Rule) (request : RuleRequest) (s : RequestSelector) (pattern : Text)
      → s ≡ request_pattern pattern
      → by_request evaluation r request s ≡ ok true
  pattern-request r request (request_pattern p) pattern e = refl
  pattern-request r request request_script pattern e = cc

  any-status :
      (r : Rule) (status : ℤ) (s : StatusSelector)
      → is_any s ≡ true
      → by_status evaluation r status s ≡ ok true
  any-status r status status_any e = refl
  any-status r status (status_codes codes) e = cc
  any-status r status status_script e = cc

  no-headers :
      (f : Evaluate) (header : Header) (hs : List HeaderSelector)
      → is_empty hs ≡ true
      → by_headers evaluation f header hs ≡ ok true
  no-headers f header [] e = refl
  no-headers f header (h ∷ hs) e = cc

  -- A rule with a pattern that is said to select every response selects each response to a request
  -- that has the values its request headers want, and none to another request.
  pub selects_every_response_lem :
      (r : Rule) (request : RuleRequest) (response : RuleResponse) (pattern : Text)
      → r.request ≡ request_pattern pattern
      → selects_every_response r ≡ true
      → rule_selects evaluation r request response ≡ ok (selects_request_headers r request.header)
  unfolding selects_every_response selects_request_headers
  selects_every_response_lem r request response pattern e every = ground (
    arith,
    pattern-request r request r.request pattern e,
    every-headers (λ e. selects_request_header e r) request.header r.request_headers,
    any-status r response.status r.status,
    no-headers (λ e. selects_response_header e r) response.header r.response_headers,
  )
