-- ===== src/Comparison/Rules/First.antt =====
-- internal/comparison/scripts.go and javascript/rule.go: which rule decides, without the state of the
-- evaluator that the functions share.
use mathlib.Core.Path.{subst}
use spectre.Prelude.{
  ℕ, ◌≤◌, ◌≡◌, refl, Bool, true, false, Option, none, some, List, [], ◌∷◌, Text, text_eq, contains,
  arith, ap, sym, ◌∙◌, Result, ok, failed,
}
use spectre.Prelude.Ints.{ℤ, int_eq}
use spectre.Comparison.Rules.{
  Rule, RuleRequest, RuleResponse, Header, RequestSelector, request_pattern, request_script,
  StatusSelector, status_any, status_codes, status_script, HeaderSelector, header_value,
  header_script, joined_header, value_selects,
}
use spectre.Comparison.Rules.Selection.{
  Evaluation, Ran, Scripted, Function, call, run_on, and_also, go_on, keep_evaluator,
  status_selects, selects_by_status, header_selects, selects_headers, request_selects, selects,
  decided, select_from, select_rule,
}

module _ (evaluation : Evaluation) where
  open evaluation use {
    Evaluator, new_evaluator, selects_request, selects_request_header, selects_status,
    selects_response_header,
  }

  abbrev pub result_of : Function evaluation → Result Text Evaluator → Result Text Bool
  result_of f (ok e) = (f e).1
  result_of f (failed e) = failed e

  -- What a function gives on the evaluator as it was created.
  abbrev pub on_fresh : Function evaluation → Result Text Bool
  on_fresh f = result_of f new_evaluator

  -- What a function gives does not depend on what was called on the evaluator before.
  abbrev pub GivesOne : Function evaluation → Type 0
  GivesOne f = (d e : Evaluator) → (f d).1 ≡ (f e).1

  -- What the functions of the scripts give depends on their arguments alone.
  pub record IsStateless : Type 0 where
    pub request : (r : Rule) (q : RuleRequest) → GivesOne (λ e. selects_request e r q)
    pub request_header :
        (r : Rule) (name : Text) (v : Option Text)
        → GivesOne (λ e. selects_request_header e r name v)
    pub status : (r : Rule) (status : ℤ) → GivesOne (λ e. selects_status e r status)
    pub response_header :
        (r : Rule) (name : Text) (v : Option Text)
        → GivesOne (λ e. selects_response_header e r name v)

  abbrev pub both : Result Text Bool → Result Text Bool → Result Text Bool
  both (ok true) next = next
  both (ok false) next = ok false
  both (failed e) next = failed e

  abbrev pub by_header :
      (Evaluator → Text → Option Text → Evaluator × Result Text Bool)
      → Header
      → HeaderSelector
      → Result Text Bool
  by_header evaluate header (header_value name value) =
      ok (value_selects value (joined_header header name))
  by_header evaluate header (header_script name) =
      on_fresh (λ e. evaluate e name (joined_header header name))

  abbrev pub by_headers :
      (Evaluator → Text → Option Text → Evaluator × Result Text Bool)
      → Header
      → List HeaderSelector
      → Result Text Bool
  by_headers evaluate header [] = ok true
  by_headers evaluate header (h ∷ hs) =
      both (by_header evaluate header h) (by_headers evaluate header hs)

  abbrev pub by_status : Rule → ℤ → StatusSelector → Result Text Bool
  by_status r status status_any = ok true
  by_status r status (status_codes codes) = ok (contains status codes)
  by_status r status status_script = on_fresh (λ e. selects_status e r status)

  abbrev pub by_request : Rule → RuleRequest → RequestSelector → Result Text Bool
  by_request r request (request_pattern pattern) = ok true
  by_request r request request_script = on_fresh (λ e. selects_request e r request)

  -- Whether a rule selects a response, each function being called on the evaluator as it was created.
  abbrev pub rule_selects : Rule → RuleRequest → RuleResponse → Result Text Bool
  rule_selects r request response = both (by_request r request r.request) (
      both (by_headers (λ e. selects_request_header e r) request.header r.request_headers) (
        both (by_status r response.status r.status)
          (by_headers (λ e. selects_response_header e r) response.header r.response_headers)))

  abbrev pub first_or :
      Rule → Result Text Bool → Result Text (Option Rule) → Result Text (Option Rule)
  first_or r (ok true) rest = ok (some r)
  first_or r (ok false) rest = rest
  first_or r (failed e) rest = failed e

  -- The first rule of a list that selects a response.
  abbrev pub first_rule : List Rule → RuleRequest → RuleResponse → Result Text (Option Rule)
  first_rule [] request response = ok none
  first_rule (r ∷ rules) request response =
      first_or r (rule_selects r request response) (first_rule rules request response)

  -- The evaluator was created once, or not at all.
  abbrev pub IsFresh : Option Evaluator → ℕ → Type 0
  IsFresh none n = n ≡ 0
  IsFresh (some e) n = (d : Evaluator) × (new_evaluator ≡ ok d) × (n ≡ 1)

  abbrev pub Gives {ℓ} : {A : Type ℓ} → Ran evaluation A → Result Text A → Type ℓ
  Gives ran r = (ran.result ≡ r) × IsFresh ran.evaluator ran.created

  call-Gives :
      (f : Function evaluation) (evaluator : Option Evaluator) (n : ℕ)
      → GivesOne f
      → IsFresh evaluator n
      → Gives (call evaluation f evaluator n) (on_fresh f)
  call-Gives f (some e) n one (d, created, once) =
      (one e d ∙ ap (result_of f) (sym created), (d, created, once))
  call-Gives f none n one h = create new_evaluator refl
    where
      create :
          (tried : Result Text Evaluator)
          → new_evaluator ≡ tried
          → Gives
              (run_on evaluation f
                (keep_evaluator evaluation n tried)
                (keep_evaluator evaluation n tried).result)
              (result_of f tried)
      create (ok e) same = (refl, (e, same, omega (arith, h)))
      create (failed e) same = (refl, h)

  and_also-Gives :
      (first next : Scripted evaluation Bool) (r s : Result Text Bool)
      → ((evaluator : Option Evaluator) (n : ℕ) → IsFresh evaluator n → Gives (first evaluator n) r)
      → ((evaluator : Option Evaluator) (n : ℕ) → IsFresh evaluator n → Gives (next evaluator n) s)
      → (evaluator : Option Evaluator) (n : ℕ) → IsFresh evaluator n
      → Gives (and_also evaluation first next evaluator n) (both r s)
  and_also-Gives first next r s gives_first gives_next evaluator n h =
      let ran = first evaluator n in
      let (same, fresh) = gives_first evaluator n h in
      subst
        (λ (t : Result Text Bool).
          Gives (go_on evaluation next ran.evaluator ran.created ran.result) (both t s))
        same (go ran.evaluator ran.created ran.result fresh)
    where
      go :
          (evaluator : Option Evaluator) (n : ℕ) (result : Result Text Bool)
          → IsFresh evaluator n
          → Gives (go_on evaluation next evaluator n result) (both result s)
      go evaluator n (ok true) fresh = gives_next evaluator n fresh
      go evaluator n (ok false) fresh = (refl, fresh)
      go evaluator n (failed e) fresh = (refl, fresh)

  header-Gives :
      (evaluate : Evaluator → Text → Option Text → Evaluator × Result Text Bool) (header : Header)
      (h : HeaderSelector) (evaluator : Option Evaluator) (n : ℕ)
      → ((name : Text) (v : Option Text) → GivesOne (λ e. evaluate e name v))
      → IsFresh evaluator n
      → Gives
          (header_selects evaluation evaluate header h evaluator n)
          (by_header evaluate header h)
  unfolding header_selects
  header-Gives evaluate header (header_value name value) evaluator n one fresh = (refl, fresh)
  header-Gives evaluate header (header_script name) evaluator n one fresh =
      call-Gives _ evaluator n (one name (joined_header header name)) fresh

  headers-Gives :
      (evaluate : Evaluator → Text → Option Text → Evaluator × Result Text Bool) (header : Header)
      (hs : List HeaderSelector)
      → ((name : Text) (v : Option Text) → GivesOne (λ e. evaluate e name v))
      → (evaluator : Option Evaluator) (n : ℕ) → IsFresh evaluator n
      → Gives
          (selects_headers evaluation evaluate header hs evaluator n)
          (by_headers evaluate header hs)
  unfolding selects_headers
  headers-Gives evaluate header [] one = λ evaluator n fresh. (refl, fresh)
  headers-Gives evaluate header (h ∷ hs) one =
      and_also-Gives (header_selects evaluation evaluate header h)
        (selects_headers evaluation evaluate header hs) _ _
        (λ evaluator n fresh. header-Gives evaluate header h evaluator n one fresh)
        (headers-Gives evaluate header hs one)

  decided-Gives :
      (r : Rule) (next : Scripted evaluation (Option Rule)) (rest : Result Text (Option Rule))
      (evaluator : Option Evaluator) (n : ℕ) (result : Result Text Bool)
      → ((evaluator : Option Evaluator) (n : ℕ)
          → IsFresh evaluator n
          → Gives (next evaluator n) rest)
      → IsFresh evaluator n
      → Gives (decided evaluation r next evaluator n result) (first_or r result rest)
  decided-Gives r next rest evaluator n (ok true) gives fresh = (refl, fresh)
  decided-Gives r next rest evaluator n (ok false) gives fresh = gives evaluator n fresh
  decided-Gives r next rest evaluator n (failed e) gives fresh = (refl, fresh)

  fresh-once : (evaluator : Option Evaluator) (n : ℕ) → IsFresh evaluator n → n ≤ 1
  fresh-once none n h = omega arith
  fresh-once (some e) n h = omega arith

  module _ (stateless : IsStateless) where
    status-Gives :
        (r : Rule) (status : ℤ) (selector : StatusSelector) (evaluator : Option Evaluator) (n : ℕ)
        → IsFresh evaluator n
        → Gives
            (status_selects evaluation r status selector evaluator n)
            (by_status r status selector)
    status-Gives r status status_any evaluator n fresh = (refl, fresh)
    status-Gives r status (status_codes codes) evaluator n fresh = (refl, fresh)
    status-Gives r status status_script evaluator n fresh =
        call-Gives _ evaluator n (stateless.status r status) fresh

    request-Gives :
        (r : Rule) (request : RuleRequest) (selector : RequestSelector)
        (evaluator : Option Evaluator) (n : ℕ)
        → IsFresh evaluator n
        → Gives
            (request_selects evaluation r request selector evaluator n)
            (by_request r request selector)
    request-Gives r request (request_pattern pattern) evaluator n fresh = (refl, fresh)
    request-Gives r request request_script evaluator n fresh =
        call-Gives _ evaluator n (stateless.request r request) fresh

    selects-Gives :
        (r : Rule) (request : RuleRequest) (response : RuleResponse) (evaluator : Option Evaluator)
        (n : ℕ)
        → IsFresh evaluator n
        → Gives
            (selects evaluation r request response evaluator n)
            (rule_selects r request response)
    unfolding selects selects_by_status
    selects-Gives r request response = and_also-Gives _ _ _ _ (request-Gives r request r.request) (
        and_also-Gives _ _ _ _
          (headers-Gives (λ e. selects_request_header e r) request.header r.request_headers
            (stateless.request_header r))
          (and_also-Gives _ _ _ _ (status-Gives r response.status r.status) (
            headers-Gives (λ e. selects_response_header e r) response.header r.response_headers
              (stateless.response_header r))))

    select_from-Gives :
        (rules : List Rule) (request : RuleRequest) (response : RuleResponse)
        (evaluator : Option Evaluator) (n : ℕ)
        → IsFresh evaluator n
        → Gives
            (select_from evaluation rules request response evaluator n)
            (first_rule rules request response)
    unfolding select_from
    select_from-Gives [] request response evaluator n fresh = (refl, fresh)
    select_from-Gives (r ∷ rules) request response evaluator n h =
        let ran = selects evaluation r request response evaluator n in
        let next = select_from evaluation rules request response in
        let rest = first_rule rules request response in
        let (same, fresh) = selects-Gives r request response evaluator n h in
        subst
          (λ (t : Result Text Bool).
            Gives (decided evaluation r next ran.evaluator ran.created ran.result)
              (first_or r t rest))
          same
          (decided-Gives r next rest ran.evaluator ran.created ran.result
            (select_from-Gives rules request response) fresh)

    -- Where what the functions of the scripts give depends on their arguments alone, whatever they leave in
    -- the evaluator that they share: the rule that is selected is the first that selects the response when
    -- each function is called on the evaluator as it was created, errors included, and at most one evaluator
    -- is created.
    pub select_rule_lem :
        (rules : List Rule) (request : RuleRequest) (response : RuleResponse)
        → ((select_rule evaluation rules request response).result
            ≡ first_rule rules request response)
          × ((select_rule evaluation rules request response).created ≤ 1)
    unfolding select_rule
    select_rule_lem rules request response =
        let ran = select_from evaluation rules request response none 0 in
        let (same, fresh) = select_from-Gives rules request response none 0 refl in
        (same, fresh-once ran.evaluator ran.created fresh)
