-- ===== src/Comparison/Rules/Selection.antt =====
-- internal/comparison/scripts.go, `SelectRule`: the first rule that selects a response. The evaluator of
-- script functions is a parameter; it is created when the first function needs it.
use spectre.Prelude.{
  ℕ, ◌+◌, Bool, true, false, Option, none, some, List, [], ◌∷◌, Text, text_eq, contains, Result, ok,
  failed,
}
use spectre.Prelude.Ints.{ℤ, int_eq}
use spectre.Comparison.Rules.{
  Rule, RuleRequest, RuleResponse, Header, RequestSelector, request_pattern, request_script,
  StatusSelector, status_any, status_codes, status_script, HeaderSelector, header_value,
  header_script, joined_header, value_selects,
}

-- `javascript.Evaluator`, with the state of its runtime: a function that is called on it leaves another
-- state behind. Its creation and its functions may fail.
pub record Evaluation : Type 1 where
  pub Evaluator : Type 0
  pub new_evaluator : Result Text Evaluator
  pub selects_request : Evaluator → Rule → RuleRequest → Evaluator × Result Text Bool
  pub selects_request_header : Evaluator → Rule → Text → Option Text → Evaluator × Result Text Bool
  pub selects_status : Evaluator → Rule → ℤ → Evaluator × Result Text Bool
  pub selects_response_header : Evaluator → Rule → Text → Option Text → Evaluator × Result Text Bool

module _ (evaluation : Evaluation) where
  open evaluation use {
    Evaluator, new_evaluator, selects_request, selects_request_header, selects_status,
    selects_response_header,
  }

  -- The evaluator, if one was created, how often one was, and the outcome.
  pub record Ran {ℓ} (A : Type ℓ) : Type ℓ where
    pub evaluator : Option Evaluator
    pub created : ℕ
    pub result : Result Text A

  -- A computation that may need the evaluator.
  abbrev pub Scripted {ℓ} : Type ℓ → Type ℓ
  Scripted A = Option Evaluator → ℕ → Ran A

  abbrev pub pure {ℓ} : {A : Type ℓ} → A → Scripted A
  pure a evaluator n = record { evaluator = evaluator; created = n; result = ok a }

  abbrev pub keep_evaluator : ℕ → Result Text Evaluator → Ran Evaluator
  keep_evaluator n (failed e) = record { evaluator = none; created = n; result = failed e }
  keep_evaluator n (ok created) = record {
    evaluator = some created;
    created = n + 1;
    result = ok created;
  }

  -- The closure `script` of `SelectRule`.
  abbrev pub script : Scripted Evaluator
  script (some created) n = record { evaluator = some created; created = n; result = ok created }
  script none n = keep_evaluator n new_evaluator

  -- A function of a script, on the evaluator as the last one left it.
  abbrev pub Function : Type 0
  Function = Evaluator → Evaluator × Result Text Bool

  abbrev pub run_on : Function → Ran Evaluator → Result Text Evaluator → Ran Bool
  run_on f ran (ok e) =
      let (left, result) = f e in
      record { evaluator = some left; created = ran.created; result = result }
  run_on f ran (failed e) = record {
    evaluator = ran.evaluator;
    created = ran.created;
    result = failed e;
  }

  -- `evaluator, err := script()`, and a call of a function on it.
  abbrev pub call : Function → Scripted Bool
  call f evaluator n = let ran = script evaluator n in run_on f ran ran.result

  abbrev pub go_on : Scripted Bool → Option Evaluator → ℕ → Result Text Bool → Ran Bool
  go_on next evaluator n (ok true) = next evaluator n
  go_on next evaluator n (ok false) = record {
    evaluator = evaluator;
    created = n;
    result = ok false;
  }
  go_on next evaluator n (failed e) = record {
    evaluator = evaluator;
    created = n;
    result = failed e;
  }

  -- `if selected, err := …; err != nil || !selected { return false, err }`.
  abbrev pub and_also : Scripted Bool → Scripted Bool → Scripted Bool
  and_also first next evaluator n =
      let ran = first evaluator n in go_on next ran.evaluator ran.created ran.result

  abbrev pub status_selects : Rule → ℤ → StatusSelector → Scripted Bool
  status_selects r status status_any = pure true
  status_selects r status (status_codes codes) = pure (contains status codes)
  status_selects r status status_script = call (λ e. selects_status e r status)

  -- `selectsStatus`.
  unfoldable pub selects_by_status : Rule → ℤ → Scripted Bool
  selects_by_status r status = status_selects r status r.status

  unfoldable pub header_selects :
      (Evaluator → Text → Option Text → Evaluator × Result Text Bool)
      → Header
      → HeaderSelector
      → Scripted Bool
  unfolding joined_header
  header_selects evaluate header (header_value name value) =
      pure (value_selects value (joined_header header name))
  header_selects evaluate header (header_script name) =
      call (λ e. evaluate e name (joined_header header name))

  -- `selectsHeaders`.
  unfoldable pub selects_headers :
      (Evaluator → Text → Option Text → Evaluator × Result Text Bool)
      → Header
      → List HeaderSelector
      → Scripted Bool
  unfolding header_selects
  selects_headers evaluate header [] = pure true
  selects_headers evaluate header (h ∷ hs) =
      and_also (header_selects evaluate header h) (selects_headers evaluate header hs)

  abbrev pub request_selects : Rule → RuleRequest → RequestSelector → Scripted Bool
  request_selects r request (request_pattern pattern) = pure true
  request_selects r request request_script = call (λ e. selects_request e r request)

  -- `selects`.
  unfoldable pub selects : Rule → RuleRequest → RuleResponse → Scripted Bool
  unfolding selects_headers selects_by_status
  selects r request response = and_also (request_selects r request r.request) (
      and_also (selects_headers (λ e. selects_request_header e r) request.header r.request_headers)
        (and_also (selects_by_status r response.status)
          (selects_headers (λ e. selects_response_header e r) response.header r.response_headers)))

  abbrev pub decided :
      Rule → Scripted (Option Rule) → Option Evaluator → ℕ → Result Text Bool → Ran (Option Rule)
  decided r next evaluator n (ok true) = record {
    evaluator = evaluator;
    created = n;
    result = ok (some r);
  }
  decided r next evaluator n (ok false) = next evaluator n
  decided r next evaluator n (failed e) = record {
    evaluator = evaluator;
    created = n;
    result = failed e;
  }

  -- The loop of `SelectRule`.
  unfoldable pub select_from : List Rule → RuleRequest → RuleResponse → Scripted (Option Rule)
  unfolding selects
  select_from [] request response evaluator n = pure none evaluator n
  select_from (r ∷ rules) request response evaluator n =
      let ran = selects r request response evaluator n in
      decided r (select_from rules request response) ran.evaluator ran.created ran.result

  -- `SelectRule`.
  unfoldable pub select_rule : List Rule → RuleRequest → RuleResponse → Ran (Option Rule)
  unfolding select_from
  select_rule rules request response = select_from rules request response none 0
