-- ===== src/Route/Selected.antt =====
-- internal/httpserver/route/matcher.go: the rules that `Responses` leaves decide as all declared ones do.
use spectre.Prelude.{
  ◌≡◌, refl, sym, ◌∙◌, Bool, true, false, ◌&&◌, Option, none, some, List, [], ◌∷◌, ◌++◌, Text, text,
  text_eq, arith, length, length-append, nat_beq, if◌then◌else◌, Result, ok, All, Bool-cases, inl,
  inr,
}
use spectre.Comparison.Rules.{
  Rule, RuleRequest, RuleResponse, Action, action_ignore, action_match, selects_request_headers,
}
use spectre.Comparison.Rules.Selection.{Evaluation, select_rule}
use spectre.Comparison.Rules.First.{
  IsStateless, rule_selects, first_or, first_rule, select_rule_lem,
}
use spectre.Route.{
  Mux, DeclaredRule, Matcher, pattern_fits, skips, is_last, ignores, ended, responses_from,
  responses,
}
use spectre.Route.Declared.{IsDeclared, AreDeclared}
use spectre.Route.Refused.{refused-rule, applicable, first_ok, last_selects}

module _ (mux : Mux) (evaluation : Evaluation) where
  module _ (request : RuleRequest) (response : RuleResponse) where
    first : List Rule → Result Text (Option Rule)
    first rules = first_rule evaluation rules request response

    first-after : (xs ys : List Rule) → first xs ≡ ok none → first (xs ++ ys) ≡ first ys
    unfolding first
    first-after [] ys h = refl
    first-after (r ∷ xs) ys h =
        elim (first_ok mux evaluation r (rule_selects evaluation r request response) (first xs) none
          h) [
            | inl (selected, is) ↦ absurd (cc)
            | inr (not_selected, rest) ↦ ground (arith, first-after xs ys rest)
          ]

    first-before :
        (xs ys : List Rule) (r : Rule) → first xs ≡ ok (some r) → first (xs ++ ys) ≡ ok (some r)
    unfolding first
    first-before [] ys r h = cc
    first-before (s ∷ xs) ys r h =
        elim (first_ok mux evaluation s (rule_selects evaluation s request response) (first xs)
          (some r) h) [
            | inl (selected, is) ↦ ground (arith)
            | inr (not_selected, rest) ↦ ground (arith, first-before xs ys r rest)
          ]

    -- What `Responses` leaves decides for the rule, if any, that the response is compared by: the
    -- first of the rules, or one that ignores it.
    abbrev pub Decides : List Rule × Option Text → Option Rule → Type 0
    Decides (rules, none) x = first_rule evaluation rules request response ≡ ok x
    Decides (rules, some reason) x = (r : Rule) × (x ≡ some r) × (r.action ≡ action_ignore)

    module _ (rule_text : Rule → Text) (method path : Text) where
      left_by : List (DeclaredRule mux) → List Rule → List Rule × Option Text
      left_by ds rules = responses_from mux rule_text ds rules method path request.header

      pick_skipped :
          (skipped taken last : List Rule × Option Text) (skip final : Bool) (x : Option Rule)
          → skip ≡ true
          → Decides skipped x
          → Decides (if skip then skipped else if final then last else taken) x
      pick_skipped skipped taken last true final x e h = h
      pick_skipped skipped taken last false final x e h = cc

      pick_chosen :
          (skipped taken last : List Rule × Option Text) (skip final : Bool) (x : Option Rule)
          → skip ≡ false
          → Decides last x
          → Decides taken x
          → Decides (if skip then skipped else if final then last else taken) x
      pick_chosen skipped taken last true final x e hl ht = cc
      pick_chosen skipped taken last false true x e hl ht = hl
      pick_chosen skipped taken last false false x e hl ht = ht

      pick_taken :
          (skipped taken last : List Rule × Option Text) (skip final : Bool) (x : Option Rule)
          → skip ≡ false
          → final ≡ false
          → Decides taken x
          → Decides (if skip then skipped else if final then last else taken) x
      pick_taken skipped taken last true final x e f h = cc
      pick_taken skipped taken last false true x e f h = cc
      pick_taken skipped taken last false false x e f h = h

      ended-selected :
          (r s : Rule) (rules : List Rule)
          → first rules ≡ ok (some s)
          → Decides (ended mux rule_text r (rules ++ r ∷ [])) (some s)
      unfolding first
      ended-selected r s [] h = absurd (cc)
      ended-selected r s (q ∷ rules) h =
          more (ignores r.action && nat_beq (length (q ∷ (rules ++ r ∷ []))) 1)
            (ground (arith, length-append rules (r ∷ []))) (first-before (q ∷ rules) (r ∷ []) s h)
        where
          more :
              (b : Bool)
              → b ≡ false
              → first ((q ∷ rules) ++ r ∷ []) ≡ ok (some s)
              → Decides
                  (if b
                    then ([], some (text "rule " ++ (rule_text r ++ text " ignores the request")))
                    else (q ∷ (rules ++ r ∷ []), none))
                  (some s)
          more true e h = absurd (cc)
          more false e h = h

      -- Once a rule is left that selects the response, it decides.
      after_selected :
          (ds : List (DeclaredRule mux)) (s : Rule) (rules : List Rule)
          → first rules ≡ ok (some s)
          → Decides (left_by ds rules) (some s)
      unfolding left_by responses_from first
      after_selected [] s rules h = h
      after_selected (d ∷ ds) s rules h =
          pick _ _ _ (skips mux d method path request.header) (is_last mux d)
            (after_selected ds s rules h)
            (after_selected ds s (rules ++ d.rule ∷ []) (first-before rules (d.rule ∷ []) s h))
            (ended-selected d.rule s rules h)
        where
          pick :
              (skipped taken last : List Rule × Option Text) (skip final : Bool)
              → Decides skipped (some s)
              → Decides taken (some s)
              → Decides last (some s)
              → Decides (if skip then skipped else if final then last else taken) (some s)
          pick _ _ _ true final hs ht hl = hs
          pick _ _ _ false true hs ht hl = hl
          pick _ _ _ false false hs ht hl = ht

      ended-first :
          (r : Rule) (rules : List Rule)
          → first rules ≡ ok none
          → rule_selects evaluation r request response ≡ ok true
          → Decides (ended mux rule_text r (rules ++ r ∷ [])) (some r)
      unfolding first
      ended-first r rules h selected =
          go r.action (nat_beq (length (rules ++ r ∷ [])) 1) refl
            (first-after rules (r ∷ []) h ∙ ground (arith, selected))
        where
          go :
              (a : Action) (one : Bool)
              → r.action ≡ a
              → first (rules ++ r ∷ []) ≡ ok (some r)
              → Decides
                  (if ignores a && one
                    then ([], some (text "rule " ++ (rule_text r ++ text " ignores the request")))
                    else (rules ++ r ∷ [], none))
                  (some r)
          go action_ignore true is h = (r, refl, is)
          go action_ignore false is h = h
          go (action_match type normalises) one is h = h

      Decides-from :
          (ds : List (DeclaredRule mux)) (rules : List Rule) (x : Option Rule)
          → All (IsDeclared mux) ds
          → first rules ≡ ok none
          → first (applicable mux evaluation method path ds) ≡ ok x
          → Decides (left_by ds rules) x
      unfolding left_by responses_from first
      Decides-from [] rules x declared none_yet h = none_yet ∙ h
      Decides-from (d ∷ ds) rules x (is_declared, declared) none_yet h =
          elim (Bool-cases (pattern_fits mux d.pattern method path)) [
            | inr unfit ↦
                pick_skipped _ _ _ skip final _ (ground (arith, unfit))
                  (Decides-from ds rules x declared none_yet (ground (arith, unfit, h)))
            | inl fits ↦
                let here : first_or evaluation d.rule selected
                      (first (applicable mux evaluation method path ds))
                    ≡ ok x =
                  ground (arith, fits, h) in
                elim (Bool-cases (selects_request_headers d.rule request.header)) [
                  | inr refused ↦
                      elim (first_ok mux evaluation d.rule selected
                        (first (applicable mux evaluation method path ds)) x here) [
                          | inl (chosen, is) ↦
                              (let apart : true ≡ false =
                                  refused-rule mux evaluation d.rule request response refused
                                    chosen in
                                cc)
                          | inr (not_chosen, rest) ↦
                              pick_skipped _ _ _ skip final _ (ground (arith, refused))
                                (Decides-from ds rules x declared none_yet rest)
                        ]
                  | inl wanted ↦
                      elim (first_ok mux evaluation d.rule selected
                        (first (applicable mux evaluation method path ds)) x here) [
                          | inl (chosen, is) ↦ rw is (
                              pick_chosen _ _ _ skip final _ (ground (arith, fits, wanted))
                                (ended-first d.rule rules none_yet chosen)
                                (after_selected ds d.rule (rules ++ d.rule ∷ []) (
                                  first-after rules (d.rule ∷ []) none_yet
                                  ∙ ground (arith, chosen))))
                          | inr (not_chosen, rest) ↦
                              pick_taken _ _ _ skip final _ (ground (arith, fits, wanted))
                                (not_last wanted not_chosen)
                                (Decides-from ds (rules ++ d.rule ∷ []) x declared
                                  (first-after rules (d.rule ∷ []) none_yet
                                    ∙ ground (arith, not_chosen))
                                  rest)
                        ]
                ]
          ]
        where
          skip : Bool
          skip = skips mux d method path request.header

          final : Bool
          final = is_last mux d

          selected : Result Text Bool
          selected = rule_selects evaluation d.rule request response

          not_last :
              selects_request_headers d.rule request.header ≡ true
              → rule_selects evaluation d.rule request response ≡ ok false
              → is_last mux d ≡ false
          not_last wanted not_chosen = elim (Bool-cases (is_last mux d)) [
            | inl last ↦
                let every = last_selects mux evaluation d request response is_declared last in
                absurd (ground (arith, every, not_chosen, wanted))
            | inr more ↦ more
          ]

  -- For a request whose rules no script function fails on, where what the functions give depends on their
  -- arguments alone, the rules that `Responses` leaves select the
  -- rule that all declared rules select among those whose pattern matches; and if it says that the
  -- request is ignored, that rule ignores its responses.
  pub responses-Decides :
      (rule_text : Rule → Text) (m : Matcher mux) (method path : Text) (request : RuleRequest)
      (response : RuleResponse) (x : Option Rule)
      → AreDeclared mux m
      → IsStateless evaluation
      → (select_rule evaluation
          (applicable mux evaluation method path m.rules)
          request
          response).result
        ≡ ok x
      → Decides request response (responses mux rule_text m method path request.header) x
  unfolding responses left_by first
  responses-Decides rule_text m method path request response x declared stateless h =
      Decides-from request response rule_text method path m.rules [] x declared refl (
        sym
          (select_rule_lem evaluation stateless (applicable mux evaluation method path m.rules)
            request response).0
        ∙ h)
