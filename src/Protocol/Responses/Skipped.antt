-- ===== src/Protocol/Responses/Skipped.antt =====
-- internal/protocol/ingress.go, `compareResponses`: which pairs of responses are skipped.
use spectre.Prelude.{
  ◌≡◌, ◌≢◌, ◌↔◌, refl, Bool, true, false, Option, none, some, List, [], ◌∷◌, Text, text, text_eq,
  is_some, option_beq, if◌then◌else◌, Result, ok, failed, arith,
}
use spectre.Model.{Difference, changed}
use spectre.Protocol.Responses.{
  Message, Content, Response, Outcome, outcome_equivalent, outcome_divergent, outcome_skipped,
  outcome_unable, IngressOutcome, Scripts, normalise_response, compared, compare_messages,
  compare_normalised, root_difference, new_comparison_result, compare_contents, compare_finished,
  compare_responses,
}

module _ (scripts : Scripts) where
  open scripts use {compare_values}

  abbrev pub AreIgnored : Option Text → Option Response → Response → Type 0
  AreIgnored none (some r) c = (is_some r.decode.ignored ≡ true) × (is_some c.decode.ignored ≡ true)
  AreIgnored _ _ c = true ≡ false

  is_skipped : Outcome → Bool
  is_skipped outcome_skipped = true
  is_skipped _ = false

  messages-skipped :
      (r c : Option Message) → is_skipped (compare_messages scripts r c).outcome ≡ false
  unfolding compare_messages is_skipped
  messages-skipped none none = refl
  messages-skipped (some r) none = refl
  messages-skipped none (some c) = refl
  messages-skipped (some r) (some c) =
      go (option_beq r.type c.type) (compare_values r.type r.value c.value)
    where
      go :
          (b : Bool) (t : Result Text (List Difference × Bool))
          → is_skipped
              (if b
                then compared scripts t
                else new_comparison_result outcome_unable
                    (text "reference and candidate messages have different types")).outcome
            ≡ false
      go false t = refl
      go true (failed e) = refl
      go true (ok ([], t)) = refl
      go true (ok (d ∷ ds, t)) = refl

  normalised-skipped :
      (r c : Result Text Content) → is_skipped (compare_normalised scripts r c).outcome ≡ false
  unfolding is_skipped
  normalised-skipped (failed e) c = refl
  normalised-skipped (ok r) (failed e) = refl
  normalised-skipped (ok r) (ok c) =
      go (option_beq r.status c.status) (messages-skipped r.message c.message)
    where
      go :
          (b : Bool)
          → is_skipped (compare_messages scripts r.message c.message).outcome ≡ false
          → is_skipped
              (if b
                then compare_messages scripts r.message c.message
                else root_difference (text "$status") changed).outcome
            ≡ false
      go true h = h
      go false h = refl

  skipped_lem : (o : Outcome) → is_skipped o ≡ false → o ≢ outcome_skipped
  unfolding is_skipped
  skipped_lem outcome_skipped h e = cc
  skipped_lem outcome_equivalent h e = cc
  skipped_lem outcome_divergent h e = cc
  skipped_lem outcome_unable h e = cc

  contents-skipped :
      (r c : Content)
      → ((compare_contents scripts r c).outcome ≡ outcome_skipped)
        ↔ ((is_some r.ignored ≡ true) × (is_some c.ignored ≡ true))
  unfolding compare_contents
  contents-skipped r c =
      let never =
        skipped_lem _
          (normalised-skipped (normalise_response scripts r) (normalise_response scripts c)) in
      (λ h. ground (arith, h, never), λ h. ground (arith, h))

  -- A pair is skipped just when the reference did not fail and both responses are ignored.
  pub skipped-AreIgnored :
      (outcome : IngressOutcome) (candidate : Response)
      → ((compare_responses scripts outcome candidate).outcome ≡ outcome_skipped)
        ↔ AreIgnored outcome.failure outcome.reference candidate
  unfolding compare_responses compare_contents
  skipped-AreIgnored outcome candidate = go outcome.failure outcome.reference
    where
      go :
          (failure : Option Text) (reference : Option Response)
          → ((compare_finished scripts failure reference candidate).outcome ≡ outcome_skipped)
            ↔ AreIgnored failure reference candidate
      go (some e) reference = (λ h. cc, λ h. cc)
      go none none = (λ h. cc, λ h. cc)
      go none (some r) = contents-skipped r.decode candidate.decode
