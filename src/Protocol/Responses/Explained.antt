-- ===== src/Protocol/Responses/Explained.antt =====
-- internal/protocol/ingress.go, `compareResponses`: which pairs of responses diverge.
use spectre.Prelude.{
  ◌≤◌, ◌≡◌, ◌↔◌, refl, Bool, true, false, Option, none, some, List, [], ◌∷◌, Text, text, text_eq,
  option_beq, if◌then◌else◌, Result, ok, failed, arith, length,
}
use spectre.Model.{Difference, changed}
use spectre.Protocol.Responses.{
  Message, Content, Response, outcome_divergent, outcome_unable, ComparisonResult, IngressOutcome,
  Scripts, normalise_response, compared, compare_messages, compare_normalised, root_difference,
  new_comparison_result, compare_contents, compare_finished, compare_responses,
}

module _ (scripts : Scripts) where
  open scripts use {compare_values}

  -- A divergence says in what.
  abbrev pub IsExplained : ComparisonResult → Type 0
  IsExplained r = (r.outcome ≡ outcome_divergent) ↔ (1 ≤ length r.differences)

  messages-IsExplained : (r c : Option Message) → IsExplained (compare_messages scripts r c)
  unfolding compare_messages
  messages-IsExplained none none = (λ h. cc, λ h. absurd (omega arith))
  messages-IsExplained (some r) none = (λ h. omega arith, λ h. refl)
  messages-IsExplained none (some c) = (λ h. omega arith, λ h. refl)
  messages-IsExplained (some r) (some c) =
      go (option_beq r.type c.type) (compare_values r.type r.value c.value)
    where
      go :
          (b : Bool) (t : Result Text (List Difference × Bool))
          → IsExplained (
              if b
              then compared scripts t
              else new_comparison_result outcome_unable
                  (text "reference and candidate messages have different types"))
      go false t = (λ h. cc, λ h. absurd (omega arith))
      go true (failed e) = (λ h. cc, λ h. absurd (omega arith))
      go true (ok ([], t)) = (λ h. cc, λ h. absurd (omega arith))
      go true (ok (d ∷ ds, t)) = (λ h. omega arith, λ h. refl)

  normalised-IsExplained :
      (r c : Result Text Content) → IsExplained (compare_normalised scripts r c)
  normalised-IsExplained (failed e) c = (λ h. cc, λ h. absurd (omega arith))
  normalised-IsExplained (ok r) (failed e) = (λ h. cc, λ h. absurd (omega arith))
  normalised-IsExplained (ok r) (ok c) =
      go (option_beq r.status c.status) (messages-IsExplained r.message c.message)
    where
      go :
          (b : Bool)
          → IsExplained (compare_messages scripts r.message c.message)
          → IsExplained (
              if b
              then compare_messages scripts r.message c.message
              else root_difference (text "$status") changed)
      go true h = h
      go false h = (λ h. omega arith, λ h. refl)

  contents-IsExplained : (r c : Content) → IsExplained (compare_contents scripts r c)
  unfolding compare_contents
  contents-IsExplained r c =
      let i =
        normalised-IsExplained (normalise_response scripts r) (normalise_response scripts c) in
      (λ h. ground (arith, h, i.0), λ h. ground (arith, h, i.1))

  -- A pair is divergent just when at least one difference is told.
  pub compare-IsExplained :
      (outcome : IngressOutcome) (candidate : Response)
      → IsExplained (compare_responses scripts outcome candidate)
  unfolding compare_responses compare_contents
  compare-IsExplained outcome candidate = go outcome.failure outcome.reference
    where
      go :
          (failure : Option Text) (reference : Option Response)
          → IsExplained (compare_finished scripts failure reference candidate)
      go (some e) reference = (λ h. cc, λ h. absurd (omega arith))
      go none none = (λ h. cc, λ h. absurd (omega arith))
      go none (some r) = contents-IsExplained r.decode candidate.decode
