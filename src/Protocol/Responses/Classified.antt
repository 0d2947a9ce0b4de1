-- ===== src/Protocol/Responses/Classified.antt =====
-- internal/protocol/ingress.go, `compareResponses`: which pairs of responses get which outcome.
use spectre.Prelude.{
  ◌≡◌, ◌↔◌, refl, Bool, true, false, Option, none, some, List, [], ◌∷◌, Text, text_eq, is_some,
  option_beq, option_beq_iff, Result, ok, failed, arith, Bool-cases, inl, inr,
}
use spectre.Model.{Difference}
use spectre.Protocol.Responses.{
  Message, Content, Response, outcome_equivalent, IngressOutcome, Scripts, normalise_response,
  compared, compare_messages, compare_normalised, compare_contents, compare_finished,
  compare_responses,
}

module _ (scripts : Scripts) where
  open scripts use {compare_values}

  -- Two payloads that the scripts compare without a difference, or none on either side.
  abbrev pub SameMessages : Option Message → Option Message → Type 0
  SameMessages none none = Unit
  SameMessages (some r) (some c) =
      (r.type ≡ c.type)
      × (truncated : Bool) × (compare_values r.type r.value c.value ≡ ok ([], truncated))
  SameMessages _ _ = true ≡ false

  -- Two contents that normalise to the same status and the same payload.
  abbrev pub SameContents : Result Text Content → Result Text Content → Type 0
  SameContents (ok r) (ok c) = (r.status ≡ c.status) × SameMessages r.message c.message
  SameContents _ _ = true ≡ false

  -- A content that can be compared.
  abbrev pub IsComparable : Content → Type 0
  IsComparable c = (c.failure ≡ none) × (c.ignored ≡ none) × (is_some c.status ≡ true)

  abbrev pub AreSame : Option Text → Option Response → Response → Type 0
  AreSame none (some r) c =
      IsComparable r.decode
      × IsComparable c.decode
      × SameContents (normalise_response scripts r.decode) (normalise_response scripts c.decode)
  AreSame _ _ c = true ≡ false

  messages-same :
      (r c : Option Message)
      → ((compare_messages scripts r c).outcome ≡ outcome_equivalent) ↔ SameMessages r c
  unfolding compare_messages
  messages-same none none = (λ h. tt, λ h. refl)
  messages-same (some r) none = (λ h. cc, λ h. cc)
  messages-same none (some c) = (λ h. cc, λ h. cc)
  messages-same (some r) (some c) = elim (Bool-cases (option_beq r.type c.type)) [
    | inl same ↦
        let types : r.type ≡ c.type = (option_beq_iff r.type c.type).0 same in
        let i = values (compare_values r.type r.value c.value) in
        (
          λ h. let (t, e) = i.0 (ground arith) in (types, t, e),
          λ (same_type, t, e). ground (arith, i.1 (t, e)),
        )
    | inr differ ↦ (
      λ h. absurd (ground arith),
      λ h. absurd (ground (arith, (option_beq_iff r.type c.type).1 h.0)),
    )
  ]
    where
      values :
          (t : Result Text (List Difference × Bool))
          → ((compared scripts t).outcome ≡ outcome_equivalent)
            ↔ ((truncated : Bool) × (t ≡ ok ([], truncated)))
      values (failed e) = (λ h. cc, λ (t, h). cc)
      values (ok ([], t)) = (λ h. (t, refl), λ h. refl)
      values (ok (d ∷ ds, t)) = (λ h. cc, λ (t, h). cc)

  normalised-same :
      (r c : Result Text Content)
      → ((compare_normalised scripts r c).outcome ≡ outcome_equivalent) ↔ SameContents r c
  normalised-same (failed e) c = (λ h. cc, λ h. cc)
  normalised-same (ok r) (failed e) = (λ h. cc, λ h. cc)
  normalised-same (ok r) (ok c) =
      let i = messages-same r.message c.message in
      elim (Bool-cases (option_beq r.status c.status)) [
        | inl same ↦ (
          λ h. ((option_beq_iff r.status c.status).0 same, i.0 (ground arith)),
          λ h. ground (arith, i.1 h.1),
        )
        | inr differ ↦ (
          λ h. absurd (ground arith),
          λ h. absurd (ground (arith, (option_beq_iff r.status c.status).1 h.0)),
        )
      ]

  -- Two contents are equivalent just when both can be compared, and the scripts normalise them to one
  -- status and to payloads without a difference.
  contents-same :
      (r c : Content)
      → ((compare_contents scripts r c).outcome ≡ outcome_equivalent) ↔ (
          IsComparable r
          × IsComparable c
          × SameContents (normalise_response scripts r) (normalise_response scripts c))
  unfolding compare_contents
  contents-same r c =
      let i = normalised-same (normalise_response scripts r) (normalise_response scripts c) in
      (λ h. ground (arith, h, i.0), λ h. ground (arith, h, i.1))

  -- A pair is equivalent just when the reference did not fail and gave a response, both responses can
  -- be compared, that is, are decoded, not ignored and of a known status, and the scripts normalise
  -- them to one status and to payloads without a difference.
  pub equivalent-AreSame :
      (outcome : IngressOutcome) (candidate : Response)
      → ((compare_responses scripts outcome candidate).outcome ≡ outcome_equivalent)
        ↔ AreSame outcome.failure outcome.reference candidate
  unfolding compare_responses compare_contents
  equivalent-AreSame outcome candidate = go outcome.failure outcome.reference
    where
      go :
          (failure : Option Text) (reference : Option Response)
          → ((compare_finished scripts failure reference candidate).outcome ≡ outcome_equivalent)
            ↔ AreSame failure reference candidate
      go (some e) reference = (λ h. cc, λ h. cc)
      go none none = (λ h. cc, λ h. cc)
      go none (some r) = contents-same r.decode candidate.decode
