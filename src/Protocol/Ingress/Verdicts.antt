-- ===== src/Protocol/Ingress/Verdicts.antt =====
-- internal/protocol/ingress.go: when a candidate's response quarantines the candidate.
use spectre.Prelude.{
  ℕ, ◌≡◌, refl, Bool, true, false, ◌&&◌, Option, none, some, Text, text_eq, arith, is_some, ◌⊎◌,
  inl, inr, if◌then◌else◌, ◌++◌, text,
}
use spectre.Future.{Woken, value_set, context_done}
use spectre.Model.{divergent, unable, QuarantineReason}
use spectre.Protocol.Responses.{
  Response, Outcome, outcome_equivalent, outcome_divergent, outcome_skipped, outcome_unable,
  ComparisonResult, IngressOutcome, Scripts, compare_responses,
}
use spectre.Protocol.Ingress.{IngressPair}
use spectre.Protocol.Ingress.Handlers.{
  unfinished, reported, unless_cancelled, await_reference, judged, compare_known_outcome,
  unless_ignored, candidate_verdict, quarantine_for, report, verdict_quarantine, is_unable,
}

module _ (scripts : Scripts) (pair : IngressPair) where
  -- The result that a quarantine is for.
  abbrev pub IsFor : ComparisonResult → Option Text → QuarantineReason → Type 0
  IsFor result over reason =
      ((result.outcome ≡ outcome_divergent)
        × (reason.kind ≡ divergent)
        × (reason.differences ≡ result.differences)
        × (reason.truncated ≡ result.truncated))
      ⊎ ((result.outcome ≡ outcome_unable) × (over ≡ none) × (reason.kind ≡ unable))

  reported-IsFor :
      (outcome : Outcome) (over : Option Text) (result : ComparisonResult)
      (reason : QuarantineReason)
      → result.outcome ≡ outcome
      → (is_unable outcome ≡ true → over ≡ none)
      → quarantine_for outcome pair result ≡ some reason
      → IsFor result over reason
  reported-IsFor outcome_equivalent over result reason is limit e = absurd (cc)
  reported-IsFor outcome_skipped over result reason is limit e = absurd (cc)
  reported-IsFor outcome_divergent over result reason is limit e = inl (is, cc, cc, cc)
  reported-IsFor outcome_unable over result reason is limit e = inr (is, limit refl, cc)

  judged-IsFor :
      (over : Option Text) (result : ComparisonResult) (latency : ℕ) (reason : QuarantineReason)
      → verdict_quarantine pair (judged scripts over result latency) ≡ some reason
      → IsFor result over reason
  unfolding verdict_quarantine report
  judged-IsFor none result latency reason e =
      reported-IsFor result.outcome none result reason refl (λ _. refl) e
  judged-IsFor (some o) result latency reason e = go (is_unable result.outcome) refl e
    where
      go :
          (b : Bool)
          → is_unable result.outcome ≡ b
          → verdict_quarantine pair (
              if b then unfinished (o ++ (text ": " ++ result.reason)) else reported result latency)
            ≡ some reason
          → IsFor result (some o) reason
      go true is h = absurd (cc)
      go false is h = reported-IsFor result.outcome (some o) result reason refl (λ u. absurd (cc)) h

  -- A response quarantines the candidate only if its pair is compared, the reference outcome came and
  -- was no cancellation, and the comparison finds differences, which are the ones told, or is not
  -- possible for another reason than the candidate's own deadline.
  pub quarantine-IsFor :
      (woken : Woken IngressOutcome) (over : Option Text) (response : Response)
      (reason : QuarantineReason)
      → verdict_quarantine pair (candidate_verdict scripts pair woken over response) ≡ some reason
      → (pair.ignored_reason ≡ none)
        × (outcome : IngressOutcome) × (woken ≡ value_set outcome)
        × ((is_some outcome.failure && outcome.cancelled) ≡ false)
        × IsFor (compare_responses scripts outcome response) over reason
  unfolding candidate_verdict unless_ignored await_reference verdict_quarantine report
  quarantine-IsFor woken over response reason e = not_ignored pair.ignored_reason woken e
    where
      came :
          (outcome : IngressOutcome) (failure : Option Text) (cancelled : Bool)
          → outcome.failure ≡ failure
          → outcome.cancelled ≡ cancelled
          → verdict_quarantine pair
              (compare_known_outcome scripts (unless_cancelled failure outcome) over response)
            ≡ some reason
          → ((is_some outcome.failure && outcome.cancelled) ≡ false)
            × IsFor (compare_responses scripts outcome response) over reason
      came outcome none cancelled ef ec h = (
        ground arith,
        judged-IsFor over (compare_responses scripts outcome response) response.latency reason h,
      )
      came outcome (some f) true ef ec h = absurd (ground arith)
      came outcome (some f) false ef ec h = (
        ground arith,
        judged-IsFor over (compare_responses scripts outcome response) response.latency reason
            (ground arith),
      )

      not_ignored :
          (ignored : Option Text) (woken : Woken IngressOutcome)
          → verdict_quarantine pair (unless_ignored scripts ignored woken over response)
            ≡ some reason
          → (ignored ≡ none)
            × (outcome : IngressOutcome) × (woken ≡ value_set outcome)
            × ((is_some outcome.failure && outcome.cancelled) ≡ false)
            × IsFor (compare_responses scripts outcome response) over reason
      not_ignored (some r) woken h = absurd (cc)
      not_ignored none (context_done err) h = absurd (cc)
      not_ignored none (value_set outcome) h =
          let (kept, is) = came outcome outcome.failure outcome.cancelled refl refl h in
          (refl, outcome, refl, kept, is)
