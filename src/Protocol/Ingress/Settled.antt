-- ===== src/Protocol/Ingress/Settled.antt =====
-- internal/protocol/ingress.go, `ingressPair`: when the reference response of a pair is released.
use spectre.Prelude.{
  ◌+◌, ◌≡◌, refl, Bool, true, false, not, ◌&&◌, ◌||◌, Option, none, some, text_eq, ◌==◌, is_some,
  arith, ltb, if◌then◌else◌,
}
use spectre.Protocol.Responses.{Response, IngressOutcome}
use spectre.Protocol.Ingress.{
  RequestId, IngressPair, release_response, release_outcome, release_reference, is_finished,
  with_outcome, finish_reference_of, finish_first, finish_candidate_of,
}

abbrev pub has_response : Option IngressOutcome → Bool
has_response none = false
has_response (some outcome) = is_some outcome.reference

-- A response is released just when there is one and neither side needs it.
abbrev pub IsSettled : IngressPair → Type 0
IsSettled c = ltb 0 c.releases ≡ (has_response c.outcome && is_finished c)

-- A pair that a candidate request may still join, or whose candidate is not finished.
abbrev pub is_open : RequestId → IngressPair → Bool
is_open id c = c.request_id == id && (not c.candidate_done && (c.joined || not (is_some c.outcome)))

-- What no operation but the candidate's changes.
abbrev pub SameButReleases : IngressPair → IngressPair → Type 0
SameButReleases c d =
    (d.request_id ≡ c.request_id)
    × (d.joined ≡ c.joined)
    × (d.candidate_done ≡ c.candidate_done)
    × (d.outcome ≡ c.outcome)
    × (d.releases ≡ c.releases + (if has_response c.outcome then 1 else 0))

release_lem : (c : IngressPair) → SameButReleases c (release_reference c)
unfolding release_reference
release_lem c = with_result c.outcome
  where
    with_response :
        (r : Option Response)
        → ((release_response c r).request_id ≡ c.request_id)
          × ((release_response c r).joined ≡ c.joined)
          × ((release_response c r).candidate_done ≡ c.candidate_done)
          × ((release_response c r).outcome ≡ c.outcome)
          × ((release_response c r).releases ≡ c.releases + (if is_some r then 1 else 0))
    with_response none = (refl, refl, refl, refl, omega arith)
    with_response (some r) = (refl, refl, refl, refl, refl)

    with_result :
        (o : Option IngressOutcome)
        → ((release_outcome c o).request_id ≡ c.request_id)
          × ((release_outcome c o).joined ≡ c.joined)
          × ((release_outcome c o).candidate_done ≡ c.candidate_done)
          × ((release_outcome c o).outcome ≡ c.outcome)
          × ((release_outcome c o).releases ≡ c.releases + (if has_response o then 1 else 0))
    with_result none = (refl, refl, refl, refl, omega arith)
    with_result (some o) = with_response o.reference

-- A pair whose outcome is published for the first time.
pub finish_reference-first :
    (c : IngressPair) (outcome : IngressOutcome)
    → c.outcome ≡ none
    → IsSettled c
    → ((finish_reference_of c outcome).finished ≡ is_finished c)
      × ((finish_reference_of c outcome).released ≡ none)
      × ((finish_reference_of c outcome).pair.request_id ≡ c.request_id)
      × ((finish_reference_of c outcome).pair.joined ≡ c.joined)
      × ((finish_reference_of c outcome).pair.candidate_done ≡ c.candidate_done)
      × ((finish_reference_of c outcome).pair.outcome ≡ some outcome)
      × IsSettled (finish_reference_of c outcome).pair
unfolding finish_reference_of finish_first with_outcome
finish_reference-first c outcome e h =
    ground (arith, release_lem (record c { outcome = some outcome }))

pub finish_candidate_lem :
    (c : IngressPair)
    → IsSettled c
    → ((finish_candidate_of c).request_id ≡ c.request_id)
      × ((finish_candidate_of c).joined ≡ c.joined)
      × ((finish_candidate_of c).candidate_done ≡ true)
      × ((finish_candidate_of c).outcome ≡ c.outcome)
      × IsSettled (finish_candidate_of c)
unfolding finish_candidate_of
finish_candidate_lem c h = ground (arith, release_lem (record c { candidate_done = true }))
