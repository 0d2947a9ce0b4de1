-- ===== src/Protocol/Egress/Released.antt =====
-- internal/protocol/egress.go: the methods of an exchange release its response when they should.
use spectre.Prelude.{
  ℕ, ◌+◌, ◌≡◌, refl, Bool, true, false, ◌&&◌, Option, none, some, nat_eq, text_eq, arith,
  if◌then◌else◌, ltb, is_some,
}
use spectre.Future.{set_future}
use spectre.Protocol.Exchanges.{
  EgressOutcome, EgressExchange, release, release_raw, release_outcome, abandon, finish,
}

abbrev pub has_raw : Option EgressOutcome → Bool
has_raw none = false
has_raw (some o) = is_some o.raw

-- The response of an exchange is released just when the exchange is abandoned and has one.
abbrev pub IsReleased : EgressExchange → Type 0
IsReleased e = ltb 0 e.releases ≡ (e.abandoned && has_raw e.outcome)

abbrev ReleasesOne : EgressExchange → EgressExchange → Type 0
ReleasesOne e f =
    (f.outcome ≡ e.outcome)
    × (f.abandoned ≡ e.abandoned)
    × (f.releases ≡ e.releases + (if has_raw e.outcome then 1 else 0))

pub release_lem : (e : EgressExchange) → ReleasesOne e (release e)
unfolding release
release_lem e = go e.outcome
  where
    with_raw :
        (r : Option ℕ)
        → ((release_raw e r).outcome ≡ e.outcome)
          × ((release_raw e r).abandoned ≡ e.abandoned)
          × ((release_raw e r).releases ≡ e.releases + (if is_some r then 1 else 0))
    with_raw none = (refl, refl, omega arith)
    with_raw (some r) = (refl, refl, refl)

    go :
        (o : Option EgressOutcome)
        → ((release_outcome e o).outcome ≡ e.outcome)
          × ((release_outcome e o).abandoned ≡ e.abandoned)
          × ((release_outcome e o).releases ≡ e.releases + (if has_raw o then 1 else 0))
    go none = (refl, refl, omega arith)
    go (some o) = with_raw o.raw

pub abandon-IsReleased : (e : EgressExchange) → IsReleased e → IsReleased (abandon e)
unfolding abandon
abandon-IsReleased e h = ground (arith, h, release_lem (record e { abandoned = true }))

pub finish-IsReleased :
    (outcome : EgressOutcome) (e : EgressExchange) → IsReleased e → IsReleased (finish outcome e)
unfolding finish
finish-IsReleased outcome e h = go e.outcome e.abandoned refl refl
  where
    go :
        (o : Option EgressOutcome) (abandoned : Bool)
        → e.outcome ≡ o
        → e.abandoned ≡ abandoned
        → IsReleased (finish outcome e)
    go none true eo ea =
        ground (arith, h, release_lem (record e { outcome = (set_future e.outcome outcome).0 }))
    go none false eo ea = ground (arith, h)
    go (some o) true eo ea =
        ground (arith, h, release_lem (record e { outcome = (set_future e.outcome outcome).0 }))
    go (some o) false eo ea = ground (arith, h)
