-- ===== src/Model/DivergenceModel.antt =====
-- internal/model/divergence.go.
use spectre.Prelude.{Bool, true, false, Option, none, some, List, Text, text_eq, ◌==◌, ◌&&◌, any}
use spectre.Model.TrafficModel.{Direction}
use spectre.Model.QuarantineModel.{Quarantine}
use spectre.Model.StateModel.{State}

pub record Divergence : Type 0 where
  pub service : Text
  pub environment : Text
  pub revision : Text
  pub direction : Direction
  pub quarantine : Quarantine

pub record DivergenceFilter : Type 0 where
  pub service : Option Text
  pub environment : Option Text
  pub revision : Option Text
  pub node : Option Text

-- `matches`: an absent filter matches every value, an absent one too.
abbrev pub matches : Option Text → Option Text → Bool
matches none value = true
matches (some expected) none = false
matches (some expected) (some v) = v == expected

-- `DivergenceFilter.Matches`.
unfoldable pub matches_divergence : DivergenceFilter → Divergence → Bool
matches_divergence f d =
    matches f.service (some d.service)
    && (matches f.environment (some d.environment)
        && (matches f.revision (some d.revision) && matches f.node d.quarantine.reason.node))

-- The loop over the quarantines, which a filter with no node skips.
abbrev some_quarantine_matches : Option Text → List (Direction × Quarantine) → Bool
some_quarantine_matches none quarantines = true
some_quarantine_matches (some node) quarantines =
    any (λ (q : Direction × Quarantine). matches (some node) q.1.reason.node) quarantines

-- `DivergenceFilter.MatchesState`.
unfoldable pub matches_state : DivergenceFilter → State → Bool
matches_state f s =
    matches f.service (some s.service)
    && (matches f.environment (some s.environment)
        && (matches f.revision (some s.revision) && some_quarantine_matches f.node s.quarantines))
