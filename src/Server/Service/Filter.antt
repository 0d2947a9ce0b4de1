-- ===== src/Server/Service/Filter.antt =====
-- internal/server/filter.go.
pub mod Laws
use spectre.Prelude.{
  ◌≡◌, refl, Bool, true, false, not, ◌&&◌, ◌||◌, List, [], ◌∷◌, Text, ◌==◌, text_eq, text_lt,
  select, All, arith, if◌then◌else◌, Bool-cases, inl, inr,
}
use spectre.Model.{
  Direction, ingress, egress, direction_eq, State, Divergence, DivergenceFilter, matches_state,
  matches_divergence, direction_text,
}

-- `slices.SortFunc`, by insertion, for an order given as "stands before".
module _ {ℓ} {A : Type ℓ} (before : A → A → Bool) where
  unfoldable pub sort_in : A → List A → List A
  sort_in a [] = a ∷ []
  sort_in a (b ∷ bs) = if before b a then b ∷ sort_in a bs else a ∷ b ∷ bs

  unfoldable pub sort_by : List A → List A
  sort_by [] = []
  sort_by (a ∷ as') = sort_in a (sort_by as')

-- `cmp.Or` of the comparisons of services and of environments.
unfoldable pub state_before : State → State → Bool
state_before a b =
    text_lt a.service b.service || (a.service == b.service && text_lt a.environment b.environment)

-- The directions are compared in reverse.
unfoldable pub divergence_before : Divergence → Divergence → Bool
divergence_before a b =
    text_lt a.service b.service
    || (a.service == b.service
        && (text_lt a.environment b.environment
            || (a.environment == b.environment
                && text_lt (direction_text b.direction) (direction_text a.direction))))

-- `filterStates`.
unfoldable pub filter_states : List State → DivergenceFilter → List State
filter_states states filter = sort_by state_before (select (λ s. matches_state filter s) states)

-- `filterDivergences`.
unfoldable pub filter_divergences : List Divergence → DivergenceFilter → List Divergence
filter_divergences divergences filter =
    sort_by divergence_before (select (λ d. matches_divergence filter d) divergences)
