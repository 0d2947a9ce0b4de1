-- ===== src/Server/Service/Filter/Laws.antt =====
-- internal/server/filter.go: a listing is what the filter selects, in order.
use mathlib.Core.List.{Perm}
use mathlib.Core.List.Perm
use spectre.Prelude.{
  ◌≡◌, refl, Bool, true, false, List, [], ◌∷◌, Text, text_eq, text_lt, select, arith, Bool-cases,
  inl, inr, eq_iff,
}
use spectre.Model.{
  direction_eq, Direction, State, Divergence, DivergenceFilter, matches_state, matches_divergence,
  direction_text,
}
use spectre.Server.Service.Filter.{
  sort_in, sort_by, state_before, divergence_before, filter_states, filter_divergences,
}

module _ {ℓ} {A : Type ℓ} (before : A → A → Bool) where
  -- No element stands before the one that precedes it.
  abbrev pub IsSorted : List A → Type 0
  IsSorted [] = Unit
  IsSorted (a ∷ []) = Unit
  IsSorted (a ∷ b ∷ rest) = (before b a ≡ false) × IsSorted (b ∷ rest)

  sort_in-Perm : (a : A) (xs : List A) → Perm (sort_in before a xs) (a ∷ xs)
  unfolding sort_in
  sort_in-Perm a [] = Perm.refl (a ∷ [])
  sort_in-Perm a (b ∷ bs) = elim (Bool-cases (before b a)) [
    | inl e ↦ rw e (Perm.trans (Perm.cons b (sort_in-Perm a bs)) (Perm.swap a b bs))
    | inr e ↦ rw e (Perm.refl (a ∷ b ∷ bs))
  ]

  pub sort_by-Perm : (xs : List A) → Perm (sort_by before xs) xs
  unfolding sort_by
  sort_by-Perm [] = Perm.refl []
  sort_by-Perm (a ∷ xs) =
      Perm.trans (sort_in-Perm a (sort_by before xs)) (Perm.cons a (sort_by-Perm xs))

  module _ (asymmetric : (a b : A) → before a b ≡ true → before b a ≡ false) where
    sort_in-IsSorted : (a : A) (xs : List A) → IsSorted xs → IsSorted (sort_in before a xs)
    unfolding sort_in
    sort_in-IsSorted a [] h = tt
    sort_in-IsSorted a (b ∷ []) h = ground (arith, asymmetric b a)
    sort_in-IsSorted a (b ∷ c ∷ rest) h =
        ground (arith, asymmetric b a, sort_in-IsSorted a (c ∷ rest))

    pub sort_by-IsSorted : (xs : List A) → IsSorted (sort_by before xs)
    unfolding sort_by
    sort_by-IsSorted [] = tt
    sort_by-IsSorted (a ∷ xs) = sort_in-IsSorted a (sort_by before xs) (sort_by-IsSorted xs)

text_lt_asymm : (a b : Text) → text_lt a b ≡ true → text_lt b a ≡ false
text_lt_asymm [] [] h = refl
text_lt_asymm [] (y ∷ b) h = refl
text_lt_asymm (x ∷ a) [] h = ground arith
text_lt_asymm (x ∷ a) (y ∷ b) h = ground (arith, text_lt_asymm a b)

text_lt_irrefl : (a : Text) → text_lt a a ≡ false
text_lt_irrefl [] = refl
text_lt_irrefl (x ∷ a) = ground (arith, text_lt_irrefl a)

state_before_asymm : (a b : State) → state_before a b ≡ true → state_before b a ≡ false
unfolding state_before
state_before_asymm a b h = ground (
  arith,
  text_lt_asymm a.service b.service,
  text_lt_asymm a.environment b.environment,
  text_lt_irrefl a.service,
  eq_iff a.service b.service,
  eq_iff b.service a.service,
)

direction_asymm :
    (a b : Direction)
    → text_lt (direction_text a) (direction_text b) ≡ true
    → text_lt (direction_text b) (direction_text a) ≡ false
direction_asymm a b = text_lt_asymm (direction_text a) (direction_text b)

divergence_before_asymm :
    (a b : Divergence) → divergence_before a b ≡ true → divergence_before b a ≡ false
unfolding divergence_before
divergence_before_asymm a b h = ground (
  arith,
  text_lt_asymm a.service b.service,
  text_lt_asymm a.environment b.environment,
  text_lt_irrefl a.service,
  text_lt_irrefl a.environment,
  eq_iff a.service b.service,
  eq_iff b.service a.service,
  eq_iff a.environment b.environment,
  eq_iff b.environment a.environment,
  direction_asymm b.direction a.direction,
)

-- A listing holds exactly the states and divergences that its filter selects, as often as the store
-- gave them. States are in the order of their services and then environments; divergences too, and
-- those of one service environment list ingress before egress.
pub filter_lem :
    (f : DivergenceFilter) (ss : List State) (ds : List Divergence)
    → (Perm (filter_states ss f) (select (λ s. matches_state f s) ss)
        × IsSorted state_before (filter_states ss f))
      × (Perm (filter_divergences ds f) (select (λ d. matches_divergence f d) ds)
          × IsSorted divergence_before (filter_divergences ds f))
unfolding filter_states filter_divergences
filter_lem f ss ds = (
  (sort_by-Perm state_before _, sort_by-IsSorted state_before state_before_asymm _),
  (sort_by-Perm divergence_before _, sort_by-IsSorted divergence_before divergence_before_asymm _),
)
