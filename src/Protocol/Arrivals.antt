-- ===== src/Protocol/Arrivals.antt =====
-- internal/protocol/egress.go, `insertByArrival`: queues in order of arrival, kept by binary search.
use mathlib.Core.Path.{subst}
use spectre.Prelude.{
  ℕ, zero, suc, ◌+◌, ◌/◌, ◌≤◌, ◌<◌, ◌≡◌, refl, sym, ◌∙◌, ap, Bool, true, false, Option, none, some,
  List, [], ◌∷◌, arith, length, get_elem?, All, ltb, le→ltb, if◌then◌else◌,
}

-- `slices.Insert`.
abbrev pub insert_at {ℓ} : {A : Type ℓ} → List A → ℕ → A → List A
insert_at [] i v = v ∷ []
insert_at (x ∷ xs) zero v = v ∷ x ∷ xs
insert_at (x ∷ xs) (suc i) v = x ∷ insert_at xs i v

module _ {ℓ} {T : Type ℓ} (arrived : T → ℕ) where
  -- Whether the element that was read compares below the target.
  abbrev pub below : ℕ → Option T → Bool
  below target none = false
  below target (some x) = ltb (arrived x) target

  -- The loop of `slices.BinarySearchFunc` between two indexes.
  unfoldable pub search : ℕ → List T → ℕ → ℕ → ℕ → ℕ
  search zero queue target i j = i
  search (suc fuel) queue target i j = elim (ltb i j) [
    | false ↦ i
    | true ↦ elim (below target (get_elem? queue ((i + j) / 2))) [
      | true ↦ search fuel queue target ((i + j) / 2 + 1) j
      | false ↦ search fuel queue target i ((i + j) / 2)
    ]
  ]

  -- `insertByArrival`.
  unfoldable pub insert_by_arrival : List T → T → List T
  insert_by_arrival queue item =
      insert_at queue (search (length queue) queue (arrived item) 0 (length queue)) item

  -- In order of arrival: each element came no later than all that follow it.
  abbrev pub IsInOrder : List T → Type 0
  IsInOrder [] = Unit
  IsInOrder (x ∷ xs) = All (λ y. arrived x ≤ arrived y) xs × IsInOrder xs

  -- How many elements of an ordered list came before a time.
  abbrev rank : ℕ → List T → ℕ
  rank target [] = 0
  rank target (x ∷ xs) = if ltb (arrived x) target then suc (rank target xs) else 0

  rank-le : (target : ℕ) (xs : List T) → rank target xs ≤ length xs
  rank-le target [] = omega arith
  rank-le target (x ∷ xs) = ground (arith, rank-le target xs)

  late :
      (target : ℕ) (xs : List T) (i : ℕ)
      → All (λ y. target ≤ arrived y) xs
      → below target (get_elem? xs i) ≡ false
  late target [] i h = refl
  late target (x ∷ xs) zero h = le→ltb (arrived x) target h.0
  late target (x ∷ xs) (suc i) h = late target xs i h.1

  later :
      (a b : ℕ) (xs : List T) → a ≤ b → All (λ y. b ≤ arrived y) xs → All (λ y. a ≤ arrived y) xs
  later a b [] le h = tt
  later a b (x ∷ xs) le h = (omega arith, later a b xs le h.1)

  below-rank :
      (target : ℕ) (xs : List T) (i : ℕ)
      → IsInOrder xs
      → i < length xs
      → below target (get_elem? xs i) ≡ ltb i (rank target xs)
  below-rank target [] i h lt = absurd (omega arith)
  below-rank target (x ∷ xs) zero h lt = ground arith
  below-rank target (x ∷ xs) (suc i) h lt =
      ground (arith, below-rank target xs i h.1, late target xs i, later target (arrived x) xs)

  -- The search ends at the rank, with fuel for the width of the interval.
  search-rank :
      (fuel : ℕ) (xs : List T) (target i j : ℕ)
      → IsInOrder xs
      → j ≤ i + fuel
      → i ≤ rank target xs
      → rank target xs ≤ j
      → j ≤ length xs
      → search fuel xs target i j ≡ rank target xs
  unfolding search
  search-rank zero xs target i j h f lo hi len = omega arith
  search-rank (suc fuel) xs target i j h f lo hi len = ground (
    arith,
    below-rank target xs ((i + j) / 2) h,
    search-rank fuel xs target ((i + j) / 2 + 1) j h,
    search-rank fuel xs target i ((i + j) / 2) h,
  )

  -- The reference definition: past all that came before.
  abbrev pub insert_linear : List T → T → List T
  insert_linear [] item = item ∷ []
  insert_linear (x ∷ xs) item =
      if ltb (arrived x) (arrived item) then x ∷ insert_linear xs item else item ∷ x ∷ xs

  insert_at-rank :
      (xs : List T) (item : T) → insert_at xs (rank (arrived item) xs) item ≡ insert_linear xs item
  insert_at-rank [] item = refl
  insert_at-rank (x ∷ xs) item = ground (arith, insert_at-rank xs item)

  -- On a queue in order of arrival, the binary search inserts where the scan from the front does.
  pub insert_by_arrival_lem :
      (queue : List T) (item : T)
      → IsInOrder queue
      → insert_by_arrival queue item ≡ insert_linear queue item
  unfolding insert_by_arrival
  insert_by_arrival_lem queue item h =
      ap (λ i. insert_at queue i item)
        (search-rank (length queue) queue (arrived item) 0 (length queue) h (omega arith)
          (omega arith) (rank-le (arrived item) queue) (omega arith))
      ∙ insert_at-rank queue item

  insert_linear-All :
      (P : T → Type 0) (xs : List T) (item : T) → All P xs → P item → All P (insert_linear xs item)
  insert_linear-All P [] item h p = (p, tt)
  insert_linear-All P (x ∷ xs) item h p = ground (arith, insert_linear-All P xs item)

  insert_linear-IsInOrder :
      (xs : List T) (item : T) → IsInOrder xs → IsInOrder (insert_linear xs item)
  insert_linear-IsInOrder [] item h = (tt, tt)
  insert_linear-IsInOrder (x ∷ xs) item h = ground (
    arith,
    insert_linear-IsInOrder xs item,
    insert_linear-All (λ y. arrived x ≤ arrived y) xs item,
    later (arrived item) (arrived x) xs,
  )

  pub insert-IsInOrder :
      (queue : List T) (item : T) → IsInOrder queue → IsInOrder (insert_by_arrival queue item)
  insert-IsInOrder queue item h =
      subst IsInOrder (sym (insert_by_arrival_lem queue item h))
        (insert_linear-IsInOrder queue item h)
