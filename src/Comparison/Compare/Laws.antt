-- ===== src/Comparison/Compare/Laws.antt =====
-- What a merged comparison tells.
use spectre.Prelude.{
  ℕ, suc, ◌+◌, ◌≤◌, ◌<◌, ◌≡◌, ◌↔◌, refl, ap, true, false, Option, List, [], ◌∷◌, map, arith, Text,
  text_eq, nat_beq, length,
}
use spectre.Prelude.Assoc.{lookup, insert}
use spectre.Model.{Difference}
use spectre.Schema.{Schema, Value}
use spectre.Comparison.Json.{Json}
use spectre.Comparison.Json.Laws.{equal_optional}
use spectre.Comparison.Differ.{RawDifference, collect}
use spectre.Comparison.Differ.Equal.{WellOptional, collect-IsClean}
use spectre.Comparison.Compare.{
  Group, group_key, found_group, counted, grouped, group_result, merge_indexes, compare,
}

-- How many places a list of differences stands for.
unfoldable pub raw_total : List RawDifference → ℕ
raw_total [] = 0
raw_total (d ∷ ds) = d.count + raw_total ds

unfoldable pub total : List Difference → ℕ
total [] = 0
total (d ∷ ds) = d.count + total ds

group_total : List (Text × Group) → ℕ
group_total [] = 0
group_total ((k, g) ∷ gs) = g.merged.count + group_total gs

-- A group of one counts what its first difference counts.
record IsGood (g : Group) : Type 0 where
  positive : 0 < g.size
  single : nat_beq g.size 1 ≡ true → g.first.count ≡ g.merged.count

abbrev AllGood : List (Text × Group) → Type 0
AllGood [] = Unit
AllGood ((k, g) ∷ gs) = IsGood g × AllGood gs

counted-IsGood :
    (d : RawDifference) (k : Text) (gs : List (Text × Group))
    → AllGood gs
    → IsGood (counted d (found_group d (lookup k gs)))
unfolding lookup
counted-IsGood d k [] h = record { positive = omega arith; single = λ e. ground arith }
counted-IsGood d k ((j, g) ∷ gs) h = ground (arith, counted-IsGood d k gs h.1)

insert-AllGood :
    (k : Text) (g : Group) (gs : List (Text × Group))
    → IsGood g
    → AllGood gs
    → AllGood (insert k g gs)
unfolding insert
insert-AllGood k g [] good h = (good, tt)
insert-AllGood k g ((j, f) ∷ gs) good h = ground (arith, insert-AllGood k g gs good h.1)

total-insert :
    (d : RawDifference) (k : Text) (gs : List (Text × Group))
    → group_total (insert k (counted d (found_group d (lookup k gs))) gs) ≡ d.count + group_total gs
unfolding insert lookup group_total
total-insert d k [] = omega arith
total-insert d k ((j, g) ∷ gs) = ground (arith, total-insert d k gs)

grouped-total :
    (gs : List (Text × Group)) (ds : List RawDifference)
    → AllGood gs
    → (group_total (grouped gs ds) ≡ group_total gs + raw_total ds) × AllGood (grouped gs ds)
unfolding grouped raw_total
grouped-total gs [] h = (omega arith, h)
grouped-total gs (d ∷ ds) h =
    let k = group_key d in
    let g = counted d (found_group d (lookup k gs)) in
    let (sum, good) =
      grouped-total (insert k g gs) ds (insert-AllGood k g gs (counted-IsGood d k gs h) h) in
    (omega (arith, sum, total-insert d k gs), good)

results-total :
    (gs : List (Text × Group))
    → AllGood gs
    → total (map (λ (g : Text × Group). group_result g.1) gs) ≡ group_total gs
unfolding total group_total group_result
results-total [] h = refl
results-total ((k, g) ∷ gs) h = ground (arith, h.0.single, results-total gs h.1)

-- Merging loses no place: the counts of the merged differences add up to those of the differences
-- that were found, so a change to every element of a list is listed once with their number.
pub total-merge_indexes : (ds : List RawDifference) → total (merge_indexes ds) ≡ raw_total ds
unfolding merge_indexes group_total
total-merge_indexes ds =
    let (sum, good) = grouped-total [] ds tt in
    omega (arith, results-total (grouped [] ds) good, sum)

length-insert-le :
    (k : Text) (g : Group) (gs : List (Text × Group)) → length (insert k g gs) ≤ suc (length gs)
unfolding insert
length-insert-le k g [] = omega arith
length-insert-le k g ((j, f) ∷ gs) = ground (arith, length-insert-le k g gs)

insert-longer :
    (k : Text) (g : Group) (gs : List (Text × Group))
    → (0 < length (insert k g gs)) × (length gs ≤ length (insert k g gs))
unfolding insert
insert-longer k g [] = omega arith
insert-longer k g ((j, f) ∷ gs) = ground (arith, insert-longer k g gs)

length-grouped :
    (gs : List (Text × Group)) (ds : List RawDifference)
    → (length gs ≤ length (grouped gs ds)) × (length (grouped gs ds) ≤ length gs + length ds)
unfolding grouped
length-grouped gs [] = omega arith
length-grouped gs (d ∷ ds) =
    let k = group_key d in
    let g = counted d (found_group d (lookup k gs)) in
    omega (arith, length-grouped (insert k g gs) ds, length-insert-le k g gs, insert-longer k g gs)

length-results :
    (gs : List (Text × Group))
    → length (map (λ (g : Text × Group). group_result g.1) gs) ≡ length gs
length-results [] = refl
length-results (g ∷ gs) = ap suc (length-results gs)

length_zero {ℓ} : {A : Type ℓ} (xs : List A) → length xs ≡ 0 → xs ≡ []
length_zero [] h = refl
length_zero (x ∷ xs) h = absurd (omega arith)

merge_indexes-empty : (ds : List RawDifference) → (merge_indexes ds ≡ []) ↔ (ds ≡ [])
unfolding merge_indexes grouped
merge_indexes-empty [] = (λ h. refl, λ h. refl)
merge_indexes-empty (d ∷ ds) =
    let k = group_key d in
    let g = counted d (found_group d (lookup k [])) in
    (
      λ h. absurd (
          omega (
            arith,
            ap length h,
            length-results (grouped (insert k g []) ds),
            length-grouped (insert k g []) ds,
            insert-longer k g [],
          )),
      λ h. cc,
    )

-- The comparison reports no difference, and none left out, exactly if both payloads were removed or
-- both are present and deeply equal, where no object of them holds a key twice.
pub compare-equal :
    (quote : Text → Text) (loaded : Option Schema) (root : Option Value) (r c : Option Json)
    → WellOptional r
    → WellOptional c
    → (compare quote loaded root r c ≡ ([], false)) ↔ (equal_optional r c ≡ true)
unfolding compare
compare-equal quote loaded root r c wr wc =
    let d = collect quote loaded root r c in
    let iff = collect-IsClean quote loaded root r c wr wc in
    let empty = merge_indexes-empty d.differences in
    (
      λ h.
          iff.0
            (record { none_listed = empty.0 (ap (λ x. x.0) h); none_left_out = ap (λ x. x.1) h }),
      λ h. let v = iff.1 h in λ i. (empty.1 v.none_listed i, v.none_left_out i),
    )
