-- ===== src/Comparison/Compare/Private.antt =====
-- The paths of merged differences.
use spectre.Prelude.{
  ◌≡◌, ap, Option, List, [], ◌∷◌, map, Text, text_eq, ◌==◌, All, nat_beq, Bool-cases, inl, inr,
}
use spectre.Prelude.Assoc.{lookup, insert}
use spectre.Model.{Difference}
use spectre.Schema.{Schema, Value}
use spectre.Comparison.Json.{Json}
use spectre.Comparison.Path.{
  DocumentPath, field, any_key, index, without_index, path_string, reported,
}
use spectre.Comparison.Differ.{RawDifference, collect}
use spectre.Comparison.Differ.Private.{IsDeclared, IsNamed, collect-named}
use spectre.Comparison.Compare.{
  Group, group_key, found_group, counted, grouped, group_result, merge_indexes, compare,
}

without_index-IsDeclared :
    (loaded : Option Schema) (p : DocumentPath)
    → All (IsDeclared loaded) p
    → All (IsDeclared loaded) (map without_index p)
without_index-IsDeclared loaded [] h = tt
without_index-IsDeclared loaded (field name ∷ p) h = (h.0, without_index-IsDeclared loaded p h.1)
without_index-IsDeclared loaded (any_key ∷ p) h = (tt, without_index-IsDeclared loaded p h.1)
without_index-IsDeclared loaded (index i ∷ p) h = (tt, without_index-IsDeclared loaded p h.1)

module _ (quote : Text → Text) (loaded : Option Schema) where
  -- The text of a path whose names are declared fields.
  abbrev pub IsSpelled : Text → Type 0
  IsSpelled t = (p : DocumentPath) × All (IsDeclared loaded) p × (t ≡ path_string quote p)

  record IsNamedGroup (g : Group) : Type 0 where
    first_named : IsSpelled g.first.path.text_of
    merged_named : IsSpelled g.merged.path

  named-text : (d : RawDifference) → IsNamed quote loaded d → IsSpelled d.path.text_of
  unfolding reported
  named-text d (p, h, e) = (p, h, ap (λ x. x.text_of) e)

  named-wildcard : (d : RawDifference) → IsNamed quote loaded d → IsSpelled d.path.wildcard
  unfolding reported
  named-wildcard d (p, h, e) =
      (map without_index p, without_index-IsDeclared loaded p h, ap (λ x. x.wildcard) e)

  abbrev AllGroups : List (Text × Group) → Type 0
  AllGroups [] = Unit
  AllGroups ((k, g) ∷ gs) = IsNamedGroup g × AllGroups gs

  found-named :
      (d : RawDifference) (k : Text) (gs : List (Text × Group))
      → IsNamed quote loaded d
      → AllGroups gs
      → IsNamedGroup (counted d (found_group d (lookup k gs)))
  unfolding lookup
  found-named d k [] n h = record {
    first_named = named-text d n;
    merged_named = named-wildcard d n;
  }
  found-named d k ((j, g) ∷ gs) n h = elim (Bool-cases (j == k)) [
    | inl here ↦ rw here (record { first_named = h.0.first_named; merged_named = h.0.merged_named })
    | inr there ↦ rw there (found-named d k gs n h.1)
  ]

  insert-named :
      (k : Text) (g : Group) (gs : List (Text × Group))
      → IsNamedGroup g
      → AllGroups gs
      → AllGroups (insert k g gs)
  unfolding insert
  insert-named k g [] n h = (n, tt)
  insert-named k g ((j, f) ∷ gs) n h = elim (Bool-cases (j == k)) [
    | inl here ↦ rw here (n, h.1)
    | inr there ↦ rw there (h.0, insert-named k g gs n h.1)
  ]

  grouped-named :
      (gs : List (Text × Group)) (ds : List RawDifference)
      → All (IsNamed quote loaded) ds
      → AllGroups gs
      → AllGroups (grouped gs ds)
  unfolding grouped
  grouped-named gs [] all h = h
  grouped-named gs (d ∷ ds) all h =
      let k = group_key d in
      let g = counted d (found_group d (lookup k gs)) in
      grouped-named (insert k g gs) ds all.1 (insert-named k g gs (found-named d k gs all.0 h) h)

  abbrev AllSpelled : List Difference → Type 0
  AllSpelled = All (λ (d : Difference). IsSpelled d.path)

  results-spelled :
      (gs : List (Text × Group))
      → AllGroups gs
      → AllSpelled (map (λ (g : Text × Group). group_result g.1) gs)
  unfolding group_result
  results-spelled [] h = tt
  results-spelled ((k, g) ∷ gs) h = elim (Bool-cases (nat_beq g.size 1)) [
    | inl one ↦ rw one (h.0.first_named, results-spelled gs h.1)
    | inr more ↦ rw more (h.0.merged_named, results-spelled gs h.1)
  ]

  -- Differences leave the mirror: the path of each is the text of a path whose names are fields that
  -- the schema declares, so it quotes no other key of a payload.
  pub compare-IsSpelled :
      (root : Option Value) (r c : Option Json)
      → All (λ (d : Difference). IsSpelled d.path) (compare quote loaded root r c).0
  unfolding compare merge_indexes
  compare-IsSpelled root r c =
      results-spelled (grouped [] (collect quote loaded root r c).differences) (
        grouped-named [] (collect quote loaded root r c).differences
          (collect-named quote loaded root r c) tt)
