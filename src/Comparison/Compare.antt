-- ===== src/Comparison/Compare.antt =====
-- internal/comparison/internal/diff.go, `mergeIndexes` and `compare`: differences that differ only
-- in list indexes are merged. A group's place in the list is its place in the source's `order`.
pub mod Laws
pub mod Private
pub mod Tests
use spectre.Prelude.{
  ℕ, ◌+◌, Bool, true, false, Option, none, some, List, [], ◌∷◌, ◌++◌, map, Text, text, text_eq,
  nat_beq, if◌then◌else◌,
}
use spectre.Prelude.Assoc.{lookup, insert}
use spectre.Model.{change_text, json_type_text, Retype, Difference}
use spectre.Schema.{Schema, Value}
use spectre.Comparison.Json.{Json}
use spectre.Comparison.Differ.{RawDifference, Differ, collect}

pub record Group : Type 0 where
  pub first : RawDifference
  pub merged : Difference
  pub size : ℕ

abbrev pub types_text : Option Retype → Text
types_text none = []
types_text (some r) =
    text " " ++ (json_type_text r.reference ++ (text " " ++ json_type_text r.candidate))

-- The key of a difference's group.
unfoldable pub group_key : RawDifference → Text
group_key d = change_text d.change ++ (text " " ++ (d.path.wildcard ++ types_text d.retype))

-- A new group counts nothing before its first difference is counted.
abbrev pub found_group : RawDifference → Option Group → Group
found_group d (some g) = g
found_group d none = record {
  first = d;
  merged = record { path = d.path.wildcard; change = d.change; retype = d.retype; count = 0 };
  size = 0;
}

abbrev pub counted : RawDifference → Group → Group
counted d g = record g {
  merged = record {
    path = g.merged.path;
    change = g.merged.change;
    retype = g.merged.retype;
    count = g.merged.count + d.count;
  };
  size = g.size + 1;
}

-- The first loop.
unfoldable pub grouped : List (Text × Group) → List RawDifference → List (Text × Group)
grouped groups [] = groups
grouped groups (d ∷ ds) =
    grouped (insert (group_key d) (counted d (found_group d (lookup (group_key d) groups))) groups)
      ds

-- A group of one keeps its indexes.
unfoldable pub group_result : Group → Difference
group_result g =
    if nat_beq g.size 1
    then record {
      path = g.first.path.text_of;
      change = g.first.change;
      retype = g.first.retype;
      count = g.first.count;
    }
    else g.merged

-- `mergeIndexes`.
unfoldable pub merge_indexes : List RawDifference → List Difference
unfolding grouped group_result group_key
merge_indexes ds = map (λ (g : Text × Group). group_result g.1) (grouped [] ds)

-- `compare`: where two payloads differ, and whether in more places. An absent payload was removed.
unfoldable pub compare :
    (Text → Text)
    → Option Schema
    → Option Value
    → Option Json
    → Option Json
    → List Difference × Bool
compare quote loaded root reference candidate =
    let d = collect quote loaded root reference candidate in
    (merge_indexes d.differences, d.truncated)
