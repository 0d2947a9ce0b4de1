-- ===== src/Comparison/Differ.antt =====
-- internal/comparison/internal/diff.go: where and how two payloads differ.
--
-- The recursion of `diff` goes to members of the reference, so it takes the depth of the reference
-- for fuel (`compare`). A count is a plain number: it is at most the number of values compared.
pub mod Keys
pub mod Equal
pub mod Private
use Prim.Native.Nat.{max}
use spectre.Prelude.{
  ℕ, zero, suc, ◌+◌, Bool, true, false, not, ◌&&◌, ◌||◌, Option, none, some, List, [], ◌∷◌, ◌++◌,
  Text, text, text_eq, ◌==◌, option_beq, contains, select, length, leb, get_elem?, if◌then◌else◌,
  text_lt,
}
use spectre.Prelude.Assoc.{lookup, keys}
use spectre.Model.{
  Change, missing, added, changed, retyped, change_eq, JsonType, json_type_eq, Retype, retype_eq,
}
use spectre.Schema.{Schema, Value, Kind, kind_of, element_of, type_of, deref, find_field, find_type}
use spectre.Comparison.Json.{
  Json, null, list, object, Items, Members, elements, entries, deep_equal, depth, json_type,
}
use spectre.Comparison.Path.{
  DocumentPath, field, any_key, index, append_part, ReportedPath, reported_eq, reported,
}

abbrev pub max_differences : ℕ
max_differences = 100

-- `difference`.
pub record RawDifference : Type 0 where
  pub path : ReportedPath
  pub change : Change
  pub retype : Option Retype
  pub count : ℕ

pub record Differ : Type 0 where
  pub differences : List RawDifference
  pub truncated : Bool

abbrev pub new_differ : Differ
new_differ = record { differences = []; truncated = false }

-- `slices.Sort`.
unfoldable pub insert_sorted : Text → List Text → List Text
insert_sorted k [] = k ∷ []
insert_sorted k (j ∷ js) = if text_lt j k then j ∷ insert_sorted k js else k ∷ j ∷ js

unfoldable pub sort : List Text → List Text
unfolding insert_sorted
sort [] = []
sort (k ∷ ks) = insert_sorted k (sort ks)

-- `sortedKeys`.
unfoldable pub sorted_keys : List (Text × Json) → List (Text × Json) → List Text
unfolding sort
sorted_keys reference candidate =
    sort (keys reference ++ select (λ k. not (contains k (keys reference))) (keys candidate))

abbrev pub is_retyped : Change → Bool
is_retyped retyped = true
is_retyped _ = false

-- The loop of `add`: the first equal difference is counted again, or a new one stands at the end.
abbrev pub same_difference : RawDifference → ReportedPath → Change → Option Retype → Bool
same_difference d path change retype =
    d.change == change && (option_beq d.retype retype && d.path == path)

unfoldable pub add_difference :
    List RawDifference → ReportedPath → Change → Option Retype → List RawDifference
add_difference [] path change retype =
    record { path = path; change = change; retype = retype; count = 1 } ∷ []
add_difference (d ∷ ds) path change retype =
    if same_difference d path change retype
    then record d { count = d.count + 1 } ∷ ds
    else d ∷ add_difference ds path change retype

-- `add`.
unfoldable pub add : Differ → ReportedPath → Change → Json → Json → Differ
unfolding add_difference json_type
add d path change reference candidate =
    let types : Retype = record {
      reference = json_type reference;
      candidate = json_type candidate;
    } in
    let retype = if is_retyped change then some types else none in
    record d { differences = add_difference d.differences path change retype }

-- The declared type of a list's elements.
abbrev pub list_element : Option Value → Option Value
list_element none = none
list_element (some declared) = elim (kind_of declared) [
  | Kind.list ↦ deref (element_of declared)
  | _ ↦ none
]

-- `member`: the path and the declared type of a key.
abbrev pub declared_member :
    Option Schema → Value → DocumentPath → Text → DocumentPath × Option Value
declared_member loaded declared p key = elim (kind_of declared) [
  | Kind.object ↦ elim loaded [
    | none ↦ (append_part p any_key, none)
    | some s ↦ elim (find_type s (type_of declared)) [
      | none ↦ (append_part p any_key, none)
      | some t ↦ elim (find_field key t.fields) [
        | none ↦ (append_part p any_key, none)
        | some f ↦ (append_part p (field key), some f.value)
      ]
    ]
  ]
  | Kind.map ↦ (append_part p any_key, deref (element_of declared))
  | _ ↦ (append_part p any_key, none)
]

unfoldable pub member :
    Option Schema → DocumentPath → Option Value → Text → DocumentPath × Option Value
member loaded p none key = (append_part p any_key, none)
member loaded p (some declared) key = declared_member loaded declared p key

module _ (quote : Text → Text) (loaded : Option Schema) where
  -- A comparison of two present values, which `diff` hands to its loops.
  abbrev pub Comparer : Type 0
  Comparer = Differ → Json → Json → DocumentPath → Option Value → Differ

  -- `diffItem`. Two absent values are compared as nil.
  unfoldable pub diff_item :
      Comparer → Differ → Option Json → Option Json → DocumentPath → Option Value → Differ
  diff_item rec d (some r) none p v = add d (reported quote p) missing null null
  diff_item rec d none (some c) p v = add d (reported quote p) added null null
  diff_item rec d (some r) (some c) p v = rec d r c p v
  diff_item rec d none none p v = rec d null null p v

  -- The loop over the keys of two maps.
  unfoldable pub diff_keys :
      Comparer
      → List Text
      → Differ
      → List (Text × Json)
      → List (Text × Json)
      → DocumentPath
      → Option Value
      → Differ
  diff_keys rec [] d ms ns p v = d
  diff_keys rec (k ∷ ks) d ms ns p v =
      let (q, w) = member loaded p v k in
      diff_keys rec ks (diff_item rec d (lookup k ms) (lookup k ns) q w) ms ns p v

  -- The loop over the indexes of two slices: `rounds` are left, and `i` is next.
  unfoldable pub diff_indexes :
      Comparer → ℕ → ℕ → Differ → List Json → List Json → DocumentPath → Option Value → Differ
  diff_indexes rec zero i d xs ys p w = d
  diff_indexes rec (suc rounds) i d xs ys p w =
      diff_indexes rec rounds (suc i)
        (diff_item rec d (get_elem? xs i) (get_elem? ys i) (append_part p (index i)) w) xs ys p w

  -- The switch of `diff` on the type of the reference.
  unfoldable pub diff_unequal :
      Comparer → Differ → Json → Json → DocumentPath → Option Value → Differ
  diff_unequal rec d (object ms) (object ns) p v =
      diff_keys rec (sorted_keys (entries ms) (entries ns)) d (entries ms) (entries ns) p v
  diff_unequal rec d (object ms) c p v = add d (reported quote p) retyped (object ms) c
  diff_unequal rec d (list xs) (list ys) p v =
      diff_indexes rec (max (length (elements xs)) (length (elements ys))) 0 d (elements xs)
        (elements ys) p (list_element v)
  diff_unequal rec d (list xs) c p v = add d (reported quote p) retyped (list xs) c
  diff_unequal rec d r c p v =
      add d (reported quote p) (if json_type r == json_type c then changed else retyped) r c

  -- `diff`.
  unfoldable pub diff : ℕ → Comparer
  diff zero d r c p v = d
  diff (suc fuel) d r c p v =
      if leb max_differences (length d.differences)
      then record d { truncated = d.truncated || not (deep_equal r c) }
      else if deep_equal r c
      then d
      else diff_unequal (diff fuel) d r c p v

  abbrev pub optional_depth : Option Json → ℕ
  optional_depth none = 0
  optional_depth (some r) = depth r

  -- `compare`, before the differences are merged.
  unfoldable pub collect : Option Value → Option Json → Option Json → Differ
  collect root reference candidate =
      diff_item (diff (suc (optional_depth reference))) new_differ reference candidate [] root
