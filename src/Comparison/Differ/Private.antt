-- ===== src/Comparison/Differ/Private.antt =====
-- Differences leave the mirror, so their paths quote no payload key: only declared fields.
use Prim.Native.Nat.{max}
use spectre.Prelude.{
  ℕ, zero, suc, ◌≡◌, refl, true, Option, none, some, List, [], ◌∷◌, ◌++◌, arith, Text, text_eq,
  contains, contains-append, length, leb, get_elem?, All, All-last, Bool-cases, Option-cases, inl,
  inr,
}
use spectre.Prelude.Assoc.{lookup}
use spectre.Model.{Change, Retype}
use spectre.Schema.{TypeRef, Kind, Value, value, Schema, ObjectType, Field, find_field, find_type}
use spectre.Comparison.Json.{Json, null, list, object, elements, entries, deep_equal}
use spectre.Comparison.Path.{PathPart, DocumentPath, field, any_key, index, append_part, reported}
use spectre.Comparison.Differ.{
  RawDifference, same_difference, Differ, new_differ, max_differences, add_difference, add, member,
  declared_member, list_element, sorted_keys, Comparer, diff_item, diff_keys, diff_indexes,
  diff_unequal, diff, collect, optional_depth,
}

-- The fields that the types of a schema declare.
abbrev pub field_names : List Field → List Text
field_names [] = []
field_names (f ∷ fs) = f.name ∷ field_names fs

abbrev pub names_of : List (TypeRef × ObjectType) → List Text
names_of [] = []
names_of ((name, t) ∷ types) = field_names t.fields ++ names_of types

abbrev pub declared_names : Option Schema → List Text
declared_names none = []
declared_names (some s) = names_of s.types

-- A part quotes no payload: it is an index, the wildcard, or a declared field.
abbrev pub IsDeclared : Option Schema → PathPart → Type 0
IsDeclared loaded (field name) = contains name (declared_names loaded) ≡ true
IsDeclared loaded any_key = Unit
IsDeclared loaded (index i) = Unit

find_field-contains :
    (key : Text) (fs : List Field) (f : Field)
    → find_field key fs ≡ some f
    → contains key (field_names fs) ≡ true
find_field-contains key [] f h = cc
find_field-contains key (g ∷ fs) f h = ground (arith, find_field-contains key fs f)

lookup-names_of :
    (name key : Text) (types : List (TypeRef × ObjectType)) (t : ObjectType) (f : Field)
    → lookup name types ≡ some t
    → find_field key t.fields ≡ some f
    → contains key (names_of types) ≡ true
unfolding lookup
lookup-names_of name key [] t f h e = cc
lookup-names_of name key ((other, u) ∷ types) t f h e = ground (
  arith,
  contains-append key (field_names u.fields) (names_of types),
  find_field-contains key t.fields f e,
  lookup-names_of name key types t f,
)

append-IsDeclared :
    (loaded : Option Schema) (p : DocumentPath) (part : PathPart)
    → All (IsDeclared loaded) p
    → IsDeclared loaded part
    → All (IsDeclared loaded) (append_part p part)
append-IsDeclared loaded p part h e = All-last (IsDeclared loaded) p part e h

member-field :
    (s : Schema) (p : DocumentPath) (t : ObjectType) (name key : Text) (o : Option Field)
    → All (IsDeclared (some s)) p
    → find_type s name ≡ some t
    → find_field key t.fields ≡ o
    → All (IsDeclared (some s)) (
        let r : DocumentPath × Option Value = elim o [
          | none ↦ (append_part p any_key, none)
          | some f ↦ (append_part p (field key), some f.value)
        ] in
        r.0)
member-field s p t name key none h e f = append-IsDeclared (some s) p any_key h tt
member-field s p t name key (some f) h e i =
    append-IsDeclared (some s) p (field key) h (lookup-names_of name key s.types t f e i)

member-IsDeclared :
    (loaded : Option Schema) (p : DocumentPath) (v : Option Value) (key : Text)
    → All (IsDeclared loaded) p
    → All (IsDeclared loaded) (member loaded p v key).0
unfolding member
member-IsDeclared loaded p none key h = append-IsDeclared loaded p any_key h tt
member-IsDeclared none p (some (value Kind.object ls e t)) key h =
    append-IsDeclared none p any_key h tt
member-IsDeclared (some s) p (some (value Kind.object ls e t)) key h =
    elim (Option-cases (find_type s t)) [
      | inl absent ↦ rw (absent, declared_member) (append-IsDeclared (some s) p any_key h tt)
      | inr (u, found) ↦
          rw (found, declared_member)
            (member-field s p u t key (find_field key u.fields) h found refl)
    ]
member-IsDeclared loaded p (some (value _ ls e t)) key h = append-IsDeclared loaded p any_key h tt

module _ (quote : Text → Text) (loaded : Option Schema) where
  abbrev pub IsNamed : RawDifference → Type 0
  IsNamed d = (p : DocumentPath) × All (IsDeclared loaded) p × (d.path ≡ reported quote p)

  abbrev pub AllNamed : Differ → Type 0
  AllNamed d = All IsNamed d.differences

  add_difference-IsNamed :
      (ds : List RawDifference) (p : DocumentPath) (change : Change) (retype : Option Retype)
      → All (IsDeclared loaded) p
      → All IsNamed ds
      → All IsNamed (add_difference ds (reported quote p) change retype)
  unfolding add_difference
  add_difference-IsNamed [] p kind retype h all = ((p, h, refl), tt)
  add_difference-IsNamed (d ∷ ds) p kind retype h all =
      elim (Bool-cases (same_difference d (reported quote p) kind retype)) [
        | inl same ↦ rw same all
        | inr other ↦ rw other (all.0, add_difference-IsNamed ds p kind retype h all.1)
      ]

  add-named :
      (d : Differ) (p : DocumentPath) (change : Change) (r c : Json)
      → All (IsDeclared loaded) p
      → AllNamed d
      → AllNamed (add d (reported quote p) change r c)
  unfolding add
  add-named d p kind r c h all = add_difference-IsNamed d.differences p kind _ h all

  abbrev Keeps : Comparer quote loaded → Type 0
  Keeps rec =
      (d : Differ) (r c : Json) (p : DocumentPath) (v : Option Value)
      → All (IsDeclared loaded) p
      → AllNamed d
      → AllNamed (rec d r c p v)

  module _ (rec : Comparer quote loaded) (keeps : Keeps rec) where
    item-named :
        (d : Differ) (r c : Option Json) (p : DocumentPath) (v : Option Value)
        → All (IsDeclared loaded) p
        → AllNamed d
        → AllNamed (diff_item quote loaded rec d r c p v)
    unfolding diff_item
    item-named d (some r) none p v h all = add-named d p _ null null h all
    item-named d none (some c) p v h all = add-named d p _ null null h all
    item-named d (some r) (some c) p v h all = keeps d r c p v h all
    item-named d none none p v h all = keeps d null null p v h all

    keys-named :
        (ks : List Text) (d : Differ) (ms ns : List (Text × Json)) (p : DocumentPath)
        (v : Option Value)
        → All (IsDeclared loaded) p
        → AllNamed d
        → AllNamed (diff_keys quote loaded rec ks d ms ns p v)
    unfolding diff_keys
    keys-named [] d ms ns p v h all = all
    keys-named (k ∷ ks) d ms ns p v h all = keys-named ks _ ms ns p v h (
        item-named d (lookup k ms) (lookup k ns) (member loaded p v k).0 (member loaded p v k).1
          (member-IsDeclared loaded p v k h) all)

    indexes-named :
        (rounds i : ℕ) (d : Differ) (xs ys : List Json) (p : DocumentPath) (w : Option Value)
        → All (IsDeclared loaded) p
        → AllNamed d
        → AllNamed (diff_indexes quote loaded rec rounds i d xs ys p w)
    unfolding diff_indexes
    indexes-named zero i d xs ys p w h all = all
    indexes-named (suc rounds) i d xs ys p w h all = indexes-named rounds (suc i) _ xs ys p w h (
        item-named d (get_elem? xs i) (get_elem? ys i) (append_part p (index i)) w
          (append-IsDeclared loaded p (index i) h tt) all)

    unequal-named : Keeps (diff_unequal quote loaded rec)
    unfolding diff_unequal
    unequal-named d (object ms) (object ns) p v h all =
        keys-named (sorted_keys (entries ms) (entries ns)) d (entries ms) (entries ns) p v h all
    unequal-named d (list xs) (list ys) p v h all =
        indexes-named (max (length (elements xs)) (length (elements ys))) 0 d (elements xs)
          (elements ys) p (list_element v) h all
    unequal-named d r c p v h all = add-named d p _ _ _ h all

  diff-named : (fuel : ℕ) → Keeps (diff quote loaded fuel)
  unfolding diff
  diff-named zero d r c p v h all = all
  diff-named (suc fuel) d r c p v h all =
      elim (Bool-cases (leb max_differences (length d.differences))) [
        | inl full ↦ rw (full, diff) all
        | inr room ↦ elim (Bool-cases (deep_equal r c)) [
          | inl same ↦ rw (room, same, diff) all
          | inr other ↦
              rw (room, other, diff)
                (unequal-named (diff quote loaded fuel) (diff-named fuel) d r c p v h all)
        ]
      ]

  -- Every difference that the comparison collects stands at a path whose names are declared fields:
  -- a key of the payload that the schema does not declare is never in it.
  pub collect-named :
      (root : Option Value) (r c : Option Json) → AllNamed (collect quote loaded root r c)
  unfolding collect
  collect-named root r c =
      item-named (diff quote loaded (suc (optional_depth quote loaded r)))
        (diff-named (suc (optional_depth quote loaded r))) new_differ r c [] root tt tt
