-- ===== src/Schema/Validate/Instance.antt =====
-- internal/schema/schema.go: a payload passes `Validate` exactly if it is an instance of its type.
use mathlib.Core.Path.{subst}
use spectre.Prelude.{
  ℕ, zero, suc, ◌≡◌, refl, sym, Bool, true, Option, none, some, List, [], ◌∷◌, ◌++◌, Text, text,
  text_eq, ◌==◌, eq_iff, contains, is_some, arith, get_elem?, ok, bind-ok, Bool-cases, inl, inr,
}
use spectre.Prelude.Assoc.{lookup, keys}
use spectre.Comparison.Json.{
  Json, boolean, number, string, list, object, Items, Members, elements, entries,
}
use spectre.Comparison.Differ.{sort}
use spectre.Comparison.Differ.Keys.{contains-sort, contains-keys}
use spectre.Schema.{
  TypeRef, Kind, enum, map, Value, value, Element, element, Field, ObjectType, find_field, Schema,
  find_type,
}
use spectre.Schema.Validate.{
  Validator, at_index, validate_items, validate_entries, validate_entry, check_declared,
  validate_field, validate_fields, validate_declared, validate_object, validate_by, validate_from,
}

module _ (loaded : Schema) where
  -- The values of a type: a number may be one of its named literals, and an object has no field that
  -- its type does not declare, every field that is not optional, and in each a value of its type.
  pub data IsInstance : Value → Json → Type 0 where
    is_string :
        {ls : List Text} {e : Element} {t : TypeRef} (s : Text)
        → IsInstance (value Kind.string ls e t) (string s)
    is_number :
        {ls : List Text} {e : Element} {t : TypeRef} (n : ℕ)
        → IsInstance (value Kind.number ls e t) (number n)
    is_number_literal :
        {ls : List Text} {e : Element} {t : TypeRef} (s : Text)
        → contains s ls ≡ true
        → IsInstance (value Kind.number ls e t) (string s)
    is_boolean :
        {ls : List Text} {e : Element} {t : TypeRef} (b : Bool)
        → IsInstance (value Kind.boolean ls e t) (boolean b)
    is_literal :
        {ls : List Text} {e : Element} {t : TypeRef} (s : Text)
        → contains s ls ≡ true
        → IsInstance (value enum ls e t) (string s)
    is_list :
        {ls : List Text} {t : TypeRef} (w : Value) (xs : Items)
        → ((i : ℕ) (x : Json) → get_elem? (elements xs) i ≡ some x → IsInstance w x)
        → IsInstance (value Kind.list ls (element w) t) (list xs)
    is_map :
        {ls : List Text} {t : TypeRef} (w : Value) (ms : Members)
        → ((k : Text) (x : Json) → lookup k (entries ms) ≡ some x → IsInstance w x)
        → IsInstance (value map ls (element w) t) (object ms)
    is_object :
        {ls : List Text} {e : Element} {t : TypeRef} (declared : ObjectType) (ms : Members)
        → find_type loaded t ≡ some declared
        → ((k : Text)
            → is_some (lookup k (entries ms)) ≡ true
            → is_some (find_field k declared.fields) ≡ true)
        → ((i : ℕ) (f : Field)
            → get_elem? declared.fields i ≡ some f
            → lookup f.name (entries ms) ≡ none
            → f.optional ≡ true)
        → ((i : ℕ) (f : Field) (x : Json)
            → get_elem? declared.fields i ≡ some f
            → lookup f.name (entries ms) ≡ some x
            → IsInstance f.value x)
        → IsInstance (value Kind.object ls e t) (object ms)

  -- The values that a validator passes are instances.
  abbrev IsSound : Validator → Type 0
  IsSound rec = (w : Value) (x : Json) (path : Text) → rec w x path ≡ ok tt → IsInstance w x

  module _ (rec : Validator) (sound : IsSound rec) where
    items_sound :
        (w : Value) (i : ℕ) (xs : List Json) (path : Text)
        → validate_items rec w i xs path ≡ ok tt
        → (j : ℕ) (x : Json) → get_elem? xs j ≡ some x
        → IsInstance w x
    unfolding validate_items
    items_sound w i [] path h j x g = cc
    items_sound w i (y ∷ xs) path h zero x g =
        let (u, first, rest) = bind-ok (rec w y (at_index path i)) _ tt h in
        let same : y ≡ x = cc in rw (sym same) (sound w y (at_index path i) first)
    items_sound w i (y ∷ xs) path h (suc j) x g =
        let (u, first, rest) = bind-ok (rec w y (at_index path i)) _ tt h in
        items_sound w (suc i) xs path rest j x g

    entry_sound :
        (w : Value) (o : Option Json) (path : Text)
        → validate_entry rec w o path ≡ ok tt
        → (x : Json) → o ≡ some x
        → IsInstance w x
    entry_sound w none path h x e = cc
    entry_sound w (some y) path h x e =
        let same : y ≡ x = cc in rw (sym same) (sound w y (path ++ text "[*]") h)

    entries_sound :
        (w : Value) (ks : List Text) (ms : List (Text × Json)) (path : Text)
        → validate_entries rec w ks ms path ≡ ok tt
        → (k : Text) (x : Json) → contains k ks ≡ true
        → lookup k ms ≡ some x
        → IsInstance w x
    unfolding validate_entries
    entries_sound w [] ms path h k x c g = cc
    entries_sound w (j ∷ ks) ms path h k x c g =
        let (u, first, rest) = bind-ok (validate_entry rec w (lookup j ms) path) _ tt h in
        elim (Bool-cases (j == k)) [
          | inl same ↦
              let j_is : j ≡ k = (eq_iff j k).0 same in
              entry_sound w (lookup j ms) path first x (rw j_is g)
          | inr other ↦ entries_sound w ks ms path rest k x (ground (arith, c, other)) g
        ]

    declared_sound :
        (name : TypeRef) (fields : List Field) (ks : List Text) (path : Text)
        → check_declared name fields ks path ≡ ok tt
        → (k : Text) → contains k ks ≡ true
        → is_some (find_field k fields) ≡ true
    unfolding check_declared
    declared_sound name fields [] path h k c = cc
    declared_sound name fields (j ∷ ks) path h k c =
        elim (Bool-cases (is_some (find_field j fields))) [
          | inl found ↦ elim (Bool-cases (j == k)) [
            | inl same ↦ let j_is : j ≡ k = (eq_iff j k).0 same in rw (sym j_is) found
            | inr other ↦
                declared_sound name fields ks path (ground (arith, h, found)) k
                  (ground (arith, c, other))
          ]
          | inr missing ↦ ground (arith, h, missing)
        ]

    FieldIsSound : Field → Option Json → Type 0
    FieldIsSound f o =
        (o ≡ none → f.optional ≡ true) × ((x : Json) → o ≡ some x → IsInstance f.value x)

    field_sound :
        (name : TypeRef) (f : Field) (o : Option Json) (path : Text)
        → validate_field rec name f o path ≡ ok tt
        → FieldIsSound f o
    unfolding FieldIsSound
    field_sound name f none path h = (λ e. ground (arith, h), λ x e. cc)
    field_sound name f (some y) path h = (
      λ e. cc,
      λ x e.
          let same : y ≡ x = cc in rw (sym same) (sound f.value y (path ++ (text "." ++ f.name)) h),
    )

    fields_sound :
        (name : TypeRef) (fs : List Field) (ms : List (Text × Json)) (path : Text)
        → validate_fields rec name fs ms path ≡ ok tt
        → (i : ℕ) (f : Field) → get_elem? fs i ≡ some f
        → FieldIsSound f (lookup f.name ms)
    unfolding validate_fields
    fields_sound name [] ms path h i f g = cc
    fields_sound name (d ∷ fs) ms path h zero f g =
        let (u, first, rest) = bind-ok (validate_field rec name d (lookup d.name ms) path) _ tt h in
        let same : d ≡ f = cc in
        subst (λ v. FieldIsSound v (lookup v.name ms)) same
          (field_sound name d (lookup d.name ms) path first)
    fields_sound name (d ∷ fs) ms path h (suc i) f g =
        let (u, first, rest) = bind-ok (validate_field rec name d (lookup d.name ms) path) _ tt h in
        fields_sound name fs ms path rest i f g

    object_sound :
        (ls : List Text) (e : Element) (t : TypeRef) (o : Option ObjectType) (ms : Members)
        (path : Text)
        → find_type loaded t ≡ o
        → validate_declared loaded rec t o (entries ms) path ≡ ok tt
        → IsInstance (value Kind.object ls e t) (object ms)
    unfolding FieldIsSound
    object_sound ls e t none ms path is h = cc
    object_sound ls e t (some d) ms path is h =
        let (u, first, rest) =
          bind-ok (check_declared t d.fields (sort (keys (entries ms))) path) _ tt h in
        is_object d ms is
          (λ k c.
            declared_sound t d.fields (sort (keys (entries ms))) path first k (
              ground (arith, c, contains-sort k (keys (entries ms)), contains-keys k (entries ms))))
          (λ i f g. (fields_sound t d.fields (entries ms) path rest i f g).0)
          (λ i f x g. (fields_sound t d.fields (entries ms) path rest i f g).1 x)

    by_sound :
        (w : Value) (x : Json) (path : Text)
        → validate_by loaded rec w x path ≡ ok tt
        → IsInstance w x
    unfolding validate_by validate_object
    by_sound (value Kind.string ls e t) (string s) path h = is_string s
    by_sound (value Kind.number ls e t) (number n) path h = is_number n
    by_sound (value Kind.number ls e t) (string s) path h = is_number_literal s (ground (arith, h))
    by_sound (value Kind.boolean ls e t) (boolean b) path h = is_boolean b
    by_sound (value enum ls e t) (string s) path h = is_literal s (ground (arith, h))
    by_sound (value Kind.list ls (element w) t) (list xs) path h =
        is_list w xs (items_sound w 0 (elements xs) path h)
    by_sound (value map ls (element w) t) (object ms) path h = is_map w ms (λ k x g.
        entries_sound w (sort (keys (entries ms))) (entries ms) path h k x
          (ground (arith, g, contains-sort k (keys (entries ms)), contains-keys k (entries ms))) g)
    by_sound (value Kind.object ls e t) (object ms) path h =
        object_sound ls e t (find_type loaded t) ms path refl h
    by_sound _ _ path h = cc

  pub from_IsSound : (fuel : ℕ) → IsSound (validate_from loaded fuel)
  unfolding validate_from
  from_IsSound zero w x path h = cc
  from_IsSound (suc fuel) w x path h =
      by_sound (validate_from loaded fuel) (from_IsSound fuel) w x path h
