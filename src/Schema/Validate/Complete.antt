-- ===== src/Schema/Validate/Complete.antt =====
-- internal/schema/schema.go: every instance of a type passes `Validate`, with fuel for its depth.
use spectre.Prelude.{
  ℕ, zero, suc, ◌<◌, ◌≡◌, refl, true, Option, none, some, List, [], ◌∷◌, ◌++◌, Text, text, text_eq,
  eq_refl, contains, is_some, arith, get_elem?, ok, ◌↔◌,
}
use spectre.Prelude.Assoc.{lookup, keys}
use spectre.Comparison.Json.{Json, Members, elements, entries, depth, IsWell}
use spectre.Comparison.Json.Laws.{lookup-WellMembers, get_elem?-WellItems}
use spectre.Comparison.Differ.{sort}
use spectre.Comparison.Differ.Keys.{contains-sort, contains-keys}
use spectre.Schema.{TypeRef, Kind, Value, value, no_element, Field, ObjectType, find_field, Schema}
use spectre.Schema.Validate.{
  Validator, at_index, validate_items, validate_entries, validate_entry, check_declared,
  validate_field, validate_fields, validate_object, validate_by, validate_from, validate,
}
use spectre.Schema.Validate.Instance.{
  IsInstance, is_string, is_number, is_number_literal, is_boolean, is_literal, is_list, is_map,
  is_object, from_IsSound,
}

module _ (rec : Validator) where
  -- A value that the validator passes wherever it stands.
  abbrev Passes : Value → Json → Type 0
  Passes w x = (path : Text) → rec w x path ≡ ok tt

  items_pass :
      (w : Value) (i : ℕ) (xs : List Json) (path : Text)
      → ((j : ℕ) (x : Json) → get_elem? xs j ≡ some x → Passes w x)
      → validate_items rec w i xs path ≡ ok tt
  unfolding validate_items
  items_pass w i [] path h = refl
  items_pass w i (x ∷ xs) path h =
      rw (h 0 x refl (at_index path i)) (items_pass w (suc i) xs path (λ j. h (suc j)))

  entry_pass :
      (w : Value) (o : Option Json) (path : Text)
      → ((x : Json) → o ≡ some x → Passes w x)
      → validate_entry rec w o path ≡ ok tt
  entry_pass w none path h = refl
  entry_pass w (some x) path h = h x refl (path ++ text "[*]")

  entries_pass :
      (w : Value) (ks : List Text) (ms : List (Text × Json)) (path : Text)
      → ((k : Text) (x : Json) → lookup k ms ≡ some x → Passes w x)
      → validate_entries rec w ks ms path ≡ ok tt
  unfolding validate_entries
  entries_pass w [] ms path h = refl
  entries_pass w (k ∷ ks) ms path h =
      rw (entry_pass w (lookup k ms) path (h k)) (entries_pass w ks ms path h)

  declared_pass :
      (name : TypeRef) (fields : List Field) (ks : List Text) (path : Text)
      → ((k : Text) → contains k ks ≡ true → is_some (find_field k fields) ≡ true)
      → check_declared name fields ks path ≡ ok tt
  unfolding check_declared
  declared_pass name fields [] path h = refl
  declared_pass name fields (k ∷ ks) path h =
      rw (h k (ground (arith, eq_refl k)))
        (declared_pass name fields ks path (λ j c. h j (ground (arith, c))))

  field_pass :
      (name : TypeRef) (f : Field) (o : Option Json) (path : Text)
      → (o ≡ none → f.optional ≡ true)
      → ((x : Json) → o ≡ some x → Passes f.value x)
      → validate_field rec name f o path ≡ ok tt
  field_pass name f none path absent present = rw (absent refl) refl
  field_pass name f (some x) path absent present = present x refl (path ++ (text "." ++ f.name))

  fields_pass :
      (name : TypeRef) (fs : List Field) (ms : List (Text × Json)) (path : Text)
      → ((i : ℕ) (f : Field)
          → get_elem? fs i ≡ some f
          → lookup f.name ms ≡ none
          → f.optional ≡ true)
      → ((i : ℕ) (f : Field) (x : Json)
          → get_elem? fs i ≡ some f
          → lookup f.name ms ≡ some x
          → Passes f.value x)
      → validate_fields rec name fs ms path ≡ ok tt
  unfolding validate_fields
  fields_pass name [] ms path absent present = refl
  fields_pass name (f ∷ fs) ms path absent present =
      rw (field_pass name f (lookup f.name ms) path (absent 0 f refl) (λ x. present 0 f x refl))
        (fields_pass name fs ms path (λ i. absent (suc i)) (λ i. present (suc i)))

module _ (loaded : Schema) where
  abbrev IsComplete : ℕ → Type 0
  IsComplete fuel =
      (w : Value) (x : Json)
      → IsInstance loaded w x
      → IsWell x
      → depth x < fuel
      → Passes (validate_from loaded fuel) w x

  keys_declared :
      (t : TypeRef) (d : ObjectType) (ms : Members) (path : Text)
      → ((k : Text)
          → is_some (lookup k (entries ms)) ≡ true
          → is_some (find_field k d.fields) ≡ true)
      → check_declared t d.fields (sort (keys (entries ms))) path ≡ ok tt
  keys_declared t d ms path declared =
      declared_pass (validate_from loaded 0) t d.fields (sort (keys (entries ms))) path (λ k c.
        declared k
          (ground (arith, c, contains-sort k (keys (entries ms)), contains-keys k (entries ms))))

  module _ (fuel : ℕ) (complete : IsComplete fuel) where
    step-IsComplete : IsComplete (suc fuel)
    unfolding validate_from validate_by validate_object depth
    step-IsComplete _ _ (is_string s) well lt path = refl
    step-IsComplete _ _ (is_number n) well lt path = refl
    step-IsComplete _ _ (is_number_literal s c) well lt path = rw c refl
    step-IsComplete _ _ (is_boolean b) well lt path = refl
    step-IsComplete _ _ (is_literal s c) well lt path = rw c refl
    step-IsComplete _ _ (is_list w xs each) well lt path =
        items_pass (validate_from loaded fuel) w 0 (elements xs) path (λ j x g.
          let (x_well, le) = get_elem?-WellItems j x xs well g in
          complete w x (each j x g) x_well (omega (arith, le, lt)))
    step-IsComplete _ _ (is_map w ms each) well lt path =
        entries_pass (validate_from loaded fuel) w (sort (keys (entries ms))) (entries ms) path
          (λ k x g.
            let (x_well, le) = lookup-WellMembers k x ms well.1 g in
            complete w x (each k x g) x_well (omega (arith, le, lt)))
    step-IsComplete (value Kind.object ls e t) _ (is_object d ms found declared absent present) well
          lt path =
        rw (found, keys_declared t d ms path declared)
          (fields_pass (validate_from loaded fuel) t d.fields (entries ms) path absent (λ i f x g l.
            let (x_well, le) = lookup-WellMembers f.name x ms well.1 l in
            complete f.value x (present i f x g l) x_well (omega (arith, le, lt))))

  from_IsComplete : (fuel : ℕ) → IsComplete fuel
  from_IsComplete zero w x i well lt path = absurd (omega (arith, lt))
  from_IsComplete (suc fuel) w x i well lt path =
      step-IsComplete fuel (from_IsComplete fuel) w x i well lt path

  -- A payload of JSON objects with distinct keys passes `Validate`, with fuel for its depth, exactly
  -- if it is an instance of the named type: every object in it has the required fields of its type
  -- and none that the type does not declare, and every value is of its declared kind, which rules out
  -- nulls.
  pub validate_lem :
      (fuel : ℕ) (name : TypeRef) (x : Json)
      → IsWell x
      → depth x < fuel
      → (validate loaded fuel name x ≡ ok tt)
        ↔ IsInstance loaded (value Kind.object [] no_element name) x
  unfolding validate
  validate_lem fuel name x well lt =
      let root = value Kind.object [] no_element name in
      (
        λ h. from_IsSound loaded fuel root x (text "$") h,
        λ i. from_IsComplete fuel root x i well lt (text "$"),
      )
