-- ===== src/Schema/Construct/Mild.antt =====
-- internal/schema/schema.go: against a schema that `New` returns, `Validate` finds fault with payloads
-- alone.
use spectre.Prelude.{
  ℕ, zero, suc, ◌≡◌, refl, Bool, true, false, Option, none, some, List, [], ◌∷◌, ◌++◌, Text, text,
  text_eq, contains, is_some, get_elem?, arith, if◌then◌else◌, Bool-cases, inl, inr, ok, failed,
  ◌>>=◌,
}
use spectre.Prelude.Assoc.{lookup, keys}
use spectre.Comparison.Json.{Json, boolean, number, string, list, object, elements, entries}
use spectre.Comparison.Differ.{sort}
use spectre.Schema.{
  TypeRef, Kind, enum, map, Value, value, no_element, element, Field, ObjectType, Operation,
  find_field, Schema, find_type,
}
use spectre.Schema.Construct.{check_value, new_schema}
use spectre.Schema.Validate.{
  ValidationError, no_element_type, undeclared_type, missing_field, Checked, Validator, at_index,
  validate_items, validate_entry, validate_entries, check_declared, validate_field, validate_fields,
  validate_declared, validate_object, validate_by, validate_from, validate,
}
use spectre.Schema.Construct.Closed.{IsChecked, new-IsChecked}

-- Whether an error is about the schema, and not about the payload.
abbrev pub is_about_schema : ValidationError → Bool
is_about_schema (no_element_type path kind) = true
is_about_schema (undeclared_type path name) = true
is_about_schema _ = false

-- A check that finds no fault with the schema.
abbrev pub IsMild : Checked → Type 0
IsMild (ok u) = Unit
IsMild (failed e) = is_about_schema e ≡ false

bind-IsMild :
    (tried : Checked) (next : Unit {0} → Checked)
    → IsMild tried
    → ((u : Unit {0}) → IsMild (next u))
    → IsMild (tried >>= next)
bind-IsMild (ok u) next h more = more u
bind-IsMild (failed e) next h more = h

if-IsMild :
    (b : Bool) (e : ValidationError)
    → is_about_schema e ≡ false
    → IsMild (if b then ok tt else failed e)
if-IsMild true e h = tt
if-IsMild false e h = h

declared-IsMild :
    (t : TypeRef) (fields : List Field) (ks : List Text) (path : Text)
    → IsMild (check_declared t fields ks path)
unfolding check_declared
declared-IsMild t fields [] path = tt
declared-IsMild t fields (k ∷ ks) path = elim (Bool-cases (is_some (find_field k fields))) [
  | inl found ↦ rw found (declared-IsMild t fields ks path)
  | inr missing ↦ rw missing refl
]

module _ (s : Schema) (closed : IsChecked s) where
  abbrev AllMild : Validator → Type 0
  AllMild rec =
      (w : Value) (x : Json) (path : Text) → check_value s w ≡ ok tt → IsMild (rec w x path)

  module _ (rec : Validator) (mild : AllMild rec) where
    items-IsMild :
        (w : Value) (i : ℕ) (xs : List Json) (path : Text)
        → check_value s w ≡ ok tt
        → IsMild (validate_items rec w i xs path)
    unfolding validate_items
    items-IsMild w i [] path h = tt
    items-IsMild w i (x ∷ xs) path h =
        bind-IsMild (rec w x (at_index path i)) _ (mild w x (at_index path i) h)
          (λ u. items-IsMild w (suc i) xs path h)

    entry-IsMild :
        (w : Value) (o : Option Json) (path : Text)
        → check_value s w ≡ ok tt
        → IsMild (validate_entry rec w o path)
    entry-IsMild w none path h = tt
    entry-IsMild w (some x) path h = mild w x (path ++ text "[*]") h

    entries-IsMild :
        (w : Value) (ks : List Text) (ms : List (Text × Json)) (path : Text)
        → check_value s w ≡ ok tt
        → IsMild (validate_entries rec w ks ms path)
    unfolding validate_entries
    entries-IsMild w [] ms path h = tt
    entries-IsMild w (k ∷ ks) ms path h =
        bind-IsMild (validate_entry rec w (lookup k ms) path) _
          (entry-IsMild w (lookup k ms) path h) (λ u. entries-IsMild w ks ms path h)

    field-IsMild :
        (t : TypeRef) (f : Field) (o : Option Json) (path : Text)
        → check_value s f.value ≡ ok tt
        → IsMild (validate_field rec t f o path)
    field-IsMild t f none path h = if-IsMild f.optional (missing_field path f.name t) refl
    field-IsMild t f (some x) path h = mild f.value x (path ++ (text "." ++ f.name)) h

    fields-IsMild :
        (t : TypeRef) (fs : List Field) (ms : List (Text × Json)) (path : Text)
        → ((i : ℕ) (f : Field) → get_elem? fs i ≡ some f → check_value s f.value ≡ ok tt)
        → IsMild (validate_fields rec t fs ms path)
    unfolding validate_fields
    fields-IsMild t [] ms path h = tt
    fields-IsMild t (f ∷ fs) ms path h =
        bind-IsMild (validate_field rec t f (lookup f.name ms) path) _
          (field-IsMild t f (lookup f.name ms) path (h 0 f refl))
          (λ u. fields-IsMild t fs ms path (λ i. h (suc i)))

    object-IsMild :
        (t : TypeRef) (o : Option ObjectType) (ms : List (Text × Json)) (path : Text)
        → find_type s t ≡ o
        → is_some o ≡ true
        → IsMild (validate_declared s rec t o ms path)
    object-IsMild t none ms path is there = cc
    object-IsMild t (some d) ms path is there =
        bind-IsMild (check_declared t d.fields (sort (keys ms)) path) _
          (declared-IsMild t d.fields (sort (keys ms)) path)
          (λ u. fields-IsMild t d.fields ms path (closed t d is))

    by-IsMild :
        (w : Value) (x : Json) (path : Text)
        → check_value s w ≡ ok tt
        → IsMild (validate_by s rec w x path)
    unfolding validate_by validate_object check_value
    by-IsMild (value Kind.number ls e t) (string v) path h = if-IsMild (contains v ls) _ refl
    by-IsMild (value enum ls e t) (string v) path h = if-IsMild (contains v ls) _ refl
    by-IsMild (value Kind.list ls no_element t) x path h = cc
    by-IsMild (value Kind.list ls (element w) t) (list xs) path h =
        items-IsMild w 0 (elements xs) path h
    by-IsMild (value map ls no_element t) x path h = cc
    by-IsMild (value map ls (element w) t) (object ms) path h =
        entries-IsMild w (sort (keys (entries ms))) (entries ms) path h
    by-IsMild (value Kind.object ls e t) (object ms) path h =
        object-IsMild t (find_type s t) (entries ms) path refl (ground (arith, h))
    by-IsMild (value Kind.string ls e t) (string v) path h = tt
    by-IsMild (value Kind.number ls e t) (number n) path h = tt
    by-IsMild (value Kind.boolean ls e t) (boolean b) path h = tt
    by-IsMild _ _ path h = refl

  from-IsMild : (fuel : ℕ) → AllMild (validate_from s fuel)
  unfolding validate_from
  from-IsMild zero w x path h = refl
  from-IsMild (suc fuel) w x path h = by-IsMild (validate_from s fuel) (from-IsMild fuel) w x path h

closed-IsMild :
    (s : Schema) (fuel : ℕ) (name : TypeRef) (x : Json)
    → IsChecked s
    → is_some (find_type s name) ≡ true
    → IsMild (validate s fuel name x)
unfolding validate check_value
closed-IsMild s fuel name x closed there =
    from-IsMild s closed fuel (value Kind.object [] no_element name) x (text "$") (rw there refl)

-- A payload that is checked against a type of a schema that `New` has returned is found fault with
-- only for what it holds: no reference of the schema fails to resolve, and no list or map lacks the
-- type of its elements.
pub validate-IsMild :
    (types : List ObjectType) (operations : List Operation) (s : Schema) (fuel : ℕ) (name : TypeRef)
    (x : Json)
    → new_schema types operations ≡ ok s
    → is_some (find_type s name) ≡ true
    → IsMild (validate s fuel name x)
validate-IsMild types operations s fuel name x h =
    closed-IsMild s fuel name x (new-IsChecked types operations s h)
