-- ===== src/Schema/Construct/Closed.antt =====
-- internal/schema/schema.go: a schema that `New` returns is closed.
use spectre.Prelude.{
  ℕ, zero, suc, ◌≡◌, refl, sym, ap, Bool, true, false, Option, none, some, List, [], ◌∷◌, Text,
  text_eq, ◌==◌, contains, is_some, get_elem?, arith, if◌then◌else◌, Bool-cases, inl, inr, ◌⊎◌,
  Result, ok, failed, bind-ok, wrapping,
}
use spectre.Prelude.Assoc.{lookup, insert, lookup-insert}
use spectre.Schema.{
  TypeRef, string, number, boolean, enum, object, list, map, Value, value, Element, no_element,
  element, Field, ObjectType, Operation, Schema, find_type,
}
use spectre.Schema.Construct.{
  SchemaError, in_field, not_declared, check_element, index_types, index_operations, check_value,
  check_fields, check_types, check_operations, new_schema,
}

-- A type's fields have values that `checkValue` accepts.
abbrev pub HasCheckedFields : Schema → ObjectType → Type 0
HasCheckedFields s d =
    (i : ℕ) (f : Field) → get_elem? d.fields i ≡ some f → check_value s f.value ≡ ok tt

abbrev pub IsChecked : Schema → Type 0
IsChecked s = (t : TypeRef) (d : ObjectType) → find_type s t ≡ some d → HasCheckedFields s d

unwrapped :
    (e : SchemaError → SchemaError) (r : Result SchemaError (Unit {0}))
    → wrapping e r ≡ ok tt
    → r ≡ ok tt
unwrapped e (ok u) h = refl
unwrapped e (failed w) h = cc

fresh_name :
    (seen : Bool) (e : SchemaError) (next : Result SchemaError (Unit {0}))
    → (if seen then failed e else next) ≡ ok tt
    → next ≡ ok tt
fresh_name true e next h = cc
fresh_name false e next h = h

fields_closed :
    (s : Schema) (t : TypeRef) (names : List Text) (fs : List Field)
    → check_fields s t names fs ≡ ok tt
    → (i : ℕ) (f : Field) → get_elem? fs i ≡ some f
    → check_value s f.value ≡ ok tt
unfolding check_fields
fields_closed s t names [] h i f g = cc
fields_closed s t names (d ∷ fs) h zero f g =
    let next = fresh_name (contains d.name names) _ _ h in
    let (u, first, rest) =
      bind-ok (wrapping (in_field d.name t) (check_value s d.value)) _ tt next in
    let same : d ≡ f = cc in
    rw (sym same) (unwrapped (in_field d.name t) (check_value s d.value) first)
fields_closed s t names (d ∷ fs) h (suc i) f g =
    let next = fresh_name (contains d.name names) _ _ h in
    let (u, first, rest) =
      bind-ok (wrapping (in_field d.name t) (check_value s d.value)) _ tt next in
    fields_closed s t (d.name ∷ names) fs rest i f g

types_closed :
    (s : Schema) (ds : List ObjectType)
    → check_types s ds ≡ ok tt
    → (i : ℕ) (d : ObjectType) → get_elem? ds i ≡ some d
    → HasCheckedFields s d
unfolding check_types
types_closed s [] h i d g = cc
types_closed s (c ∷ ds) h zero d g =
    let (u, first, rest) = bind-ok (check_fields s c.name [] c.fields) _ tt h in
    let same : c ≡ d = cc in rw (sym same) (fields_closed s c.name [] c.fields first)
types_closed s (c ∷ ds) h (suc i) d g =
    let (u, first, rest) = bind-ok (check_fields s c.name [] c.fields) _ tt h in
    types_closed s ds rest i d g

not_twice :
    (seen : Bool) (e : SchemaError) (next : Result SchemaError (List (TypeRef × ObjectType)))
    (types : List (TypeRef × ObjectType))
    → (if seen then failed e else next) ≡ ok types
    → next ≡ ok types
not_twice true e next types h = cc
not_twice false e next types h = h

-- Every indexed type is one of the list, or was indexed before.
indexed_from :
    (ds : List ObjectType) (before types : List (TypeRef × ObjectType))
    → index_types ds before ≡ ok types
    → (t : TypeRef) (d : ObjectType) → lookup t types ≡ some d
    → (lookup t before ≡ some d) ⊎ ((i : ℕ) × (get_elem? ds i ≡ some d))
unfolding index_types
indexed_from [] before types h t d found = inl (let same : before ≡ types = cc in rw same found)
indexed_from (c ∷ ds) before types h t d found =
    let next = not_twice (is_some (lookup c.name before)) _ _ types h in
    elim (indexed_from ds (insert c.name c before) types next t d found) [
      | inl earlier ↦ elim (Bool-cases (c.name == t)) [
        | inl same ↦ inr (0, ground (arith, earlier, same, lookup-insert c.name t c before))
        | inr other ↦ inl (ground (arith, earlier, other, lookup-insert c.name t c before))
      ]
      | inr (i, g) ↦ inr (suc i, g)
    ]

pub new-IsChecked :
    (types : List ObjectType) (operations : List Operation) (s : Schema)
    → new_schema types operations ≡ ok s
    → IsChecked s
unfolding new_schema lookup
new-IsChecked types operations s h t d found i f g =
    let (indexed, is_indexed, more) = bind-ok (index_types types []) _ s h in
    let (named, is_named, rest) = bind-ok (index_operations operations []) _ s more in
    let loaded : Schema = record { types = indexed; operations = named } in
    let (u, fields, others) = bind-ok (check_types loaded types) _ s rest in
    let (v, refer, same) = bind-ok (check_operations loaded operations) _ s others in
    let is : loaded ≡ s = cc in
    let types_are : indexed ≡ s.types = ap (λ (x : Schema). x.types) is in
    let found_there : lookup t indexed ≡ some d = rw types_are found in
    elim (indexed_from types [] indexed is_indexed t d found_there) [
      | inl nothing ↦ cc
      | inr (j, at) ↦ rw (sym is) (types_closed loaded types fields j d at i f g)
    ]

-- A value whose references resolve: an object is of a type that the schema declares, a list or a map has
-- elements that resolve, and an enumeration has literals.
pub data IsResolved (s : Schema) : Value → Type 0 where
  object_resolves :
      (ls : List Text) (e : Element) (t : TypeRef) (d : ObjectType)
      → find_type s t ≡ some d
      → IsResolved s (value object ls e t)
  list_resolves :
      (ls : List Text) (w : Value) (t : TypeRef)
      → IsResolved s w
      → IsResolved s (value list ls (element w) t)
  map_resolves :
      (ls : List Text) (w : Value) (t : TypeRef)
      → IsResolved s w
      → IsResolved s (value map ls (element w) t)
  enum_resolves :
      (l : Text) (ls : List Text) (e : Element) (t : TypeRef)
      → IsResolved s (value enum (l ∷ ls) e t)
  string_resolves :
      (ls : List Text) (e : Element) (t : TypeRef) → IsResolved s (value string ls e t)
  number_resolves :
      (ls : List Text) (e : Element) (t : TypeRef) → IsResolved s (value number ls e t)
  boolean_resolves :
      (ls : List Text) (e : Element) (t : TypeRef) → IsResolved s (value boolean ls e t)

abbrev passed : Result SchemaError (Unit {0})
passed = ok tt

found_type :
    (o : Option ObjectType) (e : SchemaError)
    → (if is_some o then ok tt else failed e) ≡ passed
    → (d : ObjectType) × (o ≡ some d)
found_type none e h = cc
found_type (some d) e h = (d, refl)

checked-IsResolved : (s : Schema) (v : Value) → check_value s v ≡ ok tt → IsResolved s v
unfolding check_value check_element
checked-IsResolved s (value object ls e t) h =
    let (d, found) = found_type (find_type s t) (not_declared t) h in object_resolves ls e t d found
checked-IsResolved s (value list ls no_element t) h = cc
checked-IsResolved s (value list ls (element w) t) h =
    list_resolves ls w t (checked-IsResolved s w h)
checked-IsResolved s (value map ls no_element t) h = cc
checked-IsResolved s (value map ls (element w) t) h = map_resolves ls w t (checked-IsResolved s w h)
checked-IsResolved s (value enum [] e t) h = cc
checked-IsResolved s (value enum (l ∷ ls) e t) h = enum_resolves l ls e t
checked-IsResolved s (value string ls e t) h = string_resolves ls e t
checked-IsResolved s (value number ls e t) h = number_resolves ls e t
checked-IsResolved s (value boolean ls e t) h = boolean_resolves ls e t

abbrev pub IsClosed : Schema → Type 0
IsClosed s =
    (t : TypeRef) (d : ObjectType)
    → find_type s t ≡ some d
    → (i : ℕ) (f : Field) → get_elem? d.fields i ≡ some f
    → IsResolved s f.value

-- In a schema that `New` returns, every field of every type has a value whose references resolve: an
-- object is of a type that the schema declares, a list or a map has elements that resolve, and an
-- enumeration has literals.
pub new-IsClosed :
    (types : List ObjectType) (operations : List Operation) (s : Schema)
    → new_schema types operations ≡ ok s
    → IsClosed s
new-IsClosed types operations s h t d found i f at =
    checked-IsResolved s f.value (new-IsChecked types operations s h t d found i f at)
