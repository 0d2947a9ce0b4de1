-- ===== src/Schema/Validate.antt =====
-- internal/schema/schema.go: `Validate`. A number is a float64, to which encoding/json decodes.
-- A schema that New or the parser builds has a type for each name, so a type is found by its name.
--
-- The recursion is on fuel: each call goes one level down into the payload, so its depth is enough.
pub mod Instance
pub mod Complete
pub mod Tests
use spectre.Prelude.{
  ℕ, zero, suc, ◌+◌, Bool, true, false, not, Option, none, some, List, [], ◌∷◌, ◌++◌, Text, text,
  text_eq, ◌==◌, contains, is_some, if◌then◌else◌, decimal, Result, ok, failed, ◌>>=◌,
}
use spectre.Prelude.Assoc.{lookup, keys}
use spectre.Model.{JsonType}
use spectre.Comparison.Json.{
  Json, null, boolean, number, string, list, object, elements, entries, json_type,
}
use spectre.Comparison.Differ.{sort}
use spectre.Schema.{
  TypeRef, Kind, enum, map, Value, value, no_element, element, Field, ObjectType, find_field,
  Schema, find_type,
}

-- The errors, each with the path of the value. What the value itself holds is in none of them.
pub data ValidationError : Type 0 where
  not_a_literal : Text → Value → ValidationError
  no_element_type : Text → Kind → ValidationError
  unexpected : Text → Value → JsonType → ValidationError
  undeclared_type : Text → TypeRef → ValidationError
  undeclared_field : Text → TypeRef → ValidationError
  missing_field : Text → Text → TypeRef → ValidationError
  out_of_fuel : ValidationError

abbrev pub Checked : Type 0
Checked = Result ValidationError (Unit {0})

-- `validate` of a value that is part of the payload.
abbrev pub Validator : Type 0
Validator = Value → Json → Text → Checked

-- `path+"["+strconv.Itoa(index)+"]"`.
abbrev pub at_index : Text → ℕ → Text
at_index path i = path ++ (text "[" ++ (decimal i ++ text "]"))

-- The loop over the elements of an array.
unfoldable pub validate_items : Validator → Value → ℕ → List Json → Text → Checked
validate_items rec w i [] path = ok tt
validate_items rec w i (x ∷ xs) path =
    rec w x (at_index path i) >>= λ done. validate_items rec w (suc i) xs path

-- The body of the loop over the sorted keys of a map, which has each of them.
abbrev pub validate_entry : Validator → Value → Option Json → Text → Checked
validate_entry rec w none path = ok tt
validate_entry rec w (some x) path = rec w x (path ++ text "[*]")

-- The loop over the sorted keys of a map.
unfoldable pub validate_entries :
    Validator → Value → List Text → List (Text × Json) → Text → Checked
validate_entries rec w [] ms path = ok tt
validate_entries rec w (k ∷ ks) ms path =
    validate_entry rec w (lookup k ms) path >>= λ done. validate_entries rec w ks ms path

-- The loop over the sorted keys of an object.
unfoldable pub check_declared : TypeRef → List Field → List Text → Text → Checked
check_declared name fields [] path = ok tt
check_declared name fields (k ∷ ks) path =
    if is_some (find_field k fields)
    then check_declared name fields ks path
    else failed (undeclared_field path name)

-- The body of the loop over the declared fields.
abbrev pub validate_field : Validator → TypeRef → Field → Option Json → Text → Checked
validate_field rec name f none path =
    if f.optional then ok tt else failed (missing_field path f.name name)
validate_field rec name f (some x) path = rec f.value x (path ++ (text "." ++ f.name))

-- The loop over the declared fields.
unfoldable pub validate_fields :
    Validator → TypeRef → List Field → List (Text × Json) → Text → Checked
validate_fields rec name [] ms path = ok tt
validate_fields rec name (f ∷ fs) ms path =
    validate_field rec name f (lookup f.name ms) path >>= λ done.
    validate_fields rec name fs ms path

module _ (loaded : Schema) where
  abbrev pub validate_declared :
      Validator → TypeRef → Option ObjectType → List (Text × Json) → Text → Checked
  validate_declared rec name none ms path = failed (undeclared_type path name)
  validate_declared rec name (some declared) ms path =
      check_declared name declared.fields (sort (keys ms)) path >>= λ done.
      validate_fields rec name declared.fields ms path

  -- `validateObject`.
  unfoldable pub validate_object : Validator → TypeRef → List (Text × Json) → Text → Checked
  validate_object rec name ms path = validate_declared rec name (find_type loaded name) ms path

  -- The switch of `validate` on the kind of the expected value.
  unfoldable pub validate_by : Validator → Value → Json → Text → Checked
  validate_by rec (value Kind.string ls e t) (string s) path = ok tt
  validate_by rec (value Kind.number ls e t) (number n) path = ok tt
  validate_by rec (value Kind.number ls e t) (string s) path =
      if contains s ls
      then ok tt
      else failed (unexpected path (value Kind.number ls e t) JsonType.string)
  validate_by rec (value Kind.boolean ls e t) (boolean b) path = ok tt
  validate_by rec (value enum ls e t) (string s) path =
      if contains s ls then ok tt else failed (not_a_literal path (value enum ls e t))
  validate_by rec (value Kind.list ls no_element t) v path = failed (no_element_type path Kind.list)
  validate_by rec (value Kind.list ls (element w) t) (list xs) path =
      validate_items rec w 0 (elements xs) path
  validate_by rec (value map ls no_element t) v path = failed (no_element_type path map)
  validate_by rec (value map ls (element w) t) (object ms) path =
      validate_entries rec w (sort (keys (entries ms))) (entries ms) path
  validate_by rec (value Kind.object ls e t) (object ms) path =
      validate_object rec t (entries ms) path
  validate_by rec expected v path = failed (unexpected path expected (json_type v))

  -- `validate`.
  unfoldable pub validate_from : ℕ → Validator
  validate_from zero expected v path = failed out_of_fuel
  validate_from (suc fuel) expected v path = validate_by (validate_from fuel) expected v path

  -- `Validate`, with fuel.
  unfoldable pub validate : ℕ → TypeRef → Json → Checked
  validate fuel name v = validate_from fuel (value Kind.object [] no_element name) v (text "$")
