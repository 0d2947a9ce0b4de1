-- ===== src/Schema/Construct.antt =====
-- internal/schema/schema.go: `New`, which indexes types and operations and checks their references.
pub mod Closed
pub mod Mild
pub mod Tests
use spectre.Prelude.{
  Bool, true, false, Option, none, some, List, [], ◌∷◌, Text, text_eq, contains, is_some,
  if◌then◌else◌, Result, ok, failed, ◌>>=◌, wrapping,
}
use spectre.Prelude.Assoc.{lookup, insert}
use spectre.Schema.{
  TypeRef, Kind, string, number, boolean, enum, object, list, map, Value, value, Element,
  no_element, element, Field, ObjectType, Operation, Schema, find_type,
}

-- The errors of `New`.
pub data SchemaError : Type 0 where
  type_declared_twice : TypeRef → SchemaError
  operation_declared_twice : Text → SchemaError
  field_declared_twice : TypeRef → Text → SchemaError
  in_field : Text → TypeRef → SchemaError → SchemaError
  operation_refers_to : Text → TypeRef → SchemaError
  not_declared : TypeRef → SchemaError
  has_no_element : Kind → SchemaError
  has_no_literals : SchemaError

abbrev pub Loaded {ℓ} : Type ℓ → Type ℓ
Loaded A = Result SchemaError A

-- The loops that index types and operations.
unfoldable pub index_types :
    List ObjectType → List (TypeRef × ObjectType) → Loaded (List (TypeRef × ObjectType))
index_types [] types = ok types
index_types (d ∷ ds) types =
    if is_some (lookup d.name types)
    then failed (type_declared_twice d.name)
    else index_types ds (insert d.name d types)

unfoldable pub index_operations :
    List Operation → List (Text × Operation) → Loaded (List (Text × Operation))
index_operations [] operations = ok operations
index_operations (o ∷ os) operations =
    if is_some (lookup o.name operations)
    then failed (operation_declared_twice o.name)
    else index_operations os (insert o.name o operations)

module _ (loaded : Schema) where
  -- `checkValue`.
  unfoldable mutual
    pub check_value : Value → Loaded (Unit {0})
    check_value (value object ls e t) =
        if is_some (find_type loaded t) then ok tt else failed (not_declared t)
    check_value (value list ls e t) = check_element list e
    check_value (value map ls e t) = check_element map e
    check_value (value enum [] e t) = failed has_no_literals
    check_value (value enum (l ∷ ls) e t) = ok tt
    check_value (value string ls e t) = ok tt
    check_value (value number ls e t) = ok tt
    check_value (value boolean ls e t) = ok tt

    pub check_element : Kind → Element → Loaded (Unit {0})
    check_element k no_element = failed (has_no_element k)
    check_element k (element w) = check_value w

  -- The loop over the fields of a type, from the names seen so far.
  unfoldable pub check_fields : TypeRef → List Text → List Field → Loaded (Unit {0})
  check_fields t names [] = ok tt
  check_fields t names (f ∷ fs) =
      if contains f.name names
      then failed (field_declared_twice t f.name)
      else (wrapping (in_field f.name t) (check_value f.value) >>= λ done.
          check_fields t (f.name ∷ names) fs)

  unfoldable pub check_types : List ObjectType → Loaded (Unit {0})
  check_types [] = ok tt
  check_types (d ∷ ds) = check_fields d.name [] d.fields >>= λ done. check_types ds

  unfoldable pub check_operations : List Operation → Loaded (Unit {0})
  check_operations [] = ok tt
  check_operations (o ∷ os) =
      if is_some (find_type loaded o.request)
      then (if is_some (find_type loaded o.response)
          then check_operations os
          else failed (operation_refers_to o.name o.response))
      else failed (operation_refers_to o.name o.request)

-- What `New` does once types and operations are indexed.
abbrev pub checked : List ObjectType → List Operation → Schema → Loaded Schema
checked types operations loaded = do
  fields_done ← check_types loaded types
  operations_done ← check_operations loaded operations
  ok loaded

-- `New`.
unfoldable pub new_schema : List ObjectType → List Operation → Loaded Schema
new_schema types operations = do
  indexed ← index_types types []
  named ← index_operations operations []
  checked types operations (record { types = indexed; operations = named })
