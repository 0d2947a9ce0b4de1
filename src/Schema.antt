-- ===== src/Schema.antt =====
-- internal/schema/schema.go: the types that payloads are declared with. Rendering as TypeScript
-- (`Format`, `PropertyName`) and parsing (parse.go) are not modelled.
pub mod Validate
pub mod Construct
use spectre.Prelude.{Bool, Option, none, some, List, [], ◌∷◌, Text, text_eq, ◌==◌, if◌then◌else◌}
use spectre.Prelude.Assoc.{lookup}

abbrev pub TypeRef : Type 0
TypeRef = Text

pub data Kind : Type 0 where
  string number boolean enum object list map : Kind

-- `Value`; the pointer to an element is `element` or `no_element`.
mutual
  pub data Value : Type 0 where
    value : Kind → List Text → Element → TypeRef → Value

  pub data Element : Type 0 where
    no_element : Element
    element : Value → Element

abbrev pub kind_of : Value → Kind
kind_of (value k ls e t) = k

abbrev pub literals_of : Value → List Text
literals_of (value k ls e t) = ls

abbrev pub element_of : Value → Element
element_of (value k ls e t) = e

abbrev pub type_of : Value → TypeRef
type_of (value k ls e t) = t

-- `value.Element.Get()`, with the pointer followed.
abbrev pub deref : Element → Option Value
deref no_element = none
deref (element v) = some v

pub record Field : Type 0 where
  pub name : Text
  pub optional : Bool
  pub value : Value

pub record ObjectType : Type 0 where
  pub name : TypeRef
  pub fields : List Field

-- `Type.Field`.
abbrev pub find_field : Text → List Field → Option Field
find_field name [] = none
find_field name (f ∷ fs) = if f.name == name then some f else find_field name fs

pub record Operation : Type 0 where
  pub name : Text
  pub request : TypeRef
  pub response : TypeRef

pub record Schema : Type 0 where
  pub types : List (TypeRef × ObjectType)
  pub operations : List (Text × Operation)

-- `Schema.Type`; none is the error of an undeclared type.
abbrev pub find_type : Schema → TypeRef → Option ObjectType
find_type s name = lookup name s.types
