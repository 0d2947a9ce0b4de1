-- ===== src/Schema/Validate/Tests.antt =====
-- A payload of one declared type.
use spectre.Prelude.{◌≡◌, ◌<◌, ◌↔◌, refl, arith, true, false, [], ◌∷◌, text, text_eq, ok}
use spectre.Prelude.Assoc.{lookup}
use spectre.Comparison.Json.{Json, string, list, object, to_items, to_members, depth, IsWell}
use spectre.Comparison.Differ.{sort, insert_sorted}
use spectre.Schema.{Kind, Value, value, no_element, element, ObjectType, Schema}
use spectre.Schema.Validate.{
  validate, validate_from, validate_by, validate_object, validate_fields, validate_items,
  check_declared,
}
use spectre.Schema.Validate.Instance.{IsInstance}
use spectre.Schema.Validate.Complete.{validate_lem}

abbrev pub text_value : Value
text_value = value Kind.string [] no_element []

abbrev pub user : ObjectType
user = record {
  name = text "User";
  fields =
      record { name = text "id"; optional = false; value = text_value }
      ∷ record {
        name = text "tags";
        optional = true;
        value = value Kind.list [] (element text_value) [];
      }
      ∷ [];
}

abbrev pub users : Schema
users = record { types = (text "User", user) ∷ []; operations = [] }

abbrev pub named : Json
named = object (
    to_members (
      (text "id", string (text "7"))
      ∷ (text "tags", list (to_items (string (text "a") ∷ [])))
      ∷ []))

well : IsWell named
unfolding lookup
well = ((refl, (refl, tt)), (tt, ((tt, tt), tt)))

shallow : depth named < 3
unfolding depth
shallow = omega arith

validate_lem_example :
    (validate users 3 (text "User") named ≡ ok tt)
    ↔ IsInstance users (value Kind.object [] no_element (text "User")) named
validate_lem_example = validate_lem users 3 (text "User") named well shallow

passes : validate users 3 (text "User") named ≡ ok tt
unfolding validate validate_from validate_by validate_object validate_fields validate_items
    check_declared sort insert_sorted lookup
passes = refl
