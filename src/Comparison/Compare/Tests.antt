-- ===== src/Comparison/Compare/Tests.antt =====
-- Two payloads of a `User`, whose schema declares a name and a list of roles.
use spectre.Prelude.{
  ◌≡◌, ◌↔◌, refl, true, false, Option, none, some, List, [], ◌∷◌, ◌++◌, Text, text, All, text_eq,
  decimal,
}
use spectre.Prelude.Assoc.{lookup, insert}
use spectre.Model.{Difference, missing, changed}
use spectre.Schema.{Schema, Value, value, Kind, no_element, element, ObjectType}
use spectre.Comparison.Json.{
  Json, string, number, list, object, to_items, to_members, deep_equal, depth, json_type,
}
use spectre.Comparison.Json.Laws.{equal_optional}
use spectre.Comparison.Path.{path_string, reported, is_identifier, part_text}
use spectre.Comparison.Differ.{
  RawDifference, collect, diff, diff_item, diff_keys, diff_indexes, diff_unequal, member, add,
  sorted_keys,
}
use spectre.Comparison.Compare.{compare, merge_indexes}
use spectre.Comparison.Compare.Laws.{compare-equal}
use spectre.Comparison.Compare.Private.{IsSpelled, compare-IsSpelled}

abbrev quote : Text → Text
quote s = 34 ∷ (s ++ (34 ∷ []))

abbrev string_value : Value
string_value = value Kind.string [] no_element []

abbrev user : ObjectType
user = record {
  name = text "User";
  fields =
      record { name = text "name"; optional = false; value = string_value }
      ∷ record {
        name = text "roles";
        optional = false;
        value = value Kind.list [] (element string_value) [];
      }
      ∷ [];
}

abbrev schema : Schema
schema = record { types = (text "User", user) ∷ []; operations = [] }

abbrev root : Option Value
root = some (value Kind.object [] no_element (text "User"))

abbrev reference : Json
reference = object (
    to_members (
      (text "name", string (text "Ann"))
      ∷ (text "roles", list (to_items (string (text "a") ∷ string (text "b") ∷ [])))
      ∷ (text "secret", number 7)
      ∷ []))

abbrev candidate : Json
candidate = object (
    to_members (
      (text "roles", list (to_items (string (text "b") ∷ string (text "a") ∷ [])))
      ∷ (text "name", string (text "Ann"))
      ∷ []))

program : Unit {0}
unfolding decimal compare merge_indexes collect diff diff_item diff_keys diff_indexes diff_unequal
    member add sorted_keys deep_equal depth json_type path_string reported is_identifier part_text
    lookup insert
program = tt

-- A difference at each role is listed once, and a key that is not declared is not named.
compare_roles : compare quote (some schema) root (some reference) (some candidate) ≡ (
  record { path = text "$.roles[*]"; change = changed; retype = none; count = 2 }
      ∷ record { path = text "$[*]"; change = missing; retype = none; count = 1 }
      ∷ [],
  false,
)
unfolding program
compare_roles = refl

compare-equal_example :
    (compare quote (some schema) root (some reference) (some candidate) ≡ ([], false))
    ↔ (equal_optional (some reference) (some candidate) ≡ true)
unfolding lookup
compare-equal_example =
    compare-equal quote (some schema) root (some reference) (some candidate)
      ((refl, (refl, (refl, tt))), (tt, ((tt, (tt, tt)), (tt, tt))))
      ((refl, (refl, tt)), ((tt, (tt, tt)), (tt, tt)))

abbrev raw : List RawDifference
raw =
    record {
      path = record { text_of = text "$[0]"; wildcard = text "$[*]" };
      change = missing;
      retype = none;
      count = 1;
    }
    ∷ record {
      path = record { text_of = text "$[1]"; wildcard = text "$[*]" };
      change = missing;
      retype = none;
      count = 2;
    }
    ∷ []

compare-IsSpelled_example :
    All
      (λ (d : Difference). IsSpelled quote (some schema) d.path)
      (compare quote (some schema) root (some reference) (some candidate)).0
compare-IsSpelled_example =
    compare-IsSpelled quote (some schema) root (some reference) (some candidate)
