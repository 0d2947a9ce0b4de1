-- ===== src/Comparison/Document/Tests.antt =====
-- A document of three elements.
use spectre.Prelude.{◌≡◌, refl, arith, some, List, [], ◌∷◌, ◌++◌, text, text_eq, ok}
use spectre.Prelude.Assoc.{lookup, insert}
use spectre.Comparison.Json.{Json, number, list, object, to_items, to_members}
use spectre.Comparison.Path.{field, index, DocumentPath}
use spectre.Comparison.Document.{Document, value_at, set_document, set_value, delete_value}
use spectre.Comparison.Document.Edits.{IsConcrete, delete_value_lem}

abbrev payload : List Json → Json
payload xs = object (to_members ((text "ids", list (to_items xs)) ∷ []))

abbrev three : Json
three = payload (number 5 ∷ number 6 ∷ number 7 ∷ [])

abbrev second : DocumentPath
second = field (text "ids") ∷ index 1 ∷ []

abbrev before : Document
before = record { root = some three }

abbrev after : Document
after = record { root = some (payload (number 5 ∷ number 8 ∷ number 7 ∷ [])) }

is_set : set_document before second (number 8) ≡ ok after
unfolding set_document set_value lookup insert
is_set = refl

second-IsConcrete : IsConcrete second
second-IsConcrete = (λ h. cc, (λ h. cc, tt))

is_deleted :
    delete_value three ((field (text "ids") ∷ []) ++ index 1 ∷ [])
    ≡ ok (payload (number 5 ∷ number 7 ∷ []))
unfolding delete_value lookup insert
is_deleted = refl

delete_value_lem_example :
    value_at (some (payload (number 5 ∷ number 7 ∷ []))) ((field (text "ids") ∷ []) ++ index 0 ∷ [])
    ≡ value_at (some three) ((field (text "ids") ∷ []) ++ index 0 ∷ [])
delete_value_lem_example =
    delete_value_lem three (payload (number 5 ∷ number 7 ∷ [])) (field (text "ids") ∷ []) 1 0 []
      (omega arith) is_deleted
