-- ===== src/Comparison/Document.antt =====
-- internal/comparison/internal/document.go: the edits that normalisers make to their own copy of a
-- payload. The source changes maps and slices in place; the document owns all of them.
pub mod Edits
pub mod Tests
use spectre.Prelude.{
  ℕ, Bool, true, false, ◌&&◌, not, Option, none, some, List, [], ◌∷◌, Text, text_eq, ◌==◌, ltb,
  length, get_elem?, set, remove_at, is_some, if◌then◌else◌, Result, ok, failed, ◌>>=◌,
}
use spectre.Prelude.Assoc.{lookup, insert, remove}
use spectre.Comparison.Json.{
  Json, null, list, object, Items, Members, elements, entries, to_items, to_members,
}
use spectre.Comparison.Path.{PathPart, field, any_key, index, part_beq, DocumentPath}

pub data DocumentError : Type 0 where
  parent_is_absent not_an_element not_an_object : DocumentError
  parent_is_no_array invalid_part : DocumentError

-- `document`; none once a normaliser has removed the root.
pub record Document : Type 0 where
  pub root : Option Json

-- One round of the loop of `documentPath.value`.
abbrev pub step_into : Json → PathPart → Option Json
step_into (list xs) (index i) = get_elem? (elements xs) i
step_into (object ms) (field name) = lookup name (entries ms)
step_into _ _ = none

-- `documentPath.value`.
unfoldable pub value_at : Option Json → DocumentPath → Option Json
value_at none parts = none
value_at (some v) [] = some v
value_at (some v) (part ∷ parts) = value_at (step_into v part) parts

-- A write of an element or a member that is there.
abbrev pub replace_child : Json → PathPart → Json → Json
replace_child (list xs) (index i) x = list (to_items (set (elements xs) i x))
replace_child (object ms) (field name) x = object (to_members (insert name x (entries ms)))
replace_child v part x = v

-- `documentPath.set` in the parent.
abbrev pub set_in : Json → PathPart → Json → Result DocumentError Json
set_in (list xs) (index i) x =
    if ltb i (length (elements xs))
    then ok (list (to_items (set (elements xs) i x)))
    else failed not_an_element
set_in v (index i) x = failed not_an_element
set_in (object ms) (field name) x = ok (object (to_members (insert name x (entries ms))))
set_in (object ms) any_key x = ok (object (to_members (insert [] x (entries ms))))
set_in v part x = failed not_an_object

-- An edit below a child, which takes the place of the child.
abbrev pub edit_below :
    Json
    → PathPart
    → Result DocumentError Json
    → (Json → Result DocumentError Json)
    → Option Json
    → Result DocumentError Json
edit_below v part absent edit none = absent
edit_below v part absent edit (some child) =
    edit child >>= λ updated. ok (replace_child v part updated)

-- `documentPath.set`, from the root down.
unfoldable pub set_value : Json → DocumentPath → Json → Result DocumentError Json
set_value v [] x = ok x
set_value v (part ∷ []) x = set_in v part x
set_value v (part ∷ next ∷ parts) x =
    edit_below v part (failed parent_is_absent) (λ child. set_value child (next ∷ parts) x)
      (step_into v part)

-- What `deleteDocumentValue` does to an element or a member that is there, if it is the last part.
abbrev pub delete_child : Json → PathPart → Json
delete_child (list xs) (index i) = list (to_items (remove_at (elements xs) i))
delete_child (object ms) (field name) = object (to_members (remove name (entries ms)))
delete_child v part = v

-- What it does where the element or the member is not there.
abbrev pub nothing_to_delete : Json → PathPart → Result DocumentError Json
nothing_to_delete (list xs) (index i) = ok (list xs)
nothing_to_delete null (index i) = ok null
nothing_to_delete v (index i) = failed parent_is_no_array
nothing_to_delete v any_key = failed invalid_part
nothing_to_delete (object ms) (field name) = ok (object ms)
nothing_to_delete null (field name) = ok null
nothing_to_delete v (field name) = failed not_an_object

abbrev pub delete_last : Json → PathPart → Option Json → Result DocumentError Json
delete_last v part none = nothing_to_delete v part
delete_last v part (some child) = ok (delete_child v part)

-- `deleteDocumentValue`, which is called with one part at least.
unfoldable pub delete_value : Json → DocumentPath → Result DocumentError Json
delete_value v [] = ok v
delete_value v (part ∷ []) = delete_last v part (step_into v part)
delete_value v (part ∷ next ∷ parts) =
    edit_below v part (nothing_to_delete v part) (λ child. delete_value child (next ∷ parts))
      (step_into v part)

abbrev pub set_root : Option Json → DocumentPath → Json → Result DocumentError Document
set_root none parts x = failed parent_is_absent
set_root (some root) parts x =
    set_value root parts x >>= λ updated. ok (record { root = some updated })

-- `Set`.
unfoldable pub set_document : Document → DocumentPath → Json → Result DocumentError Document
set_document d [] x = ok (record { root = some x })
set_document d (part ∷ parts) x = set_root d.root (part ∷ parts) x

abbrev pub delete_root : Option Json → DocumentPath → Result DocumentError Document
delete_root none parts = ok (record { root = none })
delete_root (some root) [] = ok (record { root = none })
delete_root (some root) (part ∷ parts) =
    delete_value root (part ∷ parts) >>= λ updated. ok (record { root = some updated })

-- `Delete`.
unfoldable pub delete_document : Document → DocumentPath → Result DocumentError Document
delete_document d parts = delete_root d.root parts

-- `indexedSiblingBefore`, on the parts before the last and the last.
unfoldable pub indexed_sibling_before : DocumentPath → DocumentPath → Bool
indexed_sibling_before [] other = false
indexed_sibling_before (index i ∷ []) (index j ∷ []) = ltb j i
indexed_sibling_before (part ∷ []) other = false
indexed_sibling_before (part ∷ parts) [] = false
indexed_sibling_before (part ∷ parts) (other ∷ others) =
    part_beq part other && indexed_sibling_before parts others
