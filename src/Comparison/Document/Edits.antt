-- ===== src/Comparison/Document/Edits.antt =====
-- internal/comparison/internal/document.go: what a document holds after an edit.
use mathlib.Core.Path.{subst}
use spectre.Prelude.{
  ◌⊎◌, ℕ, zero, suc, ◌<◌, ◌≡◌, ◌≢◌, All, refl, sym, ap, ◌∙◌, Option, none, some, List, [], ◌∷◌,
  ◌++◌, Text, text_eq, eq_refl, ltb, length, get_elem?, set, remove_at, arith, Bool-cases, inl, inr,
  Result, ok, failed, bind-ok,
}
use spectre.Prelude.Assoc.{insert, lookup-insert}
use spectre.Comparison.Json.{Json, null, list, object, elements, entries, to_items, to_members}
use spectre.Comparison.Path.{PathPart, field, any_key, index, DocumentPath}
use spectre.Comparison.Document.{
  DocumentError, parent_is_absent, step_into, value_at, replace_child, set_in, edit_below,
  set_value, nothing_to_delete, delete_last, delete_value, set_document, set_root, Document,
}

elements_of : (xs : List Json) → elements (to_items xs) ≡ xs
elements_of [] = refl
elements_of (x ∷ xs) = ap (λ ys. x ∷ ys) (elements_of xs)

entries_of : (ms : List (Text × Json)) → entries (to_members ms) ≡ ms
entries_of [] = refl
entries_of ((k, v) ∷ ms) = ap (λ ns. (k, v) ∷ ns) (entries_of ms)

get-set : (xs : List Json) (i : ℕ) (x : Json) → i < length xs → get_elem? (set xs i x) i ≡ some x
get-set [] i x h = absurd (omega (arith, h))
get-set (y ∷ xs) zero x h = refl
get-set (y ∷ xs) (suc i) x h = get-set xs i x (omega (arith, h))

get-bound : (xs : List Json) (i : ℕ) (y : Json) → get_elem? xs i ≡ some y → i < length xs
get-bound [] i y h = cc
get-bound (x ∷ xs) zero y h = omega arith
get-bound (x ∷ xs) (suc i) y h = omega (arith, get-bound xs i y h)

-- What was put in place of a child is there.
step-replace :
    (v : Json) (part : PathPart) (child x : Json)
    → step_into v part ≡ some child
    → step_into (replace_child v part x) part ≡ some x
step-replace (list xs) (index i) child x h =
    rw (elements_of (set (elements xs) i x))
      (get-set (elements xs) i x (get-bound (elements xs) i child h))
step-replace (object ms) (field name) child x h =
    rw
      (
        entries_of (insert name x (entries ms)),
        lookup-insert name name x (entries ms),
        eq_refl name,
      )
      refl
step-replace _ _ child x h = cc

step-set :
    (v : Json) (part : PathPart) (x w : Json)
    → part ≢ any_key
    → set_in v part x ≡ ok w
    → step_into w part ≡ some x
step-set (list xs) (index i) x w k h = elim (Bool-cases (ltb i (length (elements xs)))) [
  | inl inside ↦
      let is : list (to_items (set (elements xs) i x)) ≡ w = ground (arith, h, inside) in
      rw (sym is, elements_of (set (elements xs) i x))
        (get-set (elements xs) i x (ground (arith, inside)))
  | inr outside ↦ ground (arith, h, outside)
]
step-set (object ms) (field name) x w k h =
    let is : object (to_members (insert name x (entries ms))) ≡ w = cc in
    rw
      (
        sym is,
        entries_of (insert name x (entries ms)),
        lookup-insert name name x (entries ms),
        eq_refl name,
      )
      refl
step-set (object ms) any_key x w k h = absurd (k refl)
step-set (list xs) any_key x w k h = absurd (k refl)
step-set _ any_key x w k h = absurd (k refl)
step-set _ _ x w k h = cc

-- No part of a path of a payload stands for a key that is data.
abbrev pub IsConcrete : DocumentPath → Type 0
IsConcrete parts = All (λ part. part ≢ any_key) parts

below-step :
    (v : Json) (part : PathPart) (absent : DocumentError) (edit : Json → Result DocumentError Json)
    (o : Option Json) (w : Json)
    → step_into v part ≡ o
    → edit_below v part (failed absent) edit o ≡ ok w
    → (child : Json) × (updated : Json) × (edit child ≡ ok updated)
      × (step_into w part ≡ some updated)
below-step v part absent edit none w is h = cc
below-step v part absent edit (some child) w is h =
    let (updated, edited, same) = bind-ok (edit child) _ w h in
    let put : replace_child v part updated ≡ w = cc in
    (
      child,
      updated,
      edited,
      subst (λ u. step_into u part ≡ some updated) put (step-replace v part child updated is),
    )

set_value_lem :
    (v : Json) (parts : DocumentPath) (x w : Json)
    → IsConcrete parts
    → set_value v parts x ≡ ok w
    → value_at (some w) parts ≡ some x
unfolding set_value value_at
set_value_lem v [] x w c h = let is : x ≡ w = cc in rw is refl
set_value_lem v (part ∷ []) x w (k, c) h = ap (λ o. value_at o []) (step-set v part x w k h)
set_value_lem v (part ∷ next ∷ parts) x w (k, c) h =
    let (child, updated, edited, there) =
      below-step v part parent_is_absent (λ child. set_value child (next ∷ parts) x)
        (step_into v part) w refl h in
    ap (λ o. value_at o (next ∷ parts)) there
    ∙ set_value_lem child (next ∷ parts) x updated c edited

set_root_lem :
    (o : Option Json) (parts : DocumentPath) (x : Json) (e : Document)
    → IsConcrete parts
    → set_root o parts x ≡ ok e
    → value_at e.root parts ≡ some x
set_root_lem none parts x e c h = cc
set_root_lem (some root) parts x e c h =
    let (w, edited, same) = bind-ok (set_value root parts x) _ e h in
    let is : some w ≡ e.root = ground (arith, same) in
    ap (λ o. value_at o parts) (sym is) ∙ set_value_lem root parts x w c edited

-- A normaliser's result is what the document holds: after `Set` succeeds at a path of fields and
-- indexes, the value at that path is the one that was set.
pub set_document_lem :
    (d e : Document) (parts : DocumentPath) (x : Json)
    → IsConcrete parts
    → set_document d parts x ≡ ok e
    → value_at e.root parts ≡ some x
unfolding set_document value_at
set_document_lem d e [] x c h =
    let is : some x ≡ e.root = ground (arith, h) in ap (λ o. value_at o []) (sym is)
set_document_lem d e (part ∷ parts) x c h = set_root_lem d.root (part ∷ parts) x e c h

get-remove : (xs : List Json) (i j : ℕ) → j < i → get_elem? (remove_at xs i) j ≡ get_elem? xs j
get-remove [] i j h = refl
get-remove (x ∷ xs) zero j h = absurd (omega (arith, h))
get-remove (x ∷ xs) (suc i) zero h = refl
get-remove (x ∷ xs) (suc i) (suc j) h = get-remove xs i j (omega (arith, h))

step-delete :
    (v : Json) (i j : ℕ) (o : Option Json) (w : Json)
    → step_into v (index i) ≡ o
    → j < i
    → delete_last v (index i) o ≡ ok w
    → step_into w (index j) ≡ step_into v (index j)
step-delete (list xs) i j none w is lt h = let same : list xs ≡ w = cc in rw (sym same) refl
step-delete (list xs) i j (some child) w is lt h =
    let same : list (to_items (remove_at (elements xs) i)) ≡ w = cc in
    rw (sym same, elements_of (remove_at (elements xs) i)) (get-remove (elements xs) i j lt)
step-delete null i j none w is lt h = let same : null ≡ w = cc in rw (sym same) refl
step-delete _ i j none w is lt h = cc
step-delete _ i j (some child) w is lt h = cc

nothing-same : (v : Json) (part : PathPart) (w : Json) → nothing_to_delete v part ≡ ok w → v ≡ w
nothing-same null (field name) w h = cc
nothing-same null any_key w h = cc
nothing-same null (index i) w h = cc
nothing-same (list xs) (index i) w h = cc
nothing-same (object ms) (field name) w h = cc
nothing-same _ (field name) w h = cc
nothing-same _ any_key w h = cc
nothing-same _ (index i) w h = cc

-- A deletion below a part either finds nothing there, or edits what is there.
below-delete :
    (v : Json) (part : PathPart) (edit : Json → Result DocumentError Json) (o : Option Json)
    (w : Json)
    → step_into v part ≡ o
    → edit_below v part (nothing_to_delete v part) edit o ≡ ok w
    → (v ≡ w)
      ⊎ ((child : Json) × (updated : Json) × (o ≡ some child)
          × (edit child ≡ ok updated)
          × (step_into w part ≡ some updated))
below-delete v part edit none w is h = inl (nothing-same v part w h)
below-delete v part edit (some child) w is h =
    let (updated, edited, same) = bind-ok (edit child) _ w h in
    let put : replace_child v part updated ≡ w = cc in
    inr (
      child,
      updated,
      refl,
      edited,
      subst (λ u. step_into u part ≡ some updated) put (step-replace v part child updated is),
    )

-- The order of edits, later indexes first, is safe: to delete an element leaves the value at every
-- earlier index of the same list, and at every path below it, where it was.
pub delete_value_lem :
    (v w : Json) (parts : DocumentPath) (i j : ℕ) (below : DocumentPath)
    → j < i
    → delete_value v (parts ++ index i ∷ []) ≡ ok w
    → value_at (some w) (parts ++ index j ∷ below) ≡ value_at (some v) (parts ++ index j ∷ below)
unfolding delete_value value_at
delete_value_lem v w [] i j below lt h =
    ap (λ o. value_at o below) (step-delete v i j (step_into v (index i)) w refl lt h)
delete_value_lem v w (part ∷ []) i j below lt h =
    elim (below-delete v part (λ child. delete_value child (index i ∷ [])) (step_into v part) w refl
      h) [
        | inl same ↦ ap (λ u. value_at (step_into u part) (index j ∷ below)) (sym same)
        | inr (child, updated, is, edited, there) ↦
            ap (λ o. value_at o (index j ∷ below)) there
            ∙ delete_value_lem child updated [] i j below lt edited
            ∙ ap (λ o. value_at o (index j ∷ below)) (sym is)
      ]
delete_value_lem v w (part ∷ next ∷ parts) i j below lt h =
    let inner = next ∷ (parts ++ index j ∷ below) in
    elim (below-delete v part (λ child. delete_value child (next ∷ (parts ++ index i ∷ [])))
      (step_into v part) w refl h) [
        | inl same ↦ ap (λ u. value_at (step_into u part) inner) (sym same)
        | inr (child, updated, is, edited, there) ↦
            ap (λ o. value_at o inner) there
            ∙ delete_value_lem child updated (next ∷ parts) i j below lt edited
            ∙ ap (λ o. value_at o inner) (sym is)
      ]
