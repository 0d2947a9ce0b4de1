-- ===== src/Comparison/Path.antt =====
-- Payload paths: internal/comparison/internal/document.go, from `documentPath` on. A part is built
-- by one of three constructors, and an index is never negative.
use spectre.Prelude.{
  ℕ, Bool, true, false, ◌&&◌, ◌||◌, List, [], ◌∷◌, ◌++◌, map, Text, text, nat_eq, text_eq, Eq, ◌==◌,
  ◌≡◌, ◌↔◌, eq_iff, arith, leb, decimal, if◌then◌else◌,
}

pub data PathPart : Type 0 where
  field : Text → PathPart
  any_key : PathPart
  index : ℕ → PathPart

-- `pathPart.equals`.
abbrev pub part_beq : PathPart → PathPart → Bool
part_beq (field a) (field b) = a == b
part_beq any_key any_key = true
part_beq (index a) (index b) = a == b
part_beq _ _ = false

abbrev pub DocumentPath : Type 0
DocumentPath = List PathPart

-- `append`, which never writes into the parts of another path.
abbrev pub append_part : DocumentPath → PathPart → DocumentPath
append_part p part = p ++ part ∷ []

abbrev pub letter : ℕ → Bool
letter c = (c == 95 || c == 36) || ((leb 97 c && leb c 122) || (leb 65 c && leb c 90))

abbrev pub digit : ℕ → Bool
digit c = leb 48 c && leb c 57

-- `isIdentifier`: a character of several bytes is none of those allowed.
abbrev pub rest_is_identifier : Text → Bool
rest_is_identifier [] = true
rest_is_identifier (c ∷ cs) = (letter c || digit c) && rest_is_identifier cs

unfoldable pub is_identifier : Text → Bool
is_identifier [] = false
is_identifier (c ∷ cs) = letter c && rest_is_identifier cs

-- Each index becomes the wildcard, as `reported` writes it.
abbrev pub without_index : PathPart → PathPart
without_index (field name) = field name
without_index any_key = any_key
without_index (index i) = any_key

pub record ReportedPath : Type 0 where
  pub text_of : Text
  pub wildcard : Text

abbrev pub reported_beq : ReportedPath → ReportedPath → Bool
reported_beq a b = a.text_of == b.text_of && a.wildcard == b.wildcard

pub reported_beq_iff : (a b : ReportedPath) → (reported_beq a b ≡ true) ↔ (a ≡ b)
reported_beq_iff a b =
    let t = eq_iff a.text_of b.text_of in
    let w = eq_iff a.wildcard b.wildcard in (λ h. ground (arith, t, w), λ h. ground (arith, t, w))

instance abbrev pub reported_eq : Eq ReportedPath
reported_eq = record { beq = reported_beq; beq_iff = reported_beq_iff }

-- `%q` of the standard library is `quote`.
module _ (quote : Text → Text) where
  unfoldable pub part_text : PathPart → Text
  part_text (index i) = text "[" ++ (decimal i ++ text "]")
  part_text any_key = text "[*]"
  part_text (field name) =
      if is_identifier name then text "." ++ name else text "[" ++ (quote name ++ text "]")

  abbrev pub parts_text : DocumentPath → Text
  parts_text [] = []
  parts_text (part ∷ p) = part_text part ++ parts_text p

  -- `documentPath.String`.
  unfoldable pub path_string : DocumentPath → Text
  path_string p = text "$" ++ parts_text p

  -- `documentPath.reported`.
  unfoldable pub reported : DocumentPath → ReportedPath
  reported p = record { text_of = path_string p; wildcard = path_string (map without_index p) }
