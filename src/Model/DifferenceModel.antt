-- ===== src/Model/DifferenceModel.antt =====
-- internal/model/difference.go. `UnmarshalJSON` is decoding by encoding/json and is not modelled.
use spectre.Prelude.{
  ℕ, Bool, true, false, Option, none, some, List, [], ◌∷◌, ◌++◌, map, ◌≡◌, ◌↔◌, ◌&&◌, arith, Text,
  text, Eq, ◌==◌, eq_iff, nat_eq, ltb, decimal, if◌then◌else◌,
}

pub data Change : Type 0 where
  missing added changed retyped : Change

abbrev pub change_beq : Change → Change → Bool
change_beq missing missing = true
change_beq added added = true
change_beq changed changed = true
change_beq retyped retyped = true
change_beq _ _ = false

pub change_beq_iff : (a b : Change) → (change_beq a b ≡ true) ↔ (a ≡ b)
change_beq_iff missing b = (λ h. ground arith, λ h. ground arith)
change_beq_iff _ b = (λ h. ground arith, λ h. ground arith)

instance abbrev pub change_eq : Eq Change
change_eq = record { beq = change_beq; beq_iff = change_beq_iff }

-- The text of the constant.
abbrev pub change_text : Change → Text
change_text missing = text "missing"
change_text added = text "added"
change_text changed = text "changed"
change_text retyped = text "retyped"

-- `Change.mark`. The source's last case, "?", is for a text that is no constant of the type.
unfoldable pub mark : Change → Text
mark missing = text "-"
mark added = text "+"
mark changed = text "~"
mark retyped = text "!"

pub data JsonType : Type 0 where
  null boolean number string object list : JsonType

abbrev pub json_type_code : JsonType → ℕ
json_type_code null = 0
json_type_code boolean = 1
json_type_code number = 2
json_type_code string = 3
json_type_code object = 4
json_type_code list = 5

abbrev pub json_type_beq : JsonType → JsonType → Bool
json_type_beq a b = json_type_code a == json_type_code b

pub json_type_beq_iff : (a b : JsonType) → (json_type_beq a b ≡ true) ↔ (a ≡ b)
json_type_beq_iff null b = (λ h. ground arith, λ h. ground arith)
json_type_beq_iff _ b = (λ h. ground arith, λ h. ground arith)

instance abbrev pub json_type_eq : Eq JsonType
json_type_eq = record { beq = json_type_beq; beq_iff = json_type_beq_iff }

abbrev pub json_type_text : JsonType → Text
json_type_text null = text "null"
json_type_text boolean = text "boolean"
json_type_text number = text "number"
json_type_text string = text "string"
json_type_text object = text "object"
json_type_text list = text "list"

pub record Retype : Type 0 where
  pub reference : JsonType
  pub candidate : JsonType

abbrev pub retype_beq : Retype → Retype → Bool
retype_beq a b = a.reference == b.reference && a.candidate == b.candidate

pub retype_beq_iff : (a b : Retype) → (retype_beq a b ≡ true) ↔ (a ≡ b)
retype_beq_iff a b =
    let r = eq_iff a.reference b.reference in
    let c = eq_iff a.candidate b.candidate in (λ h. ground (arith, r, c), λ h. ground (arith, r, c))

instance abbrev pub retype_eq : Eq Retype
retype_eq = record { beq = retype_beq; beq_iff = retype_beq_iff }

pub record Difference : Type 0 where
  pub path : Text
  pub change : Change
  pub retype : Option Retype
  pub count : ℕ

-- " string → null"; the arrow is three bytes.
abbrev pub retype_text : Option Retype → Text
retype_text none = []
retype_text (some r) =
    text " "
    ++ (json_type_text r.reference
        ++ (0x20 ∷ 0xe2 ∷ 0x86 ∷ 0x92 ∷ 0x20 ∷ json_type_text r.candidate))

-- `Difference.String`; the multiplication sign is two bytes.
unfoldable pub difference_string : Difference → Text
unfolding mark
difference_string d =
    mark d.change
    ++ (text " "
        ++ (d.path
            ++ (retype_text d.retype
                ++ (if ltb 1 d.count then 0x20 ∷ 0xc3 ∷ 0x97 ∷ decimal d.count else []))))

-- `DifferenceLines`; the dots are one character of three bytes.
unfoldable pub difference_lines : List Difference → Bool → List Text
difference_lines differences truncated =
    map difference_string differences
    ++ (if truncated then (0xe2 ∷ 0x80 ∷ 0xa6 ∷ text " more") ∷ [] else [])
