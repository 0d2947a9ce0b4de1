-- ===== src/Model/QuarantineModel.antt =====
-- internal/model/quarantine.go. A time is a number of nanoseconds.
use spectre.Prelude.{ℕ, Bool, Option, List, [], ◌∷◌, ◌++◌, Text, text}
use spectre.Model.TrafficModel.{Traffic}
use spectre.Model.DifferenceModel.{Difference, difference_lines}

pub data QuarantineKind : Type 0 where
  divergent unable unmatched unlisted capacity pairing : QuarantineKind

pub record QuarantineReason : Type 0 where
  pub kind : QuarantineKind
  pub traffic : Option Traffic
  pub node : Option Text
  pub differences : List Difference
  pub truncated : Bool
  pub detail : Text

-- `strings.Join(lines, separator)`.
abbrev pub join : Text → List Text → Text
join separator [] = []
join separator (line ∷ []) = line
join separator (line ∷ next ∷ lines) = line ++ (separator ++ join separator (next ∷ lines))

abbrev describe : QuarantineKind → QuarantineReason → Text
describe divergent r =
    text "response differences: " ++ join (text ", ") (difference_lines r.differences r.truncated)
describe _ r = r.detail

-- `QuarantineReason.String`.
unfoldable pub reason_string : QuarantineReason → Text
reason_string r = describe r.kind r

pub record Quarantine : Type 0 where
  pub reason : QuarantineReason
  pub since : ℕ
