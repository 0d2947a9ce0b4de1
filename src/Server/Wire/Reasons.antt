-- ===== src/Server/Wire/Reasons.antt =====
-- internal/server/wire/wire.go: quarantines, their reasons and differences.
use spectre.Prelude.{
  ℕ, ◌%◌, ◌^◌, Bool, Option, none, some, List, [], ◌∷◌, map, Text, ok, failed, ◌>>=◌, wrapping,
}
use spectre.Model.{
  Direction, Change, retyped, change_eq, Retype, Difference, Traffic, QuarantineReason, Quarantine,
}
use spectre.Server.Wire.Enums.{
  Restored, change_message, change_from_message, json_type_message, json_type_from_message,
  kind_message, kind_from_message, direction_message, direction_from_message,
  quarantine_needs_start, in_quarantine,
}

-- `pb.Difference`; an unset enumeration is 0.
pub record PbDifference : Type 0 where
  pub path : Text
  pub change : ℕ
  pub count : ℕ
  pub reference_type : ℕ
  pub candidate_type : ℕ

-- `pb.Traffic`.
pub record PbTraffic : Type 0 where
  pub direction : ℕ
  pub protocol : Text
  pub route : Text

-- `pb.Quarantine`.
pub record PbQuarantine : Type 0 where
  pub direction : ℕ
  pub since : Option ℕ
  pub kind : ℕ
  pub traffic : Option PbTraffic
  pub differences : List PbDifference
  pub truncated : Bool
  pub detail : Text
  pub node : Option Text

abbrev pub type_messages : Option Retype → ℕ × ℕ
type_messages none = (0, 0)
type_messages (some r) = (json_type_message r.reference, json_type_message r.candidate)

-- The loop body of `differenceMessages`; a count is cut to 32 bits.
abbrev pub difference_message : Difference → PbDifference
difference_message d = record {
  path = d.path;
  change = change_message d.change;
  count = d.count % 2 ^ 32;
  reference_type = (type_messages d.retype).0;
  candidate_type = (type_messages d.retype).1;
}

-- `differenceMessages`.
unfoldable pub difference_messages : List Difference → List PbDifference
difference_messages differences = map difference_message differences

-- Only a retyped difference has types, and it must have both.
abbrev pub restored_types : Change → ℕ → ℕ → Restored (Option Retype)
restored_types retyped reference_type candidate_type = do
  reference ← json_type_from_message reference_type
  candidate ← json_type_from_message candidate_type
  let types : Retype = record { reference = reference; candidate = candidate }
  ok (some types)
restored_types _ reference_type candidate_type = ok none

-- The loop body of `differencesFromMessages`.
abbrev pub difference_from_message : PbDifference → Restored Difference
difference_from_message m = do
  change ← change_from_message m.change
  types ← restored_types change m.reference_type m.candidate_type
  ok (record { path = m.path; change = change; retype = types; count = m.count })

-- `differencesFromMessages`.
unfoldable pub differences_from_messages : List PbDifference → Restored (List Difference)
differences_from_messages [] = ok []
differences_from_messages (m ∷ ms) = do
  difference ← difference_from_message m
  rest ← differences_from_messages ms
  ok (difference ∷ rest)

abbrev pub traffic_message : Option Traffic → Option PbTraffic
traffic_message none = none
traffic_message (some t) =
    some
      (record { direction = direction_message t.direction; protocol = t.protocol; route = t.route })

-- `QuarantineMessage`.
unfoldable pub quarantine_message : Direction → Quarantine → PbQuarantine
quarantine_message direction status = record {
  direction = direction_message direction;
  since = some status.since;
  kind = kind_message status.reason.kind;
  traffic = traffic_message status.reason.traffic;
  differences = difference_messages status.reason.differences;
  truncated = status.reason.truncated;
  detail = status.reason.detail;
  node = status.reason.node;
}

-- `Zero(message.GetNode())`: an empty node is none.
abbrev pub restored_node : Option Text → Option Text
restored_node none = none
restored_node (some []) = none
restored_node (some (c ∷ name)) = some (c ∷ name)

abbrev pub restored_traffic : Option PbTraffic → Restored (Option Traffic)
restored_traffic none = ok none
restored_traffic (some t) = do
  direction ← direction_from_message t.direction
  let traffic : Traffic = record { direction = direction; protocol = t.protocol; route = t.route }
  ok (some traffic)

-- `reasonFromMessage`.
unfoldable pub reason_from_message : PbQuarantine → Restored QuarantineReason
reason_from_message m = do
  kind ← kind_from_message m.kind
  differences ← differences_from_messages m.differences
  traffic ← restored_traffic m.traffic
  ok (record {
    kind = kind;
    traffic = traffic;
    node = restored_node m.node;
    differences = differences;
    truncated = m.truncated;
    detail = m.detail;
  })

-- `quarantineFromMessage`.
unfoldable pub quarantine_from_message : PbQuarantine → Restored Quarantine
quarantine_from_message m = elim m.since [
  | none ↦ failed quarantine_needs_start
  | some since ↦ do reason ← reason_from_message m; ok (record { reason = reason; since = since })
]

-- `QuarantineFromMessage`.
unfoldable pub directed_from_message : PbQuarantine → Restored (Direction × Quarantine)
directed_from_message m = do
  direction ← wrapping in_quarantine (direction_from_message m.direction)
  status ← wrapping in_quarantine (quarantine_from_message m)
  ok (direction, status)
