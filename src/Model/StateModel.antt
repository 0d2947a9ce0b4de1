-- ===== src/Model/StateModel.antt =====
-- internal/model/calls.go, state.go and update.go. A count is a uint64; a duration is a number of
-- nanoseconds.
use spectre.Prelude.{
  ℕ, Bool, Option, none, some, List, Text, nat_beq, ◌&&◌, every, length, Assoc.lookup, Assoc.insert,
  text_eq,
}
use spectre.Model.TrafficModel.{Direction, Route, direction_eq}
use spectre.Model.QuarantineModel.{Quarantine}

pub record Calls : Type 0 where
  pub routes : List (Route × ℕ)
  pub other : ℕ

-- `maps.Equal`: as many entries, and each entry of the first in the second.
abbrev same_count : Option ℕ → ℕ → Bool
same_count none n = nat_beq 0 1
same_count (some m) n = nat_beq n m

abbrev pub maps_equal : List (Route × ℕ) → List (Route × ℕ) → Bool
maps_equal a b =
    nat_beq (length a) (length b) && every (λ (e : Route × ℕ). same_count (lookup e.0 b) e.1) a

-- `Calls.Equal`.
unfoldable pub calls_equal : Calls → Calls → Bool
calls_equal c other = nat_beq c.other other.other && maps_equal c.routes other.routes

pub record State : Type 0 where
  pub service : Text
  pub environment : Text
  pub revision : Text
  pub spectre_version : Text
  pub uptime : ℕ
  pub quarantines : List (Direction × Quarantine)
  pub calls : Calls

-- `State.Quarantined`: a copy of the map, with one entry written.
unfoldable pub quarantined : State → Direction → Quarantine → State
quarantined s direction quarantine = record s {
  quarantines = insert direction quarantine s.quarantines;
}

-- `Update`, a sum type of the three messages.
pub data Update : Type 0 where
  state_update : State → Update
  quarantine_update : Direction → Quarantine → Update
  calls_update : Calls → Update
