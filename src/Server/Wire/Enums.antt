-- ===== src/Server/Wire/Enums.antt =====
-- internal/server/wire/wire.go: the enumerations. The numbers are those of spectrepb/spectre.pb.go.
use spectre.Prelude.{ℕ, ◌≡◌, refl, ◌==◌, nat_eq, if◌then◌else◌, Result, ok, failed}
use spectre.Model.{
  Direction, ingress, egress, Change, missing, added, changed, retyped, JsonType, null, boolean,
  number, string, object, list, QuarantineKind, divergent, unable, unmatched, unlisted, capacity,
  pairing,
}

-- The errors of the conversions, one for each message.
pub data WireError : Type 0 where
  state_needs_identity state_needs_uptime : WireError
  more_than_one_quarantine : Direction → WireError
  keepalive_holds_no_update update_holds_nothing counts_need_route : WireError
  divergence_needs_identity divergence_needs_quarantine : WireError
  quarantine_needs_start : WireError
  -- `errors.Wrap(err, "quarantine")`.
  in_quarantine : WireError → WireError
  unknown_change unknown_json_type unknown_kind unknown_direction : ℕ → WireError

abbrev pub Restored {ℓ} : Type ℓ → Type ℓ
Restored A = Result WireError A

-- `changeMessage`.
unfoldable pub change_message : Change → ℕ
change_message missing = 1
change_message added = 2
change_message changed = 3
change_message retyped = 4

-- `changeFromMessage`.
unfoldable pub change_from_message : ℕ → Restored Change
change_from_message n =
    if n == 1
    then ok missing
    else if n == 2
    then ok added
    else if n == 3
    then ok changed
    else if n == 4
    then ok retyped
    else failed (unknown_change n)

-- `jsonTypeMessage`.
unfoldable pub json_type_message : JsonType → ℕ
json_type_message null = 1
json_type_message boolean = 2
json_type_message number = 3
json_type_message string = 4
json_type_message object = 5
json_type_message list = 6

-- `jsonTypeFromMessage`.
unfoldable pub json_type_from_message : ℕ → Restored JsonType
json_type_from_message n =
    if n == 1
    then ok null
    else if n == 2
    then ok boolean
    else if n == 3
    then ok number
    else if n == 4
    then ok string
    else if n == 5
    then ok object
    else if n == 6
    then ok list
    else failed (unknown_json_type n)

-- `kindMessage`.
unfoldable pub kind_message : QuarantineKind → ℕ
kind_message divergent = 1
kind_message unable = 2
kind_message unmatched = 3
kind_message unlisted = 4
kind_message capacity = 5
kind_message pairing = 6

-- `kindFromMessage`.
unfoldable pub kind_from_message : ℕ → Restored QuarantineKind
kind_from_message n =
    if n == 1
    then ok divergent
    else if n == 2
    then ok unable
    else if n == 3
    then ok unmatched
    else if n == 4
    then ok unlisted
    else if n == 5
    then ok capacity
    else if n == 6
    then ok pairing
    else failed (unknown_kind n)

-- `directionMessage`.
unfoldable pub direction_message : Direction → ℕ
direction_message ingress = 1
direction_message egress = 2

-- `directionFromMessage`.
unfoldable pub direction_from_message : ℕ → Restored Direction
direction_from_message n =
    if n == 1 then ok ingress else if n == 2 then ok egress else failed (unknown_direction n)

pub change_round : (c : Change) → change_from_message (change_message c) ≡ ok c
unfolding change_message change_from_message
change_round missing = refl
change_round added = refl
change_round changed = refl
change_round retyped = refl

pub json_type_round : (t : JsonType) → json_type_from_message (json_type_message t) ≡ ok t
unfolding json_type_message json_type_from_message
json_type_round null = refl
json_type_round boolean = refl
json_type_round number = refl
json_type_round string = refl
json_type_round object = refl
json_type_round list = refl

pub kind_round : (k : QuarantineKind) → kind_from_message (kind_message k) ≡ ok k
unfolding kind_message kind_from_message
kind_round divergent = refl
kind_round unable = refl
kind_round unmatched = refl
kind_round unlisted = refl
kind_round capacity = refl
kind_round pairing = refl

pub direction_round : (d : Direction) → direction_from_message (direction_message d) ≡ ok d
unfolding direction_message direction_from_message
direction_round ingress = refl
direction_round egress = refl
