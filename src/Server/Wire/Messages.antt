-- ===== src/Server/Wire/Messages.antt =====
-- internal/server/wire/wire.go: states, updates, call counts, divergences and lists of them.
use spectre.Prelude.{
  ℕ, Bool, ◌||◌, Option, none, some, List, [], ◌∷◌, ◌++◌, map, Text, ◌==◌, text_eq, nat_eq, ltb,
  length, is_some, if◌then◌else◌, ok, failed, ◌>>=◌, Assoc.lookup, Assoc.insert,
}
use spectre.Model.{
  Direction, ingress, egress, direction_eq, Quarantine, Calls, State, Update, state_update,
  quarantine_update, calls_update, Divergence, DivergenceFilter,
}
use spectre.Server.Wire.Enums.{
  Restored, state_needs_identity, state_needs_uptime, more_than_one_quarantine,
  keepalive_holds_no_update, update_holds_nothing, counts_need_route, divergence_needs_identity,
  divergence_needs_quarantine,
}
use spectre.Server.Wire.Reasons.{PbQuarantine, quarantine_message, directed_from_message}

-- `pb.Calls`.
pub record PbCalls : Type 0 where
  pub routes : List (Text × ℕ)
  pub other : ℕ

-- `pb.State`.
pub record PbState : Type 0 where
  pub service : Text
  pub environment : Text
  pub revision : Text
  pub spectre_version : Text
  pub uptime : Option ℕ
  pub quarantines : List PbQuarantine
  pub calls : Option PbCalls

-- `pb.UpdateRequest`: the field that its `oneof` holds.
pub data PbUpdateRequest : Type 0 where
  holds_nothing : PbUpdateRequest
  holds_state : PbState → PbUpdateRequest
  holds_quarantine : PbQuarantine → PbUpdateRequest
  holds_keepalive : PbUpdateRequest
  holds_calls : PbCalls → PbUpdateRequest

-- `pb.Divergence`.
pub record PbDivergence : Type 0 where
  pub service : Text
  pub environment : Text
  pub revision : Text
  pub quarantine : Option PbQuarantine

-- `pb.ListDivergencesResponse`.
pub record PbListResponse : Type 0 where
  pub states : List PbState
  pub divergences : List PbDivergence

-- `pb.ListDivergencesRequest`.
pub record PbListRequest : Type 0 where
  pub service : Option Text
  pub environment : Option Text
  pub revision : Option Text
  pub node : Option Text

-- `CallsMessage`.
unfoldable pub calls_message : Calls → PbCalls
calls_message calls = record { routes = calls.routes; other = calls.other }

-- The loop of `CallsFromMessage`.
unfoldable pub restored_routes : List (Text × ℕ) → Restored (List (Text × ℕ))
restored_routes [] = ok []
restored_routes ((route, count) ∷ rest) =
    if route == []
    then failed counts_need_route
    else (restored_routes rest >>= λ copied. ok ((route, count) ∷ copied))

-- `CallsFromMessage`; nothing is counted where there is no message.
unfoldable pub calls_from_message : Option PbCalls → Restored Calls
calls_from_message none = ok (record { routes = []; other = 0 })
calls_from_message (some m) = do
  routes ← restored_routes m.routes
  ok (record { routes = routes; other = m.other })

-- Calls that count none are left out of a state's message.
abbrev pub counts_any : Calls → Bool
counts_any calls = ltb 0 (length calls.routes) || ltb 0 calls.other

abbrev pub held_message : Direction → Option Quarantine → List PbQuarantine
held_message direction none = []
held_message direction (some q) = quarantine_message direction q ∷ []

-- `StateMessage`: ingress first.
unfoldable pub state_message : State → PbState
state_message s = record {
  service = s.service;
  environment = s.environment;
  revision = s.revision;
  spectre_version = s.spectre_version;
  uptime = some s.uptime;
  quarantines =
      held_message ingress (lookup ingress s.quarantines)
      ++ held_message egress (lookup egress s.quarantines);
  calls = if counts_any s.calls then some (calls_message s.calls) else none;
}

-- The loop of `StateFromMessage`, from the quarantines restored so far.
unfoldable pub restored_quarantines :
    List PbQuarantine → List (Direction × Quarantine) → Restored (List (Direction × Quarantine))
restored_quarantines [] held = ok held
restored_quarantines (m ∷ ms) held = directed_from_message m >>= λ (found : Direction × Quarantine).
    if is_some (lookup found.0 held)
    then failed (more_than_one_quarantine found.0)
    else restored_quarantines ms (insert found.0 found.1 held)

abbrev pub unidentified : Text → Text → Text → Bool
unidentified service environment revision = service == [] || (environment == [] || revision == [])

-- What `StateFromMessage` does once the names and the uptime are there.
abbrev pub restored_state : PbState → ℕ → Restored State
restored_state m uptime = do
  calls ← calls_from_message m.calls
  quarantines ← restored_quarantines m.quarantines []
  ok (record {
    service = m.service;
    environment = m.environment;
    revision = m.revision;
    spectre_version = m.spectre_version;
    uptime = uptime;
    quarantines = quarantines;
    calls = calls;
  })

-- `StateFromMessage`.
unfoldable pub state_from_message : PbState → Restored State
state_from_message m =
    if unidentified m.service m.environment m.revision
    then failed state_needs_identity
    else elim m.uptime [ none ↦ failed state_needs_uptime | some uptime ↦ restored_state m uptime ]

-- `UpdateMessage`.
unfoldable pub update_message : Update → PbUpdateRequest
update_message (state_update s) = holds_state (state_message s)
update_message (quarantine_update d q) = holds_quarantine (quarantine_message d q)
update_message (calls_update c) = holds_calls (calls_message c)

-- `UpdateFromMessage`.
unfoldable pub update_from_message : PbUpdateRequest → Restored Update
update_from_message (holds_state m) = state_from_message m >>= λ s. ok (state_update s)
update_from_message (holds_quarantine m) =
    directed_from_message m >>= λ (found : Direction × Quarantine).
    ok (quarantine_update found.0 found.1)
update_from_message (holds_calls m) = calls_from_message (some m) >>= λ c. ok (calls_update c)
update_from_message holds_keepalive = failed keepalive_holds_no_update
update_from_message holds_nothing = failed update_holds_nothing

-- `DivergenceMessage`.
unfoldable pub divergence_message : Divergence → PbDivergence
divergence_message d = record {
  service = d.service;
  environment = d.environment;
  revision = d.revision;
  quarantine = some (quarantine_message d.direction d.quarantine);
}

-- `DivergenceFromMessage`.
unfoldable pub divergence_from_message : PbDivergence → Restored Divergence
divergence_from_message m =
    if unidentified m.service m.environment m.revision
    then failed divergence_needs_identity
    else elim m.quarantine [
      | none ↦ failed divergence_needs_quarantine
      | some held ↦ directed_from_message held >>= λ (found : Direction × Quarantine). ok (record {
        service = m.service;
        environment = m.environment;
        revision = m.revision;
        direction = found.0;
        quarantine = found.1;
      })
    ]

-- `ListResponse`.
unfoldable pub list_response : List State → List Divergence → PbListResponse
list_response states divergences = record {
  states = map state_message states;
  divergences = map divergence_message divergences;
}

-- A loop that restores each message, up to the first error.
unfoldable pub restored_all {ℓ κ} :
    {M : Type ℓ} {A : Type κ} → (M → Restored A) → List M → Restored (List A)
restored_all restore [] = ok []
restored_all restore (m ∷ ms) = do
  first ← restore m
  rest ← restored_all restore ms
  ok (first ∷ rest)

-- `ListFromResponse`.
unfoldable pub list_from_response : PbListResponse → Restored (List State × List Divergence)
list_from_response response = do
  states ← restored_all state_from_message response.states
  divergences ← restored_all divergence_from_message response.divergences
  ok (states, divergences)

-- `FilterMessage`.
unfoldable pub filter_message : DivergenceFilter → PbListRequest
filter_message f = record {
  service = f.service;
  environment = f.environment;
  revision = f.revision;
  node = f.node;
}

-- `FilterFromMessage`.
unfoldable pub filter_from_message : PbListRequest → DivergenceFilter
filter_from_message m = record {
  service = m.service;
  environment = m.environment;
  revision = m.revision;
  node = m.node;
}
