-- ===== src/Server/Service.antt =====
-- internal/server/service.go and filter.go: the handlers of the service's API.
--
-- A handler is given its store as an interface, each of whose calls may fail and leaves some state
-- behind either way. The time of each call of `time.Now` is an argument. Serving HTTP and the codes
-- of connect are not modelled: an error keeps which code it has and what caused it.
pub mod Filter
pub mod Covered
pub mod Steps
pub mod Interleaved
pub mod Uninterrupted
pub mod Handlers
pub mod Tests
use spectre.Prelude.{
  ℕ, ◌+◌, ◌-◌, Bool, true, false, ◌||◌, Option, none, some, List, [], ◌∷◌, Text, ◌==◌, text_eq,
  if◌then◌else◌, Result, ok, failed, ◌>>=◌,
}
use spectre.Model.{
  Direction, Quarantine, quarantined, State, Update, state_update, quarantine_update, calls_update,
  Divergence, Calls,
}
use spectre.Server.Wire.{
  WireError, PbUpdateRequest, holds_nothing, holds_state, holds_quarantine, holds_keepalive,
  holds_calls, PbListRequest, PbListResponse, update_from_message, filter_from_message,
  list_response,
}
use spectre.Server.Service.Filter.{filter_states, filter_divergences}

-- `storage.Store`.
pub record Store (S : Type 0) : Type 0 where
  pub put : S → State → ℕ → S × Result Text (Unit {0})
  pub states : S → ℕ → S × Result Text (List State)
  pub record_divergence : S → Divergence → S × Result Text (Unit {0})
  pub clear : S → Text → Text → ℕ → S × Result Text (Unit {0})
  pub divergences : S → S × Result Text (List Divergence)

pub data StreamError : Type 0 where
  stream_must_begin_with_state : StreamError
  in_message : WireError → StreamError

pub data ServiceError : Type 0 where
  invalid_update : StreamError → ServiceError
  clear_needs_service_and_environment : ServiceError
  unavailable : Text → ServiceError
  receive_failed : Text → ServiceError

-- The switch of `nextState` on an update.
abbrev pub applied : Option State → Update → Result StreamError State
applied state (state_update s) = ok s
applied none (quarantine_update d q) = failed stream_must_begin_with_state
applied (some current) (quarantine_update d q) = ok (quarantined current d q)
applied none (calls_update c) = failed stream_must_begin_with_state
applied (some current) (calls_update c) = ok (record current { calls = c })

abbrev kept : Option State → Result StreamError State
kept none = failed stream_must_begin_with_state
kept (some current) = ok current

abbrev pub from_wire {ℓ} : {A : Type ℓ} → Result WireError A → Result StreamError A
from_wire (ok a) = ok a
from_wire (failed e) = failed (in_message e)

abbrev pub restored_update : PbUpdateRequest → Result StreamError Update
restored_update m = from_wire (update_from_message m)

-- `nextState`.
unfoldable pub next_state : Option State → PbUpdateRequest → Result StreamError State
next_state state holds_keepalive = kept state
next_state state m = restored_update m >>= λ u. applied state u

-- The variables of `Update`: the state that the stream has built, and when it was measured.
pub record Stream : Type 0 where
  pub state : Option State
  pub measured : ℕ

unfoldable pub new_stream : Stream
new_stream = record { state = none; measured = 0 }

abbrev pub measured_at : PbUpdateRequest → ℕ → ℕ → ℕ
measured_at (holds_state m) now measured = now
measured_at _ now measured = measured

-- Whether a message leaves the quarantines as they were.
abbrev pub adds_no_quarantine : PbUpdateRequest → Bool
adds_no_quarantine holds_keepalive = true
adds_no_quarantine (holds_calls m) = true
adds_no_quarantine _ = false

abbrev pub divergence_of : State → Direction × Quarantine → Divergence
divergence_of s held = record {
  service = s.service;
  environment = s.environment;
  revision = s.revision;
  direction = held.0;
  quarantine = held.1;
}

-- The uptime that a state has by now. The clock is monotonic.
abbrev pub aged : State → ℕ → ℕ → State
aged s now measured = record s { uptime = s.uptime + (now - measured) }

-- How a stream ends.
pub data End : Type 0 where
  eof : End
  broken : Text → End

module _ {S : Type 0} (api : Store S) where
  open api use {put, states, record_divergence, clear, divergences}

  -- The loop of `recordQuarantines`.
  unfoldable pub record_all : S → State → List (Direction × Quarantine) → S × Result Text (Unit {0})
  record_all s state [] = (s, ok tt)
  record_all s state (held ∷ rest) =
      let (next, result) = record_divergence s (divergence_of state held) in
      elim result [ ok done ↦ record_all next state rest | failed e ↦ (next, failed e) ]

  -- `recordQuarantines`.
  unfoldable pub record_quarantines : S → State → S × Result Text (Unit {0})
  record_quarantines s state = record_all s state state.quarantines

  -- What a message does once its state is known.
  unfoldable pub store_current :
      S → PbUpdateRequest → State → ℕ → ℕ → S × Result ServiceError Stream
  store_current s m current now measured =
      let stream : Stream = record { state = some current; measured = measured } in
      let (stored, result) = put s (aged current now measured) now in
      elim result [
        | failed e ↦ (stored, failed (unavailable e))
        | ok done ↦
            if adds_no_quarantine m
            then (stored, ok stream)
            else (let (recorded, outcome) = record_quarantines stored current in
                elim outcome [
                  | failed e ↦ (recorded, failed (unavailable e))
                  | ok done ↦ (recorded, ok stream)
                ])
      ]

  -- What `Update` does with the result of `nextState`.
  abbrev pub act_on :
      S → PbUpdateRequest → ℕ → ℕ → Result StreamError State → S × Result ServiceError Stream
  act_on s m now measured (failed e) = (s, failed (invalid_update e))
  act_on s m now measured (ok current) = store_current s m current now measured

  -- The body of the loop of `Update`, for a message that was received at `now`.
  unfoldable pub receive : S → Stream → PbUpdateRequest → ℕ → S × Result ServiceError Stream
  receive s stream m now =
      act_on s m now (measured_at m now stream.measured) (next_state stream.state m)

  -- The loop of `Update` returns on the first error.
  abbrev pub go_on :
      (S → Stream → S × Result ServiceError (Unit {0}))
      → S × Result ServiceError Stream
      → S × Result ServiceError (Unit {0})
  go_on rest (s, ok stream) = rest s stream
  go_on rest (s, failed e) = (s, failed e)

  -- `Update`, from the state of a stream that has begun.
  unfoldable pub receive_all :
      S → Stream → List (PbUpdateRequest × ℕ) → End → S × Result ServiceError (Unit {0})
  receive_all s stream [] eof = (s, ok tt)
  receive_all s stream [] (broken e) = (s, failed (receive_failed e))
  receive_all s stream ((m, now) ∷ rest) end =
      go_on (λ next advanced. receive_all next advanced rest end) (receive s stream m now)

  -- `Update`.
  unfoldable pub update : S → List (PbUpdateRequest × ℕ) → End → S × Result ServiceError (Unit {0})
  update s messages end = receive_all s new_stream messages end

  -- `ListDivergences`; a time before the first is the first.
  unfoldable pub list_divergences :
      ℕ → S → PbListRequest → ℕ → S × Result ServiceError PbListResponse
  list_divergences ttl s request now =
      let (pruned, listed) = states s (now - ttl) in
      let (read, found) = divergences pruned in
      let f = filter_from_message request in
      elim listed [
        | failed e ↦ (pruned, failed (unavailable e))
        | ok ss ↦ elim found [
          | failed e ↦ (read, failed (unavailable e))
          | ok ds ↦ (read, ok (list_response (filter_states ss f) (filter_divergences ds f)))
        ]
      ]

  -- `ClearDivergences`.
  unfoldable pub clear_divergences : S → Text → Text → ℕ → S × Result ServiceError (Unit {0})
  clear_divergences s service environment now =
      if service == [] || environment == []
      then (s, failed clear_needs_service_and_environment)
      else (let (cleared, result) = clear s service environment now in
          elim result [ ok done ↦ (cleared, ok tt) | failed e ↦ (cleared, failed (unavailable e)) ])
