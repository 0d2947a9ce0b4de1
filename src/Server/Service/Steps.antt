-- ===== src/Server/Service/Steps.antt =====
-- internal/server/service.go: a server with the memory backend and any number of open streams. Each call
-- of the store, which takes its lock, is a step of its own.
use spectre.Prelude.{
  ℕ, ◌≤◌, ◌≡◌, Option, none, some, List, [], ◌∷◌, ◌++◌, Text, All, ok, failed, get_elem?, set,
  remove_at, if◌then◌else◌,
}
use spectre.Model.{Direction, Quarantine, State}
use spectre.Server.Storage.{Quoting}
use spectre.Server.Storage.Memory.{Memory, new_memory, states, clear, put, record_divergence}
use spectre.Server.Wire.{PbUpdateRequest}
use spectre.Server.Service.{
  Stream, new_stream, StreamError, next_state, measured_at, aged, adds_no_quarantine, divergence_of,
}
use spectre.Server.Service.Covered.{AreCovered}

-- An open stream: the variables of its `Update`, and the quarantines that the loop of
-- `recordQuarantines` has not recorded yet, if it is in that loop.
pub record Session : Type 0 where
  pub stream : Stream
  pub pending : List (Direction × Quarantine)

unfoldable pub new_session : Session
new_session = record { stream = new_stream; pending = [] }

pub record Server : Type 0 where
  pub memory : Memory
  pub sessions : List Session

-- Each quarantine that a stream has told of began by a time.
abbrev pub HasBegun : ℕ → Option State → Type 0
HasBegun at none = Unit
HasBegun at (some s) = All (λ (h : Direction × Quarantine). h.1.since ≤ at) s.quarantines

-- What `recordQuarantines` goes through after a message.
abbrev pub to_record : PbUpdateRequest → State → List (Direction × Quarantine)
to_record msg current = if adds_no_quarantine msg then [] else current.quarantines

abbrev pub after_put : Session → PbUpdateRequest → ℕ → State → Session
after_put session msg now current = record {
  stream = record { state = some current; measured = measured_at msg now session.stream.measured };
  pending = to_record msg current;
}

module _ (q : Quoting) where
  -- `puts` is what `Update` does with a message up to its call of `Put`, and `records` one round of the
  -- loop of `recordQuarantines`; a message is received once the last one's quarantines are recorded. A
  -- stream that is refused, or that ends, is closed. `lists` is the call of `States`, and that of
  -- `Divergences` changes nothing. A clear comes after the quarantines that open streams have told of
  -- began.
  pub data Step : Server → Server → Type 0 where
    opens : (s : Server) → Step s (record s { sessions = new_session ∷ s.sessions })
    puts :
        (s : Server) (i : ℕ) (session : Session) (msg : PbUpdateRequest) (now : ℕ) (current : State)
        → get_elem? s.sessions i ≡ some session
        → session.pending ≡ []
        → next_state session.stream.state msg ≡ ok current
        → Step s (record {
          memory =
              put q s.memory (aged current now (measured_at msg now session.stream.measured)) now;
          sessions = set s.sessions i (after_put session msg now current);
        })
    records :
        (s : Server) (i : ℕ) (session : Session) (current : State) (held : Direction × Quarantine)
        (rest : List (Direction × Quarantine))
        → get_elem? s.sessions i ≡ some session
        → session.stream.state ≡ some current
        → session.pending ≡ held ∷ rest
        → Step s (record {
          memory = record_divergence q s.memory (divergence_of current held);
          sessions = set s.sessions i (record session { pending = rest });
        })
    refuses :
        (s : Server) (i : ℕ) (session : Session) (msg : PbUpdateRequest) (e : StreamError)
        → get_elem? s.sessions i ≡ some session
        → session.pending ≡ []
        → next_state session.stream.state msg ≡ failed e
        → Step s (record s { sessions = remove_at s.sessions i })
    closes : (s : Server) (i : ℕ) → Step s (record s { sessions = remove_at s.sessions i })
    lists : (s : Server) (since : ℕ) → Step s (record s { memory = (states s.memory since).0 })
    clears :
        (s : Server) (service environment : Text) (at : ℕ)
        → All (λ (session : Session). HasBegun at session.stream.state) s.sessions
        → Step s (record s { memory = clear q s.memory service environment at })

  pub data Reach : Server → Type 0 where
    starts : Reach (record { memory = new_memory; sessions = [] })
    continues : (s t : Server) → Reach s → Step s t → Reach t

  -- All quarantines of the state that a stream has built are accounted for, but the last ones, which it is
  -- still to record.
  abbrev pub SessionIsCovered : Memory → Option State → List (Direction × Quarantine) → Type 0
  SessionIsCovered m none pending = pending ≡ []
  SessionIsCovered m (some s) pending =
      (recorded : List (Direction × Quarantine)) × (s.quarantines ≡ recorded ++ pending)
      × AreCovered q m s recorded

  abbrev pub ServerIsCovered : Memory → List Session → Type 0
  ServerIsCovered m sessions =
      All (λ (session : Session). SessionIsCovered m session.stream.state session.pending) sessions
