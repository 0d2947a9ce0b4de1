-- ===== src/Server/Reporter.antt =====
-- internal/server/reporter/reporter.go: how a mirror reports itself to the server, on one stream
-- after another.
--
-- What `select` receives is an event, in the order in which it is received, with the value that
-- `r.calls` gives where it is called. A stream is a history of what was sent on it; that a send fails
-- ends the stream, after the event that it belongs to. A duration is a number of nanoseconds, and a
-- random number is an argument. A stream that cannot be opened is one without events.
pub mod Streams
pub mod Backoff
pub mod Tests
use Prim.Native.Nat.{min}
use spectre.Prelude.{
  ℕ, suc, ◌+◌, ◌-◌, ◌*◌, ◌/◌, ◌%◌, Bool, true, false, not, ◌||◌, Option, none, some, List, [], ◌∷◌,
  Text, ltb, if◌then◌else◌,
}
use spectre.Prelude.Assoc.{insert}
use spectre.Model.{
  Direction, direction_eq, Quarantine, Calls, calls_equal, State, Update, state_update,
  quarantine_update, calls_update,
}

-- `Reporter`; `started` is when its uptime began.
pub record Reporter : Type 0 where
  pub service : Text
  pub environment : Text
  pub revision : Text
  pub spectre_version : Text
  pub started : ℕ
  pub quarantines : List (Direction × Quarantine)

-- `state`, at a time and with what `r.calls` gives.
unfoldable pub state : Reporter → ℕ → Calls → State
state r now calls = record {
  service = r.service;
  environment = r.environment;
  revision = r.revision;
  spectre_version = r.spectre_version;
  uptime = now - r.started;
  quarantines = r.quarantines;
  calls = calls;
}

-- A message of the stream.
pub data Sent : Type 0 where
  sent_update : Update → Sent
  sent_keepalive : Sent

-- What the loop of `stream` receives, but for the events that only end it.
pub data Event : Type 0 where
  keepalive_due : Calls → Event
  quarantine_begun : Direction → Quarantine → Event

-- The variables of `stream`; what was sent stands latest first.
pub record Stream : Type 0 where
  pub reporter : Reporter
  pub sent : Calls
  pub messages : List Sent

-- `stream`, up to its loop.
unfoldable pub open_stream : Reporter → ℕ → Calls → Stream
open_stream r now calls = record {
  reporter = r;
  sent = calls;
  messages = sent_update (state_update (state r now calls)) ∷ [];
}

-- The body of the loop of `stream`. A quarantine is recorded before it is sent.
unfoldable pub handle : Stream → Event → Stream
handle s (keepalive_due calls) =
    if not (calls_equal calls s.sent)
    then record s { sent = calls; messages = sent_update (calls_update calls) ∷ s.messages }
    else record s { messages = sent_keepalive ∷ s.messages }
handle s (quarantine_begun d q) = record s {
  reporter = record s.reporter { quarantines = insert d q s.reporter.quarantines };
  messages = sent_update (quarantine_update d q) ∷ s.messages;
}

-- The loop of `stream`, up to its end.
unfoldable pub handle_all : Stream → List Event → Stream
handle_all s [] = s
handle_all s (e ∷ events) = handle_all (handle s e) events

-- A stream of `Run`: when it opens, with which calls, and what happens on it until it ends.
pub record Session : Type 0 where
  pub now : ℕ
  pub calls : Calls
  pub events : List Event

-- The streams of `Run`, one after the other.
unfoldable pub run : Reporter → List Session → Reporter
run r [] = r
run r (s ∷ sessions) = run (handle_all (open_stream r s.now s.calls) s.events).reporter sessions

-- `minRetryDelay` and `maxRetryDelay`.
abbrev pub min_retry_delay : ℕ
min_retry_delay = 1000000000

abbrev pub max_retry_delay : ℕ
max_retry_delay = 60000000000

-- `jitter`, with a random number that `rand.N` cuts to its range.
unfoldable pub jitter : ℕ → ℕ → ℕ
jitter d random = d / 2 + random % (d / 2 + 1)

-- The delay that `Run` has after a stream, before it waits.
unfoldable pub delay_after : ℕ → Bool → ℕ → ℕ
delay_after delay lost lasted =
    if not lost || ltb max_retry_delay lasted then min_retry_delay else delay

-- The delay that the next stream begins with.
unfoldable pub next_delay : ℕ → Bool → ℕ → ℕ
next_delay delay lost lasted =
    let current = delay_after delay lost lasted in
    if lost then min (current * 2) max_retry_delay else current
