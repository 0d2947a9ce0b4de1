-- ===== src/Server/Reporter/Streams.antt =====
-- internal/server/reporter/reporter.go, with internal/server/wire/wire.go and service.go: what the server
-- knows from the messages of a stream.
use mathlib.Core.Path.{subst}
use spectre.Prelude.{
  ℕ, ◌≡◌, refl, ◌∙◌, ap, false, Option, none, some, List, [], ◌∷◌, ◌==◌, All, arith, if◌then◌else◌,
  Result, ok, ◌>>=◌, Bool-cases, inl, inr, text_eq,
}
use spectre.Prelude.Assoc.{lookup, lookup-insert}
use spectre.Model.{
  Direction, direction_eq, Quarantine, quarantined, Calls, calls_equal, State, state_update,
  quarantine_update, calls_update,
}
use spectre.Server.Wire.{PbUpdateRequest, holds_keepalive, update_message, unidentified}
use spectre.Server.Wire.RoundTrip.{
  IsSendable, IsRouted, IsReportable, canonical, lookup-ingress_first,
}
use spectre.Server.Service.{StreamError, next_state}
use spectre.Server.Service.Handlers.{next_state-message}
use spectre.Server.Reporter.{
  Reporter, state, Sent, sent_update, sent_keepalive, Event, keepalive_due, quarantine_begun,
  Stream, open_stream, handle, handle_all, Session, run,
}

-- What the client puts on the wire.
abbrev pub message_of : Sent → PbUpdateRequest
message_of (sent_update u) = update_message u
message_of sent_keepalive = holds_keepalive

-- What the server has built from the messages of a stream, the latest first: the state, once there is
-- one, or why it has refused a message. It restores each message from the wire, and ends the stream with
-- the first that it refuses.
unfoldable pub view : List Sent → Result StreamError (Option State)
view [] = ok none
view (m ∷ messages) =
    view messages >>= λ built. next_state built (message_of m) >>= λ s. ok (some s)

-- A mirror with a name, an environment and a revision, whose quarantines can be sent.
pub record IsReporting (r : Reporter) : Type 0 where
  pub identified : unidentified r.service r.environment r.revision ≡ false
  pub held : (d : Direction) (q : Quarantine) → lookup d r.quarantines ≡ some q → IsSendable q

-- An event whose message can be sent: the routes have names, and so on.
abbrev pub IsSendableEvent : Event → Type 0
IsSendableEvent (keepalive_due calls) = IsRouted calls
IsSendableEvent (quarantine_begun d q) = IsSendable q

abbrev pub IsSendableSession : Session → Type 0
IsSendableSession s = All IsSendableEvent s.events

handle-IsReporting :
    (s : Stream) (e : Event)
    → IsSendableEvent e
    → IsReporting s.reporter
    → IsReporting (handle s e).reporter
unfolding handle
handle-IsReporting s (keepalive_due calls) sendable h =
    elim (Bool-cases (calls_equal calls s.sent)) [ inl same ↦ rw same h | inr other ↦ rw other h ]
handle-IsReporting s (quarantine_begun d q) sendable h = record {
  identified = h.identified;
  held = λ c p at. elim (Bool-cases (d == c)) [
    | inl same ↦
        let is : q ≡ p = ground (arith, at, same, lookup-insert d c q s.reporter.quarantines) in
        subst IsSendable is sendable
    | inr other ↦ h.held c p (ground (arith, at, other, lookup-insert d c q s.reporter.quarantines))
  ];
}

handle_all-IsReporting :
    (s : Stream) (events : List Event)
    → All IsSendableEvent events
    → IsReporting s.reporter
    → IsReporting (handle_all s events).reporter
unfolding handle_all
handle_all-IsReporting s [] sendable h = h
handle_all-IsReporting s (e ∷ events) (first, others) h =
    handle_all-IsReporting (handle s e) events others (handle-IsReporting s e first h)

run-IsReporting :
    (r : Reporter) (sessions : List Session)
    → All IsSendableSession sessions
    → IsReporting r
    → IsReporting (run r sessions)
unfolding run open_stream
run-IsReporting r [] sendable h = h
run-IsReporting r (s ∷ sessions) (first, others) h =
    run-IsReporting (handle_all (open_stream r s.now s.calls) s.events).reporter sessions others
      (handle_all-IsReporting (open_stream r s.now s.calls) s.events first h)

-- The server has built a state with the quarantines, the calls and the names of the stream's mirror.
pub record Agrees (s : Stream) (v : State) : Type 0 where
  pub built : view s.messages ≡ ok (some v)
  pub quarantines : (d : Direction) → lookup d v.quarantines ≡ lookup d s.reporter.quarantines
  pub calls : v.calls ≡ s.sent
  pub service : v.service ≡ s.reporter.service
  pub environment : v.environment ≡ s.reporter.environment
  pub revision : v.revision ≡ s.reporter.revision

open-Agrees :
    (r : Reporter) (now : ℕ) (calls : Calls)
    → IsReporting r
    → IsRouted calls
    → Agrees (open_stream r now calls) (canonical (state r now calls))
unfolding open_stream view state
open-Agrees r now calls h routed =
    let reportable : IsReportable (state r now calls) = record {
      identified = h.identified;
      routed = routed;
      held = h.held;
    } in
    let restored = next_state-message none (state_update (state r now calls)) reportable in
    record {
      built = rw restored refl;
      quarantines = λ d. lookup-ingress_first d r.quarantines;
      calls = refl;
      service = refl;
      environment = refl;
      revision = refl;
    }

handle-Agrees :
    (s : Stream) (e : Event) (v : State)
    → IsSendableEvent e
    → Agrees s v
    → (w : State) × Agrees (handle s e) w
unfolding handle view next_state quarantined
handle-Agrees s (keepalive_due calls) v routed a = elim (Bool-cases (calls_equal calls s.sent)) [
  | inl same ↦ (
    v,
    record {
      built = rw (same, a.built) refl;
      quarantines = rw same a.quarantines;
      calls = rw same a.calls;
      service = rw same a.service;
      environment = rw same a.environment;
      revision = rw same a.revision;
    },
  )
  | inr other ↦ (
    record v { calls = calls },
    record {
      built =
          rw (other, a.built) (rw (next_state-message (some v) (calls_update calls) routed) refl);
      quarantines = rw other a.quarantines;
      calls = rw other refl;
      service = rw other a.service;
      environment = rw other a.environment;
      revision = rw other a.revision;
    },
  )
]
handle-Agrees s (quarantine_begun d q) v sendable a = (
  quarantined v d q,
  record {
    built = rw a.built (rw (next_state-message (some v) (quarantine_update d q) sendable) refl);
    quarantines = λ c. ground (
      arith,
      a.quarantines c,
      lookup-insert d c q v.quarantines,
      lookup-insert d c q s.reporter.quarantines,
    );
    calls = a.calls;
    service = a.service;
    environment = a.environment;
    revision = a.revision;
  },
)

handle_all-Agrees :
    (s : Stream) (events : List Event) (v : State)
    → All IsSendableEvent events
    → Agrees s v
    → (w : State) × Agrees (handle_all s events) w
unfolding handle_all
handle_all-Agrees s [] v sendable a = (v, a)
handle_all-Agrees s (e ∷ events) v (first, others) a =
    let (w, b) = handle-Agrees s e v first a in handle_all-Agrees (handle s e) events w others b

-- For a mirror with a name, an environment and a revision, whose quarantines and counts can be sent: at
-- each point of a stream whose messages have arrived, the server has refused none of them, and what it
-- restored from them is a state that has the quarantines of the mirror, the calls that were last sent, and
-- the mirror's names.
pub stream-Agrees :
    (r : Reporter) (now : ℕ) (calls : Calls) (events : List Event)
    → IsReporting r
    → IsRouted calls
    → All IsSendableEvent events
    → (v : State) × Agrees (handle_all (open_stream r now calls) events) v
stream-Agrees r now calls events h routed sendable =
    handle_all-Agrees (open_stream r now calls) events (canonical (state r now calls)) sendable
      (open-Agrees r now calls h routed)

-- The quarantine of a direction that began last among events, or the one from before.
unfoldable pub begun : Direction → List Event → Option Quarantine → Option Quarantine
begun d [] before = before
begun d (keepalive_due calls ∷ events) before = begun d events before
begun d (quarantine_begun e q ∷ events) before = begun d events (if e == d then some q else before)

unfoldable pub begun_in : Direction → List Session → Option Quarantine → Option Quarantine
begun_in d [] before = before
begun_in d (s ∷ sessions) before = begun_in d sessions (begun d s.events before)

handle-quarantines :
    (d : Direction) (s : Stream) (calls : Calls)
    → (handle s (keepalive_due calls)).reporter ≡ s.reporter
unfolding handle
handle-quarantines d s calls = ground arith

handle_all-begun :
    (d : Direction) (s : Stream) (events : List Event)
    → lookup d (handle_all s events).reporter.quarantines
      ≡ begun d events (lookup d s.reporter.quarantines)
unfolding handle_all begun handle
handle_all-begun d s [] = refl
handle_all-begun d s (keepalive_due calls ∷ events) =
    handle_all-begun d (handle s (keepalive_due calls)) events
    ∙ ap (λ (r : Reporter). begun d events (lookup d r.quarantines)) (handle-quarantines d s calls)
handle_all-begun d s (quarantine_begun e q ∷ events) =
    handle_all-begun d (handle s (quarantine_begun e q)) events ∙ ap (begun d events) (handled e q)
  where
    handled :
        (e : Direction) (q : Quarantine)
        → lookup d (handle s (quarantine_begun e q)).reporter.quarantines
          ≡ (if e == d then some q else lookup d s.reporter.quarantines)
    handled e q = lookup-insert e d q s.reporter.quarantines

run-begun :
    (d : Direction) (r : Reporter) (sessions : List Session)
    → lookup d (run r sessions).quarantines ≡ begun_in d sessions (lookup d r.quarantines)
unfolding run begun_in open_stream
run-begun d r [] = refl
run-begun d r (s ∷ sessions) =
    run-begun d (handle_all (open_stream r s.now s.calls) s.events).reporter sessions
    ∙ ap (begun_in d sessions) (handle_all-begun d (open_stream r s.now s.calls) s.events)

-- No quarantine is lost with a stream. For a mirror with a name, an environment and a revision, whose
-- quarantines and counts can be sent: whatever streams came before and however they ended, the server
-- refuses none of the messages of the next stream that have arrived, and what it restores from them is a
-- state which holds for each direction the quarantine that began last, on this stream or on any before it.
pub reports_lem :
    (r : Reporter) (sessions : List Session) (now : ℕ) (calls : Calls) (events : List Event)
    → IsReporting r
    → All IsSendableSession sessions
    → IsRouted calls
    → All IsSendableEvent events
    → (v : State) × (view (handle_all (open_stream (run r sessions) now calls) events).messages
        ≡ ok (some v))
      × ((d : Direction)
          → lookup d v.quarantines ≡ begun d events (begun_in d sessions (lookup d r.quarantines)))
unfolding open_stream
reports_lem r sessions now calls events h before routed sendable =
    let reporting = run-IsReporting r sessions before h in
    let (v, a) = stream-Agrees (run r sessions) now calls events reporting routed sendable in
    (
      v,
      a.built,
      λ d.
          a.quarantines d
          ∙ (handle_all-begun d (open_stream (run r sessions) now calls) events
              ∙ ap (begun d events) (run-begun d r sessions)),
    )
