-- ===== src/Server/Service/Handlers.antt =====
-- internal/server/service.go: what one message of a stream does, and how a stream must begin.
use spectre.Prelude.{
  ℕ, ◌+◌, ◌-◌, ◌≡◌, ap, ◌≢◌, ◌∙◌, refl, Bool, true, false, Option, none, some, List, [], ◌∷◌, arith,
  Text, text_eq, eq_refl, Result, ok, failed, ◌>>=◌, Bool-cases, inl, inr,
}
use spectre.Prelude.Assoc.{lookup, insert, lookup-insert}
use spectre.Model.{
  Divergence, Calls, Direction, Quarantine, State, Update, state_update, quarantine_update,
  calls_update, quarantined, direction_eq,
}
use spectre.Server.Storage.{Quoting, Received, state_key}
use spectre.Server.Storage.Memory.{Memory, put, record_divergence}
use spectre.Server.Wire.{
  PbUpdateRequest, holds_nothing, holds_state, holds_quarantine, holds_keepalive, holds_calls,
  WireError, update_from_message, directed_from_message, calls_from_message,
}
use spectre.Server.Wire.{update_message}
use spectre.Server.Wire.RoundTrip.{canonical, ingress_first}
use spectre.Server.Wire.Lists.{IsReportableUpdate, canonical_update, update_round}
use spectre.Server.Service.{
  Store, Stream, new_stream, End, StreamError, invalid_update, divergence_of, aged, from_wire,
  record_all, record_quarantines, store_current, act_on, go_on, receive, receive_all, update,
  next_state, applied, adds_no_quarantine, measured_at, stream_must_begin_with_state,
}
use spectre.Server.Service.Covered.{memory_store, AreCovered, record_all_ok}

-- Whether a message holds the whole state.
abbrev pub is_state : PbUpdateRequest → Bool
is_state (holds_state m) = true
is_state _ = false

not_begun :
    (r : Result WireError Update)
    → ((s : State) → r ≢ ok (state_update s))
    → (e : StreamError) × ((from_wire r >>= λ u. applied none u) ≡ failed e)
not_begun (ok (state_update s)) h = ground (arith, h s refl)
not_begun (ok (quarantine_update d t)) h = (stream_must_begin_with_state, refl)
not_begun (ok (calls_update c)) h = (stream_must_begin_with_state, refl)
not_begun (failed e) h = (_, refl)

no_state :
    (m : PbUpdateRequest) (s : State)
    → is_state m ≡ false
    → update_from_message m ≢ ok (state_update s)
unfolding update_from_message
no_state holds_nothing s h e = cc
no_state (holds_state m) s h e = cc
no_state (holds_quarantine m) s h e = only (directed_from_message m) e
  where
    only :
        (r : Result WireError (Direction × Quarantine))
        → (r >>= λ (found : Direction × Quarantine). ok (quarantine_update found.0 found.1))
          ≢ ok (state_update s)
    only (ok found) e = cc
    only (failed w) e = cc
no_state holds_keepalive s h e = cc
no_state (holds_calls m) s h e = only (calls_from_message (some m)) e
  where
    only : (r : Result WireError Calls) → (r >>= λ c. ok (calls_update c)) ≢ ok (state_update s)
    only (ok c) e = cc
    only (failed w) e = cc

first_refused :
    (m : PbUpdateRequest) → is_state m ≡ false → (e : StreamError) × (next_state none m ≡ failed e)
unfolding next_state
first_refused holds_keepalive h = (stream_must_begin_with_state, refl)
first_refused (holds_state m) h = cc
first_refused holds_nothing h =
    not_begun (update_from_message holds_nothing) (λ s. no_state holds_nothing s h)
first_refused (holds_quarantine m) h =
    not_begun (update_from_message (holds_quarantine m)) (λ s. no_state (holds_quarantine m) s h)
first_refused (holds_calls m) h =
    not_begun (update_from_message (holds_calls m)) (λ s. no_state (holds_calls m) s h)

receive-refused :
    {S : Type 0} (api : Store S) (s : S) (m : PbUpdateRequest) (now : ℕ) (e : StreamError)
    → next_state none m ≡ failed e
    → receive api s new_stream m now ≡ (s, failed (invalid_update e))
unfolding receive new_stream
receive-refused api s m now e h = ap (act_on api s m now (measured_at m now 0)) h

-- A stream whose first message does not hold the mirror's state is refused as invalid, whatever
-- follows it, and no store is touched.
pub update-begins :
    {S : Type 0} (api : Store S) (s : S) (m : PbUpdateRequest) (now : ℕ)
    (rest : List (PbUpdateRequest × ℕ)) (end : End)
    → is_state m ≡ false
    → (e : StreamError) × (update api s ((m, now) ∷ rest) end ≡ (s, failed (invalid_update e)))
unfolding update receive_all
update-begins api s m now rest end h =
    let (e, refused) = first_refused m h in
    (
      e,
      ap (go_on api (λ next advanced. receive_all api next advanced rest end))
          (receive-refused api s m now e refused),
    )

-- A stream moves on by the update that the mirror sent: what the mirror's message of a reportable
-- update does to the state that the stream has built is what the update itself does, with a state's
-- quarantines ingress first.
pub next_state-message :
    (state : Option State) (u : Update)
    → IsReportableUpdate u
    → next_state state (update_message u) ≡ (applied state (canonical_update u))
unfolding next_state update_message
next_state-message state (state_update s) h =
    ap (λ r. from_wire r >>= λ u. applied state u) (update_round (state_update s) h)
next_state-message state (quarantine_update d t) h =
    ap (λ r. from_wire r >>= λ u. applied state u) (update_round (quarantine_update d t) h)
next_state-message state (calls_update c) h =
    ap (λ r. from_wire r >>= λ u. applied state u) (update_round (calls_update c) h)

module _ (q : Quoting) where
  record-states : (m : Memory) (d : Divergence) → (record_divergence q m d).states ≡ m.states
  unfolding record_divergence
  record-states m d = ground arith

  record_all-states :
      (m : Memory) (s : State) (held : List (Direction × Quarantine))
      → (record_all (memory_store q) m s held).0.states ≡ m.states
  unfolding record_all memory_store
  record_all-states m s [] = refl
  record_all-states m s (h ∷ held) =
      record_all-states (record_divergence q m (divergence_of s h)) s held
      ∙ record-states m (divergence_of s h)

  abbrev pub key_of : State → Text
  key_of s = state_key q s.service s.environment

  -- What the server keeps of a stream's state `s` after a message of the stream.
  pub record IsCurrent (m : Memory) (stream : Stream) (msg : PbUpdateRequest) (now : ℕ) (s : State)
      : Type 0 where
    pub goes_on :
        (receive (memory_store q) m stream msg now).1
        ≡ ok (record { state = some s; measured = measured_at msg now stream.measured })
    pub kept :
        lookup (key_of s) (receive (memory_store q) m stream msg now).0.states
        ≡ some (record { state = aged s now (measured_at msg now stream.measured); at = now })
    pub quiet :
        adds_no_quarantine msg ≡ true
        → (receive (memory_store q) m stream msg now).0.divergences ≡ m.divergences

  put-key :
      (m : Memory) (s : State) (now measured : ℕ)
      → lookup (key_of s) (put q m (aged s now measured) now).states
        ≡ some (record { state = aged s now measured; at = now })
  unfolding put
  put-key m s now measured =
      let stored : Received = record { state = aged s now measured; at = now } in
      rw (lookup-insert (key_of s) (key_of s) stored m.states, eq_refl (key_of s)) refl

  pub receive-IsCurrent :
      (m : Memory) (stream : Stream) (msg : PbUpdateRequest) (now : ℕ) (s : State)
      → next_state stream.state msg ≡ ok s
      → IsCurrent m stream msg now s
  unfolding receive store_current record_quarantines memory_store put
  receive-IsCurrent m stream msg now s next =
      let measured = measured_at msg now stream.measured in
      let stored = put q m (aged s now measured) now in
      let recorded = record_all_ok q stored s s.quarantines in
      elim (Bool-cases (adds_no_quarantine msg)) [
        | inl quiet ↦ record {
          goes_on = rw (next, quiet) refl;
          kept = rw (next, quiet) (put-key m s now measured);
          quiet = λ h. rw (next, quiet) refl;
        }
        | inr loud ↦ record {
          goes_on = rw (next, loud, recorded) refl;
          kept =
              rw (next, loud, recorded)
                (rw (record_all-states stored s s.quarantines) (put-key m s now measured));
          quiet = λ h. ground (arith, h, loud);
        }
      ]

  -- What a mirror sends: an update, or a keepalive.
  abbrev pub message_of : Option Update → PbUpdateRequest
  message_of none = holds_keepalive
  message_of (some u) = update_message u

  abbrev pub IsReportableMessage : Option Update → Type 0
  IsReportableMessage none = Unit
  IsReportableMessage (some u) = IsReportableUpdate u

  -- The store has a state, with its uptime, for its service environment, as received now.
  abbrev pub IsStored : Memory → State → ℕ → ℕ → Type 0
  IsStored m s uptime now =
      lookup (key_of s) m.states ≡ some (record { state = record s { uptime = uptime }; at = now })

  -- What the store and the stream hold after a message, from what they held before.
  abbrev pub IsKept : Memory → State → ℕ → ℕ → Option Update → Memory → Stream → Type 0
  IsKept m current measured now (some (state_update s)) n after =
      (after ≡ record { state = some (canonical s); measured = now })
      × IsStored n (canonical s) s.uptime now
      × AreCovered q n (canonical s) (ingress_first s.quarantines)
  IsKept m current measured now (some (quarantine_update d t)) n after =
      (after ≡ record { state = some (quarantined current d t); measured = measured })
      × IsStored n (quarantined current d t) (current.uptime + (now - measured)) now
      × AreCovered q n current (insert d t current.quarantines)
  IsKept m current measured now (some (calls_update c)) n after =
      (after ≡ record { state = some (record current { calls = c }); measured = measured })
      × IsStored n (record current { calls = c }) (current.uptime + (now - measured)) now
      × (n.divergences ≡ m.divergences)
  IsKept m current measured now none n after =
      (after ≡ record { state = some current; measured = measured })
      × IsStored n current (current.uptime + (now - measured)) now
      × (n.divergences ≡ m.divergences)
