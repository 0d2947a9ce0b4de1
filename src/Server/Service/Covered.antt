-- ===== src/Server/Service/Covered.antt =====
-- internal/server/service.go over the memory backend: what mirrors stream stays accounted for,
-- whatever streams and clears interleave.
use spectre.Prelude.{
  ℕ, ◌≡◌, refl, sym, ◌∙◌, true, false, Option, none, some, List, [], ◌∷◌, text_eq, All, Result,
  ◌>>=◌, bind-ok, ok, failed, Bool-cases, inl, inr,
}
use spectre.Model.{Direction, Quarantine, State, Calls, Update, calls_update}
use spectre.Server.Storage.{Quoting, SourceKey}
use spectre.Server.Storage.Memory.{
  Memory, source_of, put, states, record_divergence, clear, divergences,
}
use spectre.Server.Storage.Memory.Covered.{IsCovered, record-IsCovered, record_keeps-IsCovered}
use spectre.Server.Wire.{
  PbUpdateRequest, PbCalls, WireError, holds_nothing, holds_state, holds_quarantine,
  holds_keepalive, holds_calls, update_from_message, calls_from_message,
}
use spectre.Server.Service.{
  Store, Stream, from_wire, divergence_of, aged, record_all, record_quarantines, store_current,
  receive, next_state, adds_no_quarantine, measured_at, applied, restored_update,
}

only_calls :
    (r : Result WireError Calls) (u : Update)
    → from_wire (r >>= λ c. ok (calls_update c)) ≡ ok u
    → (c : Calls) × (u ≡ calls_update c)
only_calls (ok c) u e = (c, cc)
only_calls (failed w) u e = cc

restored_calls :
    (x : PbCalls) (u : Update)
    → restored_update (holds_calls x) ≡ ok u
    → (c : Calls) × (u ≡ calls_update c)
unfolding update_from_message
restored_calls x u e = only_calls (calls_from_message (some x)) u e

module _ (q : Quoting) where
  -- The memory backend, whose calls do not fail.
  unfoldable pub memory_store : Store Memory
  memory_store = record {
    put = λ m s at. (put q m s at, ok tt);
    states = λ m since. let (kept, listed) = states m since in (kept, ok listed);
    record_divergence = λ m d. (record_divergence q m d, ok tt);
    clear = λ m service environment at. (clear q m service environment at, ok tt);
    divergences = λ m. (m, ok (divergences m));
  }

  -- Every quarantine of a list is accounted for under the source that a state gives it.
  abbrev pub AreCovered : Memory → State → List (Direction × Quarantine) → Type 0
  AreCovered m s held =
      All (λ (h : Direction × Quarantine). IsCovered q m (source_of (divergence_of s h)) h.1) held

  abbrev pub StateIsCovered : Memory → Option State → Type 0
  StateIsCovered m none = Unit
  StateIsCovered m (some s) = AreCovered m s s.quarantines

  record_all_keeps :
      (m : Memory) (s : State) (held : List (Direction × Quarantine)) (k : SourceKey)
      (t : Quarantine)
      → IsCovered q m k t
      → IsCovered q (record_all memory_store m s held).0 k t
  unfolding record_all memory_store
  record_all_keeps m s [] k t c = c
  record_all_keeps m s (h ∷ held) k t c =
      record_all_keeps (record_divergence q m (divergence_of s h)) s held k t
        (record_keeps-IsCovered q m (divergence_of s h) k t c)

  record_all-AreCovered :
      (m : Memory) (s : State) (held : List (Direction × Quarantine))
      → AreCovered (record_all memory_store m s held).0 s held
  unfolding record_all memory_store
  record_all-AreCovered m s [] = tt
  record_all-AreCovered m s (h ∷ held) =
      let next = record_divergence q m (divergence_of s h) in
      (
        record_all_keeps next s held (source_of (divergence_of s h)) h.1
            (record-IsCovered q m (divergence_of s h)),
        record_all-AreCovered next s held,
      )

  pub record_all_ok :
      (m : Memory) (s : State) (held : List (Direction × Quarantine))
      → (record_all memory_store m s held).1 ≡ ok tt
  unfolding record_all memory_store
  record_all_ok m s [] = refl
  record_all_ok m s (h ∷ held) = record_all_ok (record_divergence q m (divergence_of s h)) s held

  pub put_keeps :
      (m : Memory) (s : State) (at : ℕ) (k : SourceKey) (t : Quarantine)
      → IsCovered q m k t
      → IsCovered q (put q m s at) k t
  unfolding put
  put_keeps m s at k t c = c

  current_covers :
      (m : Memory) (msg : PbUpdateRequest) (s : State) (now measured : ℕ)
      → (adds_no_quarantine msg ≡ true → AreCovered m s s.quarantines)
      → AreCovered (store_current memory_store m msg s now measured).0 s s.quarantines
  unfolding store_current record_quarantines memory_store put
  current_covers m msg s now measured before = elim (Bool-cases (adds_no_quarantine msg)) [
    | inl quiet ↦ rw quiet (before quiet)
    | inr loud ↦
        let stored = put q m (aged s now measured) now in
        rw (loud, record_all_ok stored s s.quarantines)
          (record_all-AreCovered stored s s.quarantines)
  ]

  applied_calls :
      (m : Memory) (state : Option State) (s : State) (c : Calls)
      → StateIsCovered m state
      → applied state (calls_update c) ≡ ok s
      → AreCovered m s s.quarantines
  applied_calls m none s c covered e = cc
  applied_calls m (some current) s c covered e =
      let same : record current { calls = c } ≡ s = cc in rw (sym same) covered

  -- A message that adds no quarantine leaves those that the stream has.
  pub quiet_keeps :
      (m : Memory) (state : Option State) (msg : PbUpdateRequest) (s : State)
      → StateIsCovered m state
      → next_state state msg ≡ ok s
      → adds_no_quarantine msg ≡ true
      → AreCovered m s s.quarantines
  unfolding next_state
  quiet_keeps m state holds_nothing s c e quiet = cc
  quiet_keeps m state (holds_state x) s c e quiet = cc
  quiet_keeps m state (holds_quarantine x) s c e quiet = cc
  quiet_keeps m none holds_keepalive s c e quiet = cc
  quiet_keeps m (some current) holds_keepalive s c e quiet =
      let same : current ≡ s = cc in rw (sym same) c
  quiet_keeps m state (holds_calls x) s c e quiet =
      let (u, restored, next) = bind-ok (restored_update (holds_calls x)) _ s e in
      let (counted, is_calls) = restored_calls x u restored in
      applied_calls m state s counted c (rw (sym is_calls) next)

  -- A message that may add quarantines leaves all of the state's accounted for.
  pub loud-AreCovered :
      (m : Memory) (stream : Stream) (msg : PbUpdateRequest) (now : ℕ) (s : State)
      → next_state stream.state msg ≡ ok s
      → adds_no_quarantine msg ≡ false
      → AreCovered (receive memory_store m stream msg now).0 s s.quarantines
  unfolding receive
  loud-AreCovered m stream msg now s next loud = rw next (
      current_covers m msg s now (measured_at msg now stream.measured)
        (λ quiet. let c : true ≡ false = sym quiet ∙ loud in absurd (cc)))
