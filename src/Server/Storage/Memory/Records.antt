-- ===== src/Server/Storage/Memory/Records.antt =====
-- Which divergence is stored for each source: the store against a plain history.
use spectre.Prelude.{
  ℕ, ◌≤◌, ◌≡◌, ◌≢◌, refl, true, not, Option, none, some, List, [], ◌∷◌, arith, Text, text_eq, ◌==◌,
  eq_iff, eq_refl, ltb, select, if◌then◌else◌, Bool-cases, inl, inr,
}
use spectre.Prelude.Assoc.{lookup, lookup-insert, lookup-select}
use spectre.Model.{direction_eq, Divergence}
use spectre.Server.Storage.{
  Quoting, SourceKey, source_key_eq, began_before, ignored, state_key, state_key_iff,
}
use spectre.Server.Storage.Memory.{
  Memory, new_memory, source_of, quarantine_of, is_of, record_divergence, clear,
}

pub data Event : Type 0 where
  recorded : Divergence → Event
  cleared_at : Text → Text → ℕ → Event

-- Of a history, the latest event first: when the service environment of a source was last cleared,
-- and what the source has reported since.
unfoldable pub last_clear : SourceKey → List Event → Option ℕ
last_clear k [] = none
last_clear k (recorded d ∷ events) = last_clear k events
last_clear k (cleared_at service environment at ∷ events) =
    if is_of service environment k then some at else last_clear k events

unfoldable pub reported : SourceKey → List Event → List Divergence
reported k [] = []
reported k (recorded d ∷ events) =
    if source_of d == k then d ∷ reported k events else reported k events
reported k (cleared_at service environment at ∷ events) =
    if is_of service environment k then [] else reported k events

-- The divergence whose quarantine began last; of equals, the one reported last.
abbrev pub later_of : Divergence → Option Divergence → Divergence
later_of d none = d
later_of d (some e) = if ltb d.quarantine.since e.quarantine.since then e else d

unfoldable pub newest : List Divergence → Option Divergence
newest [] = none
newest (d ∷ ds) = some (later_of d (newest ds))

-- Those that began after the clear.
abbrev pub eligible : Option ℕ → List Divergence → List Divergence
eligible at = select (λ (d : Divergence). not (began_before at d.quarantine))

module _ (q : Quoting) where
  unfoldable pub memory_after : List Event → Memory
  memory_after [] = new_memory
  memory_after (recorded d ∷ events) = record_divergence q (memory_after events) d
  memory_after (cleared_at service environment at ∷ events) =
      clear q (memory_after events) service environment at

  record-cleared : (m : Memory) (d : Divergence) → (record_divergence q m d).cleared ≡ m.cleared
  unfolding record_divergence
  record-cleared m d = ground arith

  cleared-last_clear :
      (k : SourceKey) (events : List Event)
      → lookup (state_key q k.service k.environment) (memory_after events).cleared
        ≡ last_clear k events
  unfolding memory_after last_clear clear new_memory lookup
  cleared-last_clear k [] = refl
  cleared-last_clear k (recorded d ∷ events) =
      rw (record-cleared (memory_after events) d) (cleared-last_clear k events)
  cleared-last_clear k (cleared_at s e at ∷ events) = ground (
    arith,
    lookup-insert (state_key q s e) (state_key q k.service k.environment) at
        (memory_after events).cleared,
    state_key_iff q s k.service e k.environment,
    eq_iff s k.service,
    eq_iff e k.environment,
    eq_iff k.service s,
    eq_iff k.environment e,
    cleared-last_clear k events,
  )

  -- One report, to the store and to its source.
  lookup-record :
      (m : Memory) (d : Divergence) (k : SourceKey)
      → lookup k (record_divergence q m d).divergences ≡ (
          if source_of d == k
          then (if ignored
                (quarantine_of (lookup k m.divergences))
                (lookup (state_key q k.service k.environment) m.cleared)
                d.quarantine
              then lookup k m.divergences
              else some d)
          else lookup k m.divergences)
  unfolding record_divergence
  lookup-record m d k = elim (Bool-cases (source_of d == k)) [
    | inl same ↦ rw (← ((eq_iff (source_of d) k).0 same)) (
        ground
          (arith, lookup-insert (source_of d) (source_of d) d m.divergences, eq_refl (source_of d)))
    | inr other ↦ rw other (ground (arith, other, lookup-insert (source_of d) k d m.divergences))
  ]

  newest-record :
      (stored : Option Divergence) (at : Option ℕ) (d : Divergence) (ds : List Divergence)
      → stored ≡ newest (eligible at ds)
      → (if ignored (quarantine_of stored) at d.quarantine then stored else some d)
        ≡ newest (eligible at (d ∷ ds))
  unfolding newest ignored
  newest-record stored at d ds h = ground (arith, h)

  pub lookup-clear :
      (m : Memory) (service environment : Text) (at : ℕ) (k : SourceKey)
      → lookup k (clear q m service environment at).divergences
        ≡ (if is_of service environment k then none else lookup k m.divergences)
  unfolding clear
  lookup-clear m service environment at k = ground (
    arith,
    lookup-select {V = Divergence} (λ key. not (is_of service environment key)) k m.divergences,
  )

  cleared-at :
      (m : Memory) (d : Divergence) (at : ℕ) (k : SourceKey)
      → (source_of d == k) ≡ true
      → lookup (state_key q k.service k.environment) (clear q m d.service d.environment at).cleared
        ≡ some at
  unfolding clear
  cleared-at m d at k h = ground (
    arith,
    lookup-insert (state_key q d.service d.environment) (state_key q k.service k.environment) at
        m.cleared,
    state_key_iff q d.service k.service d.environment k.environment,
  )

  -- After any history of reports and clears, in whatever order they arrived, the divergence stored
  -- for a source is the one whose quarantine began last among those that were reported since its
  -- service environment was last cleared and that began after that clear's time; of equals, the one
  -- reported last; and none is stored if there is no such report.
  pub stored-newest :
      (k : SourceKey) (events : List Event)
      → lookup k (memory_after events).divergences
        ≡ newest (eligible (last_clear k events) (reported k events))
  unfolding memory_after last_clear reported newest new_memory lookup
  stored-newest k [] = refl
  stored-newest k (recorded d ∷ events) =
      let m = memory_after events in
      ground (
        arith,
        lookup-record m d k,
        cleared-last_clear k events,
        stored-newest k events,
        newest-record (lookup k m.divergences) (last_clear k events) d (reported k events),
      )
  stored-newest k (cleared_at s e at ∷ events) =
      ground (arith, lookup-clear (memory_after events) s e at k, stored-newest k events)

  -- Two reports whose quarantines began at different times may arrive in either order: whatever the
  -- store holds, every source has the same divergence afterwards.
  pub record_comm :
      (m : Memory) (a b : Divergence) (k : SourceKey)
      → a.quarantine.since ≢ b.quarantine.since
      → lookup k (record_divergence q (record_divergence q m a) b).divergences
        ≡ lookup k (record_divergence q (record_divergence q m b) a).divergences
  unfolding ignored
  record_comm m a b k h = ground (
    arith,
    lookup-record (record_divergence q m a) b k,
    lookup-record m a k,
    lookup-record (record_divergence q m b) a k,
    lookup-record m b k,
    record-cleared m a,
    record-cleared m b,
  )

  -- A quarantine that began no later than a clear of its service environment leaves no trace: a
  -- report of it after the clear changes no source, and after a report of it before the clear every
  -- source is as if only the clear had been made.
  pub clear-ignores :
      (m : Memory) (d : Divergence) (at : ℕ) (k : SourceKey)
      → d.quarantine.since ≤ at
      → (lookup k (record_divergence q (clear q m d.service d.environment at) d).divergences
          ≡ lookup k (clear q m d.service d.environment at).divergences)
        × (lookup k (clear q (record_divergence q m d) d.service d.environment at).divergences
            ≡ lookup k (clear q m d.service d.environment at).divergences)
  unfolding ignored
  clear-ignores m d at k h = (
    ground (arith, lookup-record (clear q m d.service d.environment at) d k, cleared-at m d at k),
    ground (
      arith,
      lookup-clear m d.service d.environment at k,
      lookup-clear (record_divergence q m d) d.service d.environment at k,
      lookup-record m d k,
      eq_iff (source_of d) k,
      eq_refl d.service,
      eq_refl d.environment,
    ),
  )
