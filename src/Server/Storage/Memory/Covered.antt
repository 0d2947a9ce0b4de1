-- ===== src/Server/Storage/Memory/Covered.antt =====
-- A quarantine that a source has reported stays accounted for: the store lists it or a later one of
-- the source, or it began no later than the last clear.
use spectre.Prelude.{
  ℕ, ◌≤◌, ◌≡◌, refl, Bool, true, false, not, some, arith, Text, text_eq, ◌==◌, eq_iff, eq_refl,
  Bool-cases, Option-cases, inl, inr, ◌⊎◌,
}
use spectre.Prelude.Assoc.{lookup, lookup-insert, lookup-select}
use spectre.Model.{direction_eq, Divergence, Quarantine}
use spectre.Server.Storage.{
  Quoting, SourceKey, source_key_eq, began_before, began_later, ignored, state_key, state_key_iff,
}
use spectre.Server.Storage.Memory.{
  Memory, source_of, quarantine_of, is_of, record_divergence, clear,
}

module _ (q : Quoting) where
  abbrev pub IsListed : Memory → SourceKey → Quarantine → Type 0
  IsListed m k t =
      (d : Divergence) × (lookup k m.divergences ≡ some d) × (t.since ≤ d.quarantine.since)

  abbrev pub IsCleared : Memory → SourceKey → Quarantine → Type 0
  IsCleared m k t =
      (at : ℕ) × (lookup (state_key q k.service k.environment) m.cleared ≡ some at) × (t.since ≤ at)

  abbrev pub IsCovered : Memory → SourceKey → Quarantine → Type 0
  IsCovered m k t = IsListed m k t ⊎ IsCleared m k t

  abbrev is_ignored : Memory → Divergence → Bool
  is_ignored m d =
      ignored (quarantine_of (lookup (source_of d) m.divergences))
        (lookup (state_key q d.service d.environment) m.cleared) d.quarantine

  later-IsListed :
      (m : Memory) (k : SourceKey) (t : Quarantine)
      → began_later (quarantine_of (lookup k m.divergences)) t ≡ true
      → IsListed m k t
  later-IsListed m k t h = elim (Option-cases (lookup k m.divergences)) [
    | inl e ↦ ground (arith, h, e)
    | inr (d, e) ↦ (d, e, ground (arith, h, e))
  ]

  later-IsCleared :
      (m : Memory) (k : SourceKey) (t : Quarantine)
      → began_before (lookup (state_key q k.service k.environment) m.cleared) t ≡ true
      → IsCleared m k t
  later-IsCleared m k t h =
      elim (Option-cases (lookup (state_key q k.service k.environment) m.cleared)) [
        | inl e ↦ ground (arith, h, e)
        | inr (at, e) ↦ (at, e, ground (arith, h, e))
      ]

  ignored-IsCovered :
      (m : Memory) (d : Divergence) → is_ignored m d ≡ true → IsCovered m (source_of d) d.quarantine
  unfolding ignored
  ignored-IsCovered m d h =
      elim (Bool-cases
        (began_later (quarantine_of (lookup (source_of d) m.divergences)) d.quarantine)) [
          | inl e ↦ inl (later-IsListed m (source_of d) d.quarantine e)
          | inr e ↦ inr (later-IsCleared m (source_of d) d.quarantine (ground (arith, h, e)))
        ]

  pub record-IsCovered :
      (m : Memory) (d : Divergence) → IsCovered (record_divergence q m d) (source_of d) d.quarantine
  unfolding record_divergence
  record-IsCovered m d = elim (Bool-cases (is_ignored m d)) [
    | inl e ↦ rw e (ignored-IsCovered m d e)
    | inr e ↦ rw e (
        inl (
          d,
          rw (lookup-insert (source_of d) (source_of d) d m.divergences, eq_refl (source_of d))
              refl,
          omega arith,
        ))
  ]

  -- A divergence that is not ignored began no earlier than the stored one.
  not_later :
      (m : Memory) (d e : Divergence)
      → is_ignored m d ≡ false
      → lookup (source_of d) m.divergences ≡ some e
      → e.quarantine.since ≤ d.quarantine.since
  unfolding ignored
  not_later m d e h s = ground (arith, h, s)

  record-IsListed :
      (m : Memory) (d : Divergence) (k : SourceKey) (t : Quarantine)
      → is_ignored m d ≡ false
      → IsListed m k t
      → IsListed (record_divergence q m d) k t
  unfolding record_divergence
  record-IsListed m d k t h (e, s, le) = elim (Bool-cases (source_of d == k)) [
    | inl same ↦
        let k_is : source_of d ≡ k = (eq_iff (source_of d) k).0 same in
        let since = not_later m d e h (rw k_is s) in
        rw h (
          d,
          rw (lookup-insert (source_of d) k d m.divergences, same) refl,
          omega (arith, since, le),
        )
    | inr other ↦ rw h (e, rw (lookup-insert (source_of d) k d m.divergences, other) s, le)
  ]

  pub record_keeps-IsCovered :
      (m : Memory) (d : Divergence) (k : SourceKey) (t : Quarantine)
      → IsCovered m k t
      → IsCovered (record_divergence q m d) k t
  unfolding record_divergence
  record_keeps-IsCovered m d k t c = elim (Bool-cases (is_ignored m d)) [
    | inl e ↦ rw e c
    | inr e ↦ elim c [
      | inl listed ↦ inl (record-IsListed m d k t e listed)
      | inr (at, s, le) ↦ rw e (inr (at, s, le))
    ]
  ]

  -- A clear takes what began by then, and leaves the other service environments alone.
  pub clear_keeps-IsCovered :
      (m : Memory) (service environment : Text) (at : ℕ) (k : SourceKey) (t : Quarantine)
      → t.since ≤ at
      → IsCovered m k t
      → IsCovered (clear q m service environment at) k t
  unfolding clear
  clear_keeps-IsCovered m service environment at k t le c =
      let key = state_key q service environment in
      let own = state_key q k.service k.environment in
      let keys = state_key_iff q service k.service environment k.environment in
      let written = lookup-insert key own at m.cleared in
      let left = lookup-select (λ j. not (is_of service environment j)) k m.divergences in
      elim (Bool-cases (key == own)) [
        | inl same ↦ inr (at, rw (written, same) refl, le)
        | inr other ↦
            let apart : is_of service environment k ≡ false = ground (
              arith,
              keys,
              other,
              eq_iff k.service service,
              eq_iff k.environment environment,
              eq_iff service k.service,
              eq_iff environment k.environment,
            ) in
            elim c [
              | inl (d, s, later) ↦ inl (d, rw (left, apart) s, later)
              | inr (cleared, s, before) ↦ inr (cleared, rw (written, other) s, before)
            ]
      ]
