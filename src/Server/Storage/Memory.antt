-- ===== src/Server/Storage/Memory.antt =====
-- internal/server/storage/memory.go: states and divergences in maps. Each method runs under the
-- store's lock, so a history is a sequence of calls. No method returns an error.
pub mod Records
pub mod States
pub mod Covered
pub mod Tests
use spectre.Prelude.{
  ℕ, Bool, true, false, not, ◌&&◌, ◌||◌, Option, none, some, List, [], ◌∷◌, map, Text, text_eq,
  ◌==◌, ltb, select, if◌then◌else◌,
}
use spectre.Prelude.Assoc.{lookup, insert}
use spectre.Model.{Direction, Quarantine, State, Divergence}
use spectre.Server.Storage.{Quoting, Received, SourceKey, source_key_eq, ignored, state_key}

pub record Memory : Type 0 where
  pub states : List (Text × Received)
  pub divergences : List (SourceKey × Divergence)
  pub cleared : List (Text × ℕ)

unfoldable pub new_memory : Memory
new_memory = record { states = []; divergences = []; cleared = [] }

abbrev pub source_of : Divergence → SourceKey
source_of d = record { service = d.service; environment = d.environment; direction = d.direction }

abbrev pub quarantine_of : Option Divergence → Option Quarantine
quarantine_of none = none
quarantine_of (some d) = some d.quarantine

-- Whether a stored state is too old to list.
abbrev pub is_stale : ℕ → Text × Received → Bool
is_stale since stored = ltb stored.1.at since

-- Whether a divergence is of a service environment.
abbrev pub is_of : Text → Text → SourceKey → Bool
is_of service environment key = key.service == service && key.environment == environment

-- `States`: those received at or after `since`; older ones are deleted.
unfoldable pub states : Memory → ℕ → Memory × List State
states m since =
    let kept = select (λ stored. not (is_stale since stored)) m.states in
    (record m { states = kept }, map (λ (stored : Text × Received). stored.1.state) kept)

-- `Divergences`.
unfoldable pub divergences : Memory → List Divergence
divergences m = map (λ (stored : SourceKey × Divergence). stored.1) m.divergences

module _ (q : Quoting) where
  -- `Put`.
  unfoldable pub put : Memory → State → ℕ → Memory
  put m state at = record m {
    states =
        insert (state_key q state.service state.environment) (record { state = state; at = at })
          m.states;
  }

  -- `Record`.
  unfoldable pub record_divergence : Memory → Divergence → Memory
  record_divergence m d =
      if ignored (quarantine_of (lookup (source_of d) m.divergences))
        (lookup (state_key q d.service d.environment) m.cleared) d.quarantine
      then m
      else record m { divergences = insert (source_of d) d m.divergences }

  -- `Clear`.
  unfoldable pub clear : Memory → Text → Text → ℕ → Memory
  clear m service environment at = record m {
    divergences =
        select (λ (stored : SourceKey × Divergence). not (is_of service environment stored.0))
          m.divergences;
    cleared = insert (state_key q service environment) at m.cleared;
  }
