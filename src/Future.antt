-- ===== src/Future.antt =====
-- internal/future/future.go: a value that is set at most once. The channel `done` is closed with the
-- first value, so that a future is the value it has, if any; each method runs under the lock.
use spectre.Prelude.{Bool, true, false, Option, none, some, Text, Result, ok, failed}

abbrev pub Future {ℓ} : Type ℓ → Type ℓ
Future A = Option A

-- What lets `Wait` go on.
pub data Woken {ℓ} (A : Type ℓ) : Type ℓ where
  value_set : A → Woken A
  context_done : Text → Woken A

module _ {ℓ} {A : Type ℓ} where
  -- `New`.
  abbrev pub new_future : Future A
  new_future = none

  -- `Set`: the first value stays.
  abbrev pub set_future : Future A → A → Future A × Bool
  set_future none value = (some value, true)
  set_future (some first) value = (some first, false)

  -- `Get`.
  abbrev pub get_future : Future A → Option A
  get_future f = f

  -- `Wait`, once it is woken.
  abbrev pub wait_future : Woken A → Result Text A
  wait_future (value_set value) = ok value
  wait_future (context_done e) = failed e
