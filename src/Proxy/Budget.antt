-- ===== src/Proxy/Budget.antt =====
-- internal/proxy/budget.go, over golang.org/x/sync/semaphore, whose weighted semaphore is a
-- parameter.
pub mod Laws
pub mod Tests
use spectre.Prelude.{ℕ, ◌+◌, ◌-◌, ◌≤◌, ◌<◌, ◌≡◌, Bool, true, false, Option, none, some}

-- A weighted semaphore with no one waiting: `Acquire`, which waits, is never called.
pub record Semaphore : Type 1 where
  pub Weighted : Type 0
  pub new_weighted : ℕ → Weighted
  pub try_acquire : Weighted → ℕ → Weighted × Bool
  -- None is the panic "released more than held".
  pub release : Weighted → ℕ → Option Weighted
  pub size : Weighted → ℕ
  pub held : Weighted → ℕ
  pub new_held : (n : ℕ) → held (new_weighted n) ≡ 0
  pub new_size : (n : ℕ) → size (new_weighted n) ≡ n
  pub acquire_fits :
      (w : Weighted) (n : ℕ)
      → n + held w ≤ size w
      → (((try_acquire w n).1 ≡ true)
          × (held (try_acquire w n).0 ≡ n + held w)
          × (size (try_acquire w n).0 ≡ size w))
  pub acquire_fails : (w : Weighted) (n : ℕ) → size w < n + held w → try_acquire w n ≡ (w, false)
  pub release_held :
      (w : Weighted) (n : ℕ)
      → n ≤ held w
      → (u : Weighted) × (release w n ≡ some u) × (held u ≡ held w - n) × (size u ≡ size w)
  pub release_panics : (w : Weighted) (n : ℕ) → held w < n → release w n ≡ none

module _ (s : Semaphore) where
  open s use {Weighted, new_weighted, try_acquire, release as release_weighted}

  pub record Budget : Type 0 where
    pub limit : ℕ
    pub available : Weighted

  unfoldable pub new_budget : ℕ → Budget
  new_budget limit = record { limit = limit; available = new_weighted limit }

  -- `Reserve`.
  unfoldable pub reserve : Budget → ℕ → Budget × Bool
  reserve b size =
      let (w, reserved) = try_acquire b.available size in (record b { available = w }, reserved)

  -- `Release`; none is the panic of releasing more than is reserved.
  unfoldable pub release : Budget → ℕ → Option Budget
  release b size = elim (release_weighted b.available size) [
    | none ↦ none
    | some w ↦ some (record b { available = w })
  ]
