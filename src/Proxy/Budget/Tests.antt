-- ===== src/Proxy/Budget/Tests.antt =====
-- A semaphore that counts, and a budget over it.
use spectre.Prelude.{
  ℕ, ◌+◌, ◌-◌, ◌≤◌, ◌<◌, ◌≡◌, refl, Bool, true, false, Option, none, some, List, [], ◌∷◌, arith,
  ltb, if◌then◌else◌,
}
use spectre.Proxy.Budget.{Semaphore, Budget, new_budget}
use spectre.Proxy.Budget.Laws.{Call, reserves, releases, account, run, reserved, run-new-account}

abbrev take : ℕ × ℕ → ℕ → (ℕ × ℕ) × Bool
take w n = if ltb w.0 (n + w.1) then (w, false) else ((w.0, n + w.1), true)

abbrev give : ℕ × ℕ → ℕ → Option (ℕ × ℕ)
give w n = if ltb w.1 n then none else some (w.0, w.1 - n)

take-fits :
    (w : ℕ × ℕ) (n : ℕ)
    → n + w.1 ≤ w.0
    → (((take w n).1 ≡ true) × ((take w n).0.1 ≡ n + w.1) × ((take w n).0.0 ≡ w.0))
take-fits w n h = (ground arith, ground arith, ground arith)

take-fails : (w : ℕ × ℕ) (n : ℕ) → w.0 < n + w.1 → take w n ≡ (w, false)
take-fails w n h = ground arith

give-held :
    (w : ℕ × ℕ) (n : ℕ)
    → n ≤ w.1
    → (u : ℕ × ℕ) × (give w n ≡ some u) × (u.1 ≡ w.1 - n) × (u.0 ≡ w.0)
give-held w n h = ((w.0, w.1 - n), ground arith, refl, refl)

give-panics : (w : ℕ × ℕ) (n : ℕ) → w.1 < n → give w n ≡ none
give-panics w n h = ground arith

-- The size and what is held.
abbrev counting : Semaphore
counting = record {
  Weighted = ℕ × ℕ;
  new_weighted = λ n. (n, 0);
  try_acquire = take;
  release = give;
  size = λ w. w.0;
  held = λ w. w.1;
  new_held = λ n. refl;
  new_size = λ n. refl;
  acquire_fits = take-fits;
  acquire_fails = take-fails;
  release_held = give-held;
  release_panics = give-panics;
}

abbrev calls : List Call
calls = reserves 6 ∷ reserves 5 ∷ releases 2 ∷ reserves 5 ∷ []

account_runs : account 10 0 calls ≡ some (9, true ∷ false ∷ true ∷ [])
unfolding account
account_runs = refl

run-new-account_example :
    (reserved counting (run counting (new_budget counting 10) calls) ≡ account 10 0 calls)
    × ((b : Budget counting) (answers : List Bool)
        → run counting (new_budget counting 10) calls ≡ some (b, answers)
        → b.available.1 ≤ 10)
run-new-account_example = run-new-account counting 10 calls
