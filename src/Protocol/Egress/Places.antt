-- ===== src/Protocol/Egress/Places.antt =====
-- internal/protocol/egress.go: counts of pointers, in lists and in the heap.
use spectre.Prelude.{
  ℕ, zero, suc, ◌+◌, ◌≤◌, ◌≡◌, refl, Bool, Option, none, some, List, [], ◌∷◌, ◌++◌, nat_eq, length,
  get_elem?, arith, if◌then◌else◌, ap, ◌==◌,
}
use spectre.Protocol.Queues.{occurs}
use spectre.Protocol.Egress.{modify}

-- What an optional value counts.
abbrev pub valued {ℓ} : {A : Type ℓ} → (A → ℕ) → Option A → ℕ
valued f none = 0
valued f (some a) = f a

abbrev pub mapped {ℓ} : {A : Type ℓ} → (A → A) → Option A → Option A
mapped f none = none
mapped f (some a) = some (f a)

module _ {ℓ} {A : Type ℓ} where
  pub length-modify : (f : A → A) (xs : List A) (i : ℕ) → length (modify f xs i) ≡ length xs
  length-modify f [] i = refl
  length-modify f (x ∷ xs) zero = refl
  length-modify f (x ∷ xs) (suc i) = omega (arith, length-modify f xs i)

  pub get_elem?-modify :
      (f : A → A) (xs : List A) (i j : ℕ)
      → get_elem? (modify f xs i) j ≡ (if i == j then mapped f (get_elem? xs j) else get_elem? xs j)
  get_elem?-modify f [] i j = ground arith
  get_elem?-modify f (x ∷ xs) zero zero = ground arith
  get_elem?-modify f (x ∷ xs) zero (suc j) = ground arith
  get_elem?-modify f (x ∷ xs) (suc i) zero = ground arith
  get_elem?-modify f (x ∷ xs) (suc i) (suc j) = ground (arith, get_elem?-modify f xs i j)

  pub get_elem?-last :
      (xs : List A) (x : A) (j : ℕ)
      → get_elem? (xs ++ x ∷ []) j ≡ (if j == length xs then some x else get_elem? xs j)
  get_elem?-last [] x zero = ground arith
  get_elem?-last [] x (suc j) = ground arith
  get_elem?-last (y ∷ ys) x zero = ground arith
  get_elem?-last (y ∷ ys) x (suc j) = ground (arith, get_elem?-last ys x j)

  pub get_elem?-long : (xs : List A) (j : ℕ) → length xs ≤ j → get_elem? xs j ≡ none
  get_elem?-long [] j h = refl
  get_elem?-long (x ∷ xs) zero h = absurd (omega arith)
  get_elem?-long (x ∷ xs) (suc j) h = get_elem?-long xs j (omega arith)

  pub occurs-modify :
      (p : A → Bool) (f : A → A) (x : A) (xs : List A) (i : ℕ)
      → get_elem? xs i ≡ some x
      → (if p x then 1 else 0) + occurs p (modify f xs i) ≡ occurs p xs + (if p (f x) then 1 else 0)
  occurs-modify p f x [] i e = cc
  occurs-modify p f x (y ∷ ys) zero e = let same : y ≡ x = cc in ground (arith, same)
  occurs-modify p f x (y ∷ ys) (suc i) e = omega (arith, occurs-modify p f x ys i e)

  pub occurs-last :
      (p : A → Bool) (xs : List A) (x : A)
      → occurs p (xs ++ x ∷ []) ≡ occurs p xs + (if p x then 1 else 0)
  occurs-last p [] x = omega arith
  occurs-last p (y ∷ ys) x = omega (arith, occurs-last p ys x)

  pub occurs-get :
      (p : A → Bool) (x : A) (xs : List A) (i : ℕ)
      → get_elem? xs i ≡ some x
      → (if p x then 1 else 0) ≤ occurs p xs
  occurs-get p x [] i e = cc
  occurs-get p x (y ∷ ys) zero e = let same : y ≡ x = cc in ground (arith, same)
  occurs-get p x (y ∷ ys) (suc i) e = omega (arith, occurs-get p x ys i e)

  -- A change that leaves a measure as it was.
  pub valued-modify :
      (f : A → ℕ) (g : A → A) (xs : List A) (i j : ℕ)
      → ((a : A) → f (g a) ≡ f a)
      → valued f (get_elem? (modify g xs i) j) ≡ valued f (get_elem? xs j)
  valued-modify f g [] i j same = refl
  valued-modify f g (x ∷ xs) zero zero same = same x
  valued-modify f g (x ∷ xs) zero (suc j) same = refl
  valued-modify f g (x ∷ xs) (suc i) zero same = refl
  valued-modify f g (x ∷ xs) (suc i) (suc j) same = valued-modify f g xs i j same

  -- A change to at most one more.
  pub valued-modify-le :
      (f : A → ℕ) (g : A → A) (xs : List A) (i j : ℕ)
      → ((a : A) → f (g a) ≤ f a + 1)
      → valued f (get_elem? (modify g xs i) j)
        ≤ valued f (get_elem? xs j) + (if i == j then 1 else 0)
  valued-modify-le f g [] i j grows = omega arith
  valued-modify-le f g (x ∷ xs) zero zero grows = ground (arith, grows x)
  valued-modify-le f g (x ∷ xs) zero (suc j) grows = ground arith
  valued-modify-le f g (x ∷ xs) (suc i) zero grows = ground arith
  valued-modify-le f g (x ∷ xs) (suc i) (suc j) grows =
      ground (arith, valued-modify-le f g xs i j grows)

  pub valued-last :
      (f : A → ℕ) (xs : List A) (x : A) (j : ℕ)
      → valued f (get_elem? (xs ++ x ∷ []) j)
        ≡ (if j == length xs then f x else valued f (get_elem? xs j))
  valued-last f [] x zero = ground arith
  valued-last f [] x (suc j) = ground arith
  valued-last f (y ∷ ys) x zero = ground arith
  valued-last f (y ∷ ys) x (suc j) = ground (arith, valued-last f ys x j)

  pub valued-long :
      (f : A → ℕ) (xs : List A) (j : ℕ) → length xs ≤ j → valued f (get_elem? xs j) ≡ 0
  valued-long f xs j h = ap (valued f) (get_elem?-long xs j h)
