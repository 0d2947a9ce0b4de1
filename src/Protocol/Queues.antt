-- ===== src/Protocol/Queues.antt =====
-- internal/protocol/egress.go: the maps `unused` and `waiting`, from a hash to a queue that is never
-- empty.
use spectre.Prelude.{
  ℕ, ◌+◌, ◌≤◌, ◌≡◌, refl, Bool, true, false, Option, none, some, List, [], ◌∷◌, arith, Text, ◌==◌,
  text_eq, eq_iff, All, if◌then◌else◌, remove_at, zero, suc, get_elem?, Bool-cases, Option-cases,
  inl, inr,
}
use spectre.Protocol.Arrivals.{IsInOrder, insert_linear}
use spectre.Prelude.Assoc.{
  lookup, insert, remove, IsMap, lookup-insert, lookup-remove, insert-IsMap, remove-IsMap,
  remove-absent,
}

-- `comparison.Hash`: the bytes of a hash.
abbrev pub Hash : Type 0
Hash = Text

-- A missing key reads as nil.
abbrev pub or_nil {ℓ} : {T : Type ℓ} → Option (List T) → List T
or_nil none = []
or_nil (some queue) = queue

abbrev pub is_nil {ℓ} : {T : Type ℓ} → List T → Bool
is_nil [] = true
is_nil (x ∷ xs) = false

-- The number of elements that pass a test.
abbrev pub occurs {ℓ} : {T : Type ℓ} → (T → Bool) → List T → ℕ
occurs p [] = 0
occurs p (x ∷ xs) = (if p x then 1 else 0) + occurs p xs

abbrev pub one_later : Option ℕ → Option ℕ
one_later none = none
one_later (some i) = some (suc i)

-- `slices.Index`, as an option.
abbrev pub index_of {ℓ} : {T : Type ℓ} → (T → Bool) → List T → Option ℕ
index_of p [] = none
index_of p (x ∷ xs) = if p x then some 0 else one_later (index_of p xs)

abbrev pub Queues {ℓ} : Type ℓ → Type ℓ
Queues T = List (Hash × List T)

module _ {ℓ} {T : Type ℓ} where
  abbrev pub queued : Hash → Queues T → List T
  queued hash m = or_nil (lookup hash m)

  -- `setUnused` and `setWaiting` on their map: an empty queue has no entry.
  abbrev pub set_queue : Hash → List T → Queues T → Queues T
  set_queue hash [] m = remove hash m
  set_queue hash (x ∷ xs) m = insert hash (x ∷ xs) m

  -- The number of elements that pass a test, in all queues.
  abbrev pub total : (T → Bool) → Queues T → ℕ
  total p [] = 0
  total p ((hash, queue) ∷ m) = occurs p queue + total p m

  -- No queue of the map is empty.
  abbrev pub AreFilled : Queues T → Type 0
  AreFilled [] = Unit
  AreFilled ((hash, queue) ∷ m) = (is_nil queue ≡ false) × AreFilled m

  pub queued-set_queue :
      (h hash : Hash) (queue : List T) (m : Queues T)
      → queued h (set_queue hash queue m) ≡ (if hash == h then queue else queued h m)
  queued-set_queue h hash [] m = ground (arith, lookup-remove hash h m)
  queued-set_queue h hash (x ∷ xs) m = ground (arith, lookup-insert hash h (x ∷ xs) m)

  pub set_queue-IsMap :
      (hash : Hash) (queue : List T) (m : Queues T) → IsMap m → IsMap (set_queue hash queue m)
  set_queue-IsMap hash [] m h = remove-IsMap hash m h
  set_queue-IsMap hash (x ∷ xs) m h = insert-IsMap hash (x ∷ xs) m h

  total-remove :
      (p : T → Bool) (hash : Hash) (m : Queues T)
      → IsMap m
      → total p (remove hash m) + occurs p (queued hash m) ≡ total p m
  unfolding lookup remove
  total-remove p hash [] h = omega arith
  total-remove p hash ((i, q) ∷ m) h =
      ground (arith, eq_iff i hash, total-remove p hash m h.1, remove-absent hash m)

  total-insert :
      (p : T → Bool) (hash : Hash) (queue : List T) (m : Queues T)
      → total p (insert hash queue m) + occurs p (queued hash m) ≡ total p m + occurs p queue
  unfolding lookup insert
  total-insert p hash queue [] = omega arith
  total-insert p hash queue ((i, q) ∷ m) =
      ground (arith, eq_iff i hash, total-insert p hash queue m)

  -- What a new queue holds more than the old one, all queues hold more.
  pub total-set_queue :
      (p : T → Bool) (hash : Hash) (queue : List T) (m : Queues T)
      → IsMap m
      → total p (set_queue hash queue m) + occurs p (queued hash m) ≡ total p m + occurs p queue
  total-set_queue p hash [] m h = omega (arith, total-remove p hash m h)
  total-set_queue p hash (x ∷ xs) m h = total-insert p hash (x ∷ xs) m

  remove-AreFilled : (hash : Hash) (m : Queues T) → AreFilled m → AreFilled (remove hash m)
  unfolding remove
  remove-AreFilled hash [] h = tt
  remove-AreFilled hash ((i, q) ∷ m) h = ground (arith, remove-AreFilled hash m)

  insert-AreFilled :
      (hash : Hash) (queue : List T) (m : Queues T)
      → is_nil queue ≡ false
      → AreFilled m
      → AreFilled (insert hash queue m)
  unfolding insert
  insert-AreFilled hash queue [] e h = (e, tt)
  insert-AreFilled hash queue ((i, q) ∷ m) e h = ground (arith, insert-AreFilled hash queue m)

  pub set_queue-AreFilled :
      (hash : Hash) (queue : List T) (m : Queues T)
      → AreFilled m
      → AreFilled (set_queue hash queue m)
  set_queue-AreFilled hash [] m h = remove-AreFilled hash m h
  set_queue-AreFilled hash (x ∷ xs) m h = insert-AreFilled hash (x ∷ xs) m refl h

  -- A queue without one of its elements.
  pub occurs-remove_at :
      (p : T → Bool) (x : T) (i : ℕ) (queue : List T)
      → get_elem? queue i ≡ some x
      → (if p x then 1 else 0) + occurs p (remove_at queue i) ≡ occurs p queue
  occurs-remove_at p x i [] e = cc
  occurs-remove_at p x zero (y ∷ ys) e = let same : y ≡ x = cc in rw same refl
  occurs-remove_at p x (suc i) (y ∷ ys) e = omega (arith, occurs-remove_at p x i ys e)

  pub index_of-found :
      (p : T → Bool) (i : ℕ) (queue : List T)
      → index_of p queue ≡ some i
      → (x : T) × (get_elem? queue i ≡ some x) × (p x ≡ true)
  index_of-found p i [] e = cc
  index_of-found p i (y ∷ ys) e = elim (Bool-cases (p y)) [
    | inl hit ↦ (y, ground arith, hit)
    | inr miss ↦
        (let rest = Option-cases (index_of p ys) in
          elim rest [
            | inl none_left ↦ absurd (ground arith)
            | inr (k, found) ↦
                (let (x, at, test) = index_of-found p k ys found in (x, ground arith, test))
          ])
  ]

  pub index_of-none : (p : T → Bool) (queue : List T) → index_of p queue ≡ none → occurs p queue ≡ 0
  index_of-none p [] e = refl
  index_of-none p (y ∷ ys) e = elim (Bool-cases (p y)) [
    | inl hit ↦ absurd (ground arith)
    | inr miss ↦ (elim (Option-cases (index_of p ys)) [
      | inl none_left ↦ ground (arith, index_of-none p ys)
      | inr (k, found) ↦ absurd (ground arith)
    ])
  ]

  pub remove_at-All :
      (P : T → Type 0) (i : ℕ) (queue : List T) → All P queue → All P (remove_at queue i)
  remove_at-All P i [] h = tt
  remove_at-All P zero (y ∷ ys) h = h.1
  remove_at-All P (suc i) (y ∷ ys) h = (h.0, remove_at-All P i ys h.1)

  pub remove_at-IsInOrder :
      (arrived : T → ℕ) (i : ℕ) (queue : List T)
      → IsInOrder arrived queue
      → IsInOrder arrived (remove_at queue i)
  remove_at-IsInOrder arrived i [] h = tt
  remove_at-IsInOrder arrived zero (y ∷ ys) h = h.1
  remove_at-IsInOrder arrived (suc i) (y ∷ ys) h =
      (remove_at-All (λ z. arrived y ≤ arrived z) i ys h.0, remove_at-IsInOrder arrived i ys h.1)

  pub occurs-insert :
      (arrived : T → ℕ) (p : T → Bool) (queue : List T) (item : T)
      → occurs p (insert_linear arrived queue item) ≡ (if p item then 1 else 0) + occurs p queue
  occurs-insert arrived p [] item = refl
  occurs-insert arrived p (y ∷ ys) item = ground (arith, occurs-insert arrived p ys item)
