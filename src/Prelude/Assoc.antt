-- ===== src/Prelude/Assoc.antt =====
-- A Go map as an association list. Each key stands once (`IsMap`), and the order of the entries
-- stands for the order of iteration, which Go leaves open.
use mathlib.Core.Path.{◌≡◌, refl}
use mathlib.Core.Logic.{inl, inr}
use Prim.Native.Nat.{suc, ◌≤◌}
use mathlib.Core.Bool.{Bool, true}
use mathlib.Core.List.{List, [], ◌∷◌, map}
use mathlib.Core.Option.{Option, none, some}
use native.Mathlib.Omega.{arith}
use spectre.Prelude.Tests.{if◌then◌else◌, is_some, Option-cases}
use spectre.Prelude.Lists.{select, length}
use spectre.Prelude.EqClass.{Eq, ◌==◌, eq_iff, eq_refl}

module _ {ℓ κ} {K : Type ℓ} {V : Type κ} where
  abbrev pub keys : List (K × V) → List K
  keys = map (λ e. e.0)

abbrev pub keep_if {κ} : {V : Type κ} → (V → Bool) → Option V → Option V
keep_if p none = none
keep_if p (some v) = if p v then some v else none

module _ {ℓ κ} {K : Type ℓ} {V : Type κ} ⦃e : Eq K⦄ where
  unfoldable pub lookup : K → List (K × V) → Option V
  lookup k [] = none
  lookup k ((name, v) ∷ rest) = if name == k then some v else lookup k rest

  -- `rest[k] = v`.
  unfoldable pub insert : K → V → List (K × V) → List (K × V)
  insert k v [] = (k, v) ∷ []
  insert k v ((name, old) ∷ rest) =
      if name == k then (k, v) ∷ rest else (name, old) ∷ insert k v rest

  -- `delete(rest, k)`.
  unfoldable pub remove : K → List (K × V) → List (K × V)
  remove k [] = []
  remove k ((name, old) ∷ rest) = if name == k then remove k rest else (name, old) ∷ remove k rest

  abbrev pub IsMap : List (K × V) → Type κ
  IsMap [] = Unit
  IsMap ((k, v) ∷ rest) = (lookup k rest ≡ none) × IsMap rest

  pub lookup-insert :
      (k name : K) (v : V) (rest : List (K × V))
      → lookup name (insert k v rest) ≡ (if k == name then some v else lookup name rest)
  unfolding lookup insert
  lookup-insert k name v [] = refl
  lookup-insert k name v ((at, old) ∷ rest) =
      ground (arith, lookup-insert k name v rest, eq_iff at name, eq_iff k name, eq_iff at k)

  pub lookup-remove :
      (k name : K) (rest : List (K × V))
      → lookup name (remove k rest) ≡ (if k == name then none else lookup name rest)
  unfolding lookup remove
  lookup-remove k name [] = ground arith
  lookup-remove k name ((at, old) ∷ rest) =
      ground (arith, eq_iff k name, eq_iff at k, eq_iff at name, lookup-remove k name rest)

  pub insert-IsMap : (k : K) (v : V) (m : List (K × V)) → IsMap m → IsMap (insert k v m)
  unfolding lookup insert
  insert-IsMap k v [] h = (refl, tt)
  insert-IsMap k v ((i, w) ∷ m) h =
      ground (arith, eq_iff i k, eq_iff k i, lookup-insert k i v m, insert-IsMap k v m)

  -- A test on the keys alone.
  pub lookup-select :
      (p : K → Bool) (j : K) (m : List (K × V))
      → lookup j (select (λ (kv : K × V). p kv.0) m) ≡ (if p j then lookup j m else none)
  unfolding lookup
  lookup-select p j [] = ground arith
  lookup-select p j ((i, w) ∷ m) = ground (arith, eq_iff i j, lookup-select p j m)

  pub select-absent :
      (p : K × V → Bool) (j : K) (m : List (K × V))
      → lookup j m ≡ none
      → lookup j (select p m) ≡ none
  unfolding lookup
  select-absent p j [] h = refl
  select-absent p j ((i, w) ∷ m) h = ground (arith, select-absent p j m)

  pub select-IsMap : (p : K × V → Bool) (m : List (K × V)) → IsMap m → IsMap (select p m)
  unfolding lookup
  select-IsMap p [] h = tt
  select-IsMap p ((i, w) ∷ m) h = ground (arith, select-absent p i m, select-IsMap p m)

  -- A test on keys and values, on a map.
  pub lookup-keep :
      (p : K × V → Bool) (j : K) (m : List (K × V))
      → IsMap m
      → lookup j (select p m) ≡ keep_if (λ v. p (j, v)) (lookup j m)
  unfolding lookup
  lookup-keep p j [] h = refl
  lookup-keep p j ((i, w) ∷ m) h =
      ground (arith, eq_iff i j, lookup-keep p j m h.1, select-absent p i m h.0)

  pub remove-absent : (k : K) (m : List (K × V)) → lookup k m ≡ none → remove k m ≡ m
  unfolding lookup remove
  remove-absent k [] h = refl
  remove-absent k ((i, w) ∷ m) h = ground (arith, remove-absent k m)

  pub length-remove :
      (k : K) (v : V) (m : List (K × V))
      → IsMap m
      → lookup k m ≡ some v
      → suc (length (remove k m)) ≡ length m
  unfolding lookup remove
  length-remove k v [] h f = cc
  length-remove k v ((i, w) ∷ m) h f =
      ground (arith, eq_iff i k, remove-absent k m, length-remove k v m h.1)

  pub remove-IsMap : (k : K) (m : List (K × V)) → IsMap m → IsMap (remove k m)
  unfolding remove
  remove-IsMap k [] h = tt
  remove-IsMap k ((i, w) ∷ m) h = ground (arith, lookup-remove k i m, remove-IsMap k m h.1)

  -- A map whose keys are all in another has no more entries.
  pub length-le_of_keys :
      (m n : List (K × V))
      → IsMap m
      → IsMap n
      → ((k : K) → is_some (lookup k m) ≡ true → is_some (lookup k n) ≡ true)
      → length m ≤ length n
  unfolding lookup
  length-le_of_keys [] n hm hn sub = omega arith
  length-le_of_keys ((i, w) ∷ m) n hm hn sub = elim (Option-cases (lookup i n)) [
    | inl e ↦ absurd (ground (arith, sub i, eq_refl i, e))
    | inr (v, e) ↦
        let ih =
          length-le_of_keys m (remove i n) hm.1 (remove-IsMap i n hn)
            (λ k h. ground (arith, lookup-remove i k n, sub k, eq_iff i k, hm.0)) in
        omega (arith, length-remove i v n hn e)
  ]
