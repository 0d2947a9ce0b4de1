-- ===== src/Migration/Cycles/Found.antt =====
-- internal/state/state.go: a cycle that `checkCycles` reports is one.
use spectre.Prelude.{
  ℕ, zero, suc, ◌≡◌, refl, sym, ◌∙◌, Bool, true, false, List, [], ◌∷◌, ◌++◌, Text, text_eq, ◌==◌,
  eq_iff, eq_refl, contains, arith, Bool-cases, inl, inr,
}
use spectre.Prelude.Assoc.{lookup}
use spectre.Migration.{Node, dependencies_of}
use spectre.Migration.Cycles.{
  Visit, found, went, out_of_fuel, from_id, then_go, each, visit, visit_all,
}

abbrev pub depends_on : List (Text × Node) → Text → Text → Bool
depends_on nodes id on = contains on (dependencies_of (lookup id nodes))

-- Each ID depends on the next, which is another.
abbrev pub IsChain : List (Text × Node) → List Text → Type 0
IsChain nodes [] = Unit
IsChain nodes (a ∷ []) = Unit
IsChain nodes (a ∷ b ∷ rest) =
    (depends_on nodes a b ≡ true) × ((b == a) ≡ false) × IsChain nodes (b ∷ rest)

abbrev pub last_of : Text → List Text → Text
last_of a [] = a
last_of a (b ∷ rest) = last_of b rest

-- A chain of more than one ID that ends where it starts.
abbrev pub IsCycle : List (Text × Node) → List Text → Type 0
IsCycle nodes [] = true ≡ false
IsCycle nodes (a ∷ []) = true ≡ false
IsCycle nodes (a ∷ b ∷ rest) = IsChain nodes (a ∷ b ∷ rest) × (last_of b rest ≡ a)

abbrev pub FoundIsCycle : List (Text × Node) → Visit → Type 0
FoundIsCycle nodes (found cycle) = IsCycle nodes cycle
FoundIsCycle nodes _ = Unit

module _ (nodes : List (Text × Node)) where
  IsChain-last :
      (front : List Text) (a b : Text)
      → IsChain nodes (front ++ a ∷ [])
      → depends_on nodes a b ≡ true
      → (b == a) ≡ false
      → IsChain nodes ((front ++ a ∷ []) ++ b ∷ [])
  IsChain-last [] a b h d e = (d, e, tt)
  IsChain-last (x ∷ []) a b (d0, e0, h) d e = (d0, e0, (d, e, tt))
  IsChain-last (x ∷ y ∷ front) a b (d0, e0, h) d e = (d0, e0, IsChain-last (y ∷ front) a b h d e)

  IsChain-from :
      (id : Text) (chain : List Text) → IsChain nodes chain → IsChain nodes (from_id id chain)
  IsChain-from id [] h = tt
  IsChain-from id (x ∷ []) h = ground arith
  IsChain-from id (x ∷ y ∷ chain) h = ground (arith, IsChain-from id (y ∷ chain) h.2)

  last-append : (a b : Text) (xs : List Text) → last_of a (xs ++ b ∷ []) ≡ b
  last-append a b [] = refl
  last-append a b (x ∷ xs) = last-append x b xs

  IsChain-tail : (x : Text) (rest : List Text) → IsChain nodes (x ∷ rest) → IsChain nodes rest
  IsChain-tail x [] h = tt
  IsChain-tail x (y ∷ rest) h = h.2

  whole :
      (x d : Text) (ys : List Text)
      → IsChain nodes (x ∷ (ys ++ d ∷ []))
      → x ≡ d
      → IsCycle nodes (x ∷ (ys ++ d ∷ []))
  whole x d [] h e = (h, sym e)
  whole x d (y ∷ ys) h e = (h, last-append y d ys ∙ sym e)

  -- The part of the stack from an ID that is not its last one, closed by the ID.
  closed :
      (front : List Text) (id d : Text)
      → IsChain nodes ((front ++ id ∷ []) ++ d ∷ [])
      → contains d (front ++ id ∷ []) ≡ true
      → (d == id) ≡ false
      → IsCycle nodes (from_id d (front ++ id ∷ []) ++ d ∷ [])
  closed [] id d h c e = absurd (ground (arith, eq_iff id d, eq_iff d id))
  closed (x ∷ front) id d h c e = elim (Bool-cases (x == d)) [
    | inl same ↦ rw same (whole x d (front ++ id ∷ []) h ((eq_iff x d).0 same))
    | inr other ↦ rw other (closed front id d (IsChain-tail x _ h) (ground (arith, c, other)) e)
  ]

  then-Found :
      (v : Visit) (next : List Text → Visit)
      → FoundIsCycle nodes v
      → ((done : List Text) → FoundIsCycle nodes (next done))
      → FoundIsCycle nodes (then_go v next)
  then-Found (found cycle) next h k = h
  then-Found (went done) next h k = k done
  then-Found out_of_fuel next h k = tt

  each-Found :
      (go : List Text → Text → Visit) (front : List Text) (id : Text) (deps done : List Text)
      → IsChain nodes (front ++ id ∷ [])
      → ((d : Text) → contains d deps ≡ true → depends_on nodes id d ≡ true)
      → ((done : List Text) (d : Text)
          → IsChain nodes ((front ++ id ∷ []) ++ d ∷ [])
          → FoundIsCycle nodes (go done d))
      → FoundIsCycle nodes (each go (front ++ id ∷ []) id deps done)
  unfolding each
  each-Found go front id [] done h are k = tt
  each-Found go front id (d ∷ deps) done h are k =
      step (d == id) refl (contains d (front ++ id ∷ [])) refl
        (λ later. each-Found go front id deps later h (λ e c. are e (ground (arith, c))) k)
    where
      depends : depends_on nodes id d ≡ true
      depends = are d (ground (arith, eq_refl d))

      step :
          (self : Bool)
          → (d == id) ≡ self
          → (known : Bool) → contains d (front ++ id ∷ []) ≡ known
          → ((later : List Text) → FoundIsCycle nodes (each go (front ++ id ∷ []) id deps later))
          → FoundIsCycle nodes (elim self [
            | true ↦ each go (front ++ id ∷ []) id deps done
            | false ↦ elim known [
              | true ↦ found (from_id d (front ++ id ∷ []) ++ d ∷ [])
              | false ↦ then_go (go done d) (λ later. each go (front ++ id ∷ []) id deps later)
            ]
          ])
      step true s known c rest = rest done
      step false s true c rest = closed front id d (IsChain-last front id d h depends s) c s
      step false s false c rest =
          then-Found (go done d) _ (k done d (IsChain-last front id d h depends s)) rest

  visit-Found :
      (fuel : ℕ) (before done : List Text) (id : Text)
      → IsChain nodes (before ++ id ∷ [])
      → FoundIsCycle nodes (visit fuel nodes before done id)
  unfolding visit
  visit-Found zero before done id h = tt
  visit-Found (suc fuel) before done id h = step (contains id done) (
      each-Found (visit fuel nodes (before ++ id ∷ [])) before id
        (dependencies_of (lookup id nodes)) done h (λ d c. c)
        (λ later d chain. visit-Found fuel (before ++ id ∷ []) later d chain))
    where
      step :
          (seen : Bool)
          → FoundIsCycle nodes (
              each
                (visit fuel nodes (before ++ id ∷ []))
                (before ++ id ∷ [])
                id
                (dependencies_of (lookup id nodes))
                done)
          → FoundIsCycle nodes (elim seen [
            | true ↦ went done
            | false ↦
                each
                  (visit fuel nodes (before ++ id ∷ []))
                  (before ++ id ∷ [])
                  id
                  (dependencies_of (lookup id nodes))
                  done
          ])
      step true h = tt
      step false h = h

  pub visit_all-Found :
      (fuel : ℕ) (ids done : List Text) → FoundIsCycle nodes (visit_all fuel nodes ids done)
  unfolding visit_all
  visit_all-Found fuel [] done = tt
  visit_all-Found fuel (id ∷ ids) done =
      then-Found (visit fuel nodes [] done id) _ (visit-Found fuel [] done id tt)
        (visit_all-Found fuel ids)
