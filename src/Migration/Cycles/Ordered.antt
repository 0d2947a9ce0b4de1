-- ===== src/Migration/Cycles/Ordered.antt =====
-- internal/state/state.go: where `checkCycles` reports nothing, the nodes can be ordered so that each comes
-- after what it depends on.
use spectre.Prelude.{
  ℕ, zero, suc, ◌≡◌, refl, Bool, true, false, ◌||◌, List, [], ◌∷◌, ◌++◌, Text, text_eq, ◌==◌,
  eq_iff, contains, arith,
}
use spectre.Prelude.Assoc.{lookup}
use spectre.Migration.{Node, dependencies_of}
use spectre.Migration.Cycles.{
  Visit, found, went, out_of_fuel, from_id, then_go, each, visit, visit_all,
}
use spectre.Migration.Cycles.Found.{depends_on}

-- Each ID comes before what follows it in the list only if that is not needed for it: whatever it
-- depends on, but itself, follows it.
abbrev pub IsOrdered : List (Text × Node) → List Text → Type 0
IsOrdered nodes [] = Unit
IsOrdered nodes (id ∷ done) =
    ((d : Text) → depends_on nodes id d ≡ true → (d == id || contains d done) ≡ true)
    × IsOrdered nodes done

abbrev pub Extends : List Text → List Text → Type 0
Extends done later = (x : Text) → contains x done ≡ true → contains x later ≡ true

-- A search that ends without a cycle has done more, in order, and the IDs it was for.
abbrev pub WentOrdered : List (Text × Node) → List Text → List Text → Visit → Type 0
WentOrdered nodes ids done (went later) =
    IsOrdered nodes later
    × Extends done later
    × ((x : Text) → contains x ids ≡ true → contains x later ≡ true)
WentOrdered nodes ids done (found cycle) = Unit
WentOrdered nodes ids done out_of_fuel = Unit

module _ (nodes : List (Text × Node)) where
  then-Ordered :
      (ids more : List Text) (done : List Text) (v : Visit) (next : List Text → Visit)
      → WentOrdered nodes more done v
      → ((later : List Text)
          → IsOrdered nodes later
          → Extends done later
          → ((x : Text) → contains x more ≡ true → contains x later ≡ true)
          → WentOrdered nodes ids later (next later))
      → WentOrdered nodes ids done (then_go v next)
  then-Ordered ids more done (found cycle) next h k = tt
  then-Ordered ids more done out_of_fuel next h k = tt
  then-Ordered ids more done (went later) next (ordered, extends, has) k =
      weaken (next later) (k later ordered extends has)
    where
      weaken : (v : Visit) → WentOrdered nodes ids later v → WentOrdered nodes ids done v
      weaken (found cycle) h = tt
      weaken out_of_fuel h = tt
      weaken (went last) (o, e, c) = (o, λ x here. e x (extends x here), c)

  each-Ordered :
      (go : List Text → Text → Visit) (stack : List Text) (id : Text) (deps done : List Text)
      → IsOrdered nodes done
      → ((e : Text)
          → depends_on nodes id e ≡ true
          → (e == id || (contains e done || contains e deps)) ≡ true)
      → ((later : List Text) (d : Text)
          → IsOrdered nodes later
          → WentOrdered nodes (d ∷ []) later (go later d))
      → WentOrdered nodes (id ∷ []) done (each go stack id deps done)
  unfolding each
  each-Ordered go stack id [] done ordered left k = (
    (λ e depends. ground (arith, left e depends), ordered),
    λ x here. ground arith,
    λ x here. ground arith,
  )
  each-Ordered go stack id (d ∷ deps) done ordered left k =
      step (d == id) refl (contains d stack)
        (λ self.
          each-Ordered go stack id deps done ordered
            (λ e depends. ground (arith, left e depends, eq_iff d e, eq_iff d id, eq_iff e id)) k)
        (λ later o extends has.
          each-Ordered go stack id deps later o
            (λ e depends. ground (arith, left e depends, extends e, has e, eq_iff d e)) k)
    where
      step :
          (self : Bool)
          → (d == id) ≡ self
          → (known : Bool)
          → ((d == id) ≡ true → WentOrdered nodes (id ∷ []) done (each go stack id deps done))
          → ((later : List Text)
              → IsOrdered nodes later
              → Extends done later
              → ((x : Text) → contains x (d ∷ []) ≡ true → contains x later ≡ true)
              → WentOrdered nodes (id ∷ []) later (each go stack id deps later))
          → WentOrdered nodes (id ∷ []) done (elim self [
            | true ↦ each go stack id deps done
            | false ↦ elim known [
              | true ↦ found (from_id d stack ++ d ∷ [])
              | false ↦ then_go (go done d) (λ later. each go stack id deps later)
            ]
          ])
      step true self known same more = same self
      step false self true same more = tt
      step false self false same more =
          then-Ordered (id ∷ []) (d ∷ []) done (go done d) _ (k done d ordered) more

  visit-Ordered :
      (fuel : ℕ) (before done : List Text) (id : Text)
      → IsOrdered nodes done
      → WentOrdered nodes (id ∷ []) done (visit fuel nodes before done id)
  unfolding visit
  visit-Ordered zero before done id ordered = tt
  visit-Ordered (suc fuel) before done id ordered = step (contains id done) refl (
      each-Ordered (visit fuel nodes (before ++ id ∷ [])) (before ++ id ∷ []) id
        (dependencies_of (lookup id nodes)) done ordered (λ e depends. ground (arith, depends))
        (λ later d o. visit-Ordered fuel (before ++ id ∷ []) later d o))
    where
      step :
          (seen : Bool)
          → contains id done ≡ seen
          → WentOrdered nodes (id ∷ []) done (
              each
                (visit fuel nodes (before ++ id ∷ []))
                (before ++ id ∷ [])
                id
                (dependencies_of (lookup id nodes))
                done)
          → WentOrdered nodes (id ∷ []) done (elim seen [
            | true ↦ went done
            | false ↦
                each
                  (visit fuel nodes (before ++ id ∷ []))
                  (before ++ id ∷ [])
                  id
                  (dependencies_of (lookup id nodes))
                  done
          ])
      step true seen h = (ordered, λ x here. here, λ x here. ground (arith, eq_iff id x))
      step false seen h = h

  pub visit_all-Ordered :
      (fuel : ℕ) (ids done : List Text)
      → IsOrdered nodes done
      → WentOrdered nodes ids done (visit_all fuel nodes ids done)
  unfolding visit_all
  visit_all-Ordered fuel [] done ordered = (ordered, λ x here. here, λ x here. cc)
  visit_all-Ordered fuel (id ∷ ids) done ordered =
      then-Ordered (id ∷ ids) (id ∷ []) done (visit fuel nodes [] done id) _
        (visit-Ordered fuel [] done id ordered)
        (λ later o extends has.
          with_first later has (visit_all fuel nodes ids later)
            (visit_all-Ordered fuel ids later o))
    where
      with_first :
          (later : List Text)
          → ((x : Text) → contains x (id ∷ []) ≡ true → contains x later ≡ true)
          → (v : Visit) → WentOrdered nodes ids later v
          → WentOrdered nodes (id ∷ ids) later v
      with_first later has (found cycle) h = tt
      with_first later has out_of_fuel h = tt
      with_first later has (went last) (o, e, c) =
          (o, e, λ x here. ground (arith, here, has x, e x, c x))
