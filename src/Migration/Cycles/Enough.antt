-- ===== src/Migration/Cycles/Enough.antt =====
-- internal/state/state.go: the fuel of `checkCycles` is enough, and what the search then tells.
use spectre.Prelude.{
  ℕ, zero, suc, ◌+◌, ◌≤◌, ◌≡◌, refl, Bool, true, false, Option, none, some, List, [], ◌∷◌, ◌++◌,
  map, Text, text_eq, ◌==◌, eq_iff, contains, contains-append, length, arith, if◌then◌else◌,
}
use spectre.Prelude.Assoc.{lookup}
use spectre.Migration.{Node, State, by_id, dependencies_of}
use spectre.Migration.Cycles.{
  Visit, found, went, out_of_fuel, from_id, then_go, each, visit, visit_all, check_cycles,
}
use spectre.Migration.Cycles.Found.{IsCycle, FoundIsCycle, visit_all-Found}
use spectre.Migration.Cycles.Ordered.{IsOrdered, WentOrdered, visit_all-Ordered}

-- How many nodes are not on the stack.
fresh : List Text → List (Text × Node) → ℕ
fresh stack [] = 0
fresh stack ((id, n) ∷ nodes) = (if contains id stack then 0 else 1) + fresh stack nodes

fresh-le :
    (stack : List Text) (id : Text) (nodes : List (Text × Node))
    → fresh (stack ++ id ∷ []) nodes ≤ fresh stack nodes
unfolding fresh
fresh-le stack id [] = omega arith
fresh-le stack id ((j, n) ∷ nodes) =
    ground (arith, fresh-le stack id nodes, contains-append j stack (id ∷ []))

fresh-lt :
    (stack : List Text) (id : Text) (n : Node) (nodes : List (Text × Node))
    → contains id stack ≡ false
    → lookup id nodes ≡ some n
    → suc (fresh (stack ++ id ∷ []) nodes) ≤ fresh stack nodes
unfolding fresh lookup
fresh-lt stack id n [] c e = cc
fresh-lt stack id n ((j, m) ∷ nodes) c e = ground (
  arith,
  fresh-le stack id nodes,
  fresh-lt stack id n nodes c,
  contains-append j stack (id ∷ []),
  eq_iff j id,
  eq_iff id j,
)

fresh-nodes : (nodes : List (Text × Node)) → fresh [] nodes ≤ length nodes
unfolding fresh
fresh-nodes [] = omega arith
fresh-nodes ((id, n) ∷ nodes) = omega (arith, fresh-nodes nodes)

abbrev pub Ends : Visit → Type 0
Ends out_of_fuel = true ≡ false
Ends _ = Unit

module _ (nodes : List (Text × Node)) where
  then-Ends :
      (v : Visit) (next : List Text → Visit)
      → Ends v
      → ((later : List Text) → Ends (next later))
      → Ends (then_go v next)
  then-Ends (found cycle) next h k = tt
  then-Ends (went done) next h k = k done
  then-Ends out_of_fuel next h k = h

  each-Ends :
      (go : List Text → Text → Visit) (stack : List Text) (id : Text) (deps done : List Text)
      → ((later : List Text) (d : Text) → contains d stack ≡ false → Ends (go later d))
      → Ends (each go stack id deps done)
  unfolding each
  each-Ends go stack id [] done k = tt
  each-Ends go stack id (d ∷ deps) done k =
      step (d == id) (contains d stack) refl (λ later. each-Ends go stack id deps later k)
    where
      step :
          (self known : Bool)
          → contains d stack ≡ known
          → ((later : List Text) → Ends (each go stack id deps later))
          → Ends (elim self [
            | true ↦ each go stack id deps done
            | false ↦ elim known [
              | true ↦ found (from_id d stack ++ d ∷ [])
              | false ↦ then_go (go done d) (λ later. each go stack id deps later)
            ]
          ])
      step true known c rest = rest done
      step false true c rest = tt
      step false false c rest = then-Ends (go done d) _ (k done d c) rest

  visit-Ends :
      (fuel : ℕ) (before done : List Text) (id : Text)
      → contains id before ≡ false
      → suc (fresh before nodes) ≤ fuel
      → Ends (visit fuel nodes before done id)
  unfolding visit each
  visit-Ends zero before done id c enough = absurd (omega arith)
  visit-Ends (suc fuel) before done id c enough = step (contains id done) (
      by_node (lookup id nodes) refl (λ n e later d out.
        visit-Ends fuel (before ++ id ∷ []) later d out
          (omega (arith, fresh-lt before id n nodes c e))))
    where
      go : List Text → Text → Visit
      go = visit fuel nodes (before ++ id ∷ [])

      by_node :
          (n : Option Node)
          → lookup id nodes ≡ n
          → ((m : Node)
              → lookup id nodes ≡ some m
              → (later : List Text) (d : Text) → contains d (before ++ id ∷ []) ≡ false
              → Ends (go later d))
          → Ends (each go (before ++ id ∷ []) id (dependencies_of n) done)
      by_node none e k = tt
      by_node (some n) e k = each-Ends go (before ++ id ∷ []) id n.depends_on done (k n e)

      step :
          (seen : Bool)
          → Ends (each go (before ++ id ∷ []) id (dependencies_of (lookup id nodes)) done)
          → Ends (elim seen [
            | true ↦ went done
            | false ↦ each go (before ++ id ∷ []) id (dependencies_of (lookup id nodes)) done
          ])
      step true h = tt
      step false h = h

  visit_all-Ends :
      (fuel : ℕ) (ids done : List Text)
      → suc (length nodes) ≤ fuel
      → Ends (visit_all fuel nodes ids done)
  unfolding visit_all
  visit_all-Ends fuel [] done enough = tt
  visit_all-Ends fuel (id ∷ ids) done enough =
      then-Ends (visit fuel nodes [] done id) _
        (visit-Ends fuel [] done id refl (omega (arith, fresh-nodes nodes)))
        (λ later. visit_all-Ends fuel ids later enough)

-- A cycle of dependencies between nodes, or an order in which each node comes after what it depends
-- on: a list with all IDs of the nodes, in which whatever one depends on, but itself, follows it.
abbrev pub Told : State → Visit → Type 0
Told s (found cycle) = IsCycle (by_id s.nodes) cycle
Told s (went order) =
    IsOrdered (by_id s.nodes) order
    × ((id : Text)
        → contains id (map (λ (n : Node). n.id) s.nodes) ≡ true
        → contains id order ≡ true)
Told s out_of_fuel = true ≡ false

length-by_id : (nodes : List Node) → length (by_id nodes) ≡ length nodes
length-by_id [] = refl
length-by_id (n ∷ nodes) = omega (arith, length-by_id nodes)

-- The search ends. If it reports a cycle, each ID of it depends on the next and the last is the first; if
-- it reports none, the nodes have an order in which each comes after what it depends on, but itself.
pub check_cycles-Told : (s : State) → Told s (check_cycles s)
unfolding check_cycles
check_cycles-Told s =
    let nodes = by_id s.nodes in
    let fuel = length s.nodes + 2 in
    let ids = map (λ (n : Node). n.id) s.nodes in
    told (visit_all fuel nodes ids [])
      (visit_all-Ends nodes fuel ids [] (omega (arith, length-by_id s.nodes)))
      (visit_all-Found nodes fuel ids []) (visit_all-Ordered nodes fuel ids [] tt)
  where
    told :
        (v : Visit)
        → Ends v
        → FoundIsCycle (by_id s.nodes) v
        → WentOrdered (by_id s.nodes) (map (λ (n : Node). n.id) s.nodes) [] v
        → Told s v
    told (found cycle) ends is ordered = is
    told (went order) ends is (ordered, extends, has) = (ordered, has)
    told out_of_fuel ends is ordered = ends
