-- ===== src/Migration/Cycles.antt =====
-- internal/state/state.go, `checkCycles`: the search for a cycle of dependencies.
pub mod Found
pub mod Ordered
pub mod Enough
use spectre.Prelude.{
  ℕ, zero, suc, ◌+◌, Bool, true, false, Option, none, some, List, [], ◌∷◌, ◌++◌, map, Text, text_eq,
  ◌==◌, contains, length, if◌then◌else◌,
}
use spectre.Prelude.Assoc.{lookup}
use spectre.Migration.{Node, State, by_id, dependencies_of}

-- What `visit` comes to: a cycle, or the nodes that are done, the latest first.
pub data Visit : Type 0 where
  found : List Text → Visit
  went : List Text → Visit
  out_of_fuel : Visit

-- `stack[start:]` from where an ID stands.
abbrev pub from_id : Text → List Text → List Text
from_id id [] = []
from_id id (x ∷ xs) = if x == id then x ∷ xs else from_id id xs

abbrev pub then_go : Visit → (List Text → Visit) → Visit
then_go (found cycle) next = found cycle
then_go (went done) next = next done
then_go out_of_fuel next = out_of_fuel

-- The loop over the dependencies of an ID at the end of the stack, given what a visit of one does.
unfoldable pub each : (List Text → Text → Visit) → List Text → Text → List Text → List Text → Visit
each go stack id [] done = went (id ∷ done)
each go stack id (d ∷ deps) done = elim (d == id) [
  | true ↦ each go stack id deps done
  | false ↦ elim (contains d stack) [
    | true ↦ found (from_id d stack ++ d ∷ [])
    | false ↦ then_go (go done d) (λ later. each go stack id deps later)
  ]
]

-- `visit`, of an ID that comes after a stack.
unfoldable pub visit : ℕ → List (Text × Node) → List Text → List Text → Text → Visit
unfolding each
visit zero nodes before done id = out_of_fuel
visit (suc fuel) nodes before done id = elim (contains id done) [
  | true ↦ went done
  | false ↦
      each (visit fuel nodes (before ++ id ∷ [])) (before ++ id ∷ []) id
        (dependencies_of (lookup id nodes)) done
]

-- The loop over the nodes.
unfoldable pub visit_all : ℕ → List (Text × Node) → List Text → List Text → Visit
unfolding visit
visit_all fuel nodes [] done = went done
visit_all fuel nodes (id ∷ ids) done =
    then_go (visit fuel nodes [] done id) (λ later. visit_all fuel nodes ids later)

-- `checkCycles`: a visit goes one node deeper with each call, and an ID that is no node's has no
-- dependencies.
unfoldable pub check_cycles : State → Visit
unfolding visit_all
check_cycles s =
    visit_all (length s.nodes + 2) (by_id s.nodes) (map (λ (n : Node). n.id) s.nodes) []
