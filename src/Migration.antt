-- ===== src/Migration.antt =====
-- internal/state/state.go: a service's migration state, which of its nodes ingress traffic reaches,
-- and the checks of its dependencies. The parser's TOML input and the check of unique settings are
-- not modelled.
--
-- A Go map of nodes is built from a list with distinct IDs, the keys of a TOML table, in order.
pub mod Reached
pub mod Dependencies
pub mod Cycles
pub mod Tests
use spectre.Prelude.{
  ℕ, zero, suc, ◌+◌, Bool, true, false, not, ◌&&◌, ◌||◌, Option, none, some, List, [], ◌∷◌, ◌++◌,
  map, Text, text, text_eq, ◌==◌, any, every, contains, length, leb, is_some, if◌then◌else◌, select,
}
use spectre.Prelude.Assoc.{lookup}
use spectre.Model.{IoKind, Direction, ingress, direction_eq, join}

-- `Status`.
pub data Status : Type 0 where
  pending migrated : Status

abbrev pub is_migrated : Status → Bool
is_migrated pending = false
is_migrated migrated = true

-- `Node`; of the settings of an IO kind only that it has the kind is kept.
pub record Node : Type 0 where
  pub id : Text
  pub depends_on : List Text
  pub status : Status
  pub io : List IoKind
  pub line : ℕ

-- `State`.
pub record State : Type 0 where
  pub nodes : List Node

-- `Problem`.
pub record Problem : Type 0 where
  pub line : ℕ
  pub message : Text

-- `nodes[node.ID] = node` for each node.
abbrev pub by_id : List Node → List (Text × Node)
by_id nodes = map (λ n. (n.id, n)) nodes

-- `nodes[id].DependsOn`, which is empty for an ID that is no node's.
abbrev pub dependencies_of : Option Node → List Text
dependencies_of none = []
dependencies_of (some n) = n.depends_on

-- `hasIngress`.
unfoldable pub has_ingress : Node → Bool
has_ingress n = any (λ (k : IoKind). k.direction == ingress) n.io

abbrev pub is_bare : ℕ → Bool
is_bare c =
    (leb 65 c && leb c 90)
    || ((leb 97 c && leb c 122)
        || ((leb 48 c && leb c 57) || (leb c 45 && leb 45 c) || (leb c 95 && leb 95 c)))

-- `bareKeyPattern`.
abbrev pub is_bare_key : Text → Bool
is_bare_key part = leb 1 (length part) && every is_bare part

-- The queue that `Unreached` starts from.
abbrev pub ingress_nodes : List Node → List Text
ingress_nodes nodes = map (λ n. n.id) (select has_ingress nodes)

-- The loop over the queue. Each round takes an ID, and each node adds what it depends on once.
unfoldable pub walk : ℕ → List (Text × Node) → List Text → List Text → List Text
walk zero nodes queue reached = reached
walk (suc fuel) nodes [] reached = reached
walk (suc fuel) nodes (id ∷ queue) reached =
    let skip = walk fuel nodes queue reached in
    let visit = walk fuel nodes (queue ++ dependencies_of (lookup id nodes)) (id ∷ reached) in
    if contains id reached then skip else visit

abbrev pub count_dependencies : List (Text × Node) → ℕ
count_dependencies [] = 0
count_dependencies ((id, n) ∷ nodes) = length n.depends_on + count_dependencies nodes

-- The map `reached` at the end of the loop.
unfoldable pub reached_nodes : State → List Text
reached_nodes s =
    let queue = ingress_nodes s.nodes in
    walk (length queue + count_dependencies (by_id s.nodes)) (by_id s.nodes) queue []

module _ (quote : Text → Text) where
  -- `keyPath`.
  unfoldable pub key_path : List Text → Text
  key_path parts =
      join (text ".") (map (λ part. if is_bare_key part then part else quote part) parts)

  -- `Unreached`.
  unfoldable pub unreached : State → List Problem
  unreached s =
      map
        (λ (n : Node). record {
          line = n.line;
          message =
              key_path (text "nodes" ∷ n.id ∷ [])
              ++ text ": no ingress node reaches it, so SPECTRE cannot verify it";
        })
        (select (λ (n : Node). not (contains n.id (reached_nodes s))) s.nodes)

-- What `checkDependencies` reports of a node and the ID of a dependency.
pub data Complaint : Type 0 where
  depends_on_itself : Text → Complaint
  not_a_node listed_twice depends_on_pending : Text → Text → Complaint

abbrev pub about_status : Node → Text → Node → List Complaint
about_status n id dependency =
    if is_migrated n.status && not (is_migrated dependency.status)
    then depends_on_pending n.id id ∷ []
    else []

-- The switch in the loop over the dependencies of a node. `later` is what the rest of the loop
-- reports, and `marked` the same with the ID marked as seen.
abbrev pub check_dependency :
    Node → Text → Option Node → Bool → List Complaint → List Complaint → List Complaint
check_dependency n id none seen later marked =
    if id == n.id then depends_on_itself n.id ∷ later else not_a_node n.id id ∷ later
check_dependency n id (some d) seen later marked =
    if id == n.id
    then depends_on_itself n.id ∷ later
    else if seen
    then listed_twice n.id id ∷ later
    else about_status n id d ++ marked

-- The loop over the dependencies of a node.
unfoldable pub check_node : List (Text × Node) → Node → List Text → List Text → List Complaint
check_node nodes n seen [] = []
check_node nodes n seen (id ∷ ids) =
    let later = check_node nodes n seen ids in
    let marked = check_node nodes n (id ∷ seen) ids in
    check_dependency n id (lookup id nodes) (contains id seen) later marked

unfoldable pub check_nodes : List (Text × Node) → List Node → List Complaint
check_nodes nodes [] = []
check_nodes nodes (n ∷ ns) = check_node nodes n [] n.depends_on ++ check_nodes nodes ns

-- `checkDependencies`, before it looks for cycles.
unfoldable pub check_dependencies : State → List Complaint
check_dependencies s = check_nodes (by_id s.nodes) s.nodes
