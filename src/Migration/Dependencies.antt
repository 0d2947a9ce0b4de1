-- ===== src/Migration/Dependencies.antt =====
-- internal/state/state.go: what a state that `checkDependencies` accepts is known to hold.
use spectre.Prelude.{
  ◌≡◌, refl, sym, Bool, true, Option, none, some, List, [], ◌∷◌, ◌++◌, Text, text_eq, ◌==◌, eq_iff,
  contains, arith, Bool-cases, inl, inr,
}
use spectre.Prelude.Assoc.{lookup}
use spectre.Migration.{
  Node, State, by_id, is_migrated, Complaint, about_status, check_dependency, check_node,
  check_nodes, check_dependencies,
}
use spectre.Migration.Reached.{IsReached, starts, depends}

append-empty {ℓ} : {A : Type ℓ} (xs ys : List A) → xs ++ ys ≡ [] → (xs ≡ []) × (ys ≡ [])
append-empty [] ys h = (refl, h)
append-empty (x ∷ xs) ys h = cc

-- A node that a dependency names, migrated if the dependent one is.
abbrev pub IsFine : Node → Option Node → Type 0
IsFine n found =
    (d : Node) × (found ≡ some d) × (is_migrated n.status ≡ true → is_migrated d.status ≡ true)

status_fine :
    (n d : Node) (id : Text)
    → about_status n id d ≡ []
    → is_migrated n.status ≡ true
    → is_migrated d.status ≡ true
status_fine n d id h up = ground (arith, h, up)

dependency-IsFine :
    (n : Node) (id : Text) (found : Option Node) (seen : Bool) (later marked : List Complaint)
    → check_dependency n id found seen later marked ≡ []
    → IsFine n found × (marked ≡ [])
dependency-IsFine n id none seen later marked h = ground (arith, h)
dependency-IsFine n id (some d) seen later marked h = elim (Bool-cases (id == n.id)) [
  | inl self ↦ ground (arith, h, self)
  | inr other ↦ elim (Bool-cases seen) [
    | inl again ↦ ground (arith, h, other, again)
    | inr once ↦
        let (status, rest) =
          append-empty (about_status n id d) marked (ground (arith, h, other, once)) in
        ((d, refl, status_fine n d id status), rest)
  ]
]

node-IsFine :
    (nodes : List (Text × Node)) (n : Node) (seen ids : List Text)
    → check_node nodes n seen ids ≡ []
    → (id : Text) → contains id ids ≡ true
    → IsFine n (lookup id nodes)
unfolding check_node
node-IsFine nodes n seen [] h id c = cc
node-IsFine nodes n seen (j ∷ ids) h id c =
    let (fine, rest) =
      dependency-IsFine n j (lookup j nodes) (contains j seen) (check_node nodes n seen ids)
        (check_node nodes n (j ∷ seen) ids) h in
    elim (Bool-cases (j == id)) [
      | inl same ↦ let j_is : j ≡ id = (eq_iff j id).0 same in rw (sym j_is) fine
      | inr other ↦ node-IsFine nodes n (j ∷ seen) ids rest id (ground (arith, c, other))
    ]

found_fine :
    (nodes : List (Text × Node)) (ns : List Node) (id : Text) (n : Node)
    → check_nodes nodes ns ≡ []
    → lookup id (by_id ns) ≡ some n
    → check_node nodes n [] n.depends_on ≡ []
unfolding check_nodes lookup
found_fine nodes [] id n h f = cc
found_fine nodes (m ∷ ns) id n h f =
    let (first, rest) =
      append-empty (check_node nodes m [] m.depends_on) (check_nodes nodes ns) h in
    elim (Bool-cases (m.id == id)) [
      | inl same ↦ let m_is : m ≡ n = ground (arith, f, same) in rw (sym m_is) first
      | inr other ↦ found_fine nodes ns id n rest (ground (arith, f, other))
    ]

-- In a state with no problem among its dependencies, all that a migrated node depends on, directly or
-- through other nodes, is a migrated node of the state: none is missing, and none is pending.
pub migrated_lem :
    (s : State) (id : Text) (n : Node)
    → check_dependencies s ≡ []
    → lookup id (by_id s.nodes) ≡ some n
    → is_migrated n.status ≡ true
    → (on : Text) → IsReached (by_id s.nodes) (id ∷ []) on
    → (d : Node) × (lookup on (by_id s.nodes) ≡ some d) × (is_migrated d.status ≡ true)
unfolding check_dependencies
migrated_lem s id n h f up on (starts _ c) =
    let same : id ≡ on = (eq_iff id on).0 (ground (arith, c)) in (n, rw (sym same) f, up)
migrated_lem s id n h f up on (depends middle _ before c) =
    let (d, found, d_up) = migrated_lem s id n h f up middle before in
    let nodes = by_id s.nodes in
    let deps : contains on d.depends_on ≡ true = ground (arith, c, found) in
    let (e, e_found, e_up) =
      node-IsFine nodes d [] d.depends_on (found_fine nodes s.nodes middle d h found) on deps in
    (e, e_found, e_up d_up)
