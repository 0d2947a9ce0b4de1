-- ===== src/Migration/Reached.antt =====
-- internal/state/state.go: `Unreached` warns of exactly the nodes that ingress traffic cannot reach.
use spectre.Prelude.{
  ℕ, zero, suc, ◌+◌, ◌≤◌, ◌≡◌, refl, sym, true, false, ◌||◌, none, List, [], ◌∷◌, ◌++◌, Text,
  text_eq, ◌==◌, eq_iff, eq_refl, contains, contains-append, length, length-append, arith,
  if◌then◌else◌, Bool-cases, inl, inr, ◌↔◌,
}
use spectre.Prelude.Assoc.{lookup, IsMap}
use spectre.Migration.{
  Node, State, by_id, dependencies_of, ingress_nodes, walk, count_dependencies, reached_nodes,
}

-- What ingress traffic reaches: the nodes that the walk starts from, and what they depend on.
pub data IsReached (nodes : List (Text × Node)) (start : List Text) : Text → Type 0 where
  starts : (id : Text) → contains id start ≡ true → IsReached nodes start id
  depends :
      (id on : Text)
      → IsReached nodes start id
      → contains on (dependencies_of (lookup id nodes)) ≡ true
      → IsReached nodes start on

-- The dependencies of nodes that are still to be reached.
unfoldable pub left : List Text → List (Text × Node) → ℕ
left reached [] = 0
left reached ((id, n) ∷ nodes) =
    if contains id reached then left reached nodes else length n.depends_on + left reached nodes

left-absent :
    (id : Text) (reached : List Text) (nodes : List (Text × Node))
    → lookup id nodes ≡ none
    → left (id ∷ reached) nodes ≡ left reached nodes
unfolding left lookup
left-absent id reached [] h = refl
left-absent id reached ((j, n) ∷ nodes) h =
    ground (arith, eq_iff j id, eq_iff id j, left-absent id reached nodes)

left-visit :
    (id : Text) (reached : List Text) (nodes : List (Text × Node))
    → IsMap nodes
    → contains id reached ≡ false
    → length (dependencies_of (lookup id nodes)) + left (id ∷ reached) nodes ≡ left reached nodes
unfolding left lookup
left-visit id reached [] m h = refl
left-visit id reached ((j, n) ∷ nodes) m h = elim (Bool-cases (j == id)) [
  | inl same ↦
      let j_is : j ≡ id = (eq_iff j id).0 same in
      let absent : lookup id nodes ≡ none = rw (sym j_is) m.0 in
      let unreached : contains j reached ≡ false = rw j_is h in
      ground (arith, same, unreached, eq_iff id j, left-absent id reached nodes absent)
  | inr other ↦ ground (arith, other, eq_iff j id, eq_iff id j, left-visit id reached nodes m.1 h)
]

module _ (nodes : List (Text × Node)) (is_map : IsMap nodes) (start : List Text) where
  -- Of a walk: all that is reached or queued is reachable, what a reached node depends on is reached
  -- or queued, and so is what the walk started from.
  record Inv (queue reached : List Text) : Type 0 where
    pub reachable :
        (id : Text) → (contains id reached || contains id queue) ≡ true → IsReached nodes start id
    pub closed :
        (id on : Text)
        → contains id reached ≡ true
        → contains on (dependencies_of (lookup id nodes)) ≡ true
        → (contains on reached || contains on queue) ≡ true
    pub started :
        (id : Text) → contains id start ≡ true → (contains id reached || contains id queue) ≡ true

  skip-Inv :
      (id : Text) (queue reached : List Text)
      → contains id reached ≡ true
      → Inv (id ∷ queue) reached
      → Inv queue reached
  skip-Inv id queue reached h v = record {
    reachable = λ j c. v.reachable j (ground (arith, c));
    closed = λ j on c d. ground (arith, v.closed j on c d, eq_iff id on, h);
    started = λ j c. ground (arith, v.started j c, eq_iff id j, h);
  }

  visit-Inv :
      (id : Text) (queue reached : List Text)
      → Inv (id ∷ queue) reached
      → Inv (queue ++ dependencies_of (lookup id nodes)) (id ∷ reached)
  visit-Inv id queue reached v = record {
    reachable = λ j c. elim (Bool-cases (contains j (dependencies_of (lookup id nodes)))) [
      | inl dependency ↦ depends id j (v.reachable id (ground (arith, eq_refl id))) dependency
      | inr other ↦
          v.reachable j
            (ground (arith, c, other, contains-append j queue (dependencies_of (lookup id nodes))))
    ];
    closed = λ j on c d.
        let queued = contains-append on queue (dependencies_of (lookup id nodes)) in
        elim (Bool-cases (id == j)) [
          | inl same ↦
              let id_is : id ≡ j = (eq_iff id j).0 same in
              let here : contains on (dependencies_of (lookup id nodes)) ≡ true = rw id_is d in
              ground (arith, here, queued)
          | inr other ↦ ground (arith, v.closed j on (ground (arith, c, other)) d, queued)
        ];
    started = λ j c.
        ground (arith, v.started j c, contains-append j queue (dependencies_of (lookup id nodes)));
  }

  walk_lem :
      (fuel : ℕ) (queue reached : List Text)
      → length queue + left reached nodes ≤ fuel
      → Inv queue reached
      → Inv [] (walk fuel nodes queue reached)
  unfolding walk
  walk_lem zero [] reached enough v = v
  walk_lem zero (id ∷ queue) reached enough v = absurd (omega (arith, enough))
  walk_lem (suc fuel) [] reached enough v = v
  walk_lem (suc fuel) (id ∷ queue) reached enough v = elim (Bool-cases (contains id reached)) [
    | inl seen ↦
        rw seen
          (walk_lem fuel queue reached (omega (arith, enough)) (skip-Inv id queue reached seen v))
    | inr new ↦
        let deps = dependencies_of (lookup id nodes) in
        let fewer = left-visit id reached nodes is_map new in
        rw new (
          walk_lem fuel (queue ++ deps) (id ∷ reached)
            (omega (arith, enough, fewer, length-append queue deps)) (visit-Inv id queue reached v))
  ]

left-none : (nodes : List (Text × Node)) → left [] nodes ≡ count_dependencies nodes
unfolding left
left-none [] = refl
left-none ((id, n) ∷ nodes) = omega (arith, left-none nodes)

everything_reached :
    (nodes : List (Text × Node)) (start reached : List Text) (m : IsMap nodes)
    → Inv nodes m start [] reached
    → (id : Text) → IsReached nodes start id
    → contains id reached ≡ true
everything_reached nodes start reached m v id (starts _ c) = ground (arith, v.started id c)
everything_reached nodes start reached m v _ (depends id on before d) =
    ground (arith, v.closed id on (everything_reached nodes start reached m v id before) d)

-- In a state whose nodes have distinct IDs, the walk of `Unreached`, which leaves out of its warnings
-- just the nodes that it has reached, ends having reached a node ID exactly if ingress traffic does:
-- the node has an ingress, or a node that is reached depends on it.
pub reached_lem :
    (s : State) (id : Text)
    → IsMap (by_id s.nodes)
    → (contains id (reached_nodes s) ≡ true) ↔ IsReached (by_id s.nodes) (ingress_nodes s.nodes) id
unfolding reached_nodes
reached_lem s id m =
    let nodes = by_id s.nodes in
    let start = ingress_nodes s.nodes in
    let before : Inv nodes m start start [] = record {
      reachable = λ j c. starts j c;
      closed = λ j on c d. cc;
      started = λ j c. c;
    } in
    let v =
      walk_lem nodes m start (length start + count_dependencies nodes) start []
        (omega (arith, left-none nodes)) before in
    (λ c. v.reachable id (ground (arith, c)), everything_reached nodes start _ m v id)
