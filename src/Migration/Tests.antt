-- ===== src/Migration/Tests.antt =====
-- A state of three nodes: the API depends on the store, and nothing depends on the job.
use spectre.Prelude.{◌≡◌, ◌↔◌, refl, true, some, [], ◌∷◌, text, text_eq, contains}
use spectre.Prelude.Assoc.{lookup, IsMap}
use spectre.Model.{ingress, egress}
use spectre.Migration.{
  Node, State, pending, migrated, is_migrated, by_id, ingress_nodes, reached_nodes, walk,
  has_ingress, check_dependencies, check_nodes, check_node, depends_on_pending,
}
use spectre.Migration.Reached.{IsReached, starts, depends, reached_lem}
use spectre.Migration.Dependencies.{migrated_lem}
use spectre.Migration.Cycles.{found, each, visit, visit_all, check_cycles}
use spectre.Migration.Cycles.Enough.{Told, check_cycles-Told}

abbrev api : Node
api = record {
  id = text "api";
  depends_on = text "store" ∷ [];
  status = migrated;
  io = record { direction = ingress; protocol = text "http" } ∷ [];
  line = 1;
}

abbrev store : Node
store = record {
  id = text "store";
  depends_on = [];
  status = migrated;
  io = record { direction = egress; protocol = text "http" } ∷ [];
  line = 5;
}

abbrev job : Node
job = record {
  id = text "job";
  depends_on = text "store" ∷ [];
  status = pending;
  io = [];
  line = 9;
}

abbrev service : State
service = record { nodes = api ∷ job ∷ store ∷ [] }

service-IsMap : IsMap (by_id service.nodes)
unfolding lookup
service-IsMap = (refl, (refl, (refl, tt)))

reached : reached_nodes service ≡ text "store" ∷ text "api" ∷ []
unfolding reached_nodes walk has_ingress lookup
reached = refl

reached_lem_example :
    (contains (text "store") (reached_nodes service) ≡ true)
    ↔ IsReached (by_id service.nodes) (ingress_nodes service.nodes) (text "store")
reached_lem_example = reached_lem service (text "store") service-IsMap

no_complaint : check_dependencies service ≡ []
unfolding check_dependencies check_nodes check_node lookup
no_complaint = refl

-- A store that is not migrated yet.
abbrev early : State
early = record { nodes = api ∷ record store { status = pending } ∷ [] }

pending_store : check_dependencies early ≡ depends_on_pending (text "api") (text "store") ∷ []
unfolding check_dependencies check_nodes check_node lookup
pending_store = refl

api_found : lookup (text "api") (by_id service.nodes) ≡ some api
unfolding lookup
api_found = refl

store-IsReached : IsReached (by_id service.nodes) (text "api" ∷ []) (text "store")
unfolding lookup
store-IsReached = depends (text "api") (text "store") (starts (text "api") refl) refl

migrated_lem_example :
    (d : Node) × (lookup (text "store") (by_id service.nodes) ≡ some d)
    × (is_migrated d.status ≡ true)
migrated_lem_example =
    migrated_lem service (text "api") api no_complaint api_found refl (text "store") store-IsReached

check_cycles-Told_example : Told service (check_cycles service)
check_cycles-Told_example = check_cycles-Told service

-- The store depends on the API too.
abbrev circular : State
circular = record { nodes = api ∷ record store { depends_on = text "api" ∷ [] } ∷ [] }

circular_run : check_cycles circular ≡ found (text "api" ∷ text "store" ∷ text "api" ∷ [])
unfolding check_cycles visit_all visit each lookup
circular_run = refl
