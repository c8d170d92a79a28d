-- ===== src/ControlPlane.antt =====
-- crates/control-plane/src/lib.rs: the catalog that a coordinator keeps in memory. An operation that
-- changes it gives its result and the catalog it leaves; a lock is held for a whole operation.
pub mod Nodes
pub mod Invariant
mod Examples
use hyperdex_rs.Prelude.{ℕ, List, [], ◌∷◌, Option, none, some, Bool, true, not, map}
use hyperdex_rs.Prelude.{Result, ok, err}
use hyperdex_rs.ClusterConfig.{ClusterNode}
use hyperdex_rs.DataModel.Space.{Space}
use hyperdex_rs.DataModel.Maps.{get, insert, remove}
use hyperdex_rs.Placement.{ClusterLayout}
use Nodes.{get_node, insert_node, same_node, same_nodes}

pub data CatalogError : Type 0 where
  space_exists : List ℕ → CatalogError

pub record InMemoryCatalog : Type 0 where
  pub spaces : List (List ℕ × Space)
  pub nodes : List (ℕ × ClusterNode)
  pub replicas : ℕ

-- `collect` into a `BTreeMap`: of two nodes with one id the later one stays.
unfoldable pub collect_nodes : List (ℕ × ClusterNode) → List ClusterNode → List (ℕ × ClusterNode)
collect_nodes m [] = m
collect_nodes m (node ∷ nodes) = collect_nodes (insert_node m node.id node) nodes

unfoldable pub new_catalog : List ClusterNode → ℕ → InMemoryCatalog
new_catalog nodes replicas = record {
  spaces = [];
  nodes = collect_nodes [] nodes;
  replicas = replicas;
}

unfoldable pub create_catalog_space :
    InMemoryCatalog → Space → Result (Unit {0}) CatalogError × InMemoryCatalog
create_catalog_space c space = elim (get c.spaces space.name) [
  | some existing ↦ (err (space_exists space.name), c)
  | none ↦ (ok tt, record c { spaces = insert c.spaces space.name space })
]

unfoldable pub drop_catalog_space : InMemoryCatalog → List ℕ → InMemoryCatalog
drop_catalog_space c name = record c { spaces = remove c.spaces name }

unfoldable pub list_spaces : InMemoryCatalog → List (List ℕ)
list_spaces c = map (λ (p : List ℕ × Space). p.0) c.spaces

unfoldable pub get_space : InMemoryCatalog → List ℕ → Option Space
get_space c name = get c.spaces name

-- Whether the node is new or differs from the one with its id
unfoldable pub register_daemon : InMemoryCatalog → ClusterNode → Bool × InMemoryCatalog
register_daemon c node = (
  elim (get_node c.nodes node.id) [ some existing ↦ not (same_node existing node) | none ↦ true ],
  record c { nodes = insert_node c.nodes node.id node },
)

unfoldable pub replace_daemons : InMemoryCatalog → List ClusterNode → Bool × InMemoryCatalog
replace_daemons c nodes =
    let next = collect_nodes [] nodes in (not (same_nodes c.nodes next), record c { nodes = next })

unfoldable pub layout : InMemoryCatalog → ClusterLayout
layout c = record { replicas = c.replicas; nodes = map (λ (p : ℕ × ClusterNode). p.1.id) c.nodes }
