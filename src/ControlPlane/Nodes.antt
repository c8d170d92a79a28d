-- ===== src/ControlPlane/Nodes.antt =====
-- The catalog's nodes: a map from their ids, in ascending order.
use Prim.Native.Nat.{compare, Ordering}
use hyperdex_rs.Prelude.{
  ℕ, ◌<◌, ◌≡◌, ◌≢◌, refl, List, [], ◌∷◌, All, Option, none, some, Bool, true, false, ◌&&◌, ◌==◌,
  arith,
}
use hyperdex_rs.ClusterConfig.{ClusterNode}
use hyperdex_rs.AdminProtocol.PackedSpace.{same_string}

unfoldable pub get_node : List (ℕ × ClusterNode) → ℕ → Option ClusterNode
get_node [] id = none
get_node ((i, node) ∷ m) id = elim (compare id i) [ Ordering.eq ↦ some node | _ ↦ get_node m id ]

unfoldable pub insert_node : List (ℕ × ClusterNode) → ℕ → ClusterNode → List (ℕ × ClusterNode)
insert_node [] id node = (id, node) ∷ []
insert_node ((i, other) ∷ m) id node = elim (compare id i) [
  | Ordering.lt ↦ (id, node) ∷ (i, other) ∷ m
  | Ordering.eq ↦ (i, node) ∷ m
  | Ordering.gt ↦ (i, other) ∷ insert_node m id node
]

-- The derived equalities
unfoldable pub same_node : ClusterNode → ClusterNode → Bool
same_node a b =
    (a.id == b.id)
    && same_string a.host b.host
    && (a.control_port == b.control_port)
    && (a.data_port == b.data_port)

unfoldable pub same_nodes : List (ℕ × ClusterNode) → List (ℕ × ClusterNode) → Bool
same_nodes [] [] = true
same_nodes [] (q ∷ qs) = false
same_nodes (p ∷ ps) [] = false
same_nodes (p ∷ ps) (q ∷ qs) = (p.0 == q.0) && same_node p.1 q.1 && same_nodes ps qs

abbrev pub AllAbove : ℕ → List (ℕ × ClusterNode) → Type 0
AllAbove i m = All (λ (p : ℕ × ClusterNode). i < p.0) m

-- Ascending ids, and each node at its own id
abbrev pub IsNodeMap : List (ℕ × ClusterNode) → Type 0
IsNodeMap [] = Unit {0}
IsNodeMap (p ∷ m) = AllAbove p.0 m × (p.0 ≡ p.1.id) × IsNodeMap m

AllAbove-weaken : (a b : ℕ) (m : List (ℕ × ClusterNode)) → a < b → AllAbove b m → AllAbove a m
AllAbove-weaken a b [] h k = tt
AllAbove-weaken a b (p ∷ m) h k = (omega (arith, k.0), AllAbove-weaken a b m h k.1)

AllAbove-insert_node :
    (a id : ℕ) (node : ClusterNode) (m : List (ℕ × ClusterNode))
    → a < id
    → AllAbove a m
    → AllAbove a (insert_node m id node)
unfolding insert_node
AllAbove-insert_node a id node [] h k = (h, tt)
AllAbove-insert_node a id node ((i, other) ∷ m) h k =
    grind (arith, AllAbove-insert_node a id node m h k.1, k.0, k.1)

pub insert_node-IsNodeMap :
    (m : List (ℕ × ClusterNode)) (node : ClusterNode)
    → IsNodeMap m
    → IsNodeMap (insert_node m node.id node)
unfolding insert_node
insert_node-IsNodeMap [] node h = (tt, refl, tt)
insert_node-IsNodeMap ((i, other) ∷ m) node h = grind (
  arith,
  h.0,
  h.1,
  h.2,
  insert_node-IsNodeMap m node h.2,
  AllAbove-insert_node i node.id node m,
  AllAbove-weaken node.id i m,
)

pub get_node-insert_node :
    (m : List (ℕ × ClusterNode)) (id : ℕ) (node : ClusterNode)
    → get_node (insert_node m id node) id ≡ some node
unfolding get_node insert_node
get_node-insert_node [] id node = grind arith
get_node-insert_node ((i, other) ∷ m) id node = grind (arith, get_node-insert_node m id node)

pub get_node-insert_node_other :
    (m : List (ℕ × ClusterNode)) (id other : ℕ) (node : ClusterNode)
    → other ≢ id
    → get_node (insert_node m id node) other ≡ get_node m other
unfolding get_node insert_node
get_node-insert_node_other [] id other node h = grind arith
get_node-insert_node_other ((i, n) ∷ m) id other node h =
    grind (arith, get_node-insert_node_other m id other node h)
