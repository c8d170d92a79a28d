-- ===== src/ControlPlane/Invariant.antt =====
-- The catalogs that its operations lead to, and what holds of all of them.
use hyperdex_rs.Prelude.{
  ℕ, ◌<◌, ◌≡◌, ◌≢◌, refl, List, [], ◌∷◌, All, none, some, map, arith, Option-cases, inl, inr, ◌⊎◌,
}
use hyperdex_rs.Prelude.{ok, err}
use hyperdex_rs.ClusterConfig.{ClusterNode}
use hyperdex_rs.DataModel.Space.{Space}
use hyperdex_rs.DataModel.Maps.{get, insert, remove, get-insert, get-insert_other}
use hyperdex_rs.DataModel.Sorted.{
  IsSorted, insert-IsSorted, remove-IsSorted, get-remove, get-remove_other,
}
use hyperdex_rs.ControlPlane.{
  InMemoryCatalog, new_catalog, create_catalog_space, drop_catalog_space, get_space,
  register_daemon, replace_daemons, collect_nodes, layout, space_exists,
}
use hyperdex_rs.ControlPlane.Nodes.{insert_node, IsNodeMap, AllAbove, insert_node-IsNodeMap}

-- A catalog that starts with some nodes and goes through any sequence of operations
pub data Reached : InMemoryCatalog → Type 0 where
  started : (nodes : List ClusterNode) (replicas : ℕ) → Reached (new_catalog nodes replicas)
  created :
      (c : InMemoryCatalog) (space : Space) → Reached c → Reached (create_catalog_space c space).1
  dropped : (c : InMemoryCatalog) (name : List ℕ) → Reached c → Reached (drop_catalog_space c name)
  registered :
      (c : InMemoryCatalog) (node : ClusterNode) → Reached c → Reached (register_daemon c node).1
  replaced :
      (c : InMemoryCatalog) (nodes : List ClusterNode)
      → Reached c
      → Reached (replace_daemons c nodes).1

-- Each space stands under its own name.
abbrev pub IsNamed : List (List ℕ × Space) → Type 0
IsNamed m = All (λ (p : List ℕ × Space). p.0 ≡ p.1.name) m

abbrev pub IsAscending : List ℕ → Type 0
IsAscending [] = Unit {0}
IsAscending (n ∷ ns) = All (λ m. n < m) ns × IsAscending ns

-- The spaces are in the order of their names, each under its own, and the layout has ascending node
-- ids, so no node twice.
pub record IsCatalog (c : InMemoryCatalog) : Type 0 where
  pub sorted : IsSorted c.spaces
  pub named : IsNamed c.spaces
  pub node_map : IsNodeMap c.nodes
  pub ascending : IsAscending (layout c).nodes

insert-IsNamed :
    (m : List (List ℕ × Space)) (space : Space)
    → get m space.name ≡ none
    → IsNamed m
    → IsNamed (insert m space.name space)
unfolding insert get
insert-IsNamed [] space e h = (refl, tt)
insert-IsNamed ((l, w) ∷ m) space e h = grind (arith, insert-IsNamed m space, h.0, h.1)

remove-IsNamed : (m : List (List ℕ × Space)) (name : List ℕ) → IsNamed m → IsNamed (remove m name)
unfolding remove
remove-IsNamed [] name h = tt
remove-IsNamed ((l, w) ∷ m) name h = grind (arith, remove-IsNamed m name h.1, h.0, h.1)

collect_nodes-IsNodeMap :
    (m : List (ℕ × ClusterNode)) (nodes : List ClusterNode)
    → IsNodeMap m
    → IsNodeMap (collect_nodes m nodes)
unfolding collect_nodes
collect_nodes-IsNodeMap m [] h = h
collect_nodes-IsNodeMap m (node ∷ nodes) h =
    collect_nodes-IsNodeMap (insert_node m node.id node) nodes (insert_node-IsNodeMap m node h)

ids : List (ℕ × ClusterNode) → List ℕ
ids m = map (λ (p : ℕ × ClusterNode). p.1.id) m

ids-above :
    (i : ℕ) (m : List (ℕ × ClusterNode)) → IsNodeMap m → AllAbove i m → All (λ n. i < n) (ids m)
unfolding ids
ids-above i [] h k = tt
ids-above i (p ∷ m) h k = (omega (arith, k.0, h.1), ids-above i m h.2 k.1)

above_id :
    (p : ℕ × ClusterNode) (m : List (ℕ × ClusterNode))
    → p.0 ≡ p.1.id
    → AllAbove p.0 m
    → AllAbove p.1.id m
above_id p [] e h = tt
above_id p (q ∷ m) e h = (omega (arith, h.0, e), above_id p m e h.1)

ids-IsAscending : (m : List (ℕ × ClusterNode)) → IsNodeMap m → IsAscending (ids m)
unfolding ids
ids-IsAscending [] h = tt
ids-IsAscending (p ∷ m) h = (ids-above p.1.id m h.2 (above_id p m h.1 h.0), ids-IsAscending m h.2)

catalog :
    (c : InMemoryCatalog) → IsSorted c.spaces → IsNamed c.spaces → IsNodeMap c.nodes → IsCatalog c
unfolding layout ids
catalog c s n m = record {
  sorted = s;
  named = n;
  node_map = m;
  ascending = ids-IsAscending c.nodes m;
}

create-IsCatalog :
    (c : InMemoryCatalog) (space : Space) → IsCatalog c → IsCatalog (create_catalog_space c space).1
unfolding create_catalog_space
create-IsCatalog c space h = elim (Option-cases (get c.spaces space.name)) [
  | inl e ↦
      rw (create_catalog_space, e)
        (catalog _ (insert-IsSorted c.spaces space.name space h.sorted)
          (insert-IsNamed c.spaces space e h.named) h.node_map)
  | inr (existing, e) ↦ rw (create_catalog_space, e) h
]

-- Whatever sequence of operations a catalog goes through, its spaces are in the order of their names
-- and each stands under its own, each node stands under its own id, and the ids of its layout ascend
-- strictly, so that the placement finds no node twice.
pub Reached-IsCatalog : (c : InMemoryCatalog) → Reached c → IsCatalog c
unfolding new_catalog drop_catalog_space register_daemon replace_daemons
Reached-IsCatalog _ (Reached.started nodes replicas) =
    catalog _ tt tt (collect_nodes-IsNodeMap [] nodes tt)
Reached-IsCatalog _ (Reached.created c space r) = create-IsCatalog c space (Reached-IsCatalog c r)
Reached-IsCatalog _ (Reached.dropped c name r) =
    let h = Reached-IsCatalog c r in
    catalog _ (remove-IsSorted c.spaces name h.sorted) (remove-IsNamed c.spaces name h.named)
      h.node_map
Reached-IsCatalog _ (Reached.registered c node r) =
    let h = Reached-IsCatalog c r in
    catalog _ h.sorted h.named (insert_node-IsNodeMap c.nodes node h.node_map)
Reached-IsCatalog _ (Reached.replaced c nodes r) =
    let h = Reached-IsCatalog c r in
    catalog _ h.sorted h.named (collect_nodes-IsNodeMap [] nodes tt)

-- In a catalog that operations have led to, a space that is created is found under its name, unless
-- there was one of that name: then creating is refused, and the catalog stays as it was. A dropped
-- space is not found any more. Neither changes what is found under another name.
pub get_space-laws :
    (c : InMemoryCatalog) (space : Space) (other : List ℕ)
    → Reached c
    → other ≢ space.name
    → let created = create_catalog_space c space in
      let dropped = drop_catalog_space c space.name in
      (((get_space c space.name ≡ none)
          × (created.0 ≡ ok tt)
          × (get_space created.1 space.name ≡ some space))
        ⊎ ((get_space c space.name ≢ none) × (created ≡ (err (space_exists space.name), c))))
      × (get_space dropped space.name ≡ none)
      × (get_space created.1 other ≡ get_space c other)
      × (get_space dropped other ≡ get_space c other)
unfolding create_catalog_space drop_catalog_space get_space
get_space-laws c space other reached different = elim (Option-cases (get c.spaces space.name)) [
  | inl e ↦
      rw (create_catalog_space, e)
        (
          inl (refl, refl, get-insert c.spaces space.name space),
          get-remove c.spaces space.name (Reached-IsCatalog c reached).sorted,
          get-insert_other c.spaces space.name other space different,
          get-remove_other c.spaces space.name other different,
        )
  | inr (existing, e) ↦
      rw (create_catalog_space, e)
        (
          inr (λ absent. cc, refl),
          get-remove c.spaces space.name (Reached-IsCatalog c reached).sorted,
          refl,
          get-remove_other c.spaces space.name other different,
        )
]
