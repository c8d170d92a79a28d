-- ===== src/ControlPlane/Examples.antt =====
-- Worked runs of the catalog.
use hyperdex_rs.Prelude.{[], ◌∷◌, ◌≡◌, ◌≢◌, ◌⊎◌, refl, none, some, false}
use hyperdex_rs.Prelude.{ok, err}
use hyperdex_rs.ClusterConfig.{ClusterNode, default_config, local_host}
use hyperdex_rs.DataModel.Space.{Space, default_options}
use hyperdex_rs.ControlPlane.{
  InMemoryCatalog, new_catalog, create_catalog_space, drop_catalog_space, get_space,
  register_daemon, space_exists, layout,
}
use hyperdex_rs.ControlPlane.Invariant.{Reached, IsCatalog, Reached-IsCatalog, get_space-laws}

abbrev users : Space
users = record {
  name = 117 ∷ [];
  key_attribute = 107 ∷ [];
  attributes = [];
  subspaces = [];
  options = default_options;
}

abbrev started : InMemoryCatalog
started = new_catalog default_config.nodes 1

abbrev with_users : InMemoryCatalog
with_users = (create_catalog_space started users).1

with_users-Reached : Reached with_users
with_users-Reached = Reached.created started users (Reached.started default_config.nodes 1)

abbrev second : ClusterNode
second = record { id = 2; host = local_host; control_port = 1983; data_port = 2013 }

-- Registering a node for the second time changes nothing.
registered_twice : (register_daemon (register_daemon started second).1 second).0 ≡ false
unfolding register_daemon hyperdex_rs.ControlPlane.Nodes.get_node
    hyperdex_rs.ControlPlane.Nodes.insert_node new_catalog hyperdex_rs.ControlPlane.collect_nodes
    hyperdex_rs.ControlPlane.Nodes.same_node
registered_twice = refl

Reached-IsCatalog_example : IsCatalog with_users
Reached-IsCatalog_example = Reached-IsCatalog with_users with_users-Reached

get_space-laws_example :
    (((get_space with_users users.name ≡ none)
        × ((create_catalog_space with_users users).0 ≡ ok tt)
        × (get_space (create_catalog_space with_users users).1 users.name ≡ some users))
      ⊎ ((get_space with_users users.name ≢ none)
          × (create_catalog_space with_users users ≡ (err (space_exists users.name), with_users))))
    × (get_space (drop_catalog_space with_users users.name) users.name ≡ none)
    × (get_space (create_catalog_space with_users users).1 [] ≡ get_space with_users [])
    × (get_space (drop_catalog_space with_users users.name) [] ≡ get_space with_users [])
get_space-laws_example = get_space-laws with_users users [] with_users-Reached (λ e. cc)
