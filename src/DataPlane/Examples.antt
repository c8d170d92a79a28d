-- ===== src/DataPlane/Examples.antt =====
-- Worked runs of the data plane in front of the memory engine.
use Prim.Native.Nat.{compare}
use hyperdex_rs.Prelude.{List, [], ◌∷◌, ◌≡◌, ◌≢◌, refl, none, some, map}
use hyperdex_rs.Prelude.{err}
use hyperdex_rs.ClusterConfig.{default_config}
use hyperdex_rs.DataModel.{NumericOp, numeric}
use hyperdex_rs.DataModel.Space.{Space, default_options}
use hyperdex_rs.MemoryEngine.{Spaces}
use hyperdex_rs.ControlPlane.{InMemoryCatalog, new_catalog, create_catalog_space, get_space, layout}
use hyperdex_rs.DataPlane.{StorageEngine, map_err, storage_error, no_space}
use hyperdex_rs.DataPlane.Run.{Command, run_on_engine, run_on_plane, run_all, plane_of}
use hyperdex_rs.DataPlane.Refinement.{memory_engine, run_all-engine, run_on_plane_refuses}

abbrev users : Space
users = record {
  name = 117 ∷ [];
  key_attribute = 107 ∷ [];
  attributes = [];
  subspaces = [];
  options = default_options;
}

abbrev c : InMemoryCatalog
c = (create_catalog_space (new_catalog default_config.nodes 1) users).1

abbrev engine : StorageEngine Spaces
engine = memory_engine compare

abbrev stored : Spaces
stored = (users.name, []) ∷ []

-- A record is written, read and deleted.
abbrev commands : List Command
commands =
    Command.put users.name (1 ∷ []) (numeric (97 ∷ []) NumericOp.add 5 ∷ [])
    ∷ Command.get users.name (1 ∷ [])
    ∷ Command.delete users.name (1 ∷ [])
    ∷ []

users_found : get_space c users.name ≡ some users
unfolding get_space hyperdex_rs.DataModel.Maps.get create_catalog_space new_catalog
    hyperdex_rs.DataModel.Maps.insert hyperdex_rs.DataModel.compare_bytes
users_found = refl

one_node : (layout c).nodes ≡ 1 ∷ []
unfolding layout create_catalog_space hyperdex_rs.DataModel.Maps.get new_catalog
    hyperdex_rs.ControlPlane.collect_nodes hyperdex_rs.ControlPlane.Nodes.insert_node
one_node = refl

has_users : get_space c users.name ≢ none
has_users = λ e. cc users_found

has_nodes : (layout c).nodes ≢ []
has_nodes = λ e. cc one_node

run_all-engine_example : run_all (run_on_plane (plane_of c engine)) stored commands ≡ (
  map (map_err storage_error) (run_all (run_on_engine engine) stored commands).0,
  (run_all (run_on_engine engine) stored commands).1,
)
run_all-engine_example =
    run_all-engine c engine stored commands has_nodes (has_users, (has_users, (has_users, tt)))

no_others : get_space c [] ≡ none
unfolding get_space hyperdex_rs.DataModel.Maps.get create_catalog_space new_catalog
    hyperdex_rs.DataModel.Maps.insert hyperdex_rs.DataModel.compare_bytes
no_others = refl

run_on_plane_refuses_example :
    run_on_plane (plane_of c engine) stored (Command.delete_matching [] [])
    ≡ (err (no_space []), stored)
run_on_plane_refuses_example =
    run_on_plane_refuses c engine stored (Command.delete_matching [] []) no_others
