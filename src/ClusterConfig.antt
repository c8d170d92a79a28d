-- ===== src/ClusterConfig.antt =====
-- crates/cluster-config/src/lib.rs: the nodes of a cluster and the choice of its parts.
use hyperdex_rs.Prelude.{ℕ, List, [], ◌∷◌}

pub record ClusterNode : Type 0 where
  pub id : ℕ
  pub host : List ℕ
  pub control_port : ℕ
  pub data_port : ℕ

pub data ConsensusBackend : Type 0 where
  single_node mirror omni_paxos open_raft : ConsensusBackend

pub data PlacementBackend : Type 0 where
  hyperspace rendezvous : PlacementBackend

pub data StorageBackend : Type 0 where
  memory rocks_db : StorageBackend

pub data TransportBackend : Type 0 where
  in_process grpc : TransportBackend

pub data PublicProtocol : Type 0 where
  legacy_hyperdex grpc : PublicProtocol

pub record ClusterConfig : Type 0 where
  pub nodes : List ClusterNode
  pub replicas : ℕ
  pub consensus : ConsensusBackend
  pub placement : PlacementBackend
  pub storage : StorageBackend
  pub internode_transport : TransportBackend
  pub public_protocols : List PublicProtocol

-- b"127.0.0.1"
abbrev pub local_host : List ℕ
local_host = 49 ∷ 50 ∷ 55 ∷ 46 ∷ 48 ∷ 46 ∷ 48 ∷ 46 ∷ 49 ∷ []

abbrev pub default_config : ClusterConfig
default_config = record {
  nodes = record { id = 1; host = local_host; control_port = 1982; data_port = 2012 } ∷ [];
  replicas = 1;
  consensus = ConsensusBackend.single_node;
  placement = PlacementBackend.hyperspace;
  storage = StorageBackend.memory;
  internode_transport = TransportBackend.in_process;
  public_protocols = PublicProtocol.legacy_hyperdex ∷ PublicProtocol.grpc ∷ [];
}
