-- ===== src/DataModel/Space.antt =====
-- crates/data-model/src/lib.rs: spaces, their attributes, subspaces and options. Names are lists of
-- bytes.
use hyperdex_rs.Prelude.{ℕ, List}

pub data TimeUnit : Type 0 where
  second minute hour day week month : TimeUnit

pub data ValueKind : Type 0 where
  bool int float bytes string document : ValueKind
  timestamp : TimeUnit → ValueKind
  list set : ValueKind → ValueKind
  map : (key value : ValueKind) → ValueKind

pub record AttributeDefinition : Type 0 where
  pub name : List ℕ
  pub kind : ValueKind

pub record Subspace : Type 0 where
  pub dimensions : List (List ℕ)

pub data SchemaFormat : Type 0 where
  hyper_dex_dsl protobuf json : SchemaFormat

pub record SpaceOptions : Type 0 where
  pub fault_tolerance : ℕ
  pub partitions : ℕ
  pub schema_format : SchemaFormat

pub record Space : Type 0 where
  pub name : List ℕ
  pub key_attribute : List ℕ
  pub attributes : List AttributeDefinition
  pub subspaces : List Subspace
  pub options : SpaceOptions

abbrev pub default_options : SpaceOptions
default_options = record {
  fault_tolerance = 0;
  partitions = 64;
  schema_format = SchemaFormat.hyper_dex_dsl;
}
