-- ===== src/Server/Examples.antt =====
-- Worked runs of the configuration for legacy clients.
use hyperdex_rs.Prelude.{ℕ, List, [], ◌∷◌, All, min, length, ◌<◌, ◌≡◌, refl, arith}
use hyperdex_rs.Prelude.{ok, err, Ensures}
use hyperdex_rs.DataModel.Space.{string, int, map}
use hyperdex_rs.Placement.Members.{Distinct}
use hyperdex_rs.Server.{
  ConfigError, legacy_hyperdatatype, legacy_partition_points, legacy_replica_sets,
}
use hyperdex_rs.Server.Datatypes.{is_ok, has_number, Understood, legacy_hyperdatatype-Understood}
use hyperdex_rs.Server.Points.{Tiles, legacy_partition_points-Tiles}
use hyperdex_rs.Server.Replicas.{IsReplicaSet, legacy_replica_sets-IsReplicaSet}

map_of_strings : legacy_hyperdatatype (map string int) ≡ ok 9418
unfolding legacy_hyperdatatype hyperdex_rs.Server.legacy_primitive_code
map_of_strings = refl

legacy_hyperdatatype-Understood_example :
    (is_ok (legacy_hyperdatatype (map string int)) ≡ has_number (map string int))
    × Ensures (Understood (map string int)) (legacy_hyperdatatype (map string int))
legacy_hyperdatatype-Understood_example = legacy_hyperdatatype-Understood (map string int)

two_intervals :
    legacy_partition_points 2
    ≡ ok (0 ∷ 0x8000_0000_0000_0000 ∷ [], 0x7fff_ffff_ffff_ffff ∷ 0xffff_ffff_ffff_ffff ∷ [])
unfolding legacy_partition_points hyperdex_rs.Server.lower_points hyperdex_rs.Server.upper_points
    hyperdex_rs.Prelude.Memory.mul_u64 hyperdex_rs.Prelude.Memory.with_capacity
    hyperdex_rs.Server.below_lower
two_intervals = refl

legacy_partition_points-Tiles_example :
    Ensures
      (λ points. (length points.0 ≡ 64) × Tiles 0 points.0 points.1)
      (legacy_partition_points 64)
legacy_partition_points-Tiles_example = legacy_partition_points-Tiles 64 (omega arith) (omega arith)

abbrev servers : List ℕ
servers = 1 ∷ 2 ∷ 3 ∷ []

servers-Distinct : Distinct servers
servers-Distinct = (refl, (refl, (refl, tt)))

pairs : legacy_replica_sets servers 2 2 ≡ ok ((1 ∷ 2 ∷ []) ∷ (1 ∷ 3 ∷ []) ∷ (2 ∷ 3 ∷ []) ∷ [])
unfolding legacy_replica_sets hyperdex_rs.Server.all_strided_sets hyperdex_rs.Server.strided_sets
    hyperdex_rs.Server.strided_set hyperdex_rs.Prelude.Slices.index
pairs = refl

legacy_replica_sets-IsReplicaSet_example :
    Ensures
      (λ sets. (0 < length sets) × All (IsReplicaSet servers (min 2 (length servers))) sets)
      (legacy_replica_sets servers 2 2)
legacy_replica_sets-IsReplicaSet_example =
    legacy_replica_sets-IsReplicaSet servers 2 2 servers-Distinct (omega arith) (omega arith)
