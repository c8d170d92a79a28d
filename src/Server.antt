-- ===== src/Server.antt =====
-- The parts of crates/server/src/lib.rs that encode the configuration for legacy clients: the numbers
-- of the datatypes, the replica sets and the bounds of the partitions.
pub mod Datatypes
mod Picked
pub mod Points
pub mod Replicas
mod Examples
use hyperdex_rs.Prelude.{
  ℕ, zero, suc, ◌+◌, ◌-◌, ◌*◌, ◌/◌, ◌%◌, ◌^◌, max, List, [], ◌∷◌, ◌++◌, ◌||◌, length, drop, leb,
  ltb, ◌==◌, if◌then◌else◌, bit_and, bit_or,
}
use hyperdex_rs.Prelude.{Result, ok, err, panic, ◌>>=◌, ◌>>◌}
use hyperdex_rs.Prelude.Memory.{with_capacity, mul_u64}
use hyperdex_rs.Prelude.Slices.{index}
use hyperdex_rs.DataModel.Space.{
  ValueKind, bool, int, float, bytes, string, document, timestamp, list, set, map, TimeUnit,
}

-- What the errors' messages say.
pub data ConfigError : Type 0 where
  bool_attribute container_element : ConfigError

abbrev pub legacy_hyperdatatype_bytes : ℕ
legacy_hyperdatatype_bytes = 9216

abbrev pub legacy_hyperdatatype_string : ℕ
legacy_hyperdatatype_string = 9217

abbrev pub legacy_hyperdatatype_int64 : ℕ
legacy_hyperdatatype_int64 = 9218

abbrev pub legacy_hyperdatatype_float : ℕ
legacy_hyperdatatype_float = 9219

abbrev pub legacy_hyperdatatype_document : ℕ
legacy_hyperdatatype_document = 9223

abbrev pub legacy_hyperdatatype_list_generic : ℕ
legacy_hyperdatatype_list_generic = 9280

abbrev pub legacy_hyperdatatype_set_generic : ℕ
legacy_hyperdatatype_set_generic = 9344

abbrev pub legacy_hyperdatatype_map_generic : ℕ
legacy_hyperdatatype_map_generic = 9408

abbrev pub legacy_hyperdatatype_timestamp_generic : ℕ
legacy_hyperdatatype_timestamp_generic = 9472

unfoldable pub legacy_primitive_code : ValueKind → Result ℕ ConfigError
legacy_primitive_code bytes = ok (bit_and legacy_hyperdatatype_bytes 0x2407)
legacy_primitive_code string = ok (bit_and legacy_hyperdatatype_string 0x2407)
legacy_primitive_code int = ok (bit_and legacy_hyperdatatype_int64 0x2407)
legacy_primitive_code float = ok (bit_and legacy_hyperdatatype_float 0x2407)
legacy_primitive_code document = ok (bit_and legacy_hyperdatatype_document 0x2407)
legacy_primitive_code bool = err ConfigError.container_element
legacy_primitive_code (timestamp unit) = err ConfigError.container_element
legacy_primitive_code (list elem) = err ConfigError.container_element
legacy_primitive_code (set elem) = err ConfigError.container_element
legacy_primitive_code (map key value) = err ConfigError.container_element

abbrev pub time_unit_offset : TimeUnit → ℕ
time_unit_offset TimeUnit.second = 0
time_unit_offset TimeUnit.minute = 2
time_unit_offset TimeUnit.hour = 3
time_unit_offset TimeUnit.day = 4
time_unit_offset TimeUnit.week = 5
time_unit_offset TimeUnit.month = 6

-- `x << 3` on 16 bits, where `x` has six bits, is `x * 8`.
unfoldable pub legacy_hyperdatatype : ValueKind → Result ℕ ConfigError
legacy_hyperdatatype bool = err ConfigError.bool_attribute
legacy_hyperdatatype int = ok legacy_hyperdatatype_int64
legacy_hyperdatatype float = ok legacy_hyperdatatype_float
legacy_hyperdatatype bytes = ok legacy_hyperdatatype_bytes
legacy_hyperdatatype string = ok legacy_hyperdatatype_string
legacy_hyperdatatype document = ok legacy_hyperdatatype_document
legacy_hyperdatatype (timestamp unit) =
    ok (legacy_hyperdatatype_timestamp_generic + time_unit_offset unit)
legacy_hyperdatatype (list elem) = do
  code ← legacy_primitive_code elem
  ok (bit_or legacy_hyperdatatype_list_generic code)
legacy_hyperdatatype (set elem) = do
  code ← legacy_primitive_code elem
  ok (bit_or legacy_hyperdatatype_set_generic code)
legacy_hyperdatatype (map key value) = do
  key_code ← legacy_primitive_code key
  value_code ← legacy_primitive_code value
  ok (bit_or (bit_or legacy_hyperdatatype_map_generic (bit_and key_code 0x3f * 8)) value_code)

-- `*lower - 1`, which panics at 0
unfoldable pub below_lower : ℕ → Result ℕ ConfigError
below_lower zero = panic
below_lower (suc x) = ok x

-- `for index in 0..intervals`, from an index on
unfoldable pub lower_points : ℕ → ℕ → ℕ → Result (List ℕ) ConfigError
lower_points interval from zero = ok []
lower_points interval from (suc n) = do
  lower ← mul_u64 from interval
  rest ← lower_points interval (suc from) n
  ok (lower ∷ rest)

-- `for lower in lowers.iter().skip(1)`, then `uppers.push(u64::MAX)`
unfoldable pub upper_points : List ℕ → Result (List ℕ) ConfigError
upper_points [] = ok ((2 ^ 64 - 1) ∷ [])
upper_points (lower ∷ lowers) = do
  upper ← below_lower lower
  rest ← upper_points lowers
  ok (upper ∷ rest)

-- A division by 0 panics. The two lists are reserved for numbers of eight bytes.
unfoldable pub legacy_partition_points : ℕ → Result (List ℕ × List ℕ) ConfigError
legacy_partition_points zero = panic
legacy_partition_points (suc n) = do
  with_capacity 8 (suc n)
  with_capacity 8 (suc n)
  lowers ← lower_points (0x8000_0000_0000_0000 / suc n * 2) 0 (suc n)
  uppers ← upper_points (drop 1 lowers)
  ok (lowers, uppers)

-- `for replica in 0..replicas`, from a replica on. `start + stride * replica` is an index of the
-- list, or one that the test before it has excluded.
unfoldable pub strided_set : List ℕ → ℕ → ℕ → ℕ → ℕ → Result (List ℕ) ConfigError
strided_set server_ids start stride replica zero = ok []
strided_set server_ids start stride replica (suc n) = do
  id ← index server_ids (start + stride * replica)
  rest ← strided_set server_ids start stride (suc replica) n
  ok (id ∷ rest)

-- `for stride in 1..=partitions`, from a stride on. The list and the sums are far below the width
-- of `usize`: the first sum that is not below the list's length ends the loop.
unfoldable pub strided_sets : List ℕ → ℕ → ℕ → ℕ → ℕ → Result (List (List ℕ)) ConfigError
strided_sets server_ids replicas start stride zero = ok []
strided_sets server_ids replicas start stride (suc n) =
    if leb (length server_ids) (start + stride * (replicas - 1)) then ok [] else (do
      first ← strided_set server_ids start stride 0 replicas
      rest ← strided_sets server_ids replicas start (suc stride) n
      ok (first ∷ rest))

-- `for start in 0..server_ids.len()`, from a start on
unfoldable pub all_strided_sets : List ℕ → ℕ → ℕ → ℕ → ℕ → Result (List (List ℕ)) ConfigError
all_strided_sets server_ids replicas partitions start zero = ok []
all_strided_sets server_ids replicas partitions start (suc n) = do
  first ← strided_sets server_ids replicas start 1 partitions
  rest ← all_strided_sets server_ids replicas partitions (suc start) n
  ok (first ++ rest)

-- `for offset in 0..server_ids.len()`, from an offset on
unfoldable pub rotated_set : List ℕ → ℕ → ℕ → ℕ → Result (List ℕ) ConfigError
rotated_set server_ids start offset zero = ok []
rotated_set server_ids start offset (suc n) = do
  id ← index server_ids ((start + offset) % length server_ids)
  rest ← rotated_set server_ids start (suc offset) n
  ok (id ∷ rest)

-- `for start in 0..server_ids.len()`, from a start on
unfoldable pub rotated_sets : List ℕ → ℕ → ℕ → Result (List (List ℕ)) ConfigError
rotated_sets server_ids start zero = ok []
rotated_sets server_ids start (suc n) = do
  first ← rotated_set server_ids start 0 (length server_ids)
  rest ← rotated_sets server_ids (suc start) n
  ok (first ∷ rest)

unfoldable pub legacy_replica_sets : List ℕ → ℕ → ℕ → Result (List (List ℕ)) ConfigError
legacy_replica_sets server_ids replicas partitions =
    if (length server_ids == 0) || (replicas == 0)
    then ok []
    else if leb (length server_ids) replicas
    then rotated_sets server_ids 0 (length server_ids)
    else all_strided_sets server_ids replicas (max partitions 1) 0 (length server_ids)
