-- ===== src/AdminProtocol/PackedSpace.antt =====
-- The packed spaces of crates/hyperdex-admin-protocol/src/lib.rs: `PackedSpaceDecoder` and
-- `decode_packed_hyperdex_space`. The decoder's state is the cursor.
pub mod Safety
pub mod Declared
pub mod WellFormed
use hyperdex_rs.Prelude.{
  ℕ, zero, suc, ◌+◌, ◌*◌, List, [], ◌∷◌, ◌++◌, Option, none, some, Bool, true, false, ◌||◌, ◌&&◌,
  length, get_elem?, drop, leb, ltb, ◌==◌, not, if◌then◌else◌,
}
use Prim.Native.Nat.{Ordering}
use hyperdex_rs.Prelude.{Result, ok, err, panic, ok_or, ◌>>=◌, ◌>>◌, fail_if}
use hyperdex_rs.Prelude.Words.{from_be_bytes, checked_add}
use hyperdex_rs.Prelude.Slices.{index, slice}
use hyperdex_rs.Prelude.Utf8.{from_utf8}
use hyperdex_rs.Prelude.Decoders.{DecoderOf, decode_many}
use hyperdex_rs.DataModel.{compare_bytes}
use hyperdex_rs.DataModel.Space.{
  Space, Subspace, AttributeDefinition, SpaceOptions, SchemaFormat, default_options,
}
use hyperdex_rs.AdminProtocol.Codes.{
  AdminError, length_overflow, truncated, invalid_utf8, secret_attribute_name, no_key_attribute,
  secret_key_attribute, partitions_disagree, attribute_out_of_range, unknown_index_type,
  fault_tolerance_range,
}
use hyperdex_rs.AdminProtocol.Read.{decode_varint_u64_at, expect_consumed}
use hyperdex_rs.AdminProtocol.Datatype.{hyperdatatype_macaroon_secret, decode_hyperdatatype}

pub record PackedSpaceAttribute : Type 0 where
  pub name : List ℕ
  pub datatype : ℕ

pub record PackedSpaceSubspace : Type 0 where
  pub attrs : List ℕ
  pub regions_len : ℕ

-- b"__secret"
abbrev pub hyperdex_attribute_secret : List ℕ
hyperdex_attribute_secret = 95 ∷ 95 ∷ 115 ∷ 101 ∷ 99 ∷ 114 ∷ 101 ∷ 116 ∷ []

-- Equality of strings
abbrev pub same_string : List ℕ → List ℕ → Bool
same_string [] [] = true
same_string [] (y ∷ ys) = false
same_string (x ∷ xs) [] = false
same_string (x ∷ xs) (y ∷ ys) = (x == y) && same_string xs ys

abbrev pub is_secret : PackedSpaceAttribute → Bool
is_secret attr = attr.datatype == hyperdatatype_macaroon_secret

unfoldable pub read_exact : ℕ → DecoderOf AdminError (List ℕ)
read_exact len bytes cursor = do
  end ← ok_or (checked_add cursor len) length_overflow
  fail_if (ltb (length bytes) end) truncated
  xs ← slice bytes cursor end
  ok (xs, end)

unfoldable pub read_slice_array : ℕ → List ℕ → Result (List ℕ) AdminError
read_slice_array n bytes = if length bytes == n then ok bytes else err truncated

unfoldable pub read_u8 : DecoderOf AdminError ℕ
read_u8 bytes cursor = do (xs, end) ← read_exact 1 bytes cursor; byte ← index xs 0; ok (byte, end)

-- `read_u16`, `read_u32` and `read_u64` are this with 2, 4 and 8 bytes.
unfoldable pub read_word : ℕ → DecoderOf AdminError ℕ
read_word n bytes cursor = do
  (xs, end) ← read_exact n bytes cursor
  array ← read_slice_array n xs
  ok (from_be_bytes array, end)

-- A `usize` has the 64 bits of the varint.
unfoldable pub read_slice : DecoderOf AdminError (List ℕ)
read_slice bytes cursor = do
  (len, next) ← decode_varint_u64_at bytes cursor
  read_exact len bytes next

unfoldable pub read_string : DecoderOf AdminError (List ℕ)
read_string bytes cursor = do
  (xs, end) ← read_slice bytes cursor
  text ← ok_or (from_utf8 xs) invalid_utf8
  ok (text, end)

unfoldable pub decode_packed_attribute : DecoderOf AdminError PackedSpaceAttribute
decode_packed_attribute bytes cursor = do
  (name, c1) ← read_string bytes cursor
  (datatype, c2) ← read_word 2 bytes c1
  fail_if
      ((datatype == hyperdatatype_macaroon_secret)
        && not (same_string name hyperdex_attribute_secret))
      secret_attribute_name
  ok (record { name = name; datatype = datatype }, c2)

-- The products of two bytes' or four bytes' worth and 16 do not overflow.
unfoldable pub decode_packed_region : DecoderOf AdminError (Unit {0})
decode_packed_region bytes cursor = do
  (region_id, c1) ← read_word 8 bytes cursor
  (hashes_len, c2) ← read_word 2 bytes c1
  (replicas_len, c3) ← read_u8 bytes c2
  (coordinates, c4) ← read_exact (hashes_len * 16) bytes c3
  (replicas, c5) ← read_exact (replicas_len * 16) bytes c4
  ok (tt, c5)

unfoldable pub decode_subspace_attribute : ℕ → DecoderOf AdminError ℕ
decode_subspace_attribute attribute_count bytes cursor = do
  (attr, c1) ← read_word 2 bytes cursor
  fail_if (leb attribute_count attr) attribute_out_of_range
  ok (attr, c1)

-- `*partitions` after a subspace with `regions_len` regions
unfoldable pub agree_partitions : Option ℕ → ℕ → Result (Option ℕ) AdminError
agree_partitions none regions_len = ok (some regions_len)
agree_partitions (some existing) regions_len =
    if existing == regions_len then ok (some existing) else err partitions_disagree

unfoldable pub decode_packed_subspace :
    ℕ → Option ℕ → DecoderOf AdminError (PackedSpaceSubspace × Option ℕ)
decode_packed_subspace attribute_count partitions bytes cursor = do
  (subspace_id, c1) ← read_word 8 bytes cursor
  (attrs_len, c2) ← read_word 2 bytes c1
  (regions_len, c3) ← read_word 4 bytes c2
  partitions' ← agree_partitions partitions regions_len
  (attrs, c4) ← decode_many (decode_subspace_attribute attribute_count) attrs_len bytes c3
  (regions, c5) ← decode_many decode_packed_region regions_len bytes c4
  ok ((record { attrs = attrs; regions_len = regions_len }, partitions'), c5)

-- `for _ in 0..subspaces_len`, with the number of partitions of the subspaces so far
unfoldable pub decode_packed_subspaces :
    ℕ → ℕ → Option ℕ → DecoderOf AdminError (List PackedSpaceSubspace × Option ℕ)
decode_packed_subspaces zero attribute_count partitions bytes cursor = ok (([], partitions), cursor)
decode_packed_subspaces (suc count) attribute_count partitions bytes cursor = do
  (first, c1) ← decode_packed_subspace attribute_count partitions bytes cursor
  (rest, c2) ← decode_packed_subspaces count attribute_count first.1 bytes c1
  ok ((first.0 ∷ rest.0, rest.1), c2)

-- `INDEX_TYPE_NORMAL` is 0 and `INDEX_TYPE_DOCUMENT` is 1.
unfoldable pub decode_packed_index : ℕ → DecoderOf AdminError (Unit {0})
decode_packed_index attribute_count bytes cursor = do
  (index_type, c1) ← read_u8 bytes cursor
  fail_if (not ((index_type == 0) || (index_type == 1))) (unknown_index_type index_type)
  (index_id, c2) ← read_word 8 bytes c1
  (attr, c3) ← read_word 2 bytes c2
  fail_if (leb attribute_count attr) attribute_out_of_range
  (extra, c4) ← read_slice bytes c3
  ok (tt, c4)

-- `for attr in attrs.iter().skip(1)`
unfoldable pub attribute_definitions :
    List PackedSpaceAttribute → Result (List AttributeDefinition) AdminError
attribute_definitions [] = ok []
attribute_definitions (attr ∷ attrs) = if is_secret attr then attribute_definitions attrs else (do
  kind ← decode_hyperdatatype attr.datatype
  rest ← attribute_definitions attrs
  ok (record { name = attr.name; kind = kind } ∷ rest))

-- `for attr_index in &subspace.attrs`, where `attrs[i]` panics out of range
unfoldable pub subspace_dimensions :
    List PackedSpaceAttribute → List ℕ → List ℕ → Result (List (List ℕ)) AdminError
subspace_dimensions attrs key [] = ok []
subspace_dimensions attrs key (i ∷ is) = elim (get_elem? attrs i) [
  | none ↦ panic
  | some attr ↦ (do
    rest ← subspace_dimensions attrs key is
    ok (if same_string attr.name key || is_secret attr then rest else attr.name ∷ rest))
]

-- `for subspace in subspaces.iter().skip(1)`
unfoldable pub rust_subspaces :
    List PackedSpaceAttribute
    → List ℕ
    → List PackedSpaceSubspace
    → Result (List Subspace) AdminError
rust_subspaces attrs key [] = ok []
rust_subspaces attrs key (subspace ∷ subspaces) = do
  dimensions ← subspace_dimensions attrs key subspace.attrs
  rest ← rust_subspaces attrs key subspaces
  ok (if length dimensions == 0 then rest else record { dimensions = dimensions } ∷ rest)

-- `partitions.filter(|count| *count > 0).unwrap_or_else(…)`
unfoldable pub partitions_or_default : Option ℕ → ℕ
partitions_or_default none = default_options.partitions
partitions_or_default (some count) = if ltb 0 count then count else default_options.partitions

-- The attributes with the key first, which is not the secret.
unfoldable pub check_key : List PackedSpaceAttribute → Result PackedSpaceAttribute AdminError
check_key [] = err no_key_attribute
check_key (key ∷ attrs) = if is_secret key then err secret_key_attribute else ok key

-- What the decoder makes of the fields that it has read.
unfoldable pub build_space :
    List ℕ
    → ℕ
    → List PackedSpaceAttribute
    → PackedSpaceAttribute
    → List PackedSpaceSubspace × Option ℕ
    → Result Space AdminError
build_space name fault_tolerance attrs key subspaces = do
  attributes ← attribute_definitions (drop 1 attrs)
  rust ← rust_subspaces attrs key.name (drop 1 subspaces.0)
  fail_if (leb 0x1_0000_0000 fault_tolerance) fault_tolerance_range
  ok (record {
    name = name;
    key_attribute = key.name;
    attributes = attributes;
    subspaces = rust;
    options = record {
      fault_tolerance = fault_tolerance;
      partitions = partitions_or_default subspaces.1;
      schema_format = SchemaFormat.hyper_dex_dsl;
    };
  })

unfoldable pub decode_packed_hyperdex_space : List ℕ → Result Space AdminError
decode_packed_hyperdex_space bytes = do
  (space_id, c1) ← read_word 8 bytes 0
  (name, c2) ← read_string bytes c1
  (fault_tolerance, c3) ← read_word 8 bytes c2
  (attrs_len, c4) ← read_word 2 bytes c3
  (subspaces_len, c5) ← read_word 2 bytes c4
  (indices_len, c6) ← read_word 2 bytes c5
  (attrs, c7) ← decode_many decode_packed_attribute attrs_len bytes c6
  key ← check_key attrs
  (subspaces, c8) ← decode_packed_subspaces subspaces_len (length attrs) none bytes c7
  (indices, c9) ← decode_many (decode_packed_index (length attrs)) indices_len bytes c8
  expect_consumed bytes c9
  build_space name fault_tolerance attrs key subspaces
