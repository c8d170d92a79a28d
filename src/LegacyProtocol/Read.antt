-- ===== src/LegacyProtocol/Read.antt =====
-- Big-endian fields of a buffer: `read_array` and the readers above it, crates/legacy-protocol/src/lib.rs.
use hyperdex_rs.Prelude.{ℕ, ◌+◌, ◌<◌, ◌^◌, ◌≡◌, List, arith, length, lt→ltb}
use hyperdex_rs.Prelude.{Result, ok, ok_or, Returns, ◌>>=◌}
use hyperdex_rs.Prelude.Words.{
  checked_add, from_be_bytes, to_be_bytes, from_be_bytes-to_be_bytes, length-to_be_bytes, u64_mod,
}
use hyperdex_rs.Prelude.Slices.{get_range, At, At-length, get_range-At}
use hyperdex_rs.LegacyProtocol.Codes.{LegacyProtocolError, short_buffer}

unfoldable pub read_array : List ℕ → ℕ → ℕ → Result (List ℕ) LegacyProtocolError
read_array bytes offset n = do
  end ← ok_or (checked_add offset n) short_buffer
  ok_or (get_range bytes offset end) short_buffer

unfoldable pub read_u16_be : List ℕ → ℕ → Result ℕ LegacyProtocolError
read_u16_be bytes offset = do array ← read_array bytes offset 2; ok (from_be_bytes array)

unfoldable pub read_u32_be : List ℕ → ℕ → Result ℕ LegacyProtocolError
read_u32_be bytes offset = do array ← read_array bytes offset 4; ok (from_be_bytes array)

unfoldable pub read_u64_be : List ℕ → ℕ → Result ℕ LegacyProtocolError
read_u64_be bytes offset = do array ← read_array bytes offset 8; ok (from_be_bytes array)

module _ {bytes : List ℕ} {offset : ℕ} (xs : List ℕ) {rest : List ℕ} (at : At bytes offset xs rest)
    (small : length bytes < u64_mod) where
  pub read_array-At : (n : ℕ) → length xs ≡ n → read_array bytes offset n ≡ ok xs
  unfolding read_array
  read_array-At n e =
      rw (← e, lt→ltb (offset + length xs) u64_mod (omega (arith, At-length at)), get_range-At at)

module _ {bytes : List ℕ} {offset : ℕ} (v : ℕ) {rest : List ℕ} where
  pub read_u16_be-At :
      At bytes offset (to_be_bytes 2 v) rest
      → length bytes < u64_mod
      → v < 256 ^ 2
      → read_u16_be bytes offset ≡ ok v
  unfolding read_u16_be
  read_u16_be-At at small h = rw (
    read_array-At (to_be_bytes 2 v) at small 2 (length-to_be_bytes 2 v),
    from_be_bytes-to_be_bytes 2 v h,
  )

  pub read_u32_be-At :
      At bytes offset (to_be_bytes 4 v) rest
      → length bytes < u64_mod
      → v < 256 ^ 4
      → read_u32_be bytes offset ≡ ok v
  unfolding read_u32_be
  read_u32_be-At at small h = rw (
    read_array-At (to_be_bytes 4 v) at small 4 (length-to_be_bytes 4 v),
    from_be_bytes-to_be_bytes 4 v h,
  )

  pub read_u64_be-At :
      At bytes offset (to_be_bytes 8 v) rest
      → length bytes < u64_mod
      → v < 256 ^ 8
      → read_u64_be bytes offset ≡ ok v
  unfolding read_u64_be
  read_u64_be-At at small h = rw (
    read_array-At (to_be_bytes 8 v) at small 8 (length-to_be_bytes 8 v),
    from_be_bytes-to_be_bytes 8 v h,
  )

-- A read comes back with a word or an error.
module _ (bytes : List ℕ) (offset : ℕ) where
  pub read_array-Returns : (n : ℕ) → Returns (read_array bytes offset n)
  unfolding read_array
  read_array-Returns n = ground arith

  pub read_u16_be-Returns : Returns (read_u16_be bytes offset)
  unfolding read_u16_be
  read_u16_be-Returns = ground (arith, read_array-Returns 2)

  pub read_u32_be-Returns : Returns (read_u32_be bytes offset)
  unfolding read_u32_be
  read_u32_be-Returns = ground (arith, read_array-Returns 4)

  pub read_u64_be-Returns : Returns (read_u64_be bytes offset)
  unfolding read_u64_be
  read_u64_be-Returns = ground (arith, read_array-Returns 8)
