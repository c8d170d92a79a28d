-- ===== src/AdminProtocol/Read.antt =====
-- The readers of crates/hyperdex-admin-protocol/src/lib.rs that read a field of a message at a
-- cursor and move the cursor behind it.
pub mod Safety
use hyperdex_rs.Prelude.{
  ℕ, ◌+◌, ◌<◌, ◌≤◌, ◌^◌, ◌≡◌, ap, sym, ◌∙◌, List, ◌++◌, append_assoc, Option, none, some, arith,
  length, length-append, ltb, lt→ltb, le→ltb, ◌==◌, not, length-drop, ==_refl,
}
use hyperdex_rs.Prelude.{Result, ok, ◌>>=◌, ◌>>◌, fail_if, ok_or, Ensures, Ensures-bind, Returns}
use hyperdex_rs.Prelude.Words.{
  u64_mod, checked_add, from_be_bytes, to_be_bytes, from_be_bytes-to_be_bytes, length-to_be_bytes,
}
use hyperdex_rs.Prelude.Slices.{
  get_range, slice, slice_from, At, At-length, At-second, At-whole, get_range-At_width, slice-At,
  slice-At_width, slice_from-At,
}
use hyperdex_rs.Prelude.Bounds.{slice-Returns, slice_from-Returns}
use hyperdex_rs.Prelude.Decoders.{DecoderOf, Stays}
use hyperdex_rs.AdminProtocol.Codes.{
  AdminError, cursor_overflow, truncated, buffer_too_short, length_overflow, trailing_bytes,
  ReplicantReturnCode, encode_replicant_code, decode_replicant_code, decode_replicant_code-encode,
  length-encode_replicant_code,
}
use hyperdex_rs.AdminProtocol.Varint.{
  encode_varint_u64, decode_varint_u64, decode_varint_u64-encode, decode_varint_u64-stays,
}

-- The conversion of the slice to an array of `n` bytes cannot fail, since the range has `n` bytes.
unfoldable pub read_array_at : List ℕ → ℕ → ℕ → Result (List ℕ) AdminError
unfolding get_range
read_array_at bytes offset n = do
  end ← ok_or (checked_add offset n) cursor_overflow
  ok_or (get_range bytes offset end) truncated

unfoldable pub decode_u64_be : DecoderOf AdminError ℕ
unfolding read_array_at
decode_u64_be bytes cursor = do
  end ← ok_or (checked_add cursor 8) cursor_overflow
  fail_if (ltb (length bytes) end) buffer_too_short
  array ← read_array_at bytes cursor 8
  ok (from_be_bytes array, end)

unfoldable pub decode_varint_u64_at : DecoderOf AdminError ℕ
unfolding slice_from decode_varint_u64
decode_varint_u64_at bytes cursor = do
  tail ← slice_from bytes cursor
  (value, consumed) ← decode_varint_u64 tail
  next ← ok_or (checked_add cursor consumed) cursor_overflow
  ok (value, next)

unfoldable pub encode_varint_slice : List ℕ → List ℕ
unfolding encode_varint_u64
encode_varint_slice bytes = encode_varint_u64 (length bytes) ++ bytes

unfoldable pub decode_varint_slice : List ℕ → Result (List ℕ × ℕ) AdminError
unfolding slice decode_varint_u64
decode_varint_slice bytes = do
  (len, header_len) ← decode_varint_u64 bytes
  end ← ok_or (checked_add header_len len) length_overflow
  fail_if (ltb (length bytes) end) truncated
  xs ← slice bytes header_len end
  ok (xs, end)

unfoldable pub decode_varint_slice_at : DecoderOf AdminError (List ℕ)
unfolding slice_from decode_varint_slice
decode_varint_slice_at bytes cursor = do
  tail ← slice_from bytes cursor
  (value, consumed) ← decode_varint_slice tail
  ok (value, cursor + consumed)

unfoldable pub decode_return_code_at : DecoderOf AdminError ReplicantReturnCode
decode_return_code_at bytes cursor = do
  end ← ok_or (checked_add cursor 2) cursor_overflow
  fail_if (ltb (length bytes) end) buffer_too_short
  xs ← slice bytes cursor end
  status ← decode_replicant_code xs
  ok (status, end)

unfoldable pub expect_consumed : List ℕ → ℕ → Result (Unit {0}) AdminError
expect_consumed bytes cursor = fail_if (not (length bytes == cursor)) trailing_bytes

module _ {bytes : List ℕ} {offset : ℕ} {rest : List ℕ} (small : length bytes < u64_mod) where
  pub decode_u64_be-At :
      (v : ℕ)
      → At bytes offset (to_be_bytes 8 v) rest
      → v < u64_mod
      → decode_u64_be bytes offset ≡ ok (v, offset + 8)
  unfolding decode_u64_be read_array_at
  decode_u64_be-At v at h =
      let wide = length-to_be_bytes 8 v in
      rw (
        lt→ltb (offset + 8) u64_mod (omega (arith, At-length at, wide)),
        le→ltb (length bytes) (offset + 8) (omega (arith, At-length at, wide)),
        get_range-At_width 8 wide at,
        from_be_bytes-to_be_bytes 8 v h,
      )

  pub decode_varint_u64_at-At :
      (v : ℕ)
      → At bytes offset (encode_varint_u64 v) rest
      → v < u64_mod
      → decode_varint_u64_at bytes offset ≡ ok (v, offset + length (encode_varint_u64 v))
  unfolding decode_varint_u64_at
  decode_varint_u64_at-At v at h = rw (
    slice_from-At at,
    decode_varint_u64-encode v rest h,
    lt→ltb (offset + length (encode_varint_u64 v)) u64_mod (omega (arith, At-length at)),
  )

  pub decode_return_code_at-At :
      (c : ReplicantReturnCode)
      → At bytes offset (encode_replicant_code c) rest
      → decode_return_code_at bytes offset ≡ ok (c, offset + 2)
  unfolding decode_return_code_at
  decode_return_code_at-At c at =
      let wide = length-encode_replicant_code c in
      rw (
        lt→ltb (offset + 2) u64_mod (omega (arith, At-length at, wide)),
        le→ltb (length bytes) (offset + 2) (omega (arith, At-length at, wide)),
        slice-At_width 2 wide at,
        decode_replicant_code-encode c,
      )

decode_varint_slice-encode :
    (xs rest : List ℕ)
    → length (encode_varint_slice xs ++ rest) < u64_mod
    → decode_varint_slice (encode_varint_slice xs ++ rest)
      ≡ ok (xs, length (encode_varint_slice xs))
unfolding encode_varint_slice decode_varint_slice
decode_varint_slice-encode xs rest small =
    let head = encode_varint_u64 (length xs) in
    let at = At-second head xs rest in
    rw (
      length-append head xs,
      append_assoc head xs rest,
      decode_varint_u64-encode (length xs) (xs ++ rest) (omega (arith, At-length at)),
      ← append_assoc head xs rest,
      lt→ltb (length head + length xs) u64_mod (omega (arith, At-length at)),
      le→ltb (length ((head ++ xs) ++ rest)) (length head + length xs)
          (omega (arith, At-length at)),
      slice-At at,
    )

pub decode_varint_slice_at-At :
    {bytes : List ℕ} {offset : ℕ} {rest : List ℕ}
    → length bytes < u64_mod
    → (xs : List ℕ) → At bytes offset (encode_varint_slice xs) rest
    → decode_varint_slice_at bytes offset ≡ ok (xs, offset + length (encode_varint_slice xs))
unfolding decode_varint_slice_at
decode_varint_slice_at-At {rest = rest} small xs at = rw (
  slice_from-At at,
  decode_varint_slice-encode xs rest
      (omega (arith, At-length at, length-append (encode_varint_slice xs) rest)),
)

-- At the end of the buffer nothing trails.
pub expect_consumed-end :
    (bytes : List ℕ) (cursor : ℕ) → length bytes ≡ cursor → expect_consumed bytes cursor ≡ ok tt
unfolding expect_consumed
expect_consumed-end bytes cursor h = rw (h, ==_refl cursor)
