-- ===== src/AdminProtocol/Read/Safety.antt =====
-- The readers on any buffer: they come back, and a cursor in the buffer stays in it.
use hyperdex_rs.Prelude.{ℕ, ◌+◌, ◌≤◌, List, arith, length}
use hyperdex_rs.Prelude.{Returns, Ensures, Ensures-bind, Ensures-ok_or, Ensures-fail_if, ltb}
use hyperdex_rs.Prelude.Words.{checked_add}
use hyperdex_rs.Prelude.Slices.{slice, slice_from, index}
use hyperdex_rs.Prelude.Bounds.{slice-Returns, slice_from-Returns, index-Returns}
use hyperdex_rs.Prelude.Decoders.{Stays}
use hyperdex_rs.AdminProtocol.Codes.{AdminError, decode_replicant_code, first_word}
use hyperdex_rs.AdminProtocol.Varint.{decode_varint_u64, decode_varint_u64-stays}
use hyperdex_rs.AdminProtocol.Read.{
  read_array_at, decode_u64_be, decode_varint_u64_at, decode_varint_slice, decode_varint_slice_at,
  decode_return_code_at, expect_consumed,
}

pub read_array_at-Returns : (bytes : List ℕ) (offset n : ℕ) → Returns (read_array_at bytes offset n)
unfolding read_array_at
read_array_at-Returns bytes offset n = ground arith

pub decode_u64_be-Stays : Stays decode_u64_be
unfolding decode_u64_be
decode_u64_be-Stays = record {
  stays = λ bytes cursor h. ground (arith, read_array_at-Returns bytes cursor 8);
}

pub decode_varint_u64_at-Stays : Stays decode_varint_u64_at
unfolding decode_varint_u64_at
decode_varint_u64_at-Stays = record {
  stays = λ bytes cursor h.
      Ensures-bind _ _ (slice_from bytes cursor) _ (slice_from-Returns AdminError bytes cursor h)
        λ tail ht.
          Ensures-bind _ _ (decode_varint_u64 tail) _ (decode_varint_u64-stays tail)
            λ r hr. ground arith;
}

pub decode_varint_slice-stays :
    (bytes : List ℕ) → Ensures (λ (r : List ℕ × ℕ). r.1 ≤ length bytes) (decode_varint_slice bytes)
unfolding decode_varint_slice
decode_varint_slice-stays bytes =
    Ensures-bind _ _ (decode_varint_u64 bytes) _ (decode_varint_u64-stays bytes)
      λ r hr. ground (arith, slice-Returns AdminError bytes r.1 (r.1 + r.0))

pub decode_varint_slice_at-Stays : Stays decode_varint_slice_at
unfolding decode_varint_slice_at
decode_varint_slice_at-Stays = record {
  stays = λ bytes cursor h.
      Ensures-bind _ _ (slice_from bytes cursor) _ (slice_from-Returns AdminError bytes cursor h)
        λ tail ht.
          Ensures-bind _ _ (decode_varint_slice tail) _ (decode_varint_slice-stays tail)
            λ r hr. omega arith;
}

first_word-Returns : (bytes : List ℕ) → 2 ≤ length bytes → Returns (first_word bytes)
unfolding first_word
first_word-Returns bytes h =
    Ensures-bind _ _ (index bytes 0) _ (index-Returns AdminError bytes 0 (omega arith)) λ a _.
      Ensures-bind _ _ (index bytes 1) _ (index-Returns AdminError bytes 1 (omega arith)) λ b _. tt

pub decode_replicant_code-Returns : (bytes : List ℕ) → Returns (decode_replicant_code bytes)
unfolding decode_replicant_code
decode_replicant_code-Returns bytes = ground (arith, first_word-Returns bytes)

pub decode_return_code_at-Stays : Stays decode_return_code_at
unfolding decode_return_code_at
decode_return_code_at-Stays = record {
  stays = λ bytes cursor h. Ensures-ok_or _ (checked_add cursor 2) _ _ λ end e.
      Ensures-fail_if _ (ltb (length bytes) end) _ _ λ room.
        Ensures-bind _ _ (slice bytes cursor end) _
          (slice-Returns AdminError bytes cursor end (ground arith) (ground arith))
          λ xs _.
            Ensures-bind _ _ (decode_replicant_code xs) _ (decode_replicant_code-Returns xs)
              λ c _. ground arith;
}

pub expect_consumed-Returns : (bytes : List ℕ) (cursor : ℕ) → Returns (expect_consumed bytes cursor)
unfolding expect_consumed
expect_consumed-Returns bytes cursor = ground arith
