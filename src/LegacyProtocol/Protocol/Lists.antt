-- ===== src/LegacyProtocol/Protocol/Lists.antt =====
-- Counted lists of slices, checks and function calls read back as they were written.
use native.Mathlib.Nat.{le-div_iff_mul-le}
use hyperdex_rs.Prelude.{
  ℕ, ◌+◌, ◌-◌, ◌*◌, ◌/◌, ◌<◌, ◌≤◌, ◌≡◌, List, [], ◌∷◌, ◌++◌, append_assoc, arith, length,
  length-append, lt→ltb, le→ltb, All,
}
use hyperdex_rs.Prelude.{ok}
use hyperdex_rs.Prelude.Words.{u64_mod}
use hyperdex_rs.Prelude.Slices.{At-second}
use hyperdex_rs.LegacyProtocol.Varint.{encode_varint, decode_varint}
use hyperdex_rs.LegacyProtocol.Varint.RoundTrip.{decode_varint-encode_varint, encode_varint_pos}
use hyperdex_rs.LegacyProtocol.Many.{
  Decoder, Reads, encode_many, decode_many-reads, length-encode_many,
}
use hyperdex_rs.LegacyProtocol.Protocol.{
  ProtocolAttributeCheck, ProtocolFuncall, encode_protocol_slice, slice_at, encode_counted,
  decode_counted, decode_bounded_protocol_count, encode_protocol_check, decode_protocol_check,
  encode_protocol_funcall, decode_protocol_funcall, encode_protocol_slices, decode_protocol_slices,
  encode_protocol_checks, decode_protocol_checks, encode_protocol_funcalls,
  decode_protocol_funcalls,
}
use hyperdex_rs.LegacyProtocol.Protocol.Items.{
  IsCheck, IsFuncall, slice_at-Reads, decode_protocol_check-Reads, decode_protocol_funcall-Reads,
  length-encode_protocol_check, length-encode_protocol_funcall,
}

-- A count that the remaining bytes can hold is accepted.
bounded_count :
    (count remaining k : ℕ)
    → 0 < k
    → count < u64_mod
    → k * count ≤ remaining
    → decode_bounded_protocol_count count remaining k ≡ ok count
unfolding decode_bounded_protocol_count
bounded_count count remaining k pos small fits = rw (
  lt→ltb count u64_mod small,
  le→ltb (remaining / k) count ((le-div_iff_mul-le pos).1 (omega arith)),
)

le-scaled : (k n : ℕ) → 0 < k → n ≤ k * n
le-scaled k n h = grind arith

module _ {A : Type 0} (encode : A → List ℕ) (decode : Decoder A) (Good : A → Type 0)
    (item : Reads encode decode Good) where
  pub decode_counted-encode :
      (k : ℕ)
      → 0 < k
      → ((a : A) → k ≤ length (encode a))
      → (xs : List A) (rest : List ℕ) → All Good xs
      → length (encode_counted encode xs ++ rest) < u64_mod
      → decode_counted decode k (encode_counted encode xs ++ rest)
        ≡ ok (xs, length (encode_counted encode xs))
  unfolding decode_counted encode_counted
  decode_counted-encode k pos wide xs rest good small =
      let head = encode_varint (length xs) in
      let body = encode_many encode xs in
      let long = length-encode_many encode decode Good item k xs wide in
      let total : length ((head ++ body) ++ rest) ≡ length head + length body + length rest =
        omega (arith, length-append (head ++ body) rest, length-append head body) in
      let few : length xs < u64_mod = omega (arith, total, long, le-scaled k (length xs) pos) in
      let start : decode_varint ((head ++ body) ++ rest) ≡ ok (length xs, length head) =
        rw append_assoc (decode_varint-encode_varint (length xs) (body ++ rest) few) in
      rw (
        start,
        bounded_count (length xs) (length ((head ++ body) ++ rest) - length head) k pos few
            (omega (arith, total, long)),
        decode_many-reads encode decode Good item xs _ (length head) rest (At-second head body rest)
            small good,
        length-append head body,
      )

pub encode_protocol_slice_pos : (xs : List ℕ) → 1 ≤ length (encode_protocol_slice xs)
unfolding encode_protocol_slice
encode_protocol_slice_pos xs =
    omega (arith, length-append (encode_varint (length xs)) xs, encode_varint_pos (length xs))

all_good : (xs : List (List ℕ)) → All (λ _. Unit {0}) xs
all_good [] = tt
all_good (x ∷ xs) = (tt, all_good xs)

-- A list of slices reads back, with the number of bytes that it took, whatever follows it.
pub decode_protocol_slices-encode :
    (xs : List (List ℕ)) (rest : List ℕ)
    → length (encode_protocol_slices xs ++ rest) < u64_mod
    → decode_protocol_slices (encode_protocol_slices xs ++ rest)
      ≡ ok (xs, length (encode_protocol_slices xs))
unfolding encode_protocol_slices decode_protocol_slices
decode_protocol_slices-encode xs rest small =
    decode_counted-encode encode_protocol_slice slice_at (λ _. Unit {0}) slice_at-Reads 1
      (omega arith) encode_protocol_slice_pos xs rest (all_good xs) small

-- So does a list of attribute checks whose fields fit their words.
pub decode_protocol_checks-encode :
    (xs : List ProtocolAttributeCheck) (rest : List ℕ)
    → All IsCheck xs
    → length (encode_protocol_checks xs ++ rest) < u64_mod
    → decode_protocol_checks (encode_protocol_checks xs ++ rest)
      ≡ ok (xs, length (encode_protocol_checks xs))
unfolding encode_protocol_checks decode_protocol_checks
decode_protocol_checks-encode xs rest good small =
    decode_counted-encode encode_protocol_check decode_protocol_check IsCheck
      decode_protocol_check-Reads 7 (omega arith)
      (λ c. omega (arith, length-encode_protocol_check c, encode_protocol_slice_pos c.value)) xs
      rest good small

-- So does a list of function calls whose fields fit their words.
pub decode_protocol_funcalls-encode :
    (xs : List ProtocolFuncall) (rest : List ℕ)
    → All IsFuncall xs
    → length (encode_protocol_funcalls xs ++ rest) < u64_mod
    → decode_protocol_funcalls (encode_protocol_funcalls xs ++ rest)
      ≡ ok (xs, length (encode_protocol_funcalls xs))
unfolding encode_protocol_funcalls decode_protocol_funcalls
decode_protocol_funcalls-encode xs rest good small =
    decode_counted-encode encode_protocol_funcall decode_protocol_funcall IsFuncall
      decode_protocol_funcall-Reads 9 (omega arith)
      (λ c. omega (
        arith,
        length-encode_protocol_funcall c,
        encode_protocol_slice_pos c.arg1,
        encode_protocol_slice_pos c.arg2,
      ))
      xs rest good small
