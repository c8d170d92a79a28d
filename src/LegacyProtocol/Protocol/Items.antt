-- ===== src/LegacyProtocol/Protocol/Items.antt =====
-- One slice, one check and one function call read back as they were written.
use hyperdex_rs.Prelude.{
  ℕ, ◌+◌, ◌<◌, ◌≡◌, ap, List, [], ◌∷◌, ◌++◌, append_assoc, arith, length, length-append, lt→ltb,
  le→ltb,
}
use hyperdex_rs.Prelude.{ok}
use hyperdex_rs.Prelude.Words.{u64_mod, u16_mod, to_be_bytes, length-to_be_bytes}
use hyperdex_rs.Prelude.Slices.{
  At, At-left, At-right, At-second, At-step, At-length, slice-At, slice_from-At, index-At,
}
use hyperdex_rs.LegacyProtocol.Read.{read_u16_be-At}
use hyperdex_rs.LegacyProtocol.Varint.{encode_varint, decode_varint}
use hyperdex_rs.LegacyProtocol.Varint.RoundTrip.{decode_varint-encode_varint}
use hyperdex_rs.LegacyProtocol.Many.{Reads}
use hyperdex_rs.LegacyProtocol.Protocol.{
  ProtocolAttributeCheck, ProtocolFuncall, encode_protocol_slice, decode_protocol_slice, slice_at,
  encode_protocol_check, decode_protocol_check, encode_protocol_funcall, decode_protocol_funcall,
}

decode_protocol_slice-At :
    (bytes xs rest : List ℕ) (used : ℕ)
    → decode_varint bytes ≡ ok (length xs, used)
    → At bytes used xs rest
    → length bytes < u64_mod
    → decode_protocol_slice bytes ≡ ok (xs, used + length xs)
unfolding decode_protocol_slice
decode_protocol_slice-At bytes xs rest used e at small = rw (
  e,
  lt→ltb (length xs) u64_mod (omega (arith, At-length at)),
  lt→ltb (used + length xs) u64_mod (omega (arith, At-length at)),
  le→ltb (length bytes) (used + length xs) (omega (arith, At-length at)),
  slice-At at,
)

-- A slice reads back, with the number of bytes that it took, whatever follows it.
pub decode_protocol_slice-encode :
    (xs rest : List ℕ)
    → length (encode_protocol_slice xs ++ rest) < u64_mod
    → decode_protocol_slice (encode_protocol_slice xs ++ rest)
      ≡ ok (xs, length (encode_protocol_slice xs))
unfolding encode_protocol_slice
decode_protocol_slice-encode xs rest small =
    let head = encode_varint (length xs) in
    let room : length ((head ++ xs) ++ rest) ≡ length head + length xs + length rest =
      omega (arith, length-append (head ++ xs) rest, length-append head xs) in
    rw (length-append head xs) (
      decode_protocol_slice-At ((head ++ xs) ++ rest) xs rest (length head)
        (rw append_assoc (decode_varint-encode_varint (length xs) (xs ++ rest) (omega arith)))
        (At-second head xs rest) small)

pub slice_at-At :
    (bytes : List ℕ) (used : ℕ) (xs rest : List ℕ)
    → At bytes used (encode_protocol_slice xs) rest
    → length bytes < u64_mod
    → slice_at bytes used ≡ ok (xs, used + length (encode_protocol_slice xs))
unfolding slice_at
slice_at-At bytes used xs rest at small = rw (
  slice_from-At at,
  decode_protocol_slice-encode xs rest
      (omega (arith, At-length at, length-append (encode_protocol_slice xs) rest)),
)

pub slice_at-Reads : Reads encode_protocol_slice slice_at (λ xs. Unit {0})
slice_at-Reads = record {
  reads = λ bytes offset xs rest at small good. slice_at-At bytes offset xs rest at small;
}

-- The fields of a check fit the words in which they are written.
pub record IsCheck (check : ProtocolAttributeCheck) : Type 0 where
  pub attr : check.attr < u16_mod
  pub datatype : check.datatype < u16_mod
  pub predicate : check.predicate < u16_mod

pub record IsFuncall (funcall : ProtocolFuncall) : Type 0 where
  pub attr : funcall.attr < u16_mod
  pub arg1_datatype : funcall.arg1_datatype < u16_mod
  pub arg2_datatype : funcall.arg2_datatype < u16_mod

-- Two bytes of a big-endian field, and what follows it.
abbrev word : ℕ → List ℕ
word v = to_be_bytes 2 v

length-word : (v : ℕ) (tail : List ℕ) → length (word v ++ tail) ≡ 2 + length tail
length-word v tail = omega (arith, length-append (word v) tail, length-to_be_bytes 2 v)

pub length-encode_protocol_check :
    (check : ProtocolAttributeCheck)
    → length (encode_protocol_check check) ≡ length (encode_protocol_slice check.value) + 6
unfolding encode_protocol_check
length-encode_protocol_check check =
    let tail = word check.datatype ++ word check.predicate in
    omega (
      arith,
      length-word check.attr (encode_protocol_slice check.value ++ tail),
      length-append (encode_protocol_slice check.value) tail,
      length-word check.datatype (word check.predicate),
      length-to_be_bytes 2 check.predicate,
    )

pub length-encode_protocol_funcall :
    (funcall : ProtocolFuncall)
    → length (encode_protocol_funcall funcall)
      ≡ length (encode_protocol_slice funcall.arg1)
        + length (encode_protocol_slice funcall.arg2)
        + 7
unfolding encode_protocol_funcall
length-encode_protocol_funcall funcall =
    let tail = encode_protocol_slice funcall.arg2 ++ word funcall.arg2_datatype in
    let mid = word funcall.arg1_datatype ++ tail in
    omega (
      arith,
      length-word funcall.attr (funcall.name ∷ (encode_protocol_slice funcall.arg1 ++ mid)),
      length-append (encode_protocol_slice funcall.arg1) mid,
      length-word funcall.arg1_datatype tail,
      length-append (encode_protocol_slice funcall.arg2) (word funcall.arg2_datatype),
      length-to_be_bytes 2 funcall.arg2_datatype,
    )

module _ (bytes : List ℕ) (offset : ℕ) (rest : List ℕ) (small : length bytes < u64_mod) where
  check-At :
      (check : ProtocolAttributeCheck)
      → At bytes offset (encode_protocol_check check) rest
      → IsCheck check
      → decode_protocol_check bytes offset
        ≡ ok (check, offset + length (encode_protocol_check check))
  unfolding encode_protocol_check decode_protocol_check
  check-At check at good =
      let sl = encode_protocol_slice check.value in
      let tail = word check.datatype ++ word check.predicate in
      let at1 = At-step (word check.attr) (sl ++ tail) 2 (length-to_be_bytes 2 check.attr) at in
      let at2 = At-right sl tail at1 in
      let at3 =
        At-step (word check.datatype) (word check.predicate) 2 (length-to_be_bytes 2 check.datatype)
          at2 in
      rw
        (
          le→ltb (length bytes) (offset + 2) (omega (arith, At-length at1)),
          read_u16_be-At check.attr (At-left (word check.attr) (sl ++ tail) at) small good.attr,
          slice_at-At bytes (offset + 2) check.value _ (At-left sl tail at1) small,
          le→ltb (length bytes) (offset + 2 + length sl + 4)
              (omega (arith, At-length at3, length-to_be_bytes 2 check.predicate)),
          read_u16_be-At check.datatype (At-left (word check.datatype) (word check.predicate) at2)
              small good.datatype,
          read_u16_be-At check.predicate at3 small good.predicate,
        )
        (ap (λ (n : ℕ). ok (check, n)) (omega (arith, length-encode_protocol_check check)))

  funcall-At :
      (call : ProtocolFuncall)
      → At bytes offset (encode_protocol_funcall call) rest
      → IsFuncall call
      → decode_protocol_funcall bytes offset
        ≡ ok (call, offset + length (encode_protocol_funcall call))
  unfolding encode_protocol_funcall decode_protocol_funcall
  funcall-At call at good =
      let s1 = encode_protocol_slice call.arg1 in
      let s2 = encode_protocol_slice call.arg2 in
      let w3 = word call.arg2_datatype in
      let t2 = word call.arg1_datatype ++ (s2 ++ w3) in
      let at1 =
        At-step (word call.attr) (call.name ∷ (s1 ++ t2)) 2 (length-to_be_bytes 2 call.attr) at in
      let head = word call.attr ++ (call.name ∷ []) in
      let at' : At bytes offset (head ++ (s1 ++ t2)) rest = rw append_assoc at in
      let at2 =
        At-step head (s1 ++ t2) 3 (omega (arith, length-word call.attr (call.name ∷ []))) at' in
      let at3 = At-right s1 t2 at2 in
      let at4 =
        At-step (word call.arg1_datatype) (s2 ++ w3) 2 (length-to_be_bytes 2 call.arg1_datatype)
          at3 in
      let at5 = At-right s2 w3 at4 in
      rw
        (
          le→ltb (length bytes) (offset + 3) (omega (arith, At-length at2)),
          read_u16_be-At call.attr (At-left (word call.attr) (call.name ∷ (s1 ++ t2)) at) small
              good.attr,
          index-At at1,
          slice_at-At bytes (offset + 3) call.arg1 _ (At-left s1 t2 at2) small,
          le→ltb (length bytes) (offset + 3 + length s1 + 2) (omega (arith, At-length at4)),
          read_u16_be-At call.arg1_datatype (At-left (word call.arg1_datatype) (s2 ++ w3) at3) small
              good.arg1_datatype,
          slice_at-At bytes (offset + 3 + length s1 + 2) call.arg2 _ (At-left s2 w3 at4) small,
          le→ltb (length bytes) (offset + 3 + length s1 + 2 + length s2 + 2)
              (omega (arith, At-length at5, length-to_be_bytes 2 call.arg2_datatype)),
          read_u16_be-At call.arg2_datatype at5 small good.arg2_datatype,
        )
        (ap (λ (n : ℕ). ok (call, n)) (omega (arith, length-encode_protocol_funcall call)))

pub decode_protocol_check-Reads : Reads encode_protocol_check decode_protocol_check IsCheck
decode_protocol_check-Reads = record {
  reads = λ bytes offset check rest at small good. check-At bytes offset rest small check at good;
}

pub decode_protocol_funcall-Reads : Reads encode_protocol_funcall decode_protocol_funcall IsFuncall
decode_protocol_funcall-Reads = record {
  reads = λ bytes offset call rest at small good. funcall-At bytes offset rest small call at good;
}
