-- ===== src/LegacyProtocol/Protocol.antt =====
-- The binary messages of the legacy clients, crates/legacy-protocol/src/lib.rs: slices behind a
-- varint length, and counted lists of slices, of attribute checks and of function calls.
pub mod Messages
pub mod Items
pub mod Lists
pub mod RoundTrip
pub mod Bodies
pub mod Safety
mod Examples
use hyperdex_rs.Prelude.{
  ℕ, ◌+◌, ◌-◌, ◌/◌, ◌^◌, List, [], ◌∷◌, ◌++◌, Option, none, some, Bool, ltb, if◌then◌else◌, length,
}
use hyperdex_rs.Prelude.{Result, ok, ok_or, fail_if, ◌>>=◌, ◌>>◌}
use hyperdex_rs.Prelude.Words.{checked_add, to_be_bytes}
use hyperdex_rs.Prelude.Slices.{slice, slice_from, index}
use hyperdex_rs.LegacyProtocol.Codes.{LegacyProtocolError, short_buffer}
use hyperdex_rs.LegacyProtocol.Read.{read_u16_be}
use hyperdex_rs.LegacyProtocol.Varint.{encode_varint, decode_varint}
use hyperdex_rs.LegacyProtocol.Many.{Decoder, decode_many, encode_many}

pub record ProtocolAttributeCheck : Type 0 where
  pub attr : ℕ
  pub value : List ℕ
  pub datatype : ℕ
  pub predicate : ℕ

pub record ProtocolFuncall : Type 0 where
  pub attr : ℕ
  pub name : ℕ
  pub arg1 : List ℕ
  pub arg1_datatype : ℕ
  pub arg2 : List ℕ
  pub arg2_datatype : ℕ

abbrev pub min_protocol_slice_bytes : ℕ
min_protocol_slice_bytes = 1

abbrev pub min_protocol_check_bytes : ℕ
min_protocol_check_bytes = 2 + min_protocol_slice_bytes + 2 + 2

abbrev pub min_protocol_funcall_bytes : ℕ
min_protocol_funcall_bytes = 2 + 1 + min_protocol_slice_bytes + 2 + min_protocol_slice_bytes + 2

-- `usize::try_from(n)`, for a `usize` of 64 bits
abbrev pub usize_try_from : ℕ → Option ℕ
usize_try_from n = if ltb n (2 ^ 64) then some n else none

unfoldable pub encode_protocol_slice : List ℕ → List ℕ
encode_protocol_slice bytes = encode_varint (length bytes) ++ bytes

unfoldable pub decode_protocol_slice : List ℕ → Result (List ℕ × ℕ) LegacyProtocolError
decode_protocol_slice bytes = do
  (size, used) ← decode_varint bytes
  size ← ok_or (usize_try_from size) short_buffer
  end ← ok_or (checked_add used size) short_buffer
  fail_if (ltb (length bytes) end) short_buffer
  value ← slice bytes used end
  ok (value, end)

unfoldable pub decode_bounded_protocol_count : ℕ → ℕ → ℕ → Result ℕ LegacyProtocolError
decode_bounded_protocol_count count remaining_bytes min_item_bytes = do
  count ← ok_or (usize_try_from count) short_buffer
  fail_if (ltb (remaining_bytes / min_item_bytes) count) short_buffer
  ok count

-- `decode_protocol_slice(&bytes[used..])`, with `used` moved behind the slice
unfoldable pub slice_at : Decoder (List ℕ)
slice_at bytes used = do
  rest ← slice_from bytes used
  (value, value_used) ← decode_protocol_slice rest
  ok (value, used + value_used)

unfoldable pub encode_protocol_check : ProtocolAttributeCheck → List ℕ
encode_protocol_check check =
    to_be_bytes 2 check.attr
    ++ (encode_protocol_slice check.value
        ++ (to_be_bytes 2 check.datatype ++ to_be_bytes 2 check.predicate))

-- The body of the loop in `decode_protocol_checks`.
unfoldable pub decode_protocol_check : Decoder ProtocolAttributeCheck
decode_protocol_check bytes used = do
  fail_if (ltb (length bytes) (used + 2)) short_buffer
  attr ← read_u16_be bytes used
  (value, used) ← slice_at bytes (used + 2)
  fail_if (ltb (length bytes) (used + 4)) short_buffer
  datatype ← read_u16_be bytes used
  predicate ← read_u16_be bytes (used + 2)
  ok (record { attr = attr; value = value; datatype = datatype; predicate = predicate }, used + 4)

unfoldable pub encode_protocol_funcall : ProtocolFuncall → List ℕ
encode_protocol_funcall funcall =
    to_be_bytes 2 funcall.attr
    ++ (funcall.name
        ∷ (encode_protocol_slice funcall.arg1
            ++ (to_be_bytes 2 funcall.arg1_datatype
                ++ (encode_protocol_slice funcall.arg2 ++ to_be_bytes 2 funcall.arg2_datatype))))

-- The body of the loop in `decode_protocol_funcalls`.
unfoldable pub decode_protocol_funcall : Decoder ProtocolFuncall
decode_protocol_funcall bytes used = do
  fail_if (ltb (length bytes) (used + 3)) short_buffer
  attr ← read_u16_be bytes used
  name ← index bytes (used + 2)
  (arg1, used) ← slice_at bytes (used + 3)
  fail_if (ltb (length bytes) (used + 2)) short_buffer
  arg1_datatype ← read_u16_be bytes used
  (arg2, used) ← slice_at bytes (used + 2)
  fail_if (ltb (length bytes) (used + 2)) short_buffer
  arg2_datatype ← read_u16_be bytes used
  ok (
    record {
      attr = attr;
      name = name;
      arg1 = arg1;
      arg1_datatype = arg1_datatype;
      arg2 = arg2;
      arg2_datatype = arg2_datatype;
    },
    used + 2,
  )

-- The shared shape of `encode_protocol_slices`, `encode_protocol_checks` and
-- `encode_protocol_funcalls`, and of their decoders: a varint count, and so many items.
unfoldable pub encode_counted : {A : Type 0} → (A → List ℕ) → List A → List ℕ
encode_counted encode items = encode_varint (length items) ++ encode_many encode items

unfoldable pub decode_counted :
    {A : Type 0} → Decoder A → ℕ → List ℕ → Result (List A × ℕ) LegacyProtocolError
decode_counted item min_item_bytes bytes = do
  (count, used) ← decode_varint bytes
  count ← decode_bounded_protocol_count count (length bytes - used) min_item_bytes
  decode_many item count bytes used

unfoldable pub encode_protocol_slices : List (List ℕ) → List ℕ
unfolding encode_counted
encode_protocol_slices = encode_counted encode_protocol_slice

unfoldable pub decode_protocol_slices : List ℕ → Result (List (List ℕ) × ℕ) LegacyProtocolError
unfolding decode_counted
decode_protocol_slices = decode_counted slice_at min_protocol_slice_bytes

unfoldable pub encode_protocol_checks : List ProtocolAttributeCheck → List ℕ
unfolding encode_counted
encode_protocol_checks = encode_counted encode_protocol_check

unfoldable pub decode_protocol_checks :
    List ℕ → Result (List ProtocolAttributeCheck × ℕ) LegacyProtocolError
unfolding decode_counted
decode_protocol_checks = decode_counted decode_protocol_check min_protocol_check_bytes

unfoldable pub encode_protocol_funcalls : List ProtocolFuncall → List ℕ
unfolding encode_counted
encode_protocol_funcalls = encode_counted encode_protocol_funcall

unfoldable pub decode_protocol_funcalls :
    List ℕ → Result (List ProtocolFuncall × ℕ) LegacyProtocolError
unfolding decode_counted
decode_protocol_funcalls = decode_counted decode_protocol_funcall min_protocol_funcall_bytes
