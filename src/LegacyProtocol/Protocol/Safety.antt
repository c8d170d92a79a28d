-- ===== src/LegacyProtocol/Protocol/Safety.antt =====
-- No binary decoder panics, whatever bytes it is given: every index and every slice is guarded.
use hyperdex_rs.Prelude.{ℕ, ◌-◌, ◌≤◌, List, arith, length}
use hyperdex_rs.Prelude.{Ensures, Ensures-bind, Ensures-weaken, Returns}
use hyperdex_rs.Prelude.Bounds.{index-Returns, slice-Returns, slice_from-Returns}
use hyperdex_rs.LegacyProtocol.Codes.{LegacyProtocolError}
use hyperdex_rs.LegacyProtocol.Read.{read_u16_be-Returns, read_u64_be-Returns, read_array-Returns}
use hyperdex_rs.LegacyProtocol.Varint.{decode_varint}
use hyperdex_rs.LegacyProtocol.Varint.Safety.{decode_varint-stays}
use hyperdex_rs.LegacyProtocol.Many.{Decoder, Stays, decode_many, decode_many-Stays}
use hyperdex_rs.LegacyProtocol.Protocol.{
  ProtocolAttributeCheck, ProtocolFuncall, decode_protocol_slice, slice_at, decode_protocol_check,
  decode_protocol_funcall, decode_counted, decode_bounded_protocol_count, decode_protocol_slices,
  decode_protocol_checks, decode_protocol_funcalls,
}
use hyperdex_rs.LegacyProtocol.Protocol.Messages.{
  decode_protocol_get_request, decode_protocol_count_request, decode_protocol_atomic_request,
  decode_protocol_search_start, decode_protocol_search_continue, decode_protocol_atomic_response,
  decode_protocol_count_response, decode_protocol_get_response, decode_protocol_search_item,
  decode_exact_word,
}

pub decode_protocol_slice-stays :
    (bytes : List ℕ)
    → Ensures (λ (r : List ℕ × ℕ). (1 ≤ r.1) × (r.1 ≤ length bytes)) (decode_protocol_slice bytes)
unfolding decode_protocol_slice
decode_protocol_slice-stays bytes =
    grind (arith, decode_varint-stays bytes, slice-Returns LegacyProtocolError)

slice_at-in :
    (bytes : List ℕ) (offset : ℕ)
    → offset ≤ length bytes
    → Ensures (λ (r : List ℕ × ℕ). (offset ≤ r.1) × (r.1 ≤ length bytes)) (slice_at bytes offset)
unfolding slice_at
slice_at-in bytes offset h =
    grind (arith, slice_from-Returns LegacyProtocolError, decode_protocol_slice-stays)

slice_at-Stays : Stays slice_at
slice_at-Stays = record { stays = slice_at-in }

decode_protocol_check-Stays : Stays decode_protocol_check
unfolding decode_protocol_check
decode_protocol_check-Stays = record {
  stays = λ bytes offset h. grind (arith, slice_at-in, read_u16_be-Returns);
}

decode_protocol_funcall-Stays : Stays decode_protocol_funcall
unfolding decode_protocol_funcall
decode_protocol_funcall-Stays = record {
  stays = λ bytes offset h.
      grind (arith, slice_at-in, read_u16_be-Returns, index-Returns LegacyProtocolError);
}

bounded_count-Returns :
    (count remaining k : ℕ) → Returns (decode_bounded_protocol_count count remaining k)
unfolding decode_bounded_protocol_count
bounded_count-Returns count remaining k = ground arith

decode_counted-Stays :
    {A : Type 0} (item : Decoder A) (k : ℕ)
    → Stays item
    → (bytes : List ℕ)
    → Ensures (λ (r : List A × ℕ). r.1 ≤ length bytes) (decode_counted item k bytes)
unfolding decode_counted
decode_counted-Stays item k h bytes =
    Ensures-bind _ _ (decode_varint bytes) _ (decode_varint-stays bytes) λ r hr.
      Ensures-bind _ _ (decode_bounded_protocol_count r.0 (length bytes - r.1) k) _
        (bounded_count-Returns r.0 (length bytes - r.1) k)
        λ count _.
          Ensures-weaken _ _ (λ q hq. hq.1) (decode_many item count bytes r.1)
            ((decode_many-Stays item count h).stays bytes r.1 hr.1)

decode_protocol_slices-stays :
    (bytes : List ℕ)
    → Ensures (λ (r : List (List ℕ) × ℕ). r.1 ≤ length bytes) (decode_protocol_slices bytes)
unfolding decode_protocol_slices
decode_protocol_slices-stays = decode_counted-Stays slice_at 1 slice_at-Stays

decode_protocol_checks-stays :
    (bytes : List ℕ)
    → Ensures
        (λ (r : List ProtocolAttributeCheck × ℕ). r.1 ≤ length bytes)
        (decode_protocol_checks bytes)
unfolding decode_protocol_checks
decode_protocol_checks-stays =
    decode_counted-Stays decode_protocol_check 7 decode_protocol_check-Stays

decode_protocol_funcalls-stays :
    (bytes : List ℕ)
    → Ensures
        (λ (r : List ProtocolFuncall × ℕ). r.1 ≤ length bytes)
        (decode_protocol_funcalls bytes)
unfolding decode_protocol_funcalls
decode_protocol_funcalls-stays =
    decode_counted-Stays decode_protocol_funcall 9 decode_protocol_funcall-Stays

decode_protocol_atomic_request-Returns :
    (bytes : List ℕ) → Returns (decode_protocol_atomic_request bytes)
unfolding decode_protocol_atomic_request
decode_protocol_atomic_request-Returns bytes = grind (
  arith,
  decode_protocol_slice-stays bytes,
  index-Returns LegacyProtocolError,
  slice_from-Returns LegacyProtocolError,
  decode_protocol_checks-stays,
  decode_protocol_funcalls-stays,
)

decode_protocol_search_start-Returns :
    (bytes : List ℕ) → Returns (decode_protocol_search_start bytes)
unfolding decode_protocol_search_start
decode_protocol_search_start-Returns bytes = grind (
  arith,
  slice_from-Returns LegacyProtocolError,
  read_u64_be-Returns,
  decode_protocol_checks-stays,
)

decode_protocol_get_response-Returns :
    (bytes : List ℕ) → Returns (decode_protocol_get_response bytes)
unfolding decode_protocol_get_response
decode_protocol_get_response-Returns bytes = grind (
  arith,
  slice_from-Returns LegacyProtocolError,
  read_u16_be-Returns,
  decode_protocol_slices-stays,
)

decode_protocol_search_item-Returns : (bytes : List ℕ) → Returns (decode_protocol_search_item bytes)
unfolding decode_protocol_search_item
decode_protocol_search_item-Returns bytes = grind (
  arith,
  decode_protocol_slice-stays bytes,
  slice_from-Returns LegacyProtocolError,
  decode_protocol_slices-stays,
)

decode_exact_word-Returns : (width : ℕ) (bytes : List ℕ) → Returns (decode_exact_word width bytes)
unfolding decode_exact_word
decode_exact_word-Returns width bytes = ground (arith, read_array-Returns bytes 0 width)

decode_protocol_get_request-Returns : (bytes : List ℕ) → Returns (decode_protocol_get_request bytes)
unfolding decode_protocol_get_request
decode_protocol_get_request-Returns bytes = ground (arith, decode_protocol_slice-stays bytes)

decode_protocol_count_request-Returns :
    (bytes : List ℕ) → Returns (decode_protocol_count_request bytes)
unfolding decode_protocol_count_request
decode_protocol_count_request-Returns bytes = ground (arith, decode_protocol_checks-stays bytes)

-- Whatever bytes arrive, each of the nine binary decoders comes back with a message or an error:
-- none indexes or slices out of range.
pub decode_protocol-Returns :
    (bytes : List ℕ)
    → Returns (decode_protocol_get_request bytes)
      × Returns (decode_protocol_count_request bytes)
      × Returns (decode_protocol_atomic_request bytes)
      × Returns (decode_protocol_search_start bytes)
      × Returns (decode_protocol_search_continue bytes)
      × Returns (decode_protocol_atomic_response bytes)
      × Returns (decode_protocol_count_response bytes)
      × Returns (decode_protocol_get_response bytes)
      × Returns (decode_protocol_search_item bytes)
unfolding decode_protocol_search_continue decode_protocol_atomic_response
    decode_protocol_count_response
decode_protocol-Returns bytes = (
  decode_protocol_get_request-Returns bytes,
  decode_protocol_count_request-Returns bytes,
  decode_protocol_atomic_request-Returns bytes,
  decode_protocol_search_start-Returns bytes,
  decode_exact_word-Returns 8 bytes,
  decode_exact_word-Returns 2 bytes,
  decode_exact_word-Returns 8 bytes,
  decode_protocol_get_response-Returns bytes,
  decode_protocol_search_item-Returns bytes,
)
