-- ===== src/LegacyProtocol/Named/Safety.antt =====
-- Which decoders of the named bodies come back on every input. The decoder of atomic requests is not
-- among them: see `Panic`.
use hyperdex_rs.Prelude.{ℕ, ◌+◌, ◌<◌, ◌≤◌, List, arith, length}
use hyperdex_rs.Prelude.{ok_or, Option, Ensures, Returns, Ensures-weaken}
use hyperdex_rs.Prelude.Bounds.{index-Returns, slice-Returns}
use hyperdex_rs.LegacyProtocol.Codes.{LegacyProtocolError, decode_predicate, decode_return_code}
use hyperdex_rs.LegacyProtocol.Read.{
  read_array-Returns, read_u16_be-Returns, read_u32_be-Returns, read_u64_be-Returns,
}
use hyperdex_rs.LegacyProtocol.Many.{Stays, decode_many, decode_many-Stays}
use hyperdex_rs.LegacyProtocol.Named.{
  GetValue, GetAttribute, LegacyCheck, value_of_kind, decode_value, decode_named_value,
  decode_check, decode_attributes, decode_checks,
}
use hyperdex_rs.LegacyProtocol.Named.Bodies.{
  decode_count_request, decode_count_response, decode_get_request, decode_get_response,
  decode_search_start_request, decode_search_continue_request, decode_search_item_response,
  decode_search_done_response, decode_atomic_response,
}

ok_or-Returns {ℓ κ} : {A : Type ℓ} {E : Type κ} (o : Option A) (e : E) → Returns (ok_or o e)
ok_or-Returns o e = ground arith

decode_predicate-Returns : (v : ℕ) → Returns (decode_predicate v)
unfolding decode_predicate
decode_predicate-Returns v = ok_or-Returns _ (LegacyProtocolError.unknown_predicate v)

decode_return_code-Returns : (v : ℕ) → Returns (decode_return_code v)
unfolding decode_return_code
decode_return_code-Returns v = ok_or-Returns _ (LegacyProtocolError.unknown_return_code v)

value_of_kind-Returns : (kind : ℕ) (value_bytes : List ℕ) → Returns (value_of_kind kind value_bytes)
unfolding value_of_kind
value_of_kind-Returns kind value_bytes = ground (arith, read_array-Returns value_bytes 0 8)

decode_value-stays :
    (bytes : List ℕ) (offset : ℕ)
    → offset < length bytes
    → Ensures
        (λ (r : GetValue × ℕ). (offset ≤ r.1) × (r.1 ≤ length bytes))
        (decode_value bytes offset)
unfolding decode_value
decode_value-stays bytes offset h = grind (
  arith,
  index-Returns LegacyProtocolError bytes offset h,
  read_u32_be-Returns bytes (offset + 1),
  slice-Returns LegacyProtocolError,
  value_of_kind-Returns,
)

decode_named_value-in :
    (bytes : List ℕ) (offset : ℕ)
    → Ensures
        (λ (r : GetAttribute × ℕ). (offset ≤ r.1) × (r.1 ≤ length bytes))
        (decode_named_value bytes offset)
unfolding decode_named_value
decode_named_value-in bytes offset =
    grind (
      arith,
      read_u16_be-Returns bytes offset,
      slice-Returns LegacyProtocolError,
      decode_value-stays,
    )

decode_named_value-Stays : Stays decode_named_value
decode_named_value-Stays = record { stays = λ bytes offset h. decode_named_value-in bytes offset }

decode_check-Stays : Stays decode_check
unfolding decode_check
decode_check-Stays = record {
  stays = λ bytes offset h.
      grind
        (arith, decode_named_value-in bytes offset, read_u16_be-Returns, decode_predicate-Returns);
}

decode_attributes-stays :
    (count : ℕ) (bytes : List ℕ) (offset : ℕ)
    → offset ≤ length bytes
    → Returns (decode_attributes count bytes offset)
unfolding decode_attributes
decode_attributes-stays count bytes offset h =
    Ensures-weaken _ _ (λ _ _. tt) (decode_many decode_named_value count bytes offset)
      ((decode_many-Stays decode_named_value count decode_named_value-Stays).stays bytes offset h)

decode_checks-stays :
    (count : ℕ) (bytes : List ℕ) (offset : ℕ)
    → offset ≤ length bytes
    → Ensures
        (λ (r : List LegacyCheck × ℕ). (offset ≤ r.1) × (r.1 ≤ length bytes))
        (decode_checks count bytes offset)
unfolding decode_checks
decode_checks-stays count = (decode_many-Stays decode_check count decode_check-Stays).stays

decode_get_response-Returns : (bytes : List ℕ) → Returns (decode_get_response bytes)
unfolding decode_get_response
decode_get_response-Returns bytes =
    grind (arith, read_u16_be-Returns, decode_return_code-Returns, decode_attributes-stays)

decode_search_start_request-Returns : (bytes : List ℕ) → Returns (decode_search_start_request bytes)
unfolding decode_search_start_request
decode_search_start_request-Returns bytes = grind (
  arith,
  read_u16_be-Returns,
  read_u64_be-Returns,
  slice-Returns LegacyProtocolError,
  decode_checks-stays,
)

decode_search_item_response-Returns : (bytes : List ℕ) → Returns (decode_search_item_response bytes)
unfolding decode_search_item_response
decode_search_item_response-Returns bytes = grind (
  arith,
  read_u16_be-Returns,
  read_u64_be-Returns,
  slice-Returns LegacyProtocolError,
  decode_attributes-stays,
)

-- Whatever bytes arrive, each of these nine decoders of named bodies comes back with a message or an
-- error: none indexes or slices out of range.
pub decode_body-Returns :
    (bytes : List ℕ)
    → Returns (decode_count_request bytes)
      × Returns (decode_count_response bytes)
      × Returns (decode_get_request bytes)
      × Returns (decode_get_response bytes)
      × Returns (decode_search_start_request bytes)
      × Returns (decode_search_continue_request bytes)
      × Returns (decode_search_item_response bytes)
      × Returns (decode_search_done_response bytes)
      × Returns (decode_atomic_response bytes)
unfolding decode_count_request decode_count_response decode_get_request decode_search_done_response
    decode_atomic_response
decode_body-Returns bytes = (
  grind (arith, read_u16_be-Returns, slice-Returns LegacyProtocolError),
  ground (arith, read_u64_be-Returns bytes 0),
  grind (arith, read_u16_be-Returns, slice-Returns LegacyProtocolError),
  decode_get_response-Returns bytes,
  decode_search_start_request-Returns bytes,
  ground (arith, read_u64_be-Returns bytes 0),
  decode_search_item_response-Returns bytes,
  ground (arith, read_u64_be-Returns bytes 0),
  grind (arith, read_u16_be-Returns, decode_return_code-Returns),
)
