-- ===== src/LegacyProtocol/Protocol/Messages.antt =====
-- The binary message bodies of crates/legacy-protocol/src/lib.rs.
use hyperdex_rs.Prelude.{
  ℕ, ◌+◌, List, [], ◌∷◌, ◌++◌, Bool, not, bit_and, bit_or, ◌==◌, ltb, if◌then◌else◌, length,
}
use hyperdex_rs.Prelude.{Result, ok, fail_if, ◌>>=◌, ◌>>◌}
use hyperdex_rs.Prelude.Words.{to_be_bytes, from_be_bytes}
use hyperdex_rs.Prelude.Slices.{slice_from, index}
use hyperdex_rs.LegacyProtocol.Codes.{LegacyProtocolError, short_buffer, return_code, success}
use hyperdex_rs.LegacyProtocol.Read.{read_array, read_u16_be, read_u64_be}
use hyperdex_rs.LegacyProtocol.Protocol.{
  ProtocolAttributeCheck, ProtocolFuncall, encode_protocol_slice, decode_protocol_slice,
  encode_protocol_slices, decode_protocol_slices, encode_protocol_checks, decode_protocol_checks,
  encode_protocol_funcalls, decode_protocol_funcalls,
}

pub record ProtocolKeyChange : Type 0 where
  pub key : List ℕ
  pub erase : Bool
  pub fail_if_not_found : Bool
  pub fail_if_found : Bool
  pub checks : List ProtocolAttributeCheck
  pub funcalls : List ProtocolFuncall

pub record ProtocolSearchStart : Type 0 where
  pub search_id : ℕ
  pub checks : List ProtocolAttributeCheck

pub record ProtocolGetResponse : Type 0 where
  pub status : ℕ
  pub values : List (List ℕ)

pub record ProtocolSearchItem : Type 0 where
  pub key : List ℕ
  pub values : List (List ℕ)

abbrev pub legacy_atomic_flag_write : ℕ
legacy_atomic_flag_write = 0x80

abbrev pub legacy_atomic_flag_fail_if_not_found : ℕ
legacy_atomic_flag_fail_if_not_found = 0x01

abbrev pub legacy_atomic_flag_fail_if_found : ℕ
legacy_atomic_flag_fail_if_found = 0x02

-- `used != bytes.len()`
abbrev pub not_at_end : List ℕ → ℕ → Bool
not_at_end bytes used = not (used == length bytes)

unfoldable pub encode_protocol_get_request : List ℕ → List ℕ
encode_protocol_get_request key = encode_protocol_slice key

unfoldable pub decode_protocol_get_request : List ℕ → Result (List ℕ) LegacyProtocolError
decode_protocol_get_request bytes = do
  (key, used) ← decode_protocol_slice bytes
  fail_if (not_at_end bytes used) short_buffer
  ok key

unfoldable pub encode_protocol_count_request : List ProtocolAttributeCheck → List ℕ
encode_protocol_count_request checks = encode_protocol_checks checks

unfoldable pub decode_protocol_count_request :
    List ℕ → Result (List ProtocolAttributeCheck) LegacyProtocolError
decode_protocol_count_request bytes = do
  (checks, used) ← decode_protocol_checks bytes
  fail_if (not_at_end bytes used) short_buffer
  ok checks

unfoldable pub atomic_flags : Bool → Bool → Bool → ℕ
atomic_flags erase fail_if_not_found fail_if_found =
    let flags : ℕ = 0 in
    let flags = if not erase then bit_or flags legacy_atomic_flag_write else flags in
    let flags =
      if fail_if_not_found then bit_or flags legacy_atomic_flag_fail_if_not_found else flags in
    if fail_if_found then bit_or flags legacy_atomic_flag_fail_if_found else flags

unfoldable pub encode_protocol_atomic_request : ProtocolKeyChange → List ℕ
encode_protocol_atomic_request change =
    encode_protocol_slice change.key
    ++ (atomic_flags change.erase change.fail_if_not_found change.fail_if_found
        ∷ (encode_protocol_checks change.checks ++ encode_protocol_funcalls change.funcalls))

unfoldable pub decode_protocol_atomic_request :
    List ℕ → Result ProtocolKeyChange LegacyProtocolError
decode_protocol_atomic_request bytes = do
  (key, used) ← decode_protocol_slice bytes
  fail_if (ltb (length bytes) (used + 1)) short_buffer
  flags ← index bytes used
  rest ← slice_from bytes (used + 1)
  (checks, checks_used) ← decode_protocol_checks rest
  rest ← slice_from bytes (used + 1 + checks_used)
  (funcalls, funcalls_used) ← decode_protocol_funcalls rest
  fail_if (not_at_end bytes (used + 1 + checks_used + funcalls_used)) short_buffer
  ok (record {
    key = key;
    erase = bit_and flags legacy_atomic_flag_write == 0;
    fail_if_not_found = not (bit_and flags legacy_atomic_flag_fail_if_not_found == 0);
    fail_if_found = not (bit_and flags legacy_atomic_flag_fail_if_found == 0);
    checks = checks;
    funcalls = funcalls;
  })

unfoldable pub encode_protocol_search_start : ProtocolSearchStart → List ℕ
encode_protocol_search_start request =
    to_be_bytes 8 request.search_id ++ encode_protocol_checks request.checks

unfoldable pub decode_protocol_search_start :
    List ℕ → Result ProtocolSearchStart LegacyProtocolError
decode_protocol_search_start bytes = do
  fail_if (ltb (length bytes) 8) short_buffer
  search_id ← read_u64_be bytes 0
  rest ← slice_from bytes 8
  (checks, used) ← decode_protocol_checks rest
  fail_if (not_at_end bytes (8 + used)) short_buffer
  ok (record { search_id = search_id; checks = checks })

-- `decode_protocol_search_continue`, `decode_protocol_count_response` and, two bytes wide,
-- `decode_protocol_atomic_response`: a body that is one word and nothing else.
unfoldable pub decode_exact_word : ℕ → List ℕ → Result ℕ LegacyProtocolError
decode_exact_word width bytes = do
  fail_if (not (length bytes == width)) short_buffer
  array ← read_array bytes 0 width
  ok (from_be_bytes array)

unfoldable pub encode_protocol_search_continue : ℕ → List ℕ
encode_protocol_search_continue search_id = to_be_bytes 8 search_id

unfoldable pub decode_protocol_search_continue : List ℕ → Result ℕ LegacyProtocolError
unfolding decode_exact_word
decode_protocol_search_continue bytes = decode_exact_word 8 bytes

unfoldable pub encode_protocol_atomic_response : ℕ → List ℕ
encode_protocol_atomic_response status = to_be_bytes 2 status

unfoldable pub decode_protocol_atomic_response : List ℕ → Result ℕ LegacyProtocolError
unfolding decode_exact_word
decode_protocol_atomic_response bytes = decode_exact_word 2 bytes

unfoldable pub encode_protocol_count_response : ℕ → List ℕ
encode_protocol_count_response count = to_be_bytes 8 count

unfoldable pub decode_protocol_count_response : List ℕ → Result ℕ LegacyProtocolError
unfolding decode_exact_word
decode_protocol_count_response bytes = decode_exact_word 8 bytes

unfoldable pub encode_protocol_get_response : ProtocolGetResponse → List ℕ
unfolding return_code
encode_protocol_get_response response =
    to_be_bytes 2 response.status
    ++ (if response.status == return_code success
        then encode_protocol_slices response.values
        else [])

unfoldable pub decode_protocol_get_response :
    List ℕ → Result ProtocolGetResponse LegacyProtocolError
unfolding return_code
decode_protocol_get_response bytes = do
  fail_if (ltb (length bytes) 2) short_buffer
  status ← read_u16_be bytes 0
  if not (status == return_code success)
      then fail_if (not (length bytes == 2)) short_buffer
        >> ok (record { status = status; values = [] })
      else do
        rest ← slice_from bytes 2
        (values, used) ← decode_protocol_slices rest
        fail_if (not_at_end bytes (2 + used)) short_buffer
        ok (record { status = status; values = values })

unfoldable pub encode_protocol_search_item : ProtocolSearchItem → List ℕ
encode_protocol_search_item item =
    encode_protocol_slice item.key ++ encode_protocol_slices item.values

unfoldable pub decode_protocol_search_item : List ℕ → Result ProtocolSearchItem LegacyProtocolError
decode_protocol_search_item bytes = do
  (key, used) ← decode_protocol_slice bytes
  rest ← slice_from bytes used
  (values, values_used) ← decode_protocol_slices rest
  fail_if (not_at_end bytes (used + values_used)) short_buffer
  ok (record { key = key; values = values })

unfoldable pub encode_protocol_search_done : List ℕ
encode_protocol_search_done = []
