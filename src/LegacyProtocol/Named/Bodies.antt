-- ===== src/LegacyProtocol/Named/Bodies.antt =====
-- The request and response bodies with attribute names: `encode_body` and `decode_body` of each type
-- of crates/legacy-protocol/src/lib.rs.
use hyperdex_rs.Prelude.{ℕ, ◌+◌, ◌%◌, List, ◌∷◌, ◌++◌, not, ◌==◌, ltb, length}
use hyperdex_rs.Prelude.{Result, ok, ok_or, fail_if, ◌>>=◌, ◌>>◌}
use hyperdex_rs.Prelude.Words.{u16_mod, to_be_bytes}
use hyperdex_rs.Prelude.Slices.{slice, index}
use hyperdex_rs.Prelude.Utf8.{from_utf8}
use hyperdex_rs.LegacyProtocol.Codes.{
  LegacyProtocolError, LegacyReturnCode, short_buffer, invalid_utf8, return_code,
  decode_return_code,
}
use hyperdex_rs.LegacyProtocol.Read.{read_u16_be, read_u64_be}
use hyperdex_rs.LegacyProtocol.Named.{
  GetAttribute, LegacyCheck, LegacyFuncall, encode_attributes_into, encode_checks_into,
  encode_funcalls_into, decode_attributes, decode_checks, decode_funcalls,
}

pub record CountRequest : Type 0 where
  pub space : List ℕ

pub record CountResponse : Type 0 where
  pub count : ℕ

pub record GetRequest : Type 0 where
  pub key : List ℕ

pub record GetResponse : Type 0 where
  pub status : LegacyReturnCode
  pub attributes : List GetAttribute

pub record SearchStartRequest : Type 0 where
  pub space : List ℕ
  pub search_id : ℕ
  pub checks : List LegacyCheck

pub record SearchContinueRequest : Type 0 where
  pub search_id : ℕ

pub record SearchItemResponse : Type 0 where
  pub search_id : ℕ
  pub key : List ℕ
  pub attributes : List GetAttribute

pub record SearchDoneResponse : Type 0 where
  pub search_id : ℕ

pub record AtomicRequest : Type 0 where
  pub flags : ℕ
  pub key : List ℕ
  pub checks : List LegacyCheck
  pub funcalls : List LegacyFuncall

pub record AtomicResponse : Type 0 where
  pub status : LegacyReturnCode

-- `(xs.len() as u16).to_be_bytes()`
abbrev pub u16_length {ℓ} : {A : Type ℓ} → List A → List ℕ
u16_length xs = to_be_bytes 2 (length xs % u16_mod)

unfoldable pub encode_count_request : CountRequest → List ℕ
encode_count_request request = u16_length request.space ++ request.space

unfoldable pub decode_count_request : List ℕ → Result CountRequest LegacyProtocolError
decode_count_request bytes = do
  fail_if (ltb (length bytes) 2) short_buffer
  len ← read_u16_be bytes 0
  fail_if (ltb (length bytes) (2 + len)) short_buffer
  text ← slice bytes 2 (2 + len)
  space ← ok_or (from_utf8 text) invalid_utf8
  ok (record { space = space })

unfoldable pub encode_count_response : CountResponse → List ℕ
encode_count_response response = to_be_bytes 8 response.count

unfoldable pub decode_count_response : List ℕ → Result CountResponse LegacyProtocolError
decode_count_response bytes = do
  fail_if (ltb (length bytes) 8) short_buffer
  count ← read_u64_be bytes 0
  ok (record { count = count })

unfoldable pub encode_get_request : GetRequest → List ℕ
encode_get_request request = u16_length request.key ++ request.key

unfoldable pub decode_get_request : List ℕ → Result GetRequest LegacyProtocolError
decode_get_request bytes = do
  fail_if (ltb (length bytes) 2) short_buffer
  len ← read_u16_be bytes 0
  fail_if (ltb (length bytes) (2 + len)) short_buffer
  key ← slice bytes 2 (2 + len)
  ok (record { key = key })

unfoldable pub encode_get_response : GetResponse → List ℕ
encode_get_response response =
    to_be_bytes 2 (return_code response.status)
    ++ (u16_length response.attributes ++ encode_attributes_into response.attributes)

unfoldable pub decode_get_response : List ℕ → Result GetResponse LegacyProtocolError
decode_get_response bytes = do
  fail_if (ltb (length bytes) 4) short_buffer
  code ← read_u16_be bytes 0
  status ← decode_return_code code
  attr_count ← read_u16_be bytes 2
  (attributes, offset) ← decode_attributes attr_count bytes 4
  fail_if (not (offset == length bytes)) short_buffer
  ok (record { status = status; attributes = attributes })

unfoldable pub encode_search_start_request : SearchStartRequest → List ℕ
encode_search_start_request request =
    u16_length request.space
    ++ (request.space
        ++ (to_be_bytes 8 request.search_id
            ++ (u16_length request.checks ++ encode_checks_into request.checks)))

unfoldable pub decode_search_start_request : List ℕ → Result SearchStartRequest LegacyProtocolError
decode_search_start_request bytes = do
  fail_if (ltb (length bytes) 12) short_buffer
  space_len ← read_u16_be bytes 0
  fail_if (ltb (length bytes) (2 + space_len + 10)) short_buffer
  text ← slice bytes 2 (2 + space_len)
  space ← ok_or (from_utf8 text) invalid_utf8
  search_id ← read_u64_be bytes (2 + space_len)
  check_count ← read_u16_be bytes (10 + space_len)
  (checks, offset) ← decode_checks check_count bytes (12 + space_len)
  fail_if (not (offset == length bytes)) short_buffer
  ok (record { space = space; search_id = search_id; checks = checks })

unfoldable pub encode_search_continue_request : SearchContinueRequest → List ℕ
encode_search_continue_request request = to_be_bytes 8 request.search_id

unfoldable pub decode_search_continue_request :
    List ℕ → Result SearchContinueRequest LegacyProtocolError
decode_search_continue_request bytes = do
  fail_if (ltb (length bytes) 8) short_buffer
  search_id ← read_u64_be bytes 0
  ok (record { search_id = search_id })

unfoldable pub encode_search_item_response : SearchItemResponse → List ℕ
encode_search_item_response response =
    to_be_bytes 8 response.search_id
    ++ (u16_length response.key
        ++ (response.key
            ++ (u16_length response.attributes ++ encode_attributes_into response.attributes)))

unfoldable pub decode_search_item_response : List ℕ → Result SearchItemResponse LegacyProtocolError
decode_search_item_response bytes = do
  fail_if (ltb (length bytes) 12) short_buffer
  search_id ← read_u64_be bytes 0
  key_len ← read_u16_be bytes 8
  fail_if (ltb (length bytes) (10 + key_len + 2)) short_buffer
  key ← slice bytes 10 (10 + key_len)
  attr_count ← read_u16_be bytes (10 + key_len)
  (attributes, offset) ← decode_attributes attr_count bytes (12 + key_len)
  fail_if (not (offset == length bytes)) short_buffer
  ok (record { search_id = search_id; key = key; attributes = attributes })

unfoldable pub encode_search_done_response : SearchDoneResponse → List ℕ
encode_search_done_response response = to_be_bytes 8 response.search_id

unfoldable pub decode_search_done_response : List ℕ → Result SearchDoneResponse LegacyProtocolError
unfolding decode_search_continue_request
decode_search_done_response bytes = do
  request ← decode_search_continue_request bytes
  ok (record { search_id = request.search_id })

unfoldable pub encode_atomic_request : AtomicRequest → List ℕ
encode_atomic_request request =
    u16_length request.key
    ++ (request.key
        ++ (request.flags
            ∷ (u16_length request.checks
                ++ (encode_checks_into request.checks
                    ++ (u16_length request.funcalls ++ encode_funcalls_into request.funcalls)))))

unfoldable pub decode_atomic_request : List ℕ → Result AtomicRequest LegacyProtocolError
decode_atomic_request bytes = do
  fail_if (ltb (length bytes) 7) short_buffer
  key_len ← read_u16_be bytes 0
  fail_if (ltb (length bytes) (2 + key_len + 5)) short_buffer
  key ← slice bytes 2 (2 + key_len)
  flags ← index bytes (2 + key_len)
  check_count ← read_u16_be bytes (3 + key_len)
  (checks, offset) ← decode_checks check_count bytes (5 + key_len)
  fail_if (ltb (length bytes) (offset + 2)) short_buffer
  funcall_count ← read_u16_be bytes offset
  (funcalls, offset) ← decode_funcalls funcall_count bytes (offset + 2)
  fail_if (not (offset == length bytes)) short_buffer
  ok (record { flags = flags; key = key; checks = checks; funcalls = funcalls })

unfoldable pub encode_atomic_response : AtomicResponse → List ℕ
encode_atomic_response response = to_be_bytes 2 (return_code response.status)

unfoldable pub decode_atomic_response : List ℕ → Result AtomicResponse LegacyProtocolError
decode_atomic_response bytes = do
  fail_if (ltb (length bytes) 2) short_buffer
  code ← read_u16_be bytes 0
  status ← decode_return_code code
  ok (record { status = status })
