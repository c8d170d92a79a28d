-- ===== src/LegacyProtocol/Named/RoundTrip.antt =====
-- The bodies with checks, function calls and attributes read back as they were written.
use hyperdex_rs.Prelude.{◌+◌, ◌<◌, ◌≡◌, refl, [], ◌∷◌, ◌++◌, arith, length, le→ltb, All, ==_refl}
use hyperdex_rs.Prelude.{ok}
use hyperdex_rs.Prelude.Words.{u16_mod, u64_mod, to_be_bytes, length-to_be_bytes}
use hyperdex_rs.Prelude.Slices.{
  At, At-left, At-right, At-step, At-all, At-offset, At-length, slice-At, index-At,
}
use hyperdex_rs.Prelude.Utf8.{from_utf8}
use hyperdex_rs.LegacyProtocol.Codes.{return_code}
use hyperdex_rs.LegacyProtocol.Codes.Exact.{decode_return_code-code, return_code-lt}
use hyperdex_rs.LegacyProtocol.Read.{read_u16_be-At, read_u64_be-At}
use hyperdex_rs.LegacyProtocol.Named.{
  encode_attributes_into, encode_checks_into, encode_funcalls_into,
}
use hyperdex_rs.LegacyProtocol.Named.Items.{IsName, IsAttribute, IsLegacyCheck, IsLegacyFuncall}
use hyperdex_rs.LegacyProtocol.Named.Bodies.{
  GetResponse, SearchStartRequest, SearchItemResponse, AtomicRequest, u16_length,
  encode_get_response, decode_get_response, encode_search_start_request,
  decode_search_start_request, encode_search_item_response, decode_search_item_response,
  encode_atomic_request, decode_atomic_request,
}
use hyperdex_rs.LegacyProtocol.Named.Counted.{
  end-At, length-At, attributes-At, checks-At, funcalls-At,
}

pub record IsAtomicRequest (request : AtomicRequest) : Type 0 where
  pub key : length request.key < u16_mod
  pub check_count : length request.checks < u16_mod
  pub checks : All IsLegacyCheck request.checks
  pub funcall_count : length request.funcalls < u16_mod
  pub funcalls : All IsLegacyFuncall request.funcalls
  pub fits : length (encode_atomic_request request) < u64_mod

-- An atomic request with attribute names reads back whole: flags, key, checks and function calls
-- with one or two arguments. The key and the numbers of checks and calls are below 2^16, names are
-- UTF-8 and shorter than 2^16 bytes, byte strings and strings are shorter than 2^32 bytes and the
-- strings UTF-8, integers are 64-bit words, and the body is below 2^64 bytes.
pub decode_atomic_request-encode :
    (request : AtomicRequest)
    → IsAtomicRequest request
    → decode_atomic_request (encode_atomic_request request) ≡ ok request
unfolding decode_atomic_request encode_atomic_request
decode_atomic_request-encode request good =
    let key = request.key in
    let n = length key in
    let calls = encode_funcalls_into request.funcalls in
    let t3 = u16_length request.funcalls ++ calls in
    let checks = encode_checks_into request.checks in
    let t2 = u16_length request.checks ++ (checks ++ t3) in
    let bytes = u16_length key ++ (key ++ (request.flags ∷ t2)) in
    let (key_len, at1) =
      length-At good.fits key (key ++ (request.flags ∷ t2)) good.key (At-all bytes) in
    let at2 = At-right key (request.flags ∷ t2) at1 in
    let at3 : At bytes (3 + n) t2 [] =
      At-offset {m = 2 + n + 1} (omega arith) (At-step (request.flags ∷ []) t2 1 refl at2) in
    let (check_count, at4) =
      length-At good.fits request.checks (checks ++ t3) good.check_count at3 in
    let at5 : At bytes (5 + n) (checks ++ t3) [] = At-offset {m = 3 + n + 2} (omega arith) at4 in
    let at6 = At-right checks t3 at5 in
    let (funcall_count, at7) = length-At good.fits request.funcalls calls good.funcall_count at6 in
    rw (
      le→ltb (length bytes) 7 (omega (arith, At-length at7)),
      key_len,
      le→ltb (length bytes) (2 + n + 5) (omega (arith, At-length at7)),
      slice-At (At-left key (request.flags ∷ t2) at1),
      index-At at2,
      check_count,
      checks-At good.fits request.checks good.checks (At-left checks t3 at5),
      le→ltb (length bytes) (5 + n + length checks + 2) (omega (arith, At-length at7)),
      funcall_count,
      funcalls-At good.fits request.funcalls good.funcalls at7,
      end-At at7,
      ==_refl (length bytes),
    )

pub record IsSearchStartRequest (request : SearchStartRequest) : Type 0 where
  pub space : IsName request.space
  pub search_id : request.search_id < u64_mod
  pub check_count : length request.checks < u16_mod
  pub checks : All IsLegacyCheck request.checks
  pub fits : length (encode_search_start_request request) < u64_mod

-- A search start reads back its space, its identifier and its checks, if they fit the widths of
-- their fields, names and strings are UTF-8, and the body is below 2^64 bytes.
pub decode_search_start_request-encode :
    (request : SearchStartRequest)
    → IsSearchStartRequest request
    → decode_search_start_request (encode_search_start_request request) ≡ ok request
unfolding decode_search_start_request encode_search_start_request from_utf8
decode_search_start_request-encode request good =
    let space = request.space in
    let n = length space in
    let checks = encode_checks_into request.checks in
    let id = to_be_bytes 8 request.search_id in
    let t2 = u16_length request.checks ++ checks in
    let bytes = u16_length space ++ (space ++ (id ++ t2)) in
    let (space_len, at1) =
      length-At good.fits space (space ++ (id ++ t2)) good.space.0 (At-all bytes) in
    let at2 = At-right space (id ++ t2) at1 in
    let at3 : At bytes (10 + n) t2 [] =
      At-offset {m = 2 + n + 8} (omega arith)
        (At-step id t2 8 (length-to_be_bytes 8 request.search_id) at2) in
    let (check_count, at4) = length-At good.fits request.checks checks good.check_count at3 in
    let at5 : At bytes (12 + n) checks [] = At-offset {m = 10 + n + 2} (omega arith) at4 in
    rw (
      le→ltb (length bytes) 12 (omega (arith, At-length at5)),
      space_len,
      le→ltb (length bytes) (2 + n + 10) (omega (arith, At-length at5)),
      slice-At (At-left space (id ++ t2) at1),
      good.space.1,
      read_u64_be-At request.search_id (At-left id t2 at2) good.fits good.search_id,
      check_count,
      checks-At good.fits request.checks good.checks at5,
      end-At at5,
      ==_refl (length bytes),
    )

pub record IsSearchItemResponse (response : SearchItemResponse) : Type 0 where
  pub search_id : response.search_id < u64_mod
  pub key : length response.key < u16_mod
  pub attribute_count : length response.attributes < u16_mod
  pub attributes : All IsAttribute response.attributes
  pub fits : length (encode_search_item_response response) < u64_mod

-- A search item reads back its identifier, its key and its attributes, if they fit the widths of
-- their fields, names and strings are UTF-8, and the body is below 2^64 bytes.
pub decode_search_item_response-encode :
    (response : SearchItemResponse)
    → IsSearchItemResponse response
    → decode_search_item_response (encode_search_item_response response) ≡ ok response
unfolding decode_search_item_response encode_search_item_response
decode_search_item_response-encode response good =
    let key = response.key in
    let n = length key in
    let attributes = encode_attributes_into response.attributes in
    let id = to_be_bytes 8 response.search_id in
    let t2 = u16_length response.attributes ++ attributes in
    let bytes = id ++ (u16_length key ++ (key ++ t2)) in
    let at0 =
      At-step id (u16_length key ++ (key ++ t2)) 8 (length-to_be_bytes 8 response.search_id)
        (At-all bytes) in
    let (key_len, at1) = length-At good.fits key (key ++ t2) good.key at0 in
    let at2 = At-right key t2 at1 in
    let (attr_count, at3) =
      length-At good.fits response.attributes attributes good.attribute_count at2 in
    let at4 : At bytes (12 + n) attributes [] = At-offset {m = 10 + n + 2} (omega arith) at3 in
    rw (
      le→ltb (length bytes) 12 (omega (arith, At-length at4)),
      read_u64_be-At response.search_id (At-left id (u16_length key ++ (key ++ t2)) (At-all bytes))
          good.fits good.search_id,
      key_len,
      le→ltb (length bytes) (10 + n + 2) (omega (arith, At-length at4)),
      slice-At (At-left key t2 at1),
      attr_count,
      attributes-At good.fits response.attributes good.attributes at4,
      end-At at4,
      ==_refl (length bytes),
    )

pub record IsGetResponse (response : GetResponse) : Type 0 where
  pub attribute_count : length response.attributes < u16_mod
  pub attributes : All IsAttribute response.attributes
  pub fits : length (encode_get_response response) < u64_mod

-- A get response reads back its status and its attributes, if these are fewer than 2^16 and fit the
-- widths of their fields, names and strings are UTF-8, and the body is below 2^64 bytes.
pub decode_get_response-encode :
    (response : GetResponse)
    → IsGetResponse response
    → decode_get_response (encode_get_response response) ≡ ok response
unfolding decode_get_response encode_get_response
decode_get_response-encode response good =
    let attributes = encode_attributes_into response.attributes in
    let status = to_be_bytes 2 (return_code response.status) in
    let t1 = u16_length response.attributes ++ attributes in
    let bytes = status ++ t1 in
    let at1 =
      At-step status t1 2 (length-to_be_bytes 2 (return_code response.status)) (At-all bytes) in
    let (attr_count, at2) =
      length-At good.fits response.attributes attributes good.attribute_count at1 in
    rw (
      le→ltb (length bytes) 4 (omega (arith, At-length at2)),
      read_u16_be-At (return_code response.status) (At-left status t1 (At-all bytes)) good.fits
          (return_code-lt response.status),
      decode_return_code-code response.status,
      attr_count,
      attributes-At good.fits response.attributes good.attributes at2,
      end-At at2,
      ==_refl (length bytes),
    )
