-- ===== src/LegacyProtocol/Header/RoundTrip.antt =====
-- Headers read back as they were written, alone and inside a frame.
use hyperdex_rs.Prelude.{
  ℕ, ◌+◌, ◌%◌, ◌<◌, ◌≡◌, refl, List, [], ◌∷◌, ◌++◌, arith, length, length-append, le→ltb, drop,
  drop-append,
}
use hyperdex_rs.Prelude.{ok}
use hyperdex_rs.Prelude.Words.{u8_mod, u32_mod, u64_mod, to_be_bytes, length-to_be_bytes}
use hyperdex_rs.Prelude.Slices.{At-left, At-step, At-all, At-length, index-At}
use hyperdex_rs.LegacyProtocol.Codes.{message_type_code}
use hyperdex_rs.LegacyProtocol.Codes.Exact.{decode_message_type-code}
use hyperdex_rs.LegacyProtocol.Read.{read_u64_be-At}
use hyperdex_rs.LegacyProtocol.Header.{
  RequestHeader, ResponseHeader, encode_request_header, decode_request_header,
  encode_response_header, decode_response_header, encode_frame, encode_request_frame,
  encode_response_frame,
}

pub record IsRequestHeader (header : RequestHeader) : Type 0 where
  pub flags : header.flags < u8_mod
  pub version : header.version < u64_mod
  pub target_virtual_server : header.target_virtual_server < u64_mod
  pub nonce : header.nonce < u64_mod

pub record IsResponseHeader (header : ResponseHeader) : Type 0 where
  pub target_virtual_server : header.target_virtual_server < u64_mod
  pub nonce : header.nonce < u64_mod

-- What stands behind the first word.
abbrev pub request_fields : RequestHeader → List ℕ
request_fields header =
    message_type_code header.message_type
    ∷ header.flags
    ∷ (to_be_bytes 8 header.version
        ++ (to_be_bytes 8 header.target_virtual_server ++ to_be_bytes 8 header.nonce))

abbrev pub response_fields : ResponseHeader → List ℕ
response_fields header =
    message_type_code header.message_type
    ∷ (to_be_bytes 8 header.target_virtual_server ++ to_be_bytes 8 header.nonce)

pub length-request_fields : (header : RequestHeader) → length (request_fields header) ≡ 26
length-request_fields header = omega (
  arith,
  length-append (to_be_bytes 8 header.version)
      (to_be_bytes 8 header.target_virtual_server ++ to_be_bytes 8 header.nonce),
  length-append (to_be_bytes 8 header.target_virtual_server) (to_be_bytes 8 header.nonce),
  length-to_be_bytes 8 header.version,
  length-to_be_bytes 8 header.target_virtual_server,
  length-to_be_bytes 8 header.nonce,
)

-- The decoder skips the first word, and does not look behind the header.
pub decode_request_header-fields :
    (header : RequestHeader) (word body : List ℕ)
    → length word ≡ 4
    → IsRequestHeader header
    → length (word ++ (request_fields header ++ body)) < u64_mod
    → decode_request_header (word ++ (request_fields header ++ body)) ≡ ok header
unfolding decode_request_header
decode_request_header-fields header word body four good small =
    let v = to_be_bytes 8 header.version in
    let t = to_be_bytes 8 header.target_virtual_server in
    let n = to_be_bytes 8 header.nonce in
    let bytes = word ++ (request_fields header ++ body) in
    let at = At-step word (request_fields header ++ body) 4 four (At-all bytes) in
    let at5 =
      At-step (message_type_code header.message_type ∷ [])
        (header.flags ∷ ((v ++ (t ++ n)) ++ body)) 1 refl at in
    let at6 =
      At-left (v ++ (t ++ n)) body
        (At-step (header.flags ∷ []) ((v ++ (t ++ n)) ++ body) 1 refl at5) in
    let at14 = At-step v (t ++ n) 8 (length-to_be_bytes 8 header.version) at6 in
    let at22 = At-step t n 8 (length-to_be_bytes 8 header.target_virtual_server) at14 in
    rw (
      le→ltb (length bytes) 30 (omega (arith, At-length at22, length-to_be_bytes 8 header.nonce)),
      index-At at,
      decode_message_type-code header.message_type,
      index-At at5,
      read_u64_be-At header.version (At-left v (t ++ n) at6) small good.version,
      read_u64_be-At header.target_virtual_server (At-left t n at14) small
          good.target_virtual_server,
      read_u64_be-At header.nonce at22 small good.nonce,
    )

pub decode_response_header-fields :
    (header : ResponseHeader) (word body : List ℕ)
    → length word ≡ 4
    → IsResponseHeader header
    → length (word ++ (response_fields header ++ body)) < u64_mod
    → decode_response_header (word ++ (response_fields header ++ body)) ≡ ok header
unfolding decode_response_header
decode_response_header-fields header word body four good small =
    let t = to_be_bytes 8 header.target_virtual_server in
    let n = to_be_bytes 8 header.nonce in
    let bytes = word ++ (response_fields header ++ body) in
    let at = At-step word (response_fields header ++ body) 4 four (At-all bytes) in
    let at5 =
      At-left (t ++ n) body
        (At-step (message_type_code header.message_type ∷ []) ((t ++ n) ++ body) 1 refl at) in
    let at13 = At-step t n 8 (length-to_be_bytes 8 header.target_virtual_server) at5 in
    rw (
      le→ltb (length bytes) 21 (omega (arith, At-length at13, length-to_be_bytes 8 header.nonce)),
      index-At at,
      decode_message_type-code header.message_type,
      read_u64_be-At header.target_virtual_server (At-left t n at5) small
          good.target_virtual_server,
      read_u64_be-At header.nonce at13 small good.nonce,
    )

drop-four : (w xs : List ℕ) → length w ≡ 4 → drop 4 (w ++ xs) ≡ xs
drop-four w xs e = rw (← e) (drop-append w xs)

-- A request frame is its length, the header's fields and the body.
pub encode_request_frame-parts :
    (header : RequestHeader) (body : List ℕ)
    → 30 + length body < u32_mod
    → encode_request_frame header body
      ≡ to_be_bytes 4 (30 + length body) ++ (request_fields header ++ body)
unfolding encode_request_frame encode_frame encode_request_header
encode_request_frame-parts header body small =
    let zeros = to_be_bytes 4 0 in
    let total : (length (zeros ++ request_fields header) + length body) % u32_mod
        ≡ 30 + length body =
      omega (
        arith,
        length-append zeros (request_fields header),
        length-to_be_bytes 4 0,
        length-request_fields header,
      ) in
    rw (total, drop-four zeros (request_fields header) (length-to_be_bytes 4 0))

pub length-response_fields : (header : ResponseHeader) → length (response_fields header) ≡ 17
length-response_fields header = omega (
  arith,
  length-append (to_be_bytes 8 header.target_virtual_server) (to_be_bytes 8 header.nonce),
  length-to_be_bytes 8 header.target_virtual_server,
  length-to_be_bytes 8 header.nonce,
)

pub encode_response_frame-parts :
    (header : ResponseHeader) (body : List ℕ)
    → 21 + length body < u32_mod
    → encode_response_frame header body
      ≡ to_be_bytes 4 (21 + length body) ++ (response_fields header ++ body)
unfolding encode_response_frame encode_frame encode_response_header
encode_response_frame-parts header body small =
    let zeros = to_be_bytes 4 0 in
    let total : (length (zeros ++ response_fields header) + length body) % u32_mod
        ≡ 21 + length body =
      omega (
        arith,
        length-append zeros (response_fields header),
        length-to_be_bytes 4 0,
        length-response_fields header,
      ) in
    rw (total, drop-four zeros (response_fields header) (length-to_be_bytes 4 0))

pub length-request_frame :
    (header : RequestHeader) (body : List ℕ)
    → length (to_be_bytes 4 (30 + length body) ++ (request_fields header ++ body))
      ≡ 30 + length body
length-request_frame header body = omega (
  arith,
  length-append (to_be_bytes 4 (30 + length body)) (request_fields header ++ body),
  length-append (request_fields header) body,
  length-to_be_bytes 4 (30 + length body),
  length-request_fields header,
)

length-response_frame :
    (header : ResponseHeader) (body : List ℕ)
    → length (to_be_bytes 4 (21 + length body) ++ (response_fields header ++ body))
      ≡ 21 + length body
length-response_frame header body = omega (
  arith,
  length-append (to_be_bytes 4 (21 + length body)) (response_fields header ++ body),
  length-append (response_fields header) body,
  length-to_be_bytes 4 (21 + length body),
  length-response_fields header,
)

-- The headers of a request frame and of a response frame below 4 GiB read back, whatever the
-- bodies, if their numbers fit the widths of their fields.
pub decode_header-frame :
    (request : RequestHeader) (response : ResponseHeader) (body : List ℕ)
    → IsRequestHeader request
    → IsResponseHeader response
    → 30 + length body < u32_mod
    → (decode_request_header (encode_request_frame request body) ≡ ok request)
      × (decode_response_header (encode_response_frame response body) ≡ ok response)
decode_header-frame request response body good good' small = (
  rw (encode_request_frame-parts request body small) (
      decode_request_header-fields request (to_be_bytes 4 (30 + length body)) body
        (length-to_be_bytes 4 (30 + length body)) good
        (omega (arith, length-request_frame request body))),
  rw (encode_response_frame-parts response body (omega arith)) (
      decode_response_header-fields response (to_be_bytes 4 (21 + length body)) body
        (length-to_be_bytes 4 (21 + length body)) good'
        (omega (arith, length-response_frame response body))),
)
