-- ===== src/LegacyProtocol/Named/SmallBodies.antt =====
-- The bodies of one field read back as they were written.
use hyperdex_rs.Prelude.{ℕ, ◌+◌, ◌%◌, ◌<◌, ◌≡◌, List, ◌++◌, arith, length, length-append, le→ltb}
use hyperdex_rs.Prelude.{ok}
use hyperdex_rs.Prelude.Words.{u16_mod, u64_mod, to_be_bytes, length-to_be_bytes}
use hyperdex_rs.Prelude.Slices.{At-all, At-length, slice-At}
use hyperdex_rs.Prelude.Utf8.{from_utf8}
use hyperdex_rs.LegacyProtocol.Codes.{return_code}
use hyperdex_rs.LegacyProtocol.Codes.Exact.{decode_return_code-code, return_code-lt}
use hyperdex_rs.LegacyProtocol.Read.{read_u64_be, read_u16_be-At, read_u64_be-At}
use hyperdex_rs.LegacyProtocol.Named.Items.{IsName}
use hyperdex_rs.LegacyProtocol.Named.Bodies.{
  CountResponse, SearchContinueRequest, SearchDoneResponse, AtomicResponse, u16_length,
  encode_count_request, decode_count_request, encode_get_request, decode_get_request,
  encode_count_response, decode_count_response, encode_search_continue_request,
  decode_search_continue_request, encode_search_done_response, decode_search_done_response,
  encode_atomic_response, decode_atomic_response,
}
use hyperdex_rs.LegacyProtocol.Named.Counted.{length-At}

-- Count and get requests read back their space, in UTF-8, and their key, both below 2^16 bytes.
pub decode_small_requests-encode :
    (space key : List ℕ)
    → IsName space
    → length key < u16_mod
    → (decode_count_request (encode_count_request (record { space = space }))
        ≡ ok (record { space = space }))
      × (decode_get_request (encode_get_request (record { key = key })) ≡ ok (record { key = key }))
unfolding decode_count_request encode_count_request decode_get_request encode_get_request from_utf8
decode_small_requests-encode space key named short =
    let bs = u16_length space ++ space in
    let bk = u16_length key ++ key in
    let fs : length bs < u64_mod = omega (
      arith,
      length-append (u16_length space) space,
      length-to_be_bytes 2 (length space % u16_mod),
    ) in
    let fk : length bk < u64_mod =
      omega
        (arith, length-append (u16_length key) key, length-to_be_bytes 2 (length key % u16_mod)) in
    let (space_len, at_space) = length-At fs space space named.0 (At-all bs) in
    let (key_len, at_key) = length-At fk key key short (At-all bk) in
    (
      rw (
        le→ltb (length bs) 2 (omega (arith, At-length at_space)),
        space_len,
        le→ltb (length bs) (2 + length space) (omega (arith, At-length at_space)),
        slice-At at_space,
        named.1,
      ),
      rw (
        le→ltb (length bk) 2 (omega (arith, At-length at_key)),
        key_len,
        le→ltb (length bk) (2 + length key) (omega (arith, At-length at_key)),
        slice-At at_key,
      ),
    )

read_u64-all : (v : ℕ) → v < u64_mod → read_u64_be (to_be_bytes 8 v) 0 ≡ ok v
read_u64-all v h =
    read_u64_be-At v (At-all (to_be_bytes 8 v)) (omega (arith, length-to_be_bytes 8 v)) h

-- The bodies of one word read back: a count and search identifiers below 2^64, and a status.
pub decode_words-encode :
    (count : CountResponse) (next : SearchContinueRequest) (done : SearchDoneResponse)
    (status : AtomicResponse)
    → count.count < u64_mod
    → next.search_id < u64_mod
    → done.search_id < u64_mod
    → (decode_count_response (encode_count_response count) ≡ ok count)
      × (decode_search_continue_request (encode_search_continue_request next) ≡ ok next)
      × (decode_search_done_response (encode_search_done_response done) ≡ ok done)
      × (decode_atomic_response (encode_atomic_response status) ≡ ok status)
unfolding decode_count_response encode_count_response decode_search_continue_request
    encode_search_continue_request decode_search_done_response encode_search_done_response
    decode_atomic_response encode_atomic_response
decode_words-encode count next done status hc hn hd = (
  rw (
    le→ltb (length (to_be_bytes 8 count.count)) 8 (omega (arith, length-to_be_bytes 8 count.count)),
    read_u64-all count.count hc,
  ),
  rw (
    le→ltb (length (to_be_bytes 8 next.search_id)) 8
        (omega (arith, length-to_be_bytes 8 next.search_id)),
    read_u64-all next.search_id hn,
  ),
  rw (
    le→ltb (length (to_be_bytes 8 done.search_id)) 8
        (omega (arith, length-to_be_bytes 8 done.search_id)),
    read_u64-all done.search_id hd,
  ),
  rw (
    le→ltb (length (to_be_bytes 2 (return_code status.status))) 2
        (omega (arith, length-to_be_bytes 2 (return_code status.status))),
    read_u16_be-At (return_code status.status) (At-all (to_be_bytes 2 (return_code status.status)))
        (omega (arith, length-to_be_bytes 2 (return_code status.status)))
        (return_code-lt status.status),
    decode_return_code-code status.status,
  ),
)
