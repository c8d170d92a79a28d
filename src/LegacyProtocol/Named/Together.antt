-- ===== src/LegacyProtocol/Named/Together.antt =====
-- The round trips of the named bodies together, requests and responses.
use hyperdex_rs.Prelude.{ℕ, ◌<◌, ◌≡◌, List, length}
use hyperdex_rs.Prelude.{ok}
use hyperdex_rs.Prelude.Words.{u16_mod}
use hyperdex_rs.LegacyProtocol.Named.Items.{IsName}
use hyperdex_rs.LegacyProtocol.Named.Bodies.{
  SearchStartRequest, SearchItemResponse, GetResponse, encode_count_request, decode_count_request,
  encode_get_request, decode_get_request, encode_search_start_request, decode_search_start_request,
  encode_search_item_response, decode_search_item_response, encode_get_response,
  decode_get_response,
}
use hyperdex_rs.LegacyProtocol.Named.RoundTrip.{
  IsSearchStartRequest, IsSearchItemResponse, IsGetResponse, decode_search_start_request-encode,
  decode_search_item_response-encode, decode_get_response-encode,
}
use hyperdex_rs.LegacyProtocol.Named.SmallBodies.{decode_small_requests-encode}

-- Count, get and search-start requests read back: a space in UTF-8 and a key, both below 2^16 bytes,
-- and a search with its space, identifier and checks, if they fit the widths of their fields, names
-- and strings are UTF-8, and its body is below 2^64 bytes.
pub decode_request_body-encode :
    (space key : List ℕ) (start : SearchStartRequest)
    → IsName space
    → length key < u16_mod
    → IsSearchStartRequest start
    → (decode_count_request (encode_count_request (record { space = space }))
        ≡ ok (record { space = space }))
      × (decode_get_request (encode_get_request (record { key = key })) ≡ ok (record { key = key }))
      × (decode_search_start_request (encode_search_start_request start) ≡ ok start)
decode_request_body-encode space key start named short good =
    let small = decode_small_requests-encode space key named short in
    (small.0, small.1, decode_search_start_request-encode start good)

-- Search items and get responses read back their attributes with the identifier and the key or the
-- status, if they fit the widths of their fields, names and strings are UTF-8, there are fewer than
-- 2^16 attributes, and the bodies are below 2^64 bytes.
pub decode_response_body-encode :
    (item : SearchItemResponse) (response : GetResponse)
    → IsSearchItemResponse item
    → IsGetResponse response
    → (decode_search_item_response (encode_search_item_response item) ≡ ok item)
      × (decode_get_response (encode_get_response response) ≡ ok response)
decode_response_body-encode item response good good' =
    (decode_search_item_response-encode item good, decode_get_response-encode response good')
