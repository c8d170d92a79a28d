-- ===== src/LegacyProtocol/Protocol/Bodies.antt =====
-- The round trips of the binary bodies together, requests and responses.
use hyperdex_rs.Prelude.{ℕ, ◌<◌, ◌≡◌, List, All, length}
use hyperdex_rs.Prelude.{ok}
use hyperdex_rs.Prelude.Words.{u64_mod}
use hyperdex_rs.LegacyProtocol.Protocol.{ProtocolAttributeCheck}
use hyperdex_rs.LegacyProtocol.Protocol.Items.{IsCheck}
use hyperdex_rs.LegacyProtocol.Protocol.Messages.{
  ProtocolSearchStart, ProtocolSearchItem, ProtocolGetResponse, encode_protocol_get_request,
  decode_protocol_get_request, encode_protocol_count_request, decode_protocol_count_request,
  encode_protocol_search_start, decode_protocol_search_start, encode_protocol_get_response,
  decode_protocol_get_response, encode_protocol_search_item, decode_protocol_search_item,
}
use hyperdex_rs.LegacyProtocol.Protocol.RoundTrip.{
  IsSearchStart, IsGetResponse, decode_protocol_get_request-encode,
  decode_protocol_count_request-encode, decode_protocol_search_start-encode,
  decode_protocol_get_response-encode, decode_protocol_search_item-encode,
}

-- Get, count and search-start requests read back their key, their checks, and their identifier and
-- checks, if the numbers fit the widths of their fields and the bodies are below 2^64 bytes.
pub decode_protocol_request-encode :
    (key : List ℕ) (checks : List ProtocolAttributeCheck) (start : ProtocolSearchStart)
    → length (encode_protocol_get_request key) < u64_mod
    → All IsCheck checks
    → length (encode_protocol_count_request checks) < u64_mod
    → IsSearchStart start
    → (decode_protocol_get_request (encode_protocol_get_request key) ≡ ok key)
      × (decode_protocol_count_request (encode_protocol_count_request checks) ≡ ok checks)
      × (decode_protocol_search_start (encode_protocol_search_start start) ≡ ok start)
decode_protocol_request-encode key checks start small good small' good' = (
  decode_protocol_get_request-encode key small,
  decode_protocol_count_request-encode checks good small',
  decode_protocol_search_start-encode start good',
)

-- A get response reads back its status and its values, if the status fits 16 bits, there are values
-- only with the status for success, and the body is below 2^64 bytes; a search item in a body below
-- 2^64 bytes reads back its key and its values.
pub decode_protocol_response-encode :
    (response : ProtocolGetResponse) (item : ProtocolSearchItem)
    → IsGetResponse response
    → length (encode_protocol_search_item item) < u64_mod
    → (decode_protocol_get_response (encode_protocol_get_response response) ≡ ok response)
      × (decode_protocol_search_item (encode_protocol_search_item item) ≡ ok item)
decode_protocol_response-encode response item good small = (
  decode_protocol_get_response-encode response good,
  decode_protocol_search_item-encode item small,
)
