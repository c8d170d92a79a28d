-- ===== src/LegacyProtocol/Protocol/Examples.antt =====
-- Worked runs of the binary message bodies.
use hyperdex_rs.LegacyProtocol.Protocol.Bodies.{
  decode_protocol_request-encode, decode_protocol_response-encode,
}
use hyperdex_rs.Prelude.{ℕ, ◌<◌, ◌≡◌, refl, inl, List, [], ◌∷◌, true, false, arith, length, All}
use hyperdex_rs.Prelude.{Result, ok, err, Returns}
use hyperdex_rs.Prelude.Words.{u16_mod, u64_mod}
use hyperdex_rs.LegacyProtocol.Protocol.{ProtocolAttributeCheck, ProtocolFuncall}
use hyperdex_rs.LegacyProtocol.Protocol.Items.{IsCheck, IsFuncall}
use hyperdex_rs.LegacyProtocol.Protocol.Messages.{
  ProtocolKeyChange, ProtocolSearchStart, ProtocolGetResponse, ProtocolSearchItem,
  encode_protocol_get_request, decode_protocol_get_request, encode_protocol_count_request,
  decode_protocol_count_request, encode_protocol_atomic_request, decode_protocol_atomic_request,
  encode_protocol_search_start, decode_protocol_search_start, decode_protocol_search_continue,
  decode_protocol_atomic_response, decode_protocol_count_response, encode_protocol_get_response,
  decode_protocol_get_response, encode_protocol_search_item, decode_protocol_search_item,
}
use hyperdex_rs.LegacyProtocol.Protocol.RoundTrip.{
  IsKeyChange, IsSearchStart, IsGetResponse, decode_protocol_atomic_request-encode,
}
use hyperdex_rs.LegacyProtocol.Protocol.Safety.{decode_protocol-Returns}

abbrev ada : List ℕ
ada = 97 ∷ 100 ∷ 97 ∷ []

abbrev age_check : ProtocolAttributeCheck
age_check = record { attr = 2; value = 36 ∷ []; datatype = 9218; predicate = 9729 }

abbrev set_name : ProtocolFuncall
set_name = record {
  attr = 1;
  name = 1;
  arg1 = ada;
  arg1_datatype = 9217;
  arg2 = [];
  arg2_datatype = 9216;
}

abbrev change : ProtocolKeyChange
change = record {
  key = ada;
  erase = false;
  fail_if_not_found = true;
  fail_if_found = false;
  checks = age_check ∷ [];
  funcalls = set_name ∷ [];
}

age_check-IsCheck : IsCheck age_check
age_check-IsCheck = record { attr = omega arith; datatype = omega arith; predicate = omega arith }

set_name-IsFuncall : IsFuncall set_name
set_name-IsFuncall = record {
  attr = omega arith;
  arg1_datatype = omega arith;
  arg2_datatype = omega arith;
}

change_fits : length (encode_protocol_atomic_request change) < u64_mod
unfolding encode_protocol_atomic_request hyperdex_rs.LegacyProtocol.Protocol.encode_protocol_slice
    hyperdex_rs.LegacyProtocol.Varint.encode_varint
    hyperdex_rs.LegacyProtocol.Protocol.encode_protocol_checks
    hyperdex_rs.LegacyProtocol.Many.encode_many
    hyperdex_rs.LegacyProtocol.Protocol.encode_protocol_check hyperdex_rs.Prelude.Words.to_be_bytes
    hyperdex_rs.LegacyProtocol.Protocol.encode_protocol_funcalls
    hyperdex_rs.LegacyProtocol.Protocol.encode_protocol_funcall
change_fits = omega arith

change-IsKeyChange : IsKeyChange change
change-IsKeyChange = record {
  checks = (age_check-IsCheck, tt);
  funcalls = (set_name-IsFuncall, tt);
  fits = change_fits;
}

decode_protocol_atomic_request-encode_example :
    decode_protocol_atomic_request (encode_protocol_atomic_request change) ≡ ok change
decode_protocol_atomic_request-encode_example =
    decode_protocol_atomic_request-encode change change-IsKeyChange

get_request_fits : length (encode_protocol_get_request ada) < u64_mod
unfolding encode_protocol_get_request hyperdex_rs.LegacyProtocol.Protocol.encode_protocol_slice
    hyperdex_rs.LegacyProtocol.Varint.encode_varint
get_request_fits = omega arith

abbrev checks : List ProtocolAttributeCheck
checks = age_check ∷ age_check ∷ []

count_request_fits : length (encode_protocol_count_request checks) < u64_mod
unfolding encode_protocol_count_request hyperdex_rs.LegacyProtocol.Protocol.encode_protocol_checks
    hyperdex_rs.LegacyProtocol.Varint.encode_varint hyperdex_rs.LegacyProtocol.Many.encode_many
    hyperdex_rs.LegacyProtocol.Protocol.encode_protocol_check hyperdex_rs.Prelude.Words.to_be_bytes
    hyperdex_rs.LegacyProtocol.Protocol.encode_protocol_slice
count_request_fits = omega arith

abbrev start : ProtocolSearchStart
start = record { search_id = 7; checks = checks }

search_start_fits : length (encode_protocol_search_start start) < u64_mod
unfolding encode_protocol_search_start hyperdex_rs.Prelude.Words.to_be_bytes
    hyperdex_rs.LegacyProtocol.Protocol.encode_protocol_checks
    hyperdex_rs.LegacyProtocol.Varint.encode_varint hyperdex_rs.LegacyProtocol.Many.encode_many
    hyperdex_rs.LegacyProtocol.Protocol.encode_protocol_check
    hyperdex_rs.LegacyProtocol.Protocol.encode_protocol_slice
search_start_fits = omega arith

start-IsSearchStart : IsSearchStart start
start-IsSearchStart = record {
  search_id = omega arith;
  checks = (age_check-IsCheck, (age_check-IsCheck, tt));
  fits = search_start_fits;
}

abbrev item : ProtocolSearchItem
item = record { key = ada; values = ada ∷ [] ∷ [] }

search_item_fits : length (encode_protocol_search_item item) < u64_mod
unfolding encode_protocol_search_item hyperdex_rs.LegacyProtocol.Protocol.encode_protocol_slice
    hyperdex_rs.LegacyProtocol.Varint.encode_varint
    hyperdex_rs.LegacyProtocol.Protocol.encode_protocol_slices
    hyperdex_rs.LegacyProtocol.Many.encode_many
search_item_fits = omega arith

abbrev found : ProtocolGetResponse
found = record { status = 8320; values = ada ∷ (36 ∷ []) ∷ [] }

get_response_fits : length (encode_protocol_get_response found) < u64_mod
unfolding encode_protocol_get_response hyperdex_rs.Prelude.Words.to_be_bytes
    hyperdex_rs.LegacyProtocol.Protocol.encode_protocol_slices
    hyperdex_rs.LegacyProtocol.Varint.encode_varint hyperdex_rs.LegacyProtocol.Many.encode_many
    hyperdex_rs.LegacyProtocol.Protocol.encode_protocol_slice
get_response_fits = omega arith

found-IsGetResponse : IsGetResponse found
found-IsGetResponse = record { status = omega arith; values = inl refl; fits = get_response_fits }

decode_protocol_request-encode_example :
    (decode_protocol_get_request (encode_protocol_get_request ada) ≡ ok ada)
    × (decode_protocol_count_request (encode_protocol_count_request checks) ≡ ok checks)
    × (decode_protocol_search_start (encode_protocol_search_start start) ≡ ok start)
decode_protocol_request-encode_example =
    decode_protocol_request-encode ada checks start get_request_fits
      (age_check-IsCheck, (age_check-IsCheck, tt)) count_request_fits start-IsSearchStart

decode_protocol_response-encode_example :
    (decode_protocol_get_response (encode_protocol_get_response found) ≡ ok found)
    × (decode_protocol_search_item (encode_protocol_search_item item) ≡ ok item)
decode_protocol_response-encode_example =
    decode_protocol_response-encode found item found-IsGetResponse search_item_fits

-- A slice that announces more bytes than there are
decode_protocol-Returns_example :
    Returns (decode_protocol_get_request (5 ∷ 1 ∷ []))
    × Returns (decode_protocol_count_request (5 ∷ 1 ∷ []))
    × Returns (decode_protocol_atomic_request (5 ∷ 1 ∷ []))
    × Returns (decode_protocol_search_start (5 ∷ 1 ∷ []))
    × Returns (decode_protocol_search_continue (5 ∷ 1 ∷ []))
    × Returns (decode_protocol_atomic_response (5 ∷ 1 ∷ []))
    × Returns (decode_protocol_count_response (5 ∷ 1 ∷ []))
    × Returns (decode_protocol_get_response (5 ∷ 1 ∷ []))
    × Returns (decode_protocol_search_item (5 ∷ 1 ∷ []))
decode_protocol-Returns_example = decode_protocol-Returns (5 ∷ 1 ∷ [])
