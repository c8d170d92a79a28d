-- ===== src/LegacyProtocol/Examples.antt =====
-- Worked runs of the codes, the varints and the headers.
use hyperdex_rs.Prelude.{ℕ, ◌≡◌, ◌↔◌, refl, List, [], ◌∷◌, arith}
use hyperdex_rs.Prelude.{ok}
use hyperdex_rs.LegacyProtocol.Codes.{
  LegacyMessageType, LegacyReturnCode, LegacyPredicate, LegacyFuncallName, message_type_code,
  return_code, predicate_code, funcall_code, decode_message_type, decode_return_code,
  decode_predicate, decode_funcall_name,
}
use hyperdex_rs.LegacyProtocol.Codes.Exact.{codes_exact}
use hyperdex_rs.LegacyProtocol.Varint.{encode_varint}
use hyperdex_rs.LegacyProtocol.Header.{RequestHeader, ResponseHeader}
use hyperdex_rs.LegacyProtocol.Header.RoundTrip.{IsRequestHeader, IsResponseHeader}

three_hundred : encode_varint 300 ≡ 172 ∷ 2 ∷ []
unfolding encode_varint
three_hundred = refl

codes_exact_example :
    ((decode_message_type 8 ≡ ok LegacyMessageType.req_get)
      ↔ (8 ≡ message_type_code LegacyMessageType.req_get))
    × ((decode_return_code 8 ≡ ok LegacyReturnCode.success)
        ↔ (8 ≡ return_code LegacyReturnCode.success))
    × ((decode_predicate 8 ≡ ok LegacyPredicate.equal) ↔ (8 ≡ predicate_code LegacyPredicate.equal))
    × ((decode_funcall_name 8 ≡ ok LegacyFuncallName.num_mod)
        ↔ (8 ≡ funcall_code LegacyFuncallName.num_mod))
codes_exact_example =
    codes_exact 8 LegacyMessageType.req_get LegacyReturnCode.success LegacyPredicate.equal
      LegacyFuncallName.num_mod

abbrev request : RequestHeader
request = record {
  message_type = LegacyMessageType.req_get;
  flags = 1;
  version = 2;
  target_virtual_server = 300;
  nonce = 77;
}

abbrev response : ResponseHeader
response = record {
  message_type = LegacyMessageType.resp_get;
  target_virtual_server = 300;
  nonce = 77;
}

request-IsRequestHeader : IsRequestHeader request
request-IsRequestHeader = record {
  flags = omega arith;
  version = omega arith;
  target_virtual_server = omega arith;
  nonce = omega arith;
}

response-IsResponseHeader : IsResponseHeader response
response-IsResponseHeader = record { target_virtual_server = omega arith; nonce = omega arith }

abbrev body : List ℕ
body = 1 ∷ 2 ∷ []
