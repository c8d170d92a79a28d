-- ===== src/LegacyFrontend/Examples.antt =====
-- Worked runs of the frontend.
use hyperdex_rs.Prelude.{ℕ, ◌≡◌, ◌≢◌, refl, List, [], ◌∷◌, ◌++◌, none, some, arith}
use hyperdex_rs.Prelude.{ok}
use hyperdex_rs.Prelude.Words.{to_be_bytes}
use hyperdex_rs.LegacyProtocol.Codes.{LegacyMessageType}
use hyperdex_rs.LegacyProtocol.Header.{
  RequestHeader, ResponseHeader, config_mismatch_response, encode_request_frame,
  encode_response_frame, encode_identify_frame,
}
use hyperdex_rs.LegacyProtocol.Header.RoundTrip.{IsRequestHeader, IsResponseHeader}
use hyperdex_rs.LegacyFrontend.{
  Connection, read_request_frame, read_response_frame, mismatch_handler, serve_connection_with,
}
use hyperdex_rs.LegacyFrontend.Read.{
  read_request_frame-request, read_response_frame-encode, read_request_frame-identify,
}
use hyperdex_rs.LegacyFrontend.Serve.{
  IsRequest, Answers, requests_bytes, responses_bytes, serve_connection_with-ne-none,
  serve_connection_with_in_order,
}

abbrev header : RequestHeader
header = record {
  message_type = LegacyMessageType.req_get;
  flags = 0;
  version = 1;
  target_virtual_server = 4;
  nonce = 77;
}

abbrev body : List ℕ
body = 3 ∷ 97 ∷ 98 ∷ 99 ∷ []

header-IsRequestHeader : IsRequestHeader header
header-IsRequestHeader = record {
  flags = omega arith;
  version = omega arith;
  target_virtual_server = omega arith;
  nonce = omega arith;
}

read_request_frame-request_example :
    read_request_frame 3 5
      (record { input = encode_request_frame header body ++ 1 ∷ []; output = 2 ∷ [] })
    ≡ some (
      ok (some (header, to_be_bytes 8 header.nonce ++ body)),
      record { input = 1 ∷ []; output = 2 ∷ [] },
    )
read_request_frame-request_example =
    read_request_frame-request header body header-IsRequestHeader (omega arith) 2 5 (1 ∷ [])
      (2 ∷ [])

abbrev response : ResponseHeader
response = record {
  message_type = LegacyMessageType.resp_get;
  target_virtual_server = 4;
  nonce = 77;
}

response-IsResponseHeader : IsResponseHeader response
response-IsResponseHeader = record { target_virtual_server = omega arith; nonce = omega arith }

read_response_frame-encode_example :
    read_response_frame (encode_response_frame response body ++ 1 ∷ []) ≡ ok (response, body)
read_response_frame-encode_example =
    read_response_frame-encode response body (1 ∷ []) response-IsResponseHeader (omega arith)

read_request_frame-identify_example :
    read_request_frame 3 5 (record { input = encode_identify_frame 6 9 ++ 1 ∷ []; output = [] })
    ≡ read_request_frame 2 5 (record { input = 1 ∷ []; output = [] ++ encode_identify_frame 5 9 })
read_request_frame-identify_example = read_request_frame-identify 2 5 6 9 (1 ∷ []) [] (omega arith)

-- Three bytes of a length word
abbrev cut : Connection
cut = record { input = 0 ∷ 0 ∷ 0 ∷ []; output = [] }

serve_connection_with-ne-none_example : serve_connection_with mismatch_handler 4 5 tt cut ≢ none
serve_connection_with-ne-none_example =
    serve_connection_with-ne-none mismatch_handler 4 5 tt cut (omega arith)

abbrev requests : List (RequestHeader × List ℕ)
requests = (header, body) ∷ (header, []) ∷ []

abbrev responses : List (ResponseHeader × List ℕ)
responses = (config_mismatch_response header, []) ∷ (config_mismatch_response header, []) ∷ []

header-IsRequest : IsRequest (header, body)
header-IsRequest = record { header = header-IsRequestHeader; fits = omega arith }

empty-IsRequest : IsRequest (header, [])
empty-IsRequest = record { header = header-IsRequestHeader; fits = omega arith }

answers : Answers mismatch_handler tt requests responses tt
answers =
    Answers.cons tt tt tt header body ((header, []) ∷ []) (config_mismatch_response header) []
      ((config_mismatch_response header, []) ∷ []) refl
      (Answers.cons tt tt tt header [] [] (config_mismatch_response header) [] [] refl
        (Answers.nil tt))

serve_connection_with_in_order_example :
    serve_connection_with mismatch_handler 3 5 tt
      (record { input = requests_bytes requests; output = [] })
    ≡ some (ok tt, tt, record { input = []; output = [] ++ responses_bytes responses })
serve_connection_with_in_order_example =
    serve_connection_with_in_order mismatch_handler 3 5 tt tt requests responses []
      (header-IsRequest, (empty-IsRequest, tt)) answers (omega arith)
