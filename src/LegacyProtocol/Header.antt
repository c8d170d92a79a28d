-- ===== src/LegacyProtocol/Header.antt =====
-- The fixed headers and the BusyBee frames of crates/legacy-protocol/src/lib.rs. A frame begins with
-- a word that holds its length; the top bit marks the frame that identifies the peers.
pub mod RoundTrip
use hyperdex_rs.Prelude.{ℕ, ◌+◌, ◌*◌, ◌%◌, List, [], ◌∷◌, ◌++◌, bit_or, ltb, length, drop}
use hyperdex_rs.Prelude.{Result, ok, fail_if, ◌>>=◌, ◌>>◌}
use hyperdex_rs.Prelude.Words.{u32_mod, to_be_bytes}
use hyperdex_rs.Prelude.Slices.{index}
use hyperdex_rs.LegacyProtocol.Codes.{
  LegacyProtocolError, LegacyMessageType, short_buffer, message_type_code, decode_message_type,
}
use hyperdex_rs.LegacyProtocol.Read.{read_u64_be}

abbrev pub busybee_header_size : ℕ
busybee_header_size = 4

abbrev pub busybee_header_identify : ℕ
busybee_header_identify = 0x8000_0000

abbrev pub max_busybee_frame_size : ℕ
max_busybee_frame_size = 8 * 1024 * 1024

abbrev pub legacy_request_header_size : ℕ
legacy_request_header_size = busybee_header_size + 1 + 1 + 8 + 8 + 8

abbrev pub legacy_response_header_size : ℕ
legacy_response_header_size = busybee_header_size + 1 + 8 + 8

pub record RequestHeader : Type 0 where
  pub message_type : LegacyMessageType
  pub flags : ℕ
  pub version : ℕ
  pub target_virtual_server : ℕ
  pub nonce : ℕ

pub record ResponseHeader : Type 0 where
  pub message_type : LegacyMessageType
  pub target_virtual_server : ℕ
  pub nonce : ℕ

-- The array of zeros, with every field written at its place; the first four bytes stay zero.
unfoldable pub encode_request_header : RequestHeader → List ℕ
encode_request_header header =
    to_be_bytes 4 0
    ++ (message_type_code header.message_type
        ∷ header.flags
        ∷ (to_be_bytes 8 header.version
            ++ (to_be_bytes 8 header.target_virtual_server ++ to_be_bytes 8 header.nonce)))

unfoldable pub decode_request_header : List ℕ → Result RequestHeader LegacyProtocolError
decode_request_header bytes = do
  fail_if (ltb (length bytes) legacy_request_header_size) short_buffer
  code ← index bytes busybee_header_size
  message_type ← decode_message_type code
  flags ← index bytes (busybee_header_size + 1)
  version ← read_u64_be bytes (busybee_header_size + 2)
  target_virtual_server ← read_u64_be bytes (busybee_header_size + 10)
  nonce ← read_u64_be bytes (busybee_header_size + 18)
  ok (record {
    message_type = message_type;
    flags = flags;
    version = version;
    target_virtual_server = target_virtual_server;
    nonce = nonce;
  })

unfoldable pub encode_response_header : ResponseHeader → List ℕ
encode_response_header header =
    to_be_bytes 4 0
    ++ (message_type_code header.message_type
        ∷ (to_be_bytes 8 header.target_virtual_server ++ to_be_bytes 8 header.nonce))

unfoldable pub decode_response_header : List ℕ → Result ResponseHeader LegacyProtocolError
decode_response_header bytes = do
  fail_if (ltb (length bytes) legacy_response_header_size) short_buffer
  code ← index bytes busybee_header_size
  message_type ← decode_message_type code
  target_virtual_server ← read_u64_be bytes (busybee_header_size + 1)
  nonce ← read_u64_be bytes (busybee_header_size + 9)
  ok (record {
    message_type = message_type;
    target_virtual_server = target_virtual_server;
    nonce = nonce;
  })

unfoldable pub config_mismatch_response : RequestHeader → ResponseHeader
config_mismatch_response request = record {
  message_type = LegacyMessageType.config_mismatch;
  target_virtual_server = request.target_virtual_server;
  nonce = request.nonce;
}

-- Both headers have at least four bytes, so `head[..BUSYBEE_HEADER_SIZE]` is in range.
unfoldable pub encode_frame : List ℕ → List ℕ → List ℕ
encode_frame head body =
    let total_len = (length head + length body) % u32_mod in
    to_be_bytes 4 total_len ++ (drop busybee_header_size head ++ body)

unfoldable pub encode_request_frame : RequestHeader → List ℕ → List ℕ
encode_request_frame header body = encode_frame (encode_request_header header) body

unfoldable pub encode_response_frame : ResponseHeader → List ℕ → List ℕ
encode_response_frame header body = encode_frame (encode_response_header header) body

abbrev pub identify_frame_size : ℕ
identify_frame_size = busybee_header_size + 2 * 8

unfoldable pub encode_identify_frame : ℕ → ℕ → List ℕ
encode_identify_frame local_server_id remote_server_id =
    to_be_bytes 4 (bit_or busybee_header_identify (identify_frame_size % u32_mod))
    ++ (to_be_bytes 8 local_server_id ++ to_be_bytes 8 remote_server_id)
