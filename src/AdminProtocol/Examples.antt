-- ===== src/AdminProtocol/Examples.antt =====
-- Worked runs of the admin protocol.
use hyperdex_rs.Prelude.{
  ℕ, ◌+◌, ◌<◌, ◌≤◌, ◌≡◌, ◌↔◌, refl, List, [], ◌∷◌, ◌++◌, All, arith, length, some, true, bit_and,
  none,
}
use hyperdex_rs.Prelude.{Result, ok, err, panic, ◌>>=◌, Returns, Ensures}
use hyperdex_rs.Prelude.Words.{u64_mod}
use hyperdex_rs.Prelude.Utf8.{is_utf8}
use hyperdex_rs.DataModel.Space.{Space, SchemaFormat}
use hyperdex_rs.LegacyProtocol.Varint.{decode_varint}
use hyperdex_rs.AdminProtocol.Codes.{
  AdminError, buffer_too_short, ReplicantReturnCode, ReplicantNetworkMsgtype, encode_msgtype,
}
use hyperdex_rs.AdminProtocol.Varint.{decode_varint_u64, value_of, decode_varint_u64-decode_varint}
use hyperdex_rs.AdminProtocol.Frame.{
  BusyBeeFrame, new_frame, identify_frame, encode_frame, decode_frame, encode_stream, decode_stream,
  max_busybee_frame_size, busybee_header_extended,
}
use hyperdex_rs.AdminProtocol.Frame.Single.{IsFrame, IsShort, decode_frame-encode_iff}
use hyperdex_rs.AdminProtocol.Frame.Stream.{decode_stream-encode_stream, decode_stream-Returns}
use hyperdex_rs.AdminProtocol.Request.{encode_request, decode_request, space_rm, wait_until_stable}
use hyperdex_rs.AdminProtocol.Request.RoundTrip.{decode_request-encode}
use hyperdex_rs.AdminProtocol.Completion.{
  ReplicantCallCompletion, ReplicantConditionCompletion, ReplicantRobustParams,
  encode_call_completion, decode_call_completion, encode_condition_completion,
  decode_condition_completion, encode_robust_params, decode_robust_params,
}
use hyperdex_rs.AdminProtocol.Completion.RoundTrip.{
  IsConditionCompletion, IsRobustParams, decode_completion-encode,
}
use hyperdex_rs.AdminProtocol.Bootstrap.{
  SocketAddr, ReplicantBootstrapServer, ReplicantBootstrapConfiguration, ReplicantBootstrapResponse,
  encode_server, encode_bootstrap, decode_bootstrap,
}
use hyperdex_rs.AdminProtocol.Bootstrap.RoundTrip.{
  IsServer, IsConfiguration, decode_bootstrap-encode,
}
use hyperdex_rs.AdminProtocol.Bootstrap.Panic.{announced, decode_bootstrap_panics}
use hyperdex_rs.AdminProtocol.PackedSpace.{decode_packed_hyperdex_space}
use hyperdex_rs.AdminProtocol.Coordinator
use hyperdex_rs.AdminProtocol.Coordinator.{into_coordinator_request}
use hyperdex_rs.AdminProtocol.Coordinator.Wire.{
  IsSound, into_coordinator_request-sent, receive-Ensures,
}

abbrev three_hundred : List ℕ
three_hundred = 172 ∷ 2 ∷ []

decode_varint_u64-decode_varint_example :
    value_of (decode_varint_u64 three_hundred) ≡ value_of (decode_varint three_hundred)
decode_varint_u64-decode_varint_example = decode_varint_u64-decode_varint three_hundred

-- A frame that identifies its sender
abbrev hello : BusyBeeFrame
hello = identify_frame (1 ∷ 2 ∷ [])

hello-IsFrame : IsFrame hello
hello-IsFrame = record { word = omega arith; apart = omega arith; size = omega arith }

hello_bytes : encode_frame hello ≡ ok (128 ∷ 0 ∷ 0 ∷ 6 ∷ 1 ∷ 2 ∷ [])
unfolding encode_frame hyperdex_rs.Prelude.Words.to_be_bytes
hello_bytes = refl

decode_frame-encode_iff_example : ((encode_frame hello >>= decode_frame) ≡ ok hello) ↔ (
    (4 + length hello.payload ≤ max_busybee_frame_size)
    × (bit_and hello.flags busybee_header_extended ≡ 0))
decode_frame-encode_iff_example = decode_frame-encode_iff hello hello-IsFrame

hello-IsShort : IsShort hello
hello-IsShort = record { frame_ok = hello-IsFrame; bounded = omega arith; plain = refl }

abbrev follow : BusyBeeFrame
follow = new_frame (28 ∷ [])

follow-IsShort : IsShort follow
follow-IsShort = record {
  frame_ok = record { word = omega arith; apart = omega arith; size = omega arith };
  bounded = omega arith;
  plain = refl;
}

decode_stream-encode_stream_example :
    (encode_stream (hello ∷ follow ∷ []) >>= decode_stream) ≡ ok (hello ∷ follow ∷ [])
decode_stream-encode_stream_example =
    decode_stream-encode_stream (hello ∷ follow ∷ []) (hello-IsShort, (follow-IsShort, tt))

-- Half a header
decode_stream-Returns_example : Returns (decode_stream (0 ∷ 0 ∷ []))
decode_stream-Returns_example = decode_stream-Returns (0 ∷ 0 ∷ [])

abbrev name : List ℕ
name = 115 ∷ []

remove_fits : length (encode_request (space_rm 7 name)) < u64_mod
unfolding encode_request hyperdex_rs.Prelude.Words.to_be_bytes
    hyperdex_rs.LegacyProtocol.Varint.encode_varint
remove_fits = omega arith

wait_fits : length (encode_request (wait_until_stable 7 3)) < u64_mod
unfolding encode_request hyperdex_rs.Prelude.Words.to_be_bytes
    hyperdex_rs.LegacyProtocol.Varint.encode_varint
wait_fits = omega arith

name_text : is_utf8 name ≡ true
unfolding is_utf8
name_text = refl

decode_request-encode_example :
    decode_request (encode_request (space_rm 7 name)) ≡ ok (space_rm 7 name)
decode_request-encode_example = decode_request-encode (space_rm 7 name) (omega arith) remove_fits

into_coordinator_request-sent_example :
    ((decode_request (encode_request (space_rm 7 name)) >>= into_coordinator_request)
      ≡ ok (Coordinator.space_rm name))
    × ((decode_request (encode_request (wait_until_stable 7 3)) >>= into_coordinator_request)
        ≡ ok Coordinator.wait_until_stable)
into_coordinator_request-sent_example =
    into_coordinator_request-sent 7 3 name (omega arith) (omega arith) name_text remove_fits
      wait_fits

receive-Ensures_example :
    Ensures IsSound (decode_request (70 ∷ 0 ∷ []) >>= into_coordinator_request)
receive-Ensures_example = receive-Ensures (70 ∷ 0 ∷ [])

abbrev called : ReplicantCallCompletion
called = record { nonce = 7; status = ReplicantReturnCode.success; output = 34 ∷ 128 ∷ [] }

abbrev waited : ReplicantConditionCompletion
waited = record { nonce = 8; status = ReplicantReturnCode.timeout; state = 3; payload = [] }

abbrev params : ReplicantRobustParams
params = record { nonce = 9; command_nonce = 10; min_slot = 11 }

waited-IsConditionCompletion : IsConditionCompletion waited
waited-IsConditionCompletion = record { nonce = omega arith; state = omega arith }

params-IsRobustParams : IsRobustParams params
params-IsRobustParams = record {
  nonce = omega arith;
  command_nonce = omega arith;
  min_slot = omega arith;
}

called_fits : length (encode_call_completion called) < u64_mod
unfolding encode_call_completion hyperdex_rs.Prelude.Words.to_be_bytes
    hyperdex_rs.LegacyProtocol.Varint.encode_varint
called_fits = omega arith

waited_fits : length (encode_condition_completion waited) < u64_mod
unfolding encode_condition_completion hyperdex_rs.Prelude.Words.to_be_bytes
    hyperdex_rs.AdminProtocol.Codes.encode_replicant_code
    hyperdex_rs.AdminProtocol.Read.encode_varint_slice
    hyperdex_rs.LegacyProtocol.Varint.encode_varint
waited_fits = omega arith

decode_completion-encode_example :
    (decode_call_completion (encode_call_completion called) ≡ ok called)
    × (decode_condition_completion (encode_condition_completion waited) ≡ ok waited)
    × (decode_robust_params (encode_robust_params params) ≡ ok params)
decode_completion-encode_example =
    decode_completion-encode called waited params (omega arith) waited-IsConditionCompletion
      params-IsRobustParams called_fits waited_fits

abbrev server : ReplicantBootstrapServer
server = record { id = 1; address = SocketAddr.v4 (127 ∷ 0 ∷ 0 ∷ 1 ∷ []) 1982 }

server-IsServer : IsServer server
server-IsServer = record { id = omega arith; address = (refl, omega arith) }

abbrev configuration : ReplicantBootstrapConfiguration
configuration = record { cluster_id = 5; version = 1; first_slot = 1; servers = server ∷ [] }

configuration-IsConfiguration : IsConfiguration configuration
configuration-IsConfiguration = record {
  cluster_id = omega arith;
  version = omega arith;
  first_slot = omega arith;
  servers = (server-IsServer, tt);
  servers_len = omega arith;
}

abbrev response : ReplicantBootstrapResponse
response = record { server = server; configuration = configuration }

response_fits : length (encode_bootstrap response) < u64_mod
unfolding encode_bootstrap encode_server hyperdex_rs.Prelude.Words.to_be_bytes
    hyperdex_rs.AdminProtocol.Bootstrap.encode_socket_addr
    hyperdex_rs.AdminProtocol.Bootstrap.encode_configuration
    hyperdex_rs.AdminProtocol.Varint.encode_varint_u64
    hyperdex_rs.LegacyProtocol.Varint.encode_varint hyperdex_rs.Prelude.Decoders.encode_many
response_fits = omega arith

decode_bootstrap-encode_example : decode_bootstrap 40 (encode_bootstrap response) ≡ ok response
decode_bootstrap-encode_example =
    decode_bootstrap-encode 40 response server-IsServer configuration-IsConfiguration response_fits
      (omega arith)

abbrev many_servers : List ℕ
many_servers =
    encode_msgtype ReplicantNetworkMsgtype.bootstrap
    ∷ (encode_server server ++ (announced 5 1 1 0x8000_0000_0000_0000 ++ []))

many_servers_fit : length many_servers < u64_mod
unfolding encode_server hyperdex_rs.Prelude.Words.to_be_bytes
    hyperdex_rs.AdminProtocol.Bootstrap.encode_socket_addr
    hyperdex_rs.AdminProtocol.Varint.encode_varint_u64
    hyperdex_rs.LegacyProtocol.Varint.encode_varint
many_servers_fit = omega arith

decode_bootstrap_panics_example : decode_bootstrap 40 many_servers ≡ panic
decode_bootstrap_panics_example =
    decode_bootstrap_panics 40 server 5 1 1 0x8000_0000_0000_0000 [] (omega arith) server-IsServer
      (omega arith) (omega arith) (omega arith) (omega arith) (omega arith) many_servers_fit

-- A packed space with a key and no further attribute, and the default number of partitions
abbrev packed : List ℕ
packed =
    0 ∷ 0 ∷ 0 ∷ 0 ∷ 0 ∷ 0 ∷ 0 ∷ 1 ∷ 1 ∷ 115 ∷ 0 ∷ 0 ∷ 0 ∷ 0 ∷ 0 ∷ 0 ∷ 0 ∷ 2 ∷ 0 ∷ 1 ∷ 0 ∷ 0 ∷ 0 ∷ 0
    ∷ 1 ∷ 107 ∷ 36 ∷ 1 ∷ []

abbrev unpacked : Space
unpacked = record {
  name = 115 ∷ [];
  key_attribute = 107 ∷ [];
  attributes = [];
  subspaces = [];
  options = record {
    fault_tolerance = 2;
    partitions = 64;
    schema_format = SchemaFormat.hyper_dex_dsl;
  };
}

packed_space : decode_packed_hyperdex_space packed ≡ ok unpacked
unfolding decode_packed_hyperdex_space hyperdex_rs.AdminProtocol.PackedSpace.read_word
    hyperdex_rs.AdminProtocol.PackedSpace.read_exact hyperdex_rs.Prelude.Slices.slice
    hyperdex_rs.AdminProtocol.PackedSpace.read_slice_array
    hyperdex_rs.AdminProtocol.PackedSpace.read_string
    hyperdex_rs.AdminProtocol.PackedSpace.read_slice
    hyperdex_rs.AdminProtocol.Read.decode_varint_u64_at hyperdex_rs.Prelude.Utf8.from_utf8 is_utf8
    hyperdex_rs.Prelude.Decoders.decode_many hyperdex_rs.Prelude.Words.from_be_bytes
    hyperdex_rs.AdminProtocol.PackedSpace.decode_packed_attribute
    hyperdex_rs.AdminProtocol.PackedSpace.check_key
    hyperdex_rs.AdminProtocol.PackedSpace.decode_packed_subspaces
    hyperdex_rs.AdminProtocol.Read.expect_consumed hyperdex_rs.AdminProtocol.PackedSpace.build_space
    hyperdex_rs.AdminProtocol.PackedSpace.attribute_definitions
    hyperdex_rs.AdminProtocol.PackedSpace.rust_subspaces
    hyperdex_rs.AdminProtocol.PackedSpace.partitions_or_default
packed_space = refl
