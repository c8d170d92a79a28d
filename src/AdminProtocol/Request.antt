-- ===== src/AdminProtocol/Request.antt =====
-- `ReplicantAdminRequestMessage` of crates/hyperdex-admin-protocol/src/lib.rs.
pub mod RoundTrip
pub mod Safety
use hyperdex_rs.Prelude.{ℕ, List, [], ◌∷◌, ◌++◌}
use hyperdex_rs.Prelude.{Result, ok, err, ◌>>=◌, ◌>>◌, Ensures}
use hyperdex_rs.Prelude.Words.{to_be_bytes}
use hyperdex_rs.Prelude.Slices.{index}
use hyperdex_rs.AdminProtocol.Codes.{
  AdminError, empty_message, unexpected_msgtype, ReplicantNetworkMsgtype, encode_msgtype,
  decode_msgtype,
}
use hyperdex_rs.AdminProtocol.Read.{
  decode_u64_be, encode_varint_slice, decode_varint_slice_at, expect_consumed,
}

pub data ReplicantAdminRequestMessage : Type 0 where
  get_robust_params : (nonce : ℕ) → ReplicantAdminRequestMessage
  cond_wait : (nonce : ℕ) (object condition : List ℕ) (state : ℕ) → ReplicantAdminRequestMessage
  call : (nonce : ℕ) (object function input : List ℕ) → ReplicantAdminRequestMessage
  call_robust :
      (nonce command_nonce min_slot : ℕ) (object function input : List ℕ)
      → ReplicantAdminRequestMessage

-- b"hyperdex", b"config", b"stable", b"space_add" and b"space_rm"
abbrev pub replicant_object_hyperdex : List ℕ
replicant_object_hyperdex = 104 ∷ 121 ∷ 112 ∷ 101 ∷ 114 ∷ 100 ∷ 101 ∷ 120 ∷ []

abbrev pub replicant_condition_config : List ℕ
replicant_condition_config = 99 ∷ 111 ∷ 110 ∷ 102 ∷ 105 ∷ 103 ∷ []

abbrev pub replicant_condition_stable : List ℕ
replicant_condition_stable = 115 ∷ 116 ∷ 97 ∷ 98 ∷ 108 ∷ 101 ∷ []

abbrev pub replicant_function_space_add : List ℕ
replicant_function_space_add = 115 ∷ 112 ∷ 97 ∷ 99 ∷ 101 ∷ 95 ∷ 97 ∷ 100 ∷ 100 ∷ []

abbrev pub replicant_function_space_rm : List ℕ
replicant_function_space_rm = 115 ∷ 112 ∷ 97 ∷ 99 ∷ 101 ∷ 95 ∷ 114 ∷ 109 ∷ []

abbrev pub wait_until_stable : ℕ → ℕ → ReplicantAdminRequestMessage
wait_until_stable nonce state =
    cond_wait nonce replicant_object_hyperdex replicant_condition_stable state

abbrev pub space_add : ℕ → List ℕ → ReplicantAdminRequestMessage
space_add nonce encoded_space =
    call nonce replicant_object_hyperdex replicant_function_space_add encoded_space

abbrev pub space_rm : ℕ → List ℕ → ReplicantAdminRequestMessage
space_rm nonce space_name =
    call nonce replicant_object_hyperdex replicant_function_space_rm (space_name ++ (0 ∷ []))

abbrev pub request_nonce : ReplicantAdminRequestMessage → ℕ
request_nonce (get_robust_params nonce) = nonce
request_nonce (cond_wait nonce object condition state) = nonce
request_nonce (call nonce object function input) = nonce
request_nonce (call_robust nonce command_nonce min_slot object function input) = nonce

-- The encoder always gives `Ok`.
unfoldable pub encode_request : ReplicantAdminRequestMessage → List ℕ
unfolding encode_msgtype encode_varint_slice
encode_request (get_robust_params nonce) =
    encode_msgtype ReplicantNetworkMsgtype.get_robust_params ∷ to_be_bytes 8 nonce
encode_request (cond_wait nonce object condition state) =
    encode_msgtype ReplicantNetworkMsgtype.cond_wait
    ∷ (to_be_bytes 8 nonce
        ++ (encode_varint_slice object ++ (encode_varint_slice condition ++ to_be_bytes 8 state)))
encode_request (call nonce object function input) =
    encode_msgtype ReplicantNetworkMsgtype.call
    ∷ (to_be_bytes 8 nonce
        ++ (encode_varint_slice object
            ++ (encode_varint_slice function ++ encode_varint_slice input)))
encode_request (call_robust nonce command_nonce min_slot object function input) =
    encode_msgtype ReplicantNetworkMsgtype.call_robust
    ∷ (to_be_bytes 8 nonce
        ++ (to_be_bytes 8 command_nonce
            ++ (to_be_bytes 8 min_slot
                ++ (encode_varint_slice object
                    ++ (encode_varint_slice function ++ encode_varint_slice input)))))

-- The fields behind the message type, an arm of the decoder's `match` each.
unfoldable pub decode_get_robust_params : List ℕ → Result ReplicantAdminRequestMessage AdminError
unfolding decode_u64_be expect_consumed
decode_get_robust_params bytes = do
  (nonce, cursor) ← decode_u64_be bytes 1
  expect_consumed bytes cursor
  ok (get_robust_params nonce)

unfoldable pub decode_cond_wait : List ℕ → Result ReplicantAdminRequestMessage AdminError
unfolding decode_u64_be decode_varint_slice_at expect_consumed
decode_cond_wait bytes = do
  (nonce, c1) ← decode_u64_be bytes 1
  (object, c2) ← decode_varint_slice_at bytes c1
  (condition, c3) ← decode_varint_slice_at bytes c2
  (state, c4) ← decode_u64_be bytes c3
  expect_consumed bytes c4
  ok (cond_wait nonce object condition state)

unfoldable pub decode_call : List ℕ → Result ReplicantAdminRequestMessage AdminError
unfolding decode_u64_be decode_varint_slice_at expect_consumed
decode_call bytes = do
  (nonce, c1) ← decode_u64_be bytes 1
  (object, c2) ← decode_varint_slice_at bytes c1
  (function, c3) ← decode_varint_slice_at bytes c2
  (input, c4) ← decode_varint_slice_at bytes c3
  expect_consumed bytes c4
  ok (call nonce object function input)

unfoldable pub decode_call_robust : List ℕ → Result ReplicantAdminRequestMessage AdminError
unfolding decode_u64_be decode_varint_slice_at expect_consumed
decode_call_robust bytes = do
  (nonce, c1) ← decode_u64_be bytes 1
  (command_nonce, c2) ← decode_u64_be bytes c1
  (min_slot, c3) ← decode_u64_be bytes c2
  (object, c4) ← decode_varint_slice_at bytes c3
  (function, c5) ← decode_varint_slice_at bytes c4
  (input, c6) ← decode_varint_slice_at bytes c5
  expect_consumed bytes c6
  ok (call_robust nonce command_nonce min_slot object function input)

unfoldable pub decode_request_arm :
    ReplicantNetworkMsgtype → List ℕ → Result ReplicantAdminRequestMessage AdminError
unfolding decode_get_robust_params decode_cond_wait decode_call decode_call_robust
decode_request_arm ReplicantNetworkMsgtype.get_robust_params bytes = decode_get_robust_params bytes
decode_request_arm ReplicantNetworkMsgtype.cond_wait bytes = decode_cond_wait bytes
decode_request_arm ReplicantNetworkMsgtype.call bytes = decode_call bytes
decode_request_arm ReplicantNetworkMsgtype.call_robust bytes = decode_call_robust bytes
decode_request_arm _ bytes = err unexpected_msgtype

-- An empty buffer is refused before its first byte is read.
unfoldable pub first_msgtype : List ℕ → Result ReplicantNetworkMsgtype AdminError
unfolding decode_msgtype
first_msgtype [] = err empty_message
first_msgtype (b ∷ bytes) = decode_msgtype b

unfoldable pub decode_request : List ℕ → Result ReplicantAdminRequestMessage AdminError
unfolding first_msgtype decode_request_arm
decode_request bytes = do msgtype ← first_msgtype bytes; decode_request_arm msgtype bytes
