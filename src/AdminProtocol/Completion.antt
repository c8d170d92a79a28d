-- ===== src/AdminProtocol/Completion.antt =====
-- The responses of crates/hyperdex-admin-protocol/src/lib.rs to a call, to a wait on a condition and
-- to a request for robust parameters.
pub mod RoundTrip
pub mod Safety
use hyperdex_rs.Prelude.{ℕ, ◌-◌, List, ◌∷◌, ◌++◌, length, ◌==◌, not, Bool, true, false}
use hyperdex_rs.Prelude.{Result, ok, ◌>>=◌, ◌>>◌, fail_if}
use hyperdex_rs.Prelude.Words.{to_be_bytes}
use hyperdex_rs.AdminProtocol.Codes.{
  AdminError, unexpected_msgtype, robust_params_size, ReplicantNetworkMsgtype, encode_msgtype,
  ReplicantReturnCode, encode_replicant_code,
}
use hyperdex_rs.AdminProtocol.Read.{
  decode_u64_be, encode_varint_slice, decode_varint_slice_at, decode_return_code_at,
  expect_consumed,
}
use hyperdex_rs.AdminProtocol.Request.{first_msgtype}

pub record ReplicantCallCompletion : Type 0 where
  pub nonce : ℕ
  pub status : ReplicantReturnCode
  pub output : List ℕ

pub record ReplicantConditionCompletion : Type 0 where
  pub nonce : ℕ
  pub status : ReplicantReturnCode
  pub state : ℕ
  pub payload : List ℕ

pub record ReplicantRobustParams : Type 0 where
  pub nonce : ℕ
  pub command_nonce : ℕ
  pub min_slot : ℕ

-- `msgtype != ReplicantNetworkMsgtype::ClientResponse`, and the same for `Bootstrap`
abbrev pub is_client_response : ReplicantNetworkMsgtype → Bool
is_client_response ReplicantNetworkMsgtype.client_response = true
is_client_response _ = false

abbrev pub is_bootstrap : ReplicantNetworkMsgtype → Bool
is_bootstrap ReplicantNetworkMsgtype.bootstrap = true
is_bootstrap _ = false

unfoldable pub encode_call_completion : ReplicantCallCompletion → List ℕ
unfolding encode_msgtype encode_replicant_code encode_varint_slice
encode_call_completion c =
    encode_msgtype ReplicantNetworkMsgtype.client_response
    ∷ (to_be_bytes 8 c.nonce ++ (encode_replicant_code c.status ++ encode_varint_slice c.output))

unfoldable pub decode_call_completion : List ℕ → Result ReplicantCallCompletion AdminError
unfolding first_msgtype
decode_call_completion bytes = do
  msgtype ← first_msgtype bytes
  fail_if (not (is_client_response msgtype)) unexpected_msgtype
  (nonce, c1) ← decode_u64_be bytes 1
  (status, c2) ← decode_return_code_at bytes c1
  (output, c3) ← decode_varint_slice_at bytes c2
  expect_consumed bytes c3
  ok (record { nonce = nonce; status = status; output = output })

unfoldable pub encode_condition_completion : ReplicantConditionCompletion → List ℕ
unfolding encode_msgtype
encode_condition_completion c =
    encode_msgtype ReplicantNetworkMsgtype.client_response
    ∷ (to_be_bytes 8 c.nonce
        ++ (encode_replicant_code c.status
            ++ (to_be_bytes 8 c.state ++ encode_varint_slice c.payload)))

unfoldable pub decode_condition_completion : List ℕ → Result ReplicantConditionCompletion AdminError
unfolding first_msgtype
decode_condition_completion bytes = do
  msgtype ← first_msgtype bytes
  fail_if (not (is_client_response msgtype)) unexpected_msgtype
  (nonce, c1) ← decode_u64_be bytes 1
  (status, c2) ← decode_return_code_at bytes c1
  (state, c3) ← decode_u64_be bytes c2
  (payload, c4) ← decode_varint_slice_at bytes c3
  expect_consumed bytes c4
  ok (record { nonce = nonce; status = status; state = state; payload = payload })

unfoldable pub encode_robust_params : ReplicantRobustParams → List ℕ
unfolding encode_msgtype
encode_robust_params p =
    encode_msgtype ReplicantNetworkMsgtype.client_response
    ∷ (to_be_bytes 8 p.nonce ++ (to_be_bytes 8 p.command_nonce ++ to_be_bytes 8 p.min_slot))

-- `saturating_sub` stops at 0, as subtraction does here; the two words behind the nonce take
-- `REPLICANT_ROBUST_PARAMS_BYTES`, 16.
unfoldable pub decode_robust_params : List ℕ → Result ReplicantRobustParams AdminError
unfolding first_msgtype
decode_robust_params bytes = do
  msgtype ← first_msgtype bytes
  fail_if (not (is_client_response msgtype)) unexpected_msgtype
  (nonce, c1) ← decode_u64_be bytes 1
  fail_if (not (length bytes - c1 == 16)) robust_params_size
  (command_nonce, c2) ← decode_u64_be bytes c1
  (min_slot, c3) ← decode_u64_be bytes c2
  expect_consumed bytes c3
  ok (record { nonce = nonce; command_nonce = command_nonce; min_slot = min_slot })
