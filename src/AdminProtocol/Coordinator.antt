-- ===== src/AdminProtocol/Coordinator.antt =====
-- The requests to the coordinator of crates/hyperdex-admin-protocol/src/lib.rs, and
-- `into_coordinator_request`, which makes one of a message.
pub mod Wire
use hyperdex_rs.Prelude.{ℕ, List, [], ◌∷◌, Option, none, some, Bool, ◌&&◌, ◌==◌, if◌then◌else◌}
use hyperdex_rs.Prelude.{Result, ok, err, ok_or, ◌>>=◌}
use hyperdex_rs.Prelude.Utf8.{from_utf8}
use hyperdex_rs.ClusterConfig.{ClusterNode}
use hyperdex_rs.DataModel.Space.{Space}
use hyperdex_rs.AdminProtocol.Codes.{
  AdminError, no_terminator, invalid_utf8, transport_request, unsupported_request,
}
use hyperdex_rs.AdminProtocol.Request.{
  ReplicantAdminRequestMessage, get_robust_params, cond_wait, call, call_robust,
  replicant_object_hyperdex, replicant_condition_stable, replicant_condition_config,
  replicant_function_space_add, replicant_function_space_rm,
}
use hyperdex_rs.AdminProtocol.PackedSpace.{same_string, decode_packed_hyperdex_space}

pub data CoordinatorAdminRequest : Type 0 where
  daemon_register : ClusterNode → CoordinatorAdminRequest
  space_add : Space → CoordinatorAdminRequest
  space_rm : List ℕ → CoordinatorAdminRequest
  wait_until_stable config_get : CoordinatorAdminRequest

-- `split_last`: the bytes before the last one, if there is a last one and it is 0
unfoldable pub before_nul : List ℕ → Option (List ℕ)
before_nul [] = none
before_nul (b ∷ []) = if b == 0 then some [] else none
before_nul (b ∷ (c ∷ bytes)) = elim (before_nul (c ∷ bytes)) [
  | none ↦ none
  | some prefix ↦ some (b ∷ prefix)
]

unfoldable pub decode_c_string : List ℕ → Result (List ℕ) AdminError
decode_c_string bytes = do
  prefix ← ok_or (before_nul bytes) no_terminator
  ok_or (from_utf8 prefix) invalid_utf8

-- The arms for `Call` and `CallRobust`
unfoldable pub coordinator_call :
    List ℕ → List ℕ → List ℕ → Result CoordinatorAdminRequest AdminError
coordinator_call object function input =
    if same_string object replicant_object_hyperdex
      && same_string function replicant_function_space_add
    then (do space ← decode_packed_hyperdex_space input; ok (space_add space))
    else if same_string object replicant_object_hyperdex
        && same_string function replicant_function_space_rm
    then (do name ← decode_c_string input; ok (space_rm name))
    else err unsupported_request

unfoldable pub into_coordinator_request :
    ReplicantAdminRequestMessage → Result CoordinatorAdminRequest AdminError
into_coordinator_request (get_robust_params nonce) = err transport_request
into_coordinator_request (cond_wait nonce object condition state) =
    if same_string object replicant_object_hyperdex
      && same_string condition replicant_condition_stable
    then ok wait_until_stable
    else if same_string object replicant_object_hyperdex
        && same_string condition replicant_condition_config
    then ok config_get
    else err unsupported_request
into_coordinator_request (call nonce object function input) = coordinator_call object function input
into_coordinator_request (call_robust nonce command_nonce min_slot object function input) =
    coordinator_call object function input
