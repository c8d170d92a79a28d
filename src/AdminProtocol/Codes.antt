-- ===== src/AdminProtocol/Codes.antt =====
-- The numeric codes of crates/hyperdex-admin-protocol/src/lib.rs and the errors of its decoders.
use hyperdex_rs.Prelude.{ℕ, ◌≡◌, refl, List, [], ◌∷◌, ltb, length}
use hyperdex_rs.Prelude.{Result, ok, ok_or, ◌>>=◌, ◌>>◌, fail_if}
use hyperdex_rs.Prelude.Words.{to_be_bytes, from_be_bytes, length-to_be_bytes}
use hyperdex_rs.Prelude.Slices.{index}
use hyperdex_rs.LegacyProtocol.Codes.{match_code}

-- What an error says.
pub data AdminError : Type 0 where
  buffer_too_short empty_message truncated cursor_overflow length_overflow : AdminError
  varint_too_long varint_truncated trailing_bytes invalid_utf8 : AdminError
  flags_overlap_size extended_frame frame_too_small frame_too_large frame_size_mismatch : AdminError
  unknown_coordinator_code unknown_msgtype unknown_replicant_code : ℕ → AdminError
  unexpected_msgtype robust_params_size unspecified_address : AdminError
  unknown_address_family unsupported_datatype unknown_index_type : ℕ → AdminError
  secret_attribute_name no_key_attribute secret_key_attribute : AdminError
  partitions_disagree attribute_out_of_range fault_tolerance_range no_terminator : AdminError
  transport_request unsupported_request : AdminError

pub data CoordinatorReturnCode : Type 0 where
  success malformed duplicate not_found uninitialized no_can_do : CoordinatorReturnCode

pub data LegacyAdminReturnCode : Type 0 where
  success coord_fail bad_space duplicate not_found internal : LegacyAdminReturnCode

pub data ReplicantNetworkMsgtype : Type 0 where
  bootstrap cond_wait call get_robust_params call_robust client_response : ReplicantNetworkMsgtype

pub data ReplicantReturnCode : Type 0 where
  success maybe see_errno cluster_jump comm_failed : ReplicantReturnCode
  obj_not_found obj_exist func_not_found cond_not_found cond_destroyed : ReplicantReturnCode
  server_error timeout interrupted none_pending internal exception garbage : ReplicantReturnCode

-- `self as u16`
unfoldable pub coordinator_code : CoordinatorReturnCode → ℕ
coordinator_code success = 8832
coordinator_code malformed = 8833
coordinator_code duplicate = 8834
coordinator_code not_found = 8835
coordinator_code uninitialized = 8837
coordinator_code no_can_do = 8839

abbrev pub coordinator_arms : List (ℕ × CoordinatorReturnCode)
coordinator_arms =
    (8832, success)
    ∷ (8833, malformed)
    ∷ (8834, duplicate)
    ∷ (8835, not_found)
    ∷ (8837, uninitialized)
    ∷ (8839, no_can_do)
    ∷ []

unfoldable pub encode_coordinator_code : CoordinatorReturnCode → List ℕ
unfolding coordinator_code
encode_coordinator_code code = to_be_bytes 2 (coordinator_code code)

-- `u16::from_be_bytes([bytes[0], bytes[1]])`
unfoldable pub first_word : List ℕ → Result ℕ AdminError
first_word bytes = do a ← index bytes 0; b ← index bytes 1; ok (from_be_bytes (a ∷ b ∷ []))

unfoldable pub decode_coordinator_code : List ℕ → Result CoordinatorReturnCode AdminError
unfolding first_word match_code
decode_coordinator_code bytes = do
  fail_if (ltb (length bytes) 2) buffer_too_short
  value ← first_word bytes
  ok_or (match_code value coordinator_arms) (unknown_coordinator_code value)

unfoldable pub legacy_admin_status : CoordinatorReturnCode → LegacyAdminReturnCode
legacy_admin_status success = LegacyAdminReturnCode.success
legacy_admin_status duplicate = LegacyAdminReturnCode.duplicate
legacy_admin_status not_found = LegacyAdminReturnCode.not_found
legacy_admin_status uninitialized = LegacyAdminReturnCode.coord_fail
legacy_admin_status no_can_do = LegacyAdminReturnCode.coord_fail
legacy_admin_status malformed = LegacyAdminReturnCode.internal

unfoldable pub encode_msgtype : ReplicantNetworkMsgtype → ℕ
encode_msgtype bootstrap = 28
encode_msgtype cond_wait = 69
encode_msgtype call = 70
encode_msgtype get_robust_params = 72
encode_msgtype call_robust = 73
encode_msgtype client_response = 224

abbrev pub msgtype_arms : List (ℕ × ReplicantNetworkMsgtype)
msgtype_arms =
    (28, bootstrap)
    ∷ (69, cond_wait)
    ∷ (70, call)
    ∷ (72, get_robust_params)
    ∷ (73, call_robust)
    ∷ (224, client_response)
    ∷ []

unfoldable pub decode_msgtype : ℕ → Result ReplicantNetworkMsgtype AdminError
unfolding match_code
decode_msgtype byte = ok_or (match_code byte msgtype_arms) (unknown_msgtype byte)

-- `self as u16`
unfoldable pub replicant_code : ReplicantReturnCode → ℕ
replicant_code success = 5120
replicant_code maybe = 5121
replicant_code see_errno = 5122
replicant_code cluster_jump = 5123
replicant_code comm_failed = 5124
replicant_code obj_not_found = 5184
replicant_code obj_exist = 5185
replicant_code func_not_found = 5186
replicant_code cond_not_found = 5187
replicant_code cond_destroyed = 5188
replicant_code server_error = 5248
replicant_code timeout = 5312
replicant_code interrupted = 5313
replicant_code none_pending = 5314
replicant_code internal = 5373
replicant_code exception = 5374
replicant_code garbage = 5375

abbrev pub replicant_arms : List (ℕ × ReplicantReturnCode)
replicant_arms =
    (5120, success)
    ∷ (5121, maybe)
    ∷ (5122, see_errno)
    ∷ (5123, cluster_jump)
    ∷ (5124, comm_failed)
    ∷ (5184, obj_not_found)
    ∷ (5185, obj_exist)
    ∷ (5186, func_not_found)
    ∷ (5187, cond_not_found)
    ∷ (5188, cond_destroyed)
    ∷ (5248, server_error)
    ∷ (5312, timeout)
    ∷ (5313, interrupted)
    ∷ (5314, none_pending)
    ∷ (5373, internal)
    ∷ (5374, exception)
    ∷ (5375, garbage)
    ∷ []

unfoldable pub encode_replicant_code : ReplicantReturnCode → List ℕ
unfolding replicant_code
encode_replicant_code code = to_be_bytes 2 (replicant_code code)

unfoldable pub decode_replicant_code : List ℕ → Result ReplicantReturnCode AdminError
unfolding first_word match_code
decode_replicant_code bytes = do
  fail_if (ltb (length bytes) 2) buffer_too_short
  value ← first_word bytes
  ok_or (match_code value replicant_arms) (unknown_replicant_code value)

pub decode_msgtype-encode : (t : ReplicantNetworkMsgtype) → decode_msgtype (encode_msgtype t) ≡ ok t
unfolding decode_msgtype encode_msgtype
decode_msgtype-encode ReplicantNetworkMsgtype.bootstrap = refl
decode_msgtype-encode _ = refl

pub decode_replicant_code-encode :
    (c : ReplicantReturnCode) → decode_replicant_code (encode_replicant_code c) ≡ ok c
unfolding decode_replicant_code encode_replicant_code to_be_bytes index from_be_bytes
decode_replicant_code-encode ReplicantReturnCode.success = refl
decode_replicant_code-encode _ = refl

pub decode_coordinator_code-encode :
    (c : CoordinatorReturnCode) → decode_coordinator_code (encode_coordinator_code c) ≡ ok c
unfolding decode_coordinator_code encode_coordinator_code to_be_bytes index from_be_bytes
decode_coordinator_code-encode CoordinatorReturnCode.success = refl
decode_coordinator_code-encode _ = refl

pub length-encode_replicant_code : (c : ReplicantReturnCode) → length (encode_replicant_code c) ≡ 2
unfolding encode_replicant_code
length-encode_replicant_code c = length-to_be_bytes 2 (replicant_code c)
