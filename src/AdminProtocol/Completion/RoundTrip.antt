-- ===== src/AdminProtocol/Completion/RoundTrip.antt =====
-- Completions and robust parameters read back as they were written.
use hyperdex_rs.Prelude.{◌+◌, ◌-◌, ◌<◌, ◌≡◌, ◌++◌, ◌∷◌, arith, length}
use hyperdex_rs.Prelude.{ok}
use hyperdex_rs.Prelude.Words.{u64_mod, to_be_bytes, length-to_be_bytes}
use hyperdex_rs.Prelude.Slices.{At-step, At-left, At-length}
use hyperdex_rs.AdminProtocol.Codes.{encode_replicant_code, length-encode_replicant_code}
use hyperdex_rs.AdminProtocol.Read.{
  decode_u64_be-At, decode_varint_slice_at-At, decode_return_code_at-At, expect_consumed-end,
  encode_varint_slice,
}
use hyperdex_rs.AdminProtocol.Request.RoundTrip.{after_word, fields-At}
use hyperdex_rs.AdminProtocol.Completion.{
  ReplicantCallCompletion, ReplicantConditionCompletion, ReplicantRobustParams,
  encode_call_completion, decode_call_completion, encode_condition_completion,
  decode_condition_completion, encode_robust_params, decode_robust_params,
}

-- The words of a completion fit 64 bits.
pub record IsConditionCompletion (c : ReplicantConditionCompletion) : Type 0 where
  pub nonce : c.nonce < u64_mod
  pub state : c.state < u64_mod

pub record IsRobustParams (p : ReplicantRobustParams) : Type 0 where
  pub nonce : p.nonce < u64_mod
  pub command_nonce : p.command_nonce < u64_mod
  pub min_slot : p.min_slot < u64_mod

call_completion-reads :
    (c : ReplicantCallCompletion)
    → c.nonce < u64_mod
    → length (encode_call_completion c) < u64_mod
    → decode_call_completion (encode_call_completion c) ≡ ok c
unfolding encode_call_completion decode_call_completion
call_completion-reads c h small =
    let s1 = encode_replicant_code c.status in
    let s2 = encode_varint_slice c.output in
    let at0 = fields-At 224 (to_be_bytes 8 c.nonce ++ (s1 ++ s2)) in
    let at1 = after_word c.nonce (s1 ++ s2) at0 in
    let at2 = At-step s1 s2 2 (length-encode_replicant_code c.status) at1 in
    rw (
      decode_u64_be-At small c.nonce (At-left (to_be_bytes 8 c.nonce) (s1 ++ s2) at0) h,
      decode_return_code_at-At small c.status (At-left s1 s2 at1),
      decode_varint_slice_at-At small c.output at2,
      expect_consumed-end (224 ∷ (to_be_bytes 8 c.nonce ++ (s1 ++ s2))) (1 + 8 + 2 + length s2)
          (omega (arith, At-length at2)),
    )

condition_completion-reads :
    (c : ReplicantConditionCompletion)
    → IsConditionCompletion c
    → length (encode_condition_completion c) < u64_mod
    → decode_condition_completion (encode_condition_completion c) ≡ ok c
unfolding encode_condition_completion decode_condition_completion
condition_completion-reads c good small =
    let s1 = encode_replicant_code c.status in
    let s2 = encode_varint_slice c.payload in
    let t2 = to_be_bytes 8 c.state ++ s2 in
    let at0 = fields-At 224 (to_be_bytes 8 c.nonce ++ (s1 ++ t2)) in
    let at1 = after_word c.nonce (s1 ++ t2) at0 in
    let at2 = At-step s1 t2 2 (length-encode_replicant_code c.status) at1 in
    let at3 = after_word c.state s2 at2 in
    rw (
      decode_u64_be-At small c.nonce (At-left (to_be_bytes 8 c.nonce) (s1 ++ t2) at0) good.nonce,
      decode_return_code_at-At small c.status (At-left s1 t2 at1),
      decode_u64_be-At small c.state (At-left (to_be_bytes 8 c.state) s2 at2) good.state,
      decode_varint_slice_at-At small c.payload at3,
      expect_consumed-end (224 ∷ (to_be_bytes 8 c.nonce ++ (s1 ++ t2))) (1 + 8 + 2 + 8 + length s2)
          (omega (arith, At-length at3)),
    )

robust_params-reads :
    (p : ReplicantRobustParams)
    → IsRobustParams p
    → decode_robust_params (encode_robust_params p) ≡ ok p
unfolding encode_robust_params decode_robust_params
robust_params-reads p good =
    let w3 = to_be_bytes 8 p.min_slot in
    let t2 = to_be_bytes 8 p.command_nonce ++ w3 in
    let bytes = 224 ∷ (to_be_bytes 8 p.nonce ++ t2) in
    let at0 = fields-At 224 (to_be_bytes 8 p.nonce ++ t2) in
    let at1 = after_word p.nonce t2 at0 in
    let at2 = after_word p.command_nonce w3 at1 in
    let wide : length bytes ≡ 25 = omega (arith, At-length at2, length-to_be_bytes 8 p.min_slot) in
    let small : length bytes < u64_mod = omega (arith, wide) in
    let room : length bytes - 9 ≡ 16 = omega (arith, wide) in
    rw (
      decode_u64_be-At small p.nonce (At-left (to_be_bytes 8 p.nonce) t2 at0) good.nonce,
      room,
      decode_u64_be-At small p.command_nonce (At-left (to_be_bytes 8 p.command_nonce) w3 at1)
          good.command_nonce,
      decode_u64_be-At small p.min_slot at2 good.min_slot,
      expect_consumed-end bytes 25 wide,
    )

-- The coordinator's answers read back as they were written: the completion of a call, the completion
-- of a wait and the robust parameters, when their words fit 64 bits and their encodings are shorter
-- than 2^64 bytes.
pub decode_completion-encode :
    (c : ReplicantCallCompletion) (d : ReplicantConditionCompletion) (p : ReplicantRobustParams)
    → c.nonce < u64_mod
    → IsConditionCompletion d
    → IsRobustParams p
    → length (encode_call_completion c) < u64_mod
    → length (encode_condition_completion d) < u64_mod
    → (decode_call_completion (encode_call_completion c) ≡ ok c)
      × (decode_condition_completion (encode_condition_completion d) ≡ ok d)
      × (decode_robust_params (encode_robust_params p) ≡ ok p)
decode_completion-encode c d p hc hd hp small_c small_d = (
  call_completion-reads c hc small_c,
  condition_completion-reads d hd small_d,
  robust_params-reads p hp,
)
