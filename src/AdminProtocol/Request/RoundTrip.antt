-- ===== src/AdminProtocol/Request/RoundTrip.antt =====
-- Requests read back as they were written.
use hyperdex_rs.Prelude.{ℕ, ◌+◌, ◌<◌, ◌≡◌, List, [], ◌∷◌, ◌++◌, arith, length}
use hyperdex_rs.Prelude.{ok}
use hyperdex_rs.Prelude.Words.{u64_mod, to_be_bytes, length-to_be_bytes}
use hyperdex_rs.Prelude.Slices.{At, At-all, At-step, At-left, At-right, At-length}
use hyperdex_rs.AdminProtocol.Codes.{encode_msgtype, decode_msgtype-encode, ReplicantNetworkMsgtype}
use hyperdex_rs.AdminProtocol.Read.{
  decode_u64_be-At, decode_varint_slice_at-At, expect_consumed-end, encode_varint_slice,
}
use hyperdex_rs.AdminProtocol.Request.{
  ReplicantAdminRequestMessage, get_robust_params, cond_wait, call, call_robust, encode_request,
  decode_request, decode_get_robust_params, decode_cond_wait, decode_call, decode_call_robust,
  first_msgtype,
}

-- The words of a request fit 64 bits.
abbrev pub IsRequest : ReplicantAdminRequestMessage → Type 0
IsRequest (get_robust_params nonce) = nonce < u64_mod
IsRequest (cond_wait nonce object condition state) = (nonce < u64_mod) × (state < u64_mod)
IsRequest (call nonce object function input) = nonce < u64_mod
IsRequest (call_robust nonce command_nonce min_slot object function input) =
    (nonce < u64_mod) × (command_nonce < u64_mod) × (min_slot < u64_mod)

-- A word at the cursor and the rest of the message behind it.
pub after_word :
    {bytes : List ℕ} {offset : ℕ} (v : ℕ) (tail : List ℕ)
    → At bytes offset (to_be_bytes 8 v ++ tail) []
    → At bytes (offset + 8) tail []
after_word v tail at = At-step (to_be_bytes 8 v) tail 8 (length-to_be_bytes 8 v) at

pub first_msgtype-encode :
    (t : ReplicantNetworkMsgtype) (fields : List ℕ)
    → first_msgtype (encode_msgtype t ∷ fields) ≡ ok t
unfolding first_msgtype
first_msgtype-encode t fields = decode_msgtype-encode t

-- Behind the byte of the type
pub fields-At : (b : ℕ) (fields : List ℕ) → At (b ∷ fields) 1 fields []
fields-At b fields = At-step (b ∷ []) fields 1 (omega arith) (At-all (b ∷ fields))

module _ (b : ℕ) where
  get_robust_params-reads :
      (nonce : ℕ)
      → nonce < u64_mod
      → decode_get_robust_params (b ∷ to_be_bytes 8 nonce) ≡ ok (get_robust_params nonce)
  unfolding decode_get_robust_params
  get_robust_params-reads nonce h =
      let bytes = b ∷ to_be_bytes 8 nonce in
      let wide = length-to_be_bytes 8 nonce in
      rw (
        decode_u64_be-At (omega (arith, wide)) nonce (fields-At b (to_be_bytes 8 nonce)) h,
        expect_consumed-end bytes 9 (omega (arith, wide)),
      )

  call-reads :
      (nonce : ℕ) (object function input : List ℕ)
      → let fields =
          to_be_bytes 8 nonce
          ++ (encode_varint_slice object
              ++ (encode_varint_slice function ++ encode_varint_slice input)) in
        length (b ∷ fields) < u64_mod
        → nonce < u64_mod
        → decode_call (b ∷ fields) ≡ ok (call nonce object function input)
  unfolding decode_call
  call-reads nonce object function input small h =
      let s1 = encode_varint_slice object in
      let s2 = encode_varint_slice function in
      let s3 = encode_varint_slice input in
      let at0 = fields-At b (to_be_bytes 8 nonce ++ (s1 ++ (s2 ++ s3))) in
      let at1 = after_word nonce (s1 ++ (s2 ++ s3)) at0 in
      let at2 = At-right s1 (s2 ++ s3) at1 in
      let at3 = At-right s2 s3 at2 in
      rw (
        decode_u64_be-At small nonce (At-left (to_be_bytes 8 nonce) (s1 ++ (s2 ++ s3)) at0) h,
        decode_varint_slice_at-At small object (At-left s1 (s2 ++ s3) at1),
        decode_varint_slice_at-At small function (At-left s2 s3 at2),
        decode_varint_slice_at-At small input at3,
        expect_consumed-end (b ∷ (to_be_bytes 8 nonce ++ (s1 ++ (s2 ++ s3))))
            (1 + 8 + length s1 + length s2 + length s3) (omega (arith, At-length at3)),
      )

  cond_wait-reads :
      (nonce : ℕ) (object condition : List ℕ) (state : ℕ)
      → let fields =
          to_be_bytes 8 nonce
          ++ (encode_varint_slice object
              ++ (encode_varint_slice condition ++ to_be_bytes 8 state)) in
        length (b ∷ fields) < u64_mod
        → nonce < u64_mod
        → state < u64_mod
        → decode_cond_wait (b ∷ fields) ≡ ok (cond_wait nonce object condition state)
  unfolding decode_cond_wait
  cond_wait-reads nonce object condition state small h h' =
      let s1 = encode_varint_slice object in
      let s2 = encode_varint_slice condition in
      let s3 = to_be_bytes 8 state in
      let at0 = fields-At b (to_be_bytes 8 nonce ++ (s1 ++ (s2 ++ s3))) in
      let at1 = after_word nonce (s1 ++ (s2 ++ s3)) at0 in
      let at2 = At-right s1 (s2 ++ s3) at1 in
      let at3 = At-right s2 s3 at2 in
      rw (
        decode_u64_be-At small nonce (At-left (to_be_bytes 8 nonce) (s1 ++ (s2 ++ s3)) at0) h,
        decode_varint_slice_at-At small object (At-left s1 (s2 ++ s3) at1),
        decode_varint_slice_at-At small condition (At-left s2 s3 at2),
        decode_u64_be-At small state at3 h',
        expect_consumed-end (b ∷ (to_be_bytes 8 nonce ++ (s1 ++ (s2 ++ s3))))
            (1 + 8 + length s1 + length s2 + 8)
            (omega (arith, At-length at3, length-to_be_bytes 8 state)),
      )

  call_robust-reads :
      (nonce command_nonce min_slot : ℕ) (object function input : List ℕ)
      → let fields =
          to_be_bytes 8 nonce
          ++ (to_be_bytes 8 command_nonce
              ++ (to_be_bytes 8 min_slot
                  ++ (encode_varint_slice object
                      ++ (encode_varint_slice function ++ encode_varint_slice input)))) in
        length (b ∷ fields) < u64_mod
        → nonce < u64_mod
        → command_nonce < u64_mod
        → min_slot < u64_mod
        → decode_call_robust (b ∷ fields)
          ≡ ok (call_robust nonce command_nonce min_slot object function input)
  unfolding decode_call_robust
  call_robust-reads nonce command_nonce min_slot object function input small h h' h'' =
      let s1 = encode_varint_slice object in
      let s2 = encode_varint_slice function in
      let s3 = encode_varint_slice input in
      let t3 = s1 ++ (s2 ++ s3) in
      let t2 = to_be_bytes 8 min_slot ++ t3 in
      let t1 = to_be_bytes 8 command_nonce ++ t2 in
      let at0 = fields-At b (to_be_bytes 8 nonce ++ t1) in
      let at1 = after_word nonce t1 at0 in
      let at2 = after_word command_nonce t2 at1 in
      let at3 = after_word min_slot t3 at2 in
      let at4 = At-right s1 (s2 ++ s3) at3 in
      let at5 = At-right s2 s3 at4 in
      rw (
        decode_u64_be-At small nonce (At-left (to_be_bytes 8 nonce) t1 at0) h,
        decode_u64_be-At small command_nonce (At-left (to_be_bytes 8 command_nonce) t2 at1) h',
        decode_u64_be-At small min_slot (At-left (to_be_bytes 8 min_slot) t3 at2) h'',
        decode_varint_slice_at-At small object (At-left s1 (s2 ++ s3) at3),
        decode_varint_slice_at-At small function (At-left s2 s3 at4),
        decode_varint_slice_at-At small input at5,
        expect_consumed-end (b ∷ (to_be_bytes 8 nonce ++ t1))
            (1 + 8 + 8 + 8 + length s1 + length s2 + length s3) (omega (arith, At-length at5)),
      )

-- Every request of the admin client reads back as it was written, when its words fit 64 bits and
-- its encoding is shorter than 2^64 bytes.
pub decode_request-encode :
    (request : ReplicantAdminRequestMessage)
    → IsRequest request
    → length (encode_request request) < u64_mod
    → decode_request (encode_request request) ≡ ok request
unfolding encode_request decode_request
decode_request-encode (get_robust_params nonce) good small = get_robust_params-reads 72 nonce good
decode_request-encode (cond_wait nonce object condition state) good small =
    cond_wait-reads 69 nonce object condition state small good.0 good.1
decode_request-encode (call nonce object function input) good small =
    call-reads 70 nonce object function input small good
decode_request-encode (call_robust nonce command_nonce min_slot object function input) good small =
    call_robust-reads 73 nonce command_nonce min_slot object function input small good.0 good.1
      good.2
