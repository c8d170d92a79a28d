-- ===== src/AdminProtocol/Request/Safety.antt =====
-- The decoders of requests and answers come back on any bytes.
use hyperdex_rs.Prelude.{ℕ, ◌≤◌, List, [], ◌∷◌, arith, length}
use hyperdex_rs.Prelude.{Returns, Ensures, Ensures-bind}
use hyperdex_rs.Prelude.Decoders.{Stays-then}
use hyperdex_rs.AdminProtocol.Codes.{decode_msgtype, ReplicantNetworkMsgtype}
use hyperdex_rs.AdminProtocol.Read.{decode_u64_be, decode_varint_slice_at, expect_consumed}
use hyperdex_rs.AdminProtocol.Read.Safety.{
  decode_u64_be-Stays, decode_varint_slice_at-Stays, expect_consumed-Returns,
}
use hyperdex_rs.AdminProtocol.Request.{
  first_msgtype, decode_request, decode_request_arm, decode_get_robust_params, decode_cond_wait,
  decode_call, decode_call_robust,
}

pub first_msgtype-Ensures : (bytes : List ℕ) → Ensures (λ _. 1 ≤ length bytes) (first_msgtype bytes)
unfolding first_msgtype decode_msgtype
first_msgtype-Ensures [] = tt
first_msgtype-Ensures (b ∷ bytes) = ground arith

module _ (bytes : List ℕ) (some_byte : 1 ≤ length bytes) where
  get_robust_params-Returns : Returns (decode_get_robust_params bytes)
  unfolding decode_get_robust_params
  get_robust_params-Returns =
      Stays-then _ decode_u64_be bytes 1 _ decode_u64_be-Stays some_byte λ nonce _ h.
        Ensures-bind _ _ (expect_consumed bytes nonce.1) _ (expect_consumed-Returns bytes nonce.1)
          λ _ _. tt

  cond_wait-Returns : Returns (decode_cond_wait bytes)
  unfolding decode_cond_wait
  cond_wait-Returns =
      Stays-then _ decode_u64_be bytes 1 _ decode_u64_be-Stays some_byte λ nonce _ h1.
        Stays-then _ decode_varint_slice_at bytes nonce.1 _ decode_varint_slice_at-Stays h1
          λ object _ h2.
            Stays-then _ decode_varint_slice_at bytes object.1 _ decode_varint_slice_at-Stays h2
              λ condition _ h3.
                Stays-then _ decode_u64_be bytes condition.1 _ decode_u64_be-Stays h3 λ state _ h4.
                  Ensures-bind _ _ (expect_consumed bytes state.1) _
                    (expect_consumed-Returns bytes state.1) λ _ _. tt

  call-Returns : Returns (decode_call bytes)
  unfolding decode_call
  call-Returns = Stays-then _ decode_u64_be bytes 1 _ decode_u64_be-Stays some_byte λ nonce _ h1.
      Stays-then _ decode_varint_slice_at bytes nonce.1 _ decode_varint_slice_at-Stays h1
        λ object _ h2.
          Stays-then _ decode_varint_slice_at bytes object.1 _ decode_varint_slice_at-Stays h2
            λ function _ h3.
              Stays-then _ decode_varint_slice_at bytes function.1 _ decode_varint_slice_at-Stays h3
                λ input _ h4.
                  Ensures-bind _ _ (expect_consumed bytes input.1) _
                    (expect_consumed-Returns bytes input.1) λ _ _. tt

  call_robust-Returns : Returns (decode_call_robust bytes)
  unfolding decode_call_robust
  call_robust-Returns =
      Stays-then _ decode_u64_be bytes 1 _ decode_u64_be-Stays some_byte λ nonce _ h1.
        Stays-then _ decode_u64_be bytes nonce.1 _ decode_u64_be-Stays h1 λ command_nonce _ h2.
          Stays-then _ decode_u64_be bytes command_nonce.1 _ decode_u64_be-Stays h2 λ min_slot _ h3.
            Stays-then _ decode_varint_slice_at bytes min_slot.1 _ decode_varint_slice_at-Stays h3
              λ object _ h4.
                Stays-then _ decode_varint_slice_at bytes object.1 _ decode_varint_slice_at-Stays h4
                  λ function _ h5.
                    Stays-then _ decode_varint_slice_at bytes function.1 _
                      decode_varint_slice_at-Stays h5
                      λ input _ h6.
                        Ensures-bind _ _ (expect_consumed bytes input.1) _
                          (expect_consumed-Returns bytes input.1) λ _ _. tt

  request_arm-Returns : (t : ReplicantNetworkMsgtype) → Returns (decode_request_arm t bytes)
  unfolding decode_request_arm
  request_arm-Returns ReplicantNetworkMsgtype.get_robust_params = get_robust_params-Returns
  request_arm-Returns ReplicantNetworkMsgtype.cond_wait = cond_wait-Returns
  request_arm-Returns ReplicantNetworkMsgtype.call = call-Returns
  request_arm-Returns ReplicantNetworkMsgtype.call_robust = call_robust-Returns
  request_arm-Returns _ = tt

pub decode_request-Returns : (bytes : List ℕ) → Returns (decode_request bytes)
unfolding decode_request
decode_request-Returns bytes =
    Ensures-bind _ _ (first_msgtype bytes) _ (first_msgtype-Ensures bytes)
      λ t h. request_arm-Returns bytes h t
