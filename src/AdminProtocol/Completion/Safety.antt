-- ===== src/AdminProtocol/Completion/Safety.antt =====
-- The decoders of answers come back on any bytes.
use hyperdex_rs.Prelude.{ℕ, ◌-◌, ◌==◌, List, length, not}
use hyperdex_rs.Prelude.{Returns, Ensures-bind, Ensures-fail_if}
use hyperdex_rs.Prelude.Decoders.{Stays-then}
use hyperdex_rs.AdminProtocol.Read.{
  decode_u64_be, decode_varint_slice_at, decode_return_code_at, expect_consumed,
}
use hyperdex_rs.AdminProtocol.Read.Safety.{
  decode_u64_be-Stays, decode_varint_slice_at-Stays, decode_return_code_at-Stays,
  expect_consumed-Returns,
}
use hyperdex_rs.AdminProtocol.Request.{first_msgtype}
use hyperdex_rs.AdminProtocol.Request.Safety.{first_msgtype-Ensures}
use hyperdex_rs.AdminProtocol.Completion.{
  is_client_response, decode_call_completion, decode_condition_completion, decode_robust_params,
}

module _ (bytes : List ℕ) where
  call_completion-Returns : Returns (decode_call_completion bytes)
  unfolding decode_call_completion
  call_completion-Returns =
      Ensures-bind _ _ (first_msgtype bytes) _ (first_msgtype-Ensures bytes) λ t h.
        Ensures-fail_if _ (not (is_client_response t)) _ _ λ _.
          Stays-then _ decode_u64_be bytes 1 _ decode_u64_be-Stays h λ nonce _ h1.
            Stays-then _ decode_return_code_at bytes nonce.1 _ decode_return_code_at-Stays h1
              λ status _ h2.
                Stays-then _ decode_varint_slice_at bytes status.1 _ decode_varint_slice_at-Stays h2
                  λ output _ h3.
                    Ensures-bind _ _ (expect_consumed bytes output.1) _
                      (expect_consumed-Returns bytes output.1) λ _ _. tt

  condition_completion-Returns : Returns (decode_condition_completion bytes)
  unfolding decode_condition_completion
  condition_completion-Returns =
      Ensures-bind _ _ (first_msgtype bytes) _ (first_msgtype-Ensures bytes) λ t h.
        Ensures-fail_if _ (not (is_client_response t)) _ _ λ _.
          Stays-then _ decode_u64_be bytes 1 _ decode_u64_be-Stays h λ nonce _ h1.
            Stays-then _ decode_return_code_at bytes nonce.1 _ decode_return_code_at-Stays h1
              λ status _ h2.
                Stays-then _ decode_u64_be bytes status.1 _ decode_u64_be-Stays h2 λ state _ h3.
                  Stays-then _ decode_varint_slice_at bytes state.1 _ decode_varint_slice_at-Stays
                    h3
                    λ payload _ h4.
                      Ensures-bind _ _ (expect_consumed bytes payload.1) _
                        (expect_consumed-Returns bytes payload.1) λ _ _. tt

  robust_params-Returns : Returns (decode_robust_params bytes)
  unfolding decode_robust_params
  robust_params-Returns =
      Ensures-bind _ _ (first_msgtype bytes) _ (first_msgtype-Ensures bytes) λ t h.
        Ensures-fail_if _ (not (is_client_response t)) _ _ λ _.
          Stays-then _ decode_u64_be bytes 1 _ decode_u64_be-Stays h λ nonce _ h1.
            Ensures-fail_if _ (not (length bytes - nonce.1 == 16)) _ _ λ _.
              Stays-then _ decode_u64_be bytes nonce.1 _ decode_u64_be-Stays h1 λ command _ h2.
                Stays-then _ decode_u64_be bytes command.1 _ decode_u64_be-Stays h2 λ slot _ h3.
                  Ensures-bind _ _ (expect_consumed bytes slot.1) _
                    (expect_consumed-Returns bytes slot.1) λ _ _. tt

  -- The admin client's decoders of the coordinator's answers come back on any bytes, with an answer
  -- or an error: for the completion of a call, the completion of a wait and the robust parameters.
  pub decode_completion-Returns :
      Returns (decode_call_completion bytes)
      × Returns (decode_condition_completion bytes)
      × Returns (decode_robust_params bytes)
  decode_completion-Returns =
      (call_completion-Returns, condition_completion-Returns, robust_params-Returns)
