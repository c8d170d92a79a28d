-- ===== src/LegacyProtocol/Varint/Safety.antt =====
-- The varint decoder on any input.
use hyperdex_rs.Prelude.{
  ℕ, ◌+◌, ◌*◌, ◌%◌, ◌^◌, ◌<◌, ◌≤◌, List, [], ◌∷◌, bit_or, bit_and, arith, length, Ensures,
}
use hyperdex_rs.LegacyProtocol.Varint.{decode_varint_loop, decode_varint}

decode_varint_loop-stays :
    (bytes : List ℕ) (idx shift value : ℕ)
    → Ensures
        (λ (r : ℕ × ℕ). (idx < r.1) × (r.1 ≤ idx + length bytes))
        (decode_varint_loop bytes idx shift value)
unfolding decode_varint_loop
decode_varint_loop-stays [] idx shift value = tt
decode_varint_loop-stays (byte ∷ bytes) idx shift value =
    let value' = bit_or value (bit_and byte 0x7f * 2 ^ shift % 2 ^ 64) in
    ground (arith, decode_varint_loop-stays bytes (idx + 1) (shift + 7) value')

pub decode_varint-stays :
    (bytes : List ℕ)
    → Ensures (λ (r : ℕ × ℕ). (1 ≤ r.1) × (r.1 ≤ length bytes)) (decode_varint bytes)
unfolding decode_varint
decode_varint-stays bytes = ground (arith, decode_varint_loop-stays bytes 0 0 0)
