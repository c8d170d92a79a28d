-- ===== src/LegacyProtocol/Varint.antt =====
-- `encode_varint` and `decode_varint` of crates/legacy-protocol/src/lib.rs: seven bits a byte,
-- lowest first, with the top bit on every byte but the last.
pub mod RoundTrip
pub mod Safety
use mathlib.Core.Logic.{dite}
use mathlib.Core.WellFounded.{Acc}
use native.Mathlib.Decide.{dec_lt}
use hyperdex_rs.Prelude.{
  ℕ, ◌+◌, ◌*◌, ◌/◌, ◌%◌, ◌^◌, ◌<◌, List, [], ◌∷◌, bit_and, bit_or, ◌==◌, leb, if◌then◌else◌, arith,
}
use hyperdex_rs.Prelude.{Result, ok, err}
use hyperdex_rs.Prelude.Order.{lt_wf}
use hyperdex_rs.LegacyProtocol.Codes.{LegacyProtocolError, invalid_varint}

pub shift_shrinks : (v : ℕ) → 0 < v / 128 → v / 128 < v
shift_shrinks v h = omega arith

-- A round of the loop. `value >>= 7` is `value / 128`, and the loop ends when that is 0.
pub encode_varint_loop : (value : ℕ) → Acc ◌<◌ value → List ℕ
encode_varint_loop value (Acc.intro _ smaller) =
    let byte = bit_and value 0x7f % 256 in
    dite (dec_lt 0 (value / 128))
      (λ more.
        bit_or byte 0x80
        ∷ encode_varint_loop (value / 128) (smaller (value / 128) (shift_shrinks value more)))
      (λ _. byte ∷ [])

unfoldable pub encode_varint : ℕ → List ℕ
unfolding encode_varint_loop lt_wf dec_lt
encode_varint value = encode_varint_loop value (lt_wf.apply value)

-- A round of `for (idx, byte) in bytes.iter().copied().enumerate()`. A shift drops the bits past the
-- 64th; `shift` stays below 64, since the round after 63 is refused.
unfoldable pub decode_varint_loop : List ℕ → ℕ → ℕ → ℕ → Result (ℕ × ℕ) LegacyProtocolError
decode_varint_loop [] idx shift value = err invalid_varint
decode_varint_loop (byte ∷ bytes) idx shift value =
    let value' = bit_or value (bit_and byte 0x7f * 2 ^ shift % 2 ^ 64) in
    let more = decode_varint_loop bytes (idx + 1) (shift + 7) value' in
    if bit_and byte 0x80 == 0
    then ok (value', idx + 1)
    else if leb 64 (shift + 7)
    then err invalid_varint
    else more

unfoldable pub decode_varint : List ℕ → Result (ℕ × ℕ) LegacyProtocolError
unfolding decode_varint_loop
decode_varint bytes = decode_varint_loop bytes 0 0 0
