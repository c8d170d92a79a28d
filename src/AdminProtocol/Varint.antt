-- ===== src/AdminProtocol/Varint.antt =====
-- `encode_varint_u64` and `decode_varint_u64` of crates/hyperdex-admin-protocol/src/lib.rs, and how
-- they compare with the varints of crates/legacy-protocol/src/lib.rs.
use hyperdex_rs.Prelude.{
  ℕ, ◌+◌, ◌*◌, ◌%◌, ◌^◌, ◌<◌, ◌≤◌, ◌≡◌, refl, ap, ◌∙◌, List, [], ◌∷◌, ◌++◌, Option, none, some,
  arith, length, bit_and, bit_or, ◌==◌, if◌then◌else◌, lt_or_le, inl, inr,
}
use hyperdex_rs.Prelude.{Result, ok, err, panic, Ensures}
use hyperdex_rs.Prelude.Words.{u64_mod}
use hyperdex_rs.AdminProtocol.Codes.{AdminError, varint_too_long, varint_truncated}
use hyperdex_rs.LegacyProtocol.Varint.{encode_varint, decode_varint, decode_varint_loop}
use hyperdex_rs.LegacyProtocol.Varint.RoundTrip.{decode_varint-encode_varint}

-- The loop of `encode_varint_u64` is, statement by statement, the one of the other crate.
unfoldable pub encode_varint_u64 : ℕ → List ℕ
encode_varint_u64 value = encode_varint value

-- A round of `for (shift, byte) in bytes.iter().copied().enumerate()`
pub decode_varint_u64_loop : List ℕ → ℕ → ℕ → Result (ℕ × ℕ) AdminError
decode_varint_u64_loop [] shift value = err varint_truncated
decode_varint_u64_loop (byte ∷ bytes) shift value =
    let value' = bit_or value (bit_and byte 0x7f * 2 ^ (shift * 7) % 2 ^ 64) in
    let more = decode_varint_u64_loop bytes (shift + 1) value' in
    if shift == 10
    then err varint_too_long
    else if bit_and byte 0x80 == 0
    then ok (value', shift + 1)
    else more

unfoldable pub decode_varint_u64 : List ℕ → Result (ℕ × ℕ) AdminError
unfolding decode_varint_u64_loop
decode_varint_u64 bytes = decode_varint_u64_loop bytes 0 0

-- What a decoder gives, whatever error it gives otherwise.
abbrev pub value_of {ℓ κ} : {A : Type ℓ} {E : Type κ} → Result A E → Option A
value_of (ok a) = some a
value_of (err e) = none
value_of panic = none

-- After ten bytes there is no value any more.
too_long : (bytes : List ℕ) (value : ℕ) → value_of (decode_varint_u64_loop bytes 10 value) ≡ none
unfolding decode_varint_u64_loop
too_long [] value = refl
too_long (byte ∷ bytes) value = refl

loop_agrees :
    (bytes : List ℕ) (idx value : ℕ)
    → idx < 10
    → value_of (decode_varint_u64_loop bytes idx value)
      ≡ value_of (decode_varint_loop bytes idx (idx * 7) value)
unfolding decode_varint_u64_loop decode_varint_loop
loop_agrees [] idx value h = refl
loop_agrees (byte ∷ bytes) idx value h =
    let value' = bit_or value (bit_and byte 0x7f * 2 ^ (idx * 7) % 2 ^ 64) in
    elim (lt_or_le idx 9) [
      | inl small ↦
          let e : idx * 7 + 7 ≡ (idx + 1) * 7 = omega arith in
          rw e (ground (arith, loop_agrees bytes (idx + 1) value' (omega arith)))
      | inr last ↦
          let e : idx ≡ 9 = omega arith in
          let e' : idx + 1 ≡ 10 = omega arith in rw e' (ground (arith, too_long bytes value'))
    ]

-- The two crates read the same varints: from any bytes their decoders give the same value and
-- length, or both give an error.
pub decode_varint_u64-decode_varint :
    (bytes : List ℕ) → value_of (decode_varint_u64 bytes) ≡ value_of (decode_varint bytes)
unfolding decode_varint_u64 decode_varint
decode_varint_u64-decode_varint bytes = loop_agrees bytes 0 0 (omega arith)

value_of-ok {ℓ κ} :
    {A : Type ℓ} {E : Type κ} (m : Result A E) {a : A} → value_of m ≡ some a → m ≡ ok a
value_of-ok (ok a) h = cc
value_of-ok (err e) h = cc
value_of-ok panic h = cc

pub decode_varint_u64-encode :
    (v : ℕ) (rest : List ℕ)
    → v < u64_mod
    → decode_varint_u64 (encode_varint_u64 v ++ rest) ≡ ok (v, length (encode_varint_u64 v))
unfolding encode_varint_u64
decode_varint_u64-encode v rest h = value_of-ok _ (
    decode_varint_u64-decode_varint (encode_varint v ++ rest)
    ∙ ap value_of (decode_varint-encode_varint v rest h))

decode_varint_u64_loop-stays :
    (bytes : List ℕ) (shift value : ℕ)
    → Ensures
        (λ (r : ℕ × ℕ). (shift < r.1) × (r.1 ≤ shift + length bytes))
        (decode_varint_u64_loop bytes shift value)
unfolding decode_varint_u64_loop
decode_varint_u64_loop-stays [] shift value = tt
decode_varint_u64_loop-stays (byte ∷ bytes) shift value =
    let value' = bit_or value (bit_and byte 0x7f * 2 ^ (shift * 7) % 2 ^ 64) in
    ground (arith, decode_varint_u64_loop-stays bytes (shift + 1) value')

pub decode_varint_u64-stays :
    (bytes : List ℕ)
    → Ensures (λ (r : ℕ × ℕ). (1 ≤ r.1) × (r.1 ≤ length bytes)) (decode_varint_u64 bytes)
unfolding decode_varint_u64
decode_varint_u64-stays bytes = ground (arith, decode_varint_u64_loop-stays bytes 0 0)
