-- ===== src/LegacyProtocol/Varint/RoundTrip.antt =====
-- A varint reads back as it was written, and takes between one and ten bytes.
use mathlib.Core.WellFounded.{Acc}
use native.Mathlib.Nat.{pow-le-pow_right, div-add-mod}
use native.Mathlib.Numerals.{towards_suc}
use hyperdex_rs.Prelude.{
  ℕ, zero, suc, ◌+◌, ◌*◌, ◌/◌, ◌%◌, ◌^◌, ◌<◌, ◌≤◌, ◌≡◌, ap, List, [], ◌∷◌, ◌++◌, length, bit_and,
  bit_or, arith, ◌⊎◌, inl, inr, ◌∙◌,
}
use native.Mathlib.Decide.{dec_lt}
use mathlib.Core.Logic.{dif_pos, dif_neg}
use native.Mathlib.Bridge.{le_prop}
use hyperdex_rs.Prelude.Order.{lt_wf}
use hyperdex_rs.Prelude.{ok}
use hyperdex_rs.Prelude.Words.{u64_mod}
use hyperdex_rs.Prelude.Bits.{bit_and-mask, bit_and-bit, bit_or-shifted}
use hyperdex_rs.LegacyProtocol.Varint.{
  encode_varint_loop, encode_varint, decode_varint_loop, decode_varint, shift_shrinks,
}

low_group : (v : ℕ) → bit_and v 0x7f ≡ v % 128
low_group v = bit_and-mask 7 v

top_bit : (v : ℕ) → bit_and v 0x80 ≡ v / 128 % 2 * 128
top_bit v = bit_and-bit 7 v

set_top_bit : (g : ℕ) → g < 128 → bit_or g 0x80 ≡ g + 128
set_top_bit g h = bit_or-shifted 7 g 1 h

add_group :
    (s acc g : ℕ)
    → acc < 2 ^ s
    → g * 2 ^ s < u64_mod
    → bit_or acc (g * 2 ^ s % 2 ^ 64) ≡ acc + g * 2 ^ s
add_group s acc g h fits =
    let e : g * 2 ^ s % 2 ^ 64 ≡ g * 2 ^ s = omega arith in rw e (bit_or-shifted s acc g h)

shift_seven : (s : ℕ) → 2 ^ (s + 7) ≡ 128 * 2 ^ s
shift_seven s = simp towards_suc (omega arith)

-- One round of the decoder, on a last byte and on an inner one.
last_byte :
    (g s idx acc : ℕ) (rest : List ℕ)
    → g < 128
    → acc < 2 ^ s
    → g * 2 ^ s < u64_mod
    → decode_varint_loop (g ∷ rest) idx s acc ≡ ok (acc + g * 2 ^ s, idx + 1)
unfolding decode_varint_loop
last_byte g s idx acc rest hg ha fits =
    let low : bit_and g 0x7f ≡ g = omega (arith, low_group g) in
    let top : bit_and g 0x80 ≡ 0 = omega (arith, top_bit g) in
    rw (low, top, add_group s acc g ha fits)

inner_byte :
    (g s idx acc : ℕ) (rest : List ℕ)
    → g < 128
    → acc < 2 ^ s
    → g * 2 ^ s < u64_mod
    → s + 7 < 64
    → decode_varint_loop ((g + 128) ∷ rest) idx s acc
      ≡ decode_varint_loop rest (idx + 1) (s + 7) (acc + g * 2 ^ s)
unfolding decode_varint_loop
inner_byte g s idx acc rest hg ha fits room =
    let low : bit_and (g + 128) 0x7f ≡ g = omega (arith, low_group (g + 128)) in
    let top : bit_and (g + 128) 0x80 ≡ 128 = omega (arith, top_bit (g + 128)) in
    rw (low, top, add_group s acc g ha fits) (ground arith)

-- The lowest group of `v` and the rest, both shifted by `s`.
split_group : (v s : ℕ) → v * 2 ^ s ≡ v % 128 * 2 ^ s + v / 128 * 2 ^ (s + 7)
split_group v s = omega (
  arith,
  ap (λ (t : ℕ). t * 2 ^ s) (div-add-mod v 128),
  ap (λ (t : ℕ). v / 128 * t) (shift_seven s),
)

scaled : (v p : ℕ) → 128 ≤ v → 128 * p ≤ v * p
scaled v p h = grind arith

room_for_more : (v s : ℕ) → 0 < v / 128 → v * 2 ^ s < u64_mod → s + 7 < 64
room_for_more v s more fits = elim (dec_lt (s + 7) 64) [
  | yes h ↦ h
  | no h ↦
      let wide : 2 ^ 64 ≤ 2 ^ (s + 7) = pow-le-pow_right (omega arith) {i = 64} (omega arith) in
      absurd (omega (arith, wide, shift_seven s, scaled v (2 ^ s) (omega arith)))
]

low_byte : (v : ℕ) → bit_and v 0x7f % 256 ≡ v % 128
low_byte v = omega (arith, low_group v)

-- One round of the encoder.
encode_varint_loop-cases :
    (v : ℕ) (w : Acc ◌<◌ v)
    → ((v < 128) × (encode_varint_loop v w ≡ v ∷ []))
      ⊎ ((r : Acc ◌<◌ (v / 128)) × (0 < v / 128)
          × (encode_varint_loop v w ≡ (v % 128 + 128) ∷ encode_varint_loop (v / 128) r))
unfolding encode_varint_loop
encode_varint_loop-cases v (Acc.intro _ smaller) = elim (dec_lt 0 (v / 128)) [
  | yes more ↦ inr (
    smaller (v / 128) (shift_shrinks v more),
    more,
    rw (dif_pos _ le_prop more, low_byte v, set_top_bit (v % 128) (omega arith)),
  )
  | no last ↦
      let e : v % 128 ≡ v = omega arith in inl (omega arith, rw (dif_neg _ last, low_byte v, e))
]

group_below : (g p : ℕ) → g < 128 → g * p ≤ 127 * p
group_below g p h = grind arith

sum_groups : (acc v s : ℕ) → acc + v % 128 * 2 ^ s + v / 128 * 2 ^ (s + 7) ≡ acc + v * 2 ^ s
sum_groups acc v s = omega (arith, split_group v s)

idx_next : (i n : ℕ) → i + 1 + n ≡ i + suc n
idx_next i n = omega arith

idx_start : (n : ℕ) → 0 + n ≡ n
idx_start n = omega arith

start : (v : ℕ) → 0 + v * 2 ^ 0 ≡ v
start v = omega arith

decode_varint_loop-encode :
    (n v : ℕ) (w : Acc ◌<◌ v) (s idx acc : ℕ) (rest : List ℕ)
    → v < n
    → acc < 2 ^ s
    → v * 2 ^ s < u64_mod
    → decode_varint_loop (encode_varint_loop v w ++ rest) idx s acc
      ≡ ok (acc + v * 2 ^ s, idx + length (encode_varint_loop v w))
decode_varint_loop-encode zero v w s idx acc rest hn ha fits = absurd (omega arith)
decode_varint_loop-encode (suc n) v w s idx acc rest hn ha fits =
    elim (encode_varint_loop-cases v w) [
      | inl (small, e) ↦ rw e (last_byte v s idx acc rest small ha fits)
      | inr (r, more, e) ↦
          let lo : v % 128 * 2 ^ s < u64_mod = omega (arith, split_group v s) in
          let hi : v / 128 * 2 ^ (s + 7) < u64_mod = omega (arith, split_group v s) in
          let room : acc + v % 128 * 2 ^ s < 2 ^ (s + 7) =
            omega (arith, shift_seven s, group_below (v % 128) (2 ^ s) (omega arith)) in
          let ih =
            decode_varint_loop-encode n (v / 128) r (s + 7) (idx + 1) (acc + v % 128 * 2 ^ s) rest
              (omega arith) room hi in
          rw e (
            inner_byte (v % 128) s idx acc _ (omega arith) ha lo (room_for_more v s more fits)
            ∙ ih
            ∙ cc (sum_groups acc v s, idx_next idx (length (encode_varint_loop (v / 128) r))))
    ]

-- A number below 2^64 reads back from its varint, with the number of bytes that the varint took,
-- whatever follows it.
pub decode_varint-encode_varint :
    (v : ℕ) (rest : List ℕ)
    → v < u64_mod
    → decode_varint (encode_varint v ++ rest) ≡ ok (v, length (encode_varint v))
unfolding decode_varint encode_varint
decode_varint-encode_varint v rest h =
    decode_varint_loop-encode (suc v) v (lt_wf.apply v) 0 0 0 rest (omega arith) (omega arith)
      (omega arith)
    ∙ cc (start v, idx_start (length (encode_varint v)))

encode_varint_loop_pos : (v : ℕ) (w : Acc ◌<◌ v) → 1 ≤ length (encode_varint_loop v w)
encode_varint_loop_pos v w = elim (encode_varint_loop-cases v w) [
  | inl (small, e) ↦ rw e (omega arith)
  | inr (r, more, e) ↦ rw e (omega arith)
]

pub encode_varint_pos : (v : ℕ) → 1 ≤ length (encode_varint v)
unfolding encode_varint
encode_varint_pos v = encode_varint_loop_pos v (lt_wf.apply v)
