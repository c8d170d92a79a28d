-- ===== src/MemoryEngine/Numbers.antt =====
-- `apply_numeric` of crates/engine-memory/src/lib.rs: whole numbers of 64 bits in two's complement,
-- `i64`, with the saturating and the panicking operations of the language.
use hyperdex_rs.Prelude.{
  ℕ, ◌+◌, ◌-◌, ◌*◌, ◌/◌, ◌%◌, min, Bool, true, false, not, ◌&&◌, ◌==◌, ltb, if◌then◌else◌, bit_and,
  bit_or, bit_xor,
}
use hyperdex_rs.Prelude.{Result, ok, panic}
use hyperdex_rs.Prelude.Words.{u64_mod}
use hyperdex_rs.DataModel.{NumericOp, i64_biased}

-- `i64::MIN` as a word, and the magnitude that it has
abbrev pub i64_min : ℕ
i64_min = 0x8000_0000_0000_0000

abbrev pub is_negative : ℕ → Bool
is_negative n = not (ltb n i64_min)

abbrev pub magnitude : ℕ → ℕ
magnitude n = if is_negative n then u64_mod - n else n

-- The word for a sign and a magnitude
abbrev pub of_sign : Bool → ℕ → ℕ
of_sign negative m = if negative then (u64_mod - m) % u64_mod else m

-- `i64_biased` is the number plus 2^63, and its own inverse.
unfoldable pub saturating_add : ℕ → ℕ → ℕ
saturating_add a b = i64_biased (min (i64_biased a + i64_biased b - i64_min) (u64_mod - 1))

unfoldable pub saturating_sub : ℕ → ℕ → ℕ
saturating_sub a b = i64_biased (min (i64_biased a + i64_min - i64_biased b) (u64_mod - 1))

abbrev pub differ : Bool → Bool → Bool
differ true b = not b
differ false b = b

unfoldable pub saturating_mul : ℕ → ℕ → ℕ
saturating_mul a b =
    let product = magnitude a * magnitude b in
    if differ (is_negative a) (is_negative b)
    then of_sign true (min product i64_min)
    else min product (i64_min - 1)

-- Division panics on zero and on `i64::MIN / -1`.
abbrev pub cannot_divide : ℕ → ℕ → Bool
cannot_divide a b = if b == 0 then true else a == i64_min && b == u64_mod - 1

unfoldable pub divide : {E : Type 0} → ℕ → ℕ → Result ℕ E
divide a b =
    if cannot_divide a b
    then panic
    else ok (of_sign (differ (is_negative a) (is_negative b)) (magnitude a / magnitude b))

unfoldable pub remainder : {E : Type 0} → ℕ → ℕ → Result ℕ E
remainder a b =
    if cannot_divide a b then panic else ok (of_sign (is_negative a) (magnitude a % magnitude b))

unfoldable pub apply_numeric : {E : Type 0} → ℕ → NumericOp → ℕ → Result ℕ E
unfolding saturating_add saturating_sub saturating_mul divide remainder
apply_numeric current NumericOp.add operand = ok (saturating_add current operand)
apply_numeric current NumericOp.sub operand = ok (saturating_sub current operand)
apply_numeric current NumericOp.mul operand = ok (saturating_mul current operand)
apply_numeric current NumericOp.div operand = divide current operand
apply_numeric current NumericOp.modulo operand = remainder current operand
apply_numeric current NumericOp.and operand = ok (bit_and current operand)
apply_numeric current NumericOp.or operand = ok (bit_or current operand)
apply_numeric current NumericOp.xor operand = ok (bit_xor current operand)
