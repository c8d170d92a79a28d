-- ===== src/Server/Points.antt =====
-- The bounds of the partitions of one attribute cover the hashes of 64 bits.
use hyperdex_rs.Prelude.{
  ℕ, zero, suc, ◌+◌, ◌-◌, ◌*◌, ◌/◌, ◌^◌, ◌≤◌, ◌<◌, List, [], ◌∷◌, length, ◌≡◌, refl, subst, ap,
  arith,
}
use native.Mathlib.Nat.{le-div_iff_mul-le, div-mul-le_self}
use hyperdex_rs.Prelude.{ok, Ensures}
use hyperdex_rs.Prelude.Memory.{isize_max, with_capacity-ok, mul_u64-ok}
use hyperdex_rs.Server.{
  ConfigError, below_lower, lower_points, upper_points, legacy_partition_points,
}

-- The intervals between the bounds follow each other from a point on, none is empty, and the last
-- one ends with the greatest hash.
abbrev pub Tiles : ℕ → List ℕ → List ℕ → Type 0
Tiles from [] [] = from ≡ 2 ^ 64
Tiles from [] (u ∷ us) = ⊥
Tiles from (l ∷ ls) [] = ⊥
Tiles from (l ∷ ls) (u ∷ us) = (l ≡ from) × ((l ≤ u) × Tiles (suc u) ls us)

lowers : ℕ → ℕ → ℕ → List ℕ
lowers d i zero = []
lowers d i (suc n) = i * d ∷ lowers d (suc i) n

uppers : ℕ → ℕ → ℕ → List ℕ
uppers d i zero = (2 ^ 64 - 1) ∷ []
uppers d i (suc n) = (i * d - 1) ∷ uppers d (suc i) n

step : (i d : ℕ) → suc i * d ≡ i * d + d
step i d = omega arith

later : (i n d : ℕ) → (i + suc n) * d ≡ (suc i + n) * d
later i n d = ap (λ (k : ℕ). k * d) (omega arith)

before_end : (i n d : ℕ) → (i + suc n) * d ≤ 2 ^ 64 → i * d + d ≤ 2 ^ 64
before_end i n d h = omega arith

lower_points-lowers :
    (d i n : ℕ) → 0 < d → (i + n) * d ≤ 2 ^ 64 → lower_points d i n ≡ ok (lowers d i n)
unfolding lower_points lowers
lower_points-lowers d i zero pos h = refl
lower_points-lowers d i (suc n) pos h =
    let inside : i * d < 2 ^ 64 = omega (arith, before_end i n d h) in
    rw
      (
        mul_u64-ok {E = ConfigError} i d inside,
        lower_points-lowers d (suc i) n pos (omega (arith, later i n d)),
      )
      refl

below_lower-pos : (x : ℕ) → 0 < x → below_lower x ≡ ok (x - 1)
unfolding below_lower
below_lower-pos zero h = absurd (omega arith)
below_lower-pos (suc x) h = ap ok (omega arith)

upper_points-uppers : (d i n : ℕ) → 0 < d → 0 < i → upper_points (lowers d i n) ≡ ok (uppers d i n)
unfolding upper_points lowers uppers
upper_points-uppers d i zero pos h = refl
upper_points-uppers d zero (suc n) pos h = absurd (omega arith)
upper_points-uppers d (suc i) (suc n) pos h =
    let positive : 0 < suc i * d = omega (arith, step i d) in
    rw
      (
        below_lower-pos (suc i * d) positive,
        upper_points-uppers d (suc (suc i)) n pos (omega arith),
      )
      refl

Tiles-uppers :
    (d i n : ℕ)
    → 0 < d
    → (i + suc n) * d ≤ 2 ^ 64
    → Tiles (i * d) (lowers d i (suc n)) (uppers d (suc i) n)
unfolding lowers uppers
Tiles-uppers d i zero pos h = (refl, (omega (arith, before_end i 0 d h), refl))
Tiles-uppers d i (suc n) pos h =
    let next : suc i * d ≡ suc (suc i * d - 1) = omega (arith, step i d) in
    let rest = Tiles-uppers d (suc i) n pos (omega (arith, later i (suc n) d)) in
    (
      refl,
      (
        omega (arith, step i d),
        subst (λ (k : ℕ). Tiles k (lowers d (suc i) (suc n)) (uppers d (suc (suc i)) n)) next rest,
      ),
    )

length-lowers : (d i n : ℕ) → length (lowers d i n) ≡ n
unfolding lowers
length-lowers d i zero = refl
length-lowers d i (suc n) = omega (arith, length-lowers d (suc i) n)

-- Cutting an attribute's hashes into a number of intervals that is positive and below `2 ^ 60` does
-- not overflow, panic or reserve too much memory. It gives that many lower bounds, and the intervals from them to the
-- upper bounds cover the hashes from 0 to `2 ^ 64 - 1`, in order, with no gap and no overlap.
pub legacy_partition_points-Tiles :
    (n : ℕ)
    → 0 < n
    → n < 2 ^ 60
    → Ensures
        (λ points. (length points.0 ≡ n) × Tiles 0 points.0 points.1)
        (legacy_partition_points n)
unfolding legacy_partition_points lowers
legacy_partition_points-Tiles zero pos h = absurd (omega arith)
legacy_partition_points-Tiles (suc n) pos h =
    let q : ℕ = 0x8000_0000_0000_0000 / suc n in
    let wide : 1 ≤ q = (le-div_iff_mul-le pos).1 (omega arith) in
    let whole : q * suc n ≤ 2 ^ 63 = div-mul-le_self 0x8000_0000_0000_0000 (suc n) in
    let d : ℕ = q * 2 in
    let inside : (0 + suc n) * d ≤ 2 ^ 64 = omega arith in
    let origin : 0 * d ≡ 0 = omega arith in
    let tiles = Tiles-uppers d 0 n (omega arith) inside in
    let room : 8 * suc n ≤ isize_max = omega arith in
    rw
      (
        with_capacity-ok {E = ConfigError} 8 (suc n) room,
        lower_points-lowers d 0 (suc n) (omega arith) inside,
        upper_points-uppers d 1 n (omega arith) (omega arith),
      )
      (
        length-lowers d 0 (suc n),
        subst (λ (k : ℕ). Tiles k (lowers d 0 (suc n)) (uppers d 1 n)) origin tiles,
      )
