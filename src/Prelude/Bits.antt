-- ===== src/Prelude/Bits.antt =====
-- Bitwise operations on words of any width: masks, single bits, and the union of disjoint fields.
use Prim.Native.Nat.{ℕ, zero, suc, ◌+◌, ◌-◌, ◌*◌, ◌/◌, ◌%◌, ◌^◌, ◌<◌, ◌≤◌, min, max}
use Prim.Native.Nat.{digits, bit_or, bit_and, bit_and-bitwise, bit_or-bitwise}
use native.Mathlib.Nat.{pow-suc, mul_comm, div-div-eq-div-mul, div-add-mod'}
use native.Mathlib.Omega.{arith}
use mathlib.Core.Path.{◌≡◌, refl, ap}

-- A bitwise operation stands for a recursion on binary digits whose fuel is its first number; any
-- larger fuel gives the same. The bound is there for the recursion.
surplus :
    (zeros : ℕ → ℕ) (op : ℕ → ℕ → ℕ) (bound fuel x y : ℕ)
    → fuel ≤ bound
    → x ≤ fuel
    → digits zeros op fuel x y ≡ digits zeros op x x y
surplus zeros op bound zero zero y below covers = refl
surplus zeros op bound (suc fuel) zero y below covers = refl
surplus zeros op bound zero (suc x) y below covers = absurd (omega arith)
surplus zeros op zero (suc fuel) (suc x) y below covers = absurd (omega arith)
surplus zeros op (suc bound) (suc fuel) (suc x) y below covers =
    let half = suc x / 2 in
    omega (
      arith,
      surplus zeros op bound fuel half (y / 2) (omega arith) (omega arith),
      surplus zeros op bound x half (y / 2) (omega arith) (omega arith),
    )

-- The lowest digit of a conjunction and of a union, and the rest.
low_digit :
    (x y : ℕ)
    → (bit_and x y ≡ bit_and (x / 2) (y / 2) * 2 + min (x % 2) (y % 2))
      × (bit_or x y ≡ bit_or (x / 2) (y / 2) * 2 + max (x % 2) (y % 2))
low_digit zero y = (simp bit_and-bitwise (omega arith), simp bit_or-bitwise (omega arith))
low_digit (suc x) y =
    let half = suc x / 2 in
    (
      simp bit_and-bitwise
          (omega (arith, surplus (λ _. 0) min x x half (y / 2) (omega arith) (omega arith))),
      simp bit_or-bitwise
          (omega (arith, surplus (λ n. n) max x x half (y / 2) (omega arith) (omega arith))),
    )

bit_and_lowest : (x y : ℕ) → bit_and x y ≡ bit_and (x / 2) (y / 2) * 2 + min (x % 2) (y % 2)
bit_and_lowest x y = (low_digit x y).0

bit_and-zero_below : (n a : ℕ) → a < n → bit_and a 0 ≡ 0
bit_and-zero_below zero a h = absurd (omega arith)
bit_and-zero_below (suc n) zero h = simp bit_and-bitwise
bit_and-zero_below (suc n) (suc a) h =
    omega (arith, (low_digit (suc a) 0).0, bit_and-zero_below n (suc a / 2) (omega arith))

pub bit_and-zero : (a : ℕ) → bit_and a 0 ≡ 0
bit_and-zero a = bit_and-zero_below (suc a) a (omega arith)

two_pow_pos : (k : ℕ) → 0 < 2 ^ k
two_pow_pos zero = omega arith
two_pow_pos (suc k) = rw pow-suc (omega (arith, two_pow_pos k))

pub bit_or-zero_left : (b : ℕ) → bit_or 0 b ≡ b
bit_or-zero_left b = simp bit_or-bitwise

bit_or-zero_right_below : (n a : ℕ) → a < n → bit_or a 0 ≡ a
bit_or-zero_right_below zero a h = absurd (omega arith)
bit_or-zero_right_below (suc n) zero h = bit_or-zero_left 0
bit_or-zero_right_below (suc n) (suc a) h =
    omega (arith, (low_digit (suc a) 0).1, bit_or-zero_right_below n (suc a / 2) (omega arith))

pub bit_or-zero_right : (a : ℕ) → bit_or a 0 ≡ a
bit_or-zero_right a = bit_or-zero_right_below (suc a) a (omega arith)

-- `a | (g << s)`, where `a` has no bit from `s` on.
pub bit_or-shifted : (s a g : ℕ) → a < 2 ^ s → bit_or a (g * 2 ^ s) ≡ a + g * 2 ^ s
bit_or-shifted zero a g h = let e : a ≡ 0 = omega arith in rw e (rw bit_or-zero_left (omega arith))
bit_or-shifted (suc s) a g h =
    let h' : a < 2 ^ s * 2 = rw pow-suc at h in
    let e : g * 2 ^ suc s ≡ g * 2 ^ s * 2 = rw pow-suc (omega arith) in
    let half : g * 2 ^ s * 2 / 2 ≡ g * 2 ^ s = omega arith in
    rw e (
      omega (
        arith,
        (low_digit a (g * 2 ^ s * 2)).1,
        ap (bit_or (a / 2)) half,
        bit_or-shifted s (a / 2) g (omega arith),
      ))

-- Halving, and then cutting at bit `k`.
half-div : (k v : ℕ) → v / 2 / 2 ^ k ≡ v / 2 ^ suc k
half-div k v = rw (pow-suc, mul_comm (2 ^ k) 2) (div-div-eq-div-mul v 2 (2 ^ k))

half-mod : (k v : ℕ) → v / 2 % 2 ^ k * 2 + v % 2 ≡ v % 2 ^ suc k
half-mod k v = omega (
  arith,
  half-div k v,
  div-add-mod' (v / 2) (2 ^ k),
  div-add-mod' v (2 ^ suc k),
  ap (λ (t : ℕ). t * 2 ^ k * 2) (half-div k v),
  ap (λ (t : ℕ). v / 2 ^ suc k * t) (pow-suc 2 k),
)

-- `v & (2^k - 1)`
pub bit_and-mask : (k v : ℕ) → bit_and v (2 ^ k - 1) ≡ v % 2 ^ k
bit_and-mask zero v = rw bit_and-zero (omega arith)
bit_and-mask (suc k) v =
    let odd : 2 ^ suc k - 1 ≡ (2 ^ k - 1) * 2 + 1 = omega (arith, pow-suc 2 k, two_pow_pos k) in
    let half : (2 ^ suc k - 1) / 2 ≡ 2 ^ k - 1 = omega (arith, odd) in
    omega (
      arith,
      odd,
      bit_and_lowest v (2 ^ suc k - 1),
      ap (bit_and (v / 2)) half,
      bit_and-mask k (v / 2),
      half-mod k v,
    )

-- `v & (1 << k)`
pub bit_and-bit : (k v : ℕ) → bit_and v (2 ^ k) ≡ v / 2 ^ k % 2 * 2 ^ k
bit_and-bit zero v = omega (arith, bit_and_lowest v 1, bit_and-zero (v / 2))
bit_and-bit (suc k) v =
    let half : 2 ^ suc k / 2 ≡ 2 ^ k = omega (arith, pow-suc 2 k) in
    omega (
      arith,
      pow-suc 2 k,
      bit_and_lowest v (2 ^ suc k),
      ap (bit_and (v / 2)) half,
      bit_and-bit k (v / 2),
      ap (λ (t : ℕ). t % 2 * 2 ^ k * 2) (half-div k v),
      ap (λ (t : ℕ). v / 2 ^ suc k % 2 * t) (pow-suc 2 k),
    )

bit_or_comm_below : (n a b : ℕ) → a < n → bit_or a b ≡ bit_or b a
bit_or_comm_below zero a b h = absurd (omega arith)
bit_or_comm_below (suc n) zero b h = omega (arith, bit_or-zero_left b, bit_or-zero_right b)
bit_or_comm_below (suc n) (suc a) b h = omega (
  arith,
  (low_digit (suc a) b).1,
  (low_digit b (suc a)).1,
  bit_or_comm_below n (suc a / 2) (b / 2) (omega arith),
)

pub bit_or_comm : (a b : ℕ) → bit_or a b ≡ bit_or b a
bit_or_comm a b = bit_or_comm_below (suc a) a b (omega arith)

-- `v & (m << k)`
pub bit_and-shifted : (k v m : ℕ) → bit_and v (m * 2 ^ k) ≡ bit_and (v / 2 ^ k) m * 2 ^ k
bit_and-shifted zero v m =
    let e : m * 2 ^ 0 ≡ m = omega arith in
    let e' : v / 2 ^ 0 ≡ v = omega arith in rw (e, e') (omega arith)
bit_and-shifted (suc k) v m =
    let e : m * 2 ^ suc k ≡ m * 2 ^ k * 2 = rw pow-suc (omega arith) in
    let half : m * 2 ^ k * 2 / 2 ≡ m * 2 ^ k = omega arith in
    rw e (
      omega (
        arith,
        bit_and_lowest v (m * 2 ^ k * 2),
        ap (bit_and (v / 2)) half,
        bit_and-shifted k (v / 2) m,
        ap (λ (t : ℕ). bit_and t m * 2 ^ k * 2) (half-div k v),
        ap (λ (t : ℕ). bit_and (v / 2 ^ suc k) m * t) (pow-suc 2 k),
      ))
