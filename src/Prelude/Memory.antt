-- ===== src/Prelude/Memory.antt =====
-- The memory that a `Vec` reserves, and products that may overflow.
use Prim.Native.Nat.{ℕ, ◌*◌, ◌^◌, ◌≤◌, ◌<◌}
use mathlib.Core.Path.{◌≡◌}
use hyperdex_rs.Prelude.Tests.{leb, ltb, if◌then◌else◌, le→leb, lt→ltb}
use hyperdex_rs.Prelude.Outcome.{Result, ok, panic}

-- `isize::MAX`
abbrev pub isize_max : ℕ
isize_max = 0x7fff_ffff_ffff_ffff

-- `Vec::with_capacity(count)` panics when the elements would take more than `isize::MAX` bytes.
unfoldable pub with_capacity {κ} : {E : Type κ} → ℕ → ℕ → Result (Unit {0}) E
with_capacity size count = if leb (size * count) isize_max then ok tt else panic

pub with_capacity-ok {κ} :
    {E : Type κ} (size count : ℕ)
    → size * count ≤ isize_max
    → with_capacity {E = E} size count ≡ ok tt
unfolding with_capacity
with_capacity-ok size count h = rw (le→leb (size * count) isize_max h)

-- `x * y` on `u64` or on `usize`, where an overflow panics
unfoldable pub mul_u64 {κ} : {E : Type κ} → ℕ → ℕ → Result ℕ E
mul_u64 x y = if ltb (x * y) (2 ^ 64) then ok (x * y) else panic

pub mul_u64-ok {κ} : {E : Type κ} (x y : ℕ) → x * y < 2 ^ 64 → mul_u64 {E = E} x y ≡ ok (x * y)
unfolding mul_u64
mul_u64-ok x y h = rw (lt→ltb (x * y) (2 ^ 64) h)
