-- ===== src/Prelude/Bounds.antt =====
-- Indexing and slicing do not panic inside the buffer.
use Prim.Native.Nat.{ℕ, zero, suc, ◌+◌, ◌-◌, ◌≤◌, ◌<◌}
use native.Mathlib.Omega.{arith}
use mathlib.Core.Path.{◌≡◌}
use mathlib.Core.List.{List, [], ◌∷◌}
use hyperdex_rs.Prelude.Lists.{length, length-drop, drop, length-take}
use hyperdex_rs.Prelude.Outcome.{Ensures, Returns}
use hyperdex_rs.Prelude.Slices.{index, get_range, slice, slice_from}

module _ {κ} (E : Type κ) where
  pub index-Returns : (bytes : List ℕ) (i : ℕ) → i < length bytes → Returns (index {E = E} bytes i)
  unfolding index
  index-Returns [] i h = absurd (omega arith)
  index-Returns (b ∷ bytes) zero h = tt
  index-Returns (b ∷ bytes) (suc i) h = index-Returns bytes i (omega arith)

  pub slice-Returns :
      (bytes : List ℕ) (a b : ℕ) → a ≤ b → b ≤ length bytes → Returns (slice {E = E} bytes a b)
  unfolding slice get_range
  slice-Returns bytes a b h k = ground arith

  pub slice-length :
      (bytes : List ℕ) (a b : ℕ)
      → a ≤ b
      → b ≤ length bytes
      → Ensures (λ (xs : List ℕ). length xs + a ≡ b) (slice {E = E} bytes a b)
  unfolding slice get_range
  slice-length bytes a b h k =
      let room : b - a ≤ length (drop a bytes) = omega (arith, length-drop a bytes) in
      ground (arith, length-take (b - a) (drop a bytes) room)

  pub slice_from-Returns :
      (bytes : List ℕ) (a : ℕ)
      → a ≤ length bytes
      → Ensures (λ (xs : List ℕ). length xs + a ≡ length bytes) (slice_from {E = E} bytes a)
  unfolding slice_from
  slice_from-Returns bytes a h = ground (arith, length-drop a bytes)
