-- ===== src/DataModel/Maps.antt =====
-- Ordered maps: the `BTreeMap`s with byte strings for keys, as lists of pairs in the keys' order.
use Prim.Native.Nat.{compare, Ordering}
use hyperdex_rs.Prelude.{ℕ, List, [], ◌∷◌, Option, none, some, ◌≡◌, ◌≢◌, refl, arith}
use hyperdex_rs.DataModel.{compare_bytes}

module _ {V : Type 0} where
  unfoldable pub get : List (List ℕ × V) → List ℕ → Option V
  get [] key = none
  get ((k, v) ∷ m) key = elim (compare_bytes key k) [ Ordering.eq ↦ some v | _ ↦ get m key ]

  unfoldable pub insert : List (List ℕ × V) → List ℕ → V → List (List ℕ × V)
  insert [] key value = (key, value) ∷ []
  insert ((k, v) ∷ m) key value = elim (compare_bytes key k) [
    | Ordering.lt ↦ (key, value) ∷ (k, v) ∷ m
    | Ordering.eq ↦ (k, value) ∷ m
    | Ordering.gt ↦ (k, v) ∷ insert m key value
  ]

  unfoldable pub remove : List (List ℕ × V) → List ℕ → List (List ℕ × V)
  remove [] key = []
  remove ((k, v) ∷ m) key = elim (compare_bytes key k) [
    | Ordering.eq ↦ m
    | _ ↦ (k, v) ∷ remove m key
  ]

compare_refl : (n : ℕ) → compare n n ≡ Ordering.eq
compare_refl n = ground arith

pub compare_bytes_refl : (xs : List ℕ) → compare_bytes xs xs ≡ Ordering.eq
unfolding compare_bytes
compare_bytes_refl [] = refl
compare_bytes_refl (x ∷ xs) = rw (compare_refl x, compare_bytes_refl xs)

pub compare_bytes_eq : (xs ys : List ℕ) → compare_bytes xs ys ≡ Ordering.eq → xs ≡ ys
unfolding compare_bytes
compare_bytes_eq [] [] h = refl
compare_bytes_eq [] (y ∷ ys) h = cc
compare_bytes_eq (x ∷ xs) [] h = cc
compare_bytes_eq (x ∷ xs) (y ∷ ys) h = grind (arith, compare_bytes_eq xs ys)

module _ {V : Type 0} where
  pub get-insert :
      (m : List (List ℕ × V)) (key : List ℕ) (v : V) → get (insert m key v) key ≡ some v
  unfolding get insert
  get-insert [] key v = rw (get, compare_bytes_refl key)
  get-insert ((k, w) ∷ m) key v = grind (arith, get-insert m key v, compare_bytes_refl key)

  pub get-insert_other :
      (m : List (List ℕ × V)) (key other : List ℕ) (v : V)
      → other ≢ key
      → get (insert m key v) other ≡ get m other
  unfolding get insert
  get-insert_other [] key other v h = grind (arith, compare_bytes_eq other key)
  get-insert_other ((k, w) ∷ m) key other v h =
      grind (
        arith,
        get-insert_other m key other v h,
        compare_bytes_eq other key,
        compare_bytes_eq key k,
      )
