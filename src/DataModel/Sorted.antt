-- ===== src/DataModel/Sorted.antt =====
-- Ordered maps with strictly ascending keys: what `BTreeMap` guarantees, and what insertion and
-- removal keep.
use Prim.Native.Nat.{Ordering}
use hyperdex_rs.Prelude.{ℕ, List, [], ◌∷◌, All, none, some, ◌≡◌, ◌≢◌, refl, arith, ◌⊎◌, inl, inr}
use hyperdex_rs.DataModel.{compare_bytes}
use hyperdex_rs.DataModel.Maps.{get, insert, remove, compare_bytes_eq}

Ordering-cases : (o : Ordering) → (o ≡ Ordering.lt) ⊎ (o ≡ Ordering.eq) ⊎ (o ≡ Ordering.gt)
Ordering-cases Ordering.lt = inl refl
Ordering-cases Ordering.eq = inr (inl refl)
Ordering-cases Ordering.gt = inr (inr refl)

abbrev pub Before : List ℕ → List ℕ → Type 0
Before a b = compare_bytes a b ≡ Ordering.lt

Before-trans : (a b c : List ℕ) → Before a b → Before b c → Before a c
unfolding compare_bytes
Before-trans [] [] c h k = cc
Before-trans [] (y ∷ ys) [] h k = cc
Before-trans [] (y ∷ ys) (z ∷ zs) h k = refl
Before-trans (x ∷ xs) [] c h k = cc
Before-trans (x ∷ xs) (y ∷ ys) [] h k = cc
Before-trans (x ∷ xs) (y ∷ ys) (z ∷ zs) h k = grind (arith, Before-trans xs ys zs)

gt-Before : (a b : List ℕ) → compare_bytes a b ≡ Ordering.gt → Before b a
unfolding compare_bytes
gt-Before [] [] h = cc
gt-Before [] (y ∷ ys) h = cc
gt-Before (x ∷ xs) [] h = refl
gt-Before (x ∷ xs) (y ∷ ys) h = grind (arith, gt-Before xs ys)

module _ {V : Type 0} where
  abbrev pub AllAfter : List ℕ → List (List ℕ × V) → Type 0
  AllAfter key m = All (λ (p : List ℕ × V). Before key p.0) m

  abbrev pub IsSorted : List (List ℕ × V) → Type 0
  IsSorted [] = Unit {0}
  IsSorted (p ∷ m) = AllAfter p.0 m × IsSorted m

  AllAfter-weaken :
      (a b : List ℕ) (m : List (List ℕ × V)) → Before a b → AllAfter b m → AllAfter a m
  AllAfter-weaken a b [] h k = tt
  AllAfter-weaken a b (p ∷ m) h k = (Before-trans a b p.0 h k.0, AllAfter-weaken a b m h k.1)

  AllAfter-insert :
      (a key : List ℕ) (v : V) (m : List (List ℕ × V))
      → Before a key
      → AllAfter a m
      → AllAfter a (insert m key v)
  unfolding insert
  AllAfter-insert a key v [] h k = (h, tt)
  AllAfter-insert a key v ((l, w) ∷ m) h k =
      grind (arith, AllAfter-insert a key v m h k.1, k.0, k.1)

  AllAfter-remove :
      (a key : List ℕ) (m : List (List ℕ × V)) → AllAfter a m → AllAfter a (remove m key)
  unfolding remove
  AllAfter-remove a key [] k = tt
  AllAfter-remove a key ((l, w) ∷ m) k = grind (arith, AllAfter-remove a key m k.1, k.0, k.1)

  pub insert-IsSorted :
      (m : List (List ℕ × V)) (key : List ℕ) (v : V) → IsSorted m → IsSorted (insert m key v)
  unfolding insert
  insert-IsSorted [] key v h = (tt, tt)
  insert-IsSorted ((l, w) ∷ m) key v h = elim (Ordering-cases (compare_bytes key l)) [
    | inl e ↦ rw (insert, e) ((e, AllAfter-weaken key l m e h.0), (h.0, h.1))
    | inr (inl e) ↦ rw (insert, e) (h.0, h.1)
    | inr (inr e) ↦
        rw (insert, e)
          (AllAfter-insert l key v m (gt-Before key l e) h.0, insert-IsSorted m key v h.1)
  ]

  pub remove-IsSorted :
      (m : List (List ℕ × V)) (key : List ℕ) → IsSorted m → IsSorted (remove m key)
  unfolding remove
  remove-IsSorted [] key h = tt
  remove-IsSorted ((l, w) ∷ m) key h =
      grind (arith, remove-IsSorted m key h.1, AllAfter-remove l key m h.0, h.1)

  -- Nothing stands at a key before all of the map's.
  get-AllAfter : (m : List (List ℕ × V)) (key : List ℕ) → AllAfter key m → get m key ≡ none
  unfolding get
  get-AllAfter [] key h = refl
  get-AllAfter ((l, w) ∷ m) key h = rw (get, h.0) (get-AllAfter m key h.1)

  pub get-remove :
      (m : List (List ℕ × V)) (key : List ℕ) → IsSorted m → get (remove m key) key ≡ none
  unfolding get remove
  get-remove [] key h = refl
  get-remove ((l, w) ∷ m) key h = elim (Ordering-cases (compare_bytes key l)) [
    | inl e ↦ rw (remove, e, get, e) (get-remove m key h.1)
    | inr (inl e) ↦ let e' = compare_bytes_eq key l e in rw (remove, e, e') (get-AllAfter m l h.0)
    | inr (inr e) ↦ rw (remove, e, get, e) (get-remove m key h.1)
  ]

  pub get-remove_other :
      (m : List (List ℕ × V)) (key other : List ℕ)
      → other ≢ key
      → get (remove m key) other ≡ get m other
  unfolding get remove
  get-remove_other [] key other h = refl
  get-remove_other ((l, w) ∷ m) key other h =
      grind
        (arith, get-remove_other m key other h, compare_bytes_eq other l, compare_bytes_eq key l)

-- A predicate on all values of a map
module _ {V : Type 0} (P : V → Type 0) where
  abbrev pub AllValues : List (List ℕ × V) → Type 0
  AllValues m = All (λ (p : List ℕ × V). P p.1) m

  pub AllValues-insert :
      (m : List (List ℕ × V)) (key : List ℕ) (v : V)
      → P v
      → AllValues m
      → AllValues (insert m key v)
  unfolding insert
  AllValues-insert [] key v p h = (p, tt)
  AllValues-insert ((l, w) ∷ m) key v p h = grind (arith, AllValues-insert m key v p h.1, h.0, h.1)

  pub AllValues-remove :
      (m : List (List ℕ × V)) (key : List ℕ) → AllValues m → AllValues (remove m key)
  unfolding remove
  AllValues-remove [] key h = tt
  AllValues-remove ((l, w) ∷ m) key h = grind (arith, AllValues-remove m key h.1, h.0, h.1)

  pub AllValues-get :
      (m : List (List ℕ × V)) (key : List ℕ) (v : V) → AllValues m → get m key ≡ some v → P v
  unfolding get
  AllValues-get [] key v h e = cc
  AllValues-get ((l, w) ∷ m) key v h e = grind (arith, AllValues-get m key v h.1, h.0)
