-- ===== src/Placement/Members.antt =====
-- Membership in a list of nodes, and lists without repetitions.
use Prim.Native.Nat.{Ordering}
use hyperdex_rs.Prelude.{
  ℕ, zero, suc, ◌≡◌, refl, ◌∙◌, List, [], ◌∷◌, ◌++◌, true, false, ◌||◌, ◌==◌, inl, inr, arith, take,
  All, Bool-cases,
}
use hyperdex_rs.Placement.{contains, insert_by, sort_by}
use hyperdex_rs.Prelude.{is_gt}

abbrev pub Distinct : List ℕ → Type 0
Distinct [] = Unit {0}
Distinct (x ∷ xs) = (contains xs x ≡ false) × Distinct xs

contains_more :
    (x : ℕ) (xs ys : List ℕ)
    → All (λ n. contains xs n ≡ true) ys
    → All (λ n. contains (x ∷ xs) n ≡ true) ys
contains_more x xs [] h = tt
contains_more x xs (y ∷ ys) h = (grind arith, contains_more x xs ys h.1)

-- A list contains its elements.
pub contains_all : (xs : List ℕ) → All (λ n. contains xs n ≡ true) xs
contains_all [] = tt
contains_all (x ∷ xs) = (grind arith, contains_more x xs xs (contains_all xs))

pub All-take {κ} :
    {A : Type 0} (P : A → Type κ) (n : ℕ) (xs : List A) → All P xs → All P (take n xs)
All-take P zero xs h = tt
All-take P (suc n) [] h = tt
All-take P (suc n) (x ∷ xs) h = (h.0, All-take P n xs h.1)

pub contains-append :
    (xs ys : List ℕ) (n : ℕ) → contains (xs ++ ys) n ≡ (contains xs n || contains ys n)
contains-append [] ys n = refl
contains-append (x ∷ xs) ys n = grind (arith, contains-append xs ys n)

contains-take : (k n : ℕ) (xs : List ℕ) → contains xs n ≡ false → contains (take k xs) n ≡ false
contains-take zero n xs h = refl
contains-take (suc k) n [] h = refl
contains-take (suc k) n (x ∷ xs) h = grind (arith, contains-take k n xs)

pub Distinct-take : (k : ℕ) (xs : List ℕ) → Distinct xs → Distinct (take k xs)
Distinct-take zero xs h = tt
Distinct-take (suc k) [] h = tt
Distinct-take (suc k) (x ∷ xs) h = (contains-take k x xs h.0, Distinct-take k xs h.1)

-- An element that is not there can be put at the end.
pub Distinct-snoc :
    (xs : List ℕ) (n : ℕ) → Distinct xs → contains xs n ≡ false → Distinct (xs ++ n ∷ [])
Distinct-snoc [] n d h = (refl, tt)
Distinct-snoc (x ∷ xs) n d h =
    (grind (arith, contains-append xs (n ∷ []) x), Distinct-snoc xs n d.1 (grind arith))

module _ (cmp : ℕ → ℕ → Ordering) where
  contains-insert_by :
      (x n : ℕ) (xs : List ℕ) → contains (insert_by cmp x xs) n ≡ (x == n || contains xs n)
  unfolding insert_by
  contains-insert_by x n [] = refl
  contains-insert_by x n (y ∷ ys) = grind (arith, contains-insert_by x n ys)

  pub contains-sort_by : (xs : List ℕ) (n : ℕ) → contains (sort_by cmp xs) n ≡ contains xs n
  unfolding sort_by
  contains-sort_by [] n = refl
  contains-sort_by (x ∷ xs) n =
      grind (arith, contains-insert_by x n (sort_by cmp xs), contains-sort_by xs n)

  Distinct-insert_by :
      (x : ℕ) (xs : List ℕ) → contains xs x ≡ false → Distinct xs → Distinct (insert_by cmp x xs)
  unfolding insert_by
  Distinct-insert_by x [] h d = (refl, tt)
  Distinct-insert_by x (y ∷ ys) h d = elim (Bool-cases (is_gt (cmp x y))) [
    | inl e ↦
        rw e (grind (arith, contains-insert_by x y ys), Distinct-insert_by x ys (grind arith) d.1)
    | inr e ↦ rw e (h, d)
  ]

  pub Distinct-sort_by : (xs : List ℕ) → Distinct xs → Distinct (sort_by cmp xs)
  unfolding sort_by
  Distinct-sort_by [] d = tt
  Distinct-sort_by (x ∷ xs) d =
      Distinct-insert_by x (sort_by cmp xs) (contains-sort_by xs x ∙ d.0) (Distinct-sort_by xs d.1)
