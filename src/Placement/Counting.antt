-- ===== src/Placement/Counting.antt =====
-- The different nodes of a list, and that lists of the same different nodes are of one length.
use hyperdex_rs.Prelude.{
  ℕ, suc, ◌≤◌, ◌≡◌, refl, ◌∙◌, List, [], ◌∷◌, true, false, ◌==◌, inl, inr, arith, length, All,
  Bool-cases, if◌then◌else◌,
}
use hyperdex_rs.Placement.{contains}
use hyperdex_rs.Placement.Members.{Distinct}

-- Each node once
abbrev pub distinct_nodes : List ℕ → List ℕ
distinct_nodes [] = []
distinct_nodes (x ∷ xs) = if contains xs x then distinct_nodes xs else x ∷ distinct_nodes xs

pub contains-distinct_nodes : (xs : List ℕ) (n : ℕ) → contains (distinct_nodes xs) n ≡ contains xs n
contains-distinct_nodes [] n = refl
contains-distinct_nodes (x ∷ xs) n = grind (arith, contains-distinct_nodes xs n)

pub distinct_nodes-Distinct : (xs : List ℕ) → Distinct (distinct_nodes xs)
distinct_nodes-Distinct [] = tt
distinct_nodes-Distinct (x ∷ xs) = elim (Bool-cases (contains xs x)) [
  | inl e ↦ rw e (distinct_nodes-Distinct xs)
  | inr e ↦ rw e (contains-distinct_nodes xs x ∙ e, distinct_nodes-Distinct xs)
]

pub length-distinct_nodes : (xs : List ℕ) → length (distinct_nodes xs) ≤ length xs
length-distinct_nodes [] = omega arith
length-distinct_nodes (x ∷ xs) = elim (Bool-cases (contains xs x)) [
  | inl e ↦ rw e (omega (arith, length-distinct_nodes xs))
  | inr e ↦ rw e (omega (arith, length-distinct_nodes xs))
]

without : List ℕ → ℕ → List ℕ
without [] n = []
without (x ∷ xs) n = if x == n then xs else x ∷ without xs n

length-without :
    (xs : List ℕ) (n : ℕ) → contains xs n ≡ true → suc (length (without xs n)) ≡ length xs
unfolding without
length-without [] n h = cc
length-without (x ∷ xs) n h = grind (arith, length-without xs n)

contains-without :
    (xs : List ℕ) (n m : ℕ) → (m == n) ≡ false → contains (without xs n) m ≡ contains xs m
unfolding without
contains-without [] n m h = refl
contains-without (x ∷ xs) n m h = grind (arith, contains-without xs n m h)

All-without :
    (xs ys : List ℕ) (n : ℕ)
    → contains ys n ≡ false
    → All (λ m. contains xs m ≡ true) ys
    → All (λ m. contains (without xs n) m ≡ true) ys
All-without xs [] n h k = tt
All-without xs (y ∷ ys) n h k =
    (contains-without xs n y (grind arith) ∙ k.0, All-without xs ys n (grind arith) k.1)

-- A list without repetitions of elements of another is not longer.
pub length-Distinct :
    (xs ys : List ℕ) → Distinct ys → All (λ m. contains xs m ≡ true) ys → length ys ≤ length xs
length-Distinct xs [] d h = omega arith
length-Distinct xs (y ∷ ys) d h = omega (
  arith,
  length-without xs y h.0,
  length-Distinct (without xs y) ys d.1 (All-without xs ys y d.0 h.1),
)
