-- ===== src/Placement/Sort.antt =====
-- The sort of placement: with an order of which no two elements are equal, its result does not
-- depend on the order of its input.
use Prim.Native.Nat.{Ordering}
use mathlib.Core.List.{Permᴰ}
use hyperdex_rs.Prelude.{
  suc, ◌≡◌, refl, ap, ◌∙◌, List, [], ◌∷◌, true, false, inl, inr, arith, length, All, Bool-cases,
}
use hyperdex_rs.Placement.{insert_by, sort_by}
use hyperdex_rs.Prelude.{is_gt}

-- An order in which different elements are never equal
pub record IsTotal {A : Type 0} (cmp : A → A → Ordering) : Type 0 where
  pub asym : (x y : A) → is_gt (cmp x y) ≡ true → is_gt (cmp y x) ≡ false
  pub trans : (x y z : A) → is_gt (cmp x y) ≡ true → is_gt (cmp y z) ≡ true → is_gt (cmp x z) ≡ true
  pub antisym : (x y : A) → is_gt (cmp x y) ≡ false → is_gt (cmp y x) ≡ false → x ≡ y

module _ {A : Type 0} (cmp : A → A → Ordering) where
  pub length-insert_by : (x : A) (xs : List A) → length (insert_by cmp x xs) ≡ suc (length xs)
  unfolding insert_by
  length-insert_by x [] = refl
  length-insert_by x (y ∷ ys) = grind (arith, length-insert_by x ys)

  pub length-sort_by : (xs : List A) → length (sort_by cmp xs) ≡ length xs
  unfolding sort_by
  length-sort_by [] = refl
  length-sort_by (x ∷ xs) = length-insert_by x (sort_by cmp xs) ∙ ap suc (length-sort_by xs)

  pub All-insert_by {κ} :
      (P : A → Type κ) (x : A) (xs : List A) → P x → All P xs → All P (insert_by cmp x xs)
  unfolding insert_by
  All-insert_by P x [] p ps = (p, tt)
  All-insert_by P x (y ∷ ys) p ps = elim (Bool-cases (is_gt (cmp x y))) [
    | inl e ↦ rw e (ps.0, All-insert_by P x ys p ps.1)
    | inr e ↦ rw e (p, ps)
  ]

  pub All-sort_by {κ} : (P : A → Type κ) (xs : List A) → All P xs → All P (sort_by cmp xs)
  unfolding sort_by
  All-sort_by P [] ps = tt
  All-sort_by P (x ∷ xs) ps = All-insert_by P x (sort_by cmp xs) ps.0 (All-sort_by P xs ps.1)

  module _ (total : IsTotal cmp) where
    insert_by-swap :
        (x y : A) (zs : List A)
        → insert_by cmp x (insert_by cmp y zs) ≡ insert_by cmp y (insert_by cmp x zs)
    unfolding insert_by
    insert_by-swap x y [] = grind (arith, total.asym, total.antisym)
    insert_by-swap x y (z ∷ zs) =
        grind (arith, total.asym, total.antisym, total.trans, insert_by-swap x y zs)

    -- Lists with the same elements are sorted to the same list.
    pub sort_by-Perm : (xs ys : List A) → Permᴰ xs ys → sort_by cmp xs ≡ sort_by cmp ys
    unfolding sort_by
    sort_by-Perm _ _ Permᴰ.nil = refl
    sort_by-Perm _ _ (Permᴰ.cons e p) = rw (e, sort_by-Perm _ _ p)
    sort_by-Perm _ _ (Permᴰ.swap {l = l} e f) = rw (e, f, insert_by-swap _ _ (sort_by cmp l))
    sort_by-Perm _ _ (Permᴰ.trans p q) = sort_by-Perm _ _ p ∙ sort_by-Perm _ _ q

    not_gt_trans :
        (x p z : A) → is_gt (cmp x p) ≡ false → is_gt (cmp p z) ≡ false → is_gt (cmp x z) ≡ false
    not_gt_trans x p z f g = grind (arith, total.asym, total.antisym, total.trans)

    not_gt-all :
        (x p : A) (zs : List A)
        → is_gt (cmp x p) ≡ false
        → All (λ z. is_gt (cmp p z) ≡ false) zs
        → All (λ z. is_gt (cmp x z) ≡ false) zs
    not_gt-all x p [] f gs = tt
    not_gt-all x p (z ∷ zs) f gs = (not_gt_trans x p z f gs.0, not_gt-all x p zs f gs.1)

    -- The first element is one that no other comes before.
    pub sort_by-first :
        (x : A) (xs : List A)
        → (p : A) × (rest : List A) × (sort_by cmp (x ∷ xs) ≡ p ∷ rest)
          × All (λ z. is_gt (cmp p z) ≡ false) (x ∷ xs)
    unfolding sort_by insert_by
    sort_by-first x [] = (x, [], refl, (grind (arith, total.asym), tt))
    sort_by-first x (y ∷ ys) =
        let (p, rest, e, least) = sort_by-first y ys in
        elim (Bool-cases (is_gt (cmp x p))) [
          | inl g ↦ (p, insert_by cmp x rest, rw (e, g), (total.asym x p g, least))
          | inr g ↦
              (x, p ∷ rest, rw (e, g), (grind (arith, total.asym), not_gt-all x p (y ∷ ys) g least))
        ]
