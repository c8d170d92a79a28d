-- ===== src/Placement/Rendezvous.antt =====
-- Rendezvous placement: the order of the nodes is total, so the decision depends on their set alone.
use mathlib.Core.List.{Permᴰ}
use hyperdex_rs.Prelude.{
  ℕ, suc, ◌≤◌, ◌-◌, subst, min, max, ◌≡◌, refl, ap, sym, ◌∙◌, List, [], ◌∷◌, true, false, ◌⊎◌, inl,
  inr, ◌||◌, ◌&&◌, ltb, ◌==◌, arith, length, All, take, length-take,
}
use hyperdex_rs.Prelude.{ok, err}
use hyperdex_rs.Placement.{
  PlacementDecision, empty_layout, sort_by, rendezvous_score, rendezvous_order, build_decision,
  decision, locate_rendezvous, contains,
}
use hyperdex_rs.Prelude.{is_gt}
use hyperdex_rs.Placement.Sort.{IsTotal, sort_by-Perm, sort_by-first, length-sort_by, All-sort_by}
use hyperdex_rs.Placement.Members.{
  Distinct, contains_all, All-take, Distinct-take, Distinct-sort_by,
}

rendezvous_gt :
    (key : List ℕ) (a b : ℕ)
    → is_gt (rendezvous_order key a b) ≡ (
        ltb (rendezvous_score key a) (rendezvous_score key b)
        || rendezvous_score key a == rendezvous_score key b && ltb b a)
unfolding rendezvous_order
rendezvous_gt key a b = ground arith

rendezvous_order-IsTotal : (key : List ℕ) → IsTotal (rendezvous_order key)
rendezvous_order-IsTotal key = record {
  asym = λ x y. rw (rendezvous_gt key x y, rendezvous_gt key y x) (ground arith);
  trans = λ x y z.
      rw (rendezvous_gt key x y, rendezvous_gt key y z, rendezvous_gt key x z) (ground arith);
  antisym = λ x y. rw (rendezvous_gt key x y, rendezvous_gt key y x) (ground arith);
}

-- Rendezvous placement does not depend on the order in which the layout lists the nodes.
pub locate_rendezvous-Perm :
    (key : List ℕ) (replicas : ℕ) (nodes nodes' : List ℕ)
    → Permᴰ nodes nodes'
    → locate_rendezvous key (record { replicas = replicas; nodes = nodes })
      ≡ locate_rendezvous key (record { replicas = replicas; nodes = nodes' })
unfolding locate_rendezvous
locate_rendezvous-Perm key replicas nodes nodes' p =
    rw (sort_by-Perm (rendezvous_order key) (rendezvous_order-IsTotal key) nodes nodes' p)

-- What a placement promises of a layout with these nodes
pub record IsPlaced (nodes : List ℕ) (d : PlacementDecision) : Type 0 where
  pub members : All (λ n. contains nodes n ≡ true) d.replicas
  pub primary : (others : List ℕ) × (d.replicas ≡ d.primary ∷ others)
  pub distinct : Distinct nodes → Distinct d.replicas

-- The number of nodes that a decision names, less the primary.
desired_suc : (replicas n : ℕ) → min (max replicas 1) (max (suc n) 1) ≡ suc (min (replicas - 1) n)
desired_suc replicas n = omega arith

pub suc-nonzero : (n : ℕ) → (suc n == 0) ≡ false
suc-nonzero n = ground arith

build_decision-ranked :
    (n replicas p : ℕ) (rest ranked : List ℕ)
    → ranked ≡ p ∷ rest
    → build_decision 0 n ranked replicas
      ≡ ok (record {
        partition = 0;
        partitions = n;
        primary = p;
        replicas = p ∷ take (min (replicas - 1) (length rest)) rest;
      })
unfolding build_decision decision
build_decision-ranked n replicas p rest ranked e =
    rw (e, suc-nonzero (length rest), desired_suc replicas (length rest))

rendezvous_score-le :
    (key : List ℕ) (p : ℕ) (ns : List ℕ)
    → All (λ n. is_gt (rendezvous_order key p n) ≡ false) ns
    → All (λ n. rendezvous_score key n ≤ rendezvous_score key p) ns
rendezvous_score-le key p [] h = tt
rendezvous_score-le key p (n ∷ ns) h =
    (grind (arith, rendezvous_gt key p n), rendezvous_score-le key p ns h.1)

-- Rendezvous placement fails on a layout without nodes and places on any other: the replicas are
-- nodes of the layout, as many as it asks for, at least one and at most as many as there are
-- nodes, none twice where the layout has none twice; the first is the primary, and no node has a
-- higher score for the key.
pub locate_rendezvous_places :
    (key : List ℕ) (replicas : ℕ) (nodes : List ℕ)
    → ((nodes ≡ [])
        × (locate_rendezvous key (record { replicas = replicas; nodes = nodes })
            ≡ err empty_layout))
      ⊎ ((d : PlacementDecision) × (locate_rendezvous key
              (record { replicas = replicas; nodes = nodes })
            ≡ ok d)
          × IsPlaced nodes d
          × (length d.replicas ≡ min (max replicas 1) (length nodes))
          × All (λ n. rendezvous_score key n ≤ rendezvous_score key d.primary) nodes)
unfolding locate_rendezvous sort_by build_decision
locate_rendezvous_places key r [] = inl (refl, refl)
locate_rendezvous_places key r (x ∷ xs) =
    let cmp = rendezvous_order key in
    let (p, rest, e, least) = sort_by-first cmp (rendezvous_order-IsTotal key) x xs in
    let k = min (r - 1) (length rest) in
    let many : suc (length rest) ≡ suc (length xs) =
      sym (ap length e) ∙ length-sort_by cmp (x ∷ xs) in
    let ranked : List ℕ = sort_by cmp (x ∷ xs) in
    let all = All-sort_by cmp (λ n. contains (x ∷ xs) n ≡ true) (x ∷ xs) (contains_all (x ∷ xs)) in
    inr (
      record {
        partition = 0;
        partitions = length ranked;
        primary = p;
        replicas = take (suc k) (p ∷ rest);
      },
      build_decision-ranked (length ranked) r p rest ranked e,
      record {
        members =
            All-take (λ n. contains (x ∷ xs) n ≡ true) (suc k) (p ∷ rest)
              (subst (All (λ n. contains (x ∷ xs) n ≡ true)) e all);
        primary = (take k rest, refl);
        distinct = λ d.
            Distinct-take (suc k) (p ∷ rest) (subst Distinct e (Distinct-sort_by cmp (x ∷ xs) d));
      },
      omega (arith, length-take k rest (omega arith), many),
      rendezvous_score-le key p (x ∷ xs) least,
    )
