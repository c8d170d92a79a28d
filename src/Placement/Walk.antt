-- ===== src/Placement/Walk.antt =====
-- The walk on the ring from the key's position: it collects different nodes, as many as wanted or
-- all that own a token.
use native.Mathlib.Nat.{mod-lt, mod-eq_of_lt, add-mod_right}
use hyperdex_rs.Prelude.{
  ℕ, zero, suc, ◌+◌, ◌-◌, ◌%◌, ◌<◌, ◌≤◌, ◌≡◌, refl, sym, ◌∙◌, List, [], ◌∷◌, ◌++◌, true, ◌⊎◌, inl,
  inr, ◌==◌, arith, length, All, All-append, Bool-cases, length-append, lt_or_le, get_elem?, some,
}
use hyperdex_rs.Prelude.{ok, ◌>>=◌}
use hyperdex_rs.Placement.{HyperToken, contains, token_at, collect_owners}
use hyperdex_rs.Placement.Members.{Distinct, contains-append, Distinct-snoc}

-- What holds of the nodes that were collected: `seen` has the same ones.
pub record IsCollected (nodes : List ℕ) (desired : ℕ) (seen replicas : List ℕ) : Type 0 where
  pub same : (n : ℕ) → contains seen n ≡ contains replicas n
  pub distinct : Distinct replicas
  pub members : All (λ n. contains nodes n ≡ true) replicas
  pub fewer : length replicas < desired

at_index :
    {A : Type 0} (P : A → Type 0) (xs : List A) (i : ℕ)
    → All P xs
    → i < length xs
    → (x : A) × (get_elem? xs i ≡ some x) × P x
at_index P [] i ps h = absurd (omega arith)
at_index P (x ∷ xs) zero ps h = (x, refl, ps.0)
at_index P (x ∷ xs) (suc i) ps h = at_index P xs i ps.1 (omega arith)

contains-snoc : (xs : List ℕ) (x n : ℕ) → contains xs n ≡ true → contains (xs ++ x ∷ []) n ≡ true
contains-snoc xs x n h = grind (arith, contains-append xs (x ∷ []) n)

contains-last : (xs : List ℕ) (x : ℕ) → contains (xs ++ x ∷ []) x ≡ true
contains-last xs x = grind (arith, contains-append xs (x ∷ []) x)

module _ (nodes : List ℕ) (ring : List HyperToken) where
  -- The owners of the tokens at some offsets from a start are in a list.
  abbrev pub Visited : (start from n : ℕ) → List ℕ → Type 0
  Visited start from n found =
      (o : ℕ) (t : HyperToken)
      → from ≤ o
      → o < from + n
      → get_elem? ring ((start + o) % length ring) ≡ some t
      → contains found t.owner ≡ true

  -- What the walk over `n` offsets gives, where `replicas` were there before.
  pub record IsWalk (desired start from n : ℕ) (replicas found : List ℕ) : Type 0 where
    pub distinct : Distinct found
    pub members : All (λ m. contains nodes m ≡ true) found
    pub bounded : length found ≤ desired
    pub kept : (m : ℕ) → contains replicas m ≡ true → contains found m ≡ true
    pub complete : (length found ≡ desired) ⊎ Visited start from n found

  -- One more offset in front
  Visited-suc :
      (start from n : ℕ) (found : List ℕ) (t : HyperToken)
      → get_elem? ring ((start + from) % length ring) ≡ some t
      → contains found t.owner ≡ true
      → Visited start (suc from) n found
      → Visited start from (suc n) found
  Visited-suc start from n found t at here rest o u h k at' = elim (lt_or_le from o) [
    | inl later ↦ rest o u (omega arith) (omega arith) at'
    | inr first ↦
        let same : o ≡ from = omega arith in
        let token : get_elem? ring ((start + from) % length ring) ≡ some u = rw (← same) at' in
        let equal : u ≡ t = cc in rw equal here
  ]

  later :
      (start desired from n : ℕ) (replicas grown found : List ℕ) (t : HyperToken)
      → get_elem? ring ((start + from) % length ring) ≡ some t
      → contains found t.owner ≡ true
      → ((m : ℕ) → contains replicas m ≡ true → contains grown m ≡ true)
      → IsWalk desired start (suc from) n grown found
      → IsWalk desired start from (suc n) replicas found
  later start desired from n replicas grown found t at here more walk = record {
    distinct = walk.distinct;
    members = walk.members;
    bounded = walk.bounded;
    kept = λ m h. walk.kept m (more m h);
    complete = elim walk.complete [
      | inl full ↦ inl full
      | inr visited ↦ inr (Visited-suc start from n found t at here visited)
    ];
  }

  module _ (owners : All (λ t. contains nodes (t.owner) ≡ true) ring)
      (some_token : 0 < length ring) where
    token_at-mod :
        (i : ℕ)
        → (t : HyperToken) × (token_at ring (i % length ring) ≡ ok t)
          × (get_elem? ring (i % length ring) ≡ some t)
          × (contains nodes (t.owner) ≡ true)
    unfolding token_at
    token_at-mod i =
        let (t, e, p) =
          at_index (λ t. contains nodes (t.owner) ≡ true) ring (i % length ring) owners
            (mod-lt i some_token) in
        (t, rw (token_at, e), e, p)

    pub collect_owners-IsWalk :
        (n start desired from : ℕ) (seen replicas : List ℕ)
        → IsCollected nodes desired seen replicas
        → (found : List ℕ) × (collect_owners ring start desired n from seen replicas ≡ ok found)
          × IsWalk desired start from n replicas found
    unfolding collect_owners
    collect_owners-IsWalk zero start desired from seen replicas c = (
      replicas,
      refl,
      record {
        distinct = c.distinct;
        members = c.members;
        bounded = omega (arith, c.fewer);
        kept = λ m h. h;
        complete = inr (λ o t h k at. absurd (omega arith));
      },
    )
    collect_owners-IsWalk (suc n) start desired from seen replicas c =
        let (t, e, at, member) = token_at-mod (start + from) in
        let grown = replicas ++ t.owner ∷ [] in
        let long : length grown ≡ suc (length replicas) =
          omega (arith, length-append replicas (t.owner ∷ [])) in
        elim (Bool-cases (contains seen t.owner)) [
          | inl old ↦
              let (found, goes, walk) =
                collect_owners-IsWalk n start desired (suc from) seen replicas c in
              let here = walk.kept t.owner (sym (c.same t.owner) ∙ old) in
              rw (e, ◌>>=◌, old)
                (
                  found,
                  goes,
                  later start desired from n replicas replicas found t at here (λ m h. h) walk,
                )
          | inr fresh ↦
              let distinct =
                Distinct-snoc replicas t.owner c.distinct (sym (c.same t.owner) ∙ fresh) in
              let members =
                All-append (λ m. contains nodes m ≡ true) replicas (t.owner ∷ []) c.members
                  (member, tt) in
              elim (Bool-cases (length grown == desired)) [
                | inl full ↦
                    rw (e, ◌>>=◌, fresh, full)
                      (
                        grown,
                        refl,
                        record {
                          distinct = distinct;
                          members = members;
                          bounded = omega (arith, c.fewer, long);
                          kept = contains-snoc replicas t.owner;
                          complete = inl (grind arith);
                        },
                      )
                | inr room ↦
                    let (found, goes, walk) =
                      collect_owners-IsWalk n start desired (suc from) (t.owner ∷ seen) grown
                        (record {
                          same = λ m.
                              grind (arith, c.same m, contains-append replicas (t.owner ∷ []) m);
                          distinct = distinct;
                          members = members;
                          fewer = grind (arith, c.fewer, long);
                        }) in
                    let here = walk.kept t.owner (contains-last replicas t.owner) in
                    rw (e, ◌>>=◌, fresh, room)
                      (
                        found,
                        goes,
                        later start desired from n replicas grown found t at here
                            (contains-snoc replicas t.owner) walk,
                      )
              ]
        ]

  -- The owner of every token is in the list after a whole round.
  pub Visited-all :
      (start : ℕ) (found : List ℕ) (j : ℕ) (t : HyperToken)
      → start < length ring
      → Visited start 0 (length ring) found
      → j < length ring
      → get_elem? ring j ≡ some t
      → contains found t.owner ≡ true
  Visited-all start found j t h visited k at = elim (lt_or_le j start) [
    | inr ahead ↦
        let e : start + (j - start) ≡ j = omega arith in
        visited (j - start) t (omega arith) (omega arith) (rw (e, mod-eq_of_lt k) at)
    | inl behind ↦
        let e : start + (j + length ring - start) ≡ j + length ring = omega arith in
        visited (j + length ring - start) t (omega arith) (omega arith)
          (rw (e, add-mod_right j (length ring), mod-eq_of_lt k) at)
  ]
