-- ===== src/MemoryEngine/Conditions.antt =====
-- The conditions of the memory engine's operations, described apart from the code that tests them.
use Prim.Native.Nat.{Ordering}
use hyperdex_rs.Prelude.{
  ℕ, List, [], ◌∷◌, Option, none, some, Bool, true, false, ◌≡◌, ◌≢◌, ◌⊎◌, inl, inr, refl, arith,
  All, Option-cases, subst, ◌&&◌,
}
use hyperdex_rs.Prelude.{ok}
use hyperdex_rs.DataModel.{Value, Record, Predicate, Check, Mutation, compare_value}
use hyperdex_rs.DataModel.Maps.{get}
use hyperdex_rs.MemoryEngine.{
  condition_failed, Records, Spaces, holds, matches_predicate, record_matches, condition_holds, put,
  conditional_put, get_record,
}
use hyperdex_rs.MemoryEngine.Laws.{conditional_put-put}

-- What a predicate says of how one value compares with another.
abbrev pub Says : Predicate → Ordering → Type 0
Says Predicate.equal o = o ≡ Ordering.eq
Says Predicate.less_than o = o ≡ Ordering.lt
Says Predicate.less_than_or_equal o = o ≢ Ordering.gt
Says Predicate.greater_than o = o ≡ Ordering.gt
Says Predicate.greater_than_or_equal o = o ≢ Ordering.lt

-- A test that decides a proposition
abbrev pub Decides : Bool → Type 0 → Type 0
Decides b P = ((b ≡ true) × P) ⊎ ((b ≡ false) × (¬ P))

holds-Says : (predicate : Predicate) (o : Ordering) → Decides (holds predicate o) (Says predicate o)
holds-Says Predicate.equal Ordering.lt = inr (refl, λ e. cc)
holds-Says Predicate.equal Ordering.eq = inl (refl, refl)
holds-Says Predicate.equal Ordering.gt = inr (refl, λ e. cc)
holds-Says Predicate.less_than Ordering.lt = inl (refl, refl)
holds-Says Predicate.less_than Ordering.eq = inr (refl, λ e. cc)
holds-Says Predicate.less_than Ordering.gt = inr (refl, λ e. cc)
holds-Says Predicate.less_than_or_equal Ordering.lt = inl (refl, λ e. cc)
holds-Says Predicate.less_than_or_equal Ordering.eq = inl (refl, λ e. cc)
holds-Says Predicate.less_than_or_equal Ordering.gt = inr (refl, λ differs. differs refl)
holds-Says Predicate.greater_than Ordering.lt = inr (refl, λ e. cc)
holds-Says Predicate.greater_than Ordering.eq = inr (refl, λ e. cc)
holds-Says Predicate.greater_than Ordering.gt = inl (refl, refl)
holds-Says Predicate.greater_than_or_equal Ordering.lt = inr (refl, λ differs. differs refl)
holds-Says Predicate.greater_than_or_equal Ordering.eq = inl (refl, λ e. cc)
holds-Says Predicate.greater_than_or_equal Ordering.gt = inl (refl, λ e. cc)

module _ (compare_float : ℕ → ℕ → Ordering) where
  -- The record has the attribute that a check names, with a value of which the check's predicate is
  -- true.
  pub record Passes (r : Record) (check : Check) : Type 0 where
    pub value : Value
    pub here : get r.attributes check.attribute ≡ some value
    pub says : Says check.predicate (compare_value compare_float value check.value)

  -- There is a record and it passes every check, or there is no record and no check.
  abbrev pub Allows : Option Record → List Check → Type 0
  Allows none checks = checks ≡ []
  Allows (some r) checks = All (Passes r) checks

  passes : Record → Check → Bool
  passes r check = elim (get r.attributes check.attribute) [
    | none ↦ false
    | some value ↦ matches_predicate compare_float value check.predicate check.value
  ]

  passes-Passes : (r : Record) (check : Check) → Decides (passes r check) (Passes r check)
  unfolding passes matches_predicate
  passes-Passes r check = elim (Option-cases (get r.attributes check.attribute)) [
    | inl e ↦ rw (passes, e) (inr (refl, λ p. let at = p.here in cc))
    | inr (value, e) ↦
        elim (holds-Says check.predicate (compare_value compare_float value check.value)) [
          | inl (b, says) ↦
              rw (passes, e) (inl (b, record { value = value; here = e; says = says }))
          | inr (b, not_says) ↦
              rw (passes, e)
                (inr (
                  b,
                  λ p.
                      let same : p.value ≡ value = let at = p.here in cc in
                      not_says (
                        subst
                          (λ v. Says check.predicate (compare_value compare_float v check.value))
                          same p.says),
                ))
        ]
  ]

  record_matches-cons :
      (r : Record) (check : Check) (checks : List Check)
      → record_matches compare_float r (check ∷ checks)
        ≡ (passes r check && record_matches compare_float r checks)
  unfolding record_matches passes
  record_matches-cons r check checks = refl

  pub record_matches-Passes :
      (r : Record) (checks : List Check)
      → Decides (record_matches compare_float r checks) (All (Passes r) checks)
  unfolding record_matches
  record_matches-Passes r [] = inl (refl, tt)
  record_matches-Passes r (check ∷ checks) = elim (passes-Passes r check) [
    | inl (b, p) ↦ elim (record_matches-Passes r checks) [
      | inl (b', ps) ↦ rw (record_matches-cons r check checks, b, b') (inl (refl, (p, ps)))
      | inr (b', fails) ↦
          rw (record_matches-cons r check checks, b, b') (inr (refl, λ ps. fails ps.1))
    ]
    | inr (b, fails) ↦ rw (record_matches-cons r check checks, b) (inr (refl, λ ps. fails ps.0))
  ]

  condition_holds-Allows :
      (o : Option Record) (checks : List Check)
      → Decides (condition_holds compare_float o checks) (Allows o checks)
  unfolding condition_holds
  condition_holds-Allows none [] = inl (refl, refl)
  condition_holds-Allows none (check ∷ checks) = inr (ground arith, λ e. cc)
  condition_holds-Allows (some r) checks = record_matches-Passes r checks

  -- In a space that exists, a conditional put does what a put does where there is a record at the
  -- key that has the attribute of every check with a value of which the check's predicate is true,
  -- or where there is no record and no check. Anywhere else it fails with the condition and changes
  -- nothing.
  pub conditional_put-Allows :
      (spaces : Spaces) (space key : List ℕ) (checks : List Check) (mutations : List Mutation)
      (records : Records)
      → get spaces space ≡ some records
      → (Allows (get_record spaces space key) checks
          × (conditional_put compare_float spaces space key checks mutations
              ≡ put compare_float spaces space key mutations))
        ⊎ ((¬ Allows (get_record spaces space key) checks)
            × (conditional_put compare_float spaces space key checks mutations
                ≡ (ok condition_failed, spaces)))
  unfolding get_record
  conditional_put-Allows spaces space key checks mutations records h =
      elim (condition_holds-Allows (get records key) checks) [
        | inl (b, allows) ↦
            rw
              (
                get_record,
                h,
                conditional_put-put compare_float spaces space key checks mutations records h,
                b,
              )
              (inl (allows, refl))
        | inr (b, refuses) ↦
            rw
              (
                get_record,
                h,
                conditional_put-put compare_float spaces space key checks mutations records h,
                b,
              )
              (inr (refuses, refl))
      ]
