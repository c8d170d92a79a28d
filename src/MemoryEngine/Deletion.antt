-- ===== src/MemoryEngine/Deletion.antt =====
-- The records that `delete_matching` removes.
use Prim.Native.Nat.{Ordering}
use hyperdex_rs.Prelude.{
  ℕ, suc, List, [], ◌∷◌, none, some, true, false, ◌≡◌, ◌≢◌, ◌⊎◌, inl, inr, refl, sym, ap, ◌∙◌,
  subst, All, Bool-cases, map, length,
}
use hyperdex_rs.Prelude.{ok}
use hyperdex_rs.DataModel.{Record, Check, compare_bytes}
use hyperdex_rs.DataModel.Maps.{
  get, remove, get-insert, get-insert_other, compare_bytes_eq, compare_bytes_refl,
}
use hyperdex_rs.DataModel.Sorted.{
  IsSorted, AllAfter, remove-IsSorted, get-remove, get-remove_other, AllValues-get,
}
use hyperdex_rs.MemoryEngine.{
  Records, Spaces, record_matches, matching, remove_all, search, count, delete_matching, get_record,
}
use hyperdex_rs.MemoryEngine.Invariant.{Stored, Stored-IsStore}
use hyperdex_rs.MemoryEngine.Conditions.{Passes, record_matches-Passes}

abbrev In : List ℕ → List (List ℕ) → Type 0
In key [] = ⊥
In key (d ∷ ds) = (key ≡ d) ⊎ In key ds

eq-cases : (o : Ordering) → (o ≡ Ordering.eq) ⊎ (o ≢ Ordering.eq)
eq-cases Ordering.eq = inl refl
eq-cases Ordering.lt = inr (λ e. cc)
eq-cases Ordering.gt = inr (λ e. cc)

differs : (a b : List ℕ) → compare_bytes a b ≢ Ordering.eq → a ≢ b
differs a b apart e = apart (subst (λ x. compare_bytes a x ≡ Ordering.eq) e (compare_bytes_refl a))

same_or_other : (a b : List ℕ) → (a ≡ b) ⊎ (a ≢ b)
same_or_other a b = elim (eq-cases (compare_bytes a b)) [
  | inl e ↦ inl (compare_bytes_eq a b e)
  | inr apart ↦ inr (differs a b apart)
]

module _ (c : ℕ → ℕ → Ordering) where
  -- What is gone stays so.
  remove_all-gone :
      (records : Records) (doomed : List (List ℕ)) (key : List ℕ)
      → IsSorted records
      → get records key ≡ none
      → get (remove_all c records doomed) key ≡ none
  unfolding remove_all
  remove_all-gone records [] key h e = e
  remove_all-gone records (d ∷ doomed) key h e =
      remove_all-gone (remove records d) doomed key (remove-IsSorted records d h)
        (elim (same_or_other key d) [
          | inl same ↦ rw same (get-remove records d h)
          | inr other ↦ get-remove_other records d key other ∙ e
        ])

  remove_all-In :
      (records : Records) (doomed : List (List ℕ)) (key : List ℕ)
      → IsSorted records
      → In key doomed
      → get (remove_all c records doomed) key ≡ none
  unfolding remove_all
  remove_all-In records [] key h i = absurd i
  remove_all-In records (d ∷ doomed) key h (inl e) =
      remove_all-gone (remove records d) doomed key (remove-IsSorted records d h)
        (rw e (get-remove records d h))
  remove_all-In records (d ∷ doomed) key h (inr i) =
      remove_all-In (remove records d) doomed key (remove-IsSorted records d h) i

  remove_all-other :
      (records : Records) (doomed : List (List ℕ)) (key : List ℕ)
      → All (λ d. key ≢ d) doomed
      → get (remove_all c records doomed) key ≡ get records key
  unfolding remove_all
  remove_all-other records [] key h = refl
  remove_all-other records (d ∷ doomed) key h =
      remove_all-other (remove records d) doomed key h.1 ∙ get-remove_other records d key h.0

  abbrev doomed_keys : List Check → Records → List (List ℕ)
  doomed_keys checks records = map (λ (p : List ℕ × Record). p.0) (matching c checks records)

  doomed-after :
      (checks : List Check) (records : Records) (key : List ℕ)
      → AllAfter key records
      → All (λ d. key ≢ d) (doomed_keys checks records)
  unfolding matching
  doomed-after checks [] key h = tt
  doomed-after checks ((l, r) ∷ records) key h =
      let apart : key ≢ l = differs key l (λ e. let before = h.0 in cc) in
      elim (Bool-cases (record_matches c r checks)) [
        | inl b ↦ rw (matching, b) (apart, doomed-after checks records key h.1)
        | inr b ↦ rw (matching, b) (doomed-after checks records key h.1)
      ]

  get-skip :
      (l key : List ℕ) (r : Record) (records : Records)
      → compare_bytes key l ≢ Ordering.eq
      → get ((l, r) ∷ records) key ≡ get records key
  unfolding get
  get-skip l key r records apart = go (compare_bytes key l) refl
    where
      go : (o : Ordering) → compare_bytes key l ≡ o → get ((l, r) ∷ records) key ≡ get records key
      go Ordering.lt e = rw (get, e)
      go Ordering.eq e = absurd (apart e)
      go Ordering.gt e = rw (get, e)

  -- A key is doomed if the record there matches, and otherwise not.
  fate :
      (checks : List Check) (records : Records) (key : List ℕ)
      → IsSorted records
      → ((r : Record) × (get records key ≡ some r)
          × (record_matches c r checks ≡ true)
          × In key (doomed_keys checks records))
        ⊎ (((r : Record) × (get records key ≡ some r) × (record_matches c r checks ≡ false))
            ⊎ (get records key ≡ none))
          × All (λ d. key ≢ d) (doomed_keys checks records)
  unfolding matching get
  fate checks [] key h = inr (inr refl, tt)
  fate checks ((l, r) ∷ records) key h = elim (eq-cases (compare_bytes key l)) [
    | inl e ↦
        let same = compare_bytes_eq key l e in
        let rest : All (λ d. key ≢ d) (doomed_keys checks records) =
          doomed-after checks records key (rw same h.0) in
        elim (Bool-cases (record_matches c r checks)) [
          | inl b ↦ rw (matching, b, get, e) (inl (r, refl, b, inl same))
          | inr b ↦ rw (matching, b, get, e) (inr (inl (r, refl, b), rest))
        ]
    | inr apart ↦
        let skip : get ((l, r) ∷ records) key ≡ get records key = get-skip l key r records apart in
        let other = differs key l apart in
        elim (fate checks records key h.1) [
          | inl (found, at, b, i) ↦ elim (Bool-cases (record_matches c r checks)) [
            | inl b' ↦ rw (matching, b', skip) (inl (found, at, b, inr i))
            | inr b' ↦ rw (matching, b', skip) (inl (found, at, b, i))
          ]
          | inr (why, spared) ↦ elim (Bool-cases (record_matches c r checks)) [
            | inl b' ↦ rw (matching, b', skip) (inr (why, (other, spared)))
            | inr b' ↦ rw (matching, b', skip) (inr (why, spared))
          ]
        ]
  ]

length-map : {A B : Type 0} (f : A → B) (xs : List A) → length (map f xs) ≡ length xs
length-map f [] = refl
length-map f (x ∷ xs) = ap suc (length-map f xs)

module _ (c : ℕ → ℕ → Ordering) (r : Record) (checks : List Check) where
  matched-Passes : record_matches c r checks ≡ true → All (Passes c r) checks
  matched-Passes b = elim (record_matches-Passes c r checks) [
    | inl (b', passes) ↦ passes
    | inr (b', fails) ↦ cc
  ]

  unmatched-Passes : record_matches c r checks ≡ false → ¬ All (Passes c r) checks
  unmatched-Passes b = elim (record_matches-Passes c r checks) [
    | inl (b', passes) ↦ cc
    | inr (b', fails) ↦ fails
  ]

-- In a space of a store that operations have led to, deleting by checks answers with the number that
-- counting by them gives. It leaves no record at a key whose record passes every check, and at every
-- other key, and in every other space, what was there.
pub delete_matching-Passes :
    (c : ℕ → ℕ → Ordering) (spaces : Spaces) (space key other key' : List ℕ) (checks : List Check)
    (records : Records)
    → Stored c spaces
    → get spaces space ≡ some records
    → other ≢ space
    → ((delete_matching c spaces space checks).0 ≡ count c spaces space checks)
      × (((r : Record) × (get_record spaces space key ≡ some r)
            × All (Passes c r) checks
            × (get_record (delete_matching c spaces space checks).1 space key ≡ none))
          ⊎ (((r : Record) × (get_record spaces space key ≡ some r) × (¬ All (Passes c r) checks))
              ⊎ (get_record spaces space key ≡ none))
            × (get_record (delete_matching c spaces space checks).1 space key
                ≡ get_record spaces space key))
      × (get_record (delete_matching c spaces space checks).1 other key'
          ≡ get_record spaces other key')
unfolding delete_matching get_record count search
delete_matching-Passes c spaces space key other key' checks records stored e different =
    let sorted =
      AllValues-get IsSorted spaces space records (Stored-IsStore c spaces stored).records e in
    let doomed = doomed_keys c checks records in
    let left = remove_all c records doomed in
    let counted =
      length-map (λ (p : List ℕ × Record). p.0) (matching c checks records)
      ∙ sym (length-map (λ (p : List ℕ × Record). p.1) (matching c checks records)) in
    rw
      (
        delete_matching,
        get_record,
        count,
        search,
        e,
        get-insert spaces space left,
        get-insert_other spaces space other left different,
      )
      (
        ap ok counted,
        elim (fate c checks records key sorted) [
          | inl (r, at, b, i) ↦
              inl (r, at, matched-Passes c r checks b, remove_all-In c records doomed key sorted i)
          | inr (inl (r, at, b), spared) ↦ inr (
            inl (r, at, unmatched-Passes c r checks b),
            remove_all-other c records doomed key spared,
          )
          | inr (inr at, spared) ↦ inr (inr at, remove_all-other c records doomed key spared)
        ],
        refl,
      )
