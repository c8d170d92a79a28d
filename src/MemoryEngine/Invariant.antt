-- ===== src/MemoryEngine/Invariant.antt =====
-- The stores that the engine's operations lead to, and what holds of all of them.
use Prim.Native.Nat.{Ordering}
use hyperdex_rs.Prelude.{
  ℕ, ◌≡◌, ◌≢◌, ◌⊎◌, refl, List, [], ◌∷◌, none, some, Option-cases, Bool-cases, inl, inr,
}
use hyperdex_rs.Prelude.{ok}
use hyperdex_rs.DataModel.{Check, Mutation}
use hyperdex_rs.DataModel.Maps.{get, insert, remove, get-insert}
use hyperdex_rs.DataModel.Sorted.{
  IsSorted, insert-IsSorted, remove-IsSorted, get-remove, get-remove_other, AllValues,
  AllValues-insert, AllValues-remove, AllValues-get,
}
use hyperdex_rs.MemoryEngine.{
  written, missing, Records, Spaces, put, conditional_put, condition_holds, delete, delete_matching,
  remove_all, create_space, drop_space, get_record,
}
use hyperdex_rs.MemoryEngine.Laws.{conditional_put-put}

-- The spaces are in the order of their names, and the records of each in the order of their keys.
pub record IsStore (spaces : Spaces) : Type 0 where
  pub sorted : IsSorted spaces
  pub records : AllValues IsSorted spaces

module _ (compare_float : ℕ → ℕ → Ordering) where
  -- An engine that starts empty and goes through any sequence of operations that write
  pub data Stored : Spaces → Type 0 where
    started : Stored []
    created : (s : Spaces) (space : List ℕ) → Stored s → Stored (create_space s space)
    dropped : (s : Spaces) (space : List ℕ) → Stored s → Stored (drop_space s space)
    put_at :
        (s : Spaces) (space key : List ℕ) (mutations : List Mutation)
        → Stored s
        → Stored (put compare_float s space key mutations).1
    put_if :
        (s : Spaces) (space key : List ℕ) (checks : List Check) (mutations : List Mutation)
        → Stored s
        → Stored (conditional_put compare_float s space key checks mutations).1
    deleted : (s : Spaces) (space key : List ℕ) → Stored s → Stored (delete s space key).1
    deleted_matching :
        (s : Spaces) (space : List ℕ) (checks : List Check)
        → Stored s
        → Stored (delete_matching compare_float s space checks).1

insert-IsStore :
    (spaces : Spaces) (space : List ℕ) (records : Records)
    → IsStore spaces
    → IsSorted records
    → IsStore (insert spaces space records)
insert-IsStore spaces space records h k = record {
  sorted = insert-IsSorted spaces space records h.sorted;
  records = AllValues-insert IsSorted spaces space records k h.records;
}

remove_all-IsSorted :
    (c : ℕ → ℕ → Ordering) (records : Records) (doomed : List (List ℕ))
    → IsSorted records
    → IsSorted (remove_all c records doomed)
unfolding remove_all
remove_all-IsSorted c records [] h = h
remove_all-IsSorted c records (key ∷ doomed) h =
    remove_all-IsSorted c (remove records key) doomed (remove-IsSorted records key h)

module _ (spaces : Spaces) (space : List ℕ) (h : IsStore spaces) where
  create_space-IsStore : IsStore (create_space spaces space)
  unfolding create_space
  create_space-IsStore = elim (Option-cases (get spaces space)) [
    | inl e ↦ rw (create_space, e) (insert-IsStore spaces space [] h tt)
    | inr (records, e) ↦ rw (create_space, e) h
  ]

  drop_space-IsStore : IsStore (drop_space spaces space)
  unfolding drop_space
  drop_space-IsStore = record {
    sorted = remove-IsSorted spaces space h.sorted;
    records = AllValues-remove IsSorted spaces space h.records;
  }

  delete-IsStore : (key : List ℕ) → IsStore (delete spaces space key).1
  unfolding delete
  delete-IsStore key = elim (Option-cases (get spaces space)) [
    | inl e ↦ rw (delete, e) h
    | inr (records, e) ↦
        rw (delete, e)
          (insert-IsStore spaces space (remove records key) h
            (remove-IsSorted records key (AllValues-get IsSorted spaces space records h.records e)))
  ]

  put-IsStore :
      (compare_float : ℕ → ℕ → Ordering) (key : List ℕ) (mutations : List Mutation)
      → IsStore (put compare_float spaces space key mutations).1
  unfolding put
  put-IsStore compare_float key mutations = elim (Option-cases (get spaces space)) [
    | inl e ↦ rw (put, e) h
    | inr (records, e) ↦
        rw (put, e)
          (insert-IsStore spaces space _ h (
            insert-IsSorted records key _
              (AllValues-get IsSorted spaces space records h.records e)))
  ]

  conditional_put-IsStore :
      (compare_float : ℕ → ℕ → Ordering) (key : List ℕ) (checks : List Check)
      (mutations : List Mutation)
      → IsStore (conditional_put compare_float spaces space key checks mutations).1
  unfolding conditional_put
  conditional_put-IsStore compare_float key checks mutations =
      elim (Option-cases (get spaces space)) [
        | inl e ↦ rw (conditional_put, e) h
        | inr (records, e) ↦
            rw (conditional_put-put compare_float spaces space key checks mutations records e)
              (elim (Bool-cases (condition_holds compare_float (get records key) checks)) [
                | inl b ↦ rw b (put-IsStore compare_float key mutations)
                | inr b ↦ rw b h
              ])
      ]

  delete_matching-IsStore :
      (compare_float : ℕ → ℕ → Ordering) (checks : List Check)
      → IsStore (delete_matching compare_float spaces space checks).1
  unfolding delete_matching
  delete_matching-IsStore compare_float checks = elim (Option-cases (get spaces space)) [
    | inl e ↦ rw (delete_matching, e) h
    | inr (records, e) ↦
        rw (delete_matching, e)
          (insert-IsStore spaces space _ h (
            remove_all-IsSorted compare_float records _
              (AllValues-get IsSorted spaces space records h.records e)))
  ]

-- Whatever sequence of operations the engine goes through, its spaces are in the order of their
-- names and the records of each space are in the order of their keys, none twice.
pub Stored-IsStore :
    (compare_float : ℕ → ℕ → Ordering) (spaces : Spaces)
    → Stored compare_float spaces
    → IsStore spaces
Stored-IsStore c _ Stored.started = record { sorted = tt; records = tt }
Stored-IsStore c _ (Stored.created s space r) = create_space-IsStore s space (Stored-IsStore c s r)
Stored-IsStore c _ (Stored.dropped s space r) = drop_space-IsStore s space (Stored-IsStore c s r)
Stored-IsStore c _ (Stored.put_at s space key ms r) =
    put-IsStore s space (Stored-IsStore c s r) c key ms
Stored-IsStore c _ (Stored.put_if s space key checks ms r) =
    conditional_put-IsStore s space (Stored-IsStore c s r) c key checks ms
Stored-IsStore c _ (Stored.deleted s space key r) =
    delete-IsStore s space (Stored-IsStore c s r) key
Stored-IsStore c _ (Stored.deleted_matching s space checks r) =
    delete_matching-IsStore s space (Stored-IsStore c s r) c checks

-- In a space of a store that operations have led to, deleting says whether there was a record at the
-- key, leaves none there, and leaves every other record as it was.
pub delete-get_record :
    (compare_float : ℕ → ℕ → Ordering) (spaces : Spaces) (space key other : List ℕ)
    (records : Records)
    → Stored compare_float spaces
    → get spaces space ≡ some records
    → other ≢ key
    → ((((delete spaces space key).0 ≡ ok missing) × (get_record spaces space key ≡ none))
        ⊎ (((delete spaces space key).0 ≡ ok written) × (get_record spaces space key ≢ none)))
      × (get_record (delete spaces space key).1 space key ≡ none)
      × (get_record (delete spaces space key).1 space other ≡ get_record spaces space other)
unfolding delete get_record
delete-get_record c spaces space key other records stored e different =
    let sorted =
      AllValues-get IsSorted spaces space records (Stored-IsStore c spaces stored).records e in
    let gone = get-remove records key sorted in
    let kept = get-remove_other records key other different in
    rw (delete, get_record, e, get-insert spaces space (remove records key))
      (
        elim (Option-cases (get records key)) [
          | inl absent ↦ rw absent (inl (refl, refl))
          | inr (r, present) ↦ rw present (inr (refl, λ no. cc))
        ],
        gone,
        kept,
      )
