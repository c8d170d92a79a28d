-- ===== src/MemoryEngine/Examples.antt =====
-- Worked runs of the memory engine.
use Prim.Native.Nat.{compare}
use hyperdex_rs.Prelude.{ℕ, List, [], ◌∷◌, ◌-◌, ◌*◌, none, some, ◌≡◌, refl}
use hyperdex_rs.Prelude.{ok, err, panic}
use hyperdex_rs.DataModel.{
  Value, Attribute, Record, Predicate, Check, NumericOp, Mutation, set_attribute, numeric,
}
use hyperdex_rs.DataModel.Maps.{get}
use hyperdex_rs.MemoryEngine.{
  WriteResult, written, condition_failed, non_numeric_value, Records, Spaces, new_record, or_insert,
  with_attribute, apply_mutations, put, condition_holds, conditional_put, get_record, StorageError,
}
use hyperdex_rs.MemoryEngine.Numbers.{i64_min, apply_numeric}
use hyperdex_rs.MemoryEngine.{delete, missing, create_space}
use hyperdex_rs.MemoryEngine.Invariant.{Stored, delete-get_record}
use hyperdex_rs.Prelude.{◌⊎◌, ◌≢◌}
use hyperdex_rs.MemoryEngine.Laws.{IsWrittenAt, put-get, put_fails}
use hyperdex_rs.MemoryEngine.{delete_matching, count}
use hyperdex_rs.MemoryEngine.Conditions.{Passes, Allows, conditional_put-Allows}
use hyperdex_rs.MemoryEngine.Deletion.{delete_matching-Passes}
use hyperdex_rs.Prelude.{All}

abbrev name : List ℕ
name = 110 ∷ []

abbrev key : List ℕ
key = 107 ∷ []

abbrev space : List ℕ
space = 115 ∷ []

abbrev spaces : Spaces
spaces = (space, []) ∷ []

abbrev no_records : Records
no_records = []

abbrev add_two : Mutation
add_two = numeric name NumericOp.add 2

abbrev two : Record
two = record { key = key; attributes = (name, Value.int 2) ∷ [] }

abbrev is_two : Check
is_two = record { attribute = name; predicate = Predicate.equal; value = Value.int 2 }

-- The largest number is not exceeded, and the least cannot be divided by -1.
largest : apply_numeric {E = StorageError} (i64_min - 1) NumericOp.add 1 ≡ ok (i64_min - 1)
unfolding apply_numeric
largest = refl

least : apply_numeric {E = StorageError} i64_min NumericOp.div (2 * i64_min - 1) ≡ panic
unfolding apply_numeric
least = refl

seven_by_minus_two :
    apply_numeric {E = StorageError} 7 NumericOp.div (2 * i64_min - 2) ≡ ok (2 * i64_min - 3)
unfolding apply_numeric
seven_by_minus_two = refl

space_exists : get spaces space ≡ some no_records
unfolding get hyperdex_rs.DataModel.compare_bytes
space_exists = refl

key_absent : get no_records key ≡ none
unfolding get
key_absent = refl

added :
    apply_mutations compare (or_insert (get no_records key) (new_record key)) (add_two ∷ [])
    ≡ (ok tt, two)
unfolding get apply_mutations hyperdex_rs.MemoryEngine.apply_mutation apply_numeric
    hyperdex_rs.DataModel.Maps.insert
added = refl

put-get_example :
    ((put compare spaces space key (add_two ∷ [])).0 ≡ ok written)
    × IsWrittenAt spaces (put compare spaces space key (add_two ∷ [])).1 space key two
put-get_example =
    put-get compare spaces space key (add_two ∷ []) no_records (ok tt) two space_exists added

abbrev text_then_number : List Mutation
text_then_number =
    set_attribute (record { name = name; value = Value.string key })
    ∷ numeric name NumericOp.add 1
    ∷ []

put_fails_example :
    ((put compare spaces space key text_then_number).0 ≡ err non_numeric_value)
    × (get_record (put compare spaces space key text_then_number).1 space key
        ≡ some (with_attribute (new_record key) name (Value.string key)))
put_fails_example =
    put_fails compare spaces space key name key NumericOp.add 1 no_records space_exists key_absent

abbrev stored : Spaces
stored = (put compare (create_space [] space) space key (add_two ∷ [])).1

stored-Stored : Stored compare stored
stored-Stored =
    Stored.put_at (create_space [] space) space key (add_two ∷ [])
      (Stored.created [] space Stored.started)

abbrev stored_records : Records
stored_records = (key, two) ∷ []

stored_space : get stored space ≡ some stored_records
unfolding get put create_space hyperdex_rs.DataModel.Maps.insert hyperdex_rs.DataModel.compare_bytes
    apply_mutations hyperdex_rs.MemoryEngine.apply_mutation apply_numeric
stored_space = refl

delete-get_record_example :
    ((((delete stored space key).0 ≡ ok missing) × (get_record stored space key ≡ none))
      ⊎ (((delete stored space key).0 ≡ ok written) × (get_record stored space key ≢ none)))
    × (get_record (delete stored space key).1 space key ≡ none)
    × (get_record (delete stored space key).1 space [] ≡ get_record stored space [])
delete-get_record_example =
    delete-get_record compare stored space key [] stored_records stored-Stored stored_space
      (λ e. cc)

-- The record with two passes the check, so it is deleted.
two_deleted : delete_matching compare stored space (is_two ∷ []) ≡ (ok 1, (space, []) ∷ [])
unfolding delete_matching get put create_space hyperdex_rs.DataModel.Maps.insert
    hyperdex_rs.DataModel.Maps.remove hyperdex_rs.DataModel.compare_bytes apply_mutations
    hyperdex_rs.MemoryEngine.apply_mutation apply_numeric hyperdex_rs.MemoryEngine.matching
    hyperdex_rs.MemoryEngine.remove_all hyperdex_rs.MemoryEngine.record_matches
    hyperdex_rs.MemoryEngine.matches_predicate hyperdex_rs.DataModel.compare_value
two_deleted = refl

conditional_put-Allows_example :
    (Allows compare (get_record stored space key) (is_two ∷ [])
      × (conditional_put compare stored space key (is_two ∷ []) (add_two ∷ [])
          ≡ put compare stored space key (add_two ∷ [])))
    ⊎ ((¬ Allows compare (get_record stored space key) (is_two ∷ []))
        × (conditional_put compare stored space key (is_two ∷ []) (add_two ∷ [])
            ≡ (ok condition_failed, stored)))
conditional_put-Allows_example =
    conditional_put-Allows compare stored space key (is_two ∷ []) (add_two ∷ []) stored_records
      stored_space

delete_matching-Passes_example :
    ((delete_matching compare stored space (is_two ∷ [])).0
      ≡ count compare stored space (is_two ∷ []))
    × (((r : Record) × (get_record stored space key ≡ some r)
          × All (Passes compare r) (is_two ∷ [])
          × (get_record (delete_matching compare stored space (is_two ∷ [])).1 space key ≡ none))
        ⊎ (((r : Record) × (get_record stored space key ≡ some r)
              × (¬ All (Passes compare r) (is_two ∷ [])))
            ⊎ (get_record stored space key ≡ none))
          × (get_record (delete_matching compare stored space (is_two ∷ [])).1 space key
              ≡ get_record stored space key))
    × (get_record (delete_matching compare stored space (is_two ∷ [])).1 [] key
        ≡ get_record stored [] key)
delete_matching-Passes_example =
    delete_matching-Passes compare stored space key [] key (is_two ∷ []) stored_records
      stored-Stored stored_space (λ e. cc)
