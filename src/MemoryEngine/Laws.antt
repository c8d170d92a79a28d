-- ===== src/MemoryEngine/Laws.antt =====
-- What the writes of the memory engine do to the spaces.
use Prim.Native.Nat.{Ordering}
use hyperdex_rs.Prelude.{
  ℕ, List, [], ◌∷◌, none, some, ◌≡◌, ◌≢◌, refl, ap, Bool-cases, inl, inr, if◌then◌else◌,
}
use hyperdex_rs.Prelude.{Result, ok, err, ◌>>=◌}
use hyperdex_rs.DataModel.{Value, Record, Check, NumericOp, Mutation, set_attribute, numeric}
use hyperdex_rs.DataModel.Maps.{get, insert, get-insert, get-insert_other}
use hyperdex_rs.MemoryEngine.{
  written, condition_failed, StorageError, non_numeric_value, Records, Spaces, new_record,
  or_insert, with_attribute, apply_mutation, apply_mutations, put, condition_holds, conditional_put,
  get_record,
}

-- What stands at every key behind a write of one record
pub record IsWrittenAt (spaces spaces' : Spaces) (space key : List ℕ) (r : Record) : Type 0 where
  pub here : get_record spaces' space key ≡ some r
  pub other_keys :
      (key' : List ℕ) → key' ≢ key → get_record spaces' space key' ≡ get_record spaces space key'
  pub other_spaces :
      (space' key' : List ℕ)
      → space' ≢ space
      → get_record spaces' space' key' ≡ get_record spaces space' key'

written_at :
    (spaces : Spaces) (space key : List ℕ) (records : Records) (r : Record)
    → get spaces space ≡ some records
    → IsWrittenAt spaces (insert spaces space (insert records key r)) space key r
unfolding get_record
written_at spaces space key records r h = record {
  here = rw (get_record, get-insert spaces space (insert records key r), get-insert records key r);
  other_keys = λ key' different. rw (
    get_record,
    get-insert spaces space (insert records key r),
    get-insert_other records key key' r different,
    h,
  );
  other_spaces = λ space' key' different.
      rw (get_record, get-insert_other spaces space space' (insert records key r) different);
}

abbrev refused_with :
    Result (Unit {0}) StorageError × Record → Result (Unit {0}) StorageError × Record
refused_with step = (err non_numeric_value, step.1)

module _ (compare_float : ℕ → ℕ → Ordering) where
  -- A put into a space that exists stores the record that its mutations make of the one that was
  -- there, or of a new one, and stores what they made up to the failing one when one fails; its
  -- result is written or that failure, and no other record changes.
  pub put-get :
      (spaces : Spaces) (space key : List ℕ) (mutations : List Mutation) (records : Records)
      → (result : Result (Unit {0}) StorageError) (r : Record) → get spaces space ≡ some records
      → apply_mutations compare_float (or_insert (get records key) (new_record key)) mutations
        ≡ (result, r)
      → ((put compare_float spaces space key mutations).0 ≡ (result >>= λ _. ok written))
        × IsWrittenAt spaces (put compare_float spaces space key mutations).1 space key r
  unfolding put
  put-get spaces space key mutations records result r h applied =
      rw (put, h, applied) (refl, written_at spaces space key records r h)

  -- In a space that exists, a conditional put is a put where the condition holds, and changes
  -- nothing where it does not.
  pub conditional_put-put :
      (spaces : Spaces) (space key : List ℕ) (checks : List Check) (mutations : List Mutation)
      → (records : Records) → get spaces space ≡ some records
      → conditional_put compare_float spaces space key checks mutations ≡ (
          if condition_holds compare_float (get records key) checks
          then put compare_float spaces space key mutations
          else (ok condition_failed, spaces))
  unfolding conditional_put put
  conditional_put-put spaces space key checks mutations records h =
      elim (Bool-cases (condition_holds compare_float (get records key) checks)) [
        | inl e ↦ rw (conditional_put, put, h, e)
        | inr e ↦ rw (conditional_put, put, h, e)
      ]

  number_refused :
      (r : Record) (name text : List ℕ) (op : NumericOp) (operand : ℕ)
      → get r.attributes name ≡ some (Value.string text)
      → apply_mutation compare_float r (numeric name op operand) ≡ (err non_numeric_value, r)
  unfolding apply_mutation
  number_refused r name text op operand h = rw (apply_mutation, h)

  string_then_number :
      (r : Record) (name text : List ℕ) (op : NumericOp) (operand : ℕ)
      → apply_mutations compare_float r (
          set_attribute (record { name = name; value = Value.string text })
          ∷ numeric name op operand
          ∷ [])
        ≡ (err non_numeric_value, with_attribute r name (Value.string text))
  unfolding apply_mutations apply_mutation
  string_then_number r name text op operand =
      let refused =
        number_refused (with_attribute r name (Value.string text)) name text op operand
          (get-insert r.attributes name (Value.string text)) in
      rw (apply_mutations, refused) (ap refused_with refused)

  -- A put that fails is not undone: in a space that exists, setting an attribute of an absent
  -- record to a string and then adding to it, or any other operation on numbers, is refused and
  -- leaves a record with the string.
  pub put_fails :
      (spaces : Spaces) (space key name text : List ℕ) (op : NumericOp) (operand : ℕ)
      (records : Records)
      → get spaces space ≡ some records
      → get records key ≡ none
      → ((put compare_float spaces space key (
            set_attribute (record { name = name; value = Value.string text })
            ∷ numeric name op operand
            ∷ [])).0
          ≡ err non_numeric_value)
        × (get_record
              (put compare_float spaces space key (
                set_attribute (record { name = name; value = Value.string text })
                ∷ numeric name op operand
                ∷ [])).1
              space
              key
            ≡ some (with_attribute (new_record key) name (Value.string text)))
  put_fails spaces space key name text op operand records h absent =
      let r = with_attribute (new_record key) name (Value.string text) in
      let (result, at) =
        put-get spaces space key
          (set_attribute (record { name = name; value = Value.string text })
            ∷ numeric name op operand
            ∷ [])
          records (err non_numeric_value) r h
          (rw absent (string_then_number (new_record key) name text op operand)) in
      (result, at.here)
