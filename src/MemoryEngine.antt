-- ===== src/MemoryEngine.antt =====
-- crates/engine-memory/src/lib.rs, with the types of crates/storage-core/src/lib.rs: the engine that
-- keeps its spaces in memory. An operation gives its result and the spaces it leaves; the lock is
-- held for a whole operation. A panic leaves what was changed up to it.
pub mod Numbers
pub mod Laws
pub mod Invariant
pub mod Conditions
pub mod Deletion
mod Examples
use Prim.Native.Nat.{Ordering}
use hyperdex_rs.Prelude.{
  ℕ, List, [], ◌∷◌, Option, none, some, Bool, true, false, not, ◌&&◌, ◌==◌, map, if◌then◌else◌,
  length,
}
use hyperdex_rs.Prelude.{Result, ok, err, panic, ◌>>=◌}
use hyperdex_rs.DataModel.{
  Value, Entries, empty, entry, Attribute, Record, Predicate, Check, NumericOp, Mutation,
  set_attribute, numeric, map_set, map_numeric, compare_value,
}
use hyperdex_rs.DataModel.Maps.{get, insert, remove}
use Numbers.{apply_numeric}

pub data WriteResult : Type 0 where
  written condition_failed missing : WriteResult

pub data StorageError : Type 0 where
  unknown_space : List ℕ → StorageError
  non_numeric_value : StorageError

abbrev pub Records : Type 0
Records = List (List ℕ × Record)

abbrev pub Spaces : Type 0
Spaces = List (List ℕ × Records)

abbrev pub new_record : List ℕ → Record
new_record key = record { key = key; attributes = [] }

-- `entry(key).or_insert(value)`: what stands there afterwards
abbrev pub or_insert : {V : Type 0} → Option V → V → V
or_insert none default = default
or_insert (some v) default = v

abbrev pub with_attribute : Record → List ℕ → Value → Record
with_attribute r name value = record r { attributes = insert r.attributes name value }

-- Both branches of an integer operation write to the place: the new number, or, behind a panic,
-- what stood there.
abbrev pub number_of : {E : Type 0} → ℕ → Result ℕ E → ℕ
number_of current (ok n) = n
number_of current _ = current

abbrev pub ended : {E : Type 0} → Result ℕ E → Result (Unit {0}) E
ended (ok n) = ok tt
ended (err e) = err e
ended panic = panic

-- The operators `==`, `<`, `<=`, `>` and `>=` by the order of their operands
abbrev pub holds : Predicate → Ordering → Bool
holds Predicate.equal Ordering.eq = true
holds Predicate.less_than Ordering.lt = true
holds Predicate.less_than_or_equal Ordering.lt = true
holds Predicate.less_than_or_equal Ordering.eq = true
holds Predicate.greater_than Ordering.gt = true
holds Predicate.greater_than_or_equal Ordering.gt = true
holds Predicate.greater_than_or_equal Ordering.eq = true
holds _ _ = false

module _ (compare_float : ℕ → ℕ → Ordering) where
  unfoldable pub entries_get : Entries → Value → Option Value
  entries_get empty key = none
  entries_get (entry k v es) key = elim (compare_value compare_float key k) [
    | Ordering.eq ↦ some v
    | _ ↦ entries_get es key
  ]

  unfoldable pub entries_insert : Entries → Value → Value → Entries
  entries_insert empty key value = entry key value empty
  entries_insert (entry k v es) key value = elim (compare_value compare_float key k) [
    | Ordering.lt ↦ entry key value (entry k v es)
    | Ordering.eq ↦ entry k value es
    | Ordering.gt ↦ entry k v (entries_insert es key value)
  ]

  unfoldable pub matches_predicate : Value → Predicate → Value → Bool
  matches_predicate left predicate right = holds predicate (compare_value compare_float left right)

  unfoldable pub record_matches : Record → List Check → Bool
  record_matches r [] = true
  record_matches r (check ∷ checks) =
      elim (get r.attributes check.attribute) [
        | none ↦ false
        | some value ↦ matches_predicate value check.predicate check.value
      ]
      && record_matches r checks

  unfoldable pub apply_map_numeric :
      Record → List ℕ → Entries → Value → NumericOp → ℕ → Result (Unit {0}) StorageError × Record
  apply_map_numeric r attribute es map_key op operand =
      elim (or_insert (entries_get es map_key) (Value.int 0)) [
        | Value.int current ↦ (
          ended (apply_numeric {E = StorageError} current op operand),
          with_attribute r attribute (
              Value.map (
                entries_insert es map_key (
                  Value.int
                    (number_of current (apply_numeric {E = StorageError} current op operand))))),
        )
        | _ ↦ (err non_numeric_value, r)
      ]

  unfoldable pub apply_mutation : Record → Mutation → Result (Unit {0}) StorageError × Record
  unfolding apply_map_numeric
  apply_mutation r (set_attribute a) = (ok tt, with_attribute r a.name a.value)
  apply_mutation r (numeric attribute op operand) =
      elim (or_insert (get r.attributes attribute) (Value.int 0)) [
        | Value.int current ↦ (
          ended (apply_numeric {E = StorageError} current op operand),
          with_attribute r attribute
              (Value.int (number_of current (apply_numeric {E = StorageError} current op operand))),
        )
        | _ ↦ (err non_numeric_value, r)
      ]
  apply_mutation r (map_set attribute map_key value) =
      elim (or_insert (get r.attributes attribute) (Value.map empty)) [
        | Value.map es ↦
            (ok tt, with_attribute r attribute (Value.map (entries_insert es map_key value)))
        | _ ↦ (err non_numeric_value, r)
      ]
  apply_mutation r (map_numeric attribute map_key op operand) =
      elim (or_insert (get r.attributes attribute) (Value.map empty)) [
        | Value.map es ↦ apply_map_numeric r attribute es map_key op operand
        | _ ↦ (err non_numeric_value, r)
      ]

  -- The loop ends at the first mutation that fails.
  unfoldable pub apply_mutations : Record → List Mutation → Result (Unit {0}) StorageError × Record
  apply_mutations r [] = (ok tt, r)
  apply_mutations r (mutation ∷ mutations) =
      let step = apply_mutation r mutation in
      elim step.0 [
        | ok _ ↦ apply_mutations step.1 mutations
        | err e ↦ (err e, step.1)
        | panic ↦ (panic, step.1)
      ]

  unfoldable pub put :
      Spaces → List ℕ → List ℕ → List Mutation → Result WriteResult StorageError × Spaces
  put spaces space key mutations = elim (get spaces space) [
    | none ↦ (err (unknown_space space), spaces)
    | some records ↦
        let step = apply_mutations (or_insert (get records key) (new_record key)) mutations in
        (step.0 >>= λ _. ok written, insert spaces space (insert records key step.1))
  ]

  -- Whether the checks let a write through: those of an absent record only when there are none.
  unfoldable pub condition_holds : Option Record → List Check → Bool
  condition_holds (some r) checks = record_matches r checks
  condition_holds none checks = length checks == 0

  unfoldable pub conditional_put :
      Spaces
      → List ℕ
      → List ℕ
      → List Check
      → List Mutation
      → Result WriteResult StorageError × Spaces
  unfolding condition_holds
  conditional_put spaces space key checks mutations = elim (get spaces space) [
    | none ↦ (err (unknown_space space), spaces)
    | some records ↦
        let step = apply_mutations (or_insert (get records key) (new_record key)) mutations in
        if not (condition_holds (get records key) checks)
        then (ok condition_failed, spaces)
        else (step.0 >>= λ _. ok written, insert spaces space (insert records key step.1))
  ]

  unfoldable pub matching : List Check → Records → Records
  matching checks [] = []
  matching checks ((key, r) ∷ records) =
      if record_matches r checks
      then (key, r) ∷ matching checks records
      else matching checks records

  unfoldable pub search : Spaces → List ℕ → List Check → Result (List Record) StorageError
  search spaces space checks = elim (get spaces space) [
    | none ↦ err (unknown_space space)
    | some records ↦ ok (map (λ (p : List ℕ × Record). p.1) (matching checks records))
  ]

  unfoldable pub count : Spaces → List ℕ → List Check → Result ℕ StorageError
  unfolding search
  count spaces space checks = search spaces space checks >>= λ found. ok (length found)

  unfoldable pub remove_all : Records → List (List ℕ) → Records
  remove_all records [] = records
  remove_all records (key ∷ doomed) = remove_all (remove records key) doomed

  unfoldable pub delete_matching : Spaces → List ℕ → List Check → Result ℕ StorageError × Spaces
  delete_matching spaces space checks = elim (get spaces space) [
    | none ↦ (err (unknown_space space), spaces)
    | some records ↦
        let doomed = map (λ (p : List ℕ × Record). p.0) (matching checks records) in
        (ok (length doomed), insert spaces space (remove_all records doomed))
  ]

unfoldable pub get_record : Spaces → List ℕ → List ℕ → Option Record
get_record spaces space key = elim (get spaces space) [
  | none ↦ none
  | some records ↦ get records key
]

unfoldable pub delete : Spaces → List ℕ → List ℕ → Result WriteResult StorageError × Spaces
delete spaces space key = elim (get spaces space) [
  | none ↦ (err (unknown_space space), spaces)
  | some records ↦ (
    elim (get records key) [ none ↦ ok missing | some r ↦ ok written ],
    insert spaces space (remove records key),
  )
]

unfoldable pub space_names : Spaces → List (List ℕ)
space_names spaces = map (λ (p : List ℕ × Records). p.0) spaces

unfoldable pub create_space : Spaces → List ℕ → Spaces
create_space spaces space = elim (get spaces space) [
  | none ↦ insert spaces space []
  | some r ↦ spaces
]

unfoldable pub drop_space : Spaces → List ℕ → Spaces
drop_space spaces space = remove spaces space
