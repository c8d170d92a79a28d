-- ===== src/DataModel.antt =====
-- crates/data-model/src/lib.rs: values with their derived order, records, checks and mutations, and
-- the ordered maps that the engine keeps them in. An `i64` is the word of 64 bits that stands for it
-- in two's complement and a float is its bits; names and keys are lists of bytes.
pub mod Maps
pub mod Sorted
pub mod Space
use Prim.Native.Nat.{compare, Ordering}
use hyperdex_rs.Prelude.{ℕ, ◌+◌, ◌%◌, List, [], ◌∷◌, Bool, true, false, if◌then◌else◌}
use hyperdex_rs.Prelude.Words.{u64_mod}
use hyperdex_rs.Prelude.{then_with}

mutual
  pub data Value : Type 0 where
    null : Value
    bool : Bool → Value
    int float : ℕ → Value
    bytes string : List ℕ → Value
    list set : Values → Value
    map : Entries → Value

  pub data Values : Type 0 where
    nil : Values
    cons : Value → Values → Values

  pub data Entries : Type 0 where
    empty : Entries
    entry : Value → Value → Entries → Entries

pub record Attribute : Type 0 where
  pub name : List ℕ
  pub value : Value

pub record Record : Type 0 where
  pub key : List ℕ
  pub attributes : List (List ℕ × Value)

pub data Predicate : Type 0 where
  equal less_than less_than_or_equal greater_than greater_than_or_equal : Predicate

pub record Check : Type 0 where
  pub attribute : List ℕ
  pub predicate : Predicate
  pub value : Value

pub data NumericOp : Type 0 where
  add sub mul div modulo and or xor : NumericOp

pub data Mutation : Type 0 where
  set_attribute : Attribute → Mutation
  numeric : List ℕ → NumericOp → ℕ → Mutation
  map_set : List ℕ → Value → Value → Mutation
  map_numeric : List ℕ → Value → NumericOp → ℕ → Mutation

-- The derived order of byte strings, and of the whole numbers in two's complement
unfoldable pub compare_bytes : List ℕ → List ℕ → Ordering
compare_bytes [] [] = Ordering.eq
compare_bytes [] (y ∷ ys) = Ordering.lt
compare_bytes (x ∷ xs) [] = Ordering.gt
compare_bytes (x ∷ xs) (y ∷ ys) = then_with (compare x y) (compare_bytes xs ys)

abbrev pub i64_biased : ℕ → ℕ
i64_biased n = (n + 0x8000_0000_0000_0000) % u64_mod

abbrev pub bool_rank : Bool → ℕ
bool_rank b = if b then 1 else 0

-- The position of a value's constructor
unfoldable pub rank : Value → ℕ
rank null = 0
rank (bool b) = 1
rank (int n) = 2
rank (float n) = 3
rank (bytes xs) = 4
rank (string xs) = 5
rank (list vs) = 6
rank (set vs) = 7
rank (map es) = 8

-- The order of floats is the one of `ordered_float`.
module _ (compare_float : ℕ → ℕ → Ordering) where
  unfoldable mutual
    unfolding compare_bytes rank

    pub compare_value : Value → Value → Ordering
    compare_value (bool a) (bool b) = compare (bool_rank a) (bool_rank b)
    compare_value (int a) (int b) = compare (i64_biased a) (i64_biased b)
    compare_value (float a) (float b) = compare_float a b
    compare_value (bytes a) (bytes b) = compare_bytes a b
    compare_value (string a) (string b) = compare_bytes a b
    compare_value (list a) (list b) = compare_values a b
    compare_value (set a) (set b) = compare_values a b
    compare_value (map a) (map b) = compare_entries a b
    compare_value a b = compare (rank a) (rank b)

    pub compare_values : Values → Values → Ordering
    compare_values nil nil = Ordering.eq
    compare_values nil (cons y ys) = Ordering.lt
    compare_values (cons x xs) nil = Ordering.gt
    compare_values (cons x xs) (cons y ys) = then_with (compare_value x y) (compare_values xs ys)

    pub compare_entries : Entries → Entries → Ordering
    compare_entries empty empty = Ordering.eq
    compare_entries empty (entry k v ys) = Ordering.lt
    compare_entries (entry k v xs) empty = Ordering.gt
    compare_entries (entry k v xs) (entry l w ys) =
        then_with (compare_value k l) (then_with (compare_value v w) (compare_entries xs ys))
