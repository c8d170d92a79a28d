-- ===== src/Server/Picked.antt =====
-- Choosing servers by their positions in a list without repetitions.
use hyperdex_rs.Prelude.{
  ℕ, zero, suc, ◌<◌, List, [], ◌∷◌, some, true, false, ◌≡◌, ◌≢◌, refl, ap, ◌∙◌, arith, length,
  get_elem?, All,
}
use hyperdex_rs.Prelude.{Result, ok, ◌>>=◌, Ensures, Ensures-bind}
use hyperdex_rs.Prelude.Slices.{index}
use hyperdex_rs.Placement.{contains}
use hyperdex_rs.Placement.Members.{Distinct}
use hyperdex_rs.Server.{ConfigError}

get_elem?-contains : (xs : List ℕ) (i x : ℕ) → get_elem? xs i ≡ some x → contains xs x ≡ true
get_elem?-contains [] i x h = cc
get_elem?-contains (y ∷ ys) zero x h = grind arith
get_elem?-contains (y ∷ ys) (suc i) x h = grind (arith, get_elem?-contains ys i x h)

-- In a list without repetitions an element stands at one position.
get_elem?-position :
    (xs : List ℕ) (i j x : ℕ)
    → Distinct xs
    → get_elem? xs i ≡ some x
    → get_elem? xs j ≡ some x
    → i ≡ j
get_elem?-position [] i j x d hi hj = cc
get_elem?-position (y ∷ ys) zero zero x d hi hj = refl
get_elem?-position (y ∷ ys) zero (suc j) x d hi hj = let found = get_elem?-contains ys j x hj in cc
get_elem?-position (y ∷ ys) (suc i) zero x d hi hj = let found = get_elem?-contains ys i x hi in cc
get_elem?-position (y ∷ ys) (suc i) (suc j) x d hi hj =
    ap suc (get_elem?-position ys i j x d.1 hi hj)

-- The element stands at a position of the kind.
pub record Placed (ids : List ℕ) (Q : ℕ → Type 0) (x : ℕ) : Type 0 where
  pub position : ℕ
  pub at : get_elem? ids position ≡ some x
  pub kind : Q position

-- Servers at different positions of a kind
pub record Picked (ids : List ℕ) (Q : ℕ → Type 0) (n : ℕ) (set : List ℕ) : Type 0 where
  pub size : length set ≡ n
  pub distinct : Distinct set
  pub placed : All (Placed ids Q) set

module _ (ids : List ℕ) (d : Distinct ids) where
  absent :
      (Q : ℕ → Type 0) (i x : ℕ) (set : List ℕ)
      → ((k : ℕ) → Q k → i ≢ k)
      → get_elem? ids i ≡ some x
      → All (Placed ids Q) set
      → contains set x ≡ false
  absent Q i x [] other h placed = refl
  absent Q i x (y ∷ ys) other h placed =
      let p = placed.0 in
      let differs : y ≢ x = λ e.
        other p.position p.kind (get_elem?-position ids i p.position x d h (p.at ∙ ap some e)) in
      grind (arith, absent Q i x ys other h placed.1)

  All-weaken :
      (Q R : ℕ → Type 0) (set : List ℕ)
      → ((k : ℕ) → Q k → R k)
      → All (Placed ids Q) set
      → All (Placed ids R) set
  All-weaken Q R [] f placed = tt
  All-weaken Q R (x ∷ xs) f placed = (
    record {
      position = placed.0.position;
      at = placed.0.at;
      kind = f placed.0.position placed.0.kind;
    },
    All-weaken Q R xs f placed.1,
  )

  index-placed :
      (i : ℕ) (xs : List ℕ)
      → i < length xs
      → Ensures (λ x. get_elem? xs i ≡ some x) (index {E = ConfigError} xs i)
  unfolding index
  index-placed i [] h = absurd (omega arith)
  index-placed zero (x ∷ xs) h = refl
  index-placed (suc i) (x ∷ xs) h = index-placed i xs (omega arith)

  -- A server in front of those that stand at other positions
  pub Picked-index :
      (Q R : ℕ → Type 0) (i n : ℕ) (m : Result (List ℕ) ConfigError)
      → i < length ids
      → R i
      → ((k : ℕ) → Q k → i ≢ k)
      → ((k : ℕ) → Q k → R k)
      → Ensures (Picked ids Q n) m
      → Ensures (Picked ids R (suc n)) (index ids i >>= λ id. m >>= λ rest. ok (id ∷ rest))
  Picked-index Q R i n m inside r other f h =
      Ensures-bind _ _ (index ids i) _ (index-placed i ids inside) λ x at.
        Ensures-bind _ _ m _ h λ rest p. record {
          size = ap suc p.size;
          distinct = (absent Q i x rest other at p.placed, p.distinct);
          placed = (record { position = i; at = at; kind = r }, All-weaken Q R rest f p.placed);
        }

  pub Placed-contains :
      (Q : ℕ → Type 0) (set : List ℕ)
      → All (Placed ids Q) set
      → All (λ x. contains ids x ≡ true) set
  Placed-contains Q [] placed = tt
  Placed-contains Q (x ∷ xs) placed =
      (get_elem?-contains ids placed.0.position x placed.0.at, Placed-contains Q xs placed.1)
