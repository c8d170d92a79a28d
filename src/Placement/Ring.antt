-- ===== src/Placement/Ring.antt =====
-- The ring: its length, the owners of its tokens, and where they stand.
use hyperdex_rs.Prelude.{
  ℕ, zero, suc, ◌-◌, ◌*◌, ◌<◌, ◌≤◌, max, ◌≡◌, refl, ap, ◌∙◌, List, [], ◌∷◌, ◌++◌, Bool, true, false,
  ◌||◌, ◌==◌, inl, inr, arith, length, All, All-append, Bool-cases, length-append, get_elem?, some,
}
use Prim.Native.Nat.{Ordering}
use hyperdex_rs.Placement.{
  HyperToken, insert_by, sort_by, token_order, owner_tokens, ring_tokens, partition_point,
  hyperspace_ring_start, contains,
}
use hyperdex_rs.Placement.Sort.{length-sort_by, All-sort_by}
use hyperdex_rs.Placement.Members.{contains_all}

-- The ring that is built for the nodes where it fits the memory
abbrev pub sorted_ring : List ℕ → ℕ → List HyperToken
sorted_ring nodes tokens_per_node = sort_by token_order (ring_tokens nodes (max tokens_per_node 1))

length-owner_tokens : (owner i n : ℕ) → length (owner_tokens owner i n) ≡ n
unfolding owner_tokens
length-owner_tokens owner i zero = refl
length-owner_tokens owner i (suc n) = ap suc (length-owner_tokens owner (suc i) n)

length-ring_tokens : (nodes : List ℕ) (n : ℕ) → length (ring_tokens nodes n) ≡ length nodes * n
unfolding ring_tokens
length-ring_tokens [] n = omega arith
length-ring_tokens (owner ∷ nodes) n =
    length-append (owner_tokens owner 0 n) (ring_tokens nodes n)
    ∙ rw (length-owner_tokens owner 0 n, length-ring_tokens nodes n) (omega arith)

module _ (all : List ℕ) where
  owner_tokens-members :
      (owner i n : ℕ)
      → contains all owner ≡ true
      → All (λ t. contains all t.owner ≡ true) (owner_tokens owner i n)
  unfolding owner_tokens
  owner_tokens-members owner i zero h = tt
  owner_tokens-members owner i (suc n) h = (h, owner_tokens-members owner (suc i) n h)

  ring_tokens-members :
      (nodes : List ℕ) (n : ℕ)
      → All (λ m. contains all m ≡ true) nodes
      → All (λ t. contains all t.owner ≡ true) (ring_tokens nodes n)
  unfolding ring_tokens
  ring_tokens-members [] n h = tt
  ring_tokens-members (owner ∷ nodes) n h =
      All-append (λ t. contains all t.owner ≡ true) (owner_tokens owner 0 n) (ring_tokens nodes n)
        (owner_tokens-members owner 0 n h.0) (ring_tokens-members nodes n h.1)

-- Whether a token of the ring is the node's
abbrev pub has_owner : List HyperToken → ℕ → Bool
has_owner [] n = false
has_owner (t ∷ ts) n = t.owner == n || has_owner ts n

has_owner-append :
    (xs ys : List HyperToken) (n : ℕ) → has_owner (xs ++ ys) n ≡ (has_owner xs n || has_owner ys n)
has_owner-append [] ys n = refl
has_owner-append (x ∷ xs) ys n = grind (arith, has_owner-append xs ys n)

has_owner-owner_tokens :
    (owner i k n : ℕ) → has_owner (owner_tokens owner i (suc k)) n ≡ (owner == n)
unfolding owner_tokens
has_owner-owner_tokens owner i zero n = grind arith
has_owner-owner_tokens owner i (suc k) n = grind (arith, has_owner-owner_tokens owner (suc i) k n)

has_owner-ring_tokens :
    (nodes : List ℕ) (k n : ℕ) → has_owner (ring_tokens nodes (suc k)) n ≡ contains nodes n
unfolding ring_tokens
has_owner-ring_tokens [] k n = refl
has_owner-ring_tokens (owner ∷ nodes) k n =
    has_owner-append (owner_tokens owner 0 (suc k)) (ring_tokens nodes (suc k)) n
    ∙ rw (has_owner-owner_tokens owner 0 k n, has_owner-ring_tokens nodes k n) refl

module _ (cmp : HyperToken → HyperToken → Ordering) where
  has_owner-insert_by :
      (x : HyperToken) (n : ℕ) (xs : List HyperToken)
      → has_owner (insert_by cmp x xs) n ≡ (x.owner == n || has_owner xs n)
  unfolding insert_by
  has_owner-insert_by x n [] = refl
  has_owner-insert_by x n (y ∷ ys) = grind (arith, has_owner-insert_by x n ys)

  has_owner-sort_by : (xs : List HyperToken) (n : ℕ) → has_owner (sort_by cmp xs) n ≡ has_owner xs n
  unfolding sort_by
  has_owner-sort_by [] n = refl
  has_owner-sort_by (x ∷ xs) n =
      grind (arith, has_owner-insert_by x n (sort_by cmp xs), has_owner-sort_by xs n)

-- The place of a node's token
pub has_owner-place :
    (ring : List HyperToken) (n : ℕ)
    → has_owner ring n ≡ true
    → (j : ℕ) × (t : HyperToken) × (j < length ring) × (get_elem? ring j ≡ some t) × (t.owner ≡ n)
has_owner-place [] n h = cc
has_owner-place (t ∷ ring) n h = elim (Bool-cases (t.owner == n)) [
  | inl e ↦ (0, t, omega arith, refl, grind arith)
  | inr e ↦
      let (j, found, inside, at, owner) = has_owner-place ring n (grind arith) in
      (suc j, found, omega arith, at, owner)
]

partition_point-le : (ring : List HyperToken) (k : ℕ) → partition_point ring k ≤ length ring
unfolding partition_point
partition_point-le [] k = omega arith
partition_point-le (t ∷ ring) k = grind (arith, partition_point-le ring k)

pub hyperspace_ring_start-lt :
    (ring : List HyperToken) (k : ℕ) → 0 < length ring → hyperspace_ring_start ring k < length ring
unfolding hyperspace_ring_start
hyperspace_ring_start-lt ring k h = grind (arith, partition_point-le ring k)

-- Each node has a token of the ring, each token is a node's, and there are as many as were asked
-- for.
module _ (nodes : List ℕ) (tokens_per_node : ℕ) where
  pub length-sorted_ring :
      length (sorted_ring nodes tokens_per_node) ≡ length nodes * max tokens_per_node 1
  length-sorted_ring =
      length-sort_by token_order (ring_tokens nodes (max tokens_per_node 1))
      ∙ length-ring_tokens nodes (max tokens_per_node 1)

  pub sorted_ring-owners :
      All (λ t. contains nodes t.owner ≡ true) (sorted_ring nodes tokens_per_node)
  sorted_ring-owners =
      All-sort_by token_order (λ t. contains nodes t.owner ≡ true)
        (ring_tokens nodes (max tokens_per_node 1))
        (ring_tokens-members nodes nodes (max tokens_per_node 1) (contains_all nodes))

  pub has_owner-sorted_ring :
      (n : ℕ) → has_owner (sorted_ring nodes tokens_per_node) n ≡ contains nodes n
  has_owner-sorted_ring n =
      let k = max tokens_per_node 1 - 1 in
      let e : max tokens_per_node 1 ≡ suc k = omega arith in
      has_owner-sort_by token_order (ring_tokens nodes (max tokens_per_node 1)) n
      ∙ rw e (has_owner-ring_tokens nodes k n)
