-- ===== src/Placement.antt =====
-- crates/placement-core/src/lib.rs: which nodes hold a key, by rendezvous hashing or on a ring.
-- Nodes are 64-bit words, keys are bytes, and lengths stay far below `usize::MAX`.
pub mod Members
pub mod Sort
pub mod Rendezvous
pub mod Counting
pub mod Ring
pub mod Walk
pub mod Hyperspace
mod Examples
use Prim.Native.Nat.{compare, Ordering}
use hyperdex_rs.Prelude.{
  ℕ, zero, suc, ◌+◌, ◌*◌, ◌%◌, min, max, List, [], ◌∷◌, ◌++◌, Option, none, some, Bool, true, false,
  ◌||◌, ◌==◌, ltb, if◌then◌else◌, length, take, get_elem?, bit_xor, then_with, is_gt,
}
use hyperdex_rs.Prelude.{Result, ok, err, panic, ◌>>=◌, ◌>>◌, fail_if}
use hyperdex_rs.Prelude.Words.{u32_mod, u64_mod, to_le_bytes}
use hyperdex_rs.Prelude.Memory.{with_capacity, mul_u64}

pub record ClusterLayout : Type 0 where
  pub replicas : ℕ
  pub nodes : List ℕ

pub record PlacementDecision : Type 0 where
  pub partition : ℕ
  pub partitions : ℕ
  pub primary : ℕ
  pub replicas : List ℕ

pub data PlacementError : Type 0 where
  empty_layout : PlacementError

-- The hasher: FNV-1a on 64 bits.
abbrev pub fnv_offset : ℕ
fnv_offset = 0xcbf2_9ce4_8422_2325

unfoldable pub fnv_update : ℕ → List ℕ → ℕ
fnv_update state [] = state
fnv_update state (b ∷ bytes) = fnv_update ((bit_xor state b * 0x0100_0000_01b3) % u64_mod) bytes

-- `b"rendezvous\0"`, `b"hyperspace-key\0"` and `b"hyperspace-token\0"`
abbrev pub rendezvous_tag : List ℕ
rendezvous_tag = 114 ∷ 101 ∷ 110 ∷ 100 ∷ 101 ∷ 122 ∷ 118 ∷ 111 ∷ 117 ∷ 115 ∷ 0 ∷ []

abbrev pub hyperspace_key_tag : List ℕ
hyperspace_key_tag =
    104 ∷ 121 ∷ 112 ∷ 101 ∷ 114 ∷ 115 ∷ 112 ∷ 97 ∷ 99 ∷ 101 ∷ 45 ∷ 107 ∷ 101 ∷ 121 ∷ 0 ∷ []

abbrev pub hyperspace_token_tag : List ℕ
hyperspace_token_tag =
    104 ∷ 121 ∷ 112 ∷ 101 ∷ 114 ∷ 115 ∷ 112 ∷ 97 ∷ 99 ∷ 101 ∷ 45 ∷ 116 ∷ 111 ∷ 107 ∷ 101 ∷ 110 ∷ 0
    ∷ []

unfoldable pub rendezvous_score : List ℕ → ℕ → ℕ
rendezvous_score key node =
    fnv_update (fnv_update (fnv_update fnv_offset rendezvous_tag) key) (to_le_bytes 8 node)

unfoldable pub hyperspace_key_pos : List ℕ → ℕ
hyperspace_key_pos key = fnv_update (fnv_update fnv_offset hyperspace_key_tag) key

unfoldable pub hyperspace_token_pos : ℕ → ℕ → ℕ
hyperspace_token_pos owner token_index =
    fnv_update (fnv_update (fnv_update fnv_offset hyperspace_token_tag) (to_le_bytes 8 owner))
      (to_le_bytes 4 token_index)

-- The stable `sort_by` of the standard library: an element goes behind those that are less.
module _ {A : Type 0} (cmp : A → A → Ordering) where
  unfoldable pub insert_by : A → List A → List A
  insert_by x [] = x ∷ []
  insert_by x (y ∷ ys) = if is_gt (cmp x y) then y ∷ insert_by x ys else x ∷ y ∷ ys

  unfoldable pub sort_by : List A → List A
  sort_by [] = []
  sort_by (x ∷ xs) = insert_by x (sort_by xs)

-- `replicas[0]`
unfoldable pub decision : ℕ → ℕ → List ℕ → Result PlacementDecision PlacementError
decision partition partitions [] = panic
decision partition partitions (primary ∷ others) = ok (record {
  partition = partition;
  partitions = partitions;
  primary = primary;
  replicas = primary ∷ others;
})

unfoldable pub build_decision : ℕ → ℕ → List ℕ → ℕ → Result PlacementDecision PlacementError
build_decision partition partitions ranked replicas = do
  fail_if (length ranked == 0) empty_layout
  decision partition partitions (take (min (max replicas 1) (max (length ranked) 1)) ranked)

-- Higher scores first, and of two with one score the smaller node.
unfoldable pub rendezvous_order : List ℕ → ℕ → ℕ → Ordering
rendezvous_order key a b =
    then_with (compare (rendezvous_score key b) (rendezvous_score key a)) (compare a b)

unfoldable pub locate_rendezvous : List ℕ → ClusterLayout → Result PlacementDecision PlacementError
locate_rendezvous key layout =
    let ranked = sort_by (rendezvous_order key) layout.nodes in
    build_decision 0 (length ranked) ranked layout.replicas

pub record HyperToken : Type 0 where
  pub pos : ℕ
  pub owner : ℕ
  pub token_index : ℕ

unfoldable pub with_tokens_per_node : ℕ → ℕ
with_tokens_per_node tokens_per_node = max tokens_per_node 1

unfoldable pub token_order : HyperToken → HyperToken → Ordering
token_order a b =
    then_with (then_with (compare a.pos b.pos) (compare a.owner b.owner))
      (compare a.token_index b.token_index)

-- The tokens of one node, those numbered from `token_index` on
unfoldable pub owner_tokens : ℕ → ℕ → ℕ → List HyperToken
owner_tokens owner token_index zero = []
owner_tokens owner token_index (suc n) =
    record {
      pos = hyperspace_token_pos owner (token_index % u32_mod);
      owner = owner;
      token_index = token_index % u32_mod;
    }
    ∷ owner_tokens owner (suc token_index) n

unfoldable pub ring_tokens : List ℕ → ℕ → List HyperToken
ring_tokens [] tokens_per_node = []
ring_tokens (owner ∷ nodes) tokens_per_node =
    owner_tokens owner 0 tokens_per_node ++ ring_tokens nodes tokens_per_node

-- The number of bytes of a `HyperToken` in memory is the compiler's choice.
unfoldable pub build_hyperspace_ring :
    (token_size : ℕ) → List ℕ → ℕ → Result (List HyperToken) PlacementError
build_hyperspace_ring token_size nodes tokens_per_node = do
  capacity ← mul_u64 (length nodes) (max tokens_per_node 1)
  with_capacity token_size capacity
  ok (sort_by token_order (ring_tokens nodes (max tokens_per_node 1)))

-- `partition_point`, on a ring sorted by position
unfoldable pub partition_point : List HyperToken → ℕ → ℕ
partition_point [] key_pos = 0
partition_point (token ∷ ring) key_pos =
    if ltb token.pos key_pos then suc (partition_point ring key_pos) else 0

unfoldable pub hyperspace_ring_start : List HyperToken → ℕ → ℕ
hyperspace_ring_start ring key_pos =
    let idx = partition_point ring key_pos in if idx == length ring then 0 else idx

abbrev pub contains : List ℕ → ℕ → Bool
contains [] x = false
contains (y ∷ ys) x = y == x || contains ys x

unfoldable pub token_at : List HyperToken → ℕ → Result HyperToken PlacementError
token_at ring i = elim (get_elem? ring i) [ none ↦ panic | some token ↦ ok token ]

-- The loop over the offsets, of which `n` are left. The set `seen` holds what `replicas` does.
unfoldable pub collect_owners :
    List HyperToken → ℕ → ℕ → ℕ → ℕ → List ℕ → List ℕ → Result (List ℕ) PlacementError
collect_owners ring start desired zero offset seen replicas = ok replicas
collect_owners ring start desired (suc n) offset seen replicas = do
  token ← token_at ring ((start + offset) % length ring)
  elim (contains seen token.owner) [
    | true ↦ collect_owners ring start desired n (suc offset) seen replicas
    | false ↦ elim (length (replicas ++ token.owner ∷ []) == desired) [
      | true ↦ ok (replicas ++ token.owner ∷ [])
      | false ↦
          collect_owners ring start desired n (suc offset) (token.owner ∷ seen)
            (replicas ++ token.owner ∷ [])
    ]
  ]

unfoldable pub locate_hyperspace :
    (token_size : ℕ) → ℕ → List ℕ → ClusterLayout → Result PlacementDecision PlacementError
locate_hyperspace token_size tokens_per_node key layout = do
  ring ← build_hyperspace_ring token_size layout.nodes tokens_per_node
  fail_if (length ring == 0) empty_layout
  let start = hyperspace_ring_start ring (hyperspace_key_pos key)
  let desired = min (max layout.replicas 1) (max (length layout.nodes) 1)
  replicas ← collect_owners ring start desired (length ring) 0 [] []
  decision start (length ring) replicas
