-- ===== src/Placement/Hyperspace.antt =====
-- Placement on the ring.
use hyperdex_rs.Prelude.{
  ℕ, zero, suc, ◌*◌, ◌<◌, ◌≤◌, ◌^◌, min, max, ◌≡◌, refl, sym, ◌∙◌, List, [], ◌∷◌, true, false, ◌⊎◌,
  inl, inr, ◌==◌, arith, length, All,
}
use hyperdex_rs.Prelude.{ok, err}
use hyperdex_rs.Prelude.Memory.{isize_max, with_capacity-ok, mul_u64-ok}
use hyperdex_rs.Placement.{
  sort_by, ring_tokens, PlacementDecision, PlacementError, empty_layout, HyperToken,
  build_hyperspace_ring, hyperspace_ring_start, hyperspace_key_pos, contains, decision,
  locate_hyperspace,
}
use hyperdex_rs.Placement.Members.{Distinct, contains_all}
use hyperdex_rs.Placement.Counting.{
  distinct_nodes, contains-distinct_nodes, distinct_nodes-Distinct, length-distinct_nodes,
  length-Distinct,
}
use hyperdex_rs.Placement.Ring.{
  sorted_ring, length-sorted_ring, sorted_ring-owners, has_owner-sorted_ring, has_owner-place,
  hyperspace_ring_start-lt,
}
use hyperdex_rs.Placement.Walk.{IsWalk, Visited, Visited-all, collect_owners-IsWalk}
use hyperdex_rs.Placement.Rendezvous.{IsPlaced, suc-nonzero}

nonzero : (n : ℕ) → 0 < n → (n == 0) ≡ false
nonzero zero h = absurd (omega arith)
nonzero (suc n) h = suc-nonzero n

All-same :
    (xs ys zs : List ℕ)
    → ((n : ℕ) → contains xs n ≡ contains ys n)
    → All (λ n. contains ys n ≡ true) zs
    → All (λ n. contains xs n ≡ true) zs
All-same xs ys [] e h = tt
All-same xs ys (z ∷ zs) e h = (e z ∙ h.0, All-same xs ys zs e h.1)

All-mapped : {P Q : ℕ → Type 0} (xs : List ℕ) → ((n : ℕ) → P n → Q n) → All P xs → All Q xs
All-mapped [] f h = tt
All-mapped (x ∷ xs) f h = (f x h.0, All-mapped xs f h.1)

module _ (tokens : ℕ) (nodes : List ℕ) where
  -- After a whole round every node is in the list.
  every_node :
      (start n : ℕ) (found : List ℕ)
      → start < length (sorted_ring nodes tokens)
      → Visited nodes (sorted_ring nodes tokens) start 0 (length (sorted_ring nodes tokens)) found
      → contains nodes n ≡ true
      → contains found n ≡ true
  every_node start n found h visited member =
      let (j, t, inside, at, owner) =
        has_owner-place (sorted_ring nodes tokens) n
          (has_owner-sorted_ring nodes tokens n ∙ member) in
      let here = Visited-all nodes (sorted_ring nodes tokens) start found j t h visited inside at in
      rw (← owner) here

  -- The walk ends with as many nodes as wanted, or with all.
  length-walk :
      (start replicas : ℕ) (found : List ℕ)
      → start < length (sorted_ring nodes tokens)
      → 0 < length nodes
      → IsWalk nodes
          (sorted_ring nodes tokens)
          (min (max replicas 1) (max (length nodes) 1))
          start
          0
          (length (sorted_ring nodes tokens))
          []
          found
      → length found ≡ min (max replicas 1) (length (distinct_nodes nodes))
  length-walk start replicas found h pos walk =
      let few : length found ≤ length (distinct_nodes nodes) =
        length-Distinct (distinct_nodes nodes) found walk.distinct (
          All-same (distinct_nodes nodes) nodes found (contains-distinct_nodes nodes)
            walk.members) in
      let count = length-distinct_nodes nodes in
      elim walk.complete [
        | inl full ↦ omega (arith, few, count, full)
        | inr visited ↦
            let all : All (λ n. contains found n ≡ true) (distinct_nodes nodes) =
              All-mapped (distinct_nodes nodes)
                (λ n member.
                  every_node start n found h visited
                    (sym (contains-distinct_nodes nodes n) ∙ member))
                (contains_all (distinct_nodes nodes)) in
            let many =
              length-Distinct found (distinct_nodes nodes) (distinct_nodes-Distinct nodes) all in
            omega (arith, few, many, count, walk.bounded)
      ]

decision-first :
    (partition partitions : ℕ) (found : List ℕ)
    → 0 < length found
    → (primary : ℕ) × (decision partition partitions found
        ≡ ok (record {
          partition = partition;
          partitions = partitions;
          primary = primary;
          replicas = found;
        }))
      × ((others : List ℕ) × (found ≡ primary ∷ others))
unfolding decision
decision-first partition partitions [] h = absurd (omega arith)
decision-first partition partitions (p ∷ found) h = (p, refl, (found, refl))

build-ok :
    (token_size tokens_per_node : ℕ) (nodes : List ℕ)
    → length nodes * max tokens_per_node 1 < 2 ^ 64
    → token_size * (length nodes * max tokens_per_node 1) ≤ isize_max
    → build_hyperspace_ring token_size nodes tokens_per_node
      ≡ ok (sorted_ring nodes tokens_per_node)
unfolding build_hyperspace_ring
build-ok size tokens nodes small fits = rw (
  mul_u64-ok {E = PlacementError} (length nodes) (max tokens 1) small,
  with_capacity-ok {E = PlacementError} size (length nodes * max tokens 1) fits,
)

sorted_ring-empty : (tokens : ℕ) → sorted_ring [] tokens ≡ []
unfolding sort_by ring_tokens
sorted_ring-empty tokens = refl

distinct_nodes_pos : (x : ℕ) (xs : List ℕ) → 0 < length (distinct_nodes (x ∷ xs))
distinct_nodes_pos x xs =
    length-Distinct (distinct_nodes (x ∷ xs)) (x ∷ []) (refl, tt)
      (contains-distinct_nodes (x ∷ xs) x ∙ grind arith, tt)

-- Placement on the ring fails on a layout without nodes and places on any other, with no index out
-- of range, if the ring fits the memory: its tokens are below `2 ^ 64` and take at most `isize::MAX`
-- bytes. The replicas are nodes of the layout, none twice, as many as it asks for (at least one) or
-- all its different nodes where they are fewer. The first is the primary, the ring has as many
-- partitions as the tokens of a node times the nodes, and the partition is one of them.
pub locate_hyperspace_places :
    (token_size tokens_per_node : ℕ) (key : List ℕ) (replicas : ℕ) (nodes : List ℕ)
    → length nodes * max tokens_per_node 1 < 2 ^ 64
    → token_size * (length nodes * max tokens_per_node 1) ≤ isize_max
    → ((nodes ≡ [])
        × (locate_hyperspace token_size tokens_per_node key
              (record { replicas = replicas; nodes = nodes })
            ≡ err empty_layout))
      ⊎ ((d : PlacementDecision) × (locate_hyperspace token_size tokens_per_node key
              (record { replicas = replicas; nodes = nodes })
            ≡ ok d)
          × IsPlaced nodes d
          × Distinct d.replicas
          × (length d.replicas ≡ min (max replicas 1) (length (distinct_nodes nodes)))
          × (d.partitions ≡ length nodes * max tokens_per_node 1)
          × (d.partition < d.partitions))
unfolding locate_hyperspace
locate_hyperspace_places size tokens key r [] small fits =
    inl (refl, rw (build-ok size tokens [] small fits, sorted_ring-empty tokens) refl)
locate_hyperspace_places size tokens key r (x ∷ xs) small fits =
    let nodes : List ℕ = x ∷ xs in
    let ring : List HyperToken = sorted_ring nodes tokens in
    let long = length-sorted_ring nodes tokens in
    let filled : 0 < length ring = omega (arith, long) in
    let start = hyperspace_ring_start ring (hyperspace_key_pos key) in
    let inside = hyperspace_ring_start-lt ring (hyperspace_key_pos key) filled in
    let desired = min (max r 1) (max (length nodes) 1) in
    let (found, walked, walk) =
      collect_owners-IsWalk nodes ring (sorted_ring-owners nodes tokens) filled (length ring) start
        desired 0 [] []
        (record { same = λ m. refl; distinct = tt; members = tt; fewer = omega arith }) in
    let count = length-walk tokens nodes start r found inside (omega arith) walk in
    let different : 0 < length (distinct_nodes nodes) = distinct_nodes_pos x xs in
    let (primary, decided, first) =
      decision-first start (length ring) found (omega (arith, count, different)) in
    inr (
      record { partition = start; partitions = length ring; primary = primary; replicas = found },
      rw (build-ok size tokens nodes small fits, nonzero (length ring) filled, walked) decided,
      record { members = walk.members; primary = first; distinct = λ _. walk.distinct },
      walk.distinct,
      count,
      long,
      inside,
    )
