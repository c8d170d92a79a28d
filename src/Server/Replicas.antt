-- ===== src/Server/Replicas.antt =====
-- The replica sets that the server writes for legacy clients.
use hyperdex_rs.Prelude.{
  ℕ, zero, suc, ◌+◌, ◌-◌, ◌*◌, ◌%◌, ◌≤◌, ◌<◌, min, max, List, [], ◌∷◌, true, false, ◌≡◌, ◌≢◌, ◌⊎◌,
  inl, inr, refl, ap, ◌∙◌, arith, length, All, All-append, lt_or_le, length-append, ◌==◌, le→leb,
  lt→leb,
}
use native.Mathlib.Nat.{mod-lt, mod-eq_of_lt, mod-eq-sub-mod}
use hyperdex_rs.Prelude.{Ensures, Ensures-bind, Ensures-weaken}
use hyperdex_rs.Placement.{contains}
use hyperdex_rs.Placement.Members.{Distinct}
use hyperdex_rs.Server.Picked.{Picked, Picked-index, Placed-contains}
use hyperdex_rs.Server.{
  strided_set, strided_sets, all_strided_sets, rotated_set, rotated_sets, legacy_replica_sets,
}

zero_add : (n : ℕ) → 0 + n ≡ n
zero_add n = omega arith

suc_test : (n : ℕ) → (suc n == 0) ≡ false
suc_test n = ground arith

-- A position past the end goes on at the start.
wrap : (a n : ℕ) → a < n + n → ((a < n) × (a % n ≡ a)) ⊎ ((n ≤ a) × (a % n + n ≡ a))
wrap a n h = elim (lt_or_le a n) [
  | inl below ↦ inl (below, mod-eq_of_lt below)
  | inr above ↦
      let inside : a - n < n = omega arith in
      inr (above, omega (arith, mod-eq-sub-mod above, mod-eq_of_lt inside))
]

wrap_apart : (n start o p : ℕ) → start < n → o < p → p < n → (start + o) % n ≢ (start + p) % n
wrap_apart n start o p hs ho hp e = elim (wrap (start + o) n (omega arith)) [
  | inl (below, at) ↦ elim (wrap (start + p) n (omega arith)) [
    | inl (below', at') ↦ omega arith
    | inr (above', at') ↦ omega arith
  ]
  | inr (above, at) ↦ elim (wrap (start + p) n (omega arith)) [
    | inl (below', at') ↦ omega arith
    | inr (above', at') ↦ omega arith
  ]
]

module _ (ids : List ℕ) (d : Distinct ids) where
  strided_set-Picked :
      (start stride replica n : ℕ)
      → 0 < stride
      → start + stride * (replica + n - 1) < length ids
      → Ensures
          (Picked ids (λ k. start + stride * replica ≤ k) n)
          (strided_set ids start stride replica n)
  unfolding strided_set
  strided_set-Picked start stride replica zero pos h = record {
    size = refl;
    distinct = tt;
    placed = tt;
  }
  strided_set-Picked start stride replica (suc n) pos h =
      let last : stride * (replica + suc n - 1) ≡ stride * (replica + n) =
        ap (λ (k : ℕ). stride * k) (omega arith) in
      let last' : stride * (suc replica + n - 1) ≡ stride * (replica + n) =
        ap (λ (k : ℕ). stride * k) (omega arith) in
      let sum : stride * (replica + n) ≡ stride * replica + stride * n = omega arith in
      let next : stride * suc replica ≡ stride * replica + stride = omega arith in
      Picked-index ids d (λ k. start + stride * suc replica ≤ k) _ (start + stride * replica) n _
        (omega (arith, h, last, sum)) (omega arith) (λ k q e. omega (arith, next))
        (λ k q. omega (arith, next))
        (strided_set-Picked start stride (suc replica) n pos (omega (arith, h, last, last')))

pub record IsReplicaSet (ids : List ℕ) (n : ℕ) (set : List ℕ) : Type 0 where
  pub size : length set ≡ n
  pub distinct : Distinct set
  pub known : All (λ x. contains ids x ≡ true) set

module _ (ids : List ℕ) (d : Distinct ids) where
  Picked-IsReplicaSet :
      (Q : ℕ → Type 0) (n : ℕ) (set : List ℕ) → Picked ids Q n set → IsReplicaSet ids n set
  Picked-IsReplicaSet Q n set p = record {
    size = p.size;
    distinct = p.distinct;
    known = Placed-contains ids d Q set p.placed;
  }

  -- With at least one set where the first stride fits
  strided_sets-sets :
      (replicas start stride n : ℕ)
      → 0 < stride
      → 0 < replicas
      → Ensures
          (λ sets.
            (start + stride * (replicas - 1) < length ids → 0 < n → 0 < length sets)
            × All (IsReplicaSet ids replicas) sets)
          (strided_sets ids replicas start stride n)
  unfolding strided_sets
  strided_sets-sets replicas start stride zero pos some_replica = (λ h k. k, tt)
  strided_sets-sets replicas start stride (suc n) pos some_replica =
      elim (lt_or_le (start + stride * (replicas - 1)) (length ids)) [
        | inr beyond ↦
            rw (le→leb (length ids) (start + stride * (replicas - 1)) beyond)
              (λ h k. omega arith, tt)
        | inl inside ↦ rw (lt→leb (length ids) (start + stride * (replicas - 1)) inside) (
            Ensures-bind _ _ (strided_set ids start stride 0 replicas) _
              (strided_set-Picked ids d start stride 0 replicas pos
                (omega (arith, inside, ap (λ (k : ℕ). stride * (k - 1)) (zero_add replicas))))
              λ first p.
                Ensures-bind _ _ (strided_sets ids replicas start (suc stride) n) _
                  (strided_sets-sets replicas start (suc stride) n (omega arith) some_replica)
                  λ rest q. (λ h k. omega arith, (Picked-IsReplicaSet _ replicas first p, q.1)))
      ]

  all_strided_sets-sets :
      (replicas partitions start n : ℕ)
      → 0 < partitions
      → 0 < replicas
      → replicas ≤ length ids
      → Ensures
          (λ sets. (start ≡ 0 → 0 < n → 0 < length sets) × All (IsReplicaSet ids replicas) sets)
          (all_strided_sets ids replicas partitions start n)
  unfolding all_strided_sets
  all_strided_sets-sets replicas partitions start zero pos some_replica h = (λ e k. k, tt)
  all_strided_sets-sets replicas partitions start (suc n) pos some_replica h =
      Ensures-bind _ _ (strided_sets ids replicas start 1 partitions) _
        (strided_sets-sets replicas start 1 partitions (omega arith) some_replica)
        λ first p.
          Ensures-bind _ _ (all_strided_sets ids replicas partitions (suc start) n) _
            (all_strided_sets-sets replicas partitions (suc start) n pos some_replica h)
            λ rest q. (
              λ e k. omega (arith, p.0 (omega arith) pos, length-append first rest),
              All-append _ first rest p.1 q.1,
            )

  rotated_set-Picked :
      (start offset n : ℕ)
      → start < length ids
      → offset + n ≡ length ids
      → Ensures
          (Picked ids
            (λ k. (o : ℕ) × ((offset ≤ o) × ((o < length ids) × (k ≡ (start + o) % length ids))))
            n)
          (rotated_set ids start offset n)
  unfolding rotated_set
  rotated_set-Picked start offset zero h e = record { size = refl; distinct = tt; placed = tt }
  rotated_set-Picked start offset (suc n) h e =
      Picked-index ids d _ _ ((start + offset) % length ids) n _
        (mod-lt (start + offset) (omega arith)) (offset, (omega arith, (omega arith, refl)))
        (λ k q e'. wrap_apart (length ids) start offset q.0 h q.1.0 q.1.1.0 (e' ∙ q.1.1.1))
        (λ k q. (q.0, (omega (arith, q.1.0), q.1.1)))
        (rotated_set-Picked start (suc offset) n h (omega arith))

  rotated_sets-sets :
      (start n : ℕ)
      → start + n ≡ length ids
      → Ensures
          (λ sets. (0 < n → 0 < length sets) × All (IsReplicaSet ids (length ids)) sets)
          (rotated_sets ids start n)
  unfolding rotated_sets
  rotated_sets-sets start zero h = (λ k. k, tt)
  rotated_sets-sets start (suc n) h =
      Ensures-bind _ _ (rotated_set ids start 0 (length ids)) _
        (rotated_set-Picked start 0 (length ids) (omega arith) (omega arith))
        λ first p.
          Ensures-bind _ _ (rotated_sets ids (suc start) n) _
            (rotated_sets-sets (suc start) n (omega arith))
            λ rest q. (λ k. omega arith, (Picked-IsReplicaSet _ (length ids) first p, q.1))

-- For one server or more, without repetitions, and one wanted replica or more, the replica sets are
-- computed without an index out of range. There is at least one set, and each set has the wanted
-- number of servers, or all of them where they are fewer, each of them once and none that is not
-- among the servers.
pub legacy_replica_sets-IsReplicaSet :
    (ids : List ℕ) (replicas partitions : ℕ)
    → Distinct ids
    → 0 < length ids
    → 0 < replicas
    → Ensures
        (λ sets. (0 < length sets) × All (IsReplicaSet ids (min replicas (length ids))) sets)
        (legacy_replica_sets ids replicas partitions)
unfolding legacy_replica_sets
legacy_replica_sets-IsReplicaSet [] replicas partitions d h k = absurd (omega arith)
legacy_replica_sets-IsReplicaSet (x ∷ ids) zero partitions d h k = absurd (omega arith)
legacy_replica_sets-IsReplicaSet (x ∷ ids) (suc r) partitions d h k =
    elim (lt_or_le (suc r) (length (x ∷ ids))) [
      | inl more ↦
          let fewer : min (suc r) (length (x ∷ ids)) ≡ suc r = omega arith in
          rw (suc_test (length ids), suc_test r, lt→leb (length (x ∷ ids)) (suc r) more, fewer)
            (Ensures-weaken _ _ (λ sets p. (p.0 refl h, p.1))
              (all_strided_sets (x ∷ ids) (suc r) (max partitions 1) 0 (length (x ∷ ids)))
              (all_strided_sets-sets (x ∷ ids) d (suc r) (max partitions 1) 0 (length (x ∷ ids))
                (omega arith) (omega arith) (omega arith)))
      | inr all ↦
          let every : min (suc r) (length (x ∷ ids)) ≡ length (x ∷ ids) = omega arith in
          rw (suc_test (length ids), suc_test r, le→leb (length (x ∷ ids)) (suc r) all, every)
            (Ensures-weaken _ _ (λ sets p. (p.0 h, p.1))
              (rotated_sets (x ∷ ids) 0 (length (x ∷ ids)))
              (rotated_sets-sets (x ∷ ids) d 0 (length (x ∷ ids)) (omega arith)))
    ]
