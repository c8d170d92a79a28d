-- ===== src/Placement/Examples.antt =====
-- Worked runs of the placement.
use mathlib.Core.List.{Permᴰ}
use hyperdex_rs.Prelude.{
  ℕ, ◌<◌, ◌≤◌, ◌*◌, min, max, ◌≡◌, ◌⊎◌, refl, List, [], ◌∷◌, length, All, arith,
}
use hyperdex_rs.Prelude.{ok, err}
use hyperdex_rs.Placement.{
  PlacementDecision, empty_layout, rendezvous_score, locate_rendezvous, locate_hyperspace,
}
use hyperdex_rs.Placement.Members.{Distinct}
use hyperdex_rs.Placement.Rendezvous.{IsPlaced, locate_rendezvous-Perm, locate_rendezvous_places}
use hyperdex_rs.Placement.Counting.{distinct_nodes}
use hyperdex_rs.Placement.Hyperspace.{locate_hyperspace_places}

abbrev key : List ℕ
key = 97 ∷ 100 ∷ 97 ∷ []

abbrev nodes : List ℕ
nodes = 1 ∷ 2 ∷ 3 ∷ []

locate_rendezvous-Perm_example :
    locate_rendezvous key (record { replicas = 2; nodes = 1 ∷ 2 ∷ 3 ∷ [] })
    ≡ locate_rendezvous key (record { replicas = 2; nodes = 2 ∷ 1 ∷ 3 ∷ [] })
locate_rendezvous-Perm_example =
    locate_rendezvous-Perm key 2 (1 ∷ 2 ∷ 3 ∷ []) (2 ∷ 1 ∷ 3 ∷ []) (Permᴰ.swap refl refl)

locate_rendezvous_places_example :
    ((nodes ≡ [])
      × (locate_rendezvous key (record { replicas = 2; nodes = nodes }) ≡ err empty_layout))
    ⊎ ((d : PlacementDecision) × (locate_rendezvous key (record { replicas = 2; nodes = nodes })
          ≡ ok d)
        × IsPlaced nodes d
        × (length d.replicas ≡ min (max 2 1) (length nodes))
        × All (λ n. rendezvous_score key n ≤ rendezvous_score key d.primary) nodes)
locate_rendezvous_places_example = locate_rendezvous_places key 2 nodes

locate_hyperspace_places_example :
    ((nodes ≡ [])
      × (locate_hyperspace 24 4 key (record { replicas = 2; nodes = nodes }) ≡ err empty_layout))
    ⊎ ((d : PlacementDecision) × (locate_hyperspace 24 4 key
            (record { replicas = 2; nodes = nodes })
          ≡ ok d)
        × IsPlaced nodes d
        × Distinct d.replicas
        × (length d.replicas ≡ min (max 2 1) (length (distinct_nodes nodes)))
        × (d.partitions ≡ length nodes * max 4 1)
        × (d.partition < d.partitions))
locate_hyperspace_places_example =
    locate_hyperspace_places 24 4 key 2 nodes (omega arith) (omega arith)
