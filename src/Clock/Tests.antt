-- ===== src/Clock/Tests.antt =====
-- The clocks of the module's own unit tests, and one instance of each theorem.
use dsm_decentralized_state.Base.{◌≡◌, refl, [], ◌∷◌, ◌&&◌, string_eq}
use dsm_decentralized_state.Base.Map
use dsm_decentralized_state.Clock.{
  VectorClock, set, new, merge, compare, dominates, before, after, concurrent, equal,
}
use dsm_decentralized_state.Clock.Compare.{Means, compare-Means}
use dsm_decentralized_state.Clock.Merge.{IsClock}
use dsm_decentralized_state.Clock.Order.{dominates-merge}

abbrev clock1 : VectorClock
clock1 = record { counters = ("node1", 1) ∷ ("node2", 2) ∷ [] }

abbrev clock2 : VectorClock
clock2 = record { counters = ("node1", 2) ∷ ("node2", 2) ∷ [] }

abbrev clock3 : VectorClock
clock3 = record { counters = ("node1", 1) ∷ ("node2", 3) ∷ [] }

clock1_lem : set "node2" 2 (set "node1" 1 new) ≡ clock1
unfolding set new Map.insert
clock1_lem = refl

comparisons :
    (compare clock1 clock1 ≡ equal)
    × (compare clock1 clock2 ≡ before)
    × (compare clock2 clock1 ≡ after)
    × (compare clock2 clock3 ≡ concurrent)
unfolding compare Map.get Map.contains_key
comparisons = (refl, refl, refl, refl)

merged : merge clock1 clock3 ≡ clock3
unfolding merge Map.insert Map.get
merged = refl

clock1-IsClock : IsClock clock1
unfolding Map.get
clock1-IsClock = (refl, (refl, tt))

clock2-IsClock : IsClock clock2
unfolding Map.get
clock2-IsClock = (refl, (refl, tt))

clock3-IsClock : IsClock clock3
unfolding Map.get
clock3-IsClock = (refl, (refl, tt))

compare-Means_example : Means (compare clock2 clock3) clock2 clock3
compare-Means_example = compare-Means clock2 clock3 clock2-IsClock clock3-IsClock

dominates-merge_example :
    dominates clock3 (merge clock1 clock2) ≡ (dominates clock3 clock1 && dominates clock3 clock2)
dominates-merge_example =
    dominates-merge clock1 clock2 clock3 clock1-IsClock clock2-IsClock clock3-IsClock
