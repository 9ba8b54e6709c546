-- ===== src/Walk/Tests.antt =====
-- Walks of two steps under a toy hash function, and one instance of each theorem.
use dsm_decentralized_state.Base.{
  ℕ, ◌+◌, ◌*◌, ◌%◌, ◌≡◌, ◌⊎◌, ◌↔◌, refl, true, some, List, [], ◌∷◌, arith, length, replicate,
}
use dsm_decentralized_state.Base.Result.{ok, err, invalid_parameter}
use dsm_decentralized_state.Merkle.Hash.{Hash}
use dsm_decentralized_state.Walk.{
  negsuc, RandomWalkConfig, Position, from_le_bytes, coordinate, coordinate_bytes, coordinates,
  as_i32, walk, generate_positions, verify_positions, verify_random_walk_coordinates,
  generate_random_walk_coordinates,
}
use dsm_decentralized_state.Walk.Laws.{
  AllFit, generate_positions_lem, verify_positions_iff, verify_random_walk_coordinates_iff,
}

abbrev next : List ℕ → ℕ
next [] = 7
next (x ∷ xs) = (x * 5 + 3) % 256

abbrev toy : List ℕ → Hash
toy xs = next xs ∷ replicate 31 0

abbrev two_steps : RandomWalkConfig
two_steps = record { dimensions = 2; step_count = 2; max_coordinate = 50 }

abbrev walked : List Position
walked = (negsuc 41 ∷ negsuc 49 ∷ []) ∷ (negsuc 6 ∷ negsuc 49 ∷ []) ∷ []

walked_runs : generate_positions toy (toy (1 ∷ [])) (some two_steps) ≡ ok walked
unfolding generate_positions walk coordinates coordinate coordinate_bytes from_le_bytes as_i32
walked_runs = refl

generate_positions_lem_example :
    (((two_steps.dimensions ≡ 0) ⊎ (two_steps.step_count ≡ 0))
      × (generate_positions toy (toy (1 ∷ [])) (some two_steps) ≡ err invalid_parameter))
    ⊎ ((positions : List Position) × (generate_positions toy (toy (1 ∷ [])) (some two_steps)
          ≡ ok positions)
        × (length positions ≡ 2)
        × AllFit 2 50 positions)
generate_positions_lem_example =
    generate_positions_lem toy (toy (1 ∷ [])) (some two_steps) (omega arith) (omega arith)

verify_positions_iff_example : (verify_positions walked walked ≡ true) ↔ (walked ≡ walked)
verify_positions_iff_example = verify_positions_iff walked walked

verify_random_walk_coordinates_iff_example :
    (verify_random_walk_coordinates toy (toy []) (1 ∷ []) walked (some two_steps) ≡ ok true)
    ↔ (generate_random_walk_coordinates toy (toy []) (1 ∷ []) (some two_steps) ≡ ok walked)
verify_random_walk_coordinates_iff_example =
    verify_random_walk_coordinates_iff toy (toy []) (1 ∷ []) walked (some two_steps)
