-- ===== src/Merkle/Plain/Tests.antt =====
-- Small plain trees under a toy hash function, and one instance of each theorem.
use dsm_decentralized_state.Base.{
  ℕ, ◌+◌, ◌%◌, ◌≡◌, refl, true, false, some, List, [], ◌∷◌, replicate,
}
use dsm_decentralized_state.Merkle.Hash.{Hash}
use dsm_decentralized_state.Merkle.Plain.{
  MerkleTree, new, add_leaf, generate_proof, verify_proof, root_hash, combine_hashes,
}
use dsm_decentralized_state.Merkle.Plain.RoundTrip.{new-IsBuilt, verify_proof-generate_proof}

abbrev mix : ℕ → List ℕ → ℕ
mix acc [] = acc
mix acc (x ∷ xs) = mix ((acc + acc + acc + x) % 65521) xs

abbrev toy : List ℕ → Hash
toy xs = mix 7 xs ∷ replicate 31 0

abbrev four : MerkleTree
four = new toy ((1 ∷ []) ∷ (2 ∷ []) ∷ (3 ∷ []) ∷ (4 ∷ []) ∷ [])

four_leaf : (generate_proof toy 5 four).path ≡ []
unfolding generate_proof new add_leaf
four_leaf = refl

verify_proof-generate_proof_example :
    (r : Hash) × (root_hash four ≡ some r)
    × (verify_proof toy r (toy (3 ∷ [])) (generate_proof toy 2 four).path 2 ≡ true)
unfolding new add_leaf
verify_proof-generate_proof_example =
    verify_proof-generate_proof toy four 2 2 (toy (3 ∷ []))
      (new-IsBuilt toy ((1 ∷ []) ∷ (2 ∷ []) ∷ (3 ∷ []) ∷ (4 ∷ []) ∷ [])) refl refl

-- This hash function has a fixed point of the kind that the theorem speaks of.
abbrev flat : List ℕ → Hash
flat xs = replicate 32 0

odd_leaf_rejected :
    verify_proof toy
      (combine_hashes toy (combine_hashes toy (toy (1 ∷ [])) (toy (2 ∷ []))) (toy (3 ∷ [])))
      (toy (3 ∷ []))
      (generate_proof toy 2 (new toy ((1 ∷ []) ∷ (2 ∷ []) ∷ (3 ∷ []) ∷ []))).path
      2
    ≡ false
unfolding new generate_proof verify_proof add_leaf
odd_leaf_rejected = refl
