-- ===== src/State/Tests.antt =====
-- Small states, and one instance of each theorem.
use dsm_decentralized_state.Base.{
  ℕ, ◌-◌, ◌^◌, ◌≤◌, ◌≡◌, ◌⊎◌, ◌↔◌, refl, true, false, List, [], ◌∷◌, arith, length, replicate,
  list_beq, nat_eq,
}
use dsm_decentralized_state.Token.Balance.{le_bytes}
use dsm_decentralized_state.State.Operation.{generic}
use dsm_decentralized_state.State.Sparse.{contains, calculate_sparse_indices}
use dsm_decentralized_state.State.Sparse.Laws.{IsIncreasing, calculate_sparse_indices_lem}
use dsm_decentralized_state.State.Model.{State, Primitives}
use dsm_decentralized_state.State.Model.Text.{state_id}
use dsm_decentralized_state.State.Next.{
  new_genesis, create_next_state, generate_deterministic_entropy, verify_transition_integrity,
}
use dsm_decentralized_state.State.Next.Integrity.{verify_transition_integrity-create_next_state}
use dsm_decentralized_state.Base.Word.{wrapping_add}

indices_of_12 : calculate_sparse_indices 12 ≡ 0 ∷ 4 ∷ 8 ∷ 10 ∷ 11 ∷ []
unfolding calculate_sparse_indices
indices_of_12 = refl

-- "state_12"
id_of_12 : state_id 12 ≡ 115 ∷ 116 ∷ 97 ∷ 116 ∷ 101 ∷ 95 ∷ 49 ∷ 50 ∷ []
unfolding state_id
id_of_12 = refl

calculate_sparse_indices_lem_example :
    IsIncreasing (calculate_sparse_indices 12)
    × ((a : ℕ)
        → (contains a (calculate_sparse_indices 12) ≡ true)
          ↔ ((a ≡ 0) ⊎ (a ≡ 12 - 1) ⊎ ((p : ℕ) × (2 ^ p ≤ 12) × (a ≡ 12 - 2 ^ p))))
calculate_sparse_indices_lem_example = calculate_sparse_indices_lem 12 (omega arith) (omega arith)

abbrev toy_primitives : Primitives
toy_primitives = record {
  blake3 = λ (xs : List ℕ). length xs ∷ replicate 31 0;
  serialize_operation = λ o. 1 ∷ [];
  serialize_commitment = λ f. 2 ∷ [];
  serialize_balance = λ b. 3 ∷ [];
}

abbrev start : State
start = new_genesis (9 ∷ []) (record { device_id = 65 ∷ []; public_key = 66 ∷ [] })

verify_transition_integrity-create_next_state_example :
    verify_transition_integrity toy_primitives start
      (create_next_state toy_primitives false start
        (generic (110 ∷ []) [] [])
        (10 ∷ replicate 31 0))
      (generic (110 ∷ []) [] [])
    ≡ list_beq (10 ∷ replicate 31 0) (
        generate_deterministic_entropy toy_primitives start.entropy
          (1 ∷ [])
          (wrapping_add start.state_number 1))
unfolding new_genesis
verify_transition_integrity-create_next_state_example =
    verify_transition_integrity-create_next_state toy_primitives false start
      (generic (110 ∷ []) [] []) (10 ∷ replicate 31 0)

-- One byte of entropy, one of the operation and eight of the number make the hash above.
accepted_entropy :
    generate_deterministic_entropy toy_primitives (9 ∷ []) (1 ∷ []) 1 ≡ 10 ∷ replicate 31 0
unfolding generate_deterministic_entropy le_bytes
accepted_entropy = refl
