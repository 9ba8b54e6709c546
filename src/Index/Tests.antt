-- ===== src/Index/Tests.antt =====
-- A chain of empty states under a constant hash, its index, and one instance of each theorem.
use dsm_decentralized_state.Base.{
  ℕ, ◌≤◌, ◌^◌, ◌≡◌, refl, true, false, Option, none, some, List, [], ◌∷◌, ◌⊎◌, arith, nat_eq,
}
use dsm_decentralized_state.Base.Map
use dsm_decentralized_state.Base.Result.{Result, ok, err, invalid_operation, panic}
use dsm_decentralized_state.Merkle.Sparse
use dsm_decentralized_state.Merkle.Sparse.{SparseMerkleTreeImpl, MerkleProof, max_leaves}
use dsm_decentralized_state.Merkle.Sparse.Proofs.{new-IsValid}
use dsm_decentralized_state.State.Operation.{genesis}
use dsm_decentralized_state.State.Model.{State, Primitives, state_hash}
use dsm_decentralized_state.Index.{
  SparseIndexManager, new, is_checkpoint, add_state, get_state_by_number, generate_merkle_proof,
  verify_merkle_proof, traverse, from_nearest, get_nearest_checkpoint_before, nearest,
  store_checkpoint, insert_leaf, note_state, prune, retain, is_kept,
}
use dsm_decentralized_state.Index.Serves.{
  Hops, IsChain, get_state_by_number-Hops, get_state_by_number-chain,
}
use dsm_decentralized_state.Index.Agrees.{
  Serving, add_genesis-Serving, add_state-Serving, add_all, add_all-get_state_by_number,
}
use dsm_decentralized_state.Index.Proofs.{add_state-merkle_proof}

abbrev flat : Primitives
flat = record {
  blake3 = λ (xs : List ℕ). 7 ∷ [];
  serialize_operation = λ o. 1 ∷ [];
  serialize_commitment = λ f. 2 ∷ [];
  serialize_balance = λ b. 3 ∷ [];
}

-- The state with number `n`: its hash is 8, and so is the one before.
abbrev flat_chain : ℕ → State
flat_chain n = record {
  id = [];
  state_number = n;
  entropy = [];
  hash = 8 ∷ [];
  prev_state_hash = 8 ∷ [];
  sparse_index = [];
  operation = genesis;
  encapsulated_entropy = none;
  device_info = record { device_id = []; public_key = [] };
  token_balances = [];
  forward_commitment = none;
  state_type = [];
}

flat_chain-IsChain : IsChain flat flat_chain
unfolding state_hash
flat_chain-IsChain n = refl

abbrev serve : ℕ → Result (Option State)
serve n = ok (some (flat_chain n))

abbrev index : SparseIndexManager
index = (add_state flat (flat_chain 0) (new 10 false none (some 15))).0

index-Serving : Serving flat_chain index
index-Serving = add_genesis-Serving flat flat_chain 10 false none (some 15) (omega arith) refl

add_state-Serving_example : Serving flat_chain (add_state flat (flat_chain 20) index).0
add_state-Serving_example =
    add_state-Serving flat flat_chain (flat_chain 20) index refl index-Serving

get_state_by_number-Hops_example :
    (k : ℕ) × (c : State) × (k ≤ 2)
    × (Map.get k index.checkpoints ≡ some c)
    × Hops flat serve 2 (flat_chain 2) k c
unfolding get_state_by_number get_nearest_checkpoint_before nearest from_nearest traverse Map.get
    Map.insert add_state new is_checkpoint store_checkpoint insert_leaf note_state prune retain
    is_kept state_hash
get_state_by_number-Hops_example = get_state_by_number-Hops flat serve 2 (flat_chain 2) index refl

get_state_by_number-chain_example :
    get_state_by_number flat serve 7 index ≡ ok (some (flat_chain 7))
get_state_by_number-chain_example =
    get_state_by_number-chain flat serve flat_chain flat_chain-IsChain (λ k. refl) 7
      index-Serving.genesis.0 index index-Serving.agrees index-Serving.genesis.1

add_all-get_state_by_number_example :
    get_state_by_number flat serve 12
      (add_all flat flat_chain (0 ∷ 30 ∷ 10 ∷ 20 ∷ []) (new 10 true (some 4) (some 15)))
    ≡ ok (some (flat_chain 12))
add_all-get_state_by_number_example =
    add_all-get_state_by_number flat flat_chain serve (30 ∷ 10 ∷ 20 ∷ []) 12 10 true (some 4)
      (some 15) (omega arith) (λ k. refl) flat_chain-IsChain (λ k. refl)

abbrev fresh : SparseIndexManager
fresh = new 10 true (some 4) none

add_state-merkle_proof_example :
    ((max_leaves (Sparse.new 4).height ≤ 10)
      × ((add_state flat (flat_chain 10) fresh).1 ≡ err invalid_operation)
      × (Map.get 10 (add_state flat (flat_chain 10) fresh).0.checkpoints ≡ some (flat_chain 10)))
    ⊎ ((m : SparseIndexManager) × (add_state flat (flat_chain 10) fresh ≡ (m, ok tt))
        × (proof : MerkleProof) × (generate_merkle_proof 10 m ≡ ok (some proof))
        × (verify_merkle_proof flat (flat_chain 10) proof m ≡ true))
unfolding new is_checkpoint
add_state-merkle_proof_example =
    add_state-merkle_proof flat (flat_chain 10) fresh (Sparse.new 4) refl
      (new-IsValid flat.blake3 4) (omega arith) refl

-- The tenfold of the interval 2 ^ 63 is 0 in 64 bits.
is_kept_panics : is_kept 5 (2 ^ 63) 3 ≡ err panic
unfolding is_kept
is_kept_panics = refl
