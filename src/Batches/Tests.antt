-- ===== src/Batches/Tests.antt =====
-- Batches of two transitions under a toy hash function, and one instance of each theorem.
use dsm_decentralized_state.Base.{
  ℕ, ◌+◌, ◌≤◌, ◌≡◌, ◌⊎◌, refl, true, false, none, some, List, [], ◌∷◌, ◌++◌, arith, length,
  replicate, nat_eq, list_eq, list_beq,
}
use dsm_decentralized_state.Base.Map
use dsm_decentralized_state.Base.Result.{ok, err, generic}
use dsm_decentralized_state.Merkle.Hash.{Collision, hash_node}
use dsm_decentralized_state.Merkle.Sparse
use dsm_decentralized_state.Merkle.Sparse.{
  MerkleProof, update_levels, update_path, store_leaf, insert, insert_all,
}
use dsm_decentralized_state.Token.Balance.{le_bytes}
use dsm_decentralized_state.State.Operation.{genesis}
use dsm_decentralized_state.State.Model.{State, Primitives, Sized, state_hash}
use dsm_decentralized_state.Chain
use dsm_decentralized_state.Chain.{StateTransition, pending}
use dsm_decentralized_state.Batches.Chained.{BatchingChain, create_batch}
use dsm_decentralized_state.Batches.Chained.Once.{ChainCall, make_all, create_batch-once}
use dsm_decentralized_state.Batches.{
  StateBatch, BatchCommitment, BatchBuilder, Codec, new_builder, new_batch, batch_bytes,
  commitments_bytes, push_transition, build_from, build, verify, zeros,
}
use dsm_decentralized_state.Batches.Manager.{
  BatchManager, new, start_batch, add_to, add_transition, get_batch, finish, finalize_batch,
  generate_transition_proof, verify_transition_in_batch, verify_batch,
}
use dsm_decentralized_state.Batches.Hashes.{verify-committed, verify-once}
use dsm_decentralized_state.Batches.Sound.Calls.{
  Call, start, add, finalize, run, run_all, IsStored, generate_transition_proof_lem,
  verify_transition_in_batch_lem, verify_batch_lem, finalize_batch-get_batch,
}

abbrev toy : Primitives
toy = record {
  blake3 = λ (xs : List ℕ). length xs ∷ replicate 31 0;
  serialize_operation = λ o. 1 ∷ [];
  serialize_commitment = λ f. 2 ∷ [];
  serialize_balance = λ b. 3 ∷ [];
}

toy-Sized : Sized toy
toy-Sized x = refl

abbrev toy_codec : Codec
toy_codec = record {
  serialize_transition = λ (t : StateTransition). t.timestamp ∷ t.others;
  serialize_commitment = λ (c : BatchCommitment). zeros ++ c.commitment_hash;
  serialize_proof = λ (proof : MerkleProof). proof.index ∷ [];
  log2_ceil = λ len. len;
}

abbrev empty_state : State
empty_state = record {
  id = [];
  state_number = 0;
  entropy = [];
  hash = 8 ∷ [];
  prev_state_hash = [];
  sparse_index = [];
  operation = genesis;
  encapsulated_entropy = none;
  device_info = record { device_id = []; public_key = [] };
  token_balances = [];
  forward_commitment = none;
  state_type = [];
}

abbrev at_time : ℕ → StateTransition
at_time time = record {
  operation = genesis;
  new_entropy = none;
  timestamp = time;
  others = [];
  previous_state = empty_state;
}

abbrev stand_in : StateBatch → ℕ → StateTransition
stand_in batch i = at_time i

abbrev two_added : List Call
two_added = start (some empty_state) ∷ add (at_time 5) ∷ add (at_time 6) ∷ []

abbrev one_batch : List Call
one_batch = two_added ++ finalize ∷ []

abbrev batch : StateBatch
batch = record {
  batch_number = 0;
  prev_state_hash = 8 ∷ [];
  transitions_root = 65 ∷ replicate 31 0;
  transition_count = 2;
  time_range = (5, 6);
  commitments = [];
  forward_commitment = none;
  cached_hash = none;
  transition_indices = [];
}

manager : List Call → BatchManager
manager calls = run_all toy toy_codec calls new

batch-listed : get_batch 0 (manager one_batch) ≡ ok batch
unfolding manager run_all run start_batch add_transition add_to push_transition new_builder
    finalize_batch finish build build_from new_batch insert_all insert store_leaf update_path
    update_levels Sparse.new new get_batch Map.insert Map.get state_hash hash_node
batch-listed = refl

generate_transition_proof_lem_example :
    (t : StateTransition) × (proof : MerkleProof) × IsStored toy toy_codec stand_in 0 1 t
      (manager one_batch)
    × (generate_transition_proof toy toy_codec stand_in 0 1 (manager one_batch)
        ≡ ok (toy_codec.serialize_proof proof))
    × (Sparse.verify_proof toy.blake3 batch.transitions_root
          (toy_codec.serialize_transition t)
          proof
        ≡ true)
unfolding manager
generate_transition_proof_lem_example =
    generate_transition_proof_lem toy toy_codec stand_in one_batch 0 1 batch
      (unfold manager in batch-listed) (omega arith)

verify_transition_in_batch_lem_example :
    (s : StateTransition) × IsStored toy toy_codec stand_in 0 1 s (manager one_batch)
    × (verify_transition_in_batch toy toy_codec stand_in 0 1 (at_time 7) (manager one_batch)
        ≡ ok (list_beq (7 ∷ []) (toy_codec.serialize_transition s)))
unfolding manager
verify_transition_in_batch_lem_example =
    verify_transition_in_batch_lem toy toy_codec stand_in one_batch 0 1 batch (at_time 7)
      (unfold manager in batch-listed) (omega arith)

verify_batch_lem_example :
    verify_batch toy toy_codec stand_in batch empty_state (manager one_batch)
    ≡ list_beq batch.prev_state_hash (state_hash toy empty_state)
unfolding manager
verify_batch_lem_example =
    verify_batch_lem toy toy_codec stand_in one_batch 0 batch empty_state
      (unfold manager in batch-listed)

abbrev fresh : BatchBuilder
fresh = record {
  batch_number = 0;
  prev_state_hash = 8 ∷ [];
  transitions = [];
  commitments = [];
  tree = none;
}

fresh-active : (manager (start (some empty_state) ∷ [])).active_batch ≡ some fresh
unfolding manager run_all run start_batch new_builder new state_hash
fresh-active = refl

finalize_batch-get_batch_example :
    (b : StateBatch) × ((finalize_batch toy toy_codec (manager (start (some empty_state) ∷ []))).1
      ≡ ok b)
    × (b.transition_count ≡ 0)
    × (get_batch 0 (finalize_batch toy toy_codec (manager (start (some empty_state) ∷ []))).0
        ≡ ok b)
unfolding manager
finalize_batch-get_batch_example =
    finalize_batch-get_batch toy toy_codec stand_in (start (some empty_state) ∷ []) fresh
      (unfold manager in fresh-active)

abbrev promise : BatchCommitment
promise = record {
  transition_index = 0;
  commitment_hash = 4 ∷ [];
  signatures = [];
  public_keys = [];
}

zeros-long :
    (d : BatchCommitment)
    → 32 + length d.commitment_hash ≤ length (toy_codec.serialize_commitment d)
zeros-long d = omega arith

verify-committed_example :
    (verify toy toy_codec (8 ∷ []) (record batch { commitments = promise ∷ [] })).1 ≡ false
verify-committed_example =
    verify-committed toy toy_codec (8 ∷ []) (record batch { commitments = promise ∷ [] }) 0 promise
      toy-Sized zeros-long refl (omega arith)

-- The root is the hash of the bytes that hold it: 8 for each of four numbers, 1 and 32.
abbrev closed : StateBatch
closed = record batch { transitions_root = 65 ∷ replicate 31 0 }

closed-accepted : (verify toy toy_codec (8 ∷ []) closed).1 ≡ true
unfolding verify batch_bytes commitments_bytes le_bytes
closed-accepted = refl

verify-once_example : (◌≡◌ {A = ℕ} 0 0) ⊎ Collision toy.blake3
verify-once_example =
    verify-once toy toy_codec (8 ∷ []) (8 ∷ []) closed closed (omega arith) (omega arith) refl
      closed-accepted closed-accepted

empty_chain : BatchingChain
empty_chain = record { chain = Chain.new; batches = []; next_batch_id = 0; batch_manager = new }

create_batch-once_example :
    let c' =
      make_all toy toy_codec
        (ChainCall.add 0 (at_time 5) ∷ [])
        (create_batch toy toy_codec 1 empty_chain).0 in
    ((create_batch toy toy_codec 2 c').1 ≡ err generic)
    × (Map.get c'.next_batch_id (create_batch toy toy_codec 2 c').0.chain.batch_statuses
        ≡ some pending)
create_batch-once_example =
    create_batch-once toy toy_codec 1 (ChainCall.add 0 (at_time 5) ∷ []) 2 empty_chain

-- The first call succeeds.
first_created : (create_batch toy toy_codec 1 empty_chain).1 ≡ ok 0
unfolding create_batch empty_chain start_batch new Chain.new
first_created = refl
