-- ===== src/State/Next.antt =====
-- The making of states: `State::new_genesis` (dsm/src/types/state_types.rs), and
-- `create_next_state`, its fast variant, `apply_transition` and `verify_transition_integrity`
-- (dsm/src/core/state_machine/transition.rs). The name of the current thread, which
-- `create_next_state` and `apply_transition` read, is the argument `bench_thread`. The entropy that
-- a transition should have is of dsm/src/crypto/blake3.rs.
pub mod Laws
pub mod Integrity
use dsm_decentralized_state.Base.{
  ℕ, Bool, true, false, ◌||◌, ◌&&◌, ◌++◌, nat_beq, Option, none, some, List, [], ◌∷◌, if◌then◌else◌,
  list_beq, nat_eq,
}
use dsm_decentralized_state.Base.Word.{wrapping_add}
use dsm_decentralized_state.State.Operation.{
  Bytes, Text, Operation, TransactionMode, create, transfer, bilateral, unilateral,
  is_mint_or_transfer,
}
use dsm_decentralized_state.State.Sparse.{calculate_sparse_indices}
use dsm_decentralized_state.Token.Balance.{le_bytes}
use dsm_decentralized_state.State.Model.{DeviceInfo, State, Primitives, compute_hash, state_hash}
use dsm_decentralized_state.State.Model.Text.{state_id, genesis_id}

-- "standard"
abbrev pub standard_type : Bytes
standard_type = 115 ∷ 116 ∷ 97 ∷ 110 ∷ 100 ∷ 97 ∷ 114 ∷ 100 ∷ []

-- "benchmark"
abbrev pub benchmark : Bytes
benchmark = 98 ∷ 101 ∷ 110 ∷ 99 ∷ 104 ∷ 109 ∷ 97 ∷ 114 ∷ 107 ∷ []

-- "Genesis state creation"
abbrev genesis_message : Text
genesis_message =
    71 ∷ 101 ∷ 110 ∷ 101 ∷ 115 ∷ 105 ∷ 115 ∷ 32 ∷ 115 ∷ 116 ∷ 97 ∷ 116 ∷ 101 ∷ 32 ∷ 99 ∷ 114 ∷ 101
    ∷ 97 ∷ 116 ∷ 105 ∷ 111 ∷ 110 ∷ []

unfoldable pub new_genesis : Bytes → DeviceInfo → State
new_genesis initial_entropy device_info = record {
  id = genesis_id;
  state_number = 0;
  entropy = initial_entropy;
  hash = [];
  prev_state_hash = [];
  sparse_index = [];
  operation = create genesis_message [] device_info.public_key [] [] [] bilateral;
  encapsulated_entropy = none;
  device_info = device_info;
  token_balances = [];
  forward_commitment = none;
  state_type = standard_type;
}

abbrev pub transfer_mode : Operation → Option TransactionMode
transfer_mode (transfer t) = some t.mode
transfer_mode _ = none

-- The test of `create_next_state` for the type of the state.
abbrev pub is_benchmark_context : Bool → State → Operation → Bool
is_benchmark_context bench_thread current operation =
    is_mint_or_transfer operation || list_beq current.state_type benchmark || bench_thread

module _ (p : Primitives) where
  -- The successor of a state before its hash is set.
  unfoldable pub successor : State → Operation → Bytes → Bytes → State
  successor current operation new_entropy state_type = record current {
    state_number = wrapping_add current.state_number 1;
    operation = operation;
    entropy = new_entropy;
    state_type = state_type;
    id = state_id (wrapping_add current.state_number 1);
    prev_state_hash = state_hash p current;
    sparse_index = calculate_sparse_indices (wrapping_add current.state_number 1);
  }

  -- `state.hash = state.compute_hash()?`
  unfoldable pub set_hash : State → State
  set_hash s = record s { hash = compute_hash p s }

  unfoldable pub create_next_state : Bool → State → Operation → Bytes → State
  unfolding successor set_hash
  create_next_state bench_thread current operation new_entropy = set_hash (
      successor current operation new_entropy (
        if is_benchmark_context bench_thread current operation
        then benchmark
        else current.state_type))

  unfoldable pub create_next_state_optimized : State → Operation → Bytes → Bool → State
  unfolding successor set_hash
  create_next_state_optimized current operation new_entropy is_benchmark = set_hash (
      successor current operation new_entropy
        (if is_benchmark then benchmark else current.state_type))

  -- The dispatch of `apply_transition`, on the mode of a transfer; `create_next_state` uses neither
  -- the kind of verification nor whether both parties are required.
  unfoldable pub by_mode : Option TransactionMode → Bool → State → Operation → Bytes → State
  by_mode (some bilateral) bench_thread current operation new_entropy =
      create_next_state bench_thread current operation new_entropy
  by_mode (some unilateral) bench_thread current operation new_entropy =
      create_next_state bench_thread current operation new_entropy
  by_mode none bench_thread current operation new_entropy =
      create_next_state bench_thread current operation new_entropy

  unfoldable pub apply_transition : Bool → State → Operation → Bytes → State
  apply_transition bench_thread current operation new_entropy =
      if list_beq current.state_type benchmark || is_mint_or_transfer operation || bench_thread
      then create_next_state_optimized current operation new_entropy true
      else by_mode (transfer_mode operation) bench_thread current operation new_entropy

  -- `crypto::blake3::generate_deterministic_entropy`
  unfoldable pub generate_deterministic_entropy : Bytes → Bytes → ℕ → Bytes
  generate_deterministic_entropy current_entropy operation next_state_number =
      p.blake3 (current_entropy ++ (operation ++ le_bytes 8 next_state_number))

  -- `verify_transition_integrity`
  unfoldable pub verify_transition_integrity : State → State → Operation → Bool
  unfolding generate_deterministic_entropy
  verify_transition_integrity previous current operation =
      nat_beq current.state_number (wrapping_add previous.state_number 1)
      && list_beq current.prev_state_hash (state_hash p previous)
      && list_beq current.hash (compute_hash p current)
      && list_beq current.entropy (
          generate_deterministic_entropy previous.entropy (p.serialize_operation operation)
            current.state_number)
