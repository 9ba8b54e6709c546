-- ===== src/Chain/Tests.antt =====
-- A chain of two states under a toy hash function, and one instance of each theorem.
use dsm_decentralized_state.Base.{
  ℕ, ◌+◌, ◌^◌, ◌≤◌, ◌<◌, ◌≡◌, ◌≢◌, ◌⊎◌, ◌↔◌, refl, true, false, some, List, [], ◌∷◌, arith, any,
  length, list_eq, nat_eq, some, replicate, inl,
}
use dsm_decentralized_state.Base.Map
use dsm_decentralized_state.Base.Map.{values}
use dsm_decentralized_state.Base.Result.{ok, err, generic, validation, not_found}
use dsm_decentralized_state.Token.Balance.{le_bytes}
use dsm_decentralized_state.State.Model.Text.{sort_entries}
use dsm_decentralized_state.Merkle.Hash.{Collision}
use dsm_decentralized_state.State.Operation.{Bytes, generic as generic_op}
use dsm_decentralized_state.State.Model.{
  State, Primitives, Sized, compute_hash, hash_input, verify_state_hash,
}
use dsm_decentralized_state.State.Next.{new_genesis, set_hash, create_next_state}
use dsm_decentralized_state.Chain.{
  HashChain, StateTransition, finalized, committed, verify_rest, new, new_current, numbered,
  refers_back, store, add_state, get_state_by_number, verify_chain,
}
use dsm_decentralized_state.Chain.Batch.{get_batch_status, set_status, commit_batch}
use dsm_decentralized_state.Chain.Batch.Laws.{Advanced, commit_batch_lem}
use dsm_decentralized_state.Chain.Batch.Steps.{
  OnlyCommits, here, then_step, committing, get_batch_status-Reaches,
}
use dsm_decentralized_state.Chain.WellFormed.{
  Canonical, WellFormed, Added, new-WellFormed, store-WellFormed, add_state_lem,
}
use dsm_decentralized_state.Chain.Verified.{state_at, Verified, verify_chain-Verified}
use dsm_decentralized_state.Chain.Append.{add_state-create_next_state}
use dsm_decentralized_state.Chain.Binding.{Agree, verify_chain-binding}
use dsm_decentralized_state.Chain.Queries.{get_state_by_number_lem}

abbrev toy_primitives : Primitives
toy_primitives = record {
  blake3 = λ (xs : List ℕ). length xs ∷ replicate 31 0;
  serialize_operation = λ o. 1 ∷ [];
  serialize_commitment = λ f. 2 ∷ [];
  serialize_balance = λ b. 3 ∷ [];
}

toy_primitives-Sized : Sized toy_primitives
toy_primitives-Sized x = refl

genesis_state : State
unfolding set_hash new_genesis
genesis_state =
    set_hash toy_primitives (new_genesis (9 ∷ []) (record { device_id = []; public_key = [] }))

genesis_state-Canonical : Canonical genesis_state
unfolding genesis_state set_hash new_genesis
genesis_state-Canonical = record { small = omega arith; named = inl (refl, refl) }

one : HashChain
unfolding genesis_state store
one = store genesis_state new

one-added : add_state genesis_state new ≡ ok one
unfolding one add_state new
one-added = refl

one-WellFormed : WellFormed one
unfolding one
one-WellFormed =
    store-WellFormed genesis_state new genesis_state-Canonical new-WellFormed
      (unfold new Map.get in λ k t e. cc)

one-verified : verify_chain toy_primitives one ≡ ok true
unfolding one genesis_state store new set_hash new_genesis verify_chain compute_hash hash_input
    verify_state_hash le_bytes sort_entries
one-verified = refl

one-current : one.current_state ≡ some genesis_state
unfolding one store new_current new
one-current = refl

one-Verified : Verified toy_primitives one
unfolding one genesis_state
one-Verified = record {
  genesis = genesis_state;
  current = genesis_state;
  found = unfold store new Map.insert set_hash new_genesis in refl;
  is_current = one-current;
  genesis_hashed =
      unfold set_hash new_genesis verify_state_hash compute_hash hash_input le_bytes sort_entries in
      refl;
  links = λ i lt. absurd (unfold set_hash new_genesis in omega arith);
}

add_state_lem_example :
    ((any (numbered genesis_state.state_number) (values new.states) ≡ true)
      × (add_state genesis_state new ≡ err generic))
    ⊎ ((refers_back genesis_state new ≡ false) × (add_state genesis_state new ≡ err validation))
    ⊎ ((c : HashChain) × ((k : Bytes) (t : State)
          → Map.get k new.states ≡ some t
          → t.state_number ≢ genesis_state.state_number)
        × (refers_back genesis_state new ≡ true)
        × (add_state genesis_state new ≡ ok c)
        × Added genesis_state new c)
add_state_lem_example = add_state_lem genesis_state new genesis_state-Canonical new-WellFormed

verify_chain-Verified_example :
    (verify_chain toy_primitives one ≡ ok true) ↔ ((one.states ≡ []) ⊎ Verified toy_primitives one)
verify_chain-Verified_example = verify_chain-Verified toy_primitives one

genesis_small : genesis_state.state_number + 1 < 2 ^ 63
unfolding genesis_state set_hash new_genesis
genesis_small = omega arith

genesis_small_2 : genesis_state.state_number + 2 < 2 ^ 63
unfolding genesis_state set_hash new_genesis
genesis_small_2 = omega arith

uncached : HashChain
uncached = record new { batch_statuses = (4, finalized) ∷ [] }

abbrev two : State
two = create_next_state toy_primitives false genesis_state (generic_op (110 ∷ []) [] []) (7 ∷ [])

add_state-create_next_state_example :
    (c : HashChain) × (add_state two one ≡ ok c)
    × WellFormed c
    × (c.current_state ≡ some two)
    × (verify_chain toy_primitives c ≡ ok true)
add_state-create_next_state_example =
    add_state-create_next_state toy_primitives false (generic_op (110 ∷ []) [] []) (7 ∷ []) one
      genesis_state one-WellFormed one-current genesis_small one-verified

one-Verified_head : state_at one-Verified.genesis one.states 0 ≡ some genesis_state
unfolding one-Verified
one-Verified_head = refl

one-Verified_room : 0 ≤ one-Verified.current.state_number
one-Verified_room = omega arith

verify_chain-binding_example :
    Agree toy_primitives one one one-Verified one-Verified 0 ⊎ Collision toy_primitives.blake3
verify_chain-binding_example =
    verify_chain-binding toy_primitives toy_primitives-Sized one one one-Verified one-Verified 0 0
      genesis_state genesis_state one-Verified_room one-Verified_room one-Verified_head
      one-Verified_head refl (omega arith)

get_state_by_number_lem_example :
    ((k : Bytes) × (s : State) × (Map.get k one.states ≡ some s)
      × (s.state_number ≡ 1)
      × (get_state_by_number 1 one ≡ ok s))
    ⊎ (((k : Bytes) (s : State) → Map.get k one.states ≡ some s → s.state_number ≢ 1)
        × (get_state_by_number 1 one ≡ err not_found))
get_state_by_number_lem_example =
    get_state_by_number_lem 1 one genesis_state one-WellFormed one-current
      (unfold one store new in refl)

abbrev note : StateTransition
note = record {
  operation = generic_op (110 ∷ []) [] [];
  new_entropy = some (7 ∷ []);
  timestamp = 0;
  others = [];
  previous_state = genesis_state;
}

-- The chain of the genesis state with a finalized batch.
batched : List StateTransition → HashChain
batched ts = record one { cached_transitions = (4, ts) ∷ []; batch_statuses = (4, finalized) ∷ [] }

batched-status : (ts : List StateTransition) → get_batch_status 4 (batched ts) ≡ ok finalized
unfolding batched get_batch_status Map.get
batched-status ts = refl

batched-WellFormed : (ts : List StateTransition) → WellFormed (batched ts)
unfolding batched
batched-WellFormed ts = record {
  unique = one-WellFormed.unique;
  distinct = one-WellFormed.distinct;
  canonical = one-WellFormed.canonical;
  bounded = one-WellFormed.bounded;
  headed = one-WellFormed.headed;
}

batched-verified : (ts : List StateTransition) → verify_chain toy_primitives (batched ts) ≡ ok true
unfolding batched verify_chain verify_rest
batched-verified ts = one-verified

commit_batch_lem_example :
    (c : HashChain) × (commit_batch toy_primitives false 4 (batched (note ∷ note ∷ []))
      ≡ (c, ok tt))
    × Advanced toy_primitives false
        (set_status 4 committed (batched (note ∷ note ∷ [])))
        c
        (genesis_state.state_number + 2)
unfolding batched Map.get
commit_batch_lem_example =
    commit_batch_lem toy_primitives false 4 (note ∷ note ∷ []) genesis_state
      (batched (note ∷ note ∷ [])) (batched-WellFormed (note ∷ note ∷ [])) one-current
      (batched-verified (note ∷ note ∷ [])) (batched-status (note ∷ note ∷ [])) refl genesis_small_2

get_batch_status-Reaches_example :
    OnlyCommits (batched (note ∷ [])) (commit_batch toy_primitives false 4 (batched (note ∷ []))).0
get_batch_status-Reaches_example =
    get_batch_status-Reaches toy_primitives false (batched (note ∷ []))
      (commit_batch toy_primitives false 4 (batched (note ∷ []))).0
      (then_step (batched (note ∷ [])) (batched (note ∷ []))
        (commit_batch toy_primitives false 4 (batched (note ∷ []))).0 (here (batched (note ∷ [])))
        (committing 4 (batched (note ∷ []))))
