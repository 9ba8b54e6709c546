-- ===== src/TokenState/Tests.antt =====
-- Balances of two keys, a commitment, and one instance of each theorem.
use dsm_decentralized_state.Base.{
  ℕ, ◌+◌, ◌-◌, ◌<◌, ◌≡◌, ◌↔◌, ◌⊎◌, refl, true, false, none, some, List, [], ◌∷◌, arith, list_beq,
  nat_eq, list_eq, if◌then◌else◌,
}
use dsm_decentralized_state.Base.Map
use dsm_decentralized_state.Base.Result.{ok, err, insufficient_balance, blocked}
use dsm_decentralized_state.Token.Balance.{Balance}
use dsm_decentralized_state.State.Operation.{
  Text, TransferFields, transfer, genesis, unilateral, standard,
}
use dsm_decentralized_state.State.Model.{State, Primitives, PreCommitment}
use dsm_decentralized_state.TokenState.{
  Environment, Balances, BalanceCache, value_at, new_balances, transfer_balances, make_balance_key,
  balance_new, create_token_state_transition, validate_commitment_chain, transfer_type, amount_key,
}
use dsm_decentralized_state.TokenState.Transfers.{total, sender_key, recipient_key, transfer_lem}
use dsm_decentralized_state.TokenState.Blocking.{ended, create_token_state_transition-ended}
use dsm_decentralized_state.TokenState.Commitments.{AllKeep, validate_commitment_chain_iff}

abbrev env : Environment
env = record {
  hex_encode = λ x. x;
  now = 1000;
  blake3 = λ xs. 5 ∷ [];
  verify_token_policy = λ o. ok tt;
}

abbrev coins : ℕ → Balance
coins n = record { value = n; locked = 3; last_updated = 0; state_hash = none }

-- To the key 2, or to the own key 1.
abbrev send : ℕ → ℕ → TransferFields
send recipient n = record {
  to_address = [];
  amount = coins n;
  token_id = 9 ∷ [];
  mode = unilateral;
  nonce = [];
  verification = standard;
  pre_commit = none;
  recipient = recipient ∷ [];
  to = [];
  message = [];
}

abbrev holder : State
holder = record {
  id = [];
  state_number = 4;
  entropy = [];
  hash = 8 ∷ [];
  prev_state_hash = [];
  sparse_index = [];
  operation = genesis;
  encapsulated_entropy = none;
  device_info = record { device_id = []; public_key = 1 ∷ [] };
  token_balances = ((1 ∷ 9 ∷ []), coins 50) ∷ ((2 ∷ 9 ∷ []), coins 20) ∷ [];
  forward_commitment = none;
  state_type = [];
}

abbrev fresh : ℕ → Balance
fresh n = record { value = n; locked = 0; last_updated = 1000; state_hash = some (5 ∷ []) }

sent :
    new_balances env (transfer (send 2 30)) holder
    ≡ ok (((1 ∷ 9 ∷ []), fresh 20) ∷ ((2 ∷ 9 ∷ []), fresh 50) ∷ [])
unfolding new_balances transfer_balances value_at make_balance_key balance_new Map.get Map.insert
sent = refl

-- Sending 30 to the own key makes 80 of 50.
sent_to_self :
    new_balances env (transfer (send 1 30)) holder
    ≡ ok (((1 ∷ 9 ∷ []), fresh 80) ∷ ((2 ∷ 9 ∷ []), coins 20) ∷ [])
unfolding new_balances transfer_balances value_at make_balance_key balance_new Map.get Map.insert
sent_to_self = refl

transfer_lem_example :
    ((value_at (sender_key env (send 1 30) holder) holder.token_balances < 30)
      × (new_balances env (transfer (send 1 30)) holder ≡ err insufficient_balance))
    ⊎ ((after : Balances) × (new_balances env (transfer (send 1 30)) holder ≡ ok after)
        × ((j : Text)
            → value_at j after ≡ (
                if list_beq (recipient_key env (send 1 30)) j
                then value_at (recipient_key env (send 1 30)) holder.token_balances + 30
                else if list_beq (sender_key env (send 1 30) holder) j
                then value_at (sender_key env (send 1 30) holder) holder.token_balances - 30
                else value_at j holder.token_balances))
        × (total after ≡ (
            if list_beq (sender_key env (send 1 30) holder) (recipient_key env (send 1 30))
            then total holder.token_balances + 30
            else total holder.token_balances)))
unfolding value_at make_balance_key Map.get
transfer_lem_example = transfer_lem env (send 1 30) holder (omega arith)

abbrev toy : Primitives
toy = record {
  blake3 = λ (xs : List ℕ). 6 ∷ [];
  serialize_operation = λ o. 1 ∷ [];
  serialize_commitment = λ f. 2 ∷ [];
  serialize_balance = λ b. 3 ∷ [];
}

abbrev cache : BalanceCache
cache = record { entries = []; taken = false }

create_token_state_transition-ended_example :
    create_token_state_transition toy env holder (transfer (send 2 30)) [] none cache
    ≡ ended env (transfer (send 2 30)) holder
create_token_state_transition-ended_example =
    create_token_state_transition-ended toy env holder (transfer (send 2 30)) [] none cache

ended_runs : ended {A = State} env (transfer (send 2 30)) holder ≡ err blocked
unfolding new_balances transfer_balances value_at make_balance_key balance_new Map.get
ended_runs = refl

abbrev promise : PreCommitment
promise = record {
  operation_type = transfer_type;
  fixed_parameters = [];
  variable_parameters = amount_key ∷ [];
  min_state_number = 5;
  hash = 6 ∷ [];
  signatures = [];
  entity_signature = none;
  counterparty_signature = none;
  timestamp = 0;
  expires_at = none;
  value = [];
  commitment = [];
  counterparty_id = [];
}

abbrev promised : List State
promised =
    record holder { forward_commitment = some promise }
    ∷ record holder { state_number = 5; operation = transfer (send 2 30) }
    ∷ []

validate_commitment_chain_iff_example :
    (validate_commitment_chain toy.blake3 promised ≡ true) ↔ AllKeep toy.blake3 promised
validate_commitment_chain_iff_example = validate_commitment_chain_iff toy.blake3 promised
