-- ===== src/TokenState.antt =====
-- `TokenStateManager` (dsm/src/core/token/token_state_manager.rs): the balances of a state under an
-- operation, with the cache of balances that is updated on the way, and the checks of forward
-- commitments. The clock that `Balance::new` reads does not change within a call, and the check of a
-- token's policy is an argument.
pub mod Transfers
pub mod Blocking
pub mod Commitments
mod Tests
use dsm_decentralized_state.Base.{
  ℕ, zero, suc, ◌+◌, ◌-◌, ◌*◌, ◌/◌, ◌%◌, ◌^◌, Bool, true, false, ◌&&◌, not, Option, none, some,
  List, [], ◌∷◌, ◌++◌, length, drop, any, ltb, nat_beq, nat_eq, list_eq, list_beq, if◌then◌else◌,
}
use dsm_decentralized_state.Base.Word.{wrapping_add, saturating_add}
use dsm_decentralized_state.Base.Map
use dsm_decentralized_state.Base.Map.{Map}
use dsm_decentralized_state.Base.Result.{
  Result, ok, err, ◌>>=◌, ◌>>◌, fail_if, insufficient_balance, policy_violation, blocked,
}
use dsm_decentralized_state.Token.Balance.{Balance}
use dsm_decentralized_state.State.Operation.{
  Bytes, Text, Operation, TransferFields, MintFields, BurnFields, transfer, mint, burn, lock_token,
  unlock_token, validate,
}
use dsm_decentralized_state.State.Model.{State, PreCommitment, Primitives, compute_hash, state_hash}
use dsm_decentralized_state.State.Model.Text.{digits, state_id, sort_entries}
use dsm_decentralized_state.State.Next.{standard_type}
use dsm_decentralized_state.Walk.{from_le_bytes}

-- "transfer"
abbrev pub transfer_type : Text
transfer_type = 116 ∷ 114 ∷ 97 ∷ 110 ∷ 115 ∷ 102 ∷ 101 ∷ 114 ∷ []

-- "mint"
abbrev mint_type : Text
mint_type = 109 ∷ 105 ∷ 110 ∷ 116 ∷ []

-- "burn"
abbrev burn_type : Text
burn_type = 98 ∷ 117 ∷ 114 ∷ 110 ∷ []

-- "lock"
abbrev lock_type : Text
lock_type = 108 ∷ 111 ∷ 99 ∷ 107 ∷ []

-- "unlock"
abbrev unlock_type : Text
unlock_type = 117 ∷ 110 ∷ 108 ∷ 111 ∷ 99 ∷ 107 ∷ []

-- "token_id"
abbrev token_id_key : Text
token_id_key = 116 ∷ 111 ∷ 107 ∷ 101 ∷ 110 ∷ 95 ∷ 105 ∷ 100 ∷ []

-- "recipient"
abbrev recipient_key_name : Text
recipient_key_name = 114 ∷ 101 ∷ 99 ∷ 105 ∷ 112 ∷ 105 ∷ 101 ∷ 110 ∷ 116 ∷ []

-- "amount"
abbrev pub amount_key : Text
amount_key = 97 ∷ 109 ∷ 111 ∷ 117 ∷ 110 ∷ 116 ∷ []

-- What the manager is built with: the hexadecimal writing of a key, the clock that `Balance::new`
-- reads, BLAKE3, and the check of the policy of the token of an operation.
pub record Environment : Type 0 where
  pub hex_encode : Bytes → Text
  pub now : ℕ
  pub blake3 : List ℕ → Bytes
  pub verify_token_policy : Operation → Result (Unit {0})

-- "balance_creation_"
abbrev balance_creation : Text
balance_creation =
    98 ∷ 97 ∷ 108 ∷ 97 ∷ 110 ∷ 99 ∷ 101 ∷ 95 ∷ 99 ∷ 114 ∷ 101 ∷ 97 ∷ 116 ∷ 105 ∷ 111 ∷ 110 ∷ 95 ∷ []

abbrev pub Balances : Type 0
Balances = Map Text Balance

-- `parking_lot::RwLock<HashMap<..>>`, with whether it is taken for writing.
pub record BalanceCache : Type 0 where
  pub entries : Balances
  pub taken : Bool

-- `self.balance_cache.write()`: the lock is not reentrant.
unfoldable pub write : BalanceCache → Result BalanceCache
write cache = if cache.taken then err blocked else ok (record cache { taken = true })

abbrev max_cache_size : ℕ
max_cache_size = 10000

-- The newest entries by key, when there are too many.
trim : Balances → Balances
trim entries =
    if ltb max_cache_size (length entries)
    then drop (length entries - max_cache_size) (sort_entries entries)
    else entries

-- The guard is released at the end.
unfoldable pub optimize_balance_cache : BalanceCache → Result BalanceCache
unfolding write trim
optimize_balance_cache cache =
    write cache >>= λ held. ok (record { entries = trim held.entries; taken = false })

-- `for (key, balance) in new_balances { cache.insert(..) }`
unfoldable pub insert_all : Balances → Balances → Balances
insert_all [] entries = entries
insert_all ((key, balance) ∷ rest) entries = insert_all rest (Map.insert key balance entries)

unfoldable pub update_balance_cache : Balances → BalanceCache → Result BalanceCache
unfolding write insert_all optimize_balance_cache
update_balance_cache new_balances cache = write cache >>= λ held.
    optimize_balance_cache (record held { entries = insert_all new_balances held.entries })
    >>= λ after. ok (record after { taken = false })

-- `unwrap_or_else(|| Balance::new(0))`, and then `value()`
unfoldable pub value_at : Text → Balances → ℕ
value_at key balances = elim (Map.get key balances) [ none ↦ 0 | some b ↦ b.value ]

-- The loop of `create_token_state_transition` over `n`, a `u64`, which 64 halvings make 0.
odd_halves : ℕ → ℕ → List ℕ
odd_halves zero n = []
odd_halves (suc rounds) n =
    let rest = odd_halves rounds (n / 2) in
    if nat_beq n 0 then [] else if nat_beq (n % 2) 1 then n ∷ rest else rest

-- `pre_commit.operation_type == ..`
matches_type : Operation → PreCommitment → Bool
matches_type (transfer _) c = list_beq c.operation_type transfer_type
matches_type (mint _) c = list_beq c.operation_type mint_type
matches_type (burn _) c = list_beq c.operation_type burn_type
matches_type (lock_token _ _ _ _) c = list_beq c.operation_type lock_type
matches_type (unlock_token _ _ _ _) c = list_beq c.operation_type unlock_type
matches_type _ c = false

-- A parameter that is fixed has its value; any other has any.
matches_fixed : Text → Text → PreCommitment → Bool
matches_fixed name value c = elim (Map.get name c.fixed_parameters) [
  | none ↦ true
  | some expected ↦ list_beq value expected
]

matches_fixed_params : Operation → PreCommitment → Bool
unfolding matches_fixed
matches_fixed_params (transfer t) c =
    matches_fixed token_id_key t.token_id c && matches_fixed recipient_key_name t.recipient c
matches_fixed_params (mint m) c = matches_fixed token_id_key m.token_id c
matches_fixed_params (burn b) c = matches_fixed token_id_key b.token_id c
matches_fixed_params _ c = true

-- An amount that is variable is free; one that is fixed, to eight bytes, is that number.
amount_valid : ℕ → PreCommitment → Bool
unfolding from_le_bytes
amount_valid amount c =
    if any (list_beq amount_key) c.variable_parameters
    then true
    else elim (Map.get amount_key c.fixed_parameters) [
      | none ↦ false
      | some expected ↦
          if nat_beq (length expected) 8 then nat_beq amount (from_le_bytes expected) else false
    ]

variable_params_valid : Operation → PreCommitment → Bool
unfolding amount_valid
variable_params_valid (transfer t) c = amount_valid t.amount.value c
variable_params_valid (mint m) c = amount_valid m.amount.value c
variable_params_valid (burn b) c = amount_valid b.amount.value c
variable_params_valid _ c = true

unfoldable pub verify_precommitment_parameters : PreCommitment → Operation → Bool
unfolding matches_type matches_fixed_params variable_params_valid
verify_precommitment_parameters c o =
    if not (matches_type o c)
    then false
    else if not (matches_fixed_params o c)
    then false
    else matches_type o c && matches_fixed_params o c && variable_params_valid o c

-- The fixed parameters in the order of their keys, and the variable ones in order.
fixed_bytes : Map Text Bytes → Bytes
fixed_bytes [] = []
fixed_bytes ((key, value) ∷ rest) = key ++ (value ++ fixed_bytes rest)

variable_bytes : Map Text (Unit {0}) → Bytes
variable_bytes [] = []
variable_bytes ((param, _) ∷ rest) = param ++ variable_bytes rest

-- Each parameter as a key, for the sorting.
unfoldable pub as_keys : List Text → Map Text (Unit {0})
as_keys [] = []
as_keys (param ∷ rest) = (param, tt) ∷ as_keys rest

unfoldable pub commitment_data : PreCommitment → Bytes
unfolding fixed_bytes variable_bytes as_keys
commitment_data c =
    c.hash
    ++ (fixed_bytes (sort_entries c.fixed_parameters)
        ++ variable_bytes (sort_entries (as_keys c.variable_parameters)))

module _ (blake3 : List ℕ → Bytes) where
  unfoldable pub compute_commitment_hash : PreCommitment → Bytes
  unfolding commitment_data
  compute_commitment_hash c = blake3 (commitment_data c)

  -- What `validate_commitment_chain` asks of the next state, for the commitment of the current one.
  unfoldable pub commitment_holds : Option PreCommitment → State → Bool
  unfolding compute_commitment_hash verify_precommitment_parameters
  commitment_holds none next = true
  commitment_holds (some c) next =
      if ltb next.state_number c.min_state_number
      then false
      else if not (verify_precommitment_parameters c next.operation)
      then false
      else if not (list_beq (compute_commitment_hash c) c.hash)
      then false
      else true

  -- The loop over `states.windows(2)`.
  unfoldable pub validate_commitment_chain : List State → Bool
  unfolding commitment_holds
  validate_commitment_chain [] = true
  validate_commitment_chain (current ∷ []) = true
  validate_commitment_chain (current ∷ next ∷ rest) =
      let later = validate_commitment_chain (next ∷ rest) in
      if not (commitment_holds current.forward_commitment next) then false else later

module _ (env : Environment) where
  -- `Balance::new`; `get_current_canonical_state_hash` is always `None`.
  unfoldable pub balance_new : ℕ → Balance
  balance_new value = record {
    value = value;
    locked = 0;
    last_updated = env.now;
    state_hash = some (env.blake3 (balance_creation ++ digits 20 env.now []));
  }

  unfoldable pub make_balance_key : Bytes → Text → Text
  make_balance_key owner_pk token_id = env.hex_encode owner_pk ++ token_id

  unfoldable pub transfer_balances : TransferFields → State → Balances → Result Balances
  unfolding balance_new make_balance_key value_at
  transfer_balances t s balances =
      let sender_key = make_balance_key s.device_info.public_key t.token_id in
      let recipient_key = make_balance_key t.recipient t.token_id in
      let sender = value_at sender_key balances in
      let recipient = value_at recipient_key balances in
      fail_if (ltb sender t.amount.value) insufficient_balance
      >> ok (
          Map.insert recipient_key (balance_new (saturating_add recipient t.amount.value))
            (Map.insert sender_key (balance_new (sender - t.amount.value)) balances))

  -- `verify_mint_authorization` returns true.
  mint_balances : MintFields → State → Balances → Result Balances
  unfolding balance_new make_balance_key value_at
  mint_balances m s balances =
      let owner_key = make_balance_key s.device_info.public_key m.token_id in
      ok (
        Map.insert owner_key
          (balance_new (saturating_add (value_at owner_key balances) m.amount.value)) balances)

  -- `verify_token_ownership` returns true.
  burn_balances : BurnFields → State → Balances → Result Balances
  unfolding balance_new make_balance_key value_at
  burn_balances b s balances =
      let owner_key = make_balance_key s.device_info.public_key b.token_id in
      let owner = value_at owner_key balances in
      fail_if (ltb owner b.amount.value) insufficient_balance
      >> ok (Map.insert owner_key (balance_new (owner - b.amount.value)) balances)

  -- the `match` of `apply_token_operation`
  unfoldable pub new_balances : Operation → State → Result Balances
  unfolding transfer_balances mint_balances burn_balances
  new_balances (transfer t) s = transfer_balances t s s.token_balances
  new_balances (mint m) s = mint_balances m s s.token_balances
  new_balances (burn b) s = burn_balances b s s.token_balances
  new_balances _ s = ok s.token_balances

  unfoldable pub apply_token_operation : State → Operation → BalanceCache → Result Balances
  unfolding new_balances update_balance_cache
  apply_token_operation s o cache =
      env.verify_token_policy o
      >> (new_balances o s >>= λ balances.
          update_balance_cache balances cache >>= λ after. ok balances)

-- `encapsulated_entropy.unwrap_or_default()`
abbrev pub or_empty : Option Bytes → Bytes
or_empty none = []
or_empty (some e) = e

-- Whether the operation keeps to the commitment of the current state, if there is one.
abbrev adheres : Option PreCommitment → Operation → Bool
adheres none o = true
adheres (some c) o = verify_precommitment_parameters c o

module _ (p : Primitives) (env : Environment) where
  -- the new state without its hash
  token_state : State → Operation → Bytes → Option Bytes → Balances → State
  unfolding odd_halves
  token_state current o new_entropy encapsulated balances =
      let n = wrapping_add current.state_number 1 in
      record {
        id = state_id n;
        state_number = n;
        entropy = new_entropy;
        hash = [];
        prev_state_hash = state_hash p current;
        sparse_index = odd_halves 64 n;
        operation = o;
        encapsulated_entropy = some (or_empty encapsulated);
        device_info = current.device_info;
        token_balances = balances;
        forward_commitment = none;
        state_type = standard_type;
      }

  -- What `operation.validate()` returns does not matter unless it is an error.
  unfoldable pub create_token_state_transition :
      State → Operation → Bytes → Option Bytes → BalanceCache → Result State
  unfolding apply_token_operation token_state
  create_token_state_transition current o new_entropy encapsulated cache = validate o >>= λ ignored.
      apply_token_operation env current o cache >>= λ balances.
      fail_if (not (adheres current.forward_commitment o)) policy_violation
      >> (let new_state = token_state current o new_entropy encapsulated balances in
          ok (record new_state { hash = compute_hash p new_state }))
