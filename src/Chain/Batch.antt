-- ===== src/Chain/Batch.antt =====
-- The statuses of batches, and the committing and validating of a batch
-- (dsm/src/core/state_machine/hashchain.rs). A method that changes the chain and then fails gives
-- the changed chain with its error.
pub mod Laws
pub mod Steps
use dsm_decentralized_state.Base.{
  ℕ, ◌+◌, ◌%◌, ◌^◌, Bool, true, false, Option, none, some, List, [], ◌∷◌, ◌++◌, leb, nat_eq,
  if◌then◌else◌,
}
use dsm_decentralized_state.Base.Map
use dsm_decentralized_state.Base.Result.{
  Result, ok, err, Error, ok_or, ◌>>=◌, not_found, invalid_operation, validation,
}
use dsm_decentralized_state.State.Operation.{Bytes}
use dsm_decentralized_state.State.Model.{State, Primitives}
use dsm_decentralized_state.State.Next.{create_next_state}
use dsm_decentralized_state.Chain.{
  HashChain, StateTransition, BatchStatus, pending, finalized, committed, failed,
  BatchValidationState, add_state, get_latest_state,
}

unfoldable pub get_batch_status : ℕ → HashChain → Result BatchStatus
get_batch_status batch_id c = ok_or (Map.get batch_id c.batch_statuses) not_found

-- the `match` of `transition_batch_state`
abbrev pub is_valid_step : BatchStatus → BatchStatus → Bool
is_valid_step pending finalized = true
is_valid_step finalized committed = true
is_valid_step _ _ = false

abbrev pub set_status : ℕ → BatchStatus → HashChain → HashChain
set_status batch_id status c = record c {
  batch_statuses = Map.insert batch_id status c.batch_statuses;
}

unfoldable pub transition_batch_state : ℕ → BatchStatus → HashChain → Result HashChain
transition_batch_state batch_id new_status c = get_batch_status batch_id c >>= λ current.
    if is_valid_step current new_status
    then ok (set_status batch_id new_status c)
    else err invalid_operation

-- What a method with `&mut self` leaves and returns.
abbrev pub Outcome : Type 0
Outcome = HashChain × Result (Unit {0})

-- `new_entropy.clone().unwrap_or_default()`
abbrev pub or_empty : Option Bytes → Bytes
or_empty none = []
or_empty (some e) = e

-- `entry(batch_id).or_insert(..)`
abbrev pub validation_of : Option BatchValidationState → BatchValidationState
validation_of (some v) = v
validation_of none = record {
  validation_count = 0;
  required_validations = 2;
  validation_signatures = [];
}

abbrev pub add_validation : Bytes → BatchValidationState → BatchValidationState
add_validation signature v = record v {
  validation_signatures = v.validation_signatures ++ signature ∷ [];
  validation_count = (v.validation_count + 1) % 2 ^ 32;
}

module _ (p : Primitives) (bench_thread : Bool) where
  -- The loop of `commit_batch`: from a state on, each transition makes a state that is added.
  unfoldable pub apply_all : List StateTransition → State → HashChain → Outcome
  apply_all [] current c = (c, ok tt)
  apply_all (t ∷ ts) current c =
      let next = create_next_state p bench_thread current t.operation (or_empty t.new_entropy) in
      elim (add_state next c) [ err e ↦ (c, err e) | ok c' ↦ apply_all ts next c' ]

  -- `let current_state = self.get_latest_state()?`, then the loop
  unfoldable pub apply_from : Result State → List StateTransition → HashChain → Outcome
  apply_from (err e) transitions c = (c, err e)
  apply_from (ok current) transitions c = apply_all transitions current c

  -- `commit_batch` once the status is set
  unfoldable pub commit_transitions : ℕ → HashChain → Outcome
  commit_transitions batch_id c = elim (Map.get batch_id c.cached_transitions) [
    | none ↦ (c, err not_found)
    | some transitions ↦ apply_from (get_latest_state c) transitions c
  ]

  unfoldable pub commit_batch : ℕ → HashChain → Outcome
  commit_batch batch_id c = elim (transition_batch_state batch_id committed c) [
    | err e ↦ (c, err e)
    | ok c' ↦ commit_transitions batch_id c'
  ]

  unfoldable pub count_validation : ℕ → Bytes → HashChain → Outcome
  count_validation batch_id signature c =
      let v =
        add_validation signature (validation_of (Map.get batch_id c.batch_validation_state)) in
      let c' = record c {
        batch_validation_state = Map.insert batch_id v c.batch_validation_state;
      } in
      if leb v.required_validations v.validation_count
      then commit_batch batch_id c'
      else (c', ok tt)

  unfoldable pub validate_batch : ℕ → Bytes → HashChain → Outcome
  validate_batch batch_id signature c = elim (get_batch_status batch_id c) [
    | err e ↦ (c, err e)
    | ok finalized ↦ count_validation batch_id signature c
    | ok _ ↦ (c, err validation)
  ]
