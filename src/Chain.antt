-- ===== src/Chain.antt =====
-- `HashChain`: the states that a device has, by their ids, and the checks of their links
-- (dsm/src/core/state_machine/hashchain.rs). The map of states stands in an order of iteration.
-- Of batching the record has the cached transitions, the statuses and the validations; the batches
-- themselves, their counter and the batch manager are in Batches/Chained.
pub mod Lookup
pub mod WellFormed
pub mod Verified
pub mod Append
pub mod Queries
pub mod Batch
pub mod Binding
mod Tests
use dsm_decentralized_state.Base.{
  ℕ, zero, suc, ◌+◌, ◌-◌, Bool, true, false, not, ◌&&◌, ◌||◌, Option, none, some, List, [], ◌∷◌,
  ltb, leb, nat_beq, if◌then◌else◌, any, find, list_beq, list_eq, nat_eq,
}
use dsm_decentralized_state.Base.Map
use dsm_decentralized_state.Base.Word.{wrapping_add}
use dsm_decentralized_state.Base.Map.{Map, values, keys}
use dsm_decentralized_state.Base.Result.{
  Result, ok, err, ◌>>=◌, ◌>>◌, fail_if, ok_or, validation, not_found, generic, verification,
  invalid_parameter, panic,
}
use dsm_decentralized_state.State.Operation.{Bytes, Operation}
use dsm_decentralized_state.State.Sparse.{contains}
use dsm_decentralized_state.State.Model.{State, Primitives, state_hash, verify_state_hash}
use dsm_decentralized_state.State.Model.Text.{state_id}

-- The fields of a transition that the chain and the batches read. The others count only in the bytes
-- that a transition is serialized to; `others` stands for them.
pub record StateTransition : Type 0 where
  pub operation : Operation
  pub new_entropy : Option Bytes
  pub timestamp : ℕ
  pub others : Bytes
  pub previous_state : State

pub data BatchStatus : Type 0 where
  pending finalized committed : BatchStatus
  failed : Bytes → BatchStatus

pub record BatchValidationState : Type 0 where
  pub validation_count : ℕ
  pub required_validations : ℕ
  pub validation_signatures : List Bytes

pub record HashChain : Type 0 where
  pub states : Map Bytes State
  pub current_state : Option State
  pub sparse_checkpoints : Map ℕ State
  pub cached_transitions : Map ℕ (List StateTransition)
  pub batch_statuses : Map ℕ BatchStatus
  pub batch_validation_state : Map ℕ BatchValidationState

unfoldable pub new : HashChain
new = record {
  states = [];
  current_state = none;
  sparse_checkpoints = [];
  cached_transitions = [];
  batch_statuses = [];
  batch_validation_state = [];
}

abbrev pub numbered : ℕ → State → Bool
numbered n s = nat_beq s.state_number n

-- `state_in_batch`: a cached transition starts from the state with the number.
unfoldable pub state_in_batch : ℕ → Map ℕ (List StateTransition) → Bool
state_in_batch n cached =
    any (any (λ (t : StateTransition). numbered n t.previous_state)) (values cached)

-- The check of the sparse index in `add_state`.
unfoldable pub refers_back : State → HashChain → Bool
unfolding state_in_batch
refers_back s c =
    not (ltb 0 s.state_number)
    || contains (s.state_number - 1) s.sparse_index
    || state_in_batch (s.state_number - 1) c.cached_transitions
    || contains 0 s.sparse_index

unfoldable pub new_current : State → Option State → State
new_current s none = s
new_current s (some current) = if ltb current.state_number s.state_number then s else current

unfoldable pub store : State → HashChain → HashChain
unfolding new_current Map.insert
store s c = record c {
  states = Map.insert s.id s c.states;
  current_state = some (new_current s c.current_state);
}

unfoldable pub add_state : State → HashChain → Result HashChain
unfolding refers_back store
add_state s c =
    if any (numbered s.state_number) (values c.states)
    then err generic
    else if refers_back s c
    then ok (store s c)
    else err validation

-- `get_state`
unfoldable pub get_state : Bytes → HashChain → Option State
unfolding Map.get
get_state id c = Map.get id c.states

unfoldable pub get_latest_state : HashChain → Result State
get_latest_state c = ok_or c.current_state not_found

-- The largest checkpoint up to the target, or 0.
nearest_checkpoint : ℕ → ℕ → List ℕ → ℕ
nearest_checkpoint target best [] = best
nearest_checkpoint target best (num ∷ nums) =
    nearest_checkpoint target (if leb num target && ltb best num then num else best) nums

-- The loop from a checkpoint on; a round goes from a state to the one with the next id.
walk : ℕ → ℕ → Map Bytes State → State → Result State
unfolding Map.get state_id
walk zero target states current = err not_found
walk (suc fuel) target states current =
    let next = Map.get (state_id (wrapping_add current.state_number 1)) states in
    let later : Result State = elim next [
      | none ↦ err not_found
      | some s ↦ walk fuel target states s
    ] in
    if numbered target current then ok current else later

from_checkpoint : ℕ → ℕ → HashChain → Result State
unfolding walk Map.get
from_checkpoint target zero c = err not_found
from_checkpoint target (suc num) c =
    ok_or (Map.get (suc num) c.sparse_checkpoints) panic >>= walk (target + 1) target c.states

unfoldable pub get_state_by_number : ℕ → HashChain → Result State
unfolding from_checkpoint nearest_checkpoint
get_state_by_number n c = ok_or c.current_state not_found >>= λ current.
    if ltb current.state_number n
    then err not_found
    else elim (find (numbered n) (values c.states)) [
      | some s ↦ ok s
      | none ↦ from_checkpoint n (nearest_checkpoint n 0 (keys c.sparse_checkpoints)) c
    ]

unfoldable pub get_state_by_hash : Bytes → HashChain → Result State
get_state_by_hash hash c =
    ok_or (find (λ (s : State). list_beq s.hash hash) (values c.states)) not_found

unfoldable pub has_state_with_hash : Bytes → HashChain → Bool
has_state_with_hash hash c = any (λ (s : State). list_beq s.hash hash) (values c.states)

-- `for num in start_num..=end_num`
collect : ℕ → ℕ → HashChain → Result (List State)
unfolding get_state_by_number
collect zero num c = ok []
collect (suc rounds) num c =
    get_state_by_number num c >>= λ s. collect rounds (num + 1) c >>= λ rest. ok (s ∷ rest)

unfoldable pub extract_subsequence : ℕ → ℕ → HashChain → Result (List State)
unfolding collect
extract_subsequence start_num end_num c =
    fail_if (ltb end_num start_num) invalid_parameter
    >> (ok_or c.current_state not_found >>= λ current.
        fail_if (ltb current.state_number end_num) not_found
        >> collect (end_num - start_num + 1) start_num c)

module _ (p : Primitives) where
  -- One round of the loop of `verify_chain`: the state with the next id, its link and its hash.
  unfoldable pub check_next : Bytes → Option State → Result State
  check_next current_hash none = err validation
  check_next current_hash (some next) =
      if list_beq next.prev_state_hash current_hash && verify_state_hash p next
      then ok next
      else err validation

  unfoldable pub verify_from : ℕ → ℕ → Bytes → Map Bytes State → Result Bool
  unfolding check_next Map.get
  verify_from zero num current_hash states = ok true
  verify_from (suc rounds) num current_hash states =
      check_next current_hash (Map.get (state_id (num + 1)) states) >>= λ next.
      verify_from rounds (num + 1) (state_hash p next) states

  -- `verify_chain` from the genesis state on
  unfoldable pub verify_rest : HashChain → State → Result Bool
  unfolding verify_from
  verify_rest c genesis =
      fail_if (not (verify_state_hash p genesis)) validation
      >> (ok_or c.current_state panic >>= λ current.
          verify_from current.state_number 0 (state_hash p genesis) c.states)

  unfoldable pub verify_chain : HashChain → Result Bool
  unfolding verify_rest
  verify_chain c = elim c.states [
    | [] ↦ ok true
    | e ∷ es ↦ ok_or (find (numbered 0) (values c.states)) validation >>= verify_rest c
  ]

  unfoldable pub verify_state : State → HashChain → Result Bool
  verify_state s c =
      if not (verify_state_hash p s)
      then ok false
      else if nat_beq s.state_number 0
      then ok true
      else elim (get_state_by_number (s.state_number - 1) c) [
        | ok prev ↦ ok (list_beq s.prev_state_hash (state_hash p prev))
        | err e ↦ err verification
      ]
