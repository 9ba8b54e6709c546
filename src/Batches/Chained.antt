-- ===== src/Batches/Chained.antt =====
-- The batches of a `HashChain`: `create_batch` and `add_transition_to_batch`
-- (dsm/src/core/state_machine/hashchain.rs), with the batch manager that the chain has.
pub mod Once
use dsm_decentralized_state.Base.{
  ℕ, ◌+◌, ◌≡◌, refl, ◌∙◌, Option, none, some, List, [], ◌∷◌, ◌++◌, nat_eq, Option-cases,
}
use dsm_decentralized_state.Base.Map
use dsm_decentralized_state.Base.Map.{Map}
use dsm_decentralized_state.Base.Word.{wrapping_add}
use dsm_decentralized_state.Base.Result.{
  Result, ok, err, ◌>>=◌, not_found, validation, generic, panic,
}
use dsm_decentralized_state.State.Operation.{Bytes}
use dsm_decentralized_state.State.Model.{State, Primitives}
use dsm_decentralized_state.Chain.{HashChain, StateTransition, BatchStatus, pending}
use dsm_decentralized_state.Chain.Batch.{set_status}
use dsm_decentralized_state.Batches.{StateBatch, Codec, zeros}
use dsm_decentralized_state.Batches.Manager.{BatchManager, start_batch, add_to, add_transition}

-- A chain with the three fields that `HashChain` of Chain leaves out.
pub record BatchingChain : Type 0 where
  pub chain : HashChain
  pub batches : Map ℕ StateBatch
  pub next_batch_id : ℕ
  pub batch_manager : BatchManager

abbrev stored_hash : Option State → Bytes
stored_hash none = zeros
stored_hash (some s) = s.hash

-- The batch that `create_batch` stores.
abbrev empty_batch : ℕ → ℕ → HashChain → StateBatch
empty_batch now batch_id c = record {
  batch_number = batch_id;
  prev_state_hash = stored_hash c.current_state;
  transitions_root = zeros;
  transition_count = 0;
  time_range = (now, now);
  commitments = [];
  forward_commitment = none;
  cached_hash = none;
  transition_indices = [];
}

-- `entry(batch_id).or_default()`, then `push`
abbrev pushed : StateTransition → Option (List StateTransition) → List StateTransition
pushed t none = t ∷ []
pushed t (some ts) = ts ++ t ∷ []

module _ (p : Primitives) (codec : Codec) where
  unfoldable pub create_batch : ℕ → BatchingChain → BatchingChain × Result ℕ
  create_batch now c =
      let batch_id = c.next_batch_id in
      let begun = start_batch p codec c.chain.current_state c.batch_manager in
      (
        record {
          chain = set_status batch_id pending c.chain;
          batches = Map.insert batch_id (empty_batch now batch_id c.chain) c.batches;
          next_batch_id = wrapping_add batch_id 1;
          batch_manager = begun.0;
        },
        begun.1 >>= λ _. ok batch_id,
      )

  -- `add_transition_to_batch` on a pending batch that the chain has
  unfoldable pub add_to_batch :
      ℕ → StateTransition → StateBatch → BatchingChain → BatchingChain × Result ℕ
  add_to_batch batch_id t batch c =
      let added = add_transition p codec t c.batch_manager in
      let cached = c.chain.cached_transitions in
      (
        record c {
          chain = record c.chain {
            cached_transitions = Map.insert batch_id (pushed t (Map.get batch_id cached)) cached;
          };
          batches =
              Map.insert batch_id
                (record batch {
                  transition_count = wrapping_add batch.transition_count 1;
                  transition_indices = batch.transition_indices ++ batch.transition_count ∷ [];
                })
                c.batches;
          batch_manager = added.0;
        },
        added.1 >>= λ _. ok batch.transition_count,
      )

  unfoldable pub add_transition_to_batch :
      ℕ → StateTransition → BatchingChain → BatchingChain × Result ℕ
  unfolding add_to_batch
  add_transition_to_batch batch_id t c = elim (Map.get batch_id c.chain.batch_statuses) [
    | none ↦ (c, err not_found)
    | some pending ↦ elim (Map.get batch_id c.batches) [
      | none ↦ (c, err panic)
      | some batch ↦ add_to_batch batch_id t batch c
    ]
    | some _ ↦ (c, err validation)
  ]
