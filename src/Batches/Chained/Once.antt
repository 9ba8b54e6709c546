-- ===== src/Batches/Chained/Once.antt =====
-- The batch manager of a `HashChain` stays busy after the first batch
-- (dsm/src/core/state_machine/hashchain.rs): no method of the chain finalizes the manager's batch.
use dsm_decentralized_state.Base.{
  ℕ, ◌≡◌, refl, ap, Option, some, List, [], ◌∷◌, inl, inr, nat_eq, Option-cases,
}
use dsm_decentralized_state.Base.Map
use dsm_decentralized_state.Base.Map.{get-insert_self}
use dsm_decentralized_state.Base.Result.{ok, err, ◌>>=◌, generic}
use dsm_decentralized_state.State.Model.{State, Primitives}
use dsm_decentralized_state.Chain.{StateTransition, pending, finalized, committed, failed}
use dsm_decentralized_state.Batches.{BatchBuilder, Codec}
use dsm_decentralized_state.Batches.Manager.{BatchManager, start_batch, add_to, add_transition}
use dsm_decentralized_state.Batches.Chained.{
  BatchingChain, create_batch, add_to_batch, add_transition_to_batch,
}

pub data ChainCall : Type 0 where
  create : ℕ → ChainCall
  add : ℕ → StateTransition → ChainCall

abbrev IsBusy : BatchManager → Type 0
IsBusy m = (b : BatchBuilder) × (m.active_batch ≡ some b)

module _ (p : Primitives) (codec : Codec) where
  start_batch-IsBusy : (s : Option State) (m : BatchManager) → IsBusy (start_batch p codec s m).0
  unfolding start_batch
  start_batch-IsBusy s m = elim (Option-cases m.active_batch) [
    | inl free ↦ rw (start_batch, free) (_, refl)
    | inr (b, busy) ↦ rw (start_batch, busy) (b, busy)
  ]

  start_batch-refused :
      (s : Option State) (m : BatchManager) → IsBusy m → (start_batch p codec s m).1 ≡ err generic
  unfolding start_batch
  start_batch-refused s m (b, busy) = rw (start_batch, busy) refl

  add_transition-IsBusy :
      (t : StateTransition) (m : BatchManager) → IsBusy (add_transition p codec t m).0
  unfolding add_transition add_to
  add_transition-IsBusy t m = elim (Option-cases m.active_batch) [
    | inl free ↦ rw (add_transition, free) (_, refl)
    | inr (b, busy) ↦ rw (add_transition, busy) (_, refl)
  ]

  create_batch-IsBusy :
      (now : ℕ) (c : BatchingChain) → IsBusy (create_batch p codec now c).0.batch_manager
  unfolding create_batch
  create_batch-IsBusy now c = start_batch-IsBusy c.chain.current_state c.batch_manager

  add_transition_to_batch-IsBusy :
      (batch_id : ℕ) (t : StateTransition) (c : BatchingChain)
      → IsBusy c.batch_manager
      → IsBusy (add_transition_to_batch p codec batch_id t c).0.batch_manager
  unfolding add_transition_to_batch add_to_batch
  add_transition_to_batch-IsBusy batch_id t c busy =
      elim (Option-cases (Map.get batch_id c.chain.batch_statuses)) [
        | inl none_such ↦ rw (add_transition_to_batch, none_such) busy
        | inr (pending, found) ↦ elim (Option-cases (Map.get batch_id c.batches)) [
          | inl missing ↦ rw (add_transition_to_batch, found, missing) busy
          | inr (batch, there) ↦
              rw (add_transition_to_batch, found, there) (add_transition-IsBusy t c.batch_manager)
        ]
        | inr (finalized, found) ↦ rw (add_transition_to_batch, found) busy
        | inr (committed, found) ↦ rw (add_transition_to_batch, found) busy
        | inr (failed why, found) ↦ rw (add_transition_to_batch, found) busy
      ]

  pub make : ChainCall → BatchingChain → BatchingChain
  make (create now) c = (create_batch p codec now c).0
  make (add batch_id t) c = (add_transition_to_batch p codec batch_id t c).0

  pub make_all : List ChainCall → BatchingChain → BatchingChain
  unfolding make
  make_all [] c = c
  make_all (call ∷ calls) c = make_all calls (make call c)

  make-IsBusy :
      (call : ChainCall) (c : BatchingChain)
      → IsBusy c.batch_manager
      → IsBusy (make call c).batch_manager
  unfolding make
  make-IsBusy (create now) c busy = create_batch-IsBusy now c
  make-IsBusy (add batch_id t) c busy = add_transition_to_batch-IsBusy batch_id t c busy

  make_all-IsBusy :
      (calls : List ChainCall) (c : BatchingChain)
      → IsBusy c.batch_manager
      → IsBusy (make_all calls c).batch_manager
  unfolding make_all
  make_all-IsBusy [] c busy = busy
  make_all-IsBusy (call ∷ calls) c busy =
      make_all-IsBusy calls (make call c) (make-IsBusy call c busy)

  -- Call `create_batch` on any chain, then `create_batch` and `add_transition_to_batch` any number
  -- of times, with any arguments and results. A further call of `create_batch` returns an error,
  -- and leaves a batch with the status Pending under the next id.
  pub create_batch-once :
      (now : ℕ) (calls : List ChainCall) (now' : ℕ) (c : BatchingChain)
      → let c' = make_all calls (create_batch p codec now c).0 in
        ((create_batch p codec now' c').1 ≡ err generic)
        × (Map.get c'.next_batch_id (create_batch p codec now' c').0.chain.batch_statuses
            ≡ some pending)
  unfolding create_batch
  create_batch-once now calls now' c =
      let busy = make_all-IsBusy calls (create_batch p codec now c).0 (create_batch-IsBusy now c) in
      let c' = make_all calls (create_batch p codec now c).0 in
      (
        ap (λ r. r >>= λ _. ok c'.next_batch_id)
            (start_batch-refused c'.chain.current_state c'.batch_manager busy),
        get-insert_self c'.next_batch_id pending c'.chain.batch_statuses,
      )
