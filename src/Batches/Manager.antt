-- ===== src/Batches/Manager.antt =====
-- `BatchManager` (dsm/src/core/state_machine/batch.rs). A method that changes the manager gives the
-- manager that it leaves with its result. `retrieve_batch_transitions` makes test data for a batch
-- whose transitions are not cached; what it makes at an index is the argument `placeholder`.
use dsm_decentralized_state.Base.{
  ℕ, zero, suc, ◌+◌, Bool, true, false, Option, none, some, List, [], ◌∷◌, map, length, get_elem?,
  leb, nat_beq, if◌then◌else◌, list_beq, nat_eq, not,
}
use dsm_decentralized_state.Base.Map
use dsm_decentralized_state.Base.Map.{Map}
use dsm_decentralized_state.Base.Word.{wrapping_add}
use dsm_decentralized_state.Base.Result.{
  Result, ok, err, ok_or, ◌>>=◌, ◌>>◌, fail_if, not_found, validation, generic,
}
use dsm_decentralized_state.Merkle.Sparse
use dsm_decentralized_state.Merkle.Sparse.{get_proof, insert_all}
use dsm_decentralized_state.State.Operation.{Bytes}
use dsm_decentralized_state.State.Model.{State, Primitives, state_hash}
use dsm_decentralized_state.State.Next.{apply_transition}
use dsm_decentralized_state.Chain.{StateTransition}
use dsm_decentralized_state.Chain.Batch.{or_empty}
use dsm_decentralized_state.Batches.{
  StateBatch, BatchCommitment, BatchBuilder, Codec, zeros, new_builder, push_transition, build,
}

pub record BatchManager : Type 0 where
  pub batch_counter : ℕ
  pub batches : Map ℕ StateBatch
  pub active_batch : Option BatchBuilder
  pub last_state : Option State
  pub transition_cache : Map ℕ (List StateTransition)

unfoldable pub new : BatchManager
new = record {
  batch_counter = 0;
  batches = [];
  active_batch = none;
  last_state = none;
  transition_cache = [];
}

unfoldable pub get_batch : ℕ → BatchManager → Result StateBatch
get_batch n m = ok_or (Map.get n m.batches) not_found

-- the loop `for i in 0..batch.transition_count`
abbrev placeholders : (ℕ → StateTransition) → ℕ → ℕ → List StateTransition
placeholders placeholder zero i = []
placeholders placeholder (suc rounds) i = placeholder i ∷ placeholders placeholder rounds (i + 1)

-- The transitions with the one at an index replaced, as `verify_transition_in_batch` goes over them.
abbrev pub with_transition : ℕ → StateTransition → List StateTransition → List StateTransition
with_transition i t [] = []
with_transition zero t (s ∷ ss) = t ∷ ss
with_transition (suc i) t (s ∷ ss) = s ∷ with_transition i t ss

-- The loop of `verify_batch` over the commitments.
abbrev indices_within : ℕ → List BatchCommitment → Bool
indices_within len [] = true
indices_within len (c ∷ cs) = if leb len c.transition_index then false else indices_within len cs

module _ (p : Primitives) (codec : Codec) where
  -- `prev_state_hash` of `start_batch`
  abbrev hash_or_zeros : Option State → Bytes
  hash_or_zeros none = zeros
  hash_or_zeros (some s) = state_hash p s

  abbrev or_last : Option State → Option State → Option State
  or_last none last = last
  or_last (some s) last = some s

  -- `start_batch` where no batch is active
  abbrev started : Option State → BatchManager → BatchManager
  started prev m = record m {
    active_batch = some (new_builder m.batch_counter (hash_or_zeros prev));
    last_state = or_last prev m.last_state;
  }

  unfoldable pub start_batch : Option State → BatchManager → BatchManager × Result (Unit {0})
  start_batch prev m = elim m.active_batch [
    | some _ ↦ (m, err generic)
    | none ↦ (started prev m, ok tt)
  ]

  -- `builder.add_transition(transition)?` on the active builder
  unfoldable pub add_to :
      BatchBuilder → StateTransition → BatchManager → BatchManager × Result (Unit {0})
  add_to b t m =
      let pushed = push_transition p codec t b in
      (record m { active_batch = some pushed.0 }, pushed.1)

  unfoldable pub add_transition : StateTransition → BatchManager → BatchManager × Result (Unit {0})
  unfolding add_to
  add_transition t m = elim m.active_batch [
    | some b ↦ add_to b t m
    | none ↦
        add_to (new_builder m.batch_counter (hash_or_zeros m.last_state)) t (started m.last_state m)
  ]

  -- `finalize_batch` on the builder that it took
  unfoldable pub finish : BatchBuilder → BatchManager → BatchManager × Result StateBatch
  finish b m = elim (build p codec b) [
    | err e ↦ (m, err e)
    | ok batch ↦ (
      record m {
        transition_cache = Map.insert batch.batch_number b.transitions m.transition_cache;
        batches = Map.insert batch.batch_number batch m.batches;
        batch_counter = wrapping_add m.batch_counter 1;
      },
      ok batch,
    )
  ]

  unfoldable pub finalize_batch : BatchManager → BatchManager × Result StateBatch
  unfolding finish
  finalize_batch m = elim m.active_batch [
    | none ↦ (m, err generic)
    | some b ↦ finish b (record m { active_batch = none })
  ]

  module _ (placeholder : StateBatch → ℕ → StateTransition) where
    unfoldable pub retrieve_batch_transitions : ℕ → BatchManager → Result (List StateTransition)
    retrieve_batch_transitions n m = elim (Map.get n m.transition_cache) [
      | some cached ↦ ok cached
      | none ↦
          get_batch n m >>= λ batch. ok (placeholders (placeholder batch) batch.transition_count 0)
    ]

    unfoldable pub generate_transition_proof : ℕ → ℕ → BatchManager → Result Bytes
    unfolding retrieve_batch_transitions
    generate_transition_proof n index m = get_batch n m >>= λ batch.
        fail_if (leb batch.transition_count index) validation
        >> (retrieve_batch_transitions n m >>= λ transitions.
            insert_all p.blake3 0 (map codec.serialize_transition transitions) (Sparse.new 16)
            >>= λ tree.
                fail_if (not (list_beq tree.root batch.transitions_root)) validation
                >> (get_proof index tree >>= λ proof. ok (codec.serialize_proof proof)))

    -- `verify_transition_in_batch` from the comparison with the stored transition on
    unfoldable pub compare_stored :
        StateBatch
        → ℕ
        → StateTransition
        → List StateTransition
        → Option StateTransition
        → Result Bool
    compare_stored batch index t stored none = err validation
    compare_stored batch index t stored (some s) =
        if list_beq (codec.serialize_transition t) (codec.serialize_transition s)
        then insert_all p.blake3 0 (map codec.serialize_transition (with_transition index t stored))
            (Sparse.new 16)
          >>= (λ tree. ok (list_beq tree.root batch.transitions_root))
        else ok false

    unfoldable pub verify_transition_in_batch : ℕ → ℕ → StateTransition → BatchManager → Result Bool
    unfolding compare_stored retrieve_batch_transitions
    verify_transition_in_batch n index t m = get_batch n m >>= λ batch.
        fail_if (leb batch.transition_count index) validation
        >> (retrieve_batch_transitions n m >>= λ stored.
            compare_stored batch index t stored (get_elem? stored index))

    -- the loop of `execute_batch`
    unfoldable apply_each : Bool → List StateTransition → State → List State
    apply_each bench_thread [] current = []
    apply_each bench_thread (t ∷ ts) current =
        let next = apply_transition p bench_thread current t.operation (or_empty t.new_entropy) in
        next ∷ apply_each bench_thread ts next

    unfoldable execute_batch : Bool → StateBatch → State → BatchManager → Result (List State)
    unfolding apply_each retrieve_batch_transitions
    execute_batch bench_thread batch last m =
        fail_if (not (list_beq batch.prev_state_hash (state_hash p last))) validation
        >> (retrieve_batch_transitions batch.batch_number m >>= λ transitions.
            fail_if (not (nat_beq (length transitions) batch.transition_count)) validation
            >> ok (apply_each bench_thread transitions last))

    -- `verify_batch` once it has the transitions
    unfoldable pub verify_root : StateBatch → Result (List StateTransition) → Bool
    verify_root batch (err e) = false
    verify_root batch (ok transitions) =
        elim (insert_all p.blake3 0 (map codec.serialize_transition transitions) (Sparse.new 16)) [
          | err e ↦ false
          | ok tree ↦
              if list_beq tree.root batch.transitions_root
              then indices_within (length transitions) batch.commitments
              else false
        ]

    -- `verify_batch` never returns an error
    unfoldable pub verify_batch : StateBatch → State → BatchManager → Bool
    unfolding verify_root retrieve_batch_transitions
    verify_batch batch last m =
        if list_beq batch.prev_state_hash (state_hash p last)
        then verify_root batch (retrieve_batch_transitions batch.batch_number m)
        else false
