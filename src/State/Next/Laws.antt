-- ===== src/State/Next/Laws.antt =====
-- What a new state fits to: its own hash, its predecessor, and the sparse index.
use dsm_decentralized_state.Base.{
  ◌+◌, ◌^◌, ◌<◌, ◌≡◌, refl, sym, ap, ◌∙◌, Bool, true, ◌||◌, if◌then◌else◌, arith, inl, inr,
  Bool-cases, Option, none, some, list_beq, list_beq_refl, nat_eq,
}
use dsm_decentralized_state.Base.Word.{wrapping_add}
use dsm_decentralized_state.State.Operation.{
  Bytes, Operation, TransactionMode, bilateral, unilateral, is_mint_or_transfer,
}
use dsm_decentralized_state.State.Sparse.{contains}
use dsm_decentralized_state.State.Sparse.Laws.{calculate_sparse_indices_lem}
use dsm_decentralized_state.State.Model.{
  State, Primitives, compute_hash, compute_hash-set, state_hash, verify_state_hash,
}
use dsm_decentralized_state.State.Model.Text.{state_id}
use dsm_decentralized_state.State.Next.{
  benchmark, successor, set_hash, is_benchmark_context, create_next_state,
  create_next_state_optimized, by_mode, transfer_mode, apply_transition,
}

module _ (p : Primitives) where
  set_hash-verifies : (s : State) → verify_state_hash p (set_hash p s) ≡ true
  unfolding verify_state_hash set_hash
  set_hash-verifies s =
      rw (compute_hash-set p s (compute_hash p s) s.state_type) (list_beq_refl (compute_hash p s))

  -- The two ways to make the next state differ in the field `state_type` alone: in particular they
  -- give one hash.
  create_next_state-optimized :
      (current : State) (operation : Operation) (new_entropy : Bytes)
      (bench_thread is_benchmark : Bool)
      → create_next_state_optimized p current operation new_entropy is_benchmark
        ≡ record (create_next_state p bench_thread current operation new_entropy) {
          state_type = if is_benchmark then benchmark else current.state_type;
        }
  unfolding create_next_state create_next_state_optimized set_hash successor
  create_next_state-optimized current operation new_entropy bench_thread is_benchmark =
      ap
        (λ (h : Bytes). record (successor p current operation new_entropy current.state_type) {
          hash = h;
          state_type = if is_benchmark then benchmark else current.state_type;
        })
        (typed (if is_benchmark then benchmark else current.state_type)
          ∙ sym (
              typed (
                if is_benchmark_context bench_thread current operation
                then benchmark
                else current.state_type)))
    where
      typed :
          (t : Bytes)
          → compute_hash p (successor p current operation new_entropy t)
            ≡ compute_hash p (successor p current operation new_entropy current.state_type)
      typed t =
          compute_hash-set p (successor p current operation new_entropy current.state_type)
            current.hash t

  -- What the next state of `current` is, for the state that follows it.
  pub record Follows (current next : State) : Type 0 where
    pub numbered : next.state_number ≡ current.state_number + 1
    pub named : next.id ≡ state_id (current.state_number + 1)
    pub linked : next.prev_state_hash ≡ state_hash p current
    pub hashed : verify_state_hash p next ≡ true
    pub indexed : contains current.state_number next.sparse_index ≡ true
    pub balances_kept : next.token_balances ≡ current.token_balances

  -- The next state of a state numbered below 2 ^ 63 - 1 follows it: it has the next number and the
  -- id for it, links to the hash of the state, has a hash that verifies and a sparse index that
  -- holds the number of the state, and keeps the token balances.
  pub create_next_state-Follows :
      (bench_thread : Bool) (current : State) (operation : Operation) (new_entropy : Bytes)
      → current.state_number + 1 < 2 ^ 63
      → Follows current (create_next_state p bench_thread current operation new_entropy)
  unfolding create_next_state
  create_next_state-Follows bench_thread current operation new_entropy small = record {
    numbered = unfold set_hash successor in up;
    named = unfold set_hash successor in ap state_id up;
    linked = unfold set_hash successor in refl;
    hashed = set_hash-verifies _;
    indexed =
        unfold set_hash successor in
        rw up (
          ((calculate_sparse_indices_lem (current.state_number + 1) (omega arith) small).1
              current.state_number).1
            (inr (inl (omega arith))));
    balances_kept = unfold set_hash successor in refl;
  }
    where
      up : wrapping_add current.state_number 1 ≡ current.state_number + 1
      up = omega arith

  by_mode_lem :
      (mode : Option TransactionMode) (bench_thread : Bool) (current : State)
      (operation : Operation) (new_entropy : Bytes)
      → by_mode p mode bench_thread current operation new_entropy
        ≡ create_next_state p bench_thread current operation new_entropy
  unfolding by_mode
  by_mode_lem none bench_thread current operation new_entropy = refl
  by_mode_lem (some bilateral) bench_thread current operation new_entropy = refl
  by_mode_lem (some unilateral) bench_thread current operation new_entropy = refl

  create_next_state-benchmark :
      (bench_thread : Bool) (current : State) (operation : Operation) (new_entropy : Bytes)
      → is_benchmark_context bench_thread current operation ≡ true
      → record (create_next_state p bench_thread current operation new_entropy) {
        state_type = benchmark;
      }
        ≡ create_next_state p bench_thread current operation new_entropy
  unfolding create_next_state set_hash successor
  create_next_state-benchmark bench_thread current operation new_entropy h = rw h refl

  same_context : (b c d : Bool) → (b || c || d) ≡ true → (c || b || d) ≡ true
  same_context b c d h = ground arith

  -- `apply_transition` makes the state that `create_next_state` makes, in the fast path and in
  -- every case of its dispatch.
  apply_transition_lem :
      (bench_thread : Bool) (current : State) (operation : Operation) (new_entropy : Bytes)
      → apply_transition p bench_thread current operation new_entropy
        ≡ create_next_state p bench_thread current operation new_entropy
  unfolding apply_transition
  apply_transition_lem bench_thread current operation new_entropy = elim (Bool-cases fast_path) [
    | inr plain ↦
        rw plain (by_mode_lem (transfer_mode operation) bench_thread current operation new_entropy)
    | inl fast ↦ rw fast (
        create_next_state-optimized current operation new_entropy bench_thread true
        ∙ create_next_state-benchmark bench_thread current operation new_entropy (
            same_context (list_beq current.state_type benchmark) (is_mint_or_transfer operation)
              bench_thread fast))
  ]
    where
      fast_path : Bool
      fast_path =
          list_beq current.state_type benchmark || is_mint_or_transfer operation || bench_thread
