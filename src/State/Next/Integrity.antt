-- ===== src/State/Next/Integrity.antt =====
-- `verify_transition_integrity` on the states that `create_next_state` makes
-- (dsm/src/core/state_machine/transition.rs).
use dsm_decentralized_state.Base.{
  ◌≡◌, refl, sym, Bool, true, ◌&&◌, list_beq, list_beq_refl, nat_eq, list_eq, nat_beq_iff,
  if◌then◌else◌,
}
use dsm_decentralized_state.Base.Word.{wrapping_add}
use dsm_decentralized_state.State.Operation.{Bytes, Operation}
use dsm_decentralized_state.State.Model.{
  State, Primitives, compute_hash, compute_hash-set, state_hash,
}
use dsm_decentralized_state.State.Next.{
  benchmark, is_benchmark_context, successor, set_hash, create_next_state,
  generate_deterministic_entropy, verify_transition_integrity,
}

passes : (a b c d : Bool) → a ≡ true → b ≡ true → c ≡ true → (a && b && c && d) ≡ d
passes a b c d ea eb ec = rw (ea, eb, ec) refl

module _ (p : Primitives) where
  -- `verify_transition_integrity` accepts the state that `create_next_state` makes of a state, an
  -- operation and an entropy exactly when the entropy is the one that
  -- `generate_deterministic_entropy` gives for the entropy of the state, the bytes of the operation
  -- and the next number.
  pub verify_transition_integrity-create_next_state :
      (bench_thread : Bool) (s : State) (operation : Operation) (entropy : Bytes)
      → verify_transition_integrity p s
          (create_next_state p bench_thread s operation entropy)
          operation
        ≡ list_beq entropy (
            generate_deterministic_entropy p s.entropy
              (p.serialize_operation operation)
              (wrapping_add s.state_number 1))
  unfolding verify_transition_integrity create_next_state set_hash successor
  verify_transition_integrity-create_next_state bench_thread s operation entropy =
      passes _ _ _ _ ((nat_beq_iff _ _).1 refl) (list_beq_refl (state_hash p s)) (
        let bare =
          successor p s operation entropy
            (if is_benchmark_context bench_thread s operation then benchmark else s.state_type) in
        (list_eq.beq_iff _ _).1
          (sym (compute_hash-set p bare (compute_hash p bare) bare.state_type)))
