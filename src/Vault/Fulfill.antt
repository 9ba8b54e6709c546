-- ===== src/Vault/Fulfill.antt =====
-- `verify_fulfillment` and its helpers (dsm/src/vault/limbo_vault.rs). It reads no field of the
-- vault but the condition, and the temporary vault of a compound condition differs in that field
-- alone: the recursion is over the condition.
use dsm_decentralized_state.Base.{
  ℕ, suc, ◌+◌, Bool, true, false, not, none, List, [], ◌∷◌, ◌++◌, ltb, leb, nat_beq, nat_eq,
  list_eq, list_beq, any, get_or, length, if◌then◌else◌,
}
use dsm_decentralized_state.Base.Result.{Result, ok, ◌>>=◌}
use dsm_decentralized_state.Merkle.Hash.{Hash}
use dsm_decentralized_state.Token.Balance.{le_bytes}
use dsm_decentralized_state.State.Operation.{Bytes, Text}
use dsm_decentralized_state.State.Model.{State, Primitives}
use dsm_decentralized_state.Walk.{Position, generate_positions, verify_positions}
use dsm_decentralized_state.Vault.{
  FulfillmentMechanism, Mechanisms, FulfillmentProof, Proofs, LimboVault, Cryptography,
  time_release, payment, crypto_condition, multi_signature, random_walk_verification, all_of,
  any_of, no_mechanism, mechanism, time_proof, payment_proof, crypto_condition_proof,
  multi_signature_proof, random_walk_proof, compound_proof, no_proof, proof,
}

-- `reference_states.contains(..)`, `valid_public_keys.contains(..)`
abbrev pub contains : Bytes → List Bytes → Bool
contains x xs = any (list_beq x) xs

-- `result.as_bytes()[0] < 128`
abbrev is_low : Hash → Bool
is_low hash = ltb (get_or hash 0 0) 128

unfoldable pub mechanism_count : Mechanisms → ℕ
mechanism_count no_mechanism = 0
mechanism_count (mechanism c cs) = suc (mechanism_count cs)

unfoldable pub proof_count : Proofs → ℕ
proof_count no_proof = 0
proof_count (proof q qs) = suc (proof_count qs)

-- The outer loop of an OR condition: the first proof for which `verify` finds a condition.
unfoldable pub first_true : (FulfillmentProof → Result Bool) → Proofs → Result Bool
first_true verify no_proof = ok false
first_true verify (proof q qs) =
    let rest = first_true verify qs in verify q >>= λ valid. if valid then ok true else rest

unfoldable pub verify_time_condition : ℕ → State → Bool
verify_time_condition unlock_time reference_state = leb unlock_time reference_state.state_number

module _ (blake3 : List ℕ → Hash) where
  unfoldable pub verify_state_reference : Bytes → Bytes → State → Bool
  verify_state_reference state_hash state_proof reference_state =
      is_low (blake3 (state_hash ++ (state_proof ++ reference_state.hash)))

  unfoldable pub verify_payment_proof : ℕ → Text → Text → Bytes → Bytes → Bytes → Bool
  verify_payment_proof amount token_id recipient verification_state state_transition merkle_proof =
      is_low (
        blake3 (
          le_bytes 8 amount
          ++ (token_id
              ++ (recipient ++ (verification_state ++ (state_transition ++ merkle_proof))))))

  unfoldable pub verify_crypto_condition : Bytes → Bytes → Bytes → Bool
  verify_crypto_condition condition_hash public_params solution =
      list_beq (blake3 (solution ++ public_params)) condition_hash

  unfoldable pub verify_hash_chain : Bytes → State → Bool
  verify_hash_chain hash_chain_proof reference_state =
      is_low (blake3 (hash_chain_proof ++ reference_state.hash))

  unfoldable pub verify_time_release : ℕ → List Bytes → Bytes → Bytes → State → Bool
  unfolding verify_state_reference verify_time_condition
  verify_time_release unlock_time reference_states proof_state state_proof reference_state =
      if not (contains proof_state reference_states)
      then false
      else if not (verify_state_reference proof_state state_proof reference_state)
      then false
      else if not (verify_time_condition unlock_time reference_state)
      then false
      else true

  -- The comparison of the positions is the two loops of `verify_positions`, written out again.
  unfoldable pub verify_random_walk : Bytes → Text → List Position → Bytes → State → Result Bool
  unfolding verify_hash_chain
  verify_random_walk verification_key statement positions hash_chain_proof reference_state =
      generate_positions blake3 (blake3 (verification_key ++ statement)) none
      >>= λ expected_positions.
          if not (verify_positions positions expected_positions)
          then ok false
          else ok (verify_hash_chain hash_chain_proof reference_state)

module _ (c : Cryptography) where
  -- The loop over the signatures, with `valid_signatures` so far.
  unfoldable pub count_signatures :
      List Bytes → Bytes → List (record { 0 : Bytes; 1 : Bytes }) → ℕ → Result ℕ
  count_signatures public_keys signed_data [] valid_signatures = ok valid_signatures
  count_signatures public_keys signed_data ((pubkey, sig) ∷ rest) valid_signatures =
      let skipped = count_signatures public_keys signed_data rest valid_signatures in
      let counted = count_signatures public_keys signed_data rest (valid_signatures + 1) in
      if not (contains pubkey public_keys)
      then skipped
      else (c.sphincs_verify pubkey signed_data sig >>= λ valid. if valid then counted else skipped)

  unfoldable pub verify_signatures :
      List Bytes → ℕ → List (record { 0 : Bytes; 1 : Bytes }) → Bytes → Result Bool
  unfolding count_signatures
  verify_signatures public_keys threshold signatures signed_data =
      if ltb (length signatures) threshold
      then ok false
      else (count_signatures public_keys signed_data signatures 0 >>= λ valid_signatures.
          ok (leb threshold valid_signatures))

module _ (p : Primitives) (c : Cryptography) (reference_state : State) where
  unfoldable mutual
    pub verify_condition : FulfillmentMechanism → FulfillmentProof → Result Bool
    verify_condition (time_release unlock_time reference_states)
          (time_proof proof_state state_proof) =
        ok (
          verify_time_release p.blake3 unlock_time reference_states proof_state state_proof
            reference_state)
    verify_condition (payment amount token_id recipient verification_state)
          (payment_proof state_transition merkle_proof) =
        ok (
          verify_payment_proof p.blake3 amount token_id recipient verification_state
            state_transition merkle_proof)
    verify_condition (crypto_condition condition_hash public_params)
          (crypto_condition_proof solution unused) =
        ok (verify_crypto_condition p.blake3 condition_hash public_params solution)
    verify_condition (multi_signature public_keys threshold)
          (multi_signature_proof signatures signed_data) =
        verify_signatures c public_keys threshold signatures signed_data
    verify_condition (random_walk_verification verification_key statement)
          (random_walk_proof positions hash_chain_proof) =
        verify_random_walk p.blake3 verification_key statement positions hash_chain_proof
          reference_state
    verify_condition (all_of conditions) (compound_proof proofs) =
        if not (nat_beq (mechanism_count conditions) (proof_count proofs))
        then ok false
        else verify_all conditions proofs
    verify_condition (any_of conditions) (compound_proof proofs) =
        first_true (verify_any conditions) proofs
    verify_condition _ _ = ok false

    -- the loop of an AND condition, over conditions and proofs side by side
    pub verify_all : Mechanisms → Proofs → Result Bool
    verify_all (mechanism condition conditions) (proof q qs) =
        let rest = verify_all conditions qs in
        verify_condition condition q >>= λ valid. if not valid then ok false else rest
    verify_all _ _ = ok true

    -- the inner loop of an OR condition, over the conditions
    pub verify_any : Mechanisms → FulfillmentProof → Result Bool
    verify_any no_mechanism q = ok false
    verify_any (mechanism condition conditions) q =
        let rest = verify_any conditions q in
        verify_condition condition q >>= λ valid. if valid then ok true else rest

  unfoldable pub verify_fulfillment : FulfillmentProof → LimboVault → Result Bool
  unfolding verify_condition
  verify_fulfillment q v = verify_condition v.fulfillment_condition q
