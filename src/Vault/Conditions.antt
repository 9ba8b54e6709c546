-- ===== src/Vault/Conditions.antt =====
-- What it means that a proof fulfills a condition, and that `verify_fulfillment`
-- (dsm/src/vault/limbo_vault.rs) decides it.
use dsm_decentralized_state.Base.{
  ℕ, ◌++◌, ◌≤◌, ◌≡◌, ◌↔◌, ◌⊎◌, inl, inr, refl, Bool, true, false, not, none, List, arith, leb, ltb,
  nat_beq, length, if◌then◌else◌, Bool-cases, list_beq_iff, nat_eq,
}
use dsm_decentralized_state.Base.Result.{Result, ok, err, ◌>>=◌, Result-cases}
use dsm_decentralized_state.State.Operation.{Bytes, Text}
use dsm_decentralized_state.State.Model.{State, Primitives}
use dsm_decentralized_state.Walk.{Position, generate_positions, verify_positions}
use dsm_decentralized_state.Walk.Laws.{verify_positions_iff}
use dsm_decentralized_state.Vault.{
  FulfillmentMechanism, Mechanisms, FulfillmentProof, Proofs, LimboVault, Cryptography,
  time_release, payment, crypto_condition, multi_signature, random_walk_verification, all_of,
  any_of, no_mechanism, mechanism, time_proof, payment_proof, crypto_condition_proof,
  multi_signature_proof, random_walk_proof, compound_proof, no_proof, proof,
}
use dsm_decentralized_state.Vault.Fulfill.{
  contains, mechanism_count, proof_count, first_true, verify_time_condition, verify_state_reference,
  verify_payment_proof, verify_crypto_condition, verify_hash_chain, verify_time_release,
  verify_random_walk, count_signatures, verify_signatures, verify_condition, verify_all, verify_any,
  verify_fulfillment,
}

-- One of the proofs.
abbrev pub SomeProof : (FulfillmentProof → Type 0) → Proofs → Type 0
SomeProof holds no_proof = ⊥
SomeProof holds (proof q qs) = holds q ⊎ SomeProof holds qs

module _ (p : Primitives) (c : Cryptography) (reference_state : State) where
  -- As many valid signatures of the listed keys as the threshold asks for, repetitions counted.
  abbrev Signed : List Bytes → ℕ → List (record { 0 : Bytes; 1 : Bytes }) → Bytes → Type 0
  Signed public_keys threshold signatures signed_data =
      (threshold ≤ length signatures)
      × (valid : ℕ) × (count_signatures c public_keys signed_data signatures 0 ≡ ok valid)
      × (threshold ≤ valid)

  -- That a proof fulfills a condition: a compound proof has for each condition of an AND one proof
  -- that fulfills it, in order, and for an OR one proof that fulfills one condition.
  unfoldable mutual
    pub Fulfilled : FulfillmentMechanism → FulfillmentProof → Type 0
    Fulfilled (time_release unlock_time reference_states) (time_proof proof_state state_proof) =
        (contains proof_state reference_states ≡ true)
        × (verify_state_reference p.blake3 proof_state state_proof reference_state ≡ true)
        × (unlock_time ≤ reference_state.state_number)
    Fulfilled (payment amount token_id recipient verification_state)
          (payment_proof state_transition merkle_proof) =
        verify_payment_proof p.blake3 amount token_id recipient verification_state state_transition
          merkle_proof
        ≡ true
    Fulfilled (crypto_condition condition_hash public_params)
          (crypto_condition_proof solution unused) =
        p.blake3 (solution ++ public_params) ≡ condition_hash
    Fulfilled (multi_signature public_keys threshold)
          (multi_signature_proof signatures signed_data) =
        Signed public_keys threshold signatures signed_data
    Fulfilled (random_walk_verification verification_key statement)
          (random_walk_proof positions hash_chain_proof) =
        (generate_positions p.blake3 (p.blake3 (verification_key ++ statement)) none ≡ ok positions)
        × (verify_hash_chain p.blake3 hash_chain_proof reference_state ≡ true)
    Fulfilled (all_of conditions) (compound_proof proofs) = EachFulfilled conditions proofs
    Fulfilled (any_of conditions) (compound_proof proofs) =
        SomeProof (OneFulfilled conditions) proofs
    Fulfilled _ _ = ⊥

    pub EachFulfilled : Mechanisms → Proofs → Type 0
    EachFulfilled no_mechanism no_proof = Unit
    EachFulfilled (mechanism condition conditions) (proof q qs) =
        Fulfilled condition q × EachFulfilled conditions qs
    EachFulfilled _ _ = ⊥

    pub OneFulfilled : Mechanisms → FulfillmentProof → Type 0
    OneFulfilled no_mechanism q = ⊥
    OneFulfilled (mechanism condition conditions) q =
        Fulfilled condition q ⊎ OneFulfilled conditions q

  pub time_release_iff :
      (unlock_time : ℕ) (states : List Bytes) (proof_state state_proof : Bytes)
      → (verify_time_release p.blake3 unlock_time states proof_state state_proof reference_state
          ≡ true)
        ↔ ((contains proof_state states ≡ true)
            × (verify_state_reference p.blake3 proof_state state_proof reference_state ≡ true)
            × (unlock_time ≤ reference_state.state_number))
  unfolding verify_time_release verify_time_condition
  time_release_iff unlock_time states proof_state state_proof = ground arith

  compared_iff :
      (r : Result (List Position)) (positions : List Position) (b : Bool)
      → ((r >>= λ expected. if not (verify_positions positions expected) then ok false else ok b)
          ≡ ok true)
        ↔ ((r ≡ ok positions) × (b ≡ true))
  compared_iff (err e) positions b = ground arith
  compared_iff (ok expected) positions b = ground (arith, verify_positions_iff positions expected)

  pub random_walk_iff :
      (key : Bytes) (statement : Text) (positions : List Position) (chain_proof : Bytes)
      → (verify_random_walk p.blake3 key statement positions chain_proof reference_state ≡ ok true)
        ↔ ((generate_positions p.blake3 (p.blake3 (key ++ statement)) none ≡ ok positions)
            × (verify_hash_chain p.blake3 chain_proof reference_state ≡ true))
  unfolding verify_random_walk
  random_walk_iff key statement positions chain_proof =
      compared_iff (generate_positions p.blake3 (p.blake3 (key ++ statement)) none) positions
        (verify_hash_chain p.blake3 chain_proof reference_state)

  signatures_sound :
      (public_keys : List Bytes) (threshold : ℕ)
      (signatures : List (record { 0 : Bytes; 1 : Bytes })) (signed_data : Bytes)
      → verify_signatures c public_keys threshold signatures signed_data ≡ ok true
      → Signed public_keys threshold signatures signed_data
  unfolding verify_signatures
  signatures_sound public_keys threshold signatures signed_data h =
      elim (Bool-cases (ltb (length signatures) threshold)) [
        | inl few ↦ cc (h, few)
        | inr enough ↦
            elim (Result-cases (count_signatures c public_keys signed_data signatures 0)) [
              | inr (e, failed) ↦ cc (h, enough, failed)
              | inl (valid, counted) ↦
                  let reached : ok (leb threshold valid) ≡ ok true = cc (h, enough, counted) in
                  (ground arith, valid, counted, ground arith)
            ]
      ]

  pub signatures_complete :
      (public_keys : List Bytes) (threshold : ℕ)
      (signatures : List (record { 0 : Bytes; 1 : Bytes })) (signed_data : Bytes)
      → Signed public_keys threshold signatures signed_data
      → verify_signatures c public_keys threshold signatures signed_data ≡ ok true
  unfolding verify_signatures
  signatures_complete public_keys threshold signatures signed_data (enough, valid, counted, le) =
      let long : ltb (length signatures) threshold ≡ false = ground arith in
      let reached : leb threshold valid ≡ true = ground arith in rw (long, counted, reached) refl

  pub crypto_condition_iff :
      (condition_hash params solution : Bytes)
      → (verify_crypto_condition p.blake3 condition_hash params solution ≡ true)
        ↔ (p.blake3 (solution ++ params) ≡ condition_hash)
  unfolding verify_crypto_condition
  crypto_condition_iff condition_hash params solution =
      list_beq_iff (p.blake3 (solution ++ params)) condition_hash

  -- `r?` is true of a test that returned `r`, and then `next`.
  and_then :
      (r next : Result Bool)
      → (r >>= λ valid. if not valid then ok false else next) ≡ ok true
      → (r ≡ ok true) × (next ≡ ok true)
  and_then (err e) next h = cc
  and_then (ok true) next h = (refl, h)
  and_then (ok false) next h = cc

  or_else :
      (r next : Result Bool)
      → (r >>= λ valid. if valid then ok true else next) ≡ ok true
      → (r ≡ ok true) ⊎ (next ≡ ok true)
  or_else (err e) next h = cc
  or_else (ok true) next h = inl refl
  or_else (ok false) next h = inr h

  first_true-SomeProof :
      (verify : FulfillmentProof → Result Bool) (holds : FulfillmentProof → Type 0) (qs : Proofs)
      → ((q : FulfillmentProof) → verify q ≡ ok true → holds q)
      → first_true verify qs ≡ ok true
      → SomeProof holds qs
  unfolding first_true
  first_true-SomeProof verify holds no_proof sound h = cc
  first_true-SomeProof verify holds (proof q qs) sound h =
      elim (or_else (verify q) (first_true verify qs) h) [
        | inl here ↦ inl (sound q here)
        | inr later ↦ inr (first_true-SomeProof verify holds qs sound later)
      ]

  mutual
    unfolding verify_condition Fulfilled mechanism_count proof_count

    pub condition_sound :
        (condition : FulfillmentMechanism) (q : FulfillmentProof)
        → verify_condition p c reference_state condition q ≡ ok true
        → Fulfilled condition q
    condition_sound (time_release t rs) (time_proof s sp) h = (time_release_iff t rs s sp).0 (cc h)
    condition_sound (payment a t r v) (payment_proof s m) h = cc h
    condition_sound (crypto_condition ch params) (crypto_condition_proof solution unused) h =
        (crypto_condition_iff ch params solution).0 (cc h)
    condition_sound (multi_signature keys threshold) (multi_signature_proof sigs d) h =
        signatures_sound keys threshold sigs d h
    condition_sound (random_walk_verification key st) (random_walk_proof ps hc) h =
        (random_walk_iff key st ps hc).0 h
    condition_sound (all_of cs) (compound_proof qs) h =
        elim (Bool-cases (nat_beq (mechanism_count cs) (proof_count qs))) [
          | inr unequal ↦ cc (h, unequal)
          | inl equal ↦ each_sound cs qs (ground arith) (cc (h, equal))
        ]
    condition_sound (any_of cs) (compound_proof qs) h =
        first_true-SomeProof (verify_any p c reference_state cs) (OneFulfilled cs) qs (one_sound cs)
          h
    condition_sound _ _ h = cc h

    each_sound :
        (cs : Mechanisms) (qs : Proofs)
        → mechanism_count cs ≡ proof_count qs
        → verify_all p c reference_state cs qs ≡ ok true
        → EachFulfilled cs qs
    each_sound no_mechanism no_proof l h = tt
    each_sound no_mechanism (proof q qs) l h = absurd (omega arith)
    each_sound (mechanism x cs) no_proof l h = absurd (omega arith)
    each_sound (mechanism x cs) (proof q qs) l h =
        let (here, later) =
          and_then (verify_condition p c reference_state x q) (verify_all p c reference_state cs qs)
            h in
        (condition_sound x q here, each_sound cs qs (omega arith) later)

    one_sound :
        (cs : Mechanisms) (q : FulfillmentProof)
        → verify_any p c reference_state cs q ≡ ok true
        → OneFulfilled cs q
    one_sound no_mechanism q h = cc h
    one_sound (mechanism x cs) q h =
        elim (or_else (verify_condition p c reference_state x q)
          (verify_any p c reference_state cs q) h) [
            | inl here ↦ inl (condition_sound x q here)
            | inr later ↦ inr (one_sound cs q later)
          ]

  -- With any signature check: a proof that `verify_fulfillment` accepts fulfills the condition of
  -- the vault.
  pub verify_fulfillment-Fulfilled :
      (q : FulfillmentProof) (v : LimboVault)
      → verify_fulfillment p c reference_state q v ≡ ok true
      → Fulfilled v.fulfillment_condition q
  unfolding verify_fulfillment
  verify_fulfillment-Fulfilled q v h = condition_sound v.fulfillment_condition q h
