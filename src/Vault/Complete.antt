-- ===== src/Vault/Complete.antt =====
-- Where the signature check returns no error, `verify_fulfillment` (dsm/src/vault/limbo_vault.rs)
-- decides whether a proof fulfills the condition.
use dsm_decentralized_state.Base.{
  ℕ, suc, ◌++◌, ◌≡◌, ◌↔◌, inl, inr, refl, ap, Bool, true, false, not, List, [], ◌∷◌, ◌+◌, leb, ltb,
  nat_beq, nat_beq_iff, length, if◌then◌else◌, Bool-cases, nat_eq,
}
use dsm_decentralized_state.Base.Result.{Result, ok, ◌>>=◌}
use dsm_decentralized_state.State.Operation.{Bytes, Text}
use dsm_decentralized_state.State.Model.{State, Primitives}
use dsm_decentralized_state.Walk.{Position, walk, generate_positions, verify_positions}
use dsm_decentralized_state.Vault.{
  FulfillmentMechanism, Mechanisms, FulfillmentProof, Proofs, LimboVault, Cryptography,
  time_release, payment, crypto_condition, multi_signature, random_walk_verification, all_of,
  any_of, no_mechanism, mechanism, time_proof, payment_proof, crypto_condition_proof,
  multi_signature_proof, random_walk_proof, compound_proof, no_proof, proof,
}
use dsm_decentralized_state.Vault.Fulfill.{
  contains, mechanism_count, proof_count, first_true, verify_hash_chain, verify_random_walk,
  count_signatures, verify_signatures, verify_condition, verify_all, verify_any, verify_fulfillment,
}
use dsm_decentralized_state.Vault.Conditions.{
  SomeProof, Fulfilled, EachFulfilled, OneFulfilled, time_release_iff, signatures_complete,
  crypto_condition_iff, random_walk_iff, condition_sound,
}

module _ (p : Primitives) (c : Cryptography) (reference_state : State) where
  -- No error where the signature check returns none.
  abbrev IsTotal : Result Bool → Type 0
  IsTotal r = (b : Bool) × (r ≡ ok b)

  module _
      (checked : (key data_bytes sig : Bytes) → IsTotal (c.sphincs_verify key data_bytes sig)) where
    count_total :
        (keys : List Bytes) (d : Bytes) (sigs : List (record { 0 : Bytes; 1 : Bytes })) (n : ℕ)
        → (m : ℕ) × (count_signatures c keys d sigs n ≡ ok m)
    unfolding count_signatures
    count_total keys d [] n = (n, refl)
    count_total keys d ((key, sig) ∷ sigs) n = elim (Bool-cases (contains key keys)) [
      | inr unknown ↦ rw unknown (count_total keys d sigs n)
      | inl known ↦
          let (b, e) = checked key d sig in
          elim (Bool-cases b) [
            | inl valid ↦ rw (known, e, valid) (count_total keys d sigs (n + 1))
            | inr invalid ↦ rw (known, e, invalid) (count_total keys d sigs n)
          ]
    ]

    signatures-IsTotal :
        (keys : List Bytes) (threshold : ℕ) (sigs : List (record { 0 : Bytes; 1 : Bytes }))
        (d : Bytes)
        → IsTotal (verify_signatures c keys threshold sigs d)
    unfolding verify_signatures
    signatures-IsTotal keys threshold sigs d = elim (Bool-cases (ltb (length sigs) threshold)) [
      | inl few ↦ (false, rw few refl)
      | inr enough ↦
          let (n, counted) = count_total keys d sigs 0 in
          (leb threshold n, rw (enough, counted) refl)
    ]

    walk-IsTotal :
        (key : Bytes) (st : Text) (ps : List Position) (hc : Bytes)
        → IsTotal (verify_random_walk p.blake3 key st ps hc reference_state)
    unfolding verify_random_walk generate_positions
    walk-IsTotal key st ps hc =
        let expected = walk p.blake3 64 3 1000000 (p.blake3 (key ++ st)) in
        elim (Bool-cases (verify_positions ps expected)) [
          | inl same ↦ (verify_hash_chain p.blake3 hc reference_state, rw same refl)
          | inr other ↦ (false, rw other refl)
        ]

    and_IsTotal :
        (r next : Result Bool)
        → IsTotal r
        → IsTotal next
        → IsTotal (r >>= λ valid. if not valid then ok false else next)
    and_IsTotal r next (true, e) t = rw e t
    and_IsTotal r next (false, e) t = (false, rw e refl)

    or_IsTotal :
        (r next : Result Bool)
        → IsTotal r
        → IsTotal next
        → IsTotal (r >>= λ valid. if valid then ok true else next)
    or_IsTotal r next (true, e) t = (true, rw e refl)
    or_IsTotal r next (false, e) t = rw e t

    first_true-IsTotal :
        (verify : FulfillmentProof → Result Bool) (qs : Proofs)
        → ((q : FulfillmentProof) → IsTotal (verify q))
        → IsTotal (first_true verify qs)
    unfolding first_true
    first_true-IsTotal verify no_proof t = (false, refl)
    first_true-IsTotal verify (proof q qs) t =
        or_IsTotal (verify q) (first_true verify qs) (t q) (first_true-IsTotal verify qs t)

    mutual
      unfolding verify_condition mechanism_count proof_count

      condition-IsTotal :
          (condition : FulfillmentMechanism) (q : FulfillmentProof)
          → IsTotal (verify_condition p c reference_state condition q)
      condition-IsTotal (time_release t rs) (time_proof s sp) = (_, refl)
      condition-IsTotal (payment a t r v) (payment_proof s m) = (_, refl)
      condition-IsTotal (crypto_condition ch params) (crypto_condition_proof solution unused) =
          (_, refl)
      condition-IsTotal (multi_signature keys threshold) (multi_signature_proof sigs d) =
          signatures-IsTotal keys threshold sigs d
      condition-IsTotal (random_walk_verification key st) (random_walk_proof ps hc) =
          walk-IsTotal key st ps hc
      condition-IsTotal (all_of cs) (compound_proof qs) =
          elim (Bool-cases (nat_beq (mechanism_count cs) (proof_count qs))) [
            | inr unequal ↦ (false, rw unequal refl)
            | inl equal ↦ rw equal (each-IsTotal cs qs)
          ]
      condition-IsTotal (any_of cs) (compound_proof qs) =
          first_true-IsTotal (verify_any p c reference_state cs) qs (one-IsTotal cs)
      condition-IsTotal _ _ = (false, refl)

      each-IsTotal :
          (cs : Mechanisms) (qs : Proofs) → IsTotal (verify_all p c reference_state cs qs)
      each-IsTotal (mechanism x cs) (proof q qs) =
          and_IsTotal (verify_condition p c reference_state x q)
            (verify_all p c reference_state cs qs) (condition-IsTotal x q) (each-IsTotal cs qs)
      each-IsTotal _ _ = (true, refl)

      one-IsTotal :
          (cs : Mechanisms) (q : FulfillmentProof) → IsTotal (verify_any p c reference_state cs q)
      one-IsTotal no_mechanism q = (false, refl)
      one-IsTotal (mechanism x cs) q =
          or_IsTotal (verify_condition p c reference_state x q)
            (verify_any p c reference_state cs q) (condition-IsTotal x q) (one-IsTotal cs q)

    or_here :
        (r next : Result Bool)
        → r ≡ ok true
        → (r >>= λ valid. if valid then ok true else next) ≡ ok true
    or_here r next e = rw e refl

    or_later :
        (r next : Result Bool)
        → IsTotal r
        → next ≡ ok true
        → (r >>= λ valid. if valid then ok true else next) ≡ ok true
    or_later r next (true, e) h = rw e refl
    or_later r next (false, e) h = rw e h

    first_true_complete :
        (verify : FulfillmentProof → Result Bool) (holds : FulfillmentProof → Type 0) (qs : Proofs)
        → ((q : FulfillmentProof) → IsTotal (verify q))
        → ((q : FulfillmentProof) → holds q → verify q ≡ ok true)
        → SomeProof holds qs
        → first_true verify qs ≡ ok true
    unfolding first_true
    first_true_complete verify holds no_proof t complete h = absurd h
    first_true_complete verify holds (proof q qs) t complete (inl here) =
        or_here (verify q) (first_true verify qs) (complete q here)
    first_true_complete verify holds (proof q qs) t complete (inr later) =
        or_later (verify q) (first_true verify qs) (t q)
          (first_true_complete verify holds qs t complete later)

    each_counts :
        (cs : Mechanisms) (qs : Proofs)
        → EachFulfilled p c reference_state cs qs
        → mechanism_count cs ≡ proof_count qs
    unfolding Fulfilled mechanism_count proof_count
    each_counts no_mechanism no_proof h = refl
    each_counts no_mechanism (proof q qs) h = absurd h
    each_counts (mechanism x cs) no_proof h = absurd h
    each_counts (mechanism x cs) (proof q qs) h = ap suc (each_counts cs qs h.1)

    mutual
      unfolding verify_condition Fulfilled

      condition_complete :
          (condition : FulfillmentMechanism) (q : FulfillmentProof)
          → Fulfilled p c reference_state condition q
          → verify_condition p c reference_state condition q ≡ ok true
      condition_complete (time_release t rs) (time_proof s sp) h =
          ap ok ((time_release_iff p c reference_state t rs s sp).1 h)
      condition_complete (payment a t r v) (payment_proof s m) h = ap ok h
      condition_complete (crypto_condition ch params) (crypto_condition_proof solution unused) h =
          ap ok ((crypto_condition_iff p c reference_state ch params solution).1 h)
      condition_complete (multi_signature keys threshold) (multi_signature_proof sigs d) h =
          signatures_complete p c reference_state keys threshold sigs d h
      condition_complete (random_walk_verification key st) (random_walk_proof ps hc) h =
          (random_walk_iff p c reference_state key st ps hc).1 h
      condition_complete (all_of cs) (compound_proof qs) h =
          let equal : nat_beq (mechanism_count cs) (proof_count qs) ≡ true =
            (nat_beq_iff (mechanism_count cs) (proof_count qs)).1 (each_counts cs qs h) in
          rw equal (each_complete cs qs h)
      condition_complete (any_of cs) (compound_proof qs) h =
          first_true_complete (verify_any p c reference_state cs)
            (OneFulfilled p c reference_state cs) qs (one-IsTotal cs) (one_complete cs) h
      condition_complete _ _ h = absurd h

      each_complete :
          (cs : Mechanisms) (qs : Proofs)
          → EachFulfilled p c reference_state cs qs
          → verify_all p c reference_state cs qs ≡ ok true
      each_complete no_mechanism no_proof h = refl
      each_complete no_mechanism (proof q qs) h = absurd h
      each_complete (mechanism x cs) no_proof h = absurd h
      each_complete (mechanism x cs) (proof q qs) h =
          rw (condition_complete x q h.0) (each_complete cs qs h.1)

      one_complete :
          (cs : Mechanisms) (q : FulfillmentProof)
          → OneFulfilled p c reference_state cs q
          → verify_any p c reference_state cs q ≡ ok true
      one_complete no_mechanism q h = absurd h
      one_complete (mechanism x cs) q (inl here) =
          or_here (verify_condition p c reference_state x q) (verify_any p c reference_state cs q)
            (condition_complete x q here)
      one_complete (mechanism x cs) q (inr later) =
          or_later (verify_condition p c reference_state x q) (verify_any p c reference_state cs q)
            (condition-IsTotal x q) (one_complete cs q later)

    -- Where the signature check returns no error, `verify_fulfillment` returns none either, and it
    -- is true exactly of the proofs that fulfill the condition of the vault, compound conditions of
    -- every depth included.
    pub verify_fulfillment_iff :
        (q : FulfillmentProof) (v : LimboVault)
        → ((b : Bool) × (verify_fulfillment p c reference_state q v ≡ ok b))
          × ((verify_fulfillment p c reference_state q v ≡ ok true)
              ↔ Fulfilled p c reference_state v.fulfillment_condition q)
    unfolding verify_fulfillment
    verify_fulfillment_iff q v = (
      condition-IsTotal v.fulfillment_condition q,
      (
        condition_sound p c reference_state v.fulfillment_condition q,
        condition_complete v.fulfillment_condition q,
      ),
    )
