-- ===== src/Vault/Lifecycle.antt =====
-- The states of a vault under its operations (`unlock`, `claim` and `invalidate` in
-- dsm/src/vault/limbo_vault.rs), each step with any arguments.
use dsm_decentralized_state.Base.{ℕ, ◌≡◌, refl, true, false, Bool-cases, ◌⊎◌, inl, inr, nat_eq}
use dsm_decentralized_state.Base.Result.{ok, err, Result-cases, Error, validation}
use dsm_decentralized_state.State.Operation.{Bytes, Text}
use dsm_decentralized_state.State.Model.{State, Primitives}
use dsm_decentralized_state.Vault.{
  FulfillmentProof, VaultState, LimboVault, Cryptography, limbo, unlocked, claimed, invalidated,
}
use dsm_decentralized_state.Vault.Fulfill.{verify_fulfillment}
use dsm_decentralized_state.Vault.Operations.{
  is_limbo, is_authorized, as_crypto, unlock, claim_unlocked, claim_from, claim, invalidation_data,
  invalidated_by, invalidate,
}
use dsm_decentralized_state.Vault.Conditions.{Fulfilled, verify_fulfillment-Fulfilled}

-- A vault in another state.
abbrev pub in_state : VaultState → LimboVault → LimboVault
in_state s v = record v { state = s }

is_limbo_limbo : (s : VaultState) → is_limbo s ≡ true → s ≡ limbo
is_limbo_limbo limbo h = refl
is_limbo_limbo (unlocked n q) h = cc
is_limbo_limbo (claimed n who pf) h = cc
is_limbo_limbo (invalidated n r sig) h = cc

module _ (p : Primitives) (c : Cryptography) where
  -- `unlock` changes a vault only from limbo, for an authorized requester and a proof that
  -- fulfills the condition, to the state that holds the proof and the number of the reference
  -- state; then it returns true, and in every other case it leaves the vault as it is and does not
  -- return true.
  pub unlock_lem :
      (q : FulfillmentProof) (requester : Bytes) (reference_state : State) (v : LimboVault)
      → (((unlock p c q requester reference_state v).0 ≡ v)
          × ((unlock p c q requester reference_state v).1 ≡ ok true → ⊥))
        ⊎ ((v.state ≡ limbo)
            × (is_authorized v.intended_recipient requester ≡ true)
            × Fulfilled p c reference_state v.fulfillment_condition q
            × (unlock p c q requester reference_state v
                ≡ (in_state (unlocked reference_state.state_number q) v, ok true)))
  unfolding unlock
  unlock_lem q requester reference_state v = elim (Bool-cases (is_limbo v.state)) [
    | inr elsewhere ↦ inl (simp (unlock, elsewhere), simp (unlock, elsewhere) (λ h. cc h))
    | inl free ↦ elim (Bool-cases (is_authorized v.intended_recipient requester)) [
      | inr stranger ↦
          inl (simp (unlock, free, stranger), simp (unlock, free, stranger) (λ h. cc h))
      | inl known ↦ elim (Result-cases (verify_fulfillment p c reference_state q v)) [
        | inr (e, failed) ↦
            inl (simp (unlock, free, known, failed), simp (unlock, free, known, failed) (λ h. cc h))
        | inl (false, refused) ↦
            inl
              (simp (unlock, free, known, refused), simp (unlock, free, known, refused) (λ h. cc h))
        | inl (true, accepted) ↦ inr (
          is_limbo_limbo v.state free,
          known,
          verify_fulfillment-Fulfilled p c reference_state q v accepted,
          simp (unlock, free, known, accepted),
        )
      ]
    ]
  ]

  claim_from_lem :
      (s : VaultState) (claimant : Bytes) (reference_state : State) (v : LimboVault)
      → (((claim_from p c s claimant reference_state v).0 ≡ v)
          × (e : Error) × ((claim_from p c s claimant reference_state v).1 ≡ err e))
        ⊎ ((n : ℕ) × (q : FulfillmentProof) × (s ≡ unlocked n q)
            × Fulfilled p c reference_state v.fulfillment_condition q
            × (claim_from p c s claimant reference_state v
                ≡ claim_unlocked p c q claimant reference_state v))
  unfolding claim_from
  claim_from_lem (unlocked n q) claimant reference_state v =
      elim (Result-cases (verify_fulfillment p c reference_state q v)) [
        | inr (e, failed) ↦ inl (simp (claim_from, failed), e, simp (claim_from, failed))
        | inl (false, refused) ↦
            inl (simp (claim_from, refused), validation, simp (claim_from, refused))
        | inl (true, accepted) ↦ inr (
          n,
          q,
          refl,
          verify_fulfillment-Fulfilled p c reference_state q v accepted,
          simp (claim_from, accepted),
        )
      ]
  claim_from_lem _ claimant reference_state v = inl (refl, validation, refl)

  -- `claim` leaves a vault as it is and returns an error, or the vault was unlocked, its proof
  -- fulfills the condition also for the reference state of the claim, and then the vault becomes
  -- claimed by the claimant whatever comes of opening its content.
  pub claim_lem :
      (claimant : Bytes) (reference_state : State) (v : LimboVault)
      → (((claim p c claimant reference_state v).0 ≡ v)
          × (e : Error) × ((claim p c claimant reference_state v).1 ≡ err e))
        ⊎ ((n : ℕ) × (q : FulfillmentProof) × (v.state ≡ unlocked n q)
            × Fulfilled p c reference_state v.fulfillment_condition q
            × (claim p c claimant reference_state v
                ≡ claim_unlocked p c q claimant reference_state v))
  unfolding claim
  claim_lem claimant reference_state v = claim_from_lem v.state claimant reference_state v

  -- `invalidate` leaves a vault as it is and returns an error, or makes it invalidated, in whatever
  -- state it was, with a signature that verifies under the key of the creator.
  pub invalidate_lem :
      (reason : Text) (creator_private_key : Bytes) (reference_state : State) (v : LimboVault)
      → (((invalidate c reason creator_private_key reference_state v).0 ≡ v)
          × (e : Error) × ((invalidate c reason creator_private_key reference_state v).1 ≡ err e))
        ⊎ ((signature : Bytes) × (c.sphincs_verify v.creator_public_key
                (invalidation_data c reason reference_state v)
                signature
              ≡ ok true)
            × (invalidate c reason creator_private_key reference_state v
                ≡ (in_state (invalidated reference_state.state_number reason signature) v, ok tt)))
  unfolding invalidate invalidated_by
  invalidate_lem reason creator_private_key reference_state v =
      let data_bytes = invalidation_data c reason reference_state v in
      elim (Result-cases (as_crypto (c.sphincs_sign creator_private_key data_bytes))) [
        | inr (e, failed) ↦ inl (simp (invalidate, failed), e, simp (invalidate, failed))
        | inl (signature, signed) ↦
            elim (Result-cases (c.sphincs_verify v.creator_public_key data_bytes signature)) [
              | inr (e, failed) ↦
                  inl (simp (invalidate, signed, failed), e, simp (invalidate, signed, failed))
              | inl (false, refused) ↦ inl (
                simp (invalidate, signed, refused),
                validation,
                simp (invalidate, signed, refused),
              )
              | inl (true, accepted) ↦
                  inr (signature, accepted, simp (invalidate, signed, accepted))
            ]
      ]
