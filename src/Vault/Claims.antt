-- ===== src/Vault/Claims.antt =====
-- What comes of claiming (`claim` and `get_recipient_secret_key` in dsm/src/vault/limbo_vault.rs).
use dsm_decentralized_state.Base.{
  ℕ, ◌≡◌, refl, ap, ◌∙◌, true, false, length, arith, Bool-cases, Option-cases, ◌⊎◌, inl, inr,
}
use dsm_decentralized_state.Base.Result.{Result, ok, err, Error, validation, crypto, Result-cases}
use dsm_decentralized_state.State.Operation.{Bytes}
use dsm_decentralized_state.State.Model.{State, Primitives, Sized}
use dsm_decentralized_state.Vault.{
  FulfillmentProof, VaultState, LimboVault, Cryptography, limbo, unlocked, claimed, invalidated,
}
use dsm_decentralized_state.Vault.Fulfill.{verify_fulfillment}
use dsm_decentralized_state.Vault.Operations.{
  ClaimResult, get_recipient_secret_key, open_content, claim_unlocked, claim_proof_of, claim_from,
  claim,
}
use dsm_decentralized_state.Vault.Lifecycle.{in_state}

secret_key-length :
    (p : Primitives) (c : Cryptography) (v : LimboVault)
    → Sized p
    → length (get_recipient_secret_key p c v) ≡ 32
unfolding get_recipient_secret_key
secret_key-length p c v sized = elim (Option-cases v.intended_recipient) [
  | inl nobody ↦ rw (get_recipient_secret_key, nobody) (sized _)
  | inr (recipient, someone) ↦ rw (get_recipient_secret_key, someone) (sized _)
]

-- That a vault in this state can be claimed: it is unlocked, and its proof still verifies.
abbrev pub CanClaim : Primitives → Cryptography → State → LimboVault → VaultState → Type 0
CanClaim p c r v s =
    (n : ℕ) × (q : FulfillmentProof) × (s ≡ unlocked n q) × (verify_fulfillment p c r q v ≡ ok true)

same_proof : (m n : ℕ) (q t : FulfillmentProof) → unlocked m q ≡ unlocked n t → q ≡ t
same_proof m n q t e = cc

module _ (p : Primitives) (c : Cryptography) (sized : Sized p)
    (lengths : (sk : Bytes) → c.is_secret_key sk ≡ true → length sk ≡ 1632) where
  open_content_lem :
      (claimant claim_proof : Bytes) (v : LimboVault)
      → open_content p c claimant claim_proof v ≡ err crypto
  unfolding open_content
  open_content_lem claimant claim_proof v =
      elim (Bool-cases (c.is_secret_key (get_recipient_secret_key p c v))) [
        | inr refused ↦ rw (open_content, refused) refl
        | inl taken ↦
            let long = lengths (get_recipient_secret_key p c v) taken in
            absurd (omega (arith, secret_key-length p c v sized))
      ]

  claim_unlocked-fails :
      (q : FulfillmentProof) (claimant : Bytes) (r : State) (v : LimboVault)
      → claim_unlocked p c q claimant r v ≡ (
        in_state (claimed r.state_number claimant (claim_proof_of p c q claimant r v)) v,
        err crypto,
      )
  unfolding claim_unlocked
  claim_unlocked-fails q claimant r v =
      let pf = claim_proof_of p c q claimant r v in
      let v' : LimboVault = in_state (claimed r.state_number claimant pf) v in
      ap (λ (o : Result ClaimResult). (v', o)) (open_content_lem claimant pf v')

  refused-CanClaim :
      (n : ℕ) (q : FulfillmentProof) (r : State) (v : LimboVault)
      → (verify_fulfillment p c r q v ≡ ok true → ⊥)
      → CanClaim p c r v (unlocked n q)
      → ⊥
  refused-CanClaim n q r v refused (m, t, same, accepted) = refused (
      ap (λ (u : FulfillmentProof). verify_fulfillment p c r u v) (same_proof n m q t same)
      ∙ accepted)

  claim_from-fails :
      (s : VaultState) (claimant : Bytes) (r : State) (v : LimboVault)
      → ((CanClaim p c r v s → ⊥)
          × ((claim_from p c s claimant r v).0 ≡ v)
          × (e : Error) × ((claim_from p c s claimant r v).1 ≡ err e))
        ⊎ ((claim_proof : Bytes) × CanClaim p c r v s
            × (claim_from p c s claimant r v
                ≡ (in_state (claimed r.state_number claimant claim_proof) v, err crypto)))
  unfolding claim_from
  claim_from-fails (unlocked n q) claimant r v =
      elim (Result-cases (verify_fulfillment p c r q v)) [
        | inr (e, failed) ↦ inl (
          refused-CanClaim n q r v (λ h. cc (h, failed)),
          simp (claim_from, failed),
          e,
          simp (claim_from, failed),
        )
        | inl (false, refused) ↦ inl (
          refused-CanClaim n q r v (λ h. cc (h, refused)),
          simp (claim_from, refused),
          validation,
          simp (claim_from, refused),
        )
        | inl (true, accepted) ↦ inr (
          claim_proof_of p c q claimant r v,
          (n, q, refl, accepted),
          simp (claim_from, accepted) (claim_unlocked-fails q claimant r v),
        )
      ]
  claim_from-fails limbo claimant r v = inl (λ (n, q, e, a). cc e, refl, validation, refl)
  claim_from-fails (claimed _ _ _) claimant r v = inl (λ (n, q, e, a). cc e, refl, validation, refl)
  claim_from-fails (invalidated _ _ _) claimant r v =
      inl (λ (n, q, e, a). cc e, refl, validation, refl)

  -- Where BLAKE3 gives 32 bytes and ML-KEM-512 takes secret keys of 1632 bytes alone, every call of
  -- `claim` returns an error, since the simulated secret key has the length of a hash. A vault that
  -- is not unlocked, or whose proof does not verify any more, it leaves as it is; any other it
  -- leaves claimed, so that its content is not to be had.
  pub claim-fails :
      (claimant : Bytes) (r : State) (v : LimboVault)
      → ((CanClaim p c r v v.state → ⊥)
          × ((claim p c claimant r v).0 ≡ v)
          × (e : Error) × ((claim p c claimant r v).1 ≡ err e))
        ⊎ ((claim_proof : Bytes) × CanClaim p c r v v.state
            × (claim p c claimant r v
                ≡ (in_state (claimed r.state_number claimant claim_proof) v, err crypto)))
  unfolding claim
  claim-fails claimant r v = claim_from-fails v.state claimant r v
