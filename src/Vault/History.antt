-- ===== src/Vault/History.antt =====
-- What a vault goes through, as a relation of steps (`unlock`, `claim` and `invalidate` in
-- dsm/src/vault/limbo_vault.rs), and what its state says of the past.
use dsm_decentralized_state.Base.{ℕ, ◌≤◌, ◌≡◌, refl, sym, ap, ◌∙◌, true, arith, ◌⊎◌, inl, inr}
use mathlib.Core.Path.{subst}
use dsm_decentralized_state.Base.Result.{ok}
use dsm_decentralized_state.State.Operation.{Bytes, Text}
use dsm_decentralized_state.State.Model.{State, Primitives}
use dsm_decentralized_state.Vault.{
  FulfillmentProof, VaultState, LimboVault, Cryptography, limbo, unlocked, claimed, invalidated,
}
use dsm_decentralized_state.Vault.Operations.{
  unlock, claim_unlocked, claim_proof_of, claim, invalidation_data, invalidate,
}
use dsm_decentralized_state.Vault.Conditions.{Fulfilled}
use dsm_decentralized_state.Vault.Lifecycle.{in_state, unlock_lem, claim_lem, invalidate_lem}

-- The order in which a vault can pass through its states.
abbrev pub rank : VaultState → ℕ
rank limbo = 0
rank (unlocked _ _) = 1
rank (claimed _ _ _) = 2
rank (invalidated _ _ _) = 3

module _ (p : Primitives) (c : Cryptography) where
  -- A call of an operation, with any arguments and whatever result.
  pub data Step : LimboVault → LimboVault → Type 0 where
    unlocking :
        (q : FulfillmentProof) (requester : Bytes) (reference_state : State) (v : LimboVault)
        → Step v (unlock p c q requester reference_state v).0
    claiming :
        (claimant : Bytes) (reference_state : State) (v : LimboVault)
        → Step v (claim p c claimant reference_state v).0
    invalidating :
        (reason : Text) (creator_private_key : Bytes) (reference_state : State) (v : LimboVault)
        → Step v (invalidate c reason creator_private_key reference_state v).0

  pub data Reaches : LimboVault → LimboVault → Type 0 where
    here : {v : LimboVault} → Reaches v v
    then_step : {u v w : LimboVault} → Reaches u v → Step v w → Reaches u w

  -- What a state stands on, for the vault `v`: that it is unlocked, on a proof that fulfills its
  -- condition for a reference state with the number kept; that it is claimed, on such a proof for
  -- the reference state of the claim; that it is invalidated, on a signature of the creator.
  abbrev pub Justified : LimboVault → VaultState → Type 0
  Justified v limbo = Unit
  Justified v (unlocked n q) =
      (r : State) × (r.state_number ≡ n) × Fulfilled p c r v.fulfillment_condition q
  Justified v (claimed n claimant claim_proof) =
      (r : State) × (q : FulfillmentProof) × (r.state_number ≡ n)
      × Fulfilled p c r v.fulfillment_condition q
      × (claim_proof ≡ claim_proof_of p c q claimant r v)
  Justified v (invalidated n reason signature) =
      (r : State) × (r.state_number ≡ n)
      × (c.sphincs_verify v.creator_public_key (invalidation_data c reason r v) signature ≡ ok true)

  -- What a step from `v` to `w` does: it changes the state alone, not to one of a lower rank, and
  -- either it keeps the state, or the new state is justified.
  record Moves (v w : LimboVault) : Type 0 where
    apart : w ≡ in_state w.state v
    up : rank v.state ≤ rank w.state
    reason : (w.state ≡ v.state) ⊎ Justified v w.state

  stay : (v w : LimboVault) → w ≡ v → Moves v w
  stay v w e =
      subst (λ (u : LimboVault). Moves v u) (sym e)
        record { apart = refl; up = omega arith; reason = inl refl }

  move :
      (v w : LimboVault) (s : VaultState)
      → w ≡ in_state s v
      → rank v.state ≤ rank s
      → Justified v s
      → Moves v w
  move v w s e le j =
      subst (λ (u : LimboVault). Moves v u) (sym e) record { apart = refl; up = le; reason = inr j }

  rank-le : (s : VaultState) → rank s ≤ 3
  rank-le limbo = omega arith
  rank-le (unlocked _ _) = omega arith
  rank-le (claimed _ _ _) = omega arith
  rank-le (invalidated _ _ _) = omega arith

  Step-Moves : {v w : LimboVault} → Step v w → Moves v w
  unfolding claim_unlocked
  Step-Moves (unlocking q requester r v) = elim (unlock_lem p c q requester r v) [
    | inl (same, _) ↦ stay v _ same
    | inr (free, _, fulfilled, run) ↦
        let lowest : rank v.state ≡ 0 = ap rank free in
        move v _ (unlocked r.state_number q) (ap (λ o. o.0) run) (omega (arith, lowest))
          (r, refl, fulfilled)
  ]
  Step-Moves (claiming claimant r v) = elim (claim_lem p c claimant r v) [
    | inl (same, _, _) ↦ stay v _ same
    | inr (n, q, was, fulfilled, run) ↦
        let below : rank v.state ≡ 1 = ap rank was in
        move v _ (claimed r.state_number claimant (claim_proof_of p c q claimant r v))
          (ap (λ o. o.0) run) (omega (arith, below)) (r, q, refl, fulfilled, refl)
  ]
  Step-Moves (invalidating reason key r v) = elim (invalidate_lem p c reason key r v) [
    | inl (same, _, _) ↦ stay v _ same
    | inr (signature, verified, run) ↦
        move v _ (invalidated r.state_number reason signature) (ap (λ o. o.0) run) (rank-le v.state)
          (r, refl, verified)
  ]

  -- Along any steps the rank of the state does not fall: a vault that was unlocked is not in limbo
  -- again, one that was claimed is not unlocked again, and one that is invalidated stays so.
  pub Reaches-rank : {v w : LimboVault} → Reaches v w → rank v.state ≤ rank w.state
  Reaches-rank here = omega arith
  Reaches-rank (then_step past step) = omega (arith, Reaches-rank past, (Step-Moves step).up)

  -- What a state stands on is the same for a vault in another state.
  Justified-in_state :
      (v : LimboVault) (s t : VaultState) → Justified (in_state s v) t → Justified v t
  unfolding claim_proof_of invalidation_data
  Justified-in_state v s limbo j = j
  Justified-in_state v s (unlocked n q) j = j
  Justified-in_state v s (claimed n claimant claim_proof) j = j
  Justified-in_state v s (invalidated n reason signature) j = j

  carried :
      (u v w : LimboVault)
      → u ≡ in_state u.state v
      → Justified v u.state
      → (w.state ≡ u.state) ⊎ Justified u w.state
      → Justified v w.state
  carried u v w apart j (inl same) = subst (Justified v) (sym same) j
  carried u v w apart j (inr new_one) =
      Justified-in_state v u.state w.state
        (subst (λ (x : LimboVault). Justified x w.state) apart new_one)

  -- Whatever a vault that starts in limbo goes through: nothing of it changes but its state, and
  -- the state is justified. If the vault is unlocked, or claimed, then by a proof that fulfills its
  -- condition for a reference state of the number that is kept; if it is invalidated, then by a
  -- signature of the creator.
  pub Reaches-Justified :
      {v w : LimboVault}
      → Reaches v w
      → v.state ≡ limbo
      → (w ≡ in_state w.state v) × Justified v w.state
  Reaches-Justified {v} here free = (refl, subst (Justified v) (sym free) tt)
  Reaches-Justified {v} {w} (then_step {v = u} past step) free =
      let (apart, j) = Reaches-Justified past free in
      let m = Step-Moves step in
      (m.apart ∙ ap (in_state w.state) apart, carried u v w apart j m.reason)
