-- ===== src/Vault/Manager.antt =====
-- `DLVManager` (dsm/src/vault/dlv_manager.rs). Its locks are free, and the vaults, each behind a
-- lock of its own, are the values of the map. `new` of a vault happens before the lock is taken.
use dsm_decentralized_state.Base.{Bool, List, nat_eq, list_eq, [], ℕ, Option}
use dsm_decentralized_state.Base.Map
use dsm_decentralized_state.Base.Map.{Map, keys}
use dsm_decentralized_state.Base.Result.{Result, ok, err, ok_or, not_found, ◌>>=◌}
use dsm_decentralized_state.State.Operation.{Bytes, Text}
use dsm_decentralized_state.State.Model.{State, Primitives}
use dsm_decentralized_state.Vault.{FulfillmentProof, LimboVault, Cryptography}
use dsm_decentralized_state.Vault.Operations
use dsm_decentralized_state.Vault.Operations.{
  VaultRequest, ClaimResult, Outcome, unlock, claim, invalidate,
}
use dsm_decentralized_state.Vault.Post.{VaultPost, to_vault_post}

pub record DlvManager : Type 0 where
  pub vaults : Map Text LimboVault

unfoldable pub new_manager : DlvManager
new_manager = record { vaults = [] }

unfoldable pub get_vault : Text → DlvManager → Result LimboVault
get_vault vault_id m = ok_or (Map.get vault_id m.vaults) not_found

unfoldable pub list_vaults : DlvManager → List Text
list_vaults m = keys m.vaults

unfoldable pub set_vault : Text → LimboVault → DlvManager → DlvManager
set_vault vault_id v m = record { vaults = Map.insert vault_id v m.vaults }

-- What an operation of the manager leaves, and returns.
abbrev pub Managed : Type 0 → Type 0
Managed A = DlvManager × Result A

-- `let vault = vault_lock.lock()`, and a call that may change the vault.
unfoldable pub with_vault : {A : Type 0} → Text → (LimboVault → Outcome A) → DlvManager → Managed A
unfolding get_vault set_vault
with_vault vault_id operation m = elim (get_vault vault_id m) [
  | err e ↦ (m, err e)
  | ok v ↦ (set_vault vault_id (operation v).0 m, (operation v).1)
]

module _ (p : Primitives) (c : Cryptography) where
  unfoldable pub create_vault : VaultRequest → State → DlvManager → Managed Text
  unfolding set_vault
  create_vault r reference_state m = elim (Operations.new p c r reference_state) [
    | err e ↦ (m, err e)
    | ok v ↦ (set_vault v.id v m, ok v.id)
  ]

  unfoldable pub try_unlock_vault :
      Text → FulfillmentProof → Bytes → State → DlvManager → Managed Bool
  unfolding with_vault
  try_unlock_vault vault_id q requester reference_state m =
      with_vault vault_id (unlock p c q requester reference_state) m

  -- `.map(|result| result.content)`
  content_of : Result ClaimResult → Result Bytes
  content_of r = r >>= λ result. ok result.content

  unfoldable pub claim_vault_content : Text → Bytes → State → DlvManager → Managed Bytes
  unfolding with_vault content_of
  claim_vault_content vault_id claimant reference_state m =
      let outcome = with_vault vault_id (claim p c claimant reference_state) m in
      (outcome.0, content_of outcome.1)

  unfoldable pub invalidate_vault : Text → Text → Bytes → State → DlvManager → Managed (Unit {0})
  unfolding with_vault
  invalidate_vault vault_id reason creator_private_key reference_state m =
      with_vault vault_id (invalidate c reason creator_private_key reference_state) m

  unfoldable pub create_vault_post :
      (VaultPost → Bytes) → ℕ → Text → Text → Option ℕ → DlvManager → Result Bytes
  unfolding get_vault
  create_vault_post serialize_post now vault_id purpose timeout m =
      get_vault vault_id m >>= λ v. ok (serialize_post (to_vault_post c now purpose timeout v))
