-- ===== src/Vault/Managed.antt =====
-- What the operations of `DLVManager` (dsm/src/vault/dlv_manager.rs) do to its vaults.
use dsm_decentralized_state.Base.{
  ℕ, Option, ◌≡◌, refl, sym, ap, ◌∙◌, ◌⊎◌, inl, inr, if◌then◌else◌, list_eq, nat_eq, list_beq,
  list_beq→eq, Bool-cases,
}
use mathlib.Core.Path.{subst}
use dsm_decentralized_state.Base.Map.{get-insert}
use dsm_decentralized_state.Base.Result.{ok, err, Error, Result-cases}
use dsm_decentralized_state.State.Operation.{Bytes, Text}
use dsm_decentralized_state.State.Model.{State, Primitives}
use dsm_decentralized_state.Vault.{FulfillmentMechanism, FulfillmentProof, LimboVault, Cryptography}
use dsm_decentralized_state.Vault.Operations
use dsm_decentralized_state.Vault.Operations.{
  VaultRequest, Outcome, vault_id_of, id_hash, unlock, claim, invalidate,
}
use dsm_decentralized_state.Vault.Manager.{
  DlvManager, get_vault, set_vault, with_vault, create_vault, try_unlock_vault, claim_vault_content,
  invalidate_vault,
}
use dsm_decentralized_state.Vault.Integrity.{IsKeypair, Fresh, new-Fresh}
use dsm_decentralized_state.Vault.History.{
  Step, unlocking, claiming, invalidating, Reaches, here, then_step,
}

get-set :
    (i j : Text) (v : LimboVault) (m : DlvManager)
    → get_vault j (set_vault i v m) ≡ (if list_beq i j then ok v else get_vault j m)
unfolding get_vault set_vault
get-set i j v m = elim (Bool-cases (list_beq i j)) [
  | inl same ↦ rw (get-insert i j v m.vaults, same) refl
  | inr other ↦ rw (get-insert i j v m.vaults, other) refl
]

module _ (p : Primitives) (c : Cryptography) where
  create_vault_cases :
      (r : VaultRequest) (s : State) (m : DlvManager)
      → IsKeypair p c r.public_key r.private_key
      → ((e : Error) × (create_vault p c r s m ≡ (m, err e)))
        ⊎ ((m' : DlvManager) × (v : LimboVault) × (create_vault p c r s m
              ≡ (m', ok (vault_id_of p c r s.state_number)))
            × Fresh p c r (vault_id_of p c r s.state_number) v
            × ((j : Text)
                → get_vault j m' ≡ (
                    if list_beq (vault_id_of p c r s.state_number) j then ok v else get_vault j m)))
  unfolding create_vault
  create_vault_cases r s m keypair = elim (Result-cases (Operations.new p c r s)) [
    | inr (e, failed) ↦ inl (e, simp (create_vault, failed))
    | inl (v, made) ↦
        let fresh = new-Fresh p c r s v keypair made in
        let id = vault_id_of p c r s.state_number in
        let stored : create_vault p c r s m ≡ (set_vault v.id v m, ok v.id) =
          simp (create_vault, made) in
        inr (
          set_vault id v m,
          v,
          stored ∙ ap (λ (i : Text). (set_vault i v m, ok i)) fresh.named,
          fresh,
          λ j. get-set id j v m,
        )
  ]

  -- The id is made of the key, the number of the state and the content.
  vault_id_of-others :
      (r : VaultRequest) (n : ℕ) (condition : FulfillmentMechanism) (recipient : Option Bytes)
      → vault_id_of p c
          (record r { fulfillment_condition = condition; intended_recipient = recipient })
          n
        ≡ vault_id_of p c r n
  unfolding vault_id_of id_hash
  vault_id_of-others r n condition recipient = refl

  -- `create_vault` with a key pair either changes nothing and returns an error, or returns the id
  -- of the request and stores a fresh vault under it, in limbo and accepted by `verify`. Whatever
  -- vault was stored under that id before is replaced, and the vaults under other ids stay. A request
  -- with another condition and another recipient has the same id.
  pub create_vault_lem :
      (r : VaultRequest) (s : State) (m : DlvManager)
      → IsKeypair p c r.public_key r.private_key
      → (((e : Error) × (create_vault p c r s m ≡ (m, err e)))
          ⊎ ((m' : DlvManager) × (v : LimboVault) × (create_vault p c r s m
                ≡ (m', ok (vault_id_of p c r s.state_number)))
              × Fresh p c r (vault_id_of p c r s.state_number) v
              × ((j : Text)
                  → get_vault j m' ≡ (
                      if list_beq (vault_id_of p c r s.state_number) j
                      then ok v
                      else get_vault j m))))
        × ((condition : FulfillmentMechanism) (recipient : Option Bytes)
            → vault_id_of p c
                (record r { fulfillment_condition = condition; intended_recipient = recipient })
                s.state_number
              ≡ vault_id_of p c r s.state_number)
  create_vault_lem r s m keypair =
      (create_vault_cases r s m keypair, vault_id_of-others r s.state_number)

  -- Every vault of the one manager is in the other, and has got there by steps.
  abbrev pub Follows : DlvManager → DlvManager → Type 0
  Follows m m' =
      (j : Text) (v : LimboVault)
      → get_vault j m ≡ ok v
      → (w : LimboVault) × (get_vault j m' ≡ ok w) × Reaches p c v w

  with_vault-Follows :
      {A : Type 0} (i : Text) (operation : LimboVault → Outcome A) (m : DlvManager)
      → ((v : LimboVault) → Step p c v (operation v).0)
      → Follows m (with_vault i operation m).0
  unfolding with_vault
  with_vault-Follows i operation m steps j v held = elim (Result-cases (get_vault i m)) [
    | inr (e, missing) ↦ (v, simp (with_vault, missing) held, here)
    | inl (u, found) ↦
        let after : (with_vault i operation m).0 ≡ set_vault i (operation u).0 m =
          simp (with_vault, found) in
        elim (Bool-cases (list_beq i j)) [
          | inl same ↦
              let at : i ≡ j = list_beq→eq i j same in
              let known : ok u ≡ ok v = sym found ∙ ap (λ (k : Text). get_vault k m) at ∙ held in
              let one : u ≡ v = cc in
              (
                (operation u).0,
                ap (get_vault j) after
                    ∙ get-set i j (operation u).0 m
                    ∙ ap (λ b. if b then ok (operation u).0 else get_vault j m) same,
                subst (λ (x : LimboVault). Reaches p c x (operation u).0) one
                    (then_step here (steps u)),
              )
          | inr other ↦ (
            v,
            ap (get_vault j) after
                ∙ get-set i j (operation u).0 m
                ∙ ap (λ b. if b then ok (operation u).0 else get_vault j m) other
                ∙ held,
            here,
          )
        ]
  ]

  -- A call of the manager on one of its vaults, with any arguments and whatever result.
  pub data Call : DlvManager → DlvManager → Type 0 where
    unlock_call :
        (i : Text) (q : FulfillmentProof) (requester : Bytes) (r : State) (m : DlvManager)
        → Call m (try_unlock_vault p c i q requester r m).0
    claim_call :
        (i : Text) (claimant : Bytes) (r : State) (m : DlvManager)
        → Call m (claim_vault_content p c i claimant r m).0
    invalidate_call :
        (i reason : Text) (key : Bytes) (r : State) (m : DlvManager)
        → Call m (invalidate_vault p c i reason key r m).0

  pub data Calls : DlvManager → DlvManager → Type 0 where
    no_call : {m : DlvManager} → Calls m m
    then_call : {l m n : DlvManager} → Calls l m → Call m n → Calls l n

  Call-Follows : {m m' : DlvManager} → Call m m' → Follows m m'
  unfolding try_unlock_vault claim_vault_content invalidate_vault
  Call-Follows (unlock_call i q requester r m) =
      with_vault-Follows i (unlock p c q requester r) m (unlocking q requester r)
  Call-Follows (claim_call i claimant r m) =
      with_vault-Follows i (claim p c claimant r) m (claiming claimant r)
  Call-Follows (invalidate_call i reason key r m) =
      with_vault-Follows i (invalidate c reason key r) m (invalidating reason key r)

  joined : {u v w : LimboVault} → Reaches p c u v → Reaches p c v w → Reaches p c u w
  joined past here = past
  joined past (then_step later step) = then_step (joined past later) step

  -- Any calls that unlock, claim and invalidate vaults, one after another: each vault of the
  -- manager is still there under its id, and has got to its new state by the steps of a vault.
  pub Calls-Follows : {m m' : DlvManager} → Calls m m' → Follows m m'
  Calls-Follows no_call j v held = (v, held, here)
  Calls-Follows (then_call past call) j v held =
      let (u, between, first) = Calls-Follows past j v held in
      let (w, last, second) = Call-Follows call j u between in (w, last, joined first second)
