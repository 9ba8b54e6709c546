-- ===== src/Vault/Integrity.antt =====
-- That what is made and posted can be checked again (`new`, `from_state`, `verify`, `to_vault_post`
-- and `from_vault_post` in dsm/src/vault/limbo_vault.rs).
use dsm_decentralized_state.Base.{
  ℕ, ◌≡◌, refl, sym, true, Option, none, some, inl, inr, Bool-cases, list_beq, list_beq_refl,
  nat_eq, list_eq,
}
use dsm_decentralized_state.Base.Result.{Result, ok, err, ◌>>=◌}
use dsm_decentralized_state.State.Operation.{Bytes, Text}
use dsm_decentralized_state.State.Model.{State, Primitives, state_hash}
use dsm_decentralized_state.Walk.{generate_positions}
use dsm_decentralized_state.Vault.{
  FulfillmentMechanism, LimboVault, Cryptography, VaultState, limbo,
}
use dsm_decentralized_state.Vault.Operations.{
  VaultRequest, as_crypto, or_creator, parameters, vault_parameters, seal, vault_id_of, nonce_of,
  seed_of, state_vault_id_of, state_nonce_of, state_seed_of, new, from_state, verify,
}
use dsm_decentralized_state.Vault.Post.{VaultPost, to_vault_post, from_vault_post}

-- What holds of a result that is no error.
abbrev OnOk {ℓ} : {A : Type ℓ} → (A → Type 0) → Result A → Type 0
OnOk holds (ok a) = holds a
OnOk holds (err e) = Unit

bind-OnOk {ℓ κ} :
    {A : Type ℓ} {B : Type κ} (holds : B → Type 0) (r : Result A) (f : A → Result B)
    → ((a : A) → r ≡ ok a → OnOk holds (f a))
    → OnOk holds (r >>= f)
bind-OnOk holds (ok a) f h = h a refl
bind-OnOk holds (err e) f h = tt

OnOk-ok {ℓ} :
    {A : Type ℓ} (holds : A → Type 0) (r : Result A) (a : A) → OnOk holds r → r ≡ ok a → holds a
OnOk-ok holds (ok b) a h e = let same : b ≡ a = cc in rw (← same) h
OnOk-ok holds (err x) a h e = cc

as_crypto-ok {ℓ} : {A : Type ℓ} (r : Result A) (a : A) → as_crypto r ≡ ok a → r ≡ ok a
as_crypto-ok (ok b) a e = e
as_crypto-ok (err x) a e = cc

-- A vault with another condition, another recipient and another state.
abbrev pub altered : FulfillmentMechanism → Option Bytes → VaultState → LimboVault → LimboVault
altered condition recipient s v = record v {
  fulfillment_condition = condition;
  intended_recipient = recipient;
  state = s;
}

module _ (p : Primitives) (c : Cryptography) where
  -- A signature that the private key makes verifies under the public key.
  abbrev pub IsKeypair : Bytes → Bytes → Type 0
  IsKeypair public_key private_key =
      (d sig : Bytes)
      → c.sphincs_sign private_key d ≡ ok sig
      → c.sphincs_verify public_key d sig ≡ ok true

  -- What a fresh vault is: in limbo, accepted by `verify`, and made as it was asked for.
  pub record Fresh (r : VaultRequest) (vault_id : Text) (v : LimboVault) : Type 0 where
    pub named : v.id ≡ vault_id
    pub in_limbo : v.state ≡ limbo
    pub verifies : verify p c v ≡ ok true
    pub owned : v.creator_public_key ≡ r.public_key
    pub conditioned : v.fulfillment_condition ≡ r.fulfillment_condition
    pub addressed : v.intended_recipient ≡ r.intended_recipient

  seal-Fresh :
      (r : VaultRequest) (vault_id : Text) (n : ℕ) (reference_hash nonce : Bytes)
      (seed_of : Bytes → Bytes)
      → IsKeypair r.public_key r.private_key
      → OnOk (Fresh r vault_id) (seal p c r vault_id n reference_hash nonce seed_of)
  unfolding seal
  seal-Fresh r vault_id n reference_hash nonce seed_of keypair =
      bind-OnOk (Fresh r vault_id)
        (as_crypto
          (c.kyber_encapsulate r.kyber_coins (or_creator r.intended_recipient r.public_key)))
        _
        λ encapsulated _.
          bind-OnOk (Fresh r vault_id) (as_crypto (c.aes_encrypt encapsulated.1 nonce r.content)) _
            λ encrypted_data _.
              bind-OnOk (Fresh r vault_id) (c.commit r.commit_coins r.content) _ λ commitment _.
                let h = p.blake3 (
                  parameters c r.public_key vault_id n reference_hash r.fulfillment_condition
                    r.intended_recipient commitment) in
                bind-OnOk (Fresh r vault_id) (as_crypto (c.sphincs_sign r.private_key h)) _
                  λ sig signed.
                    bind-OnOk (Fresh r vault_id) (generate_positions p.blake3 (seed_of h) none) _
                      λ positions _. record {
                        named = refl;
                        in_limbo = refl;
                        verifies =
                            unfold verify vault_parameters parameters in
                            rw (list_beq_refl h) (
                              keypair h sig
                                (as_crypto-ok (c.sphincs_sign r.private_key h) sig signed));
                        owned = refl;
                        conditioned = refl;
                        addressed = refl;
                      }

  -- A vault that `new` makes with a key pair, whatever its condition, its recipient and its
  -- content: it is in limbo, has its id, the condition and the recipient that were asked for, and
  -- `verify` accepts it.
  pub new-Fresh :
      (r : VaultRequest) (s : State) (v : LimboVault)
      → IsKeypair r.public_key r.private_key
      → new p c r s ≡ ok v
      → Fresh r (vault_id_of p c r s.state_number) v
  unfolding new
  new-Fresh r s v keypair made =
      let n = s.state_number in
      let vault_id = vault_id_of p c r n in
      OnOk-ok (Fresh r vault_id) (new p c r s) v
        (seal-Fresh r vault_id n (state_hash p s) (nonce_of p c r n) (seed_of p c vault_id) keypair)
        made

  from_state-Fresh :
      (r : VaultRequest) (s : State) (v : LimboVault)
      → IsKeypair r.public_key r.private_key
      → from_state p c r s ≡ ok v
      → Fresh r (state_vault_id_of p c r s) v
  unfolding from_state
  from_state-Fresh r s v keypair made =
      let vault_id = state_vault_id_of p c r s in
      OnOk-ok (Fresh r vault_id) (from_state p c r s) v
        (seal-Fresh r vault_id s.state_number s.hash (state_nonce_of p c s) (state_seed_of p c s)
          keypair)
        made

  verify-signed :
      (v : LimboVault)
      → verify p c v ≡ ok true
      → c.sphincs_verify v.creator_public_key v.parameters_hash v.creator_signature ≡ ok true
  unfolding verify
  verify-signed v h =
      elim (Bool-cases (list_beq v.parameters_hash (p.blake3 (vault_parameters c v)))) [
        | inl same ↦ rw (← h) (sym (rw (verify, same) refl))
        | inr other ↦ cc (h, other)
      ]

  from_vault_post-accepts :
      (post : VaultPost) (v : LimboVault)
      → c.deserialize_vault post.vault_data ≡ some v
      → post.commitment_hash ≡ v.parameters_hash
      → post.vault_id ≡ v.id
      → c.hex_decode post.creator_id ≡ some v.creator_public_key
      → c.sphincs_verify v.creator_public_key v.parameters_hash v.creator_signature ≡ ok true
      → from_vault_post c post ≡ ok v
  unfolding from_vault_post
  from_vault_post-accepts post v data_read hash id creator signed = simp (
    from_vault_post,
    data_read,
    hash,
    id,
    creator,
    list_beq_refl v.parameters_hash,
    list_beq_refl v.id,
    list_beq_refl v.creator_public_key,
    signed,
  )

  -- A vault that `verify` accepts, whose bytes and whose key in hexadecimal decode to themselves,
  -- comes back from its post, for every purpose and timeout.
  pub from_vault_post-to_vault_post :
      (now : ℕ) (purpose : Text) (timeout : Option ℕ) (v : LimboVault)
      → c.deserialize_vault (c.serialize_vault v) ≡ some v
      → c.hex_decode (c.hex_encode v.creator_public_key) ≡ some v.creator_public_key
      → verify p c v ≡ ok true
      → from_vault_post c (to_vault_post c now purpose timeout v) ≡ ok v
  unfolding to_vault_post
  from_vault_post-to_vault_post now purpose timeout v decoded unhexed h =
      from_vault_post-accepts (to_vault_post c now purpose timeout v) v decoded refl refl unhexed
        (verify-signed v h)

  -- `from_vault_post` does not compute the parameters hash again: in the post of a vault that
  -- `verify` accepts, the vault data can be replaced by those of the vault with any other
  -- condition, recipient and state, and the altered vault is returned (if its bytes, and the key in
  -- hexadecimal, decode to themselves).
  pub from_vault_post-altered :
      (now : ℕ) (purpose : Text) (timeout : Option ℕ) (v : LimboVault)
      (condition : FulfillmentMechanism) (recipient : Option Bytes) (s : VaultState)
      → c.deserialize_vault (c.serialize_vault (altered condition recipient s v))
        ≡ some (altered condition recipient s v)
      → c.hex_decode (c.hex_encode v.creator_public_key) ≡ some v.creator_public_key
      → verify p c v ≡ ok true
      → from_vault_post c (record (to_vault_post c now purpose timeout v) {
        vault_data = c.serialize_vault (altered condition recipient s v);
      })
        ≡ ok (altered condition recipient s v)
  unfolding to_vault_post
  from_vault_post-altered now purpose timeout v condition recipient s decoded unhexed h =
      from_vault_post-accepts
        (record (to_vault_post c now purpose timeout v) {
          vault_data = c.serialize_vault (altered condition recipient s v);
        })
        (altered condition recipient s v) decoded refl refl unhexed (verify-signed v h)
