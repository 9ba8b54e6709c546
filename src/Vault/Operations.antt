-- ===== src/Vault/Operations.antt =====
-- The operations of a vault (`LimboVault` in dsm/src/vault/limbo_vault.rs), as a build without
-- tests has them. An operation with `&mut self` gives the vault that it leaves with its result.
use dsm_decentralized_state.Base.{
  ℕ, Bool, true, false, not, Option, none, some, [], ◌∷◌, ◌++◌, nat_eq, list_eq, list_beq, take,
  if◌then◌else◌,
}
use dsm_decentralized_state.Base.Result.{Result, ok, err, ◌>>=◌, ◌>>◌, fail_if, validation, crypto}
use dsm_decentralized_state.Token.Balance.{le_bytes}
use dsm_decentralized_state.State.Operation.{Bytes, Text}
use dsm_decentralized_state.State.Model.{State, Primitives, state_hash}
use dsm_decentralized_state.Walk.{generate_seed, generate_positions}
use dsm_decentralized_state.Vault.{
  FulfillmentMechanism, FulfillmentProof, VaultState, LimboVault, Cryptography, limbo, unlocked,
  claimed, invalidated,
}
use dsm_decentralized_state.Vault.Fulfill.{verify_fulfillment}

-- `.map_err(|e| DsmError::crypto(..))`
abbrev pub as_crypto {ℓ} : {A : Type ℓ} → Result A → Result A
as_crypto (err e) = err crypto
as_crypto (ok a) = ok a

-- `intended_recipient.as_deref().unwrap_or(creator_keypair.0)`
abbrev pub or_creator : Option Bytes → Bytes → Bytes
or_creator none creator = creator
or_creator (some recipient) creator = recipient

-- `if let Some(recipient) = &intended_recipient { .. }`
abbrev recipient_bytes : Option Bytes → Bytes
recipient_bytes none = []
recipient_bytes (some recipient) = recipient

-- "vault_"
abbrev vault_prefix : Text
vault_prefix = 118 ∷ 97 ∷ 117 ∷ 108 ∷ 116 ∷ 95 ∷ []

-- "state_vault_"
abbrev state_vault_prefix : Text
state_vault_prefix = 115 ∷ 116 ∷ 97 ∷ 116 ∷ 101 ∷ 95 ∷ 118 ∷ 97 ∷ 117 ∷ 108 ∷ 116 ∷ 95 ∷ []

-- "SIMULATION_SECRET_KEY_DOMAIN"
abbrev simulation_domain : Bytes
simulation_domain =
    83 ∷ 73 ∷ 77 ∷ 85 ∷ 76 ∷ 65 ∷ 84 ∷ 73 ∷ 79 ∷ 78 ∷ 95 ∷ 83 ∷ 69 ∷ 67 ∷ 82 ∷ 69 ∷ 84 ∷ 95 ∷ 75
    ∷ 69 ∷ 89 ∷ 95 ∷ 68 ∷ 79 ∷ 77 ∷ 65 ∷ 73 ∷ 78 ∷ []

-- "CREATOR_SECRET_KEY_DOMAIN"
abbrev creator_domain : Bytes
creator_domain =
    67 ∷ 82 ∷ 69 ∷ 65 ∷ 84 ∷ 79 ∷ 82 ∷ 95 ∷ 83 ∷ 69 ∷ 67 ∷ 82 ∷ 69 ∷ 84 ∷ 95 ∷ 75 ∷ 69 ∷ 89 ∷ 95
    ∷ 68 ∷ 79 ∷ 77 ∷ 65 ∷ 73 ∷ 78 ∷ []

-- The arguments of `new` and `from_state`, with the random numbers that are drawn.
pub record VaultRequest : Type 0 where
  pub public_key : Bytes
  pub private_key : Bytes
  pub fulfillment_condition : FulfillmentMechanism
  pub content : Bytes
  pub content_type : Text
  pub intended_recipient : Option Bytes
  pub kyber_coins : Bytes
  pub commit_coins : Bytes

pub record ClaimResult : Type 0 where
  pub vault : LimboVault
  pub content : Bytes
  pub claim_proof : Bytes

-- What an operation leaves, and returns.
abbrev pub Outcome : Type 0 → Type 0
Outcome A = LimboVault × Result A

-- `matches!(self.state, VaultState::Limbo)`
abbrev pub is_limbo : VaultState → Bool
is_limbo limbo = true
is_limbo _ = false

-- Whether the requester is the recipient, if there is one.
abbrev pub is_authorized : Option Bytes → Bytes → Bool
is_authorized none requester = true
is_authorized (some recipient) requester = list_beq recipient requester

module _ (c : Cryptography) where
  -- What the parameters hash is the hash of.
  unfoldable pub parameters :
      Bytes → Text → ℕ → Bytes → FulfillmentMechanism → Option Bytes → Bytes → Bytes
  parameters public_key vault_id state_number reference_hash condition intended_recipient
        commitment =
      public_key
      ++ (vault_id
          ++ (le_bytes 8 state_number
              ++ (reference_hash
                  ++ (c.serialize_condition condition
                      ++ (recipient_bytes intended_recipient ++ commitment)))))

  unfoldable pub vault_parameters : LimboVault → Bytes
  unfolding parameters
  vault_parameters v =
      parameters v.creator_public_key v.id v.created_at_state v.reference_state_hash
        v.fulfillment_condition v.intended_recipient v.content_commitment

module _ (p : Primitives) (c : Cryptography) where
  -- The common part of `new` and `from_state`: from the encryption on, with the id, the number, the
  -- hash of the reference state, the nonce, and the seed of the positions that is made of the
  -- parameters hash.
  unfoldable pub seal :
      VaultRequest → Text → ℕ → Bytes → Bytes → (Bytes → Bytes) → Result LimboVault
  unfolding parameters
  seal r vault_id state_number reference_hash nonce seed_from =
      as_crypto (c.kyber_encapsulate r.kyber_coins (or_creator r.intended_recipient r.public_key))
      >>= λ encapsulated.
          as_crypto (c.aes_encrypt encapsulated.1 nonce r.content) >>= λ encrypted_data.
          c.commit r.commit_coins r.content >>= λ commitment.
          let parameters_hash = p.blake3 (
            parameters c r.public_key vault_id state_number reference_hash r.fulfillment_condition
              r.intended_recipient commitment) in
          as_crypto (c.sphincs_sign r.private_key parameters_hash) >>= λ creator_signature.
          generate_positions p.blake3 (seed_from parameters_hash) none >>= λ verification_positions.
          ok (record {
            id = vault_id;
            created_at_state = state_number;
            creator_public_key = r.public_key;
            fulfillment_condition = r.fulfillment_condition;
            intended_recipient = r.intended_recipient;
            state = limbo;
            content_type = r.content_type;
            encrypted_content = record {
              encapsulated_key = encapsulated.0;
              encrypted_data = encrypted_data;
              nonce = nonce;
              aad = r.public_key ++ (vault_id ++ (le_bytes 8 state_number ++ reference_hash));
            };
            content_commitment = commitment;
            parameters_hash = parameters_hash;
            creator_signature = creator_signature;
            verification_positions = verification_positions;
            reference_state_hash = reference_hash;
          })

  -- the hash of which `new` makes the id
  unfoldable pub id_hash : VaultRequest → ℕ → Bytes
  id_hash r state_number = p.blake3 (r.public_key ++ (le_bytes 8 state_number ++ r.content))

  unfoldable pub vault_id_of : VaultRequest → ℕ → Text
  unfolding id_hash
  vault_id_of r state_number = vault_prefix ++ c.hex_encode (id_hash r state_number)

  unfoldable pub nonce_of : VaultRequest → ℕ → Bytes
  unfolding id_hash
  nonce_of r state_number = take 12 (p.blake3 (id_hash r state_number ++ le_bytes 8 state_number))

  unfoldable pub seed_of : Text → Bytes → Bytes
  seed_of vault_id parameters_hash = generate_seed p.blake3 parameters_hash vault_id none

  unfoldable pub new : VaultRequest → State → Result LimboVault
  unfolding seal vault_id_of nonce_of seed_of
  new r reference_state =
      let n = reference_state.state_number in
      let vault_id = vault_id_of r n in
      seal r vault_id n (state_hash p reference_state) (nonce_of r n) (seed_of vault_id)

  unfoldable pub state_vault_id_of : VaultRequest → State → Text
  state_vault_id_of r s =
      state_vault_prefix
      ++ c.hex_encode
          (p.blake3 (r.public_key ++ (le_bytes 8 s.state_number ++ (s.entropy ++ r.content))))

  unfoldable pub state_nonce_of : State → Bytes
  state_nonce_of s = take 12 (p.blake3 (s.entropy ++ le_bytes 8 s.state_number))

  unfoldable pub state_seed_of : State → Bytes → Bytes
  state_seed_of s parameters_hash = p.blake3 (parameters_hash ++ s.entropy)

  unfoldable pub from_state : VaultRequest → State → Result LimboVault
  unfolding seal state_vault_id_of state_nonce_of state_seed_of
  from_state r s =
      seal r (state_vault_id_of r s) s.state_number s.hash (state_nonce_of s) (state_seed_of s)

  unfoldable pub verify : LimboVault → Result Bool
  unfolding vault_parameters
  verify v =
      if not (list_beq v.parameters_hash (p.blake3 (vault_parameters c v)))
      then ok false
      else c.sphincs_verify v.creator_public_key v.parameters_hash v.creator_signature

  unfoldable pub unlock : FulfillmentProof → Bytes → State → LimboVault → Outcome Bool
  unlock q requester reference_state v =
      if not (is_limbo v.state)
      then (v, err validation)
      else if not (is_authorized v.intended_recipient requester)
      then (v, err validation)
      else elim (verify_fulfillment p c reference_state q v) [
        | err e ↦ (v, err e)
        | ok false ↦ (v, ok false)
        | ok true ↦ (record v { state = unlocked reference_state.state_number q }, ok true)
      ]

  -- The simulated key, for the recipient or for the creator: `Ok(Some(..))` in either case.
  unfoldable pub get_recipient_secret_key : LimboVault → Bytes
  get_recipient_secret_key v = elim v.intended_recipient [
    | some recipient ↦ p.blake3 (recipient ++ simulation_domain)
    | none ↦ p.blake3 (v.creator_public_key ++ creator_domain)
  ]

  compute_unlocking_key : LimboVault → Bytes → Bytes → Bytes
  compute_unlocking_key v claimant claim_proof = p.blake3 (
      c.serialize_condition v.fulfillment_condition
      ++ (v.parameters_hash ++ (v.reference_state_hash ++ (claim_proof ++ claimant))))

  unfoldable pub claim_proof_of : FulfillmentProof → Bytes → State → LimboVault → Bytes
  claim_proof_of q claimant reference_state v = p.blake3 (
      v.id
      ++ (claimant
          ++ (le_bytes 8 reference_state.state_number
              ++ (v.parameters_hash ++ p.blake3 (c.serialize_proof q)))))

  -- the steps of `claim` that follow the change of the state
  unfoldable pub open_content : Bytes → Bytes → LimboVault → Result ClaimResult
  unfolding get_recipient_secret_key compute_unlocking_key
  open_content claimant claim_proof v =
      let unlocking_key = compute_unlocking_key v claimant claim_proof in
      let secret_key = get_recipient_secret_key v in
      let ciphertext = v.encrypted_content.encapsulated_key in
      fail_if (not (c.is_secret_key secret_key)) crypto
      >> fail_if (not (c.is_ciphertext ciphertext)) crypto
      >> (as_crypto (
            c.aes_decrypt (p.blake3 (c.decapsulate ciphertext secret_key ++ unlocking_key))
              v.encrypted_content.nonce v.encrypted_content.encrypted_data)
          >>= λ decrypted.
              ok (record { vault = v; content = decrypted; claim_proof = claim_proof }))

  -- `claim` from step 2 on
  unfoldable pub claim_unlocked :
      FulfillmentProof → Bytes → State → LimboVault → Outcome ClaimResult
  unfolding claim_proof_of open_content
  claim_unlocked q claimant reference_state v =
      let claim_proof = claim_proof_of q claimant reference_state v in
      let v' = record v { state = claimed reference_state.state_number claimant claim_proof } in
      (v', open_content claimant claim_proof v')

  -- the `match` of `claim` on the state of the vault
  unfoldable pub claim_from : VaultState → Bytes → State → LimboVault → Outcome ClaimResult
  unfolding claim_unlocked
  claim_from (unlocked n q) claimant reference_state v =
      elim (verify_fulfillment p c reference_state q v) [
        | err e ↦ (v, err e)
        | ok false ↦ (v, err validation)
        | ok true ↦ claim_unlocked q claimant reference_state v
      ]
  claim_from _ claimant reference_state v = (v, err validation)

  unfoldable pub claim : Bytes → State → LimboVault → Outcome ClaimResult
  unfolding claim_from
  claim claimant reference_state v = claim_from v.state claimant reference_state v

module _ (c : Cryptography) where
  -- the data that the creator signs, and the vault when the signature is valid
  unfoldable pub invalidation_data : Text → State → LimboVault → Bytes
  invalidation_data reason reference_state v = v.id ++ (reason ++ reference_state.hash)

  unfoldable pub invalidated_by : Text → Bytes → State → LimboVault → LimboVault
  invalidated_by reason signature reference_state v = record v {
    state = invalidated reference_state.state_number reason signature;
  }

  unfoldable pub invalidate : Text → Bytes → State → LimboVault → Outcome (Unit {0})
  unfolding invalidation_data invalidated_by
  invalidate reason creator_private_key reference_state v =
      let data_bytes = invalidation_data reason reference_state v in
      elim (as_crypto (c.sphincs_sign creator_private_key data_bytes)) [
        | err e ↦ (v, err e)
        | ok signature ↦ elim (c.sphincs_verify v.creator_public_key data_bytes signature) [
          | err e ↦ (v, err e)
          | ok false ↦ (v, err validation)
          | ok true ↦ (invalidated_by reason signature reference_state v, ok tt)
        ]
      ]
