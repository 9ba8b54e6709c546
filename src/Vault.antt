-- ===== src/Vault.antt =====
-- Deterministic limbo vaults: the conditions and proofs (dsm/src/vault/fulfillment.rs and
-- limbo_vault.rs beside it), and the vault with its states. A Pedersen commitment is the bytes that
-- `to_bytes` gives of it.
pub mod Fulfill
pub mod Operations
pub mod Post
pub mod Manager
pub mod Conditions
pub mod Complete
pub mod Signatures
pub mod Integrity
pub mod Lifecycle
pub mod History
pub mod Claims
pub mod Managed
mod Tests
use dsm_decentralized_state.Base.{ℕ, Bool, Option, List}
use dsm_decentralized_state.Base.Result.{Result}
use dsm_decentralized_state.State.Operation.{Bytes, Text}
use dsm_decentralized_state.Walk.{Position}

mutual
  pub data FulfillmentMechanism : Type 0 where
    -- unlock_time, reference_states
    time_release : ℕ → List Bytes → FulfillmentMechanism
    -- amount, token_id, recipient, verification_state
    payment : ℕ → Text → Text → Bytes → FulfillmentMechanism
    -- condition_hash, public_params
    crypto_condition : Bytes → Bytes → FulfillmentMechanism
    -- public_keys, threshold
    multi_signature : List Bytes → ℕ → FulfillmentMechanism
    -- reference_states, parameters
    state_reference : List Bytes → Bytes → FulfillmentMechanism
    -- verification_key, statement
    random_walk_verification : Bytes → Text → FulfillmentMechanism
    all_of : Mechanisms → FulfillmentMechanism
    any_of : Mechanisms → FulfillmentMechanism

  -- `Vec<FulfillmentMechanism>`
  pub data Mechanisms : Type 0 where
    no_mechanism : Mechanisms
    mechanism : FulfillmentMechanism → Mechanisms → Mechanisms

mutual
  pub data FulfillmentProof : Type 0 where
    -- reference_state, state_proof
    time_proof : Bytes → Bytes → FulfillmentProof
    -- state_transition, merkle_proof
    payment_proof : Bytes → Bytes → FulfillmentProof
    -- solution, proof
    crypto_condition_proof : Bytes → Bytes → FulfillmentProof
    -- signatures, each with its public key, and signed_data
    multi_signature_proof : List (record { 0 : Bytes; 1 : Bytes }) → Bytes → FulfillmentProof
    -- positions, hash_chain_proof
    random_walk_proof : List Position → Bytes → FulfillmentProof
    compound_proof : Proofs → FulfillmentProof

  -- `Vec<FulfillmentProof>`
  pub data Proofs : Type 0 where
    no_proof : Proofs
    proof : FulfillmentProof → Proofs → Proofs

pub data VaultState : Type 0 where
  limbo : VaultState
  -- unlocked_state_number, fulfillment_proof
  unlocked : ℕ → FulfillmentProof → VaultState
  -- claimed_state_number, claimant, claim_proof
  claimed : ℕ → Bytes → Bytes → VaultState
  -- invalidated_state_number, reason, creator_signature
  invalidated : ℕ → Text → Bytes → VaultState

pub record EncryptedContent : Type 0 where
  pub encapsulated_key : Bytes
  pub encrypted_data : Bytes
  pub nonce : Bytes
  pub aad : Bytes

pub record LimboVault : Type 0 where
  pub id : Text
  pub created_at_state : ℕ
  pub creator_public_key : Bytes
  pub fulfillment_condition : FulfillmentMechanism
  pub intended_recipient : Option Bytes
  pub state : VaultState
  pub content_type : Text
  pub encrypted_content : EncryptedContent
  pub content_commitment : Bytes
  pub parameters_hash : Bytes
  pub creator_signature : Bytes
  pub verification_positions : List Position
  pub reference_state_hash : Bytes

-- What a vault calls. Third-party code: `bincode`, of which the serialization of a condition, a
-- proof or a vault does not fail; `hex`; ML-KEM-512, whose `from_bytes` accept a byte string or
-- not. The repository's own cryptography, which this library does not open: SPHINCS+
-- (dsm/src/crypto/sphincs.rs), the encapsulation of a key for a public key and AES
-- (dsm/src/crypto/kyber.rs), and the Pedersen commitment (dsm/src/crypto/pedersen.rs). The
-- encapsulation and the commitment draw random numbers, which are their first argument.
pub record Cryptography : Type 0 where
  pub serialize_condition : FulfillmentMechanism → Bytes
  pub serialize_proof : FulfillmentProof → Bytes
  pub serialize_vault : LimboVault → Bytes
  pub deserialize_vault : Bytes → Option LimboVault
  pub hex_encode : Bytes → Text
  pub hex_decode : Text → Option Bytes
  pub is_secret_key : Bytes → Bool
  pub is_ciphertext : Bytes → Bool
  pub decapsulate : Bytes → Bytes → Bytes
  pub sphincs_sign : Bytes → Bytes → Result Bytes
  pub sphincs_verify : Bytes → Bytes → Bytes → Result Bool
  pub kyber_encapsulate : Bytes → Bytes → Result (record { 0 : Bytes; 1 : Bytes })
  pub aes_encrypt : Bytes → Bytes → Bytes → Result Bytes
  pub aes_decrypt : Bytes → Bytes → Bytes → Result Bytes
  pub commit : Bytes → Bytes → Result Bytes
