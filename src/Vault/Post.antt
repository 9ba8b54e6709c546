-- ===== src/Vault/Post.antt =====
-- The posts that carry vaults to decentralized storage (`VaultPost`, `to_vault_post` and
-- `from_vault_post` in dsm/src/vault/limbo_vault.rs). The clock reading of `to_vault_post` is its
-- argument `now`.
use dsm_decentralized_state.Base.{
  ℕ, not, Option, none, some, [], ◌∷◌, ◌++◌, nat_eq, list_eq, list_beq, length,
}
use dsm_decentralized_state.Base.Map
use dsm_decentralized_state.Base.Map.{Map}
use dsm_decentralized_state.Base.Result.{
  Result, ok, ok_or, ◌>>=◌, ◌>>◌, fail_if, validation, serialization,
}
use dsm_decentralized_state.State.Operation.{Bytes, Text}
use dsm_decentralized_state.State.Model.Text.{digits}
use dsm_decentralized_state.Vault.{
  FulfillmentMechanism, VaultState, LimboVault, Cryptography, limbo, unlocked, claimed, invalidated,
  time_release, payment, crypto_condition, multi_signature, state_reference,
  random_walk_verification, all_of, any_of,
}
use dsm_decentralized_state.Vault.Fulfill.{mechanism_count}

pub record VaultPost : Type 0 where
  pub vault_id : Text
  pub lock_description : Text
  pub creator_id : Text
  pub commitment_hash : Bytes
  pub timestamp_created : ℕ
  pub status : Text
  pub metadata : Map Text Text
  pub vault_data : Bytes

-- "Time-locked until state "
abbrev time_locked : Text
time_locked =
    84 ∷ 105 ∷ 109 ∷ 101 ∷ 45 ∷ 108 ∷ 111 ∷ 99 ∷ 107 ∷ 101 ∷ 100 ∷ 32 ∷ 117 ∷ 110 ∷ 116 ∷ 105 ∷ 108
    ∷ 32 ∷ 115 ∷ 116 ∷ 97 ∷ 116 ∷ 101 ∷ 32 ∷ []

-- "Payment of "
abbrev payment_of : Text
payment_of = 80 ∷ 97 ∷ 121 ∷ 109 ∷ 101 ∷ 110 ∷ 116 ∷ 32 ∷ 111 ∷ 102 ∷ 32 ∷ []

-- " "
abbrev space : Text
space = 32 ∷ []

-- " to "
abbrev to_word : Text
to_word = 32 ∷ 116 ∷ 111 ∷ 32 ∷ []

-- "Requires "
abbrev requires : Text
requires = 82 ∷ 101 ∷ 113 ∷ 117 ∷ 105 ∷ 114 ∷ 101 ∷ 115 ∷ 32 ∷ []

-- " of "
abbrev of_word : Text
of_word = 32 ∷ 111 ∷ 102 ∷ 32 ∷ []

-- " signatures"
abbrev signatures_word : Text
signatures_word = 32 ∷ 115 ∷ 105 ∷ 103 ∷ 110 ∷ 97 ∷ 116 ∷ 117 ∷ 114 ∷ 101 ∷ 115 ∷ []

-- "Cryptographic condition fulfillment"
abbrev cryptographic : Text
cryptographic =
    67 ∷ 114 ∷ 121 ∷ 112 ∷ 116 ∷ 111 ∷ 103 ∷ 114 ∷ 97 ∷ 112 ∷ 104 ∷ 105 ∷ 99 ∷ 32 ∷ 99 ∷ 111 ∷ 110
    ∷ 100 ∷ 105 ∷ 116 ∷ 105 ∷ 111 ∷ 110 ∷ 32 ∷ 102 ∷ 117 ∷ 108 ∷ 102 ∷ 105 ∷ 108 ∷ 108 ∷ 109 ∷ 101
    ∷ 110 ∷ 116 ∷ []

-- "Reference state verification"
abbrev reference : Text
reference =
    82 ∷ 101 ∷ 102 ∷ 101 ∷ 114 ∷ 101 ∷ 110 ∷ 99 ∷ 101 ∷ 32 ∷ 115 ∷ 116 ∷ 97 ∷ 116 ∷ 101 ∷ 32 ∷ 118
    ∷ 101 ∷ 114 ∷ 105 ∷ 102 ∷ 105 ∷ 99 ∷ 97 ∷ 116 ∷ 105 ∷ 111 ∷ 110 ∷ []

-- "Random walk verification: "
abbrev random_walk : Text
random_walk =
    82 ∷ 97 ∷ 110 ∷ 100 ∷ 111 ∷ 109 ∷ 32 ∷ 119 ∷ 97 ∷ 108 ∷ 107 ∷ 32 ∷ 118 ∷ 101 ∷ 114 ∷ 105 ∷ 102
    ∷ 105 ∷ 99 ∷ 97 ∷ 116 ∷ 105 ∷ 111 ∷ 110 ∷ 58 ∷ 32 ∷ []

-- "All of "
abbrev all_word : Text
all_word = 65 ∷ 108 ∷ 108 ∷ 32 ∷ 111 ∷ 102 ∷ 32 ∷ []

-- "Any of "
abbrev any_word : Text
any_word = 65 ∷ 110 ∷ 121 ∷ 32 ∷ 111 ∷ 102 ∷ 32 ∷ []

-- " conditions must be met"
abbrev conditions_met : Text
conditions_met =
    32 ∷ 99 ∷ 111 ∷ 110 ∷ 100 ∷ 105 ∷ 116 ∷ 105 ∷ 111 ∷ 110 ∷ 115 ∷ 32 ∷ 109 ∷ 117 ∷ 115 ∷ 116 ∷ 32
    ∷ 98 ∷ 101 ∷ 32 ∷ 109 ∷ 101 ∷ 116 ∷ []

-- "unresolved"
abbrev unresolved : Text
unresolved = 117 ∷ 110 ∷ 114 ∷ 101 ∷ 115 ∷ 111 ∷ 108 ∷ 118 ∷ 101 ∷ 100 ∷ []

-- "unlocked"
abbrev unlocked_text : Text
unlocked_text = 117 ∷ 110 ∷ 108 ∷ 111 ∷ 99 ∷ 107 ∷ 101 ∷ 100 ∷ []

-- "claimed"
abbrev claimed_text : Text
claimed_text = 99 ∷ 108 ∷ 97 ∷ 105 ∷ 109 ∷ 101 ∷ 100 ∷ []

-- "invalidated"
abbrev invalidated_text : Text
invalidated_text = 105 ∷ 110 ∷ 118 ∷ 97 ∷ 108 ∷ 105 ∷ 100 ∷ 97 ∷ 116 ∷ 101 ∷ 100 ∷ []

-- "purpose"
abbrev purpose_key : Text
purpose_key = 112 ∷ 117 ∷ 114 ∷ 112 ∷ 111 ∷ 115 ∷ 101 ∷ []

-- "timeout"
abbrev timeout_key : Text
timeout_key = 116 ∷ 105 ∷ 109 ∷ 101 ∷ 111 ∷ 117 ∷ 116 ∷ []

-- A `u64` in decimal digits.
abbrev decimal : ℕ → Text
decimal n = digits 20 n []

lock_description_of : FulfillmentMechanism → Text
unfolding mechanism_count digits
lock_description_of (time_release unlock_time _) = time_locked ++ decimal unlock_time
lock_description_of (payment amount token_id recipient _) =
    payment_of ++ (decimal amount ++ (space ++ (token_id ++ (to_word ++ recipient))))
lock_description_of (multi_signature public_keys threshold) =
    requires
    ++ (decimal threshold ++ (of_word ++ (decimal (length public_keys) ++ signatures_word)))
lock_description_of (crypto_condition _ _) = cryptographic
lock_description_of (state_reference _ _) = reference
lock_description_of (random_walk_verification _ statement) = random_walk ++ statement
lock_description_of (all_of conditions) =
    all_word ++ (decimal (mechanism_count conditions) ++ conditions_met)
lock_description_of (any_of conditions) =
    any_word ++ (decimal (mechanism_count conditions) ++ conditions_met)

status_of : VaultState → Text
status_of limbo = unresolved
status_of (unlocked _ _) = unlocked_text
status_of (claimed _ _ _) = claimed_text
status_of (invalidated _ _ _) = invalidated_text

metadata_of : Text → Option ℕ → Map Text Text
metadata_of purpose none = Map.insert purpose_key purpose []
metadata_of purpose (some timeout_value) =
    Map.insert timeout_key (decimal timeout_value) (Map.insert purpose_key purpose [])

module _ (c : Cryptography) where
  unfoldable pub to_vault_post : ℕ → Text → Option ℕ → LimboVault → VaultPost
  unfolding lock_description_of status_of metadata_of
  to_vault_post now purpose timeout v = record {
    vault_id = v.id;
    lock_description = lock_description_of v.fulfillment_condition;
    creator_id = c.hex_encode v.creator_public_key;
    commitment_hash = v.parameters_hash;
    timestamp_created = now;
    status = status_of v.state;
    metadata = metadata_of purpose timeout;
    vault_data = c.serialize_vault v;
  }

  unfoldable pub from_vault_post : VaultPost → Result LimboVault
  from_vault_post post = ok_or (c.deserialize_vault post.vault_data) serialization >>= λ v.
      fail_if (not (list_beq v.parameters_hash post.commitment_hash)) validation
      >> fail_if (not (list_beq v.id post.vault_id)) validation
      >> (ok_or (c.hex_decode post.creator_id) validation >>= λ creator_pubkey.
          fail_if (not (list_beq v.creator_public_key creator_pubkey)) validation
          >> (c.sphincs_verify v.creator_public_key v.parameters_hash v.creator_signature
              >>= λ valid. fail_if (not valid) validation >> ok v))
