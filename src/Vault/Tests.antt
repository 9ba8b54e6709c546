-- ===== src/Vault/Tests.antt =====
-- A vault under toy cryptography, and one instance of each theorem.
use dsm_decentralized_state.Base.{
  Option, ℕ, ◌+◌, ◌≤◌, ◌≡◌, ◌↔◌, ◌⊎◌, refl, Bool, true, false, none, some, List, [], ◌∷◌, replicate,
  list_beq, nat_eq, list_eq, if◌then◌else◌,
}
use dsm_decentralized_state.Base.Map
use dsm_decentralized_state.Base.Result.{ok, err, Error, crypto}
use dsm_decentralized_state.Token.Balance.{le_bytes}
use dsm_decentralized_state.State.Operation.{Bytes, Text, genesis}
use dsm_decentralized_state.State.Model.{State, Primitives, Sized}
use dsm_decentralized_state.Vault.{
  FulfillmentMechanism, FulfillmentProof, LimboVault, Cryptography, limbo, unlocked, claimed,
  crypto_condition, crypto_condition_proof, all_of, any_of, mechanism, no_mechanism, compound_proof,
  proof, no_proof,
}
use dsm_decentralized_state.Vault.Fulfill.{
  verify_fulfillment, verify_condition, verify_crypto_condition, first_true, mechanism_count,
  proof_count,
}
use dsm_decentralized_state.Vault.Operations.{
  VaultRequest, unlock, claim, verify, vault_parameters, parameters, vault_id_of,
}
use dsm_decentralized_state.Vault.Post.{to_vault_post, from_vault_post}
use dsm_decentralized_state.Vault.Manager.{
  DlvManager, create_vault, get_vault, new_manager, try_unlock_vault, claim_vault_content,
}
use dsm_decentralized_state.Vault.Conditions.{Fulfilled}
use dsm_decentralized_state.Vault.Complete.{verify_fulfillment_iff}
use dsm_decentralized_state.Vault.Lifecycle.{in_state}
use dsm_decentralized_state.Vault.History.{
  Reaches, here, then_step, unlocking, claiming, Justified, Reaches-Justified, rank, Reaches-rank,
}
use dsm_decentralized_state.Vault.Claims.{CanClaim, claim-fails}
use dsm_decentralized_state.Vault.Integrity.{
  Fresh, IsKeypair, altered, from_vault_post-to_vault_post, from_vault_post-altered,
}
use dsm_decentralized_state.Vault.Managed.{
  create_vault_lem, Calls, no_call, then_call, unlock_call, claim_call, Calls-Follows,
}

-- The hash is the sum of the bytes, and zeros.
abbrev sum : List ℕ → ℕ
sum [] = 0
sum (x ∷ xs) = x + sum xs

abbrev toy : Primitives
toy = record {
  blake3 = λ (xs : List ℕ). sum xs ∷ replicate 31 0;
  serialize_operation = λ o. 1 ∷ [];
  serialize_commitment = λ f. 2 ∷ [];
  serialize_balance = λ b. 3 ∷ [];
}

toy-Sized : Sized toy
toy-Sized x = refl

-- Two of three conditions have the solution 5.
abbrev five : FulfillmentMechanism
five = crypto_condition (5 ∷ replicate 31 0) []

abbrev six : FulfillmentMechanism
six = crypto_condition (6 ∷ replicate 31 0) []

abbrev solve : ℕ → FulfillmentProof
solve n = crypto_condition_proof (n ∷ []) []

abbrev both : FulfillmentMechanism
both =
    all_of (
      mechanism five
        (mechanism (any_of (mechanism five (mechanism six no_mechanism))) no_mechanism))

abbrev both_solved : FulfillmentProof
both_solved =
    compound_proof (
      proof (solve 5)
        (proof (compound_proof (proof (solve 7) (proof (solve 6) no_proof))) no_proof))

abbrev vault : LimboVault
vault = record {
  id = 1 ∷ [];
  created_at_state = 3;
  creator_public_key = 2 ∷ [];
  fulfillment_condition = both;
  intended_recipient = none;
  state = limbo;
  content_type = [];
  encrypted_content = record { encapsulated_key = []; encrypted_data = []; nonce = []; aad = [] };
  content_commitment = [];
  parameters_hash = 6 ∷ replicate 31 0;
  creator_signature = 4 ∷ [];
  verification_positions = [];
  reference_state_hash = [];
}

-- Signing gives 4, and only 4 verifies; a secret key has 1632 bytes. Every text of bytes decodes to
-- the vault `v`.
abbrev crypto_with : LimboVault → Cryptography
crypto_with v = record {
  serialize_condition = λ m. [];
  serialize_proof = λ q. [];
  serialize_vault = λ w. [];
  deserialize_vault = λ x. some v;
  hex_encode = λ x. x;
  hex_decode = λ x. some x;
  is_secret_key = λ sk. false;
  is_ciphertext = λ x. true;
  decapsulate = λ x sk. [];
  sphincs_sign = λ sk d. ok (4 ∷ []);
  sphincs_verify = λ pk d sig. ok (list_beq sig (4 ∷ []));
  kyber_encapsulate = λ coins pk. ok ([], []);
  aes_encrypt = λ key nonce d. ok d;
  aes_decrypt = λ key nonce d. ok d;
  commit = λ coins d. ok [];
}

abbrev plain : Cryptography
plain = crypto_with vault

abbrev reference : State
reference = record {
  id = [];
  state_number = 7;
  entropy = [];
  hash = 8 ∷ [];
  prev_state_hash = [];
  sparse_index = [];
  operation = genesis;
  encapsulated_entropy = none;
  device_info = record { device_id = []; public_key = [] };
  token_balances = [];
  forward_commitment = none;
  state_type = [];
}

vault_verifies : verify toy plain vault ≡ ok true
unfolding verify vault_parameters parameters le_bytes
vault_verifies = refl

both_accepted : verify_fulfillment toy plain reference both_solved vault ≡ ok true
unfolding verify_fulfillment verify_condition mechanism_count proof_count first_true
    verify_crypto_condition
both_accepted = refl

verify_fulfillment_iff_example :
    ((b : Bool) × (verify_fulfillment toy plain reference both_solved vault ≡ ok b))
    × ((verify_fulfillment toy plain reference both_solved vault ≡ ok true)
        ↔ Fulfilled toy plain reference both both_solved)
verify_fulfillment_iff_example =
    verify_fulfillment_iff toy plain reference (λ key d sig. (list_beq sig (4 ∷ []), refl))
      both_solved vault

abbrev two_keys : List Bytes
two_keys = (1 ∷ []) ∷ (2 ∷ []) ∷ []

abbrev opened : LimboVault
opened = (unlock toy plain both_solved [] reference vault).0

abbrev taken : LimboVault
taken = (claim toy plain [] reference opened).0

past : Reaches toy plain vault taken
past =
    then_step (then_step here (unlocking both_solved [] reference vault))
      (claiming [] reference opened)

Reaches-rank_example : rank vault.state ≤ rank taken.state
Reaches-rank_example = Reaches-rank toy plain past

Reaches-Justified_example :
    (taken ≡ in_state taken.state vault) × Justified toy plain vault taken.state
Reaches-Justified_example = Reaches-Justified toy plain past refl

abbrev unlocked_vault : LimboVault
unlocked_vault = in_state (unlocked 7 both_solved) vault

claim-fails_example :
    ((CanClaim toy plain reference unlocked_vault unlocked_vault.state → ⊥)
      × ((claim toy plain (9 ∷ []) reference unlocked_vault).0 ≡ unlocked_vault)
      × (e : Error) × ((claim toy plain (9 ∷ []) reference unlocked_vault).1 ≡ err e))
    ⊎ ((claim_proof : Bytes) × CanClaim toy plain reference unlocked_vault unlocked_vault.state
        × (claim toy plain (9 ∷ []) reference unlocked_vault
            ≡ (in_state (claimed 7 (9 ∷ []) claim_proof) unlocked_vault, err crypto)))
claim-fails_example =
    claim-fails toy plain toy-Sized (λ sk h. cc h) (9 ∷ []) reference unlocked_vault

from_vault_post-to_vault_post_example :
    from_vault_post plain (to_vault_post plain 100 [] (some 50) vault) ≡ ok vault
from_vault_post-to_vault_post_example =
    from_vault_post-to_vault_post toy plain 100 [] (some 50) vault refl refl vault_verifies

abbrev stolen : LimboVault
stolen = altered five (some (66 ∷ [])) limbo vault

from_vault_post-altered_example :
    from_vault_post
      (crypto_with stolen)
      (record (to_vault_post (crypto_with stolen) 100 [] none vault) {
        vault_data = (crypto_with stolen).serialize_vault stolen;
      })
    ≡ ok stolen
unfolding verify vault_parameters parameters le_bytes
from_vault_post-altered_example =
    from_vault_post-altered toy (crypto_with stolen) 100 [] none vault five (some (66 ∷ [])) limbo
      refl refl refl

abbrev request : VaultRequest
request = record {
  public_key = 2 ∷ [];
  private_key = 3 ∷ [];
  fulfillment_condition = five;
  content = 1 ∷ [];
  content_type = [];
  intended_recipient = none;
  kyber_coins = [];
  commit_coins = [];
}

keypair : IsKeypair toy plain (2 ∷ []) (3 ∷ [])
keypair d sig signed = let same : 4 ∷ [] ≡ sig = cc signed in rw (← same) refl

create_vault_lem_example :
    (((e : Error) × (create_vault toy plain request reference new_manager ≡ (new_manager, err e)))
      ⊎ ((m : DlvManager) × (v : LimboVault) × (create_vault toy plain request reference new_manager
            ≡ (m, ok (vault_id_of toy plain request 7)))
          × Fresh toy plain request (vault_id_of toy plain request 7) v
          × ((j : Text)
              → get_vault j m ≡ (
                  if list_beq (vault_id_of toy plain request 7) j
                  then ok v
                  else get_vault j new_manager))))
    × ((condition : FulfillmentMechanism) (recipient : Option Bytes)
        → vault_id_of toy plain
            (record request { fulfillment_condition = condition; intended_recipient = recipient })
            7
          ≡ vault_id_of toy plain request 7)
create_vault_lem_example = create_vault_lem toy plain request reference new_manager keypair

abbrev with_one : DlvManager
with_one = record { vaults = ((1 ∷ []), vault) ∷ [] }

abbrev after_unlock : DlvManager
after_unlock = (try_unlock_vault toy plain (1 ∷ []) both_solved [] reference with_one).0

calls :
    Calls toy plain with_one (claim_vault_content toy plain (1 ∷ []) [] reference after_unlock).0
calls =
    then_call (then_call no_call (unlock_call (1 ∷ []) both_solved [] reference with_one))
      (claim_call (1 ∷ []) [] reference after_unlock)

Calls-Follows_example :
    (w : LimboVault) × (get_vault
        (1 ∷ [])
        (claim_vault_content toy plain (1 ∷ []) [] reference after_unlock).0
      ≡ ok w)
    × Reaches toy plain vault w
unfolding get_vault Map.get
Calls-Follows_example = Calls-Follows toy plain calls (1 ∷ []) vault refl
