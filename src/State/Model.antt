-- ===== src/State/Model.antt =====
-- `State`, the commitment that it can carry, and the hash of a state
-- (dsm/src/types/state_types.rs). A `String` of a state is the list of its UTF-8 bytes. The fields
-- of the source's record that neither the hash nor the chain reads are left out.
pub mod Text
use dsm_decentralized_state.Base.{
  ℕ, ◌≡◌, refl, Bool, true, false, Option, none, some, List, [], ◌∷◌, ◌++◌, list_beq, nat_eq,
  length, list_beq→eq, sym, ◌∙◌,
}
use dsm_decentralized_state.Base.Map.{Map}
use dsm_decentralized_state.Merkle.Hash.{Hash, append_split}
use dsm_decentralized_state.Token.Balance.{Balance, le_bytes}
use dsm_decentralized_state.State.Operation.{Bytes, I64, Operation}
use dsm_decentralized_state.State.Model.Text.{sort_entries}

pub record DeviceInfo : Type 0 where
  pub device_id : Bytes
  pub public_key : Bytes

pub record PreCommitment : Type 0 where
  pub operation_type : Bytes
  pub fixed_parameters : Map Bytes Bytes
  pub variable_parameters : List Bytes
  pub min_state_number : ℕ
  pub hash : Bytes
  pub signatures : List Bytes
  pub entity_signature : Option Bytes
  pub counterparty_signature : Option Bytes
  pub timestamp : ℕ
  pub expires_at : Option ℕ
  pub value : List I64
  pub commitment : List I64
  pub counterparty_id : Bytes

pub record State : Type 0 where
  pub id : Bytes
  pub state_number : ℕ
  pub entropy : Bytes
  pub hash : Bytes
  pub prev_state_hash : Bytes
  pub sparse_index : List ℕ
  pub operation : Operation
  pub encapsulated_entropy : Option Bytes
  pub device_info : DeviceInfo
  pub token_balances : Map Bytes Balance
  pub forward_commitment : Option PreCommitment
  pub state_type : Bytes

-- The third-party code that a state's hash calls: BLAKE3 (the `Hasher` is fed piece by piece, which
-- hashes the pieces one after the other), and `bincode::serialize`, which fails on no value of
-- these three types.
pub record Primitives : Type 0 where
  pub blake3 : List ℕ → Hash
  pub serialize_operation : Operation → Bytes
  pub serialize_commitment : PreCommitment → Bytes
  pub serialize_balance : Balance → Bytes

-- BLAKE3's hashes have 32 bytes.
abbrev pub Sized : Primitives → Type 0
Sized p = (x : List ℕ) → length (p.blake3 x) ≡ 32

-- The stored hash unless it is empty.
computed_or : Bytes → Bytes → Bytes
computed_or [] computed = computed
computed_or (h ∷ hs) computed = h ∷ hs

computed_or_same : (h computed : Bytes) → h ≡ computed → computed_or h computed ≡ computed
unfolding computed_or
computed_or_same [] computed e = refl
computed_or_same (h ∷ hs) computed e = e

module _ (p : Primitives) where
  balances_bytes : Map Bytes Balance → Bytes
  balances_bytes [] = []
  balances_bytes ((token_id, balance) ∷ rest) =
      token_id ++ (p.serialize_balance balance ++ balances_bytes rest)

  entropy_bytes : Option Bytes → Bytes
  entropy_bytes none = []
  entropy_bytes (some enc) = enc

  commitment_bytes : Option PreCommitment → Bytes
  commitment_bytes none = []
  commitment_bytes (some fc) = p.serialize_commitment fc

  -- what follows the number and the previous hash in the input of the hash
  content_bytes : State → Bytes
  unfolding entropy_bytes commitment_bytes balances_bytes
  content_bytes s =
      s.entropy
      ++ (entropy_bytes s.encapsulated_entropy
          ++ (p.serialize_operation s.operation
              ++ (s.device_info.device_id
                  ++ (s.device_info.public_key
                      ++ (commitment_bytes s.forward_commitment
                          ++ balances_bytes (sort_entries s.token_balances))))))

  -- the input of the hash of a state
  unfoldable pub hash_input : State → Bytes
  unfolding content_bytes
  hash_input s = le_bytes 8 s.state_number ++ (s.prev_state_hash ++ content_bytes s)

  -- `State::compute_hash`
  unfoldable pub compute_hash : State → Bytes
  compute_hash s = p.blake3 (hash_input s)

  -- Neither the hash of a state nor its type goes into the input of the hash.
  pub compute_hash-set :
      (s : State) (h t : Bytes)
      → compute_hash (record s { hash = h; state_type = t }) ≡ compute_hash s
  unfolding compute_hash hash_input content_bytes
  compute_hash-set s h t = refl

  -- `State::hash`
  unfoldable pub state_hash : State → Bytes
  unfolding computed_or
  state_hash s = computed_or s.hash (compute_hash s)

  -- Two equal inputs of the hash have one previous hash in them, if it is as long in both.
  pub hash_input-prev :
      (s t : State)
      → length s.prev_state_hash ≡ length t.prev_state_hash
      → hash_input s ≡ hash_input t
      → s.prev_state_hash ≡ t.prev_state_hash
  unfolding hash_input le_bytes
  hash_input-prev s t l e =
      (append_split s.prev_state_hash t.prev_state_hash _ _ l
        (append_split (le_bytes 8 s.state_number) (le_bytes 8 t.state_number) _ _ refl e).1).0

  -- `HashChain::verify_state_hash`
  unfoldable pub verify_state_hash : State → Bool
  verify_state_hash s = list_beq (compute_hash s) s.hash

  -- A state whose hash verifies is hashed to what is computed from it.
  pub verify_state_hash-computed :
      (s : State) → verify_state_hash s ≡ true → state_hash s ≡ compute_hash s
  unfolding state_hash verify_state_hash computed_or
  verify_state_hash-computed s h =
      computed_or_same s.hash (compute_hash s) (sym (list_beq→eq (compute_hash s) s.hash h))
