-- ===== src/State/Operation.antt =====
-- `Operation` and its parts (dsm/src/types/operations.rs). A byte string is a list of numbers, and
-- a text is the list of its UTF-8 bytes.
use dsm_decentralized_state.Base.{ℕ, Bool, true, false, Option, List, ltb}
use dsm_decentralized_state.Base.Map.{Map}
use dsm_decentralized_state.Base.Result.{Result, ok}
use dsm_decentralized_state.Token.Balance.{Balance}

abbrev pub Bytes : Type 0
Bytes = List ℕ

-- A `String`.
abbrev pub Text : Type 0
Text = List ℕ

-- An `i64`, or an `i32`: `negsuc n` is -(n + 1).
pub data I64 : Type 0 where
  pos negsuc : ℕ → I64

pub data TransactionMode : Type 0 where
  bilateral unilateral : TransactionMode

pub data VerificationType : Type 0 where
  standard enhanced bilateral_check directory standard_bilateral pre_committed
        unilateral_identity_anchor :
      VerificationType
  custom : Bytes → VerificationType

-- The field `security_params` is not serialized, and is left out.
pub record PreCommitmentOp : Type 0 where
  pub fixed_parameters : Map Text Bytes
  pub variable_parameters : List Text

pub record TransferFields : Type 0 where
  pub to_address : Text
  pub amount : Balance
  pub token_id : Text
  pub mode : TransactionMode
  pub nonce : Bytes
  pub verification : VerificationType
  pub pre_commit : Option PreCommitmentOp
  pub recipient : Text
  pub to : Text
  pub message : Text

pub record MintFields : Type 0 where
  pub amount : Balance
  pub token_id : Text
  pub authorized_by : Text
  pub proof_of_authorization : Bytes
  pub message : Text

pub record BurnFields : Type 0 where
  pub amount : Balance
  pub token_id : Text
  pub proof_of_ownership : Bytes
  pub message : Text

pub record RecoveryFields : Type 0 where
  pub message : Text
  pub state_number : ℕ
  pub state_hash : Bytes
  pub state_entropy : Bytes
  pub invalidation_data : Bytes
  pub new_state_data : Bytes
  pub new_state_number : ℕ
  pub new_state_hash : Bytes
  pub new_state_entropy : Bytes
  pub compromise_proof : Bytes
  pub authority_sigs : List Bytes

-- The fields of a variant stand in the order of the source; three variants with many fields have a
-- record of their own.
pub data Operation : Type 0 where
  genesis : Operation
  create : Text → Bytes → Bytes → Bytes → Bytes → Bytes → TransactionMode → Operation
  update : Text → Text → Bytes → Bytes → Option Bytes → Operation
  transfer : TransferFields → Operation
  mint : MintFields → Operation
  burn : BurnFields → Operation
  lock_token : Text → I64 → Text → TransactionMode → Operation
  unlock_token : Text → I64 → Text → TransactionMode → Operation
  add_relationship : Text → Text → Text → Bytes → Bytes → TransactionMode → Text → Operation
  create_relationship : Text → Text → Bytes → Bytes → TransactionMode → Operation
  remove_relationship : Text → Text → Text → Bytes → TransactionMode → Text → Operation
  recovery : RecoveryFields → Operation
  delete : Text → Bytes → TransactionMode → Text → Operation
  link : Text → Text → Bytes → TransactionMode → Operation
  unlink : Text → Bytes → TransactionMode → Operation
  invalidate : Text → Bytes → TransactionMode → Operation
  generic : Text → Bytes → Text → Operation

-- `Ops::validate`
unfoldable pub validate : Operation → Result Bool
validate (transfer t) = ok (ltb 0 t.amount.value)
validate (mint m) = ok (ltb 0 m.amount.value)
validate (burn b) = ok (ltb 0 b.amount.value)
validate _ = ok true

-- `matches!(operation, Operation::Mint { .. } | Operation::Transfer { .. })`
abbrev pub is_mint_or_transfer : Operation → Bool
is_mint_or_transfer (mint m) = true
is_mint_or_transfer (transfer t) = true
is_mint_or_transfer _ = false
