-- ===== src/Batches.antt =====
-- `BatchCommitment`, `StateBatch` and `BatchBuilder` (dsm/src/core/state_machine/batch.rs). Of a
-- `ForwardLinkedCommitment` (dsm/src/commitments/precommit.rs) the fields that a batch reads are
-- kept. `bincode::serialize` fails on no value of the types here.
pub mod Manager
pub mod Sound
pub mod Chained
pub mod Hashes
mod Tests
use dsm_decentralized_state.Base.{
  ℕ, Bool, true, false, ◌&&◌, Option, none, some, List, [], ◌∷◌, ◌++◌, map, length, replicate, ltb,
  if◌then◌else◌, list_beq, nat_eq,
}
use dsm_decentralized_state.Base.Result.{Result, ok, err, ◌>>=◌}
use dsm_decentralized_state.Merkle.Sparse
use dsm_decentralized_state.Merkle.Sparse.{SparseMerkleTreeImpl, MerkleProof, insert, insert_all}
use dsm_decentralized_state.State.Operation.{Bytes}
use dsm_decentralized_state.State.Model.{Primitives}
use dsm_decentralized_state.Token.Balance.{le_bytes}
use dsm_decentralized_state.Chain.{StateTransition}

pub record BatchCommitment : Type 0 where
  pub transition_index : ℕ
  pub commitment_hash : Bytes
  pub signatures : List Bytes
  pub public_keys : List Bytes

pub record ForwardLinkedCommitment : Type 0 where
  pub commitment_hash : Bytes
  pub entity_signature : Option Bytes
  pub counterparty_signature : Option Bytes

pub record StateBatch : Type 0 where
  pub batch_number : ℕ
  pub prev_state_hash : Bytes
  pub transitions_root : Bytes
  pub transition_count : ℕ
  pub time_range : ℕ × ℕ
  pub commitments : List BatchCommitment
  pub forward_commitment : Option ForwardLinkedCommitment
  pub cached_hash : Option Bytes
  pub transition_indices : List ℕ

-- What `bincode` makes of transitions, commitments and proofs, and `(len as f64).log2().ceil()` as a
-- `u32`.
pub record Codec : Type 0 where
  pub serialize_transition : StateTransition → Bytes
  pub serialize_commitment : BatchCommitment → Bytes
  pub serialize_proof : MerkleProof → Bytes
  pub log2_ceil : ℕ → ℕ

-- `vec![0u8; 32]`
abbrev pub zeros : Bytes
zeros = replicate 32 0

-- `StateBatch::new`
unfoldable pub new_batch :
    ℕ
    → Bytes
    → Bytes
    → ℕ
    → ℕ × ℕ
    → List BatchCommitment
    → Option ForwardLinkedCommitment
    → StateBatch
new_batch number prev root count range commitments forward = record {
  batch_number = number;
  prev_state_hash = prev;
  transitions_root = root;
  transition_count = count;
  time_range = range;
  commitments = commitments;
  forward_commitment = forward;
  cached_hash = none;
  transition_indices = [];
}

abbrev pub signature_bytes : Option Bytes → Bytes
signature_bytes none = []
signature_bytes (some sig) = sig

abbrev pub forward_bytes : Option ForwardLinkedCommitment → Bytes
forward_bytes none = []
forward_bytes (some fc) =
    fc.commitment_hash
    ++ (signature_bytes fc.entity_signature ++ signature_bytes fc.counterparty_signature)

-- `with_forward_commitment`
unfoldable pub with_forward_commitment : ForwardLinkedCommitment → StateBatch → StateBatch
with_forward_commitment commitment b = record b {
  forward_commitment = some commitment;
  cached_hash = none;
}

-- `StateBatch::add_commitment`
unfoldable pub add_commitment : BatchCommitment → StateBatch → StateBatch
add_commitment commitment b = record b {
  commitments = b.commitments ++ commitment ∷ [];
  cached_hash = none;
}

pub record BatchBuilder : Type 0 where
  pub batch_number : ℕ
  pub prev_state_hash : Bytes
  pub transitions : List StateTransition
  pub commitments : List BatchCommitment
  pub tree : Option SparseMerkleTreeImpl

abbrev pub or_zeros : Bytes → Bytes
or_zeros [] = zeros
or_zeros (b ∷ bs) = b ∷ bs

-- `BatchBuilder::new`
unfoldable pub new_builder : ℕ → Bytes → BatchBuilder
new_builder number prev = record {
  batch_number = number;
  prev_state_hash = or_zeros prev;
  transitions = [];
  commitments = [];
  tree = none;
}

abbrev pub or_tree : Option SparseMerkleTreeImpl → ℕ → SparseMerkleTreeImpl
or_tree none height = Sparse.new height
or_tree (some t) height = t

-- `iter().map(|t| t.timestamp).min()` and `.max()`, from the first one on
abbrev pub earliest : ℕ → List StateTransition → ℕ
earliest best [] = best
earliest best (t ∷ ts) = earliest (if ltb t.timestamp best then t.timestamp else best) ts

abbrev pub latest : ℕ → List StateTransition → ℕ
latest best [] = best
latest best (t ∷ ts) = latest (if ltb best t.timestamp then t.timestamp else best) ts

module _ (p : Primitives) (codec : Codec) where
  commitments_bytes : List BatchCommitment → Bytes
  commitments_bytes [] = []
  commitments_bytes (c ∷ cs) = codec.serialize_commitment c ++ commitments_bytes cs

  -- what the `Hasher` of a batch is fed
  unfoldable pub batch_bytes : StateBatch → Bytes
  unfolding commitments_bytes
  batch_bytes b =
      le_bytes 8 b.batch_number
      ++ (b.prev_state_hash
          ++ (b.transitions_root
              ++ (le_bytes 8 b.transition_count
                  ++ (le_bytes 8 b.time_range.0
                      ++ (le_bytes 8 b.time_range.1
                          ++ (commitments_bytes b.commitments
                              ++ forward_bytes b.forward_commitment))))))

  -- `StateBatch::hash` leaves a batch and returns the hash.
  unfoldable pub hash : StateBatch → StateBatch × Bytes
  hash b = elim b.cached_hash [
    | some h ↦ (b, h)
    | none ↦ let h = p.blake3 (batch_bytes b) in (record b { cached_hash = some h }, h)
  ]

  -- The loop of `StateBatch::verify` over the commitments.
  abbrev pub commitments_match : Bytes → List BatchCommitment → Bool
  commitments_match root [] = true
  commitments_match root (c ∷ cs) =
      list_beq (codec.serialize_commitment c) root && commitments_match root cs

  abbrev pub forward_matches : Bytes → Option ForwardLinkedCommitment → Bool
  forward_matches root none = true
  forward_matches root (some fc) = list_beq fc.commitment_hash root

  -- `StateBatch::verify`
  unfoldable pub verify : Bytes → StateBatch → StateBatch × Bool
  verify prev b =
      if list_beq b.prev_state_hash prev
        && list_beq (p.blake3 (batch_bytes b)) b.transitions_root
        && commitments_match b.transitions_root b.commitments
        && forward_matches b.transitions_root b.forward_commitment
      then (record b { cached_hash = none }, true)
      else (b, false)

  -- `BatchBuilder::add_transition` leaves a builder, whether it succeeds or not.
  unfoldable pub push_transition : StateTransition → BatchBuilder → BatchBuilder × Result (Unit {0})
  push_transition t b =
      let tree = or_tree b.tree 16 in
      elim (insert p.blake3 (length b.transitions) (codec.serialize_transition t) tree) [
        | err e ↦ (record b { tree = some tree }, err e)
        | ok tree' ↦ (record b { tree = some tree'; transitions = b.transitions ++ t ∷ [] }, ok tt)
      ]

  -- `BatchBuilder::build`, by the transitions
  unfoldable pub build_from : List StateTransition → BatchBuilder → Result StateBatch
  build_from [] b =
      ok (new_batch b.batch_number b.prev_state_hash zeros 0 (0, 0) b.commitments none)
  build_from (t ∷ ts) b =
      insert_all p.blake3 0 (map codec.serialize_transition (t ∷ ts))
        (or_tree b.tree (codec.log2_ceil (length (t ∷ ts))))
      >>= λ tree. ok (
          new_batch b.batch_number b.prev_state_hash tree.root (length (t ∷ ts))
            (earliest t.timestamp ts, latest t.timestamp ts) b.commitments none)

  unfoldable pub build : BatchBuilder → Result StateBatch
  unfolding build_from
  build b = build_from b.transitions b

-- `BatchBuilder::add_commitment`
unfoldable pub push_commitment : BatchCommitment → BatchBuilder → BatchBuilder
push_commitment commitment b = record b { commitments = b.commitments ++ commitment ∷ [] }
