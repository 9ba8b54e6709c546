-- ===== src/Merkle/Plain.antt =====
-- `MerkleTree` (dsm/src/merkle/tree.rs). A node has two children or none, the only shapes that
-- `rebuild` makes. The `while` loops take the number of nodes of the first level as fuel.
pub mod RoundTrip
pub mod Odd
mod Tests
use dsm_decentralized_state.Base.{
  ℕ, zero, suc, ◌+◌, ◌-◌, ◌/◌, ◌%◌, Bool, Option, none, some, List, [], ◌∷◌, ◌++◌, map, length,
  get_or, take, leb, ltb, nat_beq, if◌then◌else◌, ◌==◌, nat_eq, list_eq,
}
use dsm_decentralized_state.Merkle.Hash.{Hash, zero_hash}

pub data MerkleNode : Type 0 where
  leaf : Hash → MerkleNode
  branch : Hash → MerkleNode → MerkleNode → MerkleNode

pub record MerkleTree : Type 0 where
  pub root : Option MerkleNode
  pub leaves : List Hash

pub record MerkleProof : Type 0 where
  pub path : List Hash
  pub leaf_index : ℕ

-- the field `hash`
abbrev pub node_hash : MerkleNode → Hash
node_hash (leaf h) = h
node_hash (branch h left right) = h

abbrev pub new_empty : MerkleTree
new_empty = record { root = none; leaves = [] }

-- `current_level.remove(0)`; the level is empty only if the tree has no leaf
abbrev pub first_node : List MerkleNode → Option MerkleNode
first_node [] = none
first_node (x ∷ rest) = some x

-- the sibling that is pushed, the last hash where there is none
abbrev pub sibling : List Hash → ℕ → Hash
sibling level_nodes i =
    let sibling_index = if nat_beq (i % 2) 0 then i + 1 else i - 1 in
    if leb (length level_nodes) sibling_index
    then get_or level_nodes (length level_nodes - 1) zero_hash
    else get_or level_nodes sibling_index zero_hash

module _ (blake3 : List ℕ → Hash) where
  pub combine_hashes : Hash → Hash → Hash
  combine_hashes left right = blake3 (left ++ right)

  -- The 32 bytes that `add_leaf` and `MerkleProof::verify` take from a leaf: its first 32 bytes, or
  -- the hash of a leaf that is shorter.
  pub to_digest : List ℕ → Hash
  to_digest leaf_hash = if leb 32 (length leaf_hash) then take 32 leaf_hash else blake3 leaf_hash

  -- One round of `rebuild`: neighbours are hashed together, and an odd node is promoted.
  pub next_level : List MerkleNode → List MerkleNode
  unfolding combine_hashes
  next_level [] = []
  next_level (x ∷ []) = x ∷ []
  next_level (x ∷ y ∷ rest) =
      branch (combine_hashes (node_hash x) (node_hash y)) x y ∷ next_level rest

  -- `while current_level.len() > 1`
  pub build_levels : ℕ → List MerkleNode → List MerkleNode
  unfolding next_level
  build_levels zero current_level = current_level
  build_levels (suc fuel) current_level =
      let more = build_levels fuel (next_level current_level) in
      if ltb 1 (length current_level) then more else current_level

  pub rebuild : MerkleTree → MerkleTree
  unfolding build_levels
  rebuild t = record t { root = first_node (build_levels (length t.leaves) (map leaf t.leaves)) }

  pub add_leaf : List ℕ → MerkleTree → MerkleTree
  unfolding rebuild to_digest
  add_leaf leaf_hash t = rebuild (record t { leaves = t.leaves ++ to_digest leaf_hash ∷ [] })

  -- the loop of `new`
  add_leaves : List (List ℕ) → MerkleTree → MerkleTree
  add_leaves [] t = t
  add_leaves (l ∷ rest) t = add_leaves rest (add_leaf l t)

  pub new : List (List ℕ) → MerkleTree
  unfolding add_leaves
  new leaves = add_leaves leaves new_empty

  -- One round of `generate_proof`: here an odd hash is combined with itself.
  pub parent_level : List Hash → List Hash
  unfolding combine_hashes
  parent_level [] = []
  parent_level (x ∷ []) = combine_hashes x x ∷ []
  parent_level (x ∷ y ∷ rest) = combine_hashes x y ∷ parent_level rest

  -- `while level_nodes.len() > 1`
  pub proof_path : ℕ → List Hash → ℕ → List Hash
  unfolding parent_level
  proof_path zero level_nodes i = []
  proof_path (suc fuel) level_nodes i =
      let more = sibling level_nodes i ∷ proof_path fuel (parent_level level_nodes) (i / 2) in
      if ltb 1 (length level_nodes) then more else []

  pub generate_proof : ℕ → MerkleTree → MerkleProof
  unfolding proof_path
  generate_proof leaf_index t =
      if leb (length t.leaves) leaf_index
      then record { path = []; leaf_index = leaf_index }
      else record {
        path = proof_path (length t.leaves) t.leaves leaf_index;
        leaf_index = leaf_index;
      }

  -- the loop of `verify_proof`
  pub climb : List Hash → ℕ → Hash → Hash
  unfolding combine_hashes
  climb [] i current = current
  climb (s ∷ path) i current =
      climb path (i / 2)
        (if nat_beq (i % 2) 0 then combine_hashes current s else combine_hashes s current)

  pub verify_proof : Hash → Hash → List Hash → ℕ → Bool
  unfolding climb
  verify_proof root_hash leaf_hash path leaf_index = climb path leaf_index leaf_hash == root_hash

  -- `MerkleProof::verify`
  pub verify : MerkleProof → List ℕ → List ℕ → Bool
  unfolding verify_proof to_digest
  verify proof root_hash leaf_hash =
      verify_proof (to_digest root_hash) (to_digest leaf_hash) proof.path proof.leaf_index

abbrev pub hash_of : Option MerkleNode → Option Hash
hash_of none = none
hash_of (some n) = some (node_hash n)

abbrev pub root_hash : MerkleTree → Option Hash
root_hash t = hash_of t.root
