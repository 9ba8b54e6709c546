-- ===== src/Merkle/Sparse.antt =====
-- `SparseMerkleTreeImpl` (dsm/src/merkle/sparse_merkle_tree.rs). `get_node_hash` cannot fail, so
-- the functions that only pass on its `Ok` return their value. Of the fields of a `MerkleProof`
-- those that `get_proof` fills with constants are left out. `1u64 << height` masks the shift to six
-- bits, as a release build does.
pub mod Insert
pub mod Proofs
pub mod Values
pub mod Binding
pub mod Again
mod Tests
use dsm_decentralized_state.Base.{
  ℕ, zero, suc, ◌+◌, ◌-◌, ◌*◌, ◌/◌, ◌%◌, ◌^◌, ◌≤◌, ◌<◌, ◌≡◌, Bool, true, false, ◌&&◌, Option, none,
  some, List, [], ◌∷◌, length, arith, ltb, leb, nat_beq, if◌then◌else◌, Eq, ◌==◌, nat_eq, list_eq,
  ◌↔◌, nat_beq_iff,
}
use dsm_decentralized_state.Base.Map
use dsm_decentralized_state.Base.Map.{Map}
use dsm_decentralized_state.Base.Result.{Result, ok, err, invalid_operation, ◌>>=◌, ◌>>◌, fail_if}
use dsm_decentralized_state.Merkle.Hash.{Hash, zero_hash, hash_leaf, hash_node}

pub record NodeId : Type 0 where
  pub level : ℕ
  pub index : ℕ

pub node_id_beq_iff :
    (a b : NodeId) → ((nat_beq a.level b.level && nat_beq a.index b.index) ≡ true) ↔ (a ≡ b)
node_id_beq_iff a b = ground arith

instance abbrev pub node_id_eq : Eq NodeId
node_id_eq = record {
  beq = λ a b. nat_beq a.level b.level && nat_beq a.index b.index;
  beq_iff = node_id_beq_iff;
}

abbrev pub Nodes : Type 0
Nodes = Map NodeId Hash

pub record SparseMerkleTreeImpl : Type 0 where
  pub root : Hash
  pub leaves : Map ℕ Hash
  pub nodes : Nodes
  pub height : ℕ
  pub leaf_count : ℕ

pub record MerkleProof : Type 0 where
  pub path : List Hash
  pub index : ℕ
  pub leaf_hash : Hash
  pub root_hash : Hash
  pub height : ℕ
  pub leaf_count : ℕ

unfoldable pub new : ℕ → SparseMerkleTreeImpl
new height = record {
  root = zero_hash;
  leaves = [];
  nodes = Map.insert (record { level = height; index = 0 }) zero_hash [];
  height = height;
  leaf_count = 0;
}

abbrev pub or_zero_hash : Option Hash → Hash
or_zero_hash none = zero_hash
or_zero_hash (some h) = h

-- The entry of a node, if there is one.
abbrev pub entry : Nodes → ℕ → ℕ → Option Hash
entry nodes level index = Map.get (record { level = level; index = index }) nodes

-- `get_node_hash`: a node that was never written has the zero hash
abbrev pub get_node_hash : Nodes → ℕ → ℕ → Hash
get_node_hash nodes level index = or_zero_hash (entry nodes level index)

-- `index ^ 1`
abbrev pub sibling_index : ℕ → ℕ
sibling_index index = if nat_beq (index % 2) 0 then index + 1 else index - 1

-- `1u64 << self.height`
abbrev pub max_leaves : ℕ → ℕ
max_leaves height = 2 ^ (height % 64)

module _ (blake3 : List ℕ → Hash) where
  -- The parent of a node with hash `current` at `index`, whose sibling has hash `sibling`.
  abbrev pub parent_hash : ℕ → Hash → Hash → Hash
  parent_hash index current sibling =
      if nat_beq (index % 2) 0
      then hash_node blake3 current sibling
      else hash_node blake3 sibling current

  -- The loop of `update_path`, with `rounds` levels to go.
  unfoldable pub update_levels : ℕ → ℕ → ℕ → Nodes → Nodes
  update_levels zero level current_index nodes = nodes
  update_levels (suc rounds) level current_index nodes =
      let current = get_node_hash nodes level current_index in
      let sibling = get_node_hash nodes level (sibling_index current_index) in
      let parent_index = current_index / 2 in
      update_levels rounds (level + 1) parent_index (
        Map.insert (record { level = level + 1; index = parent_index })
          (parent_hash current_index current sibling) nodes)

  unfoldable pub update_path : ℕ → SparseMerkleTreeImpl → SparseMerkleTreeImpl
  unfolding update_levels
  update_path leaf_index t =
      let nodes = update_levels t.height 0 leaf_index t.nodes in
      record t { nodes = nodes; root = get_node_hash nodes t.height 0 }

  -- The writes of `insert` when the index is within the capacity.
  unfoldable pub store_leaf : ℕ → List ℕ → SparseMerkleTreeImpl → SparseMerkleTreeImpl
  unfolding update_path
  store_leaf index value t =
      let leaf = hash_leaf blake3 value in
      let updated = update_path index (record t {
        leaves = Map.insert index leaf t.leaves;
        nodes = Map.insert (record { level = 0; index = index }) leaf t.nodes;
      }) in
      record updated {
        leaf_count = if ltb updated.leaf_count (index + 1) then index + 1 else updated.leaf_count;
      }

  unfoldable pub insert : ℕ → List ℕ → SparseMerkleTreeImpl → Result SparseMerkleTreeImpl
  unfolding store_leaf
  insert index value t =
      if leb (max_leaves t.height) index
      then err invalid_operation
      else ok (store_leaf index value t)

  -- The loop of `verify_proof`.
  pub fold_path : List Hash → ℕ → Hash → Hash
  fold_path [] current_index computed = computed
  fold_path (sibling ∷ path) current_index computed =
      fold_path path (current_index / 2) (parent_hash current_index computed sibling)

  pub verify_proof : Hash → List ℕ → MerkleProof → Bool
  unfolding fold_path
  verify_proof root_hash value proof =
      fold_path proof.path proof.index (hash_leaf blake3 value) == root_hash

-- The loop of `get_proof`.
pub sibling_path : ℕ → ℕ → ℕ → Nodes → List Hash
sibling_path zero level current_index nodes = []
sibling_path (suc rounds) level current_index nodes =
    get_node_hash nodes level (sibling_index current_index)
    ∷ sibling_path rounds (level + 1) (current_index / 2) nodes

pub get_proof : ℕ → SparseMerkleTreeImpl → Result MerkleProof
unfolding sibling_path
get_proof index t =
    if leb (max_leaves t.height) index
    then err invalid_operation
    else ok (record {
      path = sibling_path t.height 0 index t.nodes;
      index = index;
      leaf_hash = get_node_hash t.nodes 0 index;
      root_hash = t.root;
      height = t.height;
      leaf_count = t.leaf_count;
    })

pub get_leaf : ℕ → SparseMerkleTreeImpl → Option Hash
get_leaf index t = Map.get index t.leaves

module _ (blake3 : List ℕ → Hash) where
  -- the loop of `from_values`, from the index `idx`
  unfoldable pub insert_all : ℕ → List (List ℕ) → SparseMerkleTreeImpl → Result SparseMerkleTreeImpl
  insert_all idx [] t = ok t
  insert_all idx (value ∷ values) t =
      insert blake3 idx value t >>= λ t'. insert_all (idx + 1) values t'

  -- `log2_ceil` is `(len as f64).log2().ceil() as u32`, whose logarithm is the library's.
  pub from_values : (ℕ → ℕ) → List (List ℕ) → Result SparseMerkleTreeImpl
  unfolding insert_all
  from_values log2_ceil values = insert_all 0 values (new (log2_ceil (length values)))
