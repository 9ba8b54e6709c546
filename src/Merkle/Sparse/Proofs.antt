-- ===== src/Merkle/Sparse/Proofs.antt =====
-- The inclusion proofs of a sparse tree: `get_proof` and `verify_proof` fit together, and a proof
-- binds the value that it is for.
use Prim.Native.Nat.{max}
use mathlib.Core.Path.{subst}
use native.Mathlib.Nat.{pow-suc, pow-le-pow_right}
use dsm_decentralized_state.Base.{
  ℕ, zero, suc, ◌+◌, ◌/◌, ◌^◌, ◌≤◌, ◌<◌, ◌≡◌, refl, ap, ◌∙◌, sym, true, some, List, arith, nat_beq,
  nat_eq, list_eq, if◌then◌else◌, ◌⊎◌, inl, inr, leb, leb→le, Bool-cases,
}
use dsm_decentralized_state.Base.Map
use dsm_decentralized_state.Base.Map.{get-insert}
use dsm_decentralized_state.Base.Result.{ok, err, invalid_operation}
use dsm_decentralized_state.Merkle.Hash.{Hash, hash_leaf}
use dsm_decentralized_state.Merkle.Sparse.{
  Nodes, node_id_eq, SparseMerkleTreeImpl, MerkleProof, entry, get_node_hash, or_zero_hash,
  sibling_index, parent_hash, update_path, store_leaf, insert, new, get_leaf, fold_path,
  verify_proof, sibling_path, get_proof, max_leaves,
}
use dsm_decentralized_state.Merkle.Sparse.Insert.{
  AllHashed, IsValid, IsSome, parent_hash-eq-pair_hash, store_leaf-IsValid,
}

-- A tree that was just made satisfies the invariant.
pub new-IsValid : (blake3 : List ℕ → Hash) (height : ℕ) → IsValid blake3 (new height)
unfolding new Map.get Map.insert
new-IsValid blake3 height = record {
  hashed = λ l j lt present. absurd (ground arith);
  rooted = ground arith;
  stored = λ j h e. cc;
}

module _ (blake3 : List ℕ → Hash) where
  climb :
      (rounds level index height : ℕ) (nodes : Nodes)
      → level + rounds ≡ height
      → AllHashed blake3 height (entry nodes)
      → IsSome (entry nodes level index)
      → index < 2 ^ rounds
      → fold_path blake3
          (sibling_path rounds level index nodes)
          index
          (get_node_hash nodes level index)
        ≡ get_node_hash nodes height 0
  unfolding fold_path sibling_path
  climb zero level index height nodes e h present lt =
      let el : level ≡ height = omega arith in let ei : index ≡ 0 = omega arith in rw (el, ei)
  climb (suc rounds) level index height nodes e h present lt =
      let above : index / 2 < 2 ^ rounds = omega (arith, pow-suc 2 rounds) in
      let there = h level index (omega arith) present in
      let is_parent : parent_hash blake3 index (get_node_hash nodes level index)
            (get_node_hash nodes level (sibling_index index))
          ≡ get_node_hash nodes (level + 1) (index / 2) =
        parent_hash-eq-pair_hash blake3 (entry nodes) level index ∙ sym (ap or_zero_hash there) in
      ap (fold_path blake3 (sibling_path rounds (level + 1) (index / 2) nodes) (index / 2))
        is_parent
      ∙ climb rounds (level + 1) (index / 2) height nodes (omega arith) h
          (subst IsSome (sym there) tt) above

  capacity-le : (height : ℕ) → max_leaves height ≤ 2 ^ height
  capacity-le height = pow-le-pow_right (omega arith) (omega arith)

  -- In a valid tree the proof of a leaf that is stored at an index within the capacity verifies:
  -- `get_proof` at the index succeeds, and `verify_proof` accepts the proof for the value of the
  -- leaf and the root of the tree.
  pub verify_proof-get_proof :
      (t : SparseMerkleTreeImpl) (index : ℕ) (value : List ℕ)
      → IsValid blake3 t
      → index < max_leaves t.height
      → get_leaf index t ≡ some (hash_leaf blake3 value)
      → (proof : MerkleProof) × (get_proof index t ≡ ok proof)
        × (verify_proof blake3 t.root value proof ≡ true)
  unfolding get_proof verify_proof get_leaf
  verify_proof-get_proof t index value v lt leaf = (
    record {
      path = sibling_path t.height 0 index t.nodes;
      index = index;
      leaf_hash = get_node_hash t.nodes 0 index;
      root_hash = t.root;
      height = t.height;
      leaf_count = t.leaf_count;
    },
    ground arith,
    (list_eq.beq_iff _ _).1 computed,
  )
    where
      stored : entry t.nodes 0 index ≡ some (hash_leaf blake3 value)
      stored = v.stored index _ leaf

      computed :
          fold_path blake3 (sibling_path t.height 0 index t.nodes) index (hash_leaf blake3 value)
          ≡ t.root
      computed =
          ap (fold_path blake3 (sibling_path t.height 0 index t.nodes) index)
            (sym (ap or_zero_hash stored))
          ∙ climb t.height 0 index t.height t.nodes (omega arith) v.hashed
              (subst IsSome (sym stored) tt) (omega (arith, capacity-le t.height))
          ∙ sym v.rooted

  -- What `insert` promises of the tree that it returns.
  pub record Inserted (index : ℕ) (value : List ℕ) (t t' : SparseMerkleTreeImpl) : Type 0 where
    pub valid : IsValid blake3 t'
    pub height_kept : t'.height ≡ t.height
    pub leaf_at :
        (j : ℕ)
        → get_leaf j t' ≡ (if nat_beq index j then some (hash_leaf blake3 value) else get_leaf j t)
    pub counted : t'.leaf_count ≡ max t.leaf_count (index + 1)

  -- An insertion into a valid tree at an index beyond the capacity is refused; any other gives a
  -- valid tree of the same height, changes exactly the leaf at the index, and raises the leaf count
  -- to include it.
  pub insert_lem :
      (index : ℕ) (value : List ℕ) (t : SparseMerkleTreeImpl)
      → IsValid blake3 t
      → ((max_leaves t.height ≤ index) × (insert blake3 index value t ≡ err invalid_operation))
        ⊎ ((t' : SparseMerkleTreeImpl) × (index < max_leaves t.height)
            × (insert blake3 index value t ≡ ok t')
            × Inserted index value t t')
  unfolding insert
  insert_lem index value t v = elim (Bool-cases (leb (max_leaves t.height) index)) [
    | inl beyond ↦ inl (leb→le _ _ beyond, rw beyond)
    | inr within ↦ inr (
      store_leaf blake3 index value t,
      ground arith,
      rw within,
      record {
        valid = store_leaf-IsValid blake3 index value t v;
        height_kept = unfold store_leaf update_path in refl;
        leaf_at = λ j.
            unfold store_leaf update_path get_leaf in
            get-insert index j (hash_leaf blake3 value) t.leaves;
        counted = unfold store_leaf update_path in ground arith;
      },
    )
  ]
