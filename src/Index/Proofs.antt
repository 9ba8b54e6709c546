-- ===== src/Index/Proofs.antt =====
-- The Merkle tree of a sparse index (`add_state`, `generate_merkle_proof` and `verify_merkle_proof`
-- in dsm/src/core/index/mod.rs).
use dsm_decentralized_state.Base.{
  ℕ, ◌≤◌, ◌<◌, ◌≡◌, refl, ◌∙◌, true, some, ◌⊎◌, inl, inr, nat_eq, nat_beq, beq_refl, if◌then◌else◌,
}
use dsm_decentralized_state.Base.Map
use dsm_decentralized_state.Base.Map.{get-insert_self}
use dsm_decentralized_state.Base.Result.{ok, err, invalid_operation}
use dsm_decentralized_state.Merkle.Hash.{hash_leaf}
use dsm_decentralized_state.Merkle.Sparse
use dsm_decentralized_state.Merkle.Sparse.{
  SparseMerkleTreeImpl, MerkleProof, max_leaves, get_leaf, get_proof,
}
use dsm_decentralized_state.Merkle.Sparse.Insert.{IsValid}
use dsm_decentralized_state.Merkle.Sparse.Proofs.{Inserted, insert_lem, verify_proof-get_proof}
use dsm_decentralized_state.State.Model.{State, Primitives, state_hash}
use dsm_decentralized_state.Index.Pruning.{CanPrune, prune_lem}
use dsm_decentralized_state.Index.{
  SparseIndexManager, is_checkpoint, note_state, insert_leaf, store_checkpoint, add_state,
  generate_merkle_proof, verify_merkle_proof,
}

generate-tree :
    (n : ℕ) (m : SparseIndexManager) (tree : SparseMerkleTreeImpl) (proof : MerkleProof)
    → m.merkle_tree ≡ some tree
    → get_proof n tree ≡ ok proof
    → generate_merkle_proof n m ≡ ok (some proof)
unfolding generate_merkle_proof
generate-tree n m tree proof has e = rw (generate_merkle_proof, has, e) refl

module _ (p : Primitives) where
  verify-tree :
      (s : State) (m : SparseIndexManager) (tree : SparseMerkleTreeImpl) (proof : MerkleProof)
      → m.merkle_tree ≡ some tree
      → Sparse.verify_proof p.blake3 tree.root (state_hash p s) proof ≡ true
      → verify_merkle_proof p s proof m ≡ true
  unfolding verify_merkle_proof
  verify-tree s m tree proof has e = rw (verify_merkle_proof, has) e

  -- A proof of a state that a manager gives, and accepts.
  abbrev IsProved : State → SparseIndexManager → MerkleProof → Type 0
  IsProved s m proof =
      (generate_merkle_proof s.state_number m ≡ ok (some proof))
      × (verify_merkle_proof p s proof m ≡ true)

  tree-IsProved :
      (s : State) (m : SparseIndexManager) (tree tree' : SparseMerkleTreeImpl)
      → s.state_number < max_leaves tree.height
      → Inserted p.blake3 s.state_number (state_hash p s) tree tree'
      → m.merkle_tree ≡ some tree'
      → (proof : MerkleProof) × IsProved s m proof
  tree-IsProved s m tree tree' lt i has =
      let n = s.state_number in
      let leaf : get_leaf n tree' ≡ some (hash_leaf p.blake3 (state_hash p s)) =
        i.leaf_at n ∙ own n in
      let lt' : n < max_leaves tree'.height = rw i.height_kept lt in
      let (proof, made, accepted) =
        verify_proof-get_proof p.blake3 tree' n (state_hash p s) i.valid lt' leaf in
      (proof, (generate-tree n m tree' proof has made, verify-tree s m tree' proof has accepted))
    where
      own :
          (n : ℕ)
          → (if nat_beq n n then some (hash_leaf p.blake3 (state_hash p s)) else get_leaf n tree)
            ≡ some (hash_leaf p.blake3 (state_hash p s))
      own n = rw (beq_refl n) refl

  insert_leaf_lem :
      (s : State) (m : SparseIndexManager) (tree : SparseMerkleTreeImpl)
      → m.merkle_tree ≡ some tree
      → IsValid p.blake3 tree
      → CanPrune m.checkpoint_interval
      → ((max_leaves tree.height ≤ s.state_number)
          × (insert_leaf p s m ≡ (m, err invalid_operation)))
        ⊎ ((m' : SparseIndexManager) × (insert_leaf p s m ≡ (m', ok tt))
            × (proof : MerkleProof) × IsProved s m' proof)
  unfolding insert_leaf
  insert_leaf_lem s m tree has v safe =
      elim (insert_lem p.blake3 s.state_number (state_hash p s) tree v) [
        | inl (beyond, refused) ↦ inl (beyond, simp (insert_leaf, has, refused))
        | inr (tree', lt, stored, i) ↦
            let (m', pruned, kept) = prune_lem (record m { merkle_tree = some tree' }) safe in
            let (proof, proved) = tree-IsProved s m' tree tree' lt i kept.tree_kept in
            inr (m', rw (insert_leaf, has, stored) pruned, proof, proved)
      ]

  -- Add a checkpoint to a manager that has a valid Merkle tree, and an interval whose tenfold is not
  -- 0 in 64 bits. Within the capacity of the tree,
  -- `add_state` succeeds, and then `generate_merkle_proof` gives a proof for the number of the
  -- state that `verify_merkle_proof` accepts. Beyond it `add_state` returns an error, but the
  -- state is kept as a checkpoint all the same.
  pub add_state-merkle_proof :
      (s : State) (m : SparseIndexManager) (tree : SparseMerkleTreeImpl)
      → m.merkle_tree ≡ some tree
      → IsValid p.blake3 tree
      → CanPrune m.checkpoint_interval
      → is_checkpoint s.state_number m ≡ ok true
      → ((max_leaves tree.height ≤ s.state_number)
          × ((add_state p s m).1 ≡ err invalid_operation)
          × (Map.get s.state_number (add_state p s m).0.checkpoints ≡ some s))
        ⊎ ((m' : SparseIndexManager) × (add_state p s m ≡ (m', ok tt))
            × (proof : MerkleProof) × (generate_merkle_proof s.state_number m' ≡ ok (some proof))
            × (verify_merkle_proof p s proof m' ≡ true))
  unfolding add_state store_checkpoint note_state
  add_state-merkle_proof s m tree has v safe at =
      let stored : SparseIndexManager = record (note_state p s m) {
        checkpoints = Map.insert s.state_number s m.checkpoints;
      } in
      elim (insert_leaf_lem s stored tree has v safe) [
        | inl (beyond, refused) ↦ inl (
          beyond,
          rw (add_state, at, refused) refl,
          rw (add_state, at, refused) (get-insert_self s.state_number s m.checkpoints),
        )
        | inr (m', added, proof, checked) ↦
            inr (m', rw (add_state, at) added, proof, checked.0, checked.1)
      ]
