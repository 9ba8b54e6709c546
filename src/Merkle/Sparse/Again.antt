-- ===== src/Merkle/Sparse/Again.antt =====
-- Writing the values of a tree into it once more (`insert` in
-- dsm/src/merkle/sparse_merkle_tree.rs), as the builder of a batch does.
use mathlib.Core.Path.{subst}
use dsm_decentralized_state.Base.{
  ℕ, zero, suc, ◌+◌, ◌/◌, ◌≤◌, ◌<◌, ◌≡◌, refl, ap, ◌∙◌, sym, true, some, List, [], ◌∷◌, ◌++◌, arith,
  ◌⊎◌, inl, inr, length, leb, get_elem?, Bool-cases, nat_eq,
}
use dsm_decentralized_state.Base.Map
use dsm_decentralized_state.Base.Result.{ok, err, ◌>>=◌, Result-cases, invalid_operation}
use dsm_decentralized_state.Merkle.Hash.{Hash, hash_leaf, zero_hash}
use dsm_decentralized_state.Merkle.Sparse.{
  Nodes, node_id_eq, SparseMerkleTreeImpl, MerkleProof, entry, get_node_hash, or_zero_hash,
  sibling_index, parent_hash, update_levels, update_path, store_leaf, insert, new, get_leaf,
  verify_proof, get_proof, max_leaves, insert_all,
}
use dsm_decentralized_state.Merkle.Sparse.Insert.{
  Grid, AllHashed, IsValid, IsSome, insert_node_again, parent_hash-eq-pair_hash,
}
use dsm_decentralized_state.Merkle.Sparse.Proofs.{insert_lem, new-IsValid, verify_proof-get_proof}
use dsm_decentralized_state.Merkle.Sparse.Values.{Holds, insert_all_lem, get_elem?-lt}

pub new-root : (height : ℕ) → (new height).root ≡ zero_hash
unfolding new
new-root height = refl

module _ (blake3 : List ℕ → Hash) where
  update_levels_again :
      (rounds level index height : ℕ) (nodes : Nodes)
      → level + rounds ≡ height
      → AllHashed blake3 height (entry nodes)
      → IsSome (entry nodes level index)
      → entry (update_levels blake3 rounds level index nodes) ≡ entry nodes
  unfolding update_levels
  update_levels_again zero level index height nodes e h present = refl
  update_levels_again (suc rounds) level index height nodes e h present =
      let hash =
        parent_hash blake3 index (get_node_hash nodes level index)
          (get_node_hash nodes level (sibling_index index)) in
      let above = Map.insert (record { level = level + 1; index = index / 2 }) hash nodes in
      let there : entry nodes (level + 1) (index / 2) ≡ some hash =
        h level index (omega arith) present
        ∙ ap (λ (x : Hash). some x)
            (sym (parent_hash-eq-pair_hash blake3 (entry nodes) level index)) in
      let same : entry above ≡ entry nodes =
        insert_node_again (level + 1) (index / 2) hash nodes there in
      update_levels_again rounds (level + 1) (index / 2) height above (omega arith)
        (subst (AllHashed blake3 height) (sym same) h)
        (subst (λ (g : Grid). IsSome (g (level + 1) (index / 2))) (sym same)
          (subst IsSome (sym there) tt))
      ∙ same

  store_leaf_again :
      (index : ℕ) (value : List ℕ) (t : SparseMerkleTreeImpl)
      → IsValid blake3 t
      → get_leaf index t ≡ some (hash_leaf blake3 value)
      → (store_leaf blake3 index value t).root ≡ t.root
  unfolding store_leaf update_path get_leaf
  store_leaf_again index value t v e =
      let leaf = hash_leaf blake3 value in
      let nodes = Map.insert (record { level = 0; index = index }) leaf t.nodes in
      let there = v.stored index leaf e in
      let same : entry nodes ≡ entry t.nodes = insert_node_again 0 index leaf t.nodes there in
      let done =
        update_levels_again t.height 0 index t.height nodes (omega arith)
          (subst (AllHashed blake3 t.height) (sym same) v.hashed)
          (subst (λ (g : Grid). IsSome (g 0 index)) (sym same) (subst IsSome (sym there) tt))
        ∙ same in
      ap (λ (g : Grid). or_zero_hash (g t.height 0)) done ∙ sym v.rooted

  insert_again :
      (index : ℕ) (value : List ℕ) (t t' : SparseMerkleTreeImpl)
      → IsValid blake3 t
      → get_leaf index t ≡ some (hash_leaf blake3 value)
      → insert blake3 index value t ≡ ok t'
      → t'.root ≡ t.root
  unfolding insert
  insert_again index value t t' v leaf e = elim (Bool-cases (leb (max_leaves t.height) index)) [
    | inl beyond ↦ absurd (cc (e, beyond))
    | inr within ↦
        let same : store_leaf blake3 index value t ≡ t' = cc (e, within) in
        ap (λ (u : SparseMerkleTreeImpl). u.root) (sym same) ∙ store_leaf_again index value t v leaf
  ]

  -- Values that stand in a valid tree can be inserted again, and the root stays.
  insert_all_again :
      (idx : ℕ) (values : List (List ℕ)) (t : SparseMerkleTreeImpl)
      → idx + length values ≤ max_leaves t.height
      → IsValid blake3 t
      → Holds blake3 idx values t
      → (t' : SparseMerkleTreeImpl) × (insert_all blake3 idx values t ≡ ok t') × (t'.root ≡ t.root)
  unfolding insert_all
  insert_all_again idx [] t room v held = (t, refl, refl)
  insert_all_again idx (value ∷ values) t room v held = elim (insert_lem blake3 idx value t v) [
    | inl (beyond, _) ↦ absurd (omega arith)
    | inr (u, lt, e, ins) ↦
        let first : get_leaf idx t ≡ some (hash_leaf blake3 value) =
          let at : idx + 0 ≡ idx = omega arith in rw at at (held 0 value refl) in
        let later : Holds blake3 (idx + 1) values u = λ i w there.
          let shift : idx + 1 + i ≡ idx + suc i = omega arith in
          ins.leaf_at (idx + 1 + i)
          ∙ ground arith
          ∙ ap (λ (n : ℕ). get_leaf n t) shift
          ∙ held (suc i) w there in
        let (t', done, root) =
          insert_all_again (idx + 1) values u (rw ins.height_kept (omega arith)) ins.valid later in
        (t', rw e done, root ∙ insert_again idx value t u v first e)
  ]

  pub insert_all-nil : (idx : ℕ) (t : SparseMerkleTreeImpl) → insert_all blake3 idx [] t ≡ ok t
  unfolding insert_all
  insert_all-nil idx t = refl

  pub insert_all-snoc :
      (idx : ℕ) (values : List (List ℕ)) (value : List ℕ) (t : SparseMerkleTreeImpl)
      → insert_all blake3 idx (values ++ value ∷ []) t
        ≡ (insert_all blake3 idx values t >>= insert blake3 (idx + length values) value)
  unfolding insert_all
  insert_all-snoc idx [] value t =
      let at : idx + 0 ≡ idx = omega arith in
      elim (Result-cases (insert blake3 idx value t)) [
        | inl (u, e) ↦ rw (at, e) refl
        | inr (x, e) ↦ rw (at, e) refl
      ]
  insert_all-snoc idx (w ∷ values) value t = elim (Result-cases (insert blake3 idx w t)) [
    | inl (u, e) ↦
        let shift : idx + suc (length values) ≡ idx + 1 + length values = omega arith in
        rw (e, shift) (insert_all-snoc (idx + 1) values value u)
    | inr (x, e) ↦ rw e refl
  ]

  -- The tree that values were inserted into, from a new one on.
  built :
      (height : ℕ) (values : List (List ℕ)) (t : SparseMerkleTreeImpl)
      → length values ≤ max_leaves height
      → insert_all blake3 0 values (new height) ≡ ok t
      → IsValid blake3 t × (t.height ≡ height) × Holds blake3 0 values t
  built height values t fits e =
      let height_new : (new height).height ≡ height = unfold new in refl in
      let (t', done, valid, kept, _, held) =
        insert_all_lem blake3 0 values (new height) (rw height_new (omega arith))
          (new-IsValid blake3 height) in
      let same : t' ≡ t = cc (e, done) in
      subst
        (λ (u : SparseMerkleTreeImpl).
          IsValid blake3 u × (u.height ≡ height) × Holds blake3 0 values u)
        same (valid, kept ∙ height_new, held)

  -- The next value is refused exactly when the tree is full.
  pub built-insert :
      (height : ℕ) (values : List (List ℕ)) (value : List ℕ) (t : SparseMerkleTreeImpl)
      → length values ≤ max_leaves height
      → insert_all blake3 0 values (new height) ≡ ok t
      → ((max_leaves height ≤ length values)
          × (insert blake3 (length values) value t ≡ err invalid_operation))
        ⊎ ((t' : SparseMerkleTreeImpl) × (length values < max_leaves height)
            × (insert blake3 (length values) value t ≡ ok t'))
  built-insert height values value t fits e =
      let (valid, kept, _) = built height values t fits e in
      elim (insert_lem blake3 (length values) value t valid) [
        | inl (beyond, refused) ↦ inl (rw kept at beyond, refused)
        | inr (t', within, done, _) ↦ inr (t', rw kept at within, done)
      ]

  -- Values that were inserted into a new tree can be inserted again, and the root stays.
  pub built_again :
      (height : ℕ) (values : List (List ℕ)) (t : SparseMerkleTreeImpl)
      → length values ≤ max_leaves height
      → insert_all blake3 0 values (new height) ≡ ok t
      → (t' : SparseMerkleTreeImpl) × (insert_all blake3 0 values t ≡ ok t') × (t'.root ≡ t.root)
  built_again height values t fits e =
      let (valid, kept, held) = built height values t fits e in
      insert_all_again 0 values t (rw kept (omega arith)) valid held

  -- Every value that was inserted into a new tree has a proof.
  pub built-proof :
      (height : ℕ) (values : List (List ℕ)) (t : SparseMerkleTreeImpl) (i : ℕ) (v : List ℕ)
      → length values ≤ max_leaves height
      → insert_all blake3 0 values (new height) ≡ ok t
      → get_elem? values i ≡ some v
      → (proof : MerkleProof) × (get_proof i t ≡ ok proof)
        × (verify_proof blake3 t.root v proof ≡ true)
  built-proof height values t i v fits e there =
      let (valid, kept, held) = built height values t fits e in
      verify_proof-get_proof blake3 t i v valid
        (rw kept (omega (arith, get_elem?-lt values i v there)))
        (let at : 0 + i ≡ i = omega arith in rw at at (held i v there))
