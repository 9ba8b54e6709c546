-- ===== src/Merkle/Sparse/Binding.antt =====
-- Inclusion proofs are binding: two values with proofs for one index and one root are equal, or
-- they give two inputs with one BLAKE3 hash.
use dsm_decentralized_state.Base.{
  ℕ, ◌/◌, ◌%◌, ◌≡◌, ◌∙◌, sym, true, List, [], ◌∷◌, ◌++◌, arith, nat_beq, ◌⊎◌, inl, inr, length,
  Bool-cases, list_beq→eq, nat_eq,
}
use dsm_decentralized_state.Merkle.Hash.{
  Hash, hash_leaf, hash_node, Collision, same_or_collision, append_split,
}
use dsm_decentralized_state.Merkle.Sparse.{MerkleProof, parent_hash, fold_path, verify_proof}

-- Every hash of a path has 32 bytes, as every `blake3::Hash` has.
abbrev pub AllHashes : List Hash → Type 0
AllHashes [] = Unit
AllHashes (h ∷ hs) = (length h ≡ 32) × AllHashes hs

module _ (blake3 : List ℕ → Hash) (sized : (x : List ℕ) → length (blake3 x) ≡ 32) where
  node_binding :
      (a b c d : Hash)
      → length a ≡ length b
      → hash_node blake3 a c ≡ hash_node blake3 b d
      → ((a ≡ b) × (c ≡ d)) ⊎ Collision blake3
  unfolding hash_node
  node_binding a b c d l e = elim (same_or_collision blake3 (1 ∷ (a ++ c)) (1 ∷ (b ++ d)) e) [
    | inl same ↦ inl (append_split a b c d l (cc same))
    | inr found ↦ inr found
  ]

  parent_binding :
      (index : ℕ) (a b s t : Hash)
      → length a ≡ length b
      → length s ≡ length t
      → parent_hash blake3 index a s ≡ parent_hash blake3 index b t
      → (a ≡ b) ⊎ Collision blake3
  parent_binding index a b s t la ls e = elim (Bool-cases (nat_beq (index % 2) 0)) [
    | inl even ↦ elim (node_binding a b s t la (rw even at e)) [
      | inl (same, _) ↦ inl same
      | inr found ↦ inr found
    ]
    | inr odd ↦ elim (node_binding s t a b ls (rw odd at e)) [
      | inl (_, same) ↦ inl same
      | inr found ↦ inr found
    ]
  ]

  parent_sized : (index : ℕ) (a s : Hash) → length (parent_hash blake3 index a s) ≡ 32
  unfolding hash_node
  parent_sized index a s = elim (Bool-cases (nat_beq (index % 2) 0)) [
    | inl even ↦ rw even (sized _)
    | inr odd ↦ rw odd (sized _)
  ]

  path_binding :
      (p q : List Hash) (index : ℕ) (a b : Hash)
      → AllHashes p
      → AllHashes q
      → length p ≡ length q
      → length a ≡ 32
      → length b ≡ 32
      → fold_path blake3 p index a ≡ fold_path blake3 q index b
      → (a ≡ b) ⊎ Collision blake3
  unfolding fold_path
  path_binding [] [] index a b hp hq l la lb e = inl e
  path_binding [] (t ∷ q) index a b hp hq l la lb e = absurd (omega arith)
  path_binding (s ∷ p) [] index a b hp hq l la lb e = absurd (omega arith)
  path_binding (s ∷ p) (t ∷ q) index a b hp hq l la lb e =
      elim (path_binding p q (index / 2) _ _ hp.1 hq.1 (omega arith) (parent_sized index a s)
        (parent_sized index b t) e) [
          | inl same ↦ parent_binding index a b s t (omega arith) (omega arith) same
          | inr found ↦ inr found
        ]

  -- If `verify_proof` accepts two values against one root, with proofs of one length for one index,
  -- then the values are equal, or two different inputs with one BLAKE3 hash are found. It supposes
  -- that BLAKE3 gives 32 bytes and that the hashes of both paths have 32 bytes.
  pub verify_proof-binding :
      (root : Hash) (v w : List ℕ) (p q : MerkleProof)
      → AllHashes p.path
      → AllHashes q.path
      → length p.path ≡ length q.path
      → p.index ≡ q.index
      → verify_proof blake3 root v p ≡ true
      → verify_proof blake3 root w q ≡ true
      → (v ≡ w) ⊎ Collision blake3
  unfolding verify_proof hash_leaf
  verify_proof-binding root v w p q hp hq l i ev ew =
      let folds_v = list_beq→eq (fold_path blake3 p.path p.index (blake3 (0 ∷ v))) root ev in
      let folds_w =
        rw (← i) at (list_beq→eq (fold_path blake3 q.path q.index (blake3 (0 ∷ w))) root ew) in
      elim (path_binding p.path q.path p.index _ _ hp hq l (sized _) (sized _)
        (folds_v ∙ sym folds_w)) [
          | inl leaves ↦ elim (same_or_collision blake3 (0 ∷ v) (0 ∷ w) leaves) [
            | inl same ↦ inl (cc same)
            | inr found ↦ inr found
          ]
          | inr found ↦ inr found
        ]
