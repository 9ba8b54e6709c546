-- ===== src/Merkle/Plain/Odd.antt =====
-- Where a level has an odd number of nodes, `rebuild` promotes the last one and `generate_proof`
-- combines it with itself, so the proof of such a leaf leads to another root.
use dsm_decentralized_state.Base.{
  ℕ, ◌≡◌, refl, sym, ◌∙◌, true, some, List, [], ◌∷◌, ◌++◌, length, ◌⊎◌, inl, inr, nat_eq, list_eq,
  list_beq→eq,
}
use dsm_decentralized_state.Merkle.Hash.{Hash, Collision, same_or_collision, append_split}
use dsm_decentralized_state.Merkle.Plain.{
  combine_hashes, to_digest, new, generate_proof, verify_proof, root_hash, add_leaf,
}

module _ (blake3 : List ℕ → Hash) (sized : (x : List ℕ) → length (blake3 x) ≡ 32) where
  abbrev c : List ℕ → Hash
  c l = to_digest blake3 l

  abbrev left_pair : List ℕ → List ℕ → Hash
  left_pair l m = combine_hashes blake3 (c l) (c m)

  root-new_three :
      (l m n : List ℕ)
      → root_hash (new blake3 (l ∷ m ∷ n ∷ [])) ≡ some (combine_hashes blake3 (left_pair l m) (c n))
  unfolding new add_leaf
  root-new_three l m n = refl

  path-new_three :
      (l m n : List ℕ)
      → (generate_proof blake3 2 (new blake3 (l ∷ m ∷ n ∷ []))).path ≡ c n ∷ left_pair l m ∷ []
  unfolding new generate_proof add_leaf
  path-new_three l m n = refl

  combined_right :
      (p x y : Hash)
      → combine_hashes blake3 p x ≡ combine_hashes blake3 p y
      → (x ≡ y) ⊎ Collision blake3
  unfolding combine_hashes
  combined_right p x y e = elim (same_or_collision blake3 (p ++ x) (p ++ y) e) [
    | inl same ↦ inl ((append_split p p x y refl same).1)
    | inr found ↦ inr found
  ]

  -- In a tree over three leaves the proof that `generate_proof` gives for the last leaf is accepted
  -- only if BLAKE3 maps the digest of the leaf, written twice, to this very digest, or has a
  -- collision. It supposes that BLAKE3 gives 32 bytes.
  verify_proof-odd_leaf :
      (l m n : List ℕ) {r : Hash}
      → root_hash (new blake3 (l ∷ m ∷ n ∷ [])) ≡ some r
      → verify_proof blake3 r
          (to_digest blake3 n)
          (generate_proof blake3 2 (new blake3 (l ∷ m ∷ n ∷ []))).path
          2
        ≡ true
      → (combine_hashes blake3 (to_digest blake3 n) (to_digest blake3 n) ≡ to_digest blake3 n)
        ⊎ Collision blake3
  unfolding verify_proof
  verify_proof-odd_leaf l m n {r} root accepted =
      let at : combine_hashes blake3 (left_pair l m) (c n) ≡ r = cc (root-new_three l m n) in
      combined_right (left_pair l m) _ _
        (list_beq→eq _ r (rw (path-new_three l m n) at accepted) ∙ sym at)
