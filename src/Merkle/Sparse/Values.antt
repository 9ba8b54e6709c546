-- ===== src/Merkle/Sparse/Values.antt =====
-- `from_values` (dsm/src/merkle/sparse_merkle_tree.rs): the tree over a list of values, and its
-- proofs.
use native.Mathlib.Nat.{zero-add}
use dsm_decentralized_state.Base.{
  ℕ, zero, suc, ◌+◌, ◌%◌, ◌^◌, ◌≤◌, ◌<◌, ◌≡◌, refl, ◌∙◌, true, some, List, [], ◌∷◌, arith, inl, inr,
  length, get_elem?, ◌↔◌,
}
use dsm_decentralized_state.Base.Result.{ok}
use dsm_decentralized_state.Merkle.Hash.{Hash, hash_leaf}
use dsm_decentralized_state.Merkle.Sparse.{
  SparseMerkleTreeImpl, MerkleProof, new, get_leaf, verify_proof, get_proof, max_leaves, insert_all,
  from_values,
}
use dsm_decentralized_state.Merkle.Sparse.Insert.{IsValid}
use dsm_decentralized_state.Merkle.Sparse.Proofs.{insert_lem, new-IsValid, verify_proof-get_proof}

-- What is needed of the floating point logarithm, rounded up: up to 2 ^ 47 it is the exact one. An
-- exact logarithm differs there from every whole number by more than the error of an `f64`.
abbrev pub IsLog2Ceil : (ℕ → ℕ) → Type 0
IsLog2Ceil log2_ceil = (len k : ℕ) → len ≤ 2 ^ 47 → (log2_ceil len ≤ k) ↔ (len ≤ 2 ^ k)

-- Then the height of the tree over the values gives each of them a leaf.
log2_ceil_room :
    (log2_ceil : ℕ → ℕ) (len : ℕ)
    → IsLog2Ceil log2_ceil
    → len ≤ 2 ^ 47
    → len ≤ max_leaves (log2_ceil len)
log2_ceil_room log2_ceil len is_log2 fits =
    let small : log2_ceil len ≤ 47 = (is_log2 len 47 fits).1 fits in
    let same : log2_ceil len % 64 ≡ log2_ceil len = omega arith in
    rw same ((is_log2 len (log2_ceil len) fits).0 (omega arith))

pub get_elem?-lt :
    {A : Type 0} (xs : List A) (i : ℕ) (v : A) → get_elem? xs i ≡ some v → i < length xs
get_elem?-lt [] i v e = cc
get_elem?-lt (x ∷ xs) zero v e = omega arith
get_elem?-lt (x ∷ xs) (suc i) v e = omega (arith, get_elem?-lt xs i v e)

module _ (blake3 : List ℕ → Hash) where
  -- The values stand as leaves of `t` from the index `idx` on.
  abbrev pub Holds : ℕ → List (List ℕ) → SparseMerkleTreeImpl → Type 0
  Holds idx values t =
      (i : ℕ) (v : List ℕ)
      → get_elem? values i ≡ some v
      → get_leaf (idx + i) t ≡ some (hash_leaf blake3 v)

  Holds-cons :
      (idx : ℕ) (value : List ℕ) (values : List (List ℕ)) (t : SparseMerkleTreeImpl)
      → get_leaf idx t ≡ some (hash_leaf blake3 value)
      → Holds (idx + 1) values t
      → Holds idx (value ∷ values) t
  Holds-cons idx value values t first rest zero v e =
      let same : value ≡ v = cc in let at : idx + 0 ≡ idx = omega arith in rw (at, first, same)
  Holds-cons idx value values t first rest (suc i) v e =
      let at : idx + suc i ≡ idx + 1 + i = omega arith in rw at (rest i v e)

  pub insert_all_lem :
      (idx : ℕ) (values : List (List ℕ)) (t : SparseMerkleTreeImpl)
      → idx + length values ≤ max_leaves t.height
      → IsValid blake3 t
      → (t' : SparseMerkleTreeImpl) × (insert_all blake3 idx values t ≡ ok t')
        × IsValid blake3 t'
        × (t'.height ≡ t.height)
        × ((j : ℕ) → j < idx → get_leaf j t' ≡ get_leaf j t)
        × Holds idx values t'
  unfolding insert_all
  insert_all_lem idx [] t room v = (t, refl, v, refl, λ j h. refl, λ i w e. cc)
  insert_all_lem idx (value ∷ values) t room v = elim (insert_lem blake3 idx value t v) [
    | inl (beyond, _) ↦ absurd (omega arith)
    | inr (u, lt, e, ins) ↦
        let rest = insert_all_lem (idx + 1) values u (rw ins.height_kept (omega arith)) ins.valid in
        (
          rest.0,
          rw e rest.1,
          rest.2,
          rest.3 ∙ ins.height_kept,
          λ j below. rest.4 j (omega arith) ∙ ins.leaf_at j ∙ ground arith,
          Holds-cons idx value values rest.0
              (rest.4 idx (omega arith) ∙ ins.leaf_at idx ∙ ground arith) rest.5,
        )
  ]

  -- Where the logarithm is exact up to 2 ^ 47, `from_values` builds a tree for every list of up to
  -- 2 ^ 47 values, and the tree keeps the invariant. For a value at a position of the list,
  -- `get_proof` at the position gives a proof that `verify_proof` accepts for the value against the
  -- root.
  pub from_values-proofs :
      (log2_ceil : ℕ → ℕ) (values : List (List ℕ)) (i : ℕ) (v : List ℕ)
      → IsLog2Ceil log2_ceil
      → length values ≤ 2 ^ 47
      → get_elem? values i ≡ some v
      → (t : SparseMerkleTreeImpl) × (proof : MerkleProof) × (from_values blake3 log2_ceil values
          ≡ ok t)
        × IsValid blake3 t
        × (get_proof i t ≡ ok proof)
        × (verify_proof blake3 t.root v proof ≡ true)
  unfolding from_values
  from_values-proofs log2_ceil values i v is_log2 fits e =
      let height = log2_ceil (length values) in
      let empty = new height in
      let room = log2_ceil_room log2_ceil (length values) is_log2 fits in
      let built =
        insert_all_lem 0 values empty (unfold new in rw zero-add room)
          (new-IsValid blake3 height) in
      let proved =
        verify_proof-get_proof blake3 built.0 i v built.2
          (rw built.3 (unfold new in omega (arith, get_elem?-lt values i v e)))
          (rw zero-add at (built.5 i v e)) in
      (built.0, proved.0, built.1, built.2, proved.1, proved.2)
