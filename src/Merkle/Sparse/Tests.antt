-- ===== src/Merkle/Sparse/Tests.antt =====
-- A small sparse tree under a toy hash function, and one instance of each theorem.
use native.Mathlib.Nat.{pow-suc, pow-le-pow_right}
use native.Mathlib.Numerals.{towards_suc}
use dsm_decentralized_state.Base.{
  ℕ, zero, suc, ◌*◌, ◌/◌, ◌^◌, inl, inr, leb, Bool-cases, if◌then◌else◌, ◌+◌, ◌≤◌, ◌<◌, ◌≡◌, refl,
  true, List, [], ◌∷◌, replicate, length, arith, ◌⊎◌, ◌%◌, ◌++◌,
}
use dsm_decentralized_state.Base.Map
use dsm_decentralized_state.Base.Result.{ok, err, invalid_operation}
use dsm_decentralized_state.Merkle.Hash.{Hash, hash_leaf, hash_node, Collision}
use dsm_decentralized_state.Merkle.Sparse.{
  SparseMerkleTreeImpl, MerkleProof, new, insert, store_leaf, get_leaf, get_proof, verify_proof,
  max_leaves, from_values,
}
use dsm_decentralized_state.Merkle.Sparse.Insert.{IsValid, store_leaf-IsValid}
use dsm_decentralized_state.Merkle.Sparse.Proofs.{
  new-IsValid, Inserted, insert_lem, verify_proof-get_proof,
}
use dsm_decentralized_state.Merkle.Sparse.Values.{IsLog2Ceil, from_values-proofs}
use dsm_decentralized_state.Merkle.Sparse.Binding.{verify_proof-binding}

abbrev mix : ℕ → List ℕ → ℕ
mix acc [] = acc
mix acc (x ∷ xs) = mix ((acc + acc + acc + x) % 65521) xs

-- It has 32 entries, as BLAKE3 has.
abbrev toy : List ℕ → Hash
toy xs = mix 7 xs ∷ replicate 31 0

toy-sized : (x : List ℕ) → length (toy x) ≡ 32
toy-sized x = refl

abbrev one_leaf : SparseMerkleTreeImpl
one_leaf = store_leaf toy 2 (5 ∷ []) (new 2)

one_leaf-IsValid : IsValid toy one_leaf
one_leaf-IsValid = store_leaf-IsValid toy 2 (5 ∷ []) (new 2) (new-IsValid toy 2)

insert_beyond : insert toy 4 (5 ∷ []) (new 2) ≡ err invalid_operation
unfolding insert new
insert_beyond = refl

insert_lem_example :
    ((max_leaves one_leaf.height ≤ 1) × (insert toy 1 (6 ∷ []) one_leaf ≡ err invalid_operation))
    ⊎ ((t : SparseMerkleTreeImpl) × (1 < max_leaves one_leaf.height)
        × (insert toy 1 (6 ∷ []) one_leaf ≡ ok t)
        × Inserted toy 1 (6 ∷ []) one_leaf t)
insert_lem_example = insert_lem toy 1 (6 ∷ []) one_leaf one_leaf-IsValid

verify_proof-get_proof_example :
    (proof : MerkleProof) × (get_proof 2 one_leaf ≡ ok proof)
    × (verify_proof toy one_leaf.root (5 ∷ []) proof ≡ true)
unfolding store_leaf new get_leaf Map.insert Map.get
verify_proof-get_proof_example =
    verify_proof-get_proof toy one_leaf 2 (5 ∷ []) one_leaf-IsValid (omega arith) refl

abbrev three : List (List ℕ)
three = (1 ∷ []) ∷ (2 ∷ []) ∷ (3 ∷ 4 ∷ []) ∷ []

-- The exact logarithm, rounded up: the least `h` with `n ≤ 2 ^ h`.
exact_log2 : ℕ → ℕ → ℕ
exact_log2 zero n = 0
exact_log2 (suc fuel) n =
    let rest = exact_log2 fuel ((n + 1) / 2) in if leb n 1 then 0 else rest + 1

doubled : (k : ℕ) → 2 ^ (k + 1) ≡ 2 * 2 ^ k
doubled k = simp towards_suc (omega (arith, pow-suc 2 k))

exact_log2_enough : (fuel n : ℕ) → n ≤ fuel → n ≤ 2 ^ exact_log2 fuel n
unfolding exact_log2
exact_log2_enough zero n h = omega arith
exact_log2_enough (suc fuel) n h = elim (Bool-cases (leb n 1)) [
  | inl small ↦ rw small (ground arith)
  | inr large ↦
      let half = exact_log2_enough fuel ((n + 1) / 2) (ground arith) in
      rw large (ground (arith, half, doubled (exact_log2 fuel ((n + 1) / 2))))
]

exact_log2_least : (k fuel n : ℕ) → n ≤ 2 ^ k → exact_log2 fuel n ≤ k
unfolding exact_log2
exact_log2_least k zero n h = omega arith
exact_log2_least zero (suc fuel) n h = elim (Bool-cases (leb n 1)) [
  | inl small ↦ rw small (omega arith)
  | inr large ↦ absurd (ground arith)
]
exact_log2_least (suc k) (suc fuel) n h = elim (Bool-cases (leb n 1)) [
  | inl small ↦ rw small (omega arith)
  | inr large ↦
      let less = exact_log2_least k fuel ((n + 1) / 2) (omega (arith, pow-suc 2 k)) in
      rw large (omega arith)
]

abbrev exact_log2_ceil : ℕ → ℕ
exact_log2_ceil len = exact_log2 len len

exact_log2-IsLog2Ceil : IsLog2Ceil exact_log2_ceil
exact_log2-IsLog2Ceil len k fits = (
  λ h.
      let enough = exact_log2_enough len len (omega arith) in
      let grows : 2 ^ exact_log2_ceil len ≤ 2 ^ k = pow-le-pow_right (omega arith) h in
      omega (arith, enough, grows),
  exact_log2_least k len len,
)

from_values-proofs_example :
    (t : SparseMerkleTreeImpl) × (proof : MerkleProof) × (from_values toy exact_log2_ceil three
      ≡ ok t)
    × IsValid toy t
    × (get_proof 2 t ≡ ok proof)
    × (verify_proof toy t.root (3 ∷ 4 ∷ []) proof ≡ true)
from_values-proofs_example =
    from_values-proofs toy exact_log2_ceil three 2 (3 ∷ 4 ∷ []) exact_log2-IsLog2Ceil (omega arith)
      refl

abbrev short_proof : MerkleProof
short_proof = record {
  path = toy [] ∷ [];
  index = 0;
  leaf_hash = toy (0 ∷ 5 ∷ []);
  root_hash = [];
  height = 1;
  leaf_count = 1;
}

abbrev short_root : Hash
short_root = toy (1 ∷ (toy (0 ∷ 5 ∷ []) ++ toy []))

verify_proof-binding_example : ◌≡◌ {A = List ℕ} (5 ∷ []) (5 ∷ []) ⊎ Collision toy
unfolding verify_proof hash_leaf hash_node
verify_proof-binding_example =
    verify_proof-binding toy toy-sized short_root (5 ∷ []) (5 ∷ []) short_proof short_proof
      (refl, tt) (refl, tt) refl refl refl refl
