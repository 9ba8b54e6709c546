-- ===== src/Merkle/Hash.antt =====
-- Hashes and the hashing of leaves and nodes (dsm/src/merkle/sparse_merkle_tree.rs, and
-- dsm/src/crypto/blake3.rs, whose `hash_blake3` is the call of BLAKE3).
use mathlib.Core.Path.{ap₂}
use dsm_decentralized_state.Base.{
  length, refl, arith, [], ℕ, ◌≡◌, ◌≢◌, ap, List, ◌∷◌, ◌++◌, replicate, ◌⊎◌, inl, inr, list_eq,
  nat_eq, Bool-cases, list_beq→eq, list_beq, list_beq_refl,
}

-- The bytes of a `blake3::Hash`.
abbrev pub Hash : Type 0
Hash = List ℕ

-- `Hash::from([0u8; 32])`
abbrev pub zero_hash : Hash
zero_hash = replicate 32 0

pub append_split : (a b c d : List ℕ) → length a ≡ length b → a ++ c ≡ b ++ d → (a ≡ b) × (c ≡ d)
append_split [] [] c d l e = (refl, e)
append_split [] (y ∷ b) c d l e = absurd (omega arith)
append_split (x ∷ a) [] c d l e = absurd (omega arith)
append_split (x ∷ a) (y ∷ b) c d l e =
    let heads : x ≡ y = cc in
    let tails : a ++ c ≡ b ++ d = cc in
    let rest = append_split a b c d (omega arith) tails in (ap₂ ◌∷◌ heads rest.0, rest.1)

module _ (blake3 : List ℕ → Hash) where
  -- `hash_leaf_static`: the domain separation prefix of a leaf is 0
  unfoldable pub hash_leaf : List ℕ → Hash
  hash_leaf data_bytes = blake3 (0 ∷ data_bytes)

  -- `hash_node_static`: the prefix of an internal node is 1
  unfoldable pub hash_node : Hash → Hash → Hash
  hash_node left right = blake3 (1 ∷ (left ++ right))

  -- Two inputs that BLAKE3 maps to one hash.
  abbrev pub Collision : Type 0
  Collision = (x : List ℕ) × (y : List ℕ) × (x ≢ y) × (blake3 x ≡ blake3 y)

  pub same_or_collision : (x y : List ℕ) → blake3 x ≡ blake3 y → (x ≡ y) ⊎ Collision
  same_or_collision x y e = elim (Bool-cases (list_beq x y)) [
    | inl same ↦ inl (list_beq→eq x y same)
    | inr differ ↦ inr (x, y, (λ p. cc (differ, list_beq_refl x, ap (list_beq x) p)), e)
  ]
