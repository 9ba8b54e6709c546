-- ===== src/Merkle/Plain/RoundTrip.antt =====
-- Where the number of leaves is a power of two, every leaf has a proof that verifies.
use native.Mathlib.Nat.{pow-suc, one-le-pow}
use dsm_decentralized_state.Base.{
  ℕ, zero, suc, ◌+◌, ◌-◌, ◌*◌, ◌/◌, ◌%◌, ◌^◌, ◌≤◌, ◌<◌, ◌≡◌, refl, ap, ◌∙◌, sym, true, some, List,
  [], ◌∷◌, map, length, get_or, get_elem?, lt→ltb, nat_beq, arith, if◌then◌else◌, list_beq_iff,
  nat_eq,
}
use dsm_decentralized_state.Merkle.Hash.{Hash, zero_hash}
use dsm_decentralized_state.Merkle.Plain.{
  MerkleNode, MerkleTree, node_hash, new_empty, combine_hashes, next_level, build_levels, rebuild,
  add_leaf, add_leaves, new, parent_level, sibling, proof_path, generate_proof, climb, verify_proof,
  root_hash, leaf,
}

le_pow : (k : ℕ) → k ≤ 2 ^ k
le_pow zero = omega arith
le_pow (suc k) = omega (arith, pow-suc 2 k, one-le-pow k 2 (omega arith), le_pow k)

abbrev IsEven {ℓ} : {A : Type ℓ} → List A → Type 0
IsEven [] = Unit
IsEven (x ∷ []) = ⊥
IsEven (x ∷ y ∷ rest) = IsEven rest

IsEven-of_length {ℓ} : {A : Type ℓ} (xs : List A) (m : ℕ) → length xs ≡ 2 * m → IsEven xs
IsEven-of_length [] m e = tt
IsEven-of_length (x ∷ []) m e = omega arith
IsEven-of_length (x ∷ y ∷ rest) m e = IsEven-of_length rest (m - 1) (omega arith)

length-IsEven {ℓ} : {A : Type ℓ} (xs : List A) → IsEven xs → length xs % 2 ≡ 0
length-IsEven [] e = refl
length-IsEven (x ∷ []) e = absurd e
length-IsEven (x ∷ y ∷ rest) e = omega (arith, length-IsEven rest e)

abbrev sibling_index : ℕ → ℕ
sibling_index i = if nat_beq (i % 2) 0 then i + 1 else i - 1

sibling_index_up : (i : ℕ) → sibling_index (suc (suc i)) ≡ suc (suc (sibling_index i))
sibling_index_up i = ground arith

-- In a level of even length the sibling is there.
sibling_there :
    (level : List Hash) (i : ℕ)
    → IsEven level
    → i < length level
    → sibling level i ≡ get_or level (sibling_index i) zero_hash
sibling_there level i even lt = ground (arith, length-IsEven level even)

get_elem?-lt {ℓ} :
    {A : Type ℓ} (xs : List A) (i : ℕ) (v : A) → get_elem? xs i ≡ some v → i < length xs
get_elem?-lt [] i v e = cc
get_elem?-lt (x ∷ xs) zero v e = omega arith
get_elem?-lt (x ∷ xs) (suc i) v e = omega (arith, get_elem?-lt xs i v e)

module _ (blake3 : List ℕ → Hash) where
  abbrev joined : ℕ → Hash → Hash → Hash
  joined i h s = if nat_beq (i % 2) 0 then combine_hashes blake3 h s else combine_hashes blake3 s h

  parent_level-get :
      (level : List Hash) (i : ℕ) (h : Hash)
      → IsEven level
      → get_elem? level i ≡ some h
      → get_elem? (parent_level blake3 level) (i / 2)
        ≡ some (joined i h (get_or level (sibling_index i) zero_hash))
  unfolding parent_level
  parent_level-get [] i h even e = cc
  parent_level-get (x ∷ []) i h even e = absurd even
  parent_level-get (x ∷ y ∷ rest) zero h even e =
      ap (λ (v : Hash). some (combine_hashes blake3 v y)) (cc e)
  parent_level-get (x ∷ y ∷ rest) (suc zero) h even e =
      ap (λ (v : Hash). some (combine_hashes blake3 x v)) (cc e)
  parent_level-get (x ∷ y ∷ rest) (suc (suc i)) h even e =
      let halves : suc (suc i) / 2 ≡ suc (i / 2) = omega arith in
      let parity : suc (suc i) % 2 ≡ i % 2 = omega arith in
      rw (sibling_index_up i, halves, parity) (parent_level-get rest i h even e)

  map-next_level :
      (ns : List MerkleNode)
      → IsEven ns
      → map node_hash (next_level blake3 ns) ≡ parent_level blake3 (map node_hash ns)
  unfolding next_level parent_level
  map-next_level [] even = refl
  map-next_level (x ∷ []) even = absurd even
  map-next_level (x ∷ y ∷ rest) even =
      ap (λ (l : List Hash). combine_hashes blake3 (node_hash x) (node_hash y) ∷ l)
        (map-next_level rest even)

  length-next_level :
      (ns : List MerkleNode) → IsEven ns → 2 * length (next_level blake3 ns) ≡ length ns
  unfolding next_level
  length-next_level [] even = refl
  length-next_level (x ∷ []) even = absurd even
  length-next_level (x ∷ y ∷ rest) even = omega (arith, length-next_level rest even)

  length-map_hash : (ns : List MerkleNode) → length (map node_hash ns) ≡ length ns
  length-map_hash [] = refl
  length-map_hash (n ∷ ns) = ap suc (length-map_hash ns)

  IsEven-map : (ns : List MerkleNode) → IsEven ns → IsEven (map node_hash ns)
  IsEven-map [] even = tt
  IsEven-map (x ∷ []) even = even
  IsEven-map (x ∷ y ∷ rest) even = IsEven-map rest even

  -- From a level of 2 ^ k nodes the loops reach one node, and the path leads to its hash.
  abbrev Reaches : ℕ → List MerkleNode → ℕ → Hash → Type 0
  Reaches fuel ns i h =
      (n : MerkleNode) × (build_levels blake3 fuel ns ≡ n ∷ [])
      × (climb blake3 (proof_path blake3 fuel (map node_hash ns) i) i h ≡ node_hash n)

  Reaches-one :
      (fuel : ℕ) (ns : List MerkleNode) (i : ℕ) (h : Hash)
      → length ns ≡ 1
      → get_elem? (map node_hash ns) i ≡ some h
      → Reaches fuel ns i h
  unfolding build_levels proof_path climb
  Reaches-one fuel [] i h l e = cc
  Reaches-one fuel (n ∷ m ∷ rest) i h l e = absurd (omega arith)
  Reaches-one zero (n ∷ []) zero h l e = (n, refl, cc)
  Reaches-one (suc fuel) (n ∷ []) zero h l e = (n, refl, cc)
  Reaches-one fuel (n ∷ []) (suc i) h l e = cc

  Reaches-next :
      (fuel : ℕ) (ns : List MerkleNode) (i : ℕ) (h : Hash)
      → IsEven ns
      → 1 < length ns
      → get_elem? (map node_hash ns) i ≡ some h
      → Reaches fuel
          (next_level blake3 ns)
          (i / 2)
          (joined i h (get_or (map node_hash ns) (sibling_index i) zero_hash))
      → Reaches (suc fuel) ns i h
  unfolding build_levels proof_path climb
  Reaches-next fuel ns i h even many e (n, built, climbed) =
      let level = map node_hash ns in
      let len = length-map_hash ns in
      let there = sibling_there level i (IsEven-map ns even) (get_elem?-lt level i h e) in
      (
        n,
        rw (lt→ltb 1 (length ns) many) built,
        rw (lt→ltb 1 (length level) (omega arith), there, ← map-next_level ns even) climbed,
      )

  Reaches-root :
      (k fuel : ℕ) (ns : List MerkleNode) (i : ℕ) (h : Hash)
      → k ≤ fuel
      → length ns ≡ 2 ^ k
      → get_elem? (map node_hash ns) i ≡ some h
      → Reaches fuel ns i h
  Reaches-root zero fuel ns i h enough l e = Reaches-one fuel ns i h l e
  Reaches-root (suc k) zero ns i h enough l e = absurd (omega arith)
  Reaches-root (suc k) (suc fuel) ns i h enough l e =
      let double : length ns ≡ 2 * 2 ^ k = omega (arith, pow-suc 2 k) in
      let even = IsEven-of_length ns (2 ^ k) double in
      let half : length (next_level blake3 ns) ≡ 2 ^ k = omega (arith, length-next_level ns even) in
      let up = parent_level-get (map node_hash ns) i h (IsEven-map ns even) e in
      Reaches-next fuel ns i h even (omega (arith, one-le-pow k 2 (omega arith))) e (
        Reaches-root k fuel (next_level blake3 ns) (i / 2) _ (omega arith) half
          (rw (map-next_level ns even) up))

  -- The root is the one that `rebuild` computes from the leaves.
  abbrev pub IsBuilt : MerkleTree → Type 0
  IsBuilt t = t ≡ rebuild blake3 t

  pub add_leaf-IsBuilt : (l : List ℕ) (t : MerkleTree) → IsBuilt (add_leaf blake3 l t)
  unfolding add_leaf rebuild
  add_leaf-IsBuilt l t = refl

  add_leaves-IsBuilt :
      (ls : List (List ℕ)) (t : MerkleTree) → IsBuilt t → IsBuilt (add_leaves blake3 ls t)
  unfolding add_leaves
  add_leaves-IsBuilt [] t b = b
  add_leaves-IsBuilt (l ∷ ls) t b =
      add_leaves-IsBuilt ls (add_leaf blake3 l t) (add_leaf-IsBuilt l t)

  -- Every tree that `new` makes is built.
  pub new-IsBuilt : (ls : List (List ℕ)) → IsBuilt (new blake3 ls)
  unfolding new
  new-IsBuilt ls = add_leaves-IsBuilt ls new_empty (unfold rebuild in refl)

  map_leaf : (hs : List Hash) → map node_hash (map leaf hs) ≡ hs
  map_leaf [] = refl
  map_leaf (h ∷ hs) = ap (λ (l : List Hash). h ∷ l) (map_leaf hs)

  length_leaf : (hs : List Hash) → length (map leaf hs) ≡ length hs
  length_leaf [] = refl
  length_leaf (h ∷ hs) = ap suc (length_leaf hs)

  generate_proof_path :
      (t : MerkleTree) (i : ℕ)
      → i < length t.leaves
      → (generate_proof blake3 i t).path ≡ proof_path blake3 (length t.leaves) t.leaves i
  unfolding generate_proof
  generate_proof_path t i within = ground arith

  -- In a built tree with 2 ^ k leaves, for any k, `verify_proof` accepts for every leaf the path
  -- that `generate_proof` gives, against the root hash of the tree, which exists.
  pub verify_proof-generate_proof :
      (t : MerkleTree) (k i : ℕ) (h : Hash)
      → IsBuilt t
      → length t.leaves ≡ 2 ^ k
      → get_elem? t.leaves i ≡ some h
      → (r : Hash) × (root_hash t ≡ some r)
        × (verify_proof blake3 r h (generate_proof blake3 i t).path i ≡ true)
  unfolding verify_proof generate_proof rebuild
  verify_proof-generate_proof t k i h built len e =
      let (n, one, climbed) =
        Reaches-root k (length t.leaves) (map leaf t.leaves) i h (k_le len)
          (length_leaf t.leaves ∙ len) (rw (map_leaf t.leaves) e) in
      (node_hash n, ap root_hash built ∙ rw one, (list_beq_iff _ _).1 (follows climbed))
    where
      k_le : length t.leaves ≡ 2 ^ k → k ≤ length t.leaves
      k_le l = rw l (le_pow k)

      follows :
          {x : Hash}
          → climb blake3
              (proof_path blake3 (length t.leaves) (map node_hash (map leaf t.leaves)) i)
              i
              h
            ≡ x
          → climb blake3 (generate_proof blake3 i t).path i h ≡ x
      follows climbed =
          ap (λ (p : List Hash). climb blake3 p i h)
            (generate_proof_path t i (get_elem?-lt t.leaves i h e)
              ∙ ap (λ (l : List Hash). proof_path blake3 (length t.leaves) l i)
                  (sym (map_leaf t.leaves)))
          ∙ climbed
