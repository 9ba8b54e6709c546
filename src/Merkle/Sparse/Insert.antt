-- ===== src/Merkle/Sparse/Insert.antt =====
-- `insert` keeps every node that lies above a leaf equal to the hash of its children.
use mathlib.Core.Path.{ap₂, subst}
use dsm_decentralized_state.Base.{
  ℕ, zero, suc, ◌+◌, ◌*◌, ◌/◌, ◌%◌, ◌≤◌, ◌<◌, ◌≡◌, refl, ap, fun_ext, ◌∙◌, sym, nat_eq, ◌&&◌,
  Option, none, some, List, arith, nat_beq, if◌then◌else◌, ◌⊎◌, inl, inr, ◌-◌, Bool-cases,
}
use dsm_decentralized_state.Base.Map
use dsm_decentralized_state.Base.Map.{get-insert}
use dsm_decentralized_state.Merkle.Hash.{Hash, hash_leaf, hash_node}
use dsm_decentralized_state.Merkle.Sparse.{
  Nodes, node_id_eq, SparseMerkleTreeImpl, entry, get_node_hash, or_zero_hash, sibling_index,
  parent_hash, update_levels, update_path, store_leaf,
}

-- A node as a function of level and index.
abbrev pub Grid : Type 0
Grid = ℕ → ℕ → Option Hash

pub write : ℕ → ℕ → Hash → Grid → Grid
write level index h g l j = if nat_beq level l && nat_beq index j then some h else g l j

pub entry-insert :
    (level index : ℕ) (h : Hash) (nodes : Nodes) (l j : ℕ)
    → entry (Map.insert (record { level = level; index = index }) h nodes) l j
      ≡ write level index h (entry nodes) l j
unfolding write
entry-insert level index h nodes l j = get-insert _ _ h nodes

entry-insert-write :
    (level index : ℕ) (h : Hash) (nodes : Nodes)
    → entry (Map.insert (record { level = level; index = index }) h nodes)
      ≡ write level index h (entry nodes)
entry-insert-write level index h nodes =
    fun_ext λ l. fun_ext λ j. entry-insert level index h nodes l j

abbrev pub IsSome : {A : Type 0} → Option A → Type 0
IsSome none = ⊥
IsSome (some a) = Unit

write_self : (level index : ℕ) (h : Hash) (g : Grid) → write level index h g level index ≡ some h
unfolding write
write_self level index h g = ground arith

write_apart :
    (level index : ℕ) (h : Hash) (g : Grid) (l j : ℕ)
    → ((l ≡ level) → (j ≡ index) → ⊥)
    → write level index h g l j ≡ g l j
unfolding write
write_apart level index h g l j apart = ground (arith, apart)

-- A write of what stands there changes nothing.
write_again :
    (level index : ℕ) (h : Hash) (g : Grid) (l j : ℕ)
    → g level index ≡ some h
    → write level index h g l j ≡ g l j
unfolding write
write_again level index h g l j e = elim (Bool-cases (nat_beq level l && nat_beq index j)) [
  | inl at ↦
      let el : level ≡ l = ground arith in
      let ej : index ≡ j = ground arith in rw at (sym (rw (el, ej) at e))
  | inr off ↦ rw off refl
]

pub insert_node_again :
    (level index : ℕ) (h : Hash) (nodes : Nodes)
    → entry nodes level index ≡ some h
    → entry (Map.insert (record { level = level; index = index }) h nodes) ≡ entry nodes
insert_node_again level index h nodes e = fun_ext λ l.
    fun_ext
      λ j. entry-insert level index h nodes l j ∙ write_again level index h (entry nodes) l j e

module _ (blake3 : List ℕ → Hash) where
  -- The hash of the two nodes below the node at level `l + 1` and index `p`.
  pub pair_hash : Grid → ℕ → ℕ → Hash
  pair_hash g l p = hash_node blake3 (or_zero_hash (g l (2 * p))) (or_zero_hash (g l (2 * p + 1)))

  pub parent_hash-eq-pair_hash :
      (g : Grid) (l j : ℕ)
      → parent_hash blake3 j (or_zero_hash (g l j)) (or_zero_hash (g l (sibling_index j)))
        ≡ pair_hash g l (j / 2)
  unfolding pair_hash
  parent_hash-eq-pair_hash g l j = elim (Bool-cases (nat_beq (j % 2) 0)) [
    | inl even ↦
        let at : j ≡ 2 * (j / 2) = ground arith in
        rw even (
          cc (
            ap (λ (n : ℕ). or_zero_hash (g l n)) at,
            ap (λ (n : ℕ). or_zero_hash (g l (n + 1))) at,
          ))
    | inr odd ↦
        let at : j ≡ 2 * (j / 2) + 1 = ground arith in
        let below : j - 1 ≡ 2 * (j / 2) = omega arith in
        rw odd (
          ap₂ (hash_node blake3) (ap (λ (n : ℕ). or_zero_hash (g l n)) below)
            (ap (λ (n : ℕ). or_zero_hash (g l n)) at))
  ]

  pair_hash-write :
      (level index : ℕ) (h : Hash) (g : Grid) (l p : ℕ)
      → ((l ≡ level) → (p ≡ index / 2) → ⊥)
      → pair_hash (write level index h g) l p ≡ pair_hash g l p
  unfolding pair_hash
  pair_hash-write level index h g l p apart = rw (
    write_apart level index h g l (2 * p) (λ e q. apart e (omega arith)),
    write_apart level index h g l (2 * p + 1) (λ e q. apart e (omega arith)),
  )

  -- The node at level `l + 1` and index `p` is there, and is the hash of the two below it.
  abbrev pub Hashed : Grid → ℕ → ℕ → Type 0
  Hashed g l p = g (l + 1) p ≡ some (pair_hash g l p)

  -- Above every node stands its parent, but perhaps above that at `level` and `index`.
  abbrev HashedBut : ℕ → ℕ → ℕ → Grid → Type 0
  HashedBut height level index g =
      (l j : ℕ)
      → l < height
      → IsSome (g l j)
      → Hashed g l (j / 2) ⊎ ((l ≡ level) × (j / 2 ≡ index / 2))

  Hashed-write :
      (level index : ℕ) (h : Hash) (g : Grid) (l p : ℕ)
      → ((l + 1 ≡ level) → (p ≡ index) → ⊥)
      → ((l ≡ level) → (p ≡ index / 2) → ⊥)
      → Hashed g l p
      → Hashed (write level index h g) l p
  Hashed-write level index h g l p a b e =
      rw (write_apart level index h g (l + 1) p a, pair_hash-write level index h g l p b) e

  IsSome-write :
      (level index : ℕ) (h : Hash) (g : Grid) (l j : ℕ)
      → ((l ≡ level) → (j ≡ index) → ⊥)
      → IsSome (write level index h g l j)
      → IsSome (g l j)
  IsSome-write level index h g l j apart present =
      rw (write_apart level index h g l j apart) at present

  module _ (height level index : ℕ) (g : Grid) (before : HashedBut height level index g) where
    abbrev after_write : Grid
    after_write = write (level + 1) (index / 2) (pair_hash g level (index / 2)) g

    Hashed-at : Hashed after_write level (index / 2)
    Hashed-at =
        rw
          (pair_hash-write (level + 1) (index / 2) (pair_hash g level (index / 2)) g level
            (index / 2) (λ e q. omega arith))
          (write_self (level + 1) (index / 2) (pair_hash g level (index / 2)) g)

    Hashed-away :
        (l j : ℕ)
        → l < height
        → IsSome (after_write l j)
        → ((l ≡ level) → (j / 2 ≡ index / 2) → ⊥)
        → ((l ≡ level + 1) → (j / 2 ≡ index / 2 / 2) → ⊥)
        → Hashed after_write l (j / 2)
    Hashed-away l j lt present off far =
        let there =
          IsSome-write (level + 1) (index / 2) _ g l j (λ e q. far e (omega arith)) present in
        elim (before l j lt there) [
          | inl good ↦
              Hashed-write (level + 1) (index / 2) _ g l (j / 2) (λ e q. off (omega arith) q) far
                good
          | inr (e, q) ↦ absurd (off e q)
        ]

    write_step : HashedBut height (level + 1) (index / 2) after_write
    write_step l j lt present = elim (Bool-cases (nat_beq l level && nat_beq (j / 2) (index / 2))) [
      | inl at ↦
          let el : l ≡ level = ground arith in
          let ej : j / 2 ≡ index / 2 = ground arith in inl (rw (el, ej) Hashed-at)
      | inr off ↦ elim (Bool-cases (nat_beq l (level + 1) && nat_beq (j / 2) (index / 2 / 2))) [
        | inl up ↦ inr (ground arith)
        | inr far ↦ inl (Hashed-away l j lt present (λ e q. ground arith) (λ e q. ground arith))
      ]
    ]

  -- Above every node below the root stands the hash of it and its sibling.
  abbrev pub AllHashed : ℕ → Grid → Type 0
  AllHashed height g = (l j : ℕ) → l < height → IsSome (g l j) → Hashed g l (j / 2)

  -- The loop leaves a tree in which every parent is right.
  update_levels-AllHashed :
      (rounds level index height : ℕ) (nodes : Nodes)
      → level + rounds ≡ height
      → HashedBut height level index (entry nodes)
      → AllHashed height (entry (update_levels blake3 rounds level index nodes))
  unfolding update_levels
  update_levels-AllHashed zero level index height nodes e h = λ l j lt present.
      elim (h l j lt present) [ inl good ↦ good | inr (at, _) ↦ absurd (omega arith) ]
  update_levels-AllHashed (suc rounds) level index height nodes e h =
      update_levels-AllHashed rounds (level + 1) (index / 2) height
        (Map.insert (record { level = level + 1; index = index / 2 })
          (parent_hash blake3 index (get_node_hash nodes level index)
            (get_node_hash nodes level (sibling_index index)))
          nodes)
        (omega arith)
        (subst (HashedBut height (level + 1) (index / 2))
          (sym (
            entry-insert-write (level + 1) (index / 2) _ nodes
            ∙ ap (λ (x : Hash). write (level + 1) (index / 2) x (entry nodes))
                (parent_hash-eq-pair_hash (entry nodes) level index)))
          (write_step height level index (entry nodes) h))

  -- A node at or below the level where the loop starts is left alone.
  update_levels_below :
      (rounds level index : ℕ) (nodes : Nodes) (l j : ℕ)
      → l ≤ level
      → entry (update_levels blake3 rounds level index nodes) l j ≡ entry nodes l j
  unfolding update_levels
  update_levels_below zero level index nodes l j h = refl
  update_levels_below (suc rounds) level index nodes l j h =
      update_levels_below rounds (level + 1) (index / 2) _ l j (omega arith)
      ∙ entry-insert (level + 1) (index / 2) _ nodes l j
      ∙ write_apart (level + 1) (index / 2) _ (entry nodes) l j (λ e q. omega arith)

  -- The invariant: the root is the top node, above every node stands the hash of it and its
  -- sibling, and the leaf hashes are the nodes of level 0.
  pub record IsValid (t : SparseMerkleTreeImpl) : Type 0 where
    pub hashed : AllHashed t.height (entry t.nodes)
    pub rooted : t.root ≡ get_node_hash t.nodes t.height 0
    pub stored : (j : ℕ) (h : Hash) → Map.get j t.leaves ≡ some h → entry t.nodes 0 j ≡ some h

  leaf_written :
      (height index : ℕ) (leaf : Hash) (nodes : Nodes)
      → AllHashed height (entry nodes)
      → HashedBut height 0 index (write 0 index leaf (entry nodes))
  leaf_written height index leaf nodes h l j lt present =
      elim (Bool-cases (nat_beq l 0 && nat_beq (j / 2) (index / 2))) [
        | inl at ↦ inr (ground arith)
        | inr off ↦ inl (
            Hashed-write 0 index leaf (entry nodes) l (j / 2) (λ e q. omega arith)
              (λ e q. ground arith)
              (h l j lt (
                IsSome-write 0 index leaf (entry nodes) l j
                  (λ e q. ground (arith, ap (λ (n : ℕ). n / 2) q)) present)))
      ]

  stored_again :
      (index : ℕ) (leaf : Hash) (t : SparseMerkleTreeImpl)
      → IsValid t
      → (j : ℕ) (h : Hash) → Map.get j (Map.insert index leaf t.leaves) ≡ some h
      → write 0 index leaf (entry t.nodes) 0 j ≡ some h
  unfolding write
  stored_again index leaf t v j h e = ground (arith, get-insert index j leaf t.leaves, v.stored j h)

  -- A write of a leaf keeps the invariant, at every index.
  pub store_leaf-IsValid :
      (index : ℕ) (value : List ℕ) (t : SparseMerkleTreeImpl)
      → IsValid t
      → IsValid (store_leaf blake3 index value t)
  unfolding store_leaf update_path
  store_leaf-IsValid index value t v =
      let leaf = hash_leaf blake3 value in
      let nodes = Map.insert (record { level = 0; index = index }) leaf t.nodes in
      record {
        hashed = update_levels-AllHashed t.height 0 index t.height nodes (omega arith) (
            subst (HashedBut t.height 0 index) (sym (entry-insert-write 0 index leaf t.nodes))
              (leaf_written t.height index leaf t.nodes v.hashed));
        rooted = refl;
        stored = λ j h e.
            update_levels_below t.height 0 index nodes 0 j (omega arith)
            ∙ entry-insert 0 index leaf t.nodes 0 j
            ∙ stored_again index leaf t v j h e;
      }
