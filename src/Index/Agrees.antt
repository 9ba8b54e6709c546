-- ===== src/Index/Agrees.antt =====
-- What the additions to a sparse index keep (`add_state` in dsm/src/core/index/mod.rs).
use dsm_decentralized_state.Base.{
  ℕ, ◌<◌, ◌≡◌, refl, sym, ap, ◌∙◌, Bool, true, false, Option, some, List, [], ◌∷◌, arith, nat_beq,
  nat_eq, Bool-cases, Option-cases, inl, inr,
}
use mathlib.Core.Path.{subst}
use dsm_decentralized_state.Base.Map
use dsm_decentralized_state.Base.Map.{Map, get-insert, get-insert_self}
use dsm_decentralized_state.Base.Result.{Result, ok, Result-cases}
use dsm_decentralized_state.Merkle.Sparse
use dsm_decentralized_state.Merkle.Sparse.{SparseMerkleTreeImpl}
use dsm_decentralized_state.State.Model.{State, Primitives, state_hash}
use dsm_decentralized_state.Index.{
  SparseIndexManager, new, is_checkpoint, prune, note_state, insert_leaf, store_checkpoint,
  add_state, get_state_by_number,
}
use dsm_decentralized_state.Index.Pruning.{CanPrune, prune_lem}
use dsm_decentralized_state.Index.Serves.{IsChain, Agrees, get_state_by_number-chain}

-- The checkpoints are states of the chain, genesis is among them, and pruning does not panic.
pub record Serving (chain : ℕ → State) (m : SparseIndexManager) : Type 0 where
  pub agrees : Agrees chain m
  pub genesis : (g : State) × (Map.get 0 m.checkpoints ≡ some g)
  pub safe : CanPrune m.checkpoint_interval

prune-Serving :
    (chain : ℕ → State) (m : SparseIndexManager) → Serving chain m → Serving chain (prune m).0
prune-Serving chain m v =
    let (m', done, kept) = prune_lem m v.safe in
    rw done record {
      agrees = λ k c held. v.agrees k c (kept.narrowed k c held);
      genesis = (v.genesis.0, kept.genesis_kept ∙ v.genesis.1);
      safe = rw kept.interval_kept v.safe;
    }

with_tree-Serving :
    (chain : ℕ → State) (m : SparseIndexManager) (tree : SparseMerkleTreeImpl)
    → Serving chain m
    → Serving chain (record m { merkle_tree = some tree })
with_tree-Serving chain m tree v = record { agrees = v.agrees; genesis = v.genesis; safe = v.safe }

-- A state of the chain becomes a checkpoint.
with_checkpoint-Agrees :
    (chain : ℕ → State) (s : State) (m : SparseIndexManager)
    → s ≡ chain s.state_number
    → Agrees chain m
    → Agrees chain (record m { checkpoints = Map.insert s.state_number s m.checkpoints })
with_checkpoint-Agrees chain s m e a k c held = elim (Bool-cases (nat_beq s.state_number k)) [
  | inl same ↦
      let at : s.state_number ≡ k = ground arith in
      let stored : s ≡ c = ground (arith, get-insert s.state_number k s m.checkpoints) in
      sym stored ∙ e ∙ ap chain at
  | inr other ↦ a k c (ground (arith, get-insert s.state_number k s m.checkpoints))
]

with_checkpoint-genesis :
    (s : State) (m : SparseIndexManager) (g : State)
    → Map.get 0 m.checkpoints ≡ some g
    → (h : State) × (Map.get 0 (Map.insert s.state_number s m.checkpoints) ≡ some h)
with_checkpoint-genesis s m g held = elim (Bool-cases (nat_beq s.state_number 0)) [
  | inl zeroth ↦ (s, rw (get-insert s.state_number 0 s m.checkpoints, zeroth) refl)
  | inr other ↦ (g, rw (get-insert s.state_number 0 s m.checkpoints, other) held)
]

module _ (p : Primitives) (chain : ℕ → State) where
  insert_leaf-Serving :
      (s : State) (m : SparseIndexManager) → Serving chain m → Serving chain (insert_leaf p s m).0
  unfolding insert_leaf
  insert_leaf-Serving s m v = elim (Option-cases m.merkle_tree) [
    | inl treeless ↦ rw (insert_leaf, treeless) (prune-Serving chain m v)
    | inr (tree, has) ↦
        elim (Result-cases (Sparse.insert p.blake3 s.state_number (state_hash p s) tree)) [
          | inr (e, full) ↦ rw (insert_leaf, has, full) v
          | inl (tree', stored) ↦
              rw (insert_leaf, has, stored)
                (prune-Serving chain (record m { merkle_tree = some tree' })
                  (with_tree-Serving chain m tree' v))
        ]
  ]

  note_state-Agrees :
      (s : State) (m : SparseIndexManager) → Agrees chain m → Agrees chain (note_state p s m)
  unfolding note_state
  note_state-Agrees s m a = a

  store_checkpoint-Serving :
      (s : State) (m : SparseIndexManager)
      → s ≡ chain s.state_number
      → Serving chain m
      → Serving chain (store_checkpoint p s m).0
  unfolding store_checkpoint
  store_checkpoint-Serving s m e v =
      insert_leaf-Serving s (record m { checkpoints = Map.insert s.state_number s m.checkpoints })
        record {
          agrees = with_checkpoint-Agrees chain s m e v.agrees;
          genesis = with_checkpoint-genesis s m v.genesis.0 v.genesis.1;
          safe = v.safe;
        }

  note_state-Serving :
      (s : State) (m : SparseIndexManager) → Serving chain m → Serving chain (note_state p s m)
  unfolding note_state
  note_state-Serving s m v = record { agrees = v.agrees; genesis = v.genesis; safe = v.safe }

  -- Whatever `add_state` returns of a state of the chain, ok or an error: the checkpoints it leaves
  -- are still states of the chain under their numbers, and genesis is still among them, also after
  -- the pruning.
  pub add_state-Serving :
      (s : State) (m : SparseIndexManager)
      → s ≡ chain s.state_number
      → Serving chain m
      → Serving chain (add_state p s m).0
  unfolding add_state
  add_state-Serving s m e v = elim (Result-cases (is_checkpoint s.state_number m)) [
    | inr (x, panicked) ↦ rw (add_state, panicked) (note_state-Serving s m v)
    | inl (true, at) ↦
        rw (add_state, at)
          (store_checkpoint-Serving s (note_state p s m) e (note_state-Serving s m v))
    | inl (false, between) ↦ rw (add_state, between) (note_state-Serving s m v)
  ]

  -- A first checkpoint, of the state with number 0.
  first_checkpoint-Serving :
      (s : State) (m : SparseIndexManager)
      → s ≡ chain s.state_number
      → s.state_number ≡ 0
      → CanPrune m.checkpoint_interval
      → Agrees chain m
      → Serving chain (store_checkpoint p s m).0
  unfolding store_checkpoint
  first_checkpoint-Serving s m e zeroth safe a =
      insert_leaf-Serving s (record m { checkpoints = Map.insert s.state_number s m.checkpoints })
        record {
          agrees = with_checkpoint-Agrees chain s m e a;
          genesis = (
            s,
            subst (λ (n : ℕ). Map.get n (Map.insert s.state_number s m.checkpoints) ≡ some s) zeroth
                (get-insert_self s.state_number s m.checkpoints),
          );
          safe = safe;
        }

  new-Agrees :
      (interval : ℕ) (with_merkle_tree : Bool) (height age : Option ℕ)
      → Agrees chain (new interval with_merkle_tree height age)
  unfolding new Map.get
  new-Agrees interval with_merkle_tree height age k c held = cc

  genesis_is_checkpoint :
      (n interval : ℕ) (with_merkle_tree : Bool) (height age : Option ℕ)
      → CanPrune interval
      → n ≡ 0
      → is_checkpoint n (new interval with_merkle_tree height age) ≡ ok true
  unfolding new is_checkpoint
  genesis_is_checkpoint n interval with_merkle_tree height age safe zeroth =
      let positive : 0 < interval = omega arith in ground arith

  pub add_genesis-Serving :
      (interval : ℕ) (with_merkle_tree : Bool) (height age : Option ℕ)
      → CanPrune interval
      → (chain 0).state_number ≡ 0
      → Serving chain (add_state p (chain 0) (new interval with_merkle_tree height age)).0
  unfolding add_state
  add_genesis-Serving interval with_merkle_tree height age safe zeroth =
      let m = new interval with_merkle_tree height age in
      rw
        (
          add_state,
          genesis_is_checkpoint (chain 0).state_number interval with_merkle_tree height age safe
              zeroth,
        )
        (first_checkpoint-Serving (chain 0) (note_state p (chain 0) m) (sym (ap chain zeroth))
          zeroth (unfold new note_state in safe)
          (note_state-Agrees (chain 0) m (new-Agrees interval with_merkle_tree height age)))

  -- The states with the numbers of a list are added one after another, whatever each returns.
  unfoldable pub add_all : List ℕ → SparseIndexManager → SparseIndexManager
  add_all [] m = m
  add_all (n ∷ ns) m = add_all ns (add_state p (chain n) m).0

  add_all-Serving :
      (ns : List ℕ) (m : SparseIndexManager)
      → ((n : ℕ) → (chain n).state_number ≡ n)
      → Serving chain m
      → Serving chain (add_all ns m)
  unfolding add_all
  add_all-Serving [] m numbered v = v
  add_all-Serving (n ∷ ns) m numbered v =
      add_all-Serving ns (add_state p (chain n) m).0 numbered
        (add_state-Serving (chain n) m (sym (ap chain (numbered n))) v)

  -- Take a chain of states that are numbered from 0 on, each with the hash of the one before. From
  -- a new manager with an interval whose tenfold is not 0 in 64 bits, add the genesis state and then
  -- the states with any numbers, in any order, whatever the additions return. With a callback that
  -- serves the chain, `get_state_by_number` then answers every number, those that were never added
  -- included, with the state of the chain.
  pub add_all-get_state_by_number :
      (fetch : ℕ → Result (Option State)) (ns : List ℕ) (n interval : ℕ) (with_merkle_tree : Bool)
      (height age : Option ℕ)
      → CanPrune interval
      → ((k : ℕ) → (chain k).state_number ≡ k)
      → IsChain p chain
      → ((k : ℕ) → fetch k ≡ ok (some (chain k)))
      → get_state_by_number p fetch n (add_all (0 ∷ ns) (new interval with_merkle_tree height age))
        ≡ ok (some (chain n))
  unfolding add_all
  add_all-get_state_by_number fetch ns n interval with_merkle_tree height age safe numbered linked
        served =
      let m = (add_state p (chain 0) (new interval with_merkle_tree height age)).0 in
      let v =
        add_all-Serving ns m numbered
          (add_genesis-Serving interval with_merkle_tree height age safe (numbered 0)) in
      get_state_by_number-chain p fetch chain linked served n v.genesis.0 (add_all ns m) v.agrees
        v.genesis.1
