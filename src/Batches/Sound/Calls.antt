-- ===== src/Batches/Sound/Calls.antt =====
-- A batch manager under any sequence of calls (dsm/src/core/state_machine/batch.rs): every batch
-- that it lists gives proofs of its transitions, and is verified.
use dsm_decentralized_state.Base.{
  ℕ, zero, suc, ◌<◌, ◌≡◌, refl, ap, sym, true, false, Option, some, List, [], ◌∷◌, map, arith, inl,
  inr, length, leb, nat_eq, list_beq, list_eq, get_elem?, Bool-cases, Option-cases,
}
use dsm_decentralized_state.Base.Map
use dsm_decentralized_state.Base.Result.{ok}
use dsm_decentralized_state.Merkle.Sparse
use dsm_decentralized_state.Merkle.Sparse.{MerkleProof, insert_all, get_proof}
use dsm_decentralized_state.Merkle.Sparse.Again.{built-proof}
use dsm_decentralized_state.State.Model.{State, Primitives, state_hash}
use dsm_decentralized_state.Chain.{StateTransition}
use dsm_decentralized_state.Batches.{StateBatch, BatchBuilder, Codec}
use dsm_decentralized_state.Batches.Manager.{
  BatchManager, new, start_batch, add_transition, finalize_batch, get_batch,
  retrieve_batch_transitions, generate_transition_proof, compare_stored, verify_transition_in_batch,
  verify_root, verify_batch, with_transition,
}
use dsm_decentralized_state.Batches.Sound.{
  bytes, IsBuilt, IsSound, new-IsSound, start_batch-IsSound, add_transition-IsSound,
  finalize_batch-IsSound, finalize_batch_lem,
}

pub data Call : Type 0 where
  start : Option State → Call
  add : StateTransition → Call
  finalize : Call

get_elem?-map :
    {A B : Type 0} (f : A → B) (xs : List A) (i : ℕ) (x : A)
    → get_elem? xs i ≡ some x
    → get_elem? (map f xs) i ≡ some (f x)
get_elem?-map f [] i x e = cc
get_elem?-map f (y ∷ xs) zero x e = cc
get_elem?-map f (y ∷ xs) (suc i) x e = get_elem?-map f xs i x e

elem_at : {A : Type 0} (xs : List A) (i : ℕ) → i < length xs → (x : A) × (get_elem? xs i ≡ some x)
elem_at [] i lt = absurd (omega arith)
elem_at (x ∷ xs) zero lt = (x, refl)
elem_at (x ∷ xs) (suc i) lt = elem_at xs i (omega arith)

module _ (p : Primitives) (codec : Codec) where
  unfoldable pub run : Call → BatchManager → BatchManager
  run (start prev) m = (start_batch p codec prev m).0
  run (add t) m = (add_transition p codec t m).0
  run finalize m = (finalize_batch p codec m).0

  -- The manager after calls, the first of the list made first.
  unfoldable pub run_all : List Call → BatchManager → BatchManager
  unfolding run
  run_all [] m = m
  run_all (call ∷ calls) m = run_all calls (run call m)

  run-IsSound : (call : Call) (m : BatchManager) → IsSound p codec m → IsSound p codec (run call m)
  unfolding run
  run-IsSound (start prev) m s = start_batch-IsSound p codec prev m s
  run-IsSound (add t) m s = add_transition-IsSound p codec t m s
  run-IsSound finalize m s = finalize_batch-IsSound p codec m s

  -- Every sequence of calls keeps the invariant of a manager.
  run_all-IsSound :
      (calls : List Call) (m : BatchManager) → IsSound p codec m → IsSound p codec (run_all calls m)
  unfolding run_all
  run_all-IsSound [] m s = s
  run_all-IsSound (call ∷ calls) m s = run_all-IsSound calls (run call m) (run-IsSound call m s)

  listed :
      (n : ℕ) (m : BatchManager) (batch : StateBatch)
      → get_batch n m ≡ ok batch
      → Map.get n m.batches ≡ some batch
  unfolding get_batch
  listed n m batch e = elim (Option-cases (Map.get n m.batches)) [
    | inl missing ↦ absurd (cc (e, missing))
    | inr (b, there) ↦ cc (e, there)
  ]

  -- Writing equal bytes at an index changes nothing.
  with_transition-bytes :
      (ts : List StateTransition) (i : ℕ) (t s : StateTransition)
      → get_elem? ts i ≡ some s
      → codec.serialize_transition t ≡ codec.serialize_transition s
      → bytes p codec (with_transition i t ts) ≡ bytes p codec ts
  with_transition-bytes [] i t s e same = refl
  with_transition-bytes (x ∷ ts) zero t s e same = cc
  with_transition-bytes (x ∷ ts) (suc i) t s e same =
      ap (λ vs. codec.serialize_transition x ∷ vs) (with_transition-bytes ts i t s e same)

  module _ (placeholder : StateBatch → ℕ → StateTransition) where
    retrieve-cached :
        (n : ℕ) (ts : List StateTransition) (m : BatchManager)
        → Map.get n m.transition_cache ≡ some ts
        → retrieve_batch_transitions p codec placeholder n m ≡ ok ts
    unfolding retrieve_batch_transitions
    retrieve-cached n ts m e = rw (retrieve_batch_transitions, e) refl

    generate-built :
        (n index : ℕ) (m : BatchManager) (batch : StateBatch) (ts : List StateTransition)
        → get_batch n m ≡ ok batch
        → retrieve_batch_transitions p codec placeholder n m ≡ ok ts
        → index < length ts
        → (b : IsBuilt p codec batch ts) → (proof : MerkleProof) → get_proof index b.tree ≡ ok proof
        → generate_transition_proof p codec placeholder n index m ≡ ok (codec.serialize_proof proof)
    unfolding generate_transition_proof
    generate-built n index m batch ts there cached within b proof proved =
        let below : leb batch.transition_count index ≡ false = ground (arith, b.count) in
        let root : list_beq b.tree.root batch.transitions_root ≡ true =
          (list_eq.beq_iff _ _).1 (sym b.root) in
        rw (generate_transition_proof, there, below, cached, b.built, root, proved) refl

    compare-built :
        (index : ℕ) (t s : StateTransition) (batch : StateBatch) (ts : List StateTransition)
        → IsBuilt p codec batch ts
        → get_elem? ts index ≡ some s
        → compare_stored p codec placeholder batch index t ts (get_elem? ts index)
          ≡ ok (list_beq (codec.serialize_transition t) (codec.serialize_transition s))
    unfolding compare_stored
    compare-built index t s batch ts b at =
        let root : list_beq b.tree.root batch.transitions_root ≡ true =
          (list_eq.beq_iff _ _).1 (sym b.root) in
        elim (Bool-cases (list_beq (codec.serialize_transition t) (codec.serialize_transition s))) [
          | inr other ↦ rw (at, compare_stored, other) refl
          | inl same ↦
              let kept = with_transition-bytes ts index t s at ((list_eq.beq_iff _ _).0 same) in
              rw (at, compare_stored, same, kept, b.built, root) refl
        ]

    verify_root-built :
        (batch : StateBatch) (ts : List StateTransition)
        → IsBuilt p codec batch ts
        → verify_root p codec placeholder batch (ok ts) ≡ true
    unfolding verify_root
    verify_root-built batch ts b =
        let root : list_beq b.tree.root batch.transitions_root ≡ true =
          (list_eq.beq_iff _ _).1 (sym b.root) in
        rw (verify_root, b.built, root, b.bare) refl

    -- The manager that calls leave, from a new one on.
    abbrev pub after : List Call → BatchManager
    after calls = run_all calls new

    -- The transition that a manager has cached for an index of a batch.
    abbrev pub IsStored : ℕ → ℕ → StateTransition → BatchManager → Type 0
    IsStored n index t m =
        (ts : List StateTransition) × (Map.get n m.transition_cache ≡ some ts)
        × (get_elem? ts index ≡ some t)

    entries :
        (calls : List Call) (n : ℕ) (batch : StateBatch)
        → get_batch n (after calls) ≡ ok batch
        → (batch.batch_number ≡ n)
          × ((ts : List StateTransition) × (Map.get n (after calls).transition_cache ≡ some ts)
              × IsBuilt p codec batch ts)
    entries calls n batch there =
        (run_all-IsSound calls new (new-IsSound p codec)).each n batch
          (listed n (after calls) batch there)

    -- After any calls on a new manager, for a batch that `get_batch` returns and an index below its
    -- number of transitions: the manager has a transition cached for the index,
    -- `generate_transition_proof` returns a proof, and `sparse_merkle_tree::verify_proof` accepts
    -- the proof for the bytes of the transition and the root that the batch carries.
    pub generate_transition_proof_lem :
        (calls : List Call) (n index : ℕ) (batch : StateBatch)
        → get_batch n (after calls) ≡ ok batch
        → index < batch.transition_count
        → (t : StateTransition) × (proof : MerkleProof) × IsStored n index t (after calls)
          × (generate_transition_proof p codec placeholder n index (after calls)
              ≡ ok (codec.serialize_proof proof))
          × (Sparse.verify_proof p.blake3 batch.transitions_root
                (codec.serialize_transition t)
                proof
              ≡ true)
    generate_transition_proof_lem calls n index batch there within =
        let (_, (ts, cached, b)) = entries calls n batch there in
        let (t, at) = elem_at ts index (omega (arith, b.count)) in
        let (proof, proved, accepted) =
          built-proof p.blake3 16 (bytes p codec ts) b.tree index (codec.serialize_transition t)
            b.room b.built (get_elem?-map codec.serialize_transition ts index t at) in
        (
          t,
          proof,
          (ts, cached, at),
          generate-built n index (after calls) batch ts there
              (retrieve-cached n ts (after calls) cached) (omega (arith, b.count)) b proof proved,
          rw b.root accepted,
        )

    -- After any calls on a new manager, for a batch that `get_batch` returns, an index below its
    -- number of transitions and any transition: `verify_transition_in_batch` returns whether the
    -- transition has the bytes of the one that the manager has cached for the index.
    pub verify_transition_in_batch_lem :
        (calls : List Call) (n index : ℕ) (batch : StateBatch) (t : StateTransition)
        → get_batch n (after calls) ≡ ok batch
        → index < batch.transition_count
        → (s : StateTransition) × IsStored n index s (after calls)
          × (verify_transition_in_batch p codec placeholder n index t (after calls)
              ≡ ok (list_beq (codec.serialize_transition t) (codec.serialize_transition s)))
    unfolding verify_transition_in_batch
    verify_transition_in_batch_lem calls n index batch t there within =
        let (_, (ts, cached, b)) = entries calls n batch there in
        let (s, at) = elem_at ts index (omega (arith, b.count)) in
        let below : leb batch.transition_count index ≡ false = ground arith in
        (
          s,
          (ts, cached, at),
          rw (verify_transition_in_batch, there, below, retrieve-cached n ts (after calls) cached)
              (compare-built index t s batch ts b at),
        )

    -- After any calls on a new manager, `verify_batch` accepts a batch that `get_batch` returns
    -- exactly for a last state with the hash that the batch carries.
    pub verify_batch_lem :
        (calls : List Call) (n : ℕ) (batch : StateBatch) (last : State)
        → get_batch n (after calls) ≡ ok batch
        → verify_batch p codec placeholder batch last (after calls)
          ≡ list_beq batch.prev_state_hash (state_hash p last)
    unfolding verify_batch
    verify_batch_lem calls n batch last there =
        let (number, (ts, cached, b)) = entries calls n batch there in
        let found = retrieve-cached n ts (after calls) cached in
        elim (Bool-cases (list_beq batch.prev_state_hash (state_hash p last))) [
          | inr other ↦ rw (verify_batch, other) refl
          | inl same ↦ rw (verify_batch, same, number, found) (verify_root-built batch ts b)
        ]

    -- After any calls on a new manager, `finalize_batch` returns a batch wherever a builder is
    -- active: one with as many transitions as the builder has, which `get_batch` then finds under
    -- the number of the builder.
    pub finalize_batch-get_batch :
        (calls : List Call) (b : BatchBuilder)
        → (after calls).active_batch ≡ some b
        → (batch : StateBatch) × ((finalize_batch p codec (after calls)).1 ≡ ok batch)
          × (batch.transition_count ≡ length b.transitions)
          × (get_batch b.batch_number (finalize_batch p codec (after calls)).0 ≡ ok batch)
    finalize_batch-get_batch calls b busy =
        let (batch, done, f) =
          finalize_batch_lem p codec b (after calls)
            (run_all-IsSound calls new (new-IsSound p codec)) busy in
        (batch, done, f.built.count, f.listed)
