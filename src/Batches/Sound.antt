-- ===== src/Batches/Sound.antt =====
-- The batches that a manager finalized (dsm/src/core/state_machine/batch.rs): what `build` makes of
-- a builder, and the invariant that every call keeps.
pub mod Calls
use mathlib.Core.Path.{subst}
use dsm_decentralized_state.Base.{
  ℕ, suc, ◌+◌, ◌≤◌, ◌<◌, ◌≡◌, refl, ap, ◌∙◌, sym, Option, none, some, List, [], ◌∷◌, ◌++◌, map,
  arith, inl, inr, length, nat_eq, nat_beq_iff, nat_beq, Option-cases, Bool-cases, if◌then◌else◌,
}
use dsm_decentralized_state.Base.Map
use dsm_decentralized_state.Base.Map.{get-insert, get-insert_self}
use dsm_decentralized_state.Base.Result.{ok, err, ◌>>=◌}
use dsm_decentralized_state.Merkle.Sparse
use dsm_decentralized_state.Merkle.Sparse.{SparseMerkleTreeImpl, max_leaves, insert, insert_all}
use dsm_decentralized_state.Merkle.Sparse.Again.{
  insert_all-nil, insert_all-snoc, built_again, built-insert, new-root,
}
use dsm_decentralized_state.State.Operation.{Bytes}
use dsm_decentralized_state.State.Model.{State, Primitives}
use dsm_decentralized_state.Chain.{StateTransition}
use dsm_decentralized_state.Batches.{
  StateBatch, BatchBuilder, Codec, new_builder, new_batch, push_transition, build_from, build,
  or_tree, zeros, earliest, latest,
}
use dsm_decentralized_state.Batches.Manager.{
  BatchManager, new, start_batch, add_to, add_transition, finish, finalize_batch, get_batch,
}

length-snoc :
    {A B : Type 0} (f : A → B) (xs : List A) (x : A)
    → length (map f (xs ++ x ∷ [])) ≡ suc (length xs)
length-snoc f [] x = refl
length-snoc f (y ∷ xs) x = ap suc (length-snoc f xs x)

length-map : {A B : Type 0} (f : A → B) (xs : List A) → length (map f xs) ≡ length xs
length-map f [] = refl
length-map f (x ∷ xs) = ap suc (length-map f xs)

map-snoc :
    {A B : Type 0} (f : A → B) (xs : List A) (x : A) → map f (xs ++ x ∷ []) ≡ map f xs ++ f x ∷ []
map-snoc f [] x = refl
map-snoc f (y ∷ xs) x = ap (λ ys. f y ∷ ys) (map-snoc f xs x)

module _ (p : Primitives) (codec : Codec) where
  abbrev pub bytes : List StateTransition → List Bytes
  bytes ts = map codec.serialize_transition ts

  -- The tree of a builder is the one that its transitions make of a new tree.
  pub record IsGrown (b : BatchBuilder) : Type 0 where
    pub room : length (bytes b.transitions) ≤ max_leaves 16
    pub grown : insert_all p.blake3 0 (bytes b.transitions) (Sparse.new 16) ≡ ok (or_tree b.tree 16)
    pub planted : b.tree ≡ none → b.transitions ≡ []
    pub bare : b.commitments ≡ []

  -- A batch is the one of the transitions.
  pub record IsBuilt (batch : StateBatch) (ts : List StateTransition) : Type 0 where
    pub count : batch.transition_count ≡ length ts
    pub room : length (bytes ts) ≤ max_leaves 16
    pub tree : SparseMerkleTreeImpl
    pub built : insert_all p.blake3 0 (bytes ts) (Sparse.new 16) ≡ ok tree
    pub root : batch.transitions_root ≡ tree.root
    pub bare : batch.commitments ≡ []

  new_builder-IsGrown : (n : ℕ) (prev : Bytes) → IsGrown (new_builder n prev)
  unfolding new_builder
  new_builder-IsGrown n prev = record {
    room = omega arith;
    grown = insert_all-nil p.blake3 0 (Sparse.new 16);
    planted = λ e. refl;
    bare = refl;
  }

  push_transition-IsGrown :
      (t : StateTransition) (b : BatchBuilder) → IsGrown b → IsGrown (push_transition p codec t b).0
  unfolding push_transition
  push_transition-IsGrown t b g =
      let len = length-map codec.serialize_transition b.transitions in
      elim (built-insert p.blake3 16 (bytes b.transitions) (codec.serialize_transition t)
        (or_tree b.tree 16) g.room g.grown) [
          | inl (full, refused) ↦
              rw (push_transition, rw len at refused)
                (record { room = g.room; grown = g.grown; planted = λ e. cc; bare = g.bare })
          | inr (tree, within, done) ↦
              rw (push_transition, rw len at done)
                (record {
                  room = omega (arith, length-snoc codec.serialize_transition b.transitions t, len);
                  grown =
                      ap (λ vs. insert_all p.blake3 0 vs (Sparse.new 16))
                        (map-snoc codec.serialize_transition b.transitions t)
                      ∙ insert_all-snoc p.blake3 0 (bytes b.transitions)
                          (codec.serialize_transition t) (Sparse.new 16)
                      ∙ ap
                          (λ r.
                            r
                            >>= insert p.blake3 (0 + length (bytes b.transitions))
                                (codec.serialize_transition t))
                          g.grown
                      ∙ (let at : 0 + length (bytes b.transitions) ≡ length (bytes b.transitions) =
                            omega arith in
                          rw at done);
                  planted = λ e. cc;
                  bare = g.bare;
                })
        ]

  -- `build` by the transitions of the builder
  build_from_lem :
      (ts : List StateTransition) (b : BatchBuilder)
      → b.transitions ≡ ts
      → IsGrown b
      → (batch : StateBatch) × (build_from p codec ts b ≡ ok batch)
        × IsBuilt batch ts
        × (batch.batch_number ≡ b.batch_number)
  unfolding build_from new_batch
  build_from_lem [] b e g = (
    new_batch b.batch_number b.prev_state_hash zeros 0 (0, 0) b.commitments none,
    refl,
    record {
      count = refl;
      room = omega arith;
      tree = Sparse.new 16;
      built = insert_all-nil p.blake3 0 (Sparse.new 16);
      root = sym (new-root 16);
      bare = g.bare;
    },
    refl,
  )
  build_from_lem (t ∷ ts) b e g = elim (Option-cases b.tree) [
    | inl bald ↦ absurd (cc (e, g.planted bald))
    | inr (tree, has) ↦
        let grown : insert_all p.blake3 0 (bytes (t ∷ ts)) (Sparse.new 16) ≡ ok tree =
          rw (e, has) at g.grown in
        let room : length (bytes (t ∷ ts)) ≤ max_leaves 16 = rw e at g.room in
        let (tree', done, same) = built_again p.blake3 16 (bytes (t ∷ ts)) tree room grown in
        (
          new_batch b.batch_number b.prev_state_hash tree'.root (length (t ∷ ts))
              (earliest t.timestamp ts, latest t.timestamp ts) b.commitments none,
          rw (build_from, has, done) refl,
          record {
            count = refl;
            room = room;
            tree = tree;
            built = grown;
            root = same;
            bare = g.bare;
          },
          refl,
        )
  ]

  build_lem :
      (b : BatchBuilder)
      → IsGrown b
      → (batch : StateBatch) × (build p codec b ≡ ok batch)
        × IsBuilt batch b.transitions
        × (batch.batch_number ≡ b.batch_number)
  unfolding build
  build_lem b g = build_from_lem b.transitions b refl g

  -- The invariant of a manager: of every batch it has the transitions, and the active builder is
  -- grown from its transitions.
  pub record IsSound (m : BatchManager) : Type 0 where
    pub each :
        (n : ℕ) (batch : StateBatch)
        → Map.get n m.batches ≡ some batch
        → (batch.batch_number ≡ n)
          × ((ts : List StateTransition) × (Map.get n m.transition_cache ≡ some ts)
              × IsBuilt batch ts)
    pub active : (b : BatchBuilder) → m.active_batch ≡ some b → IsGrown b

  pub new-IsSound : IsSound new
  unfolding new Map.get
  new-IsSound = record { each = λ n batch e. absurd cc; active = λ b e. absurd cc }

  -- A change of the active builder alone.
  with_builder :
      (m m' : BatchManager) (b : BatchBuilder)
      → IsSound m
      → m'.batches ≡ m.batches
      → m'.transition_cache ≡ m.transition_cache
      → m'.active_batch ≡ some b
      → IsGrown b
      → IsSound m'
  with_builder m m' b s batches cache active g = record {
    each = λ n batch e. rw cache (s.each n batch (rw batches at e));
    active = λ b' e. let same : b ≡ b' = cc (e, active) in subst IsGrown same g;
  }

  pub start_batch-IsSound :
      (prev : Option State) (m : BatchManager) → IsSound m → IsSound (start_batch p codec prev m).0
  unfolding start_batch
  start_batch-IsSound prev m s = elim (Option-cases m.active_batch) [
    | inl free ↦
        rw (start_batch, free) (with_builder m _ _ s refl refl refl (new_builder-IsGrown _ _))
    | inr (b, busy) ↦ rw (start_batch, busy) s
  ]

  pub add_transition-IsSound :
      (t : StateTransition) (m : BatchManager) → IsSound m → IsSound (add_transition p codec t m).0
  unfolding add_transition add_to
  add_transition-IsSound t m s = elim (Option-cases m.active_batch) [
    | inl free ↦
        rw (add_transition, free)
          (with_builder m _ _ s refl refl refl
            (push_transition-IsGrown t _ (new_builder-IsGrown _ _)))
    | inr (b, busy) ↦
        rw (add_transition, busy)
          (with_builder m _ _ s refl refl refl (push_transition-IsGrown t b (s.active b busy)))
  ]

  -- The entries of a manager once a batch and its transitions are stored.
  stored_each :
      (batch : StateBatch) (ts : List StateTransition) (m : BatchManager)
      → IsSound m
      → IsBuilt batch ts
      → (n : ℕ) (other : StateBatch)
      → Map.get n (Map.insert batch.batch_number batch m.batches) ≡ some other
      → (other.batch_number ≡ n)
        × ((us : List StateTransition) × (Map.get n
                (Map.insert batch.batch_number ts m.transition_cache)
              ≡ some us)
            × IsBuilt other us)
  stored_each batch ts m s built n other e = elim (Bool-cases (nat_beq batch.batch_number n)) [
    | inl at ↦
        let number : batch.batch_number ≡ n = ground arith in
        let same : batch ≡ other =
          cc (rw (get-insert batch.batch_number n batch m.batches, at) at e) in
        (
          ap (λ (b : StateBatch). b.batch_number) (sym same) ∙ number,
          (
            ts,
            rw (get-insert batch.batch_number n ts m.transition_cache, at) refl,
            subst (λ b. IsBuilt b ts) same built,
          ),
        )
    | inr off ↦
        let (number, (us, cached, built_before)) =
          s.each n other (rw (get-insert batch.batch_number n batch m.batches, off) at e) in
        (
          number,
          (
            us,
            rw (get-insert batch.batch_number n ts m.transition_cache, off) cached,
            built_before,
          ),
        )
  ]

  -- What `finalize_batch` promises of the manager and the batch that it returns.
  pub record Finalized (b : BatchBuilder) (m' : BatchManager) (batch : StateBatch) : Type 0 where
    pub built : IsBuilt batch b.transitions
    pub listed : get_batch b.batch_number m' ≡ ok batch
    pub sound : IsSound m'

  finish_lem :
      (b : BatchBuilder) (m : BatchManager)
      → IsGrown b
      → m.active_batch ≡ none
      → IsSound m
      → (batch : StateBatch) × ((finish p codec b m).1 ≡ ok batch)
        × Finalized b (finish p codec b m).0 batch
  unfolding finish get_batch
  finish_lem b m g free s =
      let (batch, done, built, number) = build_lem b g in
      (
        batch,
        rw (finish, done) refl,
        rw (finish, done)
            (record {
              built = built;
              listed = rw (number, get-insert_self b.batch_number batch m.batches) refl;
              sound = record {
                each = stored_each batch b.transitions m s built;
                active = λ b' e. absurd (cc (e, free));
              };
            }),
      )

  -- On a sound manager with an active builder `finalize_batch` returns the batch of its
  -- transitions, and lists it under the number of the builder.
  pub finalize_batch_lem :
      (b : BatchBuilder) (m : BatchManager)
      → IsSound m
      → m.active_batch ≡ some b
      → (batch : StateBatch) × ((finalize_batch p codec m).1 ≡ ok batch)
        × Finalized b (finalize_batch p codec m).0 batch
  unfolding finalize_batch
  finalize_batch_lem b m s busy =
      let idle : IsSound (record m { active_batch = none }) = record {
        each = s.each;
        active = λ b' e. absurd cc;
      } in
      rw (finalize_batch, busy) (finish_lem b _ (s.active b busy) refl idle)

  pub finalize_batch-IsSound : (m : BatchManager) → IsSound m → IsSound (finalize_batch p codec m).0
  finalize_batch-IsSound m s = elim (Option-cases m.active_batch) [
    | inl free ↦ unfold finalize_batch in rw (finalize_batch, free) s
    | inr (b, busy) ↦ (finalize_batch_lem b m s busy).2.sound
  ]
