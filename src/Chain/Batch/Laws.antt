-- ===== src/Chain/Batch/Laws.antt =====
-- A finalized batch commits as a whole on a verified chain; and a batch that is committed stays so.
use dsm_decentralized_state.Base.{
  ℕ, ◌+◌, ◌^◌, ◌<◌, ◌≡◌, refl, sym, ap, ◌∙◌, Bool, true, none, some, List, [], ◌∷◌, length, arith,
  any, inl, inr, Bool-cases, nat_eq,
}
use dsm_decentralized_state.Base.Map
use dsm_decentralized_state.Base.Map.{values, get-insert}
use dsm_decentralized_state.Base.Result.{ok, err, ok_or, not_found, validation, invalid_operation}
use dsm_decentralized_state.State.Operation.{Bytes}
use dsm_decentralized_state.State.Model.{State, Primitives}
use dsm_decentralized_state.State.Next.{create_next_state}
use dsm_decentralized_state.State.Next.Laws.{create_next_state-Follows}
use dsm_decentralized_state.Chain.{
  HashChain, StateTransition, BatchStatus, committed, finalized, numbered, refers_back, add_state,
  store, verify_chain, verify_rest, get_latest_state,
}
use dsm_decentralized_state.Chain.WellFormed.{WellFormed}
use dsm_decentralized_state.Chain.Append.{add_state-create_next_state}
use dsm_decentralized_state.Chain.Batch.{
  get_batch_status, set_status, transition_batch_state, or_empty, apply_all, apply_from,
  commit_transitions, commit_batch, validate_batch,
}

pub add_state-statuses :
    (s : State) (c c' : HashChain) → add_state s c ≡ ok c' → c'.batch_statuses ≡ c.batch_statuses
unfolding add_state store
add_state-statuses s c c' e = elim (Bool-cases (any (numbered s.state_number) (values c.states))) [
  | inl taken ↦ cc (e, taken)
  | inr free ↦ elim (Bool-cases (refers_back s c)) [
    | inr lost ↦ cc (e, free, lost)
    | inl back ↦
        let same : store s c ≡ c' = cc (e, free, back) in
        sym (ap (λ (d : HashChain). d.batch_statuses) same)
  ]
]

set_status-WellFormed :
    (batch_id : ℕ) (status : BatchStatus) (c : HashChain)
    → WellFormed c
    → WellFormed (set_status batch_id status c)
set_status-WellFormed batch_id status c w = record {
  unique = w.unique;
  distinct = w.distinct;
  canonical = w.canonical;
  bounded = w.bounded;
  headed = w.headed;
}

latest : (c : HashChain) (h : State) → c.current_state ≡ some h → get_latest_state c ≡ ok h
unfolding get_latest_state
latest c h e = ap (λ o. ok_or o not_found) e

module _ (p : Primitives) (bench_thread : Bool) where
  verify_chain-set_status :
      (batch_id : ℕ) (status : BatchStatus) (c : HashChain)
      → verify_chain p (set_status batch_id status c) ≡ verify_chain p c
  unfolding verify_chain verify_rest
  verify_chain-set_status batch_id status c = refl

  -- A chain after transitions from the state numbered `start` on: it has the invariant, is accepted
  -- by `verify_chain`, is longer by their number, and has the statuses of the chain before.
  pub record Advanced (c c' : HashChain) (start : ℕ) : Type 0 where
    pub well_formed : WellFormed c'
    pub verified : verify_chain p c' ≡ ok true
    pub head : State
    pub current : c'.current_state ≡ some head
    pub numbered_as : head.state_number ≡ start
    pub statuses : c'.batch_statuses ≡ c.batch_statuses

  apply_all_lem :
      (ts : List StateTransition) (h : State) (c : HashChain)
      → WellFormed c
      → c.current_state ≡ some h
      → verify_chain p c ≡ ok true
      → h.state_number + length ts < 2 ^ 63
      → (c' : HashChain) × (apply_all p bench_thread ts h c ≡ (c', ok tt))
        × Advanced c c' (h.state_number + length ts)
  unfolding apply_all
  apply_all_lem [] h c w e ran small = (
    c,
    refl,
    record {
      well_formed = w;
      verified = ran;
      head = h;
      current = e;
      numbered_as = omega arith;
      statuses = refl;
    },
  )
  apply_all_lem (t ∷ ts) h c w e ran small =
      let next = create_next_state p bench_thread h t.operation (or_empty t.new_entropy) in
      let follows =
        create_next_state-Follows p bench_thread h t.operation (or_empty t.new_entropy)
          (omega arith) in
      let (d, added, wd, current, verified) =
        add_state-create_next_state p bench_thread t.operation (or_empty t.new_entropy) c h w e
          (omega arith) ran in
      let (c', done, a) =
        apply_all_lem ts next d wd current verified (omega (arith, follows.numbered)) in
      (
        c',
        rw (apply_all, added) done,
        record {
          well_formed = a.well_formed;
          verified = a.verified;
          head = a.head;
          current = a.current;
          numbered_as = omega (arith, a.numbered_as, follows.numbered);
          statuses = a.statuses ∙ add_state-statuses next c d added;
        },
      )

  to_committed :
      (batch_id : ℕ) (c : HashChain)
      → get_batch_status batch_id c ≡ ok finalized
      → transition_batch_state batch_id committed c ≡ ok (set_status batch_id committed c)
  unfolding transition_batch_state
  to_committed batch_id c e = rw e refl

  commit_finalized :
      (batch_id : ℕ) (c : HashChain)
      → get_batch_status batch_id c ≡ ok finalized
      → commit_batch p bench_thread batch_id c
        ≡ commit_transitions p bench_thread batch_id (set_status batch_id committed c)
  unfolding commit_batch
  commit_finalized batch_id c status = rw (commit_batch, to_committed batch_id c status) refl

  commit_cached :
      (batch_id : ℕ) (ts : List StateTransition) (h : State) (c : HashChain)
      → Map.get batch_id c.cached_transitions ≡ some ts
      → c.current_state ≡ some h
      → commit_transitions p bench_thread batch_id c ≡ apply_all p bench_thread ts h c
  unfolding commit_transitions apply_from
  commit_cached batch_id ts h c cached e =
      let opened : commit_transitions p bench_thread batch_id c
          ≡ apply_from p bench_thread (get_latest_state c) ts c =
        rw (commit_transitions, cached) refl in
      opened ∙ ap (λ r. apply_from p bench_thread r ts c) (latest c h e)

  commit_uncached :
      (batch_id : ℕ) (c : HashChain)
      → Map.get batch_id c.cached_transitions ≡ none
      → commit_transitions p bench_thread batch_id c ≡ (c, err not_found)
  unfolding commit_transitions
  commit_uncached batch_id c cached = rw (commit_transitions, cached) refl

  -- Take a well-formed chain that `verify_chain` accepts, and a finalized batch with cached
  -- transitions that do not take the number of the current state to 2 ^ 63. `commit_batch`
  -- succeeds; the new chain is well-formed, `verify_chain` accepts it, its current state is
  -- numbered higher by the number of transitions, and of the statuses only the batch's changed, to
  -- committed.
  pub commit_batch_lem :
      (batch_id : ℕ) (ts : List StateTransition) (h : State) (c : HashChain)
      → WellFormed c
      → c.current_state ≡ some h
      → verify_chain p c ≡ ok true
      → get_batch_status batch_id c ≡ ok finalized
      → Map.get batch_id c.cached_transitions ≡ some ts
      → h.state_number + length ts < 2 ^ 63
      → (c' : HashChain) × (commit_batch p bench_thread batch_id c ≡ (c', ok tt))
        × Advanced (set_status batch_id committed c) c' (h.state_number + length ts)
  commit_batch_lem batch_id ts h c w e ran status cached small =
      let (c', done, a) =
        apply_all_lem ts h (set_status batch_id committed c)
          (set_status-WellFormed batch_id committed c w) e
          (verify_chain-set_status batch_id committed c ∙ ran) small in
      (
        c',
        commit_finalized batch_id c status
            ∙ commit_cached batch_id ts h (set_status batch_id committed c) cached e
            ∙ done,
        a,
      )

  -- A finalized batch without cached transitions is left committed by `commit_batch`, which returns
  -- an error.
  commit_batch-none :
      (batch_id : ℕ) (c : HashChain)
      → get_batch_status batch_id c ≡ ok finalized
      → Map.get batch_id c.cached_transitions ≡ none
      → (commit_batch p bench_thread batch_id c ≡ (set_status batch_id committed c, err not_found))
        × (get_batch_status batch_id (set_status batch_id committed c) ≡ ok committed)
  unfolding get_batch_status
  commit_batch-none batch_id c status cached = (
    commit_finalized batch_id c status
        ∙ commit_uncached batch_id (set_status batch_id committed c) cached,
    rw (get-insert batch_id batch_id committed c.batch_statuses) (ground arith),
  )

  -- Neither committing nor validating does anything to a batch that is committed: both refuse, and
  -- leave the chain as it is.
  committed_stays :
      (batch_id : ℕ) (signature : Bytes) (c : HashChain)
      → get_batch_status batch_id c ≡ ok committed
      → (commit_batch p bench_thread batch_id c ≡ (c, err invalid_operation))
        × (validate_batch p bench_thread batch_id signature c ≡ (c, err validation))
  unfolding commit_batch validate_batch transition_batch_state
  committed_stays batch_id signature c status =
      (rw (commit_batch, transition_batch_state, status) refl, rw (validate_batch, status) refl)
