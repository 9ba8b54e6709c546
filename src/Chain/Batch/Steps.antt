-- ===== src/Chain/Batch/Steps.antt =====
-- What a chain goes through, as a relation of steps; the statuses of batches along it.
use mathlib.Core.Path.{subst}
use dsm_decentralized_state.Base.{
  ℕ, ◌≡◌, refl, sym, ap, ◌∙◌, ◌⊎◌, arith, Bool, List, [], ◌∷◌, inl, inr, Bool-cases, Option-cases,
  leb, nat_eq, nat_beq,
}
use dsm_decentralized_state.Base.Map
use dsm_decentralized_state.Base.Map.{get-insert}
use dsm_decentralized_state.Base.Result.{Result, Result-cases, ok, err, ok_or, not_found}
use dsm_decentralized_state.State.Operation.{Bytes}
use dsm_decentralized_state.State.Model.{State, Primitives}
use dsm_decentralized_state.State.Next.{create_next_state}
use dsm_decentralized_state.Chain.{
  HashChain, StateTransition, BatchStatus, BatchValidationState, pending, committed, finalized,
  failed, add_state, get_latest_state,
}
use dsm_decentralized_state.Chain.Batch.{
  get_batch_status, set_status, transition_batch_state, or_empty, apply_all, apply_from,
  commit_transitions, commit_batch, validation_of, add_validation, count_validation, validate_batch,
}
use dsm_decentralized_state.Chain.Batch.Laws.{add_state-statuses}

-- Every batch has the same status in the two chains, or none in both, or it is finalized in the one
-- and committed in the other.
abbrev pub OnlyCommits : HashChain → HashChain → Type 0
OnlyCommits c c' =
    (j : ℕ)
    → (get_batch_status j c' ≡ get_batch_status j c)
      ⊎ ((get_batch_status j c ≡ ok finalized) × (get_batch_status j c' ≡ ok committed))

same-OnlyCommits : (c c' : HashChain) → c'.batch_statuses ≡ c.batch_statuses → OnlyCommits c c'
unfolding get_batch_status
same-OnlyCommits c c' e j = inl (ap (λ m. ok_or (Map.get j m) not_found) e)

commit-finalized :
    (batch_id : ℕ) (c : HashChain)
    → get_batch_status batch_id c ≡ ok finalized
    → OnlyCommits c (set_status batch_id committed c)
unfolding get_batch_status
commit-finalized batch_id c found j = elim (Bool-cases (nat_beq batch_id j)) [
  | inl same ↦
      let at : batch_id ≡ j = ground arith in
      inr (
        ap (λ (k : ℕ). get_batch_status k c) (sym at) ∙ found,
        rw (get-insert batch_id j committed c.batch_statuses, same) refl,
      )
  | inr other ↦ inl (rw (get-insert batch_id j committed c.batch_statuses, other) refl)
]

-- `transition_batch_state` lets only a finalized batch be committed.
transition_batch_state-OnlyCommits :
    (batch_id : ℕ) (c c' : HashChain)
    → transition_batch_state batch_id committed c ≡ ok c'
    → OnlyCommits c c'
unfolding transition_batch_state
transition_batch_state-OnlyCommits batch_id c c' e j =
    elim (Result-cases (get_batch_status batch_id c)) [
      | inr (x, missing) ↦ absurd (cc (e, missing))
      | inl (pending, found) ↦ absurd (cc (e, found))
      | inl (committed, found) ↦ absurd (cc (e, found))
      | inl (failed x, found) ↦ absurd (cc (e, found))
      | inl (finalized, found) ↦
          let set : set_status batch_id committed c ≡ c' = cc (e, found) in
          subst
            (λ (d : HashChain).
              (get_batch_status j d ≡ get_batch_status j c)
              ⊎ ((get_batch_status j c ≡ ok finalized) × (get_batch_status j d ≡ ok committed)))
            set (commit-finalized batch_id c found j)
    ]

-- One after the other.
joined : (c d e : HashChain) → OnlyCommits c d → OnlyCommits d e → OnlyCommits c e
joined c d e first second j = elim (first j) [
  | inl same ↦ elim (second j) [
    | inl again ↦ inl (again ∙ same)
    | inr (before, after) ↦ inr (sym same ∙ before, after)
  ]
  | inr (before, after) ↦ elim (second j) [
    | inl again ↦ inr (before, again ∙ after)
    | inr (late, _) ↦ absurd (cc (after, late))
  ]
]

module _ (p : Primitives) (bench_thread : Bool) where
  apply_all-statuses :
      (ts : List StateTransition) (h : State) (c : HashChain)
      → (apply_all p bench_thread ts h c).0.batch_statuses ≡ c.batch_statuses
  unfolding apply_all
  apply_all-statuses [] h c = refl
  apply_all-statuses (t ∷ ts) h c =
      let next = create_next_state p bench_thread h t.operation (or_empty t.new_entropy) in
      elim (Result-cases (add_state next c)) [
        | inr (x, refused) ↦ rw (apply_all, refused) refl
        | inl (d, added) ↦
            rw (apply_all, added) (apply_all-statuses ts next d ∙ add_state-statuses next c d added)
      ]

  apply_from-statuses :
      (r : Result State) (ts : List StateTransition) (c : HashChain)
      → (apply_from p bench_thread r ts c).0.batch_statuses ≡ c.batch_statuses
  unfolding apply_from
  apply_from-statuses (err e) ts c = refl
  apply_from-statuses (ok h) ts c = apply_all-statuses ts h c

  commit_transitions-statuses :
      (batch_id : ℕ) (c : HashChain)
      → (commit_transitions p bench_thread batch_id c).0.batch_statuses ≡ c.batch_statuses
  unfolding commit_transitions
  commit_transitions-statuses batch_id c =
      elim (Option-cases (Map.get batch_id c.cached_transitions)) [
        | inl missing ↦ rw (commit_transitions, missing) refl
        | inr (ts, cached) ↦
            rw (commit_transitions, cached) (apply_from-statuses (get_latest_state c) ts c)
      ]

  commit_batch-OnlyCommits :
      (batch_id : ℕ) (c : HashChain) → OnlyCommits c (commit_batch p bench_thread batch_id c).0
  unfolding commit_batch
  commit_batch-OnlyCommits batch_id c j =
      elim (Result-cases (transition_batch_state batch_id committed c)) [
        | inr (x, refused) ↦ rw (commit_batch, refused) (inl refl)
        | inl (d, moved) ↦
            rw (commit_batch, moved)
              (joined c d (commit_transitions p bench_thread batch_id d).0
                (transition_batch_state-OnlyCommits batch_id c d moved)
                (same-OnlyCommits d (commit_transitions p bench_thread batch_id d).0
                  (commit_transitions-statuses batch_id d))
                j)
      ]

  count_validation-OnlyCommits :
      (batch_id : ℕ) (signature : Bytes) (c : HashChain)
      → OnlyCommits c (count_validation p bench_thread batch_id signature c).0
  unfolding count_validation
  count_validation-OnlyCommits batch_id signature c j =
      elim (Bool-cases (leb v.required_validations v.validation_count)) [
        | inl enough ↦
            rw (count_validation, enough)
              (joined c counted (commit_batch p bench_thread batch_id counted).0
                (same-OnlyCommits c counted refl) (commit_batch-OnlyCommits batch_id counted) j)
        | inr few ↦ rw (count_validation, few) (same-OnlyCommits c counted refl j)
      ]
    where
      v : BatchValidationState
      v = add_validation signature (validation_of (Map.get batch_id c.batch_validation_state))

      counted : HashChain
      counted = record c { batch_validation_state = Map.insert batch_id v c.batch_validation_state }

  validate_status-OnlyCommits :
      (status : BatchStatus) (batch_id : ℕ) (signature : Bytes) (c : HashChain)
      → get_batch_status batch_id c ≡ ok status
      → OnlyCommits c (validate_batch p bench_thread batch_id signature c).0
  unfolding validate_batch
  validate_status-OnlyCommits pending batch_id signature c e j = rw (validate_batch, e) (inl refl)
  validate_status-OnlyCommits finalized batch_id signature c e j =
      rw (validate_batch, e) (count_validation-OnlyCommits batch_id signature c j)
  validate_status-OnlyCommits committed batch_id signature c e j = rw (validate_batch, e) (inl refl)
  validate_status-OnlyCommits (failed x) batch_id signature c e j =
      rw (validate_batch, e) (inl refl)

  validate_batch-OnlyCommits :
      (batch_id : ℕ) (signature : Bytes) (c : HashChain)
      → OnlyCommits c (validate_batch p bench_thread batch_id signature c).0
  unfolding validate_batch
  validate_batch-OnlyCommits batch_id signature c j =
      elim (Result-cases (get_batch_status batch_id c)) [
        | inr (x, missing) ↦ rw (validate_batch, missing) (inl refl)
        | inl (status, found) ↦ validate_status-OnlyCommits status batch_id signature c found j
      ]

  -- A step of a chain: a state is added, or a commit or a validation is tried, whatever it returns.
  pub data Step : HashChain → HashChain → Type 0 where
    adding : (s : State) (c c' : HashChain) → add_state s c ≡ ok c' → Step c c'
    committing : (batch_id : ℕ) (c : HashChain) → Step c (commit_batch p bench_thread batch_id c).0
    validating :
        (batch_id : ℕ) (signature : Bytes) (c : HashChain)
        → Step c (validate_batch p bench_thread batch_id signature c).0

  pub data Reaches : HashChain → HashChain → Type 0 where
    here : (c : HashChain) → Reaches c c
    then_step : (c d e : HashChain) → Reaches c d → Step d e → Reaches c e

  Step-OnlyCommits : (c d : HashChain) → Step c d → OnlyCommits c d
  Step-OnlyCommits _ _ (adding s c d added) = same-OnlyCommits c d (add_state-statuses s c d added)
  Step-OnlyCommits _ _ (committing batch_id c) = commit_batch-OnlyCommits batch_id c
  Step-OnlyCommits _ _ (validating batch_id signature c) =
      validate_batch-OnlyCommits batch_id signature c

  -- Through every sequence of added states and of commits and validations of any batch, also of
  -- those that fail, every batch keeps its status, or has none before and after, or is finalized
  -- before and committed after.
  pub get_batch_status-Reaches : (c d : HashChain) → Reaches c d → OnlyCommits c d
  get_batch_status-Reaches _ _ (here c) j = inl refl
  get_batch_status-Reaches _ _ (then_step c d e r s) j =
      joined c d e (get_batch_status-Reaches c d r) (Step-OnlyCommits d e s) j
