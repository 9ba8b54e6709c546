-- ===== src/TokenState/Blocking.antt =====
-- The lock of the balance cache (`update_balance_cache` and `optimize_balance_cache` in
-- dsm/src/core/token/token_state_manager.rs).
use dsm_decentralized_state.Base.{◌≡◌, refl, Bool, true, Option, Bool-cases, inl, inr}
use dsm_decentralized_state.Base.Result.{Result, ok, err, ◌>>=◌, ◌>>◌, blocked, Result-cases}
use dsm_decentralized_state.State.Operation.{Bytes, Operation, transfer, mint, burn, validate}
use dsm_decentralized_state.State.Model.{State, Primitives}
use dsm_decentralized_state.TokenState.{
  Environment, Balances, BalanceCache, write, optimize_balance_cache, update_balance_cache,
  new_balances, apply_token_operation, create_token_state_transition,
}

-- The lock that `update_balance_cache` holds is the one that `optimize_balance_cache` waits for.
update_balance_cache-blocked :
    (new : Balances) (cache : BalanceCache) → update_balance_cache new cache ≡ err blocked
unfolding update_balance_cache write optimize_balance_cache
update_balance_cache-blocked new cache = elim (Bool-cases cache.taken) [
  | inl held ↦ rw (update_balance_cache, held) refl
  | inr free ↦ rw (update_balance_cache, free) refl
]

validate-ok : (o : Operation) → (b : Bool) × (validate o ≡ ok b)
unfolding validate
validate-ok (transfer t) = (_, refl)
validate-ok (mint m) = (_, refl)
validate-ok (burn b) = (_, refl)
validate-ok _ = (true, refl)

-- What an operation ends in: the error of the policy check, the error of the balances, or a wait
-- that does not end.
abbrev pub ended {ℓ} : {A : Type ℓ} → Environment → Operation → State → Result A
ended env o s = env.verify_token_policy o >> (new_balances env o s >>= λ balances. err blocked)

module _ (p : Primitives) (env : Environment) where
  apply-ended :
      (s : State) (o : Operation) (cache : BalanceCache)
      → apply_token_operation env s o cache ≡ ended env o s
  unfolding apply_token_operation
  apply-ended s o cache = elim (Result-cases (env.verify_token_policy o)) [
    | inr (e, refused) ↦ rw (apply_token_operation, refused) refl
    | inl (_, passed) ↦ elim (Result-cases (new_balances env o s)) [
      | inr (e, failed) ↦ rw (apply_token_operation, passed, failed) refl
      | inl (balances, made) ↦
          rw (apply_token_operation, passed, made, update_balance_cache-blocked balances cache) refl
    ]
  ]

  ended-bind {ℓ κ} :
      {A : Type ℓ} {B : Type κ} (s : State) (o : Operation) (f : A → Result B)
      → (ended env o s >>= f) ≡ ended env o s
  ended-bind s o f = elim (Result-cases (env.verify_token_policy o)) [
    | inr (e, refused) ↦ rw refused refl
    | inl (_, passed) ↦ elim (Result-cases (new_balances env o s)) [
      | inr (e, failed) ↦ rw (passed, failed) refl
      | inl (balances, made) ↦ rw (passed, made) refl
    ]
  ]

  -- `create_token_state_transition` never makes a state: where the policy and the balances allow
  -- the operation, updating the cache takes its lock for writing and then waits for the same lock,
  -- and in every other case there is an error.
  pub create_token_state_transition-ended :
      (s : State) (o : Operation) (new_entropy : Bytes) (encapsulated : Option Bytes)
      (cache : BalanceCache)
      → create_token_state_transition p env s o new_entropy encapsulated cache ≡ ended env o s
  unfolding create_token_state_transition
  create_token_state_transition-ended s o new_entropy encapsulated cache =
      let (b, valid) = validate-ok o in
      rw (create_token_state_transition, valid, apply-ended s o cache) (ended-bind s o _)
