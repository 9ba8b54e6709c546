-- ===== src/TokenState/Transfers.antt =====
-- What a transfer, a mint and a burn do to the balances of a state (`apply_token_operation` in
-- dsm/src/core/token/token_state_manager.rs, before the cache is updated).
use dsm_decentralized_state.Base.{
  ℕ, ◌+◌, ◌-◌, ◌≤◌, ◌<◌, ◌≡◌, ◌⊎◌, inl, inr, refl, ap, ◌∙◌, [], ◌∷◌, arith, ltb, list_eq, nat_eq,
  list_beq, list_beq→eq, Bool-cases, if◌then◌else◌,
}
use dsm_decentralized_state.Base.Word.{u64_max, saturating_add}
use dsm_decentralized_state.Base.Map
use dsm_decentralized_state.Base.Map.{Map, get-insert}
use dsm_decentralized_state.Base.Result.{ok, err, insufficient_balance}
use dsm_decentralized_state.Token.Balance.{Balance}
use dsm_decentralized_state.State.Operation.{Text, TransferFields, transfer}
use dsm_decentralized_state.State.Model.{State}
use dsm_decentralized_state.TokenState.{
  Environment, Balances, value_at, balance_new, make_balance_key, transfer_balances, new_balances,
}

-- The sum of all balances.
abbrev pub total : Balances → ℕ
total [] = 0
total ((key, b) ∷ rest) = b.value + total rest

total-insert :
    (key : Text) (b : Balance) (m : Balances)
    → total (Map.insert key b m) + value_at key m ≡ total m + b.value
unfolding Map.insert Map.get value_at
total-insert key b [] = omega arith
total-insert key b ((j, w) ∷ m) = elim (Bool-cases (list_beq j key)) [
  | inl same ↦ rw (Map.insert, value_at, same) (omega arith)
  | inr other ↦ rw (Map.insert, value_at, other) (omega (arith, total-insert key b m))
]

value_at-insert :
    (k j : Text) (b : Balance) (m : Balances)
    → value_at j (Map.insert k b m) ≡ (if list_beq k j then b.value else value_at j m)
unfolding value_at
value_at-insert k j b m = elim (Bool-cases (list_beq k j)) [
  | inl same ↦ rw (value_at, get-insert k j b m, same) refl
  | inr other ↦ rw (value_at, get-insert k j b m, other) refl
]

saturating_add_fits : (a b : ℕ) → a + b ≤ u64_max → saturating_add a b ≡ a + b
saturating_add_fits a b fits = ground arith

module _ (env : Environment) where
  balance_new-value : (v : ℕ) → (balance_new env v).value ≡ v
  unfolding balance_new
  balance_new-value v = refl

  abbrev pub sender_key : TransferFields → State → Text
  sender_key t s = make_balance_key env s.device_info.public_key t.token_id

  abbrev pub recipient_key : TransferFields → Text
  recipient_key t = make_balance_key env t.recipient t.token_id

  -- The balances after a transfer, when there is enough.
  abbrev moved : TransferFields → State → Balances
  moved t s =
      Map.insert (recipient_key t)
        (balance_new env
          (saturating_add (value_at (recipient_key t) s.token_balances) t.amount.value))
        (Map.insert (sender_key t s)
          (balance_new env (value_at (sender_key t s) s.token_balances - t.amount.value))
          s.token_balances)

  moved-value_at :
      (t : TransferFields) (s : State) (j : Text)
      → value_at j (moved t s) ≡ (
          if list_beq (recipient_key t) j
          then saturating_add (value_at (recipient_key t) s.token_balances) t.amount.value
          else if list_beq (sender_key t s) j
          then value_at (sender_key t s) s.token_balances - t.amount.value
          else value_at j s.token_balances)
  moved-value_at t s j =
      let x = value_at (sender_key t s) s.token_balances in
      let r = value_at (recipient_key t) s.token_balances in
      let credited = balance_new env (saturating_add r t.amount.value) in
      let debited = balance_new env (x - t.amount.value) in
      value_at-insert (recipient_key t) j credited
        (Map.insert (sender_key t s) debited s.token_balances)
      ∙ ap
          (λ (v : ℕ).
            if list_beq (recipient_key t) j
            then v
            else value_at j (Map.insert (sender_key t s) debited s.token_balances))
          (balance_new-value (saturating_add r t.amount.value))
      ∙ ap (λ (v : ℕ). if list_beq (recipient_key t) j then saturating_add r t.amount.value else v)
          (value_at-insert (sender_key t s) j debited s.token_balances
            ∙ ap (λ (v : ℕ). if list_beq (sender_key t s) j then v else value_at j s.token_balances)
                (balance_new-value (x - t.amount.value)))

  moved-total :
      (t : TransferFields) (s : State)
      → t.amount.value ≤ value_at (sender_key t s) s.token_balances
      → value_at (recipient_key t) s.token_balances + t.amount.value ≤ u64_max
      → total (moved t s) ≡ (
          if list_beq (sender_key t s) (recipient_key t)
          then total s.token_balances + t.amount.value
          else total s.token_balances)
  moved-total t s enough fits =
      let a = t.amount.value in
      let m = s.token_balances in
      let x = value_at (sender_key t s) m in
      let r = value_at (recipient_key t) m in
      let debited = balance_new env (x - a) in
      let m1 = Map.insert (sender_key t s) debited m in
      let credited = balance_new env (saturating_add r a) in
      let sum1 : total m1 + x ≡ total m + (x - a) =
        total-insert (sender_key t s) debited m
        ∙ ap (λ (v : ℕ). total m + v) (balance_new-value (x - a)) in
      let sum2 : total (moved t s) + value_at (recipient_key t) m1 ≡ total m1 + (r + a) =
        total-insert (recipient_key t) credited m1
        ∙ ap (λ (v : ℕ). total m1 + v)
            (balance_new-value (saturating_add r a) ∙ saturating_add_fits r a fits) in
      let between : value_at (recipient_key t) m1
          ≡ (if list_beq (sender_key t s) (recipient_key t) then x - a else r) =
        value_at-insert (sender_key t s) (recipient_key t) debited m
        ∙ ap (λ (v : ℕ). if list_beq (sender_key t s) (recipient_key t) then v else r)
            (balance_new-value (x - a)) in
      elim (Bool-cases (list_beq (sender_key t s) (recipient_key t))) [
        | inl same ↦
            let keys : sender_key t s ≡ recipient_key t = list_beq→eq _ _ same in
            let equal : x ≡ r = ap (λ (k : Text). value_at k m) keys in
            let held : value_at (recipient_key t) m1 ≡ x - a = between ∙ rw same refl in
            rw same (omega (arith, sum1, sum2, held, equal, enough))
        | inr other ↦
            let held : value_at (recipient_key t) m1 ≡ r = between ∙ rw other refl in
            rw other (omega (arith, sum1, sum2, held, enough))
      ]

  -- A transfer from a state, where the balance of the recipient has room for the amount. It is
  -- refused if the sender has less than the amount. Otherwise the recipient has the amount more
  -- than before, the sender, if that is another key, the amount less, and every other key what it
  -- had; and the total of all balances is the same. A transfer to the own key does not take the
  -- amount away: the total grows by it.
  pub transfer_lem :
      (t : TransferFields) (s : State)
      → value_at (recipient_key t) s.token_balances + t.amount.value ≤ u64_max
      → ((value_at (sender_key t s) s.token_balances < t.amount.value)
          × (new_balances env (transfer t) s ≡ err insufficient_balance))
        ⊎ ((after : Balances) × (new_balances env (transfer t) s ≡ ok after)
            × ((j : Text)
                → value_at j after ≡ (
                    if list_beq (recipient_key t) j
                    then value_at (recipient_key t) s.token_balances + t.amount.value
                    else if list_beq (sender_key t s) j
                    then value_at (sender_key t s) s.token_balances - t.amount.value
                    else value_at j s.token_balances))
            × (total after ≡ (
                if list_beq (sender_key t s) (recipient_key t)
                then total s.token_balances + t.amount.value
                else total s.token_balances)))
  unfolding new_balances transfer_balances
  transfer_lem t s fits =
      let x = value_at (sender_key t s) s.token_balances in
      let r = value_at (recipient_key t) s.token_balances in
      elim (Bool-cases (ltb x t.amount.value)) [
        | inl short ↦ inl (ground arith, rw short refl)
        | inr enough ↦ inr (
          moved t s,
          rw enough refl,
          λ j.
              (moved-value_at t s j
                ∙ ap
                    (λ (v : ℕ).
                      if list_beq (recipient_key t) j
                      then v
                      else if list_beq (sender_key t s) j
                      then x - t.amount.value
                      else value_at j s.token_balances)
                    (saturating_add_fits r t.amount.value fits)),
          moved-total t s (ground arith) fits,
        )
      ]
