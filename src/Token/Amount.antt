-- ===== src/Token/Amount.antt =====
-- `TokenAmount`, a `u64` with checked and saturating arithmetic.
use dsm_decentralized_state.Base.{
  ℕ, ◌+◌, ◌-◌, ◌≤◌, ◌<◌, ◌≡◌, Option, none, some, ltb, if◌then◌else◌, arith, ◌⊎◌, inl, inr,
  Bool-cases,
}
use dsm_decentralized_state.Base.Word.{u64_max, saturating_add, checked_add}

pub record TokenAmount : Type 0 where
  pub value : ℕ

amount : ℕ → TokenAmount
amount value = record { value = value }

map_amount : Option ℕ → Option TokenAmount
unfolding amount
map_amount none = none
map_amount (some v) = some (amount v)

pub amount_checked_add : TokenAmount → TokenAmount → Option TokenAmount
unfolding map_amount
amount_checked_add a b = map_amount (checked_add a.value b.value)

pub amount_checked_sub : TokenAmount → TokenAmount → Option TokenAmount
unfolding amount
amount_checked_sub a b = if ltb a.value b.value then none else some (amount (a.value - b.value))

pub amount_saturating_add : TokenAmount → TokenAmount → TokenAmount
unfolding amount
amount_saturating_add a b = amount (saturating_add a.value b.value)

pub amount_saturating_sub : TokenAmount → TokenAmount → TokenAmount
unfolding amount
amount_saturating_sub a b = amount (a.value - b.value)

-- What `checked_add` adds `checked_sub` takes away again; and it refuses exactly the sums beyond
-- the largest `u64`.
amount_checked_sub-checked_add :
    (a b : TokenAmount)
    → ((u64_max < a.value + b.value) × (amount_checked_add a b ≡ none))
      ⊎ ((c : TokenAmount) × (a.value + b.value ≤ u64_max)
          × (amount_checked_add a b ≡ some c)
          × (amount_checked_sub c b ≡ some a))
unfolding amount_checked_add amount_checked_sub
amount_checked_sub-checked_add a b = elim (Bool-cases (ltb u64_max (a.value + b.value))) [
  | inl over ↦ inl (ground arith, rw over)
  | inr fits ↦ inr (amount (a.value + b.value), ground arith, rw fits, back)
]
  where
    back : amount_checked_sub (amount (a.value + b.value)) b ≡ some a
    back = ground arith
