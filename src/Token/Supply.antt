-- ===== src/Token/Supply.antt =====
-- `TokenSupply`: the limits on the circulating supply.
use dsm_decentralized_state.Base.{
  ℕ, ◌-◌, ◌≤◌, ◌≡◌, Bool, true, false, Option, none, some, ltb, if◌then◌else◌, arith,
}
use dsm_decentralized_state.Base.Word.{u64_max, saturating_add}
use dsm_decentralized_state.Token.Amount.{TokenAmount}

pub record TokenSupply : Type 0 where
  pub total_supply : ℕ
  pub circulating_supply : ℕ
  pub max_supply : Option ℕ
  pub min_supply : Option ℕ

unfoldable pub new : ℕ → TokenSupply
new total_supply = record {
  total_supply = total_supply;
  circulating_supply = total_supply;
  max_supply = some total_supply;
  min_supply = some 0;
}

pub with_limits : ℕ → Option ℕ → Option ℕ → TokenSupply
with_limits total_supply max_supply min_supply = record {
  total_supply = total_supply;
  circulating_supply = total_supply;
  max_supply = max_supply;
  min_supply = min_supply;
}

-- `if let Some(max) = self.max_supply { if new_supply > max { return false } } true`
pub within_max : Option ℕ → ℕ → Bool
within_max none new_supply = true
within_max (some max) new_supply = if ltb max new_supply then false else true

pub within_min : Option ℕ → ℕ → Bool
within_min none new_supply = true
within_min (some min) new_supply = if ltb new_supply min then false else true

unfoldable pub is_valid_supply_change : ℕ → Bool → TokenSupply → Bool
unfolding within_max within_min
is_valid_supply_change amount true s =
    within_max s.max_supply (saturating_add s.circulating_supply amount)
is_valid_supply_change amount false s =
    if ltb s.circulating_supply amount
    then false
    else within_min s.min_supply (s.circulating_supply - amount)

pub validate_supply_change : TokenAmount → Bool → TokenSupply → Bool
unfolding within_max within_min
validate_supply_change amount true s =
    within_max s.max_supply (saturating_add s.circulating_supply amount.value)
validate_supply_change amount false s =
    if ltb s.circulating_supply amount.value
    then false
    else within_min s.min_supply (s.circulating_supply - amount.value)

-- The change that `TokenRegistry::update_supply` makes to a supply that it has found valid.
pub change_supply : ℕ → Bool → TokenSupply → TokenSupply
change_supply amount true s = record s {
  circulating_supply = saturating_add s.circulating_supply amount;
}
change_supply amount false s = record s { circulating_supply = s.circulating_supply - amount }

abbrev pub AtMost : ℕ → Option ℕ → Type 0
AtMost n none = Unit
AtMost n (some max) = n ≤ max

abbrev pub AtLeast : ℕ → Option ℕ → Type 0
AtLeast n none = Unit
AtLeast n (some min) = min ≤ n

pub record InLimits (s : TokenSupply) : Type 0 where
  pub word : s.circulating_supply ≤ u64_max
  pub upper : AtMost s.circulating_supply s.max_supply
  pub lower : AtLeast s.circulating_supply s.min_supply

-- A change that is found valid keeps the supply within its limits.
pub change_supply-InLimits :
    (amount : ℕ) (is_addition : Bool) (s : TokenSupply)
    → InLimits s
    → is_valid_supply_change amount is_addition s ≡ true
    → InLimits (change_supply amount is_addition s)
unfolding is_valid_supply_change change_supply
change_supply-InLimits amount true s h e = record {
  word = ground arith;
  upper = upper_after s.max_supply e;
  lower = lower_after s.min_supply h.lower;
}
  where
    upper_after :
        (m : Option ℕ)
        → within_max m (saturating_add s.circulating_supply amount) ≡ true
        → AtMost (saturating_add s.circulating_supply amount) m
    upper_after none e = tt
    upper_after (some max) e = ground arith

    lower_after :
        (m : Option ℕ)
        → AtLeast s.circulating_supply m
        → AtLeast (saturating_add s.circulating_supply amount) m
    lower_after none l = tt
    lower_after (some min) l = ground arith
change_supply-InLimits amount false s h e = record {
  word = ground arith;
  upper = upper_after s.max_supply h.upper;
  lower = lower_after s.min_supply e;
}
  where
    upper_after :
        (m : Option ℕ) → AtMost s.circulating_supply m → AtMost (s.circulating_supply - amount) m
    upper_after none u = tt
    upper_after (some max) u = omega arith

    lower_after :
        (m : Option ℕ)
        → (if ltb s.circulating_supply amount
            then false
            else within_min m (s.circulating_supply - amount))
          ≡ true
        → AtLeast (s.circulating_supply - amount) m
    lower_after none e = tt
    lower_after (some min) e = ground arith
