-- ===== src/Token/Balance.antt =====
-- `Balance`: a value with a locked part. The clock reading of a method is its argument `now`, and
-- the additions that the guards leave room for are written out with their wrap-around.
pub mod Locking
use dsm_decentralized_state.Base.{
  ℕ, ◌+◌, ◌-◌, ◌/◌, ◌%◌, ◌^◌, Bool, true, false, Option, none, some, List, [], ◌∷◌, ◌++◌, ltb,
  nat_beq, if◌then◌else◌, zero, suc,
}
use dsm_decentralized_state.Base.Word.{wrapping_add, saturating_add}
use dsm_decentralized_state.Base.Result.{Result, ok, err, validation}
use dsm_decentralized_state.Token.Amount.{TokenAmount}

pub record Balance : Type 0 where
  pub value : ℕ
  pub locked : ℕ
  pub last_updated : ℕ
  pub state_hash : Option (List ℕ)

unfoldable from_state : ℕ → ℕ → List ℕ → Balance
from_state now value state_hash = record {
  value = value;
  locked = 0;
  last_updated = now;
  state_hash = some state_hash;
}

-- `value.saturating_sub(locked)`
unfoldable pub available : Balance → ℕ
available b = b.value - b.locked

update_timestamp : ℕ → Balance → Balance
update_timestamp now b = record b { last_updated = now }

unfoldable pub lock : ℕ → ℕ → Balance → Result Balance
unfolding update_timestamp available
lock now amount b =
    if nat_beq amount 0
    then err validation
    else if ltb (available b) amount
    then err validation
    else ok (update_timestamp now (record b { locked = wrapping_add b.locked amount }))

unfoldable pub unlock : ℕ → ℕ → Balance → Result Balance
unfolding update_timestamp
unlock now amount b =
    if nat_beq amount 0
    then err validation
    else if ltb b.locked amount
    then err validation
    else ok (update_timestamp now (record b { locked = b.locked - amount }))

unfoldable pub update : ℕ → ℕ → Bool → Balance → Balance
unfolding update_timestamp
update now amount is_addition b =
    update_timestamp now
      (record b { value = if is_addition then saturating_add b.value amount else b.value - amount })

unfoldable pub update_with_amount : ℕ → TokenAmount → Bool → Balance → Result Balance
unfolding update_timestamp
update_with_amount now amount true b =
    ok (update_timestamp now (record b { value = saturating_add b.value amount.value }))
update_with_amount now amount false b =
    if ltb b.value amount.value
    then err validation
    else ok (update_timestamp now (record b { value = b.value - amount.value }))

unfoldable pub update_add : ℕ → ℕ → Balance → Balance
unfolding update_timestamp
update_add now delta b = update_timestamp now (record b { value = saturating_add b.value delta })

unfoldable pub update_sub : ℕ → ℕ → Balance → Result Balance
unfolding update_timestamp
update_sub now delta b =
    if ltb b.value delta
    then err validation
    else ok (update_timestamp now (record b { value = b.value - delta }))

-- the `n` low bytes of a number, the lowest first
unfoldable pub le_bytes : ℕ → ℕ → List ℕ
le_bytes zero x = []
le_bytes (suc n) x = x % 256 ∷ le_bytes n (x / 256)

hash_bytes : Option (List ℕ) → List ℕ
hash_bytes none = []
hash_bytes (some h) = h

pub to_le_bytes : Balance → List ℕ
unfolding le_bytes hash_bytes
to_le_bytes b =
    le_bytes 8 b.value
    ++ (le_bytes 8 b.locked ++ (le_bytes 8 b.last_updated ++ hash_bytes b.state_hash))
