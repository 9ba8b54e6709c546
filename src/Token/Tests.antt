-- ===== src/Token/Tests.antt =====
-- Small balances and registries, and one instance of each theorem.
use dsm_decentralized_state.Base.{
  ◌*◌, ◌^◌, ◌≡◌, ◌≢◌, refl, true, false, none, some, arith, ◌⊎◌, string_eq,
}
use dsm_decentralized_state.Base.Result.{ok, err, validation}
use dsm_decentralized_state.Token.Supply.{
  TokenSupply, InLimits, is_valid_supply_change, change_supply,
}
use dsm_decentralized_state.Token.Balance.{Balance}
use dsm_decentralized_state.Token.Balance.Locking.{IsValid}
use dsm_decentralized_state.Token.Registry
use dsm_decentralized_state.Token.Registry.{
  TokenRegistry, TokenMetadata, CreateTokenParams, root_total, get_token, get_supply,
  register_token, update_supply, create_token,
}
use dsm_decentralized_state.Token.Registry.Laws
use dsm_decentralized_state.Token.Registry.Laws.{Sets, update_supply_lem, create_token-Sets}

abbrev balance : Balance
balance = record { value = 10; locked = 4; last_updated = 0; state_hash = none }

balance-IsValid : IsValid balance
balance-IsValid = record { part = omega arith; word = omega arith }

abbrev supply : TokenSupply
supply = record {
  total_supply = 100;
  circulating_supply = 100;
  max_supply = some 120;
  min_supply = some 0;
}

supply-InLimits : InLimits supply
supply-InLimits = record { word = omega arith; upper = omega arith; lower = omega arith }

-- The supply that the registry starts with is not the 100 million tokens of 18 decimals.
root_total_wraps : (root_total ≡ 15_908_979_783_594_147_840) × (100_000_000 * 10 ^ 18 ≢ root_total)
unfolding root_total
root_total_wraps = (refl, omega arith)

abbrev start : TokenRegistry
start = Registry.new 0

abbrev coin : TokenMetadata
coin = Registry.new_metadata 5 "coin" "Coin" "C" 2 Registry.created "alice"

update_supply_lem_example :
    ((get_supply "ROOT" start ≡ none) × (update_supply "ROOT" 9 false start ≡ err validation))
    ⊎ ((s : TokenSupply) × (get_supply "ROOT" start ≡ some s)
        × (is_valid_supply_change 9 false s ≡ false)
        × (update_supply "ROOT" 9 false start ≡ err validation))
    ⊎ ((s : TokenSupply) × (r : TokenRegistry) × (m : TokenMetadata) × (get_supply "ROOT" start
          ≡ some s)
        × (is_valid_supply_change 9 false s ≡ true)
        × (update_supply "ROOT" 9 false start ≡ ok r)
        × (get_token "ROOT" start ≡ some m)
        × Sets "ROOT" m (change_supply 9 false s) start r
        × Laws.IsValid r)
update_supply_lem_example = update_supply_lem "ROOT" 9 false start (Laws.new-IsValid 0)

abbrev params : CreateTokenParams
params = record {
  token_id = "ROOT";
  name = "Root again";
  description = none;
  icon_url = none;
  metadata_uri = none;
  decimals = 2;
  initial_supply = some 7;
  max_supply = none;
  policy_anchor = none;
}
