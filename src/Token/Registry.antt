-- ===== src/Token/Registry.antt =====
-- `TokenRegistry`: the metadata and the supply of each token. Clock readings are arguments.
pub mod Laws
use dsm_decentralized_state.Base.{
  ℕ, ◌*◌, ◌%◌, ◌^◌, String, Bool, true, Option, none, some, List, [], ◌∷◌, if◌then◌else◌, string_eq,
  ◌==◌,
}
use dsm_decentralized_state.Base.Map
use dsm_decentralized_state.Base.Map.{Map}
use dsm_decentralized_state.Base.Word.{u64_mod}
use dsm_decentralized_state.Base.Result.{Result, ok, err, validation, ◌>>=◌, ok_or}
use dsm_decentralized_state.Token.Supply
use dsm_decentralized_state.Token.Supply.{TokenSupply, is_valid_supply_change, change_supply}

pub data TokenType : Type 0 where
  native created restricted wrapped : TokenType

pub record TokenMetadata : Type 0 where
  pub token_id : String
  pub name : String
  pub symbol : String
  pub decimals : ℕ
  pub token_type : TokenType
  pub owner_id : String
  pub creation_timestamp : ℕ
  pub metadata_uri : Option String
  pub description : Option String
  pub icon_url : Option String
  pub policy_anchor : Option String
  pub fields : Map String String

abbrev pub new_metadata : ℕ → String → String → String → ℕ → TokenType → String → TokenMetadata
new_metadata now token_id name symbol decimals token_type owner_id = record {
  token_id = token_id;
  name = name;
  symbol = symbol;
  decimals = decimals;
  token_type = token_type;
  owner_id = owner_id;
  creation_timestamp = now;
  metadata_uri = none;
  description = none;
  icon_url = none;
  policy_anchor = none;
  fields = [];
}

pub record TokenRegistry : Type 0 where
  pub tokens : Map String TokenMetadata
  pub supplies : Map String TokenSupply
  pub native_token_id : String

-- `100_000_000 * 10u64.pow(18)`, which passes the range of a `u64` and wraps around
unfoldable pub root_total : ℕ
root_total = (100_000_000 * 10 ^ 18) % u64_mod

pub new : ℕ → TokenRegistry
unfolding root_total
new now = record {
  tokens = ("ROOT", new_metadata now "ROOT" "ROOT" "ROOT" 18 native "system") ∷ [];
  supplies = ("ROOT", Supply.new root_total) ∷ [];
  native_token_id = "ROOT";
}

pub register_token : TokenMetadata → TokenSupply → TokenRegistry → Result TokenRegistry
register_token metadata supply r =
    if Map.contains_key metadata.token_id r.tokens
    then err validation
    else ok (record r {
      tokens = Map.insert metadata.token_id metadata r.tokens;
      supplies = Map.insert metadata.token_id supply r.supplies;
    })

pub get_token : String → TokenRegistry → Option TokenMetadata
get_token token_id r = Map.get token_id r.tokens

pub get_supply : String → TokenRegistry → Option TokenSupply
get_supply token_id r = Map.get token_id r.supplies

-- the checks and the write of `update_supply`, once the supply is found
change_found : String → ℕ → Bool → TokenRegistry → TokenSupply → Result TokenRegistry
change_found token_id amount is_addition r supply =
    if is_valid_supply_change amount is_addition supply
    then ok (record r {
      supplies = Map.insert token_id (change_supply amount is_addition supply) r.supplies;
    })
    else err validation

pub update_supply : String → ℕ → Bool → TokenRegistry → Result TokenRegistry
unfolding change_found
update_supply token_id amount is_addition r =
    ok_or (Map.get token_id r.supplies) validation >>= λ supply.
    change_found token_id amount is_addition r supply

pub is_native_token : String → TokenRegistry → Bool
is_native_token token_id r = token_id == r.native_token_id

pub record CreateTokenParams : Type 0 where
  pub token_id : String
  pub name : String
  pub description : Option String
  pub icon_url : Option String
  pub metadata_uri : Option String
  pub decimals : ℕ
  pub initial_supply : Option ℕ
  pub max_supply : Option ℕ
  pub policy_anchor : Option String

or_zero : Option ℕ → ℕ
or_zero none = 0
or_zero (some n) = n

created_metadata : ℕ → CreateTokenParams → TokenMetadata
created_metadata now params = record {
  token_id = params.token_id;
  name = params.name;
  symbol = params.token_id;
  decimals = params.decimals;
  token_type = created;
  owner_id = "system";
  creation_timestamp = now;
  metadata_uri = params.metadata_uri;
  description = params.description;
  icon_url = params.icon_url;
  policy_anchor = params.policy_anchor;
  fields = [];
}

created_supply : CreateTokenParams → TokenSupply
unfolding or_zero
created_supply params = record {
  total_supply = or_zero params.initial_supply;
  circulating_supply = or_zero params.initial_supply;
  max_supply = params.max_supply;
  min_supply = some 0;
}

-- It cannot fail; the result is the new registry with what the method returns.
pub create_token :
    ℕ → CreateTokenParams → TokenRegistry → TokenRegistry × TokenMetadata × TokenSupply
unfolding created_metadata created_supply
create_token now params r =
    let metadata = created_metadata now params in
    let supply = created_supply params in
    (
      record r {
        tokens = Map.insert params.token_id metadata r.tokens;
        supplies = Map.insert metadata.token_id supply r.supplies;
      },
      metadata,
      supply,
    )
