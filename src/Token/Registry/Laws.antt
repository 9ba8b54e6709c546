-- ===== src/Token/Registry/Laws.antt =====
-- The registry as a pair of maps with the same tokens, and what each operation does to it.
use dsm_decentralized_state.Base.{
  ℕ, ◌≡◌, refl, ◌∙◌, String, string_eq, ◌==◌, Bool, true, false, none, some, arith, ◌⊎◌, inl, inr,
  if◌then◌else◌, Option-cases, Bool-cases,
}
use dsm_decentralized_state.Base.Map
use dsm_decentralized_state.Base.Map.{get-insert, contains_key-get}
use dsm_decentralized_state.Base.Result.{ok, err, validation}
use dsm_decentralized_state.Token.Supply
use dsm_decentralized_state.Token.Supply.{
  TokenSupply, InLimits, is_valid_supply_change, change_supply, change_supply-InLimits,
}
use dsm_decentralized_state.Token.Registry.{
  new, root_total, new_metadata, native, TokenRegistry, TokenMetadata, CreateTokenParams, get_token,
  get_supply, register_token, update_supply, create_token,
}

-- A token is listed with metadata exactly if it is listed with a supply, and every supply is within
-- its limits.
pub record IsValid (r : TokenRegistry) : Type 0 where
  pub paired :
      (id : String)
      → (get_token id r ≡ none) × (get_supply id r ≡ none)
        ⊎ ((m : TokenMetadata) × (s : TokenSupply) × (get_token id r ≡ some m)
            × (get_supply id r ≡ some s))
  pub limited : (id : String) (s : TokenSupply) → get_supply id r ≡ some s → InLimits s

-- The lookups of `r'` are those of `r`, but for one token.
pub record Sets (id : String) (m : TokenMetadata) (s : TokenSupply) (r r' : TokenRegistry)
    : Type 0 where
  pub tokens_at : (j : String) → get_token j r' ≡ (if id == j then some m else get_token j r)
  pub supplies_at : (j : String) → get_supply j r' ≡ (if id == j then some s else get_supply j r)

Sets-IsValid :
    (id : String) (m : TokenMetadata) (s : TokenSupply) (r r' : TokenRegistry)
    → Sets id m s r r'
    → InLimits s
    → IsValid r
    → IsValid r'
Sets-IsValid id m s r r' sets lim v = record {
  paired = λ j. elim (Bool-cases (id == j)) [
    | inl same ↦ inr (m, s, ground (arith, sets.tokens_at j), ground (arith, sets.supplies_at j))
    | inr other ↦
        let tj : get_token j r' ≡ get_token j r = ground (arith, sets.tokens_at j) in
        let sj : get_supply j r' ≡ get_supply j r = ground (arith, sets.supplies_at j) in
        rw (tj, sj) (v.paired j)
  ];
  limited = λ j t e. elim (Bool-cases (id == j)) [
    | inl same ↦ let eq : s ≡ t = ground (arith, sets.supplies_at j) in rw (← eq) lim
    | inr other ↦ v.limited j t (ground (arith, sets.supplies_at j))
  ];
}

-- `register_token` on a valid registry, for a supply within its limits: it refuses a token that is
-- listed already; any other is listed with the given metadata and supply, no other token changes,
-- and the registry stays valid.
register_token_lem :
    (m : TokenMetadata) (s : TokenSupply) (r : TokenRegistry)
    → InLimits s
    → IsValid r
    → ((old : TokenMetadata) × (get_token m.token_id r ≡ some old)
        × (register_token m s r ≡ err validation))
      ⊎ ((r' : TokenRegistry) × (get_token m.token_id r ≡ none)
          × (register_token m s r ≡ ok r')
          × Sets m.token_id m s r r'
          × IsValid r')
unfolding register_token get_token get_supply
register_token_lem m s r lim v = elim (Option-cases (get_token m.token_id r)) [
  | inl new ↦ inr (
    r',
    new,
    ground (arith, contains_key-get m.token_id r.tokens),
    sets,
    Sets-IsValid _ m s r r' sets lim v,
  )
  | inr (old, e) ↦ inl (old, e, ground (arith, contains_key-get m.token_id r.tokens))
]
  where
    r' : TokenRegistry
    r' = record r {
      tokens = Map.insert m.token_id m r.tokens;
      supplies = Map.insert m.token_id s r.supplies;
    }

    sets : Sets m.token_id m s r r'
    sets = record {
      tokens_at = λ j. get-insert m.token_id j m r.tokens;
      supplies_at = λ j. get-insert m.token_id j s r.supplies;
    }

update_found :
    (id : String) (amount : ℕ) (add : Bool) (r : TokenRegistry) (s : TokenSupply)
    → get_supply id r ≡ some s
    → update_supply id amount add r ≡ (
        if is_valid_supply_change amount add s
        then ok (record r { supplies = Map.insert id (change_supply amount add s) r.supplies })
        else err validation)
unfolding update_supply get_supply
update_found id amount add r s e = rw e

metadata_of_supply :
    (id : String) (r : TokenRegistry) (s : TokenSupply)
    → IsValid r
    → get_supply id r ≡ some s
    → (m : TokenMetadata) × (get_token id r ≡ some m)
metadata_of_supply id r s v e = elim (v.paired id) [
  | inl (_, missing) ↦ cc
  | inr (m, _, found, _) ↦ (m, found)
]

update-Sets :
    (id : String) (r : TokenRegistry) (m : TokenMetadata) (s : TokenSupply)
    → get_token id r ≡ some m
    → Sets id m s r (record r { supplies = Map.insert id s r.supplies })
unfolding get_token get_supply
update-Sets id r m s e = record {
  tokens_at = λ j. ground (arith, string_eq.beq_iff id j);
  supplies_at = λ j. get-insert id j s r.supplies;
}

-- `update_supply` refuses an unknown token and a change that leaves the limits of the supply; any
-- other changes the supply of this token alone, leaves the metadata, and keeps a registry valid.
pub update_supply_lem :
    (id : String) (amount : ℕ) (add : Bool) (r : TokenRegistry)
    → IsValid r
    → ((get_supply id r ≡ none) × (update_supply id amount add r ≡ err validation))
      ⊎ ((s : TokenSupply) × (get_supply id r ≡ some s)
          × (is_valid_supply_change amount add s ≡ false)
          × (update_supply id amount add r ≡ err validation))
      ⊎ ((s : TokenSupply) × (r' : TokenRegistry) × (m : TokenMetadata) × (get_supply id r ≡ some s)
          × (is_valid_supply_change amount add s ≡ true)
          × (update_supply id amount add r ≡ ok r')
          × (get_token id r ≡ some m)
          × Sets id m (change_supply amount add s) r r'
          × IsValid r')
update_supply_lem id amount add r v = elim (Option-cases (get_supply id r)) [
  | inl missing ↦ inl (missing, unfold update_supply get_supply in rw missing)
  | inr (s, e) ↦ elim (Bool-cases (is_valid_supply_change amount add s)) [
    | inl fine ↦
        let s' = change_supply amount add s in
        let (m, em) = metadata_of_supply id r s v e in
        let sets = update-Sets id r m s' em in
        let lim = change_supply-InLimits amount add s (v.limited id s e) fine in
        inr (
          inr (
            s,
            record r { supplies = Map.insert id s' r.supplies },
            m,
            e,
            fine,
            update_found id amount add r s e ∙ rw fine,
            em,
            sets,
            Sets-IsValid id m s' r _ sets lim v,
          ))
    | inr bad ↦ inr (inl (s, e, bad, update_found id amount add r s e ∙ rw bad))
  ]
]

-- `create_token` does not look whether the token is listed: whatever a registry has for the id, the
-- token is owned by the system and its supply is the one that the parameters give afterwards, and
-- no other token changes.
pub create_token-Sets :
    (now : ℕ) (params : CreateTokenParams) (r : TokenRegistry)
    → let (r', m, s) = create_token now params r in
      Sets params.token_id m s r r' × (m.owner_id ≡ "system") × (s.min_supply ≡ some 0)
unfolding create_token get_token get_supply
create_token-Sets now params r = (
  record {
    tokens_at = λ j. get-insert params.token_id j _ r.tokens;
    supplies_at = λ j. get-insert params.token_id j _ r.supplies;
  },
  refl,
  refl,
)

-- The registry that a node starts with is valid.
pub new-IsValid : (now : ℕ) → IsValid (new now)
unfolding new root_total get_token get_supply Map.get Supply.new
new-IsValid now = record {
  paired = λ j. elim (Bool-cases ("ROOT" == j)) [
    | inl same ↦ inr (
      new_metadata now "ROOT" "ROOT" "ROOT" 18 native "system",
      Supply.new root_total,
      ground (arith, same),
      ground (arith, same),
    )
    | inr other ↦ inl (ground (arith, other), ground (arith, other))
  ];
  limited = λ j s e. elim (Bool-cases ("ROOT" == j)) [
    | inl same ↦
        let at : Supply.new root_total ≡ s = ground (arith, same) in
        rw (← at) (record { word = omega arith; upper = omega arith; lower = omega arith })
    | inr other ↦ absurd (ground (arith, other))
  ];
}
