-- ===== src/TokenState/Commitments.antt =====
-- What `validate_commitment_chain` (dsm/src/core/token/token_state_manager.rs) accepts.
use mathlib.Core.List.{flatten, append_assoc}
use dsm_decentralized_state.Base.{
  ℕ, zero, suc, ◌≤◌, ◌≡◌, ◌↔◌, ◌⊎◌, inl, inr, get_elem?, any, length, ◌++◌, map, list_beq,
  Bool-cases, nat_beq, if◌then◌else◌, Option-cases, list_eq, ap, sym, ◌∙◌, refl, true, Option, none,
  some, List, [], ◌∷◌, arith, list_beq_iff, list_beq→eq, ◌&&◌, false, nat_eq,
}
use dsm_decentralized_state.Base.Map
use dsm_decentralized_state.Base.Map.{Map, keys}
use dsm_decentralized_state.State.Operation.{
  Bytes, Text, Operation, transfer, mint, burn, lock_token, unlock_token,
}
use dsm_decentralized_state.State.Model.Text.{sort_entries}
use dsm_decentralized_state.Walk.{from_le_bytes}
use dsm_decentralized_state.State.Model.{State, PreCommitment}
use dsm_decentralized_state.TokenState.{
  transfer_type, mint_type, burn_type, lock_type, unlock_type, token_id_key, recipient_key_name,
  amount_key, matches_type, matches_fixed, matches_fixed_params, amount_valid,
  variable_params_valid, fixed_bytes, variable_bytes, as_keys, verify_precommitment_parameters,
  commitment_data, compute_commitment_hash, commitment_holds, validate_commitment_chain,
}

-- The name that a commitment gives to the type of an operation, for the five types that have one.
abbrev HasType : PreCommitment → Operation → Type 0
HasType c (transfer _) = c.operation_type ≡ transfer_type
HasType c (mint _) = c.operation_type ≡ mint_type
HasType c (burn _) = c.operation_type ≡ burn_type
HasType c (lock_token _ _ _ _) = c.operation_type ≡ lock_type
HasType c (unlock_token _ _ _ _) = c.operation_type ≡ unlock_type
HasType c _ = ⊥

-- The parameter of the name is not fixed, or fixed to the value.
abbrev FixedTo : Text → Text → PreCommitment → Type 0
FixedTo name value c =
    (Map.get name c.fixed_parameters ≡ none) ⊎ (Map.get name c.fixed_parameters ≡ some value)

-- The amount is a variable parameter, or fixed to the number in eight bytes.
abbrev AmountFits : ℕ → PreCommitment → Type 0
AmountFits amount c =
    ((i : ℕ) × (get_elem? c.variable_parameters i ≡ some amount_key))
    ⊎ ((bytes : Bytes) × (Map.get amount_key c.fixed_parameters ≡ some bytes)
        × (length bytes ≡ 8)
        × (from_le_bytes bytes ≡ amount))

abbrev HasParameters : PreCommitment → Operation → Type 0
HasParameters c (transfer t) =
    FixedTo token_id_key t.token_id c
    × FixedTo recipient_key_name t.recipient c
    × AmountFits t.amount.value c
HasParameters c (mint m) = FixedTo token_id_key m.token_id c × AmountFits m.amount.value c
HasParameters c (burn b) = FixedTo token_id_key b.token_id c × AmountFits b.amount.value c
HasParameters c _ = Unit

matches_type_iff : (c : PreCommitment) (o : Operation) → (matches_type o c ≡ true) ↔ HasType c o
unfolding matches_type
matches_type_iff c o = elim o as (λ (k : Operation). (matches_type k c ≡ true) ↔ HasType c k) [
  | transfer _ ↦ list_beq_iff c.operation_type transfer_type
  | mint _ ↦ list_beq_iff c.operation_type mint_type
  | burn _ ↦ list_beq_iff c.operation_type burn_type
  | lock_token _ _ _ _ ↦ list_beq_iff c.operation_type lock_type
  | unlock_token _ _ _ _ ↦ list_beq_iff c.operation_type unlock_type
  | _ ↦ (λ h. absurd cc, λ h. absurd h)
]

matches_fixed_iff :
    (name value : Text) (c : PreCommitment)
    → (matches_fixed name value c ≡ true) ↔ FixedTo name value c
unfolding matches_fixed
matches_fixed_iff name value c = elim (Option-cases (Map.get name c.fixed_parameters)) [
  | inl free ↦ ground (arith, free)
  | inr (expected, fixed) ↦ ground (arith, fixed, list_beq_iff value expected)
]

any-at :
    (x : Text) (xs : List Text) → any (list_beq x) xs ≡ true → (i : ℕ) × (get_elem? xs i ≡ some x)
any-at x [] h = absurd cc
any-at x (y ∷ ys) h = elim (Bool-cases (list_beq x y)) [
  | inl same ↦ (0, ap (λ (z : Text). some z) (sym (list_beq→eq x y same)))
  | inr other ↦ let (i, at) = any-at x ys (rw other at h) in (suc i, at)
]

at-any : (x : Text) (xs : List Text) (i : ℕ) → get_elem? xs i ≡ some x → any (list_beq x) xs ≡ true
at-any x [] i e = absurd cc
at-any x (y ∷ ys) zero e = let same : y ≡ x = cc in ground (arith, list_beq_iff x y, same)
at-any x (y ∷ ys) (suc i) e = ground (arith, at-any x ys i e)

-- The amount, by what the parameter is fixed to.
fixed_amount_iff :
    (amount : ℕ) (c : PreCommitment)
    → any (list_beq amount_key) c.variable_parameters ≡ false
    → (amount_valid amount c ≡ true) ↔ AmountFits amount c
unfolding amount_valid
fixed_amount_iff amount c free = elim (Option-cases (Map.get amount_key c.fixed_parameters)) [
  | inl missing ↦
      let refused : amount_valid amount c ≡ false = rw (amount_valid, free, missing) refl in
      (
        λ h. absurd (cc (h, refused)),
        λ fits. elim fits [
          | inl (i, at) ↦ absurd (cc (free, at-any amount_key c.variable_parameters i at))
          | inr (bytes, at, _, _) ↦ absurd (cc (at, missing))
        ],
      )
  | inr (bytes, fixed) ↦
      let computed : amount_valid amount c
          ≡ (if nat_beq (length bytes) 8 then nat_beq amount (from_le_bytes bytes) else false) =
        rw (amount_valid, free, fixed) refl in
      (
        λ h. inr (bytes, fixed, ground (arith, computed), ground (arith, computed)),
        λ fits. elim fits [
          | inl (i, at) ↦ absurd (cc (free, at-any amount_key c.variable_parameters i at))
          | inr (other, at, long, same) ↦
              let one : other ≡ bytes = cc (at, fixed) in ground (arith, computed, one)
        ],
      )
]

amount_valid_iff :
    (amount : ℕ) (c : PreCommitment) → (amount_valid amount c ≡ true) ↔ AmountFits amount c
unfolding amount_valid
amount_valid_iff amount c = elim (Bool-cases (any (list_beq amount_key) c.variable_parameters)) [
  | inr free ↦ fixed_amount_iff amount c free
  | inl variable ↦
      (λ h. inl (any-at amount_key c.variable_parameters variable), λ h. rw variable refl)
]

matches_fixed_params_iff :
    (c : PreCommitment) (o : Operation)
    → ((matches_fixed_params o c && variable_params_valid o c) ≡ true) ↔ HasParameters c o
unfolding matches_fixed_params variable_params_valid
matches_fixed_params_iff c (transfer t) = ground (
  arith,
  matches_fixed_iff token_id_key t.token_id c,
  matches_fixed_iff recipient_key_name t.recipient c,
  amount_valid_iff t.amount.value c,
)
matches_fixed_params_iff c (mint m) =
    ground (arith, matches_fixed_iff token_id_key m.token_id c, amount_valid_iff m.amount.value c)
matches_fixed_params_iff c (burn b) =
    ground (arith, matches_fixed_iff token_id_key b.token_id c, amount_valid_iff b.amount.value c)
matches_fixed_params_iff c _ = (λ h. tt, λ h. refl)

-- What `verify_precommitment_parameters` accepts.
verify_precommitment_parameters_iff :
    (c : PreCommitment) (o : Operation)
    → (verify_precommitment_parameters c o ≡ true) ↔ (HasType c o × HasParameters c o)
unfolding verify_precommitment_parameters
verify_precommitment_parameters_iff c o =
    ground (arith, matches_type_iff c o, matches_fixed_params_iff c o)

-- The entries of a map one after another, and its keys alone.
abbrev entries_in_order : Map Text Bytes → Bytes
entries_in_order m = flatten (map (λ (e : record { 0 : Text; 1 : Bytes }). e.0 ++ e.1) m)

abbrev keys_in_order : {V : Type 0} → Map Text V → Bytes
keys_in_order m = flatten (keys m)

fixed_bytes_lem : (m : Map Text Bytes) → fixed_bytes m ≡ entries_in_order m
unfolding fixed_bytes flatten
fixed_bytes_lem [] = refl
fixed_bytes_lem ((key, value) ∷ rest) =
    ap (λ (r : Bytes). key ++ (value ++ r)) (fixed_bytes_lem rest)
    ∙ sym (append_assoc key value (entries_in_order rest))

variable_bytes_lem : (m : Map Text (Unit {0})) → variable_bytes m ≡ keys_in_order m
unfolding variable_bytes flatten
variable_bytes_lem [] = refl
variable_bytes_lem ((param, _) ∷ rest) = ap (λ (r : Bytes). param ++ r) (variable_bytes_lem rest)

module _ (blake3 : List ℕ → Bytes) where
  -- That a state keeps to the commitment of the one before, if there is one. The hash of the
  -- commitment is a fixed point: the data that are hashed start with it.
  abbrev Keeps : Option PreCommitment → State → Type 0
  Keeps none next = Unit
  Keeps (some c) next =
      (c.min_state_number ≤ next.state_number)
      × (HasType c next.operation × HasParameters c next.operation)
      × (blake3 (
            c.hash
            ++ (entries_in_order (sort_entries c.fixed_parameters)
                ++ keys_in_order (sort_entries (as_keys c.variable_parameters))))
          ≡ c.hash)

  abbrev pub AllKeep : List State → Type 0
  AllKeep [] = Unit
  AllKeep (s ∷ []) = Unit
  AllKeep (s ∷ t ∷ rest) = Keeps s.forward_commitment t × AllKeep (t ∷ rest)

  commitment_data_lem :
      (c : PreCommitment)
      → commitment_data c
        ≡ c.hash
          ++ (entries_in_order (sort_entries c.fixed_parameters)
              ++ keys_in_order (sort_entries (as_keys c.variable_parameters)))
  unfolding commitment_data
  commitment_data_lem c =
      rw
        (
          fixed_bytes_lem (sort_entries c.fixed_parameters),
          variable_bytes_lem (sort_entries (as_keys c.variable_parameters)),
        )
        refl

  commitment_holds_iff :
      (c : Option PreCommitment) (next : State)
      → (commitment_holds blake3 c next ≡ true) ↔ Keeps c next
  unfolding commitment_holds compute_commitment_hash
  commitment_holds_iff none next = (λ h. tt, λ h. refl)
  commitment_holds_iff (some c) next = rw (sym (commitment_data_lem c)) (
      ground (
        arith,
        verify_precommitment_parameters_iff c next.operation,
        list_beq_iff (blake3 (commitment_data c)) c.hash,
      ))

  -- `validate_commitment_chain` accepts exactly the lists of states in which every state keeps to
  -- the commitment of the state before it, if that has one. The state has at least the number that
  -- the commitment asks for; its operation is of one of five types, and the commitment has the name
  -- of the type; the token and the recipient are those that the commitment fixes, if it fixes them;
  -- the amount of a transfer, a mint or a burn is a variable parameter, or fixed to its eight bytes;
  -- and the hash of the commitment is BLAKE3 of this hash itself followed by the fixed parameters in
  -- the order of their keys and the variable parameters in order.
  pub validate_commitment_chain_iff :
      (states : List State) → (validate_commitment_chain blake3 states ≡ true) ↔ AllKeep states
  unfolding validate_commitment_chain
  validate_commitment_chain_iff [] = (λ h. tt, λ h. refl)
  validate_commitment_chain_iff (s ∷ []) = (λ h. tt, λ h. refl)
  validate_commitment_chain_iff (s ∷ t ∷ rest) =
      ground (
        arith,
        commitment_holds_iff s.forward_commitment t,
        validate_commitment_chain_iff (t ∷ rest),
      )
