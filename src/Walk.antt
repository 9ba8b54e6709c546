-- ===== src/Walk.antt =====
-- The deterministic random walk (dsm/src/core/state_machine/random_walk.rs, module `algorithms`),
-- and `calculate_next_entropy` (utils.rs beside it). An `i32` is a whole number that is given by
-- its sign, and arithmetic on 32 bits wraps around, as it does in a release build.
pub mod Laws
mod Tests
use dsm_decentralized_state.Base.{
  ℕ, zero, suc, ◌+◌, ◌-◌, ◌*◌, ◌%◌, ◌^◌, Bool, true, false, ◌&&◌, not, Option, none, some, List, [],
  ◌∷◌, ◌++◌, ltb, nat_beq, length, take, drop, if◌then◌else◌,
}
use dsm_decentralized_state.Base.Word.{wrapping_add}
use dsm_decentralized_state.Base.Result.{
  Result, ok, err, ◌>>=◌, ◌>>◌, fail_if, invalid_parameter, internal, panic,
}
use dsm_decentralized_state.Merkle.Hash.{Hash}
use dsm_decentralized_state.Token.Balance.{le_bytes}
use dsm_decentralized_state.State.Operation.{Bytes}
use dsm_decentralized_state.State.Model.{State, Primitives, state_hash}

-- An `i32`: `negsuc n` is -(n + 1).
pub data I32 : Type 0 where
  pos negsuc : ℕ → I32

-- `a == b`
unfoldable pub i32_beq : I32 → I32 → Bool
i32_beq (pos a) (pos b) = nat_beq a b
i32_beq (negsuc a) (negsuc b) = nat_beq a b
i32_beq _ _ = false

abbrev u32_mod : ℕ
u32_mod = 2 ^ 32

-- `v as i32`, of a `u32`
unfoldable pub as_i32 : ℕ → I32
as_i32 v = if ltb v (2 ^ 31) then pos v else negsuc (u32_mod - 1 - v)

-- The field `position_count`, which nothing reads, is left out.
pub record RandomWalkConfig : Type 0 where
  pub dimensions : ℕ
  pub step_count : ℕ
  pub max_coordinate : ℕ

abbrev default_config : RandomWalkConfig
default_config = record { dimensions = 3; step_count = 64; max_coordinate = 1000000 }

-- `config.unwrap_or_default()`
abbrev pub or_default : Option RandomWalkConfig → RandomWalkConfig
or_default none = default_config
or_default (some config) = config

abbrev pub Position : Type 0
Position = List I32

-- `u32::from_le_bytes`
unfoldable pub from_le_bytes : Bytes → ℕ
from_le_bytes [] = 0
from_le_bytes (b ∷ bs) = b + 256 * from_le_bytes bs

-- The four bytes of the hash for the coordinate of dimension `d`.
unfoldable pub coordinate_bytes : ℕ → Hash → Bytes
coordinate_bytes d current_hash = take 4 (drop (d % 8 * 4) current_hash)

-- `(value as i32) - (config.max_coordinate as i32)`, the value being a remainder by `range`
unfoldable pub coordinate : ℕ → ℕ → Hash → I32
unfolding as_i32 coordinate_bytes from_le_bytes
coordinate max_coordinate d current_hash =
    let value = from_le_bytes (coordinate_bytes d current_hash) % (2 * max_coordinate % u32_mod) in
    as_i32 ((value + (u32_mod - max_coordinate)) % u32_mod)

-- The inner loop of `generate_positions`, from dimension `d` on.
unfoldable pub coordinates : ℕ → ℕ → ℕ → Hash → Position
unfolding coordinate
coordinates zero d max_coordinate current_hash = []
coordinates (suc rounds) d max_coordinate current_hash =
    coordinate max_coordinate d current_hash
    ∷ coordinates rounds (d + 1) max_coordinate current_hash

-- The inner loop of `verify_positions`, over the coordinates of two positions side by side.
unfoldable pub same_coordinates : Position → Position → Bool
unfolding i32_beq
same_coordinates (a ∷ xs) (b ∷ ys) = if not (i32_beq a b) then false else same_coordinates xs ys
same_coordinates _ _ = true

-- The outer loop.
unfoldable pub same_positions : List Position → List Position → Bool
unfolding same_coordinates
same_positions (a ∷ xs) (b ∷ ys) =
    let rest = same_positions xs ys in
    if not (nat_beq (length a) (length b))
    then false
    else if not (same_coordinates a b)
    then false
    else rest
same_positions _ _ = true

unfoldable pub verify_positions : List Position → List Position → Bool
unfolding same_positions
verify_positions xs ys =
    if not (nat_beq (length xs) (length ys)) then false else same_positions xs ys

-- What follows the seed is hashed piece by piece, or not there.
abbrev or_nothing : Option Bytes → Bytes
or_nothing none = []
or_nothing (some params) = params

module _ (blake3 : List ℕ → Hash) where
  unfoldable pub generate_seed : Hash → Bytes → Option Bytes → Hash
  generate_seed state external_data additional_params =
      blake3 (state ++ (external_data ++ or_nothing additional_params))

  -- The loop of `generate_positions`, from the hash `current_hash` on.
  unfoldable pub walk : ℕ → ℕ → ℕ → Hash → List Position
  unfolding coordinates
  walk zero dimensions max_coordinate current_hash = []
  walk (suc rounds) dimensions max_coordinate current_hash =
      coordinates dimensions 0 max_coordinate current_hash
      ∷ walk rounds dimensions max_coordinate (blake3 current_hash)

  -- The remainder by a range of 0 panics.
  unfoldable pub generate_positions : Hash → Option RandomWalkConfig → Result (List Position)
  unfolding walk
  generate_positions seed config =
      let c = or_default config in
      fail_if (nat_beq c.dimensions 0) invalid_parameter
      >> fail_if (nat_beq c.step_count 0) invalid_parameter
      >> fail_if (nat_beq (2 * c.max_coordinate % u32_mod) 0) panic
      >> ok (walk c.step_count c.dimensions c.max_coordinate seed)

  unfoldable pub generate_random_walk_coordinates :
      Hash → Bytes → Option RandomWalkConfig → Result (List Position)
  unfolding generate_seed generate_positions
  generate_random_walk_coordinates hash external_data config =
      generate_positions (generate_seed hash external_data none) config

  unfoldable pub verify_random_walk_coordinates :
      Hash → Bytes → List Position → Option RandomWalkConfig → Result Bool
  unfolding generate_seed generate_positions
  verify_random_walk_coordinates hash external_data positions config =
      generate_positions (generate_seed hash external_data none) config >>= λ expected_positions.
      ok (verify_positions positions expected_positions)

  unfoldable pub generate_forward_commitment_verification :
      Hash → Bytes → Option RandomWalkConfig → Result (List Position)
  unfolding generate_seed generate_positions
  generate_forward_commitment_verification commitment entropy config =
      generate_positions (generate_seed commitment entropy none) config

  unfoldable pub calculate_next_entropy : Bytes → Bytes → ℕ → Bytes
  calculate_next_entropy current_entropy operation_bytes next_state_number =
      blake3 (current_entropy ++ (operation_bytes ++ le_bytes 8 next_state_number))

module _ (p : Primitives) where
  unfoldable pub generate_secure_multi_party_seed : State → Bytes → List Bytes → Hash
  generate_secure_multi_party_seed state operation participants =
      p.blake3 (state_hash p state ++ (operation ++ all_of participants))
    where
      all_of : List Bytes → Bytes
      all_of [] = []
      all_of (participant ∷ rest) = participant ++ all_of rest

  -- the seed that `verify_state_transition` expects
  unfoldable pub expected_seed : State → State → Hash
  expected_seed previous_state new_state =
      let operation = p.serialize_operation new_state.operation in
      let next_entropy =
        calculate_next_entropy p.blake3 previous_state.entropy operation
          (wrapping_add previous_state.state_number 1) in
      generate_seed p.blake3 (state_hash p previous_state) operation (some next_entropy)

  -- A previous hash that has not 32 bytes is refused.
  unfoldable pub verify_state_transition : State → State → List Position → Result Bool
  unfolding expected_seed
  verify_state_transition previous_state new_state positions =
      fail_if (not (nat_beq (length (state_hash p previous_state)) 32)) internal
      >> (generate_positions p.blake3 (expected_seed previous_state new_state) none
          >>= λ expected_positions. ok (verify_positions positions expected_positions))
