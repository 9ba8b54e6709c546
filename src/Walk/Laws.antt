-- ===== src/Walk/Laws.antt =====
-- What the random walk promises (dsm/src/core/state_machine/random_walk.rs): positions of the size
-- and the range that are configured, and verification as equality.
use native.Mathlib.Nat.{mod-lt}
use dsm_decentralized_state.Base.{
  ℕ, zero, suc, ◌+◌, ◌-◌, ◌*◌, ◌%◌, ◌^◌, ◌≤◌, ◌<◌, ◌≡◌, ◌↔◌, ◌⊎◌, inl, inr, refl, ap, true, false,
  ltb, Option, none, List, [], ◌∷◌, arith, nat_beq, length, Bool-cases,
}
use dsm_decentralized_state.Base.Result.{Result, ok, err, ◌>>=◌, invalid_parameter}
use dsm_decentralized_state.Merkle.Hash.{Hash}
use dsm_decentralized_state.State.Operation.{Bytes}
use dsm_decentralized_state.State.Model.{State, Primitives, state_hash}
use dsm_decentralized_state.Walk.{
  I32, pos, negsuc, i32_beq, as_i32, RandomWalkConfig, or_default, Position, from_le_bytes,
  coordinate_bytes, coordinate, coordinates, same_coordinates, same_positions, verify_positions,
  generate_seed, walk, generate_positions, generate_random_walk_coordinates,
  verify_random_walk_coordinates, expected_seed, verify_state_transition,
}

-- From `-max` up to below `max`.
abbrev InRange : ℕ → I32 → Type 0
InRange max (pos v) = v < max
InRange max (negsuc v) = v + 1 ≤ max

abbrev AllInRange : ℕ → Position → Type 0
AllInRange max [] = Unit
AllInRange max (c ∷ cs) = InRange max c × AllInRange max cs

-- The positions have the dimension, and their coordinates the range.
abbrev pub AllFit : ℕ → ℕ → List Position → Type 0
AllFit dimensions max [] = Unit
AllFit dimensions max (p ∷ ps) =
    (length p ≡ dimensions) × AllInRange max p × AllFit dimensions max ps

as_i32-InRange :
    (max v : ℕ)
    → 0 < max
    → max < 2 ^ 31
    → v < 2 * max
    → InRange max (as_i32 ((v + (2 ^ 32 - max)) % 2 ^ 32))
unfolding as_i32
as_i32-InRange max v positive small lt = elim (Bool-cases (ltb v max)) [
  | inl below ↦
      let at : (v + (2 ^ 32 - max)) % 2 ^ 32 ≡ v + (2 ^ 32 - max) = ground arith in
      rw at (ground arith)
  | inr above ↦
      let at : (v + (2 ^ 32 - max)) % 2 ^ 32 ≡ v - max = ground arith in rw at (ground arith)
]

remainder_lt : (a r : ℕ) → 0 < r → a % r < r
remainder_lt a r positive = mod-lt a positive

coordinate-InRange :
    (max d : ℕ) (current_hash : Hash)
    → 0 < max
    → max < 2 ^ 31
    → InRange max (coordinate max d current_hash)
unfolding coordinate
coordinate-InRange max d current_hash positive small =
    let range : 2 * max % 2 ^ 32 ≡ 2 * max = ground arith in
    let value = from_le_bytes (coordinate_bytes d current_hash) in
    rw range (
      as_i32-InRange max (value % (2 * max)) positive small
        (remainder_lt value (2 * max) (omega arith)))

coordinates-fit :
    (rounds d max : ℕ) (current_hash : Hash)
    → 0 < max
    → max < 2 ^ 31
    → (length (coordinates rounds d max current_hash) ≡ rounds)
      × AllInRange max (coordinates rounds d max current_hash)
unfolding coordinates
coordinates-fit zero d max current_hash positive small = (refl, tt)
coordinates-fit (suc rounds) d max current_hash positive small =
    let (sized, fit) = coordinates-fit rounds (d + 1) max current_hash positive small in
    (ap suc sized, (coordinate-InRange max d current_hash positive small, fit))

-- Two coordinates are equal for `==` if they are.
i32_beq_iff : (a b : I32) → (i32_beq a b ≡ true) ↔ (a ≡ b)
unfolding i32_beq
i32_beq_iff (pos a) (pos b) = ground arith
i32_beq_iff (negsuc a) (negsuc b) = ground arith
i32_beq_iff (pos a) (negsuc b) = ground arith
i32_beq_iff (negsuc a) (pos b) = ground arith

same_coordinates_iff :
    (xs ys : Position) → length xs ≡ length ys → (same_coordinates xs ys ≡ true) ↔ (xs ≡ ys)
unfolding same_coordinates
same_coordinates_iff [] [] l = (λ h. refl, λ h. refl)
same_coordinates_iff [] (y ∷ ys) l = absurd (omega arith)
same_coordinates_iff (x ∷ xs) [] l = absurd (omega arith)
same_coordinates_iff (x ∷ xs) (y ∷ ys) l =
    let tails : length xs ≡ length ys = omega arith in
    ground (arith, i32_beq_iff x y, same_coordinates_iff xs ys tails)

differ_by_length {ℓ} :
    {A : Type ℓ} (xs ys : List A) → nat_beq (length xs) (length ys) ≡ false → xs ≡ ys → ⊥
differ_by_length xs ys unequal e = let sizes = ap length e in ground arith

same_positions_iff :
    (xs ys : List Position) → length xs ≡ length ys → (same_positions xs ys ≡ true) ↔ (xs ≡ ys)
unfolding same_positions
same_positions_iff [] [] l = (λ h. refl, λ h. refl)
same_positions_iff [] (y ∷ ys) l = absurd (omega arith)
same_positions_iff (x ∷ xs) [] l = absurd (omega arith)
same_positions_iff (x ∷ xs) (y ∷ ys) l =
    let tails : length xs ≡ length ys = omega arith in
    elim (Bool-cases (nat_beq (length x) (length y))) [
      | inl sized ↦
          let heads : length x ≡ length y = ground arith in
          ground (arith, same_coordinates_iff x y heads, same_positions_iff xs ys tails)
      | inr unequal ↦
          let differ : x ≡ y → ⊥ = differ_by_length x y unequal in ground (arith, differ)
    ]

-- `verify_positions` holds exactly for two equal sequences of positions.
pub verify_positions_iff : (xs ys : List Position) → (verify_positions xs ys ≡ true) ↔ (xs ≡ ys)
unfolding verify_positions
verify_positions_iff xs ys = elim (Bool-cases (nat_beq (length xs) (length ys))) [
  | inl sized ↦
      let sizes : length xs ≡ length ys = ground arith in rw sized (same_positions_iff xs ys sizes)
  | inr unequal ↦
      let differ : xs ≡ ys → ⊥ = differ_by_length xs ys unequal in ground (arith, differ)
]

module _ (blake3 : List ℕ → Hash) where
  walk-AllFit :
      (rounds dimensions max : ℕ) (current_hash : Hash)
      → 0 < max
      → max < 2 ^ 31
      → (length (walk blake3 rounds dimensions max current_hash) ≡ rounds)
        × AllFit dimensions max (walk blake3 rounds dimensions max current_hash)
  unfolding walk
  walk-AllFit zero dimensions max current_hash positive small = (refl, tt)
  walk-AllFit (suc rounds) dimensions max current_hash positive small =
      let (sized, fit) = walk-AllFit rounds dimensions max (blake3 current_hash) positive small in
      let (wide, ranged) = coordinates-fit dimensions 0 max current_hash positive small in
      (ap suc sized, (wide, ranged, fit))

  -- For a maximal coordinate above 0 and below 2 ^ 31: without dimensions or without steps
  -- `generate_positions` returns an error, and otherwise as many positions as there are steps, each
  -- with as many coordinates as there are dimensions, and each coordinate from minus the maximal
  -- one up to below it.
  pub generate_positions_lem :
      (seed : Hash) (config : Option RandomWalkConfig)
      → 0 < (or_default config).max_coordinate
      → (or_default config).max_coordinate < 2 ^ 31
      → ((((or_default config).dimensions ≡ 0) ⊎ ((or_default config).step_count ≡ 0))
          × (generate_positions blake3 seed config ≡ err invalid_parameter))
        ⊎ ((positions : List Position) × (generate_positions blake3 seed config ≡ ok positions)
            × (length positions ≡ (or_default config).step_count)
            × AllFit (or_default config).dimensions (or_default config).max_coordinate positions)
  unfolding generate_positions
  generate_positions_lem seed config positive small =
      let c = or_default config in
      elim (Bool-cases (nat_beq c.dimensions 0)) [
        | inl flat ↦ inl (inl (ground arith), rw flat refl)
        | inr wide ↦ elim (Bool-cases (nat_beq c.step_count 0)) [
          | inl idle ↦ inl (inr (ground arith), rw (wide, idle) refl)
          | inr moving ↦
              let ranged : nat_beq (2 * c.max_coordinate % 2 ^ 32) 0 ≡ false = ground arith in
              let (sized, fit) =
                walk-AllFit c.step_count c.dimensions c.max_coordinate seed positive small in
              inr (
                walk blake3 c.step_count c.dimensions c.max_coordinate seed,
                rw (wide, moving, ranged) refl,
                sized,
                fit,
              )
        ]
      ]

  compared_iff :
      (r : Result (List Position)) (positions : List Position)
      → ((r >>= λ expected. ok (verify_positions positions expected)) ≡ ok true)
        ↔ (r ≡ ok positions)
  compared_iff (err e) positions = ground arith
  compared_iff (ok expected) positions = ground (arith, verify_positions_iff positions expected)

  -- `verify_random_walk_coordinates` accepts exactly the positions that
  -- `generate_random_walk_coordinates` returns for the same hash, external data and configuration.
  pub verify_random_walk_coordinates_iff :
      (hash : Hash) (external_data : Bytes) (positions : List Position)
      (config : Option RandomWalkConfig)
      → (verify_random_walk_coordinates blake3 hash external_data positions config ≡ ok true)
        ↔ (generate_random_walk_coordinates blake3 hash external_data config ≡ ok positions)
  unfolding verify_random_walk_coordinates generate_random_walk_coordinates
  verify_random_walk_coordinates_iff hash external_data positions config =
      compared_iff (generate_positions blake3 (generate_seed blake3 hash external_data none) config)
        positions

-- Where the hash of the previous state has 32 bytes, `verify_state_transition` accepts exactly the
-- positions that are generated from the expected seed.
verify_state_transition_iff :
    (p : Primitives) (previous_state new_state : State) (positions : List Position)
    → length (state_hash p previous_state) ≡ 32
    → (verify_state_transition p previous_state new_state positions ≡ ok true)
      ↔ (generate_positions p.blake3 (expected_seed p previous_state new_state) none ≡ ok positions)
unfolding verify_state_transition
verify_state_transition_iff p previous_state new_state positions sized = rw sized (
    compared_iff p.blake3
      (generate_positions p.blake3 (expected_seed p previous_state new_state) none) positions)
