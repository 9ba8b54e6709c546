-- ===== src/State/Sparse.antt =====
-- The sparse index of a state: `calculate_sparse_indices` of `State` and of `SparseIndex`, which
-- have one text (dsm/src/types/state_types.rs). The loop over the powers of two has 64 rounds, as
-- many as a `u64` has bits. For state numbers below 2 ^ 63 it ends within them; from 2 ^ 63 on the
-- loop of the source has no end, since its shift overflows, and the value here is not one of its.
pub mod Laws
use dsm_decentralized_state.Base.{
  ℕ, zero, suc, ◌+◌, ◌-◌, ◌^◌, Bool, true, false, not, ◌&&◌, ◌||◌, List, [], ◌∷◌, ◌++◌, ltb, leb,
  nat_beq, if◌then◌else◌,
}

-- `indices.contains(&x)`
pub contains : ℕ → List ℕ → Bool
contains x [] = false
contains x (y ∷ ys) = nat_beq y x || contains x ys

-- `while (1 << power) <= state_number`
pub basic_indices : ℕ → ℕ → ℕ → List ℕ
basic_indices zero power state_number = []
basic_indices (suc fuel) power state_number =
    let more = (state_number - 2 ^ power) ∷ basic_indices fuel (power + 1) state_number in
    if leb (2 ^ power) state_number then more else []

pub calculate_basic_sparse_indices : ℕ → List ℕ
unfolding basic_indices
calculate_basic_sparse_indices state_number =
    if nat_beq state_number 0 then [] else basic_indices 64 0 state_number

insert_sorted : ℕ → List ℕ → List ℕ
insert_sorted x [] = x ∷ []
insert_sorted x (y ∷ ys) = if leb x y then x ∷ y ∷ ys else y ∷ insert_sorted x ys

-- `indices.sort_unstable()`
pub sort : List ℕ → List ℕ
unfolding insert_sorted
sort [] = []
sort (x ∷ xs) = insert_sorted x (sort xs)

-- `indices.dedup()`, from the element that was kept last
dedup_from : ℕ → List ℕ → List ℕ
dedup_from x [] = x ∷ []
dedup_from x (y ∷ ys) = let kept = dedup_from y ys in if nat_beq x y then kept else x ∷ kept

pub dedup : List ℕ → List ℕ
unfolding dedup_from
dedup [] = []
dedup (x ∷ xs) = dedup_from x xs

-- The two guarantees: genesis, then the direct predecessor.
pub with_genesis : ℕ → List ℕ → List ℕ
unfolding contains
with_genesis state_number indices =
    if ltb 0 state_number && not (contains 0 indices) then indices ++ 0 ∷ [] else indices

pub with_predecessor : ℕ → List ℕ → List ℕ
unfolding contains
with_predecessor state_number indices =
    if ltb 0 state_number && not (contains (state_number - 1) indices)
    then indices ++ (state_number - 1) ∷ []
    else indices

unfoldable pub calculate_sparse_indices : ℕ → List ℕ
unfolding calculate_basic_sparse_indices with_genesis with_predecessor sort dedup
calculate_sparse_indices state_number = dedup (
    sort (
      with_predecessor state_number
        (with_genesis state_number (calculate_basic_sparse_indices state_number))))
