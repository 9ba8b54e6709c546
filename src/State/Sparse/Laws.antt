-- ===== src/State/Sparse/Laws.antt =====
-- What the sparse index of a state holds.
use native.Mathlib.Nat.{pow-le-pow_right}
use dsm_decentralized_state.Base.{
  ℕ, zero, suc, ◌+◌, ◌-◌, ◌^◌, ◌≤◌, ◌<◌, ◌≡◌, refl, ◌∙◌, ap, Bool, true, ◌||◌, List, [], ◌∷◌, ◌++◌,
  leb, leb→le, nat_beq, arith, Bool-cases, inl, inr, ◌⊎◌, ◌↔◌,
}
use dsm_decentralized_state.State.Sparse.{
  contains, basic_indices, calculate_basic_sparse_indices, insert_sorted, sort, dedup_from, dedup,
  with_genesis, with_predecessor, calculate_sparse_indices,
}

contains-append :
    (a : ℕ) (xs ys : List ℕ) → contains a (xs ++ ys) ≡ (contains a xs || contains a ys)
unfolding contains
contains-append a [] ys = refl
contains-append a (x ∷ xs) ys = ground (arith, contains-append a xs ys)

contains-insert_sorted :
    (a x : ℕ) (xs : List ℕ) → contains a (insert_sorted x xs) ≡ (nat_beq x a || contains a xs)
unfolding contains insert_sorted
contains-insert_sorted a x [] = refl
contains-insert_sorted a x (y ∷ ys) = ground (arith, contains-insert_sorted a x ys)

contains-sort : (a : ℕ) (xs : List ℕ) → contains a (sort xs) ≡ contains a xs
unfolding sort contains
contains-sort a [] = refl
contains-sort a (x ∷ xs) =
    contains-insert_sorted a x (sort xs) ∙ ap (λ (b : Bool). nat_beq x a || b) (contains-sort a xs)

contains-dedup_from :
    (a x : ℕ) (xs : List ℕ) → contains a (dedup_from x xs) ≡ (nat_beq x a || contains a xs)
unfolding contains dedup_from
contains-dedup_from a x [] = refl
contains-dedup_from a x (y ∷ ys) = ground (arith, contains-dedup_from a y ys)

contains-dedup : (a : ℕ) (xs : List ℕ) → contains a (dedup xs) ≡ contains a xs
unfolding dedup contains
contains-dedup a [] = refl
contains-dedup a (x ∷ xs) = contains-dedup_from a x xs

-- Each element is below the next.
abbrev pub IsIncreasing : List ℕ → Type 0
IsIncreasing [] = Unit
IsIncreasing (x ∷ []) = Unit
IsIncreasing (x ∷ y ∷ ys) = (x < y) × IsIncreasing (y ∷ ys)

abbrev IsSorted : List ℕ → Type 0
IsSorted [] = Unit
IsSorted (x ∷ []) = Unit
IsSorted (x ∷ y ∷ ys) = (x ≤ y) × IsSorted (y ∷ ys)

insert_sorted-IsSorted : (x : ℕ) (xs : List ℕ) → IsSorted xs → IsSorted (insert_sorted x xs)
unfolding insert_sorted
insert_sorted-IsSorted x [] h = tt
insert_sorted-IsSorted x (y ∷ []) h = ground arith
insert_sorted-IsSorted x (y ∷ z ∷ zs) h = ground (arith, insert_sorted-IsSorted x (z ∷ zs) h.1)

sort-IsSorted : (xs : List ℕ) → IsSorted (sort xs)
unfolding sort
sort-IsSorted [] = tt
sort-IsSorted (x ∷ xs) = insert_sorted-IsSorted x (sort xs) (sort-IsSorted xs)

-- `x` comes before all of the list.
abbrev Above : ℕ → List ℕ → Type 0
Above x [] = Unit
Above x (y ∷ ys) = x < y

cons-IsIncreasing : (x : ℕ) (ys : List ℕ) → Above x ys → IsIncreasing ys → IsIncreasing (x ∷ ys)
cons-IsIncreasing x [] a h = tt
cons-IsIncreasing x (y ∷ ys) a h = (a, h)

dedup_from_head : (w x : ℕ) (xs : List ℕ) → w < x → IsSorted (x ∷ xs) → Above w (dedup_from x xs)
unfolding dedup_from
dedup_from_head w x [] lt h = lt
dedup_from_head w x (y ∷ ys) lt h = ground (arith, dedup_from_head w y ys)

dedup_from-IsIncreasing : (x : ℕ) (xs : List ℕ) → IsSorted (x ∷ xs) → IsIncreasing (dedup_from x xs)
unfolding dedup_from
dedup_from-IsIncreasing x [] h = tt
dedup_from-IsIncreasing x (y ∷ ys) h = elim (Bool-cases (nat_beq x y)) [
  | inl same ↦ rw same (dedup_from-IsIncreasing y ys h.1)
  | inr differ ↦ rw differ (
      cons-IsIncreasing x (dedup_from y ys) (dedup_from_head x y ys (ground arith) h.1)
        (dedup_from-IsIncreasing y ys h.1))
]

dedup-IsIncreasing : (xs : List ℕ) → IsSorted xs → IsIncreasing (dedup xs)
unfolding dedup
dedup-IsIncreasing [] h = tt
dedup-IsIncreasing (x ∷ xs) h = dedup_from-IsIncreasing x xs h

-- The distance back to the state `a` is a power of two from `2 ^ power` on.
abbrev Back : ℕ → ℕ → ℕ → Type 0
Back power n a = (p : ℕ) × (power ≤ p) × (2 ^ p ≤ n) × (a ≡ n - 2 ^ p)

basic_indices-only :
    (fuel power n a : ℕ) → contains a (basic_indices fuel power n) ≡ true → Back power n a
unfolding basic_indices contains
basic_indices-only zero power n a h = cc
basic_indices-only (suc fuel) power n a h = elim (Bool-cases (leb (2 ^ power) n)) [
  | inl more ↦ elim (Bool-cases (nat_beq (n - 2 ^ power) a)) [
    | inl here ↦ (power, omega arith, leb→le _ _ more, ground arith)
    | inr differ ↦
        let later = basic_indices-only fuel (power + 1) n a (ground arith) in
        (later.0, omega arith, later.2, later.3)
  ]
  | inr done ↦ cc
]

basic_indices-all :
    (fuel power n p : ℕ)
    → power ≤ p
    → p < power + fuel
    → 2 ^ p ≤ n
    → contains (n - 2 ^ p) (basic_indices fuel power n) ≡ true
unfolding basic_indices contains
basic_indices-all zero power n p above below fits = absurd (omega arith)
basic_indices-all (suc fuel) power n p above below fits =
    let reached : 2 ^ power ≤ 2 ^ p = pow-le-pow_right (omega arith) above in
    let more : leb (2 ^ power) n ≡ true = ground arith in
    elim (Bool-cases (nat_beq power p)) [
      | inl same ↦ let at : power ≡ p = ground arith in rw (more, at) (ground arith)
      | inr differ ↦
          let later = basic_indices-all fuel (power + 1) n p (ground arith) (omega arith) fits in
          rw (more, later) (ground arith)
    ]

member-beq :
    (x a : ℕ) (xs : List ℕ) → contains x xs ≡ true → nat_beq x a ≡ true → contains a xs ≡ true
member-beq x a xs h e = let same : x ≡ a = ground arith in rw (← same) h

contains-with_genesis :
    (a n : ℕ) (xs : List ℕ)
    → 0 < n
    → contains a (with_genesis n xs) ≡ (contains a xs || nat_beq 0 a)
unfolding with_genesis contains
contains-with_genesis a n xs pos = ground (arith, contains-append a xs (0 ∷ []), member-beq 0 a xs)

contains-with_predecessor :
    (a n : ℕ) (xs : List ℕ)
    → 0 < n
    → contains a (with_predecessor n xs) ≡ (contains a xs || nat_beq (n - 1) a)
unfolding with_predecessor contains
contains-with_predecessor a n xs pos =
    ground (arith, contains-append a xs ((n - 1) ∷ []), member-beq (n - 1) a xs)

basic-contains : (a n : ℕ) → 0 < n → calculate_basic_sparse_indices n ≡ basic_indices 64 0 n
unfolding calculate_basic_sparse_indices
basic-contains a n pos = ground arith

contains-calculate :
    (a n : ℕ)
    → 0 < n
    → contains a (calculate_sparse_indices n)
      ≡ (contains a (basic_indices 64 0 n) || nat_beq 0 a || nat_beq (n - 1) a)
unfolding calculate_sparse_indices
contains-calculate a n pos =
    contains-dedup a _
    ∙ contains-sort a _
    ∙ contains-with_predecessor a n _ pos
    ∙ ap (λ (b : Bool). b || nat_beq (n - 1) a)
        (contains-with_genesis a n _ pos
          ∙ ap (λ (l : List ℕ). contains a l || nat_beq 0 a) (basic-contains a n pos))
    ∙ or_assoc (contains a (basic_indices 64 0 n)) (nat_beq 0 a) (nat_beq (n - 1) a)
  where
    or_assoc : (b c d : Bool) → ((b || c) || d) ≡ (b || c || d)
    or_assoc b c d = ground arith

below_64 : (n p : ℕ) → n < 2 ^ 63 → 2 ^ p ≤ n → p < 0 + 64
below_64 n p small fits = elim (Bool-cases (leb 64 p)) [
  | inl large ↦
      let reached : 2 ^ 64 ≤ 2 ^ p = pow-le-pow_right (omega arith) (leb→le 64 p large) in
      absurd (omega arith)
  | inr less ↦ ground arith
]

increasing : (n : ℕ) → IsIncreasing (calculate_sparse_indices n)
unfolding calculate_sparse_indices
increasing n = dedup-IsIncreasing (sort raw) (sort-IsSorted raw)
  where
    raw : List ℕ
    raw = with_predecessor n (with_genesis n (calculate_basic_sparse_indices n))

-- The sparse index of a state numbered from 1 to below 2 ^ 63 holds exactly the genesis state, the
-- direct predecessor, and the states a power of two back; its elements increase.
pub calculate_sparse_indices_lem :
    (n : ℕ)
    → 0 < n
    → n < 2 ^ 63
    → IsIncreasing (calculate_sparse_indices n)
      × ((a : ℕ)
          → (contains a (calculate_sparse_indices n) ≡ true)
            ↔ ((a ≡ 0) ⊎ (a ≡ n - 1) ⊎ ((p : ℕ) × (2 ^ p ≤ n) × (a ≡ n - 2 ^ p))))
calculate_sparse_indices_lem n pos small = (increasing n, λ a. (only a, all a))
  where
    Listed : ℕ → Type 0
    Listed a = (a ≡ 0) ⊎ (a ≡ n - 1) ⊎ ((p : ℕ) × (2 ^ p ≤ n) × (a ≡ n - 2 ^ p))

    only : (a : ℕ) → contains a (calculate_sparse_indices n) ≡ true → Listed a
    only a h = elim (Bool-cases (contains a (basic_indices 64 0 n))) [
      | inl basic ↦
          let back = basic_indices-only 64 0 n a basic in inr (inr (back.0, back.2, back.3))
      | inr other ↦ elim (Bool-cases (nat_beq 0 a)) [
        | inl genesis ↦ inl (ground arith)
        | inr later ↦ inr (inl (ground (arith, contains-calculate a n pos)))
      ]
    ]

    all : (a : ℕ) → Listed a → contains a (calculate_sparse_indices n) ≡ true
    all a (inl zeroth) = contains-calculate a n pos ∙ ground arith
    all a (inr (inl before)) = contains-calculate a n pos ∙ ground arith
    all a (inr (inr (p, fits, at))) =
        let basic = basic_indices-all 64 0 n p (omega arith) (below_64 n p small fits) fits in
        contains-calculate a n pos ∙ rw (at, basic) refl
