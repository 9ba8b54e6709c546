-- ===== src/Index/Serves.antt =====
-- What a lookup by number answers (`SparseIndexManager::get_state_by_number` in
-- dsm/src/core/index/mod.rs), with any callback, and with one that serves the chain.
use dsm_decentralized_state.Base.{
  ℕ, zero, suc, ◌+◌, ◌-◌, ◌≤◌, ◌≡◌, refl, ap, ◌∙◌, true, false, Option, none, some, List, [], ◌∷◌,
  arith, ltb, leb, nat_beq, nat_eq, list_eq, list_beq, list_beq→eq, list_beq_refl, Bool-cases,
  Option-cases, true-false, inl, inr,
}
use mathlib.Core.Path.{subst}
use dsm_decentralized_state.Base.Map
use dsm_decentralized_state.Base.Map.{Map, keys, contains_key-get}
use dsm_decentralized_state.Base.Result.{Result, ok, Result-cases}
use dsm_decentralized_state.State.Model.{State, Primitives, state_hash}
use dsm_decentralized_state.Index.{
  SparseIndexManager, traverse, nearest, get_nearest_checkpoint_before, from_nearest,
  get_state_by_number,
}

-- What holds of each number of a list, and of the number that may have been found.
abbrev All : (ℕ → Type 0) → List ℕ → Type 0
All holds [] = Unit
All holds (k ∷ ks) = holds k × All holds ks

abbrev OfSome : (ℕ → Type 0) → Option ℕ → Type 0
OfSome holds none = Unit
OfSome holds (some k) = holds k

All-weaken : (P Q : ℕ → Type 0) (ks : List ℕ) → ((k : ℕ) → P k → Q k) → All P ks → All Q ks
All-weaken P Q [] f h = tt
All-weaken P Q (k ∷ ks) f h = (f k h.0, All-weaken P Q ks f h.1)

keys-contained : (m : Map ℕ State) → All (λ (k : ℕ). Map.contains_key k m ≡ true) (keys m)
unfolding Map.contains_key
keys-contained [] = tt
keys-contained ((k, s) ∷ m) = (
  ground arith,
  All-weaken (λ (j : ℕ). Map.contains_key j m ≡ true)
      (λ (j : ℕ). Map.contains_key j ((k, s) ∷ m) ≡ true) (keys m) (λ j h. ground arith)
      (keys-contained m),
)

-- What is found is one of the numbers, and within the bound.
nearest-OfSome :
    (holds : ℕ → Type 0) (n : ℕ) (ks : List ℕ) (best : Option ℕ)
    → All holds ks
    → OfSome (λ (k : ℕ). (k ≤ n) × holds k) best
    → OfSome (λ (k : ℕ). (k ≤ n) × holds k) (nearest n ks best)
unfolding nearest
nearest-OfSome holds n [] best a h = h
nearest-OfSome holds n (k ∷ ks) none a h = elim (Bool-cases (leb k n)) [
  | inl fits ↦ rw fits (nearest-OfSome holds n ks (some k) a.1 (ground arith, a.0))
  | inr other ↦ rw other (nearest-OfSome holds n ks none a.1 tt)
]
nearest-OfSome holds n (k ∷ ks) (some b) a h = elim (Bool-cases (leb k n)) [
  | inr other ↦ rw other (nearest-OfSome holds n ks (some b) a.1 h)
  | inl fits ↦ elim (Bool-cases (ltb b k)) [
    | inl above ↦ rw (fits, above) (nearest-OfSome holds n ks (some k) a.1 (ground arith, a.0))
    | inr below ↦ rw (fits, below) (nearest-OfSome holds n ks (some b) a.1 h)
  ]
]

-- A number that the map has, at most the bound.
abbrev HeldWithin : ℕ → Map ℕ State → ℕ → Type 0
HeldWithin n m k = (k ≤ n) × (Map.contains_key k m ≡ true)

nearest-HeldWithin : (n : ℕ) (m : Map ℕ State) → OfSome (HeldWithin n m) (nearest n (keys m) none)
nearest-HeldWithin n m =
    nearest-OfSome (λ (k : ℕ). Map.contains_key k m ≡ true) n (keys m) none (keys-contained m) tt

contains_key-some :
    (k : ℕ) (m : Map ℕ State) → Map.contains_key k m ≡ true → (c : State) × (Map.get k m ≡ some c)
contains_key-some k m h = elim (Option-cases (Map.get k m)) [
  | inr found ↦ found
  | inl missing ↦ absurd (true-false h (rw (contains_key-get k m, missing) refl))
]

nearest-some : (n : ℕ) (ks : List ℕ) (b : ℕ) → (k : ℕ) × (nearest n ks (some b) ≡ some k)
unfolding nearest
nearest-some n [] b = (b, refl)
nearest-some n (k ∷ ks) b = elim (Bool-cases (leb k n)) [
  | inr other ↦ rw other (nearest-some n ks b)
  | inl fits ↦ elim (Bool-cases (ltb b k)) [
    | inl above ↦ rw (fits, above) (nearest-some n ks k)
    | inr below ↦ rw (fits, below) (nearest-some n ks b)
  ]
]

-- With genesis among the keys, there is a nearest one.
nearest-zero :
    (n : ℕ) (m : Map ℕ State) (g : State)
    → Map.get 0 m ≡ some g
    → (k : ℕ) × (nearest n (keys m) none ≡ some k)
unfolding nearest Map.get
nearest-zero n [] g h = cc
nearest-zero n ((k, s) ∷ m) g h = elim (Bool-cases (leb k n)) [
  | inl fits ↦ rw (nearest, fits) (nearest-some n (keys m) k)
  | inr other ↦
      let later : Map.get 0 m ≡ some g = ground arith in
      rw (nearest, other) (nearest-zero n m g later)
]

module _ (p : Primitives) (fetch : ℕ → Result (Option State)) where
  -- From the state `c` at number `i`, the callback's states lead to `s` at number `n`, each of them
  -- with the hash of the one before.
  pub data Hops (n : ℕ) (s : State) : ℕ → State → Type 0 where
    arrived : Hops n s n s
    hop :
        {i : ℕ} {c t : State}
        → fetch (i + 1) ≡ ok (some t)
        → t.prev_state_hash ≡ state_hash p c
        → Hops n s (i + 1) t
        → Hops n s i c

  -- The last round of the loop returns the state that is fetched.
  last_Hops : (i n : ℕ) (s t : State) → i + 1 ≡ n → t ≡ s → Hops n s (i + 1) t
  last_Hops i n s t e same = rw (e, same) arrived

  traverse-Hops :
      (rounds i n : ℕ) (c s : State)
      → i + rounds ≡ n
      → traverse p fetch rounds (i + 1) c ≡ ok (some s)
      → Hops n s i c
  unfolding traverse
  traverse-Hops zero i n c s e run = cc
  traverse-Hops (suc r) i n c s e run = elim (Result-cases (fetch (i + 1))) [
    | inr (x, failed) ↦ cc (run, failed)
    | inl (none, missing) ↦ cc (run, missing)
    | inl (some t, found) ↦ elim (Bool-cases (list_beq t.prev_state_hash (state_hash p c))) [
      | inr broken ↦ cc (run, found, broken)
      | inl linked ↦ elim (Bool-cases (nat_beq r 0)) [
        | inl last ↦
            let same : t ≡ s = cc (run, found, linked, last) in
            hop found (list_beq→eq t.prev_state_hash (state_hash p c) linked)
              (last_Hops i n s t (ground arith) same)
        | inr more ↦
            let rest : traverse p fetch r (i + 1 + 1) t ≡ ok (some s) =
              cc (run, found, linked, more) in
            hop found (list_beq→eq t.prev_state_hash (state_hash p c) linked)
              (traverse-Hops r (i + 1) n t s (omega arith) rest)
      ]
    ]
  ]

  -- What the manager holds for `k`, when the nearest number is found.
  abbrev Found : ℕ → State → SparseIndexManager → Type 0
  Found n s m = (k : ℕ) × (c : State) × (k ≤ n) × (Map.get k m.checkpoints ≡ some c) × Hops n s k c

  from_nearest-Found :
      (n : ℕ) (s : State) (m : SparseIndexManager) (best : Option ℕ)
      → OfSome (HeldWithin n m.checkpoints) best
      → from_nearest p fetch n m best ≡ ok (some s)
      → Found n s m
  unfolding from_nearest
  from_nearest-Found n s m none h run = cc
  from_nearest-Found n s m (some k) h run = elim (Option-cases (Map.get k m.checkpoints)) [
    | inl missing ↦ cc (run, missing)
    | inr (c, held) ↦ elim (Bool-cases (nat_beq k n)) [
      | inl here ↦
          let same : c ≡ s = cc (run, held, here) in
          let at : k ≡ n = ground arith in (k, c, h.0, held, rw (at, same) arrived)
      | inr below ↦
          let walk : traverse p fetch (n - k) (k + 1) c ≡ ok (some s) = cc (run, held, below) in
          (k, c, h.0, held, traverse-Hops (n - k) k n c s (omega (arith, h.0)) walk)
    ]
  ]

  -- Whatever the callback returns, a state that `get_state_by_number` answers with is reached from
  -- a checkpoint that the manager holds, numbered at most the number asked for: the callback's
  -- states for the numbers from there on lead to it, each with the hash of the one before as its
  -- previous hash.
  pub get_state_by_number-Hops :
      (n : ℕ) (s : State) (m : SparseIndexManager)
      → get_state_by_number p fetch n m ≡ ok (some s)
      → (k : ℕ) × (c : State) × (k ≤ n) × (Map.get k m.checkpoints ≡ some c) × Hops n s k c
  unfolding get_state_by_number get_nearest_checkpoint_before
  get_state_by_number-Hops n s m run = elim (Option-cases (Map.get n m.checkpoints)) [
    | inr (c, held) ↦
        let same : c ≡ s = cc (run, held) in (n, c, omega arith, held, rw same arrived)
    | inl missing ↦
        from_nearest-Found n s m (nearest n (keys m.checkpoints) none)
          (nearest-HeldWithin n m.checkpoints) (cc (run, missing))
  ]

-- A chain of states, each with the hash of the one before.
abbrev pub IsChain : Primitives → (ℕ → State) → Type 0
IsChain p chain = (n : ℕ) → (chain (n + 1)).prev_state_hash ≡ state_hash p (chain n)

-- The checkpoints are states of the chain, under their numbers.
abbrev pub Agrees : (ℕ → State) → SparseIndexManager → Type 0
Agrees chain m = (k : ℕ) (c : State) → Map.get k m.checkpoints ≡ some c → c ≡ chain k

module _ (p : Primitives) (fetch : ℕ → Result (Option State)) (chain : ℕ → State)
    (linked : IsChain p chain) (served : (k : ℕ) → fetch k ≡ ok (some (chain k))) where
  link_holds : (i : ℕ) → list_beq (chain (i + 1)).prev_state_hash (state_hash p (chain i)) ≡ true
  link_holds i = rw (linked i) (list_beq_refl (state_hash p (chain i)))

  traverse-chain :
      (rounds i : ℕ)
      → traverse p fetch (suc rounds) (i + 1) (chain i) ≡ ok (some (chain (i + suc rounds)))
  unfolding traverse
  traverse-chain zero i = rw (served (i + 1), link_holds i) refl
  traverse-chain (suc r) i =
      let shift : i + 1 + suc r ≡ i + suc (suc r) = omega arith in
      let later : traverse p fetch (suc r) (i + 1 + 1) (chain (i + 1))
          ≡ ok (some (chain (i + suc (suc r)))) =
        traverse-chain r (i + 1) ∙ ap (λ (k : ℕ). ok (some (chain k))) shift in
      let more : nat_beq (suc r) 0 ≡ false = ground arith in
      rw (served (i + 1), link_holds i, more) later

  from_nearest-chain :
      (n k : ℕ) (c : State) (m : SparseIndexManager)
      → k ≤ n
      → c ≡ chain k
      → Map.get k m.checkpoints ≡ some c
      → from_nearest p fetch n m (some k) ≡ ok (some (chain n))
  unfolding from_nearest
  from_nearest-chain n k c m le agrees held = elim (Bool-cases (nat_beq k n)) [
    | inl here ↦
        let at : k ≡ n = ground arith in
        let same : ok (some c) ≡ ok (some (chain n)) =
          ap (λ (s : State). ok (some s)) agrees ∙ ap (λ (i : ℕ). ok (some (chain i))) at in
        rw (held, here) same
    | inr below ↦
        let rounds : n - k ≡ suc (n - k - 1) = ground arith in
        let end : k + suc (n - k - 1) ≡ n = ground arith in
        let walk : traverse p fetch (n - k) (k + 1) c ≡ ok (some (chain n)) =
          ap (λ (r : ℕ). traverse p fetch r (k + 1) c) rounds
          ∙ ap (λ (s : State). traverse p fetch (suc (n - k - 1)) (k + 1) s) agrees
          ∙ traverse-chain (n - k - 1) k
          ∙ ap (λ (i : ℕ). ok (some (chain i))) end in
        rw (held, below) walk
  ]

  -- Take a chain of states, each with the hash of the one before as its previous hash, a manager
  -- whose checkpoints are states of the chain under their numbers, genesis among them, and a
  -- callback that serves every state of the chain. `get_state_by_number` answers each number with
  -- the state of the chain: never with an error, and never with nothing.
  pub get_state_by_number-chain :
      (n : ℕ) (g : State) (m : SparseIndexManager)
      → Agrees chain m
      → Map.get 0 m.checkpoints ≡ some g
      → get_state_by_number p fetch n m ≡ ok (some (chain n))
  unfolding get_state_by_number get_nearest_checkpoint_before
  get_state_by_number-chain n g m agrees genesis = elim (Option-cases (Map.get n m.checkpoints)) [
    | inr (c, held) ↦
        rw (get_state_by_number, held) (ap (λ (s : State). ok (some s)) (agrees n c held))
    | inl missing ↦
        let (k, found) = nearest-zero n m.checkpoints g genesis in
        let within : HeldWithin n m.checkpoints k =
          subst (OfSome (HeldWithin n m.checkpoints)) found (nearest-HeldWithin n m.checkpoints) in
        let (c, held) = contains_key-some k m.checkpoints within.1 in
        rw (get_state_by_number, missing, found)
          (from_nearest-chain n k c m within.0 (agrees k c held) held)
  ]
