-- ===== src/Clock/Scan.antt =====
-- What the two loops of `compare` find out (dsm_storage_node/src/storage/vector_clock.rs).
use dsm_decentralized_state.Base.{
  ℕ, ◌≤◌, ◌<◌, String, string_eq, ◌≡◌, refl, Bool, true, false, ◌&&◌, ◌||◌, not, Option, none, some,
  [], ◌∷◌, arith, ltb, ◌⊎◌, inl, inr, Bool-cases, Option-cases,
}
use dsm_decentralized_state.Base.Map
use dsm_decentralized_state.Base.Map.{Map, UniqueKeys, contains_key-get}
use dsm_decentralized_state.Clock.{VectorClock, or_zero, get, scan_self, scan_other}
use dsm_decentralized_state.Clock.Merge.{IsClock}

-- Some node has counted further in `a` than in `b`.
abbrev pub Exceeds : VectorClock → VectorClock → Type 0
Exceeds a b = (n : String) × (get n b < get n a)

-- No node has counted further in `a` than in `b`.
abbrev pub Within : VectorClock → VectorClock → Type 0
Within a b = (n : String) → get n a ≤ get n b

-- A flag that is set has one reason, and one that is clear another.
abbrev pub Flag : Bool → Type 0 → Type 0 → Type 0
Flag true P Q = P
Flag false P Q = Q

-- The entries of `m` are counters of `c`.
abbrev pub Lists : VectorClock → Map String ℕ → Type 0
Lists c [] = Unit
Lists c ((k, v) ∷ m) = (get k c ≡ v) × Lists c m

abbrev pub AllBelow : Map String ℕ → VectorClock → Type 0
AllBelow [] b = Unit
AllBelow ((k, v) ∷ m) b = (v ≤ get k b) × AllBelow m b

abbrev pub AllAbove : Map String ℕ → VectorClock → Type 0
AllAbove [] b = Unit
AllAbove ((k, v) ∷ m) b = (get k b ≤ v) × AllAbove m b

-- What is known when the first loop has run over `m` from the flags `sg` and `og`.
abbrev pub SelfScanned :
    VectorClock → VectorClock → Map String ℕ → Bool → Bool → Option (Bool × Bool) → Type 0
SelfScanned a b m sg og none = Exceeds a b × Exceeds b a
SelfScanned a b m sg og (some (sg', og')) =
    Flag sg' (Exceeds a b) (AllBelow m b × (sg ≡ false))
    × Flag og' (Exceeds b a) (AllAbove m b × (og ≡ false))

module _ (a b : VectorClock) where
  raise_gt :
      (k : String) (c : ℕ) (sg : Bool)
      → get k a ≡ c
      → Flag sg (Exceeds a b) Unit
      → Flag (sg || ltb (get k b) c) (Exceeds a b) Unit
  raise_gt k c true e h = h
  raise_gt k c false e h = elim (Bool-cases (ltb (get k b) c)) [
    | inl p ↦ rw p (k, ground arith)
    | inr p ↦ rw p tt
  ]

  raise_lt :
      (k : String) (c : ℕ) (og : Bool)
      → get k a ≡ c
      → Flag og (Exceeds b a) Unit
      → Flag (og || ltb c (get k b)) (Exceeds b a) Unit
  raise_lt k c true e h = h
  raise_lt k c false e h = elim (Bool-cases (ltb c (get k b))) [
    | inl p ↦ rw p (k, ground arith)
    | inr p ↦ rw p tt
  ]

  self_step :
      (k : String) (c : ℕ) (m : Map String ℕ) (sg og : Bool) (r : Option (Bool × Bool))
      → SelfScanned a b m (sg || ltb (get k b) c) (og || ltb c (get k b)) r
      → SelfScanned a b ((k, c) ∷ m) sg og r
  self_step k c m sg og none h = h
  self_step k c m sg og (some (true, true)) h = h
  self_step k c m sg og (some (true, false)) h = ground arith
  self_step k c m sg og (some (false, true)) h = ground arith
  self_step k c m sg og (some (false, false)) h = ground arith

  flag_nil : (s : Bool) (P : Type 0) → Flag s P Unit → Flag s P (Unit × (s ≡ false))
  flag_nil true P h = h
  flag_nil false P h = (tt, refl)

  both_set : (s t : Bool) {P Q : Type 0} → (s && t) ≡ true → Flag s P Unit → Flag t Q Unit → P × Q
  both_set true true e p q = (p, q)
  both_set true false e p q = cc
  both_set false t e p q = cc

  pub scan_self_lem :
      (m : Map String ℕ) (sg og : Bool)
      → Lists a m
      → Flag sg (Exceeds a b) Unit
      → Flag og (Exceeds b a) Unit
      → SelfScanned a b m sg og (scan_self b m sg og)
  unfolding scan_self
  scan_self_lem [] sg og l hs ho = (flag_nil sg _ hs, flag_nil og _ ho)
  scan_self_lem ((k, c) ∷ m) sg og l hs ho =
      let sg' = sg || ltb (get k b) c in
      let og' = og || ltb c (get k b) in
      let gt = raise_gt k c sg l.0 hs in
      let lt = raise_lt k c og l.0 ho in
      elim (Bool-cases (sg' && og')) [
        | inl stop ↦ rw stop (both_set sg' og' stop gt lt)
        | inr go ↦ rw go (self_step k c m sg og _ (scan_self_lem m sg' og' l.1 gt lt))
      ]

  -- The entries that the second loop passes are zero, or their nodes are known to `a`.
  abbrev pub Known : Map String ℕ → Type 0
  Known [] = Unit
  Known ((k, v) ∷ m) = ((Map.contains_key k a.counters ≡ true) ⊎ (v ≡ 0)) × Known m

  abbrev pub OtherScanned : Map String ℕ → Bool → Bool → Option (Bool × Bool) → Type 0
  OtherScanned m sg og none = Exceeds a b × Exceeds b a
  OtherScanned m sg og (some (sg', og')) =
      (sg' ≡ sg) × Flag og' (Exceeds b a) (Known m × (og ≡ false))

  absent_zero : (k : String) → Map.contains_key k a.counters ≡ false → get k a ≡ 0
  unfolding get
  absent_zero k h = ground (arith, contains_key-get k a.counters)

  raise_other :
      (k : String) (v : ℕ) (og : Bool)
      → get k b ≡ v
      → Flag og (Exceeds b a) Unit
      → Flag (og || (not (Map.contains_key k a.counters) && ltb 0 v)) (Exceeds b a) Unit
  raise_other k v true e h = h
  raise_other k v false e h = elim (Bool-cases (not (Map.contains_key k a.counters) && ltb 0 v)) [
    | inl p ↦ rw p (k, ground (arith, absent_zero k))
    | inr p ↦ rw p tt
  ]

  other_step :
      (k : String) (v : ℕ) (m : Map String ℕ) (sg og : Bool) (r : Option (Bool × Bool))
      → OtherScanned m sg (og || (not (Map.contains_key k a.counters) && ltb 0 v)) r
      → OtherScanned ((k, v) ∷ m) sg og r
  other_step k v m sg og none h = h
  other_step k v m sg og (some (sg', true)) h = h
  other_step k v m sg og (some (sg', false)) h = ground arith

  pub scan_other_lem :
      (m : Map String ℕ) (sg og : Bool)
      → Lists b m
      → Flag sg (Exceeds a b) Unit
      → Flag og (Exceeds b a) Unit
      → OtherScanned m sg og (scan_other a m sg og)
  unfolding scan_other
  scan_other_lem [] sg og l hs ho = (refl, flag_nil og _ ho)
  scan_other_lem ((k, v) ∷ m) sg og l hs ho =
      let og' = og || (not (Map.contains_key k a.counters) && ltb 0 v) in
      let lt = raise_other k v og l.0 ho in
      elim (Bool-cases (sg && og')) [
        | inl stop ↦ rw stop (both_set sg og' stop hs lt)
        | inr go ↦ rw go (other_step k v m sg og _ (scan_other_lem m sg og' l.1 hs lt))
      ]

  AllBelow-get : (m : Map String ℕ) → AllBelow m b → (n : String) → or_zero (Map.get n m) ≤ get n b
  unfolding Map.get
  AllBelow-get [] h n = omega arith
  AllBelow-get ((k, v) ∷ m) h n = ground (arith, string_eq.beq_iff k n, AllBelow-get m h.1 n)

  AllAbove-get :
      (m : Map String ℕ) → AllAbove m b → (n : String) (v : ℕ) → Map.get n m ≡ some v → get n b ≤ v
  unfolding Map.get
  AllAbove-get [] h n v e = cc
  AllAbove-get ((k, c) ∷ m) h n v e = ground (arith, string_eq.beq_iff k n, AllAbove-get m h.1 n v)

  Known-get :
      (m : Map String ℕ)
      → Known m
      → (n : String) → Map.contains_key n a.counters ≡ false
      → or_zero (Map.get n m) ≡ 0
  unfolding Map.get
  Known-get [] h n e = refl
  Known-get ((k, c) ∷ m) h n e = ground (arith, string_eq.beq_iff k n, Known-get m h.1 n e)

  pub Within-of_self : AllBelow a.counters b → Within a b
  unfolding get
  Within-of_self h n = AllBelow-get a.counters h n

  pub Within-of_scans : AllAbove a.counters b → Known b.counters → Within b a
  unfolding get
  Within-of_scans h k n = elim (Option-cases (Map.get n a.counters)) [
    | inl e ↦ ground (arith, contains_key-get n a.counters, Known-get b.counters k n)
    | inr (v, e) ↦ ground (arith, AllAbove-get a.counters h n v e)
  ]

Lists-tail :
    (c : VectorClock) (m : Map String ℕ)
    → UniqueKeys m
    → ((n : String) (v : ℕ) → Map.get n m ≡ some v → get n c ≡ v)
    → Lists c m
unfolding Map.get
Lists-tail c [] u h = tt
Lists-tail c ((k, v) ∷ m) u h = (
  h k v (ground (arith, string_eq.beq_iff k k)),
  Lists-tail c m u.1 (λ n w e. h n w (ground (arith, string_eq.beq_iff k n))),
)

pub IsClock-Lists : (c : VectorClock) → IsClock c → Lists c c.counters
unfolding get
IsClock-Lists c u = Lists-tail c c.counters u (λ n v e. rw e)
