-- ===== src/State/Model/Text.antt =====
-- The texts of a state: `format!("state_{}", n)`, and the order of token ids in its hash.
use native.Mathlib.Nat.{pow-suc}
use dsm_decentralized_state.Base.{
  ℕ, zero, suc, ◌+◌, ◌-◌, ◌*◌, ◌/◌, ◌%◌, ◌^◌, ◌<◌, ◌≡◌, ◌≢◌, refl, sym, ap, ◌∙◌, Bool, true, false,
  [], ◌∷◌, ◌++◌, ltb, if◌then◌else◌, arith, Bool-cases, inl, inr,
}
use dsm_decentralized_state.Base.Map.{Map}
use dsm_decentralized_state.State.Operation.{Bytes}

-- The decimal digits of a number in front of `acc`; a `u64` has at most 20.
unfoldable pub digits : ℕ → ℕ → Bytes → Bytes
digits zero n acc = acc
digits (suc fuel) n acc =
    let more = digits fuel (n / 10) ((48 + n % 10) ∷ acc) in
    if ltb n 10 then (48 + n) ∷ acc else more

-- "state_"
abbrev prefix : Bytes
prefix = 115 ∷ 116 ∷ 97 ∷ 116 ∷ 101 ∷ 95 ∷ []

-- `format!("state_{}", n)`
unfoldable pub state_id : ℕ → Bytes
unfolding digits
state_id n = prefix ++ digits 20 n []

-- "genesis"
abbrev pub genesis_id : Bytes
genesis_id = 103 ∷ 101 ∷ 110 ∷ 101 ∷ 115 ∷ 105 ∷ 115 ∷ []

-- The bytewise order of strings.
before : Bytes → Bytes → Bool
before [] ys = true
before (x ∷ xs) [] = false
before (x ∷ xs) (y ∷ ys) = if ltb x y then true else if ltb y x then false else before xs ys

module _ {ℓ} {V : Type ℓ} where
  insert_entry : Bytes → V → Map Bytes V → Map Bytes V
  unfolding before
  insert_entry k v [] = (k, v) ∷ []
  insert_entry k v ((j, w) ∷ m) =
      if before k j then (k, v) ∷ (j, w) ∷ m else (j, w) ∷ insert_entry k v m

  -- `sort_by(|(k1, _), (k2, _)| k1.cmp(k2))`
  unfoldable pub sort_entries : Map Bytes V → Map Bytes V
  unfolding insert_entry
  sort_entries [] = []
  sort_entries ((k, v) ∷ m) = insert_entry k v (sort_entries m)

-- The number that decimal digits stand for, after those that stand for `value`.
read : ℕ → Bytes → ℕ
read value [] = value
read value (d ∷ ds) = read (10 * value + (d - 48)) ds

read-digits :
    (fuel n : ℕ) (acc : Bytes) → n < 10 ^ fuel → read 0 (digits (suc fuel) n acc) ≡ read n acc
unfolding read digits
read-digits zero n acc h = let none_left : n ≡ 0 = omega arith in rw none_left refl
read-digits (suc fuel) n acc h = elim (Bool-cases (ltb n 10)) [
  | inl small ↦ rw small (ap (λ (v : ℕ). read v acc) (omega arith))
  | inr large ↦
      let rest = read-digits fuel (n / 10) ((48 + n % 10) ∷ acc) (omega (arith, pow-suc 10 fuel)) in
      rw large (rest ∙ ap (λ (v : ℕ). read v acc) (omega arith))
]

first : Bytes → ℕ
first [] = 0
first (x ∷ xs) = x

strip : (xs ys : Bytes) → prefix ++ xs ≡ prefix ++ ys → xs ≡ ys
strip xs ys e = cc

-- Two numbers below 2 ^ 63 with one state id are equal.
pub state_id-injective : (m n : ℕ) → m < 2 ^ 63 → n < 2 ^ 63 → state_id m ≡ state_id n → m ≡ n
unfolding state_id read
state_id-injective m n hm hn e =
    sym (read-digits 19 m [] (omega arith))
    ∙ ap (read 0) (strip _ _ e)
    ∙ read-digits 19 n [] (omega arith)

pub state_id-genesis : (n : ℕ) → state_id n ≢ genesis_id
unfolding state_id first
state_id-genesis n e = absurd (omega (arith, ap first e))
