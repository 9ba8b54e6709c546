-- ===== src/Token/Balance/Locking.antt =====
-- Locking, unlocking and spending.
use native.Mathlib.Nat.{pow-suc}
use dsm_decentralized_state.Base.{
  ℕ, zero, suc, ◌+◌, ◌-◌, ◌/◌, ◌%◌, ◌^◌, ◌≤◌, ◌<◌, ◌≡◌, refl, false, List, ◌++◌, arith, ◌⊎◌, inl,
  inr, ltb, Bool-cases, nat_beq,
}
use dsm_decentralized_state.Base.Word.{u64_max, u64_mod}
use dsm_decentralized_state.Base.Result.{ok, err, validation}
use dsm_decentralized_state.Token.Balance.{
  Balance, available, lock, unlock, update_sub, update_with_amount, le_bytes, to_le_bytes,
}

-- The locked part is a part, and the value is a `u64`.
pub record IsValid (b : Balance) : Type 0 where
  pub part : b.locked ≤ b.value
  pub word : b.value ≤ u64_max

-- Locking an amount moves it from the available to the locked part of a valid balance, keeps the
-- value and validity, and unlocking it restores both parts. It is refused exactly for the amount 0
-- and for more than is available.
unlock-lock :
    (now later amount : ℕ) (b : Balance)
    → IsValid b
    → (((amount ≡ 0) ⊎ (available b < amount)) × (lock now amount b ≡ err validation))
      ⊎ ((c : Balance) × (lock now amount b ≡ ok c)
          × IsValid c
          × (c.value ≡ b.value)
          × (c.locked ≡ b.locked + amount)
          × (available c + amount ≡ available b)
          × (unlock later amount c ≡ ok (record b { last_updated = later })))
unfolding lock unlock
unlock-lock now later amount b v = elim (Bool-cases (nat_beq amount 0)) [
  | inl none_asked ↦ inl (inl (ground arith), rw none_asked)
  | inr asked ↦ elim (Bool-cases (ltb (available b) amount)) [
    | inl too_much ↦ inl (inr (ground arith), rw (asked, too_much))
    | inr enough ↦ inr (
      record b { locked = b.locked + amount; last_updated = now },
      ground arith,
      ground arith,
      refl,
      refl,
      ground arith,
      ground arith,
    )
  ]
]

-- Every amount that a balance holds can be taken from its value, the locked part included: where
-- the amount exceeds what is available, `update_sub` and `update_with_amount` succeed all the same,
-- and leave a balance whose locked part exceeds its value.
update_sub-spends_locked :
    (now amount : ℕ) (b : Balance)
    → IsValid b
    → available b < amount
    → amount ≤ b.value
    → (c : Balance) × (update_sub now amount b ≡ ok c)
      × (update_with_amount now (record { value = amount }) false b ≡ ok c)
      × (c.value < c.locked)
unfolding update_sub update_with_amount available
update_sub-spends_locked now amount b v over le = (
  record b { value = b.value - amount; last_updated = now },
  ground arith,
  ground arith,
  ground arith,
)

pub le_bytes_injective :
    (n x y : ℕ) (s t : List ℕ)
    → x < 256 ^ n
    → y < 256 ^ n
    → le_bytes n x ++ s ≡ le_bytes n y ++ t
    → (x ≡ y) × (s ≡ t)
unfolding le_bytes
le_bytes_injective zero x y s t hx hy e = (omega arith, e)
le_bytes_injective (suc n) x y s t hx hy e =
    let low : x % 256 ≡ y % 256 = cc in
    let rest : le_bytes n (x / 256) ++ s ≡ le_bytes n (y / 256) ++ t = cc in
    let (high, tails) =
      le_bytes_injective n (x / 256) (y / 256) s t (omega (arith, pow-suc 256 n))
        (omega (arith, pow-suc 256 n)) rest in
    (omega arith, tails)

-- The bytes of a balance, which go into a state's hash, determine its value, its locked part and
-- its time stamp, each a `u64`.
to_le_bytes-injective :
    (b c : Balance)
    → b.value < u64_mod
    → c.value < u64_mod
    → b.locked < u64_mod
    → c.locked < u64_mod
    → b.last_updated < u64_mod
    → c.last_updated < u64_mod
    → to_le_bytes b ≡ to_le_bytes c
    → (b.value ≡ c.value) × (b.locked ≡ c.locked) × (b.last_updated ≡ c.last_updated)
unfolding to_le_bytes
to_le_bytes-injective b c v v' l l' u u' e =
    let (values, e1) = le_bytes_injective 8 b.value c.value _ _ v v' e in
    let (locks, e2) = le_bytes_injective 8 b.locked c.locked _ _ l l' e1 in
    let (stamps, e3) = le_bytes_injective 8 b.last_updated c.last_updated _ _ u u' e2 in
    (values, locks, stamps)
