-- ===== src/Chain/Binding.antt =====
-- The head of a verified chain binds the whole chain.
use dsm_decentralized_state.Base.{
  ℕ, zero, suc, ◌+◌, ◌-◌, ◌≤◌, ◌<◌, ◌≡◌, ◌⊎◌, inl, inr, sym, ap, ◌∙◌, some, arith, length,
}
use dsm_decentralized_state.Merkle.Hash.{Collision, same_or_collision}
use dsm_decentralized_state.State.Model.{
  State, Primitives, Sized, state_hash, compute_hash, hash_input, hash_input-prev,
  verify_state_hash-computed,
}
use dsm_decentralized_state.Chain.{HashChain}
use dsm_decentralized_state.Chain.Verified.{state_at, Verified}

module _ (p : Primitives) where
  -- The chains have states at the position, and these were hashed from one input.
  pub record Agree (c d : HashChain) (vc : Verified p c) (vd : Verified p d) (i : ℕ) : Type 0 where
    pub left : State
    pub right : State
    pub at_left : state_at vc.genesis c.states i ≡ some left
    pub at_right : state_at vd.genesis d.states i ≡ some right
    pub same_input : hash_input p left ≡ hash_input p right

  hashed_at :
      (c : HashChain) (v : Verified p c) (i : ℕ) (s : State)
      → i ≤ v.current.state_number
      → state_at v.genesis c.states i ≡ some s
      → state_hash p s ≡ compute_hash p s
  hashed_at c v zero s le e =
      let same : v.genesis ≡ s = cc e in
      rw (← same) (verify_state_hash-computed p v.genesis v.genesis_hashed)
  hashed_at c v (suc i) s le e =
      let l = v.links i (omega arith) in
      let same : l.after ≡ s = cc (l.next, e) in
      rw (← same) (verify_state_hash-computed p l.after l.hashed)

  module _ (sized : Sized p) (c d : HashChain) (vc : Verified p c) (vd : Verified p d) where
    Agree-from_hash :
        (i : ℕ) (s t : State)
        → i ≤ vc.current.state_number
        → i ≤ vd.current.state_number
        → state_at vc.genesis c.states i ≡ some s
        → state_at vd.genesis d.states i ≡ some t
        → state_hash p s ≡ state_hash p t
        → Agree c d vc vd i ⊎ Collision p.blake3
    unfolding compute_hash
    Agree-from_hash i s t lc ld es et h =
        elim (same_or_collision p.blake3 (hash_input p s) (hash_input p t)
          (sym (hashed_at c vc i s lc es) ∙ h ∙ hashed_at d vd i t ld et)) [
            | inl same ↦
                inl (record { left = s; right = t; at_left = es; at_right = et; same_input = same })
            | inr found ↦ inr found
          ]

    before_sized :
        (e : HashChain) (v : Verified p e) (i : ℕ) (s : State)
        → i ≤ v.current.state_number
        → state_at v.genesis e.states i ≡ some s
        → length (state_hash p s) ≡ 32
    unfolding compute_hash
    before_sized e v i s le at = ap length (hashed_at e v i s le at) ∙ sized (hash_input p s)

    Agree-before :
        (i : ℕ)
        → i < vc.current.state_number
        → i < vd.current.state_number
        → Agree c d vc vd (suc i)
        → Agree c d vc vd i ⊎ Collision p.blake3
    Agree-before i lc ld a =
        let l = vc.links i lc in
        let r = vd.links i ld in
        let left : l.after ≡ a.left = cc (l.next, a.at_left) in
        let right : r.after ≡ a.right = cc (r.next, a.at_right) in
        let input : hash_input p l.after ≡ hash_input p r.after =
          ap (hash_input p) left ∙ a.same_input ∙ sym (ap (hash_input p) right) in
        let sized_left = before_sized c vc i l.before (omega arith) l.at in
        let sized_right = before_sized d vd i r.before (omega arith) r.at in
        let prev =
          hash_input-prev p l.after r.after
            (ap length l.linked ∙ sized_left ∙ sym sized_right ∙ sym (ap length r.linked)) input in
        Agree-from_hash i l.before r.before (omega arith) (omega arith) l.at r.at
          (sym l.linked ∙ prev ∙ r.linked)

    Agree-down :
        (k n i : ℕ)
        → i + k ≡ n
        → n ≤ vc.current.state_number
        → n ≤ vd.current.state_number
        → Agree c d vc vd n
        → Agree c d vc vd i ⊎ Collision p.blake3
    Agree-down zero n i e lc ld a = let same : n ≡ i = omega arith in inl (rw (← same) a)
    Agree-down (suc k) n i e lc ld a = elim (Agree-down k n (suc i) (omega arith) lc ld a) [
      | inr found ↦ inr found
      | inl above ↦ Agree-before i (omega arith) (omega arith) above
    ]

    -- Take two verified chains and a position that both have, where their states have one hash. At
    -- every position up to it both have a state, and the two states were hashed from one input; or
    -- two different inputs have one BLAKE3 hash. BLAKE3's hashes are taken to have 32 bytes.
    pub verify_chain-binding :
        (n i : ℕ) (s t : State)
        → n ≤ vc.current.state_number
        → n ≤ vd.current.state_number
        → state_at vc.genesis c.states n ≡ some s
        → state_at vd.genesis d.states n ≡ some t
        → state_hash p s ≡ state_hash p t
        → i ≤ n
        → Agree c d vc vd i ⊎ Collision p.blake3
    verify_chain-binding n i s t lc ld es et h le = elim (Agree-from_hash n s t lc ld es et h) [
      | inr found ↦ inr found
      | inl top ↦ Agree-down (n - i) n i (omega arith) lc ld top
    ]
