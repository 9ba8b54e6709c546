-- ===== src/Chain/Lookup.antt =====
-- `find` and `any` over the states of the chain, under insertion.
use dsm_decentralized_state.Base.{
  Eq, ◌≡◌, refl, sym, ap, ◌∙◌, beq_refl, Bool, true, false, none, some, [], ◌∷◌, any, find, arith,
  Bool-cases, inl, inr,
}
use dsm_decentralized_state.Base.Map
use dsm_decentralized_state.Base.Map.{Map, values, UniqueKeys}

module _ {ℓ κ} {K : Type ℓ} {V : Type κ} ⦃e : Eq K⦄ where
  -- What no value of the map satisfies, no value that is found by its key does.
  pub any-get :
      (q : V → Bool) (k : K) (v : V) (m : Map K V)
      → any q (values m) ≡ false
      → Map.get k m ≡ some v
      → q v ≡ false
  unfolding Map.get
  any-get q k v [] none_left h = cc
  any-get q k v ((j, w) ∷ m) none_left h = ground (arith, any-get q k v m)

  pub find-none :
      (q : V → Bool) (k : K) (v : V) (m : Map K V)
      → find q (values m) ≡ none
      → Map.get k m ≡ some v
      → q v ≡ false
  unfolding Map.get
  find-none q k v [] none_left h = cc
  find-none q k v ((j, w) ∷ m) none_left h = ground (arith, find-none q k v m)

  later :
      (k j : K) (v w : V) (m : Map K V)
      → UniqueKeys ((k, v) ∷ m)
      → Map.get j m ≡ some w
      → Map.get j ((k, v) ∷ m) ≡ some w
  unfolding Map.get
  later k j v w m u h = elim (Bool-cases (e.beq k j)) [
    | inl same ↦
        let eq : k ≡ j = (e.beq_iff k j).0 same in
        absurd (some_none (sym h ∙ ap (λ (i : K). Map.get i m) (sym eq) ∙ u.0))
    | inr other ↦ rw other h
  ]
    where
      some_none : some w ≡ none → ⊥
      some_none eq = cc

  first : (k : K) (v : V) (m : Map K V) → Map.get k ((k, v) ∷ m) ≡ some v
  unfolding Map.get
  first k v m = rw (beq_refl k) refl

  pub any-none :
      (q : V → Bool) (m : Map K V)
      → UniqueKeys m
      → ((k : K) (v : V) → Map.get k m ≡ some v → q v ≡ false)
      → any q (values m) ≡ false
  any-none q [] u h = refl
  any-none q ((k, v) ∷ m) u h =
      let here = h k v (first k v m) in
      rw here (any-none q m u.1 (λ j w e. h j w (later k j v w m u e)))

  pub find-get :
      (q : V → Bool) (v : V) (m : Map K V)
      → UniqueKeys m
      → find q (values m) ≡ some v
      → (k : K) × (Map.get k m ≡ some v) × (q v ≡ true)
  find-get q v [] u h = cc
  find-get q v ((k, w) ∷ m) u h = elim (Bool-cases (q w)) [
    | inl here ↦ let same : w ≡ v = cc in rw (← same) (k, first k w m, here)
    | inr other ↦
        let (j, found, good) = find-get q v m u.1 (cc (h, other)) in
        (j, later k j w v m u found, good)
  ]
