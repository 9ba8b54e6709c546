-- ===== src/Chain/WellFormed.antt =====
-- The invariant of a chain that `add_state` keeps.
use dsm_decentralized_state.Base.{
  ◌^◌, ◌≤◌, ◌<◌, ◌≡◌, ◌⊎◌, inl, inr, refl, sym, ap, ◌∙◌, true, false, none, some, arith, any, ltb,
  if◌then◌else◌, Bool-cases, nat_eq, list_eq, list_beq, list_beq→eq, list_beq_refl, nat_beq_iff,
  Option, ◌≢◌,
}
use dsm_decentralized_state.Base.Map
use dsm_decentralized_state.Base.Map.{get-insert, UniqueKeys, insert-UniqueKeys, values}
use dsm_decentralized_state.Base.Result.{ok, err, generic, validation}
use dsm_decentralized_state.State.Operation.{Bytes}
use dsm_decentralized_state.State.Model.{State}
use dsm_decentralized_state.State.Model.Text.{
  state_id, genesis_id, state_id-injective, state_id-genesis,
}
use dsm_decentralized_state.Chain.{
  HashChain, numbered, refers_back, new_current, store, add_state, new,
}
use dsm_decentralized_state.Chain.Lookup.{any-get}

-- The id of a state is the one for its number; the genesis state may have its own.
pub record Canonical (s : State) : Type 0 where
  pub small : s.state_number < 2 ^ 63
  pub named : ((s.state_number ≡ 0) × (s.id ≡ genesis_id)) ⊎ (s.id ≡ state_id s.state_number)

pub Canonical-injective :
    (s t : State) → Canonical s → Canonical t → s.id ≡ t.id → s.state_number ≡ t.state_number
Canonical-injective s t cs ct e = elim cs.named [
  | inl (s0, sg) ↦ elim ct.named [
    | inl (t0, tg) ↦ omega arith
    | inr tn ↦ absurd (state_id-genesis t.state_number (sym tn ∙ sym e ∙ sg))
  ]
  | inr sn ↦ elim ct.named [
    | inl (t0, tg) ↦ absurd (state_id-genesis s.state_number (sym sn ∙ e ∙ tg))
    | inr tn ↦ state_id-injective s.state_number t.state_number cs.small ct.small (sym sn ∙ e ∙ tn)
  ]
]

-- No two states have one number; every state stands under its own canonical id and is numbered at
-- most as the current state, which is stored too.
pub record WellFormed (c : HashChain) : Type 0 where
  pub unique : UniqueKeys c.states
  pub distinct :
      (j k : Bytes) (s t : State)
      → Map.get j c.states ≡ some s
      → Map.get k c.states ≡ some t
      → s.state_number ≡ t.state_number
      → s ≡ t
  pub canonical : (k : Bytes) (s : State) → Map.get k c.states ≡ some s → (s.id ≡ k) × Canonical s
  pub bounded :
      (k : Bytes) (s : State)
      → Map.get k c.states ≡ some s
      → (h : State) × (c.current_state ≡ some h) × (s.state_number ≤ h.state_number)
  pub headed : (h : State) → c.current_state ≡ some h → Map.get h.id c.states ≡ some h

pub new-WellFormed : WellFormed new
unfolding new Map.get
new-WellFormed = record {
  unique = tt;
  distinct = λ j k s t e f same. cc;
  canonical = λ k s e. cc;
  bounded = λ k s e. cc;
  headed = λ h e. cc;
}

-- What a successful `add_state` does.
pub record Added (s : State) (c c' : HashChain) : Type 0 where
  pub lookup :
      (k : Bytes) → Map.get k c'.states ≡ (if list_beq s.id k then some s else Map.get k c.states)
  pub head : c'.current_state ≡ some (new_current s c.current_state)
  pub well_formed : WellFormed c'

module _ (s : State) (c : HashChain) (cs : Canonical s) (w : WellFormed c) where
  stored_lookup :
      (k : Bytes)
      → Map.get k (store s c).states ≡ (if list_beq s.id k then some s else Map.get k c.states)
  unfolding store
  stored_lookup k = get-insert s.id k s c.states

  new_current-bound : s.state_number ≤ (new_current s c.current_state).state_number
  unfolding new_current
  new_current-bound = bound c.current_state
    where
      bound : (o : Option State) → s.state_number ≤ (new_current s o).state_number
      bound none = omega arith
      bound (some t) = ground arith

  new_current-bounds :
      (t h : State)
      → t.state_number ≤ h.state_number
      → t.state_number ≤ (new_current s (some h)).state_number
  unfolding new_current
  new_current-bounds t h le = ground arith

  store-bounded :
      (k : Bytes) (t : State)
      → Map.get k (store s c).states ≡ some t
      → t.state_number ≤ (new_current s c.current_state).state_number
  store-bounded k t e = elim (Bool-cases (list_beq s.id k)) [
    | inl same ↦ let here : s ≡ t = cc (stored_lookup k, same, e) in rw (← here) new_current-bound
    | inr other ↦
        let before = w.bounded k t (cc (stored_lookup k, other, e)) in
        rw before.1 (new_current-bounds t before.0 before.2)
  ]

  store-Canonical :
      (k : Bytes) (t : State) → Map.get k (store s c).states ≡ some t → (t.id ≡ k) × Canonical t
  store-Canonical k t e = elim (Bool-cases (list_beq s.id k)) [
    | inl same ↦
        let here : s ≡ t = cc (stored_lookup k, same, e) in
        rw (← here) (list_beq→eq s.id k same, cs)
    | inr other ↦ w.canonical k t (cc (stored_lookup k, other, e))
  ]

  abbrev Fresh : Type 0
  Fresh = (k : Bytes) (t : State) → Map.get k c.states ≡ some t → t.state_number ≢ s.state_number

  store-distinct :
      (j k : Bytes) (t u : State)
      → Fresh
      → Map.get j (store s c).states ≡ some t
      → Map.get k (store s c).states ≡ some u
      → t.state_number ≡ u.state_number
      → t ≡ u
  store-distinct j k t u fresh et eu same = elim (Bool-cases (list_beq s.id j)) [
    | inl sj ↦
        let is_t : s ≡ t = cc (stored_lookup j, sj, et) in
        elim (Bool-cases (list_beq s.id k)) [
          | inl sk ↦ sym is_t ∙ cc (stored_lookup k, sk, eu)
          | inr apart ↦ absurd (
              fresh k u (cc (stored_lookup k, apart, eu))
                (sym same ∙ ap (λ (x : State). x.state_number) (sym is_t)))
        ]
    | inr oj ↦
        let old_t : Map.get j c.states ≡ some t = cc (stored_lookup j, oj, et) in
        elim (Bool-cases (list_beq s.id k)) [
          | inl sk ↦
              let is_u : s ≡ u = cc (stored_lookup k, sk, eu) in
              absurd (fresh j t old_t (same ∙ ap (λ (x : State). x.state_number) (sym is_u)))
          | inr apart ↦ w.distinct j k t u old_t (cc (stored_lookup k, apart, eu)) same
        ]
  ]

  -- A state with a smaller number does not replace the current one, whose id differs.
  kept :
      (h : State)
      → c.current_state ≡ some h
      → s.state_number ≢ h.state_number
      → Map.get h.id (store s c).states ≡ some h
  kept h e differ = elim (Bool-cases (list_beq s.id h.id)) [
    | inl same ↦ absurd (
        differ (
          Canonical-injective s h cs (w.canonical h.id h (w.headed h e)).1
            (list_beq→eq s.id h.id same)))
    | inr other ↦ cc (stored_lookup h.id, other, w.headed h e)
  ]

  stored : Map.get s.id (store s c).states ≡ some s
  stored = stored_lookup s.id ∙ rw (list_beq_refl s.id) refl

  store-headed :
      (o : Option State)
      → c.current_state ≡ o
      → ((h : State) → o ≡ some h → s.state_number ≢ h.state_number)
      → Map.get (new_current s o).id (store s c).states ≡ some (new_current s o)
  unfolding new_current
  store-headed none e differ = stored
  store-headed (some h) e differ = elim (Bool-cases (ltb h.state_number s.state_number)) [
    | inl above ↦ rw above stored
    | inr below ↦ rw below (kept h e (differ h refl))
  ]

  pub store-WellFormed : Fresh → WellFormed (store s c)
  store-WellFormed fresh = record {
    unique = unfold store in insert-UniqueKeys s.id s c.states w.unique;
    distinct = λ j k t u. store-distinct j k t u fresh;
    canonical = store-Canonical;
    bounded = λ k t e. (new_current s c.current_state, current, store-bounded k t e);
    headed = λ h e.
        let same : new_current s c.current_state ≡ h = cc (current, e) in
        rw (← same)
          (store-headed c.current_state refl (λ g eg eq. fresh g.id g (w.headed g eg) (sym eq)));
  }
    where
      current : (store s c).current_state ≡ some (new_current s c.current_state)
      current = unfold store in refl

-- `add_state` on a well-formed chain, for a state whose id is the one for its number. It refuses a
-- number that is taken, and a state whose sparse index does not refer back; any other state it
-- stores under its id, where no other lookup changes, makes it the current state if it is the
-- latest, and leaves a well-formed chain.
pub add_state_lem :
    (s : State) (c : HashChain)
    → Canonical s
    → WellFormed c
    → ((any (numbered s.state_number) (values c.states) ≡ true) × (add_state s c ≡ err generic))
      ⊎ ((refers_back s c ≡ false) × (add_state s c ≡ err validation))
      ⊎ ((c' : HashChain) × ((k : Bytes) (t : State)
            → Map.get k c.states ≡ some t
            → t.state_number ≢ s.state_number)
          × (refers_back s c ≡ true)
          × (add_state s c ≡ ok c')
          × Added s c c')
unfolding add_state
add_state_lem s c cs w = elim (Bool-cases (any (numbered s.state_number) (values c.states))) [
  | inl taken ↦ inl (taken, rw taken refl)
  | inr free ↦ elim (Bool-cases (refers_back s c)) [
    | inr lost ↦ inr (inl (lost, rw (free, lost) refl))
    | inl back ↦ inr (
        inr (
          store s c,
          fresh free,
          back,
          rw (free, back) refl,
          record {
            lookup = stored_lookup s c cs w;
            head = unfold store in refl;
            well_formed = store-WellFormed s c cs w (fresh free);
          },
        ))
  ]
]
  where
    fresh :
        any (numbered s.state_number) (values c.states) ≡ false
        → (k : Bytes) (t : State) → Map.get k c.states ≡ some t
        → t.state_number ≢ s.state_number
    fresh free k t e eq = cc (
      any-get (numbered s.state_number) k t c.states free e,
      (nat_beq_iff t.state_number s.state_number).1 eq,
    )
