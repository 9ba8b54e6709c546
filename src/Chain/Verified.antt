-- ===== src/Chain/Verified.antt =====
-- What `verify_chain` checks, stated without its loop.
use dsm_decentralized_state.Base.{
  ℕ, zero, suc, ◌+◌, ◌≤◌, ◌<◌, ◌≡◌, ◌⊎◌, ◌↔◌, inl, inr, refl, sym, ap, ◌∙◌, true, Option, none,
  some, [], ◌∷◌, arith, find, Bool-cases, Option-cases, nat_eq, nat_beq, list_eq, list_beq,
  list_beq→eq, list_beq_refl, ◌&&◌,
}
use dsm_decentralized_state.Base.Map
use dsm_decentralized_state.Base.Map.{Map, values}
use dsm_decentralized_state.Base.Result.{Result-cases, ok, validation, ok_or, ◌>>=◌}
use dsm_decentralized_state.State.Operation.{Bytes}
use dsm_decentralized_state.State.Model.{State, Primitives, state_hash, verify_state_hash}
use dsm_decentralized_state.State.Model.Text.{state_id}
use dsm_decentralized_state.Chain.{
  HashChain, numbered, check_next, verify_from, verify_rest, verify_chain,
}

-- The state that the chain has at a position: genesis first, then the state with the id.
abbrev pub state_at : State → Map Bytes State → ℕ → Option State
state_at genesis states zero = some genesis
state_at genesis states (suc i) = Map.get (state_id (suc i)) states

plus_one : (n : ℕ) → n + 1 ≡ suc n
plus_one n = omega arith

module _ (p : Primitives) where
  -- The states at a position and the next one exist, and the second has the hash of the first as
  -- its previous hash and a hash of its own that is right.
  pub record Link (genesis : State) (states : Map Bytes State) (i : ℕ) : Type 0 where
    pub before : State
    pub after : State
    pub at : state_at genesis states i ≡ some before
    pub next : state_at genesis states (suc i) ≡ some after
    pub linked : after.prev_state_hash ≡ state_hash p before
    pub hashed : verify_state_hash p after ≡ true

  -- A genesis state with a right hash, and links up to the number of the current state.
  pub record Verified (c : HashChain) : Type 0 where
    pub genesis : State
    pub current : State
    pub found : find (numbered 0) (values c.states) ≡ some genesis
    pub is_current : c.current_state ≡ some current
    pub genesis_hashed : verify_state_hash p genesis ≡ true
    pub links : (i : ℕ) → i < current.state_number → Link genesis c.states i

  check_next-ok :
      (h : Bytes) (o : Option State) (t : State)
      → check_next p h o ≡ ok t
      → (o ≡ some t) × (t.prev_state_hash ≡ h) × (verify_state_hash p t ≡ true)
  unfolding check_next
  check_next-ok h none t e = cc
  check_next-ok h (some s) t e =
      elim (Bool-cases (list_beq s.prev_state_hash h && verify_state_hash p s)) [
        | inl good ↦
            let same : s ≡ t = cc (e, good) in
            let parts : (list_beq s.prev_state_hash h ≡ true) × (verify_state_hash p s ≡ true) =
              ground arith in
            rw (← same) (refl, list_beq→eq s.prev_state_hash h parts.0, parts.1)
        | inr bad ↦ cc (e, bad)
      ]

  module _ (genesis : State) (states : Map Bytes State) where
    verify_from-Link :
        (rounds num i : ℕ) (s : State)
        → state_at genesis states num ≡ some s
        → verify_from p rounds num (state_hash p s) states ≡ ok true
        → num ≤ i
        → i < num + rounds
        → Link genesis states i
    unfolding verify_from
    verify_from-Link zero num i s here e low high = absurd (omega arith)
    verify_from-Link (suc rounds) num i s here e low high =
        elim (Result-cases (check_next p (state_hash p s) (Map.get (state_id (num + 1)) states))) [
          | inr (x, bad) ↦ cc (e, bad)
          | inl (t, good) ↦
              let facts = check_next-ok _ _ t good in
              let there : state_at genesis states (suc num) ≡ some t =
                ap (λ (j : ℕ). Map.get (state_id j) states) (sym (plus_one num)) ∙ facts.0 in
              elim (Bool-cases (nat_beq num i)) [
                | inl same ↦
                    let eq : num ≡ i = ground arith in
                    rw (← eq) (record {
                      before = s;
                      after = t;
                      at = here;
                      next = there;
                      linked = facts.1;
                      hashed = facts.2;
                    })
                | inr differ ↦
                    verify_from-Link rounds (num + 1) i t
                      (ap (state_at genesis states) (plus_one num) ∙ there) (cc (e, good))
                      (ground arith) (omega arith)
              ]
        ]

    Link-verify_from :
        (rounds num : ℕ) (s : State)
        → state_at genesis states num ≡ some s
        → ((i : ℕ) → num ≤ i → i < num + rounds → Link genesis states i)
        → verify_from p rounds num (state_hash p s) states ≡ ok true
    unfolding verify_from check_next
    Link-verify_from zero num s here links = refl
    Link-verify_from (suc rounds) num s here links =
        let l = links num (omega arith) (omega arith) in
        let same : l.before ≡ s = cc (l.at, here) in
        let there : Map.get (state_id (num + 1)) states ≡ some l.after =
          ap (λ (j : ℕ). Map.get (state_id j) states) (plus_one num) ∙ l.next in
        let fits : list_beq l.after.prev_state_hash (state_hash p s) ≡ true =
          ap (λ (h : Bytes). list_beq h (state_hash p s)) (l.linked ∙ ap (state_hash p) same)
          ∙ list_beq_refl (state_hash p s) in
        rw (there, fits, l.hashed)
          (Link-verify_from rounds (num + 1) l.after
            (ap (state_at genesis states) (plus_one num) ∙ l.next)
            (λ i low high. links i (omega arith) (omega arith)))

  verify_rest-Verified :
      (c : HashChain) (g : State)
      → find (numbered 0) (values c.states) ≡ some g
      → verify_rest p c g ≡ ok true
      → Verified c
  unfolding verify_rest
  verify_rest-Verified c g found e = elim (Bool-cases (verify_state_hash p g)) [
    | inr bad ↦ cc (e, bad)
    | inl good ↦ elim (Option-cases c.current_state) [
      | inl empty ↦ cc (e, good, empty)
      | inr (h, current) ↦
          let looped : verify_from p h.state_number 0 (state_hash p g) c.states ≡ ok true =
            cc (e, good, current) in
          record {
            genesis = g;
            current = h;
            found = found;
            is_current = current;
            genesis_hashed = good;
            links = λ i lt.
                verify_from-Link g c.states h.state_number 0 i g refl looped (omega arith)
                  (omega arith);
          }
    ]
  ]

  Verified-verify_rest : (c : HashChain) (v : Verified c) → verify_rest p c v.genesis ≡ ok true
  unfolding verify_rest
  Verified-verify_rest c v =
      rw (v.genesis_hashed, v.is_current)
        (Link-verify_from v.genesis c.states v.current.state_number 0 v.genesis refl
          (λ i low high. v.links i (omega arith)))

  verify_chain_empty : (c : HashChain) → c.states ≡ [] → verify_chain p c ≡ ok true
  unfolding verify_chain
  verify_chain_empty c e = rw e refl

  verify_chain_entries :
      (c : HashChain) (k : Bytes) (s : State) (rest : Map Bytes State)
      → c.states ≡ (k, s) ∷ rest
      → verify_chain p c
        ≡ (ok_or (find (numbered 0) (values c.states)) validation >>= verify_rest p c)
  unfolding verify_chain
  verify_chain_entries c k s rest e = rw e refl

  -- `verify_chain` accepts exactly the chains without a state, and those that have a genesis state
  -- with a right hash, a current state, and from position to position up to the number of the
  -- current state a state that names the hash of the one before it and has a right hash itself.
  pub verify_chain-Verified :
      (c : HashChain) → (verify_chain p c ≡ ok true) ↔ ((c.states ≡ []) ⊎ Verified c)
  verify_chain-Verified c = (accepted c.states refl, accepts c.states refl)
    where
      accepted :
          (m : Map Bytes State)
          → c.states ≡ m
          → verify_chain p c ≡ ok true
          → (c.states ≡ []) ⊎ Verified c
      accepted [] e ran = inl e
      accepted ((k, s) ∷ rest) e ran = elim (Option-cases (find (numbered 0) (values c.states))) [
        | inl missing ↦ cc (ran, verify_chain_entries c k s rest e, missing)
        | inr (g, found) ↦
            inr
              (verify_rest-Verified c g found (cc (ran, verify_chain_entries c k s rest e, found)))
      ]

      accepts :
          (m : Map Bytes State)
          → c.states ≡ m
          → (c.states ≡ []) ⊎ Verified c
          → verify_chain p c ≡ ok true
      accepts m e (inl empty) = verify_chain_empty c empty
      accepts [] e (inr v) = verify_chain_empty c e
      accepts ((k, s) ∷ rest) e (inr v) =
          verify_chain_entries c k s rest e ∙ rw v.found (Verified-verify_rest c v)
