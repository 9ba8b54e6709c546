-- ===== src/Chain/Append.antt =====
-- Appending the next state to a verified chain.
use dsm_decentralized_state.Base.{
  ℕ, zero, suc, ◌+◌, ◌^◌, ◌≤◌, ◌<◌, ◌≡◌, inl, inr, refl, sym, ap, ◌∙◌, Bool, true, false, some,
  arith, find, any, Bool-cases, Option-cases, nat_eq, nat_beq, list_eq, list_beq, list_beq→eq,
  list_beq_refl, ◌-◌, true-false, ltb,
}
use dsm_decentralized_state.Base.Map
use dsm_decentralized_state.Base.Map.{values, get-insert}
use dsm_decentralized_state.Base.Result.{ok}
use dsm_decentralized_state.State.Operation.{Bytes, Operation}
use dsm_decentralized_state.State.Model.{State, Primitives}
use dsm_decentralized_state.State.Model.Text.{state_id, state_id-injective}
use dsm_decentralized_state.State.Next.{create_next_state}
use dsm_decentralized_state.State.Next.Laws.{Follows, create_next_state-Follows}
use dsm_decentralized_state.Chain.{
  HashChain, numbered, refers_back, new_current, add_state, verify_chain,
}
use dsm_decentralized_state.Chain.Lookup.{any-none, find-get, find-none}
use dsm_decentralized_state.Chain.WellFormed.{
  Canonical, Canonical-injective, WellFormed, Added, add_state_lem,
}
use dsm_decentralized_state.Chain.Verified.{state_at, Link, Verified, verify_chain-Verified}

-- A well-formed chain has no state with a number above the current one.
number_free :
    (c : HashChain) (h : State) (n : ℕ)
    → WellFormed c
    → c.current_state ≡ some h
    → h.state_number < n
    → any (numbered n) (values c.states) ≡ false
number_free c h n w e above = any-none (numbered n) c.states w.unique (λ k s found.
    let (g, current, le) = w.bounded k s found in
    let same : g ≡ h = cc (current, e) in
    let le' : s.state_number ≤ h.state_number = rw (← same) le in ground arith)

-- The current state of a verified chain is the one at its last position.
current_at :
    (p : Primitives) (c : HashChain) (v : Verified p c)
    → WellFormed c
    → state_at v.genesis c.states v.current.state_number ≡ some v.current
current_at p c v w = at v.current.state_number refl
  where
    held : Map.get v.current.id c.states ≡ some v.current
    held = w.headed v.current v.is_current

    at : (n : ℕ) → v.current.state_number ≡ n → state_at v.genesis c.states n ≡ some v.current
    at zero e =
        let (k, found, zeroth) = find-get (numbered 0) v.genesis c.states w.unique v.found in
        let g0 : v.genesis.state_number ≡ v.current.state_number = ground arith in
        ap some (w.distinct k v.current.id v.genesis v.current found held g0)
    at (suc n) e = elim (w.canonical v.current.id v.current held).1.named [
      | inl (none_before, _) ↦ absurd (omega arith)
      | inr id ↦ ap (λ (k : Bytes). Map.get k c.states) (sym (id ∙ ap state_id e)) ∙ held
    ]

module _ (p : Primitives) (c : HashChain) (v : Verified p c) (w : WellFormed c) (next : State)
    (follows : Follows p v.current next) (small : v.current.state_number + 1 < 2 ^ 63) where
  next-Canonical : Canonical next
  next-Canonical = record {
    small = rw follows.numbered small;
    named = inr (follows.named ∙ ap state_id (sym follows.numbered));
  }

  next-refers_back : refers_back next c ≡ true
  unfolding refers_back
  next-refers_back =
      let before : next.state_number - 1 ≡ v.current.state_number =
        omega (arith, follows.numbered) in
      rw (before, follows.indexed) (ground arith)

  module _ (c' : HashChain) (added : Added next c c') where
    kept_below :
        (i : ℕ)
        → i ≤ v.current.state_number
        → state_at v.genesis c'.states i ≡ state_at v.genesis c.states i
    kept_below zero le = refl
    kept_below (suc i) le = elim (Bool-cases (list_beq next.id (state_id (suc i)))) [
      | inl same ↦
          let eq =
            state_id-injective (v.current.state_number + 1) (suc i) small (omega arith)
              (sym follows.named ∙ list_beq→eq next.id (state_id (suc i)) same) in
          absurd (omega (arith, eq))
      | inr other ↦ added.lookup (state_id (suc i)) ∙ rw other refl
    ]

    next_at : state_at v.genesis c'.states (suc v.current.state_number) ≡ some next
    next_at =
        let id : next.id ≡ state_id (suc v.current.state_number) =
          follows.named ∙ ap state_id (omega arith) in
        added.lookup (state_id (suc v.current.state_number))
        ∙ rw (← id) (rw (list_beq_refl next.id) refl)

    Link-at : (i : ℕ) → i ≤ v.current.state_number → Link p v.genesis c'.states i
    Link-at i le = elim (Bool-cases (nat_beq i v.current.state_number)) [
      | inl last ↦
          let eq : i ≡ v.current.state_number = ground arith in
          rw eq (record {
            before = v.current;
            after = next;
            at = kept_below v.current.state_number (omega arith) ∙ current_at p c v w;
            next = next_at;
            linked = follows.linked;
            hashed = follows.hashed;
          })
      | inr earlier ↦
          let l = v.links i (ground arith) in
          record {
            before = l.before;
            after = l.after;
            at = kept_below i le ∙ l.at;
            next = kept_below (suc i) (ground arith) ∙ l.next;
            linked = l.linked;
            hashed = l.hashed;
          }
    ]

    genesis_kept :
        (k : Bytes)
        → Map.get k c.states ≡ some v.genesis
        → v.genesis.state_number ≡ 0
        → Map.get k c'.states ≡ some v.genesis
    genesis_kept k found zeroth = elim (Bool-cases (list_beq next.id k)) [
      | inr other ↦ added.lookup k ∙ rw other found
      | inl same ↦
          let (named, canonical) = w.canonical k v.genesis found in
          let eq =
            Canonical-injective next v.genesis next-Canonical canonical
              (list_beq→eq next.id k same ∙ sym named) in
          absurd (omega (arith, follows.numbered))
    ]

    genesis_found : find (numbered 0) (values c'.states) ≡ some v.genesis
    genesis_found =
        let (k, stored, zeroth) = find-get (numbered 0) v.genesis c.states w.unique v.found in
        let kept = genesis_kept k stored (ground arith) in
        elim (Option-cases (find (numbered 0) (values c'.states))) [
          | inl missing ↦ cc (find-none (numbered 0) k v.genesis c'.states missing kept, zeroth)
          | inr (g, found) ↦
              let (j, at, g0) = find-get (numbered 0) g c'.states added.well_formed.unique found in
              found ∙ ap some (added.well_formed.distinct j k g v.genesis at kept (ground arith))
        ]

    next_current : c'.current_state ≡ some next
    unfolding new_current
    next_current =
        let above : ltb v.current.state_number next.state_number ≡ true =
          ground (arith, follows.numbered) in
        added.head ∙ rw (v.is_current, above) refl

    appended : Verified p c'
    appended = record {
      genesis = v.genesis;
      current = next;
      found = genesis_found;
      is_current = next_current;
      genesis_hashed = v.genesis_hashed;
      links = λ i lt. Link-at i (omega (arith, follows.numbered));
    }

  append_next :
      (c' : HashChain) × (add_state next c ≡ ok c')
      × WellFormed c'
      × (c'.current_state ≡ some next)
      × Verified p c'
  append_next = elim (add_state_lem next c next-Canonical w) [
    | inl (taken, _) ↦ absurd (
        true-false taken (
          number_free c v.current next.state_number w v.is_current
            (omega (arith, follows.numbered))))
    | inr (inl (lost, _)) ↦ absurd (true-false next-refers_back lost)
    | inr (inr (c', _, _, ran, added)) ↦
        (c', ran, added.well_formed, next_current c' added, appended c' added)
  ]

verified_head :
    (p : Primitives) (c : HashChain) (h : State)
    → WellFormed c
    → c.current_state ≡ some h
    → verify_chain p c ≡ ok true
    → (v : Verified p c) × (v.current ≡ h)
unfolding Map.get
verified_head p c h w e ran = elim ((verify_chain-Verified p c).0 ran) [
  | inl empty ↦
      let held : Map.get h.id c.states ≡ some h = w.headed h e in cc (held, ap (Map.get h.id) empty)
  | inr v ↦ (v, cc (v.is_current, e))
]

-- Take a well-formed chain that `verify_chain` accepts and whose current state is numbered below
-- 2 ^ 63 - 1. `add_state` accepts the state that `create_next_state` makes from the current state,
-- for any operation and entropy; the new chain is well-formed, has that state as its current state,
-- and `verify_chain` accepts it.
pub add_state-create_next_state :
    (p : Primitives) (bench_thread : Bool) (operation : Operation) (new_entropy : Bytes)
    (c : HashChain) (h : State)
    → WellFormed c
    → c.current_state ≡ some h
    → h.state_number + 1 < 2 ^ 63
    → verify_chain p c ≡ ok true
    → (c' : HashChain) × (add_state (create_next_state p bench_thread h operation new_entropy) c
        ≡ ok c')
      × WellFormed c'
      × (c'.current_state ≡ some (create_next_state p bench_thread h operation new_entropy))
      × (verify_chain p c' ≡ ok true)
add_state-create_next_state p bench_thread operation new_entropy c h w e small ran =
    let (v, is_h) = verified_head p c h w e ran in
    let next = create_next_state p bench_thread h operation new_entropy in
    let follows : Follows p v.current next =
      rw is_h (create_next_state-Follows p bench_thread h operation new_entropy small) in
    let (c', added, w', current, v') = append_next p c v w next follows (rw is_h small) in
    (c', added, w', current, (verify_chain-Verified p c').1 (inr v'))
