-- ===== src/Chain/Queries.antt =====
-- The lookups of a well-formed chain find the states that it has. Nothing in the source adds a
-- checkpoint, so the lemmas take the chain to have none.
use dsm_decentralized_state.Base.{
  ℕ, Bool, ◌+◌, ◌-◌, ◌^◌, ◌≤◌, ◌<◌, ◌≡◌, ◌≢◌, ◌⊎◌, inl, inr, refl, ap, ◌∙◌, true, false, some, [],
  arith, find, Bool-cases, Option-cases, ltb, nat_eq, list_eq, list_beq_refl, nat_beq, nat_beq_iff,
  true-false,
}
use dsm_decentralized_state.Base.Map
use dsm_decentralized_state.Base.Map.{values}
use dsm_decentralized_state.Base.Result.{ok, err, not_found}
use dsm_decentralized_state.State.Operation.{Bytes, Operation}
use dsm_decentralized_state.State.Model.{State, Primitives, state_hash}
use dsm_decentralized_state.State.Next.{create_next_state}
use dsm_decentralized_state.State.Next.Laws.{create_next_state-Follows}
use dsm_decentralized_state.Chain.{
  HashChain, numbered, get_state_by_number, from_checkpoint, nearest_checkpoint, verify_state,
}
use dsm_decentralized_state.Chain.Lookup.{find-get, find-none}
use dsm_decentralized_state.Chain.WellFormed.{WellFormed}

no_checkpoint :
    (n : ℕ) (c : HashChain)
    → c.sparse_checkpoints ≡ []
    → from_checkpoint n (nearest_checkpoint n 0 (Map.keys c.sparse_checkpoints)) c ≡ err not_found
unfolding from_checkpoint nearest_checkpoint
no_checkpoint n c e = rw e refl

-- `get_state_by_number` on a well-formed chain with a current state and without checkpoints: it
-- gives the state of the chain with the number, or refuses if the chain has none.
pub get_state_by_number_lem :
    (n : ℕ) (c : HashChain) (h : State)
    → WellFormed c
    → c.current_state ≡ some h
    → c.sparse_checkpoints ≡ []
    → ((k : Bytes) × (s : State) × (Map.get k c.states ≡ some s)
        × (s.state_number ≡ n)
        × (get_state_by_number n c ≡ ok s))
      ⊎ (((k : Bytes) (s : State) → Map.get k c.states ≡ some s → s.state_number ≢ n)
          × (get_state_by_number n c ≡ err not_found))
unfolding get_state_by_number
get_state_by_number_lem n c h w e plain = elim (Bool-cases (ltb h.state_number n)) [
  | inl above ↦ inr (beyond above, rw (e, above) refl)
  | inr within ↦ elim (Option-cases (find (numbered n) (values c.states))) [
    | inl missing ↦ inr (
      (λ k s found eq.
          true-false ((nat_beq_iff s.state_number n).1 eq)
            (find-none (numbered n) k s c.states missing found)),
      rw (e, within, missing) (no_checkpoint n c plain),
    )
    | inr (s, found) ↦
        let (k, stored, same) = find-get (numbered n) s c.states w.unique found in
        inl (k, s, stored, (nat_beq_iff s.state_number n).0 same, rw (e, within, found) refl)
  ]
]
  where
    beyond :
        ltb h.state_number n ≡ true
        → (k : Bytes) (s : State) → Map.get k c.states ≡ some s
        → s.state_number ≢ n
    beyond above k s found eq =
        let (g, current, le) = w.bounded k s found in
        let same : g ≡ h = cc (current, e) in
        let le' : s.state_number ≤ h.state_number = rw (← same) le in absurd (ground arith)

get_current_by_number :
    (c : HashChain) (h : State)
    → WellFormed c
    → c.current_state ≡ some h
    → c.sparse_checkpoints ≡ []
    → get_state_by_number h.state_number c ≡ ok h
get_current_by_number c h w e plain = elim (get_state_by_number_lem h.state_number c h w e plain) [
  | inl (k, s, stored, same, ran) ↦ ran ∙ ap ok (w.distinct k h.id s h stored (w.headed h e) same)
  | inr (absent, _) ↦ absurd (absent h.id h (w.headed h e) refl)
]

-- `verify_state` accepts the state that `create_next_state` makes from the current state of a
-- well-formed chain without checkpoints, if the current state is numbered below 2 ^ 63 - 1.
verify_state-create_next_state :
    (p : Primitives) (bench_thread : Bool) (operation : Operation) (new_entropy : Bytes)
    (c : HashChain) (h : State)
    → WellFormed c
    → c.current_state ≡ some h
    → c.sparse_checkpoints ≡ []
    → h.state_number + 1 < 2 ^ 63
    → verify_state p (create_next_state p bench_thread h operation new_entropy) c ≡ ok true
unfolding verify_state
verify_state-create_next_state p bench_thread operation new_entropy c h w e plain small =
    let f = create_next_state-Follows p bench_thread h operation new_entropy small in
    let later : nat_beq (create_next_state p bench_thread h operation new_entropy).state_number 0
        ≡ false =
      ground (arith, f.numbered) in
    let back : (create_next_state p bench_thread h operation new_entropy).state_number - 1
        ≡ h.state_number =
      omega (arith, f.numbered) in
    let ran = get_current_by_number c h w e plain in
    rw (f.hashed, later, back, ran, f.linked, list_beq_refl (state_hash p h)) refl
