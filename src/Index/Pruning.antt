-- ===== src/Index/Pruning.antt =====
-- The pruning at the end of `add_state` (dsm/src/core/index/mod.rs), for an interval whose tenfold
-- is not 0 in 64 bits.
use dsm_decentralized_state.Base.{
  ℕ, ◌-◌, ◌*◌, ◌%◌, ◌<◌, ◌≡◌, refl, ap, ◌∙◌, Bool, false, ◌||◌, none, some, [], ◌∷◌, arith, ltb,
  nat_beq, nat_eq, Bool-cases, Option-cases, inl, inr, if◌then◌else◌,
}
use dsm_decentralized_state.Base.Map
use dsm_decentralized_state.Base.Map.{Map}
use dsm_decentralized_state.Base.Word.{u64_mod}
use dsm_decentralized_state.Base.Result.{Result, ok}
use dsm_decentralized_state.State.Model.{State}
use dsm_decentralized_state.Index.{SparseIndexManager, retain, is_kept, prune}

-- No remainder by 0 in the pruning.
abbrev pub CanPrune : ℕ → Type 0
CanPrune interval = 0 < interval * 10 % u64_mod

is_kept_test : ℕ → ℕ → ℕ → Bool
is_kept_test cutoff interval num =
    nat_beq num 0 || ltb cutoff num || nat_beq (num % (interval * 10 % u64_mod)) 0

is_kept_lem :
    (cutoff interval num : ℕ)
    → CanPrune interval
    → is_kept cutoff interval num ≡ ok (is_kept_test cutoff interval num)
unfolding is_kept is_kept_test
is_kept_lem cutoff interval num safe = elim (Bool-cases (nat_beq num 0 || ltb cutoff num)) [
  | inl recent ↦ rw recent refl
  | inr old ↦
      let divides : nat_beq (interval * 10 % u64_mod) 0 ≡ false = ground arith in
      rw (old, divides) refl
]

-- Where the test is a Boolean function, so is what is retained.
get-retain :
    (keep : ℕ → Result Bool) (test : ℕ → Bool) (m : Map ℕ State)
    → ((n : ℕ) → keep n ≡ ok (test n))
    → (kept : Map ℕ State) × (retain keep m ≡ ok kept)
      × ((j : ℕ) → Map.get j kept ≡ (if test j then Map.get j m else none))
unfolding Map.get retain
get-retain keep test [] e = ([], refl, λ j. ground arith)
get-retain keep test ((i, s) ∷ m) e =
    let (kept, done, got) = get-retain keep test m e in
    (
      if test i then (i, s) ∷ kept else kept,
      rw (e i, done) refl,
      λ j. elim (Bool-cases (nat_beq i j)) [
        | inl same ↦
            let at : i ≡ j = ground arith in
            let both : test i ≡ test j = ap test at in ground (arith, both, got j)
        | inr other ↦ ground (arith, got j)
      ],
    )

-- What a manager keeps when it is pruned.
pub record Pruned (m m' : SparseIndexManager) : Type 0 where
  pub tree_kept : m'.merkle_tree ≡ m.merkle_tree
  pub interval_kept : m'.checkpoint_interval ≡ m.checkpoint_interval
  pub narrowed :
      (k : ℕ) (s : State) → Map.get k m'.checkpoints ≡ some s → Map.get k m.checkpoints ≡ some s
  pub genesis_kept : Map.get 0 m'.checkpoints ≡ Map.get 0 m.checkpoints

same-Pruned : (m : SparseIndexManager) → Pruned m m
same-Pruned m = record {
  tree_kept = refl;
  interval_kept = refl;
  narrowed = λ k s e. e;
  genesis_kept = refl;
}

-- Pruning succeeds, drops checkpoints alone, and never the genesis state.
pub prune_lem :
    (m : SparseIndexManager)
    → CanPrune m.checkpoint_interval
    → (m' : SparseIndexManager) × (prune m ≡ (m', ok tt)) × Pruned m m'
unfolding prune
prune_lem m safe = elim (Option-cases m.max_checkpoint_age) [
  | inl ageless ↦ (m, simp (prune, ageless), same-Pruned m)
  | inr (max_age, aged) ↦ elim (Bool-cases (ltb max_age m.highest_state)) [
    | inr young ↦ (m, simp (prune, aged, young), same-Pruned m)
    | inl old ↦
        let cutoff = m.highest_state - max_age in
        let test = is_kept_test cutoff m.checkpoint_interval in
        let (kept, done, got) =
          get-retain (is_kept cutoff m.checkpoint_interval) test m.checkpoints
            (λ n. is_kept_lem cutoff m.checkpoint_interval n safe) in
        (
          record m { checkpoints = kept },
          simp (prune, aged, old, done),
          record {
            tree_kept = refl;
            interval_kept = refl;
            narrowed = λ k s e. ground (arith, got k);
            genesis_kept = got 0 ∙ (unfold is_kept_test in refl);
          },
        )
  ]
]
