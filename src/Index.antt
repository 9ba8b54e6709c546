-- ===== src/Index.antt =====
-- `SparseIndexManager`: checkpoints of a chain at regular intervals, and lookups that walk forward
-- from the nearest one (dsm/src/core/index/mod.rs). A lock that is free is taken, so the lock
-- errors are left out; the callback that fetches a state is an argument.
pub mod Pruning
pub mod Agrees
pub mod Proofs
pub mod Serves
mod Tests
use dsm_decentralized_state.Base.{
  ℕ, zero, suc, ◌+◌, ◌-◌, ◌*◌, ◌%◌, ◌^◌, Bool, true, false, ◌||◌, not, Option, none, some, List, [],
  ◌∷◌, ltb, leb, nat_beq, nat_eq, list_eq, list_beq, if◌then◌else◌,
}
use dsm_decentralized_state.Base.Map
use dsm_decentralized_state.Base.Map.{Map, keys}
use dsm_decentralized_state.Base.Word.{u64_mod}
use dsm_decentralized_state.Base.Result.{Result, ok, err, ◌>>=◌, fail_if, ok_or, validation, panic}
use dsm_decentralized_state.Merkle.Sparse
use dsm_decentralized_state.Merkle.Sparse.{SparseMerkleTreeImpl, MerkleProof, get_proof}
use dsm_decentralized_state.State.Operation.{Bytes}
use dsm_decentralized_state.State.Model.{State, Primitives, state_hash}

pub record SparseIndexManager : Type 0 where
  pub checkpoints : Map ℕ State
  pub hash_to_number : Map Bytes ℕ
  pub checkpoint_interval : ℕ
  pub merkle_tree : Option SparseMerkleTreeImpl
  pub max_checkpoint_age : Option ℕ
  pub highest_state : ℕ

-- `merkle_tree_height.unwrap_or(20)`
height_or_20 : Option ℕ → ℕ
height_or_20 none = 20
height_or_20 (some height) = height

unfoldable pub new : ℕ → Bool → Option ℕ → Option ℕ → SparseIndexManager
unfolding height_or_20
new checkpoint_interval with_merkle_tree merkle_tree_height max_checkpoint_age = record {
  checkpoints = [];
  hash_to_number = [];
  checkpoint_interval = checkpoint_interval;
  merkle_tree =
      if with_merkle_tree then some (Sparse.new (height_or_20 merkle_tree_height)) else none;
  max_checkpoint_age = max_checkpoint_age;
  highest_state = 0;
}

-- The remainder by an interval of 0 panics.
unfoldable pub is_checkpoint : ℕ → SparseIndexManager → Result Bool
is_checkpoint state_number m =
    if nat_beq m.checkpoint_interval 0
    then err panic
    else ok (nat_beq (state_number % m.checkpoint_interval) 0 || nat_beq state_number 0)

-- `checkpoints.retain(|&num, _| ..)`
unfoldable pub retain : (ℕ → Result Bool) → Map ℕ State → Result (Map ℕ State)
retain keep [] = ok []
retain keep ((num, s) ∷ m) =
    keep num >>= λ kept. retain keep m >>= λ rest. ok (if kept then (num, s) ∷ rest else rest)

-- A checkpoint that pruning keeps: genesis, what is recent, and every tenth of the others. The
-- remainder panics where the tenfold of the interval is 0 in 64 bits, as for the interval 2 ^ 63.
unfoldable pub is_kept : ℕ → ℕ → ℕ → Result Bool
is_kept cutoff interval num =
    if nat_beq num 0 || ltb cutoff num
    then ok true
    else if nat_beq (interval * 10 % u64_mod) 0
    then err panic
    else ok (nat_beq (num % (interval * 10 % u64_mod)) 0)

-- What `add_state` leaves, and what it returns. A panic ends the run: what it leaves is not used
-- again.
abbrev pub Outcome : Type 0
Outcome = SparseIndexManager × Result (Unit {0})

-- The pruning at the end of `add_state`.
unfoldable pub prune : SparseIndexManager → Outcome
prune m = elim m.max_checkpoint_age [
  | none ↦ (m, ok tt)
  | some max_age ↦
      if ltb max_age m.highest_state
      then elim (retain (is_kept (m.highest_state - max_age) m.checkpoint_interval) m.checkpoints) [
        | err e ↦ (m, err e)
        | ok kept ↦ (record m { checkpoints = kept }, ok tt)
      ]
      else (m, ok tt)
]

-- The largest of the keys up to a number, or `best`.
unfoldable pub nearest : ℕ → List ℕ → Option ℕ → Option ℕ
nearest n [] best = best
nearest n (k ∷ ks) none = nearest n ks (if leb k n then some k else none)
nearest n (k ∷ ks) (some b) =
    nearest n ks (if leb k n then (if ltb b k then some k else some b) else some b)

unfoldable pub get_nearest_checkpoint_before : ℕ → SparseIndexManager → Option ℕ
get_nearest_checkpoint_before n m = nearest n (keys m.checkpoints) none

unfoldable pub generate_merkle_proof : ℕ → SparseIndexManager → Result (Option MerkleProof)
generate_merkle_proof n m = elim m.merkle_tree [
  | none ↦ ok none
  | some tree ↦ get_proof n tree >>= λ proof. ok (some proof)
]

module _ (p : Primitives) where
  -- The hash and the highest number are noted of every state.
  unfoldable pub note_state : State → SparseIndexManager → SparseIndexManager
  note_state s m = record m {
    hash_to_number = Map.insert (state_hash p s) s.state_number m.hash_to_number;
    highest_state = if ltb m.highest_state s.state_number then s.state_number else m.highest_state;
  }

  -- The tree insertion fails beyond the capacity of the tree, after the checkpoint is stored.
  unfoldable pub insert_leaf : State → SparseIndexManager → Outcome
  insert_leaf s m = elim m.merkle_tree [
    | none ↦ prune m
    | some tree ↦ elim (Sparse.insert p.blake3 s.state_number (state_hash p s) tree) [
      | err e ↦ (m, err e)
      | ok tree' ↦ prune (record m { merkle_tree = some tree' })
    ]
  ]

  unfoldable pub store_checkpoint : State → SparseIndexManager → Outcome
  store_checkpoint s m =
      insert_leaf s (record m { checkpoints = Map.insert s.state_number s m.checkpoints })

  unfoldable pub add_state : State → SparseIndexManager → Outcome
  add_state s m = elim (is_checkpoint s.state_number m) [
    | err e ↦ (note_state s m, err e)
    | ok true ↦ store_checkpoint s (note_state s m)
    | ok false ↦ (note_state s m, ok tt)
  ]

  -- The loop of `get_state_by_number`, over the numbers up to the one that is asked for.
  unfoldable pub traverse : (ℕ → Result (Option State)) → ℕ → ℕ → State → Result (Option State)
  traverse fetch zero next_num current = ok none
  traverse fetch (suc rounds) next_num current = fetch next_num >>= λ found. elim found [
    | none ↦ ok none
    | some s ↦
        let later : Result (Option State) = traverse fetch rounds (next_num + 1) s in
        if not (list_beq s.prev_state_hash (state_hash p current))
        then err validation
        else if nat_beq rounds 0
        then ok (some s)
        else later
  ]

  -- From the number of a checkpoint on.
  unfoldable pub from_nearest :
      (ℕ → Result (Option State)) → ℕ → SparseIndexManager → Option ℕ → Result (Option State)
  from_nearest fetch n m none = ok none
  from_nearest fetch n m (some k) = ok_or (Map.get k m.checkpoints) validation >>= λ checkpoint.
      if nat_beq k n then ok (some checkpoint) else traverse fetch (n - k) (k + 1) checkpoint

  unfoldable pub get_state_by_number :
      (ℕ → Result (Option State)) → ℕ → SparseIndexManager → Result (Option State)
  get_state_by_number fetch n m = elim (Map.get n m.checkpoints) [
    | some s ↦ ok (some s)
    | none ↦ from_nearest fetch n m (get_nearest_checkpoint_before n m)
  ]

  unfoldable pub verify_merkle_proof : State → MerkleProof → SparseIndexManager → Bool
  verify_merkle_proof s proof m = elim m.merkle_tree [
    | none ↦ false
    | some tree ↦ Sparse.verify_proof p.blake3 tree.root (state_hash p s) proof
  ]
