-- ===== src/Clock/Merge.antt =====
-- `merge`, `increment` and `set` of the vector clocks, counter by counter.
use Prim.Native.Nat.{max}
use dsm_decentralized_state.Base.{
  ℕ, ◌+◌, ◌<◌, String, ◌≡◌, [], ◌∷◌, arith, string_eq, ◌==◌, if◌then◌else◌,
}
use dsm_decentralized_state.Base.Word.{u64_max}
use dsm_decentralized_state.Base.Map
use dsm_decentralized_state.Base.Map.{Map, UniqueKeys, insert-UniqueKeys, get-insert}
use dsm_decentralized_state.Clock.{VectorClock, or_zero, get, increment, merge_entries, merge}

abbrev pub IsClock : VectorClock → Type 0
IsClock c = UniqueKeys c.counters

merge_entries_lem :
    (n : String) (m rest : Map String ℕ)
    → UniqueKeys rest
    → or_zero (Map.get n (merge_entries m rest))
      ≡ max (or_zero (Map.get n m)) (or_zero (Map.get n rest))
unfolding merge_entries Map.get
merge_entries_lem n m [] u = omega arith
merge_entries_lem n m ((k, c) ∷ rest) u = ground (
  arith,
  string_eq.beq_iff k n,
  get-insert k n (max (or_zero (Map.get k m)) c) m,
  merge_entries_lem n (Map.insert k (max (or_zero (Map.get k m)) c) m) rest u.1,
)

merge_entries-UniqueKeys :
    (rest m : Map String ℕ) → UniqueKeys m → UniqueKeys (merge_entries m rest)
unfolding merge_entries
merge_entries-UniqueKeys [] m u = u
merge_entries-UniqueKeys ((k, c) ∷ rest) m u =
    merge_entries-UniqueKeys rest _ (insert-UniqueKeys k _ m u)

pub merge-IsClock : (a b : VectorClock) → IsClock a → IsClock (merge a b)
unfolding merge
merge-IsClock a b u = merge_entries-UniqueKeys b.counters a.counters u

pub get-merge :
    (n : String) (a b : VectorClock) → IsClock b → get n (merge a b) ≡ max (get n a) (get n b)
unfolding merge get
get-merge n a b u = merge_entries_lem n a.counters b.counters u

pub get-increment :
    (n k : String) (c : VectorClock)
    → get n c < u64_max
    → get k (increment n c) ≡ (if n == k then get n c + 1 else get k c)
unfolding increment get
get-increment n k c h = rw get-insert (ground arith)

pub increment-IsClock : (n : String) (c : VectorClock) → IsClock c → IsClock (increment n c)
unfolding increment
increment-IsClock n c u = insert-UniqueKeys n _ c.counters u
