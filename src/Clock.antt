-- ===== src/Clock.antt =====
-- Vector clocks of the storage nodes (dsm_storage_node/src/storage/vector_clock.rs).
-- A counter is a `u64`; `increment` wraps around as a release build does.
pub mod Scan
pub mod Compare
pub mod Merge
pub mod Order
mod Tests
use Prim.Native.Nat.{max}
use dsm_decentralized_state.Base.{
  ℕ, string_eq, String, Bool, true, false, ◌&&◌, ◌||◌, not, Option, none, some, List, [], ◌∷◌, ltb,
  if◌then◌else◌,
}
use dsm_decentralized_state.Base.Word.{wrapping_add}
use dsm_decentralized_state.Base.Map
use dsm_decentralized_state.Base.Map.{Map}

pub data VectorClockRelation : Type 0 where
  before after concurrent equal : VectorClockRelation

pub record VectorClock : Type 0 where
  pub counters : Map String ℕ

pub new : VectorClock
new = record { counters = [] }

pub with_node : String → ℕ → VectorClock
with_node node_id value = record { counters = (node_id, value) ∷ [] }

abbrev pub or_zero : Option ℕ → ℕ
or_zero none = 0
or_zero (some c) = c

-- `VectorClock::get`; the counter of a node that is not listed is 0
pub get : String → VectorClock → ℕ
get node_id c = or_zero (Map.get node_id c.counters)

pub set : String → ℕ → VectorClock → VectorClock
set node_id value c = record { counters = Map.insert node_id value c.counters }

pub increment : String → VectorClock → VectorClock
increment node_id c = record {
  counters = Map.insert node_id (wrapping_add (or_zero (Map.get node_id c.counters)) 1) c.counters;
}

-- the loop of `merge`: `entry(node_id).or_insert(0)`, then the maximum
merge_entries : Map String ℕ → Map String ℕ → Map String ℕ
merge_entries m [] = m
merge_entries m ((node_id, counter) ∷ rest) =
    merge_entries (Map.insert node_id (max (or_zero (Map.get node_id m)) counter) m) rest

pub merge : VectorClock → VectorClock → VectorClock
unfolding merge_entries
merge c other = record { counters = merge_entries c.counters other.counters }

-- The first loop of `compare`, from the flags `self_gt` and `other_gt`; `none` is the early return
-- of `Concurrent`.
pub scan_self : VectorClock → Map String ℕ → Bool → Bool → Option (Bool × Bool)
scan_self other [] self_gt other_gt = some (self_gt, other_gt)
scan_self other ((node_id, counter) ∷ rest) self_gt other_gt =
    let self_gt' = self_gt || ltb (get node_id other) counter in
    let other_gt' = other_gt || ltb counter (get node_id other) in
    let later = scan_self other rest self_gt' other_gt' in
    if self_gt' && other_gt' then none else later

-- The second loop, over the counters of the other clock.
pub scan_other : VectorClock → Map String ℕ → Bool → Bool → Option (Bool × Bool)
scan_other c [] self_gt other_gt = some (self_gt, other_gt)
scan_other c ((node_id, counter) ∷ rest) self_gt other_gt =
    let other_gt' = other_gt || (not (Map.contains_key node_id c.counters) && ltb 0 counter) in
    let later = scan_other c rest self_gt other_gt' in if self_gt && other_gt' then none else later

relation : Bool → Bool → VectorClockRelation
relation true false = after
relation false true = before
relation false false = equal
relation true true = concurrent

after_scan_self : VectorClock → VectorClock → Option (Bool × Bool) → Option (Bool × Bool)
after_scan_self c other none = none
after_scan_self c other (some (self_gt, other_gt)) = scan_other c other.counters self_gt other_gt

verdict : Option (Bool × Bool) → VectorClockRelation
verdict none = concurrent
verdict (some (self_gt, other_gt)) = relation self_gt other_gt

pub compare : VectorClock → VectorClock → VectorClockRelation
unfolding scan_self scan_other after_scan_self verdict relation get
compare c other = verdict (after_scan_self c other (scan_self other c.counters false false))

-- `matches!(.., After | Equal)`
is_after_or_equal : VectorClockRelation → Bool
is_after_or_equal after = true
is_after_or_equal equal = true
is_after_or_equal _ = false

pub dominates : VectorClock → VectorClock → Bool
unfolding is_after_or_equal
dominates c other = is_after_or_equal (compare c other)
