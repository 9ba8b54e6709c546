-- ===== src/Clock/Compare.antt =====
-- `compare` decides the pointwise order of the counters
-- (dsm_storage_node/src/storage/vector_clock.rs).
use dsm_decentralized_state.Base.{string_eq, ◌≡◌, Bool, true, false, Option, none, some}
use dsm_decentralized_state.Clock.{
  VectorClock, VectorClockRelation, before, after, concurrent, equal, after_scan_self, verdict,
  relation, compare,
}
use dsm_decentralized_state.Clock.Merge.{IsClock}
use dsm_decentralized_state.Clock.Scan.{
  Exceeds, Within, Flag, AllBelow, AllAbove, SelfScanned, OtherScanned, scan_self_lem,
  scan_other_lem, Within-of_self, Within-of_scans, IsClock-Lists,
}

-- What each verdict means.
abbrev pub Means : VectorClockRelation → VectorClock → VectorClock → Type 0
Means before a b = Within a b × Exceeds b a
Means after a b = Within b a × Exceeds a b
Means concurrent a b = Exceeds a b × Exceeds b a
Means equal a b = Within a b × Within b a

module _ (a b : VectorClock) (ua : IsClock a) (ub : IsClock b) where
  Means-of_scans :
      (sg og : Bool)
      → Flag sg (Exceeds a b) (AllBelow a.counters b × (false ≡ false))
      → Flag og (Exceeds b a) (AllAbove a.counters b × (false ≡ false))
      → (r : Option (Bool × Bool)) → OtherScanned a b b.counters sg og r
      → Means (verdict r) a b
  unfolding verdict relation
  Means-of_scans sg og hs ho none h = h
  Means-of_scans true og hs ho (some (true, true)) h = (hs, h.1)
  Means-of_scans true true hs ho (some (true, false)) h = cc (h.1.1)
  Means-of_scans true false hs ho (some (true, false)) h = (Within-of_scans a b ho.0 h.1.0, hs)
  Means-of_scans true og hs ho (some (false, x)) h = cc (h.0)
  Means-of_scans false og hs ho (some (true, x)) h = cc (h.0)
  Means-of_scans false og hs ho (some (false, true)) h = (Within-of_self a b hs.0, h.1)
  Means-of_scans false true hs ho (some (false, false)) h = cc (h.1.1)
  Means-of_scans false false hs ho (some (false, false)) h =
      (Within-of_self a b hs.0, Within-of_scans a b ho.0 h.1.0)

  clear : (s : Bool) (P Q : Type 0) → Flag s P (Q × (false ≡ false)) → Flag s P Unit
  clear true P Q h = h
  clear false P Q h = tt

  Means-of_self_scan :
      (r : Option (Bool × Bool))
      → SelfScanned a b a.counters false false r
      → Means (verdict (after_scan_self a b r)) a b
  unfolding after_scan_self verdict
  Means-of_self_scan none h = h
  Means-of_self_scan (some (sg, og)) h = Means-of_scans sg og h.0 h.1 _ (
      scan_other_lem a b b.counters sg og (IsClock-Lists b ub) (clear sg _ _ h.0)
        (clear og _ _ h.1))

  -- The verdict of `compare` is right in each of its four cases: `Before` and `After` are the
  -- pointwise orders of the counters with a node that is strictly apart, `Equal` is equality of all
  -- counters, and `Concurrent` comes with a node ahead on each side. Each clock lists a node once.
  pub compare-Means : Means (compare a b) a b
  unfolding compare
  compare-Means =
      Means-of_self_scan _ (scan_self_lem a b a.counters false false (IsClock-Lists a ua) tt tt)
