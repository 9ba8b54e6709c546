-- ===== src/Clock/Order.antt =====
-- `dominates` is the pointwise order, `merge` its least upper bound, and `increment` goes strictly
-- up in it.
use dsm_decentralized_state.Base.{
  ◌<◌, String, string_eq, ◌≡◌, refl, ◌↔◌, Bool, true, false, ◌&&◌, arith,
}
use dsm_decentralized_state.Base.Word.{u64_max}
use dsm_decentralized_state.Clock.{
  VectorClock, VectorClockRelation, before, after, concurrent, equal, get, increment, merge,
  compare, dominates, is_after_or_equal,
}
use dsm_decentralized_state.Clock.Merge.{
  IsClock, merge-IsClock, get-merge, get-increment, increment-IsClock,
}
use dsm_decentralized_state.Clock.Compare.{Means, compare-Means}
use dsm_decentralized_state.Clock.Scan.{Exceeds, Within}

not_both : (a b : VectorClock) → Within a b → Exceeds a b → ⊥
not_both a b w (n, h) = ground (arith, w n)

is_after_or_equal-Within :
    (r : VectorClockRelation) (a b : VectorClock)
    → Means r a b
    → (is_after_or_equal r ≡ true) ↔ Within b a
unfolding is_after_or_equal
is_after_or_equal-Within before a b m = (λ e. cc, λ w. absurd (not_both b a w m.1))
is_after_or_equal-Within after a b m = (λ e. m.0, λ w. refl)
is_after_or_equal-Within concurrent a b m = (λ e. cc, λ w. absurd (not_both b a w m.1))
is_after_or_equal-Within equal a b m = (λ e. m.1, λ w. refl)

-- One clock dominates another exactly when no node has counted further in the other.
dominates_iff : (a b : VectorClock) → IsClock a → IsClock b → (dominates a b ≡ true) ↔ Within b a
unfolding dominates
dominates_iff a b ua ub = is_after_or_equal-Within (compare a b) a b (compare-Means a b ua ub)

Within-merge : (a b c : VectorClock) → IsClock b → Within (merge a b) c ↔ (Within a c × Within b c)
Within-merge a b c ub = (
  λ w. (λ n. omega (arith, w n, get-merge n a b ub), λ n. omega (arith, w n, get-merge n a b ub)),
  λ p n. omega (arith, p.0 n, p.1 n, get-merge n a b ub),
)

bool_iff :
    (x y z : Bool)
    → ((x ≡ true) → (y ≡ true) × (z ≡ true))
    → ((y ≡ true) → (z ≡ true) → (x ≡ true))
    → x ≡ (y && z)
bool_iff true y z f g = ground (arith, f refl)
bool_iff false true true f g = cc (g refl refl)
bool_iff false true false f g = refl
bool_iff false false z f g = refl

-- A clock dominates a merged clock exactly when it dominates both parts: `merge` is the least
-- upper bound of the order that `dominates` tests.
pub dominates-merge :
    (a b c : VectorClock)
    → IsClock a
    → IsClock b
    → IsClock c
    → dominates c (merge a b) ≡ (dominates c a && dominates c b)
dominates-merge a b c ua ub uc =
    let merged = dominates_iff c (merge a b) uc (merge-IsClock a b ua) in
    let left = dominates_iff c a uc ua in
    let right = dominates_iff c b uc ub in
    let parts = Within-merge a b c ub in
    bool_iff _ _ _ (λ e. (left.1 ((parts.0 (merged.0 e)).0), right.1 ((parts.0 (merged.0 e)).1)))
      (λ l r. merged.1 (parts.1 (left.0 l, right.0 r)))

before_of_order :
    (r : VectorClockRelation) (a b : VectorClock)
    → Means r a b
    → Within a b
    → Exceeds b a
    → r ≡ before
before_of_order before a b m w x = refl
before_of_order after a b m w x = absurd (not_both b a m.0 x)
before_of_order concurrent a b m w x = absurd (not_both a b w m.0)
before_of_order equal a b m w x = absurd (not_both b a m.1 x)

-- A node that counts an event of its own moves the clock strictly forward, as long as its counter
-- has not reached the largest `u64`.
compare-increment :
    (node_id : String) (c : VectorClock)
    → IsClock c
    → get node_id c < u64_max
    → compare c (increment node_id c) ≡ before
compare-increment node_id c u h =
    let step = λ (k : String). get-increment node_id k c h in
    before_of_order _ c (increment node_id c)
      (compare-Means c (increment node_id c) u (increment-IsClock node_id c u))
      (λ k. ground (arith, string_eq.beq_iff node_id k, step k))
      (node_id, ground (arith, string_eq.beq_iff node_id node_id, step node_id))
