-- ===== src/Message/Rebuild.antt =====
-- A clock that is taken apart into a map and counted up again reads as before.
use causalclock.Base.{
  ℕ, zero, suc, ◌+◌, ◌^◌, ◌<◌, ℤ, pos, negsuc, Str, str_eq, str_eq_iff, str_eq_refl, some, List, [],
  ◌∷◌, value_at, Distinct, if◌then◌else◌, ◌≡◌, refl, sym, ◌∙◌, arith,
}
use causalclock.Clock.Types.{Clock, NodeId}
use causalclock.Counter.{join_absorb, int64, inc_int64, join}
use causalclock.Counters.Defs.{new, increment, get, merge}
use causalclock.Counters.Spec.{IsValid}
use causalclock.Counters.Reads.{value-tail, get-increment, get-merge}
use causalclock.Counters.Changes.{get-new, new-IsValid, increment-IsValid, merge-IsValid}
use causalclock.Message.Types.{ok}
use causalclock.Message.Clocks.{increments, rebuild_loop}

-- A counter that an int64 holds and that is not negative.
abbrev pub IsCount : ℤ → Type 0
IsCount (pos n) = n < 2 ^ 63
IsCount (negsuc n) = ⊥

abbrev pub AllCounts : List (Str × ℤ) → Type 0
AllCounts [] = Unit
AllCounts ((k, v) ∷ m) = IsCount v × AllCounts m

inc_count : (a : ℕ) → a + 1 < 2 ^ 63 → inc_int64 (pos a) ≡ pos (a + 1)
unfolding inc_int64
inc_count a h = ground arith

-- One increment of a counter below the largest.
step_count :
    (c : Clock) (node : NodeId) (a : ℕ)
    → IsValid int64 (some c)
    → get int64 (some c) node ≡ pos a
    → a + 1 < 2 ^ 63
    → IsValid int64 (some (increment int64 c node).0)
      × ((k : Str)
          → get int64 (some (increment int64 c node).0) k
            ≡ (if str_eq node k then pos (a + 1) else get int64 (some c) k))
step_count c node a h e small = (
  increment-IsValid int64 c node h (rw e (ground arith)) (rw e (ground arith)),
  λ k. ground (arith, (get-increment int64 c node k).0, e, inc_count a small),
)

-- Counting up from zero in steps of one.
increments_count :
    (n a : ℕ) (c : Clock) (node : NodeId)
    → IsValid int64 (some c)
    → get int64 (some c) node ≡ pos a
    → a + n < 2 ^ 63
    → IsValid int64 (some (increments n c node))
      × ((k : Str)
          → get int64 (some (increments n c node)) k
            ≡ (if str_eq node k then pos (a + n) else get int64 (some c) k))
unfolding increments
increments_count zero a c node h e small = (h, λ k. ground (arith, e, str_eq_iff node k))
increments_count (suc n) a c node h e small =
    let (h', reads) = step_count c node a h e (omega arith) in
    let (h'', rest) =
      increments_count n (a + 1) (increment int64 c node).0 node h'
        (reads node ∙ rw (str_eq_refl node)) (omega arith) in
    (h'', λ k. ground (arith, rest k, reads k, str_eq_iff node k))

pub join_zero : (v : ℤ) → IsCount v → join int64 (pos 0) v ≡ v
unfolding join
join_zero (pos n) h = ground arith
join_zero (negsuc n) h = elim h [ ]

-- The temporary clock of one entry.
temp_clock :
    (n : ℕ) (node : NodeId)
    → n < 2 ^ 63
    → IsValid int64 (some (increments n (new int64 []) node))
      × ((k : Str)
          → get int64 (some (increments n (new int64 []) node)) k
            ≡ (if str_eq node k then pos n else pos 0))
temp_clock n node small =
    let (h, reads) =
      increments_count n 0 (new int64 []) node (new-IsValid int64 []) (get-new int64 [] node)
        (omega arith) in
    (h, λ k. ground (arith, reads k, get-new int64 [] k))

-- The loop leaves at each node the larger of what the clock and the map hold.
pub rebuild_loop-reads :
    (m : List (Str × ℤ)) (clk : Clock)
    → IsValid int64 (some clk)
    → Distinct m
    → AllCounts m
    → (clk' : Clock) × (rebuild_loop clk m ≡ ok clk')
      × IsValid int64 (some clk')
      × ((k : Str)
          → get int64 (some clk') k ≡ join int64 (get int64 (some clk) k) (value_at (pos 0) k m))
unfolding rebuild_loop value_at
rebuild_loop-reads [] clk h d a =
    (clk, refl, h, λ k. sym (join_absorb int64 (get int64 (some clk) k) (pos 0) (h.nonneg k)))
rebuild_loop-reads ((node, negsuc n) ∷ r) clk h d a = elim a.0 [ ]
rebuild_loop-reads ((node, pos n) ∷ r) clk h d a =
    let temp = increments n (new int64 []) node in
    let (ht, reads) = temp_clock n node a.0 in
    let hm = merge-IsValid int64 clk (some temp) h ht in
    let (clk', done, h', rest) = rebuild_loop-reads r (merge int64 clk (some temp)) hm d.1 a.1 in
    (
      clk',
      done,
      h',
      λ k. ground (
        arith,
        rest k,
        get-merge int64 clk (some temp) k h ht,
        reads k,
        (value-tail int64 node k (pos n) r d.0).0,
        (value-tail int64 node k (pos n) r d.0).1,
        str_eq_iff node k,
        join_absorb int64 (get int64 (some clk) k) (pos 0) (h.nonneg k),
        join_absorb int64 (join int64 (get int64 (some clk) k) (pos n)) (pos 0),
        hm.nonneg k,
      ),
    )
