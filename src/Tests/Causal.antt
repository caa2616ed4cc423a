-- ===== src/Tests/Causal.antt =====
-- Two nodes and a message: `a` acts, `b` receives what `a` sent, and `c` acts on its own.
use causalclock.Base.{
  ℕ, str_eq, value_at, lookup, ℤ, none, insert, Str, some, [], ◌∷◌, ◌≡◌, ◌≢◌, ◌↔◌, refl, arith,
}
use causalclock.Causality.{
  World, HappensBefore, Run, initial, act, receive, started, acted, received,
}
use causalclock.Causality.Exact.{compare-HappensBefore, compare-concurrent}
use causalclock.Counter.{int64, inc_int64}
use causalclock.Counters.Compare.{compare}
use causalclock.Counters.Comparison.{before_cmp, concurrent_cmp}
use causalclock.Counters.Defs.{get, get, Counters, copy, increment, merge, new}
use causalclock.Counters.Events.{CanGrow}
use causalclock.Tests.Data.{node_a, node_b}

abbrev node_c : Str
node_c = b'c' ∷ []

abbrev sent : World ℤ
sent = act int64 (initial int64) node_a

abbrev stamp_a : Counters ℤ
stamp_a = copy int64 (some (increment int64 (new int64 []) node_a).0)

abbrev arrived : World ℤ
arrived = receive int64 sent node_b 0 stamp_a

abbrev stamp_b : Counters ℤ
stamp_b = copy int64 (some (increment int64 (merge int64 (new int64 []) (some stamp_a)) node_b).0)

abbrev apart : World ℤ
apart = act int64 arrived node_c

abbrev stamp_c : Counters ℤ
stamp_c = copy int64 (some (increment int64 (new int64 []) node_c).0)

program : Unit {0}
unfolding new copy increment merge insert lookup value_at get str_eq compare inc_int64
program = tt

grow_new_a : CanGrow int64 (new int64 []) node_a
unfolding program
grow_new_a = record { ranged = refl; below_top = ground arith }

grow_new_c : CanGrow int64 (new int64 []) node_c
unfolding program
grow_new_c = record { ranged = refl; below_top = ground arith }

grow_merged_b : CanGrow int64 (merge int64 (new int64 []) (some stamp_a)) node_b
unfolding program
grow_merged_b = record { ranged = refl; below_top = ground arith }

apart-Run : Run int64 apart
unfolding program
apart-Run =
    acted node_c (received node_b 0 (acted node_a started grow_new_a) refl grow_merged_b) grow_new_c

compare-HappensBefore_example :
    (compare int64 (some stamp_a) (some stamp_b) ≡ before_cmp) ↔ HappensBefore apart.events 0 1
unfolding program
compare-HappensBefore_example =
    compare-HappensBefore int64 apart 0 1 (record { node = node_a; cause = none; stamp = stamp_a })
      (record { node = node_b; cause = some 0; stamp = stamp_b }) apart-Run refl refl

compare-concurrent_example :
    (compare int64 (some stamp_b) (some stamp_c) ≡ concurrent_cmp)
    ↔ ((◌≢◌ {A = ℕ} 1 2) × (¬ HappensBefore apart.events 1 2) × (¬ HappensBefore apart.events 2 1))
unfolding program
compare-concurrent_example =
    compare-concurrent int64 apart 1 2 (record { node = node_b; cause = some 0; stamp = stamp_b })
      (record { node = node_c; cause = none; stamp = stamp_c }) apart-Run refl refl

b_after_a : compare int64 (some stamp_a) (some stamp_b) ≡ before_cmp
unfolding program
b_after_a = refl

c_alone : compare int64 (some stamp_b) (some stamp_c) ≡ concurrent_cmp
unfolding program
c_alone = refl
