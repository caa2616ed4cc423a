-- ===== src/Tests/Clocks.antt =====
-- Clocks and version vectors.
use causalclock.Base.{
  pos, str_ltb, true, some, [], ◌∷◌, lookup, insert, value_at, Distinct, ◌≡◌, ◌≢◌, ◌↔◌, refl, arith,
  str_eq, str_eq_iff,
}
use mathlib.Core.Quot
use causalclock.Counters.Abstract.{Abstract, nothing, merged, merged_semilattice}
use causalclock.Base.Decimal.{print_ℤ}
use causalclock.Counter.{int64, join}
use causalclock.Counters.Comparison.{concurrent_cmp, before_cmp}
use causalclock.Counters.Compare.{compare, ancestor}
use causalclock.Counters.Built.{Built, by_new, by_increment, by_set, by_merge, Built-IsValid}
use causalclock.Counters.Defs.{new, set, get, increment, merge, copy, entries_of}
use causalclock.Counters.Determinism.Views
use causalclock.Counters.Determinism.Views.{Same}
use causalclock.Counters.Events.{CanGrow}
use causalclock.Counters.Lattice
use causalclock.Counters.Listing.{nodes, string, is_empty}
use causalclock.Counters.Order.Sound.{compare-eq_iff}
use causalclock.Counters.Reads
use causalclock.Counters.Spec.{IsValid, Related}
use causalclock.Version.Vector
use causalclock.Version.Laws as VersionLaws
use causalclock.Version.Laws.{Ordered}
use causalclock.Tests.Data.{
  node_a, node_b, clock_a, clock_b, clock_ab, clock_ba, clock_a3b, IsValid-a, IsValid-b, IsValid-ab,
  IsValid-ba, IsValid-a3b, vector_a, vector_ab,
}

program : Unit {0}
unfolding new set get increment merge copy compare lookup insert value_at nodes string is_empty
    str_eq str_ltb print_ℤ ancestor
program = tt

-- The clocks compare and print as the methods of Go do.
string_ab :
    string int64 (some clock_ba)
    ≡ b'{' ∷ b'a' ∷ b':' ∷ b'2' ∷ b',' ∷ b' ' ∷ b'b' ∷ b':' ∷ b'1' ∷ b'}' ∷ []
unfolding program
string_ab = refl

a_concurrent_b : compare int64 (some clock_a) (some clock_b) ≡ concurrent_cmp
unfolding program
a_concurrent_b = refl

a_before_ab : compare int64 (some clock_a) (some clock_ab) ≡ before_cmp
unfolding program
a_before_ab = refl

ab_before_a3b : compare int64 (some clock_ab) (some clock_a3b) ≡ before_cmp
unfolding program
ab_before_a3b = refl

compare-eq_iff_example :
    (compare int64 (some clock_a) (some clock_b) ≡ concurrent_cmp)
    ↔ Related int64 (some clock_a) (some clock_b) concurrent_cmp
compare-eq_iff_example =
    compare-eq_iff int64 (some clock_a) (some clock_b) concurrent_cmp IsValid-a IsValid-b

get-merge_example :
    get int64 (some (merge int64 clock_a (some clock_b))) node_b
    ≡ join int64 (get int64 (some clock_a) node_b) (get int64 (some clock_b) node_b)
get-merge_example = Reads.get-merge int64 clock_a (some clock_b) node_b IsValid-a IsValid-b

merge_lub_example :
    (ancestor int64 (some (merge int64 clock_a (some clock_b))) (some clock_a3b) ≡ true) ↔ (
      (ancestor int64 (some clock_a) (some clock_a3b) ≡ true)
      × (ancestor int64 (some clock_b) (some clock_a3b) ≡ true))
merge_lub_example =
    Lattice.merge_lub int64 clock_a (some clock_b) (some clock_a3b) IsValid-a IsValid-b IsValid-a3b

grow_a : CanGrow int64 clock_a node_a
unfolding program
grow_a = record { ranged = refl; below_top = ground arith }

grow_b : CanGrow int64 clock_a node_b
unfolding program
grow_b = record { ranged = refl; below_top = ground arith }

a_ne_b : node_a ≢ node_b
unfolding program
a_ne_b = ground (arith, str_eq_iff node_a node_b)

-- The clocks above without the order of their entries: `map_ab` is {a:2, b:1} either way.
abbrev map_a : Abstract int64
map_a = Quot.mk (clock_a, IsValid-a)

abbrev map_b : Abstract int64
map_b = Quot.mk (clock_b, IsValid-b)

abbrev map_ab : Abstract int64
map_ab = Quot.mk (clock_ab, IsValid-ab)

merged_semilattice_example :
    (merged int64 map_a map_b ≡ merged int64 map_b map_a)
    × (merged int64 (merged int64 map_a map_b) map_ab
        ≡ merged int64 map_a (merged int64 map_b map_ab))
    × (merged int64 map_a map_a ≡ map_a)
    × (merged int64 map_a (Quot.mk (nothing int64)) ≡ map_a)
merged_semilattice_example = merged_semilattice int64 map_a map_b map_ab

Built-ab : Built int64 (merge int64 (increment int64 clock_a node_a).0 (some clock_b))
Built-ab =
    by_merge
      (by_increment node_a (by_set node_a (pos 2) (by_new []) refl) grow_a.ranged grow_a.below_top)
      (by_set node_b (pos 1) (by_new []) refl)

Built-IsValid_example :
    IsValid int64 (some (merge int64 (increment int64 clock_a node_a).0 (some clock_b)))
Built-IsValid_example =
    Built-IsValid int64 (merge int64 (increment int64 clock_a node_a).0 (some clock_b)) Built-ab

Same-ab : Same (some clock_ab) (some clock_ba)
unfolding program
Same-ab k = ground (arith, str_eq_iff node_a k, str_eq_iff node_b k, a_ne_b)

string_deterministic_example : string int64 (some clock_ab) ≡ string int64 (some clock_ba)
string_deterministic_example =
    Views.string_deterministic int64 (some clock_ab) (some clock_ba) IsValid-ab.distinct
      IsValid-ba.distinct Same-ab

Distinct-a : Distinct (entries_of (some vector_a))
unfolding program
Distinct-a = (refl, tt)

Distinct-ab : Distinct (entries_of (some vector_ab))
unfolding program
Distinct-ab = (refl, (refl, tt))

compare-Ordered_example :
    (Vector.compare (some vector_a) (some vector_ab) ≡ before_cmp)
    ↔ Ordered (some vector_a) (some vector_ab) before_cmp
compare-Ordered_example =
    VersionLaws.compare-Ordered (some vector_a) (some vector_ab) before_cmp Distinct-a Distinct-ab
