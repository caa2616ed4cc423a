-- ===== src/Message/Zeros.antt =====
-- Nodes at zero on their way through the serialized form.
use causalclock.Base.{
  ℤ, pos, negsuc, Str, str_eq, some, List, [], ◌∷◌, insert, ◌≡◌, refl, Bool-cases, inl, inr,
}
use causalclock.Clock.Types.{NodeId}
use causalclock.Counter.{int64}
use causalclock.Counters.Changes.{get-new}
use causalclock.Counters.Defs.{new, get, merge}
use causalclock.Counters.Listing.{nodes}
use causalclock.Message.Types.{ok}
use causalclock.Message.Clocks.{clock_data_loop, clock_data, rebuild_loop, rebuild}

abbrev AllZeros : List (Str × ℤ) → Type 0
AllZeros [] = Unit
AllZeros ((k, v) ∷ m) = (v ≡ pos 0) × AllZeros m

insert-AllZeros :
    (k : Str) (m : List (Str × ℤ)) (v : ℤ) → v ≡ pos 0 → AllZeros m → AllZeros (insert k v m)
unfolding insert
insert-AllZeros k [] v h a = (h, tt)
insert-AllZeros k ((j, w) ∷ m) v h a = elim (Bool-cases (str_eq j k)) [
  | inl e ↦ rw e (h, a.1)
  | inr e ↦ rw e (a.0, insert-AllZeros k m v h a.1)
]

clock_data_loop-AllZeros :
    (ns : List Str) (out : List (Str × ℤ)) (ks : List NodeId)
    → AllZeros out
    → AllZeros (clock_data_loop (new int64 ns) out ks)
unfolding clock_data_loop
clock_data_loop-AllZeros ns out [] a = a
clock_data_loop-AllZeros ns out (k ∷ ks) a =
    clock_data_loop-AllZeros ns (insert k (get int64 (some (new int64 ns)) k) out) ks
      (insert-AllZeros k out (get int64 (some (new int64 ns)) k) (get-new int64 ns k) a)

rebuild_loop-AllZeros :
    (m : List (Str × ℤ)) → AllZeros m → rebuild_loop (new int64 []) m ≡ ok (new int64 [])
unfolding rebuild_loop new merge
rebuild_loop-AllZeros [] a = refl
rebuild_loop-AllZeros ((k, pos n) ∷ m) a =
    let e : n ≡ 0 = cc (a.0) in rw e (rebuild_loop-AllZeros m a.1)
rebuild_loop-AllZeros ((k, negsuc n) ∷ m) a = cc (a.0)

-- A clock made by the constructor for any list of nodes, all at zero, comes back as the clock
-- of no nodes.
pub rebuild-new :
    (ns : List NodeId) → rebuild (clock_data (some (new int64 ns))) ≡ ok (new int64 [])
unfolding rebuild clock_data
rebuild-new ns =
    rebuild_loop-AllZeros (clock_data (some (new int64 ns)))
      (clock_data_loop-AllZeros ns [] (nodes (some (new int64 ns))) tt)
