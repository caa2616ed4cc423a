-- ===== src/Base/Time.antt =====
-- `time.Time` of the standard library, as far as the program uses it: an instant with
-- nanoseconds, its zero value, and whole seconds since the Unix epoch.
use Prim.Native.Nat.{ℕ}
use mathlib.Core.Bool.{Bool, false, ◌&&◌}
use causalclock.Base.Tests.{◌==◌}
use causalclock.Base.Int.{ℤ, pos, negsuc}

pub record Time : Type 0 where
  pub sec : ℤ
  pub nsec : ℕ

-- January 1 of year 1, which is -62135596800 seconds from the epoch.
abbrev pub zero_time : Time
zero_time = record { sec = negsuc 62135596799; nsec = 0 }

abbrev pub is_zero_sec : ℤ → Bool
is_zero_sec (pos n) = false
is_zero_sec (negsuc n) = n == 62135596799

-- `t.IsZero()`
unfoldable pub is_zero_time : Time → Bool
is_zero_time t = is_zero_sec t.sec && (t.nsec == 0)

-- `time.Unix(s, 0)`
abbrev pub unix_time : ℤ → Time
unix_time s = record { sec = s; nsec = 0 }
