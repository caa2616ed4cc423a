-- ===== src/Base/Bytes.antt =====
-- Big-endian numbers of a fixed number of bytes, `binary.BigEndian` of the standard library.
use Prim.Native.Nat.{ℕ, zero, suc, ◌+◌, ◌*◌, ◌/◌, ◌%◌, ◌^◌, ◌<◌}
use mathlib.Core.Path.{◌≡◌, refl, ap}
use mathlib.Core.List.{List, [], ◌∷◌}
use native.Mathlib.Omega.{arith}
use causalclock.Base.Lists.{length}

abbrev pub IsByte : ℕ → Type 0
IsByte b = b < 256

-- `PutUint16/32/64` by the number of bytes.
unfoldable pub put_be : ℕ → ℕ → List ℕ
put_be zero v = []
put_be (suc k) v = v / 256 ^ k % 256 ∷ put_be k v

-- `Uint16/32/64`: the bytes behind the value `acc` of those read.
unfoldable pub be_from : ℕ → List ℕ → ℕ
be_from acc [] = acc
be_from acc (b ∷ bs) = be_from (acc * 256 + b) bs

abbrev pub be : List ℕ → ℕ
be bs = be_from 0 bs

pub length-put_be : (k v : ℕ) → length (put_be k v) ≡ k
unfolding put_be
length-put_be zero v = refl
length-put_be (suc k) v = ap suc (length-put_be k v)

-- Four bytes hold a number below 2 ^ 32, and eight one below 2 ^ 64.
pub be-put_be4 : (v : ℕ) → v < 2 ^ 32 → be (put_be 4 v) ≡ v
unfolding put_be be_from
be-put_be4 v h = omega arith

pub be-put_be8 : (v : ℕ) → v < 2 ^ 64 → be (put_be 8 v) ≡ v
unfolding put_be be_from
be-put_be8 v h = omega arith
