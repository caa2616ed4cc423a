-- ===== src/Base/Json.antt =====
-- Numbers and maps with string keys in JSON, as `encoding/json` writes and reads them. The writers
-- put a value in front of the text that follows it. The readers return the value that a text
-- starts with and what stands behind it, and read what stands without spaces only.
use causalclock.Base.Tests.{◌==◌, if◌then◌else◌}
use causalclock.Base.Lists.{length}
use causalclock.Base.Strings.{Str, str_ltb}
use causalclock.Base.Entries.{insert}
use causalclock.Base.Int.{ℤ}
use causalclock.Base.Decimal.{print_ℤ}
use causalclock.Base.Scan.{scan_int}
use causalclock.Base.Quote.{quoted, read_string}
use Prim.Native.Nat.{ℕ, zero, suc}
use mathlib.Core.Option.{Option, none, some}
use mathlib.Core.List.{List, [], ◌∷◌, ◌++◌}
pub mod Laws
pub mod Sorting
pub mod Canonical

infixl 5 ◌>>=◌
abbrev pub ◌>>=◌ {ℓ κ} : {A : Type ℓ} {B : Type κ} → Option A → (A → Option B) → Option B
none >>= f = none
some a >>= f = f a

-- What stands behind a text that is expected.
unfoldable pub strip : Str → Str → Option Str
strip [] s = some s
strip (a ∷ p) [] = none
strip (a ∷ p) (b ∷ s) = let rest = strip p s in if a == b then rest else none

-- A number as `%d` prints it.
unfoldable pub read_number : Str → Option (ℤ × Str)
unfolding strip scan_int print_ℤ
read_number s = do v ← scan_int s; rest ← strip (print_ℤ v) s; some (v, rest)

module _ {V : Type 0} where
  -- The entries of a map in the order of their keys.
  unfoldable pub place : Str → V → List (Str × V) → List (Str × V)
  place k v [] = (k, v) ∷ []
  place k v ((j, w) ∷ m) = if str_ltb k j then (k, v) ∷ (j, w) ∷ m else (j, w) ∷ place k v m

  unfoldable pub sort_entries : List (Str × V) → List (Str × V)
  unfolding place
  sort_entries [] = []
  sort_entries ((k, v) ∷ m) = place k v (sort_entries m)

  -- The map of the entries that are read: of two with one key the later one counts.
  unfoldable pub insert_all : List (Str × V) → List (Str × V) → List (Str × V)
  insert_all out [] = out
  insert_all out ((k, v) ∷ m) = insert_all (insert k v out) m

module _ {V : Type 0} (print_value : V → Str) where
  abbrev pub member_onto : Str × V → Str → Str
  member_onto (k, v) tail = quoted k ++ (b':' ∷ (print_value v ++ tail))

  -- The entries behind the first one.
  unfoldable pub members_onto : List (Str × V) → Str → Str
  members_onto [] tail = b'}' ∷ tail
  members_onto (e ∷ m) tail = b',' ∷ member_onto e (members_onto m tail)

  unfoldable pub map_onto : List (Str × V) → Str → Str
  unfolding members_onto
  map_onto [] tail = b'{' ∷ b'}' ∷ tail
  map_onto (e ∷ m) tail = b'{' ∷ member_onto e (members_onto m tail)

module _ {V : Type 0} (read_value : Str → Option (V × Str)) where
  unfoldable pub read_member : Str → Option ((Str × V) × Str)
  unfolding read_string strip
  read_member s = do
    (k, s1) ← read_string s
    s2 ← strip (b':' ∷ []) s1
    (v, s3) ← read_value s2
    some ((k, v), s3)

  -- The entries behind the first one; the fuel bounds their number.
  unfoldable pub read_members : ℕ → Str → Option (List (Str × V) × Str)
  unfolding read_member
  read_members fuel [] = none
  read_members zero (b ∷ s) = if b == b'}' then some ([], s) else none
  read_members (suc fuel) (b ∷ s) =
      let more = (do (e, s1) ← read_member s; (m, s2) ← read_members fuel s1; some (e ∷ m, s2)) in
      if b == b'}' then some ([], s) else if b == b',' then more else none

  unfoldable pub read_map : Str → Option (List (Str × V) × Str)
  unfolding read_members insert_all
  read_map s = do
    s1 ← strip (b'{' ∷ []) s
    elim (strip (b'}' ∷ []) s1) [
      | some s2 ↦ some ([], s2)
      | none ↦ do
        (e, s2) ← read_member s1
        (m, s3) ← read_members (length s2) s2
        some (insert_all [] (e ∷ m), s3)
    ]
