-- ===== src/Base/Json/Laws.antt =====
-- Reading what was written in JSON.
use Prim.Native.Nat.{ℕ, zero, suc, ◌<◌, ◌≤◌}
use mathlib.Core.Path.{◌≡◌, refl, sym, ◌∙◌}
use mathlib.Core.Bool.{true, false}
use mathlib.Core.Option.{Option, none, some}
use mathlib.Core.List.{List, [], ◌∷◌, ◌++◌, append_assoc, append-nil}
use native.Mathlib.Omega.{arith}
use causalclock.Base.Lists.{length, length-append, All}
use causalclock.Base.Strings.{Str, str_eq, str_eq_iff}
use causalclock.Base.Entries.{insert, lookup, Distinct}
use causalclock.Base.Int.{ℤ, is_int64}
use causalclock.Base.Decimal.{print_ℤ}
use causalclock.Base.Scan.{Stops, scan_int-print_ℤ}
use causalclock.Base.Quote.{quoted, valid_from}
use causalclock.Base.Quote.Laws.{read_string-quoted}
use causalclock.Base.Json.{
  strip, read_number, insert_all, member_onto, members_onto, map_onto, read_member, read_members,
  read_map,
}

pub strip-append : (p s : Str) → strip p (p ++ s) ≡ some s
unfolding strip
strip-append [] s = refl
strip-append (a ∷ p) s = ground (arith, strip-append p s)

-- A string ends no map.
strip-quoted : (k t : Str) → strip (b'}' ∷ []) (quoted k ++ t) ≡ none
unfolding strip quoted
strip-quoted k t = refl

pub read_number-print_ℤ :
    (v : ℤ) (tail : Str)
    → is_int64 v ≡ true
    → Stops tail
    → read_number (print_ℤ v ++ tail) ≡ some (v, tail)
unfolding read_number
read_number-print_ℤ v tail r stop =
    rw (scan_int-print_ℤ v tail r stop, strip-append (print_ℤ v) tail) refl

module _ {V : Type 0} where
  insert_end :
      (k : Str) (v : V) (m : List (Str × V)) → lookup k m ≡ none → insert k v m ≡ m ++ ((k, v) ∷ [])
  unfolding lookup insert
  insert_end k v [] h = refl
  insert_end k v ((j, w) ∷ m) h = ground (arith, insert_end k v m)

  lookup_of_append :
      (k : Str) (v : V) (j : Str) (a m : List (Str × V))
      → lookup j (a ++ ((k, v) ∷ m)) ≡ none
      → str_eq k j ≡ false
  unfolding lookup
  lookup_of_append k v j [] m h = ground arith
  lookup_of_append k v j ((i, w) ∷ a) m h = ground (arith, lookup_of_append k v j a m)

  -- Distinct keys stand behind others.
  lookup_of_Distinct :
      (k : Str) (v : V) (a m : List (Str × V)) → Distinct (a ++ ((k, v) ∷ m)) → lookup k a ≡ none
  unfolding lookup
  lookup_of_Distinct k v [] m d = refl
  lookup_of_Distinct k v ((j, w) ∷ a) m d = ground (
    arith,
    lookup_of_append k v j a m d.0,
    str_eq_iff k j,
    str_eq_iff j k,
    lookup_of_Distinct k v a m d.1,
  )

  -- Entries with distinct keys make the map of them.
  pub insert_all-Distinct :
      (out m : List (Str × V)) → Distinct (out ++ m) → insert_all out m ≡ out ++ m
  unfolding insert_all
  insert_all-Distinct out [] d = sym (append-nil out)
  insert_all-Distinct out ((k, v) ∷ m) d =
      let put : insert k v out ≡ out ++ ((k, v) ∷ []) =
        insert_end k v out (lookup_of_Distinct k v out m d) in
      let same : (out ++ ((k, v) ∷ [])) ++ m ≡ out ++ ((k, v) ∷ m) =
        append_assoc out ((k, v) ∷ []) m in
      rw put (insert_all-Distinct (out ++ ((k, v) ∷ [])) m (rw same d) ∙ same)

module _ {V : Type 0} (print_value : V → Str) (read_value : Str → Option (V × Str)) where
  -- An entry that is read back, whatever follows that is no digit.
  pub record IsReadable (e : Str × V) : Type 0 where
    pub text : valid_from 0 e.0 ≡ true
    pub reads : (tail : Str) → Stops tail → read_value (print_value e.1 ++ tail) ≡ some (e.1, tail)

  Stops-members_onto : (m : List (Str × V)) (tail : Str) → Stops (members_onto print_value m tail)
  unfolding members_onto
  Stops-members_onto [] tail = refl
  Stops-members_onto (e ∷ m) tail = refl

  read_member-member_onto :
      (e : Str × V) (tail : Str)
      → IsReadable e
      → Stops tail
      → read_member read_value (member_onto print_value e tail) ≡ some (e, tail)
  unfolding read_member
  read_member-member_onto (k, v) tail h stop =
      rw (read_string-quoted k (b':' ∷ (print_value v ++ tail)) h.text, h.reads tail stop) refl

  length-members_onto :
      (m : List (Str × V)) (tail : Str) → length m < length (members_onto print_value m tail)
  unfolding members_onto
  length-members_onto [] tail = omega arith
  length-members_onto ((k, v) ∷ m) tail = omega (
    arith,
    length-append (quoted k) (b':' ∷ (print_value v ++ members_onto print_value m tail)),
    length-append (print_value v) (members_onto print_value m tail),
    length-members_onto m tail,
  )

  read_members-members_onto :
      (fuel : ℕ) (m : List (Str × V)) (tail : Str)
      → length m ≤ fuel
      → All IsReadable m
      → read_members read_value fuel (members_onto print_value m tail) ≡ some (m, tail)
  unfolding read_members members_onto
  read_members-members_onto zero [] tail h a = refl
  read_members-members_onto zero (e ∷ m) tail h a = absurd (omega arith)
  read_members-members_onto (suc fuel) [] tail h a = refl
  read_members-members_onto (suc fuel) (e ∷ m) tail h a =
      rw
        (
          read_member-member_onto e (members_onto print_value m tail) a.0
              (Stops-members_onto m tail),
          read_members-members_onto fuel m tail (omega arith) a.1,
        )
        refl

  -- A map with distinct keys that is written is read back.
  pub read_map-map_onto :
      (m : List (Str × V)) (tail : Str)
      → Distinct m
      → All IsReadable m
      → read_map read_value (map_onto print_value m tail) ≡ some (m, tail)
  unfolding read_map map_onto
  read_map-map_onto [] tail d a = refl
  read_map-map_onto (e ∷ m) tail d a =
      let rest = members_onto print_value m tail in
      ground (
        arith,
        strip-quoted e.0 (b':' ∷ (print_value e.1 ++ rest)),
        read_member-member_onto e rest a.0 (Stops-members_onto m tail),
        read_members-members_onto (length rest) m tail (omega (arith, length-members_onto m tail))
            a.1,
        insert_all-Distinct [] (e ∷ m) d,
      )
