-- ===== src/Message/Json/Ends.antt =====
-- The text behind the struct.
use causalclock.Base.{
  ℕ, zero, suc, ℤ, pos, negsuc, Str, Option, none, some, List, [], ◌∷◌, ◌++◌, Bool, true, false,
  ◌≡◌, refl, ap,
}
use mathlib.Core.List.{append_assoc}
use causalclock.Base.Decimal.{print_ℤ}
use causalclock.Base.Base64
use causalclock.Base.Quote.{quoted}
use causalclock.Base.Json.{sort_entries, members_onto, member_onto, map_onto}
use causalclock.Message.Serializer.{Helper}
use causalclock.Message.Json.{
  timestamp_key, metadata_key, clock_onto, payload_onto, timestamp_onto, metadata_onto, helper_onto,
}

module _ {V : Type 0} (print_value : V → Str) where
  member_onto-append :
      (e : Str × V) (t s : Str)
      → member_onto print_value e t ++ s ≡ member_onto print_value e (t ++ s)
  member_onto-append (k, v) t s = rw (append_assoc, append_assoc) refl

  members_onto-append :
      (m : List (Str × V)) (t s : Str)
      → members_onto print_value m t ++ s ≡ members_onto print_value m (t ++ s)
  unfolding members_onto
  members_onto-append [] t s = refl
  members_onto-append (e ∷ m) t s =
      rw (member_onto-append e (members_onto print_value m t) s, members_onto-append m t s) refl

  map_onto-append :
      (m : List (Str × V)) (t s : Str)
      → map_onto print_value m t ++ s ≡ map_onto print_value m (t ++ s)
  unfolding map_onto
  map_onto-append [] t s = refl
  map_onto-append (e ∷ m) t s =
      rw (member_onto-append e (members_onto print_value m t) s, members_onto-append m t s) refl

clock_onto-append :
    (m : Option (List (Str × ℤ))) (t s : Str) → clock_onto m t ++ s ≡ clock_onto m (t ++ s)
unfolding clock_onto
clock_onto-append none t s = refl
clock_onto-append (some m) t s = map_onto-append print_ℤ (sort_entries m) t s

payload_onto-append :
    (is_nil : Bool) (bs : List ℕ) (t s : Str)
    → payload_onto is_nil bs t ++ s ≡ payload_onto is_nil bs (t ++ s)
unfolding payload_onto
payload_onto-append true [] t s = refl
payload_onto-append false [] t s = append_assoc (quoted []) t s
payload_onto-append is_nil (b ∷ bs) t s = append_assoc (quoted (Base64.encode (b ∷ bs))) t s

timestamp_onto-append : (v : ℤ) (t s : Str) → timestamp_onto v t ++ s ≡ timestamp_onto v (t ++ s)
unfolding timestamp_onto
timestamp_onto-append (pos zero) t s = refl
timestamp_onto-append (pos (suc n)) t s =
    ap (λ x. timestamp_key ++ x) (append_assoc (print_ℤ (pos (suc n))) t s)
timestamp_onto-append (negsuc n) t s =
    ap (λ x. timestamp_key ++ x) (append_assoc (print_ℤ (negsuc n)) t s)

metadata_onto-append :
    (m : Option (List (Str × Str))) (t s : Str) → metadata_onto m t ++ s ≡ metadata_onto m (t ++ s)
unfolding metadata_onto
metadata_onto-append none t s = refl
metadata_onto-append (some []) t s = refl
metadata_onto-append (some (e ∷ m)) t s =
    ap (λ x. metadata_key ++ x) (map_onto-append quoted (sort_entries (e ∷ m)) t s)

pub helper_onto-append :
    (nil_payload : Bool) (h : Helper) (t s : Str)
    → helper_onto nil_payload h t ++ s ≡ helper_onto nil_payload h (t ++ s)
unfolding helper_onto
helper_onto-append nil_payload h t s = simp (
  append_assoc, clock_onto-append, payload_onto-append, timestamp_onto-append, metadata_onto-append,
)
