-- ===== src/Clock/Parse/RoundTrip.antt =====
-- `ParseClock` reads back what `String` printed.
use causalclock.Base.{
  Str, ◌<◌, List, [], ◌∷◌, ◌++◌, length, length-append, true, false, none, some, Option, All,
  lookup, value_at, lookup-insert, pos, ℤ, is_int64, Distinct, str_eq, str_eq_iff, str_eq_refl,
  keys, if◌then◌else◌, Bool-cases, inl, inr, ◌≡◌, refl, ap, sym, ◌∙◌, arith,
}
use mathlib.Core.List.{append-nil}
use causalclock.Base.Decimal.{print_ℤ}
use causalclock.Base.Text.{
  trim_space, split, has_byte, trim_space-IsTrimmed, trim_space-space, split_none, split-append,
  front_width, back_width,
}
use causalclock.Clock.Parse.{ok, parse_loop, parse_clock}
use causalclock.Clock.Types.{Clock, NodeId}
use causalclock.Counter.{int64}
use causalclock.Counters.Compare.{is_nil}
use causalclock.Counters.Defs.{new, set, get, made, entries_of}
use causalclock.Counters.Determinism.Views.{nodes-IsSorted}
use causalclock.Counters.Listing.{nodes, len, string_loop, string_nodes, string}
use causalclock.Counters.Members.{has}
use causalclock.Clock.Parse.Pairs.{
  IsPlain, text, text-IsTrimmed, text_lacks_comma, set_parts-text, parse_clock_braced,
}

-- The pairs behind the first, as the text is cut at its commas.
abbrev pairs_behind : List (NodeId × ℤ) → List NodeId → List Str
pairs_behind m [] = []
pairs_behind m (k ∷ ks) = (b' ' ∷ text k (value_at (pos 0) k m)) ∷ pairs_behind m ks

split-string_loop :
    (m : List (NodeId × ℤ)) (p : Str) (ks : List NodeId)
    → has_byte b',' p ≡ false
    → All IsPlain ks
    → split b',' (p ++ string_loop int64 m ks) ≡ p ∷ pairs_behind m ks
unfolding string_loop
split-string_loop m p [] h a = rw append-nil (split_none b',' p h)
split-string_loop m p (k ∷ ks) h a =
    let v = value_at (pos 0) k m in
    split-append b',' p (b' ' ∷ (text k v ++ string_loop int64 m ks)) h
    ∙ ap (◌∷◌ p)
        (split-string_loop m (b' ' ∷ text k v) ks (ground (arith, text_lacks_comma k v a.0)) a.1)

-- The clock that the calls of `Set` lead to.
abbrev set_all : Clock → List (NodeId × ℤ) → List NodeId → Clock
set_all c m [] = c
set_all c m (k ∷ ks) = set_all (set int64 c k (value_at (pos 0) k m)) m ks

lookup-set_all :
    (c : Clock) (m : List (NodeId × ℤ)) (ks : List NodeId) (j : NodeId)
    → lookup j (made (set_all c m ks))
      ≡ (if has j ks then some (value_at (pos 0) j m) else lookup j (made c))
unfolding set
lookup-set_all c m [] j = refl
lookup-set_all c m (k ∷ ks) j =
    let v = value_at (pos 0) k m in
    ground
      (arith, lookup-set_all (set int64 c k v) m ks j, lookup-insert k j v (made c), str_eq_iff k j)

parse_loop-pairs_behind :
    (c : Clock) (m : List (NodeId × ℤ)) (ks : List NodeId)
    → All IsPlain ks
    → ((k : NodeId) → is_int64 (value_at (pos 0) k m) ≡ true)
    → parse_loop c (pairs_behind m ks) ≡ ok (set_all c m ks)
unfolding parse_loop
parse_loop-pairs_behind c m [] a r = refl
parse_loop-pairs_behind c m (k ∷ ks) a r =
    let v = value_at (pos 0) k m in
    let trimmed : trim_space (b' ' ∷ text k v) ≡ text k v =
      trim_space-space (text k v) ∙ trim_space-IsTrimmed (text k v) (text-IsTrimmed k v a.0) in
    rw (trimmed, set_parts-text c (text k v) k v a.0 (r k))
      (parse_loop-pairs_behind (set int64 c k v) m ks a.1 r)

parse_loop-string_nodes :
    (m : List (NodeId × ℤ)) (k : NodeId) (ks : List NodeId)
    → All IsPlain (k ∷ ks)
    → ((k : NodeId) → is_int64 (value_at (pos 0) k m) ≡ true)
    → parse_loop (new int64 []) (split b',' (string_nodes int64 m (k ∷ ks)))
      ≡ ok (set_all (new int64 []) m (k ∷ ks))
unfolding parse_loop string_nodes
parse_loop-string_nodes m k ks a r =
    let v = value_at (pos 0) k m in
    rw
      (
        split-string_loop m (text k v) ks (text_lacks_comma k v a.0) a.1,
        parse_loop,
        trim_space-IsTrimmed (text k v) (text-IsTrimmed k v a.0),
        set_parts-text (new int64 []) (text k v) k v a.0 (r k),
      )
      (parse_loop-pairs_behind (set int64 (new int64 []) k v) m ks a.1 r)

string_nodes_pos :
    (m : List (NodeId × ℤ)) (k : NodeId) (ks : List NodeId)
    → 0 < length (string_nodes int64 m (k ∷ ks))
unfolding string_nodes
string_nodes_pos m k ks =
    let v = print_ℤ (value_at (pos 0) k m) in
    omega
      (arith, length-append k (b':' ∷ v), length-append (k ++ (b':' ∷ v)) (string_loop int64 m ks))

All-of_has : (ks : List NodeId) → ((k : NodeId) → has k ks ≡ true → IsPlain k) → All IsPlain ks
All-of_has [] h = tt
All-of_has (k ∷ ks) h =
    (h k (ground (arith, str_eq_refl k)), All-of_has ks (λ j e. h j (ground (arith, e))))

parse_clock-entries :
    (c : Clock) (ks : List NodeId)
    → is_nil (made c) ≡ false
    → nodes (some c) ≡ ks
    → 0 < length ks
    → All IsPlain ks
    → ((k : NodeId) → is_int64 (value_at (pos 0) k (made c)) ≡ true)
    → parse_clock (string int64 (some c)) ≡ ok (set_all (new int64 []) (made c) ks)
unfolding string
parse_clock-entries c [] full e h a r = absurd (omega arith)
parse_clock-entries c (k ∷ ks) full e h a r =
    let body = string_nodes int64 (made c) (k ∷ ks) in
    rw (full, e, parse_clock_braced body (string_nodes_pos (made c) k ks))
      (parse_loop-string_nodes (made c) k ks a r)

-- What a map binds a key to, from its keys and the values that it reads.
lookup_of_has :
    (m : List (NodeId × ℤ)) (j : NodeId)
    → lookup j m ≡ (if has j (keys m) then some (value_at (pos 0) j m) else none)
unfolding lookup value_at
lookup_of_has [] j = refl
lookup_of_has ((k, v) ∷ m) j = ground (arith, lookup_of_has m j)

length_pos : (m : List (NodeId × ℤ)) → is_nil m ≡ false → 0 < length m
length_pos [] h = absurd (cc)
length_pos (e ∷ m) h = omega arith

lookup_nil : (m : List (NodeId × ℤ)) (j : NodeId) → is_nil m ≡ true → lookup j m ≡ none
unfolding lookup
lookup_nil [] j h = refl
lookup_nil (e ∷ m) j h = cc

parse_clock_nil :
    (c : Option Clock)
    → is_nil (entries_of c) ≡ true
    → parse_clock (string int64 c) ≡ ok (new int64 [])
unfolding string parse_clock front_width back_width str_eq new
parse_clock_nil c h = rw h

-- `ParseClock` reads back the text that `String` makes of a clock whose names the format can
-- carry and whose values are int64: the clock that it returns maps the same names to the same
-- values, those at zero included. The text of a nil clock gives an empty one.
pub parse_clock-string :
    (c : Option Clock)
    → Distinct (entries_of c)
    → ((k : NodeId) → has k (keys (entries_of c)) ≡ true → IsPlain k)
    → ((k : NodeId) → is_int64 (get int64 c k) ≡ true)
    → (c' : Clock) × (parse_clock (string int64 c) ≡ ok c')
      × ((k : NodeId) → lookup k (made c') ≡ lookup k (entries_of c))
unfolding new get
parse_clock-string none d p r = (new int64 [], parse_clock_nil none refl, λ k. refl)
parse_clock-string (some c) d p r = elim (Bool-cases (is_nil (made c))) [
  | inl empty ↦ (
    new int64 [],
    parse_clock_nil (some c) empty,
    λ k. unfold lookup in sym (lookup_nil (made c) k empty),
  )
  | inr full ↦
      let ks = nodes (some c) in
      let (sorted, same, count) = nodes-IsSorted (some c) d in
      let plain : All IsPlain ks = All-of_has ks (λ k h. p k (sym (same k) ∙ h)) in
      (
        set_all (new int64 []) (made c) ks,
        parse_clock-entries c ks full refl
            (unfold len in omega (arith, count, length_pos (made c) full)) plain r,
        λ k.
            unfold lookup in
            lookup-set_all (new int64 []) (made c) ks k
            ∙ rw (same k) (sym (lookup_of_has (made c) k)),
      )
]
