-- ===== src/Clock/Parse/Sound.antt =====
-- What `ParseClock` read where it returns a clock.
use causalclock.Base.{
  Str, ℕ, ℤ, ◌<◌, ◌-◌, ◌==◌, List, [], ◌∷◌, ◌++◌, length, length-append, Option, none, some, All,
  true, false, Bool-cases, Option-cases, inl, inr, str_eq, str_eq_iff, if◌then◌else◌, is_int64,
  lookup, lookup-insert, ◌≡◌, refl, sym, ap, ◌∙◌, arith,
}
use mathlib.Core.List.{reverse, reverse-reverse, reverse-append}
use causalclock.Base.Scan.{scan_int, scan_int_range}
use causalclock.Base.Slices.{slice, slice-append}
use causalclock.Base.Text.{trim_space, split, cons_head, has_byte, has_prefix, has_suffix}
use causalclock.Clock.Parse.Numeral.{IsNumeral, scan_int-IsNumeral}
use causalclock.Clock.Parse.{
  Result, ok, err, ◌>>=◌, set_parts, parse_loop, parse_trimmed, parse_clock,
}
use causalclock.Clock.Types.{Clock, NodeId}
use causalclock.Counter.{int64}
use causalclock.Counters.Defs.{new, set, made}

-- Texts with a separator between each and the next.
abbrev pub joined : ℕ → List Str → Str
joined sep [] = []
joined sep (p ∷ []) = p
joined sep (p ∷ (q ∷ ps)) = p ++ (sep ∷ joined sep (q ∷ ps))

-- A name and a number with one colon between them, and white space around each.
pub record IsPair (p : Str) (k : NodeId) (v : ℤ) : Type 0 where
  pub name : Str
  pub number : Str
  pub text : trim_space p ≡ name ++ (b':' ∷ number)
  pub one_colon : (has_byte b':' name ≡ false) × (has_byte b':' number ≡ false)
  pub named : trim_space name ≡ k
  pub numbered : IsNumeral (trim_space number) v
  pub ranged : is_int64 v ≡ true

-- Each text is such a pair.
pub data ArePairs : List Str → List (NodeId × ℤ) → Type 0 where
  none_left : ArePairs [] []
  one_more :
      {p : Str} {k : NodeId} {v : ℤ} {ps : List Str} {es : List (NodeId × ℤ)}
      → IsPair p k v
      → ArePairs ps es
      → ArePairs (p ∷ ps) ((k, v) ∷ es)

-- The last value of a name, or what it had before.
abbrev pub last_value : NodeId → Option ℤ → List (NodeId × ℤ) → Option ℤ
last_value k before [] = before
last_value k before ((j, v) ∷ es) = last_value k (if str_eq j k then some v else before) es

-- The text is, but for white space around it, pairs in braces with a comma between each and the
-- next, and the clock has the last value of every name, and no other name.
pub record IsRead (s : Str) (c : Clock) : Type 0 where
  pub pairs : List Str
  pub entries : List (NodeId × ℤ)
  pub braced : trim_space s ≡ b'{' ∷ (joined b',' pairs ++ (b'}' ∷ []))
  pub no_comma : All (λ p. has_byte b',' p ≡ false) pairs
  pub read : ArePairs pairs entries
  pub bound : (k : NodeId) → lookup k (made c) ≡ last_value k none entries

joined-cons_head :
    (sep b : ℕ) (ps : List Str) → 0 < length ps → joined sep (cons_head b ps) ≡ b ∷ joined sep ps
joined-cons_head sep b [] h = absurd (omega arith)
joined-cons_head sep b (p ∷ []) h = refl
joined-cons_head sep b (p ∷ (q ∷ ps)) h = refl

no_length : (s : Str) → length s ≡ 0 → s ≡ []
no_length [] h = refl
no_length (b ∷ s) h = absurd (omega arith)

joined_behind :
    (sep : ℕ) (ps : List Str) → 0 < length ps → joined sep ([] ∷ ps) ≡ sep ∷ joined sep ps
joined_behind sep [] h = absurd (omega arith)
joined_behind sep (p ∷ ps) h = refl

length-cons_head : (b : ℕ) (ps : List Str) → 0 < length ps → 0 < length (cons_head b ps)
length-cons_head b [] h = absurd (omega arith)
length-cons_head b (p ∷ ps) h = omega arith

length-split : (sep : ℕ) (s : Str) → 0 < length (split sep s)
unfolding split
length-split sep [] = omega arith
length-split sep (b ∷ s) = ground (arith, length-cons_head b (split sep s), length-split sep s)

joined-split : (sep : ℕ) (s : Str) → joined sep (split sep s) ≡ s
unfolding split
joined-split sep [] = refl
joined-split sep (b ∷ s) = elim (Bool-cases (b == sep)) [
  | inl e ↦
      let same : b ≡ sep = ground arith in
      rw (e, joined_behind sep (split sep s) (length-split sep s), joined-split sep s, same)
  | inr e ↦ rw (e, joined-cons_head sep b (split sep s) (length-split sep s), joined-split sep s)
]

cons_head_lacks :
    (sep b : ℕ) (ps : List Str)
    → (b == sep) ≡ false
    → All (λ p. has_byte sep p ≡ false) ps
    → All (λ p. has_byte sep p ≡ false) (cons_head b ps)
cons_head_lacks sep b [] e a = rw e (refl, tt)
cons_head_lacks sep b (p ∷ ps) e a = (rw (e, a.0), a.1)

split_lacks : (sep : ℕ) (s : Str) → All (λ p. has_byte sep p ≡ false) (split sep s)
unfolding split
split_lacks sep [] = (refl, tt)
split_lacks sep (b ∷ s) = elim (Bool-cases (b == sep)) [
  | inl e ↦ rw e (refl, split_lacks sep s)
  | inr e ↦ rw e (cons_head_lacks sep b (split sep s) e (split_lacks sep s))
]

bind_ok :
    (r : Result Clock) (f : Clock → Result Clock) (c : Clock)
    → (r >>= f) ≡ ok c
    → (a : Clock) × (r ≡ ok a) × (f a ≡ ok c)
bind_ok (ok a) f c e = (a, refl, e)
bind_ok (err x) f c e = cc

-- What one pair adds to the clock.
abbrev Added : Str → Clock → Clock → Type 0
Added p c c' = (k : NodeId) × (v : ℤ) × IsPair p k v × (c' ≡ set int64 c k v)

set_parts-Added :
    (c c' : Clock) (p : Str) (parts : List Str)
    → joined b':' parts ≡ trim_space p
    → All (λ x. has_byte b':' x ≡ false) parts
    → set_parts c (trim_space p) parts ≡ ok c'
    → Added p c c'
unfolding set_parts
set_parts-Added c c' p [] j a e = cc
set_parts-Added c c' p (key ∷ []) j a e = cc
set_parts-Added c c' p (key ∷ (value ∷ (more ∷ parts))) j a e = cc
set_parts-Added c c' p (key ∷ (value ∷ [])) j a e =
    elim (Option-cases (scan_int (trim_space value))) [
      | inl failed ↦ absurd (ground (arith, e, failed))
      | inr (v, read) ↦ (
        trim_space key,
        v,
        record {
          name = key;
          number = value;
          text = sym j;
          one_colon = (a.0, a.1.0);
          named = refl;
          numbered = scan_int-IsNumeral (trim_space value) v read;
          ranged = scan_int_range (trim_space value) v read;
        },
        ground (arith, e, read),
      )
    ]

-- The loop reads every pair.
parse_loop-ArePairs :
    (c c' : Clock) (ps : List Str)
    → parse_loop c ps ≡ ok c'
    → (es : List (NodeId × ℤ)) × ArePairs ps es
      × ((k : NodeId) → lookup k (made c') ≡ last_value k (lookup k (made c)) es)
unfolding parse_loop
parse_loop-ArePairs c c' [] e = let same : c ≡ c' = cc in ([], none_left, λ k. rw (← same) refl)
parse_loop-ArePairs c c' (p ∷ ps) e =
    let (d, first, later) =
      bind_ok (set_parts c (trim_space p) (split b':' (trim_space p))) (λ x. parse_loop x ps) c'
        e in
    let (k, v, pair, put) =
      set_parts-Added c d p (split b':' (trim_space p)) (joined-split b':' (trim_space p))
        (split_lacks b':' (trim_space p)) first in
    let (es, rest, bound) = parse_loop-ArePairs d c' ps later in
    (
      (k, v) ∷ es,
      one_more pair rest,
      λ j.
          bound j
          ∙ ap (λ x. last_value j x es) (rw put (unfold set in lookup-insert k j v (made c))),
    )

-- A text with a first and a last byte, which are not the same one.
last_byte : (t : Str) (b : ℕ) → has_prefix b (reverse t) ≡ true → (u : Str) × (t ≡ u ++ (b ∷ []))
last_byte t b h = from_reverse (reverse t) h (sym (reverse-reverse t))
  where
    from_reverse :
        (r : Str) → has_prefix b r ≡ true → t ≡ reverse r → (u : Str) × (t ≡ u ++ (b ∷ []))
    from_reverse [] h e = cc
    from_reverse (x ∷ r) h e =
        let same : x ≡ b = ground arith in
        (reverse r, e ∙ reverse-append (x ∷ []) r ∙ ap (λ y. reverse r ++ (y ∷ [])) same)

first_byte :
    (s u : Str)
    → has_prefix b'{' s ≡ true
    → s ≡ u ++ (b'}' ∷ [])
    → s ≡ b'{' ∷ (slice s 1 (length s - 1) ++ (b'}' ∷ []))
first_byte s [] h e = absurd (ground (arith, h, e))
first_byte s (x ∷ u) h e =
    let same : x ≡ b'{' = ground (arith, h, e) in
    let cut : slice s 1 (length s - 1) ≡ u = rw e (
      slice-append (x ∷ []) u (b'}' ∷ []) 1 (length (x ∷ (u ++ (b'}' ∷ []))) - 1) refl
        (omega (arith, length-append u (b'}' ∷ [])))) in
    rw cut (e ∙ ap (λ y. y ∷ (u ++ (b'}' ∷ []))) same)

-- The texts in braces that are accepted.
parse_trimmed-shape :
    (t : Str) (c : Clock)
    → parse_trimmed t ≡ ok c
    → str_eq t (b'{' ∷ b'}' ∷ []) ≡ false
    → (has_prefix b'{' t ≡ true) × (has_suffix b'}' t ≡ true)
unfolding parse_trimmed
parse_trimmed-shape t c e full = ground (arith, e, full)

lookup-new : (k : NodeId) → lookup k (made (new int64 [])) ≡ none
unfolding new lookup
lookup-new k = refl

parse_trimmed-IsRead :
    (s t : Str) (c : Clock) → trim_space s ≡ t → parse_trimmed t ≡ ok c → IsRead s c
unfolding parse_trimmed
parse_trimmed-IsRead s t c trimmed e = elim (Bool-cases (str_eq t (b'{' ∷ b'}' ∷ []))) [
  | inl empty ↦
      let made_new : new int64 [] ≡ c = ground (arith, e, empty) in
      record {
        pairs = [];
        entries = [];
        braced = trimmed ∙ (str_eq_iff t (b'{' ∷ b'}' ∷ [])).0 empty;
        no_comma = tt;
        read = none_left;
        bound = λ k. rw (← made_new) (lookup-new k);
      }
  | inr full ↦
      let (starts, shut) = parse_trimmed-shape t c e full in
      let (u, ending) = last_byte t b'}' (unfold has_suffix in shut) in
      let body = slice t 1 (length t - 1) in
      let whole = first_byte t u starts ending in
      elim (Bool-cases (length body == 0)) [
        | inl nothing ↦
            let made_new : new int64 [] ≡ c = ground (arith, e, full, starts, shut, nothing) in
            let no_body : body ≡ [] = no_length body (ground arith) in
            record {
              pairs = [];
              entries = [];
              braced = trimmed ∙ whole ∙ ap (λ x. b'{' ∷ (x ++ (b'}' ∷ []))) no_body;
              no_comma = tt;
              read = none_left;
              bound = λ k. rw (← made_new) (lookup-new k);
            }
        | inr something ↦
            let looped : parse_loop (new int64 []) (split b',' body) ≡ ok c =
              ground (arith, e, full, starts, shut, something) in
            let (es, read, bound) = parse_loop-ArePairs (new int64 []) c (split b',' body) looped in
            record {
              pairs = split b',' body;
              entries = es;
              braced =
                  trimmed
                  ∙ whole
                  ∙ ap (λ x. b'{' ∷ (x ++ (b'}' ∷ []))) (sym (joined-split b',' body));
              no_comma = split_lacks b',' body;
              read = read;
              bound = λ k. bound k ∙ ap (λ x. last_value k x es) (lookup-new k);
            }
      ]
]

-- `ParseClock` returns a clock only for a text that is, but for white space around it, pairs in
-- braces with a comma between each and the next, where each pair is a name and a number in the range
-- of int64, with one colon between them and white space around them. A number is one digit or more
-- with a sign or none, and may have other text behind its digits. The clock has the last value of
-- every name, and no other name.
pub parse_clock-IsRead : (s : Str) (c : Clock) → parse_clock s ≡ ok c → IsRead s c
unfolding parse_clock
parse_clock-IsRead s c e = parse_trimmed-IsRead s (trim_space s) c refl e
