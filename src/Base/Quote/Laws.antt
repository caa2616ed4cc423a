-- ===== src/Base/Quote/Laws.antt =====
-- Reading what was quoted.
use causalclock.Base.Quote.{
  quote, slash, escape_ascii, is_separator, escape_from, quoted, plain, prepend, unquote_from,
  valid_from, read_string,
}
use Prim.Native.Nat.{ℕ, zero, suc, ◌+◌, ◌-◌, ◌<◌, ◌≤◌}
use mathlib.Core.Path.{◌≡◌, refl, ap, sym, ◌∙◌}
use mathlib.Core.Bool.{true, false}
use mathlib.Core.Option.{some}
use mathlib.Core.Logic.{◌⊎◌, inl, inr, ◌≢◌}
use mathlib.Core.List.{[], ◌∷◌, ◌++◌, append_assoc}
use native.Mathlib.Omega.{arith}
use causalclock.Base.Tests.{ltb, Bool-cases, lt→ltb}
use causalclock.Base.Strings.{Str}
use causalclock.Base.Lists.{All}
use causalclock.Base.Quote.Separators.{rune_separator}
use causalclock.Base.Runes.{decode_rune, decode_three, decode_ascii, rune_shape, Skips}

-- An ASCII character.
unquote-escape_ascii :
    (b : ℕ) (t : Str)
    → b < 128
    → unquote_from plain (escape_ascii b ++ t) ≡ prepend (b ∷ []) (unquote_from plain t)
unfolding unquote_from escape_ascii
unquote-escape_ascii b t h = ground arith

-- A byte past ASCII is copied.
unquote_raw :
    (b : ℕ) (t : Str)
    → 128 ≤ b
    → unquote_from plain (b ∷ t) ≡ prepend (b ∷ []) (unquote_from plain t)
unfolding unquote_from
unquote_raw b t h = ground arith

escape_from-start : (s : Str) → escape_from false 0 s ≡ escape_from true 0 s
unfolding escape_from
escape_from-start [] = refl
escape_from-start (b ∷ s) = refl

-- The escaped text in front of a quote.
abbrev framed : ℕ → Str → Str → Str
framed n s rest = escape_from true n s ++ (quote ∷ rest)

escape_line :
    (t : Str)
    → escape_from true 0 (0xe2 ∷ 0x80 ∷ 0xa8 ∷ t)
      ≡ slash ∷ b'u' ∷ b'2' ∷ b'0' ∷ b'2' ∷ b'8' ∷ escape_from false 0 t
unfolding escape_from
escape_line t = refl

escape_paragraph :
    (t : Str)
    → escape_from true 0 (0xe2 ∷ 0x80 ∷ 0xa9 ∷ t)
      ≡ slash ∷ b'u' ∷ b'2' ∷ b'0' ∷ b'2' ∷ b'9' ∷ escape_from false 0 t
unfolding escape_from
escape_paragraph t = refl

escape_two : (c d : ℕ) (t : Str) → escape_from true 2 (c ∷ d ∷ t) ≡ c ∷ d ∷ escape_from true 0 t
unfolding escape_from
escape_two c d t = refl

unquote_separator :
    (n : ℕ) (t : Str)
    → (n ≡ 8) ⊎ (n ≡ 9)
    → unquote_from plain (slash ∷ b'u' ∷ b'2' ∷ b'0' ∷ b'2' ∷ (48 + n) ∷ t)
      ≡ prepend (0xe2 ∷ []) (unquote_from plain (0x80 ∷ (0xa0 + n) ∷ t))
unfolding unquote_from
unquote_separator n t (inl h) = rw h (ground arith)
unquote_separator n t (inr h) = rw h (ground arith)

framed_separator :
    (d : ℕ) (t rest : Str)
    → (d ≡ 0xa8) ⊎ (d ≡ 0xa9)
    → unquote_from plain (framed 0 (0xe2 ∷ 0x80 ∷ d ∷ t) rest)
      ≡ prepend (0xe2 ∷ []) (unquote_from plain (framed 2 (0x80 ∷ d ∷ t) rest))
framed_separator d t rest (inl e) =
    rw (e, escape_line t, escape_two 0x80 0xa8 t, escape_from-start t)
      (unquote_separator 8 (framed 0 t rest) (inl refl))
framed_separator d t rest (inr e) =
    rw (e, escape_paragraph t, escape_two 0x80 0xa9 t, escape_from-start t)
      (unquote_separator 9 (framed 0 t rest) (inr refl))

escape_from_raw :
    (b : ℕ) (s : Str)
    → 128 ≤ b
    → (decode_rune b s).1 ≢ 1
    → is_separator (decode_rune b s).0 ≡ false
    → escape_from true 0 (b ∷ s) ≡ b ∷ escape_from true ((decode_rune b s).1 - 1) s
unfolding escape_from
escape_from_raw b s h w e = ground arith

escape_from-ascii :
    (b : ℕ) (s : Str)
    → b < 128
    → escape_from true 0 (b ∷ s) ≡ escape_ascii b ++ escape_from true 0 s
unfolding escape_from
escape_from-ascii b s h =
    let plain_rune : is_separator b ≡ false = ground arith in
    let small : ltb b 0x80 ≡ true = ground arith in rw (decode_ascii b s h, plain_rune, small) refl

valid_width :
    (b : ℕ) (s : Str)
    → 128 ≤ b
    → valid_from 0 (b ∷ s) ≡ true
    → ((decode_rune b s).1 ≢ 1) × (valid_from ((decode_rune b s).1 - 1) s ≡ true)
unfolding valid_from
valid_width b s h v = ground arith

wide_separator :
    (d : ℕ) (t : Str) → (d ≡ 0xa8) ⊎ (d ≡ 0xa9) → (decode_rune 0xe2 (0x80 ∷ d ∷ t)).1 ≡ 3
unfolding decode_rune decode_three
wide_separator d t (inl e) = rw e refl
wide_separator d t (inr e) = rw e refl

separator_rest :
    (d : ℕ) (t rest : Str)
    → (d ≡ 0xa8) ⊎ (d ≡ 0xa9)
    → unquote_from plain (framed 0 (0xe2 ∷ 0x80 ∷ d ∷ t) rest)
      ≡ prepend (0xe2 ∷ []) (
          unquote_from plain (framed ((decode_rune 0xe2 (0x80 ∷ d ∷ t)).1 - 1) (0x80 ∷ d ∷ t) rest))
separator_rest d t rest e = rw (wide_separator d t e) (framed_separator d t rest e)

-- A rune past ASCII: its first byte comes out in front of what its other bytes give.
unquote-rune :
    (b : ℕ) (s rest : Str)
    → 128 ≤ b
    → (decode_rune b s).1 ≢ 1
    → unquote_from plain (framed 0 (b ∷ s) rest)
      ≡ prepend (b ∷ []) (unquote_from plain (framed ((decode_rune b s).1 - 1) s rest))
unquote-rune b s rest h wide = elim (Bool-cases (is_separator (decode_rune b s).0)) [
  | inl q ↦
      let (d, t, es, eb, ed) = rune_separator b s h q in cc (es, eb, separator_rest d t rest ed)
  | inr q ↦
      rw (escape_from_raw b s h wide q) (unquote_raw b (framed ((decode_rune b s).1 - 1) s rest) h)
]

valid_from_step : (b : ℕ) (s : Str) → b < 128 → valid_from 0 (b ∷ s) ≡ valid_from 0 s
unfolding valid_from
valid_from_step b s h = rw (lt→ltb b 128 h) refl

unquote_end : (rest : Str) → unquote_from plain (quote ∷ rest) ≡ some ([], rest)
unfolding unquote_from
unquote_end rest = refl

unquote-escape_from :
    (n : ℕ) (s rest : Str)
    → Skips n s
    → valid_from n s ≡ true
    → unquote_from plain (framed n s rest) ≡ some (s, rest)
unfolding escape_from valid_from
unquote-escape_from n [] rest k v = unquote_end rest
unquote-escape_from (suc n) (b ∷ s) rest k v =
    unquote_raw b (framed n s rest) k.0 ∙ ap (prepend (b ∷ [])) (unquote-escape_from n s rest k.1 v)
unquote-escape_from zero (b ∷ s) rest k v = elim (Bool-cases (ltb b 0x80)) [
  | inl e ↦
      let small : b < 128 = ground arith in
      rw (escape_from-ascii b s small, append_assoc)
        (unquote-escape_ascii b (framed 0 s rest) small
          ∙ ap (prepend (b ∷ []))
              (unquote-escape_from 0 s rest tt (sym (valid_from_step b s small) ∙ v)))
  | inr e ↦
      let past : 128 ≤ b = ground arith in
      let (wide, valid) = valid_width b s past v in
      let n = (decode_rune b s).1 - 1 in
      unquote-rune b s rest past wide
      ∙ ap (prepend (b ∷ [])) (unquote-escape_from n s rest (rune_shape b s past).1 valid)
]

-- Well-formed text that has been quoted is read back.
pub read_string-quoted :
    (s rest : Str) → valid_from 0 s ≡ true → read_string (quoted s ++ rest) ≡ some (s, rest)
unfolding read_string quoted
read_string-quoted s rest v = rw (append_assoc, unquote-escape_from 0 s rest tt v, v) refl

-- ASCII characters are well-formed text.
pub valid_from_ascii : (s : Str) → All (λ c. c < 128) s → valid_from 0 s ≡ true
unfolding valid_from
valid_from_ascii [] a = refl
valid_from_ascii (b ∷ s) a = rw (valid_from_step b s a.0) (valid_from_ascii s a.1)
