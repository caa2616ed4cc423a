-- ===== src/Base/Text.antt =====
-- What `clock/clock.go` uses of the package `strings`: `TrimSpace`, `Split` by one byte,
-- `HasPrefix` and `HasSuffix` of one byte.
use Prim.Native.Nat.{ℕ, zero, suc, ◌<◌, ◌≤◌}
use mathlib.Core.Path.{◌≡◌, refl}
use mathlib.Core.Bool.{Bool, false, ◌&&◌, ◌||◌}
use mathlib.Core.List.{List, [], ◌∷◌, ◌++◌, reverse, reverse-append, reverse-reverse}
use native.Mathlib.Omega.{arith}
use causalclock.Base.Tests.{leb, ◌==◌, if◌then◌else◌}
use causalclock.Base.Lists.{any}
use causalclock.Base.Strings.{Str}

-- `unicode.IsSpace`, on the bytes of the rune's encoding.
abbrev pub is_space : ℕ → Bool
is_space b = (leb 9 b && leb b 13) || (b == b' ')

abbrev is_space2 : ℕ → ℕ → Bool
is_space2 a b = (a == 0xc2) && ((b == 0x85) || (b == 0xa0))

abbrev is_space3 : ℕ → ℕ → ℕ → Bool
is_space3 a b c =
    ((a == 0xe1) && ((b == 0x9a) && (c == 0x80)))
    || (((a == 0xe2)
          && (((b == 0x80)
                && ((leb 0x80 c && leb c 0x8a) || ((c == 0xa8) || ((c == 0xa9) || (c == 0xaf)))))
              || ((b == 0x81) && (c == 0x9f))))
        || ((a == 0xe3) && ((b == 0x80) && (c == 0x80))))

-- The bytes of the space that a text starts with, and of the one that a text ends with, from its
-- last byte backwards; zero where there is none.
unfoldable pub front_width : Str → ℕ
front_width [] = 0
front_width (a ∷ []) = if is_space a then 1 else 0
front_width (a ∷ (b ∷ [])) = if is_space a then 1 else if is_space2 a b then 2 else 0
front_width (a ∷ (b ∷ (c ∷ s))) =
    if is_space a then 1 else if is_space2 a b then 2 else if is_space3 a b c then 3 else 0

unfoldable pub back_width : Str → ℕ
back_width [] = 0
back_width (c ∷ []) = if is_space c then 1 else 0
back_width (c ∷ (b ∷ [])) = if is_space c then 1 else if is_space2 b c then 2 else 0
back_width (c ∷ (b ∷ (a ∷ s))) =
    if is_space c then 1 else if is_space2 b c then 2 else if is_space3 a b c then 3 else 0

-- The text without the spaces that it starts with; `skip` bytes belong to the space before.
unfoldable pub drop_spaces : (Str → ℕ) → ℕ → Str → Str
drop_spaces width skip [] = []
drop_spaces width (suc skip) (b ∷ s) = drop_spaces width skip s
drop_spaces width zero (b ∷ s) = elim (width (b ∷ s)) [
  | zero ↦ b ∷ s
  | suc skip ↦ drop_spaces width skip s
]

-- `strings.TrimSpace`
unfoldable pub trim_space : Str → Str
unfolding drop_spaces
trim_space s = reverse (drop_spaces back_width 0 (reverse (drop_spaces front_width 0 s)))

-- `strings.Split` by one byte: there is one part more than there are separators.
abbrev pub cons_head : ℕ → List Str → List Str
cons_head b [] = (b ∷ []) ∷ []
cons_head b (p ∷ ps) = (b ∷ p) ∷ ps

unfoldable pub split : ℕ → Str → List Str
split sep [] = [] ∷ []
split sep (b ∷ s) = let rest = split sep s in if b == sep then [] ∷ rest else cons_head b rest

-- `strings.HasPrefix` and `strings.HasSuffix` of one byte.
abbrev pub has_prefix : ℕ → Str → Bool
has_prefix c [] = false
has_prefix c (b ∷ s) = b == c

unfoldable pub has_suffix : ℕ → Str → Bool
has_suffix c s = has_prefix c (reverse s)

-- Whether the byte stands in the text.
abbrev pub has_byte : ℕ → Str → Bool
has_byte c = any (λ b. b == c)

-- A text that has no space at either end.
pub record IsTrimmed (s : Str) : Type 0 where
  pub front : front_width s ≡ 0
  pub back : back_width (reverse s) ≡ 0

drop_spaces_none : (width : Str → ℕ) (s : Str) → width s ≡ 0 → drop_spaces width 0 s ≡ s
unfolding drop_spaces
drop_spaces_none width [] h = refl
drop_spaces_none width (b ∷ s) h = rw (drop_spaces, h)

pub trim_space-IsTrimmed : (s : Str) → IsTrimmed s → trim_space s ≡ s
unfolding trim_space
trim_space-IsTrimmed s h = rw (
  drop_spaces_none front_width s h.front,
  drop_spaces_none back_width (reverse s) h.back,
  reverse-reverse,
)

front_width_space : (s : Str) → front_width (b' ' ∷ s) ≡ 1
unfolding front_width
front_width_space [] = refl
front_width_space (b ∷ []) = refl
front_width_space (b ∷ (c ∷ s)) = refl

-- A space in front makes no difference.
pub trim_space-space : (s : Str) → trim_space (b' ' ∷ s) ≡ trim_space s
unfolding trim_space
trim_space-space s =
    let dropped : drop_spaces front_width 0 (b' ' ∷ s) ≡ drop_spaces front_width 0 s =
      rw (drop_spaces, front_width_space s) in
    rw dropped

pub split_none : (sep : ℕ) (p : Str) → has_byte sep p ≡ false → split sep p ≡ p ∷ []
unfolding split
split_none sep [] h = refl
split_none sep (b ∷ p) h = ground (arith, split_none sep p)

-- The part in front of the first separator.
pub split-append :
    (sep : ℕ) (p rest : Str)
    → has_byte sep p ≡ false
    → split sep (p ++ (sep ∷ rest)) ≡ p ∷ split sep rest
unfolding split
split-append sep [] rest h = ground arith
split-append sep (b ∷ p) rest h = ground (arith, split-append sep p rest)

-- An ASCII character that is no space is not part of one either.
pub front_width_solid : (b : ℕ) (s : Str) → 33 ≤ b → b < 128 → front_width (b ∷ s) ≡ 0
unfolding front_width
front_width_solid b [] h k = ground arith
front_width_solid b (c ∷ []) h k = ground arith
front_width_solid b (c ∷ (d ∷ s)) h k = ground arith

back_width_solid : (b : ℕ) (s : Str) → 33 ≤ b → b < 128 → back_width (b ∷ s) ≡ 0
unfolding back_width
back_width_solid b [] h k = ground arith
back_width_solid b (c ∷ []) h k = ground arith
back_width_solid b (c ∷ (d ∷ s)) h k = ground arith

pub back_width_last :
    (p : Str) (b : ℕ) → 33 ≤ b → b < 128 → back_width (reverse (p ++ (b ∷ []))) ≡ 0
back_width_last p b h k = rw (reverse-append p (b ∷ [])) (back_width_solid b (reverse p) h k)

-- A text that starts with no space starts with none where an ASCII character follows it.
pub front_width-append :
    (s : Str) (b : ℕ) (rest : Str)
    → front_width s ≡ 0
    → 33 ≤ b
    → b < 128
    → front_width (s ++ (b ∷ rest)) ≡ 0
unfolding front_width
front_width-append [] b rest e h k = front_width_solid b rest h k
front_width-append (c ∷ []) b [] e h k = ground arith
front_width-append (c ∷ []) b (d ∷ rest) e h k = ground arith
front_width-append (c ∷ (d ∷ [])) b rest e h k = ground arith
front_width-append (c ∷ (d ∷ (a ∷ s))) b rest e h k = e

pub has_byte-append : (c : ℕ) (s t : Str) → has_byte c (s ++ t) ≡ (has_byte c s || has_byte c t)
has_byte-append c [] t = refl
has_byte-append c (b ∷ s) t = ground (arith, has_byte-append c s t)
