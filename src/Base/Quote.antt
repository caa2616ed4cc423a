-- ===== src/Base/Quote.antt =====
-- Strings in JSON, as `encoding/json` of Go 1.21 writes and reads them.
use Prim.Native.Nat.{ℕ, zero, suc, ◌+◌, ◌-◌, ◌*◌, ◌/◌, ◌%◌}
use mathlib.Core.Bool.{Bool, true, false, not, ◌&&◌, ◌||◌}
use mathlib.Core.Option.{Option, none, some}
use mathlib.Core.List.{[], ◌∷◌, ◌++◌}
use causalclock.Base.Tests.{ltb, leb, ◌==◌, if◌then◌else◌}
use causalclock.Base.Strings.{Str}
use causalclock.Base.Runes.{decode_rune}
mod Separators
pub mod Laws

-- A digit of a `\u` escape, and its value.
abbrev pub hex_digit : ℕ → ℕ
hex_digit n = if ltb n 10 then n + 48 else n + 87

abbrev pub hex_value : ℕ → Option ℕ
hex_value b =
    if leb 48 b && leb b 57
    then some (b - 48)
    else if leb 97 b && leb b 102
    then some (b - 87)
    else if leb 65 b && leb b 70
    then some (b - 55)
    else none

abbrev pub slash : ℕ
slash = b'\\'

abbrev pub quote : ℕ
quote = b'"'

-- The characters that are escaped for HTML besides the control characters.
abbrev pub is_html : ℕ → Bool
is_html b = (b == b'<') || ((b == b'>') || (b == b'&'))

-- An ASCII character in a text.
unfoldable pub escape_ascii : ℕ → Str
escape_ascii b =
    if (b == quote) || (b == slash)
    then slash ∷ b ∷ []
    else if b == b'\n'
    then slash ∷ b'n' ∷ []
    else if b == b'\r'
    then slash ∷ b'r' ∷ []
    else if b == b'\t'
    then slash ∷ b't' ∷ []
    else if ltb b 0x20 || is_html b
    then slash ∷ b'u' ∷ b'0' ∷ b'0' ∷ hex_digit (b / 16) ∷ hex_digit (b % 16) ∷ []
    else b ∷ []

-- The two line separators, which JavaScript would not take.
abbrev pub is_separator : ℕ → Bool
is_separator r = (r == 0x2028) || (r == 0x2029)

-- What is written at the first byte of a rune of the given width: the byte, or an escape in place
-- of the rune. A byte that begins no rune becomes U+FFFD.
unfoldable pub escape_head : ℕ × ℕ → ℕ → Str
unfolding escape_ascii
escape_head (r, width) b =
    if ltb b 0x80
    then escape_ascii b
    else if width == 1
    then slash ∷ b'u' ∷ b'f' ∷ b'f' ∷ b'f' ∷ b'd' ∷ []
    else if is_separator r
    then slash ∷ b'u' ∷ b'2' ∷ b'0' ∷ b'2' ∷ hex_digit (r % 16) ∷ []
    else b ∷ []

-- The next bytes belong to the rune before, and are copied or left out.
unfoldable pub escape_from : Bool → ℕ → Str → Str
unfolding escape_head decode_rune
escape_from copied skip [] = []
escape_from copied (suc skip) (b ∷ s) =
    let rest = escape_from copied skip s in if copied then b ∷ rest else rest
escape_from copied zero (b ∷ s) =
    let (r, width) = decode_rune b s in
    escape_head (r, width) b ++ escape_from (not (is_separator r)) (width - 1) s

unfoldable pub quoted : Str → Str
unfolding escape_from
quoted s = quote ∷ (escape_from true 0 s ++ (quote ∷ []))

-- What stands before the next byte of a text: nothing special, a backslash, or a `\u` with so
-- many digits to come behind the next one, and the value of those read.
pub data Mode : Type 0 where
  plain after_slash : Mode
  hex : ℕ → ℕ → Mode

-- What a byte does: it ends the text, ends the reading, or goes on with bytes of the text.
pub data Effect : Type 0 where
  closing failing : Effect
  going : Mode → Str → Effect

-- The character of an escape by one letter.
abbrev pub named : ℕ → Option ℕ
named b =
    if (b == quote) || ((b == slash) || (b == b'/'))
    then some b
    else if b == b'b'
    then some 8
    else if b == b'f'
    then some 12
    else if b == b'n'
    then some 10
    else if b == b'r'
    then some 13
    else if b == b't'
    then some 9
    else none

-- The UTF-8 form of a rune of four hexadecimal digits. Halves of surrogate pairs are left out.
abbrev pub rune_bytes : ℕ → Option Str
rune_bytes r =
    if ltb r 0x80
    then some (r ∷ [])
    else if ltb r 0x800
    then some ((0xc0 + r / 64) ∷ (0x80 + r % 64) ∷ [])
    else if leb 0xd800 r && leb r 0xdfff
    then none
    else some ((0xe0 + r / 4096) ∷ (0x80 + r / 64 % 64) ∷ (0x80 + r % 64) ∷ [])

unfoldable pub read_byte : Mode → ℕ → Effect
read_byte plain b =
    if b == quote
    then closing
    else if b == slash
    then going after_slash []
    else if ltb b 0x20
    then failing
    else going plain (b ∷ [])
read_byte after_slash b =
    if b == b'u'
    then going (hex 3 0) []
    else elim (named b) [ none ↦ failing | some c ↦ going plain (c ∷ []) ]
read_byte (hex zero acc) b = elim (hex_value b) [
  | none ↦ failing
  | some d ↦ elim (rune_bytes (acc * 16 + d)) [ none ↦ failing | some out ↦ going plain out ]
]
read_byte (hex (suc n) acc) b = elim (hex_value b) [
  | none ↦ failing
  | some d ↦ going (hex n (acc * 16 + d)) []
]

abbrev pub prepend : Str → Option (Str × Str) → Option (Str × Str)
prepend out none = none
prepend out (some (s, rest)) = some (out ++ s, rest)

-- The text up to its closing quote, and what stands behind it.
unfoldable pub unquote_from : Mode → Str → Option (Str × Str)
unfolding read_byte
unquote_from mode [] = none
unquote_from mode (b ∷ s) = elim (read_byte mode b) [
  | closing ↦ some ([], s)
  | failing ↦ none
  | going mode' out ↦ prepend out (unquote_from mode' s)
]

-- `utf8.ValidString`; the next bytes belong to the rune before.
unfoldable pub valid_from : ℕ → Str → Bool
unfolding decode_rune
valid_from skip [] = true
valid_from (suc skip) (b ∷ s) = valid_from skip s
valid_from zero (b ∷ s) =
    (ltb b 0x80 || ltb 1 (decode_rune b s).1) && valid_from ((decode_rune b s).1 - 1) s

-- A string with well-formed text. A decoder replaces bytes that are no text, which is left out.
unfoldable pub read_string : Str → Option (Str × Str)
unfolding unquote_from valid_from
read_string [] = none
read_string (b ∷ s) =
    if b == quote
    then elim (unquote_from plain s) [
      | none ↦ none
      | some (t, rest) ↦ if valid_from 0 t then some (t, rest) else none
    ]
    else none
