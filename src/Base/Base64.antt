-- ===== src/Base/Base64.antt =====
-- `StdEncoding` of the package `encoding/base64`, in which `encoding/json` writes a `[]byte`.
use Prim.Native.Nat.{ℕ, ◌+◌, ◌-◌, ◌*◌, ◌/◌, ◌%◌, ◌<◌}
use mathlib.Core.Path.{◌≡◌, refl, ap, sym, ◌∙◌}
use mathlib.Core.Bool.{false, ◌&&◌}
use mathlib.Core.Option.{Option, none, some}
use mathlib.Core.List.{List, [], ◌∷◌, ◌++◌}
use native.Mathlib.Omega.{arith}
use causalclock.Base.Tests.{ltb, leb, ◌==◌, if◌then◌else◌}
use causalclock.Base.Lists.{All}
use causalclock.Base.Strings.{Str}
use causalclock.Base.Bytes.{IsByte}

infixl 5 ◌>>=◌
abbrev ◌>>=◌ {ℓ κ} : {A : Type ℓ} {B : Type κ} → Option A → (A → Option B) → Option B
none >>= f = none
some a >>= f = f a

-- The character of six bits, and the six bits of a character.
unfoldable pub digit : ℕ → ℕ
digit n =
    if ltb n 26
    then n + 65
    else if ltb n 52
    then n + 71
    else if ltb n 62
    then n - 52 + 48
    else if n == 62
    then b'+'
    else b'/'

unfoldable pub six_bits : ℕ → Option ℕ
six_bits c =
    if leb 65 c && leb c 90
    then some (c - 65)
    else if leb 97 c && leb c 122
    then some (c - 71)
    else if leb 48 c && leb c 57
    then some (c + 4)
    else if c == b'+'
    then some 62
    else if c == b'/'
    then some 63
    else none

-- Three bytes make four characters; one or two bytes are padded.
unfoldable pub encode : List ℕ → Str
unfolding digit
encode [] = []
encode (a ∷ []) = digit (a / 4) ∷ digit (a % 4 * 16) ∷ b'=' ∷ b'=' ∷ []
encode (a ∷ (b ∷ [])) = digit (a / 4) ∷ digit (a % 4 * 16 + b / 16) ∷ digit (b % 16 * 4) ∷ b'=' ∷ []
encode (a ∷ (b ∷ (c ∷ rest))) =
    digit (a / 4)
    ∷ digit (a % 4 * 16 + b / 16)
    ∷ digit (b % 16 * 4 + c / 64)
    ∷ digit (c % 64)
    ∷ encode rest

-- The bytes of four characters; the padding stands at the end of the text only.
unfoldable pub quantum : ℕ → ℕ → ℕ → ℕ → Option (List ℕ)
unfolding six_bits
quantum w x y z = do
  p ← six_bits w
  q ← six_bits x
  r ← six_bits y
  s ← six_bits z
  some ((p * 4 + q / 16) ∷ (q % 16 * 16 + r / 4) ∷ (r % 4 * 64 + s) ∷ [])

unfoldable pub last_quantum : ℕ → ℕ → ℕ → ℕ → Option (List ℕ)
unfolding six_bits quantum
last_quantum w x y z =
    if (y == b'=') && (z == b'=')
    then (do p ← six_bits w; q ← six_bits x; some ((p * 4 + q / 16) ∷ []))
    else if z == b'='
    then (do
      p ← six_bits w
      q ← six_bits x
      r ← six_bits y
      some ((p * 4 + q / 16) ∷ (q % 16 * 16 + r / 4) ∷ []))
    else quantum w x y z

-- A text with no line feeds between the characters.
unfoldable pub decode : Str → Option (List ℕ)
unfolding quantum last_quantum
decode [] = some []
decode (w ∷ (x ∷ (y ∷ (z ∷ [])))) = last_quantum w x y z
decode (w ∷ (x ∷ (y ∷ (z ∷ (v ∷ rest))))) = do
  first ← quantum w x y z
  more ← decode (v ∷ rest)
  some (first ++ more)
decode _ = none

six_bits-digit : (n : ℕ) → n < 64 → six_bits (digit n) ≡ some n
unfolding six_bits digit
six_bits-digit n h = ground arith

digit-ne-pad : (n : ℕ) → n < 64 → (digit n == b'=') ≡ false
unfolding digit
digit-ne-pad n h = ground arith

quantum-digits :
    (a b c : ℕ)
    → IsByte a
    → IsByte b
    → IsByte c
    → quantum
        (digit (a / 4))
        (digit (a % 4 * 16 + b / 16))
        (digit (b % 16 * 4 + c / 64))
        (digit (c % 64))
      ≡ some (a ∷ b ∷ c ∷ [])
unfolding quantum
quantum-digits a b c p q r =
    rw
      (
        six_bits-digit (a / 4) (omega arith),
        six_bits-digit (a % 4 * 16 + b / 16) (omega arith),
        six_bits-digit (b % 16 * 4 + c / 64) (omega arith),
        six_bits-digit (c % 64) (omega arith),
      )
      (ground arith)

last_quantum-digits :
    (a b c : ℕ)
    → IsByte a
    → IsByte b
    → IsByte c
    → last_quantum
        (digit (a / 4))
        (digit (a % 4 * 16 + b / 16))
        (digit (b % 16 * 4 + c / 64))
        (digit (c % 64))
      ≡ some (a ∷ b ∷ c ∷ [])
unfolding last_quantum
last_quantum-digits a b c p q r =
    ground (arith, digit-ne-pad (c % 64) (omega arith), quantum-digits a b c p q r)

last_one :
    (a : ℕ) → IsByte a → last_quantum (digit (a / 4)) (digit (a % 4 * 16)) b'=' b'=' ≡ some (a ∷ [])
unfolding last_quantum
last_one a p =
    rw (six_bits-digit (a / 4) (omega arith), six_bits-digit (a % 4 * 16) (omega arith))
      (ground arith)

last_two :
    (a b : ℕ)
    → IsByte a
    → IsByte b
    → last_quantum (digit (a / 4)) (digit (a % 4 * 16 + b / 16)) (digit (b % 16 * 4)) b'='
      ≡ some (a ∷ b ∷ [])
unfolding last_quantum
last_two a b p q =
    rw
      (
        digit-ne-pad (b % 16 * 4) (omega arith),
        six_bits-digit (a / 4) (omega arith),
        six_bits-digit (a % 4 * 16 + b / 16) (omega arith),
        six_bits-digit (b % 16 * 4) (omega arith),
      )
      (ground arith)

encode_head : (a : ℕ) (s : List ℕ) → (v : ℕ) × (t : Str) × (encode (a ∷ s) ≡ v ∷ t)
unfolding encode
encode_head a [] = (_, _, refl)
encode_head a (b ∷ []) = (_, _, refl)
encode_head a (b ∷ (c ∷ s)) = (_, _, refl)

-- The bytes come back from their text.
pub decode-encode : (s : List ℕ) → All IsByte s → decode (encode s) ≡ some s
unfolding decode encode
decode-encode [] h = refl
decode-encode (a ∷ []) h = last_one a h.0
decode-encode (a ∷ (b ∷ [])) h = last_two a b h.0 h.1.0
decode-encode (a ∷ (b ∷ (c ∷ []))) h = last_quantum-digits a b c h.0 h.1.0 h.1.1.0
decode-encode (a ∷ (b ∷ (c ∷ (d ∷ s)))) h =
    let (v, t, e) = encode_head d s in
    let more : decode (v ∷ t) ≡ some (d ∷ s) = ap decode (sym e) ∙ decode-encode (d ∷ s) h.1.1.1 in
    rw (e, quantum-digits a b c h.0 h.1.0 h.1.1.0, more)

digit_ascii : (n : ℕ) → digit n < 128
unfolding digit
digit_ascii n = ground arith

-- The text has ASCII characters only.
pub encode_ascii : (s : List ℕ) → All (λ c. c < 128) (encode s)
unfolding encode
encode_ascii [] = tt
encode_ascii (a ∷ []) =
    (digit_ascii (a / 4), (digit_ascii (a % 4 * 16), (omega arith, (omega arith, tt))))
encode_ascii (a ∷ (b ∷ [])) = (
  digit_ascii (a / 4),
  (digit_ascii (a % 4 * 16 + b / 16), (digit_ascii (b % 16 * 4), (omega arith, tt))),
)
encode_ascii (a ∷ (b ∷ (c ∷ s))) = (
  digit_ascii (a / 4),
  (
    digit_ascii (a % 4 * 16 + b / 16),
    (digit_ascii (b % 16 * 4 + c / 64), (digit_ascii (c % 64), encode_ascii s)),
  ),
)
