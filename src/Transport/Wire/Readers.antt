-- ===== src/Transport/Wire/Readers.antt =====
-- The readers of `deserialize` on what the writers of `serialize` wrote, wherever it stands.
use causalclock.Base.{
  ℕ, Str, ◌+◌, ◌%◌, ◌^◌, ◌<◌, List, [], ◌∷◌, ◌++◌, length, length-append, ◌≡◌, refl, sym, ◌∙◌,
  arith,
}
use causalclock.Base.Bytes.{put_be, be, length-put_be, be-put_be4}
use causalclock.Base.Slices.{get_elem?-append, slice, slice-append}
use causalclock.Transport.Types.{Error, ok}
use causalclock.Transport.Codec.{put_text, put_block, index, read_text, read_be, read_block}
use mathlib.Core.List.{append-nil, append_assoc}
use native.Mathlib.Nat.{mod-eq_of_lt}

-- The input at the offset goes on with `tail`.
abbrev pub At : List ℕ → ℕ → List ℕ → Type 0
At input offset tail = (front : List ℕ) × (input ≡ front ++ tail) × (offset ≡ length front)

pub At-append :
    (input a b : List ℕ) (offset next : ℕ)
    → At input offset (a ++ b)
    → next ≡ offset + length a
    → At input next b
At-append input a b offset next (front, e, o) n =
    (front ++ a, e ∙ sym (append_assoc front a b), omega (arith, length-append front a))

pub At-length :
    (input tail : List ℕ) (offset : ℕ) → At input offset tail → length input ≡ offset + length tail
At-length input tail offset (front, e, o) = rw (e, length-append) (omega arith)

pub At-append_nil : (input a : List ℕ) (offset : ℕ) → At input offset a → At input offset (a ++ [])
At-append_nil input a offset h = rw (append-nil a) h

-- The slice of the next bytes.
At-slice :
    (input a b : List ℕ) (offset next : ℕ)
    → At input offset (a ++ b)
    → next ≡ offset + length a
    → slice input offset next ≡ a
At-slice input a b offset next (front, e, o) n =
    rw e (slice-append front a b offset next o (omega arith))

At-index : (input b : List ℕ) (x offset : ℕ) → At input offset (x ∷ b) → index input offset ≡ ok x
unfolding index
At-index input b x offset (front, e, o) = rw (e, o, get_elem?-append front b x, index)

pub read_text-At :
    (input rest : List ℕ) (s : Str) (offset : ℕ) (e : Error)
    → At input offset (put_text s ++ rest)
    → length s < 256
    → (read_text input offset e ≡ ok (s, offset + 1 + length s))
      × At input (offset + 1 + length s) rest
unfolding put_text read_text
read_text-At input rest s offset e a h =
    let head : At input offset (length s ∷ (s ++ rest)) = rw (mod-eq_of_lt h) at a in
    let after : At input (offset + 1) (s ++ rest) =
      At-append input (length s ∷ []) (s ++ rest) offset (offset + 1) head (omega arith) in
    (
      ground (
        arith,
        At-index input (s ++ rest) (length s) offset head,
        At-length input (s ++ rest) (offset + 1) after,
        length-append s rest,
        At-slice input s rest (offset + 1) (offset + 1 + length s) after refl,
      ),
      At-append input s rest (offset + 1) (offset + 1 + length s) after refl,
    )

pub read_be-At :
    (width v : ℕ) (input rest : List ℕ) (offset : ℕ) (e : Error)
    → At input offset (put_be width v ++ rest)
    → be (put_be width v) ≡ v
    → (read_be width input offset e ≡ ok (v, offset + width)) × At input (offset + width) rest
unfolding read_be
read_be-At width v input rest offset e a h =
    let n : offset + width ≡ offset + length (put_be width v) =
      omega (arith, length-put_be width v) in
    (
      ground (
        arith,
        At-length input (put_be width v ++ rest) offset a,
        length-append (put_be width v) rest,
        n,
        At-slice input (put_be width v) rest offset (offset + width) a n,
        h,
      ),
      At-append input (put_be width v) rest offset (offset + width) a n,
    )

pub read_block-At :
    (input rest b : List ℕ) (offset : ℕ) (e f : Error)
    → At input offset (put_block b ++ rest)
    → length b < 2 ^ 32
    → (read_block input offset e f ≡ ok (b, offset + 4 + length b))
      × At input (offset + 4 + length b) rest
unfolding put_block read_block
read_block-At input rest b offset e f a h =
    let small : length b % 2 ^ 32 ≡ length b = omega arith in
    let a' : At input offset (put_be 4 (length b) ++ (b ++ rest)) = rw (small, append_assoc) at a in
    let (number, after) =
      read_be-At 4 (length b) input (b ++ rest) offset e a' (be-put_be4 (length b) h) in
    (
      ground (
        arith,
        number,
        At-length input (b ++ rest) (offset + 4) after,
        length-append b rest,
        At-slice input b rest (offset + 4) (offset + 4 + length b) after refl,
      ),
      At-append input b rest (offset + 4) (offset + 4 + length b) after refl,
    )
