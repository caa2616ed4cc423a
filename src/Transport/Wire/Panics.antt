-- ===== src/Transport/Wire/Panics.antt =====
-- Which inputs `deserialize` panics on, and what a text of 256 bytes or more turns into.
use causalclock.Base.{
  ℕ, Str, ◌+◌, ◌≤◌, ◌<◌, none, List, [], ◌∷◌, length, ◌≡◌, ◌≢◌, ◌↔◌, refl, arith,
}
use causalclock.Base.Slices.{get_elem?, get_elem?_lt, get_elem?_ge}
use causalclock.Transport.Types.{Error, panic}
use causalclock.Transport.Codec.{read_text, read_be, read_block, read_tail, deserialize}

read_be-ne-panic :
    (width : ℕ) (input : List ℕ) (offset : ℕ) (e : Error) → read_be width input offset e ≢ panic
unfolding read_be
read_be-ne-panic width input offset e h = ground arith

read_block-ne-panic :
    (input : List ℕ) (offset : ℕ) (e f : Error) → read_block input offset e f ≢ panic
unfolding read_block
read_block-ne-panic input offset e f h = ground (arith, read_be-ne-panic 4 input offset e)

read_tail-ne-panic : (input : List ℕ) (a b : Str) (offset : ℕ) → read_tail input a b offset ≢ panic
unfolding read_tail
read_tail-ne-panic input a b offset p = grind (arith, read_be-ne-panic, read_block-ne-panic)

-- A first byte that claims all of the input but itself, in an input that is long enough, makes
-- `deserialize` read a length past the end: it panics.
pub deserialize-panic :
    (n : ℕ) (rest : List ℕ) → length rest ≡ n → 18 ≤ n → deserialize (n ∷ rest) ≡ panic
unfolding deserialize read_text
deserialize-panic n rest h k =
    let past : get_elem? (n ∷ rest) (0 + 1 + n) ≡ none =
      get_elem?_ge (n ∷ rest) (0 + 1 + n) (omega arith) in
    ground (arith, past)

-- Past the first text, an offset within the input leads to no panic.
no_panic : (n : ℕ) (rest : List ℕ) → 0 + 1 + n < length (n ∷ rest) → deserialize (n ∷ rest) ≢ panic
unfolding deserialize read_text
no_panic n rest h p =
    let (x, found) = get_elem?_lt (n ∷ rest) (0 + 1 + n) h in
    grind (arith, found, read_tail-ne-panic)

panic_shape :
    (input : List ℕ)
    → deserialize input ≡ panic
    → (n : ℕ) × (rest : List ℕ) × (input ≡ n ∷ rest) × (length rest ≡ n) × (18 ≤ n)
unfolding deserialize read_text
panic_shape [] p = ground arith
panic_shape (n ∷ rest) p =
    let whole : ¬ (0 + 1 + n < length (n ∷ rest)) = λ h. no_panic n rest h p in
    let claimed : length rest ≡ n = ground arith in
    let long : 18 ≤ length rest = ground arith in (n, rest, refl, claimed, omega arith)

-- `deserialize` panics exactly on the inputs whose first byte is the number of bytes behind it,
-- 18 or more; on every other input it returns a message or an error.
pub deserialize-panic_iff :
    (input : List ℕ)
    → (deserialize input ≡ panic)
      ↔ ((n : ℕ) × (rest : List ℕ) × (input ≡ n ∷ rest) × (length rest ≡ n) × (18 ≤ n))
deserialize-panic_iff input =
    (panic_shape input, λ (n, rest, e, h, k). rw e (deserialize-panic n rest h k))
