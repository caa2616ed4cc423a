-- ===== src/Transport/Wire/Truncation.antt =====
-- What becomes of a sender or a receiver whose name is longer than its length byte can say.
use causalclock.Base.{ℕ, Str, ◌+◌, ◌%◌, ◌≤◌, List, ◌∷◌, length, ◌≡◌, ◌≢◌, ap, arith}
use causalclock.Base.Slices.{length-slice}
use causalclock.Transport.Types.{Message, Error, ok, err_invalid_from_length}
use causalclock.Transport.Codec.{serialize, read_text, read_tail, deserialize}

read_text_first :
    (n : ℕ) (rest : List ℕ) (e : Error) {s : Str} {o : ℕ}
    → read_text (n ∷ rest) 0 e ≡ ok (s, o)
    → length s ≡ n
unfolding read_text
read_text_first n rest e h = ground (arith, length-slice (n ∷ rest) (0 + 1) (0 + 1 + n))

read_tail-from :
    (input : List ℕ) (a b : Str) (offset : ℕ) (m : Message)
    → read_tail input a b offset ≡ ok m
    → m.from ≡ a
unfolding read_tail
read_tail-from input a b offset m h = ground arith

-- The sender's name in a decoded message has the length that the first byte states.
length-from :
    (n : ℕ) (rest : List ℕ) (m : Message) → deserialize (n ∷ rest) ≡ ok m → length m.from ≡ n
unfolding deserialize
length-from n rest m h =
    grind (arith, read_text_first n rest err_invalid_from_length, read_tail-from (n ∷ rest))

-- Whatever is decoded from a message whose sender's name has 256 bytes or more, it names another
-- sender: the name's length arrives modulo 256.
pub deserialize_long_from :
    (m : Message) {m' : Message}
    → 256 ≤ length m.from
    → deserialize (serialize m) ≡ ok m'
    → (length m'.from ≡ length m.from % 256) × (m'.from ≢ m.from)
unfolding serialize
deserialize_long_from m {m'} h e =
    let short : length m'.from ≡ length m.from % 256 = length-from _ _ m' e in
    (short, λ p. omega (arith, short, ap length p))
