-- ===== src/Transport/Tcp/Framing.antt =====
-- The framing of `TCPConnection`: what one end sends, the other receives.
use causalclock.Base.{
  ltb_of_le, drop-append, take-append, ℕ, zero, suc, ◌+◌, ◌%◌, ◌^◌, ◌≤◌, ◌<◌, false, none, some,
  List, [], ◌∷◌, ◌++◌, length, length-append, map, All, ◌≡◌, refl, sym, ◌∙◌, arith,
}
use mathlib.Core.List.{append-nil, append_assoc}
use causalclock.Base.Bytes.{put_be, length-put_be, be-put_be4}
use causalclock.Transport.Types.{Message, Outcome, ok, err, panic}
use causalclock.Transport.Codec.{put_block, serialize}
use causalclock.Transport.Wire.RoundTrip.{received, Fits, deserialize-serialize}
use causalclock.Transport.Tcp.Conn.{
  recv_open, Conn, add_one, over_limit, send, read_full, recv, recv_frame, recv_data,
}

-- A list that starts with as many elements as are wanted.
read_full-append : (xs ys : List ℕ) (n : ℕ) → n ≡ length xs → read_full n (xs ++ ys) ≡ some (xs, ys)
unfolding read_full
read_full-append xs ys n e = rw (
  e,
  take-append,
  drop-append,
  ltb_of_le (length (xs ++ ys)) (length xs) (omega (arith, length-append xs ys)),
)

-- A message that both ends accept and that the format carries.
pub record Travels (a b : Conn) (m : Message) : Type 0 where
  pub fields_fit : Fits m
  pub not_empty : 1 ≤ length m.from + length m.to + length m.body + length m.vector_clock_data
  pub length_fits : length (serialize m) < 2 ^ 32
  pub sendable : over_limit a.config (length (serialize m)) ≡ false
  pub receivable : over_limit b.config (length (serialize m)) ≡ false

-- Sends without a fault, one after the other.
unfoldable pub send_all : Conn → List Message → Outcome Conn
unfolding send
send_all c [] = ok c
send_all c (m ∷ ms) =
    let (c', sent) = send c none (some m) in
    elim sent [ ok u ↦ send_all c' ms | err e ↦ err e | panic ↦ panic ]

-- A number of receipts, one after the other.
unfoldable pub recv_many : ℕ → Conn → Outcome (Conn × List Message)
unfolding recv
recv_many zero c = ok (c, [])
recv_many (suc n) c =
    let (c', got) = recv c in
    elim got [
      | ok m ↦ elim (recv_many n c') [
        | ok (c'', ms) ↦ ok (c'', m ∷ ms)
        | err e ↦ err e
        | panic ↦ panic
      ]
      | err e ↦ err e
      | panic ↦ panic
    ]

-- The bytes of messages that are sent one after the other.
abbrev pub frames : List Message → List ℕ
frames [] = []
frames (m ∷ ms) = put_block (serialize m) ++ frames ms

send_one :
    (a b : Conn) (m : Message)
    → a.closed ≡ false
    → Travels a b m
    → send a none (some m) ≡ (
      record a {
        outgoing = a.outgoing ++ put_block (serialize m);
        send_count = add_one a.send_count;
      },
      ok tt,
    )
unfolding send
send_one a b m o t = ground (arith, t.sendable)

-- The frame of bytes is read whole.
recv_block :
    (c : Conn) (bytes tail : List ℕ)
    → c.closed ≡ false
    → length bytes < 2 ^ 32
    → over_limit c.config (length bytes) ≡ false
    → c.incoming ≡ put_block bytes ++ tail
    → recv c ≡ recv_data (record c { incoming = tail }) bytes
unfolding recv recv_open recv_frame put_block
recv_block c bytes tail o fits limit e =
    let small : length bytes % 2 ^ 32 ≡ length bytes = omega arith in
    let e' : c.incoming ≡ put_be 4 (length bytes) ++ (bytes ++ tail) =
      e ∙ rw (small, append_assoc) in
    ground (
      arith,
      e',
      read_full-append (put_be 4 (length bytes)) (bytes ++ tail) 4 (sym (length-put_be 4 _)),
      be-put_be4 (length bytes) fits,
      read_full-append bytes tail (length bytes) refl,
    )

recv_one :
    (a b : Conn) (m : Message) (tail : List ℕ)
    → b.closed ≡ false
    → Travels a b m
    → b.incoming ≡ put_block (serialize m) ++ tail
    → recv b ≡ (record b { incoming = tail; recv_count = add_one b.recv_count }, ok (received m))
unfolding recv_data
recv_one a b m tail o t e =
    recv_block b (serialize m) tail o t.length_fits t.receivable e
    ∙ rw (recv_data, deserialize-serialize m t.fields_fit t.not_empty)

Travels-config :
    (a b : Conn) (ms : List Message) (a' b' : Conn)
    → a'.config ≡ a.config
    → b'.config ≡ b.config
    → All (Travels a b) ms
    → All (Travels a' b') ms
Travels-config a b [] a' b' p q h = tt
Travels-config a b (m ∷ ms) a' b' p q (t, h) = (
  record {
    fields_fit = t.fields_fit;
    not_empty = t.not_empty;
    length_fits = t.length_fits;
    sendable = rw p t.sendable;
    receivable = rw q t.receivable;
  },
  Travels-config a b ms a' b' p q h,
)

send_all-frames :
    (a b : Conn) (ms : List Message)
    → a.closed ≡ false
    → All (Travels a b) ms
    → (a' : Conn) × (send_all a ms ≡ ok a') × (a'.outgoing ≡ a.outgoing ++ frames ms)
unfolding send_all
send_all-frames a b [] o h = (a, refl, sym (append-nil a.outgoing))
send_all-frames a b (m ∷ ms) o (t, h) =
    let next : Conn = record a {
      outgoing = a.outgoing ++ put_block (serialize m);
      send_count = add_one a.send_count;
    } in
    let (a', all, out) = send_all-frames next b ms o (Travels-config a b ms next b refl refl h) in
    (
      a',
      ground (arith, send_one a b m o t, all),
      out ∙ append_assoc a.outgoing (put_block (serialize m)) (frames ms),
    )

recv_many-frames :
    (a b : Conn) (ms : List Message) (tail : List ℕ)
    → b.closed ≡ false
    → All (Travels a b) ms
    → b.incoming ≡ frames ms ++ tail
    → (b' : Conn) × (recv_many (length ms) b ≡ ok (b', map received ms)) × (b'.incoming ≡ tail)
unfolding recv_many
recv_many-frames a b [] tail o h e = (b, refl, e)
recv_many-frames a b (m ∷ ms) tail o (t, h) e =
    let next : Conn = record b {
      incoming = frames ms ++ tail;
      recv_count = add_one b.recv_count;
    } in
    let (b', all, rest) =
      recv_many-frames a next ms tail o (Travels-config a b ms a next refl refl h) refl in
    (
      b',
      ground (
        arith,
        recv_one a b m (frames ms ++ tail) o t
            (e ∙ append_assoc (put_block (serialize m)) (frames ms) tail),
        all,
      ),
      rest,
    )

-- What one open end sends without a fault, the other open end receives message by message in the
-- order of sending, as each arrives without its time and its metadata, where every message fits
-- the format and the limits of both ends. What follows on the stream is left for later.
pub send_all-recv_many_tcp :
    (a b : Conn) (ms : List Message) (tail : List ℕ)
    → a.closed ≡ false
    → a.outgoing ≡ []
    → b.closed ≡ false
    → All (Travels a b) ms
    → (a' : Conn) × (b' : Conn) × (send_all a ms ≡ ok a')
      × (recv_many (length ms) (record b { incoming = a'.outgoing ++ tail })
          ≡ ok (b', map received ms))
      × (b'.incoming ≡ tail)
send_all-recv_many_tcp a b ms tail o none_out p h =
    let (a', sent, out) = send_all-frames a b ms o h in
    let there : a'.outgoing ≡ frames ms = out ∙ rw none_out in
    let arrived : Conn = record b { incoming = a'.outgoing ++ tail } in
    let (b', got, rest) =
      recv_many-frames a arrived ms tail p (Travels-config a b ms a arrived refl refl h)
        (rw there) in
    (a', b', sent, got, rest)
