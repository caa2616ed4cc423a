-- ===== src/Transport/Tcp/Receipt.antt =====
-- All that `Recv` of a `TCPConnection` can come to, and what `Send` leaves on the stream.
use causalclock.Base.{
  length-take_of_le, take-append_drop, ltb→lt, Bool-cases, ℕ, ◌<◌, true, false, Option, none, some,
  List, [], ◌∷◌, ◌++◌, length, take, drop, ltb, ◌≡◌, refl, sym, ◌∙◌, ◌⊎◌, inl, inr, arith,
}
use mathlib.Core.List.{append-nil, append_assoc}
use causalclock.Base.Bytes.{be}
use causalclock.Transport.Types.{
  Message, Error, Outcome, ok, err, panic, err_connection_closed, err_read_length, err_read_data,
  err_message_too_large,
}
use causalclock.Transport.Codec.{put_block, serialize, deserialize}
use causalclock.Transport.Tcp.Conn.{
  recv_open, put_out, Conn, Fault, length_fault, data_fault, flush_fault, add_one, over_limit,
  close, send, write_frame, read_full, recv, recv_frame, recv_data,
}
use causalclock.Transport.Tcp.Framing.{frames}

-- A frame at the head of the stream, behind it `rest`, of a length within the limit.
pub record Framed (c : Conn) (bytes rest : List ℕ) : Type 0 where
  pub prefix : List ℕ
  pub stream : c.incoming ≡ prefix ++ (bytes ++ rest)
  pub length_prefix : length prefix ≡ 4
  pub be_prefix : be prefix ≡ length bytes
  pub in_limit : over_limit c.config (length bytes) ≡ false

-- The ways in which a receipt ends.
pub data Receipt (c : Conn) : Conn × Outcome Message → Type 0 where
  was_closed : c.closed ≡ true → Receipt c (c, err err_connection_closed)
  short_length :
      (c' : Conn) → length c.incoming < 4 → c'.closed ≡ true → Receipt c (c', err err_read_length)
  too_large :
      (c' : Conn) (prefix rest : List ℕ)
      → c.incoming ≡ prefix ++ rest
      → length prefix ≡ 4
      → over_limit c.config (be prefix) ≡ true
      → c'.closed ≡ true
      → Receipt c (c', err err_message_too_large)
  short_data :
      (c' : Conn) (prefix rest : List ℕ)
      → c.incoming ≡ prefix ++ rest
      → length prefix ≡ 4
      → length rest < be prefix
      → c'.closed ≡ true
      → Receipt c (c', err err_read_data)
  arrived :
      (bytes rest : List ℕ) (m : Message)
      → Framed c bytes rest
      → deserialize bytes ≡ ok m
      → Receipt c (record c { incoming = rest; recv_count = add_one c.recv_count }, ok m)
  refused :
      (bytes rest : List ℕ) (e : Error)
      → Framed c bytes rest
      → deserialize bytes ≡ err e
      → Receipt c (record c { incoming = rest }, err e)
  crashed :
      (bytes rest : List ℕ)
      → Framed c bytes rest
      → deserialize bytes ≡ panic
      → Receipt c (record c { incoming = rest }, panic)

pub close-closed : (c : Conn) → (close c).closed ≡ true
unfolding close
close-closed c = ground arith

-- A reading of `n` bytes fails where fewer are left, and else cuts the stream behind them.
read_full_cases :
    (n : ℕ) (input : List ℕ)
    → ((length input < n) × (read_full n input ≡ none))
      ⊎ ((bytes : List ℕ) × (rest : List ℕ) × (read_full n input ≡ some (bytes, rest))
          × (input ≡ bytes ++ rest)
          × (length bytes ≡ n))
unfolding read_full
read_full_cases n input = elim (Bool-cases (ltb (length input) n)) [
  | inl short ↦ inl (ltb→lt _ _ short, rw short)
  | inr long ↦ inr (
    take n input,
    drop n input,
    rw long,
    sym (take-append_drop n input),
    length-take_of_le n input (ground (arith, long)),
  )
]

recv_data-Receipt :
    (c : Conn) (bytes rest : List ℕ) (o : Outcome Message)
    → deserialize bytes ≡ o
    → Framed c bytes rest
    → Receipt c (recv_data (record c { incoming = rest }) bytes)
unfolding recv_data
recv_data-Receipt c bytes rest (ok m) e f = rw (recv_data, e) (arrived bytes rest m f e)
recv_data-Receipt c bytes rest (err e') e f = rw (recv_data, e) (refused bytes rest e' f e)
recv_data-Receipt c bytes rest panic e f = rw (recv_data, e) (crashed bytes rest f e)

recv_frame-Receipt :
    (c : Conn) (prefix rest : List ℕ)
    → c.incoming ≡ prefix ++ rest
    → length prefix ≡ 4
    → Receipt c (recv_frame (record c { incoming = rest }) (be prefix))
unfolding recv_frame
recv_frame-Receipt c prefix rest e h = elim (Bool-cases (over_limit c.config (be prefix))) [
  | inl over ↦
      let c' = record c { incoming = rest } in
      simp over (too_large (close c') prefix rest e h over (close-closed c'))
  | inr within ↦ elim (read_full_cases (be prefix) rest) [
    | inl (short, failed) ↦
        let c' = record c { incoming = [] } in
        simp (within, failed) (short_data (close c') prefix rest e h short (close-closed c'))
    | inr (bytes, behind, read, cut, n) ↦
        simp (within, read)
          (recv_data-Receipt c bytes behind (deserialize bytes) refl (record {
            prefix = prefix;
            stream = e ∙ rw cut;
            length_prefix = h;
            be_prefix = sym n;
            in_limit = rw n within;
          }))
  ]
]

recv_open-Receipt : (c : Conn) → Receipt c (recv_open c)
unfolding recv_open
recv_open-Receipt c = elim (read_full_cases 4 c.incoming) [
  | inl (short, failed) ↦
      let c' = record c { incoming = [] } in
      rw (recv_open, failed) (short_length (close c') short (close-closed c'))
  | inr (prefix, rest, read, cut, n) ↦ rw (recv_open, read) (recv_frame-Receipt c prefix rest cut n)
]

-- Every receipt ends in one of the ways of `Receipt`: the connection was closed before; it is
-- closed now, the stream being short of a prefix or of its data, or a prefix being over the limit;
-- or one frame within the limit is taken from the stream, and the connection stays as it was but
-- for the count of a message that could be read.
pub recv-Receipt : (c : Conn) → Receipt c (recv c)
unfolding recv
recv-Receipt c = elim (Bool-cases c.closed) [
  | inl shut ↦ simp shut (was_closed shut)
  | inr working ↦ simp working (recv_open-Receipt c)
]

-- While a connection is open, whole frames have left it.
unfoldable pub InStep : Conn → Type 0
InStep c = (c.closed ≡ true) ⊎ ((ms : List Message) × (c.outgoing ≡ frames ms))

pub frames-append : (ms ns : List Message) → frames (ms ++ ns) ≡ frames ms ++ frames ns
frames-append [] ns = refl
frames-append (m ∷ ms) ns =
    rw (frames-append ms ns, append_assoc (put_block (serialize m)) (frames ms) (frames ns))

stopped : (c : Conn) (bytes : List ℕ) → InStep (close (put_out bytes c))
unfolding InStep
stopped c bytes = inl (close-closed (put_out bytes c))

write_frame-InStep :
    (c : Conn) (fault : Option Fault) (m : Message)
    → InStep c
    → c.closed ≡ false
    → InStep (write_frame c fault (serialize m)).0
unfolding write_frame InStep
write_frame-InStep c none m (inl shut) o = inl shut
write_frame-InStep c none m (inr (ms, out)) o =
    inr (ms ++ (m ∷ []), rw (out, frames-append ms (m ∷ []), append-nil (put_block (serialize m))))
write_frame-InStep c (some (length_fault n)) m h o = stopped c _
write_frame-InStep c (some (data_fault n)) m h o = stopped c _
write_frame-InStep c (some (flush_fault n)) m h o = stopped c _

-- A send, whatever fault meets it and whatever it sends, leaves a connection closed or with whole
-- frames on its stream, if it was so before: a connection that stays open stays in step.
pub send-InStep :
    (c : Conn) (fault : Option Fault) (m : Option Message) → InStep c → InStep (send c fault m).0
unfolding send
send-InStep c fault none h = elim (Bool-cases c.closed) [
  | inl shut ↦ simp shut h
  | inr working ↦ simp working h
]
send-InStep c fault (some m) h = elim (Bool-cases c.closed) [
  | inl shut ↦ simp shut h
  | inr working ↦ elim (Bool-cases (over_limit c.config (length (serialize m)))) [
    | inl over ↦ simp (working, over) h
    | inr within ↦ simp (working, within) (write_frame-InStep c fault m h working)
  ]
]
