-- ===== src/Transport/Tcp/Overlap.antt =====
-- Calls of `Send`, `Recv` and `Close` that overlap on one `TCPConnection`. A `Send` tests the flag
-- `closed` before it waits for `sendMu`, so that others can come between; under the lock its writes
-- are not mixed with those of another. A `Recv` shares only that flag with a `Send`, and is one step.
use causalclock.Base.{
  ℕ, ◌+◌, true, false, Option, none, some, List, [], ◌∷◌, ◌++◌, length, take, drop,
  take-append_drop, length-append, arith, ◌≡◌, refl, sym, ap, ◌∙◌, ◌%◌, ◌^◌,
}
use mathlib.Core.List.{append-nil, append_assoc}
use causalclock.Base.Bytes.{put_be}
use causalclock.Transport.Types.{Message, Error, ok, err, TransportConfig}
use causalclock.Transport.Codec.{put_block, serialize}
use causalclock.Transport.Tcp.Conn.{
  Conn, Fault, length_fault, data_fault, flush_fault, new_conn, over_limit, close, put_out,
  write_frame, recv,
}
use causalclock.Transport.Tcp.Framing.{frames}
use causalclock.Transport.Tcp.Receipt.{close-closed, frames-append}
use causalclock.Transport.Tcp.Kept.{IsKept, close-IsKept, recv-IsKept}

-- The connection, and how many sends are past their test of the flag.
pub record Sends : Type 0 where
  pub conn : Conn
  pub sending : ℕ

-- The interleavings of such calls on a new connection. `whole` are the messages whose writes came
-- back without an error, in that order, and `torn` is the last one whose writes failed. Nothing
-- leaves a socket that is closed.
pub data SendReach (cfg : TransportConfig) (arriving : List ℕ)
    : List Message → Option Message → Sends → Type 0 where
  at_start : SendReach cfg arriving [] none (record { conn = new_conn cfg arriving; sending = 0 })
  passed :
      {whole : List Message} {torn : Option Message} {w : Sends}
      → SendReach cfg arriving whole torn w
      → w.conn.closed ≡ false
      → SendReach cfg arriving whole torn (record w { sending = w.sending + 1 })
  too_long :
      {whole : List Message} {torn : Option Message} {w : Sends} (n : ℕ) (m : Message)
      → SendReach cfg arriving whole torn w
      → w.sending ≡ n + 1
      → over_limit w.conn.config (length (serialize m)) ≡ true
      → SendReach cfg arriving whole torn (record w { sending = n })
  wrote :
      {whole : List Message} {torn : Option Message} {w : Sends} {c : Conn} (n : ℕ)
      (fault : Option Fault) (m : Message)
      → SendReach cfg arriving whole torn w
      → w.sending ≡ n + 1
      → w.conn.closed ≡ false
      → over_limit w.conn.config (length (serialize m)) ≡ false
      → write_frame w.conn fault (serialize m) ≡ (c, ok tt)
      → SendReach cfg arriving (whole ++ (m ∷ [])) torn (record { conn = c; sending = n })
  failed :
      {whole : List Message} {torn : Option Message} {w : Sends} {c : Conn} {e : Error} (n : ℕ)
      (fault : Option Fault) (m : Message)
      → SendReach cfg arriving whole torn w
      → w.sending ≡ n + 1
      → w.conn.closed ≡ false
      → over_limit w.conn.config (length (serialize m)) ≡ false
      → write_frame w.conn fault (serialize m) ≡ (c, err e)
      → SendReach cfg arriving whole (some m) (record { conn = c; sending = n })
  found_closed :
      {whole : List Message} {torn : Option Message} {w : Sends} (n : ℕ)
      → SendReach cfg arriving whole torn w
      → w.sending ≡ n + 1
      → w.conn.closed ≡ true
      → SendReach cfg arriving whole torn (record w { sending = n })
  received :
      {whole : List Message} {torn : Option Message} {w : Sends}
      → SendReach cfg arriving whole torn w
      → SendReach cfg arriving whole torn (record w { conn = (recv w.conn).0 })
  closed_now :
      {whole : List Message} {torn : Option Message} {w : Sends}
      → SendReach cfg arriving whole torn w
      → SendReach cfg arriving whole torn (record w { conn = close w.conn })

-- The frame of the message whose writes failed, if there is one.
abbrev pub torn_frame : Option Message → List ℕ
torn_frame none = []
torn_frame (some m) = put_block (serialize m)

-- What has left are the frames of the messages in `whole`, in that order, and then a part of the
-- frame of `torn`; on an open connection no message is torn, and the count is that of `whole`.
pub record IsWhole (whole : List Message) (torn : Option Message) (c : Conn) : Type 0 where
  pub part : List ℕ
  pub missing : List ℕ
  pub stream : c.outgoing ≡ frames whole ++ part
  pub cut : part ++ missing ≡ torn_frame torn
  pub complete : c.closed ≡ false → torn ≡ none
  pub counted : c.send_count ≡ length whole % 2 ^ 64

kept-IsWhole :
    {whole : List Message} {torn : Option Message} (c c' : Conn)
    → IsKept c c'
    → IsWhole whole torn c
    → IsWhole whole torn c'
kept-IsWhole c c' k h = record {
  part = h.part;
  missing = h.missing;
  stream = k.sent ∙ h.stream;
  cut = h.cut;
  complete = λ o. h.complete (k.opened o);
  counted = k.counted ∙ h.counted;
}

one_more :
    (ms : List Message) (m : Message)
    → frames (ms ++ (m ∷ [])) ≡ frames ms ++ put_block (serialize m)
one_more ms m = rw (frames-append ms (m ∷ []), append-nil (put_block (serialize m)))

front_empty : (xs ys : List ℕ) → xs ++ ys ≡ [] → xs ≡ []
front_empty [] ys e = refl
front_empty (x ∷ xs) ys e = cc

-- All that has left an open connection.
whole_stream :
    {whole : List Message} {torn : Option Message} (c : Conn) (h : IsWhole whole torn c)
    → c.closed ≡ false
    → c.outgoing ≡ frames whole
whole_stream {whole} c h o =
    let nothing = h.cut ∙ ap torn_frame (h.complete o) in
    h.stream
    ∙ ap (λ x. frames whole ++ x) (front_empty h.part h.missing nothing)
    ∙ append-nil (frames whole)

true_ne_false : true ≡ false → ⊥
true_ne_false h = cc

-- A frame that was written in part, on a connection that is closed for it.
partly :
    {whole : List Message} {torn : Option Message} (c : Conn) (m : Message) (bytes missing : List ℕ)
    → IsWhole whole torn c
    → c.closed ≡ false
    → bytes ++ missing ≡ put_block (serialize m)
    → IsWhole whole (some m) (close (put_out bytes c))
partly c m bytes missing h o e =
    let kept = close-IsKept (put_out bytes c) in
    record {
      part = bytes;
      missing = missing;
      stream = kept.sent ∙ ap (λ x. x ++ bytes) (whole_stream c h o);
      cut = e;
      complete =
          λ open_now. absurd (true_ne_false (sym (close-closed (put_out bytes c)) ∙ open_now));
      counted = kept.counted ∙ h.counted;
    }

wrote-IsWhole :
    {whole : List Message} {torn : Option Message} (c c' : Conn) (fault : Option Fault)
    (m : Message)
    → IsWhole whole torn c
    → c.closed ≡ false
    → write_frame c fault (serialize m) ≡ (c', ok tt)
    → IsWhole (whole ++ (m ∷ [])) torn c'
unfolding write_frame
wrote-IsWhole {whole} {torn} c c' none m h o e = rw (← ap (λ x. x.0) e) (record {
  part = [];
  missing = [];
  stream =
      ap (λ x. x ++ put_block (serialize m)) (whole_stream c h o)
      ∙ sym (one_more whole m)
      ∙ sym (append-nil (frames (whole ++ (m ∷ []))));
  cut = sym (ap torn_frame (h.complete o));
  complete = h.complete;
  counted = omega (arith, h.counted, length-append whole (m ∷ []));
})
wrote-IsWhole c c' (some (length_fault n)) m h o e = cc
wrote-IsWhole c c' (some (data_fault n)) m h o e = cc
wrote-IsWhole c c' (some (flush_fault n)) m h o e = cc

failed-IsWhole :
    {whole : List Message} {torn : Option Message} (c c' : Conn) (fault : Option Fault)
    (m : Message) (problem : Error)
    → IsWhole whole torn c
    → c.closed ≡ false
    → write_frame c fault (serialize m) ≡ (c', err problem)
    → IsWhole whole (some m) c'
unfolding write_frame put_block
failed-IsWhole c c' none m problem h o e = cc
failed-IsWhole c c' (some (length_fault n)) m problem h o e =
    let prefix = put_be 4 (length (serialize m) % 2 ^ 32) in
    rw (← ap (λ x. x.0) e) (
      partly c m (take n prefix) (drop n prefix ++ serialize m) h o (
        sym (append_assoc (take n prefix) (drop n prefix) (serialize m))
        ∙ ap (λ x. x ++ serialize m) (take-append_drop n prefix)))
failed-IsWhole c c' (some (data_fault n)) m problem h o e = rw (← ap (λ x. x.0) e) (
    partly c m (take n (put_block (serialize m))) (drop n (put_block (serialize m))) h o
      (take-append_drop n (put_block (serialize m))))
failed-IsWhole c c' (some (flush_fault n)) m problem h o e = rw (← ap (λ x. x.0) e) (
    partly c m (take n (put_block (serialize m))) (drop n (put_block (serialize m))) h o
      (take-append_drop n (put_block (serialize m))))

-- In every interleaving of calls of `Send`, `Recv` and `Close` on a new TCP connection, whatever
-- faults the sends meet, what has left are the whole frames of exactly the messages whose writes
-- came back without an error, in that order, followed by a part of the frame of at most one message,
-- the one whose writes failed. While the connection is open there is no such message. The count of
-- the messages sent is the number of the former, modulo 2^64.
pub SendReach-IsWhole :
    (cfg : TransportConfig) (arriving : List ℕ) {whole : List Message} {torn : Option Message}
    {w : Sends}
    → SendReach cfg arriving whole torn w
    → IsWhole whole torn w.conn
unfolding new_conn
SendReach-IsWhole cfg arriving at_start = record {
  part = [];
  missing = [];
  stream = refl;
  cut = refl;
  complete = λ o. refl;
  counted = refl;
}
SendReach-IsWhole cfg arriving (passed r o) = SendReach-IsWhole cfg arriving r
SendReach-IsWhole cfg arriving (too_long n m r s over) = SendReach-IsWhole cfg arriving r
SendReach-IsWhole cfg arriving (wrote {w} {c} n fault m r s o within e) =
    wrote-IsWhole w.conn c fault m (SendReach-IsWhole cfg arriving r) o e
SendReach-IsWhole cfg arriving (failed {w} {c} {e = problem} n fault m r s o within e) =
    failed-IsWhole w.conn c fault m problem (SendReach-IsWhole cfg arriving r) o e
SendReach-IsWhole cfg arriving (found_closed n r s shut) = SendReach-IsWhole cfg arriving r
SendReach-IsWhole cfg arriving (received {w} r) =
    kept-IsWhole w.conn (recv w.conn).0 (recv-IsKept w.conn) (SendReach-IsWhole cfg arriving r)
SendReach-IsWhole cfg arriving (closed_now {w} r) =
    kept-IsWhole w.conn (close w.conn) (close-IsKept w.conn) (SendReach-IsWhole cfg arriving r)
