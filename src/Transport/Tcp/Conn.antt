-- ===== src/Transport/Tcp/Conn.antt =====
-- `TCPConnection` of `transport/tcp.go`. The socket is two streams of bytes: `incoming` are the
-- bytes that arrive before the stream ends, fails or reaches its deadline, `outgoing` those that
-- left. The buffers and the deadlines do not show beyond that.
use causalclock.Base.{
  ℕ, ◌+◌, ◌%◌, ◌^◌, Bool, true, false, Option, none, some, List, [], ◌++◌, length, ltb, ◌&&◌,
  if◌then◌else◌, take, drop,
}
use causalclock.Base.Bytes.{put_be, be}
use causalclock.Transport.Types.{
  Message, Outcome, ok, err, panic, TransportConfig, err_connection_closed, err_message_too_large,
  err_read_length, err_read_data, err_write_length, err_write_data, err_flush,
}
use causalclock.Transport.Codec.{put_block, serialize, deserialize}

-- `TCPConnection`; the counts are the bits of an `atomic.Int64`.
pub record Conn : Type 0 where
  pub config : TransportConfig
  pub closed : Bool
  pub incoming : List ℕ
  pub outgoing : List ℕ
  pub send_count : ℕ
  pub recv_count : ℕ

-- The call of the buffered writer that fails, with the bytes that had left by then.
pub data Fault : Type 0 where
  length_fault data_fault flush_fault : ℕ → Fault

abbrev pub add_one : ℕ → ℕ
add_one n = (n + 1) % 2 ^ 64

-- The connections that `Dial` and `Accept` make.
unfoldable pub new_conn : TransportConfig → List ℕ → Conn
new_conn cfg arriving = record {
  config = cfg;
  closed = false;
  incoming = arriving;
  outgoing = [];
  send_count = 0;
  recv_count = 0;
}

-- `Close`, with `close`
unfoldable pub close : Conn → Conn
close c = if c.closed then c else record c { closed = true }

-- `c.config.MaxMessageSize > 0 && n > c.config.MaxMessageSize`
abbrev pub over_limit : TransportConfig → ℕ → Bool
over_limit cfg n = ltb 0 cfg.max_message_size && ltb cfg.max_message_size n

abbrev pub put_out : List ℕ → Conn → Conn
put_out bytes c = record c { outgoing = c.outgoing ++ bytes }

-- The writes of `Send` and the flush.
unfoldable pub write_frame : Conn → Option Fault → List ℕ → Conn × Outcome (Unit {0})
unfolding close put_block
write_frame c none bytes =
    (record (put_out (put_block bytes) c) { send_count = add_one c.send_count }, ok tt)
write_frame c (some (length_fault n)) bytes =
    (close (put_out (take n (put_be 4 (length bytes % 2 ^ 32))) c), err err_write_length)
write_frame c (some (data_fault n)) bytes =
    (close (put_out (take n (put_block bytes)) c), err err_write_data)
write_frame c (some (flush_fault n)) bytes =
    (close (put_out (take n (put_block bytes)) c), err err_flush)

-- `Send`; a nil message makes `serializeMessage` panic.
unfoldable pub send : Conn → Option Fault → Option Message → Conn × Outcome (Unit {0})
unfolding write_frame serialize
send c fault none = if c.closed then (c, err err_connection_closed) else (c, panic)
send c fault (some m) =
    if c.closed
    then (c, err err_connection_closed)
    else if over_limit c.config (length (serialize m))
    then (c, err err_message_too_large)
    else write_frame c fault (serialize m)

-- `io.ReadFull` into a buffer of `n` bytes: the bytes and those behind them.
unfoldable pub read_full : ℕ → List ℕ → Option (List ℕ × List ℕ)
read_full n input = if ltb (length input) n then none else some (take n input, drop n input)

-- The end of `Recv`: a message that cannot be read leaves the connection open.
unfoldable pub recv_data : Conn → List ℕ → Conn × Outcome Message
recv_data c bytes = elim (deserialize bytes) [
  | ok m ↦ (record c { recv_count = add_one c.recv_count }, ok m)
  | err e ↦ (c, err e)
  | panic ↦ (c, panic)
]

-- `Recv` past the length prefix.
unfoldable pub recv_frame : Conn → ℕ → Conn × Outcome Message
unfolding close read_full recv_data
recv_frame c msg_len =
    if over_limit c.config msg_len
    then (close c, err err_message_too_large)
    else elim (read_full msg_len c.incoming) [
      | none ↦ (close (record c { incoming = [] }), err err_read_data)
      | some (bytes, rest) ↦ recv_data (record c { incoming = rest }) bytes
    ]

-- `Recv` on an open connection.
unfoldable pub recv_open : Conn → Conn × Outcome Message
unfolding close read_full recv_frame
recv_open c = elim (read_full 4 c.incoming) [
  | none ↦ (close (record c { incoming = [] }), err err_read_length)
  | some (len_buf, rest) ↦ recv_frame (record c { incoming = rest }) (be len_buf)
]

-- `Recv`
unfoldable pub recv : Conn → Conn × Outcome Message
unfolding recv_open
recv c = if c.closed then (c, err err_connection_closed) else recv_open c
