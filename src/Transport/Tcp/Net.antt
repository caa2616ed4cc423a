-- ===== src/Transport/Tcp/Net.antt =====
-- `TCPTransport` and `TCPListener` of `transport/tcp.go`. What the operating system answers is an
-- argument. The connections stand in a store, since the transport and its client share them.
use causalclock.Base.{
  ℕ, zero, suc, ◌+◌, ◌*◌, ◌%◌, ◌^◌, Str, Bool, true, false, Option, none, some, List, [], ◌∷◌, ◌++◌,
  length, insert, ◌==◌, if◌then◌else◌,
}
use causalclock.Transport.Types.{
  TransportConfig, Outcome, ok, err, err_connection_closed, err_listener_closed,
  err_context_cancelled, err_resolve, err_listen, err_dial, err_accept, os_error,
}
use causalclock.Transport.Tcp.Conn.{Conn, new_conn, close}

-- `TCPListener`
pub record TcpListener : Type 0 where
  pub config : TransportConfig
  pub closed : Bool

-- `TCPTransport`: the map holds places of the store `opened`, which has every connection that
-- `Dial` returned. The field `listener` is never set, and is left out.
pub record TcpTransport : Type 0 where
  pub connections : List (Str × ℕ)
  pub config : TransportConfig
  pub active_conns : ℕ  -- the bits of an atomic.Int32
  pub closed : Bool
  pub opened : List Conn

-- `tcp-node`
abbrev pub default_node : Str
default_node = b't' ∷ b'c' ∷ b'p' ∷ b'-' ∷ b'n' ∷ b'o' ∷ b'd' ∷ b'e' ∷ []

-- The two defaults of `NewTCPTransport`.
abbrev pub with_defaults : TransportConfig → TransportConfig
with_defaults cfg =
    let sized =
      if cfg.max_message_size == 0
      then record cfg { max_message_size = 16 * 1024 * 1024 }
      else cfg in
    if length sized.node_id == 0 then record sized { node_id = default_node } else sized

-- `NewTCPTransport`
unfoldable pub new_transport : TransportConfig → TcpTransport
new_transport cfg = record {
  connections = [];
  config = with_defaults cfg;
  active_conns = 0;
  closed = false;
  opened = [];
}

-- `Listen`; `resolved` and `bound` say that the address can be resolved and listened on.
unfoldable pub listen : TcpTransport → Bool → Bool → Outcome TcpListener
listen t resolved bound =
    if t.closed
    then err err_listener_closed
    else if resolved
    then if bound then ok (record { config = t.config; closed = false }) else err err_listen
    else err err_resolve

-- `Dial`, with the place of the new connection; `none` is a failing dialer, else the bytes that
-- will arrive.
unfoldable pub dial : TcpTransport → Str → Option (List ℕ) → Outcome (TcpTransport × ℕ)
dial t remote_addr none = if t.closed then err err_connection_closed else err err_dial
dial t remote_addr (some arriving) =
    let next : TcpTransport = record t {
      connections = insert remote_addr (length t.opened) t.connections;
      active_conns = (t.active_conns + 1) % 2 ^ 32;
      opened = t.opened ++ (new_conn t.config arriving ∷ []);
    } in
    if t.closed then err err_connection_closed else ok (next, length t.opened)

-- `conn.Close()` of the connection at a place.
unfoldable pub close_at : ℕ → List Conn → List Conn
unfolding close
close_at i [] = []
close_at zero (c ∷ cs) = close c ∷ cs
close_at (suc i) (c ∷ cs) = c ∷ close_at i cs

-- The loop of `Close` over the map.
unfoldable pub close_conns : List (Str × ℕ) → List Conn → List Conn
unfolding close_at
close_conns [] cs = cs
close_conns ((addr, i) ∷ m) cs = close_conns m (close_at i cs)

-- `Close`
unfoldable pub close_transport : TcpTransport → TcpTransport
unfolding close_conns
close_transport t = record t {
  closed = true;
  opened = close_conns t.connections t.opened;
  connections = [];
}

-- What the `select` of `Accept` meets: a connection and the bytes that will arrive on it, an
-- error, or the end of the context.
pub data Arrival : Type 0 where
  incoming : List ℕ → Arrival
  failed cancelled : Arrival

-- `Accept`
unfoldable pub accept : TcpListener → Arrival → Outcome Conn
accept l (incoming bytes) =
    if l.closed then err err_listener_closed else ok (new_conn l.config bytes)
accept l failed = if l.closed then err err_listener_closed else err err_accept
accept l cancelled = if l.closed then err err_listener_closed else err err_context_cancelled

-- `Close` of the listener; `fails` says that closing the socket fails.
unfoldable pub close_listener : TcpListener → Bool → TcpListener × Outcome (Unit {0})
close_listener l fails = (record l { closed = true }, if fails then err os_error else ok tt)
