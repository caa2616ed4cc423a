-- ===== src/Transport/Mock/Net.antt =====
-- `MockTransport` and `MockListener` of `transport/mock.go`. Connections and listeners stand in
-- stores, since the transport, the listener's channel and the clients share them; maps and
-- channels hold their places.
use causalclock.Base.{
  ℕ, zero, suc, Str, Bool, true, false, not, Option, none, some, List, [], ◌∷◌, ◌++◌, length,
  lookup, insert, ltb, ◌==◌, ◌&&◌, ◌||◌, if◌then◌else◌,
}
use causalclock.Base.Slices.{get_elem?}
use causalclock.Transport.Types.{
  TransportConfig, Error, Outcome, ok, err, panic, err_listener_closed, err_dial_failed,
  err_context_cancelled,
}
use causalclock.Transport.Mock.Conn.{
  MockConn, new_conn, Hooks, SendHook, Wait, done, blocked, add_one, capacity,
}
use causalclock.Transport.Types.{Message}

-- `MockListener`; its channel of at most 64 connections is closed with the flag.
pub record MockListener : Type 0 where
  pub addr : Str
  pub connections : List ℕ
  pub closed : Bool
  pub accept_count : ℕ  -- the bits of an atomic.Int64
  pub accept_error_next : Bool

-- `MockTransport`, with the stores of all connections and listeners that it made.
pub record MockTransport : Type 0 where
  pub connections : List (Str × ℕ)
  pub listeners : List (Str × ℕ)
  pub closed : Bool
  pub config : TransportConfig
  pub hooks : Hooks
  pub dialed : List MockConn
  pub opened : List MockListener

-- `mock-node`
abbrev pub default_node : Str
default_node = b'm' ∷ b'o' ∷ b'c' ∷ b'k' ∷ b'-' ∷ b'n' ∷ b'o' ∷ b'd' ∷ b'e' ∷ []

-- `NewMockTransport`
unfoldable pub new_transport : TransportConfig → MockTransport
new_transport cfg = record {
  connections = [];
  listeners = [];
  closed = false;
  config = if length cfg.node_id == 0 then record cfg { node_id = default_node } else cfg;
  hooks = record { on_send = none; on_recv = none; on_dial = none; message_dropper = none };
  dialed = [];
  opened = [];
}

abbrev pub new_listener : Str → MockListener
new_listener addr = record {
  addr = addr;
  connections = [];
  closed = false;
  accept_count = 0;
  accept_error_next = false;
}

-- `Listen`, with the place of the listener; one that was there is replaced.
unfoldable pub listen : MockTransport → Str → Outcome (MockTransport × ℕ)
listen t addr =
    let next : MockTransport = record t {
      listeners = insert addr (length t.opened) t.listeners;
      opened = t.opened ++ (new_listener addr ∷ []);
    } in
    if t.closed then err err_listener_closed else ok (next, length t.opened)

-- A write to the store of listeners.
unfoldable pub update_listener :
    ℕ → (MockListener → MockListener) → List MockListener → List MockListener
update_listener i f [] = []
update_listener zero f (l ∷ ls) = f l ∷ ls
update_listener (suc i) f (l ∷ ls) = l ∷ update_listener i f ls

abbrev pub push : ℕ → MockListener → MockListener
push i l = record l { connections = l.connections ++ (i ∷ []) }

-- The `select` of `Dial` on the listener's channel, with the connection's place.
unfoldable pub dial_select :
    MockTransport → ℕ → MockListener → ℕ → Bool → Bool → Wait (MockTransport × Outcome ℕ)
unfolding update_listener
dial_select t i l place cancelled pick =
    let ready = l.closed || ltb (length l.connections) capacity in
    if cancelled && (pick || not ready)
    then done (t, err err_context_cancelled)
    else if l.closed
    then done (t, panic)
    else if ready
    then done (record t { opened = update_listener i (push place) t.opened }, ok place)
    else blocked

-- The connection is made and entered in the map before the listener is offered it.
unfoldable pub enter_conn : MockTransport → Str → MockTransport
unfolding new_conn
enter_conn t addr = record t {
  connections = insert addr (length t.dialed) t.connections;
  dialed = t.dialed ++ (new_conn t.config.node_id addr ∷ []);
}

-- `Dial` past its hook. A place outside the store does not occur, and is a failed dial.
unfoldable pub dial_listener : MockTransport → Str → Bool → Bool → Wait (MockTransport × Outcome ℕ)
unfolding dial_select enter_conn
dial_listener t addr cancelled pick = elim (lookup addr t.listeners) [
  | none ↦ done (t, err err_dial_failed)
  | some i ↦ elim (get_elem? t.opened i) [
    | none ↦ done (t, err err_dial_failed)
    | some l ↦ dial_select (enter_conn t addr) i l (length t.dialed) cancelled pick
  ]
]

-- `Dial`; it does not look whether the transport is closed.
unfoldable pub dial : MockTransport → Str → Bool → Bool → Wait (MockTransport × Outcome ℕ)
unfolding dial_listener
dial t addr cancelled pick = elim t.hooks.on_dial [
  | none ↦ dial_listener t addr cancelled pick
  | some hook ↦ elim (hook addr) [
    | none ↦ dial_listener t addr cancelled pick
    | some e ↦ done (t, err e)
  ]
]

-- `Close` of the listener.
unfoldable pub close_listener : MockListener → MockListener
close_listener l = if l.closed then l else record l { closed = true }

-- The loop of `Close` over the listeners.
unfoldable pub close_listeners : List (Str × ℕ) → List MockListener → List MockListener
unfolding update_listener close_listener
close_listeners [] ls = ls
close_listeners ((addr, i) ∷ m) ls = close_listeners m (update_listener i close_listener ls)

-- `Close` of the transport.
unfoldable pub close_transport : MockTransport → MockTransport
unfolding close_listeners
close_transport t =
    if t.closed
    then t
    else record t { closed = true; opened = close_listeners t.listeners t.opened }

-- `SetOnSend`, `SetOnRecv`, `SetOnDial`, `SetMessageDropper`
abbrev pub set_on_send : Option SendHook → MockTransport → MockTransport
set_on_send hook t = record t { hooks = record t.hooks { on_send = hook } }

abbrev pub set_on_recv : Option ℕ → MockTransport → MockTransport
set_on_recv hook t = record t { hooks = record t.hooks { on_recv = hook } }

abbrev pub set_on_dial : Option (Str → Option Error) → MockTransport → MockTransport
set_on_dial hook t = record t { hooks = record t.hooks { on_dial = hook } }

abbrev pub set_message_dropper : Option (Option Message → Bool) → MockTransport → MockTransport
set_message_dropper dropper t = record t { hooks = record t.hooks { message_dropper = dropper } }

-- `GetConnection`
unfoldable pub get_connection : MockTransport → Str → Option ℕ
get_connection t addr = lookup addr t.connections

-- `Accept` up to its `select`: `none` goes on, after the count.
unfoldable pub accept_begin : MockListener → MockListener × Option Error
accept_begin l =
    if l.closed
    then (l, some err_listener_closed)
    else if l.accept_error_next
    then (record l { accept_error_next = false }, some err_dial_failed)
    else (record l { accept_count = add_one l.accept_count }, none)

-- The `select` of `Accept`: a closed channel that is empty is ready, and gives nil.
unfoldable pub accept_select : MockListener → Bool → Bool → Wait (MockListener × Outcome (Option ℕ))
accept_select l cancelled pick = elim l.connections [
  | i ∷ rest ↦
      if cancelled && pick
      then done (l, err err_context_cancelled)
      else done (record l { connections = rest }, ok (some i))
  | [] ↦
      if cancelled && (pick || not l.closed)
      then done (l, err err_context_cancelled)
      else if l.closed
      then done (l, ok none)
      else blocked
]

-- `Accept` without an interruption.
unfoldable pub accept : MockListener → Bool → Bool → Wait (MockListener × Outcome (Option ℕ))
unfolding accept_begin accept_select
accept l cancelled pick =
    let (l', stopped) = accept_begin l in
    elim stopped [ some e ↦ done (l', err e) | none ↦ accept_select l' cancelled pick ]

-- `SetAcceptErrorNext`
abbrev pub set_accept_error_next : Bool → MockListener → MockListener
set_accept_error_next fail l = record l { accept_error_next = fail }
