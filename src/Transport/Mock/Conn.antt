-- ===== src/Transport/Mock/Conn.antt =====
-- `MockConnection` of `transport/mock.go`. The channel of messages is a list of at most 64, and
-- is closed with the flag. A method runs whole up to its `select`, which is a step of its own,
-- since a call may wait there while others change the connection. `cancelled` says that the
-- context is done, and `pick` that a `select` with several ready cases takes the cancellation.
use causalclock.Base.{
  ℕ, ◌+◌, ◌%◌, ◌^◌, Str, Bool, true, false, not, Option, none, some, List, [], ◌∷◌, ◌++◌, length,
  ltb, leb, ◌==◌, ◌&&◌, ◌||◌, if◌then◌else◌,
}
use causalclock.Transport.Types.{
  Message, Error, Outcome, ok, err, panic, err_connection_closed, err_dial_failed,
  err_context_cancelled,
}

-- `func(*Message) error`; a message may be nil.
abbrev pub SendHook : Type 0
SendHook = Option Message → Option Error

-- `MockConnection`. A hook for `Recv` returns nothing, and goes by a number. The last two fields
-- are never set, and so are zero. The counts are the bits of an `atomic.Int64`.
pub record MockConn : Type 0 where
  pub local_addr : Str
  pub remote_addr : Str
  pub closed : Bool
  pub send_count : ℕ
  pub recv_count : ℕ
  pub messages : List (Option Message)
  pub on_send : Option SendHook
  pub on_recv : Option ℕ
  pub will_fail_send : Bool
  pub will_fail_recv : Bool
  pub send_error_count : ℕ
  pub send_error_after : ℕ

-- The hooks of `MockTransport`. The field `deliveryDelay` is never read, and is left out.
pub record Hooks : Type 0 where
  pub on_send : Option SendHook
  pub on_recv : Option ℕ
  pub on_dial : Option (Str → Option Error)
  pub message_dropper : Option (Option Message → Bool)

-- What a call comes to: it returns, or it waits.
pub data Wait {ℓ} (A : Type ℓ) : Type ℓ where
  done : A → Wait A
  blocked : Wait A

-- The buffer of the channel.
abbrev pub capacity : ℕ
capacity = 64

abbrev pub add_one : ℕ → ℕ
add_one n = (n + 1) % 2 ^ 64

-- The connection that `Dial` makes.
unfoldable pub new_conn : Str → Str → MockConn
new_conn local remote = record {
  local_addr = local;
  remote_addr = remote;
  closed = false;
  send_count = 0;
  recv_count = 0;
  messages = [];
  on_send = none;
  on_recv = none;
  will_fail_send = false;
  will_fail_recv = false;
  send_error_count = 0;
  send_error_after = 0;
}

abbrev pub count_send : MockConn → MockConn
count_send c = record c { send_count = add_one c.send_count }

-- What `Send` comes to before its `select`: it returns, or goes on to send.
pub data Sending : Type 0 where
  returned : MockConn → Outcome (Unit {0}) → Sending
  selecting : MockConn → Sending

-- The result of a hook: nil is success.
abbrev pub hooked : Option Error → Outcome (Unit {0})
hooked none = ok tt
hooked (some e) = err e

-- `dropper != nil && dropper(msg)`
abbrev pub drops : Hooks → Option Message → Bool
drops h msg = elim h.message_dropper [ none ↦ false | some drop ↦ drop msg ]

-- `c.willFailSend && (c.sendErrorCount == 0 || c.send_count.Load() >= int64(c.sendErrorAfter))`
abbrev pub fails_send : MockConn → Bool
fails_send c =
    c.will_fail_send && ((c.send_error_count == 0) || leb c.send_error_after c.send_count)

-- The global hooks.
unfoldable pub send_global : Hooks → MockConn → Option Message → Sending
send_global h c msg =
    let pass = if drops h msg then returned (count_send c) (ok tt) else selecting (count_send c) in
    elim h.on_send [
      | none ↦ pass
      | some hook ↦ elim (hook msg) [ none ↦ pass | some e ↦ returned (count_send c) (err e) ]
    ]

-- `Send` up to its `select`.
unfoldable pub send_begin : Hooks → MockConn → Option Message → Sending
unfolding send_global
send_begin h c msg = if c.closed then returned c (err err_connection_closed) else elim c.on_send [
  | some hook ↦ returned c (hooked (hook msg))
  | none ↦
      if fails_send c then returned (count_send c) (err err_dial_failed) else send_global h c msg
]

-- The `select` of `Send`: a send on a closed channel is ready, and panics.
unfoldable pub send_select :
    MockConn → Bool → Bool → Option Message → Wait (MockConn × Outcome (Unit {0}))
send_select c cancelled pick msg =
    let ready = c.closed || ltb (length c.messages) capacity in
    if cancelled && (pick || not ready)
    then done (c, err err_context_cancelled)
    else if c.closed
    then done (c, panic)
    else if ready
    then done (record c { messages = c.messages ++ (msg ∷ []) }, ok tt)
    else blocked

-- `Send` without an interruption.
unfoldable pub send :
    Hooks → MockConn → Bool → Bool → Option Message → Wait (MockConn × Outcome (Unit {0}))
unfolding send_begin send_select
send h c cancelled pick msg = elim (send_begin h c msg) [
  | returned c' r ↦ done (c', r)
  | selecting c' ↦ send_select c' cancelled pick msg
]

-- What `Recv` returns, with the calls of hooks that it made.
pub record Received : Type 0 where
  pub message : Option Message
  pub calls : List (ℕ × Option Message)

abbrev pub call : Option ℕ → Option Message → List (ℕ × Option Message)
call none msg = []
call (some hook) msg = (hook, msg) ∷ []

-- `Recv` up to its `select`: `none` goes on.
unfoldable pub recv_begin : MockConn → Option (MockConn × Error)
recv_begin c =
    if c.closed
    then some (c, err_connection_closed)
    else if c.will_fail_recv
    then some (record c { recv_count = add_one c.recv_count }, err_dial_failed)
    else none

-- What `Recv` does with a message from its channel.
unfoldable pub take_message : Hooks → MockConn → Option Message → MockConn × Outcome Received
take_message h c msg = (
  record c { recv_count = add_one c.recv_count },
  ok (record { message = msg; calls = call h.on_recv msg ++ call c.on_recv msg }),
)

-- The `select` of `Recv`: a closed channel that is empty is ready, and gives nil.
unfoldable pub recv_select : Hooks → MockConn → Bool → Bool → Wait (MockConn × Outcome Received)
unfolding take_message
recv_select h c cancelled pick = elim c.messages [
  | msg ∷ rest ↦
      if cancelled && pick
      then done (c, err err_context_cancelled)
      else done (take_message h (record c { messages = rest }) msg)
  | [] ↦
      if cancelled && (pick || not c.closed)
      then done (c, err err_context_cancelled)
      else if c.closed
      then done (take_message h c none)
      else blocked
]

-- `Recv` without an interruption.
unfoldable pub recv : Hooks → MockConn → Bool → Bool → Wait (MockConn × Outcome Received)
unfolding recv_begin recv_select
recv h c cancelled pick = elim (recv_begin c) [
  | some (c', e) ↦ done (c', err e)
  | none ↦ recv_select h c cancelled pick
]

-- `Close`
unfoldable pub close : MockConn → MockConn
close c = if c.closed then c else record c { closed = true }

-- `SetFailSend`, `SetFailRecv`, `SetOnSend`, `SetOnRecv`
abbrev pub set_fail_send : Bool → MockConn → MockConn
set_fail_send fail c = record c { will_fail_send = fail }

abbrev pub set_fail_recv : Bool → MockConn → MockConn
set_fail_recv fail c = record c { will_fail_recv = fail }

abbrev pub set_on_send : Option SendHook → MockConn → MockConn
set_on_send hook c = record c { on_send = hook }

abbrev pub set_on_recv : Option ℕ → MockConn → MockConn
set_on_recv hook c = record c { on_recv = hook }

-- `PeekMessage`: a message is taken from the channel and sent to it again; a closed channel that
-- is empty gives nil, and a send on a closed one panics. `none` is the nil of an empty channel,
-- and a message may be nil too.
unfoldable pub peek_message : MockConn → MockConn × Outcome (Option Message)
peek_message c = elim c.messages [
  | msg ∷ rest ↦
      if c.closed
      then (record c { messages = rest }, panic)
      else (record c { messages = rest ++ (msg ∷ []) }, ok msg)
  | [] ↦ if c.closed then (c, panic) else (c, ok none)
]

-- The two parts of `PeekMessage`, which holds its lock all along: calls that are past theirs can
-- come between. `none` is the default of its `select` on an open channel that is empty.
unfoldable pub peek_take : MockConn → Option (MockConn × Option Message)
peek_take c = elim c.messages [
  | msg ∷ rest ↦ some (record c { messages = rest }, msg)
  | [] ↦ if c.closed then some (c, none) else none
]

unfoldable pub peek_put : MockConn → Option Message → Wait (MockConn × Outcome (Option Message))
peek_put c msg =
    if c.closed
    then done (c, panic)
    else if ltb (length c.messages) capacity
    then done (record c { messages = c.messages ++ (msg ∷ []) }, ok msg)
    else blocked
