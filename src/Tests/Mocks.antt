-- ===== src/Tests/Mocks.antt =====
-- The mock transport.
use causalclock.Base.{
  zero, suc, ℕ, false, none, some, Option, List, [], ◌∷◌, length, lookup, insert, str_eq, ◌≤◌, ◌≡◌,
  refl,
}
use causalclock.Base.Time.{zero_time}
use causalclock.Transport.Types.{Message, ok, panic, default_config}
use causalclock.Transport.Mock.Conn.{
  MockConn, Hooks, done, blocked, capacity, new_conn, send, send_select, Received, recv,
  recv_select, close, peek_message, peek_take, peek_put,
}
use causalclock.Transport.Mock.Net.{
  MockTransport, new_transport, listen, dial, accept, accept_select, close_listener,
  close_transport, new_listener, update_listener,
}
use causalclock.Transport.Mock.Calls.{
  Trace, started, send_selecting, send_done, peek_taken, peek_done,
}
use causalclock.Transport.Mock.Buffer.{Account, Trace-messages}
use causalclock.Transport.Mock.Peek.{peek_message-recv}
use causalclock.Transport.Mock.Closing.{blocked-close}
use causalclock.Tests.Data.{node_a, node_b}

program : Unit {0}
unfolding lookup insert str_eq default_config new_conn send recv close peek_message new_transport
    listen dial accept close_listener close_transport update_listener
program = tt

abbrev note : ℕ → Message
note n = record {
  from = node_a;
  to = node_b;
  seq = n;
  body = [];
  timestamp = zero_time;
  vector_clock_data = [];
  metadata = none;
}

abbrev hooks : Hooks
hooks = record { on_send = none; on_recv = some 7; on_dial = none; message_dropper = none }

abbrev fresh : MockConn
fresh = new_conn node_a node_b

-- A connection on which the first note was sent.
abbrev one : MockConn
one = record fresh { send_count = 1; messages = some (note 1) ∷ [] }

one_sent : send hooks fresh false false (some (note 1)) ≡ done (one, ok tt)
unfolding program
one_sent = refl

-- Two notes were sent, and a `PeekMessage` has turned them round.
abbrev turned : MockConn
turned = record fresh { send_count = 2; messages = some (note 2) ∷ some (note 1) ∷ [] }

turned-Trace : Trace hooks 1 (some (note 1) ∷ some (note 2) ∷ []) [] [] [] turned
unfolding program peek_take peek_put
turned-Trace =
    peek_done
      (peek_taken
        (send_done false false (some (note 2))
          (send_selecting (some (note 2))
            (send_done false false (some (note 1))
              (send_selecting (some (note 1)) (started node_a node_b) refl) refl)
            refl)
          refl)
        refl refl)
      refl

Trace-messages_example :
    Account 1 (some (note 1) ∷ some (note 2) ∷ []) [] [] [] turned.messages
    × (length turned.messages ≤ capacity)
Trace-messages_example = Trace-messages turned-Trace

-- Two notes wait.
abbrev two : MockConn
two = record fresh { messages = some (note 1) ∷ some (note 2) ∷ [] }

two_open : two.closed ≡ false
unfolding program
two_open = refl

two_willing : two.will_fail_recv ≡ false
unfolding program
two_willing = refl

peek_message-recv_example :
    (c' : MockConn) × (c'' : MockConn) × (got : Received) × (peek_message two
      ≡ (c', ok (some (note 1))))
    × (recv hooks c' false false ≡ done (c'', ok got))
    × (got.message ≡ some (note 2))
    × (c''.messages ≡ some (note 1) ∷ [])
    × (peek_message (record two { messages = some (note 1) ∷ [] })
        ≡ (record two { messages = some (note 1) ∷ [] }, ok (some (note 1))))
    × ((peek_message (close two)).1 ≡ panic)
peek_message-recv_example =
    peek_message-recv hooks two (some (note 1)) (some (note 2)) [] two_open two_willing refl

-- A channel of messages that is full.
abbrev copies : ℕ → List (Option Message)
copies zero = []
copies (suc n) = some (note 0) ∷ copies n

abbrev full : MockConn
full = record fresh { messages = copies 64 }

recv_waits : recv hooks fresh false false ≡ blocked
unfolding program
recv_waits = refl

accept_waits : accept (new_listener node_b) false false ≡ blocked
unfolding program
accept_waits = refl

send_waits : send_select full false false none ≡ blocked
unfolding program
send_waits = refl

blocked-close_example :
    (c' : MockConn) × (got : Received) × (recv_select hooks (close fresh) false false
      ≡ done (c', ok got))
    × (got.message ≡ none)
    × (accept_select (close_listener (new_listener node_b)) false false
        ≡ done (close_listener (new_listener node_b), ok none))
    × (send_select (close full) false false none ≡ done (close full, panic))
blocked-close_example =
    blocked-close hooks fresh full (new_listener node_b) none recv_waits accept_waits send_waits

abbrev net : MockTransport
net = record (new_transport default_config) {
  listeners = (node_b, 0) ∷ [];
  opened = new_listener node_b ∷ [];
}

listened : listen (new_transport default_config) node_b ≡ ok (net, 0)
unfolding program
listened = refl

net_open : net.closed ≡ false
unfolding program
net_open = refl

net_unhooked : net.hooks.on_dial ≡ none
unfolding program
net_unhooked = refl

net_listens : lookup node_b net.listeners ≡ some 0
unfolding program
net_listens = refl
