-- ===== src/Tests/Transports.antt =====
-- The wire format and the in-memory transport.
use causalclock.Base.{
  some, zero, suc, ◌≢◌, ◌%◌, ℕ, ◌≤◌, true, false, none, List, [], ◌∷◌, length, lookup, insert, ◌≡◌,
  ◌↔◌, refl, arith, str_eq,
}
use causalclock.Base.Time.{zero_time}
use causalclock.Base.Bytes.{put_be, be_from}
use causalclock.Base.Slices.{slice, get_elem?}
use causalclock.Transport.Types.{Message, ok, panic, default_config}
use causalclock.Transport.Codec.{serialize, deserialize, read_tail}
use causalclock.Transport.Wire.RoundTrip.{Fits, received, deserialize-serialize}
use causalclock.Transport.Wire.Panics.{deserialize-panic_iff}
use causalclock.Transport.Memory.Link.{
  Queue, Side, client, server, Link, new_link, empty_queue, inbound, outbound, peer, append_message,
  notify, recv_check, recv_select, recv_loop, spent, returned, woken, asleep, send, Attempt, done,
  recv, close, set_outbound,
}
use causalclock.Transport.Memory.Fifo.{IsOpen, send_all, recv_many, send_all-recv_many}
use causalclock.Transport.Memory.Closing.{
  here, next, closed_by, IsConsistent, Reach-IsConsistent, notify-close, recv_loop-recv,
}
use causalclock.Transport.Memory.Session.{dial-accept}
use causalclock.Transport.Memory.Wakeup
use causalclock.Transport.Memory.Wakeup.{waiting_wakes, waiting_asleep, no_calls}
use causalclock.Transport.Memory.Net.{
  Listener, Transport, new_transport, listen, dial, accept, close_transport, close_listener,
  update_listener,
}
use causalclock.Transport.Memory.Listeners.{dial-close_listener}
use causalclock.Transport.Wire.Truncation.{deserialize_long_from}
use causalclock.Tests.Data.{node_a, node_b}

program : Unit {0}
unfolding lookup insert str_eq put_be be_from slice serialize deserialize read_tail new_link send
    recv close new_transport listen dial accept close_transport close_listener update_listener
    default_config
program = tt

abbrev hello : Message
hello = record {
  from = node_a;
  to = node_b;
  seq = 258;
  body = b'h' ∷ b'i' ∷ [];
  timestamp = zero_time;
  vector_clock_data = [];
  metadata = none;
}

abbrev nothing : Message
nothing = record hello { from = []; to = []; body = [] }

hello_bytes :
    serialize hello
    ≡ 1 ∷ b'a' ∷ 1 ∷ b'b' ∷ 0 ∷ 0 ∷ 0 ∷ 0 ∷ 0 ∷ 0 ∷ 1 ∷ 2 ∷ 0 ∷ 0 ∷ 0 ∷ 2 ∷ b'h' ∷ b'i' ∷ 0 ∷ 0 ∷ 0
      ∷ 0 ∷ []
unfolding program
hello_bytes = refl

hello_back : deserialize (serialize hello) ≡ ok hello
unfolding program
hello_back = refl

hello-Fits : Fits hello
hello-Fits = omega arith

deserialize-serialize_example : deserialize (serialize hello) ≡ ok (received hello)
deserialize-serialize_example = deserialize-serialize hello hello-Fits (omega arith)

abbrev zeros : List ℕ
zeros = 0 ∷ 0 ∷ 0 ∷ 0 ∷ 0 ∷ 0 ∷ 0 ∷ 0 ∷ 0 ∷ 0 ∷ 0 ∷ 0 ∷ 0 ∷ 0 ∷ 0 ∷ 0 ∷ 0 ∷ 0 ∷ []

deserialize-panic_iff_example :
    (deserialize (18 ∷ zeros) ≡ panic)
    ↔ ((n : ℕ) × (rest : List ℕ) × (18 ∷ zeros ≡ n ∷ rest) × (length rest ≡ n) × (18 ≤ n))
deserialize-panic_iff_example = deserialize-panic_iff (18 ∷ zeros)

-- The pair that the tests use.
abbrev pair : Link
pair = new_link node_a node_b

pair-IsOpen : IsOpen client pair
unfolding program
pair-IsOpen = record { end_open = refl; out_open = refl }

peer_open : causalclock.Transport.Memory.Link.closed server pair ≡ false
unfolding program
peer_open = refl

none_waiting : (inbound server pair).messages ≡ []
unfolding program
none_waiting = refl

send_all-recv_many_example :
    (l' : Link) × (l'' : Link) × (send_all client pair (hello ∷ nothing ∷ []) ≡ ok l')
    × (recv_many 2 server l' ≡ done (ok (l'', hello ∷ nothing ∷ [])))
send_all-recv_many_example =
    send_all-recv_many client pair (hello ∷ nothing ∷ []) pair-IsOpen peer_open none_waiting

Reach-IsConsistent_example : IsConsistent (close server pair)
Reach-IsConsistent_example = Reach-IsConsistent node_a node_b (next here (closed_by pair server))

recv_loop-recv_example :
    (recv_loop 7 server pair false false ≡ recv server pair false false)
    × (recv server pair false false ≢ spent)
recv_loop-recv_example = recv_loop-recv 5 server pair false false

notify-close_example :
    (q : Queue) × (append_message (outbound client pair) hello ≡ ok q)
    × (notify (outbound client (close server (set_outbound client q pair))) ≡ panic)
unfolding program
notify-close_example = notify-close client server pair hello refl refl

abbrev net : Transport
net = new_transport default_config

listened : (p : Transport × Listener) × (listen net node_b ≡ ok p)
unfolding program
listened = (_, refl)

dialed : (p : Transport × ℕ) × (dial listened.0.0 node_b false false ≡ ok p)
unfolding program listened
dialed = (_, refl)

dial-accept_example :
    (t'' : Transport) × (l' : Listener) × (place : ℕ) × (k : Link) × (k' : Link) × (k'' : Link)
    × (dial listened.0.0 node_b false false ≡ ok (t'', place))
    × (lookup node_b t''.listeners ≡ some l')
    × (accept l' false false ≡ done (ok (listened.0.1, place)))
    × (get_elem? t''.links place ≡ some k)
    × (send_all client k (hello ∷ nothing ∷ []) ≡ ok k')
    × (recv_many 2 server k' ≡ done (ok (k'', hello ∷ nothing ∷ [])))
dial-accept_example =
    dial-accept net listened.0.0 node_b listened.0.1 (hello ∷ nothing ∷ []) listened.1

abbrev shut : Listener
shut = record { addr = node_b; connections = []; closed = true }

dial-close_listener_example : dial (update_listener listened.0.0 shut) node_b false false ≡ panic
unfolding program listened
dial-close_listener_example = dial-close_listener listened.0.0 listened.0.1 shut false refl refl

abbrev zeros_of : ℕ → List ℕ
zeros_of zero = []
zeros_of (suc n) = 0 ∷ zeros_of n

abbrev long_name : Message
long_name = record hello { from = zeros_of 256 }

abbrev truncated : Message
truncated = record hello { from = []; to = []; seq = 0; body = [] }

long_name_read : deserialize (serialize long_name) ≡ ok truncated
unfolding program
long_name_read = refl

deserialize_long_from_example :
    (length truncated.from ≡ length long_name.from % 256) × (truncated.from ≢ long_name.from)
deserialize_long_from_example = deserialize_long_from long_name (omega arith) long_name_read

-- A `Recv` waits, and `hello` is sent and notified.
abbrev woken_by_hello : Wakeup.Calls
woken_by_hello = record no_calls {
  queue = record { messages = hello ∷ []; token = true; closed = false };
  waiting = 1;
}

woken_by_hello-Reach : Wakeup.Reach 1 woken_by_hello
unfolding append_message notify recv_check
woken_by_hello-Reach =
    Wakeup.next
      (Wakeup.next
        (Wakeup.next (Wakeup.next Wakeup.here (Wakeup.called (omega arith)))
          (Wakeup.check_waits 0 refl refl))
        (Wakeup.appended hello refl))
      (Wakeup.notified 0 refl refl)

waiting_wakes_example :
    (q : Queue) × (recv_select woken_by_hello.queue false false ≡ woken q)
    × (recv_check false q ≡ returned (record q { messages = [] }) (ok hello))
waiting_wakes_example =
    waiting_wakes {w = woken_by_hello} hello [] woken_by_hello-Reach (omega arith) refl refl refl
      refl

waiting_asleep_example :
    (w : Wakeup.Calls) × Wakeup.Reach 2 w
    × (w.waiting ≡ 1)
    × (w.checking ≡ 0)
    × (w.notifying ≡ 0)
    × (w.queue.closed ≡ false)
    × (w.queue.messages ≡ nothing ∷ [])
    × (recv_select w.queue false false ≡ asleep)
waiting_asleep_example = waiting_asleep hello nothing
