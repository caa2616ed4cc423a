-- ===== src/Tests/Sockets.antt =====
-- The TCP connection and its transport.
use causalclock.Base.{
  ◌<◌, ℕ, ◌++◌, false, none, some, List, [], ◌∷◌, length, map, All, ◌≡◌, refl, arith, lookup,
  insert,
}
use causalclock.Base.Bytes.{put_be, be_from}
use causalclock.Base.Slices.{get_elem?, slice}
use causalclock.Base.Time.{zero_time}
use causalclock.Transport.Types.{Message, ok, default_config}
use causalclock.Transport.Codec.{serialize, deserialize, read_tail}
use causalclock.Transport.Wire.RoundTrip.{received}
use causalclock.Transport.Tcp.Conn.{write_frame, Conn, new_conn, data_fault, close, send, recv}
use causalclock.Transport.Tcp.Framing.{Travels, send_all, recv_many, send_all-recv_many_tcp}
use causalclock.Transport.Tcp.Receipt.{Receipt, InStep, recv-Receipt}
use causalclock.Transport.Tcp.Net.{TcpTransport, new_transport, dial, close_transport}
use causalclock.Transport.Tcp.Redial.{close-redialed}
use causalclock.Transport.Tcp.Overlap.{
  SendReach, at_start, passed, wrote, failed, IsWhole, SendReach-IsWhole,
}
use causalclock.Tests.Data.{node_a, node_b}

program : Unit {0}
unfolding lookup insert put_be be_from slice serialize deserialize read_tail default_config new_conn
    close send recv new_transport dial close_transport InStep
program = tt

abbrev ping : Message
ping = record {
  from = node_a;
  to = node_b;
  seq = 1;
  body = b'h' ∷ b'i' ∷ [];
  timestamp = zero_time;
  vector_clock_data = [];
  metadata = none;
}

abbrev pong : Message
pong = record ping { from = node_b; to = node_a; seq = 2 }

abbrev near : Conn
near = new_conn default_config []

near_open : near.closed ≡ false
unfolding program
near_open = refl

near_quiet : near.outgoing ≡ []
unfolding program
near_quiet = refl

ping-Travels : Travels near near ping
unfolding program
ping-Travels = record {
  fields_fit = omega arith;
  not_empty = omega arith;
  length_fits = omega arith;
  sendable = refl;
  receivable = refl;
}

pong-Travels : Travels near near pong
unfolding program
pong-Travels = record {
  fields_fit = omega arith;
  not_empty = omega arith;
  length_fits = omega arith;
  sendable = refl;
  receivable = refl;
}

send_all-recv_many_tcp_example :
    (a' : Conn) × (b' : Conn) × (send_all near (ping ∷ pong ∷ []) ≡ ok a')
    × (recv_many 2 (record near { incoming = a'.outgoing ++ (7 ∷ []) })
        ≡ ok (b', map received (ping ∷ pong ∷ [])))
    × (b'.incoming ≡ 7 ∷ [])
send_all-recv_many_tcp_example =
    send_all-recv_many_tcp near near (ping ∷ pong ∷ []) (7 ∷ []) near_open near_quiet near_open
      (ping-Travels, (pong-Travels, tt))

-- A prefix that promises more bytes than come.
abbrev cut_off : Conn
cut_off = new_conn default_config (0 ∷ 0 ∷ 0 ∷ 9 ∷ 1 ∷ [])

recv-Receipt_example : Receipt cut_off (recv cut_off)
recv-Receipt_example = recv-Receipt cut_off

abbrev net : TcpTransport
net = new_transport default_config

net_open : net.closed ≡ false
unfolding program
net_open = refl

net_fresh : All (λ (e : List ℕ × ℕ). e.1 < length net.opened) net.connections
unfolding program
net_fresh = tt

close-redialed_example :
    (t' : TcpTransport) × (t'' : TcpTransport) × (i : ℕ) × (j : ℕ) × (dial net node_b (some [])
      ≡ ok (t', i))
    × (dial t' node_b (some (7 ∷ [])) ≡ ok (t'', j))
    × (get_elem? (close_transport t'').opened i ≡ some (new_conn net.config []))
    × (get_elem? (close_transport t'').opened j ≡ some (close (new_conn net.config (7 ∷ []))))
close-redialed_example = close-redialed net node_b [] (7 ∷ []) net_open net_fresh

-- Two sends pass their tests; one frame goes out whole, of the other five bytes.
abbrev first_out : Conn
first_out = (write_frame (new_conn default_config []) none (serialize ping)).0

abbrev second_out : Conn
second_out = (write_frame first_out (some (data_fault 5)) (serialize pong)).0

to_second_out :
    SendReach default_config [] (ping ∷ []) (some pong) (record { conn = second_out; sending = 0 })
unfolding program write_frame
to_second_out =
    failed 0 (some (data_fault 5)) pong
      (wrote 1 none ping (passed (passed at_start refl) refl) refl refl refl refl) refl refl refl
      refl

SendReach-IsWhole_example : IsWhole (ping ∷ []) (some pong) second_out
SendReach-IsWhole_example = SendReach-IsWhole default_config [] to_second_out
