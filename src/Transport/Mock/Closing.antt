-- ===== src/Transport/Mock/Closing.antt =====
-- What a `Close` does to calls on the mock transport that wait, and to those that come later.
use causalclock.Base.{
  ℕ, if◌then◌else◌, zero, suc, Str, Bool, true, false, Option, none, some, List, [], ◌∷◌, ◌++◌,
  lookup, ◌==◌, Bool-cases, inl, inr, ◌≡◌, refl, arith,
}
use causalclock.Base.Slices.{get_elem?}
use causalclock.Transport.Types.{Message, ok, panic}
use causalclock.Transport.Mock.Conn.{
  MockConn, Hooks, done, blocked, send_select, Received, recv, recv_select, close, call, add_one,
}
use causalclock.Transport.Mock.Net.{
  MockListener, MockTransport, dial, update_listener, close_listener, close_listeners,
  close_transport, enter_conn, accept, accept_select,
}

recv_waiting :
    (h : Hooks) (c : MockConn)
    → recv h c false false ≡ blocked
    → recv_select h (close c) false false
      ≡ done (
        record (close c) { recv_count = add_one (close c).recv_count },
        ok (record { message = none; calls = call h.on_recv none ++ call (close c).on_recv none }),
      )
unfolding recv close
recv_waiting h c r = ground arith

accept_waiting :
    (l : MockListener)
    → accept l false false ≡ blocked
    → accept_select (close_listener l) false false ≡ done (close_listener l, ok none)
unfolding accept close_listener
accept_waiting l a = ground arith

send_waiting :
    (c : MockConn) (msg : Option Message)
    → send_select c false false msg ≡ blocked
    → send_select (close c) false false msg ≡ done (close c, panic)
unfolding send_select close
send_waiting c msg s = ground arith

-- A `Recv` that waits when its connection is closed returns a nil message and no error, an
-- `Accept` that waits when its listener is closed a nil connection and no error, and a `Send` that
-- waits on a full channel panics.
pub blocked-close :
    (h : Hooks) (c d : MockConn) (l : MockListener) (msg : Option Message)
    → recv h c false false ≡ blocked
    → accept l false false ≡ blocked
    → send_select d false false msg ≡ blocked
    → (c' : MockConn) × (got : Received) × (recv_select h (close c) false false ≡ done (c', ok got))
      × (got.message ≡ none)
      × (accept_select (close_listener l) false false ≡ done (close_listener l, ok none))
      × (send_select (close d) false false msg ≡ done (close d, panic))
blocked-close h c d l msg r a s = (
  record (close c) { recv_count = add_one (close c).recv_count },
  record { message = none; calls = call h.on_recv none ++ call (close c).on_recv none },
  recv_waiting h c r,
  refl,
  accept_waiting l a,
  send_waiting d msg s,
)

get_elem?-update :
    (i j : ℕ) (f : MockListener → MockListener) (ls : List MockListener) (l : MockListener)
    → get_elem? ls i ≡ some l
    → get_elem? (update_listener j f ls) i ≡ some (if j == i then f l else l)
unfolding update_listener
get_elem?-update i j f [] l h = cc
get_elem?-update zero zero f (m ∷ ls) l h = ground arith
get_elem?-update zero (suc j) f (m ∷ ls) l h = ground arith
get_elem?-update (suc i) zero f (m ∷ ls) l h = ground arith
get_elem?-update (suc i) (suc j) f (m ∷ ls) l h = ground (arith, get_elem?-update i j f ls l h)

close_listener-closed : (l : MockListener) → (close_listener l).closed ≡ true
unfolding close_listener
close_listener-closed l = ground arith

-- A closed listener stays closed.
close_listeners_closed :
    (i : ℕ) (m : List (Str × ℕ)) (ls : List MockListener) (l : MockListener)
    → get_elem? ls i ≡ some l
    → l.closed ≡ true
    → (l' : MockListener) × (get_elem? (close_listeners m ls) i ≡ some l') × (l'.closed ≡ true)
unfolding close_listeners
close_listeners_closed i [] ls l h e = (l, h, e)
close_listeners_closed i ((addr, j) ∷ m) ls l h e =
    close_listeners_closed i m (update_listener j close_listener ls)
      (if j == i then close_listener l else l) (get_elem?-update i j close_listener ls l h)
      (ground (arith, close_listener-closed l))

-- Every listener of the map is closed.
close_listeners-lookup :
    (i : ℕ) (addr : Str) (m : List (Str × ℕ)) (ls : List MockListener) (l : MockListener)
    → lookup addr m ≡ some i
    → get_elem? ls i ≡ some l
    → (l' : MockListener) × (get_elem? (close_listeners m ls) i ≡ some l') × (l'.closed ≡ true)
unfolding close_listeners lookup
close_listeners-lookup i addr [] ls l e h = ground arith
close_listeners-lookup i addr ((k, j) ∷ m) ls l e h =
    let stored = get_elem?-update i j close_listener ls l h in
    elim (Bool-cases (j == i)) [
      | inl same ↦
          close_listeners_closed i m (update_listener j close_listener ls) (close_listener l)
            (rw same at stored) (close_listener-closed l)
      | inr other ↦
          close_listeners-lookup i addr m (update_listener j close_listener ls) l
            (ground (arith, other)) (rw other at stored)
    ]

-- After `Close` of the transport a `Dial` of an address that was listened on panics, where no
-- hook stops it and its context is not done.
pub dial-close_transport :
    (t : MockTransport) (addr : Str) (i : ℕ) (l : MockListener) (pick : Bool)
    → t.closed ≡ false
    → t.hooks.on_dial ≡ none
    → lookup addr t.listeners ≡ some i
    → get_elem? t.opened i ≡ some l
    → (t' : MockTransport) × (dial (close_transport t) addr false pick ≡ done (t', panic))
unfolding dial close_transport
dial-close_transport t addr i l pick o hook found place =
    let (l', stored, shut) = close_listeners-lookup i addr t.listeners t.opened l found place in
    (enter_conn (close_transport t) addr, ground (arith, stored, shut))
