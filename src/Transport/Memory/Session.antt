-- ===== src/Transport/Memory/Session.antt =====
-- A session on `transport/memory.go` from end to end: `Listen`, `Dial`, `Accept`, and messages.
use causalclock.Base.{
  str_eq_refl, lookup-insert, str_eq_refl, insert, ◌++◌, ℕ, false, Str, some, List, [], ◌∷◌, length,
  lookup, ◌≡◌, refl, arith,
}
use causalclock.Base.Slices.{get_elem?, get_elem?-append}
use causalclock.Transport.Types.{Message, ok}
use causalclock.Transport.Memory.Link.{client, server, Link, new_link, done}
use causalclock.Transport.Memory.Net.{Listener, Transport, listen, dial, accept}
use causalclock.Transport.Memory.Listeners.{listen-lookup}
use causalclock.Transport.Memory.Fifo.{IsOpen, send_all, recv_many, send_all-recv_many}

listen_open :
    (t t' : Transport) (addr : Str) (l : Listener) → listen t addr ≡ ok (t', l) → t'.closed ≡ false
unfolding listen
listen_open t t' addr l e = ground arith

new_link-IsOpen : (local remote : Str) → IsOpen client (new_link local remote)
unfolding new_link
new_link-IsOpen local remote = record { end_open = refl; out_open = refl }

-- A new listener of an open transport takes the first pair, and gives it to the first `accept`.
first_dial :
    (t : Transport) (addr : Str) (l : Listener)
    → t.closed ≡ false
    → lookup addr t.listeners ≡ some l
    → l.closed ≡ false
    → l.connections ≡ []
    → (t' : Transport) × (l' : Listener) × (dial t addr false false ≡ ok (t', length t.links))
      × (lookup addr t'.listeners ≡ some l')
      × (accept l' false false ≡ done (ok (l, length t.links)))
      × (t'.links ≡ t.links ++ (new_link t.config.node_id addr ∷ []))
unfolding dial accept
first_dial t addr l o found open_l none_waiting =
    let l' : Listener = record l { connections = length t.links ∷ [] } in
    (
      record t {
        listeners = insert addr l' t.listeners;
        links = t.links ++ (new_link t.config.node_id addr ∷ []);
      },
      l',
      ground arith,
      ground (arith, lookup-insert addr addr l' t.listeners, str_eq_refl addr),
      ground arith,
      refl,
    )

-- After a `listen` that succeeds, a `dial` of its address succeeds and adds a pair; the listener,
-- asked next, accepts that pair and is as before; and whatever list of messages the client then
-- sends, the accepted end receives it in order.
pub dial-accept :
    (t t' : Transport) (addr : Str) (l : Listener) (ms : List Message)
    → listen t addr ≡ ok (t', l)
    → (t'' : Transport) × (l' : Listener) × (place : ℕ) × (k : Link) × (k' : Link) × (k'' : Link)
      × (dial t' addr false false ≡ ok (t'', place))
      × (lookup addr t''.listeners ≡ some l')
      × (accept l' false false ≡ done (ok (l, place)))
      × (get_elem? t''.links place ≡ some k)
      × (send_all client k ms ≡ ok k')
      × (recv_many (length ms) server k' ≡ done (ok (k'', ms)))
unfolding new_link
dial-accept t t' addr l ms e =
    let (found, open_l, none_waiting, again, others) = listen-lookup t t' addr l e in
    let (t'', l', dialed, there, accepted, links) =
      first_dial t' addr l (listen_open t t' addr l e) found open_l none_waiting in
    let k = new_link t'.config.node_id addr in
    let (k', k'', sent, got) =
      send_all-recv_many client k ms (new_link-IsOpen t'.config.node_id addr) refl refl in
    (
      t'',
      l',
      length t'.links,
      k,
      k',
      k'',
      dialed,
      there,
      accepted,
      rw links (get_elem?-append t'.links [] k),
      sent,
      got,
    )
