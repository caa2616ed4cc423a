-- ===== src/Transport/Memory/Listeners.antt =====
-- Dialing, accepting and closing listeners.
use causalclock.Base.{
  ℕ, ◌<◌, Str, str_eq_iff, str_eq_refl, Bool, true, false, none, some, List, [], ◌∷◌, ◌++◌, length,
  lookup, lookup-insert, ◌≡◌, ◌≢◌, refl, arith, Option-cases, inl, inr,
}
use causalclock.Transport.Types.{
  ok, err, panic, err_listener_closed, err_listener_exists, err_connection_closed,
}
use causalclock.Transport.Memory.Link.{new_link, done}
use causalclock.Transport.Memory.Net.{
  Listener, Transport, capacity, listen, dial, close_listeners, close_transport, accept,
  close_listener, update_listener,
}

-- After `listen` succeeds, the address leads to an open listener with nothing waiting, a second
-- `listen` on it is refused, and every other address leads where it led.
pub listen-lookup :
    (t t' : Transport) (addr : Str) (l : Listener)
    → listen t addr ≡ ok (t', l)
    → (lookup addr t'.listeners ≡ some l)
      × (l.closed ≡ false)
      × (l.connections ≡ [])
      × (listen t' addr ≡ err err_listener_exists)
      × ((a : Str) → a ≢ addr → lookup a t'.listeners ≡ lookup a t.listeners)
unfolding listen
listen-lookup t t' addr l e =
    let new : Listener = record { addr = addr; connections = []; closed = false } in
    let self = lookup-insert addr addr new t.listeners in
    (
      ground (arith, self, str_eq_refl addr),
      ground arith,
      ground arith,
      ground (arith, self, str_eq_refl addr),
      λ a ne. ground (arith, lookup-insert addr a new t.listeners, str_eq_iff addr a),
    )

-- A dial that succeeds adds one pair between the transport's node and the address, and puts it
-- behind those that wait at the listener, which was open and had room.
pub dial_ok :
    (t t' : Transport) (addr : Str) (cancelled pick : Bool) (place : ℕ)
    → dial t addr cancelled pick ≡ ok (t', place)
    → (l : Listener) × (lookup addr t.listeners ≡ some l)
      × (l.closed ≡ false)
      × (length l.connections < capacity)
      × (lookup addr t'.listeners ≡ some (record l { connections = l.connections ++ (place ∷ []) }))
      × (t'.links ≡ t.links ++ (new_link t.config.node_id addr ∷ []))
      × (place ≡ length t.links)
unfolding dial
dial_ok t t' addr cancelled pick place e = elim (Option-cases (lookup addr t.listeners)) [
  | inl miss ↦ ground arith
  | inr (l, hit) ↦
      let l' : Listener = record l { connections = l.connections ++ (length t.links ∷ []) } in
      (
        l,
        hit,
        ground arith,
        ground arith,
        ground (arith, lookup-insert addr addr l' t.listeners, str_eq_refl addr),
        ground arith,
        ground arith,
      )
]

-- The dial of an address whose listener has been closed, on a transport that has not, panics.
pub dial-close_listener :
    (t : Transport) (l l' : Listener) (pick : Bool)
    → t.closed ≡ false
    → close_listener l ≡ ok l'
    → dial (update_listener t l') l'.addr false pick ≡ panic
unfolding dial close_listener update_listener
dial-close_listener t l l' pick h e =
    ground (arith, lookup-insert l'.addr l'.addr l' t.listeners, str_eq_refl l'.addr)

-- A listener that is closed twice panics at the second call.
pub close_listener_twice : (l l' : Listener) → close_listener l ≡ ok l' → close_listener l' ≡ panic
unfolding close_listener
close_listener_twice l l' e = ground arith

lookup-close_listeners :
    (ls : List (Str × Listener)) (a : Str)
    → lookup a (close_listeners ls)
      ≡ elim (lookup a ls) [ none ↦ none | some l ↦ some (record l { closed = true }) ]
unfolding close_listeners lookup
lookup-close_listeners [] a = refl
lookup-close_listeners ((b, l) ∷ ls) a = ground (arith, lookup-close_listeners ls a)

-- Closing the transport closes every listener: at each address that has one, `listen` and `dial`
-- are then refused, and so is an `accept`; the dial does not panic.
pub close_transport_refuses :
    (t : Transport) (addr : Str) (l : Listener) (cancelled pick : Bool)
    → t.closed ≡ false
    → lookup addr (close_transport t).listeners ≡ some l
    → (listen (close_transport t) addr ≡ err err_listener_closed)
      × (dial (close_transport t) addr cancelled pick ≡ err err_connection_closed)
      × (accept l cancelled pick ≡ done (err err_listener_closed))
unfolding close_transport listen dial accept
close_transport_refuses t addr l cancelled pick h e =
    let closed = lookup-close_listeners t.listeners addr in
    (ground arith, ground arith, ground (arith, closed))
