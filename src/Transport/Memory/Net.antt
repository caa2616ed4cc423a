-- ===== src/Transport/Memory/Net.antt =====
-- `MemoryTransport` and `memoryListener` of `transport/memory.go`. A `select` with several ready
-- cases takes the one that `pick` says, and `cancelled` says that the context is done. The map of
-- nodes is never written, and is left out.
use causalclock.Base.{
  ℕ, Str, Bool, true, false, not, none, some, List, [], ◌∷◌, ◌++◌, length, lookup, insert, ltb,
  ◌==◌, ◌&&◌, ◌||◌, if◌then◌else◌,
}
use causalclock.Transport.Types.{
  TransportConfig, Outcome, ok, err, panic, err_listener_closed, err_listener_exists,
  err_no_listener, err_connection_closed, err_context_cancelled, err_queue_full,
}
use causalclock.Transport.Memory.Link.{Queue, Link, new_link, Attempt, done, blocked}

-- `memoryListener`: the pairs whose server's end waits in the channel, by their places in the
-- transport's store. The channel is closed with the flag.
pub record Listener : Type 0 where
  pub addr : Str
  pub connections : List ℕ
  pub closed : Bool

-- `MemoryTransport`, with the store of the pairs that `Dial` made.
pub record Transport : Type 0 where
  pub listeners : List (Str × Listener)
  pub routes : List (Str × List (Str × Queue))
  pub config : TransportConfig
  pub closed : Bool
  pub links : List Link

-- The buffer of a listener's channel.
abbrev pub capacity : ℕ
capacity = 128

-- `memory-node`
abbrev pub default_node : Str
default_node = b'm' ∷ b'e' ∷ b'm' ∷ b'o' ∷ b'r' ∷ b'y' ∷ b'-' ∷ b'n' ∷ b'o' ∷ b'd' ∷ b'e' ∷ []

-- `NewMemoryTransport`
unfoldable pub new_transport : TransportConfig → Transport
new_transport config = record {
  listeners = [];
  routes = [];
  config = if length config.node_id == 0 then record config { node_id = default_node } else config;
  closed = false;
  links = [];
}

-- `Listen`
unfoldable pub listen : Transport → Str → Outcome (Transport × Listener)
listen t addr =
    let l : Listener = record { addr = addr; connections = []; closed = false } in
    if t.closed then err err_listener_closed else elim (lookup addr t.listeners) [
      | some _ ↦ err err_listener_exists
      | none ↦
          ok (
            record t { listeners = insert addr l t.listeners; routes = insert addr [] t.routes },
            l,
          )
    ]

-- The `select` of `Dial`, with the place of the new pair. A send on a closed channel is ready,
-- and panics.
unfoldable pub offer : Listener → ℕ → Bool → Bool → Outcome Listener
offer l place cancelled pick =
    let ready = l.closed || ltb (length l.connections) capacity in
    if cancelled && (pick || not ready)
    then err err_context_cancelled
    else if not ready
    then err err_queue_full
    else if l.closed
    then panic
    else ok (record l { connections = l.connections ++ (place ∷ []) })

-- `Dial`: the new state and the place of the pair, whose client's end is the caller's.
unfoldable pub dial : Transport → Str → Bool → Bool → Outcome (Transport × ℕ)
unfolding offer
dial t addr cancelled pick = elim (lookup addr t.listeners) [
  | none ↦ err err_no_listener
  | some l ↦
      if t.closed
      then err err_connection_closed
      else elim (offer l (length t.links) cancelled pick) [
        | err e ↦ err e
        | panic ↦ panic
        | ok l' ↦ ok (
          record t {
            listeners = insert addr l' t.listeners;
            links = t.links ++ (new_link t.config.node_id addr ∷ []);
          },
          length t.links,
        )
      ]
]

-- The loop of `Close` over the listeners.
unfoldable pub close_listeners : List (Str × Listener) → List (Str × Listener)
close_listeners [] = []
close_listeners ((a, l) ∷ ls) =
    (a, if l.closed then l else record l { closed = true }) ∷ close_listeners ls

-- `MemoryTransport.Close`
unfoldable pub close_transport : Transport → Transport
unfolding close_listeners
close_transport t =
    if t.closed then t else record t { closed = true; listeners = close_listeners t.listeners }

-- `memoryListener.Accept`: the place of the pair whose server's end is returned.
unfoldable pub accept : Listener → Bool → Bool → Attempt (Listener × ℕ)
accept l cancelled pick = if l.closed then done (err err_listener_closed) else elim l.connections [
  | [] ↦ if cancelled then done (err err_context_cancelled) else blocked
  | place ∷ rest ↦
      if cancelled && pick
      then done (err err_context_cancelled)
      else done (ok (record l { connections = rest }, place))
]

-- `memoryListener.Close`: the channel is closed without a test, and closing it again panics.
unfoldable pub close_listener : Listener → Outcome Listener
close_listener l = if l.closed then panic else ok (record l { closed = true })

-- A listener's state is shared with the transport that knows it by its address.
unfoldable pub update_listener : Transport → Listener → Transport
update_listener t l = record t { listeners = insert l.addr l t.listeners }
