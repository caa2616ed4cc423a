-- ===== src/Transport/Mock/Peek.antt =====
-- `PeekMessage` of a mock connection.
use causalclock.Base.{◌≤◌, length, none, some, false, Option, List, [], ◌∷◌, ◌++◌, ◌≡◌, refl, arith}
use causalclock.Transport.Types.{Message, ok, panic}
use causalclock.Transport.Mock.Conn.{
  capacity, peek_put, peek_take, MockConn, Hooks, done, Received, recv, close, peek_message, call,
  add_one,
}

peek_message-close : (c : MockConn) → (peek_message (close c)).1 ≡ panic
unfolding peek_message close
peek_message-close c = ground arith

-- Without an interruption the two parts come to the whole.
peek_message_lem :
    (c : MockConn)
    → length c.messages ≤ capacity
    → elim (peek_take c) [ none ↦ done (c, ok none) | some (c', msg) ↦ peek_put c' msg ]
      ≡ done (peek_message c)
unfolding peek_message peek_take peek_put
peek_message_lem c h = ground arith

-- `peek_message` returns the message that is next, but puts it behind the others: where two or
-- more wait on an open connection, the `Recv` that follows takes the second. Only a message that
-- waits alone is left where it was. Once the connection is closed, `peek_message` panics.
pub peek_message-recv :
    (h : Hooks) (c : MockConn) (m n : Option Message) (rest : List (Option Message))
    → c.closed ≡ false
    → c.will_fail_recv ≡ false
    → c.messages ≡ m ∷ n ∷ rest
    → (c' : MockConn) × (c'' : MockConn) × (got : Received) × (peek_message c ≡ (c', ok m))
      × (recv h c' false false ≡ done (c'', ok got))
      × (got.message ≡ n)
      × (c''.messages ≡ rest ++ (m ∷ []))
      × (peek_message (record c { messages = m ∷ [] }) ≡ (record c { messages = m ∷ [] }, ok m))
      × ((peek_message (close c)).1 ≡ panic)
unfolding peek_message recv close
peek_message-recv h c m n rest o f e = (
  record c { messages = n ∷ (rest ++ (m ∷ [])) },
  record c { messages = rest ++ (m ∷ []); recv_count = add_one c.recv_count },
  record { message = n; calls = call h.on_recv n ++ call c.on_recv n },
  ground arith,
  ground arith,
  refl,
  refl,
  ground arith,
  peek_message-close c,
)
