-- ===== src/Transport/Mock/Calls.antt =====
-- The calls on a mock connection, in the parts that hold its lock or one `select`, in whatever order
-- the callers come.
use causalclock.Base.{suc, ℕ, Str, Bool, Option, some, List, [], ◌∷◌, ◌++◌, ◌≡◌}
use causalclock.Transport.Types.{panic, Message, Error, Outcome, ok, err}
use causalclock.Transport.Mock.Conn.{
  peek_put, peek_take, MockConn, Hooks, SendHook, done, returned, selecting, send_begin,
  send_select, Received, recv_begin, recv_select, close, set_fail_send, set_fail_recv, set_on_send,
  set_on_recv, new_conn,
}

-- `sent` are the messages that went into the channel by `Send`, in order, and `taken` those
-- that `Recv` took from it. A `PeekMessage` that has taken a message holds it, and the lock, until
-- it puts it back, and loses it if that panics; `turns` counts the messages it has taken.
pub data Trace (h : Hooks)
    : ℕ
      → List (Option Message)
      → List (Option Message)
      → List (Option Message)
      → List (Option Message)
      → MockConn
      → Type 0 where
  started : (local remote : Str) → Trace h 0 [] [] [] [] (new_conn local remote)
  send_returned :
      {turns : ℕ} {sent taken lost : List (Option Message)} {c c' : MockConn}
      {r : Outcome (Unit {0})} (msg : Option Message)
      → Trace h turns sent taken lost [] c
      → send_begin h c msg ≡ returned c' r
      → Trace h turns sent taken lost [] c'
  send_selecting :
      {turns : ℕ} {sent taken lost : List (Option Message)} {c c' : MockConn} (msg : Option Message)
      → Trace h turns sent taken lost [] c
      → send_begin h c msg ≡ selecting c'
      → Trace h turns sent taken lost [] c'
  send_done :
      {turns : ℕ} {sent taken lost held : List (Option Message)} {c c' : MockConn}
      (cancelled pick : Bool) (msg : Option Message)
      → Trace h turns sent taken lost held c
      → send_select c cancelled pick msg ≡ done (c', ok tt)
      → Trace h turns (sent ++ (msg ∷ [])) taken lost held c'
  send_failed :
      {turns : ℕ} {sent taken lost held : List (Option Message)} {c c' : MockConn} {e : Error}
      (cancelled pick : Bool) (msg : Option Message)
      → Trace h turns sent taken lost held c
      → send_select c cancelled pick msg ≡ done (c', err e)
      → Trace h turns sent taken lost held c'
  send_panicked :
      {turns : ℕ} {sent taken lost held : List (Option Message)} {c c' : MockConn}
      (cancelled pick : Bool) (msg : Option Message)
      → Trace h turns sent taken lost held c
      → send_select c cancelled pick msg ≡ done (c', panic)
      → Trace h turns sent taken lost held c'
  recv_refused :
      {turns : ℕ} {sent taken lost : List (Option Message)} {c c' : MockConn} {e : Error}
      → Trace h turns sent taken lost [] c
      → recv_begin c ≡ some (c', e)
      → Trace h turns sent taken lost [] c'
  recv_taken :
      {turns : ℕ} {sent taken lost held rest : List (Option Message)} {c c' : MockConn}
      {msg : Option Message} {got : Received} (cancelled pick : Bool)
      → Trace h turns sent taken lost held c
      → c.messages ≡ msg ∷ rest
      → recv_select h c cancelled pick ≡ done (c', ok got)
      → Trace h turns sent (taken ++ (got.message ∷ [])) lost held c'
  recv_nothing :
      {turns : ℕ} {sent taken lost held : List (Option Message)} {c c' : MockConn}
      {r : Outcome Received} (cancelled pick : Bool)
      → Trace h turns sent taken lost held c
      → c.messages ≡ []
      → recv_select h c cancelled pick ≡ done (c', r)
      → Trace h turns sent taken lost held c'
  recv_cancelled :
      {turns : ℕ} {sent taken lost held : List (Option Message)} {c c' : MockConn} {e : Error}
      (cancelled pick : Bool)
      → Trace h turns sent taken lost held c
      → recv_select h c cancelled pick ≡ done (c', err e)
      → Trace h turns sent taken lost held c'
  peek_taken :
      {turns : ℕ} {sent taken lost rest : List (Option Message)} {c c' : MockConn}
      {msg got : Option Message}
      → Trace h turns sent taken lost [] c
      → c.messages ≡ msg ∷ rest
      → peek_take c ≡ some (c', got)
      → Trace h (suc turns) sent taken lost (got ∷ []) c'
  peek_done :
      {turns : ℕ} {sent taken lost : List (Option Message)} {c c' : MockConn}
      {msg got : Option Message}
      → Trace h (suc turns) sent taken lost (msg ∷ []) c
      → peek_put c msg ≡ done (c', ok got)
      → Trace h (suc turns) sent taken lost [] c'
  peek_lost :
      {turns : ℕ} {sent taken lost : List (Option Message)} {c c' : MockConn} {msg : Option Message}
      → Trace h (suc turns) sent taken lost (msg ∷ []) c
      → peek_put c msg ≡ done (c', panic)
      → Trace h (suc turns) sent taken (lost ++ (msg ∷ [])) [] c'
  peek_nothing :
      {turns : ℕ} {sent taken lost : List (Option Message)} {c c' c'' : MockConn}
      {msg : Option Message}
      → Trace h turns sent taken lost [] c
      → c.messages ≡ []
      → peek_take c ≡ some (c', msg)
      → peek_put c' msg ≡ done (c'', panic)
      → Trace h turns sent taken lost [] c''
  closed_by :
      {turns : ℕ} {sent taken lost : List (Option Message)} {c : MockConn}
      → Trace h turns sent taken lost [] c
      → Trace h turns sent taken lost [] (close c)
  set :
      {turns : ℕ} {sent taken lost : List (Option Message)} {c : MockConn}
      (fail_send fail_recv : Bool) (on_send : Option SendHook) (on_recv : Option ℕ)
      → Trace h turns sent taken lost [] c
      → Trace h turns sent taken lost [] (
          set_fail_send fail_send
            (set_fail_recv fail_recv (set_on_send on_send (set_on_recv on_recv c))))
