-- ===== src/Transport/Mock/Buffer.antt =====
-- The channel of a mock connection, over all interleavings of the calls on it.
use causalclock.Base.{
  ap, ◌∙◌, suc, ℕ, zero, suc, ap, sym, ◌∙◌, ◌≤◌, Bool, Option, some, List, [], ◌∷◌, ◌++◌, length,
  length-append, ◌≡◌, refl, arith,
}
use mathlib.Core.List.{append_assoc, append-nil, Perm, perm_middle, perm_append_comm}
use mathlib.Core.List.Perm
use causalclock.Transport.Mock.Calls.{
  Trace, started, send_returned, send_selecting, send_done, send_failed, send_panicked,
  recv_refused, recv_taken, recv_nothing, recv_cancelled, peek_taken, peek_done, peek_lost,
  peek_nothing, closed_by, set,
}
use causalclock.Transport.Types.{panic, Message, Error, Outcome, ok, err}
use causalclock.Transport.Mock.Conn.{
  peek_take, peek_put, MockConn, Hooks, done, capacity, returned, selecting, send_begin,
  send_select, Received, recv_begin, recv_select, close, new_conn, send_global,
}

send_global_messages :
    (h : Hooks) (c c' : MockConn) (msg : Option Message)
    → ((r : Outcome (Unit {0})) → send_global h c msg ≡ returned c' r → c'.messages ≡ c.messages)
      × (send_global h c msg ≡ selecting c' → c'.messages ≡ c.messages)
unfolding send_global
send_global_messages h c c' msg = (λ r e. ground arith, λ e. ground arith)

send_begin_messages :
    (h : Hooks) (c c' : MockConn) (msg : Option Message)
    → ((r : Outcome (Unit {0})) → send_begin h c msg ≡ returned c' r → c'.messages ≡ c.messages)
      × (send_begin h c msg ≡ selecting c' → c'.messages ≡ c.messages)
unfolding send_begin
send_begin_messages h c c' msg = (
  λ r e. ground (arith, send_global_messages h c c' msg),
  λ e. ground (arith, send_global_messages h c c' msg),
)

send_select_ok :
    (c c' : MockConn) (cancelled pick : Bool) (msg : Option Message)
    → send_select c cancelled pick msg ≡ done (c', ok tt)
    → (c'.messages ≡ c.messages ++ (msg ∷ [])) × (length c'.messages ≤ capacity)
unfolding send_select
send_select_ok c c' cancelled pick msg e = ground (arith, length-append c.messages (msg ∷ []))

send_select_err :
    (c c' : MockConn) (cancelled pick : Bool) (msg : Option Message) (e : Error)
    → send_select c cancelled pick msg ≡ done (c', err e)
    → c'.messages ≡ c.messages
unfolding send_select
send_select_err c c' cancelled pick msg e p = ground arith

recv_select_ok :
    (h : Hooks) (c c' : MockConn) (cancelled pick : Bool) (msg : Option Message)
    (rest : List (Option Message)) (got : Received)
    → c.messages ≡ msg ∷ rest
    → recv_select h c cancelled pick ≡ done (c', ok got)
    → (got.message ≡ msg) × (c'.messages ≡ rest)
unfolding recv_select
recv_select_ok h c c' cancelled pick msg rest got m e = ground arith

recv_select_nothing :
    (h : Hooks) (c c' : MockConn) (cancelled pick : Bool) (r : Outcome Received)
    → c.messages ≡ []
    → recv_select h c cancelled pick ≡ done (c', r)
    → c'.messages ≡ []
unfolding recv_select
recv_select_nothing h c c' cancelled pick r m e = ground arith

recv_select_err :
    (h : Hooks) (c c' : MockConn) (cancelled pick : Bool) (e : Error)
    → recv_select h c cancelled pick ≡ done (c', err e)
    → c'.messages ≡ c.messages
unfolding recv_select
recv_select_err h c c' cancelled pick e p = ground arith

recv_begin_messages :
    (c c' : MockConn) (e : Error) → recv_begin c ≡ some (c', e) → c'.messages ≡ c.messages
unfolding recv_begin
recv_begin_messages c c' e p = ground arith

close_messages : (c : MockConn) → (close c).messages ≡ c.messages
unfolding close
close_messages c = ground arith

send_select_panic :
    (c c' : MockConn) (cancelled pick : Bool) (msg : Option Message)
    → send_select c cancelled pick msg ≡ done (c', panic)
    → c'.messages ≡ c.messages
unfolding send_select
send_select_panic c c' cancelled pick msg p = ground arith

peek_take_messages :
    (c c' : MockConn) (msg got : Option Message) (rest : List (Option Message))
    → c.messages ≡ msg ∷ rest
    → peek_take c ≡ some (c', got)
    → (got ≡ msg) × (c'.messages ≡ rest)
unfolding peek_take
peek_take_messages c c' msg got rest m e = ground arith

peek_take_nothing :
    (c c' : MockConn) (got : Option Message)
    → c.messages ≡ []
    → peek_take c ≡ some (c', got)
    → c'.messages ≡ []
unfolding peek_take
peek_take_nothing c c' got m e = ground arith

peek_put_ok :
    (c c' : MockConn) (msg got : Option Message)
    → peek_put c msg ≡ done (c', ok got)
    → (c'.messages ≡ c.messages ++ (msg ∷ [])) × (length c'.messages ≤ capacity)
unfolding peek_put
peek_put_ok c c' msg got e = ground (arith, length-append c.messages (msg ∷ []))

peek_put_panic :
    (c c' : MockConn) (msg : Option Message)
    → peek_put c msg ≡ done (c', panic)
    → c'.messages ≡ c.messages
unfolding peek_put
peek_put_panic c c' msg e = ground arith

-- Where nothing was taken by `PeekMessage`, what was sent is, in order, what `Recv` took and what
-- waits; else it is that in some order, with what a `PeekMessage` holds and what those that panicked
-- lost.
abbrev pub Account :
    ℕ
    → List (Option Message)
    → List (Option Message)
    → List (Option Message)
    → List (Option Message)
    → List (Option Message)
    → Type 0
Account zero sent taken lost held waiting = (sent ≡ taken ++ waiting) × (lost ++ held ≡ [])
Account (suc turns) sent taken lost held waiting = Perm sent (taken ++ ((lost ++ held) ++ waiting))

-- One more message at the end of the channel.
Account-sent :
    (turns : ℕ) (sent taken lost held waiting : List (Option Message)) (msg : Option Message)
    → Account turns sent taken lost held waiting
    → Account turns (sent ++ (msg ∷ [])) taken lost held (waiting ++ (msg ∷ []))
Account-sent zero sent taken lost held waiting msg (e, n) = (rw (e, append_assoc), n)
Account-sent (suc turns) sent taken lost held waiting msg p =
    let end =
      append_assoc taken ((lost ++ held) ++ waiting) (msg ∷ [])
      ∙ ap (λ x. taken ++ x) (append_assoc (lost ++ held) waiting (msg ∷ [])) in
    rw (← end) (Perm.append p (Perm.refl (msg ∷ [])))

-- The first message of the channel moves to those that `Recv` took.
Account-taken :
    (turns : ℕ) (sent taken lost held waiting : List (Option Message)) (msg : Option Message)
    → Account turns sent taken lost held (msg ∷ waiting)
    → Account turns sent (taken ++ (msg ∷ [])) lost held waiting
Account-taken zero sent taken lost held waiting msg (e, n) = (rw (e, append_assoc), n)
Account-taken (suc turns) sent taken lost held waiting msg p =
    rw (append_assoc taken (msg ∷ []) ((lost ++ held) ++ waiting))
      (Perm.trans p (Perm.append (Perm.refl taken) (perm_middle (lost ++ held) waiting)))

add_held :
    (lost waiting : List (Option Message)) (msg : Option Message)
    → (lost ++ (msg ∷ [])) ++ waiting ≡ (lost ++ []) ++ (msg ∷ waiting)
add_held lost waiting msg =
    append_assoc lost (msg ∷ []) waiting ∙ sym (ap (λ x. x ++ (msg ∷ waiting)) (append-nil lost))

-- `PeekMessage` takes the first message and holds it.
Account-held :
    (turns : ℕ) (sent taken lost waiting : List (Option Message)) (msg : Option Message)
    → Account turns sent taken lost [] (msg ∷ waiting)
    → Account (suc turns) sent taken lost (msg ∷ []) waiting
Account-held zero sent taken lost waiting msg (e, n) =
    rw (e, ap (λ x. x ++ (msg ∷ [])) (sym (append-nil lost) ∙ n))
      (Perm.refl (taken ++ (msg ∷ waiting)))
Account-held (suc turns) sent taken lost waiting msg p = rw (add_held lost waiting msg) p

-- It puts it back behind the others.
Account-put :
    (turns : ℕ) (sent taken lost waiting : List (Option Message)) (msg : Option Message)
    → Account (suc turns) sent taken lost (msg ∷ []) waiting
    → Account (suc turns) sent taken lost [] (waiting ++ (msg ∷ []))
Account-put turns sent taken lost waiting msg p = rw (append-nil lost) (
    Perm.trans p (
      rw (append_assoc lost (msg ∷ []) waiting) (
        Perm.append (Perm.refl taken)
          (Perm.append (Perm.refl lost) (perm_append_comm (msg ∷ []) waiting)))))

-- It loses it.
Account-lost :
    (turns : ℕ) (sent taken lost waiting : List (Option Message)) (msg : Option Message)
    → Account (suc turns) sent taken lost (msg ∷ []) waiting
    → Account (suc turns) sent taken (lost ++ (msg ∷ [])) [] waiting
Account-lost turns sent taken lost waiting msg p = rw (append-nil (lost ++ (msg ∷ []))) p

-- On every connection that `Dial` made, in every interleaving of the parts of `Send`, `Recv`,
-- `PeekMessage`, `Close` and the setters: while no `PeekMessage` has taken a message, those that
-- went in are those that `Recv` took followed by those that wait, in order. From then on they are,
-- in some order, those that `Recv` took, those that wait, the one that a `PeekMessage` holds and
-- those that were lost in its panic on a closed connection. At most 64 wait.
pub Trace-messages :
    {h : Hooks} {turns : ℕ} {sent taken lost held : List (Option Message)} {c : MockConn}
    → Trace h turns sent taken lost held c
    → Account turns sent taken lost held c.messages × (length c.messages ≤ capacity)
unfolding new_conn
Trace-messages (started local remote) = ((refl, refl), omega arith)
Trace-messages (send_returned {c} {c'} {r} msg t p) =
    rw ((send_begin_messages _ c c' msg).0 r p) (Trace-messages t)
Trace-messages (send_selecting {c} {c'} msg t p) =
    rw ((send_begin_messages _ c c' msg).1 p) (Trace-messages t)
Trace-messages (send_done {turns} {sent} {taken} {lost} {held} {c} {c'} cancelled pick msg t p) =
    let (grown, bound) = send_select_ok c c' cancelled pick msg p in
    (rw grown (Account-sent turns sent taken lost held c.messages msg (Trace-messages t).0), bound)
Trace-messages (send_failed {c} {c'} {e} cancelled pick msg t p) =
    rw (send_select_err c c' cancelled pick msg e p) (Trace-messages t)
Trace-messages (send_panicked {c} {c'} cancelled pick msg t p) =
    rw (send_select_panic c c' cancelled pick msg p) (Trace-messages t)
Trace-messages (recv_refused {c} {c'} {e} t p) =
    rw (recv_begin_messages c c' e p) (Trace-messages t)
Trace-messages
      (recv_taken {turns} {sent} {taken} {lost} {held} {rest} {c} {c'} {msg} {got} cancelled pick t
        m p) =
    let (kept, bound) = Trace-messages t in
    let (first, left) = recv_select_ok _ c c' cancelled pick msg rest got m p in
    (
      rw (first, left) (Account-taken turns sent taken lost held rest msg (rw m at kept)),
      ground (arith, m, left, bound),
    )
Trace-messages (recv_nothing {c} {c'} {r} cancelled pick t m p) =
    rw (recv_select_nothing _ c c' cancelled pick r m p ∙ sym m) (Trace-messages t)
Trace-messages (recv_cancelled {c} {c'} {e} cancelled pick t p) =
    rw (recv_select_err _ c c' cancelled pick e p) (Trace-messages t)
Trace-messages (peek_taken {turns} {sent} {taken} {lost} {rest} {c} {c'} {msg} {got} t m p) =
    let (kept, bound) = Trace-messages t in
    let (first, left) = peek_take_messages c c' msg got rest m p in
    (
      rw (first, left) (Account-held turns sent taken lost rest msg (rw m at kept)),
      ground (arith, m, left, bound),
    )
Trace-messages (peek_done {turns} {sent} {taken} {lost} {c} {c'} {msg} {got} t p) =
    let (grown, bound) = peek_put_ok c c' msg got p in
    (rw grown (Account-put turns sent taken lost c.messages msg (Trace-messages t).0), bound)
Trace-messages (peek_lost {turns} {sent} {taken} {lost} {c} {c'} {msg} t p) =
    let (kept, bound) = Trace-messages t in
    rw (peek_put_panic c c' msg p) (Account-lost turns sent taken lost c.messages msg kept, bound)
Trace-messages (peek_nothing {c} {c'} {c''} {msg} t m p q) =
    rw (peek_put_panic c' c'' msg q ∙ peek_take_nothing c c' msg m p ∙ sym m) (Trace-messages t)
Trace-messages (closed_by {c} t) = rw (close_messages c) (Trace-messages t)
Trace-messages (set fail_send fail_recv on_send on_recv t) = Trace-messages t
