-- ===== src/Transport/Memory/Closing.antt =====
-- Closing a pair, in every order of the calls.
use causalclock.Base.{
  ◌+◌, ℕ, Str, Bool, false, Option, none, some, [], ◌∷◌, ◌++◌, ◌≡◌, ◌≢◌, refl, ◌||◌, arith,
}
use causalclock.Transport.Types.{Message, ok, err, panic, err_connection_closed}
use causalclock.Transport.Memory.Link.{
  recv_loop, Queue, Side, client, server, Link, new_link, outbound, closed, set_outbound,
  append_message, notify, send, done, spent, recv, close, clear_messages,
}

-- One method call that changes the pair.
pub data Step : Link → Link → Type 0 where
  sent :
      {l l' : Link} (s : Side) (cancelled pick : Bool) (m : Option Message)
      → send s l cancelled pick m ≡ ok l'
      → Step l l'
  received :
      {l l' : Link} (s : Side) (cancelled pick : Bool) (m : Message)
      → recv s l cancelled pick ≡ done (ok (l', m))
      → Step l l'
  closed_by : (l : Link) (s : Side) → Step l (close s l)
  cleared : (l : Link) (s : Side) → Step l (clear_messages s l)

-- Any sequence of calls.
pub data Reach (l : Link) : Link → Type 0 where
  here : Reach l l
  next : {k k' : Link} → Reach l k → Step k k' → Reach l k'

-- The queues are closed exactly when one of the ends is.
pub record IsConsistent (l : Link) : Type 0 where
  pub up_closed : l.up.closed ≡ (l.client_closed || l.server_closed)
  pub down_closed : l.down.closed ≡ (l.client_closed || l.server_closed)

send-IsConsistent :
    (s : Side) (l l' : Link) (cancelled pick : Bool) (m : Option Message)
    → send s l cancelled pick m ≡ ok l'
    → IsConsistent l
    → IsConsistent l'
unfolding send
send-IsConsistent client l l' cancelled pick none e h = ground arith
send-IsConsistent server l l' cancelled pick none e h = ground arith
send-IsConsistent client l l' cancelled pick (some m) e h = ground arith
send-IsConsistent server l l' cancelled pick (some m) e h = ground arith

recv-IsConsistent :
    (s : Side) (l l' : Link) (cancelled pick : Bool) (m : Message)
    → recv s l cancelled pick ≡ done (ok (l', m))
    → IsConsistent l
    → IsConsistent l'
unfolding recv
recv-IsConsistent client l l' cancelled pick m e h = ground arith
recv-IsConsistent server l l' cancelled pick m e h = ground arith

Step-IsConsistent : {l l' : Link} → Step l l' → IsConsistent l → IsConsistent l'
Step-IsConsistent (sent {l} {l'} s cancelled pick m e) h =
    send-IsConsistent s l l' cancelled pick m e h
Step-IsConsistent (received {l} {l'} s cancelled pick m e) h =
    recv-IsConsistent s l l' cancelled pick m e h
Step-IsConsistent (closed_by l client) h = unfold close in ground arith
Step-IsConsistent (closed_by l server) h = unfold close in ground arith
Step-IsConsistent (cleared l client) h = unfold clear_messages in ground arith
Step-IsConsistent (cleared l server) h = unfold clear_messages in ground arith

Reach-from : {l k : Link} → IsConsistent l → Reach l k → IsConsistent k
Reach-from h here = h
Reach-from h (next r st) = Step-IsConsistent st (Reach-from h r)

-- After any sequence of calls on a new pair, in any order and by either end, both queues are
-- closed exactly when at least one end has been closed.
pub Reach-IsConsistent :
    (local remote : Str) {l : Link} → Reach (new_link local remote) l → IsConsistent l
unfolding new_link
Reach-IsConsistent local remote r = Reach-from (record { up_closed = refl; down_closed = refl }) r

-- `close` is idempotent.
pub close_idem : (s : Side) (l : Link) → close s (close s l) ≡ close s l
unfolding close
close_idem client l = ground arith
close_idem server l = ground arith

-- On a pair reached by calls, one end of which is closed, no end can send, whatever it sends.
pub send_closed :
    (local remote : Str) (l : Link) (s t : Side) (m : Message)
    → Reach (new_link local remote) l
    → send s (close t l) false false (some m) ≡ err err_connection_closed
unfolding send close
send_closed local remote l client client m r =
    let h = Reach-IsConsistent local remote r in ground arith
send_closed local remote l client server m r =
    let h = Reach-IsConsistent local remote r in ground arith
send_closed local remote l server client m r =
    let h = Reach-IsConsistent local remote r in ground arith
send_closed local remote l server server m r =
    let h = Reach-IsConsistent local remote r in ground arith

-- The loop of `recv` ends after two rounds at most.
pub recv-ne-spent : (s : Side) (l : Link) (cancelled pick : Bool) → recv s l cancelled pick ≢ spent
unfolding recv
recv-ne-spent client l cancelled pick h = ground arith
recv-ne-spent server l cancelled pick h = ground arith

-- The loop of `Recv` comes to an end within two rounds: whatever more it is given, it comes to the
-- same, and it never runs out.
pub recv_loop-recv :
    (n : ℕ) (s : Side) (l : Link) (cancelled pick : Bool)
    → (recv_loop (n + 2) s l cancelled pick ≡ recv s l cancelled pick)
      × (recv s l cancelled pick ≢ spent)
unfolding recv
recv_loop-recv n client l cancelled pick = (ground arith, recv-ne-spent client l cancelled pick)
recv_loop-recv n server l cancelled pick = (ground arith, recv-ne-spent server l cancelled pick)

-- `send`, run whole, never panics.
pub send-ne-panic :
    (s : Side) (l : Link) (cancelled pick : Bool) (m : Option Message)
    → send s l cancelled pick m ≢ panic
unfolding send
send-ne-panic client l cancelled pick none h = ground arith
send-ne-panic server l cancelled pick none h = ground arith
send-ne-panic client l cancelled pick (some m) h = ground arith
send-ne-panic server l cancelled pick (some m) h = ground arith

-- Where either end closes between the two parts of a `send` on an open pair, the first part
-- takes the message and the notification panics.
pub notify-close :
    (s t : Side) (l : Link) (m : Message)
    → (outbound s l).closed ≡ false
    → closed t l ≡ false
    → (q : Queue) × (append_message (outbound s l) m ≡ ok q)
      × (notify (outbound s (close t (set_outbound s q l))) ≡ panic)
unfolding append_message notify close
notify-close client client l m h k =
    (record (l.up) { messages = l.up.messages ++ (m ∷ []) }, ground arith, ground arith)
notify-close client server l m h k =
    (record (l.up) { messages = l.up.messages ++ (m ∷ []) }, ground arith, ground arith)
notify-close server client l m h k =
    (record (l.down) { messages = l.down.messages ++ (m ∷ []) }, ground arith, ground arith)
notify-close server server l m h k =
    (record (l.down) { messages = l.down.messages ++ (m ∷ []) }, ground arith, ground arith)
