-- ===== src/Transport/Memory/Fifo.antt =====
-- Messages arrive in the order in which they were sent.
use causalclock.Base.{
  ℕ, length, zero, suc, Bool, true, false, some, List, [], ◌∷◌, ◌++◌, ◌≡◌, refl, sym, ◌∙◌, arith,
}
use mathlib.Core.List.{append-nil, append_assoc}
use causalclock.Transport.Types.{Message, Outcome, ok, err, panic, ◌>>=◌}
use causalclock.Transport.Memory.Link.{
  Side, client, server, Link, peer, outbound, inbound, closed, send, Attempt, done, blocked, spent,
  recv,
}

-- An end can be used: it is not closed, nor are its queues.
pub record IsOpen (s : Side) (l : Link) : Type 0 where
  pub end_open : closed s l ≡ false
  pub out_open : (outbound s l).closed ≡ false

-- A send on an open end puts the message behind those under way, and leaves the other
-- direction and both flags alone.
pub send_open :
    (s : Side) (l : Link) (cancelled : Bool) (m : Message)
    → IsOpen s l
    → (l' : Link) × (send s l cancelled false (some m) ≡ ok l')
      × ((inbound (peer s) l').messages ≡ (inbound (peer s) l).messages ++ (m ∷ []))
      × (inbound s l' ≡ inbound s l)
      × (closed s l' ≡ closed s l)
      × (closed (peer s) l' ≡ closed (peer s) l)
      × ((outbound s l').closed ≡ false)
unfolding send
send_open client l true m h = (
  record l {
    up = record { messages = l.up.messages ++ (m ∷ []); token = true; closed = l.up.closed };
  },
  ground arith,
  refl,
  refl,
  refl,
  refl,
  ground arith,
)
send_open client l false m h = (
  record l {
    up = record { messages = l.up.messages ++ (m ∷ []); token = true; closed = l.up.closed };
  },
  ground arith,
  refl,
  refl,
  refl,
  refl,
  ground arith,
)
send_open server l true m h = (
  record l {
    down = record { messages = l.down.messages ++ (m ∷ []); token = true; closed = l.down.closed };
  },
  ground arith,
  refl,
  refl,
  refl,
  refl,
  ground arith,
)
send_open server l false m h = (
  record l {
    down = record { messages = l.down.messages ++ (m ∷ []); token = true; closed = l.down.closed };
  },
  ground arith,
  refl,
  refl,
  refl,
  refl,
  ground arith,
)

-- A receipt takes the message that was sent first, closed queue or not, and leaves the rest.
pub recv_first :
    (s : Side) (l : Link) (cancelled pick : Bool) (m : Message) (rest : List Message)
    → closed s l ≡ false
    → (inbound s l).messages ≡ m ∷ rest
    → (l' : Link) × (recv s l cancelled pick ≡ done (ok (l', m)))
      × ((inbound s l').messages ≡ rest)
      × (outbound s l' ≡ outbound s l)
      × (closed s l' ≡ false)
unfolding recv
recv_first client l cancelled pick m rest h e = (
  record l { down = record { messages = rest; token = l.down.token; closed = l.down.closed } },
  ground arith,
  refl,
  refl,
  h,
)
recv_first server l cancelled pick m rest h e = (
  record l { up = record { messages = rest; token = l.up.token; closed = l.up.closed } },
  ground arith,
  refl,
  refl,
  h,
)

-- Sends of a list of messages, one after the other.
unfoldable pub send_all : Side → Link → List Message → Outcome Link
send_all s l [] = ok l
send_all s l (m ∷ ms) = do l' ← send s l false false (some m); send_all s l' ms

-- A number of receipts, one after the other, with the messages that they return.
unfoldable pub recv_many : ℕ → Side → Link → Attempt (Link × List Message)
recv_many zero s l = done (ok (l, []))
recv_many (suc n) s l = elim (recv s l false false) [
  | done (ok (l', m)) ↦ elim (recv_many n s l') [
    | done (ok (l'', ms)) ↦ done (ok (l'', m ∷ ms))
    | done (err e) ↦ done (err e)
    | done panic ↦ done panic
    | blocked ↦ blocked
    | spent ↦ spent
  ]
  | done (err e) ↦ done (err e)
  | done panic ↦ done panic
  | blocked ↦ blocked
  | spent ↦ spent
]

send_all_open :
    (s : Side) (l : Link) (ms : List Message)
    → IsOpen s l
    → closed (peer s) l ≡ false
    → (l' : Link) × (send_all s l ms ≡ ok l')
      × ((inbound (peer s) l').messages ≡ (inbound (peer s) l).messages ++ ms)
      × (closed (peer s) l' ≡ false)
unfolding send_all
send_all_open s l [] h p = (l, refl, sym (append-nil (inbound (peer s) l).messages), p)
send_all_open s l (m ∷ ms) h p =
    let (l', sent, queued, same, mine, theirs, out) = send_open s l false m h in
    let (l'', all, there, still) =
      send_all_open s l' ms (record { end_open = mine ∙ h.end_open; out_open = out })
        (theirs ∙ p) in
    (
      l'',
      rw sent all,
      there ∙ rw queued (append_assoc (inbound (peer s) l).messages (m ∷ []) ms),
      still,
    )

recv_many_first :
    (s : Side) (l : Link) (ms : List Message)
    → closed s l ≡ false
    → (inbound s l).messages ≡ ms
    → (l' : Link) × (recv_many (length ms) s l ≡ done (ok (l', ms)))
unfolding recv_many
recv_many_first s l [] h e = (l, refl)
recv_many_first s l (m ∷ ms) h e =
    let (l', got, rest, same, still) = recv_first s l false false m ms h e in
    let (l'', all) = recv_many_first s l' ms still rest in (l'', ground (arith, got, all))

-- Messages sent one after the other on an open pair, whose other direction may be in any state,
-- are received in the order in which they were sent, if none was under way.
pub send_all-recv_many :
    (s : Side) (l : Link) (ms : List Message)
    → IsOpen s l
    → closed (peer s) l ≡ false
    → (inbound (peer s) l).messages ≡ []
    → (l' : Link) × (l'' : Link) × (send_all s l ms ≡ ok l')
      × (recv_many (length ms) (peer s) l' ≡ done (ok (l'', ms)))
send_all-recv_many s l ms h p e =
    let (l', sent, queued, still) = send_all_open s l ms h p in
    let (l'', got) = recv_many_first (peer s) l' ms still (queued ∙ rw e) in (l', l'', sent, got)
