-- ===== src/Transport/Tcp/Kept.antt =====
-- What `Recv` and `Close` of a `TCPConnection` do to what it sends.
use causalclock.Base.{ℕ, false, List, [], ◌≡◌, refl, ◌∙◌, arith, Bool-cases, Option-cases, inl, inr}
use causalclock.Base.Bytes.{be}
use causalclock.Transport.Types.{Message, Outcome, ok, err, panic}
use causalclock.Transport.Codec.{deserialize}
use causalclock.Transport.Tcp.Conn.{
  Conn, over_limit, add_one, close, read_full, recv, recv_open, recv_frame, recv_data,
}

-- A connection that has sent nothing more, and is open only if it was.
pub record IsKept (c c' : Conn) : Type 0 where
  pub sent : c'.outgoing ≡ c.outgoing
  pub opened : c'.closed ≡ false → c.closed ≡ false
  pub counted : c'.send_count ≡ c.send_count

pub close-IsKept : (c : Conn) → IsKept c (close c)
unfolding close
close-IsKept c = elim (Bool-cases c.closed) [
  | inl e ↦ record {
    sent = rw (close, e) refl;
    opened = λ o. ground (arith, e, o);
    counted = rw (close, e) refl;
  }
  | inr e ↦ record { sent = rw (close, e) refl; opened = λ o. e; counted = rw (close, e) refl }
]

recv_data-IsKept : (c : Conn) (bytes : List ℕ) → IsKept c (recv_data c bytes).0
unfolding recv_data
recv_data-IsKept c bytes =
    elim (deserialize bytes)
      as (λ r.
        IsKept c
          (elim r as (λ x. Conn × Outcome Message) [
            | ok m ↦ (record c { recv_count = add_one c.recv_count }, ok m)
            | err e ↦ (c, err e)
            | panic ↦ (c, panic)
          ]).0) [
            | ok m ↦ record { sent = refl; opened = λ o. o; counted = refl }
            | err e ↦ record { sent = refl; opened = λ o. o; counted = refl }
            | panic ↦ record { sent = refl; opened = λ o. o; counted = refl }
          ]

-- A connection that has only read, and one that then was closed.
read_on : (c : Conn) (rest : List ℕ) → IsKept c (record c { incoming = rest })
read_on c rest = record { sent = refl; opened = λ o. o; counted = refl }

IsKept-trans : (a b c : Conn) → IsKept a b → IsKept b c → IsKept a c
IsKept-trans a b c h k = record {
  sent = k.sent ∙ h.sent;
  opened = λ o. h.opened (k.opened o);
  counted = k.counted ∙ h.counted;
}

read_on-close : (c : Conn) (rest : List ℕ) → IsKept c (close (record c { incoming = rest }))
read_on-close c rest =
    IsKept-trans c (record c { incoming = rest }) (close (record c { incoming = rest }))
      (read_on c rest) (close-IsKept (record c { incoming = rest }))

recv_frame-IsKept : (c : Conn) (n : ℕ) → IsKept c (recv_frame c n).0
unfolding recv_frame
recv_frame-IsKept c n = elim (Bool-cases (over_limit c.config n)) [
  | inl e ↦ simp e (close-IsKept c)
  | inr e ↦ elim (Option-cases (read_full n c.incoming)) [
    | inl short ↦ simp (e, short) (read_on-close c [])
    | inr ((bytes, rest), got) ↦
        let next = record c { incoming = rest } in
        simp (e, got)
          (IsKept-trans c next (recv_data next bytes).0 (read_on c rest)
            (recv_data-IsKept next bytes))
  ]
]

recv_open-IsKept : (c : Conn) → IsKept c (recv_open c).0
unfolding recv_open
recv_open-IsKept c = elim (Option-cases (read_full 4 c.incoming)) [
  | inl short ↦ rw (recv_open, short) (read_on-close c [])
  | inr ((len_buf, rest), got) ↦
      let next = record c { incoming = rest } in
      rw (recv_open, got)
        (IsKept-trans c next (recv_frame next (be len_buf)).0 (read_on c rest)
          (recv_frame-IsKept next (be len_buf)))
]

pub recv-IsKept : (c : Conn) → IsKept c (recv c).0
unfolding recv
recv-IsKept c = elim (Bool-cases c.closed) [
  | inl shut ↦ simp shut (record { sent = refl; opened = λ o. o; counted = refl })
  | inr working ↦ simp working (recv_open-IsKept c)
]
