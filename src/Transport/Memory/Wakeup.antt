-- ===== src/Transport/Memory/Wakeup.antt =====
-- Calls of `Send` and `Recv` that overlap on one queue of `transport/memory.go`: a `Send` stands
-- between its append and its notification, and a `Recv` before the tests of its loop or in its
-- `select`.
use causalclock.Base.{
  ℕ, ◌+◌, ◌<◌, ◌≤◌, Bool, true, false, not, List, [], ◌∷◌, ◌==◌, ◌||◌, ◌≡◌, refl, arith,
}
use causalclock.Transport.Types.{Message, Error, Outcome, ok}
use causalclock.Transport.Memory.Link.{
  Queue, empty_queue, append_message, notify, close_queue, returned, waits, recv_check, woken,
  stopped, asleep, recv_select,
}

-- The queue, the flag `closed` of the receiving end, and how many calls stand where.
pub record Calls : Type 0 where
  pub queue : Queue
  pub ended : Bool
  pub notifying : ℕ
  pub checking : ℕ
  pub waiting : ℕ

abbrev pub no_calls : Calls
no_calls = record { queue = empty_queue; ended = false; notifying = 0; checking = 0; waiting = 0 }

-- A step of one of the calls, where at most `limit` calls of `Recv` overlap.
pub data Step (limit : ℕ) : Calls → Calls → Type 0 where
  appended :
      {w : Calls} {q : Queue} (m : Message)
      → append_message w.queue m ≡ ok q
      → Step limit w (record w { queue = q; notifying = w.notifying + 1 })
  notified :
      {w : Calls} {q : Queue} (n : ℕ)
      → w.notifying ≡ n + 1
      → notify w.queue ≡ ok q
      → Step limit w (record w { queue = q; notifying = n })
  called :
      {w : Calls}
      → w.checking + w.waiting < limit
      → Step limit w (record w { checking = w.checking + 1 })
  check_returned :
      {w : Calls} {q : Queue} {r : Outcome Message} (n : ℕ)
      → w.checking ≡ n + 1
      → recv_check w.ended w.queue ≡ returned q r
      → Step limit w (record w { queue = q; checking = n })
  check_waits :
      {w : Calls} (n : ℕ)
      → w.checking ≡ n + 1
      → recv_check w.ended w.queue ≡ waits
      → Step limit w (record w { checking = n; waiting = w.waiting + 1 })
  woke :
      {w : Calls} {q : Queue} (n : ℕ) (cancelled pick : Bool)
      → w.waiting ≡ n + 1
      → recv_select w.queue cancelled pick ≡ woken q
      → Step limit w (record w { queue = q; checking = w.checking + 1; waiting = n })
  gave_up :
      {w : Calls} {e : Error} (n : ℕ) (cancelled pick : Bool)
      → w.waiting ≡ n + 1
      → recv_select w.queue cancelled pick ≡ stopped e
      → Step limit w (record w { waiting = n })
  queue_closed : (w : Calls) → Step limit w (record w { queue = close_queue w.queue })
  end_closed : (w : Calls) → Step limit w (record w { ended = true })
  cleared : (w : Calls) → Step limit w (record w { queue = record w.queue { messages = [] } })

-- What any interleaving leads to.
pub data Reach (limit : ℕ) : Calls → Type 0 where
  here : Reach limit no_calls
  next : {w w' : Calls} → Reach limit w → Step limit w w' → Reach limit w'

abbrev is_nil : List Message → Bool
is_nil [] = true
is_nil (m ∷ ms) = false

-- At most one `Recv` is under way, and where it waits although there are messages, it has been
-- notified or will be.
record IsHeard (w : Calls) : Type 0 where
  single : w.checking + w.waiting ≤ 1
  heard :
      ((w.waiting == 0)
        || (is_nil w.queue.messages
            || (w.queue.token || (w.queue.closed || not (w.notifying == 0)))))
      ≡ true

Step-IsHeard : {w w' : Calls} → Step 1 w w' → IsHeard w → IsHeard w'
unfolding append_message notify recv_check recv_select
Step-IsHeard (appended {w} {q} m e) h = record {
  single = h.single;
  heard = ground (arith, h.heard);
}
Step-IsHeard (notified {w} {q} n k e) h = record {
  single = h.single;
  heard = ground (arith, h.heard);
}
Step-IsHeard (called {w} l) h = record { single = omega arith; heard = h.heard }
Step-IsHeard (check_returned {w} {q} {r} n k e) h = record {
  single = ground (arith, h.single);
  heard = ground (arith, h.single);
}
Step-IsHeard (check_waits {w} n k e) h = record {
  single = ground (arith, h.single);
  heard = ground (arith, h.single);
}
Step-IsHeard (woke {w} {q} n cancelled pick k e) h = record {
  single = ground (arith, h.single);
  heard = ground (arith, h.single);
}
Step-IsHeard (gave_up {w} {e} n cancelled pick k s) h = record {
  single = ground (arith, h.single);
  heard = ground (arith, h.single);
}
Step-IsHeard (queue_closed w) h = record { single = h.single; heard = ground (arith, h.heard) }
Step-IsHeard (end_closed w) h = record { single = h.single; heard = h.heard }
Step-IsHeard (cleared w) h = record { single = h.single; heard = ground (arith, h.heard) }

Reach-IsHeard : {w : Calls} → Reach 1 w → IsHeard w
Reach-IsHeard here = record { single = omega arith; heard = refl }
Reach-IsHeard (next r s) = Step-IsHeard s (Reach-IsHeard r)

-- Where the calls of `Recv` do not overlap one another, a `Recv` that waits on an open queue with
-- messages wakes once the sends under way have notified, and returns the first message.
pub waiting_wakes :
    {w : Calls} (m : Message) (rest : List Message)
    → Reach 1 w
    → 0 < w.waiting
    → w.notifying ≡ 0
    → w.ended ≡ false
    → w.queue.closed ≡ false
    → w.queue.messages ≡ m ∷ rest
    → (q : Queue) × (recv_select w.queue false false ≡ woken q)
      × (recv_check w.ended q ≡ returned (record q { messages = rest }) (ok m))
unfolding recv_select recv_check
waiting_wakes {w} m rest r l n o c e =
    let h = Reach-IsHeard r in (record w.queue { token = false }, ground arith, ground arith)

-- The queue behind the first message of two, of whose two notifications one fell through.
abbrev left_behind : Message → Calls
left_behind n = record {
  queue = record { messages = n ∷ []; token = false; closed = false };
  ended = false;
  notifying = 0;
  checking = 0;
  waiting = 1;
}

two_waiting : Reach 2 (record no_calls { waiting = 2 })
unfolding recv_check
two_waiting =
    next
      (next (next (next here (called (omega arith))) (check_waits 0 refl refl))
        (called (omega arith)))
      (check_waits 0 refl refl)

two_sent :
    (m n : Message)
    → Reach 2 (record no_calls {
      queue = record { messages = m ∷ n ∷ []; token = true; closed = false };
      waiting = 2;
    })
unfolding append_message notify
two_sent m n =
    next (next (next (next two_waiting (appended m refl)) (appended n refl)) (notified 1 refl refl))
      (notified 0 refl refl)

left_behind-Reach : (m n : Message) → Reach 2 (left_behind n)
unfolding recv_check recv_select
left_behind-Reach m n =
    next (next (two_sent m n) (woke 1 false false refl refl)) (check_returned 0 refl refl)

-- With two calls of `Recv` at once, two sends and one receipt can leave the other `Recv` asleep on
-- an open queue that holds a message, with no send under way.
pub waiting_asleep :
    (m n : Message)
    → (w : Calls) × Reach 2 w
      × (w.waiting ≡ 1)
      × (w.checking ≡ 0)
      × (w.notifying ≡ 0)
      × (w.queue.closed ≡ false)
      × (w.queue.messages ≡ n ∷ [])
      × (recv_select w.queue false false ≡ asleep)
unfolding recv_select
waiting_asleep m n = (left_behind n, left_behind-Reach m n, refl, refl, refl, refl, refl, refl)
