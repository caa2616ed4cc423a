-- ===== src/Transport/Memory/Link.antt =====
-- The two ends of a connection of `transport/memory.go`. `Dial` makes two queues, and each end
-- sends on the one that the other end receives from, so the pair is one state. A method runs
-- whole, but for `Send` and `Recv`, whose parts between which other calls can come are also given
-- one by one.
use causalclock.Base.{
  ℕ, zero, suc, Str, Bool, true, false, not, Option, none, some, List, [], ◌∷◌, ◌++◌, ◌&&◌, ◌||◌,
  if◌then◌else◌,
}
use causalclock.Transport.Types.{
  Message, Error, Outcome, ok, err, panic, ◌>>=◌, err_connection_closed, err_nil_message,
  err_context_cancelled,
}

-- `memQueue`; `token` is the one place of the `notifier` channel, which is closed with the queue.
pub record Queue : Type 0 where
  pub messages : List Message
  pub token : Bool
  pub closed : Bool

-- The client's end and the server's end.
pub data Side : Type 0 where
  client server : Side

-- The two `memoryConnection`s of a `Dial`: the queue from the client to the server, the one
-- back, and the flag `closed` of each end.
pub record Link : Type 0 where
  pub local_addr : Str
  pub remote_addr : Str
  pub up : Queue
  pub down : Queue
  pub client_closed : Bool
  pub server_closed : Bool

abbrev pub empty_queue : Queue
empty_queue = record { messages = []; token = false; closed = false }

-- The pair that `Dial` makes; the addresses are those of the client's end.
unfoldable pub new_link : Str → Str → Link
new_link local remote = record {
  local_addr = local;
  remote_addr = remote;
  up = empty_queue;
  down = empty_queue;
  client_closed = false;
  server_closed = false;
}

abbrev pub peer : Side → Side
peer client = server
peer server = client

abbrev pub outbound : Side → Link → Queue
outbound client l = l.up
outbound server l = l.down

abbrev pub inbound : Side → Link → Queue
inbound client l = l.down
inbound server l = l.up

abbrev pub closed : Side → Link → Bool
closed client l = l.client_closed
closed server l = l.server_closed

abbrev pub set_outbound : Side → Queue → Link → Link
set_outbound client q l = record l { up = q }
set_outbound server q l = record l { down = q }

abbrev pub set_inbound : Side → Queue → Link → Link
set_inbound client q l = record l { down = q }
set_inbound server q l = record l { up = q }

abbrev pub set_closed : Side → Link → Link
set_closed client l = record l { client_closed = true }
set_closed server l = record l { server_closed = true }

-- The part of `Send` under the queue's lock: a closed queue refuses, an open one takes the
-- message.
unfoldable pub append_message : Queue → Message → Outcome Queue
append_message q m =
    if q.closed
    then err err_connection_closed
    else ok (record q { messages = q.messages ++ (m ∷ []) })

-- The notification at the end of `Send`: a send on a closed channel panics, and on a full one
-- falls through to `default`.
unfoldable pub notify : Queue → Outcome Queue
notify q = if q.closed then panic else ok (record q { token = true })

-- `Send` past its tests.
unfoldable pub deliver : Side → Link → Message → Outcome Link
unfolding append_message notify
deliver s l m = do q ← append_message (outbound s l) m; q' ← notify q; ok (set_outbound s q' l)

-- `Send`. `cancelled` says that the context is done; where both cases of the `select` are ready,
-- `pick` says that the cancellation is chosen.
unfoldable pub send : Side → Link → Bool → Bool → Option Message → Outcome Link
unfolding deliver
send s l cancelled pick none = if closed s l then err err_connection_closed else err err_nil_message
send s l cancelled pick (some m) =
    if closed s l
    then err err_connection_closed
    else if cancelled && pick
    then err err_context_cancelled
    else deliver s l m

-- What a call of `Recv` comes to: it returns, or it waits for a notification. `spent` says that
-- the loop ran out of fuel.
pub data Attempt {ℓ} (A : Type ℓ) : Type ℓ where
  done : Outcome A → Attempt A
  blocked : Attempt A
  spent : Attempt A

-- What a round of `Recv` finds: it returns, with what it leaves of the queue, or goes on to wait.
pub data Check : Type 0 where
  returned : Queue → Outcome Message → Check
  waits : Check

-- A round of the loop up to its `select`; `ended` is the flag `closed` of the receiving end.
unfoldable pub recv_check : Bool → Queue → Check
recv_check ended q = if ended then returned q (err err_connection_closed) else elim q.messages [
  | m ∷ rest ↦ returned (record q { messages = rest }) (ok m)
  | [] ↦ if q.closed then returned q (err err_connection_closed) else waits
]

-- What the `select` comes to: a notification starts another round.
pub data Selected : Type 0 where
  woken : Queue → Selected
  stopped : Error → Selected
  asleep : Selected

-- The `select` of `Recv`: a closed channel gives the notification that it still holds first.
unfoldable pub recv_select : Queue → Bool → Bool → Selected
recv_select q cancelled pick =
    if cancelled && (pick || not (q.token || q.closed))
    then stopped err_context_cancelled
    else if q.token
    then woken (record q { token = false })
    else if q.closed
    then stopped err_connection_closed
    else asleep

-- The loop of `Recv`, with the pair as it is when the loop runs without interruption.
unfoldable pub recv_loop : ℕ → Side → Link → Bool → Bool → Attempt (Link × Message)
unfolding recv_check recv_select
recv_loop zero s l cancelled pick = spent
recv_loop (suc fuel) s l cancelled pick = elim (recv_check (closed s l) (inbound s l)) [
  | returned q result ↦ done (do m ← result; ok (set_inbound s q l, m))
  | waits ↦ elim (recv_select (inbound s l) cancelled pick) [
    | woken q ↦ recv_loop fuel s (set_inbound s q l) cancelled pick
    | stopped e ↦ done (err e)
    | asleep ↦ blocked
  ]
]

-- `Recv`: a second round is the last, since the first took the notification.
unfoldable pub recv : Side → Link → Bool → Bool → Attempt (Link × Message)
unfolding recv_loop
recv s l cancelled pick = recv_loop 2 s l cancelled pick

abbrev pub close_queue : Queue → Queue
close_queue q = record q { closed = true }

-- `Close`
unfoldable pub close : Side → Link → Link
close s l =
    if closed s l
    then l
    else set_closed s
        (set_outbound s (close_queue (outbound s l)) (set_inbound s (close_queue (inbound s l)) l))

-- `GetAllMessages`
unfoldable pub get_all_messages : Side → Link → List Message
get_all_messages s l = (outbound s l).messages

-- `ClearMessages`
unfoldable pub clear_messages : Side → Link → Link
clear_messages s l = set_outbound s (record (outbound s l) { messages = [] }) l
