-- ===== src/Ipc/Port/Channel.antt =====
-- What a port does for its users: a bounded queue of letters, the oldest first, and two queues of
-- waiting threads. A receiver that waited does not get a letter as long as the handle counts as valid.
use noise_v.Base.{
  ℕ, Bool, true, false, Option, none, some, List, [], ◌∷◌, ◌++◌, leb, ltb, if◌then◌else◌, length,
  take,
}
use noise_v.Ipc.Port.{
  port_queue_capacity, max_msg_data, pop_waiter, SendReply, rejected, send_blocked, sent,
  ReceiveReply, receive_blocked, received, PortCall, sends, receives, PortReply, send_reply,
  receive_reply,
}

-- Who sent it, and its bytes.
abbrev pub Letter : Type 0
Letter = ℕ × List ℕ

pub record Channel : Type 0 where
  pub queue : List Letter
  pub recievers : List ℕ
  pub senders : List ℕ

unfoldable pub send : Channel → ℕ → ℕ → List ℕ → SendReply × Channel
send c sender pid bytes =
    if ltb max_msg_data (length bytes)
    then (rejected, c)
    else if leb port_queue_capacity (length c.queue)
    then (send_blocked, record c { senders = c.senders ++ sender ∷ [] })
    else (
      sent (pop_waiter c.recievers).0,
      record c { queue = c.queue ++ (pid, bytes) ∷ []; recievers = (pop_waiter c.recievers).1 },
    )

deliver : Channel → List Letter → ℕ → ℕ → ReceiveReply × Channel
deliver c [] receiver max_len =
    (receive_blocked, record c { recievers = c.recievers ++ receiver ∷ [] })
deliver c ((pid, bytes) ∷ rest) receiver max_len = (
  received (take max_len bytes) (pop_waiter c.senders).0,
  record c { queue = rest; senders = (pop_waiter c.senders).1 },
)

-- A receiver that has waited gives up with nothing while the port's handle counts as valid, and leaves
-- the letters; otherwise it gets the oldest letter or waits.
unfoldable pub receive : Channel → Option Bool → ℕ → ℕ → ReceiveReply × Channel
unfolding deliver
receive c none receiver max_len = deliver c c.queue receiver max_len
receive c (some true) receiver max_len = (received [] none, c)
receive c (some false) receiver max_len = deliver c c.queue receiver max_len

unfoldable pub step : Channel → PortCall → PortReply × Channel
unfolding send receive
step c (sends sender pid bytes) = let (r, c') = send c sender pid bytes in (send_reply r, c')
step c (receives woken receiver max_len) =
    let (r, c') = receive c woken receiver max_len in (receive_reply r, c')

unfoldable pub run : Channel → List PortCall → List PortReply
unfolding step
run c [] = []
run c (x ∷ xs) = let (r, c') = step c x in r ∷ run c' xs
