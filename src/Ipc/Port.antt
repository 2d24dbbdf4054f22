-- ===== src/Ipc/Port.antt =====
-- `IPCPort` of kernel/src/task/ipc.cpp: a ring of 32 messages with two lists of waiting threads.
-- A thread is its number. What runs between two calls of `Scheduler::block` is one step here, since
-- the port's lock is held throughout, and what follows a return of `block` is a step of its own.
pub mod Channel
pub mod Ring
use noise_v.Base.{
  ℕ, zero, suc, ◌+◌, ◌-◌, ◌%◌, Bool, Option, none, some, List, [], ◌∷◌, ◌++◌, leb, ltb, ◌==◌,
  if◌then◌else◌, get_or, length, set, take, replicate,
}

abbrev pub port_queue_capacity : ℕ
port_queue_capacity = 32

abbrev pub max_msg_data : ℕ
max_msg_data = 256

-- `IPCMessage`; `timestamp` and `message_id` are never read or written.
pub record Message : Type 0 where
  pub sender_pid : ℕ
  pub length : ℕ
  pub payload : List ℕ

pub record Port : Type 0 where
  pub id : ℕ
  pub messages : List Message
  pub head : ℕ
  pub tail : ℕ
  pub count : ℕ
  pub blocked_recievers : List ℕ
  pub blocked_senders : List ℕ

pub data SendReply : Type 0 where
  rejected send_blocked : SendReply
  -- the receiver that is woken
  sent : Option ℕ → SendReply

pub data ReceiveReply : Type 0 where
  receive_blocked : ReceiveReply
  -- the bytes copied out, as many as `receive` returns, and the sender that is woken
  received : List ℕ → Option ℕ → ReceiveReply

-- `memcpy(dst, src, n)`
unfoldable pub copy_bytes : ℕ → List ℕ → List ℕ → List ℕ
copy_bytes zero src dst = dst
copy_bytes (suc n) [] dst = dst
copy_bytes (suc n) (x ∷ src) [] = []
copy_bytes (suc n) (x ∷ src) (y ∷ dst) = x ∷ copy_bytes n src dst

abbrev pub empty_message : Message
empty_message = record { sender_pid = 0; length = 0; payload = replicate max_msg_data 0 }

unfoldable pub new_port : ℕ → Port
new_port id = record {
  id = id;
  messages = replicate port_queue_capacity empty_message;
  head = 0;
  tail = 0;
  count = 0;
  blocked_recievers = [];
  blocked_senders = [];
}

-- The front of a wait list, unlinked, and what stays.
unfoldable pub pop_waiter : List ℕ → Option ℕ × List ℕ
pop_waiter [] = (none, [])
pop_waiter (t ∷ ts) = (some t, ts)

abbrev pub fill : Message → ℕ → List ℕ → ℕ → Message
fill m pid bytes len = record m {
  sender_pid = pid;
  length = len;
  payload = copy_bytes len bytes m.payload;
}

-- What `send` does under the lock once there is room.
unfoldable pub enqueue : Port → ℕ → List ℕ → ℕ → Port
enqueue p pid bytes len = record p {
  messages = set p.messages p.tail (fill (get_or p.messages p.tail empty_message) pid bytes len);
  tail = (p.tail + 1) % port_queue_capacity;
  count = p.count + 1;
  blocked_recievers = (pop_waiter p.blocked_recievers).1;
}

unfoldable pub send : Port → ℕ → ℕ → List ℕ → ℕ → SendReply × Port
send p sender pid bytes len =
    if ltb max_msg_data len
    then (rejected, p)
    else if leb port_queue_capacity p.count
    then (send_blocked, record p { blocked_senders = p.blocked_senders ++ sender ∷ [] })
    else (sent (pop_waiter p.blocked_recievers).0, enqueue p pid bytes len)

-- `copy_len`
abbrev pub copy_len : Message → ℕ → ℕ
copy_len m max_len = if ltb m.length max_len then m.length else max_len

unfoldable pub dequeue : Port → Port
dequeue p = record p {
  head = (p.head + 1) % port_queue_capacity;
  count = p.count - 1;
  blocked_senders = (pop_waiter p.blocked_senders).1;
}

-- From the test of the loop on: the receiver queues up and blocks, or takes the oldest message.
unfoldable pub attempt : Port → ℕ → ℕ → ReceiveReply × Port
attempt p receiver max_len =
    let msg = get_or p.messages p.head empty_message in
    if p.count == 0
    then (receive_blocked, record p { blocked_recievers = p.blocked_recievers ++ receiver ∷ [] })
    else (
      received (take (copy_len msg max_len) msg.payload) (pop_waiter p.blocked_senders).0,
      dequeue p,
    )

-- A receiver after `Scheduler::block` has returned: `valid` is what `is_valid_port` says of the
-- port's id, and `return 0` copies nothing and wakes nobody.
unfoldable pub receive_resumed : Bool → Port → ℕ → ℕ → ReceiveReply × Port
receive_resumed valid p receiver max_len =
    if valid then (received [] none, p) else attempt p receiver max_len

-- The stretches of `receive`: from its start, for `none`, and from a return of `Scheduler::block` on, with
-- what `is_valid_port` then says.
unfoldable pub receive : Option Bool → Port → ℕ → ℕ → ReceiveReply × Port
receive none p receiver max_len = attempt p receiver max_len
receive (some valid) p receiver max_len = receive_resumed valid p receiver max_len

-- `close`: the threads that it wakes, in order, and the port that it leaves.
unfoldable pub close : Port → List ℕ × Port
close p = (
  p.blocked_recievers ++ p.blocked_senders,
  record p { head = 0; tail = 0; count = 0; blocked_recievers = []; blocked_senders = [] },
)

-- The stretches of the threads' calls, in the order in which they run. A blocked `send` that is woken
-- tests for room once more, as at its start.
pub data PortCall : Type 0 where
  sends : ℕ → ℕ → List ℕ → PortCall
  receives : Option Bool → ℕ → ℕ → PortCall

pub data PortReply : Type 0 where
  send_reply : SendReply → PortReply
  receive_reply : ReceiveReply → PortReply

-- `sends` takes `len` to be the number of bytes that it is given.
unfoldable pub step : Port → PortCall → PortReply × Port
step p (sends sender pid bytes) =
    let (r, p') = send p sender pid bytes (length bytes) in (send_reply r, p')
step p (receives woken receiver max_len) =
    let (r, p') = receive woken p receiver max_len in (receive_reply r, p')

unfoldable pub run : Port → List PortCall → List PortReply
run p [] = []
run p (c ∷ cs) = let (r, p') = step p c in r ∷ run p' cs
