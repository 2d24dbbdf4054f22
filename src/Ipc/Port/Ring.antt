-- ===== src/Ipc/Port/Ring.antt =====
-- The ring of kernel/src/task/ipc.cpp holds a queue: its invariant, and the queue that it stands for.
use native.Mathlib.Numerals.{add-one}
use noise_v.Base.{
  ℕ, zero, suc, ◌+◌, ◌-◌, ◌%◌, ◌≤◌, ◌<◌, ◌≡◌, ◌≢◌, refl, ap, ap₂, ◌∙◌, Bool, true, false, Option,
  none, some, List, [], ◌∷◌, ◌++◌, arith, ltb, if◌then◌else◌, length, get_or, set, take, length-set,
  get_or-set, get_or-replicate_self,
}
use noise_v.Ipc.Port.{
  Message, Port, port_queue_capacity, max_msg_data, copy_bytes, empty_message, fill, new_port,
  enqueue, dequeue, send, attempt, receive, receive_resumed, close, PortCall, sends, receives, step,
  run, pop_waiter,
}
use noise_v.Ipc.Port.Channel
use noise_v.Ipc.Port.Channel.{Letter, Channel}

pub record IsValid (p : Port) : Type 0 where
  pub slots : length p.messages ≡ port_queue_capacity
  pub head_in : p.head < port_queue_capacity
  pub count_in : p.count ≤ port_queue_capacity
  pub tail_at : p.tail ≡ (p.head + p.count) % port_queue_capacity
  pub payloads : (i : ℕ) → length (get_or p.messages i empty_message).payload ≡ max_msg_data

-- The bytes of a message that `receive` may copy.
abbrev pub letter : Message → Letter
letter m = (m.sender_pid, take m.length m.payload)

-- The `n` letters from slot `h` on, round the ring.
abbrev pub letters : List Message → ℕ → ℕ → List Letter
letters ms h zero = []
letters ms h (suc n) =
    letter (get_or ms h empty_message) ∷ letters ms ((h + 1) % port_queue_capacity) n

abbrev pub view : Port → Channel
view p = record {
  queue = letters p.messages p.head p.count;
  recievers = p.blocked_recievers;
  senders = p.blocked_senders;
}

pub length-letters : (ms : List Message) (h n : ℕ) → length (letters ms h n) ≡ n
length-letters ms h zero = refl
length-letters ms h (suc n) = ap suc (length-letters ms ((h + 1) % 32) n)

length-copy_bytes : (n : ℕ) (src dst : List ℕ) → length (copy_bytes n src dst) ≡ length dst
unfolding copy_bytes
length-copy_bytes zero src dst = refl
length-copy_bytes (suc n) [] dst = refl
length-copy_bytes (suc n) (x ∷ src) [] = refl
length-copy_bytes (suc n) (x ∷ src) (y ∷ dst) = ap suc (length-copy_bytes n src dst)

-- Reading back what `memcpy` wrote.
take-copy_bytes :
    (src dst : List ℕ)
    → length src ≤ length dst
    → take (length src) (copy_bytes (length src) src dst) ≡ src
unfolding copy_bytes
take-copy_bytes [] dst h = refl
take-copy_bytes (x ∷ src) [] h = absurd (omega arith)
take-copy_bytes (x ∷ src) (y ∷ dst) h = ap (◌∷◌ x) (take-copy_bytes src dst (omega arith))

pub new_port-id : (i : ℕ) → (new_port i).id ≡ i
unfolding new_port
new_port-id i = refl

pub new_port-IsValid : (id : ℕ) → IsValid (new_port id)
unfolding new_port
new_port-IsValid id = record {
  slots = refl;
  head_in = omega arith;
  count_in = omega arith;
  tail_at = refl;
  payloads = λ i. ap (λ (m : Message). length m.payload) (get_or-replicate_self 32 i empty_message);
}

-- Sending keeps the ring valid.
enqueue-IsValid :
    (p : Port) (pid : ℕ) (bytes : List ℕ) (len : ℕ)
    → IsValid p
    → p.count < port_queue_capacity
    → IsValid (enqueue p pid bytes len)
unfolding enqueue
enqueue-IsValid p pid bytes len v h = record {
  slots = length-set p.messages p.tail _ ∙ v.slots;
  head_in = v.head_in;
  count_in = omega arith;
  tail_at = omega arith;
  payloads = λ i. ground (
    arith,
    v.payloads i,
    v.payloads p.tail,
    get_or-set p.messages p.tail i (fill (get_or p.messages p.tail empty_message) pid bytes len)
        empty_message,
    length-copy_bytes len bytes (get_or p.messages p.tail empty_message).payload,
  );
}

dequeue-IsValid : (p : Port) → IsValid p → p.count ≢ 0 → IsValid (dequeue p)
unfolding dequeue
dequeue-IsValid p v h = record {
  slots = v.slots;
  head_in = omega arith;
  count_in = omega arith;
  tail_at = omega arith;
  payloads = v.payloads;
}

-- A write just past the queue appends to it.
letters-set :
    (ms : List Message) (m : Message) (n h i : ℕ)
    → length ms ≡ 32
    → h < 32
    → n < 32
    → i ≡ (h + n) % 32
    → letters (set ms i m) h (suc n) ≡ letters ms h n ++ letter m ∷ []
letters-set ms m zero h i s p q e =
    let read : get_or (set ms i m) h empty_message ≡ m =
      ground (arith, get_or-set ms i h m empty_message) in
    ap (λ (t : Message). letter t ∷ []) read
letters-set ms m (suc n) h i s p q e =
    let kept : get_or (set ms i m) h empty_message ≡ get_or ms h empty_message =
      ground (arith, get_or-set ms i h m empty_message) in
    ap₂ ◌∷◌ (ap letter kept)
      (letters-set ms m n ((h + 1) % 32) i s (omega arith) (omega arith) (omega arith))

-- The first letter, in the form in which `receive` tests for it.
letters_of_ne_zero :
    (ms : List Message) (h n : ℕ)
    → n ≢ 0
    → letters ms h n
      ≡ letter (get_or ms h empty_message) ∷ letters ms ((h + 1) % port_queue_capacity) (n - 1)
letters_of_ne_zero ms h zero p = absurd (p refl)
letters_of_ne_zero ms h (suc n) p = ap (λ k. letters ms h (suc k)) (omega arith)

take-take : (n m : ℕ) (xs : List ℕ) → take n (take m xs) ≡ take (if ltb m n then m else n) xs
take-take zero m xs = ground arith
take-take (suc n) zero xs = ground arith
take-take (suc n) (suc m) [] = ground arith
take-take (suc n) (suc m) (x ∷ xs) = ground (arith, take-take n m xs)

-- `enqueue` appends one letter.
letters-enqueue :
    (p : Port) (pid : ℕ) (bytes : List ℕ)
    → IsValid p
    → p.count < port_queue_capacity
    → length bytes ≤ max_msg_data
    → view (enqueue p pid bytes (length bytes)) ≡ record (view p) {
      queue = (view p).queue ++ (pid, bytes) ∷ [];
      recievers = (pop_waiter p.blocked_recievers).1;
    }
unfolding enqueue
letters-enqueue p pid bytes v h fits =
    let old = get_or p.messages p.tail empty_message in
    let m = fill old pid bytes (length bytes) in
    let stored : letter m ≡ (pid, bytes) =
      ap (λ (t : List ℕ). (pid, t))
        (take-copy_bytes bytes old.payload (omega (arith, v.payloads p.tail))) in
    let queue : letters (set p.messages p.tail m) p.head (p.count + 1)
        ≡ letters p.messages p.head p.count ++ (pid, bytes) ∷ [] =
      rw add-one (
        letters-set p.messages m p.count p.head p.tail v.slots v.head_in h v.tail_at
        ∙ ap (λ (t : Letter). letters p.messages p.head p.count ++ t ∷ []) stored) in
    λ i. record {
      queue = queue i;
      recievers = (pop_waiter p.blocked_recievers).1;
      senders = p.blocked_senders;
    }

send_refines :
    (p : Port) (sender pid : ℕ) (bytes : List ℕ)
    → IsValid p
    → (let (r, p') = send p sender pid bytes (length bytes) in (r, view p'))
      ≡ Channel.send (view p) sender pid bytes
unfolding send Channel.send
send_refines p sender pid bytes v =
    ground (arith, length-letters p.messages p.head p.count, letters-enqueue p pid bytes v)

attempt_refines :
    (p : Port) (receiver max_len : ℕ)
    → IsValid p
    → (let (r, p') = attempt p receiver max_len in (r, view p'))
      ≡ Channel.receive (view p) none receiver max_len
unfolding attempt dequeue Channel.receive
attempt_refines p receiver max_len v =
    let m = get_or p.messages p.head empty_message in
    ground
      (arith, letters_of_ne_zero p.messages p.head p.count, take-take max_len m.length m.payload)

receive_refines :
    (p : Port) (woken : Option Bool) (receiver max_len : ℕ)
    → IsValid p
    → (let (r, p') = receive woken p receiver max_len in (r, view p'))
      ≡ Channel.receive (view p) woken receiver max_len
unfolding receive receive_resumed Channel.receive
receive_refines p none receiver max_len v = attempt_refines p receiver max_len v
receive_refines p (some true) receiver max_len v = refl
receive_refines p (some false) receiver max_len v = attempt_refines p receiver max_len v

attempt-IsValid :
    (p : Port) (receiver max_len : ℕ) → IsValid p → IsValid (attempt p receiver max_len).1
unfolding attempt
attempt-IsValid p receiver max_len v = ground (arith, dequeue-IsValid p v)

receive-IsValid :
    (p : Port) (woken : Option Bool) (receiver max_len : ℕ)
    → IsValid p
    → IsValid (receive woken p receiver max_len).1
unfolding receive receive_resumed
receive-IsValid p none receiver max_len v = attempt-IsValid p receiver max_len v
receive-IsValid p (some true) receiver max_len v = v
receive-IsValid p (some false) receiver max_len v = attempt-IsValid p receiver max_len v

-- A call on a valid port replies as the bounded queue does, leaves the port that stands for the
-- queue's new state, and leaves it valid.
pub step_refines :
    (p : Port) (c : PortCall)
    → IsValid p
    → (let (r, p') = step p c in (r, view p')) ≡ Channel.step (view p) c
unfolding step Channel.step
step_refines p (sends sender pid bytes) v = rw (← send_refines p sender pid bytes v)
step_refines p (receives woken receiver max_len) v =
    rw (← receive_refines p woken receiver max_len v)

-- A call keeps a valid port valid.
pub step-IsValid : (p : Port) (c : PortCall) → IsValid p → IsValid (step p c).1
unfolding step send
step-IsValid p (sends sender pid bytes) v =
    ground (arith, enqueue-IsValid p pid bytes (length bytes) v)
step-IsValid p (receives woken receiver max_len) v = receive-IsValid p woken receiver max_len v

-- No sequence of stretches of `send` and `receive`, those of woken threads included, tells a valid port
-- from the bounded queue that it stands for, in which a receiver that has waited on a valid handle
-- gives up with nothing and leaves the letters.
pub run_refines : (cs : List PortCall) (p : Port) → IsValid p → run p cs ≡ Channel.run (view p) cs
unfolding run Channel.run
run_refines [] p v = refl
run_refines (c ∷ cs) p v =
    rw (run_refines cs (step p c).1 (step-IsValid p c v), ← step_refines p c v)

-- `close` wakes every waiting thread, the receivers first, and leaves a valid port that stands for
-- an empty queue with nobody waiting.
pub close_lem :
    (p : Port)
    → IsValid p
    → IsValid (close p).1
      × ((close p).0 ≡ (view p).recievers ++ (view p).senders)
      × (view (close p).1 ≡ record { queue = []; recievers = []; senders = [] })
unfolding close
close_lem p v = (
  record {
    slots = v.slots;
    head_in = omega arith;
    count_in = omega arith;
    tail_at = refl;
    payloads = v.payloads;
  },
  refl,
  refl,
)
