-- ===== src/Locks/Spin/Safety.antt =====
-- What the lock of kernel/include/libs/spinlock.hpp promises.
use noise_v.Base.{
  ℕ, ◌+◌, ◌%◌, length, ◌^◌, ◌<◌, ◌≡◌, ◌≢◌, refl, ◌⊎◌, true, some, List, [], ◌∷◌, arith, get_elem?,
}
use noise_v.Locks.Spin.{spinning, System, Step, Reach, has_lock}
use noise_v.Locks.Spin.Fifo.{ticket, Inv, Fifo, Reach-Inv, Step-Inv, owner-front, owner-locked}

-- The processors that have a ticket, in the order of their tickets: the one at place `k` has the ticket
-- `k` after the one that is served, so the queue is determined by the tickets.
pub record IsFifo (s : System) (q : List ℕ) : Type 0 where
  pub places :
      (k i : ℕ)
      → get_elem? q k ≡ some i
      → ticket s.lock (s.pc i) ≡ some ((s.lock.serving_ticket + k) % 2 ^ 64)
  pub waits : (i t : ℕ) → ticket s.lock (s.pc i) ≡ some t → (k : ℕ) × (get_elem? q k ≡ some i)
  pub few : length q < 2 ^ 64
  pub front : (i : ℕ) → has_lock (s.pc i) ≡ true → (rest : List ℕ) × (q ≡ i ∷ rest)
  pub locked : (i : ℕ) → has_lock (s.pc i) ≡ true → s.lock.serving_ticket ≢ s.lock.next_ticket

Inv-IsFifo : {n : ℕ} {s : System} {q : List ℕ} → Inv n s.lock s.pc q → IsFifo s q
Inv-IsFifo inv = record {
  places = inv.line.queue.holds;
  waits = inv.line.queue.queued;
  few = inv.line.queue.few;
  front = owner-front inv;
  locked = owner-locked inv;
}

-- In every state that fewer than 2^64 processors reach, those that have taken a ticket and not handed
-- off, ordered by their tickets from the served one on, form a queue; whoever has the lock is its
-- front, and the lock then reads as locked. Each further step of a processor leaves this queue as it
-- is, joins one processor to its end or takes its front off, so the lock is granted in the order of the
-- tickets, also when the tickets wrap.
pub reachable-IsFifo :
    {n : ℕ} {s : System}
    → n < 2 ^ 64
    → Reach n s
    → (q : List ℕ) × IsFifo s q
      × ((t : System) → Step n s t → (i : ℕ) × (q' : List ℕ) × Fifo i q q' × IsFifo t q')
reachable-IsFifo few r =
    let (q, inv) = Reach-Inv few r in
    (
      q,
      Inv-IsFifo inv,
      λ t st. let (i, q', f, inv') = Step-Inv inv st in (i, q', f, Inv-IsFifo inv'),
    )

-- Of fewer than 2^64 processors, two never have the lock together.
pub mutual_exclusion :
    {n : ℕ} {s : System}
    → n < 2 ^ 64
    → Reach n s
    → (i j : ℕ) → has_lock (s.pc i) ≡ true
    → has_lock (s.pc j) ≡ true
    → i ≡ j
mutual_exclusion few r i j e f =
    let (q, inv) = Reach-Inv few r in
    let (xs, g) = owner-front inv i e in let (ys, h) = owner-front inv j f in ground (arith, g, h)

-- No deadlock: while some processor of fewer than 2^64 spins, another has the lock or one spins on
-- the ticket that is being served, which passes its test at the next load.
pub no_deadlock :
    {n : ℕ} {s : System} {mine : ℕ}
    → n < 2 ^ 64
    → Reach n s
    → (i : ℕ) → s.pc i ≡ spinning mine
    → (j : ℕ) × ((has_lock (s.pc j) ≡ true) ⊎ (s.pc j ≡ spinning s.lock.serving_ticket))
no_deadlock {n} {s} {mine} few r i e =
    let (q, inv) = Reach-Inv few r in
    let (k, f) = inv.line.queue.queued i mine (ground arith) in
    let (j, g) = front_of q k i f in
    (j, ground (arith, inv.line.queue.holds 0 j g, inv.line.queue.serving_small))
  where
    front_of : (q : List ℕ) (k i : ℕ) → get_elem? q k ≡ some i → (j : ℕ) × (get_elem? q 0 ≡ some j)
    front_of [] k i e = ground arith
    front_of (x ∷ q) k i e = (x, refl)
