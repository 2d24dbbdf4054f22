-- ===== src/Locks/Irq.antt =====
-- `BaseLock<Irq>` and `BaseLock<SpinlockIrq>` of kernel/include/libs/spinlock.hpp: the locks that turn
-- the interrupts of their processor off. `flags` tells which processors have them on.
use noise_v.Base.{ℕ, ◌^◌, ◌<◌, ◌≡◌, ◌≢◌, refl, Bool, true, false, arith, ◌==◌, if◌then◌else◌}
use noise_v.Locks.{SpinLock, take_ticket, hand_off}
use noise_v.Locks.Queue.{update}

pub record Irq : Type 0 where
  pub interrupts : Bool

pub record IrqLock : Type 0 where
  pub internal_lock : SpinLock
  pub irq_lock : Irq

-- The lock and the interrupt flags of all processors.
pub record Cores : Type 0 where
  pub lock : IrqLock
  pub flags : ℕ → Bool

abbrev with_interrupts : IrqLock → Bool → IrqLock
with_interrupts l b = record l { irq_lock = record { interrupts = b } }

-- `irq_lock.lock()` on processor `cpu`.
unfoldable pub irq_enter : Cores → ℕ → Cores
irq_enter s cpu = record {
  lock = with_interrupts s.lock (s.flags cpu);
  flags = if s.flags cpu then update s.flags cpu false else s.flags;
}

-- `irq_lock.unlock()`
unfoldable pub irq_leave : Cores → ℕ → Cores
irq_leave s cpu = record s {
  flags = if s.lock.irq_lock.interrupts then update s.flags cpu true else s.flags;
}

abbrev pub is_locked : SpinLock → Bool
is_locked l = if l.serving_ticket == l.next_ticket then false else true

-- `lock` up to the spinning: the interrupts are off and the ticket is taken.
unfoldable pub begin_lock : Cores → ℕ → Cores
begin_lock s cpu =
    let s1 = irq_enter s cpu in
    record s1 { lock = record s1.lock { internal_lock = take_ticket s1.lock.internal_lock } }

unfoldable pub unlock : Cores → ℕ → Bool × Cores
unlock s cpu =
    let l = s.lock.internal_lock in
    let s1 = record s { lock = record s.lock { internal_lock = hand_off l l.serving_ticket } } in
    if is_locked l then (true, irq_leave s1 cpu) else (false, s)

-- `try_lock`, up to the spinning that its `lock` may have to do.
unfoldable pub try_lock : Cores → ℕ → Bool × Cores
try_lock s cpu = if is_locked s.lock.internal_lock then (false, s) else (true, begin_lock s cpu)

-- On an open lock, `try_lock` and then `unlock` of the same processor, with no call of another
-- between, both succeed, and leave the lock open and the interrupts of every processor as they were.
pub unlock-try_lock :
    (s : Cores) (cpu : ℕ)
    → s.lock.internal_lock.serving_ticket ≡ s.lock.internal_lock.next_ticket
    → s.lock.internal_lock.next_ticket < 2 ^ 64
    → let (taken, s1) = try_lock s cpu in
      let (released, s2) = unlock s1 cpu in
      (taken ≡ true)
      × (released ≡ true)
      × (is_locked s2.lock.internal_lock ≡ false)
      × ((c : ℕ) → s2.flags c ≡ s.flags c)
unfolding try_lock unlock begin_lock irq_enter irq_leave take_ticket hand_off
unlock-try_lock s cpu e lt =
    let open_lock : is_locked s.lock.internal_lock ≡ false = ground (arith, e) in
    let taken : is_locked (take_ticket s.lock.internal_lock) ≡ true = ground (arith, e, lt) in
    rw (open_lock, taken) (refl, refl, ground (arith, e, lt), λ c. ground arith)

-- The flag that `unlock` gives back is the one of the last processor that called `lock`, not its own:
-- when processor `b` calls `lock` while `a` has the lock, `a` goes on, after its `unlock`, with the
-- interrupts on or off as they were on `b`.
pub unlock_takes_waiters_flag :
    (s : Cores) (a b : ℕ)
    → a ≢ b
    → s.lock.internal_lock.serving_ticket ≡ s.lock.internal_lock.next_ticket
    → s.lock.internal_lock.next_ticket < 2 ^ 64
    → let (released, s') = unlock (begin_lock (begin_lock s a) b) a in
      (released ≡ true) × (s'.flags a ≡ s.flags b)
unfolding unlock begin_lock irq_enter irq_leave take_ticket hand_off
unlock_takes_waiters_flag s a b ne e lt = ground (arith, e, lt)
