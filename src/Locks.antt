-- ===== src/Locks.antt =====
-- kernel/include/libs/spinlock.hpp: the ticket lock `SpinLock`, by its loads and stores. The lock that
-- remembers interrupts, the readers-writer lock and the guards stand in the modules below.
pub mod Queue
pub mod Count
pub mod Spin
pub mod Irq
pub mod Rw
pub mod Guard
mod Tests
use noise_v.Base.{ℕ, ◌+◌, ◌%◌, ◌^◌, Bool, true, false, not, ◌==◌, if◌then◌else◌}

-- size_t
abbrev pub u64 : ℕ → ℕ
u64 n = n % 2 ^ 64

pub record SpinLock : Type 0 where
  pub next_ticket : ℕ
  pub serving_ticket : ℕ

abbrev pub new_lock : SpinLock
new_lock = record { next_ticket = 0; serving_ticket = 0 }

-- `next_ticket.fetch_add(1)`, whose result is the old value.
unfoldable pub take_ticket : SpinLock → SpinLock
take_ticket l = record l { next_ticket = u64 (l.next_ticket + 1) }

-- `serving_ticket.store(curr + 1)`
unfoldable pub hand_off : SpinLock → ℕ → SpinLock
hand_off l curr = record l { serving_ticket = u64 (curr + 1) }
