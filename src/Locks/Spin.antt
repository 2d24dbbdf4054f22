-- ===== src/Locks/Spin.antt =====
-- `BaseLock<SpinlockSpin>` of kernel/include/libs/spinlock.hpp, used by `n` processors in any order. A
-- step is one load or store of one processor. Only the one that has the lock calls `unlock`.
pub mod Fifo
pub mod Safety
mod Tests
use noise_v.Base.{ℕ, ◌<◌, ◌≡◌, ◌≢◌, Bool, true, false}
use noise_v.Locks.{SpinLock, new_lock, take_ticket, hand_off}
use noise_v.Locks.Queue.{update}

-- Where a processor stands. `curr` is what `is_locked` or `unlock` has loaded of `serving_ticket`.
pub data Pc : Type 0 where
  idle : Pc
  trying : (curr : ℕ) → Pc  -- `try_lock`, inside `is_locked`
  entering : Pc  -- start of `lock`
  spinning : (mine : ℕ) → Pc  -- the `while` of `lock`
  critical : Pc
  leaving : (curr : ℕ) → Pc  -- `unlock`, inside `is_locked`
  handing : Pc  -- `unlock`, before the load
  storing : (curr : ℕ) → Pc  -- `unlock`, before the store

pub data Move (l : SpinLock) : Pc → SpinLock → Pc → Type 0 where
  call_lock : Move l idle l entering
  call_try : Move l idle l (trying l.serving_ticket)
  try_busy : {curr : ℕ} → curr ≢ l.next_ticket → Move l (trying curr) l idle
  try_open : {curr : ℕ} → curr ≡ l.next_ticket → Move l (trying curr) l entering
  take : Move l entering (take_ticket l) (spinning l.next_ticket)
  pause : {mine : ℕ} → l.serving_ticket ≢ mine → Move l (spinning mine) l (spinning mine)
  enter : {mine : ℕ} → l.serving_ticket ≡ mine → Move l (spinning mine) l critical
  call_unlock : Move l critical l (leaving l.serving_ticket)
  not_locked : {curr : ℕ} → curr ≡ l.next_ticket → Move l (leaving curr) l idle
  locked : {curr : ℕ} → curr ≢ l.next_ticket → Move l (leaving curr) l handing
  load : Move l handing l (storing l.serving_ticket)
  store : {curr : ℕ} → Move l (storing curr) (hand_off l curr) idle

pub record System : Type 0 where
  pub lock : SpinLock
  pub pc : ℕ → Pc

pub data Step (n : ℕ) (s : System) : System → Type 0 where
  of :
      (i : ℕ) {l : SpinLock} {p : Pc}
      → i < n
      → Move s.lock (s.pc i) l p
      → Step n s (record { lock = l; pc = update s.pc i p })

abbrev pub init : System
init = record { lock = new_lock; pc = λ _. Pc.idle }

pub data Reach (n : ℕ) : System → Type 0 where
  start : Reach n init
  later : {s t : System} → Reach n s → Step n s t → Reach n t

-- Between the return of `lock` and the store of `unlock`.
abbrev pub has_lock : Pc → Bool
has_lock critical = true
has_lock (leaving curr) = true
has_lock handing = true
has_lock (storing curr) = true
has_lock _ = false
