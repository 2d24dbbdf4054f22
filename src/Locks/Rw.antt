-- ===== src/Locks/Rw.antt =====
-- `BaseLock<RwLock>` of kernel/include/libs/spinlock.hpp, used by `n` processors in any order, a load,
-- store or read-modify-write of one processor at a time. Only who has the lock releases it.
pub mod Invariant
pub mod Moves
pub mod Safety
mod Tests
use noise_v.Base.{ℕ, ◌+◌, ◌-◌, ◌^◌, ◌<◌, ◌≡◌, ◌≢◌, Bool, true, false}
use noise_v.Locks.{SpinLock, new_lock, u64, take_ticket, hand_off}
use noise_v.Locks.Queue.{update}

pub record RwLock : Type 0 where
  pub writer_lock : SpinLock
  pub readers : ℕ

-- `curr` is what `is_locked` or `unlock` of the writers' lock has loaded of `serving_ticket`.
pub data Pc : Type 0 where
  idle : Pc
  first_check : (curr : ℕ) → Pc  -- `try_acquire_read`, inside the first `is_locked`
  adding : Pc  -- before `readers.fetch_add`
  added : Pc  -- before the second `is_locked`
  second_check : (curr : ℕ) → Pc
  undoing : Pc  -- before the `fetch_sub` of a failure
  reading : Pc
  trying : (curr : ℕ) → Pc  -- `try_acquire_write`, inside `is_locked` of `try_lock`
  entering : (waits : Bool) → Pc  -- start of `lock`, of `acquire_write` when `waits`
  spinning : (waits : Bool) (mine : ℕ) → Pc  -- the `while` of `lock`
  draining : Pc  -- the `while` of `acquire_write`
  testing : Pc  -- `try_acquire_write`, before the load of `readers`
  failing : Pc  -- before its `unlock`
  writing : Pc
  leaving : (curr : ℕ) → Pc  -- `unlock`, inside `is_locked`
  handing : Pc  -- `unlock`, before the load
  storing : (curr : ℕ) → Pc  -- `unlock`, before the store

abbrev with_lock : RwLock → SpinLock → RwLock
with_lock m l = record m { writer_lock = l }

abbrev one_more : RwLock → RwLock
one_more m = record m { readers = u64 (m.readers + 1) }

-- `readers.fetch_sub(1)`
abbrev one_less : RwLock → RwLock
one_less m = record m { readers = u64 (m.readers + (2 ^ 64 - 1)) }

module _ (m : RwLock) where
  abbrev serving : ℕ
  serving = m.writer_lock.serving_ticket

  abbrev next : ℕ
  next = m.writer_lock.next_ticket

  pub data Move : Pc → RwLock → Pc → Type 0 where
    call_read : Move idle m (first_check serving)
    refused : {curr : ℕ} → curr ≢ next → Move (first_check curr) m idle
    allowed : {curr : ℕ} → curr ≡ next → Move (first_check curr) m adding
    add : Move adding (one_more m) added
    reload : Move added m (second_check serving)
    read_in : {curr : ℕ} → curr ≡ next → Move (second_check curr) m reading
    too_late : {curr : ℕ} → curr ≢ next → Move (second_check curr) m undoing
    undo : Move undoing (one_less m) idle
    release_read : Move reading (one_less m) idle
    call_write : Move idle m (entering true)
    call_try : Move idle m (trying serving)
    try_busy : {curr : ℕ} → curr ≢ next → Move (trying curr) m idle
    try_open : {curr : ℕ} → curr ≡ next → Move (trying curr) m (entering false)
    take :
        {waits : Bool}
        → Move (entering waits) (with_lock m (take_ticket m.writer_lock)) (spinning waits next)
    pause :
        {waits : Bool} {mine : ℕ}
        → serving ≢ mine
        → Move (spinning waits mine) m (spinning waits mine)
    enter : {mine : ℕ} → serving ≡ mine → Move (spinning true mine) m draining
    enter_try : {mine : ℕ} → serving ≡ mine → Move (spinning false mine) m testing
    drain : m.readers ≢ 0 → Move draining m draining
    write_in : m.readers ≡ 0 → Move draining m writing
    test_busy : m.readers ≢ 0 → Move testing m failing
    test_in : m.readers ≡ 0 → Move testing m writing
    give_up : Move failing m (leaving serving)
    release_write : Move writing m (leaving serving)
    not_locked : {curr : ℕ} → curr ≡ next → Move (leaving curr) m idle
    locked : {curr : ℕ} → curr ≢ next → Move (leaving curr) m handing
    load : Move handing m (storing serving)
    store : {curr : ℕ} → Move (storing curr) (with_lock m (hand_off m.writer_lock curr)) idle

pub record System : Type 0 where
  pub lock : RwLock
  pub pc : ℕ → Pc

pub data Step (n : ℕ) (s : System) : System → Type 0 where
  of :
      (i : ℕ) {m : RwLock} {p : Pc}
      → i < n
      → Move s.lock (s.pc i) m p
      → Step n s (record { lock = m; pc = update s.pc i p })

abbrev pub init : System
init = record { lock = record { writer_lock = new_lock; readers = 0 }; pc = λ _. Pc.idle }

-- In that many steps.
pub data Reach (n : ℕ) : ℕ → System → Type 0 where
  start : Reach n 0 init
  later : {k : ℕ} {s t : System} → Reach n k s → Step n s t → Reach n (k + 1) t
