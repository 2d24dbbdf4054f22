-- ===== src/Mutex.antt =====
-- kernel/src/libs/mutex.cpp and kernel/include/libs/mutex.hpp: the mutex that puts its waiters to sleep,
-- used by threads in any order. A step is one load, store or compare-exchange of one thread, or one
-- stretch of code under `queue_lock`. The scheduler and the timer are open: a thread that was woken
-- before it sleeps may find itself awake or not, and a thread with a limit may be woken by it.
pub mod Queue
pub mod Exclusion
mod Tests
use noise_v.Base.{
  ℕ, ◌+◌, ◌<◌, ◌≤◌, ◌≡◌, ◌≢◌, Bool, true, false, List, [], ◌∷◌, ◌++◌, ◌==◌, if◌then◌else◌,
}
use noise_v.Locks.Queue.{update}

abbrev pub spin_limit : ℕ
spin_limit = 100

-- The `ms` of `lock`.
pub data Limit : Type 0 where
  at_once : Limit  -- 0
  within : Limit
  forever : Limit  -- `static_cast<size_t>(-1)`

pub record Mutex : Type 0 where
  pub state : ℕ
  pub waiters : List ℕ

-- `add_waiter`
unfoldable pub add_waiter : Mutex → ℕ → Mutex
add_waiter m t = record m { waiters = m.waiters ++ t ∷ [] }

unfoldable pub remove_first : ℕ → List ℕ → List ℕ
remove_first t [] = []
remove_first t (x ∷ xs) = let rest = remove_first t xs in if x == t then xs else x ∷ rest

unfoldable pub remove_waiter : Mutex → ℕ → Mutex
remove_waiter m t = record m { waiters = remove_first t m.waiters }

abbrev pub with_state : Mutex → ℕ → Mutex
with_state m v = record m { state = v }

pub data Pc : Type 0 where
  idle : Pc
  slow : (ms : Limit) (spins : ℕ) → Pc  -- the top of the loop of `lock_slow`
  loaded : (ms : Limit) (spins v : ℕ) → Pc
  checking : (ms : Limit) → Pc  -- before the test of `ms`
  blocking : (ms : Limit) (timed_out : Bool) → Pc  -- from `add_waiter` to the switch in `block`
  called : (ms : Limit) (timed_out : Bool) → Pc  -- the same, and woken already
  asleep : (ms : Limit) (timed_out : Bool) → Pc
  awake : (ms : Limit) (timed_out : Bool) → Pc  -- before `remove_waiter`
  owner : Pc
  storing : Pc  -- `unlock`, before `state.store(0)`
  waking : Pc  -- `unlock`, before `wakeup_next`

pub record System : Type 0 where
  pub mutex : Mutex
  pub pc : ℕ → Pc

-- What `unblock` does to the head of the queue. A thread that runs is put into a ready queue and so
-- keeps the call; one that waits to run does not.
pub data Wake : Pc → Pc → Type 0 where
  from_sleep : {ms : Limit} {timed_out : Bool} → Wake (asleep ms timed_out) (awake ms timed_out)
  kept : {ms : Limit} {timed_out : Bool} → Wake (blocking ms timed_out) (called ms timed_out)
  lost : {ms : Limit} {timed_out : Bool} → Wake (blocking ms timed_out) (blocking ms timed_out)
  again : {ms : Limit} {timed_out : Bool} → Wake (called ms timed_out) (called ms timed_out)
  up : {ms : Limit} {timed_out : Bool} → Wake (awake ms timed_out) (awake ms timed_out)

-- What `timeout_callback` does to its thread: `timed_out` is set before `unblock`.
pub data Timer : Pc → Pc → Type 0 where
  in_sleep : Timer (asleep within false) (awake within true)
  early_kept : Timer (blocking within false) (called within true)
  early_lost : Timer (blocking within false) (blocking within true)
  when_called : Timer (called within false) (called within true)
  when_awake : Timer (awake within false) (awake within true)

-- A step of thread `i` alone.
pub data Move (m : Mutex) (i : ℕ) : Pc → Mutex → Pc → Type 0 where
  take_free : m.state ≡ 0 → Move m i idle (with_state m 1) owner
  contend : (ms : Limit) → m.state ≢ 0 → Move m i idle m (slow ms 0)
  load : {ms : Limit} {spins : ℕ} → Move m i (slow ms spins) m (loaded ms spins m.state)
  spin :
      {ms : Limit} {spins : ℕ}
      → spins < spin_limit
      → Move m i (loaded ms spins 1) m (slow ms (spins + 1))
  exchange :
      {ms : Limit} {spins : ℕ} → m.state ≡ 0 → Move m i (loaded ms spins 0) (with_state m 1) owner
  exchange_failed : {ms : Limit} {spins : ℕ} → Move m i (loaded ms spins 0) m (slow ms spins)
  mark :
      {ms : Limit} {spins : ℕ}
      → spin_limit ≤ spins
      → m.state ≡ 1
      → Move m i (loaded ms spins 1) (with_state m 2) (checking ms)
  mark_failed :
      {ms : Limit} {spins : ℕ} → spin_limit ≤ spins → Move m i (loaded ms spins 1) m (slow ms spins)
  contended : {ms : Limit} {spins : ℕ} → Move m i (loaded ms spins 2) m (checking ms)
  refuse : Move m i (checking at_once) m idle
  enqueue :
      {ms : Limit} → ms ≢ at_once → Move m i (checking ms) (add_waiter m i) (blocking ms false)
  block : {ms : Limit} {timed_out : Bool} → Move m i (blocking ms timed_out) m (asleep ms timed_out)
  pass : {ms : Limit} {timed_out : Bool} → Move m i (called ms timed_out) m (awake ms timed_out)
  timer : {p p' : Pc} → Timer p p' → Move m i p m p'
  give_up : Move m i (awake within true) (remove_waiter m i) idle
  retry : {ms : Limit} → Move m i (awake ms false) (remove_waiter m i) (slow ms 0)
  unlock_fast : m.state ≡ 1 → Move m i owner (with_state m 0) idle
  unlock_slow : {v : ℕ} → m.state ≡ v + 1 → v ≢ 0 → Move m i owner (with_state m v) storing
  store : Move m i storing (with_state m 0) waking
  nobody : m.waiters ≡ [] → Move m i waking m idle

pub data Step (n : ℕ) (s : System) : System → Type 0 where
  of :
      (i : ℕ) {m : Mutex} {p : Pc}
      → i < n
      → Move s.mutex i (s.pc i) m p
      → Step n s (record { mutex = m; pc = update s.pc i p })
  -- `wakeup_next` of thread `i` for the head `t`.
  wakeup :
      (i t : ℕ) {rest : List ℕ} {p : Pc}
      → i < n
      → t < n
      → i ≢ t
      → s.pc i ≡ waking
      → s.mutex.waiters ≡ t ∷ rest
      → Wake (s.pc t) p
      → Step n s (record {
        mutex = record s.mutex { waiters = rest };
        pc = update (update s.pc t p) i idle;
      })

abbrev pub init : System
init = record { mutex = record { state = 0; waiters = [] }; pc = λ _. Pc.idle }

pub data Reach (n : ℕ) : System → Type 0 where
  start : Reach n init
  later : {s t : System} → Reach n s → Step n s t → Reach n t
