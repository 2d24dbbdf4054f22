-- ===== src/Mutex/Tests.antt =====
-- Instances of the theorems on the mutex.
use noise_v.Base.{ℕ, ◌<◌, ◌≡◌, refl, false, [], ◌∷◌, arith, ◌==◌, if◌then◌else◌}
use noise_v.Locks.Count.{total}
use noise_v.Mutex.{System, of, Reach, start, later, idle, waking, blocking, forever, take_free}
use noise_v.Mutex.Queue.{Steps, IsLost, missed_wakeup_is_final}
use noise_v.Mutex.Exclusion.{has, closed, mutex_exclusion}

record Run : Type 0 where
  last : System
  reach : Reach 2 last

taken : Run
taken = record { last = _; reach = later start (of 0 (omega arith) (take_free refl)) }

mutex_exclusion_example :
    ((i j : ℕ) → i < 2 → j < 2 → has (taken.last.pc i) ≡ 1 → has (taken.last.pc j) ≡ 1 → i ≡ j)
    × (total has 2 taken.last.pc ≡ closed taken.last.mutex.state)
mutex_exclusion_example = mutex_exclusion taken.reach

-- Thread 0 is about to wake thread 1, which has not gone to sleep yet.
about_to_wake : System
about_to_wake = record {
  mutex = record { state = 0; waiters = 1 ∷ [] };
  pc = λ i. if i == 0 then waking else if i == 1 then blocking forever false else idle;
}

missed_wakeup_is_final_example :
    (u : System) × Steps 2 about_to_wake u × ((v : System) → Steps 2 u v → IsLost 1 v)
unfolding about_to_wake
missed_wakeup_is_final_example =
    missed_wakeup_is_final 2 0 1 about_to_wake [] (omega arith) (omega arith) refl refl refl tt
