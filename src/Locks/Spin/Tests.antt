-- ===== src/Locks/Spin/Tests.antt =====
-- Instances of the theorems on the ticket lock: of two processors, 0 has the lock and 1 waits.
use noise_v.Base.{ℕ, ◌≡◌, ◌⊎◌, refl, true, List, arith}
use noise_v.Locks.{take_ticket}
use noise_v.Locks.Spin.{
  System, Step, of, Reach, start, later, has_lock, init, spinning, call_lock, take, enter,
}
use noise_v.Locks.Spin.Fifo.{Fifo}
use noise_v.Locks.Spin.Safety.{IsFifo, reachable-IsFifo, mutual_exclusion, no_deadlock}

record Run : Type 0 where
  last : System
  reach : Reach 2 last

turn : (r : Run) {t : System} → Step 2 r.last t → Run
turn r {t} st = record { last = t; reach = later r.reach st }

first_asks : Run
unfolding turn
first_asks =
    turn (turn (record { last = init; reach = start }) (of 0 (omega arith) call_lock))
      (of 0 (omega arith) take)

contended : Run
unfolding first_asks turn take_ticket
contended =
    turn (turn (turn first_asks (of 0 (omega arith) (enter refl))) (of 1 (omega arith) call_lock))
      (of 1 (omega arith) take)

reachable-IsFifo_example :
    (q : List ℕ) × IsFifo contended.last q
    × ((t : System) → Step 2 contended.last t → (i : ℕ) × (q' : List ℕ) × Fifo i q q' × IsFifo t q')
reachable-IsFifo_example = reachable-IsFifo (omega arith) contended.reach

mutual_exclusion_example : ◌≡◌ {A = ℕ} 0 0
unfolding contended first_asks turn
mutual_exclusion_example = mutual_exclusion (omega arith) contended.reach 0 0 refl refl

no_deadlock_example :
    (j : ℕ) × ((has_lock (contended.last.pc j) ≡ true)
      ⊎ (contended.last.pc j ≡ spinning contended.last.lock.serving_ticket))
unfolding contended first_asks turn take_ticket
no_deadlock_example = no_deadlock {mine = 1} (omega arith) contended.reach 1 refl
