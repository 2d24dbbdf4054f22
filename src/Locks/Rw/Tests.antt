-- ===== src/Locks/Rw/Tests.antt =====
-- An instance of the theorem on the readers-writer lock: of two processors, 0 reads.
use noise_v.Base.{ℕ, ◌+◌, ◌<◌, ◌≡◌, ◌≢◌, refl, arith}
use noise_v.Locks.Rw.{
  System, Step, of, Reach, start, later, init, reading, writing, call_read, allowed, add, reload,
  read_in,
}
use noise_v.Locks.Rw.Invariant.{counts}
use noise_v.Locks.Rw.Safety.{rw_exclusion}
use noise_v.Locks.Count.{total}

record Run (k : ℕ) : Type 0 where
  last : System
  reach : Reach 2 k last

turn : {k : ℕ} (r : Run k) {t : System} → Step 2 r.last t → Run (k + 1)
turn r {t} st = record { last = t; reach = later r.reach st }

begun : Run 3
unfolding turn
begun =
    turn
      (turn (turn (record { last = init; reach = start }) (of 0 (omega arith) call_read))
        (of 0 (omega arith) (allowed refl)))
      (of 0 (omega arith) add)

reads : Run 5
unfolding begun turn
reads = turn (turn begun (of 0 (omega arith) reload)) (of 0 (omega arith) (read_in refl))

rw_exclusion_example :
    ((i j : ℕ) → reads.last.pc i ≡ writing → reads.last.pc j ≢ reading)
    × ((i j : ℕ) → i < 2 → j < 2 → reads.last.pc i ≡ writing → reads.last.pc j ≡ writing → i ≡ j)
    × (reads.last.lock.readers ≡ total counts 2 reads.last.pc)
rw_exclusion_example = rw_exclusion (omega arith) (omega arith) reads.reach
