-- ===== src/Locks/Rw/Safety.antt =====
-- What the lock of kernel/include/libs/spinlock.hpp promises to readers and writers.
use noise_v.Base.{ℕ, ◌^◌, ◌<◌, ◌≡◌, ◌≢◌, arith}
use noise_v.Locks.Rw.{reading, writing, System, Reach}
use noise_v.Locks.Rw.Invariant.{counts, owner-front}
use noise_v.Locks.Rw.Moves.{Reach-Inv}
use noise_v.Locks.Count.{total}

-- Of fewer than 2^64 processors, in the first 2^64 steps, none reads while another writes and two never write together,
-- whether they came in by the waiting calls or by the trying ones; and the count of readers is the
-- number of processors that have added themselves, so that no `fetch_sub` wraps below 0.
pub rw_exclusion :
    {n k : ℕ} {s : System}
    → n < 2 ^ 64
    → k < 2 ^ 64
    → Reach n k s
    → ((i j : ℕ) → s.pc i ≡ writing → s.pc j ≢ reading)
      × ((i j : ℕ) → i < n → j < n → s.pc i ≡ writing → s.pc j ≡ writing → i ≡ j)
      × (s.lock.readers ≡ total counts n s.pc)
rw_exclusion few short r =
    let (q, inv) = Reach-Inv few short r in
    (
      inv.exclusive,
      (λ i j p p' e f.
          let (xs, g) = owner-front inv i p (ground arith) in
          let (ys, h) = owner-front inv j p' (ground arith) in ground (arith, g, h)),
      inv.counted,
    )
