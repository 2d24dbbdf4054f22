-- ===== src/Scheduler/Run.antt =====
-- Sequences of calls of the operations of kernel/src/task/scheduler.cpp, on any cores.
use noise_v.Base.{
  ◌≡◌, ◌⊎◌, inl, inr, Bool-cases, if◌then◌else◌, ℕ, refl, Bool, Option, none, some, List, [], ◌∷◌,
}
use noise_v.Scheduler.State.{Kernel}
use noise_v.Scheduler.Queues.{add_thread}
use noise_v.Scheduler.Switching.{schedule, yield, block, sleep, terminate, unblock}
use noise_v.Scheduler.Maintenance.{boost_all}
use noise_v.Scheduler.Invariant.{IsGood, Succeeds}
use noise_v.Scheduler.Total.{
  schedule-Succeeds, yield-Succeeds, block-Succeeds, sleep-Succeeds, terminate-Succeeds,
}
use noise_v.Scheduler.Wakes.{unblock-IsGood, add_thread-IsGood}
use noise_v.Scheduler.BoostAll.{boost_all_lem}

pub data Call : Type 0 where
  schedules yields blocks terminates boosts : Call
  sleeps : (ms : ℕ) → Call
  unblocks : (t : ℕ) → Call
  adds : (here t : ℕ) → Call

-- One call on core `c`, where `try_lock` tells which other locks it gets.
unfoldable pub call : (ℕ → Bool) → Kernel → ℕ → Call → Option Kernel
call try_lock k c schedules = schedule try_lock k c
call try_lock k c yields = yield try_lock k c
call try_lock k c blocks = block try_lock k c
call try_lock k c terminates = terminate try_lock k c
call try_lock k c boosts = some (boost_all k c)
call try_lock k c (sleeps ms) = sleep try_lock k c ms
call try_lock k c (unblocks t) = some (unblock k c t)
call try_lock k c (adds here t) = some (add_thread k c here t)

-- How a sequence ends: with a thread linked twice, at the front of an empty queue, or in a state.
pub data Outcome : Type 0 where
  corrupt stuck : Outcome
  done : (k : Kernel) → Outcome

unfoldable pub run : Kernel → List ((ℕ → Bool) × ℕ × Call) → Outcome
run k [] = done k
run k (x ∷ rest) = elim (call x.0 k x.1 x.2) [
  | none ↦ stuck
  | some k' ↦ let later = run k' rest in if k'.corrupted then corrupt else later
]

call-Succeeds :
    (try_lock : ℕ → Bool) (k : Kernel) (c : ℕ) (x : Call)
    → IsGood k
    → Succeeds (call try_lock k c x)
unfolding call
call-Succeeds try_lock k c schedules g = schedule-Succeeds try_lock k c g
call-Succeeds try_lock k c yields g = yield-Succeeds try_lock k c g
call-Succeeds try_lock k c blocks g = block-Succeeds try_lock k c g
call-Succeeds try_lock k c terminates g = terminate-Succeeds try_lock k c g
call-Succeeds try_lock k c boosts g = (boost_all k c, refl, (boost_all_lem k c g).2)
call-Succeeds try_lock k c (sleeps ms) g = sleep-Succeeds try_lock k c ms g
call-Succeeds try_lock k c (unblocks t) g = (unblock k c t, refl, unblock-IsGood k c t g)
call-Succeeds try_lock k c (adds here t) g =
    (add_thread k c here t, refl, add_thread-IsGood k c here t g)

-- From a kernel whose bitmaps agree with their queues and have no bit from 31 on, and whose threads have
-- levels below 31, any sequence of the calls `schedule`, `yield`, `block`, `terminate`, `boost_all`,
-- `sleep`, `unblock` and `add_thread` on any cores either meets a state in which a thread was linked
-- into a ready queue or the zombies while it stood in such a list, or runs to its end without taking the
-- front of an empty queue, and leaves a kernel of that kind.
pub run_lem :
    (calls : List ((ℕ → Bool) × ℕ × Call)) (k : Kernel)
    → IsGood k
    → (run k calls ≡ corrupt) ⊎ ((k' : Kernel) × (run k calls ≡ done k') × IsGood k')
unfolding run
run_lem [] k g = inr (k, refl, g)
run_lem (x ∷ rest) k g =
    let (k', e, g') = call-Succeeds x.0 k x.1 x.2 g in
    rw (e, run)
      (elim (Bool-cases k'.corrupted) [
        | inl twice ↦ rw twice (inl refl)
        | inr once ↦ rw once (run_lem rest k' g')
      ])
