-- ===== src/Scheduler/Tests.antt =====
-- Instances of the theorems on the scheduler: two cores, threads 1 and 2 on core 0, and the idle
-- threads 100 and 101.
use noise_v.Base.{
  ℕ, ◌+◌, ◌<◌, ◌≡◌, ◌⊎◌, refl, ◌∙◌, Bool, true, false, none, some, List, [], ◌∷◌, arith, replicate,
  length-replicate, get_or-replicate_self,
}
use noise_v.Base.Digits.{digit-zero}
use noise_v.Pcid.{PcidManager}
use noise_v.Scheduler.State.{running, Thread, Core, Kernel, queue, shl_int, mlfq_levels, put_thread}
use noise_v.Scheduler.Queues.{
  push_core, push_ready, pop_highest, steal_loop, try_steal, get_next_thread,
}
use noise_v.Scheduler.Switching.{schedule}
use noise_v.Scheduler.Maintenance.{boost_all}
use noise_v.Scheduler.Bitmap.{IsValid}
use noise_v.Scheduler.Invariant.{IsGood, Succeeds, push_ready-IsGood, shl_int_low}
use noise_v.Scheduler.Total.{schedule-Succeeds}
use noise_v.Scheduler.Boost.{in_order}
use noise_v.Scheduler.BoostAll.{boost_all_lem}
use noise_v.Scheduler.Run.{
  Call, schedules, yields, terminates, boosts, sleeps, adds, unblocks, Outcome, stuck, run, corrupt,
  done, run_lem,
}
use noise_v.Scheduler.Faults.{low_level_breaks}

no_ids : PcidManager
no_ids = record {
  slots = [];
  used_bitmap = [];
  victim_iterator = 1;
  pcid_cache = λ _. 0;
  flushed = [];
}

idle_core : ℕ → Core
idle_core c = record {
  ready_queue = replicate mlfq_levels [];
  active_queues_bitmap = 0;
  current_ticks = 7;
  zombie_list = [];
  sleeping_queue = [];
  curr_thread = 100 + c;
  idle_thread = 100 + c;
  reaper_thread = none;
  reschedule_needed = false;
  pcid_manager = no_ids;
  loaded = [];
}

new_thread : Thread
new_thread = record {
  cpu = 0;
  state = running;
  priority = 5;
  quantum = 16;
  wake_time_ticks = 0;
  wait_start_timestamp = 0;
  last_run_timestamp = 0;
  owner = none;
  linked = false;
}

idle_kernel : Kernel
idle_kernel = record {
  cores = idle_core;
  threads = λ _. new_thread;
  total_cores = 2;
  process_threads = λ _. [];
  ipis = [];
  freed = [];
  corrupted = false;
}

idle_core-IsValid : (c : ℕ) → IsValid (idle_core c)
unfolding idle_core
idle_core-IsValid c = record {
  queues = length-replicate {A = List ℕ} mlfq_levels [];
  low = omega arith;
  bits = λ i h. digit-zero i ∙ rw (get_or-replicate_self {A = List ℕ} mlfq_levels i []) refl;
}

idle-IsGood : IsGood idle_kernel
unfolding idle_kernel new_thread
idle-IsGood = record { bitmaps = idle_core-IsValid; levels = λ t. omega arith }

-- Threads 1 and 2 wait on core 0.
busy : Kernel
busy = push_ready shl_int (push_ready shl_int idle_kernel 0 1) 0 2

busy-IsGood : IsGood busy
unfolding busy
busy-IsGood =
    push_ready-IsGood shl_int (push_ready shl_int idle_kernel 0 1) 0 2
      (push_ready-IsGood shl_int idle_kernel 0 1 idle-IsGood shl_int_low) shl_int_low

-- Every other lock is taken.
locked_out : ℕ → Bool
locked_out _ = false

schedule-Succeeds_example : Succeeds (schedule locked_out busy 0)
schedule-Succeeds_example = schedule-Succeeds locked_out busy 0 busy-IsGood

busy-levels : (t : ℕ) → (busy.threads t).priority < 30
unfolding busy push_ready idle_kernel new_thread
busy-levels t = ground arith

boost_all_lem_example :
    let k' = boost_all busy 0 in
    (queue (k'.cores 0) 0 ≡ in_order mlfq_levels (busy.cores 0))
    × ((j : ℕ) → 0 < j → j < mlfq_levels → queue (k'.cores 0) j ≡ [])
    × IsGood k'
boost_all_lem_example = boost_all_lem busy 0 busy-IsGood

pushed : Core
pushed = push_core shl_int (idle_core 0) 5 1

pushed_kernel : Kernel
pushed_kernel = record idle_kernel { cores = λ c. pushed }

idle_bitmap : (idle_core 0).active_queues_bitmap ≡ 0
unfolding idle_core
idle_bitmap = refl

low_level_breaks_example : pop_highest (push_core shl_int (idle_core 0) 40 1) ≡ none
low_level_breaks_example =
    low_level_breaks (idle_core 0) 40 1 (idle_core-IsValid 0) idle_bitmap (omega arith)
      (omega arith)

-- Thread 1 waited once.
once : Kernel
once = put_thread idle_kernel 1 (record new_thread { linked = true })

once-linked : (once.threads 1).linked ≡ true
unfolding once
once-linked = ground arith

once_next : get_next_thread locked_out once 0 ≡ some (100, once)
unfolding once get_next_thread try_steal steal_loop locked_out idle_kernel idle_core
once_next = ground arith

-- Core 0 adds thread 3, both cores sleep and yield, and core 1 steals.
some_calls : List ((ℕ → Bool) × ℕ × Call)
some_calls =
    (locked_out, 0, adds 1 3)
    ∷ (locked_out, 0, sleeps 5)
    ∷ ((λ _. true), 1, schedules)
    ∷ ((λ _. true), 1, yields)
    ∷ (locked_out, 0, boosts)
    ∷ (locked_out, 1, terminates)
    ∷ []

run_lem_example :
    (run busy some_calls ≡ corrupt) ⊎ ((k : Kernel) × (run busy some_calls ≡ done k) × IsGood k)
run_lem_example = run_lem some_calls busy busy-IsGood

-- The running thread of core 0 is made ready, and then yields.
running_twice : List ((ℕ → Bool) × ℕ × Call)
running_twice = (locked_out, 0, unblocks 100) ∷ (locked_out, 0, yields) ∷ []

corrupts : Outcome → Bool
corrupts corrupt = true
corrupts stuck = false
corrupts (done k) = k.corrupted

tests : List Bool
tests = corrupts (run busy some_calls) ∷ corrupts (run busy running_twice) ∷ []
