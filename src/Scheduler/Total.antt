-- ===== src/Scheduler/Total.antt =====
-- No operation of kernel/src/task/scheduler.cpp takes the front of an empty queue, and each keeps
-- the invariant.
use noise_v.Base.{
  ℕ, ◌+◌, ◌%◌, ◌^◌, ◌≤◌, ◌<◌, refl, inl, inr, Bool, true, ◌||◌, [], ◌∷◌, ◌++◌, arith, ◌==◌,
  Bool-cases,
}
use noise_v.MinHeap.{insert}
use noise_v.Scheduler.State.{
  Thread, Kernel, put_core, put_thread, shl_int, running, ready, blocked, sleeping, zombie,
  time_slice,
}
use noise_v.Scheduler.Queues.{is_queued, push_ready}
use noise_v.Scheduler.Switching.{
  load_map, requeue_running, switch_to, keep_running, schedule, rewarded, yield, block, sleep,
  terminate,
}
use noise_v.Scheduler.Invariant.{
  IsGood, Succeeds, copy-IsValid, put_core-IsGood, put_thread-IsGood, push_ready-IsGood,
  shl_int_low, get_next_thread-good,
}
use noise_v.Scheduler.Steps.{
  load_map-IsValid, put_same-IsGood, requeue_running-IsGood, switch_to-IsGood, keep_running-IsGood,
}

-- `schedule` on a kernel whose bitmaps agree with their queues and whose threads have levels below 31
-- always finds a thread to run, and keeps that invariant.
pub schedule-Succeeds :
    (try_lock : ℕ → Bool) (k : Kernel) (c : ℕ) → IsGood k → Succeeds (schedule try_lock k c)
unfolding schedule
schedule-Succeeds try_lock k c g =
    let prev = (k.cores c).curr_thread in
    let (next, k1, e, g1) =
      get_next_thread-good try_lock (requeue_running k c) c (requeue_running-IsGood k c g) in
    rw (e, schedule)
      (elim (Bool-cases (prev == next)) [
        | inl same ↦ rw same (keep_running k1 prev, refl, keep_running-IsGood k1 prev g1)
        | inr new ↦ rw new (switch_to k1 c prev next, refl, switch_to-IsGood k1 c prev next g1)
      ])

rewarded-level : (t : Thread) → (rewarded t).priority ≤ t.priority
unfolding rewarded
rewarded-level t = ground arith

-- `yield` succeeds and keeps the invariant, whether or not another thread waits.
pub yield-Succeeds :
    (try_lock : ℕ → Bool) (k : Kernel) (c : ℕ) → IsGood k → Succeeds (yield try_lock k c)
unfolding yield
yield-Succeeds try_lock k c g =
    let core = k.cores c in
    let curr = core.curr_thread in
    let t = rewarded (record (k.threads curr) { state = ready }) in
    let low : t.priority < 31 =
      omega (arith, rewarded-level (record (k.threads curr) { state = ready }), g.levels curr) in
    elim (Bool-cases (core.active_queues_bitmap == 0)) [
      | inl e ↦ rw e (k, refl, g)
      | inr e ↦ rw e (
          schedule-Succeeds try_lock (push_ready shl_int (put_thread k curr t) c curr) c (
            push_ready-IsGood shl_int (put_thread k curr t) c curr
              (put_thread-IsGood k curr t g low) shl_int_low))
    ]

-- `block` succeeds and keeps the invariant.
pub block-Succeeds :
    (try_lock : ℕ → Bool) (k : Kernel) (c : ℕ) → IsGood k → Succeeds (block try_lock k c)
unfolding block
block-Succeeds try_lock k c g =
    let curr = (k.cores c).curr_thread in
    let t = rewarded (k.threads curr) in
    let t' = record t { quantum = time_slice t.priority; state = blocked } in
    schedule-Succeeds try_lock (put_thread k curr t') c (
      put_thread-IsGood k curr t' g (omega (arith, rewarded-level (k.threads curr), g.levels curr)))

-- `sleep` succeeds and keeps the invariant, for any time.
pub sleep-Succeeds :
    (try_lock : ℕ → Bool) (k : Kernel) (c ms : ℕ) → IsGood k → Succeeds (sleep try_lock k c ms)
unfolding sleep
sleep-Succeeds try_lock k c ms g =
    let core = k.cores c in
    let curr = core.curr_thread in
    let t = record (k.threads curr) {
      wake_time_ticks = (core.current_ticks + ms) % 2 ^ 64;
      state = sleeping;
    } in
    let core' = record core { sleeping_queue = insert (λ (t : ℕ). t) core.sleeping_queue curr } in
    elim (Bool-cases (ms == 0)) [
      | inl e ↦ rw e (yield-Succeeds try_lock k c g)
      | inr e ↦ rw e (
          schedule-Succeeds try_lock (put_core (put_thread k curr t) c core') c (
            put_same-IsGood (put_thread k curr t) c core'
              (put_thread-IsGood k curr t g (g.levels curr)) refl refl))
    ]

-- `terminate` succeeds up to the switch and keeps the invariant.
pub terminate-Succeeds :
    (try_lock : ℕ → Bool) (k : Kernel) (c : ℕ) → IsGood k → Succeeds (terminate try_lock k c)
unfolding terminate
terminate-Succeeds try_lock k c g =
    let core = k.cores c in
    let curr = core.curr_thread in
    let t = record (k.threads curr) {
      state = zombie;
      last_run_timestamp = core.current_ticks;
      linked = true;
    } in
    let core' = record core { zombie_list = core.zombie_list ++ curr ∷ [] } in
    let k1 = record (put_core (put_thread k curr t) c core') {
      corrupted = k.corrupted || is_queued k.total_cores k.cores curr;
    } in
    let g' =
      put_same-IsGood (put_thread k curr t) c core' (put_thread-IsGood k curr t g (g.levels curr))
        refl refl in
    let g1 : IsGood k1 = record { bitmaps = g'.bitmaps; levels = g'.levels } in
    let (next, k2, e, g2) = get_next_thread-good try_lock k1 c g1 in
    let core2 = load_map (k2.cores c) (k2.threads curr).owner (k2.threads next).owner in
    let core3 = record core2 { curr_thread = next } in
    let t' = record (k2.threads next) { state = running } in
    rw (e, terminate)
      (
        put_thread (put_core k2 c core3) next t',
        refl,
        put_thread-IsGood (put_core k2 c core3) next t'
            (put_core-IsGood k2 c core3 g2 (
              copy-IsValid core2 core3
                (load_map-IsValid (k2.cores c) (k2.threads curr).owner (k2.threads next).owner
                  (g2.bitmaps c))
                refl refl))
            (g2.levels next),
      )
