-- ===== src/Scheduler/Wakes.antt =====
-- The operations of kernel/src/task/scheduler.cpp that make a thread ready keep the invariant.
use noise_v.Base.{
  ℕ, zero, suc, ◌+◌, ◌%◌, ◌^◌, ◌<◌, refl, inl, inr, true, not, ◌&&◌, ◌||◌, arith, ltb, leb, ◌==◌,
  if◌then◌else◌, length, Bool-cases, Option-cases,
}
use noise_v.MinHeap.{extract_min}
use noise_v.Scheduler.State.{
  Thread, Kernel, put_core, put_thread, shl_int, ready, is_ready, time_slice, grim_reaper_interval,
}
use noise_v.Scheduler.Queues.{push_ready, prepared, add_thread}
use noise_v.Scheduler.Switching.{wake_sleepers, unblock, tick_wakes}
use noise_v.Scheduler.Invariant.{IsGood, put_thread-IsGood, push_ready-IsGood, shl_int_low}
use noise_v.Scheduler.Steps.{branch-IsGood, put_same-IsGood}

-- `unblock` keeps the invariant.
pub unblock-IsGood : (k : Kernel) (here t : ℕ) → IsGood k → IsGood (unblock k here t)
unfolding unblock
unblock-IsGood k here t g =
    let thread = k.threads t in
    let target = thread.cpu in
    let thread' = record thread {
      state = ready;
      quantum = if leb thread.quantum 0 then time_slice thread.priority else thread.quantum;
    } in
    let k1 = push_ready shl_int (put_thread k t thread') target t in
    let g1 =
      push_ready-IsGood shl_int (put_thread k t thread') target t
        (put_thread-IsGood k t thread' g (g.levels t)) shl_int_low in
    let core = k1.cores target in
    let core' = record core { reschedule_needed = true } in
    let g2 = put_same-IsGood k1 target core' g1 refl refl in
    elim (Bool-cases (is_ready thread.state)) [
      | inl e ↦ rw e g
      | inr e ↦
          rw e
            (elim (Bool-cases (
              (core.curr_thread == core.idle_thread)
              || ltb thread.priority (k1.threads core.curr_thread).priority)) [
                | inr f ↦ rw f g1
                | inl f ↦ rw f (elim (Bool-cases (target == here)) [
                  | inl h ↦ rw h g2
                  | inr h ↦ rw h (record { bitmaps = g2.bitmaps; levels = g2.levels })
                ])
              ])
    ]

prepared-level : (t : Thread) (c : ℕ) → t.priority < 31 → (prepared t c).priority < 31
unfolding prepared
prepared-level t c h = ground arith

-- `add_thread` keeps the invariant.
pub add_thread-IsGood : (k : Kernel) (c here t : ℕ) → IsGood k → IsGood (add_thread k c here t)
unfolding add_thread
add_thread-IsGood k c here t g =
    let thread = k.threads t in
    let k1 = put_thread k t (prepared thread c) in
    let level = prepared-level thread c (g.levels t) in
    let g1 = put_thread-IsGood k t (prepared thread c) g level in
    let k2 = push_ready shl_int k1 c t in
    let g2 = push_ready-IsGood shl_int k1 c t g1 shl_int_low in
    let core = k2.cores c in
    let core' = record core { reschedule_needed = true } in
    let g3 = put_same-IsGood k2 c core' g2 refl refl in
    branch-IsGood thread.linked k1 _ g1 (
      branch-IsGood (ltb (k2.threads t).priority (k2.threads core.curr_thread).priority) _ k2
        (branch-IsGood (not (here == c)) _ (put_core k2 c core')
          (record { bitmaps = g3.bitmaps; levels = g3.levels }) g3)
        g2)

wake_sleepers-IsGood :
    (rounds : ℕ) (k : Kernel) (c : ℕ) → IsGood k → IsGood (wake_sleepers rounds k c)
unfolding wake_sleepers
wake_sleepers-IsGood zero k c g = g
wake_sleepers-IsGood (suc rounds) k c g =
    let core = k.cores c in
    elim (Option-cases (extract_min (λ (t : ℕ). t) core.sleeping_queue)) [
      | inl e ↦ rw (e, wake_sleepers) g
      | inr found ↦
          let (s, e) = found in
          let t = k.threads s.0 in
          let t' = record t { state = ready; quantum = time_slice t.priority } in
          let core' = record core { sleeping_queue = s.1 } in
          let k1 = put_thread (put_core k c core') s.0 t' in
          let g1 =
            put_thread-IsGood (put_core k c core') s.0 t' (put_same-IsGood k c core' g refl refl)
              (g.levels s.0) in
          let rest =
            wake_sleepers-IsGood rounds (push_ready shl_int k1 c s.0) c
              (push_ready-IsGood shl_int k1 c s.0 g1 shl_int_low) in
          rw (e, wake_sleepers)
            (elim (Bool-cases (ltb core.current_ticks t.wake_time_ticks)) [
              | inl f ↦ rw f g
              | inr f ↦ rw f rest
            ])
    ]

pub tick_wakes-IsGood : (k : Kernel) (c : ℕ) → IsGood k → IsGood (tick_wakes k c)
unfolding tick_wakes
tick_wakes-IsGood k c g =
    let core = record (k.cores c) { current_ticks = ((k.cores c).current_ticks + 1) % 2 ^ 64 } in
    let g1 =
      wake_sleepers-IsGood (length core.sleeping_queue) (put_core k c core) c
        (put_same-IsGood k c core g refl refl) in
    let k1 = wake_sleepers (length core.sleeping_queue) (put_core k c core) c in
    let core1 = k1.cores c in
    elim (Option-cases core1.reaper_thread) [
      | inl e ↦ rw (e, tick_wakes) g1
      | inr found ↦
          let (reaper, e) = found in
          rw (e, tick_wakes)
            (elim (Bool-cases (
              (core1.current_ticks % grim_reaper_interval == 0)
              && (ltb 0 (length core1.zombie_list) && not (is_ready (k1.threads reaper).state)))) [
                | inl f ↦ rw f (unblock-IsGood k1 c reaper g1)
                | inr f ↦ rw f g1
              ])
    ]
