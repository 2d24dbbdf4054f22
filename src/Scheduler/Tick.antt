-- ===== src/Scheduler/Tick.antt =====
-- `tick` of kernel/src/task/scheduler.cpp.
use noise_v.Base.{
  ℕ, zero, suc, ◌+◌, ◌-◌, ◌%◌, ◌^◌, ◌<◌, ◌≡◌, refl, ap, ◌∙◌, inl, inr, Bool, true, false, not, ◌&&◌,
  ◌||◌, Option, some, arith, ltb, leb, ◌==◌, if◌then◌else◌, length, Bool-cases, Option-cases,
}
use noise_v.Base.Words.{ctz}
use noise_v.MinHeap.{extract_min}
use noise_v.Scheduler.State.{
  Thread, Kernel, put_core, put_thread, shl_uint, shl_int, ready, is_ready, time_slice,
  grim_reaper_interval,
}
use noise_v.Scheduler.Queues.{push_core, push_ready}
use noise_v.Scheduler.Switching.{wake_sleepers, unblock, tick_wakes, demoted, tick}
use noise_v.Scheduler.Invariant.{
  IsGood, Succeeds, put_thread-IsGood, push_ready-IsGood, shl_uint_low,
}
use noise_v.Scheduler.Total.{schedule-Succeeds}
use noise_v.Scheduler.Wakes.{tick_wakes-IsGood}

level-put_thread :
    (k : Kernel) (t : ℕ) (thread : Thread) (u : ℕ)
    → thread.priority ≡ (k.threads t).priority
    → ((put_thread k t thread).threads u).priority ≡ (k.threads u).priority
level-put_thread k t thread u e = elim (Bool-cases (t == u)) [
  | inl f ↦ rw f (e ∙ ap (λ j. (k.threads j).priority) (ground arith))
  | inr f ↦ rw f refl
]

level-push_ready :
    (k : Kernel) (c t u : ℕ)
    → ((push_ready shl_int k c t).threads u).priority ≡ (k.threads u).priority
unfolding push_ready
level-push_ready k c t u =
    level-put_thread (put_core k c (push_core shl_int (k.cores c) (k.threads t).priority t)) t
      (record (k.threads t) { linked = true }) u refl

same_level :
    (b : Bool) (x y : Kernel) (u n : ℕ)
    → (x.threads u).priority ≡ n
    → (y.threads u).priority ≡ n
    → ((if b then x else y).threads u).priority ≡ n
same_level true x y u n e f = e
same_level false x y u n e f = f

level-unblock :
    (k : Kernel) (here t u : ℕ) → ((unblock k here t).threads u).priority ≡ (k.threads u).priority
unfolding unblock
level-unblock k here t u =
    let thread = k.threads t in
    let n = (k.threads u).priority in
    let thread' = record thread {
      state = ready;
      quantum = if leb thread.quantum 0 then time_slice thread.priority else thread.quantum;
    } in
    let k1 = push_ready shl_int (put_thread k t thread') thread.cpu t in
    let core = k1.cores thread.cpu in
    let e =
      level-push_ready (put_thread k t thread') thread.cpu t u
      ∙ level-put_thread k t thread' u refl in
    same_level (is_ready thread.state) k _ u n refl (
      same_level
        ((core.curr_thread == core.idle_thread)
          || ltb thread.priority (k1.threads core.curr_thread).priority)
        _ k1 u n (same_level (thread.cpu == here) _ _ u n e e) e)

level-wake_sleepers :
    (rounds : ℕ) (k : Kernel) (c u : ℕ)
    → ((wake_sleepers rounds k c).threads u).priority ≡ (k.threads u).priority
unfolding wake_sleepers
level-wake_sleepers zero k c u = refl
level-wake_sleepers (suc rounds) k c u =
    let core = k.cores c in
    elim (Option-cases (extract_min (λ (t : ℕ). t) core.sleeping_queue)) [
      | inl e ↦ rw (e, wake_sleepers) refl
      | inr found ↦
          let (s, e) = found in
          let t = k.threads s.0 in
          let t' = record t { state = ready; quantum = time_slice t.priority } in
          let k1 = put_thread (put_core k c (record core { sleeping_queue = s.1 })) s.0 t' in
          let k2 = push_ready shl_int k1 c s.0 in
          rw (e, wake_sleepers)
            (same_level (ltb core.current_ticks t.wake_time_ticks) k _ u (k.threads u).priority refl
              (level-wake_sleepers rounds k2 c u
                ∙ level-push_ready k1 c s.0 u
                ∙ level-put_thread (put_core k c (record core { sleeping_queue = s.1 })) s.0 t' u
                    refl))
    ]

pub level-tick_wakes :
    (k : Kernel) (c u : ℕ) → ((tick_wakes k c).threads u).priority ≡ (k.threads u).priority
unfolding tick_wakes
level-tick_wakes k c u =
    let core = record (k.cores c) { current_ticks = ((k.cores c).current_ticks + 1) % 2 ^ 64 } in
    let k0 = put_core k c core in
    let k1 = wake_sleepers (length core.sleeping_queue) k0 c in
    let core1 = k1.cores c in
    let e1 = level-wake_sleepers (length core.sleeping_queue) k0 c u in
    elim (Option-cases core1.reaper_thread) [
      | inl e ↦ rw (e, tick_wakes) e1
      | inr found ↦
          let (reaper, e) = found in
          rw (e, tick_wakes)
            (same_level
              ((core1.current_ticks % grim_reaper_interval == 0)
                && (ltb 0 (length core1.zombie_list) && not (is_ready (k1.threads reaper).state)))
              _ k1 u (k.threads u).priority (level-unblock k1 c reaper u ∙ e1) e1)
    ]

branch-Succeeds :
    (b : Bool) (x y : Option Kernel) → Succeeds x → Succeeds y → Succeeds (if b then x else y)
branch-Succeeds true x y g h = g
branch-Succeeds false x y g h = h

demoted-level : (t : Thread) → t.priority < 30 → (demoted t).priority < 31
unfolding demoted
demoted-level t h = ground arith

-- `tick` succeeds and keeps the invariant when every thread has a level below 30, so that the demotion
-- of one thread does not reach level 31.
pub tick-Succeeds :
    (try_lock : ℕ → Bool) (k : Kernel) (c : ℕ)
    → IsGood k
    → ((t : ℕ) → (k.threads t).priority < 30)
    → Succeeds (tick try_lock k c)
unfolding tick
tick-Succeeds try_lock k c g low =
    let k1 = tick_wakes k c in
    let g1 = tick_wakes-IsGood k c g in
    let core = k1.cores c in
    let curr = core.curr_thread in
    let t = k1.threads curr in
    let t' = record t { quantum = t.quantum - 1 } in
    let waiting = not (core.active_queues_bitmap == 0) in
    let g2 = put_thread-IsGood k1 curr t' g1 (g1.levels curr) in
    let down = demoted t' in
    let g3 =
      push_ready-IsGood shl_uint (put_thread k1 curr down) c curr
        (put_thread-IsGood k1 curr down g1
          (demoted-level t' (rw (level-tick_wakes k c curr) (low curr))))
        shl_uint_low in
    branch-Succeeds (curr == core.idle_thread) _ _
      (branch-Succeeds waiting _ (some k1) (schedule-Succeeds try_lock k1 c g1) (k1, refl, g1))
      (branch-Succeeds (leb t'.quantum 0) _ _
        (schedule-Succeeds try_lock (push_ready shl_uint (put_thread k1 curr down) c curr) c g3)
        (branch-Succeeds (waiting && ltb (ctz 64 core.active_queues_bitmap) t'.priority) _ _
          (schedule-Succeeds try_lock (put_thread k1 curr t') c g2)
          (put_thread k1 curr t', refl, g2)))
