-- ===== src/Scheduler/Steps.antt =====
-- The steps that switch threads in kernel/src/task/scheduler.cpp keep the invariant.
use noise_v.Base.{
  ℕ, ◌≡◌, refl, inl, inr, Bool, true, false, Option, none, some, if◌then◌else◌, Bool-cases,
}
use noise_v.Scheduler.State.{
  Core, Kernel, put_core, put_thread, shl_int, running, ready, is_running, is_ready, is_zombie,
}
use noise_v.Scheduler.Switching.{load_map, requeue_running, switch_to, keep_running, same_owner}
use noise_v.Scheduler.Bitmap.{IsValid}
use noise_v.Scheduler.Invariant.{
  IsGood, copy-IsValid, put_core-IsGood, put_thread-IsGood, push_ready-IsGood, shl_int_low,
}

pub branch-IsGood : (b : Bool) (x y : Kernel) → IsGood x → IsGood y → IsGood (if b then x else y)
branch-IsGood true x y g h = g
branch-IsGood false x y g h = h

pub load_map-IsValid :
    (core : Core) (prev next : Option ℕ) → IsValid core → IsValid (load_map core prev next)
unfolding load_map
load_map-IsValid core prev none v = v
load_map-IsValid core prev (some next) v = elim (Bool-cases (same_owner prev next)) [
  | inl e ↦ rw e v
  | inr e ↦ rw e (copy-IsValid core _ v refl refl)
]

-- A change of fields other than the queues.
pub put_same-IsGood :
    (k : Kernel) (c : ℕ) (core : Core)
    → IsGood k
    → core.ready_queue ≡ (k.cores c).ready_queue
    → core.active_queues_bitmap ≡ (k.cores c).active_queues_bitmap
    → IsGood (put_core k c core)
put_same-IsGood k c core g e f =
    put_core-IsGood k c core g (copy-IsValid (k.cores c) core (g.bitmaps c) e f)

pub requeue_running-IsGood : (k : Kernel) (c : ℕ) → IsGood k → IsGood (requeue_running k c)
unfolding requeue_running
requeue_running-IsGood k c g =
    let core = k.cores c in
    let prev = core.curr_thread in
    let p = k.threads prev in
    let p' = record p { state = ready; wait_start_timestamp = core.current_ticks } in
    elim (Bool-cases (is_running p.state)) [
      | inl e ↦ rw e (
          push_ready-IsGood shl_int (put_thread k prev p') c prev
            (put_thread-IsGood k prev p' g (g.levels prev)) shl_int_low)
      | inr e ↦ rw e g
    ]

pub switch_to-IsGood : (k : Kernel) (c prev next : ℕ) → IsGood k → IsGood (switch_to k c prev next)
unfolding switch_to
switch_to-IsGood k c prev next g =
    let core = k.cores c in
    let base = record core { curr_thread = next } in
    let core1 = load_map base (k.threads prev).owner (k.threads next).owner in
    let k1 = put_core k c core1 in
    let g1 = put_core-IsGood k c core1 g (
      load_map-IsValid base (k.threads prev).owner (k.threads next).owner
        (copy-IsValid core base (g.bitmaps c) refl refl)) in
    let k2 = put_thread k1 next (record (k.threads next) { state = running }) in
    let g2 =
      put_thread-IsGood k1 next (record (k.threads next) { state = running }) g1 (g.levels next) in
    let p = k2.threads prev in
    elim (Bool-cases (is_ready p.state)) [
      | inl e ↦ rw e (
          put_thread-IsGood k2 prev (record p { wait_start_timestamp = core.current_ticks }) g2
            (g2.levels prev))
      | inr e ↦ rw e g2
    ]

pub keep_running-IsGood : (k : Kernel) (prev : ℕ) → IsGood k → IsGood (keep_running k prev)
unfolding keep_running
keep_running-IsGood k prev g =
    let p = k.threads prev in
    elim (Bool-cases (is_zombie p.state)) [
      | inl e ↦ rw e g
      | inr e ↦ rw e (put_thread-IsGood k prev (record p { state = running }) g (g.levels prev))
    ]
