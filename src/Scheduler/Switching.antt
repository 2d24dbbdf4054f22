-- ===== src/Scheduler/Switching.antt =====
-- The operations of kernel/src/task/scheduler.cpp that may switch threads, up to
-- `context_switch`: what follows it runs when the thread is next chosen. `none` stands for undefined
-- behaviour.
use noise_v.Base.{
  ℕ, zero, suc, ◌+◌, ◌-◌, ◌/◌, ◌%◌, ◌^◌, Bool, true, false, not, ◌&&◌, ◌||◌, Option, none, some, [],
  ◌∷◌, ◌++◌, ltb, leb, ◌==◌, if◌then◌else◌, length,
}
use noise_v.Base.Words.{ctz}
use noise_v.Pcid.{get_pcid, no_pcid}
use noise_v.MinHeap.{extract_min, insert}
use noise_v.Scheduler.State.{
  ready, running, blocked, sleeping, zombie, is_ready, is_running, is_zombie, Thread, Core, Kernel,
  put_core, put_thread, shl_uint, shl_int, time_slice, mlfq_levels, sub16, grim_reaper_interval,
}
use noise_v.Scheduler.Queues.{is_queued, push_ready, get_next_thread}

abbrev pub same_owner : Option ℕ → ℕ → Bool
same_owner none q = false
same_owner (some p) q = p == q

-- The address space of `next_proc`, loaded when it is a process other than `prev_proc`.
unfoldable pub load_map : Core → Option ℕ → Option ℕ → Core
load_map core prev_proc none = core
load_map core prev_proc (some next_proc) =
    let got = get_pcid core.pcid_manager next_proc in
    let needs_flush = got.1.pcid_cache next_proc == no_pcid in
    if same_owner prev_proc next_proc then core else record core {
      pcid_manager = got.1;
      loaded = (next_proc, got.0, needs_flush) ∷ core.loaded;
    }

-- `prev` is put back when it was preempted.
unfoldable pub requeue_running : Kernel → ℕ → Kernel
requeue_running k cpu_id =
    let core = k.cores cpu_id in
    let prev = core.curr_thread in
    let p = k.threads prev in
    if is_running p.state
    then push_ready shl_int
        (put_thread k prev (record p { state = ready; wait_start_timestamp = core.current_ticks }))
        cpu_id prev
    else k

-- From the choice of `next` to the switch.
unfoldable pub switch_to : Kernel → ℕ → ℕ → ℕ → Kernel
switch_to k cpu_id prev next =
    let core = k.cores cpu_id in
    let k1 = put_core k cpu_id (
      load_map (record core { curr_thread = next }) (k.threads prev).owner
        (k.threads next).owner) in
    let k2 = put_thread k1 next (record (k.threads next) { state = running }) in
    let p = k2.threads prev in
    if is_ready p.state
    then put_thread k2 prev (record p { wait_start_timestamp = core.current_ticks })
    else k2

-- The scheduler picked the thread that was running.
unfoldable pub keep_running : Kernel → ℕ → Kernel
keep_running k prev =
    let p = k.threads prev in
    if is_zombie p.state then k else put_thread k prev (record p { state = running })

unfoldable pub schedule : (ℕ → Bool) → Kernel → ℕ → Option Kernel
schedule try_lock k cpu_id =
    let prev = (k.cores cpu_id).curr_thread in
    elim (get_next_thread try_lock (requeue_running k cpu_id) cpu_id) [
      | none ↦ none
      | some n ↦ some (if prev == n.0 then keep_running n.1 prev else switch_to n.1 cpu_id prev n.0)
    ]

-- The `while` of `tick` over the sleepers, at most `rounds` of them. `MinHeap<Thread*>` compares
-- addresses.
unfoldable pub wake_sleepers : ℕ → Kernel → ℕ → Kernel
wake_sleepers zero k cpu_id = k
wake_sleepers (suc rounds) k cpu_id =
    let core = k.cores cpu_id in
    elim (extract_min (λ (t : ℕ). t) core.sleeping_queue) [
      | none ↦ k
      | some s ↦
          let t = k.threads s.0 in
          let k1 =
            put_thread (put_core k cpu_id (record core { sleeping_queue = s.1 })) s.0
              (record t { state = ready; quantum = time_slice t.priority }) in
          let rest = wake_sleepers rounds (push_ready shl_int k1 cpu_id s.0) cpu_id in
          if ltb core.current_ticks t.wake_time_ticks then k else rest
    ]

-- The thread becomes ready on its own core; `here` is the core that runs.
unfoldable pub unblock : Kernel → ℕ → ℕ → Kernel
unblock k here t =
    let thread = k.threads t in
    let target = thread.cpu in
    let thread' = record thread {
      state = ready;
      quantum = if leb thread.quantum 0 then time_slice thread.priority else thread.quantum;
    } in
    let k1 = push_ready shl_int (put_thread k t thread') target t in
    let core = k1.cores target in
    let k2 = put_core k1 target (record core { reschedule_needed = true }) in
    if is_ready thread.state
    then k
    else if (core.curr_thread == core.idle_thread)
        || ltb thread.priority (k1.threads core.curr_thread).priority
    then (if target == here then k2 else record k2 { ipis = target ∷ k2.ipis })
    else k1

-- Good behaviour: a thread that gives up more than half of its slice rises by a level.
unfoldable pub rewarded : Thread → Thread
rewarded t =
    let max_slice = time_slice t.priority in
    let used = sub16 max_slice t.quantum in
    if ltb used (max_slice / 2) && ltb 0 t.priority
    then record t { priority = t.priority - 1 }
    else t

unfoldable pub yield : (ℕ → Bool) → Kernel → ℕ → Option Kernel
yield try_lock k cpu_id =
    let core = k.cores cpu_id in
    let curr = core.curr_thread in
    let t = rewarded (record (k.threads curr) { state = ready }) in
    if core.active_queues_bitmap == 0
    then some k
    else schedule try_lock (push_ready shl_int (put_thread k curr t) cpu_id curr) cpu_id

unfoldable pub block : (ℕ → Bool) → Kernel → ℕ → Option Kernel
block try_lock k cpu_id =
    let curr = (k.cores cpu_id).curr_thread in
    let t = rewarded (k.threads curr) in
    schedule try_lock
      (put_thread k curr (record t { quantum = time_slice t.priority; state = blocked })) cpu_id

unfoldable pub sleep : (ℕ → Bool) → Kernel → ℕ → ℕ → Option Kernel
sleep try_lock k cpu_id ms =
    let core = k.cores cpu_id in
    let curr = core.curr_thread in
    let t = record (k.threads curr) {
      wake_time_ticks = (core.current_ticks + ms) % 2 ^ 64;
      state = sleeping;
    } in
    let core' = record core { sleeping_queue = insert (λ (t : ℕ). t) core.sleeping_queue curr } in
    if ms == 0
    then yield try_lock k cpu_id
    else schedule try_lock (put_core (put_thread k curr t) cpu_id core') cpu_id

unfoldable pub terminate : (ℕ → Bool) → Kernel → ℕ → Option Kernel
terminate try_lock k cpu_id =
    let core = k.cores cpu_id in
    let curr = core.curr_thread in
    let t = record (k.threads curr) {
      state = zombie;
      last_run_timestamp = core.current_ticks;
      linked = true;
    } in
    let k1 =
      record (put_core (put_thread k curr t) cpu_id
        (record core { zombie_list = core.zombie_list ++ curr ∷ [] })) {
          corrupted = k.corrupted || is_queued k.total_cores k.cores curr;
        } in
    elim (get_next_thread try_lock k1 cpu_id) [
      | none ↦ none
      | some n ↦
          let next = n.0 in
          let k2 = n.1 in
          let core2 = load_map (k2.cores cpu_id) (k2.threads curr).owner (k2.threads next).owner in
          some (
            put_thread (put_core k2 cpu_id (record core2 { curr_thread = next })) next
              (record (k2.threads next) { state = running }))
    ]

-- The part of `tick` that counts, wakes the sleepers and the reaper.
unfoldable pub tick_wakes : Kernel → ℕ → Kernel
tick_wakes k cpu_id =
    let core = record (k.cores cpu_id) {
      current_ticks = ((k.cores cpu_id).current_ticks + 1) % 2 ^ 64;
    } in
    let k1 = wake_sleepers (length core.sleeping_queue) (put_core k cpu_id core) cpu_id in
    let core1 = k1.cores cpu_id in
    elim core1.reaper_thread [
      | none ↦ k1
      | some reaper ↦
          if (core1.current_ticks % grim_reaper_interval == 0)
            && (ltb 0 (length core1.zombie_list) && not (is_ready (k1.threads reaper).state))
          then unblock k1 cpu_id reaper
          else k1
    ]

-- The slice of the running thread is used up: it goes down by a level and waits again.
unfoldable pub demoted : Thread → Thread
demoted t =
    let priority = if ltb t.priority (mlfq_levels - 1) then t.priority + 1 else t.priority in
    record t { priority = priority; quantum = time_slice priority; state = ready }

unfoldable pub tick : (ℕ → Bool) → Kernel → ℕ → Option Kernel
tick try_lock k cpu_id =
    let k1 = tick_wakes k cpu_id in
    let core = k1.cores cpu_id in
    let curr = core.curr_thread in
    let t = k1.threads curr in
    let t' = record t { quantum = t.quantum - 1 } in
    let waiting = not (core.active_queues_bitmap == 0) in
    if curr == core.idle_thread
    then (if waiting then schedule try_lock k1 cpu_id else some k1)
    else if leb t'.quantum 0
    then schedule try_lock (push_ready shl_uint (put_thread k1 curr (demoted t')) cpu_id curr)
        cpu_id
    else if waiting && ltb (ctz 64 core.active_queues_bitmap) t'.priority
    then schedule try_lock (put_thread k1 curr t') cpu_id
    else some (put_thread k1 curr t')
