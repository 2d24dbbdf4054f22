-- ===== src/Scheduler/Maintenance.antt =====
-- The periodic work of kernel/src/task/scheduler.cpp: the boost, the scan for starving threads and
-- the reaping of dead ones.
use noise_v.Base.{
  ℕ, zero, suc, ◌+◌, ◌-◌, ◌^◌, bit_and, bit_or, true, not, ◌&&◌, none, some, List, [], ◌∷◌, ◌++◌,
  ltb, leb, ◌==◌, if◌then◌else◌, get_or, set,
}
use noise_v.Base.Words.{sub64}
use noise_v.MinHeap.{remove_if}
use noise_v.Scheduler.State.{
  Kernel, put_core, put_thread, queue, shl_uint, mask_out, time_slice, mlfq_levels,
}
use noise_v.Scheduler.Queues.{is_empty}

-- The `while` that empties a queue into queue 0.
unfoldable pub boost_queue : Kernel → ℕ → List ℕ → Kernel
boost_queue k cpu_id [] = k
boost_queue k cpu_id (t ∷ rest) =
    let core = k.cores cpu_id in
    boost_queue
      (put_thread
        (put_core k cpu_id
          (record core { ready_queue = set core.ready_queue 0 (queue core 0 ++ t ∷ []) }))
        t (record (k.threads t) { priority = 0; quantum = time_slice 0; linked = true }))
      cpu_id rest

-- One level of the `for` of `boost_all`.
unfoldable pub boost_level : Kernel → ℕ → ℕ → Kernel
boost_level k cpu_id i =
    let core = k.cores cpu_id in
    let emptied = record core { ready_queue = set core.ready_queue i [] } in
    let k1 = boost_queue (put_core k cpu_id emptied) cpu_id (queue core i) in
    let core1 = k1.cores cpu_id in
    if bit_and core.active_queues_bitmap (shl_uint i) == 0
    then k
    else put_core k1 cpu_id
        (record core1 { active_queues_bitmap = mask_out core1.active_queues_bitmap i })

unfoldable pub boost_levels : ℕ → ℕ → Kernel → ℕ → Kernel
boost_levels zero i k cpu_id = k
boost_levels (suc rounds) i k cpu_id = boost_levels rounds (i + 1) (boost_level k cpu_id i) cpu_id

unfoldable pub boost_curr : Kernel → ℕ → Kernel
boost_curr k cpu_id =
    let core = k.cores cpu_id in
    let t = k.threads core.curr_thread in
    if not (core.curr_thread == core.idle_thread) && not (t.priority == 0)
    then put_thread k core.curr_thread (record t { priority = 0; quantum = time_slice 0 })
    else k

-- `~1u` is zero-extended to the 64 bits of the bitmap.
unfoldable pub boost_all : Kernel → ℕ → Kernel
boost_all k cpu_id =
    let moved = boost_levels (mlfq_levels - 1) 1 k cpu_id in
    let core = moved.cores cpu_id in
    if bit_and (k.cores cpu_id).active_queues_bitmap (2 ^ 32 - 2) == 0
    then boost_curr k cpu_id
    else boost_curr
        (put_core moved cpu_id
          (record core { active_queues_bitmap = bit_or core.active_queues_bitmap 1 }))
        cpu_id

abbrev pub starvation_threshold : ℕ
starvation_threshold = 500

-- A starving thread leaves the queue of `prio`, of which `left` stays, for queue 0.
unfoldable pub rescue : Kernel → ℕ → ℕ → ℕ → List ℕ → Kernel
rescue k cpu_id prio t left =
    let core = k.cores cpu_id in
    let queues = set core.ready_queue prio left in
    let bits = bit_or core.active_queues_bitmap (shl_uint 0) in
    put_thread
      (put_core k cpu_id (record core {
        ready_queue = set queues 0 (get_or queues 0 [] ++ t ∷ []);
        active_queues_bitmap = if is_empty left then mask_out bits prio else bits;
      }))
      t
      (record (k.threads t) {
        priority = 0;
        wait_start_timestamp = core.current_ticks;
        linked = true;
      })

-- The `while` over one queue: `kept` was passed, the last argument is still to be visited.
unfoldable pub scan_queue : Kernel → ℕ → ℕ → List ℕ → List ℕ → Kernel
scan_queue k cpu_id prio kept [] = k
scan_queue k cpu_id prio kept (t ∷ rest) =
    let left = kept ++ rest in
    let k1 = rescue k cpu_id prio t left in
    let now = (k.cores cpu_id).current_ticks in
    let stay = scan_queue k cpu_id prio (kept ++ t ∷ []) rest in
    let go_on = scan_queue k1 cpu_id prio kept rest in
    if ltb starvation_threshold (sub64 now (k.threads t).wait_start_timestamp)
    then (if is_empty left then k1 else go_on)
    else stay

unfoldable pub scan_levels : ℕ → ℕ → Kernel → ℕ → Kernel
scan_levels zero prio k cpu_id = k
scan_levels (suc rounds) prio k cpu_id =
    let core = k.cores cpu_id in
    let k1 =
      if bit_and core.active_queues_bitmap (shl_uint prio) == 0
      then k
      else scan_queue k cpu_id prio [] (queue core prio) in
    scan_levels rounds (prio + 1) k1 cpu_id

unfoldable pub scan_for_starvation : Kernel → ℕ → Kernel
scan_for_starvation k cpu_id = scan_levels (mlfq_levels - 1) 1 k cpu_id

-- What happens to one thread of the death row.
unfoldable pub reap : Kernel → ℕ → ℕ → Kernel
reap k cpu_id t =
    let core = k.cores cpu_id in
    let thread = k.threads t in
    let k1 : Kernel = elim thread.owner [
      | none ↦ k
      | some p ↦ record k {
        process_threads = λ q.
            if p == q then remove_if (λ u. u == t) (k.process_threads p) else k.process_threads q;
      }
    ] in
    if leb (sub64 core.current_ticks thread.last_run_timestamp) 1
    then put_core k cpu_id (record core { zombie_list = core.zombie_list ++ t ∷ [] })
    else record k1 { freed = t ∷ k1.freed }

unfoldable pub reap_row : Kernel → ℕ → List ℕ → Kernel
reap_row k cpu_id [] = k
reap_row k cpu_id (t ∷ row) = reap_row (reap k cpu_id t) cpu_id row

unfoldable pub reap_zombies : Kernel → ℕ → Kernel
reap_zombies k cpu_id =
    let core = k.cores cpu_id in
    reap_row (put_core k cpu_id (record core { zombie_list = [] })) cpu_id core.zombie_list
