-- ===== src/Scheduler/Queues.antt =====
-- The ready queues of kernel/src/task/scheduler.cpp. `none` stands for the undefined behaviour of
-- taking the front of an empty list.
use noise_v.Base.{
  ℕ, zero, suc, ◌+◌, ◌-◌, ◌%◌, bit_or, bit_xor, Bool, true, false, not, ◌||◌, Option, none, some,
  List, [], ◌∷◌, ◌++◌, ltb, leb, ◌==◌, if◌then◌else◌, length, get_or, set,
}
use noise_v.Base.Words.{ctz}
use noise_v.MinHeap.{but_last}
use noise_v.Scheduler.State.{
  ready, Thread, Core, Kernel, put_core, put_thread, queue, shl_uint, shl_int, mask_out, time_slice,
  mlfq_levels,
}

abbrev pub is_in : ℕ → List ℕ → Bool
is_in t [] = false
is_in t (x ∷ xs) = (x == t) || is_in t xs

abbrev pub in_some : ℕ → List (List ℕ) → Bool
in_some t [] = false
in_some t (q ∷ qs) = is_in t q || in_some t qs

-- Whether the thread stands in a ready queue or among the zombies of one of the first `n` cores.
unfoldable pub is_queued : ℕ → (ℕ → Core) → ℕ → Bool
is_queued zero cores t = false
is_queued (suc n) cores t =
    is_in t (cores n).zombie_list || in_some t (cores n).ready_queue || is_queued n cores t

-- `ready_queue[t->priority].push_back(*t)` of a thread that stands in no list, and the bit of that
-- queue, computed by `shift`.
unfoldable pub push_core : (ℕ → ℕ) → Core → ℕ → ℕ → Core
push_core shift core priority t = record core {
  ready_queue = set core.ready_queue priority (queue core priority ++ t ∷ []);
  active_queues_bitmap = bit_or core.active_queues_bitmap (shift priority);
}

-- A thread that stands in a list already makes the state `corrupted`.
unfoldable pub push_ready : (ℕ → ℕ) → Kernel → ℕ → ℕ → Kernel
push_ready shift k cpu_id t =
    record (put_thread
      (put_core k cpu_id (push_core shift (k.cores cpu_id) (k.threads t).priority t)) t
      (record (k.threads t) { linked = true })) {
        corrupted = k.corrupted || is_queued k.total_cores k.cores t;
      }

-- The fields that `add_thread` sets before it takes the lock.
unfoldable pub prepared : Thread → ℕ → Thread
prepared t cpu_id =
    let priority = if leb mlfq_levels t.priority then mlfq_levels - 1 else t.priority in
    record t {
      priority = priority;
      quantum = if leb t.quantum 0 then time_slice priority else t.quantum;
      state = ready;
      cpu = cpu_id;
    }

-- On the scheduler of core `cpu_id`, called on core `here`.
unfoldable pub add_thread : Kernel → ℕ → ℕ → ℕ → Kernel
add_thread k cpu_id here t =
    let k1 = put_thread k t (prepared (k.threads t) cpu_id) in
    let k2 = push_ready shl_int k1 cpu_id t in
    let core = k2.cores cpu_id in
    let k3 = put_core k2 cpu_id (record core { reschedule_needed = true }) in
    if (k.threads t).linked
    then k1
    else if ltb (k2.threads t).priority (k2.threads core.curr_thread).priority
    then (if not (here == cpu_id) then record k3 { ipis = cpu_id ∷ k3.ipis } else k3)
    else k2

abbrev pub is_empty : List ℕ → Bool
is_empty [] = true
is_empty (x ∷ xs) = false

-- The front of the first queue whose bit is set, and the queues after it was popped.
unfoldable pub pop_highest : Core → Option (ℕ × Core)
pop_highest core =
    let highest_prio = ctz 64 core.active_queues_bitmap in
    elim (queue core highest_prio) [
      | [] ↦ none
      | t ∷ rest ↦ some (
        t,
        record core {
          ready_queue = set core.ready_queue highest_prio rest;
          active_queues_bitmap =
              (if is_empty rest
                then bit_xor core.active_queues_bitmap (shl_uint highest_prio)
                else core.active_queues_bitmap);
        },
      )
    ]

-- What the lock of a victim protects in `try_steal`.
unfoldable pub steal_tail : Core → Option (ℕ × Core)
steal_tail core =
    let p = ctz 64 core.active_queues_bitmap in
    elim (queue core p) [
      | [] ↦ none
      | x ∷ xs ↦
          let rest = but_last (x ∷ xs) in
          if core.active_queues_bitmap == 0
          then none
          else some (
            get_or (x ∷ xs) (length xs) x,
            record core {
              ready_queue = set core.ready_queue p rest;
              active_queues_bitmap =
                  (if is_empty rest
                    then mask_out core.active_queues_bitmap p
                    else core.active_queues_bitmap);
            },
          )
    ]

-- The `for` of `try_steal` from `i` on, with `rounds` to go; `try_lock` tells which locks it gets.
unfoldable pub steal_loop : (ℕ → Bool) → ℕ → ℕ → Kernel → ℕ → Option (ℕ × Kernel)
steal_loop try_lock zero i k cpu_id = none
steal_loop try_lock (suc rounds) i k cpu_id =
    let rest = steal_loop try_lock rounds (i + 1) k cpu_id in
    let victim_id = (cpu_id + i) % k.total_cores in
    if victim_id == cpu_id
    then rest
    else if not (try_lock victim_id)
    then rest
    else elim (steal_tail (k.cores victim_id)) [
      | none ↦ rest
      | some s ↦
          some (
            s.0,
            put_thread (put_core k victim_id s.1) s.0 (record (k.threads s.0) { cpu = cpu_id }),
          )
    ]

unfoldable pub try_steal : (ℕ → Bool) → Kernel → ℕ → Option (ℕ × Kernel)
try_steal try_lock k cpu_id = steal_loop try_lock k.total_cores 0 k cpu_id

unfoldable pub get_next_thread : (ℕ → Bool) → Kernel → ℕ → Option (ℕ × Kernel)
get_next_thread try_lock k cpu_id =
    let core = k.cores cpu_id in
    if not (core.active_queues_bitmap == 0)
    then (elim (pop_highest core) [ none ↦ none | some p ↦ some (p.0, put_core k cpu_id p.1) ])
    else elim (try_steal try_lock k cpu_id) [ none ↦ some (core.idle_thread, k) | some s ↦ some s ]

unfoldable pub check_for_higher_priority : Core → ℕ → Bool
check_for_higher_priority core zero = false
check_for_higher_priority core (suc n) =
    let earlier = check_for_higher_priority core n in
    if earlier then true else not (is_empty (queue core n))
