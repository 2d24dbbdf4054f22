-- ===== src/Scheduler/State.antt =====
-- The state of kernel/src/task/scheduler.cpp: threads, the scheduler of each core together with the
-- fields of `PerCpuData` that it uses, and the bits of its bitmap. A thread and a process are
-- numbers, their addresses; an intrusive list is the list of its threads.
use noise_v.Base.{
  ℕ, ◌+◌, ◌-◌, ◌%◌, ◌^◌, bit_and, Bool, true, false, Option, List, [], ◌∷◌, ◌==◌, if◌then◌else◌,
  get_or, replicate,
}
use noise_v.Pcid.{PcidManager}

abbrev pub mlfq_levels : ℕ
mlfq_levels = 64

abbrev pub grim_reaper_interval : ℕ
grim_reaper_interval = 2000

abbrev pub time_slice_quanta : List ℕ
time_slice_quanta =
    10 ∷ 11 ∷ 12 ∷ 13 ∷ 15 ∷ 16 ∷ 18 ∷ 19 ∷ 21 ∷ 24 ∷ 26 ∷ 29 ∷ 31 ∷ 35 ∷ 38 ∷ 42 ∷ 46 ∷ 51 ∷ 56
    ∷ 61 ∷ 67 ∷ 74 ∷ 81 ∷ 90 ∷ 98 ∷ 108 ∷ 119 ∷ 131 ∷ 144 ∷ 159 ∷ 174 ∷ 192 ∷ 211 ∷ 232 ∷ 255 ∷ 281
    ∷ 309 ∷ 340 ∷ 374 ∷ 411 ∷ 453 ∷ 498 ∷ 548 ∷ 602 ∷ 663 ∷ 729 ∷ 802 ∷ 882 ∷ 970 ∷ 1067 ∷ 1174
    ∷ 1291 ∷ 1420 ∷ 1562 ∷ 1719 ∷ 1891 ∷ 2080 ∷ 2288 ∷ 2516 ∷ 2768 ∷ 3045 ∷ 3349 ∷ 3684 ∷ 4053 ∷ []

abbrev pub time_slice : ℕ → ℕ
time_slice priority = get_or time_slice_quanta priority 0

pub data ThreadState : Type 0 where
  ready : ThreadState
  running : ThreadState
  blocked : ThreadState
  sleeping : ThreadState
  zombie : ThreadState

abbrev pub is_ready : ThreadState → Bool
is_ready ready = true
is_ready running = false
is_ready blocked = false
is_ready sleeping = false
is_ready zombie = false

abbrev pub is_running : ThreadState → Bool
is_running ready = false
is_running running = true
is_running blocked = false
is_running sleeping = false
is_running zombie = false

abbrev pub is_zombie : ThreadState → Bool
is_zombie ready = false
is_zombie running = false
is_zombie blocked = false
is_zombie sleeping = false
is_zombie zombie = true

-- `linked` is `is_linked<SchedulerTag>`: whether the node's `next` is another node. Popping and
-- erasing do not write the node, so only `remove` makes it false again.
pub record Thread : Type 0 where
  pub cpu : ℕ
  pub state : ThreadState
  pub priority : ℕ
  pub quantum : ℕ
  pub wake_time_ticks : ℕ
  pub wait_start_timestamp : ℕ
  pub last_run_timestamp : ℕ
  pub owner : Option ℕ
  pub linked : Bool

-- `loaded` lists the calls of `PageMap::load`, the latest first: process, identifier, flush.
pub record Core : Type 0 where
  pub ready_queue : List (List ℕ)
  pub active_queues_bitmap : ℕ
  pub current_ticks : ℕ
  pub zombie_list : List ℕ
  pub sleeping_queue : List ℕ
  pub curr_thread : ℕ
  pub idle_thread : ℕ
  pub reaper_thread : Option ℕ
  pub reschedule_needed : Bool
  pub pcid_manager : PcidManager
  pub loaded : List (ℕ × ℕ × Bool)

-- `ipis` lists the cores that an IPI was sent to, `freed` the threads that were deleted. `corrupted` tells
-- whether a thread was linked into a ready queue or the zombies while it stood in such a list: its one
-- node is then written again, and the lists of the source are no longer the lists of this state.
pub record Kernel : Type 0 where
  pub cores : ℕ → Core
  pub threads : ℕ → Thread
  pub total_cores : ℕ
  pub process_threads : ℕ → List ℕ
  pub ipis : List ℕ
  pub freed : List ℕ
  pub corrupted : Bool

abbrev pub put_core : Kernel → ℕ → Core → Kernel
put_core k i core = record k { cores = λ j. if i == j then core else k.cores j }

abbrev pub put_thread : Kernel → ℕ → Thread → Kernel
put_thread k i t = record k { threads = λ j. if i == j then t else k.threads j }

abbrev pub queue : Core → ℕ → List ℕ
queue core p = get_or core.ready_queue p []

-- `1 << p` and `1u << p`, whose counts the processor takes modulo 32; the first is an `int` and is
-- sign-extended to the 64 bits of the bitmap.
abbrev pub shl_uint : ℕ → ℕ
shl_uint p = 2 ^ (p % 32)

abbrev pub shl_int : ℕ → ℕ
shl_int p = if p % 32 == 31 then 2 ^ 64 - 2 ^ 31 else 2 ^ (p % 32)

-- `&= ~(1u << p)`: the complement is taken in 32 bits and zero-extended.
unfoldable pub mask_out : ℕ → ℕ → ℕ
mask_out bitmap p = bit_and bitmap (2 ^ 32 - 1 - shl_uint p)

abbrev pub sub16 : ℕ → ℕ → ℕ
sub16 a b = (a + 2 ^ 16 - b) % 2 ^ 16

-- A new scheduler; its timers and its interrupt handler are the platform's.
unfoldable pub init_core : Core → Core
init_core core = record core { active_queues_bitmap = 0; ready_queue = replicate mlfq_levels [] }
