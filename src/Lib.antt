-- ===== src/Lib.antt =====
-- A verification library for the noise kernel (C++, everything under kernel/).
--
-- The parts, and the code that each models:
--
-- Base: what the models share. Tests on numbers (Base/Tests), arrays as lists with native indices
--   (Base/Lists, Base/Perms), binary digits (Base/Digits), 64-bit words as sets of bits with
--   `__builtin_ctzll` and `__builtin_popcountll` (Base/Words), and masks as arithmetic (Base/Masks).
-- Align: kernel/include/libs/math.hpp. `align_up` and its companions on 64-bit operands, wrap-around
--   included. The physical memory manager rounds with them.
-- Ipc: kernel/src/task/ipc.cpp and kernel/include/task/ipc.hpp. Ipc/Port is the ring of messages of
--   `IPCPort` with its two queues of waiting threads; Ipc/Port/Channel is the bounded FIFO channel that
--   it implements (Ipc/Port/Ring). Ipc/Manager is `PortManager`: handles of a slot index and a
--   generation, and the ports as a store behind pointers. Each stretch of code under a lock is one
--   step, and what `receive` does after `block` has returned is a stretch of its own; a thread that the
--   code wakes is part of the reply.
-- Pcid: kernel/src/memory/pcid_manager.cpp, kernel/include/memory/pcid_manager.hpp and
--   kernel/src/arch/x86_64/memory/pcid_manager.cpp. The identifiers of one CPU, with the column of the
--   processes' `pcid_cache` that belongs to it; flushes of the hardware are recorded.
-- MinHeap: kernel/include/libs/min_heap.hpp at its default arity 4, with the comparison given by a key.
--   The loops that sift recurse on fuel: `index + 1` rounds upwards and `size + 1` downwards, more than
--   the hole can move, as the theorems on the operations need it.
-- Scheduler: kernel/src/task/scheduler.cpp, kernel/include/task/scheduler.hpp and the fields that it
--   uses of kernel/include/task/process.hpp and kernel/include/hal/smp_manager.hpp. The state of all
--   cores and threads (Scheduler/State), the ready queues (Scheduler/Queues), the operations up to
--   `context_switch` (Scheduler/Switching) and the periodic work (Scheduler/Maintenance). It calls Pcid
--   when it changes the address space and MinHeap for the sleepers. `yield`, `sleep`, `tick` and the
--   others end in `schedule`, so a call is a function of the state; what follows the switch runs when
--   the thread is chosen again. `try_lock` of `try_steal` is a parameter that tells which locks of
--   other cores it gets. `curr_thread` is never null, as each core runs its idle thread from the start.
--   The shifts `1 << p` and `1u << p` on 32-bit operands, undefined from 32 on, take the count modulo
--   32 as the processor does. Taking the front of an empty list gives `none`. A thread that is linked into a
--   ready queue or the zombies while it stands in such a list has its one node written twice; the state is then
--   marked as corrupted, and what a theorem says of its queues is not said of the code.
-- Pmm: kernel/src/memory/pmm.cpp and kernel/include/memory/pmm.hpp. The bitmap of pages and its summary
--   (Pmm), the caches of the CPUs (Pmm/Cache), the allocations (Pmm/Alloc), the releases and the
--   statistics (Pmm/Free) and the start (Pmm/Init). The lock is a Boolean: a thread that takes it while
--   it holds it never returns, written `none`. The searches for a run recurse on fuel, one more than the
--   page at which they end; for an alignment that is a power of two each round goes on at a later page,
--   so it is enough. `qsort` is a parameter, and the boot loader's memory map an argument.
--
-- IntrusiveList: kernel/include/libs/intrusive_list.hpp. Nodes are addresses with two maps for their
--   fields, and each operation is its writes in their order. A chain of nodes stands for a list
--   (IntrusiveList/Chain). The scheduler and the ports take their queues as such lists.
-- Deque: kernel/include/libs/deque.hpp. The map of blocks is a function to blocks or null, and an
--   access through null or past the map is a failure (Deque). Deque/Content says which list a deque
--   holds; the two ends stand in Deque/Back and Deque/Front, `clear` and `resize` in Deque/Resize,
--   sequences of calls in Deque/Runs, iterators with `operator[]` and the copy constructor in
--   Deque/Iterator. Where `operator new` puts the blocks is a parameter, as iterators are compared by
--   address. The fuel of a traversal is one more than the entries, which is enough whenever it ends at all.
-- Vector: kernel/include/libs/vector.hpp for trivially copyable entries, with the success of `operator new`
--   as a parameter: growth (Vector/Growth), the erasures (Vector/Erase) and `remove` (Vector/Remove), whose
--   value may be an entry of the vector.
-- Locks: kernel/include/libs/spinlock.hpp. The ticket lock (Locks/Spin) and the readers-writer lock
--   (Locks/Rw) are step relations with one memory access a step, under sequential consistency; the
--   processors that hold tickets are a queue (Locks/Queue), which both use, and tickets wrap at 2^64.
--   For the readers-writer lock runs of fewer than 2^64 steps are considered, as `is_locked` of a
--   reader compares two loads that a full round of tickets between them would confuse. Locks/Irq has the
--   locks that save the interrupt flag, Locks/Guard has `LockGuard` on a store of guards.
-- Mutex: kernel/src/libs/mutex.cpp and kernel/include/libs/mutex.hpp. Threads that load, exchange, queue and
--   sleep, as a step relation. The stretches under `queue_lock` are one step each, which Locks
--   allows. What `unblock` does to a thread before it sleeps depends on the scheduler and is open.
--
-- Heap: kernel/src/memory/heap.cpp and kernel/include/memory/heap.hpp. The headers, the map from pages to
--   headers and the caches of the processors are in Heap, the allocator of headers and the lists of slabs in
--   Heap/Headers, `allocate` and what it calls in Heap/Slub, `flush` and `free` in Heap/Release, the aligned
--   allocations in Heap/Aligned. Each operation is one step, and `none` is the panic on an unknown pointer.
--   The pages that `VirtualManager` gives are a list, and what it is asked and given back is recorded.
--   `std::bit_width` recurses on 64 digits, all that a size has. Heap/Radix is the map, Heap/Objects the
--   size classes, Heap/Serves a new slab; Heap/RunsDry follows the slab that a processor uses through a
--   flush, Heap/Faults a large allocation through `free`. The chain of the pages of headers is not kept, as
--   no code reads it. A null pointer is the address 0, and what stands at it is read like any other word or
--   header.
--
-- Not modelled: code that only reads and writes device registers, page tables in memory and processor
-- state (kernel/src/arch, kernel/src/hal, kernel/src/memory/vmm.cpp), the boot and C++ runtime glue
-- (kernel/src/boot, kernel/src/__support), the process loader (kernel/src/task/process.cpp), logging, and
-- the vendored headers kernel/include/libs/elf.h and kernel/include/boot/limine.h. Nor are the
-- areas of virtual memory (kernel/src/memory/vma.cpp and user_address_space.cpp). Of the deque, `emplace`, `insert`, `erase` and the assignments are not
-- modelled, and of the vector the loops for entries that are not trivially copyable.
pub mod Base
pub mod Align
pub mod Ipc
pub mod Pcid
pub mod MinHeap
pub mod Scheduler
pub mod Pmm
pub mod IntrusiveList
pub mod Deque
pub mod Vector
pub mod Locks
pub mod Mutex
pub mod Heap
