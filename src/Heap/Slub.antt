-- ===== src/Heap/Slub.antt =====
-- `allocate` of kernel/src/memory/heap.cpp and what it calls, by the members of `SlubAllocator` and
-- `MetadataAllocator`. `cpu` is the number of the processor that calls.
use noise_v.Base.{
  ℕ, zero, suc, ◌+◌, ◌-◌, ◌*◌, ◌/◌, ◌%◌, ◌^◌, not, ◌&&◌, none, some, ◌==◌, if◌then◌else◌,
}
use noise_v.Align.{div_roundup}
use noise_v.Heap.{page_size, put, map_set, CpuCache, SlubAllocator}
use noise_v.Heap.Headers.{
  class_size, get_size_idx, vm_allocate, vm_free, set_slab, meta_alloc, meta_free, list_remove,
}

unfoldable pub take_object : SlubAllocator → ℕ → ℕ × SlubAllocator
take_object h s =
    let slab = h.slabs s in
    let obj = slab.freelist in
    (
      obj,
      set_slab h s (record slab { freelist = h.words obj; in_use = (slab.in_use + 1) % 2 ^ 16 }),
    )

-- The loop that threads the free list, with `rounds` objects to go.
unfoldable pub thread_list : ℕ → ℕ → ℕ → ℕ → (ℕ → ℕ) → ℕ → ℕ
thread_list zero i base size words = words
thread_list (suc rounds) i base size words =
    thread_list rounds (i + 1) base size (put words (base + i * size) (base + (i + 1) * size))

-- The header, the free list and the place in the map of a new slab at `page`.
unfoldable pub install_slab : SlubAllocator → ℕ → ℕ → ℕ → SlubAllocator
install_slab h s page idx =
    let size = class_size idx in
    let total = page_size / size in
    let words = thread_list (total - 1) 0 page size h.words in
    record (set_slab h s (record (h.slabs s) {
      page_addr = page;
      size_class = idx;
      total = total;
      in_use = 0;
      is_large = 0;
      freelist = page;
    })) { words = put words (page + (total - 1) * size) 0; map = map_set h.map page s }

-- A new slab from a new page; the page goes back when there is no header for it.
unfoldable pub grow : SlubAllocator → ℕ → ℕ × SlubAllocator
grow h idx =
    let (page, h1) = vm_allocate h 1 in
    let (s, h2) = meta_alloc h1 in
    if page == 0
    then (0, h1)
    else if s == 0
    then (0, vm_free h2 page)
    else (s, install_slab h2 s page idx)

unfoldable pub refill_slab : SlubAllocator → ℕ → ℕ × SlubAllocator
refill_slab h idx =
    let s = h.partial idx in
    let e = h.empty idx in
    let from_partial = list_remove h.slabs s s in
    let from_empty = list_remove h.slabs e e in
    if not (s == 0)
    then (s, record h { partial = put h.partial idx from_partial.0; slabs = from_partial.1 })
    else if not (e == 0)
    then (e, record h { empty = put h.empty idx from_empty.0; slabs = from_empty.1 })
    else grow h idx

unfoldable pub alloc_large : SlubAllocator → ℕ → ℕ × SlubAllocator
alloc_large h size =
    let pages = div_roundup size page_size in
    let (ptr, h1) = vm_allocate h pages in
    let (s, h2) = meta_alloc h1 in
    let slab = record (h2.slabs s) { page_addr = ptr; is_large = 1; in_use = pages % 2 ^ 16 } in
    if ptr == 0
    then (0, h1)
    else if s == 0
    then (0, vm_free h2 ptr)
    else (ptr, record (set_slab h2 s slab) { map = map_set h2.map ptr s })

unfoldable pub free_large : SlubAllocator → ℕ → ℕ → SlubAllocator
free_large h s ptr = meta_free (vm_free (record h { map = map_set h.map ptr 0 }) ptr) s

abbrev pub set_cache : SlubAllocator → ℕ → CpuCache → SlubAllocator
set_cache h cpu c = record h { cpu_caches = put h.cpu_caches cpu c }

unfoldable pub allocate_small : SlubAllocator → ℕ → ℕ → ℕ × SlubAllocator
allocate_small h cpu idx =
    let cache = h.cpu_caches cpu in
    let active = cache.active idx in
    let (s, h1) = refill_slab h idx in
    let loaded =
      set_cache h1 cpu
        (record (h1.cpu_caches cpu) { active = put (h1.cpu_caches cpu).active idx s }) in
    if not (active == 0) && not ((h.slabs active).freelist == 0)
    then take_object h active
    else if s == 0
    then (0, h1)
    else take_object loaded s

unfoldable pub allocate : SlubAllocator → ℕ → ℕ → ℕ × SlubAllocator
allocate h cpu size = if not h.initialized then (0, h) else elim (get_size_idx size) [
  | none ↦ alloc_large h size
  | some idx ↦ allocate_small h cpu idx
]
