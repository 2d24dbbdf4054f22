-- ===== src/Heap/Release.antt =====
-- `flush` and `free` of kernel/src/memory/heap.cpp. `none` is the panic of an invalid pointer. `flush`
-- does not test what the map gives for a buffered pointer, and a null header is one at the address 0.
use noise_v.Base.{
  ℕ, zero, suc, ◌+◌, ◌-◌, ◌%◌, ◌^◌, not, ◌&&◌, Option, none, some, List, [], ◌∷◌, ltb, leb, ◌==◌,
  if◌then◌else◌, length,
}
use noise_v.Heap.{put, map_get, base_of, tlb_lookup, tlb_insert, SlubAllocator}
use noise_v.Heap.Headers.{num_classes, free_batch_size, set_slab, list_add, list_remove}
use noise_v.Heap.Slub.{set_cache, free_large}

-- One object of `flush` goes back to the free list of its slab.
unfoldable pub put_object : SlubAllocator → ℕ → ℕ → SlubAllocator
put_object h ptr s =
    let slab = h.slabs s in
    record (set_slab h s
      (record slab { freelist = ptr; in_use = (slab.in_use + (2 ^ 16 - 1)) % 2 ^ 16 })) {
        words = put h.words ptr slab.freelist;
      }

-- The slab changes its list.
unfoldable pub relist : SlubAllocator → ℕ → ℕ → SlubAllocator
relist h idx s =
    let slab = h.slabs s in
    let added = list_add h.slabs (h.partial idx) s in
    let removed = list_remove h.slabs (h.partial idx) s in
    let emptied = list_add removed.1 (h.empty idx) s in
    if slab.in_use + 1 == slab.total
    then record h { partial = put h.partial idx added.0; slabs = added.1 }
    else if slab.in_use == 0
    then record h {
      partial = put h.partial idx removed.0;
      empty = put h.empty idx emptied.0;
      slabs = emptied.1;
    }
    else h

unfoldable pub give_back : SlubAllocator → ℕ → ℕ → ℕ → SlubAllocator
give_back h idx ptr s = relist (put_object h ptr s) idx s

-- The loop of `flush` over the buffer, the oldest first.
unfoldable pub flush_loop : SlubAllocator → ℕ → List ℕ → ℕ → ℕ → SlubAllocator
flush_loop h idx [] last_slab last_page_base = h
flush_loop h idx (ptr ∷ ptrs) last_slab last_page_base =
    let s = if base_of ptr == last_page_base then last_slab else map_get h.map ptr in
    flush_loop (give_back h idx ptr s) idx ptrs s (base_of ptr)

abbrev pub reversed : List ℕ → List ℕ → List ℕ
reversed [] ys = ys
reversed (x ∷ xs) ys = reversed xs (x ∷ ys)

unfoldable pub flush : SlubAllocator → ℕ → ℕ → SlubAllocator
flush h cpu idx =
    let h1 = flush_loop h idx (reversed ((h.cpu_caches cpu).free_buf idx) []) 0 0 in
    let cache = h1.cpu_caches cpu in
    set_cache h1 cpu (record cache { free_buf = put cache.free_buf idx [] })

-- `free_buf[free_count++] = ptr`
unfoldable pub buffer : SlubAllocator → ℕ → ℕ → ℕ → SlubAllocator
buffer h cpu idx ptr =
    let cache = h.cpu_caches cpu in
    set_cache h cpu (record cache { free_buf = put cache.free_buf idx (ptr ∷ cache.free_buf idx) })

-- The first of the active slabs, `rounds` of them from `i` on, that has the page.
unfoldable pub find_active : SlubAllocator → ℕ → ℕ → ℕ → ℕ → ℕ
find_active h cpu zero i page_base = 0
find_active h cpu (suc rounds) i page_base =
    let active = (h.cpu_caches cpu).active i in
    let rest = find_active h cpu rounds (i + 1) page_base in
    if not (active == 0) && ((h.slabs active).page_addr == page_base) then active else rest

-- `s` from the cache, an active slab or the map.
unfoldable pub find_slab : SlubAllocator → ℕ → ℕ → ℕ
find_slab h cpu ptr =
    let s = tlb_lookup (h.cpu_caches cpu).tlb ptr in
    let active = find_active h cpu num_classes 0 (base_of ptr) in
    if not (s == 0) then s else if not (active == 0) then active else map_get h.map ptr

-- With a miss the cache is told.
unfoldable pub remember : SlubAllocator → ℕ → ℕ → ℕ → SlubAllocator
remember h cpu ptr s =
    let cache = h.cpu_caches cpu in
    if tlb_lookup cache.tlb ptr == 0
    then set_cache h cpu (record cache { tlb = tlb_insert cache.tlb ptr s })
    else h

unfoldable pub free_slow : SlubAllocator → ℕ → ℕ → Option SlubAllocator
free_slow h cpu ptr =
    let s = find_slab h cpu ptr in
    let h1 = remember h cpu ptr s in
    let idx = (h1.slabs s).size_class in
    if s == 0
    then none
    else if not ((h1.slabs s).is_large == 0)
    then some (free_large h1 s ptr)
    else if leb free_batch_size (length ((h1.cpu_caches cpu).free_buf idx))
    then some (buffer (flush h1 cpu idx) cpu idx ptr)
    else some (buffer h1 cpu idx ptr)

unfoldable pub free : SlubAllocator → ℕ → ℕ → Option SlubAllocator
free h cpu ptr =
    let s = tlb_lookup (h.cpu_caches cpu).tlb ptr in
    let idx = (h.slabs s).size_class in
    if ptr == 0
    then some h
    else if not (s == 0) && ltb (length ((h.cpu_caches cpu).free_buf idx)) free_batch_size
    then some (buffer h cpu idx ptr)
    else free_slow h cpu ptr
