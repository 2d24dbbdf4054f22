-- ===== src/Heap/Faults.antt =====
-- Large allocations and the page caches of kernel/src/memory/heap.cpp.
use noise_v.Base.{ℕ, ◌<◌, ◌≡◌, ◌≢◌, refl, ◌∙◌, true, false, some, ◌∷◌, arith, ltb, ◌==◌, length}
use noise_v.Heap.{SlubAllocator, map_get, tlb_lookup, tlb_insert, base_of}
use noise_v.Heap.Headers.{meta_free, vm_free}
use noise_v.Heap.Slub.{set_cache, free_large}
use noise_v.Heap.Release.{free, free_slow, find_slab, find_active, remember, buffer}

tlb_lookup-insert : (entries : _) (addr s : ℕ) → tlb_lookup (tlb_insert entries addr s) addr ≡ s
unfolding tlb_lookup tlb_insert
tlb_lookup-insert entries addr s = ground arith

abbrev remembered : SlubAllocator → ℕ → ℕ → ℕ → SlubAllocator
remembered h cpu ptr s =
    let cache = h.cpu_caches cpu in
    set_cache h cpu (record cache { tlb = tlb_insert cache.tlb ptr s })

remember_miss :
    (h : SlubAllocator) (cpu ptr s : ℕ)
    → tlb_lookup (h.cpu_caches cpu).tlb ptr ≡ 0
    → remember h cpu ptr s ≡ remembered h cpu ptr s
unfolding remember
remember_miss h cpu ptr s miss = rw miss refl

find_slab_map :
    (h : SlubAllocator) (cpu ptr s : ℕ)
    → tlb_lookup (h.cpu_caches cpu).tlb ptr ≡ 0
    → find_active h cpu 8 0 (base_of ptr) ≡ 0
    → map_get h.map ptr ≡ s
    → find_slab h cpu ptr ≡ s
unfolding find_slab
find_slab_map h cpu ptr s miss no_active found = rw (miss, no_active, found) refl

free_slow_large :
    (h : SlubAllocator) (cpu ptr s : ℕ)
    → s ≢ 0
    → (h.slabs s).is_large ≢ 0
    → tlb_lookup (h.cpu_caches cpu).tlb ptr ≡ 0
    → find_active h cpu 8 0 (base_of ptr) ≡ 0
    → map_get h.map ptr ≡ s
    → free_slow h cpu ptr ≡ some (free_large (remembered h cpu ptr s) s ptr)
unfolding free_slow
free_slow_large h cpu ptr s there large miss no_active found =
    let live : (s == 0) ≡ false = ground arith in
    let big : ((h.slabs s).is_large == 0) ≡ false = ground arith in
    rw (find_slab_map h cpu ptr s miss no_active found, remember_miss h cpu ptr s miss, live, big)
      refl

free_miss :
    (h : SlubAllocator) (cpu ptr : ℕ)
    → ptr ≢ 0
    → tlb_lookup (h.cpu_caches cpu).tlb ptr ≡ 0
    → free h cpu ptr ≡ free_slow h cpu ptr
unfolding free
free_miss h cpu ptr live miss = let test : (ptr == 0) ≡ false = ground arith in rw (test, miss) refl

free_hit :
    (h : SlubAllocator) (cpu ptr s idx : ℕ)
    → ptr ≢ 0
    → s ≢ 0
    → tlb_lookup (h.cpu_caches cpu).tlb ptr ≡ s
    → (h.slabs s).size_class ≡ idx
    → length ((h.cpu_caches cpu).free_buf idx) < 32
    → free h cpu ptr ≡ some (buffer h cpu idx ptr)
unfolding free
free_hit h cpu ptr s idx live there hit class room =
    let test : (ptr == 0) ≡ false = ground arith in
    let known : (s == 0) ≡ false = ground arith in
    let small : ltb (length ((h.cpu_caches cpu).free_buf idx)) 32 ≡ true = ground arith in
    rw (test, hit, known, class, small) refl

-- The first `free` of a large allocation that the processor's cache of pages does not know leaves the
-- header in that cache. A second `free` of the same pointer is then not refused: while there is room
-- the pointer goes into the buffer of the header's class, whose objects are small.
pub large_free_is_remembered :
    (h : SlubAllocator) (cpu ptr s : ℕ)
    → ptr ≢ 0
    → s ≢ 0
    → (h.slabs s).is_large ≢ 0
    → tlb_lookup (h.cpu_caches cpu).tlb ptr ≡ 0
    → find_active h cpu 8 0 (base_of ptr) ≡ 0
    → map_get h.map ptr ≡ s
    → length ((h.cpu_caches cpu).free_buf (h.slabs s).size_class) < 32
    → (h1 h2 : SlubAllocator) × (free h cpu ptr ≡ some h1)
      × (h1.returned ≡ ptr ∷ h.returned)
      × (free h1 cpu ptr ≡ some h2)
      × ((h2.cpu_caches cpu).free_buf (h.slabs s).size_class
          ≡ ptr ∷ (h.cpu_caches cpu).free_buf (h.slabs s).size_class)
unfolding free_large meta_free vm_free buffer
large_free_is_remembered h cpu ptr s live there large miss no_active found room =
    let idx = (h.slabs s).size_class in
    let h1 = free_large (remembered h cpu ptr s) s ptr in
    let self : (cpu == cpu) ≡ true = ground arith in
    let same : (s == s) ≡ true = ground arith in
    let hit : tlb_lookup (h1.cpu_caches cpu).tlb ptr ≡ s =
      rw self (tlb_lookup-insert (h.cpu_caches cpu).tlb ptr s) in
    let class : (h1.slabs s).size_class ≡ idx = rw same refl in
    let left : length ((h1.cpu_caches cpu).free_buf idx) < 32 = rw self room in
    (
      h1,
      buffer h1 cpu idx ptr,
      free_miss h cpu ptr live miss ∙ free_slow_large h cpu ptr s there large miss no_active found,
      refl,
      free_hit h1 cpu ptr s idx live there hit class left,
      rw self (ground arith),
    )
