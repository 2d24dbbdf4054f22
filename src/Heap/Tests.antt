-- ===== src/Heap/Tests.antt =====
-- Instances of the theorems on the heap: a heap with one slab of two objects of 2048 bytes, whose header
-- is at 64 and whose page is at 8192, and a large allocation of two pages at 16384 with the header at 128.
use noise_v.Base.{
  ℕ, ◌+◌, ◌*◌, ◌/◌, ◌%◌, ◌^◌, ◌≤◌, ◌<◌, ◌≡◌, refl, ◌⊎◌, true, none, some, [], ◌∷◌, arith, ◌==◌,
  if◌then◌else◌,
}
use noise_v.Align.{align_down}
use noise_v.Heap.{Slab, new_slab, put, map_set, map_get, tlb_lookup, SlubAllocator}
use noise_v.Heap.Headers.{
  blank_cache, bit_width, class_size, get_size_idx, vm_allocate, meta_alloc, bump,
}
use noise_v.Heap.Slub.{allocate, take_object, alloc_large}
use noise_v.Heap.Release.{free, give_back, find_active}
use noise_v.Heap.Radix.{map_get-map_set}
use noise_v.Heap.Objects.{get_size_idx_lem}
use noise_v.Heap.Serves.{total, installed, take_many, fresh_slab_serves}
use noise_v.Heap.Aligned.{aligned_kalloc, aligned_kfree, aligned_kalloc_lem}
use noise_v.Heap.Faults.{large_free_is_remembered}
use noise_v.Heap.RunsDry.{active_slab_runs_dry}

small_slab : Slab
small_slab = record {
  freelist = 0;
  next = 0;
  prev = 0;
  page_addr = 8192;
  in_use = 2;
  total = 2;
  size_class = 7;
  is_large = 0;
}

large_slab : Slab
large_slab = record new_slab { page_addr = 16384; in_use = 2; is_large = 1 }

heap : SlubAllocator
heap = record {
  slabs = put (put (λ i. new_slab) 64 small_slab) 128 large_slab;
  words = λ i. 0;
  map = map_set (map_set none 8192 64) 16384 128;
  partial = λ i. 0;
  empty = λ i. 0;
  cpu_caches = λ i. record blank_cache { active = put (λ i. 0) 7 64 };
  meta = record { head = 4096; offset = 128; free_pool = 0 };
  initialized = true;
  supply = 32768 ∷ [];
  requested = [];
  returned = [];
}

map_get-map_set_example :
    map_get (map_set heap.map 20480 192) 8200
    ≡ (if 20480 / 2 ^ 12 % 2 ^ 36 == 8200 / 2 ^ 12 % 2 ^ 36 then 192 else map_get heap.map 8200)
map_get-map_set_example = map_get-map_set heap.map 20480 8200 192

get_size_idx_lem_example :
    ((2048 < 100) × (get_size_idx 100 ≡ none))
    ⊎ ((idx : ℕ) × (get_size_idx 100 ≡ some idx)
        × (idx < 8)
        × (100 ≤ class_size idx)
        × ((idx ≡ 0) ⊎ (class_size idx < 2 * 100)))
get_size_idx_lem_example = get_size_idx_lem 100

fresh_slab_serves_example :
    ((take_object (take_many 1 (installed heap 192 20480 7) 192) 192).0 ≡ 20480 + 1 * class_size 7)
    × (((take_many 2 (installed heap 192 20480 7) 192).slabs 192).freelist
        ≡ (if 1 + 1 == total heap 192 20480 7 then 0 else 20480 + (1 + 1) * class_size 7))
fresh_slab_serves_example = fresh_slab_serves heap 192 20480 7 1 (omega arith)

active_slab_runs_dry_example :
    let (obj, h2) = allocate (give_back heap 7 8192 64) 0 2000 in
    let (next_obj, h3) = allocate h2 0 2000 in
    (obj ≡ 8192) × (next_obj ≡ 0) × ((h3.slabs 64).freelist ≡ heap.words 0)
unfolding heap small_slab get_size_idx bit_width
active_slab_runs_dry_example =
    active_slab_runs_dry heap 0 2000 7 8192 64 refl refl (omega arith) (omega arith) refl refl refl
      (omega arith) (omega arith) refl

raw_is : (allocate heap 0 (3000 + (2 ^ 6 + 8))).0 ≡ 32768
unfolding heap allocate get_size_idx alloc_large vm_allocate meta_alloc bump
raw_is = refl

aligned_kalloc_lem_example :
    let raw_ptr = (allocate heap 0 (3000 + (2 ^ 6 + 8))).0 in
    let (addr, h') = aligned_kalloc heap 0 3000 (2 ^ 6) in
    (addr % 2 ^ 6 ≡ 0)
    × (raw_ptr + 8 ≤ addr)
    × (addr + 3000 ≤ raw_ptr + (3000 + (2 ^ 6 + 8)))
    × (aligned_kfree h' 0 addr ≡ free h' 0 raw_ptr)
aligned_kalloc_lem_example =
    aligned_kalloc_lem heap 0 3000 6 (omega arith) (λ e. absurd (omega (arith, raw_is, e)))
      (omega (arith, raw_is))

large_free_is_remembered_example :
    (h1 h2 : SlubAllocator) × (free heap 0 16384 ≡ some h1)
    × (h1.returned ≡ 16384 ∷ heap.returned)
    × (free h1 0 16384 ≡ some h2)
    × ((h2.cpu_caches 0).free_buf 0 ≡ 16384 ∷ (heap.cpu_caches 0).free_buf 0)
unfolding heap large_slab small_slab tlb_lookup find_active map_get map_set align_down
large_free_is_remembered_example =
    large_free_is_remembered heap 0 16384 128 (omega arith) (omega arith) (omega arith) refl refl
      refl (omega arith)
