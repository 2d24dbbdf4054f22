-- ===== src/Heap/Headers.antt =====
-- The constants of kernel/src/memory/heap.cpp and kernel/include/memory/heap.hpp, `init`, the allocator
-- of headers and the lists of slabs.
use noise_v.Base.{
  ℕ, zero, suc, ◌+◌, ◌-◌, ◌*◌, ◌/◌, ◌^◌, true, not, ◌||◌, Option, none, some, [], ◌∷◌, ltb, leb,
  ◌==◌, if◌then◌else◌,
}
use noise_v.Align.{div_roundup}
use noise_v.Heap.{page_size, put, Slab, new_slab, CpuCache, SlubAllocator}

abbrev pub num_classes : ℕ
num_classes = 8

abbrev pub free_batch_size : ℕ
free_batch_size = 32

-- `sizeof(Slab)`, and the bytes of `Page::data`.
abbrev pub slab_bytes : ℕ
slab_bytes = 64

abbrev pub data_bytes : ℕ
data_bytes = 4088

-- The size of the objects of a class, as the constructor sets it.
abbrev pub class_size : ℕ → ℕ
class_size idx = 16 * 2 ^ idx

-- `std::bit_width`, for numbers of at most `fuel` digits.
unfoldable pub bit_width : ℕ → ℕ → ℕ
bit_width zero n = 0
bit_width (suc fuel) n = let rest = bit_width fuel (n / 2) in if n == 0 then 0 else rest + 1

-- `none` for the -1 of a large size.
unfoldable pub get_size_idx : ℕ → Option ℕ
get_size_idx size =
    if ltb 2048 size
    then none
    else if leb size 16
    then some 0
    else some (bit_width 64 (size - 1) - 4)

unfoldable pub vm_allocate : SlubAllocator → ℕ → ℕ × SlubAllocator
vm_allocate h pages = elim (h.supply) [
  | [] ↦ (0, record h { requested = pages ∷ h.requested })
  | page ∷ rest ↦ (page, record h { supply = rest; requested = pages ∷ h.requested })
]

unfoldable pub vm_free : SlubAllocator → ℕ → SlubAllocator
vm_free h page = record h { returned = page ∷ h.returned }

-- `sizeof(CpuCache)`, a multiple of the cache line.
abbrev pub cache_bytes : ℕ
cache_bytes = 3200

abbrev pub blank_cache : CpuCache
blank_cache = record {
  tlb = λ i. record { page_base = 0; slab = 0 };
  active = λ i. 0;
  free_buf = λ i. [];
}

-- `init`, whose allocation must succeed, as it writes to what it gets.
unfoldable pub init : SlubAllocator → ℕ → SlubAllocator
init h cpu_count =
    let pages = div_roundup (cache_bytes * cpu_count) page_size in
    if h.initialized
    then h
    else record ((vm_allocate h pages).1) { cpu_caches = λ i. blank_cache; initialized = true }

abbrev pub set_slab : SlubAllocator → ℕ → Slab → SlubAllocator
set_slab h s slab = record h { slabs = put h.slabs s slab }

-- `MetadataAllocator::alloc`: from the pool, from the page at hand, or from a new one.
unfoldable pub bump : SlubAllocator → ℕ → ℕ → ℕ × SlubAllocator
bump h page offset =
    let s = page + 8 + offset in
    (
      s,
      record (set_slab h s new_slab) {
        meta = record h.meta { head = page; offset = offset + slab_bytes };
      },
    )

unfoldable pub meta_alloc : SlubAllocator → ℕ × SlubAllocator
meta_alloc h =
    let s = h.meta.free_pool in
    let (page, h1) = vm_allocate h 1 in
    if not (s == 0)
    then (
      s,
      record (set_slab h s new_slab) { meta = record h.meta { free_pool = (h.slabs s).next } },
    )
    else if (h.meta.head == 0) || ltb data_bytes (h.meta.offset + slab_bytes)
    then if page == 0 then (0, h1) else bump h1 page 0
    else bump h h.meta.head h.meta.offset

unfoldable pub meta_free : SlubAllocator → ℕ → SlubAllocator
meta_free h s = record (set_slab h s (record (h.slabs s) { next = h.meta.free_pool })) {
  meta = record h.meta { free_pool = s };
}

-- `s->next->prev = p`, unless `s` is null.
abbrev pub link_prev : (ℕ → Slab) → ℕ → ℕ → ℕ → Slab
link_prev slabs s p = if s == 0 then slabs else put slabs s (record (slabs s) { prev = p })

-- `list_add`: the new head and the headers.
unfoldable pub list_add : (ℕ → Slab) → ℕ → ℕ → ℕ × (ℕ → Slab)
list_add slabs head s =
    (s, link_prev (put slabs s (record (slabs s) { next = head; prev = 0 })) head s)

unfoldable pub list_remove : (ℕ → Slab) → ℕ → ℕ → ℕ × (ℕ → Slab)
list_remove slabs head s =
    let prev = (slabs s).prev in
    let next = (slabs s).next in
    let slabs1 =
      if prev == 0 then slabs else put slabs prev (record (slabs prev) { next = next }) in
    let slabs2 = link_prev slabs1 next (slabs1 s).prev in
    ((if prev == 0 then next else head), put slabs2 s (record (slabs2 s) { next = 0; prev = 0 }))
