-- ===== src/Heap/RunsDry.antt =====
-- A slab of kernel/src/memory/heap.cpp that a processor uses and that stands in the list of partial slabs.
use noise_v.Base.{
  ℕ, ◌+◌, ◌-◌, ◌%◌, ◌^◌, ◌<◌, ◌≡◌, ◌≢◌, refl, ap, sym, ◌∙◌, true, false, some, arith, ◌==◌,
}
use noise_v.Heap.{put, Slab, SlubAllocator}
use noise_v.Heap.Headers.{get_size_idx, list_add, list_remove}
use noise_v.Heap.Slub.{allocate, allocate_small, take_object, refill_slab, set_cache}
use noise_v.Heap.Release.{give_back, put_object, relist}

allocate-small :
    (h : SlubAllocator) (cpu size idx : ℕ)
    → h.initialized ≡ true
    → get_size_idx size ≡ some idx
    → allocate h cpu size ≡ allocate_small h cpu idx
unfolding allocate
allocate-small h cpu size idx ready class = simp (ready, class)

allocate_active :
    (h : SlubAllocator) (cpu idx s : ℕ)
    → s ≢ 0
    → (h.cpu_caches cpu).active idx ≡ s
    → (h.slabs s).freelist ≢ 0
    → allocate_small h cpu idx ≡ take_object h s
unfolding allocate_small
allocate_active h cpu idx s there used room =
    let live : (s == 0) ≡ false = ground arith in
    let some_free : ((h.slabs s).freelist == 0) ≡ false = ground arith in
    rw (used, live, some_free) refl

abbrev refilled : SlubAllocator → ℕ → ℕ → SlubAllocator
refilled h idx s = record h {
  partial = put h.partial idx (list_remove h.slabs s s).0;
  slabs = (list_remove h.slabs s s).1;
}

abbrev loaded : SlubAllocator → ℕ → ℕ → ℕ → SlubAllocator
loaded h cpu idx s =
    set_cache h cpu (record (h.cpu_caches cpu) { active = put (h.cpu_caches cpu).active idx s })

refill_partial :
    (h : SlubAllocator) (idx s : ℕ)
    → s ≢ 0
    → h.partial idx ≡ s
    → refill_slab h idx ≡ (s, refilled h idx s)
unfolding refill_slab
refill_partial h idx s there first =
    let live : (s == 0) ≡ false = ground arith in simp (first, live)

allocate_refilled :
    (h : SlubAllocator) (cpu idx s : ℕ)
    → s ≢ 0
    → (h.cpu_caches cpu).active idx ≡ s
    → (h.slabs s).freelist ≡ 0
    → h.partial idx ≡ s
    → allocate_small h cpu idx ≡ take_object (loaded (refilled h idx s) cpu idx s) s
unfolding allocate_small
allocate_refilled h cpu idx s there used dry first =
    let live : (s == 0) ≡ false = ground arith in
    simp (refill_partial h idx s there first, used, dry, live)

freelist-list_remove :
    (slabs : ℕ → Slab) (s : ℕ)
    → (slabs s).next ≡ 0
    → (slabs s).prev ≡ 0
    → ((list_remove slabs s s).1 s).freelist ≡ (slabs s).freelist
unfolding list_remove
freelist-list_remove slabs s no_next no_prev =
    let same : (s == s) ≡ true = ground arith in rw (no_next, no_prev, same) refl

-- An empty free list in the slab that is active and first among the partial ones.
allocate_dry :
    (h : SlubAllocator) (cpu idx s : ℕ)
    → s ≢ 0
    → (h.cpu_caches cpu).active idx ≡ s
    → (h.slabs s).freelist ≡ 0
    → h.partial idx ≡ s
    → (h.slabs s).next ≡ 0
    → (h.slabs s).prev ≡ 0
    → ((allocate_small h cpu idx).0 ≡ 0)
      × (((allocate_small h cpu idx).1.slabs s).freelist ≡ h.words 0)
unfolding take_object
allocate_dry h cpu idx s there used dry first no_next no_prev =
    let same : (s == s) ≡ true = ground arith in
    let empty = freelist-list_remove h.slabs s no_next no_prev ∙ dry in
    rw (allocate_refilled h cpu idx s there used dry first, same, empty) (refl, refl)

-- A full slab gets an object back and becomes the only partial one.
full_to_partial :
    (h : SlubAllocator) (idx ptr s : ℕ)
    → h.partial idx ≡ 0
    → (h.slabs s).freelist ≡ 0
    → 0 < (h.slabs s).in_use
    → (h.slabs s).in_use < 2 ^ 16
    → (h.slabs s).in_use ≡ (h.slabs s).total
    → give_back h idx ptr s ≡ record h {
      partial = put h.partial idx s;
      words = put h.words ptr 0;
      slabs = (list_add (put_object h ptr s).slabs 0 s).1;
    }
unfolding give_back put_object relist list_add
full_to_partial h idx ptr s no_partial full some_used small all_used =
    let same : (s == s) ≡ true = ground arith in
    let first : (((h.slabs s).in_use + (2 ^ 16 - 1)) % 2 ^ 16 + 1 == (h.slabs s).total) ≡ true =
      ground arith in
    simp (same, first, no_partial, full)

abbrev given : SlubAllocator → ℕ → ℕ → ℕ → SlubAllocator
given h idx ptr s = record h {
  partial = put h.partial idx s;
  words = put h.words ptr 0;
  slabs = (list_add (put_object h ptr s).slabs 0 s).1;
}

header_given :
    (h : SlubAllocator) (idx ptr s : ℕ)
    → (((given h idx ptr s).slabs s).freelist ≡ ptr)
      × (((given h idx ptr s).slabs s).next ≡ 0)
      × (((given h idx ptr s).slabs s).prev ≡ 0)
unfolding put_object list_add
header_given h idx ptr s = let same : (s == s) ≡ true = ground arith in rw same (refl, refl, refl)

-- The state after that object is taken again.
taken_again :
    (h : SlubAllocator) (idx ptr s : ℕ)
    → ptr ≢ 0
    → let (obj, h2) = take_object (given h idx ptr s) s in
      (obj ≡ ptr)
      × ((h2.slabs s).freelist ≡ 0)
      × ((h2.slabs s).next ≡ 0)
      × ((h2.slabs s).prev ≡ 0)
      × (h2.partial idx ≡ s)
      × (h2.words 0 ≡ h.words 0)
unfolding take_object
taken_again h idx ptr s live =
    let same : (s == s) ≡ true = ground arith in
    let here : (ptr == ptr) ≡ true = ground arith in
    let class : (idx == idx) ≡ true = ground arith in
    let other : (ptr == 0) ≡ false = ground arith in
    let (free_list, no_next, no_prev) = header_given h idx ptr s in
    rw (same, class, other)
      (
        free_list,
        ap (λ a. (given h idx ptr s).words a) free_list ∙ rw here refl,
        no_next,
        no_prev,
        refl,
        refl,
      )

-- A processor's slab for a class that is full and gets an object back in a flush becomes a partial slab of
-- the class, while the processor goes on with it. When no other slab is partial, the next allocation
-- of the class gives that object out, and the one after it takes its object at the null pointer: it
-- returns null and puts the word that stands there into the free list, however many pages are left.
pub active_slab_runs_dry :
    (h : SlubAllocator) (cpu size idx ptr s : ℕ)
    → h.initialized ≡ true
    → get_size_idx size ≡ some idx
    → s ≢ 0
    → ptr ≢ 0
    → (h.cpu_caches cpu).active idx ≡ s
    → h.partial idx ≡ 0
    → (h.slabs s).freelist ≡ 0
    → 0 < (h.slabs s).in_use
    → (h.slabs s).in_use < 2 ^ 16
    → (h.slabs s).in_use ≡ (h.slabs s).total
    → let (obj, h2) = allocate (give_back h idx ptr s) cpu size in
      let (next_obj, h3) = allocate h2 cpu size in
      (obj ≡ ptr) × (next_obj ≡ 0) × ((h3.slabs s).freelist ≡ h.words 0)
unfolding take_object
active_slab_runs_dry h cpu size idx ptr s ready class there live used no_partial full some_used
      small all_used =
    let h1 = given h idx ptr s in
    let h2 = (take_object h1 s).1 in
    let (free_list, no_next, no_prev) = header_given h idx ptr s in
    let (obj, empty, next', prev', first, zero_word) = taken_again h idx ptr s live in
    let once : allocate h1 cpu size ≡ take_object h1 s =
      allocate-small h1 cpu size idx ready class
      ∙ allocate_active h1 cpu idx s there used (λ e. live (sym free_list ∙ e)) in
    let twice = allocate_dry h2 cpu idx s there used empty first next' prev' in
    rw
      (
        full_to_partial h idx ptr s no_partial full some_used small all_used,
        once,
        allocate-small h2 cpu size idx ready class,
      )
      (obj, twice.0, twice.1 ∙ zero_word)
