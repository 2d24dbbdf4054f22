-- ===== src/Heap/Aligned.antt =====
-- `aligned_kalloc` and `aligned_kfree` of kernel/src/memory/heap.cpp.
use native.Mathlib.Nat.{mod_self, one-le-pow}
use noise_v.Base.{
  ℕ, ◌+◌, ◌-◌, ◌%◌, ◌^◌, ◌≤◌, ◌<◌, ◌≡◌, ◌≢◌, refl, true, false, not, ◌||◌, Option, some, arith, ltb,
  ◌==◌, if◌then◌else◌,
}
use noise_v.Align.{align_up, is_aligned}
use noise_v.Align.Bounds.{align_up_bounds, is_aligned_iff}
use noise_v.Heap.{put, SlubAllocator}
use noise_v.Heap.Slub.{allocate}
use noise_v.Heap.Release.{free}

-- `aligned_kalloc`, with the pointer that it puts before the aligned address.
unfoldable pub aligned_kalloc : SlubAllocator → ℕ → ℕ → ℕ → ℕ × SlubAllocator
aligned_kalloc h cpu size alignment =
    let overhead = (alignment + 8) % 2 ^ 64 in
    let (raw_ptr, h1) = allocate h cpu (size + overhead) in
    let aligned_addr = align_up ((raw_ptr + 8) % 2 ^ 64) alignment in
    if (alignment == 0) || not (is_aligned alignment alignment) || ltb (2 ^ 64 - 1 - overhead) size
    then (0, h)
    else if raw_ptr == 0
    then (0, h1)
    else (aligned_addr, record h1 { words = put h1.words (aligned_addr - 8) raw_ptr })

unfoldable pub aligned_kfree : SlubAllocator → ℕ → ℕ → Option SlubAllocator
aligned_kfree h cpu ptr = if ptr == 0 then some h else free h cpu (h.words (ptr - 8))

-- For an alignment `2 ^ k` and an allocation that succeeds and does not run off the end of the address
-- space, `aligned_kalloc` gives a multiple of the alignment with room for `size` bytes and the stashed
-- pointer inside the allocation, and `aligned_kfree` of it frees that allocation.
pub aligned_kalloc_lem :
    (h : SlubAllocator) (cpu size k : ℕ)
    → k < 64
    → (allocate h cpu (size + (2 ^ k + 8))).0 ≢ 0
    → (allocate h cpu (size + (2 ^ k + 8))).0 + (size + (2 ^ k + 8)) < 2 ^ 64
    → let raw_ptr = (allocate h cpu (size + (2 ^ k + 8))).0 in
      let (addr, h') = aligned_kalloc h cpu size (2 ^ k) in
      (addr % 2 ^ k ≡ 0)
      × (raw_ptr + 8 ≤ addr)
      × (addr + size ≤ raw_ptr + (size + (2 ^ k + 8)))
      × (aligned_kfree h' cpu addr ≡ free h' cpu raw_ptr)
unfolding aligned_kalloc aligned_kfree
aligned_kalloc_lem h cpu size k small live room =
    let raw = (allocate h cpu (size + (2 ^ k + 8))).0 in
    let one = one-le-pow k 2 (omega arith) in
    let whole : (2 ^ k + 8) % 2 ^ 64 ≡ 2 ^ k + 8 = omega (arith, room) in
    let start : (raw + 8) % 2 ^ 64 ≡ raw + 8 = omega (arith, room) in
    let (low, high, multiple) = align_up_bounds k small (raw + 8) (omega (arith, room)) in
    let power : is_aligned (2 ^ k) (2 ^ k) ≡ true =
      (is_aligned_iff k small (2 ^ k) (omega (arith, room))).1 (mod_self (2 ^ k)) in
    let given : (raw == 0) ≡ false = ground arith in
    let fits : ltb (2 ^ 64 - 1 - (2 ^ k + 8)) size ≡ false = ground (arith, room) in
    let pos : (2 ^ k == 0) ≡ false = ground (arith, one) in
    let addr = align_up (raw + 8) (2 ^ k) in
    let there : (addr == 0) ≡ false = ground (arith, low) in
    let own : (addr - 8 == addr - 8) ≡ true = ground arith in
    rw (whole, start, power, given, fits, pos, there, own)
      (multiple, low, omega (arith, high), refl)
