-- ===== src/Heap/Serves.antt =====
-- The free list of a new slab of kernel/src/memory/heap.cpp.
use native.Mathlib.Nat.{one-le-pow, eq_of_mul-eq-mul_right}
use noise_v.Base.{
  ℕ, zero, suc, ◌+◌, ◌-◌, ◌*◌, ◌/◌, ◌<◌, ◌≡◌, ◌≢◌, refl, ap, sym, ◌∙◌, inl, inr, true, false, ◌&&◌,
  arith, ltb, leb, ◌==◌, if◌then◌else◌, Bool-cases,
}
use noise_v.Heap.{put, SlubAllocator, page_size}
use noise_v.Heap.Headers.{class_size}
use noise_v.Heap.Slub.{thread_list, install_slab, take_object}

-- Objects at different places have different addresses.
apart : (base size i k : ℕ) → 0 < size → i ≢ k → (base + i * size == base + k * size) ≡ false
apart base size i k pos ne = elim (Bool-cases (base + i * size == base + k * size)) [
  | inl e ↦ absurd (ne (eq_of_mul-eq-mul_right size pos i k (ground arith)))
  | inr e ↦ e
]

thread_list_lem :
    (rounds i base size : ℕ) (words : ℕ → ℕ) (k : ℕ)
    → 0 < size
    → thread_list rounds i base size words (base + k * size)
      ≡ (if leb i k && ltb k (i + rounds) then base + (k + 1) * size else words (base + k * size))
unfolding thread_list
thread_list_lem zero i base size words k pos =
    let test : (leb i k && ltb k (i + 0)) ≡ false = ground arith in rw test refl
thread_list_lem (suc rounds) i base size words k pos =
    let words' = put words (base + i * size) (base + (i + 1) * size) in
    let later = thread_list_lem rounds (i + 1) base size words' k pos in
    elim (Bool-cases (i == k)) [
      | inl here ↦
          let same : i ≡ k = ground arith in
          let past : (leb (i + 1) k && ltb k (i + 1 + rounds)) ≡ false = ground arith in
          let now : (leb i k && ltb k (i + suc rounds)) ≡ true = ground arith in
          let own : (base + i * size == base + k * size) ≡ true =
            ground (arith, ap (λ j. j * size) same) in
          later ∙ rw (past, now, own, same) refl
      | inr other ↦
          let test : (leb (i + 1) k && ltb k (i + 1 + rounds))
              ≡ (leb i k && ltb k (i + suc rounds)) =
            ground arith in
          later ∙ rw (test, apart base size i k pos (ground arith)) refl
    ]

-- The state after `k` objects are taken.
abbrev pub take_many : ℕ → SlubAllocator → ℕ → SlubAllocator
take_many zero h s = h
take_many (suc k) h s = (take_object (take_many k h s) s).1

words-take_many : (k : ℕ) (h : SlubAllocator) (s : ℕ) → (take_many k h s).words ≡ h.words
unfolding take_object
words-take_many zero h s = refl
words-take_many (suc k) h s = words-take_many k h s

module _ (h : SlubAllocator) (s page idx : ℕ) where
  abbrev pub total : ℕ
  total = page_size / class_size idx

  abbrev pub installed : SlubAllocator
  installed = install_slab h s page idx

  words-installed :
      (k : ℕ)
      → k < total
      → installed.words (page + k * class_size idx)
        ≡ (if k + 1 == total then 0 else page + (k + 1) * class_size idx)
  unfolding install_slab
  words-installed k below =
      let size = class_size idx in
      let pos : 0 < size = omega (arith, one-le-pow idx 2 (omega arith)) in
      elim (Bool-cases (k + 1 == total)) [
        | inl last ↦
            let at_end : total - 1 ≡ k = ground arith in
            let own : (page + k * size == page + k * size) ≡ true = ground arith in
            rw (last, at_end, own) refl
        | inr inner ↦
            let threaded = thread_list_lem (total - 1) 0 page size h.words k pos in
            let test : (leb 0 k && ltb k (0 + (total - 1))) ≡ true = ground arith in
            rw (inner, apart page size (total - 1) k pos (ground arith)) (threaded ∙ rw test refl)
      ]

  -- After `k` objects the free list begins with the next one, or is empty after the last.
  next_free :
      (k : ℕ)
      → k < total
      → ((take_many k installed s).slabs s).freelist ≡ page + k * class_size idx
      → ((take_many (suc k) installed s).slabs s).freelist
        ≡ (if k + 1 == total then 0 else page + (k + 1) * class_size idx)
  unfolding take_object
  next_free k below here =
      let g = take_many k installed s in
      let own : (s == s) ≡ true = ground arith in
      let read =
        ap (λ f. f (g.slabs s).freelist) (words-take_many k installed s)
        ∙ ap (λ a. installed.words a) here
        ∙ words-installed k below in
      rw own read

  freelist-take_many :
      (k : ℕ) → k < total → ((take_many k installed s).slabs s).freelist ≡ page + k * class_size idx
  unfolding install_slab
  freelist-take_many zero below = let own : (s == s) ≡ true = ground arith in rw own (omega arith)
  freelist-take_many (suc k) below =
      let more : (k + 1 == total) ≡ false = ground arith in
      let next = next_free k (omega arith) (freelist-take_many k (omega arith)) in
      let place : suc k ≡ k + 1 = omega arith in rw (more, sym place) at next

  -- A new slab of `total` objects hands out, one after the other, the objects of its page from the first
  -- on, each once: after each of them its free list begins with the next one, and after the last it
  -- is empty.
  pub fresh_slab_serves :
      (k : ℕ)
      → k < total
      → ((take_object (take_many k installed s) s).0 ≡ page + k * class_size idx)
        × (((take_many (suc k) installed s).slabs s).freelist
            ≡ (if k + 1 == total then 0 else page + (k + 1) * class_size idx))
  unfolding take_object
  fresh_slab_serves k below =
      let here = freelist-take_many k below in (here, next_free k below here)
