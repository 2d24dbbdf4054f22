-- ===== src/Pmm/Blank.antt =====
-- The state that `PhysicalManager::init` of kernel/src/memory/pmm.cpp starts from.
use noise_v.Base.{
  ℕ, ◌*◌, ◌/◌, ◌%◌, ◌^◌, ◌≤◌, ◌≡◌, refl, List, arith, length, length-replicate,
  get_or-replicate_self,
}
use noise_v.Base.Words.{all_ones, digit-all_ones}
use noise_v.Align.{align_up, div_roundup}
use noise_v.Align.Bounds.{align_up_bounds}
use noise_v.Pmm.{page_size, word, summary}
use noise_v.Pmm.Bits.{IsValid, used}
use noise_v.Pmm.Free.{MemmapEntry}
use noise_v.Pmm.Init.{Sizes, sizes, blank_state, highest_addr}

word-blank : (s : Sizes) (num_cpus i : ℕ) → word (blank_state s num_cpus) i ≡ all_ones
unfolding blank_state
word-blank s num_cpus i = get_or-replicate_self (s.bitmap_bytes / 8) i all_ones

summary-blank : (s : Sizes) (num_cpus i : ℕ) → summary (blank_state s num_cpus) i ≡ all_ones
unfolding blank_state
summary-blank s num_cpus i = get_or-replicate_self (s.summary_bytes / 8) i all_ones

blank_words :
    (s : Sizes) (num_cpus : ℕ)
    → length (blank_state s num_cpus).bitmap ≡ (blank_state s num_cpus).bitmap_entries
unfolding blank_state
blank_words s num_cpus = length-replicate (s.bitmap_bytes / 8) all_ones

blank_summaries :
    (s : Sizes) (num_cpus : ℕ)
    → length (blank_state s num_cpus).summary_bitmap ≡ s.summary_bytes / 8
unfolding blank_state
blank_summaries s num_cpus = length-replicate (s.summary_bytes / 8) all_ones

blank_sizes :
    (s : Sizes) (num_cpus : ℕ)
    → ((blank_state s num_cpus).bitmap_entries ≡ s.bitmap_bytes / 8)
      × ((blank_state s num_cpus).total_pages ≡ s.pages)
unfolding blank_state
blank_sizes s num_cpus = (refl, refl)

-- Bitmaps that are large enough.
pub blank-IsValid :
    (s : Sizes) (num_cpus : ℕ)
    → s.pages ≤ s.bitmap_bytes / 8 * 64
    → s.bitmap_bytes / 8 ≤ s.summary_bytes / 8 * 64
    → IsValid (blank_state s num_cpus)
blank-IsValid s num_cpus p q = record {
  words_size = blank_words s num_cpus;
  summary_size = omega (arith, q, blank_summaries s num_cpus, blank_sizes s num_cpus);
  pages = omega (arith, p, blank_sizes s num_cpus);
  words = λ i. rw (word-blank s num_cpus i) (omega arith);
  summaries = λ i. rw (summary-blank s num_cpus i) (omega arith);
  full_iff = λ i h.
      rw (summary-blank s num_cpus (i / 64), word-blank s num_cpus i)
        (ground (arith, digit-all_ones (i % 64)));
}

pub used-blank : (s : Sizes) (num_cpus j : ℕ) → used (blank_state s num_cpus) j ≡ 1
used-blank s num_cpus j =
    rw (word-blank s num_cpus (j / 64)) (digit-all_ones (j % 64) (omega arith))

-- For a memory map whose highest address is at most 2 ^ 63, the bitmaps that `init` lays out have room
-- for every page and are in step, and every page starts as used.
pub blank_state_lem :
    (memmaps : List MemmapEntry) (num_cpus : ℕ)
    → highest_addr memmaps 0 ≤ 2 ^ 63
    → let m = blank_state (sizes memmaps num_cpus) num_cpus in
      IsValid m × ((j : ℕ) → used m j ≡ 1) × (highest_addr memmaps 0 ≤ m.total_pages * page_size)
unfolding sizes div_roundup
blank_state_lem memmaps num_cpus h =
    let s = sizes memmaps num_cpus in
    let top = align_up_bounds 12 (omega arith) (highest_addr memmaps 0) (omega (arith, h)) in
    let pages = align_up (highest_addr memmaps 0) 4096 / 4096 in
    let bits = align_up_bounds 3 (omega arith) pages (omega (arith, h, top)) in
    let bytes = align_up pages 8 / 8 in
    let rounded = align_up_bounds 3 (omega arith) bytes (omega (arith, h, top, bits)) in
    let entries = align_up bytes 8 / 8 in
    let bits2 = align_up_bounds 3 (omega arith) entries (omega (arith, h, top, bits, rounded)) in
    let bytes2 = align_up entries 8 / 8 in
    let rounded2 =
      align_up_bounds 3 (omega arith) bytes2 (omega (arith, h, top, bits, rounded, bits2)) in
    (
      blank-IsValid s num_cpus (omega (arith, bits, rounded)) (omega (arith, bits2, rounded2)),
      (λ j. used-blank s num_cpus j),
      omega (arith, top, blank_sizes s num_cpus),
    )
