-- ===== src/Pmm.antt =====
-- kernel/src/memory/pmm.cpp: the state of the physical memory manager and the operations on single
-- bits. An address is a number and 0 is `nullptr`.
pub mod Cache
pub mod Alloc
pub mod Free
pub mod Init
pub mod Bits
pub mod Runs
pub mod Aligned
pub mod Single
pub mod Release
pub mod Blank
mod Tests
use noise_v.Base.{ℕ, ◌+◌, ◌-◌, ◌*◌, ◌/◌, ◌%◌, ◌^◌, Bool, List, ◌==◌, if◌then◌else◌, get_or, set}
use noise_v.Base.Words.{all_ones, set_in, clear_in, test_in}

abbrev pub bit_count : ℕ
bit_count = 64

abbrev pub page_size : ℕ
page_size = 4096

abbrev pub cache_size : ℕ
cache_size = 512

abbrev pub batch_size : ℕ
batch_size = 256

-- `stack` is the array of `capacity` addresses, of which the first `count` are in use.
pub record PerCpuCache : Type 0 where
  pub stack : List ℕ
  pub count : ℕ
  pub capacity : ℕ

-- `locked` is the state of `lock`; `cpus` is empty for `nullptr`.
pub record Pmm : Type 0 where
  pub bitmap : List ℕ
  pub summary_bitmap : List ℕ
  pub total_pages : ℕ
  pub summary_entries : ℕ
  pub bitmap_entries : ℕ
  pub used_pages : ℕ
  pub low_mem_threshold_idx : ℕ
  pub free_idx_hint : ℕ
  pub aligned_index_hint : ℕ
  pub cpus : List PerCpuCache
  pub num_cpus : ℕ
  pub locked : Bool

-- Words past the end read as full; no operation below relies on it when its indices are in range.
abbrev pub word : Pmm → ℕ → ℕ
word m i = get_or m.bitmap i all_ones

abbrev pub summary : Pmm → ℕ → ℕ
summary m s = get_or m.summary_bitmap s all_ones

-- The summary bit of word `i`, set and cleared.
unfoldable pub mark_full : Pmm → ℕ → Pmm
mark_full m i = record m {
  summary_bitmap =
      set m.summary_bitmap (i / bit_count) (set_in (summary m (i / bit_count)) (i % bit_count));
}

unfoldable pub mark_open : Pmm → ℕ → Pmm
mark_open m i = record m {
  summary_bitmap =
      set m.summary_bitmap (i / bit_count) (clear_in (summary m (i / bit_count)) (i % bit_count));
}

abbrev pub put_word : Pmm → ℕ → ℕ → Pmm
put_word m i w = record m { bitmap = set m.bitmap i w }

unfoldable pub set_bit : Pmm → ℕ → Pmm
set_bit m idx =
    let byte = idx / bit_count in
    let w = set_in (word m byte) (idx % bit_count) in
    let m1 = put_word m byte w in if w == all_ones then mark_full m1 byte else m1

unfoldable pub clear_bit : Pmm → ℕ → Pmm
clear_bit m idx =
    let byte = idx / bit_count in
    mark_open (put_word m byte (clear_in (word m byte) (idx % bit_count))) byte

unfoldable pub test_bit : Pmm → ℕ → Bool
test_bit m idx = test_in (word m (idx / bit_count)) (idx % bit_count)
