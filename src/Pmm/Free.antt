-- ===== src/Pmm/Free.antt =====
-- The releases and the statistics of kernel/src/memory/pmm.cpp.
use noise_v.Base.{
  ℕ, zero, suc, ◌+◌, ◌-◌, ◌*◌, ◌/◌, ◌%◌, not, ◌&&◌, Option, none, some, List, [], ◌∷◌, ltb, ◌==◌,
  if◌then◌else◌, get_or, set,
}
use noise_v.Base.Words.{u64_mod, sub64, popcount}
use noise_v.Align.{align_up, align_down}
use noise_v.Pmm.{
  bit_count, page_size, PerCpuCache, Pmm, word, put_word, mark_open, clear_bit, test_bit,
}
use noise_v.Pmm.Cache.{cache_flush}
use noise_v.Pmm.Alloc.{has_cache, no_cache, put_cache}

-- One page that is released by its bit.
unfoldable pub free_page : Pmm → ℕ → Pmm
free_page m curr =
    let m1 = clear_bit m curr in
    if ltb curr m.total_pages && test_bit m curr
    then record m1 { used_pages = sub64 m1.used_pages 1 }
    else m

-- Single pages up to a multiple of 64: the state, the next page and how many remain.
unfoldable pub free_head : ℕ → Pmm → ℕ → Pmm × ℕ × ℕ
free_head zero m curr = (m, curr, 0)
free_head (suc remaining) m curr =
    let rest = free_head remaining (free_page m curr) (curr + 1) in
    if curr % bit_count == 0 then (m, curr, suc remaining) else rest

-- A whole word.
unfoldable pub free_word : Pmm → ℕ → Pmm
free_word m word_idx =
    let old_val = word m word_idx in
    let m1 = mark_open (put_word m word_idx 0) word_idx in
    if ltb word_idx m.bitmap_entries && not (old_val == 0)
    then record m1 { used_pages = sub64 m1.used_pages (popcount 64 old_val) }
    else m

unfoldable pub free_words : ℕ → Pmm → ℕ → Pmm
free_words zero m curr = m
free_words (suc words) m curr = free_words words (free_word m (curr / bit_count)) (curr + bit_count)

unfoldable pub free_tail : ℕ → Pmm → ℕ → Pmm
free_tail zero m curr = m
free_tail (suc remaining) m curr = free_tail remaining (free_page m curr) (curr + 1)

unfoldable pub free_to_bitmap : Pmm → ℕ → ℕ → Pmm
free_to_bitmap m page_idx count =
    let (m1, curr, remaining) = free_head count m page_idx in
    let words = remaining / bit_count in
    let m2 = free_words words m1 curr in
    let m3 = free_tail (remaining % bit_count) m2 (curr + words * bit_count) in
    if ltb page_idx m3.free_idx_hint && ltb m3.low_mem_threshold_idx page_idx
    then record m3 { free_idx_hint = page_idx }
    else m3

-- The cache of the core with room for one more address.
unfoldable pub flushed_cache : (List ℕ → List ℕ) → Pmm → PerCpuCache → Option (Pmm × PerCpuCache)
flushed_cache qsort m cache =
    if ltb cache.count cache.capacity
    then some (m, cache)
    else if m.locked
    then none
    else some (cache_flush qsort m cache)

-- `none` is a lock that this thread already holds.
unfoldable pub free : (List ℕ → List ℕ) → Pmm → ℕ → ℕ → ℕ → Option Pmm
free qsort m core_id ptr count =
    if ptr == 0
    then some m
    else if has_cache m core_id count
    then (elim (flushed_cache qsort m (get_or m.cpus core_id no_cache)) [
      | none ↦ none
      | some room ↦
          let cache = room.1 in
          some (
            put_cache room.0 core_id
              (record cache { stack = set cache.stack cache.count ptr; count = cache.count + 1 }))
    ])
    else if m.locked
    then none
    else some (free_to_bitmap m (ptr / page_size) count)

-- An entry of the boot loader's memory map.
pub record MemmapEntry : Type 0 where
  pub base : ℕ
  pub size : ℕ
  pub type : ℕ

unfoldable pub reclaim_type : (List ℕ → List ℕ) → Pmm → ℕ → List MemmapEntry → ℕ → Option Pmm
reclaim_type qsort m core_id [] memmap_type = some m
reclaim_type qsort m core_id (e ∷ entries) memmap_type =
    let base_aligned = align_up e.base page_size in
    let end_aligned = align_down ((e.base + e.size) % u64_mod) page_size in
    let pages = (end_aligned - base_aligned) / page_size in
    elim (if (e.type == memmap_type) && ltb base_aligned end_aligned
      then free qsort m core_id base_aligned pages
      else some m) [ none ↦ none | some m1 ↦ reclaim_type qsort m1 core_id entries memmap_type ]

pub record PmmStats : Type 0 where
  pub total_memory : ℕ
  pub used_memory : ℕ
  pub free_memory : ℕ

unfoldable pub cached_total : List PerCpuCache → ℕ
cached_total [] = 0
cached_total (c ∷ cs) = c.count + cached_total cs

unfoldable pub get_stats : Pmm → PmmStats
get_stats m =
    let actual_used = sub64 m.used_pages (cached_total m.cpus % u64_mod) in
    record {
      total_memory = m.total_pages * page_size % u64_mod;
      used_memory = actual_used * page_size % u64_mod;
      free_memory = sub64 m.total_pages actual_used * page_size % u64_mod;
    }
