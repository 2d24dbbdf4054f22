-- ===== src/Pmm/Alloc.antt =====
-- The allocations of kernel/src/memory/pmm.cpp. A result is an address and the state, or `none`
-- where the code does not return: a thread that takes `lock` while it holds it spins for ever, since
-- it waits for a ticket that only its own release would serve.
use noise_v.Base.{
  ℕ, zero, suc, ◌+◌, ◌-◌, ◌*◌, ◌/◌, ◌%◌, Bool, true, false, not, ◌&&◌, ◌||◌, Option, none, some, [],
  ltb, leb, ◌==◌, if◌then◌else◌, length, get_or, set,
}
use noise_v.Base.Words.{u64_mod, all_ones, first_zero}
use noise_v.Align.{align_up}
use noise_v.Pmm.{bit_count, page_size, PerCpuCache, Pmm, word, summary, set_bit, test_bit}
use noise_v.Pmm.Cache.{cache_refill}

-- A `LockGuard` on `lock` around a piece of code.
unfoldable pub with_lock : Pmm → (Pmm → Option (ℕ × Pmm)) → Option (ℕ × Pmm)
with_lock m body = if m.locked then none else elim (body (record m { locked = true })) [
  | none ↦ none
  | some r ↦ some (r.0, record (r.1) { locked = false })
]

-- The first page in use among the next `rounds`, as an offset from `curr`.
unfoldable pub find_used : ℕ → Pmm → ℕ → ℕ → Option ℕ
find_used zero m curr j = none
find_used (suc rounds) m curr j =
    let rest = find_used rounds m curr (j + 1) in if test_bit m (curr + j) then some j else rest

unfoldable pub set_bits : ℕ → Pmm → ℕ → Pmm
set_bits zero m idx = m
set_bits (suc n) m idx = set_bits n (set_bit m idx) (idx + 1)

-- The test that skips 4096 pages by their summary word.
abbrev pub skips : Pmm → ℕ → ℕ → Bool
skips m curr count =
    (curr % bit_count == 0)
    && (leb bit_count count
        && (ltb (curr / bit_count / bit_count) m.summary_entries
            && (summary m (curr / bit_count / bit_count) == all_ones)))

-- The `while` of `try_alloc`, `end` at most; `none` is fuel that ran out.
unfoldable pub find_fit : ℕ → Pmm → ℕ → ℕ → ℕ → ℕ → Option (Option ℕ)
find_fit zero m curr end count pages_per_alignment = none
find_fit (suc fuel) m curr end count pages_per_alignment =
    let skipped =
      find_fit fuel m (align_up (curr + bit_count * bit_count) pages_per_alignment) end count
        pages_per_alignment in
    let found = find_used count m curr 0 in
    if leb end curr
    then some none
    else if ltb m.total_pages ((curr + count) % u64_mod)
    then some none
    else if skips m curr count
    then skipped
    else elim found [
      | none ↦ some (some curr)
      | some j ↦
          find_fit fuel m (align_up (curr + j + 1) pages_per_alignment) end count
            pages_per_alignment
    ]

abbrev pub page_size_2m : ℕ
page_size_2m = 2097152

abbrev pub counted : Pmm → ℕ → Pmm
counted m n = record m { used_pages = (m.used_pages + n) % u64_mod }

-- Marking the pages that `try_alloc` found.
unfoldable pub claim : Pmm → ℕ → ℕ → ℕ → Pmm
claim m curr count alignment =
    let m1 = counted (set_bits count m curr) count in
    if leb page_size_2m alignment
    then record m1 { aligned_index_hint = curr + count }
    else record m1 { free_idx_hint = curr + count }

unfoldable pub try_alloc : Pmm → ℕ → ℕ → ℕ → ℕ → Option (ℕ × Pmm)
try_alloc m start end count alignment =
    let per = alignment / page_size in
    elim (find_fit (end + 1) m (align_up start per) end count per) [
      | none ↦ none
      | some found ↦ some (elim found [
        | none ↦ (0, m)
        | some curr ↦ (curr * page_size, claim m curr count alignment)
      ])
    ]

-- Whether high memory exists and the hint lies below it.
abbrev pub prefer_high : Pmm → ℕ → ℕ
prefer_high m start =
    if ltb m.low_mem_threshold_idx m.total_pages && ltb start m.low_mem_threshold_idx
    then m.low_mem_threshold_idx
    else start

-- The two passes, under the lock.
unfoldable pub search_aligned : ℕ → ℕ → Pmm → Option (ℕ × Pmm)
search_aligned count alignment m =
    let start_hint =
      if leb page_size_2m alignment then m.aligned_index_hint else prefer_high m m.free_idx_hint in
    elim (try_alloc m start_hint m.total_pages count alignment) [
      | none ↦ none
      | some res ↦
          let m1 = res.1 in
          if (res.0 == 0) && ltb 0 m1.free_idx_hint
          then try_alloc m1 0 m1.free_idx_hint count alignment
          else some res
    ]

unfoldable pub alloc_aligned : Pmm → ℕ → ℕ → Option (ℕ × Pmm)
alloc_aligned m count alignment =
    if (count == 0) || ((alignment == 0) || not (alignment % page_size == 0))
    then some (0, m)
    else with_lock m (search_aligned count alignment)

-- The page that one round of the single-page search finds in summary word `s`.
unfoldable pub free_page : Pmm → ℕ → Option ℕ
free_page m s =
    let map_idx = s * bit_count + first_zero (summary m s) in
    let idx = map_idx * bit_count + first_zero (word m map_idx) in
    if summary m s == all_ones
    then none
    else if leb m.bitmap_entries map_idx
    then none
    else if word m map_idx == all_ones
    then none
    else if leb m.total_pages idx
    then none
    else some idx

unfoldable pub find_page : ℕ → Pmm → ℕ → Option ℕ
find_page zero m s = none
find_page (suc rounds) m s =
    let rest = find_page rounds m (s + 1) in
    elim (free_page m s) [ none ↦ rest | some idx ↦ some idx ]

-- The search from the hint and, when there is a hint, from the start to it.
unfoldable pub find_single : Pmm → Option ℕ
find_single m =
    let from = prefer_high m m.free_idx_hint / bit_count / bit_count in
    let wrapped = find_page from m 0 in
    elim (find_page (m.summary_entries - from) m from) [
      | some idx ↦ some idx
      | none ↦ if ltb 0 m.free_idx_hint then wrapped else none
    ]

abbrev pub take_page : Pmm → ℕ → Pmm
take_page m idx = record (counted (set_bit m idx) 1) { free_idx_hint = idx + 1 }

-- Called with the lock held; anything but a single page that the search finds goes to
-- `alloc_aligned`, which takes the lock itself.
unfoldable pub alloc_from_bitmap : ℕ → Pmm → Option (ℕ × Pmm)
alloc_from_bitmap count m = elim (if count == 1 then find_single m else none) [
  | some idx ↦ some (idx * page_size, take_page m idx)
  | none ↦ alloc_aligned m count page_size
]

abbrev pub no_cache : PerCpuCache
no_cache = record { stack = []; count = 0; capacity = 0 }

abbrev pub put_cache : Pmm → ℕ → PerCpuCache → Pmm
put_cache m core_id cache = record m { cpus = set m.cpus core_id cache }

abbrev pub has_cache : Pmm → ℕ → ℕ → Bool
has_cache m core_id count = (count == 1) && (not (length m.cpus == 0) && ltb core_id m.num_cpus)

-- The cache of the core, filled when it is empty; `none` is a lock that this thread already holds.
unfoldable pub filled_cache : Pmm → PerCpuCache → Option (Pmm × PerCpuCache)
filled_cache m cache =
    if not (cache.count == 0)
    then some (m, cache)
    else if m.locked
    then none
    else some (cache_refill m cache)

-- `core_id` is the index of the running core, 0 before the cores are up.
unfoldable pub alloc : Pmm → ℕ → ℕ → Option (ℕ × Pmm)
alloc m core_id count =
    if count == 0
    then some (0, m)
    else if has_cache m core_id count
    then (elim (filled_cache m (get_or m.cpus core_id no_cache)) [
      | none ↦ none
      | some ready ↦
          let m1 = ready.0 in
          let cache = ready.1 in
          let top = cache.count - 1 in
          let m2 = put_cache m1 core_id cache in
          if ltb 0 cache.count
          then some (get_or cache.stack top 0, put_cache m1 core_id (record cache { count = top }))
          else with_lock m2 (alloc_from_bitmap count)
    ])
    else with_lock m (alloc_from_bitmap count)

-- `alloc` and the range that `memset` clears in the higher half, if any.
unfoldable pub alloc_clear : (ℕ → ℕ) → Pmm → ℕ → ℕ → Option ((ℕ × Pmm) × Option (ℕ × ℕ))
alloc_clear to_higher_half m core_id count = elim (alloc m core_id count) [
  | none ↦ none
  | some ret ↦
      some (ret, (if ret.0 == 0 then none else some (to_higher_half ret.0, count * page_size)))
]

-- The loop of `alloc_dma` below 4 GiB.
unfoldable pub find_dma : ℕ → Pmm → ℕ → ℕ → ℕ → Option (Option ℕ)
find_dma zero m curr count pages_per_alignment = none
find_dma (suc fuel) m curr count pages_per_alignment =
    let limit = m.low_mem_threshold_idx in
    let skipped =
      find_dma fuel m (align_up (curr + bit_count * bit_count) pages_per_alignment) count
        pages_per_alignment in
    let found = find_used count m curr 0 in
    if leb limit curr
    then some none
    else if ltb limit ((curr + count) % u64_mod)
    then some none
    else if skips m curr count
    then skipped
    else elim found [
      | none ↦ some (some curr)
      | some j ↦
          find_dma fuel m (align_up (curr + j + 1) pages_per_alignment) count pages_per_alignment
    ]

unfoldable pub search_dma : ℕ → ℕ → Pmm → Option (ℕ × Pmm)
search_dma count alignment m =
    elim (find_dma (m.low_mem_threshold_idx + 1) m 0 count (alignment / page_size)) [
      | none ↦ none
      | some found ↦ some (elim found [
        | none ↦ (0, m)
        | some curr ↦ (curr * page_size, counted (set_bits count m curr) count)
      ])
    ]

unfoldable pub alloc_dma : Pmm → ℕ → ℕ → Option (ℕ × Pmm)
alloc_dma m count alignment =
    if (count == 0) || ((alignment == 0) || not (alignment % page_size == 0))
    then some (0, m)
    else with_lock m (search_dma count alignment)
