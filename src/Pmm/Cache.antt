-- ===== src/Pmm/Cache.antt =====
-- `cache_refill` and `cache_flush` of kernel/src/memory/pmm.cpp. Prefetches are hints to the
-- processor and are left out.
use noise_v.Base.{
  ℕ, zero, suc, ◌+◌, ◌-◌, ◌*◌, ◌/◌, ◌%◌, Bool, true, false, not, ◌&&◌, ◌||◌, Option, none, some,
  List, [], ◌∷◌, ◌++◌, ltb, leb, ◌==◌, if◌then◌else◌, set, take,
}
use noise_v.Base.Words.{u64_mod, all_ones, complement, set_in, clear_in, ctz, sub64}
use noise_v.Align.{div_roundup}
use noise_v.Pmm.{
  bit_count, page_size, batch_size, PerCpuCache, Pmm, word, summary, put_word, mark_full, mark_open,
}

abbrev pub push_page : PerCpuCache → ℕ → PerCpuCache
push_page cache page = record cache {
  stack = set cache.stack cache.count (page * page_size);
  count = cache.count + 1;
}

-- The local variables of the innermost `while`; `overran` is its `return true`.
pub record Taken : Type 0 where
  pub word_val : ℕ
  pub taken_cache : PerCpuCache
  pub taken : ℕ
  pub overran : Bool

-- Single pages of one word, at most `fuel` of them.
unfoldable pub take_pages : ℕ → ℕ → ℕ → ℕ → ℕ → Taken → Taken
take_pages zero total need word_idx inv_word t = t
take_pages (suc fuel) total need word_idx inv_word t =
    let page_bit = ctz 64 inv_word in
    let page_idx = word_idx * bit_count + page_bit in
    let rest = take_pages fuel total need word_idx (clear_in inv_word page_bit) (record t {
      word_val = set_in t.word_val page_bit;
      taken_cache = push_page t.taken_cache page_idx;
      taken = t.taken + 1;
    }) in
    if (inv_word == 0) || leb need t.taken
    then t
    else if leb total page_idx
    then record t { overran = true }
    else rest

-- All the pages of a free word, from bit `k` on.
unfoldable pub push_pages : ℕ → ℕ → PerCpuCache → PerCpuCache
push_pages zero page cache = cache
push_pages (suc n) page cache = push_pages n (page + 1) (push_page cache page)

pub record Refill : Type 0 where
  pub pmm : Pmm
  pub cache : PerCpuCache
  pub collected : ℕ

-- The extraction from one word, and whether it returned from the whole scan.
unfoldable pub take_word : Refill → ℕ → ℕ → Bool × Refill
take_word r need word_idx =
    let m = r.pmm in
    let w = word m word_idx in
    let t =
      take_pages 64 m.total_pages need word_idx (complement w)
        (record { word_val = w; taken_cache = r.cache; taken = r.collected; overran = false }) in
    let m1 = put_word m word_idx t.word_val in
    if w == all_ones
    then (false, r)
    else if (w == 0) && leb 64 (need - r.collected)
    then (
      false,
      record {
        pmm = mark_full (put_word m word_idx all_ones) word_idx;
        cache = push_pages 64 (word_idx * bit_count) r.cache;
        collected = r.collected + bit_count;
      },
    )
    else if t.overran
    then (true, record { pmm = m; cache = t.taken_cache; collected = t.taken })
    else (
      false,
      record {
        pmm = if t.word_val == all_ones then mark_full m1 word_idx else m1;
        cache = t.taken_cache;
        collected = t.taken;
      },
    )

-- The `while (inv_summary)`; `some` is a `return` of the scan.
unfoldable pub scan_words : ℕ → ℕ → ℕ → ℕ → ℕ → Refill → Option Bool × Refill
scan_words zero s end_idx need inv_summary r = (none, r)
scan_words (suc fuel) s end_idx need inv_summary r =
    let block_bit = ctz 64 inv_summary in
    let word_idx = s * bit_count + block_bit in
    let got = take_word r need word_idx in
    let r1 = got.1 in
    let rest = scan_words fuel s end_idx need (clear_in inv_summary block_bit) r1 in
    let m1 = r1.pmm in
    if inv_summary == 0
    then (none, r)
    else if leb end_idx word_idx
    then (some false, r)
    else if got.0
    then (some true, r1)
    else if not (word r.pmm word_idx == all_ones) && leb need r1.collected
    then (some true, record r1 { pmm = record m1 { free_idx_hint = word_idx * bit_count } })
    else rest

-- The `for` over summary words, `rounds` of them from `s` on.
unfoldable pub scan_range : ℕ → ℕ → ℕ → ℕ → Refill → Bool × Refill
scan_range zero s end_idx need r = (false, r)
scan_range (suc rounds) s end_idx need r =
    let scanned =
      if summary r.pmm s == all_ones
      then (none, r)
      else scan_words 64 s end_idx need (complement (summary r.pmm s)) r in
    elim scanned.0 [
      | none ↦ scan_range rounds (s + 1) end_idx need scanned.1
      | some b ↦ (b, scanned.1)
    ]

unfoldable pub scan_bitmap_range : ℕ → ℕ → ℕ → Refill → Bool × Refill
scan_bitmap_range start_idx end_idx need r =
    let start = start_idx / bit_count in
    scan_range (div_roundup end_idx bit_count - start) start end_idx need r

-- The source subtracts `capacity` from itself.
abbrev pub refill_need : PerCpuCache → ℕ
refill_need cache =
    if ltb cache.capacity (cache.count + batch_size)
    then cache.capacity - cache.capacity
    else batch_size

abbrev pub refill_start : Pmm → ℕ
refill_start m =
    if ltb m.low_mem_threshold_idx m.total_pages && ltb m.free_idx_hint m.low_mem_threshold_idx
    then m.low_mem_threshold_idx / bit_count
    else m.free_idx_hint / bit_count

unfoldable pub cache_refill : Pmm → PerCpuCache → Pmm × PerCpuCache
cache_refill m cache =
    let need = refill_need cache in
    let start_idx = refill_start m in
    let first =
      scan_bitmap_range start_idx m.bitmap_entries need
        (record { pmm = m; cache = cache; collected = 0 }) in
    let r =
      if not first.0 && ltb 0 start_idx
      then (scan_bitmap_range 0 start_idx need first.1).1
      else first.1 in
    let m1 = r.pmm in
    if need == 0
    then (m, cache)
    else (record m1 { used_pages = (m1.used_pages + r.collected) % u64_mod }, r.cache)

-- The local variables of the loop of `cache_flush`.
pub record Flush : Type 0 where
  pub state : Pmm
  pub last_word_idx : ℕ
  pub curr_word_val : ℕ
  pub dirty : Bool

unfoldable pub commit : Flush → Pmm
commit f =
    let m = f.state in
    if f.dirty && ltb f.last_word_idx m.bitmap_entries
    then mark_open (put_word m f.last_word_idx f.curr_word_val) f.last_word_idx
    else m

-- One address of the flushed ones.
unfoldable pub flush_page : Flush → ℕ → Flush
flush_page f phys_addr =
    let page_idx = phys_addr / page_size in
    let word_idx = page_idx / bit_count in
    let m = commit f in
    let f1 = if word_idx == f.last_word_idx then f else record {
      state = m;
      last_word_idx = word_idx;
      curr_word_val = word m word_idx;
      dirty = true;
    } in
    let m1 = f1.state in
    if leb f.state.total_pages page_idx then f else record f1 {
      curr_word_val = clear_in f1.curr_word_val (page_idx % bit_count);
      state = record m1 {
        used_pages = sub64 m1.used_pages 1;
        free_idx_hint = if ltb page_idx m1.free_idx_hint then page_idx else m1.free_idx_hint;
        aligned_index_hint =
            (if ltb page_idx m1.aligned_index_hint then page_idx else m1.aligned_index_hint);
      };
    }

unfoldable pub flush_pages : Flush → List ℕ → Flush
flush_pages f [] = f
flush_pages f (x ∷ xs) = flush_pages (flush_page f x) xs

unfoldable pub drop : ℕ → List ℕ → List ℕ
drop zero xs = xs
drop (suc n) [] = []
drop (suc n) (x ∷ xs) = drop n xs

-- `qsort` sorts numbers upwards.
unfoldable pub cache_flush : (List ℕ → List ℕ) → Pmm → PerCpuCache → Pmm × PerCpuCache
cache_flush qsort m cache =
    let target_count = cache.capacity / 2 in
    let flush_count = cache.capacity - target_count in
    let flush_start = drop target_count cache.stack in
    let sorted = if ltb 1 flush_count then qsort flush_start else flush_start in
    let f =
      flush_pages (record { state = m; last_word_idx = all_ones; curr_word_val = 0; dirty = false })
        (take flush_count sorted) in
    if leb cache.capacity target_count then (m, cache) else (
      commit f,
      record cache { stack = take target_count cache.stack ++ sorted; count = target_count },
    )
