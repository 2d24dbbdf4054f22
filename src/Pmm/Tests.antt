-- ===== src/Pmm/Tests.antt =====
-- Instances of the theorems on physical memory: 128 pages of which those from 8 to 99 are free.
use noise_v.Base.{
  ℕ, ◌*◌, ◌^◌, ◌<◌, ◌≡◌, refl, sym, ◌∙◌, ◌⊎◌, true, false, none, some, arith, ◌==◌, if◌then◌else◌,
}
use noise_v.Pmm.{Pmm, page_size}
use noise_v.Pmm.Bits.{IsValid, used}
use noise_v.Pmm.Runs.{within}
use noise_v.Pmm.Free.{free_to_bitmap}
use noise_v.Pmm.Release.{free_to_bitmap_lem}
use noise_v.Pmm.Init.{Sizes, blank_state}
use noise_v.Pmm.Blank.{blank-IsValid, used-blank}
use noise_v.Pmm.Alloc.{alloc, alloc_aligned, alloc_from_bitmap, find_single}
use noise_v.Pmm.Aligned.{IsTaken, alloc_aligned_lem, copy-IsValid}
use noise_v.Pmm.Single.{alloc_from_bitmap_single, alloc_run_hangs}

small : Sizes
small = record {
  pages = 128;
  threshold = 128;
  bitmap_bytes = 16;
  summary_bytes = 8;
  metadata_bytes = 4184;
}

fresh : Pmm
fresh = blank_state small 1

fresh-IsValid : IsValid fresh
unfolding fresh small
fresh-IsValid = blank-IsValid small 1 (omega arith) (omega arith)

fresh-pages : fresh.total_pages ≡ 128
unfolding fresh blank_state small
fresh-pages = refl

free_to_bitmap_lem_example :
    ((j : ℕ) → used (free_to_bitmap fresh 8 92) j ≡ (if within 8 92 j then 0 else used fresh j))
    × IsValid (free_to_bitmap fresh 8 92)
    × ((free_to_bitmap fresh 8 92).total_pages ≡ fresh.total_pages)
free_to_bitmap_lem_example =
    free_to_bitmap_lem fresh 8 92 fresh-IsValid (omega (arith, fresh-pages))

-- The run is free, the lock too.
ready : Pmm
ready = record (free_to_bitmap fresh 8 92) {
  total_pages = 128;
  free_idx_hint = 8;
  aligned_index_hint = 0;
  low_mem_threshold_idx = 128;
  locked = false;
}

freed_lem :
    ((j : ℕ) → used (free_to_bitmap fresh 8 92) j ≡ (if within 8 92 j then 0 else used fresh j))
    × IsValid (free_to_bitmap fresh 8 92)
    × ((free_to_bitmap fresh 8 92).total_pages ≡ fresh.total_pages)
freed_lem = free_to_bitmap_lem fresh 8 92 fresh-IsValid (omega (arith, fresh-pages))

ready-IsValid : IsValid ready
unfolding ready
ready-IsValid =
    copy-IsValid (free_to_bitmap fresh 8 92) _ freed_lem.1 refl refl refl
      (sym (freed_lem.2 ∙ fresh-pages))

page_zero : used ready 0 ≡ 1
unfolding ready fresh
page_zero = freed_lem.0 0 ∙ used-blank small 1 0

alloc_aligned_lem_example :
    (addr : ℕ) × (m' : Pmm) × (alloc_aligned ready 3 (page_size * 2 ^ 2) ≡ some (addr, m'))
    × (((addr ≡ 0) × ((j : ℕ) → used m' j ≡ used ready j) × IsValid m')
        ⊎ IsTaken ready 3 (2 ^ 2) addr m')
unfolding ready
alloc_aligned_lem_example =
    alloc_aligned_lem ready 3 2 ready-IsValid refl (omega arith) (omega arith) page_zero
      (omega arith) (omega arith) (omega arith) (omega arith) (omega arith)

held : Pmm
held = record ready { locked = true }

held-IsValid : IsValid held
unfolding held
held-IsValid = copy-IsValid ready held ready-IsValid refl refl refl refl

alloc_from_bitmap_single_example :
    ((find_single held ≡ none) × (alloc_from_bitmap 1 held ≡ none))
    ⊎ ((idx : ℕ) × (m' : Pmm) × (alloc_from_bitmap 1 held ≡ some (idx * page_size, m'))
        × (idx < held.total_pages)
        × (used held idx ≡ 0)
        × ((j : ℕ) → used m' j ≡ (if idx == j then 1 else used held j))
        × IsValid m')
unfolding held
alloc_from_bitmap_single_example = alloc_from_bitmap_single held held-IsValid refl

alloc_run_hangs_example : alloc ready 0 2 ≡ none
alloc_run_hangs_example = alloc_run_hangs ready 0 2 (omega arith)
