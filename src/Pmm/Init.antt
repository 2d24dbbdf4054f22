-- ===== src/Pmm/Init.antt =====
-- `PhysicalManager::init` of kernel/src/memory/pmm.cpp, without its log.
use noise_v.Base.{
  ℕ, ◌+◌, ◌-◌, ◌*◌, ◌/◌, ◌%◌, ◌^◌, Bool, true, false, not, ◌&&◌, ◌||◌, Option, none, some, List, [],
  ◌∷◌, ltb, leb, ◌==◌, if◌then◌else◌, set, replicate,
}
use noise_v.Base.Words.{u64_mod, all_ones}
use noise_v.Align.{align_up, div_roundup}
use noise_v.Pmm.{page_size, cache_size, Pmm}
use noise_v.Pmm.Free.{MemmapEntry, free}

-- LIMINE_MEMMAP_USABLE, _ACPI_RECLAIMABLE, _BOOTLOADER_RECLAIMABLE and _EXECUTABLE_AND_MODULES.
abbrev pub is_candidate : ℕ → Bool
is_candidate type = (type == 0) || ((type == 5) || ((type == 6) || (type == 2)))

unfoldable pub highest_addr : List MemmapEntry → ℕ → ℕ
highest_addr [] highest = highest
highest_addr (e ∷ entries) highest =
    let end = (e.base + e.size) % u64_mod in
    highest_addr entries (if is_candidate e.type && ltb highest end then end else highest)

abbrev pub fits : MemmapEntry → ℕ → Bool
fits e bytes = (e.type == 0) && leb bytes e.size

-- The index of the usable entry with the highest base that is not 0, among those from `i` on.
unfoldable pub best_high :
    List MemmapEntry → ℕ → ℕ → Option (ℕ × MemmapEntry) → Option (ℕ × MemmapEntry)
best_high [] bytes i best = best
best_high (e ∷ entries) bytes i best =
    let better : Bool = elim best [ none ↦ true | some b ↦ ltb (b.1).base e.base ] in
    best_high entries bytes (i + 1)
      (if not (e.base == 0) && (fits e bytes && better) then some (i, e) else best)

unfoldable pub first_fit : List MemmapEntry → ℕ → ℕ → Option (ℕ × MemmapEntry)
first_fit [] bytes i = none
first_fit (e ∷ entries) bytes i =
    let rest = first_fit entries bytes (i + 1) in if fits e bytes then some (i, e) else rest

-- The entry shortened by its first page when its base is 0, then by the metadata; `none` is a panic.
unfoldable pub reserve : MemmapEntry → ℕ → Option MemmapEntry
reserve e bytes =
    let size = if e.base == 0 then e.size - page_size else e.size in
    if (e.base == 0) && ltb size bytes
    then none
    else some (record e { base = (e.base + bytes) % u64_mod; size = size - bytes })

pub record Sizes : Type 0 where
  pub pages : ℕ
  pub threshold : ℕ
  pub bitmap_bytes : ℕ
  pub summary_bytes : ℕ
  pub metadata_bytes : ℕ

unfoldable pub sizes : List MemmapEntry → ℕ → Sizes
sizes entries num_cpus =
    let pages = div_roundup (highest_addr entries 0) page_size in
    let four_gib = 2 ^ 32 / page_size in
    let bitmap_bytes = align_up (div_roundup pages 8) 8 in
    let summary_bytes = align_up (div_roundup (bitmap_bytes / 8) 8) 8 in
    record {
      pages = pages;
      threshold = if ltb pages four_gib then pages else four_gib;
      bitmap_bytes = bitmap_bytes;
      summary_bytes = summary_bytes;
      metadata_bytes = bitmap_bytes + summary_bytes + num_cpus * 64 + num_cpus * (cache_size * 8);
    }

-- All pages in use, all caches empty.
unfoldable pub blank_state : Sizes → ℕ → Pmm
blank_state s num_cpus =
    let hint = if ltb s.threshold s.pages then s.threshold else 0 in
    record {
      bitmap = replicate (s.bitmap_bytes / 8) all_ones;
      summary_bitmap = replicate (s.summary_bytes / 8) all_ones;
      total_pages = s.pages;
      summary_entries = s.summary_bytes / 8;
      bitmap_entries = s.bitmap_bytes / 8;
      used_pages = s.pages;
      low_mem_threshold_idx = s.threshold;
      free_idx_hint = hint;
      aligned_index_hint = hint;
      cpus =
          replicate num_cpus
            (record { stack = replicate cache_size 0; count = 0; capacity = cache_size });
      num_cpus = num_cpus;
      locked = false;
    }

-- One usable entry of the map is released.
unfoldable pub populate_entry : (List ℕ → List ℕ) → Pmm → MemmapEntry → Option Pmm
populate_entry qsort m e =
    let base = if e.base == 0 then page_size else e.base in
    let len = if e.base == 0 then e.size - page_size else e.size in
    if not (e.type == 0)
    then some m
    else if (e.base == 0) && ltb e.size page_size
    then some m
    else if ltb 0 len
    then free qsort m 0 base (len / page_size)
    else some m

unfoldable pub populate : (List ℕ → List ℕ) → Pmm → List MemmapEntry → Option Pmm
populate qsort m [] = some m
populate qsort m (e ∷ entries) = elim (populate_entry qsort m e) [
  | none ↦ none
  | some m1 ↦ populate qsort m1 entries
]

-- `none` is a panic. The map is restored afterwards.
unfoldable pub init : (List ℕ → List ℕ) → List MemmapEntry → ℕ → Option Pmm
init qsort memmaps cpu_count =
    let num_cpus = if ltb 0 cpu_count then cpu_count else 1 in
    let s = sizes memmaps num_cpus in
    let fallback = first_fit memmaps s.metadata_bytes 0 in
    let candidate : Option (ℕ × MemmapEntry) = elim (best_high memmaps s.metadata_bytes 0 none) [
      | none ↦ fallback
      | some b ↦ some b
    ] in
    elim candidate [
      | none ↦ none
      | some b ↦ elim (reserve b.1 s.metadata_bytes) [
        | none ↦ none
        | some e ↦ populate qsort (blank_state s num_cpus) (set memmaps b.0 e)
      ]
    ]
