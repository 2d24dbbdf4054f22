-- ===== src/Pmm/Single.antt =====
-- `alloc_from_bitmap` and `alloc` of kernel/src/memory/pmm.cpp.
use noise_v.Base.{
  ℕ, zero, suc, ◌+◌, ◌-◌, ◌*◌, ◌/◌, ◌%◌, ◌<◌, ◌≡◌, refl, ◌⊎◌, inl, inr, true, false, not, ◌||◌,
  Option, none, some, arith, ltb, leb, ◌==◌, if◌then◌else◌, Bool-cases, Option-cases,
}
use noise_v.Base.Words.{all_ones, first_zero, first_zero_lem}
use noise_v.Pmm.{Pmm, page_size, bit_count, word, summary, set_bit}
use noise_v.Pmm.Bits.{IsValid, used, set_bit_lem}
use noise_v.Pmm.Alloc.{
  free_page, find_page, find_single, take_page, prefer_high, alloc_from_bitmap, alloc_aligned,
  with_lock, alloc,
}
use noise_v.Pmm.Aligned.{copy-IsValid}

-- A page that a search finds is managed and free.
IsFound : Pmm → Option ℕ → Type 0
IsFound m none = Unit
IsFound m (some idx) = (idx < m.total_pages) × (used m idx ≡ 0)

free_page-IsFound : (m : Pmm) (s : ℕ) → IsValid m → IsFound m (free_page m s)
unfolding free_page IsFound
free_page-IsFound m s v =
    let map_idx = s * bit_count + first_zero (summary m s) in
    let w = word m map_idx in
    let idx = map_idx * bit_count + first_zero w in
    elim (Bool-cases (summary m s == all_ones)) [
      | inl e ↦ rw e tt
      | inr e ↦ rw e (elim (Bool-cases (leb m.bitmap_entries map_idx)) [
        | inl f ↦ rw f tt
        | inr f ↦ rw f (elim (Bool-cases (w == all_ones)) [
          | inl g ↦ rw g tt
          | inr g ↦ rw g (elim (Bool-cases (leb m.total_pages idx)) [
            | inl h ↦ rw h tt
            | inr h ↦
                let (below, hit, _) = first_zero_lem w (v.words map_idx) (ground (arith, g)) in
                let high : idx / 64 ≡ map_idx = omega (arith, below) in
                let low : idx % 64 ≡ first_zero w = omega (arith, below) in
                rw h (ground (arith, h), rw (high, low) hit)
          ])
        ])
      ])
    ]

find_page-IsFound : (rounds : ℕ) (m : Pmm) (s : ℕ) → IsValid m → IsFound m (find_page rounds m s)
unfolding find_page IsFound
find_page-IsFound zero m s v = tt
find_page-IsFound (suc rounds) m s v =
    let here = free_page-IsFound m s v in
    let rest = find_page-IsFound rounds m (s + 1) v in
    elim (Option-cases (free_page m s)) [
      | inl e ↦ rw (e, find_page) rest
      | inr found ↦ let (idx, e) = found in rw (e, find_page) (rw e at here)
    ]

find_single-IsFound : (m : Pmm) → IsValid m → IsFound m (find_single m)
unfolding find_single IsFound
find_single-IsFound m v =
    let from = prefer_high m m.free_idx_hint / bit_count / bit_count in
    let first = find_page-IsFound (m.summary_entries - from) m from v in
    let wrapped = find_page-IsFound from m 0 v in
    elim (Option-cases (find_page (m.summary_entries - from) m from)) [
      | inr found ↦ let (idx, e) = found in rw (e, find_single) (rw e at first)
      | inl e ↦
          rw (e, find_single)
            (elim (Bool-cases (ltb 0 m.free_idx_hint)) [ inl f ↦ rw f wrapped | inr f ↦ rw f tt ])
    ]

aligned_held :
    (m : Pmm) (count : ℕ) → m.locked ≡ true → 0 < count → alloc_aligned m count page_size ≡ none
unfolding alloc_aligned with_lock
aligned_held m count e h =
    let ok : ((count == 0) || ((page_size == 0) || not (page_size % page_size == 0))) ≡ false =
      ground arith in
    rw ok (rw e refl)

-- A single page that is asked for under the lock of a valid manager is either a managed page that was
-- free, which is now in use while all other pages are as they were and the manager stays valid, or, where
-- the search by the summary finds none, the call never returns.
pub alloc_from_bitmap_single :
    (m : Pmm)
    → IsValid m
    → m.locked ≡ true
    → ((find_single m ≡ none) × (alloc_from_bitmap 1 m ≡ none))
      ⊎ ((idx : ℕ) × (m' : Pmm) × (alloc_from_bitmap 1 m ≡ some (idx * page_size, m'))
          × (idx < m.total_pages)
          × (used m idx ≡ 0)
          × ((j : ℕ) → used m' j ≡ (if idx == j then 1 else used m j))
          × IsValid m')
unfolding alloc_from_bitmap IsFound
alloc_from_bitmap_single m v held =
    let sound = find_single-IsFound m v in
    elim (Option-cases (find_single m)) [
      | inl e ↦ inl (e, rw (e, alloc_from_bitmap) (aligned_held m 1 held (omega arith)))
      | inr found ↦
          let (idx, e) = found in
          let (managed, free) = rw e at sound in
          let (bits, valid) = set_bit_lem m idx v managed in
          inr (
            idx,
            take_page m idx,
            rw (e, alloc_from_bitmap) refl,
            managed,
            free,
            bits,
            copy-IsValid (set_bit m idx) (take_page m idx) valid refl refl refl refl,
          )
    ]

-- `alloc` of more than one page never returns: it takes the lock and calls `alloc_aligned`, which
-- takes it again.
pub alloc_run_hangs : (m : Pmm) (core_id count : ℕ) → 1 < count → alloc m core_id count ≡ none
unfolding alloc alloc_from_bitmap with_lock
alloc_run_hangs m core_id count h =
    let nonzero : (count == 0) ≡ false = ground arith in
    let many : (count == 1) ≡ false = ground arith in
    rw (nonzero, many)
      (elim (Bool-cases m.locked) [
        | inl e ↦ rw e refl
        | inr e ↦ rw e (
            rw (aligned_held (record m { locked = true }) count refl (omega arith), with_lock) refl)
      ])
