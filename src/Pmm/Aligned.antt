-- ===== src/Pmm/Aligned.antt =====
-- `alloc_aligned` of kernel/src/memory/pmm.cpp.
use native.Mathlib.Nat.{one-le-pow}
use noise_v.Base.{
  ℕ, ◌+◌, ◌*◌, ◌/◌, ◌%◌, ◌^◌, ◌≤◌, ◌<◌, ◌≡◌, ◌≢◌, refl, ap, ◌⊎◌, inl, inr, true, false, not, ◌||◌,
  Option, some, arith, ltb, leb, ◌==◌, if◌then◌else◌, Bool-cases, Option-cases,
}
use noise_v.Align.{align_up}
use noise_v.Align.Bounds.{align_up_bounds}
use noise_v.Pmm.{Pmm, page_size}
use noise_v.Pmm.Bits.{IsValid, used}
use noise_v.Pmm.Alloc.{
  set_bits, page_size_2m, claim, try_alloc, prefer_high, search_aligned, with_lock, alloc_aligned,
}
use noise_v.Pmm.Runs.{within, AreFree, set_bits_lem, Fits, find_fit-Fits}

-- `m'` is `m` after a run of `count` free pages at address `addr`, aligned to `per` pages, was taken.
pub record IsTaken (m : Pmm) (count per addr : ℕ) (m' : Pmm) : Type 0 where
  pub page : ℕ
  pub address : addr ≡ page * page_size
  pub aligned : page % per ≡ 0
  pub managed : page + count ≤ m.total_pages
  pub free_before : AreFree m page count
  pub used_after : (j : ℕ) → used m' j ≡ (if within page count j then 1 else used m j)
  pub valid : IsValid m'

pub copy-IsValid :
    (m m' : Pmm)
    → IsValid m
    → m'.bitmap ≡ m.bitmap
    → m'.summary_bitmap ≡ m.summary_bitmap
    → m'.bitmap_entries ≡ m.bitmap_entries
    → m'.total_pages ≡ m.total_pages
    → IsValid m'
copy-IsValid m m' v eb es ee et =
    rw (eb, es, ee, et)
      (record {
        words_size = v.words_size;
        summary_size = v.summary_size;
        pages = v.pages;
        words = v.words;
        summaries = v.summaries;
        full_iff = v.full_iff;
      })

claim-lem :
    (m : Pmm) (page count per alignment : ℕ)
    → IsValid m
    → Fits m count per (some page)
    → IsTaken m count per (page * page_size) (claim m page count alignment)
unfolding Fits claim
claim-lem m page count per alignment v f =
    let (managed, aligned, free) = f in
    let (bits, valid, _) = set_bits_lem count m page v managed in
    elim (Bool-cases (leb page_size_2m alignment)) [
      | inl e ↦ rw e (record {
        page = page;
        address = refl;
        aligned = aligned;
        managed = managed;
        free_before = free;
        used_after = bits;
        valid = copy-IsValid (set_bits count m page) _ valid refl refl refl refl;
      })
      | inr e ↦ rw e (record {
        page = page;
        address = refl;
        aligned = aligned;
        managed = managed;
        free_before = free;
        used_after = bits;
        valid = copy-IsValid (set_bits count m page) _ valid refl refl refl refl;
      })
    ]

module _ (count k : ℕ) (h : k < 52) where
  -- `alignment` and the pages that it stands for.
  alignment : ℕ
  alignment = page_size * 2 ^ k

  per_of : alignment / page_size ≡ 2 ^ k
  unfolding alignment
  per_of = omega arith

  Tried : Pmm → Option (ℕ × Pmm) → Type 0
  Tried m r =
      (r ≡ some (0, m))
      ⊎ ((addr : ℕ) × (m' : Pmm) × (r ≡ some (addr, m')) × IsTaken m count (2 ^ k) addr m')

  try_alloc-Tried :
      (m : Pmm) (start end : ℕ)
      → IsValid m
      → start ≤ m.total_pages
      → end ≤ m.total_pages
      → m.total_pages + 4096 + 2 ^ k ≤ 2 ^ 64
      → m.total_pages + count ≤ 2 ^ 64
      → Tried m (try_alloc m start end count alignment)
  unfolding Tried try_alloc Fits
  try_alloc-Tried m start end v s e room few =
      let first = align_up_bounds k (omega (arith, h)) start (omega (arith, s, room)) in
      let (r, found, fits) =
        find_fit-Fits m end count k v (omega (arith, h)) e room few (end + 1)
          (align_up start (2 ^ k)) (omega arith) (omega arith) first.2 in
      elim (Option-cases r) [
        | inl none_left ↦ rw (per_of, found, try_alloc) (rw none_left (inl refl))
        | inr some_left ↦
            let (page, f) = some_left in
            let fits' = rw f at fits in
            rw (per_of, found, try_alloc)
              (rw f (
                inr (
                  page * page_size,
                  claim m page count alignment,
                  refl,
                  claim-lem m page count (2 ^ k) alignment v fits',
                )))
      ]

  -- Page 0 is never handed out, so an address that was found is not the null pointer.
  taken-address :
      (m : Pmm) (addr : ℕ) (m' : Pmm)
      → 0 < count
      → used m 0 ≡ 1
      → IsTaken m count (2 ^ k) addr m'
      → addr ≢ 0
  taken-address m addr m' pos first t e =
      let origin : t.page ≡ 0 = omega (arith, t.address, e) in
      omega (arith, first, t.free_before 0 pos, ap (λ p. used m (p + 0)) origin)

  search_aligned-Tried :
      (m : Pmm)
      → IsValid m
      → 0 < count
      → used m 0 ≡ 1
      → m.free_idx_hint ≤ m.total_pages
      → m.aligned_index_hint ≤ m.total_pages
      → m.low_mem_threshold_idx ≤ m.total_pages
      → m.total_pages + 4096 + 2 ^ k ≤ 2 ^ 64
      → m.total_pages + count ≤ 2 ^ 64
      → Tried m (search_aligned count alignment m)
  unfolding search_aligned Tried
  search_aligned-Tried m v pos first hint aligned_hint low room few =
      let start =
        if leb page_size_2m alignment
        then m.aligned_index_hint
        else prefer_high m m.free_idx_hint in
      let start_in : start ≤ m.total_pages = ground (arith, hint, aligned_hint, low) in
      elim (try_alloc-Tried m start m.total_pages v start_in (omega arith) room few) [
        | inr taken ↦
            let (addr, m', e, t) = taken in
            let not_null : (addr == 0) ≡ false =
              ground (arith, taken-address m addr m' pos first t) in
            rw (e, search_aligned) (rw not_null (inr (addr, m', refl, t)))
        | inl e ↦
            rw (e, search_aligned)
              (elim (Bool-cases (ltb 0 m.free_idx_hint)) [
                | inl f ↦ rw f (try_alloc-Tried m 0 m.free_idx_hint v (omega arith) hint room few)
                | inr f ↦ rw f (inl refl)
              ])
      ]

whole : (n : ℕ) → page_size * n % page_size ≡ 0
whole n = omega arith

-- `alloc_aligned` of at least one page on a valid manager whose lock is free, for an alignment of `2 ^ k`
-- pages with k below 52, with page 0 in use, the hints and the threshold of low memory within the
-- managed pages, and room for 4096 pages and the alignment above these in a word, and for `count` more
-- pages, returns: either the
-- null pointer, with every bit as it was, or the address of an aligned run of free managed pages, which
-- are now in use while all other pages are as they were. The manager stays valid.
pub alloc_aligned_lem :
    (m : Pmm) (count k : ℕ)
    → IsValid m
    → m.locked ≡ false
    → 0 < count
    → k < 52
    → used m 0 ≡ 1
    → m.free_idx_hint ≤ m.total_pages
    → m.aligned_index_hint ≤ m.total_pages
    → m.low_mem_threshold_idx ≤ m.total_pages
    → m.total_pages + 4096 + 2 ^ k ≤ 2 ^ 64
    → m.total_pages + count ≤ 2 ^ 64
    → (addr : ℕ) × (m' : Pmm) × (alloc_aligned m count (page_size * 2 ^ k) ≡ some (addr, m'))
      × (((addr ≡ 0) × ((j : ℕ) → used m' j ≡ used m j) × IsValid m')
          ⊎ IsTaken m count (2 ^ k) addr m')
unfolding alloc_aligned with_lock alignment Tried
alloc_aligned_lem m count k v free pos h first hint aligned_hint low room few =
    let held = record m { locked = true } in
    let ok : ((count == 0)
          || ((page_size * 2 ^ k == 0) || not (page_size * 2 ^ k % page_size == 0)))
        ≡ false =
      ground (arith, one-le-pow k 2, whole (2 ^ k)) in
    let found =
      search_aligned-Tried count k h held (copy-IsValid m held v refl refl refl refl) pos first hint
        aligned_hint low room few in
    rw (ok, free)
      (elim found [
        | inl e ↦
            rw (e, with_lock)
              (
                0,
                record held { locked = false },
                refl,
                inl (
                  refl,
                  λ j. refl,
                  copy-IsValid m (record held { locked = false }) v refl refl refl refl,
                ),
              )
        | inr taken ↦
            let (addr, m', e, t) = taken in
            let m2 = record m' { locked = false } in
            rw (e, with_lock)
              (
                addr,
                m2,
                refl,
                inr (record {
                  page = t.page;
                  address = t.address;
                  aligned = t.aligned;
                  managed = t.managed;
                  free_before = t.free_before;
                  used_after = t.used_after;
                  valid = copy-IsValid m' m2 t.valid refl refl refl refl;
                }),
              )
      ])
