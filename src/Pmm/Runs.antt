-- ===== src/Pmm/Runs.antt =====
-- Runs of pages in kernel/src/memory/pmm.cpp: marking them and looking for them.
use native.Mathlib.Decide.{dec_lt}
use noise_v.Base.{
  ℕ, zero, suc, ◌+◌, ◌*◌, ◌/◌, ◌%◌, ◌^◌, ◌≤◌, ◌<◌, ◌≡◌, refl, ◌∙◌, inl, inr, Bool, ◌&&◌, Option,
  none, some, arith, ltb, leb, ◌==◌, if◌then◌else◌, Bool-cases, Option-cases,
}
use noise_v.Base.Digits.{digit-le}
use noise_v.Base.Words.{u64_mod, all_ones, set_in}
use noise_v.Align.{align_up}
use noise_v.Align.Bounds.{align_up_bounds}
use noise_v.Pmm.{Pmm, bit_count, word, mark_full, set_bit, test_bit}
use noise_v.Pmm.Bits.{IsValid, used, set_bit_lem, test_bit-used}
use noise_v.Pmm.Alloc.{find_used, set_bits, find_fit, skips}

-- A page of the run of `count` from `p` on.
abbrev pub within : ℕ → ℕ → ℕ → Bool
within p count j = leb p j && ltb j (p + count)

abbrev pub AreFree : Pmm → ℕ → ℕ → Type 0
AreFree m p count = (o : ℕ) → o < count → used m (p + o) ≡ 0

pub total-set_bit : (m : Pmm) (idx : ℕ) → (set_bit m idx).total_pages ≡ m.total_pages
unfolding set_bit mark_full
total-set_bit m idx = elim (Bool-cases (set_in (word m (idx / 64)) (idx % 64) == all_ones)) [
  | inl e ↦ rw e refl
  | inr e ↦ rw e refl
]

-- Marking a run of managed pages marks exactly these.
pub set_bits_lem :
    (n : ℕ) (m : Pmm) (idx : ℕ)
    → IsValid m
    → idx + n ≤ m.total_pages
    → ((j : ℕ) → used (set_bits n m idx) j ≡ (if within idx n j then 1 else used m j))
      × IsValid (set_bits n m idx)
      × ((set_bits n m idx).total_pages ≡ m.total_pages)
unfolding set_bits
set_bits_lem zero m idx v h = (λ j. ground arith, v, refl)
set_bits_lem (suc n) m idx v h =
    let (one, v1) = set_bit_lem m idx v (omega (arith, h)) in
    let total = total-set_bit m idx in
    let (rest, v2, total2) =
      set_bits_lem n (set_bit m idx) (idx + 1) v1 (omega (arith, h, total)) in
    (λ j. rest j ∙ ground (arith, one j), v2, total2 ∙ total)

-- The offset that the scan of a run finds is of a page in use; without one, the run is free.
Scanned : Pmm → ℕ → ℕ → ℕ → Option ℕ → Type 0
Scanned m curr j rounds none = (o : ℕ) → j ≤ o → o < j + rounds → used m (curr + o) ≡ 0
Scanned m curr j rounds (some o) = (j ≤ o) × (o < j + rounds) × (used m (curr + o) ≡ 1)

find_used-Scanned :
    (rounds : ℕ) (m : Pmm) (curr j : ℕ)
    → IsValid m
    → Scanned m curr j rounds (find_used rounds m curr j)
unfolding find_used Scanned
find_used-Scanned zero m curr j v = λ o p q. absurd (omega arith)
find_used-Scanned (suc rounds) m curr j v =
    let read = test_bit-used m (curr + j) v in
    let rest = find_used-Scanned rounds m curr (j + 1) v in
    elim (Bool-cases (test_bit m (curr + j))) [
      | inl e ↦ rw e (omega arith, omega arith, ground (arith, read, e))
      | inr e ↦ rw e (elim (Option-cases (find_used rounds m curr (j + 1))) [
        | inl f ↦
            let free = rw f at rest in
            rw f (λ o p q. elim (dec_lt j o) [
              | yes r ↦ free o (omega arith) (omega arith)
              | no r ↦
                  let here : o ≡ j = omega arith in
                  rw here
                    (ground (arith, read, e, digit-le (word m ((curr + j) / 64)) ((curr + j) % 64)))
            ])
        | inr found ↦
            let (o, f) = found in
            let (p, q, r) = rw f at rest in rw f (omega (arith, p), omega (arith, q), r)
      ])
    ]

-- What the search of `try_alloc` finds is a free, aligned run of managed pages.
unfoldable pub Fits : Pmm → ℕ → ℕ → Option ℕ → Type 0
Fits m count per none = Unit
Fits m count per (some p) = (p + count ≤ m.total_pages) × (p % per ≡ 0) × AreFree m p count

-- The search ends: each round goes on at a later page.
module _ (m : Pmm) (end count k : ℕ) (v : IsValid m) (h : k < 64) (range : end ≤ m.total_pages)
    (room : m.total_pages + 4096 + 2 ^ k ≤ 2 ^ 64) (few : m.total_pages + count ≤ 2 ^ 64) where
  pub find_fit-Fits :
      (fuel curr : ℕ)
      → 0 < fuel
      → end < curr + fuel
      → curr % 2 ^ k ≡ 0
      → (r : Option ℕ) × (find_fit fuel m curr end count (2 ^ k) ≡ some r) × Fits m count (2 ^ k) r
  unfolding find_fit Fits Scanned
  find_fit-Fits zero curr more enough mult = absurd (omega arith)
  find_fit-Fits (suc fuel) curr more enough mult =
      let per = 2 ^ k in
      let scanned = find_used-Scanned count m curr 0 v in
      elim (Bool-cases (leb end curr)) [
        | inl e ↦ rw e (none, refl, tt)
        | inr e ↦ rw e (elim (Bool-cases (ltb m.total_pages ((curr + count) % u64_mod))) [
          | inl f ↦ rw f (none, refl, tt)
          | inr f ↦ rw f (elim (Bool-cases (skips m curr count)) [
            | inl s ↦
                let before : curr < end = ground (arith, e) in
                let next =
                  align_up_bounds k h (curr + bit_count * bit_count) (omega (arith, room, range)) in
                rw s (
                  find_fit-Fits fuel (align_up (curr + bit_count * bit_count) per)
                    (omega (arith, enough, before)) (omega (arith, enough, next.0)) next.2)
            | inr s ↦ rw s (elim (Option-cases (find_used count m curr 0)) [
              | inl g ↦
                  let free = rw g at scanned in
                  rw (g, find_fit)
                    (
                      some curr,
                      refl,
                      (
                        ground (arith, f, e, few, range),
                        mult,
                        λ o p. free o (omega arith) (omega arith),
                      ),
                    )
              | inr found ↦
                  let (j, g) = found in
                  let hit = rw g at scanned in
                  let before : curr < end = ground (arith, e) in
                  let fits : curr + count ≤ m.total_pages = ground (arith, f, e, few, range) in
                  let next =
                    align_up_bounds k h (curr + j + 1) (omega (arith, room, hit.1, fits)) in
                  rw (g, find_fit)
                    (find_fit-Fits fuel (align_up (curr + j + 1) per)
                      (omega (arith, enough, before)) (omega (arith, enough, next.0)) next.2)
            ])
          ])
        ])
      ]
