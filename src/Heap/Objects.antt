-- ===== src/Heap/Objects.antt =====
-- The objects of kernel/src/memory/heap.cpp: their sizes, and the free list of a new slab.
use native.Mathlib.Decide.{dec_lt}
use native.Mathlib.Nat.{two-pow-succ, pow-le-pow_right}
use noise_v.Base.{
  ℕ, zero, suc, ◌+◌, ◌-◌, ◌*◌, ◌/◌, ◌^◌, ◌≤◌, ◌<◌, ◌≡◌, refl, ap, ◌∙◌, ◌⊎◌, inl, inr, none, some,
  arith, ltb, leb, ◌==◌, Bool-cases,
}
use noise_v.Heap.Headers.{bit_width, get_size_idx, class_size}

bit_width-zero : (fuel : ℕ) → bit_width fuel 0 ≡ 0
unfolding bit_width
bit_width-zero zero = refl
bit_width-zero (suc fuel) = refl

bit_width_lem :
    (fuel n : ℕ)
    → n < 2 ^ fuel
    → (n < 2 ^ bit_width fuel n) × (0 < n → 2 ^ bit_width fuel n ≤ 2 * n)
unfolding bit_width
bit_width_lem zero n h = (omega arith, λ p. omega arith)
bit_width_lem (suc fuel) n h = elim (Bool-cases (n == 0)) [
  | inl e ↦ rw e (ground arith, λ p. ground arith)
  | inr e ↦
      let (above, below) = bit_width_lem fuel (n / 2) (omega (arith, two-pow-succ fuel)) in
      let w = bit_width fuel (n / 2) in
      let width : bit_width (suc fuel) n ≡ suc w = rw e (omega arith) in
      let double : 2 ^ suc w ≡ 2 ^ w + 2 ^ w = two-pow-succ w in
      rw width (
        omega (arith, above, double),
        λ p. elim (dec_lt 0 (n / 2)) [
          | yes more ↦ omega (arith, below more, double)
          | no one ↦
              let none_left : n / 2 ≡ 0 = omega arith in
              let least : w ≡ 0 = ap (bit_width fuel) none_left ∙ bit_width-zero fuel in
              omega (arith, double, ap (λ i. 2 ^ i) least)
        ],
      )
]

-- The class of a width of at least 5.
class_of_width :
    (w n : ℕ)
    → n < 2 ^ w
    → 16 ≤ n
    → 2 ^ w ≤ 2 * n
    → n < 2048
    → (n < class_size (w - 4)) × (class_size (w - 4) ≤ 2 * n) × (w - 4 < 8)
class_of_width zero n a b c d = absurd (omega arith)
class_of_width (suc zero) n a b c d = absurd (omega arith)
class_of_width (suc (suc zero)) n a b c d = absurd (omega arith)
class_of_width (suc (suc (suc zero))) n a b c d = absurd (omega arith)
class_of_width (suc (suc (suc (suc w)))) n a b c d =
    let same : suc (suc (suc (suc w))) - 4 ≡ w = omega arith in
    let whole : 2 ^ suc (suc (suc (suc w))) ≡ 16 * 2 ^ w = omega arith in
    let small : w < 8 = elim (dec_lt w 8) [
      | yes h ↦ h
      | no h ↦
          absurd
            (omega (arith, pow-le-pow_right {n = 2} (omega arith) {i = 8} {j = w} (omega arith)))
    ] in
    rw same (omega (arith, whole), omega (arith, whole), small)

-- A size of at most 2048 gets the class of the smallest objects that hold it: one of the eight
-- classes, either the first or one with objects of less than twice the size. A larger size has none.
pub get_size_idx_lem :
    (size : ℕ)
    → ((2048 < size) × (get_size_idx size ≡ none))
      ⊎ ((idx : ℕ) × (get_size_idx size ≡ some idx)
          × (idx < 8)
          × (size ≤ class_size idx)
          × ((idx ≡ 0) ⊎ (class_size idx < 2 * size)))
unfolding get_size_idx
get_size_idx_lem size = elim (Bool-cases (ltb 2048 size)) [
  | inl large ↦ inl (ground arith, rw large refl)
  | inr small ↦ elim (Bool-cases (leb size 16)) [
    | inl least ↦ inr (0, rw (small, least) refl, omega arith, ground arith, inl refl)
    | inr more ↦
        let n = size - 1 in
        let (above, below) = bit_width_lem 64 n (ground arith) in
        let (a, b, c) =
          class_of_width (bit_width 64 n) n above (ground arith) (below (ground arith))
            (ground arith) in
        inr (bit_width 64 n - 4, rw (small, more) refl, c, omega (arith, a), inr (omega (arith, b)))
  ]
]
