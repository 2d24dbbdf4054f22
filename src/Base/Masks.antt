-- ===== src/Base/Masks.antt =====
-- Masks and packed fields as arithmetic, for every width.
use native.Mathlib.Nat.{
  pow-suc, one-le-pow, pow-le-pow_right, div-div-eq-div-mul, pow-succ', div-add-mod',
}
use Prim.Native.Nat.{ℕ, zero, suc, ◌+◌, ◌-◌, ◌*◌, ◌/◌, ◌%◌, ◌^◌, ◌≤◌, ◌<◌, bit_and, bit_or}
use mathlib.Core.Path.{◌≡◌, ap}
use native.Mathlib.Omega.{arith}
use noise_v.Base.Digits.{
  digit, digit-zero, digit-le, digit-bit_and, digit-bit_or, digit_of_complement, digit_ext,
  bit_and-halves, bit_or-halves, bit_or-lt, bit_and-le, lt-two-pow,
}
use noise_v.Base.Words.{bit_and-zero}

sub_zero : (n : ℕ) → n - 0 ≡ n
sub_zero n = omega arith

pub bit_and_ones : (w n : ℕ) → n < 2 ^ w → bit_and n (2 ^ w - 1) ≡ n
bit_and_ones w n h =
    digit_ext w (bit_and n (2 ^ w - 1)) n (omega (arith, bit_and-le n (2 ^ w - 1))) h λ i p. omega (
      arith,
      digit-bit_and n (2 ^ w - 1) i,
      ap (λ t. digit t i) (sub_zero (2 ^ w - 1)),
      digit_of_complement w 0 i (one-le-pow w 2 (omega arith)) p,
      digit-zero i,
      digit-le n i,
    )

-- A mask of ones above digit `k` drops the digits below it.
pub bit_and_high : (k w n : ℕ) → k ≤ w → n < 2 ^ w → bit_and n (2 ^ w - 2 ^ k) ≡ n / 2 ^ k * 2 ^ k
bit_and_high zero w n p h = omega (arith, bit_and_ones w n h)
bit_and_high (suc k) zero n p h = absurd (omega arith)
bit_and_high (suc k) (suc w) n p h =
    let smaller = pow-le-pow_right {n = 2} (omega arith) {i = k} {j = w} (omega arith) in
    let half : (2 ^ suc w - 2 ^ suc k) / 2 ≡ 2 ^ w - 2 ^ k =
      omega (arith, pow-suc 2 w, pow-suc 2 k) in
    let even : (2 ^ suc w - 2 ^ suc k) % 2 ≡ 0 = omega (arith, pow-suc 2 w, pow-suc 2 k, smaller) in
    let step = rw (half, even) at (bit_and-halves n (2 ^ suc w - 2 ^ suc k)) in
    let rest = bit_and_high k w (n / 2) (omega arith) (omega (arith, pow-suc 2 w)) in
    let quotient = rw (← pow-succ' 2 k) at (div-div-eq-div-mul n 2 (2 ^ k)) in
    omega (
      arith,
      step,
      rest,
      quotient,
      ap (λ (t : ℕ). n / 2 ^ suc k * t) (pow-suc 2 k),
      ap (λ (t : ℕ). t * 2 ^ k) quotient,
    )

-- A mask of ones below digit `k` keeps the remainder.
pub bit_and_low : (k n : ℕ) → bit_and n (2 ^ k - 1) ≡ n % 2 ^ k
bit_and_low zero n = omega (arith, bit_and-zero n n (lt-two-pow n))
bit_and_low (suc k) n =
    let half : (2 ^ suc k - 1) / 2 ≡ 2 ^ k - 1 = omega (arith, pow-suc 2 k, one-le-pow k 2) in
    let odd : (2 ^ suc k - 1) % 2 ≡ 1 = omega (arith, pow-suc 2 k, one-le-pow k 2) in
    let step = rw (half, odd) at (bit_and-halves n (2 ^ suc k - 1)) in
    let quotient = rw (← pow-succ' 2 k) at (div-div-eq-div-mul n 2 (2 ^ k)) in
    omega (
      arith,
      step,
      bit_and_low k (n / 2),
      div-add-mod' (n / 2) (2 ^ k),
      div-add-mod' n (2 ^ suc k),
      ap (λ (t : ℕ). n / 2 ^ suc k * t) (pow-suc 2 k),
      ap (λ (t : ℕ). t * 2 ^ k) quotient,
    )

bit_or-zero : (q : ℕ) → bit_or q 0 ≡ q
bit_or-zero q =
    digit_ext q (bit_or q 0) q (bit_or-lt q q 0 (lt-two-pow q) (one-le-pow q 2 (omega arith)))
      (lt-two-pow q) (λ i p. omega (arith, digit-bit_or q 0 i, digit-zero i))

-- `(q << k) | r` is a sum when `r` has no digit from `k` on.
pub bit_or_packs : (k q r : ℕ) → r < 2 ^ k → bit_or (q * 2 ^ k) r ≡ q * 2 ^ k + r
bit_or_packs zero q r h =
    let e : r ≡ 0 = omega arith in
    let f : q * 1 ≡ q = omega arith in rw (e, f, bit_or-zero q) (omega arith)
bit_or_packs (suc k) q r h =
    let twice = ap (λ (t : ℕ). q * t) (pow-suc 2 k) in
    let half : q * 2 ^ suc k / 2 ≡ q * 2 ^ k = omega (arith, twice) in
    let even : q * 2 ^ suc k % 2 ≡ 0 = omega (arith, twice) in
    let step = rw (half, even) at (bit_or-halves (q * 2 ^ suc k) r) in
    omega (arith, step, twice, bit_or_packs k q (r / 2) (omega (arith, pow-suc 2 k)))
