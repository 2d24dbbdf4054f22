-- ===== src/Base/Words.antt =====
-- 64-bit words used as sets of bits: `|=`, `&= ~`, `&`, `~` and the builtins that the kernel
-- calls on them.
use Prim.Native.Nat.{ℕ, zero, suc, ◌+◌, ◌-◌, ◌*◌, ◌/◌, ◌%◌, ◌^◌, ◌<◌, bit_and, bit_or}
use mathlib.Core.Path.{◌≡◌, ap}
use mathlib.Core.Logic.{◌≢◌}
use mathlib.Core.Bool.{Bool, not}
use native.Mathlib.Omega.{arith}
use native.Mathlib.Nat.{pow-suc, one-le-pow, pow-le-pow_right}
use noise_v.Base.Tests.{◌==◌, if◌then◌else◌}
use noise_v.Base.Digits.{
  digit, digit-le, digit-zero, digit-bit_or, digit-bit_and, digit-pow, digit_of_complement,
  digit_ext, bit_or-lt, bit_and-le, bit_and-halves,
}

abbrev pub u64_mod : ℕ
u64_mod = 2 ^ 64

-- `~0ull`
abbrev pub all_ones : ℕ
all_ones = 2 ^ 64 - 1

-- `~x`
abbrev pub complement : ℕ → ℕ
complement x = all_ones - x

-- `word |= 1ull << b`, `word &= ~(1ull << b)`, and `word & (1ull << b)` as a condition.
unfoldable pub set_in : ℕ → ℕ → ℕ
set_in w b = bit_or w (2 ^ b)

unfoldable pub clear_in : ℕ → ℕ → ℕ
clear_in w b = bit_and w (complement (2 ^ b))

unfoldable pub test_in : ℕ → ℕ → Bool
test_in w b = not (bit_and w (2 ^ b) == 0)

-- `__builtin_ctzll` and `__builtin_popcountll` on a word of `n` bits.
unfoldable pub ctz : ℕ → ℕ → ℕ
ctz zero w = 0
ctz (suc n) w = if w % 2 == 1 then 0 else suc (ctz n (w / 2))

unfoldable pub popcount : ℕ → ℕ → ℕ
popcount zero w = 0
popcount (suc n) w = w % 2 + popcount n (w / 2)

two-pow-lt : {b : ℕ} → b < 64 → 2 ^ b < u64_mod
two-pow-lt {b} h = omega (
  arith,
  pow-le-pow_right {n = 2} (omega arith) {i = suc b} {j = 64} h,
  pow-suc 2 b,
  one-le-pow b 2,
)

pub set_in-lt : (w b : ℕ) → w < u64_mod → b < 64 → set_in w b < u64_mod
unfolding set_in
set_in-lt w b h p = bit_or-lt 64 w (2 ^ b) h (two-pow-lt p)

pub clear_in-lt : (w b : ℕ) → w < u64_mod → clear_in w b < u64_mod
unfolding clear_in
clear_in-lt w b h = omega (arith, bit_and-le w (complement (2 ^ b)))

pub digit-set_in : (w b i : ℕ) → digit (set_in w b) i ≡ (if b == i then 1 else digit w i)
unfolding set_in
digit-set_in w b i = ground (arith, digit-bit_or w (2 ^ b) i, digit-pow b i, digit-le w i)

pub digit-clear_in :
    (w b i : ℕ) → b < 64 → i < 64 → digit (clear_in w b) i ≡ (if b == i then 0 else digit w i)
unfolding clear_in
digit-clear_in w b i p q = ground (
  arith,
  digit-bit_and w (complement (2 ^ b)) i,
  digit_of_complement 64 (2 ^ b) i (two-pow-lt p) q,
  digit-pow b i,
  digit-le w i,
)

zero_of_digits : (n w : ℕ) → w < 2 ^ n → ((i : ℕ) → i < n → digit w i ≡ 0) → w ≡ 0
zero_of_digits n w h z =
    digit_ext n w 0 h (one-le-pow n 2 (omega arith)) (λ i p. rw digit-zero (z i p))

pub bit_and-zero : (w n : ℕ) → w < 2 ^ n → bit_and w 0 ≡ 0
bit_and-zero w n h =
    zero_of_digits n (bit_and w 0) (omega (arith, bit_and-le w 0))
      (λ i p. omega (arith, digit-bit_and w 0 i, digit-zero i))

-- A conjunction with one bit is that digit's weight or 0.
pub bit_and-two_pow : (w b n : ℕ) → w < 2 ^ n → bit_and w (2 ^ b) ≡ digit w b * 2 ^ b
unfolding digit
bit_and-two_pow w zero n h = omega (arith, bit_and-halves w 1, bit_and-zero (w / 2) n (omega arith))
bit_and-two_pow w (suc b) n h =
    let half : 2 ^ suc b / 2 ≡ 2 ^ b = omega (arith, pow-suc 2 b) in
    let even : 2 ^ suc b % 2 ≡ 0 = omega (arith, pow-suc 2 b) in
    let rest = bit_and-two_pow (w / 2) b n (omega arith) in
    let step = rw (half, even) at (bit_and-halves w (2 ^ suc b)) in
    omega (arith, rest, step, ap (λ (t : ℕ). digit (w / 2) b * t) (pow-suc 2 b))

one_times : (d p : ℕ) → d ≡ 1 → d * p ≡ p
one_times d p e = rw e (omega arith)

-- The test reads the digit.
pub test_in-digit : (w b : ℕ) → w < u64_mod → test_in w b ≡ (digit w b == 1)
unfolding test_in
test_in-digit w b h =
    ground
      (arith, bit_and-two_pow w b 64 h, digit-le w b, one-le-pow b 2, one_times (digit w b) (2 ^ b))

-- A word is full when each of its digits is one.
pub full_of_digits : (w : ℕ) → w < u64_mod → ((i : ℕ) → i < 64 → digit w i ≡ 1) → w ≡ all_ones
full_of_digits w h d =
    digit_ext 64 w all_ones h (omega arith)
      (λ i p. omega (arith, d i p, digit_of_complement 64 0 i (omega arith) p, digit-zero i))

-- `__builtin_ctzll` finds the lowest digit that is one.
pub digit-ctz : (n w : ℕ) → w < 2 ^ n → w ≢ 0 → (ctz n w < n) × (digit w (ctz n w) ≡ 1)
unfolding ctz digit
digit-ctz zero w h p = absurd (p (omega arith))
digit-ctz (suc n) w h p = ground (arith, pow-suc 2 n, digit-ctz n (w / 2))

pub digit_below_ctz : (n w i : ℕ) → w < 2 ^ n → w ≢ 0 → i < ctz n w → digit w i ≡ 0
unfolding ctz digit
digit_below_ctz zero w i h p q = absurd (omega arith)
digit_below_ctz (suc n) w zero h p q = ground arith
digit_below_ctz (suc n) w (suc i) h p q = ground (arith, pow-suc 2 n, digit_below_ctz n (w / 2) i)

-- Subtraction of `size_t` and `uintptr_t` values.
abbrev pub sub64 : ℕ → ℕ → ℕ
sub64 a b = (a + u64_mod - b) % u64_mod

abbrev pub add64 : ℕ → ℕ → ℕ
add64 a b = (a + b) % u64_mod

pub digit-all_ones : (i : ℕ) → i < 64 → digit all_ones i ≡ 1
digit-all_ones i h = omega (arith, digit_of_complement 64 0 i (omega arith) h, digit-zero i)

-- `__builtin_ctzll(~w)` is the lowest digit of `w` that is zero.
abbrev pub first_zero : ℕ → ℕ
first_zero w = ctz 64 (complement w)

pub first_zero_lem :
    (w : ℕ)
    → w < u64_mod
    → w ≢ all_ones
    → (first_zero w < 64)
      × (digit w (first_zero w) ≡ 0)
      × ((k : ℕ) → k < first_zero w → digit w k ≡ 1)
first_zero_lem w h ne =
    let some_zero : complement w ≢ 0 = λ e. ne (omega arith) in
    let (below, hit) = digit-ctz 64 (complement w) (omega arith) some_zero in
    (
      below,
      omega
          (arith, hit, digit_of_complement 64 w (first_zero w) h below, digit-le w (first_zero w)),
      λ k p. omega (
        arith,
        digit_below_ctz 64 (complement w) k (omega arith) some_zero p,
        digit_of_complement 64 w k h (omega arith),
        digit-le w k,
      ),
    )

-- `word & (1 << b)` is 0 exactly when the digit is.
pub bit_and-two_pow_zero : (w b : ℕ) → w < u64_mod → (bit_and w (2 ^ b) == 0) ≡ (digit w b == 0)
bit_and-two_pow_zero w b h =
    ground
      (arith, bit_and-two_pow w b 64 h, digit-le w b, one-le-pow b 2, one_times (digit w b) (2 ^ b))
