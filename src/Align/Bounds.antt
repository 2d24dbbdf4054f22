-- ===== src/Align/Bounds.antt =====
-- The masks of kernel/include/libs/math.hpp do the division that they stand for.
use native.Mathlib.Nat.{
  pow-suc, one-le-pow, pow-le-pow_right, div-add-mod', mod-lt, mul-mod_left, mul-div_cancel,
}
use noise_v.Base.{ℕ, zero, suc, ◌+◌, ◌-◌, ◌*◌, ◌/◌, ◌%◌, ◌^◌, ◌≤◌, ◌<◌, ◌≡◌, ◌↔◌, true, arith}
use noise_v.Base.Masks.{bit_and_high, bit_and_low}
use noise_v.Align.{align_down, align_up, div_roundup, is_aligned}

pred_mul : (q p : ℕ) → (q - 1) * p ≡ q * p - p
pred_mul zero p = omega arith
pred_mul (suc q) p = let e : suc q - 1 ≡ q = omega arith in rw e (omega arith)

module _ (k : ℕ) (h : k < 64) where
  power_bounds : (1 ≤ 2 ^ k) × (2 ^ k < 2 ^ 64)
  power_bounds = (
    one-le-pow k 2 (omega arith),
    omega (
      arith,
      pow-suc 2 k,
      pow-le-pow_right {n = 2} (omega arith) {i = suc k} {j = 64} h,
      one-le-pow k 2,
    ),
  )

  -- For an alignment that is a power of two `align_down` is the multiple below.
  pub align_down-power : (n : ℕ) → n < 2 ^ 64 → align_down n (2 ^ k) ≡ n / 2 ^ k * 2 ^ k
  unfolding align_down
  align_down-power n p =
      let mask : 2 ^ 64 - 1 - (2 ^ k + 2 ^ 64 - 1) % 2 ^ 64 ≡ 2 ^ 64 - 2 ^ k =
        omega (arith, power_bounds) in
      rw mask (bit_and_high k 64 n (omega arith) p)

  pub align_up-power :
      (n : ℕ) → n + 2 ^ k ≤ 2 ^ 64 → align_up n (2 ^ k) ≡ (n + 2 ^ k - 1) / 2 ^ k * 2 ^ k
  unfolding align_up
  align_up-power n p =
      let sum : ((n + 2 ^ k) % 2 ^ 64 + 2 ^ 64 - 1) % 2 ^ 64 ≡ n + 2 ^ k - 1 =
        omega (arith, power_bounds) in
      rw sum (align_down-power (n + 2 ^ k - 1) (omega (arith, power_bounds)))

  -- For an alignment `2 ^ k` below the word size and an address that does not run off the end of
  -- the address space, `align_up` gives a multiple of the alignment, not below the address and
  -- less than one alignment above it.
  pub align_up_bounds :
      (n : ℕ)
      → n + 2 ^ k ≤ 2 ^ 64
      → (n ≤ align_up n (2 ^ k))
        × (align_up n (2 ^ k) < n + 2 ^ k)
        × (align_up n (2 ^ k) % 2 ^ k ≡ 0)
  align_up_bounds n p = rw (align_up-power n p) (
    omega (
      arith,
      power_bounds,
      div-add-mod' (n + 2 ^ k - 1) (2 ^ k),
      mod-lt (n + 2 ^ k - 1) {m = 2 ^ k} (power_bounds.0),
    ),
    omega (arith, power_bounds, div-add-mod' (n + 2 ^ k - 1) (2 ^ k)),
    mul-mod_left ((n + 2 ^ k - 1) / 2 ^ k) (2 ^ k),
  )

  -- Under the same bounds `div_roundup n` is the number of blocks of `2 ^ k` that cover `n`: as
  -- many hold `n`, and one fewer does not.
  pub div_roundup_ceiling :
      (n : ℕ)
      → 0 < n
      → n + 2 ^ k ≤ 2 ^ 64
      → let blocks = div_roundup n (2 ^ k) in (n ≤ blocks * 2 ^ k) × ((blocks - 1) * 2 ^ k < n)
  unfolding div_roundup
  div_roundup_ceiling n pos p =
      let q = (n + 2 ^ k - 1) / 2 ^ k in
      rw (align_up-power n p, mul-div_cancel q (power_bounds.0))
        (
          omega (arith, align_up_bounds n p, align_up-power n p),
          omega (arith, pred_mul q (2 ^ k), align_up_bounds n p, align_up-power n p),
        )

  -- `is_aligned` says whether the alignment divides the address.
  pub is_aligned_iff : (n : ℕ) → n < 2 ^ 64 → (is_aligned n (2 ^ k) ≡ true) ↔ (n % 2 ^ k ≡ 0)
  unfolding is_aligned
  is_aligned_iff n p =
      let mask : (2 ^ k + 2 ^ 64 - 1) % 2 ^ 64 ≡ 2 ^ k - 1 = omega (arith, power_bounds) in
      rw (mask, bit_and_low k n) (ground arith)
