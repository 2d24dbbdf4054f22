-- ===== src/Align.antt =====
-- kernel/include/libs/math.hpp: rounding to an alignment by masks, on 64-bit operands.
pub mod Bounds
mod Tests
use noise_v.Base.{ℕ, ◌/◌, Bool, bit_and, ◌==◌}
use noise_v.Base.Words.{complement, sub64, add64}

unfoldable pub align_down : ℕ → ℕ → ℕ
align_down n base = bit_and n (complement (sub64 base 1))

unfoldable pub align_up : ℕ → ℕ → ℕ
align_up n base = align_down (sub64 (add64 n base) 1) base

unfoldable pub div_roundup : ℕ → ℕ → ℕ
div_roundup n base = align_up n base / base

unfoldable pub is_aligned : ℕ → ℕ → Bool
is_aligned n base = bit_and n (sub64 base 1) == 0
