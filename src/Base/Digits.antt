-- ===== src/Base/Digits.antt =====
-- The binary digits of a number, and what the bit operations do to each digit.
use Prim.Native.Nat.{
  ℕ, zero, suc, ◌+◌, ◌-◌, ◌*◌, ◌/◌, ◌%◌, ◌^◌, ◌≤◌, ◌<◌, min, max, bit_and, bit_or, bit_xor,
}
use Prim.Native.Nat.{digits, differ, bit_and-bitwise, bit_or-bitwise, bit_xor-bitwise}
use mathlib.Core.Path.{◌≡◌, refl, ap}
use native.Mathlib.Omega.{arith}
use native.Mathlib.Nat.{pow-suc}
use noise_v.Base.Tests.{◌==◌, if◌then◌else◌}

-- Any fuel from the first operand on gives the same digits.
module _ (z : ℕ → ℕ) (f : ℕ → ℕ → ℕ) where
  digits_enough : (m n a b : ℕ) → a ≤ m → a ≤ n → digits z f m a b ≡ digits z f n a b
  digits_enough zero zero zero b p q = refl
  digits_enough zero (suc n) zero b p q = refl
  digits_enough (suc m) zero zero b p q = refl
  digits_enough (suc m) (suc n) zero b p q = refl
  digits_enough (suc m) (suc n) (suc a) b p q =
      ap (λ t. t * 2 + f (suc a % 2) (b % 2))
        (digits_enough m n (suc a / 2) (b / 2) (omega arith) (omega arith))
  digits_enough zero n (suc a) b p q = absurd (omega arith)
  digits_enough (suc m) zero (suc a) b p q = absurd (omega arith)

-- The lowest digit of a disjunction and of a conjunction, and the rest.
pub bit_or-halves : (a b : ℕ) → bit_or a b ≡ bit_or (a / 2) (b / 2) * 2 + max (a % 2) (b % 2)
bit_or-halves zero b = omega (arith, bit_or-bitwise 0 b, bit_or-bitwise 0 (b / 2))
bit_or-halves (suc a) b = omega (
  arith,
  bit_or-bitwise (suc a) b,
  bit_or-bitwise (suc a / 2) (b / 2),
  digits_enough (λ y. y) max a (suc a / 2) (suc a / 2) (b / 2) (omega arith) (omega arith),
)

pub bit_and-halves : (a b : ℕ) → bit_and a b ≡ bit_and (a / 2) (b / 2) * 2 + min (a % 2) (b % 2)
bit_and-halves zero b = omega (arith, bit_and-bitwise 0 b, bit_and-bitwise 0 (b / 2))
bit_and-halves (suc a) b = omega (
  arith,
  bit_and-bitwise (suc a) b,
  bit_and-bitwise (suc a / 2) (b / 2),
  digits_enough (λ y. 0) min a (suc a / 2) (suc a / 2) (b / 2) (omega arith) (omega arith),
)

differ_zero : (x y : ℕ) → x ≡ 0 → differ x y ≡ y
differ_zero zero y e = refl
differ_zero (suc x) y e = absurd (omega arith)

differ-le : (x y : ℕ) → x ≤ 1 → y ≤ 1 → differ x y ≤ 1
differ-le zero y p q = q
differ-le (suc zero) zero p q = omega arith
differ-le (suc zero) (suc y) p q = omega arith
differ-le (suc (suc x)) y p q = absurd (omega arith)

pub differ_one : (x : ℕ) → x ≤ 1 → differ x 1 ≡ 1 - x
differ_one zero p = omega arith
differ_one (suc zero) p = omega arith
differ_one (suc (suc x)) p = absurd (omega arith)

pub differ-zero : (x : ℕ) → differ x 0 ≡ x
differ-zero zero = refl
differ-zero (suc x) = refl

pub bit_xor-halves : (a b : ℕ) → bit_xor a b ≡ bit_xor (a / 2) (b / 2) * 2 + differ (a % 2) (b % 2)
bit_xor-halves zero b = omega (
  arith,
  bit_xor-bitwise 0 b,
  bit_xor-bitwise 0 (b / 2),
  differ_zero (0 % 2) (b % 2) (omega arith),
)
bit_xor-halves (suc a) b = omega (
  arith,
  bit_xor-bitwise (suc a) b,
  bit_xor-bitwise (suc a / 2) (b / 2),
  digits_enough (λ y. y) differ a (suc a / 2) (suc a / 2) (b / 2) (omega arith) (omega arith),
)

-- Digit `i` of a number.
unfoldable pub digit : ℕ → ℕ → ℕ
digit w zero = w % 2
digit w (suc i) = digit (w / 2) i

pub digit-le : (w i : ℕ) → digit w i ≤ 1
unfolding digit
digit-le w zero = omega arith
digit-le w (suc i) = digit-le (w / 2) i

pub digit-zero : (i : ℕ) → digit 0 i ≡ 0
unfolding digit
digit-zero zero = refl
digit-zero (suc i) = digit-zero i

pub digit-bit_or : (a b i : ℕ) → digit (bit_or a b) i ≡ max (digit a i) (digit b i)
unfolding digit
digit-bit_or a b zero = omega (arith, bit_or-halves a b)
digit-bit_or a b (suc i) =
    let half : bit_or a b / 2 ≡ bit_or (a / 2) (b / 2) = omega (arith, bit_or-halves a b) in
    rw half (digit-bit_or (a / 2) (b / 2) i)

pub digit-bit_and : (a b i : ℕ) → digit (bit_and a b) i ≡ min (digit a i) (digit b i)
unfolding digit
digit-bit_and a b zero = omega (arith, bit_and-halves a b)
digit-bit_and a b (suc i) =
    let half : bit_and a b / 2 ≡ bit_and (a / 2) (b / 2) = omega (arith, bit_and-halves a b) in
    rw half (digit-bit_and (a / 2) (b / 2) i)

pub digit-pow : (k i : ℕ) → digit (2 ^ k) i ≡ (if k == i then 1 else 0)
unfolding digit
digit-pow zero zero = refl
digit-pow zero (suc i) = ground (arith, digit-zero i)
digit-pow (suc k) zero = ground (arith, pow-suc 2 k)
digit-pow (suc k) (suc i) =
    let half : 2 ^ suc k / 2 ≡ 2 ^ k = omega (arith, pow-suc 2 k) in
    rw half (ground (arith, digit-pow k i))

-- `~x` in a word of `w` bits.
pub digit_of_complement : (w x i : ℕ) → x < 2 ^ w → i < w → digit (2 ^ w - 1 - x) i ≡ 1 - digit x i
unfolding digit
digit_of_complement zero x i h p = absurd (omega arith)
digit_of_complement (suc w) x zero h p = omega (arith, pow-suc 2 w)
digit_of_complement (suc w) x (suc i) h p =
    let half : (2 ^ suc w - 1 - x) / 2 ≡ 2 ^ w - 1 - x / 2 = omega (arith, pow-suc 2 w) in
    rw half (digit_of_complement w (x / 2) i (omega (arith, pow-suc 2 w)) (omega arith))

-- Two words with the same digits are equal.
pub digit_ext :
    (w a b : ℕ) → a < 2 ^ w → b < 2 ^ w → ((i : ℕ) → i < w → digit a i ≡ digit b i) → a ≡ b
unfolding digit
digit_ext zero a b p q h = omega arith
digit_ext (suc w) a b p q h =
    let low : a % 2 ≡ b % 2 = h 0 (omega arith) in
    let high : a / 2 ≡ b / 2 =
      digit_ext w (a / 2) (b / 2) (omega (arith, pow-suc 2 w)) (omega (arith, pow-suc 2 w))
        (λ i r. h (suc i) (omega arith)) in
    omega arith

pub digit_above : (w a i : ℕ) → a < 2 ^ w → w ≤ i → digit a i ≡ 0
unfolding digit
digit_above zero a i h p = let e : a ≡ 0 = omega arith in rw e (digit-zero i)
digit_above (suc w) a zero h p = absurd (omega arith)
digit_above (suc w) a (suc i) h p =
    digit_above w (a / 2) i (omega (arith, pow-suc 2 w)) (omega arith)

pub bit_or-lt : (w a b : ℕ) → a < 2 ^ w → b < 2 ^ w → bit_or a b < 2 ^ w
bit_or-lt zero a b p q =
    let ea : a ≡ 0 = omega arith in let eb : b ≡ 0 = omega arith in rw (ea, eb) (omega arith)
bit_or-lt (suc w) a b p q = omega (
  arith,
  bit_or-halves a b,
  pow-suc 2 w,
  bit_or-lt w (a / 2) (b / 2) (omega (arith, pow-suc 2 w)) (omega (arith, pow-suc 2 w)),
)

bit_and-le_of_lt : (w a b : ℕ) → a < 2 ^ w → bit_and a b ≤ a
bit_and-le_of_lt zero a b p =
    let e : a ≡ 0 = omega arith in rw e (omega (arith, bit_and-bitwise 0 b))
bit_and-le_of_lt (suc w) a b p =
    omega
      (arith, bit_and-halves a b, bit_and-le_of_lt w (a / 2) (b / 2) (omega (arith, pow-suc 2 w)))

pub lt-two-pow : (a : ℕ) → a < 2 ^ a
lt-two-pow zero = omega arith
lt-two-pow (suc a) = omega (arith, pow-suc 2 a, lt-two-pow a)

pub bit_and-le : (a b : ℕ) → bit_and a b ≤ a
bit_and-le a b = bit_and-le_of_lt a a b (lt-two-pow a)

pub digit-bit_xor : (a b i : ℕ) → digit (bit_xor a b) i ≡ differ (digit a i) (digit b i)
unfolding digit
digit-bit_xor a b zero =
    omega (arith, bit_xor-halves a b, differ-le (a % 2) (b % 2) (omega arith) (omega arith))
digit-bit_xor a b (suc i) =
    let half : bit_xor a b / 2 ≡ bit_xor (a / 2) (b / 2) =
      omega (arith, bit_xor-halves a b, differ-le (a % 2) (b % 2) (omega arith) (omega arith)) in
    rw half (digit-bit_xor (a / 2) (b / 2) i)

pub bit_xor-lt : (w a b : ℕ) → a < 2 ^ w → b < 2 ^ w → bit_xor a b < 2 ^ w
bit_xor-lt zero a b p q =
    let ea : a ≡ 0 = omega arith in
    let eb : b ≡ 0 = omega arith in rw (ea, eb) (omega (arith, bit_xor-bitwise 0 0))
bit_xor-lt (suc w) a b p q = omega (
  arith,
  bit_xor-halves a b,
  differ-le (a % 2) (b % 2) (omega arith) (omega arith),
  pow-suc 2 w,
  bit_xor-lt w (a / 2) (b / 2) (omega (arith, pow-suc 2 w)) (omega (arith, pow-suc 2 w)),
)
