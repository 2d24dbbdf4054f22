-- ===== src/Scheduler/Bitmap.antt =====
-- The bitmap of kernel/src/task/scheduler.cpp is the set of the queues that are not empty.
use native.Mathlib.Decide.{dec_lt}
use native.Mathlib.Nat.{pow-le-pow_right, one-le-pow, pow-suc}
use Prim.Native.Nat.{differ}
use noise_v.Base.{
  ℕ, suc, ◌-◌, ◌%◌, ◌^◌, ◌<◌, ◌≡◌, ◌≢◌, refl, ap, sym, ◌∙◌, inl, inr, bit_and, bit_or, bit_xor,
  false, some, List, [], ◌∷◌, ◌++◌, arith, ◌==◌, if◌then◌else◌, length, get_or, set, get_or-set,
  length-set, Bool-cases,
}
use noise_v.Base.Digits.{
  digit, digit-le, digit-pow, digit-bit_or, digit-bit_and, digit-bit_xor, digit_above,
  digit_of_complement, bit_or-lt, bit_and-le, bit_xor-lt, differ_one, differ-zero,
}
use noise_v.Base.Words.{ctz, digit-ctz, digit_below_ctz, bit_and-two_pow_zero}
use noise_v.MinHeap.{but_last}
use noise_v.MinHeap.Ops.{but_last-concat}
use noise_v.Scheduler.State.{Core, queue, shl_uint, shl_int, mask_out, mlfq_levels}
use noise_v.Scheduler.Queues.{is_empty, push_core, pop_highest, steal_tail}

-- 1 for a queue that is not empty.
abbrev pub occupied : List ℕ → ℕ
occupied q = if is_empty q then 0 else 1

-- Below 31 the shifts of the source are powers of two.
pub record IsValid (core : Core) : Type 0 where
  pub queues : length core.ready_queue ≡ mlfq_levels
  pub low : core.active_queues_bitmap < 2 ^ 31
  pub bits : (i : ℕ) → i < mlfq_levels → digit core.active_queues_bitmap i ≡ occupied (queue core i)

pub shl_low : (p : ℕ) → p < 31 → (shl_int p ≡ 2 ^ p) × (shl_uint p ≡ 2 ^ p)
shl_low p h = let e : p % 32 ≡ p = omega arith in rw e (ground arith, refl)

pow-lt : (p : ℕ) → p < 31 → 2 ^ p < 2 ^ 31
pow-lt p h = omega (
  arith,
  pow-le-pow_right {n = 2} (omega arith) {i = suc p} {j = 31} h,
  pow-suc 2 p,
  one-le-pow p 2,
)

occupied-concat : (q : List ℕ) (t : ℕ) → occupied (q ++ t ∷ []) ≡ 1
occupied-concat [] t = refl
occupied-concat (x ∷ q) t = refl

-- The bitmap with the digit of one queue made right is right for the queues with that one changed.
pub change-IsValid :
    (core : Core) (p : ℕ) (q : List ℕ) (bitmap : ℕ)
    → IsValid core
    → p < mlfq_levels
    → bitmap < 2 ^ 31
    → ((i : ℕ)
        → i < mlfq_levels
        → digit bitmap i ≡ (if p == i then occupied q else digit core.active_queues_bitmap i))
    → IsValid
        (record core { ready_queue = set core.ready_queue p q; active_queues_bitmap = bitmap })
change-IsValid core p q bitmap v h low f = record {
  queues = length-set core.ready_queue p q ∙ v.queues;
  low = low;
  bits = λ i r. f i r ∙ ground (arith, v.bits i r, v.queues, get_or-set core.ready_queue p i q []);
}

-- `push_back` on a queue below 31, by either shift.
pub push_core-IsValid :
    (shift : ℕ → ℕ) (core : Core) (p t : ℕ)
    → IsValid core
    → p < 31
    → shift p ≡ 2 ^ p
    → IsValid (push_core shift core p t)
unfolding push_core
push_core-IsValid shift core p t v h e = rw e (
    change-IsValid core p (queue core p ++ t ∷ []) (bit_or core.active_queues_bitmap (2 ^ p)) v
      (omega arith) (bit_or-lt 31 core.active_queues_bitmap (2 ^ p) v.low (pow-lt p h))
      (λ i r. rw (occupied-concat (queue core p) t) (
        ground (
          arith,
          digit-bit_or core.active_queues_bitmap (2 ^ p) i,
          digit-pow p i,
          digit-le core.active_queues_bitmap i,
        ))))

-- A queue that does not count is empty.
pub is_empty-nil : (q : List ℕ) → occupied q ≡ 0 → q ≡ []
is_empty-nil [] e = refl
is_empty-nil (x ∷ q) e = absurd (omega (arith, e))

cons_of_occupied : (q : List ℕ) → occupied q ≡ 1 → (t : ℕ) × (rest : List ℕ) × (q ≡ t ∷ rest)
cons_of_occupied [] e = absurd (omega (arith, e))
cons_of_occupied (x ∷ q) e = (x, q, refl)

-- The lowest set bit names the first queue that is not empty.
pub first_queue :
    (core : Core)
    → IsValid core
    → core.active_queues_bitmap ≢ 0
    → let p = ctz 64 core.active_queues_bitmap in
      (p < 31)
      × ((q : ℕ) → q < p → queue core q ≡ [])
      × (digit core.active_queues_bitmap p ≡ 1)
      × ((t : ℕ) × (rest : List ℕ) × (queue core p ≡ t ∷ rest))
first_queue core v ne =
    let bitmap = core.active_queues_bitmap in
    let p = ctz 64 bitmap in
    let small : bitmap < 2 ^ 64 = omega (arith, v.low) in
    let (below, hit) = digit-ctz 64 bitmap small ne in
    let low : p < 31 = elim (dec_lt p 31) [
      | yes h ↦ h
      | no h ↦ absurd (omega (arith, hit, digit_above 31 bitmap p v.low (omega arith)))
    ] in
    (
      low,
      λ q r.
          is_empty-nil (queue core q)
            (sym (v.bits q (omega arith)) ∙ digit_below_ctz 64 bitmap q small ne r),
      hit,
      cons_of_occupied (queue core p) (sym (v.bits p (omega arith)) ∙ hit),
    )

digit-xor_out :
    (bitmap p i : ℕ)
    → digit bitmap p ≡ 1
    → digit (bit_xor bitmap (2 ^ p)) i ≡ (if p == i then 0 else digit bitmap i)
digit-xor_out bitmap p i e = ground (
  arith,
  digit-bit_xor bitmap (2 ^ p) i,
  digit-pow p i,
  ap (λ t. differ (digit bitmap i) t) (digit-pow p i),
  differ_one (digit bitmap i) (digit-le bitmap i),
  differ-zero (digit bitmap i),
  ap (λ j. digit bitmap j),
)

pop_highest-cons :
    (core : Core) (t : ℕ) (rest : List ℕ)
    → let p = ctz 64 core.active_queues_bitmap in
      queue core p ≡ t ∷ rest
      → pop_highest core
        ≡ some (
          t,
          record core {
            ready_queue = set core.ready_queue p rest;
            active_queues_bitmap =
                (if is_empty rest
                  then bit_xor core.active_queues_bitmap (shl_uint p)
                  else core.active_queues_bitmap);
          },
        )
unfolding pop_highest
pop_highest-cons core t rest e = rw (e, pop_highest) refl

pub pop_highest_lem :
    (core : Core)
    → IsValid core
    → core.active_queues_bitmap ≢ 0
    → (t : ℕ) × (p : ℕ) × (rest : List ℕ) × (core' : Core) × (pop_highest core ≡ some (t, core'))
      × (queue core p ≡ t ∷ rest)
      × ((q : ℕ) → q < p → queue core q ≡ [])
      × ((q : ℕ) → queue core' q ≡ (if p == q then rest else queue core q))
      × IsValid core'
pop_highest_lem core v ne =
    let bitmap = core.active_queues_bitmap in
    let p = ctz 64 bitmap in
    let (low, above, hit, (t, rest, e)) = first_queue core v ne in
    let bitmap' = if is_empty rest then bit_xor bitmap (shl_uint p) else bitmap in
    (
      t,
      p,
      rest,
      record core { ready_queue = set core.ready_queue p rest; active_queues_bitmap = bitmap' },
      pop_highest-cons core t rest e,
      e,
      above,
      λ q. get_or-set core.ready_queue p q rest [] (omega (arith, v.queues, low)),
      change-IsValid core p rest bitmap' v (omega (arith, low))
          (elim (Bool-cases (is_empty rest)) [
            | inl z ↦ rw (z, (shl_low p low).1) (bit_xor-lt 31 bitmap (2 ^ p) v.low (pow-lt p low))
            | inr z ↦ rw z v.low
          ])
          (λ i r. elim (Bool-cases (is_empty rest)) [
            | inl z ↦ rw (z, (shl_low p low).1) (digit-xor_out bitmap p i hit)
            | inr z ↦ rw z (ground (arith, hit, ap (λ j. digit bitmap j)))
          ]),
    )

steal_tail-cons :
    (core : Core) (x : ℕ) (xs : List ℕ)
    → core.active_queues_bitmap ≢ 0
    → let p = ctz 64 core.active_queues_bitmap in
      let rest = but_last (x ∷ xs) in
      queue core p ≡ x ∷ xs
      → steal_tail core
        ≡ some (
          get_or (x ∷ xs) (length xs) x,
          record core {
            ready_queue = set core.ready_queue p rest;
            active_queues_bitmap =
                (if is_empty rest
                  then mask_out core.active_queues_bitmap p
                  else core.active_queues_bitmap);
          },
        )
unfolding steal_tail
steal_tail-cons core x xs ne e =
    let some_bit : (core.active_queues_bitmap == 0) ≡ false = ground arith in
    rw (e, steal_tail) (rw some_bit refl)

digit-mask_out :
    (bitmap p i : ℕ)
    → p < 31
    → bitmap < 2 ^ 31
    → digit (mask_out bitmap p) i ≡ (if p == i then 0 else digit bitmap i)
unfolding mask_out
digit-mask_out bitmap p i h low = rw (shl_low p h).1 (elim (dec_lt i 32) [
  | yes r ↦ ground (
    arith,
    digit-bit_and bitmap (2 ^ 32 - 1 - 2 ^ p) i,
    digit_of_complement 32 (2 ^ p) i (omega (arith, pow-lt p h)) r,
    digit-pow p i,
    digit-le bitmap i,
  )
  | no r ↦ ground (
    arith,
    digit-bit_and bitmap (2 ^ 32 - 1 - 2 ^ p) i,
    digit_above 31 bitmap i low (omega arith),
  )
])

mask_out-lt : (bitmap p : ℕ) → bitmap < 2 ^ 31 → mask_out bitmap p < 2 ^ 31
unfolding mask_out
mask_out-lt bitmap p low = omega (arith, bit_and-le bitmap (2 ^ 32 - 1 - shl_uint p))

empty_test : (q : List ℕ) → (occupied q == 0) ≡ is_empty q
empty_test [] = ground arith
empty_test (x ∷ q) = ground arith

-- The test of a level by `1u << i` is the test of its queue.
pub level_empty_iff :
    (core : Core) (p : ℕ)
    → IsValid core
    → p < 31
    → (bit_and core.active_queues_bitmap (shl_uint p) == 0) ≡ is_empty (queue core p)
level_empty_iff core p v h =
    rw
      (
        (shl_low p h).1,
        bit_and-two_pow_zero core.active_queues_bitmap p (omega (arith, v.low)),
        v.bits p (omega arith),
      )
      (empty_test (queue core p))

-- What a thief takes from a victim whose bitmap is that of its queues and not empty is the last thread of the victim's first queue that is not empty.
pub steal_tail_lem :
    (core : Core)
    → IsValid core
    → core.active_queues_bitmap ≢ 0
    → (t : ℕ) × (p : ℕ) × (rest : List ℕ) × (core' : Core) × (steal_tail core ≡ some (t, core'))
      × (queue core p ≡ rest ++ t ∷ [])
      × ((q : ℕ) → q < p → queue core q ≡ [])
      × ((q : ℕ) → queue core' q ≡ (if p == q then rest else queue core q))
      × IsValid core'
steal_tail_lem core v ne =
    let bitmap = core.active_queues_bitmap in
    let p = ctz 64 bitmap in
    let (low, above, hit, (x, xs, e)) = first_queue core v ne in
    let rest = but_last (x ∷ xs) in
    let bitmap' = if is_empty rest then mask_out bitmap p else bitmap in
    (
      get_or (x ∷ xs) (length xs) x,
      p,
      rest,
      record core { ready_queue = set core.ready_queue p rest; active_queues_bitmap = bitmap' },
      steal_tail-cons core x xs ne e,
      e ∙ sym (but_last-concat x xs x),
      above,
      λ q. get_or-set core.ready_queue p q rest [] (omega (arith, v.queues, low)),
      change-IsValid core p rest bitmap' v (omega (arith, low))
          (elim (Bool-cases (is_empty rest)) [
            | inl z ↦ rw z (mask_out-lt bitmap p v.low)
            | inr z ↦ rw z v.low
          ])
          (λ i r. elim (Bool-cases (is_empty rest)) [
            | inl z ↦ rw z (digit-mask_out bitmap p i low v.low)
            | inr z ↦ rw z (ground (arith, hit, ap (λ j. digit bitmap j)))
          ]),
    )
