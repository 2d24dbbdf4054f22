-- ===== src/Scheduler/Boost.antt =====
-- `boost_all` of kernel/src/task/scheduler.cpp moves every waiting thread to queue 0, in order.
use mathlib.Core.List.{append_assoc, append-nil}
use native.Mathlib.Decide.{dec_lt}
use native.Mathlib.Nat.{pow-le-pow_right}
use noise_v.Base.{
  ℕ, zero, suc, ◌+◌, ◌-◌, ◌%◌, ◌^◌, ◌≤◌, ◌<◌, ◌≡◌, ◌≢◌, refl, ap, sym, ◌∙◌, inl, inr, bit_and, Bool,
  true, false, List, [], ◌∷◌, ◌++◌, arith, ◌==◌, if◌then◌else◌, length, get_or, set, get_or-set,
  length-set, Bool-cases,
}
use noise_v.Base.Digits.{
  digit, digit-le, digit-pow, digit-bit_and, digit_above, digit_of_complement, bit_and-le,
}
use noise_v.Base.Words.{bit_and-two_pow_zero}
use noise_v.Scheduler.State.{
  Core, Kernel, put_core, put_thread, queue, shl_uint, mask_out, time_slice, mlfq_levels,
}
use noise_v.Scheduler.Maintenance.{boost_queue, boost_level}
use noise_v.Scheduler.Bitmap.{is_empty-nil, occupied}

-- The first `n` queues, one after the other.
unfoldable pub in_order : ℕ → Core → List ℕ
in_order zero core = []
in_order (suc n) core = in_order n core ++ queue core n

-- What moving the threads `xs` to queue 0 of core `c` does.
pub record Moved (k k' : Kernel) (c : ℕ) (xs : List ℕ) : Type 0 where
  pub top : queue (k'.cores c) 0 ≡ queue (k.cores c) 0 ++ xs
  pub others : (j : ℕ) → 0 < j → queue (k'.cores c) j ≡ queue (k.cores c) j
  pub size : length (k'.cores c).ready_queue ≡ length (k.cores c).ready_queue
  pub bitmap : (k'.cores c).active_queues_bitmap ≡ (k.cores c).active_queues_bitmap
  pub apart : (d : ℕ) → c ≢ d → k'.cores d ≡ k.cores d
  pub levels : ((t : ℕ) → (k.threads t).priority < 31) → (t : ℕ) → (k'.threads t).priority < 31

pub own_core : (k : Kernel) (c : ℕ) (core : Core) → (put_core k c core).cores c ≡ core
own_core k c core = ground arith

pub other_core :
    (k : Kernel) (c d : ℕ) (core : Core) → c ≢ d → (put_core k c core).cores d ≡ k.cores d
other_core k c d core ne = ground arith

boost_queue-Moved :
    (k : Kernel) (c : ℕ) (xs : List ℕ)
    → 0 < length (k.cores c).ready_queue
    → Moved k (boost_queue k c xs) c xs
unfolding boost_queue
boost_queue-Moved k c [] h = record {
  top = sym (append-nil (queue (k.cores c) 0));
  others = λ j p. refl;
  size = refl;
  bitmap = refl;
  apart = λ d ne. refl;
  levels = λ low t. low t;
}
boost_queue-Moved k c (t ∷ rest) h =
    let core = k.cores c in
    let core' = record core { ready_queue = set core.ready_queue 0 (queue core 0 ++ t ∷ []) } in
    let thread = record (k.threads t) { priority = 0; quantum = time_slice 0; linked = true } in
    let k1 = put_thread (put_core k c core') t thread in
    let own = own_core k c core' in
    let size = length-set core.ready_queue 0 (queue core 0 ++ t ∷ []) in
    let here : get_or (set core.ready_queue 0 (queue core 0 ++ t ∷ [])) 0 []
        ≡ queue core 0 ++ t ∷ [] =
      ground (arith, get_or-set core.ready_queue 0 0 (queue core 0 ++ t ∷ []) [] h) in
    let r = boost_queue-Moved k1 c rest (rw (own, size) h) in
    record {
      top = r.top ∙ rw (own, here) (append_assoc (queue core 0) (t ∷ []) rest);
      others = λ j p.
          r.others j p
          ∙ rw own (ground (arith, get_or-set core.ready_queue 0 j (queue core 0 ++ t ∷ []) [] h));
      size = r.size ∙ rw own size;
      bitmap = r.bitmap ∙ ap (λ (x : Core). x.active_queues_bitmap) own;
      apart = λ d ne. r.apart d ne ∙ other_core k c d core' ne;
      levels = λ low.
          r.levels
            (λ u. elim (Bool-cases (t == u)) [ inl e ↦ rw e (omega arith) | inr e ↦ rw e (low u) ]);
    }

pub append_left : (xs ys : List ℕ) → xs ++ ys ≡ [] → xs ≡ []
append_left [] ys e = refl
append_left (x ∷ xs) ys e = absurd (omega (arith, ap length e))

pub append_right : (xs ys : List ℕ) → xs ++ ys ≡ [] → ys ≡ []
append_right [] ys e = e
append_right (x ∷ xs) ys e = absurd (omega (arith, ap length e))

pub same_cores :
    (b : Bool) (x y : Kernel) (d : ℕ)
    → x.cores d ≡ y.cores d
    → (if b then x else y).cores d ≡ y.cores d
same_cores true x y d e = e
same_cores false x y d e = refl

-- The state of `boost_all` before level `i`, from the core `start` on.
pub record Boosting (start : Core) (k0 k : Kernel) (c i : ℕ) : Type 0 where
  pub first : queue (k.cores c) 0 ≡ in_order i start
  pub emptied : (j : ℕ) → 0 < j → j < i → queue (k.cores c) j ≡ []
  pub waiting : (j : ℕ) → 0 < j → i ≤ j → queue (k.cores c) j ≡ queue start j
  pub size : length (k.cores c).ready_queue ≡ mlfq_levels
  pub low : (k.cores c).active_queues_bitmap < 2 ^ 31
  pub bits :
      (j : ℕ)
      → 0 < j
      → j < mlfq_levels
      → digit (k.cores c).active_queues_bitmap j ≡ occupied (queue (k.cores c) j)
  pub apart : (d : ℕ) → c ≢ d → k.cores d ≡ k0.cores d
  pub levels : (t : ℕ) → (k.threads t).priority < 31

digit-mask_out :
    (bitmap p j : ℕ)
    → bitmap < 2 ^ 31
    → digit (mask_out bitmap p) j ≡ (if p % 32 == j then 0 else digit bitmap j)
unfolding mask_out
digit-mask_out bitmap p j low =
    let small : 2 ^ (p % 32) < 2 ^ 32 =
      omega (arith, pow-le-pow_right {n = 2} (omega arith) {i = p % 32} {j = 31} (omega arith)) in
    elim (dec_lt j 32) [
      | yes r ↦ ground (
        arith,
        digit-bit_and bitmap (2 ^ 32 - 1 - 2 ^ (p % 32)) j,
        digit_of_complement 32 (2 ^ (p % 32)) j small r,
        digit-pow (p % 32) j,
        digit-le bitmap j,
      )
      | no r ↦ ground (
        arith,
        digit-bit_and bitmap (2 ^ 32 - 1 - 2 ^ (p % 32)) j,
        digit_above 31 bitmap j low (omega arith),
      )
    ]

pub in_order-empty :
    (core : Core) (i : ℕ) → queue core i ≡ [] → in_order (suc i) core ≡ in_order i core
unfolding in_order
in_order-empty core i e = rw e (append-nil (in_order i core))

in_order-next : (core : Core) (i : ℕ) → in_order (i + 1) core ≡ in_order i core ++ queue core i
unfolding in_order
in_order-next core i = let e : i + 1 ≡ suc i = omega arith in rw e refl

mask_out-lt : (bitmap p : ℕ) → bitmap < 2 ^ 31 → mask_out bitmap p < 2 ^ 31
unfolding mask_out
mask_out-lt bitmap p low = omega (arith, bit_and-le bitmap (2 ^ 32 - 1 - shl_uint p))

-- The test `bitmap & (1u << i)` fails for a level above 31 whose digit is 0 anyway.
unset :
    (bitmap i : ℕ)
    → bitmap < 2 ^ 31
    → (bit_and bitmap (shl_uint i) == 0) ≡ true
    → digit bitmap i ≡ 0
unset bitmap i low e = elim (dec_lt i 31) [
  | yes h ↦
      let small : i % 32 ≡ i = omega arith in
      let e' = rw (small) at e in ground (arith, e', bit_and-two_pow_zero bitmap i (omega arith))
  | no h ↦ digit_above 31 bitmap i low (omega arith)
]

-- A level whose queue is empty.
skip-Boosting :
    (start : Core) (k0 k : Kernel) (c i : ℕ)
    → Boosting start k0 k c i
    → 0 < i
    → queue (k.cores c) i ≡ []
    → Boosting start k0 k c (i + 1)
skip-Boosting start k0 k c i b pos e =
    let none_there : queue start i ≡ [] = sym (b.waiting i pos (omega arith)) ∙ e in
    record {
      first =
          b.first
          ∙ sym (ap (λ n. in_order n start) (omega arith) ∙ in_order-empty start i none_there);
      emptied = λ j p q. elim (dec_lt j i) [
        | yes r ↦ b.emptied j p r
        | no r ↦ ap (λ n. queue (k.cores c) n) (omega arith) ∙ e
      ];
      waiting = λ j p q. b.waiting j p (omega arith);
      size = b.size;
      low = b.low;
      bits = b.bits;
      apart = b.apart;
      levels = b.levels;
    }

-- The bit that the mask clears is that of the level or of one already emptied.
mask_fits :
    (i j bitmap : ℕ) (q : List ℕ)
    → digit bitmap j ≡ occupied q
    → (j < i → q ≡ [])
    → (31 ≤ j → digit bitmap j ≡ 0)
    → (if i % 32 == j then 0 else digit bitmap j) ≡ occupied (if i == j then [] else q)
mask_fits i j bitmap [] e f g = ground arith
mask_fits i j bitmap (x ∷ q) e f g = elim (dec_lt j i) [
  | yes r ↦ absurd (omega (arith, ap length (f r)))
  | no r ↦ ground arith
]

-- A level whose queue is moved.
move-Boosting :
    (start : Core) (k0 k k1 : Kernel) (c i : ℕ)
    → Boosting start k0 k c i
    → 0 < i
    → i < mlfq_levels
    → Moved
        (put_core k c (record (k.cores c) { ready_queue = set (k.cores c).ready_queue i [] }))
        k1
        c
        (queue (k.cores c) i)
    → Boosting start k0
        (put_core k1 c (record (k1.cores c) {
          active_queues_bitmap = mask_out (k1.cores c).active_queues_bitmap i;
        }))
        c
        (i + 1)
move-Boosting start k0 k k1 c i b pos h m =
    let core = k.cores c in
    let emptied = record core { ready_queue = set core.ready_queue i [] } in
    let own = own_core k c emptied in
    let core1 = k1.cores c in
    let core2 = record core1 { active_queues_bitmap = mask_out core1.active_queues_bitmap i } in
    let own1 = own_core k1 c core2 in
    let read : (j : ℕ) → queue emptied j ≡ (if i == j then [] else queue core j) =
      λ j. get_or-set core.ready_queue i j [] [] (omega (arith, b.size)) in
    let top : queue core1 0 ≡ queue core 0 ++ queue core i =
      m.top ∙ rw own (rw (read 0) (ground (arith, pos))) in
    let others : (j : ℕ) → 0 < j → queue core1 j ≡ (if i == j then [] else queue core j) =
      λ j p. m.others j p ∙ rw own (read j) in
    let bitmap : core1.active_queues_bitmap ≡ core.active_queues_bitmap = m.bitmap ∙ rw own refl in
    let clear = λ (j : ℕ). digit-mask_out core.active_queues_bitmap i j b.low in
    record {
      first = rw own1 (
          top
          ∙ ap (λ q. q ++ queue core i) b.first
          ∙ ap (λ q. in_order i start ++ q) (b.waiting i pos (omega arith))
          ∙ sym (in_order-next start i));
      emptied = λ j p q. rw own1 (others j p ∙ ground (arith, b.emptied j));
      waiting = λ j p q. rw own1 (others j p ∙ ground (arith, b.waiting j));
      size = rw own1 (m.size ∙ rw own (length-set core.ready_queue i [] ∙ b.size));
      low = rw (own1, bitmap) (mask_out-lt core.active_queues_bitmap i b.low);
      bits = λ j p q.
          rw (own1, bitmap, others j p)
            (clear j
              ∙ mask_fits i j core.active_queues_bitmap (queue core j) (b.bits j p q)
                  (b.emptied j p) (digit_above 31 core.active_queues_bitmap j b.low));
      apart = λ d ne.
          other_core k1 c d core2 ne ∙ m.apart d ne ∙ other_core k c d emptied ne ∙ b.apart d ne;
      levels = m.levels b.levels;
    }

pub boost_level-Boosting :
    (start : Core) (k0 k : Kernel) (c i : ℕ)
    → Boosting start k0 k c i
    → 0 < i
    → i < mlfq_levels
    → Boosting start k0 (boost_level k c i) c (i + 1)
unfolding boost_level
boost_level-Boosting start k0 k c i b pos h =
    let core = k.cores c in
    let emptied = record core { ready_queue = set core.ready_queue i [] } in
    let own = own_core k c emptied in
    let size = length-set core.ready_queue i [] in
    let m =
      boost_queue-Moved (put_core k c emptied) c (queue core i)
        (rw (own, size) (omega (arith, b.size))) in
    elim (Bool-cases (bit_and core.active_queues_bitmap (shl_uint i) == 0)) [
      | inl e ↦ rw e (
          skip-Boosting start k0 k c i b pos (
            is_empty-nil (queue core i)
              (sym (b.bits i pos h) ∙ unset core.active_queues_bitmap i b.low e)))
      | inr e ↦ rw e (
          move-Boosting start k0 k (boost_queue (put_core k c emptied) c (queue core i)) c i b pos h
            m)
    ]
