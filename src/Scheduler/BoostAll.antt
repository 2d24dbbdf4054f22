-- ===== src/Scheduler/BoostAll.antt =====
-- All of `boost_all` of kernel/src/task/scheduler.cpp moves every waiting thread to queue 0, in order.
use native.Mathlib.Decide.{dec_lt}
use noise_v.Base.{
  ℕ, zero, suc, ◌+◌, ◌-◌, ◌^◌, ◌<◌, ◌≡◌, ◌≢◌, refl, ap, sym, ◌∙◌, inl, inr, bit_and, bit_or, not,
  ◌&&◌, List, [], ◌∷◌, arith, ◌==◌, Bool-cases,
}
use noise_v.Base.Digits.{
  digit, digit-le, digit-zero, digit-pow, digit-bit_or, digit-bit_and, digit_above, digit_ext,
  digit_of_complement, bit_or-lt, bit_and-le,
}
use noise_v.Scheduler.State.{Core, Kernel, put_core, queue, time_slice, mlfq_levels}
use noise_v.Scheduler.Maintenance.{boost_level, boost_levels, boost_curr, boost_all}
use noise_v.Scheduler.Bitmap.{is_empty-nil, IsValid, occupied}
use noise_v.Scheduler.Boost.{
  in_order, Boosting, boost_level-Boosting, in_order-empty, append_left, append_right, same_cores,
  own_core,
}
use noise_v.Scheduler.Invariant.{IsGood, put_thread-IsGood}

boost_levels-Boosting :
    (rounds i : ℕ) (start : Core) (k0 k : Kernel) (c : ℕ)
    → Boosting start k0 k c i
    → 0 < i
    → i + rounds ≡ mlfq_levels
    → Boosting start k0 (boost_levels rounds i k c) c mlfq_levels
unfolding boost_levels
boost_levels-Boosting zero i start k0 k c b pos e =
    let there : i ≡ mlfq_levels = omega arith in rw there at b
boost_levels-Boosting (suc rounds) i start k0 k c b pos e =
    boost_levels-Boosting rounds (i + 1) start k0 (boost_level k c i) c
      (boost_level-Boosting start k0 k c i b pos (omega arith)) (omega arith) (omega arith)

in_order-first :
    (n : ℕ) (core : Core)
    → ((j : ℕ) → 0 < j → j < suc n → queue core j ≡ [])
    → in_order (suc n) core ≡ queue core 0
unfolding in_order
in_order-first zero core h = refl
in_order-first (suc n) core h =
    in_order-empty core (suc n) (h (suc n) (omega arith) (omega arith))
    ∙ in_order-first n core (λ j p q. h j p (omega arith))

-- Nothing in order: every queue is empty.
in_order-nothing :
    (n : ℕ) (core : Core) → in_order n core ≡ [] → (j : ℕ) → j < n → queue core j ≡ []
unfolding in_order
in_order-nothing zero core e j h = absurd (omega arith)
in_order-nothing (suc n) core e j h = elim (dec_lt j n) [
  | yes r ↦ in_order-nothing n core (append_left (in_order n core) (queue core n) e) j r
  | no r ↦
      let last : j ≡ n = omega arith in rw last (append_right (in_order n core) (queue core n) e)
]

boost_curr-cores : (k : Kernel) (c d : ℕ) → (boost_curr k c).cores d ≡ k.cores d
unfolding boost_curr
boost_curr-cores k c d =
    let core = k.cores c in
    same_cores
      (not (core.curr_thread == core.idle_thread)
        && not ((k.threads core.curr_thread).priority == 0))
      _ k d refl

boost_curr-IsGood : (k : Kernel) (c : ℕ) → IsGood k → IsGood (boost_curr k c)
unfolding boost_curr
boost_curr-IsGood k c g =
    let core = k.cores c in
    let t = k.threads core.curr_thread in
    let t' = record t { priority = 0; quantum = time_slice 0 } in
    elim (Bool-cases (not (core.curr_thread == core.idle_thread) && not (t.priority == 0))) [
      | inl e ↦ rw e (put_thread-IsGood k core.curr_thread t' g (omega arith))
      | inr e ↦ rw e g
    ]

start-Boosting : (k : Kernel) (c : ℕ) → IsGood k → Boosting (k.cores c) k k c 1
unfolding in_order
start-Boosting k c g =
    let v = g.bitmaps c in
    record {
      first = refl;
      emptied = λ j p q. absurd (omega arith);
      waiting = λ j p q. refl;
      size = v.queues;
      low = v.low;
      bits = λ j p q. v.bits j q;
      apart = λ d ne. refl;
      levels = g.levels;
    }

-- `~1u` selects the digits from 1 to 31.
upper_digit :
    (bitmap j : ℕ)
    → bitmap < 2 ^ 31
    → 0 < j
    → digit (bit_and bitmap (2 ^ 32 - 2)) j ≡ digit bitmap j
upper_digit bitmap j low pos = elim (dec_lt j 32) [
  | yes r ↦ ground (
    arith,
    digit-bit_and bitmap (2 ^ 32 - 2) j,
    digit_of_complement 32 1 j (omega arith) r,
    digit-pow 0 j,
    digit-le bitmap j,
  )
  | no r ↦
      ground (arith, digit-bit_and bitmap (2 ^ 32 - 2) j, digit_above 31 bitmap j low (omega arith))
]

upper_zero :
    (bitmap : ℕ)
    → bitmap < 2 ^ 31
    → ((j : ℕ) → 0 < j → j < 31 → digit bitmap j ≡ 0)
    → bit_and bitmap (2 ^ 32 - 2) ≡ 0
upper_zero bitmap low z =
    digit_ext 31 (bit_and bitmap (2 ^ 32 - 2)) 0 (omega (arith, bit_and-le bitmap (2 ^ 32 - 2)))
      (omega arith)
      (λ j h. elim (dec_lt 0 j) [
        | yes p ↦ upper_digit bitmap j low p ∙ z j p h ∙ sym (digit-zero j)
        | no p ↦
            let first : j ≡ 0 = omega arith in
            rw first (
              omega (
                arith,
                digit-bit_and bitmap (2 ^ 32 - 2) 0,
                digit_of_complement 32 1 0 (omega arith) (omega arith),
                digit-pow 0 0,
                digit-zero 0,
              ))
      ])

occupied_of_ne : (q : List ℕ) → q ≢ [] → occupied q ≡ 1
occupied_of_ne [] ne = absurd (ne refl)
occupied_of_ne (x ∷ q) ne = refl

-- Where the first test finds nothing, the levels from 1 on are empty.
idle_level :
    (core : Core) (j : ℕ)
    → IsValid core
    → 0 < j
    → j < mlfq_levels
    → bit_and core.active_queues_bitmap (2 ^ 32 - 2) ≡ 0
    → queue core j ≡ []
idle_level core j v p q e =
    let bitmap = core.active_queues_bitmap in
    is_empty-nil (queue core j)
      (sym (v.bits j q) ∙ sym (upper_digit bitmap j v.low p) ∙ ap (λ w. digit w j) e ∙ digit-zero j)

-- Where it finds something, some level is not empty.
nothing_above :
    (core : Core)
    → IsValid core
    → in_order mlfq_levels core ≡ []
    → bit_and core.active_queues_bitmap (2 ^ 32 - 2) ≡ 0
nothing_above core v e = upper_zero core.active_queues_bitmap v.low (λ j p q.
    v.bits j (omega arith) ∙ ap occupied (in_order-nothing mlfq_levels core e j (omega arith)))

finished-IsValid :
    (start : Core) (k0 k : Kernel) (c : ℕ)
    → Boosting start k0 k c mlfq_levels
    → queue (k.cores c) 0 ≢ []
    → IsValid
        (record (k.cores c) { active_queues_bitmap = bit_or (k.cores c).active_queues_bitmap 1 })
finished-IsValid start k0 k c b ne =
    let bitmap = (k.cores c).active_queues_bitmap in
    record {
      queues = b.size;
      low = bit_or-lt 31 bitmap 1 b.low (omega arith);
      bits = λ i h. elim (dec_lt 0 i) [
        | yes p ↦
            ground (arith, digit-bit_or bitmap 1 i, digit-pow 0 i, b.bits i p h, digit-le bitmap i)
        | no p ↦
            let first : i ≡ 0 = omega arith in
            rw first (
              ground (
                arith,
                digit-bit_or bitmap 1 0,
                digit-pow 0 0,
                digit-le bitmap 0,
                occupied_of_ne (queue (k.cores c) 0) ne,
              ))
      ];
    }

-- `boost_all` on a kernel whose bitmaps agree with their queues and have no bit from 31 on, and whose
-- threads have levels below 31, puts every waiting thread of the core
-- into queue 0, highest level first and each level in its order, leaves the other queues empty, and
-- keeps the invariant.
pub boost_all_lem :
    (k : Kernel) (c : ℕ)
    → IsGood k
    → let k' = boost_all k c in
      (queue (k'.cores c) 0 ≡ in_order mlfq_levels (k.cores c))
      × ((j : ℕ) → 0 < j → j < mlfq_levels → queue (k'.cores c) j ≡ [])
      × IsGood k'
unfolding boost_all
boost_all_lem k c g =
    let core = k.cores c in
    let v = g.bitmaps c in
    let bitmap = core.active_queues_bitmap in
    let moved = boost_levels (mlfq_levels - 1) 1 k c in
    let b =
      boost_levels-Boosting (mlfq_levels - 1) 1 core k k c (start-Boosting k c g) (omega arith)
        (omega arith) in
    let core1 = moved.cores c in
    let core2 = record core1 { active_queues_bitmap = bit_or core1.active_queues_bitmap 1 } in
    let own = own_core moved c core2 in
    elim (Bool-cases (bit_and bitmap (2 ^ 32 - 2) == 0)) [
      | inl e ↦
          let idle : (j : ℕ) → 0 < j → j < mlfq_levels → queue core j ≡ [] =
            λ j p q. idle_level core j v p q (ground (arith, e)) in
          rw e (
            rw (boost_curr-cores k c c) (sym (in_order-first 63 core idle)),
            (λ j p q. rw (boost_curr-cores k c c) (idle j p q)),
            boost_curr-IsGood k c g,
          )
      | inr e ↦
          let some_left : queue core1 0 ≢ [] =
            λ z. ground (arith, e, nothing_above core v (sym b.first ∙ z)) in
          let kept : IsGood (put_core moved c core2) = record {
            bitmaps = λ d. elim (Bool-cases (c == d)) [
              | inl f ↦ rw f (finished-IsValid core k moved c b some_left)
              | inr f ↦ rw f (rw (b.apart d (ground (arith, f))) (g.bitmaps d))
            ];
            levels = b.levels;
          } in
          rw e (
            rw (boost_curr-cores (put_core moved c core2) c c, own) b.first,
            (λ j p q. rw (boost_curr-cores (put_core moved c core2) c c, own) (b.emptied j p q)),
            boost_curr-IsGood (put_core moved c core2) c kept,
          )
    ]
