-- ===== src/Scheduler/Invariant.antt =====
-- The invariant of all cores of kernel/src/task/scheduler.cpp, and the steps that the operations are
-- made of.
use noise_v.Base.{
  ℕ, zero, suc, ◌+◌, ◌%◌, ◌^◌, ◌<◌, ◌≡◌, ◌⊎◌, refl, ap, ◌∙◌, inl, inr, Bool, true, Option, none,
  some, [], ◌∷◌, arith, ◌==◌, if◌then◌else◌, length, get_or, set, Bool-cases,
}
use noise_v.Base.Words.{ctz}
use noise_v.MinHeap.{but_last}
use noise_v.Scheduler.State.{
  mask_out, Thread, Core, Kernel, put_core, put_thread, queue, shl_uint, shl_int,
}
use noise_v.Scheduler.Queues.{
  is_empty, push_core, push_ready, steal_tail, steal_loop, try_steal, get_next_thread,
}
use noise_v.Scheduler.Bitmap.{IsValid, push_core-IsValid, pop_highest_lem, steal_tail_lem}

-- Every bitmap is the set of its queues that are not empty, and no thread has sunk to level 31,
-- from which on the shifts of the source are wrong.
pub record IsGood (k : Kernel) : Type 0 where
  pub bitmaps : (c : ℕ) → IsValid (k.cores c)
  pub levels : (t : ℕ) → (k.threads t).priority < 31

pub copy-IsValid :
    (a b : Core)
    → IsValid a
    → b.ready_queue ≡ a.ready_queue
    → b.active_queues_bitmap ≡ a.active_queues_bitmap
    → IsValid b
copy-IsValid a b v e f = record {
  queues = ap length e ∙ v.queues;
  low = rw f v.low;
  bits = λ i h. rw (e, f) (v.bits i h);
}

pub put_core-IsGood :
    (k : Kernel) (c : ℕ) (core : Core) → IsGood k → IsValid core → IsGood (put_core k c core)
put_core-IsGood k c core g v = record {
  bitmaps = λ j. elim (Bool-cases (c == j)) [ inl e ↦ rw e v | inr e ↦ rw e (g.bitmaps j) ];
  levels = g.levels;
}

pub put_thread-IsGood :
    (k : Kernel) (t : ℕ) (thread : Thread)
    → IsGood k
    → thread.priority < 31
    → IsGood (put_thread k t thread)
put_thread-IsGood k t thread g h = record {
  bitmaps = g.bitmaps;
  levels = λ j. elim (Bool-cases (t == j)) [ inl e ↦ rw e h | inr e ↦ rw e (g.levels j) ];
}

pub push_ready-IsGood :
    (shift : ℕ → ℕ) (k : Kernel) (c t : ℕ)
    → IsGood k
    → ((p : ℕ) → p < 31 → shift p ≡ 2 ^ p)
    → IsGood (push_ready shift k c t)
unfolding push_ready
push_ready-IsGood shift k c t g s =
    let p = (k.threads t).priority in
    let core = push_core shift (k.cores c) p t in
    let g' =
      put_thread-IsGood (put_core k c core) t (record (k.threads t) { linked = true })
        (put_core-IsGood k c core g
          (push_core-IsValid shift (k.cores c) p t (g.bitmaps c) (g.levels t) (s p (g.levels t))))
        (g.levels t) in
    record { bitmaps = g'.bitmaps; levels = g'.levels }

pub shl_int_low : (p : ℕ) → p < 31 → shl_int p ≡ 2 ^ p
shl_int_low p h = let e : p % 32 ≡ p = omega arith in rw e (ground arith)

pub shl_uint_low : (p : ℕ) → p < 31 → shl_uint p ≡ 2 ^ p
shl_uint_low p h = let e : p % 32 ≡ p = omega arith in rw e refl

-- A step that gives a result and keeps the invariant.
abbrev pub Succeeds : Option Kernel → Type 0
Succeeds r = (k : Kernel) × (r ≡ some k) × IsGood k

abbrev pub Yields : Option (ℕ × Kernel) → Type 0
Yields r = (t : ℕ) × (k : Kernel) × (r ≡ some (t, k)) × IsGood k

steal_tail-idle : (core : Core) → core.active_queues_bitmap ≡ 0 → steal_tail core ≡ none
unfolding steal_tail
steal_tail-idle core e =
    let test : (core.active_queues_bitmap == 0) ≡ true = ground (arith, e) in
    elim (queue core (ctz 64 core.active_queues_bitmap))
      as (λ q.
        elim q as (λ _. Option (ℕ × Core)) [
          | [] ↦ none
          | x ∷ xs ↦
              if core.active_queues_bitmap == 0
              then none
              else some (
                get_or (x ∷ xs) (length xs) x,
                record core {
                  ready_queue =
                      set core.ready_queue (ctz 64 core.active_queues_bitmap) (but_last (x ∷ xs));
                  active_queues_bitmap =
                      (if is_empty (but_last (x ∷ xs))
                        then mask_out core.active_queues_bitmap (ctz 64 core.active_queues_bitmap)
                        else core.active_queues_bitmap);
                },
              )
        ]
        ≡ none) [ [] ↦ refl | x ∷ xs ↦ rw test refl ]

-- A thief finds a thread or nothing, never an empty list whose bit is set.
steal_loop-good :
    (try_lock : ℕ → Bool) (rounds i : ℕ) (k : Kernel) (c : ℕ)
    → IsGood k
    → (steal_loop try_lock rounds i k c ≡ none) ⊎ Yields (steal_loop try_lock rounds i k c)
unfolding steal_loop
steal_loop-good try_lock zero i k c g = inl refl
steal_loop-good try_lock (suc rounds) i k c g =
    let rest = steal_loop-good try_lock rounds (i + 1) k c g in
    let victim = (c + i) % k.total_cores in
    let core = k.cores victim in
    elim (Bool-cases (victim == c)) [
      | inl own ↦ rw own rest
      | inr other ↦ rw other (elim (Bool-cases (try_lock victim)) [
        | inr held ↦ rw held rest
        | inl got ↦ rw got (elim (Bool-cases (core.active_queues_bitmap == 0)) [
          | inl idle ↦ rw (steal_tail-idle core (ground arith), steal_loop) rest
          | inr busy ↦
              let (t, p, left, core', e, _, _, _, v) =
                steal_tail_lem core (g.bitmaps victim) (ground arith) in
              inr (
                t,
                put_thread (put_core k victim core') t (record (k.threads t) { cpu = c }),
                rw (e, steal_loop) refl,
                put_thread-IsGood (put_core k victim core') t (record (k.threads t) { cpu = c })
                    (put_core-IsGood k victim core' g v) (g.levels t),
              )
        ])
      ])
    ]

-- `get_next_thread` always finds a thread, and keeps the invariant.
pub get_next_thread-good :
    (try_lock : ℕ → Bool) (k : Kernel) (c : ℕ) → IsGood k → Yields (get_next_thread try_lock k c)
unfolding get_next_thread try_steal
get_next_thread-good try_lock k c g =
    let core = k.cores c in
    elim (Bool-cases (core.active_queues_bitmap == 0)) [
      | inr busy ↦
          let (t, p, rest, core', e, _, _, _, v) =
            pop_highest_lem core (g.bitmaps c) (ground arith) in
          rw busy
            (t, put_core k c core', rw (e, get_next_thread) refl, put_core-IsGood k c core' g v)
      | inl idle ↦ rw idle (elim (steal_loop-good try_lock k.total_cores 0 k c g) [
        | inl e ↦ (core.idle_thread, k, rw (e, get_next_thread) refl, g)
        | inr got ↦ let (t, k', e, g') = got in (t, k', rw (e, get_next_thread) refl, g')
      ])
    ]
