-- ===== src/Scheduler/Faults.antt =====
-- Where kernel/src/task/scheduler.cpp loses a thread.
use Prim.Native.Nat.{bit_or-bitwise}
use native.Mathlib.Nat.{pow-le-pow_right, one-le-pow}
use noise_v.Base.{
  ℕ, zero, suc, ◌+◌, ◌-◌, ◌%◌, ◌^◌, ◌≤◌, ◌<◌, ◌≡◌, refl, ap, sym, ◌∙◌, inl, inr, bit_or, Bool, true,
  false, Option, none, some, [], ◌∷◌, ◌++◌, arith, ◌==◌, if◌then◌else◌, get_or-set, Bool-cases,
  Option-cases,
}
use noise_v.Base.Digits.{digit, digit-pow, digit-zero}
use noise_v.Base.Words.{ctz, digit-ctz}
use noise_v.Scheduler.State.{ready, Thread, Core, Kernel, put_thread, queue, shl_int}
use noise_v.Scheduler.Queues.{
  push_core, pop_highest, prepared, add_thread, steal_tail, steal_loop, try_steal, get_next_thread,
}
use noise_v.Scheduler.Bitmap.{is_empty-nil, IsValid}

ctz-pow : (n j : ℕ) → j < n → 2 ^ j < 2 ^ n → ctz n (2 ^ j) ≡ j
ctz-pow n j h small =
    let hit = (digit-ctz n (2 ^ j) small (λ e. omega (arith, e, one-le-pow j 2 (omega arith)))).1 in
    ground (arith, hit, digit-pow j (ctz n (2 ^ j)))

pop_highest-nil :
    (core : Core) → queue core (ctz 64 core.active_queues_bitmap) ≡ [] → pop_highest core ≡ none
unfolding pop_highest
pop_highest-nil core e = rw (e, pop_highest) refl

-- A thread of a level from 32 to 62 that becomes ready on a valid core with an empty bitmap sets the bit of a level that is
-- 32 lower, whose queue is empty: the next choice of a thread takes the front of that empty list.
pub low_level_breaks :
    (core : Core) (p t : ℕ)
    → IsValid core
    → core.active_queues_bitmap ≡ 0
    → 32 ≤ p
    → p < 63
    → pop_highest (push_core shl_int core p t) ≡ none
unfolding push_core
low_level_breaks core p t v e above below =
    let j = p - 32 in
    let count : p % 32 ≡ j = omega arith in
    let bits : bit_or core.active_queues_bitmap (2 ^ j) ≡ 2 ^ j =
      ap (λ w. bit_or w (2 ^ j)) e ∙ bit_or-bitwise 0 (2 ^ j) in
    let shift : shl_int p ≡ 2 ^ j = rw count (ground arith) in
    let core' = push_core shl_int core p t in
    let bitmap : core'.active_queues_bitmap ≡ 2 ^ j =
      ap (λ w. bit_or core.active_queues_bitmap w) shift ∙ bits in
    let first : ctz 64 core'.active_queues_bitmap ≡ j =
      ap (λ w. ctz 64 w) bitmap
      ∙ ctz-pow 64 j (omega arith)
          (omega (arith, pow-le-pow_right {n = 2} (omega arith) {i = j} {j = 63} (omega arith))) in
    let idle : queue core j ≡ [] =
      is_empty-nil (queue core j)
        (sym (v.bits j (omega arith)) ∙ ap (λ w. digit w j) e ∙ digit-zero j) in
    let empty : queue core' (ctz 64 core'.active_queues_bitmap) ≡ [] =
      ap (λ n. queue core' n) first
      ∙ ground
          (arith, idle, v.queues, get_or-set core.ready_queue p j (queue core p ++ t ∷ []) []) in
    pop_highest-nil core' empty

-- What a choice of a thread leaves of a thread's link.
KeepsLink : ℕ → Kernel → Option (ℕ × Kernel) → Type 0
KeepsLink t k none = Unit
KeepsLink t k (some r) = (r.1.threads t).linked ≡ (k.threads t).linked

steal_loop-KeepsLink :
    (try_lock : ℕ → Bool) (rounds i : ℕ) (k : Kernel) (c t : ℕ)
    → KeepsLink t k (steal_loop try_lock rounds i k c)
unfolding steal_loop KeepsLink
steal_loop-KeepsLink try_lock zero i k c t = tt
steal_loop-KeepsLink try_lock (suc rounds) i k c t =
    let rest = steal_loop-KeepsLink try_lock rounds (i + 1) k c t in
    let victim = (c + i) % k.total_cores in
    elim (Bool-cases (victim == c)) [
      | inl own ↦ rw own rest
      | inr other ↦ rw other (elim (Bool-cases (try_lock victim)) [
        | inr held ↦ rw held rest
        | inl got ↦ rw got (elim (Option-cases (steal_tail (k.cores victim))) [
          | inl e ↦ rw (e, steal_loop) rest
          | inr found ↦
              let (s, e) = found in
              rw (e, steal_loop)
                (elim (Bool-cases (s.0 == t)) [
                  | inl f ↦ rw f (ap (λ j. (k.threads j).linked) (ground (arith, f)))
                  | inr f ↦ rw f refl
                ])
        ])
      ])
    ]

get_next_thread-KeepsLink :
    (try_lock : ℕ → Bool) (k : Kernel) (c t : ℕ) → KeepsLink t k (get_next_thread try_lock k c)
unfolding get_next_thread try_steal KeepsLink
get_next_thread-KeepsLink try_lock k c t =
    let core = k.cores c in
    elim (Bool-cases (core.active_queues_bitmap == 0)) [
      | inr busy ↦ rw busy (elim (Option-cases (pop_highest core)) [
        | inl e ↦ rw (e, get_next_thread) tt
        | inr found ↦ rw (found.1, get_next_thread) refl
      ])
      | inl idle ↦ rw idle (elim (Option-cases (steal_loop try_lock k.total_cores 0 k c)) [
        | inl e ↦ rw (e, get_next_thread) refl
        | inr found ↦
            let (s, e) = found in
            rw (e, get_next_thread) (rw e at (steal_loop-KeepsLink try_lock k.total_cores 0 k c t))
      ])
    ]

then_branch : (b : Bool) (x y : Kernel) → b ≡ true → (if b then x else y) ≡ x
then_branch true x y e = refl
then_branch false x y e = absurd (ground arith)

own_thread : (k : Kernel) (t : ℕ) (thread : Thread) → (put_thread k t thread).threads t ≡ thread
own_thread k t thread = ground arith

add_thread-linked :
    (k : Kernel) (c here t : ℕ)
    → (k.threads t).linked ≡ true
    → ((d : ℕ) → (add_thread k c here t).cores d ≡ k.cores d)
      × ((add_thread k c here t).threads t ≡ prepared (k.threads t) c)
unfolding add_thread
add_thread-linked k c here t e =
    let k1 = put_thread k t (prepared (k.threads t) c) in
    (
      λ d. ap (λ (x : Kernel). x.cores d) (then_branch (k.threads t).linked k1 _ e),
      ap (λ (x : Kernel). x.threads t) (then_branch (k.threads t).linked k1 _ e)
          ∙ own_thread k t (prepared (k.threads t) c),
    )

-- A thread that was linked into a list once stays so when it is chosen to run: adding it to a
-- scheduler afterwards marks it ready and puts it into no queue.
pub readded_is_lost :
    (try_lock : ℕ → Bool) (k : Kernel) (c here t next : ℕ) (k' : Kernel)
    → (k.threads t).linked ≡ true
    → get_next_thread try_lock k c ≡ some (next, k')
    → ((d : ℕ) → (add_thread k' c here t).cores d ≡ k'.cores d)
      × (((add_thread k' c here t).threads t).state ≡ ready)
unfolding KeepsLink prepared
readded_is_lost try_lock k c here t next k' linked e =
    let kept = rw e at (get_next_thread-KeepsLink try_lock k c t) in
    let (cores, thread) = add_thread-linked k' c here t (kept ∙ linked) in
    (cores, ap (λ (u : Thread). u.state) thread)
