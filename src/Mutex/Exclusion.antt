-- ===== src/Mutex/Exclusion.antt =====
-- At most one thread has the mutex of kernel/src/libs/mutex.cpp.
use noise_v.Base.{ℕ, zero, suc, ◌+◌, ◌≤◌, ◌<◌, ◌≡◌, refl, arith, ◌==◌, inl, inr, Bool-cases}
use noise_v.Locks.Queue.{update}
use noise_v.Locks.Count.{total, total-update, total_none, total_one, total_two}
use noise_v.Mutex.{
  Mutex, Pc, System, Wake, Timer, Move, Step, of, wakeup, Reach, start, later, idle, owner, storing,
  add_waiter, remove_waiter, take_free, exchange, mark, timer, from_sleep, kept, lost, again, up,
  in_sleep, early_kept, early_lost, when_called, when_awake, unlock_fast, unlock_slow, store,
}

-- From the acquisition to the store that frees the mutex.
abbrev pub has : Pc → ℕ
has owner = 1
has storing = 1
has _ = 0

abbrev pub closed : ℕ → ℕ
closed zero = 0
closed (suc v) = 1

abbrev Inv : ℕ → System → Type 0
Inv n s = total has n s.pc ≡ closed s.mutex.state

has-Wake : {p p' : Pc} → Wake p p' → has p' ≡ has p
has-Wake from_sleep = refl
has-Wake kept = refl
has-Wake lost = refl
has-Wake again = refl
has-Wake up = refl

has-Timer : {p p' : Pc} → Timer p p' → has p' ≡ has p
has-Timer in_sleep = refl
has-Timer early_kept = refl
has-Timer early_lost = refl
has-Timer when_called = refl
has-Timer when_awake = refl

-- What a move does to the state it does to the mover.
Move-closed :
    {m : Mutex} {i : ℕ} {p : Pc} {m' : Mutex} {p' : Pc}
    → Move m i p m' p'
    → has p ≤ closed m.state
    → closed m'.state + has p ≡ closed m.state + has p'
unfolding add_waiter remove_waiter
Move-closed (take_free e) h = ground (arith, e)
Move-closed (exchange e) h = ground (arith, e)
Move-closed (mark f e) h = ground (arith, e)
Move-closed (unlock_fast e) h = ground (arith, e)
Move-closed (unlock_slow e f) h = ground (arith, e, f)
Move-closed store h = ground (arith, h)
Move-closed (timer t) h = ground (arith, has-Timer t)
Move-closed mv h = ground arith

Step-Inv : {n : ℕ} {s t : System} → Inv n s → Step n s t → Inv n t
Step-Inv {n} {s} inv (of i {m} {p} lt move) =
    let here = total-update has n i s.pc p lt in
    let own = total_one has n s.pc i lt in
    omega (arith, here, inv, Move-closed move (omega (arith, own, inv)))
Step-Inv {n} {s} inv (wakeup i t {rest} {p} lt lt' ne e q w) =
    let first = total-update has n t s.pc p lt' in
    let second = total-update has n i (update s.pc t p) idle lt in
    ground (arith, first, second, inv, has-Wake w, e, ne)

Reach-Inv : {n : ℕ} {s : System} → Reach n s → Inv n s
Reach-Inv {n} start = total_none has n idle refl
Reach-Inv (later r st) = Step-Inv (Reach-Inv r) st

-- In every state that threads reach, two of them never have the mutex, from its acquisition to the
-- store that frees it, together; and the state is 0 exactly while none has it.
pub mutex_exclusion :
    {n : ℕ} {s : System}
    → Reach n s
    → ((i j : ℕ) → i < n → j < n → has (s.pc i) ≡ 1 → has (s.pc j) ≡ 1 → i ≡ j)
      × (total has n s.pc ≡ closed s.mutex.state)
mutex_exclusion {n} {s} r =
    let inv = Reach-Inv r in
    (
      (λ i j p q e f. elim (Bool-cases (i == j)) [
        | inl same ↦ ground arith
        | inr apart ↦
            absurd (ground (arith, inv, total_two has n s.pc i j p q (ground arith), e, f))
      ]),
      inv,
    )
