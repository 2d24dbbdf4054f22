-- ===== src/Mutex/Queue.antt =====
-- The sleepers of the mutex of kernel/src/libs/mutex.cpp.
use noise_v.Base.{
  ℕ, ◌<◌, ◌≡◌, ◌≢◌, sym, subst, Bool, false, arith, ◌==◌, inl, inr, Bool-cases, List, [], ◌∷◌, All,
}
use noise_v.Base.Counts.{All-append}
use noise_v.Locks.Queue.{update}
use noise_v.Mutex.{
  Mutex, Pc, System, Wake, Timer, Move, Step, of, wakeup, asleep, forever, remove_first, add_waiter,
  remove_waiter, waking, blocking, idle, lost, block, enqueue, give_up, retry, timer, in_sleep,
  early_kept, early_lost, when_called, when_awake,
}

pub data Steps (n : ℕ) (s : System) : System → Type 0 where
  none : Steps n s s
  more : {t u : System} → Steps n s t → Step n t u → Steps n s u

All-remove_first : (P : ℕ → Type 0) (t : ℕ) (xs : List ℕ) → All P xs → All P (remove_first t xs)
unfolding remove_first
All-remove_first P t [] a = tt
All-remove_first P t (x ∷ xs) a = elim (Bool-cases (x == t)) [
  | inl same ↦ rw same a.1
  | inr other ↦ rw other (a.0, All-remove_first P t xs a.1)
]

-- Asleep with no limit, and in no queue.
pub record IsLost (t : ℕ) (s : System) : Type 0 where
  pub sleeps : (timed_out : Bool) × (s.pc t ≡ asleep forever timed_out)
  pub out : All (λ j. j ≢ t) s.mutex.waiters

Timer-elsewhere : {p p' : Pc} {b : Bool} → Timer p p' → p ≢ asleep forever b
Timer-elsewhere in_sleep e = ground arith
Timer-elsewhere early_kept e = ground arith
Timer-elsewhere early_lost e = ground arith
Timer-elsewhere when_called e = ground arith
Timer-elsewhere when_awake e = ground arith

-- No move begins there.
Move-elsewhere :
    {m : Mutex} {i : ℕ} {p : Pc} {m' : Mutex} {p' : Pc} {b : Bool}
    → Move m i p m' p'
    → p ≢ asleep forever b
Move-elsewhere (timer mv) e = Timer-elsewhere mv e
Move-elsewhere mv e = ground arith

-- The queue that a move leaves has nobody new but the mover.
Move-All :
    {m : Mutex} {i : ℕ} {p : Pc} {m' : Mutex} {p' : Pc}
    → (P : ℕ → Type 0) → Move m i p m' p'
    → P i
    → All P m.waiters
    → All P m'.waiters
unfolding add_waiter remove_waiter
Move-All {m} {i} P (enqueue f) h a = All-append P m.waiters (i ∷ []) a (h, tt)
Move-All {m} {i} P give_up h a = All-remove_first P i m.waiters a
Move-All {m} {i} P retry h a = All-remove_first P i m.waiters a
Move-All P mv h a = a

Step-IsLost : {n t : ℕ} {s u : System} → IsLost t s → Step n s u → IsLost t u
Step-IsLost {n} {t} {s} l (of i {m} {p} lt move) =
    let (b, e) = l.sleeps in
    let ne : i ≢ t =
      λ same. Move-elsewhere move (subst (λ j. s.pc j ≡ asleep forever b) (sym same) e) in
    record { sleeps = (b, ground arith); out = Move-All (λ j. j ≢ t) move ne l.out }
Step-IsLost {n} {t} {s} l (wakeup i k {rest} lt lt' ne e q w) =
    let (b, f) = l.sleeps in
    let out = subst (All (λ j. j ≢ t)) q l.out in
    let head = out.0 in
    let other : i ≢ t = λ same. ground (arith, e, f) in
    record { sleeps = (b, ground arith); out = out.1 }

-- It sleeps on whatever the other threads do.
IsLost-later : {n t : ℕ} {s u : System} → IsLost t s → Steps n s u → IsLost t u
IsLost-later l none = l
IsLost-later l (more r st) = Step-IsLost (IsLost-later l r) st

-- When `wakeup_next` finds at the head of the queue a thread without a limit that has joined and not
-- yet gone to sleep, and that stands there once, the call may be lost: then the thread sleeps, in no
-- queue, and no steps of any threads ever wake it.
pub missed_wakeup_is_final :
    (n i t : ℕ) (s : System) (rest : List ℕ)
    → i < n
    → t < n
    → s.pc i ≡ waking
    → s.pc t ≡ blocking forever false
    → s.mutex.waiters ≡ t ∷ rest
    → All (λ j. j ≢ t) rest
    → (u : System) × Steps n s u × ((v : System) → Steps n u v → IsLost t v)
missed_wakeup_is_final n i t s rest lt lt' e f q out =
    let ne : i ≢ t = λ same. ground arith in
    let first : Step n s (record {
      mutex = record s.mutex { waiters = rest };
      pc = update (update s.pc t (blocking forever false)) i idle;
    }) =
      wakeup i t {rest = rest} {p = blocking forever false} lt lt' ne e q
        (subst (λ p. Wake p (blocking forever false)) (sym f) lost) in
    let pc1 = update (update s.pc t (blocking forever false)) i idle in
    let m1 = record s.mutex { waiters = rest } in
    let there : blocking forever false ≡ pc1 t = ground arith in
    let second : Step n (record { mutex = m1; pc = pc1 })
        (record { mutex = m1; pc = update pc1 t (asleep forever false) }) =
      of t lt' (subst (λ p. Move m1 t p m1 (asleep forever false)) there block) in
    let l : IsLost t (record { mutex = m1; pc = update pc1 t (asleep forever false) }) = record {
      sleeps = (false, ground arith);
      out = out;
    } in
    (_, more (more none first) second, λ v r. IsLost-later l r)
