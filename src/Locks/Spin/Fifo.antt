-- ===== src/Locks/Spin/Fifo.antt =====
-- The lock of kernel/include/libs/spinlock.hpp as a queue of processors.
use noise_v.Base.{
  ℕ, ◌^◌, ◌<◌, ◌≡◌, ◌≢◌, refl, sym, ap, subst, inl, inr, true, false, Option, none, some, List, [],
  ◌∷◌, ◌++◌, arith, ◌==◌, length, Bool-cases,
}
use noise_v.Locks.{SpinLock, take_ticket, hand_off}
use noise_v.Locks.Queue.{
  update, Line, Line-same, Line-join, Line-leave, Line-new, served-front, open_iff,
}
use noise_v.Locks.Spin.{
  Pc, idle, trying, entering, spinning, critical, leaving, handing, storing, Move, call_lock,
  call_try, try_busy, try_open, take, pause, enter, call_unlock, not_locked, locked, load, store,
  System, Step, of, init, Reach, start, later, has_lock,
}

-- The owner's ticket is the one that is served.
abbrev pub ticket : SpinLock → Pc → Option ℕ
ticket l (spinning mine) = some mine
ticket l critical = some l.serving_ticket
ticket l (leaving curr) = some l.serving_ticket
ticket l handing = some l.serving_ticket
ticket l (storing curr) = some l.serving_ticket
ticket l _ = none

-- What the owner has loaded is what is served.
abbrev IsFresh : SpinLock → Pc → Type 0
IsFresh l (leaving curr) = curr ≡ l.serving_ticket
IsFresh l (storing curr) = curr ≡ l.serving_ticket
IsFresh l _ = Unit

abbrev tickets : SpinLock → (ℕ → Pc) → ℕ → Option ℕ
tickets l pc i = ticket l (pc i)

pub record Inv (n : ℕ) (l : SpinLock) (pc : ℕ → Pc) (q : List ℕ) : Type 0 where
  pub line : Line n l q (tickets l pc)
  pub fresh : (i : ℕ) → IsFresh l (pc i)

-- What a processor `i` may do to a queue.
pub data Fifo (i : ℕ) : List ℕ → List ℕ → Type 0 where
  stay : {q : List ℕ} → Fifo i q q
  join : {q : List ℕ} → Fifo i q (q ++ i ∷ [])
  leave : {q : List ℕ} → Fifo i (i ∷ q) q

module _ {n : ℕ} {l : SpinLock} {pc : ℕ → Pc} {q : List ℕ} (inv : Inv n l pc q) (i : ℕ) where
  -- A move that keeps the lock and the mover's ticket.
  keep :
      (p : Pc)
      → ticket l (pc i) ≡ ticket l p
      → IsFresh l p
      → (q' : List ℕ) × Fifo i q q' × Inv n l (update pc i p) q'
  keep p e f = (
    q,
    stay,
    record {
      line =
          Line-same n l q (tickets l pc) (tickets l (update pc i p)) inv.line (λ j. ground arith);
      fresh = λ j. ground (arith, inv.fresh j);
    },
  )

  arrive :
      i < n
      → ticket l (pc i) ≡ none
      → (q' : List ℕ) × Fifo i q q'
        × Inv n (take_ticket l) (update pc i (spinning l.next_ticket)) q'
  unfolding take_ticket
  arrive lt e = (
    q ++ i ∷ [],
    join,
    record {
      line =
          Line-join n l q (tickets l pc)
            (tickets (take_ticket l) (update pc i (spinning l.next_ticket))) i inv.line lt e
            (λ j. ground arith);
      fresh = λ j. ground (arith, inv.fresh j);
    },
  )

  -- The owner is the front.
  pub owner-front : has_lock (pc i) ≡ true → (rest : List ℕ) × (q ≡ i ∷ rest)
  owner-front e = served-front l q (tickets l pc) i inv.line.queue (ground arith)

  -- The lock is locked as long as it has an owner.
  pub owner-locked : has_lock (pc i) ≡ true → l.serving_ticket ≢ l.next_ticket
  owner-locked e f =
      let (rest, g) = owner-front e in
      let none_left = (open_iff l q (tickets l pc) inv.line.queue).0 f in
      omega (arith, ap length g, ap length none_left)

stable : (l l' : SpinLock) (p : Pc) → has_lock p ≡ false → ticket l' p ≡ ticket l p
stable l l' p e = ground arith

fresh_stable : (l l' : SpinLock) (p : Pc) → has_lock p ≡ false → IsFresh l p → IsFresh l' p
fresh_stable l l' p e f = ground arith

module _ {n : ℕ} {l : SpinLock} {pc : ℕ → Pc} (i : ℕ) (rest : List ℕ)
    (inv : Inv n l pc (i ∷ rest)) where
  -- Nobody but the front has the lock.
  others : (j : ℕ) → i ≢ j → has_lock (pc j) ≡ false
  others j ne = elim (Bool-cases (has_lock (pc j))) [
    | inl has ↦ let (r, e) = owner-front inv j has in absurd (ne (ground (arith, e)))
    | inr not ↦ not
  ]

  depart_front : Inv n (hand_off l l.serving_ticket) (update pc i idle) rest
  depart_front = record {
    line =
        Line-leave n l rest (tickets l pc)
          (tickets (hand_off l l.serving_ticket) (update pc i idle)) i inv.line
          (λ j. elim (Bool-cases (i == j)) [
            | inl same ↦ rw same refl
            | inr other ↦
                rw other (stable l (hand_off l l.serving_ticket) (pc j) (others j (ground arith)))
          ]);
    fresh = λ j. elim (Bool-cases (i == j)) [
      | inl same ↦ rw same tt
      | inr other ↦ rw other (
          fresh_stable l (hand_off l l.serving_ticket) (pc j) (others j (ground arith))
            (inv.fresh j))
    ];
  }

depart :
    {n : ℕ} {l : SpinLock} {pc : ℕ → Pc} {q : List ℕ}
    → Inv n l pc q
    → (i curr : ℕ) → pc i ≡ storing curr
    → (q' : List ℕ) × Fifo i q q' × Inv n (hand_off l curr) (update pc i idle) q'
depart {n} {l} {pc} {q} inv i curr e =
    let (rest, f) = owner-front inv i (ground arith) in
    let own : curr ≡ l.serving_ticket = ground (arith, inv.fresh i) in
    let left = depart_front i rest (subst (Inv n l pc) f inv) in
    (
      rest,
      subst (λ r. Fifo i r rest) (sym f) leave,
      subst (λ c. Inv n (hand_off l c) (update pc i idle) rest) (sym own) left,
    )

Move-Inv :
    {n : ℕ} {l : SpinLock} {pc : ℕ → Pc} {q : List ℕ}
    → Inv n l pc q
    → (i : ℕ) → i < n
    → {p p' : Pc} {l' : SpinLock} → pc i ≡ p
    → Move l p l' p'
    → (q' : List ℕ) × Fifo i q q' × Inv n l' (update pc i p') q'
Move-Inv {l} inv i lt e call_lock = keep inv i entering (ground arith) tt
Move-Inv {l} inv i lt e call_try = keep inv i (trying l.serving_ticket) (ground arith) tt
Move-Inv inv i lt e (try_busy f) = keep inv i idle (ground arith) tt
Move-Inv inv i lt e (try_open f) = keep inv i entering (ground arith) tt
Move-Inv inv i lt e take = arrive inv i lt (ground arith)
Move-Inv inv i lt e (pause {mine} f) = keep inv i (spinning mine) (ground arith) tt
Move-Inv inv i lt e (enter f) = keep inv i critical (ground arith) tt
Move-Inv {l} inv i lt e call_unlock = keep inv i (leaving l.serving_ticket) (ground arith) refl
Move-Inv inv i lt e (not_locked {curr} f) =
    absurd (owner-locked inv i (ground arith) (ground (arith, inv.fresh i, f)))
Move-Inv inv i lt e (locked f) = keep inv i handing (ground arith) tt
Move-Inv {l} inv i lt e load = keep inv i (storing l.serving_ticket) (ground arith) refl
Move-Inv inv i lt e (store {curr}) = depart inv i curr e

-- Each step of the lock is one of the queue.
pub Step-Inv :
    {n : ℕ} {s t : System} {q : List ℕ}
    → Inv n s.lock s.pc q
    → Step n s t
    → (i : ℕ) × (q' : List ℕ) × Fifo i q q' × Inv n t.lock t.pc q'
Step-Inv inv (of i lt move) = let (q', f, v) = Move-Inv inv i lt refl move in (i, q', f, v)

init-Inv : (n : ℕ) → n < 2 ^ 64 → Inv n init.lock init.pc []
init-Inv n few = record { line = Line-new n (λ i. none) few (λ i. refl); fresh = λ i. tt }

pub Reach-Inv : {n : ℕ} {s : System} → n < 2 ^ 64 → Reach n s → (q : List ℕ) × Inv n s.lock s.pc q
Reach-Inv {n} few start = ([], init-Inv n few)
Reach-Inv few (later r st) =
    let (q, inv) = Reach-Inv few r in let (i, q', _, inv') = Step-Inv inv st in (q', inv')
