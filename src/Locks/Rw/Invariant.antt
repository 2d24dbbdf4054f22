-- ===== src/Locks/Rw/Invariant.antt =====
-- Who holds what of the lock of kernel/include/libs/spinlock.hpp for readers and writers.
use noise_v.Base.{
  ℕ, ◌+◌, ◌^◌, ◌≤◌, ◌<◌, ◌≡◌, ◌≢◌, sym, ap, subst, ◌∙◌, inl, inr, Bool, true, false, Option, none,
  some, List, [], ◌∷◌, ◌++◌, arith, ◌==◌, length, length-append, Bool-cases, ltb,
}
use noise_v.Locks.{SpinLock, take_ticket}
use noise_v.Locks.Queue.{update, Line, Line-same, Line-join, served-front}
use noise_v.Locks.Rw.{
  RwLock, Pc, idle, added, second_check, undoing, reading, entering, spinning, draining, testing,
  failing, writing, leaving, handing, storing, with_lock,
}
use noise_v.Locks.Count.{total, total-update, total_zero}

-- The ticket in the writers' lock.
abbrev pub ticket : SpinLock → Pc → Option ℕ
ticket l (spinning waits mine) = some mine
ticket l draining = some l.serving_ticket
ticket l testing = some l.serving_ticket
ticket l failing = some l.serving_ticket
ticket l writing = some l.serving_ticket
ticket l (leaving curr) = some l.serving_ticket
ticket l handing = some l.serving_ticket
ticket l (storing curr) = some l.serving_ticket
ticket l _ = none

abbrev pub tickets : SpinLock → (ℕ → Pc) → ℕ → Option ℕ
tickets l pc i = ticket l (pc i)

-- At the front of the writers.
abbrev pub owns : Pc → Bool
owns draining = true
owns testing = true
owns failing = true
owns writing = true
owns (leaving curr) = true
owns handing = true
owns (storing curr) = true
owns _ = false

-- In the count of the readers.
abbrev pub counts : Pc → ℕ
counts added = 1
counts (second_check curr) = 1
counts undoing = 1
counts reading = 1
counts _ = 0

abbrev pub IsFresh : SpinLock → Pc → Type 0
IsFresh l (leaving curr) = curr ≡ l.serving_ticket
IsFresh l (storing curr) = curr ≡ l.serving_ticket
IsFresh l (second_check curr) = curr ≤ l.serving_ticket
IsFresh l _ = Unit

-- After `k` steps, which have given out that many tickets at most.
pub record Inv (n k : ℕ) (m : RwLock) (pc : ℕ → Pc) (q : List ℕ) : Type 0 where
  pub line : Line n m.writer_lock q (tickets m.writer_lock pc)
  pub taken : m.writer_lock.next_ticket ≤ k
  pub exact : m.writer_lock.next_ticket ≡ m.writer_lock.serving_ticket + length q
  pub counted : m.readers ≡ total counts n pc
  pub outside : (i : ℕ) → n ≤ i → pc i ≡ idle
  pub exclusive : (i j : ℕ) → pc i ≡ writing → pc j ≢ reading
  pub fresh : (i : ℕ) → IsFresh m.writer_lock (pc i)

-- The step may bring this processor in among the others.
abbrev pub IsSafe : (ℕ → Pc) → Pc → Type 0
IsSafe pc writing = (j : ℕ) → pc j ≢ reading
IsSafe pc reading = (j : ℕ) → pc j ≢ writing
IsSafe pc _ = Unit

module _ {n k : ℕ} {m : RwLock} {pc : ℕ → Pc} {q : List ℕ} (inv : Inv n k m pc q) (i : ℕ)
    (lt : i < n) where
  pub exclusive_after :
      (p : Pc) → IsSafe pc p → (a b : ℕ) → update pc i p a ≡ writing → update pc i p b ≢ reading
  exclusive_after p safe a b e f = elim (Bool-cases (i == a)) [
    | inl at_a ↦
        let w : p ≡ writing = ground arith in
        elim (Bool-cases (i == b)) [
          | inl at_b ↦ ground (arith, w)
          | inr old_b ↦ (subst (IsSafe pc) w safe) b (ground arith)
        ]
    | inr old_a ↦ elim (Bool-cases (i == b)) [
      | inl at_b ↦ let r : p ≡ reading = ground arith in (subst (IsSafe pc) r safe) a (ground arith)
      | inr old_b ↦ inv.exclusive a b (ground arith) (ground arith)
    ]
  ]

  -- A move that keeps the writers' lock and the mover's ticket.
  pub keep :
      (readers : ℕ) (p : Pc)
      → ticket m.writer_lock (pc i) ≡ ticket m.writer_lock p
      → IsFresh m.writer_lock p
      → IsSafe pc p
      → readers + counts (pc i) ≡ m.readers + counts p
      → Inv n (k + 1) (record m { readers = readers }) (update pc i p) q
  keep readers p e f safe change = record {
    line =
        Line-same n m.writer_lock q (tickets m.writer_lock pc)
          (tickets m.writer_lock (update pc i p)) inv.line (λ j. ground arith);
    taken = omega (arith, inv.taken);
    exact = inv.exact;
    counted = omega (arith, total-update counts n i pc p lt, inv.counted, change);
    outside = λ j h. ground (arith, inv.outside j h);
    exclusive = exclusive_after p safe;
    fresh = λ j. ground (arith, inv.fresh j);
  }

  pub arrive :
      (waits : Bool)
      → k + 1 < 2 ^ 64
      → pc i ≡ entering waits
      → Inv n
          (k + 1)
          (with_lock m (take_ticket m.writer_lock))
          (update pc i (spinning waits m.writer_lock.next_ticket))
          (q ++ i ∷ [])
  unfolding take_ticket
  arrive waits short e =
      let l = m.writer_lock in
      let p = spinning waits l.next_ticket in
      record {
        line =
            Line-join n l q (tickets l pc) (tickets (take_ticket l) (update pc i p)) i inv.line lt
              (ground arith) (λ j. ground arith);
        taken = omega (arith, inv.taken);
        exact = omega (arith, inv.exact, inv.taken, short, length-append q (i ∷ []));
        counted = ground (arith, total-update counts n i pc p lt, inv.counted);
        outside = λ j h. ground (arith, inv.outside j h);
        exclusive = exclusive_after p tt;
        fresh = λ j. ground (arith, inv.fresh j);
      }

  -- Who owns is the front of the writers.
  pub owner-front : owns (pc i) ≡ true → (rest : List ℕ) × (q ≡ i ∷ rest)
  owner-front e =
      served-front m.writer_lock q (tickets m.writer_lock pc) i inv.line.queue (ground arith)

  -- The writers' lock is closed while there is an owner.
  pub owner-locked : owns (pc i) ≡ true → m.writer_lock.serving_ticket ≢ m.writer_lock.next_ticket
  owner-locked e f = let (rest, g) = owner-front e in omega (arith, ap length g, inv.exact, f)

  pub none_reading : m.readers ≡ 0 → (j : ℕ) → pc j ≢ reading
  none_reading e j f = elim (Bool-cases (ltb j n)) [
    | inl low ↦ ground (arith, total_zero counts n pc j (sym inv.counted ∙ e) (ground arith))
    | inr high ↦ ground (arith, inv.outside j (ground arith))
  ]
