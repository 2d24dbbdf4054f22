-- ===== src/Locks/Rw/Moves.antt =====
-- Every step of the readers-writer lock of kernel/include/libs/spinlock.hpp keeps its invariant.
use noise_v.Base.{
  ℕ, ◌+◌, ◌-◌, ◌%◌, ◌^◌, ◌≤◌, ◌<◌, ◌≡◌, ◌≢◌, refl, sym, subst, inl, inr, true, false, none, List,
  [], ◌∷◌, ◌++◌, arith, ◌==◌, Bool-cases, ltb,
}
use noise_v.Locks.{SpinLock, hand_off}
use noise_v.Locks.Queue.{update, Line-leave, Line-new}
use noise_v.Locks.Rw.{
  RwLock, Pc, idle, first_check, adding, added, second_check, undoing, reading, trying, entering,
  spinning, draining, testing, failing, writing, leaving, handing, storing, one_more, one_less,
  with_lock, Move, System, of, init, Reach, start, later,
}
use noise_v.Locks.Rw.Move.{
  call_read, refused, allowed, add, reload, read_in, too_late, undo, release_read, call_write,
  call_try, try_busy, try_open, take, pause, enter, enter_try, drain, write_in, test_busy, test_in,
  give_up, release_write, not_locked, locked, load, store,
}
use noise_v.Locks.Rw.Invariant.{
  ticket, tickets, owns, counts, IsFresh, IsSafe, Inv, keep, arrive, exclusive_after, owner-front,
  owner-locked, none_reading,
}
use noise_v.Locks.Count.{total, total-update, total_bound, total_none}

stable : (l l' : SpinLock) (p : Pc) → owns p ≡ false → ticket l' p ≡ ticket l p
stable l l' p e = ground arith

fresh_stable :
    (l l' : SpinLock) (p : Pc)
    → owns p ≡ false
    → l.serving_ticket ≤ l'.serving_ticket
    → IsFresh l p
    → IsFresh l' p
fresh_stable l l' p e h f = ground arith

module _ {n k : ℕ} {m : RwLock} {pc : ℕ → Pc} (i : ℕ) (lt : i < n) (rest : List ℕ)
    (inv : Inv n k m pc (i ∷ rest)) where
  others : (j : ℕ) → i ≢ j → j < n → owns (pc j) ≡ false
  others j ne lt' = elim (Bool-cases (owns (pc j))) [
    | inl has ↦ let (r, e) = owner-front inv j lt' has in absurd (ne (ground (arith, e)))
    | inr not ↦ not
  ]

  depart_front :
      k < 2 ^ 64
      → owns (pc i) ≡ true
      → Inv n
          (k + 1)
          (with_lock m (hand_off m.writer_lock m.writer_lock.serving_ticket))
          (update pc i idle)
          rest
  unfolding hand_off
  depart_front short own =
      let l = m.writer_lock in
      let l' = hand_off l l.serving_ticket in
      let other = λ (j : ℕ) (ne : i ≢ j).
        elim (Bool-cases (ltb j n)) as (λ _. owns (pc j) ≡ false) [
          | inl low ↦ others j ne (ground arith)
          | inr high ↦ ground (arith, inv.outside j (ground arith))
        ] in
      let grows : l.serving_ticket ≤ l'.serving_ticket =
        omega (arith, inv.exact, inv.taken, short) in
      record {
        line = Line-leave n l rest (tickets l pc) (tickets l' (update pc i idle)) i inv.line (λ j.
            elim (Bool-cases (i == j)) [
              | inl same ↦ rw same refl
              | inr apart ↦ rw apart (stable l l' (pc j) (other j (ground arith)))
            ]);
        taken = omega (arith, inv.taken);
        exact = omega (arith, inv.exact, inv.taken, short);
        counted = ground (arith, total-update counts n i pc idle lt, inv.counted);
        outside = λ j h. ground (arith, inv.outside j h);
        exclusive = exclusive_after inv i lt idle tt;
        fresh = λ j. elim (Bool-cases (i == j)) [
          | inl same ↦ rw same tt
          | inr apart ↦
              rw apart (fresh_stable l l' (pc j) (other j (ground arith)) grows (inv.fresh j))
        ];
      }

depart :
    {n k : ℕ} {m : RwLock} {pc : ℕ → Pc} {q : List ℕ}
    → Inv n k m pc q
    → (i curr : ℕ) → i < n
    → k < 2 ^ 64
    → pc i ≡ storing curr
    → (q' : List ℕ) × Inv n
        (k + 1)
        (with_lock m (hand_off m.writer_lock curr))
        (update pc i idle)
        q'
depart {n} {k} {m} {pc} {q} inv i curr lt short e =
    let (rest, f) = owner-front inv i lt (ground arith) in
    let own : curr ≡ m.writer_lock.serving_ticket = ground (arith, inv.fresh i) in
    let left = depart_front i lt rest (subst (Inv n k m pc) f inv) short (ground arith) in
    (
      rest,
      subst (λ c. Inv n (k + 1) (with_lock m (hand_off m.writer_lock c)) (update pc i idle) rest)
          (sym own) left,
    )

module _ {n k : ℕ} {m : RwLock} {pc : ℕ → Pc} {q : List ℕ} (inv : Inv n k m pc q)
    (short : k + 1 < 2 ^ 64) (i : ℕ) (lt : i < n) where
  same :
      (p : Pc)
      → ticket m.writer_lock (pc i) ≡ ticket m.writer_lock p
      → IsFresh m.writer_lock p
      → IsSafe pc p
      → counts (pc i) ≡ counts p
      → (q' : List ℕ) × Inv n (k + 1) m (update pc i p) q'
  same p e f safe c = (q, keep inv i lt m.readers p e f safe (omega (arith, c)))

  room : total counts n pc < 2 ^ 64
  room = omega (arith, total_bound counts n pc (λ p. ground arith), inv.line.few)

  no_writer :
      {curr : ℕ}
      → pc i ≡ second_check curr
      → curr ≡ m.writer_lock.next_ticket
      → (j : ℕ) → pc j ≢ writing
  no_writer e f j g = elim (Bool-cases (ltb j n)) [
    | inl low ↦
        owner-locked inv j (ground arith) (ground arith)
          (ground (arith, inv.fresh i, inv.exact, e, f))
    | inr high ↦ ground (arith, inv.outside j (ground arith))
  ]

  more : pc i ≡ adding → (q' : List ℕ) × Inv n (k + 1) (one_more m) (update pc i added) q'
  more e =
      let after = total_bound counts n (update pc i added) (λ p. ground arith) in
      let moved = total-update counts n i pc added lt in
      (
        q,
        keep inv i lt ((m.readers + 1) % 2 ^ 64) added (ground arith) tt tt
            (ground (arith, inv.counted, after, moved, inv.line.few)),
      )

  fewer :
      counts (pc i) ≡ 1
      → ticket m.writer_lock (pc i) ≡ none
      → (q' : List ℕ) × Inv n (k + 1) (one_less m) (update pc i idle) q'
  fewer e f =
      let moved = total-update counts n i pc idle lt in
      (
        q,
        keep inv i lt ((m.readers + (2 ^ 64 - 1)) % 2 ^ 64) idle f tt tt
            (ground (arith, inv.counted, room, moved, e)),
      )

  Move-Inv :
      {p p' : Pc} {m' : RwLock}
      → pc i ≡ p
      → Move m p m' p'
      → (q' : List ℕ) × Inv n (k + 1) m' (update pc i p') q'
  Move-Inv e call_read =
      same (first_check m.writer_lock.serving_ticket) (ground arith) tt tt (ground arith)
  Move-Inv e (refused f) = same idle (ground arith) tt tt (ground arith)
  Move-Inv e (allowed f) = same adding (ground arith) tt tt (ground arith)
  Move-Inv e add = more e
  Move-Inv e reload =
      same (second_check m.writer_lock.serving_ticket) (ground arith) (omega arith) tt
        (ground arith)
  Move-Inv e (read_in f) = same reading (ground arith) tt (no_writer e f) (ground arith)
  Move-Inv e (too_late f) = same undoing (ground arith) tt tt (ground arith)
  Move-Inv e undo = fewer (ground arith) (ground arith)
  Move-Inv e release_read = fewer (ground arith) (ground arith)
  Move-Inv e call_write = same (entering true) (ground arith) tt tt (ground arith)
  Move-Inv e call_try =
      same (trying m.writer_lock.serving_ticket) (ground arith) tt tt (ground arith)
  Move-Inv e (try_busy f) = same idle (ground arith) tt tt (ground arith)
  Move-Inv e (try_open f) = same (entering false) (ground arith) tt tt (ground arith)
  Move-Inv e (take {waits}) = (q ++ i ∷ [], arrive inv i lt waits short e)
  Move-Inv e (pause {waits} {mine} f) =
      same (spinning waits mine) (ground arith) tt tt (ground arith)
  Move-Inv e (enter f) = same draining (ground arith) tt tt (ground arith)
  Move-Inv e (enter_try f) = same testing (ground arith) tt tt (ground arith)
  Move-Inv e (drain f) = same draining (ground arith) tt tt (ground arith)
  Move-Inv e (write_in f) = same writing (ground arith) tt (none_reading inv i lt f) (ground arith)
  Move-Inv e (test_busy f) = same failing (ground arith) tt tt (ground arith)
  Move-Inv e (test_in f) = same writing (ground arith) tt (none_reading inv i lt f) (ground arith)
  Move-Inv e give_up =
      same (leaving m.writer_lock.serving_ticket) (ground arith) refl tt (ground arith)
  Move-Inv e release_write =
      same (leaving m.writer_lock.serving_ticket) (ground arith) refl tt (ground arith)
  Move-Inv e (not_locked f) =
      absurd (owner-locked inv i lt (ground arith) (ground (arith, inv.fresh i, f)))
  Move-Inv e (locked f) = same handing (ground arith) tt tt (ground arith)
  Move-Inv e load =
      same (storing m.writer_lock.serving_ticket) (ground arith) refl tt (ground arith)
  Move-Inv e (store {curr}) = depart inv i curr lt (omega (arith, short)) e

init-Inv : (n : ℕ) → n < 2 ^ 64 → Inv n 0 init.lock init.pc []
init-Inv n few = record {
  line = Line-new n (λ i. none) few (λ i. refl);
  taken = omega arith;
  exact = refl;
  counted = sym (total_none counts n idle refl);
  outside = λ i h. refl;
  exclusive = λ i j e f. ground arith;
  fresh = λ i. tt;
}

pub Reach-Inv :
    {n k : ℕ} {s : System}
    → n < 2 ^ 64
    → k < 2 ^ 64
    → Reach n k s
    → (q : List ℕ) × Inv n k s.lock s.pc q
Reach-Inv {n} few short start = ([], init-Inv n few)
Reach-Inv few short (later {k} r (of i lt move)) =
    let (q, inv) = Reach-Inv few (omega arith) r in Move-Inv inv short i lt refl move
