-- ===== src/Locks/Queue.antt =====
-- The threads that hold tickets of the lock of kernel/include/libs/spinlock.hpp, as a queue.
use noise_v.Base.{
  ℕ, zero, suc, ◌+◌, ◌%◌, ◌^◌, ◌<◌, ◌≡◌, ◌≢◌, refl, sym, ap, ◌∙◌, ◌⊎◌, inl, inr, Option, none, some,
  List, [], ◌∷◌, ◌++◌, arith, ◌==◌, if◌then◌else◌, length, get_elem?, All, Distinct, length-append,
  Bool-cases,
}
use noise_v.Base.Counts.{pigeonhole, All-append, Distinct-append}
use noise_v.Locks.{SpinLock, new_lock, take_ticket, hand_off}

abbrev pub update {ℓ} : {A : Type ℓ} → (ℕ → A) → ℕ → A → ℕ → A
update f i a j = if i == j then a else f j

-- The threads with tickets in the order of the tickets, the one that is served first.
pub record Queued (l : SpinLock) (q : List ℕ) (ticket : ℕ → Option ℕ) : Type 0 where
  pub serving_small : l.serving_ticket < 2 ^ 64
  pub few : length q < 2 ^ 64
  pub handed : l.next_ticket ≡ (l.serving_ticket + length q) % 2 ^ 64
  pub holds : (k i : ℕ) → get_elem? q k ≡ some i → ticket i ≡ some ((l.serving_ticket + k) % 2 ^ 64)
  pub queued : (i t : ℕ) → ticket i ≡ some t → (k : ℕ) × (get_elem? q k ≡ some i)

get_elem?-inside : (q : List ℕ) (k i : ℕ) → get_elem? q k ≡ some i → k < length q
get_elem?-inside [] k i e = ground arith
get_elem?-inside (x ∷ q) zero i e = omega arith
get_elem?-inside (x ∷ q) (suc k) i e = omega (arith, get_elem?-inside q k i e)

get_elem?-end :
    (q : List ℕ) (k i j : ℕ)
    → get_elem? (q ++ j ∷ []) k ≡ some i
    → (get_elem? q k ≡ some i) ⊎ ((k ≡ length q) × (i ≡ j))
get_elem?-end [] zero i j e = inr (refl, ground arith)
get_elem?-end [] (suc k) i j e = ground arith
get_elem?-end (x ∷ q) zero i j e = inl e
get_elem?-end (x ∷ q) (suc k) i j e = ground (arith, get_elem?-end q k i j e)

get_elem?-old :
    (q : List ℕ) (k i j : ℕ) → get_elem? q k ≡ some i → get_elem? (q ++ j ∷ []) k ≡ some i
get_elem?-old [] k i j e = ground arith
get_elem?-old (x ∷ q) zero i j e = e
get_elem?-old (x ∷ q) (suc k) i j e = get_elem?-old q k i j e

get_elem?-last : (q : List ℕ) (j : ℕ) → get_elem? (q ++ j ∷ []) (length q) ≡ some j
get_elem?-last [] j = refl
get_elem?-last (x ∷ q) j = get_elem?-last q j

get_elem?-rest :
    (q : List ℕ) (k i j : ℕ)
    → get_elem? (i ∷ q) k ≡ some j
    → j ≢ i
    → (x : ℕ) × (get_elem? q x ≡ some j)
get_elem?-rest q zero i j e ne = absurd (ne (ground arith))
get_elem?-rest q (suc k) i j e ne = (k, e)

-- A thread without a ticket takes one and joins the end.
take_ticket-Queued :
    (l : SpinLock) (q : List ℕ) (ticket ticket' : ℕ → Option ℕ) (i : ℕ)
    → Queued l q ticket
    → ticket i ≡ none
    → ((j : ℕ) → ticket' j ≡ update ticket i (some l.next_ticket) j)
    → length q + 1 < 2 ^ 64
    → Queued (take_ticket l) (q ++ i ∷ []) ticket'
unfolding take_ticket
take_ticket-Queued l q ticket ticket' i v free new room = record {
  serving_small = v.serving_small;
  few = omega (arith, length-append q (i ∷ []), room);
  handed = omega (arith, length-append q (i ∷ []), v.handed);
  holds = λ k j e. ground (arith, get_elem?-end q k j i e, v.holds k j, new j, v.handed);
  queued = λ j t e. elim (Bool-cases (i == j)) [
    | inl same ↦ (length q, ground (arith, get_elem?-last q i))
    | inr other ↦ let (k, f) = v.queued j t (ground (arith, new j)) in (k, get_elem?-old q k j i f)
  ];
}

-- The served thread hands off and leaves the front.
hand_off-Queued :
    (l : SpinLock) (q : List ℕ) (ticket ticket' : ℕ → Option ℕ) (i : ℕ)
    → Queued l (i ∷ q) ticket
    → ((j : ℕ) → ticket' j ≡ update ticket i none j)
    → Queued (hand_off l l.serving_ticket) q ticket'
unfolding hand_off
hand_off-Queued l q ticket ticket' i v new = record {
  serving_small = omega arith;
  few = omega (arith, v.few);
  handed = omega (arith, v.handed);
  holds = λ k j e.
      ground (arith, v.holds (suc k) j e, v.holds 0 i refl, get_elem?-inside q k j e, v.few, new j);
  queued = λ j t e.
      let other : j ≢ i = λ same. ground (arith, new j) in
      let (k, f) = v.queued j t (ground (arith, new j)) in get_elem?-rest q k i j f other;
}

-- Who stands nowhere is not in the list.
absent : (q : List ℕ) (i : ℕ) → ((k : ℕ) → get_elem? q k ≢ some i) → All (λ j. j ≢ i) q
absent [] i f = tt
absent (x ∷ q) i f = ((λ e. f 0 (ap some e)), absent q i (λ k. f (suc k)))

-- Whoever holds the served ticket is the front.
pub served-front :
    (l : SpinLock) (q : List ℕ) (ticket : ℕ → Option ℕ) (i : ℕ)
    → Queued l q ticket
    → ticket i ≡ some l.serving_ticket
    → (rest : List ℕ) × (q ≡ i ∷ rest)
served-front l q ticket i v e =
    let (k, f) = v.queued i l.serving_ticket e in
    let first : k ≡ 0 =
      ground (arith, v.holds k i f, get_elem?-inside q k i f, v.few, v.serving_small) in
    front_of q i (rw first at f)
  where
    front_of : (q : List ℕ) (i : ℕ) → get_elem? q 0 ≡ some i → (rest : List ℕ) × (q ≡ i ∷ rest)
    front_of [] i e = ground arith
    front_of (x ∷ q) i e = (q, ap (λ y. y ∷ q) (ground arith))

-- The lock is open exactly while nobody holds a ticket.
pub open_iff :
    (l : SpinLock) (q : List ℕ) (ticket : ℕ → Option ℕ)
    → Queued l q ticket
    → ((l.serving_ticket ≡ l.next_ticket) → (q ≡ []))
      × ((q ≡ []) → (l.serving_ticket ≡ l.next_ticket))
open_iff l q ticket v = (
  (λ e. none_of q (omega (arith, v.handed, v.few, v.serving_small))),
  λ e. omega (arith, v.handed, v.serving_small, ap length e),
)
  where
    none_of : (q : List ℕ) → length q ≡ 0 → q ≡ []
    none_of [] e = refl
    none_of (x ∷ q) e = absurd (omega arith)

-- With fewer than 2^64 processors below `n`, all of them different.
pub record Line (n : ℕ) (l : SpinLock) (q : List ℕ) (ticket : ℕ → Option ℕ) : Type 0 where
  pub few : n < 2 ^ 64
  pub queue : Queued l q ticket
  pub different : Distinct q
  pub below : All (λ i. i < n) q

pub Line-same :
    (n : ℕ) (l : SpinLock) (q : List ℕ) (ticket ticket' : ℕ → Option ℕ)
    → Line n l q ticket
    → ((j : ℕ) → ticket' j ≡ ticket j)
    → Line n l q ticket'
Line-same n l q ticket ticket' v same = record {
  few = v.few;
  queue = record {
    serving_small = v.queue.serving_small;
    few = v.queue.few;
    handed = v.queue.handed;
    holds = λ k j e. same j ∙ v.queue.holds k j e;
    queued = λ j t e. v.queue.queued j t (sym (same j) ∙ e);
  };
  different = v.different;
  below = v.below;
}

pub Line-join :
    (n : ℕ) (l : SpinLock) (q : List ℕ) (ticket ticket' : ℕ → Option ℕ) (i : ℕ)
    → Line n l q ticket
    → i < n
    → ticket i ≡ none
    → ((j : ℕ) → ticket' j ≡ update ticket i (some l.next_ticket) j)
    → Line n (take_ticket l) (q ++ i ∷ []) ticket'
Line-join n l q ticket ticket' i v lt e new =
    let out = absent q i (λ k f. ground (arith, v.queue.holds k i f, e)) in
    let room = pigeonhole n (i ∷ q) (out, v.different) (lt, v.below) in
    record {
      few = v.few;
      queue = take_ticket-Queued l q ticket ticket' i v.queue e new (omega (arith, room, v.few));
      different = Distinct-append q i v.different out;
      below = All-append (λ j. j < n) q (i ∷ []) v.below (lt, tt);
    }

pub Line-leave :
    (n : ℕ) (l : SpinLock) (q : List ℕ) (ticket ticket' : ℕ → Option ℕ) (i : ℕ)
    → Line n l (i ∷ q) ticket
    → ((j : ℕ) → ticket' j ≡ update ticket i none j)
    → Line n (hand_off l l.serving_ticket) q ticket'
Line-leave n l q ticket ticket' i v new = record {
  few = v.few;
  queue = hand_off-Queued l q ticket ticket' i v.queue new;
  different = v.different.1;
  below = v.below.1;
}

pub Line-new :
    (n : ℕ) (ticket : ℕ → Option ℕ)
    → n < 2 ^ 64
    → ((i : ℕ) → ticket i ≡ none)
    → Line n new_lock [] ticket
Line-new n ticket few nobody = record {
  few = few;
  queue = record {
    serving_small = omega arith;
    few = omega arith;
    handed = refl;
    holds = λ k i e. ground arith;
    queued = λ i t e. ground (arith, nobody i);
  };
  different = tt;
  below = tt;
}
