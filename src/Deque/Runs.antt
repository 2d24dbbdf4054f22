-- ===== src/Deque/Runs.antt =====
-- Sequences of calls on a deque of kernel/include/libs/deque.hpp, against a list.
use noise_v.Base.{
  ℕ, ◌-◌, ◌≡◌, refl, Option, some, List, [], ◌∷◌, ◌++◌, arith, length, ◌>>=◌, take, replicate,
}
use noise_v.MinHeap.{but_last}
use noise_v.Deque.{
  Deque, new_deque, emplace_back, emplace_front, pop_back, pop_front, clear, resize, shrink_to_fit,
}
use noise_v.Deque.Content.{IsDeque, shrink_to_fit-IsDeque, empty_deque_lem}
use noise_v.Deque.Back.{push_back_appends, pop_back_empty}
use noise_v.Deque.Front.{push_front_prepends, pop_front_takes, pop_front_empty}
use noise_v.Deque.Resize.{pop_back-IsDeque, clear-IsDeque, resize-IsDeque}

pub data Call {ℓ} (A : Type ℓ) : Type ℓ where
  append : A → Call A
  prepend : A → Call A
  drop_back : Call A
  drop_front : Call A
  drop_all : Call A
  to_size : ℕ → A → Call A
  fit : Call A

module _ {ℓ} {A : Type ℓ} (blank : A) where
  abbrev pub call : Deque A → Call A → Option (Deque A)
  call d (Call.append x) = emplace_back blank d x
  call d (Call.prepend x) = emplace_front blank d x
  call d Call.drop_back = pop_back d
  call d Call.drop_front = pop_front d
  call d Call.drop_all = clear d
  call d (Call.to_size n x) = resize blank d n x
  call d Call.fit = some (shrink_to_fit d)

  abbrev pub run : Deque A → List (Call A) → Option (Deque A)
  run d [] = some d
  run d (c ∷ cs) = call d c >>= λ d1. run d1 cs

  -- What the call does to a list.
  abbrev pub list_call : List A → Call A → List A
  list_call xs (Call.append x) = xs ++ x ∷ []
  list_call xs (Call.prepend x) = x ∷ xs
  list_call xs Call.drop_back = but_last xs
  list_call [] Call.drop_front = []
  list_call (x ∷ xs) Call.drop_front = xs
  list_call xs Call.drop_all = []
  list_call xs (Call.to_size n x) = take n xs ++ replicate (n - length xs) x
  list_call xs Call.fit = xs

  abbrev pub list_run : List A → List (Call A) → List A
  list_run xs [] = xs
  list_run xs (c ∷ cs) = list_run (list_call xs c) cs

  call-IsDeque :
      (d : Deque A) (xs : List A) (c : Call A)
      → IsDeque d xs
      → (d' : Deque A) × (call d c ≡ some d') × IsDeque d' (list_call xs c)
  unfolding but_last
  call-IsDeque d xs (Call.append x) v = push_back_appends blank d xs x v
  call-IsDeque d xs (Call.prepend x) v = push_front_prepends blank d xs x v
  call-IsDeque d [] Call.drop_back v = (d, pop_back_empty d v, v)
  call-IsDeque d (x ∷ xs) Call.drop_back v = pop_back-IsDeque d x xs v
  call-IsDeque d [] Call.drop_front v = (d, pop_front_empty d v, v)
  call-IsDeque d (x ∷ xs) Call.drop_front v = pop_front_takes d xs x v
  call-IsDeque d xs Call.drop_all v = clear-IsDeque d xs v
  call-IsDeque d xs (Call.to_size n x) v = resize-IsDeque blank d xs n x v
  call-IsDeque d xs Call.fit v = (shrink_to_fit d, refl, shrink_to_fit-IsDeque d xs v)

  run-IsDeque :
      (cs : List (Call A)) (d : Deque A) (xs : List A)
      → IsDeque d xs
      → (d' : Deque A) × (run d cs ≡ some d') × IsDeque d' (list_run xs cs)
  run-IsDeque [] d xs v = (d, refl, v)
  run-IsDeque (c ∷ cs) d xs v =
      let (d1, e, w) = call-IsDeque d xs c v in rw e (run-IsDeque cs d1 (list_call xs c) w)

  -- From a new deque, any sequence of push_back, push_front, pop_back, pop_front, clear, resize and
  -- shrink_to_fit reads and writes no null pointer and nothing past the map, and ends with the
  -- entries, in their order, that the same calls leave in a list.
  pub calls_refine :
      (cs : List (Call A))
      → (d d' : Deque A) × (new_deque blank ≡ some d)
        × (run d cs ≡ some d')
        × IsDeque d' (list_run [] cs)
  unfolding new_deque
  calls_refine cs =
      let (d, e, v) = empty_deque_lem blank 8 (omega arith) in
      let (d', f, w) = run-IsDeque cs d [] v in (d, d', e, f, w)
