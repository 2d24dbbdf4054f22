-- ===== src/Deque/Resize.antt =====
-- `clear` and `resize` of kernel/include/libs/deque.hpp.
use mathlib.Core.List.{append_assoc, append-nil}
use noise_v.Base.{
  ℕ, zero, suc, ◌-◌, ◌≡◌, refl, subst, sym, ap, some, List, [], ◌∷◌, ◌++◌, arith, length, ◌==◌, inl,
  inr, Bool-cases, ltb, take, take-all, replicate, get_or,
}
use noise_v.MinHeap.{but_last}
use noise_v.MinHeap.Ops.{but_last-concat, length-but_last}
use noise_v.Deque.{Deque, pop_back, pop_many, push_many, clear, resize}
use noise_v.Deque.Content.{IsDeque}
use noise_v.Deque.Back.{push_back_appends, pop_back_takes}

module _ {ℓ} {A : Type ℓ} where
  -- `pop_back` succeeds on a deque that is not empty and leaves all but the last entry.
  pub pop_back-IsDeque :
      (d : Deque A) (x : A) (xs : List A)
      → IsDeque d (x ∷ xs)
      → (d' : Deque A) × (pop_back d ≡ some d') × IsDeque d' (but_last (x ∷ xs))
  pop_back-IsDeque d x xs v =
      pop_back_takes d (but_last (x ∷ xs)) (get_or (x ∷ xs) (length xs) x)
        (rw (but_last-concat x xs x) v)

  but_last-append :
      (xs : List A) (y : A) (ys : List A) → but_last (xs ++ y ∷ ys) ≡ xs ++ but_last (y ∷ ys)
  unfolding but_last
  but_last-append [] y ys = refl
  but_last-append (x ∷ []) y ys = refl
  but_last-append (x ∷ z ∷ xs) y ys = ap (λ l. x ∷ l) (but_last-append (z ∷ xs) y ys)

  pop_back-append :
      (d : Deque A) (xs : List A) (y : A) (ys : List A)
      → IsDeque d (xs ++ y ∷ ys)
      → (d' : Deque A) × (pop_back d ≡ some d') × IsDeque d' (xs ++ but_last (y ∷ ys))
  pop_back-append d [] y ys v = pop_back-IsDeque d y ys v
  pop_back-append d (x ∷ xs) y ys v =
      rw (but_last-append (x ∷ xs) y ys) at (pop_back-IsDeque d x (xs ++ y ∷ ys) v)

  pop_many-IsDeque :
      (n : ℕ) (d : Deque A) (xs ys : List A)
      → IsDeque d (xs ++ ys)
      → length ys ≡ n
      → (d' : Deque A) × (pop_many n d ≡ some d') × IsDeque d' xs
  unfolding pop_many
  pop_many-IsDeque zero d xs [] v e = (d, refl, rw (append-nil xs) at v)
  pop_many-IsDeque zero d xs (y ∷ ys) v e = absurd (omega arith)
  pop_many-IsDeque (suc n) d xs [] v e = absurd (omega arith)
  pop_many-IsDeque (suc n) d xs (y ∷ ys) v e =
      let (d1, f, w) = pop_back-append d xs y ys v in
      rw f (pop_many-IsDeque n d1 xs (but_last (y ∷ ys)) w (omega (arith, length-but_last y ys)))

  push_many-IsDeque :
      (blank : A) (n : ℕ) (d : Deque A) (xs : List A) (v : A)
      → IsDeque d xs
      → (d' : Deque A) × (push_many blank n d v ≡ some d') × IsDeque d' (xs ++ replicate n v)
  unfolding push_many
  push_many-IsDeque blank zero d xs v w = (d, refl, rw (append-nil xs) w)
  push_many-IsDeque blank (suc n) d xs v w =
      let (d1, f, w1) = push_back_appends blank d xs v w in
      rw f (
        rw (append_assoc xs (v ∷ []) (replicate n v)) at
          (push_many-IsDeque blank n d1 (xs ++ v ∷ []) v w1))

  -- `clear` succeeds and leaves no entry.
  pub clear-IsDeque :
      (d : Deque A) (xs : List A)
      → IsDeque d xs
      → (d' : Deque A) × (clear d ≡ some d') × IsDeque d' []
  unfolding clear
  clear-IsDeque d xs v = pop_many-IsDeque d.element_count d [] xs v (sym v.counted)

  take-split :
      (n : ℕ) (xs : List A) → (ys : List A) × (xs ≡ take n xs ++ ys) × (length ys ≡ length xs - n)
  take-split zero xs = (xs, refl, omega arith)
  take-split (suc n) [] = ([], refl, omega arith)
  take-split (suc n) (x ∷ xs) =
      let (ys, e, f) = take-split n xs in (ys, ap (λ l. x ∷ l) e, omega (arith, f))

  -- `resize` succeeds and leaves the first `new_size` entries, followed by copies of `value` when
  -- there are fewer.
  pub resize-IsDeque :
      (blank : A) (d : Deque A) (xs : List A) (new_size : ℕ) (value : A)
      → IsDeque d xs
      → (d' : Deque A) × (resize blank d new_size value ≡ some d')
        × IsDeque d' (take new_size xs ++ replicate (new_size - length xs) value)
  unfolding resize
  resize-IsDeque blank d xs new_size value v = elim (Bool-cases (new_size == d.element_count)) [
    | inl same ↦
        let whole = take-all new_size xs (ground (arith, v.counted)) in
        let none_new : new_size - length xs ≡ 0 = ground (arith, v.counted) in
        (d, rw same refl, rw (whole, none_new, append-nil xs) v)
    | inr other ↦ elim (Bool-cases (ltb new_size d.element_count)) [
      | inl fewer ↦
          let none_new : new_size - length xs ≡ 0 = ground (arith, v.counted) in
          let (ys, e, f) = take-split new_size xs in
          rw (other, fewer, none_new, append-nil (take new_size xs))
            (pop_many-IsDeque (d.element_count - new_size) d (take new_size xs) ys
              (subst (IsDeque d) e v) (omega (arith, f, v.counted)))
      | inr more ↦
          let whole = take-all new_size xs (ground (arith, v.counted)) in
          let new : new_size - length xs ≡ new_size - d.element_count = omega (arith, v.counted) in
          rw (other, more, whole, new)
            (push_many-IsDeque blank (new_size - d.element_count) d xs value v)
    ]
  ]
