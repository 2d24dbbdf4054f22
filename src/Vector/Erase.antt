-- ===== src/Vector/Erase.antt =====
-- The erasures of kernel/include/libs/vector.hpp.
use mathlib.Core.List.{append-nil}
use noise_v.Base.{
  ℕ, zero, suc, ◌+◌, ◌-◌, ◌≤◌, ◌<◌, ◌≡◌, refl, ap, inl, inr, List, [], ◌∷◌, ◌++◌, arith, ltb, ◌==◌,
  length, length-append, take, drop, take-all, take-append, length-take, length-drop, Bool-cases,
}
use noise_v.Vector.{Vector, size, memmove, erase, erase_range}

module _ {ℓ} {A : Type ℓ} where
  -- The tail from `j` on moved to `i`, and the end cut off.
  move_tail :
      (d : List A) (i j : ℕ)
      → i ≤ j
      → j ≤ length d
      → take (length d - (j - i)) (memmove d i j (length d - j)) ≡ take i d ++ drop j d
  unfolding memmove
  move_tail d i j p q =
      let tail = take-all (length d - j) (drop j d) (omega (arith, length-drop j d)) in
      let rest = drop (i + (length d - j)) d in
      let sized : length (take i d ++ drop j d) ≡ length d - (j - i) =
        omega
          (arith, length-append (take i d) (drop j d), length-take i d, length-drop j d, p, q) in
      rw tail (take-append (take i d ++ drop j d) rest (length d - (j - i)) sized)

  drop-all : (n : ℕ) (d : List A) → length d ≤ n → drop n d ≡ []
  drop-all zero [] h = refl
  drop-all zero (x ∷ d) h = absurd (omega arith)
  drop-all (suc n) [] h = refl
  drop-all (suc n) (x ∷ d) h = drop-all n d (omega arith)

  take-drop : (n : ℕ) (d : List A) → d ≡ take n d ++ drop n d
  take-drop zero d = refl
  take-drop (suc n) [] = refl
  take-drop (suc n) (x ∷ d) = ap (λ l. x ∷ l) (take-drop n d)

  -- The end cut off alone.
  cut_tail : (d : List A) (i : ℕ) → i ≤ length d → take i d ≡ take i d ++ drop (length d) d
  cut_tail d i p = rw (drop-all (length d) d (omega arith), append-nil (take i d)) refl

  -- `erase` of an entry leaves the others in their order, in the same memory.
  pub erase_at_lem :
      (v : Vector A) (p : ℕ)
      → p < size v
      → ((erase v p).items ≡ take p v.items ++ drop (p + 1) v.items)
        × ((erase v p).capacity ≡ v.capacity)
  unfolding erase
  erase_at_lem v p inside = elim (Bool-cases (p + 1 == size v)) [
    | inl last ↦
        let at_end : size v ≡ p + 1 = ground arith in
        let cut : size v - 1 ≡ p = omega (arith, at_end) in
        rw (last, cut) (rw at_end at (cut_tail v.items p (omega (arith, inside))), refl)
    | inr inner ↦
        let gap : size v - (p + 1 - p) ≡ size v - 1 = omega arith in
        let tail : size v - (p + 1) ≡ size v - p - 1 = omega arith in
        rw inner (
          rw (gap, tail) at (move_tail v.items p (p + 1) (omega arith) (omega (arith, inside))),
          refl,
        )
  ]

  -- `erase` of the entries from `first` to before `last`, where these are in order and in the vector,
  -- leaves the others in their order, in the same memory.
  pub erase_range_lem :
      (v : Vector A) (first last : ℕ)
      → first ≤ last
      → last ≤ size v
      → ((erase_range v first last).items ≡ take first v.items ++ drop last v.items)
        × ((erase_range v first last).capacity ≡ v.capacity)
  unfolding erase_range
  erase_range_lem v first last p q = elim (Bool-cases (first == last)) [
    | inl none_out ↦
        let same : last ≡ first = ground arith in
        rw (none_out, same) (take-drop first v.items, refl)
    | inr some_out ↦ elim (Bool-cases (ltb 0 (size v - last))) [
      | inl tail ↦ rw (some_out, tail) (move_tail v.items first last p q, refl)
      | inr no_tail ↦
          let at_end : last ≡ size v = ground arith in
          let cut : size v - (last - first) ≡ first = omega (arith, at_end, p) in
          rw (some_out, no_tail, cut, at_end) (cut_tail v.items first (omega (arith, p, q)), refl)
    ]
  ]
