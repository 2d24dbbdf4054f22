-- ===== src/Vector/Remove.antt =====
-- `remove` of kernel/include/libs/vector.hpp.
use mathlib.Core.List.{append_assoc, append-nil}
use noise_v.Base.{
  ℕ, suc, ◌+◌, ◌-◌, ◌≤◌, ◌≡◌, refl, ap, sym, ◌∙◌, ◌⊎◌, inl, inr, Bool, true, false, List, [], ◌∷◌,
  ◌++◌, arith, ◌==◌, length, length-append, get_or, set, take, take-append, Bool-cases,
}
use noise_v.MinHeap.{remove_if}
use noise_v.Vector.{Vector, outside, size, find_first, compact, remove}

module _ {ℓ} {A : Type ℓ} (equals : A → A → Bool) (blank value : A) where
  abbrev is_value : A → Bool
  is_value item = equals item value

  get_or-middle : (xs ys : List A) (x : A) → get_or (xs ++ x ∷ ys) (length xs) blank ≡ x
  get_or-middle [] ys x = refl
  get_or-middle (y ∷ xs) ys x = get_or-middle xs ys x

  set-middle : (xs ys : List A) (x z : A) → set (xs ++ x ∷ ys) (length xs) z ≡ xs ++ z ∷ ys
  set-middle [] ys x z = refl
  set-middle (y ∷ xs) ys x z = ap (λ l. y ∷ l) (set-middle xs ys x z)

  -- The gap, moved by one place over `r`.
  shifted_gap :
      (kept : List A) (gap : List A) (r : A) (rest : List A)
      → (g' : A) × (gap' : List A) × (kept ++ r ∷ (gap ++ r ∷ rest)
          ≡ kept ++ r ∷ [] ++ g' ∷ gap' ++ rest)
        × (length gap' ≡ length gap)
  shifted_gap kept [] r rest = (r, [], simp append_assoc, refl)
  shifted_gap kept (h ∷ gap) r rest =
      (h, gap ++ r ∷ [], simp append_assoc, omega (arith, length-append gap (r ∷ [])))

  -- The second loop keeps what is before the gap `g ∷ gap`, moves what `value` does not equal up to it,
  -- and stops behind that.
  compact_lem :
      (kept : List A) (g : A) (gap rest d : List A) (read write : ℕ)
      → d ≡ kept ++ g ∷ gap ++ rest
      → read ≡ length kept + suc (length gap)
      → write ≡ length kept
      → let (write', d') = compact equals blank (outside value) (length rest) d read write in
        (take write' d' ≡ kept ++ remove_if is_value rest)
        × (write' ≡ length kept + length (remove_if is_value rest))
  unfolding compact remove_if
  compact_lem kept g gap [] d read write ed er ew = (
    rw (ew, ed, append-nil (kept ++ g ∷ gap), append-nil kept)
        (take-append kept (g ∷ gap) (length kept) refl),
    omega (arith, ew),
  )
  compact_lem kept g gap (r ∷ rest) d read write ed er ew =
      let size_kept : length (kept ++ g ∷ gap) ≡ read =
        omega (arith, length-append kept (g ∷ gap), er) in
      let item : get_or d read blank ≡ r =
        ap (λ l. get_or l read blank) ed
        ∙ ap (λ i. get_or (kept ++ g ∷ gap ++ r ∷ rest) i blank) (sym size_kept)
        ∙ get_or-middle (kept ++ g ∷ gap) rest r in
      elim (Bool-cases (is_value r)) [
        | inl drop ↦
            rw (item, drop)
              (compact_lem kept g (gap ++ r ∷ []) rest d (read + 1) write (ed ∙ simp append_assoc)
                (omega (arith, er, length-append gap (r ∷ []))) ew)
        | inr keep ↦
            let (g', gap', moved, same) = shifted_gap kept gap r rest in
            let placed : set d write r ≡ kept ++ r ∷ (gap ++ r ∷ rest) =
              ap (λ l. set l write r) (ed ∙ append_assoc kept (g ∷ gap) (r ∷ rest))
              ∙ ap (λ i. set (kept ++ g ∷ (gap ++ r ∷ rest)) i r) ew
              ∙ set-middle kept (gap ++ r ∷ rest) g r in
            let one_more = length-append kept (r ∷ []) in
            let (taken, count) =
              compact_lem (kept ++ r ∷ []) g' gap' rest (set d write r) (read + 1) (write + 1)
                (placed ∙ moved) (omega (arith, er, one_more, same))
                (omega (arith, ew, one_more)) in
            rw (item, keep, item)
              (
                rw (append_assoc kept (r ∷ []) (remove_if is_value rest)) at taken,
                omega (arith, count, one_more),
              )
      ]

  remove_if_shorter : (d : List A) → length (remove_if is_value d) ≤ length d
  unfolding remove_if
  remove_if_shorter [] = omega arith
  remove_if_shorter (x ∷ d) = ground (arith, remove_if_shorter d)

  -- The first loop: what stands before its place does not equal `value`, what stands there does.
  find_first_lem :
      (d : List A)
      → ((find_first is_value d ≡ length d) × (remove_if is_value d ≡ d))
        ⊎ ((kept : List A) × (g : A) × (rest : List A) × (d ≡ kept ++ g ∷ rest)
            × (find_first is_value d ≡ length kept)
            × (remove_if is_value d ≡ kept ++ remove_if is_value rest))
  unfolding find_first remove_if
  find_first_lem [] = inl (refl, refl)
  find_first_lem (x ∷ d) = elim (Bool-cases (is_value x)) [
    | inl hit ↦ inr ([], x, d, refl, rw hit refl, rw hit refl)
    | inr miss ↦ elim (find_first_lem d) [
      | inl (e, f) ↦ inl (rw miss (omega (arith, e)), rw miss (ap (λ l. x ∷ l) f))
      | inr (kept, g, rest, e, f, h) ↦ inr (
        x ∷ kept,
        g,
        rest,
        ap (λ l. x ∷ l) e,
        rw miss (omega (arith, f)),
        rw miss (ap (λ l. x ∷ l) h),
      )
    ]
  ]

  -- `remove` of a value that is not itself an entry of the vector leaves, in their order and in the same
  -- memory, the entries that do not equal the value, and returns how many the vector lost.
  pub remove_filters :
      (v : Vector A)
      → let (count, v') = remove equals blank (outside value) v in
        (v'.items ≡ remove_if (λ item. equals item value) v.items)
        × (v'.capacity ≡ v.capacity)
        × (count + size v' ≡ size v)
  unfolding remove
  remove_filters v = elim (find_first_lem v.items) [
    | inl (e, f) ↦
        let test : (find_first is_value v.items == size v) ≡ true = ground (arith, e) in
        rw test (sym f, refl, omega arith)
    | inr (kept, g, rest, e, f, h) ↦
        let whole : size v ≡ length kept + suc (length rest) =
          ap length e ∙ length-append kept (g ∷ rest) in
        let test : (find_first is_value v.items == size v) ≡ false = ground (arith, f, whole) in
        let rounds : size v - length kept - 1 ≡ length rest = omega (arith, whole) in
        let (taken, write) =
          compact_lem kept g [] rest v.items (length kept + 1) (length kept) (e ∙ simp append_assoc)
            (omega arith) refl in
        rw (test, f, rounds, h)
          (
            taken,
            refl,
            omega (
              arith,
              write,
              ap length taken,
              whole,
              length-append kept (remove_if is_value rest),
              remove_if_shorter rest,
            ),
          )
  ]
