-- ===== src/MinHeap/Erase.antt =====
-- The erasures of the heap of kernel/include/libs/min_heap.hpp.
use mathlib.Core.List.{Perm}
use mathlib.Core.List.Perm
use noise_v.Base.{
  ℕ, zero, suc, ◌+◌, ◌-◌, ◌/◌, ◌≤◌, ◌<◌, ◌≡◌, refl, ap, Bool, false, ◌&&◌, inl, inr, List, [], ◌∷◌,
  arith, ltb, leb, ◌==◌, length, get_or, set, get_or-set, length-set, Bool-cases,
}
use noise_v.Base.Perms.{get_or-default, set-perm, concat-perm}
use noise_v.MinHeap.{
  from_range, parent, arity, less, but_last, remove_if, sift_down, erase, rebuild, erase_if,
}
use noise_v.MinHeap.Order.{IsHeap, IsHeapFrom}
use noise_v.MinHeap.Up.{UpInv, sift_up_restores}
use noise_v.MinHeap.Down.{DownInv, sift_down_restores, length-sift_down}
use noise_v.MinHeap.Ops.{
  but_last-concat, length-but_last, get_or-but_last, set-DownInv, IsHeap-but_last,
}

module _ {ℓ} {A : Type ℓ} (key : A → ℕ) where
  -- Writing a value that is too small for the entry above `i`.
  set-UpInv :
      (d : List A) (i : ℕ) (v blank : A)
      → IsHeap key blank d
      → i < length d
      → 0 < i
      → key v < key (get_or d (parent i) blank)
      → UpInv key (set d i v) i v
  set-UpInv d i v blank h inside pos below =
      let size = length-set d i v in
      let read = λ (c : ℕ). get_or-set d i c v v inside in
      let plain = λ (c : ℕ). get_or-default d c blank v in
      let own = h i pos inside (omega arith) in
      record {
        inside = omega (arith, size, inside);
        edges = λ c p q ne. ground (
          arith,
          size,
          inside,
          own,
          below,
          read c,
          read (parent c),
          plain c,
          plain (parent c),
          h c,
          ap (λ j. get_or d j blank),
        );
        bridged = λ c p q e pos' _. ground (
          arith,
          size,
          inside,
          own,
          read c,
          read (parent i),
          plain c,
          plain (parent i),
          h c,
          ap (λ j. get_or d j blank) e,
        );
      }

  but_last-perm :
      (x : A) (xs : List A) (blank : A)
      → Perm (get_or (x ∷ xs) (length xs) blank ∷ but_last (x ∷ xs)) (x ∷ xs)
  but_last-perm x xs blank =
      rw (but_last-concat x xs blank) at
        (Perm.symm (concat-perm (but_last (x ∷ xs)) (get_or (x ∷ xs) (length xs) blank)))

  -- `erase` of an entry of a heap leaves a heap of the other entries.
  pub erase_lem :
      (x : A) (xs : List A) (index : ℕ) (blank : A)
      → IsHeap key blank (x ∷ xs)
      → index < suc (length xs)
      → let d = erase key (x ∷ xs) index blank in
        IsHeap key blank d × Perm (get_or (x ∷ xs) index blank ∷ d) (x ∷ xs)
  unfolding erase
  erase_lem x xs index blank h inside =
      let m_data = x ∷ xs in
      let last = get_or m_data (length m_data - 1) blank in
      let d = but_last m_data in
      let d' = set d index last in
      let size = length-but_last x xs in
      let heap_d = IsHeap-but_last key x xs blank h in
      let not_out : leb (length m_data) index ≡ false = ground arith in
      elim (Bool-cases (index == length d)) [
        | inl e ↦
            let at_end : index ≡ length xs = ground (arith, size) in
            rw (not_out, e, at_end) (heap_d, but_last-perm x xs blank)
        | inr e ↦
            let within : index < length d = ground (arith, size) in
            let here : get_or d' index blank ≡ last =
              ground (arith, get_or-set d index index last blank within) in
            let above : 0 < index → get_or d' (parent index) blank ≡ get_or d (parent index) blank =
              λ p. ground (arith, get_or-set d index (parent index) last blank within) in
            let same = get_or-but_last x xs index blank (omega (arith, size)) in
            let sized : length m_data - 1 ≡ length xs = omega arith in
            let whole : Perm (last ∷ d) m_data = rw sized (but_last-perm x xs blank) in
            let moved = rw (same) at (Perm.trans (set-perm d index last blank within) whole) in
            elim (Bool-cases
              (ltb 0 index && less key (get_or d' index blank) (get_or d' (parent index) blank))) [
                | inl up ↦
                    let pos : 0 < index = ground (arith) in
                    let small : key last < key (get_or d (parent index) blank) =
                      ground (arith, here, above pos) in
                    let inv = set-UpInv d index last blank heap_d within pos small in
                    let (heap, perm) = sift_up_restores key d' index blank (rw here inv) in
                    rw (not_out, e, up)
                      (heap, Perm.trans (Perm.cons (get_or m_data index blank) perm) moved)
                | inr down ↦
                    let inv =
                      set-DownInv key d index last blank heap_d within
                        (λ p. ground (arith, here, above p)) in
                    let (heap, perm) = sift_down_restores key 0 d' index blank (rw here inv) in
                    rw (not_out, e, down)
                      (heap, Perm.trans (Perm.cons (get_or m_data index blank) perm) moved)
              ]
      ]

  rebuild_restores :
      (i : ℕ) (d : List A) (blank : A)
      → i ≤ length d
      → IsHeapFrom key i blank d
      → IsHeap key blank (rebuild key i d blank) × Perm (rebuild key i d blank) d
  unfolding rebuild
  rebuild_restores zero d blank le h = (h, Perm.refl d)
  rebuild_restores (suc i) d blank le h =
      let t = get_or d i blank in
      let plain = λ (c : ℕ). get_or-default d c blank t in
      let inv : DownInv key i d i t = record {
        inside = omega arith;
        from = omega arith;
        edges = λ c p q r ne.
            ground (arith, plain c, plain (parent c), h c, le, ap (λ j. get_or d j blank));
        bridged = λ c p q e pos r. absurd (omega arith);
      } in
      let (heap, perm) = sift_down_restores key i d i blank inv in
      let size = length-sift_down key d i blank in
      let (heap', perm') =
        rebuild_restores i (sift_down key d i blank) blank (omega (arith, size)) heap in
      (heap', Perm.trans perm' perm)

  length-remove_if : (pred : A → Bool) (xs : List A) → length (remove_if pred xs) ≤ length xs
  unfolding remove_if
  length-remove_if pred [] = omega arith
  length-remove_if pred (x ∷ xs) = ground (arith, length-remove_if pred xs)

  remove_if-all :
      (pred : A → Bool) (xs : List A)
      → length xs ≡ length (remove_if pred xs)
      → remove_if pred xs ≡ xs
  unfolding remove_if
  remove_if-all pred [] e = refl
  remove_if-all pred (x ∷ xs) e = elim (Bool-cases (pred x)) [
    | inl p ↦ absurd (omega (arith, rw p at e, length-remove_if pred xs))
    | inr p ↦ rw p (ap (λ l. x ∷ l) (remove_if-all pred xs (omega (arith, rw p at e))))
  ]

  length-rebuild : (i : ℕ) (d : List A) (blank : A) → length (rebuild key i d blank) ≡ length d
  unfolding rebuild
  length-rebuild zero d blank = refl
  length-rebuild (suc i) d blank =
      omega
        (arith, length-rebuild i (sift_down key d i blank) blank, length-sift_down key d i blank)

  -- `erase_if` of a heap leaves a heap of the entries that `pred` rejects, and counts the others.
  pub erase_if_lem :
      (pred : A → Bool) (m_data : List A) (blank : A)
      → IsHeap key blank m_data
      → let (count, d) = erase_if key pred m_data blank in
        IsHeap key blank d × Perm d (remove_if pred m_data) × (count + length d ≡ length m_data)
  unfolding erase_if
  erase_if_lem pred m_data blank h =
      let d = remove_if pred m_data in
      let n = (length d - 2) / arity + 1 in
      let fewer = length-remove_if pred m_data in
      let whole : length m_data - length d + length d ≡ length m_data = omega (arith, fewer) in
      elim (Bool-cases (ltb 0 (length m_data - length d) && ltb 1 (length d))) [
        | inl go ↦
            let more : 1 < length d = ground arith in
            let (heap, perm) =
              rebuild_restores n d blank (omega arith) (λ c p q r. absurd (omega arith)) in
            rw go (heap, perm, omega (arith, fewer, length-rebuild n d blank))
        | inr stop ↦ rw stop (
          elim (Bool-cases (ltb 1 (length d))) [
            | inl more ↦
                let none_left : length m_data ≡ length d = ground (arith, fewer) in
                rw (remove_if-all pred m_data none_left) h
            | inr few ↦ λ c p q r. absurd (ground arith)
          ],
          Perm.refl d,
          whole,
        )
      ]

  -- The constructor from a range makes a heap of the range.
  pub from_range_lem :
      (m_data : List A) (blank : A)
      → IsHeap key blank (from_range key m_data blank) × Perm (from_range key m_data blank) m_data
  unfolding from_range
  from_range_lem m_data blank = elim (Bool-cases (ltb 1 (length m_data))) [
    | inl go ↦
        let more : 1 < length m_data = ground arith in
        rw go (
          rebuild_restores ((length m_data - 2) / arity + 1) m_data blank (omega arith)
            (λ c p q r. absurd (omega arith)))
    | inr stop ↦ rw stop ((λ c p q r. absurd (ground arith)), Perm.refl m_data)
  ]
