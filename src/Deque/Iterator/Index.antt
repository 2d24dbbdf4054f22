-- ===== src/Deque/Iterator/Index.antt =====
-- Access by index to the deque of kernel/include/libs/deque.hpp.
use noise_v.Base.{
  ℕ, ◌+◌, ◌-◌, ◌*◌, ◌/◌, ◌%◌, ◌<◌, ◌≡◌, refl, subst, ap, ◌∙◌, some, List, [], ◌∷◌, ◌++◌, arith,
  length, get_elem?, ◌==◌, inl, inr, Bool-cases, true, false, leb, ltb, length-append,
}
use noise_v.Deque.{Deque}
use noise_v.Deque.Cells.{value, IsReady, IsReady-value, fetch_lem}
use noise_v.Deque.Content.{first, IsDeque, get_elem?-below}
use noise_v.Deque.Iterator.{
  Iterator, make, begin, end, set_node, deref, advance, retreat, get, back,
}

-- The iterator at offset `o` of a block that is there.
abbrev pub at : ℕ → ℕ → Iterator
at b o = record { node = b; cur = o; null = false }

module _ {ℓ} {A : Type ℓ} where
  pub make_lem :
      (d : Deque A) (b o : ℕ) → b < d.map_capacity → IsReady d.map b → make d b o ≡ some (at b o)
  unfolding make
  make_lem d b o p (k, e) =
      let test : leb d.map_capacity b ≡ false = ground arith in rw (test, e) refl

  pub set_node_lem :
      (d : Deque A) (b o : ℕ)
      → b < d.map_capacity
      → IsReady d.map b
      → set_node d b o ≡ some (at b o)
  unfolding set_node
  set_node_lem d b o p (k, e) =
      let test : leb d.map_capacity b ≡ false = ground arith in rw (test, e) refl

  pub deref_lem :
      (d : Deque A) (b o p : ℕ) (v : A)
      → value d.map p ≡ some v
      → p ≡ b * 8 + o
      → b < d.map_capacity
      → o < 8
      → deref d (at b o) ≡ some v
  unfolding deref
  deref_lem d b o p v e q r s = fetch_lem d b o v (subst (λ n. value d.map n ≡ some v) q e) r s

  start-IsReady :
      (d : Deque A) (xs : List A) → IsDeque d xs → 0 < length xs → IsReady d.map d.start_block
  start-IsReady d [] w more = absurd (omega arith)
  start-IsReady d (x ∷ xs) w more =
      IsReady-value d.map (first d + 0) d.start_block x (w.content 0 x refl)
        (omega (arith, w.start_in))

  pub begin_lem :
      (d : Deque A) (xs : List A)
      → IsDeque d xs
      → 0 < length xs
      → begin d ≡ some (at d.start_block d.start_offset)
  unfolding begin
  begin_lem d xs w more =
      make_lem d d.start_block d.start_offset (omega (arith, w.inside, w.span, w.end_in, more))
        (start-IsReady d xs w more)

  -- `operator[]` gives the entry with that number.
  pub get_lem :
      (d : Deque A) (xs : List A) (i : ℕ) (v : A)
      → IsDeque d xs
      → get_elem? xs i ≡ some v
      → get d i ≡ some v
  unfolding get advance
  get_lem d xs i v w e =
      let below = get_elem?-below xs i v e in
      let there = w.content i v e in
      let b = d.start_block + (d.start_offset + i) / 8 in
      let o = (d.start_offset + i) % 8 in
      let inside : b < d.map_capacity = omega (arith, w.inside, w.span, w.end_in, below) in
      let start = begin_lem d xs w (omega (arith, below)) in
      elim (Bool-cases (ltb (d.start_offset + i) 8)) [
        | inl near ↦
            rw (start, near)
              (deref_lem d d.start_block (d.start_offset + i) (first d + i) v there (omega arith)
                (omega (arith, inside)) (ground arith))
        | inr far ↦
            let ready = IsReady-value d.map (first d + i) b v there (omega arith) in
            rw (start, far, set_node_lem d b o inside ready)
              (deref_lem d b o (first d + i) v there (omega arith) inside (omega arith))
      ]

  get_elem?-last : (xs : List A) (x : A) → get_elem? (xs ++ x ∷ []) (length xs) ≡ some x
  get_elem?-last [] x = refl
  get_elem?-last (y ∷ xs) x = get_elem?-last xs x

  -- `back` gives the last entry, also when the last block is full or its first entry is the end.
  pub back_lem : (d : Deque A) (xs : List A) (x : A) → IsDeque d (xs ++ x ∷ []) → back d ≡ some x
  unfolding back end retreat
  back_lem d xs x w =
      let size = length-append xs (x ∷ []) in
      let there = w.content (length xs) x (get_elem?-last xs x) in
      let last = first d + length xs in
      elim (Bool-cases (d.end_offset == 0)) [
        | inl edge ↦
            let zero_end : d.end_offset ≡ 0 = ground arith in
            let b = d.end_block - 1 in
            let ready =
              IsReady-value d.map last b x there (omega (arith, w.span, size, zero_end)) in
            let stop =
              make_lem d d.end_block d.end_offset w.inside (w.end_ready (omega (arith, zero_end)))
              ∙ ap (λ o. some (at d.end_block o)) zero_end in
            let enough : ltb d.end_block 1 ≡ false = ground (arith, w.span, size, w.start_in) in
            rw (stop, enough, set_node_lem d b 7 (omega (arith, w.inside)) ready)
              (deref_lem d b 7 last x there (omega (arith, w.span, size, zero_end, w.start_in))
                (omega (arith, w.inside)) (omega arith))
        | inr within ↦
            let pos : 0 < d.end_offset = ground arith in
            let ready =
              IsReady-value d.map last d.end_block x there
                (omega (arith, w.span, size, w.end_in, pos)) in
            let stop = make_lem d d.end_block d.end_offset w.inside ready in
            let left : leb 1 d.end_offset ≡ true = ground arith in
            let low : ltb (d.end_offset - 1) 8 ≡ true = ground (arith, w.end_in) in
            rw (stop, left, low)
              (deref_lem d d.end_block (d.end_offset - 1) last x there
                (omega (arith, w.span, size, pos)) w.inside (omega (arith, w.end_in, pos)))
      ]
