-- ===== src/Deque/Iterator/Traversal.antt =====
-- Iteration over the deque of kernel/include/libs/deque.hpp.
use mathlib.Core.List.{append_assoc, append-nil}
use native.Mathlib.Nat.{mul-le-mul_right, eq_of_mul-eq-mul_right}
use noise_v.Base.{
  ◌≢◌, ◌≤◌, ◌⊎◌, ℕ, zero, suc, ◌+◌, ◌-◌, ◌*◌, ◌<◌, ◌≡◌, refl, subst, ap, ◌∙◌, none, some, List, [],
  ◌∷◌, ◌++◌, arith, length, get_elem?, ◌==◌, inl, inr, Bool-cases, Option-cases, true, false, ◌&&◌,
  max,
}
use noise_v.Deque.{Deque}
use noise_v.Deque.Cells.{value, IsReady, IsReady-value}
use noise_v.Deque.Content.{first, IsDeque, empty_deque_lem}
use noise_v.Deque.Back.{push_back_appends}
use noise_v.Deque.Iterator.{
  Iterator, Memory, pointer, begin, end, set_node, deref, increment, same, visit, traverse,
  push_all, copy,
}
use noise_v.Deque.Iterator.Index.{begin_lem, at, make_lem, set_node_lem, deref_lem}

-- What `operator new` keeps: the blocks behind two entries of a map do not overlap.
pub record IsApart (mem : Memory) : Type 0 where
  pub some_bytes : 0 < mem.bytes
  pub apart :
      (a b : ℕ)
      → a ≢ b
      → (mem.address a + 8 * mem.bytes ≤ mem.address b)
        ⊎ (mem.address b + 8 * mem.bytes ≤ mem.address a)

entry_inside : (mem : Memory) (o : ℕ) → o < 8 → o * mem.bytes + mem.bytes ≤ 8 * mem.bytes
entry_inside mem o lt = omega (arith, mul-le-mul_right mem.bytes lt)

-- Inside blocks, equal pointers are equal places.
same_inside :
    (mem : Memory) (b o e p : ℕ)
    → IsApart mem
    → o < 8
    → p < 8
    → same mem (at b o) (at e p) ≡ ((b == e) && (o == p))
unfolding same pointer
same_inside mem b o e p m lt lt' =
    let left = entry_inside mem o lt in
    let right = entry_inside mem p lt' in
    elim (Bool-cases (b == e)) [
      | inl here ↦
          let block : b ≡ e = ground arith in
          let start = ap mem.address block in
          elim (Bool-cases (o == p)) [
            | inl f ↦
                let place : o ≡ p = ground arith in
                let offset = ap (λ i. i * mem.bytes) place in ground (arith, here, f, start, offset)
            | inr f ↦
                let other : o * mem.bytes ≢ p * mem.bytes =
                  λ z. ground (arith, f, eq_of_mul-eq-mul_right mem.bytes m.some_bytes o p z) in
                ground (arith, here, f, start, other)
          ]
      | inr apart_blocks ↦
          ground (arith, apart_blocks, m.apart b e (ground arith), m.some_bytes, left, right)
    ]

-- No place inside a block is the end of a full block, unless a block begins there.
same_past :
    (mem : Memory) (it : Iterator) (e : ℕ)
    → IsApart mem
    → ((a : ℕ) → mem.address a ≢ mem.address e + 8 * mem.bytes)
    → it.cur < 8
    → same mem it (at e 8) ≡ false
unfolding same pointer
same_past mem it e m free lt =
    let inside = entry_inside mem it.cur lt in
    elim (Bool-cases it.null) [
      | inl null ↦ rw null (ground (arith, inside, m.some_bytes))
      | inr there ↦ elim (Bool-cases (it.node == e)) [
        | inl here ↦
            let block : it.node ≡ e = ground arith in
            let start = ap mem.address block in
            rw there (ground (arith, start, inside, m.some_bytes))
        | inr other ↦
            rw there
              (ground (arith, m.apart it.node e (ground arith), free it.node, inside, m.some_bytes))
      ]
    ]

module _ {ℓ} {A : Type ℓ} (mem : Memory) (m : IsApart mem) where
  -- The entries `ys` from the iterator `at b o` up to the end.
  record IsAt (d : Deque A) (b o : ℕ) (ys : List A) : Type ℓ where
    inside : d.end_block < d.map_capacity
    end_in : d.end_offset < 8
    ready : IsReady d.map d.end_block
    in_block : o < 8
    span : 8 * b + o + length ys ≡ 8 * d.end_block + d.end_offset
    content : (i : ℕ) (v : A) → get_elem? ys i ≡ some v → value d.map (8 * b + o + i) ≡ some v

  IsAt-later :
      (d : Deque A) (b o b' o' : ℕ) (y : A) (ys : List A)
      → IsAt d b o (y ∷ ys)
      → 8 * b' + o' ≡ 8 * b + o + 1
      → o' < 8
      → IsAt d b' o' ys
  IsAt-later d b o b' o' y ys w e lt = record {
    inside = w.inside;
    end_in = w.end_in;
    ready = w.ready;
    in_block = lt;
    span = omega (arith, w.span, e);
    content = λ i v f.
        let place : 8 * b' + o' + i ≡ 8 * b + o + suc i = omega (arith, e) in
        rw place (w.content (suc i) v f);
  }

  -- The block of an iterator that has not passed the end.
  block-IsReady : (d : Deque A) (b o : ℕ) (ys : List A) → IsAt d b o ys → IsReady d.map b
  block-IsReady d b o [] w =
      subst (IsReady d.map) (omega (arith, w.span, w.end_in, w.in_block)) w.ready
  block-IsReady d b o (y ∷ ys) w =
      IsReady-value d.map (8 * b + o + 0) b y (w.content 0 y refl) (omega (arith, w.in_block))

  increment_lem :
      (d : Deque A) (b o : ℕ) (y : A) (ys : List A)
      → IsAt d b o (y ∷ ys)
      → (b' o' : ℕ) × (increment d (at b o) ≡ some (at b' o')) × IsAt d b' o' ys
  unfolding increment
  increment_lem d b o y ys w = elim (Bool-cases (o + 1 == 8)) [
    | inl edge ↦
        let w' = IsAt-later d b o (b + 1) 0 y ys w (ground arith) (omega arith) in
        let low : b + 1 < d.map_capacity = omega (arith, w'.span, w'.inside, w'.end_in) in
        (b + 1, 0, rw edge (set_node_lem d (b + 1) 0 low (block-IsReady d (b + 1) 0 ys w')), w')
    | inr inner ↦ (
      b,
      o + 1,
      rw inner refl,
      IsAt-later d b o b (o + 1) y ys w (omega arith) (ground (arith, w.in_block)),
    )
  ]

  visit_lem :
      (d : Deque A) (ys : List A) (b o : ℕ)
      → IsAt d b o ys
      → visit mem (suc (length ys)) d (at b o) (at d.end_block d.end_offset) ≡ some ys
  unfolding visit
  visit_lem d [] b o w =
      let test : ((b == d.end_block) && (o == d.end_offset)) ≡ true =
        ground (arith, w.span, w.in_block, w.end_in) in
      rw (same_inside mem b o d.end_block d.end_offset m w.in_block w.end_in, test) refl
  visit_lem d (y ∷ ys) b o w =
      let test : ((b == d.end_block) && (o == d.end_offset)) ≡ false = ground (arith, w.span) in
      let here =
        deref_lem d b o (8 * b + o + 0) y (w.content 0 y refl) (omega arith)
          (omega (arith, w.span, w.inside, w.end_in)) w.in_block in
      let (b', o', e, w') = increment_lem d b o y ys w in
      rw
        (
          same_inside mem b o d.end_block d.end_offset m w.in_block w.end_in,
          test,
          here,
          e,
          visit_lem d ys b' o' w',
        )
        refl

  traverse_begin :
      (d : Deque A) (xs : List A)
      → IsDeque d xs
      → d.end_offset < 8
      → IsAt d d.start_block d.start_offset xs
  traverse_begin d xs w p = record {
    inside = w.inside;
    end_in = p;
    ready = w.end_ready p;
    in_block = w.start_in;
    span = w.span;
    content = w.content;
  }

  -- While the last block is not full, iteration visits the entries in their order, once each, and
  -- ends after the last, wherever the blocks stand that `operator new` gave, which do not overlap.
  pub traverse_lem :
      (d : Deque A) (xs : List A)
      → IsDeque d xs
      → d.end_offset < 8
      → traverse mem (suc (length xs)) d ≡ some xs
  unfolding traverse begin end
  traverse_lem d xs w p =
      let v = traverse_begin d xs w p in
      let low : d.start_block < d.map_capacity = omega (arith, w.span, w.inside, p) in
      rw
        (
          make_lem d d.start_block d.start_offset low
              (block-IsReady d d.start_block d.start_offset xs v),
          make_lem d d.end_block d.end_offset w.inside v.ready,
        )
        (visit_lem d xs d.start_block d.start_offset v)

  push_all-IsDeque :
      (blank : A) (ys : List A) (d : Deque A) (xs : List A)
      → IsDeque d xs
      → (d' : Deque A) × (push_all blank d ys ≡ some d') × IsDeque d' (xs ++ ys)
  unfolding push_all
  push_all-IsDeque blank [] d xs w = (d, refl, rw (append-nil xs) w)
  push_all-IsDeque blank (y ∷ ys) d xs w =
      let (d1, e, w1) = push_back_appends blank d xs y w in
      rw e (rw (append_assoc xs (y ∷ []) ys) at (push_all-IsDeque blank ys d1 (xs ++ y ∷ []) w1))

  -- While the last block is not full, a copy holds the same entries.
  pub copy_lem :
      (blank : A) (other : Deque A) (xs : List A)
      → IsDeque other xs
      → other.end_offset < 8
      → (d : Deque A) × (copy mem (suc (length xs)) blank other ≡ some d) × IsDeque d xs
  unfolding copy
  copy_lem blank other xs w p =
      let (d, e, v) = empty_deque_lem blank (max 8 other.map_capacity) (omega arith) in
      rw (e, traverse_lem other xs w p) (push_all-IsDeque blank xs d [] v)

  increment-below :
      (d : Deque A) (it next : Iterator) → it.cur < 8 → increment d it ≡ some next → next.cur < 8
  unfolding increment set_node
  increment-below d it next lt e = ground arith

  visit_misses :
      (fuel : ℕ) (d : Deque A) (it : Iterator) (b : ℕ)
      → ((a : ℕ) → mem.address a ≢ mem.address b + 8 * mem.bytes)
      → it.cur < 8
      → visit mem fuel d it (at b 8) ≡ none
  unfolding visit
  visit_misses zero d it b free lt = refl
  visit_misses (suc fuel) d it b free lt =
      let test = same_past mem it b m free lt in
      elim (Option-cases (deref d it)) [
        | inl e ↦ rw (test, e) refl
        | inr (item, e) ↦ elim (Option-cases (increment d it)) [
          | inl f ↦ rw (test, e, f) refl
          | inr (next, f) ↦
              rw (test, e, f, visit_misses fuel d next b free (increment-below d it next lt f)) refl
        ]
      ]

  get_elem?-inside : (xs : List A) (i : ℕ) → i < length xs → (v : A) × (get_elem? xs i ≡ some v)
  get_elem?-inside [] i lt = absurd (omega arith)
  get_elem?-inside (x ∷ xs) zero lt = (x, refl)
  get_elem?-inside (x ∷ xs) (suc i) lt = get_elem?-inside xs i (omega arith)

  traverse_misses :
      (d : Deque A) (xs : List A) (fuel : ℕ)
      → IsDeque d xs
      → 0 < length xs
      → d.end_offset ≡ 8
      → ((a : ℕ) → mem.address a ≢ mem.address d.end_block + 8 * mem.bytes)
      → traverse mem fuel d ≡ none
  unfolding traverse end
  traverse_misses d xs fuel w more full free =
      let (v, e) = get_elem?-inside xs (length xs - 1) (omega (arith, more)) in
      let ready =
        IsReady-value d.map (first d + (length xs - 1)) d.end_block v
          (w.content (length xs - 1) v e) (omega (arith, w.span, full, more)) in
      let stop =
        make_lem d d.end_block d.end_offset w.inside ready
        ∙ ap (λ o. some (at d.end_block o)) full in
      rw (begin_lem d xs w more, stop)
        (visit_misses fuel d (at d.start_block d.start_offset) d.end_block free w.start_in)

  -- A deque that is not empty and whose last block is full, while no block of the map begins in memory
  -- right where the last one ends: iteration from `begin` never meets `end`,
  -- and after any number of rounds has not ended, so that a copy of the deque does not come about.
  pub iteration_misses_end :
      (blank : A) (d : Deque A) (xs : List A) (fuel : ℕ)
      → IsDeque d xs
      → 0 < length xs
      → d.end_offset ≡ 8
      → ((a : ℕ) → mem.address a ≢ mem.address d.end_block + 8 * mem.bytes)
      → (traverse mem fuel d ≡ none) × (copy mem fuel blank d ≡ none)
  unfolding copy
  iteration_misses_end blank d xs fuel w more full free =
      let missed = traverse_misses d xs fuel w more full free in
      let (d0, e, v) = empty_deque_lem blank (max 8 d.map_capacity) (omega arith) in
      (missed, rw (e, missed) refl)
