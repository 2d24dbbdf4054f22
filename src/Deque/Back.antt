-- ===== src/Deque/Back.antt =====
-- The end of the deque of kernel/include/libs/deque.hpp.
use noise_v.Base.{
  ℕ, zero, suc, ◌+◌, ◌-◌, ◌*◌, ◌<◌, ◌≡◌, refl, some, List, [], ◌∷◌, ◌++◌, arith, length, get_elem?,
  ◌==◌, if◌then◌else◌, inl, inr, Bool-cases, false, leb, length-append,
}
use noise_v.Deque.{
  Deque, resize_map, with_capacity, ensure_block, room_back, emplace_back, pop_back, step_back,
  take_back,
}
use noise_v.Deque.Cells.{
  IsReady-value, ensured, IsReady-ensured, value-ensured, written, value-written, write_lem,
  fetch_lem, IsReady-written, IsReady-ensured_old,
}
use noise_v.Deque.Content.{first, IsDeque, resize_map-IsDeque}

module _ {ℓ} {A : Type ℓ} where
  get_elem?-end :
      (xs : List A) (x v : A) (i : ℕ)
      → get_elem? (xs ++ x ∷ []) i ≡ some v
      → (if length xs == i then some x else get_elem? xs i) ≡ some v
  get_elem?-end [] x v zero e = e
  get_elem?-end [] x v (suc i) e = ground arith
  get_elem?-end (y ∷ xs) x v zero e = ground arith
  get_elem?-end (y ∷ xs) x v (suc i) e = ground (arith, get_elem?-end xs x v i e)

  get_elem?-append_left :
      (xs : List A) (x v : A) (i : ℕ)
      → get_elem? xs i ≡ some v
      → get_elem? (xs ++ x ∷ []) i ≡ some v
  get_elem?-append_left [] x v i e = ground arith
  get_elem?-append_left (y ∷ xs) x v zero e = e
  get_elem?-append_left (y ∷ xs) x v (suc i) e = get_elem?-append_left xs x v i e

  get_elem?-last : (xs : List A) (x : A) → get_elem? (xs ++ x ∷ []) (length xs) ≡ some x
  get_elem?-last [] x = refl
  get_elem?-last (y ∷ xs) x = get_elem?-last xs x

  abbrev grown : Deque A → Deque A
  grown d = if d.end_block + 1 == d.map_capacity then resize_map d else d

  grown-IsDeque :
      (d : Deque A) (xs : List A)
      → IsDeque d xs
      → IsDeque (grown d) xs
        × ((grown d).end_block + 1 < (grown d).map_capacity)
        × ((grown d).end_offset ≡ d.end_offset)
  unfolding resize_map with_capacity
  grown-IsDeque d xs v = elim (Bool-cases (d.end_block + 1 == d.map_capacity)) [
    | inl full ↦
        rw full
          (resize_map-IsDeque d xs v, omega (arith, v.roomy, v.span, v.start_in, v.inside), refl)
    | inr open_map ↦ rw open_map (v, ground (arith, v.inside), refl)
  ]

  next_block-IsDeque :
      (blank : A) (d : Deque A) (xs : List A)
      → IsDeque d xs
      → d.end_block + 1 < d.map_capacity
      → d.end_offset ≡ 8
      → IsDeque
          (record d {
            map = ensured blank d.map (d.end_block + 1);
            end_block = d.end_block + 1;
            end_offset = 0;
          })
          xs
  next_block-IsDeque blank d xs v room full = record {
    roomy = v.roomy;
    inside = room;
    start_in = v.start_in;
    end_in = omega arith;
    counted = v.counted;
    span = omega (arith, v.span);
    start_ready =
        λ p. IsReady-ensured_old blank d.map (d.end_block + 1) d.start_block (v.start_ready p);
    end_ready = λ p. IsReady-ensured blank d.map (d.end_block + 1);
    content =
        λ i x e. value-ensured blank d.map (d.end_block + 1) (first d + i) x (v.content i x e);
  }

  room_back_lem :
      (blank : A) (d : Deque A) (xs : List A)
      → IsDeque d xs
      → (d1 : Deque A) × (room_back blank d ≡ some d1) × IsDeque d1 xs × (d1.end_offset < 8)
  unfolding room_back ensure_block
  room_back_lem blank d xs v = elim (Bool-cases (d.end_offset == 8)) [
    | inl full ↦
        let (w, room, same) = grown-IsDeque d xs v in
        let test : leb (grown d).map_capacity ((grown d).end_block + 1) ≡ false = ground arith in
        let at_end : (grown d).end_offset ≡ 8 = ground arith in
        (_, rw (full, test) refl, next_block-IsDeque blank (grown d) xs w room at_end, omega arith)
    | inr part ↦ (d, rw part refl, v, ground (arith, v.end_in))
  ]

  abbrev pushed : Deque A → A → (ℕ → A) → Deque A
  pushed d x block = record d {
    map = written d.map d.end_block d.end_offset x block;
    end_offset = d.end_offset + 1;
    element_count = d.element_count + 1;
  }

  -- `push_back` succeeds and appends.
  pub push_back_appends :
      (blank : A) (d : Deque A) (xs : List A) (x : A)
      → IsDeque d xs
      → (d' : Deque A) × (emplace_back blank d x ≡ some d') × IsDeque d' (xs ++ x ∷ [])
  unfolding emplace_back
  push_back_appends blank d xs x v =
      let (d1, e, w, below) = room_back_lem blank d xs v in
      let (block, there) = w.end_ready below in
      let wrote = write_lem d1 d1.end_block d1.end_offset x block there w.inside below in
      let size = length-append xs (x ∷ []) in
      (
        pushed d1 x block,
        rw (e, wrote) refl,
        record {
          roomy = w.roomy;
          inside = w.inside;
          start_in = w.start_in;
          end_in = omega arith;
          counted = omega (arith, w.counted, size);
          span = omega (arith, w.span, size);
          start_ready = λ p.
              IsReady-written d1.map d1.end_block d1.end_offset d1.start_block x block
                (w.start_ready p);
          end_ready = λ p.
              IsReady-written d1.map d1.end_block d1.end_offset d1.end_block x block
                (w.end_ready below);
          content = λ i y f.
              let read =
                value-written d1.map d1.end_block d1.end_offset (first d1 + i) x block there
                  below in
              let same : (d1.end_block * 8 + d1.end_offset == first d1 + i) ≡ (length xs == i) =
                ground (arith, w.span) in
              let case = get_elem?-end xs x y i f in
              elim (Bool-cases (length xs == i)) [
                | inl end ↦ ground (arith, read, same, case)
                | inr old ↦ ground (arith, read, same, case, w.content i y)
              ];
        },
      )

  step_back-IsDeque :
      (d : Deque A) (xs : List A)
      → IsDeque d xs
      → 0 < length xs
      → IsDeque (step_back d) xs × (0 < (step_back d).end_offset)
  unfolding step_back
  step_back-IsDeque d xs v more = elim (Bool-cases (d.end_offset == 0)) [
    | inl edge ↦
        let at_zero : d.end_offset ≡ 0 = ground arith in
        rw edge (
          record {
            roomy = v.roomy;
            inside = omega (arith, v.inside);
            start_in = v.start_in;
            end_in = omega arith;
            counted = v.counted;
            span = omega (arith, v.span, at_zero);
            start_ready = v.start_ready;
            end_ready = λ p. absurd (omega arith);
            content = v.content;
          },
          omega arith,
        )
    | inr within ↦ rw within (v, ground arith)
  ]

  take_back_takes :
      (d : Deque A) (xs : List A) (x : A)
      → IsDeque d (xs ++ x ∷ [])
      → 0 < d.end_offset
      → (d' : Deque A) × (take_back d ≡ some d') × IsDeque d' xs
  unfolding take_back
  take_back_takes d xs x v pos =
      let size = length-append xs (x ∷ []) in
      let last = v.content (length xs) x (get_elem?-last xs x) in
      let place : first d + length xs ≡ d.end_block * 8 + (d.end_offset - 1) =
        omega (arith, v.span, size, pos) in
      let got =
        fetch_lem d d.end_block (d.end_offset - 1) x (rw place at last) v.inside
          (omega (arith, v.end_in, pos)) in
      (
        record d { end_offset = d.end_offset - 1; element_count = d.element_count - 1 },
        rw got refl,
        record {
          roomy = v.roomy;
          inside = v.inside;
          start_in = v.start_in;
          end_in = omega (arith, v.end_in);
          counted = omega (arith, v.counted, size);
          span = omega (arith, v.span, size, pos);
          start_ready = v.start_ready;
          end_ready = λ p.
              IsReady-value d.map (first d + length xs) d.end_block x last
                (omega (arith, place, v.end_in));
          content = λ i y f. v.content i y (get_elem?-append_left xs x y i f);
        },
      )

  -- `pop_back` succeeds and takes the last entry off.
  pub pop_back_takes :
      (d : Deque A) (xs : List A) (x : A)
      → IsDeque d (xs ++ x ∷ [])
      → (d' : Deque A) × (pop_back d ≡ some d') × IsDeque d' xs
  unfolding pop_back
  pop_back_takes d xs x v =
      let size = length-append xs (x ∷ []) in
      let some_left : (d.element_count == 0) ≡ false = ground (arith, v.counted, size) in
      let (w, pos) = step_back-IsDeque d (xs ++ x ∷ []) v (omega (arith, size)) in
      rw some_left (take_back_takes (step_back d) xs x w pos)

  -- Nothing to take from an empty deque.
  pub pop_back_empty : (d : Deque A) → IsDeque d [] → pop_back d ≡ some d
  unfolding pop_back
  pop_back_empty d v = rw v.counted refl
