-- ===== src/Deque/Front.antt =====
-- The start of the deque of kernel/include/libs/deque.hpp.
use noise_v.Base.{
  ℕ, zero, suc, ◌+◌, ◌-◌, ◌*◌, ◌≤◌, ◌<◌, ◌≡◌, refl, ◌∙◌, some, List, [], ◌∷◌, arith, length,
  get_elem?, ◌==◌, if◌then◌else◌, inl, inr, Bool-cases, false, leb,
}
use noise_v.Deque.{
  Deque, resize_map, with_capacity, ensure_block, room_front, emplace_front, pop_front, step_front,
}
use noise_v.Deque.Cells.{
  value, IsReady, IsReady-value, ensured, IsReady-ensured, value-ensured, written, value-written,
  write_lem, fetch_lem, IsReady-written, IsReady-ensured_old,
}
use noise_v.Deque.Content.{first, IsDeque, resize_map-IsDeque}

module _ {ℓ} {A : Type ℓ} where
  abbrev grown : Deque A → Deque A
  grown d = if d.start_block == 0 then resize_map d else d

  grown-IsDeque :
      (d : Deque A) (xs : List A)
      → IsDeque d xs
      → IsDeque (grown d) xs
        × (0 < (grown d).start_block)
        × ((grown d).start_offset ≡ d.start_offset)
  unfolding resize_map with_capacity
  grown-IsDeque d xs v = elim (Bool-cases (d.start_block == 0)) [
    | inl full ↦ rw full (resize_map-IsDeque d xs v, omega (arith, v.roomy, v.inside), refl)
    | inr room ↦ rw room (v, ground arith, refl)
  ]

  -- `d` with the deque's start at the end of the block before, and that block there. The offset is
  -- out of range until the entry is placed.
  abbrev stepped : A → Deque A → Deque A
  stepped blank d = record d {
    map = ensured blank d.map (d.start_block - 1);
    start_block = d.start_block - 1;
    start_offset = 8;
  }

  -- What is needed to place an entry in front of `xs`.
  record IsOpen (d : Deque A) (xs : List A) : Type ℓ where
    roomy : 8 ≤ d.map_capacity
    inside : d.end_block < d.map_capacity
    start_above : 0 < d.start_offset
    start_below : d.start_offset ≤ 8
    start_inside : d.start_block < d.map_capacity
    end_in : d.end_offset ≤ 8
    counted : d.element_count ≡ length xs
    span : 8 * d.start_block + d.start_offset + length xs ≡ 8 * d.end_block + d.end_offset
    start_ready : IsReady d.map d.start_block
    end_ready : d.end_offset < 8 → IsReady d.map d.end_block
    content : (i : ℕ) (v : A) → get_elem? xs i ≡ some v → value d.map (first d + i) ≡ some v

  room_front_lem :
      (blank : A) (d : Deque A) (xs : List A)
      → IsDeque d xs
      → (d1 : Deque A) × (room_front blank d ≡ some d1) × IsOpen d1 xs
  unfolding room_front ensure_block
  room_front_lem blank d xs v = elim (Bool-cases (d.start_offset == 0)) [
    | inl edge ↦
        let (w, room, same) = grown-IsDeque d xs v in
        let g = grown d in
        let at_zero : g.start_offset ≡ 0 = ground arith in
        let before = g.start_block - 1 in
        let test : leb g.map_capacity before ≡ false = ground (arith, w.span, w.inside, w.end_in) in
        let place : 8 * before + 8 ≡ first g = omega (arith, room, at_zero) in
        (
          stepped blank g,
          rw (edge, test) refl,
          record {
            roomy = w.roomy;
            inside = w.inside;
            start_above = omega arith;
            start_below = omega arith;
            start_inside = omega (arith, w.span, w.inside, w.end_in, room);
            end_in = w.end_in;
            counted = w.counted;
            span = omega (arith, w.span, room, at_zero);
            start_ready = IsReady-ensured blank g.map before;
            end_ready = λ p. IsReady-ensured_old blank g.map before g.end_block (w.end_ready p);
            content = λ i x e.
                rw place (value-ensured blank g.map before (first g + i) x (w.content i x e));
          },
        )
    | inr within ↦
        let pos : 0 < d.start_offset = ground arith in
        (
          d,
          rw within refl,
          record {
            roomy = v.roomy;
            inside = v.inside;
            start_above = pos;
            start_below = omega (arith, v.start_in);
            start_inside = omega (arith, v.span, v.inside, v.end_in, pos);
            end_in = v.end_in;
            counted = v.counted;
            span = v.span;
            start_ready = v.start_ready pos;
            end_ready = v.end_ready;
            content = v.content;
          },
        )
  ]

  get_elem?-start :
      (xs : List A) (x v : A) (i : ℕ)
      → get_elem? (x ∷ xs) i ≡ some v
      → (if 0 == i then some x else get_elem? xs (i - 1)) ≡ some v
  get_elem?-start xs x v zero e = e
  get_elem?-start xs x v (suc i) e =
      let same : suc i - 1 ≡ i = omega arith in
      let later : (0 == suc i) ≡ false = ground arith in rw (later, same) e

  abbrev pushed : Deque A → A → (ℕ → A) → Deque A
  pushed d x block = record d {
    map = written d.map d.start_block (d.start_offset - 1) x block;
    start_offset = d.start_offset - 1;
    element_count = d.element_count + 1;
  }

  -- `push_front` succeeds and puts the entry first.
  pub push_front_prepends :
      (blank : A) (d : Deque A) (xs : List A) (x : A)
      → IsDeque d xs
      → (d' : Deque A) × (emplace_front blank d x ≡ some d') × IsDeque d' (x ∷ xs)
  unfolding emplace_front
  push_front_prepends blank d xs x v =
      let (d1, e, w) = room_front_lem blank d xs v in
      let (block, there) = w.start_ready in
      let at = d1.start_offset - 1 in
      let small : at < 8 = omega (arith, w.start_below, w.start_above) in
      let wrote = write_lem d1 d1.start_block at x block there w.start_inside small in
      let read = λ (p : ℕ). value-written d1.map d1.start_block at p x block there small in
      let place : 8 * d1.start_block + at + 1 ≡ first d1 = omega (arith, w.start_above) in
      (
        pushed d1 x block,
        rw (e, wrote) refl,
        record {
          roomy = w.roomy;
          inside = w.inside;
          start_in = small;
          end_in = w.end_in;
          counted = omega (arith, w.counted);
          span = omega (arith, w.span, w.start_above);
          start_ready =
              λ p. IsReady-written d1.map d1.start_block at d1.start_block x block (block, there);
          end_ready =
              λ p. IsReady-written d1.map d1.start_block at d1.end_block x block (w.end_ready p);
          content = λ i y f.
              let case = get_elem?-start xs x y i f in
              let old = w.content (i - 1) y in
              let here : (d1.start_block * 8 + at == 8 * d1.start_block + at + i) ≡ (0 == i) =
                ground arith in
              let got = rw here at (read (8 * d1.start_block + at + i)) in
              elim (Bool-cases (0 == i)) [
                | inl head ↦ (rw head at got) ∙ (rw head at case)
                | inr tail ↦
                    let past : 8 * d1.start_block + at + i ≡ first d1 + (i - 1) =
                      ground (arith, w.start_above) in
                    (rw tail at got) ∙ rw past (old (rw tail at case))
              ];
        },
      )

  -- `pop_front` succeeds and takes the first entry off.
  pub pop_front_takes :
      (d : Deque A) (xs : List A) (x : A)
      → IsDeque d (x ∷ xs)
      → (d' : Deque A) × (pop_front d ≡ some d') × IsDeque d' xs
  unfolding pop_front step_front
  pop_front_takes d xs x v =
      let some_left : (d.element_count == 0) ≡ false = ground (arith, v.counted) in
      let head = v.content 0 x refl in
      let place : first d + 0 ≡ d.start_block * 8 + d.start_offset = omega arith in
      let below : d.start_block < d.map_capacity = omega (arith, v.inside, v.span, v.end_in) in
      let got = fetch_lem d d.start_block d.start_offset x (rw place at head) below v.start_in in
      elim (Bool-cases (d.start_offset + 1 == 8)) [
        | inl edge ↦
            let at_end : d.start_offset + 1 ≡ 8 = ground arith in
            (
              record d {
                start_block = d.start_block + 1;
                start_offset = 0;
                element_count = d.element_count - 1;
              },
              rw (some_left, got, edge) refl,
              record {
                roomy = v.roomy;
                inside = v.inside;
                start_in = omega arith;
                end_in = v.end_in;
                counted = omega (arith, v.counted);
                span = omega (arith, v.span, at_end);
                start_ready = λ p. absurd (omega arith);
                end_ready = v.end_ready;
                content = λ i y f.
                    let next : 8 * (d.start_block + 1) + 0 + i ≡ first d + suc i =
                      omega (arith, at_end) in
                    rw next (v.content (suc i) y f);
              },
            )
        | inr within ↦ (
          record d { start_offset = d.start_offset + 1; element_count = d.element_count - 1 },
          rw (some_left, got, within) refl,
          record {
            roomy = v.roomy;
            inside = v.inside;
            start_in = ground (arith, v.start_in);
            end_in = v.end_in;
            counted = omega (arith, v.counted);
            span = omega (arith, v.span);
            start_ready = λ p.
                IsReady-value d.map (first d + 0) d.start_block x head (omega (arith, v.start_in));
            end_ready = v.end_ready;
            content = λ i y f.
                let next : 8 * d.start_block + (d.start_offset + 1) + i ≡ first d + suc i =
                  omega arith in
                rw next (v.content (suc i) y f);
          },
        )
      ]

  pub pop_front_empty : (d : Deque A) → IsDeque d [] → pop_front d ≡ some d
  unfolding pop_front
  pop_front_empty d v = rw v.counted refl
