-- ===== src/Deque/Content.antt =====
-- The list of entries that a deque of kernel/include/libs/deque.hpp holds.
use noise_v.Base.{
  ℕ, zero, suc, ◌+◌, ◌-◌, ◌*◌, ◌/◌, ◌≤◌, ◌<◌, ◌≡◌, refl, subst, ◌∙◌, none, some, List, [], ◌∷◌,
  arith, length, get_elem?, max, inl, inr, Bool-cases, false, leb, ltb, ◌&&◌,
}
use noise_v.Deque.{
  Deque, num_blocks, with_capacity, resize_map, shrink_to_fit, empty_deque, ensure_block,
}
use noise_v.Deque.Cells.{
  value, IsReady, value-moved_map, IsReady-moved_map, IsReady-ensured, ensured,
}

module _ {ℓ} {A : Type ℓ} where
  -- The position of the first entry.
  abbrev pub first : Deque A → ℕ
  first d = 8 * d.start_block + d.start_offset

  -- `xs` stands from there on, in blocks that are there, inside the map; a block that is only partly
  -- used at either end is there too.
  pub record IsDeque (d : Deque A) (xs : List A) : Type ℓ where
    pub roomy : 8 ≤ d.map_capacity
    pub inside : d.end_block < d.map_capacity
    pub start_in : d.start_offset < 8
    pub end_in : d.end_offset ≤ 8
    pub counted : d.element_count ≡ length xs
    pub span : 8 * d.start_block + d.start_offset + length xs ≡ 8 * d.end_block + d.end_offset
    pub start_ready : 0 < d.start_offset → IsReady d.map d.start_block
    pub end_ready : d.end_offset < 8 → IsReady d.map d.end_block
    pub content : (i : ℕ) (v : A) → get_elem? xs i ≡ some v → value d.map (first d + i) ≡ some v

  pub get_elem?-below : (xs : List A) (i : ℕ) (v : A) → get_elem? xs i ≡ some v → i < length xs
  get_elem?-below [] i v e = ground arith
  get_elem?-below (x ∷ xs) zero v e = omega arith
  get_elem?-below (x ∷ xs) (suc i) v e = omega (arith, get_elem?-below xs i v e)

  -- A map of another size, with room for the blocks in use, keeps the entries.
  pub with_capacity-IsDeque :
      (d : Deque A) (new_capacity : ℕ) (xs : List A)
      → IsDeque d xs
      → 8 ≤ new_capacity
      → num_blocks d ≤ new_capacity
      → IsDeque (with_capacity d new_capacity) xs
  unfolding with_capacity
  with_capacity-IsDeque d new_capacity xs v big fits =
      let to = (new_capacity - num_blocks d) / 2 in
      let used : d.start_block ≤ d.end_block + 1 = omega (arith, v.span, v.start_in, v.end_in) in
      record {
        roomy = big;
        inside = omega (arith);
        start_in = v.start_in;
        end_in = v.end_in;
        counted = v.counted;
        span = omega (arith, v.span);
        start_ready = λ p.
            IsReady-moved_map d.map d.start_block to (num_blocks d) 0 to
              (omega (arith, v.span, v.end_in)) (omega arith)
              (subst (IsReady d.map) (omega arith) (v.start_ready p));
        end_ready = λ p.
            IsReady-moved_map d.map d.start_block to (num_blocks d) (num_blocks d - 1)
              (to + num_blocks d - 1) (omega (arith, v.span)) (omega (arith, v.span))
              (subst (IsReady d.map) (omega (arith, v.span)) (v.end_ready p));
        content = λ i x e.
            value-moved_map d.map d.start_block to (num_blocks d) (d.start_offset + i)
              (8 * to + d.start_offset + i) (first d + i)
              (omega (arith, v.span, v.end_in, get_elem?-below xs i x e)) (omega arith)
              (omega arith)
            ∙ v.content i x e;
      }

  pub resize_map-IsDeque : (d : Deque A) (xs : List A) → IsDeque d xs → IsDeque (resize_map d) xs
  unfolding resize_map
  resize_map-IsDeque d xs v =
      with_capacity-IsDeque d (max 8 (d.map_capacity * 2)) xs v (omega arith)
        (omega (arith, v.inside, v.span, v.roomy))

  -- `shrink_to_fit` keeps the entries.
  pub shrink_to_fit-IsDeque :
      (d : Deque A) (xs : List A) → IsDeque d xs → IsDeque (shrink_to_fit d) xs
  unfolding shrink_to_fit
  shrink_to_fit-IsDeque d xs v =
      elim (Bool-cases (ltb (num_blocks d) (d.map_capacity / 4) && ltb 8 d.map_capacity)) [
        | inl go ↦
            rw go
              (with_capacity-IsDeque d (max 8 (num_blocks d * 2)) xs v (omega arith) (omega arith))
        | inr stop ↦ rw stop v
      ]

  pub empty_deque_lem :
      (blank : A) (capacity : ℕ)
      → 8 ≤ capacity
      → (d : Deque A) × (empty_deque blank capacity ≡ some d) × IsDeque d []
  unfolding empty_deque ensure_block
  empty_deque_lem blank capacity big =
      let half = capacity / 2 in
      let test : leb capacity half ≡ false = ground arith in
      (
        record {
          map = ensured blank (λ _. none) half;
          map_capacity = capacity;
          start_block = half;
          start_offset = 4;
          end_block = half;
          end_offset = 4;
          element_count = 0;
        },
        rw test refl,
        record {
          roomy = big;
          inside = omega arith;
          start_in = omega arith;
          end_in = omega arith;
          counted = refl;
          span = omega arith;
          start_ready = λ p. IsReady-ensured blank (λ _. none) half;
          end_ready = λ p. IsReady-ensured blank (λ _. none) half;
          content = λ i x e. ground arith;
        },
      )
