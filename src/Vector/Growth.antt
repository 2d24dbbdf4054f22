-- ===== src/Vector/Growth.antt =====
-- The operations of kernel/include/libs/vector.hpp that may need more memory.
use noise_v.Base.{
  ℕ, ◌+◌, ◌-◌, ◌/◌, ◌^◌, ◌≤◌, ◌<◌, ◌≡◌, refl, ◌⊎◌, inl, inr, Bool, true, false, ◌||◌, ◌&&◌, List,
  [], ◌∷◌, ◌++◌, arith, ltb, leb, ◌==◌, if◌then◌else◌, length, length-append, length-replicate,
  take, take-all, take-append, length-take, replicate, Bool-cases,
}
use native.Mathlib.Nat.{div-le_self}
use noise_v.Vector.{
  Vector, max_cap, size, calculate_growth, allocate_internal, realloc_insert, emplace_back,
  emplace_back_slow, resize_no_init, resize, set_size, overwrite,
}

max_cap_small : (sizeof_t : ℕ) → max_cap sizeof_t < 2 ^ 64
max_cap_small sizeof_t = omega (arith, div-le_self (2 ^ 64 - 1) sizeof_t)

module _ {ℓ} {A : Type ℓ} (alloc : ℕ → Bool) (sizeof_t : ℕ) where
  -- The entries fit into the memory, whose size in bytes fits into 64 bits.
  pub record IsValid (v : Vector A) : Type 0 where
    pub fits : size v ≤ v.capacity
    pub small : v.capacity ≤ max_cap sizeof_t

  -- The new capacity is enough for the entries asked for, and no less than half more than the old one,
  -- unless it is the most that can be addressed; when it can be allocated at all it is at most that.
  pub calculate_growth_lem :
      (v : Vector A) (extra : ℕ)
      → IsValid v
      → size v + extra ≤ max_cap sizeof_t
      → 8 ≤ max_cap sizeof_t
      → let grown = calculate_growth sizeof_t v extra in
        (size v + extra ≤ grown)
        × (grown ≤ max_cap sizeof_t)
        × ((v.capacity + v.capacity / 2 ≤ grown) ⊎ (grown ≡ max_cap sizeof_t))
  unfolding calculate_growth
  calculate_growth_lem v extra w room eight =
      ground (arith, w.fits, w.small, max_cap_small sizeof_t)

  -- Whether `operator new` gives the memory that the growth for `extra` entries asks for.
  abbrev pub grows : Vector A → ℕ → Bool
  grows v extra = allocate_internal alloc sizeof_t (calculate_growth sizeof_t v extra)

  -- `push_back` below the largest capacity: while there is room, or the allocation succeeds, the entry
  -- is appended; otherwise the vector is as it was and the entry is dropped. The entries fit
  -- the memory on every branch.
  pub emplace_back_lem :
      (v : Vector A) (x : A)
      → IsValid v
      → size v < max_cap sizeof_t
      → 8 ≤ max_cap sizeof_t
      → let v' = emplace_back alloc sizeof_t v x in
        IsValid v'
        × (v'.items ≡ (if ltb (size v) v.capacity || grows v 1 then v.items ++ x ∷ [] else v.items))
  unfolding emplace_back emplace_back_slow
  emplace_back_lem v x w below eight =
      let longer = length-append v.items (x ∷ []) in
      let (enough, most, _) = calculate_growth_lem v 1 w (omega (arith, below)) eight in
      elim (Bool-cases (size v == v.capacity)) [
        | inl full ↦
            let none_left : ltb (size v) v.capacity ≡ false = ground arith in
            elim (Bool-cases (grows v 1)) [
              | inl given ↦
                  rw (full, none_left, given)
                    (record { fits = omega (arith, longer, enough); small = most }, refl)
              | inr refused ↦ rw (full, none_left, refused) (w, refl)
            ]
        | inr room ↦
            let left : ltb (size v) v.capacity ≡ true = ground (arith, w.fits) in
            rw (room, left)
              (record { fits = ground (arith, longer, w.fits); small = w.small }, refl)
      ]

  module _ (v : Vector A) (n : ℕ) (raw blank : A) where
    abbrev resized : List A
    resized = take n v.items ++ replicate (n - size v) blank

    length-resized : (x : A) → length (take n v.items ++ replicate (n - size v) x) ≡ n
    length-resized x = omega (
      arith,
      length-append (take n v.items) (replicate (n - size v) x),
      length-take n v.items,
      length-replicate (n - size v) x,
    )

    -- What `resize` writes once the size is set.
    overwrite_lem :
        size v < n
        → overwrite (take n v.items ++ replicate (n - size v) raw) (size v) blank ≡ resized
    unfolding overwrite
    overwrite_lem longer =
        let whole = take-all n v.items (omega arith) in
        let sized = length-resized raw in
        rw (sized, whole, take-append v.items (replicate (n - size v) raw) (size v) refl) refl

    same_size : n ≤ size v → (take n v.items ++ replicate (n - size v) raw) ≡ resized
    same_size shorter = let none_new : n - size v ≡ 0 = omega arith in rw none_new refl

    finish_resize :
        (if (length (take n v.items ++ replicate (n - size v) raw) == n) && ltb (size v) n
          then overwrite (take n v.items ++ replicate (n - size v) raw) (size v) blank
          else take n v.items ++ replicate (n - size v) raw)
        ≡ resized
    finish_resize = elim (Bool-cases (ltb (size v) n)) [
      | inl longer ↦
          let sized : (length (take n v.items ++ replicate (n - size v) raw) == n) ≡ true =
            ground (arith, length-resized raw) in
          rw (sized, longer) (overwrite_lem (ground arith))
      | inr shorter ↦
          let test : ((length (take n v.items ++ replicate (n - size v) raw) == n)
                && ltb (size v) n)
              ≡ false =
            ground arith in
          rw test (same_size (ground arith))
    ]

    -- `resize`: while the new size fits, or the allocation succeeds, the first `n` entries stay and
    -- blank ones follow up to the size `n`, whatever the memory held; otherwise the vector is as it
    -- was. The entries fit the memory on every branch.
    pub resize_lem :
        IsValid v
        → n ≤ max_cap sizeof_t
        → 8 ≤ max_cap sizeof_t
        → let v' = resize alloc sizeof_t v n raw blank in
          IsValid v'
          × (v'.items ≡ (if leb n v.capacity || grows v (n - size v) then resized else v.items))
    unfolding resize resize_no_init realloc_insert set_size
    resize_lem w below eight = elim (Bool-cases (ltb v.capacity n)) [
      | inl over ↦
          let no_room : leb n v.capacity ≡ false = ground arith in
          let (enough, most, _) =
            calculate_growth_lem v (n - size v) w (omega (arith, w.fits, w.small, below)) eight in
          elim (Bool-cases (grows v (n - size v))) [
            | inl given ↦
                rw (over, no_room, given, finish_resize)
                  (
                    record { fits = omega (arith, length-resized blank, enough); small = most },
                    refl,
                  )
            | inr refused ↦
                let kept : (length v.items == n) ≡ false = ground (arith, w.fits) in
                rw (over, no_room, refused, kept) (w, refl)
          ]
      | inr inside ↦
          let room : leb n v.capacity ≡ true = ground arith in
          rw (inside, room, finish_resize)
            (record { fits = ground (arith, length-resized blank); small = w.small }, refl)
    ]
