-- ===== src/MinHeap/Down.antt =====
-- `sift_down` of kernel/include/libs/min_heap.hpp.
use mathlib.Core.List.{Perm}
use mathlib.Core.List.Perm
use noise_v.Base.{
  ℕ, zero, suc, ◌+◌, ◌-◌, ◌≤◌, ◌<◌, ◌≡◌, ◌≢◌, refl, ap, false, not, ◌&&◌, inl, inr, ◌⊎◌, List,
  arith, leb, length, get_or, set, get_or-set, length-set, Bool-cases,
}
use noise_v.Base.Perms.{move-perm, set_same-perm}
use noise_v.MinHeap.{
  parent, less, child_start, child_end, smallest_loop, smallest_child, down_loop, sift_down,
}
use noise_v.MinHeap.Order.{IsHeapFrom, IsHeapFrom-set, IsHeapFrom-default, IsBridged, filled}

module _ {ℓ} {A : Type ℓ} (key : A → ℕ) where
  -- The scan of the children returns the best of the start and of those scanned.
  smallest_loop_least :
      (rounds : ℕ) (d : List A) (i s : ℕ) (t : A)
      → let r = smallest_loop key rounds d i s t in
        ((r ≡ s) ⊎ ((i ≤ r) × (r < i + rounds)))
        × (key (get_or d r t) ≤ key (get_or d s t))
        × ((c : ℕ) → i ≤ c → c < i + rounds → key (get_or d r t) ≤ key (get_or d c t))
  unfolding smallest_loop
  smallest_loop_least zero d i s t = (inl refl, omega arith, λ c p q. absurd (omega arith))
  smallest_loop_least (suc rounds) d i s t =
      elim (Bool-cases (less key (get_or d i t) (get_or d s t))) [
        | inl e ↦
            let (range, start, rest) = smallest_loop_least rounds d (i + 1) i t in
            rw e (
              ground (arith, range),
              ground (arith, start),
              λ c p q. ground (arith, start, rest c, ap (λ j. key (get_or d j t))),
            )
        | inr e ↦
            let (range, start, rest) = smallest_loop_least rounds d (i + 1) s t in
            rw e (
              ground (arith, range),
              start,
              λ c p q. ground (arith, start, rest c, ap (λ j. key (get_or d j t))),
            )
      ]

  smallest_child_least :
      (d : List A) (i : ℕ) (t : A)
      → child_start i < length d
      → let r = smallest_child key d i t in
        (child_start i ≤ r)
        × (r < length d)
        × (parent r ≡ i)
        × ((c : ℕ) → 0 < c → c < length d → parent c ≡ i → key (get_or d r t) ≤ key (get_or d c t))
  unfolding smallest_child
  smallest_child_least d i t h =
      let first = child_start i in
      let rounds = child_end d i - (first + 1) in
      let (range, start, rest) = smallest_loop_least rounds d (first + 1) first t in
      (
        ground (arith, range),
        ground (arith, range),
        ground (arith, range),
        λ c p q e. ground (arith, start, rest c, ap (λ j. key (get_or d j t))),
      )

  -- Only the entries below the hole may be below something larger.
  pub record DownInv (lo : ℕ) (d : List A) (i : ℕ) (t : A) : Type ℓ where
    pub inside : i < length d
    pub from : lo ≤ i
    pub edges :
        (c : ℕ)
        → 0 < c
        → c < length d
        → lo ≤ parent c
        → parent c ≢ i
        → key (filled key d i t (parent c)) ≤ key (filled key d i t c)
    pub bridged : IsBridged key lo d i t

  lower-DownInv :
      (lo : ℕ) (d : List A) (i : ℕ) (t : A)
      → DownInv lo d i t
      → child_start i < length d
      → let child = smallest_child key d i t in
        key (get_or d child t) < key t → DownInv lo (set d i (get_or d child t)) child t
  lower-DownInv lo d i t v more below =
      let child = smallest_child key d i t in
      let (after, inside, up, least) = smallest_child_least d i t more in
      let value = get_or d child t in
      let read = λ (c : ℕ). get_or-set d i c value t v.inside in
      let size = length-set d i value in
      record {
        inside = omega (arith, size, inside);
        from = omega (arith, after, v.from);
        edges = λ c p q r ne.
            ground (
              arith,
              size,
              after,
              up,
              read c,
              read (parent c),
              v.edges c,
              v.bridged child,
              least c,
            );
        bridged = λ c p q e pos r.
            ground (arith, size, after, up, read c, read (parent child), v.edges c);
      }

  -- Where the loop stops, no entry below the hole has a smaller key than the target.
  stopped_above :
      (d : List A) (i : ℕ) (t : A)
      → (not (leb (length d) (child_start i)) && less key (get_or d (smallest_child key d i t) t) t)
        ≡ false
      → (c : ℕ) → 0 < c
      → c < length d
      → parent c ≡ i
      → key t ≤ key (get_or d c t)
  stopped_above d i t stop c p q e =
      let more : child_start i < length d = omega (arith, p, q, e) in
      let least = (smallest_child_least d i t more).3 c p q e in ground (arith, least, stop, more)

  down_loop_restores :
      (fuel lo : ℕ) (d : List A) (i : ℕ) (t : A)
      → length d ≤ i + fuel
      → DownInv lo d i t
      → IsHeapFrom key lo t (down_loop key fuel d i t) × Perm (down_loop key fuel d i t) (set d i t)
  unfolding down_loop
  down_loop_restores zero lo d i t f v = absurd (omega (arith, v.inside))
  down_loop_restores (suc fuel) lo d i t f v =
      let child = smallest_child key d i t in
      let below = get_or d child t in
      elim (Bool-cases (not (leb (length d) (child_start i)) && less key below t)) [
        | inl go ↦
            let more : child_start i < length d = ground arith in
            let smaller : key below < key t = ground arith in
            let (after, inside, up, least) = smallest_child_least d i t more in
            let size = length-set d i below in
            let (heap, perm) =
              down_loop_restores fuel lo (set d i below) child t (omega (arith, size, after))
                (lower-DownInv lo d i t v more smaller) in
            rw (go, down_loop)
              (
                heap,
                Perm.trans perm (move-perm d i child t v.inside inside (λ e. omega (arith, after))),
              )
        | inr stop ↦
            rw (stop, down_loop)
              (
                IsHeapFrom-set key lo d i t v.inside
                    (λ c p q r. ground (arith, v.edges c, stopped_above d i t stop c)),
                Perm.refl (set d i t),
              )
      ]

  -- `sift_down` of an entry that may only be too low for those below it restores the order from
  -- `lo` on.
  pub sift_down_restores :
      (lo : ℕ) (d : List A) (i : ℕ) (blank : A)
      → DownInv lo d i (get_or d i blank)
      → IsHeapFrom key lo blank (sift_down key d i blank) × Perm (sift_down key d i blank) d
  unfolding sift_down
  sift_down_restores lo d i blank v =
      let t = get_or d i blank in
      let inside : leb (length d) i ≡ false = ground (arith, v.inside) in
      let (heap, perm) = down_loop_restores (suc (length d)) lo d i t (omega arith) v in
      rw (inside) (
        IsHeapFrom-default key lo t blank (down_loop key (suc (length d)) d i t) heap,
        Perm.trans perm (set_same-perm d i blank v.inside),
      )

  length-down_loop :
      (fuel : ℕ) (d : List A) (i : ℕ) (t : A) → length (down_loop key fuel d i t) ≡ length d
  unfolding down_loop
  length-down_loop zero d i t = refl
  length-down_loop (suc fuel) d i t =
      let child = smallest_child key d i t in
      let below = get_or d child t in
      elim (Bool-cases (not (leb (length d) (child_start i)) && less key below t)) [
        | inl e ↦
            rw (e, down_loop)
              (omega (arith, length-down_loop fuel (set d i below) child t, length-set d i below))
        | inr e ↦ rw (e, down_loop) (length-set d i t)
      ]

  pub length-sift_down :
      (d : List A) (i : ℕ) (blank : A) → length (sift_down key d i blank) ≡ length d
  unfolding sift_down
  length-sift_down d i blank = elim (Bool-cases (leb (length d) i)) [
    | inl e ↦ rw e refl
    | inr e ↦ rw e (length-down_loop (suc (length d)) d i (get_or d i blank))
  ]
