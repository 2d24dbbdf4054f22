-- ===== src/MinHeap/Up.antt =====
-- `sift_up` of kernel/include/libs/min_heap.hpp.
use mathlib.Core.List.{Perm}
use mathlib.Core.List.Perm
use noise_v.Base.{
  ℕ, zero, suc, ◌≤◌, ◌<◌, ◌≡◌, ◌≢◌, ap, ◌&&◌, inl, inr, List, arith, ltb, ◌==◌, length, get_or, set,
  get_or-set, length-set, Bool-cases,
}
use noise_v.Base.Perms.{get_or-default, move-perm, set_same-perm}
use noise_v.MinHeap.{parent, less, up_loop, sift_up}
use noise_v.MinHeap.Order.{IsHeap, IsHeapFrom-set, IsHeapFrom-default, IsBridged, filled}

module _ {ℓ} {A : Type ℓ} (key : A → ℕ) where
  -- Only the entry above the hole may be above something smaller.
  pub record UpInv (d : List A) (i : ℕ) (t : A) : Type ℓ where
    pub inside : i < length d
    pub edges :
        (c : ℕ)
        → 0 < c
        → c < length d
        → c ≢ i
        → key (filled key d i t (parent c)) ≤ key (filled key d i t c)
    pub bridged : IsBridged key 0 d i t

  -- One round keeps the invariant.
  raise-UpInv :
      (d : List A) (i : ℕ) (t : A)
      → UpInv d i t
      → 0 < i
      → key t < key (get_or d (parent i) t)
      → UpInv (set d i (get_or d (parent i) t)) (parent i) t
  raise-UpInv d i t v pos below =
      let above = get_or d (parent i) t in
      let read = λ (c : ℕ). get_or-set d i c above t v.inside in
      let size = length-set d i above in
      record {
        inside = omega (arith, size, v.inside);
        edges = λ c p q ne. ground (arith, size, read c, read (parent c), v.edges c, v.bridged c);
        bridged = λ c p q e pos' _.
            ground (arith, size, read c, read (parent (parent i)), v.edges c, v.edges (parent i));
      }

  up_loop_restores :
      (fuel : ℕ) (d : List A) (i : ℕ) (t : A)
      → i < fuel
      → UpInv d i t
      → IsHeap key t (up_loop key fuel d i t) × Perm (up_loop key fuel d i t) (set d i t)
  unfolding up_loop
  up_loop_restores zero d i t f v = absurd (omega arith)
  up_loop_restores (suc fuel) d i t f v =
      let above = get_or d (parent i) t in
      elim (Bool-cases (ltb 0 i && less key t above)) [
        | inl go ↦
            let pos : 0 < i = ground arith in
            let below : key t < key above = ground arith in
            let (heap, perm) =
              up_loop_restores fuel (set d i above) (parent i) t (omega arith)
                (raise-UpInv d i t v pos below) in
            rw (go, up_loop)
              (
                heap,
                Perm.trans perm (
                    move-perm d i (parent i) t v.inside (omega (arith, v.inside))
                      (λ e. omega arith)),
              )
        | inr stop ↦
            rw (stop, up_loop)
              (
                IsHeapFrom-set key 0 d i t v.inside (λ c p q _. ground (arith, v.edges c)),
                Perm.refl (set d i t),
              )
      ]

  -- `sift_up` of an entry that may only be too high for the one above it makes a heap of the same
  -- entries.
  pub sift_up_restores :
      (d : List A) (i : ℕ) (blank : A)
      → UpInv d i (get_or d i blank)
      → IsHeap key blank (sift_up key d i blank) × Perm (sift_up key d i blank) d
  unfolding sift_up
  sift_up_restores d i blank v =
      let t = get_or d i blank in
      elim (Bool-cases (i == 0)) [
        | inl e ↦
            let zeroth : i ≡ 0 = ground arith in
            rw (e) (
              (λ c p q _. ground (
                arith,
                zeroth,
                v.edges c,
                get_or-default d c t blank,
                get_or-default d (parent c) t blank,
                ap (λ j. get_or d j blank) zeroth,
              )),
              Perm.refl d,
            )
        | inr e ↦
            let (heap, perm) = up_loop_restores (suc i) d i t (omega arith) v in
            rw (e) (
              IsHeapFrom-default key 0 t blank (up_loop key (suc i) d i t) heap,
              Perm.trans perm (set_same-perm d i blank v.inside),
            )
      ]
