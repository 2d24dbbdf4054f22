-- ===== src/MinHeap/Order.antt =====
-- The order of the heap of kernel/include/libs/min_heap.hpp.
use noise_v.Base.{
  ℕ, zero, suc, ◌≤◌, ◌<◌, ◌≡◌, List, arith, ◌==◌, if◌then◌else◌, length, get_or, set, get_or-set,
  length-set,
}
use noise_v.Base.Perms.{get_or-default}
use noise_v.MinHeap.{parent}

module _ {ℓ} {A : Type ℓ} (key : A → ℕ) where
  -- No entry from `lo` on is above one with a smaller key.
  abbrev pub IsHeapFrom : ℕ → A → List A → Type 0
  IsHeapFrom lo blank d =
      (c : ℕ)
      → 0 < c
      → c < length d
      → lo ≤ parent c
      → key (get_or d (parent c) blank) ≤ key (get_or d c blank)

  abbrev pub IsHeap : A → List A → Type 0
  IsHeap = IsHeapFrom 0

  -- The entries with `t` in the hole at `i`.
  abbrev pub filled : List A → ℕ → A → ℕ → A
  filled d i t c = if i == c then t else get_or d c t

  -- With a hole at `i`: the entries below the hole fit under the one above it.
  abbrev pub IsBridged : ℕ → List A → ℕ → A → Type 0
  IsBridged lo d i t =
      (c : ℕ)
      → 0 < c
      → c < length d
      → parent c ≡ i
      → 0 < i
      → lo ≤ parent i
      → key (get_or d (parent i) t) ≤ key (get_or d c t)

  pub IsHeapFrom-default : (lo : ℕ) (a b : A) (d : List A) → IsHeapFrom lo a d → IsHeapFrom lo b d
  IsHeapFrom-default lo a b d h = λ c p q r.
      rw (get_or-default d c b a q, get_or-default d (parent c) b a (omega arith)) (h c p q r)

  -- The order of the filled entries is the order of the list in which the hole is filled.
  pub IsHeapFrom-set :
      (lo : ℕ) (d : List A) (i : ℕ) (t : A)
      → i < length d
      → ((c : ℕ)
          → 0 < c
          → c < length d
          → lo ≤ parent c
          → key (filled d i t (parent c)) ≤ key (filled d i t c))
      → IsHeapFrom lo t (set d i t)
  IsHeapFrom-set lo d i t h f = λ c p q r.
      rw (get_or-set d i c t t h, get_or-set d i (parent c) t t h) (f c p (rw length-set at q) r)

  root_least_below :
      (n c : ℕ) (blank : A) (d : List A)
      → IsHeap blank d
      → c < n
      → c < length d
      → key (get_or d 0 blank) ≤ key (get_or d c blank)
  root_least_below zero c blank d h p q = absurd (omega arith)
  root_least_below (suc n) zero blank d h p q = omega arith
  root_least_below (suc n) (suc c) blank d h p q =
      let up = h (suc c) (omega arith) q (omega arith) in
      let rest = root_least_below n (parent (suc c)) blank d h (omega arith) (omega arith) in
      omega (arith, up, rest)

  -- The root of a heap has the least key.
  pub root_least :
      (c : ℕ) (blank : A) (d : List A)
      → IsHeap blank d
      → c < length d
      → key (get_or d 0 blank) ≤ key (get_or d c blank)
  root_least c blank d h q = root_least_below (suc c) c blank d h (omega arith) q
