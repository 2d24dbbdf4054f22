-- ===== src/MinHeap/Ops.antt =====
-- The operations of the heap of kernel/include/libs/min_heap.hpp.
use mathlib.Core.List.{Perm}
use mathlib.Core.List.Perm
use noise_v.Base.{
  ℕ, zero, suc, ◌-◌, ◌≤◌, ◌<◌, ◌≡◌, refl, ap, false, some, List, [], ◌∷◌, ◌++◌, arith, ◌==◌,
  if◌then◌else◌, length, get_or, set, get_or-set, length-set, length-append, get_or-append_left,
  get_or-append_end,
}
use noise_v.Base.Perms.{get_or-default, concat-perm}
use noise_v.MinHeap.{parent, but_last, sift_down, insert, extract_min}
use noise_v.MinHeap.Order.{IsHeap, IsHeapFrom-default, root_least}
use noise_v.MinHeap.Up.{UpInv, sift_up_restores}
use noise_v.MinHeap.Down.{DownInv, sift_down_restores}

-- `pop_back` and the last entry.
pub but_last-concat {ℓ} :
    {A : Type ℓ} (x : A) (xs : List A) (d : A)
    → but_last (x ∷ xs) ++ get_or (x ∷ xs) (length xs) d ∷ [] ≡ x ∷ xs
unfolding but_last
but_last-concat x [] d = refl
but_last-concat x (y ∷ xs) d = ap (λ l. x ∷ l) (but_last-concat y xs d)

pub length-but_last {ℓ} :
    {A : Type ℓ} (x : A) (xs : List A) → length (but_last (x ∷ xs)) ≡ length xs
unfolding but_last
length-but_last x [] = refl
length-but_last x (y ∷ xs) = ap suc (length-but_last y xs)

pub get_or-but_last {ℓ} :
    {A : Type ℓ} (x : A) (xs : List A) (c : ℕ) (d : A)
    → c < length xs
    → get_or (but_last (x ∷ xs)) c d ≡ get_or (x ∷ xs) c d
unfolding but_last
get_or-but_last x [] c d h = absurd (omega arith)
get_or-but_last x (y ∷ xs) zero d h = refl
get_or-but_last x (y ∷ xs) (suc c) d h = get_or-but_last y xs c d (omega arith)

module _ {ℓ} {A : Type ℓ} (key : A → ℕ) where
  -- `insert` keeps the heap order and adds exactly the value.
  pub insert_lem :
      (d : List A) (value : A)
      → IsHeap key value d
      → IsHeap key value (insert key d value) × Perm (insert key d value) (value ∷ d)
  unfolding insert
  insert_lem d value h =
      let d' = d ++ value ∷ [] in
      let n = length d in
      let size = length-append d (value ∷ []) in
      let last : length d' - 1 ≡ n = omega (arith, size) in
      let here : get_or d' n value ≡ value = get_or-append_end d value value in
      let read = λ (c : ℕ). get_or-append_left d (value ∷ []) c value in
      let start : UpInv key d' n value = record {
        inside = omega (arith, size);
        edges = λ c p q ne. ground (arith, size, read c, read (parent c), h c);
        bridged = λ c p q e pos _. absurd (omega (arith, size, p, q, e));
      } in
      let (heap, perm) = sift_up_restores key d' n value (rw here start) in
      rw last (heap, Perm.trans perm (concat-perm d value))

  -- Writing `v` at `i` of a heap leaves a list whose order can only be wrong there.
  pub set-DownInv :
      (d : List A) (i : ℕ) (v blank : A)
      → IsHeap key blank d
      → i < length d
      → (0 < i → key (get_or d (parent i) blank) ≤ key v)
      → DownInv key 0 (set d i v) i v
  set-DownInv d i v blank h inside above =
      let size = length-set d i v in
      let read = λ (c : ℕ). get_or-set d i c v v inside in
      let plain = λ (c : ℕ). get_or-default d c blank v in
      record {
        inside = omega (arith, size, inside);
        from = omega arith;
        edges = λ c p q r ne. ground (
          arith,
          size,
          inside,
          read c,
          read (parent c),
          plain c,
          plain (parent c),
          h c,
          above,
          ap (λ j. get_or d (parent j) blank),
        );
        bridged = λ c p q e pos r. ground (
          arith,
          size,
          inside,
          read c,
          read (parent i),
          plain c,
          plain (parent i),
          plain i,
          h c,
          h i,
          ap (λ j. get_or d j blank) e,
        );
      }

  pub IsHeap-but_last :
      (x : A) (xs : List A) (blank : A)
      → IsHeap key blank (x ∷ xs)
      → IsHeap key blank (but_last (x ∷ xs))
  IsHeap-but_last x xs blank h = λ c p q r.
      let size = length-but_last x xs in
      rw
        (
          get_or-but_last x xs c blank (omega (arith, size)),
          get_or-but_last x xs (parent c) blank (omega (arith, size)),
        )
        (h c p (omega (arith, size)) r)

  -- `extract_min` of a heap with an entry returns one with the least key and leaves a heap of the
  -- others.
  pub extract_min_lem :
      (x : A) (xs : List A)
      → IsHeap key x (x ∷ xs)
      → (d : List A) × (extract_min key (x ∷ xs) ≡ some (x, d))
        × IsHeap key x d
        × Perm (x ∷ d) (x ∷ xs)
        × ((c : ℕ) → c < suc (length xs) → key x ≤ key (get_or (x ∷ xs) c x))
  unfolding extract_min but_last
  extract_min_lem x [] h = (
    [],
    refl,
    (λ c p q r. absurd (omega arith)),
    Perm.refl (x ∷ []),
    λ c p. root_least key c x (x ∷ []) h p,
  )
  extract_min_lem x (y ∷ ys) h =
      let last = get_or (y ∷ ys) (length ys) x in
      let d = but_last (x ∷ y ∷ ys) in
      let d' = set d 0 last in
      let size = length-but_last x (y ∷ ys) in
      let some_left : (length d == 0) ≡ false = ground (arith, size) in
      let (heap, perm) = sift_down_restores key 0 d' 0 last (
        set-DownInv d 0 last x (IsHeap-but_last x (y ∷ ys) x h) (omega arith)
          (λ p. absurd (omega arith))) in
      let whole = but_last-concat y ys x in
      (
        sift_down key d' 0 last,
        ap (λ b. some (x, (if b then d else sift_down key d' 0 last))) some_left,
        IsHeapFrom-default key 0 last x (sift_down key d' 0 last) heap,
        Perm.cons x
            (Perm.trans perm (rw (whole) at (Perm.symm (concat-perm (but_last (y ∷ ys)) last)))),
        λ c p. root_least key c x (x ∷ y ∷ ys) h p,
      )
