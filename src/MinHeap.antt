-- ===== src/MinHeap.antt =====
-- kernel/include/libs/min_heap.hpp: `MinHeap<T, D>` over a vector, at the arity D = 4 that every use
-- of it has. `operator<` of `T` compares the numbers that `key` gives. The vector is a list, and a
-- moved-from entry keeps its old value until it is overwritten.
pub mod Order
pub mod Up
pub mod Down
pub mod Ops
pub mod Erase
mod Tests
use noise_v.Base.{
  ℕ, zero, suc, ◌+◌, ◌-◌, ◌*◌, ◌/◌, Bool, true, false, not, ◌&&◌, Option, none, some, List, [], ◌∷◌,
  ◌++◌, ltb, leb, ◌==◌, if◌then◌else◌, length, get_or, set, take,
}

abbrev pub arity : ℕ
arity = 4

abbrev pub parent : ℕ → ℕ
parent index = (index - 1) / arity

abbrev pub child_start : ℕ → ℕ
child_start index = arity * index + 1

abbrev pub child_end {ℓ} : {A : Type ℓ} → List A → ℕ → ℕ
child_end d index =
    let last = child_start index + arity in if ltb (length d) last then length d else last

-- `pop_back`
unfoldable pub but_last {ℓ} : {A : Type ℓ} → List A → List A
but_last [] = []
but_last (x ∷ []) = []
but_last (x ∷ y ∷ xs) = x ∷ but_last (y ∷ xs)

-- `std::remove_if` followed by the erasure of the tail: what `pred` rejects stays, in order.
unfoldable pub remove_if {ℓ} : {A : Type ℓ} → (A → Bool) → List A → List A
remove_if pred [] = []
remove_if pred (x ∷ xs) = let rest = remove_if pred xs in if pred x then rest else x ∷ rest

module _ {ℓ} {A : Type ℓ} (key : A → ℕ) where
  abbrev pub less : A → A → Bool
  less a b = ltb (key a) (key b)

  -- The `while` of `sift_up`, with the hole at `index` and `target` in hand; reads in range never
  -- use the default `target`.
  unfoldable pub up_loop : ℕ → List A → ℕ → A → List A
  up_loop zero d index target = d
  up_loop (suc fuel) d index target =
      let above = get_or d (parent index) target in
      elim (ltb 0 index && less target above) [
        | true ↦ up_loop fuel (set d index above) (parent index) target
        | false ↦ set d index target
      ]

  unfoldable pub sift_up : List A → ℕ → A → List A
  sift_up d index blank =
      if index == 0 then d else up_loop (suc index) d index (get_or d index blank)

  -- The `for` of `sift_down` over the other children, `rounds` of them from `i` on.
  unfoldable pub smallest_loop : ℕ → List A → ℕ → ℕ → A → ℕ
  smallest_loop zero d i smallest target = smallest
  smallest_loop (suc rounds) d i smallest target =
      smallest_loop rounds d (i + 1)
        (if less (get_or d i target) (get_or d smallest target) then i else smallest) target

  unfoldable pub smallest_child : List A → ℕ → A → ℕ
  smallest_child d index target =
      let first = child_start index in
      smallest_loop (child_end d index - (first + 1)) d (first + 1) first target

  unfoldable pub down_loop : ℕ → List A → ℕ → A → List A
  down_loop zero d index target = d
  down_loop (suc fuel) d index target =
      let child = smallest_child d index target in
      let below = get_or d child target in
      elim (not (leb (length d) (child_start index)) && less below target) [
        | true ↦ down_loop fuel (set d index below) child target
        | false ↦ set d index target
      ]

  unfoldable pub sift_down : List A → ℕ → A → List A
  sift_down d index blank =
      if leb (length d) index then d else down_loop (suc (length d)) d index (get_or d index blank)

  unfoldable pub insert : List A → A → List A
  insert d value = let d' = d ++ value ∷ [] in sift_up d' (length d' - 1) value

  -- The minimum and the rest, or `none` for the `false` of an empty heap.
  unfoldable pub extract_min : List A → Option (A × List A)
  extract_min [] = none
  extract_min (x ∷ xs) =
      let last = get_or (x ∷ xs) (length xs) x in
      let d = but_last (x ∷ xs) in
      some (x, (if length d == 0 then d else sift_down (set d 0 last) 0 last))

  -- `erase` at the position of `index`, without the iterator that it returns.
  unfoldable pub erase : List A → ℕ → A → List A
  erase m_data index blank =
      let last = get_or m_data (length m_data - 1) blank in
      let d = but_last m_data in
      let d' = set d index last in
      if leb (length m_data) index
      then m_data
      else if index == length d
      then d
      else if ltb 0 index && less (get_or d' index blank) (get_or d' (parent index) blank)
      then sift_up d' index blank
      else sift_down d' index blank

  -- The `for` of `erase_if`, downwards from `i - 1`.
  unfoldable pub rebuild : ℕ → List A → A → List A
  rebuild zero d blank = d
  rebuild (suc i) d blank = rebuild i (sift_down d i blank) blank

  -- The number of entries that go, and the heap of those that stay.
  unfoldable pub erase_if : (A → Bool) → List A → A → ℕ × List A
  erase_if pred m_data blank =
      let d = remove_if pred m_data in
      let count = length m_data - length d in
      (
        count,
        if ltb 0 count && ltb 1 (length d) then rebuild ((length d - 2) / arity + 1) d blank else d,
      )

  -- The constructor from a range, and `clear`.
  unfoldable pub from_range : List A → A → List A
  from_range m_data blank =
      if ltb 1 (length m_data)
      then rebuild ((length m_data - 2) / arity + 1) m_data blank
      else m_data

  abbrev pub clear : List A → List A
  clear m_data = []
