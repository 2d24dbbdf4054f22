-- ===== src/Vector.antt =====
-- kernel/include/libs/vector.hpp: `Vector<T>` for trivially copyable `T` of `sizeof_t` bytes. `items` are
-- the entries from `start` to `finish`, `capacity` is the number that fit before `end_of_storage`.
-- `operator new` is the parameter `alloc`: whether it gives memory for that many bytes.
pub mod Growth
pub mod Erase
pub mod Remove
mod Tests
use noise_v.Base.{
  ℕ, zero, suc, ◌+◌, ◌-◌, ◌*◌, ◌/◌, ◌%◌, ◌^◌, Bool, true, false, not, ◌&&◌, Option, none, some,
  List, [], ◌∷◌, ◌++◌, ltb, leb, ◌==◌, if◌then◌else◌, length, get_elem?, get_or, set, take, drop,
  replicate,
}
use noise_v.MinHeap.{but_last}

pub record Vector {ℓ} (A : Type ℓ) : Type ℓ where
  pub items : List A
  pub capacity : ℕ

-- The argument `const T& value` of `remove`.
pub data Ref {ℓ} (A : Type ℓ) : Type ℓ where
  outside : (value : A) → Ref A
  entry : (i : ℕ) → Ref A

-- `size_type(-1) / sizeof(T)`
abbrev pub max_cap : ℕ → ℕ
max_cap sizeof_t = (2 ^ 64 - 1) / sizeof_t

unfoldable pub allocate_internal : (ℕ → Bool) → ℕ → ℕ → Bool
allocate_internal alloc sizeof_t count =
    if ltb (max_cap sizeof_t) count then false else alloc (count * sizeof_t)

-- `memmove` of `count` entries inside the vector, where both ranges are in it.
unfoldable pub memmove {ℓ} : {A : Type ℓ} → List A → ℕ → ℕ → ℕ → List A
memmove d to from count = take to d ++ take count (drop from d) ++ drop (to + count) d

module _ {ℓ} {A : Type ℓ} where
  abbrev pub empty_vector : Vector A
  empty_vector = record { items = []; capacity = 0 }

  abbrev pub size : Vector A → ℕ
  size v = length v.items

  unfoldable pub calculate_growth : ℕ → Vector A → ℕ → ℕ
  calculate_growth sizeof_t v extra_needed =
      let old_cap = v.capacity in
      let needed = (size v + extra_needed) % 2 ^ 64 in
      let half_more = old_cap + old_cap / 2 in
      let new_cap = if ltb half_more needed then needed else half_more in
      if ltb (max_cap sizeof_t - old_cap / 2) old_cap
      then max_cap sizeof_t
      else if ltb new_cap 8
      then 8
      else new_cap

  unfoldable pub realloc_insert : (ℕ → Bool) → ℕ → Vector A → ℕ → Bool × Vector A
  realloc_insert alloc sizeof_t v new_cap =
      if allocate_internal alloc sizeof_t new_cap
      then (true, record v { capacity = new_cap })
      else (false, v)

  unfoldable pub emplace_back_slow : (ℕ → Bool) → ℕ → Vector A → A → Vector A
  emplace_back_slow alloc sizeof_t v x =
      let new_cap = calculate_growth sizeof_t v 1 in
      if allocate_internal alloc sizeof_t new_cap
      then record { items = v.items ++ x ∷ []; capacity = new_cap }
      else v

  unfoldable pub emplace_back : (ℕ → Bool) → ℕ → Vector A → A → Vector A
  emplace_back alloc sizeof_t v x =
      if size v == v.capacity
      then emplace_back_slow alloc sizeof_t v x
      else record v { items = v.items ++ x ∷ [] }

  unfoldable pub pop_back : Vector A → Vector A
  pop_back v = record v { items = but_last v.items }

  unfoldable pub reserve : (ℕ → Bool) → ℕ → Vector A → ℕ → Vector A
  reserve alloc sizeof_t v n = if ltb v.capacity n then (realloc_insert alloc sizeof_t v n).1 else v

  -- `erase` at the index `p` of an entry.
  unfoldable pub erase : Vector A → ℕ → Vector A
  erase v p =
      let moved = if p + 1 == size v then v.items else memmove v.items p (p + 1) (size v - p - 1) in
      record v { items = take (size v - 1) moved }

  -- `erase` of the entries from `first` to before `last`.
  unfoldable pub erase_range : Vector A → ℕ → ℕ → Vector A
  erase_range v first last =
      let tail_count = size v - last in
      let moved = if ltb 0 tail_count then memmove v.items first last tail_count else v.items in
      if first == last then v else record v { items = take (size v - (last - first)) moved }

  -- `finish = start + new_size`, where the memory past the old end holds `raw`.
  unfoldable pub set_size : Vector A → ℕ → A → Vector A
  set_size v new_size raw = record v {
    items = take new_size v.items ++ replicate (new_size - size v) raw;
  }

  unfoldable pub resize_no_init : (ℕ → Bool) → ℕ → Vector A → ℕ → A → Bool × Vector A
  resize_no_init alloc sizeof_t v new_size raw =
      let growth = calculate_growth sizeof_t v (new_size - size v) in
      let (done, v1) = realloc_insert alloc sizeof_t v growth in
      if ltb v.capacity new_size
      then if done then (true, set_size v1 new_size raw) else (false, v)
      else (true, set_size v new_size raw)

  -- What `resize` writes over the entries from `old_size` on.
  unfoldable pub overwrite : List A → ℕ → A → List A
  overwrite d old_size blank = take old_size d ++ replicate (length d - old_size) blank

  unfoldable pub resize : (ℕ → Bool) → ℕ → Vector A → ℕ → A → A → Vector A
  resize alloc sizeof_t v new_size raw blank =
      let old_size = size v in
      let v1 = (resize_no_init alloc sizeof_t v new_size raw).1 in
      record v1 {
        items =
            if (size v1 == new_size) && ltb old_size new_size
            then overwrite v1.items old_size blank
            else v1.items;
      }

  abbrev pub clear : Vector A → Vector A
  clear v = record v { items = [] }

  -- The copy constructor.
  unfoldable pub copy : (ℕ → Bool) → ℕ → Vector A → Vector A
  copy alloc sizeof_t other =
      if allocate_internal alloc sizeof_t (size other)
      then record { items = other.items; capacity = size other }
      else empty_vector

  -- The copy assignment to another vector.
  unfoldable pub assign : (ℕ → Bool) → ℕ → Vector A → Vector A → Vector A
  assign alloc sizeof_t v other =
      if leb (size other) v.capacity
      then record v { items = other.items }
      else if allocate_internal alloc sizeof_t (size other)
      then record { items = other.items; capacity = size other }
      else v

  -- The move constructor and the move assignment from another vector, which is left empty.
  abbrev pub move_from : Vector A → Vector A × Vector A
  move_from other = (other, empty_vector)

  abbrev pub at : Vector A → ℕ → Option A
  at v index = if leb (size v) index then none else get_elem? v.items index

  -- The first loop of `remove`: the place of the first entry that equals `value`.
  unfoldable pub find_first : (A → Bool) → List A → ℕ
  find_first is_value [] = 0
  find_first is_value (x ∷ xs) =
      let rest = find_first is_value xs in if is_value x then 0 else rest + 1

  -- What a reference to an entry, or to a value elsewhere, gives while the entries are `d`.
  abbrev pub referent : A → Ref A → List A → A
  referent blank (outside value) d = value
  referent blank (entry i) d = get_or d i blank

  module _ (equals : A → A → Bool) (blank : A) (value : Ref A) where
    -- The second loop, with `rounds` entries left to read. It reads `value` anew in each round.
    unfoldable pub compact : ℕ → List A → ℕ → ℕ → ℕ × List A
    compact zero d read write = (write, d)
    compact (suc rounds) d read write =
        let item = get_or d read blank in
        elim (equals item (referent blank value d)) [
          | true ↦ compact rounds d (read + 1) write
          | false ↦ compact rounds (set d write item) (read + 1) (write + 1)
        ]

    unfoldable pub remove : Vector A → ℕ × Vector A
    remove v =
        let first = find_first (λ item. equals item (referent blank value v.items)) v.items in
        let (write, d) = compact (size v - first - 1) v.items (first + 1) first in
        if first == size v then (0, v) else (size v - write, record v { items = take write d })
