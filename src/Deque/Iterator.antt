-- ===== src/Deque/Iterator.antt =====
-- `DequeIterator` of kernel/include/libs/deque.hpp, over the map of one deque. `cur` is the distance of
-- the pointer `cur` from the pointer `first`, in entries; `first` is the block behind `node` or null. Where
-- the blocks stand, which `operator new` chooses, is a parameter.
pub mod Index
pub mod Traversal
use noise_v.Base.{
  ℕ, zero, suc, ◌+◌, ◌-◌, ◌*◌, ◌/◌, ◌%◌, max, Bool, true, false, ◌&&◌, Option, none, some, List, [],
  ◌∷◌, ltb, leb, ◌==◌, if◌then◌else◌, ◌>>=◌,
}
use noise_v.Deque.{Deque, block_size, fetch, empty_deque, emplace_back, min_capacity}

pub record Iterator : Type 0 where
  pub node : ℕ
  pub cur : ℕ
  pub null : Bool

-- The address of the block behind each entry of the map, and `sizeof(T)`.
pub record Memory : Type 0 where
  pub address : ℕ → ℕ
  pub bytes : ℕ

-- The pointer `cur`.
unfoldable pub pointer : Memory → Iterator → ℕ
pointer mem it = (if it.null then 0 else mem.address it.node) + it.cur * mem.bytes

-- `left - right` where it is not negative.
unfoldable pub distance : Iterator → Iterator → ℕ
distance left right =
    block_size * (left.node - right.node) + left.cur + (block_size - right.cur) - block_size

unfoldable pub same : Memory → Iterator → Iterator → Bool
same mem it other = pointer mem it == pointer mem other

module _ {ℓ} {A : Type ℓ} where
  abbrev pub is_null : Option (ℕ → A) → Bool
  is_null none = true
  is_null (some block) = false

  -- The constructor, which reads `*node`.
  unfoldable pub make : Deque A → ℕ → ℕ → Option Iterator
  make d node offset =
      if leb d.map_capacity node
      then none
      else some (record {
        node = node;
        cur = if is_null (d.map node) then 0 else offset;
        null = is_null (d.map node);
      })

  unfoldable pub begin : Deque A → Option Iterator
  begin d = make d d.start_block d.start_offset

  unfoldable pub end : Deque A → Option Iterator
  end d = make d d.end_block d.end_offset

  -- `set_node`, followed by `cur = first + offset`.
  unfoldable pub set_node : Deque A → ℕ → ℕ → Option Iterator
  set_node d node offset =
      if leb d.map_capacity node
      then none
      else some (record { node = node; cur = offset; null = is_null (d.map node) })

  unfoldable pub deref : Deque A → Iterator → Option A
  deref d it = if it.null then none else fetch d it.node it.cur

  unfoldable pub increment : Deque A → Iterator → Option Iterator
  increment d it =
      if it.cur + 1 == block_size
      then set_node d (it.node + 1) 0
      else some (record it { cur = it.cur + 1 })

  unfoldable pub decrement : Deque A → Iterator → Option Iterator
  decrement d it =
      if it.cur == 0
      then if it.node == 0 then none else set_node d (it.node - 1) (block_size - 1)
      else some (record it { cur = it.cur - 1 })

  -- `operator+=` of a number that is not negative.
  unfoldable pub advance : Deque A → Iterator → ℕ → Option Iterator
  advance d it n =
      let offset = it.cur + n in
      if ltb offset block_size
      then some (record it { cur = offset })
      else set_node d (it.node + offset / block_size) (offset % block_size)

  -- `operator-=` of a number that is not negative: `operator+=` with `offset = cur - n`.
  unfoldable pub retreat : Deque A → Iterator → ℕ → Option Iterator
  retreat d it n =
      let below = n - it.cur in
      let nodes = (below - 1) / block_size + 1 in
      if leb n it.cur
      then if ltb (it.cur - n) block_size
        then some (record it { cur = it.cur - n })
        else set_node d (it.node + (it.cur - n) / block_size) ((it.cur - n) % block_size)
      else if ltb it.node nodes
      then none
      else set_node d (it.node - nodes) (nodes * block_size - below)

  -- `operator[]`.
  unfoldable pub get : Deque A → ℕ → Option A
  get d index = do it ← begin d; entry ← advance d it index; deref d entry

  unfoldable pub front : Deque A → Option A
  front d = begin d >>= deref d

  unfoldable pub back : Deque A → Option A
  back d = do it ← end d; entry ← retreat d it 1; deref d entry

  -- What `for (const auto& item : d)` visits from `it` on; `none` when it does not end, or reads
  -- through null or past the map, within `fuel` rounds.
  unfoldable pub visit : Memory → ℕ → Deque A → Iterator → Iterator → Option (List A)
  visit mem zero d it last = none
  visit mem (suc fuel) d it last =
      let rest = increment d it >>= λ next. visit mem fuel d next last in
      if same mem it last then some [] else do item ← deref d it; items ← rest; some (item ∷ items)

  unfoldable pub traverse : Memory → ℕ → Deque A → Option (List A)
  traverse mem fuel d = do first ← begin d; last ← end d; visit mem fuel d first last

  unfoldable pub push_all : A → Deque A → List A → Option (Deque A)
  push_all blank d [] = some d
  push_all blank d (item ∷ items) = emplace_back blank d item >>= λ d1. push_all blank d1 items

  -- The copy constructor; `mem` is where the blocks of `other` stand.
  unfoldable pub copy : Memory → ℕ → A → Deque A → Option (Deque A)
  copy mem fuel blank other = do
    d ← empty_deque blank (max min_capacity other.map_capacity)
    items ← traverse mem fuel other
    push_all blank d items
