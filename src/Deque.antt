-- ===== src/Deque.antt =====
-- kernel/include/libs/deque.hpp: `Deque<T>`, blocks of eight entries behind a map of pointers. The map
-- gives for an index the block that its pointer leads to, or `none` for null; no two entries of a map
-- lead to one block. `blank` is the value `T()` of a new block's entries. What reads or writes through
-- a null pointer or past the end of the map gives `none`.
pub mod Cells
pub mod Content
pub mod Back
pub mod Front
pub mod Resize
pub mod Runs
pub mod Iterator
mod Tests
use noise_v.Base.{
  ℕ, zero, suc, ◌+◌, ◌-◌, ◌*◌, ◌/◌, max, ◌&&◌, ◌||◌, Option, none, some, List, [], ◌∷◌, ltb, leb,
  ◌==◌, if◌then◌else◌, ◌>>=◌,
}

abbrev pub block_size : ℕ
block_size = 8

abbrev pub min_capacity : ℕ
min_capacity = 8

pub record Deque {ℓ} (A : Type ℓ) : Type ℓ where
  pub map : ℕ → Option (ℕ → A)
  pub map_capacity : ℕ
  pub start_block : ℕ
  pub start_offset : ℕ
  pub end_block : ℕ
  pub end_offset : ℕ
  pub element_count : ℕ

abbrev pub put {ℓ} : {A : Type ℓ} → (ℕ → A) → ℕ → A → ℕ → A
put f i v j = if i == j then v else f j

module _ {ℓ} {A : Type ℓ} where
  -- `map[b][o]`, read.
  unfoldable pub fetch : Deque A → ℕ → ℕ → Option A
  fetch d b o =
      if leb d.map_capacity b || leb block_size o
      then none
      else (d.map b >>= λ block. some (block o))

  -- `map[b][o]`, written.
  unfoldable pub write : Deque A → ℕ → ℕ → A → Option (Deque A)
  write d b o v =
      if leb d.map_capacity b || leb block_size o
      then none
      else (d.map b >>= λ block. some (record d { map = put d.map b (some (put block o v)) }))

  unfoldable pub new_block : A → (ℕ → Option (ℕ → A)) → ℕ → Option (ℕ → A) → ℕ → Option (ℕ → A)
  new_block blank map map_index none = put map map_index (some (λ _. blank))
  new_block blank map map_index (some block) = map

  unfoldable pub ensure_block : A → Deque A → ℕ → Option (Deque A)
  ensure_block blank d map_index =
      if leb d.map_capacity map_index
      then none
      else some (record d { map = new_block blank d.map map_index (d.map map_index) })

  -- The map that `memcpy` makes of `count` entries, moved from `from` to `to` of a map of nulls.
  unfoldable pub moved_map : (ℕ → Option (ℕ → A)) → ℕ → ℕ → ℕ → ℕ → Option (ℕ → A)
  moved_map old from to count i =
      if leb to i && ltb i (to + count) then old (from + (i - to)) else none

  -- `end_block - start_block + 1` in `size_t`, where `start_block` may be `end_block + 1`.
  abbrev pub num_blocks : Deque A → ℕ
  num_blocks d = d.end_block + 1 - d.start_block

  unfoldable pub with_capacity : Deque A → ℕ → Deque A
  with_capacity d new_capacity =
      let used = num_blocks d in
      let new_start_block = (new_capacity - used) / 2 in
      record d {
        map = moved_map d.map d.start_block new_start_block used;
        start_block = new_start_block;
        end_block = new_start_block + used - 1;
        map_capacity = new_capacity;
      }

  unfoldable pub resize_map : Deque A → Deque A
  resize_map d = with_capacity d (max min_capacity (d.map_capacity * 2))

  unfoldable pub shrink_to_fit : Deque A → Deque A
  shrink_to_fit d =
      if ltb (num_blocks d) (d.map_capacity / 4) && ltb min_capacity d.map_capacity
      then with_capacity d (max min_capacity (num_blocks d * 2))
      else d

  unfoldable pub empty_deque : A → ℕ → Option (Deque A)
  empty_deque blank capacity =
      ensure_block blank
        (record {
          map = λ _. none;
          map_capacity = capacity;
          start_block = capacity / 2;
          start_offset = block_size / 2;
          end_block = capacity / 2;
          end_offset = block_size / 2;
          element_count = 0;
        })
        (capacity / 2)

  -- The constructor.
  unfoldable pub new_deque : A → Option (Deque A)
  new_deque blank = empty_deque blank min_capacity

  -- The next block, when the last one is full.
  unfoldable pub room_back : A → Deque A → Option (Deque A)
  room_back blank d =
      let d1 = if d.end_block + 1 == d.map_capacity then resize_map d else d in
      if d.end_offset == block_size
      then ensure_block blank (record d1 { end_block = d1.end_block + 1; end_offset = 0 })
          (d1.end_block + 1)
      else some d

  unfoldable pub emplace_back : A → Deque A → A → Option (Deque A)
  emplace_back blank d v = do
    d1 ← room_back blank d
    d2 ← write d1 d1.end_block d1.end_offset v
    some (record d2 { end_offset = d2.end_offset + 1; element_count = d2.element_count + 1 })

  unfoldable pub room_front : A → Deque A → Option (Deque A)
  room_front blank d =
      let d1 = if d.start_block == 0 then resize_map d else d in
      if d.start_offset == 0
      then ensure_block blank
          (record d1 { start_block = d1.start_block - 1; start_offset = block_size })
          (d1.start_block - 1)
      else some d

  unfoldable pub emplace_front : A → Deque A → A → Option (Deque A)
  emplace_front blank d v = do
    d1 ← room_front blank d
    d2 ← write d1 d1.start_block (d1.start_offset - 1) v
    some (record d2 { start_offset = d2.start_offset - 1; element_count = d2.element_count + 1 })

  -- To the end of the block before, from the start of a block.
  unfoldable pub step_back : Deque A → Deque A
  step_back d =
      if d.end_offset == 0
      then record d { end_block = d.end_block - 1; end_offset = block_size }
      else d

  -- To the start of the next block, from the end of a block.
  unfoldable pub step_front : Deque A → Deque A
  step_front d =
      if d.start_offset == block_size
      then record d { start_block = d.start_block + 1; start_offset = 0 }
      else d

  -- The entry that goes is destroyed through `map[b][o]`.
  unfoldable pub take_back : Deque A → Option (Deque A)
  take_back d = do
    _ ← fetch d d.end_block (d.end_offset - 1)
    some (record d { end_offset = d.end_offset - 1; element_count = d.element_count - 1 })

  unfoldable pub pop_back : Deque A → Option (Deque A)
  pop_back d = if d.element_count == 0 then some d else take_back (step_back d)

  unfoldable pub pop_front : Deque A → Option (Deque A)
  pop_front d =
      let d1 = step_front (record d { start_offset = d.start_offset + 1 }) in
      if d.element_count == 0 then some d else do
        _ ← fetch d d.start_block d.start_offset
        some (record d1 { element_count = d1.element_count - 1 })

  -- `clear` and the first loop of `resize`, with `rounds` entries to take off.
  unfoldable pub pop_many : ℕ → Deque A → Option (Deque A)
  pop_many zero d = some d
  pop_many (suc rounds) d = pop_back d >>= pop_many rounds

  unfoldable pub push_many : A → ℕ → Deque A → A → Option (Deque A)
  push_many blank zero d v = some d
  push_many blank (suc rounds) d v = do d1 ← emplace_back blank d v; push_many blank rounds d1 v

  unfoldable pub clear : Deque A → Option (Deque A)
  clear d = pop_many d.element_count d

  unfoldable pub resize : A → Deque A → ℕ → A → Option (Deque A)
  resize blank d new_size value =
      if new_size == d.element_count
      then some d
      else if ltb new_size d.element_count
      then pop_many (d.element_count - new_size) d
      else push_many blank (new_size - d.element_count) d value

  -- The deque that a move construction leaves behind; its map is a null pointer.
  unfoldable pub moved_from : Deque A
  moved_from = record {
    map = λ _. none;
    map_capacity = 0;
    start_block = 0;
    start_offset = 0;
    end_block = 0;
    end_offset = 0;
    element_count = 0;
  }
