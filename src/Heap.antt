-- ===== src/Heap.antt =====
-- kernel/src/memory/heap.cpp and kernel/include/memory/heap.hpp: the slab allocator. Addresses are numbers,
-- 0 the null pointer. `slabs` holds the slab headers by their addresses, `words` the pointers that the
-- allocator writes into free objects and before aligned ones. `VirtualManager` is not part of the model:
-- what its `allocate` will return is the list `supply`, with 0 for a failure or when it is used up; the
-- numbers of pages it is asked for are recorded in `requested`, the pointers its `free` is called with in
-- `returned`. Pages for the nodes of the radix map are always there. A lock is held for the whole of an
-- operation.
pub mod Headers
pub mod Slub
pub mod Release
pub mod Radix
pub mod Objects
pub mod Serves
pub mod Aligned
pub mod Faults
pub mod RunsDry
mod Tests
use noise_v.Base.{
  ℕ, zero, suc, ◌+◌, ◌-◌, ◌*◌, ◌/◌, ◌%◌, ◌^◌, Bool, true, false, Option, none, some, List, [], ◌∷◌,
  ltb, leb, ◌==◌, if◌then◌else◌,
}
use noise_v.Align.{align_down}

abbrev pub page_size : ℕ
page_size = 4096

abbrev pub put {ℓ} : {A : Type ℓ} → (ℕ → A) → ℕ → A → ℕ → A
put f i v j = if i == j then v else f j

pub record Slab : Type 0 where
  pub freelist : ℕ
  pub next : ℕ
  pub prev : ℕ
  pub page_addr : ℕ
  pub in_use : ℕ
  pub total : ℕ
  pub size_class : ℕ
  pub is_large : ℕ

-- `Slab()`
abbrev pub new_slab : Slab
new_slab = record {
  freelist = 0;
  next = 0;
  prev = 0;
  page_addr = 0;
  in_use = 0;
  total = 0;
  size_class = 0;
  is_large = 0;
}

-- A node of the radix map, or none for null.
abbrev pub Table {ℓ} : Type ℓ → Type ℓ
Table A = Option (ℕ → A)

abbrev pub Level1 : Type 0
Level1 = Table ℕ

abbrev pub Level2 : Type 0
Level2 = Table Level1

abbrev pub Level3 : Type 0
Level3 = Table Level2

abbrev pub HeapMap : Type 0
HeapMap = Table Level3

-- The entries of a node, which is created when it is null.
abbrev pub opened {ℓ} : {A : Type ℓ} → A → Table A → ℕ → A
opened null none i = null
opened null (some entries) i = entries i

abbrev pub index4 : ℕ → ℕ
index4 addr = addr / 2 ^ 39 % 512

abbrev pub index3 : ℕ → ℕ
index3 addr = addr / 2 ^ 30 % 512

abbrev pub index2 : ℕ → ℕ
index2 addr = addr / 2 ^ 21 % 512

abbrev pub index1 : ℕ → ℕ
index1 addr = addr / 2 ^ 12 % 512

-- `HeapMap::set`
unfoldable pub map_set : HeapMap → ℕ → ℕ → HeapMap
map_set root addr meta =
    let l4 = opened none root in
    let l3 = opened none (l4 (index4 addr)) in
    let l2 = opened none (l3 (index3 addr)) in
    let l1 = opened 0 (l2 (index2 addr)) in
    some (
      put l4 (index4 addr) (
        some
          (put l3 (index3 addr) (some (put l2 (index2 addr) (some (put l1 (index1 addr) meta)))))))

-- `HeapMap::get`
unfoldable pub map_get : HeapMap → ℕ → ℕ
map_get none addr = 0
map_get (some l4) addr = elim (l4 (index4 addr)) [
  | none ↦ 0
  | some l3 ↦ elim (l3 (index3 addr)) [
    | none ↦ 0
    | some l2 ↦ elim (l2 (index2 addr)) [ none ↦ 0 | some l1 ↦ l1 (index1 addr) ]
  ]
]

pub record TlbEntry : Type 0 where
  pub page_base : ℕ
  pub slab : ℕ

abbrev pub base_of : ℕ → ℕ
base_of addr = align_down addr page_size

-- The slot of an address in the `HeapTLB`, of 64 entries.
abbrev pub tlb_index : ℕ → ℕ
tlb_index addr = base_of addr / 2 ^ 12 % 64

unfoldable pub tlb_lookup : (ℕ → TlbEntry) → ℕ → ℕ
tlb_lookup entries addr =
    let e = entries (tlb_index addr) in if e.page_base == base_of addr then e.slab else 0

unfoldable pub tlb_insert : (ℕ → TlbEntry) → ℕ → ℕ → ℕ → TlbEntry
tlb_insert entries addr s =
    put entries (tlb_index addr) (record { page_base = base_of addr; slab = s })

-- The cache of one processor; `free_count` is the length of `free_buf`, the latest first.
pub record CpuCache : Type 0 where
  pub tlb : ℕ → TlbEntry
  pub active : ℕ → ℕ
  pub free_buf : ℕ → List ℕ

pub record MetadataAllocator : Type 0 where
  pub head : ℕ
  pub offset : ℕ
  pub free_pool : ℕ

pub record SlubAllocator : Type 0 where
  pub slabs : ℕ → Slab
  pub words : ℕ → ℕ
  pub map : HeapMap
  pub partial : ℕ → ℕ
  pub empty : ℕ → ℕ
  pub cpu_caches : ℕ → CpuCache
  pub meta : MetadataAllocator
  pub initialized : Bool
  pub supply : List ℕ
  pub requested : List ℕ
  pub returned : List ℕ
