-- ===== src/Ipc/Manager.antt =====
-- `PortManager` of kernel/src/task/ipc.cpp: a table of ports behind handles that carry a generation.
-- A port is reached through a pointer into a store, so that what a handle gives stays shared.
pub mod Table
pub mod Lookup
pub mod Stale
pub mod Faults
use noise_v.Base.{
  ℕ, suc, ◌+◌, ◌-◌, ◌*◌, ◌/◌, ◌%◌, ◌^◌, bit_and, bit_or, Bool, true, false, not, ◌&&◌, Option, none,
  some, List, [], ◌∷◌, ◌++◌, leb, ◌==◌, if◌then◌else◌, length, get_or, set,
}
use noise_v.Ipc.Port.{Port, new_port, close}

-- `PortEntry`; a pointer to a port is a number, and `none` is `nullptr`.
pub record PortEntry : Type 0 where
  pub port : Option ℕ
  pub generation : ℕ

abbrev pub empty_entry : PortEntry
empty_entry = record { port = none; generation = 0 }

-- The head of `free_indices` is the back of the vector. `heap` holds the ports that `new` has made
-- and `delete` has not yet taken; `fresh` is the next pointer that `new` returns.
pub record Manager : Type 0 where
  pub table : List PortEntry
  pub free_indices : List ℕ
  pub heap : ℕ → Option Port
  pub fresh : ℕ

abbrev pub entry : Manager → ℕ → PortEntry
entry m i = get_or m.table i empty_entry

-- `(static_cast<size_t>(generation) << 32) | index`
unfoldable pub make_handle : ℕ → ℕ → ℕ
make_handle generation index = bit_or (generation * 2 ^ 32) index

-- `handle & 0xFFFFFFFF` and `handle >> 32`
unfoldable pub handle_index : ℕ → ℕ
handle_index handle = bit_and handle (2 ^ 32 - 1)

unfoldable pub handle_gen : ℕ → ℕ
handle_gen handle = handle / 2 ^ 32 % 2 ^ 32

abbrev pub update : (ℕ → Option Port) → ℕ → Option Port → ℕ → Option Port
update h p v q = if p == q then v else h q

-- `table[index].port = new IPCPort(index)`, and the handle of the entry.
unfoldable pub install : Manager → ℕ → ℕ × Manager
install m index =
    let e = entry m index in
    (
      make_handle e.generation index,
      record m {
        table = set m.table index (record e { port = some m.fresh });
        heap = update m.heap m.fresh (some (new_port index));
        fresh = suc m.fresh;
      },
    )

-- The slot that `create_port` takes: the back of `free_indices`, or one more at the table's end.
unfoldable pub take_slot : List ℕ → Manager → ℕ × Manager
take_slot [] m = (length m.table % 2 ^ 32, record m { table = m.table ++ empty_entry ∷ [] })
take_slot (index ∷ rest) m = (index, record m { free_indices = rest })

unfoldable pub create_port : Manager → ℕ × Manager
create_port m = let (index, m') = take_slot m.free_indices m in install m' index

unfoldable pub get_port : Manager → ℕ → Option ℕ
get_port m handle =
    let index = handle_index handle in
    if leb (length m.table) index
    then none
    else if (entry m index).generation == handle_gen handle
    then (entry m index).port
    else none

unfoldable pub is_valid_port : Manager → ℕ → Bool
is_valid_port m handle =
    let index = handle_index handle in
    if leb (length m.table) index
    then false
    else if (entry m index).generation == handle_gen handle
    then elim (entry m index).port [ none ↦ false | some _ ↦ true ]
    else false

-- The threads that `target->close()` wakes.
unfoldable pub close_target : Manager → Option ℕ → List ℕ
close_target m none = []
close_target m (some p) = elim (m.heap p) [ none ↦ [] | some port ↦ (close port).0 ]

-- `delete target`
unfoldable pub delete_target : (ℕ → Option Port) → Option ℕ → ℕ → Option Port
delete_target h none = h
delete_target h (some p) = update h p none

-- The threads that are woken, and the new state.
unfoldable pub destroy_port : Manager → ℕ → List ℕ × Manager
destroy_port m handle =
    let index = handle_index handle in
    let e = entry m index in
    if leb (length m.table) index
    then ([], m)
    else if e.generation == handle_gen handle
    then (
      close_target m e.port,
      record m {
        table =
            set m.table index (record { port = none; generation = (e.generation + 1) % 2 ^ 32 });
        free_indices = index ∷ m.free_indices;
        heap = delete_target m.heap e.port;
      },
    )
    else ([], m)

-- What clients ask of the table, with any handle.
pub data TableCall : Type 0 where
  creates : TableCall
  destroys : ℕ → TableCall

unfoldable pub table_step : Manager → TableCall → Manager
table_step m creates = (create_port m).1
table_step m (destroys handle) = (destroy_port m handle).1

unfoldable pub table_run : Manager → List TableCall → Manager
table_run m [] = m
table_run m (c ∷ cs) = table_run (table_step m c) cs
