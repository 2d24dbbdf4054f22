-- ===== src/Ipc/Manager/Stale.antt =====
-- A destroyed handle of `PortManager` stays dead while its slot is used again.
use noise_v.Base.{
  ℕ, zero, suc, ◌+◌, ◌%◌, ◌^◌, ◌≤◌, ◌<◌, ◌≡◌, refl, ap, ◌∙◌, false, Option, none, some, List, [],
  ◌∷◌, arith, length, set, get_or, get_or-set, get_or-concat_default,
}
use noise_v.Ipc.Manager.Table.{get_port-Resolves, destroy_port_lem}
use noise_v.Ipc.Manager.{
  PortEntry, Manager, empty_entry, entry, handle_index, handle_gen, take_slot, install, create_port,
  get_port, is_valid_port, destroy_port, TableCall, creates, destroys, table_step, table_run,
}

-- The generation of a slot.
abbrev pub gen : Manager → ℕ → ℕ
gen m i = (entry m i).generation

-- The slot of the handle has moved on to a later generation.
abbrev pub IsStale : Manager → ℕ → Type 0
IsStale m handle = handle_gen handle < gen m (handle_index handle)

gen-set :
    (t : List PortEntry) (i j : ℕ) (v : Option ℕ)
    → (get_or (set t i (record (get_or t i empty_entry) { port = v })) j empty_entry).generation
      ≡ (get_or t j empty_entry).generation
gen-set [] i j v = refl
gen-set (x ∷ t) zero zero v = refl
gen-set (x ∷ t) zero (suc j) v = refl
gen-set (x ∷ t) (suc i) zero v = refl
gen-set (x ∷ t) (suc i) (suc j) v = gen-set t i j v

gen-take_slot : (free : List ℕ) (m : Manager) (i : ℕ) → gen (take_slot free m).1 i ≡ gen m i
unfolding take_slot
gen-take_slot [] m i =
    ap (λ (e : PortEntry). e.generation) (get_or-concat_default m.table i empty_entry)
gen-take_slot (x ∷ rest) m i = refl

pub gen-create_port : (m : Manager) (i : ℕ) → gen (create_port m).1 i ≡ gen m i
unfolding create_port install
gen-create_port m i =
    let m' = (take_slot m.free_indices m).1 in
    gen-set m'.table (take_slot m.free_indices m).0 i (some m'.fresh)
    ∙ gen-take_slot m.free_indices m i

gen-destroy_port :
    (m : Manager) (handle i : ℕ)
    → gen m i + 1 < 2 ^ 32
    → (gen m i ≤ gen (destroy_port m handle).1 i) × (gen (destroy_port m handle).1 i ≤ gen m i + 1)
unfolding destroy_port
gen-destroy_port m handle i h =
    let index = handle_index handle in
    ground (
      arith,
      get_or-set m.table index i (record { port = none; generation = (gen m index + 1) % 2 ^ 32 })
          empty_entry,
    )

step_bounds :
    (m : Manager) (c : TableCall) (i : ℕ)
    → gen m i + 1 < 2 ^ 32
    → (gen m i ≤ gen (table_step m c) i) × (gen (table_step m c) i ≤ gen m i + 1)
unfolding table_step
step_bounds m creates i h = omega (arith, gen-create_port m i)
step_bounds m (destroys handle) i h = gen-destroy_port m handle i h

run-IsStale :
    (m : Manager) (cs : List TableCall) (handle : ℕ)
    → IsStale m handle
    → gen m (handle_index handle) + length cs < 2 ^ 32
    → IsStale (table_run m cs) handle
unfolding table_run
run-IsStale m [] handle s h = s
run-IsStale m (c ∷ cs) handle s h =
    let b = step_bounds m c (handle_index handle) (omega arith) in
    run-IsStale (table_step m c) cs handle (omega arith) (omega arith)

stale_lookup :
    (m : Manager) (handle : ℕ)
    → IsStale m handle
    → (get_port m handle ≡ none)
      × (is_valid_port m handle ≡ false)
      × (destroy_port m handle ≡ ([], m))
unfolding get_port is_valid_port destroy_port
stale_lookup m handle s = (ground arith, ground arith, ground arith)

-- A handle that resolved is dead once destroyed: after any further calls on the table, forged
-- handles among them, it resolves to nothing, is not valid, and destroying it again does nothing.
-- This holds as long as the slot's generation cannot wrap round: the handle's generation and the
-- number of calls, the first `destroy_port` counted, stay below 2 ^ 32.
pub destroyed_stays_dead :
    (m : Manager) (handle p : ℕ) (cs : List TableCall)
    → get_port m handle ≡ some p
    → handle_gen handle + 1 + length cs < 2 ^ 32
    → let m' = table_run (destroy_port m handle).1 cs in
      (get_port m' handle ≡ none)
      × (is_valid_port m' handle ≡ false)
      × (destroy_port m' handle ≡ ([], m'))
destroyed_stays_dead m handle p cs e h =
    let (entries, _, _, _, _, _) = destroy_port_lem m handle p e in
    let (a, b, c) = get_port-Resolves m handle p e in
    let m' = (destroy_port m handle).1 in
    let bumped : gen m' (handle_index handle) ≡ handle_gen handle + 1 =
      ground (arith, entries (handle_index handle)) in
    stale_lookup (table_run m' cs) handle (run-IsStale m' cs handle (omega arith) (omega arith))
