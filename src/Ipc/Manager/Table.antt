-- ===== src/Ipc/Manager/Table.antt =====
-- The table of `PortManager`: its invariant, and what `create_port` and `destroy_port` do to it.
use noise_v.Base.{
  ℕ, suc, ◌+◌, ◌%◌, ◌^◌, ◌≤◌, ◌<◌, ◌≡◌, ◌≢◌, refl, ap, subst, ◌⊎◌, inl, inr, none, some, List, [],
  ◌∷◌, arith, ◌==◌, if◌then◌else◌, length, length-set, get_or-set, length-append,
  get_or-concat_default, get_or_above, All, All-mono, All-both, Distinct, Bool-cases,
}
use noise_v.Ipc.Port.{Port, new_port}
use noise_v.Ipc.Port.Ring.{new_port-id}
use noise_v.Ipc.Manager.{
  PortEntry, empty_entry, Manager, entry, handle_index, handle_gen, make_handle, update, install,
  take_slot, create_port, destroy_port, delete_target, get_port, close_target,
}

-- Free slots are distinct slots of the table with no port, and every port that an entry points to is
-- a port of the store that knows its slot.
pub record IsValid (m : Manager) : Type 0 where
  pub small : length m.table ≤ 2 ^ 32
  pub gens : (i : ℕ) → (entry m i).generation < 2 ^ 32
  pub free_in : All (λ i. i < length m.table) m.free_indices
  pub free_null : All (λ i. (entry m i).port ≡ none) m.free_indices
  pub free_distinct : Distinct m.free_indices
  pub bounded : (i p : ℕ) → (entry m i).port ≡ some p → p < m.fresh
  pub live : (i p : ℕ) → (entry m i).port ≡ some p → (q : Port) × (m.heap p ≡ some q) × (q.id ≡ i)

-- There is a slot for one more port.
abbrev pub HasRoom : Manager → Type 0
HasRoom m = (m.free_indices ≢ []) ⊎ (length m.table < 2 ^ 32)

-- The slot that `create_port` takes.
abbrev pub slot : Manager → ℕ
slot m = (take_slot m.free_indices m).0

record IsTaken (m : Manager) (index : ℕ) (m' : Manager) : Type 0 where
  inside : index < length m'.table
  small : length m'.table ≤ 2 ^ 32
  null : (entry m index).port ≡ none
  same : (i : ℕ) → entry m' i ≡ entry m i
  heap_same : m'.heap ≡ m.heap
  fresh_same : m'.fresh ≡ m.fresh
  free_in : All (λ i. i < length m'.table) m'.free_indices
  free_null : All (λ i. (entry m i).port ≡ none) m'.free_indices
  free_other : All (λ i. i ≢ index) m'.free_indices
  free_distinct : Distinct m'.free_indices

room_at_end : (m : Manager) → m.free_indices ≡ [] → HasRoom m → length m.table < 2 ^ 32
room_at_end m e (inl ne) = absurd (ne e)
room_at_end m e (inr h) = h

take_slot-IsTaken :
    (m : Manager) (free : List ℕ)
    → m.free_indices ≡ free
    → IsValid m
    → HasRoom m
    → let (i, m') = take_slot free m in IsTaken m i m'
unfolding take_slot
take_slot-IsTaken m [] e v room =
    let spare = room_at_end m e room in
    let index : length m.table % 2 ^ 32 ≡ length m.table = omega arith in
    rw index (record {
      inside = omega (arith, length-append m.table (empty_entry ∷ []));
      small = omega (arith, length-append m.table (empty_entry ∷ []));
      null =
          ap (λ (t : PortEntry). t.port)
            (get_or_above m.table (length m.table) empty_entry (omega arith));
      same = λ i. get_or-concat_default m.table i empty_entry;
      heap_same = refl;
      fresh_same = refl;
      free_in = rw e tt;
      free_null = rw e tt;
      free_other = rw e tt;
      free_distinct = rw e tt;
    })
take_slot-IsTaken m (i ∷ rest) e v room =
    let inside = rw e at v.free_in in
    let null = rw e at v.free_null in
    let distinct = rw e at v.free_distinct in
    record {
      inside = inside.0;
      small = v.small;
      null = null.0;
      same = λ _. refl;
      heap_same = refl;
      fresh_same = refl;
      free_in = inside.1;
      free_null = null.1;
      free_other = distinct.0;
      free_distinct = distinct.1;
    }

-- `create_port` returns the handle of its slot, and changes the entry of that slot alone.
pub create_port_lem :
    (m : Manager)
    → IsValid m
    → HasRoom m
    → let (h, m') = create_port m in
      (h ≡ make_handle (entry m (slot m)).generation (slot m))
      × ((i : ℕ)
          → entry m' i
            ≡ (if slot m == i then record (entry m i) { port = some m.fresh } else entry m i))
      × ((p : ℕ) → m'.heap p ≡ update m.heap m.fresh (some (new_port (slot m))) p)
      × (m'.fresh ≡ suc m.fresh)
      × (slot m < length m'.table)
unfolding create_port install
create_port_lem m v room =
    let t = take_slot-IsTaken m m.free_indices refl v room in
    let m' = (take_slot m.free_indices m).1 in
    (
      ap (λ (e : PortEntry). make_handle e.generation (slot m)) (t.same (slot m)),
      (λ i. ground (
        arith,
        get_or-set m'.table (slot m) i (record (entry m' (slot m)) { port = some m'.fresh })
            empty_entry,
        t.same i,
        t.same (slot m),
        t.inside,
        t.fresh_same,
      )),
      (λ p. rw (t.heap_same, t.fresh_same)),
      ap suc t.fresh_same,
      rw length-set t.inside,
    )

create_port-length :
    (m : Manager) → length (create_port m).1.table ≡ length (take_slot m.free_indices m).1.table
unfolding create_port install
create_port-length m = length-set (take_slot m.free_indices m).1.table _ _

create_port-free_indices :
    (m : Manager) → (create_port m).1.free_indices ≡ (take_slot m.free_indices m).1.free_indices
unfolding create_port install
create_port-free_indices m = refl

-- `create_port` keeps the table valid.
pub create_port-IsValid : (m : Manager) → IsValid m → HasRoom m → IsValid (create_port m).1
create_port-IsValid m v room =
    let (_, entries, heap, fresh, _) = create_port_lem m v room in
    let t = take_slot-IsTaken m m.free_indices refl v room in
    let m' = (create_port m).1 in
    record {
      small = rw (create_port-length m) t.small;
      gens = λ i. ground (arith, entries i, v.gens i, v.gens (slot m));
      free_in = rw (create_port-free_indices m, create_port-length m) t.free_in;
      free_null = rw (create_port-free_indices m) (
          All-both (λ i. i ≢ slot m) (λ i. (entry m i).port ≡ none) (λ i. (entry m' i).port ≡ none)
            (take_slot m.free_indices m).1.free_indices (λ i ne null. ground (arith, entries i))
            t.free_other t.free_null);
      free_distinct = rw (create_port-free_indices m) t.free_distinct;
      bounded = λ i p e. ground (arith, entries i, fresh, v.bounded i p);
      live = λ i p e. elim (Bool-cases (slot m == i)) [
        | inl new ↦ (
          new_port (slot m),
          ground (arith, heap p, entries i),
          ground (arith, new_port-id (slot m)),
        )
        | inr old ↦
            let before = v.live i p (ground (arith, entries i)) in
            (before.0, ground (arith, heap p, v.bounded i p, entries i, before.1), before.2)
      ];
    }

-- A handle that resolves: its slot, generation and port.
abbrev pub Resolves : Manager → ℕ → ℕ → Type 0
Resolves m handle p =
    (handle_index handle < length m.table)
    × ((entry m (handle_index handle)).generation ≡ handle_gen handle)
    × ((entry m (handle_index handle)).port ≡ some p)

pub get_port-Resolves :
    (m : Manager) (handle p : ℕ) → get_port m handle ≡ some p → Resolves m handle p
unfolding get_port
get_port-Resolves m handle p e = (ground arith, ground arith, ground arith)

pub Resolves-get_port :
    (m : Manager) (handle p : ℕ) → Resolves m handle p → get_port m handle ≡ some p
unfolding get_port
Resolves-get_port m handle p r = ground arith

-- `destroy_port` on a handle that resolves.
pub destroy_port_lem :
    (m : Manager) (handle p : ℕ)
    → get_port m handle ≡ some p
    → let (woken, m') = destroy_port m handle in
      let index = handle_index handle in
      ((i : ℕ)
        → entry m' i ≡ (
            if index == i
            then record { port = none; generation = ((entry m i).generation + 1) % 2 ^ 32 }
            else entry m i))
      × (m'.free_indices ≡ index ∷ m.free_indices)
      × (m'.heap ≡ update m.heap p none)
      × (m'.fresh ≡ m.fresh)
      × (length m'.table ≡ length m.table)
      × (woken ≡ close_target m (some p))
unfolding destroy_port delete_target
destroy_port_lem m handle p e =
    let (a, b, c) = get_port-Resolves m handle p e in
    (
      (λ i. ground (
        arith,
        get_or-set m.table (handle_index handle) i
            (record {
              port = none;
              generation = ((entry m (handle_index handle)).generation + 1) % 2 ^ 32;
            })
            empty_entry,
      )),
      ground arith,
      ground arith,
      ground arith,
      ground (
        arith,
        length-set m.table (handle_index handle) (record {
          port = none;
          generation = ((entry m (handle_index handle)).generation + 1) % 2 ^ 32;
        }),
      ),
      ground arith,
    )

-- Two slots never share a port.
pub port_injective :
    (m : Manager) (i j p : ℕ)
    → IsValid m
    → (entry m i).port ≡ some p
    → (entry m j).port ≡ some p
    → i ≡ j
port_injective m i j p v e f =
    let (q, a, b) = v.live i p e in let (r, c, d) = v.live j p f in ground arith

-- A slot with a port is not free.
free_other_of_port :
    (m : Manager) (index p : ℕ)
    → IsValid m
    → (entry m index).port ≡ some p
    → All (λ i. i ≢ index) m.free_indices
free_other_of_port m index p v e =
    All-mono (λ i. (entry m i).port ≡ none) (λ i. i ≢ index) m.free_indices
      (λ i null same. let null' = subst (λ k. (entry m k).port ≡ none) same null in cc) v.free_null

-- `destroy_port` keeps the table valid when the handle resolves to a port.
pub destroy_port-IsValid :
    (m : Manager) (handle p : ℕ)
    → IsValid m
    → get_port m handle ≡ some p
    → IsValid (destroy_port m handle).1
destroy_port-IsValid m handle p v e =
    let (entries, free, heap, fresh, size, _) = destroy_port_lem m handle p e in
    let (a, b, c) = get_port-Resolves m handle p e in
    let index = handle_index handle in
    let m' = (destroy_port m handle).1 in
    let other = free_other_of_port m index p v c in
    record {
      small = rw size v.small;
      gens = λ i. ground (arith, entries i, v.gens i);
      free_in = rw free (
        omega (arith, size),
        All-mono (λ i. i < length m.table) (λ i. i < length m'.table) m.free_indices
            (λ i h. omega (arith, size)) v.free_in,
      );
      free_null = rw free (
        ground (arith, entries index),
        All-mono (λ i. (entry m i).port ≡ none) (λ i. (entry m' i).port ≡ none) m.free_indices
            (λ i null. ground (arith, entries i)) v.free_null,
      );
      free_distinct = rw free (other, v.free_distinct);
      bounded = λ i q f. ground (arith, entries i, fresh, v.bounded i q);
      live = λ i q f.
          let f' : (entry m i).port ≡ some q = ground (arith, entries i) in
          let before = v.live i q f' in
          let ne : p ≢ q =
            λ same. ground (arith, entries i, port_injective m i index q v f' (rw (← same) c)) in
          (before.0, rw heap (ground arith), before.2);
    }

pub slot_null : (m : Manager) → IsValid m → HasRoom m → (entry m (slot m)).port ≡ none
slot_null m v room = (take_slot-IsTaken m m.free_indices refl v room).null

take_slot_grows : (free : List ℕ) (m : Manager) → length m.table ≤ length (take_slot free m).1.table
unfolding take_slot
take_slot_grows [] m = omega (arith, length-append m.table (empty_entry ∷ []))
take_slot_grows (i ∷ rest) m = omega arith

pub create_port_grows : (m : Manager) → length m.table ≤ length (create_port m).1.table
create_port_grows m = omega (arith, create_port-length m, take_slot_grows m.free_indices m)

pub get_port_of_null :
    (m : Manager) (handle : ℕ)
    → (entry m (handle_index handle)).port ≡ none
    → get_port m handle ≡ none
unfolding get_port
get_port_of_null m handle e = ground arith
