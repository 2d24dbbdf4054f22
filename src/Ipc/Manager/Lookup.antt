-- ===== src/Ipc/Manager/Lookup.antt =====
-- What handles resolve to before and after `create_port` and `destroy_port`, and what a receiver of
-- kernel/src/task/ipc.cpp sees of it.
use noise_v.Base.{ℕ, ◌+◌, ◌*◌, ◌^◌, ◌<◌, ◌≡◌, ◌≢◌, refl, ◌∙◌, ◌++◌, length, none, some, arith}
use noise_v.Base.Masks.{bit_or_packs, bit_and_low}
use noise_v.Ipc.Port.{Port, new_port, close}
use noise_v.Ipc.Manager.{
  Manager, close_target, entry, make_handle, handle_index, handle_gen, create_port, get_port,
  destroy_port,
}
use noise_v.Ipc.Manager.Table.{
  IsValid, HasRoom, slot, create_port-IsValid, get_port_of_null, port_injective, get_port-Resolves,
  Resolves-get_port, create_port_lem, destroy_port_lem,
}

-- A handle holds its slot and its generation.
handle_fields :
    (generation index : ℕ)
    → generation < 2 ^ 32
    → index < 2 ^ 32
    → (handle_index (make_handle generation index) ≡ index)
      × (handle_gen (make_handle generation index) ≡ generation)
unfolding make_handle handle_index handle_gen
handle_fields generation index g i =
    rw (bit_or_packs 32 generation index i, bit_and_low 32 (generation * 2 ^ 32 + index))
      (omega arith, omega arith)

-- The handle that `create_port` returns resolves to the new port, which is fresh and empty.
pub get_port-create_port :
    (m : Manager)
    → IsValid m
    → HasRoom m
    → let (h, m') = create_port m in
      (get_port m' h ≡ some m.fresh) × (m'.heap m.fresh ≡ some (new_port (slot m)))
get_port-create_port m v room =
    let (handle, entries, heap, _, inside) = create_port_lem m v room in
    let (h, m') = create_port m in
    let fields =
      handle_fields (entry m (slot m)).generation (slot m) (v.gens (slot m))
        (omega (arith, (create_port-IsValid m v room).small)) in
    (
      Resolves-get_port m' h m.fresh (
        rw (handle, fields.0) inside,
        rw (handle, fields.0, fields.1) (ground (arith, entries (slot m))),
        rw (handle, fields.0) (ground (arith, entries (slot m))),
      ),
      ground (arith, heap m.fresh),
    )

close_target-close :
    (m : Manager) (p : ℕ) (port : Port)
    → m.heap p ≡ some port
    → close_target m (some p) ≡ port.blocked_recievers ++ port.blocked_senders
unfolding close_target close
close_target-close m p port e = rw (e, close_target) refl

-- What a handle gives is in the entry of its slot.
get_port-same :
    (m m' : Manager) (h : ℕ)
    → length m'.table ≡ length m.table
    → entry m' (handle_index h) ≡ entry m (handle_index h)
    → get_port m' h ≡ get_port m h
unfolding get_port
get_port-same m m' h size same = rw (size, same) refl

-- After `destroy_port` of a handle that resolves, no handle of its slot resolves and the port is gone; the
-- threads that waited on the port, the receivers first, are the ones that are woken; and every handle of
-- another slot resolves to what it did before, with its port unchanged.
pub get_port-destroy_port :
    (m : Manager) (handle p : ℕ)
    → IsValid m
    → get_port m handle ≡ some p
    → let (woken, m') = destroy_port m handle in
      ((h : ℕ) → handle_index h ≡ handle_index handle → get_port m' h ≡ none)
      × (m'.heap p ≡ none)
      × ((port : Port) × (m.heap p ≡ some port)
          × (woken ≡ port.blocked_recievers ++ port.blocked_senders))
      × ((h : ℕ)
          → handle_index h ≢ handle_index handle
          → (get_port m' h ≡ get_port m h)
            × ((q : ℕ) → get_port m h ≡ some q → m'.heap q ≡ m.heap q))
get_port-destroy_port m handle p v e =
    let (entries, _, heap, _, size, woken) = destroy_port_lem m handle p e in
    let m' = (destroy_port m handle).1 in
    let (a, b, c) = get_port-Resolves m handle p e in
    let (port, stored, _) = v.live (handle_index handle) p c in
    (
      (λ h same. get_port_of_null m' h (ground (arith, entries (handle_index h)))),
      rw heap (ground arith),
      (port, stored, woken ∙ close_target-close m p port stored),
      (λ h ne. (
        get_port-same m m' h size (ground (arith, entries (handle_index h))),
        λ q f.
            let (a', b', c') = get_port-Resolves m h q f in
            rw heap (ground (arith, port_injective m (handle_index h) (handle_index handle) p v)),
      )),
    )
