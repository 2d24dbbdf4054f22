-- ===== src/Ipc/Manager/Faults.antt =====
-- Where kernel/src/task/ipc.cpp does not do what it means to: receivers that waited, and handles of
-- slots that are free.
use noise_v.Base.{ℕ, ◌^◌, ◌<◌, ◌≡◌, none, some, [], arith, ◌==◌, if◌then◌else◌, length}
use noise_v.Base.Masks.{bit_and_low}
use noise_v.Ipc.Port.{Port, received, attempt, receive_resumed}
use noise_v.Ipc.Manager.{Manager, entry, handle_index, handle_gen, is_valid_port}
use noise_v.Ipc.Manager.Table.{IsValid}

id_as_handle : (i : ℕ) → i < 2 ^ 32 → (handle_index i ≡ i) × (handle_gen i ≡ 0)
unfolding handle_index handle_gen
id_as_handle i h = (rw (bit_and_low 32 i) (omega arith), omega arith)

-- A receiver that waited on a live port and is woken: in a slot that has never been destroyed it
-- returns 0, and the message that woke it stays queued; in any other slot the port's id is taken for
-- a stale handle, and it goes on to receive.
pub receive_resumed_on_live_port :
    (m : Manager) (i ptr : ℕ) (p : Port) (receiver max_len : ℕ)
    → IsValid m
    → i < length m.table
    → (entry m i).port ≡ some ptr
    → m.heap ptr ≡ some p
    → receive_resumed (is_valid_port m p.id) p receiver max_len
      ≡ (if (entry m i).generation == 0 then (received [] none, p) else attempt p receiver max_len)
unfolding is_valid_port receive_resumed
receive_resumed_on_live_port m i ptr p receiver max_len v inside e f =
    let (q, stored, id) = v.live i ptr e in
    let id' : p.id ≡ i = ground arith in
    let (index, generation) = id_as_handle i (omega (arith, v.small)) in
    rw (id', index, generation) (ground arith)
