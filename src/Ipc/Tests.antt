-- ===== src/Ipc/Tests.antt =====
-- Instances of the theorems on ports and handles, and runs of the model.
use noise_v.Base.{ℕ, ◌≡◌, ◌≢◌, refl, ◌++◌, inr, true, false, none, some, List, [], ◌∷◌, arith}
use noise_v.Ipc.Port.{
  Port, new_port, PortCall, sends, receives, send_reply, receive_reply, sent, received,
  receive_blocked, receive, receive_resumed, attempt, send, enqueue, dequeue, pop_waiter,
  copy_bytes, step, run,
}
use noise_v.Ipc.Port.Channel
use noise_v.Ipc.Port.Channel.{Channel}
use noise_v.Ipc.Port.Ring.{view, new_port-IsValid, step_refines, run_refines}
use noise_v.Ipc.Manager.{
  Manager, create_port, get_port, destroy_port, is_valid_port, table_run, TableCall, creates,
  destroys, handle_index, handle_gen, take_slot, install,
}
use noise_v.Ipc.Manager.Table
use noise_v.Ipc.Manager.Table.{HasRoom, create_port-IsValid, destroy_port-IsValid}
use noise_v.Ipc.Manager.Lookup.{get_port-create_port, get_port-destroy_port}
use noise_v.Ipc.Manager.Stale.{destroyed_stays_dead}
use noise_v.Ipc.Manager.Faults.{receive_resumed_on_live_port}

abbrev script : List PortCall
script =
    receives none 7 4
    ∷ sends 1 10 (5 ∷ 6 ∷ [])
    ∷ receives (some true) 7 4
    ∷ receives (some false) 7 1
    ∷ receives none 7 4
    ∷ []

run-script :
    run (new_port 3) script
    ≡ receive_reply receive_blocked
      ∷ send_reply (sent (some 7))
      ∷ receive_reply (received [] none)
      ∷ receive_reply (received (5 ∷ []) none)
      ∷ receive_reply receive_blocked
      ∷ []
unfolding run step new_port send receive receive_resumed attempt enqueue dequeue pop_waiter
    copy_bytes
run-script = refl

run_refines_example : run (new_port 3) script ≡ Channel.run (view (new_port 3)) script
run_refines_example = run_refines script (new_port 3) (new_port-IsValid 3)

step_refines_example :
    (let (r, p') = step (new_port 3) (sends 1 10 (5 ∷ [])) in (r, view p'))
    ≡ Channel.step (view (new_port 3)) (sends 1 10 (5 ∷ []))
step_refines_example = step_refines (new_port 3) (sends 1 10 (5 ∷ [])) (new_port-IsValid 3)

abbrev no_ports : Manager
no_ports = record { table = []; free_indices = []; heap = λ _. none; fresh = 0 }

no_ports-IsValid : Table.IsValid no_ports
no_ports-IsValid = record {
  small = omega arith;
  gens = λ i. omega arith;
  free_in = tt;
  free_null = tt;
  free_distinct = tt;
  bounded = λ i p e. cc;
  live = λ i p e. cc;
}

-- One port, behind the handle 0.
one_port : Manager
one_port = (create_port no_ports).1

one_port-IsValid : Table.IsValid one_port
unfolding one_port
one_port-IsValid = create_port-IsValid no_ports no_ports-IsValid (inr (omega arith))

one_port-get_port : get_port one_port 0 ≡ some 0
unfolding one_port create_port get_port handle_index handle_gen take_slot install
one_port-get_port = refl

get_port-create_port_example :
    (get_port (create_port no_ports).1 (create_port no_ports).0 ≡ some 0)
    × ((create_port no_ports).1.heap 0 ≡ some (new_port 0))
unfolding take_slot
get_port-create_port_example = get_port-create_port no_ports no_ports-IsValid (inr (omega arith))

get_port-destroy_port_example :
    let (woken, m') = destroy_port one_port 0 in
    ((h : ℕ) → handle_index h ≡ handle_index 0 → get_port m' h ≡ none)
    × (m'.heap 0 ≡ none)
    × ((port : Port) × (one_port.heap 0 ≡ some port)
        × (woken ≡ port.blocked_recievers ++ port.blocked_senders))
    × ((h : ℕ)
        → handle_index h ≢ handle_index 0
        → (get_port m' h ≡ get_port one_port h)
          × ((q : ℕ) → get_port one_port h ≡ some q → m'.heap q ≡ one_port.heap q))
get_port-destroy_port_example =
    get_port-destroy_port one_port 0 0 one_port-IsValid one_port-get_port

abbrev reuse : List TableCall
reuse = creates ∷ destroys 7 ∷ []

destroyed_stays_dead_example :
    let m' = table_run (destroy_port one_port 0).1 reuse in
    (get_port m' 0 ≡ none) × (is_valid_port m' 0 ≡ false) × (destroy_port m' 0 ≡ ([], m'))
unfolding handle_gen
destroyed_stays_dead_example =
    destroyed_stays_dead one_port 0 0 reuse one_port-get_port (omega arith)

-- The first port, still empty, and a receiver that is woken.
receive_resumed_on_live_port_example :
    receive_resumed (is_valid_port one_port 0) (new_port 0) 7 16 ≡ (received [] none, new_port 0)
unfolding one_port create_port take_slot install new_port
receive_resumed_on_live_port_example =
    receive_resumed_on_live_port one_port 0 0 (new_port 0) 7 16 one_port-IsValid (omega arith) refl
      refl

-- Slot 0 is free after one use, and the handle has the slot's next generation.
abbrev freed : Manager
freed = record {
  table = record { port = none; generation = 1 } ∷ [];
  free_indices = 0 ∷ [];
  heap = λ _. none;
  fresh = 1;
}
