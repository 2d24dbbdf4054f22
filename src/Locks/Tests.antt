-- ===== src/Locks/Tests.antt =====
-- Instances of the theorems on the locks with interrupts and on guards.
use noise_v.Base.{◌≡◌, refl, true, some, [], arith, ◌==◌}
use noise_v.Locks.{new_lock}
use noise_v.Locks.Count.{total_none}
use noise_v.Locks.Irq.{Cores, begin_lock, unlock, unlock_takes_waiters_flag}
use noise_v.Locks.Guard.{World, empty_guard}
use noise_v.Locks.Guard.Ledger.{IsBalanced, holds, on_construct, call}
use noise_v.Locks.Guard.Balance.{guards_balance}

-- Processor 0 has its interrupts on, 1 has them off.
cores : Cores
cores = record {
  lock = record { internal_lock = new_lock; irq_lock = record { interrupts = true } };
  flags = λ c. c == 0;
}

unlock_takes_waiters_flag_example :
    let (released, s') = unlock (begin_lock (begin_lock cores 0) 1) 0 in
    (released ≡ true) × (s'.flags 0 ≡ cores.flags 1)
unfolding cores
unlock_takes_waiters_flag_example =
    unlock_takes_waiters_flag cores 0 1 (λ e. omega (arith, e)) refl (omega arith)

nothing_held : World
nothing_held = record { guards = λ i. empty_guard; log = [] }

nothing_held-IsBalanced : IsBalanced 2 nothing_held
unfolding nothing_held
nothing_held-IsBalanced = record {
  balance = λ m. omega (arith, total_none (holds m) 2 empty_guard refl);
  owners = λ i e. ground arith;
}

guards_balance_example :
    (w : World) × (call nothing_held (on_construct 0 7) ≡ some w) × IsBalanced 2 w
unfolding nothing_held
guards_balance_example =
    guards_balance 2 nothing_held nothing_held-IsBalanced (on_construct 0 7) (omega arith, refl)
