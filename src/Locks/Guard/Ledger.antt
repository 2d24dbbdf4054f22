-- ===== src/Locks/Guard/Ledger.antt =====
-- What the guards of kernel/include/libs/spinlock.hpp have taken, released and hold.
use noise_v.Base.{
  ℕ, ◌+◌, ◌<◌, ◌≡◌, ◌≢◌, refl, Bool, true, false, Option, none, some, List, [], ◌∷◌, arith, ◌==◌,
  if◌then◌else◌,
}
use noise_v.Locks.Count.{total}
use noise_v.Locks.Guard.{
  Guard, Event, World, construct, construct_defer, construct_try, construct_adopt, construct_move,
  destroy, move_assign, lock, try_lock, unlock, release, swap, taken, released, handed,
}

-- 1 for a guard that owns the mutex `m`.
abbrev pub weight : ℕ → Option ℕ → Bool → ℕ
weight m none owns = 0
weight m (some k) owns = if k == m then if owns then 1 else 0 else 0

abbrev pub holds : ℕ → Guard → ℕ
holds m g = weight m g.m_mutex g.m_owns

pub weight_free : (m : ℕ) (o : Option ℕ) → weight m o false ≡ 0
weight_free m none = refl
weight_free m (some k) = ground arith

pub free_holds : (m : ℕ) (g : Guard) → g.m_owns ≡ false → holds m g ≡ 0
free_holds m g e = rw e (weight_free m g.m_mutex)

abbrev pub takes : ℕ → List Event → ℕ
takes m [] = 0
takes m (taken k ∷ log) = if k == m then takes m log + 1 else takes m log
takes m (e ∷ log) = takes m log

abbrev pub gives : ℕ → List Event → ℕ
gives m [] = 0
gives m (taken k ∷ log) = gives m log
gives m (released k ∷ log) = if k == m then gives m log + 1 else gives m log
gives m (handed k ∷ log) = if k == m then gives m log + 1 else gives m log

-- Among `n` guards: what was taken of each mutex was released, or left to a caller, or is held by one
-- guard for each time.
pub record IsBalanced (n : ℕ) (w : World) : Type 0 where
  pub balance : (m : ℕ) → takes m w.log ≡ gives m w.log + total (holds m) n w.guards
  pub owners : (i : ℕ) → (w.guards i).m_owns ≡ true → (w.guards i).m_mutex ≢ none

pub data Call : Type 0 where
  on_construct : ℕ → ℕ → Call
  on_construct_defer : ℕ → ℕ → Call
  on_construct_try : ℕ → ℕ → Bool → Call
  on_construct_adopt : ℕ → ℕ → Call
  on_construct_move : ℕ → ℕ → Call
  on_destroy : ℕ → Call
  on_move_assign : ℕ → ℕ → Call
  on_lock : ℕ → Call
  on_try_lock : ℕ → Bool → Call
  on_unlock : ℕ → Call
  on_release : ℕ → Call
  on_swap : ℕ → ℕ → Call

abbrev pub call : World → Call → Option World
call w (on_construct i m) = some (construct w i m)
call w (on_construct_defer i m) = some (construct_defer w i m)
call w (on_construct_try i m granted) = some (construct_try w i m granted)
call w (on_construct_adopt i m) = some (construct_adopt w i m)
call w (on_construct_move i other) = some (construct_move w i other)
call w (on_destroy i) = destroy w i
call w (on_move_assign i other) = move_assign w i other
call w (on_lock i) = some (lock w i)
call w (on_try_lock i granted) = some (try_lock w i granted).1
call w (on_unlock i) = unlock w i
call w (on_release i) = some (release w i).1
call w (on_swap i other) = some (swap w i other)

-- The guards are among the `n`, and a new one is built where none is that owns.
abbrev pub IsAllowed : ℕ → World → Call → Type 0
IsAllowed n w (on_construct i m) = (i < n) × ((w.guards i).m_owns ≡ false)
IsAllowed n w (on_construct_defer i m) = (i < n) × ((w.guards i).m_owns ≡ false)
IsAllowed n w (on_construct_try i m granted) = (i < n) × ((w.guards i).m_owns ≡ false)
IsAllowed n w (on_construct_adopt i m) = (i < n) × ((w.guards i).m_owns ≡ false)
IsAllowed n w (on_construct_move i other) =
    (i < n) × (other < n) × (i ≢ other) × ((w.guards i).m_owns ≡ false)
IsAllowed n w (on_destroy i) = i < n
IsAllowed n w (on_move_assign i other) = (i < n) × (other < n)
IsAllowed n w (on_lock i) = i < n
IsAllowed n w (on_try_lock i granted) = i < n
IsAllowed n w (on_unlock i) = i < n
IsAllowed n w (on_release i) = i < n
IsAllowed n w (on_swap i other) = (i < n) × (other < n)
