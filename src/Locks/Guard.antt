-- ===== src/Locks/Guard.antt =====
-- `LockGuard` of kernel/include/libs/spinlock.hpp, at one choice of `Read` and `Write`. A guard and a
-- mutex are known by their addresses. The calls on mutexes are recorded: `taken` is `lock`,
-- `acquire_read` or `acquire_write`, or a trying call that succeeded, and `released` is its
-- counterpart. Whether a trying call succeeds is the argument `granted`. Reading the mutex of a guard
-- through a null pointer gives `none`.
pub mod Ledger
pub mod Balance
use noise_v.Base.{
  ℕ, ◌+◌, Bool, true, false, not, ◌||◌, Option, none, some, List, [], ◌∷◌, ◌==◌, if◌then◌else◌,
  ◌>>=◌,
}
use noise_v.Locks.Queue.{update}

pub record Guard : Type 0 where
  pub m_mutex : Option ℕ
  pub m_owns : Bool

pub data Event : Type 0 where
  taken : ℕ → Event
  released : ℕ → Event
  handed : ℕ → Event  -- left to the caller by `release`

pub record World : Type 0 where
  pub guards : ℕ → Guard
  pub log : List Event

abbrev pub empty_guard : Guard
empty_guard = record { m_mutex = none; m_owns = false }

abbrev pub guard : ℕ → Bool → Guard
guard m owns = record { m_mutex = some m; m_owns = owns }

-- The guard at `i` becomes `g`, with what happened to the mutexes.
abbrev pub becomes : World → ℕ → Guard → List Event → World
becomes w i g log = record { guards = update w.guards i g; log = log }

abbrev pub took : Bool → ℕ → List Event → List Event
took granted m log = if granted then taken m ∷ log else log

-- `if (m_owns) m_mutex->unlock()`
unfoldable pub let_go : Guard → List Event → Option (List Event)
let_go g log = if g.m_owns then (g.m_mutex >>= λ m. some (released m ∷ log)) else some log

-- The constructors from a mutex, by their tags.
unfoldable pub construct : World → ℕ → ℕ → World
construct w i m = becomes w i (guard m true) (taken m ∷ w.log)

unfoldable pub construct_defer : World → ℕ → ℕ → World
construct_defer w i m = becomes w i (guard m false) w.log

unfoldable pub construct_try : World → ℕ → ℕ → Bool → World
construct_try w i m granted = becomes w i (guard m granted) (took granted m w.log)

-- The caller has taken the mutex before.
unfoldable pub construct_adopt : World → ℕ → ℕ → World
construct_adopt w i m = becomes w i (guard m true) (taken m ∷ w.log)

unfoldable pub construct_move : World → ℕ → ℕ → World
construct_move w i other = record w {
  guards = update (update w.guards i (w.guards other)) other empty_guard;
}

unfoldable pub destroy : World → ℕ → Option World
destroy w i = let_go (w.guards i) w.log >>= λ log. some (becomes w i empty_guard log)

unfoldable pub move_assign : World → ℕ → ℕ → Option World
move_assign w i other =
    if i == other
    then some w
    else (let_go (w.guards i) w.log >>= λ log. some (record {
      guards = update (update w.guards i (w.guards other)) other empty_guard;
      log = log;
    }))

unfoldable pub lock : World → ℕ → World
lock w i = elim ((w.guards i).m_mutex) [
  | none ↦ w
  | some m ↦ if (w.guards i).m_owns then w else becomes w i (guard m true) (taken m ∷ w.log)
]

unfoldable pub try_lock : World → ℕ → Bool → Bool × World
try_lock w i granted = elim ((w.guards i).m_mutex) [
  | none ↦ (false, w)
  | some m ↦
      if (w.guards i).m_owns
      then (false, w)
      else (granted, becomes w i (guard m granted) (took granted m w.log))
]

unfoldable pub unlock : World → ℕ → Option World
unlock w i =
    let g = w.guards i in
    if not g.m_owns
    then some w
    else let_go g w.log >>= λ log. some (becomes w i (record g { m_owns = false }) log)

abbrev pub hand_over : Guard → List Event → List Event
hand_over g log =
    if g.m_owns then elim (g.m_mutex) [ none ↦ log | some m ↦ handed m ∷ log ] else log

unfoldable pub release : World → ℕ → Option ℕ × World
release w i = let g = w.guards i in (g.m_mutex, becomes w i empty_guard (hand_over g w.log))

unfoldable pub swap : World → ℕ → ℕ → World
swap w i other = record w {
  guards = update (update w.guards i (w.guards other)) other (w.guards i);
}
