-- ===== src/Locks/Guard/Balance.antt =====
-- The guards of kernel/include/libs/spinlock.hpp release what they take.
use noise_v.Base.{
  ℕ, ◌+◌, ◌<◌, ◌≡◌, ◌≢◌, refl, inl, inr, Bool, true, false, Option, none, some, List, ◌∷◌, arith,
  ◌==◌, Bool-cases, Option-cases,
}
use noise_v.Locks.Queue.{update}
use noise_v.Locks.Count.{total-update}
use noise_v.Locks.Guard.Ledger.{
  weight_free, free_holds, holds, takes, gives, IsBalanced, Call, on_construct, on_construct_defer,
  on_construct_try, on_construct_adopt, on_construct_move, on_destroy, on_move_assign, on_lock,
  on_try_lock, on_unlock, on_release, on_swap, call, IsAllowed,
}
use noise_v.Locks.Guard.{
  Guard, Event, World, empty_guard, guard, becomes, took, let_go, construct, construct_defer,
  construct_try, construct_adopt, construct_move, destroy, move_assign, lock, try_lock, unlock,
  hand_over, release, swap, released,
}

module _ (n : ℕ) (w : World) (b : IsBalanced n w) where
  -- One guard changes by as much as the log.
  change :
      (i : ℕ) (g : Guard) (log : List Event)
      → i < n
      → ((m : ℕ)
          → takes m log + gives m w.log + holds m (w.guards i)
            ≡ takes m w.log + gives m log + holds m g)
      → (g.m_owns ≡ true → g.m_mutex ≢ none)
      → IsBalanced n (becomes w i g log)
  change i g log lt even own = record {
    balance = λ m. omega (arith, even m, b.balance m, total-update (holds m) n i w.guards g lt);
    owners = λ j e. elim (Bool-cases (i == j)) [
      | inl same ↦ λ f. own (ground arith) (ground arith)
      | inr other ↦ λ f. b.owners j (ground arith) (ground arith)
    ];
  }

  -- Two guards change.
  change_two :
      (i other : ℕ) (g h : Guard) (log : List Event)
      → i < n
      → other < n
      → ((m : ℕ)
          → takes m log + gives m w.log + holds m (w.guards i) + holds m (update w.guards i g other)
            ≡ takes m w.log + gives m log + holds m g + holds m h)
      → (g.m_owns ≡ true → g.m_mutex ≢ none)
      → (h.m_owns ≡ true → h.m_mutex ≢ none)
      → IsBalanced n (record { guards = update (update w.guards i g) other h; log = log })
  change_two i other g h log lt lt' even own own' = record {
    balance = λ m. omega (
      arith,
      even m,
      b.balance m,
      total-update (holds m) n i w.guards g lt,
      total-update (holds m) n other (update w.guards i g) h lt',
    );
    owners = λ j e. elim (Bool-cases (other == j)) [
      | inl same ↦ λ f. own' (ground arith) (ground arith)
      | inr apart ↦ elim (Bool-cases (i == j)) [
        | inl same ↦ λ f. own (ground arith) (ground arith)
        | inr both ↦ λ f. b.owners j (ground arith) (ground arith)
      ]
    ];
  }

  -- An owner's mutex is there to be released.
  let_go_lem :
      (g : Guard)
      → (g.m_owns ≡ true → g.m_mutex ≢ none)
      → (log : List Event) × (let_go g w.log ≡ some log)
        × ((m : ℕ) → (takes m log ≡ takes m w.log) × (gives m log ≡ gives m w.log + holds m g))
  unfolding let_go
  let_go_lem g own = elim (Bool-cases (g.m_owns)) [
    | inl owns ↦ elim (Option-cases (g.m_mutex)) [
      | inl null ↦ absurd (own owns null)
      | inr (k, e) ↦
          (released k ∷ w.log, rw (owns, e) refl, λ m. (refl, rw (owns, e) (ground arith)))
    ]
    | inr free ↦ (w.log, rw free refl, λ m. (refl, omega (arith, free_holds m g free)))
  ]

  abbrev Kept : Option World → Type 0
  Kept r = (w' : World) × (r ≡ some w') × IsBalanced n w'

  build :
      (i m : ℕ) (granted : Bool)
      → i < n
      → (w.guards i).m_owns ≡ false
      → IsBalanced n (becomes w i (guard m granted) (took granted m w.log))
  build i m granted lt free =
      change i (guard m granted) (took granted m w.log) lt
        (λ k. ground (arith, free_holds k (w.guards i) free)) (λ e f. ground arith)

  destroy-IsBalanced : (i : ℕ) → i < n → Kept (destroy w i)
  unfolding destroy
  destroy-IsBalanced i lt =
      let (log, e, counts) = let_go_lem (w.guards i) (b.owners i) in
      (
        becomes w i empty_guard log,
        rw e refl,
        change i empty_guard log lt (λ m. omega (arith, counts m)) (λ e. ground arith),
      )

  unlock-IsBalanced : (i : ℕ) → i < n → Kept (unlock w i)
  unfolding unlock
  unlock-IsBalanced i lt = elim (Bool-cases ((w.guards i).m_owns)) [
    | inl owns ↦
        let (log, e, counts) = let_go_lem (w.guards i) (b.owners i) in
        let g = record (w.guards i) { m_owns = false } in
        (
          becomes w i g log,
          rw (e, owns) refl,
          change i g log lt (λ m. omega (arith, counts m, free_holds m g refl)) (λ e. ground arith),
        )
    | inr free ↦ (w, rw free refl, b)
  ]

  construct_move-IsBalanced :
      (i other : ℕ)
      → i < n
      → other < n
      → i ≢ other
      → (w.guards i).m_owns ≡ false
      → IsBalanced n (construct_move w i other)
  unfolding construct_move
  construct_move-IsBalanced i other lt lt' ne free =
      change_two i other (w.guards other) empty_guard w.log lt lt'
        (λ m. ground (arith, free_holds m (w.guards i) free)) (b.owners other) (λ e. ground arith)

  move_assign-IsBalanced : (i other : ℕ) → i < n → other < n → Kept (move_assign w i other)
  unfolding move_assign
  move_assign-IsBalanced i other lt lt' = elim (Bool-cases (i == other)) [
    | inl same ↦ (w, rw same refl, b)
    | inr apart ↦
        let (log, e, counts) = let_go_lem (w.guards i) (b.owners i) in
        (
          record {
            guards = update (update w.guards i (w.guards other)) other empty_guard;
            log = log;
          },
          rw (apart, e) refl,
          change_two i other (w.guards other) empty_guard log lt lt' (λ m. ground (arith, counts m))
              (b.owners other) (λ e. ground arith),
        )
  ]

  try_lock-IsBalanced : (i : ℕ) (granted : Bool) → i < n → IsBalanced n (try_lock w i granted).1
  unfolding try_lock
  try_lock-IsBalanced i granted lt = elim (Option-cases ((w.guards i).m_mutex)) [
    | inl null ↦ rw (null, try_lock) b
    | inr (m, e) ↦ elim (Bool-cases ((w.guards i).m_owns)) [
      | inl owns ↦ rw (e, try_lock, owns) b
      | inr free ↦ rw (e, try_lock, free) (build i m granted lt free)
    ]
  ]

  lock-IsBalanced : (i : ℕ) → i < n → IsBalanced n (lock w i)
  unfolding lock
  lock-IsBalanced i lt = elim (Option-cases ((w.guards i).m_mutex)) [
    | inl null ↦ rw (null, lock) b
    | inr (m, e) ↦ elim (Bool-cases ((w.guards i).m_owns)) [
      | inl owns ↦ rw (e, lock, owns) b
      | inr free ↦ rw (e, lock, free) (build i m true lt free)
    ]
  ]

  hand_over_lem :
      (g : Guard) (m : ℕ)
      → (g.m_owns ≡ true → g.m_mutex ≢ none)
      → (takes m (hand_over g w.log) ≡ takes m w.log)
        × (gives m (hand_over g w.log) ≡ gives m w.log + holds m g)
  hand_over_lem g m own = elim (Bool-cases (g.m_owns)) [
    | inl owns ↦ elim (Option-cases (g.m_mutex)) [
      | inl null ↦ absurd (own owns null)
      | inr (k, e) ↦ rw (owns, e, hand_over) (refl, ground arith)
    ]
    | inr free ↦ rw free (refl, omega (arith, weight_free m g.m_mutex))
  ]

  release-IsBalanced : (i : ℕ) → i < n → IsBalanced n (release w i).1
  unfolding release
  release-IsBalanced i lt =
      change i empty_guard (hand_over (w.guards i) w.log) lt
        (λ m. omega (arith, hand_over_lem (w.guards i) m (b.owners i))) (λ e. ground arith)

  swap-IsBalanced : (i other : ℕ) → i < n → other < n → IsBalanced n (swap w i other)
  unfolding swap
  swap-IsBalanced i other lt lt' =
      change_two i other (w.guards other) (w.guards i) w.log lt lt' (λ m. ground arith)
        (b.owners other) (b.owners i)

  -- Any member of a guard keeps the balance, where a new guard is built where none is that owns: what
  -- was taken of each mutex is what was released by a guard, or left to a caller by `release`, and
  -- what guards hold, once each; and no call goes through a null pointer.
  pub guards_balance :
      (c : Call) → IsAllowed n w c → (w' : World) × (call w c ≡ some w') × IsBalanced n w'
  unfolding construct construct_defer construct_try construct_adopt
  guards_balance (on_construct i m) a = (construct w i m, refl, build i m true a.0 a.1)
  guards_balance (on_construct_defer i m) a = (construct_defer w i m, refl, build i m false a.0 a.1)
  guards_balance (on_construct_try i m granted) a =
      (construct_try w i m granted, refl, build i m granted a.0 a.1)
  guards_balance (on_construct_adopt i m) a = (construct_adopt w i m, refl, build i m true a.0 a.1)
  guards_balance (on_construct_move i other) (lt, lt', ne, free) =
      (construct_move w i other, refl, construct_move-IsBalanced i other lt lt' ne free)
  guards_balance (on_destroy i) lt = destroy-IsBalanced i lt
  guards_balance (on_move_assign i other) a = move_assign-IsBalanced i other a.0 a.1
  guards_balance (on_lock i) lt = (lock w i, refl, lock-IsBalanced i lt)
  guards_balance (on_try_lock i granted) lt =
      ((try_lock w i granted).1, refl, try_lock-IsBalanced i granted lt)
  guards_balance (on_unlock i) lt = unlock-IsBalanced i lt
  guards_balance (on_release i) lt = ((release w i).1, refl, release-IsBalanced i lt)
  guards_balance (on_swap i other) a = (swap w i other, refl, swap-IsBalanced i other a.0 a.1)
