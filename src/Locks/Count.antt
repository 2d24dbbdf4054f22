-- ===== src/Locks/Count.antt =====
-- Counting processors.
use noise_v.Base.{ℕ, zero, suc, ◌+◌, ◌≤◌, ◌<◌, ◌≡◌, ◌≢◌, refl, arith, ◌==◌, inl, inr, Bool-cases}
use noise_v.Locks.Queue.{update}

module _ {A : Type 0} (w : A → ℕ) where
  unfoldable pub total : ℕ → (ℕ → A) → ℕ
  total zero pc = 0
  total (suc n) pc = total n pc + w (pc n)

  total_beyond : (n i : ℕ) (pc : ℕ → A) (a : A) → n ≤ i → total n (update pc i a) ≡ total n pc
  unfolding total
  total_beyond zero i pc a h = refl
  total_beyond (suc n) i pc a h = ground (arith, total_beyond n i pc a)

  pub total-update :
      (n i : ℕ) (pc : ℕ → A) (a : A) → i < n → total n (update pc i a) + w (pc i) ≡ total n pc + w a
  unfolding total
  total-update zero i pc a h = absurd (omega arith)
  total-update (suc n) i pc a h = elim (Bool-cases (i == n)) [
    | inl last ↦ ground (arith, total_beyond n i pc a)
    | inr inner ↦ ground (arith, total-update n i pc a)
  ]

  pub total_bound : (n : ℕ) (pc : ℕ → A) → ((a : A) → w a ≤ 1) → total n pc ≤ n
  unfolding total
  total_bound zero pc h = omega arith
  total_bound (suc n) pc h = omega (arith, total_bound n pc h, h (pc n))

  pub total_zero : (n : ℕ) (pc : ℕ → A) (i : ℕ) → total n pc ≡ 0 → i < n → w (pc i) ≡ 0
  unfolding total
  total_zero zero pc i e h = absurd (omega arith)
  total_zero (suc n) pc i e h = elim (Bool-cases (i == n)) [
    | inl last ↦ ground arith
    | inr inner ↦ total_zero n pc i (omega arith) (ground arith)
  ]

  pub total_one : (n : ℕ) (pc : ℕ → A) (i : ℕ) → i < n → w (pc i) ≤ total n pc
  unfolding total
  total_one zero pc i h = absurd (omega arith)
  total_one (suc n) pc i h = elim (Bool-cases (i == n)) [
    | inl last ↦ ground arith
    | inr inner ↦ ground (arith, total_one n pc i (ground arith))
  ]

  pub total_none : (n : ℕ) (a : A) → w a ≡ 0 → total n (λ _. a) ≡ 0
  unfolding total
  total_none zero a e = refl
  total_none (suc n) a e = omega (arith, total_none n a e)

  -- Two at different places.
  pub total_two :
      (n : ℕ) (pc : ℕ → A) (i j : ℕ) → i < n → j < n → i ≢ j → w (pc i) + w (pc j) ≤ total n pc
  unfolding total
  total_two zero pc i j h k ne = absurd (omega arith)
  total_two (suc n) pc i j h k ne = elim (Bool-cases (i == n)) [
    | inl last ↦ ground (arith, total_one n pc j (ground arith))
    | inr inner ↦ elim (Bool-cases (j == n)) [
      | inl last ↦ ground (arith, total_one n pc i (ground arith))
      | inr both ↦ ground (arith, total_two n pc i j (ground arith) (ground arith) ne)
    ]
  ]
