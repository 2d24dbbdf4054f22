-- ===== src/Base/Counts.antt =====
-- Lists of different numbers below a bound.
use noise_v.Base.{
  ℕ, zero, suc, ◌+◌, ◌≤◌, ◌<◌, ◌≡◌, ◌≢◌, refl, sym, subst, false, inl, inr, List, [], ◌∷◌, ◌++◌,
  arith, ◌==◌, if◌then◌else◌, length, All, Distinct, Bool-cases,
}

without : ℕ → List ℕ → List ℕ
without n [] = []
without n (x ∷ xs) = let rest = without n xs in if x == n then rest else x ∷ rest

without_other : (n : ℕ) (xs : List ℕ) → All (λ y. y ≢ n) xs → length (without n xs) ≡ length xs
unfolding without
without_other n [] a = refl
without_other n (x ∷ xs) a =
    let test : (x == n) ≡ false = ground (arith, a.0) in
    rw test (omega (arith, without_other n xs a.1))

length-without : (n : ℕ) (xs : List ℕ) → Distinct xs → length xs ≤ length (without n xs) + 1
unfolding without
length-without n [] d = omega arith
length-without n (x ∷ xs) d = elim (Bool-cases (x == n)) [
  | inl same ↦
      let here : x ≡ n = ground arith in
      rw same (omega (arith, without_other n xs (subst (λ m. All (λ y. y ≢ m) xs) here d.0)))
  | inr other ↦ rw other (omega (arith, length-without n xs d.1))
]

All-without : (P : ℕ → Type 0) (n : ℕ) (xs : List ℕ) → All P xs → All P (without n xs)
unfolding without
All-without P n [] a = tt
All-without P n (x ∷ xs) a = elim (Bool-cases (x == n)) [
  | inl same ↦ rw same (All-without P n xs a.1)
  | inr other ↦ rw other (a.0, All-without P n xs a.1)
]

Distinct-without : (n : ℕ) (xs : List ℕ) → Distinct xs → Distinct (without n xs)
unfolding without
Distinct-without n [] d = tt
Distinct-without n (x ∷ xs) d = elim (Bool-cases (x == n)) [
  | inl same ↦ rw same (Distinct-without n xs d.1)
  | inr other ↦ rw other (All-without (λ y. y ≢ x) n xs d.0, Distinct-without n xs d.1)
]

below-without : (n : ℕ) (xs : List ℕ) → All (λ x. x < suc n) xs → All (λ x. x < n) (without n xs)
unfolding without
below-without n [] a = tt
below-without n (x ∷ xs) a = elim (Bool-cases (x == n)) [
  | inl same ↦ rw same (below-without n xs a.1)
  | inr other ↦ rw other (ground (arith, a.0), below-without n xs a.1)
]

-- No more of them than the bound.
pub pigeonhole : (n : ℕ) (xs : List ℕ) → Distinct xs → All (λ x. x < n) xs → length xs ≤ n
pigeonhole zero [] d a = omega arith
pigeonhole zero (x ∷ xs) d a = absurd (omega (arith, a.0))
pigeonhole (suc n) xs d a = omega (
  arith,
  length-without n xs d,
  pigeonhole n (without n xs) (Distinct-without n xs d) (below-without n xs a),
)

pub All-append {ℓ} : (P : ℕ → Type ℓ) (xs ys : List ℕ) → All P xs → All P ys → All P (xs ++ ys)
All-append P [] ys a b = b
All-append P (x ∷ xs) ys a b = (a.0, All-append P xs ys a.1 b)

-- A new one at the end.
pub Distinct-append :
    (xs : List ℕ) (n : ℕ) → Distinct xs → All (λ y. y ≢ n) xs → Distinct (xs ++ n ∷ [])
Distinct-append [] n d a = (tt, tt)
Distinct-append (x ∷ xs) n d a =
    (All-append (λ y. y ≢ x) xs (n ∷ []) d.0 ((λ e. a.0 (sym e)), tt), Distinct-append xs n d.1 a.1)
