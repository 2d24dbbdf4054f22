-- ===== src/Deque/Cells.antt =====
-- The entries behind the map of kernel/include/libs/deque.hpp, by their position: entry `o` of block
-- `b` is at position `8 * b + o`.
use noise_v.Base.{
  ℕ, ◌+◌, ◌-◌, ◌*◌, ◌/◌, ◌%◌, ◌<◌, ◌≡◌, refl, Option, some, arith, ◌==◌, ◌||◌, leb, ltb, ◌&&◌, true,
  false, if◌then◌else◌, ◌>>=◌, Bool-cases, inl, inr, Option-cases,
}
use noise_v.Deque.{Deque, put, write, fetch, new_block, moved_map}

module _ {ℓ} {A : Type ℓ} where
  unfoldable pub value : (ℕ → Option (ℕ → A)) → ℕ → Option A
  value map p = map (p / 8) >>= λ block. some (block (p % 8))

  abbrev pub IsReady : (ℕ → Option (ℕ → A)) → ℕ → Type ℓ
  IsReady map b = (block : ℕ → A) × (map b ≡ some block)

  pub IsReady-value :
      (map : ℕ → Option (ℕ → A)) (p b : ℕ) (v : A)
      → value map p ≡ some v
      → p / 8 ≡ b
      → IsReady map b
  unfolding value
  IsReady-value map p b v e q = elim (Option-cases (map b)) [
    | inl n ↦ absurd (ground (arith, rw (q, n) at e))
    | inr (k, f) ↦ (k, f)
  ]

  abbrev pub written : (ℕ → Option (ℕ → A)) → ℕ → ℕ → A → (ℕ → A) → ℕ → Option (ℕ → A)
  written map b o v block = put map b (some (put block o v))

  pub write_lem :
      (d : Deque A) (b o : ℕ) (v : A) (block : ℕ → A)
      → d.map b ≡ some block
      → b < d.map_capacity
      → o < 8
      → write d b o v ≡ some (record d { map = written d.map b o v block })
  unfolding write
  write_lem d b o v block e p q =
      let test : (leb d.map_capacity b || leb 8 o) ≡ false = ground arith in rw (test, e) refl

  pub fetch_lem :
      (d : Deque A) (b o : ℕ) (v : A)
      → value d.map (b * 8 + o) ≡ some v
      → b < d.map_capacity
      → o < 8
      → fetch d b o ≡ some v
  unfolding fetch value
  fetch_lem d b o v e p q =
      let test : (leb d.map_capacity b || leb 8 o) ≡ false = ground arith in
      let own : (b * 8 + o) / 8 ≡ b = omega arith in
      let rest : (b * 8 + o) % 8 ≡ o = omega arith in rw test (rw (own, rest) at e)

  pub value-written :
      (map : ℕ → Option (ℕ → A)) (b o p : ℕ) (v : A) (block : ℕ → A)
      → map b ≡ some block
      → o < 8
      → value (written map b o v block) p ≡ (if b * 8 + o == p then some v else value map p)
  unfolding value
  value-written map b o p v block e q = elim (Bool-cases (b == p / 8)) [
    | inl same ↦
        let here : map (p / 8) ≡ some block = ground arith in
        let place : (b * 8 + o == p) ≡ (o == p % 8) = ground arith in
        rw (same, here, place) (ground arith)
    | inr other ↦ let apart : (b * 8 + o == p) ≡ false = ground arith in rw (other, apart) refl
  ]

  pub IsReady-written :
      (map : ℕ → Option (ℕ → A)) (b o c : ℕ) (v : A) (block : ℕ → A)
      → IsReady map c
      → IsReady (written map b o v block) c
  IsReady-written map b o c v block (k, e) = elim (Bool-cases (b == c)) [
    | inl same ↦ (put block o v, ground arith)
    | inr other ↦ (k, ground arith)
  ]

  -- What `ensure_block` makes of the map.
  abbrev pub ensured : A → (ℕ → Option (ℕ → A)) → ℕ → ℕ → Option (ℕ → A)
  ensured blank map b = new_block blank map b (map b)

  pub IsReady-ensured :
      (blank : A) (map : ℕ → Option (ℕ → A)) (b : ℕ) → IsReady (ensured blank map b) b
  unfolding new_block
  IsReady-ensured blank map b = elim (Option-cases (map b)) [
    | inl e ↦ rw e ((λ _. blank), ground arith)
    | inr (k, e) ↦ rw (e, new_block) (k, e)
  ]

  pub ensured_old :
      (blank : A) (map : ℕ → Option (ℕ → A)) (b c : ℕ) (k : ℕ → A)
      → map c ≡ some k
      → ensured blank map b c ≡ some k
  unfolding new_block
  ensured_old blank map b c k e = elim (Option-cases (map b)) [
    | inl n ↦ rw n (ground arith)
    | inr (j, f) ↦ rw (f, new_block) e
  ]

  pub IsReady-ensured_old :
      (blank : A) (map : ℕ → Option (ℕ → A)) (b c : ℕ)
      → IsReady map c
      → IsReady (ensured blank map b) c
  IsReady-ensured_old blank map b c (k, e) = (k, ensured_old blank map b c k e)

  -- An entry that is there stays.
  pub value-ensured :
      (blank : A) (map : ℕ → Option (ℕ → A)) (b p : ℕ) (v : A)
      → value map p ≡ some v
      → value (ensured blank map b) p ≡ some v
  unfolding value
  value-ensured blank map b p v e = elim (Option-cases (map (p / 8))) [
    | inl n ↦ absurd (ground (arith, rw n at e))
    | inr (k, f) ↦ rw (ensured_old blank map b (p / 8) k f) (rw f at e)
  ]

  -- What moves with its block.
  pub value-moved_map :
      (map : ℕ → Option (ℕ → A)) (from to count r p q : ℕ)
      → r / 8 < count
      → p ≡ 8 * to + r
      → q ≡ 8 * from + r
      → value (moved_map map from to count) p ≡ value map q
  unfolding value moved_map
  value-moved_map map from to count r p q inside here there =
      let block : p / 8 ≡ to + r / 8 = omega arith in
      let old : q / 8 ≡ from + r / 8 = omega arith in
      let place : p % 8 ≡ r % 8 = omega arith in
      let same : q % 8 ≡ r % 8 = omega arith in
      let test : (leb to (to + r / 8) && ltb (to + r / 8) (to + count)) ≡ true = ground arith in
      let back : from + (to + r / 8 - to) ≡ from + r / 8 = omega arith in
      rw (block, old, place, same, test, back) refl

  pub IsReady-moved_map :
      (map : ℕ → Option (ℕ → A)) (from to count b c : ℕ)
      → b < count
      → c ≡ to + b
      → IsReady map (from + b)
      → IsReady (moved_map map from to count) c
  unfolding moved_map
  IsReady-moved_map map from to count b c q e (k, f) =
      let test : (leb to (to + b) && ltb (to + b) (to + count)) ≡ true = ground arith in
      let back : from + (to + b - to) ≡ from + b = omega arith in (k, rw (e, test, back) f)
