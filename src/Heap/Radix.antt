-- ===== src/Heap/Radix.antt =====
-- The map from pages to headers of kernel/src/memory/heap.cpp.
use noise_v.Base.{
  ℕ, ◌+◌, ◌*◌, ◌/◌, ◌%◌, ◌^◌, ◌≡◌, refl, ap, ◌∙◌, none, some, ◌&&◌, arith, ◌==◌, if◌then◌else◌, inl,
  inr, Bool-cases, Option-cases,
}
use noise_v.Heap.{
  put, opened, Level1, Level2, Level3, HeapMap, index1, index2, index3, index4, map_set, map_get,
}

-- The four steps down, from any entry on.
walk1 : Level1 → ℕ → ℕ
walk1 none addr = 0
walk1 (some l1) addr = l1 (index1 addr)

walk2 : Level2 → ℕ → ℕ
walk2 none addr = 0
walk2 (some l2) addr = walk1 (l2 (index2 addr)) addr

walk3 : Level3 → ℕ → ℕ
walk3 none addr = 0
walk3 (some l3) addr = walk2 (l3 (index3 addr)) addr

walk4 : HeapMap → ℕ → ℕ
walk4 none addr = 0
walk4 (some l4) addr = walk3 (l4 (index4 addr)) addr

map_get-walk : (root : HeapMap) (addr : ℕ) → map_get root addr ≡ walk4 root addr
unfolding map_get walk4 walk3 walk2 walk1
map_get-walk none addr = refl
map_get-walk (some l4) addr = elim (Option-cases (l4 (index4 addr))) [
  | inl e ↦ rw (e, map_get) refl
  | inr (l3, e) ↦ elim (Option-cases (l3 (index3 addr))) [
    | inl f ↦ rw (e, map_get, f) refl
    | inr (l2, f) ↦ elim (Option-cases (l2 (index2 addr))) [
      | inl g ↦ rw (e, map_get, f, g) refl
      | inr (l1, g) ↦ rw (e, map_get, f, g) refl
    ]
  ]
]

-- A null node reads as its entries do.
walk2_open : (t : Level2) (addr : ℕ) → walk1 (opened none t (index2 addr)) addr ≡ walk2 t addr
unfolding walk2 walk1
walk2_open none addr = refl
walk2_open (some l) addr = refl

walk3_open : (t : Level3) (addr : ℕ) → walk2 (opened none t (index3 addr)) addr ≡ walk3 t addr
unfolding walk3 walk2
walk3_open none addr = refl
walk3_open (some l) addr = refl

walk4_open : (t : HeapMap) (addr : ℕ) → walk3 (opened none t (index4 addr)) addr ≡ walk4 t addr
unfolding walk4 walk3
walk4_open none addr = refl
walk4_open (some l) addr = refl

walk1_open : (t : Level1) (addr : ℕ) → opened 0 t (index1 addr) ≡ walk1 t addr
unfolding walk1
walk1_open none addr = refl
walk1_open (some l) addr = refl

set1 : Level1 → ℕ → ℕ → Level1
set1 t addr s = some (put (opened 0 t) (index1 addr) s)

walk1-set1 :
    (t : Level1) (addr other s : ℕ)
    → walk1 (set1 t addr s) other ≡ (if index1 addr == index1 other then s else walk1 t other)
unfolding set1 walk1
walk1-set1 t addr other s = elim (Bool-cases (index1 addr == index1 other)) [
  | inl same ↦ rw same refl
  | inr apart ↦ rw (apart, walk1_open t other) refl
]

set2 : Level2 → ℕ → ℕ → Level2
set2 t addr s = some (put (opened none t) (index2 addr) (set1 (opened none t (index2 addr)) addr s))

walk2-set2 :
    (t : Level2) (addr other s : ℕ)
    → walk2 (set2 t addr s) other ≡ (
        if (index2 addr == index2 other) && (index1 addr == index1 other) then s else walk2 t other)
unfolding set2 walk2
walk2-set2 t addr other s = elim (Bool-cases (index2 addr == index2 other)) [
  | inl same ↦
      let place : index2 addr ≡ index2 other = ground arith in
      let below = ap (λ i. walk1 (opened none t i) other) place ∙ walk2_open t other in
      rw (same, walk1-set1 (opened none t (index2 addr)) addr other s, below) refl
  | inr apart ↦ rw (apart, walk2_open t other) refl
]

set3 : Level3 → ℕ → ℕ → Level3
set3 t addr s = some (put (opened none t) (index3 addr) (set2 (opened none t (index3 addr)) addr s))

walk3-set3 :
    (t : Level3) (addr other s : ℕ)
    → walk3 (set3 t addr s) other ≡ (
        if (index3 addr == index3 other)
          && (index2 addr == index2 other)
          && (index1 addr == index1 other)
        then s
        else walk3 t other)
unfolding set3 walk3
walk3-set3 t addr other s = elim (Bool-cases (index3 addr == index3 other)) [
  | inl same ↦
      let place : index3 addr ≡ index3 other = ground arith in
      let below = ap (λ i. walk2 (opened none t i) other) place ∙ walk3_open t other in
      rw (same, walk2-set2 (opened none t (index3 addr)) addr other s, below) refl
  | inr apart ↦ rw (apart, walk3_open t other) refl
]

set4 : HeapMap → ℕ → ℕ → HeapMap
set4 t addr s = some (put (opened none t) (index4 addr) (set3 (opened none t (index4 addr)) addr s))

walk4-set4 :
    (t : HeapMap) (addr other s : ℕ)
    → walk4 (set4 t addr s) other ≡ (
        if (index4 addr == index4 other)
          && (index3 addr == index3 other)
          && (index2 addr == index2 other)
          && (index1 addr == index1 other)
        then s
        else walk4 t other)
unfolding set4 walk4
walk4-set4 t addr other s = elim (Bool-cases (index4 addr == index4 other)) [
  | inl same ↦
      let place : index4 addr ≡ index4 other = ground arith in
      let below = ap (λ i. walk3 (opened none t i) other) place ∙ walk4_open t other in
      rw (same, walk3-set3 (opened none t (index4 addr)) addr other s, below) refl
  | inr apart ↦ rw (apart, walk4_open t other) refl
]

page_digits :
    (addr : ℕ)
    → addr / 2 ^ 12 % 2 ^ 36
      ≡ index4 addr * 2 ^ 27 + index3 addr * 2 ^ 18 + index2 addr * 2 ^ 9 + index1 addr
page_digits addr = omega arith

same_page :
    (addr other : ℕ)
    → ((index4 addr == index4 other)
        && (index3 addr == index3 other)
        && (index2 addr == index2 other)
        && (index1 addr == index1 other))
      ≡ (addr / 2 ^ 12 % 2 ^ 36 == other / 2 ^ 12 % 2 ^ 36)
same_page addr other =
    let a = page_digits addr in let b = page_digits other in rw (a, b) (ground arith)

-- After `set` for one address, `get` gives the new header for the addresses of the same page, by
-- the lower 48 bits, and for all others what it gave before.
pub map_get-map_set :
    (root : HeapMap) (addr other s : ℕ)
    → map_get (map_set root addr s) other
      ≡ (if addr / 2 ^ 12 % 2 ^ 36 == other / 2 ^ 12 % 2 ^ 36 then s else map_get root other)
unfolding map_set set4 set3 set2 set1
map_get-map_set root addr other s =
    map_get-walk (map_set root addr s) other
    ∙ walk4-set4 root addr other s
    ∙ rw (same_page addr other, map_get-walk root other) refl
