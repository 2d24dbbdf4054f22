-- ===== src/Pmm/Bits.antt =====
-- The bitmap and the summary of kernel/src/memory/pmm.cpp agree.
use noise_v.Base.{
  ℕ, ◌*◌, ◌/◌, ◌%◌, ◌≤◌, ◌<◌, ◌≡◌, ◌≢◌, refl, ap, sym, ◌∙◌, inl, inr, ◌↔◌, arith, ◌==◌,
  if◌then◌else◌, length, get_or, set, get_or-set, length-set, set_same, Bool-cases,
}
use noise_v.Base.Digits.{digit, digit-le}
use noise_v.Base.Words.{
  u64_mod, all_ones, set_in, clear_in, set_in-lt, clear_in-lt, digit-set_in, digit-clear_in,
  test_in-digit, full_of_digits, digit-all_ones,
}
use noise_v.Pmm.{Pmm, word, summary, put_word, mark_full, mark_open, set_bit, clear_bit, test_bit}

-- The bit of a page, and that of a word in the summary.
abbrev pub used : Pmm → ℕ → ℕ
used m idx = digit (word m (idx / 64)) (idx % 64)

abbrev pub full : Pmm → ℕ → ℕ
full m i = digit (summary m (i / 64)) (i % 64)

-- A word is marked in the summary exactly when it is full.
pub record IsValid (m : Pmm) : Type 0 where
  pub words_size : length m.bitmap ≡ m.bitmap_entries
  pub summary_size : m.bitmap_entries ≤ length m.summary_bitmap * 64
  pub pages : m.total_pages ≤ m.bitmap_entries * 64
  pub words : (i : ℕ) → word m i < u64_mod
  pub summaries : (s : ℕ) → summary m s < u64_mod
  pub full_iff : (i : ℕ) → i < m.bitmap_entries → (full m i ≡ 1) ↔ (word m i ≡ all_ones)

-- Writing a word and its summary bit.
pub put-IsValid :
    (m m' : Pmm) (i w s : ℕ)
    → IsValid m
    → i < m.bitmap_entries
    → w < u64_mod
    → s < u64_mod
    → m'.bitmap ≡ set m.bitmap i w
    → m'.summary_bitmap ≡ set m.summary_bitmap (i / 64) s
    → m'.bitmap_entries ≡ m.bitmap_entries
    → m'.total_pages ≡ m.total_pages
    → ((j : ℕ)
        → j < 64
        → digit s j ≡ (
            if i % 64 == j then (if w == all_ones then 1 else 0) else digit (summary m (i / 64)) j))
    → IsValid m'
put-IsValid m m' i w s v h lw ls eb es ee et f =
    let read_word = λ (j : ℕ).
      ap (λ b. get_or b j all_ones) eb
      ∙ get_or-set m.bitmap i j w all_ones (omega (arith, v.words_size)) in
    let read_summary = λ (j : ℕ).
      ap (λ b. get_or b j all_ones) es
      ∙ get_or-set m.summary_bitmap (i / 64) j s all_ones (omega (arith, v.summary_size)) in
    record {
      words_size = ap length eb ∙ length-set m.bitmap i w ∙ v.words_size ∙ sym ee;
      summary_size =
          omega (arith, ap length es, length-set m.summary_bitmap (i / 64) s, v.summary_size, ee);
      pages = omega (arith, v.pages, ee, et);
      words = λ j. ground (arith, read_word j, v.words j);
      summaries = λ j. ground (arith, read_summary j, v.summaries j);
      full_iff = λ j p. ground (
        arith,
        read_word j,
        read_summary (j / 64),
        v.full_iff j,
        ee,
        f (j % 64),
        ap (λ n. digit (summary m n) (j % 64)),
      );
    }

clear-full : (w b : ℕ) → b < 64 → clear_in w b ≢ all_ones
clear-full w b h e =
    ground (arith, digit-clear_in w b b h h, ap (λ x. digit x b) e, digit-all_ones b h)

still_full : (w b : ℕ) → b < 64 → w ≡ all_ones → w < u64_mod → set_in w b ≡ all_ones
still_full w b h e small =
    full_of_digits (set_in w b) (set_in-lt w b small h)
      (λ i p. ground (arith, digit-set_in w b i, ap (λ x. digit x i) e, digit-all_ones i p))

module _ (m : Pmm) (idx : ℕ) (v : IsValid m) (h : idx < m.total_pages) where
  inside : idx / 64 < m.bitmap_entries
  inside = omega (arith, v.pages)

  word-set_bit :
      (i : ℕ)
      → word (set_bit m idx) i
        ≡ (if idx / 64 == i then set_in (word m (idx / 64)) (idx % 64) else word m i)
  unfolding set_bit mark_full
  word-set_bit i =
      let w = set_in (word m (idx / 64)) (idx % 64) in
      let read =
        get_or-set m.bitmap (idx / 64) i w all_ones (omega (arith, v.words_size, inside)) in
      elim (Bool-cases (w == all_ones)) [ inl e ↦ rw e read | inr e ↦ rw e read ]

  -- Setting the bit of a managed page of a valid manager marks it used and no other, and keeps the summary in step.
  pub set_bit_lem :
      ((j : ℕ) → used (set_bit m idx) j ≡ (if idx == j then 1 else used m j))
      × IsValid (set_bit m idx)
  unfolding set_bit mark_full
  set_bit_lem =
      let i = idx / 64 in
      let w = set_in (word m i) (idx % 64) in
      let small = set_in-lt (word m i) (idx % 64) (v.words i) (omega arith) in
      (
        (λ j. ground (arith, word-set_bit (j / 64), digit-set_in (word m i) (idx % 64) (j % 64))),
        elim (Bool-cases (w == all_ones)) [
          | inl e ↦ rw e (
              put-IsValid m (mark_full (put_word m i w) i) i w
                (set_in (summary m (i / 64)) (i % 64)) v inside small
                (set_in-lt (summary m (i / 64)) (i % 64) (v.summaries (i / 64)) (omega arith)) refl
                refl refl refl
                (λ j p. ground (arith, e, digit-set_in (summary m (i / 64)) (i % 64) j)))
          | inr e ↦ rw e (
              put-IsValid m (put_word m i w) i w (summary m (i / 64)) v inside small
                (v.summaries (i / 64)) refl (sym (set_same m.summary_bitmap (i / 64) all_ones)) refl
                refl
                (λ j p. ground (
                  arith,
                  e,
                  v.full_iff i inside,
                  digit-le (summary m (i / 64)) (i % 64),
                  still_full (word m i) (idx % 64),
                  v.words i,
                  ap (λ b. digit (summary m (i / 64)) b),
                )))
        ],
      )

  word-clear_bit :
      (i : ℕ)
      → word (clear_bit m idx) i
        ≡ (if idx / 64 == i then clear_in (word m (idx / 64)) (idx % 64) else word m i)
  unfolding clear_bit mark_open
  word-clear_bit i =
      get_or-set m.bitmap (idx / 64) i (clear_in (word m (idx / 64)) (idx % 64)) all_ones
        (omega (arith, v.words_size, inside))

  -- Clearing the bit of a managed page of a valid manager frees it and no other, and keeps the summary in step.
  pub clear_bit_lem :
      ((j : ℕ) → used (clear_bit m idx) j ≡ (if idx == j then 0 else used m j))
      × IsValid (clear_bit m idx)
  unfolding clear_bit mark_open
  clear_bit_lem =
      let i = idx / 64 in
      let w = clear_in (word m i) (idx % 64) in
      (
        (λ j.
            ground (arith, word-clear_bit (j / 64), digit-clear_in (word m i) (idx % 64) (j % 64))),
        put-IsValid m (mark_open (put_word m i w) i) i w (clear_in (summary m (i / 64)) (i % 64)) v
            inside (clear_in-lt (word m i) (idx % 64) (v.words i))
            (clear_in-lt (summary m (i / 64)) (i % 64) (v.summaries (i / 64))) refl refl refl refl
            (λ j p. ground (
              arith,
              clear-full (word m i) (idx % 64),
              digit-clear_in (summary m (i / 64)) (i % 64) j,
            )),
      )

-- `test_bit` reads the bit of the page.
pub test_bit-used : (m : Pmm) (idx : ℕ) → IsValid m → test_bit m idx ≡ (used m idx == 1)
unfolding test_bit
test_bit-used m idx v = test_in-digit (word m (idx / 64)) (idx % 64) (v.words (idx / 64))
