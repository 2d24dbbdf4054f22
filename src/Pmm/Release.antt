-- ===== src/Pmm/Release.antt =====
-- `free_to_bitmap` of kernel/src/memory/pmm.cpp.
use noise_v.Base.{
  ℕ, zero, suc, ◌+◌, ◌*◌, ◌/◌, ◌%◌, ◌≤◌, ◌<◌, ◌≡◌, refl, ap, ◌∙◌, ◌⊎◌, inl, inr, not, ◌&&◌, arith,
  ltb, leb, ◌==◌, if◌then◌else◌, get_or-set, Bool-cases,
}
use noise_v.Base.Digits.{digit, digit-le, digit-zero}
use noise_v.Base.Words.{all_ones, clear_in, clear_in-lt, digit-clear_in, sub64, popcount}
use noise_v.Pmm.{Pmm, bit_count, word, summary, put_word, mark_open, clear_bit, test_bit}
use noise_v.Pmm.Bits.{IsValid, used, put-IsValid, clear_bit_lem, test_bit-used}
use noise_v.Pmm.Runs.{within}
use noise_v.Pmm.Aligned.{copy-IsValid}
use noise_v.Pmm.Free.{free_page, free_head, free_word, free_words, free_tail, free_to_bitmap}

-- `m'` is `m` with the pages from `p` to below `q` freed.
record IsFreed (m : Pmm) (p q : ℕ) (m' : Pmm) : Type 0 where
  bits : (j : ℕ) → used m' j ≡ (if leb p j && ltb j q then 0 else used m j)
  valid : IsValid m'
  total : m'.total_pages ≡ m.total_pages

IsFreed-none : (m : Pmm) (p : ℕ) → IsValid m → IsFreed m p p m
IsFreed-none m p v = record { bits = λ j. ground arith; valid = v; total = refl }

IsFreed-both :
    (m m1 m2 : Pmm) (p q r : ℕ)
    → p ≤ q
    → q ≤ r
    → IsFreed m p q m1
    → IsFreed m1 q r m2
    → IsFreed m p r m2
IsFreed-both m m1 m2 p q r h k f g = record {
  bits = λ j. g.bits j ∙ ground (arith, f.bits j);
  valid = g.valid;
  total = g.total ∙ f.total;
}

free_page-IsFreed :
    (m : Pmm) (curr : ℕ)
    → IsValid m
    → curr < m.total_pages
    → IsFreed m curr (curr + 1) (free_page m curr)
unfolding free_page clear_bit mark_open
free_page-IsFreed m curr v h =
    let (bits, valid) = clear_bit_lem m curr v h in
    let m1 = clear_bit m curr in
    let read = test_bit-used m curr v in
    elim (Bool-cases (ltb curr m.total_pages && test_bit m curr)) [
      | inl e ↦ rw e (record {
        bits = λ j. bits j ∙ ground arith;
        valid =
            copy-IsValid m1 (record m1 { used_pages = sub64 m1.used_pages 1 }) valid refl refl refl
              refl;
        total = refl;
      })
      | inr e ↦ rw e (record {
        bits = λ j.
            ground
              (arith, h, e, read, digit-le (word m (curr / 64)) (curr % 64), ap (λ i. used m i));
        valid = v;
        total = refl;
      })
    ]

free_tail-IsFreed :
    (n : ℕ) (m : Pmm) (curr : ℕ)
    → IsValid m
    → curr + n ≤ m.total_pages
    → IsFreed m curr (curr + n) (free_tail n m curr)
unfolding free_tail
free_tail-IsFreed zero m curr v h =
    let e : curr + 0 ≡ curr = omega arith in rw e (IsFreed-none m curr v)
free_tail-IsFreed (suc n) m curr v h =
    let one = free_page-IsFreed m curr v (omega (arith, h)) in
    let m1 = free_page m curr in
    let rest = free_tail-IsFreed n m1 (curr + 1) one.valid (omega (arith, h, one.total)) in
    let e : curr + 1 + n ≡ curr + suc n = omega arith in
    IsFreed-both m m1 _ curr (curr + 1) (curr + suc n) (omega arith) (omega arith) one
      (rw e at rest)

free_head-IsFreed :
    (n : ℕ) (m : Pmm) (curr : ℕ)
    → IsValid m
    → curr + n ≤ m.total_pages
    → let (m1, at, left) = free_head n m curr in
      IsFreed m curr at m1 × (at + left ≡ curr + n) × (curr ≤ at) × ((left ≡ 0) ⊎ (at % 64 ≡ 0))
unfolding free_head
free_head-IsFreed zero m curr v h = (IsFreed-none m curr v, omega arith, omega arith, inl refl)
free_head-IsFreed (suc n) m curr v h =
    let one = free_page-IsFreed m curr v (omega (arith, h)) in
    let m1 = free_page m curr in
    let (rest, sum, le, stop) =
      free_head-IsFreed n m1 (curr + 1) one.valid (omega (arith, h, one.total)) in
    elim (Bool-cases (curr % bit_count == 0)) [
      | inl e ↦ rw e (IsFreed-none m curr v, refl, omega arith, inr (ground (arith, e)))
      | inr e ↦ rw e (
        IsFreed-both m m1 _ curr (curr + 1) _ (omega arith) le one rest,
        omega (arith, sum),
        omega (arith, le),
        stop,
      )
    ]

free_word-IsFreed :
    (m : Pmm) (curr : ℕ)
    → IsValid m
    → curr % 64 ≡ 0
    → curr + 64 ≤ m.total_pages
    → IsFreed m curr (curr + 64) (free_word m (curr / 64))
unfolding free_word mark_open
free_word-IsFreed m curr v mult h =
    let i = curr / 64 in
    let inside : i < m.bitmap_entries = omega (arith, v.pages, h) in
    let old = word m i in
    let m1 = mark_open (put_word m i 0) i in
    let read =
      λ (j : ℕ). get_or-set m.bitmap i j 0 all_ones (omega (arith, v.words_size, inside)) in
    elim (Bool-cases (ltb i m.bitmap_entries && not (old == 0))) [
      | inl e ↦ rw e (record {
        bits = λ j. ground (arith, mult, read (j / 64), digit-zero (j % 64));
        valid =
            put-IsValid m (record m1 { used_pages = sub64 m1.used_pages (popcount 64 old) }) i 0
              (clear_in (summary m (i / 64)) (i % 64)) v inside (omega arith)
              (clear_in-lt (summary m (i / 64)) (i % 64) (v.summaries (i / 64))) refl refl refl refl
              (λ j p. ground (arith, digit-clear_in (summary m (i / 64)) (i % 64) j));
        total = refl;
      })
      | inr e ↦
          let zero_word : old ≡ 0 = ground (arith, e, inside) in
          rw e (record {
            bits = λ j. ground (
              arith,
              mult,
              digit-zero (j % 64),
              ap (λ w. digit w (j % 64)) zero_word,
              ap (λ n. digit (word m n) (j % 64)),
            );
            valid = v;
            total = refl;
          })
    ]

free_words-IsFreed :
    (n : ℕ) (m : Pmm) (curr : ℕ)
    → IsValid m
    → curr % 64 ≡ 0
    → curr + n * 64 ≤ m.total_pages
    → IsFreed m curr (curr + n * 64) (free_words n m curr)
unfolding free_words
free_words-IsFreed zero m curr v mult h =
    let e : curr + 0 * 64 ≡ curr = omega arith in rw e (IsFreed-none m curr v)
free_words-IsFreed (suc n) m curr v mult h =
    let one = free_word-IsFreed m curr v mult (omega (arith, h)) in
    let m1 = free_word m (curr / 64) in
    let rest =
      free_words-IsFreed n m1 (curr + 64) one.valid (omega (arith, mult))
        (omega (arith, h, one.total)) in
    let e : curr + 64 + n * 64 ≡ curr + suc n * 64 = omega arith in
    IsFreed-both m m1 _ curr (curr + 64) (curr + suc n * 64) (omega arith) (omega arith) one
      (rw e at rest)

whole_words :
    (n : ℕ) (m : Pmm) (curr : ℕ)
    → IsValid m
    → (n ≡ 0) ⊎ (curr % 64 ≡ 0)
    → curr + n * 64 ≤ m.total_pages
    → IsFreed m curr (curr + n * 64) (free_words n m curr)
unfolding free_words
whole_words n m curr v (inr mult) h = free_words-IsFreed n m curr v mult h
whole_words zero m curr v (inl e) h =
    let same : curr + 0 * 64 ≡ curr = omega arith in rw same (IsFreed-none m curr v)
whole_words (suc n) m curr v (inl e) h = absurd (omega (arith, e))

-- `free_to_bitmap` of a run of managed pages of a valid manager frees exactly these, by bits and by whole words, and keeps
-- the manager valid and its size.
pub free_to_bitmap_lem :
    (m : Pmm) (page_idx count : ℕ)
    → IsValid m
    → page_idx + count ≤ m.total_pages
    → ((j : ℕ)
        → used (free_to_bitmap m page_idx count) j
          ≡ (if within page_idx count j then 0 else used m j))
      × IsValid (free_to_bitmap m page_idx count)
      × ((free_to_bitmap m page_idx count).total_pages ≡ m.total_pages)
unfolding free_to_bitmap
free_to_bitmap_lem m page_idx count v h =
    let (head, sum, le, stop) = free_head-IsFreed count m page_idx v h in
    let (m1, at_page, left) = free_head count m page_idx in
    let words = left / 64 in
    let middle : IsFreed m1 at_page (at_page + words * 64) (free_words words m1 at_page) =
      whole_words words m1 at_page head.valid (ground (arith, stop))
        (omega (arith, sum, h, head.total)) in
    let m2 = free_words words m1 at_page in
    let from = at_page + words * 64 in
    let tail =
      free_tail-IsFreed (left % 64) m2 from middle.valid
        (omega (arith, sum, h, head.total, middle.total)) in
    let m3 = free_tail (left % 64) m2 from in
    let done =
      IsFreed-both m m2 m3 page_idx from (from + left % 64) (omega (arith, le)) (omega arith)
        (IsFreed-both m m1 m2 page_idx at_page from le (omega arith) head middle) tail in
    let end : from + left % 64 ≡ page_idx + count = omega (arith, sum) in
    elim (Bool-cases (ltb page_idx m3.free_idx_hint && ltb m3.low_mem_threshold_idx page_idx)) [
      | inl e ↦ rw e (
        (λ j. done.bits j ∙ ground (arith, end)),
        copy-IsValid m3 (record m3 { free_idx_hint = page_idx }) done.valid refl refl refl refl,
        done.total,
      )
      | inr e ↦ rw e ((λ j. done.bits j ∙ ground (arith, end)), done.valid, done.total)
    ]
