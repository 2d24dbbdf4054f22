-- ===== src/Pcid/Alloc.antt =====
-- What kernel/src/memory/pcid_manager.cpp hands out.
use native.Mathlib.Decide.{dec_lt}
use noise_v.Base.{
  ℕ, zero, suc, ◌+◌, ◌-◌, ◌*◌, ◌/◌, ◌%◌, ◌≤◌, ◌<◌, ◌≡◌, ◌≢◌, refl, sym, ap, subst, ◌∙◌, inl, inr,
  false, Option, none, some, ◌∷◌, arith, ◌==◌, get_or-set, Bool-cases, Option-cases,
}
use noise_v.Base.Digits.{digit}
use noise_v.Base.Words.{all_ones, first_zero, first_zero_lem, digit-all_ones}
use noise_v.Pcid.{
  PcidManager, cache_set, slot, word, claim_slot, scan, steal, allocate_new, get_pcid, invalidate,
  max_pcid_num, no_pcid, bitmap_words,
}
use noise_v.Pcid.Slots.{IsValid, used, claim_slot-IsValid, slot-claim_slot, steal-IsValid}

-- The scan from word `i` takes the first identifier from `64 * i` on that is free.
abbrev Finds : PcidManager → ℕ → Option ℕ → Type 0
Finds m lo none = (j : ℕ) → lo ≤ j → j < max_pcid_num → used m j ≡ 1
Finds m lo (some pcid) =
    (lo ≤ pcid)
    × (pcid < max_pcid_num)
    × (used m pcid ≡ 0)
    × ((j : ℕ) → lo ≤ j → j < pcid → used m j ≡ 1)

full_word : (m : PcidManager) (i j : ℕ) → word m i ≡ all_ones → j / 64 ≡ i → used m j ≡ 1
full_word m i j e f = rw (f, e) (digit-all_ones (j % 64) (omega arith))

Finds-earlier :
    (m : PcidManager) (i : ℕ) (r : Option ℕ)
    → ((j : ℕ) → j / 64 ≡ i → used m j ≡ 1)
    → Finds m ((i + 1) * 64) r
    → Finds m (i * 64) r
Finds-earlier m i none full f = λ j p q. elim (dec_lt j ((i + 1) * 64)) [
  | yes h ↦ full j (omega arith)
  | no h ↦ f j (omega arith) q
]
Finds-earlier m i (some pcid) full (a, b, c, d) = (
  omega arith,
  b,
  c,
  λ j p q. elim (dec_lt j ((i + 1) * 64)) [
    | yes h ↦ full j (omega arith)
    | no h ↦ d j (omega arith) q
  ],
)

-- The word of `j` read through the place of `j` in it.
used_at : (m : PcidManager) (i b j : ℕ) → j ≡ i * 64 + b → b < 64 → used m j ≡ digit (word m i) b
used_at m i b j e h =
    let q : j / 64 ≡ i = omega arith in let r : j % 64 ≡ b = omega arith in rw (q, r)

scan-Finds :
    (n i : ℕ) (m : PcidManager) → i + n ≡ bitmap_words → IsValid m → Finds m (i * 64) (scan n i m)
unfolding scan
scan-Finds zero i m e v = λ j p q. absurd (omega arith)
scan-Finds (suc n) i m e v = elim (Bool-cases (word m i == all_ones)) [
  | inl full ↦ rw full (
      Finds-earlier m i (scan n (i + 1) m) (λ j. full_word m i j (ground arith))
        (scan-Finds n (i + 1) m (omega arith) v))
  | inr open_word ↦
      let b = first_zero (word m i) in
      let (below, hit, before) = first_zero_lem (word m i) (v.words i) (λ e'. ground arith) in
      let not_kernel : i * 64 + b ≢ 0 =
        λ z. ground (arith, used_at m i b 0 (sym z) below, v.kernel_used) in
      let test : (i * 64 + b == 0) ≡ false = ground arith in
      rw (open_word, test)
        (
          omega arith,
          omega arith,
          used_at m i b (i * 64 + b) refl below ∙ hit,
          λ j p q.
              used_at m i (j - i * 64) j (omega arith) (omega arith)
              ∙ before (j - i * 64) (omega arith),
        )
]

-- Any cached identifier but 0 is taken for none.
get_pcid_misses :
    (m : PcidManager) (proc : ℕ) → m.pcid_cache proc ≢ 0 → get_pcid m proc ≡ allocate_new m proc
unfolding get_pcid
get_pcid_misses m proc ne = ground arith

-- What an allocation for `proc` has done.
pub record IsAllocated (m : PcidManager) (proc pcid : ℕ) (m' : PcidManager) : Type 0 where
  pub not_kernel : pcid ≢ 0
  pub inside : pcid < max_pcid_num
  pub owner : slot m' pcid ≡ some proc
  pub cached : m'.pcid_cache proc ≡ pcid
  pub flushes : m'.flushed ≡ pcid ∷ m.flushed
  pub others : (i : ℕ) → i ≢ pcid → slot m' i ≡ slot m i
  pub told : (q : ℕ) → slot m pcid ≡ some q → q ≢ proc → m'.pcid_cache q ≡ no_pcid
  pub others_cached : (q : ℕ) → q ≢ proc → slot m pcid ≢ some q → m'.pcid_cache q ≡ m.pcid_cache q
  pub prefers_free :
      (j : ℕ) → j < max_pcid_num → slot m j ≡ none → (slot m pcid ≡ none) × (pcid ≤ j)
  pub valid : IsValid m'

module _ (m : PcidManager) (proc : ℕ) (v : IsValid m) where
  claimed : (pcid : ℕ) → Finds m 0 (some pcid) → IsAllocated m proc pcid (claim_slot m pcid proc)
  unfolding claim_slot
  claimed pcid (a, b, c, d) =
      let free : slot m pcid ≡ none = (v.free_iff pcid b).0 c in
      record {
        not_kernel = λ e. ground (arith, v.kernel_used, ap (used m) e);
        inside = b;
        owner = ground (arith, slot-claim_slot m pcid proc v b pcid);
        cached = ground arith;
        flushes = refl;
        others = λ i ne. ground (arith, slot-claim_slot m pcid proc v b i);
        told = λ q e. cc;
        others_cached = λ q ne not_owner. ground arith;
        prefers_free = λ j p e. (free, ground (arith, v.free_iff j p, d j));
        valid = claim_slot-IsValid m pcid proc v b;
      }

  cache_others :
      (q : ℕ) (owner : Option ℕ)
      → q ≢ proc
      → owner ≢ some q
      → cache_set (invalidate owner m.pcid_cache) proc m.victim_iterator q ≡ m.pcid_cache q
  unfolding invalidate
  cache_others q none ne not_owner = ground arith
  cache_others q (some p) ne not_owner =
      let other : p ≢ q = λ e. not_owner (ap some e) in ground (arith, other)

  stolen : Finds m 0 none → IsAllocated m proc (steal m proc).0 (steal m proc).1
  unfolding steal invalidate
  stolen full =
      let victim = m.victim_iterator in
      let mark = full victim (omega arith) v.victim_below in
      let read = λ (i : ℕ).
        get_or-set m.slots victim i (some proc) none
          (omega (arith, v.slots_size, v.victim_below)) in
      record {
        not_kernel = λ e. omega (arith, v.victim_above);
        inside = v.victim_below;
        owner = ground (arith, read victim);
        cached = ground arith;
        flushes = refl;
        others = λ i ne. ground (arith, read i);
        told = λ q e ne. rw (e, invalidate) (ground arith);
        others_cached = λ q ne not_owner. cache_others q (slot m victim) ne not_owner;
        prefers_free = λ j p e. ground (arith, v.free_iff j p, full j);
        valid = steal-IsValid m proc v mark;
      }

  -- `allocate_new` gives a process an identifier other than the kernel's, records it as its owner
  -- and in its cache, flushes that identifier and no other, touches no other slot, and keeps the
  -- books in order. It takes the lowest free identifier while there is one; when it has to take
  -- another process's, that process is told that its cached one is void. What all other processes
  -- have cached stays.
  pub allocate_new-IsAllocated : IsAllocated m proc (allocate_new m proc).0 (allocate_new m proc).1
  unfolding allocate_new
  allocate_new-IsAllocated = elim (Option-cases (scan bitmap_words 0 m)) [
    | inl e ↦
        let f = subst (Finds m 0) e (scan-Finds 64 0 m (omega arith) v) in
        rw (e, allocate_new) (stolen f)
    | inr (pcid, e) ↦
        let f = subst (Finds m 0) e (scan-Finds 64 0 m (omega arith) v) in
        rw (e, allocate_new) (claimed pcid f)
  ]

  -- A process that holds an identifier other than 0 and asks again, while some identifier is free,
  -- gets a second one: it owns both from then on, and the new one is flushed.
  pub get_pcid_leaks :
      (held j : ℕ)
      → m.pcid_cache proc ≡ held
      → held ≢ 0
      → slot m held ≡ some proc
      → j < max_pcid_num
      → slot m j ≡ none
      → let (pcid, m') = get_pcid m proc in
        (pcid ≢ held)
        × (slot m' pcid ≡ some proc)
        × (slot m' held ≡ some proc)
        × (m'.flushed ≡ pcid ∷ m.flushed)
  get_pcid_leaks held j e ne owns p free =
      let a = allocate_new-IsAllocated in
      let ne' : (allocate_new m proc).0 ≢ held =
        λ same. ground (arith, a.prefers_free j p free, ap (slot m) same) in
      rw (get_pcid_misses m proc (λ z. ne (sym e ∙ z)))
        (ne', a.owner, a.others held (λ same. ne' (sym same)) ∙ owns, a.flushes)
