-- ===== src/Pcid/Slots.antt =====
-- The slots and the bitmap of kernel/src/memory/pcid_manager.cpp agree.
use native.Mathlib.Decide.{dec_lt}
use noise_v.Base.{
  ℕ, ◌/◌, ◌%◌, ◌≤◌, ◌<◌, ◌≡◌, ◌≢◌, refl, ◌∙◌, ◌↔◌, false, Option, none, some, arith, ◌==◌, leb,
  ◌||◌, if◌then◌else◌, length, get_or, length-set, get_or-set, length-replicate, get_or-replicate,
  get_or-replicate_self, get_or_above, replicate,
}
use noise_v.Base.Digits.{digit, digit-zero, digit-pow}
use noise_v.Base.Words.{
  u64_mod, all_ones, set_in, clear_in, set_in-lt, clear_in-lt, digit-set_in, digit-clear_in,
}
use noise_v.Pcid.{
  PcidManager, slot, word, init, claim_slot, steal, free_pcid, force_invalidate, no_pcid, cache_set,
  max_pcid_num, bitmap_words,
}

-- The bit of an identifier.
abbrev pub used : PcidManager → ℕ → ℕ
used m i = digit (word m (i / 64)) (i % 64)

-- An identifier is marked used exactly when its slot has an owner, the kernel's is, and the next
-- victim is never the kernel's.
pub record IsValid (m : PcidManager) : Type 0 where
  pub slots_size : length m.slots ≡ max_pcid_num
  pub words_size : length m.used_bitmap ≡ 64
  pub words : (i : ℕ) → word m i < u64_mod
  pub free_iff : (i : ℕ) → i < max_pcid_num → (used m i ≡ 0) ↔ (slot m i ≡ none)
  pub kernel_used : used m 0 ≡ 1
  pub victim_above : 1 ≤ m.victim_iterator
  pub victim_below : m.victim_iterator < max_pcid_num

module _ (m : PcidManager) (pcid proc : ℕ) (v : IsValid m) (h : pcid < max_pcid_num) where
  word-claim_slot :
      (i : ℕ)
      → word (claim_slot m pcid proc) i
        ≡ (if pcid / 64 == i then set_in (word m (pcid / 64)) (pcid % 64) else word m i)
  unfolding claim_slot
  word-claim_slot i =
      get_or-set m.used_bitmap (pcid / 64) i (set_in (word m (pcid / 64)) (pcid % 64)) all_ones
        (omega (arith, v.words_size))

  pub used-claim_slot :
      (i : ℕ) → used (claim_slot m pcid proc) i ≡ (if pcid == i then 1 else used m i)
  used-claim_slot i =
      ground
        (arith, word-claim_slot (i / 64), digit-set_in (word m (pcid / 64)) (pcid % 64) (i % 64))

  pub slot-claim_slot :
      (i : ℕ) → slot (claim_slot m pcid proc) i ≡ (if pcid == i then some proc else slot m i)
  unfolding claim_slot
  slot-claim_slot i = get_or-set m.slots pcid i (some proc) none (omega (arith, v.slots_size))

  -- Claiming keeps the books in order.
  pub claim_slot-IsValid : IsValid (claim_slot m pcid proc)
  unfolding claim_slot
  claim_slot-IsValid = record {
    slots_size = length-set m.slots pcid (some proc) ∙ v.slots_size;
    words_size = length-set m.used_bitmap (pcid / 64) _ ∙ v.words_size;
    words = λ i. ground (
      arith,
      word-claim_slot i,
      v.words i,
      v.words (pcid / 64),
      set_in-lt (word m (pcid / 64)) (pcid % 64),
    );
    free_iff = λ i p. ground (arith, used-claim_slot i, slot-claim_slot i, v.free_iff i p);
    kernel_used = ground (arith, used-claim_slot 0, v.kernel_used);
    victim_above = v.victim_above;
    victim_below = v.victim_below;
  }

module _ (m : PcidManager) (pcid : ℕ) (v : IsValid m) (h : pcid < max_pcid_num) where
  word-free_pcid :
      (i : ℕ)
      → pcid ≢ 0
      → word (free_pcid m pcid) i
        ≡ (if pcid / 64 == i then clear_in (word m (pcid / 64)) (pcid % 64) else word m i)
  unfolding free_pcid
  word-free_pcid i ne = ground (
    arith,
    v.words_size,
    get_or-set m.used_bitmap (pcid / 64) i (clear_in (word m (pcid / 64)) (pcid % 64)) all_ones,
  )

  pub used-free_pcid :
      (i : ℕ) → pcid ≢ 0 → used (free_pcid m pcid) i ≡ (if pcid == i then 0 else used m i)
  used-free_pcid i ne =
      ground
        (arith, word-free_pcid (i / 64), digit-clear_in (word m (pcid / 64)) (pcid % 64) (i % 64))

  pub slot-free_pcid :
      (i : ℕ) → pcid ≢ 0 → slot (free_pcid m pcid) i ≡ (if pcid == i then none else slot m i)
  unfolding free_pcid
  slot-free_pcid i ne = ground (arith, v.slots_size, get_or-set m.slots pcid i none none)

  free_pcid_sizes :
      (length (free_pcid m pcid).slots ≡ max_pcid_num)
      × (length (free_pcid m pcid).used_bitmap ≡ 64)
      × ((free_pcid m pcid).victim_iterator ≡ m.victim_iterator)
  unfolding free_pcid
  free_pcid_sizes = ground (
    arith,
    v.slots_size,
    v.words_size,
    length-set m.slots pcid none,
    length-set m.used_bitmap (pcid / 64) (clear_in (word m (pcid / 64)) (pcid % 64)),
  )

  free_pcid_kernel : pcid ≡ 0 → free_pcid m pcid ≡ m
  unfolding free_pcid
  free_pcid_kernel e = ground arith

  -- `free_pcid` of any identifier below 4096 keeps the books in order.
  pub free_pcid-IsValid : IsValid (free_pcid m pcid)
  free_pcid-IsValid = elim (dec_lt 0 pcid) [
    | yes pos ↦
        let ne : pcid ≢ 0 = λ e. omega arith in
        record {
          slots_size = free_pcid_sizes.0;
          words_size = free_pcid_sizes.1;
          words = λ i. ground (
            arith,
            word-free_pcid i ne,
            v.words i,
            v.words (pcid / 64),
            clear_in-lt (word m (pcid / 64)) (pcid % 64),
          );
          free_iff =
              λ i p. ground (arith, used-free_pcid i ne, slot-free_pcid i ne, v.free_iff i p);
          kernel_used = ground (arith, used-free_pcid 0 ne, v.kernel_used);
          victim_above = omega (arith, free_pcid_sizes);
          victim_below = omega (arith, free_pcid_sizes);
        }
    | no p ↦ rw (free_pcid_kernel (omega arith)) v
  ]

module _ (m : PcidManager) (proc : ℕ) (v : IsValid m) where
  -- Every slot is in use when a slot is stolen.
  pub steal-IsValid : used m m.victim_iterator ≡ 1 → IsValid (steal m proc).1
  unfolding steal
  steal-IsValid full = record {
    slots_size = length-set m.slots m.victim_iterator (some proc) ∙ v.slots_size;
    words_size = v.words_size;
    words = v.words;
    free_iff = λ i p. ground (
      arith,
      v.free_iff i p,
      v.slots_size,
      get_or-set m.slots m.victim_iterator i (some proc) none,
    );
    kernel_used = v.kernel_used;
    victim_above = ground arith;
    victim_below = ground arith;
  }

word-init :
    (kernel_proc i : ℕ) (cache : ℕ → ℕ)
    → word (init kernel_proc cache) i
      ≡ (if 0 == i then 1 else get_or (replicate bitmap_words 0) i all_ones)
unfolding init
word-init kernel_proc i cache =
    get_or-set (replicate bitmap_words 0) 0 i 1 all_ones
      (omega (arith, length-replicate {A = ℕ} bitmap_words 0))

slot-init :
    (kernel_proc i : ℕ) (cache : ℕ → ℕ)
    → slot (init kernel_proc cache) i ≡ (if 0 == i then some kernel_proc else none)
unfolding init
slot-init kernel_proc i cache = ground (
  arith,
  get_or-set (replicate max_pcid_num none) 0 i (some kernel_proc) none,
  get_or-replicate_self {A = Option ℕ} max_pcid_num i none,
)

used-init :
    (kernel_proc i : ℕ) (cache : ℕ → ℕ)
    → i < max_pcid_num
    → used (init kernel_proc cache) i ≡ (if 0 == i then 1 else 0)
used-init kernel_proc i cache p =
    rw (word-init kernel_proc (i / 64) cache) (elim (dec_lt 0 (i / 64)) [
      | yes q ↦
          let e : get_or (replicate bitmap_words 0) (i / 64) all_ones ≡ 0 =
            get_or-replicate bitmap_words (i / 64) 0 all_ones (omega arith) in
          rw e (ground (arith, digit-zero (i % 64)))
      | no q ↦ ground (arith, digit-pow 0 (i % 64))
    ])

init_sizes :
    (kernel_proc : ℕ) (cache : ℕ → ℕ)
    → (length (init kernel_proc cache).slots ≡ max_pcid_num)
      × (length (init kernel_proc cache).used_bitmap ≡ 64)
      × ((init kernel_proc cache).victim_iterator ≡ 1)
unfolding init
init_sizes kernel_proc cache = (
  length-set (replicate max_pcid_num none) 0 (some kernel_proc)
      ∙ length-replicate {A = Option ℕ} max_pcid_num none,
  refl,
  refl,
)

word-init-lt : (kernel_proc i : ℕ) (cache : ℕ → ℕ) → word (init kernel_proc cache) i < u64_mod
word-init-lt kernel_proc i cache =
    rw (word-init kernel_proc i cache) (elim (dec_lt i bitmap_words) [
      | yes q ↦ rw (get_or-replicate bitmap_words i 0 all_ones q) (ground arith)
      | no q ↦
          let past : length (replicate {A = ℕ} bitmap_words 0) ≤ i =
            omega (arith, length-replicate {A = ℕ} bitmap_words 0) in
          rw (get_or_above (replicate bitmap_words 0) i all_ones past) (ground arith)
    ])

-- After `init` only the kernel's identifier is in use.
pub init-IsValid : (kernel_proc : ℕ) (cache : ℕ → ℕ) → IsValid (init kernel_proc cache)
init-IsValid kernel_proc cache =
    let (slots, words, victim) = init_sizes kernel_proc cache in
    record {
      slots_size = slots;
      words_size = words;
      words = λ i. word-init-lt kernel_proc i cache;
      free_iff =
          λ i p. rw (used-init kernel_proc i cache p, slot-init kernel_proc i cache) (ground arith);
      kernel_used = used-init kernel_proc 0 cache (omega arith);
      victim_above = omega (arith, victim);
      victim_below = omega (arith, victim);
    }

told-IsValid :
    (m : PcidManager) (owner : ℕ)
    → IsValid m
    → IsValid (record m { pcid_cache = cache_set m.pcid_cache owner no_pcid })
told-IsValid m owner v = record {
  slots_size = v.slots_size;
  words_size = v.words_size;
  words = v.words;
  free_iff = v.free_iff;
  kernel_used = v.kernel_used;
  victim_above = v.victim_above;
  victim_below = v.victim_below;
}

cache-free_pcid : (m : PcidManager) (pcid q : ℕ) → (free_pcid m pcid).pcid_cache q ≡ m.pcid_cache q
unfolding free_pcid
cache-free_pcid m pcid q = ground arith

-- `force_invalidate` of an identifier that a process holds, other than the kernel's, frees it, tells
-- that process, leaves every other slot and process alone, and keeps the books in order.
pub force_invalidate_lem :
    (m : PcidManager) (pcid owner : ℕ)
    → IsValid m
    → pcid ≢ 0
    → pcid < max_pcid_num
    → slot m pcid ≡ some owner
    → let m' = force_invalidate m pcid in
      ((i : ℕ) → slot m' i ≡ (if pcid == i then none else slot m i))
      × ((q : ℕ) → m'.pcid_cache q ≡ (if owner == q then no_pcid else m.pcid_cache q))
      × (used m' pcid ≡ 0)
      × IsValid m'
unfolding force_invalidate
force_invalidate_lem m pcid owner v ne h e =
    let test : (pcid == 0 || leb max_pcid_num pcid) ≡ false = ground arith in
    let told = record m { pcid_cache = cache_set m.pcid_cache owner no_pcid } in
    let v' = told-IsValid m owner v in
    rw (test, e, force_invalidate)
      (
        (λ i. slot-free_pcid told pcid v' h i ne),
        (λ q. cache-free_pcid told pcid q),
        ground (arith, used-free_pcid told pcid v' h pcid ne),
        free_pcid-IsValid told pcid v' h,
      )
