-- ===== src/Pcid.antt =====
-- kernel/src/memory/pcid_manager.cpp and kernel/include/memory/pcid_manager.hpp: the process-context
-- identifiers of one CPU. A process is its number, and `pcid_cache` is the column of the processes'
-- `pcid_cache` arrays that belongs to this CPU.
pub mod Slots
pub mod Alloc
mod Tests
use noise_v.Base.{
  ℕ, zero, suc, ◌+◌, ◌*◌, ◌/◌, ◌%◌, ◌^◌, bit_or, Bool, Option, none, some, List, [], ◌∷◌, ◌&&◌,
  ◌||◌, ltb, leb, ◌==◌, if◌then◌else◌, get_or, set, replicate,
}
use noise_v.Base.Words.{all_ones, complement, set_in, clear_in, ctz}

abbrev pub max_pcid_num : ℕ
max_pcid_num = 4096

-- `MAX_PCID_NUM / 64`
abbrev pub bitmap_words : ℕ
bitmap_words = 64

-- `static_cast<uint16_t>(-1)`
abbrev pub no_pcid : ℕ
no_pcid = 65535

-- `flushed` lists the identifiers that `flush_hardware_pcid` was called for, the latest first.
pub record PcidManager : Type 0 where
  pub slots : List (Option ℕ)
  pub used_bitmap : List ℕ
  pub victim_iterator : ℕ
  pub pcid_cache : ℕ → ℕ
  pub flushed : List ℕ

abbrev pub slot : PcidManager → ℕ → Option ℕ
slot m i = get_or m.slots i none

-- A word past the end reads as full, which no loop below relies on.
abbrev pub word : PcidManager → ℕ → ℕ
word m i = get_or m.used_bitmap i all_ones

abbrev pub cache_set : (ℕ → ℕ) → ℕ → ℕ → ℕ → ℕ
cache_set c proc v q = if proc == q then v else c q

-- `slots[pcid] == proc`
abbrev pub owned_by : Option ℕ → ℕ → Bool
owned_by none proc = Bool.false
owned_by (some q) proc = q == proc

unfoldable pub init : ℕ → (ℕ → ℕ) → PcidManager
init kernel_proc cache = record {
  slots = set (replicate max_pcid_num none) 0 (some kernel_proc);
  used_bitmap = set (replicate bitmap_words 0) 0 (bit_or 0 1);
  victim_iterator = 1;
  pcid_cache = cache;
  flushed = [];
}

unfoldable pub claim_slot : PcidManager → ℕ → ℕ → PcidManager
claim_slot m pcid proc = record m {
  used_bitmap = set m.used_bitmap (pcid / 64) (set_in (word m (pcid / 64)) (pcid % 64));
  slots = set m.slots pcid (some proc);
  pcid_cache = cache_set m.pcid_cache proc pcid;
  flushed = pcid ∷ m.flushed;
}

-- The scan of `allocate_new` from word `i` on, with `n` words left: the identifier that it takes.
unfoldable pub scan : ℕ → ℕ → PcidManager → Option ℕ
scan zero i m = none
scan (suc n) i m =
    let rest = scan n (i + 1) m in
    let pcid = i * 64 + ctz 64 (complement (word m i)) in
    if word m i == all_ones then rest else if pcid == 0 then rest else some pcid

-- `old_owner->pcid_cache[cpu_id] = -1`, if there is one.
unfoldable pub invalidate : Option ℕ → (ℕ → ℕ) → ℕ → ℕ
invalidate none c = c
invalidate (some old_owner) c = cache_set c old_owner no_pcid

unfoldable pub steal : PcidManager → ℕ → ℕ × PcidManager
steal m proc =
    let victim = m.victim_iterator in
    (
      victim,
      record m {
        victim_iterator = if leb max_pcid_num (victim + 1) then 1 else victim + 1;
        flushed = victim ∷ m.flushed;
        slots = set m.slots victim (some proc);
        pcid_cache = cache_set (invalidate (slot m victim) m.pcid_cache) proc victim;
      },
    )

unfoldable pub allocate_new : PcidManager → ℕ → ℕ × PcidManager
allocate_new m proc = elim (scan bitmap_words 0 m) [
  | none ↦ steal m proc
  | some pcid ↦ (pcid, claim_slot m pcid proc)
]

unfoldable pub get_pcid : PcidManager → ℕ → ℕ × PcidManager
get_pcid m proc =
    let cached = m.pcid_cache proc in
    if (cached == 0) && ltb cached max_pcid_num && owned_by (slot m cached) proc
    then (cached, m)
    else allocate_new m proc

unfoldable pub free_pcid : PcidManager → ℕ → PcidManager
free_pcid m pcid = if pcid == 0 then m else record m {
  slots = set m.slots pcid none;
  used_bitmap = set m.used_bitmap (pcid / 64) (clear_in (word m (pcid / 64)) (pcid % 64));
}

unfoldable pub force_invalidate : PcidManager → ℕ → PcidManager
force_invalidate m pcid = if (pcid == 0) || leb max_pcid_num pcid then m else elim (slot m pcid) [
  | none ↦ m
  | some owner ↦ free_pcid (record m { pcid_cache = cache_set m.pcid_cache owner no_pcid }) pcid
]
