-- ===== src/Pcid/Tests.antt =====
-- Instances of the theorems on identifiers: a fresh manager, and process 7 after its first call.
use noise_v.Base.{ℕ, ◌≡◌, ◌≢◌, refl, ◌∙◌, none, some, ◌∷◌, arith, ◌==◌, if◌then◌else◌}
use noise_v.Pcid.{PcidManager, slot, init, claim_slot, allocate_new, get_pcid, no_pcid}
use noise_v.Pcid.Slots.{IsValid, init-IsValid, claim_slot-IsValid, slot-claim_slot}
use noise_v.Pcid.Alloc.{IsAllocated, allocate_new-IsAllocated, get_pcid_leaks}

fresh : PcidManager
fresh = init 3 (λ _. no_pcid)

fresh-IsValid : IsValid fresh
unfolding fresh
fresh-IsValid = init-IsValid 3 (λ _. no_pcid)

-- Process 7 holds identifier 1.
held : PcidManager
held = claim_slot fresh 1 7

held-IsValid : IsValid held
unfolding held
held-IsValid = claim_slot-IsValid fresh 1 7 fresh-IsValid (omega arith)

slot-held : (i : ℕ) → slot held i ≡ (if 1 == i then some 7 else slot fresh i)
unfolding held
slot-held i = slot-claim_slot fresh 1 7 fresh-IsValid (omega arith) i

allocate_new-IsAllocated_example :
    IsAllocated held 8 (allocate_new held 8).0 (allocate_new held 8).1
allocate_new-IsAllocated_example = allocate_new-IsAllocated held 8 held-IsValid

held-cache : held.pcid_cache 7 ≡ 1
unfolding held claim_slot
held-cache = refl

fresh-slot : slot fresh 2 ≡ none
unfolding fresh init
fresh-slot = refl

get_pcid_leaks_example :
    let (pcid, m') = get_pcid held 7 in
    (pcid ≢ 1) × (slot m' pcid ≡ some 7) × (slot m' 1 ≡ some 7) × (m'.flushed ≡ pcid ∷ held.flushed)
get_pcid_leaks_example =
    get_pcid_leaks held 7 held-IsValid 1 2 held-cache (λ e. omega arith) (slot-held 1) (omega arith)
      (slot-held 2 ∙ fresh-slot)
