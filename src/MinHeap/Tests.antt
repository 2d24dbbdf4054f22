-- ===== src/MinHeap/Tests.antt =====
-- Instances of the theorems on heaps, at the heap 1 5 3 9 with keys the numbers themselves.
use mathlib.Core.List.{Perm}
use noise_v.Base.{ℕ, zero, suc, ◌≤◌, ◌<◌, ◌≡◌, some, List, [], ◌∷◌, arith, ltb, get_or, Bool}
use noise_v.MinHeap.{extract_min, erase}
use noise_v.MinHeap.Order.{IsHeap}
use noise_v.MinHeap.Ops.{extract_min_lem}
use noise_v.MinHeap.Erase.{erase_lem}

four : List ℕ
four = 1 ∷ 5 ∷ 3 ∷ 9 ∷ []

own : ℕ → ℕ
own x = x

four-IsHeap : (blank : ℕ) → IsHeap own blank four
unfolding four own
four-IsHeap blank zero p q r = absurd (omega arith)
four-IsHeap blank (suc zero) p q r = omega arith
four-IsHeap blank (suc (suc zero)) p q r = omega arith
four-IsHeap blank (suc (suc (suc zero))) p q r = omega arith
four-IsHeap blank (suc (suc (suc (suc c)))) p q r = absurd (omega arith)

extract_min_lem_example :
    (d : List ℕ) × (extract_min own (1 ∷ 5 ∷ 3 ∷ 9 ∷ []) ≡ some (1, d))
    × IsHeap own 1 d
    × Perm (1 ∷ d) (1 ∷ 5 ∷ 3 ∷ 9 ∷ [])
    × ((c : ℕ) → c < 4 → 1 ≤ own (get_or (1 ∷ 5 ∷ 3 ∷ 9 ∷ []) c 1))
unfolding own four
extract_min_lem_example = extract_min_lem own 1 (5 ∷ 3 ∷ 9 ∷ []) (four-IsHeap 1)

erase_lem_example :
    let d = erase own (1 ∷ 5 ∷ 3 ∷ 9 ∷ []) 1 0 in IsHeap own 0 d × Perm (5 ∷ d) (1 ∷ 5 ∷ 3 ∷ 9 ∷ [])
unfolding four
erase_lem_example = erase_lem own 1 (5 ∷ 3 ∷ 9 ∷ []) 1 0 (four-IsHeap 0) (omega arith)

small : ℕ → Bool
small x = ltb x 4
