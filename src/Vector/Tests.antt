-- ===== src/Vector/Tests.antt =====
-- Instances of the theorems on vectors, of 8-byte entries.
use noise_v.Base.{
  refl, ℕ, ◌+◌, ◌≡◌, Bool, true, ◌||◌, [], ◌∷◌, ◌++◌, arith, ltb, ◌==◌, if◌then◌else◌,
}
use noise_v.MinHeap.{remove_if}
use noise_v.Vector.{Vector, size, outside, entry, emplace_back, find_first, compact, remove}
use noise_v.Vector.Growth.{IsValid, grows, emplace_back_lem}
use noise_v.Vector.Remove.{remove_filters}

two : Vector ℕ
two = record { items = 3 ∷ 5 ∷ []; capacity = 2 }

always : ℕ → Bool
always bytes = true

two-IsValid : IsValid always 8 two
unfolding two
two-IsValid = record { fits = omega arith; small = omega arith }

emplace_back_lem_example :
    let v = emplace_back always 8 two 7 in
    IsValid always 8 v
    × (v.items ≡ (
        if ltb (size two) two.capacity || grows always 8 two 1
        then two.items ++ 7 ∷ []
        else two.items))
unfolding two
emplace_back_lem_example = emplace_back_lem always 8 two 7 two-IsValid (omega arith) (omega arith)

remove_filters_example :
    let (count, v) = remove (λ x y. x == y) 0 (outside 3) two in
    (v.items ≡ remove_if (λ item. item == 3) two.items)
    × (v.capacity ≡ two.capacity)
    × (count + size v ≡ size two)
remove_filters_example = remove_filters (λ x y. x == y) 0 3 two

-- A reference into the vector changes its value on the way, so that an entry stays.
remove-entry :
    (remove (λ x y. x == y) 0 (entry 0) (record { items = 1 ∷ 2 ∷ 1 ∷ []; capacity = 3 })).1.items
    ≡ 2 ∷ 1 ∷ []
unfolding remove compact find_first
remove-entry = refl
