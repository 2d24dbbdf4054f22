-- ===== src/Deque/Tests.antt =====
-- Instances of the theorems on deques: a new one with the entry 7, or with four entries, which fill
-- its first block.
use noise_v.Base.{ℕ, zero, suc, ◌+◌, ◌*◌, get_elem?, ◌≡◌, refl, none, some, List, [], ◌∷◌, arith}
use noise_v.Deque.{Deque, new_deque, emplace_back, room_back, write, moved_from}
use noise_v.Deque.Cells.{value}
use noise_v.Deque.Content.{first, IsDeque}
use noise_v.Deque.Runs.{Call, append, prepend, drop_front, run, list_run, calls_refine}
use noise_v.Deque.Iterator.{Memory, get, traverse, copy}
use noise_v.Deque.Iterator.Index.{get_lem}
use noise_v.Deque.Iterator.Traversal.{IsApart, traverse_lem, iteration_misses_end}

some_calls : List (Call ℕ)
some_calls = append 7 ∷ prepend 5 ∷ drop_front ∷ []

calls_refine_example :
    (d d' : Deque ℕ) × (new_deque 0 ≡ some d)
    × (run 0 d some_calls ≡ some d')
    × IsDeque d' (list_run 0 [] some_calls)
calls_refine_example = calls_refine 0 some_calls

-- Four entries from the offset 4 on, up to the end of the block.
block : ℕ → ℕ
block o = o

full : Deque ℕ
full = record {
  map = λ b. some block;
  map_capacity = 8;
  start_block = 4;
  start_offset = 4;
  end_block = 4;
  end_offset = 8;
  element_count = 4;
}

full-content :
    (i v : ℕ) → get_elem? (4 ∷ 5 ∷ 6 ∷ 7 ∷ []) i ≡ some v → value full.map (first full + i) ≡ some v
unfolding full block value
full-content zero v e = e
full-content (suc zero) v e = e
full-content (suc (suc zero)) v e = e
full-content (suc (suc (suc zero))) v e = e
full-content (suc (suc (suc (suc i)))) v e = ground arith

full-IsDeque : IsDeque full (4 ∷ 5 ∷ 6 ∷ 7 ∷ [])
unfolding full
full-IsDeque = record {
  roomy = omega arith;
  inside = omega arith;
  start_in = omega arith;
  end_in = omega arith;
  counted = refl;
  span = refl;
  start_ready = λ p. (block, refl);
  end_ready = λ p. (block, refl);
  content = full-content;
}

-- Without the last of them.
part : Deque ℕ
part = record full { end_offset = 7; element_count = 3 }

part-content :
    (i v : ℕ) → get_elem? (4 ∷ 5 ∷ 6 ∷ []) i ≡ some v → value part.map (first part + i) ≡ some v
unfolding part full block value
part-content zero v e = e
part-content (suc zero) v e = e
part-content (suc (suc zero)) v e = e
part-content (suc (suc (suc i))) v e = ground arith

part-IsDeque : IsDeque part (4 ∷ 5 ∷ 6 ∷ [])
unfolding part full
part-IsDeque = record {
  roomy = omega arith;
  inside = omega arith;
  start_in = omega arith;
  end_in = omega arith;
  counted = refl;
  span = refl;
  start_ready = λ p. (block, refl);
  end_ready = λ p. (block, refl);
  content = part-content;
}

get_lem_example : get full 2 ≡ some 6
get_lem_example = get_lem full (4 ∷ 5 ∷ 6 ∷ 7 ∷ []) 2 6 full-IsDeque refl

-- Blocks of eight words, each 100 bytes after the one before.
spread : Memory
spread = record { address = λ b. 4096 + 100 * b; bytes = 8 }

spread-IsApart : IsApart spread
unfolding spread
spread-IsApart = record { some_bytes = omega arith; apart = λ a b ne. ground arith }

traverse_lem_example : traverse spread 4 part ≡ some (4 ∷ 5 ∷ 6 ∷ [])
unfolding part full
traverse_lem_example =
    traverse_lem spread spread-IsApart part (4 ∷ 5 ∷ 6 ∷ []) part-IsDeque (omega arith)

iteration_misses_end_example : (traverse spread 9 full ≡ none) × (copy spread 9 0 full ≡ none)
unfolding full spread
iteration_misses_end_example =
    iteration_misses_end spread spread-IsApart 0 full (4 ∷ 5 ∷ 6 ∷ 7 ∷ []) 9 full-IsDeque
      (omega arith) refl (λ a e. omega (arith, e))

-- A deque that was moved from takes no entry.
moved_from_takes_nothing : emplace_back 0 (moved_from {A = ℕ}) 7 ≡ none
unfolding emplace_back room_back moved_from write
moved_from_takes_nothing = refl
