-- ===== src/BinarySearch/Tests.antt =====
-- The searches on arrays of numbers, and the ascending theorem at one.
use cppfastdevelop.Prelude.{ℕ, ◌-◌, ◌*◌, ◌≡◌, refl, ltb, some, pos, arith}
use cppfastdevelop.BinarySearch.{
  Found, binary_search_ascending, binary_search_descending, ascending_loop, descending_loop,
}
use cppfastdevelop.BinarySearch.Ascending.{IsOrder, IsFound, binary_search_ascending-IsFound}

ltb-IsOrder : IsOrder ltb
ltb-IsOrder = record { asym = λ x y h. ground arith; weak = λ x y z h. grind arith }

abbrev evens : ℕ → ℕ
evens i = 2 * i

abbrev falling : ℕ → ℕ
falling i = 100 - 3 * i

search_hit :
    binary_search_ascending ltb evens 6 0 (pos 4) ≡ some (record { result = 1; insert_index = 3 })
unfolding binary_search_ascending ascending_loop
search_hit = refl

search_below :
    binary_search_ascending ltb evens 0 1 (pos 4) ≡ some (record { result = 0; insert_index = 1 })
unfolding binary_search_ascending ascending_loop
search_below = refl

search_falling :
    binary_search_descending ltb falling 95 0 (pos 4)
    ≡ some (record { result = 0; insert_index = 2 })
unfolding binary_search_descending descending_loop
search_falling = refl

binary_search_ascending-IsFound_example :
    (f : Found) × (binary_search_ascending ltb evens 7 0 (pos 4) ≡ some f)
    × IsFound ltb evens 7 0 5 f
binary_search_ascending-IsFound_example =
    binary_search_ascending-IsFound ltb-IsOrder evens 7 0 (pos 4) (omega arith)
      (λ i j p q r. ground arith)
