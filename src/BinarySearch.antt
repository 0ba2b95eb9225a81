-- ===== src/BinarySearch.antt =====
-- cppfoundation/include/cppfoundation/cf_binary_search.hpp: binary search in an array by a
-- comparison. `low` is an array index, so a natural number; `high` falls to -1 when the search runs
-- out on the left. The sums stay below 2^63 for indices of an array. The checks under `_ADDCHECK_`
-- are left out, as in the default build.
pub mod Ascending
pub mod Descending
mod Tests
use cppfastdevelop.Prelude.{
  ℕ, zero, suc, ◌+◌, ◌-◌, ◌/◌, Bool, false, Option, none, some, leb, if◌then◌else◌, ℤ, pos, negsuc,
}

-- What a search returns: 1 and the target's index, or 0 and the index where it belongs.
pub record Found : Type 0 where
  pub result : ℕ
  pub insert_index : ℕ

-- `middle - 1`.
abbrev pub before : ℕ → ℤ
before zero = negsuc 0
before (suc m) = pos m

-- `low <= high`.
abbrev pub at_most : ℕ → ℤ → Bool
at_most low (pos h) = leb low h
at_most low (negsuc h) = false

-- The index behind `high`.
abbrev pub end_of : ℤ → ℕ
end_of (pos h) = h + 1
end_of (negsuc h) = 0

abbrev pub middle : ℕ → ℤ → ℕ
middle low (pos h) = low + (h - low) / 2
middle low (negsuc h) = low

-- The functor that the comparing searches take by default: 1 for `x < y`, else 0, from `x >= y`.
unfoldable pub compare_default {ℓ} : {A : Type ℓ} → (A → A → Bool) → A → A → ℕ
compare_default ge x y = if ge x y then 0 else 1

module _ {ℓ} {A : Type ℓ} (comp : A → A → Bool) (a : ℕ → A) (target : A) where
  -- The loops, on fuel; `none` means that it ran out.
  unfoldable pub ascending_loop : ℕ → ℕ → ℤ → Option Found
  ascending_loop zero low high = none
  ascending_loop (suc fuel) low high =
      let m = middle low high in
      let left = ascending_loop fuel low (before m) in
      let right = ascending_loop fuel (m + 1) high in
      if at_most low high
      then if comp target (a m)
        then left
        else if comp (a m) target
        then right
        else some (record { result = 1; insert_index = m })
      else some (record { result = 0; insert_index = low })

  unfoldable pub descending_loop : ℕ → ℕ → ℤ → Option Found
  descending_loop zero low high = none
  descending_loop (suc fuel) low high =
      let m = middle low high in
      let right = descending_loop fuel (m + 1) high in
      let left = descending_loop fuel low (before m) in
      if at_most low high
      then if comp target (a m)
        then right
        else if comp (a m) target
        then left
        else some (record { result = 1; insert_index = m })
      else some (record { result = 0; insert_index = low })

  -- `BinarySearchAscending<T, compare_less>(a, low, high, target, insertIndex)`.
  unfoldable pub ascending_by : ℕ → ℤ → Option Found
  ascending_by low high = ascending_loop (suc (end_of high)) low high

  unfoldable pub descending_by : ℕ → ℤ → Option Found
  descending_by low high = descending_loop (suc (end_of high)) low high

-- The searches by the elements' own `<`, whose bodies are the same with `<` for `comp`.
module _ {ℓ} {A : Type ℓ} (less : A → A → Bool) (a : ℕ → A) (target : A) where
  unfoldable pub binary_search_ascending : ℕ → ℤ → Option Found
  unfolding ascending_by
  binary_search_ascending low high = ascending_by less a target low high

  unfoldable pub binary_search_descending : ℕ → ℤ → Option Found
  unfolding descending_by
  binary_search_descending low high = descending_by less a target low high
