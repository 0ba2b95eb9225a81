-- ===== src/BinarySearch/Descending.antt =====
-- `BinarySearchDescending` of cf_binary_search.hpp is the ascending search under the reversed order.
use cppfastdevelop.Prelude.{ℕ, zero, suc, ◌+◌, ◌≤◌, ◌≡◌, refl, inl, inr, Bool, Bool-cases, some, ℤ}
use cppfastdevelop.BinarySearch.{
  Found, before, end_of, middle, ascending_loop, descending_loop, binary_search_ascending,
  binary_search_descending,
}
use cppfastdevelop.BinarySearch.Ascending.{
  IsOrder, Ascends, IsFound, binary_search_ascending-IsFound,
}

-- The order with its sides exchanged.
abbrev pub reversed {ℓ} : {A : Type ℓ} → (A → A → Bool) → A → A → Bool
reversed comp x y = comp y x

module _ {ℓ} {A : Type ℓ} {comp : A → A → Bool} (o : IsOrder comp) (a : ℕ → A) (target : A) where
  descending_loop-reversed :
      (fuel low : ℕ) (high : ℤ)
      → descending_loop comp a target fuel low high
        ≡ ascending_loop (reversed comp) a target fuel low high
  unfolding descending_loop ascending_loop
  descending_loop-reversed zero low high = refl
  descending_loop-reversed (suc fuel) low high =
      let m = middle low high in
      elim (Bool-cases (comp target (a m))) [
        | inl t ↦ rw (t, o.asym target (a m) t, descending_loop-reversed fuel (m + 1) high)
        | inr t ↦ rw (t, descending_loop-reversed fuel low (before m))
      ]

  -- Given an order, the descending search is the ascending one by the reversed order.
  binary_search_descending-reversed :
      (low : ℕ) (high : ℤ)
      → binary_search_descending comp a target low high
        ≡ binary_search_ascending (reversed comp) a target low high
  unfolding binary_search_descending binary_search_ascending
  binary_search_descending-reversed low high = descending_loop-reversed (suc (end_of high)) low high

  reversed-IsOrder : IsOrder (reversed comp)
  reversed-IsOrder = record {
    asym = λ x y h. o.asym y x h;
    weak = λ x y z h. elim (o.weak y x z h) [ inl t ↦ inr t | inr t ↦ inl t ];
  }

  -- On a descending range the search ends, and tells where the target is or where it belongs, in
  -- the array's own order.
  pub binary_search_descending-IsFound :
      (low : ℕ) (high : ℤ)
      → low ≤ end_of high
      → Ascends (reversed comp) a low (end_of high)
      → (f : Found) × (binary_search_descending comp a target low high ≡ some f)
        × IsFound (reversed comp) a target low (end_of high) f
  binary_search_descending-IsFound low high h desc =
      rw (binary_search_descending-reversed low high)
        (binary_search_ascending-IsFound reversed-IsOrder a target low high h desc)
