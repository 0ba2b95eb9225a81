-- ===== src/Containers/OrderedSet.antt =====
-- `std::set` with its comparison, as the code of cf_concurrency_set.hpp and
-- cf_concurrency_queue.hpp uses it: its elements in ascending order.
pub mod Laws
use cppfastdevelop.Prelude.{Bool, true, false, ◌&&◌, ◌||◌, not, List, [], ◌∷◌, if◌then◌else◌, ◌≡◌}

-- What the C++ standard asks of the comparison, with equivalent elements equal.
pub record IsOrder {A : Type 0} (less : A → A → Bool) : Type 0 where
  pub irreflexive : (a : A) → less a a ≡ false
  pub transitive : (a b c : A) → less a b ≡ true → less b c ≡ true → less a c ≡ true
  pub total : (a b : A) → less a b ≡ false → less b a ≡ false → a ≡ b

module _ {A : Type 0} (less : A → A → Bool) where
  abbrev pub same : A → A → Bool
  same a b = not (less a b) && not (less b a)

  -- `count` and `find`.
  unfoldable pub contains : A → List A → Bool
  contains a [] = false
  contains a (b ∷ bs) = same a b || contains a bs

  unfoldable pub insert : A → List A → List A
  insert a [] = a ∷ []
  insert a (b ∷ bs) =
      let rest = insert a bs in
      if less a b then a ∷ b ∷ bs else (if less b a then b ∷ rest else b ∷ bs)

  unfoldable pub erase : A → List A → List A
  erase a [] = []
  erase a (b ∷ bs) = let rest = erase a bs in if same a b then bs else b ∷ rest
