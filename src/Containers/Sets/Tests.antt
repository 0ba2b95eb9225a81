-- ===== src/Containers/Sets/Tests.antt =====
-- Sets of numbers.
use cppfastdevelop.Prelude.{◌≡◌, refl, [], ◌∷◌, ltb, arith}
use cppfastdevelop.Containers.OrderedSet.{IsOrder, insert}
use cppfastdevelop.Containers.Sets.{returned, pop, set_insert}
use cppfastdevelop.Containers.Sets.Laws.{inserts, erases, pops, clears, AllDo, raw_set-AllDo}

ltb_order : IsOrder ltb
ltb_order = record {
  irreflexive = λ a. ground arith;
  transitive = λ a b c h k. ground arith;
  total = λ a b h k. ground arith;
}

pops_least : pop ltb (set_insert ltb 4 (set_insert ltb 9 (5 ∷ [])).0).0 ≡ (5 ∷ 9 ∷ [], returned 4)
unfolding insert
pops_least = refl

raw_set-AllDo_example :
    AllDo ltb_order (inserts 4 ∷ inserts 2 ∷ inserts 4 ∷ pops ∷ erases 4 ∷ pops ∷ clears ∷ []) []
raw_set-AllDo_example =
    raw_set-AllDo ltb_order
      (inserts 4 ∷ inserts 2 ∷ inserts 4 ∷ pops ∷ erases 4 ∷ pops ∷ clears ∷ [])
