-- ===== src/ConcurrencyQueue/FastFind/Tests.antt =====
-- A queue of numbers with its set.
use cppfastdevelop.Prelude.{ℕ, ◌≡◌, refl, subst, false, List, [], ◌∷◌, ltb, arith}
use cppfastdevelop.Containers.OrderedSet.{IsOrder, contains, insert, erase}
use cppfastdevelop.ConcurrencyQueue.FastFind.{RawFastFindQueue, returned, new_queue, put, get}
use cppfastdevelop.ConcurrencyQueue.FastFind.Mirror.{
  Call, puts, gets, tries, stops, PutsNew, AllAnswer, new_queue-AllAnswer,
}

ltb-IsOrder : IsOrder ltb
ltb-IsOrder = record {
  irreflexive = λ a. ground arith;
  transitive = λ a b c h k. ground arith;
  total = λ a b h k. ground arith;
}

abbrev calls : List (Call ℕ)
calls = puts 5 ∷ puts 3 ∷ gets ∷ puts 5 ∷ stops ∷ tries ∷ gets ∷ gets ∷ []

abbrev two : RawFastFindQueue ℕ
two = (put ltb 3 (put ltb 5 (new_queue ltb)).0).0

two_set : two.set ≡ 3 ∷ 5 ∷ []
unfolding insert
two_set = refl

gets_oldest : (get ltb two).1 ≡ returned 5
unfolding insert contains erase
gets_oldest = refl

calls-PutsNew : PutsNew ltb calls (new_queue ltb)
unfolding PutsNew contains insert erase
calls-PutsNew = (
  λ a e. refl,
  (
    λ a e. let h : 3 ≡ a = cc in subst (λ x. contains ltb x (5 ∷ []) ≡ false) h refl,
    (
      λ a e. absurd (cc),
      (
        λ a e. let h : 5 ≡ a = cc in subst (λ x. contains ltb x (3 ∷ []) ≡ false) h refl,
        (λ a e. absurd (cc), (λ a e. absurd (cc), (λ a e. absurd (cc), (λ a e. absurd (cc), tt)))),
      ),
    ),
  ),
)

new_queue-AllAnswer_example : AllAnswer ltb-IsOrder calls (new_queue ltb)
new_queue-AllAnswer_example = new_queue-AllAnswer ltb-IsOrder calls calls-PutsNew
