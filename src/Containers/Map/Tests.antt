-- ===== src/Containers/Map/Tests.antt =====
-- A map with two entries.
use cppfastdevelop.Prelude.{ℕ, ◌≡◌, refl, false, List, [], ◌∷◌, Fd, pos, find, insert_new}
use cppfastdevelop.Containers.Map.{insert, pop, not_found}

abbrev two : List (Fd × ℕ)
two = (pos 1, 10) ∷ (pos 2, 20) ∷ []

insert_keeps : insert (pos 1) 99 two ≡ (two, false)
unfolding find insert_new
insert_keeps = refl

pop_absent : pop (pos 3) two ≡ (two, not_found)
unfolding find
pop_absent = refl
