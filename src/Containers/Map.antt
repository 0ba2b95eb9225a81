-- ===== src/Containers/Map.antt =====
-- `RawMap` of cf_concurrency_map.hpp with integers as keys, less what hands out the ends of a
-- range. An iterator is the entry that it stands at.
pub mod Laws
mod Tests
use cppfastdevelop.Prelude.{
  ℕ, zero, suc, ◌-◌, Bool, true, false, Option, none, some, List, [], ◌∷◌, length, Fd, find,
  insert_new, erase, if◌then◌else◌,
}

-- A call returns a value, or throws `ElementNotFoundInfo`.
pub data Outcome (B : Type 0) : Type 0 where
  returned : B → Outcome B
  not_found : Outcome B

abbrev pub second : {V : Type 0} → Option V → Outcome V
second (some v) = returned v
second none = not_found

abbrev pub is_there : {V : Type 0} → Option V → Bool
is_there (some v) = true
is_there none = false

module _ {V : Type 0} where
  abbrev pub has_key : Fd → List (Fd × V) → Bool
  has_key key m = is_there (find key m)

  abbrev pub find_ex : Fd → List (Fd × V) → Outcome V
  find_ex key m = second (find key m)

  abbrev pub pop_found : Fd → Option V → List (Fd × V) → List (Fd × V) × Outcome V
  pop_found key none m = (m, not_found)
  pop_found key (some v) m = (erase key m, returned v)

  abbrev pub pop : Fd → List (Fd × V) → List (Fd × V) × Outcome V
  pop key m = pop_found key (find key m) m

  abbrev pub size : List (Fd × V) → ℕ
  size m = length m

  -- `Erase` of a key, with the number of entries erased.
  abbrev pub erase_key : Fd → List (Fd × V) → List (Fd × V) × ℕ
  erase_key key m = (erase key m, if has_key key m then 1 else 0)

  -- `Insert`, with whether the entry was put in.
  abbrev pub insert : Fd → V → List (Fd × V) → List (Fd × V) × Bool
  insert key v m = (insert_new key v m, if has_key key m then false else true)

  -- `OnlyInsert`, where `fresh` is the new object; it returns what stands at the key then.
  abbrev pub only_insert_found : Fd → V → Option V → List (Fd × V) → List (Fd × V) × V
  only_insert_found key fresh (some v) m = (m, v)
  only_insert_found key fresh none m = (insert_new key fresh m, fresh)

  abbrev pub only_insert : Fd → V → List (Fd × V) → List (Fd × V) × V
  only_insert key fresh m = only_insert_found key fresh (find key m) m
