-- ===== src/Containers/Sets.antt =====
-- `RawSet` and `RawNotifySet` of cf_concurrency_set.hpp: an ordered set, and one whose `Pop` waits
-- for an element and which can be stopped. An iterator is the element that it stands at.
pub mod Laws
pub mod Stops
mod Tests
use cppfastdevelop.Prelude.{
  ℕ, suc, ◌-◌, ◌==◌, Bool, true, false, Option, none, some, List, [], ◌∷◌, length, if◌then◌else◌,
}
use cppfastdevelop.Containers.OrderedSet.{contains, insert, erase}

pub data Exception : Type 0 where
  set_empty set_stop_to_pop set_stop_to_insert : Exception

-- A call returns a value, waits, or throws.
pub data Outcome (B : Type 0) : Type 0 where
  returned : B → Outcome B
  waits : Outcome B
  threw : Exception → Outcome B

abbrev pub one_if : Bool → ℕ
one_if true = 1
one_if false = 0

-- `RawSet`, whose state is its set.
module _ {A : Type 0} (less : A → A → Bool) where
  abbrev pub is_empty : List A → Bool
  is_empty s = length s == 0

  abbrev pub size : List A → ℕ
  size s = length s

  -- `Find`, with `none` for the end.
  abbrev pub find : A → List A → Option A
  find a s = if contains less a s then some a else none

  -- `Insert`, with whether the element was put in.
  abbrev pub set_insert : A → List A → List A × Bool
  set_insert a s = (insert less a s, if contains less a s then false else true)

  -- `Erase`, with the number of elements erased.
  abbrev pub set_erase : A → List A → List A × ℕ
  set_erase a s = (erase less a s, one_if (contains less a s))

  abbrev pub pop : List A → List A × Outcome A
  pop [] = ([], threw set_empty)
  pop (a ∷ rest) = (rest, returned a)

  abbrev pub clear : List A → List A
  clear s = []

pub record RawNotifySet (A : Type 0) : Type 0 where
  pub set : List A
  pub stop_to_insert : Bool
  pub stop_to_pop : Bool
  pub wait_count : ℕ

module _ {A : Type 0} (less : A → A → Bool) where
  -- The constructor leaves `_waitCount` as it is in memory.
  abbrev pub new_set : ℕ → RawNotifySet A
  new_set wait_count = record {
    set = [];
    stop_to_insert = false;
    stop_to_pop = false;
    wait_count = wait_count;
  }

  abbrev pub insert_unless : Bool → A → RawNotifySet A → RawNotifySet A × Outcome (Bool × Bool)
  insert_unless true a n = (n, threw set_stop_to_insert)
  insert_unless false a n =
      let m = record n { set = (set_insert less a n.set).0 } in
      if m.wait_count == 0 then (m, returned ((set_insert less a n.set).1, false)) else (
        record m { wait_count = m.wait_count - 1 },
        returned ((set_insert less a n.set).1, true),
      )

  -- `Insert`: whether the element was put in, and whether a thread is signalled.
  abbrev pub insert_notify : A → RawNotifySet A → RawNotifySet A × Outcome (Bool × Bool)
  insert_notify a n = insert_unless n.stop_to_insert a n

  abbrev pub erase_notify : A → RawNotifySet A → RawNotifySet A × ℕ
  erase_notify a n = (record n { set = (set_erase less a n.set).0 }, (set_erase less a n.set).1)

  -- One round of `Pop`. Its last test, of an empty set that is stopped, comes behind the one that
  -- throws.
  abbrev pub pop_from : List A → Bool → RawNotifySet A → RawNotifySet A × Outcome A
  pop_from s true n = (n, threw set_stop_to_pop)
  pop_from [] false n = (record n { wait_count = suc n.wait_count }, waits)
  pop_from (a ∷ rest) false n = (record n { set = rest }, returned a)

  abbrev pub pop_notify : RawNotifySet A → RawNotifySet A × Outcome A
  pop_notify n = pop_from n.set n.stop_to_pop n

  abbrev pub try_pop_from : List A → Bool → RawNotifySet A → RawNotifySet A × Outcome A
  try_pop_from s true n = (n, threw set_stop_to_pop)
  try_pop_from [] false n = (n, threw set_empty)
  try_pop_from (a ∷ rest) false n = (record n { set = rest }, returned a)

  abbrev pub try_pop : RawNotifySet A → RawNotifySet A × Outcome A
  try_pop n = try_pop_from n.set n.stop_to_pop n

  abbrev pub clear_notify : RawNotifySet A → RawNotifySet A
  clear_notify n = record n { set = [] }

  abbrev pub stop_insert : RawNotifySet A → RawNotifySet A
  stop_insert n = record n { stop_to_insert = true }

  abbrev pub stop_insert_and_pop : RawNotifySet A → RawNotifySet A
  stop_insert_and_pop n = record n { stop_to_insert = true; stop_to_pop = true }
