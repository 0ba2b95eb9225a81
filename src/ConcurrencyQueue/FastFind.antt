-- ===== src/ConcurrencyQueue/FastFind.antt =====
-- `RawFastFindQueue` of cf_concurrency_queue.hpp: a queue with a set of its elements beside it,
-- which `Find` asks. Each call here holds the lock, but for the stops; a `Get` that has to wait
-- counts itself.
pub mod Mirror
mod Tests
use cppfastdevelop.Prelude.{
  ℕ, suc, ◌-◌, Bool, true, false, List, [], ◌∷◌, ◌++◌, length, ◌==◌, if◌then◌else◌,
}
use cppfastdevelop.Containers.OrderedSet.{contains, insert, erase}

pub data Exception : Type 0 where
  queue_stop_to_get queue_empty_and_stop_to_put queue_empty queue_stop_to_put element_not_found :
      Exception

pub record RawFastFindQueue (A : Type 0) : Type 0 where
  pub stop_to_put : Bool
  pub stop_to_get : Bool
  pub wait_count : ℕ
  pub queue : List A
  pub set : List A

-- A call waits, returns nothing or an element, or throws.
pub data Outcome (A : Type 0) : Type 0 where
  waits done : Outcome A
  returned : A → Outcome A
  threw : Exception → Outcome A

module _ {A : Type 0} (less : A → A → Bool) where
  abbrev pub new_queue : RawFastFindQueue A
  new_queue = record {
    stop_to_put = false;
    stop_to_get = false;
    wait_count = 0;
    queue = [];
    set = [];
  }

  abbrev pub set_insert : A → RawFastFindQueue A → RawFastFindQueue A
  set_insert a q = record q { set = insert less a q.set }

  -- `SetErase` of an element that is to be returned.
  abbrev pub set_erase : A → RawFastFindQueue A → RawFastFindQueue A × Outcome A
  set_erase a q =
      if contains less a q.set
      then (record q { set = erase less a q.set }, returned a)
      else (q, threw element_not_found)

  abbrev pub pop : A → List A → RawFastFindQueue A → RawFastFindQueue A × Outcome A
  pop a rest q = set_erase a (record q { queue = rest })

  -- One round of `Get`: the test of its loop, with the queue and the stops, and what stands behind
  -- it.
  abbrev pub get_from : List A → Bool → Bool → RawFastFindQueue A → RawFastFindQueue A × Outcome A
  get_from [] false stop_to_get q = (record q { wait_count = suc q.wait_count }, waits)
  get_from [] true stop_to_get q =
      (q, if stop_to_get then threw queue_stop_to_get else threw queue_empty_and_stop_to_put)
  get_from (a ∷ rest) stop_to_put true q = (q, threw queue_stop_to_get)
  get_from (a ∷ rest) stop_to_put false q = pop a rest q

  abbrev pub get : RawFastFindQueue A → RawFastFindQueue A × Outcome A
  get q = get_from q.queue q.stop_to_put q.stop_to_get q

  -- `TryGet`. The class CQueueEmptyException that it names is not declared: `queue_empty` stands for
  -- it.
  abbrev pub try_get_from : List A → Bool → RawFastFindQueue A → RawFastFindQueue A × Outcome A
  try_get_from queue true q = (q, threw queue_stop_to_get)
  try_get_from [] false q = (q, threw queue_empty)
  try_get_from (a ∷ rest) false q = pop a rest q

  abbrev pub try_get : RawFastFindQueue A → RawFastFindQueue A × Outcome A
  try_get q = try_get_from q.queue q.stop_to_get q

  -- `Put` behind its test: both containers, and the count of the waits, with a signal if there is
  -- one.
  abbrev pub push : A → RawFastFindQueue A → RawFastFindQueue A × Bool
  push a q =
      let q' = set_insert a (record q { queue = q.queue ++ a ∷ [] }) in
      if q'.wait_count == 0
      then (q', false)
      else (record q' { wait_count = q'.wait_count - 1 }, true)

  abbrev pub put : A → RawFastFindQueue A → RawFastFindQueue A × Outcome A
  put a q = if q.stop_to_put then (q, threw queue_stop_to_put) else ((push a q).0, done)

  abbrev pub find : A → RawFastFindQueue A → Bool
  find a q = contains less a q.set

  abbrev pub stop_put : RawFastFindQueue A → RawFastFindQueue A
  stop_put q = record q { stop_to_put = true }

  abbrev pub stop_put_and_get : RawFastFindQueue A → RawFastFindQueue A
  stop_put_and_get q = record q { stop_to_put = true; stop_to_get = true }

  abbrev pub is_empty : RawFastFindQueue A → Bool
  is_empty q = length q.queue == 0

  abbrev pub size : RawFastFindQueue A → ℕ
  size q = length q.queue
