-- ===== src/ConcurrencyQueue.antt =====
-- `RawQueue` of cppfoundation/include/cppfoundation/cf_concurrency_queue.hpp: a queue that threads
-- share, with gets that wait on a condition, and two ways to stop it.
pub mod System
pub mod FastFind
mod Tests
use cppfastdevelop.Prelude.{
  ℕ, suc, ◌-◌, Bool, true, false, List, [], ◌∷◌, ◌++◌, length, ◌==◌, if◌then◌else◌,
}

pub data Exception : Type 0 where
  queue_stop_to_get queue_empty_and_stop_to_put queue_empty queue_stop_to_put : Exception

-- The object, less its condition. `_waitCount` counts the waits that no put has signalled yet.
pub record RawQueue (A : Type 0) : Type 0 where
  pub stop_to_put : Bool
  pub stop_to_get : Bool
  pub wait_count : ℕ
  pub queue : List A

-- What a get with the lock held comes to: it goes to wait, returns the front, or throws.
pub data Round (A : Type 0) : Type 0 where
  waits : Round A
  got : A → List A → Round A
  threw : Exception → Round A

-- The test of the loop in `Get`, and what stands behind the loop.
abbrev pub get_from : {A : Type 0} → List A → Bool → Bool → Round A
get_from [] false stop_to_get = waits
get_from [] true stop_to_get =
    if stop_to_get then threw queue_stop_to_get else threw queue_empty_and_stop_to_put
get_from (a ∷ as') stop_to_put stop_to_get =
    if stop_to_get then threw queue_stop_to_get else got a as'

-- The statements of `StopPutAndGet` and `StopPut`, which run without the lock.
pub data StopStep : Type 0 where
  sets_stop_to_get sets_stop_to_put broadcasts : StopStep

abbrev pub stop_put_and_get : List StopStep
stop_put_and_get = sets_stop_to_get ∷ sets_stop_to_put ∷ broadcasts ∷ []

abbrev pub stop_put : List StopStep
stop_put = sets_stop_to_put ∷ broadcasts ∷ []

module _ {A : Type 0} where
  abbrev pub new_queue : RawQueue A
  new_queue = record { stop_to_put = false; stop_to_get = false; wait_count = 0; queue = [] }

  -- One round of `Get`.
  abbrev pub get : RawQueue A → Round A
  get q = get_from q.queue q.stop_to_put q.stop_to_get

  -- `++_waitCount` in front of a wait.
  abbrev pub count_wait : RawQueue A → RawQueue A
  count_wait q = record q { wait_count = suc q.wait_count }

  -- `Put` behind its test of `_stopToPut`: the queue, and whether it signals.
  abbrev pub push : A → RawQueue A → RawQueue A × Bool
  push a q =
      if q.wait_count == 0
      then (record q { queue = q.queue ++ a ∷ [] }, false)
      else (record q { queue = q.queue ++ a ∷ []; wait_count = q.wait_count - 1 }, true)

  -- The flags behind a statement of a stop.
  abbrev pub flagged : StopStep → RawQueue A → RawQueue A
  flagged sets_stop_to_get q = record q { stop_to_get = true }
  flagged sets_stop_to_put q = record q { stop_to_put = true }
  flagged broadcasts q = q

  abbrev pub is_empty : RawQueue A → Bool
  is_empty q = length q.queue == 0

  abbrev pub size : RawQueue A → ℕ
  size q = length q.queue
