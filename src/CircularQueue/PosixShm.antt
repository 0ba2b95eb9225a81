-- ===== src/CircularQueue/PosixShm.antt =====
-- `PosixShmCircularQueue` of circularqueue/include/circularqueue/cl_posixshm_circular_queue.hpp: a
-- queue in a named object of shared memory, which every process opens by its name.
--
-- An address stands for a mapping of one process: those of different processes are told apart.
pub mod Sharing
pub mod Opening
pub mod Refine
mod Tests
use cppfastdevelop.Prelude.{ℕ, Bool, true, false, List, ℤ}
use cppfastdevelop.Ipc.SharedMemory.{
  Error, Outcome, ShmCalls, PosixShM, make_shm, destroy_shm, get_shm,
}
use cppfastdevelop.CircularQueue.Def.{
  Exception, value_error, syscall_execute_error, Result, ok, throw, Shared, Layout,
}
use cppfastdevelop.CircularQueue.Meta.{SetupCalls, make_meta}
use cppfastdevelop.CircularQueue.Transfer as Transfer
use cppfastdevelop.CircularQueue.Transfer.{Calls, Wake, returned, waiting}

-- Reads and writes through a pointer into a mapping, as the queue's class makes them.
pub record RegionCalls (W : Type 0) : Type 0 where
  pub region : ℕ → W → Shared
  pub put_region : ℕ → Shared → W → W

-- `_shm`, and `_queue` as the address that it works on.
pub record PosixShmCircularQueue : Type 0 where
  pub shm : PosixShM
  pub queue : ℕ

-- What a call has come to, in the world that it leaves.
pub data Reached {ℓ} (W : Type 0) (A : Type ℓ) : Type ℓ where
  replied : W → Result A → Reached W A
  waits : W → Reached W A

abbrev pub thrown : Error → Exception
thrown Error.value_error = value_error
thrown Error.syscall_execute_error = syscall_execute_error

module _ {W : Type 0} (sys : ShmCalls W) (mem : RegionCalls W) (l : Layout) where
  -- Where the queue's constructor throws, `_shm` is destroyed.
  abbrev pub with_meta :
      PosixShM → ℕ → W → Shared × Result (Unit {0}) → W × Result PosixShmCircularQueue
  with_meta shm p w (s, ok u) = (mem.put_region p s w, ok (record { shm = shm; queue = p }))
  with_meta shm p w (s, throw e) = (destroy_shm sys shm (mem.put_region p s w), throw e)

  abbrev pub with_pointer :
      Bool
      → ℕ
      → SetupCalls
      → SetupCalls
      → PosixShM
      → W
      → Outcome ℕ
      → W × Result PosixShmCircularQueue
  with_pointer creator mem_size mutex cond shm w (Outcome.returned p) =
      with_meta shm p w (make_meta l creator mem_size mutex cond (mem.region p w))
  with_pointer creator mem_size mutex cond shm w (Outcome.threw e) =
      (destroy_shm sys shm w, throw (thrown e))

  abbrev pub with_shm :
      Bool → ℕ → SetupCalls → SetupCalls → W × Outcome PosixShM → W × Result PosixShmCircularQueue
  with_shm creator mem_size mutex cond (w, Outcome.returned shm) =
      with_pointer creator mem_size mutex cond shm w (get_shm sys shm)
  with_shm creator mem_size mutex cond (w, Outcome.threw e) = (w, throw (thrown e))

  -- `PosixShmCircularQueue(name, creator, memSize, oflag, mode)`, with `prot` PROT_DEFAULT: the
  -- creator's object unlinks the name in the end.
  unfoldable pub make_queue :
      List ℕ → Bool → ℕ → ℕ → ℕ → ℕ → SetupCalls → SetupCalls → W → W × Result PosixShmCircularQueue
  make_queue name creator mem_size oflag prot mode mutex cond w =
      with_shm creator mem_size mutex cond
        (make_shm sys name mem_size oflag prot mode creator true w)

  -- The destructor: `_queue` owns nothing outside the region.
  abbrev pub destroy_queue : PosixShmCircularQueue → W → W
  destroy_queue q w = destroy_shm sys q.shm w

  abbrev pub landed {ℓ} : {A : Type ℓ} → ℕ → W → Transfer.Outcome A → Reached W A
  landed p w (returned s r) = replied (mem.put_region p s w) r
  landed p w (waiting s) = waits (mem.put_region p s w)

  -- Each method passes its arguments on.
  abbrev pub put : Calls → List Wake → List ℕ → PosixShmCircularQueue → W → Reached W (Unit {0})
  put c wakes body q w = landed q.queue w (Transfer.put l c wakes body (mem.region q.queue w))

  abbrev pub try_put : Calls → List ℕ → PosixShmCircularQueue → W → Reached W (Unit {0})
  try_put c body q w = landed q.queue w (Transfer.try_put l c body (mem.region q.queue w))

  abbrev pub timed_put :
      Calls → List Wake → List ℕ → ℤ → PosixShmCircularQueue → W → Reached W (Unit {0})
  timed_put c wakes body timeout q w =
      landed q.queue w (Transfer.timed_put l c wakes body timeout (mem.region q.queue w))

  abbrev pub get : Calls → List Wake → PosixShmCircularQueue → W → Reached W (List ℕ)
  get c wakes q w = landed q.queue w (Transfer.get l c wakes (mem.region q.queue w))

  abbrev pub try_get : Calls → PosixShmCircularQueue → W → Reached W (List ℕ)
  try_get c q w = landed q.queue w (Transfer.try_get l c (mem.region q.queue w))

  abbrev pub timed_get : Calls → List Wake → ℤ → PosixShmCircularQueue → W → Reached W (List ℕ)
  timed_get c wakes timeout q w =
      landed q.queue w (Transfer.timed_get l c wakes timeout (mem.region q.queue w))

  abbrev pub stop_put : Calls → PosixShmCircularQueue → W → Reached W (Unit {0})
  stop_put c q w = landed q.queue w (Transfer.stop_put c (mem.region q.queue w))

  abbrev pub stop_put_and_get : Calls → PosixShmCircularQueue → W → Reached W (Unit {0})
  stop_put_and_get c q w = landed q.queue w (Transfer.stop_put_and_get c (mem.region q.queue w))
