-- ===== src/Locks.antt =====
-- The locks of cppfoundation/src/class/cf_lock.cpp and
-- cppfoundation/include/cppfoundation/cf_lock.hpp, over the calls of pthread, of semaphores and of
-- `fcntl`, which are parameters. A call that waits is one step, taken when it returns.
pub mod Exclusion
pub mod File
pub mod Guard
mod Tests
use cppfastdevelop.Prelude.{ℕ, suc, Bool, true, false, Option, none, some, ℤ, pos, if◌then◌else◌}

-- A call returns a value, or throws `SyscallExecuteError`.
pub data Outcome (B : Type 0) : Type 0 where
  returned : B → Outcome B
  threw : Outcome B

-- What a pthread call returns: 0, EBUSY, or another error.
pub data Code : Type 0 where
  zero_code ebusy other : Code

-- 0 or an exception.
abbrev pub checked : {S : Type 0} → S × Code → S × Outcome (Unit {0})
checked (s, zero_code) = (s, returned tt)
checked (s, ebusy) = (s, threw)
checked (s, other) = (s, threw)

-- The same of a call that tries: EBUSY is no exception.
abbrev pub tried : {S : Type 0} → S × Code → S × Outcome Bool
tried (s, zero_code) = (s, returned true)
tried (s, ebusy) = (s, returned false)
tried (s, other) = (s, threw)

-- `pthread_mutex_lock` and its companions on a mutex in some state.
pub record MutexCalls (S : Type 0) : Type 0 where
  pub lock : S → S × Code
  pub unlock : S → S × Code
  pub trylock : S → S × Code

-- `PthreadMutex` and `RawPthreadMutex`.
module _ {S : Type 0} (sys : MutexCalls S) where
  abbrev pub mutex_lock : S → S × Outcome (Unit {0})
  mutex_lock s = checked (sys.lock s)

  abbrev pub mutex_unlock : S → S × Outcome (Unit {0})
  mutex_unlock s = checked (sys.unlock s)

  abbrev pub mutex_try_lock : S → S × Outcome Bool
  mutex_try_lock s = tried (sys.trylock s)

-- What a call on a semaphore comes to: 0, or -1 with EAGAIN or another `errno`.
pub data SemEnd : Type 0 where
  passed eagain failed : SemEnd

pub record SemaphoreCalls (S : Type 0) : Type 0 where
  pub wait : S → S × SemEnd
  pub trywait : S → S × SemEnd
  pub post : S → S × SemEnd
  pub getvalue : S → ℤ

-- `PosixSemaphore` once it is open; `Lock` and `UnLock` do not look at the result.
module _ {S : Type 0} (sys : SemaphoreCalls S) where
  abbrev pub get_value : S → ℤ
  get_value s = sys.getvalue s

  abbrev pub semaphore_lock : S → S
  semaphore_lock s = (sys.wait s).0

  abbrev pub trywait_end : S × SemEnd → S × Outcome Bool
  trywait_end (s, passed) = (s, returned true)
  trywait_end (s, eagain) = (s, returned false)
  trywait_end (s, failed) = (s, threw)

  abbrev pub semaphore_try_lock : S → S × Outcome Bool
  semaphore_try_lock s = trywait_end (sys.trywait s)

  abbrev pub semaphore_unlock : S → S
  semaphore_unlock s = (sys.post s).0

-- The operations of a raw read-write lock, as `RWMutex` uses them.
pub record RawRwMutex (S : Type 0) : Type 0 where
  pub read_lock : S → S × Outcome (Unit {0})
  pub try_read_lock : S → S × Outcome Bool
  pub write_lock : S → S × Outcome (Unit {0})
  pub try_write_lock : S → S × Outcome Bool
  pub unlock : S → S × Outcome (Unit {0})

-- `pthread_rwlock_rdlock` and its companions.
pub record RwlockCalls (S : Type 0) : Type 0 where
  pub rdlock : S → S × Code
  pub tryrdlock : S → S × Code
  pub wrlock : S → S × Code
  pub trywrlock : S → S × Code
  pub unlock : S → S × Code

-- `RawPthreadRWMutex`.
abbrev pub raw_pthread_rw_mutex : {S : Type 0} → RwlockCalls S → RawRwMutex S
raw_pthread_rw_mutex sys = record {
  read_lock = λ s. checked (sys.rdlock s);
  try_read_lock = λ s. tried (sys.tryrdlock s);
  write_lock = λ s. checked (sys.wrlock s);
  try_write_lock = λ s. tried (sys.trywrlock s);
  unlock = λ s. checked (sys.unlock s);
}

-- `lockdefs::LOCK_TYPE`.
pub data LockType : Type 0 where
  read write : LockType

-- `RWMutex`: a raw lock that is taken for one kind of use.
module _ {S : Type 0} (raw : RawRwMutex S) where
  abbrev pub rw_lock : LockType → S → S × Outcome (Unit {0})
  rw_lock read s = raw.read_lock s
  rw_lock write s = raw.write_lock s

  abbrev pub rw_try_lock : LockType → S → S × Outcome Bool
  rw_try_lock read s = raw.try_read_lock s
  rw_try_lock write s = raw.try_write_lock s

  abbrev pub rw_unlock : S → S × Outcome (Unit {0})
  rw_unlock s = raw.unlock s
