-- ===== src/SystemStub/Ipc.antt =====
-- The functions of cppfoundation/src/stub/cf_system_stub.c on shared memory, semaphores and message queues
-- that look at their pointers before they call the system.
use cppfastdevelop.Prelude.{ℕ, ◌≡◌, ◌||◌, List, [], ◌∷◌, ℤ, if◌then◌else◌, arith}
use cppfastdevelop.SystemStub.Calling.{
  Pointer, Process, Call, Reply, int_reply, pointer_reply, reply, is_null, any_null, minus_one,
  refused,
}

-- The system's functions.
pub record Calls (W : Type 0) : Type 0 where
  pub ftok : Pointer → ℤ → Call W ℤ
  pub shmdt : Pointer → Call W ℤ
  pub mlock : Pointer → ℕ → Call W ℤ
  pub munlock : Pointer → ℕ → Call W ℤ
  pub munmap : Pointer → ℕ → Call W ℤ
  pub msync : Pointer → ℕ → ℤ → Call W ℤ
  pub shm_open : Pointer → ℤ → ℕ → Call W ℤ
  pub shm_unlink : Pointer → Call W ℤ
  pub sem_open : Pointer → ℤ → ℕ → ℕ → Call W Pointer
  pub sem_unlink : Pointer → Call W ℤ
  pub mq_open : Pointer → ℤ → ℕ → Pointer → Call W ℤ
  pub mq_unlink : Pointer → Call W ℤ
  pub mq_getattr : ℤ → Pointer → Call W ℤ
  pub mq_setattr : ℤ → Pointer → Pointer → Call W ℤ
  pub mq_send : ℤ → Pointer → ℕ → ℕ → Call W ℤ
  pub mq_timedsend : ℤ → Pointer → ℕ → ℕ → Pointer → Call W ℤ
  pub mq_receive : ℤ → Pointer → ℕ → Pointer → Call W ℤ
  pub mq_timedreceive : ℤ → Pointer → ℕ → Pointer → Pointer → Call W ℤ
  pub mq_notify : ℤ → Pointer → Call W ℤ
  pub sem_failed : Pointer

module _ {W : Type 0} (sys : Calls W) where
  abbrev pub cf_ftok : Pointer → ℤ → Call W ℤ
  cf_ftok pathname id p = if is_null pathname then refused minus_one p else sys.ftok pathname id p

  abbrev pub cf_shmdt : Pointer → Call W ℤ
  cf_shmdt shmaddr p = if is_null shmaddr then refused minus_one p else sys.shmdt shmaddr p

  abbrev pub cf_mlock : Pointer → ℕ → Call W ℤ
  cf_mlock addr len p = if is_null addr then refused minus_one p else sys.mlock addr len p

  abbrev pub cf_munlock : Pointer → ℕ → Call W ℤ
  cf_munlock addr len p = if is_null addr then refused minus_one p else sys.munlock addr len p

  abbrev pub cf_munmap : Pointer → ℕ → Call W ℤ
  cf_munmap addr length p = if is_null addr then refused minus_one p else sys.munmap addr length p

  abbrev pub cf_msync : Pointer → ℕ → ℤ → Call W ℤ
  cf_msync start length flags p =
      if is_null start then refused minus_one p else sys.msync start length flags p

  abbrev pub cf_shm_open : Pointer → ℤ → ℕ → Call W ℤ
  cf_shm_open name oflag mode p =
      if is_null name then refused minus_one p else sys.shm_open name oflag mode p

  abbrev pub cf_shm_unlink : Pointer → Call W ℤ
  cf_shm_unlink name p = if is_null name then refused minus_one p else sys.shm_unlink name p

  abbrev pub cf_sem_open : Pointer → ℤ → ℕ → ℕ → Call W Pointer
  cf_sem_open name oflag mode value p =
      if is_null name then refused sys.sem_failed p else sys.sem_open name oflag mode value p

  abbrev pub cf_sem_unlink : Pointer → Call W ℤ
  cf_sem_unlink name p = if is_null name then refused minus_one p else sys.sem_unlink name p

  abbrev pub cf_mq_open : Pointer → ℤ → ℕ → Pointer → Call W ℤ
  cf_mq_open name oflag mode attr p =
      if is_null name then refused minus_one p else sys.mq_open name oflag mode attr p

  abbrev pub cf_mq_unlink : Pointer → Call W ℤ
  cf_mq_unlink name p = if is_null name then refused minus_one p else sys.mq_unlink name p

  abbrev pub cf_mq_getattr : ℤ → Pointer → Call W ℤ
  cf_mq_getattr mqdes attr p =
      if is_null attr then refused minus_one p else sys.mq_getattr mqdes attr p

  abbrev pub cf_mq_setattr : ℤ → Pointer → Pointer → Call W ℤ
  cf_mq_setattr mqdes newattr oldattr p =
      if is_null newattr || is_null oldattr
      then refused minus_one p
      else sys.mq_setattr mqdes newattr oldattr p

  abbrev pub cf_mq_send : ℤ → Pointer → ℕ → ℕ → Call W ℤ
  cf_mq_send mqdes msg_ptr msg_len msg_prio p =
      if is_null msg_ptr then refused minus_one p else sys.mq_send mqdes msg_ptr msg_len msg_prio p

  abbrev pub cf_mq_timedsend : ℤ → Pointer → ℕ → ℕ → Pointer → Call W ℤ
  cf_mq_timedsend mqdes msg_ptr msg_len msg_prio abs_timeout p =
      if is_null msg_ptr || is_null abs_timeout
      then refused minus_one p
      else sys.mq_timedsend mqdes msg_ptr msg_len msg_prio abs_timeout p

  abbrev pub cf_mq_receive : ℤ → Pointer → ℕ → Pointer → Call W ℤ
  cf_mq_receive mqdes msg_ptr msg_len msg_prio p =
      if is_null msg_ptr || is_null msg_prio
      then refused minus_one p
      else sys.mq_receive mqdes msg_ptr msg_len msg_prio p

  abbrev pub cf_mq_timedreceive : ℤ → Pointer → ℕ → Pointer → Pointer → Call W ℤ
  cf_mq_timedreceive mqdes msg_ptr msg_len msg_prio abs_timeout p =
      if is_null msg_ptr || is_null msg_prio || is_null abs_timeout
      then refused minus_one p
      else sys.mq_timedreceive mqdes msg_ptr msg_len msg_prio abs_timeout p

  abbrev pub cf_mq_notify : ℤ → Pointer → Call W ℤ
  cf_mq_notify mqdes sevp p =
      if is_null sevp then refused minus_one p else sys.mq_notify mqdes sevp p

-- A call of one of them.
pub data Request : Type 0 where
  ftok : Pointer → ℤ → Request
  shmdt : Pointer → Request
  mlock : Pointer → ℕ → Request
  munlock : Pointer → ℕ → Request
  munmap : Pointer → ℕ → Request
  msync : Pointer → ℕ → ℤ → Request
  shm_open : Pointer → ℤ → ℕ → Request
  shm_unlink : Pointer → Request
  sem_open : Pointer → ℤ → ℕ → ℕ → Request
  sem_unlink : Pointer → Request
  mq_open : Pointer → ℤ → ℕ → Pointer → Request
  mq_unlink : Pointer → Request
  mq_getattr : ℤ → Pointer → Request
  mq_setattr : ℤ → Pointer → Pointer → Request
  mq_send : ℤ → Pointer → ℕ → ℕ → Request
  mq_timedsend : ℤ → Pointer → ℕ → ℕ → Pointer → Request
  mq_receive : ℤ → Pointer → ℕ → Pointer → Request
  mq_timedreceive : ℤ → Pointer → ℕ → Pointer → Pointer → Request
  mq_notify : ℤ → Pointer → Request

-- The pointers that it must not be given null.
abbrev pub guarded : Request → List Pointer
guarded (ftok pathname id) = pathname ∷ []
guarded (shmdt shmaddr) = shmaddr ∷ []
guarded (mlock addr len) = addr ∷ []
guarded (munlock addr len) = addr ∷ []
guarded (munmap addr length) = addr ∷ []
guarded (msync start length flags) = start ∷ []
guarded (shm_open name oflag mode) = name ∷ []
guarded (shm_unlink name) = name ∷ []
guarded (sem_open name oflag mode value) = name ∷ []
guarded (sem_unlink name) = name ∷ []
guarded (mq_open name oflag mode attr) = name ∷ []
guarded (mq_unlink name) = name ∷ []
guarded (mq_getattr mqdes attr) = attr ∷ []
guarded (mq_setattr mqdes newattr oldattr) = newattr ∷ oldattr ∷ []
guarded (mq_send mqdes msg_ptr msg_len msg_prio) = msg_ptr ∷ []
guarded (mq_timedsend mqdes msg_ptr msg_len msg_prio abs_timeout) = msg_ptr ∷ abs_timeout ∷ []
guarded (mq_receive mqdes msg_ptr msg_len msg_prio) = msg_ptr ∷ msg_prio ∷ []
guarded (mq_timedreceive mqdes msg_ptr msg_len msg_prio abs_timeout) =
    msg_ptr ∷ msg_prio ∷ abs_timeout ∷ []
guarded (mq_notify mqdes sevp) = sevp ∷ []

module _ {W : Type 0} (sys : Calls W) where
  abbrev pub perform : Request → Call W Reply
  perform (ftok pathname id) p = reply int_reply (cf_ftok sys pathname id p)
  perform (shmdt shmaddr) p = reply int_reply (cf_shmdt sys shmaddr p)
  perform (mlock addr len) p = reply int_reply (cf_mlock sys addr len p)
  perform (munlock addr len) p = reply int_reply (cf_munlock sys addr len p)
  perform (munmap addr length) p = reply int_reply (cf_munmap sys addr length p)
  perform (msync start length flags) p = reply int_reply (cf_msync sys start length flags p)
  perform (shm_open name oflag mode) p = reply int_reply (cf_shm_open sys name oflag mode p)
  perform (shm_unlink name) p = reply int_reply (cf_shm_unlink sys name p)
  perform (sem_open name oflag mode value) p =
      reply pointer_reply (cf_sem_open sys name oflag mode value p)
  perform (sem_unlink name) p = reply int_reply (cf_sem_unlink sys name p)
  perform (mq_open name oflag mode attr) p = reply int_reply (cf_mq_open sys name oflag mode attr p)
  perform (mq_unlink name) p = reply int_reply (cf_mq_unlink sys name p)
  perform (mq_getattr mqdes attr) p = reply int_reply (cf_mq_getattr sys mqdes attr p)
  perform (mq_setattr mqdes newattr oldattr) p =
      reply int_reply (cf_mq_setattr sys mqdes newattr oldattr p)
  perform (mq_send mqdes msg_ptr msg_len msg_prio) p =
      reply int_reply (cf_mq_send sys mqdes msg_ptr msg_len msg_prio p)
  perform (mq_timedsend mqdes msg_ptr msg_len msg_prio abs_timeout) p =
      reply int_reply (cf_mq_timedsend sys mqdes msg_ptr msg_len msg_prio abs_timeout p)
  perform (mq_receive mqdes msg_ptr msg_len msg_prio) p =
      reply int_reply (cf_mq_receive sys mqdes msg_ptr msg_len msg_prio p)
  perform (mq_timedreceive mqdes msg_ptr msg_len msg_prio abs_timeout) p =
      reply int_reply (cf_mq_timedreceive sys mqdes msg_ptr msg_len msg_prio abs_timeout p)
  perform (mq_notify mqdes sevp) p = reply int_reply (cf_mq_notify sys mqdes sevp p)

  -- What it does for other pointers, and what it returns for null.
  abbrev pub call_of : Request → Call W Reply
  call_of (ftok pathname id) p = reply int_reply (sys.ftok pathname id p)
  call_of (shmdt shmaddr) p = reply int_reply (sys.shmdt shmaddr p)
  call_of (mlock addr len) p = reply int_reply (sys.mlock addr len p)
  call_of (munlock addr len) p = reply int_reply (sys.munlock addr len p)
  call_of (munmap addr length) p = reply int_reply (sys.munmap addr length p)
  call_of (msync start length flags) p = reply int_reply (sys.msync start length flags p)
  call_of (shm_open name oflag mode) p = reply int_reply (sys.shm_open name oflag mode p)
  call_of (shm_unlink name) p = reply int_reply (sys.shm_unlink name p)
  call_of (sem_open name oflag mode value) p =
      reply pointer_reply (sys.sem_open name oflag mode value p)
  call_of (sem_unlink name) p = reply int_reply (sys.sem_unlink name p)
  call_of (mq_open name oflag mode attr) p = reply int_reply (sys.mq_open name oflag mode attr p)
  call_of (mq_unlink name) p = reply int_reply (sys.mq_unlink name p)
  call_of (mq_getattr mqdes attr) p = reply int_reply (sys.mq_getattr mqdes attr p)
  call_of (mq_setattr mqdes newattr oldattr) p =
      reply int_reply (sys.mq_setattr mqdes newattr oldattr p)
  call_of (mq_send mqdes msg_ptr msg_len msg_prio) p =
      reply int_reply (sys.mq_send mqdes msg_ptr msg_len msg_prio p)
  call_of (mq_timedsend mqdes msg_ptr msg_len msg_prio abs_timeout) p =
      reply int_reply (sys.mq_timedsend mqdes msg_ptr msg_len msg_prio abs_timeout p)
  call_of (mq_receive mqdes msg_ptr msg_len msg_prio) p =
      reply int_reply (sys.mq_receive mqdes msg_ptr msg_len msg_prio p)
  call_of (mq_timedreceive mqdes msg_ptr msg_len msg_prio abs_timeout) p =
      reply int_reply (sys.mq_timedreceive mqdes msg_ptr msg_len msg_prio abs_timeout p)
  call_of (mq_notify mqdes sevp) p = reply int_reply (sys.mq_notify mqdes sevp p)

  abbrev pub failure : Request → Reply
  failure (ftok pathname id) = int_reply minus_one
  failure (shmdt shmaddr) = int_reply minus_one
  failure (mlock addr len) = int_reply minus_one
  failure (munlock addr len) = int_reply minus_one
  failure (munmap addr length) = int_reply minus_one
  failure (msync start length flags) = int_reply minus_one
  failure (shm_open name oflag mode) = int_reply minus_one
  failure (shm_unlink name) = int_reply minus_one
  failure (sem_open name oflag mode value) = pointer_reply sys.sem_failed
  failure (sem_unlink name) = int_reply minus_one
  failure (mq_open name oflag mode attr) = int_reply minus_one
  failure (mq_unlink name) = int_reply minus_one
  failure (mq_getattr mqdes attr) = int_reply minus_one
  failure (mq_setattr mqdes newattr oldattr) = int_reply minus_one
  failure (mq_send mqdes msg_ptr msg_len msg_prio) = int_reply minus_one
  failure (mq_timedsend mqdes msg_ptr msg_len msg_prio abs_timeout) = int_reply minus_one
  failure (mq_receive mqdes msg_ptr msg_len msg_prio) = int_reply minus_one
  failure (mq_timedreceive mqdes msg_ptr msg_len msg_prio abs_timeout) = int_reply minus_one
  failure (mq_notify mqdes sevp) = int_reply minus_one

  pub perform-guards :
      (r : Request) (p : Process W)
      → perform r p ≡ (if any_null (guarded r) then refused (failure r) p else call_of r p)
  perform-guards (ftok pathname id) p = ground arith
  perform-guards (shmdt shmaddr) p = ground arith
  perform-guards (mlock addr len) p = ground arith
  perform-guards (munlock addr len) p = ground arith
  perform-guards (munmap addr length) p = ground arith
  perform-guards (msync start length flags) p = ground arith
  perform-guards (shm_open name oflag mode) p = ground arith
  perform-guards (shm_unlink name) p = ground arith
  perform-guards (sem_open name oflag mode value) p = ground arith
  perform-guards (sem_unlink name) p = ground arith
  perform-guards (mq_open name oflag mode attr) p = ground arith
  perform-guards (mq_unlink name) p = ground arith
  perform-guards (mq_getattr mqdes attr) p = ground arith
  perform-guards (mq_setattr mqdes newattr oldattr) p = ground arith
  perform-guards (mq_send mqdes msg_ptr msg_len msg_prio) p = ground arith
  perform-guards (mq_timedsend mqdes msg_ptr msg_len msg_prio abs_timeout) p = ground arith
  perform-guards (mq_receive mqdes msg_ptr msg_len msg_prio) p = ground arith
  perform-guards (mq_timedreceive mqdes msg_ptr msg_len msg_prio abs_timeout) p = ground arith
  perform-guards (mq_notify mqdes sevp) p = ground arith
