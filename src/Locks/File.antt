-- ===== src/Locks/File.antt =====
-- `RawFileRWMutex` of cf_lock.cpp: a lock on a whole file by `fcntl`, and what becomes of its tries.
use cppfastdevelop.Prelude.{
  ◌≢◌, ◌||◌, ◌==◌, Bool, true, false, ℤ, pos, negsuc, if◌then◌else◌, arith,
}
use cppfastdevelop.Locks.{Outcome, returned, threw, RawRwMutex}

-- `l_type`, and the commands that set and test a lock.
pub data FlockType : Type 0 where
  f_rdlck f_wrlck f_unlck : FlockType

pub data Command : Type 0 where
  f_setlk f_setlkw : Command

-- The call on the file: what `fcntl` returns for a lock, and with F_GETLK the type and the process of
-- the lock that is in the way, too.
pub record FcntlCalls (S : Type 0) : Type 0 where
  pub fcntl : Command → FlockType → S → S × ℤ
  pub getlk : FlockType → S → ℤ × FlockType × ℤ

-- EACCES and EAGAIN.
abbrev eacces : ℤ
eacces = pos 13

abbrev eagain : ℤ
eagain = pos 11

abbrev same_int : ℤ → ℤ → Bool
same_int (pos a) (pos b) = a == b
same_int (pos a) (negsuc b) = false
same_int (negsuc a) (pos b) = false
same_int (negsuc a) (negsuc b) = a == b

module _ {S : Type 0} (sys : FcntlCalls S) where
  abbrev pub locked_file : S × ℤ → S × Outcome (Unit {0})
  locked_file (s, rt) = (s, if same_int (negsuc 0) rt then threw else returned tt)

  -- The tries compare what `fcntl` returned, and not `errno`, with the two errors.
  abbrev pub tried_file : S × ℤ → S × Outcome Bool
  tried_file (s, rt) = (
    s,
    if same_int (negsuc 0) rt
        then (if same_int eacces rt || same_int eagain rt then returned false else threw)
        else returned true,
  )

  abbrev pub raw_file_rw_mutex : RawRwMutex S
  raw_file_rw_mutex = record {
    read_lock = λ s. locked_file (sys.fcntl f_setlkw f_rdlck s);
    try_read_lock = λ s. tried_file (sys.fcntl f_setlk f_rdlck s);
    write_lock = λ s. locked_file (sys.fcntl f_setlkw f_wrlck s);
    try_write_lock = λ s. tried_file (sys.fcntl f_setlk f_wrlck s);
    unlock = λ s. locked_file (sys.fcntl f_setlk f_unlck s);
  }

  abbrev pub held : FlockType → Bool
  held f_unlck = false
  held f_rdlck = true
  held f_wrlck = true

  -- `IsLock`; the one with a process assigns its own copy of the argument only.
  abbrev pub is_lock : S → Outcome Bool
  is_lock s =
      if same_int (negsuc 0) (sys.getlk f_wrlck s).0
      then threw
      else returned (held (sys.getlk f_wrlck s).1)

  abbrev pub is_lock_by : ℤ → S → Outcome Bool × ℤ
  is_lock_by lockedpid s = (is_lock s, lockedpid)

  tried_file-true : (x : S × ℤ) → (tried_file x).1 ≢ returned false
  tried_file-true (s, pos n) e = cc
  tried_file-true (s, negsuc n) e = ground (arith, e)

  -- A try for a lock on a file never says that it is taken: where `fcntl` fails, whatever the error,
  -- it throws.
  pub try_lock-never_false :
      (s : S)
      → ((raw_file_rw_mutex.try_read_lock s).1 ≢ returned false)
        × ((raw_file_rw_mutex.try_write_lock s).1 ≢ returned false)
  try_lock-never_false s =
      (tried_file-true (sys.fcntl f_setlk f_rdlck s), tried_file-true (sys.fcntl f_setlk f_wrlck s))
