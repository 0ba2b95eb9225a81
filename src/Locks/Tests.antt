-- ===== src/Locks/Tests.antt =====
-- A lock that counts its holders, a semaphore, and a mutex of one caller whose block throws.
use cppfastdevelop.Prelude.{
  ℕ, zero, suc, ◌≡◌, refl, Bool, true, false, none, some, if◌then◌else◌, List, [], ◌∷◌, pos, arith,
}
use cppfastdevelop.Locks.{
  Outcome, returned, threw, MutexCalls, mutex_lock, mutex_unlock, Code, zero_code, ebusy, other,
  read, write, RwlockCalls, raw_pthread_rw_mutex, SemaphoreCalls, passed, failed, semaphore_lock,
}
use cppfastdevelop.Locks.Exclusion.{
  Guards, Event, locks, tries, unlocks, run, IsRwlock, Takes, GivesUp, IsExclusive, run-IsExclusive,
}
use cppfastdevelop.Locks.Guard.{
  IsLockable, IsGuarded, Lockable, lock_guard, ptr_lock_guard, Releases, guards-release,
}

-- Readers and writers. Where a call would have to wait, it fails.
abbrev State : Type 0
State = ℕ × ℕ

abbrev take_read : Code → State → State × Code
take_read code (r, zero) = ((suc r, zero), zero_code)
take_read code (r, suc w) = ((r, suc w), code)

abbrev take_write : Code → State → State × Code
take_write code (zero, zero) = ((0, 1), zero_code)
take_write code (suc r, w) = ((suc r, w), code)
take_write code (zero, suc w) = ((0, suc w), code)

abbrev give_up : State → State × Code
give_up (r, suc w) = ((r, w), zero_code)
give_up (suc r, zero) = ((r, 0), zero_code)
give_up (zero, zero) = ((0, 0), other)

abbrev rwlock : RwlockCalls State
rwlock = record {
  rdlock = take_read other;
  tryrdlock = take_read ebusy;
  wrlock = take_write other;
  trywrlock = take_write ebusy;
  unlock = give_up;
}

abbrev readers : State → ℕ
readers s = s.0

abbrev writers : State → ℕ
writers s = s.1

other_read : (s : State) → Takes readers writers read s (take_read other s)
other_read (r, zero) = (refl, refl, refl)
other_read (r, suc w) = (refl, refl)

busy_read : (s : State) → Takes readers writers read s (take_read ebusy s)
busy_read (r, zero) = (refl, refl, refl)
busy_read (r, suc w) = (refl, refl)

other_write : (s : State) → Takes readers writers write s (take_write other s)
other_write (zero, zero) = (refl, refl, refl, refl)
other_write (suc r, w) = (refl, refl)
other_write (zero, suc w) = (refl, refl)

busy_write : (s : State) → Takes readers writers write s (take_write ebusy s)
busy_write (zero, zero) = (refl, refl, refl, refl)
busy_write (suc r, w) = (refl, refl)
busy_write (zero, suc w) = (refl, refl)

gives_up : (s : State) → GivesUp readers writers s (give_up s)
gives_up (r, suc w) = (λ h. (omega arith, refl), λ h. absurd (omega arith))
gives_up (suc r, zero) = (λ h. absurd (omega arith), λ h. (refl, omega arith))
gives_up (zero, zero) = (refl, refl)

rwlock-IsRwlock : IsRwlock readers writers rwlock
rwlock-IsRwlock = record {
  rdlock = other_read;
  tryrdlock = busy_read;
  wrlock = other_write;
  trywrlock = busy_write;
  unlock = gives_up;
}

abbrev unheld : Guards State
unheld = record { state = (0, 0); reads = 0; writes = 0 }

unheld-IsExclusive : IsExclusive readers writers unheld
unheld-IsExclusive = record {
  reads_held = refl;
  writes_held = refl;
  one_writer = omega arith;
  alone = λ h. refl;
}

abbrev events : List Event
events =
    locks read
    ∷ locks read
    ∷ tries write
    ∷ unlocks read
    ∷ unlocks read
    ∷ tries write
    ∷ tries read
    ∷ []

run_ends :
    run (raw_pthread_rw_mutex rwlock) events unheld
    ≡ record { state = (0, 1); reads = 0; writes = 1 }
unfolding run
run_ends = refl

run-IsExclusive_example :
    IsExclusive readers writers (run (raw_pthread_rw_mutex rwlock) events unheld)
run-IsExclusive_example =
    run-IsExclusive readers writers rwlock-IsRwlock events unheld unheld-IsExclusive

-- A wait on a semaphore with the value 0 that a signal ends: `Lock` returns, and has not taken it.
abbrev interrupted : SemaphoreCalls ℕ
interrupted = record {
  wait = λ n. (n, failed);
  trywait = λ n. (n, failed);
  post = λ n. (suc n, passed);
  getvalue = λ n. pos n;
}

lock_taken_nothing : semaphore_lock interrupted 0 ≡ 0
lock_taken_nothing = refl

-- A mutex of one caller: whether it is taken.
abbrev own_mutex : MutexCalls Bool
own_mutex = record {
  lock = λ s. (true, if s then other else zero_code);
  unlock = λ s. (false, if s then zero_code else other);
  trylock = λ s. (true, if s then ebusy else zero_code);
}

abbrev own_lock : Lockable Bool
own_lock = record { lock = mutex_lock own_mutex; unlock = mutex_unlock own_mutex }

own_takes : (s : Bool) → (own_lock.lock s).1 ≡ returned tt → (own_lock.lock s).0 ≡ true
own_takes true e = absurd (cc)
own_takes false e = refl

own_refuses : (s : Bool) → (own_lock.lock s).1 ≡ threw → (own_lock.lock s).0 ≡ s
own_refuses true e = refl
own_refuses false e = absurd (cc)

own_gives_back :
    (s : Bool) → s ≡ true → ((own_lock.unlock s).1 ≡ returned tt) × ((own_lock.unlock s).0 ≡ false)
own_gives_back true h = (refl, refl)
own_gives_back false h = absurd (cc)

-- A block that throws.
abbrev failing : Bool → Bool × Outcome ℕ
failing s = (s, threw)

own_lock-IsLockable : IsLockable own_lock (λ s. s)
own_lock-IsLockable = record {
  takes = own_takes;
  refuses = own_refuses;
  gives_back = own_gives_back;
}

failing-IsGuarded : IsGuarded (λ s. s) failing
failing-IsGuarded = record { keeps = λ s h. h }

guards-release_example :
    Releases (λ s. s) (lock_guard own_lock failing false)
    × Releases (λ s. s) (ptr_lock_guard (some own_lock) failing false)
    × Releases {B = ℕ} (λ s. s) (ptr_lock_guard none failing false)
guards-release_example = guards-release own_lock-IsLockable failing-IsGuarded false refl
