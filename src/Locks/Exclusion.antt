-- ===== src/Locks/Exclusion.antt =====
-- Guards on an `RWMutex` over a pthread read-write lock, taken and given up by threads in any order.
use cppfastdevelop.Prelude.{
  ℕ, suc, ◌-◌, ◌≤◌, ◌<◌, ◌≡◌, Bool, true, false, List, [], ◌∷◌, ltb, lt→ltb, le→ltb, if◌then◌else◌,
  arith, dec_lt,
}
use cppfastdevelop.Locks.{
  Outcome, returned, threw, Code, zero_code, ebusy, other, checked, tried, RawRwMutex, RwlockCalls,
  raw_pthread_rw_mutex, LockType, read, write, rw_lock, rw_try_lock, rw_unlock,
}

-- The lock, and how many guards for reading and for writing have been taken, as their `Lock` or
-- `TryLock` said, and not been given up.
pub record Guards (S : Type 0) : Type 0 where
  pub state : S
  pub reads : ℕ
  pub writes : ℕ

-- A thread calls `Lock`, `TryLock`, or `UnLock` with a guard of the kind.
pub data Event : Type 0 where
  locks tries unlocks : LockType → Event

module _ {S : Type 0} where
  abbrev pub taken : LockType → Guards S → Guards S
  taken read g = record g { reads = suc g.reads }
  taken write g = record g { writes = suc g.writes }

  abbrev pub given_up : LockType → Guards S → Guards S
  given_up read g = record g { reads = g.reads - 1 }
  given_up write g = record g { writes = g.writes - 1 }

  abbrev pub held : LockType → Guards S → ℕ
  held read g = g.reads
  held write g = g.writes

  abbrev pub after_lock : LockType → Guards S → S × Outcome (Unit {0}) → Guards S
  after_lock t g (s, returned u) = taken t (record g { state = s })
  after_lock t g (s, threw) = record g { state = s }

  abbrev pub after_try : LockType → Guards S → S × Outcome Bool → Guards S
  after_try t g (s, returned true) = taken t (record g { state = s })
  after_try t g (s, returned false) = record g { state = s }
  after_try t g (s, threw) = record g { state = s }

  abbrev pub after_unlock : LockType → Guards S → S × Outcome (Unit {0}) → Guards S
  after_unlock t g (s, returned u) = given_up t (record g { state = s })
  after_unlock t g (s, threw) = record g { state = s }

module _ {S : Type 0} (raw : RawRwMutex S) where
  abbrev pub step : Event → Guards S → Guards S
  step (locks t) g = after_lock t g (rw_lock raw t g.state)
  step (tries t) g = after_try t g (rw_try_lock raw t g.state)
  step (unlocks t) g = if ltb 0 (held t g) then after_unlock t g (rw_unlock raw g.state) else g

  unfoldable pub run : List Event → Guards S → Guards S
  run [] g = g
  run (e ∷ es) g = run es (step e g)

module _ {S : Type 0} (readers writers : S → ℕ) where
  abbrev pub Unchanged : S → S → Type 0
  Unchanged s s' = (readers s' ≡ readers s) × (writers s' ≡ writers s)

  -- What the manual says of a call that takes the lock: it does where 0 is returned, and then
  -- nobody was in its way.
  abbrev pub Takes : LockType → S → S × Code → Type 0
  Takes read s (s', zero_code) = (writers s ≡ 0) × (readers s' ≡ suc (readers s)) × (writers s' ≡ 0)
  Takes write s (s', zero_code) =
      (writers s ≡ 0) × (readers s ≡ 0) × (readers s' ≡ 0) × (writers s' ≡ 1)
  Takes t s (s', ebusy) = Unchanged s s'
  Takes t s (s', other) = Unchanged s s'

  -- The same of `pthread_rwlock_unlock`, which gives up a writer's lock, or one of the readers'.
  abbrev pub GivesUp : S → S × Code → Type 0
  GivesUp s (s', zero_code) =
      (0 < writers s → (writers s' ≡ writers s - 1) × (readers s' ≡ readers s))
      × (writers s ≡ 0 → (writers s' ≡ 0) × (readers s' ≡ readers s - 1))
  GivesUp s (s', ebusy) = Unchanged s s'
  GivesUp s (s', other) = Unchanged s s'

  pub record IsRwlock (sys : RwlockCalls S) : Type 0 where
    pub rdlock : (s : S) → Takes read s (sys.rdlock s)
    pub tryrdlock : (s : S) → Takes read s (sys.tryrdlock s)
    pub wrlock : (s : S) → Takes write s (sys.wrlock s)
    pub trywrlock : (s : S) → Takes write s (sys.trywrlock s)
    pub unlock : (s : S) → GivesUp s (sys.unlock s)

  -- The guards are those that the lock has given, and a writer is alone.
  pub record IsExclusive (g : Guards S) : Type 0 where
    pub reads_held : readers g.state ≡ g.reads
    pub writes_held : writers g.state ≡ g.writes
    pub one_writer : g.writes ≤ 1
    pub alone : 0 < g.writes → g.reads ≡ 0

  same-IsExclusive :
      (g : Guards S) (s : S)
      → IsExclusive g
      → Unchanged g.state s
      → IsExclusive (record g { state = s })
  same-IsExclusive g s i (r, w) = record {
    reads_held = omega (arith, r, i.reads_held);
    writes_held = omega (arith, w, i.writes_held);
    one_writer = i.one_writer;
    alone = i.alone;
  }

  taken-IsExclusive :
      (t : LockType) (g : Guards S) (s : S)
      → IsExclusive g
      → Takes t g.state (s, zero_code)
      → IsExclusive (taken t (record g { state = s }))
  taken-IsExclusive read g s i (a, b, c) = record {
    reads_held = omega (arith, b, i.reads_held);
    writes_held = omega (arith, a, c, i.writes_held);
    one_writer = i.one_writer;
    alone = λ h. omega (arith, h, a, i.writes_held);
  }
  taken-IsExclusive write g s i (a, b, c, d) = record {
    reads_held = omega (arith, b, c, i.reads_held);
    writes_held = omega (arith, a, d, i.writes_held);
    one_writer = omega (arith, a, i.writes_held);
    alone = λ h. omega (arith, b, i.reads_held);
  }

  after_lock-IsExclusive :
      (t : LockType) (g : Guards S) (s : S) (c : Code)
      → IsExclusive g
      → Takes t g.state (s, c)
      → IsExclusive (after_lock t g (checked (s, c)))
  after_lock-IsExclusive t g s zero_code i h = taken-IsExclusive t g s i h
  after_lock-IsExclusive t g s ebusy i h = same-IsExclusive g s i h
  after_lock-IsExclusive t g s other i h = same-IsExclusive g s i h

  after_try-IsExclusive :
      (t : LockType) (g : Guards S) (s : S) (c : Code)
      → IsExclusive g
      → Takes t g.state (s, c)
      → IsExclusive (after_try t g (tried (s, c)))
  after_try-IsExclusive t g s zero_code i h = taken-IsExclusive t g s i h
  after_try-IsExclusive t g s ebusy i h = same-IsExclusive g s i h
  after_try-IsExclusive t g s other i h = same-IsExclusive g s i h

  no_writer : (g : Guards S) → IsExclusive g → 0 < g.reads → writers g.state ≡ 0
  no_writer g i p = none_there (dec_lt 0 g.writes)
    where
      none_there : Dec (0 < g.writes) → writers g.state ≡ 0
      none_there (yes h) = absurd (omega (arith, i.alone h))
      none_there (no h) = omega (arith, i.writes_held)

  after_unlock-IsExclusive :
      (t : LockType) (g : Guards S) (s : S) (c : Code)
      → 0 < held t g
      → IsExclusive g
      → GivesUp g.state (s, c)
      → IsExclusive (after_unlock t g (checked (s, c)))
  after_unlock-IsExclusive read g s zero_code p i (w, r) =
      let nobody : writers g.state ≡ 0 = no_writer g i p in
      let q = r nobody in
      record {
        reads_held = omega (arith, q.1, i.reads_held);
        writes_held = omega (arith, q.0, nobody, i.writes_held);
        one_writer = i.one_writer;
        alone = λ h. omega (arith, h, nobody, i.writes_held);
      }
  after_unlock-IsExclusive write g s zero_code p i (w, r) =
      let q = w (omega (arith, p, i.writes_held)) in
      record {
        reads_held = omega (arith, q.1, i.reads_held);
        writes_held = omega (arith, q.0, i.writes_held);
        one_writer = omega (arith, i.one_writer);
        alone = λ h. omega (arith, h, i.one_writer);
      }
  after_unlock-IsExclusive t g s ebusy p i h = same-IsExclusive g s i h
  after_unlock-IsExclusive t g s other p i h = same-IsExclusive g s i h

  module _ {sys : RwlockCalls S} (l : IsRwlock sys) where
    lock-IsExclusive :
        (t : LockType) (g : Guards S)
        → IsExclusive g
        → IsExclusive (after_lock t g (rw_lock (raw_pthread_rw_mutex sys) t g.state))
    lock-IsExclusive read g i =
        after_lock-IsExclusive read g (sys.rdlock g.state).0 (sys.rdlock g.state).1 i
          (l.rdlock g.state)
    lock-IsExclusive write g i =
        after_lock-IsExclusive write g (sys.wrlock g.state).0 (sys.wrlock g.state).1 i
          (l.wrlock g.state)

    try-IsExclusive :
        (t : LockType) (g : Guards S)
        → IsExclusive g
        → IsExclusive (after_try t g (rw_try_lock (raw_pthread_rw_mutex sys) t g.state))
    try-IsExclusive read g i =
        after_try-IsExclusive read g (sys.tryrdlock g.state).0 (sys.tryrdlock g.state).1 i
          (l.tryrdlock g.state)
    try-IsExclusive write g i =
        after_try-IsExclusive write g (sys.trywrlock g.state).0 (sys.trywrlock g.state).1 i
          (l.trywrlock g.state)

    unlock-IsExclusive :
        (t : LockType) (g : Guards S)
        → IsExclusive g
        → Dec (0 < held t g)
        → IsExclusive (step (raw_pthread_rw_mutex sys) (unlocks t) g)
    unlock-IsExclusive t g i (yes p) = rw (lt→ltb 0 (held t g) p) (
        after_unlock-IsExclusive t g (sys.unlock g.state).0 (sys.unlock g.state).1 p i
          (l.unlock g.state))
    unlock-IsExclusive t g i (no p) = rw (le→ltb 0 (held t g) (omega arith)) i

    step-IsExclusive :
        (e : Event) (g : Guards S)
        → IsExclusive g
        → IsExclusive (step (raw_pthread_rw_mutex sys) e g)
    step-IsExclusive (locks t) g i = lock-IsExclusive t g i
    step-IsExclusive (tries t) g i = try-IsExclusive t g i
    step-IsExclusive (unlocks t) g i = unlock-IsExclusive t g i (dec_lt 0 (held t g))

    -- Threads take guards for reading and for writing on a lock that keeps to its manual, by `Lock`
    -- and `TryLock`, and give them up, in any order, with any of the calls failing: if there is at
    -- most one guard for writing, none for reading beside it, and the lock is held as the guards
    -- are, then so it is at any later time.
    pub run-IsExclusive :
        (es : List Event) (g : Guards S)
        → IsExclusive g
        → IsExclusive (run (raw_pthread_rw_mutex sys) es g)
    unfolding run
    run-IsExclusive [] g i = i
    run-IsExclusive (e ∷ es) g i =
        run-IsExclusive es (step (raw_pthread_rw_mutex sys) e g) (step-IsExclusive e g i)
