-- ===== src/Locks/Guard.antt =====
-- The guards of cppfoundation/include/cppfoundation/cf_lock_guard.hpp, which lock when they are made
-- and unlock when the block that holds them is left.
use cppfastdevelop.Prelude.{◌≡◌, refl, sym, subst, ◌∙◌, Bool, true, false, Option, none, some}
use cppfastdevelop.Locks.{Outcome, returned, threw}

-- How a block is left: by its end, with what it gives, by an exception, or not at all, since a
-- destructor that throws ends the program.
pub data Leaving (B : Type 0) : Type 0 where
  leaves : Outcome B → Leaving B
  terminated : Leaving B

-- `Lock` and `UnLock` of the lock that is guarded.
pub record Lockable (S : Type 0) : Type 0 where
  pub lock : S → S × Outcome (Unit {0})
  pub unlock : S → S × Outcome (Unit {0})

module _ {S B : Type 0} (lk : Lockable S) where
  abbrev pub unlocked : Outcome B → S × Outcome (Unit {0}) → S × Leaving B
  unlocked r (s, returned u) = (s, leaves r)
  unlocked r (s, threw) = (s, terminated)

  -- The destructor, behind a block that has come to `r`.
  abbrev pub leave_guard : S × Outcome B → S × Leaving B
  leave_guard (s, r) = unlocked r (lk.unlock s)

  abbrev pub entered : (S → S × Outcome B) → S × Outcome (Unit {0}) → S × Leaving B
  entered block (s, returned u) = leave_guard (block s)
  entered block (s, threw) = (s, leaves threw)

  -- A block that begins with a `LockGuard`; where its constructor throws, its destructor is not run.
  abbrev pub lock_guard : (S → S × Outcome B) → S → S × Leaving B
  lock_guard block s = entered block (lk.lock s)

  -- The same with a `LockGuardUnlock`, which finds the lock taken.
  abbrev pub lock_guard_unlock : (S → S × Outcome B) → S → S × Leaving B
  lock_guard_unlock block s = leave_guard (block s)

-- `PtrLockGuard`, on a pointer that may be null.
abbrev pub ptr_lock_guard :
    {S B : Type 0} → Option (Lockable S) → (S → S × Outcome B) → S → S × Leaving B
ptr_lock_guard none block s = (s, leaves threw)
ptr_lock_guard (some lk) block s = lock_guard lk block s

-- A lock, of which `held` says that the caller has it: taking it gives it to the caller or throws,
-- and giving back what the caller has does not throw.
pub record IsLockable {S : Type 0} (lk : Lockable S) (held : S → Bool) : Type 0 where
  pub takes : (s : S) → (lk.lock s).1 ≡ returned tt → held (lk.lock s).0 ≡ true
  pub refuses : (s : S) → (lk.lock s).1 ≡ threw → held (lk.lock s).0 ≡ held s
  pub gives_back :
      (s : S) → held s ≡ true → ((lk.unlock s).1 ≡ returned tt) × (held (lk.unlock s).0 ≡ false)

-- The block is run under the lock, and leaves the lock to its guard.
pub record IsGuarded {S B : Type 0} (held : S → Bool) (block : S → S × Outcome B) : Type 0 where
  pub keeps : (s : S) → held s ≡ true → held (block s).0 ≡ true

-- A block that is left with the lock given back, by its end or by an exception.
abbrev pub Releases : {S B : Type 0} → (S → Bool) → S × Leaving B → Type 0
Releases held (s, leaves r) = held s ≡ false
Releases held (s, terminated) = ⊥

module _ {S B : Type 0} {lk : Lockable S} {held : S → Bool} (px : IsLockable lk held)
    {block : S → S × Outcome B} (gu : IsGuarded held block) where
  -- A block that finds the lock taken gives it back through a `LockGuardUnlock`.
  lock_guard_unlock-Releases :
      (s : S) → held s ≡ true → Releases held (lock_guard_unlock lk block s)
  lock_guard_unlock-Releases s h =
      let u = px.gives_back (block s).0 (gu.keeps s h) in
      subst (λ x. Releases held (unlocked lk (block s).1 ((lk.unlock (block s).0).0, x))) (sym u.0)
        u.1

  entered-Releases :
      (s : S) (r : Outcome (Unit {0}))
      → (lk.lock s).1 ≡ r
      → held s ≡ false
      → Releases held (entered lk block ((lk.lock s).0, r))
  entered-Releases s (returned u) e h = lock_guard_unlock-Releases (lk.lock s).0 (px.takes s e)
  entered-Releases s threw e h = px.refuses s e ∙ h

  -- A block under a `LockGuard`, or under a `PtrLockGuard` on a pointer that may be null, entered
  -- without the lock, is left without it, whether it comes to its end, throws, or is not run since
  -- the lock throws or is null; and the program is not terminated by a guard.
  pub guards-release :
      (s : S)
      → held s ≡ false
      → Releases held (lock_guard lk block s)
        × Releases held (ptr_lock_guard (some lk) block s)
        × Releases held (ptr_lock_guard none block s)
  guards-release s h = let g = entered-Releases s (lk.lock s).1 refl h in (g, g, h)
