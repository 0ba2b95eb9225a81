-- ===== src/Utility/Daemon.antt =====
-- `SetProcessDaemon` and `IgnoreSignals` of cppfoundation/src/class/cf_utility_program.cpp, over the
-- calls of the system, which are parameters.
mod Tests
use cppfastdevelop.Prelude.{
  ℕ, zero, suc, ◌+◌, ◌<◌, ◌≤◌, ◌≡◌, ◌≢◌, Bool, true, false, ◌||◌, Option, none, some, ◌==◌,
  if◌then◌else◌, ℤ, pos, negsuc, to_int32,
}

-- Which process comes back from `fork`.
pub data Forked : Type 0 where
  failed parent child : Forked

-- `getrlimit` gives the hard limit on descriptors, or none where it fails; RLIM_INFINITY is
-- `infinity`. `open_null` opens "/dev/null" and `dup_zero` copies the descriptor 0; their results
-- are not looked at.
pub record Calls (W : Type 0) : Type 0 where
  pub infinity : ℕ
  pub umask : ℕ → W → W
  pub getrlimit : W → W × Option ℕ
  pub fork : W → W × Forked
  pub setsid : W → W
  pub chdir_tmp : W → W × Bool
  pub close : ℕ → W → W
  pub open_null : W → W
  pub dup_zero : W → W
  pub ignore : ℕ → W → W

-- The process has ended with a code, or goes on.
pub data Ending (W : Type 0) : Type 0 where
  exited : ℕ → W → Ending W
  goes_on : W → Ending W

module _ {W : Type 0} (sys : Calls W) where
  -- The loop that closes `left` descriptors from `i` on.
  unfoldable pub close_from : ℕ → ℕ → W → W
  close_from zero i w = w
  close_from (suc left) i w = close_from left (i + 1) (sys.close i w)

  -- `cf_int(rl.rlim_max)` rounds of it.
  abbrev pub rounds : ℤ → ℕ
  rounds (pos n) = n
  rounds (negsuc n) = 0

  abbrev pub limit_of : ℕ → ℕ
  limit_of rlim_max = if rlim_max == sys.infinity then 1024 else rlim_max

  -- The steps, each with what the one before gave.
  abbrev pub after_chdir : ℕ → W × Bool → Ending W
  after_chdir rlim_max (w, false) = exited 1 w
  after_chdir rlim_max (w, true) = goes_on (
      sys.dup_zero (
        sys.dup_zero
          (sys.open_null (close_from (rounds (to_int32 (pos (limit_of rlim_max)))) 0 w))))

  abbrev pub after_second : ℕ → W × Forked → Ending W
  after_second rlim_max (w, failed) = exited 1 w
  after_second rlim_max (w, parent) = exited 0 w
  after_second rlim_max (w, child) = after_chdir rlim_max (sys.chdir_tmp w)

  abbrev pub after_first : ℕ → W × Forked → Ending W
  after_first rlim_max (w, failed) = exited 1 w
  after_first rlim_max (w, parent) = exited 0 w
  after_first rlim_max (w, child) = after_second rlim_max (sys.fork (sys.setsid w))

  abbrev pub after_limit : W × Option ℕ → Ending W
  after_limit (w, none) = exited 1 w
  after_limit (w, some rlim_max) = after_first rlim_max (sys.fork w)

  abbrev pub set_process_daemon : W → Ending W
  set_process_daemon w = after_limit (sys.getrlimit (sys.umask 0 w))

  -- SIGBUS, SIGINT, SIGHUP, SIGSEGV, SIGABRT, SIGFPE, SIGUSR1, SIGUSR2, SIGKILL and SIGCHLD.
  abbrev pub is_kept : ℕ → Bool
  is_kept i =
      i == 7
      || (i == 2
          || (i == 1
              || (i == 11
                  || (i == 6 || (i == 8 || (i == 10 || (i == 12 || (i == 9 || i == 17))))))))

  unfoldable pub ignore_from : ℕ → ℕ → W → W
  ignore_from zero i w = w
  ignore_from (suc left) i w = ignore_from left (i + 1) (if is_kept i then w else sys.ignore i w)

  abbrev pub ignore_signals : W → W
  ignore_signals w = ignore_from 63 1 w

-- The manual: `file` is what a descriptor of the process is open on, `null` the null device, and
-- `leads` says that the process leads a session. `close` frees its descriptor; `open` and `dup` take
-- the lowest one that is free; the child of `fork` has the descriptors of its parent and leads no
-- session, so that it moves to a new one by `setsid`; the other calls change no descriptor, and none
-- but `setsid` who leads a session and which one, `session`, the process is in.
pub record IsProcess {W F : Type 0} (sys : Calls W) (null : F) (file : W → ℕ → Option F)
    (leads : W → Bool) (session : W → ℕ) : Type 0 where
  pub closes :
      (fd : ℕ) (w : W) (j : ℕ) → file (sys.close fd w) j ≡ (if fd == j then none else file w j)
  pub opens :
      (fd : ℕ) (w : W)
      → file w fd ≡ none
      → ((j : ℕ) → j < fd → file w j ≡ some null)
      → (j : ℕ) → file (sys.open_null w) j ≡ (if fd == j then some null else file w j)
  pub copies :
      (fd : ℕ) (w : W)
      → file w fd ≡ none
      → 0 < fd
      → ((j : ℕ) → j < fd → file w j ≡ some null)
      → (j : ℕ) → file (sys.dup_zero w) j ≡ (if fd == j then some null else file w j)
  pub close_leads : (fd : ℕ) (w : W) → leads (sys.close fd w) ≡ leads w
  pub open_leads : (w : W) → leads (sys.open_null w) ≡ leads w
  pub dup_leads : (w : W) → leads (sys.dup_zero w) ≡ leads w
  pub chdir_leads : (w : W) → leads (sys.chdir_tmp w).0 ≡ leads w
  pub child_leads : (w : W) → (sys.fork w).1 ≡ child → leads (sys.fork w).0 ≡ false
  pub moves : (w : W) → (sys.fork w).1 ≡ child → session (sys.setsid (sys.fork w).0) ≢ session w
  pub umask_session : (mask : ℕ) (w : W) → session (sys.umask mask w) ≡ session w
  pub limit_session : (w : W) → session (sys.getrlimit w).0 ≡ session w
  pub fork_session : (w : W) → session (sys.fork w).0 ≡ session w
  pub chdir_session : (w : W) → session (sys.chdir_tmp w).0 ≡ session w
  pub close_session : (fd : ℕ) (w : W) → session (sys.close fd w) ≡ session w
  pub open_session : (w : W) → session (sys.open_null w) ≡ session w
  pub dup_session : (w : W) → session (sys.dup_zero w) ≡ session w

-- A daemon: its first three descriptors are open on the null device and the others below the limit
-- are free, and it is in a session other than `old`, which it does not lead.
pub record IsDaemon {W F : Type 0} (null : F) (file : W → ℕ → Option F) (leads : W → Bool)
    (session : W → ℕ) (old limit : ℕ) (w : W) : Type 0 where
  pub standard : (j : ℕ) → j < 3 → file w j ≡ some null
  pub free : (j : ℕ) → 3 ≤ j → j < limit → file w j ≡ none
  pub follows : leads w ≡ false
  pub moved : session w ≢ old

abbrev pub Ends : {W : Type 0} → (W → Type 0) → Ending W → Type 0
Ends P (exited code w) = Unit {0}
Ends P (goes_on w) = P w

module _ {W F : Type 0} {sys : Calls W} {null : F} {file : W → ℕ → Option F} {leads : W → Bool}
    {session : W → ℕ} (px : IsProcess sys null file leads session) (old : ℕ) where
  abbrev Daemons : ℕ → Ending W → Type 0
  Daemons limit = Ends (IsDaemon null file leads session old limit)
