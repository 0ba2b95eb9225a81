-- ===== src/Utility/Daemon/Tests.antt =====
-- Tests of Utility/Daemon, on a process that is a table of descriptors and leads a session or not.
use cppfastdevelop.Prelude.{ℕ, zero, suc, Bool, true, false, Option, none, some, List, [], ◌∷◌}
use cppfastdevelop.Utility.Daemon.{Calls, Forked}

unfoldable entry : List (Option ℕ) → ℕ → Option ℕ
entry [] j = none
entry (f ∷ t) zero = f
entry (f ∷ t) (suc j) = entry t j

unfoldable cleared : ℕ → List (Option ℕ) → List (Option ℕ)
cleared fd [] = []
cleared zero (f ∷ t) = none ∷ t
cleared (suc fd) (f ∷ t) = f ∷ cleared fd t

-- The lowest free descriptor is open on the file `n`.
unfoldable place : ℕ → List (Option ℕ) → List (Option ℕ)
place n [] = some n ∷ []
place n (none ∷ t) = some n ∷ t
place n (some f ∷ t) = some f ∷ place n t

abbrev copied : Option ℕ → List (Option ℕ) → List (Option ℕ)
copied none t = t
copied (some f) t = place f t

abbrev Process : Type 0
Process = List (Option ℕ) × Bool × ℕ

abbrev process : Calls Process
process = record {
  infinity = 18446744073709551615;
  umask = λ m w. w;
  getrlimit = λ w. (w, some 6);
  fork = λ w. ((w.0, false, w.2), Forked.child);
  setsid = λ w. (w.0, true, suc w.2);
  chdir_tmp = λ w. (w, true);
  close = λ fd w. (cleared fd w.0, w.1, w.2);
  open_null = λ w. (place 0 w.0, w.1, w.2);
  dup_zero = λ w. (copied (entry w.0 0) w.0, w.1, w.2);
  ignore = λ i w. w;
}

-- Descriptors 1 and 4 are open, 4 on a file of its own.
abbrev before : Process
before = (none ∷ some 7 ∷ none ∷ none ∷ some 9 ∷ [], true, 4)
