-- ===== src/ConcurrencyQueue/Tests.antt =====
-- Threads that put, wait and get on a queue of numbers.
use cppfastdevelop.Prelude.{ℕ, ◌≡◌, refl, List, [], ◌∷◌}
use cppfastdevelop.ConcurrencyQueue.System.{
  Event, puts, enters, sleeps, resumes, stops, fresh, run, IsSound,
}
use cppfastdevelop.ConcurrencyQueue.{sets_stop_to_get, sets_stop_to_put, broadcasts}
use cppfastdevelop.ConcurrencyQueue.System.Sound.{run-IsSound}

-- A get waits, two puts wake it, and another get takes the first number before it.
abbrev script : List (Event ℕ)
script =
    enters
    ∷ sleeps
    ∷ puts 4
    ∷ puts 5
    ∷ enters
    ∷ resumes
    ∷ stops sets_stop_to_get
    ∷ enters
    ∷ stops sets_stop_to_put
    ∷ stops broadcasts
    ∷ []

gets_both : (run script fresh).got_log ≡ 4 ∷ 5 ∷ []
unfolding run
gets_both = refl

-- A stop between a get's test and its wait wakes nobody, and the get sleeps on.
stop_missed :
    (run
      (enters ∷ stops sets_stop_to_put ∷ stops broadcasts ∷ sleeps ∷ puts 4 ∷ [])
      (fresh {A = ℕ})).sleepers
    ≡ 1
unfolding run
stop_missed = refl

run-IsSound_example : IsSound (run script fresh)
run-IsSound_example = run-IsSound script
