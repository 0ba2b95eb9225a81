-- ===== src/ConcurrencyQueue/System.antt =====
-- Threads on one `RawQueue`, as steps in any order. The stops take no lock: each of their statements
-- is a step, and may come while a get stands between its test and its wait, which every other call
-- has to wait for.
pub mod Sound
use cppfastdevelop.Prelude.{
  ℕ, suc, ◌+◌, ◌-◌, ◌≤◌, ◌<◌, ◌≡◌, refl, sym, ap, ◌∙◌, Bool, true, false, List, [], ◌∷◌, ◌++◌,
  append_assoc, length, length-append, ◌==◌, if◌then◌else◌, arith,
}
use cppfastdevelop.ConcurrencyQueue.{
  RawQueue, Round, waits, got, threw, new_queue, get, get_from, count_wait, push, StopStep,
  sets_stop_to_get, sets_stop_to_put, broadcasts, flagged,
}

-- The queue, whether a get has the lock and is about to wait, how many threads sleep on the
-- condition, how many have been woken and are still to test again, and what has been put and got so
-- far.
pub record System (A : Type 0) : Type 0 where
  pub raw : RawQueue A
  pub about_to_wait : Bool
  pub sleepers : ℕ
  pub woken : ℕ
  pub put_log : List A
  pub got_log : List A

-- A call or a part of one: a put, a get from its start, its wait, a wake-up of the system's own, a
-- get that has been woken, and a statement of a stop.
pub data Event (A : Type 0) : Type 0 where
  puts : A → Event A
  enters sleeps wakes resumes : Event A
  stops : StopStep → Event A

module _ {A : Type 0} where
  abbrev pub fresh : System A
  fresh = record {
    raw = new_queue;
    about_to_wait = false;
    sleepers = 0;
    woken = 0;
    put_log = [];
    got_log = [];
  }

  -- A signal wakes a thread, if any sleeps.
  abbrev pub signalled : Bool → System A → System A
  signalled false s = s
  signalled true s =
      if s.sleepers == 0 then s else record s { sleepers = s.sleepers - 1; woken = suc s.woken }

  abbrev pub broadcast : System A → System A
  broadcast s = record s { sleepers = 0; woken = s.woken + s.sleepers }

  abbrev pub after_round : Round A → System A → System A
  after_round waits s = record s { raw = count_wait s.raw; about_to_wait = true }
  after_round (got a as') s = record s {
    raw = record (s.raw) { queue = as' };
    got_log = s.got_log ++ a ∷ [];
  }
  after_round (threw e) s = s

  abbrev pub put_unless : Bool → A → System A → System A
  put_unless true a s = s
  put_unless false a s =
      signalled (push a s.raw).1
        (record s { raw = (push a s.raw).0; put_log = s.put_log ++ a ∷ [] })

  -- A step that is not possible changes nothing.
  abbrev pub locked_step : Event A → System A → System A
  locked_step (puts a) s = put_unless s.raw.stop_to_put a s
  locked_step enters s = after_round (get s.raw) s
  locked_step resumes s =
      if s.woken == 0 then s else after_round (get s.raw) (record s { woken = s.woken - 1 })
  locked_step sleeps s = s
  locked_step wakes s = s
  locked_step (stops e) s = s

  abbrev pub stop_step : StopStep → System A → System A
  stop_step broadcasts s = broadcast s
  stop_step sets_stop_to_get s = record s { raw = flagged sets_stop_to_get s.raw }
  stop_step sets_stop_to_put s = record s { raw = flagged sets_stop_to_put s.raw }

  abbrev pub free_step : Event A → System A → System A
  free_step sleeps s =
      if s.about_to_wait then record s { about_to_wait = false; sleepers = suc s.sleepers } else s
  free_step wakes s = signalled true s
  free_step (stops e) s = stop_step e s
  free_step (puts a) s = s
  free_step enters s = s
  free_step resumes s = s

  abbrev pub step : Event A → System A → System A
  step e s = free_step e (if s.about_to_wait then s else locked_step e s)

  unfoldable pub run : List (Event A) → System A → System A
  run [] s = s
  run (e ∷ es) s = run es (step e s)

abbrev pub one_if : Bool → ℕ
one_if true = 1
one_if false = 0

-- What has been put has been got or is queued, in order; the waits that no put has signalled are
-- counted; a get about to wait has seen an empty queue; and unless puts or gets are stopped, there
-- is a woken thread for each message while threads sleep.
pub record IsSound {A : Type 0} (s : System A) : Type 0 where
  pub fifo : s.put_log ≡ s.got_log ++ s.raw.queue
  pub counted : s.sleepers + one_if s.about_to_wait ≤ s.raw.wait_count
  pub waits_empty : s.about_to_wait ≡ true → length s.raw.queue ≡ 0
  pub awake :
      s.raw.stop_to_put ≡ false
      → s.raw.stop_to_get ≡ false
      → 0 < s.sleepers
      → length s.raw.queue ≤ s.woken
