-- ===== src/CircularQueue/Transfer.antt =====
-- `CircularQueue` of circularqueue/src/cl_circular_queue.cpp: puts and gets under the region's
-- lock, with the waits for space and for a message.
--
-- A call starts with the lock held and the region `s`. What the other processes do while it waits is
-- a list of wake-ups: each says how `_cond->Wait` ended, what the clock reads, and what the region
-- is when the lock is held again. `CheckPointer` and `CheckProcessAndRestoreLock` change nothing.
pub mod Spec
pub mod Refine
pub mod Waits
pub mod Stop
use cppfastdevelop.Prelude.{
  ℕ, ◌+◌, Bool, true, false, not, ◌&&◌, ◌||◌, List, [], ◌∷◌, length, ltb, ◌==◌, if◌then◌else◌,
  add64, ℤ, pos, negsuc, ◌-ℤ◌, ltb_ℤ, to_int32,
}
use cppfastdevelop.CircularQueue.Def.{
  Exception, value_error, syscall_execute_error, timeout_info, queue_full, size_too_small,
  stop_put_error, stop_put_and_get_error, Result, ok, throw, QStatus, Shared, Layout, Context,
}
use cppfastdevelop.CircularQueue.Meta.{is_stop_put, is_stop_put_and_get}
use cppfastdevelop.CircularQueue.Element.{write, read}

-- How a wait on the condition ends.
pub data WaitEnd : Type 0 where
  signalled timed_out failed : WaitEnd

pub record Wake : Type 0 where
  pub wait_end : WaitEnd
  pub region : Shared
  pub now : ℕ

-- A loop of waits: it was left by its test, it threw, or no wake-up has come yet.
pub data Waited : Type 0 where
  left_loop : Shared → Waited
  threw : Shared → Exception → Waited
  still_waiting : Shared → Waited

-- `_cond->Wait()`, with `rest` for the rounds that follow: it throws unless the system call
-- succeeds.
abbrev pub woken : WaitEnd → Shared → Waited → Waited
woken signalled s rest = rest
woken timed_out s rest = threw s syscall_execute_error
woken failed s rest = threw s syscall_execute_error

-- `_cond->Wait(timeoutMilliseconds)`, which returns false when the time is out.
abbrev pub woken_in_time : WaitEnd → Shared → Waited → Waited
woken_in_time signalled s rest = rest
woken_in_time timed_out s rest = threw s timeout_info
woken_in_time failed s rest = threw s syscall_execute_error

-- `while (test) _cond->Wait();`
unfoldable pub wait_forever : (Shared → Bool) → List Wake → Shared → Waited
wait_forever test [] s = if test s then still_waiting s else left_loop s
wait_forever test (w ∷ ws) s =
    let rest = wait_forever test ws w.region in
    if test s then woken w.wait_end w.region rest else left_loop s

-- The loop of waits with a time-out: `timeout_milliseconds -= (now - start)` after each.
unfoldable pub wait_timed : (Shared → Bool) → ℕ → ℤ → List Wake → Shared → Waited
wait_timed test start timeout [] s =
    if test s
    then if ltb_ℤ (pos 0) timeout then still_waiting s else threw s timeout_info
    else left_loop s
wait_timed test start timeout (w ∷ ws) s =
    let rest = wait_timed test start (to_int32 (timeout -ℤ (pos w.now -ℤ pos start))) ws w.region in
    if test s
    then if ltb_ℤ (pos 0) timeout
      then woken_in_time w.wait_end w.region rest
      else threw s timeout_info
    else left_loop s

-- What a call takes from the system: the clock when a wait starts, the time and process of the
-- copy, and what the signal or the broadcast at its end returns.
pub record Calls : Type 0 where
  pub start : ℕ
  pub context : Context
  pub signal_rt : ℕ

-- What a call has come to: it returned or threw, or it waits.
pub data Outcome {ℓ} (A : Type ℓ) : Type ℓ where
  returned : Shared → Result A → Outcome A
  waiting : Shared → Outcome A

-- `_cond->Signal()` behind the lock's scope, whose result is `rt`.
abbrev pub signal {ℓ} : {A : Type ℓ} → ℕ → Shared → Result A → Outcome A
signal rt s (throw e) = returned s (throw e)
signal rt s (ok a) = if rt == 0 then returned s (ok a) else returned s (throw syscall_execute_error)

abbrev pub stopped_to_put : QStatus → Bool
stopped_to_put st = is_stop_put st || is_stop_put_and_get st

abbrev pub element_size : Layout → List ℕ → ℕ
element_size l body = add64 (length body) l.header_size

-- `(false==IsStopPut() || false==IsStopPutAndGet()) && elementSize > leftSize`.
abbrev pub waits_for_space : Layout → List ℕ → Shared → Bool
waits_for_space l body s =
    (not (is_stop_put s.info.status) || not (is_stop_put_and_get s.info.status))
    && ltb s.info.q_left_size (element_size l body)

-- The end of `TimedPut`, once there is space or the wait is over.
unfoldable pub put_element : Layout → Calls → List ℕ → Shared → Outcome (Unit {0})
put_element l c body s =
    if stopped_to_put s.info.status
    then returned s (throw stop_put_error)
    else if ltb s.info.q_left_size (element_size l body)
    then returned s (throw value_error)
    else let (s', r) = write l c.context body s in signal c.signal_rt s' r

abbrev pub after_wait {ℓ} : {A : Type ℓ} → (Shared → Outcome A) → Waited → Outcome A
after_wait k (left_loop s) = k s
after_wait k (threw s e) = returned s (throw e)
after_wait k (still_waiting s) = waiting s

-- `TimedPut(pData, size, timeoutMilliseconds)`; `c` is what the system gives.
unfoldable pub timed_put : Layout → Calls → List Wake → List ℕ → ℤ → Shared → Outcome (Unit {0})
timed_put l c wakes body timeout s =
    if stopped_to_put s.info.status
    then returned s (throw stop_put_error)
    else if ltb s.info.q_total_size (element_size l body)
    then returned s (throw size_too_small)
    else if ltb s.info.q_left_size (element_size l body)
    then (if ltb_ℤ timeout (pos 0)
        then after_wait (put_element l c body) (wait_forever (waits_for_space l body) wakes s)
        else if ltb_ℤ (pos 0) timeout
        then after_wait (put_element l c body)
            (wait_timed (waits_for_space l body) c.start timeout wakes s)
        else returned s (throw queue_full))
    else put_element l c body s

unfoldable pub put : Layout → Calls → List Wake → List ℕ → Shared → Outcome (Unit {0})
unfolding timed_put
put l c wakes body s = timed_put l c wakes body (negsuc 0) s

unfoldable pub try_put : Layout → Calls → List ℕ → Shared → Outcome (Unit {0})
unfolding timed_put
try_put l c body s = timed_put l c [] body (pos 0) s

-- `false==IsStopPutAndGet() && 0==elementCount`.
abbrev pub waits_for_message : Shared → Bool
waits_for_message s = not (is_stop_put_and_get s.info.status) && (s.info.element_count == 0)

unfoldable pub get_element : Layout → Calls → Shared → Outcome (List ℕ)
get_element l c s =
    if is_stop_put_and_get s.info.status
    then returned s (throw stop_put_and_get_error)
    else if s.info.element_count == 0
    then returned s (throw value_error)
    else let (s', r) = read l c.context s in signal c.signal_rt s' r

-- `TimedGet(data, timeoutMilliseconds)`.
unfoldable pub timed_get : Layout → Calls → List Wake → ℤ → Shared → Outcome (List ℕ)
timed_get l c wakes timeout s =
    if is_stop_put_and_get s.info.status
    then returned s (throw stop_put_and_get_error)
    else if s.info.element_count == 0
    then (if ltb_ℤ timeout (pos 0)
        then after_wait (get_element l c) (wait_forever waits_for_message wakes s)
        else if ltb_ℤ (pos 0) timeout
        then after_wait (get_element l c) (wait_timed waits_for_message c.start timeout wakes s)
        else returned s (throw queue_full))
    else get_element l c s

unfoldable pub get : Layout → Calls → List Wake → Shared → Outcome (List ℕ)
unfolding timed_get
get l c wakes s = timed_get l c wakes (negsuc 0) s

unfoldable pub try_get : Layout → Calls → Shared → Outcome (List ℕ)
unfolding timed_get
try_get l c s = timed_get l c [] (pos 0) s

-- `CircularQueue::StopPut()` and `StopPutAndGet()` take the lock, release it, and broadcast.
unfoldable pub stop_put : Calls → Shared → Outcome (Unit {0})
stop_put c s = signal c.signal_rt s (ok tt)

unfoldable pub stop_put_and_get : Calls → Shared → Outcome (Unit {0})
stop_put_and_get c s = signal c.signal_rt s (ok tt)
