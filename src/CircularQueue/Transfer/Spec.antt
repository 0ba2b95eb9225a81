-- ===== src/CircularQueue/Transfer/Spec.antt =====
-- What a client of `CircularQueue` may rely on: a FIFO of messages with a capacity in bytes, each
-- message taking `hs` bytes more than its body.
use cppfastdevelop.Prelude.{ℕ, ◌+◌, ◌||◌, List, [], ◌∷◌, ◌++◌, length, ltb, ◌==◌, if◌then◌else◌}
use cppfastdevelop.CircularQueue.Def.{
  QStatus, Result, ok, throw, value_error, queue_full, size_too_small, stop_put_error,
  stop_put_and_get_error, syscall_execute_error,
}
use cppfastdevelop.CircularQueue.Meta.{is_stop_put, is_stop_put_and_get}
use cppfastdevelop.CircularQueue.Element.Invariant.{bytes}

pub record Fifo : Type 0 where
  pub status : QStatus
  pub capacity : ℕ
  pub messages : List (List ℕ)

-- A change is reported as done only if the notification behind it succeeds.
abbrev pub notified {ℓ} : {A : Type ℓ} → ℕ → A → Result A
notified rt a = if rt == 0 then ok a else throw syscall_execute_error

unfoldable pub offer : ℕ → ℕ → List ℕ → Fifo → Fifo × Result (Unit {0})
offer hs rt body f =
    if is_stop_put f.status || is_stop_put_and_get f.status
    then (f, throw stop_put_error)
    else if ltb f.capacity (length body + hs)
    then (f, throw size_too_small)
    else if ltb f.capacity (bytes hs f.messages + (length body + hs))
    then (f, throw queue_full)
    else if length body == 0
    then (f, throw value_error)
    else (record f { messages = f.messages ++ (body ∷ []) }, notified rt tt)

abbrev pub next : ℕ → Fifo → List (List ℕ) → Fifo × Result (List ℕ)
next rt f [] = (f, throw queue_full)
next rt f (b ∷ bs) = (record f { messages = bs }, notified rt b)

unfoldable pub poll : ℕ → Fifo → Fifo × Result (List ℕ)
poll rt f =
    if is_stop_put_and_get f.status then (f, throw stop_put_and_get_error) else next rt f f.messages
