-- ===== src/CircularQueue/Transfer/Stop.antt =====
-- What stopping the queue does to the calls that wait.
use cppfastdevelop.Prelude.{
  ℕ, ◌<◌, ◌≤◌, ◌≡◌, refl, List, [], ◌∷◌, le→ltb, lt→ltb, ◌||◌, not, false, true,
}
use cppfastdevelop.CircularQueue.Def.{QStatus, normal, stop2put, stop2put_and_get, Shared, Layout}
use cppfastdevelop.CircularQueue.Meta.{is_stop_put, is_stop_put_and_get}
use cppfastdevelop.CircularQueue.Transfer.{
  Calls, waiting, put, element_size, signalled, Wake, still_waiting, wait_forever, stopped_to_put,
  waits_for_space,
}

-- Every wake-up is a signal that finds no room for the message.
abbrev pub AllFull : Layout → List ℕ → List Wake → Type 0
AllFull l body [] = Unit {0}
AllFull l body (w ∷ ws) =
    (w.wait_end ≡ signalled) × (w.region.info.q_left_size < element_size l body) × AllFull l body ws

-- The region at the last wake-up.
abbrev pub last_region : List Wake → Shared → Shared
last_region [] s = s
last_region (w ∷ ws) s = last_region ws w.region

-- The test of the put's loop says nothing of the status: no status is both at once.
never_both : (st : QStatus) → (not (is_stop_put st) || not (is_stop_put_and_get st)) ≡ true
never_both normal = refl
never_both stop2put = refl
never_both stop2put_and_get = refl

wait_forever_full :
    (l : Layout) (body : List ℕ) (ws : List Wake) (s : Shared)
    → s.info.q_left_size < element_size l body
    → AllFull l body ws
    → wait_forever (waits_for_space l body) ws s ≡ still_waiting (last_region ws s)
unfolding wait_forever
wait_forever_full l body [] s h a =
    rw (never_both s.info.status, lt→ltb s.info.q_left_size (element_size l body) h)
wait_forever_full l body (w ∷ ws) s h a =
    rw (never_both s.info.status, lt→ltb s.info.q_left_size (element_size l body) h, a.0)
      (wait_forever_full l body ws w.region a.1 a.2)

-- A put that waits for space goes on waiting while there is none, also when the queue is stopped
-- meanwhile: the status of the regions at its wake-ups is free here.
pub put_deaf_to_stop :
    (l : Layout) (c : Calls) (wakes : List Wake) (body : List ℕ) (s : Shared)
    → stopped_to_put s.info.status ≡ false
    → element_size l body ≤ s.info.q_total_size
    → s.info.q_left_size < element_size l body
    → AllFull l body wakes
    → put l c wakes body s ≡ waiting (last_region wakes s)
unfolding put
put_deaf_to_stop l c wakes body s run fits full a = rw (
  run,
  le→ltb s.info.q_total_size (element_size l body) fits,
  lt→ltb s.info.q_left_size (element_size l body) full,
  wait_forever_full l body wakes s full a,
)
