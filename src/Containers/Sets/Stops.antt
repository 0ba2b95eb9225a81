-- ===== src/Containers/Sets/Stops.antt =====
-- What the stops of a `RawNotifySet` do to its `Pop`.
use cppfastdevelop.Prelude.{◌≡◌, ◌≢◌, refl, ◌∙◌, Bool, true, false, List, [], ◌∷◌, arith}
use cppfastdevelop.Containers.Sets.{
  set_stop_to_pop, waits, threw, RawNotifySet, insert_notify, insert_unless, erase_notify, pop_from,
  pop_notify, try_pop_from, try_pop, clear_notify, stop_insert, stop_insert_and_pop,
}
use cppfastdevelop.Containers.OrderedSet.{erase}

-- A call.
pub data NotifyCall (A : Type 0) : Type 0 where
  inserts erases : A → NotifyCall A
  pops tries clears stops stops_all : NotifyCall A

module _ {A : Type 0} (less : A → A → Bool) where
  abbrev pub called : NotifyCall A → RawNotifySet A → RawNotifySet A
  called (inserts a) n = (insert_notify less a n).0
  called (erases a) n = (erase_notify less a n).0
  called pops n = (pop_notify less n).0
  called tries n = (try_pop less n).0
  called clears n = clear_notify less n
  called stops n = stop_insert less n
  called stops_all n = stop_insert_and_pop less n

  unfoldable pub run : List (NotifyCall A) → RawNotifySet A → RawNotifySet A
  run [] n = n
  run (c ∷ cs) n = run cs (called c n)

  -- `StopInsertAndPop` is not called.
  unfoldable pub NoStopAll : List (NotifyCall A) → Type 0
  NoStopAll [] = Unit
  NoStopAll (c ∷ cs) = (c ≢ stops_all) × NoStopAll cs

  -- Pops are stopped.
  abbrev pub IsStopped : RawNotifySet A → Type 0
  IsStopped n = n.stop_to_pop ≡ true

  -- Inserts are stopped, pops are not, and the set is empty.
  abbrev pub IsStarved : RawNotifySet A → Type 0
  IsStarved n = (n.stop_to_insert ≡ true) × (n.stop_to_pop ≡ false) × (n.set ≡ [])

  insert_unless-stop :
      (b : Bool) (a : A) (n : RawNotifySet A)
      → (insert_unless less b a n).0.stop_to_pop ≡ n.stop_to_pop
  insert_unless-stop true a n = refl
  insert_unless-stop false a n = ground arith

  pop_from-stop :
      (s : List A) (b : Bool) (n : RawNotifySet A)
      → (pop_from less s b n).0.stop_to_pop ≡ n.stop_to_pop
  pop_from-stop s true n = refl
  pop_from-stop [] false n = refl
  pop_from-stop (a ∷ rest) false n = refl

  try_pop_from-stop :
      (s : List A) (b : Bool) (n : RawNotifySet A)
      → (try_pop_from less s b n).0.stop_to_pop ≡ n.stop_to_pop
  try_pop_from-stop s true n = refl
  try_pop_from-stop [] false n = refl
  try_pop_from-stop (a ∷ rest) false n = refl

  called-IsStopped : (c : NotifyCall A) (n : RawNotifySet A) → IsStopped n → IsStopped (called c n)
  called-IsStopped (inserts a) n h = insert_unless-stop n.stop_to_insert a n ∙ h
  called-IsStopped (erases a) n h = h
  called-IsStopped pops n h = pop_from-stop n.set n.stop_to_pop n ∙ h
  called-IsStopped tries n h = try_pop_from-stop n.set n.stop_to_pop n ∙ h
  called-IsStopped clears n h = h
  called-IsStopped stops n h = h
  called-IsStopped stops_all n h = refl

  run-IsStopped :
      (cs : List (NotifyCall A)) (n : RawNotifySet A) → IsStopped n → IsStopped (run cs n)
  unfolding run
  run-IsStopped [] n h = h
  run-IsStopped (c ∷ cs) n h = run-IsStopped cs (called c n) (called-IsStopped c n h)

  stopped_pop :
      (s : List A) (b : Bool) (n : RawNotifySet A)
      → b ≡ true
      → (pop_from less s b n).1 ≡ threw set_stop_to_pop
  stopped_pop s true n h = refl
  stopped_pop s false n h = absurd (cc)

  stopped_try :
      (s : List A) (b : Bool) (n : RawNotifySet A)
      → b ≡ true
      → (try_pop_from less s b n).1 ≡ threw set_stop_to_pop
  stopped_try s true n h = refl
  stopped_try s false n h = absurd (cc)

  -- Behind `StopInsertAndPop`, whatever is called then, a `Pop` and a `TryPop` throw, and do not
  -- wait.
  pub stop_insert_and_pop-ends :
      (cs : List (NotifyCall A)) (n : RawNotifySet A)
      → ((pop_notify less (run cs (stop_insert_and_pop less n))).1 ≡ threw set_stop_to_pop)
        × ((try_pop less (run cs (stop_insert_and_pop less n))).1 ≡ threw set_stop_to_pop)
  stop_insert_and_pop-ends cs n =
      let m = run cs (stop_insert_and_pop less n) in
      let h : IsStopped m = run-IsStopped cs (stop_insert_and_pop less n) refl in
      (stopped_pop m.set m.stop_to_pop m h, stopped_try m.set m.stop_to_pop m h)

  insert_stopped :
      (b : Bool) (a : A) (n : RawNotifySet A)
      → b ≡ true
      → IsStarved n
      → IsStarved (insert_unless less b a n).0
  insert_stopped true a n e h = h
  insert_stopped false a n e h = absurd (cc)

  IsStarved-pop :
      (s : List A) (b : Bool) (n : RawNotifySet A)
      → s ≡ []
      → b ≡ false
      → IsStarved n
      → IsStarved (pop_from less s b n).0 × ((pop_from less s b n).1 ≡ waits)
  IsStarved-pop [] false n e f h = (h, refl)
  IsStarved-pop (a ∷ rest) b n e f h = absurd (cc)
  IsStarved-pop [] true n e f h = absurd (cc)

  IsStarved-try :
      (s : List A) (b : Bool) (n : RawNotifySet A)
      → s ≡ []
      → b ≡ false
      → IsStarved n
      → IsStarved (try_pop_from less s b n).0
  IsStarved-try [] false n e f h = h
  IsStarved-try (a ∷ rest) b n e f h = absurd (cc)
  IsStarved-try [] true n e f h = absurd (cc)

  erase_nothing : (a : A) (s : List A) → s ≡ [] → erase less a s ≡ []
  unfolding erase
  erase_nothing a [] e = refl
  erase_nothing a (b ∷ bs) e = absurd (cc)

  called-IsStarved :
      (c : NotifyCall A) (n : RawNotifySet A) → c ≢ stops_all → IsStarved n → IsStarved (called c n)
  called-IsStarved (inserts a) n k h = insert_stopped n.stop_to_insert a n h.0 h
  called-IsStarved (erases a) n k h = (h.0, h.1, erase_nothing a n.set h.2)
  called-IsStarved pops n k h = (IsStarved-pop n.set n.stop_to_pop n h.2 h.1 h).0
  called-IsStarved tries n k h = IsStarved-try n.set n.stop_to_pop n h.2 h.1 h
  called-IsStarved clears n k h = (h.0, h.1, refl)
  called-IsStarved stops n k h = (refl, h.1, h.2)
  called-IsStarved stops_all n k h = absurd (k refl)

  run-IsStarved :
      (cs : List (NotifyCall A)) (n : RawNotifySet A)
      → NoStopAll cs
      → IsStarved n
      → IsStarved (run cs n)
  unfolding run NoStopAll
  run-IsStarved [] n k h = h
  run-IsStarved (c ∷ cs) n (d, k) h = run-IsStarved cs (called c n) k (called-IsStarved c n d h)

  -- Behind `StopInsert` on an empty set whose pops are not stopped, a `Pop` goes to wait, whatever is
  -- called then, but for `StopInsertAndPop`: its loop does not ask whether an insert may still come.
  pub stop_insert-starves :
      (cs : List (NotifyCall A)) (n : RawNotifySet A)
      → n.set ≡ []
      → n.stop_to_pop ≡ false
      → NoStopAll cs
      → (pop_notify less (run cs (stop_insert less n))).1 ≡ waits
  stop_insert-starves cs n e f k =
      let m = run cs (stop_insert less n) in
      let h = run-IsStarved cs (stop_insert less n) k (refl, f, e) in
      (IsStarved-pop m.set m.stop_to_pop m h.2 h.1 h).1
