-- ===== src/CircularQueue/Transfer/Waits.antt =====
-- Puts and gets that wait, whatever the other processes do meanwhile.
use cppfastdevelop.Prelude.{
  ℕ, ◌+◌, ◌^◌, ◌<◌, ◌≤◌, ◌≡◌, refl, ◌⊎◌, Bool, Bool-cases, inl, inr, List, [], ◌∷◌, ◌++◌, length,
  ltb, ◌==◌, if_both, arith, false, true, ℤ, pos, ltb_ℤ, ◌-ℤ◌, to_int32,
}
use cppfastdevelop.CircularQueue.Def.{ok, throw, Shared, Layout, IsLayout}
use cppfastdevelop.CircularQueue.Meta.{is_stop_put_and_get}
use cppfastdevelop.CircularQueue.Element.Invariant.{Holds}
use cppfastdevelop.CircularQueue.Element.Write.{write-appended, write-empty}
use cppfastdevelop.CircularQueue.Element.Append.{appended-Holds}
use cppfastdevelop.CircularQueue.Element.Read.{read-removed, removed-Holds}
use cppfastdevelop.CircularQueue.Transfer.{
  Calls, Outcome, returned, waiting, put_element, get_element, timed_put, timed_get, element_size,
  WaitEnd, signalled, timed_out, failed, Wake, Waited, left_loop, threw, still_waiting,
  wait_forever, wait_timed, woken, woken_in_time, stopped_to_put, after_wait, waits_for_space,
  waits_for_message,
}

-- The region is sound: it holds some messages.
abbrev pub IsSound : Layout → Shared → Type 0
IsSound l s = (bs : List (List ℕ)) × Holds l s bs

-- Every wake-up finds a sound region.
abbrev pub AllSound : Layout → List Wake → Type 0
AllSound l [] = Unit {0}
AllSound l (w ∷ ws) = IsSound l w.region × AllSound l ws

-- The regions that a call finds: the one at its start, and those at the wake-ups.
abbrev pub Found : List Wake → Shared → Shared → Type 0
Found [] s t = t ≡ s
Found (w ∷ ws) s t = (t ≡ s) ⊎ Found ws w.region t

found_first : (ws : List Wake) (s : Shared) → Found ws s s
found_first [] s = refl
found_first (w ∷ ws) s = inl refl

-- A put that returns has appended its message to all the messages of a region for which `F` holds,
-- and one that throws or waits leaves a sound region.
abbrev pub PutKeeps : Layout → (Shared → Type 0) → List ℕ → Outcome (Unit {0}) → Type 0
PutKeeps l F body (returned s (ok u)) =
    (t : Shared) × F t × (bs : List (List ℕ)) × Holds l t bs × Holds l s (bs ++ (body ∷ []))
PutKeeps l F body (returned s (throw e)) = IsSound l s
PutKeeps l F body (waiting s) = IsSound l s

-- A get that returns `b` has taken it off the front of the messages of such a region, and left all
-- others.
abbrev pub GetKeeps : Layout → (Shared → Type 0) → Outcome (List ℕ) → Type 0
GetKeeps l F (returned s (ok b)) =
    (t : Shared) × F t × (bs : List (List ℕ)) × Holds l t (b ∷ bs) × Holds l s bs
GetKeeps l F (returned s (throw e)) = IsSound l s
GetKeeps l F (waiting s) = IsSound l s

abbrev WaitedSound : Layout → (Shared → Type 0) → Waited → Type 0
WaitedSound l F (left_loop s) = F s × IsSound l s
WaitedSound l F (threw s e) = IsSound l s
WaitedSound l F (still_waiting s) = IsSound l s

WaitedSound-later :
    (l : Layout) (w : Wake) (ws : List Wake) (s : Shared) (x : Waited)
    → WaitedSound l (Found ws w.region) x
    → WaitedSound l (Found (w ∷ ws) s) x
WaitedSound-later l w ws s (left_loop t) h = (inr h.0, h.1)
WaitedSound-later l w ws s (threw t e) h = h
WaitedSound-later l w ws s (still_waiting t) h = h

module _ (l : Layout) (test : Shared → Bool) where
  woken_sound :
      (F : Shared → Type 0) (e : WaitEnd) (s : Shared) (rest : Waited)
      → IsSound l s
      → WaitedSound l F rest
      → WaitedSound l F (woken e s rest) × WaitedSound l F (woken_in_time e s rest)
  woken_sound F signalled s rest h k = (k, k)
  woken_sound F timed_out s rest h k = (h, h)
  woken_sound F failed s rest h k = (h, h)

  wait_forever_sound :
      (ws : List Wake) (s : Shared)
      → IsSound l s
      → AllSound l ws
      → WaitedSound l (Found ws s) (wait_forever test ws s)
  unfolding wait_forever
  wait_forever_sound [] s h a = if_both (WaitedSound l (Found [] s)) (test s) h (refl, h)
  wait_forever_sound (w ∷ ws) s h a =
      let F = Found (w ∷ ws) s in
      let rest = WaitedSound-later l w ws s _ (wait_forever_sound ws w.region a.0 a.1) in
      let r = woken_sound F w.wait_end w.region _ a.0 rest in
      if_both (WaitedSound l F) (test s) r.0 (inl refl, h)

  wait_timed_sound :
      (start : ℕ) (timeout : ℤ) (ws : List Wake) (s : Shared)
      → IsSound l s
      → AllSound l ws
      → WaitedSound l (Found ws s) (wait_timed test start timeout ws s)
  unfolding wait_timed
  wait_timed_sound start timeout [] s h a =
      let P = WaitedSound l (Found [] s) in
      if_both P (test s) (if_both P (ltb_ℤ (pos 0) timeout) h h) (refl, h)
  wait_timed_sound start timeout (w ∷ ws) s h a =
      let F = Found (w ∷ ws) s in
      let rest = WaitedSound-later l w ws s _ (
        wait_timed_sound start (to_int32 (timeout -ℤ (pos w.now -ℤ pos start))) ws w.region a.0
          a.1) in
      let r = woken_sound F w.wait_end w.region _ a.0 rest in
      if_both (WaitedSound l F) (test s) (if_both (WaitedSound l F) (ltb_ℤ (pos 0) timeout) r.1 h)
        (inl refl, h)

module _ {l : Layout} (laid : IsLayout l) (c : Calls) (now : c.context.time < 2 ^ 64) where
  module _ (body : List ℕ) (small : length body + l.header_size < 2 ^ 64) where
    put_element-keeps :
        (F : Shared → Type 0) (s : Shared)
        → F s
        → IsSound l s
        → PutKeeps l F body (put_element l c body s)
    unfolding put_element
    put_element-keeps F s f (bs, held) =
        if_both (PutKeeps l F body) (stopped_to_put s.info.status) (bs, held)
          elim (Bool-cases (ltb s.info.q_left_size (element_size l body))) [
            | inl a ↦ rw a (bs, held)
            | inr a ↦ elim (Bool-cases (length body == 0)) [
              | inl e ↦ rw (a, write-empty l c.context body s (ground arith)) (bs, held)
              | inr e ↦
                  let room : l.header_size + length body ≤ s.info.q_left_size = ground arith in
                  let after = appended-Holds laid c.context body held now (ground arith) room in
                  rw (a, write-appended laid c.context body held (ground arith) room)
                    (if_both (PutKeeps l F body) (c.signal_rt == 0) (s, f, bs, held, after)
                      (bs ++ (body ∷ []), after))
            ]
          ]

    after_wait-put :
        (F : Shared → Type 0) (w : Waited)
        → WaitedSound l F w
        → PutKeeps l F body (after_wait (put_element l c body) w)
    after_wait-put F (left_loop s) h = put_element-keeps F s h.0 h.1
    after_wait-put F (threw s e) h = h
    after_wait-put F (still_waiting s) h = h

    -- Whatever the others do with the region between its waits, if they leave it sound, a put that
    -- returns has appended its message to all the messages of the region at its start or of the one
    -- that it found at one of its wake-ups, and any other end of it leaves the region sound.
    pub timed_put-keeps :
        (timeout : ℤ) (wakes : List Wake) (s : Shared)
        → IsSound l s
        → AllSound l wakes
        → PutKeeps l (Found wakes s) body (timed_put l c wakes body timeout s)
    unfolding timed_put
    timed_put-keeps timeout wakes s h a =
        let F = Found wakes s in
        let P = PutKeeps l F body in
        let forever =
          after_wait-put F _ (wait_forever_sound l (waits_for_space l body) wakes s h a) in
        let timed =
          after_wait-put F _
            (wait_timed_sound l (waits_for_space l body) c.start timeout wakes s h a) in
        if_both P (stopped_to_put s.info.status) h (
          if_both P (ltb s.info.q_total_size (element_size l body)) h (
            if_both P (ltb s.info.q_left_size (element_size l body))
              (if_both P (ltb_ℤ timeout (pos 0)) forever
                (if_both P (ltb_ℤ (pos 0) timeout) timed h))
              (put_element-keeps F s (found_first wakes s) h)))

  get_element-keeps :
      (F : Shared → Type 0) (s : Shared) → F s → IsSound l s → GetKeeps l F (get_element l c s)
  unfolding get_element
  get_element-keeps F s f ([], held) =
      let none_left : (s.info.element_count == 0) ≡ true = ground (arith, held.count) in
      rw none_left
        (if_both (GetKeeps l F) (is_stop_put_and_get s.info.status) ([], held) ([], held))
  get_element-keeps F s f (b ∷ bs, held) =
      let some_left : (s.info.element_count == 0) ≡ false = ground (arith, held.count) in
      let after = removed-Holds laid c.context b bs held in
      rw (some_left, read-removed laid c.context b bs held)
        (if_both (GetKeeps l F) (is_stop_put_and_get s.info.status) (b ∷ bs, held)
          (if_both (GetKeeps l F) (c.signal_rt == 0) (s, f, bs, held, after) (bs, after)))

  after_wait-get :
      (F : Shared → Type 0) (w : Waited)
      → WaitedSound l F w
      → GetKeeps l F (after_wait (get_element l c) w)
  after_wait-get F (left_loop s) h = get_element-keeps F s h.0 h.1
  after_wait-get F (threw s e) h = h
  after_wait-get F (still_waiting s) h = h

  -- Under the same condition, a get that returns has taken the oldest message of the region at its
  -- start, or of the one that it found at one of its wake-ups, off that region, and left its other
  -- messages; any other end of it leaves the region sound.
  pub timed_get-keeps :
      (timeout : ℤ) (wakes : List Wake) (s : Shared)
      → IsSound l s
      → AllSound l wakes
      → GetKeeps l (Found wakes s) (timed_get l c wakes timeout s)
  unfolding timed_get
  timed_get-keeps timeout wakes s h a =
      let F = Found wakes s in
      let P = GetKeeps l F in
      let forever = after_wait-get F _ (wait_forever_sound l waits_for_message wakes s h a) in
      let timed =
        after_wait-get F _ (wait_timed_sound l waits_for_message c.start timeout wakes s h a) in
      if_both P (is_stop_put_and_get s.info.status) h (
        if_both P (s.info.element_count == 0)
          (if_both P (ltb_ℤ timeout (pos 0)) forever (if_both P (ltb_ℤ (pos 0) timeout) timed h))
          (get_element-keeps F s (found_first wakes s) h))
