-- ===== src/Network/Blocking/Sending.antt =====
-- What `SendSegmentSync` sends.
use cppfastdevelop.Prelude.{
  ℕ, zero, suc, ◌+◌, ◌≤◌, ◌<◌, ◌≡◌, refl, sym, ap, ◌∙◌, true, Option, none, some, List, [], ◌∷◌,
  ◌++◌, append-nil, append_assoc, length, length-take, length-drop, take-add, take-take, take, drop,
  ℤ, arith,
}
use cppfastdevelop.Network.Segment.{segment}
use cppfastdevelop.Network.Segment.Laws.{segment-le, segment-pos}
use cppfastdevelop.Network.Blocking.{
  PollEnd, ready, timed_out, broken, Calls, Transfer, returned, failed, unfinished, milliseconds,
  io_waiting, after_write, write_ready, send_sync_loop, send_segment_sync,
}
use cppfastdevelop.Network.Blocking.Laws.{IsSink, end_round-either}

module _ {S : Type 0} {sys : Calls S} {taken : S → List ℕ} (o : IsSink sys taken) where
  -- `j` more bytes of `left` have been sent since the state `s`.
  abbrev pub SentMore : List ℕ → ℕ → S → S → ℕ → ℕ → Type 0
  SentMore left already s s' k j =
      (k ≡ already + j) × (j ≤ length left) × (taken s' ≡ taken s ++ take j left)

  -- What sending `left`, with `already` bytes sent, may come to from the state `s`.
  abbrev pub Sends : List ℕ → ℕ → S → S × Transfer ℕ → Type 0
  Sends left already s (s', returned whole k) =
      (j : ℕ) × SentMore left already s s' k j × (whole ≡ true → j ≡ length left)
  Sends left already s (s', failed k) = (j : ℕ) × SentMore left already s s' k j
  Sends left already s (s', unfinished) = ⊥

  SentMore-more :
      (left : List ℕ) (n already : ℕ) (s t s' : S) (k j : ℕ)
      → n ≤ length left
      → taken t ≡ taken s ++ take n left
      → SentMore (drop n left) (already + n) t s' k j
      → SentMore left already s s' k (n + j)
  SentMore-more left n already s t s' k j fits front (sum, within, rest) = (
    omega arith,
    omega (arith, length-drop n left),
    rest
        ∙ rw front (append_assoc (taken s) (take n left) (take j (drop n left)))
        ∙ ap (◌++◌ (taken s)) (sym (take-add n j left)),
  )

  Sends-more :
      (left : List ℕ) (n already : ℕ) (s t : S)
      → n ≤ length left
      → taken t ≡ taken s ++ take n left
      → (e : S × Transfer ℕ) → Sends (drop n left) (already + n) t e
      → Sends left already s e
  Sends-more left n already s t fits front (s', returned whole k) (j, m, w) = (
    n + j,
    SentMore-more left n already s t s' k j fits front m,
    λ e. let q = w e in omega (arith, length-drop n left),
  )
  Sends-more left n already s t fits front (s', failed k) (j, m) =
      (n + j, SentMore-more left n already s t s' k j fits front m)
  Sends-more left n already s t fits front (s', unfinished) h = h

  SentMore-none :
      (left : List ℕ) (already : ℕ) (s s' : S)
      → taken s' ≡ taken s
      → SentMore left already s s' already 0
  SentMore-none left already s s' e = (omega arith, omega arith, e ∙ sym (append-nil (taken s)))

  module _ (begin : ℕ) (timeout : ℤ) (b : ℕ) (bs : List ℕ) (already : ℕ) (s : S)
      (next : ℕ → ℤ → S → S × Transfer ℕ)
      (ih : (n : ℕ) (t : ℤ) (s' : S)
        → 0 < n
        → n ≤ length (b ∷ bs)
        → Sends (drop n (b ∷ bs)) (already + n) s' (next n t s')) where
    after_write-Sends :
        (s' : S) (r : Option ℕ)
        → (r ≡ none → taken s' ≡ taken s)
        → ((n : ℕ)
            → r ≡ some n
            → (0 < n) × (n ≤ length (b ∷ bs)) × (taken s' ≡ taken s ++ take n (b ∷ bs)))
        → Sends (b ∷ bs) already s (after_write sys begin timeout already next (s', r))
    after_write-Sends s' none broke took = (0, SentMore-none (b ∷ bs) already s s' (broke refl))
    after_write-Sends s' (some n) broke took =
        let t = took n refl in
        let f = o.clock_keeps s' ∙ t.2 in
        end_round-either sys (Sends (b ∷ bs) already s) begin timeout (already + n) (next n)
          (sys.clock s')
          (λ time. Sends-more (b ∷ bs) n already s (sys.clock s').0 t.1 f _ (ih n time _ t.0 t.1))
          (n, (refl, t.1, f), λ e. absurd (cc))

    write_ready-Sends :
        (size : ℕ) (s' : S) (r : PollEnd)
        → 0 < size
        → size ≤ length (b ∷ bs)
        → taken s' ≡ taken s
        → Sends
            (b ∷ bs)
            already
            s
            (write_ready sys begin timeout (take size (b ∷ bs)) already next (s', r))
    write_ready-Sends size s' timed_out z w e =
        (0, SentMore-none (b ∷ bs) already s s' e, λ q. absurd (cc))
    write_ready-Sends size s' broken z w e = (0, SentMore-none (b ∷ bs) already s s' e)
    write_ready-Sends size s' ready z w e =
        after_write-Sends (sys.write piece s').0 (sys.write piece s').1
          (λ q. o.breaks piece s' q ∙ e) (λ n q. took n q)
      where
        piece : List ℕ
        piece = take size (b ∷ bs)

        took :
            (n : ℕ)
            → (sys.write piece s').1 ≡ some n
            → (0 < n)
              × (n ≤ length (b ∷ bs))
              × (taken (sys.write piece s').0 ≡ taken s ++ take n (b ∷ bs))
        took n q =
            let t = o.takes piece s' n (omega (arith, length-take size (b ∷ bs))) q in
            let m : n ≤ size = omega (arith, length-take size (b ∷ bs), t.1) in
            (t.0, omega arith, t.2 ∙ rw e (ap (◌++◌ (taken s)) (take-take n size (b ∷ bs) m)))

  send_sync_loop-Sends :
      (fuel : ℕ) (segsize : ℤ) (left : List ℕ) (already : ℕ) (timeout : ℤ) (s : S)
      → length left ≤ fuel
      → Sends left already s (send_sync_loop sys fuel segsize left already timeout s)
  unfolding send_sync_loop
  send_sync_loop-Sends zero segsize [] already timeout s h =
      (0, SentMore-none [] already s s refl, λ e. omega arith)
  send_sync_loop-Sends zero segsize (b ∷ bs) already timeout s h = absurd (omega arith)
  send_sync_loop-Sends (suc fuel) segsize [] already timeout s h =
      (0, SentMore-none [] already s s refl, λ e. omega arith)
  send_sync_loop-Sends (suc fuel) segsize (b ∷ bs) already timeout s h =
      write_ready-Sends (milliseconds (sys.clock s).1) timeout b bs already s _
        (λ n t s' z w.
          send_sync_loop-Sends fuel segsize (drop n (b ∷ bs)) (already + n) t s'
            (omega (arith, length-drop n (b ∷ bs))))
        (segment segsize (length (b ∷ bs))) (io_waiting sys timeout (sys.clock s).0).0
        (io_waiting sys timeout (sys.clock s).0).1
        (segment-pos segsize (length (b ∷ bs)) (omega arith)) (segment-le segsize (length (b ∷ bs)))
        (o.poll_keeps _ _ ∙ o.clock_keeps s)

  -- Over a `write` that keeps to its manual, a waiting send of a buffer with bytes in it ends.
  -- `hasDone` then is the number of bytes that the peer was sent, a front of the buffer, also where
  -- an exception is thrown; and where the result is true the whole buffer was sent.
  pub send_segment_sync-Sends :
      (timeout segsize : ℤ) (buf : List ℕ) (has_done : ℕ) (s : S)
      → 0 < length buf
      → Sends buf 0 s (send_segment_sync sys timeout segsize buf has_done s)
  send_segment_sync-Sends timeout segsize [] has_done s h = absurd (omega arith)
  send_segment_sync-Sends timeout segsize (b ∷ bs) has_done s h =
      send_sync_loop-Sends (length (b ∷ bs)) segsize (b ∷ bs) 0 timeout s (omega arith)
