-- ===== src/Network/Blocking/Receiving.antt =====
-- What `RecvSegmentSync` receives.
use cppfastdevelop.Prelude.{
  ℕ, zero, suc, ◌-◌, ◌≤◌, ◌<◌, ◌≡◌, refl, sym, ap, ◌∙◌, Bool, true, false, Option, none, some, List,
  [], ◌∷◌, ◌++◌, append-nil, append_assoc, length, length-append, ℤ, arith,
}
use cppfastdevelop.Network.Segment.{segment, Received}
use cppfastdevelop.Network.Segment.Laws.{segment-le}
use cppfastdevelop.Network.Blocking.{
  PollEnd, ready, timed_out, broken, Calls, Transfer, returned, failed, unfinished, milliseconds,
  io_waiting, open_with, after_read, read_ready, recv_sync_loop, recv_segment_sync,
}
use cppfastdevelop.Network.Blocking.Laws.{IsSource, end_round-either}

module _ {S : Type 0} {sys : Calls S} {stream : S → List ℕ} (o : IsSource sys stream) where
  -- What a receive of at most `n` bytes more, with `already` stored, may come to from the state `s`.
  abbrev pub ReceivedMore : ℕ → List ℕ → S → S → Received → List ℕ → Type 0
  ReceivedMore n already s s' r more =
      (r.bytes ≡ already ++ more) × (length more ≤ n) × (stream s ≡ more ++ stream s')

  abbrev pub Receives : ℕ → List ℕ → S → S × Transfer Received → Type 0
  Receives n already s (s', returned whole r) =
      (more : List ℕ) × ReceivedMore n already s s' r more
      × (r.peer_closed ≡ true → length more < n)
      × (whole ≡ true → r.peer_closed ≡ false → length more ≡ n)
  Receives n already s (s', failed r) = (more : List ℕ) × ReceivedMore n already s s' r more
  Receives n already s (s', unfinished) = ⊥

  ReceivedMore-more :
      (bs : List ℕ) (n : ℕ) (already : List ℕ) (s t s' : S) (r : Received) (more : List ℕ)
      → length bs ≤ n
      → stream s ≡ bs ++ stream t
      → ReceivedMore (n - length bs) (already ++ bs) t s' r more
      → ReceivedMore n already s s' r (bs ++ more)
  ReceivedMore-more bs n already s t s' r more fits front (stored, within, rest) = (
    stored ∙ append_assoc already bs more,
    omega (arith, length-append bs more),
    front ∙ ap (◌++◌ bs) rest ∙ sym (append_assoc bs more (stream s')),
  )

  Receives-more :
      (bs : List ℕ) (n : ℕ) (already : List ℕ) (s t : S)
      → length bs ≤ n
      → stream s ≡ bs ++ stream t
      → (e : S × Transfer Received) → Receives (n - length bs) (already ++ bs) t e
      → Receives n already s e
  Receives-more bs n already s t fits front (s', returned whole r) (more, m, ended, all) = (
    bs ++ more,
    ReceivedMore-more bs n already s t s' r more fits front m,
    λ c. let w = ended c in omega (arith, length-append bs more, w),
    λ c d. let w = all c d in omega (arith, length-append bs more, w),
  )
  Receives-more bs n already s t fits front (s', failed r) (more, m) =
      (bs ++ more, ReceivedMore-more bs n already s t s' r more fits front m)
  Receives-more bs n already s t fits front (s', unfinished) h = h

  ReceivedMore-none :
      (n : ℕ) (already : List ℕ) (s s' : S) (closed : Bool)
      → stream s' ≡ stream s
      → ReceivedMore n already s s' (record { bytes = already; peer_closed = closed }) []
  ReceivedMore-none n already s s' closed e = (sym (append-nil already), omega arith, sym e)

  module _ (begin : ℕ) (timeout : ℤ) (n : ℕ) (already : List ℕ) (s : S)
      (next : List ℕ → ℤ → S → S × Transfer Received)
      (ih : (bs : List ℕ) (t : ℤ) (s' : S)
        → 0 < length bs
        → length bs ≤ n
        → Receives (n - length bs) (already ++ bs) s' (next bs t s')) where
    after_read-Receives :
        (s' : S) (r : Option (List ℕ))
        → 0 < n
        → (r ≡ none → stream s' ≡ stream s)
        → ((bs : List ℕ) → r ≡ some bs → (length bs ≤ n) × (stream s ≡ bs ++ stream s'))
        → Receives n already s (after_read sys begin timeout already next (s', r))
    after_read-Receives s' none z broke gave =
        ([], ReceivedMore-none n already s s' false (broke refl))
    after_read-Receives s' (some []) z broke gave = (
      [],
      ReceivedMore-none n already s s' true (sym (gave [] refl).1),
      λ c. z,
      λ c d. absurd (cc),
    )
    after_read-Receives s' (some (b ∷ bs)) z broke gave =
        let g = gave (b ∷ bs) refl in
        let f = g.1 ∙ ap (◌++◌ (b ∷ bs)) (sym (o.clock_keeps s')) in
        end_round-either sys (Receives n already s) begin timeout
          (open_with sys (already ++ b ∷ bs)) (next (b ∷ bs)) (sys.clock s')
          (λ time.
            Receives-more (b ∷ bs) n already s (sys.clock s').0 g.0 f _
              (ih (b ∷ bs) time _ (omega arith) g.0))
          (b ∷ bs, (refl, g.0, f), λ c. absurd (cc), λ c d. absurd (cc))

    read_ready-Receives :
        (size : ℕ) (s' : S) (r : PollEnd)
        → 0 < n
        → size ≤ n
        → stream s' ≡ stream s
        → Receives n already s (read_ready sys begin timeout size already next (s', r))
    read_ready-Receives size s' timed_out z w e =
        ([], ReceivedMore-none n already s s' false e, λ c. z, λ c d. absurd (cc))
    read_ready-Receives size s' broken z w e = ([], ReceivedMore-none n already s s' false e)
    read_ready-Receives size s' ready z w e =
        after_read-Receives (sys.read size s').0 (sys.read size s').1 z
          (λ q. o.breaks size s' q ∙ e)
          (λ bs q. let g = o.gives size s' bs q in (omega (arith, g.0), sym e ∙ g.1))

  recv_sync_loop-Receives :
      (fuel : ℕ) (segsize : ℤ) (n : ℕ) (already : List ℕ) (timeout : ℤ) (s : S)
      → n ≤ fuel
      → Receives n already s (recv_sync_loop sys fuel segsize n already timeout s)
  unfolding recv_sync_loop
  recv_sync_loop-Receives zero segsize zero already timeout s h =
      ([], ReceivedMore-none 0 already s s false refl, λ c. absurd (cc), λ c d. omega arith)
  recv_sync_loop-Receives zero segsize (suc n) already timeout s h = absurd (omega arith)
  recv_sync_loop-Receives (suc fuel) segsize zero already timeout s h =
      ([], ReceivedMore-none 0 already s s false refl, λ c. absurd (cc), λ c d. omega arith)
  recv_sync_loop-Receives (suc fuel) segsize (suc n) already timeout s h =
      read_ready-Receives (milliseconds (sys.clock s).1) timeout (suc n) already s _
        (λ bs t s' z w.
          recv_sync_loop-Receives fuel segsize (suc n - length bs) (already ++ bs) t s'
            (omega arith))
        (segment segsize (suc n)) (io_waiting sys timeout (sys.clock s).0).0
        (io_waiting sys timeout (sys.clock s).0).1 (omega arith) (segment-le segsize (suc n))
        (o.poll_keeps _ _ ∙ o.clock_keeps s)

  -- Over a `read` that keeps to its manual, a waiting receive of some bytes ends. What it has
  -- stored then is the front of the stream, in order and no longer than asked for, also where an
  -- exception is thrown; it is shorter where the peer's end was seen, and as long as asked for
  -- where the result is true otherwise.
  pub recv_segment_sync-Receives :
      (timeout segsize : ℤ) (n : ℕ) (r : Received) (s : S)
      → 0 < n
      → Receives n [] s (recv_segment_sync sys timeout segsize n r s)
  recv_segment_sync-Receives timeout segsize zero r s h = absurd (omega arith)
  recv_segment_sync-Receives timeout segsize (suc n) r s h =
      recv_sync_loop-Receives (suc n) segsize (suc n) [] timeout s (omega arith)
