-- ===== src/NetServer/EventHandler/Sending.antt =====
-- What the loop of `OnWrite` sends of a chain.
use cppfastdevelop.Prelude.{
  ℕ, ◌-◌, ◌≤◌, ◌<◌, ◌≡◌, refl, sym, ap, ◌∙◌, Bool, true, false, List, [], ◌∷◌, ◌++◌, append-nil,
  append_assoc, length, length-take, take, drop, take-append-drop, if◌then◌else◌, arith, Fd, lt→ltb,
  le→ltb, ◌==◌, drop-take, drop_all, dec_lt,
}
use cppfastdevelop.NetServer.Buffer.{
  Exception, value_error, Result, ok, throw, WriteBuffer, Session, written, sent,
}
use cppfastdevelop.NetServer.Buffer.Unsent.{
  IsWriteBuffer, unsent, length-unsent, unsent-written, written-IsWriteBuffer,
}
use cppfastdevelop.NetServer.EventHandler.{Demux, Sockets}
use cppfastdevelop.NetServer.EventHandler.Chains.{
  Pass, completed, stopped, after_sent, after_write, is_last, write_chain,
}
use cppfastdevelop.Epoll.{cfev_write}

-- The bytes of a chain that have not been sent.
unfoldable pub chain_unsent : List WriteBuffer → List ℕ
chain_unsent [] = []
chain_unsent (wb ∷ wbs) = unsent wb ++ chain_unsent wbs

unfoldable pub AllBuffers : List WriteBuffer → Type 0
AllBuffers [] = Unit
AllBuffers (wb ∷ wbs) = IsWriteBuffer wb × AllBuffers wbs

-- All bytes of the buffers are sent.
unfoldable pub AllSent : List WriteBuffer → Type 0
AllSent [] = Unit
AllSent (wb ∷ wbs) = (wb.already ≡ wb.total) × AllSent wbs

-- What `send` promises of a session: it takes a front of the bytes given, of the length that it
-- returns; `taken` is what the peer has been sent. Where it throws, some front has been sent.
pub record IsDrain {W : Type 0} (session : Session W) (taken : W → List ℕ) : Type 0 where
  pub takes :
      (bs : List ℕ) (w : W) (n : ℕ)
      → (session.send_async bs w).1 ≡ ok n
      → (n ≤ length bs) × (taken (session.send_async bs w).0 ≡ taken w ++ take n bs)
  pub throws :
      (bs : List ℕ) (w : W) (e : Exception)
      → (session.send_async bs w).1 ≡ throw e
      → (n : ℕ) × (taken (session.send_async bs w).0 ≡ taken w ++ take n bs)

not_zero : (n : ℕ) → 0 < n → (n == 0) ≡ false
not_zero n h = ground arith

-- A pass over `chain` has sent `moved`, a front of what was not sent, behind `before`, and `again`,
-- which a send that threw has sent without counting it; the rest stands in the buffers left.
pub record SendsOff {D W : Type 0} (taken : W → List ℕ) (chain : List WriteBuffer) (before : List ℕ)
    (p : Pass D W WriteBuffer) : Type 0 where
  pub moved : List ℕ
  pub again : List ℕ
  pub uncounted : List ℕ
  pub on_the_way : taken p.network ≡ before ++ moved ++ again
  pub rest : chain_unsent chain ≡ moved ++ chain_unsent p.left
  pub front : chain_unsent p.left ≡ again ++ uncounted
  pub counted : p.outcome ≡ ok tt → again ≡ []
  pub all_sent : AllSent p.complete
  pub buffers : AllBuffers p.left

module _ {D W : Type 0} {taken : W → List ℕ} where
  -- Nothing more is sent.
  stopped-SendsOff :
      (wbs : List WriteBuffer) (w : W) (d : D) (r : Result (Unit {0}))
      → AllBuffers wbs
      → SendsOff taken wbs (taken w) (stopped wbs r w d)
  unfolding AllSent
  stopped-SendsOff wbs w d r b = record {
    moved = [];
    again = [];
    uncounted = chain_unsent wbs;
    on_the_way = sym (ap (λ x. x ++ []) (append-nil (taken w)) ∙ append-nil (taken w));
    rest = refl;
    front = refl;
    counted = λ e. refl;
    all_sent = tt;
    buffers = b;
  }

  -- A send has taken `bytes` of the first buffer, and the pass goes on from there.
  sent-SendsOff :
      (wb : WriteBuffer) (wbs chain' : List WriteBuffer) (before bytes : List ℕ) (w : W)
      (p : Pass D W WriteBuffer)
      → chain_unsent (wb ∷ wbs) ≡ bytes ++ chain_unsent chain'
      → taken w ≡ before ++ bytes
      → SendsOff taken chain' (taken w) p
      → SendsOff taken (wb ∷ wbs) before p
  sent-SendsOff wb wbs chain' before bytes w p whole went s = record {
    moved = bytes ++ s.moved;
    again = s.again;
    uncounted = s.uncounted;
    on_the_way =
        s.on_the_way
        ∙ ap (λ x. x ++ s.moved ++ s.again) went
        ∙ ap (λ x. x ++ s.again) (append_assoc before bytes s.moved);
    rest =
        whole
        ∙ ap (λ x. bytes ++ x) s.rest
        ∙ sym (append_assoc bytes s.moved (chain_unsent p.left));
    front = s.front;
    counted = s.counted;
    all_sent = s.all_sent;
    buffers = s.buffers;
  }

  completed-SendsOff :
      (wb : WriteBuffer) (chain : List WriteBuffer) (before : List ℕ) (p : Pass D W WriteBuffer)
      → wb.already ≡ wb.total
      → SendsOff taken chain before p
      → SendsOff taken chain before (completed wb p)
  unfolding AllSent
  completed-SendsOff wb chain before p e s = record {
    moved = s.moved;
    again = s.again;
    uncounted = s.uncounted;
    on_the_way = s.on_the_way;
    rest = s.rest;
    front = s.front;
    counted = s.counted;
    all_sent = (e, s.all_sent);
    buffers = s.buffers;
  }

module _ {D W : Type 0} (dm : Demux D) (so : Sockets W) (fd session : Fd) {taken : W → List ℕ}
    (o : IsDrain (so.session session) taken) where
  module _ (wb : WriteBuffer) (wbs : List WriteBuffer) (w : W) (d : D) (i : IsWriteBuffer wb)
      (b : AllBuffers wbs)
      (ih : (w' : W) (d' : D)
        → SendsOff taken wbs (taken w') (write_chain dm so fd session wbs w' d')) where
    abbrev piece : List ℕ
    piece = take (wb.total - wb.already) (drop wb.already wb.buf)

    abbrev w1 : W
    w1 = ((so.session session).send_async piece w).0

    -- The counted send of `n` bytes, in front of a pass over the buffer and the others.
    counted-SendsOff :
        (n : ℕ)
        → wb.already < wb.total
        → n ≤ wb.total - wb.already
        → taken w1 ≡ taken w ++ take n (unsent wb)
        → (c : Bool) → ((written wb n).total == (written wb n).already) ≡ c
        → SendsOff taken (wb ∷ wbs) (taken w) (
            after_sent dm so fd session
              (written wb n)
              wbs
              w1
              d
              (ok c)
              (write_chain dm so fd session wbs w1))
    unfolding chain_unsent AllBuffers
    counted-SendsOff n l h went false e =
        sent-SendsOff wb wbs (written wb n ∷ wbs) (taken w) (take n (unsent wb)) w1
          (stopped (written wb n ∷ wbs) (ok tt) w1 d)
          (ap (λ x. x ++ chain_unsent wbs) (unsent-written wb n i h)
            ∙ append_assoc (take n (unsent wb)) (unsent (written wb n)) (chain_unsent wbs))
          went
          (stopped-SendsOff (written wb n ∷ wbs) w1 d (ok tt) (written-IsWriteBuffer wb n i h, b))
    counted-SendsOff n l h went true e =
        completed-SendsOff (written wb n) (wb ∷ wbs) (taken w) _ full (
          sent-SendsOff wb wbs wbs (taken w) (take n (unsent wb)) w1 _
            (ap (λ x. x ++ chain_unsent wbs)
              (unsent-written wb n i h
                ∙ ap (λ x. take n (unsent wb) ++ x) none_left
                ∙ append-nil (take n (unsent wb))))
            went (ih w1 (if is_last wbs then dm.del_event fd cfev_write d else d)))
      where
        full : (written wb n).already ≡ (written wb n).total
        full = ground (arith, e)

        none_left : unsent (written wb n) ≡ []
        none_left =
            drop_all (written wb n).already (take wb.total wb.buf)
              (omega (arith, length-take wb.total wb.buf, full))

    piece-unsent : piece ≡ unsent wb
    piece-unsent = sym (drop-take wb.already wb.total wb.buf)

    -- The round behind the send.
    round-SendsOff :
        (r : Result ℕ)
        → ((so.session session).send_async piece w).1 ≡ r
        → wb.already < wb.total
        → SendsOff taken (wb ∷ wbs) (taken w) (
            after_write dm so fd session
              (sent wb (w1, r)).1
              wbs
              (sent wb (w1, r)).0
              d
              (sent wb (w1, r)).2
              (write_chain dm so fd session wbs (sent wb (w1, r)).0))
    unfolding chain_unsent AllBuffers AllSent
    round-SendsOff (throw x) q l =
        let t = o.throws piece w x q in
        record {
          moved = [];
          again = take t.0 (unsent wb);
          uncounted = drop t.0 (unsent wb) ++ chain_unsent wbs;
          on_the_way =
              t.1
              ∙ ap (λ x. taken w ++ take t.0 x) piece-unsent
              ∙ ap (λ x. x ++ take t.0 (unsent wb)) (sym (append-nil (taken w)));
          rest = refl;
          front =
              ap (λ x. x ++ chain_unsent wbs) (sym (take-append-drop t.0 (unsent wb)))
              ∙ append_assoc (take t.0 (unsent wb)) (drop t.0 (unsent wb)) (chain_unsent wbs);
          counted = λ e. absurd (cc);
          all_sent = tt;
          buffers = (i, b);
        }
    round-SendsOff (ok n) q l =
        let t = o.takes piece w n q in
        let h : n ≤ wb.total - wb.already =
          omega (arith, t.0, ap length piece-unsent, length-unsent wb i) in
        let some_left : (length wb.buf == 0) ≡ false =
          not_zero (length wb.buf) (omega (arith, i.sized)) in
        rw some_left (
          counted-SendsOff n l h (t.1 ∙ ap (λ x. taken w ++ take n x) piece-unsent)
            ((written wb n).total == (written wb n).already) refl)

  -- A pass of `OnWrite` over a chain whose counts stay within its buffers, with a session that
  -- sends fronts of what it is given: behind what the peer had been sent come a front of the
  -- chain's unsent bytes, in order, and where a send threw a front of the rest, which the buffers
  -- still hold. All bytes of the complete buffers are sent, the others stand in the buffers left,
  -- in order, and their counts stay within them.
  pub write_chain-SendsOff :
      (chain : List WriteBuffer) (w : W) (d : D)
      → AllBuffers chain
      → SendsOff taken chain (taken w) (write_chain dm so fd session chain w d)
  unfolding write_chain AllBuffers
  write_chain-SendsOff [] w d b = stopped-SendsOff [] w d (ok tt) b
  write_chain-SendsOff (wb ∷ wbs) w d (i, b) =
      started (dec_lt wb.already wb.total) (λ w' d'. write_chain-SendsOff wbs w' d' b)
    where
      started :
          Dec (wb.already < wb.total)
          → ((w' : W) (d' : D)
              → SendsOff taken wbs (taken w') (write_chain dm so fd session wbs w' d'))
          → SendsOff taken (wb ∷ wbs) (taken w) (write_chain dm so fd session (wb ∷ wbs) w d)
      started (yes l) ih =
          rw (lt→ltb wb.already wb.total l) (round-SendsOff wb wbs w d i b ih _ refl l)
      started (no l) ih =
          rw (le→ltb wb.already wb.total (omega arith))
            (stopped-SendsOff (wb ∷ wbs) w d (throw value_error) (i, b))
