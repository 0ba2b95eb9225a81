-- ===== src/NetServer/EventHandler/Delivery.antt =====
-- What the loop of `OnRead` does with the bytes of the peer.
use cppfastdevelop.Prelude.{
  ℕ, ◌+◌, ◌-◌, ◌≤◌, ◌≡◌, refl, sym, ap, ◌∙◌, Bool, true, false, if_both, List, [], ◌∷◌, ◌++◌,
  append-nil, append_assoc, length, take, if◌then◌else◌, arith, Fd, ltb, ◌==◌,
}
use cppfastdevelop.NetServer.Buffer.{
  Exception, value_error, received, read_up_to, Result, ok, throw, ReadBuffer, Receipt, Session,
  stored,
}
use cppfastdevelop.NetServer.Buffer.Laws.{
  IsReadBuffer, contents, stored-IsReadBuffer, stored-contents,
}
use cppfastdevelop.NetServer.EventHandler.{Demux, Sockets}
use cppfastdevelop.NetServer.EventHandler.Chains.{
  Pass, completed, stopped, after_complete, after_read, is_last, read_chain,
}
use cppfastdevelop.Epoll.{cfev_read}

-- The bytes in a chain's buffers, and the sizes that were asked for.
unfoldable pub chain_bytes : List ReadBuffer → List ℕ
chain_bytes [] = []
chain_bytes (rb ∷ rbs) = contents rb ++ chain_bytes rbs

unfoldable pub totals : List ReadBuffer → List ℕ
totals [] = []
totals (rb ∷ rbs) = rb.total ∷ totals rbs

-- Every buffer of the list is full.
unfoldable pub AllFull : List ReadBuffer → Type 0
AllFull [] = Unit
AllFull (rb ∷ rbs) = (rb.already ≡ rb.total) × AllFull rbs

-- No buffer of the list has a byte.
unfoldable pub AllFresh : List ReadBuffer → Type 0
AllFresh [] = Unit
AllFresh (rb ∷ rbs) = IsReadBuffer rb × (rb.already ≡ 0) × AllFresh rbs

-- Only the first buffer of a chain may have bytes.
unfoldable pub InOrder : List ReadBuffer → Type 0
InOrder [] = Unit
InOrder (rb ∷ rbs) = IsReadBuffer rb × AllFresh rbs

-- What `recv` promises of a session: at most the bytes asked for, off the front of what the peer
-- has sent, which is `stream`; what a receive that throws has taken is lost.
pub record IsStream {W : Type 0} (session : Session W) (stream : W → List ℕ) : Type 0 where
  pub gives :
      (n : ℕ) (w : W) (r : Receipt)
      → (session.recv_async n w).1 ≡ ok r
      → (length r.bytes ≤ n) × (stream w ≡ r.bytes ++ stream (session.recv_async n w).0)
  pub loses :
      (n : ℕ) (w : W) (e : Exception)
      → (session.recv_async n w).1 ≡ throw e
      → (lost : List ℕ) × (stream w ≡ lost ++ stream (session.recv_async n w).0)

AllFresh-InOrder : (rbs : List ReadBuffer) → AllFresh rbs → InOrder rbs
unfolding AllFresh InOrder
AllFresh-InOrder [] f = tt
AllFresh-InOrder (rb ∷ rbs) (i, z, f) = (i, f)

fresh_bytes : (rbs : List ReadBuffer) → AllFresh rbs → chain_bytes rbs ≡ []
unfolding AllFresh chain_bytes
fresh_bytes [] f = refl
fresh_bytes (rb ∷ rbs) (i, z, f) = ap (λ k. take k rb.buf ++ chain_bytes rbs) z ∙ fresh_bytes rbs f

-- What a pass over `chain` has done with the bytes of `stream`, of which `before` were to come.
abbrev pub Delivers :
    {D W : Type 0} → (W → List ℕ) → List ReadBuffer → List ℕ → Pass D W ReadBuffer → Type 0
Delivers stream chain before p =
    (lost : List ℕ) × (chain_bytes chain ++ before
      ≡ chain_bytes (p.complete ++ p.left) ++ (lost ++ stream p.network))
    × (p.outcome ≡ ok tt → (lost ≡ []) × InOrder p.left)
    × AllFull p.complete
    × (totals (p.complete ++ p.left) ≡ totals chain)

module _ {D W : Type 0} (dm : Demux D) (so : Sockets W) (fd session : Fd) {stream : W → List ℕ}
    (o : IsStream (so.session session) stream) where
  -- A buffer that a receive has filled further, in front of buffers with no byte.
  moved :
      (rb : ReadBuffer) (rbs : List ReadBuffer) (bytes before after : List ℕ)
      → IsReadBuffer rb
      → AllFresh rbs
      → rb.already + length bytes ≤ rb.total
      → before ≡ bytes ++ after
      → chain_bytes (rb ∷ rbs) ++ before ≡ contents (stored rb bytes) ++ (chain_bytes rbs ++ after)
  unfolding chain_bytes
  moved rb rbs bytes before after i f h e =
      rw (fresh_bytes rbs f, stored-contents rb bytes i h, append-nil (contents rb), e)
        (sym (append_assoc (contents rb) bytes after))

  -- The rounds behind a complete buffer.
  completed-Delivers :
      (rb' : ReadBuffer) (chain rbs : List ReadBuffer) (before after : List ℕ)
      (p : Pass D W ReadBuffer)
      → chain_bytes chain ++ before ≡ contents rb' ++ (chain_bytes rbs ++ after)
      → rb'.already ≡ rb'.total
      → totals chain ≡ rb'.total ∷ totals rbs
      → Delivers stream rbs after p
      → Delivers stream chain before (completed rb' p)
  unfolding chain_bytes totals AllFull
  completed-Delivers rb' chain rbs before after p e full sizes (lost, rest, ends, fulls, more) = (
    lost,
    e
        ∙ ap (◌++◌ (contents rb')) rest
        ∙ sym (
            append_assoc (contents rb') (chain_bytes (p.complete ++ p.left))
              (lost ++ stream p.network)),
    ends,
    (full, fulls),
    ap (◌∷◌ rb'.total) more ∙ sym sizes,
  )

  stopped-Delivers :
      (rb rb' : ReadBuffer) (rbs : List ReadBuffer) (before : List ℕ) (r : Result (Unit {0}))
      (w' : W) (d : D) (lost : List ℕ)
      → chain_bytes (rb ∷ rbs) ++ before ≡ contents rb' ++ (chain_bytes rbs ++ (lost ++ stream w'))
      → (r ≡ ok tt → (lost ≡ []) × IsReadBuffer rb' × AllFresh rbs)
      → rb'.total ≡ rb.total
      → Delivers stream (rb ∷ rbs) before (stopped (rb' ∷ rbs) r w' d)
  unfolding chain_bytes totals AllFull InOrder
  stopped-Delivers rb rb' rbs before r w' d lost e ends same = (
    lost,
    e ∙ sym (append_assoc (contents rb') (chain_bytes rbs) (lost ++ stream w')),
    (λ x. let g = ends x in (g.0, (g.1, g.2))),
    tt,
    ap (λ k. k ∷ totals rbs) same,
  )

  -- A pass of `OnRead` over a chain, of which only the first buffer may have bytes, loses none of
  -- the bytes that the peer has sent and keeps their order: what was in the chain and still to come
  -- is, behind it, in the complete buffers, then in those left, then lost with an exception, then
  -- still to come. The complete buffers are full, and they and those left have the sizes that were
  -- asked for, in order. Where nothing is thrown, no byte is lost, and only the first buffer left
  -- may have bytes.
  pub read_chain-Delivers :
      (chain : List ReadBuffer) (w : W) (d : D)
      → InOrder chain
      → Delivers stream chain (stream w) (read_chain dm so fd session chain w d)
  unfolding read_chain chain_bytes totals AllFull InOrder
  read_chain-Delivers [] w d f = ([], refl, (λ e. (refl, tt)), tt, refl)
  read_chain-Delivers (rb ∷ rbs) w d (i, f) =
      left (ltb rb.already rb.total) refl
        (λ w' d'. read_chain-Delivers rbs w' d' (AllFresh-InOrder rbs f))
    where
      Rest : Type 0
      Rest =
          (w' : W) (d' : D)
          → Delivers stream rbs (stream w') (read_chain dm so fd session rbs w' d')

      round : W × ReadBuffer × Result Receipt → Pass D W ReadBuffer
      round (w', rb', r) =
          after_read dm so fd session rb' rbs w' d r (read_chain dm so fd session rbs w')

      n : ℕ
      n = rb.total - rb.already

      w1 : W
      w1 = ((so.session session).recv_async n w).0

      ended :
          (r : Receipt) (b : Bool) (same : Bool)
          → (stored rb r.bytes).total == (stored rb r.bytes).already ≡ same
          → length r.bytes ≤ n
          → stream w ≡ r.bytes ++ stream w1
          → rb.already ≤ rb.total
          → Rest
          → Delivers stream (rb ∷ rbs) (stream w) (
              after_complete dm so fd session
                (stored rb r.bytes)
                rbs
                w1
                d
                (if b then throw value_error else ok same)
                (read_chain dm so fd session rbs w1))
      ended r true same e fits front within rest =
          stopped-Delivers rb (stored rb r.bytes) rbs (stream w) (throw value_error) w1 d []
            (moved rb rbs r.bytes (stream w) (stream w1) i f (omega arith) front) (λ x. cc) refl
      ended r false false e fits front within rest =
          stopped-Delivers rb (stored rb r.bytes) rbs (stream w) (ok tt) w1 d []
            (moved rb rbs r.bytes (stream w) (stream w1) i f (omega arith) front)
            (λ x. (refl, stored-IsReadBuffer rb r.bytes i (omega arith), f)) refl
      ended r false true e fits front within rest =
          completed-Delivers (stored rb r.bytes) (rb ∷ rbs) rbs (stream w) (stream w1)
            (read_chain dm so fd session rbs w1
              (if is_last rbs then dm.del_event fd cfev_read d else d))
            (moved rb rbs r.bytes (stream w) (stream w1) i f (omega arith) front) (ground arith)
            refl (rest w1 (if is_last rbs then dm.del_event fd cfev_read d else d))

      got :
          (r : Result Receipt)
          → ((so.session session).recv_async n w).1 ≡ r
          → ltb rb.already rb.total ≡ true
          → Rest
          → Delivers stream (rb ∷ rbs) (stream w) (round (received rb (w1, r)))
      got (throw x) e h rest =
          let l = o.loses n w x e in
          stopped-Delivers rb rb rbs (stream w) (throw x) w1 d l.0
            (append_assoc (contents rb) (chain_bytes rbs) (stream w)
              ∙ ap (λ s. contents rb ++ (chain_bytes rbs ++ s)) l.1)
            (λ y. cc) refl
      got (ok r) e h rest =
          let g = o.gives n w r e in
          let within : rb.already ≤ rb.total = i.within in
          if_both (Delivers {D = D} stream (rb ∷ rbs) (stream w)) r.peer_closed
            (stopped-Delivers rb (stored rb r.bytes) rbs (stream w) (ok tt) w1
              (dm.del_event fd cfev_read d) []
              (moved rb rbs r.bytes (stream w) (stream w1) i f (omega (arith, g.0)) g.1)
              (λ x. (refl, stored-IsReadBuffer rb r.bytes i (omega (arith, g.0)), f)) refl)
            (ended r (rb.total == 0) (rb.total == (stored rb r.bytes).already) refl g.0 g.1 within
              rest)

      left :
          (b : Bool)
          → ltb rb.already rb.total ≡ b
          → Rest
          → Delivers stream
              (rb ∷ rbs)
              (stream w)
              (round (read_up_to (so.session session) rb w (if b then ok n else throw value_error)))
      left false e rest =
          stopped-Delivers rb rb rbs (stream w) (throw value_error) w d []
            (append_assoc (contents rb) (chain_bytes rbs) (stream w)) (λ x. cc) refl
      left true e rest = got ((so.session session).recv_async n w).1 refl e rest
