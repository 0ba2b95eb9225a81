-- ===== src/Network/Segment/Laws.antt =====
-- What the transfers of cf_network.cpp move, given what the manual says of `send` and `recv`.
use cppfastdevelop.Prelude.{
  ℕ, zero, suc, ◌+◌, ◌-◌, ◌^◌, ◌≤◌, ◌<◌, ◌≡◌, refl, sym, ap, ◌∙◌, true, List, [], ◌∷◌, ◌++◌,
  append-nil, append_assoc, length, length-append, length-take, length-drop, take-add, take-take,
  take, drop, ℤ, pos, negsuc, to_int32, arith,
}
use cppfastdevelop.Network.Segment.{
  SendEnd, sent, RecvEnd, got, Moved, done, failed, unfinished, converted, segment, send_loop,
  send_segment_async, Received, after_send, after_recv, recv_loop, recv_segment_async,
}

-- The manual on `send`: it takes at least one byte and at most those given, from their front, or
-- none. `taken` is what it has taken so far.
pub record IsSink {S : Type 0} (send : S → List ℕ → S × SendEnd) (taken : S → List ℕ) : Type 0 where
  pub takes :
      (s : S) (bs : List ℕ) (n : ℕ)
      → 0 < length bs
      → (send s bs).1 ≡ sent n
      → (0 < n) × (n ≤ length bs) × (taken (send s bs).0 ≡ taken s ++ take n bs)
  pub blocks :
      (s : S) (bs : List ℕ) → (send s bs).1 ≡ SendEnd.would_block → taken (send s bs).0 ≡ taken s
  pub breaks :
      (s : S) (bs : List ℕ) → (send s bs).1 ≡ SendEnd.broken → taken (send s bs).0 ≡ taken s

-- The manual on `recv`: it gives at most as many bytes as asked for, off the front of what the
-- peer has sent, which is `stream`.
pub record IsSource {S : Type 0} (recv : S → ℕ → S × RecvEnd) (stream : S → List ℕ) : Type 0 where
  pub gives :
      (s : S) (n : ℕ) (bs : List ℕ)
      → (recv s n).1 ≡ got bs
      → (length bs ≤ n) × (stream s ≡ bs ++ stream (recv s n).0)
  pub blocks : (s : S) (n : ℕ) → (recv s n).1 ≡ RecvEnd.would_block → stream (recv s n).0 ≡ stream s
  pub breaks : (s : S) (n : ℕ) → (recv s n).1 ≡ RecvEnd.broken → stream (recv s n).0 ≡ stream s

pub segment-le : (k : ℤ) (n : ℕ) → segment k n ≤ n
segment-le (pos k) n = ground arith
segment-le (negsuc k) n = omega arith

pub segment-pos : (k : ℤ) (n : ℕ) → 0 < n → 0 < segment k n
segment-pos (pos k) n h = ground arith
segment-pos (negsuc k) n h = h

module _ {S : Type 0} {recv : S → ℕ → S × RecvEnd} {stream : S → List ℕ}
    (o : IsSource recv stream) where
  -- What a receive of at most `n` bytes more, with `already` stored, may come to from the state `s`.
  abbrev pub Receives : ℕ → List ℕ → S → S × Moved Received → Type 0
  Receives n already s (s', done r) =
      (more : List ℕ) × (r.bytes ≡ already ++ more)
      × (length more ≤ n)
      × (stream s ≡ more ++ stream s')
      × (r.peer_closed ≡ true → length more < n)
  Receives n already s (s', failed) = (lost : List ℕ) × (stream s ≡ lost ++ stream s')
  Receives n already s (s', unfinished) = ⊥

  -- A piece `bs`, and what the rounds behind it come to.
  joined :
      (bs : List ℕ) (n : ℕ) (already : List ℕ) (s t : S)
      → length bs ≤ n
      → stream s ≡ bs ++ stream t
      → (e : S × Moved Received) → Receives (n - length bs) (already ++ bs) t e
      → Receives n already s e
  joined bs n already s t fits front (s', done r) (more, stored, within, rest, ended) = (
    bs ++ more,
    stored ∙ append_assoc already bs more,
    omega (arith, length-append bs more),
    front ∙ ap (◌++◌ bs) rest ∙ sym (append_assoc bs more (stream s')),
    λ c. let w = ended c in omega (arith, length-append bs more, w),
  )
  joined bs n already s t fits front (s', failed) (lost, rest) =
      (bs ++ lost, front ∙ ap (◌++◌ bs) rest ∙ sym (append_assoc bs lost (stream s')))
  joined bs n already s t fits front (s', unfinished) h = h

  recv_loop-Receives :
      (fuel : ℕ) (segsize : ℤ) (n : ℕ) (already : List ℕ) (s : S)
      → n ≤ fuel
      → Receives n already s (recv_loop recv fuel segsize n already s)
  unfolding recv_loop
  recv_loop-Receives zero segsize zero already s h =
      ([], sym (append-nil already), omega arith, refl, λ e. cc)
  recv_loop-Receives zero segsize (suc n) already s h = absurd (omega arith)
  recv_loop-Receives (suc fuel) segsize zero already s h =
      ([], sym (append-nil already), omega arith, refl, λ e. cc)
  recv_loop-Receives (suc fuel) segsize (suc n) already s h = step (recv s k).1 refl (λ bs p.
      recv_loop-Receives fuel segsize (suc n - length bs) (already ++ bs) (recv s k).0
        (omega arith))
    where
      k : ℕ
      k = segment segsize (suc n)

      step :
          (r : RecvEnd)
          → (recv s k).1 ≡ r
          → ((bs : List ℕ)
              → 0 < length bs
              → Receives
                  (suc n - length bs)
                  (already ++ bs)
                  (recv s k).0
                  (recv_loop recv fuel segsize (suc n - length bs) (already ++ bs) (recv s k).0))
          → Receives (suc n) already s (
              after_recv already
                (recv s k).0
                (λ bs. recv_loop recv fuel segsize (suc n - length bs) (already ++ bs) (recv s k).0)
                r)
      step (got []) e ih =
          ([], sym (append-nil already), omega arith, (o.gives s k [] e).1, λ x. omega arith)
      step (got (b ∷ bs)) e ih =
          let g = o.gives s k (b ∷ bs) e in
          joined (b ∷ bs) (suc n) already s (recv s k).0
            (omega (arith, g.0, segment-le segsize (suc n))) g.1 _ (ih (b ∷ bs) (omega arith))
      step RecvEnd.would_block e ih =
          ([], sym (append-nil already), omega arith, sym (o.blocks s k e), λ x. cc)
      step RecvEnd.broken e ih = ([], sym (o.breaks s k e))

  -- What a receive of at most `n` bytes comes to, with its result.
  abbrev pub ReceivesCounted : ℕ → S → S × Moved (Received × ℤ) → Type 0
  ReceivesCounted n s (s', done (r, count)) =
      (count ≡ pos (length r.bytes)) × Receives n [] s (s', done r)
  ReceivesCounted n s (s', failed) = Receives n [] s (s', failed)
  ReceivesCounted n s (s', unfinished) = ⊥

  counted :
      (n : ℕ) (s : S) (x : S × Moved Received)
      → n < 2 ^ 31
      → Receives n [] s x
      → ReceivesCounted n s (converted (λ r. (r, to_int32 (pos (length r.bytes)))) x)
  unfolding to_int32
  counted n s (s', done r) small h =
      let l : length r.bytes < 2 ^ 31 = omega (arith, ap length h.1, h.2) in (ground (arith, l), h)
  counted n s (s', failed) small h = h
  counted n s (s', unfinished) small h = h

  -- A receive of at most `total_len` bytes, fewer than 2^31, ends. What it stores is the front of
  -- the stream, in order and no longer than asked for, and shorter where it saw the peer's end; its
  -- result counts these bytes; what it throws away with an exception is a front of the stream too.
  pub recv_segment_async-Receives :
      (segsize : ℤ) (total_len : ℕ) (s : S)
      → total_len < 2 ^ 31
      → ReceivesCounted total_len s (recv_segment_async recv segsize total_len s)
  unfolding recv_segment_async
  recv_segment_async-Receives segsize total_len s small =
      counted total_len s (recv_loop recv total_len segsize total_len [] s) small
        (recv_loop-Receives total_len segsize total_len [] s (omega arith))

module _ {S : Type 0} {send : S → List ℕ → S × SendEnd} {taken : S → List ℕ}
    (o : IsSink send taken) where
  -- What sending `left`, with `already` bytes sent, may come to from the state `s`.
  abbrev pub Sends : List ℕ → ℕ → S → S × Moved ℕ → Type 0
  Sends left already s (s', done k) =
      (j : ℕ) × (k ≡ already + j) × (j ≤ length left) × (taken s' ≡ taken s ++ take j left)
  Sends left already s (s', failed) =
      (j : ℕ) × (j ≤ length left) × (taken s' ≡ taken s ++ take j left)
  Sends left already s (s', unfinished) = ⊥

  Sends-more :
      (left : List ℕ) (n already : ℕ) (s t : S)
      → n ≤ length left
      → taken t ≡ taken s ++ take n left
      → (e : S × Moved ℕ) → Sends (drop n left) (already + n) t e
      → Sends left already s e
  Sends-more left n already s t fits front (s', done k) (j, sum, within, rest) = (
    n + j,
    omega arith,
    omega (arith, length-drop n left),
    rest
        ∙ rw front (append_assoc (taken s) (take n left) (take j (drop n left)))
        ∙ ap (◌++◌ (taken s)) (sym (take-add n j left)),
  )
  Sends-more left n already s t fits front (s', failed) (j, within, rest) = (
    n + j,
    omega (arith, length-drop n left),
    rest
        ∙ rw front (append_assoc (taken s) (take n left) (take j (drop n left)))
        ∙ ap (◌++◌ (taken s)) (sym (take-add n j left)),
  )
  Sends-more left n already s t fits front (s', unfinished) h = h

  send_loop-Sends :
      (fuel : ℕ) (segsize : ℤ) (left : List ℕ) (already : ℕ) (s : S)
      → length left ≤ fuel
      → Sends left already s (send_loop send fuel segsize left already s)
  unfolding send_loop
  send_loop-Sends zero segsize [] already s h =
      (0, omega arith, omega arith, sym (append-nil (taken s)))
  send_loop-Sends zero segsize (b ∷ bs) already s h = absurd (omega arith)
  send_loop-Sends (suc fuel) segsize [] already s h =
      (0, omega arith, omega arith, sym (append-nil (taken s)))
  send_loop-Sends (suc fuel) segsize (b ∷ bs) already s h = step (send s piece).1 refl (λ n p q.
      send_loop-Sends fuel segsize (drop n left) (already + n) (send s piece).0
        (omega (arith, length-drop n left)))
    where
      left : List ℕ
      left = b ∷ bs

      size : ℕ
      size = segment segsize (length left)

      piece : List ℕ
      piece = take size left

      step :
          (r : SendEnd)
          → (send s piece).1 ≡ r
          → ((n : ℕ)
              → 0 < n
              → n ≤ length left
              → Sends
                  (drop n left)
                  (already + n)
                  (send s piece).0
                  (send_loop send fuel segsize (drop n left) (already + n) (send s piece).0))
          → Sends left already s (
              after_send already
                (send s piece).0
                (λ n. send_loop send fuel segsize (drop n left) (already + n) (send s piece).0)
                r)
      step (sent n) e ih =
          let z : 0 < length piece =
            omega (arith, length-take size left, segment-pos segsize (length left)) in
          let t = o.takes s piece n z e in
          let m : n ≤ size = omega (arith, length-take size left, t.1) in
          let w : n ≤ length left = omega (arith, segment-le segsize (length left)) in
          Sends-more left n already s (send s piece).0 w
            (t.2 ∙ ap (◌++◌ (taken s)) (take-take n size left m)) _ (ih n t.0 w)
      step SendEnd.would_block e ih =
          (0, omega arith, omega arith, o.blocks s piece e ∙ sym (append-nil (taken s)))
      step SendEnd.broken e ih = (0, omega arith, o.breaks s piece e ∙ sym (append-nil (taken s)))

  -- What sending `buf` comes to, with its result.
  abbrev pub SendsCounted : List ℕ → S → S × Moved ℤ → Type 0
  SendsCounted buf s (s', done count) = (k : ℕ) × (count ≡ pos k) × Sends buf 0 s (s', done k)
  SendsCounted buf s (s', failed) = Sends buf 0 s (s', failed)
  SendsCounted buf s (s', unfinished) = ⊥

  sent_counted :
      (buf : List ℕ) (s : S) (x : S × Moved ℕ)
      → length buf < 2 ^ 31
      → Sends buf 0 s x
      → SendsCounted buf s (converted (λ n. to_int32 (pos n)) x)
  unfolding to_int32
  sent_counted buf s (s', done k) small h =
      let l : k < 2 ^ 31 = omega (arith, h.1, h.2) in (k, ground (arith, l), h)
  sent_counted buf s (s', failed) small h = h
  sent_counted buf s (s', unfinished) small h = h

  -- A send of fewer than 2^31 bytes ends, and the peer is sent exactly the front of the buffer that
  -- the result counts; where it throws, some front of the buffer has been sent.
  pub send_segment_async-Sends :
      (segsize : ℤ) (buf : List ℕ) (s : S)
      → length buf < 2 ^ 31
      → SendsCounted buf s (send_segment_async send segsize buf s)
  unfolding send_segment_async
  send_segment_async-Sends segsize buf s small =
      sent_counted buf s (send_loop send (length buf) segsize buf 0 s) small
        (send_loop-Sends (length buf) segsize buf 0 s (omega arith))
