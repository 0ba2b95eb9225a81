-- ===== src/Network/Segment.antt =====
-- `SendSegmentAsync` and `RecvSegmentAsync` of cf_network.cpp: one non-blocking transfer of at most
-- `totalLen` bytes, in segments of at most `segsize`.
pub mod Laws
mod Tests
use cppfastdevelop.Prelude.{
  ℕ, zero, suc, ◌+◌, ◌-◌, ◌≤◌, ◌<◌, ◌≡◌, Bool, true, false, ◌&&◌, List, [], ◌∷◌, ◌++◌, length, take,
  drop, ltb, ◌==◌, if◌then◌else◌, ℤ, pos, negsuc, to_int32,
}

-- What a non-blocking `send` gives: how many bytes it took, or an error, which is EAGAIN or not.
pub data SendEnd : Type 0 where
  sent : ℕ → SendEnd
  would_block broken : SendEnd

-- What a non-blocking `recv` gives: bytes, an error, or none at the end of the stream.
pub data RecvEnd : Type 0 where
  got : List ℕ → RecvEnd
  would_block broken : RecvEnd

-- A transfer returns, or throws `SyscallExecuteError`; or its loop is still going round when the
-- fuel is spent.
pub data Moved {ℓ} (A : Type ℓ) : Type ℓ where
  done : A → Moved A
  failed unfinished : Moved A

-- The result of a transfer, made of what its loop has counted.
abbrev pub converted : {S A B : Type 0} → (A → B) → S × Moved A → S × Moved B
converted f (s, done a) = (s, done (f a))
converted f (s, failed) = (s, failed)
converted f (s, unfinished) = (s, unfinished)

-- `lenLeft`, cut to the segment's size if there is one.
abbrev pub segment : ℤ → ℕ → ℕ
segment (pos k) left = if ltb 0 k && ltb k left then k else left
segment (negsuc k) left = left

-- The body of the sending loop behind the system call; `next` is the next round.
abbrev pub after_send : {S : Type 0} → ℕ → S → (ℕ → S × Moved ℕ) → SendEnd → S × Moved ℕ
after_send already s next (sent n) = next n
after_send already s next SendEnd.would_block = (s, done already)
after_send already s next SendEnd.broken = (s, failed)

-- A socket in some state, and the system call on it.
module _ {S : Type 0} (send : S → List ℕ → S × SendEnd) where
  -- The loop of `SendSegmentAsync`, with `left` the bytes from `alreadyDone` on. A `send` that takes
  -- no byte goes round again.
  unfoldable pub send_loop : ℕ → ℤ → List ℕ → ℕ → S → S × Moved ℕ
  send_loop zero segsize [] already s = (s, done already)
  send_loop zero segsize (b ∷ bs) already s = (s, unfinished)
  send_loop (suc fuel) segsize [] already s = (s, done already)
  send_loop (suc fuel) segsize (b ∷ bs) already s =
      let left = b ∷ bs in
      let (s', r) = send s (take (segment segsize (length left)) left) in
      after_send already s' (λ n. send_loop fuel segsize (drop n left) (already + n) s') r

  -- The result is `cf_int(alreadyDone)`.
  unfoldable pub send_segment_async : ℤ → List ℕ → S → S × Moved ℤ
  unfolding send_loop
  send_segment_async segsize buf s =
      converted (λ n. to_int32 (pos n)) (send_loop (length buf) segsize buf 0 s)

-- The bytes that a receive has stored, and `peerClosedWhenRead`.
pub record Received : Type 0 where
  pub bytes : List ℕ
  pub peer_closed : Bool

-- The same of the receiving loop: a piece with no byte is the end of the stream.
abbrev pub after_recv :
    {S : Type 0} → List ℕ → S → (List ℕ → S × Moved Received) → RecvEnd → S × Moved Received
after_recv already s next (got []) = (s, done (record { bytes = already; peer_closed = true }))
after_recv already s next (got (b ∷ bs)) = next (b ∷ bs)
after_recv already s next RecvEnd.would_block =
    (s, done (record { bytes = already; peer_closed = false }))
after_recv already s next RecvEnd.broken = (s, failed)

module _ {S : Type 0} (recv : S → ℕ → S × RecvEnd) where
  -- The loop of `RecvSegmentAsync`, with `left` bytes still to come.
  unfoldable pub recv_loop : ℕ → ℤ → ℕ → List ℕ → S → S × Moved Received
  recv_loop zero segsize zero already s =
      (s, done (record { bytes = already; peer_closed = false }))
  recv_loop zero segsize (suc n) already s = (s, unfinished)
  recv_loop (suc fuel) segsize zero already s =
      (s, done (record { bytes = already; peer_closed = false }))
  recv_loop (suc fuel) segsize (suc n) already s =
      let left = suc n in
      let (s', r) = recv s (segment segsize left) in
      after_recv already s' (λ bs. recv_loop fuel segsize (left - length bs) (already ++ bs) s') r

  -- What has been received, with the result `cf_int(alreadyDone)`. Where no byte is asked for, the
  -- code leaves `peerClosedWhenRead` as the caller set it, to false.
  unfoldable pub recv_segment_async : ℤ → ℕ → S → S × Moved (Received × ℤ)
  unfolding recv_loop
  recv_segment_async segsize total_len s =
      converted (λ r. (r, to_int32 (pos (length r.bytes))))
        (recv_loop total_len segsize total_len [] s)
