-- ===== src/Network/Segment/Tests.antt =====
-- A socket that takes and gives two bytes at a time, and the transfers on it.
use cppfastdevelop.Prelude.{
  ℕ, ◌-◌, ◌≡◌, refl, sym, ap, ◌∙◌, false, true, List, [], ◌∷◌, ◌++◌, length, length-take, take,
  drop, take-append-drop, pos, negsuc, to_int32, arith,
}
use cppfastdevelop.Network.Segment.{
  SendEnd, sent, RecvEnd, got, done, send_segment_async, send_loop, recv_segment_async, recv_loop,
}
use cppfastdevelop.Network.Segment.Laws.{IsSource, ReceivesCounted, recv_segment_async-Receives}

abbrev at_most_two : ℕ → ℕ
at_most_two n = n - (n - 2)

abbrev trickle : List ℕ → ℕ → List ℕ × RecvEnd
trickle s n = (drop (at_most_two n) s, got (take (at_most_two n) s))

abbrev bytes_of : RecvEnd → List ℕ
bytes_of (got bs) = bs
bytes_of RecvEnd.would_block = []
bytes_of RecvEnd.broken = []

trickle-IsSource : IsSource trickle (λ s. s)
trickle-IsSource = record {
  gives = λ s n bs e.
      let f : take (at_most_two n) s ≡ bs = ap bytes_of e in
      (
        omega (arith, ap length f, length-take (at_most_two n) s),
        sym (take-append-drop (at_most_two n) s) ∙ ap (λ x. x ++ drop (at_most_two n) s) f,
      );
  blocks = λ s n e. cc;
  breaks = λ s n e. cc;
}

abbrev swallow : List ℕ → List ℕ → List ℕ × SendEnd
swallow s bs = (s ++ take (at_most_two (length bs)) bs, sent (at_most_two (length bs)))

abbrev count_of : SendEnd → ℕ
count_of (sent n) = n
count_of SendEnd.would_block = 0
count_of SendEnd.broken = 0

abbrev stream : List ℕ
stream = 1 ∷ 2 ∷ 3 ∷ 4 ∷ 5 ∷ []

recv_four :
    recv_segment_async trickle (negsuc 0) 4 stream
    ≡ (5 ∷ [], done (record { bytes = 1 ∷ 2 ∷ 3 ∷ 4 ∷ []; peer_closed = false }, pos 4))
unfolding recv_segment_async recv_loop to_int32
recv_four = refl

recv_past_end :
    recv_segment_async trickle (negsuc 0) 9 stream
    ≡ ([], done (record { bytes = stream; peer_closed = true }, pos 5))
unfolding recv_segment_async recv_loop to_int32
recv_past_end = refl

send_all : send_segment_async swallow (negsuc 0) stream [] ≡ (stream, done (pos 5))
unfolding send_segment_async send_loop to_int32
send_all = refl

recv_segment_async-Receives_example :
    ReceivesCounted trickle-IsSource 4 stream (recv_segment_async trickle (negsuc 0) 4 stream)
recv_segment_async-Receives_example =
    recv_segment_async-Receives trickle-IsSource (negsuc 0) 4 stream (omega arith)
