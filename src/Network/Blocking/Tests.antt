-- ===== src/Network/Blocking/Tests.antt =====
-- A socket that is always ready, whose system calls take 300 microseconds each, and that moves two
-- bytes at a time.
use cppfastdevelop.Prelude.{
  ℕ, ◌+◌, ◌-◌, ◌/◌, ◌%◌, ◌≡◌, refl, sym, ap, ◌∙◌, true, false, some, List, [], ◌∷◌, ◌++◌, length,
  length-take, take, take-append-drop, drop, pos, ◌-ℤ◌, to_int32, arith,
}
use cppfastdevelop.Network.Blocking.{
  ready, Calls, returned, send_segment_sync, send_sync_loop, recv_segment_sync, recv_sync_loop,
  time_left, milliseconds,
}
use cppfastdevelop.Network.Blocking.Laws.{IsSink, IsSource}
use cppfastdevelop.Network.Blocking.Sending.{Sends, send_segment_sync-Sends}
use cppfastdevelop.Network.Blocking.Receiving.{Receives, recv_segment_sync-Receives}

-- The microseconds that have passed, and the bytes on the way.
abbrev State : Type 0
State = ℕ × List ℕ

abbrev at_most_two : ℕ → ℕ
at_most_two n = n - (n - 2)

abbrev socket : Calls State
socket = record {
  clock = λ s. (s, (s.0 / 1000000, s.0 % 1000000));
  poll = λ t s. ((s.0 + 300, s.1), ready);
  write = λ bs s.
      ((s.0 + 300, s.1 ++ take (at_most_two (length bs)) bs), some (at_most_two (length bs)));
  read = λ n s. ((s.0 + 300, drop (at_most_two n) s.1), some (take (at_most_two n) s.1));
}

some_inj : {A : Type 0} {a b : A} → some a ≡ some b → a ≡ b
some_inj e = cc

socket-IsSink : IsSink socket (λ s. s.1)
socket-IsSink = record {
  clock_keeps = λ s. refl;
  poll_keeps = λ t s. refl;
  takes = λ bs s n z e.
      let f : at_most_two (length bs) ≡ n = some_inj e in
      (omega arith, omega arith, ap (λ m. s.1 ++ take m bs) f);
  breaks = λ bs s e. absurd (cc);
}

socket-IsSource : IsSource socket (λ s. s.1)
socket-IsSource = record {
  clock_keeps = λ s. refl;
  poll_keeps = λ t s. refl;
  gives = λ n s bs e.
      let f : take (at_most_two n) s.1 ≡ bs = some_inj e in
      (
        omega (arith, ap length f, length-take (at_most_two n) s.1),
        sym (take-append-drop (at_most_two n) s.1) ∙ ap (λ x. x ++ drop (at_most_two n) s.1) f,
      );
  breaks = λ n s e. absurd (cc);
}

abbrev three : List ℕ
three = 1 ∷ 2 ∷ 3 ∷ []

sends_three :
    send_segment_sync socket (pos 5000) (pos 4) three 0 (0, []) ≡ ((1200, three), returned true 3)
unfolding send_sync_loop to_int32 ◌-ℤ◌
sends_three = refl

-- The time is up behind the last byte: all are sent, and the result says that they are not.
sends_late :
    send_segment_sync socket (pos 600) (pos 4) (1 ∷ 2 ∷ []) 0 (0, [])
    ≡ ((600, 1 ∷ 2 ∷ []), returned false 2)
unfolding send_sync_loop to_int32 ◌-ℤ◌
sends_late = refl

-- From 0.000999 to 0.001001 seconds, the code finds that 998 milliseconds are gained.
time_gained : time_left (pos 10) (milliseconds (0, 999)) (milliseconds (0, 1001)) ≡ pos 1008
unfolding to_int32 ◌-ℤ◌
time_gained = refl

receives_three :
    recv_segment_sync socket
      (pos 5000)
      (pos 4)
      3
      (record { bytes = []; peer_closed = false })
      (0, 1 ∷ 2 ∷ 3 ∷ 4 ∷ [])
    ≡ ((1200, 4 ∷ []), returned true (record { bytes = three; peer_closed = false }))
unfolding recv_sync_loop to_int32 ◌-ℤ◌
receives_three = refl

send_segment_sync-Sends_example :
    Sends socket-IsSink three 0
      (0, [])
      (send_segment_sync socket (pos 5000) (pos 4) three 0 (0, []))
send_segment_sync-Sends_example =
    send_segment_sync-Sends socket-IsSink (pos 5000) (pos 4) three 0 (0, []) (omega arith)

recv_segment_sync-Receives_example :
    Receives socket-IsSource 3 []
      (0, 1 ∷ 2 ∷ 3 ∷ 4 ∷ [])
      (recv_segment_sync socket
        (pos 5000)
        (pos 4)
        3
        (record { bytes = []; peer_closed = false })
        (0, 1 ∷ 2 ∷ 3 ∷ 4 ∷ []))
recv_segment_sync-Receives_example =
    recv_segment_sync-Receives socket-IsSource (pos 5000) (pos 4) 3
      (record { bytes = []; peer_closed = false }) (0, 1 ∷ 2 ∷ 3 ∷ 4 ∷ []) (omega arith)
