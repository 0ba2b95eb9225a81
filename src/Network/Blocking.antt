-- ===== src/Network/Blocking.antt =====
-- `SendSegmentSync` and `RecvSegmentSync` of cf_network.cpp: transfers that wait for the socket,
-- until a time is up.
pub mod Laws
pub mod Sending
pub mod Receiving
mod Tests
use cppfastdevelop.Prelude.{
  ℕ, zero, suc, ◌+◌, ◌-◌, ◌*◌, ◌%◌, ◌^◌, Bool, true, false, List, [], ◌∷◌, ◌++◌, length, take, drop,
  Option, none, some, if◌then◌else◌, sub64, ℤ, pos, negsuc, ltb_ℤ, ◌-ℤ◌, to_int32,
}
use cppfastdevelop.Network.Segment.{segment, Received}

-- What `poll` comes to for one descriptor.
pub data PollEnd : Type 0 where
  ready timed_out broken : PollEnd

-- The system, in some state: the clock in seconds and microseconds, `poll` on the socket, and its
-- `write` and `read`, where `none` is -1.
pub record Calls (S : Type 0) : Type 0 where
  pub clock : S → S × (ℕ × ℕ)
  pub poll : ℤ → S → S × PollEnd
  pub write : List ℕ → S → S × Option ℕ
  pub read : ℕ → S → S × Option (List ℕ)

-- A transfer returns, or throws `SyscallExecuteError`, with what it has moved in either case; or its
-- loop is still going round when the fuel is spent.
pub data Transfer (A : Type 0) : Type 0 where
  returned : Bool → A → Transfer A
  failed : A → Transfer A
  unfinished : Transfer A

-- The milliseconds that the code computes from a clock.
abbrev pub milliseconds : ℕ × ℕ → ℕ
milliseconds (seconds, useconds) = (seconds * 1000 + useconds % 1000) % 2 ^ 64

-- `timeoutMilliSeconds -= (end-begin)`.
abbrev pub time_left : ℤ → ℕ → ℕ → ℤ
time_left timeout begin end = to_int32 (timeout -ℤ pos (sub64 end begin))

module _ {S : Type 0} (sys : Calls S) where
  -- `IOWaitting`.
  abbrev pub io_waiting : ℤ → S → S × PollEnd
  io_waiting timeout s = sys.poll (if ltb_ℤ timeout (pos 0) then negsuc 0 else timeout) s

  -- The end of a round behind its transfer: the time that has passed since `begin` is taken off.
  abbrev pub end_round :
      {A : Type 0} → ℕ → ℤ → A → (ℤ → S → S × Transfer A) → S × (ℕ × ℕ) → S × Transfer A
  end_round begin timeout has_done next (s, end) =
      let left = time_left timeout begin (milliseconds end) in
      if ltb_ℤ (pos 0) left then next left s else (s, returned false has_done)

  abbrev pub after_write : ℕ → ℤ → ℕ → (ℕ → ℤ → S → S × Transfer ℕ) → S × Option ℕ → S × Transfer ℕ
  after_write begin timeout has_done next (s, none) = (s, failed has_done)
  after_write begin timeout has_done next (s, some n) =
      end_round begin timeout (has_done + n) (next n) (sys.clock s)

  abbrev pub write_ready :
      ℕ → ℤ → List ℕ → ℕ → (ℕ → ℤ → S → S × Transfer ℕ) → S × PollEnd → S × Transfer ℕ
  write_ready begin timeout piece has_done next (s, timed_out) = (s, returned false has_done)
  write_ready begin timeout piece has_done next (s, broken) = (s, failed has_done)
  write_ready begin timeout piece has_done next (s, ready) =
      after_write begin timeout has_done next (sys.write piece s)

  -- The loop of `SendSegmentSync`, with `left` the bytes from `hasDone` on.
  unfoldable pub send_sync_loop : ℕ → ℤ → List ℕ → ℕ → ℤ → S → S × Transfer ℕ
  send_sync_loop zero segsize [] has_done timeout s = (s, returned true has_done)
  send_sync_loop zero segsize (b ∷ bs) has_done timeout s = (s, unfinished)
  send_sync_loop (suc fuel) segsize [] has_done timeout s = (s, returned true has_done)
  send_sync_loop (suc fuel) segsize (b ∷ bs) has_done timeout s =
      let left = b ∷ bs in
      let (s1, begin) = sys.clock s in
      write_ready (milliseconds begin) timeout (take (segment segsize (length left)) left) has_done
        (λ n time s'. send_sync_loop fuel segsize (drop n left) (has_done + n) time s')
        (io_waiting timeout s1)

  -- Where there is nothing to send, `hasDone` is left as the caller has it.
  abbrev pub send_segment_sync : ℤ → ℤ → List ℕ → ℕ → S → S × Transfer ℕ
  send_segment_sync timeout segsize [] has_done s = (s, returned true has_done)
  send_segment_sync timeout segsize (b ∷ bs) has_done s =
      send_sync_loop (length (b ∷ bs)) segsize (b ∷ bs) 0 timeout s

  abbrev pub open_with : List ℕ → Received
  open_with bytes = record { bytes = bytes; peer_closed = false }

  abbrev pub after_read :
      ℕ
      → ℤ
      → List ℕ
      → (List ℕ → ℤ → S → S × Transfer Received)
      → S × Option (List ℕ)
      → S × Transfer Received
  after_read begin timeout already next (s, none) = (s, failed (open_with already))
  after_read begin timeout already next (s, some []) =
      (s, returned true (record { bytes = already; peer_closed = true }))
  after_read begin timeout already next (s, some (b ∷ bs)) =
      end_round begin timeout (open_with (already ++ b ∷ bs)) (next (b ∷ bs)) (sys.clock s)

  abbrev pub read_ready :
      ℕ
      → ℤ
      → ℕ
      → List ℕ
      → (List ℕ → ℤ → S → S × Transfer Received)
      → S × PollEnd
      → S × Transfer Received
  read_ready begin timeout n already next (s, timed_out) = (s, returned false (open_with already))
  read_ready begin timeout n already next (s, broken) = (s, failed (open_with already))
  read_ready begin timeout n already next (s, ready) =
      after_read begin timeout already next (sys.read n s)

  -- The loop of `RecvSegmentSync`, with `left` bytes still to come.
  unfoldable pub recv_sync_loop : ℕ → ℤ → ℕ → List ℕ → ℤ → S → S × Transfer Received
  recv_sync_loop zero segsize zero already timeout s = (s, returned true (open_with already))
  recv_sync_loop zero segsize (suc n) already timeout s = (s, unfinished)
  recv_sync_loop (suc fuel) segsize zero already timeout s = (s, returned true (open_with already))
  recv_sync_loop (suc fuel) segsize (suc n) already timeout s =
      let left = suc n in
      let (s1, begin) = sys.clock s in
      read_ready (milliseconds begin) timeout (segment segsize left) already
        (λ bs time s'. recv_sync_loop fuel segsize (left - length bs) (already ++ bs) time s')
        (io_waiting timeout s1)

  -- Where no byte is asked for, the code leaves what the caller has.
  abbrev pub recv_segment_sync : ℤ → ℤ → ℕ → Received → S → S × Transfer Received
  recv_segment_sync timeout segsize zero r s = (s, returned true r)
  recv_segment_sync timeout segsize (suc n) r s =
      recv_sync_loop (suc n) segsize (suc n) [] timeout s
