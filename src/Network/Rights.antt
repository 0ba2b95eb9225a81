-- ===== src/Network/Rights.antt =====
-- `SendFds` and `RecvFds` of cf_network.cpp: descriptors passed to another process beside some
-- bytes.
--
-- The sizes of the control message, `CMSG_LEN` and `CMSG_SPACE` of so many descriptors, and
-- `sendmsg` and `recvmsg` are parameters.
pub mod Passing
mod Tests
use cppfastdevelop.Prelude.{
  ℕ, zero, suc, Bool, true, false, not, Option, none, some, List, [], ◌∷◌, ◌++◌, length, take, drop,
  leb, ◌==◌, if◌then◌else◌, ℤ, pos, negsuc,
}

abbrev pub send_fds_summax_small : ℕ
send_fds_summax_small = 16

abbrev pub send_fds_summax_large : ℕ
send_fds_summax_large = 128

-- A control message, with whether its level is SOL_SOCKET and its type SCM_RIGHTS.
pub record ControlMessage : Type 0 where
  pub cmsg_len : ℕ
  pub is_socket_level : Bool
  pub is_rights : Bool
  pub fds : List ℕ

-- What `recvmsg` gives: a result that is not positive, or a count of bytes with the control message.
pub data RecvmsgEnd : Type 0 where
  nothing : ℤ → RecvmsgEnd
  got : ℕ → Option ControlMessage → RecvmsgEnd

pub record Calls (W : Type 0) : Type 0 where
  pub cmsg_len_of : ℕ → ℕ
  pub cmsg_space_of : ℕ → ℕ
  pub sendmsg : ℕ → ControlMessage → List ℕ → W → W × ℤ
  pub recvmsg : ℕ → ℕ → W → W × RecvmsgEnd

-- A call returns, or throws `ValueError`.
pub data Outcome (B : Type 0) : Type 0 where
  returned : B → Outcome B
  value_error : Outcome B

-- The array of the caller, with its first elements written.
abbrev pub write_fds : List ℤ → List ℤ → List ℤ
write_fds fds array = fds ++ drop (length fds) array

unfoldable pub as_fds : List ℕ → List ℤ
as_fds [] = []
as_fds (fd ∷ fds) = pos fd ∷ as_fds fds

module _ {W : Type 0} (sys : Calls W) where
  -- The size of the buffer for the control message.
  abbrev pub control_size : ℕ → Option ℕ
  control_size fdarraylen =
      if fdarraylen == 1
      then some (sys.cmsg_space_of 1)
      else (if leb fdarraylen send_fds_summax_small
          then some (sys.cmsg_space_of send_fds_summax_small)
          else (if leb fdarraylen send_fds_summax_large
              then some (sys.cmsg_space_of send_fds_summax_large)
              else none))

  abbrev pub rights : List ℕ → ControlMessage
  rights fds = record {
    cmsg_len = sys.cmsg_len_of (length fds);
    is_socket_level = true;
    is_rights = true;
    fds = fds;
  }

  abbrev pub send_sized : List ℕ → List ℕ → Option ℕ → W → W × Outcome ℤ
  send_sized fds data_extra none w = (w, value_error)
  send_sized fds data_extra (some size) w = (
    (sys.sendmsg size (rights fds) data_extra w).0,
    returned (sys.sendmsg size (rights fds) data_extra w).1,
  )

  abbrev pub send_fds : List ℕ → List ℕ → W → W × Outcome ℤ
  send_fds fds data_extra w = send_sized fds data_extra (control_size (length fds)) w

  -- `RecvFds` behind `recvmsg`: the array and the result.
  abbrev pub unpacked : ℕ → List ℤ → ℕ → Option ControlMessage → List ℤ × ℤ
  unpacked fdarraylen array n none = (write_fds (negsuc 0 ∷ []) array, pos n)
  unpacked fdarraylen array n (some c) =
      if c.cmsg_len == sys.cmsg_len_of fdarraylen
      then (if not c.is_socket_level
          then (array, negsuc 0)
          else (if not c.is_rights
              then (array, negsuc 1)
              else (write_fds (as_fds (take fdarraylen c.fds)) array, pos n)))
      else (write_fds (negsuc 0 ∷ []) array, pos n)

  abbrev pub after_recvmsg : ℕ → List ℤ → W × RecvmsgEnd → W × Outcome (List ℤ × ℤ)
  after_recvmsg fdarraylen array (w, nothing n) = (w, returned (array, n))
  after_recvmsg fdarraylen array (w, got n c) = (w, returned (unpacked fdarraylen array n c))

  abbrev pub recv_sized : ℕ → List ℤ → ℕ → Option ℕ → W → W × Outcome (List ℤ × ℤ)
  recv_sized fdarraylen array bytes none w = (w, value_error)
  recv_sized fdarraylen array bytes (some size) w =
      after_recvmsg fdarraylen array (sys.recvmsg size bytes w)

  abbrev pub recv_fds : ℕ → List ℤ → ℕ → W → W × Outcome (List ℤ × ℤ)
  recv_fds fdarraylen array bytes w = recv_sized fdarraylen array bytes (control_size fdarraylen) w
