-- ===== src/Network/Setup.antt =====
-- Making and asking sockets in cf_network.cpp: SetBlocking, CreateServerSocket,
-- CreateLocalServerSocket, IsSocketBroken and ConnectToServer. Addresses are left to the system
-- calls, which are parameters.
pub mod Descriptors
mod Tests
use cppfastdevelop.Prelude.{
  ℕ, zero, suc, Bool, true, false, not, ◌&&◌, Option, none, some, List, [], ◌∷◌, ◌++◌, ltb, ◌==◌,
  if◌then◌else◌,
}

-- A call returns a value, or throws `SyscallExecuteError`.
pub data Outcome (B : Type 0) : Type 0 where
  returned : B → Outcome B
  threw : Outcome B

-- What `recv` with MSG_PEEK gives: no byte, an error that says to try again, another one, or bytes.
pub data PeekEnd : Type 0 where
  no_byte again error_other some_bytes : PeekEnd

-- `socket` gives a descriptor or -1, and the other calls 0 or -1, here as a Boolean; F_GETFL and
-- F_SETFL are asked for, and set, O_NONBLOCK.
pub record Calls (W : Type 0) : Type 0 where
  pub socket : W → W × Option ℕ
  pub reuse_address : ℕ → W → W × Bool
  pub bind : ℕ → W → W × Bool
  pub listen : ℕ → W → W × Bool
  pub connect : ℕ → W → W × Bool
  pub close : ℕ → W → W
  pub unlink : W → W × Bool
  pub getfl : ℕ → W → W × Option Bool
  pub setfl : ℕ → Bool → W → W × Bool
  pub peek : ℕ → W → W × PeekEnd

module _ {W : Type 0} (sys : Calls W) where
  abbrev pub checked : W × Bool → W × Outcome (Unit {0})
  checked (w, true) = (w, returned tt)
  checked (w, false) = (w, threw)

  abbrev pub set_mode : ℕ → Bool → W × Option Bool → W × Outcome (Unit {0})
  set_mode fd blocking (w, none) = (w, threw)
  set_mode fd blocking (w, some nonblock) = checked (
      if nonblock && blocking
      then sys.setfl fd false w
      else (if not nonblock && not blocking then sys.setfl fd true w else (w, true)))

  abbrev pub set_blocking : ℕ → Bool → W → W × Outcome (Unit {0})
  set_blocking fd blocking w = set_mode fd blocking (sys.getfl fd w)

  -- The steps of `CreateServerSocket`, each with what the one before gave.
  abbrev pub after_listen : ℕ → W × Bool → W × Outcome ℕ
  after_listen fd (w, true) = (w, returned fd)
  after_listen fd (w, false) = (sys.close fd w, threw)

  abbrev pub after_mode : ℕ → W × Outcome (Unit {0}) → W × Outcome ℕ
  after_mode fd (w, returned u) = after_listen fd (sys.listen fd w)
  after_mode fd (w, threw) = (w, threw)

  abbrev pub after_bind : Bool → ℕ → W × Bool → W × Outcome ℕ
  after_bind blocking fd (w, false) = (sys.close fd w, threw)
  after_bind blocking fd (w, true) =
      after_mode fd
        (if ltb 0 fd && not blocking then set_blocking fd blocking w else (w, returned tt))

  abbrev pub after_option : Bool → ℕ → W × Bool → W × Outcome ℕ
  after_option blocking fd (w, false) = (sys.close fd w, threw)
  after_option blocking fd (w, true) = after_bind blocking fd (sys.bind fd w)

  abbrev pub after_socket : Bool → Bool → W × Option ℕ → W × Outcome ℕ
  after_socket reuse blocking (w, none) = (w, threw)
  after_socket reuse blocking (w, some fd) =
      after_option blocking fd (if reuse then sys.reuse_address fd w else (w, true))

  abbrev pub create_server_socket : Bool → Bool → W → W × Outcome ℕ
  create_server_socket reuse blocking w = after_socket reuse blocking (sys.socket w)

  -- `CreateLocalServerSocket`: the test of the descriptor is for 0.
  abbrev pub local_listen : ℕ → W × Bool → W × Outcome ℕ
  local_listen fd (w, true) = (w, returned fd)
  local_listen fd (w, false) = (w, threw)

  abbrev pub local_bind : ℕ → W × Bool → W × Outcome ℕ
  local_bind fd (w, true) = local_listen fd (sys.listen fd w)
  local_bind fd (w, false) = (w, threw)

  abbrev pub local_unlink : ℕ → W × Bool → W × Outcome ℕ
  local_unlink fd (w, true) = local_bind fd (sys.bind fd w)
  local_unlink fd (w, false) = (w, threw)

  abbrev pub local_socket : W × Option ℕ → W × Outcome ℕ
  local_socket (w, none) = (w, threw)
  local_socket (w, some zero) = local_unlink 0 (sys.unlink w)
  local_socket (w, some (suc fd)) = (w, threw)

  abbrev pub create_local_server_socket : W → W × Outcome ℕ
  create_local_server_socket w = local_socket (sys.socket w)

  abbrev pub is_broken : PeekEnd → Bool
  is_broken no_byte = true
  is_broken again = false
  is_broken error_other = true
  is_broken some_bytes = false

  -- The flags that `F_GETFL` gave are set again; none are looked at.
  abbrev pub peeked : ℕ → Bool → W × PeekEnd → W × Bool
  peeked fd flags (w, e) = ((sys.setfl fd flags w).0, is_broken e)

  abbrev pub peek_with : ℕ → W × Option Bool → W × Bool
  peek_with fd (w, none) = peeked fd true (sys.peek fd (sys.setfl fd true w).0)
  peek_with fd (w, some flags) = peeked fd flags (sys.peek fd (sys.setfl fd true w).0)

  abbrev pub is_socket_broken : ℕ → W → W × Bool
  is_socket_broken fd w = peek_with fd (sys.getfl fd w)

  -- The loop of `ConnectToServer`, with `left` connections to make; `next` are the rounds behind one.
  abbrev pub after_connect :
      ℕ
      → List ℕ
      → (List ℕ → W → W × List ℕ × Outcome (Unit {0}))
      → W × Bool
      → W × List ℕ × Outcome (Unit {0})
  after_connect fd clientfds next (w, true) = next (clientfds ++ fd ∷ []) w
  after_connect fd clientfds next (w, false) = (w, clientfds, threw)

  abbrev pub connect_socket :
      List ℕ
      → (List ℕ → W → W × List ℕ × Outcome (Unit {0}))
      → W × Option ℕ
      → W × List ℕ × Outcome (Unit {0})
  connect_socket clientfds next (w, none) = (w, clientfds, threw)
  connect_socket clientfds next (w, some fd) = after_connect fd clientfds next (sys.connect fd w)

  unfoldable pub connect_to_server : ℕ → List ℕ → W → W × List ℕ × Outcome (Unit {0})
  connect_to_server zero clientfds w = (w, clientfds, returned tt)
  connect_to_server (suc left) clientfds w =
      connect_socket clientfds (connect_to_server left) (sys.socket w)
