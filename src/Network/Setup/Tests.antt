-- ===== src/Network/Setup/Tests.antt =====
-- A system that gives descriptors in turn, where the second `connect` and every `F_SETFL` fail.
use cppfastdevelop.Prelude.{ℕ, suc, ◌≡◌, refl, ap, true, false, some, List, [], ◌∷◌, length, ltb}
use cppfastdevelop.Network.Setup.{threw, some_bytes, Calls, create_server_socket}
use cppfastdevelop.Network.Setup.Descriptors.{IsSystem, OpensOne, create_server_socket-OpensOne}

abbrev rest_of : List ℕ → List ℕ
rest_of [] = []
rest_of (fd ∷ fds) = fds

-- The open descriptors, the last one first.
abbrev system : Calls (List ℕ)
system = record {
  socket = λ w. (suc (length w) ∷ w, some (suc (length w)));
  reuse_address = λ fd w. (w, true);
  bind = λ fd w. (w, true);
  listen = λ fd w. (w, false);
  connect = λ fd w. (w, ltb fd 2);
  close = λ fd w. rest_of w;
  unlink = λ w. (w, true);
  getfl = λ fd w. (w, some false);
  setfl = λ fd b w. (w, false);
  peek = λ fd w. (w, some_bytes);
}

some_inj : {a b : ℕ} → some a ≡ some b → a ≡ b
some_inj e = cc

system-IsSystem : IsSystem system (λ w. w)
system-IsSystem = record {
  opens = λ w fd e. ap (λ n. n ∷ w) (some_inj e);
  opens_none = λ w e. absurd (cc);
  closes = λ w fd fds e. ap rest_of e;
  option_keeps = λ fd w. refl;
  bind_keeps = λ fd w. refl;
  listen_keeps = λ fd w. refl;
  connect_keeps = λ fd w. refl;
}

-- Where `SetBlocking` throws, the new socket is left open.
nonblocking_leaks : create_server_socket system true false [] ≡ (1 ∷ [], threw)
nonblocking_leaks = refl

create_server_socket-OpensOne_example :
    OpensOne system-IsSystem (5 ∷ []) (create_server_socket system true true (5 ∷ []))
create_server_socket-OpensOne_example = create_server_socket-OpensOne system-IsSystem true (5 ∷ [])
