-- ===== src/Ipc/Pipe.antt =====
-- `SocketpairPipe` of cppfoundation/include/cppfoundation/cf_ipc.hpp, and `Pipe` over it, which
-- passes its calls on.
use cppfastdevelop.Prelude.{ℕ, zero, suc, Bool, Option, none, some, ℤ, pos, negsuc, if◌then◌else◌}
use cppfastdevelop.Ipc.SharedMemory.{Outcome, returned, threw, value_error, syscall_execute_error}

-- `socketpair` of a type gives two descriptors, or none for -1.
pub record PipeCalls (W : Type 0) : Type 0 where
  pub socketpair : ℕ → W → W × Option (ℕ × ℕ)
  pub close : ℕ → W → W

pub record SocketpairPipe : Type 0 where
  pub fd0 : ℕ
  pub fd1 : ℕ
  pub auto_close : Bool

module _ {W : Type 0} (sys : PipeCalls W) where
  abbrev pub paired : Bool → W × Option (ℕ × ℕ) → W × Outcome SocketpairPipe
  paired auto_close (w, none) = (w, threw syscall_execute_error)
  paired auto_close (w, some (a, b)) =
      (w, returned (record { fd0 = a; fd1 = b; auto_close = auto_close }))

  abbrev pub make_pipe : ℕ → Bool → W → W × Outcome SocketpairPipe
  make_pipe type auto_close w = paired auto_close (sys.socketpair type w)

  abbrev pub destroy_pipe : SocketpairPipe → W → W
  destroy_pipe o w = if o.auto_close then sys.close o.fd1 (sys.close o.fd0 w) else w

-- `operator[]`.
abbrev pub index_pipe : ℤ → SocketpairPipe → Outcome ℕ
index_pipe (pos zero) o = returned o.fd0
index_pipe (pos (suc zero)) o = returned o.fd1
index_pipe (pos (suc (suc n))) o = threw value_error
index_pipe (negsuc n) o = threw value_error
