-- ===== src/CircularQueue/Meta.antt =====
-- `QMetaOp` of circularqueue/src/cl_queue_operation.cpp: the constructor that lays out a new
-- region, and the status flags.
use cppfastdevelop.Prelude.{
  ℕ, ◌-◌, ◌^◌, Bool, true, false, List, [], ◌∷◌, leb, ◌==◌, if◌then◌else◌, add64, sub64,
}
use cppfastdevelop.CircularQueue.Def.{
  QStatus, normal, stop2put, stop2put_and_get, QMeta, Shared, Layout, Result, ok, throw,
  size_too_small, syscall_execute_error,
}

-- What the three pthread calls that set up the mutex return, and those of the condition.
pub record SetupCalls : Type 0 where
  pub attr_init : ℕ
  pub attr_setpshared : ℕ
  pub object_init : ℕ

-- `initMutex`; `initCond` makes the same three calls on the condition.
unfoldable pub init_mutex : SetupCalls → Result (Unit {0})
init_mutex c =
    if c.attr_init == 0
    then if c.attr_setpshared == 0
      then if c.object_init == 0 then ok tt else throw syscall_execute_error
      else throw syscall_execute_error
    else throw syscall_execute_error

unfoldable pub init_cond : SetupCalls → Result (Unit {0})
init_cond c =
    if c.attr_init == 0
    then if c.attr_setpshared == 0
      then if c.object_init == 0 then ok tt else throw syscall_execute_error
      else throw syscall_execute_error
    else throw syscall_execute_error

-- "0CFD" and "0001".
abbrev pub magic_bytes : List ℕ
magic_bytes = b'0' ∷ b'C' ∷ b'F' ∷ b'D' ∷ []

abbrev pub version_bytes : List ℕ
version_bytes = b'0' ∷ b'0' ∷ b'0' ∷ b'1' ∷ []

-- The header after the assignments that stand before `initMutex()`.
abbrev pub laid_out : Layout → ℕ → QMeta
laid_out l mem_size = record {
  magic = magic_bytes;
  version = version_bytes;
  q_total_size = sub64 mem_size l.meta_size;
  q_left_size = sub64 mem_size l.meta_size;
  element_count = 0;
  head_index = 0;
  tail_index = 0;
  serial_no = 0;
  operation_time = 0;
  operation_pid = 0;
  extention = 0 ∷ 0 ∷ 0 ∷ 0 ∷ [];
  status = normal;
}

-- `QMetaOp::QMetaOp(pMem, creator, memSize)`: only the creator writes to the region. A setup call
-- that fails leaves the header laid out. `(time_t)-1` is all ones.
unfoldable pub make_meta :
    Layout → Bool → ℕ → SetupCalls → SetupCalls → Shared → Shared × Result (Unit {0})
make_meta l false mem_size mutex cond s = (s, ok tt)
make_meta l true mem_size mutex cond s =
    if leb mem_size (add64 l.meta_size l.header_size)
    then (s, throw size_too_small)
    else elim (init_mutex mutex) [
      | throw e ↦ (record s { info = laid_out l mem_size }, throw e)
      | ok u ↦ elim (init_cond cond) [
        | throw e ↦ (record s { info = laid_out l mem_size }, throw e)
        | ok v ↦ (
          record s { info = record (laid_out l mem_size) { operation_time = 2 ^ 64 - 1 } },
          ok tt,
        )
      ]
    ]

unfoldable pub stop_put : Shared → Shared
stop_put s = record s { info = record (s.info) { status = stop2put } }

unfoldable pub stop_put_and_get : Shared → Shared
stop_put_and_get s = record s { info = record (s.info) { status = stop2put_and_get } }

abbrev pub is_stop_put : QStatus → Bool
is_stop_put stop2put = true
is_stop_put normal = false
is_stop_put stop2put_and_get = false

abbrev pub is_stop_put_and_get : QStatus → Bool
is_stop_put_and_get stop2put_and_get = true
is_stop_put_and_get stop2put = false
is_stop_put_and_get normal = false
