-- ===== src/CircularQueue/Def.antt =====
-- circularqueue/include/circularqueue/cl_queue_def.hpp: the layout of the shared region, and the
-- exceptions. `cl_queue_operation.hpp` repeats the two enumerations of scenes and write cases.
use cppfastdevelop.Prelude.{ℕ, ◌+◌, ◌^◌, ◌<◌, ◌≡◌, List, ◌∷◌, length}
use cppfastdevelop.Memory.{Memory}

pub data QStatus : Type 0 where
  normal stop2put stop2put_and_get : QStatus

-- `QMeta`, without the mutex and the condition, which are the system's.
pub record QMeta : Type 0 where
  pub magic : List ℕ
  pub version : List ℕ
  pub q_total_size : ℕ
  pub q_left_size : ℕ
  pub element_count : ℕ
  pub head_index : ℕ
  pub tail_index : ℕ
  pub serial_no : ℕ
  pub operation_time : ℕ
  pub operation_pid : ℕ
  pub extention : List ℕ
  pub status : QStatus

pub record ElementHeader : Type 0 where
  pub write_case : ℕ
  pub extention : ℕ × ℕ × ℕ
  pub body_len : ℕ
  pub operation_time : ℕ

-- The exceptions that the queue throws (`cf::ValueError`, `cf::SyscallExecuteError` and
-- `cf::TimeoutInfo` are the foundation's).
pub data Exception : Type 0 where
  value_error syscall_execute_error timeout_info : Exception
  queue_full size_too_small stop_put_error stop_put_and_get_error : Exception

-- What a call that may throw returns.
pub data Result {ℓ} (A : Type ℓ) : Type ℓ where
  ok : A → Result A
  throw : Exception → Result A

pub data QueueScene : Type 0 where
  scene1 scene2 scene3 scene4 : QueueScene

pub data WriteCase : Type 0 where
  case1 case2 case3 case4 case5 : WriteCase

-- The numbers of `eWriteCase`.
abbrev pub case_number : WriteCase → ℕ
case_number case1 = 1
case_number case2 = 2
case_number case3 = 3
case_number case4 = 4
case_number case5 = 5

-- The shared region: `*_pMeta`, and the bytes from `_pMeta->elementBegin` on.
pub record Shared : Type 0 where
  pub info : QMeta
  pub queue : Memory

-- How the compiler lays out the two structures: `sizeof(QMeta)`, `sizeof(ElementHeader)`, and the
-- bytes of a header.
pub record Layout : Type 0 where
  pub meta_size : ℕ
  pub header_size : ℕ
  pub encode : ElementHeader → List ℕ
  pub decode : List ℕ → ElementHeader

-- A header whose fields fit their C types.
pub record IsHeader (h : ElementHeader) : Type 0 where
  pub write_case_byte : h.write_case < 256
  pub extention_bytes : (h.extention.0 < 256) × (h.extention.1 < 256) × (h.extention.2 < 256)
  pub body_len_word : h.body_len < 2 ^ 64
  pub time_word : h.operation_time < 2 ^ 64

-- What the C standard says of such a layout: an object has `sizeof` bytes, of which there is at
-- least one, copying them copies its value, and its first member stands at offset 0.
pub record IsLayout (l : Layout) : Type 0 where
  pub sizes_word : l.meta_size + l.header_size < 2 ^ 32
  pub header_pos : 0 < l.header_size
  pub length-encode : (h : ElementHeader) → length (l.encode h) ≡ l.header_size
  pub decode-encode : (h : ElementHeader) → IsHeader h → l.decode (l.encode h) ≡ h
  pub encode-head : (h : ElementHeader) → (r : List ℕ) × (l.encode h ≡ h.write_case ∷ r)

-- The time and the process of a call, as `cf_time` and `cf_getpid` give them.
pub record Context : Type 0 where
  pub time : ℕ
  pub pid : ℕ
