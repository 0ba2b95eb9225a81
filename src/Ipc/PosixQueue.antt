-- ===== src/Ipc/PosixQueue.antt =====
-- `PosixMsgQ` of cf_ipc.cpp: a POSIX message queue, through the functions of cf_system_stub.c that
-- look at their pointers.
use cppfastdevelop.Prelude.{ℕ, zero, suc, ◌≡◌, Bool, ℤ, pos, negsuc, if◌then◌else◌, arith}
use cppfastdevelop.Ipc.SharedMemory.{Outcome, returned, threw, syscall_execute_error}
use cppfastdevelop.SystemStub.Calling.{Pointer, null, Process, e_nullparams, is_minus_one}
use cppfastdevelop.SystemStub.Ipc.{
  Calls, cf_mq_open, cf_mq_unlink, cf_mq_getattr, cf_mq_setattr, cf_mq_send, cf_mq_timedsend,
  cf_mq_receive, cf_mq_timedreceive, cf_mq_notify,
}

-- `_name` as the pointer that `c_str` gives.
pub record PosixMsgQ : Type 0 where
  pub fd : ℤ
  pub name : Pointer
  pub auto_unlink : Bool
  pub auto_close : Bool

module _ {W : Type 0} (sys : Calls W) (mq_close : ℤ → Process W → Process W × ℤ) where
  -- `if(0!=...) _THROW`, and `if(-1==(rt=...)) _THROW`.
  abbrev pub zero_or_threw : Process W × ℤ → Process W × Outcome (Unit {0})
  zero_or_threw (p, pos zero) = (p, returned tt)
  zero_or_threw (p, pos (suc n)) = (p, threw syscall_execute_error)
  zero_or_threw (p, negsuc n) = (p, threw syscall_execute_error)

  abbrev pub count_or_threw : Process W × ℤ → Process W × Outcome ℤ
  count_or_threw (p, rt) = (p, if is_minus_one rt then threw syscall_execute_error else returned rt)

  abbrev pub opened : Pointer → Bool → Bool → Process W × ℤ → Process W × Outcome PosixMsgQ
  opened name auto_unlink auto_close (p, fd) = (
    p,
    if is_minus_one fd
        then threw syscall_execute_error
        else returned
            (record { fd = fd; name = name; auto_unlink = auto_unlink; auto_close = auto_close }),
  )

  -- `PosixMsgQ(name, oflag, mode, autoUnlink, autoClose)`.
  abbrev pub make_msg_q : Pointer → ℤ → ℕ → Bool → Bool → Process W → Process W × Outcome PosixMsgQ
  make_msg_q name oflag mode auto_unlink auto_close p =
      opened name auto_unlink auto_close (cf_mq_open sys name oflag mode null p)

  abbrev pub destroy_msg_q : PosixMsgQ → Process W → Process W
  destroy_msg_q q p =
      let p' = if q.auto_unlink then (cf_mq_unlink sys q.name p).0 else p in
      if q.auto_close then (mq_close q.fd p').0 else p'

  abbrev pub getattr : Pointer → PosixMsgQ → Process W → Process W × Outcome (Unit {0})
  getattr attr q p = zero_or_threw (cf_mq_getattr sys q.fd attr p)

  abbrev pub setattr : Pointer → Pointer → PosixMsgQ → Process W → Process W × Outcome (Unit {0})
  setattr newattr oldattr q p = zero_or_threw (cf_mq_setattr sys q.fd newattr oldattr p)

  abbrev pub send : Pointer → ℕ → ℕ → PosixMsgQ → Process W → Process W × Outcome (Unit {0})
  send msg len prio q p = zero_or_threw (cf_mq_send sys q.fd msg len prio p)

  abbrev pub send_until :
      Pointer → ℕ → ℕ → Pointer → PosixMsgQ → Process W → Process W × Outcome (Unit {0})
  send_until msg len prio timeout q p =
      zero_or_threw (cf_mq_timedsend sys q.fd msg len prio timeout p)

  abbrev pub recv : Pointer → ℕ → Pointer → PosixMsgQ → Process W → Process W × Outcome ℤ
  recv msg len prio q p = count_or_threw (cf_mq_receive sys q.fd msg len prio p)

  abbrev pub recv_until :
      Pointer → ℕ → Pointer → Pointer → PosixMsgQ → Process W → Process W × Outcome ℤ
  recv_until msg len prio timeout q p =
      count_or_threw (cf_mq_timedreceive sys q.fd msg len prio timeout p)

  abbrev pub notify : Pointer → PosixMsgQ → Process W → Process W × Outcome (Unit {0})
  notify sevp q p = zero_or_threw (cf_mq_notify sys q.fd sevp p)

  -- Whatever the system would do: `Notify` with null, with which `mq_notify` takes a notification
  -- back, `Setattr` with null for the old attributes and `Recv` with null for the priority, which
  -- `mq_setattr` and `mq_receive` allow, call nothing and throw, with `errno` CF_E_NULLPARAMS.
  pub null-throws :
      (attr msg : Pointer) (len : ℕ) (q : PosixMsgQ) (p : Process W)
      → (notify null q p ≡ (record p { errno = e_nullparams }, threw syscall_execute_error))
        × (setattr attr null q p ≡ (record p { errno = e_nullparams }, threw syscall_execute_error))
        × (recv msg len null q p ≡ (record p { errno = e_nullparams }, threw syscall_execute_error))
  null-throws attr msg len q p = (ground arith, ground arith, ground arith)
