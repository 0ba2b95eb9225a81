-- ===== src/SystemStub/Io.antt =====
-- The functions of cppfoundation/src/stub/cf_system_stub.c on files, sockets and epoll
-- that look at their pointers before they call the system.
use cppfastdevelop.Prelude.{ℕ, ◌≡◌, ◌||◌, ltb_ℤ, List, [], ◌∷◌, ℤ, pos, if◌then◌else◌, arith}
use cppfastdevelop.SystemStub.Calling.{
  Pointer, null, Process, Call, Reply, int_reply, pointer_reply, reply, is_null, any_null,
  is_minus_one, minus_one, refused, bad_descriptor,
}

-- The system's functions, with what the variable arguments are passed on as.
pub record Calls (W : Type 0) : Type 0 where
  pub chdir : Pointer → Call W ℤ
  pub open_file : Pointer → ℤ → ℕ → Call W ℤ
  pub read : ℤ → Pointer → ℕ → Call W ℤ
  pub write : ℤ → Pointer → ℕ → Call W ℤ
  pub readv : ℤ → Pointer → ℤ → Call W ℤ
  pub writev : ℤ → Pointer → ℤ → Call W ℤ
  pub fstat : ℤ → Pointer → Call W ℤ
  pub setsockopt : ℤ → ℤ → ℤ → Pointer → ℕ → Call W ℤ
  pub poll : Pointer → ℕ → ℤ → Call W ℤ
  pub getsockname : ℤ → Pointer → Pointer → Call W ℤ
  pub inet_ntop : ℤ → Pointer → Pointer → ℕ → Call W Pointer
  pub unlink : Pointer → Call W ℤ
  pub gethostbyname : Pointer → Call W Pointer
  pub mkfifo : Pointer → ℕ → Call W ℤ
  pub inet_pton : ℤ → Pointer → Pointer → Call W ℤ
  pub access : Pointer → ℤ → Call W ℤ
  pub fopen : Pointer → Pointer → Call W Pointer
  pub fclose : Pointer → Call W ℤ
  pub epoll_wait : ℤ → Pointer → ℤ → ℤ → Call W ℤ
  pub epoll_ctl : ℤ → ℤ → ℤ → Pointer → Call W ℤ
  pub fcntl : ℤ → ℤ → Pointer → Call W ℤ
  pub epoll_create : ℤ → Call W ℤ
  pub va_list : List Pointer → Pointer

module _ {W : Type 0} (sys : Calls W) where
  abbrev pub cf_chdir : Pointer → Call W ℤ
  cf_chdir path p = if is_null path then refused minus_one p else sys.chdir path p

  abbrev pub cf_open : Pointer → ℤ → ℕ → Call W ℤ
  cf_open pathname flags mode p =
      if is_null pathname then refused minus_one p else sys.open_file pathname flags mode p

  abbrev pub cf_read : ℤ → Pointer → ℕ → Call W ℤ
  cf_read fd buf count p =
      if is_null buf
      then refused minus_one p
      else (if is_minus_one fd then bad_descriptor (pos 0) p else sys.read fd buf count p)

  abbrev pub cf_write : ℤ → Pointer → ℕ → Call W ℤ
  cf_write fd buf count p =
      if is_null buf
      then refused minus_one p
      else (if is_minus_one fd then bad_descriptor (pos 0) p else sys.write fd buf count p)

  abbrev pub cf_readv : ℤ → Pointer → ℤ → Call W ℤ
  cf_readv fd vector count p =
      if is_null vector
      then refused minus_one p
      else (if is_minus_one fd then bad_descriptor (pos 0) p else sys.readv fd vector count p)

  abbrev pub cf_writev : ℤ → Pointer → ℤ → Call W ℤ
  cf_writev fd vector count p =
      if is_null vector
      then refused minus_one p
      else (if is_minus_one fd then bad_descriptor (pos 0) p else sys.writev fd vector count p)

  abbrev pub cf_fstat : ℤ → Pointer → Call W ℤ
  cf_fstat filedes buf p =
      if is_null buf
      then refused minus_one p
      else (if is_minus_one filedes then bad_descriptor (minus_one) p else sys.fstat filedes buf p)

  abbrev pub cf_setsockopt : ℤ → ℤ → ℤ → Pointer → ℕ → Call W ℤ
  cf_setsockopt socket level option_name option_value option_len p =
      if is_null option_value
      then refused minus_one p
      else sys.setsockopt socket level option_name option_value option_len p

  abbrev pub cf_poll : Pointer → ℕ → ℤ → Call W ℤ
  cf_poll fds nfds timeout p =
      if is_null fds then refused minus_one p else sys.poll fds nfds timeout p

  abbrev pub cf_getsockname : ℤ → Pointer → Pointer → Call W ℤ
  cf_getsockname s name namelen p =
      if is_null name then refused minus_one p else sys.getsockname s name namelen p

  abbrev pub cf_inet_ntop : ℤ → Pointer → Pointer → ℕ → Call W Pointer
  cf_inet_ntop af src dst cnt p =
      if is_null src || is_null dst then refused null p else sys.inet_ntop af src dst cnt p

  abbrev pub cf_unlink : Pointer → Call W ℤ
  cf_unlink pathname p = if is_null pathname then refused minus_one p else sys.unlink pathname p

  abbrev pub cf_gethostbyname : Pointer → Call W Pointer
  cf_gethostbyname name p = if is_null name then refused null p else sys.gethostbyname name p

  abbrev pub cf_mkfifo : Pointer → ℕ → Call W ℤ
  cf_mkfifo pathname mode p =
      if is_null pathname then refused minus_one p else sys.mkfifo pathname mode p

  abbrev pub cf_inet_pton : ℤ → Pointer → Pointer → Call W ℤ
  cf_inet_pton af src dst p =
      if is_null src || is_null dst then refused minus_one p else sys.inet_pton af src dst p

  abbrev pub cf_access : Pointer → ℤ → Call W ℤ
  cf_access pathname mode p =
      if is_null pathname then refused minus_one p else sys.access pathname mode p

  abbrev pub cf_fopen : Pointer → Pointer → Call W Pointer
  cf_fopen path mode p =
      if is_null path || is_null mode then refused null p else sys.fopen path mode p

  abbrev pub cf_fclose : Pointer → Call W ℤ
  cf_fclose fp p = if is_null fp then refused minus_one p else sys.fclose fp p

  abbrev pub cf_epoll_wait : ℤ → Pointer → ℤ → ℤ → Call W ℤ
  cf_epoll_wait epfd events maxevents timeout p =
      if is_null events then refused minus_one p else sys.epoll_wait epfd events maxevents timeout p

  abbrev pub cf_epoll_ctl : ℤ → ℤ → ℤ → Pointer → Call W ℤ
  cf_epoll_ctl epfd op fd event p =
      if is_null event then refused minus_one p else sys.epoll_ctl epfd op fd event p

  -- The list of the variable arguments is passed on as the third argument.
  abbrev pub cf_fcntl : ℤ → ℤ → List Pointer → Call W ℤ
  cf_fcntl fd cmd args p = sys.fcntl fd cmd (sys.va_list args) p

  abbrev pub cf_epoll_create : ℤ → Call W ℤ
  cf_epoll_create size p =
      if ltb_ℤ size (pos 0) then refused minus_one p else sys.epoll_create size p

-- A call of one of them.
pub data Request : Type 0 where
  chdir : Pointer → Request
  open_file : Pointer → ℤ → ℕ → Request
  read : ℤ → Pointer → ℕ → Request
  write : ℤ → Pointer → ℕ → Request
  readv : ℤ → Pointer → ℤ → Request
  writev : ℤ → Pointer → ℤ → Request
  fstat : ℤ → Pointer → Request
  setsockopt : ℤ → ℤ → ℤ → Pointer → ℕ → Request
  poll : Pointer → ℕ → ℤ → Request
  getsockname : ℤ → Pointer → Pointer → Request
  inet_ntop : ℤ → Pointer → Pointer → ℕ → Request
  unlink : Pointer → Request
  gethostbyname : Pointer → Request
  mkfifo : Pointer → ℕ → Request
  inet_pton : ℤ → Pointer → Pointer → Request
  access : Pointer → ℤ → Request
  fopen : Pointer → Pointer → Request
  fclose : Pointer → Request
  epoll_wait : ℤ → Pointer → ℤ → ℤ → Request
  epoll_ctl : ℤ → ℤ → ℤ → Pointer → Request

-- The pointers that it must not be given null.
abbrev pub guarded : Request → List Pointer
guarded (chdir path) = path ∷ []
guarded (open_file pathname flags mode) = pathname ∷ []
guarded (read fd buf count) = buf ∷ []
guarded (write fd buf count) = buf ∷ []
guarded (readv fd vector count) = vector ∷ []
guarded (writev fd vector count) = vector ∷ []
guarded (fstat filedes buf) = buf ∷ []
guarded (setsockopt socket level option_name option_value option_len) = option_value ∷ []
guarded (poll fds nfds timeout) = fds ∷ []
guarded (getsockname s name namelen) = name ∷ []
guarded (inet_ntop af src dst cnt) = src ∷ dst ∷ []
guarded (unlink pathname) = pathname ∷ []
guarded (gethostbyname name) = name ∷ []
guarded (mkfifo pathname mode) = pathname ∷ []
guarded (inet_pton af src dst) = src ∷ dst ∷ []
guarded (access pathname mode) = pathname ∷ []
guarded (fopen path mode) = path ∷ mode ∷ []
guarded (fclose fp) = fp ∷ []
guarded (epoll_wait epfd events maxevents timeout) = events ∷ []
guarded (epoll_ctl epfd op fd event) = event ∷ []

module _ {W : Type 0} (sys : Calls W) where
  abbrev pub perform : Request → Call W Reply
  perform (chdir path) p = reply int_reply (cf_chdir sys path p)
  perform (open_file pathname flags mode) p = reply int_reply (cf_open sys pathname flags mode p)
  perform (read fd buf count) p = reply int_reply (cf_read sys fd buf count p)
  perform (write fd buf count) p = reply int_reply (cf_write sys fd buf count p)
  perform (readv fd vector count) p = reply int_reply (cf_readv sys fd vector count p)
  perform (writev fd vector count) p = reply int_reply (cf_writev sys fd vector count p)
  perform (fstat filedes buf) p = reply int_reply (cf_fstat sys filedes buf p)
  perform (setsockopt socket level option_name option_value option_len) p =
      reply int_reply (cf_setsockopt sys socket level option_name option_value option_len p)
  perform (poll fds nfds timeout) p = reply int_reply (cf_poll sys fds nfds timeout p)
  perform (getsockname s name namelen) p = reply int_reply (cf_getsockname sys s name namelen p)
  perform (inet_ntop af src dst cnt) p = reply pointer_reply (cf_inet_ntop sys af src dst cnt p)
  perform (unlink pathname) p = reply int_reply (cf_unlink sys pathname p)
  perform (gethostbyname name) p = reply pointer_reply (cf_gethostbyname sys name p)
  perform (mkfifo pathname mode) p = reply int_reply (cf_mkfifo sys pathname mode p)
  perform (inet_pton af src dst) p = reply int_reply (cf_inet_pton sys af src dst p)
  perform (access pathname mode) p = reply int_reply (cf_access sys pathname mode p)
  perform (fopen path mode) p = reply pointer_reply (cf_fopen sys path mode p)
  perform (fclose fp) p = reply int_reply (cf_fclose sys fp p)
  perform (epoll_wait epfd events maxevents timeout) p =
      reply int_reply (cf_epoll_wait sys epfd events maxevents timeout p)
  perform (epoll_ctl epfd op fd event) p = reply int_reply (cf_epoll_ctl sys epfd op fd event p)

  -- What it does for other pointers, and what it returns for null.
  abbrev pub call_of : Request → Call W Reply
  call_of (chdir path) p = reply int_reply (sys.chdir path p)
  call_of (open_file pathname flags mode) p = reply int_reply (sys.open_file pathname flags mode p)
  call_of (read fd buf count) p =
      reply int_reply
        (if is_minus_one fd then bad_descriptor (pos 0) p else sys.read fd buf count p)
  call_of (write fd buf count) p =
      reply int_reply
        (if is_minus_one fd then bad_descriptor (pos 0) p else sys.write fd buf count p)
  call_of (readv fd vector count) p =
      reply int_reply
        (if is_minus_one fd then bad_descriptor (pos 0) p else sys.readv fd vector count p)
  call_of (writev fd vector count) p =
      reply int_reply
        (if is_minus_one fd then bad_descriptor (pos 0) p else sys.writev fd vector count p)
  call_of (fstat filedes buf) p =
      reply int_reply
        (if is_minus_one filedes then bad_descriptor (minus_one) p else sys.fstat filedes buf p)
  call_of (setsockopt socket level option_name option_value option_len) p =
      reply int_reply (sys.setsockopt socket level option_name option_value option_len p)
  call_of (poll fds nfds timeout) p = reply int_reply (sys.poll fds nfds timeout p)
  call_of (getsockname s name namelen) p = reply int_reply (sys.getsockname s name namelen p)
  call_of (inet_ntop af src dst cnt) p = reply pointer_reply (sys.inet_ntop af src dst cnt p)
  call_of (unlink pathname) p = reply int_reply (sys.unlink pathname p)
  call_of (gethostbyname name) p = reply pointer_reply (sys.gethostbyname name p)
  call_of (mkfifo pathname mode) p = reply int_reply (sys.mkfifo pathname mode p)
  call_of (inet_pton af src dst) p = reply int_reply (sys.inet_pton af src dst p)
  call_of (access pathname mode) p = reply int_reply (sys.access pathname mode p)
  call_of (fopen path mode) p = reply pointer_reply (sys.fopen path mode p)
  call_of (fclose fp) p = reply int_reply (sys.fclose fp p)
  call_of (epoll_wait epfd events maxevents timeout) p =
      reply int_reply (sys.epoll_wait epfd events maxevents timeout p)
  call_of (epoll_ctl epfd op fd event) p = reply int_reply (sys.epoll_ctl epfd op fd event p)

  abbrev pub failure : Request → Reply
  failure (chdir path) = int_reply minus_one
  failure (open_file pathname flags mode) = int_reply minus_one
  failure (read fd buf count) = int_reply minus_one
  failure (write fd buf count) = int_reply minus_one
  failure (readv fd vector count) = int_reply minus_one
  failure (writev fd vector count) = int_reply minus_one
  failure (fstat filedes buf) = int_reply minus_one
  failure (setsockopt socket level option_name option_value option_len) = int_reply minus_one
  failure (poll fds nfds timeout) = int_reply minus_one
  failure (getsockname s name namelen) = int_reply minus_one
  failure (inet_ntop af src dst cnt) = pointer_reply null
  failure (unlink pathname) = int_reply minus_one
  failure (gethostbyname name) = pointer_reply null
  failure (mkfifo pathname mode) = int_reply minus_one
  failure (inet_pton af src dst) = int_reply minus_one
  failure (access pathname mode) = int_reply minus_one
  failure (fopen path mode) = pointer_reply null
  failure (fclose fp) = int_reply minus_one
  failure (epoll_wait epfd events maxevents timeout) = int_reply minus_one
  failure (epoll_ctl epfd op fd event) = int_reply minus_one

  pub perform-guards :
      (r : Request) (p : Process W)
      → perform r p ≡ (if any_null (guarded r) then refused (failure r) p else call_of r p)
  perform-guards (chdir path) p = ground arith
  perform-guards (open_file pathname flags mode) p = ground arith
  perform-guards (read fd buf count) p = ground arith
  perform-guards (write fd buf count) p = ground arith
  perform-guards (readv fd vector count) p = ground arith
  perform-guards (writev fd vector count) p = ground arith
  perform-guards (fstat filedes buf) p = ground arith
  perform-guards (setsockopt socket level option_name option_value option_len) p = ground arith
  perform-guards (poll fds nfds timeout) p = ground arith
  perform-guards (getsockname s name namelen) p = ground arith
  perform-guards (inet_ntop af src dst cnt) p = ground arith
  perform-guards (unlink pathname) p = ground arith
  perform-guards (gethostbyname name) p = ground arith
  perform-guards (mkfifo pathname mode) p = ground arith
  perform-guards (inet_pton af src dst) p = ground arith
  perform-guards (access pathname mode) p = ground arith
  perform-guards (fopen path mode) p = ground arith
  perform-guards (fclose fp) p = ground arith
  perform-guards (epoll_wait epfd events maxevents timeout) p = ground arith
  perform-guards (epoll_ctl epfd op fd event) p = ground arith
