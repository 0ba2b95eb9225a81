-- ===== src/SystemStub/Tests.antt =====
-- Two systems that count their calls, and write down different numbers when they are given null.
use cppfastdevelop.Prelude.{◌≡◌, refl, false, List, [], ◌∷◌, pos, ℕ, suc, if◌then◌else◌, arith}
use cppfastdevelop.SystemStub.Calling.{
  Pointer, Process, Call, Reply, int_reply, any_null, minus_one,
}
use cppfastdevelop.SystemStub.Io
use cppfastdevelop.SystemStub.Ipc
use cppfastdevelop.SystemStub.Text
use cppfastdevelop.SystemStub.Process as Own
use cppfastdevelop.SystemStub.Nulls.{
  Calls, Request, io, ipc, text, own, call_of, failure, guarded, run, run-agrees,
}

abbrev counted : {R : Type 0} → ℕ → List Pointer → R → Call ℕ R
counted crash qs r p =
    if any_null qs then (record p { world = crash }, r) else (record p { world = suc p.world }, r)

abbrev io_calls : ℕ → Io.Calls ℕ
io_calls crash = record {
  chdir = λ path. counted crash (path ∷ []) (pos 0);
  open_file = λ pathname flags mode. counted crash (pathname ∷ []) (pos 0);
  read = λ fd buf count. counted crash (buf ∷ []) (pos 0);
  write = λ fd buf count. counted crash (buf ∷ []) (pos 0);
  readv = λ fd vector count. counted crash (vector ∷ []) (pos 0);
  writev = λ fd vector count. counted crash (vector ∷ []) (pos 0);
  fstat = λ filedes buf. counted crash (buf ∷ []) (pos 0);
  setsockopt =
      λ socket level option_name option_value option_len. counted crash (option_value ∷ []) (pos 0);
  poll = λ fds nfds timeout. counted crash (fds ∷ []) (pos 0);
  getsockname = λ s name namelen. counted crash (name ∷ []) (pos 0);
  inet_ntop = λ af src dst cnt. counted crash (src ∷ dst ∷ []) 1;
  unlink = λ pathname. counted crash (pathname ∷ []) (pos 0);
  gethostbyname = λ name. counted crash (name ∷ []) 1;
  mkfifo = λ pathname mode. counted crash (pathname ∷ []) (pos 0);
  inet_pton = λ af src dst. counted crash (src ∷ dst ∷ []) (pos 0);
  access = λ pathname mode. counted crash (pathname ∷ []) (pos 0);
  fopen = λ path mode. counted crash (path ∷ mode ∷ []) 1;
  fclose = λ fp. counted crash (fp ∷ []) (pos 0);
  epoll_wait = λ epfd events maxevents timeout. counted crash (events ∷ []) (pos 0);
  epoll_ctl = λ epfd op fd event. counted crash (event ∷ []) (pos 0);
  fcntl = λ fd cmd arg. counted crash [] (pos 0);
  epoll_create = λ size. counted crash [] (pos 0);
  va_list = λ args. 1;
}

io_agree :
    (a b : ℕ) (r : Io.Request) (p : Process ℕ)
    → any_null (Io.guarded r) ≡ false
    → Io.call_of (io_calls a) r p ≡ Io.call_of (io_calls b) r p
io_agree a b (Io.chdir path) p e = ground arith
io_agree a b (Io.open_file pathname flags mode) p e = ground arith
io_agree a b (Io.read fd buf count) p e = ground arith
io_agree a b (Io.write fd buf count) p e = ground arith
io_agree a b (Io.readv fd vector count) p e = ground arith
io_agree a b (Io.writev fd vector count) p e = ground arith
io_agree a b (Io.fstat filedes buf) p e = ground arith
io_agree a b (Io.setsockopt socket level option_name option_value option_len) p e = ground arith
io_agree a b (Io.poll fds nfds timeout) p e = ground arith
io_agree a b (Io.getsockname s name namelen) p e = ground arith
io_agree a b (Io.inet_ntop af src dst cnt) p e = ground arith
io_agree a b (Io.unlink pathname) p e = ground arith
io_agree a b (Io.gethostbyname name) p e = ground arith
io_agree a b (Io.mkfifo pathname mode) p e = ground arith
io_agree a b (Io.inet_pton af src dst) p e = ground arith
io_agree a b (Io.access pathname mode) p e = ground arith
io_agree a b (Io.fopen path mode) p e = ground arith
io_agree a b (Io.fclose fp) p e = ground arith
io_agree a b (Io.epoll_wait epfd events maxevents timeout) p e = ground arith
io_agree a b (Io.epoll_ctl epfd op fd event) p e = ground arith

abbrev ipc_calls : ℕ → Ipc.Calls ℕ
ipc_calls crash = record {
  ftok = λ pathname id. counted crash (pathname ∷ []) (pos 0);
  shmdt = λ shmaddr. counted crash (shmaddr ∷ []) (pos 0);
  mlock = λ addr len. counted crash (addr ∷ []) (pos 0);
  munlock = λ addr len. counted crash (addr ∷ []) (pos 0);
  munmap = λ addr length. counted crash (addr ∷ []) (pos 0);
  msync = λ start length flags. counted crash (start ∷ []) (pos 0);
  shm_open = λ name oflag mode. counted crash (name ∷ []) (pos 0);
  shm_unlink = λ name. counted crash (name ∷ []) (pos 0);
  sem_open = λ name oflag mode value. counted crash (name ∷ []) 1;
  sem_unlink = λ name. counted crash (name ∷ []) (pos 0);
  mq_open = λ name oflag mode attr. counted crash (name ∷ []) (pos 0);
  mq_unlink = λ name. counted crash (name ∷ []) (pos 0);
  mq_getattr = λ mqdes attr. counted crash (attr ∷ []) (pos 0);
  mq_setattr = λ mqdes newattr oldattr. counted crash (newattr ∷ oldattr ∷ []) (pos 0);
  mq_send = λ mqdes msg_ptr msg_len msg_prio. counted crash (msg_ptr ∷ []) (pos 0);
  mq_timedsend = λ mqdes msg_ptr msg_len msg_prio abs_timeout.
      counted crash (msg_ptr ∷ abs_timeout ∷ []) (pos 0);
  mq_receive = λ mqdes msg_ptr msg_len msg_prio. counted crash (msg_ptr ∷ msg_prio ∷ []) (pos 0);
  mq_timedreceive = λ mqdes msg_ptr msg_len msg_prio abs_timeout.
      counted crash (msg_ptr ∷ msg_prio ∷ abs_timeout ∷ []) (pos 0);
  mq_notify = λ mqdes sevp. counted crash (sevp ∷ []) (pos 0);
  sem_failed = 0;
}

ipc_agree :
    (a b : ℕ) (r : Ipc.Request) (p : Process ℕ)
    → any_null (Ipc.guarded r) ≡ false
    → Ipc.call_of (ipc_calls a) r p ≡ Ipc.call_of (ipc_calls b) r p
ipc_agree a b (Ipc.ftok pathname id) p e = ground arith
ipc_agree a b (Ipc.shmdt shmaddr) p e = ground arith
ipc_agree a b (Ipc.mlock addr len) p e = ground arith
ipc_agree a b (Ipc.munlock addr len) p e = ground arith
ipc_agree a b (Ipc.munmap addr length) p e = ground arith
ipc_agree a b (Ipc.msync start length flags) p e = ground arith
ipc_agree a b (Ipc.shm_open name oflag mode) p e = ground arith
ipc_agree a b (Ipc.shm_unlink name) p e = ground arith
ipc_agree a b (Ipc.sem_open name oflag mode value) p e = ground arith
ipc_agree a b (Ipc.sem_unlink name) p e = ground arith
ipc_agree a b (Ipc.mq_open name oflag mode attr) p e = ground arith
ipc_agree a b (Ipc.mq_unlink name) p e = ground arith
ipc_agree a b (Ipc.mq_getattr mqdes attr) p e = ground arith
ipc_agree a b (Ipc.mq_setattr mqdes newattr oldattr) p e = ground arith
ipc_agree a b (Ipc.mq_send mqdes msg_ptr msg_len msg_prio) p e = ground arith
ipc_agree a b (Ipc.mq_timedsend mqdes msg_ptr msg_len msg_prio abs_timeout) p e = ground arith
ipc_agree a b (Ipc.mq_receive mqdes msg_ptr msg_len msg_prio) p e = ground arith
ipc_agree a b (Ipc.mq_timedreceive mqdes msg_ptr msg_len msg_prio abs_timeout) p e = ground arith
ipc_agree a b (Ipc.mq_notify mqdes sevp) p e = ground arith

abbrev text_calls : ℕ → Text.Calls ℕ
text_calls crash = record {
  memset = λ s c n. counted crash (s ∷ []) 1;
  memcpy = λ dest src n. counted crash (dest ∷ src ∷ []) 1;
  memmove = λ dest src n. counted crash (dest ∷ src ∷ []) 1;
  strcpy = λ dest src. counted crash (dest ∷ src ∷ []) 1;
  strncpy = λ dest src n. counted crash (dest ∷ src ∷ []) 1;
  memchr = λ s c n. counted crash (s ∷ []) 1;
  strchr = λ s c. counted crash (s ∷ []) 1;
  strstr = λ haystack needle. counted crash (haystack ∷ needle ∷ []) 1;
  vsprintf = λ str format args. counted crash (str ∷ format ∷ []) (pos 0);
  vsnprintf = λ str size format args. counted crash (str ∷ format ∷ []) (pos 0);
  strlen = λ s. counted crash (s ∷ []) 0;
  localtime_r = λ timep result. counted crash (timep ∷ []) 1;
  strcmp = λ s1 s2. counted crash [] (pos 0);
  strncmp = λ s1 s2 n. counted crash [] (pos 0);
  memcmp = λ s1 s2 n. counted crash [] (pos 0);
  free = λ ptr. counted crash [] tt;
  va_list = λ args. 1;
}

text_agree :
    (a b : ℕ) (r : Text.Request) (p : Process ℕ)
    → any_null (Text.guarded r) ≡ false
    → Text.call_of (text_calls a) r p ≡ Text.call_of (text_calls b) r p
text_agree a b (Text.memset s c n) p e = ground arith
text_agree a b (Text.memcpy dest src n) p e = ground arith
text_agree a b (Text.memmove dest src n) p e = ground arith
text_agree a b (Text.strcpy dest src) p e = ground arith
text_agree a b (Text.strncpy dest src n) p e = ground arith
text_agree a b (Text.memchr s c n) p e = ground arith
text_agree a b (Text.strchr s c) p e = ground arith
text_agree a b (Text.strstr haystack needle) p e = ground arith
text_agree a b (Text.sprintf str format args) p e = ground arith
text_agree a b (Text.snprintf str size format args) p e = ground arith
text_agree a b (Text.vsnprintf str size format ap) p e = ground arith
text_agree a b (Text.strlen s) p e = ground arith
text_agree a b (Text.localtime_r timep result) p e = ground arith

abbrev process_calls : ℕ → Own.Calls ℕ
process_calls crash = record {
  pthread_attr_init = λ attr. counted crash (attr ∷ []) (pos 0);
  pthread_attr_destroy = λ attr. counted crash (attr ∷ []) (pos 0);
  pthread_attr_setstacksize = λ attr stacksize. counted crash (attr ∷ []) (pos 0);
  pthread_attr_setdetachstate = λ attr detachstate. counted crash (attr ∷ []) (pos 0);
  getrlimit = λ resource rlp. counted crash (rlp ∷ []) (pos 0);
  setrlimit = λ resource rlp. counted crash (rlp ∷ []) (pos 0);
  signal = λ signum handler. counted crash (handler ∷ []) 1;
  dlopen = λ filename flag. counted crash (filename ∷ []) 1;
  dlsym = λ handle symbol. counted crash (handle ∷ symbol ∷ []) 1;
  dlclose = λ handle. counted crash (handle ∷ []) (pos 0);
  sig_err = 1;
}

process_agree :
    (a b : ℕ) (r : Own.Request) (p : Process ℕ)
    → any_null (Own.guarded r) ≡ false
    → Own.call_of (process_calls a) r p ≡ Own.call_of (process_calls b) r p
process_agree a b (Own.pthread_attr_init attr) p e = ground arith
process_agree a b (Own.pthread_attr_destroy attr) p e = ground arith
process_agree a b (Own.pthread_attr_setstacksize attr stacksize) p e = ground arith
process_agree a b (Own.pthread_attr_setdetachstate attr detachstate) p e = ground arith
process_agree a b (Own.getrlimit resource rlp) p e = ground arith
process_agree a b (Own.setrlimit resource rlp) p e = ground arith
process_agree a b (Own.signal signum handler) p e = ground arith
process_agree a b (Own.dlopen filename flag) p e = ground arith
process_agree a b (Own.dlsym handle symbol) p e = ground arith
process_agree a b (Own.dlclose handle) p e = ground arith

abbrev system : ℕ → Calls ℕ
system crash = record {
  io_calls = io_calls crash;
  ipc_calls = ipc_calls crash;
  text_calls = text_calls crash;
  own_calls = process_calls crash;
}

calls_agree :
    (a b : ℕ) (r : Request) (p : Process ℕ)
    → any_null (guarded r) ≡ false
    → call_of (system a) r p ≡ call_of (system b) r p
calls_agree a b (io r) p e = io_agree a b r p e
calls_agree a b (ipc r) p e = ipc_agree a b r p e
calls_agree a b (text r) p e = text_agree a b r p e
calls_agree a b (own r) p e = process_agree a b r p e

io_fails : (a b : ℕ) (r : Io.Request) → Io.failure (io_calls a) r ≡ Io.failure (io_calls b) r
io_fails a b (Io.chdir path) = refl
io_fails a b r = refl

ipc_fails : (a b : ℕ) (r : Ipc.Request) → Ipc.failure (ipc_calls a) r ≡ Ipc.failure (ipc_calls b) r
ipc_fails a b (Ipc.ftok pathname id) = refl
ipc_fails a b r = refl

text_fails :
    (a b : ℕ) (r : Text.Request) → Text.failure (text_calls a) r ≡ Text.failure (text_calls b) r
text_fails a b (Text.memset s c n) = refl
text_fails a b r = refl

process_fails :
    (a b : ℕ) (r : Own.Request) → Own.failure (process_calls a) r ≡ Own.failure (process_calls b) r
process_fails a b (Own.pthread_attr_init attr) = refl
process_fails a b r = refl

failures_agree : (a b : ℕ) (r : Request) → failure (system a) r ≡ failure (system b) r
failures_agree a b (io r) = io_fails a b r
failures_agree a b (ipc r) = ipc_fails a b r
failures_agree a b (text r) = text_fails a b r
failures_agree a b (own r) = process_fails a b r

abbrev start : Process ℕ
start = record { errno = 0; world = 0 }

-- It unlinks a name, and sends what is at null.
abbrev program : List (Reply → Request)
program = (λ a. io (Io.unlink 5)) ∷ (λ a. ipc (Ipc.mq_send (pos 3) 0 8 1)) ∷ []

run-agrees_example :
    run (system 100) program (int_reply (pos 0)) start
    ≡ run (system 200) program (int_reply (pos 0)) start
run-agrees_example =
    run-agrees {sys = system 100} {sys' = system 200}
      (record { calls = calls_agree 100 200; failures = failures_agree 100 200 }) program
      (int_reply (pos 0)) start

sends_nothing :
    run (system 100) program (int_reply (pos 0)) start
    ≡ (record { errno = 8192; world = 1 }, int_reply minus_one)
unfolding run
sends_nothing = refl
