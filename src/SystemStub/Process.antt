-- ===== src/SystemStub/Process.antt =====
-- The functions of cppfoundation/src/stub/cf_system_stub.c on threads, limits, signals and libraries
-- that look at their pointers before they call the system.
use cppfastdevelop.Prelude.{ℕ, ◌≡◌, ◌||◌, List, [], ◌∷◌, ℤ, if◌then◌else◌, arith}
use cppfastdevelop.SystemStub.Calling.{
  Pointer, null, Process, Call, Reply, int_reply, pointer_reply, reply, is_null, any_null,
  minus_one, refused,
}

-- The system's functions.
pub record Calls (W : Type 0) : Type 0 where
  pub pthread_attr_init : Pointer → Call W ℤ
  pub pthread_attr_destroy : Pointer → Call W ℤ
  pub pthread_attr_setstacksize : Pointer → ℕ → Call W ℤ
  pub pthread_attr_setdetachstate : Pointer → ℤ → Call W ℤ
  pub getrlimit : ℤ → Pointer → Call W ℤ
  pub setrlimit : ℤ → Pointer → Call W ℤ
  pub signal : ℤ → Pointer → Call W Pointer
  pub dlopen : Pointer → ℤ → Call W Pointer
  pub dlsym : Pointer → Pointer → Call W Pointer
  pub dlclose : Pointer → Call W ℤ
  pub sig_err : Pointer

module _ {W : Type 0} (sys : Calls W) where
  abbrev pub cf_pthread_attr_init : Pointer → Call W ℤ
  cf_pthread_attr_init attr p =
      if is_null attr then refused minus_one p else sys.pthread_attr_init attr p

  abbrev pub cf_pthread_attr_destroy : Pointer → Call W ℤ
  cf_pthread_attr_destroy attr p =
      if is_null attr then refused minus_one p else sys.pthread_attr_destroy attr p

  abbrev pub cf_pthread_attr_setstacksize : Pointer → ℕ → Call W ℤ
  cf_pthread_attr_setstacksize attr stacksize p =
      if is_null attr then refused minus_one p else sys.pthread_attr_setstacksize attr stacksize p

  abbrev pub cf_pthread_attr_setdetachstate : Pointer → ℤ → Call W ℤ
  cf_pthread_attr_setdetachstate attr detachstate p =
      if is_null attr
      then refused minus_one p
      else sys.pthread_attr_setdetachstate attr detachstate p

  abbrev pub cf_getrlimit : ℤ → Pointer → Call W ℤ
  cf_getrlimit resource rlp p =
      if is_null rlp then refused minus_one p else sys.getrlimit resource rlp p

  abbrev pub cf_setrlimit : ℤ → Pointer → Call W ℤ
  cf_setrlimit resource rlp p =
      if is_null rlp then refused minus_one p else sys.setrlimit resource rlp p

  abbrev pub cf_signal : ℤ → Pointer → Call W Pointer
  cf_signal signum handler p =
      if is_null handler then refused sys.sig_err p else sys.signal signum handler p

  abbrev pub cf_dlopen : Pointer → ℤ → Call W Pointer
  cf_dlopen filename flag p =
      if is_null filename then refused null p else sys.dlopen filename flag p

  abbrev pub cf_dlsym : Pointer → Pointer → Call W Pointer
  cf_dlsym handle symbol p =
      if is_null handle || is_null symbol then refused null p else sys.dlsym handle symbol p

  abbrev pub cf_dlclose : Pointer → Call W ℤ
  cf_dlclose handle p = if is_null handle then refused minus_one p else sys.dlclose handle p

-- A call of one of them.
pub data Request : Type 0 where
  pthread_attr_init : Pointer → Request
  pthread_attr_destroy : Pointer → Request
  pthread_attr_setstacksize : Pointer → ℕ → Request
  pthread_attr_setdetachstate : Pointer → ℤ → Request
  getrlimit : ℤ → Pointer → Request
  setrlimit : ℤ → Pointer → Request
  signal : ℤ → Pointer → Request
  dlopen : Pointer → ℤ → Request
  dlsym : Pointer → Pointer → Request
  dlclose : Pointer → Request

-- The pointers that it must not be given null.
abbrev pub guarded : Request → List Pointer
guarded (pthread_attr_init attr) = attr ∷ []
guarded (pthread_attr_destroy attr) = attr ∷ []
guarded (pthread_attr_setstacksize attr stacksize) = attr ∷ []
guarded (pthread_attr_setdetachstate attr detachstate) = attr ∷ []
guarded (getrlimit resource rlp) = rlp ∷ []
guarded (setrlimit resource rlp) = rlp ∷ []
guarded (signal signum handler) = handler ∷ []
guarded (dlopen filename flag) = filename ∷ []
guarded (dlsym handle symbol) = handle ∷ symbol ∷ []
guarded (dlclose handle) = handle ∷ []

module _ {W : Type 0} (sys : Calls W) where
  abbrev pub perform : Request → Call W Reply
  perform (pthread_attr_init attr) p = reply int_reply (cf_pthread_attr_init sys attr p)
  perform (pthread_attr_destroy attr) p = reply int_reply (cf_pthread_attr_destroy sys attr p)
  perform (pthread_attr_setstacksize attr stacksize) p =
      reply int_reply (cf_pthread_attr_setstacksize sys attr stacksize p)
  perform (pthread_attr_setdetachstate attr detachstate) p =
      reply int_reply (cf_pthread_attr_setdetachstate sys attr detachstate p)
  perform (getrlimit resource rlp) p = reply int_reply (cf_getrlimit sys resource rlp p)
  perform (setrlimit resource rlp) p = reply int_reply (cf_setrlimit sys resource rlp p)
  perform (signal signum handler) p = reply pointer_reply (cf_signal sys signum handler p)
  perform (dlopen filename flag) p = reply pointer_reply (cf_dlopen sys filename flag p)
  perform (dlsym handle symbol) p = reply pointer_reply (cf_dlsym sys handle symbol p)
  perform (dlclose handle) p = reply int_reply (cf_dlclose sys handle p)

  -- What it does for other pointers, and what it returns for null.
  abbrev pub call_of : Request → Call W Reply
  call_of (pthread_attr_init attr) p = reply int_reply (sys.pthread_attr_init attr p)
  call_of (pthread_attr_destroy attr) p = reply int_reply (sys.pthread_attr_destroy attr p)
  call_of (pthread_attr_setstacksize attr stacksize) p =
      reply int_reply (sys.pthread_attr_setstacksize attr stacksize p)
  call_of (pthread_attr_setdetachstate attr detachstate) p =
      reply int_reply (sys.pthread_attr_setdetachstate attr detachstate p)
  call_of (getrlimit resource rlp) p = reply int_reply (sys.getrlimit resource rlp p)
  call_of (setrlimit resource rlp) p = reply int_reply (sys.setrlimit resource rlp p)
  call_of (signal signum handler) p = reply pointer_reply (sys.signal signum handler p)
  call_of (dlopen filename flag) p = reply pointer_reply (sys.dlopen filename flag p)
  call_of (dlsym handle symbol) p = reply pointer_reply (sys.dlsym handle symbol p)
  call_of (dlclose handle) p = reply int_reply (sys.dlclose handle p)

  abbrev pub failure : Request → Reply
  failure (pthread_attr_init attr) = int_reply minus_one
  failure (pthread_attr_destroy attr) = int_reply minus_one
  failure (pthread_attr_setstacksize attr stacksize) = int_reply minus_one
  failure (pthread_attr_setdetachstate attr detachstate) = int_reply minus_one
  failure (getrlimit resource rlp) = int_reply minus_one
  failure (setrlimit resource rlp) = int_reply minus_one
  failure (signal signum handler) = pointer_reply sys.sig_err
  failure (dlopen filename flag) = pointer_reply null
  failure (dlsym handle symbol) = pointer_reply null
  failure (dlclose handle) = int_reply minus_one

  pub perform-guards :
      (r : Request) (p : Process W)
      → perform r p ≡ (if any_null (guarded r) then refused (failure r) p else call_of r p)
  perform-guards (pthread_attr_init attr) p = ground arith
  perform-guards (pthread_attr_destroy attr) p = ground arith
  perform-guards (pthread_attr_setstacksize attr stacksize) p = ground arith
  perform-guards (pthread_attr_setdetachstate attr detachstate) p = ground arith
  perform-guards (getrlimit resource rlp) p = ground arith
  perform-guards (setrlimit resource rlp) p = ground arith
  perform-guards (signal signum handler) p = ground arith
  perform-guards (dlopen filename flag) p = ground arith
  perform-guards (dlsym handle symbol) p = ground arith
  perform-guards (dlclose handle) p = ground arith
