-- ===== src/SystemStub/Text.antt =====
-- The functions of cppfoundation/src/stub/cf_system_stub.c on memory and strings
-- that look at their pointers before they call the system.
use cppfastdevelop.Prelude.{ℕ, ◌≡◌, ◌||◌, ◌&&◌, List, [], ◌∷◌, ℤ, pos, ◌==◌, if◌then◌else◌, arith}
use cppfastdevelop.SystemStub.Calling.{
  Pointer, null, Process, Call, Reply, int_reply, size_reply, pointer_reply, reply, is_null,
  any_null, minus_one, refused,
}

-- The system's functions, with what the variable arguments are passed on as.
pub record Calls (W : Type 0) : Type 0 where
  pub memset : Pointer → ℤ → ℕ → Call W Pointer
  pub memcpy : Pointer → Pointer → ℕ → Call W Pointer
  pub memmove : Pointer → Pointer → ℕ → Call W Pointer
  pub strcpy : Pointer → Pointer → Call W Pointer
  pub strncpy : Pointer → Pointer → ℕ → Call W Pointer
  pub memchr : Pointer → ℤ → ℕ → Call W Pointer
  pub strchr : Pointer → ℤ → Call W Pointer
  pub strstr : Pointer → Pointer → Call W Pointer
  pub vsprintf : Pointer → Pointer → Pointer → Call W ℤ
  pub vsnprintf : Pointer → ℕ → Pointer → Pointer → Call W ℤ
  pub strlen : Pointer → Call W ℕ
  pub localtime_r : Pointer → Pointer → Call W Pointer
  pub va_list : List Pointer → Pointer
  pub strcmp : Pointer → Pointer → Call W ℤ
  pub strncmp : Pointer → Pointer → ℕ → Call W ℤ
  pub memcmp : Pointer → Pointer → ℕ → Call W ℤ
  pub free : Pointer → Call W (Unit {0})

module _ {W : Type 0} (sys : Calls W) where
  abbrev pub cf_memset : Pointer → ℤ → ℕ → Call W Pointer
  cf_memset s c n p =
      if is_null s then refused null p else (if n == 0 then (p, s) else sys.memset s c n p)

  abbrev pub cf_memcpy : Pointer → Pointer → ℕ → Call W Pointer
  cf_memcpy dest src n p =
      if is_null dest || is_null src
      then refused null p
      else (if n == 0 then (p, dest) else sys.memcpy dest src n p)

  abbrev pub cf_memmove : Pointer → Pointer → ℕ → Call W Pointer
  cf_memmove dest src n p =
      if is_null dest || is_null src
      then refused null p
      else (if n == 0 then (p, dest) else sys.memmove dest src n p)

  abbrev pub cf_strcpy : Pointer → Pointer → Call W Pointer
  cf_strcpy dest src p =
      if is_null dest || is_null src then refused null p else sys.strcpy dest src p

  abbrev pub cf_strncpy : Pointer → Pointer → ℕ → Call W Pointer
  cf_strncpy dest src n p =
      if is_null dest || is_null src
      then refused null p
      else (if n == 0 then (p, dest) else sys.strncpy dest src n p)

  abbrev pub cf_memchr : Pointer → ℤ → ℕ → Call W Pointer
  cf_memchr s c n p = if is_null s then refused null p else sys.memchr s c n p

  abbrev pub cf_strchr : Pointer → ℤ → Call W Pointer
  cf_strchr s c p = if is_null s then refused null p else sys.strchr s c p

  abbrev pub cf_strstr : Pointer → Pointer → Call W Pointer
  cf_strstr haystack needle p =
      if is_null haystack || is_null needle then refused null p else sys.strstr haystack needle p

  abbrev pub cf_sprintf : Pointer → Pointer → List Pointer → Call W ℤ
  cf_sprintf str format args p =
      if is_null str || is_null format
      then refused (pos 0) p
      else sys.vsprintf str format (sys.va_list args) p

  abbrev pub cf_snprintf : Pointer → ℕ → Pointer → List Pointer → Call W ℤ
  cf_snprintf str size format args p =
      if is_null str || is_null format
      then refused (pos 0) p
      else (if size == 0 then (p, pos 0) else sys.vsnprintf str size format (sys.va_list args) p)

  abbrev pub cf_vsnprintf : Pointer → ℕ → Pointer → Pointer → Call W ℤ
  cf_vsnprintf str size format ap p =
      if is_null str || is_null format
      then refused (pos 0) p
      else (if size == 0 then (p, pos 0) else sys.vsnprintf str size format ap p)

  abbrev pub cf_strlen : Pointer → Call W ℕ
  cf_strlen s p = if is_null s then refused 0 p else sys.strlen s p

  abbrev pub cf_localtime_r : Pointer → Pointer → Call W Pointer
  cf_localtime_r timep result p =
      if is_null timep then refused null p else sys.localtime_r timep result p

  -- Two null pointers are the same text, and one is before any other.
  abbrev pub compared : Pointer → Pointer → Call W ℤ → Call W ℤ
  compared s1 s2 call p =
      if is_null s1 && is_null s2
      then (p, pos 0)
      else (if is_null s1 || is_null s2 then refused minus_one p else call p)

  abbrev pub cf_strcmp : Pointer → Pointer → Call W ℤ
  cf_strcmp s1 s2 p = compared s1 s2 (sys.strcmp s1 s2) p

  abbrev pub cf_strncmp : Pointer → Pointer → ℕ → Call W ℤ
  cf_strncmp s1 s2 n p = compared s1 s2 (sys.strncmp s1 s2 n) p

  abbrev pub cf_memcmp : Pointer → Pointer → ℕ → Call W ℤ
  cf_memcmp s1 s2 n p = compared s1 s2 (sys.memcmp s1 s2 n) p

  abbrev pub cf_free : Pointer → Call W (Unit {0})
  cf_free ptr p = if is_null ptr then refused tt p else sys.free ptr p

-- A call of one of them.
pub data Request : Type 0 where
  memset : Pointer → ℤ → ℕ → Request
  memcpy : Pointer → Pointer → ℕ → Request
  memmove : Pointer → Pointer → ℕ → Request
  strcpy : Pointer → Pointer → Request
  strncpy : Pointer → Pointer → ℕ → Request
  memchr : Pointer → ℤ → ℕ → Request
  strchr : Pointer → ℤ → Request
  strstr : Pointer → Pointer → Request
  sprintf : Pointer → Pointer → List Pointer → Request
  snprintf : Pointer → ℕ → Pointer → List Pointer → Request
  vsnprintf : Pointer → ℕ → Pointer → Pointer → Request
  strlen : Pointer → Request
  localtime_r : Pointer → Pointer → Request

-- The pointers that it must not be given null.
abbrev pub guarded : Request → List Pointer
guarded (memset s c n) = s ∷ []
guarded (memcpy dest src n) = dest ∷ src ∷ []
guarded (memmove dest src n) = dest ∷ src ∷ []
guarded (strcpy dest src) = dest ∷ src ∷ []
guarded (strncpy dest src n) = dest ∷ src ∷ []
guarded (memchr s c n) = s ∷ []
guarded (strchr s c) = s ∷ []
guarded (strstr haystack needle) = haystack ∷ needle ∷ []
guarded (sprintf str format args) = str ∷ format ∷ []
guarded (snprintf str size format args) = str ∷ format ∷ []
guarded (vsnprintf str size format ap) = str ∷ format ∷ []
guarded (strlen s) = s ∷ []
guarded (localtime_r timep result) = timep ∷ []

module _ {W : Type 0} (sys : Calls W) where
  abbrev pub perform : Request → Call W Reply
  perform (memset s c n) p = reply pointer_reply (cf_memset sys s c n p)
  perform (memcpy dest src n) p = reply pointer_reply (cf_memcpy sys dest src n p)
  perform (memmove dest src n) p = reply pointer_reply (cf_memmove sys dest src n p)
  perform (strcpy dest src) p = reply pointer_reply (cf_strcpy sys dest src p)
  perform (strncpy dest src n) p = reply pointer_reply (cf_strncpy sys dest src n p)
  perform (memchr s c n) p = reply pointer_reply (cf_memchr sys s c n p)
  perform (strchr s c) p = reply pointer_reply (cf_strchr sys s c p)
  perform (strstr haystack needle) p = reply pointer_reply (cf_strstr sys haystack needle p)
  perform (sprintf str format args) p = reply int_reply (cf_sprintf sys str format args p)
  perform (snprintf str size format args) p =
      reply int_reply (cf_snprintf sys str size format args p)
  perform (vsnprintf str size format ap) p = reply int_reply (cf_vsnprintf sys str size format ap p)
  perform (strlen s) p = reply size_reply (cf_strlen sys s p)
  perform (localtime_r timep result) p = reply pointer_reply (cf_localtime_r sys timep result p)

  -- What it does for other pointers, and what it returns for null.
  abbrev pub call_of : Request → Call W Reply
  call_of (memset s c n) p = reply pointer_reply (if n == 0 then (p, s) else sys.memset s c n p)
  call_of (memcpy dest src n) p =
      reply pointer_reply (if n == 0 then (p, dest) else sys.memcpy dest src n p)
  call_of (memmove dest src n) p =
      reply pointer_reply (if n == 0 then (p, dest) else sys.memmove dest src n p)
  call_of (strcpy dest src) p = reply pointer_reply (sys.strcpy dest src p)
  call_of (strncpy dest src n) p =
      reply pointer_reply (if n == 0 then (p, dest) else sys.strncpy dest src n p)
  call_of (memchr s c n) p = reply pointer_reply (sys.memchr s c n p)
  call_of (strchr s c) p = reply pointer_reply (sys.strchr s c p)
  call_of (strstr haystack needle) p = reply pointer_reply (sys.strstr haystack needle p)
  call_of (sprintf str format args) p =
      reply int_reply (sys.vsprintf str format (sys.va_list args) p)
  call_of (snprintf str size format args) p =
      reply int_reply
        (if size == 0 then (p, pos 0) else sys.vsnprintf str size format (sys.va_list args) p)
  call_of (vsnprintf str size format ap) p =
      reply int_reply (if size == 0 then (p, pos 0) else sys.vsnprintf str size format ap p)
  call_of (strlen s) p = reply size_reply (sys.strlen s p)
  call_of (localtime_r timep result) p = reply pointer_reply (sys.localtime_r timep result p)

  abbrev pub failure : Request → Reply
  failure (memset s c n) = pointer_reply null
  failure (memcpy dest src n) = pointer_reply null
  failure (memmove dest src n) = pointer_reply null
  failure (strcpy dest src) = pointer_reply null
  failure (strncpy dest src n) = pointer_reply null
  failure (memchr s c n) = pointer_reply null
  failure (strchr s c) = pointer_reply null
  failure (strstr haystack needle) = pointer_reply null
  failure (sprintf str format args) = int_reply (pos 0)
  failure (snprintf str size format args) = int_reply (pos 0)
  failure (vsnprintf str size format ap) = int_reply (pos 0)
  failure (strlen s) = size_reply 0
  failure (localtime_r timep result) = pointer_reply null

  pub perform-guards :
      (r : Request) (p : Process W)
      → perform r p ≡ (if any_null (guarded r) then refused (failure r) p else call_of r p)
  perform-guards (memset s c n) p = ground arith
  perform-guards (memcpy dest src n) p = ground arith
  perform-guards (memmove dest src n) p = ground arith
  perform-guards (strcpy dest src) p = ground arith
  perform-guards (strncpy dest src n) p = ground arith
  perform-guards (memchr s c n) p = ground arith
  perform-guards (strchr s c) p = ground arith
  perform-guards (strstr haystack needle) p = ground arith
  perform-guards (sprintf str format args) p = ground arith
  perform-guards (snprintf str size format args) p = ground arith
  perform-guards (vsnprintf str size format ap) p = ground arith
  perform-guards (strlen s) p = ground arith
  perform-guards (localtime_r timep result) p = ground arith
