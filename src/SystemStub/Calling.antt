-- ===== src/SystemStub/Calling.antt =====
-- Pointers, `errno`, and what the functions of cf_system_stub.c return where they do not call the
-- system.
use cppfastdevelop.Prelude.{
  ℕ, zero, suc, Bool, true, false, ◌||◌, List, [], ◌∷◌, ℤ, pos, negsuc, ◌==◌,
}

-- Addresses; `NULL` is 0.
abbrev pub Pointer : Type 0
Pointer = ℕ

abbrev pub null : Pointer
null = 0

abbrev pub is_null : Pointer → Bool
is_null q = q == 0

abbrev pub any_null : List Pointer → Bool
any_null [] = false
any_null (q ∷ []) = is_null q
any_null (q ∷ r ∷ qs) = is_null q || any_null (r ∷ qs)

-- A process: its `errno`, and the world that the system's functions change with it.
pub record Process (W : Type 0) : Type 0 where
  pub errno : ℕ
  pub world : W

abbrev pub Call : Type 0 → Type 0 → Type 0
Call W R = Process W → Process W × R

pub data Reply : Type 0 where
  int_reply : ℤ → Reply
  size_reply : ℕ → Reply
  pointer_reply : Pointer → Reply

abbrev pub reply : {W R : Type 0} → (R → Reply) → Process W × R → Process W × Reply
reply f (p, r) = (p, f r)

abbrev pub minus_one : ℤ
minus_one = negsuc 0

abbrev pub is_minus_one : ℤ → Bool
is_minus_one (pos n) = false
is_minus_one (negsuc zero) = true
is_minus_one (negsuc (suc n)) = false

-- CF_E_NULLPARAMS and EBADF.
abbrev pub e_nullparams : ℕ
e_nullparams = 8192

abbrev pub ebadf : ℕ
ebadf = 9

abbrev pub refused : {W R : Type 0} → R → Call W R
refused r p = (record p { errno = e_nullparams }, r)

abbrev pub bad_descriptor : {W R : Type 0} → R → Call W R
bad_descriptor r p = (record p { errno = ebadf }, r)
