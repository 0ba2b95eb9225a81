-- ===== src/LogNonCache.antt =====
-- `LogNonCache` of cpplibrary/log/include/log/cl_log.hpp: a log that writes each line to its file.
--
-- What `snprintf` makes of the numbers and names is a parameter, as are the clock and the file.
pub mod Line
mod Tests
use cppfastdevelop.Prelude.{
  ℕ, zero, suc, ◌+◌, ◌-◌, Bool, true, false, Option, none, some, List, [], ◌∷◌, ◌++◌, length, take,
  ltb, ◌==◌, ℤ, pos, if◌then◌else◌,
}
use cppfastdevelop.NetServer.Buffer.{zeros, store}
use cppfastdevelop.LogCache.{print_at}

-- `LEVEL`, by its number, and the letters of `LEVELNAME`.
abbrev pub level_name : ℕ → ℕ
level_name zero = b'D'
level_name (suc zero) = b'I'
level_name (suc (suc zero)) = b'N'
level_name (suc (suc (suc zero))) = b'W'
level_name (suc (suc (suc (suc zero)))) = b'E'
level_name (suc (suc (suc (suc (suc zero))))) = b'C'
level_name (suc (suc (suc (suc (suc (suc n)))))) = b'F'

-- The formats "%4d%02d%02d %02d:%02d:%02d" of a time, ".%03d", " p%d", " t%u" and "%04d ", without
-- their NUL; `gettimeofday`, with none where it fails; and the file.
pub record Calls (W : Type 0) : Type 0 where
  pub time_text : ℕ → List ℕ
  pub usec_text : ℕ → List ℕ
  pub pid_text : ℕ → List ℕ
  pub tid_text : ℕ → List ℕ
  pub line_text : ℕ → List ℕ
  pub gettimeofday : W → W × Option (ℕ × ℕ)
  pub open_file : List ℕ → ℕ → ℕ → W → W × Option ℕ
  pub write : ℕ → List ℕ → W → W × ℤ
  pub fsync : ℕ → W → W
  pub close : ℕ → W → W

abbrev pub max_msg_len : ℕ
max_msg_len = 8192

-- `_lastSeconds` stays 0, as the constructor sets it.
pub record LogNonCache : Type 0 where
  pub fd : ℕ
  pub level : ℕ
  pub last_time_cache : List ℕ
  pub dest_buf : List ℕ
  pub idx : ℕ

-- A call returns, or throws `SyscallExecuteError`; or it has written over the end of `_destBuf`,
-- where `_idx` stands, and what it does then is not said.
pub data Outcome (B : Type 0) : Type 0 where
  returned : B → Outcome B
  threw overrun : Outcome B

-- The names of the arguments of `Write` and `WriteVerbose`.
pub record Entry : Type 0 where
  pub level : ℕ
  pub message : List ℕ
  pub file_name : List ℕ
  pub line_num : ℕ
  pub pid : ℕ
  pub tid : ℕ

-- NOTICE, on a file that is open.
abbrev pub on_fd : ℕ → LogNonCache
on_fd fd = record {
  fd = fd;
  level = 2;
  last_time_cache = zeros 18;
  dest_buf = zeros max_msg_len;
  idx = 0;
}

-- `snprintf` of each text into as many bytes as its size, with `_idx` going on by the size.
abbrev pub print_fields : List (ℕ × List ℕ) → ℕ → List ℕ → List ℕ × ℕ
print_fields [] i p = (p, i)
print_fields ((size, text) ∷ fields) i p = print_fields fields (i + size) (print_at i size text p)

-- The line in the buffer, and `_idx` behind it, if the message and its newline fit the buffer.
abbrev pub with_message : List ℕ → List ℕ × ℕ → Option (List ℕ × ℕ)
with_message message (p, i) =
    if ltb (length p) (i + length message + 1)
    then none
    else some (store (i + length message) (10 ∷ []) (store i message p), i + length message + 1)

abbrev pub built : List (ℕ × List ℕ) → List ℕ → List ℕ → Option (List ℕ × ℕ)
built fields time message =
    with_message message (print_fields fields 17 (store 0 (take 17 time) (zeros max_msg_len)))

module _ {W : Type 0} (sys : Calls W) where
  abbrev pub opened : W × Option ℕ → W × Outcome LogNonCache
  opened (w, none) = (w, threw)
  opened (w, some fd) = (w, returned (on_fd fd))

  -- The constructor with a name.
  abbrev pub make_log : List ℕ → ℕ → ℕ → W → W × Outcome LogNonCache
  make_log name flags mode w = opened (sys.open_file name flags mode w)

  abbrev pub destroy_log : LogNonCache → W → W
  destroy_log c w = if ltb 2 c.fd then sys.close c.fd (sys.fsync c.fd w) else w

  abbrev pub set_level : ℕ → LogNonCache → LogNonCache
  set_level level c = record c { level = level }

  abbrev pub get_level : LogNonCache → ℕ
  get_level c = c.level

  -- `_lastTimeCache` behind the test of the seconds.
  abbrev pub time_cache : ℕ → LogNonCache → List ℕ
  time_cache seconds c =
      if seconds == 0
      then c.last_time_cache
      else print_at 0 18 (sys.time_text seconds) c.last_time_cache

  -- The texts behind the time, with the bytes that each may take with its NUL.
  abbrev pub fields_of : Entry → ℕ → List (ℕ × List ℕ)
  fields_of e useconds =
      (5, sys.usec_text useconds)
      ∷ (3, 32 ∷ level_name e.level ∷ [])
      ∷ (32, 32 ∷ (e.file_name ++ 58 ∷ []))
      ∷ (6, sys.line_text e.line_num)
      ∷ []

  abbrev pub verbose_fields_of : Entry → ℕ → List (ℕ × List ℕ)
  verbose_fields_of e useconds =
      (5, sys.usec_text useconds)
      ∷ (3, 32 ∷ level_name e.level ∷ [])
      ∷ (16, sys.pid_text e.pid)
      ∷ (16, sys.tid_text e.tid)
      ∷ (32, e.file_name ++ 58 ∷ [])
      ∷ (6, sys.line_text e.line_num)
      ∷ []

  -- The write of a line that has been built.
  abbrev pub sent_line :
      LogNonCache → List ℕ → Option (List ℕ × ℕ) → W → W × LogNonCache × Outcome ℤ
  sent_line c time none w = (w, record c { last_time_cache = time }, overrun)
  sent_line c time (some (buf, i)) w =
      let (w', rt) = sys.write c.fd (take i buf) w in
      (w', record c { last_time_cache = time; dest_buf = buf; idx = i }, returned rt)

  abbrev pub written :
      (Entry → ℕ → List (ℕ × List ℕ))
      → Entry
      → LogNonCache
      → W × Option (ℕ × ℕ)
      → W × LogNonCache × Outcome ℤ
  written fields e c (w, none) = (w, c, threw)
  written fields e c (w, some (seconds, useconds)) =
      let time = time_cache seconds c in
      sent_line c time (built (fields e useconds) time e.message) w

  abbrev pub write_with :
      (Entry → ℕ → List (ℕ × List ℕ)) → Entry → LogNonCache → W → W × LogNonCache × Outcome ℤ
  write_with fields e c w =
      if ltb e.level c.level
      then (w, c, returned (pos 0))
      else written fields e c (sys.gettimeofday w)

  -- `Write` and `WriteVerbose`.
  abbrev pub write_line : Entry → LogNonCache → W → W × LogNonCache × Outcome ℤ
  write_line = write_with fields_of

  abbrev pub write_verbose : Entry → LogNonCache → W → W × LogNonCache × Outcome ℤ
  write_verbose = write_with verbose_fields_of
