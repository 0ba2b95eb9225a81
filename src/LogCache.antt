-- ===== src/LogCache.antt =====
-- `LogCache` of cpplibrary/log/src/cl_log_cache.cpp: lines of a log, built in buffers, which are
-- written to the file when all are in use.
--
-- What `snprintf` and `gmtime_r` make of numbers is a parameter, as is the file. A pointer to a
-- name is the bytes from it on. The characters of the format are their codes. `none` is a line that
-- is written over the end of its buffer: what becomes of the memory behind it is not said.
pub mod Message
mod Tests
use cppfastdevelop.Prelude.{
  ℕ, zero, suc, ◌+◌, ◌-◌, Bool, true, false, ◌&&◌, Option, none, some, List, [], ◌∷◌, ◌++◌, length,
  take, drop, ltb, leb, ◌==◌, if◌then◌else◌,
}
use cppfastdevelop.NetServer.Buffer.{zeros, store}
use cppfastdevelop.Utility.Program.{terminated}

-- The formats "%4d%02d%02d %02d:%02d:%02d." of a time, "%06d %6s " of microseconds and a level, "
-- [pid:%d tid:%u  " and "%d ", without their NUL; and the write of some bytes to the file.
pub record Formats (W : Type 0) : Type 0 where
  pub time_text : ℕ → List ℕ
  pub usec_text : ℕ → ℕ → List ℕ
  pub pidtid_text : ℕ → ℕ → List ℕ
  pub line_text : ℕ → List ℕ
  pub write_file : List ℕ → W → W

-- CL_LOG_MAX_MSG_LEN, CL_LOG_MAX_LOOP, CL_LOG_PREFIX_LEN and CL_LOG_SUFFIX_LEN.
abbrev pub max_msg_len : ℕ
max_msg_len = 8192

abbrev pub max_loop : ℕ
max_loop = 1024

abbrev pub prefix_len : ℕ
prefix_len = 33

abbrev pub suffix_len : ℕ
suffix_len = 200

-- `GetBufLen`.
abbrev pub buf_len : ℕ
buf_len = max_msg_len - prefix_len

-- The object with its file. `_lastSeconds` stays 0, as the constructor sets it; the buffers in use
-- are the first `_currentLoop`.
pub record LogCache (W : Type 0) : Type 0 where
  pub file : W
  pub level : ℕ
  pub last_time_cache : List ℕ
  pub dest_buf : List (List ℕ)
  pub idx : List ℕ
  pub current_loop : ℕ
  pub last_pid : ℕ
  pub last_tid : ℕ
  pub pidtid_cache : List ℕ

-- `_lastPid`, `_lastTid` and `_pidtidCache`.
pub record Kept : Type 0 where
  pub pid : ℕ
  pub tid : ℕ
  pub text : List ℕ

-- The arguments of `Write`, and the time of the call.
pub record Entry : Type 0 where
  pub level : ℕ
  pub len : ℕ
  pub file_name : List ℕ
  pub line_num : ℕ
  pub func_name : List ℕ
  pub pid : ℕ
  pub tid : ℕ
  pub seconds : ℕ
  pub useconds : ℕ

module _ {ℓ} {A : Type ℓ} where
  -- The element at an index, or what is given where there is none; and a write of it.
  abbrev pub at : A → ℕ → List A → A
  at a i [] = a
  at a zero (x ∷ xs) = x
  at a (suc i) (x ∷ xs) = at a i xs

  abbrev pub set_at : ℕ → A → List A → List A
  set_at i a [] = []
  set_at zero a (x ∷ xs) = a ∷ xs
  set_at (suc i) a (x ∷ xs) = x ∷ set_at i a xs

-- `AllocBuf`.
unfoldable pub alloc_buf : ℕ → ℕ → List (List ℕ) → List (List ℕ)
alloc_buf max_len zero bufs = bufs
alloc_buf max_len (suc n) bufs = alloc_buf max_len n (bufs ++ zeros max_len ∷ [])

-- `snprintf` into `size` bytes at an offset.
abbrev pub print_at : ℕ → ℕ → List ℕ → List ℕ → List ℕ
print_at at size text p = store at (take (size - 1) text ++ 0 ∷ []) p

-- A line is built where every byte of it is stored in the buffer.
abbrev pub within : List ℕ × ℕ → Option (List ℕ × ℕ)
within (p, i) = if leb (length p) max_msg_len then some (p, i) else none

module _ {W : Type 0} (fs : Formats W) where
  -- The constructor and `Init`, on a file that is open.
  abbrev pub init_cache : W → LogCache W
  init_cache file = record {
    file = file;
    level = 0;
    last_time_cache = zeros 19;
    dest_buf = alloc_buf max_msg_len max_loop [];
    idx = zeros max_loop;
    current_loop = 0;
    last_pid = 0;
    last_tid = 0;
    pidtid_cache = [];
  }

  abbrev pub set_level : ℕ → LogCache W → LogCache W
  set_level level c = record c { level = level }

  -- `_lastTimeCache` behind the test of the seconds.
  abbrev pub time_cache : Entry → LogCache W → List ℕ
  time_cache e c =
      if e.seconds == 0
      then c.last_time_cache
      else store 0 (take 18 (fs.time_text e.seconds) ++ 0 ∷ []) c.last_time_cache

  -- The prefix in a buffer, and the index behind it.
  abbrev pub with_prefix : Entry → List ℕ → List ℕ → List ℕ
  with_prefix e time p =
      let text = fs.usec_text e.useconds e.level in
      store (18 + length text) (32 ∷ []) (print_at 18 15 text (store 0 (take 18 time) p))

  abbrev pub prefix_end : Entry → ℕ
  prefix_end e = 18 + length (fs.usec_text e.useconds e.level) + 1

  -- The text of process and thread that stands at the offset, and its length.
  abbrev pub is_cached : Entry → LogCache W → Bool
  is_cached e c = (e.pid == c.last_pid) && (e.tid == c.last_tid)

  abbrev pub pidtid_bytes : Entry → LogCache W → List ℕ
  pidtid_bytes e c =
      if is_cached e c
      then c.pidtid_cache
      else take (suffix_len - 1) (fs.pidtid_text e.pid e.tid) ++ 0 ∷ []

  abbrev pub pidtid_len : Entry → LogCache W → ℕ
  pidtid_len e c =
      if is_cached e c then length c.pidtid_cache else length (fs.pidtid_text e.pid e.tid)

  -- The suffix from the offset on: the name of the file, a colon, the line, the function and "]\n".
  abbrev pub with_names : Entry → ℕ → List ℕ → List ℕ × ℕ
  with_names e i p =
      let colon = i + length (terminated e.file_name) in
      let func = colon + 1 + length (fs.line_text e.line_num) in
      let end = func + length (terminated e.func_name) in
      (
        store end (93 ∷ 10 ∷ []) (
            store func (take 128 e.func_name) (
              print_at (colon + 1) 6 (fs.line_text e.line_num)
                (store colon (58 ∷ []) (store i (take 128 e.file_name) p)))),
        end + 2,
      )

  -- `idx += n-1` goes a byte back where the text that is kept is empty.
  abbrev pub with_suffix : Entry → ℕ → LogCache W → List ℕ → List ℕ × ℕ
  with_suffix e i c p = with_names e (i + pidtid_len e c - 1) (store i (pidtid_bytes e c) p)

  -- The line in its buffer, with its length: where the message is too long, the buffer is cut.
  abbrev pub built : Entry → LogCache W → List ℕ → Option (List ℕ × ℕ)
  built e c p =
      let q = with_prefix e (time_cache e c) p in
      let i = prefix_end e in
      if ltb (i + e.len + suffix_len) max_msg_len
      then within (with_suffix e (i + e.len) c q)
      else within (store (max_msg_len - 1) (10 ∷ []) q, max_msg_len)

  -- The text that is kept: `_pidtidCache.assign(p+idx,n)` behind the print, if the suffix is built.
  abbrev pub kept_text : Entry → LogCache W → List ℕ → Kept
  kept_text e c p =
      let i = prefix_end e + e.len in
      if ltb (i + suffix_len) max_msg_len
      then record {
        pid = e.pid;
        tid = e.tid;
        text =
            if is_cached e c
            then c.pidtid_cache
            else take (length (fs.pidtid_text e.pid e.tid))
                (drop i (store i (pidtid_bytes e c) (with_prefix e (time_cache e c) p)));
      }
      else record { pid = c.last_pid; tid = c.last_tid; text = c.pidtid_cache }

  -- The bytes of the buffers in use, in order, as `Flush` writes them.
  unfoldable pub flush_loop : ℕ → List (List ℕ) → List ℕ → W → W
  flush_loop zero bufs idx w = w
  flush_loop (suc n) [] idx w = w
  flush_loop (suc n) (p ∷ bufs) [] w = w
  flush_loop (suc n) (p ∷ bufs) (i ∷ idx) w = flush_loop n bufs idx (fs.write_file (take i p) w)

  abbrev pub flush : LogCache W → LogCache W
  flush c = record c { file = flush_loop c.current_loop c.dest_buf c.idx c.file; current_loop = 0 }

  abbrev pub line_stored : Entry → LogCache W → Kept → Option (List ℕ × ℕ) → Option (LogCache W)
  line_stored e c k none = none
  line_stored e c k (some line) = some (record c {
    last_pid = k.pid;
    last_tid = k.tid;
    pidtid_cache = k.text;
    last_time_cache = time_cache e c;
    dest_buf = set_at c.current_loop line.0 c.dest_buf;
    idx = set_at c.current_loop line.1 c.idx;
    current_loop = suc c.current_loop;
  })

  -- `Write` of an entry that is not below the level.
  abbrev pub stored_line : Entry → LogCache W → Option (LogCache W)
  stored_line e c =
      let p = at [] c.current_loop c.dest_buf in line_stored e c (kept_text e c p) (built e c p)

  abbrev pub flush_if_full : Option (LogCache W) → Option (LogCache W)
  flush_if_full none = none
  flush_if_full (some c) = some (if c.current_loop == length c.dest_buf then flush c else c)

  abbrev pub write_entry : Entry → LogCache W → Option (LogCache W)
  write_entry e c = if ltb e.level c.level then some c else flush_if_full (stored_line e c)

  -- The `snprintf` of CLLOGC: the message in the buffer that is next, from `GetBuf` on, cut to
  -- `GetBufLen` bytes with its NUL.
  abbrev pub put_message : List ℕ → LogCache W → LogCache W
  put_message bytes c = record c {
    dest_buf =
        set_at c.current_loop (print_at prefix_len buf_len bytes (at [] c.current_loop c.dest_buf))
          c.dest_buf;
  }
