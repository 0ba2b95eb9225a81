-- ===== src/LogCache/Tests.antt =====
-- A cache of two buffers that shares one text for every number.
use cppfastdevelop.Prelude.{ℕ, some, ◌≡◌, refl, List, [], ◌∷◌, ◌++◌, take, drop, arith}
use cppfastdevelop.NetServer.Buffer.{zeros}
use cppfastdevelop.NetServer.Buffer.Laws.{length-zeros}
use cppfastdevelop.Utility.Program.{terminated}
use cppfastdevelop.LogCache.{Formats, LogCache, Entry, built, print_at, buf_len, prefix_len}
use cppfastdevelop.LogCache.Message.{built-message}

abbrev fourteen : List ℕ
fourteen = 1 ∷ 1 ∷ 1 ∷ 1 ∷ 1 ∷ 1 ∷ 1 ∷ 1 ∷ 1 ∷ 1 ∷ 1 ∷ 1 ∷ 1 ∷ 1 ∷ []

abbrev formats : Formats (List ℕ)
formats = record {
  time_text = λ n. zeros 18;
  usec_text = λ n l. fourteen;
  pidtid_text = λ p t. 91 ∷ 32 ∷ [];
  line_text = λ n. 55 ∷ 32 ∷ [];
  write_file = λ bs w. w ++ bs;
}

abbrev entry : Entry
entry = record {
  level = 2;
  len = 3;
  file_name = 102 ∷ 0 ∷ [];
  line_num = 7;
  func_name = 103 ∷ 0 ∷ [];
  pid = 5;
  tid = 6;
  seconds = 9;
  useconds = 0;
}

abbrev cache : LogCache (List ℕ)
cache = record {
  file = 10 ∷ [];
  level = 1;
  last_time_cache = zeros 19;
  dest_buf = zeros 8192 ∷ zeros 8192 ∷ [];
  idx = 0 ∷ 0 ∷ [];
  current_loop = 0;
  last_pid = 0;
  last_tid = 0;
  pidtid_cache = [];
}

built-message_example :
    (line : List ℕ × ℕ) × (built formats entry cache
        (print_at prefix_len buf_len (65 ∷ 66 ∷ 67 ∷ []) (zeros 8192))
      ≡ some line)
    × (take entry.len (drop prefix_len line.0) ≡ 65 ∷ 66 ∷ 67 ∷ [])
unfolding terminated
built-message_example =
    built-message formats entry cache (zeros 8192) (65 ∷ 66 ∷ 67 ∷ []) refl refl (omega arith)
      (length-zeros 8192) (omega arith) (omega arith) (omega arith)
