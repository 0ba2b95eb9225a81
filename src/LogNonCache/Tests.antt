-- ===== src/LogNonCache/Tests.antt =====
-- A log of texts of one letter, at the time 5, into a file that is the list of what is written.
use cppfastdevelop.Prelude.{ℕ, ◌≡◌, refl, some, List, [], ◌∷◌, ◌++◌, length, pos}
use cppfastdevelop.LogNonCache.{Calls, Entry, returned, on_fd, write_line, write_verbose}
use cppfastdevelop.LogNonCache.Line.{WritesOrOverruns, write_line-Writes}

abbrev system : Calls (List (List ℕ))
system = record {
  time_text = λ n. b't' ∷ [];
  usec_text = λ n. b'u' ∷ [];
  pid_text = λ n. b'p' ∷ [];
  tid_text = λ n. b'd' ∷ [];
  line_text = λ n. b'l' ∷ [];
  gettimeofday = λ w. (w, some (5, 6));
  open_file = λ name flags mode w. (w, some 3);
  write = λ fd bytes w. (w ++ bytes ∷ [], pos (length bytes));
  fsync = λ fd w. w;
  close = λ fd w. w;
}

abbrev entry : Entry
entry = record {
  level = 3;
  message = b'h' ∷ b'i' ∷ [];
  file_name = b'f' ∷ [];
  line_num = 7;
  pid = 1;
  tid = 2;
}

-- An entry below NOTICE is not written.
below_level :
    write_line system (record entry { level = 1 }) (on_fd 3) [] ≡ ([], on_fd 3, returned (pos 0))
below_level = refl

write_line-Writes_example :
    WritesOrOverruns system 63 entry (on_fd 3) [] (write_line system entry (on_fd 3) [])
    × WritesOrOverruns system 95 entry (on_fd 3) [] (write_verbose system entry (on_fd 3) [])
write_line-Writes_example = write_line-Writes system entry (on_fd 3) [] 5 6 refl refl
