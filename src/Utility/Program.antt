-- ===== src/Utility/Program.antt =====
-- The parts of a path, of cf_utility_program.hpp: file name, directory, and the directory above a
-- program's.
--
-- `pp` is the characters of a C string. A buffer is a list of characters too, and `terminated`
-- reads it up to its first NUL.
pub mod Slash
pub mod Parts
mod Tests
use cppfastdevelop.Prelude.{
  ℕ, zero, suc, ◌+◌, ◌-◌, Bool, true, false, ◌&&◌, ◌||◌, Option, none, some, List, [], ◌∷◌, ◌++◌,
  length, take, drop, get_elem?, leb, ◌==◌, if◌then◌else◌, sub32, ℤ, pos, negsuc,
}
use cppfastdevelop.NetServer.Buffer.{zeros, store}

-- Whether `pp[i]` is '/'.
abbrev pub slash : Option ℕ → Bool
slash (some c) = c == 47
slash none = false

abbrev pub slash_at : List ℕ → ℕ → Bool
slash_at pp i = slash (get_elem? pp i)

-- The variables of the loop in `GetIndexByPathNameExt`; -1 is no index.
pub record Slashes : Type 0 where
  pub last1 : ℤ
  pub last2 : ℤ
  pub cnt : ℕ

abbrev pub marked : ℕ → Slashes → Slashes
marked i s =
    if s.cnt == 0
    then record { last1 = pos i; last2 = s.last2; cnt = suc s.cnt }
    else record { last1 = s.last1; last2 = pos i; cnt = suc s.cnt }

-- The loop over the indices below the number, downwards. At a third '/' it breaks.
unfoldable pub scan : List ℕ → ℕ → Slashes → Slashes
scan pp zero s = s
scan pp (suc i) s =
    if slash_at pp i && leb 2 s.cnt then s else scan pp i (if slash_at pp i then marked i s else s)

abbrev pub get_index_by_path_name_ext : List ℕ → Slashes
get_index_by_path_name_ext pp =
    scan pp (length pp) (record { last1 = negsuc 0; last2 = negsuc 0; cnt = 0 })

-- The C string at the start of a buffer.
unfoldable pub terminated : List ℕ → List ℕ
terminated [] = []
terminated (zero ∷ cs) = []
terminated (suc c ∷ cs) = suc c ∷ terminated cs

-- `memset(p,0,sizeof(p))` clears as many bytes as a pointer has.
module _ (pointer_size : ℕ) where
  -- `GetNameByPathNameExt` behind the search. The copy takes the terminator of `pp` along.
  abbrev pub name_behind : List ℕ → ℕ → List ℕ → ℤ → List ℕ
  name_behind pp pp_len p (negsuc n) = store 0 (take pp_len pp) p
  name_behind pp pp_len p (pos last1) =
      if sub32 pp_len 1 == last1
      then store 0 (0 ∷ []) p
      else store (sub32 pp_len last1) (0 ∷ []) (
          store 0 (take (sub32 pp_len last1) (drop (last1 + 1) (pp ++ 0 ∷ [])))
            (store 0 (zeros pointer_size) p))

  abbrev pub get_name_by_path_name_ext : List ℕ → ℕ → List ℕ → List ℕ
  get_name_by_path_name_ext pp pp_len p =
      name_behind pp pp_len p (get_index_by_path_name_ext pp).last1

  -- The same of `GetPathByPathNameExt`.
  abbrev pub path_before : List ℕ → List ℕ → ℤ → List ℕ
  path_before pp p (negsuc n) = store 0 (0 ∷ []) p
  path_before pp p (pos zero) = store 0 (0 ∷ []) p
  path_before pp p (pos (suc i)) =
      store (suc i) (0 ∷ []) (store 0 (take (suc i) pp) (store 0 (zeros pointer_size) p))

  abbrev pub get_path_by_path_name_ext : List ℕ → List ℕ → List ℕ
  get_path_by_path_name_ext pp p = path_before pp p (get_index_by_path_name_ext pp).last1

-- `GetExeParentAbsPath` on what `readlink` has left in the buffer.
abbrev pub cut_at : List ℕ → ℤ → ℤ → List ℕ
cut_at p (pos (suc i)) (pos (suc j)) = store (suc j) (0 ∷ []) p
cut_at p (pos (suc i)) (pos zero) = store 0 (0 ∷ []) p
cut_at p (pos (suc i)) (negsuc n) = store 0 (0 ∷ []) p
cut_at p (pos zero) last2 = store 0 (0 ∷ []) p
cut_at p (negsuc n) last2 = store 0 (0 ∷ []) p

abbrev pub parent_in : List ℕ → List ℕ → List ℕ
parent_in p [] = p
parent_in p (c ∷ cs) = let s = get_index_by_path_name_ext (c ∷ cs) in cut_at p s.last1 s.last2

abbrev pub get_exe_parent_abs_path : List ℕ → List ℕ
get_exe_parent_abs_path p = parent_in p (terminated p)
