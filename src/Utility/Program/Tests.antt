-- ===== src/Utility/Program/Tests.antt =====
-- The path "/a/bc" and its parts, in buffers of eight characters and a machine with pointers of two.
use cppfastdevelop.Prelude.{ℕ, ◌≡◌, refl, List, [], ◌∷◌, pos}
use cppfastdevelop.NetServer.Buffer.{zeros}
use cppfastdevelop.Utility.Program.{
  scan, get_index_by_path_name_ext, terminated, get_name_by_path_name_ext,
  get_path_by_path_name_ext, get_exe_parent_abs_path,
}
use cppfastdevelop.Utility.Program.Slash.{IsFound, get_index-IsFound}

abbrev bc : List ℕ
bc = 47 ∷ 97 ∷ 47 ∷ 98 ∷ 99 ∷ []

abbrev dirty : List ℕ
dirty = 1 ∷ 1 ∷ 1 ∷ 1 ∷ 1 ∷ 1 ∷ 1 ∷ 1 ∷ []

bc_slashes : get_index_by_path_name_ext bc ≡ record { last1 = pos 2; last2 = pos 0; cnt = 2 }
unfolding scan
bc_slashes = refl

bc_name : get_name_by_path_name_ext 2 bc 5 dirty ≡ 98 ∷ 99 ∷ 0 ∷ 0 ∷ 1 ∷ 1 ∷ 1 ∷ 1 ∷ []
unfolding scan zeros
bc_name = refl

bc_path : get_path_by_path_name_ext 2 bc dirty ≡ 47 ∷ 97 ∷ 0 ∷ 1 ∷ 1 ∷ 1 ∷ 1 ∷ 1 ∷ []
unfolding scan zeros
bc_path = refl

-- A name without a '/' is copied without its NUL.
name_unterminated :
    terminated (get_name_by_path_name_ext 2 (97 ∷ []) 1 dirty) ≡ 97 ∷ 1 ∷ 1 ∷ 1 ∷ 1 ∷ 1 ∷ 1 ∷ 1 ∷ []
unfolding scan zeros terminated
name_unterminated = refl

-- "/a/b/c" as the program's own path.
bc_parent :
    terminated (get_exe_parent_abs_path (47 ∷ 97 ∷ 47 ∷ 98 ∷ 47 ∷ 99 ∷ 0 ∷ [])) ≡ 47 ∷ 97 ∷ []
unfolding scan terminated
bc_parent = refl

finds_slashes :
    IsFound bc 5 (get_index_by_path_name_ext bc).last1 (get_index_by_path_name_ext bc).last2
finds_slashes = get_index-IsFound bc
