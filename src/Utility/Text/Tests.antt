-- ===== src/Utility/Text/Tests.antt =====
-- Dumps of a string of three characters.
use cppfastdevelop.Prelude.{ℕ, ◌≡◌, refl, List, [], ◌∷◌, take, arith}
use cppfastdevelop.Utility.Text.{string2_hex, string2_hex_d, append_each}
use cppfastdevelop.Utility.Text.Decode.{AllBytes, from_hex, from_hex_d, string2_hex-read}

-- "az" and the byte 255.
abbrev three : List ℕ
three = 97 ∷ 122 ∷ 255 ∷ []

-- "617aff".
dump : string2_hex three 3 ≡ 54 ∷ 49 ∷ 55 ∷ 97 ∷ 102 ∷ 102 ∷ []
unfolding append_each
dump = refl

three-AllBytes : AllBytes three
unfolding AllBytes
three-AllBytes = (omega arith, (omega arith, (omega arith, tt)))

string2_hex-read_example :
    (from_hex (string2_hex three 2) ≡ take 2 three)
    × (from_hex_d (string2_hex_d three 2) ≡ take 2 three)
string2_hex-read_example = string2_hex-read three 2 three-AllBytes
