-- ===== src/Utility/Text.antt =====
-- `String2Hex` and `String2HexD` of cf_utility_string.hpp: the bytes of a string as hexadecimal
-- digits.
pub mod Decode
mod Tests
use cppfastdevelop.Prelude.{ℕ, ◌+◌, ◌/◌, ◌%◌, ◌^◌, List, [], ◌∷◌, ◌++◌, take, ltb, if◌then◌else◌}

-- A lower-case digit: '0' is 48 and 'a' is 97.
abbrev pub hex_digit : ℕ → ℕ
hex_digit d = if ltb d 10 then 48 + d else 87 + d

-- `snprintf` with "%02x" of an `unsigned char`.
abbrev pub two_digits : ℕ → List ℕ
two_digits c = hex_digit (c % 2 ^ 8 / 16) ∷ hex_digit (c % 2 ^ 8 % 16) ∷ []

-- The same with "\\x%02x".
abbrev pub escaped : ℕ → List ℕ
escaped c = 92 ∷ 120 ∷ two_digits c

-- The loop, which appends to `output` what the format gives.
unfoldable pub append_each : (ℕ → List ℕ) → List ℕ → List ℕ → List ℕ
append_each format [] output = output
append_each format (c ∷ cs) output = append_each format cs (output ++ format c)

abbrev pub formatted : (ℕ → List ℕ) → List ℕ → ℕ → List ℕ
formatted format input input_length =
    if ltb input_length 1 then [] else append_each format (take input_length input) []

abbrev pub string2_hex : List ℕ → ℕ → List ℕ
string2_hex input input_length = formatted two_digits input input_length

abbrev pub string2_hex_d : List ℕ → ℕ → List ℕ
string2_hex_d input input_length = formatted escaped input input_length
