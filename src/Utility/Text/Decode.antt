-- ===== src/Utility/Text/Decode.antt =====
-- A reader of the dumps gets the bytes back.
use cppfastdevelop.Prelude.{
  ℕ, zero, suc, ◌+◌, ◌-◌, ◌*◌, ◌/◌, ◌%◌, ◌^◌, ◌<◌, ◌≡◌, refl, sym, ap, ◌∙◌, List, [], ◌∷◌, ◌++◌,
  append-nil, append_assoc, take, ltb, if◌then◌else◌, arith,
}
use cppfastdevelop.Utility.Text.{
  hex_digit, two_digits, escaped, append_each, formatted, string2_hex, string2_hex_d,
}

abbrev pub digit_value : ℕ → ℕ
digit_value c = if ltb c 58 then c - 48 else c - 87

-- Reads pairs of digits, and pairs behind a backslash and an 'x'.
unfoldable pub from_hex : List ℕ → List ℕ
from_hex (h ∷ l ∷ cs) = (digit_value h * 16 + digit_value l) ∷ from_hex cs
from_hex (c ∷ []) = []
from_hex [] = []

unfoldable pub from_hex_d : List ℕ → List ℕ
from_hex_d (b ∷ x ∷ h ∷ l ∷ cs) = (digit_value h * 16 + digit_value l) ∷ from_hex_d cs
from_hex_d (b ∷ x ∷ h ∷ []) = []
from_hex_d (b ∷ x ∷ []) = []
from_hex_d (b ∷ []) = []
from_hex_d [] = []

unfoldable pub AllBytes : List ℕ → Type 0
AllBytes [] = Unit
AllBytes (c ∷ cs) = (c < 2 ^ 8) × AllBytes cs

AllBytes-take : (n : ℕ) (cs : List ℕ) → AllBytes cs → AllBytes (take n cs)
unfolding AllBytes
AllBytes-take zero cs b = tt
AllBytes-take (suc n) [] b = tt
AllBytes-take (suc n) (c ∷ cs) (h, b) = (h, AllBytes-take n cs b)

digit_value-hex_digit : (d : ℕ) → d < 16 → digit_value (hex_digit d) ≡ d
digit_value-hex_digit d h = ground arith

two_values :
    (c : ℕ)
    → c < 2 ^ 8
    → digit_value (hex_digit (c % 2 ^ 8 / 16)) * 16 + digit_value (hex_digit (c % 2 ^ 8 % 16)) ≡ c
two_values c h =
    let q = digit_value-hex_digit (c % 2 ^ 8 / 16) (omega arith) in
    let r = digit_value-hex_digit (c % 2 ^ 8 % 16) (omega arith) in omega arith

-- The loop's result is its accumulator and the formats of the characters.
append_each-start :
    (format : ℕ → List ℕ) (cs output : List ℕ)
    → append_each format cs output ≡ output ++ append_each format cs []
unfolding append_each
append_each-start format [] output = sym (append-nil output)
append_each-start format (c ∷ cs) output =
    append_each-start format cs (output ++ format c)
    ∙ append_assoc output (format c) (append_each format cs [])
    ∙ ap (λ x. output ++ x) (sym (append_each-start format cs (format c)))

append_each-cons :
    (format : ℕ → List ℕ) (c : ℕ) (cs : List ℕ)
    → append_each format (c ∷ cs) [] ≡ format c ++ append_each format cs []
unfolding append_each
append_each-cons format c cs = append_each-start format cs (format c)

hex_read : (cs : List ℕ) → AllBytes cs → from_hex (append_each two_digits cs []) ≡ cs
unfolding from_hex AllBytes append_each
hex_read [] b = refl
hex_read (c ∷ cs) (h, b) =
    rw (append_each-cons two_digits c cs, two_values c h) (ap (◌∷◌ c) (hex_read cs b))

hex_d_read : (cs : List ℕ) → AllBytes cs → from_hex_d (append_each escaped cs []) ≡ cs
unfolding from_hex_d AllBytes append_each
hex_d_read [] b = refl
hex_d_read (c ∷ cs) (h, b) =
    rw (append_each-cons escaped c cs, two_values c h) (ap (◌∷◌ c) (hex_d_read cs b))

module _ (format : ℕ → List ℕ) (input : List ℕ) where
  -- The test for an empty input is that of the loop.
  formatted-loop : (n : ℕ) → formatted format input n ≡ append_each format (take n input) []
  unfolding append_each
  formatted-loop zero = refl
  formatted-loop (suc n) = ground arith

-- What the two dumps of the first `inputLength` characters of a string of
-- bytes say, read back, are those bytes.
pub string2_hex-read :
    (input : List ℕ) (input_length : ℕ)
    → AllBytes input
    → (from_hex (string2_hex input input_length) ≡ take input_length input)
      × (from_hex_d (string2_hex_d input input_length) ≡ take input_length input)
string2_hex-read input n b = (
  ap from_hex (formatted-loop two_digits input n)
      ∙ hex_read (take n input) (AllBytes-take n input b),
  ap from_hex_d (formatted-loop escaped input n)
      ∙ hex_d_read (take n input) (AllBytes-take n input b),
)
