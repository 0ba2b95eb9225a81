-- ===== src/Prelude/Booleans.antt =====
-- Truth tables.
use mathlib.Core.Path.{◌≡◌, refl}
use mathlib.Core.Logic.{◌⊎◌, inl, inr}
use mathlib.Core.Bool.{Bool, true, false, ◌&&◌, ◌||◌}

pub or_or : (b c : Bool) → (b || c) ≡ (b || (b || c))
or_or true c = refl
or_or false c = refl

pub or_swap : (b c d : Bool) → (b || (c || d)) ≡ (c || (b || d))
or_swap true true d = refl
or_swap true false d = refl
or_swap false true d = refl
or_swap false false d = refl

pub or_cases : (b c : Bool) → (b || c) ≡ true → (b ≡ true) ⊎ (c ≡ true)
or_cases true c h = inl refl
or_cases false c h = inr h

pub and-false : (b : Bool) → (b && false) ≡ false
and-false true = refl
and-false false = refl

pub and_right : (b c : Bool) → (b && c) ≡ true → c ≡ true
and_right true c h = h
and_right false c h = absurd (cc)

pub and_comm : (b c : Bool) → (b && c) ≡ (c && b)
and_comm true true = refl
and_comm true false = refl
and_comm false true = refl
and_comm false false = refl

pub or_left : (b c : Bool) → (b || c) ≡ false → b ≡ false
or_left true c h = h
or_left false c h = refl

pub or_right : (b c : Bool) → (b || c) ≡ false → c ≡ false
or_right true c h = absurd (cc)
or_right false c h = h
