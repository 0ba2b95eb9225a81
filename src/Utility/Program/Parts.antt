-- ===== src/Utility/Program/Parts.antt =====
-- A path is its directory, a slash and its file name.
use cppfastdevelop.Prelude.{
  ℕ, zero, suc, ◌+◌, ◌^◌, ◌≤◌, ◌<◌, ◌≡◌, refl, sym, ap, ◌∙◌, ◌⊎◌, inl, inr, true, false, Bool-cases,
  List, [], ◌∷◌, ◌++◌, append_assoc, length, length-append, length-take, length-drop, take, drop,
  take_all, take-append, take-append-drop, drop-append, drop_all, ◌==◌, sub32, pos, arith, ap₂,
  subst, dec_lt,
}
use cppfastdevelop.NetServer.Buffer.{zeros, store}
use cppfastdevelop.Utility.Program.{
  slash_at, get_index_by_path_name_ext, terminated, get_name_by_path_name_ext, name_behind,
  get_path_by_path_name_ext, path_before,
}
use cppfastdevelop.Utility.Program.Slash.{IsFound, IsLastSlash, get_index-IsFound}

-- No character is NUL.
unfoldable pub AllChars : List ℕ → Type 0
AllChars [] = Unit
AllChars (c ∷ cs) = (0 < c) × AllChars cs

AllChars-take : (n : ℕ) (cs : List ℕ) → AllChars cs → AllChars (take n cs)
unfolding AllChars
AllChars-take zero cs b = tt
AllChars-take (suc n) [] b = tt
AllChars-take (suc n) (c ∷ cs) (h, b) = (h, AllChars-take n cs b)

AllChars-drop : (n : ℕ) (cs : List ℕ) → AllChars cs → AllChars (drop n cs)
unfolding AllChars
AllChars-drop zero cs b = b
AllChars-drop (suc n) [] b = tt
AllChars-drop (suc n) (c ∷ cs) (h, b) = AllChars-drop n cs b

terminated-append : (xs r : List ℕ) → AllChars xs → terminated (xs ++ 0 ∷ r) ≡ xs
unfolding terminated AllChars
terminated-append [] r b = refl
terminated-append (zero ∷ xs) r (h, b) = absurd (omega arith)
terminated-append (suc c ∷ xs) r (h, b) = ap (◌∷◌ (suc c)) (terminated-append xs r b)

-- A string that is stored and then closed by a NUL.
terminated-closed :
    (xs q : List ℕ) (n : ℕ)
    → n ≡ length xs
    → AllChars xs
    → terminated (store n (0 ∷ []) (store 0 xs q)) ≡ xs
terminated-closed xs q n e b =
    rw
      (
        e,
        take-append xs (drop (0 + length xs) q),
        append_assoc xs (0 ∷ []) (drop (length xs + 1) (xs ++ drop (0 + length xs) q)),
      )
      (terminated-append xs _ b)

-- The same of one that is stored with its NUL, and closed behind that.
terminated-twice :
    (xs q : List ℕ) (n : ℕ)
    → n ≡ length xs + 1
    → AllChars xs
    → terminated (store n (0 ∷ []) (store 0 (xs ++ 0 ∷ []) q)) ≡ xs
terminated-twice xs q n e b =
    let l : n ≡ length (xs ++ 0 ∷ []) = omega (arith, length-append xs (0 ∷ [])) in
    ap (λ x. terminated (x ++ (0 ∷ []) ++ drop (n + 1) (store 0 (xs ++ 0 ∷ []) q)))
      (ap (λ m. take m (xs ++ (0 ∷ []) ++ drop (0 + length (xs ++ 0 ∷ [])) q)) l
        ∙ take-append (xs ++ 0 ∷ []) _)
    ∙ ap terminated (append_assoc (xs ++ 0 ∷ []) (0 ∷ []) _ ∙ append_assoc xs (0 ∷ []) _)
    ∙ terminated-append xs _ b

slash_at-drop : (k j : ℕ) (xs : List ℕ) → slash_at (drop k xs) j ≡ slash_at xs (k + j)
slash_at-drop zero j xs = let e : 0 + j ≡ j = omega arith in rw e
slash_at-drop (suc k) j [] = refl
slash_at-drop (suc k) j (x ∷ xs) =
    let e : suc k + j ≡ suc (k + j) = omega arith in rw e (slash_at-drop k j xs)

slash_at-beyond : (xs : List ℕ) (j : ℕ) → length xs ≤ j → slash_at xs j ≡ false
slash_at-beyond [] j h = refl
slash_at-beyond (x ∷ xs) zero h = absurd (omega arith)
slash_at-beyond (x ∷ xs) (suc j) h = slash_at-beyond xs j (omega arith)

drop-slash : (k : ℕ) (xs : List ℕ) → slash_at xs k ≡ true → drop k xs ≡ 47 ∷ drop (k + 1) xs
drop-slash k [] h = absurd (cc)
drop-slash zero (x ∷ xs) h = let e : x ≡ 47 = ground arith in ap (λ c. c ∷ xs) e
drop-slash (suc k) (x ∷ xs) h =
    let e : suc k + 1 ≡ suc (k + 1) = omega arith in rw e (drop-slash k xs h)

module _ (pointer_size : ℕ) (pp : List ℕ) (c : AllChars pp) where
  path_before-take :
      (i : ℕ) (p : List ℕ)
      → suc i ≤ length pp
      → terminated (path_before pointer_size pp p (pos (suc i))) ≡ take (suc i) pp
  path_before-take i p h =
      terminated-closed (take (suc i) pp) (store 0 (zeros pointer_size) p) (suc i)
        (omega (arith, length-take (suc i) pp)) (AllChars-take (suc i) pp c)

  name_behind-drop :
      (i : ℕ) (q : List ℕ)
      → i < length pp
      → length pp < 2 ^ 32
      → terminated (name_behind pointer_size pp (length pp) q (pos i)) ≡ drop (i + 1) pp
  unfolding terminated
  name_behind-drop i q h w = step (Bool-cases (sub32 (length pp) 1 == i))
    where
      rest : List ℕ
      rest = drop (i + 1) pp

      copied : take (sub32 (length pp) i) (drop (i + 1) (pp ++ 0 ∷ [])) ≡ rest ++ 0 ∷ []
      copied =
          let d : drop (i + 1) (pp ++ 0 ∷ []) ≡ rest ++ 0 ∷ [] =
            drop-append (i + 1) pp (0 ∷ []) (omega arith) in
          ap (take (sub32 (length pp) i)) d
          ∙ take_all (sub32 (length pp) i) (rest ++ 0 ∷ [])
              (omega (arith, length-append rest (0 ∷ []), length-drop (i + 1) pp))

      step :
          ((sub32 (length pp) 1 == i) ≡ true) ⊎ ((sub32 (length pp) 1 == i) ≡ false)
          → terminated (name_behind pointer_size pp (length pp) q (pos i)) ≡ drop (i + 1) pp
      step (inl e) =
          let z : sub32 (length pp) 1 ≡ i = ground arith in
          let n : drop (i + 1) pp ≡ [] = drop_all (i + 1) pp (omega arith) in rw (e, n) refl
      step (inr e) =
          rw (e, copied)
            (terminated-twice rest (store 0 (zeros pointer_size) q) (sub32 (length pp) i)
              (omega (arith, length-drop (i + 1) pp)) (AllChars-drop (i + 1) pp c))

  -- Where the last '/' of a path without NULs, shorter than 2^32, is not its first character, the
  -- directory, a '/' and the file name, as the two functions leave them in buffers, make up the
  -- path, and the file name has no '/'.
  pub get_path-get_name :
      (i : ℕ) (p q : List ℕ)
      → length pp < 2 ^ 32
      → (get_index_by_path_name_ext pp).last1 ≡ pos (suc i)
      → (terminated (get_path_by_path_name_ext pointer_size pp p)
            ++ 47 ∷ terminated (get_name_by_path_name_ext pointer_size pp (length pp) q)
          ≡ pp)
        × ((j : ℕ)
            → slash_at (terminated (get_name_by_path_name_ext pointer_size pp (length pp) q)) j
              ≡ false)
  get_path-get_name i p q w e = (
    ap₂ (λ x y. x ++ 47 ∷ y) dir name
        ∙ ap (λ x. take (suc i) pp ++ x) (sym (drop-slash (suc i) pp here.1))
        ∙ take-append-drop (suc i) pp,
    λ j.
        ap (λ x. slash_at x j) name
        ∙ slash_at-drop (suc i + 1) j pp
        ∙ none_behind (suc i + 1 + j) (omega arith) (dec_lt (suc i + 1 + j) (length pp)),
  )
    where
      here : IsLastSlash pp (length pp) (pos (suc i))
      here =
          (subst (λ a. IsFound pp (length pp) a (get_index_by_path_name_ext pp).last2) e
            (get_index-IsFound pp)).0

      dir : terminated (get_path_by_path_name_ext pointer_size pp p) ≡ take (suc i) pp
      dir =
          ap (λ a. terminated (path_before pointer_size pp p a)) e
          ∙ path_before-take i p (omega (arith, here.0))

      name :
          terminated (get_name_by_path_name_ext pointer_size pp (length pp) q) ≡ drop (suc i + 1) pp
      name =
          ap (λ a. terminated (name_behind pointer_size pp (length pp) q a)) e
          ∙ name_behind-drop (suc i) q here.0 w

      none_behind : (m : ℕ) → suc i < m → Dec (m < length pp) → slash_at pp m ≡ false
      none_behind m l (yes b) = here.2 m l b
      none_behind m l (no b) = slash_at-beyond pp m (omega arith)
