-- ===== src/Utility/Program/Slash.antt =====
-- What the search for slashes finds.
use cppfastdevelop.Prelude.{
  ℕ, zero, suc, ◌≤◌, ◌<◌, ◌≡◌, refl, ◌⊎◌, inl, inr, true, false, Bool-cases, List, length, ℤ, pos,
  negsuc, arith, dec_lt,
}
use cppfastdevelop.Utility.Program.{slash_at, Slashes, scan, get_index_by_path_name_ext}

-- The index of the last '/' below `k`, or -1 where there is none.
abbrev pub IsLastSlash : List ℕ → ℕ → ℤ → Type 0
IsLastSlash pp k (negsuc n) = (n ≡ 0) × ((j : ℕ) → j < k → slash_at pp j ≡ false)
IsLastSlash pp k (pos i) =
    (i < k) × (slash_at pp i ≡ true) × ((j : ℕ) → i < j → j < k → slash_at pp j ≡ false)

-- One index more, which is no '/'.
IsLastSlash-suc :
    (pp : List ℕ) (k : ℕ) (r : ℤ)
    → slash_at pp k ≡ false
    → IsLastSlash pp k r
    → IsLastSlash pp (suc k) r
IsLastSlash-suc pp k (negsuc n) e (z, none_below) = (z, λ j h. last j h (dec_lt j k))
  where
    last : (j : ℕ) → j < suc k → Dec (j < k) → slash_at pp j ≡ false
    last j h (yes l) = none_below j l
    last j h (no l) = let q : j ≡ k = omega arith in rw q e
IsLastSlash-suc pp k (pos i) e (below, here, none_above) =
    (omega arith, here, λ j g h. last j g h (dec_lt j k))
  where
    last : (j : ℕ) → i < j → j < suc k → Dec (j < k) → slash_at pp j ≡ false
    last j g h (yes l) = none_above j g l
    last j g h (no l) = let q : j ≡ k = omega arith in rw q e

-- With two found, nothing changes.
scan-found : (pp : List ℕ) (k : ℕ) (s : Slashes) → 2 ≤ s.cnt → scan pp k s ≡ s
unfolding scan
scan-found pp zero s h = refl
scan-found pp (suc i) s h = ground (arith, scan-found pp i s h)

-- With one found, the next is the last below.
scan-second :
    (pp : List ℕ) (k : ℕ) (i : ℤ)
    → ((scan pp k (record { last1 = i; last2 = negsuc 0; cnt = 1 })).last1 ≡ i)
      × IsLastSlash pp k (scan pp k (record { last1 = i; last2 = negsuc 0; cnt = 1 })).last2
unfolding scan
scan-second pp zero i = (refl, (refl, λ j h. absurd (omega arith)))
scan-second pp (suc k) i = step (Bool-cases (slash_at pp k)) (scan-second pp k i)
  where
    step :
        (slash_at pp k ≡ true) ⊎ (slash_at pp k ≡ false)
        → ((scan pp k (record { last1 = i; last2 = negsuc 0; cnt = 1 })).last1 ≡ i)
          × IsLastSlash pp k (scan pp k (record { last1 = i; last2 = negsuc 0; cnt = 1 })).last2
        → ((scan pp (suc k) (record { last1 = i; last2 = negsuc 0; cnt = 1 })).last1 ≡ i)
          × IsLastSlash pp
              (suc k)
              (scan pp (suc k) (record { last1 = i; last2 = negsuc 0; cnt = 1 })).last2
    step (inl e) r =
        rw (e, scan-found pp k (record { last1 = i; last2 = pos k; cnt = 2 }) (omega arith))
          (refl, (omega arith, e, λ j g h. absurd (omega arith)))
    step (inr e) r = rw e (r.0, IsLastSlash-suc pp k _ e r.1)

-- What is found by a search below `k`: the last '/', and the last one in front of it.
abbrev pub IsFound : List ℕ → ℕ → ℤ → ℤ → Type 0
IsFound pp k (negsuc n) last2 = IsLastSlash pp k (negsuc n) × (last2 ≡ negsuc 0)
IsFound pp k (pos i) last2 = IsLastSlash pp k (pos i) × IsLastSlash pp i last2

IsFound-suc :
    (pp : List ℕ) (k : ℕ) (a b : ℤ)
    → slash_at pp k ≡ false
    → IsFound pp k a b
    → IsFound pp (suc k) a b
IsFound-suc pp k (negsuc n) b e (f, g) = (IsLastSlash-suc pp k (negsuc n) e f, g)
IsFound-suc pp k (pos i) b e (f, g) = (IsLastSlash-suc pp k (pos i) e f, g)

abbrev start : Slashes
start = record { last1 = negsuc 0; last2 = negsuc 0; cnt = 0 }

abbrev first_at : ℕ → Slashes
first_at i = record { last1 = pos i; last2 = negsuc 0; cnt = 1 }

scan-IsFound : (pp : List ℕ) (k : ℕ) → IsFound pp k (scan pp k start).last1 (scan pp k start).last2
unfolding scan
scan-IsFound pp zero = ((refl, λ j h. absurd (omega arith)), refl)
scan-IsFound pp (suc k) = step (Bool-cases (slash_at pp k)) (scan-IsFound pp k)
  where
    here : slash_at pp k ≡ true → IsFound pp (suc k) (pos k) (scan pp k (first_at k)).last2
    here e = ((omega arith, e, λ j g h. absurd (omega arith)), (scan-second pp k (pos k)).1)

    step :
        (slash_at pp k ≡ true) ⊎ (slash_at pp k ≡ false)
        → IsFound pp k (scan pp k start).last1 (scan pp k start).last2
        → IsFound pp (suc k) (scan pp (suc k) start).last1 (scan pp (suc k) start).last2
    step (inl e) r = rw (e, (scan-second pp k (pos k)).0) (here e)
    step (inr e) r = rw e (IsFound-suc pp k _ _ e r)

-- The search through a path finds the index of its last '/', and of the last one in front of that;
-- an index that is not there is -1.
pub get_index-IsFound :
    (pp : List ℕ)
    → IsFound pp
        (length pp)
        (get_index_by_path_name_ext pp).last1
        (get_index_by_path_name_ext pp).last2
get_index-IsFound pp = scan-IsFound pp (length pp)
