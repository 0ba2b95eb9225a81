-- ===== src/BinarySearch/Ascending.antt =====
-- `BinarySearchAscending` of cf_binary_search.hpp finds the target in an ascending array, or the
-- index where it belongs.
use cppfastdevelop.Prelude.{
  ℕ, zero, suc, ◌+◌, ◌-◌, ◌/◌, ◌≤◌, ◌<◌, ◌≡◌, refl, ◌⊎◌, inl, inr, Bool, true, false, Bool-cases,
  some, leb, subst, ℤ, pos, negsuc, arith, dec_lt,
}
use cppfastdevelop.BinarySearch.{Found, before, end_of, ascending_loop, binary_search_ascending}

end_of-before : (m : ℕ) → end_of (before m) ≡ m
end_of-before zero = refl
end_of-before (suc m) = omega arith

-- What the C++ standard asks of a `Compare`: a strict weak ordering.
pub record IsOrder {ℓ} {A : Type ℓ} (comp : A → A → Bool) : Type ℓ where
  pub asym : (x y : A) → comp x y ≡ true → comp y x ≡ false
  pub weak : (x y z : A) → comp x y ≡ true → (comp x z ≡ true) ⊎ (comp z y ≡ true)

-- No element of the range is above a later one.
abbrev pub Ascends {ℓ} : {A : Type ℓ} → (A → A → Bool) → (ℕ → A) → ℕ → ℕ → Type 0
Ascends comp a low end = (i j : ℕ) → low ≤ i → i ≤ j → j < end → comp (a j) (a i) ≡ false

module _ {ℓ} {A : Type ℓ} (comp : A → A → Bool) (a : ℕ → A) (target : A) where
  -- The answer `f` for the range from `low` up to `end`: an index of an element equivalent to the
  -- target, or the one index that parts the elements below it from those above it.
  pub record IsFound (low end : ℕ) (f : Found) : Type 0 where
    pub within : (low ≤ f.insert_index) × (f.insert_index ≤ end)
    pub hit :
        f.result ≡ 1
        → (f.insert_index < end)
          × (comp target (a f.insert_index) ≡ false)
          × (comp (a f.insert_index) target ≡ false)
    pub miss_left : f.result ≡ 0 → (i : ℕ) → low ≤ i → i < f.insert_index → comp (a i) target ≡ true
    pub miss_right :
        f.result ≡ 0 → (i : ℕ) → f.insert_index ≤ i → i < end → comp target (a i) ≡ true
    pub verdict : (f.result ≡ 0) ⊎ (f.result ≡ 1)

module _ {ℓ} {A : Type ℓ} {comp : A → A → Bool} (o : IsOrder comp) (a : ℕ → A) (target : A) where
  -- An answer for the part on the left of an element above the target.
  widen_right :
      (low m end : ℕ) (f : Found)
      → Ascends comp a low end
      → low ≤ m
      → m < end
      → comp target (a m) ≡ true
      → IsFound comp a target low m f
      → IsFound comp a target low end f
  widen_right low m end f asc hl he above v = record {
    within = omega (arith, v.within);
    hit = λ e. let h = v.hit e in (omega (arith, h.0), h.1, h.2);
    miss_left = v.miss_left;
    miss_right = λ e i hi hj. elim (dec_lt i m) [
      | yes q ↦ v.miss_right e i hi q
      | no q ↦ elim (o.weak target (a m) (a i) above) [
        | inl t ↦ t
        | inr t ↦ absurd (ground (arith, t, asc m i hl (omega arith) hj))
      ]
    ];
    verdict = v.verdict;
  }

  -- An answer for the part on the right of an element below the target.
  widen_left :
      (low m end : ℕ) (f : Found)
      → Ascends comp a low end
      → low ≤ m
      → m < end
      → comp (a m) target ≡ true
      → IsFound comp a target (m + 1) end f
      → IsFound comp a target low end f
  widen_left low m end f asc hl he below v = record {
    within = omega (arith, v.within);
    hit = v.hit;
    miss_left = λ e i hi hj. elim (dec_lt m i) [
      | yes q ↦ v.miss_left e i (omega arith) hj
      | no q ↦ elim (o.weak (a m) target (a i) below) [
        | inl t ↦ absurd (ground (arith, t, asc i m hi (omega arith) he))
        | inr t ↦ t
      ]
    ];
    miss_right = v.miss_right;
    verdict = v.verdict;
  }

  -- An empty range.
  missed :
      (low end : ℕ)
      → low ≡ end
      → IsFound comp a target low end (record { result = 0; insert_index = low })
  missed low end h = record {
    within = omega arith;
    hit = λ e. absurd (omega arith);
    miss_left = λ e i p q. absurd (omega arith);
    miss_right = λ e i p q. absurd (omega arith);
    verdict = inl refl;
  }

  ascending_loop_found :
      (fuel low : ℕ) (high : ℤ)
      → low ≤ end_of high
      → end_of high - low < fuel
      → Ascends comp a low (end_of high)
      → (f : Found) × (ascending_loop comp a target fuel low high ≡ some f)
        × IsFound comp a target low (end_of high) f
  unfolding ascending_loop
  ascending_loop_found zero low high hl hf asc = absurd (omega arith)
  ascending_loop_found (suc fuel) low (negsuc h) hl hf asc =
      (record { result = 0; insert_index = low }, refl, missed low 0 (omega arith))
  ascending_loop_found (suc fuel) low (pos h) hl hf asc =
      let m = low + (h - low) / 2 in
      let b = end_of-before m in
      elim (Bool-cases (leb low h)) [
        | inr past ↦
            (record { result = 0; insert_index = low }, rw past, missed low (h + 1) (ground arith))
        | inl inside ↦
            let lm : low ≤ m = omega arith in
            let mh : m < h + 1 = ground arith in
            elim (Bool-cases (comp target (a m))) [
              | inl above ↦
                  let (f, e, v) =
                    ascending_loop_found fuel low (before m) (omega (arith, b)) (omega (arith, b))
                      (λ i j p q r. asc i j p q (omega (arith, b))) in
                  (
                    f,
                    rw (inside, above) e,
                    widen_right low m (h + 1) f asc lm mh above
                        (subst (λ k. IsFound comp a target low k f) b v),
                  )
              | inr notabove ↦ elim (Bool-cases (comp (a m) target)) [
                | inl below ↦
                    let (f, e, v) =
                      ascending_loop_found fuel (m + 1) (pos h) (omega arith) (omega arith)
                        (λ i j p q r. asc i j (omega arith) q r) in
                    (
                      f,
                      rw (inside, notabove, below) e,
                      widen_left low m (h + 1) f asc lm mh below v,
                    )
                | inr notbelow ↦ (
                  record { result = 1; insert_index = m },
                  rw (inside, notabove, notbelow),
                  record {
                    within = omega arith;
                    hit = λ e. (mh, notabove, notbelow);
                    miss_left = λ e. absurd (omega arith);
                    miss_right = λ e. absurd (omega arith);
                    verdict = inr refl;
                  },
                )
              ]
            ]
      ]

  -- On an ascending range the search ends, and tells where the target is or where it belongs.
  pub binary_search_ascending-IsFound :
      (low : ℕ) (high : ℤ)
      → low ≤ end_of high
      → Ascends comp a low (end_of high)
      → (f : Found) × (binary_search_ascending comp a target low high ≡ some f)
        × IsFound comp a target low (end_of high) f
  unfolding binary_search_ascending
  binary_search_ascending-IsFound low high h asc =
      ascending_loop_found (suc (end_of high)) low high h (omega arith) asc
