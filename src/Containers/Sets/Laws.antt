-- ===== src/Containers/Sets/Laws.antt =====
-- `RawSet` is a set of elements whose least one `Pop` takes, and what stops a `RawNotifySet`.
use cppfastdevelop.Prelude.{
  ℕ, ◌≡◌, refl, ap, ◌∙◌, ◌⊎◌, inl, inr, Bool, true, false, Bool-cases, not, ◌&&◌, ◌||◌, or_cases,
  List, [], ◌∷◌, if◌then◌else◌,
}
use cppfastdevelop.Containers.OrderedSet.{IsOrder, same, contains}
use cppfastdevelop.Containers.OrderedSet.Laws.{
  IsAscending, IsBelow-absent, same_self, same-eq, contains-insert, contains-erase,
  insert-IsAscending, erase-IsAscending,
}
use cppfastdevelop.Containers.Sets.{
  set_empty, Outcome, returned, waits, threw, one_if, set_insert, set_erase, pop, clear,
}

-- A call that changes a `RawSet`.
pub data Call (A : Type 0) : Type 0 where
  inserts erases : A → Call A
  pops clears : Call A

-- Its reply: whether an element was put in, how many were erased, or what `Pop` came to.
pub data Reply (A : Type 0) : Type 0 where
  inserted : Bool → Reply A
  erased : ℕ → Reply A
  popped : Outcome A → Reply A
  cleared : Reply A

module _ {A : Type 0} (less : A → A → Bool) where
  abbrev pub called : Call A → List A → List A × Reply A
  called (inserts a) s = ((set_insert less a s).0, inserted (set_insert less a s).1)
  called (erases a) s = ((set_erase less a s).0, erased (set_erase less a s).1)
  called pops s = ((pop less s).0, popped (pop less s).1)
  called clears s = (clear less s, cleared)

module _ {A : Type 0} {less : A → A → Bool} (o : IsOrder less) where
  -- What a set of elements does on a call, where `had` and `has` are its elements before and behind
  -- it.
  abbrev pub Does : Call A → (A → Bool) → (A → Bool) → Reply A → Type 0
  Does (inserts a) had has r =
      ((c : A) → has c ≡ (same less c a || had c)) × (r ≡ inserted (if had a then false else true))
  Does (erases a) had has r =
      ((c : A) → has c ≡ (not (same less c a) && had c)) × (r ≡ erased (one_if (had a)))
  Does pops had has (popped (returned a)) =
      (had a ≡ true)
      × ((c : A) → had c ≡ true → (c ≡ a) ⊎ (less a c ≡ true))
      × ((c : A) → has c ≡ (not (same less c a) && had c))
  Does pops had has (popped (threw e)) =
      (e ≡ set_empty) × ((c : A) → had c ≡ false) × ((c : A) → has c ≡ false)
  Does pops had has (popped waits) = ⊥
  Does pops had has (inserted b) = ⊥
  Does pops had has (erased n) = ⊥
  Does pops had has cleared = ⊥
  Does clears had has r = (c : A) → has c ≡ false

  abbrev pub elements : List A → A → Bool
  elements s c = contains less c s

  -- Every call of the sequence does so.
  unfoldable pub AllDo : List (Call A) → List A → Type 0
  AllDo [] s = Unit
  AllDo (c ∷ cs) s =
      Does c (elements s) (elements (called less c s).0) (called less c s).1
      × AllDo cs (called less c s).0

  pop-Does :
      (s : List A)
      → IsAscending o s
      → Does pops (elements s) (elements (pop less s).0) (popped (pop less s).1)
  unfolding contains IsAscending
  pop-Does [] h = (refl, λ c. refl, λ c. refl)
  pop-Does (a ∷ rest) (below, up) = (
    ap (λ x. x || contains less a rest) (same_self o a),
    λ c m. least c (or_cases (same less c a) (contains less c rest) m),
    λ c. gone c (Bool-cases (same less c a)),
  )
    where
      least :
          (c : A)
          → (same less c a ≡ true) ⊎ (contains less c rest ≡ true)
          → (c ≡ a) ⊎ (less a c ≡ true)
      least c (inl e) = inl (same-eq o c a e)
      least c (inr m) = inr (below c m)

      gone :
          (c : A)
          → (same less c a ≡ true) ⊎ (same less c a ≡ false)
          → contains less c rest ≡ (not (same less c a) && (same less c a || contains less c rest))
      gone c (inl e) =
          rw e (ap (λ x. contains less x rest) (same-eq o c a e) ∙ IsBelow-absent o a rest below)
      gone c (inr e) = rw e refl

  called-Does :
      (c : Call A) (s : List A)
      → IsAscending o s
      → Does c (elements s) (elements (called less c s).0) (called less c s).1
  unfolding contains
  called-Does (inserts a) s h = (λ c. contains-insert o a c s, refl)
  called-Does (erases a) s h = (λ c. contains-erase o a c s h, refl)
  called-Does pops s h = pop-Does s h
  called-Does clears s h = λ c. refl

  called-IsAscending :
      (c : Call A) (s : List A) → IsAscending o s → IsAscending o (called less c s).0
  unfolding IsAscending
  called-IsAscending (inserts a) s h = insert-IsAscending o a s h
  called-IsAscending (erases a) s h = erase-IsAscending o a s h
  called-IsAscending pops [] h = tt
  called-IsAscending pops (a ∷ rest) (below, up) = up
  called-IsAscending clears s h = tt

  calls-AllDo : (cs : List (Call A)) (s : List A) → IsAscending o s → AllDo cs s
  unfolding AllDo
  calls-AllDo [] s h = tt
  calls-AllDo (c ∷ cs) s h =
      (called-Does c s h, calls-AllDo cs (called less c s).0 (called-IsAscending c s h))

  -- With a strict total order, in any sequence of calls on a new `RawSet`: an insertion adds its
  -- element and says whether it was not there; an erasure takes its element out and counts it if it
  -- was; `Pop` takes the least element out, and throws where there is none; and nothing is left
  -- behind a `Clear`.
  pub raw_set-AllDo : (cs : List (Call A)) → AllDo cs []
  unfolding IsAscending
  raw_set-AllDo cs = calls-AllDo cs [] tt
