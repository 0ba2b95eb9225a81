-- ===== src/Containers/OrderedSet/Laws.antt =====
-- Insertion and removal keep a set ascending, and change one element of it.
use cppfastdevelop.Prelude.{
  ◌≡◌, refl, sym, ap, ◌∙◌, subst, ◌⊎◌, inl, inr, Bool, true, false, Bool-cases, or_or, or_swap,
  or_cases, and-false, and_right, ◌&&◌, ◌||◌, not, List, [], ◌∷◌, arith,
}
use cppfastdevelop.Containers.OrderedSet.{IsOrder, same, contains, insert, erase}

module _ {A : Type 0} {less : A → A → Bool} (o : IsOrder less) where
  abbrev pub IsBelow : A → List A → Type 0
  IsBelow a bs = (c : A) → contains less c bs ≡ true → less a c ≡ true

  unfoldable pub IsAscending : List A → Type 0
  IsAscending [] = Unit
  IsAscending (b ∷ bs) = IsBelow b bs × IsAscending bs

  pub same_self : (a : A) → same less a a ≡ true
  same_self a = ground (arith, o.irreflexive a)

  pub same-eq : (a b : A) → same less a b ≡ true → a ≡ b
  same-eq a b h = o.total a b (ground arith) (ground arith)

  pub contains-insert :
      (a c : A) (bs : List A)
      → contains less c (insert less a bs) ≡ (same less c a || contains less c bs)
  unfolding contains insert
  contains-insert a c [] = refl
  contains-insert a c (b ∷ bs) =
      placed (Bool-cases (less a b)) (Bool-cases (less b a)) (contains-insert a c bs)
    where
      placed :
          (less a b ≡ true) ⊎ (less a b ≡ false)
          → (less b a ≡ true) ⊎ (less b a ≡ false)
          → contains less c (insert less a bs) ≡ (same less c a || contains less c bs)
          → contains less c (insert less a (b ∷ bs)) ≡ (same less c a || contains less c (b ∷ bs))
      placed (inl l) g ih = rw l refl
      placed (inr l) (inl g) ih =
          rw (l, g)
            (ap (λ x. same less c b || x) ih
              ∙ or_swap (same less c b) (same less c a) (contains less c bs))
      placed (inr l) (inr g) ih =
          rw (l, g)
            (or_or (same less c b) (contains less c bs)
              ∙ ap (λ x. same less c x || contains less c (b ∷ bs)) (sym (o.total a b l g)))

  -- What is below a set and an element is below the set with the element.
  IsBelow-cons : (a b : A) (bs : List A) → less a b ≡ true → IsBelow a bs → IsBelow a (b ∷ bs)
  unfolding contains
  IsBelow-cons a b bs l h c m = either (or_cases (same less c b) (contains less c bs) m)
    where
      either : (same less c b ≡ true) ⊎ (contains less c bs ≡ true) → less a c ≡ true
      either (inl e) = subst (λ x. less a x ≡ true) (sym (same-eq c b e)) l
      either (inr n) = h c n

  IsBelow-insert :
      (a b : A) (bs : List A) → less a b ≡ true → IsBelow a bs → IsBelow a (insert less b bs)
  IsBelow-insert a b bs l h c m =
      either (or_cases (same less c b) (contains less c bs) (sym (contains-insert b c bs) ∙ m))
    where
      either : (same less c b ≡ true) ⊎ (contains less c bs ≡ true) → less a c ≡ true
      either (inl e) = subst (λ x. less a x ≡ true) (sym (same-eq c b e)) l
      either (inr n) = h c n

  pub insert-IsAscending : (a : A) (bs : List A) → IsAscending bs → IsAscending (insert less a bs)
  unfolding insert IsAscending contains
  insert-IsAscending a [] h = (λ c m. absurd (cc), tt)
  insert-IsAscending a (b ∷ bs) (below, up) =
      placed (Bool-cases (less a b)) (Bool-cases (less b a)) (insert-IsAscending a bs up)
    where
      placed :
          (less a b ≡ true) ⊎ (less a b ≡ false)
          → (less b a ≡ true) ⊎ (less b a ≡ false)
          → IsAscending (insert less a bs)
          → IsAscending (insert less a (b ∷ bs))
      placed (inl l) g ih =
          rw l (IsBelow-cons a b bs l (λ c m. o.transitive a b c l (below c m)), (below, up))
      placed (inr l) (inl g) ih = rw (l, g) (IsBelow-insert b a bs g below, ih)
      placed (inr l) (inr g) ih = rw (l, g) (below, up)

  -- An element below a set is not in it.
  pub IsBelow-absent : (a : A) (bs : List A) → IsBelow a bs → contains less a bs ≡ false
  IsBelow-absent a bs h = absent (Bool-cases (contains less a bs))
    where
      absent :
          (contains less a bs ≡ true) ⊎ (contains less a bs ≡ false) → contains less a bs ≡ false
      absent (inl m) = absurd (cc (h a m, o.irreflexive a))
      absent (inr m) = m

  pub contains-erase :
      (a c : A) (bs : List A)
      → IsAscending bs
      → contains less c (erase less a bs) ≡ (not (same less c a) && contains less c bs)
  unfolding contains erase IsAscending
  contains-erase a c [] h = sym (and-false (not (same less c a)))
  contains-erase a c (b ∷ bs) (below, up) =
      found (Bool-cases (same less a b)) (Bool-cases (same less c a)) (contains-erase a c bs up)
    where
      found :
          (same less a b ≡ true) ⊎ (same less a b ≡ false)
          → (same less c a ≡ true) ⊎ (same less c a ≡ false)
          → contains less c (erase less a bs) ≡ (not (same less c a) && contains less c bs)
          → contains less c (erase less a (b ∷ bs))
            ≡ (not (same less c a) && contains less c (b ∷ bs))
      found (inl e) (inl f) ih =
          rw (e, f)
            (ap (λ x. contains less x bs) (same-eq c a f ∙ same-eq a b e)
              ∙ IsBelow-absent b bs below)
      found (inl e) (inr f) ih =
          rw (e, f, subst (λ x. same less c x ≡ false) (same-eq a b e) f) refl
      found (inr e) (inl f) ih =
          rw (e, f, subst (λ x. same less x b ≡ false) (sym (same-eq c a f)) e)
            (ih ∙ ap (λ x. not x && contains less c bs) f)
      found (inr e) (inr f) ih =
          rw (e, f) (ap (λ x. same less c b || x) (ih ∙ ap (λ x. not x && contains less c bs) f))

  pub erase-IsAscending : (a : A) (bs : List A) → IsAscending bs → IsAscending (erase less a bs)
  unfolding erase IsAscending
  erase-IsAscending a [] h = tt
  erase-IsAscending a (b ∷ bs) (below, up) =
      found (Bool-cases (same less a b)) (erase-IsAscending a bs up)
    where
      found :
          (same less a b ≡ true) ⊎ (same less a b ≡ false)
          → IsAscending (erase less a bs)
          → IsAscending (erase less a (b ∷ bs))
      found (inl e) ih = rw e up
      found (inr e) ih = rw e (
        λ c m. below c (
            and_right (not (same less c a)) (contains less c bs)
              (sym (contains-erase a c bs up) ∙ m)),
        ih,
      )
