-- ===== src/Threads/Live.antt =====
-- The threads of a process that are neither joined nor detached, as pthread counts them.
use cppfastdevelop.Prelude.{
  ℕ, ◌≡◌, refl, Bool, true, false, ◌||◌, none, some, List, [], ◌∷◌, ◌++◌, ◌==◌, if◌then◌else◌,
  arith, or_right,
}
use cppfastdevelop.Threads.{ThreadCalls, Thread}

unfoldable pub has : ℕ → List ℕ → Bool
has t [] = false
has t (u ∷ us) = (u == t) || has t us

unfoldable pub remove : ℕ → List ℕ → List ℕ
remove t [] = []
remove t (u ∷ us) = if u == t then us else u ∷ remove t us

-- The manual, for `live`, the threads that have been created, and neither joined nor detached, and
-- `ends`, which says of a thread whether what it runs comes to an end: `pthread_create` gives a thread
-- that is none of the live ones and starts it, or fails and starts none; `pthread_join` of a live one
-- that ends waits for it and takes it off; `pthread_detach` takes off a live one and fails for any
-- other; the stack size changes none, whether it is accepted or not.
pub record IsPthread {W : Type 0} (sys : ThreadCalls W) (live : W → List ℕ) (ends : ℕ → Bool)
    : Type 0 where
  pub creates :
      (id : ℕ) (w : W) (t : ℕ)
      → (sys.create id w).1 ≡ some t
      → (live (sys.create id w).0 ≡ t ∷ live w) × (has t (live w) ≡ false)
  pub creates_none :
      (id : ℕ) (w : W) → (sys.create id w).1 ≡ none → live (sys.create id w).0 ≡ live w
  pub joins :
      (t : ℕ) (w : W)
      → ends t ≡ true
      → has t (live w) ≡ true
      → ((sys.join t w).1 ≡ true) × (live (sys.join t w).0 ≡ remove t (live w))
  pub detaches : (t : ℕ) (w : W) → has t (live w) ≡ false → (sys.detach t w).1 ≡ false
  pub detach_keeps : (t : ℕ) (w : W) → has t (live w) ≡ false → live (sys.detach t w).0 ≡ live w
  pub stack_keeps : (n : ℕ) (w : W) → live (sys.attr_setstacksize n w).0 ≡ live w

-- Threads started one after the other.
unfoldable pub grown : List ℕ → List ℕ → List ℕ
grown [] ls = ls
grown (t ∷ ts) ls = grown ts (t ∷ ls)

abbrev pub Fresh : List ℕ → List ℕ → Type 0
Fresh [] ls = Unit {0}
Fresh (t ∷ ts) ls = (has t ls ≡ false) × Fresh ts (t ∷ ls)

has-append : (t : ℕ) (xs ys : List ℕ) → has t (xs ++ ys) ≡ (has t xs || has t ys)
unfolding has
has-append t [] ys = refl
has-append t (x ∷ xs) ys = ground (arith, has-append t xs ys)

has-middle : (u t : ℕ) (xs ls : List ℕ) → has u (xs ++ t ∷ ls) ≡ false → has u (xs ++ ls) ≡ false
unfolding has
has-middle u t [] ls h = or_right (t == u) (has u ls) h
has-middle u t (x ∷ xs) ls h = ground (arith, has-middle u t xs ls)

has-other : (u t : ℕ) (xs ls : List ℕ) → has u (xs ++ t ∷ ls) ≡ false → (u == t) ≡ false
unfolding has
has-other u t [] ls h = ground arith
has-other u t (x ∷ xs) ls h = ground (arith, has-other u t xs ls)

pub Fresh-middle : (ts xs ls : List ℕ) (t : ℕ) → Fresh ts (xs ++ t ∷ ls) → Fresh ts (xs ++ ls)
Fresh-middle [] xs ls t f = tt
Fresh-middle (u ∷ ts) xs ls t f = (has-middle u t xs ls f.0, Fresh-middle ts (u ∷ xs) ls t f.1)

remove-middle : (t : ℕ) (xs ls : List ℕ) → has t xs ≡ false → remove t (xs ++ t ∷ ls) ≡ xs ++ ls
unfolding has remove
remove-middle t [] ls h = ground arith
remove-middle t (x ∷ xs) ls h = ground (arith, remove-middle t xs ls)

pub remove-grown :
    (ts xs ls : List ℕ) (t : ℕ)
    → Fresh ts (xs ++ t ∷ ls)
    → has t xs ≡ false
    → remove t (grown ts (xs ++ t ∷ ls)) ≡ grown ts (xs ++ ls)
unfolding grown has
remove-grown [] xs ls t f h = remove-middle t xs ls h
remove-grown (u ∷ ts) xs ls t f h =
    remove-grown ts (u ∷ xs) ls t f.1 (ground (arith, has-other u t xs ls f.0, h))

pub has-grown : (t : ℕ) (ts ls : List ℕ) → has t ls ≡ true → has t (grown ts ls) ≡ true
unfolding grown has
has-grown t [] ls h = h
has-grown t (u ∷ ts) ls h = has-grown t ts (u ∷ ls) (ground (arith, h))

pub has_first : (t : ℕ) (ls : List ℕ) → has t (t ∷ ls) ≡ true
unfolding has
has_first t ls = ground arith

abbrev pub tids : List Thread → List ℕ
tids [] = []
tids (t ∷ ts) = t.tid ∷ tids ts
