-- ===== src/ConcurrencyQueue/FastFind/Mirror.antt =====
-- The set of a `RawFastFindQueue` holds what its queue holds, if no element is put that is queued
-- already.
use cppfastdevelop.Prelude.{
  ◌≡◌, ◌≢◌, refl, sym, ap, ◌∙◌, subst, ◌⊎◌, inl, inr, Bool, true, false, Bool-cases, or_swap,
  or_left, or_right, and_comm, ◌&&◌, ◌||◌, not, List, [], ◌∷◌, ◌++◌, ◌==◌, if_both,
}
use cppfastdevelop.Containers.OrderedSet.{IsOrder, same, contains, insert, erase}
use cppfastdevelop.Containers.OrderedSet.Laws.{
  IsAscending, same_self, same-eq, contains-insert, contains-erase, insert-IsAscending,
  erase-IsAscending,
}
use cppfastdevelop.ConcurrencyQueue.FastFind.{
  element_not_found, RawFastFindQueue, Outcome, waits, done, returned, threw, new_queue, pop,
  get_from, get, try_get_from, try_get, push, put, find, stop_put, stop_put_and_get,
}

-- A call.
pub data Call (A : Type 0) : Type 0 where
  puts : A → Call A
  gets tries stops stops_all : Call A

module _ {A : Type 0} (less : A → A → Bool) where
  abbrev pub called : Call A → RawFastFindQueue A → RawFastFindQueue A × Outcome A
  called (puts a) q = put less a q
  called gets q = get less q
  called tries q = try_get less q
  called stops q = (stop_put less q, done)
  called stops_all q = (stop_put_and_get less q, done)

  unfoldable pub IsDistinct : List A → Type 0
  IsDistinct [] = Unit
  IsDistinct (a ∷ rest) = (contains less a rest ≡ false) × IsDistinct rest

  -- Each put is of an element that is not found.
  unfoldable pub PutsNew : List (Call A) → RawFastFindQueue A → Type 0
  PutsNew [] q = Unit
  PutsNew (c ∷ cs) q = ((a : A) → c ≡ puts a → find less a q ≡ false) × PutsNew cs (called c q).0

module _ {A : Type 0} {less : A → A → Bool} (o : IsOrder less) where
  pub record IsMirror (q : RawFastFindQueue A) : Type 0 where
    pub mirrors : (a : A) → contains less a q.set ≡ contains less a q.queue
    pub ascending : IsAscending o q.set
    pub distinct : IsDistinct less q.queue

  -- What a call gives: an element that was queued, and now is not found any more, or anything but
  -- the exception of `SetErase`.
  abbrev pub Fits : RawFastFindQueue A → RawFastFindQueue A × Outcome A → Type 0
  Fits q (q', returned a) = (q.queue ≡ a ∷ q'.queue) × (find less a q' ≡ false)
  Fits q (q', waits) = q.queue ≡ []
  Fits q (q', done) = Unit
  Fits q (q', threw e) = e ≢ element_not_found

  abbrev pub Answers : RawFastFindQueue A → RawFastFindQueue A × Outcome A → Type 0
  Answers q x = IsMirror x.0 × Fits q x

  -- Every call of the sequence answers so.
  unfoldable pub AllAnswer : List (Call A) → RawFastFindQueue A → Type 0
  AllAnswer [] q = IsMirror q
  AllAnswer (c ∷ cs) q = Answers q (called less c q) × AllAnswer cs (called less c q).0

  contains-last :
      (a c : A) (bs : List A)
      → contains less c (bs ++ a ∷ []) ≡ (same less c a || contains less c bs)
  unfolding contains
  contains-last a c [] = refl
  contains-last a c (b ∷ bs) =
      ap (λ x. same less c b || x) (contains-last a c bs)
      ∙ or_swap (same less c b) (same less c a) (contains less c bs)

  same-sym : (a b : A) → same less a b ≡ same less b a
  same-sym a b = and_comm (not (less a b)) (not (less b a))

  last-IsDistinct :
      (a : A) (bs : List A)
      → contains less a bs ≡ false
      → IsDistinct less bs
      → IsDistinct less (bs ++ a ∷ [])
  unfolding IsDistinct contains
  last-IsDistinct a [] h d = (refl, tt)
  last-IsDistinct a (b ∷ bs) h (n, d) = (
    contains-last a b bs
        ∙ ap (λ x. x || contains less b bs)
            (same-sym b a ∙ or_left (same less a b) (contains less a bs) h)
        ∙ n,
    last-IsDistinct a bs (or_right (same less a b) (contains less a bs) h) d,
  )

  pop-Answers :
      (a : A) (rest : List A) (q : RawFastFindQueue A)
      → q.queue ≡ a ∷ rest
      → IsMirror q
      → Answers q (pop less a rest q)
  unfolding contains IsDistinct
  pop-Answers a rest q e m = rw here (after, (e, gone))
    where
      d : IsDistinct less (a ∷ rest)
      d = subst (IsDistinct less) e m.distinct

      at : (c : A) → contains less c q.set ≡ (same less c a || contains less c rest)
      at c = m.mirrors c ∙ ap (contains less c) e

      here : contains less a q.set ≡ true
      here = at a ∙ ap (λ x. x || contains less a rest) (same_self o a)

      erased :
          (c : A)
          → contains less c (erase less a q.set) ≡ (not (same less c a) && contains less c q.set)
      erased c = contains-erase o a c q.set m.ascending

      gone : contains less a (erase less a q.set) ≡ false
      gone = erased a ∙ ap (λ x. not x && contains less a q.set) (same_self o a)

      kept : (c : A) → contains less c (erase less a q.set) ≡ contains less c rest
      kept c = either (Bool-cases (same less c a))
        where
          either :
              (same less c a ≡ true) ⊎ (same less c a ≡ false)
              → contains less c (erase less a q.set) ≡ contains less c rest
          either (inl s) =
              erased c
              ∙ ap (λ x. not x && contains less c q.set) s
              ∙ sym (ap (λ x. contains less x rest) (same-eq o c a s) ∙ d.0)
          either (inr s) =
              erased c
              ∙ ap (λ x. not x && contains less c q.set) s
              ∙ at c
              ∙ ap (λ x. x || contains less c rest) s

      after : IsMirror (record q { queue = rest; set = erase less a q.set })
      after = record {
        mirrors = kept;
        ascending = erase-IsAscending o a q.set m.ascending;
        distinct = d.1;
      }

  push-IsMirror :
      (a : A) (q : RawFastFindQueue A)
      → find less a q ≡ false
      → IsMirror q
      → IsMirror (push less a q).0
  push-IsMirror a q new m =
      if_both (λ (x : RawFastFindQueue A × Bool). IsMirror x.0) (q.wait_count == 0)
        (record { mirrors = both; ascending = up; distinct = apart })
        (record { mirrors = both; ascending = up; distinct = apart })
    where
      both : (c : A) → contains less c (insert less a q.set) ≡ contains less c (q.queue ++ a ∷ [])
      both c =
          contains-insert o a c q.set
          ∙ ap (λ x. same less c a || x) (m.mirrors c)
          ∙ sym (contains-last a c q.queue)

      up : IsAscending o (insert less a q.set)
      up = insert-IsAscending o a q.set m.ascending

      apart : IsDistinct less (q.queue ++ a ∷ [])
      apart = last-IsDistinct a q.queue (sym (m.mirrors a) ∙ new) m.distinct

  put-Answers :
      (a : A) (q : RawFastFindQueue A)
      → find less a q ≡ false
      → IsMirror q
      → Answers q (put less a q)
  put-Answers a q new m =
      if_both (Answers q) q.stop_to_put (m, λ e. cc) (push-IsMirror a q new m, tt)

  get_from-Answers :
      (qs : List A) (p g : Bool) (q : RawFastFindQueue A)
      → q.queue ≡ qs
      → IsMirror q
      → Answers q (get_from less qs p g q)
  get_from-Answers [] false g q e m =
      (record { mirrors = m.mirrors; ascending = m.ascending; distinct = m.distinct }, e)
  get_from-Answers [] true true q e m = (m, λ x. cc)
  get_from-Answers [] true false q e m = (m, λ x. cc)
  get_from-Answers (a ∷ rest) p true q e m = (m, λ x. cc)
  get_from-Answers (a ∷ rest) p false q e m = pop-Answers a rest q e m

  try_get_from-Answers :
      (qs : List A) (g : Bool) (q : RawFastFindQueue A)
      → q.queue ≡ qs
      → IsMirror q
      → Answers q (try_get_from less qs g q)
  try_get_from-Answers qs true q e m = (m, λ x. cc)
  try_get_from-Answers [] false q e m = (m, λ x. cc)
  try_get_from-Answers (a ∷ rest) false q e m = pop-Answers a rest q e m

  called-Answers :
      (c : Call A) (q : RawFastFindQueue A)
      → ((a : A) → c ≡ puts a → find less a q ≡ false)
      → IsMirror q
      → Answers q (called less c q)
  called-Answers (puts a) q new m = put-Answers a q (new a refl) m
  called-Answers gets q new m = get_from-Answers q.queue q.stop_to_put q.stop_to_get q refl m
  called-Answers tries q new m = try_get_from-Answers q.queue q.stop_to_get q refl m
  called-Answers stops q new m =
      (record { mirrors = m.mirrors; ascending = m.ascending; distinct = m.distinct }, tt)
  called-Answers stops_all q new m =
      (record { mirrors = m.mirrors; ascending = m.ascending; distinct = m.distinct }, tt)

  calls-AllAnswer :
      (cs : List (Call A)) (q : RawFastFindQueue A)
      → PutsNew less cs q
      → IsMirror q
      → AllAnswer cs q
  unfolding PutsNew AllAnswer
  calls-AllAnswer [] q new m = m
  calls-AllAnswer (c ∷ cs) q (n, new) m =
      let h = called-Answers c q n m in (h, calls-AllAnswer cs (called less c q).0 new h.0)

  new_queue-IsMirror : IsMirror (new_queue less)
  unfolding IsDistinct IsAscending
  new_queue-IsMirror = record { mirrors = λ a. refl; ascending = tt; distinct = tt }

  -- Where no call puts an element that is found, and the comparison is a strict total order, every
  -- call on a new queue leaves a set that holds what the queue holds, and the queue without
  -- repetition; a get that returns gives the oldest element, which is then not found any more; a
  -- get waits on an empty queue only; and none throws for an element that the set should hold and
  -- does not.
  pub new_queue-AllAnswer :
      (cs : List (Call A)) → PutsNew less cs (new_queue less) → AllAnswer cs (new_queue less)
  new_queue-AllAnswer cs new = calls-AllAnswer cs (new_queue less) new new_queue-IsMirror

  abbrev pub put_twice : A → RawFastFindQueue A
  put_twice a = (put less a (put less a (new_queue less)).0).0

  -- When an element is put twice on a new queue, the first get returns it, `Find` says then that it
  -- is gone although it is queued, and the second get throws, and has taken it off the queue.
  pub put_twice-loses :
      (a : A)
      → ((get less (put_twice a)).1 ≡ returned a)
        × (find less a (get less (put_twice a)).0 ≡ false)
        × ((get less (put_twice a)).0.queue ≡ a ∷ [])
        × ((get less (get less (put_twice a)).0).1 ≡ threw element_not_found)
        × ((get less (get less (put_twice a)).0).0.queue ≡ [])
  unfolding contains erase insert
  put_twice-loses a = simp (o.irreflexive a) (refl, refl, refl, refl, refl)
