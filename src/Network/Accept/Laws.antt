-- ===== src/Network/Accept/Laws.antt =====
-- `AcceptAsync` ends, and hands over the connections that wait, in their order.
use cppfastdevelop.Prelude.{
  ℕ, zero, suc, ◌<◌, ◌≡◌, refl, sym, ap, ◌∙◌, Bool, true, false, ◌||◌, Option, none, some, List, [],
  ◌∷◌, ◌++◌, append-nil, append_assoc, length, Fd, pos, arith,
}
use cppfastdevelop.Network.Accept.{
  AcceptEnd, accepted, again, exhausted, broken, Calls, listed, failed, unfinished, Outcome,
  reopened, accept_spare, after_accept, accept_loop, accept_async,
}

-- `accept` gives the connections of a backlog one by one, and the other calls leave it alone.
pub record IsListener {S : Type 0} (sys : Calls S) (backlog : S → List Fd) : Type 0 where
  pub gives :
      (s : S) (fd : ℕ)
      → (sys.accept s).1 ≡ accepted fd
      → backlog s ≡ pos fd ∷ backlog (sys.accept s).0
  pub again_keeps : (s : S) → (sys.accept s).1 ≡ again → backlog (sys.accept s).0 ≡ backlog s
  pub exhausted_keeps :
      (s : S) → (sys.accept s).1 ≡ exhausted → backlog (sys.accept s).0 ≡ backlog s
  pub broken_keeps : (s : S) → (sys.accept s).1 ≡ broken → backlog (sys.accept s).0 ≡ backlog s
  pub close_keeps : (fd : Fd) (s : S) → backlog (sys.close fd s) ≡ backlog s
  pub open_keeps : (s : S) → backlog (sys.open_null s).0 ≡ backlog s

-- The third list is the first with the elements of the second put in between, in their orders.
pub data IsMerge : List Fd → List Fd → List Fd → Type 0 where
  nothing : IsMerge [] [] []
  kept : {fd : Fd} {ks ls ts : List Fd} → IsMerge ks ls ts → IsMerge (fd ∷ ks) ls (fd ∷ ts)
  lost : {fd : Fd} {ks ls ts : List Fd} → IsMerge ks ls ts → IsMerge ks (fd ∷ ls) (fd ∷ ts)

module _ {S : Type 0} {sys : Calls S} {backlog : S → List Fd} (o : IsListener sys backlog) where
  -- Connections have been taken off the backlog since the state `s`: `given` stand behind
  -- `clients`, and `others` do not.
  pub record Took (clients : List Fd) (s s' : S) (clients' given : List Fd) : Type 0 where
    pub others : List Fd
    pub taken : List Fd
    pub stored : clients' ≡ clients ++ given
    pub merged : IsMerge given others taken
    pub rest : backlog s ≡ taken ++ backlog s'

  abbrev pub some_of : List Fd → Bool
  some_of [] = false
  some_of (fd ∷ fds) = true

  -- What the loop may come to from the state `s`, with the result `rt` so far.
  abbrev pub Accepts : Bool → List Fd → S → Outcome sys → Type 0
  Accepts rt clients s ((s', nullfd), listed r clients') =
      (given : List Fd) × Took clients s s' clients' given × (r ≡ (rt || some_of given))
  Accepts rt clients s ((s', nullfd), failed clients') =
      (given : List Fd) × Took clients s s' clients' given
  Accepts rt clients s (x, unfinished) = ⊥

  Took-none : (clients : List Fd) (s s' : S) → backlog s' ≡ backlog s → Took clients s s' clients []
  Took-none clients s s' e = record {
    others = [];
    taken = [];
    stored = sym (append-nil clients);
    merged = nothing;
    rest = sym e;
  }

  Took-kept :
      (fd : Fd) (clients : List Fd) (s t s' : S) (clients' given : List Fd)
      → backlog s ≡ fd ∷ backlog t
      → Took (clients ++ fd ∷ []) t s' clients' given
      → Took clients s s' clients' (fd ∷ given)
  Took-kept fd clients s t s' clients' given e k = record {
    others = k.others;
    taken = fd ∷ k.taken;
    stored = k.stored ∙ append_assoc clients (fd ∷ []) given;
    merged = kept k.merged;
    rest = e ∙ ap (◌∷◌ fd) k.rest;
  }

  Took-lost :
      (fd : Fd) (clients : List Fd) (s t s' : S) (clients' given : List Fd)
      → backlog s ≡ fd ∷ backlog t
      → Took clients t s' clients' given
      → Took clients s s' clients' given
  Took-lost fd clients s t s' clients' given e k = record {
    others = fd ∷ k.others;
    taken = fd ∷ k.taken;
    stored = k.stored;
    merged = lost k.merged;
    rest = e ∙ ap (◌∷◌ fd) k.rest;
  }

  some_of-any :
      (rt : Bool) (given : List Fd) → (true || some_of given) ≡ (rt || some_of (pos 0 ∷ given))
  some_of-any true given = refl
  some_of-any false given = refl

  Accepts-kept :
      (rt : Bool) (fd : Fd) (clients : List Fd) (s t : S)
      → backlog s ≡ fd ∷ backlog t
      → (x : Outcome sys) → Accepts true (clients ++ fd ∷ []) t x
      → Accepts rt clients s x
  Accepts-kept rt fd clients s t e ((s', nullfd), listed r clients') (given, k, q) =
      (fd ∷ given, Took-kept fd clients s t s' clients' given e k, q ∙ some_of-any rt given)
  Accepts-kept rt fd clients s t e ((s', nullfd), failed clients') (given, k) =
      (fd ∷ given, Took-kept fd clients s t s' clients' given e k)
  Accepts-kept rt fd clients s t e (x, unfinished) h = h

  Accepts-lost :
      (rt : Bool) (fd : Fd) (clients : List Fd) (s t : S)
      → backlog s ≡ fd ∷ backlog t
      → (x : Outcome sys) → Accepts rt clients t x
      → Accepts rt clients s x
  Accepts-lost rt fd clients s t e ((s', nullfd), listed r clients') (given, k, q) =
      (given, Took-lost fd clients s t s' clients' given e k, q)
  Accepts-lost rt fd clients s t e ((s', nullfd), failed clients') (given, k) =
      (given, Took-lost fd clients s t s' clients' given e k)
  Accepts-lost rt fd clients s t e (x, unfinished) h = h

  or-false : (b : Bool) → b ≡ (b || false)
  or-false true = refl
  or-false false = refl

  module _ (fuel : ℕ)
      (ih : (rt : Bool) (clients : List Fd) (nullfd : Fd) (s : S)
        → length (backlog s) < fuel
        → Accepts rt clients s (accept_loop sys fuel rt clients nullfd s))
      (rt : Bool) (clients : List Fd) (nullfd : Fd) (s : S)
      (fits : length (backlog s) < suc fuel) where
    -- A connection has been left out, and /dev/null is opened again.
    lost-Accepts :
        (fd : ℕ) (t : S) (r : Option ℕ)
        → backlog s ≡ pos fd ∷ backlog t
        → Accepts rt clients s (reopened sys clients (accept_loop sys fuel rt clients) (t, r))
    lost-Accepts fd t none e =
        ([], Took-lost (pos fd) clients s t t clients [] e (Took-none clients t t refl))
    lost-Accepts fd t (some n) e =
        Accepts-lost rt (pos fd) clients s t e (accept_loop sys fuel rt clients (pos n) t)
          (ih rt clients (pos n) t (omega (arith, ap length e)))

    again-Accepts :
        (t : S) (r : Option ℕ)
        → backlog t ≡ backlog s
        → Accepts rt clients s (reopened sys clients (λ n s'. ((s', n), listed rt clients)) (t, r))
    again-Accepts t none e = ([], Took-none clients s t e)
    again-Accepts t (some n) e = ([], Took-none clients s t e, or-false rt)

    accept_spare-Accepts :
        (s1 : S) (r : AcceptEnd)
        → backlog s1 ≡ backlog s
        → (sys.accept s1).1 ≡ r
        → Accepts rt clients s
            (accept_spare sys rt clients (accept_loop sys fuel rt clients) ((sys.accept s1).0, r))
    accept_spare-Accepts s1 again e q =
        again-Accepts (sys.open_null (sys.accept s1).0).0 (sys.open_null (sys.accept s1).0).1
          (o.open_keeps (sys.accept s1).0 ∙ o.again_keeps s1 q ∙ e)
    accept_spare-Accepts s1 exhausted e q =
        ([], Took-none clients s (sys.accept s1).0 (o.exhausted_keeps s1 q ∙ e))
    accept_spare-Accepts s1 broken e q =
        ([], Took-none clients s (sys.accept s1).0 (o.broken_keeps s1 q ∙ e))
    accept_spare-Accepts s1 (accepted fd) e q =
        lost-Accepts fd (sys.open_null s2).0 (sys.open_null s2).1 (
          sym e
          ∙ o.gives s1 fd q
          ∙ ap (◌∷◌ (pos fd)) (sym (o.open_keeps s2 ∙ o.close_keeps (pos fd) (sys.accept s1).0)))
      where
        s2 : S
        s2 = sys.close (pos fd) (sys.accept s1).0

    after_accept-Accepts :
        (r : AcceptEnd)
        → (sys.accept s).1 ≡ r
        → Accepts rt clients s
            (after_accept sys rt clients nullfd (accept_loop sys fuel) ((sys.accept s).0, r))
    after_accept-Accepts (accepted fd) q =
        let e = o.gives s fd q in
        Accepts-kept rt (pos fd) clients s (sys.accept s).0 e
          (accept_loop sys fuel true (clients ++ pos fd ∷ []) nullfd (sys.accept s).0)
          (ih true (clients ++ pos fd ∷ []) nullfd (sys.accept s).0 (omega (arith, ap length e)))
    after_accept-Accepts again q =
        ([], Took-none clients s (sys.accept s).0 (o.again_keeps s q), or-false rt)
    after_accept-Accepts broken q = ([], Took-none clients s (sys.accept s).0 (o.broken_keeps s q))
    after_accept-Accepts exhausted q =
        accept_spare-Accepts (sys.close nullfd (sys.accept s).0)
          (sys.accept (sys.close nullfd (sys.accept s).0)).1
          (o.close_keeps nullfd (sys.accept s).0 ∙ o.exhausted_keeps s q) refl

  accept_loop-Accepts :
      (fuel : ℕ) (rt : Bool) (clients : List Fd) (nullfd : Fd) (s : S)
      → length (backlog s) < fuel
      → Accepts rt clients s (accept_loop sys fuel rt clients nullfd s)
  unfolding accept_loop
  accept_loop-Accepts zero rt clients nullfd s h = absurd (omega arith)
  accept_loop-Accepts (suc fuel) rt clients nullfd s h =
      after_accept-Accepts fuel (accept_loop-Accepts fuel) rt clients nullfd s h (sys.accept s).1
        refl

  -- On a listening socket with a backlog of connections, one round more than the backlog is long is
  -- enough: the call returns or throws, has put connections of a front of the backlog behind the
  -- vector, in their order, and has left out the others of that front; and it returns true where it
  -- has put one there.
  pub accept_async-Accepts :
      (fuel : ℕ) (clients : List Fd) (nullfd : Fd) (s : S)
      → length (backlog s) < fuel
      → Accepts false clients s (accept_async sys fuel clients nullfd s)
  accept_async-Accepts fuel clients nullfd s h = accept_loop-Accepts fuel false clients nullfd s h
