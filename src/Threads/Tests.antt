-- ===== src/Threads/Tests.antt =====
-- A process of up to five threads, numbered from 1, the live ones with the last one first.
use cppfastdevelop.Prelude.{
  ℕ, suc, ◌≡◌, refl, sym, ap, ◌∙◌, true, false, none, some, List, [], ◌∷◌, length, ltb,
  if◌then◌else◌, arith, Bool-cases, inl, inr,
}
use cppfastdevelop.Threads.{ThreadCalls, Thread, status_new, start_pool}
use cppfastdevelop.Threads.Live.{has, remove, IsPthread}
use cppfastdevelop.Threads.Pool.{Ends, pool, start_pool-Ends}

-- One more than any of the live threads.
abbrev above : List ℕ → ℕ
above [] = 1
above (t ∷ ts) = if ltb t (above ts) then above ts else suc t

abbrev system : ThreadCalls (List ℕ)
system = record {
  attr_init = λ w. (w, true);
  attr_setstacksize = λ n w. (w, ltb 16383 n);
  create = λ id w. if ltb 4 (length w) then (w, none) else (above w ∷ w, some (above w));
  join = λ t w. (remove t w, has t w);
  detach = λ t w. (remove t w, has t w);
}

has-above : (t : ℕ) (w : List ℕ) → has t w ≡ true → ltb t (above w) ≡ true
unfolding has
has-above t [] h = absurd (cc)
has-above t (u ∷ w) h = ground (arith, has-above t w)

above-fresh : (w : List ℕ) → has (above w) w ≡ false
above-fresh w = elim (Bool-cases (has (above w) w)) [
  | inl e ↦ absurd (ground (arith, has-above (above w) w e))
  | inr e ↦ e
]

remove_absent : (t : ℕ) (w : List ℕ) → has t w ≡ false → remove t w ≡ w
unfolding has remove
remove_absent t [] h = refl
remove_absent t (u ∷ w) h = ground (arith, remove_absent t w)

some_inj : {a b : ℕ} → some a ≡ some b → a ≡ b
some_inj e = cc

thread_made :
    (w : List ℕ) (t : ℕ)
    → (system.create 0 w).1 ≡ some t
    → ((system.create 0 w).0 ≡ t ∷ w) × (has t w ≡ false)
thread_made w t e = elim (Bool-cases (ltb 4 (length w))) [
  | inl h ↦ absurd (ground (arith, h, e))
  | inr h ↦
      let q : above w ≡ t = ground (arith, h, e) in
      (ground (arith, h, q), ap (λ k. has k w) (sym q) ∙ above-fresh w)
]

thread_refused : (w : List ℕ) → (system.create 0 w).1 ≡ none → (system.create 0 w).0 ≡ w
thread_refused w e = ground (arith, e)

system-IsPthread : IsPthread system (λ w. w) (λ t. true)
system-IsPthread = record {
  creates = λ id w t e. thread_made w t e;
  creates_none = λ id w e. thread_refused w e;
  joins = λ t w z h. (h, refl);
  detaches = λ t w h. h;
  detach_keeps = λ t w h. remove_absent t w h;
  stack_keeps = λ n w. refl;
}

abbrev unstarted : ℕ → Thread
unstarted i = record { status = status_new; id = i; tid = 0 }

start_pool-Ends_example : Ends system-IsPthread 2097152 2 1 (5 ∷ []) (
    start_pool system
      (pool system-IsPthread 2097152 true (unstarted 0 ∷ unstarted 1 ∷ []))
      (5 ∷ []))
start_pool-Ends_example =
    start_pool-Ends system-IsPthread (λ t. refl) 2097152 1 (unstarted 0 ∷ unstarted 1 ∷ []) (5 ∷ [])
