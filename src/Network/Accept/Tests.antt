-- ===== src/Network/Accept/Tests.antt =====
-- A listening socket with three connections, whose process has no descriptor for the second.
use cppfastdevelop.Prelude.{
  ℕ, zero, suc, ◌≡◌, refl, sym, ap, ◌∙◌, ◌≢◌, true, false, Option, none, some, List, [], ◌∷◌, Fd,
  pos, arith,
}
use cppfastdevelop.Network.Accept.{
  AcceptEnd, accepted, again, exhausted, broken, Calls, listed, accept_async, accept_loop,
}
use cppfastdevelop.Network.Accept.Laws.{IsListener, Accepts, accept_async-Accepts}

-- How many descriptors are free, and the connections.
abbrev State : Type 0
State = ℕ × List ℕ

abbrev backlog : State → List Fd
backlog (free, []) = []
backlog (free, fd ∷ fds) = pos fd ∷ backlog (free, fds)

abbrev accept : State → State × AcceptEnd
accept (zero, fds) = ((zero, fds), exhausted)
accept (suc free, []) = ((suc free, []), again)
accept (suc free, fd ∷ fds) = ((free, fds), accepted fd)

abbrev open_null : State → State × Option ℕ
open_null (zero, fds) = ((zero, fds), none)
open_null (suc free, fds) = ((free, fds), some 9)

abbrev listener : Calls State
listener = record { accept = accept; close = λ fd s. (suc s.0, s.1); open_null = open_null }

backlog_any : (m n : ℕ) (fds : List ℕ) → backlog (m, fds) ≡ backlog (n, fds)
backlog_any m n [] = refl
backlog_any m n (fd ∷ fds) = ap (◌∷◌ (pos fd)) (backlog_any m n fds)

accept_gives :
    (s : State) (fd : ℕ) → (accept s).1 ≡ accepted fd → backlog s ≡ pos fd ∷ backlog (accept s).0
accept_gives (zero, fds) fd e = absurd (cc)
accept_gives (suc free, []) fd e = absurd (cc)
accept_gives (suc free, fd' ∷ fds) fd e =
    let q : fd' ≡ fd = cc in
    ap (λ x. x ∷ backlog (suc free, fds)) (ap pos q)
    ∙ ap (◌∷◌ (pos fd)) (backlog_any (suc free) free fds)

accept_keeps :
    (s : State) (r : AcceptEnd)
    → ((fd : ℕ) → r ≢ accepted fd)
    → (accept s).1 ≡ r
    → backlog (accept s).0 ≡ backlog s
accept_keeps (zero, fds) r n e = refl
accept_keeps (suc free, []) r n e = refl
accept_keeps (suc free, fd ∷ fds) r n e = absurd (n fd (sym e))

open_null_keeps : (s : State) → backlog (open_null s).0 ≡ backlog s
open_null_keeps (zero, fds) = refl
open_null_keeps (suc free, fds) = backlog_any free (suc free) fds

listener-IsListener : IsListener listener backlog
listener-IsListener = record {
  gives = accept_gives;
  again_keeps = λ s. accept_keeps s again (λ fd e. cc);
  exhausted_keeps = λ s. accept_keeps s exhausted (λ fd e. cc);
  broken_keeps = λ s. accept_keeps s broken (λ fd e. cc);
  close_keeps = λ fd s. backlog_any (suc s.0) s.0 s.1;
  open_keeps = open_null_keeps;
}

accepts_three :
    accept_async listener 4 [] (pos 9) (1, 5 ∷ 6 ∷ 7 ∷ [])
    ≡ (((0, []), pos 9), listed true (pos 5 ∷ []))
unfolding accept_loop
accepts_three = refl

accept_async-Accepts_example :
    Accepts listener-IsListener false []
      (1, 5 ∷ 6 ∷ 7 ∷ [])
      (accept_async listener 4 [] (pos 9) (1, 5 ∷ 6 ∷ 7 ∷ []))
accept_async-Accepts_example =
    accept_async-Accepts listener-IsListener 4 [] (pos 9) (1, 5 ∷ 6 ∷ 7 ∷ []) (omega arith)
