-- ===== src/Network/Accept.antt =====
-- `AcceptAsync` of cf_network.cpp: it accepts all connections that wait at a listening socket, and
-- where the process has no descriptor left it closes a spare one, to accept a connection and close
-- it.
pub mod Laws
mod Tests
use cppfastdevelop.Prelude.{
  ℕ, zero, suc, Bool, true, false, Option, none, some, List, [], ◌∷◌, ◌++◌, Fd, pos, negsuc,
}

-- What `accept` gives: a descriptor, an error that ends the loop (EAGAIN, EWOULDBLOCK,
-- ECONNABORTED), one for want of a descriptor or memory (EMFILE, ENFILE, ENOBUFS, ENOMEM), or any
-- other.
pub data AcceptEnd : Type 0 where
  accepted : ℕ → AcceptEnd
  again exhausted broken : AcceptEnd

-- The system calls on the listening socket and on /dev/null, where `none` is a failed `open`.
pub record Calls (S : Type 0) : Type 0 where
  pub accept : S → S × AcceptEnd
  pub close : Fd → S → S
  pub open_null : S → S × Option ℕ

-- The vector `clients` with the result or an exception, or a loop that goes on when the fuel is
-- spent.
pub data Accepted : Type 0 where
  listed : Bool → List Fd → Accepted
  failed : List Fd → Accepted
  unfinished : Accepted

module _ {S : Type 0} (sys : Calls S) where
  -- The static variable `nullfd` behind the state.
  abbrev pub Outcome : Type 0
  Outcome = (S × Fd) × Accepted

  -- Opens /dev/null again, and goes on.
  abbrev pub reopened : List Fd → (Fd → S → Outcome) → S × Option ℕ → Outcome
  reopened clients next (s, some fd) = next (pos fd) s
  reopened clients next (s, none) = ((s, negsuc 0), failed clients)

  -- `accept` in place of the spare descriptor, which has been closed.
  abbrev pub accept_spare : Bool → List Fd → (Fd → S → Outcome) → S × AcceptEnd → Outcome
  accept_spare rt clients next (s, again) =
      reopened clients (λ nullfd s'. ((s', nullfd), listed rt clients)) (sys.open_null s)
  accept_spare rt clients next (s, exhausted) = ((s, negsuc 0), failed clients)
  accept_spare rt clients next (s, broken) = ((s, negsuc 0), failed clients)
  accept_spare rt clients next (s, accepted fd) =
      reopened clients next (sys.open_null (sys.close (pos fd) s))

  -- The body of the loop behind `accept`; `next` is the next round.
  abbrev pub after_accept :
      Bool → List Fd → Fd → (Bool → List Fd → Fd → S → Outcome) → S × AcceptEnd → Outcome
  after_accept rt clients nullfd next (s, accepted fd) = next true (clients ++ pos fd ∷ []) nullfd s
  after_accept rt clients nullfd next (s, again) = ((s, nullfd), listed rt clients)
  after_accept rt clients nullfd next (s, broken) = ((s, nullfd), failed clients)
  after_accept rt clients nullfd next (s, exhausted) =
      accept_spare rt clients (next rt clients) (sys.accept (sys.close nullfd s))

  unfoldable pub accept_loop : ℕ → Bool → List Fd → Fd → S → Outcome
  accept_loop zero rt clients nullfd s = ((s, nullfd), unfinished)
  accept_loop (suc fuel) rt clients nullfd s =
      after_accept rt clients nullfd (accept_loop fuel) (sys.accept s)

  abbrev pub accept_async : ℕ → List Fd → Fd → S → Outcome
  accept_async fuel clients nullfd s = accept_loop fuel false clients nullfd s
