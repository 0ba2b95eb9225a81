-- ===== src/Network/Blocking/Laws.antt =====
-- What the manual says of `write` and `read`, and the end of a round of the waiting transfers.
use cppfastdevelop.Prelude.{
  ℕ, ◌≤◌, ◌<◌, ◌≡◌, false, none, some, List, ◌++◌, length, take, ltb_ℤ, ℤ, pos, if_both,
}
use cppfastdevelop.Network.Blocking.{Calls, Transfer, returned, milliseconds, time_left, end_round}

-- The manual on `write`: it takes at least one byte and at most those given, from their front, or
-- none. `taken` is what it has taken so far, which the other calls leave alone.
pub record IsSink {S : Type 0} (sys : Calls S) (taken : S → List ℕ) : Type 0 where
  pub clock_keeps : (s : S) → taken (sys.clock s).0 ≡ taken s
  pub poll_keeps : (t : ℤ) (s : S) → taken (sys.poll t s).0 ≡ taken s
  pub takes :
      (bs : List ℕ) (s : S) (n : ℕ)
      → 0 < length bs
      → (sys.write bs s).1 ≡ some n
      → (0 < n) × (n ≤ length bs) × (taken (sys.write bs s).0 ≡ taken s ++ take n bs)
  pub breaks :
      (bs : List ℕ) (s : S) → (sys.write bs s).1 ≡ none → taken (sys.write bs s).0 ≡ taken s

-- The manual on `read`: it gives at most as many bytes as asked for, off the front of what the
-- peer has sent, which is `stream`; where it fails it gives none.
pub record IsSource {S : Type 0} (sys : Calls S) (stream : S → List ℕ) : Type 0 where
  pub clock_keeps : (s : S) → stream (sys.clock s).0 ≡ stream s
  pub poll_keeps : (t : ℤ) (s : S) → stream (sys.poll t s).0 ≡ stream s
  pub gives :
      (n : ℕ) (s : S) (bs : List ℕ)
      → (sys.read n s).1 ≡ some bs
      → (length bs ≤ n) × (stream s ≡ bs ++ stream (sys.read n s).0)
  pub breaks : (n : ℕ) (s : S) → (sys.read n s).1 ≡ none → stream (sys.read n s).0 ≡ stream s

module _ {S : Type 0} (sys : Calls S) where
  pub end_round-either :
      {A : Type 0} (Q : S × Transfer A → Type 0) (begin : ℕ) (timeout : ℤ) (has_done : A)
      (next : ℤ → S → S × Transfer A) (x : S × (ℕ × ℕ))
      → ((t : ℤ) → Q (next t x.0))
      → Q (x.0, returned false has_done)
      → Q (end_round sys begin timeout has_done next x)
  end_round-either Q begin timeout has_done next (s, end) k h =
      if_both Q (ltb_ℤ (pos 0) (time_left timeout begin (milliseconds end))) (k _) h
