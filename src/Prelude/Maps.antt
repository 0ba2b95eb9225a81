-- ===== src/Prelude/Maps.antt =====
-- File descriptors, and maps keyed by them as association lists: `std::unordered_map`, whose
-- `insert` keeps an entry that is there.
use mathlib.Core.Path.{◌≡◌, refl}
use mathlib.Core.Logic.{◌↔◌}
use mathlib.Core.Bool.{Bool, true, false}
use mathlib.Core.List.{List, [], ◌∷◌}
use mathlib.Core.Option.{Option, none, some}
use native.Mathlib.Omega.{arith}
use cppfastdevelop.Prelude.Tests.{◌==◌, if◌then◌else◌}
use cppfastdevelop.Prelude.Int.{ℤ, pos, negsuc}

-- A descriptor: an `int`, of which the negative ones stand for none.
abbrev pub Fd : Type 0
Fd = ℤ

abbrev pub same_fd : Fd → Fd → Bool
same_fd (pos a) (pos b) = a == b
same_fd (pos a) (negsuc b) = false
same_fd (negsuc a) (pos b) = false
same_fd (negsuc a) (negsuc b) = a == b

pub same_fd_iff : (a b : Fd) → (same_fd a b ≡ true) ↔ (a ≡ b)
same_fd_iff (pos a) (pos b) = (λ h. ground arith, λ h. ground arith)
same_fd_iff (pos a) (negsuc b) = (λ h. ground arith, λ h. ground arith)
same_fd_iff (negsuc a) (pos b) = (λ h. ground arith, λ h. ground arith)
same_fd_iff (negsuc a) (negsuc b) = (λ h. ground arith, λ h. ground arith)

module _ {ℓ} {V : Type ℓ} where
  unfoldable pub find : Fd → List (Fd × V) → Option V
  find k [] = none
  find k ((j, v) ∷ m) = if same_fd j k then some v else find k m

  -- At the end of the list, if the key is not there.
  unfoldable pub insert_new : Fd → V → List (Fd × V) → List (Fd × V)
  insert_new k v [] = (k, v) ∷ []
  insert_new k v ((j, w) ∷ m) = if same_fd j k then (j, w) ∷ m else (j, w) ∷ insert_new k v m

  unfoldable pub erase : Fd → List (Fd × V) → List (Fd × V)
  erase k [] = []
  erase k ((j, w) ∷ m) = if same_fd j k then erase k m else (j, w) ∷ erase k m

  -- Writes through the reference that `find` gives.
  unfoldable pub change : Fd → (V → V) → List (Fd × V) → List (Fd × V)
  change k f [] = []
  change k f ((j, w) ∷ m) = if same_fd j k then (j, f w) ∷ m else (j, w) ∷ change k f m

  pub find-insert_new :
      (k j : Fd) (v : V) (m : List (Fd × V))
      → find k m ≡ none
      → find j (insert_new k v m) ≡ (if same_fd k j then some v else find j m)
  unfolding find insert_new
  find-insert_new k j v [] h = refl
  find-insert_new k j v ((i, w) ∷ m) h =
      ground (arith, same_fd_iff k j, same_fd_iff i k, same_fd_iff i j, find-insert_new k j v m)

  pub insert_new_present :
      (k : Fd) (v w : V) (m : List (Fd × V)) → find k m ≡ some w → insert_new k v m ≡ m
  unfolding find insert_new
  insert_new_present k v w [] h = ground arith
  insert_new_present k v w ((i, u) ∷ m) h = ground (arith, insert_new_present k v w m)

  pub find-change :
      (k j : Fd) (f : V → V) (m : List (Fd × V)) {w : V}
      → find k m ≡ some w
      → find j (change k f m) ≡ (if same_fd k j then some (f w) else find j m)
  unfolding find change
  find-change k j f [] h = ground arith
  find-change k j f ((i, u) ∷ m) {w} h =
      ground (arith, same_fd_iff k j, same_fd_iff i k, same_fd_iff i j, find-change k j f m {w = w})

  pub find-erase :
      (k j : Fd) (m : List (Fd × V)) → find j (erase k m) ≡ (if same_fd k j then none else find j m)
  unfolding find erase
  find-erase k j [] = ground arith
  find-erase k j ((i, w) ∷ m) =
      ground (arith, same_fd_iff k j, same_fd_iff i k, same_fd_iff i j, find-erase k j m)

  pub erase_absent : (k : Fd) (m : List (Fd × V)) → find k m ≡ none → erase k m ≡ m
  unfolding find erase
  erase_absent k [] h = refl
  erase_absent k ((i, w) ∷ m) h = ground (arith, erase_absent k m)

  pub change_absent : (k : Fd) (f : V → V) (m : List (Fd × V)) → find k m ≡ none → change k f m ≡ m
  unfolding find change
  change_absent k f [] h = refl
  change_absent k f ((i, w) ∷ m) h = ground (arith, change_absent k f m)

  -- An entry that a change has gone over, if it was the one.
  abbrev pub changed : Bool → (V → V) → Option V → Option V
  changed b f none = none
  changed b f (some v) = some (if b then f v else v)

  pub find-change_any :
      (k j : Fd) (f : V → V) (m : List (Fd × V))
      → find j (change k f m) ≡ changed (same_fd k j) f (find j m)
  unfolding find change
  find-change_any k j f [] = refl
  find-change_any k j f ((i, u) ∷ m) =
      ground (arith, same_fd_iff k j, same_fd_iff i k, same_fd_iff i j, find-change_any k j f m)
