-- ===== src/NetServer/EventHandler/Clients.antt =====
-- How many clients of a map came through a listener, and what the writes to the map do to it.
use cppfastdevelop.Prelude.{
  ℕ, ◌+◌, ◌≡◌, refl, Bool, true, false, none, some, List, [], ◌∷◌, if◌then◌else◌, if_both, arith,
  Fd, same_fd, same_fd_iff, find, insert_new, erase, change, find-insert_new, find-erase,
  erase_absent,
}
use cppfastdevelop.NetServer.EventHandler.{ClientInfo}

abbrev pub Clients : Type 0
Clients = List (Fd × ClientInfo)

-- 1 where the client came through the listener.
abbrev pub comes_through : Fd → ClientInfo → ℕ
comes_through l c = if same_fd c.listenfd l then 1 else 0

unfoldable pub count : Fd → Clients → ℕ
count l [] = 0
count l ((k, c) ∷ m) = comes_through l c + count l m

-- No descriptor has two entries.
unfoldable pub UniqueKeys : Clients → Type 0
UniqueKeys [] = Unit
UniqueKeys ((k, c) ∷ m) = (find k m ≡ none) × UniqueKeys m

pub count-insert_new :
    (l k : Fd) (c : ClientInfo) (m : Clients)
    → find k m ≡ none
    → count l (insert_new k c m) ≡ count l m + comes_through l c
unfolding count find insert_new
count-insert_new l k c [] h = ground arith
count-insert_new l k c ((j, d) ∷ m) h = ground (arith, count-insert_new l k c m)

pub count-erase :
    (l k : Fd) (c : ClientInfo) (m : Clients)
    → UniqueKeys m
    → find k m ≡ some c
    → count l m ≡ comes_through l c + count l (erase k m)
unfolding count find erase UniqueKeys
count-erase l k c [] u h = ground arith
count-erase l k c ((j, d) ∷ m) (n, u) h =
    ground (arith, count-erase l k c m u, erase_absent k m, same_fd_iff j k, n)

pub count-change :
    (l k : Fd) (f : ClientInfo → ClientInfo) (m : Clients)
    → ((c : ClientInfo) → (f c).listenfd ≡ c.listenfd)
    → count l (change k f m) ≡ count l m
unfolding count change
count-change l k f [] h = refl
count-change l k f ((j, d) ∷ m) h = ground (arith, count-change l k f m h, h d)

find-change-none :
    (j k : Fd) (f : ClientInfo → ClientInfo) (m : Clients)
    → find j m ≡ none
    → find j (change k f m) ≡ none
unfolding find change
find-change-none j k f [] h = refl
find-change-none j k f ((i, d) ∷ m) h = ground (arith, find-change-none j k f m)

pub UniqueKeys-change :
    (k : Fd) (f : ClientInfo → ClientInfo) (m : Clients) → UniqueKeys m → UniqueKeys (change k f m)
unfolding UniqueKeys change
UniqueKeys-change k f [] u = tt
UniqueKeys-change k f ((j, d) ∷ m) (n, u) =
    if_both UniqueKeys (same_fd j k) (n, u) (find-change-none j k f m n, UniqueKeys-change k f m u)

pub UniqueKeys-erase : (k : Fd) (m : Clients) → UniqueKeys m → UniqueKeys (erase k m)
unfolding UniqueKeys erase
UniqueKeys-erase k [] u = tt
UniqueKeys-erase k ((j, d) ∷ m) (n, u) =
    if_both UniqueKeys (same_fd j k) (UniqueKeys-erase k m u)
      (ground (arith, find-erase k j m, n), UniqueKeys-erase k m u)

pub UniqueKeys-insert_new :
    (k : Fd) (c : ClientInfo) (m : Clients)
    → find k m ≡ none
    → UniqueKeys m
    → UniqueKeys (insert_new k c m)
unfolding UniqueKeys insert_new find
UniqueKeys-insert_new k c [] h u = (refl, tt)
UniqueKeys-insert_new k c ((j, d) ∷ m) h (n, u) =
    step (same_fd j k) refl h (λ g. UniqueKeys-insert_new k c m g u)
  where
    step :
        (b : Bool)
        → same_fd j k ≡ b
        → (if b then some d else find k m) ≡ none
        → (find k m ≡ none → UniqueKeys (insert_new k c m))
        → UniqueKeys (if b then (j, d) ∷ m else (j, d) ∷ insert_new k c m)
    step true e g rest = (n, u)
    step false e g rest =
        (ground (arith, find-insert_new k j c m g, same_fd_iff k j, same_fd_iff j k, n), rest g)
