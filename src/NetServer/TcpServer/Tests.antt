-- ===== src/NetServer/TcpServer/Tests.antt =====
-- The server of the event loop's tests, whose network is the list of the descriptors that are open.
use cppfastdevelop.Prelude.{
  ℕ, ◌≡◌, refl, Bool, true, false, ◌||◌, List, [], ◌∷◌, ◌==◌, if◌then◌else◌, pos, negsuc, Fd, arith,
}
use cppfastdevelop.NetServer.EventHandler.{Handler}
use cppfastdevelop.NetServer.EventLoop.Tests.{
  counting, wait, sockets, silent, silent-keep, idle, make_demux,
}
use cppfastdevelop.NetServer.TcpServer.{serve, IsClose, IsLeft, serve-IsLeft}

abbrev has : ℕ → List ℕ → Bool
has n [] = false
has n (m ∷ ms) = (m == n) || has n ms

abbrev drop_all_of : ℕ → List ℕ → List ℕ
drop_all_of n [] = []
drop_all_of n (m ∷ ms) = if m == n then drop_all_of n ms else m ∷ drop_all_of n ms

abbrev opened : List ℕ → Fd → Bool
opened w (pos n) = has n w
opened w (negsuc n) = false

abbrev close : Fd → List ℕ → List ℕ
close (pos n) w = drop_all_of n w
close (negsuc n) w = w

has-drop_self : (n : ℕ) (w : List ℕ) → has n (drop_all_of n w) ≡ false
has-drop_self n [] = refl
has-drop_self n (m ∷ w) = ground (arith, has-drop_self n w)

has-drop : (n k : ℕ) (w : List ℕ) → has k w ≡ false → has k (drop_all_of n w) ≡ false
has-drop n k [] h = refl
has-drop n k (m ∷ w) h = ground (arith, has-drop n k w)

closes : (fd : Fd) (w : List ℕ) → opened (close fd w) fd ≡ false
closes (pos n) w = has-drop_self n w
closes (negsuc n) w = refl

stays : (fd fd' : Fd) (w : List ℕ) → opened w fd' ≡ false → opened (close fd w) fd' ≡ false
stays (pos n) (pos k) w h = has-drop n k w h
stays (pos n) (negsuc k) w h = refl
stays (negsuc n) fd' w h = h

close-IsClose : IsClose close opened
close-IsClose = record { closes = closes; stays = stays }

abbrev listening : Handler ℕ (List ℕ)
listening = record idle { network = 3 ∷ 9 ∷ [] }

serve-IsLeft_example : IsLeft ((pos 3, 5) ∷ []) opened (
    serve counting wait sockets silent close make_demux
      ((pos 3, 5) ∷ [])
      (pos 100)
      (false ∷ true ∷ [])
      listening)
serve-IsLeft_example =
    serve-IsLeft counting wait sockets silent-keep close-IsClose make_demux ((pos 3, 5) ∷ [])
      (pos 100) (false ∷ true ∷ []) listening refl refl refl
