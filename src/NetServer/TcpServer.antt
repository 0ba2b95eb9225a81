-- ===== src/NetServer/TcpServer.antt =====
-- `Server` and `TcpServer` of cpplibrary/netserver/include/netserver/cl_server.hpp: an event loop
-- over listening sockets that the server closes in the end.
mod Tests
use cppfastdevelop.Prelude.{
  ℕ, ◌≡◌, refl, ap, ◌∙◌, Bool, true, false, Option, none, some, List, [], ◌∷◌, ℤ, Fd, same_fd,
  same_fd_iff, find, Bool-cases, inl, inr, arith, if◌then◌else◌, sym,
}
use cppfastdevelop.Epoll.{EvType}
use cppfastdevelop.Network.Setup as Setup
use cppfastdevelop.NetServer.Buffer.{Result, ok, throw}
use cppfastdevelop.NetServer.EventHandler.{Demux, Handler, Action, Sockets, Callbacks, bound, ◌>>=◌}
use cppfastdevelop.NetServer.EventHandler.Balance.{Post}
use cppfastdevelop.NetServer.EventHandler.Rules.{Balanced, CallbacksKeep}
use cppfastdevelop.NetServer.EventLoop.{LoopEnd, make_loop, wait_events, listenfds}
use cppfastdevelop.NetServer.EventLoop.Balance.{wait_events-Balanced}

-- `CreateListenSocket`: a socket that does not block.
abbrev pub create_listen_socket : {W : Type 0} → Setup.Calls W → Bool → W → W × Setup.Outcome ℕ
create_listen_socket sys reuse_addr w = Setup.create_server_socket sys reuse_addr false w

module _ {D W : Type 0} (dm : Demux D) (wait : D → D × Result (List (Fd × EvType))) (so : Sockets W)
    (cb : Callbacks D W) (close : Fd → W → W) (make_demux : List Fd → D × Result (Unit {0})) where
  -- `Server::Init` makes the event loop, and `Server::Start` waits in it; `TcpServer` passes both on.
  abbrev pub make_server : List (Fd × ℕ) → ℤ → Action D W (Unit {0})
  make_server listenfd_maxconn processid = make_loop make_demux listenfd_maxconn processid

  abbrev pub start_server : List Bool → Action D W LoopEnd
  start_server flags = wait_events dm wait so cb flags

  -- The loop of `~TcpServer`.
  unfoldable pub close_each : List (Fd × ℕ) → W → W
  close_each [] w = w
  close_each ((fd, maxconns) ∷ ls) w = close_each ls (close fd w)

  abbrev pub destroy_server : List (Fd × ℕ) → Handler D W → Handler D W
  destroy_server ls h = record h { network = close_each ls h.network }

  -- A server in a block of its own: it is destroyed whether `Start` returns or throws, and not at
  -- all where its constructor throws.
  abbrev pub left : List (Fd × ℕ) → Handler D W × Result LoopEnd → Handler D W × Result LoopEnd
  left ls (h, r) = (destroy_server ls h, r)

  abbrev pub served :
      List (Fd × ℕ) → List Bool → Handler D W × Result (Unit {0}) → Handler D W × Result LoopEnd
  served ls flags (h, throw e) = (h, throw e)
  served ls flags (h, ok u) = left ls (start_server flags h)

  abbrev pub serve : List (Fd × ℕ) → ℤ → List Bool → Action D W LoopEnd
  serve ls processid flags h = served ls flags (make_server ls processid h)

-- The manual: `close` closes its descriptor, and opens none.
pub record IsClose {W : Type 0} (close : Fd → W → W) (opened : W → Fd → Bool) : Type 0 where
  pub closes : (fd : Fd) (w : W) → opened (close fd w) fd ≡ false
  pub stays : (fd fd' : Fd) (w : W) → opened w fd' ≡ false → opened (close fd w) fd' ≡ false

-- What is left behind a server: its counts, where it returned, and its descriptors.
pub record IsLeft {D W : Type 0} (ls : List (Fd × ℕ)) (opened : W → Fd → Bool)
    (x : Handler D W × Result LoopEnd) : Type 0 where
  pub counts : Post (λ e. Balanced (λ l. 0)) x
  pub closed : (fd : Fd) (maxconns : ℕ) → find fd ls ≡ some maxconns → opened x.0.network fd ≡ false

module _ {D W : Type 0} (dm : Demux D) (wait : D → D × Result (List (Fd × EvType))) (so : Sockets W)
    {cb : Callbacks D W} (ck : CallbacksKeep cb) {close : Fd → W → W} {opened : W → Fd → Bool}
    (cl : IsClose close opened) (make_demux : List Fd → D × Result (Unit {0})) where
  close_each-stays :
      (ls : List (Fd × ℕ)) (w : W) (fd : Fd)
      → opened w fd ≡ false
      → opened (close_each dm wait so cb close make_demux ls w) fd ≡ false
  unfolding close_each
  close_each-stays [] w fd h = h
  close_each-stays ((fd', m) ∷ ls) w fd h =
      close_each-stays ls (close fd' w) fd (cl.stays fd' fd w h)

  close_each-closes :
      (ls : List (Fd × ℕ)) (w : W) (fd : Fd) (maxconns : ℕ)
      → find fd ls ≡ some maxconns
      → opened (close_each dm wait so cb close make_demux ls w) fd ≡ false
  unfolding close_each find
  close_each-closes [] w fd maxconns h = absurd (cc)
  close_each-closes ((fd', m) ∷ ls) w fd maxconns h = elim (Bool-cases (same_fd fd' fd)) [
    | inl e ↦
        let same : fd' ≡ fd = (same_fd_iff fd' fd).0 e in
        close_each-stays ls (close fd' w) fd (ap (λ d. opened (close d w) fd) same ∙ cl.closes fd w)
    | inr e ↦ close_each-closes ls (close fd' w) fd maxconns (next e h)
  ]
    where
      next :
          same_fd fd' fd ≡ false
          → (if same_fd fd' fd then some m else find fd ls) ≡ some maxconns
          → find fd ls ≡ some maxconns
      next e k = sym (ap (λ b. if b then some m else find fd ls) e) ∙ k

  left-IsLeft :
      (ls : List (Fd × ℕ)) (y : Handler D W × Result LoopEnd)
      → Post (λ e. Balanced (λ l. 0)) y
      → IsLeft ls opened (left dm wait so cb close make_demux ls y)
  left-IsLeft ls (h, ok e) b = record {
    counts = b;
    closed = λ fd m f. close_each-closes ls h.network fd m f;
  }
  left-IsLeft ls (h, throw e) b = record {
    counts = tt;
    closed = λ fd m f. close_each-closes ls h.network fd m f;
  }

  served-IsLeft :
      (ls : List (Fd × ℕ)) (flags : List Bool) (x : Handler D W × Result (Unit {0}))
      → x.1 ≡ ok tt
      → Post (λ e. Balanced (λ l. 0)) (bound x (λ u. wait_events dm wait so cb flags))
      → IsLeft ls opened (served dm wait so cb close make_demux ls flags x)
  served-IsLeft ls flags (h, ok u) e b = left-IsLeft ls (wait_events dm wait so cb flags h) b
  served-IsLeft ls flags (h, throw t) e b = absurd (cc)

  -- A server over callbacks that keep the counts, made on a handler with no client and no listener,
  -- started, and destroyed: where its constructor returns, none of its listening descriptors is open
  -- in the end, also where the event loop has thrown; and where the loop has returned, each listener
  -- counts its clients, modulo 2^32.
  pub serve-IsLeft :
      (ls : List (Fd × ℕ)) (processid : ℤ) (flags : List Bool) (h : Handler D W)
      → h.clientfd_clientinfo ≡ []
      → h.listenfd_listeninfo ≡ []
      → (make_server dm wait so cb close make_demux ls processid h).1 ≡ ok tt
      → IsLeft ls opened (serve dm wait so cb close make_demux ls processid flags h)
  unfolding ◌>>=◌
  serve-IsLeft ls processid flags h c l made =
      served-IsLeft ls flags (make_server dm wait so cb close make_demux ls processid h) made
        (wait_events-Balanced dm wait so ck make_demux ls processid flags h c l)
