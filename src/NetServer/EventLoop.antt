-- ===== src/NetServer/EventLoop.antt =====
-- `EventLoop` of cppfoundation/include/cppfoundation/cf_event_loop.hpp: the loop that waits in the
-- demultiplexer and calls the handler, which it has given the demultiplexer.
--
-- `_stop` is set by callbacks and other threads: each round finds it as a list says.
pub mod Balance
pub mod Tests
use cppfastdevelop.Prelude.{ℕ, Bool, true, false, Option, none, some, List, [], ◌∷◌, ℤ, Fd}
use cppfastdevelop.Epoll.{EvType, cfev_accept, cfev_read, cfev_write, cfev_close, cfev_error}
use cppfastdevelop.NetServer.Buffer.{Result, ok, throw}
use cppfastdevelop.NetServer.EventHandler.{
  Demux, Handler, Action, returns, ◌>>=◌, ◌>>◌, done, Sockets, Callbacks, init, on_accept, on_close,
  on_error, on_timeout,
}
use cppfastdevelop.NetServer.EventHandler.Chains.{on_read, on_write}

-- The descriptors of `listenfd_maxconn`.
unfoldable pub listenfds : List (Fd × ℕ) → List Fd
listenfds [] = []
listenfds ((fd, maxconns) ∷ ls) = fd ∷ listenfds ls

-- The constructor, with `demux` what `Demux`'s constructor gives for those descriptors.
abbrev pub made : {D W : Type 0} → List (Fd × ℕ) → ℤ → D × Result (Unit {0}) → Action D W (Unit {0})
made listenfd_maxconn processid (d, ok u) h = (init listenfd_maxconn d processid h, ok tt)
made listenfd_maxconn processid (d, throw e) h = (h, throw e)

abbrev pub make_loop :
    {D W : Type 0} → (List Fd → D × Result (Unit {0})) → List (Fd × ℕ) → ℤ → Action D W (Unit {0})
make_loop make_demux listenfd_maxconn processid =
    made listenfd_maxconn processid (make_demux (listenfds listenfd_maxconn))

-- How `WaitEvent` stands: its loop has ended, or it goes on.
pub data LoopEnd : Type 0 where
  stopped running : LoopEnd

module _ {D W : Type 0} (dm : Demux D) (wait : D → D × Result (List (Fd × EvType))) (so : Sockets W)
    (cb : Callbacks D W) where
  -- The `switch` on an event.
  abbrev pub dispatch : Fd × EvType → Action D W (Unit {0})
  dispatch (fd, cfev_accept) = on_accept dm so cb fd
  dispatch (fd, cfev_read) = on_read dm so cb fd
  dispatch (fd, cfev_write) = on_write dm so cb fd
  dispatch (fd, cfev_close) = on_close dm so cb fd
  dispatch (fd, cfev_error) = on_error dm so cb fd

  unfoldable pub dispatch_each : List (Fd × EvType) → Action D W (Unit {0})
  dispatch_each [] = done
  dispatch_each (e ∷ es) = dispatch e >> dispatch_each es

  abbrev pub demux_wait : Action D W (List (Fd × EvType))
  demux_wait h = (record h { demux = (wait h.demux).0 }, (wait h.demux).1)

  abbrev pub handle_events : List (Fd × EvType) → Action D W (Unit {0})
  handle_events [] = on_timeout dm so cb
  handle_events (e ∷ es) = dispatch_each (e ∷ es)

  -- One round of the loop.
  abbrev pub round : Action D W (Unit {0})
  round = demux_wait >>= handle_events

  -- `WaitEvent`: the list says what each test of `_stop` reads.
  unfoldable pub wait_events : List Bool → Action D W LoopEnd
  wait_events [] = returns (ok running)
  wait_events (true ∷ flags) = returns (ok stopped)
  wait_events (false ∷ flags) = round >> wait_events flags
