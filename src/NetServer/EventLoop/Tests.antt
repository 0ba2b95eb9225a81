-- ===== src/NetServer/EventLoop/Tests.antt =====
-- An event loop over a demultiplexer that counts its calls: two clients come, and one leaves.
use cppfastdevelop.Prelude.{
  ℕ, zero, suc, ◌≡◌, refl, true, false, some, List, [], ◌∷◌, pos, Fd, find, insert_new, erase,
  change,
}
use cppfastdevelop.Epoll.{EvType, cfev_accept, cfev_close}
use cppfastdevelop.NetServer.Buffer.{Result, ok, Session}
use cppfastdevelop.NetServer.EventHandler.{
  Demux, Handler, ◌>>=◌, ◌>>◌, Sockets, Callbacks, done, accept_each, add_listens, put_reads,
  put_writes,
}
use cppfastdevelop.NetServer.EventHandler.Balance.{Post}
use cppfastdevelop.NetServer.EventHandler.Rules.{Balanced, CallbacksKeep}
use cppfastdevelop.NetServer.EventLoop.{
  LoopEnd, stopped, make_loop, wait_events, dispatch_each, listenfds,
}
use cppfastdevelop.NetServer.EventLoop.Balance.{wait_events-Balanced}

abbrev pub counting : Demux ℕ
counting = record {
  add_conn = λ fd ev d. suc d;
  del_conn = λ fd d. suc d;
  add_event = λ fd ev d. suc d;
  del_event = λ fd ev d. suc d;
}

-- The first call finds connections at the listener, and each later one the end of a client.
abbrev pub wait : ℕ → ℕ × Result (List (Fd × EvType))
wait zero = (zero, ok ((pos 3, cfev_accept) ∷ []))
wait (suc d) = (suc d, ok ((pos 7, cfev_close) ∷ []))

abbrev quiet : Session (List ℕ)
quiet = record {
  recv_async = λ n w. (w, ok (record { bytes = []; peer_closed = false }));
  send_async = λ bs w. (w, ok 0);
}

abbrev pub sockets : Sockets (List ℕ)
sockets = record {
  session = λ fd. quiet;
  set_nonblocking = λ fd w. (w, ok tt);
  accept_async = λ fd w. (w, ok (some (pos 7 ∷ pos 8 ∷ [])));
}

abbrev pub silent : Callbacks ℕ (List ℕ)
silent = record {
  on_accept_complete = λ l s. done;
  on_read_complete = λ s rb. done;
  on_write_complete = λ s. done;
  on_close_complete = λ s. done;
  on_timeout_complete = done;
  on_error_complete = λ s. done;
}

pub silent-keep : CallbacksKeep silent
silent-keep = record {
  accept_keeps = λ l s. record { at = λ owed h b. b };
  read_keeps = λ s rb. record { at = λ owed h b. b };
  write_keeps = λ s. record { at = λ owed h b. b };
  close_keeps = λ s. record { at = λ owed h b. b };
  timeout_keeps = record { at = λ owed h b. b };
  error_keeps = λ s. record { at = λ owed h b. b };
}

abbrev pub idle : Handler ℕ (List ℕ)
idle = record {
  demux = 0;
  network = [];
  processid = pos 0;
  clientfd_clientinfo = [];
  listenfd_listeninfo = [];
  rbpool = record { free = []; max_alloc_cnt = 0 };
  wbpool = record { free = []; max_alloc_cnt = 0 };
  max_conn_cnt = 0;
}

abbrev pub make_demux : List Fd → ℕ × Result (Unit {0})
make_demux fds = (0, ok tt)

abbrev two_rounds : Handler ℕ (List ℕ) × Result LoopEnd
two_rounds =
    (make_loop make_demux ((pos 3, 5) ∷ []) (pos 100)
        >> wait_events counting wait sockets silent (false ∷ false ∷ true ∷ []))
      idle

serves_one :
    two_rounds.0.listenfd_listeninfo ≡ (pos 3, record { maxconns = 5; currentconns = 1 }) ∷ []
unfolding ◌>>=◌ wait_events dispatch_each listenfds add_listens accept_each find insert_new erase
    change put_reads put_writes
serves_one = refl

ends : two_rounds.1 ≡ ok stopped
unfolding ◌>>=◌ wait_events dispatch_each listenfds add_listens accept_each find insert_new erase
    change put_reads put_writes
ends = refl

wait_events-Balanced_example : Post (λ e. Balanced (λ l. 0)) two_rounds
wait_events-Balanced_example =
    wait_events-Balanced counting wait sockets silent-keep make_demux ((pos 3, 5) ∷ []) (pos 100)
      (false ∷ false ∷ true ∷ []) idle refl refl
