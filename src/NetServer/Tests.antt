-- ===== src/NetServer/Tests.antt =====
-- A server with a demultiplexer that counts its calls, and a peer whose bytes come two at a time.
use cppfastdevelop.Prelude.{
  ℕ, suc, ◌-◌, ◌≡◌, ◌≢◌, refl, sym, ap, ◌∙◌, true, false, none, some, List, [], ◌∷◌, ◌++◌, length,
  length-take, take, drop, take-append-drop, arith, pos, negsuc, Fd, find, change, insert_new,
}
use cppfastdevelop.NetServer.Buffer.{Result, ok, throw, ReadBuffer, Receipt, Session, WriteBuffer}
use cppfastdevelop.NetServer.EventHandler.{
  ClientInfo, ListenInfo, Demux, Handler, ◌>>=◌, Sockets, Callbacks, done, add_new_conn_to,
  clear_session_and_buffer, count_down, on_accept, accept_each,
}
use cppfastdevelop.NetServer.EventHandler.Chains.{read_chain, write_chain}
use cppfastdevelop.NetServer.EventHandler.Sending.{
  IsDrain, AllBuffers, SendsOff, write_chain-SendsOff,
}
use cppfastdevelop.NetServer.EventHandler.Delivery.{
  IsStream, InOrder, AllFresh, Delivers, read_chain-Delivers,
}
use cppfastdevelop.NetServer.EventHandler.Closing.{
  clear_session_and_buffer-releases, add_new_conn_to-fails,
}

abbrev counting : Demux ℕ
counting = record {
  add_conn = λ fd ev d. suc d;
  del_conn = λ fd d. suc d;
  add_event = λ fd ev d. suc d;
  del_event = λ fd ev d. suc d;
}

abbrev at_most_two : ℕ → ℕ
at_most_two n = n - (n - 2)

abbrev trickle : Session (List ℕ)
trickle = record {
  recv_async = λ n w.
      (drop (at_most_two n) w, ok (record { bytes = take (at_most_two n) w; peer_closed = false }));
  send_async = λ bs w. (w, ok (length bs));
}

abbrev sockets : Sockets (List ℕ)
sockets = record {
  session = λ fd. trickle;
  set_nonblocking = λ fd w. (w, ok tt);
  accept_async = λ fd w. (w, ok (some (pos 7 ∷ pos 8 ∷ [])));
}

abbrev silent : Callbacks ℕ (List ℕ)
silent = record {
  on_accept_complete = λ l s. done;
  on_read_complete = λ s rb. done;
  on_write_complete = λ s. done;
  on_close_complete = λ s. done;
  on_timeout_complete = done;
  on_error_complete = λ s. done;
}

-- Two connections may stand at the listener 3.
abbrev server : Handler ℕ (List ℕ)
server = record {
  demux = 0;
  network = 1 ∷ 2 ∷ 3 ∷ 4 ∷ 5 ∷ [];
  processid = pos 100;
  clientfd_clientinfo = [];
  listenfd_listeninfo = (pos 3, record { maxconns = 2; currentconns = 0 }) ∷ [];
  rbpool = record { free = []; max_alloc_cnt = 0 };
  wbpool = record { free = []; max_alloc_cnt = 0 };
  max_conn_cnt = 0;
}

-- The two clients are added, and the listener, which is then full, is taken off.
accepts_two :
    (on_accept counting sockets silent (pos 3) server).0.listenfd_listeninfo
    ≡ (pos 3, record { maxconns = 2; currentconns = 2 }) ∷ []
unfolding ◌>>=◌ accept_each find insert_new change
accepts_two = refl

accepts_calls : (on_accept counting sockets silent (pos 3) server).0.demux ≡ 3
unfolding ◌>>=◌ accept_each find insert_new change
accepts_calls = refl

abbrev first : ReadBuffer
first = record { buf = 0 ∷ 0 ∷ []; total = 2; already = 0 }

abbrev second : ReadBuffer
second = record { buf = 0 ∷ 0 ∷ 0 ∷ []; total = 3; already = 0 }

-- The first buffer is complete, and the second has two bytes of three.
reads_chain :
    (read_chain counting sockets
      (pos 7)
      (pos 7)
      (first ∷ second ∷ [])
      (1 ∷ 2 ∷ 3 ∷ 4 ∷ 5 ∷ [])
      0).left
    ≡ record { buf = 3 ∷ 4 ∷ 0 ∷ []; total = 3; already = 2 } ∷ []
unfolding read_chain
reads_chain = refl

abbrev receipt_bytes : Result Receipt → List ℕ
receipt_bytes (ok r) = r.bytes
receipt_bytes (throw e) = []

trickle-IsStream : IsStream trickle (λ w. w)
trickle-IsStream = record {
  gives = λ n w r e.
      let f : take (at_most_two n) w ≡ r.bytes = ap receipt_bytes e in
      (
        omega (arith, ap length f, length-take (at_most_two n) w),
        sym (take-append-drop (at_most_two n) w) ∙ ap (λ x. x ++ drop (at_most_two n) w) f,
      );
  loses = λ n w e q. cc;
}

chain-InOrder : InOrder (first ∷ second ∷ [])
unfolding InOrder AllFresh
chain-InOrder = (
  record { within = omega arith; sized = refl; word = omega arith },
  (record { within = omega arith; sized = refl; word = omega arith }, refl, tt),
)

read_chain-Delivers_example :
    Delivers
      (λ w. w)
      (first ∷ second ∷ [])
      (1 ∷ 2 ∷ 3 ∷ 4 ∷ 5 ∷ [])
      (read_chain counting sockets (pos 7) (pos 7) (first ∷ second ∷ []) (1 ∷ 2 ∷ 3 ∷ 4 ∷ 5 ∷ []) 0)
read_chain-Delivers_example =
    read_chain-Delivers counting sockets (pos 7) (pos 7) trickle-IsStream (first ∷ second ∷ [])
      (1 ∷ 2 ∷ 3 ∷ 4 ∷ 5 ∷ []) 0 chain-InOrder

abbrev client : ClientInfo
client = record { session = pos 7; listenfd = pos 3; rb_chain = first ∷ []; wb_chain = [] }

abbrev listener : ListenInfo
listener = record { maxconns = 2; currentconns = 1 }

abbrev busy : Handler ℕ (List ℕ)
busy = record server {
  clientfd_clientinfo = (pos 7, client) ∷ [];
  listenfd_listeninfo = (pos 3, listener) ∷ [];
}

client_there : find (pos 7) ((pos 7, client) ∷ []) ≡ some client
unfolding find
client_there = refl

listener_there : find (pos 3) ((pos 3, listener) ∷ []) ≡ some listener
unfolding find
listener_there = refl

clear_session_and_buffer-releases_example :
    ((clear_session_and_buffer counting sockets silent (pos 7) busy).1 ≡ ok tt)
    × (find
          (pos 7)
          (clear_session_and_buffer counting sockets silent (pos 7) busy).0.clientfd_clientinfo
        ≡ none)
    × (find
          (pos 3)
          (clear_session_and_buffer counting sockets silent (pos 7) busy).0.listenfd_listeninfo
        ≡ some (count_down counting sockets silent listener))
    × ((clear_session_and_buffer counting sockets silent (pos 7) busy).0.rbpool.free
        ≡ [] ++ first ∷ [])
    × ((clear_session_and_buffer counting sockets silent (pos 7) busy).0.wbpool.free ≡ [] ++ [])
clear_session_and_buffer-releases_example =
    clear_session_and_buffer-releases counting sockets silent (pos 7) client listener busy
      client_there listener_there

silent_keeps :
    (l s : Fd) (h : Handler ℕ (List ℕ))
    → (silent.on_accept_complete l s h).0.listenfd_listeninfo ≡ h.listenfd_listeninfo
silent_keeps l s h = refl

no_listener : find (negsuc 0) server.listenfd_listeninfo ≡ none
unfolding find
no_listener = refl

add_new_conn_to-fails_example :
    (add_new_conn_to counting sockets silent (pos 9) true server).1 ≢ ok (pos 9)
add_new_conn_to-fails_example =
    add_new_conn_to-fails counting sockets silent (pos 9) true server silent_keeps no_listener

-- A peer that takes three bytes at a time, with what it has taken.
abbrev at_most_three : ℕ → ℕ
at_most_three n = n - (n - 3)

abbrev sink : Session (List ℕ)
sink = record {
  recv_async = λ n w. (w, ok (record { bytes = []; peer_closed = false }));
  send_async = λ bs w. (w ++ take (at_most_three (length bs)) bs, ok (at_most_three (length bs)));
}

abbrev sinks : Sockets (List ℕ)
sinks = record sockets { session = λ fd. sink }

abbrev two_writes : List WriteBuffer
two_writes =
    record { buf = 1 ∷ 2 ∷ 3 ∷ []; total = 3; already = 1 }
    ∷ record { buf = 4 ∷ 5 ∷ 6 ∷ 7 ∷ 8 ∷ []; total = 4; already = 0 }
    ∷ []

-- The first buffer is done, and the second has a byte left.
writes_chain :
    (write_chain counting sinks (pos 7) (pos 7) two_writes [] 0).network ≡ 2 ∷ 3 ∷ 4 ∷ 5 ∷ 6 ∷ []
unfolding write_chain
writes_chain = refl

ok_inj : {a b : ℕ} → ok a ≡ ok b → a ≡ b
ok_inj e = cc

sink-IsDrain : IsDrain sink (λ w. w)
sink-IsDrain = record {
  takes = λ bs w n e.
      let f : at_most_three (length bs) ≡ n = ok_inj e in (omega arith, ap (λ m. w ++ take m bs) f);
  throws = λ bs w x e. absurd (cc);
}

two_writes-AllBuffers : AllBuffers two_writes
unfolding AllBuffers
two_writes-AllBuffers = (
  record { within = omega arith; sized = omega arith; word = omega arith },
  (record { within = omega arith; sized = omega arith; word = omega arith }, tt),
)

write_chain-SendsOff_example :
    SendsOff (λ w. w) two_writes [] (write_chain counting sinks (pos 7) (pos 7) two_writes [] 0)
write_chain-SendsOff_example =
    write_chain-SendsOff counting sinks (pos 7) (pos 7) sink-IsDrain two_writes [] 0
      two_writes-AllBuffers
