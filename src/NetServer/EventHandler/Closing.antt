-- ===== src/NetServer/EventHandler/Closing.antt =====
-- What the event handler does where a connection ends, and where the program adds one of its own.
use cppfastdevelop.Prelude.{
  ◌≡◌, refl, sym, ap, ◌∙◌, ◌≢◌, Bool, true, false, not, ◌&&◌, none, some, List, [], ◌∷◌, ◌++◌,
  append-nil, append_assoc, ltb, leb, if◌then◌else◌, arith, negsuc, Fd, same_fd, same_fd_iff, find,
  erase, change, find-change, find-erase,
}
use cppfastdevelop.Epoll.{cfev_read, cfev_close}
use cppfastdevelop.NetServer.Buffer.{Result, ok, throw, ReadBuffer, WriteBuffer}
use cppfastdevelop.NetServer.EventHandler.{
  ClientInfo, ListenInfo, Demux, Handler, Sockets, Callbacks, Action, bound, found, put_read,
  put_reads, put_write, put_writes, check_limits, check_max_connection, count_down, on_demux,
  on_network, done, ◌>>=◌, ◌>>◌, get_listen_info, change_listen, insert_client, count_up,
  log_connections, add_new_conn, clear_session_and_buffer, add_new_conn_to, erase_found,
}

same_fd_refl : (a : Fd) → same_fd a a ≡ true
same_fd_refl a = (same_fd_iff a a).1 refl

module _ {D W : Type 0} where
  bound_fails :
      {A B : Type 0} {b : B} (x : Handler D W × Result A) (f : A → Action D W B)
      → ((a : A) → x.1 ≡ ok a → (f a x.0).1 ≢ ok b)
      → (bound x f).1 ≢ ok b
  bound_fails (h, ok a) f k = k a refl
  bound_fails (h, throw e) f k = λ q. cc

  put_reads_lem :
      (rbs : List ReadBuffer) (h : Handler D W)
      → put_reads rbs h
        ≡ (record h { rbpool = record (h.rbpool) { free = h.rbpool.free ++ rbs } }, ok tt)
  unfolding put_reads ◌>>=◌
  put_reads_lem [] h =
      ap (λ x. (record h { rbpool = record (h.rbpool) { free = x } }, ok tt))
        (sym (append-nil h.rbpool.free))
  put_reads_lem (rb ∷ rbs) h =
      put_reads_lem rbs (put_read rb h).0
      ∙ ap (λ x. (record h { rbpool = record (h.rbpool) { free = x } }, ok tt))
          (append_assoc h.rbpool.free (rb ∷ []) rbs)

  put_writes_lem :
      (wbs : List WriteBuffer) (h : Handler D W)
      → put_writes wbs h
        ≡ (record h { wbpool = record (h.wbpool) { free = h.wbpool.free ++ wbs } }, ok tt)
  unfolding put_writes ◌>>=◌
  put_writes_lem [] h =
      ap (λ x. (record h { wbpool = record (h.wbpool) { free = x } }, ok tt))
        (sym (append-nil h.wbpool.free))
  put_writes_lem (wb ∷ wbs) h =
      put_writes_lem wbs (put_write wb h).0
      ∙ ap (λ x. (record h { wbpool = record (h.wbpool) { free = x } }, ok tt))
          (append_assoc h.wbpool.free (wb ∷ []) wbs)

module _ {D W : Type 0} (dm : Demux D) (so : Sockets W) (cb : Callbacks D W) where
  -- The checks of the limit touch the demultiplexer alone, and return.
  check_limits_lem :
      (fd : Fd) (b : Bool) (li : ListenInfo) (h : Handler D W)
      → (d : D) × (check_limits dm so cb fd b li h ≡ (record h { demux = d }, ok tt))
  unfolding ◌>>=◌
  check_limits_lem fd b li h =
      pick (b && ltb 0 li.maxconns && leb li.maxconns li.currentconns)
        (not b && ltb 0 li.maxconns && ltb li.currentconns li.maxconns)
    where
      pick :
          (x y : Bool)
          → (d : D) × (bound
                ((if x then on_demux (dm.del_conn fd) else done) h)
                (λ u. if y then on_demux (dm.add_conn fd cfev_read) else done)
              ≡ (record h { demux = d }, ok tt))
      pick true true = (_, refl)
      pick true false = (_, refl)
      pick false true = (_, refl)
      pick false false = (_, refl)

  -- Behind `ClearSessionAndBuffer` of a client whose listener is known, the call returns, the
  -- client is gone, its listener counts one connection less, and the buffers of both chains are
  -- back in their pools, in order.
  pub clear_session_and_buffer-releases :
      (session : Fd) (ci : ClientInfo) (li : ListenInfo) (h : Handler D W)
      → find session h.clientfd_clientinfo ≡ some ci
      → find ci.listenfd h.listenfd_listeninfo ≡ some li
      → ((clear_session_and_buffer dm so cb session h).1 ≡ ok tt)
        × (find session (clear_session_and_buffer dm so cb session h).0.clientfd_clientinfo ≡ none)
        × (find ci.listenfd (clear_session_and_buffer dm so cb session h).0.listenfd_listeninfo
            ≡ some (count_down dm so cb li))
        × ((clear_session_and_buffer dm so cb session h).0.rbpool.free
            ≡ h.rbpool.free ++ ci.rb_chain)
        × ((clear_session_and_buffer dm so cb session h).0.wbpool.free
            ≡ h.wbpool.free ++ ci.wb_chain)
  unfolding put_reads put_writes ◌>>=◌
  clear_session_and_buffer-releases session ci li h s l =
      let w = ends in
      let e = w.1 in
      (
        ap (λ x. x.1) e,
        ap (λ x. find session x.0.clientfd_clientinfo) e ∙ gone,
        ap (λ x. find ci.listenfd x.0.listenfd_listeninfo) e ∙ counted,
        ap (λ x. x.0.rbpool.free) e,
        ap (λ x. x.0.wbpool.free) e,
      )
    where
      down : ListenInfo → ListenInfo
      down = count_down dm so cb

      tail3 : Action D W (Unit {0})
      tail3 = put_reads ci.rb_chain >> put_writes ci.wb_chain

      tail1 : ListenInfo → Action D W (Unit {0})
      tail1 li' =
          change_listen ci.listenfd down
          >> (check_max_connection dm so cb ci.listenfd false >> tail3)

      tail0 : ClientInfo → Action D W (Unit {0})
      tail0 c = do
        li' ← get_listen_info c.listenfd
        change_listen c.listenfd down
        check_max_connection dm so cb c.listenfd false
        put_reads c.rb_chain
        put_writes c.wb_chain

      h1 : Handler D W
      h1 = record h { clientfd_clientinfo = erase session h.clientfd_clientinfo }

      h2 : Handler D W
      h2 = record h1 { listenfd_listeninfo = change ci.listenfd down h.listenfd_listeninfo }

      gone : find session (erase session h.clientfd_clientinfo) ≡ none
      gone = ground (arith, find-erase session session h.clientfd_clientinfo, same_fd_refl session)

      counted : find ci.listenfd (change ci.listenfd down h.listenfd_listeninfo) ≡ some (down li)
      counted = ground (
        arith,
        find-change ci.listenfd ci.listenfd down h.listenfd_listeninfo {w = li} l,
        same_fd_refl ci.listenfd,
      )

      h3 : D → Handler D W
      h3 d = record h2 {
        demux = d;
        rbpool = record (h.rbpool) { free = h.rbpool.free ++ ci.rb_chain };
      }

      ends :
          (d : D) × (clear_session_and_buffer dm so cb session h ≡ (
            record (h3 d) { wbpool = record (h.wbpool) { free = h.wbpool.free ++ ci.wb_chain } },
            ok tt,
          ))
      ends =
          let c = check_limits_lem ci.listenfd false (down li) h2 in
          (
            c.0,
            ap (λ o. bound (erase_found session o h) tail0) s
                ∙ ap (λ o. bound (h1, found o) tail1) l
                ∙ ap
                    (λ o.
                      bound (bound (h2, found o) (check_limits dm so cb ci.listenfd false))
                        (λ u. tail3))
                    counted
                ∙ ap (λ x. bound x (λ u. tail3)) c.1
                ∙ ap (λ x. bound x (λ u. put_writes ci.wb_chain))
                    (put_reads_lem ci.rb_chain (record h2 { demux = c.0 }))
                ∙ put_writes_lem ci.wb_chain (h3 c.0),
          )

  add_new_conn-fails :
      (fd : Fd) (callback : Bool) (h : Handler D W)
      → ((l s : Fd) (h' : Handler D W)
          → (cb.on_accept_complete l s h').0.listenfd_listeninfo ≡ h'.listenfd_listeninfo)
      → find (negsuc 0) h.listenfd_listeninfo ≡ none
      → (add_new_conn dm so cb fd callback (negsuc 0) h).1 ≢ ok tt
  unfolding ◌>>=◌
  add_new_conn-fails fd callback h keeps n =
      bound_fails (on_network (so.set_nonblocking fd) h1) _ (λ u e.
        by_callback callback (record h2 { demux = dm.add_conn fd cfev_close h2.demux }) refl)
    where
      h1 : Handler D W
      h1 = (insert_client dm so cb fd (negsuc 0) h).0

      h2 : Handler D W
      h2 = (on_network (so.set_nonblocking fd) h1).0

      refused : Unit {0} → Action D W (Unit {0})
      refused u = do
        li ← get_listen_info (negsuc 0)
        change_listen (negsuc 0) (count_up dm so cb)
        log_connections dm so cb

      unknown :
          (h' : Handler D W)
          → h'.listenfd_listeninfo ≡ h.listenfd_listeninfo
          → (refused tt h').1 ≢ ok tt
      unknown h' same q =
          let e =
            ap
              (λ m.
                (bound (h', found (find (negsuc 0) m))
                  (λ li.
                    (change_listen (negsuc 0) (count_up dm so cb) >> log_connections dm so cb))).1)
              same in
          let f =
            ap
              (λ o.
                (bound (h', found o)
                  (λ li.
                    (change_listen (negsuc 0) (count_up dm so cb) >> log_connections dm so cb))).1)
              n in
          cc

      by_callback :
          (b : Bool) (h' : Handler D W)
          → h'.listenfd_listeninfo ≡ h.listenfd_listeninfo
          → (bound ((if b then cb.on_accept_complete (negsuc 0) fd else done) h') refused).1 ≢ ok tt
      by_callback true h' same =
          bound_fails (cb.on_accept_complete (negsuc 0) fd h') refused (λ u e.
            unknown (cb.on_accept_complete (negsuc 0) fd h').0 (keeps (negsuc 0) fd h' ∙ same))
      by_callback false h' same = unknown h' same

  -- Where no listening descriptor is -1, a connection that the program adds itself is never taken:
  -- the call ends with an exception, for a callback that keeps the listeners as they are.
  pub add_new_conn_to-fails :
      (fd : Fd) (callback : Bool) (h : Handler D W)
      → ((l s : Fd) (h' : Handler D W)
          → (cb.on_accept_complete l s h').0.listenfd_listeninfo ≡ h'.listenfd_listeninfo)
      → find (negsuc 0) h.listenfd_listeninfo ≡ none
      → (add_new_conn_to dm so cb fd callback h).1 ≢ ok fd
  unfolding ◌>>=◌
  add_new_conn_to-fails fd callback h keeps n =
      bound_fails (add_new_conn dm so cb fd callback (negsuc 0) h) _
        (λ u e. absurd (add_new_conn-fails fd callback h keeps n e))
