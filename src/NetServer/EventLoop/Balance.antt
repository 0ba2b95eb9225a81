-- ===== src/NetServer/EventLoop/Balance.antt =====
-- A server that has been started keeps the counts of its listeners, round after round.
use cppfastdevelop.Prelude.{
  ℕ, ◌≡◌, sym, ap, subst, ◌⊎◌, Bool, true, false, none, some, Option-cases, inl, inr, List, [], ◌∷◌,
  arith, ℤ, Fd, find, insert_new, find-insert_new, insert_new_present,
}
use cppfastdevelop.Epoll.{EvType, cfev_accept, cfev_read, cfev_write, cfev_close, cfev_error}
use cppfastdevelop.NetServer.Buffer.{Result, ok, throw}
use cppfastdevelop.NetServer.EventHandler.{
  ListenInfo, Demux, Handler, ◌>>=◌, ◌>>◌, Sockets, Callbacks, add_listens,
}
use cppfastdevelop.NetServer.EventHandler.Clients.{count, UniqueKeys}
use cppfastdevelop.NetServer.EventHandler.Balance.{IsBalanced, Listens, Post, Post-bound}
use cppfastdevelop.NetServer.EventHandler.Rules.{
  Balanced, Keeps, CallbacksKeep, bind-Keeps, result-Keeps, done-Keeps,
}
use cppfastdevelop.NetServer.EventHandler.Handlers.{
  on_accept-Keeps, on_read-Keeps, on_write-Keeps, on_close-Keeps, on_error-Keeps,
}
use cppfastdevelop.NetServer.EventLoop.{
  dispatch, dispatch_each, demux_wait, handle_events, wait_events, make_loop, made, listenfds,
}

-- A listener that has just been added has no connection.
add_listens-fresh :
    (ls : List (Fd × ℕ)) (m : Listens) (l : Fd) (li : ListenInfo)
    → ((li' : ListenInfo) → find l m ≡ some li' → li'.currentconns ≡ 0)
    → find l (add_listens ls m) ≡ some li
    → li.currentconns ≡ 0
unfolding add_listens
add_listens-fresh [] m l li h f = h li f
add_listens-fresh ((fd, maxconns) ∷ ls) m l li h f =
    add_listens-fresh ls (insert_new fd fresh m) l li
      (λ li' g. step (Option-cases (find fd m)) li' g) f
  where
    fresh : ListenInfo
    fresh = record { maxconns = maxconns; currentconns = 0 }

    step :
        (find fd m ≡ none) ⊎ ((w : ListenInfo) × (find fd m ≡ some w))
        → (li' : ListenInfo) → find l (insert_new fd fresh m) ≡ some li'
        → li'.currentconns ≡ 0
    step (inl n) li' g = ground (arith, find-insert_new fd l fresh m n, g, h li')
    step (inr (w, s)) li' g = ground (arith, insert_new_present fd fresh w m s, g, h li')

empty-IsBalanced :
    (listens : Listens)
    → ((l : Fd) (li : ListenInfo) → find l listens ≡ some li → li.currentconns ≡ 0)
    → IsBalanced (λ l. 0) [] listens
unfolding count UniqueKeys find
empty-IsBalanced listens z = record {
  unique = tt;
  own = λ fd ci h. absurd (cc);
  balanced = λ l li h. ground (arith, z l li h);
}

empty_finds :
    {m : Listens} (j : Fd) (li : ListenInfo) → m ≡ [] → find j m ≡ some li → li.currentconns ≡ 0
unfolding find
empty_finds {m} j li e h = ground (arith, ap (find j) e)

module _ {D W : Type 0} (dm : Demux D) (wait : D → D × Result (List (Fd × EvType))) (so : Sockets W)
    {cb : Callbacks D W} (ck : CallbacksKeep cb) where
  dispatch-Keeps : (e : Fd × EvType) → Keeps (dispatch dm wait so cb e)
  dispatch-Keeps (fd, cfev_accept) = on_accept-Keeps dm so ck fd
  dispatch-Keeps (fd, cfev_read) = on_read-Keeps dm so ck fd
  dispatch-Keeps (fd, cfev_write) = on_write-Keeps dm so ck fd
  dispatch-Keeps (fd, cfev_close) = on_close-Keeps dm so ck fd
  dispatch-Keeps (fd, cfev_error) = on_error-Keeps dm so ck fd

  dispatch_each-Keeps : (es : List (Fd × EvType)) → Keeps (dispatch_each dm wait so cb es)
  unfolding dispatch_each
  dispatch_each-Keeps [] = done-Keeps
  dispatch_each-Keeps (e ∷ es) = bind-Keeps (dispatch-Keeps e) (λ u. dispatch_each-Keeps es)

  handle_events-Keeps : (es : List (Fd × EvType)) → Keeps (handle_events dm wait so cb es)
  handle_events-Keeps [] = ck.timeout_keeps
  handle_events-Keeps (e ∷ es) = dispatch_each-Keeps (e ∷ es)

  demux_wait-Keeps : Keeps (demux_wait dm wait so cb)
  demux_wait-Keeps = record {
    at = λ owed h b. result-Keeps (wait h.demux).1 owed (record h { demux = (wait h.demux).0 }) b;
  }

  wait_events-Keeps : (flags : List Bool) → Keeps (wait_events dm wait so cb flags)
  unfolding wait_events
  wait_events-Keeps [] = record { at = λ owed h b. b }
  wait_events-Keeps (true ∷ flags) = record { at = λ owed h b. b }
  wait_events-Keeps (false ∷ flags) =
      bind-Keeps (bind-Keeps demux_wait-Keeps handle_events-Keeps) (λ u. wait_events-Keeps flags)

  made-Balanced :
      (ls : List (Fd × ℕ)) (processid : ℤ) (r : D × Result (Unit {0})) (h : Handler D W)
      → h.clientfd_clientinfo ≡ []
      → h.listenfd_listeninfo ≡ []
      → Post (λ u. Balanced (λ l. 0)) (made ls processid r h)
  made-Balanced ls processid (d, throw e) h c l = tt
  made-Balanced ls processid (d, ok u) h c l =
      subst (λ cs. IsBalanced (λ l. 0) cs (add_listens ls h.listenfd_listeninfo)) (sym c)
        (empty-IsBalanced (add_listens ls h.listenfd_listeninfo)
          (λ j li. add_listens-fresh ls h.listenfd_listeninfo j li (λ li'. empty_finds j li' l)))

  -- From a handler with no client and no listener, the event loop's constructor and any number of
  -- rounds of its loop, where no exception ends them, leave at each listener a count that is the
  -- number of its clients modulo 2^32, for callbacks that keep the counts.
  pub wait_events-Balanced :
      (make_demux : List Fd → D × Result (Unit {0})) (ls : List (Fd × ℕ)) (processid : ℤ)
      (flags : List Bool) (h : Handler D W)
      → h.clientfd_clientinfo ≡ []
      → h.listenfd_listeninfo ≡ []
      → Post
          (λ e. Balanced (λ l. 0))
          ((make_loop make_demux ls processid >> wait_events dm wait so cb flags) h)
  unfolding ◌>>=◌
  wait_events-Balanced make_demux ls processid flags h c l =
      Post-bound (λ u. Balanced (λ l. 0)) (λ e. Balanced (λ l. 0))
        (make_loop make_demux ls processid h) (λ u. wait_events dm wait so cb flags)
        (made-Balanced ls processid (make_demux (listenfds ls)) h c l)
        (λ u h' b. (wait_events-Keeps flags).at (λ l. 0) h' b)
