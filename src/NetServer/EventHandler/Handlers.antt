-- ===== src/NetServer/EventHandler/Handlers.antt =====
-- Every handler that returns keeps the counts of the listeners, if the overridden callbacks do.
use cppfastdevelop.Prelude.{
  ℕ, ◌-◌, ◌^◌, ◌≡◌, refl, Bool, true, false, Option, none, some, List, [], ◌∷◌, if◌then◌else◌,
  arith, Fd, find,
}
use cppfastdevelop.Epoll.{cfev_close}
use cppfastdevelop.NetServer.Buffer.{Result, ok, throw, ReadBuffer, WriteBuffer}
use cppfastdevelop.NetServer.EventHandler.{
  ClientInfo, ListenInfo, Demux, Handler, Action, bound, found, Sockets, Callbacks, erase_found,
  get_listen_info, put_reads, put_writes, count_up, count_down, check_max_connection,
  log_connections, add_new_conn, clear_session_and_buffer, on_close, on_error, on_accept,
  accept_each, accept_one, accept_found, accepted, async_read, async_write, on_network, done,
  insert_client, change_listen, ◌>>=◌, ◌>>◌,
}
use cppfastdevelop.NetServer.EventHandler.Chains.{
  on_read, on_write, complete_reads, complete_writes, read_client, write_client, reads_done,
  writes_done, complete_of, chain_left, read_chain, write_chain,
}
use cppfastdevelop.NetServer.EventHandler.Balance.{
  Post, Post-bound, also_owed, paid, entered, left, rewritten,
}
use cppfastdevelop.NetServer.EventHandler.Rules.{
  Balanced, Keeps, CallbacksKeep, keep_rules, bind-Keeps, result-Keeps, done-Keeps, on_demux-Keeps,
  on_network-Keeps, get_client_info-Keeps, get_read_buffer-Keeps, get_write_buffer-Keeps,
  put_read-Keeps, put_write-Keeps, change_client-Keeps, put_reads-Keeps, put_writes-Keeps,
}

module _ {D W : Type 0} (dm : Demux D) (so : Sockets W) {cb : Callbacks D W}
    (ck : CallbacksKeep cb) where
  check_max_connection-Keeps : (l : Fd) (new : Bool) → Keeps (check_max_connection dm so cb l new)
  check_max_connection-Keeps l new = search keep_rules

  -- A new client, behind the callback, is counted.
  counted :
      (l : Fd) (owed : Fd → ℕ) (h : Handler D W) (r : Result ListenInfo)
      → Balanced (also_owed l 1 owed) h
      → Post
          (λ a h'. Balanced owed h')
          (bound (h, r) (λ li. change_listen l (count_up dm so cb) >> log_connections dm so cb))
  unfolding ◌>>=◌
  counted l owed h (ok li) b =
      paid owed l 1 (count_up dm so cb) h.clientfd_clientinfo h.listenfd_listeninfo (λ li. refl) b
  counted l owed h (throw e) b = tt

  called : (l s : Fd) (c : Bool) → Keeps (if c then cb.on_accept_complete l s else done)
  called l s true = ck.accept_keeps l s
  called l s false = done-Keeps

  add_new_conn-keeps :
      (s l : Fd) (callback : Bool) (owed : Fd → ℕ) (h : Handler D W)
      → find s h.clientfd_clientinfo ≡ none
      → Balanced owed h
      → Post (λ a h'. Balanced owed h') (add_new_conn dm so cb s callback l h)
  unfolding ◌>>=◌
  add_new_conn-keeps s l callback owed h n b =
      Post-bound (λ u. Balanced (also_owed l 1 owed)) (λ u. Balanced owed)
        (on_network (so.set_nonblocking s) (insert_client dm so cb s l h).0) _
        ((on_network-Keeps {D = D} (so.set_nonblocking s)).at (also_owed l 1 owed)
          (insert_client dm so cb s l h).0
          (entered owed s l h.clientfd_clientinfo h.listenfd_listeninfo n b))
        (λ u h2 q.
          Post-bound (λ u. Balanced (also_owed l 1 owed)) (λ u. Balanced owed)
            ((if callback then cb.on_accept_complete l s else done)
              (record h2 { demux = dm.add_conn s cfev_close h2.demux }))
            _ ((called l s callback).at (also_owed l 1 owed) _ q)
            (λ u h3 q3. counted l owed h3 (found (find l h3.listenfd_listeninfo)) q3))

  -- A client that has been taken out is counted off.
  counted_off :
      (ci : ClientInfo) (owed : Fd → ℕ) (h : Handler D W) (r : Result ListenInfo)
      → Balanced (also_owed ci.listenfd (2 ^ 32 - 1) owed) h
      → Post
          (λ a h'. Balanced owed h')
          (bound
            (h, r)
            (λ li.
              change_listen ci.listenfd (count_down dm so cb)
              >> (check_max_connection dm so cb ci.listenfd false
                  >> (put_reads ci.rb_chain >> put_writes ci.wb_chain))))
  unfolding ◌>>=◌
  counted_off ci owed h (ok li) b =
      (bind-Keeps (check_max_connection-Keeps ci.listenfd false)
          (λ u. bind-Keeps (put_reads-Keeps ci.rb_chain) (λ v. put_writes-Keeps ci.wb_chain))).at
        owed (change_listen ci.listenfd (count_down dm so cb) h).0
        (paid owed ci.listenfd (2 ^ 32 - 1) (count_down dm so cb) h.clientfd_clientinfo
          h.listenfd_listeninfo (λ l. omega arith) b)
  counted_off ci owed h (throw e) b = tt

  clear_session_and_buffer-Keeps : (s : Fd) → Keeps (clear_session_and_buffer dm so cb s)
  unfolding ◌>>=◌
  clear_session_and_buffer-Keeps s = record {
    at = λ owed h b. taken owed h (find s h.clientfd_clientinfo) refl b;
  }
    where
      tail : ClientInfo → Action D W (Unit {0})
      tail ci = do
        li ← get_listen_info ci.listenfd
        change_listen ci.listenfd (count_down dm so cb)
        check_max_connection dm so cb ci.listenfd false
        put_reads ci.rb_chain
        put_writes ci.wb_chain

      taken :
          (owed : Fd → ℕ) (h : Handler D W) (o : Option ClientInfo)
          → find s h.clientfd_clientinfo ≡ o
          → Balanced owed h
          → Post (λ a h'. Balanced owed h') (bound (erase_found s o h) tail)
      taken owed h none e b = tt
      taken owed h (some ci) e b =
          counted_off ci owed (erase_found s (some ci) h).0
            (found (find ci.listenfd h.listenfd_listeninfo))
            (left owed s ci h.clientfd_clientinfo h.listenfd_listeninfo e b)

  pub on_close-Keeps : (fd : Fd) → Keeps (on_close dm so cb fd)
  on_close-Keeps fd = search (keep_rules, clear_session_and_buffer-Keeps, ck.close_keeps)

  pub on_error-Keeps : (fd : Fd) → Keeps (on_error dm so cb fd)
  on_error-Keeps fd = search (keep_rules, clear_session_and_buffer-Keeps, ck.error_keeps)

  accept_one-Keeps : (l fd : Fd) → Keeps (accept_one dm so cb l fd)
  accept_one-Keeps l fd = record {
    at = λ owed h b. step owed h (find fd h.clientfd_clientinfo) refl b;
  }
    where
      step :
          (owed : Fd → ℕ) (h : Handler D W) (o : Option ClientInfo)
          → find fd h.clientfd_clientinfo ≡ o
          → Balanced owed h
          → Post (λ a h'. Balanced owed h') (accept_found dm so cb l fd o h)
      step owed h none e b = add_new_conn-keeps fd l true owed h e b
      step owed h (some ci) e b = b

  accept_each-Keeps : (l : Fd) (fds : List Fd) → Keeps (accept_each dm so cb l fds)
  unfolding accept_each
  accept_each-Keeps l [] = done-Keeps
  accept_each-Keeps l (fd ∷ fds) = bind-Keeps (accept_one-Keeps l fd) (λ u. accept_each-Keeps l fds)

  accepted-Keeps : (l : Fd) (o : Option (List Fd)) → Keeps (accepted dm so cb l o)
  accepted-Keeps l none = done-Keeps
  accepted-Keeps l (some fds) =
      bind-Keeps (accept_each-Keeps l fds) (λ u. check_max_connection-Keeps l true)

  pub on_accept-Keeps : (l : Fd) → Keeps (on_accept dm so cb l)
  on_accept-Keeps l = search (keep_rules, accepted-Keeps)

  complete_reads-Keeps : (s : Fd) (rbs : List ReadBuffer) → Keeps (complete_reads dm so cb s rbs)
  unfolding complete_reads
  complete_reads-Keeps s [] = done-Keeps
  complete_reads-Keeps s (rb ∷ rbs) =
      bind-Keeps (bind-Keeps (ck.read_keeps s rb) (λ u. put_read-Keeps rb))
        (λ u. complete_reads-Keeps s rbs)

  complete_writes-Keeps : (s : Fd) (wbs : List WriteBuffer) → Keeps (complete_writes dm so cb s wbs)
  unfolding complete_writes
  complete_writes-Keeps s [] = done-Keeps
  complete_writes-Keeps s (wb ∷ wbs) =
      bind-Keeps (bind-Keeps (ck.write_keeps s) (λ u. put_write-Keeps wb))
        (λ u. complete_writes-Keeps s wbs)

  read_client-Keeps : (fd : Fd) (ci : ClientInfo) → Keeps (read_client dm so cb fd ci)
  read_client-Keeps fd ci = record {
    at = λ owed h b.
        let p = read_chain dm so fd ci.session ci.rb_chain h.network h.demux in
        result-Keeps (complete_of p p.outcome) owed (reads_done fd p h).0 (
          rewritten owed fd (λ c. record c { rb_chain = chain_left p p.outcome })
            h.clientfd_clientinfo h.listenfd_listeninfo (λ c. (refl, refl)) b);
  }

  write_client-Keeps : (fd : Fd) (ci : ClientInfo) → Keeps (write_client dm so cb fd ci)
  write_client-Keeps fd ci = record {
    at = λ owed h b.
        let p = write_chain dm so fd ci.session ci.wb_chain h.network h.demux in
        result-Keeps (complete_of p p.outcome) owed (writes_done fd p h).0 (
          rewritten owed fd (λ c. record c { wb_chain = chain_left p p.outcome })
            h.clientfd_clientinfo h.listenfd_listeninfo (λ c. (refl, refl)) b);
  }

  pub on_read-Keeps : (fd : Fd) → Keeps (on_read dm so cb fd)
  on_read-Keeps fd = search (keep_rules, read_client-Keeps, complete_reads-Keeps)

  pub on_write-Keeps : (fd : Fd) → Keeps (on_write dm so cb fd)
  on_write-Keeps fd = search (keep_rules, write_client-Keeps, complete_writes-Keeps)

  pub async_read-Keeps : (fd : Fd) (n : ℕ) → Keeps (async_read dm so cb fd n)
  async_read-Keeps fd n = bind-Keeps (get_client_info-Keeps fd) (λ ci.
      bind-Keeps (get_read_buffer-Keeps n)
        (λ rb. bind-Keeps (change_client-Keeps fd _ (λ c. (refl, refl))) (λ u. on_demux-Keeps _)))

  pub async_write-Keeps : (fd : Fd) (bs : List ℕ) → Keeps (async_write dm so cb fd bs)
  async_write-Keeps fd bs = bind-Keeps (get_client_info-Keeps fd) (λ ci.
      bind-Keeps (get_write_buffer-Keeps bs)
        (λ wb. bind-Keeps (change_client-Keeps fd _ (λ c. (refl, refl))) (λ u. on_demux-Keeps _)))
