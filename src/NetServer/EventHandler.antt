-- ===== src/NetServer/EventHandler.antt =====
-- `EventHandler` of netserver/src/cl_event_handler.cpp: the connections of a server, their chains of
-- buffers, and the limit on the connections of each listening descriptor.
--
-- A session is its descriptor, which `Socket::Fd` gives. The maps' shared pointers are followed: a
-- write through one is a change of its entry. The lengths of the chains that the code logs are never
-- set, and are left out with their water marks, as are the dumps and a failure to allocate.
pub mod Chains
pub mod Delivery
pub mod Sending
pub mod Closing
pub mod Clients
pub mod Balance
pub mod Rules
pub mod Handlers
use cppfastdevelop.Prelude.{
  ℕ, zero, suc, ◌+◌, ◌-◌, ◌≤◌, ◌<◌, Bool, true, false, not, ◌&&◌, Option, none, some, List, [], ◌∷◌,
  ◌++◌, length, ltb, leb, if◌then◌else◌, add32, sub32, ℤ, pos, negsuc, Fd, same_fd, find,
  insert_new, erase, change,
}
use cppfastdevelop.Epoll.{EvType, cfev_read, cfev_write, cfev_close}
use cppfastdevelop.NetServer.Buffer.{
  Exception, value_error, Result, ok, throw, ReadBuffer, WriteBuffer, new_read_buffer,
  new_write_buffer, clear_read, set_total, is_read_complete, clear_write, set_buffer,
  is_write_complete, Receipt, Session, read, BufferPool, get_from_pool, put_into_pool,
}

pub record ClientInfo : Type 0 where
  pub session : Fd
  pub listenfd : Fd
  pub rb_chain : List ReadBuffer
  pub wb_chain : List WriteBuffer

pub record ListenInfo : Type 0 where
  pub maxconns : ℕ
  pub currentconns : ℕ

-- The operations of the demultiplexer `cf::Demux` on its state.
pub record Demux (D : Type 0) : Type 0 where
  pub add_conn : Fd → EvType → D → D
  pub del_conn : Fd → D → D
  pub add_event : Fd → EvType → D → D
  pub del_event : Fd → EvType → D → D

-- The object, with its demultiplexer and the state of the network.
pub record Handler (D W : Type 0) : Type 0 where
  pub demux : D
  pub network : W
  pub processid : ℤ
  pub clientfd_clientinfo : List (Fd × ClientInfo)
  pub listenfd_listeninfo : List (Fd × ListenInfo)
  pub rbpool : BufferPool ReadBuffer
  pub wbpool : BufferPool WriteBuffer
  pub max_conn_cnt : ℕ

-- A call on the object: it returns or throws.
abbrev pub Action : Type 0 → Type 0 → Type 0 → Type 0
Action D W A = Handler D W → Handler D W × Result A

abbrev pub bound :
    {D W A B : Type 0} → Handler D W × Result A → (A → Action D W B) → Handler D W × Result B
bound (h, ok a) f = f a h
bound (h, throw e) f = (h, throw e)

infixl 5 ◌>>=◌ ◌>>◌
-- Shut, so that the rules on calls find it.
unfoldable pub ◌>>=◌ : {D W A B : Type 0} → Action D W A → (A → Action D W B) → Action D W B
◌>>=◌ m f h = bound (m h) f

abbrev pub ◌>>◌ : {D W B : Type 0} → Action D W (Unit {0}) → Action D W B → Action D W B
m >> k = m >>= λ _. k

abbrev pub done : {D W : Type 0} → Action D W (Unit {0})
done h = (h, ok tt)

-- The network under the handler: the transfers of each session, `SetBlocking(fd, false)`, and
-- `AcceptAsync`, which gives no list where it returns false.
pub record Sockets (W : Type 0) : Type 0 where
  pub session : Fd → Session W
  pub set_nonblocking : Fd → W → W × Result (Unit {0})
  pub accept_async : Fd → W → W × Result (Option (List Fd))

-- The virtual functions, which a server overrides.
pub record Callbacks (D W : Type 0) : Type 0 where
  pub on_accept_complete : Fd → Fd → Action D W (Unit {0})
  pub on_read_complete : Fd → ReadBuffer → Action D W (Unit {0})
  pub on_write_complete : Fd → Action D W (Unit {0})
  pub on_close_complete : Fd → Action D W (Unit {0})
  pub on_timeout_complete : Action D W (Unit {0})
  pub on_error_complete : Fd → Action D W (Unit {0})

unfoldable pub add_listens : List (Fd × ℕ) → List (Fd × ListenInfo) → List (Fd × ListenInfo)
add_listens [] m = m
add_listens ((fd, maxconns) ∷ ls) m =
    add_listens ls (insert_new fd (record { maxconns = maxconns; currentconns = 0 }) m)

-- What a map's `find` gives, or the exception.
abbrev pub found : {A : Type 0} → Option A → Result A
found none = throw value_error
found (some a) = ok a

module _ {D W : Type 0} where
  abbrev pub returns : {A : Type 0} → Result A → Action D W A
  returns r h = (h, r)

  -- An operation on the demultiplexer alone.
  abbrev pub on_demux : (D → D) → Action D W (Unit {0})
  on_demux f h = (record h { demux = f h.demux }, ok tt)

  abbrev pub on_network : {A : Type 0} → (W → W × Result A) → Action D W A
  on_network f h = (record h { network = (f h.network).0 }, (f h.network).1)

  abbrev pub init : List (Fd × ℕ) → D → ℤ → Handler D W → Handler D W
  init listenfd_maxconn demux processid h = record h {
    listenfd_listeninfo = add_listens listenfd_maxconn h.listenfd_listeninfo;
    demux = demux;
    processid = processid;
  }

  abbrev pub get_client_info : Fd → Action D W ClientInfo
  get_client_info fd h = (h, found (find fd h.clientfd_clientinfo))

  -- The same with `eraseWhenFound`.
  abbrev pub erase_found : Fd → Option ClientInfo → Action D W ClientInfo
  erase_found fd none h = (h, throw value_error)
  erase_found fd (some ci) h =
      (record h { clientfd_clientinfo = erase fd h.clientfd_clientinfo }, ok ci)

  abbrev pub take_client_info : Fd → Action D W ClientInfo
  take_client_info fd h = erase_found fd (find fd h.clientfd_clientinfo) h

  abbrev pub get_listen_info : Fd → Action D W ListenInfo
  get_listen_info listenfd h = (h, found (find listenfd h.listenfd_listeninfo))

  abbrev pub get_read_buffer : ℕ → Action D W ReadBuffer
  get_read_buffer size_to_read h =
      let (pool, rb) = get_from_pool new_read_buffer h.rbpool in
      (record h { rbpool = pool }, set_total (clear_read rb) size_to_read)

  abbrev pub get_write_buffer : List ℕ → Action D W WriteBuffer
  get_write_buffer buf h =
      let (pool, wb) = get_from_pool new_write_buffer h.wbpool in
      (record h { wbpool = pool }, set_buffer (clear_write wb) buf)

  -- Writes through the pointers to a client's and a listener's entry.
  abbrev pub change_client : Fd → (ClientInfo → ClientInfo) → Action D W (Unit {0})
  change_client fd f h =
      (record h { clientfd_clientinfo = change fd f h.clientfd_clientinfo }, ok tt)

  abbrev pub change_listen : Fd → (ListenInfo → ListenInfo) → Action D W (Unit {0})
  change_listen fd f h =
      (record h { listenfd_listeninfo = change fd f h.listenfd_listeninfo }, ok tt)

  abbrev pub put_read : ReadBuffer → Action D W (Unit {0})
  put_read rb h = (record h { rbpool = put_into_pool rb h.rbpool }, ok tt)

  abbrev pub put_write : WriteBuffer → Action D W (Unit {0})
  put_write wb h = (record h { wbpool = put_into_pool wb h.wbpool }, ok tt)

module _ {D W : Type 0} where
  unfoldable pub put_reads : List ReadBuffer → Action D W (Unit {0})
  put_reads [] = done
  put_reads (rb ∷ rbs) = put_read rb >> put_reads rbs

  unfoldable pub put_writes : List WriteBuffer → Action D W (Unit {0})
  put_writes [] = done
  put_writes (wb ∷ wbs) = put_write wb >> put_writes wbs

-- The operations over a demultiplexer, sockets and the overridden callbacks.
module _ {D W : Type 0} (dm : Demux D) (so : Sockets W) (cb : Callbacks D W) where
  abbrev pub async_read : Fd → ℕ → Action D W (Unit {0})
  async_read fd size_to_read = do
    ci ← get_client_info fd
    rb ← get_read_buffer size_to_read
    change_client fd (λ c. record c { rb_chain = c.rb_chain ++ rb ∷ [] })
    on_demux (dm.add_event fd cfev_read)

  abbrev pub async_write : Fd → List ℕ → Action D W (Unit {0})
  async_write fd buf = do
    ci ← get_client_info fd
    wb ← get_write_buffer buf
    change_client fd (λ c. record c { wb_chain = c.wb_chain ++ wb ∷ [] })
    on_demux (dm.add_event fd cfev_write)

  abbrev pub start_listening : Fd → Action D W (Unit {0})
  start_listening listenfd = on_demux (dm.add_conn listenfd cfev_read)

  abbrev pub stop_listening : Fd → Action D W (Unit {0})
  stop_listening listenfd = on_demux (dm.del_conn listenfd)

  -- The two tests of `CheckMaxConnection`.
  abbrev pub check_limits : Fd → Bool → ListenInfo → Action D W (Unit {0})
  check_limits listenfd new_conn_check li =
      (if new_conn_check && ltb 0 li.maxconns && leb li.maxconns li.currentconns
        then on_demux (dm.del_conn listenfd)
        else done)
      >> (if not new_conn_check && ltb 0 li.maxconns && ltb li.currentconns li.maxconns
          then on_demux (dm.add_conn listenfd cfev_read)
          else done)

  abbrev pub check_max_connection : Fd → Bool → Action D W (Unit {0})
  check_max_connection listenfd new_conn_check = do
    li ← get_listen_info listenfd
    check_limits listenfd new_conn_check li

  abbrev pub insert_client : Fd → Fd → Action D W (Unit {0})
  insert_client session listenfd h = (
    record h {
      clientfd_clientinfo =
          insert_new session
            (record { session = session; listenfd = listenfd; rb_chain = []; wb_chain = [] })
            h.clientfd_clientinfo;
    },
    ok tt,
  )

  abbrev pub log_connections : Action D W (Unit {0})
  log_connections h =
      let n = length h.clientfd_clientinfo in
      (record h { max_conn_cnt = if ltb h.max_conn_cnt n then n else h.max_conn_cnt }, ok tt)

  abbrev pub count_up : ListenInfo → ListenInfo
  count_up li = record li { currentconns = add32 li.currentconns 1 }

  abbrev pub count_down : ListenInfo → ListenInfo
  count_down li = record li { currentconns = sub32 li.currentconns 1 }

  abbrev pub add_new_conn : Fd → Bool → Fd → Action D W (Unit {0})
  add_new_conn session callback listenfd = do
    insert_client session listenfd
    on_network (so.set_nonblocking session)
    on_demux (dm.add_conn session cfev_close)
    (if callback then cb.on_accept_complete listenfd session else done)
    li ← get_listen_info listenfd
    change_listen listenfd count_up
    log_connections

  -- The form for a descriptor that the program has connected itself.
  abbrev pub add_new_conn_to : Fd → Bool → Action D W Fd
  add_new_conn_to fd callback = do add_new_conn fd callback (negsuc 0); returns (ok fd)

  abbrev pub clear_session_and_buffer : Fd → Action D W (Unit {0})
  clear_session_and_buffer session = do
    ci ← take_client_info session
    li ← get_listen_info ci.listenfd
    change_listen ci.listenfd count_down
    check_max_connection ci.listenfd false
    put_reads ci.rb_chain
    put_writes ci.wb_chain

  abbrev pub on_close : Fd → Action D W (Unit {0})
  on_close fd = do
    on_demux (dm.del_conn fd)
    ci ← get_client_info fd
    cb.on_close_complete ci.session
    clear_session_and_buffer ci.session

  abbrev pub async_close : Fd → Action D W (Unit {0})
  async_close fd = on_close fd

  abbrev pub on_error : Fd → Action D W (Unit {0})
  on_error fd = do
    on_demux (dm.del_conn fd)
    ci ← get_client_info fd
    cb.on_error_complete ci.session
    clear_session_and_buffer ci.session

  abbrev pub on_timeout : Action D W (Unit {0})
  on_timeout = cb.on_timeout_complete

  -- A client that is in the map already is warned of and skipped.
  abbrev pub accept_found : Fd → Fd → Option ClientInfo → Action D W (Unit {0})
  accept_found listenfd fd none = add_new_conn fd true listenfd
  accept_found listenfd fd (some ci) = done

  abbrev pub accept_one : Fd → Fd → Action D W (Unit {0})
  accept_one listenfd fd h = accept_found listenfd fd (find fd h.clientfd_clientinfo) h

  unfoldable pub accept_each : Fd → List Fd → Action D W (Unit {0})
  accept_each listenfd [] = done
  accept_each listenfd (fd ∷ fds) = accept_one listenfd fd >> accept_each listenfd fds

  abbrev pub accepted : Fd → Option (List Fd) → Action D W (Unit {0})
  accepted listenfd none = done
  accepted listenfd (some clients) =
      accept_each listenfd clients >> check_max_connection listenfd true

  abbrev pub on_accept : Fd → Action D W (Unit {0})
  on_accept listenfd = on_network (so.accept_async listenfd) >>= accepted listenfd
