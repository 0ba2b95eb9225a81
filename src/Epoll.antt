-- ===== src/Epoll.antt =====
-- `Epoll` of cppfoundation/src/class/cf_epoll.cpp: the demultiplexer over the system's epoll, with
-- its own map of what each connection waits for.
pub mod Mirror
mod Tests
use cppfastdevelop.Prelude.{
  ℕ, Bool, true, false, not, ◌&&◌, ◌||◌, Option, none, some, List, [], ◌∷◌, ◌++◌, if◌then◌else◌, ℤ,
  pos, ltb_ℤ, Fd, same_fd, find, insert_new, erase, change,
}

-- `networkdefs::EV_TYPE`.
pub data EvType : Type 0 where
  cfev_accept cfev_read cfev_write cfev_close cfev_error : EvType

-- The bits of a `cf_ev` that the class sets: EPOLLIN, EPOLLOUT and EPOLLRDHUP.
pub record Interest : Type 0 where
  pub epoll_in : Bool
  pub epoll_out : Bool
  pub epoll_rdhup : Bool

-- An entry of `_retEvents`: the descriptor, and the bits that the code looks at.
pub record Ready : Type 0 where
  pub fd : Fd
  pub events : Interest
  pub epoll_err : Bool
  pub epoll_hup : Bool

pub data CtlOp : Type 0 where
  ctl_add ctl_mod ctl_del : CtlOp

-- The object, with the system's epoll instance behind `_epfd`.
pub record Epoll (K : Type 0) : Type 0 where
  pub listenfds : List Fd
  pub map_event : List (Fd × Interest)
  pub max_events : ℤ
  pub kernel : K

pub data Exception : Type 0 where
  value_error syscall_execute_error : Exception

pub data Result {ℓ} (A : Type ℓ) : Type ℓ where
  ok : A → Result A
  throw : Exception → Result A

-- `ev & CFEV_READ`, `ev & CFEV_WRITE`.
abbrev pub is_read : EvType → Bool
is_read cfev_read = true
is_read cfev_accept = false
is_read cfev_write = false
is_read cfev_close = false
is_read cfev_error = false

abbrev pub is_write : EvType → Bool
is_write cfev_write = true
is_write cfev_accept = false
is_write cfev_read = false
is_write cfev_close = false
is_write cfev_error = false

-- The bits for an event, with `rdhup` for EPOLLRDHUP.
abbrev pub bits_of : EvType → Bool → Interest
bits_of ev rdhup = record { epoll_in = is_read ev; epoll_out = is_write ev; epoll_rdhup = rdhup }

-- `a & b` as a test, `a | b`, `a & ~b`.
abbrev pub overlap : Interest → Interest → Bool
overlap a b =
    a.epoll_in && b.epoll_in || a.epoll_out && b.epoll_out || a.epoll_rdhup && b.epoll_rdhup

abbrev pub join : Interest → Interest → Interest
join a b = record {
  epoll_in = a.epoll_in || b.epoll_in;
  epoll_out = a.epoll_out || b.epoll_out;
  epoll_rdhup = a.epoll_rdhup || b.epoll_rdhup;
}

abbrev pub without : Interest → Interest → Interest
without a b = record {
  epoll_in = a.epoll_in && not b.epoll_in;
  epoll_out = a.epoll_out && not b.epoll_out;
  epoll_rdhup = a.epoll_rdhup && not b.epoll_rdhup;
}

abbrev pub none_set : Interest
none_set = record { epoll_in = false; epoll_out = false; epoll_rdhup = false }

-- `_listenfds.find(fd) != _listenfds.end()`.
unfoldable pub is_listenfd : Fd → List Fd → Bool
is_listenfd fd [] = false
is_listenfd fd (l ∷ ls) = same_fd l fd || is_listenfd fd ls

-- What one entry of `_retEvents` pushes onto `vecEvent`.
abbrev pub push_events : List Fd → Ready → List (Fd × EvType)
push_events listenfds r =
    if is_listenfd r.fd listenfds
    then (r.fd, cfev_accept) ∷ []
    else if r.epoll_err || r.epoll_hup
    then (r.fd, cfev_error) ∷ []
    else (if r.events.epoll_in then (r.fd, cfev_read) ∷ [] else [])
      ++ (if r.events.epoll_out then (r.fd, cfev_write) ∷ [] else [])
      ++ (if r.events.epoll_rdhup then (r.fd, cfev_close) ∷ [] else [])

unfoldable pub push_all : List Fd → List Ready → List (Fd × EvType)
push_all listenfds [] = []
push_all listenfds (r ∷ rs) = push_events listenfds r ++ push_all listenfds rs

-- `vecEvent` behind `cf_epoll_wait`, which gives the entries, or none where it returns -1.
abbrev pub wait_result :
    List Fd → List (Fd × EvType) → Option (List Ready) → Result (List (Fd × EvType))
wait_result listenfds vec_event none = throw syscall_execute_error
wait_result listenfds vec_event (some rs) = ok (vec_event ++ push_all listenfds rs)

-- `cf_epoll_ctl`, of which the class drops the result.
module _ {K : Type 0} (ctl : CtlOp → Fd → Interest → K → K × Bool) where
  abbrev pub epoll_ctl : Fd → CtlOp → Interest → Epoll K → Epoll K
  epoll_ctl fd op event e = record e { kernel = (ctl op fd event e.kernel).0 }

  abbrev pub add_conn : Fd → EvType → Epoll K → Epoll K
  add_conn fd ev e =
      let event = bits_of ev true in
      let e1 = epoll_ctl fd ctl_add event e in
      record e1 { map_event = insert_new fd event e1.map_event }

  abbrev pub del_conn : Fd → Epoll K → Epoll K
  del_conn fd e =
      let e1 = epoll_ctl fd ctl_del none_set e in record e1 { map_event = erase fd e1.map_event }

  -- `it->second = ev` behind the system call.
  abbrev pub modify : Fd → Interest → Epoll K → Epoll K
  modify fd ev e =
      let e1 = epoll_ctl fd ctl_mod ev e in
      record e1 { map_event = change fd (λ old. ev) e1.map_event }

  abbrev pub add_event_found : Fd → Interest → Option Interest → Epoll K → Epoll K
  add_event_found fd event none e = e
  add_event_found fd event (some oldev) e =
      if overlap oldev event then e else modify fd (join oldev event) e

  abbrev pub add_event : Fd → EvType → Epoll K → Epoll K
  add_event fd ev e = add_event_found fd (bits_of ev false) (find fd e.map_event) e

  abbrev pub del_event_found : Fd → Interest → Option Interest → Epoll K → Epoll K
  del_event_found fd event none e = e
  del_event_found fd event (some oldev) e =
      if overlap oldev event then modify fd (without oldev event) e else e

  abbrev pub del_event : Fd → EvType → Epoll K → Epoll K
  del_event fd ev e = del_event_found fd (bits_of ev false) (find fd e.map_event) e

  unfoldable pub add_listenfds : List Fd → Epoll K → Epoll K
  add_listenfds [] e = e
  add_listenfds (fd ∷ fds) e = add_listenfds fds (add_conn fd cfev_read e)

  -- The constructor: the connections are added before the check of the bound.
  abbrev pub make_epoll : List Fd → ℤ → K → Epoll K × Result (Unit {0})
  make_epoll listenfds max_events k =
      let e : Epoll K = record {
        listenfds = listenfds;
        map_event = [];
        max_events = max_events;
        kernel = k;
      } in
      let e1 = add_listenfds listenfds e in
      if ltb_ℤ max_events (pos 1) then (e1, throw value_error) else (e1, ok tt)

  -- `wait` is `cf_epoll_wait`, given the bound and the time-out.
  abbrev pub wait_event :
      (ℤ → ℤ → K → K × Option (List Ready))
      → List (Fd × EvType)
      → ℤ
      → Epoll K
      → Epoll K × Result (List (Fd × EvType))
  wait_event wait vec_event timeout e =
      let (k, r) = wait e.max_events timeout e.kernel in
      (record e { kernel = k }, wait_result e.listenfds vec_event r)
