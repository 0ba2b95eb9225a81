-- ===== src/Epoll/Mirror.antt =====
-- The map of the class `Epoll` and the interest list of the system agree.
use cppfastdevelop.Prelude.{
  ◌≡◌, Bool, Option, none, some, List, [], ◌∷◌, if◌then◌else◌, Fd, same_fd, find,
}
use cppfastdevelop.Epoll.{
  EvType, Interest, CtlOp, ctl_add, ctl_mod, ctl_del, Epoll, add_conn, del_conn, add_event,
  del_event,
}

-- What the entry of a descriptor becomes: adding keeps an entry (EEXIST), and modifying makes none
-- (ENOENT).
abbrev pub added : Interest → Option Interest → Option Interest
added ev none = some ev
added ev (some old) = some old

abbrev pub modified : Interest → Option Interest → Option Interest
modified ev none = none
modified ev (some old) = some ev

-- The manual on `epoll_ctl`, for descriptors that can be polled: `interest` is the interest list.
pub record IsEpollCtl {K : Type 0} (ctl : CtlOp → Fd → Interest → K → K × Bool)
    (interest : K → Fd → Option Interest) (Pollable : Fd → Type 0) : Type 0 where
  pub adds :
      (fd j : Fd) (ev : Interest) (k : K)
      → Pollable fd
      → interest (ctl ctl_add fd ev k).0 j
        ≡ (if same_fd fd j then added ev (interest k fd) else interest k j)
  pub modifies :
      (fd j : Fd) (ev : Interest) (k : K)
      → Pollable fd
      → interest (ctl ctl_mod fd ev k).0 j
        ≡ (if same_fd fd j then modified ev (interest k fd) else interest k j)
  pub deletes :
      (fd j : Fd) (ev : Interest) (k : K)
      → Pollable fd
      → interest (ctl ctl_del fd ev k).0 j ≡ (if same_fd fd j then none else interest k j)

-- A call on the object.
pub data Call : Type 0 where
  adds_conn : Fd → EvType → Call
  dels_conn : Fd → Call
  adds_event dels_event : Fd → EvType → Call

abbrev pub fd_of : Call → Fd
fd_of (adds_conn fd ev) = fd
fd_of (dels_conn fd) = fd
fd_of (adds_event fd ev) = fd
fd_of (dels_event fd ev) = fd

module _ {K : Type 0} {ctl : CtlOp → Fd → Interest → K → K × Bool}
    {interest : K → Fd → Option Interest} {Pollable : Fd → Type 0}
    (o : IsEpollCtl ctl interest Pollable) where
  abbrev pub Mirrors : Epoll K → Type 0
  Mirrors e = (j : Fd) → find j e.map_event ≡ interest e.kernel j

  abbrev pub call : Call → Epoll K → Epoll K
  call (adds_conn fd ev) e = add_conn ctl fd ev e
  call (dels_conn fd) e = del_conn ctl fd e
  call (adds_event fd ev) e = add_event ctl fd ev e
  call (dels_event fd ev) e = del_event ctl fd ev e

  unfoldable pub calls : List Call → Epoll K → Epoll K
  calls [] e = e
  calls (c ∷ cs) e = calls cs (call c e)

  unfoldable pub AllPollable : List Call → Type 0
  AllPollable [] = Unit
  AllPollable (c ∷ cs) = Pollable (fd_of c) × AllPollable cs
