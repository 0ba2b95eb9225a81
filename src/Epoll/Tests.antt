-- ===== src/Epoll/Tests.antt =====
-- An interest list kept as the manual on `epoll_ctl` says, and the object on it.
use cppfastdevelop.Prelude.{
  ◌≡◌, refl, Bool, ◌⊎◌, true, false, Option, none, some, Option-cases, inl, inr, List, [], ◌∷◌,
  if◌then◌else◌, arith, pos, Fd, same_fd, same_fd_iff, find, insert_new, erase, change,
  find-insert_new, insert_new_present, find-change, find-erase, change_absent,
}
use cppfastdevelop.Epoll.{
  cfev_read, cfev_write, cfev_accept, cfev_close, Interest, CtlOp, ctl_add, ctl_mod, ctl_del, Epoll,
  none_set, push_all, is_listenfd,
}
use cppfastdevelop.Epoll.Mirror.{
  added, modified, IsEpollCtl, Call, adds_conn, dels_conn, adds_event, dels_event, calls,
}

abbrev Interests : Type 0
Interests = List (Fd × Interest)

abbrev list_ctl : CtlOp → Fd → Interest → Interests → Interests × Bool
list_ctl ctl_add fd ev k = (insert_new fd ev k, true)
list_ctl ctl_mod fd ev k = (change fd (λ old. ev) k, true)
list_ctl ctl_del fd ev k = (erase fd k, true)

abbrev entry : Interests → Fd → Option Interest
entry k fd = find fd k

list_adds :
    (fd j : Fd) (ev : Interest) (k : Interests)
    → find j (insert_new fd ev k) ≡ (if same_fd fd j then added ev (find fd k) else find j k)
list_adds fd j ev k = step (Option-cases (find fd k))
  where
    step :
        (find fd k ≡ none) ⊎ ((w : Interest) × (find fd k ≡ some w))
        → find j (insert_new fd ev k) ≡ (if same_fd fd j then added ev (find fd k) else find j k)
    step (inl n) = ground (arith, n, find-insert_new fd j ev k n)
    step (inr (w, s)) = ground (arith, s, insert_new_present fd ev w k s, same_fd_iff fd j)

list_modifies :
    (fd j : Fd) (ev : Interest) (k : Interests)
    → find j (change fd (λ old. ev) k)
      ≡ (if same_fd fd j then modified ev (find fd k) else find j k)
list_modifies fd j ev k = step (Option-cases (find fd k))
  where
    step :
        (find fd k ≡ none) ⊎ ((w : Interest) × (find fd k ≡ some w))
        → find j (change fd (λ old. ev) k)
          ≡ (if same_fd fd j then modified ev (find fd k) else find j k)
    step (inl n) = ground (arith, n, change_absent fd (λ old. ev) k n, same_fd_iff fd j)
    step (inr (w, s)) = ground (arith, s, find-change fd j (λ old. ev) k {w = w} s)

list_ctl-IsEpollCtl : IsEpollCtl list_ctl entry (λ fd. Unit {0})
list_ctl-IsEpollCtl = record {
  adds = λ fd j ev k p. list_adds fd j ev k;
  modifies = λ fd j ev k p. list_modifies fd j ev k;
  deletes = λ fd j ev k p. find-erase fd j k;
}

abbrev start : Epoll Interests
start = record { listenfds = pos 3 ∷ []; map_event = []; max_events = pos 8; kernel = [] }

abbrev script : List Call
script =
    adds_conn (pos 3) cfev_read
    ∷ adds_conn (pos 5) cfev_close
    ∷ adds_event (pos 5) cfev_write
    ∷ dels_event (pos 5) cfev_write
    ∷ adds_event (pos 6) cfev_read
    ∷ dels_conn (pos 3)
    ∷ []

script_leaves :
    (calls list_ctl-IsEpollCtl script start).kernel
    ≡ (pos 5, record { epoll_in = false; epoll_out = false; epoll_rdhup = true }) ∷ []
unfolding calls find insert_new change erase
script_leaves = refl

-- A listening descriptor is accepted on; another is read from and then closed.
waits :
    push_all (pos 3 ∷ []) (
      record { fd = pos 3; events = none_set; epoll_err = true; epoll_hup = false }
      ∷ record {
        fd = pos 5;
        events = record { epoll_in = true; epoll_out = false; epoll_rdhup = true };
        epoll_err = false;
        epoll_hup = false;
      }
      ∷ [])
    ≡ (pos 3, cfev_accept) ∷ (pos 5, cfev_read) ∷ (pos 5, cfev_close) ∷ []
unfolding push_all is_listenfd
waits = refl
