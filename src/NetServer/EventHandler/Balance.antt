-- ===== src/NetServer/EventHandler/Balance.antt =====
-- The connection count of each listener, through the handlers of the object.
use cppfastdevelop.Prelude.{
  ℕ, ◌+◌, ◌-◌, ◌%◌, ◌^◌, ◌≡◌, refl, sym, ◌∙◌, Bool, Option, none, some, List, [], if◌then◌else◌,
  arith, Fd, same_fd, same_fd_iff, find, insert_new, erase, change, find-insert_new, find-erase,
  changed, find-change_any,
}
use cppfastdevelop.NetServer.Buffer.{Result, ok, throw}
use cppfastdevelop.NetServer.EventHandler.{ClientInfo, ListenInfo, Handler, Action, bound}
use cppfastdevelop.NetServer.EventHandler.Clients.{
  Clients, count, UniqueKeys, count-insert_new, count-erase, count-change, UniqueKeys-change,
  UniqueKeys-erase, UniqueKeys-insert_new,
}

abbrev pub Listens : Type 0
Listens = List (Fd × ListenInfo)

-- Every client stands at its session's descriptor, once; and the count of each listener, with `owed`
-- to come, is the number of its clients, modulo 2^32.
pub record IsBalanced (owed : Fd → ℕ) (clients : Clients) (listens : Listens) : Type 0 where
  pub unique : UniqueKeys clients
  pub own : (fd : Fd) (ci : ClientInfo) → find fd clients ≡ some ci → ci.session ≡ fd
  pub balanced :
      (l : Fd) (li : ListenInfo)
      → find l listens ≡ some li
      → (li.currentconns + owed l) % 2 ^ 32 ≡ count l clients % 2 ^ 32

-- What a call leaves where it returns.
abbrev pub Post : {D W A : Type 0} → (A → Handler D W → Type 0) → Handler D W × Result A → Type 0
Post Q (h, ok a) = Q a h
Post Q (h, throw e) = Unit

pub Post-bound :
    {D W A B : Type 0} (Q : A → Handler D W → Type 0) (R : B → Handler D W → Type 0)
    (x : Handler D W × Result A) (f : A → Action D W B)
    → Post Q x
    → ((a : A) (h : Handler D W) → Q a h → Post R (f a h))
    → Post R (bound x f)
Post-bound Q R (h, ok a) f q k = k a h q
Post-bound Q R (h, throw e) f q k = tt

abbrev pub also_owed : Fd → ℕ → (Fd → ℕ) → Fd → ℕ
also_owed l0 k owed l = owed l + (if same_fd l0 l then k else 0)

-- What `find` gives behind a change was there before it.
change_inv :
    {V : Type 0} (b : Bool) (f : V → V) (o : Option V) {w : V}
    → changed b f o ≡ some w
    → (v : V) × (o ≡ some v) × (w ≡ (if b then f v else v))
change_inv b f none h = absurd (cc h)
change_inv b f (some v) h = (v, refl, cc h)

pub paid :
    (owed : Fd → ℕ) (l0 : Fd) (k : ℕ) (f : ListenInfo → ListenInfo) (clients : Clients)
    (listens : Listens)
    → ((li : ListenInfo) → (f li).currentconns ≡ (li.currentconns + k) % 2 ^ 32)
    → IsBalanced (also_owed l0 k owed) clients listens
    → IsBalanced owed clients (change l0 f listens)
paid owed l0 k f clients listens e i = record {
  unique = i.unique;
  own = i.own;
  balanced = λ l li h.
      let (v, s, w) =
        change_inv (same_fd l0 l) f (find l listens) {w = li}
          (sym (find-change_any l0 l f listens) ∙ h) in
      ground (arith, i.balanced l v s, w, e v);
}

pub entered :
    (owed : Fd → ℕ) (fd l0 : Fd) (clients : Clients) (listens : Listens)
    → find fd clients ≡ none
    → IsBalanced owed clients listens
    → IsBalanced
        (also_owed l0 1 owed)
        (insert_new fd
          (record { session = fd; listenfd = l0; rb_chain = []; wb_chain = [] })
          clients)
        listens
entered owed fd l0 clients listens n i = record {
  unique = UniqueKeys-insert_new fd _ clients n i.unique;
  own = λ j ci h. ground (
    arith,
    find-insert_new fd j (record { session = fd; listenfd = l0; rb_chain = []; wb_chain = [] })
        clients n,
    i.own j ci,
    same_fd_iff fd j,
    h,
  );
  balanced = λ l li h. ground (
    arith,
    i.balanced l li h,
    count-insert_new l fd (record { session = fd; listenfd = l0; rb_chain = []; wb_chain = [] })
        clients n,
  );
}

pub left :
    (owed : Fd → ℕ) (fd : Fd) (ci : ClientInfo) (clients : Clients) (listens : Listens)
    → find fd clients ≡ some ci
    → IsBalanced owed clients listens
    → IsBalanced (also_owed ci.listenfd (2 ^ 32 - 1) owed) (erase fd clients) listens
left owed fd ci clients listens s i = record {
  unique = UniqueKeys-erase fd clients i.unique;
  own = λ j c h. ground (arith, find-erase fd j clients, i.own j c, h);
  balanced = λ l li h. ground (arith, i.balanced l li h, count-erase l fd ci clients i.unique s);
}

-- A change of a client that keeps its session and its listener.
pub rewritten :
    (owed : Fd → ℕ) (fd : Fd) (f : ClientInfo → ClientInfo) (clients : Clients) (listens : Listens)
    → ((c : ClientInfo) → ((f c).listenfd ≡ c.listenfd) × ((f c).session ≡ c.session))
    → IsBalanced owed clients listens
    → IsBalanced owed (change fd f clients) listens
rewritten owed fd f clients listens same i = record {
  unique = UniqueKeys-change fd f clients i.unique;
  own = λ j c h.
      let (v, s, w) =
        change_inv (same_fd fd j) f (find j clients) {w = c}
          (sym (find-change_any fd j f clients) ∙ h) in
      ground (arith, i.own j v s, w, (same v).1);
  balanced = λ l li h.
      let e = count-change l fd f clients (λ c. (same c).0) in ground (arith, i.balanced l li h, e);
}
