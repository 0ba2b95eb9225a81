-- ===== src/Network/Setup/Descriptors.antt =====
-- Which descriptors are open behind the calls that make sockets.
use cppfastdevelop.Prelude.{
  ℕ, zero, suc, ◌≡◌, refl, sym, ap, ◌∙◌, Bool, true, false, Option, none, some, List, [], ◌∷◌, ◌++◌,
  append_assoc, length, ltb, if◌then◌else◌, and-false, append-nil, subst, ◌⊎◌, inl, inr, arith,
}
use cppfastdevelop.Network.Setup.{
  Outcome, returned, threw, Calls, after_listen, after_bind, after_option, after_socket,
  create_server_socket, local_socket, create_local_server_socket, after_connect, connect_socket,
  connect_to_server,
}

-- The manual: `socket` opens the descriptor that it gives, `close` closes the one opened last, and
-- the other calls neither; `opened` is what is open, the last one first.
pub record IsSystem {W : Type 0} (sys : Calls W) (opened : W → List ℕ) : Type 0 where
  pub opens :
      (w : W) (fd : ℕ) → (sys.socket w).1 ≡ some fd → opened (sys.socket w).0 ≡ fd ∷ opened w
  pub opens_none : (w : W) → (sys.socket w).1 ≡ none → opened (sys.socket w).0 ≡ opened w
  pub closes : (w : W) (fd : ℕ) (fds : List ℕ) → opened w ≡ fd ∷ fds → opened (sys.close fd w) ≡ fds
  pub option_keeps : (fd : ℕ) (w : W) → opened (sys.reuse_address fd w).0 ≡ opened w
  pub bind_keeps : (fd : ℕ) (w : W) → opened (sys.bind fd w).0 ≡ opened w
  pub listen_keeps : (fd : ℕ) (w : W) → opened (sys.listen fd w).0 ≡ opened w
  pub connect_keeps : (fd : ℕ) (w : W) → opened (sys.connect fd w).0 ≡ opened w

module _ {W : Type 0} {sys : Calls W} {opened : W → List ℕ} (o : IsSystem sys opened) where
  -- The descriptor that is returned is open beside those that were, and otherwise none is.
  abbrev pub OpensOne : List ℕ → W × Outcome ℕ → Type 0
  OpensOne fds (w, returned fd) = opened w ≡ fd ∷ fds
  OpensOne fds (w, threw) = opened w ≡ fds

  after_listen-OpensOne :
      (fds : List ℕ) (fd : ℕ) (w : W) (b : Bool)
      → opened w ≡ fd ∷ fds
      → OpensOne fds (after_listen sys fd (w, b))
  after_listen-OpensOne fds fd w true h = h
  after_listen-OpensOne fds fd w false h = o.closes w fd fds h

  after_bind-OpensOne :
      (fds : List ℕ) (fd : ℕ) (w : W) (b : Bool)
      → opened w ≡ fd ∷ fds
      → OpensOne fds (after_bind sys true fd (w, b))
  after_bind-OpensOne fds fd w false h = o.closes w fd fds h
  after_bind-OpensOne fds fd w true h = rw (and-false (ltb 0 fd)) (
      after_listen-OpensOne fds fd (sys.listen fd w).0 (sys.listen fd w).1
        (o.listen_keeps fd w ∙ h))

  after_option-OpensOne :
      (fds : List ℕ) (fd : ℕ) (w : W) (b : Bool)
      → opened w ≡ fd ∷ fds
      → OpensOne fds (after_option sys true fd (w, b))
  after_option-OpensOne fds fd w false h = o.closes w fd fds h
  after_option-OpensOne fds fd w true h =
      after_bind-OpensOne fds fd (sys.bind fd w).0 (sys.bind fd w).1 (o.bind_keeps fd w ∙ h)

  option_set-OpensOne :
      (fds : List ℕ) (reuse : Bool) (fd : ℕ) (w : W)
      → opened w ≡ fd ∷ fds
      → OpensOne fds
          (after_option sys true fd (if reuse then sys.reuse_address fd w else (w, true)))
  option_set-OpensOne fds true fd w h =
      after_option-OpensOne fds fd (sys.reuse_address fd w).0 (sys.reuse_address fd w).1
        (o.option_keeps fd w ∙ h)
  option_set-OpensOne fds false fd w h = after_option-OpensOne fds fd w true h

  after_socket-OpensOne :
      (reuse : Bool) (w : W) (r : Option ℕ)
      → (sys.socket w).1 ≡ r
      → OpensOne (opened w) (after_socket sys reuse true ((sys.socket w).0, r))
  after_socket-OpensOne reuse w none e = o.opens_none w e
  after_socket-OpensOne reuse w (some fd) e =
      option_set-OpensOne (opened w) reuse fd (sys.socket w).0 (o.opens w fd e)

  -- `CreateServerSocket` of a blocking socket leaves one descriptor more open, the one it returns,
  -- or, where it throws at any of its calls, those that were open.
  pub create_server_socket-OpensOne :
      (reuse : Bool) (w : W) → OpensOne (opened w) (create_server_socket sys reuse true w)
  create_server_socket-OpensOne reuse w = after_socket-OpensOne reuse w (sys.socket w).1 refl

  local_socket-threw :
      (w : W) (fd : ℕ) (r : Option ℕ)
      → (sys.socket w).1 ≡ r
      → r ≡ some (suc fd)
      → ((local_socket sys ((sys.socket w).0, r)).1 ≡ threw)
        × (opened (local_socket sys ((sys.socket w).0, r)).0 ≡ suc fd ∷ opened w)
  local_socket-threw w fd none e q = absurd (cc)
  local_socket-threw w fd (some zero) e q = absurd (cc)
  local_socket-threw w fd (some (suc n)) e q =
      let s : suc n ≡ suc fd = cc in (refl, o.opens w (suc n) e ∙ ap (λ k. k ∷ opened w) s)

  -- `CreateLocalServerSocket` throws on every descriptor but 0 that `socket` gives, and leaves it
  -- open.
  pub create_local_server_socket-throws :
      (w : W) (fd : ℕ)
      → (sys.socket w).1 ≡ some (suc fd)
      → ((create_local_server_socket sys w).1 ≡ threw)
        × (opened (create_local_server_socket sys w).0 ≡ suc fd ∷ opened w)
  create_local_server_socket-throws w fd e = local_socket-threw w fd (sys.socket w).1 refl e

  -- Descriptors opened one by one.
  unfoldable pub pushed : List ℕ → List ℕ → List ℕ
  pushed [] fds = fds
  pushed (fd ∷ more) fds = pushed more (fd ∷ fds)

  -- What connecting `left` times more comes to.
  abbrev pub Connects : ℕ → List ℕ → List ℕ → W × List ℕ × Outcome (Unit {0}) → Type 0
  Connects left fds clientfds (w, clientfds', returned u) =
      (more : List ℕ) × (clientfds' ≡ clientfds ++ more)
      × (length more ≡ left)
      × (opened w ≡ pushed more fds)
  Connects left fds clientfds (w, clientfds', threw) =
      (more : List ℕ) × (clientfds' ≡ clientfds ++ more)
      × ((opened w ≡ pushed more fds) ⊎ ((fd : ℕ) × (opened w ≡ fd ∷ pushed more fds)))

  Connects-more :
      (left fd : ℕ) (fds clientfds : List ℕ) (x : W × List ℕ × Outcome (Unit {0}))
      → Connects left (fd ∷ fds) (clientfds ++ fd ∷ []) x
      → Connects (suc left) fds clientfds x
  unfolding pushed
  Connects-more left fd fds clientfds (w, clientfds', returned u) (more, e, n, q) =
      (fd ∷ more, e ∙ append_assoc clientfds (fd ∷ []) more, omega (arith, n), q)
  Connects-more left fd fds clientfds (w, clientfds', threw) (more, e, q) =
      (fd ∷ more, e ∙ append_assoc clientfds (fd ∷ []) more, q)

  module _ (left : ℕ)
      (ih : (clientfds : List ℕ) (w : W)
        → Connects left (opened w) clientfds (connect_to_server sys left clientfds w))
      (clientfds : List ℕ) (w : W) where
    after_connect-Connects :
        (fd : ℕ) (t : W) (b : Bool)
        → opened t ≡ fd ∷ opened w
        → Connects
            (suc left)
            (opened w)
            clientfds
            (after_connect sys fd clientfds (connect_to_server sys left) (t, b))
    unfolding pushed
    after_connect-Connects fd t true e =
        Connects-more left fd (opened w) clientfds
          (connect_to_server sys left (clientfds ++ fd ∷ []) t)
          (subst
            (λ fds.
              Connects left fds (clientfds ++ fd ∷ [])
                (connect_to_server sys left (clientfds ++ fd ∷ []) t))
            e (ih (clientfds ++ fd ∷ []) t))
    after_connect-Connects fd t false e = ([], sym (append-nil clientfds), inr (fd, e))

    connect_socket-Connects :
        (r : Option ℕ)
        → (sys.socket w).1 ≡ r
        → Connects
            (suc left)
            (opened w)
            clientfds
            (connect_socket sys clientfds (connect_to_server sys left) ((sys.socket w).0, r))
    unfolding pushed
    connect_socket-Connects none e = ([], sym (append-nil clientfds), inl (o.opens_none w e))
    connect_socket-Connects (some fd) e =
        after_connect-Connects fd (sys.connect fd (sys.socket w).0).0
          (sys.connect fd (sys.socket w).0).1 (o.connect_keeps fd (sys.socket w).0 ∙ o.opens w fd e)

  -- `ConnectToServer` that returns has put as many descriptors as asked for behind the vector, and
  -- they are open; one that throws has put there those connected so far, and has left at most one
  -- other open.
  pub connect_to_server-Connects :
      (left : ℕ) (clientfds : List ℕ) (w : W)
      → Connects left (opened w) clientfds (connect_to_server sys left clientfds w)
  unfolding connect_to_server pushed
  connect_to_server-Connects zero clientfds w = ([], sym (append-nil clientfds), refl, refl)
  connect_to_server-Connects (suc left) clientfds w =
      connect_socket-Connects left (connect_to_server-Connects left) clientfds w (sys.socket w).1
        refl
