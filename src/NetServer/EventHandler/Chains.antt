-- ===== src/NetServer/EventHandler/Chains.antt =====
-- `OnRead` and `OnWrite`: the loops over a connection's chain of buffers.
--
-- The loops leave the completed buffers at the front of the chain, and the code then erases up to
-- the last of them: `complete` are those, and `left` the others, as the transfers leave them. What
-- is thrown leaves them all in the chain. `--iterEnd` on an empty chain is followed by no round.
use cppfastdevelop.Prelude.{ℕ, Bool, true, false, List, [], ◌∷◌, ◌++◌, if◌then◌else◌, Fd, change}
use cppfastdevelop.Epoll.{cfev_read, cfev_write}
use cppfastdevelop.NetServer.Buffer.{
  Result, ok, throw, ReadBuffer, WriteBuffer, Receipt, read, write, is_read_complete,
  is_write_complete,
}
use cppfastdevelop.NetServer.EventHandler.{
  ClientInfo, Demux, Action, ◌>>=◌, ◌>>◌, done, Sockets, Callbacks, get_client_info, put_read,
  put_write,
}

-- What a loop over a chain comes to.
pub record Pass (D W B : Type 0) : Type 0 where
  pub network : W
  pub demux : D
  pub complete : List B
  pub left : List B
  pub outcome : Result (Unit {0})

abbrev pub completed : {D W B : Type 0} → B → Pass D W B → Pass D W B
completed b p = record p { complete = b ∷ p.complete }

abbrev pub stopped : {D W B : Type 0} → List B → Result (Unit {0}) → W → D → Pass D W B
stopped bs r w d = record { network = w; demux = d; complete = []; left = bs; outcome = r }

abbrev pub is_last : {B : Type 0} → List B → Bool
is_last [] = true
is_last (b ∷ bs) = false

module _ {D W : Type 0} (dm : Demux D) (so : Sockets W) (fd session : Fd) where
  -- A round behind the read of `rb`, in front of `rbs`; `next` are the other rounds.
  abbrev pub after_complete :
      ReadBuffer
      → List ReadBuffer
      → W
      → D
      → Result Bool
      → (D → Pass D W ReadBuffer)
      → Pass D W ReadBuffer
  after_complete rb rbs w d (throw e) next = stopped (rb ∷ rbs) (throw e) w d
  after_complete rb rbs w d (ok false) next = stopped (rb ∷ rbs) (ok tt) w d
  after_complete rb rbs w d (ok true) next =
      completed rb (next (if is_last rbs then dm.del_event fd cfev_read d else d))

  abbrev pub after_read :
      ReadBuffer
      → List ReadBuffer
      → W
      → D
      → Result Receipt
      → (D → Pass D W ReadBuffer)
      → Pass D W ReadBuffer
  after_read rb rbs w d (throw e) next = stopped (rb ∷ rbs) (throw e) w d
  after_read rb rbs w d (ok r) next =
      if r.peer_closed
      then stopped (rb ∷ rbs) (ok tt) w (dm.del_event fd cfev_read d)
      else after_complete rb rbs w d (is_read_complete rb) next

  unfoldable pub read_chain : List ReadBuffer → W → D → Pass D W ReadBuffer
  read_chain [] w d = stopped [] (ok tt) w d
  read_chain (rb ∷ rbs) w d =
      let (w', rb', r) = read (so.session session) rb w in
      after_read rb' rbs w' d r (read_chain rbs w')

  abbrev pub after_sent :
      WriteBuffer
      → List WriteBuffer
      → W
      → D
      → Result Bool
      → (D → Pass D W WriteBuffer)
      → Pass D W WriteBuffer
  after_sent wb wbs w d (throw e) next = stopped (wb ∷ wbs) (throw e) w d
  after_sent wb wbs w d (ok false) next = stopped (wb ∷ wbs) (ok tt) w d
  after_sent wb wbs w d (ok true) next =
      completed wb (next (if is_last wbs then dm.del_event fd cfev_write d else d))

  abbrev pub after_write :
      WriteBuffer
      → List WriteBuffer
      → W
      → D
      → Result ℕ
      → (D → Pass D W WriteBuffer)
      → Pass D W WriteBuffer
  after_write wb wbs w d (throw e) next = stopped (wb ∷ wbs) (throw e) w d
  after_write wb wbs w d (ok n) next = after_sent wb wbs w d (is_write_complete wb) next

  unfoldable pub write_chain : List WriteBuffer → W → D → Pass D W WriteBuffer
  write_chain [] w d = stopped [] (ok tt) w d
  write_chain (wb ∷ wbs) w d =
      let (w', wb', r) = write (so.session session) wb w in
      after_write wb' wbs w' d r (write_chain wbs w')

-- The chain in the map behind a loop.
abbrev pub chain_left : {D W B : Type 0} → Pass D W B → Result (Unit {0}) → List B
chain_left p (ok u) = p.left
chain_left p (throw e) = p.complete ++ p.left

abbrev pub complete_of : {D W B : Type 0} → Pass D W B → Result (Unit {0}) → Result (List B)
complete_of p (ok u) = ok p.complete
complete_of p (throw e) = throw e

module _ {D W : Type 0} where
  -- The object behind a loop, with the buffers for the complete functions.
  abbrev pub reads_done : Fd → Pass D W ReadBuffer → Action D W (List ReadBuffer)
  reads_done fd p h = (
    record h {
      network = p.network;
      demux = p.demux;
      clientfd_clientinfo =
          change fd (λ c. record c { rb_chain = chain_left p p.outcome }) h.clientfd_clientinfo;
    },
    complete_of p p.outcome,
  )

  abbrev pub writes_done : Fd → Pass D W WriteBuffer → Action D W (List WriteBuffer)
  writes_done fd p h = (
    record h {
      network = p.network;
      demux = p.demux;
      clientfd_clientinfo =
          change fd (λ c. record c { wb_chain = chain_left p p.outcome }) h.clientfd_clientinfo;
    },
    complete_of p p.outcome,
  )

module _ {D W : Type 0} (dm : Demux D) (so : Sockets W) (cb : Callbacks D W) where
  unfoldable pub complete_reads : Fd → List ReadBuffer → Action D W (Unit {0})
  complete_reads session [] = done
  complete_reads session (rb ∷ rbs) =
      cb.on_read_complete session rb >> put_read rb >> complete_reads session rbs

  unfoldable pub complete_writes : Fd → List WriteBuffer → Action D W (Unit {0})
  complete_writes session [] = done
  complete_writes session (wb ∷ wbs) =
      cb.on_write_complete session >> put_write wb >> complete_writes session wbs

  abbrev pub read_client : Fd → ClientInfo → Action D W (List ReadBuffer)
  read_client fd ci h =
      reads_done fd (read_chain dm so fd ci.session ci.rb_chain h.network h.demux) h

  abbrev pub write_client : Fd → ClientInfo → Action D W (List WriteBuffer)
  write_client fd ci h =
      writes_done fd (write_chain dm so fd ci.session ci.wb_chain h.network h.demux) h

  abbrev pub on_read : Fd → Action D W (Unit {0})
  on_read fd = do
    ci ← get_client_info fd
    complete ← read_client fd ci
    complete_reads ci.session complete

  abbrev pub on_write : Fd → Action D W (Unit {0})
  on_write fd = do
    ci ← get_client_info fd
    complete ← write_client fd ci
    complete_writes ci.session complete
