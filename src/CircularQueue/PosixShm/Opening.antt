-- ===== src/CircularQueue/PosixShm/Opening.antt =====
-- What `PosixShmCircularQueue`'s constructor opens, for the creator and for a client.
use cppfastdevelop.Prelude.{
  ℕ, ◌<◌, ◌≡◌, sym, ap, ◌∙◌, Bool, true, false, Option, none, some, List, ◌==◌, arith,
}
use cppfastdevelop.Ipc.SharedMemory.{
  Outcome, ShmCalls, PosixShM, make_shm, truncated, mapped, after_ftruncate, after_open,
}
use cppfastdevelop.CircularQueue.Def.{Result, ok, throw, Shared, Layout}
use cppfastdevelop.CircularQueue.Meta.{SetupCalls, make_meta}
use cppfastdevelop.CircularQueue.PosixShm.{
  RegionCalls, PosixShmCircularQueue, with_meta, make_queue,
}
use cppfastdevelop.CircularQueue.PosixShm.Sharing.{Objects, IsPosix, Provides, Makes}

module _ {W : Type 0} {sys : ShmCalls W} {mem : RegionCalls W} {os : Objects W}
    {truncates : ℕ → Bool} {prot : ℕ} (px : IsPosix sys mem os truncates prot) (n : List ℕ)
    (m oflag mode : ℕ) (w : W) (pv : Provides sys n m oflag prot mode w) where
  -- The worlds behind `shm_open`, `ftruncate` and `mmap`.
  abbrev pub w1 : W
  w1 = (sys.shm_open n oflag mode w).0

  abbrev pub w2 : W
  w2 = (sys.ftruncate pv.fd m w1).0

  abbrev pub w3 : W
  w3 = (sys.mmap m prot pv.fd w2).0

  abbrev pub shm_of : Bool → Option ℕ → PosixShM
  shm_of u p = record {
    p_shm = p;
    fd = pv.fd;
    name = n;
    size = m;
    auto_unlink = u;
    auto_close = true;
  }

  make_shm_lem :
      (u : Bool)
      → 0 < m
      → make_shm sys n m oflag prot mode u true w
        ≡ (w3, Outcome.returned (shm_of u (some pv.address)))
  unfolding make_shm
  make_shm_lem u h =
      let z : (m == 0) ≡ false = ground arith in
      rw z (
        ap (λ k. after_open sys n m prot u true (w1, k)) pv.opens
        ∙ ap (λ k. after_ftruncate sys prot (truncated sys (shm_of u none) m (w2, k))) pv.truncates
        ∙ ap (λ k. mapped sys (shm_of u none) (w3, k)) pv.maps)

  -- The new mapping is that of the object `o` of the name, which has the size asked for.
  pub record Opens (o : ℕ) (a : ℕ) (v : W) : Type 0 where
    pub names : os.bound v n ≡ some o
    pub maps : os.object v a ≡ some o
    pub sized : os.size v o ≡ m

  object_at-Opens :
      (o : ℕ) → os.bound w1 n ≡ some o → os.opened w1 pv.fd ≡ some o → Opens o pv.address w3
  object_at-Opens o b f =
      let k = px.mmap_keeps m prot pv.fd w2 n o in
      record {
        names = k.0 ∙ px.truncate_bound pv.fd m w1 n ∙ b;
        maps = px.mmap_maps m pv.fd w2 pv.address pv.maps ∙ px.truncate_opened pv.fd m w1 pv.fd ∙ f;
        sized = k.1 ∙ px.truncate_size pv.fd m w1 o f pv.truncates;
      }

  pub object_some-Opens : (o : ℕ) × Opens o pv.address w3
  object_some-Opens =
      let (o, b, f) = px.open_binds n oflag mode w pv.fd pv.opens in (o, object_at-Opens o b f)

  some_inj : {a b : ℕ} → some a ≡ some b → a ≡ b
  some_inj e = cc

  -- A name that is bound to an object of the size asked for: the object keeps its content.
  pub object_bound-Opens :
      (o : ℕ)
      → truncates oflag ≡ false
      → os.bound w n ≡ some o
      → os.size w o ≡ m
      → Opens o pv.address w3 × (os.content w3 o ≡ os.content w o)
  object_bound-Opens o t b z =
      let (o', b', f) = px.open_binds n oflag mode w pv.fd pv.opens in
      let k = px.open_bound n oflag mode w o b t in
      let same : o' ≡ o = some_inj (sym b' ∙ k.0) in
      let f' : os.opened w1 pv.fd ≡ some o = f ∙ ap some same in
      (
        object_at-Opens o k.0 f',
        (px.mmap_keeps m prot pv.fd w2 n o).2 ∙ px.truncate_same pv.fd m w1 o f' (k.1 ∙ z) ∙ k.2,
      )

  -- The mappings that there are stay.
  pub opens_stays : (a o : ℕ) → os.object w a ≡ some o → os.object w3 a ≡ some o
  opens_stays a o h =
      px.mmap_stays m prot pv.fd w2 a o
        (px.truncate_object pv.fd m w1 a ∙ px.open_stays n oflag mode w a o h)

  module _ (l : Layout) (mutex cond : SetupCalls) where
    with_meta-Makes :
        (P : PosixShmCircularQueue → W → Type 0) (shm : PosixShM) (p : ℕ) (v : W)
        (x : Shared × Result (Unit {0}))
        → x.1 ≡ ok tt
        → P (record { shm = shm; queue = p }) (mem.put_region p x.0 v)
        → Makes P (with_meta sys mem l shm p v x)
    with_meta-Makes P shm p v (s, ok u) e h = h
    with_meta-Makes P shm p v (s, throw x) e h = absurd (cc)

    pub make_queue-Makes :
        (P : PosixShmCircularQueue → W → Type 0) (creator : Bool)
        → 0 < m
        → (make_meta l creator m mutex cond (mem.region pv.address w3)).1 ≡ ok tt
        → P
            (record { shm = shm_of creator (some pv.address); queue = pv.address })
            (mem.put_region pv.address
              (make_meta l creator m mutex cond (mem.region pv.address w3)).0
              w3)
        → Makes P (make_queue sys mem l n creator m oflag prot mode mutex cond w)
    unfolding make_queue
    make_queue-Makes P creator pos_m e h = rw (make_shm_lem creator pos_m) (
        with_meta-Makes P (shm_of creator (some pv.address)) pv.address w3
          (make_meta l creator m mutex cond (mem.region pv.address w3)) e h)
