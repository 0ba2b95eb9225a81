-- ===== src/CircularQueue/PosixShm/Sharing.antt =====
-- Two processes that open a queue by one name work on one region, and see one FIFO.
use cppfastdevelop.Prelude.{
  ℕ, ◌≡◌, refl, ap, ◌∙◌, Bool, true, false, Option, some, List, [], ◌∷◌, if◌then◌else◌,
}
use cppfastdevelop.Ipc.SharedMemory.{ShmCalls}
use cppfastdevelop.CircularQueue.Def.{Result, ok, throw, Shared, Layout}
use cppfastdevelop.CircularQueue.Transfer as Transfer
use cppfastdevelop.CircularQueue.Transfer.{returned, waiting}
use cppfastdevelop.CircularQueue.Transfer.Refine.{
  Op, try_puts, try_gets, Reply, put_reply, get_reply, continue, run,
}
use cppfastdevelop.CircularQueue.PosixShm.{
  RegionCalls, PosixShmCircularQueue, Reached, replied, waits, landed, try_put, try_get,
}

-- The objects of shared memory: which one a name, a descriptor and an address stand for, and the
-- size and the content of each.
pub record Objects (W : Type 0) : Type 0 where
  pub bound : W → List ℕ → Option ℕ
  pub opened : W → ℕ → Option ℕ
  pub object : W → ℕ → Option ℕ
  pub size : W → ℕ → ℕ
  pub content : W → ℕ → Shared

-- What the manual says of the calls: opening a name gives the object that it is bound to, and
-- leaves its size and content unless the flags hold O_TRUNC, which `truncates` tells of; setting a
-- size gives an object that size, and leaves the content of one that has it; a mapping for reading and
-- writing, which is what `prot` asks for, shows the object of its descriptor, and takes the place of no
-- other; reads and writes through its address are those of its object.
pub record IsPosix {W : Type 0} (sys : ShmCalls W) (mem : RegionCalls W) (os : Objects W)
    (truncates : ℕ → Bool) (prot : ℕ) : Type 0 where
  pub open_binds :
      (n : List ℕ) (flag mode : ℕ) (w : W) (fd : ℕ)
      → (sys.shm_open n flag mode w).1 ≡ some fd
      → (o : ℕ) × (os.bound (sys.shm_open n flag mode w).0 n ≡ some o)
        × (os.opened (sys.shm_open n flag mode w).0 fd ≡ some o)
  pub open_bound :
      (n : List ℕ) (flag mode : ℕ) (w : W) (o : ℕ)
      → os.bound w n ≡ some o
      → truncates flag ≡ false
      → (os.bound (sys.shm_open n flag mode w).0 n ≡ some o)
        × (os.size (sys.shm_open n flag mode w).0 o ≡ os.size w o)
        × (os.content (sys.shm_open n flag mode w).0 o ≡ os.content w o)
  pub open_stays :
      (n : List ℕ) (flag mode : ℕ) (w : W) (a o : ℕ)
      → os.object w a ≡ some o
      → os.object (sys.shm_open n flag mode w).0 a ≡ some o
  pub truncate_size :
      (fd len : ℕ) (w : W) (o : ℕ)
      → os.opened w fd ≡ some o
      → (sys.ftruncate fd len w).1 ≡ true
      → os.size (sys.ftruncate fd len w).0 o ≡ len
  pub truncate_same :
      (fd len : ℕ) (w : W) (o : ℕ)
      → os.opened w fd ≡ some o
      → os.size w o ≡ len
      → os.content (sys.ftruncate fd len w).0 o ≡ os.content w o
  pub truncate_opened :
      (fd len : ℕ) (w : W) (fd' : ℕ) → os.opened (sys.ftruncate fd len w).0 fd' ≡ os.opened w fd'
  pub truncate_bound :
      (fd len : ℕ) (w : W) (n : List ℕ) → os.bound (sys.ftruncate fd len w).0 n ≡ os.bound w n
  pub truncate_object :
      (fd len : ℕ) (w : W) (a : ℕ) → os.object (sys.ftruncate fd len w).0 a ≡ os.object w a
  pub mmap_maps :
      (len fd : ℕ) (w : W) (a : ℕ)
      → (sys.mmap len prot fd w).1 ≡ some a
      → os.object (sys.mmap len prot fd w).0 a ≡ os.opened w fd
  pub mmap_stays :
      (len prot fd : ℕ) (w : W) (a o : ℕ)
      → os.object w a ≡ some o
      → os.object (sys.mmap len prot fd w).0 a ≡ some o
  pub mmap_keeps :
      (len prot fd : ℕ) (w : W) (n : List ℕ) (o : ℕ)
      → (os.bound (sys.mmap len prot fd w).0 n ≡ os.bound w n)
        × (os.size (sys.mmap len prot fd w).0 o ≡ os.size w o)
        × (os.content (sys.mmap len prot fd w).0 o ≡ os.content w o)
  pub reads : (a o : ℕ) (w : W) → os.object w a ≡ some o → mem.region a w ≡ os.content w o
  pub writes :
      (a o : ℕ) (s : Shared) (w : W)
      → os.object w a ≡ some o
      → os.content (mem.put_region a s w) o ≡ s
  pub write_keeps :
      (a : ℕ) (s : Shared) (w : W) (n : List ℕ) (b o : ℕ)
      → (os.bound (mem.put_region a s w) n ≡ os.bound w n)
        × (os.object (mem.put_region a s w) b ≡ os.object w b)
        × (os.size (mem.put_region a s w) o ≡ os.size w o)

-- The three calls of a constructor that finds the world `w` succeed.
pub record Provides {W : Type 0} (sys : ShmCalls W) (n : List ℕ) (m oflag prot mode : ℕ) (w : W)
    : Type 0 where
  pub fd : ℕ
  pub opens : (sys.shm_open n oflag mode w).1 ≡ some fd
  pub truncates : (sys.ftruncate fd m (sys.shm_open n oflag mode w).0).1 ≡ true
  pub address : ℕ
  pub maps :
      (sys.mmap m prot fd (sys.ftruncate fd m (sys.shm_open n oflag mode w).0).0).1 ≡ some address

-- What holds of the queue that a constructor returns, and of the world that it leaves.
abbrev pub Makes :
    {W : Type 0} → (PosixShmCircularQueue → W → Type 0) → W × Result PosixShmCircularQueue → Type 0
Makes P (w, ok q) = P q w
Makes P (w, throw e) = ⊥

-- A client's call, and which of two objects it is made through.
abbrev pub Calling : Type 0
Calling = Bool × Op

abbrev pub calls_of : List Calling → List Op
calls_of [] = []
calls_of ((b, op) ∷ ops) = op ∷ calls_of ops

abbrev resume {ℓ} :
    {W : Type 0} {A : Type ℓ} → (Result A → Reply) → (W → List Reply) → Reached W A → List Reply
resume reply k (replied w r) = reply r ∷ k w
resume reply k (waits w) = []

module _ {W : Type 0} (sys : ShmCalls W) (mem : RegionCalls W) (l : Layout) where
  unfoldable pub run_shared :
      PosixShmCircularQueue → PosixShmCircularQueue → List Calling → W → List Reply
  run_shared q r [] w = []
  run_shared q r ((b, try_puts c body) ∷ ops) w =
      resume put_reply (run_shared q r ops) (try_put sys mem l c body (if b then q else r) w)
  run_shared q r ((b, try_gets c) ∷ ops) w =
      resume get_reply (run_shared q r ops) (try_get sys mem l c (if b then q else r) w)

module _ {W : Type 0} {sys : ShmCalls W} {mem : RegionCalls W} {os : Objects W}
    {truncates : ℕ → Bool} {prot : ℕ} (px : IsPosix sys mem os truncates prot) (l : Layout) where
  -- Both objects map the object `o`.
  pub record Share (q r : PosixShmCircularQueue) (o : ℕ) (w : W) : Type 0 where
    pub left : os.object w (q.queue) ≡ some o
    pub right : os.object w (r.queue) ≡ some o

  Share-pick :
      {q r : PosixShmCircularQueue} {o : ℕ} {w : W} (b : Bool)
      → Share q r o w
      → os.object w ((if b then q else r).queue) ≡ some o
  Share-pick true s = s.left
  Share-pick false s = s.right

  Share-put :
      {q r : PosixShmCircularQueue} {o : ℕ} {w : W} (a : ℕ) (s : Shared)
      → Share q r o w
      → Share q r o (mem.put_region a s w)
  Share-put {q} {r} {o} {w} a s sh = record {
    left = (px.write_keeps a s w [] (q.queue) o).1 ∙ sh.left;
    right = (px.write_keeps a s w [] (r.queue) o).1 ∙ sh.right;
  }

  resume-landed {ℓ} :
      {A : Type ℓ} {q r : PosixShmCircularQueue} {o : ℕ} {w : W} (reply : Result A → Reply)
      (ops : List Calling) (a : ℕ) (out : Transfer.Outcome A)
      → Share q r o w
      → os.object w a ≡ some o
      → ((w' : W)
          → Share q r o w'
          → run_shared sys mem l q r ops w' ≡ run l (calls_of ops) (os.content w' o))
      → resume reply (run_shared sys mem l q r ops) (landed sys mem l a w out)
        ≡ continue reply (run l (calls_of ops)) out
  resume-landed reply ops a (returned s res) sh e ih = ap (◌∷◌ (reply res)) (
      ih (mem.put_region a s _) (Share-put a s sh)
      ∙ ap (run l (calls_of ops)) (px.writes a _ s _ e))
  resume-landed reply ops a (waiting s) sh e ih = refl

  pub run_shared-run :
      (q r : PosixShmCircularQueue) (ops : List Calling) (o : ℕ) (w : W)
      → Share q r o w
      → run_shared sys mem l q r ops w ≡ run l (calls_of ops) (os.content w o)
  unfolding run_shared run
  run_shared-run q r [] o w sh = refl
  run_shared-run q r ((b, try_puts c body) ∷ ops) o w sh =
      let e = Share-pick b sh in
      resume-landed put_reply ops ((if b then q else r).queue)
        (Transfer.try_put l c body (mem.region ((if b then q else r).queue) w)) sh e
        (λ w' sh'. run_shared-run q r ops o w' sh')
      ∙ ap (λ s. continue put_reply (run l (calls_of ops)) (Transfer.try_put l c body s))
          (px.reads ((if b then q else r).queue) o w e)
  run_shared-run q r ((b, try_gets c) ∷ ops) o w sh =
      let e = Share-pick b sh in
      resume-landed get_reply ops ((if b then q else r).queue)
        (Transfer.try_get l c (mem.region ((if b then q else r).queue) w)) sh e
        (λ w' sh'. run_shared-run q r ops o w' sh')
      ∙ ap (λ s. continue get_reply (run l (calls_of ops)) (Transfer.try_get l c s))
          (px.reads ((if b then q else r).queue) o w e)
