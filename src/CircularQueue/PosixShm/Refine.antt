-- ===== src/CircularQueue/PosixShm/Refine.antt =====
-- A creator and a client of one name share one FIFO.
use cppfastdevelop.Prelude.{
  ℕ, ◌+◌, ◌-◌, ◌^◌, ◌<◌, ◌≡◌, refl, sym, ◌∙◌, subst, Bool, true, false, some, List, [], arith,
}
use cppfastdevelop.Ipc.SharedMemory.{ShmCalls}
use cppfastdevelop.CircularQueue.Def.{Result, ok, throw, normal, Layout, IsLayout}
use cppfastdevelop.CircularQueue.Meta.{SetupCalls, make_meta}
use cppfastdevelop.CircularQueue.Create.{AllZero, make_meta-Represents}
use cppfastdevelop.CircularQueue.Transfer.Spec.{Fifo}
use cppfastdevelop.CircularQueue.Transfer.Refine.{Represents, run_fifo, run_refines, Sizes}
use cppfastdevelop.CircularQueue.PosixShm.{RegionCalls, PosixShmCircularQueue, make_queue}
use cppfastdevelop.CircularQueue.PosixShm.Sharing.{
  Objects, IsPosix, Provides, Makes, Calling, calls_of, run_shared, Share, run_shared-run,
}
use cppfastdevelop.CircularQueue.PosixShm.Opening.{
  w3, object_some-Opens, object_bound-Opens, opens_stays, make_queue-Makes,
}

-- The queue in the region: an object of the name, which stands for the FIFO.
pub record Bears {W : Type 0} (os : Objects W) (l : Layout) (n : List ℕ) (m o : ℕ) (f : Fifo)
    (q : PosixShmCircularQueue) (w : W) : Type 0 where
  pub names : os.bound w n ≡ some o
  pub maps : os.object w (q.queue) ≡ some o
  pub sized : os.size w o ≡ m
  pub represents : Represents l (os.content w o) f

abbrev pub empty_fifo : Layout → ℕ → Fifo
empty_fifo l m = record { status = normal; capacity = m - l.meta_size; messages = [] }

module _ {W : Type 0} {sys : ShmCalls W} {mem : RegionCalls W} {os : Objects W}
    {truncates : ℕ → Bool} {prot : ℕ} (px : IsPosix sys mem os truncates prot) {l : Layout}
    (laid : IsLayout l) (n : List ℕ) (m : ℕ) (big : l.meta_size + l.header_size < m)
    (small : m < 2 ^ 63) (mode : ℕ) (mutex cond : SetupCalls) where
  creator-Bears :
      (oflag : ℕ) (w : W) (pv : Provides sys n m oflag prot mode w)
      → AllZero mutex
      → AllZero cond
      → Makes
          (λ q w'. (o : ℕ) × Bears os l n m o (empty_fifo l m) q w')
          (make_queue sys mem l n true m oflag prot mode mutex cond w)
  creator-Bears oflag w pv zm zc =
      let a = pv.address in
      let w' = w3 px n m oflag mode w pv in
      let s = mem.region a w' in
      let (o, op) = object_some-Opens px n m oflag mode w pv in
      let r = make_meta-Represents laid m mutex cond s big small zm zc in
      let s' = (make_meta l true m mutex cond s).0 in
      let k = px.write_keeps a s' w' n a o in
      make_queue-Makes px n m oflag mode w pv l mutex cond
        (λ q v. (o' : ℕ) × Bears os l n m o' (empty_fifo l m) q v) true (omega (arith, big)) r.0
        (
          o,
          record {
            names = k.0 ∙ op.names;
            maps = k.1 ∙ op.maps;
            sized = k.2 ∙ op.sized;
            represents =
                subst (λ c. Represents l c (empty_fifo l m)) (sym (px.writes a o s' w' op.maps))
                  r.1;
          },
        )

  client-Shares :
      (oflag o : ℕ) (f : Fifo) (q : PosixShmCircularQueue) (w : W)
      (pv : Provides sys n m oflag prot mode w)
      → truncates oflag ≡ false
      → Bears os l n m o f q w
      → Makes
          (λ r w'. Share px l q r o w' × Represents l (os.content w' o) f)
          (make_queue sys mem l n false m oflag prot mode mutex cond w)
  unfolding make_meta
  client-Shares oflag o f q w pv t b =
      let a = pv.address in
      let w' = w3 px n m oflag mode w pv in
      let s = mem.region a w' in
      let (op, same) = object_bound-Opens px n m oflag mode w pv o t (b.names) (b.sized) in
      make_queue-Makes px n m oflag mode w pv l mutex cond
        (λ r v. Share px l q r o v × Represents l (os.content v o) f) false (omega (arith, big))
        refl
        (
          record {
            left =
                (px.write_keeps a s w' n (q.queue) o).1
                ∙ opens_stays px n m oflag mode w pv (q.queue) o (b.maps);
            right = (px.write_keeps a s w' n a o).1 ∙ op.maps;
          },
          subst (λ c. Represents l c f)
              (sym (px.writes a o s w' op.maps ∙ px.reads a o w' op.maps ∙ same)) (b.represents),
        )

  Makes-weaken :
      (P Q : PosixShmCircularQueue → W → Type 0) (x : W × Result PosixShmCircularQueue)
      → ((q : PosixShmCircularQueue) (w : W) → P q w → Q q w)
      → Makes P x
      → Makes Q x
  Makes-weaken P Q (w, ok q) k h = k q w h
  Makes-weaken P Q (w, throw e) k h = h

  client-refines :
      (open_flag : ℕ) (ops : List Calling) (o : ℕ) (q : PosixShmCircularQueue) (w : W)
      (pv : Provides sys n m open_flag prot mode w)
      → truncates open_flag ≡ false
      → Sizes l (calls_of ops)
      → Bears os l n m o (empty_fifo l m) q w
      → Makes
          (λ r w'.
            run_shared sys mem l q r ops w'
            ≡ run_fifo l.header_size (calls_of ops) (empty_fifo l m))
          (make_queue sys mem l n false m open_flag prot mode mutex cond w)
  client-refines open_flag ops o q w pv t z b =
      Makes-weaken (λ r w'. Share px l q r o w' × Represents l (os.content w' o) (empty_fifo l m))
        (λ r w'.
          run_shared sys mem l q r ops w' ≡ run_fifo l.header_size (calls_of ops) (empty_fifo l m))
        (make_queue sys mem l n false m open_flag prot mode mutex cond w)
        (λ r w' k. run_shared-run px l q r ops o w' k.0 ∙ run_refines laid (calls_of ops) k.1 z)
        (client-Shares open_flag o (empty_fifo l m) q w pv t b)

  Makes-follow :
      (P Q : PosixShmCircularQueue → W → Type 0) (x : W × Result PosixShmCircularQueue)
      → ((q : PosixShmCircularQueue) → P q x.0 → Q q x.0)
      → Makes P x
      → Makes Q x
  Makes-follow P Q (w, ok q) k h = k q h
  Makes-follow P Q (w, throw e) k h = h

  -- Where `shm_open`, `ftruncate` and `mmap` succeed for the creator and then for the client, whose
  -- flags do not hold O_TRUNC, the pthread calls succeed, and the size has room for the meta data and
  -- a header, a creator makes a queue under a name, and a client opens it by that name and size, and
  -- neither throws. Any calls of `TryPut` and `TryGet` from then on, each through either object,
  -- reply as those of one empty FIFO with the capacity that the meta data leave, where the clock and
  -- the sizes of the elements fit 64 bits.
  pub shared_queue-refines :
      (create_flag open_flag : ℕ) (w : W) (ops : List Calling)
      (made : Provides sys n m create_flag prot mode w)
      (found : Provides sys n m open_flag prot mode
        (make_queue sys mem l n true m create_flag prot mode mutex cond w).0)
      → truncates open_flag ≡ false
      → AllZero mutex
      → AllZero cond
      → Sizes l (calls_of ops)
      → Makes
          (λ q w'.
            Makes
              (λ r w''.
                run_shared sys mem l q r ops w''
                ≡ run_fifo l.header_size (calls_of ops) (empty_fifo l m))
              (make_queue sys mem l n false m open_flag prot mode mutex cond w'))
          (make_queue sys mem l n true m create_flag prot mode mutex cond w)
  shared_queue-refines create_flag open_flag w ops made found t zm zc z =
      Makes-follow (λ q w'. (o : ℕ) × Bears os l n m o (empty_fifo l m) q w')
        (λ q w'.
          Makes
            (λ r w''.
              run_shared sys mem l q r ops w''
              ≡ run_fifo l.header_size (calls_of ops) (empty_fifo l m))
            (make_queue sys mem l n false m open_flag prot mode mutex cond w'))
        (make_queue sys mem l n true m create_flag prot mode mutex cond w)
        (λ q h. client-refines open_flag ops h.0 q _ found t z h.1)
        (creator-Bears create_flag w made zm zc)
