-- ===== src/Ipc/SharedMemory.antt =====
-- `PosixShM` of cppfoundation/src/class/cf_ipc.cpp: a named object of shared memory, opened, given a
-- size and mapped by the constructor.
use cppfastdevelop.Prelude.{ℕ, Bool, true, false, Option, none, some, List, ◌==◌, if◌then◌else◌}

pub data Error : Type 0 where
  value_error syscall_execute_error : Error

-- A call returns a value, or throws.
pub data Outcome (B : Type 0) : Type 0 where
  returned : B → Outcome B
  threw : Error → Outcome B

-- `shm_open` takes a name, flags and a mode, `mmap` a length, a protection and a descriptor; they
-- give none for -1 and MAP_FAILED. The others return 0 or -1, here as a Boolean. `fstat` gives the
-- bytes of its structure.
pub record ShmCalls (W : Type 0) : Type 0 where
  pub shm_open : List ℕ → ℕ → ℕ → W → W × Option ℕ
  pub ftruncate : ℕ → ℕ → W → W × Bool
  pub mmap : ℕ → ℕ → ℕ → W → W × Option ℕ
  pub shm_unlink : List ℕ → W → W × Bool
  pub close : ℕ → W → W × Bool
  pub fstat : ℕ → W → W × Option (List ℕ)

-- `_pShm` is none for MAP_FAILED.
pub record PosixShM : Type 0 where
  pub p_shm : Option ℕ
  pub fd : ℕ
  pub name : List ℕ
  pub size : ℕ
  pub auto_unlink : Bool
  pub auto_close : Bool

module _ {W : Type 0} (sys : ShmCalls W) where
  abbrev pub checked : W × Bool → W × Outcome (Unit {0})
  checked (w, true) = (w, returned tt)
  checked (w, false) = (w, threw syscall_execute_error)

  abbrev pub truncated : PosixShM → ℕ → W × Bool → W × PosixShM × Outcome (Unit {0})
  truncated o length (w, true) = (w, record o { size = length }, returned tt)
  truncated o length (w, false) = (w, o, threw syscall_execute_error)

  -- `Ftruncate`.
  abbrev pub shm_ftruncate : ℕ → PosixShM → W → W × PosixShM × Outcome (Unit {0})
  shm_ftruncate length o w = truncated o length (sys.ftruncate o.fd length w)

  abbrev pub mapped : PosixShM → W × Option ℕ → W × Outcome PosixShM
  mapped o (w, none) = (w, threw syscall_execute_error)
  mapped o (w, some p) = (w, returned (record o { p_shm = some p }))

  -- The constructor behind `Ftruncate`, and behind `shm_open`.
  abbrev pub after_ftruncate : ℕ → W × PosixShM × Outcome (Unit {0}) → W × Outcome PosixShM
  after_ftruncate prot (w, o, returned u) = mapped o (sys.mmap o.size prot o.fd w)
  after_ftruncate prot (w, o, threw e) = (w, threw e)

  abbrev pub after_open : List ℕ → ℕ → ℕ → Bool → Bool → W × Option ℕ → W × Outcome PosixShM
  after_open name size prot auto_unlink auto_close (w, none) = (w, threw syscall_execute_error)
  after_open name size prot auto_unlink auto_close (w, some fd) = after_ftruncate prot (
      shm_ftruncate size
        (record {
          p_shm = none;
          fd = fd;
          name = name;
          size = size;
          auto_unlink = auto_unlink;
          auto_close = auto_close;
        })
        w)

  -- `PosixShM(name, size, oflag, prot, mode, autoUnlink, autoClose)`.
  unfoldable pub make_shm : List ℕ → ℕ → ℕ → ℕ → ℕ → Bool → Bool → W → W × Outcome PosixShM
  make_shm name size oflag prot mode auto_unlink auto_close w =
      if size == 0
      then (w, threw value_error)
      else after_open name size prot auto_unlink auto_close (sys.shm_open name oflag mode w)

  -- The destructor; results of its calls are not looked at, and the mapping stays.
  abbrev pub destroy_shm : PosixShM → W → W
  destroy_shm o w =
      let w' = if o.auto_unlink then (sys.shm_unlink o.name w).0 else w in
      if o.auto_close then (sys.close o.fd w').0 else w'

  abbrev pub get_shm : PosixShM → Outcome ℕ
  get_shm o = elim (o.p_shm) [ none ↦ threw value_error | some p ↦ returned p ]

  abbrev pub stat_of : W × Option (List ℕ) → W × Outcome (List ℕ)
  stat_of (w, none) = (w, threw syscall_execute_error)
  stat_of (w, some buf) = (w, returned buf)

  abbrev pub shm_fstat : PosixShM → W → W × Outcome (List ℕ)
  shm_fstat o w = stat_of (sys.fstat o.fd w)

  -- `Unlink` and `Close`: the object keeps its flags.
  abbrev pub unlink_shm : PosixShM → W → W × Outcome (Unit {0})
  unlink_shm o w = checked (sys.shm_unlink o.name w)

  abbrev pub close_shm : PosixShM → W → W × Outcome (Unit {0})
  close_shm o w = checked (sys.close o.fd w)
