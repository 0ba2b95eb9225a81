-- ===== src/Ipc/MemMapped.antt =====
-- `MemMappedFile` of cf_ipc.cpp: a file that is opened, made as long as asked for, and mapped.
use cppfastdevelop.Prelude.{
  ℕ, zero, suc, ◌+◌, ◌^◌, ◌<◌, ◌≤◌, ◌≡◌, ap, Bool, true, false, Option, none, some, List, ltb, ◌==◌,
  add64, if◌then◌else◌, ◌⊎◌, inl, inr, Bool-cases, arith,
}
use cppfastdevelop.Ipc.SharedMemory.{Outcome, returned, threw, value_error, syscall_execute_error}

-- `open` gives a descriptor or none for -1, `fstat` the size of the file, `mmap` an address or none
-- for MAP_FAILED; the others return 0 or not, here as a Boolean.
pub record FileCalls (W : Type 0) : Type 0 where
  pub open_file : List ℕ → W → W × Option ℕ
  pub fstat : ℕ → W → W × Option ℕ
  pub ftruncate : ℕ → ℕ → W → W × Bool
  pub mmap : ℕ → ℕ → ℕ → W → W × Option ℕ
  pub munmap : ℕ → ℕ → W → W × Bool
  pub mlock : ℕ → ℕ → W → W × Bool
  pub munlock : ℕ → ℕ → W → W × Bool
  pub msync : ℕ → ℕ → ℕ → W → W × Bool

pub record MemMappedFile : Type 0 where
  pub p_shm : Option ℕ
  pub size : ℕ
  pub is_locked : Bool
  pub auto_unmap : Bool

module _ {W : Type 0} (sys : FileCalls W) where
  -- The steps of the constructor, each with what the one before gave.
  abbrev pub after_lock : MemMappedFile → W × Bool → W × Outcome MemMappedFile
  after_lock o (w, true) = (w, returned o)
  after_lock o (w, false) = (w, threw syscall_execute_error)

  abbrev pub after_mmap : MemMappedFile → W × Option ℕ → W × Outcome MemMappedFile
  after_mmap o (w, none) = (w, threw syscall_execute_error)
  after_mmap o (w, some p) =
      after_lock (record o { p_shm = some p })
        (if o.is_locked then sys.mlock p o.size w else (w, true))

  abbrev pub after_extend : ℕ → ℕ → MemMappedFile → W × Bool → W × Outcome MemMappedFile
  after_extend fd prot o (w, false) = (w, threw syscall_execute_error)
  after_extend fd prot o (w, true) = after_mmap o (sys.mmap o.size prot fd w)

  -- A size of 0 does not come so far, so `_size` stays the size that was asked for.
  abbrev pub after_fstat : ℕ → ℕ → MemMappedFile → W × Option ℕ → W × Outcome MemMappedFile
  after_fstat fd prot o (w, none) = (w, threw syscall_execute_error)
  after_fstat fd prot o (w, some st_size) =
      after_extend fd prot o (if ltb st_size o.size then sys.ftruncate fd o.size w else (w, true))

  -- The test of the descriptor is for 0.
  abbrev pub after_open : ℕ → MemMappedFile → W × Option ℕ → W × Outcome MemMappedFile
  after_open prot o (w, none) = (w, threw syscall_execute_error)
  after_open prot o (w, some zero) = after_fstat 0 prot o (sys.fstat 0 w)
  after_open prot o (w, some (suc fd)) = (w, threw syscall_execute_error)

  -- `MemMappedFile(name, size, prot, lock, autoUnmap)`.
  abbrev pub make_mapped : List ℕ → ℕ → ℕ → Bool → Bool → W → W × Outcome MemMappedFile
  make_mapped name size prot lock auto_unmap w =
      if size == 0
      then (w, threw value_error)
      else after_open prot
          (record { p_shm = none; size = size; is_locked = lock; auto_unmap = auto_unmap })
          (sys.open_file name w)

  abbrev pub munmap_file : MemMappedFile → W → W
  munmap_file o w = elim (o.p_shm) [ none ↦ w | some p ↦ (sys.munmap p o.size w).0 ]

  abbrev pub unlocked : MemMappedFile → W → W
  unlocked o w = elim (o.p_shm) [ none ↦ w | some p ↦ (sys.munlock p o.size w).0 ]

  -- The destructor.
  abbrev pub destroy_mapped : MemMappedFile → W → W
  destroy_mapped o w =
      let w' = if o.is_locked then unlocked o w else w in
      if o.auto_unmap then munmap_file o w' else w'

  abbrev pub get_mapped : MemMappedFile → Outcome ℕ
  get_mapped o = elim (o.p_shm) [ none ↦ threw value_error | some p ↦ returned p ]

  abbrev pub get_size : MemMappedFile → ℕ
  get_size o = o.size

  abbrev pub synced : W × Bool → W × Outcome (Unit {0})
  synced (w, true) = (w, returned tt)
  synced (w, false) = (w, threw syscall_execute_error)

  -- `Msync(fromIndex, len, flag)` of an object at `p`; the sum of `size_t` wraps.
  abbrev pub msync_at : ℕ → ℕ → ℕ → ℕ → MemMappedFile → W → W × Outcome (Unit {0})
  msync_at p from len flag o w =
      if ltb o.size (add64 from len)
      then (w, threw value_error)
      else synced (sys.msync (add64 p from) len flag w)

  abbrev pub msync_all : ℕ → ℕ → MemMappedFile → W → W × Outcome (Unit {0})
  msync_all p flag o w = msync_at p 0 o.size flag o w

  -- `Msync` of a range either throws and calls nothing, or makes the one call, and then the range
  -- lies in the mapping: where the sum of its start and its length does not wrap, and the mapping
  -- does not either.
  pub msync_at-within :
      (p from len flag : ℕ) (o : MemMappedFile) (w : W)
      → from + len < 2 ^ 64
      → p + o.size < 2 ^ 64
      → (msync_at p from len flag o w ≡ (w, threw value_error))
        ⊎ ((msync_at p from len flag o w ≡ synced (sys.msync (p + from) len flag w))
            × (p + from + len ≤ p + o.size))
  msync_at-within p from len flag o w h k = elim (Bool-cases (ltb o.size (add64 from len))) [
    | inl e ↦ inl (rw e)
    | inr e ↦
        let s : add64 from len ≡ from + len = omega arith in
        let b : from + len ≤ o.size = ground (arith, s, e) in
        let a : add64 p from ≡ p + from = omega (arith, b) in inr (rw (e, a), omega (arith, b))
  ]

  -- A range whose start and length wrap to a sum in the mapping is synchronised all the same: the
  -- call is made at the start, which lies behind the mapping where the length is at most 2^63.
  pub msync_at-wraps :
      (p from len flag : ℕ) (o : MemMappedFile) (w : W)
      → 2 ^ 64 ≤ from + len
      → from < 2 ^ 64
      → len ≤ 2 ^ 63
      → from + len ≤ 2 ^ 64 + o.size
      → o.size < 2 ^ 63
      → (msync_at p from len flag o w ≡ synced (sys.msync (add64 p from) len flag w))
        × (o.size < from)
  msync_at-wraps p from len flag o w h a b c d =
      let e : ltb o.size (add64 from len) ≡ false = ground arith in (rw e, omega arith)

  -- The constructor throws on every descriptor but 0 that `open` gives, behind `open` alone: the
  -- descriptor stays open.
  pub make_mapped-throws :
      (name : List ℕ) (size prot fd : ℕ) (lock auto_unmap : Bool) (w : W)
      → 0 < size
      → (sys.open_file name w).1 ≡ some (suc fd)
      → make_mapped name size prot lock auto_unmap w
        ≡ ((sys.open_file name w).0, threw syscall_execute_error)
  make_mapped-throws name size prot fd lock auto_unmap w h e =
      let z : (size == 0) ≡ false = ground arith in
      rw z (
        ap
          (λ r.
            after_open prot
              (record { p_shm = none; size = size; is_locked = lock; auto_unmap = auto_unmap })
              ((sys.open_file name w).0, r))
          e)
