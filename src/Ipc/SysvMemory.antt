-- ===== src/Ipc/SysvMemory.antt =====
-- `SysVShM` of cf_ipc.cpp: a segment of System V shared memory, attached by the constructor.
use cppfastdevelop.Prelude.{
  ℕ, zero, suc, ◌≡◌, refl, ap, ◌∙◌, Bool, true, false, Option, none, some, if◌then◌else◌,
}
use cppfastdevelop.Ipc.SharedMemory.{Outcome, returned, threw, value_error, syscall_execute_error}

-- `shmget` gives the number of the segment of a key, a size and flags, and `shmat` an address, or
-- none for -1; the others return 0 or not, here as a Boolean.
pub record SegmentCalls (W : Type 0) : Type 0 where
  pub shmget : ℕ → ℕ → ℕ → W → W × Option ℕ
  pub shmat : ℕ → W → W × Option ℕ
  pub shmdt : ℕ → W → W × Bool
  pub shmctl_rmid : ℕ → W → W × Bool

-- `_pShmAddr` is none for NULL: where `shmat` fails there is no object.
pub record SysVShM : Type 0 where
  pub key : ℕ
  pub shmid : ℕ
  pub p_shm_addr : Option ℕ
  pub auto_remove : Bool
  pub auto_detach : Bool

module _ {W : Type 0} (sys : SegmentCalls W) where
  abbrev pub after_shmat : SysVShM → W × Option ℕ → W × Outcome SysVShM
  after_shmat o (w, none) = (w, threw syscall_execute_error)
  after_shmat o (w, some p) = (w, returned (record o { p_shm_addr = some p }))

  abbrev pub after_shmget : ℕ → Bool → Bool → W × Option ℕ → W × Outcome SysVShM
  after_shmget key auto_remove auto_detach (w, none) = (w, threw syscall_execute_error)
  after_shmget key auto_remove auto_detach (w, some shmid) =
      after_shmat
        (record {
          key = key;
          shmid = shmid;
          p_shm_addr = none;
          auto_remove = auto_remove;
          auto_detach = auto_detach;
        })
        (sys.shmat shmid w)

  -- `SysVShM(key, size, shmFlag, autoRemove, autoDetach)`.
  abbrev pub make_segment : ℕ → ℕ → ℕ → Bool → Bool → W → W × Outcome SysVShM
  make_segment key size flag auto_remove auto_detach w =
      after_shmget key auto_remove auto_detach (sys.shmget key size flag w)

  abbrev pub get_segment : SysVShM → Outcome ℕ
  get_segment o = elim (o.p_shm_addr) [ none ↦ threw value_error | some p ↦ returned p ]

  abbrev pub detached : SysVShM → W × Bool → W × SysVShM × Outcome (Unit {0})
  detached o (w, true) = (w, record o { p_shm_addr = none }, returned tt)
  detached o (w, false) = (w, o, threw syscall_execute_error)

  abbrev pub detach_from : Option ℕ → SysVShM → W → W × SysVShM × Outcome (Unit {0})
  detach_from none o w = (w, record o { p_shm_addr = none }, returned tt)
  detach_from (some p) o w = detached o (sys.shmdt p w)

  -- `Detach`.
  abbrev pub detach : SysVShM → W → W × SysVShM × Outcome (Unit {0})
  detach o w = detach_from o.p_shm_addr o w

  abbrev pub removed : W × Bool → W × Outcome (Unit {0})
  removed (w, true) = (w, returned tt)
  removed (w, false) = (w, threw syscall_execute_error)

  abbrev pub remove : SysVShM → W → W × Outcome (Unit {0})
  remove o w = removed (sys.shmctl_rmid o.shmid w)

  abbrev pub let_go : Option ℕ → W → W
  let_go none w = w
  let_go (some p) w = (sys.shmdt p w).0

  -- The destructor.
  abbrev pub destroy_segment : SysVShM → W → W
  destroy_segment o w =
      let w' = if o.auto_detach then let_go o.p_shm_addr w else w in
      if o.auto_remove then (sys.shmctl_rmid o.shmid w').0 else w'

  -- `Detach`, called again and again.
  unfoldable pub detach_times : ℕ → SysVShM → W → W × SysVShM
  detach_times zero o w = (w, o)
  detach_times (suc n) o w = let (w', o', r) = detach o w in detach_times n o' w'

-- The manual: `shmdt` of an address that is attached takes it off once; `attached` counts how often
-- an address is attached to the process, and removing a segment changes no attachment.
pub record IsAttaching {W : Type 0} (sys : SegmentCalls W) (attached : W → ℕ → ℕ) : Type 0 where
  pub detaches :
      (p : ℕ) (w : W) (n : ℕ)
      → attached w p ≡ suc n
      → ((sys.shmdt p w).1 ≡ true) × (attached (sys.shmdt p w).0 p ≡ n)
  pub removes : (id : ℕ) (w : W) (q : ℕ) → attached (sys.shmctl_rmid id w).0 q ≡ attached w q

module _ {W : Type 0} {sys : SegmentCalls W} {attached : W → ℕ → ℕ}
    (px : IsAttaching sys attached) where
  -- A detached object stays as it is, whatever its removal.
  destroy-none :
      (n q : ℕ) (o : SysVShM) (w : W)
      → o.p_shm_addr ≡ none
      → let (w', o') = detach_times sys n o w in
        attached (destroy_segment sys o' w') q ≡ attached w q
  unfolding detach_times
  destroy-none zero q o w e = removal o.auto_detach o.auto_remove o.p_shm_addr e
    where
      removal :
          (d r : Bool) (a : Option ℕ)
          → a ≡ none
          → attached
              (let w' = if d then let_go sys a w else w in
                if r then (sys.shmctl_rmid o.shmid w').0 else w')
              q
            ≡ attached w q
      removal true true none h = px.removes o.shmid w q
      removal false true none h = px.removes o.shmid w q
      removal true false none h = refl
      removal false false none h = refl
      removal d r (some p) h = absurd (cc)
  destroy-none (suc n) q o w e =
      let step : detach_times sys (suc n) o w
          ≡ detach_times sys n (record o { p_shm_addr = none }) w =
        ap (λ a. let (w', o', r) = detach_from sys a o w in detach_times sys n o' w') e in
      ap (λ x. attached (destroy_segment sys x.1 x.0) q) step
      ∙ destroy-none n q (record o { p_shm_addr = none }) w refl

  -- However often `Detach` is called on an object that is attached, and that detaches itself, its
  -- destruction leaves its address attached once less than it was.
  pub destroy_segment-detaches :
      (n p k : ℕ) (o : SysVShM) (w : W)
      → o.p_shm_addr ≡ some p
      → o.auto_detach ≡ true
      → attached w p ≡ suc k
      → let (w', o') = detach_times sys n o w in attached (destroy_segment sys o' w') p ≡ k
  unfolding detach_times
  destroy_segment-detaches zero p k o w e d h =
      ap (λ a. attached (destroy_segment sys (record o { p_shm_addr = a }) w) p) e
      ∙ ap
          (λ b.
            attached (destroy_segment sys (record o { p_shm_addr = some p; auto_detach = b }) w) p)
          d
      ∙ removal o.auto_remove
    where
      removal :
          (r : Bool)
          → attached
              (if r then (sys.shmctl_rmid o.shmid (sys.shmdt p w).0).0 else (sys.shmdt p w).0)
              p
            ≡ k
      removal true = px.removes o.shmid (sys.shmdt p w).0 p ∙ (px.detaches p w k h).1
      removal false = (px.detaches p w k h).1
  destroy_segment-detaches (suc n) p k o w e d h =
      let j = px.detaches p w k h in
      let o' = record o { p_shm_addr = none } in
      let step : detach_times sys (suc n) o w ≡ detach_times sys n o' (sys.shmdt p w).0 =
        ap (λ a. let (w', o', r) = detach_from sys a o w in detach_times sys n o' w') e
        ∙ ap
            (λ b.
              let (w', o', r) = detached sys o ((sys.shmdt p w).0, b) in detach_times sys n o' w')
            j.0 in
      ap (λ x. attached (destroy_segment sys x.1 x.0) p) step
      ∙ destroy-none n p o' (sys.shmdt p w).0 refl
      ∙ j.1
