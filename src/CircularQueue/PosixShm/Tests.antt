-- ===== src/CircularQueue/PosixShm/Tests.antt =====
-- A system where the first code of a name is the number of its object, of a descriptor that is
-- opened, and of an address: a client polls what the creator has put. Flags from 512 on hold O_TRUNC,
-- which empties the object.
use cppfastdevelop.Prelude.{
  ℕ, ◌≡◌, refl, sym, ap, Bool, leb, true, false, none, some, List, [], ◌∷◌, ◌==◌, if◌then◌else◌,
  arith,
}
use cppfastdevelop.Ipc.SharedMemory.{ShmCalls}
use cppfastdevelop.CircularQueue.Def.{Shared}
use cppfastdevelop.CircularQueue.Transfer.Refine.{try_puts, try_gets, run_fifo}
use cppfastdevelop.CircularQueue.Tests.{
  x86_layout, x86_layout-IsLayout, empty_region, calls, zero_calls, zero_calls-AllZero,
}
use cppfastdevelop.CircularQueue.PosixShm.{RegionCalls, make_queue}
use cppfastdevelop.CircularQueue.PosixShm.Sharing.{
  Objects, IsPosix, Provides, Makes, Calling, calls_of, run_shared,
}
use cppfastdevelop.CircularQueue.PosixShm.Refine.{empty_fifo, shared_queue-refines}

record World : Type 0 where
  content : ℕ → Shared
  size : ℕ → ℕ

abbrev first : List ℕ → ℕ
first [] = 0
first (c ∷ cs) = c

abbrev at : {A : Type 0} → ℕ → A → (ℕ → A) → ℕ → A
at o a f p = if o == p then a else f p

abbrev emptied : ℕ → World → World
emptied o w = record { content = at o empty_region w.content; size = at o 0 w.size }

-- Flags without O_TRUNC open an object as it is.
abbrev truncating : ℕ → Bool
truncating flag = leb 512 flag

abbrev system : ShmCalls World
system = record {
  shm_open = λ n flag mode w. ((if leb 512 flag then emptied (first n) w else w), some (first n));
  ftruncate = λ fd len w. (record w { size = at fd len w.size }, true);
  mmap = λ len prot fd w. (w, some fd);
  shm_unlink = λ n w. (w, true);
  close = λ fd w. (w, true);
  fstat = λ fd w. (w, none);
}

abbrev memory : RegionCalls World
memory = record {
  region = λ a w. w.content a;
  put_region = λ a s w. record w { content = at a s w.content };
}

abbrev objects : Objects World
objects = record {
  bound = λ w n. some (first n);
  opened = λ w fd. some fd;
  object = λ w a. some a;
  size = λ w o. w.size o;
  content = λ w o. w.content o;
}

some_inj : {a b : ℕ} → some a ≡ some b → a ≡ b
some_inj e = cc

at_self : {A : Type 0} (a o : ℕ) (x : A) (f : ℕ → A) → a ≡ o → at a x f o ≡ x
at_self a o x f h = ground arith

system-IsPosix : IsPosix system memory objects truncating 3
system-IsPosix = record {
  open_binds = λ n flag mode w fd e. (first n, refl, ap some (sym (some_inj e)));
  open_bound = λ n flag mode w o e t. (e, ground (arith, t), ground (arith, t));
  open_stays = λ n flag mode w a o e. e;
  truncate_size = λ fd len w o e t. at_self fd o len w.size (some_inj e);
  truncate_same = λ fd len w o e z. refl;
  truncate_opened = λ fd len w fd'. refl;
  truncate_bound = λ fd len w n. refl;
  truncate_object = λ fd len w a. refl;
  mmap_maps = λ len fd w a e. ap some (sym (some_inj e));
  mmap_stays = λ len prot fd w a o e. e;
  mmap_keeps = λ len prot fd w n o. (refl, refl, refl);
  reads = λ a o w e. ap w.content (some_inj e);
  writes = λ a o s w e. at_self a o s w.content (some_inj e);
  write_keeps = λ a s w n b o. (refl, refl, refl);
}

provided : (m flag mode : ℕ) (w : World) → Provides system (b'q' ∷ []) m flag 3 mode w
provided m flag mode w = record {
  fd = b'q';
  opens = refl;
  truncates = refl;
  address = b'q';
  maps = refl;
}

-- The creator puts, the client gets twice.
abbrev script : List Calling
script =
    (true, try_puts calls (7 ∷ 8 ∷ [])) ∷ (false, try_gets calls) ∷ (false, try_gets calls) ∷ []

abbrev queue_name : List ℕ
queue_name = b'q' ∷ []

abbrev start : World
start = record { content = λ o. empty_region; size = λ o. 0 }

shared_queue-refines_example :
    Makes
      (λ q w'.
        Makes
          (λ r w''.
            run_shared system memory x86_layout q r script w''
            ≡ run_fifo x86_layout.header_size (calls_of script) (empty_fifo x86_layout 1024))
          (make_queue system memory x86_layout queue_name false 1024 2 3 420 zero_calls zero_calls
            w'))
      (make_queue system memory x86_layout queue_name true 1024 66 3 420 zero_calls zero_calls
        start)
shared_queue-refines_example =
    shared_queue-refines system-IsPosix x86_layout-IsLayout queue_name 1024 (omega arith)
      (omega arith) 420 zero_calls zero_calls 66 2 start script (provided 1024 66 420 start)
      (provided 1024 2 420
        (make_queue system memory x86_layout queue_name true 1024 66 3 420 zero_calls zero_calls
          start).0)
      refl zero_calls-AllZero zero_calls-AllZero (omega arith)
