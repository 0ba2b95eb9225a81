-- ===== src/Threads.antt =====
-- `Thread` and `ThreadPool` of cppfoundation/src/class/cf_thread.cpp, over the calls of pthread,
-- which are parameters.
pub mod Live
pub mod Pool
mod Tests
use cppfastdevelop.Prelude.{
  ℕ, zero, suc, ◌+◌, Bool, true, false, not, ◌&&◌, Option, none, some, List, [], ◌∷◌, if◌then◌else◌,
}

-- A call returns, or throws `SyscallExecuteError`.
pub data Outcome : Type 0 where
  returned threw : Outcome

-- The attribute object is part of the world; `pthread_create` gives the new thread, and the others
-- 0 or an error, here as a Boolean.
pub record ThreadCalls (W : Type 0) : Type 0 where
  pub attr_init : W → W × Bool
  pub attr_setstacksize : ℕ → W → W × Bool
  pub create : ℕ → W → W × Option ℕ
  pub join : ℕ → W → W × Bool
  pub detach : ℕ → W → W × Bool

-- `threaddefs::ThreadStatus`.
pub data ThreadStatus : Type 0 where
  status_new status_unblocked status_blocked status_willexit status_exit : ThreadStatus

pub record Thread : Type 0 where
  pub status : ThreadStatus
  pub id : ℕ
  pub tid : ℕ

-- A task: what is run before and after `Run`, and `Run` with what it returns.
pub record Runnable (W : Type 0) : Type 0 where
  pub initialize : W → W
  pub run : W → W × ℕ
  pub finalize : W → W

-- `ThreadProc`, on the task of its thread.
abbrev pub thread_proc : {W : Type 0} → Runnable W → W → W × ℕ
thread_proc task w = let (w', ret) = task.run (task.initialize w) in (task.finalize w', ret)

abbrev pub checked : {W : Type 0} → W × Bool → W × Outcome
checked (w, true) = (w, returned)
checked (w, false) = (w, threw)

module _ {W : Type 0} (sys : ThreadCalls W) where
  abbrev pub attributed : Thread → W × Bool → W × Option Thread
  attributed t (w, true) = (w, some t)
  attributed t (w, false) = (w, none)

  -- The constructor, whose task is not null; it gives none where it throws.
  abbrev pub make_thread : ℕ → W → W × Option Thread
  make_thread id w = attributed (record { status = status_new; id = id; tid = 0 }) (sys.attr_init w)

  abbrev pub set_stack_size : ℕ → W → W × Outcome
  set_stack_size size w = checked (sys.attr_setstacksize size w)

  abbrev pub created : Thread → W × Option ℕ → W × Thread × Outcome
  created t (w, none) = (w, t, threw)
  created t (w, some tid) = (w, record t { tid = tid; status = status_unblocked }, returned)

  abbrev pub start_thread : Thread → W → W × Thread × Outcome
  start_thread t w = created t (sys.create t.id w)

  abbrev pub join_thread : Thread → W → W × Outcome
  join_thread t w = checked (sys.join t.tid w)

  abbrev pub detach_thread : Thread → W → W × Outcome
  detach_thread t w = checked (sys.detach t.tid w)

pub record ThreadPool : Type 0 where
  pub pool_size : ℕ
  pub stacksize : ℕ
  pub joinable : Bool
  pub joined : Bool
  pub threads : List Thread

module _ {W : Type 0} (sys : ThreadCalls W) where
  abbrev pub pushed : (W → W × Option (List Thread)) → W × Option Thread → W × Option (List Thread)
  pushed next (w, none) = (w, none)
  pushed next (w, some t) =
      let (w', ts) = next w in (w', elim ts [ none ↦ none | some us ↦ some (t ∷ us) ])

  -- The loop of the constructor, with `left` threads to make, the first of them the `i`-th.
  unfoldable pub make_threads : ℕ → ℕ → W → W × Option (List Thread)
  make_threads zero i w = (w, some [])
  make_threads (suc left) i w = pushed (make_threads left (i + 1)) (make_thread sys i w)

  abbrev pub pool_of : ℕ → ℕ → Bool → W × Option (List Thread) → W × Option ThreadPool
  pool_of size stack joinable (w, none) = (w, none)
  pool_of size stack joinable (w, some ts) = (
    w,
    some (record {
      pool_size = size;
      stacksize = stack;
      joinable = joinable;
      joined = false;
      threads = ts;
    }),
  )

  abbrev pub make_pool : ℕ → ℕ → Bool → W → W × Option ThreadPool
  make_pool size stack joinable w = pool_of size stack joinable (make_threads size 0 w)

  -- One round of `Start`: the stack size, `Detach` of a thread that is not to be joined, `Start`.
  abbrev pub after_detach : Thread → W × Outcome → W × Thread × Outcome
  after_detach t (w, returned) = start_thread sys t w
  after_detach t (w, threw) = (w, t, threw)

  abbrev pub after_stack : Bool → Thread → W × Outcome → W × Thread × Outcome
  after_stack joinable t (w, returned) =
      after_detach t (if joinable then (w, returned) else detach_thread sys t w)
  after_stack joinable t (w, threw) = (w, t, threw)

  abbrev pub start_one : ℕ → Bool → Thread → W → W × Thread × Outcome
  start_one stack joinable t w = after_stack joinable t (set_stack_size sys stack w)

  abbrev pub started :
      List Thread
      → (W → W × List Thread × Outcome)
      → W × Thread × Outcome
      → W × List Thread × Outcome
  started ts next (w, t, returned) = let (w', us, r) = next w in (w', t ∷ us, r)
  started ts next (w, t, threw) = (w, t ∷ ts, threw)

  unfoldable pub start_each : ℕ → Bool → List Thread → W → W × List Thread × Outcome
  start_each stack joinable [] w = (w, [], returned)
  start_each stack joinable (t ∷ ts) w =
      started ts (start_each stack joinable ts) (start_one stack joinable t w)

  abbrev pub start_pool : ThreadPool → W → W × ThreadPool × Outcome
  start_pool p w =
      let (w', ts, r) = start_each p.stacksize p.joinable p.threads w in
      (w', record p { threads = ts }, r)

  abbrev pub joined_one : (W → W × Outcome) → W × Outcome → W × Outcome
  joined_one next (w, returned) = next w
  joined_one next (w, threw) = (w, threw)

  unfoldable pub join_each : List Thread → W → W × Outcome
  join_each [] w = (w, returned)
  join_each (t ∷ ts) w = joined_one (join_each ts) (join_thread sys t w)

  abbrev pub joins_ended : ThreadPool → W × Outcome → W × ThreadPool × Outcome
  joins_ended p (w, returned) = (w, record p { joined = true }, returned)
  joins_ended p (w, threw) = (w, p, threw)

  -- `Join`.
  abbrev pub join_pool : ThreadPool → W → W × ThreadPool × Outcome
  join_pool p w =
      if p.joinable && not p.joined then joins_ended p (join_each p.threads w) else (w, p, returned)
