-- ===== src/Ipc/SysvQueue.antt =====
-- `SysVMsgQ` of cf_ipc.cpp: a System V message queue. A buffer is the 8 bytes of a `long`, the type
-- of the message, and its text behind them.
use cppfastdevelop.Prelude.{
  ℕ, zero, suc, ◌+◌, ◌-◌, ◌^◌, ◌<◌, ◌≤◌, ◌≡◌, refl, sym, ap, ◌∙◌, Bool, true, false, Option, none,
  some, List, [], ◌∷◌, ◌++◌, length, take, drop, take-append-drop, length-drop, take_all,
  append-nil, append_assoc, sub64, if◌then◌else◌, arith,
}
use cppfastdevelop.Ipc.SharedMemory.{Outcome, returned, threw, syscall_execute_error}

-- `sizeof(cf_long)`.
abbrev pub long_size : ℕ
long_size = 8

-- A message: the bytes of its type, and its text.
pub record Message : Type 0 where
  pub kind : List ℕ
  pub text : List ℕ

-- `ftok` gives the key of a name, and `msgget` the number of the queue of a key, or none for -1.
-- `msgsnd` takes a buffer, a size and whether it is to wait, `msgrcv` a size, a type and that: it
-- gives the message, or none for -1.
pub record QueueCalls (W : Type 0) : Type 0 where
  pub ftok : List ℕ → W → Option ℕ
  pub msgget : ℕ → ℕ → W → W × Option ℕ
  pub msgsnd : ℕ → List ℕ → ℕ → Bool → W → W × Bool
  pub msgrcv : ℕ → ℕ → ℕ → Bool → W → W × Option Message
  pub msgctl_rmid : ℕ → W → W × Bool

pub record SysVMsgQ : Type 0 where
  pub msg_id : ℕ
  pub name : List ℕ
  pub key : ℕ
  pub auto_remove : Bool

module _ {W : Type 0} (sys : QueueCalls W) where
  abbrev pub after_msgget : List ℕ → ℕ → Bool → W × Option ℕ → W × Outcome SysVMsgQ
  after_msgget name key auto_remove (w, none) = (w, threw syscall_execute_error)
  after_msgget name key auto_remove (w, some id) =
      (w, returned (record { msg_id = id; name = name; key = key; auto_remove = auto_remove }))

  abbrev pub after_ftok : List ℕ → ℕ → Bool → W → Option ℕ → W × Outcome SysVMsgQ
  after_ftok name flag auto_remove w none = (w, threw syscall_execute_error)
  after_ftok name flag auto_remove w (some key) =
      after_msgget name key auto_remove (sys.msgget key flag w)

  -- `SysVMsgQ(name, flag, autoRemove)`.
  abbrev pub make_queue : List ℕ → ℕ → Bool → W → W × Outcome SysVMsgQ
  make_queue name flag auto_remove w = after_ftok name flag auto_remove w (sys.ftok name w)

  abbrev pub destroy_queue : SysVMsgQ → W → W
  destroy_queue q w = if q.auto_remove then (sys.msgctl_rmid q.msg_id w).0 else w

  abbrev pub sent : W × Bool → W × Outcome (Unit {0})
  sent (w, true) = (w, returned tt)
  sent (w, false) = (w, threw syscall_execute_error)

  -- `Send` and `TrySend` of the first `len` bytes of a buffer: `len-sizeof(cf_long)` is a `size_t`.
  abbrev pub send_queue : SysVMsgQ → List ℕ → ℕ → W → W × Outcome (Unit {0})
  send_queue q buf len w = sent (sys.msgsnd q.msg_id buf (sub64 len long_size) true w)

  abbrev pub try_send_queue : SysVMsgQ → List ℕ → ℕ → W → W × Outcome (Unit {0})
  try_send_queue q buf len w = sent (sys.msgsnd q.msg_id buf (sub64 len long_size) false w)

  -- What the buffer holds then, and the count that is returned.
  abbrev pub received : W × Option Message → W × Outcome (List ℕ × ℕ)
  received (w, none) = (w, threw syscall_execute_error)
  received (w, some m) = (w, returned (m.kind ++ m.text, length m.text))

  abbrev pub recv_queue : SysVMsgQ → ℕ → ℕ → W → W × Outcome (List ℕ × ℕ)
  recv_queue q len type w = received (sys.msgrcv q.msg_id (sub64 len long_size) type true w)

  abbrev pub try_recv_queue : SysVMsgQ → ℕ → ℕ → W → W × Outcome (List ℕ × ℕ)
  try_recv_queue q len type w = received (sys.msgrcv q.msg_id (sub64 len long_size) type false w)

  -- Buffers sent one after the other, until one throws.
  abbrev pub sent_each :
      (W → W × Outcome (Unit {0})) → W × Outcome (Unit {0}) → W × Outcome (Unit {0})
  sent_each next (w, returned u) = next w
  sent_each next (w, threw e) = (w, threw e)

  unfoldable pub send_all : SysVMsgQ → List (List ℕ) → W → W × Outcome (Unit {0})
  send_all q [] w = (w, returned tt)
  send_all q (buf ∷ bufs) w = sent_each (send_all q bufs) (send_queue q buf (length buf) w)

  abbrev pub consed : List ℕ → W × Outcome (List (List ℕ)) → W × Outcome (List (List ℕ))
  consed buf (w, returned bufs) = (w, returned (buf ∷ bufs))
  consed buf (w, threw e) = (w, threw e)

  -- And received, each into a buffer of `len` bytes.
  abbrev pub received_each :
      (W → W × Outcome (List (List ℕ))) → W × Outcome (List ℕ × ℕ) → W × Outcome (List (List ℕ))
  received_each next (w, threw e) = (w, threw e)
  received_each next (w, returned (buf, n)) = consed buf (next w)

  unfoldable pub recv_all : SysVMsgQ → ℕ → ℕ → W → W × Outcome (List (List ℕ))
  recv_all q len zero w = (w, returned [])
  recv_all q len (suc n) w = received_each (recv_all q len n) (recv_queue q len 0 w)

abbrev pub message : List ℕ → Message
message buf = record { kind = take long_size buf; text = drop long_size buf }

abbrev pub messages : List (List ℕ) → List Message
messages [] = []
messages (buf ∷ bufs) = message buf ∷ messages bufs

-- The room that messages take, with one byte more for each than its text has: a queue that holds
-- `capacity` bytes holds at most as many messages too.
abbrev pub load : List Message → ℕ
load [] = 0
load (m ∷ ms) = suc (length m.text) + load ms

-- The manual, for the messages that wait in the queue `id`: a message up to the system's limit is put
-- behind them if the queue has room for it, a larger one is refused, and a message of any type is taken from the front if it fits
-- the size. `positive` says how the machine reads a `long`: a type has to be positive.
pub record IsQueue {W : Type 0} (sys : QueueCalls W) (id limit capacity : ℕ)
    (positive : List ℕ → Bool) (waiting : W → List Message) : Type 0 where
  pub sends :
      (buf : List ℕ) (size : ℕ) (w : W)
      → size ≤ limit
      → size ≤ length (drop long_size buf)
      → positive (take long_size buf) ≡ true
      → load (waiting w) + suc size ≤ capacity
      → ((sys.msgsnd id buf size true w).1 ≡ true)
        × (waiting (sys.msgsnd id buf size true w).0
            ≡ waiting w
              ++ record { kind = take long_size buf; text = take size (drop long_size buf) } ∷ [])
  pub refuses :
      (buf : List ℕ) (size : ℕ) (w : W)
      → limit < size
      → ((sys.msgsnd id buf size true w).1 ≡ false)
        × (waiting (sys.msgsnd id buf size true w).0 ≡ waiting w)
  pub receives :
      (size : ℕ) (m : Message) (ms : List Message) (w : W)
      → waiting w ≡ m ∷ ms
      → length m.text ≤ size
      → ((sys.msgrcv id size 0 true w).1 ≡ some m) × (waiting (sys.msgrcv id size 0 true w).0 ≡ ms)

-- Buffers of a positive type and a text, no longer than `len`.
abbrev pub Fit : (List ℕ → Bool) → ℕ → List (List ℕ) → Type 0
Fit positive len [] = Unit {0}
Fit positive len (buf ∷ bufs) =
    (long_size ≤ length buf)
    × (length buf ≤ len)
    × (positive (take long_size buf) ≡ true)
    × Fit positive len bufs

load-append : (xs ys : List Message) → load (xs ++ ys) ≡ load xs + load ys
load-append [] ys = omega arith
load-append (m ∷ xs) ys = omega (arith, load-append xs ys)

module _ {W : Type 0} {sys : QueueCalls W} {limit capacity : ℕ} {positive : List ℕ → Bool}
    {waiting : W → List Message} (q : SysVMsgQ)
    (px : IsQueue sys q.msg_id limit capacity positive waiting)
    (small : limit + long_size < 2 ^ 63) where
  sends_one :
      (buf : List ℕ) (len : ℕ) (w : W)
      → long_size ≤ length buf
      → length buf ≤ len
      → len ≤ limit + long_size
      → positive (take long_size buf) ≡ true
      → load (waiting w) + load (message buf ∷ []) ≤ capacity
      → (send_queue sys q buf (length buf) w
          ≡ ((sys.msgsnd q.msg_id buf (length buf - long_size) true w).0, returned tt))
        × (waiting (sys.msgsnd q.msg_id buf (length buf - long_size) true w).0
            ≡ waiting w ++ message buf ∷ [])
  sends_one buf len w a b c p room =
      let n = length buf - long_size in
      let z : sub64 (length buf) long_size ≡ n = omega arith in
      let d = length-drop long_size buf in
      let s = px.sends buf n w (omega arith) (omega (arith, d)) p (omega (arith, d, room)) in
      let t : take n (drop long_size buf) ≡ drop long_size buf =
        take_all n (drop long_size buf) (omega (arith, d)) in
      (
        rw z (ap (λ r. sent sys ((sys.msgsnd q.msg_id buf n true w).0, r)) s.0),
        s.1 ∙ ap (λ x. waiting w ++ record { kind = take long_size buf; text = x } ∷ []) t,
      )

  sends_all :
      (bufs : List (List ℕ)) (len : ℕ) (w : W)
      → Fit positive len bufs
      → len ≤ limit + long_size
      → load (waiting w) + load (messages bufs) ≤ capacity
      → ((send_all sys q bufs w).1 ≡ returned tt)
        × (waiting (send_all sys q bufs w).0 ≡ waiting w ++ messages bufs)
  unfolding send_all
  sends_all [] len w f c room = (refl, sym (append-nil (waiting w)))
  sends_all (buf ∷ bufs) len w f c room =
      let s = sends_one buf len w f.0 f.1 c f.2 (omega arith) in
      let w' = (sys.msgsnd q.msg_id buf (length buf - long_size) true w).0 in
      let step : send_all sys q (buf ∷ bufs) w ≡ send_all sys q bufs w' =
        ap (sent_each sys (send_all sys q bufs)) s.0 in
      let grown : load (waiting w') ≡ load (waiting w) + load (message buf ∷ []) =
        ap load s.1 ∙ load-append (waiting w) (message buf ∷ []) in
      let rest = sends_all bufs len w' f.3 c (omega (arith, grown, room)) in
      (
        ap (λ x. x.1) step ∙ rest.0,
        ap (λ x. waiting x.0) step
            ∙ rest.1
            ∙ ap (λ ms. ms ++ messages bufs) s.1
            ∙ append_assoc (waiting w) (message buf ∷ []) (messages bufs),
      )

  recvs_all :
      (bufs : List (List ℕ)) (len : ℕ) (w : W)
      → Fit positive len bufs
      → long_size ≤ len
      → len < 2 ^ 63
      → waiting w ≡ messages bufs
      → (recv_all sys q len (length bufs) w).1 ≡ returned bufs
  unfolding recv_all
  recvs_all [] len w f a b e = refl
  recvs_all (buf ∷ bufs) len w f a b e =
      let n = len - long_size in
      let z : sub64 len long_size ≡ n = omega arith in
      let d = length-drop long_size buf in
      let r = px.receives n (message buf) (messages bufs) w e (omega (arith, d, f.1)) in
      let w' = (sys.msgrcv q.msg_id n 0 true w).0 in
      let step : received sys (sys.msgrcv q.msg_id (sub64 len long_size) 0 true w)
          ≡ (w', returned (buf, length (drop long_size buf))) =
        ap (λ k. received sys (sys.msgrcv q.msg_id k 0 true w)) z
        ∙ ap (λ x. received sys (w', x)) r.0
        ∙ ap (λ x. (w', returned (x, length (drop long_size buf))))
            (take-append-drop long_size buf) in
      ap (λ x. (received_each sys (recv_all sys q len (length bufs)) x).1) step
      ∙ ap (λ x. (consed sys buf ((recv_all sys q len (length bufs) w').0, x)).1)
          (recvs_all bufs len w' f.3 a b r.1)

  -- Buffers of a positive type and a text, sent to an empty queue that has room for them all, whose
  -- texts the system's limit allows, are all sent, and all come back byte for byte and in order, as
  -- many receives as there are buffers later, if each receive has room for the longest.
  pub recv_all-send_all :
      (bufs : List (List ℕ)) (len : ℕ) (w : W)
      → waiting w ≡ []
      → Fit positive len bufs
      → long_size ≤ len
      → len ≤ limit + long_size
      → load (messages bufs) ≤ capacity
      → let (w', r) = send_all sys q bufs w in
        (r ≡ returned tt) × ((recv_all sys q len (length bufs) w').1 ≡ returned bufs)
  recv_all-send_all bufs len w e f a c room =
      let s = sends_all bufs len w f c (omega (arith, ap load e, room)) in
      (
        s.0,
        recvs_all bufs len (send_all sys q bufs w).0 f a (omega (arith, c, small))
            (s.1 ∙ ap (λ ms. ms ++ messages bufs) e),
      )

  -- A buffer with no room for a type is sent with a size near 2^64, and only the limit of the system
  -- makes the call throw.
  send_queue_short :
      (buf : List ℕ) (w : W)
      → length buf < long_size
      → (send_queue sys q buf (length buf) w).1 ≡ threw syscall_execute_error
  send_queue_short buf w h =
      let z : limit < sub64 (length buf) long_size = omega arith in
      ap (λ r. (sent sys ((sys.msgsnd q.msg_id buf (sub64 (length buf) long_size) true w).0, r)).1)
        (px.refuses buf (sub64 (length buf) long_size) w z).0
