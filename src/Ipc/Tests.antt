-- ===== src/Ipc/Tests.antt =====
-- Systems that meet the laws of the parts of this folder, and the theorems on them.
use cppfastdevelop.Prelude.{
  ℕ, suc, ◌-◌, ◌≤◌, ◌≡◌, refl, ap, ◌∙◌, Bool, true, false, Option, none, some, List, [], ◌∷◌, ◌++◌,
  length, take, drop, ltb, leb, ◌&&◌, ◌+◌, if◌then◌else◌, arith,
}
use cppfastdevelop.Ipc.SharedMemory.{returned}
use cppfastdevelop.Ipc.SysvMemory.{
  SegmentCalls, SysVShM, IsAttaching, destroy_segment, detach_times, destroy_segment-detaches,
}
use cppfastdevelop.Ipc.SysvQueue.{
  Message, QueueCalls, SysVMsgQ, IsQueue, load, send_all, recv_all, recv_all-send_all,
}

-- One address, attached as often as the number says.
abbrev segments : SegmentCalls ℕ
segments = record {
  shmget = λ key size flag w. (w, some key);
  shmat = λ id w. (suc w, some 64);
  shmdt = λ p w. (w - 1, ltb 0 w);
  shmctl_rmid = λ id w. (w, true);
}

segments-IsAttaching : IsAttaching segments (λ w p. w)
segments-IsAttaching = record {
  detaches = λ p w n e. (ground (arith, e), omega (arith, e));
  removes = λ id w q. refl;
}

abbrev segment : SysVShM
segment = record {
  key = 1;
  shmid = 1;
  p_shm_addr = some 64;
  auto_remove = true;
  auto_detach = true;
}

destroy_segment-detaches_example :
    let (w', o') = detach_times segments 2 segment 3 in
    ◌≡◌ {A = ℕ} (destroy_segment segments o' w') 2
destroy_segment-detaches_example =
    destroy_segment-detaches segments-IsAttaching 2 64 2 segment 3 refl refl refl

-- A queue of 16384 bytes with a limit of 8192 for a message; a type is positive if one of its bytes is.
abbrev any_positive : List ℕ → Bool
any_positive [] = false
any_positive (b ∷ bs) = if ltb 0 b then true else any_positive bs

abbrev accepted : List ℕ → ℕ → List Message → List Message × Bool
accepted buf size w =
    if leb size 8192 && leb (load w + suc size) 16384
    then (w ++ record { kind = take 8 buf; text = take size (drop 8 buf) } ∷ [], true)
    else (w, false)

abbrev taken : ℕ → List Message → List Message × Option Message
taken size [] = ([], none)
taken size (m ∷ ms) = if leb (length m.text) size then (ms, some m) else (m ∷ ms, none)

abbrev queues : QueueCalls (List Message)
queues = record {
  ftok = λ name w. some 1;
  msgget = λ key flag w. (w, some key);
  msgsnd = λ id buf size wait w. accepted buf size w;
  msgrcv = λ id size type wait w. taken size w;
  msgctl_rmid = λ id w. ([], true);
}

taken_front :
    (size : ℕ) (m : Message) (ms : List Message)
    → length m.text ≤ size
    → taken size (m ∷ ms) ≡ (ms, some m)
taken_front size m ms h = ground arith

takes :
    (size : ℕ) (m : Message) (ms w : List Message)
    → w ≡ m ∷ ms
    → length m.text ≤ size
    → taken size w ≡ (ms, some m)
takes size m ms w e h = ap (taken size) e ∙ taken_front size m ms h

queues-IsQueue : IsQueue queues 1 8192 16384 any_positive (λ w. w)
queues-IsQueue = record {
  sends = λ buf size w a b p room. (ground arith, ground arith);
  refuses = λ buf size w a. (ground arith, ground arith);
  receives = λ size m ms w e h.
      (ap (λ x. x.1) (takes size m ms w e h), ap (λ x. x.0) (takes size m ms w e h));
}

abbrev queue : SysVMsgQ
queue = record { msg_id = 1; name = b'q' ∷ []; key = 1; auto_remove = false }

abbrev two_buffers : List (List ℕ)
two_buffers =
    (1 ∷ 0 ∷ 0 ∷ 0 ∷ 0 ∷ 0 ∷ 0 ∷ 0 ∷ 7 ∷ 8 ∷ []) ∷ (2 ∷ 0 ∷ 0 ∷ 0 ∷ 0 ∷ 0 ∷ 0 ∷ 0 ∷ []) ∷ []

recv_all-send_all_example :
    let (w', r) = send_all queues queue two_buffers [] in
    (r ≡ returned tt) × ((recv_all queues queue 16 2 w').1 ≡ returned two_buffers)
recv_all-send_all_example =
    recv_all-send_all queue queues-IsQueue (omega arith) two_buffers 16 [] refl
      (omega arith, omega arith, refl, (omega arith, omega arith, refl, tt)) (omega arith)
      (omega arith) (omega arith)
