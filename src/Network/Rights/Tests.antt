-- ===== src/Network/Rights/Tests.antt =====
-- A channel that holds the last message that was sent, from a sender that has each descriptor open on
-- the file with its number and 100 more, to a receiver with a table of files.
use cppfastdevelop.Prelude.{
  ℕ, zero, suc, ◌+◌, ◌≡◌, refl, sym, ap, ◌∙◌, Bool, true, false, Option, none, some, List, [], ◌∷◌,
  ◌++◌, append_assoc, length, length-append, min, pos, negsuc, arith,
}
use cppfastdevelop.Network.Rights.{
  Calls, ControlMessage, RecvmsgEnd, nothing, got, returned, rights, send_fds, recv_fds,
}
use cppfastdevelop.Network.Rights.Passing.{SameFiles, IsChannel, Passes, recv_fds-send_fds}

-- The message and the number of its bytes, and the files of the receiver's descriptors from 0 on.
record World : Type 0 where
  message : Option (ControlMessage × ℕ)
  table : List ℕ

abbrev files_of : List ℕ → List ℕ
files_of [] = []
files_of (fd ∷ fds) = (fd + 100) ∷ files_of fds

-- As many descriptors, numbered from `k` on.
abbrev numbered : ℕ → List ℕ → List ℕ
numbered k [] = []
numbered k (fd ∷ fds) = k ∷ numbered (suc k) fds

abbrev entry : List ℕ → ℕ → Option ℕ
entry [] j = none
entry (f ∷ t) zero = some f
entry (f ∷ t) (suc j) = entry t j

abbrev received : ℕ → World → Option (ControlMessage × ℕ) → World × RecvmsgEnd
received bytes w none = (w, nothing (pos 0))
received bytes w (some (c, n)) =
    let new = numbered (length w.table) c.fds in
    (
      record { message = none; table = w.table ++ files_of c.fds },
      got (min n bytes) (some (record c { cmsg_len = length new + 4; fds = new })),
    )

abbrev channel : Calls World
channel = record {
  cmsg_len_of = λ n. n + 4;
  cmsg_space_of = λ n. n + 8;
  sendmsg = λ size c bs w. (record w { message = some (c, length bs) }, pos (length bs));
  recvmsg = λ size bytes w. received bytes w w.message;
}

entry-append : (t ys : List ℕ) (y : ℕ) → entry (t ++ y ∷ ys) (length t) ≡ some y
entry-append [] ys y = refl
entry-append (f ∷ t) ys y = entry-append t ys y

numbered-SameFiles :
    (t u fds : List ℕ) (k : ℕ)
    → u ≡ t ++ files_of fds
    → k ≡ length t
    → SameFiles (λ j. some (j + 100)) (entry u) fds (numbered k fds)
numbered-SameFiles t u [] k e l = tt
numbered-SameFiles t u (fd ∷ fds) k e l =
    let f = fd + 100 in
    (
      ap (entry u) l ∙ ap (λ x. entry x (length t)) e ∙ entry-append t (files_of fds) f,
      numbered-SameFiles (t ++ f ∷ []) u fds (suc k)
          (e ∙ sym (append_assoc t (f ∷ []) (files_of fds)))
          (omega (arith, l, length-append t (f ∷ []))),
    )

abbrev is_idle : Option (ControlMessage × ℕ) → Bool
is_idle none = true
is_idle (some m) = false

pos_inj : {m n : ℕ} → pos m ≡ pos n → m ≡ n
pos_inj e = cc

channel-IsChannel :
    IsChannel channel
      (λ w j. some (j + 100))
      (λ w. entry w.table)
      (λ w. 64)
      (λ w. is_idle w.message)
channel-IsChannel = record {
  space_grows = λ m n h. omega arith;
  passes = λ size room fds bs bytes n w s r z l v i e.
      let q : length bs ≡ n = pos_inj e in
      let m : min (length bs) bytes ≡ n = omega arith in
      let new = numbered (length w.table) fds in
      (
        new,
        ap (λ k. got k (some (rights channel new))) m,
        numbered-SameFiles w.table (w.table ++ files_of fds) fds (length w.table) refl refl,
      );
}

-- A receiver that has three descriptors open.
abbrev start : World
start = record { message = none; table = 1 ∷ 2 ∷ 3 ∷ [] }

sends_two : (send_fds channel (7 ∷ 8 ∷ []) (0 ∷ []) start).1 ≡ returned (pos 1)
sends_two = refl

-- A receiver that asks for another number of descriptors gets none of them.
expects_three :
    (recv_fds channel 3 (pos 0 ∷ []) 1 (send_fds channel (7 ∷ 8 ∷ []) (0 ∷ []) start).0).1
    ≡ returned (negsuc 0 ∷ [], pos 1)
expects_three = refl

recv_fds-send_fds_example :
    Passes channel-IsChannel
      (7 ∷ 8 ∷ [])
      (pos 0 ∷ pos 0 ∷ [])
      1
      start
      (recv_fds channel 2 (pos 0 ∷ pos 0 ∷ []) 1 (send_fds channel (7 ∷ 8 ∷ []) (0 ∷ []) start).0)
recv_fds-send_fds_example =
    recv_fds-send_fds channel-IsChannel (7 ∷ 8 ∷ []) (0 ∷ []) (pos 0 ∷ pos 0 ∷ []) 1 1 start
      (omega arith) (omega arith) (omega arith) (omega arith) refl sends_two
