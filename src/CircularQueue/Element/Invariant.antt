-- ===== src/CircularQueue/Element/Invariant.antt =====
-- What the region of cl_queue_operation.cpp holds: its messages, one behind the other round the
-- ring of `q_total_size` bytes, the oldest at the tail.
use cppfastdevelop.Prelude.{
  ℕ, ◌+◌, ◌^◌, ◌≤◌, ◌<◌, ◌≡◌, List, [], ◌∷◌, ◌++◌, length, ltb, ◌==◌, if◌then◌else◌, arith,
}
use cppfastdevelop.Memory.{Memory}
use cppfastdevelop.Memory.Ring.{advance, ring_load}
use cppfastdevelop.CircularQueue.Def.{
  WriteCase, case1, case2, case3, case4, case5, case_number, Shared, Layout,
}

-- The case of an element whose header stands at `p` and whose body has `size` bytes.
abbrev pub case_at : ℕ → ℕ → ℕ → ℕ → WriteCase
case_at total hs p size =
    if ltb (p + hs + size) total
    then case1
    else if total == p + hs + size
    then case2
    else if ltb total (p + hs)
    then case3
    else if total == p + hs
    then case5
    else case4

-- The bytes that a list of messages takes, headers included.
abbrev pub bytes : ℕ → List (List ℕ) → ℕ
bytes hs [] = 0
bytes hs (b ∷ bs) = (hs + length b) + bytes hs bs

pub bytes-append :
    (hs : ℕ) (xs : List (List ℕ)) (b : List ℕ)
    → bytes hs (xs ++ (b ∷ [])) ≡ bytes hs xs + (hs + length b)
bytes-append hs [] b = omega arith
bytes-append hs (x ∷ xs) b = omega (arith, bytes-append hs xs b)

pub length-le-bytes : (hs : ℕ) (bs : List (List ℕ)) → 0 < hs → length bs ≤ bytes hs bs
length-le-bytes hs [] h = omega arith
length-le-bytes hs (b ∷ bs) h = omega (arith, length-le-bytes hs bs h)

-- A message with its header stands at `p`.
pub record Element (l : Layout) (total : ℕ) (m : Memory) (p : ℕ) (b : List ℕ) : Type 0 where
  pub nonempty : 0 < length b
  pub time : ℕ
  pub time_word : time < 2 ^ 64
  pub header :
      ring_load total m p l.header_size
      ≡ l.encode (record {
        write_case = case_number (case_at total l.header_size p (length b));
        extention = (b'0', b'0', b'0');
        body_len = length b;
        operation_time = time;
      })
  pub body : ring_load total m (advance total p l.header_size) (length b) ≡ b

abbrev pub Elements : Layout → ℕ → Memory → ℕ → List (List ℕ) → Type 0
Elements l total m p [] = Unit {0}
Elements l total m p (b ∷ bs) =
    Element l total m p b × Elements l total m (advance total p (l.header_size + length b)) bs

-- The region `s` holds the messages `bs`, oldest first.
pub record Holds (l : Layout) (s : Shared) (bs : List (List ℕ)) : Type 0 where
  pub total_word : s.info.q_total_size < 2 ^ 63
  pub tail_in : s.info.tail_index < s.info.q_total_size
  pub space : s.info.q_left_size + bytes l.header_size bs ≡ s.info.q_total_size
  pub head :
      s.info.head_index ≡ advance s.info.q_total_size s.info.tail_index (bytes l.header_size bs)
  pub count : s.info.element_count ≡ length bs
  pub elements : Elements l s.info.q_total_size s.queue s.info.tail_index bs
