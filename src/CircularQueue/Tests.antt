-- ===== src/CircularQueue/Tests.antt =====
-- A layout that meets `IsLayout`, that of x86-64 for the header, runs of the queue, and each
-- theorem at an input of its own.
use cppfastdevelop.Prelude.{
  ℕ, zero, suc, ◌+◌, ◌*◌, ◌/◌, ◌%◌, ◌^◌, ◌<◌, ◌≡◌, refl, true, List, [], ◌∷◌, ◌++◌, take, drop,
  arith, negsuc, pos,
}
use cppfastdevelop.Memory.{store, load}
use cppfastdevelop.CircularQueue.Def.{
  Layout, IsLayout, Context, Shared, normal, stop2put_and_get, ok, throw, queue_full,
  size_too_small,
}
use cppfastdevelop.CircularQueue.Meta.{SetupCalls, make_meta}
use cppfastdevelop.CircularQueue.Element.{
  queue_scene, queue_write_case, write_element, write_wrapping, write_before_tail, finish_write,
  read_element, read_before_head, read_by_case, read_whole, read_split_header, read_split_body,
  read_body_at_start, finish_read, write, read,
}
use cppfastdevelop.CircularQueue.Element.Invariant.{Holds}
use cppfastdevelop.CircularQueue.Element.Write.{appended, write-appended}
use cppfastdevelop.CircularQueue.Element.Append.{appended-Holds}
use cppfastdevelop.CircularQueue.Element.Read.{removed, read-removed}
use cppfastdevelop.CircularQueue.Transfer.{
  Calls, Wake, signalled, waiting, try_put, try_get, put_element, get_element, timed_put, timed_get,
  put,
}
use cppfastdevelop.CircularQueue.Transfer.Spec.{Fifo}
use cppfastdevelop.CircularQueue.Transfer.Refine.{
  Represents, Op, try_puts, try_gets, Reply, put_reply, get_reply, run, run_fifo, run_refines,
}
use cppfastdevelop.CircularQueue.Transfer.Waits.{
  Found, PutKeeps, GetKeeps, timed_put-keeps, timed_get-keeps,
}
use cppfastdevelop.CircularQueue.Transfer.Stop.{put_deaf_to_stop}
use cppfastdevelop.CircularQueue.Create.{
  AllZero, make_meta-Represents, make_meta_too_small, write_in_bounds,
}

abbrev word_bytes : ℕ → List ℕ
word_bytes n =
    n % 256
    ∷ n / 2 ^ 8 % 256
    ∷ n / 2 ^ 16 % 256
    ∷ n / 2 ^ 24 % 256
    ∷ n / 2 ^ 32 % 256
    ∷ n / 2 ^ 40 % 256
    ∷ n / 2 ^ 48 % 256
    ∷ n / 2 ^ 56 % 256
    ∷ []

abbrev from_bytes : List ℕ → ℕ
from_bytes [] = 0
from_bytes (b ∷ bs) = b + 256 * from_bytes bs

from_bytes-word_bytes : (n : ℕ) → n < 2 ^ 64 → from_bytes (word_bytes n) ≡ n
from_bytes-word_bytes n h = omega arith

abbrev byte_at : List ℕ → ℕ → ℕ
byte_at [] i = 0
byte_at (b ∷ bs) zero = b
byte_at (b ∷ bs) (suc i) = byte_at bs i

abbrev pub x86_layout : Layout
x86_layout = record {
  meta_size = 184;
  header_size = 24;
  encode = λ h.
      h.write_case
      ∷ h.extention.0
      ∷ h.extention.1
      ∷ h.extention.2
      ∷ 0
      ∷ 0
      ∷ 0
      ∷ 0
      ∷ (word_bytes h.body_len ++ word_bytes h.operation_time);
  decode = λ bs. record {
    write_case = byte_at bs 0;
    extention = (byte_at bs 1, byte_at bs 2, byte_at bs 3);
    body_len = from_bytes (take 8 (drop 8 bs));
    operation_time = from_bytes (take 8 (drop 16 bs));
  };
}

pub x86_layout-IsLayout : IsLayout x86_layout
x86_layout-IsLayout = record {
  sizes_word = omega arith;
  header_pos = omega arith;
  length-encode = λ h. refl;
  decode-encode = λ h v i. record {
    write_case = h.write_case;
    extention = h.extention;
    body_len = from_bytes-word_bytes h.body_len v.body_len_word i;
    operation_time = from_bytes-word_bytes h.operation_time v.time_word i;
  };
  encode-head = λ h. (_, refl);
}

-- A region of 64 bytes whose indices stand at 50, so that the first element wraps.
abbrev pub empty_region : Shared
empty_region = record {
  info = record {
    magic = [];
    version = [];
    q_total_size = 64;
    q_left_size = 64;
    element_count = 0;
    head_index = 50;
    tail_index = 50;
    serial_no = 0;
    operation_time = 0;
    operation_pid = 0;
    extention = [];
    status = normal;
  };
  queue = λ i. 0;
}

empty_region-Holds : Holds x86_layout empty_region []
empty_region-Holds = record {
  total_word = omega arith;
  tail_in = omega arith;
  space = refl;
  head = refl;
  count = refl;
  elements = tt;
}

abbrev empty_fifo : Fifo
empty_fifo = record { status = normal; capacity = 64; messages = [] }

empty_region-Represents : Represents x86_layout empty_region empty_fifo
empty_region-Represents = record { status = refl; capacity = refl; holds = empty_region-Holds }

abbrev at_five : Context
at_five = record { time = 5; pid = 2 }

abbrev pub calls : Calls
calls = record { start = 5; context = at_five; signal_rt = 0 }

abbrev message : List ℕ
message = 7 ∷ 8 ∷ 9 ∷ []

abbrev script : List Op
script =
    try_puts calls message
    ∷ try_puts calls (1 ∷ [])
    ∷ try_puts calls message
    ∷ try_gets calls
    ∷ try_gets calls
    ∷ try_gets calls
    ∷ []

abbrev replies : List Reply
replies =
    put_reply (ok tt)
    ∷ put_reply (ok tt)
    ∷ put_reply (throw queue_full)
    ∷ get_reply (ok message)
    ∷ get_reply (ok (1 ∷ []))
    ∷ get_reply (throw queue_full)
    ∷ []

small_queue_answers : run x86_layout script empty_region ≡ replies
unfolding run try_put try_get put_element get_element write read queue_scene queue_write_case
    write_element write_wrapping write_before_tail finish_write read_element read_before_head
    read_by_case read_whole read_split_header read_split_body read_body_at_start finish_read store
    load
small_queue_answers = refl

run_refines_example : run x86_layout script empty_region ≡ run_fifo 24 script empty_fifo
run_refines_example = run_refines x86_layout-IsLayout script empty_region-Represents (omega arith)

one_message : Holds x86_layout (appended x86_layout at_five message empty_region) (message ∷ [])
one_message =
    appended-Holds x86_layout-IsLayout at_five message empty_region-Holds (omega arith)
      (omega arith) (omega arith)

write-appended_example :
    write x86_layout at_five message empty_region
    ≡ (appended x86_layout at_five message empty_region, ok tt)
write-appended_example =
    write-appended x86_layout-IsLayout at_five message empty_region-Holds (omega arith)
      (omega arith)

read-removed_example :
    let s = appended x86_layout at_five message empty_region in
    read x86_layout at_five s ≡ (removed x86_layout at_five message s, ok message)
read-removed_example = read-removed x86_layout-IsLayout at_five message [] one_message

write_in_bounds_example : (write x86_layout at_five message empty_region).0.queue 64 ≡ 0
write_in_bounds_example =
    write_in_bounds x86_layout-IsLayout at_five message empty_region-Holds (omega arith) 64
      (omega arith)

abbrev pub zero_calls : SetupCalls
zero_calls = record { attr_init = 0; attr_setpshared = 0; object_init = 0 }

pub zero_calls-AllZero : AllZero zero_calls
zero_calls-AllZero = record { attr_init = refl; attr_setpshared = refl; object_init = refl }

make_meta-Represents_example :
    let (s', r) = make_meta x86_layout true 248 zero_calls zero_calls empty_region in
    (r ≡ ok tt) × Represents x86_layout s' empty_fifo
make_meta-Represents_example =
    make_meta-Represents x86_layout-IsLayout 248 zero_calls zero_calls empty_region (omega arith)
      (omega arith) zero_calls-AllZero zero_calls-AllZero

make_meta_too_small_example :
    make_meta x86_layout true 208 zero_calls zero_calls empty_region
    ≡ (empty_region, throw size_too_small)
make_meta_too_small_example =
    make_meta_too_small x86_layout-IsLayout 208 zero_calls zero_calls empty_region (omega arith)

-- The region above with one message of 30 bytes: 10 bytes are left.
abbrev long_message : List ℕ
long_message =
    1 ∷ 2 ∷ 3 ∷ 4 ∷ 5 ∷ 6 ∷ 7 ∷ 8 ∷ 9 ∷ 0 ∷ 1 ∷ 2 ∷ 3 ∷ 4 ∷ 5 ∷ 6 ∷ 7 ∷ 8 ∷ 9 ∷ 0 ∷ 1 ∷ 2 ∷ 3 ∷ 4
    ∷ 5 ∷ 6 ∷ 7 ∷ 8 ∷ 9 ∷ 0 ∷ []

abbrev full_region : Shared
full_region = appended x86_layout at_five long_message empty_region

full_region-Holds : Holds x86_layout full_region (long_message ∷ [])
full_region-Holds =
    appended-Holds x86_layout-IsLayout at_five long_message empty_region-Holds (omega arith)
      (omega arith) (omega arith)

-- Another process takes the long message while a put waits.
abbrev freed : List Wake
freed = record { wait_end = signalled; region = empty_region; now = 6 } ∷ []

timed_put-keeps_example :
    PutKeeps x86_layout
      (Found freed full_region)
      message
      (timed_put x86_layout calls freed message (negsuc 0) full_region)
timed_put-keeps_example =
    timed_put-keeps x86_layout-IsLayout calls (omega arith) message (omega arith) (negsuc 0) freed
      full_region (long_message ∷ [], full_region-Holds) (([], empty_region-Holds), tt)

-- Another process puts the long message while a get waits for one second.
abbrev filled : List Wake
filled = record { wait_end = signalled; region = full_region; now = 6 } ∷ []

timed_get-keeps_example :
    GetKeeps x86_layout
      (Found filled empty_region)
      (timed_get x86_layout calls filled (pos 1000) empty_region)
timed_get-keeps_example =
    timed_get-keeps x86_layout-IsLayout calls (omega arith) (pos 1000) filled empty_region
      ([], empty_region-Holds) ((long_message ∷ [], full_region-Holds), tt)

abbrev stopped_full : Shared
stopped_full = record full_region { info = record (full_region.info) { status = stop2put_and_get } }

abbrev stopped_wakes : List Wake
stopped_wakes = record { wait_end = signalled; region = stopped_full; now = 6 } ∷ []

put_deaf_to_stop_example :
    put x86_layout calls stopped_wakes message full_region ≡ waiting stopped_full
put_deaf_to_stop_example =
    put_deaf_to_stop x86_layout calls stopped_wakes message full_region refl (omega arith)
      (omega arith) (refl, omega arith, tt)
