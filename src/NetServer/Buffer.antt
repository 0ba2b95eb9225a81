-- ===== src/NetServer/Buffer.antt =====
-- `ReadBuffer`, `WriteBuffer` and `BufferPool` of netserver/cl_buffer.hpp and
-- netserver/src/cl_buffer.cpp.
pub mod Laws
pub mod Unsent
use cppfastdevelop.Prelude.{
  ℕ, zero, suc, ◌+◌, ◌-◌, ◌≤◌, ◌<◌, Bool, true, false, List, [], ◌∷◌, ◌++◌, length, take, drop, ltb,
  ◌==◌, if◌then◌else◌, add32, ℤ, pos, ltb_ℤ,
}

-- The foundation's exceptions that the server throws or lets through.
pub data Exception : Type 0 where
  value_error syscall_execute_error : Exception

pub data Result {ℓ} (A : Type ℓ) : Type ℓ where
  ok : A → Result A
  throw : Exception → Result A

pub record ReadBuffer : Type 0 where
  pub buf : List ℕ
  pub total : ℕ
  pub already : ℕ

pub record WriteBuffer : Type 0 where
  pub buf : List ℕ
  pub total : ℕ
  pub already : ℕ

unfoldable pub zeros : ℕ → List ℕ
zeros zero = []
zeros (suc n) = 0 ∷ zeros n

-- `std::string::resize`.
abbrev pub resize : ℕ → List ℕ → List ℕ
resize n buf = take n buf ++ zeros (n - length buf)

-- Writes bytes at an offset of the buffer.
abbrev pub store : ℕ → List ℕ → List ℕ → List ℕ
store at bytes buf = take at buf ++ bytes ++ drop (at + length bytes) buf

-- The constructors.
abbrev pub new_read_buffer : ReadBuffer
new_read_buffer = record { buf = zeros 700; total = 0; already = 0 }

abbrev pub new_write_buffer : WriteBuffer
new_write_buffer = record { buf = zeros 1300; total = 0; already = 0 }

module _ (rb : ReadBuffer) where
  abbrev pub clear_read : ReadBuffer
  clear_read = record { buf = []; total = 0; already = 0 }

  abbrev pub set_total : ℕ → Result ReadBuffer
  set_total total =
      if rb.total == 0
      then ok (record {
        buf = if ltb rb.total total then resize total rb.buf else rb.buf;
        total = total;
        already = rb.already;
      })
      else throw value_error

  abbrev pub read_left : Result ℕ
  read_left = if ltb rb.already rb.total then ok (rb.total - rb.already) else throw value_error

  abbrev pub is_read_complete : Result Bool
  is_read_complete = if rb.total == 0 then throw value_error else ok (rb.total == rb.already)

  -- The bytes that `RecvAsync` has stored behind the others, and the new count.
  abbrev pub stored : List ℕ → ReadBuffer
  stored bytes = record {
    buf = store rb.already bytes rb.buf;
    total = rb.total;
    already = add32 rb.already (length bytes);
  }

module _ (wb : WriteBuffer) where
  abbrev pub clear_write : WriteBuffer
  clear_write = record { buf = []; total = 0; already = 0 }

  -- `total` is the length of `buffer`.
  abbrev pub set_buffer : List ℕ → Result WriteBuffer
  set_buffer buffer =
      let total = length buffer in
      if wb.total == 0
      then ok (record {
        buf = store 0 buffer (if ltb wb.total total then resize total wb.buf else wb.buf);
        total = total;
        already = wb.already;
      })
      else throw value_error

  abbrev pub write_left : Result ℕ
  write_left = if ltb wb.already wb.total then ok (wb.total - wb.already) else throw value_error

  abbrev pub is_write_complete : Result Bool
  is_write_complete = if length wb.buf == 0 then throw value_error else ok (wb.total == wb.already)

  abbrev pub written : ℕ → WriteBuffer
  written n = record { buf = wb.buf; total = wb.total; already = add32 wb.already n }

-- What `session->RecvAsync` gives: the bytes and whether the peer has closed, or an exception.
pub record Receipt : Type 0 where
  pub bytes : List ℕ
  pub peer_closed : Bool

-- The two transfers of a session, on the state of the network.
pub record Session (W : Type 0) : Type 0 where
  pub recv_async : ℕ → W → W × Result Receipt
  pub send_async : List ℕ → W → W × Result ℕ

-- `Read` and `Write` behind the transfer, and the transfer behind the count of what is left.
module _ {W : Type 0} where
  abbrev pub received : ReadBuffer → W × Result Receipt → W × ReadBuffer × Result Receipt
  received rb (w, ok r) = (w, stored rb r.bytes, ok r)
  received rb (w, throw e) = (w, rb, throw e)

  abbrev pub read_up_to : Session W → ReadBuffer → W → Result ℕ → W × ReadBuffer × Result Receipt
  read_up_to session rb w (throw e) = (w, rb, throw e)
  read_up_to session rb w (ok left) = received rb (session.recv_async left w)

  abbrev pub read : Session W → ReadBuffer → W → W × ReadBuffer × Result Receipt
  read session rb w = read_up_to session rb w (read_left rb)

  abbrev pub sent : WriteBuffer → W × Result ℕ → W × WriteBuffer × Result ℕ
  sent wb (w, ok n) = (w, written wb n, ok n)
  sent wb (w, throw e) = (w, wb, throw e)

  abbrev pub write_up_to : Session W → WriteBuffer → W → Result ℕ → W × WriteBuffer × Result ℕ
  write_up_to session wb w (throw e) = (w, wb, throw e)
  write_up_to session wb w (ok left) =
      sent wb (session.send_async (take left (drop wb.already wb.buf)) w)

  abbrev pub write : Session W → WriteBuffer → W → W × WriteBuffer × Result ℕ
  write session wb w = write_up_to session wb w (write_left wb)

-- `BufferPool`, with `alloc_one` for `AllocOne`, whose failure to allocate is not modelled.
pub record BufferPool (B : Type 0) : Type 0 where
  pub free : List B
  pub max_alloc_cnt : ℕ

module _ {B : Type 0} (alloc_one : B) where
  unfoldable pub fill : ℕ → BufferPool B → BufferPool B
  fill zero pool = pool
  fill (suc n) pool =
      fill n (record { free = pool.free ++ alloc_one ∷ []; max_alloc_cnt = suc pool.max_alloc_cnt })

  abbrev pub pool_size : ℤ → ℕ
  pool_size (pos n) = n
  pool_size _ = 0

  abbrev pub make_pool : ℤ → Result (BufferPool B)
  make_pool poolsize =
      if ltb_ℤ poolsize (pos 1)
      then throw value_error
      else ok (fill (pool_size poolsize) (record { free = []; max_alloc_cnt = 0 }))

  abbrev pub get_from_free : List B → BufferPool B → BufferPool B × B
  get_from_free [] pool = (record pool { max_alloc_cnt = suc pool.max_alloc_cnt }, alloc_one)
  get_from_free (b ∷ bs) pool = (record pool { free = bs }, b)

  abbrev pub get_from_pool : BufferPool B → BufferPool B × B
  get_from_pool pool = get_from_free pool.free pool

abbrev pub put_into_pool : {B : Type 0} → B → BufferPool B → BufferPool B
put_into_pool b pool = record pool { free = pool.free ++ b ∷ [] }
