-- ===== src/CircularQueue/Element.antt =====
-- `ElementOp` of circularqueue/src/cl_queue_operation.cpp: how one message is written into the
-- region at the head, and read from it at the tail. Indices and sizes are `cf_uint64`.
pub mod Invariant
pub mod Write
pub mod Append
pub mod Read
use cppfastdevelop.Prelude.{
  ℕ, ◌+◌, ◌%◌, ◌^◌, Bool, ◌||◌, ◌&&◌, not, List, [], ◌∷◌, ◌++◌, length, take, drop, ltb, ◌==◌,
  if◌then◌else◌, add64, sub64,
}
use cppfastdevelop.Memory.{Memory, store, load}
use cppfastdevelop.CircularQueue.Def.{
  QMeta, ElementHeader, Exception, value_error, Result, ok, throw, QueueScene, scene1, scene2,
  scene3, scene4, WriteCase, case1, case2, case3, case4, case5, case_number, Shared, Layout,
  Context,
}

unfoldable pub queue_scene : QMeta → Result QueueScene
queue_scene q =
    if ltb q.tail_index q.head_index
    then ok scene1
    else if ltb q.head_index q.tail_index
    then ok scene2
    else if q.element_count == 0
    then ok scene3
    else if not (q.element_count == 0)
    then ok scene4
    else throw value_error

-- `QueueWriteCase(bodySize)`, from the total size, the head index and the header's size.
unfoldable pub queue_write_case : Layout → QMeta → ℕ → Result WriteCase
queue_write_case l q size =
    if ltb total (add64 head 1)
    then throw value_error
    else if ltb whole total
    then ok case1
    else if total == whole
    then ok case2
    else if ltb total past_header
    then ok case3
    else if ltb past_header total && ltb total whole
    then ok case4
    else if total == past_header
    then ok case5
    else throw value_error
  where
    open q use {q_total_size as total, head_index as head}

    past_header : ℕ
    past_header = add64 head l.header_size

    whole : ℕ
    whole = add64 past_header size

-- The header that `write` stores before the body.
abbrev pub new_header : Context → WriteCase → ℕ → ElementHeader
new_header c cs size = record {
  write_case = case_number cs;
  extention = (b'0', b'0', b'0');
  body_len = size;
  operation_time = c.time;
}

-- The copies of `write` in scenes 1 and 3, and the head index that they leave. `h` is the header's
-- bytes and `body` the bytes at `pData`.
unfoldable pub write_wrapping : Layout → QMeta → WriteCase → List ℕ → List ℕ → Memory → Memory × ℕ
write_wrapping l q case1 h body m =
    (store (store m head h) (add64 head hs) body, add64 head (add64 (length body) hs))
  where
    open q use {head_index as head}
    open l use {header_size as hs}
write_wrapping l q case2 h body m = (store (store m head h) (add64 head hs) body, 0)
  where
    open q use {head_index as head}
    open l use {header_size as hs}
write_wrapping l q case3 h body m = (
  store (store (store m head (take size0 h)) 0 (take size1 (drop size0 h))) size1 body,
  add64 (length body) size1,
)
  where
    open q use {q_total_size as total, head_index as head}
    open l use {header_size as hs}

    size0 : ℕ
    size0 = sub64 total head

    size1 : ℕ
    size1 = sub64 hs size0
write_wrapping l q case4 h body m = (
  store (store (store m head h) (add64 head hs) (take size0 body)) 0 (take size1 (drop size0 body)),
  size1,
)
  where
    open q use {q_total_size as total, head_index as head}
    open l use {header_size as hs}

    size0 : ℕ
    size0 = sub64 (sub64 total head) hs

    size1 : ℕ
    size1 = sub64 (length body) size0
write_wrapping l q case5 h body m = (store (store m head h) 0 body, length body)
  where
    open q use {head_index as head}

-- Those of scene 2, where the element must fit before the tail.
unfoldable pub write_before_tail : Layout → QMeta → List ℕ → List ℕ → Memory → Result (Memory × ℕ)
write_before_tail l q h body m =
    if ltb tail (add64 (add64 head hs) (length body))
    then throw value_error
    else ok (store (store m head h) (add64 head hs) body, add64 head (add64 hs (length body)))
  where
    open q use {head_index as head, tail_index as tail}
    open l use {header_size as hs}

unfoldable pub write_element :
    Layout → QMeta → QueueScene → WriteCase → List ℕ → List ℕ → Memory → Result (Memory × ℕ)
write_element l q scene1 cs h body m = ok (write_wrapping l q cs h body m)
write_element l q scene3 cs h body m = ok (write_wrapping l q cs h body m)
write_element l q scene2 cs h body m = write_before_tail l q h body m
write_element l q scene4 cs h body m = throw value_error

-- The end of `write`: the counters, and a last test of the head index.
unfoldable pub finish_write :
    Layout → Context → ℕ → Shared → Memory × ℕ → Shared × Result (Unit {0})
finish_write l c size s (m, head) =
    (s', (if ltb q.q_total_size (add64 head 1) then throw value_error else ok tt))
  where
    open s use {info as q}

    s' : Shared
    s' = record {
      info = record q {
        q_left_size = sub64 q.q_left_size (add64 l.header_size size);
        element_count = add64 q.element_count 1;
        head_index = head;
        serial_no = add64 q.serial_no 1;
        operation_time = c.time;
        operation_pid = c.pid;
        extention = 0 ∷ 0 ∷ 0 ∷ 0 ∷ [];
      };
      queue = m;
    }

-- `ElementOp::write(pData, size)`, where `body` is the `size` bytes at `pData`.
unfoldable pub write : Layout → Context → List ℕ → Shared → Shared × Result (Unit {0})
write l c body s =
    if length body == 0
    then (s, throw value_error)
    else if ltb s.info.q_total_size (add64 s.info.head_index 1)
    then (s, throw value_error)
    else elim (queue_scene s.info) [
      | throw e ↦ (s, throw e)
      | ok scene ↦ elim (queue_write_case l s.info (length body)) [
        | throw e ↦ (s, throw e)
        | ok cs ↦ elim (write_element l s.info scene cs (header_bytes cs) body s.queue) [
          | throw e ↦ (s, throw e)
          | ok r ↦ finish_write l c (length body) s r
        ]
      ]
    ]
  where
    header_bytes : WriteCase → List ℕ
    header_bytes cs = l.encode (new_header c cs (length body))

-- The branches of `read`: each returns the body and the tail index that it leaves.
unfoldable pub read_before_head : Layout → QMeta → Memory → Result (List ℕ × ℕ)
read_before_head l q m =
    if ltb head (add64 tail hs)
    then throw value_error
    else if h.body_len == 0
    then throw value_error
    else if ltb head (add64 (add64 tail hs) h.body_len)
    then throw value_error
    else ok (load m (add64 tail hs) h.body_len, add64 tail (add64 hs h.body_len))
  where
    open q use {head_index as head, tail_index as tail}
    open l use {header_size as hs}

    h : ElementHeader
    h = l.decode (load m tail hs)

unfoldable pub read_whole : Layout → QMeta → ℕ → Memory → Result (List ℕ × ℕ)
read_whole l q cs m =
    if h.body_len == 0
    then throw value_error
    else if ltb total (add64 (add64 tail hs) h.body_len)
    then throw value_error
    else ok (
      load m (add64 tail hs) h.body_len,
      (if cs == case_number case1 then add64 tail (add64 hs h.body_len) else 0),
    )
  where
    open q use {q_total_size as total, tail_index as tail}
    open l use {header_size as hs}

    h : ElementHeader
    h = l.decode (load m tail hs)

unfoldable pub read_split_header : Layout → QMeta → Memory → Result (List ℕ × ℕ)
read_split_header l q m =
    if h.body_len == 0
    then throw value_error
    else if ltb head (add64 size1 h.body_len)
    then throw value_error
    else ok (load m size1 h.body_len, add64 size1 h.body_len)
  where
    open q use {q_total_size as total, head_index as head, tail_index as tail}
    open l use {header_size as hs}

    size0 : ℕ
    size0 = sub64 total tail

    size1 : ℕ
    size1 = sub64 hs size0

    h : ElementHeader
    h = l.decode (load m tail size0 ++ load m 0 size1)

unfoldable pub read_split_body : Layout → QMeta → Memory → Result (List ℕ × ℕ)
read_split_body l q m =
    if h.body_len == 0
    then throw value_error
    else if ltb total (add64 (add64 tail hs) 1)
    then throw value_error
    else ok (load m (add64 tail hs) size0 ++ load m 0 size1, size1)
  where
    open q use {q_total_size as total, tail_index as tail}
    open l use {header_size as hs}

    h : ElementHeader
    h = l.decode (load m tail hs)

    size0 : ℕ
    size0 = sub64 (sub64 total tail) hs

    size1 : ℕ
    size1 = sub64 h.body_len size0

unfoldable pub read_body_at_start : Layout → QMeta → Memory → Result (List ℕ × ℕ)
read_body_at_start l q m =
    if not (total == add64 tail hs)
    then throw value_error
    else if h.body_len == 0
    then throw value_error
    else ok (load m 0 h.body_len, h.body_len)
  where
    open q use {q_total_size as total, tail_index as tail}
    open l use {header_size as hs}

    h : ElementHeader
    h = l.decode (load m tail hs)

-- Scenes 2 and 4: the first byte of the header says how the element was cut.
unfoldable pub read_by_case : Layout → QMeta → Memory → Result (List ℕ × ℕ)
read_by_case l q m =
    if ltb q.q_total_size (add64 q.tail_index 1)
    then throw value_error
    else if cs == case_number case1 || cs == case_number case2
    then read_whole l q cs m
    else if cs == case_number case3
    then read_split_header l q m
    else if cs == case_number case4
    then read_split_body l q m
    else if cs == case_number case5
    then read_body_at_start l q m
    else throw value_error
  where
    cs : ℕ
    cs = m q.tail_index

unfoldable pub read_element : Layout → QMeta → QueueScene → Memory → Result (List ℕ × ℕ)
read_element l q scene1 m = read_before_head l q m
read_element l q scene2 m = read_by_case l q m
read_element l q scene4 m = read_by_case l q m
read_element l q scene3 m = throw value_error

-- The end of `read`.
unfoldable pub finish_read : Layout → Context → Shared → List ℕ × ℕ → Shared × Result (List ℕ)
finish_read l c s (body, tail) =
    (s', (if ltb q.q_total_size (add64 q.head_index 1) then throw value_error else ok body))
  where
    open s use {info as q}

    s' : Shared
    s' = record s {
      info = record q {
        q_left_size = add64 q.q_left_size (add64 l.header_size (length body));
        element_count = sub64 q.element_count 1;
        tail_index = tail;
        serial_no = add64 q.serial_no 1;
        operation_time = c.time;
        operation_pid = c.pid;
        extention = 0 ∷ 0 ∷ 0 ∷ 0 ∷ [];
      };
    }

-- `ElementOp::read(data)`.
unfoldable pub read : Layout → Context → Shared → Shared × Result (List ℕ)
read l c s = elim (queue_scene s.info) [
  | throw e ↦ (s, throw e)
  | ok scene ↦
      if ltb s.info.q_total_size (add64 s.info.head_index 1)
      then (s, throw value_error)
      else elim (read_element l s.info scene s.queue) [
        | throw e ↦ (s, throw e)
        | ok r ↦ finish_read l c s r
      ]
]
