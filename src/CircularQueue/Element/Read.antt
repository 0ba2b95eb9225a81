-- ===== src/CircularQueue/Element/Read.antt =====
-- `ElementOp::read` takes the oldest message off the ring, whichever way it was cut.
use cppfastdevelop.Prelude.{
  ℕ, ◌+◌, ◌-◌, ◌^◌, ◌≤◌, ◌<◌, ◌≡◌, refl, sym, ap, ◌∙◌, List, [], ◌∷◌, ◌++◌, length, ltb, arith,
  add64, sub64, le→ltb, false,
}
use cppfastdevelop.Memory.{Memory, load}
use cppfastdevelop.Memory.Ring.{
  advance, ring_load, advance-lt, advance-advance, load-ring, load-load-ring, ring_load-head,
}
use cppfastdevelop.CircularQueue.Def.{
  WriteCase, case1, case2, case3, case4, case5, case_number, QMeta, ElementHeader, Shared, Layout,
  IsLayout, Context, ok, QueueScene, scene1, scene2, scene3, scene4,
}
use cppfastdevelop.CircularQueue.Element.{
  queue_scene, read_before_head, read_whole, read_split_header, read_split_body, read_body_at_start,
  read_by_case, read_element, finish_read, read,
}
use cppfastdevelop.CircularQueue.Element.Invariant.{case_at, bytes, Element, Holds, length-le-bytes}
use cppfastdevelop.CircularQueue.Element.Write.{queue_scene_total}

case_number-lt : (cs : WriteCase) → case_number cs < 256
case_number-lt case1 = omega arith
case_number-lt case2 = omega arith
case_number-lt case3 = omega arith
case_number-lt case4 = omega arith
case_number-lt case5 = omega arith

module _ {l : Layout} (laid : IsLayout l) (q : QMeta) {m : Memory} {b : List ℕ}
    (total_word : q.q_total_size < 2 ^ 63) (tail_in : q.tail_index < q.q_total_size)
    (fits : l.header_size + length b ≤ q.q_total_size)
    (e : Element l q.q_total_size m q.tail_index b) where
  open q use {q_total_size as total, head_index as head, tail_index as tail}
  open l use {header_size as hs}

  abbrev stored_header : ElementHeader
  stored_header = record {
    write_case = case_number (case_at total hs tail (length b));
    extention = (b'0', b'0', b'0');
    body_len = length b;
    operation_time = e.time;
  }

  decode_header : l.decode (ring_load total m tail hs) ≡ stored_header
  decode_header = rw e.header (
      laid.decode-encode stored_header (record {
        write_case_byte = case_number-lt _;
        extention_bytes = omega arith;
        body_len_word = omega arith;
        time_word = e.time_word;
      }))

  whole_header : tail + hs ≤ total → l.decode (load m tail hs) ≡ stored_header
  whole_header h = rw (load-ring {total = total} m tail hs h) decode_header

  first_byte : m tail ≡ case_number (case_at total hs tail (length b))
  first_byte =
      let (r, x) = ring_load-head total m tail hs laid.header_pos in
      let (t, y) = laid.encode-head stored_header in ground (arith, x, y, e.header)

  abbrev taken : List ℕ × ℕ
  taken = (b, advance total tail (hs + length b))

  load_body : tail + hs + length b ≤ total → load m (add64 tail hs) (length b) ≡ b
  load_body h =
      let a : add64 tail hs ≡ advance total tail hs = ground (arith, e.nonempty) in
      rw
        (
          a,
          load-ring {total = total} m (advance total tail hs) (length b)
              (ground (arith, e.nonempty)),
        )
        e.body

  read_before_head-taken :
      head < total → tail + hs + length b ≤ head → read_before_head l q m ≡ ok taken
  unfolding read_before_head
  read_before_head-taken hh h =
      rw (whole_header (omega arith), load_body (omega arith)) (ground (arith, e.nonempty))

  read_whole-taken :
      (cs : ℕ)
      → cs ≡ case_number (case_at total hs tail (length b))
      → tail + hs + length b ≤ total
      → read_whole l q cs m ≡ ok taken
  unfolding read_whole
  read_whole-taken cs c h =
      rw (whole_header (omega arith), load_body h, c) (ground (arith, e.nonempty))

  read_split_header-taken :
      total < tail + hs
      → tail + hs + length b ≤ total + head
      → head < total
      → read_split_header l q m ≡ ok taken
  unfolding read_split_header
  read_split_header-taken h k hh =
      let a : sub64 total tail ≡ total - tail = omega arith in
      let c : sub64 hs (sub64 total tail) ≡ hs - (total - tail) = omega arith in
      let d : total - tail + (hs - (total - tail)) ≡ hs = omega arith in
      let f =
        load-load-ring {total = total} m tail (total - tail) (hs - (total - tail)) tail_in
          (omega arith) (omega arith) in
      let x : l.decode (load m tail (sub64 total tail) ++ load m 0 (sub64 hs (sub64 total tail)))
          ≡ stored_header =
        rw (c, a, f, d) decode_header in
      let g : advance total tail hs ≡ hs - (total - tail) = ground arith in
      let r : load m (hs - (total - tail)) (length b) ≡ b =
        rw (load-ring {total = total} m (hs - (total - tail)) (length b) (omega arith), ← g)
          e.body in
      rw (x, c, r) (ground (arith, e.nonempty))

  read_split_body-taken :
      tail + hs < total → total < tail + hs + length b → read_split_body l q m ≡ ok taken
  unfolding read_split_body
  read_split_body-taken h k =
      let a : sub64 (sub64 total tail) hs ≡ total - tail - hs = omega arith in
      let c : sub64 (length b) (total - tail - hs) ≡ length b - (total - tail - hs) = omega arith in
      let x : add64 tail hs ≡ advance total tail hs = ground arith in
      let d : total - tail - hs + (length b - (total - tail - hs)) ≡ length b = omega arith in
      let f =
        load-load-ring {total = total} m (advance total tail hs) (total - tail - hs)
          (length b - (total - tail - hs)) (ground arith) (ground arith) (omega arith) in
      rw (whole_header (omega arith), a, c, x, f, d, e.body) (ground (arith, e.nonempty))

  read_body_at_start-taken : tail + hs ≡ total → read_body_at_start l q m ≡ ok taken
  unfolding read_body_at_start
  read_body_at_start-taken h =
      let g : advance total tail hs ≡ 0 = ground arith in
      let r : load m 0 (length b) ≡ b =
        rw (load-ring {total = total} m 0 (length b) (omega arith), ← g) e.body in
      rw (whole_header (omega arith), r) (ground (arith, e.nonempty))

  read_by_case-taken :
      (cs : WriteCase)
      → cs ≡ case_at total hs tail (length b)
      → head < total
      → tail + hs + length b ≤ total + head
      → read_by_case l q m ≡ ok taken
  unfolding read_by_case
  read_by_case-taken case1 c hh k =
      let first : m tail ≡ 1 = first_byte ∙ ap case_number (sym c) in
      let ok_tail : ltb total (add64 tail 1) ≡ false = le→ltb _ _ (omega arith) in
      rw (ok_tail, first) (read_whole-taken 1 (ap case_number c) (ground arith))
  read_by_case-taken case2 c hh k =
      let first : m tail ≡ 2 = first_byte ∙ ap case_number (sym c) in
      let ok_tail : ltb total (add64 tail 1) ≡ false = le→ltb _ _ (omega arith) in
      rw (ok_tail, first) (read_whole-taken 2 (ap case_number c) (ground arith))
  read_by_case-taken case3 c hh k =
      let first : m tail ≡ 3 = first_byte ∙ ap case_number (sym c) in
      let ok_tail : ltb total (add64 tail 1) ≡ false = le→ltb _ _ (omega arith) in
      rw (ok_tail, first) (read_split_header-taken (ground arith) k hh)
  read_by_case-taken case4 c hh k =
      let first : m tail ≡ 4 = first_byte ∙ ap case_number (sym c) in
      let ok_tail : ltb total (add64 tail 1) ≡ false = le→ltb _ _ (omega arith) in
      rw (ok_tail, first)
        (read_split_body-taken (ground (arith, e.nonempty)) (ground (arith, e.nonempty)))
  read_by_case-taken case5 c hh k =
      let first : m tail ≡ 5 = first_byte ∙ ap case_number (sym c) in
      let ok_tail : ltb total (add64 tail 1) ≡ false = le→ltb _ _ (omega arith) in
      rw (ok_tail, first) (read_body_at_start-taken (ground arith))

-- The region with its oldest message `b` taken off.
abbrev pub removed : Layout → Context → List ℕ → Shared → Shared
removed l c b s = record s {
  info = record q {
    q_left_size = q.q_left_size + (l.header_size + length b);
    element_count = q.element_count - 1;
    tail_index = advance q.q_total_size q.tail_index (l.header_size + length b);
    serial_no = add64 q.serial_no 1;
    operation_time = c.time;
    operation_pid = c.pid;
    extention = 0 ∷ 0 ∷ 0 ∷ 0 ∷ [];
  };
}
  where
    open s use {info as q}

module _ {l : Layout} (laid : IsLayout l) (c : Context) (b : List ℕ) {s : Shared}
    (bs : List (List ℕ)) (held : Holds l s (b ∷ bs)) where
  open s use {info as q}

  head_in : q.head_index < q.q_total_size
  head_in = rw held.head (advance-lt _ _ held.tail_in (omega (arith, held)))

  read_element-removed :
      (scene : QueueScene)
      → queue_scene q ≡ ok scene
      → read_element l q scene s.queue ≡ ok (b, (removed l c b s).info.tail_index)
  unfolding queue_scene read_element
  read_element-removed scene1 e =
      read_before_head-taken laid q held.total_word held.tail_in (omega (arith, held))
        held.elements.0 head_in (ground (arith, held.head, held.space))
  read_element-removed scene2 e =
      read_by_case-taken laid q held.total_word held.tail_in (omega (arith, held)) held.elements.0 _
        refl head_in (ground (arith, held.head, held.space))
  read_element-removed scene4 e =
      read_by_case-taken laid q held.total_word held.tail_in (omega (arith, held)) held.elements.0 _
        refl head_in (ground (arith, held.head, held.space))
  read_element-removed scene3 e = absurd (ground (arith, held.count))

  finish_read_lem :
      finish_read l c s (b, (removed l c b s).info.tail_index) ≡ (removed l c b s, ok b)
  unfolding finish_read
  finish_read_lem =
      let a : add64 q.q_left_size (add64 l.header_size (length b))
          ≡ q.q_left_size + (l.header_size + length b) =
        omega (arith, held) in
      let d : sub64 q.element_count 1 ≡ q.element_count - 1 =
        omega (arith, held, length-le-bytes l.header_size bs laid.header_pos) in
      let t : ltb q.q_total_size (add64 q.head_index 1) ≡ false =
        le→ltb _ _ (omega (arith, held.total_word, head_in)) in
      rw (a, d, t)

  -- A region with messages gives the oldest, and is left without it.
  pub read-removed : read l c s ≡ (removed l c b s, ok b)
  unfolding read
  read-removed =
      let (scene, e) = queue_scene_total q in
      let t : ltb q.q_total_size (add64 q.head_index 1) ≡ false =
        le→ltb _ _ (omega (arith, held.total_word, head_in)) in
      rw (e, read, t, read_element-removed scene e) finish_read_lem

  pub removed-Holds : Holds l (removed l c b s) bs
  removed-Holds = record {
    total_word = held.total_word;
    tail_in = advance-lt q.tail_index (l.header_size + length b) held.tail_in (omega (arith, held));
    space = omega (arith, held);
    head = rw (held.head) (
        sym (
          advance-advance q.tail_index (l.header_size + length b) (bytes l.header_size bs)
            held.tail_in (omega (arith, held))));
    count = omega (arith, held);
    elements = held.elements.1;
  }
