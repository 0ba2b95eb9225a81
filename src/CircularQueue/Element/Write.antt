-- ===== src/CircularQueue/Element/Write.antt =====
-- `ElementOp::write` appends a message to the ring, whichever way the copies are cut.
use cppfastdevelop.Prelude.{
  ℕ, ◌+◌, ◌-◌, ◌^◌, ◌≤◌, ◌<◌, ◌≡◌, refl, ap, List, [], ◌∷◌, ◌++◌, append_assoc, length,
  length-append, length-take, length-drop, take, drop, le→ltb, false, Bool-cases, inl, inr,
  take_all, take-append-drop, ltb, ◌==◌, arith, add64, sub64,
}
use cppfastdevelop.Memory.{Memory}
use cppfastdevelop.Memory.Ring.{advance, ring_store, advance-lt, store-ring, store-ring_store}
use cppfastdevelop.CircularQueue.Def.{
  WriteCase, case1, case2, case3, case4, case5, QMeta, Shared, Layout, IsLayout, Context, ok, throw,
  value_error, QueueScene, scene1, scene2, scene3, scene4,
}
use cppfastdevelop.CircularQueue.Element.{
  queue_scene, queue_write_case, write_wrapping, write_before_tail, write_element, new_header,
  finish_write, write,
}
use cppfastdevelop.CircularQueue.Element.Invariant.{case_at, length-le-bytes, Holds}

-- Sizes and indices for which no sum wraps.
pub record Fits (l : Layout) (q : QMeta) (size : ℕ) : Type 0 where
  pub total_word : q.q_total_size < 2 ^ 63
  pub head_in : q.head_index < q.q_total_size
  pub fits : l.header_size + size ≤ q.q_total_size
  pub nonempty : 0 < size
  pub header_pos : 0 < l.header_size

module _ {l : Layout} {q : QMeta} where
  open q use {q_total_size as total, head_index as head}
  open l use {header_size as hs}

  queue_write_case-case_at :
      (size : ℕ) → Fits l q size → queue_write_case l q size ≡ ok (case_at total hs head size)
  unfolding queue_write_case
  queue_write_case-case_at size f = ground arith

  -- The copies of scenes 1 and 3 write header and body round the ring, in every case.
  write_wrapping-ring :
      (cs : WriteCase) (h body : List ℕ) (m : Memory)
      → Fits l q (length body)
      → length h ≡ hs
      → cs ≡ case_at total hs head (length body)
      → write_wrapping l q cs h body m
        ≡ (ring_store total m head (h ++ body), advance total head (hs + length body))
  unfolding write_wrapping
  write_wrapping-ring case1 h body m f e c =
      let w : head + hs + length body < total = ground arith in
      let a : add64 head hs ≡ head + hs = omega arith in
      rw
        (
          a,
          store-ring {total = total} m head h (omega arith),
          store-ring_store {total = total} m head h (head + hs) body (omega arith) (omega arith)
              (ground arith) (omega arith),
        )
        (ap (λ n. (ring_store total m head (h ++ body), n)) (ground arith))
  write_wrapping-ring case2 h body m f e c =
      let w : head + hs + length body ≡ total = ground arith in
      let a : add64 head hs ≡ head + hs = omega arith in
      rw
        (
          a,
          store-ring {total = total} m head h (omega arith),
          store-ring_store {total = total} m head h (head + hs) body (omega arith) (omega arith)
              (ground arith) (omega arith),
        )
        (ap (λ n. (ring_store total m head (h ++ body), n)) (ground arith))
  write_wrapping-ring case3 h body m f e c =
      let w : total < head + hs = ground arith in
      let a : sub64 total head ≡ total - head = omega arith in
      let b : sub64 hs (sub64 total head) ≡ hs - (total - head) = omega arith in
      let d : take (hs - (total - head)) (drop (total - head) h) ≡ drop (total - head) h =
        take_all _ _ (omega (arith, length-drop (total - head) h)) in
      let n : length (take (total - head) h) ≡ total - head =
        omega (arith, length-take (total - head) h) in
      rw
        (
          b,
          a,
          d,
          store-ring {total = total} m head (take (total - head) h) (omega arith),
          store-ring_store {total = total} m head (take (total - head) h) 0 (drop (total - head) h)
              (omega arith) (omega arith) (ground arith)
              (omega (arith, length-drop (total - head) h)),
          take-append-drop (total - head) h,
          store-ring_store {total = total} m head h (hs - (total - head)) body (omega arith)
              (omega arith) (ground arith) (omega arith),
        )
        (ap (λ n. (ring_store total m head (h ++ body), n)) (ground arith))
  write_wrapping-ring case4 h body m f e c =
      let w : (head + hs < total) × (total < head + hs + length body) = ground arith in
      let x : sub64 (sub64 total head) hs ≡ total - head - hs = omega arith in
      let a : add64 head hs ≡ head + hs = omega arith in
      let b : sub64 (length body) (total - head - hs) ≡ length body - (total - head - hs) =
        omega arith in
      let d : take (length body - (total - head - hs)) (drop (total - head - hs) body)
          ≡ drop (total - head - hs) body =
        take_all _ _ (omega (arith, length-drop (total - head - hs) body)) in
      let n : length (take (total - head - hs) body) ≡ total - head - hs =
        omega (arith, length-take (total - head - hs) body) in
      rw
        (
          x,
          b,
          a,
          d,
          store-ring {total = total} m head h (omega arith),
          store-ring_store {total = total} m head h (head + hs) (take (total - head - hs) body)
              (omega arith) (omega arith) (ground arith) (omega arith),
          store-ring_store {total = total} m head (h ++ take (total - head - hs) body) 0
              (drop (total - head - hs) body) (omega arith)
              (omega (arith, length-append h (take (total - head - hs) body)))
              (ground (arith, length-append h (take (total - head - hs) body)))
              (omega (arith, length-drop (total - head - hs) body)),
          append_assoc h,
          take-append-drop,
        )
        (ap (λ n. (ring_store total m head (h ++ body), n)) (ground arith))
  write_wrapping-ring case5 h body m f e c =
      let w : head + hs ≡ total = ground arith in
      rw
        (
          store-ring {total = total} m head h (omega arith),
          store-ring_store {total = total} m head h 0 body (omega arith) (omega arith)
              (ground arith) (omega arith),
        )
        (ap (λ n. (ring_store total m head (h ++ body), n)) (ground arith))

  -- Scene 2 writes straight before the tail.
  write_before_tail-ring :
      (h body : List ℕ) (m : Memory)
      → Fits l q (length body)
      → length h ≡ hs
      → q.tail_index < total
      → head + hs + length body ≤ q.tail_index
      → write_before_tail l q h body m
        ≡ ok (ring_store total m head (h ++ body), advance total head (hs + length body))
  unfolding write_before_tail
  write_before_tail-ring h body m f e t r =
      let a : add64 head hs ≡ head + hs = omega arith in
      rw
        (
          a,
          store-ring {total = total} m head h (omega arith),
          store-ring_store {total = total} m head h (head + hs) body (omega arith) (omega arith)
              (ground arith) (omega arith),
        )
        (ground arith)

-- `queue_scene` never reaches its last branch.
pub queue_scene_total : (q : QMeta) → (scene : QueueScene) × (queue_scene q ≡ ok scene)
unfolding queue_scene
queue_scene_total q = elim (Bool-cases (ltb q.tail_index q.head_index)) [
  | inl a ↦ (scene1, rw a)
  | inr a ↦ elim (Bool-cases (ltb q.head_index q.tail_index)) [
    | inl b ↦ (scene2, rw (a, b))
    | inr b ↦ elim (Bool-cases (q.element_count == 0)) [
      | inl d ↦ (scene3, rw (a, b, d))
      | inr d ↦ (scene4, rw (a, b, d))
    ]
  ]
]

-- The region with `body` appended: what `write` is meant to leave.
abbrev pub appended : Layout → Context → List ℕ → Shared → Shared
appended l c body s = record {
  info = record q {
    q_left_size = q.q_left_size - (l.header_size + length body);
    element_count = q.element_count + 1;
    head_index = advance q.q_total_size q.head_index (l.header_size + length body);
    serial_no = add64 q.serial_no 1;
    operation_time = c.time;
    operation_pid = c.pid;
    extention = 0 ∷ 0 ∷ 0 ∷ 0 ∷ [];
  };
  queue = ring_store q.q_total_size s.queue q.head_index (
      l.encode (
        new_header c (case_at q.q_total_size l.header_size q.head_index (length body))
          (length body))
      ++ body);
}
  where
    open s use {info as q}

pub write-empty :
    (l : Layout) (c : Context) (body : List ℕ) (s : Shared)
    → length body ≡ 0
    → write l c body s ≡ (s, throw value_error)
unfolding write
write-empty l c body s e = rw e

module _ {l : Layout} (laid : IsLayout l) (c : Context) (body : List ℕ) {s : Shared}
    {bs : List (List ℕ)} (held : Holds l s bs) (nonempty : 0 < length body)
    (room : l.header_size + length body ≤ s.info.q_left_size) where
  open s use {info as q}

  abbrev header_bytes : WriteCase → List ℕ
  header_bytes cs = l.encode (new_header c cs (length body))

  pub Holds-Fits : Fits l q (length body)
  Holds-Fits = record {
    total_word = held.total_word;
    head_in = rw held.head (advance-lt _ _ held.tail_in (omega (arith, held)));
    fits = omega (arith, held);
    nonempty = nonempty;
    header_pos = laid.header_pos;
  }

  write_element-ring :
      (scene : QueueScene)
      → queue_scene q ≡ ok scene
      → let cs = case_at q.q_total_size l.header_size q.head_index (length body) in
        write_element l q scene cs (header_bytes cs) body s.queue
        ≡ ok ((appended l c body s).queue, (appended l c body s).info.head_index)
  unfolding queue_scene write_element
  write_element-ring scene1 e =
      ap ok
        (write_wrapping-ring _ (header_bytes _) body s.queue Holds-Fits (laid.length-encode _) refl)
  write_element-ring scene3 e =
      ap ok
        (write_wrapping-ring _ (header_bytes _) body s.queue Holds-Fits (laid.length-encode _) refl)
  write_element-ring scene2 e =
      let below : q.head_index < q.tail_index = ground arith in
      let gap : q.head_index + l.header_size + length body ≤ q.tail_index =
        ground (arith, held.head, held.space) in
      let cs : case_at q.q_total_size l.header_size q.head_index (length body) ≡ case1 =
        ground (arith, held.tail_in) in
      write_before_tail-ring (header_bytes _) body s.queue Holds-Fits (laid.length-encode _)
        held.tail_in gap
  write_element-ring scene4 e = absurd (
      ground (
        arith,
        held.head,
        held.space,
        held.count,
        length-le-bytes l.header_size bs laid.header_pos,
      ))

  finish_write_lem :
      finish_write l c
        (length body)
        s
        ((appended l c body s).queue, (appended l c body s).info.head_index)
      ≡ (appended l c body s, ok tt)
  unfolding finish_write
  finish_write_lem =
      let f = Holds-Fits in
      let a : sub64 q.q_left_size (add64 l.header_size (length body))
          ≡ q.q_left_size - (l.header_size + length body) =
        omega (arith, held) in
      let b : add64 q.element_count 1 ≡ q.element_count + 1 =
        omega (arith, held, length-le-bytes l.header_size bs laid.header_pos) in
      let d : ltb q.q_total_size
            (add64 (advance q.q_total_size q.head_index (l.header_size + length body)) 1)
          ≡ false =
        le→ltb _ _ (
          omega (
            arith,
            held,
            advance-lt q.head_index (l.header_size + length body) f.head_in f.fits,
          )) in
      rw (a, b, d)

  -- With room for the message `write` succeeds, and leaves the region with it appended.
  pub write-appended : write l c body s ≡ (appended l c body s, ok tt)
  unfolding write
  write-appended =
      let f = Holds-Fits in
      let a : (length body == 0) ≡ false = ground arith in
      let b : ltb q.q_total_size (add64 q.head_index 1) ≡ false = ground (arith, held.total_word) in
      let (scene, e) = queue_scene_total q in
      rw (a, b, e, queue_write_case-case_at (length body) f, write_element-ring scene e)
        finish_write_lem
