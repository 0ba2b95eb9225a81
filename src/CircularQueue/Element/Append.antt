-- ===== src/CircularQueue/Element/Append.antt =====
-- After `ElementOp::write` the region holds one message more, and the others still.
use cppfastdevelop.Prelude.{
  ℕ, ◌+◌, ◌-◌, ◌^◌, ◌≤◌, ◌<◌, ◌≡◌, sym, subst, ◌∙◌, List, [], ◌∷◌, ◌++◌, length, length-append,
  arith,
}
use cppfastdevelop.Memory.{Memory}
use cppfastdevelop.Memory.Ring.{
  advance, ring_store, advance-lt, advance-advance, advance-zero, ring_load-ring_store,
  ring_load-ring_store_append,
}
use cppfastdevelop.CircularQueue.Def.{Shared, Layout, IsLayout, Context}
use cppfastdevelop.CircularQueue.Element.{new_header}
use cppfastdevelop.CircularQueue.Element.Invariant.{
  case_at, bytes, bytes-append, Element, Elements, Holds,
}
use cppfastdevelop.CircularQueue.Element.Write.{appended, Holds-Fits}

module _ (l : Layout) {total : ℕ} where
  -- A message before a write is still there after it.
  Element-ring_store :
      (m : Memory) (p k : ℕ) (xs b : List ℕ)
      → p < total
      → l.header_size + length b ≤ k
      → k + length xs ≤ total
      → Element l total m p b
      → Element l total (ring_store total m (advance total p k) xs) p b
  Element-ring_store m p k xs b hp hk hx e =
      let hs = l.header_size in
      let q : advance total (advance total p hs) (k - hs) ≡ advance total p k = ground arith in
      let f =
        ring_load-ring_store m (advance total p hs) (k - hs) xs (length b)
          (advance-lt p hs hp (omega arith)) (omega arith) (omega arith) in
      record {
        nonempty = e.nonempty;
        time = e.time;
        time_word = e.time_word;
        header = ring_load-ring_store m p k xs hs hp (omega arith) hx ∙ e.header;
        body = (rw q at f) ∙ e.body;
      }

  Elements-ring_store :
      (m : Memory) (p k : ℕ) (xs : List ℕ) (bs : List (List ℕ))
      → p < total
      → bytes l.header_size bs ≤ k
      → k + length xs ≤ total
      → Elements l total m p bs
      → Elements l total (ring_store total m (advance total p k) xs) p bs
  Elements-ring_store m p k xs [] hp hk hx es = tt
  Elements-ring_store m p k xs (b ∷ bs) hp hk hx es =
      let n = l.header_size + length b in
      let q : advance total (advance total p n) (k - n) ≡ advance total p k = ground arith in
      let ih =
        Elements-ring_store m (advance total p n) (k - n) xs bs (advance-lt p n hp (omega arith))
          (omega arith) (omega arith) es.1 in
      (Element-ring_store m p k xs b hp (omega arith) hx es.0, (rw q at ih))

  Elements-append :
      (m : Memory) (p : ℕ) (bs : List (List ℕ)) (b : List ℕ)
      → p < total
      → bytes l.header_size bs ≤ total
      → Elements l total m p bs
      → Element l total m (advance total p (bytes l.header_size bs)) b
      → Elements l total m p (bs ++ (b ∷ []))
  Elements-append m p [] b hp h es e = (rw (advance-zero p hp) at e, tt)
  Elements-append m p (x ∷ bs) b hp h es e =
      let n = l.header_size + length x in
      let q : advance total p (n + bytes l.header_size bs)
          ≡ advance total (advance total p n) (bytes l.header_size bs) =
        ground arith in
      (
        es.0,
        Elements-append m (advance total p n) bs b (advance-lt p n hp (omega arith)) (omega arith)
            es.1 (rw q at e),
      )

module _ {l : Layout} (laid : IsLayout l) (c : Context) (body : List ℕ) {s : Shared}
    {bs : List (List ℕ)} (held : Holds l s bs) (now : c.time < 2 ^ 64) (nonempty : 0 < length body)
    (room : l.header_size + length body ≤ s.info.q_left_size) where
  open s use {info as q}

  new-Element : Element l q.q_total_size (appended l c body s).queue q.head_index body
  new-Element =
      let f = Holds-Fits laid c body held nonempty room in
      let cs = case_at q.q_total_size l.header_size q.head_index (length body) in
      let h = l.encode (new_header c cs (length body)) in
      let n : length h ≡ l.header_size = laid.length-encode _ in
      let r =
        ring_load-ring_store_append {total = q.q_total_size} s.queue q.head_index h body f.head_in
          (omega (arith, f.fits, n)) in
      let r' = rw n at r in
      record { nonempty = nonempty; time = c.time; time_word = now; header = r'.0; body = r'.1 }

  pub appended-Holds : Holds l (appended l c body s) (bs ++ (body ∷ []))
  appended-Holds =
      let used = bytes l.header_size bs in
      let f = Holds-Fits laid c body held nonempty room in
      let total = q.q_total_size in
      let h =
        l.encode
          (new_header c (case_at total l.header_size q.head_index (length body)) (length body)) in
      let old =
        Elements-ring_store l s.queue q.tail_index used (h ++ body) bs held.tail_in (omega arith)
          (omega (
            arith,
            held,
            length-append h body,
            laid.length-encode (
                new_header c (case_at total l.header_size q.head_index (length body))
                  (length body)),
          ))
          held.elements in
      record {
        total_word = held.total_word;
        tail_in = held.tail_in;
        space = omega (arith, held, bytes-append l.header_size bs body);
        head =
            rw (held.head, bytes-append l.header_size bs body)
              (advance-advance q.tail_index used (l.header_size + length body) held.tail_in
                (omega (arith, held)));
        count = omega (arith, held, length-append bs (body ∷ []));
        elements =
            Elements-append l (appended l c body s).queue q.tail_index bs body held.tail_in
              (omega (arith, held))
              (subst
                (λ p. Elements l total (ring_store total s.queue p (h ++ body)) q.tail_index bs)
                (sym held.head) old)
              (subst (λ p. Element l total (appended l c body s).queue p body) held.head
                new-Element);
      }
