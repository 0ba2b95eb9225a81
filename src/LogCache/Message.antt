-- ===== src/LogCache/Message.antt =====
-- A line holds the message that the caller put in the buffer.
use cppfastdevelop.Prelude.{
  ℕ, zero, suc, ◌+◌, ◌-◌, ◌≤◌, ◌<◌, ◌≡◌, refl, sym, ap, ◌∙◌, List, [], ◌∷◌, ◌++◌, append_assoc,
  length, length-append, length-take, take, drop, take-take, take-append, drop-take, drop-drop,
  lt→ltb, arith, Bool-cases, inl, inr, some, take_all,
}
use cppfastdevelop.NetServer.Buffer.{store}
use cppfastdevelop.NetServer.Buffer.Laws.{length-store}
use cppfastdevelop.Utility.Program.{terminated}
use cppfastdevelop.LogCache.{
  Formats, LogCache, Entry, print_at, time_cache, with_prefix, prefix_end, with_names, with_suffix,
  pidtid_len, pidtid_bytes, built, prefix_len, suffix_len, max_msg_len, buf_len, within, is_cached,
}

drop-beyond : (xs ys : List ℕ) (n : ℕ) → drop (length xs + n) (xs ++ ys) ≡ drop n ys
drop-beyond [] ys n = let e : 0 + n ≡ n = omega arith in rw e refl
drop-beyond (x ∷ xs) ys n =
    let e : suc (length xs) + n ≡ suc (length xs + n) = omega arith in rw e (drop-beyond xs ys n)

take_front : (n : ℕ) (xs ys : List ℕ) → n ≤ length xs → take n (xs ++ ys) ≡ take n xs
take_front zero xs ys h = refl
take_front (suc n) [] ys h = absurd (omega arith)
take_front (suc n) (x ∷ xs) ys h = ap (◌∷◌ x) (take_front n xs ys (omega arith))

-- A write in front of an offset leaves what stands from there on.
drop-store :
    (at k : ℕ) (bytes buf : List ℕ)
    → at + length bytes ≤ k
    → k ≤ length buf
    → drop k (store at bytes buf) ≡ drop k buf
drop-store at k bytes buf h l =
    let j = at + length bytes in
    let xs = take at buf ++ bytes in
    let n : length xs ≡ j = omega (arith, length-append (take at buf) bytes, length-take at buf) in
    let e : k ≡ length xs + (k - j) = omega (arith, n) in
    let f : j + (k - j) ≡ k = omega arith in
    ap (λ m. drop m (xs ++ drop j buf)) e
    ∙ drop-beyond xs (drop j buf) (k - j)
    ∙ drop-drop (k - j) j buf
    ∙ ap (λ m. drop m buf) f

-- The first bytes of the second list are those of the first.
abbrev Keeps : ℕ → List ℕ → List ℕ → Type 0
Keeps m p q = (take m q ≡ take m p) × (m ≤ length q)

-- A write from an offset on keeps what is in front of it.
store-Keeps : (m at : ℕ) (bytes p q : List ℕ) → m ≤ at → Keeps m p q → Keeps m p (store at bytes q)
store-Keeps m at bytes p q h (e, l) =
    let xs = take at q in
    let n : m ≤ length xs = omega (arith, length-take at q) in
    (
      ap (take m) (append_assoc xs bytes (drop (at + length bytes) q))
          ∙ take_front m xs (bytes ++ drop (at + length bytes) q) n
          ∙ take-take m at q h
          ∙ e,
      omega
          (arith, length-append (xs ++ bytes) (drop (at + length bytes) q), length-append xs bytes),
    )

-- The bytes between two offsets.
take-drop : (k n : ℕ) (p : List ℕ) → take n (drop k p) ≡ drop k (take (k + n) p)
take-drop k n p =
    let e : k + n - k ≡ n = omega arith in
    ap (λ j. take j (drop k p)) (sym e) ∙ sym (drop-take k (k + n) p)

module _ {W : Type 0} (fs : Formats W) (e : Entry) (c : LogCache W)
    (text : length (fs.usec_text e.useconds e.level) ≡ 14) where
  prefix-drop :
      (time p : List ℕ)
      → prefix_len ≤ length p
      → (drop prefix_len (with_prefix fs e time p) ≡ drop prefix_len p)
        × (length (with_prefix fs e time p) ≡ length p)
  prefix-drop time p h =
      let a = length-take 18 time in
      let p1 = store 0 (take 18 time) p in
      let l1 = length-store 0 (take 18 time) p (omega (arith, a)) in
      let bytes = take 14 (fs.usec_text e.useconds e.level) ++ 0 ∷ [] in
      let b : length bytes ≤ 15 = omega (
        arith,
        length-append (take 14 (fs.usec_text e.useconds e.level)) (0 ∷ []),
        length-take 14 (fs.usec_text e.useconds e.level),
      ) in
      let p2 = store 18 bytes p1 in
      let l2 = length-store 18 bytes p1 (omega (arith, l1, b)) in
      let l3 =
        length-store (18 + length (fs.usec_text e.useconds e.level)) (32 ∷ []) p2
          (omega (arith, l1, l2, text)) in
      (
        drop-store (18 + length (fs.usec_text e.useconds e.level)) 33 (32 ∷ []) p2
              (omega (arith, text)) (omega (arith, l1, l2))
            ∙ drop-store 18 33 bytes p1 (omega (arith, b)) (omega (arith, l1))
            ∙ drop-store 0 33 (take 18 time) p (omega (arith, a)) h,
        l3 ∙ l2 ∙ l1,
      )

  names-Keeps : (m i : ℕ) (p q : List ℕ) → m ≤ i → Keeps m p q → Keeps m p (with_names fs e i q).0
  names-Keeps m i p q h k =
      let colon = i + length (terminated e.file_name) in
      let func = colon + 1 + length (fs.line_text e.line_num) in
      let end = func + length (terminated e.func_name) in
      let q1 = store i (take 128 e.file_name) q in
      let q2 = store colon (58 ∷ []) q1 in
      let q3 = print_at (colon + 1) 6 (fs.line_text e.line_num) q2 in
      let q4 = store func (take 128 e.func_name) q3 in
      let k1 = store-Keeps m i (take 128 e.file_name) p q h k in
      let k2 = store-Keeps m colon (58 ∷ []) p q1 (omega (arith, h)) k1 in
      let k3 =
        store-Keeps m (colon + 1) (take 5 (fs.line_text e.line_num) ++ 0 ∷ []) p q2
          (omega (arith, h)) k2 in
      let k4 = store-Keeps m func (take 128 e.func_name) p q3 (omega (arith, h)) k3 in
      store-Keeps m end (93 ∷ 10 ∷ []) p q4 (omega (arith, h)) k4

  suffix-Keeps :
      (m i : ℕ) (p : List ℕ)
      → 0 < pidtid_len fs e c
      → m ≤ i
      → m ≤ length p
      → Keeps m p (with_suffix fs e i c p).0
  suffix-Keeps m i p z h l =
      names-Keeps m (i + pidtid_len fs e c - 1) p (store i (pidtid_bytes fs e c) p)
        (omega (arith, h, z)) (store-Keeps m i (pidtid_bytes fs e c) p p h (refl, l))

  -- The names fit the reserve behind the text of process and thread.
  length-with_names :
      (i : ℕ) (p : List ℕ)
      → let n = length (terminated e.file_name) in
        let k = length (fs.line_text e.line_num) in
        i + n + k + 129 ≤ length p
        → i + n + k + length (terminated e.func_name) + 3 ≤ length p
        → i + 128 ≤ length p
        → length (with_names fs e i p).0 ≡ length p
  length-with_names i p a b d =
      let n = length (terminated e.file_name) in
      let k = length (fs.line_text e.line_num) in
      let line = take 5 (fs.line_text e.line_num) ++ 0 ∷ [] in
      let func = i + n + 1 + k in
      let end = func + length (terminated e.func_name) in
      let p1 = store i (take 128 e.file_name) p in
      let l1 =
        length-store i (take 128 e.file_name) p (omega (arith, d, length-take 128 e.file_name)) in
      let p2 = store (i + n) (58 ∷ []) p1 in
      let l2 = length-store (i + n) (58 ∷ []) p1 (omega (arith, a, l1)) in
      let p3 = store (i + n + 1) line p2 in
      let m : length line ≤ 6 = omega (
        arith,
        length-append (take 5 (fs.line_text e.line_num)) (0 ∷ []),
        length-take 5 (fs.line_text e.line_num),
      ) in
      let l3 = length-store (i + n + 1) line p2 (omega (arith, a, l1, l2, m)) in
      let p4 = store func (take 128 e.func_name) p3 in
      let l4 =
        length-store func (take 128 e.func_name) p3
          (omega (arith, a, l1, l2, l3, length-take 128 e.func_name)) in
      length-store end (93 ∷ 10 ∷ []) p4 (omega (arith, b, l1, l2, l3, l4)) ∙ l4 ∙ l3 ∙ l2 ∙ l1

  length-pidtid_bytes : pidtid_len fs e c ≤ 71 → length (pidtid_bytes fs e c) ≤ suffix_len
  length-pidtid_bytes l = elim (Bool-cases (is_cached fs e c)) [
    | inl h ↦ ground (arith, h, l)
    | inr h ↦ rw h (
        omega (
          arith,
          length-append (take 199 (fs.pidtid_text e.pid e.tid)) (0 ∷ []),
          length-take 199 (fs.pidtid_text e.pid e.tid),
        ))
  ]

  module _ (written : 0 < pidtid_len fs e c)
      (short : pidtid_len fs e c
          + length (terminated e.file_name)
          + length (fs.line_text e.line_num)
        ≤ 71)
      (named : length (terminated e.func_name) ≤ 126) where
    length-with_suffix :
        (i : ℕ) (p : List ℕ)
        → i + suffix_len ≤ length p
        → length (with_suffix fs e i c p).0 ≡ length p
    length-with_suffix i p h =
        let b = length-pidtid_bytes (omega (arith, short)) in
        let l = length-store i (pidtid_bytes fs e c) p (omega (arith, h, b)) in
        length-with_names (i + pidtid_len fs e c - 1) (store i (pidtid_bytes fs e c) p)
          (omega (arith, l, h, short, written)) (omega (arith, l, h, short, written, named))
          (omega (arith, l, h, short, written))
        ∙ l

    within_some : (x : List ℕ × ℕ) → length x.0 ≤ max_msg_len → within x ≡ some x
    within_some (p, i) h = ground (arith, h)

    built-message-at :
        (p : List ℕ)
        → prefix_len + e.len + suffix_len < max_msg_len
        → length p ≡ max_msg_len
        → (line : List ℕ × ℕ) × (built fs e c p ≡ some line)
          × (take e.len (drop prefix_len line.0) ≡ take e.len (drop prefix_len p))
    built-message-at p h l =
        let i = prefix_end fs e in
        let j : i ≡ prefix_len = omega (arith, text) in
        let time = time_cache fs e c in
        let q = with_prefix fs e time p in
        let a = prefix-drop time p (omega (arith, l)) in
        let line = with_suffix fs e (i + e.len) c q in
        let n = length-with_suffix (i + e.len) q (omega (arith, j, a.1, l, h)) in
        let k =
          suffix-Keeps (prefix_len + e.len) (i + e.len) q written (omega (arith, j))
            (omega (arith, a.1, l, h)) in
        (
          line,
          rw (lt→ltb (i + e.len + suffix_len) max_msg_len (omega (arith, j, h)))
              (within_some line (omega (arith, n, a.1, l))),
          take-drop prefix_len e.len line.0
              ∙ ap (drop prefix_len) k.0
              ∙ sym (take-drop prefix_len e.len q)
              ∙ ap (take e.len) a.0,
        )

-- A message that is printed into a buffer of 8192 bytes stands whole in the line that is built
-- there, behind the 33 bytes of the prefix, and no byte is written behind the buffer, if microseconds
-- and level are printed in 14 characters; if the message is shorter than the buffer with the prefix
-- and the reserve for the suffix; if the text of process and thread is not empty, and it, the name
-- of the file and the line have at most 71 characters, and the name of the function at most 126:
-- neither the time in front of the message nor the names behind it are written over it.
pub built-message :
    {W : Type 0} (fs : Formats W) (e : Entry) (c : LogCache W) (p message : List ℕ)
    → length (fs.usec_text e.useconds e.level) ≡ 14
    → length message ≡ e.len
    → prefix_len + e.len + suffix_len < max_msg_len
    → length p ≡ max_msg_len
    → 0 < pidtid_len fs e c
    → pidtid_len fs e c + length (terminated e.file_name) + length (fs.line_text e.line_num) ≤ 71
    → length (terminated e.func_name) ≤ 126
    → (line : List ℕ × ℕ) × (built fs e c (print_at prefix_len buf_len message p) ≡ some line)
      × (take e.len (drop prefix_len line.0) ≡ message)
built-message fs e c p message t n h l w f g =
    let x = built-message-at fs e c t w f g (store prefix_len printed p) h (s ∙ l) in
    (x.0, x.1, x.2 ∙ stored_back)
  where
    printed : List ℕ
    printed = take (buf_len - 1) message ++ 0 ∷ []

    whole : printed ≡ message ++ 0 ∷ []
    whole = ap (λ m. m ++ 0 ∷ []) (take_all (buf_len - 1) message (omega (arith, n, h)))

    sized : length printed ≡ suc e.len
    sized = ap length whole ∙ omega (arith, length-append message (0 ∷ []), n)

    s : length (store prefix_len printed p) ≡ length p
    s = length-store prefix_len printed p (omega (arith, sized, h, l))

    front : length (take prefix_len p) ≡ 33
    front = omega (arith, length-take prefix_len p, l)

    stored_back : take e.len (drop prefix_len (store prefix_len printed p)) ≡ message
    stored_back =
        let r = drop (prefix_len + length printed) p in
        let z : prefix_len ≡ length (take prefix_len p) + 0 = omega (arith, front) in
        ap (λ x. take e.len (drop prefix_len x)) (append_assoc (take prefix_len p) printed r)
        ∙ ap (λ k. take e.len (drop k (take prefix_len p ++ (printed ++ r)))) z
        ∙ ap (take e.len) (drop-beyond (take prefix_len p) (printed ++ r) 0)
        ∙ ap (λ x. take e.len (x ++ r)) whole
        ∙ ap (take e.len) (append_assoc message (0 ∷ []) r)
        ∙ ap (λ k. take k (message ++ (0 ∷ [] ++ r))) (sym n)
        ∙ take-append message (0 ∷ [] ++ r)
