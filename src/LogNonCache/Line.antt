-- ===== src/LogNonCache/Line.antt =====
-- What a line holds, and where its bytes go.
use cppfastdevelop.Prelude.{
  ℕ, ◌+◌, ◌-◌, ◌≤◌, ◌<◌, ◌≡◌, refl, sym, ap, ◌∙◌, false, List, [], ◌∷◌, ◌++◌, append_assoc, length,
  length-append, length-take, take, drop, take-append, if◌then◌else◌, arith, some, ltb, ℤ, pos,
  subst, none, ◌⊎◌, inl, inr, dec_le,
}
use cppfastdevelop.NetServer.Buffer.{store, zeros}
use cppfastdevelop.NetServer.Buffer.Laws.{length-store, length-zeros}
use cppfastdevelop.LogNonCache.{
  Calls, Entry, LogNonCache, print_fields, built, time_cache, fields_of, verbose_fields_of,
  write_with, write_line, write_verbose, written, sent_line, Outcome, returned, overrun,
  max_msg_len,
}

-- The bytes that the sizes of the texts make up.
abbrev pub sizes : List (ℕ × List ℕ) → ℕ
sizes [] = 0
sizes ((size, text) ∷ fields) = size + sizes fields

-- Each text has room for its NUL.
abbrev Roomy : List (ℕ × List ℕ) → Type 0
Roomy [] = Unit {0}
Roomy ((size, text) ∷ fields) = (0 < size) × Roomy fields

length-print_fields :
    (fields : List (ℕ × List ℕ)) (i : ℕ) (p : List ℕ)
    → Roomy fields
    → i + sizes fields ≤ length p
    → (length (print_fields fields i p).0 ≡ length p)
      × ((print_fields fields i p).1 ≡ i + sizes fields)
length-print_fields [] i p r h = (refl, omega arith)
length-print_fields ((size, text) ∷ fields) i p r h =
    let bytes = take (size - 1) text ++ 0 ∷ [] in
    let b : length bytes ≤ size =
      omega
        (arith, r.0, length-append (take (size - 1) text) (0 ∷ []), length-take (size - 1) text) in
    let l = length-store i bytes p (omega (arith, h, b)) in
    let ih = length-print_fields fields (i + size) (store i bytes p) r.1 (omega (arith, l, h)) in
    (ih.0 ∙ l, omega (arith, ih.1))

-- The bytes up to the end of a write.
take-store :
    (i : ℕ) (bytes p : List ℕ)
    → i ≤ length p
    → take (i + length bytes) (store i bytes p) ≡ take i p ++ bytes
take-store i bytes p h =
    let xs = take i p ++ bytes in
    let n : i + length bytes ≡ length xs =
      omega (arith, h, length-append (take i p) bytes, length-take i p) in
    ap (λ k. take k (xs ++ drop (i + length bytes) p)) n
    ∙ take-append xs (drop (i + length bytes) p)

module _ (fields : List (ℕ × List ℕ)) (time message : List ℕ) (roomy : Roomy fields)
    (room : 17 + sizes fields ≤ max_msg_len) where
  abbrev printed : List ℕ × ℕ
  printed = print_fields fields 17 (store 0 (take 17 time) (zeros max_msg_len))

  timed : length (store 0 (take 17 time) (zeros max_msg_len)) ≡ max_msg_len
  timed =
      let t = length-take 17 time in
      let z = length-zeros max_msg_len in
      length-store 0 (take 17 time) (zeros max_msg_len) (omega (arith, t, z)) ∙ z

  length-printed : (length printed.0 ≡ max_msg_len) × (printed.1 ≡ 17 + sizes fields)
  length-printed =
      let p = store 0 (take 17 time) (zeros max_msg_len) in
      let l = length-print_fields fields 17 p roomy (omega (arith, timed, room)) in
      (l.0 ∙ timed, l.1)

  -- What the fields leave in front of the message.
  abbrev head : List ℕ
  head = take printed.1 printed.0

  length-head : length head ≡ 17 + sizes fields
  length-head = omega (arith, length-take printed.1 printed.0, length-printed, room)

  -- The line that is built where the message fits.
  abbrev line : List ℕ × ℕ
  line = (
    store (printed.1 + length message) (10 ∷ []) (store printed.1 message printed.0),
    printed.1 + length message + 1,
  )

  built_fits :
      17 + sizes fields + length message + 1 ≤ max_msg_len → built fields time message ≡ some line
  built_fits h = let l = length-printed in ground (arith, l, h)

  built_over :
      max_msg_len < 17 + sizes fields + length message + 1 → built fields time message ≡ none
  built_over h = let l = length-printed in ground (arith, l, h)

  module _ (fits : 17 + sizes fields + length message + 1 ≤ max_msg_len) where
    length-stored : length (store printed.1 message printed.0) ≡ max_msg_len
    length-stored =
        let l = length-printed in
        length-store printed.1 message printed.0 (omega (arith, l, fits)) ∙ l.0

    take-line : take line.1 line.0 ≡ head ++ (message ++ 10 ∷ [])
    take-line =
        let p = printed.0 in
        let i = printed.1 in
        let l = length-printed in
        let q = store i message p in
        take-store (i + length message) (10 ∷ []) q (omega (arith, length-stored, l, fits))
        ∙ ap (λ xs. xs ++ 10 ∷ []) (take-store i message p (omega (arith, l, room)))
        ∙ append_assoc head message (10 ∷ [])

    length-line : length line.0 ≡ max_msg_len
    length-line =
        let l = length-printed in
        length-store (printed.1 + length message) (10 ∷ []) (store printed.1 message printed.0)
          (omega (arith, length-stored, l, fits))
        ∙ length-stored

-- A call that writes `front` bytes, the message and a newline, in one piece, and keeps the size of
-- the buffer.
abbrev pub Writes :
    {W : Type 0} → Calls W → ℕ → Entry → LogNonCache → W → W × LogNonCache × Outcome ℤ → Type 0
Writes sys front e c w (w', c', r) =
    (head : List ℕ) × (length head ≡ front)
    × (w' ≡ (sys.write c.fd (head ++ (e.message ++ 10 ∷ [])) w).0)
    × (r ≡ returned (sys.write c.fd (head ++ (e.message ++ 10 ∷ [])) w).1)
    × (length c'.dest_buf ≡ max_msg_len)

-- The same where the message fits behind `front` bytes; where it does not, the call has written over
-- the end of its buffer.
abbrev pub WritesOrOverruns :
    {W : Type 0} → Calls W → ℕ → Entry → LogNonCache → W → W × LogNonCache × Outcome ℤ → Type 0
WritesOrOverruns sys front e c w x =
    ((front + length e.message + 1 ≤ max_msg_len) × Writes sys front e c w x)
    ⊎ ((max_msg_len < front + length e.message + 1) × (x.2 ≡ overrun))

module _ {W : Type 0} (sys : Calls W) (e : Entry) (c : LogNonCache) (w : W) (seconds useconds : ℕ)
    (logged : ltb e.level c.level ≡ false)
    (clock : (sys.gettimeofday w).1 ≡ some (seconds, useconds)) where
  write_with-Writes :
      (fields : Entry → ℕ → List (ℕ × List ℕ))
      → Roomy (fields e useconds)
      → 17 + sizes (fields e useconds) ≤ max_msg_len
      → WritesOrOverruns sys
          (17 + sizes (fields e useconds))
          e
          c
          (sys.gettimeofday w).0
          (write_with sys fields e c w)
  write_with-Writes fields roomy room =
      subst (WritesOrOverruns sys (17 + sizes fs) e c w1)
        (sym (
          ap
            (λ b.
              if b then (w, c, returned (pos 0)) else written sys fields e c (sys.gettimeofday w))
            logged
          ∙ ap (λ x. written sys fields e c (w1, x)) clock))
        (sent (dec_le (17 + sizes fs + length e.message + 1) max_msg_len))
    where
      fs : List (ℕ × List ℕ)
      fs = fields e useconds

      time : List ℕ
      time = time_cache sys seconds c

      w1 : W
      w1 = (sys.gettimeofday w).0

      sent :
          Dec (17 + sizes fs + length e.message + 1 ≤ max_msg_len)
          → WritesOrOverruns sys
              (17 + sizes fs)
              e
              c
              w1
              (sent_line sys c time (built fs time e.message) w1)
      sent (yes h) =
          let t = take-line fs time e.message roomy room h in
          rw (built_fits fs time e.message roomy room h) (
            inl (
              h,
              (
                head fs time e.message roomy room,
                length-head fs time e.message roomy room,
                ap (λ bs. (sys.write c.fd bs w1).0) t,
                ap (λ bs. returned (sys.write c.fd bs w1).1) t,
                length-line fs time e.message roomy room h,
              ),
            ))
      sent (no h) =
          let o : max_msg_len < 17 + sizes fs + length e.message + 1 = omega (arith, h) in
          rw (built_over fs time e.message roomy room o) (inr (o, refl))

  -- An entry that is not below the level, on a clock that can be read, is written in one piece if
  -- its message and a newline fit the buffer of 8192 bytes behind 63 bytes by `Write`, and behind 95
  -- by `WriteVerbose`: behind these bytes stand the whole message and a newline. One that does not
  -- fit is written over the end of the buffer.
  pub write_line-Writes :
      WritesOrOverruns sys 63 e c (sys.gettimeofday w).0 (write_line sys e c w)
      × WritesOrOverruns sys 95 e c (sys.gettimeofday w).0 (write_verbose sys e c w)
  write_line-Writes = (
    write_with-Writes (fields_of sys) (omega arith) (omega arith),
    write_with-Writes (verbose_fields_of sys) (omega arith) (omega arith),
  )
