-- ===== src/NetServer/Buffer/Laws.antt =====
-- The buffers between `SetTotal` or `SetBuffer` and the last byte.
use cppfastdevelop.Prelude.{
  ℕ, zero, suc, ◌+◌, ◌^◌, ◌≤◌, ◌<◌, ◌≡◌, refl, sym, ap, ◌∙◌, List, ◌++◌, length, take, drop,
  length-append, length-take, length-drop, take-append, add32_small, arith,
}
use cppfastdevelop.NetServer.Buffer.{ReadBuffer, zeros, store, stored}

pub record IsReadBuffer (rb : ReadBuffer) : Type 0 where
  pub within : rb.already ≤ rb.total
  pub sized : length rb.buf ≡ rb.total
  pub word : rb.total < 2 ^ 32

-- The bytes that have come.
abbrev pub contents : ReadBuffer → List ℕ
contents rb = take rb.already rb.buf

pub length-zeros : (n : ℕ) → length (zeros n) ≡ n
unfolding zeros
length-zeros zero = refl
length-zeros (suc n) = omega (arith, length-zeros n)

pub length-store :
    (at : ℕ) (bytes buf : List ℕ)
    → at + length bytes ≤ length buf
    → length (store at bytes buf) ≡ length buf
length-store at bytes buf h =
    let rest = drop (at + length bytes) buf in
    let e : length (take at buf ++ bytes ++ rest) ≡ length buf = omega (
      arith,
      length-append (take at buf ++ bytes) rest,
      length-append (take at buf) bytes,
      length-take at buf,
      length-drop (at + length bytes) buf,
    ) in
    e

pub take-store :
    (at : ℕ) (bytes buf : List ℕ)
    → at + length bytes ≤ length buf
    → take (at + length bytes) (store at bytes buf) ≡ take at buf ++ bytes
take-store at bytes buf h =
    let rest = drop (at + length bytes) buf in
    let n : length (take at buf ++ bytes) ≡ at + length bytes =
      omega (arith, length-append (take at buf) bytes, length-take at buf) in
    ap (λ k. take k (take at buf ++ bytes ++ rest)) (sym n)
    ∙ take-append (take at buf ++ bytes) rest

pub stored-IsReadBuffer :
    (rb : ReadBuffer) (bytes : List ℕ)
    → IsReadBuffer rb
    → rb.already + length bytes ≤ rb.total
    → IsReadBuffer (stored rb bytes)
stored-IsReadBuffer rb bytes i h = record {
  within = omega (arith, i.word);
  sized = length-store rb.already bytes rb.buf (omega (arith, i.sized)) ∙ i.sized;
  word = i.word;
}

pub stored-contents :
    (rb : ReadBuffer) (bytes : List ℕ)
    → IsReadBuffer rb
    → rb.already + length bytes ≤ rb.total
    → contents (stored rb bytes) ≡ contents rb ++ bytes
stored-contents rb bytes i h =
    let e = add32_small rb.already (length bytes) (omega (arith, i.word)) in
    rw e (take-store rb.already bytes rb.buf (omega (arith, i.sized)))
