-- ===== src/NetServer/Buffer/Unsent.antt =====
-- The bytes of a `WriteBuffer` between `SetBuffer` and the last that is sent.
use cppfastdevelop.Prelude.{
  ℕ, ◌-◌, ◌^◌, ◌≤◌, ◌<◌, ◌≡◌, sym, ap, ◌∙◌, List, ◌++◌, length, length-take, length-drop, take,
  drop, take-append-drop, arith, add32_small, drop-drop,
}
use cppfastdevelop.NetServer.Buffer.{WriteBuffer, written}

-- The counts stay within the buffer's bytes.
pub record IsWriteBuffer (wb : WriteBuffer) : Type 0 where
  pub within : wb.already ≤ wb.total
  pub sized : wb.total ≤ length wb.buf
  pub word : wb.total < 2 ^ 32

-- The bytes that have not been sent.
abbrev pub unsent : WriteBuffer → List ℕ
unsent wb = drop wb.already (take wb.total wb.buf)

pub length-unsent :
    (wb : WriteBuffer) → IsWriteBuffer wb → length (unsent wb) ≡ wb.total - wb.already
length-unsent wb i =
    omega
      (arith, length-drop wb.already (take wb.total wb.buf), length-take wb.total wb.buf, i.sized)

pub unsent-written :
    (wb : WriteBuffer) (n : ℕ)
    → IsWriteBuffer wb
    → n ≤ wb.total - wb.already
    → unsent wb ≡ take n (unsent wb) ++ unsent (written wb n)
unsent-written wb n i h =
    let e = add32_small wb.already n (omega (arith, i.within, i.word)) in
    sym (take-append-drop n (unsent wb))
    ∙ ap (λ x. take n (unsent wb) ++ x)
        (drop-drop n wb.already (take wb.total wb.buf)
          ∙ ap (λ k. drop k (take wb.total wb.buf)) (sym e))

pub written-IsWriteBuffer :
    (wb : WriteBuffer) (n : ℕ)
    → IsWriteBuffer wb
    → n ≤ wb.total - wb.already
    → IsWriteBuffer (written wb n)
written-IsWriteBuffer wb n i h = record {
  within = omega (arith, i.within, i.word);
  sized = i.sized;
  word = i.word;
}
