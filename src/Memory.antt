-- ===== src/Memory.antt =====
-- Byte memory, as the code of circularqueue/src/cl_queue_operation.cpp sees it: a region of
-- addresses from `_pQueue` on, copied into and out of by `cf_memcpy`.
pub mod Ring
use cppfastdevelop.Prelude.{ℕ, zero, suc, ◌+◌, List, [], ◌∷◌, ◌==◌, if◌then◌else◌}

-- The byte at each offset.
abbrev pub Memory : Type 0
Memory = ℕ → ℕ

abbrev pub update : Memory → ℕ → ℕ → Memory
update m a v = λ i. if i == a then v else m i

-- `memcpy(m + a, bs, length bs)`.
unfoldable pub store : Memory → ℕ → List ℕ → Memory
store m a [] = m
store m a (b ∷ bs) = store (update m a b) (a + 1) bs

-- The `n` bytes that `memcpy(_, m + a, n)` copies out.
unfoldable pub load : Memory → ℕ → ℕ → List ℕ
load m a zero = []
load m a (suc n) = m a ∷ load m (a + 1) n
