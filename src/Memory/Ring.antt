-- ===== src/Memory/Ring.antt =====
-- The same region as a ring of `total` bytes: what the copies of cl_queue_operation.cpp do
-- together, however they are cut at the end of the region.
use cppfastdevelop.Prelude.{
  ℕ, zero, suc, ◌+◌, ◌-◌, ◌≤◌, ◌<◌, ◌≡◌, refl, ap, ap₂, ◌∙◌, List, [], ◌∷◌, ◌++◌, arith, ltb,
  if◌then◌else◌, length,
}
use cppfastdevelop.Memory.{Memory, update, store, load}

-- `n` bytes further round the ring, for `n` at most `total`.
abbrev pub advance : ℕ → ℕ → ℕ → ℕ
advance total p n = if ltb (p + n) total then p + n else p + n - total

module _ (total : ℕ) where
  pub ring_store : Memory → ℕ → List ℕ → Memory
  ring_store m p [] = m
  ring_store m p (b ∷ bs) = ring_store (update m p b) (advance total p 1) bs

  pub ring_load : Memory → ℕ → ℕ → List ℕ
  ring_load m p zero = []
  ring_load m p (suc n) = m p ∷ ring_load m (advance total p 1) n

  pub length-ring_load : (m : Memory) (p n : ℕ) → length (ring_load m p n) ≡ n
  unfolding ring_load
  length-ring_load m p zero = refl
  length-ring_load m p (suc n) = ap suc (length-ring_load m (advance total p 1) n)

  pub ring_load-head : (m : Memory) (p n : ℕ) → 0 < n → (r : List ℕ) × (ring_load m p n ≡ m p ∷ r)
  unfolding ring_load
  ring_load-head m p zero h = elim h [ ]
  ring_load-head m p (suc n) h = (ring_load m (advance total p 1) n, refl)

module _ {total : ℕ} where
  pub advance-lt : (p n : ℕ) → p < total → n ≤ total → advance total p n < total
  advance-lt p n h k = ground arith

  pub advance-advance :
      (p m n : ℕ)
      → p < total
      → m + n ≤ total
      → advance total (advance total p m) n ≡ advance total p (m + n)
  advance-advance p m n h k = ground arith

  pub advance-zero : (p : ℕ) → p < total → advance total p 0 ≡ p
  advance-zero p h = ground arith

  pub store-ring :
      (m : Memory) (p : ℕ) (bs : List ℕ)
      → p + length bs ≤ total
      → store m p bs ≡ ring_store total m p bs
  unfolding store ring_store
  store-ring m p [] h = refl
  store-ring m p (b ∷ []) h = refl
  store-ring m p (b ∷ c ∷ bs) h =
      let e : advance total p 1 ≡ p + 1 = ground arith in
      rw e (store-ring (update m p b) (p + 1) (c ∷ bs) (omega arith))

  -- Writing two pieces one behind the other is writing them joined.
  pub ring_store-append :
      (m : Memory) (p : ℕ) (xs ys : List ℕ)
      → p < total
      → length xs ≤ total
      → ring_store total m p (xs ++ ys)
        ≡ ring_store total (ring_store total m p xs) (advance total p (length xs)) ys
  unfolding ring_store
  ring_store-append m p [] ys h k = rw (advance-zero p h)
  ring_store-append m p (x ∷ xs) ys h k =
      let e : advance total (advance total p 1) (length xs) ≡ advance total p (suc (length xs)) =
        ground arith in
      rw (← e) (
        ring_store-append (update m p x) (advance total p 1) xs ys (advance-lt p 1 h (omega arith))
          (omega arith))

  -- A write past a window of the ring leaves the window alone.
  ring_load-update :
      (m : Memory) (p k v n : ℕ)
      → p < total
      → k < total
      → n ≤ k
      → ring_load total (update m (advance total p k) v) p n ≡ ring_load total m p n
  unfolding ring_load
  ring_load-update m p k v zero hp hk hn = refl
  ring_load-update m p zero v (suc n) hp hk hn = absurd (omega arith)
  ring_load-update m p (suc k) v (suc n) hp hk hn =
      let e : advance total (advance total p 1) k ≡ advance total p (suc k) = ground arith in
      let ih =
        ring_load-update m (advance total p 1) k v n (advance-lt p 1 hp (omega arith)) (omega arith)
          (omega arith) in
      ap₂ ◌∷◌ (ground arith) (rw e at ih)

  pub ring_load-ring_store :
      (m : Memory) (p k : ℕ) (bs : List ℕ) (n : ℕ)
      → p < total
      → n ≤ k
      → k + length bs ≤ total
      → ring_load total (ring_store total m (advance total p k) bs) p n ≡ ring_load total m p n
  unfolding ring_store
  ring_load-ring_store m p k [] n hp hn hk = refl
  ring_load-ring_store m p k (b ∷ bs) n hp hn hk =
      let e : advance total (advance total p k) 1 ≡ advance total p (suc k) = ground arith in
      rw e (
        ring_load-ring_store (update m (advance total p k) b) p (suc k) bs n hp (omega arith)
          (omega arith)
        ∙ ring_load-update m p k b n hp (omega arith) hn)

  -- What was written at a place of the ring is read there.
  pub ring_load-ring_store_self :
      (m : Memory) (p : ℕ) (bs : List ℕ)
      → p < total
      → length bs ≤ total
      → ring_load total (ring_store total m p bs) p (length bs) ≡ bs
  unfolding ring_store ring_load
  ring_load-ring_store_self m p [] hp h = refl
  ring_load-ring_store_self m p (b ∷ bs) hp h =
      let first = ring_load-ring_store (update m p b) p 1 bs 1 hp (omega arith) (omega arith) in
      let ih =
        ring_load-ring_store_self (update m p b) (advance total p 1) bs
          (advance-lt p 1 hp (omega arith)) (omega arith) in
      ground (arith, first, ih)

  -- Reading a window is reading its two parts.
  pub ring_load-add :
      (m : Memory) (p i j : ℕ)
      → p < total
      → i + j ≤ total
      → ring_load total m p (i + j)
        ≡ ring_load total m p i ++ ring_load total m (advance total p i) j
  unfolding ring_load
  ring_load-add m p zero j hp h = let e : 0 + j ≡ j = omega arith in rw (e, advance-zero p hp)
  ring_load-add m p (suc i) j hp h =
      let e : suc i + j ≡ suc (i + j) = omega arith in
      let a : advance total (advance total p 1) i ≡ advance total p (suc i) = ground arith in
      let ih =
        ring_load-add m (advance total p 1) i j (advance-lt p 1 hp (omega arith)) (omega arith) in
      rw (e, ring_load) (ap (◌∷◌ (m p)) (rw a at ih))

  pub load-ring : (m : Memory) (p n : ℕ) → p + n ≤ total → load m p n ≡ ring_load total m p n
  unfolding load ring_load
  load-ring m p zero h = refl
  load-ring m p (suc zero) h = refl
  load-ring m p (suc (suc n)) h =
      let e : advance total p 1 ≡ p + 1 = ground arith in
      rw e (ap (◌∷◌ (m p)) (load-ring m (p + 1) (suc n) (omega arith)))

  -- Nothing past the region is written.
  pub ring_store_outside :
      (m : Memory) (p : ℕ) (bs : List ℕ) (a : ℕ)
      → p < total
      → total ≤ a
      → ring_store total m p bs a ≡ m a
  unfolding ring_store
  ring_store_outside m p [] a hp h = refl
  ring_store_outside m p (b ∷ bs) a hp h =
      ring_store_outside (update m p b) (advance total p 1) bs a (advance-lt p 1 hp (omega arith)) h
      ∙ ground arith

  -- A copy to the place where the last one ended.
  pub store-ring_store :
      (m : Memory) (p : ℕ) (xs : List ℕ) (q : ℕ) (ys : List ℕ)
      → p < total
      → length xs ≤ total
      → q ≡ advance total p (length xs)
      → q + length ys ≤ total
      → store (ring_store total m p xs) q ys ≡ ring_store total m p (xs ++ ys)
  store-ring_store m p xs q ys hp hx e h =
      rw (store-ring (ring_store total m p xs) q ys h, e, ring_store-append m p xs ys hp hx)

  -- Two pieces written together are read apart.
  pub ring_load-ring_store_append :
      (m : Memory) (p : ℕ) (xs ys : List ℕ)
      → p < total
      → length xs + length ys ≤ total
      → (ring_load total (ring_store total m p (xs ++ ys)) p (length xs) ≡ xs)
        × (ring_load total
              (ring_store total m p (xs ++ ys))
              (advance total p (length xs))
              (length ys)
            ≡ ys)
  ring_load-ring_store_append m p xs ys hp h =
      let e = ring_store-append m p xs ys hp (omega arith) in
      let m' = ring_store total m p xs in
      rw e (
        ring_load-ring_store m' p (length xs) ys (length xs) hp (omega arith) h
            ∙ ring_load-ring_store_self m p xs hp (omega arith),
        ring_load-ring_store_self m' (advance total p (length xs)) ys
            (advance-lt p (length xs) hp (omega arith)) (omega arith),
      )

  -- A copy that stops at the end of the region, and one from its start.
  pub load-load-ring :
      (m : Memory) (p i j : ℕ)
      → p < total
      → p + i ≡ total
      → i + j ≤ total
      → load m p i ++ load m 0 j ≡ ring_load total m p (i + j)
  load-load-ring m p i j hp hi hj =
      let e : advance total p i ≡ 0 = ground arith in
      rw (
        ring_load-add m p i j hp hj,
        e,
        load-ring m p i (omega arith),
        load-ring m 0 j (omega arith),
      )
