-- ===== src/CircularQueue/Transfer/Refine.antt =====
-- A region that holds messages behaves as the FIFO of those messages.
use cppfastdevelop.Prelude.{
  ℕ, ◌+◌, ◌^◌, ◌<◌, ◌≤◌, ◌≡◌, refl, ap, ◌∙◌, Bool-cases, inl, inr, List, [], ◌∷◌, length, ltb, ◌==◌,
  arith, ◌||◌, false, true,
}
use cppfastdevelop.CircularQueue.Def.{Result, ok, Shared, Layout, IsLayout}
use cppfastdevelop.CircularQueue.Meta.{is_stop_put, is_stop_put_and_get}
use cppfastdevelop.CircularQueue.Element.Invariant.{bytes, Holds}
use cppfastdevelop.CircularQueue.Element.Write.{appended, write-appended, write-empty}
use cppfastdevelop.CircularQueue.Element.Append.{appended-Holds}
use cppfastdevelop.CircularQueue.Element.Read.{removed, read-removed, removed-Holds}
use cppfastdevelop.CircularQueue.Transfer.{
  Calls, Outcome, returned, waiting, signal, put_element, get_element, try_put, try_get,
  element_size,
}
use cppfastdevelop.CircularQueue.Transfer.Spec.{Fifo, offer, poll, next, notified}

-- The region `s` stands for the queue `f`.
pub record Represents (l : Layout) (s : Shared) (f : Fifo) : Type 0 where
  pub status : s.info.status ≡ f.status
  pub capacity : s.info.q_total_size ≡ f.capacity
  pub holds : Holds l s f.messages

-- A call returned `r`, and left a region that stands for `f`.
pub record Returns {ℓ} {A : Type ℓ} (l : Layout) (o : Outcome A) (f : Fifo) (r : Result A)
    : Type ℓ where
  pub region : Shared
  pub outcome : o ≡ returned region r
  pub represents : Represents l region f

module _ {l : Layout} (laid : IsLayout l) (c : Calls) {s : Shared} {f : Fifo} (v : Represents l s f)
    (now : c.context.time < 2 ^ 64) where
  unchanged {ℓ} : {A : Type ℓ} {r : Result A} → Returns l (returned s r) f r
  unchanged = record { region = s; outcome = refl; represents = v }

  -- The signal at the end of a call that has left `s'`.
  notifies {ℓ} :
      {A : Type ℓ} (a : A) (s' : Shared) {f' : Fifo}
      → Represents l s' f'
      → Returns l (signal c.signal_rt s' (ok a)) f' (notified c.signal_rt a)
  notifies a s' w = elim (Bool-cases (c.signal_rt == 0)) [
    | inl e ↦ record { region = s'; outcome = rw e; represents = w }
    | inr e ↦ record { region = s'; outcome = rw e; represents = w }
  ]

  -- `TryPut` gives what the FIFO gives, and leaves the region standing for the FIFO's new state.
  pub try_put_refines :
      (body : List ℕ)
      → length body + l.header_size < 2 ^ 64
      → let (f', r) = offer l.header_size c.signal_rt body f in Returns l (try_put l c body s) f' r
  unfolding try_put offer put_element
  try_put_refines body small =
      let n = length body + l.header_size in
      let es : element_size l body ≡ n = omega arith in
      let same : ltb s.info.q_left_size n ≡ ltb f.capacity (bytes l.header_size f.messages + n) =
        ground (arith, v.holds.space, v.capacity) in
      let stopped : (is_stop_put s.info.status || is_stop_put_and_get s.info.status)
          ≡ (is_stop_put f.status || is_stop_put_and_get f.status) =
        ap (λ st. is_stop_put st || is_stop_put_and_get st) v.status in
      let fits : ltb s.info.q_total_size n ≡ ltb f.capacity n = ap (λ k. ltb k n) v.capacity in
      rw (es, stopped, fits, same)
        elim (Bool-cases (is_stop_put f.status || is_stop_put_and_get f.status)) [
          | inl a ↦ rw a unchanged
          | inr a ↦ elim (Bool-cases (ltb f.capacity n)) [
            | inl b ↦ rw (a, b) unchanged
            | inr b ↦ elim (Bool-cases (ltb f.capacity (bytes l.header_size f.messages + n))) [
              | inl d ↦ rw (a, b, d) unchanged
              | inr d ↦ elim (Bool-cases (length body == 0)) [
                | inl e ↦ rw (a, b, d, e, write-empty l c.context body s (ground arith)) unchanged
                | inr e ↦
                    let room : l.header_size + length body ≤ s.info.q_left_size =
                      ground (arith, v.holds.space, v.capacity) in
                    rw (a, b, d, e, write-appended laid c.context body v.holds (ground arith) room)
                      (notifies tt (appended l c.context body s) (record {
                        status = v.status;
                        capacity = v.capacity;
                        holds = appended-Holds laid c.context body v.holds now (ground arith) room;
                      }))
              ]
            ]
          ]
        ]

  try_get_of :
      (bs : List (List ℕ))
      → Holds l s bs
      → is_stop_put_and_get f.status ≡ false
      → Returns l (try_get l c s) (next c.signal_rt f bs).0 (next c.signal_rt f bs).1
  unfolding try_get get_element
  try_get_of [] h a =
      let t = ap is_stop_put_and_get v.status ∙ a in
      let none_left : (s.info.element_count == 0) ≡ true = ground (arith, h.count) in
      rw (t, none_left) unchanged
  try_get_of (b ∷ bs) h a =
      let t = ap is_stop_put_and_get v.status ∙ a in
      let some_left : (s.info.element_count == 0) ≡ false = ground (arith, h.count) in
      rw (t, some_left, read-removed laid c.context b bs h)
        (notifies b (removed l c.context b s) (record {
          status = v.status;
          capacity = v.capacity;
          holds = removed-Holds laid c.context b bs h;
        }))

  -- `TryGet` likewise.
  pub try_get_refines : let (f', r) = poll c.signal_rt f in Returns l (try_get l c s) f' r
  unfolding try_get poll get_element
  try_get_refines = elim (Bool-cases (is_stop_put_and_get f.status)) [
    | inl a ↦ rw (ap is_stop_put_and_get v.status, a) unchanged
    | inr a ↦ rw a (try_get_of f.messages v.holds a)
  ]

-- A client's calls in order.
pub data Op : Type 0 where
  try_puts : Calls → List ℕ → Op
  try_gets : Calls → Op

pub data Reply : Type 0 where
  put_reply : Result (Unit {0}) → Reply
  get_reply : Result (List ℕ) → Reply

-- What the calls reply, until one would wait.
abbrev pub continue {ℓ} :
    {A : Type ℓ} → (Result A → Reply) → (Shared → List Reply) → Outcome A → List Reply
continue reply k (returned s r) = reply r ∷ k s
continue reply k (waiting s) = []

unfoldable pub run : Layout → List Op → Shared → List Reply
run l [] s = []
run l (try_puts c body ∷ ops) s = continue put_reply (run l ops) (try_put l c body s)
run l (try_gets c ∷ ops) s = continue get_reply (run l ops) (try_get l c s)

unfoldable pub run_fifo : ℕ → List Op → Fifo → List Reply
run_fifo hs [] f = []
run_fifo hs (try_puts c body ∷ ops) f =
    let (f', r) = offer hs c.signal_rt body f in put_reply r ∷ run_fifo hs ops f'
run_fifo hs (try_gets c ∷ ops) f =
    let (f', r) = poll c.signal_rt f in get_reply r ∷ run_fifo hs ops f'

-- The clock fits 64 bits, and so does the size of each element.
abbrev pub Sizes : Layout → List Op → Type 0
Sizes l [] = Unit {0}
Sizes l (try_puts c body ∷ ops) =
    (c.context.time < 2 ^ 64) × (length body + l.header_size < 2 ^ 64) × Sizes l ops
Sizes l (try_gets c ∷ ops) = (c.context.time < 2 ^ 64) × Sizes l ops

-- No sequence of `TryPut` and `TryGet` tells a region from the FIFO that it stands for.
pub run_refines :
    {l : Layout} (laid : IsLayout l) (ops : List Op) {s : Shared} {f : Fifo}
    → Represents l s f
    → Sizes l ops
    → run l ops s ≡ run_fifo l.header_size ops f
unfolding run run_fifo
run_refines laid [] v z = refl
run_refines {l} laid (try_puts c body ∷ ops) {f = f} v z =
    let r = try_put_refines laid c v z.0 body z.1 in
    rw (r.outcome) (
      ap (◌∷◌ (put_reply (offer l.header_size c.signal_rt body f).1))
        (run_refines laid ops r.represents z.2))
run_refines {l} laid (try_gets c ∷ ops) {f = f} v z =
    let r = try_get_refines laid c v z.0 in
    rw (r.outcome)
      (ap (◌∷◌ (get_reply (poll c.signal_rt f).1)) (run_refines laid ops r.represents z.1))
