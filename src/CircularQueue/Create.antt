-- ===== src/CircularQueue/Create.antt =====
-- What `QMetaOp`'s constructor leaves, and that `ElementOp::write` stays inside the region.
use cppfastdevelop.Prelude.{
  ℕ, ◌+◌, ◌-◌, ◌^◌, ◌<◌, ◌≤◌, ◌≡◌, refl, sym, Bool-cases, inl, inr, true, false, List, [], length,
  arith, leb, ◌==◌, add64, sub64,
}
use cppfastdevelop.Memory.Ring.{ring_store_outside, advance-zero}
use cppfastdevelop.CircularQueue.Def.{
  ok, throw, normal, size_too_small, Shared, Layout, IsLayout, Context,
}
use cppfastdevelop.CircularQueue.Meta.{SetupCalls, make_meta, init_mutex, init_cond, laid_out}
use cppfastdevelop.CircularQueue.Element.{write}
use cppfastdevelop.CircularQueue.Element.Invariant.{Holds}
use cppfastdevelop.CircularQueue.Element.Write.{Holds-Fits, write-appended, write-empty}
use cppfastdevelop.CircularQueue.Transfer.Refine.{Represents}

-- Every call that sets up the mutex or the condition succeeds.
pub record AllZero (c : SetupCalls) : Type 0 where
  pub attr_init : c.attr_init ≡ 0
  pub attr_setpshared : c.attr_setpshared ≡ 0
  pub object_init : c.object_init ≡ 0

abbrev fresh : Layout → ℕ → Shared → Shared
fresh l mem_size s = record s {
  info = record (laid_out l mem_size) { operation_time = 2 ^ 64 - 1 };
}

init_mutex-ok : (c : SetupCalls) → AllZero c → init_mutex c ≡ ok tt
unfolding init_mutex
init_mutex-ok c z = rw (z.attr_init, z.attr_setpshared, z.object_init)

init_cond-ok : (c : SetupCalls) → AllZero c → init_cond c ≡ ok tt
unfolding init_cond
init_cond-ok c z = rw (z.attr_init, z.attr_setpshared, z.object_init)

make_meta-fresh :
    {l : Layout} (laid : IsLayout l) (mem_size : ℕ) (mutex cond : SetupCalls) (s : Shared)
    → l.meta_size + l.header_size < mem_size
    → mem_size < 2 ^ 63
    → AllZero mutex
    → AllZero cond
    → make_meta l true mem_size mutex cond s ≡ (fresh l mem_size s, ok tt)
unfolding make_meta
make_meta-fresh {l} laid mem_size mutex cond s big small zm zc =
    let room : leb mem_size (add64 l.meta_size l.header_size) ≡ false = ground arith in
    rw (room, init_mutex-ok mutex zm, make_meta, init_cond-ok cond zc)

-- The creator of a region that has room for its meta data and a header leaves it standing for the
-- empty queue, whose capacity is what the meta data leave.
pub make_meta-Represents :
    {l : Layout} (laid : IsLayout l) (mem_size : ℕ) (mutex cond : SetupCalls) (s : Shared)
    → l.meta_size + l.header_size < mem_size
    → mem_size < 2 ^ 63
    → AllZero mutex
    → AllZero cond
    → let (s', r) = make_meta l true mem_size mutex cond s in
      (r ≡ ok tt)
      × Represents l s'
          (record { status = normal; capacity = mem_size - l.meta_size; messages = [] })
make_meta-Represents {l} laid mem_size mutex cond s big small zm zc =
    let size : sub64 mem_size l.meta_size ≡ mem_size - l.meta_size = omega arith in
    let tail_in : 0 < sub64 mem_size l.meta_size = omega arith in
    rw (make_meta-fresh laid mem_size mutex cond s big small zm zc) (
      refl,
      record {
        status = refl;
        capacity = size;
        holds = record {
          total_word = omega arith;
          tail_in = tail_in;
          space = omega arith;
          head = sym (advance-zero 0 tail_in);
          count = refl;
          elements = tt;
        };
      },
    )

-- The constructor refuses a size with no room for a header behind the meta data, and then writes
-- nothing.
pub make_meta_too_small :
    {l : Layout} (laid : IsLayout l) (mem_size : ℕ) (mutex cond : SetupCalls) (s : Shared)
    → mem_size ≤ l.meta_size + l.header_size
    → make_meta l true mem_size mutex cond s ≡ (s, throw size_too_small)
unfolding make_meta
make_meta_too_small laid mem_size mutex cond s h = ground arith

-- A message for which there is room is written inside the region: no byte past its total size
-- changes.
pub write_in_bounds :
    {l : Layout} (laid : IsLayout l) (c : Context) (body : List ℕ) {s : Shared} {bs : List (List ℕ)}
    → Holds l s bs
    → l.header_size + length body ≤ s.info.q_left_size
    → (a : ℕ) → s.info.q_total_size ≤ a
    → (write l c body s).0.queue a ≡ s.queue a
write_in_bounds {l} laid c body {s} held room a h = elim (Bool-cases (length body == 0)) [
  | inl e ↦ rw (write-empty l c body s (ground arith))
  | inr e ↦
      let f = Holds-Fits laid c body held (ground arith) room in
      rw (write-appended laid c body held (ground arith) room)
        (ring_store_outside s.queue s.info.head_index _ a f.head_in h)
]
