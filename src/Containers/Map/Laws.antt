-- ===== src/Containers/Map/Laws.antt =====
-- `RawMap` is a partial function that a call changes at one key.
use cppfastdevelop.Prelude.{
  ℕ, ◌≡◌, refl, ap, ◌∙◌, Bool, true, false, Option, none, some, List, Fd, same_fd, same_fd_iff,
  find, insert_new, erase, find-insert_new, find-erase, insert_new_present, if◌then◌else◌, arith,
}
use cppfastdevelop.Containers.Map.{
  Outcome, returned, second, is_there, find_ex, pop, pop_found, erase_key, insert, only_insert,
  only_insert_found,
}

-- A call.
pub data Call (V : Type 0) : Type 0 where
  pops erases looks : Fd → Call V
  inserts only_inserts : Fd → V → Call V

pub data Reply (V : Type 0) : Type 0 where
  value : Outcome V → Reply V
  inserted : Bool → Reply V
  erased : ℕ → Reply V

module _ {V : Type 0} where
  abbrev pub called : Call V → List (Fd × V) → List (Fd × V) × Reply V
  called (pops k) m = ((pop k m).0, value (pop k m).1)
  called (erases k) m = ((erase_key k m).0, erased (erase_key k m).1)
  called (looks k) m = (m, value (find_ex k m))
  called (inserts k v) m = ((insert k v m).0, inserted (insert k v m).1)
  called (only_inserts k v) m = ((only_insert k v m).0, value (returned (only_insert k v m).1))

  -- The same at one key of a partial function: what stands there then, and the reply.
  abbrev pub key_of : Call V → Fd
  key_of (pops k) = k
  key_of (erases k) = k
  key_of (looks k) = k
  key_of (inserts k v) = k
  key_of (only_inserts k v) = k

  abbrev pub specified : Call V → Option V → Option V × Reply V
  specified (pops k) o = (none, value (second o))
  specified (erases k) (some v) = (none, erased 1)
  specified (erases k) none = (none, erased 0)
  specified (looks k) o = (o, value (second o))
  specified (inserts k v) (some w) = (some w, inserted false)
  specified (inserts k v) none = (some v, inserted true)
  specified (only_inserts k v) (some w) = (some w, value (returned w))
  specified (only_inserts k v) none = (some v, value (returned v))

  -- A call replies and changes its key as specified, and changes no other.
  abbrev pub Refines : Call V → List (Fd × V) → Type 0
  Refines c m =
      ((called c m).1 ≡ (specified c (find (key_of c) m)).1)
      × ((j : Fd)
          → find j (called c m).0
            ≡ (if same_fd (key_of c) j then (specified c (find (key_of c) m)).0 else find j m))

  own_key :
      (k j : Fd) (o : Option V) (m : List (Fd × V))
      → find k m ≡ o
      → find j m ≡ (if same_fd k j then o else find j m)
  own_key k j o m e = ground (arith, same_fd_iff k j)

  insert_at :
      (k : Fd) (v : V) (o : Option V) (m : List (Fd × V))
      → find k m ≡ o
      → (inserted (if is_there o then false else true) ≡ (specified (inserts k v) o).1)
        × ((j : Fd)
            → find j (insert_new k v m)
              ≡ (if same_fd k j then (specified (inserts k v) o).0 else find j m))
  insert_at k v none m e = (refl, λ j. find-insert_new k j v m e)
  insert_at k v (some w) m e =
      (refl, λ j. ap (find j) (insert_new_present k v w m e) ∙ own_key k j (some w) m e)

  only_insert_at :
      (k : Fd) (v : V) (o : Option V) (m : List (Fd × V))
      → find k m ≡ o
      → (value (returned (only_insert_found k v o m).1) ≡ (specified (only_inserts k v) o).1)
        × ((j : Fd)
            → find j (only_insert_found k v o m).0
              ≡ (if same_fd k j then (specified (only_inserts k v) o).0 else find j m))
  only_insert_at k v none m e = (refl, λ j. find-insert_new k j v m e)
  only_insert_at k v (some w) m e = (refl, λ j. own_key k j (some w) m e)

  pop_at :
      (k : Fd) (o : Option V) (m : List (Fd × V))
      → find k m ≡ o
      → (value (pop_found k o m).1 ≡ value (second o))
        × ((j : Fd) → find j (pop_found k o m).0 ≡ (if same_fd k j then none else find j m))
  pop_at k none m e = (refl, λ j. own_key k j none m e)
  pop_at k (some w) m e = (refl, λ j. find-erase k j m)

  erase_at :
      (k : Fd) (o : Option V) (m : List (Fd × V))
      → (erased (if is_there o then 1 else 0) ≡ (specified (erases k) o).1)
        × ((j : Fd)
            → find j (erase k m) ≡ (if same_fd k j then (specified (erases k) o).0 else find j m))
  erase_at k none m = (refl, λ j. find-erase k j m)
  erase_at k (some w) m = (refl, λ j. find-erase k j m)

  -- Each call on a `RawMap` replies, and changes what stands at its key, as its specification says,
  -- and leaves every other key as it is. In particular `Insert` never changes an entry that is
  -- there, and says so, `OnlyInsert` returns what stands at the key then, and `Pop` and `FindEx`
  -- throw where there is no entry.
  pub call-Refines : (c : Call V) (m : List (Fd × V)) → Refines c m
  call-Refines (pops k) m = pop_at k (find k m) m refl
  call-Refines (erases k) m = erase_at k (find k m) m
  call-Refines (looks k) m = (refl, λ j. own_key k j (find k m) m refl)
  call-Refines (inserts k v) m = insert_at k v (find k m) m refl
  call-Refines (only_inserts k v) m = only_insert_at k v (find k m) m refl
