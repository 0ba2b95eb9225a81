-- ===== src/Network/Rights/Passing.antt =====
-- Descriptors that are sent are received.
use cppfastdevelop.Prelude.{
  ℕ, ◌≤◌, ◌<◌, ◌≡◌, refl, sym, subst, Bool, true, ap, ◌∙◌, suc, [], ◌∷◌, Option, none, some, List,
  length, take_all, eq→==, ℤ, pos, negsuc, arith, dec_le, ℕ_discrete,
}
use cppfastdevelop.Network.Rights.{
  Calls, RecvmsgEnd, nothing, got, Outcome, returned, value_error, write_fds, as_fds, control_size,
  rights, send_sized, send_fds, recv_sized, recv_fds, after_recvmsg, unpacked,
  send_fds_summax_small, send_fds_summax_large,
}

-- Descriptors of the sender and of the receiver that are open on the same files, one by one.
abbrev pub SameFiles : {F : Type 0} → (ℕ → Option F) → (ℕ → Option F) → List ℕ → List ℕ → Type 0
SameFiles sender receiver [] [] = Unit {0}
SameFiles sender receiver [] (b ∷ bs) = ⊥
SameFiles sender receiver (a ∷ as') [] = ⊥
SameFiles sender receiver (a ∷ as') (b ∷ bs) =
    (receiver b ≡ sender a) × SameFiles sender receiver as' bs

-- The manual, for `sender` and `receiver`, which file a descriptor of each process is open on: the
-- macros grow with the number of descriptors; a control message of a buffer's size or less is passed
-- along with the bytes that `sendmsg` has taken; and if nothing waited in the channel, which is then
-- `idle`, the next `recvmsg` that has room for it gives it as long as it was, with new descriptors of
-- the receiver, open on the files that the sender's had when they were sent, if the receiver has that
-- many `free`.
pub record IsChannel {W F : Type 0} (sys : Calls W) (sender receiver : W → ℕ → Option F)
    (free : W → ℕ) (idle : W → Bool) : Type 0 where
  pub space_grows : (m n : ℕ) → m ≤ n → sys.cmsg_space_of m ≤ sys.cmsg_space_of n
  pub passes :
      (size room : ℕ) (fds bs : List ℕ) (bytes n : ℕ) (w : W)
      → sys.cmsg_space_of (length fds) ≤ size
      → sys.cmsg_space_of (length fds) ≤ room
      → 0 < n
      → n ≤ bytes
      → length fds ≤ free w
      → idle w ≡ true
      → (sys.sendmsg size (rights sys fds) bs w).1 ≡ pos n
      → let w' = (sys.sendmsg size (rights sys fds) bs w).0 in
        (new : List ℕ) × ((sys.recvmsg room bytes w').1 ≡ got n (some (rights sys new)))
        × SameFiles (sender w) (receiver (sys.recvmsg room bytes w').0) fds new

length-SameFiles :
    {F : Type 0} (sender receiver : ℕ → Option F) (fds new : List ℕ)
    → SameFiles sender receiver fds new
    → length new ≡ length fds
length-SameFiles sender receiver [] [] h = refl
length-SameFiles sender receiver [] (b ∷ bs) h = absurd h
length-SameFiles sender receiver (a ∷ as') [] h = absurd h
length-SameFiles sender receiver (a ∷ as') (b ∷ bs) h =
    ap suc (length-SameFiles sender receiver as' bs h.1)

module _ {W F : Type 0} {sys : Calls W} {sender receiver : W → ℕ → Option F} {free : W → ℕ}
    {idle : W → Bool} (o : IsChannel sys sender receiver free idle) where
  -- Up to 128 descriptors have a buffer, which has space for them.
  control_size-space :
      (n : ℕ)
      → n ≤ send_fds_summax_large
      → (size : ℕ) × (control_size sys n ≡ some size) × (sys.cmsg_space_of n ≤ size)
  control_size-space n h = sized (ℕ_discrete n 1) (dec_le n send_fds_summax_small)
    where
      sized :
          Dec (n ≡ 1)
          → Dec (n ≤ send_fds_summax_small)
          → (size : ℕ) × (control_size sys n ≡ some size) × (sys.cmsg_space_of n ≤ size)
      sized (yes e) d = (sys.cmsg_space_of 1, ground arith, o.space_grows n 1 (omega (arith, e)))
      sized (no e) (yes l) = (
        sys.cmsg_space_of send_fds_summax_small,
        ground arith,
        o.space_grows n send_fds_summax_small l,
      )
      sized (no e) (no l) = (
        sys.cmsg_space_of send_fds_summax_large,
        ground arith,
        o.space_grows n send_fds_summax_large h,
      )

  unpacked-rights :
      (fds : List ℕ) (array : List ℤ) (n : ℕ)
      → unpacked sys (length fds) array n (some (rights sys fds))
        ≡ (write_fds (as_fds fds) array, pos n)
  unpacked-rights fds array n =
      rw (eq→== (sys.cmsg_len_of (length fds)) (sys.cmsg_len_of (length fds)) refl)
        (ap (λ x. (write_fds (as_fds x) array, pos n)) (take_all (length fds) fds (omega arith)))

  abbrev unpacked_of : ℕ → List ℤ → RecvmsgEnd → Outcome (List ℤ × ℤ)
  unpacked_of k array (nothing n) = returned (array, n)
  unpacked_of k array (got n c) = returned (unpacked sys k array n c)

  after_recvmsg-world :
      (k : ℕ) (array : List ℤ) (x : W × RecvmsgEnd) → (after_recvmsg sys k array x).0 ≡ x.0
  after_recvmsg-world k array (w, nothing n) = refl
  after_recvmsg-world k array (w, got n c) = refl

  after_recvmsg-unpacked :
      (k : ℕ) (array : List ℤ) (x : W × RecvmsgEnd)
      → (after_recvmsg sys k array x).1 ≡ unpacked_of k array x.1
  after_recvmsg-unpacked k array (w, nothing n) = refl
  after_recvmsg-unpacked k array (w, got n c) = refl

  abbrev result_of : Outcome ℤ → ℤ
  result_of (returned n) = n
  result_of value_error = negsuc 0

  -- What a receive of the descriptors `fds`, sent in the world `w`, comes to: it returns `n`, and new
  -- descriptors, open on the same files, stand in the array.
  pub record Passes (fds : List ℕ) (array : List ℤ) (n : ℕ) (w : W) (x : W × Outcome (List ℤ × ℤ))
      : Type 0 where
    pub new : List ℕ
    pub files : SameFiles (sender w) (receiver x.0) fds new
    pub result : x.1 ≡ returned (write_fds (as_fds new) array, pos n)

  -- Where up to 128 descriptors are sent over a channel in which nothing waits, and `sendmsg` has taken some bytes that the receiver asks
  -- for, and the receiver can open that many more, the `RecvFds` of as many returns the count of those bytes, and in its array stand, in order,
  -- descriptors that are open on the files of those that were sent.
  pub recv_fds-send_fds :
      (fds bs : List ℕ) (array : List ℤ) (bytes n : ℕ) (w : W)
      → length fds ≤ send_fds_summax_large
      → 0 < n
      → n ≤ bytes
      → length fds ≤ free w
      → idle w ≡ true
      → (send_fds sys fds bs w).1 ≡ returned (pos n)
      → Passes fds array n w (recv_fds sys (length fds) array bytes (send_fds sys fds bs w).0)
  recv_fds-send_fds fds bs array bytes n w h z l v i e =
      let s = control_size-space (length fds) h in passed (control_size sys (length fds)) s.1 e
    where
      passed :
          (r : Option ℕ)
          → r ≡ some (control_size-space (length fds) h).0
          → (send_sized sys fds bs r w).1 ≡ returned (pos n)
          → Passes fds array n w
              (recv_sized sys (length fds) array bytes r (send_sized sys fds bs r w).0)
      passed none q f = absurd (cc)
      passed (some size) q f =
          let same : size ≡ (control_size-space (length fds) h).0 = cc in
          let room : sys.cmsg_space_of (length fds) ≤ size =
            omega (arith, same, (control_size-space (length fds) h).2) in
          let w' = (sys.sendmsg size (rights sys fds) bs w).0 in
          let x = sys.recvmsg size bytes w' in
          let (fresh, got_new, same_files) =
            o.passes size size fds bs bytes n w room room z l v i (ap result_of f) in
          let k = length-SameFiles (sender w) (receiver x.0) fds fresh same_files in
          record {
            new = fresh;
            files =
                subst (λ u. SameFiles (sender w) (receiver u) fds fresh)
                  (sym (after_recvmsg-world (length fds) array x)) same_files;
            result =
                after_recvmsg-unpacked (length fds) array x
                ∙ ap (unpacked_of (length fds) array) got_new
                ∙ ap (λ j. returned (unpacked sys j array n (some (rights sys fresh)))) (sym k)
                ∙ ap returned (unpacked-rights fresh array n);
          }
