-- ===== src/SystemStub/Nulls.antt =====
-- The guarded functions of cf_system_stub.c taken together: what null pointers come to.
use cppfastdevelop.Prelude.{
  ◌≡◌, refl, sym, ap, ◌∙◌, false, Bool-cases, inl, inr, List, [], ◌∷◌, if◌then◌else◌,
}
use cppfastdevelop.SystemStub.Calling.{Pointer, Process, Call, Reply, any_null, refused}
use cppfastdevelop.SystemStub.Io
use cppfastdevelop.SystemStub.Ipc
use cppfastdevelop.SystemStub.Text
use cppfastdevelop.SystemStub.Process as Own

pub record Calls (W : Type 0) : Type 0 where
  pub io_calls : Io.Calls W
  pub ipc_calls : Ipc.Calls W
  pub text_calls : Text.Calls W
  pub own_calls : Own.Calls W

pub data Request : Type 0 where
  io : Io.Request → Request
  ipc : Ipc.Request → Request
  text : Text.Request → Request
  own : Own.Request → Request

abbrev pub guarded : Request → List Pointer
guarded (io r) = Io.guarded r
guarded (ipc r) = Ipc.guarded r
guarded (text r) = Text.guarded r
guarded (own r) = Own.guarded r

module _ {W : Type 0} (sys : Calls W) where
  abbrev pub perform : Request → Call W Reply
  perform (io r) = Io.perform sys.io_calls r
  perform (ipc r) = Ipc.perform sys.ipc_calls r
  perform (text r) = Text.perform sys.text_calls r
  perform (own r) = Own.perform sys.own_calls r

  abbrev pub call_of : Request → Call W Reply
  call_of (io r) = Io.call_of sys.io_calls r
  call_of (ipc r) = Ipc.call_of sys.ipc_calls r
  call_of (text r) = Text.call_of sys.text_calls r
  call_of (own r) = Own.call_of sys.own_calls r

  abbrev pub failure : Request → Reply
  failure (io r) = Io.failure sys.io_calls r
  failure (ipc r) = Ipc.failure sys.ipc_calls r
  failure (text r) = Text.failure sys.text_calls r
  failure (own r) = Own.failure sys.own_calls r

  -- A function that is given null for one of the pointers in its list makes no call of the system,
  -- sets `errno` to CF_E_NULLPARAMS and returns its failure; with other pointers it does what its
  -- call does, and nothing else.
  pub perform-guards :
      (r : Request) (p : Process W)
      → perform r p ≡ (if any_null (guarded r) then refused (failure r) p else call_of r p)
  perform-guards (io r) p = Io.perform-guards sys.io_calls r p
  perform-guards (ipc r) p = Ipc.perform-guards sys.ipc_calls r p
  perform-guards (text r) p = Text.perform-guards sys.text_calls r p
  perform-guards (own r) p = Own.perform-guards sys.own_calls r p

  -- A program, which goes on by what it has been replied.
  unfoldable pub run : List (Reply → Request) → Reply → Call W Reply
  run [] a p = (p, a)
  run (next ∷ rest) a p = run rest (perform (next a) p).1 (perform (next a) p).0

-- Two systems do the same for pointers that are not null, and name failure in the same way.
pub record AgreeOffNull {W : Type 0} (sys sys' : Calls W) : Type 0 where
  pub calls :
      (r : Request) (p : Process W)
      → any_null (guarded r) ≡ false
      → call_of sys r p ≡ call_of sys' r p
  pub failures : (r : Request) → failure sys r ≡ failure sys' r

perform-agrees :
    {W : Type 0} {sys sys' : Calls W}
    → AgreeOffNull sys sys'
    → (r : Request) (p : Process W) → perform sys r p ≡ perform sys' r p
perform-agrees {W} {sys} {sys'} ag r p = elim (Bool-cases (any_null (guarded r))) [
  | inl e ↦
      perform-guards sys r p
      ∙ ap (λ b. if b then refused (failure sys r) p else call_of sys r p) e
      ∙ ap (λ f. refused {W = W} f p) (ag.failures r)
      ∙ sym (ap (λ b. if b then refused (failure sys' r) p else call_of sys' r p) e)
      ∙ sym (perform-guards sys' r p)
  | inr e ↦
      perform-guards sys r p
      ∙ ap (λ b. if b then refused (failure sys r) p else call_of sys r p) e
      ∙ ag.calls r p e
      ∙ sym (ap (λ b. if b then refused (failure sys' r) p else call_of sys' r p) e)
      ∙ sym (perform-guards sys' r p)
]

-- What a system would do with null pointers never matters to a program that calls it through these
-- functions: on two systems that agree off null, the program is replied the same and leaves the
-- same `errno` and the same world.
pub run-agrees :
    {W : Type 0} {sys sys' : Calls W}
    → AgreeOffNull sys sys'
    → (program : List (Reply → Request)) (a : Reply) (p : Process W)
    → run sys program a p ≡ run sys' program a p
unfolding run
run-agrees ag [] a p = refl
run-agrees {W} {sys} {sys'} ag (next ∷ rest) a p =
    ap (λ x. run sys rest x.1 x.0) (perform-agrees ag (next a) p)
    ∙ run-agrees ag rest (perform sys' (next a) p).1 (perform sys' (next a) p).0
