-- ===== src/Client/Calls/Panics.antt =====
-- When `TripleClient.Invoke` panics with protobuf.
use triple.Client.Calls.{
  invoke, recovered, copy_reply, store_reply, handle_error, handle_outcome, invoke_stub,
  call_method, is_zero_method, handle_results,
}
use triple.Client.Calls.Outcomes.{call_message}
use triple.Base.{
  panic, sym, ◌↔◌, eq_iff, some, false, true, if◌then◌else◌, List, none, Bool, Option, exit,
  panicked, Exit, ℕ, String, ◌∙◌, bind-returned, ap, returned, ◌>>=◌, ◌≡◌, M, pure, [], refl,
}
use triple.Client.Network.{Net, Arg, log_call, GrpcLib}
use triple.Client.Dialing.{
  no_outcome, StubResult, no_error, only_error, with_attachment, Outcome, TripleClient, StubLib,
}
use triple.Common.Codec.{Registry, EncodingLib}
use triple.Common.Logger.{debugf, errorf, Method, CanLog}
use triple.Common.Error.{Err, Value}
use triple.Client.Dialing.Outcomes.{log_call-returns}
use triple.Common.Attachment.{get_attachments, get_error, ErrorWithAttachment, DubboAttachment}
use triple.Common.Constant.{pb_codec_name}

-- The action returns something in every state.
abbrev Returns : {S A : Type 0} → M S A → Type 0
Returns {S} {A} m = (s : S) → (a : A) × ((m s).1 ≡ returned a)

bind-Returns :
    {S A B : Type 0} (m : M S A) (f : A → M S B)
    → Returns m
    → ((a : A) → Returns (f a))
    → Returns (m >>= f)
bind-Returns m f rm rf s =
    let (a, e) = rm s in
    let (b, e') = rf a (m s).0 in (b, ap (λ r. r.1) (bind-returned m f s a e) ∙ e')

pure-Returns : {S A : Type 0} (a : A) → Returns {S = S} (pure a)
unfolding pure
pure-Returns a s = (a, refl)

if-Returns :
    {S A : Type 0} (b : Bool) (m n : M S A) → Returns m → Returns n → Returns (if b then m else n)
if-Returns true m n rm rn = rm
if-Returns false m n rm rn = rn

returned≢panicked : {A : Type 0} {a : A} → returned a ≡ panicked → ⊥
returned≢panicked e = cc

no_panic : {A : Type 0} {e : Exit A} → (a : A) × (e ≡ returned a) → (e ≡ panicked) ↔ ⊥
no_panic (a, r) = (λ p. returned≢panicked (sym r ∙ p), λ u. absurd u)

-- The value is no ErrorWithAttachment, no error and not nil.
abbrev pub IsNoOutcome : Outcome → Type 0
IsNoOutcome (with_attachment x) = ⊥
IsNoOutcome (only_error e) = ⊥
IsNoOutcome no_error = ⊥
IsNoOutcome (no_outcome x) = Unit

-- The call panics, or it returns fewer than two results, or a second one that is not an outcome.
abbrev pub CallPanics : Exit (Option StubResult) → Type 0
CallPanics panicked = Unit
CallPanics (returned none) = Unit
CallPanics (returned (some res)) = IsNoOutcome res.outcome

module _ {S : Type 0} (stubs : StubLib S) where
  -- The method is not there, its call panics, or it returns what cannot be used.
  abbrev pub MethodPanics : Option ℕ → List Arg → Net S → Type 0
  MethodPanics none args n = Unit
  MethodPanics (some method) args n = CallPanics (stubs.call method args n).1

  -- There is no stub, or so with its method of the name.
  abbrev pub StubPanics : Option ℕ → String → List Arg → Net S → Type 0
  StubPanics none name args n = Unit
  StubPanics (some stub) name args n = MethodPanics (stubs.method_by_name stub name) args n

module _ {S Codec : Type 0} (grpc : GrpcLib S Codec) (stubs : StubLib S) (lib : EncodingLib Codec)
    (registry : Registry Codec) (c : TripleClient) (can : CanLog c.opt.logger) where
  log-Returns : (m : Method) (message : String) → Returns (log_call {S = S} c.opt.logger m message)
  log-Returns m message n = (tt, ap (λ r. r.1) (log_call-returns c.opt.logger m message n can).1)

  recovered-Returns : (e : Exit (Unit {0})) → Returns (recovered grpc stubs lib registry c e)
  unfolding recovered
  recovered-Returns (returned u) = pure-Returns none
  recovered-Returns panicked = bind-Returns _ _ (log-Returns errorf _) λ u. pure-Returns _

  copy_reply-Returns : (v reply : Value) → Returns (copy_reply grpc stubs lib registry c v reply)
  unfolding copy_reply
  copy_reply-Returns v reply n =
      recovered-Returns (stubs.reflect_response v reply n).1 (stubs.reflect_response v reply n).0

  store_reply-Returns :
      (v reply : Value) (atta : DubboAttachment)
      → Returns (store_reply grpc stubs lib registry c v reply atta)
  unfolding store_reply
  store_reply-Returns v reply atta =
      bind-Returns _ _ (log-Returns debugf _)
        λ u. bind-Returns _ _ (copy_reply-Returns v reply) λ err. pure-Returns _

  handle_error-Returns :
      (e : Option Err) (x : ErrorWithAttachment) (v reply : Value)
      → Returns (handle_error grpc stubs lib registry c e x v reply)
  unfolding handle_error
  handle_error-Returns (some e) x v reply =
      bind-Returns _ _ (log-Returns debugf _) λ u. pure-Returns _
  handle_error-Returns none x v reply =
      bind-Returns _ _ (log-Returns debugf _) λ u. store_reply-Returns v reply (get_attachments x)

  -- What is done with two results panics exactly if the second is not an outcome.
  handle_outcome-panics_iff :
      (o : Outcome) (v reply : Value) (n : Net S)
      → ((handle_outcome grpc stubs lib registry c o v reply n).1 ≡ panicked) ↔ IsNoOutcome o
  unfolding handle_outcome panic
  handle_outcome-panics_iff (with_attachment x) v reply n = no_panic (
      bind-Returns _ _ (log-Returns debugf _) (λ u. handle_error-Returns (get_error x) x v reply) n)
  handle_outcome-panics_iff (only_error e) v reply n =
      no_panic (bind-Returns _ _ (log-Returns debugf _) (λ u. pure-Returns _) n)
  handle_outcome-panics_iff no_error v reply n = no_panic (store_reply-Returns v reply [] n)
  handle_outcome-panics_iff (no_outcome x) v reply n = (λ p. tt, λ u. refl)

  called-panics_iff :
      (method : ℕ) (args : List Arg) (reply : Value) (n : Net S) (r : Exit (Option StubResult))
      → (stubs.call method args n).1 ≡ r
      → ((call_method grpc stubs lib registry c (some method) args reply n).1 ≡ panicked)
        ↔ CallPanics r
  unfolding call_method handle_results panic ◌>>=◌
  called-panics_iff method args reply n panicked e = (λ p. tt, λ u. rw e refl)
  called-panics_iff method args reply n (returned none) e = (λ p. tt, λ u. rw e refl)
  called-panics_iff method args reply n (returned (some res)) e =
      rw e (handle_outcome-panics_iff res.outcome res.reply reply (stubs.call method args n).0)

  invoke_stub-panics_iff :
      (i : Option ℕ) (name : String) (args : List Arg) (reply : Value) (n : Net S)
      → ((invoke_stub grpc stubs lib registry c i name args reply n).1 ≡ panicked)
        ↔ StubPanics stubs i name args n
  unfolding invoke_stub is_zero_method exit panic ◌>>=◌
  invoke_stub-panics_iff none name args reply n = (λ p. tt, λ p. refl)
  invoke_stub-panics_iff (some stub) name args reply n = go (stubs.method_by_name stub name) refl
    where
      go :
          (m : Option ℕ)
          → stubs.method_by_name stub name ≡ m
          → ((invoke_stub grpc stubs lib registry c (some stub) name args reply n).1 ≡ panicked)
            ↔ MethodPanics stubs m args n
      go none e = (λ p. tt, λ u. rw e refl)
      go (some method) e = rw e (called-panics_iff method args reply n _ refl)

  -- With protobuf `Invoke` panics exactly if the client has no stub, the stub has no method of the
  -- name, or the method panics when it is called, returns fewer than two results, or returns a second
  -- result that is no ErrorWithAttachment, no error and not nil. So the error for an unknown method is
  -- never returned, and the copy of the reply does not make `Invoke` panic. The logger can log.
  pub invoke-panics_iff :
      (name : String) (args : List Arg) (reply : Value) (n : Net S)
      → c.opt.codec_type ≡ pb_codec_name
      → ((invoke grpc stubs lib registry c name args reply n).1 ≡ panicked)
        ↔ StubPanics stubs c.stub_invoker name args (log_call c.opt.logger debugf call_message n).0
  unfolding invoke
  invoke-panics_iff name args reply n pb =
      let n1 = (log_call c.opt.logger debugf call_message n).0 in
      let logged : (log_call c.opt.logger debugf call_message n).1 ≡ returned tt =
        (log-Returns debugf call_message n).1 in
      rw
        (
          bind-returned (log_call c.opt.logger debugf call_message) _ n tt logged,
          (eq_iff c.opt.codec_type pb_codec_name).1 pb,
        )
        (invoke_stub-panics_iff c.stub_invoker name args reply n1)
