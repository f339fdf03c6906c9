-- ===== src/Client/Calls/Outcomes.antt =====
-- What the caller of `TripleClient.Invoke` gets with protobuf.
use triple.Base.{
  panic, bind-to, bind-returned, M, exit, pure, ◌∙◌, refl, eq_iff, ◌>>=◌, ap, ◌≡◌, List, ℕ,
  panicked, String, none, some, returned, Option, Exit, [],
}
use triple.Client.Dialing.{
  no_outcome, StubResult, no_error, with_attachment, TripleClient, only_error, StubLib, Outcome,
}
use triple.Client.Network.{log_call, Arg, Net, GrpcLib}
use triple.Common.Attachment.{
  DubboAttachment, get_attachments, get_error, new_error_with_attachment, ErrorWithAttachment,
}
use triple.Common.Codec.{Registry, EncodingLib}
use triple.Common.Error.{Value, Err}
use triple.Common.Logger.{LogEntry, errorf, debugf, CanLog, Method}
use triple.Client.Calls.{
  handle_results, invoke_stub, handle_error, copy_reply, recovered, handle_outcome, store_reply,
  is_zero_method, invoke, reflect_error,
}
use triple.Common.Constant.{pb_codec_name}
use triple.Client.Dialing.Outcomes.{log_call-returns}

-- The error that a copy of the reply leaves.
abbrev copy_error : Exit (Unit {0}) → Option Err
copy_error (returned u) = none
copy_error panicked = some reflect_error

-- What the caller gets for an ErrorWithAttachment, given how the copy of the reply ends.
abbrev error_reply : Option Err → ErrorWithAttachment → Exit (Unit {0}) → ErrorWithAttachment
error_reply (some e) x copied = new_error_with_attachment (some e) []
error_reply none x copied = new_error_with_attachment (copy_error copied) (get_attachments x)

-- How the call ends for a stub's result.
abbrev pub stub_reply : Outcome → Exit (Unit {0}) → Exit ErrorWithAttachment
stub_reply (only_error e) copied = returned (new_error_with_attachment (some e) [])
stub_reply no_error copied = returned (new_error_with_attachment (copy_error copied) [])
stub_reply (with_attachment x) copied = returned (error_reply (get_error x) x copied)
stub_reply (no_outcome x) copied = panicked

abbrev pub call_message : String
call_message =
    "TripleClient.Invoke: methodName = %s, inputValue = %+v, expected reply struct = %+v, client defined codec = %s"

module _ {S Codec : Type 0} (grpc : GrpcLib S Codec) (stubs : StubLib S) (lib : EncodingLib Codec)
    (registry : Registry Codec) (c : TripleClient) where
  log-exit :
      (m : Method) (message : String) (n : Net S)
      → CanLog c.opt.logger
      → (log_call c.opt.logger m message n).1 ≡ returned tt
  log-exit m message n h = ap (λ x. x.1) (log_call-returns c.opt.logger m message n h).1

  module _ (h : CanLog c.opt.logger) (v reply : Value) where
    -- How the copy ends, in a state that differs from `n` in the log alone.
    abbrev copied : Net S → List LogEntry → Exit (Unit {0})
    copied n entries = (stubs.reflect_response v reply (record n { logs = entries })).1

    -- An action that starts with a line of the log.
    logged :
        {A : Type 0} (m : Method) (message : String) (f : Unit {0} → M (Net S) A) (n : Net S)
        → (entries : List LogEntry) × ((log_call c.opt.logger m message >>= f) n
            ≡ f tt (record n { logs = entries }))
    logged m message f n =
        let (entries, e) = log_call-returns c.opt.logger m message n h in
        (entries, bind-to (log_call c.opt.logger m message) f n _ tt e)

    recovered-exit :
        (e : Exit (Unit {0})) (n : Net S)
        → (recovered grpc stubs lib registry c e n).1 ≡ returned (copy_error e)
    unfolding recovered ◌>>=◌
    recovered-exit (returned u) n = refl
    recovered-exit panicked n = rw (log-exit errorf _ n h) refl

    store_reply-exit :
        (atta : DubboAttachment) (n : Net S)
        → (entries : List LogEntry) × ((store_reply grpc stubs lib registry c v reply atta n).1
            ≡ returned (new_error_with_attachment (copy_error (copied n entries)) atta))
    unfolding store_reply copy_reply pure
    store_reply-exit atta n =
        let (entries, e) = logged debugf "TripleClient.Invoke: get reply = %+v" _ n in
        (
          entries,
          ap (λ r. r.1) e
              ∙ ap (λ r. r.1)
                  (bind-returned (copy_reply grpc stubs lib registry c v reply) _ _ _
                    (recovered-exit (copied n entries) _)),
        )

    handle_error-exit :
        (e : Option Err) (x : ErrorWithAttachment) (n : Net S)
        → (entries : List LogEntry) × ((handle_error grpc stubs lib registry c e x v reply n).1
            ≡ returned (error_reply e x (copied n entries)))
    unfolding handle_error pure
    handle_error-exit (some e) x n =
        let (entries, l) = logged debugf _ _ n in (entries, ap (λ r. r.1) l)
    handle_error-exit none x n =
        let (entries, l) = logged debugf _ _ n in
        let (entries', s) = store_reply-exit (get_attachments x) (record n { logs = entries }) in
        (entries', ap (λ r. r.1) l ∙ s)

    handle_outcome-exit :
        (o : Outcome) (n : Net S)
        → (entries : List LogEntry) × ((handle_outcome grpc stubs lib registry c o v reply n).1
            ≡ stub_reply o (copied n entries))
    unfolding handle_outcome pure panic
    handle_outcome-exit (with_attachment x) n =
        let (entries, l) = logged debugf _ _ n in
        let (entries', s) = handle_error-exit (get_error x) x (record n { logs = entries }) in
        (entries', ap (λ r. r.1) l ∙ s)
    handle_outcome-exit (only_error e) n =
        let (entries, l) = logged debugf _ _ n in (entries, ap (λ r. r.1) l)
    handle_outcome-exit no_error n = store_reply-exit [] n
    handle_outcome-exit (no_outcome x) n = (n.logs, refl)

    invoke_stub-exit :
        (stub method : ℕ) (name : String) (args : List Arg) (o : Outcome) (n n' : Net S)
        → stubs.method_by_name stub name ≡ some method
        → stubs.call method args n ≡ (n', returned (some (record { reply = v; outcome = o })))
        → (entries : List LogEntry) × ((invoke_stub grpc stubs lib registry c
              (some stub)
              name
              args
              reply
              n).1
            ≡ stub_reply o (copied n' entries))
    unfolding invoke_stub handle_results is_zero_method exit ◌>>=◌
    invoke_stub-exit stub method name args o n n' found called =
        let (entries, s) = handle_outcome-exit o n' in (entries, rw (found, called) s)

  -- With protobuf, the caller gets the error of the stub's method with no attachments, whatever the
  -- method's result holds; where there is no error, the caller gets the attachments and an error
  -- exactly if the copy of the reply panics, which is made in the state that the method leaves, but for
  -- the log. A second result that is no ErrorWithAttachment, no error and not nil makes `Invoke` panic.
  -- The client has a stub, the stub has the method, the method returns two results when it is called,
  -- and the logger can log.
  pub invoke-stub_reply :
      (stub method : ℕ) (name : String) (args : List Arg) (reply : Value) (res : StubResult)
      (n n' : Net S)
      → CanLog c.opt.logger
      → c.opt.codec_type ≡ pb_codec_name
      → c.stub_invoker ≡ some stub
      → stubs.method_by_name stub name ≡ some method
      → stubs.call method args (log_call c.opt.logger debugf call_message n).0
        ≡ (n', returned (some res))
      → (entries : List LogEntry) × ((invoke grpc stubs lib registry c name args reply n).1
          ≡ stub_reply res.outcome
              (stubs.reflect_response res.reply reply (record n' { logs = entries })).1)
  unfolding invoke
  invoke-stub_reply stub method name args reply res n n' h pb has found called =
      let (entries, s) =
        invoke_stub-exit h res.reply reply stub method name args res.outcome _ n' found called in
      (
        entries,
        ap (λ r. r.1)
              (bind-returned (log_call c.opt.logger debugf call_message) _ n tt
                (log-exit debugf call_message n h))
            ∙ rw ((eq_iff c.opt.codec_type pb_codec_name).1 pb) (
                ap
                  (λ i.
                    (invoke_stub grpc stubs lib registry c i name args reply
                      (log_call c.opt.logger debugf call_message n).0).1)
                  has
                ∙ s),
      )
