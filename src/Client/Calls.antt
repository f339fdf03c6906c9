-- ===== src/Client/Calls.antt =====
-- `TripleClient.Invoke`, `Close` and `IsAvailable` of pkg/triple/dubbo3_client.go.
pub mod Closing
pub mod Outcomes
pub mod Panics
pub mod Remote
use triple.Base.{
  exit, ◌==◌, panic, if◌then◌else◌, ◌>>=◌, List, modify, false, concat, returned, ◌>>◌, none, pure,
  panicked, some, true, Bool, ℕ, M, Exit, Option, String, [], ◌∷◌,
}
use triple.Common.Error.{failure, success, Result, text, Code, status_errorf, Err, Value}
use triple.Client.Network.{context, value, close_conn, Arg, log_call, Net, GrpcLib}
use triple.Common.Constant.{
  interface_key, msg_pack_codec_name, pb_codec_name, hessian_codec_name, CodecType,
}
use triple.Client.Dialing.{
  StubResult, no_outcome, no_error, only_error, with_attachment, Outcome, StubLib, TripleClient,
}
use triple.Common.Logger.{debug, debugf, errorf}
use triple.Common.Codec.{get_triple_codec, Registry, EncodingLib}
use triple.Common.Attachment.{
  get_attachments, get_error, new_error_with_attachment, DubboAttachment, ErrorWithAttachment,
}
use triple.Client.Connection.{conn_invoke, TripleConn}
use triple.Common.Context.{assert_text, value_of, Context}

-- `method.IsZero()`, which panics on the zero `reflect.Value` that an unknown name gives.
unfoldable pub is_zero_method : Option ℕ → Exit Bool
is_zero_method none = panicked
is_zero_method (some m) = returned false

abbrev pub serialization_error : CodecType → Err
serialization_error t =
    status_errorf Code.unimplemented
      (concat "TripleClient.Invoke: serialization " (concat t " not impl in triple client api."))

abbrev pub method_error : String → Err
method_error name =
    status_errorf Code.unimplemented
      (concat "TripleClient.Invoke: methodName " (concat name " not impl in triple client api."))

abbrev pub reflect_error : Err
reflect_error = Err.errorf "TripleClient.Invoke: response reflect to reply error = %+v"

-- The `switch` on the codec of a client whose codec is not protobuf.
module _ {Codec : Type 0} (lib : EncodingLib Codec) (registry : Registry Codec) where
  unfoldable pub client_codec : CodecType → Result Codec
  client_codec t =
      if t == hessian_codec_name
      then success lib.new_hessian_codec
      else (if t == msg_pack_codec_name
          then success lib.new_msg_pack_codec
          else get_triple_codec registry t)

module _ {S Codec : Type 0} (grpc : GrpcLib S Codec) (stubs : StubLib S) (lib : EncodingLib Codec)
    (registry : Registry Codec) (c : TripleClient) where
  debug_log : String → M (Net S) (Unit {0})
  debug_log message = log_call c.opt.logger debugf message

  -- The goroutine that copies the reply: its error is nil, or made from a panic. The error that
  -- `ReflectResponse` returns is dropped.
  recovered : Exit (Unit {0}) → M (Net S) (Option Err)
  recovered (returned u) = pure none
  recovered panicked = do
    log_call c.opt.logger errorf "TripleClient.Invoke: response reflect to reply error = %+v"
    pure (some reflect_error)

  copy_reply : Value → Value → M (Net S) (Option Err)
  unfolding recovered
  copy_reply v reply n = let (n', e) = stubs.reflect_response v reply n in recovered e n'

  store_reply : Value → Value → DubboAttachment → M (Net S) ErrorWithAttachment
  unfolding debug_log copy_reply
  store_reply v reply attachment = do
    debug_log "TripleClient.Invoke: get reply = %+v"
    err ← copy_reply v reply
    pure (new_error_with_attachment err attachment)

  -- The branch of newer stubs, by the error inside.
  handle_error : Option Err → ErrorWithAttachment → Value → Value → M (Net S) ErrorWithAttachment
  unfolding store_reply
  handle_error (some e) err_with_atta v reply = do
    debug_log "TripleClient.Invoke: get result errorWithAttachment, error = %s"
    pure (new_error_with_attachment (some e) [])
  handle_error none err_with_atta v reply = do
    debug_log "TripleClient.Invoke: get response attachement = %+v"
    store_reply v reply (get_attachments err_with_atta)

  -- `attachment` is the empty map that `Invoke` starts with. The type assertion on a value that is no
  -- error panics, as an argument of the log's call.
  handle_outcome : Outcome → Value → Value → M (Net S) ErrorWithAttachment
  unfolding handle_error
  handle_outcome (with_attachment e) v reply = do
    debug_log "TripleClient.Invoke: get result final struct is common.ErrorWithAttachment"
    handle_error (get_error e) e v reply
  handle_outcome (only_error e) v reply = do
    debug_log "TripleClient.Invoke: get result final struct is error = %s"
    pure (new_error_with_attachment (some e) [])
  handle_outcome no_error v reply = store_reply v reply []
  handle_outcome (no_outcome x) v reply = panic

  -- `res[1]` is out of range for a method of fewer than two results.
  handle_results : Option StubResult → Value → M (Net S) ErrorWithAttachment
  unfolding handle_outcome
  handle_results none reply = panic
  handle_results (some res) reply = handle_outcome res.outcome res.reply reply

  call_method : Option ℕ → List Arg → Value → M (Net S) ErrorWithAttachment
  unfolding handle_results
  call_method none args reply = panic
  call_method (some m) args reply = do res ← stubs.call m args; handle_results res reply

  -- A method of the stub; `MethodByName` panics where there is no stub.
  invoke_stub : Option ℕ → String → List Arg → Value → M (Net S) ErrorWithAttachment
  unfolding call_method
  invoke_stub none method_name args reply = panic
  invoke_stub (some stub) method_name args reply = do
    let method = stubs.method_by_name stub method_name
    zero ← exit (is_zero_method method)
    if zero
        then (do
          log_call c.opt.logger errorf
              "TripleClient.Invoke: methodName %s not impl in triple client api."
          pure (new_error_with_attachment (some (method_error method_name)) []))
        else call_method method args reply

  -- A call on the client's connection, which panics where that is nil.
  on_conn :
      Option TripleConn
      → Context
      → String
      → List Arg
      → Value
      → Codec
      → M (Net S) ErrorWithAttachment
  on_conn none ctx path params reply codec = panic
  on_conn (some t) ctx path params reply codec =
      conn_invoke grpc t ctx path params reply
        (lib.new_pb_wrapper_two_way_codec c.opt.codec_type codec lib.new_protobuf_codec ∷ [])

  -- The first argument has to be a context.
  invoke_conn : String → List Arg → Value → M (Net S) ErrorWithAttachment
  unfolding debug_log client_codec on_conn
  invoke_conn method_name [] reply = panic
  invoke_conn method_name (value v ∷ params) reply = panic
  invoke_conn method_name (context ctx ∷ params) reply = do
    key ← exit (assert_text (value_of ctx interface_key))
    debug_log "TripleClient.Invoke: call with interfaceKey = %s"
    elim (client_codec lib registry c.opt.codec_type) [
      | success codec ↦
          on_conn c.tripl_conn ctx (concat "/" (concat key (concat "/" method_name))) params reply
            codec
      | failure err ↦
          pure (new_error_with_attachment (some (serialization_error c.opt.codec_type)) [])
    ]

  unfoldable pub invoke : String → List Arg → Value → M (Net S) ErrorWithAttachment
  unfolding invoke_stub invoke_conn
  invoke method_name args reply = do
    debug_log
        "TripleClient.Invoke: methodName = %s, inputValue = %+v, expected reply struct = %+v, client defined codec = %s"
    if c.opt.codec_type == pb_codec_name
        then invoke_stub c.stub_invoker method_name args reply
        else invoke_conn method_name args reply

-- The connection that `Close` closes.
abbrev pub open_conn : TripleClient → Option ℕ
open_conn c = elim c.tripl_conn [ some t ↦ t.grpc_conn | none ↦ none ]

close_open : {S : Type 0} → Option ℕ → M (Net S) (Unit {0})
close_open none = pure tt
close_open (some conn) = modify (close_conn conn)

unfoldable pub client_close : {S : Type 0} → TripleClient → M (Net S) (Unit {0})
unfolding close_open
client_close c = do log_call c.opt.logger debug "Triple Client Is closing"; close_open (open_conn c)

unfoldable pub is_available : TripleClient → Bool
is_available c = true
