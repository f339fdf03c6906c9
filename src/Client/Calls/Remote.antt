-- ===== src/Client/Calls/Remote.antt =====
-- `TripleClient.Invoke` with a codec that is not protobuf.
use triple.Base.{
  Exit, Option, none, eq_iff, arith, false, ◌==◌, ◌>>=◌, pure, concat, ◌∙◌, ◌≢◌, ◌≡◌, List, String,
  some, M, returned, [], ◌∷◌, refl,
}
use triple.Client.Calls.{on_conn, serialization_error, client_codec, invoke}
use triple.Client.Calls.Outcomes.{call_message}
use triple.Client.Connection.{conn_invoke, TripleConn}
use triple.Client.Dialing.{TripleClient, StubLib}
use triple.Client.Dialing.Outcomes.{log_call-returns}
use triple.Client.Network.{context, Arg, Net, GrpcLib}
use triple.Common.Attachment.{new_error_with_attachment, ErrorWithAttachment}
use triple.Common.Codec.History.{last_factory, register_all, register_all-refines, Registration}
use triple.Common.Codec.{CodecFactory, empty_registry, Registry, EncodingLib}
use triple.Common.Constant.{
  hessian_codec_name, msg_pack_codec_name, CodecType, interface_key, pb_codec_name,
}
use triple.Common.Context.{assert_text, value_of, Context}
use triple.Common.Error.{errorf, status_errorf, Code, success, failure, Result, text, Value}
use triple.Common.Logger.{debugf, LogEntry, CanLog}

abbrev key_message : String
key_message = "TripleClient.Invoke: call with interfaceKey = %s"

module _ {S Codec : Type 0} (grpc : GrpcLib S Codec) (stubs : StubLib S) (lib : EncodingLib Codec)
    (registry : Registry Codec) (c : TripleClient) where
  -- What `Invoke` does behind the `switch`.
  abbrev with_codec :
      Result Codec → Context → String → List Arg → Value → M (Net S) ErrorWithAttachment
  with_codec (success codec) ctx path params reply =
      on_conn grpc stubs lib registry c c.tripl_conn ctx path params reply codec
  with_codec (failure err) ctx path params reply =
      pure (new_error_with_attachment (some (serialization_error c.opt.codec_type)) [])

  -- Up to there `Invoke` only logs.
  invoke-with_codec :
      (found : Result Codec) (ctx : Context) (key name : String) (params : List Arg) (reply : Value)
      (n : Net S)
      → CanLog c.opt.logger
      → c.opt.codec_type ≢ pb_codec_name
      → value_of ctx interface_key ≡ text key
      → client_codec lib registry c.opt.codec_type ≡ found
      → (entries : List LogEntry) × (invoke grpc stubs lib registry c name
            (context ctx ∷ params)
            reply
            n
          ≡ with_codec found ctx
              (concat "/" (concat key (concat "/" name)))
              params
              reply
              (record n { logs = entries }))
  unfolding invoke assert_text ◌>>=◌
  invoke-with_codec found ctx key name params reply n h other keyed coded =
      let not_pb : (c.opt.codec_type == pb_codec_name) ≡ false =
        ground (arith, eq_iff c.opt.codec_type pb_codec_name) in
      let (entries, e) = log_call-returns c.opt.logger debugf call_message n h in
      let (entries', e') =
        log_call-returns c.opt.logger debugf key_message (record n { logs = entries }) h in
      (entries', rw (e, not_pb, keyed, e', coded) (ground arith))

  -- For a codec that is known, `Invoke` is the call on the client's connection, to the path of the
  -- context's interface key and the method, with the arguments behind the context, and with the codec
  -- wrapped; before it the client only logs. The client has a connection, its codec is not
  -- protobuf, and its logger can log.
  pub invoke-conn_invoke :
      (t : TripleConn) (ctx : Context) (key name : String) (codec : Codec) (params : List Arg)
      (reply : Value) (n : Net S)
      → CanLog c.opt.logger
      → c.opt.codec_type ≢ pb_codec_name
      → c.tripl_conn ≡ some t
      → value_of ctx interface_key ≡ text key
      → client_codec lib registry c.opt.codec_type ≡ success codec
      → (entries : List LogEntry) × (invoke grpc stubs lib registry c name
            (context ctx ∷ params)
            reply
            n
          ≡ conn_invoke grpc t ctx
              (concat "/" (concat key (concat "/" name)))
              params
              reply
              (lib.new_pb_wrapper_two_way_codec c.opt.codec_type codec lib.new_protobuf_codec ∷ [])
              (record n { logs = entries }))
  unfolding on_conn
  invoke-conn_invoke t ctx key name codec params reply n h other has keyed coded =
      let (entries, e) =
        invoke-with_codec (success codec) ctx key name params reply n h other keyed coded in
      (entries, e ∙ rw has refl)

module _ {S Codec : Type 0} (grpc : GrpcLib S Codec) (stubs : StubLib S) (lib : EncodingLib Codec)
    (cs : List (Registration Codec)) (c : TripleClient) where
  -- The registry after these calls of `SetTripleCodec`.
  abbrev registered : Registry Codec
  registered = register_all lib cs empty_registry

  client_codec-registered :
      (t : CodecType)
      → t ≢ hessian_codec_name
      → t ≢ msg_pack_codec_name
      → client_codec lib registered t ≡ elim (last_factory t cs none) [
        | some f ↦ success (f tt)
        | none ↦ failure (errorf (concat "Codec " (concat t " factory undefined!")))
      ]
  unfolding client_codec
  client_codec-registered t ne ne' =
      let no : (t == hessian_codec_name) ≡ false = ground (arith, eq_iff t hessian_codec_name) in
      let no' : (t == msg_pack_codec_name) ≡ false = ground (arith, eq_iff t msg_pack_codec_name) in
      rw (no, no') (register_all-refines lib cs t).0

  -- How a call ends, by the factory of the last `SetTripleCodec` call for the client's codec: a call on
  -- the connection with that codec wrapped, or an error of the code Unimplemented.
  abbrev pub registered_call :
      Option (CodecFactory Codec)
      → TripleConn
      → Context
      → String
      → List Arg
      → Value
      → Net S
      → Net S × Exit ErrorWithAttachment
  registered_call (some f) t ctx path params reply n =
      conn_invoke grpc t ctx path params reply
        (lib.new_pb_wrapper_two_way_codec c.opt.codec_type (f tt) lib.new_protobuf_codec ∷ []) n
  registered_call none t ctx path params reply n = (
    n,
    returned (
        new_error_with_attachment
          (some (
            status_errorf Code.unimplemented (
              concat "TripleClient.Invoke: serialization "
                (concat c.opt.codec_type " not impl in triple client api."))))
          []),
  )

  -- Any calls of `SetTripleCodec` have been made, and the client's codec is none of protobuf, hessian
  -- and msgpack. If one of the calls was for that codec, `Invoke` is the call on the client's
  -- connection, to the path of the context's interface key and the method, with the arguments behind
  -- the context, and with the codec that the factory of the last such call makes, wrapped. Else
  -- `Invoke` returns an error of the code Unimplemented that names the codec, with no attachments, and
  -- only logs. The client has a connection, the first argument is a context with an interface key, and
  -- the logger can log.
  pub invoke-registered :
      (t : TripleConn) (ctx : Context) (key name : String) (params : List Arg) (reply : Value)
      (n : Net S)
      → CanLog c.opt.logger
      → c.opt.codec_type ≢ pb_codec_name
      → c.opt.codec_type ≢ hessian_codec_name
      → c.opt.codec_type ≢ msg_pack_codec_name
      → c.tripl_conn ≡ some t
      → value_of ctx interface_key ≡ text key
      → (entries : List LogEntry) × (invoke grpc stubs lib registered c name
            (context ctx ∷ params)
            reply
            n
          ≡ registered_call
              (last_factory c.opt.codec_type cs none)
              t
              ctx
              (concat "/" (concat key (concat "/" name)))
              params
              reply
              (record n { logs = entries }))
  unfolding pure
  invoke-registered t ctx key name params reply n h pb hessian msg_pack has keyed =
      go (last_factory c.opt.codec_type cs none)
        (client_codec-registered c.opt.codec_type hessian msg_pack)
    where
      go :
          (found : Option (CodecFactory Codec))
          → client_codec lib registered c.opt.codec_type ≡ elim found [
            | some f ↦ success (f tt)
            | none ↦
                failure (errorf (concat "Codec " (concat c.opt.codec_type " factory undefined!")))
          ]
          → (entries : List LogEntry) × (invoke grpc stubs lib registered c name
                (context ctx ∷ params)
                reply
                n
              ≡ registered_call found t ctx
                  (concat "/" (concat key (concat "/" name)))
                  params
                  reply
                  (record n { logs = entries }))
      go (some f) coded =
          invoke-conn_invoke grpc stubs lib registered c t ctx key name (f tt) params reply n h pb
            has keyed coded
      go none coded =
          invoke-with_codec grpc stubs lib registered c _ ctx key name params reply n h pb keyed
            coded
