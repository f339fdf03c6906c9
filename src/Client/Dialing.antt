-- ===== src/Client/Dialing.antt =====
-- `NewTripleClient` of pkg/triple/dubbo3_client.go.
pub mod Outcomes
pub mod Wiring
use triple.Base.{
  panic, true, ◌&&◌, pure, ◌==◌, not, ◌++◌, if◌then◌else◌, ◌>>=◌, ◌>>◌, String, none, List, ℕ, M,
  some, Option, [], ◌∷◌,
}
use triple.Common.Error.{Err, Value}
use triple.Common.Config.{new_triple_option, TripleOption}
use triple.Client.Network.{
  with_stream_interceptor, with_unary_interceptor, max_call_recv_msg_size, with_keepalive_params,
  with_default_call_options, max_call_send_msg_size, with_transport_credentials, log_call, Arg,
  DialOption, Net, SizeOption, GrpcLib,
}
use triple.Client.Connection.{new_triple_conn, TripleConn}
use triple.Common.Attachment.{ErrorWithAttachment}
use triple.Security.{insecure, get_client_tls_certificate, Creds, TlsFiles, Credentials}
use triple.Base.Int.{is_zero}
use triple.Common.Constant.{pb_codec_name}
use triple.Common.Logger.{errorf}
use triple.Tracing.Jaeger.{new_jaeger_tracer_direct, new_jaeger_tracer_agent}

-- The second result of a stub's method: the type of newer stubs, the error of older ones, nil, or a
-- value that is none of them.
pub data Outcome : Type 0 where
  with_attachment : ErrorWithAttachment → Outcome
  only_error : Err → Outcome
  no_error : Outcome
  no_outcome : Value → Outcome

-- The first two results of a method.
pub record StubResult : Type 0 where
  pub reply : Value
  pub outcome : Outcome

-- What the client does by reflection: the stub that `GetDubboStub` of the user's object, if it has that method,
-- makes for a connection, a method of a stub by its name, the call of a method, and the copy of a result into the
-- caller's reply. Stubs and methods are numbered. A method of fewer than two results gives `none`.
pub record StubLib (S : Type 0) : Type 0 where
  pub get_dubbo_stub : Option (TripleConn → M (Net S) ℕ)
  pub method_by_name : ℕ → String → Option ℕ
  pub call : ℕ → List Arg → M (Net S) (Option StubResult)
  pub reflect_response : Value → Value → M (Net S) (Unit {0})

-- The fields `once` and `serializer` are never used.
pub record TripleClient : Type 0 where
  pub stub_invoker : Option ℕ
  pub tripl_conn : Option TripleConn
  pub opt : TripleOption

tracing_dial_options : TripleOption → List DialOption
tracing_dial_options opt =
    if opt.jaeger_address == ""
    then []
    else (let tracer =
          (if opt.jaeger_use_agent then new_jaeger_tracer_agent else new_jaeger_tracer_direct)
            opt.jaeger_service_name opt.jaeger_address opt.logger in
        with_unary_interceptor tracer ∷ with_stream_interceptor tracer ∷ [])

call_options : TripleOption → List SizeOption
call_options opt =
    (if is_zero opt.grpc_max_call_send_msg_size
      then []
      else max_call_send_msg_size opt.grpc_max_call_send_msg_size ∷ [])
    ++ (if is_zero opt.grpc_max_call_recv_msg_size
        then []
        else max_call_recv_msg_size opt.grpc_max_call_recv_msg_size ∷ [])

keepalive_options : TripleOption → List DialOption
keepalive_options opt =
    if not (is_zero opt.grpc_keep_alive_time) && not (is_zero opt.grpc_keep_alive_timeout)
    then with_keepalive_params opt.grpc_keep_alive_time opt.grpc_keep_alive_timeout true ∷ []
    else []

-- The options of the dial, with the credentials in their place.
unfoldable pub dial_options : TripleOption → Credentials → List DialOption
unfolding tracing_dial_options call_options keepalive_options
dial_options opt credentials =
    tracing_dial_options opt
    ++ with_transport_credentials credentials
      ∷ with_default_call_options (call_options opt)
      ∷ keepalive_options opt

abbrev pub option_or_default : Option TripleOption → TripleOption
option_or_default (some o) = o
option_or_default none = new_triple_option []

module _ {S Codec : Type 0} (grpc : GrpcLib S Codec) (stubs : StubLib S) (files : TlsFiles) where
  -- `getInvoker`; the call of a method that is not there panics.
  get_invoker : TripleConn → M (Net S) ℕ
  get_invoker conn = elim stubs.get_dubbo_stub [ some stub_of ↦ stub_of conn | none ↦ panic ]

  -- With protobuf the connection goes to the stub, and else to the client.
  connect : TripleOption → TripleConn → M (Net S) TripleClient
  unfolding get_invoker
  connect opt conn =
      if opt.codec_type == pb_codec_name
      then (do
        stub ← get_invoker conn
        pure (record { stub_invoker = some stub; tripl_conn = none; opt = opt }))
      else pure (record { stub_invoker = none; tripl_conn = some conn; opt = opt })

  dial_client : TripleOption → Credentials → M (Net S) (Option TripleClient × Option Err)
  unfolding connect
  dial_client opt credentials = do
    conn ← new_triple_conn grpc opt.timeout opt.location (dial_options opt credentials)
    client ← connect opt conn
    pure (some client, none)

  new_with_creds : TripleOption → Creds → M (Net S) (Option TripleClient × Option Err)
  unfolding dial_client
  new_with_creds opt (c, some err) = do
    log_call opt.logger errorf "TripleClient.Start: TLS config err: %v"
    pure (none, some err)
  new_with_creds opt (some c, none) = dial_client opt c
  new_with_creds opt (none, none) = dial_client opt insecure

  unfoldable pub new_triple_client :
      Option TripleOption → M (Net S) (Option TripleClient × Option Err)
  unfolding new_with_creds
  new_triple_client opt =
      let o = option_or_default opt in new_with_creds o (get_client_tls_certificate files o)
