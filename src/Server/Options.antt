-- ===== src/Server/Options.antt =====
-- `newGrpcServerWithCodec` of pkg/triple/dubbo3_server.go.
pub mod Building
pub mod Limits
pub mod Wanted
use triple.Base.{
  none, concat, modify, ◌++◌, ◌∷◌, pure, [], true, ◌==◌, ◌>>◌, ◌>>=◌, if◌then◌else◌, some, ℕ, M,
  List,
}
use triple.Security.{insecure, get_server_tls_certificate, Creds, TlsFiles}
use triple.Common.Codec.{get_triple_codec, Registry, EncodingLib}
use triple.Common.Config.{TripleOption}
use triple.Common.Constant.{msg_pack_codec_name, pb_codec_name, hessian_codec_name, CodecType}
use triple.Server.Environment.{
  stream_interceptor, max_send_msg_size, creds, unary_interceptor, force_server_codec,
  max_recv_msg_size, new_server, log, proxy_mode_enable, ServerOption, Host,
}
use triple.Base.Int.{is_zero}
use triple.Tracing.Jaeger.{new_jaeger_tracer_direct}
use triple.Common.Logger.{errorf}
use triple.Common.Error.{failure, success}

module _ {Codec : Type 0} (files : TlsFiles) (lib : EncodingLib Codec)
    (registry : Registry Codec) where
  tracing_options : TripleOption → List (ServerOption Codec)
  tracing_options opt =
      if opt.jaeger_address == ""
      then []
      else (let tracer =
            new_jaeger_tracer_direct opt.jaeger_service_name opt.jaeger_address opt.logger in
          unary_interceptor tracer ∷ stream_interceptor tracer ∷ [])

  -- The receive limit is the server's, and the send limit is the one for calls.
  size_options : TripleOption → List (ServerOption Codec)
  size_options opt =
      (if is_zero opt.grpc_max_server_recv_msg_size
        then []
        else max_recv_msg_size opt.grpc_max_server_recv_msg_size ∷ [])
      ++ (if is_zero opt.grpc_max_call_send_msg_size
          then []
          else max_send_msg_size opt.grpc_max_call_send_msg_size ∷ [])

  proxy_options : TripleOption → List (ServerOption Codec)
  proxy_options opt = if opt.proxy_mode_enable then proxy_mode_enable true ∷ [] else []

  -- A failure is logged, and then there is no credentials option at all.
  creds_options : TripleOption → Creds → M (Host Codec) (List (ServerOption Codec))
  creds_options opt (c, some err) = do
    log opt.logger errorf "TripleClient.Start: TLS config err: %v"
    pure []
  creds_options opt (some c, none) = pure (creds c ∷ [])
  creds_options opt (none, none) = pure (creds insecure ∷ [])

  -- The codec that a type names; one that nobody registered is reported on the standard output.
  inner_codec : CodecType → M (Host Codec) Codec
  inner_codec t =
      if t == hessian_codec_name
      then pure lib.new_hessian_codec
      else (if t == msg_pack_codec_name
          then pure lib.new_msg_pack_codec
          else (elim (get_triple_codec registry t) [
            | success c ↦ pure c
            | failure err ↦ (do
              modify (λ h. record h {
                stdout =
                    concat "TripleServer.Start: serialization " (concat t " not supported")
                    ∷ h.stdout;
              })
              pure lib.nil_codec)
          ]))

  codec_options : CodecType → M (Host Codec) (List (ServerOption Codec))
  unfolding inner_codec
  codec_options t = if t == pb_codec_name then pure [] else (do
    inner ← inner_codec t
    pure
        (force_server_codec (lib.new_pb_wrapper_two_way_codec t inner lib.new_protobuf_codec) ∷ []))

  unfoldable pub new_grpc_server_with_codec : TripleOption → M (Host Codec) ℕ
  unfolding tracing_options size_options proxy_options creds_options codec_options
  new_grpc_server_with_codec opt = do
    credentials ← creds_options opt (get_server_tls_certificate files opt)
    codec ← codec_options opt.codec_type
    new_server
        (tracing_options opt ++ size_options opt ++ proxy_options opt ++ credentials ++ codec)
