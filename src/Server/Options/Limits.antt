-- ===== src/Server/Options/Limits.antt =====
-- Which of the option's limits `newGrpcServerWithCodec` reads.
use triple.Base.{◌≡◌, refl}
use triple.Server.Options.{new_grpc_server_with_codec}
use triple.Common.Config.Functions.{with_grpc_max_server_send_message_size}
use triple.Security.{TlsFiles, get_server_tls_certificate}
use triple.Common.Codec.{Registry, EncodingLib}
use triple.Common.Config.{TripleOption}
use triple.Base.Int.{ℤ}
use triple.Server.Environment.{Host}

-- The server that is made does not depend on the limit that `WithGRPCMaxServerSendMessageSize` sets:
-- with the limit and without, the process comes to the same state and the same server.
pub server_send_limit_ignored :
    {Codec : Type 0} (files : TlsFiles) (lib : EncodingLib Codec) (registry : Registry Codec)
    (opt : TripleOption) (size : ℤ) (h : Host Codec)
    → new_grpc_server_with_codec files lib registry
        (with_grpc_max_server_send_message_size size opt)
        h
      ≡ new_grpc_server_with_codec files lib registry opt h
unfolding new_grpc_server_with_codec with_grpc_max_server_send_message_size
    get_server_tls_certificate
server_send_limit_ignored files lib registry opt size h = refl
