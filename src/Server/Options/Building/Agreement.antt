-- ===== src/Server/Options/Building/Agreement.antt =====
-- The codec that a server is forced to, against the codec that a client of the same option calls with.
use triple.Base.{
  length, ◌++◌, eq_iff, false, ◌==◌, List, arith, ◌≢◌, returned, ◌>>=◌, pure, ◌≡◌, [], ◌∷◌, refl,
}
use triple.Security.{get_server_tls_certificate, TlsFiles}
use triple.Common.Codec.{Registry, EncodingLib}
use triple.Common.Constant.{pb_codec_name, CodecType}
use triple.Common.Config.{TripleOption}
use triple.Client.Calls.{client_codec}
use triple.Common.Error.{success}
use triple.Server.Options.{
  proxy_options, size_options, tracing_options, codec_options, inner_codec,
  new_grpc_server_with_codec,
}
use triple.Server.Environment.{ServerOption, force_server_codec, Host, new_server}
use triple.Common.Logger.{LogEntry, CanLog}
use triple.Server.Options.Building.{creds_options-logs, fresh_server}

-- The codec of both sides, round the one that the option's codec type names.
abbrev pub wrapped : {Codec : Type 0} → EncodingLib Codec → CodecType → Codec → Codec
wrapped lib t c = lib.new_pb_wrapper_two_way_codec t c lib.new_protobuf_codec

module _ {Codec : Type 0} (files : TlsFiles) (lib : EncodingLib Codec) (registry : Registry Codec)
    (opt : TripleOption) (codec : Codec)
    (found : client_codec lib registry opt.codec_type ≡ success codec) where
  inner_codec-found :
      (t : CodecType) (h : Host Codec)
      → client_codec lib registry t ≡ success codec
      → inner_codec files lib registry t h ≡ (h, returned codec)
  unfolding inner_codec client_codec pure
  inner_codec-found t h e = ground (arith, e)

  codec_options-found :
      (h : Host Codec)
      → opt.codec_type ≢ pb_codec_name
      → codec_options files lib registry opt.codec_type h
        ≡ (h, returned (force_server_codec (wrapped lib opt.codec_type codec) ∷ []))
  unfolding codec_options pure ◌>>=◌
  codec_options-found h other =
      let not_pb : (opt.codec_type == pb_codec_name) ≡ false =
        ground (arith, eq_iff opt.codec_type pb_codec_name) in
      rw (not_pb, inner_codec-found opt.codec_type h found) refl

  -- The server that is made is forced to the codec, and nothing is printed.
  pub new_grpc_server_with_codec-found :
      (h : Host Codec)
      → CanLog opt.logger
      → opt.codec_type ≢ pb_codec_name
      → (os : List (ServerOption Codec)) × (entries : List LogEntry) × (new_grpc_server_with_codec
            files lib registry opt h
          ≡ (
            record h {
              servers =
                  h.servers
                  ++ fresh_server files lib registry opt
                      (os ++ force_server_codec (wrapped lib opt.codec_type codec) ∷ [])
                    ∷ [];
              logs = entries;
            },
            returned (length h.servers),
          ))
  unfolding new_grpc_server_with_codec new_server ◌>>=◌
  new_grpc_server_with_codec-found h can other =
      let (os, entries, e) =
        creds_options-logs files lib registry opt (get_server_tls_certificate files opt) h can in
      (
        tracing_options files lib registry opt
            ++ size_options files lib registry opt
            ++ proxy_options files lib registry opt
            ++ os,
        entries,
        rw (e, codec_options-found (record h { logs = entries }) other) refl,
      )
