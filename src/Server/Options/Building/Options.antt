-- ===== src/Server/Options/Building/Options.antt =====
-- A server is made with the wanted options and no others.
use triple.Server.Options.{new_grpc_server_with_codec, creds_options, codec_options, inner_codec}
use triple.Server.Options.Wanted.{
  server_codec, wanted_options, creds_of, codec_of, IsWanted, wanted_options-Has,
  wanted_options-All,
}
use triple.Base.{
  M, concat, ◌>>◌, get_elem?-append_last, length, returned, get_elem?, String, modify, ◌>>=◌, pure,
  Has, Bool-cases, All, ◌==◌, none, some, inl, inr, ◌≡◌, List, ◌∷◌, refl,
}
use triple.Security.{Creds, get_server_tls_certificate, TlsFiles}
use triple.Common.Codec.{get_triple_codec, Registry, EncodingLib}
use triple.Common.Config.{TripleOption}
use triple.Server.Environment.{Host, new_server, ServerOption}
use triple.Client.Calls.{client_codec}
use triple.Common.Error.{Result, failure, success}
use triple.Common.Constant.{msg_pack_codec_name, hessian_codec_name, pb_codec_name}
use triple.Common.Logger.{errorf, LogEntry, CanLog}
use triple.Server.Options.Building.{fresh_server, log-returns}

module _ {Codec : Type 0} (files : TlsFiles) (lib : EncodingLib Codec) (registry : Registry Codec)
    (opt : TripleOption) where
  creds_options-made :
      (c : Creds) (h : Host Codec)
      → CanLog opt.logger
      → (entries : List LogEntry) × (creds_options files lib registry opt c h
          ≡ (record h { logs = entries }, returned (creds_of files lib registry opt c)))
  unfolding creds_options creds_of pure ◌>>=◌
  creds_options-made (c, some err) h can =
      let (entries, e) =
        log-returns files lib registry opt errorf "TripleClient.Start: TLS config err: %v" h can in
      (entries, rw e refl)
  creds_options-made (some c, none) h can = (h.logs, refl)
  creds_options-made (none, none) h can = (h.logs, refl)

  inner_codec-made :
      (h : Host Codec)
      → (printed : List String) × (inner_codec files lib registry opt.codec_type h
          ≡ (record h { stdout = printed }, returned (server_codec files lib registry opt)))
  unfolding inner_codec client_codec pure modify ◌>>=◌
  inner_codec-made h = elim (Bool-cases (opt.codec_type == hessian_codec_name)) [
    | inl e ↦ (h.stdout, rw (e, server_codec, client_codec) refl)
    | inr e ↦ elim (Bool-cases (opt.codec_type == msg_pack_codec_name)) [
      | inl e' ↦ (h.stdout, rw (e, e', server_codec, client_codec) refl)
      | inr e' ↦
          rw (e, e', server_codec, client_codec) (found (get_triple_codec registry opt.codec_type))
    ]
  ]
    where
      found :
          (r : Result Codec)
          → (printed : List String) × (elim r as (λ r. M (Host Codec) Codec) [
            | success c ↦ pure c
            | failure err ↦ (do
              modify (λ h. record h {
                stdout =
                    concat "TripleServer.Start: serialization "
                      (concat opt.codec_type " not supported")
                    ∷ h.stdout;
              })
              pure lib.nil_codec)
          ])
                h
              ≡ (
                record h { stdout = printed },
                returned (elim r [ success c ↦ c | failure err ↦ lib.nil_codec ]),
              )
      found (success c) = (h.stdout, refl)
      found (failure err) = (_, refl)

  codec_options-made :
      (h : Host Codec)
      → (printed : List String) × (codec_options files lib registry opt.codec_type h
          ≡ (record h { stdout = printed }, returned (codec_of files lib registry opt)))
  unfolding codec_options codec_of pure ◌>>=◌
  codec_options-made h = elim (Bool-cases (opt.codec_type == pb_codec_name)) [
    | inl e ↦ (h.stdout, rw e refl)
    | inr e ↦ (let (printed, s) = inner_codec-made h in (printed, rw (e, s) refl))
  ]

  -- A server that is made of an option whose logger can log has exactly the options that follow. Both
  -- interceptors of the direct tracer are there if the option has a Jaeger address; the receive limit, if
  -- the server's is not zero; the send limit, if the one for calls is not zero; the proxy mode, if it is
  -- on; credentials, if the TLS configuration gave no error, and these are the insecure ones if it gave
  -- none; and a codec, if the option's is not protobuf, round the one that the codec type names, or
  -- round the nil codec where that is not known.
  pub new_grpc_server_with_codec_lem :
      (h : Host Codec)
      → CanLog opt.logger
      → (os : List (ServerOption Codec)) × (get_elem?
            (new_grpc_server_with_codec files lib registry opt h).0.servers
            (length h.servers)
          ≡ some (fresh_server files lib registry opt os))
        × ((o : ServerOption Codec) → IsWanted files lib registry opt o → Has o os)
        × All (IsWanted files lib registry opt) os
  unfolding new_grpc_server_with_codec new_server ◌>>=◌
  new_grpc_server_with_codec_lem h can =
      let (entries, e) = creds_options-made (get_server_tls_certificate files opt) h can in
      let (printed, e') = codec_options-made (record h { logs = entries }) in
      (
        wanted_options files lib registry opt,
        rw (e, e') (unfold wanted_options in get_elem?-append_last h.servers _),
        wanted_options-Has files lib registry opt,
        wanted_options-All files lib registry opt,
      )
