-- ===== src/Server/Options/Building.antt =====
-- `newGrpcServerWithCodec` makes one new server and leaves the rest of the process alone.
pub mod Agreement
pub mod Options
use triple.Base.{
  concat, refl, inr, inl, modify, none, ◌>>◌, ◌==◌, Bool-cases, length, some, ◌++◌, false, pure,
  ◌>>=◌, panicked, ap, Exit, returned, ◌≡◌, List, String, M, [], ◌∷◌,
}
use triple.Server.Options.{
  tracing_options, size_options, proxy_options, creds_options, codec_options, inner_codec,
  new_grpc_server_with_codec,
}
use triple.Security.{insecure, get_server_tls_certificate, Creds, TlsFiles}
use triple.Common.Codec.{get_triple_codec, Registry, EncodingLib}
use triple.Common.Config.{TripleOption}
use triple.Server.Environment.{
  force_server_codec, creds, GrpcServer, new_server, ServerOption, Host, log,
}
use triple.Common.Logger.{errorf, CanLog-call_logger, LogEntry, CanLog, Method}
use triple.Common.Error.{failure, success, Result}
use triple.Common.Constant.{msg_pack_codec_name, hessian_codec_name, pb_codec_name, CodecType}

module _ {Codec : Type 0} (files : TlsFiles) (lib : EncodingLib Codec) (registry : Registry Codec)
    (opt : TripleOption) where
  pub log-returns :
      (m : Method) (message : String) (h : Host Codec)
      → CanLog opt.logger
      → (entries : List LogEntry) × (log opt.logger m message h
          ≡ (record h { logs = entries }, returned tt))
  unfolding log
  log-returns m message h can =
      let (entry, e) =
        CanLog-call_logger opt.logger (record { method = m; message = message }) can in
      (entry ∷ h.logs, ap logged e)
    where
      logged : Exit LogEntry → Host Codec × Exit (Unit {0})
      logged e = elim e [
        | returned entry ↦ (record h { logs = entry ∷ h.logs }, returned tt)
        | panicked ↦ (h, panicked)
      ]

  creds_options-logs :
      (c : Creds) (h : Host Codec)
      → CanLog opt.logger
      → (os : List (ServerOption Codec)) × (entries : List LogEntry) × (creds_options files lib
            registry opt c h
          ≡ (record h { logs = entries }, returned os))
  unfolding creds_options ◌>>=◌
  creds_options-logs (c, some err) h can =
      let (entries, e) = log-returns errorf "TripleClient.Start: TLS config err: %v" h can in
      ([], entries, rw e refl)
  creds_options-logs (some c, none) h can = (creds c ∷ [], h.logs, refl)
  creds_options-logs (none, none) h can = (creds insecure ∷ [], h.logs, refl)

  -- The action prints at most, and returns.
  abbrev Prints : {A : Type 0} → M (Host Codec) A → Host Codec → Type 0
  Prints {A} m h =
      (a : A) × (printed : List String) × (m h ≡ (record h { stdout = printed }, returned a))

  found-Prints :
      (r : Result Codec) (line : String) (h : Host Codec)
      → Prints
          (elim r [
            | success c ↦ pure c
            | failure err ↦ (do
              modify (λ h. record h { stdout = line ∷ h.stdout })
              pure lib.nil_codec)
          ])
          h
  unfolding ◌>>=◌
  found-Prints (success c) line h = (c, h.stdout, refl)
  found-Prints (failure err) line h = (lib.nil_codec, line ∷ h.stdout, refl)

  abbrev unsupported : CodecType → String
  unsupported t = concat "TripleServer.Start: serialization " (concat t " not supported")

  inner_codec-Prints :
      (t : CodecType) (h : Host Codec) → Prints (inner_codec files lib registry t) h
  unfolding inner_codec pure
  inner_codec-Prints t h = elim (Bool-cases (t == hessian_codec_name)) [
    | inl e ↦ (lib.new_hessian_codec, h.stdout, rw e refl)
    | inr e ↦ (elim (Bool-cases (t == msg_pack_codec_name)) [
      | inl e' ↦ (lib.new_msg_pack_codec, h.stdout, rw (e, e') refl)
      | inr e' ↦
          (let (c, printed, s) = found-Prints (get_triple_codec registry t) (unsupported t) h in
            (c, printed, rw (e, e') s))
    ])
  ]

  codec_options-Prints :
      (t : CodecType) (h : Host Codec) → Prints (codec_options files lib registry t) h
  unfolding codec_options pure ◌>>=◌
  codec_options-Prints t h = elim (Bool-cases (t == pb_codec_name)) [
    | inl e ↦ ([], h.stdout, rw e refl)
    | inr e ↦
        (let (c, printed, s) = inner_codec-Prints t h in
          (
            force_server_codec (lib.new_pb_wrapper_two_way_codec t c lib.new_protobuf_codec) ∷ [],
            printed,
            rw (e, s) refl,
          ))
  ]

  -- A new server with the options, which serves nothing.
  abbrev pub fresh_server : List (ServerOption Codec) → GrpcServer Codec
  fresh_server os = record { options = os; services = []; stopped = false; serving = [] }

  -- One server is made; apart from it only the log and the output change.
  pub new_grpc_server_with_codec-makes :
      (h : Host Codec)
      → CanLog opt.logger
      → (os : List (ServerOption Codec)) × (entries : List LogEntry) × (printed : List String)
        × (new_grpc_server_with_codec files lib registry opt h ≡ (
          record h {
            servers = h.servers ++ fresh_server os ∷ [];
            logs = entries;
            stdout = printed;
          },
          returned (length h.servers),
        ))
  unfolding new_grpc_server_with_codec new_server ◌>>=◌
  new_grpc_server_with_codec-makes h can =
      let (os, entries, e) = creds_options-logs (get_server_tls_certificate files opt) h can in
      let (codec, printed, e') =
        codec_options-Prints opt.codec_type (record h { logs = entries }) in
      (
        tracing_options files lib registry opt
            ++ size_options files lib registry opt
            ++ proxy_options files lib registry opt
            ++ os
            ++ codec,
        entries,
        printed,
        rw (e, e') refl,
      )
