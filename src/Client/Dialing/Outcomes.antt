-- ===== src/Client/Dialing/Outcomes.antt =====
-- What `NewTripleClient` makes of an option.
use triple.Base.{
  false, eq_iff, ◌∙◌, ◌==◌, ◌≢◌, panicked, ap, arith, refl, List, returned, ◌≡◌, ◌>>=◌, ℕ, Exit,
  none, String, some, Option, ◌∷◌,
}
use triple.Client.Connection.{new_triple_conn}
use triple.Client.Network.{cancel, with_timeout, Net, log_call, GrpcLib}
use triple.Client.Dialing.{
  TripleClient, dial_options, option_or_default, dial_client, new_triple_client, new_with_creds,
  StubLib,
}
use triple.Security.{get_client_tls_certificate, Creds, insecure, TlsFiles, Credentials}
use triple.Common.Logger.{CanLog-call_logger, LogEntry, errorf, CanLog, Method, Logger}
use triple.Common.Config.{TripleOption}
use triple.Common.Error.{Err}
use triple.Common.Constant.{pb_codec_name}

-- A logger that can log returns, and touches nothing but the log.
pub log_call-returns :
    {S : Type 0} (l : Logger) (m : Method) (message : String) (n : Net S)
    → CanLog l
    → (entries : List LogEntry) × (log_call l m message n
        ≡ (record n { logs = entries }, returned tt))
unfolding log_call
log_call-returns {S} l m message n h =
    let (entry, e) = CanLog-call_logger l (record { method = m; message = message }) h in
    (entry ∷ n.logs, ap logged e)
  where
    logged : Exit LogEntry → Net S × Exit (Unit {0})
    logged e = elim e [
      | returned entry ↦ (record n { logs = entry ∷ n.logs }, returned tt)
      | panicked ↦ (n, panicked)
    ]

-- The credentials that go into the dial.
abbrev credentials_or_insecure : Option Credentials → Credentials
credentials_or_insecure (some c) = c
credentials_or_insecure none = insecure

module _ {S Codec : Type 0} (grpc : GrpcLib S Codec) (stubs : StubLib S) (files : TlsFiles)
    (opt : Option TripleOption) (n : Net S) where
  -- The dial that is made where the credentials are in order, with a timer running.
  abbrev pub dial_call : Net S × Exit (Option ℕ × Option Err)
  dial_call =
      let o = option_or_default opt in
      let credentials = credentials_or_insecure (get_client_tls_certificate files o).0 in
      grpc.dial_context o.timeout o.location (dial_options o credentials) (with_timeout n)

  new_with_creds-failed :
      (o : TripleOption) (creds : Creds) (err : Err)
      → creds.1 ≡ some err
      → CanLog o.logger
      → ((new_with_creds grpc stubs files o creds n).1 ≡ returned (none, some err))
        × ((new_with_creds grpc stubs files o creds n).0.world ≡ n.world)
  unfolding new_with_creds ◌>>=◌
  new_with_creds-failed o (c, some x) err e h =
      let (entries, s) =
        log_call-returns o.logger errorf "TripleClient.Start: TLS config err: %v" n h in
      rw s (ground (arith, e), refl)
  new_with_creds-failed o (c, none) err e h = cc

  -- Where the TLS configuration fails, no client is made, the caller gets the error, and the network
  -- is not touched, provided that the option's logger can log.
  new_triple_client-tls_error :
      (err : Err)
      → (get_client_tls_certificate files (option_or_default opt)).1 ≡ some err
      → CanLog (option_or_default opt).logger
      → let run = new_triple_client grpc stubs files opt n in
        (run.1 ≡ returned (none, some err)) × (run.0.world ≡ n.world)
  unfolding new_triple_client
  new_triple_client-tls_error err e h = new_with_creds-failed (option_or_default opt) _ err e h

  new_with_creds-dials :
      (o : TripleOption) (creds : Creds)
      → creds.1 ≡ none
      → new_with_creds grpc stubs files o creds
        ≡ dial_client grpc stubs files o (credentials_or_insecure creds.0)
  unfolding new_with_creds
  new_with_creds-dials o (some c, none) e = refl
  new_with_creds-dials o (none, none) e = refl
  new_with_creds-dials o (c, some x) e = cc

  dial_client-connected :
      (o : TripleOption) (credentials : Credentials) (conn : Option ℕ) (err : Option Err)
      → (o.codec_type == pb_codec_name) ≡ false
      → let dialled =
          grpc.dial_context o.timeout o.location (dial_options o credentials) (with_timeout n) in
        dialled.1 ≡ returned (conn, err)
        → let client : TripleClient = record {
          stub_invoker = none;
          tripl_conn = some (record { timeout = o.timeout; grpc_conn = conn });
          opt = o;
        } in
          dial_client grpc stubs files o credentials n
          ≡ (cancel dialled.0, returned (some client, none))
  unfolding dial_client new_triple_conn ◌>>=◌
  dial_client-connected o credentials conn err other e = ground (arith, e, other)

  -- Where the TLS configuration is in order and the dial returns, with or without an error, a client
  -- for a codec other than protobuf is made, and no error is returned. The client has the dialled
  -- connection, which is nil where the dial failed, and no stub. The timer of the dial is cancelled.
  pub new_triple_client-connected :
      (conn : Option ℕ) (err : Option Err)
      → (get_client_tls_certificate files (option_or_default opt)).1 ≡ none
      → (option_or_default opt).codec_type ≢ pb_codec_name
      → dial_call.1 ≡ returned (conn, err)
      → let o = option_or_default opt in
        let client : TripleClient = record {
          stub_invoker = none;
          tripl_conn = some (record { timeout = o.timeout; grpc_conn = conn });
          opt = o;
        } in
        new_triple_client grpc stubs files opt n
        ≡ (cancel dial_call.0, returned (some client, none))
  unfolding new_triple_client
  new_triple_client-connected conn err tls other e =
      let o = option_or_default opt in
      let creds = get_client_tls_certificate files o in
      ap (λ m. m n) (new_with_creds-dials o creds tls)
      ∙ dial_client-connected o (credentials_or_insecure creds.0) conn err
          (ground (arith, eq_iff o.codec_type pb_codec_name)) e
