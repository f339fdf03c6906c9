-- ===== src/Session.antt =====
-- How a client (pkg/triple/dubbo3_client.go) and a server (pkg/triple/dubbo3_server.go) of the same
-- option fit together.
pub mod Call
use triple.Client.Calls.Remote.{invoke-conn_invoke}
use triple.Base.{
  get_elem?-append_last, ap, concat, ◌++◌, length, get_elem?, List, String, none, returned, ◌≢◌,
  ◌≡◌, some, ℕ, Option, [], ◌∷◌, refl,
}
use triple.Client.Network.{context, Arg, Net, GrpcLib}
use triple.Client.Dialing.{new_triple_client, TripleClient, StubLib}
use triple.Security.{get_client_tls_certificate, TlsFiles}
use triple.Common.Codec.{Registry, EncodingLib}
use triple.Common.Config.{TripleOption}
use triple.Common.Error.{text, Value, success, Err}
use triple.Server.Environment.{force_server_codec, ServerOption, Host}
use triple.Common.Logger.{LogEntry, CanLog}
use triple.Common.Constant.{interface_key, pb_codec_name}
use triple.Client.Calls.{invoke, client_codec}
use triple.Common.Context.{value_of, Context}
use triple.Client.Dialing.Outcomes.{new_triple_client-connected, dial_call}
use triple.Server.Options.{new_grpc_server_with_codec}
use triple.Server.Options.Building.{fresh_server}
use triple.Server.Options.Building.Agreement.{new_grpc_server_with_codec-found, wrapped}
use triple.Client.Connection.{conn_invoke}

module _ {S Codec : Type 0} (grpc : GrpcLib S Codec) (stubs : StubLib S) (files : TlsFiles)
    (lib : EncodingLib Codec) (registry : Registry Codec) (o : TripleOption) (n : Net S) where
  -- The client made in `n` is `c`: it returned without an error, and each call is one call on its
  -- connection `conn`, to the path of the service's key and the method, with the wrapped codec.
  pub record IsConnected (codec : Codec) (conn : Option ℕ) (c : TripleClient) : Type 0 where
    pub made : (new_triple_client grpc stubs files (some o) n).1 ≡ returned (some c, none)
    pub calls :
        (ctx : Context) (key name : String) (params : List Arg) (reply : Value) (m : Net S)
        → value_of ctx interface_key ≡ text key
        → (entries : List LogEntry) × (invoke grpc stubs lib registry c name
              (context ctx ∷ params)
              reply
              m
            ≡ conn_invoke grpc
                (record { timeout = o.timeout; grpc_conn = conn })
                ctx
                (concat "/" (concat key (concat "/" name)))
                params
                reply
                (wrapped lib o.codec_type codec ∷ [])
                (record m { logs = entries }))

  -- A client and a server of one option and one codec registry, whose codec is not protobuf and is
  -- known, speak the same codec. If the TLS configuration is in order and the dial returns,
  -- `NewTripleClient` returns a client that makes every call with that codec, wrapped, on the dialled
  -- connection, which is nil where the dial failed, and with the option's timeout; and the server that is made of the option is forced to
  -- that wrapped codec, by the last of its options. The logger can log.
  pub session_lem :
      (codec : Codec) (conn : Option ℕ) (err : Option Err) (server_files : TlsFiles)
      (h : Host Codec)
      → CanLog o.logger
      → o.codec_type ≢ pb_codec_name
      → client_codec lib registry o.codec_type ≡ success codec
      → (get_client_tls_certificate files o).1 ≡ none
      → (dial_call grpc stubs files (some o) n).1 ≡ returned (conn, err)
      → ((c : TripleClient) × IsConnected codec conn c)
        × ((os : List (ServerOption Codec)) × (get_elem?
                (new_grpc_server_with_codec server_files lib registry o h).0.servers
                (length h.servers)
              ≡ some (
                  fresh_server server_files lib registry o
                    (os ++ force_server_codec (wrapped lib o.codec_type codec) ∷ []))))
  session_lem codec conn err server_files h can other found tls dialled =
      let c : TripleClient = record {
        stub_invoker = none;
        tripl_conn = some (record { timeout = o.timeout; grpc_conn = conn });
        opt = o;
      } in
      let (os, entries, made) =
        new_grpc_server_with_codec-found server_files lib registry o codec found h can other in
      (
        (
          c,
          record {
            made =
                ap (λ r. r.1)
                  (new_triple_client-connected grpc stubs files (some o) n conn err tls other
                    dialled);
            calls = λ ctx key name params reply m keyed.
                invoke-conn_invoke grpc stubs lib registry c _ ctx key name codec params reply m can
                  other refl keyed found;
          },
        ),
        (os, rw made (get_elem?-append_last h.servers _)),
      )
