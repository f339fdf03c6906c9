-- ===== src/Examples/Clients.antt =====
-- Calls of a client.
use triple.Base.{
  ◌>>=◌, ◌↔◌, Post, ◌==◌, panicked, List, refl, if◌then◌else◌, ◌+◌, false, eq_iff, ◌≡◌, String,
  returned, arith, ℕ, none, some, ◌≢◌, [], ◌∷◌,
}
use triple.Common.Config.{zero_option, TripleOption}
use triple.Client.Connection.Attachments.{conn_invoke_lem, GivesBack, grpc_call}
use triple.Common.Context.{value_of, Context}
use triple.Common.Constant.{msg_pack_codec_name, pb_codec_name, hessian_codec_name, CodecType}
use triple.Client.Network.{log_call, context, Net, GrpcLib}
use triple.Client.Connection.{new_triple_conn, conn_invoke, TripleConn}
use triple.Client.Dialing.{
  option_or_default, with_attachment, new_triple_client, TripleClient, StubLib,
}
use triple.Security.{TlsFiles, get_client_tls_certificate}
use triple.Common.Error.{status_errorf, Code, foreign, failure, nil_value, text}
use triple.Client.Calls.{client_close, invoke}
use triple.Common.Logger.{debugf, LogEntry, default_logger}
use triple.Base.Int.{pos}
use triple.Base.Dict.{lookup}
use triple.Examples.Options.{registrations, text_lib}
use triple.Client.Calls.Remote.{invoke-registered}
use triple.Client.Calls.Closing.{new_triple_client-client_close}
use triple.Common.Codec.History.{register_all, last_factory}
use triple.Client.Calls.Outcomes.{call_message, invoke-stub_reply, stub_reply}
use triple.Common.Codec.{empty_registry}
use triple.Common.Attachment.{new_error_with_attachment}
use triple.Client.Dialing.Wiring.{new_triple_client-IsOutcome, IsOutcome}
use triple.Client.Calls.Panics.{invoke-panics_iff, StubPanics}

-- A network that answers every call with a trailer, and dials with an error.
abbrev pub sample_grpc : GrpcLib ℕ String
sample_grpc = record {
  dial_context = λ timeout address opts n. (n, returned (none, some (foreign 3)));
  new_client_stream = λ conn ctx method n. (n, returned (some 0, none));
  invoke = λ conn ctx timeout method args reply codecs n. (
    record n { world = n.world + 1 },
    returned (record { trailer = ("k", "v" ∷ []) ∷ []; err = some (foreign 1) }),
  );
}

abbrev pub sample_stubs : StubLib ℕ
sample_stubs = record {
  get_dubbo_stub = some (λ conn n. (n, returned 0));
  method_by_name = λ stub name. if name == "SayHello" then some 0 else none;
  call = λ method args n. (
    record n { world = n.world + 1 },
    returned (
        some (record {
          reply = text "hello";
          outcome = with_attachment (record { err = none; attachments = ("a", text "b") ∷ [] });
        })),
  );
  reflect_response = λ v reply n. (n, panicked);
}

abbrev pub sample_net : Net ℕ
sample_net = record { world = 0; logs = []; live_timers = 0; closed_conns = [] }

abbrev sample_conn : TripleConn
sample_conn = record { timeout = pos 5; grpc_conn = some 8 }

-- A network whose dials succeed.
abbrev dialling_grpc : GrpcLib ℕ String
dialling_grpc = record sample_grpc {
  dial_context = λ timeout address opts n. (n, returned (some 8, none));
}

abbrev pub with_codec : CodecType → TripleOption
with_codec t = record zero_option { timeout = pos 5; codec_type = t; logger = default_logger }

abbrev hessian_client : TripleClient
hessian_client = record {
  stub_invoker = none;
  tripl_conn = some sample_conn;
  opt = with_codec hessian_codec_name;
}

abbrev json_client : TripleClient
json_client = record hessian_client { opt = with_codec "json" }

abbrev yaml_client : TripleClient
yaml_client = record hessian_client { opt = with_codec "yaml" }

abbrev stub_client : TripleClient
stub_client = record { stub_invoker = some 0; tripl_conn = none; opt = with_codec pb_codec_name }

abbrev keyed_context : Context
keyed_context = record {
  values = ("interface", text "Greeter") ∷ [];
  active_span = none;
  outgoing = none;
  incoming = none;
}

json_other :
    ("json" ≢ pb_codec_name) × ("json" ≢ hessian_codec_name) × ("json" ≢ msg_pack_codec_name)
json_other = (
  ground (arith, eq_iff "json" "protobuf"),
  ground (arith, eq_iff "json" "hessian2"),
  ground (arith, eq_iff "json" "msgpack"),
)

yaml_other :
    ("yaml" ≢ pb_codec_name) × ("yaml" ≢ hessian_codec_name) × ("yaml" ≢ msg_pack_codec_name)
yaml_other = (
  ground (arith, eq_iff "yaml" "protobuf"),
  ground (arith, eq_iff "yaml" "hessian2"),
  ground (arith, eq_iff "yaml" "msgpack"),
)

pub hessian_other : hessian_codec_name ≢ pb_codec_name
hessian_other = ground (arith, eq_iff "hessian2" "protobuf")

-- No file can be read.
abbrev pub broken_files : TlsFiles
broken_files = record {
  read_file = λ name. failure (foreign 4);
  is_pem = λ ca. false;
  load_x509_key_pair = λ cert key. failure (foreign 4);
  read_client_tls = λ cert name. failure (foreign 4);
}

hessian_client-made :
    (new_triple_client dialling_grpc sample_stubs broken_files
      (some (with_codec hessian_codec_name))
      sample_net).1
    ≡ returned (some hessian_client, none)
unfolding zero_option new_triple_client new_triple_conn get_client_tls_certificate ◌>>=◌
hessian_client-made = refl

stub_client-made :
    (new_triple_client dialling_grpc sample_stubs broken_files
      (some (with_codec pb_codec_name))
      sample_net).1
    ≡ returned (some stub_client, none)
unfolding zero_option new_triple_client new_triple_conn get_client_tls_certificate ◌>>=◌
stub_client-made = refl

conn_invoke_lem_example :
    let call = grpc_call sample_grpc sample_conn keyed_context "/m" [] nil_value [] sample_net in
    let run = conn_invoke sample_grpc sample_conn keyed_context "/m" [] nil_value [] sample_net in
    GivesBack sample_grpc sample_conn keyed_context "/m" [] nil_value [] sample_net call.1 run.1
    × (call.0.live_timers ≡ 0 + 1 → run.0.live_timers ≡ 0)
conn_invoke_lem_example =
    conn_invoke_lem sample_grpc sample_conn keyed_context "/m" [] nil_value [] sample_net

-- Codecs are registered, but not the client's.
invoke-registered_example :
    (entries : List LogEntry) × (invoke sample_grpc sample_stubs text_lib
        (register_all text_lib registrations empty_registry)
        yaml_client
        "SayHello"
        (context keyed_context ∷ [])
        nil_value
        sample_net
      ≡ (
        record sample_net { logs = entries },
        returned (
            new_error_with_attachment
              (some (
                status_errorf Code.unimplemented
                  "TripleClient.Invoke: serialization yaml not impl in triple client api."))
              []),
      ))
unfolding zero_option value_of lookup last_factory
invoke-registered_example =
    invoke-registered sample_grpc sample_stubs text_lib registrations yaml_client sample_conn
      keyed_context "Greeter" "SayHello" [] nil_value sample_net tt yaml_other.0 yaml_other.1
      yaml_other.2 refl refl

-- The client's codec is registered twice.
invoke-registered_json :
    (entries : List LogEntry) × (invoke sample_grpc sample_stubs text_lib
        (register_all text_lib registrations empty_registry)
        json_client
        "SayHello"
        (context keyed_context ∷ [])
        nil_value
        sample_net
      ≡ conn_invoke sample_grpc sample_conn keyed_context "/Greeter/SayHello" [] nil_value
          ("json" ∷ [])
          (record sample_net { logs = entries }))
unfolding zero_option value_of lookup last_factory
invoke-registered_json =
    invoke-registered sample_grpc sample_stubs text_lib registrations json_client sample_conn
      keyed_context "Greeter" "SayHello" [] nil_value sample_net tt json_other.0 json_other.1
      json_other.2 refl refl

invoke-stub_reply_example :
    (entries : List LogEntry) × ((invoke sample_grpc sample_stubs text_lib empty_registry
        stub_client "SayHello" [] nil_value sample_net).1
      ≡ stub_reply
          (with_attachment (record { err = none; attachments = ("a", text "b") ∷ [] }))
          panicked)
unfolding zero_option log_call
invoke-stub_reply_example =
    invoke-stub_reply sample_grpc sample_stubs text_lib empty_registry stub_client 0 0 "SayHello" []
      nil_value _ sample_net _ tt refl refl refl refl

-- A client whose connection is closed.
new_triple_client-client_close_example :
    let run = client_close hessian_client sample_net in
    (run.1 ≡ returned tt) × (run.0.closed_conns ≡ 8 ∷ [])
unfolding zero_option
new_triple_client-client_close_example =
    new_triple_client-client_close dialling_grpc sample_stubs broken_files
      (some (with_codec hessian_codec_name)) sample_net hessian_client (some 8) none sample_net
      hessian_client-made refl tt

-- A client whose connection is not.
client_close-leaks : (client_close stub_client sample_net).0.closed_conns ≡ []
unfolding zero_option
client_close-leaks =
    (new_triple_client-client_close dialling_grpc sample_stubs broken_files
      (some (with_codec pb_codec_name)) sample_net stub_client (some 8) none sample_net
      stub_client-made refl tt).1

invoke-panics_iff_example :
    ((invoke sample_grpc sample_stubs text_lib empty_registry stub_client "SayBye" [] nil_value
        sample_net).1
      ≡ panicked)
    ↔ StubPanics sample_stubs
        (some 0)
        "SayBye"
        []
        (log_call stub_client.opt.logger debugf call_message sample_net).0
unfolding zero_option
invoke-panics_iff_example =
    invoke-panics_iff sample_grpc sample_stubs text_lib empty_registry stub_client tt "SayBye" []
      nil_value sample_net refl

-- The stub has no such method, so the call panics.
invoke-unknown_method :
    (invoke sample_grpc sample_stubs text_lib empty_registry stub_client "SayBye" [] nil_value
      sample_net).1
    ≡ panicked
invoke-unknown_method = invoke-panics_iff_example.1 tt

-- A client of the default option, whose codec is protobuf, and a dial that fails.
new_triple_client-IsOutcome_example :
    Post
      (IsOutcome
        (option_or_default none)
        (get_client_tls_certificate broken_files (option_or_default none)))
      (new_triple_client sample_grpc sample_stubs broken_files none sample_net).1
new_triple_client-IsOutcome_example =
    new_triple_client-IsOutcome sample_grpc sample_stubs broken_files none sample_net
