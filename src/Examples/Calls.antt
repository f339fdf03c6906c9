-- ===== src/Examples/Calls.antt =====
-- A call that goes from a client to the handler of a service.
use triple.Base.{none, some, returned, panicked, ◌≡◌, Exit, Option, String, ℕ, [], ◌∷◌, refl}
use triple.Base.Int.{pos}
use triple.Client.Calls.{invoke, client_codec}
use triple.Client.Connection.{TripleConn}
use triple.Client.Dialing.{TripleClient}
use triple.Client.Network.{context, GrpcLib, Reply}
use triple.Common.Codec.{empty_registry}
use triple.Common.Config.{zero_option}
use triple.Common.Constant.{hessian_codec_name, interface_key}
use triple.Common.Context.{background, value_of, Context}
use triple.Common.Error.{eof, nil_value, text, Err, Value}
use triple.Base.Dict.{lookup}
use triple.Examples.Clients.{hessian_other, sample_grpc, sample_net, sample_stubs, with_codec}
use triple.Examples.Handlers.{byte_lib, counting_service, two_texts, method_context}
use triple.Examples.Options.{text_lib}
use triple.Server.Handler.{invoke_handler, method_key}
use triple.Server.Handler.Endings.{Ending}
use triple.Session.Call.{call_lem, Answers, Delivers, Transport}

-- An error of the handler is the call's error, and so is its panic.
abbrev plain_reply : Exit (Value × Option Err) → Reply
plain_reply (returned (v, e)) = record { trailer = ("k", "v" ∷ []) ∷ []; err = e }
plain_reply panicked = record { trailer = []; err = some eof }

abbrev direct : Transport ℕ
direct = record {
  server_context = λ ctx name. method_context name;
  decoder = λ params. two_texts;
  reply_of = plain_reply;
}

abbrev direct_grpc : GrpcLib ℕ String
direct_grpc = record sample_grpc {
  invoke = λ conn ctx timeout path params reply codecs n.
      let (w, e) =
        invoke_handler byte_lib counting_service counting_service (method_context "SayHello")
          two_texts n.world in
      (record n { world = w }, returned (plain_reply e));
}

abbrev caller_conn : TripleConn
caller_conn = record { timeout = pos 5; grpc_conn = some 8 }

abbrev caller : TripleClient
caller = record {
  stub_invoker = none;
  tripl_conn = some caller_conn;
  opt = with_codec hessian_codec_name;
}

abbrev caller_context : Context
caller_context = record background { values = (interface_key, text "greeter") ∷ [] }

direct-Delivers :
    Delivers direct_grpc sample_stubs text_lib empty_registry caller caller_conn
      text_lib.new_hessian_codec byte_lib counting_service counting_service direct "greeter"
      caller_context "SayHello" [] nil_value
unfolding value_of lookup
direct-Delivers = record { named = refl; delivers = λ n. refl }

call_lem_example :
    let r =
      invoke_handler byte_lib counting_service counting_service
        (method_context "SayHello")
        two_texts
        0 in
    (value_of (method_context "SayHello") method_key ≡ text "SayHello")
    × Ending byte_lib counting_service counting_service (method_context "SayHello") two_texts 0 r
    × Answers direct_grpc sample_stubs text_lib empty_registry caller caller_conn
        text_lib.new_hessian_codec byte_lib counting_service counting_service direct "greeter"
        sample_net r
        (invoke direct_grpc sample_stubs text_lib empty_registry caller "SayHello"
          (context caller_context ∷ [])
          nil_value
          sample_net)
unfolding zero_option client_codec value_of lookup
call_lem_example =
    call_lem direct_grpc sample_stubs text_lib empty_registry caller caller_conn
      text_lib.new_hessian_codec byte_lib counting_service counting_service direct "greeter"
      caller_context "SayHello" [] nil_value sample_net direct-Delivers tt hessian_other refl refl
      refl
