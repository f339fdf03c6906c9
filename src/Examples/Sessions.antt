-- ===== src/Examples/Sessions.antt =====
-- A client and a server of the same option.
use triple.Examples.Clients.{
  sample_grpc, sample_stubs, sample_net, with_codec, broken_files, hessian_other,
}
use triple.Base.{◌++◌, ◌≡◌, get_elem?, List, none, some, returned, String, ℕ, [], ◌∷◌, refl}
use triple.Common.Config.{zero_option, TripleOption}
use triple.Client.Network.{GrpcLib}
use triple.Common.Constant.{hessian_codec_name}
use triple.Client.Calls.{client_codec}
use triple.Security.{get_client_tls_certificate}
use triple.Client.Dialing.{TripleClient}
use triple.Session.{session_lem, IsConnected}
use triple.Examples.Options.{text_lib}
use triple.Common.Codec.{empty_registry}
use triple.Server.Environment.{force_server_codec, ServerOption}
use triple.Server.Options.{new_grpc_server_with_codec}
use triple.Examples.Servers.{sample_host}
use triple.Server.Options.Building.{fresh_server}
use triple.Server.Options.Building.Agreement.{wrapped}

-- A network whose dials succeed.
abbrev live_grpc : GrpcLib ℕ String
live_grpc = record sample_grpc {
  dial_context = λ timeout address opts n. (n, returned (some 8, none));
}

abbrev hessian_option : TripleOption
hessian_option = with_codec hessian_codec_name

session_lem_example :
    ((c : TripleClient) × IsConnected live_grpc sample_stubs broken_files text_lib empty_registry
        hessian_option sample_net text_lib.new_hessian_codec
        (some 8)
        c)
    × ((os : List (ServerOption String)) × (get_elem?
            (new_grpc_server_with_codec broken_files text_lib empty_registry hessian_option
              sample_host).0.servers
            1
          ≡ some (
              fresh_server broken_files text_lib empty_registry hessian_option (
                os
                ++ force_server_codec
                    (wrapped text_lib hessian_codec_name text_lib.new_hessian_codec)
                  ∷ []))))
unfolding zero_option client_codec get_client_tls_certificate
session_lem_example =
    session_lem live_grpc sample_stubs broken_files text_lib empty_registry hessian_option
      sample_net text_lib.new_hessian_codec (some 8) none broken_files sample_host tt hessian_other
      refl refl refl
