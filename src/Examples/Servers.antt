-- ===== src/Examples/Servers.antt =====
-- Services that are registered.
use triple.Server.Options.Building.Options.{new_grpc_server_with_codec_lem}
use triple.Server.Options.Wanted.{IsWanted}
use triple.Base.Int.{pos}
use triple.Server.Options.{new_grpc_server_with_codec}
use triple.Base.{
  Has, get_elem?, List, true, none, ◌∷◌, false, [], returned, arith, some, ◌≡◌, String, All, refl,
}
use triple.Server.Environment.{ServerOption, generated, Host, GrpcServer}
use triple.Base.Dict.{Dict}
use triple.Server.Registration.{reflection_key, Service, register_services}
use triple.Server.Registering.{register_services_lem, all_registered, Registers, IsServable}
use triple.Server.{refresh_service, System, start, new_triple_server}
use triple.Common.Config.{TripleOption, zero_option}
use triple.Examples.Options.{text_lib, garbage_files}
use triple.Common.Logger.{default_logger}
use triple.Common.Codec.{empty_registry}
use triple.Server.Lifecycle.{start_lem, IsStarted}
use triple.Server.Refresh.{IsRefreshed, HasStarted}
use triple.Server.Refresh.Outcome.{refresh_service_lem}
use triple.Server.Options.Building.{fresh_server}

-- Two keys whose services share a descriptor, and the service of the reflection key.
abbrev pub sample_services : Dict Service
sample_services =
    ("greeter", record { number = 1; grpc_desc = some 0; is_unary = false; is_reflect = false })
    ∷ ("greeter2", record { number = 2; grpc_desc = some 0; is_unary = false; is_reflect = false })
    ∷ ("hessian", record { number = 3; grpc_desc = none; is_unary = true; is_reflect = false })
    ∷ (
      reflection_key,
      record { number = 4; grpc_desc = some 1; is_unary = false; is_reflect = true },
    )
    ∷ []

pub sample_services-All : All IsServable sample_services
sample_services-All = (
  (λ e. ground arith, λ e. ground arith),
  (
    (λ e. ground arith, λ e. ground arith),
    ((λ e. refl, λ e. ground arith), ((λ e. ground arith, λ e. refl), tt)),
  ),
)

abbrev new_grpc_server : GrpcServer String
new_grpc_server = record { options = []; services = []; stopped = false; serving = [] }

abbrev pub sample_host : Host String
sample_host = record {
  listeners = [];
  servers = new_grpc_server ∷ [];
  desc_at = λ a. record { service_name = "proto"; handlers = generated a };
  reflection_server = [];
  logs = [];
  stdout = [];
}

register_services_lem_example :
    ((register_services 0 sample_services sample_host).1 ≡ returned tt)
    × Registers sample_host
        (register_services 0 sample_services sample_host).0
        0
        new_grpc_server
        (all_registered sample_host.desc_at sample_services)
register_services_lem_example =
    register_services_lem 0 sample_services sample_host new_grpc_server sample_services-All refl

-- A server that is not running, in a process where nothing listens.
abbrev idle_system : System String
idle_system = record {
  server = new_triple_server sample_services (
      some (record zero_option {
        location = "localhost:1";
        logger = default_logger;
        codec_type = "json";
      }));
  host = record sample_host { servers = [] };
}

start_lem_example :
    let y' = start (λ address. true) garbage_files text_lib empty_registry idle_system in
    (y'.1 ≡ returned tt)
    × IsStarted (λ address. true) garbage_files text_lib empty_registry idle_system y'.0
unfolding new_triple_server zero_option
start_lem_example =
    start_lem (λ address. true) garbage_files text_lib empty_registry idle_system refl tt
      sample_services-All

-- The same server, running.
abbrev running_system : System String
running_system = record {
  server = record idle_system.server { lst = some 0; grpc_server = some 0 };
  host = record sample_host { listeners = record { address = "localhost:1"; is_open = true } ∷ [] };
}

running_system-HasStarted : HasStarted running_system 0 0 true new_grpc_server
unfolding new_triple_server zero_option
running_system-HasStarted = record {
  has_server = refl;
  has_listener = refl;
  server_there = refl;
  listener_there = refl;
  alone = refl;
}

refresh_service_lem_example :
    let y' =
      refresh_service (λ address. true) garbage_files text_lib empty_registry running_system in
    (y'.1 ≡ returned tt)
    × IsRefreshed
        (λ address. true)
        garbage_files
        text_lib
        empty_registry
        running_system
        0
        0
        new_grpc_server
        y'.0
unfolding new_triple_server zero_option
refresh_service_lem_example =
    refresh_service_lem (λ address. true) garbage_files text_lib empty_registry running_system 0 0
      true new_grpc_server running_system-HasStarted tt sample_services-All

-- An option with a Jaeger agent, a limit for calls and a codec that nobody registered.
abbrev jaeger_option : TripleOption
jaeger_option = record zero_option {
  logger = default_logger;
  codec_type = "json";
  jaeger_address = "agent:1";
  jaeger_use_agent = true;
  grpc_max_call_send_msg_size = pos 9;
}

new_grpc_server_with_codec_lem_example :
    (os : List (ServerOption String)) × (get_elem?
        (new_grpc_server_with_codec garbage_files text_lib empty_registry jaeger_option
          sample_host).0.servers
        1
      ≡ some (fresh_server garbage_files text_lib empty_registry jaeger_option os))
    × ((o : ServerOption String)
        → IsWanted garbage_files text_lib empty_registry jaeger_option o
        → Has o os)
    × All (IsWanted garbage_files text_lib empty_registry jaeger_option) os
new_grpc_server_with_codec_lem_example =
    new_grpc_server_with_codec_lem garbage_files text_lib empty_registry jaeger_option sample_host
      tt
