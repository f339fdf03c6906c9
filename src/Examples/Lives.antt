-- ===== src/Examples/Lives.antt =====
-- A server's life with a change of the map, an address that is lost, and calls out of order.
use triple.Base.{
  ◌++◌, inl, get_elem?, ℕ, map, returned, false, panicked, ◌≡◌, some, true, arith, none, String,
  All, List, [], ◌∷◌, refl,
}
use triple.Server.Environment.{Host, GrpcServer}
use triple.Server.History.{
  refresh_call, store_call, start_call, stop_call, IsAllowed, Call, down, run_calls, view_calls,
}
use triple.Base.Dict.{Dict}
use triple.Common.Config.{zero_option, TripleOption}
use triple.Server.{new_triple_server, System, start, refresh_service}
use triple.Server.Registration.{Service}
use triple.Examples.Options.{text_lib, garbage_files}
use triple.Server.Registering.{IsServable}
use triple.Examples.Servers.{sample_services-All, sample_host, sample_services}
use triple.Common.Logger.{default_logger}
use triple.Common.Codec.{empty_registry}
use triple.Server.History.Unordered.{bag, map_call, Shows, run_calls-Shows}
use triple.Server.Unservable.Panics.{start-unservable, refresh_service-unservable}
use triple.Server.Lifecycle.{mark_all}

abbrev life_option : TripleOption
life_option = record zero_option {
  location = "localhost:1";
  logger = default_logger;
  codec_type = "json";
}

abbrev one_service : Dict Service
one_service =
    ("hessian", record { number = 3; grpc_desc = none; is_unary = true; is_reflect = false }) ∷ []

one_service-All : All IsServable one_service
one_service-All = ((λ e. refl, λ e. ground arith), tt)

abbrev life : List (Call (Dict Service))
life =
    stop_call
    ∷ start_call (λ address. true)
    ∷ start_call (λ address. true)
    ∷ store_call one_service
    ∷ refresh_call (λ address. true)
    ∷ stop_call
    ∷ refresh_call (λ address. false)
    ∷ stop_call
    ∷ []

life-All : All IsAllowed life
life-All = (tt, (tt, (tt, (one_service-All, (tt, (tt, (tt, (tt, tt))))))))

abbrev life_host : Host String
life_host = record sample_host { servers = [] }

abbrev life_server : System String
life_server = record {
  server = new_triple_server sample_services (some life_option);
  host = life_host;
}

-- What the view says of that life.
view_calls-life :
    (view_calls "localhost:1" life (record { phase = down; stored = sample_services })).1
    ≡ panicked
      ∷ returned tt
      ∷ panicked
      ∷ returned tt
      ∷ returned tt
      ∷ returned tt
      ∷ returned tt
      ∷ panicked
      ∷ []
unfolding view_calls
view_calls-life = refl

run_calls-Shows_example :
    let (y', es) = run_calls garbage_files text_lib empty_registry life life_server in
    let (v', es') =
      view_calls life_option.location
        (map (map_call bag) life)
        (record { phase = down; stored = bag sample_services }) in
    (es ≡ es') × Shows life_option life_host.desc_at v' y'
run_calls-Shows_example =
    run_calls-Shows life_option life_host.desc_at garbage_files text_lib empty_registry
      (unfold zero_option in tt) life sample_services life_host life-All sample_services-All refl
      refl

-- A map whose second service implements neither interface.
abbrev bad_service : Service
bad_service = record { number = 4; grpc_desc = none; is_unary = false; is_reflect = false }

abbrev bad_server : System String
bad_server = record {
  server = new_triple_server (one_service ++ ("bad", bad_service) ∷ []) (some life_option);
  host = life_host;
}

start-unservable_example :
    let run = start (λ address. true) garbage_files text_lib empty_registry bad_server in
    (run.1 ≡ panicked)
    × (run.0.host.listeners
        ≡ life_host.listeners ++ record { address = "localhost:1"; is_open = true } ∷ [])
    × (run.0.server ≡ record bad_server.server {
      registered_key =
          mark_all (one_service ++ ("bad", bad_service) ∷ []) bad_server.server.registered_key;
    })
unfolding new_triple_server
start-unservable_example =
    start-unservable (λ address. true) garbage_files text_lib empty_registry bad_server one_service
      [] "bad" bad_service refl one_service-All (inl (refl, refl)) (unfold zero_option in tt) refl

refresh_service-unservable_example :
    let run = refresh_service (λ address. true) garbage_files text_lib empty_registry bad_server in
    (run.1 ≡ panicked)
    × (run.0.host.listeners ≡ life_host.listeners)
    × (run.0.server ≡ bad_server.server)
    × ((j : ℕ) (s : GrpcServer String)
        → get_elem? life_host.servers j ≡ some s
        → get_elem? run.0.host.servers j ≡ some s)
unfolding new_triple_server
refresh_service-unservable_example =
    refresh_service-unservable (λ address. true) garbage_files text_lib empty_registry bad_server
      one_service [] "bad" bad_service refl one_service-All (inl (refl, refl))
      (unfold zero_option in tt)
