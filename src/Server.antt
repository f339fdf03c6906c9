-- ===== src/Server.antt =====
-- pkg/triple/dubbo3_server.go: the server, its gRPC server's options, and the services it registers.
pub mod Environment
pub mod Options
pub mod Registration
pub mod Registering
pub mod Handler
pub mod Lifecycle
pub mod Refresh
pub mod Unservable
pub mod History
use triple.Base.{
  [], ◌∷◌, ◌>>◌, none, modify, gets, pure, true, Bool, some, panic, ◌>>=◌, ℕ, Option, String, M,
  refl,
}
use triple.Server.Environment.{log, serve_in, listen, stop_in, close, update_server, Host}
use triple.Base.Dict.{insert, Dict}
use triple.Server.Registration.{register_one, register_services, Service}
use triple.Common.Config.{new_triple_option, TripleOption}
use triple.Security.{TlsFiles}
use triple.Common.Codec.{Registry, EncodingLib}
use triple.Server.Options.{new_grpc_server_with_codec}
use triple.Common.Logger.{debugf}

-- The Go type `TripleServer`; nil pointers are `none`. The service map is the `sync.Map` that the
-- user shares with the server, in the order of its `Range`.
pub record TripleServer : Type 0 where
  pub lst : Option ℕ
  pub grpc_server : Option ℕ
  pub rpc_service_map : Dict Service
  pub registered_key : Dict Bool
  pub opt : TripleOption

-- The server with the process that it runs in.
pub record System (Codec : Type 0) : Type 0 where
  pub server : TripleServer
  pub host : Host Codec

-- A nil option is replaced by the default one.
unfoldable pub new_triple_server : Dict Service → Option TripleOption → TripleServer
new_triple_server service_map opt = record {
  lst = none;
  grpc_server = none;
  rpc_service_map = service_map;
  registered_key = [];
  opt = elim opt [ some o ↦ o | none ↦ new_triple_option [] ];
}

unfoldable pub mark_registered : String → TripleServer → TripleServer
mark_registered key t = record t { registered_key = insert key true t.registered_key }

unfoldable pub set_running : Option ℕ → ℕ → TripleServer → TripleServer
set_running lst server t = record t { lst = lst; grpc_server = some server }

module _ {Codec : Type 0} where
  -- An action on the process.
  unfoldable pub on_host : {A : Type 0} → M (Host Codec) A → M (System Codec) A
  on_host m s = let (h, e) = m s.host in (record s { host = h }, e)

  abbrev pub on_server : (TripleServer → TripleServer) → System Codec → System Codec
  on_server f s = record s { server = f s.server }

  -- The `Range` loop of `Start`.
  unfoldable pub start_services : ℕ → Dict Service → M (System Codec) (Unit {0})
  start_services server [] = pure tt
  start_services server ((key, value) ∷ m) = do
    modify (on_server (mark_registered key))
    on_host (register_one server key value)
    start_services server m

  -- `grpcServer.Stop()`, and a panic on a nil server.
  unfoldable pub stop_server : Option ℕ → M (Host Codec) (Unit {0})
  stop_server none = panic
  stop_server (some i) = modify (update_server i stop_in)

module _ {Codec : Type 0} (binds : String → Bool) (files : TlsFiles) (lib : EncodingLib Codec)
    (registry : Registry Codec) where
  -- `Start` behind `net.Listen`.
  start_on : ℕ → TripleServer → M (System Codec) (Unit {0})
  start_on lst t = do
    server ← on_host (new_grpc_server_with_codec files lib registry t.opt)
    start_services server t.rpc_service_map
    on_host (modify (update_server server (serve_in (some lst))))
    modify (on_server (set_running (some lst) server))

  start_with : Option ℕ → TripleServer → M (System Codec) (Unit {0})
  unfolding start_on
  start_with none t = panic
  start_with (some lst) t = start_on lst t

  unfoldable pub start : M (System Codec) (Unit {0})
  unfolding start_with
  start = do t ← gets (λ s. s.server); lst ← on_host (listen binds t.opt.location); start_with lst t

  -- The error of the second `net.Listen` is dropped, and its listener is nil then.
  unfoldable pub refresh_service : M (System Codec) (Unit {0})
  refresh_service = do
    t ← gets (λ s. s.server)
    on_host (log t.opt.logger debugf "TripleServer.Refresh: call refresh services")
    server ← on_host (new_grpc_server_with_codec files lib registry t.opt)
    on_host (register_services server t.rpc_service_map)
    on_host (stop_server t.grpc_server)
    on_host (close t.lst)
    lst ← on_host (listen binds t.opt.location)
    on_host (modify (update_server server (serve_in lst)))
    modify (on_server (set_running lst server))

unfoldable pub stop : {Codec : Type 0} → M (System Codec) (Unit {0})
stop = do t ← gets (λ s. s.server); on_host (close t.lst)
