-- ===== src/Server/Unservable/Panics.antt =====
-- `Start` and `RefreshService` on a map with a service that does not implement what its key needs.
use triple.Base.{
  ap, ◌∙◌, ◌>>=◌, get_elem?-append_there, get_elem?-append_last, get_elem?, length, some, true,
  returned, panicked, ◌≡◌, ◌++◌, All, Bool, ℕ, String, [], ◌∷◌, refl,
}
use triple.Base.Dict.{Dict}
use triple.Common.Codec.{Registry, EncodingLib}
use triple.Common.Logger.{debugf, CanLog}
use triple.Security.{TlsFiles}
use triple.Server.{start_services, start_with, start_on, on_host, start, refresh_service, System}
use triple.Server.Environment.{log, listen, GrpcServer, Host}
use triple.Server.Lifecycle.{can_listen, mark_all}
use triple.Server.Options.{new_grpc_server_with_codec}
use triple.Server.Options.Building.{fresh_server, log-returns, new_grpc_server_with_codec-makes}
use triple.Server.Registering.{IsServable}
use triple.Server.Registration.{register_services, Service}
use triple.Server.Unservable.{start_services-unservable, register_services-unservable, IsUnservable}

module _ {Codec : Type 0} (binds : String → Bool) (files : TlsFiles) (lib : EncodingLib Codec)
    (registry : Registry Codec) (y : System Codec) where
  -- The process behind `net.Listen`.
  abbrev listening : System Codec
  listening = record y {
    host = record y.host {
      listeners =
          y.host.listeners ++ record { address = y.server.opt.location; is_open = true } ∷ [];
    };
  }

  start-stops :
      (h : Host Codec) (i : ℕ)
      → can_listen binds files lib registry y ≡ true
      → new_grpc_server_with_codec files lib registry y.server.opt listening.host ≡ (h, returned i)
      → let run = start_services i y.server.rpc_service_map (record listening { host = h }) in
        run.1 ≡ panicked → start binds files lib registry y ≡ (run.0, panicked)
  unfolding start start_with start_on on_host listen ◌>>=◌
  start-stops h i free made e = rw (free, made, e) refl

  refresh_service-stops :
      (h1 h2 : Host Codec) (i : ℕ)
      → log y.server.opt.logger debugf "TripleServer.Refresh: call refresh services" y.host
        ≡ (h1, returned tt)
      → new_grpc_server_with_codec files lib registry y.server.opt h1 ≡ (h2, returned i)
      → let run = register_services i y.server.rpc_service_map h2 in
        run.1 ≡ panicked
        → refresh_service binds files lib registry y ≡ (record y { host = run.0 }, panicked)
  unfolding refresh_service on_host ◌>>=◌
  refresh_service-stops h1 h2 i logged made e = rw (logged, made, e) refl

  module _ (before rest : Dict Service) (key : String) (v : Service)
      (map_is : y.server.rpc_service_map ≡ before ++ (key, v) ∷ rest) (ok : All IsServable before)
      (bad : IsUnservable (key, v)) (can : CanLog y.server.opt.logger) where
    -- `Start` on a free address, with a map in which some service does not implement what its key needs,
    -- panics at the first such service that `Range` comes to, and has opened the listener by then. The
    -- `TripleServer` does not hold it, so that it stays open: all that has changed in the `TripleServer`
    -- are the marks of the keys that were visited. The logger can log.
    pub start-unservable :
        can_listen binds files lib registry y ≡ true
        → let run = start binds files lib registry y in
          (run.1 ≡ panicked)
          × (run.0.host.listeners
              ≡ y.host.listeners ++ record { address = y.server.opt.location; is_open = true } ∷ [])
          × (run.0.server ≡ record y.server {
            registered_key = mark_all (before ++ (key, v) ∷ []) y.server.registered_key;
          })
    start-unservable free =
        let i = length y.host.servers in
        let (os, entries, printed, made) =
          new_grpc_server_with_codec-makes files lib registry y.server.opt listening.host can in
        let h : Host Codec = record listening.host {
          servers = y.host.servers ++ fresh_server files lib registry y.server.opt os ∷ [];
          logs = entries;
          stdout = printed;
        } in
        let (e, kept, marks) =
          start_services-unservable i before rest key v (record listening { host = h }) _ ok bad
            (get_elem?-append_last y.host.servers _) in
        let same = ap (λ m. start_services i m (record listening { host = h })) map_is in
        rw (start-stops h i free made (ap (λ r. r.1) same ∙ e)) (
          refl,
          ap (λ r. r.0.host.listeners) same ∙ kept.listeners_kept,
          ap (λ r. r.0.server) same ∙ marks,
        )

    -- `RefreshService` with such a map panics before it has stopped anything: the listeners and the
    -- `TripleServer` are as they were, and so is every gRPC server that there was. The logger can log.
    pub refresh_service-unservable :
        let run = refresh_service binds files lib registry y in
        (run.1 ≡ panicked)
        × (run.0.host.listeners ≡ y.host.listeners)
        × (run.0.server ≡ y.server)
        × ((j : ℕ) (s : GrpcServer Codec)
            → get_elem? y.host.servers j ≡ some s
            → get_elem? run.0.host.servers j ≡ some s)
    refresh_service-unservable =
        let i = length y.host.servers in
        let (lines, logged) =
          log-returns files lib registry y.server.opt debugf
            "TripleServer.Refresh: call refresh services" y.host can in
        let h1 : Host Codec = record y.host { logs = lines } in
        let (os, entries, printed, made) =
          new_grpc_server_with_codec-makes files lib registry y.server.opt h1 can in
        let fresh = fresh_server files lib registry y.server.opt os in
        let h2 : Host Codec = record h1 {
          servers = y.host.servers ++ fresh ∷ [];
          logs = entries;
          stdout = printed;
        } in
        let (e, kept) =
          register_services-unservable i before rest key v h2 _ ok bad
            (get_elem?-append_last y.host.servers _) in
        let same = ap (λ m. register_services i m h2) map_is in
        rw (refresh_service-stops h1 h2 i logged made (ap (λ r. r.1) same ∙ e)) (
          refl,
          ap (λ r. r.0.listeners) same ∙ kept.listeners_kept,
          refl,
          λ j s there.
              let (found, ne) = get_elem?-append_there y.host.servers (fresh ∷ []) j s there in
              ap (λ r. get_elem? r.0.servers j) same ∙ kept.others j ne ∙ found,
        )
