-- ===== src/Server/Refresh/Outcome.antt =====
-- The state that `RefreshService` leaves, and that it is reached.
use triple.Base.{
  none, length-set, get_elem?-append_last, returned, get_elem?-set_ne, ◌∙◌, ap, All,
  get_elem?-set_self, false, true, eq_iff, count_if-append, arith, length, get_elem?-append_there,
  if◌then◌else◌, some, ◌++◌, get_elem?, ◌≡◌, count_if, ℕ, List, Bool, String, [], ◌∷◌, refl,
}
use triple.Server.Refresh.{
  relistened_host, closed_host, stopped_host, old_there, new_there, none_open, listeners_after,
  opened, closed, closed_listeners, stop-old, close-old, listen-again, refresh_service-steps,
  message, new_lst, HasStarted, IsRefreshed,
}
use triple.Security.{TlsFiles}
use triple.Common.Codec.{Registry, EncodingLib}
use triple.Server.{refresh_service, set_running, System}
use triple.Server.Environment.{
  stop_in, serve_in, update_server, Host, is_open_at, ServerOption, Listener, GrpcServer,
}
use triple.Server.Options.Building.{new_grpc_server_with_codec-makes, log-returns, fresh_server}
use triple.Server.Registering.{
  register_services_lem, IsServable, update_server-found, all_registered, Registers,
}
use triple.Common.Logger.{debugf, CanLog}
use triple.Server.Registration.{register_services}

module _ {Codec : Type 0} (binds : String → Bool) (files : TlsFiles) (lib : EncodingLib Codec)
    (registry : Registry Codec) (y : System Codec) where
  -- The old listener is closed, and the one that is opened again, if any, is the only one.
  listeners_after-counts :
      (b : Bool) (ls : List Listener) (l : ℕ)
      → count_if (is_open_at y.server.opt.location) ls ≡ 0
      → get_elem? ls l ≡ some (closed binds files lib registry y)
      → let after = listeners_after binds files lib registry y b ls in
        (get_elem? after l ≡ some (closed binds files lib registry y))
        × (count_if (is_open_at y.server.opt.location) after ≡ (if b then 1 else 0))
  listeners_after-counts true ls l free there = (
    (get_elem?-append_there ls (opened binds files lib registry y ∷ []) l _ there).0,
    ground (
      arith,
      count_if-append (is_open_at y.server.opt.location) ls
          (opened binds files lib registry y ∷ []),
      free,
      (eq_iff y.server.opt.location y.server.opt.location).1 refl,
    ),
  )
  listeners_after-counts false ls l free there = (there, free)

  listeners_after-finds :
      (b : Bool) (ls : List Listener) (j : ℕ)
      → length ls ≡ length y.host.listeners
      → (if b then some (length y.host.listeners) else none) ≡ some j
      → get_elem? (listeners_after binds files lib registry y b ls) j
        ≡ some (opened binds files lib registry y)
  listeners_after-finds true ls j same e =
      ground (arith, get_elem?-append_last ls (opened binds files lib registry y), same, e)
  listeners_after-finds false ls j same e = cc

  module _ (g l : ℕ) (live : Bool) (old : GrpcServer Codec) (started : HasStarted y g l live old)
      (os : List (ServerOption Codec)) (h2 h3 : Host Codec)
      (servers2 : h2.servers
        ≡ y.host.servers ++ fresh_server files lib registry y.server.opt os ∷ [])
      (listeners2 : h2.listeners ≡ y.host.listeners)
      (registers : Registers h2 h3
        (length y.host.servers)
        (fresh_server files lib registry y.server.opt os)
        (all_registered y.host.desc_at y.server.rpc_service_map)) where
    last_host : Host Codec
    last_host =
        relistened_host binds files lib registry y g l live old started os h2 h3 servers2 listeners2
          registers

    last_system : System Codec
    last_system = record {
      server = set_running (new_lst binds files lib registry y) (length y.host.servers) y.server;
      host =
          update_server (length y.host.servers) (serve_in (new_lst binds files lib registry y))
            last_host;
    }

    last-IsRefreshed :
        ((a : ℕ) → (h2.desc_at a).handlers ≡ (y.host.desc_at a).handlers)
        → IsRefreshed binds files lib registry y g l old last_system
    unfolding last_system last_host set_running relistened_host closed_host stopped_host
    last-IsRefreshed descs2 =
        let i = length y.host.servers in
        let there =
          new_there binds files lib registry y g l live old started os h2 h3 servers2 listeners2
            registers in
        let (was, ne) =
          old_there binds files lib registry y g l live old started os h2 h3 servers2 listeners2
            registers in
        let found =
          update_server-found i (serve_in (new_lst binds files lib registry y)) last_host _ there in
        let counts =
          listeners_after-counts (binds y.server.opt.location)
            (closed_listeners binds files lib registry y l) l
            (none_open binds files lib registry y g l live old started os h2 h3 servers2 listeners2
              registers)
            (unfold closed_listeners in
              get_elem?-set_self y.host.listeners l _ _ started.listener_there) in
        record {
          options = os;
          serves =
              ap (λ z. get_elem? z.servers i) found
              ∙ get_elem?-set_self last_host.servers i _ _ there;
          stops =
              ap (λ z. get_elem? z.servers g) found
              ∙ get_elem?-set_ne last_host.servers i g _ ne
              ∙ get_elem?-set_self h3.servers g old (stop_in old) was;
          closes = ap (λ z. get_elem? z.listeners l) found ∙ counts.0;
          open_count =
              ap (λ z. count_if (is_open_at y.server.opt.location) z.listeners) found ∙ counts.1;
          handlers_kept =
              λ a. ap (λ z. (z.desc_at a).handlers) found ∙ registers.handlers_kept a ∙ descs2 a;
          holds = refl;
          finds = λ j e.
              ap (λ z. get_elem? z.listeners j) found
              ∙ listeners_after-finds (binds y.server.opt.location)
                  (closed_listeners binds files lib registry y l) j
                  (unfold closed_listeners in length-set y.host.listeners l _) e;
        }

  -- `RefreshService` on a server that has been started, also one that has been stopped since, whose
  -- logger can log and whose map has only services that implement what their keys need, returns. The new server serves exactly the map as it is now, the
  -- old one is stopped and its listener closed. At most one listener is open at the address, the new
  -- server's; where the address cannot be bound again there is none, no error is returned, and the
  -- `TripleServer` holds a nil listener.
  pub refresh_service_lem :
      (g l : ℕ) (live : Bool) (old : GrpcServer Codec)
      → HasStarted y g l live old
      → CanLog y.server.opt.logger
      → All IsServable y.server.rpc_service_map
      → let run = refresh_service binds files lib registry y in
        (run.1 ≡ returned tt) × IsRefreshed binds files lib registry y g l old run.0
  refresh_service_lem g l live old started can ok =
      let i = length y.host.servers in
      let (lines, logged) =
        log-returns files lib registry y.server.opt debugf (message binds files lib registry y)
          y.host can in
      let h1 : Host Codec = record y.host { logs = lines } in
      let (os, entries, printed, made) =
        new_grpc_server_with_codec-makes files lib registry y.server.opt h1 can in
      let h2 : Host Codec = record h1 {
        servers = y.host.servers ++ fresh_server files lib registry y.server.opt os ∷ [];
        logs = entries;
        stdout = printed;
      } in
      let reg =
        register_services_lem i y.server.rpc_service_map h2
          (fresh_server files lib registry y.server.opt os) ok
          (get_elem?-append_last y.host.servers _) in
      let h3 = (register_services i y.server.rpc_service_map h2).0 in
      rw
        (refresh_service-steps binds files lib registry y h1 h2 h3
          (stopped_host binds files lib registry y g l live old started os h2 h3 refl refl reg.1)
          (closed_host binds files lib registry y g l live old started os h2 h3 refl refl reg.1)
          (relistened_host binds files lib registry y g l live old started os h2 h3 refl refl reg.1)
          i (new_lst binds files lib registry y) logged made (ap (λ e. (h3, e)) reg.0)
          (stop-old binds files lib registry y g l live old started os h2 h3 refl refl reg.1)
          (close-old binds files lib registry y g l live old started os h2 h3 refl refl reg.1)
          (listen-again binds files lib registry y g l live old started os h2 h3 refl refl reg.1))
        (
          refl,
          unfold last_system last_host in
              last-IsRefreshed g l live old started os h2 h3 refl refl reg.1 λ a. refl,
        )
