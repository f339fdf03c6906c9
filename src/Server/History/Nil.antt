-- ===== src/Server/History/Nil.antt =====
-- `RefreshService` without a listener, and `Stop`.
use triple.Server.Refresh.{at_address, count_if-set_last, message, close_listener-there, HasStarted}
use triple.Base.{
  ◌∙◌, eq_iff, ap, false, get_elem?-append_last, ◌++◌, get_elem?-set_self, panic, none, length,
  arith, Option, All, modify, panicked, returned, some, ◌≡◌, ◌>>=◌, Bool, ℕ, String, [], ◌∷◌, refl,
}
use triple.Server.{refresh_service, stop_server, on_host, stop, System}
use triple.Server.Environment.{
  is_open_at, log, Host, close_listener, update_server, close, GrpcServer,
}
use triple.Security.{TlsFiles}
use triple.Common.Codec.{Registry, EncodingLib}
use triple.Server.History.Steps.{HasClosed, KeepsServices, IsDown}
use triple.Common.Logger.{debugf, CanLog}
use triple.Server.Registering.{register_services_lem, IsServable}
use triple.Server.Options.Building.{fresh_server, new_grpc_server_with_codec-makes, log-returns}
use triple.Server.Options.{new_grpc_server_with_codec}
use triple.Server.Registration.{register_services}

module _ {Codec : Type 0} (binds : String → Bool) (files : TlsFiles) (lib : EncodingLib Codec)
    (registry : Registry Codec) (y : System Codec) where
  -- The steps of `RefreshService` up to the panic of the nil listener, or of the nil server before it.
  refresh_service-stuck :
      (h1 h2 h3 : Host Codec) (i : ℕ) (g : Option ℕ)
      → log y.server.opt.logger debugf (message binds files lib registry y) y.host
        ≡ (h1, returned tt)
      → new_grpc_server_with_codec files lib registry y.server.opt h1 ≡ (h2, returned i)
      → register_services i y.server.rpc_service_map h2 ≡ (h3, returned tt)
      → y.server.lst ≡ none
      → y.server.grpc_server ≡ g
      → refresh_service binds files lib registry y
        ≡ (record y { host = (stop_server g h3).0 }, panicked)
  unfolding refresh_service on_host stop_server close modify ◌>>=◌
  refresh_service-stuck h1 h2 h3 i none logged made registered no_lst e =
      rw (logged, made, registered, e) refl
  refresh_service-stuck h1 h2 h3 i (some g) logged made registered no_lst e =
      rw (logged, made, registered, e, no_lst) refl

  stop_server-listeners :
      (g : Option ℕ) (h : Host Codec) → (stop_server g h).0.listeners ≡ h.listeners
  unfolding stop_server update_server modify panic
  stop_server-listeners none h = refl
  stop_server-listeners (some g) h = ground arith

  stop_server-desc_at : (g : Option ℕ) (h : Host Codec) → (stop_server g h).0.desc_at ≡ h.desc_at
  unfolding stop_server update_server modify panic
  stop_server-desc_at none h = refl
  stop_server-desc_at (some g) h = ground arith

  -- On a server that holds no listener, `RefreshService` panics, and the server stays as it is.
  pub refresh-IsDown :
      IsDown y
      → CanLog y.server.opt.logger
      → All IsServable y.server.rpc_service_map
      → let (y', e) = refresh_service binds files lib registry y in
        (e ≡ panicked) × KeepsServices y y' × IsDown y'
  refresh-IsDown down can ok =
      let i = length y.host.servers in
      let (lines, logged) =
        log-returns files lib registry y.server.opt debugf (message binds files lib registry y)
          y.host can in
      let h1 : Host Codec = record y.host { logs = lines } in
      let (os, entries, printed, made) =
        new_grpc_server_with_codec-makes files lib registry y.server.opt h1 can in
      let h2 : Host Codec = record h1 {
        servers = y.host.servers ++ fresh_server files lib registry y.server.opt os ∷ [];
        logs = entries;
        stdout = printed;
      } in
      let reg =
        register_services_lem i y.server.rpc_service_map h2
          (fresh_server files lib registry y.server.opt os) ok
          (get_elem?-append_last y.host.servers _) in
      let h3 = (register_services i y.server.rpc_service_map h2).0 in
      rw
        (refresh_service-stuck h1 h2 h3 i y.server.grpc_server logged made (ap (λ e. (h3, e)) reg.0)
          down.no_listener refl)
        (
          refl,
          record {
            opt_kept = refl;
            map_kept = refl;
            handlers_kept = λ a.
                ap (λ d. (d a).handlers) (stop_server-desc_at y.server.grpc_server h3)
                ∙ reg.1.handlers_kept a;
          },
          record {
            no_listener = down.no_listener;
            none_open =
                rw (stop_server-listeners y.server.grpc_server h3 ∙ reg.1.listeners_kept)
                  down.none_open;
          },
        )

module _ {Codec : Type 0} (y : System Codec) where
  pub stop-IsDown : IsDown y → stop y ≡ (y, panicked)
  unfolding stop on_host close ◌>>=◌
  stop-IsDown down = rw (down.no_listener) refl

  stop-steps :
      (l : ℕ)
      → y.server.lst ≡ some l
      → stop y ≡ (
        record y { host = record y.host { listeners = close_listener l y.host.listeners } },
        returned tt,
      )
  unfolding stop on_host close ◌>>=◌
  stop-steps l e = rw e refl

  -- `Stop` closes the listener that the server holds, also where it is closed already.
  pub stop-HasStarted :
      (g l : ℕ) (live : Bool) (old : GrpcServer Codec)
      → HasStarted y g l live old
      → let (y', e) = stop y in (e ≡ returned tt) × KeepsServices y y' × HasClosed y'
  stop-HasStarted g l live old s =
      rw (stop-steps l s.has_listener, close_listener-there y.host.listeners l _ s.listener_there)
        (
          refl,
          record { opt_kept = refl; map_kept = refl; handlers_kept = λ a. refl },
          record {
            g = g;
            l = l;
            old = old;
            has_started = record {
              has_server = s.has_server;
              has_listener = s.has_listener;
              server_there = s.server_there;
              listener_there = get_elem?-set_self y.host.listeners l _ _ s.listener_there;
              alone =
                  count_if-set_last (is_open_at y.server.opt.location) y.host.listeners l
                    (at_address y live) (at_address y false) s.listener_there refl
                    (ground (
                      arith,
                      s.alone,
                      (eq_iff y.server.opt.location y.server.opt.location).1 refl,
                    ));
            };
          },
        )
