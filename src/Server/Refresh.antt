-- ===== src/Server/Refresh.antt =====
-- What `RefreshService` does to a running server.
pub mod Outcome
use triple.Base.{
  ap, get_elem?-append_there, sym, ◌∙◌, ◌≢◌, get_elem?-set_ne, eq_iff, length-set, modify, [], none,
  ◌∷◌, ◌++◌, length, if◌then◌else◌, returned, count_if-set, arith, Option, set, count_if, ◌>>=◌,
  false, true, some, ◌≡◌, get_elem?, ℕ, List, String, Bool, refl,
}
use triple.Security.{TlsFiles}
use triple.Common.Codec.{Registry, EncodingLib}
use triple.Server.{set_running, stop_server, on_host, refresh_service, System}
use triple.Server.Environment.{
  stop_in, ServerOption, is_open_at, close_listener, Listener, GrpcServer, serve_in, update_server,
  listen, close, log, Host,
}
use triple.Common.Logger.{debugf}
use triple.Server.Options.{new_grpc_server_with_codec}
use triple.Server.Registration.{register_services}
use triple.Server.Registering.{update_server-found, Registers, all_registered}
use triple.Server.Options.Building.{fresh_server}

-- No entry passes, where the one that might have passed does no longer.
pub count_if-set_last :
    {A : Type 0} (p : A → Bool) (xs : List A) (i : ℕ) (old new : A)
    → get_elem? xs i ≡ some old
    → p new ≡ false
    → count_if p xs ≡ (if p old then 1 else 0)
    → count_if p (set xs i new) ≡ 0
count_if-set_last p xs i old new h pn one = ground (arith, count_if-set p xs i old new h)

pub close_listener-there :
    (ls : List Listener) (l : ℕ) (x : Listener)
    → get_elem? ls l ≡ some x
    → close_listener l ls ≡ set ls l (record x { is_open = false })
unfolding close_listener
close_listener-there ls l x h = ground (arith, h)

module _ {Codec : Type 0} (y : System Codec) where
  abbrev pub at_address : Bool → Listener
  at_address live = record { address = y.server.opt.location; is_open = live }

  -- The server has been started: it holds the gRPC server `g` and the listener `l`. The listener is
  -- open or closed as `live` says, and no other is open at the server's address.
  pub record HasStarted (g l : ℕ) (live : Bool) (old : GrpcServer Codec) : Type 0 where
    pub has_server : y.server.grpc_server ≡ some g
    pub has_listener : y.server.lst ≡ some l
    pub server_there : get_elem? y.host.servers g ≡ some old
    pub listener_there : get_elem? y.host.listeners l ≡ some (at_address live)
    pub alone :
        count_if (is_open_at y.server.opt.location) y.host.listeners ≡ (if live then 1 else 0)

module _ {Codec : Type 0} (binds : String → Bool) (files : TlsFiles) (lib : EncodingLib Codec)
    (registry : Registry Codec) (y : System Codec) where
  abbrev pub message : String
  message = "TripleServer.Refresh: call refresh services"

  -- The steps of `RefreshService` one after the other.
  refresh_service-steps :
      (h1 h2 h3 h4 h5 h6 : Host Codec) (i : ℕ) (lst : Option ℕ)
      → log y.server.opt.logger debugf message y.host ≡ (h1, returned tt)
      → new_grpc_server_with_codec files lib registry y.server.opt h1 ≡ (h2, returned i)
      → register_services i y.server.rpc_service_map h2 ≡ (h3, returned tt)
      → stop_server y.server.grpc_server h3 ≡ (h4, returned tt)
      → close y.server.lst h4 ≡ (h5, returned tt)
      → listen binds y.server.opt.location h5 ≡ (h6, returned lst)
      → refresh_service binds files lib registry y ≡ (
        record { server = set_running lst i y.server; host = update_server i (serve_in lst) h6 },
        returned tt,
      )
  unfolding refresh_service on_host ◌>>=◌
  refresh_service-steps h1 h2 h3 h4 h5 h6 i lst logged made registered stopped closed listened =
      rw (logged, made, registered, stopped, closed, listened) refl

  abbrev new_lst : Option ℕ
  new_lst = if binds y.server.opt.location then some (length y.host.listeners) else none

  abbrev opened : Listener
  opened = record { address = y.server.opt.location; is_open = true }

  abbrev closed : Listener
  closed = record { address = y.server.opt.location; is_open = false }

  -- A new server serves the map, the old one is stopped and its listener closed, and the
  -- `TripleServer` holds the new server with the new listener, or with none where the address could
  -- not be bound again.
  pub record IsRefreshed (g l : ℕ) (old : GrpcServer Codec) (y' : System Codec) : Type 0 where
    pub options : List (ServerOption Codec)
    pub serves :
        get_elem? y'.host.servers (length y.host.servers)
        ≡ some (record {
          options = options;
          services = all_registered y.host.desc_at y.server.rpc_service_map;
          stopped = false;
          serving = new_lst ∷ [];
        })
    pub stops : get_elem? y'.host.servers g ≡ some (stop_in old)
    pub closes : get_elem? y'.host.listeners l ≡ some closed
    pub open_count :
        count_if (is_open_at y.server.opt.location) y'.host.listeners
        ≡ (if binds y.server.opt.location then 1 else 0)
    pub handlers_kept : (a : ℕ) → (y'.host.desc_at a).handlers ≡ (y.host.desc_at a).handlers
    pub holds :
        y'.server ≡ record y.server { lst = new_lst; grpc_server = some (length y.host.servers) }
    pub finds : (j : ℕ) → new_lst ≡ some j → get_elem? y'.host.listeners j ≡ some opened

  -- The listeners after a `net.Listen`.
  abbrev listeners_after : Bool → List Listener → List Listener
  listeners_after true ls = ls ++ opened ∷ []
  listeners_after false ls = ls

  listen-free :
      (b : Bool) (h : Host Codec)
      → binds y.server.opt.location ≡ b
      → count_if (is_open_at y.server.opt.location) h.listeners ≡ 0
      → length h.listeners ≡ length y.host.listeners
      → listen binds y.server.opt.location h
        ≡ (record h { listeners = listeners_after b h.listeners }, returned new_lst)
  unfolding listen
  listen-free true h e free same = ground (arith, e, free, same)
  listen-free false h e free same = ground (arith, e, free, same)

  closed_listeners : ℕ → List Listener
  closed_listeners l = set y.host.listeners l closed

  close-there :
      (l : ℕ) (live : Bool) (h : Host Codec)
      → y.server.lst ≡ some l
      → h.listeners ≡ y.host.listeners
      → get_elem? y.host.listeners l ≡ some (at_address y live)
      → close y.server.lst h ≡ (record h { listeners = closed_listeners l }, returned tt)
  unfolding close closed_listeners
  close-there l live h has same there =
      rw (has, same, close_listener-there y.host.listeners l (at_address y live) there) refl

  -- Why the process after the registration leads to what `RefreshService` leaves.
  module _ (g l : ℕ) (live : Bool) (old : GrpcServer Codec) (started : HasStarted y g l live old)
      (os : List (ServerOption Codec)) (h2 h3 : Host Codec)
      (servers2 : h2.servers
        ≡ y.host.servers ++ fresh_server files lib registry y.server.opt os ∷ [])
      (listeners2 : h2.listeners ≡ y.host.listeners)
      (registers : Registers h2 h3
        (length y.host.servers)
        (fresh_server files lib registry y.server.opt os)
        (all_registered y.host.desc_at y.server.rpc_service_map)) where
    old_there : (get_elem? h3.servers g ≡ some old) × (length y.host.servers ≢ g)
    old_there =
        let (there, ne) =
          get_elem?-append_there y.host.servers
            (fresh_server files lib registry y.server.opt os ∷ []) g old started.server_there in
        (registers.others g ne ∙ ap (λ ss. get_elem? ss g) servers2 ∙ there, ne)

    stopped_host : Host Codec
    stopped_host = record h3 { servers = set h3.servers g (stop_in old) }

    closed_host : Host Codec
    closed_host = record stopped_host { listeners = closed_listeners l }

    relistened_host : Host Codec
    relistened_host = record closed_host {
      listeners = listeners_after (binds y.server.opt.location) (closed_listeners l);
    }

    stop-old : stop_server y.server.grpc_server h3 ≡ (stopped_host, returned tt)
    unfolding stop_server stopped_host modify
    stop-old = rw (started.has_server, update_server-found g stop_in h3 old old_there.0) refl

    close-old : close y.server.lst stopped_host ≡ (closed_host, returned tt)
    unfolding stopped_host closed_host
    close-old =
        close-there l live stopped_host started.has_listener (registers.listeners_kept ∙ listeners2)
          started.listener_there

    none_open : count_if (is_open_at y.server.opt.location) (closed_listeners l) ≡ 0
    unfolding closed_listeners
    none_open =
        count_if-set_last (is_open_at y.server.opt.location) y.host.listeners l (at_address y live)
          closed started.listener_there refl
          (ground
            (arith, started.alone, (eq_iff y.server.opt.location y.server.opt.location).1 refl))

    listen-again :
        listen binds y.server.opt.location closed_host ≡ (relistened_host, returned new_lst)
    unfolding closed_host relistened_host
    listen-again =
        listen-free (binds y.server.opt.location) closed_host refl none_open
          (unfold closed_listeners in length-set y.host.listeners l closed)

    new_there :
        get_elem? relistened_host.servers (length y.host.servers)
        ≡ some (record (fresh_server files lib registry y.server.opt os) {
          services = all_registered y.host.desc_at y.server.rpc_service_map;
        })
    unfolding relistened_host closed_host stopped_host
    new_there =
        get_elem?-set_ne h3.servers g (length y.host.servers) (stop_in old)
          (λ e. old_there.1 (sym e))
        ∙ registers.served
