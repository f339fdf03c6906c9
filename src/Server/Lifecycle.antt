-- ===== src/Server/Lifecycle.antt =====
-- What a server serves after `Start`.
use triple.Base.{
  get_elem?-set_self, ap, ◌∙◌, get_elem?-append_last, sym, bind-returned, Exit, panicked, count_if,
  length, false, nat_eq, ◌&&◌, List, ◌>>=◌, modify, String, ◌++◌, returned, some, ◌≡◌, get_elem?,
  true, All, Bool, ℕ, pure, [], ◌∷◌, refl,
}
use triple.Server.{
  set_running, start_on, start, on_host, mark_registered, on_server, start_services, System,
}
use triple.Base.Dict.{insert, Dict}
use triple.Server.Registration.{register_one, Service}
use triple.Server.Environment.{
  Host, serve_in, update_server, is_open_at, ServerOption, listen, Listener, GrpcServer,
}
use triple.Server.Registering.{
  update_server-found, Registers-trans, all_registered-cong, registered_as, register_one-Registers,
  Registers-none, IsServable, all_registered, Registers,
}
use triple.Security.{TlsFiles}
use triple.Common.Codec.{Registry, EncodingLib}
use triple.Common.Logger.{CanLog}
use triple.Server.Options.{new_grpc_server_with_codec}
use triple.Server.Options.Building.{fresh_server, new_grpc_server_with_codec-makes}

-- The keys of the map are marked, beside those that were.
abbrev pub mark_all : Dict Service → Dict Bool → Dict Bool
mark_all [] marks = marks
mark_all ((key, v) ∷ m) marks = mark_all m (insert key true marks)

module _ {Codec : Type 0} where
  -- Going from `y` to `y'`, the services of the map have been registered with the server `i`, and
  -- marked.
  pub record Starts (y y' : System Codec) (i : ℕ) (s : GrpcServer Codec) (m : Dict Service)
      : Type 0 where
    pub registers : Registers y.host y'.host i s (all_registered y.host.desc_at m)
    pub marks : y'.server ≡ record y.server { registered_key = mark_all m y.server.registered_key }

  start_services-Starts :
      (i : ℕ) (m : Dict Service) (y : System Codec) (s : GrpcServer Codec)
      → All IsServable m
      → get_elem? y.host.servers i ≡ some s
      → ((start_services i m y).1 ≡ returned tt) × Starts y (start_services i m y).0 i s m
  unfolding start_services pure on_host modify mark_registered ◌>>=◌
  start_services-Starts i [] y s ok e =
      (refl, record { registers = Registers-none y.host i s e; marks = refl })
  start_services-Starts i ((key, v) ∷ m) y s ok e =
      let y1 = on_server (mark_registered key) y in
      let one = register_one-Registers i key v y.host s ok.0 e in
      let y2 : System Codec = record y1 { host = (register_one i key v y.host).0 } in
      let s1 = record s { services = s.services ++ registered_as y.host.desc_at key v ∷ [] } in
      let rest = start_services-Starts i m y2 s1 ok.1 one.1.served in
      rw (bind-returned (on_host (register_one i key v)) (λ _. start_services i m) y1 tt one.0) (
        rest.0,
        record {
          registers =
              rw (sym (all_registered-cong m y2.host.desc_at y.host.desc_at one.1.handlers_kept))
                (Registers-trans one.1 rest.1.registers);
          marks = rest.1.marks;
        },
      )

module _ {Codec : Type 0} (binds : String → Bool) (files : TlsFiles) (lib : EncodingLib Codec)
    (registry : Registry Codec) (y : System Codec) where
  -- No open listener has the server's address, and the system lets it be bound.
  abbrev pub can_listen : Bool
  can_listen =
      binds y.server.opt.location
      && nat_eq (count_if (is_open_at y.server.opt.location) y.host.listeners) 0

  -- Where the address cannot be bound, `Start` panics and changes nothing.
  pub start-panics : can_listen ≡ false → start binds files lib registry y ≡ (y, panicked)
  unfolding start on_host listen ◌>>=◌
  start-panics busy = rw busy refl

  -- The listener that `Start` opens.
  abbrev new_listeners : List Listener
  new_listeners =
      y.host.listeners ++ record { address = y.server.opt.location; is_open = true } ∷ []

  -- What `Start` leaves: a new server with the services of the map, under their keys, that serves
  -- the new listener, and a `TripleServer` that has both and has all keys marked.
  pub record IsStarted (y' : System Codec) : Type 0 where
    pub options : List (ServerOption Codec)
    pub serves :
        get_elem? y'.host.servers (length y.host.servers)
        ≡ some (record {
          options = options;
          services = all_registered y.host.desc_at y.server.rpc_service_map;
          stopped = false;
          serving = some (length y.host.listeners) ∷ [];
        })
    pub listens : y'.host.listeners ≡ new_listeners
    pub handlers_kept : (a : ℕ) → (y'.host.desc_at a).handlers ≡ (y.host.desc_at a).handlers
    pub holds : y'.server ≡ record y.server {
      lst = some (length y.host.listeners);
      grpc_server = some (length y.host.servers);
      registered_key = mark_all y.server.rpc_service_map y.server.registered_key;
    }

  -- The process behind `net.Listen`.
  abbrev listening : System Codec
  listening = record y { host = record y.host { listeners = new_listeners } }

  start-start_on :
      can_listen ≡ true
      → start binds files lib registry y
        ≡ start_on binds files lib registry (length y.host.listeners) y.server listening
  unfolding start on_host listen ◌>>=◌
  start-start_on free = rw free refl

  -- The last two steps of `Start`.
  finish : System Codec → System Codec × Exit (Unit {0})
  finish z = (
    record {
      server = set_running (some (length y.host.listeners)) (length y.host.servers) z.server;
      host =
          update_server (length y.host.servers) (serve_in (some (length y.host.listeners))) z.host;
    },
    returned tt,
  )

  -- The services are registered in the process with the new server.
  registered_in : Host Codec → System Codec
  registered_in h =
      (start_services (length y.host.servers) y.server.rpc_service_map
        (record listening { host = h })).0

  start_on-finish :
      (h : Host Codec)
      → new_grpc_server_with_codec files lib registry y.server.opt listening.host
        ≡ (h, returned (length y.host.servers))
      → (start_services
          (length y.host.servers)
          y.server.rpc_service_map
          (record listening { host = h })).1
        ≡ returned tt
      → start_on binds files lib registry (length y.host.listeners) y.server listening
        ≡ finish (registered_in h)
  unfolding start_on finish registered_in on_host ◌>>=◌
  start_on-finish h made started = rw (made, started) refl

  -- What the last two steps make of a process in which the services are registered.
  finish-IsStarted :
      (h : Host Codec) (os : List (ServerOption Codec))
      → h.listeners ≡ new_listeners
      → h.desc_at ≡ y.host.desc_at
      → Starts
          (record listening { host = h })
          (registered_in h)
          (length y.host.servers)
          (fresh_server files lib registry y.server.opt os)
          y.server.rpc_service_map
      → IsStarted (finish (registered_in h)).0
  unfolding finish set_running
  finish-IsStarted h os ls ds st =
      let found =
        update_server-found (length y.host.servers) (serve_in (some (length y.host.listeners)))
          (registered_in h).host _ st.registers.served in
      record {
        options = os;
        serves =
            ap (λ z. get_elem? z.servers (length y.host.servers)) found
            ∙ get_elem?-set_self (registered_in h).host.servers (length y.host.servers) _ _
                st.registers.served
            ∙ ap
                (λ d. some (record {
                  options = os;
                  services = all_registered d y.server.rpc_service_map;
                  stopped = false;
                  serving = some (length y.host.listeners) ∷ [];
                }))
                ds;
        listens = ap (λ z. z.listeners) found ∙ st.registers.listeners_kept ∙ ls;
        handlers_kept = λ a.
            ap (λ z. (z.desc_at a).handlers) found
            ∙ st.registers.handlers_kept a
            ∙ ap (λ d. (d a).handlers) ds;
        holds = ap (set_running (some (length y.host.listeners)) (length y.host.servers)) st.marks;
      }

  -- Where the address can be bound, the logger can log and every service of the map implements what
  -- its key needs, `Start` returns. One server is made, whose entries are those of the map, each
  -- under its key and with the handlers of its own service, and which serves the one listener that is
  -- opened, at the option's address; the `TripleServer` holds both.
  pub start_lem :
      can_listen ≡ true
      → CanLog y.server.opt.logger
      → All IsServable y.server.rpc_service_map
      → ((start binds files lib registry y).1 ≡ returned tt)
        × IsStarted (start binds files lib registry y).0
  start_lem free can ok =
      let i = length y.host.servers in
      let (os, entries, printed, made) =
        new_grpc_server_with_codec-makes files lib registry y.server.opt listening.host can in
      let h : Host Codec = record listening.host {
        servers = y.host.servers ++ fresh_server files lib registry y.server.opt os ∷ [];
        logs = entries;
        stdout = printed;
      } in
      let st =
        start_services-Starts i y.server.rpc_service_map (record listening { host = h })
          (fresh_server files lib registry y.server.opt os) ok
          (get_elem?-append_last y.host.servers _) in
      rw (start-start_on free ∙ start_on-finish h made st.0)
        (unfold finish in refl, finish-IsStarted h os refl refl (unfold registered_in in st.1))
