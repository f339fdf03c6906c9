-- ===== src/Server/History/Steps.antt =====
-- What each call does to a server, by whether it holds a listener and whether that one is open.
use triple.Base.{
  Exit, ◌∙◌, eq_iff, returned, count_if-append, ◌++◌, arith, panicked, All, get_elem?-append_last,
  ap, length, if◌then◌else◌, get_elem?, true, false, count_if, some, none, ◌≡◌, Bool, ℕ, List,
  String, [], ◌∷◌, refl,
}
use triple.Server.{refresh_service, start, System}
use triple.Security.{TlsFiles}
use triple.Server.Environment.{Listener, is_open_at, Registered, GrpcServer}
use triple.Server.Refresh.{IsRefreshed, HasStarted}
use triple.Common.Codec.{Registry, EncodingLib}
use triple.Server.Lifecycle.{start_lem, start-panics, can_listen, IsStarted}
use triple.Server.Registering.{IsServable, all_registered}
use triple.Common.Logger.{CanLog}
use triple.Server.Refresh.Outcome.{refresh_service_lem}

-- A listener that is opened where none is open at the address is the only one there.
one_more :
    (address : String) (ls : List Listener)
    → count_if (is_open_at address) ls ≡ 0
    → count_if (is_open_at address) (ls ++ record { address = address; is_open = true } ∷ []) ≡ 1
one_more address ls free = ground (
  arith,
  count_if-append (is_open_at address) ls (record { address = address; is_open = true } ∷ []),
  free,
  (eq_iff address address).1 refl,
)

module _ {Codec : Type 0} where
  -- The server serves the entries on the only listener that is open at its address.
  pub record Serves (y : System Codec) (rs : List Registered) : Type 0 where
    pub g : ℕ
    pub l : ℕ
    pub old : GrpcServer Codec
    pub has_started : HasStarted y g l true old
    pub services : old.services ≡ rs
    pub runs : old.stopped ≡ false
    pub serves : old.serving ≡ some l ∷ []

  -- The server holds a listener that it has closed.
  pub record HasClosed (y : System Codec) : Type 0 where
    pub g : ℕ
    pub l : ℕ
    pub old : GrpcServer Codec
    pub has_started : HasStarted y g l false old

  pub record IsDown (y : System Codec) : Type 0 where
    pub no_listener : y.server.lst ≡ none
    pub none_open : count_if (is_open_at y.server.opt.location) y.host.listeners ≡ 0

  -- Going from `y` to `y'`, the option, the map and the handlers in memory stay as they are.
  pub record KeepsServices (y y' : System Codec) : Type 0 where
    pub opt_kept : y'.server.opt ≡ y.server.opt
    pub map_kept : y'.server.rpc_service_map ≡ y.server.rpc_service_map
    pub handlers_kept : (a : ℕ) → (y'.host.desc_at a).handlers ≡ (y.host.desc_at a).handlers

  -- The server serves the entries, or is down, by whether its address could be bound.
  abbrev pub ServesIf : Bool → System Codec → List Registered → Type 0
  ServesIf true y rs = Serves y rs
  ServesIf false y rs = IsDown y

  -- What `Start` leaves of `y`.
  abbrev pub StartedIf : Bool → System Codec → System Codec × Exit (Unit {0}) → Type 0
  StartedIf true y (y', e) =
      (e ≡ returned tt)
      × Serves y' (all_registered y.host.desc_at y.server.rpc_service_map)
      × KeepsServices y y'
  StartedIf false y r = r ≡ (y, panicked)

  HasStarted-at :
      (y : System Codec) (location : String) (g l : ℕ) (live : Bool) (old : GrpcServer Codec)
      → y.server.opt.location ≡ location
      → y.server.grpc_server ≡ some g
      → y.server.lst ≡ some l
      → get_elem? y.host.servers g ≡ some old
      → get_elem? y.host.listeners l ≡ some (record { address = location; is_open = live })
      → count_if (is_open_at location) y.host.listeners ≡ (if live then 1 else 0)
      → HasStarted y g l live old
  HasStarted-at y location g l live old e s ls there found alone = record {
    has_server = s;
    has_listener = ls;
    server_there = there;
    listener_there = rw e found;
    alone = rw e alone;
  }

module _ {Codec : Type 0} (binds : String → Bool) (files : TlsFiles) (lib : EncodingLib Codec)
    (registry : Registry Codec) (y : System Codec) where
  IsStarted-Serves :
      (y' : System Codec)
      → count_if (is_open_at y.server.opt.location) y.host.listeners ≡ 0
      → IsStarted binds files lib registry y y'
      → Serves y' (all_registered y.host.desc_at y.server.rpc_service_map) × KeepsServices y y'
  IsStarted-Serves y' free st = (
    record {
      g = length y.host.servers;
      l = length y.host.listeners;
      old = _;
      has_started =
          HasStarted-at y' y.server.opt.location (length y.host.servers) (length y.host.listeners)
            true _ (ap (λ t. t.opt.location) st.holds) (ap (λ t. t.grpc_server) st.holds)
            (ap (λ t. t.lst) st.holds) st.serves
            (rw st.listens (get_elem?-append_last y.host.listeners _))
            (rw st.listens (one_more y.server.opt.location y.host.listeners free));
      services = refl;
      runs = refl;
      serves = refl;
    },
    record {
      opt_kept = ap (λ t. t.opt) st.holds;
      map_kept = ap (λ t. t.rpc_service_map) st.holds;
      handlers_kept = st.handlers_kept;
    },
  )

  can_listen-free :
      (b : Bool)
      → binds y.server.opt.location ≡ b
      → count_if (is_open_at y.server.opt.location) y.host.listeners ≡ 0
      → can_listen binds files lib registry y ≡ b
  can_listen-free true e free = ground (arith, e, free)
  can_listen-free false e free = ground (arith, e)

  -- `Start` panics where the server is listening.
  pub start-Serves :
      (rs : List Registered) → Serves y rs → start binds files lib registry y ≡ (y, panicked)
  start-Serves rs s =
      start-panics binds files lib registry y (busy (binds y.server.opt.location) refl)
    where
      busy :
          (b : Bool)
          → binds y.server.opt.location ≡ b
          → can_listen binds files lib registry y ≡ false
      busy true e = ground (arith, e, s.has_started.alone)
      busy false e = ground (arith, e)

  -- Where nothing listens, `Start` makes the server serve the map, or panics.
  pub start-free :
      (b : Bool)
      → binds y.server.opt.location ≡ b
      → count_if (is_open_at y.server.opt.location) y.host.listeners ≡ 0
      → CanLog y.server.opt.logger
      → All IsServable y.server.rpc_service_map
      → StartedIf b y (start binds files lib registry y)
  start-free true e free can ok =
      let (back, st) = start_lem binds files lib registry y (can_listen-free true e free) can ok in
      let (serves, keeps) = IsStarted-Serves (start binds files lib registry y).0 free st in
      (back, serves, keeps)
  start-free false e free can ok =
      start-panics binds files lib registry y (can_listen-free false e free)

  -- `RefreshService` on a server that holds a listener, open or closed.
  pub refresh-HasStarted :
      (g l : ℕ) (live : Bool) (old : GrpcServer Codec) (b : Bool)
      → binds y.server.opt.location ≡ b
      → HasStarted y g l live old
      → CanLog y.server.opt.logger
      → All IsServable y.server.rpc_service_map
      → let (y', e) = refresh_service binds files lib registry y in
        (e ≡ returned tt)
        × KeepsServices y y'
        × ServesIf b y' (all_registered y.host.desc_at y.server.rpc_service_map)
  refresh-HasStarted g l live old b e s can ok =
      let (back, r) = refresh_service_lem binds files lib registry y g l live old s can ok in
      (
        back,
        record {
          opt_kept = ap (λ t. t.opt) r.holds;
          map_kept = ap (λ t. t.rpc_service_map) r.holds;
          handlers_kept = r.handlers_kept;
        },
        left b e r,
      )
    where
      left :
          (b : Bool)
          → binds y.server.opt.location ≡ b
          → {y' : System Codec} → IsRefreshed binds files lib registry y g l old y'
          → ServesIf b y' (all_registered y.host.desc_at y.server.rpc_service_map)
      left true e {y'} r = record {
        g = length y.host.servers;
        l = length y.host.listeners;
        old = _;
        has_started =
            HasStarted-at y' y.server.opt.location (length y.host.servers) (length y.host.listeners)
              true _ (ap (λ t. t.opt.location) r.holds) (ap (λ t. t.grpc_server) r.holds)
              (ap (λ t. t.lst) r.holds ∙ rw e refl) r.serves
              (r.finds (length y.host.listeners) (rw e refl)) (r.open_count ∙ rw e refl);
        services = refl;
        runs = refl;
        serves = rw e refl;
      }
      left false e {y'} r = record {
        no_listener = ap (λ t. t.lst) r.holds ∙ rw e refl;
        none_open = rw (ap (λ t. t.opt.location) r.holds) (r.open_count ∙ rw e refl);
      }
