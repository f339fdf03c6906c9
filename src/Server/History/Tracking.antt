-- ===== src/Server/History/Tracking.antt =====
-- Every history of calls against its view: the same exits, and the phase that the view says.
use triple.Base.{false, some, true, subst, count_if, ◌∙◌, All, ap, ◌≡◌, Exit, Bool, ℕ, refl}
use triple.Server.{new_triple_server, on_server, System}
use triple.Common.Config.{TripleOption}
use triple.Base.Dict.{Dict}
use triple.Server.Environment.{is_open_at, GrpcServer, Host, ServiceDesc}
use triple.Server.Registration.{Service}
use triple.Server.History.{view_started, listening, closed, down, live, Phase, View}
use triple.Server.History.Steps.{Serves, HasClosed, StartedIf, ServesIf, KeepsServices, IsDown}
use triple.Server.Registering.{IsServable, all_registered-cong, all_registered}
use triple.Server.Refresh.{HasStarted}

module _ {Codec : Type 0} (y : System Codec) (m : Dict Service) where
  -- The server after the user has changed the map.
  abbrev stored : System Codec
  stored = on_server (λ t. record t { rpc_service_map = m }) y

  stored-HasStarted :
      {g l : ℕ} {b : Bool} {old : GrpcServer Codec}
      → HasStarted y g l b old
      → HasStarted stored g l b old
  stored-HasStarted s = record {
    has_server = s.has_server;
    has_listener = s.has_listener;
    server_there = s.server_there;
    listener_there = s.listener_there;
    alone = s.alone;
  }

module _ {Codec : Type 0} (opt : TripleOption) (descs : ℕ → ServiceDesc) where
  abbrev pub InPhase : Phase (Dict Service) → System Codec → Type 0
  InPhase down y = IsDown y
  InPhase closed y = HasClosed y
  InPhase (live m) y = Serves y (all_registered descs m)

  -- The view is true of the server, whose option is `opt`; the descriptors in memory have the handlers
  -- that they had in the beginning.
  pub record Tracks (v : View (Dict Service)) (y : System Codec) : Type 0 where
    pub opt_is : y.server.opt ≡ opt
    pub map_is : y.server.rpc_service_map ≡ v.stored
    pub servable : All IsServable v.stored
    pub handlers_are : (a : ℕ) → (y.host.desc_at a).handlers ≡ (descs a).handlers
    pub in_phase : InPhase v.phase y

  -- A server in the process at the beginning.
  pub new_triple_server-Tracks :
      (m : Dict Service) (h : Host Codec)
      → All IsServable m
      → h.desc_at ≡ descs
      → count_if (is_open_at opt.location) h.listeners ≡ 0
      → Tracks
          (record { phase = down; stored = m })
          (record { server = new_triple_server m (some opt); host = h })
  unfolding new_triple_server
  new_triple_server-Tracks m h ok ds free = record {
    opt_is = refl;
    map_is = refl;
    servable = ok;
    handlers_are = λ a. ap (λ d. (d a).handlers) ds;
    in_phase = record { no_listener = refl; none_open = free };
  }

  pub keeps-Tracks :
      {v : View (Dict Service)} {y y' : System Codec} (p : Phase (Dict Service))
      → Tracks v y
      → KeepsServices y y'
      → InPhase p y'
      → Tracks (record v { phase = p }) y'
  keeps-Tracks p t k i = record {
    opt_is = k.opt_kept ∙ t.opt_is;
    map_is = k.map_kept ∙ t.map_is;
    servable = t.servable;
    handlers_are = λ a. k.handlers_kept a ∙ t.handlers_are a;
    in_phase = i;
  }

  pub store-InPhase :
      (p : Phase (Dict Service)) (m : Dict Service) (y : System Codec)
      → InPhase p y
      → InPhase p (stored y m)
  store-InPhase down m y d = record { no_listener = d.no_listener; none_open = d.none_open }
  store-InPhase closed m y c = record {
    g = c.g;
    l = c.l;
    old = c.old;
    has_started = stored-HasStarted y m c.has_started;
  }
  store-InPhase (live n) m y s = record {
    g = s.g;
    l = s.l;
    old = s.old;
    has_started = stored-HasStarted y m s.has_started;
    services = s.services;
    runs = s.runs;
    serves = s.serves;
  }

  -- The entries of the server's map are those of the stored one.
  entries_are :
      {v : View (Dict Service)} {y : System Codec}
      → Tracks v y
      → all_registered y.host.desc_at y.server.rpc_service_map ≡ all_registered descs v.stored
  entries_are {v} {y} t =
      ap (all_registered y.host.desc_at) t.map_is
      ∙ all_registered-cong v.stored y.host.desc_at descs t.handlers_are

  -- What the view says of one call, and what the call does.
  abbrev pub Agrees :
      View (Dict Service) × Exit (Unit {0}) → System Codec × Exit (Unit {0}) → Type 0
  Agrees (v', e') (y', e) = (e ≡ e') × Tracks v' y'

  pub started-Agrees :
      (v : View (Dict Service)) (y : System Codec) (b : Bool) (r : System Codec × Exit (Unit {0}))
      → Tracks v y
      → StartedIf b y r
      → Agrees (view_started b v) r
  started-Agrees v y true r t s =
      (s.0, keeps-Tracks (live v.stored) t s.2 (subst (Serves r.0) (entries_are t) s.1))
  started-Agrees v y false r t s = rw s (refl, t)

  pub listening-Tracks :
      (v : View (Dict Service)) (y y' : System Codec) (b : Bool)
      → Tracks v y
      → KeepsServices y y'
      → ServesIf b y' (all_registered y.host.desc_at y.server.rpc_service_map)
      → Tracks (listening b v) y'
  listening-Tracks v y y' true t k s =
      keeps-Tracks (live v.stored) t k (subst (Serves y') (entries_are t) s)
  listening-Tracks v y y' false t k s = keeps-Tracks down t k s
