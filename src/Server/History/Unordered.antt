-- ===== src/Server/History/Unordered.antt =====
-- The view of a server's life in which no map has an order. `Range` visits a `sync.Map` in any order,
-- and in another one at each call, so what a server promises cannot depend on it.
use mathlib.Core.Quot
use mathlib.Core.Quot.{Quot, Quot-set}
use mathlib.Core.List.{Perm}
use mathlib.Core.List.Perm
use triple.Base.{
  some, map, returned, ◌∙◌, sym, ap, ◌≡◌, count_if, All, Exit, Bool, ℕ, String, true, false, List,
  [], ◌∷◌, refl,
}
use triple.Base.Dict.{Dict}
use triple.Common.Config.{TripleOption}
use triple.Security.{TlsFiles}
use triple.Common.Codec.{Registry, EncodingLib}
use triple.Common.Logger.{CanLog}
use triple.Server.{new_triple_server, System}
use triple.Server.Environment.{is_open_at, Registered, Host, ServiceDesc}
use triple.Server.Registration.{Service}
use triple.Server.Registering.{IsServable, all_registered, registered_as}
use triple.Server.History.{
  start_call, refresh_call, stop_call, store_call, down, closed, live, Phase, Call, View, listening,
  view_started, view_call, view_calls, run_calls, IsAllowed,
}
use triple.Server.History.Steps.{Serves, HasClosed, IsDown}
use triple.Server.History.Tracking.{new_triple_server-Tracks, InPhase, Tracks}
use triple.Server.History.Refinement.{run_calls-Tracks}

-- A list without its order.
abbrev pub Bag : Type 0 → Type 0
Bag A = Quot (Perm {A = A})

abbrev pub bag : {A : Type 0} → List A → Bag A
bag xs = Quot.mk xs

abbrev pub Services : Type 0
Services = Bag (String × Service)

module _ {D E : Type 0} (f : D → E) where
  abbrev pub map_call : Call D → Call E
  map_call (start_call binds) = start_call binds
  map_call (refresh_call binds) = refresh_call binds
  map_call stop_call = stop_call
  map_call (store_call m) = store_call (f m)

  abbrev pub map_phase : Phase D → Phase E
  map_phase down = down
  map_phase closed = closed
  map_phase (live m) = live (f m)

  abbrev pub map_view : View D → View E
  map_view v = record { phase = map_phase v.phase; stored = f v.stored }

  abbrev MapsTo : View D × Exit (Unit {0}) → View E × Exit (Unit {0}) → Type 0
  MapsTo (v, e) r = r ≡ (map_view v, e)

  view_started-map :
      (b : Bool) (v : View D) → MapsTo (view_started b v) (view_started b (map_view v))
  view_started-map true v = refl
  view_started-map false v = refl

  listening-map : (b : Bool) (v : View D) → listening b (map_view v) ≡ map_view (listening b v)
  listening-map true v = refl
  listening-map false v = refl

  -- How a map is seen plays no part in what a call promises.
  view_call-map :
      (location : String) (c : Call D) (p : Phase D) (m : D)
      → let v : View D = record { phase = p; stored = m } in
        MapsTo (view_call location c v) (view_call location (map_call c) (map_view v))
  view_call-map location (start_call binds) down m = view_started-map (binds location) _
  view_call-map location (start_call binds) closed m = view_started-map (binds location) _
  view_call-map location (start_call binds) (live n) m = refl
  view_call-map location (refresh_call binds) down m = refl
  view_call-map location (refresh_call binds) closed m =
      ap (λ v. (v, returned tt)) (listening-map (binds location) _)
  view_call-map location (refresh_call binds) (live n) m =
      ap (λ v. (v, returned tt)) (listening-map (binds location) _)
  view_call-map location stop_call down m = refl
  view_call-map location stop_call closed m = refl
  view_call-map location stop_call (live n) m = refl
  view_call-map location (store_call n) p m = refl

  view_calls-map :
      (location : String) (cs : List (Call D)) (v : View D)
      → let (v', es) = view_calls location cs v in
        view_calls location (map map_call cs) (map_view v) ≡ (map_view v', es)
  unfolding view_calls
  view_calls-map location [] v = refl
  view_calls-map location (c ∷ cs) v =
      rw
        (
          view_call-map location c v.phase v.stored,
          view_calls-map location cs (view_call location c v).0,
        )
        refl

all_registered-map :
    (descs : ℕ → ServiceDesc) (m : Dict Service)
    → all_registered descs m ≡ map (λ (p : String × Service). registered_as descs p.0 p.1) m
all_registered-map descs [] = refl
all_registered-map descs ((key, v) ∷ m) =
    ap (λ rs. registered_as descs key v ∷ rs) (all_registered-map descs m)

-- The same services in another order give the same entries in another order.
all_registered-perm :
    (descs : ℕ → ServiceDesc) (m m' : Dict Service)
    → Perm m m'
    → bag (all_registered descs m) ≡ bag (all_registered descs m')
all_registered-perm descs m m' p =
    ap bag (all_registered-map descs m)
    ∙ Quot.sound (Perm.map (λ (p : String × Service). registered_as descs p.0 p.1) p)
    ∙ ap bag (sym (all_registered-map descs m'))

-- The entries that registering the services makes.
pub entries : (ℕ → ServiceDesc) → Services → Bag Registered
entries descs =
    Quot.lift Quot-set (λ m. bag (all_registered descs m))
      (λ m m' p. all_registered-perm descs m m' p)

module _ {Codec : Type 0} (opt : TripleOption) (descs : ℕ → ServiceDesc) where
  abbrev pub InUnorderedPhase : Phase Services → System Codec → Type 0
  InUnorderedPhase down y = IsDown y
  InUnorderedPhase closed y = HasClosed y
  InUnorderedPhase (live b) y = (rs : List Registered) × Serves y rs × (bag rs ≡ entries descs b)

  -- The view without an order is true of the server.
  pub record Shows (v : View Services) (y : System Codec) : Type 0 where
    pub opt_is : y.server.opt ≡ opt
    pub map_is : bag y.server.rpc_service_map ≡ v.stored
    pub in_phase : InUnorderedPhase v.phase y

  forget-InPhase :
      (p : Phase (Dict Service)) (y : System Codec)
      → InPhase opt descs p y
      → InUnorderedPhase (map_phase bag p) y
  unfolding entries
  forget-InPhase down y d = d
  forget-InPhase closed y c = c
  forget-InPhase (live m) y s = (all_registered descs m, s, refl)

  Tracks-Shows :
      (v : View (Dict Service)) (y : System Codec) → Tracks opt descs v y → Shows (map_view bag v) y
  Tracks-Shows v y t = record {
    opt_is = t.opt_is;
    map_is = ap bag t.map_is;
    in_phase = forget-InPhase v.phase y t.in_phase;
  }

  -- A new server whose address is free, after any calls of `Start`, `RefreshService` and `Stop` and
  -- any changes of the service map, each of which may list the map in another order: as long as the
  -- logger can log and only services that implement what their keys need are stored, each call exits
  -- as the view says that knows the maps without their order, and in the end the view is true of the
  -- server. While it is live the server serves, on the only open listener at its address, the entries
  -- of the map that was stored when it last began to listen, in some order.
  pub run_calls-Shows :
      (files : TlsFiles) (lib : EncodingLib Codec) (registry : Registry Codec)
      → CanLog opt.logger
      → (cs : List (Call (Dict Service))) (m : Dict Service) (h : Host Codec) → All IsAllowed cs
      → All IsServable m
      → h.desc_at ≡ descs
      → count_if (is_open_at opt.location) h.listeners ≡ 0
      → let y : System Codec = record { server = new_triple_server m (some opt); host = h } in
        let (y', es) = run_calls files lib registry cs y in
        let (v', es') =
          view_calls opt.location
            (map (map_call bag) cs)
            (record { phase = down; stored = bag m }) in
        (es ≡ es') × Shows v' y'
  run_calls-Shows files lib registry can cs m h ok servable ds free =
      let v : View (Dict Service) = record { phase = down; stored = m } in
      let (same, t) =
        run_calls-Tracks opt descs files lib registry can cs v _ ok
          (new_triple_server-Tracks opt descs m h servable ds free) in
      rw (view_calls-map bag opt.location cs v) (same, Tracks-Shows _ _ t)
