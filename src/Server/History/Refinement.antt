-- ===== src/Server/History/Refinement.antt =====
-- Every history of calls of a server does what its view says.
use triple.Base.{returned, ap, ◌≡◌, count_if, All, Bool, modify, String, List, ℕ, [], ◌∷◌, refl}
use triple.Common.Config.{TripleOption}
use triple.Server.Environment.{is_open_at, GrpcServer, ServiceDesc}
use triple.Security.{TlsFiles}
use triple.Common.Codec.{Registry, EncodingLib}
use triple.Common.Logger.{CanLog}
use triple.Server.History.{
  stop_call, store_call, closed, down, refresh_call, live, start_call, listening, view_started,
  view_call, IsAllowed, Phase, Call, view_calls, run_call, View, run_calls,
}
use triple.Server.{refresh_service, start, System}
use triple.Server.History.Tracking.{
  store-InPhase, keeps-Tracks, listening-Tracks, started-Agrees, Agrees, Tracks,
}
use triple.Base.Dict.{Dict}
use triple.Server.Registering.{IsServable}
use triple.Server.Refresh.{HasStarted}
use triple.Server.Registration.{Service}
use triple.Server.History.Steps.{start-free, refresh-HasStarted, start-Serves}
use triple.Server.History.Nil.{stop-HasStarted, stop-IsDown, refresh-IsDown}

module _ {Codec : Type 0} (opt : TripleOption) (descs : ℕ → ServiceDesc) (files : TlsFiles)
    (lib : EncodingLib Codec) (registry : Registry Codec) (can : CanLog opt.logger) where
  binds_opt :
      (binds : String → Bool) {v : View (Dict Service)} {y : System Codec}
      → Tracks opt descs v y
      → binds y.server.opt.location ≡ binds opt.location
  binds_opt binds t = ap (λ o. binds o.location) t.opt_is

  can_log :
      {v : View (Dict Service)} {y : System Codec}
      → Tracks opt descs v y
      → CanLog y.server.opt.logger
  can_log t = rw (t.opt_is) can

  IsServable-now :
      {v : View (Dict Service)} {y : System Codec}
      → Tracks opt descs v y
      → All IsServable y.server.rpc_service_map
  IsServable-now t = rw (t.map_is) t.servable

  start-Agrees :
      (binds : String → Bool) (v : View (Dict Service)) (y : System Codec)
      → Tracks opt descs v y
      → count_if (is_open_at y.server.opt.location) y.host.listeners ≡ 0
      → Agrees opt descs (view_started (binds opt.location) v) (start binds files lib registry y)
  start-Agrees binds v y t free = started-Agrees opt descs v y (binds opt.location) _ t (
      start-free binds files lib registry y (binds opt.location) (binds_opt binds t) free
        (can_log t) (IsServable-now t))

  refresh-Agrees :
      (binds : String → Bool) (v : View (Dict Service)) (y : System Codec) (g l : ℕ) (b : Bool)
      (old : GrpcServer Codec)
      → Tracks opt descs v y
      → HasStarted y g l b old
      → Agrees opt descs
          (listening (binds opt.location) v, returned tt)
          (refresh_service binds files lib registry y)
  refresh-Agrees binds v y g l b old t s =
      let r =
        refresh-HasStarted binds files lib registry y g l b old (binds opt.location)
          (binds_opt binds t) s (can_log t) (IsServable-now t) in
      (r.0, listening-Tracks opt descs v y _ (binds opt.location) t r.1 r.2)

  -- One call agrees with what the view says of it.
  call-Agrees :
      (c : Call (Dict Service)) (p : Phase (Dict Service)) (m : Dict Service) (y : System Codec)
      → IsAllowed c
      → Tracks opt descs (record { phase = p; stored = m }) y
      → Agrees opt descs
          (view_call opt.location c (record { phase = p; stored = m }))
          (run_call files lib registry c y)
  unfolding run_call modify
  call-Agrees (start_call binds) down m y ok t = start-Agrees binds _ y t t.in_phase.none_open
  call-Agrees (start_call binds) closed m y ok t =
      start-Agrees binds _ y t t.in_phase.has_started.alone
  call-Agrees (start_call binds) (live n) m y ok t =
      rw (start-Serves binds files lib registry y _ t.in_phase) (refl, t)
  call-Agrees (refresh_call binds) down m y ok t =
      let r = refresh-IsDown binds files lib registry y t.in_phase (can_log t) (IsServable-now t) in
      (r.0, keeps-Tracks opt descs down t r.1 r.2)
  call-Agrees (refresh_call binds) closed m y ok t =
      refresh-Agrees binds _ y _ _ _ _ t t.in_phase.has_started
  call-Agrees (refresh_call binds) (live n) m y ok t =
      refresh-Agrees binds _ y _ _ _ _ t t.in_phase.has_started
  call-Agrees stop_call down m y ok t = rw (stop-IsDown y t.in_phase) (refl, t)
  call-Agrees stop_call closed m y ok t =
      let r = stop-HasStarted y _ _ _ _ t.in_phase.has_started in
      (r.0, keeps-Tracks opt descs closed t r.1 r.2)
  call-Agrees stop_call (live n) m y ok t =
      let r = stop-HasStarted y _ _ _ _ t.in_phase.has_started in
      (r.0, keeps-Tracks opt descs closed t r.1 r.2)
  call-Agrees (store_call n) p m y ok t = (
    refl,
    record {
      opt_is = t.opt_is;
      map_is = refl;
      servable = ok;
      handlers_are = t.handlers_are;
      in_phase = store-InPhase opt descs p n y t.in_phase;
    },
  )

  -- Whatever `Start`, `RefreshService` and `Stop` are called in any order, and however the user
  -- changes the map between them: if the view is true of the server and the user stores only services
  -- that implement what their keys need, then each call exits as the view says, and the view is true
  -- of the server in the end.
  pub run_calls-Tracks :
      (cs : List (Call (Dict Service))) (v : View (Dict Service)) (y : System Codec)
      → All IsAllowed cs
      → Tracks opt descs v y
      → let (y', es) = run_calls files lib registry cs y in
        let (v', es') = view_calls opt.location cs v in (es ≡ es') × Tracks opt descs v' y'
  unfolding run_calls view_calls
  run_calls-Tracks [] v y ok t = (refl, t)
  run_calls-Tracks (c ∷ cs) v y ok t =
      let one = call-Agrees c v.phase v.stored y ok.0 t in
      let rest =
        run_calls-Tracks cs (view_call opt.location c v).0 (run_call files lib registry c y).0 ok.1
          one.1 in
      (rw (one.0, rest.0) refl, rest.1)
