-- ===== src/Server/History.antt =====
-- The life of a `TripleServer`: the user's calls in any order, and what the server promises of them.
pub mod Steps
pub mod Nil
pub mod Tracking
pub mod Refinement
pub mod Unordered
use triple.Base.{
  modify, M, false, true, returned, panicked, Exit, List, Bool, String, All, [], ◌∷◌, refl,
}
use triple.Base.Dict.{Dict}
use triple.Security.{TlsFiles}
use triple.Common.Codec.{Registry, EncodingLib}
use triple.Server.Registration.{Service}
use triple.Server.Registering.{IsServable}
use triple.Server.{on_server, stop, refresh_service, start, System}

-- A call of the server, with the addresses that the system lets be bound at the time, or a change of
-- the service map, which the user shares with the server. `D` is how maps are seen.
pub data Call (D : Type 0) : Type 0 where
  start_call refresh_call : (String → Bool) → Call D
  stop_call : Call D
  store_call : D → Call D

module _ {Codec : Type 0} (files : TlsFiles) (lib : EncodingLib Codec)
    (registry : Registry Codec) where
  unfoldable pub run_call : Call (Dict Service) → M (System Codec) (Unit {0})
  run_call (start_call binds) = start binds files lib registry
  run_call (refresh_call binds) = refresh_service binds files lib registry
  run_call stop_call = stop
  run_call (store_call m) = modify (on_server (λ t. record t { rpc_service_map = m }))

  -- The calls one after the other, with their exits; a panic is recovered by the caller.
  unfoldable pub run_calls :
      List (Call (Dict Service)) → System Codec → System Codec × List (Exit (Unit {0}))
  run_calls [] y = (y, [])
  run_calls (c ∷ cs) y =
      let (y1, e) = run_call c y in let (y2, es) = run_calls cs y1 in (y2, e ∷ es)

-- `down`: nothing listens, and the server's listener is nil; what grpc's `Serve` does with a nil listener
-- is not followed. `live m`: the services of `m` are served.
-- `closed`: the server still holds the listener that it closed.
pub data Phase (D : Type 0) : Type 0 where
  down closed : Phase D
  live : D → Phase D

-- What the user knows of a server: its phase, and what the service map holds now.
pub record View (D : Type 0) : Type 0 where
  pub phase : Phase D
  pub stored : D

module _ {D : Type 0} where
  -- A server that gets to listen serves the map as it is now.
  abbrev pub listening : Bool → View D → View D
  listening true v = record v { phase = live v.stored }
  listening false v = record v { phase = down }

  abbrev pub view_started : Bool → View D → View D × Exit (Unit {0})
  view_started true v = (listening true v, returned tt)
  view_started false v = (v, panicked)

  -- What a call promises, by the phase and by whether the server's address could be bound.
  abbrev pub view_call : String → Call D → View D → View D × Exit (Unit {0})
  view_call location (start_call binds) v = elim v.phase [
    | live m ↦ (v, panicked)
    | closed ↦ view_started (binds location) v
    | down ↦ view_started (binds location) v
  ]
  view_call location (refresh_call binds) v = elim v.phase [
    | live m ↦ (listening (binds location) v, returned tt)
    | closed ↦ (listening (binds location) v, returned tt)
    | down ↦ (v, panicked)
  ]
  view_call location stop_call v = elim v.phase [
    | live m ↦ (record v { phase = closed }, returned tt)
    | closed ↦ (v, returned tt)
    | down ↦ (v, panicked)
  ]
  view_call location (store_call m) v = (record v { stored = m }, returned tt)

  unfoldable pub view_calls : String → List (Call D) → View D → View D × List (Exit (Unit {0}))
  view_calls location [] v = (v, [])
  view_calls location (c ∷ cs) v =
      let (v1, e) = view_call location c v in
      let (v2, es) = view_calls location cs v1 in (v2, e ∷ es)

-- The user stores only services that implement what their keys need.
abbrev pub IsAllowed : Call (Dict Service) → Type 0
IsAllowed (store_call m) = All IsServable m
IsAllowed (start_call binds) = Unit
IsAllowed (refresh_call binds) = Unit
IsAllowed stop_call = Unit
